-- ===== src/Reviews/Lifecycle.antt =====
-- The life of a review: it is decided before its expiry or expires after it, once.
use revenue_guard.Prelude.{
  ℕ, ◌≤◌, ◌<◌, String, ◌≡◌, refl, ◌≢◌, ◌↔◌, ◌⊎◌, inl, inr, true, false, some, arith, Bool-cases,
  is_blank, str_eq_iff, ltb,
}
use revenue_guard.Fault.{ok, err, value_error}
use revenue_guard.Clock.{Datetime, at_utc, utc, utc_opt}
use revenue_guard.Reviews.{
  ReviewStatus, requested, expired, approve, HumanReviewRequest, HumanReviewDecision, status_of,
  check_review_texts, check_decision, init_review, is_matching_approval, decide_review,
  expire_review,
}

-- A request as `__post_init__` makes it while nobody has decided it.
pub record IsOpen (q : HumanReviewRequest) : Type 0 where
  pub texts : check_review_texts q ≡ ok tt
  pub status : q.status ≡ requested
  pub asked_utc : q.requested_at ≡ at_utc q.requested_at.instant
  pub expires_utc : q.expires_at ≡ at_utc q.expires_at.instant
  pub lasting : q.requested_at.instant < q.expires_at.instant

-- A decision as its own `__post_init__` makes it.
pub record IsDecision (d : HumanReviewDecision) : Type 0 where
  pub named : is_blank d.reviewer_id ≡ false
  pub argued : is_blank d.rationale ≡ false
  pub at_utc_zone : d.decided_at ≡ at_utc d.decided_at.instant

abbrev pub decided_review : HumanReviewRequest → HumanReviewDecision → HumanReviewRequest
decided_review q d = record q {
  status = status_of d.decision;
  reviewer_id = some d.reviewer_id;
  rationale = some d.rationale;
  decided_at = some d.decided_at;
}

abbrev pub expired_review : HumanReviewRequest → ℕ → String → HumanReviewRequest
expired_review q now actor = record q {
  status = expired;
  reviewer_id = some actor;
  rationale = some "REVIEW_EXPIRED";
  decided_at = some (at_utc now);
}

texts-decided :
    (q : HumanReviewRequest) (d : HumanReviewDecision)
    → check_review_texts (decided_review q d) ≡ check_review_texts q
unfolding check_review_texts
texts-decided q d = refl

texts-expired :
    (q : HumanReviewRequest) (now : ℕ) (actor : String)
    → check_review_texts (expired_review q now actor) ≡ check_review_texts q
unfolding check_review_texts
texts-expired q now actor = refl

init-decided :
    (q : HumanReviewRequest) (d : HumanReviewDecision)
    → IsOpen q
    → IsDecision d
    → q.requested_at.instant ≤ d.decided_at.instant
    → d.decided_at.instant < q.expires_at.instant
    → init_review (decided_review q d) ≡ ok (decided_review q d)
unfolding init_review check_decision utc utc_opt
init-decided q d o v a b = ground (arith, texts-decided q d)

init-expired :
    (q : HumanReviewRequest) (now : ℕ) (actor : String)
    → IsOpen q
    → is_blank actor ≡ false
    → q.expires_at.instant ≤ now
    → init_review (expired_review q now actor) ≡ ok (expired_review q now actor)
unfolding init_review check_decision utc utc_opt
init-expired q now actor o a b = ground (arith, texts-expired q now actor)

-- An open review can be decided before its expiry and not after; it can be expired from its expiry
-- on and not before. So at each time one of the two succeeds, and the other is refused.
pub decide_or_expire :
    (q : HumanReviewRequest) (d : HumanReviewDecision) (now : ℕ) (actor : String)
    → IsOpen q
    → IsDecision d
    → q.review_id ≡ d.review_id
    → d.decided_at.instant ≡ now
    → q.requested_at.instant ≤ now
    → is_blank actor ≡ false
    → ((now < q.expires_at.instant)
        × (decide_review q d ≡ ok (decided_review q d))
        × (expire_review q (at_utc now) actor
            ≡ err (value_error "review has not reached its expiry")))
      ⊎ ((q.expires_at.instant ≤ now)
          × (decide_review q d ≡ err (value_error "expired review cannot be approved or rejected"))
          × (expire_review q (at_utc now) actor ≡ ok (expired_review q now actor)))
unfolding decide_review expire_review utc
decide_or_expire q d now actor o v same at a b = elim (Bool-cases (ltb now q.expires_at.instant)) [
  | inl early ↦ inl (
    ground arith,
    ground (arith, init-decided q d o v, str_eq_iff q.review_id d.review_id),
    ground arith,
  )
  | inr late ↦ inr (
    ground arith,
    ground (arith, str_eq_iff q.review_id d.review_id),
    ground (arith, init-expired q now actor o),
  )
]

-- `init_review` rewrites the times alone.
init_review_lem :
    (q p : HumanReviewRequest)
    → init_review q ≡ ok p
    → (p.status ≡ q.status)
      × (p.action_fingerprint ≡ q.action_fingerprint)
      × (p.policy_digest ≡ q.policy_digest)
      × (p.expires_at.instant ≡ q.expires_at.instant)
unfolding init_review utc utc_opt
init_review_lem q p h = ground arith

decide_review_made :
    (q p : HumanReviewRequest) (d : HumanReviewDecision)
    → decide_review q d ≡ ok p
    → init_review (decided_review q d) ≡ ok p
unfolding decide_review
decide_review_made q p d h = ground arith

expire_review_made :
    (q p : HumanReviewRequest) (at : Datetime) (actor : String)
    → expire_review q at actor ≡ ok p
    → init_review (expired_review q at.instant actor) ≡ ok p
unfolding expire_review utc
expire_review_made q p at actor h = ground arith

-- After a decision the review matches an action exactly when the decision was to approve, the expiry
-- is still to come, and the action's fingerprint and the policy's digest are those of the request.
pub approval_by_decision :
    (q p : HumanReviewRequest) (d : HumanReviewDecision) (print policy_digest : String) (now : ℕ)
    → decide_review q d ≡ ok p
    → (is_matching_approval p print policy_digest (at_utc now) ≡ ok true) ↔ (
        (d.decision ≡ approve)
        × (now < q.expires_at.instant)
        × (q.action_fingerprint ≡ print)
        × (q.policy_digest ≡ policy_digest))
unfolding is_matching_approval utc
approval_by_decision q p d print policy_digest now h =
    let e = init_review_lem (decided_review q d) p (decide_review_made q p d h) in
    ground
      (arith, e, str_eq_iff p.action_fingerprint print, str_eq_iff p.policy_digest policy_digest)

-- An expired review matches nothing.
pub expired_matches_nothing :
    (q p : HumanReviewRequest) (at : Datetime) (actor print policy_digest : String) (now : ℕ)
    → expire_review q at actor ≡ ok p
    → is_matching_approval p print policy_digest (at_utc now) ≡ ok false
unfolding is_matching_approval utc
expired_matches_nothing q p at actor print policy_digest now h = ground (
  arith,
  init_review_lem (expired_review q at.instant actor) p (expire_review_made q p at actor h),
)

not_open :
    (q : HumanReviewRequest) (d : HumanReviewDecision) (now : ℕ) (actor : String)
    → q.status ≢ requested
    → (decide_review q d ≡ err (value_error "only a requested review can be decided"))
      × (expire_review q (at_utc now) actor
          ≡ err (value_error "only a requested review can expire"))
unfolding decide_review expire_review utc
not_open q d now actor h = (ground arith, ground arith)

decided_status :
    (d : HumanReviewDecision) (s : ReviewStatus) → s ≡ status_of d.decision → s ≢ requested
decided_status d s h k = ground arith

expired_status : (s : ReviewStatus) → s ≡ expired → s ≢ requested
expired_status s h k = ground arith

-- A review is closed once: after a call that decided or expired it, each later decision and each later
-- expiry of what that call gave is refused, with the error for a review that is not open.
pub closed_once :
    (q p : HumanReviewRequest) (d d' : HumanReviewDecision) (at : Datetime) (now : ℕ)
    (actor actor' : String)
    → (decide_review q d ≡ ok p) ⊎ (expire_review q at actor ≡ ok p)
    → (decide_review p d' ≡ err (value_error "only a requested review can be decided"))
      × (expire_review p (at_utc now) actor'
          ≡ err (value_error "only a requested review can expire"))
closed_once q p d d' at now actor actor' (inl decides) = not_open p d' now actor' (
    decided_status d p.status
      (init_review_lem (decided_review q d) p (decide_review_made q p d decides)).0)
closed_once q p d d' at now actor actor' (inr expires) = not_open p d' now actor' (
    expired_status p.status
      (init_review_lem (expired_review q at.instant actor) p
        (expire_review_made q p at actor expires)).0)
