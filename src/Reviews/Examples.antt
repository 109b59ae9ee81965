-- ===== src/Reviews/Examples.antt =====
-- Reviews at concrete inputs.
use revenue_guard.Prelude.{
  inl, ℕ, ◌≤◌, ◌<◌, String, ◌≡◌, refl, ◌↔◌, ◌⊎◌, true, false, none, List, [], ◌∷◌, arith,
}
use revenue_guard.Fault.{ok, err, value_error}
use revenue_guard.Clock.{at_utc, utc, utc_opt}
use revenue_guard.Canonical.{dumps}
use revenue_guard.Digest.{Collision}
use revenue_guard.Reviews.{
  requested, approve, ActionFingerprintInput, HumanReviewRequest, HumanReviewDecision, fingerprint,
  fingerprint_document, init_review, check_review_texts, check_decision, is_matching_approval,
  decide_review, expire_review,
}
use revenue_guard.Reviews.Lifecycle.{
  IsOpen, IsDecision, decided_review, expired_review, decide_or_expire, closed_once,
  approval_by_decision, expired_matches_nothing,
}
use revenue_guard.Reviews.Fingerprint.{approval-binds}

-- A digest of the right length stands for the hash.
abbrev some_digest : String
some_digest = "0123456789abcdef0123456789abcdef0123456789abcdef0123456789abcdef"

abbrev toy_hash : List ℕ → String
toy_hash [] = ""
toy_hash (c ∷ cs) = some_digest

abbrev action : ActionFingerprintInput
action = record {
  case_id = "case_1";
  action_type = "CREATE_PAYMENT_LINK";
  target = "sub_1";
  amount_minor = 75000;
  currency = "INR";
  logical_attempt = 1;
  policy_digest = some_digest;
}

abbrev open_review : HumanReviewRequest
open_review = record {
  review_id = "review_1";
  merchant_id = "merchant_demo_001";
  case_id = "case_1";
  action_fingerprint = some_digest;
  proposed_action_type = "CREATE_PAYMENT_LINK";
  evidence_references = "evt_1" ∷ "evt_2" ∷ [];
  policy_version = "phase3-conservative-default-1.0";
  policy_digest = some_digest;
  reason_code = "HUMAN_REVIEW_REQUIRED";
  risk_detail = "amount";
  requested_at = at_utc 1000;
  expires_at = at_utc 5000;
  status = requested;
  reviewer_id = none;
  rationale = none;
  decided_at = none;
}

abbrev approval : HumanReviewDecision
approval = record {
  review_id = "review_1";
  decision = approve;
  reviewer_id = "operator_1";
  rationale = "checked";
  decided_at = at_utc 3000;
}

open_review-IsOpen : IsOpen open_review
unfolding check_review_texts
open_review-IsOpen = record {
  texts = refl;
  status = refl;
  asked_utc = refl;
  expires_utc = refl;
  lasting = omega arith;
}

approval-IsDecision : IsDecision approval
approval-IsDecision = record { named = refl; argued = refl; at_utc_zone = refl }

approved_now : decide_review open_review approval ≡ ok (decided_review open_review approval)
unfolding decide_review init_review check_review_texts check_decision utc utc_opt
approved_now = refl

expired_now :
    expire_review open_review (at_utc 6000) "SYSTEM" ≡ ok (expired_review open_review 6000 "SYSTEM")
unfolding expire_review init_review check_review_texts check_decision utc utc_opt
expired_now = refl

decide_or_expire_example :
    ((3000 < open_review.expires_at.instant)
      × (decide_review open_review approval ≡ ok (decided_review open_review approval))
      × (expire_review open_review (at_utc 3000) "SYSTEM"
          ≡ err (value_error "review has not reached its expiry")))
    ⊎ ((open_review.expires_at.instant ≤ 3000)
        × (decide_review open_review approval
            ≡ err (value_error "expired review cannot be approved or rejected"))
        × (expire_review open_review (at_utc 3000) "SYSTEM"
            ≡ ok (expired_review open_review 3000 "SYSTEM")))
decide_or_expire_example =
    decide_or_expire open_review approval 3000 "SYSTEM" open_review-IsOpen approval-IsDecision refl
      refl (omega arith) refl

closed_once_example :
    (decide_review (decided_review open_review approval) approval
      ≡ err (value_error "only a requested review can be decided"))
    × (expire_review (decided_review open_review approval) (at_utc 6000) "SYSTEM"
        ≡ err (value_error "only a requested review can expire"))
closed_once_example =
    closed_once open_review (decided_review open_review approval) approval approval (at_utc 6000)
      6000 "SYSTEM" "SYSTEM" (inl approved_now)

approval_by_decision_example :
    (is_matching_approval
        (decided_review open_review approval)
        some_digest
        some_digest
        (at_utc 4000)
      ≡ ok true)
    ↔ ((approval.decision ≡ approve)
        × (4000 < open_review.expires_at.instant)
        × (open_review.action_fingerprint ≡ some_digest)
        × (open_review.policy_digest ≡ some_digest))
approval_by_decision_example =
    approval_by_decision open_review (decided_review open_review approval) approval some_digest
      some_digest 4000 approved_now

expired_matches_nothing_example :
    is_matching_approval
      (expired_review open_review 6000 "SYSTEM")
      some_digest
      some_digest
      (at_utc 6000)
    ≡ ok false
expired_matches_nothing_example =
    expired_matches_nothing open_review (expired_review open_review 6000 "SYSTEM") (at_utc 6000)
      "SYSTEM" some_digest some_digest 6000 expired_now

action-print : open_review.action_fingerprint ≡ fingerprint toy_hash action
unfolding fingerprint fingerprint_document dumps
action-print = refl

approves :
    is_matching_approval
      (decided_review open_review approval)
      (fingerprint toy_hash action)
      action.policy_digest
      (at_utc 4000)
    ≡ ok true
unfolding is_matching_approval fingerprint fingerprint_document utc dumps
approves = refl

approval-binds_example : (action ≡ action) ⊎ Collision toy_hash
approval-binds_example =
    approval-binds toy_hash (decided_review open_review approval) action action 4000 action-print
      approves
