-- ===== src/Reviews.antt =====
-- packages/domain/src/revenueguard_domain/reviews.py: a request for a human review, its decision or
-- expiry, and the fingerprint that binds an approval to one action.
pub mod Lifecycle
pub mod Fingerprint
mod Examples
use revenue_guard.Prelude.{
  ℕ, ◌+◌, String, Bool, true, false, not, ◌&&◌, ◌||◌, Option, none, some, List, [], ◌∷◌, ltb, leb,
  ◌==◌, any, all, is_some, is_none, is_missing, is_blank, is_empty, str_eq, str_len, all_distinct,
  codes, length, is_upper_letter, if◌then◌else◌,
}
use revenue_guard.Fault.{Result, ok, err, value_error, ◌>>=◌, ◌>>◌, raise_if}
use revenue_guard.Clock.{Datetime, utc, utc_opt}
use revenue_guard.Canonical.{Json, num, text, obj, end, field}
use revenue_guard.Digest.{digest}

pub data ReviewStatus : Type 0 where
  requested approved rejected expired : ReviewStatus

pub data ReviewDecisionType : Type 0 where
  approve reject : ReviewDecisionType

abbrev pub is_requested : ReviewStatus → Bool
is_requested requested = true
is_requested _ = false

abbrev pub is_approved : ReviewStatus → Bool
is_approved approved = true
is_approved _ = false

-- `if not value: raise ValueError(f"{name} is required")`.
abbrev pub required : String → String → Result (Unit {0})
required name value = raise_if (is_blank value) (value_error name)

pub record ActionFingerprintInput : Type 0 where
  pub case_id : String
  pub action_type : String
  pub target : String
  pub amount_minor : ℕ
  pub currency : String
  pub logical_attempt : ℕ
  pub policy_digest : String

-- `str.isupper` of a text in ASCII: it has a capital and no small letter.
abbrev is_lower_letter : ℕ → Bool
is_lower_letter c = leb b'a' c && leb c b'z'

abbrev pub is_upper : String → Bool
is_upper s = any is_upper_letter (codes s) && not (any is_lower_letter (codes s))

-- `ActionFingerprintInput.__post_init__`.
unfoldable pub init_fingerprint : ActionFingerprintInput → Result ActionFingerprintInput
init_fingerprint i = do
  required "case_id" i.case_id
  required "action_type" i.action_type
  required "target" i.target
  required "currency" i.currency
  required "policy_digest" i.policy_digest
  raise_if (not (str_len i.currency == 3) || not (is_upper i.currency))
      (value_error "currency must be a three-letter uppercase code")
  ok i

-- The document that `ActionFingerprintInput.digest` hashes.
unfoldable pub fingerprint_document : ActionFingerprintInput → Json
fingerprint_document i = obj (
    field "action_type" (text i.action_type) (
      field "amount_minor" (num i.amount_minor) (
        field "case_id" (text i.case_id) (
          field "currency" (text i.currency) (
            field "logical_attempt" (num i.logical_attempt) (
              field "policy_digest" (text i.policy_digest)
                (field "target" (text i.target) end)))))))

-- `ActionFingerprintInput.digest`.
unfoldable pub fingerprint : (List ℕ → String) → ActionFingerprintInput → String
unfolding digest
fingerprint sha256 i = digest sha256 true (fingerprint_document i)

pub record HumanReviewRequest : Type 0 where
  pub review_id : String
  pub merchant_id : String
  pub case_id : String
  pub action_fingerprint : String
  pub proposed_action_type : String
  pub evidence_references : List String
  pub policy_version : String
  pub policy_digest : String
  pub reason_code : String
  pub risk_detail : String
  pub requested_at : Datetime
  pub expires_at : Datetime
  pub status : ReviewStatus
  pub reviewer_id : Option String
  pub rationale : Option String
  pub decided_at : Option Datetime

-- The checks of `HumanReviewRequest.__post_init__` that read no time.
unfoldable pub check_review_texts : HumanReviewRequest → Result (Unit {0})
check_review_texts q = do
  required "review_id" q.review_id
  required "merchant_id" q.merchant_id
  required "case_id" q.case_id
  required "action_fingerprint" q.action_fingerprint
  required "proposed_action_type" q.proposed_action_type
  required "policy_version" q.policy_version
  required "policy_digest" q.policy_digest
  required "reason_code" q.reason_code
  required "risk_detail" q.risk_detail
  raise_if (not (str_len q.action_fingerprint == 64) || not (str_len q.policy_digest == 64))
      (value_error "fingerprint and policy digest must be SHA-256 hex digests")
  raise_if (is_empty q.evidence_references || not (all_distinct q.evidence_references))
      (value_error "evidence references must be non-empty and unique")

-- The end of `__post_init__`, by the status: what a decision has to have, and when it may be made.
abbrev pub late_or_early : ReviewStatus → ℕ → ℕ → Bool
late_or_early approved decided expires = leb expires decided
late_or_early rejected decided expires = leb expires decided
late_or_early expired decided expires = ltb decided expires
late_or_early requested decided expires = false

abbrev window_message : ReviewStatus → String
window_message expired = "expired review decision cannot precede expiry"
window_message _ = "approval or rejection must precede review expiry"

abbrev check_decided_at : ReviewStatus → Datetime → Datetime → Option Datetime → Result (Unit {0})
check_decided_at status asked expires none =
    err (value_error "decided review requires reviewer, rationale, and time")
check_decided_at status asked expires (some decided) = do
  raise_if (ltb decided.instant asked.instant)
      (value_error "review decision cannot precede its request")
  raise_if (late_or_early status decided.instant expires.instant)
      (value_error (window_message status))

unfoldable pub check_decision :
    ReviewStatus
    → Option String
    → Option String
    → Datetime
    → Datetime
    → Option Datetime
    → Result (Unit {0})
check_decision requested reviewer rationale asked expires decided =
    raise_if (not (is_missing reviewer) || not (is_missing rationale) || is_some decided)
      (value_error "requested review cannot contain decision metadata")
check_decision status reviewer rationale asked expires decided = do
  raise_if (is_missing reviewer || is_missing rationale)
      (value_error "decided review requires reviewer, rationale, and time")
  check_decided_at status asked expires decided

-- `HumanReviewRequest.__post_init__`.
unfoldable pub init_review : HumanReviewRequest → Result HumanReviewRequest
init_review q = do
  check_review_texts q
  asked ← utc "requested_at" q.requested_at
  expires ← utc "expires_at" q.expires_at
  raise_if (leb expires.instant asked.instant)
      (value_error "review expiry must follow request time")
  decided ← utc_opt "decided_at" q.decided_at
  check_decision q.status q.reviewer_id q.rationale asked expires decided
  ok (record q { requested_at = asked; expires_at = expires; decided_at = decided })

-- `HumanReviewRequest.is_matching_approval`.
unfoldable pub is_matching_approval : HumanReviewRequest → String → String → Datetime → Result Bool
is_matching_approval q print policy_digest evaluated_at = do
  now ← utc "evaluated_at" evaluated_at
  ok (
      is_approved q.status
      && ltb now.instant q.expires_at.instant
      && str_eq q.action_fingerprint print
      && str_eq q.policy_digest policy_digest)

pub record HumanReviewDecision : Type 0 where
  pub review_id : String
  pub decision : ReviewDecisionType
  pub reviewer_id : String
  pub rationale : String
  pub decided_at : Datetime

-- `HumanReviewDecision.__post_init__`.
unfoldable pub init_decision : HumanReviewDecision → Result HumanReviewDecision
init_decision d = do
  required "review_id" d.review_id
  required "reviewer_id" d.reviewer_id
  required "rationale" d.rationale
  at ← utc "decided_at" d.decided_at
  ok (record d { decided_at = at })

abbrev pub status_of : ReviewDecisionType → ReviewStatus
status_of approve = approved
status_of reject = rejected

-- `decide_review`; `replace` runs `__post_init__` on the request that it makes.
unfoldable pub decide_review : HumanReviewRequest → HumanReviewDecision → Result HumanReviewRequest
decide_review q d = do
  raise_if (not (is_requested q.status)) (value_error "only a requested review can be decided")
  raise_if (not (str_eq q.review_id d.review_id))
      (value_error "review decision targets a different request")
  raise_if (leb q.expires_at.instant d.decided_at.instant)
      (value_error "expired review cannot be approved or rejected")
  raise_if (ltb d.decided_at.instant q.requested_at.instant)
      (value_error "review decision cannot precede its request")
  init_review (record q {
    status = status_of d.decision;
    reviewer_id = some d.reviewer_id;
    rationale = some d.rationale;
    decided_at = some d.decided_at;
  })

-- `expire_review`.
unfoldable pub expire_review : HumanReviewRequest → Datetime → String → Result HumanReviewRequest
expire_review q expired_at actor = do
  now ← utc "expired_at" expired_at
  raise_if (not (is_requested q.status)) (value_error "only a requested review can expire")
  raise_if (ltb now.instant q.expires_at.instant) (value_error "review has not reached its expiry")
  raise_if (is_blank actor) (value_error "actor is required")
  init_review (record q {
    status = expired;
    reviewer_id = some actor;
    rationale = some "REVIEW_EXPIRED";
    decided_at = some now;
  })
