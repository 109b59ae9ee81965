-- ===== src/Policy/Snapshot.antt =====
-- `MerchantPolicySnapshot` and `PolicyEvaluationInput` of policy.py, with the environment that they
-- read: the hash and the time zone database, which are not in the repository.
use revenue_guard.Prelude.{
  ℕ, ◌+◌, ◌*◌, String, Bool, true, false, not, ◌&&◌, ◌||◌, Option, none, some, List, [], ◌∷◌, ltb,
  ◌==◌, any, is_none, is_blank, is_empty, is_currency_code, all_distinct,
}
use revenue_guard.Fault.{Result, ok, err, value_error, zone_not_found, ◌>>=◌, ◌>>◌, raise_if}
use revenue_guard.Clock.{Datetime, at_utc, utc, utc_opt}
use revenue_guard.Clock.Calendar.{format, iso_time}
use revenue_guard.Canonical.{Json, Items, num, text, arr, obj, last, item, end, field}
use revenue_guard.Digest.{digest}
use revenue_guard.Reviews.{HumanReviewRequest}
use revenue_guard.Policy.Vocabulary.{
  ActionType, defer_retry, create_payment_link, request_payment_method_update, send_reminder,
  schedule_promise_reminder, pause_retries, resume_deferred_case, escalate_human, stop_automation,
  no_action, action_eq, action_value, ContactChannel, ConsentState,
}
use revenue_guard.Policy.Candidate.{CandidateAction, IncidentConstraint}

-- A zone: the wall clock of an instant, and the instant of a wall clock reading (the first one,
-- where a reading comes twice).
pub record TimeZone : Type 0 where
  pub to_local : ℕ → ℕ
  pub from_local : ℕ → ℕ

pub record Environment : Type 0 where
  pub sha256 : List ℕ → String
  pub zoneinfo : String → Option TimeZone

-- `ZoneInfo(name)`.
abbrev pub find_zone : Environment → String → Result TimeZone
find_zone env name = elim (env.zoneinfo name) [ none ↦ err (zone_not_found name) | some z ↦ ok z ]

-- `allowed_actions` is a set of actions, listed; the quiet hours are microseconds since midnight.
pub record MerchantPolicySnapshot : Type 0 where
  pub version : String
  pub effective_at : Datetime
  pub allowed_actions : List ActionType
  pub retry_limit : ℕ
  pub contact_limit : ℕ
  pub minimum_expected_net_recovery_minor : ℕ
  pub human_review_amount_minor : ℕ
  pub minimum_confidence_basis_points : ℕ
  pub default_defer_seconds : ℕ
  pub timezone : String
  pub quiet_hours_start : ℕ
  pub quiet_hours_end : ℕ
  pub currency : String
  pub features_version : String

-- `MerchantPolicySnapshot.__post_init__`.
unfoldable pub init_policy : Environment → MerchantPolicySnapshot → Result MerchantPolicySnapshot
init_policy env p = do
  raise_if (is_blank p.version || is_blank p.features_version)
      (value_error "policy and feature versions are required")
  effective ← utc "effective_at" p.effective_at
  raise_if (is_empty p.allowed_actions) (value_error "allowed_actions cannot be empty")
  raise_if (p.default_defer_seconds == 0) (value_error "default_defer_seconds must be positive")
  raise_if (ltb 10000 p.minimum_confidence_basis_points)
      (value_error "minimum confidence cannot exceed 10000 basis points")
  raise_if (is_none (env.zoneinfo p.timezone)) (value_error "timezone must be a valid IANA zone")
  raise_if (not (is_currency_code p.currency))
      (value_error "policy currency must be a three-letter uppercase ISO code")
  ok (record p { effective_at = effective })

-- The members of the enumeration by the order of their values.
abbrev actions_by_value : List ActionType
actions_by_value =
    create_payment_link ∷ defer_retry ∷ escalate_human ∷ no_action ∷ pause_retries
    ∷ request_payment_method_update ∷ resume_deferred_case ∷ schedule_promise_reminder
    ∷ send_reminder ∷ stop_automation ∷ []

abbrev pub allows : List ActionType → ActionType → Bool
allows allowed a = any (action_eq a) allowed

-- `sorted(action.value for action in self.allowed_actions)`, of a set.
abbrev allowed_texts : List ActionType → List ActionType → Items
allowed_texts allowed [] = last
allowed_texts allowed (a ∷ as') =
    let rest = allowed_texts allowed as' in
    elim (allows allowed a) [ true ↦ item (text (action_value a)) rest | false ↦ rest ]

-- `canonical_document`.
unfoldable pub canonical_document : MerchantPolicySnapshot → Json
canonical_document p = obj (
    field "allowed_actions" (arr (allowed_texts p.allowed_actions actions_by_value)) (
      field "contact_limit" (num p.contact_limit) (
        field "currency" (text p.currency) (
          field "default_defer_seconds" (num p.default_defer_seconds) (
            field "effective_at" (text (format p.effective_at.instant)) (
              field "features_version" (text p.features_version) (
                field "human_review_amount_minor" (num p.human_review_amount_minor) (
                  field "minimum_confidence_basis_points" (num p.minimum_confidence_basis_points) (
                    field "minimum_expected_net_recovery_minor"
                      (num p.minimum_expected_net_recovery_minor)
                      (field "quiet_hours_end" (text (iso_time p.quiet_hours_end)) (
                        field "quiet_hours_start" (text (iso_time p.quiet_hours_start)) (
                          field "retry_limit" (num p.retry_limit) (
                            field "timezone" (text p.timezone)
                              (field "version" (text p.version) end))))))))))))))

-- `content_digest`.
unfoldable pub content_digest : Environment → MerchantPolicySnapshot → String
unfolding digest canonical_document
content_digest env p = digest env.sha256 true (canonical_document p)

-- `conservative_default_policy`; 25 August 2026 is day 739852 from 0001-01-01.
unfoldable pub conservative_default_policy : MerchantPolicySnapshot
conservative_default_policy = record {
  version = "phase3-conservative-default-1.0";
  effective_at = at_utc (739852 * 86400000000);
  allowed_actions = actions_by_value;
  retry_limit = 3;
  contact_limit = 2;
  minimum_expected_net_recovery_minor = 100;
  human_review_amount_minor = 50000;
  minimum_confidence_basis_points = 5000;
  default_defer_seconds = 3600;
  timezone = "UTC";
  quiet_hours_start = 22 * 3600000000;
  quiet_hours_end = 7 * 3600000000;
  currency = "INR";
  features_version = "phase3-v1";
}

pub record PolicyEvaluationInput : Type 0 where
  pub case_id : String
  pub amount_minor : ℕ
  pub currency : String
  pub confidence_basis_points : ℕ
  pub retry_count : ℕ
  pub contact_count : ℕ
  pub evaluated_at : Datetime
  pub candidates : List CandidateAction
  pub evidence_references : List String
  pub consent_by_channel : List (ContactChannel × ConsentState)
  pub opted_out_channels : List ContactChannel
  pub incidents : List IncidentConstraint
  pub already_paid : Bool
  pub disputed : Bool
  pub cancelled : Bool
  pub terminal : Bool
  pub diagnosis_defer_until : Option Datetime
  pub approval : Option HumanReviewRequest
  pub unknown_equivalent_action : Bool
  pub customer_contact_in_progress : Bool
  pub customer_identity_resolved : Bool
  pub active_promise_to_pay : Bool
  pub promise_due_at : Option Datetime

-- `tuple(c.rank for c in candidates) == tuple(range(start, start + len(candidates)))`.
abbrev pub ranked_from : ℕ → List CandidateAction → Bool
ranked_from n [] = true
ranked_from n (c ∷ cs) = (c.rank == n) && ranked_from (n + 1) cs

-- `candidates[-1].action_type is ActionType.NO_ACTION`, of a list that is not empty.
abbrev pub ends_with_no_action : List CandidateAction → Bool
ends_with_no_action [] = false
ends_with_no_action (c ∷ []) = action_eq c.action_type no_action
ends_with_no_action (c ∷ d ∷ cs) = ends_with_no_action (d ∷ cs)

-- `PolicyEvaluationInput.__post_init__`.
unfoldable pub init_evaluation : PolicyEvaluationInput → Result PolicyEvaluationInput
init_evaluation e = do
  raise_if (is_blank e.case_id || is_blank e.currency)
      (value_error "case_id and currency are required")
  raise_if (ltb 10000 e.confidence_basis_points)
      (value_error "confidence cannot exceed 10000 basis points")
  evaluated ← utc "evaluated_at" e.evaluated_at
  until ← utc_opt "diagnosis_defer_until" e.diagnosis_defer_until
  raise_if (is_empty e.candidates || not (ranked_from 1 e.candidates))
      (value_error "candidate ranks must be ordered and contiguous from one")
  raise_if (not (ends_with_no_action e.candidates))
      (value_error "candidate list must end with NO_ACTION")
  raise_if (is_empty e.evidence_references || not (all_distinct e.evidence_references))
      (value_error "evidence references must be non-empty and unique")
  due ← utc_opt "promise_due_at" e.promise_due_at
  raise_if (e.active_promise_to_pay && is_none due)
      (value_error "active promise requires promise_due_at")
  ok (record e { evaluated_at = evaluated; diagnosis_defer_until = until; promise_due_at = due })
