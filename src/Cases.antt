-- ===== src/Cases.antt =====
-- packages/domain/src/revenueguard_domain/cases.py: a recovery case, its state machine, and the one
-- function that moves it. The types give what the `isinstance` tests ask, and counters are natural
-- numbers; `diagnosis_confidence`, a float between 0 and 1, is counted in ten-thousandths.
pub mod Validity
pub mod Graph
pub mod Moves
pub mod History
mod Examples
use revenue_guard.Prelude.{
  ℕ, ◌+◌, String, Bool, true, false, not, ◌&&◌, Option, none, some, List, [], ◌∷◌, ltb, ◌==◌, any,
  is_some, is_none, is_missing, str_eq, str_len, is_currency_code,
}
use revenue_guard.Fault.{
  Result, ok, value_error, minimum_error, transition_error, stale_version, ◌>>=◌, ◌>>◌, raise_if,
}
use revenue_guard.Clock.{Datetime, utc, utc_opt}
use revenue_guard.Identifier.{identifier, identifier_opt}

abbrev pub schema_version : String
schema_version = "1.0"

pub data WorkflowType : Type 0 where
  failed_subscription payment_degradation b2b_promise_to_pay : WorkflowType

pub data SubjectType : Type 0 where
  payment subscription invoice portfolio_incident : SubjectType

pub data CaseState : Type 0 where
  detected diagnosing decision_pending policy_check ready executing : CaseState
  verifying unknown deferred escalated recovered stopped : CaseState

abbrev state_code : CaseState → ℕ
state_code detected = 0
state_code diagnosing = 1
state_code decision_pending = 2
state_code policy_check = 3
state_code ready = 4
state_code executing = 5
state_code verifying = 6
state_code unknown = 7
state_code deferred = 8
state_code escalated = 9
state_code recovered = 10
state_code stopped = 11

-- `a is b` on the members of the enumeration.
abbrev pub state_eq : CaseState → CaseState → Bool
state_eq a b = state_code a == state_code b

-- `state in TERMINAL_STATES`.
abbrev pub is_terminal : CaseState → Bool
is_terminal recovered = true
is_terminal stopped = true
is_terminal _ = false

-- `ALLOWED_TRANSITIONS[before]`.
unfoldable pub allowed_transitions : CaseState → List CaseState
allowed_transitions detected = diagnosing ∷ []
allowed_transitions diagnosing = decision_pending ∷ []
allowed_transitions decision_pending = policy_check ∷ []
allowed_transitions policy_check = ready ∷ deferred ∷ decision_pending ∷ escalated ∷ stopped ∷ []
allowed_transitions ready = executing ∷ []
allowed_transitions executing = verifying ∷ unknown ∷ []
allowed_transitions verifying = recovered ∷ decision_pending ∷ unknown ∷ stopped ∷ []
allowed_transitions unknown = verifying ∷ escalated ∷ []
allowed_transitions deferred = decision_pending ∷ []
allowed_transitions escalated = decision_pending ∷ stopped ∷ []
allowed_transitions recovered = []
allowed_transitions stopped = []

unfoldable pub can_transition : CaseState → CaseState → Bool
unfolding allowed_transitions
can_transition before after = any (state_eq after) (allowed_transitions before)

pub record RecoveryCase : Type 0 where
  pub case_id : String
  pub merchant_id : String
  pub workflow_type : WorkflowType
  pub subject_type : SubjectType
  pub subject_id : String
  pub revenue_at_risk_minor : ℕ
  pub currency : String
  pub state : CaseState
  pub state_version : ℕ
  pub retry_count : ℕ
  pub contact_count : ℕ
  pub created_at : Datetime
  pub updated_at : Datetime
  pub customer_id : Option String
  pub diagnosis : Option String
  pub diagnosis_confidence : Option ℕ
  pub active_incident_id : Option String
  pub next_evaluation_at : Option Datetime
  pub terminal_reason : Option String
  pub schema : String

-- The two loops of `__post_init__` over identifiers.
unfoldable pub check_identifiers : RecoveryCase → Result (Unit {0})
check_identifiers c = do
  identifier "case_id" c.case_id 128
  identifier "merchant_id" c.merchant_id 128
  identifier "subject_id" c.subject_id 128
  identifier_opt "customer_id" c.customer_id 128
  identifier_opt "diagnosis" c.diagnosis 128
  identifier_opt "active_incident_id" c.active_incident_id 128
  identifier_opt "terminal_reason" c.terminal_reason 256

abbrev check_minimum : String → ℕ → ℕ → Result (Unit {0})
check_minimum name value minimum = raise_if (ltb value minimum) (minimum_error name minimum)

abbrev confidence_outside : Option ℕ → Bool
confidence_outside none = false
confidence_outside (some value) = ltb 10000 value

-- The checks of `__post_init__` on numbers, the currency and the terminal reason.
unfoldable pub check_values : RecoveryCase → Result (Unit {0})
check_values c = do
  check_minimum "revenue_at_risk_minor" c.revenue_at_risk_minor 0
  check_minimum "state_version" c.state_version 1
  check_minimum "retry_count" c.retry_count 0
  check_minimum "contact_count" c.contact_count 0
  raise_if (not (is_currency_code c.currency))
      (value_error "currency must be a three-letter uppercase ISO code")
  raise_if (confidence_outside c.diagnosis_confidence)
      (value_error "diagnosis_confidence must be between zero and one")
  raise_if (is_terminal c.state && is_none c.terminal_reason)
      (value_error "terminal cases require terminal_reason")
  raise_if (not (is_terminal c.state) && is_some c.terminal_reason)
      (value_error "nonterminal cases cannot have terminal_reason")

-- The end of `__post_init__`: the times are rewritten in UTC, then compared.
unfoldable pub normalize_times : RecoveryCase → Result RecoveryCase
normalize_times c = do
  created ← utc "created_at" c.created_at
  updated ← utc "updated_at" c.updated_at
  next ← utc_opt "next_evaluation_at" c.next_evaluation_at
  raise_if (ltb updated.instant created.instant)
      (value_error "updated_at cannot precede created_at")
  ok (record c { created_at = created; updated_at = updated; next_evaluation_at = next })

-- `RecoveryCase.__post_init__`: the case as constructed, or the first check that fails.
unfoldable pub init_case : RecoveryCase → Result RecoveryCase
init_case c = do
  raise_if (not (str_eq c.schema schema_version)) (value_error "unsupported RecoveryCase schema")
  check_identifiers c
  check_values c
  normalize_times c

pub record CaseTransition : Type 0 where
  pub case_id : String
  pub merchant_id : String
  pub before_state : CaseState
  pub after_state : CaseState
  pub before_version : ℕ
  pub after_version : ℕ
  pub actor : String
  pub reason_code : String
  pub reason_detail : Option String
  pub correlation_id : String
  pub policy_version : String
  pub authoritative_evidence_reference : Option String
  pub occurred_at : Datetime

-- `text is not None and len(text) > maximum`.
abbrev pub longer_than : ℕ → Option String → Bool
longer_than maximum none = false
longer_than maximum (some text) = ltb maximum (str_len text)

-- `CaseTransition.__post_init__`.
unfoldable pub init_transition : CaseTransition → Result CaseTransition
init_transition t = do
  identifier "case_id" t.case_id 128
  identifier "merchant_id" t.merchant_id 128
  identifier "actor" t.actor 128
  identifier "reason_code" t.reason_code 128
  identifier "correlation_id" t.correlation_id 128
  identifier "policy_version" t.policy_version 128
  raise_if (longer_than 2000 t.reason_detail)
      (value_error "reason_detail cannot exceed 2000 characters")
  raise_if (not (t.after_version == t.before_version + 1))
      (value_error "after_version must equal before_version + 1")
  raise_if (not (can_transition t.before_state t.after_state))
      (value_error "transition is not allowed")
  raise_if (state_eq t.after_state recovered && is_missing t.authoritative_evidence_reference)
      (value_error "recovered transition requires authoritative evidence")
  raise_if (longer_than 512 t.authoritative_evidence_reference)
      (value_error "authoritative evidence reference cannot exceed 512 characters")
  at ← utc "occurred_at" t.occurred_at
  ok (record t { occurred_at = at })

-- The keyword arguments of `transition_case`.
pub record TransitionRequest : Type 0 where
  pub expected_version : ℕ
  pub to_state : CaseState
  pub actor : String
  pub reason_code : String
  pub correlation_id : String
  pub occurred_at : Datetime
  pub reason_detail : Option String
  pub policy_version : String
  pub authoritative_evidence_reference : Option String
  pub terminal_reason : Option String
  pub next_evaluation_at : Option Datetime

-- The guards at the head of `transition_case`; the result is `transitioned_at`.
unfoldable pub check_transition : RecoveryCase → TransitionRequest → Result Datetime
check_transition c r = do
  raise_if (not (c.state_version == r.expected_version))
      (stale_version r.expected_version c.state_version)
  raise_if (not (can_transition c.state r.to_state)) (transition_error "ILLEGAL_CASE_TRANSITION")
  at ← utc "occurred_at" r.occurred_at
  raise_if (ltb at.instant c.updated_at.instant) (transition_error "TRANSITION_TIME_REGRESSION")
  raise_if (is_terminal r.to_state && is_missing r.terminal_reason)
      (transition_error "TERMINAL_REASON_REQUIRED")
  raise_if (not (is_terminal r.to_state) && is_some r.terminal_reason)
      (transition_error "UNEXPECTED_TERMINAL_REASON")
  raise_if (state_eq r.to_state recovered && is_missing r.authoritative_evidence_reference)
      (transition_error "AUTHORITATIVE_EVIDENCE_REQUIRED")
  ok at

-- The fields that `replace` gives anew.
abbrev pub moved_case : RecoveryCase → TransitionRequest → Datetime → RecoveryCase
moved_case c r at = record c {
  state = r.to_state;
  state_version = c.state_version + 1;
  updated_at = at;
  terminal_reason = r.terminal_reason;
  next_evaluation_at = r.next_evaluation_at;
}

abbrev pub transition_record : RecoveryCase → TransitionRequest → Datetime → ℕ → CaseTransition
transition_record c r at after_version = record {
  case_id = c.case_id;
  merchant_id = c.merchant_id;
  before_state = c.state;
  after_state = r.to_state;
  before_version = c.state_version;
  after_version = after_version;
  actor = r.actor;
  reason_code = r.reason_code;
  reason_detail = r.reason_detail;
  correlation_id = r.correlation_id;
  policy_version = r.policy_version;
  authoritative_evidence_reference = r.authoritative_evidence_reference;
  occurred_at = at;
}

-- `transition_case`. `replace` and the record of the transition run their `__post_init__`.
unfoldable pub transition_case :
    RecoveryCase → TransitionRequest → Result (RecoveryCase × CaseTransition)
transition_case c r = do
  at ← check_transition c r
  updated ← init_case (moved_case c r at)
  transition ← init_transition (transition_record c r at updated.state_version)
  ok (updated, transition)
