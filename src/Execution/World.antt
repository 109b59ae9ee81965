-- ===== src/Execution/World.antt =====
-- The state that the execution service works on: the outbox, the cases with their transitions, and the
-- two private methods of packages/integrations/src/revenueguard_integrations/execution/service.py that
-- move a case and store an observation. Cases are read and written as
-- packages/integrations/src/revenueguard_integrations/persistence/recovery_repositories.py does. Each
-- write of the audit ledger draws its identifiers from `ids`.
use Prim.Native.String.{◌++◌ as append_text}
use revenue_guard.Prelude.{
  ℕ, String, Bool, true, false, ◌&&◌, Option, none, some, List, [], ◌∷◌, is_missing, ◌==◌,
  if◌then◌else◌, str_eq, codes,
}
use revenue_guard.Prelude.Int.{pos}
use revenue_guard.Fault.{Result, ok, err, lookup_error, recovery_error, ◌>>=◌, ◌>>◌, raise_if}
use revenue_guard.Clock.{Datetime}
use revenue_guard.Value.{Entries, no_entry, entry_at, int_value, str_value, get}
use revenue_guard.Cases.{
  CaseState, detected, diagnosing, decision_pending, policy_check, ready, executing, verifying,
  unknown, deferred, escalated, recovered, stopped, RecoveryCase, CaseTransition, TransitionRequest,
  state_eq, init_case, transition_case, schema_version,
}
use revenue_guard.Actions.{ActionStatus, EvidenceSource, VerifiedOutcome, init_outcome}
use revenue_guard.Ledger.{AuditAppend}
use revenue_guard.Table.{select, first_row, update}
use revenue_guard.Outbox.Tables.{ActionRow, Database, status_value, source_value}
use revenue_guard.Outbox.Enqueue.{record_audit}
use revenue_guard.Outbox.Attempt.{str_take}
use revenue_guard.Outbox.Outcomes.{store_outcome}

pub record World : Type 0 where
  pub db : Database
  -- the rows of `recovery_cases`
  pub cases : List RecoveryCase
  -- the rows of `case_transitions`, newest first
  pub transitions : List CaseTransition

abbrev pub state_value : CaseState → String
state_value detected = "DETECTED"
state_value diagnosing = "DIAGNOSING"
state_value decision_pending = "DECISION_PENDING"
state_value policy_check = "POLICY_CHECK"
state_value ready = "READY"
state_value executing = "EXECUTING"
state_value verifying = "VERIFYING"
state_value unknown = "UNKNOWN"
state_value deferred = "DEFERRED"
state_value escalated = "ESCALATED"
state_value recovered = "RECOVERED"
state_value stopped = "STOPPED"

abbrev pub has_case_key : String → String → RecoveryCase → Bool
has_case_key merchant identifier c = str_eq c.merchant_id merchant && str_eq c.case_id identifier

-- `get_case`, where the row is constructed again, as `_required_case` asks for it.
unfoldable pub required_case : World → ActionRow → Result RecoveryCase
required_case w r = elim (first_row (has_case_key r.merchant_id r.recovery_case_id) w.cases) [
  | none ↦ err (lookup_error "recovery action case does not exist")
  | some c ↦ init_case c
]

-- The rows that `apply_transition` updates.
abbrev pub is_before : CaseTransition → RecoveryCase → Bool
is_before t c =
    has_case_key t.merchant_id t.case_id c
    && state_eq c.state t.before_state
    && (c.state_version == t.before_version)

-- The values that it gives them.
abbrev pub moved_row : RecoveryCase → RecoveryCase → RecoveryCase
moved_row updated c = record c {
  state = updated.state;
  state_version = updated.state_version;
  updated_at = updated.updated_at;
  next_evaluation_at = updated.next_evaluation_at;
  terminal_reason = updated.terminal_reason;
  diagnosis = updated.diagnosis;
  diagnosis_confidence = updated.diagnosis_confidence;
  retry_count = updated.retry_count;
  contact_count = updated.contact_count;
  active_incident_id = updated.active_incident_id;
}

-- `rowcount != 1`.
abbrev pub not_one : List RecoveryCase → Bool
not_one (c ∷ []) = false
not_one _ = true

abbrev pub transition_request : CaseTransition → AuditAppend
transition_request t = record {
  merchant_id = t.merchant_id;
  event_type = "CASE_TRANSITION";
  aggregate_type = "RECOVERY_CASE";
  aggregate_id = t.case_id;
  correlation_id = t.correlation_id;
  actor_type = "SYSTEM";
  actor_reference = t.actor;
  payload = entry_at "after_state" (str_value (state_value t.after_state)) (
      entry_at "after_version" (int_value (pos t.after_version)) (
        entry_at "before_state" (str_value (state_value t.before_state)) (
          entry_at "before_version" (int_value (pos t.before_version))
            (entry_at "reason_code" (str_value t.reason_code) no_entry))));
  recorded_at = t.occurred_at;
  causation_id = none;
  policy_version = some t.policy_version;
  model_version = none;
  prompt_version = none;
  schema_version = none;
  feature_version = none;
  application_version = none;
}

-- `int(action.parameters["amount_minor"])` and `str(action.parameters["currency"])`: the constructor
-- of an action asks for both.
unfoldable pub amount_of : Entries → Result ℕ
amount_of parameters = elim (get "amount_minor" parameters) [
  | some (int_value (pos n)) ↦ ok n
  | _ ↦ err (lookup_error "amount_minor")
]

unfoldable pub currency_of : Entries → Result String
currency_of parameters = elim (get "currency" parameters) [
  | some (str_value s) ↦ ok s
  | _ ↦ err (lookup_error "currency")
]

-- The optional arguments of `_transition`.
pub record MoveOptions : Type 0 where
  pub evidence : Option String
  pub terminal_reason : Option String
  pub next_evaluation_at : Option Datetime
  pub policy_version : Option String

abbrev pub no_options : MoveOptions
no_options = record {
  evidence = none;
  terminal_reason = none;
  next_evaluation_at = none;
  policy_version = none;
}

abbrev pub with_evidence : Option String → MoveOptions
with_evidence reference = record no_options { evidence = reference }

abbrev pub ending : Option String → String → MoveOptions
ending reference reason = record no_options { evidence = reference; terminal_reason = some reason }

-- `value or default`.
abbrev pub or_default : Option String → String → String
or_default none d = d
or_default (some String.[]) d = d
or_default (some (String.◌∷◌ c s)) d = String.◌∷◌ c s

abbrev pub move_request :
    RecoveryCase → ActionRow → CaseState → String → Datetime → MoveOptions → TransitionRequest
move_request c r to_state reason_code occurred_at o = record {
  expected_version = c.state_version;
  to_state = to_state;
  actor = if is_missing o.evidence then "ACTION_EXECUTOR" else "OUTCOME_VERIFIER";
  reason_code = reason_code;
  correlation_id = r.correlation_id;
  occurred_at = occurred_at;
  reason_detail = none;
  policy_version = or_default o.policy_version r.policy_version;
  authoritative_evidence_reference = o.evidence;
  terminal_reason = o.terminal_reason;
  next_evaluation_at = o.next_evaluation_at;
}

-- What `_store_observation` is given beside the action and the status.
pub record Observation : Type 0 where
  pub source : EvidenceSource
  pub observed_at : Datetime
  pub evidence_reference : Option String
  pub reason_code : Option String
  pub authoritative : Bool
  pub recovered_amount_minor : ℕ
  pub verified_at : Option Datetime

abbrev pub or_time : Option Datetime → Datetime → Datetime
or_time none t = t
or_time (some u) t = u

abbrev joined : String → String → String
joined a b = append_text a (append_text ":" b)

module _ (sha256 : List ℕ → String) where
  -- `apply_transition`.
  unfoldable pub apply_transition :
      World → RecoveryCase → CaseTransition → String × String → Result World
  apply_transition w updated t ids = do
    raise_if (not_one (select (is_before t) w.cases)) (recovery_error "STALE_CASE_VERSION")
    audited ← record_audit sha256 w.db (transition_request t) ids
    ok (record {
      db = audited;
      cases = update (is_before t) (moved_row updated) w.cases;
      transitions = t ∷ w.transitions;
    })

  -- `_transition`.
  unfoldable pub move :
      World
      → RecoveryCase
      → ActionRow
      → CaseState
      → String
      → Datetime
      → MoveOptions
      → String × String
      → Result (RecoveryCase × World)
  move w c r to_state reason_code occurred_at o ids = do
    (updated, t) ← transition_case c (move_request c r to_state reason_code occurred_at o)
    moved ← apply_transition w updated t ids
    ok (updated, moved)

  -- `f"{merchant}:{action}:{source}:{reference}:{status}"`, hashed.
  abbrev pub observation_id : ActionRow → ActionStatus → Observation → String
  observation_id r status x =
      let reference =
        or_default x.evidence_reference
          (joined (source_value x.source) (or_default x.reason_code (status_value status))) in
      let material =
        joined r.merchant_id
          (joined r.id (joined (source_value x.source) (joined reference (status_value status)))) in
      append_text "outcome_" (str_take 32 (sha256 (codes material)))

  abbrev pub observed_outcome : ActionRow → ActionStatus → Observation → String → VerifiedOutcome
  observed_outcome r status x currency = record {
    outcome_id = observation_id r status x;
    action_id = r.id;
    case_id = r.recovery_case_id;
    merchant_id = r.merchant_id;
    outcome_status = status;
    is_authoritative = x.authoritative;
    evidence_source = x.source;
    recovered_amount_minor = x.recovered_amount_minor;
    currency = currency;
    observed_at = x.observed_at;
    created_at = or_time x.verified_at x.observed_at;
    evidence_reference = x.evidence_reference;
    provider_object_id = r.provider_object_id;
    reason_code = x.reason_code;
    verified_at = if x.authoritative then some (or_time x.verified_at x.observed_at) else none;
    schema = schema_version;
  }

  -- `_store_observation`.
  unfoldable pub observe :
      World → ActionRow → ActionStatus → Observation → String × String → Result World
  observe w r status x ids = do
    currency ← currency_of r.parameters
    outcome ← init_outcome (observed_outcome r status x currency)
    (row, stored) ← store_outcome sha256 w.db outcome ids
    ok (record w { db = stored })
