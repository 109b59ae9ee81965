-- ===== src/Outbox/Tables.antt =====
-- packages/integrations/src/revenueguard_integrations/persistence/models.py: the tables of the action
-- outbox, with the constraints that the database puts on their rows. A time is an instant, since the
-- columns hold timestamps with their zone. The values of the enumerations are kept as the members.
use revenue_guard.Prelude.{
  ℕ, String, Bool, true, false, not, ◌&&◌, ◌||◌, Option, none, some, List, leb, ltb, is_some,
  is_none, any, str_eq, is_currency_code,
}
use revenue_guard.Fault.{Result, ok, integrity_error, ◌>>◌, raise_if}
use revenue_guard.Value.{Entries}
use revenue_guard.Cases.{SubjectType}
use revenue_guard.Policy.Vocabulary.{ActionType, action_value}
use revenue_guard.Actions.{
  ActionStatus, pending, succeeded, failed, unknown, EvidenceSource, signed_webhook,
  provider_lookup, provider_response, simulator, no_source, is_succeeded, is_unknown, subject_value,
}
use revenue_guard.Ledger
use revenue_guard.Table.{update}

-- A row of `recovery_actions`.
pub record ActionRow : Type 0 where
  pub merchant_id : String
  pub id : String
  pub recovery_case_id : String
  pub decision_receipt_id : String
  pub action_type : ActionType
  pub target_type : SubjectType
  pub target_id : String
  pub logical_attempt : ℕ
  pub idempotency_key : String
  pub status : ActionStatus
  pub parameters : Entries
  pub policy_version : String
  pub correlation_id : String
  pub authorized_at : ℕ
  pub execute_after : ℕ
  pub next_attempt_at : ℕ
  pub attempt_count : ℕ
  pub max_attempts : ℕ
  pub lease_token : Option String
  pub lease_expires_at : Option ℕ
  pub provider_object_id : Option String
  pub unknown_since : Option ℕ
  pub reconciliation_deadline : Option ℕ
  pub dead_lettered_at : Option ℕ
  pub last_error_code : Option String
  pub schema_version : String
  pub created_at : ℕ
  pub updated_at : ℕ

-- A row of `action_attempts`.
pub record ActionAttempt : Type 0 where
  pub id : String
  pub merchant_id : String
  pub recovery_action_id : String
  pub attempt_number : ℕ
  pub request_id : String
  pub lease_token : String
  pub started_at : ℕ
  pub completed_at : Option ℕ
  pub outcome_status : Option ActionStatus
  pub response_category : Option String
  pub provider_object_id : Option String
  pub provider_status_code : Option ℕ
  pub error_code : Option String
  pub response_reference : Option String
  pub retryable : Bool

-- A row of `verified_outcomes`.
pub record OutcomeRow : Type 0 where
  pub merchant_id : String
  pub id : String
  pub recovery_action_id : String
  pub recovery_case_id : String
  pub outcome_status : ActionStatus
  pub is_authoritative : Bool
  pub evidence_source : EvidenceSource
  pub evidence_reference : Option String
  pub provider_object_id : Option String
  pub recovered_amount_minor : ℕ
  pub currency : String
  pub reason_code : Option String
  pub observed_at : ℕ
  pub verified_at : Option ℕ
  pub created_at : ℕ
  pub schema_version : String

-- The tables that the outbox works on.
pub record Database : Type 0 where
  pub actions : List ActionRow
  pub attempts : List ActionAttempt
  pub outcomes : List OutcomeRow
  pub ledger : Ledger.Store

abbrev pub status_value : ActionStatus → String
status_value pending = "PENDING"
status_value succeeded = "SUCCEEDED"
status_value failed = "FAILED"
status_value unknown = "UNKNOWN"

abbrev pub source_value : EvidenceSource → String
source_value signed_webhook = "SIGNED_WEBHOOK"
source_value provider_lookup = "PROVIDER_LOOKUP"
source_value provider_response = "PROVIDER_RESPONSE"
source_value simulator = "SIMULATOR"
source_value no_source = "NONE"

abbrev pub is_pending : ActionStatus → Bool
is_pending pending = true
is_pending _ = false

abbrev pub is_failed : ActionStatus → Bool
is_failed failed = true
is_failed _ = false

-- The check constraints of `recovery_actions`. That the status is a member is given by its type.
abbrev lease_pair : ActionRow → Bool
lease_pair r =
    (is_none r.lease_token && is_none r.lease_expires_at)
    || (is_some r.lease_token && is_some r.lease_expires_at)

abbrev unknown_metadata : ActionRow → Bool
unknown_metadata r =
    (is_unknown r.status && is_some r.unknown_since && is_some r.reconciliation_deadline)
    || (not (is_unknown r.status) && is_none r.unknown_since)

unfoldable pub action_constraints : ActionRow → Bool
action_constraints r =
    str_eq r.schema_version "1.0"
    && leb 1 r.logical_attempt
    && (leb 1 r.max_attempts && leb r.attempt_count r.max_attempts)
    && (leb r.authorized_at r.execute_after && leb r.authorized_at r.next_attempt_at)
    && lease_pair r
    && unknown_metadata r

-- An attempt is complete with its outcome, at no earlier time than its start, or it has neither.
abbrev pub completes_in_order : ActionAttempt → Bool
completes_in_order t = elim t.completed_at [
  | none ↦ is_none t.outcome_status
  | some at ↦ is_some t.outcome_status && leb t.started_at at
]

-- The check constraints of `action_attempts`.
unfoldable pub attempt_constraints : ActionAttempt → Bool
attempt_constraints t = leb 1 t.attempt_number && completes_in_order t

-- The check constraints of `verified_outcomes`.
unfoldable pub outcome_constraints : OutcomeRow → Bool
outcome_constraints o =
    str_eq o.schema_version "1.0"
    && is_currency_code o.currency
    && (not (ltb 0 o.recovered_amount_minor)
        || (is_succeeded o.outcome_status
            && o.is_authoritative
            && is_some o.evidence_reference
            && is_some o.verified_at))
    && (not (is_unknown o.outcome_status)
        || (not o.is_authoritative
            && not (ltb 0 o.recovered_amount_minor)
            && is_none o.verified_at))

-- `RecoveryAction.merchant_id == merchant_id, RecoveryAction.id == action_id`.
abbrev pub has_key : String → String → ActionRow → Bool
has_key merchant action r = str_eq r.merchant_id merchant && str_eq r.id action

-- The attempts of an action, and those of them that are open.
abbrev pub attempt_of : String → String → ActionAttempt → Bool
attempt_of merchant action t = str_eq t.merchant_id merchant && str_eq t.recovery_action_id action

abbrev pub is_open : ActionAttempt → Bool
is_open t = is_none t.completed_at

abbrev pub open_of : String → String → ActionAttempt → Bool
open_of merchant action t = attempt_of merchant action t && is_open t

-- Actions of one kind for one target.
abbrev pub same_kind : String → String → ActionType → String → ActionRow → Bool
same_kind merchant recovery_case kind target r =
    str_eq r.merchant_id merchant
    && str_eq r.recovery_case_id recovery_case
    && str_eq (action_value r.action_type) (action_value kind)
    && str_eq r.target_id target

-- The unique index `uq_recovery_actions_active_equivalent`.
abbrev pub active_equivalent : ActionRow → ActionRow → Bool
active_equivalent new r =
    same_kind new.merchant_id new.recovery_case_id new.action_type new.target_id r
    && str_eq (subject_value r.target_type) (subject_value new.target_type)
    && not (is_failed r.status)

-- What the database refuses of a row that is written: a row that fails a constraint, and a second active
-- row of one kind for one target.
unfoldable pub is_refused : Database → ActionRow → Bool
is_refused db r =
    not (action_constraints r)
    || (not (is_failed r.status)
        && any (λ s. not (has_key r.merchant_id r.id s) && active_equivalent r s) db.actions)

-- The flush of a row that was written.
unfoldable pub save_action : Database → ActionRow → Result Database
save_action db r = do
  raise_if (is_refused db r) integrity_error
  ok (record db { actions = update (has_key r.merchant_id r.id) (λ _. r) db.actions })

-- The flush of the attempts that a test selects.
unfoldable pub save_attempt : Database → (ActionAttempt → Bool) → ActionAttempt → Result Database
save_attempt db test t = do
  raise_if (not (attempt_constraints t)) integrity_error
  ok (record db { attempts = update test (λ _. t) db.attempts })
