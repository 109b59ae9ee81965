-- ===== src/Outbox/Enqueue.antt =====
-- packages/integrations/src/revenueguard_integrations/persistence/action_repositories.py: the record
-- of an action in the outbox, and how it is read back. The identifiers that `uuid4` gives to the
-- entries of the audit ledger are arguments; so is whether the case, the receipt and the policy that
-- the foreign keys name are there, since their tables stand outside the outbox.
use revenue_guard.Prelude.{
  ℕ, String, Bool, not, ◌&&◌, ◌||◌, Option, none, some, List, ◌∷◌, any, is_some, ltb, leb, str_eq,
  if◌then◌else◌,
}
use revenue_guard.Prelude.Int.{pos}
use revenue_guard.Fault.{
  Result, ok, value_error, action_error, integrity_error, ◌>>=◌, ◌>>◌, raise_if,
}
use revenue_guard.Clock.{at_utc}
use revenue_guard.Value.{
  Value, Entries, no_entry, entry_at, entry_at_other, int_value, str_value, none_value,
}
use revenue_guard.Policy.Vocabulary.{ActionType, action_value}
use revenue_guard.Actions.{RecoveryAction, is_unknown, subject_value, init_action}
use revenue_guard.Ledger
use revenue_guard.Ledger.{AuditAppend}
use revenue_guard.Table.{select, first_row, one_or_none}
use revenue_guard.Outbox.Tables.{
  ActionRow, Database, status_value, is_failed, has_key, action_constraints, same_kind,
  active_equivalent,
}

-- `mapping[name] = value`.
unfoldable pub with_entry : String → Value → Entries → Entries
with_entry name v no_entry = entry_at name v no_entry
with_entry name v (entry_at key w es) =
    let rest = with_entry name v es in
    if str_eq key name then entry_at key v es else entry_at key w rest
with_entry name v (entry_at_other w es) = entry_at_other w (with_entry name v es)

abbrev pub text_value : Option String → Value
text_value none = none_value
text_value (some s) = str_value s

-- `get_action`.
unfoldable pub get_action : Database → String → String → Option ActionRow
get_action db merchant action = first_row (has_key merchant action) db.actions

-- `has_unknown_equivalent`.
unfoldable pub has_unknown_equivalent : Database → String → String → ActionType → String → Bool
has_unknown_equivalent db merchant recovery_case kind target =
    any (λ r. same_kind merchant recovery_case kind target r && is_unknown r.status) db.actions

-- The row that `store_action` makes.
abbrev pub row_of_action : RecoveryAction → String → String → ℕ → ℕ → ActionRow
row_of_action a policy_version correlation_id max_attempts reconciliation_deadline = record {
  merchant_id = a.merchant_id;
  id = a.action_id;
  recovery_case_id = a.case_id;
  decision_receipt_id = a.decision_receipt_id;
  action_type = a.action_type;
  target_type = a.target_type;
  target_id = a.target_id;
  logical_attempt = a.logical_attempt;
  idempotency_key = a.idempotency_key;
  status = a.status;
  parameters = a.parameters;
  policy_version = policy_version;
  correlation_id = correlation_id;
  authorized_at = a.authorized_at.instant;
  execute_after = a.execute_after.instant;
  next_attempt_at = a.execute_after.instant;
  attempt_count = 0;
  max_attempts = max_attempts;
  lease_token = none;
  lease_expires_at = none;
  provider_object_id = none;
  unknown_since = none;
  reconciliation_deadline = some reconciliation_deadline;
  dead_lettered_at = none;
  last_error_code = none;
  schema_version = a.schema;
  created_at = a.created_at.instant;
  updated_at = a.created_at.instant;
}

-- The flush of a new row: its constraints, its primary key, and that nothing equivalent is active. The
-- query of `store_row` has shown its idempotency key to be new.
unfoldable pub insert_action : Database → ActionRow → Bool → Result Database
insert_action db r parents_exist = do
  raise_if (not (action_constraints r) || not parents_exist) integrity_error
  raise_if (is_some (get_action db r.merchant_id r.id)) integrity_error
  raise_if (not (is_failed r.status) && any (active_equivalent r) db.actions) integrity_error
  ok (record db { actions = r ∷ db.actions })

-- A request to the audit ledger on a row of the outbox.
abbrev pub action_request :
    ActionRow → String → Option String → String → String → Entries → Option String → ℕ → AuditAppend
action_request r event_type causation actor_type actor payload schema_version at = record {
  merchant_id = r.merchant_id;
  event_type = event_type;
  aggregate_type = "RECOVERY_ACTION";
  aggregate_id = r.id;
  correlation_id = r.correlation_id;
  actor_type = actor_type;
  actor_reference = actor;
  payload = payload;
  recorded_at = at_utc at;
  causation_id = causation;
  policy_version = some r.policy_version;
  model_version = none;
  prompt_version = none;
  schema_version = schema_version;
  feature_version = none;
  application_version = none;
}

abbrev pub authorized_request : ActionRow → AuditAppend
authorized_request r =
    action_request r "ACTION_AUTHORIZED" none "SYSTEM" "recovery-service"
      (entry_at "action_type" (str_value (action_value r.action_type)) (
        entry_at "logical_attempt" (int_value (pos r.logical_attempt)) (
          entry_at "status" (str_value (status_value r.status))
            (entry_at "target_type" (str_value (subject_value r.target_type)) no_entry))))
      (some r.schema_version) r.authorized_at

abbrev pub key_is : String → ActionRow → Bool
key_is key r = str_eq r.idempotency_key key

module _ (sha256 : List ℕ → String) where
  -- The entry that an operation adds to the audit ledger, with the two identifiers that it may draw.
  unfoldable pub record_audit : Database → AuditAppend → String × String → Result Database
  record_audit db q ids = do
    (entry, ledger) ← Ledger.append sha256 db.ledger q ids.0 ids.1
    ok (record db { ledger = ledger })

  unfoldable pub add_action :
      Database → ActionRow → Bool → String × String → Result (ActionRow × Database)
  unfolding insert_action
  add_action db r parents_exist ids = do
    stored ← insert_action db r parents_exist
    audited ← record_audit stored (authorized_request r) ids
    ok (r, audited)

  -- What `store_action` does with the row that has its idempotency key.
  unfoldable pub reuse_action : Database → ActionRow → ActionRow → Result (ActionRow × Database)
  reuse_action db existing r = do
    raise_if (not (str_eq existing.merchant_id r.merchant_id) || not (str_eq existing.id r.id))
        (action_error "IDEMPOTENCY_KEY_CONFLICT")
    ok (existing, db)

  -- `store_action`, for the row that it would make.
  unfoldable pub store_row :
      Database → ActionRow → Bool → String × String → Result (ActionRow × Database)
  store_row db r parents_exist ids = do
    existing ← one_or_none (select (key_is r.idempotency_key) db.actions)
    elim existing [ some e ↦ reuse_action db e r | none ↦ add_action db r parents_exist ids ]

  -- `store_action`.
  unfoldable pub store_action :
      Database
      → RecoveryAction
      → String
      → String
      → ℕ
      → ℕ
      → Bool
      → String × String
      → Result (ActionRow × Database)
  store_action db a policy_version correlation_id max_attempts deadline parents_exist ids = do
    raise_if (ltb max_attempts 1) (value_error "max_attempts must be positive")
    raise_if (leb deadline a.authorized_at.instant)
        (value_error "reconciliation deadline must follow authorization")
    store_row db (row_of_action a policy_version correlation_id max_attempts deadline) parents_exist
        ids

  -- The parameters of the action with what the provider returned.
  abbrev pub row_parameters : ActionRow → Entries
  row_parameters r = elim r.provider_object_id [
    | none ↦ r.parameters
    | some p ↦ with_entry "provider_object_id" (str_value p) r.parameters
  ]

  -- `_action_from_row`.
  unfoldable pub action_from_row : ActionRow → Result RecoveryAction
  action_from_row r = init_action sha256 (record {
    action_id = r.id;
    case_id = r.recovery_case_id;
    merchant_id = r.merchant_id;
    decision_receipt_id = r.decision_receipt_id;
    action_type = r.action_type;
    target_type = r.target_type;
    target_id = r.target_id;
    logical_attempt = r.logical_attempt;
    idempotency_key = r.idempotency_key;
    status = r.status;
    parameters = row_parameters r;
    authorized_at = at_utc r.authorized_at;
    execute_after = at_utc r.execute_after;
    created_at = at_utc r.created_at;
    updated_at = some (at_utc r.updated_at);
    schema = r.schema_version;
  })

  -- `domain_action`.
  unfoldable pub domain_action : Database → String → String → Result (Option RecoveryAction)
  domain_action db merchant action = elim (get_action db merchant action) [
    | none ↦ ok none
    | some r ↦ do a ← action_from_row r; ok (some a)
  ]
