-- ===== src/Actions.antt =====
-- packages/domain/src/revenueguard_domain/actions.py: recovery actions with their idempotency keys,
-- and the verified outcomes of actions.
pub mod Key
pub mod Money
mod Examples
use Prim.Native.String.{◌++◌}
use revenue_guard.Prelude.{
  ℕ, String, Bool, true, false, not, ◌&&◌, ◌||◌, Option, none, some, List, ltb, ◌==◌, is_some,
  is_none, str_eq, is_currency_code,
}
use revenue_guard.Prelude.Int.{pos}
use revenue_guard.Fault.{Result, ok, err, value_error, ◌>>=◌, ◌>>◌, raise_if}
use revenue_guard.Clock.{Datetime, utc, utc_opt}
use revenue_guard.Identifier.{identifier}
use revenue_guard.Canonical.{Json, num, text, obj, end, field}
use revenue_guard.Digest.{digest}
use revenue_guard.Value.{Value, Entries, int_value, str_value, get}
use revenue_guard.Cases.{
  schema_version, SubjectType, payment, subscription, invoice, portfolio_incident,
}
use revenue_guard.Policy.Vocabulary.{ActionType, action_value}

pub data ActionStatus : Type 0 where
  pending succeeded failed unknown : ActionStatus

pub data EvidenceSource : Type 0 where
  signed_webhook provider_lookup provider_response simulator no_source : EvidenceSource

abbrev pub is_succeeded : ActionStatus → Bool
is_succeeded succeeded = true
is_succeeded _ = false

abbrev pub is_unknown : ActionStatus → Bool
is_unknown unknown = true
is_unknown _ = false

-- `target_type.value`.
abbrev pub subject_value : SubjectType → String
subject_value payment = "PAYMENT"
subject_value subscription = "SUBSCRIPTION"
subject_value invoice = "INVOICE"
subject_value portfolio_incident = "PORTFOLIO_INCIDENT"

-- The keyword arguments of `action_idempotency_key`: what identifies an action.
pub record ActionIdentity : Type 0 where
  pub merchant_id : String
  pub case_id : String
  pub action_type : ActionType
  pub target_type : SubjectType
  pub target_id : String
  pub logical_attempt : ℕ

-- The document whose digest is the key.
unfoldable pub key_document : ActionIdentity → Json
key_document i = obj (
    field "action_type" (text (action_value i.action_type)) (
      field "case_id" (text i.case_id) (
        field "logical_attempt" (num i.logical_attempt) (
          field "merchant_id" (text i.merchant_id) (
            field "target_id" (text i.target_id) (
              field "target_type" (text (subject_value i.target_type))
                (field "version" (num 1) end)))))))

pub record RecoveryAction : Type 0 where
  pub action_id : String
  pub case_id : String
  pub merchant_id : String
  pub decision_receipt_id : String
  pub action_type : ActionType
  pub target_type : SubjectType
  pub target_id : String
  pub logical_attempt : ℕ
  pub idempotency_key : String
  pub status : ActionStatus
  pub parameters : Entries
  pub authorized_at : Datetime
  pub execute_after : Datetime
  pub created_at : Datetime
  pub updated_at : Option Datetime
  pub schema : String

abbrev pub identity_of : RecoveryAction → ActionIdentity
identity_of a = record {
  merchant_id = a.merchant_id;
  case_id = a.case_id;
  action_type = a.action_type;
  target_type = a.target_type;
  target_id = a.target_id;
  logical_attempt = a.logical_attempt;
}

abbrev pub is_amount : Option Value → Bool
is_amount (some (int_value (pos n))) = true
is_amount _ = false

abbrev pub is_currency : Option Value → Bool
is_currency (some (str_value s)) = is_currency_code s
is_currency _ = false

abbrev pub is_test_mode : Option Value → Bool
is_test_mode (some (str_value s)) = str_eq s "TEST"
is_test_mode _ = false

-- Whether a time that may be absent comes before an instant.
abbrev pub before_time : Option Datetime → ℕ → Bool
before_time none t = false
before_time (some u) t = ltb u.instant t

module _ (sha256 : List ℕ → String) where
  -- `action_idempotency_key`.
  unfoldable pub action_idempotency_key : ActionIdentity → Result String
  unfolding digest key_document
  action_idempotency_key i = do
    identifier "merchant_id" i.merchant_id 128
    identifier "case_id" i.case_id 128
    identifier "target_id" i.target_id 128
    raise_if (ltb i.logical_attempt 1) (value_error "logical_attempt must be at least one")
    ok ("rg:v1:" ++ digest sha256 true (key_document i))

  -- The end of `RecoveryAction.__post_init__`: the times.
  unfoldable pub normalize_action : RecoveryAction → Result RecoveryAction
  normalize_action a = do
    authorized ← utc "authorized_at" a.authorized_at
    after ← utc "execute_after" a.execute_after
    created ← utc "created_at" a.created_at
    raise_if (ltb after.instant authorized.instant || ltb created.instant authorized.instant)
        (value_error "action chronology is invalid")
    updated ← utc_opt "updated_at" a.updated_at
    raise_if (before_time updated created.instant)
        (value_error "updated_at cannot precede created_at")
    ok (record a {
      authorized_at = authorized;
      execute_after = after;
      created_at = created;
      updated_at = updated;
    })

  -- `RecoveryAction.__post_init__`.
  unfoldable pub init_action : RecoveryAction → Result RecoveryAction
  unfolding normalize_action
  init_action a = do
    raise_if (not (str_eq a.schema schema_version))
        (value_error "unsupported RecoveryAction schema")
    identifier "action_id" a.action_id 128
    identifier "case_id" a.case_id 128
    identifier "merchant_id" a.merchant_id 128
    identifier "decision_receipt_id" a.decision_receipt_id 128
    identifier "target_id" a.target_id 128
    raise_if (ltb a.logical_attempt 1) (value_error "logical_attempt must be at least one")
    expected ← action_idempotency_key (identity_of a)
    raise_if (not (str_eq a.idempotency_key expected))
        (value_error "idempotency_key does not match logical action identity")
    raise_if (not (is_amount (get "amount_minor" a.parameters)))
        (value_error "parameters.amount_minor must be a non-negative integer")
    raise_if (not (is_currency (get "currency" a.parameters)))
        (value_error "parameters.currency must be a three-letter uppercase ISO code")
    raise_if (not (is_test_mode (get "provider_mode" a.parameters)))
        (value_error "only TEST provider mode is supported")
    normalize_action a

pub record VerifiedOutcome : Type 0 where
  pub outcome_id : String
  pub action_id : String
  pub case_id : String
  pub merchant_id : String
  pub outcome_status : ActionStatus
  pub is_authoritative : Bool
  pub evidence_source : EvidenceSource
  pub recovered_amount_minor : ℕ
  pub currency : String
  pub observed_at : Datetime
  pub created_at : Datetime
  pub evidence_reference : Option String
  pub provider_object_id : Option String
  pub reason_code : Option String
  pub verified_at : Option Datetime
  pub schema : String

-- `bool(self.recovered_amount_minor)`.
abbrev pub recovers : VerifiedOutcome → Bool
recovers o = ltb 0 o.recovered_amount_minor

-- The checks of `VerifiedOutcome.__post_init__` on what the outcome claims.
unfoldable pub check_claims : VerifiedOutcome → Result (Unit {0})
check_claims o = do
  raise_if
      (is_unknown o.outcome_status && (o.is_authoritative || recovers o || is_some o.verified_at))
      (value_error "UNKNOWN outcomes cannot be authoritative or recover money")
  raise_if (recovers o && (not (is_succeeded o.outcome_status) || not o.is_authoritative))
      (value_error "recovered money requires authoritative success")
  raise_if (recovers o && (is_none o.evidence_reference || is_none o.verified_at))
      (value_error "recovered money requires evidence and verification time")
  raise_if (o.is_authoritative && is_none o.verified_at)
      (value_error "authoritative outcomes require verified_at")

-- `VerifiedOutcome.__post_init__`.
unfoldable pub init_outcome : VerifiedOutcome → Result VerifiedOutcome
unfolding check_claims
init_outcome o = do
  raise_if (not (str_eq o.schema schema_version)) (value_error "unsupported VerifiedOutcome schema")
  identifier "outcome_id" o.outcome_id 128
  identifier "action_id" o.action_id 128
  identifier "case_id" o.case_id 128
  identifier "merchant_id" o.merchant_id 128
  raise_if (not (is_currency_code o.currency))
      (value_error "currency must be a three-letter uppercase ISO code")
  check_claims o
  observed ← utc "observed_at" o.observed_at
  created ← utc "created_at" o.created_at
  verified ← utc_opt "verified_at" o.verified_at
  raise_if (before_time verified observed.instant)
      (value_error "verified_at cannot precede observed_at")
  ok (record o { observed_at = observed; created_at = created; verified_at = verified })
