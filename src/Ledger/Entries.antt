-- ===== src/Ledger/Entries.antt =====
-- packages/integrations/src/revenueguard_integrations/persistence/audit_ledger.py: the entries of the
-- ledger, what is hashed of them, and the statements on the two tables.
use revenue_guard.Prelude.{
  ℕ, String, Bool, true, false, ◌&&◌, ◌||◌, Option, none, some, List, [], ◌∷◌, ltb, leb, ◌==◌, any,
  str_eq, str_len, is_blank, if◌then◌else◌,
}
use revenue_guard.Fault.{Result, ok, value_error, ◌>>=◌, ◌>>◌, raise_if}
use revenue_guard.Clock.{Datetime}
use revenue_guard.Clock.Calendar.{format_exact}
use revenue_guard.Canonical.{Json, null, num, text, flag, obj, end, field}
use revenue_guard.Value.{Entries}
use revenue_guard.Ledger.Payload.{audit_utc, canonical_payload}

-- `_ZERO_HASH`.
abbrev pub zero_hash : String
zero_hash = "0000000000000000000000000000000000000000000000000000000000000000"

pub data AuditVerificationStatus : Type 0 where
  valid missing_genesis sequence_gap previous_hash_mismatch : AuditVerificationStatus
  payload_hash_mismatch entry_hash_mismatch head_mismatch : AuditVerificationStatus

pub record AuditAppend : Type 0 where
  pub merchant_id : String
  pub event_type : String
  pub aggregate_type : String
  pub aggregate_id : String
  pub correlation_id : String
  pub actor_type : String
  pub actor_reference : String
  pub payload : Entries
  pub recorded_at : Datetime
  pub causation_id : Option String
  pub policy_version : Option String
  pub model_version : Option String
  pub prompt_version : Option String
  pub schema_version : Option String
  pub feature_version : Option String
  pub application_version : Option String

-- A row of `audit_entries`. The payload is JSONB, an object whose keys are listed in their order;
-- the time is an instant.
pub record AuditEntry : Type 0 where
  pub merchant_id : String
  pub sequence : ℕ
  pub entry_id : String
  pub event_type : String
  pub aggregate_type : String
  pub aggregate_id : String
  pub correlation_id : String
  pub causation_id : Option String
  pub actor_type : String
  pub actor_reference : String
  pub payload : Json
  pub payload_sha256 : String
  pub previous_entry_hash : String
  pub entry_hash : String
  pub policy_version : Option String
  pub model_version : Option String
  pub prompt_version : Option String
  pub schema_version : Option String
  pub feature_version : Option String
  pub application_version : Option String
  pub recorded_at : ℕ

pub record AuditLedgerHead : Type 0 where
  pub merchant_id : String
  pub latest_sequence : ℕ
  pub latest_entry_hash : String

pub record AuditVerificationResult : Type 0 where
  pub merchant_id : String
  pub status : AuditVerificationStatus
  pub checked_entries : ℕ
  pub first_broken_sequence : Option ℕ

-- The two tables.
pub record Store : Type 0 where
  pub entries : List AuditEntry
  pub heads : List AuditLedgerHead

-- `_validate_append`.
abbrev wrong_identity : String → Bool
wrong_identity s = is_blank s || ltb 128 (str_len s)

unfoldable pub validate_append : AuditAppend → Result (Unit {0})
unfolding canonical_payload
validate_append q = do
  raise_if
      (any wrong_identity (
        q.merchant_id ∷ q.event_type ∷ q.aggregate_type ∷ q.aggregate_id ∷ q.correlation_id
        ∷ q.actor_type ∷ q.actor_reference ∷ []))
      (value_error "audit identity fields must be non-empty and at most 128 characters")
  raise_if (ltb 64 (str_len q.event_type) || ltb 64 (str_len q.aggregate_type))
      (value_error "audit event and aggregate types must be at most 64 characters")
  payload ← canonical_payload q.payload
  now ← audit_utc q.recorded_at
  ok tt

abbrev pub text_opt : Option String → Json
text_opt none = null
text_opt (some s) = text s

-- The document that `_entry_digest` hashes.
unfoldable pub entry_document : AuditEntry → String → Json
entry_document a payload_sha256 = obj (
    field "actor_reference" (text a.actor_reference) (
      field "actor_type" (text a.actor_type) (
        field "aggregate_id" (text a.aggregate_id) (
          field "aggregate_type" (text a.aggregate_type) (
            field "application_version" (text_opt a.application_version) (
              field "causation_id" (text_opt a.causation_id) (
                field "correlation_id" (text a.correlation_id) (
                  field "entry_id" (text a.entry_id) (
                    field "event_type" (text a.event_type) (
                      field "feature_version" (text_opt a.feature_version) (
                        field "merchant_id" (text a.merchant_id) (
                          field "model_version" (text_opt a.model_version) (
                            field "payload_sha256" (text payload_sha256) (
                              field "policy_version" (text_opt a.policy_version) (
                                field "previous_entry_hash" (text a.previous_entry_hash) (
                                  field "prompt_version" (text_opt a.prompt_version) (
                                    field "recorded_at" (text (format_exact a.recorded_at)) (
                                      field "schema_version" (text_opt a.schema_version)
                                        (field "sequence" (num a.sequence) end)))))))))))))))))))

-- `payload == {"coverage": "FORWARD_ONLY", "previous_records_backfilled": False}`.
abbrev pub genesis_payload : Json
genesis_payload =
    obj (
      field "coverage" (text "FORWARD_ONLY") (field "previous_records_backfilled" (flag false) end))

-- `v == False`, which 0 is too.
abbrev equals_false : Json → Bool
equals_false (flag false) = true
equals_false (num n) = n == 0
equals_false _ = false

abbrev is_genesis_payload : Json → Bool
is_genesis_payload (obj (field a (text s) (field b v end))) =
    equals_false v
    && str_eq a "coverage"
    && str_eq s "FORWARD_ONLY"
    && str_eq b "previous_records_backfilled"
is_genesis_payload _ = false

-- `_is_genesis`.
unfoldable pub is_genesis : AuditEntry → Bool
is_genesis a =
    str_eq a.event_type "LEDGER_GENESIS"
    && str_eq a.aggregate_type "MERCHANT"
    && str_eq a.aggregate_id a.merchant_id
    && str_eq a.previous_entry_hash zero_hash
    && is_genesis_payload a.payload

-- `_locked_head`: the merchant's head, which is made where there is none.
unfoldable pub find_head : List AuditLedgerHead → String → Option AuditLedgerHead
find_head [] merchant = none
find_head (h ∷ hs) merchant =
    let rest = find_head hs merchant in if str_eq h.merchant_id merchant then some h else rest

abbrev pub fresh_head : String → AuditLedgerHead
fresh_head merchant = record {
  merchant_id = merchant;
  latest_sequence = 0;
  latest_entry_hash = zero_hash;
}

abbrev pub locked_head : List AuditLedgerHead → String → AuditLedgerHead
locked_head hs merchant = elim (find_head hs merchant) [ none ↦ fresh_head merchant | some h ↦ h ]

-- The rows with the merchant's row replaced, or added.
unfoldable pub put_head : List AuditLedgerHead → AuditLedgerHead → List AuditLedgerHead
put_head [] head = head ∷ []
put_head (h ∷ hs) head =
    let rest = put_head hs head in
    if str_eq h.merchant_id head.merchant_id then head ∷ hs else h ∷ rest

-- `select(AuditEntry).where(merchant_id == ...).order_by(sequence)`.
unfoldable pub insert_entry : AuditEntry → List AuditEntry → List AuditEntry
insert_entry a [] = a ∷ []
insert_entry a (b ∷ bs) =
    let rest = insert_entry a bs in if leb a.sequence b.sequence then a ∷ b ∷ bs else b ∷ rest

unfoldable pub entries_of : List AuditEntry → String → List AuditEntry
unfolding insert_entry
entries_of [] merchant = []
entries_of (a ∷ as') merchant =
    let rest = entries_of as' merchant in
    if str_eq a.merchant_id merchant then insert_entry a rest else rest
