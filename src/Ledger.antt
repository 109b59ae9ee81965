-- ===== src/Ledger.antt =====
-- packages/integrations/src/revenueguard_integrations/persistence/audit_ledger.py: the audit ledger
-- of each merchant, a chain of entries that a head seals. The two tables are the state; that the
-- head's row is locked makes an append one step.
pub mod Payload
pub mod Entries
pub mod Chain
pub mod Appends
pub mod Appended
mod Examples
pub mod Tamper
use revenue_guard.Prelude.{
  ℕ, ◌+◌, ◌-◌, String, false, not, ◌&&◌, ◌||◌, Option, none, some, List, [], ◌∷◌, ◌==◌, str_eq,
  if◌then◌else◌,
}
use revenue_guard.Fault.{Result, ok, ◌>>=◌, ◌>>◌}
use revenue_guard.Canonical.{Json}
use revenue_guard.Digest.{digest}
use revenue_guard.Value.{entry_at, no_entry, str_value, bool_value}
use revenue_guard.Ledger.Payload.{audit_utc, canonical_payload}
pub use revenue_guard.Ledger.Entries.{
  zero_hash, AuditVerificationStatus, valid, missing_genesis, sequence_gap, previous_hash_mismatch,
  payload_hash_mismatch, entry_hash_mismatch, head_mismatch, AuditAppend, AuditEntry,
  AuditLedgerHead, AuditVerificationResult, Store, text_opt, genesis_payload, fresh_head,
  locked_head,
}
unfoldable pub use revenue_guard.Ledger.Entries.{
  validate_append, entry_document, is_genesis, find_head, put_head, insert_entry, entries_of,
}

module _ (sha256 : List ℕ → String) where
  -- `_digest_payload`.
  abbrev pub digest_payload : Json → String
  digest_payload payload = digest sha256 false payload

  -- `_entry_digest`.
  abbrev pub entry_digest : AuditEntry → String → String
  entry_digest a payload_sha256 = digest sha256 false (entry_document a payload_sha256)

  -- `_entry_from_request`, with the identifier that `uuid4` gives.
  unfoldable pub entry_from_request : AuditAppend → ℕ → String → String → Result AuditEntry
  entry_from_request q sequence previous_entry_hash entry_id = do
    payload ← canonical_payload q.payload
    now ← audit_utc q.recorded_at
    let unsealed : AuditEntry = record {
      merchant_id = q.merchant_id;
      sequence = sequence;
      entry_id = entry_id;
      event_type = q.event_type;
      aggregate_type = q.aggregate_type;
      aggregate_id = q.aggregate_id;
      correlation_id = q.correlation_id;
      causation_id = q.causation_id;
      actor_type = q.actor_type;
      actor_reference = q.actor_reference;
      payload = payload;
      payload_sha256 = digest_payload payload;
      previous_entry_hash = previous_entry_hash;
      entry_hash = "";
      policy_version = q.policy_version;
      model_version = q.model_version;
      prompt_version = q.prompt_version;
      schema_version = q.schema_version;
      feature_version = q.feature_version;
      application_version = q.application_version;
      recorded_at = now;
    }
    ok (record unsealed { entry_hash = entry_digest unsealed (digest_payload payload) })

  abbrev pub genesis_request : AuditAppend → AuditAppend
  genesis_request q = record {
    merchant_id = q.merchant_id;
    event_type = "LEDGER_GENESIS";
    aggregate_type = "MERCHANT";
    aggregate_id = q.merchant_id;
    correlation_id = q.correlation_id;
    actor_type = "SYSTEM";
    actor_reference = "audit-ledger";
    payload =
        entry_at "coverage" (str_value "FORWARD_ONLY")
          (entry_at "previous_records_backfilled" (bool_value false) no_entry);
    recorded_at = q.recorded_at;
    causation_id = none;
    policy_version = none;
    model_version = none;
    prompt_version = none;
    schema_version = none;
    feature_version = none;
    application_version = q.application_version;
  }

  abbrev pub sealed_by : AuditEntry → AuditLedgerHead
  sealed_by a = record {
    merchant_id = a.merchant_id;
    latest_sequence = a.sequence;
    latest_entry_hash = a.entry_hash;
  }

  -- The entry that comes next after a head, with the tables after it.
  unfoldable pub append_after :
      Store → AuditLedgerHead → AuditAppend → String → Result (AuditEntry × Store)
  append_after s head q entry_id = do
    a ← entry_from_request q (head.latest_sequence + 1) head.latest_entry_hash entry_id
    ok (a, record { entries = a ∷ s.entries; heads = put_head s.heads (sealed_by a) })

  -- `AuditLedger.append`, with the two identifiers that it may draw.
  unfoldable pub append : Store → AuditAppend → String → String → Result (AuditEntry × Store)
  append s q genesis_id entry_id = do
    validate_append q
    let head = locked_head s.heads q.merchant_id
    if head.latest_sequence == 0
        then (do
          (genesis, started) ←
              append_after s (fresh_head q.merchant_id) (genesis_request q) genesis_id
          append_after started (sealed_by genesis) q entry_id)
        else append_after s head q entry_id

  -- `_broken`.
  abbrev pub broken : String → AuditVerificationStatus → ℕ → ℕ → AuditVerificationResult
  broken merchant status checked sequence = record {
    merchant_id = merchant;
    status = status;
    checked_entries = checked;
    first_broken_sequence = some sequence;
  }

  -- What is wrong with the entry at a position, after this hash.
  unfoldable pub entry_fault : ℕ → String → AuditEntry → Option AuditVerificationStatus
  entry_fault expected previous a =
      if not (a.sequence == expected)
      then some sequence_gap
      else if (expected == 1) && not (is_genesis a)
      then some missing_genesis
      else if not (str_eq a.previous_entry_hash previous)
      then some previous_hash_mismatch
      else if not (str_eq a.payload_sha256 (digest_payload a.payload))
      then some payload_hash_mismatch
      else if not (str_eq a.entry_hash (entry_digest a (digest_payload a.payload)))
      then some entry_hash_mismatch
      else none

  -- The loop of `verify` and the comparison with the head after it.
  unfoldable pub verify_entries :
      String → AuditLedgerHead → ℕ → String → List AuditEntry → AuditVerificationResult
  verify_entries merchant head expected previous [] =
      if not (head.latest_sequence == expected - 1) || not (str_eq head.latest_entry_hash previous)
      then broken merchant head_mismatch (expected - 1) head.latest_sequence
      else record {
        merchant_id = merchant;
        status = valid;
        checked_entries = expected - 1;
        first_broken_sequence = none;
      }
  verify_entries merchant head expected previous (a ∷ as') =
      let rest = verify_entries merchant head (expected + 1) a.entry_hash as' in
      elim (entry_fault expected previous a) [
        | some status ↦ broken merchant status (expected - 1) a.sequence
        | none ↦ rest
      ]

  -- `AuditLedger.verify`.
  abbrev verify_from : String → Option AuditLedgerHead → List AuditEntry → AuditVerificationResult
  verify_from merchant head [] = record {
    merchant_id = merchant;
    status = valid;
    checked_entries = 0;
    first_broken_sequence = none;
  }
  verify_from merchant none (a ∷ as') = broken merchant head_mismatch 0 a.sequence
  verify_from merchant (some head) (a ∷ as') = verify_entries merchant head 1 zero_hash (a ∷ as')

  unfoldable pub verify : Store → String → AuditVerificationResult
  verify s merchant =
      verify_from merchant (find_head s.heads merchant) (entries_of s.entries merchant)
