-- ===== src/Ledger/Examples.antt =====
-- The audit ledger at concrete inputs.
use revenue_guard.Prelude.{ℕ, String, ◌≡◌, refl, ◌↔◌, ◌⊎◌, none, some, List, [], ◌∷◌}
use revenue_guard.Prelude.Int.{pos}
use revenue_guard.Fault.{ok}
use revenue_guard.Clock.{at_utc}
use revenue_guard.Canonical.{num, obj, field, end}
use revenue_guard.Digest.{Collision, digest}
use revenue_guard.Value.{entry_at, no_entry, int_value}
use revenue_guard.Ledger.Payload.{canonical_payload}
use revenue_guard.Ledger.{
  AuditAppend, AuditEntry, Store, valid, zero_hash, genesis_payload, entry_from_request,
  append_after, append, verify, find_head, put_head, entries_of, validate_append, locked_head,
}
use revenue_guard.Ledger.Chain.{newest_first, Sealed, Intact, verify-Intact}
use revenue_guard.Ledger.Appended.{Appended, append-Appended}
use revenue_guard.Ledger.Tamper.{SameHistory, head-binds}

abbrev one_hash : List ℕ → String
one_hash document = "0123456789abcdef0123456789abcdef0123456789abcdef0123456789abcdef"

abbrev request : AuditAppend
request = record {
  merchant_id = "merchant_1";
  event_type = "CASE_TRANSITION";
  aggregate_type = "CASE";
  aggregate_id = "case_1";
  correlation_id = "corr_1";
  actor_type = "SYSTEM";
  actor_reference = "worker";
  payload = entry_at "version" (int_value (pos 2)) no_entry;
  recorded_at = at_utc 5000000;
  causation_id = none;
  policy_version = none;
  model_version = none;
  prompt_version = none;
  schema_version = none;
  feature_version = none;
  application_version = some "1.0";
}

abbrev nothing : Store
nothing = record { entries = []; heads = [] }

nothing-Intact : Intact one_hash nothing "merchant_1"
unfolding find_head entries_of
nothing-Intact = record { chained = tt; is_sealed = (refl, refl) }

abbrev hash_text : String
hash_text = "0123456789abcdef0123456789abcdef0123456789abcdef0123456789abcdef"

abbrev genesis : AuditEntry
genesis = record {
  merchant_id = "merchant_1";
  sequence = 1;
  entry_id = "audit_1";
  event_type = "LEDGER_GENESIS";
  aggregate_type = "MERCHANT";
  aggregate_id = "merchant_1";
  correlation_id = "corr_1";
  causation_id = none;
  actor_type = "SYSTEM";
  actor_reference = "audit-ledger";
  payload = genesis_payload;
  payload_sha256 = hash_text;
  previous_entry_hash = zero_hash;
  entry_hash = hash_text;
  policy_version = none;
  model_version = none;
  prompt_version = none;
  schema_version = none;
  feature_version = none;
  application_version = some "1.0";
  recorded_at = 5000000;
}

abbrev entry : AuditEntry
entry = record {
  merchant_id = "merchant_1";
  sequence = 2;
  entry_id = "audit_2";
  event_type = "CASE_TRANSITION";
  aggregate_type = "CASE";
  aggregate_id = "case_1";
  correlation_id = "corr_1";
  causation_id = none;
  actor_type = "SYSTEM";
  actor_reference = "worker";
  payload = obj (field "version" (num 2) end);
  payload_sha256 = hash_text;
  previous_entry_hash = hash_text;
  entry_hash = hash_text;
  policy_version = none;
  model_version = none;
  prompt_version = none;
  schema_version = none;
  feature_version = none;
  application_version = some "1.0";
  recorded_at = 5000000;
}

abbrev after : Store
after = record {
  entries = entry ∷ genesis ∷ [];
  heads =
      record { merchant_id = "merchant_1"; latest_sequence = 2; latest_entry_hash = hash_text }
      ∷ [];
}

appended : append one_hash nothing request "audit_1" "audit_2" ≡ ok (entry, after)
unfolding append append_after entry_from_request validate_append canonical_payload find_head
    put_head digest
appended = refl

append-Appended_example : Appended one_hash nothing "merchant_1" entry after
append-Appended_example =
    append-Appended one_hash nothing after request "audit_1" "audit_2" entry nothing-Intact appended

after-Intact : Intact one_hash after "merchant_1"
after-Intact =
    let done =
      append-Appended one_hash nothing after request "audit_1" "audit_2" entry nothing-Intact
        appended in
    done.intact

verify-Intact_example : Intact one_hash after "merchant_1" ↔ (
    ((verify one_hash after "merchant_1").status ≡ valid)
    × (entries_of after.entries "merchant_1" ≡ []
        → Sealed (locked_head after.heads "merchant_1") []))
verify-Intact_example = verify-Intact one_hash after "merchant_1"

head-binds_example :
    SameHistory one_hash
      (newest_first (entries_of after.entries "merchant_1"))
      (newest_first (entries_of after.entries "merchant_1"))
    ⊎ Collision one_hash
head-binds_example = head-binds one_hash after after "merchant_1" after-Intact after-Intact refl
