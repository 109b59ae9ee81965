-- ===== src/Actions/Examples.antt =====
-- Actions and outcomes at concrete inputs.
use revenue_guard.Prelude.{ℕ, String, ◌≡◌, refl, ◌⊎◌, true, none, some, List}
use revenue_guard.Prelude.Int.{pos}
use revenue_guard.Fault.{ok}
use revenue_guard.Clock.{at_utc, utc, utc_opt}
use revenue_guard.Identifier.{identifier}
use revenue_guard.Digest.{Collision, digest}
use revenue_guard.Value.{entry_at, no_entry, int_value, str_value}
use revenue_guard.Cases.{subscription}
use revenue_guard.Policy.Vocabulary.{create_payment_link}
use revenue_guard.Actions.{
  RecoveryAction, identity_of, pending, VerifiedOutcome, succeeded, signed_webhook,
  action_idempotency_key, normalize_action, init_action, check_claims, init_outcome,
}
use revenue_guard.Actions.Key.{init_action-binds}
use revenue_guard.Actions.Money.{IsCredible, init_outcome-IsCredible}

abbrev one_hash : List ℕ → String
one_hash document = "0123456789abcdef"

abbrev link : RecoveryAction
link = record {
  action_id = "action_1";
  case_id = "case_1";
  merchant_id = "merchant_1";
  decision_receipt_id = "receipt_1";
  action_type = create_payment_link;
  target_type = subscription;
  target_id = "sub_1";
  logical_attempt = 1;
  idempotency_key = "rg:v1:0123456789abcdef";
  status = pending;
  parameters = entry_at "amount_minor" (int_value (pos 75000)) (
      entry_at "currency" (str_value "INR") (entry_at "provider_mode" (str_value "TEST") no_entry));
  authorized_at = at_utc 1000;
  execute_after = at_utc 1000;
  created_at = at_utc 2000;
  updated_at = none;
  schema = "1.0";
}

link_valid : init_action one_hash link ≡ ok link
unfolding init_action action_idempotency_key normalize_action identifier digest utc utc_opt
link_valid = refl

init_action-binds_example : (identity_of link ≡ identity_of link) ⊎ Collision one_hash
init_action-binds_example =
    init_action-binds one_hash link link link link link_valid link_valid refl

abbrev paid : VerifiedOutcome
paid = record {
  outcome_id = "outcome_1";
  action_id = "action_1";
  case_id = "case_1";
  merchant_id = "merchant_1";
  outcome_status = succeeded;
  is_authoritative = true;
  evidence_source = signed_webhook;
  recovered_amount_minor = 75000;
  currency = "INR";
  observed_at = at_utc 3000;
  created_at = at_utc 4000;
  evidence_reference = some "evt_9";
  provider_object_id = none;
  reason_code = none;
  verified_at = some (at_utc 3500);
  schema = "1.0";
}

paid_valid : init_outcome paid ≡ ok paid
unfolding init_outcome check_claims identifier utc utc_opt
paid_valid = refl

init_outcome-IsCredible_example : IsCredible paid
init_outcome-IsCredible_example = init_outcome-IsCredible paid paid paid_valid
