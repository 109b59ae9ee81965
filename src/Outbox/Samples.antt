-- ===== src/Outbox/Samples.antt =====
-- A small outbox at concrete inputs: an action that is stored, claimed and begun.
use revenue_guard.Prelude.{ℕ, String, Bool, true, false, ◌≡◌, refl, none, List, []}
use revenue_guard.Prelude.Int.{pos}
use revenue_guard.Fault.{Result, ok, err}
use revenue_guard.Clock.{at_utc, utc, utc_opt}
use revenue_guard.Identifier.{identifier}
use revenue_guard.Digest.{digest}
use revenue_guard.Value.{entry_at, no_entry, int_value, str_value}
use revenue_guard.Cases.{subscription}
use revenue_guard.Policy.Vocabulary.{create_payment_link}
use revenue_guard.Actions.{
  RecoveryAction, pending, action_idempotency_key, normalize_action, init_action,
}
use revenue_guard.Ledger
use native.Mathlib.Decide.{dec_lt}
use revenue_guard.Prelude.Order.{lt_wf}
use revenue_guard.Canonical.{decimal, decimal_acc}
use revenue_guard.Table.{select, first_row, update, order_by}
use revenue_guard.Outbox.Tables.{
  ActionRow, ActionAttempt, Database, action_constraints, attempt_constraints, save_action,
  is_refused,
}
use revenue_guard.Outbox.Enqueue.{
  store_action, row_of_action, store_row, add_action, get_action, record_audit,
}
use revenue_guard.Outbox.Claim.{
  ClaimedAction, claim_due_actions, claim_rows, due_rows, first_rows, is_due,
}
use revenue_guard.Outbox.Attempt.{
  new_attempt, begin_attempt, required_action, check_begin, insert_attempt,
}

abbrev pub one_hash : List ℕ → String
one_hash document = "0123456789abcdef0123456789abcdef0123456789abcdef0123456789abcdef"

abbrev pub link : RecoveryAction
link = record {
  action_id = "action_1";
  case_id = "case_1";
  merchant_id = "merchant_1";
  decision_receipt_id = "receipt_1";
  action_type = create_payment_link;
  target_type = subscription;
  target_id = "sub_1";
  logical_attempt = 1;
  idempotency_key = "rg:v1:0123456789abcdef0123456789abcdef0123456789abcdef0123456789abcdef";
  status = pending;
  parameters = entry_at "amount_minor" (int_value (pos 75000)) (
      entry_at "currency" (str_value "INR") (entry_at "provider_mode" (str_value "TEST") no_entry));
  authorized_at = at_utc 1000;
  execute_after = at_utc 1000;
  created_at = at_utc 2000;
  updated_at = none;
  schema = "1.0";
}

pub link_valid : init_action one_hash link ≡ ok link
unfolding init_action action_idempotency_key normalize_action identifier digest utc utc_opt
link_valid = refl

abbrev pub empty : Database
empty = record {
  actions = [];
  attempts = [];
  outcomes = [];
  ledger = record { entries = []; heads = [] };
}

abbrev pub audit_ids : String × String
audit_ids = ("audit_1", "audit_2")

-- The value of a call that returned.
abbrev pub value_of {ℓ} : {A : Type ℓ} → A → Result A → A
value_of a (ok x) = x
value_of a (err f) = a

abbrev pub link_row : ActionRow
link_row = row_of_action link "policy_1" "corr_1" 3 5000000

unfoldable pub stored_state : ActionRow × Database
unfolding store_action
stored_state =
    value_of (link_row, empty)
      (store_action one_hash empty link "policy_1" "corr_1" 3 5000000 true audit_ids)

pub stored_ok :
    store_action one_hash empty link "policy_1" "corr_1" 3 5000000 true audit_ids
    ≡ ok (stored_state.0, stored_state.1)
unfolding stored_state store_row select add_action action_constraints get_action first_row
    record_audit Ledger.append Ledger.validate_append Ledger.find_head Ledger.append_after
    Ledger.entry_from_request
stored_ok = refl

-- No row is locked, texts are ordered as they come, and each token has a name of its own.
abbrev pub unlocked : ActionRow → Bool
unlocked r = false

abbrev pub in_order : String → String → Bool
in_order s t = false

abbrev pub token_of : ℕ → String
token_of n = "lease_1"

unfoldable pub claimed_state : List ClaimedAction × Database
unfolding stored_state claim_due_actions
claimed_state =
    value_of ([], stored_state.1)
      (claim_due_actions in_order unlocked token_of stored_state.1 3000 1000000 10)

pub claimed_ok :
    claim_due_actions in_order unlocked token_of stored_state.1 3000 1000000 10
    ≡ ok (claimed_state.0, claimed_state.1)
unfolding claimed_state stored_state store_row select add_action action_constraints get_action
    first_row record_audit Ledger.append Ledger.validate_append Ledger.find_head Ledger.append_after
    Ledger.entry_from_request Ledger.put_head claim_rows due_rows order_by first_rows is_due
    save_action is_refused update
claimed_ok = refl

unfoldable pub begun_state : ActionRow × ActionAttempt × Database
unfolding claimed_state begin_attempt
begun_state =
    value_of (link_row, new_attempt one_hash link_row "lease_1" 4000, claimed_state.1)
      (begin_attempt one_hash claimed_state.1 "merchant_1" "action_1" "lease_1" 4000 audit_ids)

pub begun_ok :
    begin_attempt one_hash claimed_state.1 "merchant_1" "action_1" "lease_1" 4000 audit_ids
    ≡ ok (begun_state.0, begun_state.1, begun_state.2)
unfolding begun_state claimed_state stored_state store_row select add_action action_constraints
    get_action first_row record_audit Ledger.append Ledger.validate_append Ledger.find_head
    Ledger.append_after Ledger.entry_from_request Ledger.put_head claim_rows due_rows order_by
    first_rows is_due save_action is_refused update required_action check_begin insert_attempt
    attempt_constraints decimal decimal_acc lt_wf dec_lt
begun_ok = refl
