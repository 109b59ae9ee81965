-- ===== src/Outbox/Examples.antt =====
-- The outbox at concrete inputs.
use native.Mathlib.Decide.{dec_lt}
use revenue_guard.Prelude.{
  ℕ, ◌≤◌, String, true, false, ◌≡◌, refl, none, some, [], ◌∷◌, map, any, arith, length, All,
  all_distinct,
}
use revenue_guard.Fault.{ok}
use revenue_guard.Prelude.Order.{lt_wf}
use revenue_guard.Canonical.{decimal, decimal_acc}
use revenue_guard.Actions.{succeeded, signed_webhook}
use revenue_guard.Ledger
use revenue_guard.Table.{select, first_row, update, order_by}
use revenue_guard.Outbox.Tables.{
  OutcomeRow, Database, attempt_of, is_open, action_constraints, attempt_constraints, save_action,
  is_refused,
}
use revenue_guard.Outbox.Enqueue.{get_action, store_row, add_action, record_audit}
use revenue_guard.Outbox.Claim.{
  ClaimedAction, claim_of, claim_due_actions, claim_rows, due_rows, first_rows, is_due,
}
use revenue_guard.Outbox.Attempt.{begin_attempt, required_action, check_begin, insert_attempt}
use revenue_guard.Outbox.Outcomes.{RecoveryTotals, recovered_totals}
use revenue_guard.Outbox.Sound.{IsSound, Numbered}
use revenue_guard.Outbox.Steps.{Reach, here, next, stored, claimed, begun, attempts_bounded}
use revenue_guard.Outbox.Exclusive.{same_claim, claim_exclusive, begin_attempt_once}
use revenue_guard.Outbox.Between.{Between}
use revenue_guard.Outbox.Totals.{
  amount_for, count_for, proved_amount, proved_count, recovered_totals_sum,
}
use revenue_guard.Outbox.Samples.{
  one_hash, link, link_row, empty, audit_ids, stored_state, stored_ok, unlocked, in_order, token_of,
  claimed_state, claimed_ok, begun_state, begun_ok,
}

empty-IsSound : IsSound empty
unfolding select first_row
empty-IsSound = record { agree = λ merchant action. refl; keys_unique = tt }

steps : Reach one_hash in_order empty begun_state.2
steps =
    next
      (next
        (next here
          (stored link "policy_1" "corr_1" 3 5000000 true audit_ids stored_state.0 stored_ok))
        (claimed unlocked token_of 3000 1000000 10 claimed_state.0 claimed_ok))
      (begun "merchant_1" "action_1" "lease_1" 4000 audit_ids begun_state.0 begun_state.1 begun_ok)

begun_read : get_action begun_state.2 "merchant_1" "action_1" ≡ some begun_state.0
unfolding begun_state claimed_state stored_state store_row select add_action action_constraints
    get_action first_row record_audit Ledger.append Ledger.validate_append Ledger.find_head
    Ledger.append_after Ledger.entry_from_request Ledger.put_head claim_rows due_rows order_by
    first_rows is_due save_action is_refused update required_action check_begin insert_attempt
    attempt_constraints decimal decimal_acc lt_wf dec_lt
begun_read = refl

attempts_bounded_example :
    let ts = select (attempt_of "merchant_1" "action_1") (begun_state.2).attempts in
    Numbered (begun_state.0).attempt_count ts
    × (length ts ≡ (begun_state.0).attempt_count)
    × ((begun_state.0).attempt_count ≤ (begun_state.0).max_attempts)
    × (length (select is_open ts) ≤ 1)
attempts_bounded_example =
    attempts_bounded one_hash in_order "merchant_1" "action_1" begun_state.0 empty-IsSound steps
      begun_read

abbrev link_claim : ClaimedAction
link_claim = claim_of link_row "lease_1"

link_claimed : any (same_claim link_claim) claimed_state.0 ≡ true
unfolding claimed_state stored_state store_row select add_action action_constraints get_action
    first_row record_audit Ledger.append Ledger.validate_append Ledger.find_head Ledger.append_after
    Ledger.entry_from_request Ledger.put_head claim_rows due_rows order_by first_rows is_due
    save_action is_refused update claim_due_actions
link_claimed = refl

claimed_again :
    claim_due_actions in_order unlocked token_of begun_state.2 3500 1000000 10
    ≡ ok ([], begun_state.2)
unfolding begun_state claimed_state stored_state store_row select add_action action_constraints
    get_action first_row record_audit Ledger.append Ledger.validate_append Ledger.find_head
    Ledger.append_after Ledger.entry_from_request Ledger.put_head claim_rows due_rows order_by
    first_rows is_due save_action is_refused update claim_due_actions required_action check_begin
    insert_attempt attempt_constraints decimal decimal_acc lt_wf dec_lt
claimed_again = refl

claim_exclusive_example : All (λ d. same_claim link_claim d ≡ false) []
claim_exclusive_example =
    claim_exclusive one_hash in_order unlocked unlocked token_of token_of stored_state.1
      claimed_state.1 begun_state.2 begun_state.2 3000 1000000 10 3500 1000000 10 claimed_state.0 []
      link_claim claimed_ok link_claimed
      (Between.begun "merchant_1" "action_1" "lease_1" 4000 audit_ids begun_state.0 begun_state.1
        Between.here begun_ok)
      claimed_again (omega arith)

begin_attempt_once_example : ¬ (
    begin_attempt one_hash begun_state.2 "merchant_1" "action_1" "lease_2" 4500 audit_ids
    ≡ ok begun_state)
begin_attempt_once_example =
    begin_attempt_once one_hash in_order claimed_state.1 begun_state.2 begun_state.2 "merchant_1"
      "action_1" "lease_1" "lease_2" 4000 4500 5000 audit_ids audit_ids begun_state.0 begun_state.1
      begun_state begun_ok
      (Between.claimed unlocked token_of 3500 1000000 10 [] Between.here (omega arith)
        claimed_again)

abbrev proof_of : String → ℕ → String → OutcomeRow
proof_of id amount currency = record {
  merchant_id = "merchant_1";
  id = id;
  recovery_action_id = "action_1";
  recovery_case_id = "case_1";
  outcome_status = succeeded;
  is_authoritative = true;
  evidence_source = signed_webhook;
  evidence_reference = some "webhook_events/evt_1";
  provider_object_id = none;
  recovered_amount_minor = amount;
  currency = currency;
  reason_code = none;
  observed_at = 5000;
  verified_at = some 6000;
  created_at = 6000;
  schema_version = "1.0";
}

abbrev with_outcomes : Database
with_outcomes = record empty {
  outcomes =
      proof_of "outcome_3" 500 "INR"
      ∷ proof_of "outcome_2" 700 "USD"
      ∷ proof_of "outcome_1" 75000 "INR"
      ∷ [];
}

recovered_totals_sum_example :
    let report = recovered_totals in_order with_outcomes "merchant_1" in
    (all_distinct (map (λ (t : RecoveryTotals). t.currency) report) ≡ true)
    × (amount_for "INR" report ≡ proved_amount "merchant_1" "INR" with_outcomes.outcomes)
    × (count_for "INR" report ≡ proved_count "merchant_1" "INR" with_outcomes.outcomes)
recovered_totals_sum_example = recovered_totals_sum in_order with_outcomes "merchant_1" "INR"
