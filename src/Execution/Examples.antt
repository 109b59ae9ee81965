-- ===== src/Execution/Examples.antt =====
-- The execution service at concrete inputs.
use native.Mathlib.Decide.{dec_lt}
use revenue_guard.Prelude.{
  ℕ, ◌+◌, ◌*◌, ◌≤◌, ◌<◌, String, Bool, true, false, ◌≡◌, refl, ◌⊎◌, inl, Option, none, some, [],
  ◌∷◌, min, arith,
}
use revenue_guard.Prelude.Order.{lt_wf}
use revenue_guard.Fault.{ok}
use revenue_guard.Clock.{at_utc, seconds, utc, utc_opt}
use revenue_guard.Identifier.{identifier, identifier_opt}
use revenue_guard.Canonical.{decimal, decimal_acc}
use revenue_guard.Cases.{
  CaseState, executing, verifying, recovered, escalated, RecoveryCase, init_case, can_transition,
  transition_case,
}
use revenue_guard.Cases
use revenue_guard.Actions.{
  pending, succeeded, provider_response, provider_lookup, init_outcome, check_claims,
}
use revenue_guard.Actions
use revenue_guard.Events.{RevenueRiskEvent, razorpay, no_failure}
use revenue_guard.Ledger
use revenue_guard.Table.{select, first_row, update, order_by}
use revenue_guard.Outbox
use revenue_guard.Outbox.Tables.{ActionRow, Database, is_pending}
use revenue_guard.Outbox.Samples.{
  one_hash, empty, value_of, link_row, in_order, stored_state, claimed_state, begun_state,
}
use revenue_guard.Execution.World.{
  World, required_case, amount_of, currency_of, apply_transition, move, observe,
}
use revenue_guard.Execution.Attempted.{
  ServiceSettings, init_settings, ProviderExecutionResult, ExecutionDisposition, retry_delay,
  settle, settle_unknown, record_execution_result, disposition,
}
use revenue_guard.Execution.Lookup.{
  ProviderLookupResult, Looked, look_up, record_lookup, expire_verification, after_deadline,
  escalate, reconcile, resolve_row, reconcile_case, recovered_amount, conclude, conclude_recovered,
}
use revenue_guard.Execution.Signed.{
  verify_signed_event, find_credited, verify_for, accept, receive_evidence, credit,
}
use revenue_guard.Execution.Backoff.{retry_delay_bounds}
use revenue_guard.Execution.Verified.{Verified, verify_signed_event-Verified}
use revenue_guard.Execution.Resolved.{record_lookup-Escalates}
use revenue_guard.Execution.Moved.{CaseIn}
use revenue_guard.Execution.Proved.{proves, look_up-Proves}
use revenue_guard.Execution.Settled.{Retried, Ended, record_execution_result-Settled}

abbrev case_in : CaseState → RecoveryCase
case_in s = record {
  case_id = "case_1";
  merchant_id = "merchant_1";
  workflow_type = Cases.failed_subscription;
  subject_type = Cases.subscription;
  subject_id = "sub_1";
  revenue_at_risk_minor = 75000;
  currency = "INR";
  state = s;
  state_version = 5;
  retry_count = 0;
  contact_count = 0;
  created_at = at_utc 500;
  updated_at = at_utc 2000;
  customer_id = none;
  diagnosis = none;
  diagnosis_confidence = none;
  active_incident_id = none;
  next_evaluation_at = none;
  terminal_reason = none;
  schema = "1.0";
}

abbrev ids : ℕ → String × String
ids n = ("audit_7", "audit_8")

abbrev accepted_row : ActionRow
accepted_row = record link_row { status = succeeded; provider_object_id = some "plink_1" }

abbrev doubtful_row : ActionRow
doubtful_row = record link_row { status = Actions.unknown; unknown_since = some 4000 }

abbrev world_with : ActionRow → CaseState → World
world_with r s = record {
  db = record empty { actions = r ∷ [] };
  cases = case_in s ∷ [];
  transitions = [];
}

abbrev looked_with : ActionRow → CaseState → Looked
looked_with r s = record { row = r; recovery_case = case_in s; world = world_with r s }

abbrev lookup_of : Actions.ActionStatus → Bool → ℕ → ProviderLookupResult
lookup_of status authority at = record {
  status = status;
  evidence_source = provider_lookup;
  evidence_reference = "payment_links/plink_1";
  observed_at = at_utc at;
  is_authoritative = authority;
  provider_object_id = some "plink_1";
  reason_code = none;
}

abbrev nothing : ExecutionDisposition
nothing = disposition link_row pending (case_in executing) ""

late : ExecutionDisposition × World
unfolding record_lookup
late =
    value_of (nothing, world_with doubtful_row Cases.unknown)
      (record_lookup one_hash ids (lookup_of pending false 6000000)
        (world_with doubtful_row Cases.unknown) "merchant_1" "action_1")

late_ok :
    record_lookup one_hash ids
      (lookup_of pending false 6000000)
      (world_with doubtful_row Cases.unknown)
      "merchant_1"
      "action_1"
    ≡ ok (late.0, late.1)
unfolding late look_up required_case Outbox.Attempt.required_action Outbox.Enqueue.get_action
    first_row expire_verification after_deadline escalate Outbox.Tables.save_action
    Outbox.Tables.is_refused Outbox.Tables.action_constraints update move apply_transition
    transition_case Cases.check_transition init_case Cases.check_identifiers Cases.check_values
    Cases.normalize_times Cases.init_transition can_transition utc utc_opt identifier identifier_opt
    select Outbox.Enqueue.record_audit Ledger.append Ledger.validate_append Ledger.find_head
    Ledger.append_after Ledger.entry_from_request Ledger.put_head
late_ok = refl

late_read :
    Outbox.Enqueue.get_action (world_with doubtful_row Cases.unknown).db "merchant_1" "action_1"
    ≡ some doubtful_row
unfolding Outbox.Enqueue.get_action first_row
late_read = refl

late_case :
    required_case (world_with doubtful_row Cases.unknown) doubtful_row ≡ ok (case_in Cases.unknown)
unfolding required_case first_row init_case Cases.check_identifiers Cases.check_values
    Cases.normalize_times utc utc_opt identifier identifier_opt
late_case = refl

record_lookup-Escalates_example :
    ((late.0).case_state ≡ escalated) × CaseIn "merchant_1" "case_1" escalated late.1
record_lookup-Escalates_example =
    record_lookup-Escalates one_hash ids (lookup_of pending false 6000000)
      (world_with doubtful_row Cases.unknown) late.1 "merchant_1" "action_1" doubtful_row
      (case_in Cases.unknown) 5000000 late.0 late_read late_case (inl refl) refl (omega arith)
      (λ e. cc) late_ok

proved : ExecutionDisposition × World
unfolding look_up
proved =
    value_of (nothing, world_with accepted_row verifying)
      (look_up one_hash ids (lookup_of succeeded true 5000) (looked_with accepted_row verifying))

proved_ok :
    look_up one_hash ids (lookup_of succeeded true 5000) (looked_with accepted_row verifying)
    ≡ ok (proved.0, proved.1)
unfolding proved expire_verification after_deadline reconcile resolve_row reconcile_case
    recovered_amount conclude conclude_recovered observe amount_of currency_of init_outcome
    check_claims Outbox.Outcomes.store_outcome Outbox.Outcomes.add_outcome
    Outbox.Outcomes.insert_outcome Outbox.Tables.outcome_constraints Outbox.Enqueue.get_action
    Outbox.Attempt.required_action first_row move apply_transition update transition_case
    Cases.check_transition init_case Cases.check_identifiers Cases.check_values
    Cases.normalize_times Cases.init_transition can_transition utc utc_opt identifier identifier_opt
    select Outbox.Enqueue.record_audit Ledger.append Ledger.validate_append Ledger.find_head
    Ledger.append_after Ledger.entry_from_request Ledger.put_head
proved_ok = refl

proved_recovered : (proved.0).case_state ≡ recovered
unfolding proved expire_verification after_deadline reconcile resolve_row reconcile_case
    recovered_amount conclude conclude_recovered observe amount_of currency_of init_outcome
    check_claims Outbox.Outcomes.store_outcome Outbox.Outcomes.add_outcome
    Outbox.Outcomes.insert_outcome Outbox.Tables.outcome_constraints Outbox.Enqueue.get_action
    Outbox.Attempt.required_action first_row move apply_transition update transition_case
    Cases.check_transition init_case Cases.check_identifiers Cases.check_values
    Cases.normalize_times Cases.init_transition can_transition utc utc_opt identifier identifier_opt
    select Outbox.Enqueue.record_audit Ledger.append Ledger.validate_append Ledger.find_head
    Ledger.append_after Ledger.entry_from_request Ledger.put_head
proved_recovered = refl

look_up-Proves_example :
    (((case_in verifying).state ≡ recovered) × (proved.1 ≡ world_with accepted_row verifying))
    ⊎ (proves one_hash ids (lookup_of succeeded true 5000) ≡ true)
look_up-Proves_example =
    look_up-Proves one_hash ids (lookup_of succeeded true 5000) (looked_with accepted_row verifying)
      proved.0 proved.1 proved_ok proved_recovered

abbrev payment : RevenueRiskEvent
payment = record {
  event_id = "evt_1";
  merchant_id = "merchant_1";
  source = razorpay;
  source_event_id = "source_1";
  event_type = "payment_link.paid";
  occurred_at = at_utc 5000;
  received_at = at_utc 6000;
  amount_minor = 75000;
  currency = "INR";
  normalized_failure_category = no_failure;
  correlation_id = "corr_1";
  source_payload_reference = "payloads/1";
  customer_id = none;
  payment_id = none;
  order_id = none;
  subscription_id = some "sub_1";
  invoice_id = none;
  payment_link_id = some "plink_1";
  failure_code = none;
  causation_id = none;
  schema = "1.0";
}

abbrev paid_action : Option ExecutionDisposition → ExecutionDisposition
paid_action none = nothing
paid_action (some d) = d

paid : Option ExecutionDisposition × World
unfolding verify_signed_event
paid =
    value_of (none, world_with accepted_row verifying)
      (verify_signed_event one_hash ids payment "webhook_1" in_order
        (world_with accepted_row verifying))

paid_ok :
    verify_signed_event one_hash ids payment "webhook_1" in_order
      (world_with accepted_row verifying)
    ≡ ok (some (paid_action paid.0), paid.1)
unfolding paid find_credited Outbox.Resolve.find_action_for_provider_object verify_for required_case
    accept receive_evidence credit Outbox.Resolve.set_action_resolution Outbox.Tables.save_action
    Outbox.Tables.is_refused Outbox.Tables.action_constraints observe amount_of currency_of
    init_outcome check_claims Outbox.Outcomes.store_outcome Outbox.Outcomes.add_outcome
    Outbox.Outcomes.insert_outcome Outbox.Tables.outcome_constraints Outbox.Enqueue.get_action
    Outbox.Attempt.required_action first_row move apply_transition update transition_case
    Cases.check_transition init_case Cases.check_identifiers Cases.check_values
    Cases.normalize_times Cases.init_transition can_transition utc utc_opt identifier identifier_opt
    select Outbox.Enqueue.record_audit Ledger.append Ledger.validate_append Ledger.find_head
    Ledger.append_after Ledger.entry_from_request Ledger.put_head
paid_ok = refl

verify_signed_event-Verified_example :
    (r : ActionRow) × (find_credited in_order (world_with accepted_row verifying) payment
      ≡ ok (some r))
    × Verified one_hash ids payment "webhook_1"
        (world_with accepted_row verifying)
        r
        (paid_action paid.0)
        paid.1
verify_signed_event-Verified_example =
    verify_signed_event-Verified one_hash ids payment "webhook_1" in_order
      (world_with accepted_row verifying) paid.1 (paid_action paid.0) paid_ok

abbrev settings : ServiceSettings
settings = record { retry_base = 5000000; unknown_ttl = 3600000000 }

settings_ok : init_settings settings ≡ ok settings
unfolding init_settings
settings_ok = refl

retry_delay_bounds_example :
    (delay : ℕ) × (next : ℕ) × (retry_delay 5000000 (1 + 1) ≡ ok delay)
    × (retry_delay 5000000 (1 + 2) ≡ ok next)
    × (0 < delay)
    × (delay ≤ seconds 300)
    × (next ≡ min (2 * delay) (seconds 300))
retry_delay_bounds_example = retry_delay_bounds settings 1 settings_ok (omega arith) (omega arith)

abbrev timed_out : ProviderExecutionResult
timed_out = record {
  status = Actions.unknown;
  evidence_source = provider_response;
  observed_at = at_utc 9000;
  response_category = "TIMEOUT";
  provider_object_id = none;
  response_reference = none;
  provider_status_code = none;
  error_code = some "PROVIDER_TIMEOUT";
  retryable = false;
}

abbrev running : World
running = record { db = begun_state.2; cases = case_in executing ∷ []; transitions = [] }

answered : ExecutionDisposition × World
unfolding record_execution_result
answered =
    value_of (nothing, running)
      (record_execution_result one_hash settings running "merchant_1" "action_1" "lease_1" timed_out
        ids)

answered_ok :
    record_execution_result one_hash settings running "merchant_1" "action_1" "lease_1" timed_out
      ids
    ≡ ok (answered.0, answered.1)
unfolding answered begun_state claimed_state stored_state Outbox.Enqueue.store_row
    Outbox.Enqueue.add_action Outbox.Claim.claim_rows Outbox.Claim.due_rows order_by
    Outbox.Claim.first_rows Outbox.Claim.is_due Outbox.Attempt.check_begin
    Outbox.Attempt.insert_attempt Outbox.Tables.attempt_constraints decimal decimal_acc lt_wf dec_lt
    Outbox.Attempt.finish_attempt Outbox.Attempt.required_attempt Outbox.Tables.save_attempt
    Outbox.Attempt.row_after Outbox.Attempt.audit_finish settle settle_unknown required_case
    retry_delay Outbox.Tables.save_action Outbox.Tables.is_refused Outbox.Tables.action_constraints
    observe currency_of init_outcome check_claims Outbox.Outcomes.store_outcome
    Outbox.Outcomes.add_outcome Outbox.Outcomes.insert_outcome Outbox.Tables.outcome_constraints
    Outbox.Enqueue.get_action Outbox.Attempt.required_action first_row move apply_transition update
    transition_case Cases.check_transition init_case Cases.check_identifiers Cases.check_values
    Cases.normalize_times Cases.init_transition can_transition utc utc_opt identifier identifier_opt
    select Outbox.Enqueue.record_audit Ledger.append Ledger.validate_append Ledger.find_head
    Ledger.append_after Ledger.entry_from_request Ledger.put_head
answered_ok = refl

abbrev running_row : ActionRow
running_row = begun_state.0

running_read : Outbox.Enqueue.get_action running.db "merchant_1" "action_1" ≡ some running_row
unfolding begun_state claimed_state stored_state Outbox.Enqueue.store_row Outbox.Enqueue.add_action
    Outbox.Claim.claim_rows Outbox.Claim.due_rows order_by Outbox.Claim.first_rows
    Outbox.Claim.is_due Outbox.Attempt.check_begin Outbox.Attempt.insert_attempt
    Outbox.Tables.attempt_constraints decimal decimal_acc lt_wf dec_lt Outbox.Attempt.finish_attempt
    Outbox.Attempt.required_attempt Outbox.Tables.save_attempt Outbox.Attempt.row_after
    Outbox.Attempt.audit_finish settle settle_unknown required_case retry_delay
    Outbox.Tables.save_action Outbox.Tables.is_refused Outbox.Tables.action_constraints observe
    currency_of init_outcome check_claims Outbox.Outcomes.store_outcome Outbox.Outcomes.add_outcome
    Outbox.Outcomes.insert_outcome Outbox.Tables.outcome_constraints Outbox.Enqueue.get_action
    Outbox.Attempt.required_action first_row move apply_transition update transition_case
    Cases.check_transition init_case Cases.check_identifiers Cases.check_values
    Cases.normalize_times Cases.init_transition can_transition utc utc_opt identifier identifier_opt
    select Outbox.Enqueue.record_audit Ledger.append Ledger.validate_append Ledger.find_head
    Ledger.append_after Ledger.entry_from_request Ledger.put_head
running_read = refl

running_pending : running_row.status ≡ pending
unfolding begun_state claimed_state stored_state Outbox.Enqueue.store_row Outbox.Enqueue.add_action
    Outbox.Claim.claim_rows Outbox.Claim.due_rows order_by Outbox.Claim.first_rows
    Outbox.Claim.is_due Outbox.Attempt.check_begin Outbox.Attempt.insert_attempt
    Outbox.Tables.attempt_constraints decimal decimal_acc lt_wf dec_lt Outbox.Attempt.finish_attempt
    Outbox.Attempt.required_attempt Outbox.Tables.save_attempt Outbox.Attempt.row_after
    Outbox.Attempt.audit_finish settle settle_unknown required_case retry_delay
    Outbox.Tables.save_action Outbox.Tables.is_refused Outbox.Tables.action_constraints observe
    currency_of init_outcome check_claims Outbox.Outcomes.store_outcome Outbox.Outcomes.add_outcome
    Outbox.Outcomes.insert_outcome Outbox.Tables.outcome_constraints Outbox.Enqueue.get_action
    Outbox.Attempt.required_action first_row move apply_transition update transition_case
    Cases.check_transition init_case Cases.check_identifiers Cases.check_values
    Cases.normalize_times Cases.init_transition can_transition utc utc_opt identifier identifier_opt
    select Outbox.Enqueue.record_audit Ledger.append Ledger.validate_append Ledger.find_head
    Ledger.append_after Ledger.entry_from_request Ledger.put_head
running_pending = refl

record_execution_result-Settled_example :
    Retried settings running "merchant_1" "action_1" "lease_1" running_row timed_out answered.1
    ⊎ Ended running "merchant_1" "action_1" "lease_1" running_row timed_out answered.0 answered.1
record_execution_result-Settled_example =
    record_execution_result-Settled one_hash settings running answered.1 "merchant_1" "action_1"
      "lease_1" running_row timed_out ids answered.0 running_read running_pending refl answered_ok
