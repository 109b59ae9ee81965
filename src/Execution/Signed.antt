-- ===== src/Execution/Signed.antt =====
-- packages/integrations/src/revenueguard_integrations/execution/service.py: `verify_signed_event`, what
-- the service makes of a signed event that reports a success.
use Prim.Native.String.{◌++◌ as append_text}
use revenue_guard.Prelude.{
  ℕ, String, Bool, true, not, ◌&&◌, Option, none, some, List, [], ◌∷◌, ◌==◌, str_eq, str_mem,
  is_missing, if◌then◌else◌,
}
use revenue_guard.Fault.{Result, ok, ◌>>=◌}
use revenue_guard.Cases.{CaseState, verifying, recovered, stopped, RecoveryCase, state_eq}
use revenue_guard.Cases
use revenue_guard.Policy.Vocabulary.{ActionType, create_payment_link}
use revenue_guard.Actions.{succeeded, failed, signed_webhook}
use revenue_guard.Events.{RevenueRiskEvent}
use revenue_guard.Outbox.Tables.{ActionRow}
use revenue_guard.Outbox.Resolve.{
  set_action_resolution, find_action_for_provider_object, find_latest_action_for_target,
}
use revenue_guard.Execution.World.{
  World, required_case, Observation, with_evidence, ending, move, observe, amount_of, currency_of,
}
use revenue_guard.Execution.Attempted.{ExecutionDisposition, disposition}

-- `_SIGNED_SUCCESS_EVENTS` and `_RECOVERY_CREDIT_ACTIONS`.
abbrev pub signed_success_events : List String
signed_success_events = "payment_link.paid" ∷ "payment.captured" ∷ "subscription.charged" ∷ []

abbrev pub recovery_credit_actions : List ActionType
recovery_credit_actions = create_payment_link ∷ []

-- `a or b`.
abbrev first_text : Option String → Option String → Option String
first_text a b = if is_missing a then b else a

-- The action that the event is about.
unfoldable pub find_credited :
    (String → String → Bool) → World → RevenueRiskEvent → Result (Option ActionRow)
find_credited text_before w e = elim e.payment_link_id [
  | some link ↦ find_action_for_provider_object w.db e.merchant_id link recovery_credit_actions
  | none ↦ elim (first_text e.subscription_id e.payment_id) [
    | none ↦ ok none
    | some subject ↦
        find_latest_action_for_target text_before w.db e.merchant_id subject recovery_credit_actions
  ]
]

abbrev pub paid : RevenueRiskEvent → String → Observation
paid e reference = record {
  source = signed_webhook;
  observed_at = e.occurred_at;
  evidence_reference = some reference;
  reason_code = some "PAYMENT_LINK_PAID";
  authoritative = true;
  recovered_amount_minor = e.amount_minor;
  verified_at = some e.received_at;
}

module _ (sha256 : List ℕ → String) (ids : ℕ → String × String) (e : RevenueRiskEvent)
    (webhook_event_id : String) where
  -- `evidence_reference`.
  abbrev pub webhook_reference : String
  webhook_reference = append_text "webhook_events/" webhook_event_id

  -- A case that was unknown is verified again, with the event as its evidence.
  unfoldable pub receive_evidence : World → RecoveryCase → ActionRow → Result (RecoveryCase × World)
  receive_evidence w c r =
      if state_eq c.state Cases.unknown
      then move sha256 w c r verifying "SIGNED_EVIDENCE_RECEIVED" e.received_at
          (with_evidence (some webhook_reference)) (ids 0)
      else ok (c, w)

  -- Another amount, or another currency, than that of the action.
  unfoldable pub stop_mismatch :
      World → RecoveryCase → ActionRow → Result (ExecutionDisposition × World)
  stop_mismatch w c r = do
    (checked, w1) ← receive_evidence w c r
    (moved, w2) ←
        move sha256 w1 checked r stopped "RECOVERY_AMOUNT_MISMATCH" e.received_at
          (ending (some webhook_reference) "RECOVERY_AMOUNT_MISMATCH") (ids 1)
    ok (disposition r failed moved "AMOUNT_MISMATCH", w2)

  -- The money is credited, and the case is recovered.
  unfoldable pub credit : World → RecoveryCase → ActionRow → Result (ExecutionDisposition × World)
  credit w c r = do
    w1 ← observe sha256 w r succeeded (paid e webhook_reference) (ids 1)
    (moved, w2) ←
        move sha256 w1 c r recovered "PAYMENT_LINK_PAID" e.received_at
          (ending (some webhook_reference) "PAYMENT_LINK_PAID") (ids 2)
    ok (disposition r succeeded moved "RECOVERED", w2)

  -- The amount and the currency are those of the action.
  unfoldable pub accept : World → RecoveryCase → ActionRow → Result (ExecutionDisposition × World)
  accept w c r = do
    (row, db) ← set_action_resolution w.db r succeeded e.received_at.instant e.payment_link_id none
    (checked, w1) ← receive_evidence (record w { db = db }) c row
    if state_eq checked.state verifying
        then credit w1 checked row
        else ok (disposition row succeeded checked "STALE_EVIDENCE", w1)

  -- `verify_signed_event` for the action that it found.
  unfoldable pub verify_for : World → ActionRow → Result (ExecutionDisposition × World)
  verify_for w r = do
    c ← required_case w r
    if state_eq c.state recovered then ok (disposition r succeeded c "ALREADY_VERIFIED", w) else (do
      amount ← amount_of r.parameters
      currency ← currency_of r.parameters
      if (e.amount_minor == amount) && str_eq e.currency currency
          then accept w c r
          else stop_mismatch w c r)

  abbrev pub some_disposition :
      Result (ExecutionDisposition × World) → Result (Option ExecutionDisposition × World)
  some_disposition m = do (d, w) ← m; ok (some d, w)

  -- `verify_signed_event`.
  unfoldable pub verify_signed_event :
      (String → String → Bool) → World → Result (Option ExecutionDisposition × World)
  verify_signed_event text_before w =
      if not (str_mem e.event_type signed_success_events) then ok (none, w) else (do
        found ← find_credited text_before w e
        elim found [ none ↦ ok (none, w) | some r ↦ some_disposition (verify_for w r) ])
