-- ===== src/Execution/Verified.antt =====
-- `verify_signed_event` as a whole: it credits an action exactly, or nothing at all.
use revenue_guard.Prelude.{
  ℕ, String, ◌≡◌, sym, ap, ◌∙◌, subst, inl, inr, Bool, true, false, ◌&&◌, Bool-cases, Option, none,
  some, List, arith, ◌==◌, str_eq, str_mem, if◌then◌else◌,
}
use revenue_guard.Fault.{Result, ok, ok-injective, >>=-eq-ok, ◌>>=◌}
use revenue_guard.Cases.{recovered, RecoveryCase, state_eq}
use revenue_guard.Actions.{succeeded}
use revenue_guard.Events.{RevenueRiskEvent}
use revenue_guard.Outbox.Tables.{ActionRow}
use revenue_guard.Execution.World.{World, required_case, amount_of, currency_of}
use revenue_guard.Execution.Attempted.{ExecutionDisposition, disposition}
use revenue_guard.Execution.Signed.{
  accept, stop_mismatch, verify_for, find_credited, signed_success_events, verify_signed_event,
  some_disposition,
}
use revenue_guard.Execution.Moved.{CaseIn, OfCase, required_case-OfCase}
use revenue_guard.Execution.Observed.{Adds}
use revenue_guard.Execution.Credit.{Refused, stop_mismatch-Refused, Credits, accept-Credits}

module _ (sha256 : List ℕ → String) (ids : ℕ → String × String) (e : RevenueRiskEvent)
    (webhook_event_id : String) where
  -- The event is over the amount and the currency of an action.
  abbrev pub matches : ℕ → String → Bool
  matches amount currency = (e.amount_minor == amount) && str_eq e.currency currency

  matches_amount : (n : ℕ) (s : String) → matches n s ≡ true → n ≡ e.amount_minor
  matches_amount n s h = ground arith

  -- The branches of `verify_signed_event`, for the action that it found.
  pub data Verified (w : World) (r : ActionRow) (d : ExecutionDisposition) (w' : World)
      : Type 0 where
    already :
        d.case_state ≡ recovered
        → CaseIn r.merchant_id r.recovery_case_id recovered w
        → w' ≡ w
        → Verified w r d w'
    accepted :
        (amount : ℕ) (currency : String)
        → amount_of r.parameters ≡ ok amount
        → currency_of r.parameters ≡ ok currency
        → matches amount currency ≡ true
        → Adds w.db.outcomes (Credits sha256 ids e webhook_event_id r d w') w'.db.outcomes
        → Verified w r d w'
    refused :
        (amount : ℕ) (currency : String)
        → amount_of r.parameters ≡ ok amount
        → currency_of r.parameters ≡ ok currency
        → matches amount currency ≡ false
        → Refused sha256 ids e webhook_event_id w r d w'
        → Verified w r d w'

  is_recovered : (c : RecoveryCase) → state_eq c.state recovered ≡ true → c.state ≡ recovered
  is_recovered c h = ground arith

  verify_for-Verified :
      (w w' : World) (r : ActionRow) (d : ExecutionDisposition)
      → verify_for sha256 ids e webhook_event_id w r ≡ ok (d, w')
      → Verified w r d w'
  unfolding verify_for
  verify_for-Verified w w' r d h =
      let (c, found, h1) = >>=-eq-ok (required_case w r) _ h in
      elim (Bool-cases (state_eq c.state recovered)) [
        | inl there ↦ over c there (required_case-OfCase w r c found).1 (ground (arith, there, h1))
        | inr open_still ↦
            paid_event c (required_case-OfCase w r c found).0 (ground (arith, open_still, h1))
      ]
    where
      in_time : RecoveryCase → Result (ExecutionDisposition × World)
      in_time c = ok (disposition r succeeded c "ALREADY_VERIFIED", w)

      over :
          (c : RecoveryCase)
          → state_eq c.state recovered ≡ true
          → CaseIn r.merchant_id r.recovery_case_id c.state w
          → in_time c ≡ ok (d, w')
          → Verified w r d w'
      over c there stored k =
          already
            (ap (λ (x : ExecutionDisposition × World). x.0.case_state) (sym (ok-injective k))
              ∙ is_recovered c there)
            (subst (λ s. CaseIn r.merchant_id r.recovery_case_id s w) (is_recovered c there) stored)
            (ap (λ (x : ExecutionDisposition × World). x.1) (sym (ok-injective k)))

      by_match :
          (c : RecoveryCase) (n : ℕ) (s : String)
          → OfCase r c
          → amount_of r.parameters ≡ ok n
          → currency_of r.parameters ≡ ok s
          → (if matches n s
              then accept sha256 ids e webhook_event_id w c r
              else stop_mismatch sha256 ids e webhook_event_id w c r)
            ≡ ok (d, w')
          → Verified w r d w'
      by_match c n s own amount currency k = elim (Bool-cases (matches n s)) [
        | inl same ↦ accepted n s amount currency same (
            accept-Credits sha256 ids e webhook_event_id w w' c r d (ground (arith, same, k))
              (amount ∙ ap (λ m. ok m) (matches_amount n s same)) own)
        | inr other ↦ refused n s amount currency other (
            stop_mismatch-Refused sha256 ids e webhook_event_id w w' c r d
              (ground (arith, other, k)) own)
      ]

      paid_event :
          (c : RecoveryCase)
          → OfCase r c
          → (do
            n ← amount_of r.parameters
            s ← currency_of r.parameters
            if matches n s
                then accept sha256 ids e webhook_event_id w c r
                else stop_mismatch sha256 ids e webhook_event_id w c r)
            ≡ ok (d, w')
          → Verified w r d w'
      paid_event c own k =
          let (n, amount, k1) = >>=-eq-ok (amount_of r.parameters) _ k in
          let (s, currency, k2) = >>=-eq-ok (currency_of r.parameters) _ k1 in
          by_match c n s own amount currency k2

  -- A signed success that is verified for an action either finds its case recovered and changes nothing,
  -- or is over exactly the action's amount and currency, when at most one outcome is added, an
  -- authoritative success of that action over that amount and currency, and the row of the case is
  -- recovered with it, or is over another amount or currency, when the row of the case is stopped and no
  -- outcome is added.
  pub verify_signed_event-Verified :
      (text_before : String → String → Bool) (w w' : World) (d : ExecutionDisposition)
      → verify_signed_event sha256 ids e webhook_event_id text_before w ≡ ok (some d, w')
      → (r : ActionRow) × (find_credited text_before w e ≡ ok (some r)) × Verified w r d w'
  unfolding verify_signed_event
  verify_signed_event-Verified text_before w w' d h =
      elim (Bool-cases (str_mem e.event_type signed_success_events)) [
        | inl success ↦ by_action (ground (arith, success, h))
        | inr other ↦ absurd (nothing (ground (arith, other, h)))
      ]
    where
      ignored : Result (Option ExecutionDisposition × World)
      ignored = ok (none, w)

      nothing : ignored ≡ ok (some d, w') → ⊥
      nothing k = cc

      of_found : Option ActionRow → Result (Option ExecutionDisposition × World)
      of_found found = elim found [
        | none ↦ ok (none, w)
        | some r ↦
            some_disposition sha256 ids e webhook_event_id
              (verify_for sha256 ids e webhook_event_id w r)
      ]

      by_action :
          (find_credited text_before w e >>= of_found) ≡ ok (some d, w')
          → (r : ActionRow) × (find_credited text_before w e ≡ ok (some r)) × Verified w r d w'
      by_action k =
          let (found, there, k1) = >>=-eq-ok (find_credited text_before w e) _ k in
          chosen found there k1
        where
          wrapped : ExecutionDisposition → World → Result (Option ExecutionDisposition × World)
          wrapped d1 w1 = ok (some d1, w1)

          settled : ExecutionDisposition → World → Result (ExecutionDisposition × World)
          settled d1 w1 = ok (d1, w1)

          pairs :
              (d1 : ExecutionDisposition) (w1 : World)
              → wrapped d1 w1 ≡ ok (some d, w')
              → settled d1 w1 ≡ ok (d, w')
          pairs d1 w1 k = cc

          chosen :
              (found : Option ActionRow)
              → find_credited text_before w e ≡ ok found
              → of_found found ≡ ok (some d, w')
              → (r : ActionRow) × (find_credited text_before w e ≡ ok (some r)) × Verified w r d w'
          chosen none there k1 = absurd (nothing k1)
          chosen (some r) there k1 =
              let ((d1, w1), verified, same) =
                >>=-eq-ok (verify_for sha256 ids e webhook_event_id w r) _ k1 in
              (r, there, verify_for-Verified w w' r d (verified ∙ pairs d1 w1 same))
