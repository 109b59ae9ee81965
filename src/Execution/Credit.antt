-- ===== src/Execution/Credit.antt =====
-- What a signed event credits.
use revenue_guard.Prelude.{
  ℕ, String, ◌≡◌, sym, ap, ◌∙◌, subst, inl, inr, true, false, Bool-cases, Option, none, some, List,
  arith, if◌then◌else◌,
}
use revenue_guard.Fault.{ok, ok-injective, >>=-eq-ok}
use revenue_guard.Cases.{CaseState, verifying, recovered, stopped, RecoveryCase, state_eq}
use revenue_guard.Cases
use revenue_guard.Actions.{ActionStatus, succeeded, failed}
use revenue_guard.Events.{RevenueRiskEvent}
use revenue_guard.Outbox.Keys.{save_action_lem}
use revenue_guard.Outbox.Tables.{ActionRow, Database, OutcomeRow, save_action}
use revenue_guard.Outbox.Resolve.{set_action_resolution, resolved_row}
use revenue_guard.Execution.World.{
  World, with_evidence, ending, move, observe, amount_of, currency_of,
}
use revenue_guard.Execution.Attempted.{ExecutionDisposition, disposition}
use revenue_guard.Execution.Signed.{
  webhook_reference, receive_evidence, stop_mismatch, paid, credit, accept,
}
use revenue_guard.Execution.Moved.{CaseIn, OfCase, HasMoved-stores, move-HasMoved}
use revenue_guard.Execution.Observed.{Adds, observe-Adds}

module _ (sha256 : List ℕ → String) (ids : ℕ → String × String) (e : RevenueRiskEvent)
    (webhook_event_id : String) where
  -- What an event over another amount, or another currency, does: it ends the case, and credits
  -- nothing.
  pub record Refused (w : World) (r : ActionRow) (d : ExecutionDisposition) (w' : World)
      : Type 0 where
    pub ends : d.case_state ≡ stopped
    pub stored : CaseIn r.merchant_id r.recovery_case_id stopped w'
    pub as_failed : d.action_status ≡ failed
    pub no_credit : w'.db.outcomes ≡ w.db.outcomes

  receive_evidence-outcomes :
      (w w' : World) (c c' : RecoveryCase) (r : ActionRow)
      → receive_evidence sha256 ids e webhook_event_id w c r ≡ ok (c', w')
      → OfCase r c
      → (w'.db.outcomes ≡ w.db.outcomes) × OfCase r c'
  unfolding receive_evidence
  receive_evidence-outcomes w w' c c' r h own = elim (Bool-cases (state_eq c.state Cases.unknown)) [
    | inl unsure ↦
        let m =
          move-HasMoved sha256 w w' c c' r verifying "SIGNED_EVIDENCE_RECEIVED" e.received_at
            (with_evidence (some (webhook_reference sha256 ids e webhook_event_id))) (ids 0)
            (ground (arith, unsure, h)) in
        (m.same_outcomes, (HasMoved-stores sha256 w w' r c c' verifying own m).1)
    | inr sure ↦
        let (same, same_case) = kept sure in
        (ap (λ (x : World). x.db.outcomes) (sym same), subst (λ y. OfCase r y) same_case own)
  ]
    where
      kept : state_eq c.state Cases.unknown ≡ false → (w ≡ w') × (c ≡ c')
      kept sure = (ground (arith, sure, h), ground (arith, sure, h))

  pub stop_mismatch-Refused :
      (w w' : World) (c : RecoveryCase) (r : ActionRow) (d : ExecutionDisposition)
      → stop_mismatch sha256 ids e webhook_event_id w c r ≡ ok (d, w')
      → OfCase r c
      → Refused w r d w'
  unfolding stop_mismatch
  stop_mismatch-Refused w w' c r d h own =
      let ((checked, w1), received, h1) =
        >>=-eq-ok (receive_evidence sha256 ids e webhook_event_id w c r) _ h in
      let ((moved, w2), ended, same) =
        >>=-eq-ok
          (move sha256 w1 checked r stopped "RECOVERY_AMOUNT_MISMATCH" e.received_at
            (ending (some (webhook_reference sha256 ids e webhook_event_id))
              "RECOVERY_AMOUNT_MISMATCH")
            (ids 1))
          _ h1 in
      let m =
        move-HasMoved sha256 w1 w2 checked moved r stopped "RECOVERY_AMOUNT_MISMATCH" e.received_at
          (ending (some (webhook_reference sha256 ids e webhook_event_id))
            "RECOVERY_AMOUNT_MISMATCH")
          (ids 1) ended in
      let (received_same, own1) = receive_evidence-outcomes w w1 c checked r received own in
      record {
        stored =
            subst
              (λ (x : ExecutionDisposition × World).
                CaseIn r.merchant_id r.recovery_case_id stopped x.1)
              (ok-injective same) (HasMoved-stores sha256 w1 w2 r checked moved stopped own1 m).0;
        ends =
            ap (λ (x : ExecutionDisposition × World). x.0.case_state) (sym (ok-injective same))
            ∙ m.reached;
        as_failed =
            ap (λ (x : ExecutionDisposition × World). x.0.action_status) (sym (ok-injective same));
        no_credit =
            ap (λ (x : ExecutionDisposition × World). x.1.db.outcomes) (sym (ok-injective same))
            ∙ m.same_outcomes
            ∙ received_same;
      }

  -- An outcome that credits the action with its amount, in its currency, for a case that is recovered.
  pub record Credits (r : ActionRow) (d : ExecutionDisposition) (w' : World) (o : OutcomeRow)
      : Type 0 where
    pub of_action : (o.merchant_id ≡ r.merchant_id) × (o.recovery_action_id ≡ r.id)
    pub exact_amount : amount_of r.parameters ≡ ok o.recovered_amount_minor
    pub same_currency : currency_of r.parameters ≡ ok o.currency
    pub proved : (o.outcome_status ≡ succeeded) × (o.is_authoritative ≡ true)
    pub recovers : d.case_state ≡ recovered
    pub stored : CaseIn r.merchant_id r.recovery_case_id recovered w'

  credit-Credits :
      (w w' : World) (c : RecoveryCase) (r : ActionRow) (d : ExecutionDisposition)
      → credit sha256 ids e webhook_event_id w c r ≡ ok (d, w')
      → amount_of r.parameters ≡ ok e.amount_minor
      → OfCase r c
      → Adds w.db.outcomes (Credits r d w') w'.db.outcomes
  unfolding credit
  credit-Credits w w' c r d h amount own =
      let reference = webhook_reference sha256 ids e webhook_event_id in
      let (w1, observed, h1) =
        >>=-eq-ok (observe sha256 w r succeeded (paid e reference) (ids 1)) _ h in
      let ((moved, w2), ended, same) =
        >>=-eq-ok
          (move sha256 w1 c r recovered "PAYMENT_LINK_PAID" e.received_at
            (ending (some reference) "PAYMENT_LINK_PAID") (ids 2))
          _ h1 in
      let m =
        move-HasMoved sha256 w1 w2 c moved r recovered "PAYMENT_LINK_PAID" e.received_at
          (ending (some reference) "PAYMENT_LINK_PAID") (ids 2) ended in
      let after =
        ap (λ (x : ExecutionDisposition × World). x.1.db.outcomes) (sym (ok-injective same))
        ∙ m.same_outcomes in
      elim (observe-Adds sha256 w w1 r succeeded (paid e reference) (ids 1) observed) [
        | inl none_added ↦ inl (after ∙ none_added)
        | inr (o, added, told) ↦ inr (
          o,
          after ∙ added,
          record {
            of_action = told.of_action;
            exact_amount = amount ∙ ap (λ n. ok n) (sym told.with_amount);
            same_currency = told.with_currency;
            proved = (told.with_status, told.with_authority);
            stored =
                subst
                  (λ (x : ExecutionDisposition × World).
                    CaseIn r.merchant_id r.recovery_case_id recovered x.1)
                  (ok-injective same) (HasMoved-stores sha256 w1 w2 r c moved recovered own m).0;
            recovers =
                ap (λ (x : ExecutionDisposition × World). x.0.case_state) (sym (ok-injective same))
                ∙ m.reached;
          },
        )
      ]

  set_action_resolution_lem :
      (db db' : Database) (r row : ActionRow) (status : ActionStatus) (at : ℕ)
      (object code : Option String)
      → set_action_resolution db r status at object code ≡ ok (row, db')
      → (row ≡ resolved_row r status at object code) × (db'.outcomes ≡ db.outcomes)
  unfolding set_action_resolution
  set_action_resolution_lem db db' r row status at object code h =
      let resolved = resolved_row r status at object code in
      let (saved, wrote, same) = >>=-eq-ok (save_action db resolved) _ h in
      let kept = save_action_lem db saved resolved wrote in
      (
        ap (λ (x : ActionRow × Database). x.0) (sym (ok-injective same)),
        ap (λ (x : ActionRow × Database). x.1.outcomes) (sym (ok-injective same))
            ∙ ap (λ (x : Database). x.outcomes) (sym kept),
      )

  pub accept-Credits :
      (w w' : World) (c : RecoveryCase) (r : ActionRow) (d : ExecutionDisposition)
      → accept sha256 ids e webhook_event_id w c r ≡ ok (d, w')
      → amount_of r.parameters ≡ ok e.amount_minor
      → OfCase r c
      → Adds w.db.outcomes (Credits r d w') w'.db.outcomes
  unfolding accept
  accept-Credits w w' c r d h amount own =
      let ((row, db), resolved, h1) =
        >>=-eq-ok
          (set_action_resolution w.db r succeeded e.received_at.instant e.payment_link_id none) _
          h in
      let (is_row, before) =
        set_action_resolution_lem w.db db r row succeeded e.received_at.instant e.payment_link_id
          none resolved in
      let ((checked, w1), received, h2) =
        >>=-eq-ok (receive_evidence sha256 ids e webhook_event_id (record w { db = db }) c row) _
          h1 in
      let (received_same, own1) =
        receive_evidence-outcomes (record w { db = db }) w1 c checked row received
          (subst (λ y. OfCase y c) (sym is_row) own) in
      let same = received_same ∙ before in
      elim (Bool-cases (state_eq checked.state verifying)) [
        | inl awaiting ↦
            subst (λ l. Adds l (Credits r d w') w'.db.outcomes) same
              (of_row is_row w1 (
                credit-Credits w1 w' checked row d (ground (arith, awaiting, h2))
                  (ap (λ (x : ActionRow). amount_of x.parameters) is_row ∙ amount) own1))
        | inr late ↦
            inl (ap (λ (x : World). x.db.outcomes) (sym (kept w1 checked row late h2)) ∙ same)
      ]
    where
      of_row :
          {row : ActionRow}
          → row ≡ resolved_row r succeeded e.received_at.instant e.payment_link_id none
          → (w1 : World) → Adds w1.db.outcomes (Credits row d w') w'.db.outcomes
          → Adds w1.db.outcomes (Credits r d w') w'.db.outcomes
      of_row is_row w1 (inl none_added) = inl none_added
      of_row is_row w1 (inr (o, added, k)) =
          let t = subst (λ x. Credits x d w' o) is_row k in
          inr (
            o,
            added,
            record {
              of_action = t.of_action;
              exact_amount = t.exact_amount;
              same_currency = t.same_currency;
              proved = t.proved;
              recovers = t.recovers;
              stored = t.stored;
            },
          )

      kept :
          (w1 : World) (checked : RecoveryCase) (row : ActionRow)
          → state_eq checked.state verifying ≡ false
          → (if state_eq checked.state verifying
              then credit sha256 ids e webhook_event_id w1 checked row
              else ok (disposition row succeeded checked "STALE_EVIDENCE", w1))
            ≡ ok (d, w')
          → w1 ≡ w'
      kept w1 checked row late k = ground (arith, late, k)
