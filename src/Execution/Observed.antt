-- ===== src/Execution/Observed.antt =====
-- What an observation that is stored adds to the outcomes.
use revenue_guard.Prelude.{
  ℕ, String, ◌≡◌, refl, sym, ap, ◌∙◌, subst, ◌⊎◌, inl, inr, Option, none, some, List, ◌∷◌, arith,
}
use revenue_guard.Fault.{ok, ok-injective, >>=-eq-ok}
use revenue_guard.Clock.{utc, utc_opt}
use revenue_guard.Actions.{VerifiedOutcome, ActionStatus, init_outcome}
use revenue_guard.Table.{first_row}
use revenue_guard.Outbox.Tables.{ActionRow, OutcomeRow, Database}
use revenue_guard.Outbox.Enqueue.{record_audit}
use revenue_guard.Outbox.Attempt.{required_action}
use revenue_guard.Outbox.Outcomes.{
  row_of_outcome, has_outcome_key, insert_outcome, outcome_request, add_outcome, store_outcome,
}
use revenue_guard.Outbox.Credited.{insert_outcome_lem}
use revenue_guard.Execution.World.{World, Observation, observed_outcome, observe, currency_of}
use revenue_guard.Execution.Moved.{record_audit-tables}

-- The row that is stored says what was observed of the action.
pub record Tells (r : ActionRow) (status : ActionStatus) (x : Observation) (o : OutcomeRow)
    : Type 0 where
  pub of_action : (o.merchant_id ≡ r.merchant_id) × (o.recovery_action_id ≡ r.id)
  pub with_status : o.outcome_status ≡ status
  pub with_authority : o.is_authoritative ≡ x.authoritative
  pub with_amount : o.recovered_amount_minor ≡ x.recovered_amount_minor
  pub with_currency : currency_of r.parameters ≡ ok o.currency

init_outcome_fields :
    (o p : VerifiedOutcome)
    → init_outcome o ≡ ok p
    → (p.merchant_id ≡ o.merchant_id)
      × (p.action_id ≡ o.action_id)
      × (p.outcome_status ≡ o.outcome_status)
      × (p.is_authoritative ≡ o.is_authoritative)
      × (p.recovered_amount_minor ≡ o.recovered_amount_minor)
      × (p.currency ≡ o.currency)
unfolding init_outcome utc utc_opt
init_outcome_fields o p h = ground arith

-- No outcome is added, or one that tells what was observed.
abbrev pub Adds : List OutcomeRow → (OutcomeRow → Type 0) → List OutcomeRow → Type 0
Adds before P after = (after ≡ before) ⊎ ((o : OutcomeRow) × (after ≡ o ∷ before) × P o)

module _ (sha256 : List ℕ → String) where
  add_outcome_lem :
      (db db' : Database) (o row : OutcomeRow) (ids : String × String)
      → add_outcome sha256 db o ids ≡ ok (row, db')
      → db'.outcomes ≡ o ∷ db.outcomes
  unfolding add_outcome
  add_outcome_lem db db' o row ids h =
      let (stored, inserted, h1) = >>=-eq-ok (insert_outcome db o) _ h in
      let (r, found, h2) =
        >>=-eq-ok (required_action stored o.merchant_id o.recovery_action_id) _ h1 in
      let (audited, told, same) =
        >>=-eq-ok (record_audit sha256 stored (outcome_request r o) ids) _ h2 in
      ap (λ (y : OutcomeRow × Database). y.1.outcomes) (sym (ok-injective same))
      ∙ (record_audit-tables sha256 stored audited (outcome_request r o) ids told).0
      ∙ ap (λ (y : Database). y.outcomes) (sym (insert_outcome_lem db stored o inserted).0)

  store_outcome-Adds :
      (db db' : Database) (o : VerifiedOutcome) (ids : String × String) (row : OutcomeRow)
      → store_outcome sha256 db o ids ≡ ok (row, db')
      → Adds db.outcomes (λ x. x ≡ row_of_outcome o) db'.outcomes
  unfolding store_outcome
  store_outcome-Adds db db' o ids row h =
      chosen (first_row (has_outcome_key o.merchant_id o.outcome_id) db.outcomes) h
    where
      chosen :
          (found : Option OutcomeRow)
          → (elim found [
            | some existing ↦ ok (existing, db)
            | none ↦ add_outcome sha256 db (row_of_outcome o) ids
          ])
            ≡ ok (row, db')
          → Adds db.outcomes (λ x. x ≡ row_of_outcome o) db'.outcomes
      chosen none k =
          inr (row_of_outcome o, add_outcome_lem db db' (row_of_outcome o) row ids k, refl)
      chosen (some existing) k =
          inl (ap (λ (y : OutcomeRow × Database). y.1.outcomes) (sym (ok-injective k)))

  pub observe-Adds :
      (w w' : World) (r : ActionRow) (status : ActionStatus) (x : Observation)
      (ids : String × String)
      → observe sha256 w r status x ids ≡ ok w'
      → Adds w.db.outcomes (Tells r status x) w'.db.outcomes
  unfolding observe
  observe-Adds w w' r status x ids h =
      let (currency, there, h1) = >>=-eq-ok (currency_of r.parameters) _ h in
      let claimed = observed_outcome sha256 r status x currency in
      let (o, made, h2) = >>=-eq-ok (init_outcome claimed) _ h1 in
      let ((row, db), stored, same) = >>=-eq-ok (store_outcome sha256 w.db o ids) _ h2 in
      let after = ap (λ (y : World). y.db.outcomes) (sym (ok-injective same)) in
      let (m, a, s, t, n, c) = init_outcome_fields claimed o made in
      elim (store_outcome-Adds w.db db o ids row stored) [
        | inl none_added ↦ inl (after ∙ none_added)
        | inr (y, added, told) ↦ inr (
          y,
          after ∙ added,
          subst (Tells r status x) (sym told) (record {
            of_action = (m, a);
            with_status = s;
            with_authority = t;
            with_amount = n;
            with_currency = there ∙ ap (λ z. ok z) (sym c);
          }),
        )
      ]

  add_outcome-tables :
      (db db' : Database) (o row : OutcomeRow) (ids : String × String)
      → add_outcome sha256 db o ids ≡ ok (row, db')
      → (db'.actions ≡ db.actions) × (db'.attempts ≡ db.attempts)
  unfolding add_outcome
  add_outcome-tables db db' o row ids h =
      let (stored, inserted, h1) = >>=-eq-ok (insert_outcome db o) _ h in
      let (r, found, h2) =
        >>=-eq-ok (required_action stored o.merchant_id o.recovery_action_id) _ h1 in
      let (audited, told, same) =
        >>=-eq-ok (record_audit sha256 stored (outcome_request r o) ids) _ h2 in
      let (_, attempts, actions) =
        record_audit-tables sha256 stored audited (outcome_request r o) ids told in
      let kept = (insert_outcome_lem db stored o inserted).0 in
      (
        ap (λ (y : OutcomeRow × Database). y.1.actions) (sym (ok-injective same))
            ∙ actions
            ∙ ap (λ (y : Database). y.actions) (sym kept),
        ap (λ (y : OutcomeRow × Database). y.1.attempts) (sym (ok-injective same))
            ∙ attempts
            ∙ ap (λ (y : Database). y.attempts) (sym kept),
      )

  store_outcome-tables :
      (db db' : Database) (o : VerifiedOutcome) (ids : String × String) (row : OutcomeRow)
      → store_outcome sha256 db o ids ≡ ok (row, db')
      → (db'.actions ≡ db.actions) × (db'.attempts ≡ db.attempts)
  unfolding store_outcome
  store_outcome-tables db db' o ids row h =
      chosen (first_row (has_outcome_key o.merchant_id o.outcome_id) db.outcomes) h
    where
      chosen :
          (found : Option OutcomeRow)
          → (elim found [
            | some existing ↦ ok (existing, db)
            | none ↦ add_outcome sha256 db (row_of_outcome o) ids
          ])
            ≡ ok (row, db')
          → (db'.actions ≡ db.actions) × (db'.attempts ≡ db.attempts)
      chosen none k = add_outcome-tables db db' (row_of_outcome o) row ids k
      chosen (some existing) k = (
        ap (λ (y : OutcomeRow × Database). y.1.actions) (sym (ok-injective k)),
        ap (λ (y : OutcomeRow × Database). y.1.attempts) (sym (ok-injective k)),
      )

  -- An observation touches neither the cases nor the actions nor their attempts.
  pub observe-tables :
      (w w' : World) (r : ActionRow) (status : ActionStatus) (x : Observation)
      (ids : String × String)
      → observe sha256 w r status x ids ≡ ok w'
      → (w'.cases ≡ w.cases) × (w'.db.actions ≡ w.db.actions) × (w'.db.attempts ≡ w.db.attempts)
  unfolding observe
  observe-tables w w' r status x ids h =
      let (currency, there, h1) = >>=-eq-ok (currency_of r.parameters) _ h in
      let (o, made, h2) =
        >>=-eq-ok (init_outcome (observed_outcome sha256 r status x currency)) _ h1 in
      let ((row, db), stored, same) = >>=-eq-ok (store_outcome sha256 w.db o ids) _ h2 in
      let (actions, attempts) = store_outcome-tables w.db db o ids row stored in
      (
        ap (λ (y : World). y.cases) (sym (ok-injective same)),
        ap (λ (y : World). y.db.actions) (sym (ok-injective same)) ∙ actions,
        ap (λ (y : World). y.db.attempts) (sym (ok-injective same)) ∙ attempts,
      )
