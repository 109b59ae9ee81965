-- ===== src/Outbox/Credited.antt =====
-- Outcomes are stored once, keep the outbox sound, and prove the money that is reported.
use revenue_guard.Prelude.{
  ℕ, String, ◌≡◌, refl, ap, subst, Bool, true, false, not, ◌||◌, Option, none, some, List, ◌∷◌, any,
  is_none,
}
use revenue_guard.Fault.{ok, integrity_error, raise_if-eq-ok, ok-injective, >>=-eq-ok}
use revenue_guard.Actions.{VerifiedOutcome}
use revenue_guard.Table.{first_row}
use revenue_guard.Outbox.Tables.{OutcomeRow, Database, outcome_constraints}
use revenue_guard.Outbox.Enqueue.{get_action, record_audit}
use revenue_guard.Outbox.Attempt.{required_action}
use revenue_guard.Outbox.Outcomes.{
  row_of_outcome, has_outcome_key, proves_again, insert_outcome, outcome_request, add_outcome,
  store_outcome,
}
use revenue_guard.Outbox.Sound.{IsSound}
use revenue_guard.Outbox.Begun.{record_audit-IsSound}

pub insert_outcome_lem :
    (db stored : Database) (o : OutcomeRow)
    → insert_outcome db o ≡ ok stored
    → (record db { outcomes = o ∷ db.outcomes } ≡ stored)
      × (outcome_constraints o ≡ true)
      × (any (proves_again o) db.outcomes ≡ false)
unfolding insert_outcome
insert_outcome_lem db stored o h =
    let (_, h1) =
      raise_if-eq-ok (is_none (get_action db o.merchant_id o.recovery_action_id)) integrity_error _
        h in
    let (checked, e) =
      raise_if-eq-ok (not (outcome_constraints o) || any (proves_again o) db.outcomes)
        integrity_error _ h1 in
    let (valid, once) =
      neither (outcome_constraints o) (any (proves_again o) db.outcomes) checked in
    (ok-injective e, valid, once)
  where
    neither : (a b : Bool) → (not a || b) ≡ false → (a ≡ true) × (b ≡ false)
    neither true false h = (refl, refl)
    neither true true h = cc
    neither false b h = cc

module _ (sha256 : List ℕ → String) where
  add_outcome-IsSound :
      (db db' : Database) (o row : OutcomeRow) (ids : String × String)
      → IsSound db
      → add_outcome sha256 db o ids ≡ ok (row, db')
      → IsSound db'
  unfolding add_outcome
  add_outcome-IsSound db db' o row ids s h =
      let (stored, inserted, h1) = >>=-eq-ok (insert_outcome db o) _ h in
      let (r, found, h2) =
        >>=-eq-ok (required_action stored o.merchant_id o.recovery_action_id) _ h1 in
      let (audited, told, e) =
        >>=-eq-ok (record_audit sha256 stored (outcome_request r o) ids) _ h2 in
      subst IsSound (ap (λ (x : OutcomeRow × Database). x.1) (ok-injective e)) (
        record_audit-IsSound sha256 stored audited (outcome_request r o) ids
          (subst IsSound (insert_outcome_lem db stored o inserted).0
            (record { agree = s.agree; keys_unique = s.keys_unique }))
          told)

  pub store_outcome-IsSound :
      (db db' : Database) (o : VerifiedOutcome) (ids : String × String) (row : OutcomeRow)
      → IsSound db
      → store_outcome sha256 db o ids ≡ ok (row, db')
      → IsSound db'
  unfolding store_outcome
  store_outcome-IsSound db db' o ids row s h =
      chosen (first_row (has_outcome_key o.merchant_id o.outcome_id) db.outcomes) h
    where
      chosen :
          (found : Option OutcomeRow)
          → (elim found [
            | some existing ↦ ok (existing, db)
            | none ↦ add_outcome sha256 db (row_of_outcome o) ids
          ])
            ≡ ok (row, db')
          → IsSound db'
      chosen none k = add_outcome-IsSound db db' (row_of_outcome o) row ids s k
      chosen (some e) k = subst IsSound (ap (λ (x : OutcomeRow × Database). x.1) (ok-injective k)) s
