-- ===== src/Execution/Closed.antt =====
-- What the end of an attempt leaves in the tables of the outbox.
use revenue_guard.Prelude.{
  ℕ, String, ◌≡◌, refl, sym, ap, ◌∙◌, subst, inl, inr, true, false, not, ◌&&◌, Bool-cases, some,
  List, [], ◌∷◌, any, arith, is_some, str_eq, str_eq_iff, if◌then◌else◌,
}
use revenue_guard.Fault.{ok, ok-injective, raise_if-eq-ok}
use revenue_guard.Table.{first_row, update}
use revenue_guard.Outbox.Keys.{save_action_lem}
use revenue_guard.Outbox.Tables.{
  ActionRow, ActionAttempt, Database, has_key, save_attempt, attempt_constraints,
}
use revenue_guard.Outbox.Attempt.{
  AttemptResult, retries_at, row_after, audit_finish, finished_request, completed, held_by,
}
use revenue_guard.Outbox.Enqueue.{get_action, record_audit}
use revenue_guard.Outbox.Sound.{get_action-key}
use revenue_guard.Outbox.Begun.{read_own}
use revenue_guard.Outbox.Claimed.{read-saved}
use revenue_guard.Outbox.Finished.{Finished, row_after_lem}
use revenue_guard.Execution.Moved.{record_audit-tables}

-- An attempt that is completed is not held any more.
none_held :
    (merchant action token : String) (t : ActionAttempt) (x : AttemptResult)
    (ts : List ActionAttempt)
    → any
        (held_by merchant action token)
        (update (held_by merchant action token) (λ _. completed t x) ts)
      ≡ false
unfolding update
none_held merchant action token t x [] = refl
none_held merchant action token t x (u ∷ us) = elim (Bool-cases (held_by merchant action token u)) [
  | inl same ↦ ground (arith, same, over, none_held merchant action token t x us)
  | inr other ↦ ground (arith, other, none_held merchant action token t x us)
]
  where
    over : held_by merchant action token (completed t x) ≡ false
    over = ground arith

both_same : (m a : String) → (str_eq m m && str_eq a a) ≡ true
both_same m a = rw ((str_eq_iff m m).1 refl, (str_eq_iff a a).1 refl) refl

module _ (sha256 : List ℕ → String) where
  audit_finish-tables :
      (db db' : Database) (r : ActionRow) (t : ActionAttempt) (x : AttemptResult)
      (ids : String × String)
      → audit_finish sha256 db r t x ids ≡ ok db'
      → (db'.outcomes ≡ db.outcomes) × (db'.attempts ≡ db.attempts) × (db'.actions ≡ db.actions)
  unfolding audit_finish
  audit_finish-tables db db' r t x ids h = elim (Bool-cases (is_some (retries_at r x))) [
    | inl again ↦ same (unaudited again)
    | inr over ↦ record_audit-tables sha256 db db' (finished_request r t x) ids (recorded over)
  ]
    where
      unaudited : is_some (retries_at r x) ≡ true → db ≡ db'
      unaudited again = ground (arith, again, h)

      same :
          db ≡ db'
          → (db'.outcomes ≡ db.outcomes) × (db'.attempts ≡ db.attempts) × (db'.actions ≡ db.actions)
      same e = (
        ap (λ (y : Database). y.outcomes) (sym e),
        ap (λ (y : Database). y.attempts) (sym e),
        ap (λ (y : Database). y.actions) (sym e),
      )

      recorded :
          is_some (retries_at r x) ≡ false
          → record_audit sha256 db (finished_request r t x) ids ≡ ok db'
      recorded over = ground (arith, over, h)

  -- What the end of an attempt leaves in the three tables.
  pub record Closed (db : Database) (merchant action token : String) (row : ActionRow)
      (db' : Database) : Type 0 where
    pub after : get_action db' merchant action ≡ some row
    pub closed : any (held_by merchant action token) db'.attempts ≡ false
    pub same_outcomes : db'.outcomes ≡ db.outcomes

  pub Finished-Closed :
      (db db' : Database) (merchant action token : String) (x : AttemptResult) (r : ActionRow)
      (t : ActionAttempt) (f : Finished sha256 db merchant action token x r t db')
      → Closed db merchant action token (row_after f.before x) db'
  unfolding save_attempt get_action
  Finished-Closed db db' merchant action token x r t f =
      let (_, completes) =
        raise_if-eq-ok (not (attempt_constraints (completed f.started x))) _ _ f.attempt_saved in
      let kept = ok-injective completes in
      let wrote = save_action_lem f.closed f.saved (row_after f.before x) f.action_saved in
      let (outcomes, attempts, actions) =
        audit_finish-tables f.saved db' f.before f.started x f.ids f.audited in
      let (m, i, _, _, _) = row_after_lem f.before x in
      let (own_m, own_i) = get_action-key db merchant action f.read in
      let read : get_action f.closed merchant action ≡ some f.before =
        ap (λ (y : Database). first_row (has_key merchant action) y.actions) (sym kept) ∙ f.read in
      let there : get_action f.closed (row_after f.before x).merchant_id (row_after f.before x).id
          ≡ some f.before =
        subst (λ y. get_action f.closed y (row_after f.before x).id ≡ some f.before) (sym m)
          (subst (λ y. get_action f.closed f.before.merchant_id y ≡ some f.before) (sym i)
            (read_own f.closed merchant action f.before read)) in
      let key : has_key merchant action (row_after f.before x) ≡ true =
        rw (m, i, own_m, own_i) (both_same merchant action) in
      record {
        after =
            ap (λ l. first_row (has_key merchant action) l) actions
            ∙ read-saved f.closed f.saved (row_after f.before x) f.before merchant action there
                f.action_saved
            ∙ ap
                (λ b.
                  if b then some (row_after f.before x) else get_action f.closed merchant action)
                key;
        closed =
            ap (λ l. any (held_by merchant action token) l)
              (attempts
                ∙ ap (λ (y : Database). y.attempts) (sym wrote)
                ∙ ap (λ (y : Database). y.attempts) (sym kept))
            ∙ none_held merchant action token f.started x db.attempts;
        same_outcomes =
            outcomes
            ∙ ap (λ (y : Database). y.outcomes) (sym wrote)
            ∙ ap (λ (y : Database). y.outcomes) (sym kept);
      }
