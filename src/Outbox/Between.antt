-- ===== src/Outbox/Between.antt =====
-- action_repositories.py: what workers do with the actions while one of them is at work on an action,
-- and what this leaves of its lease and of its open attempt.
use revenue_guard.Prelude.{
  ℕ, ◌+◌, ◌<◌, String, ◌≡◌, refl, sym, ap, ◌∙◌, subst, Bool, true, false, not, ◌&&◌, ◌||◌,
  Bool-cases, inl, inr, Option, none, some, List, [], ◌∷◌, arith, All, is_none, is_some, str_eq,
  ◌==◌,
}
use revenue_guard.Fault.{ok, value_error, ok-injective, >>=-eq-ok, raise_if-eq-ok}
use revenue_guard.Table.{first_row}
use revenue_guard.Outbox.Tables.{
  ActionRow, ActionAttempt, Database, has_key, save_action, save_attempt, attempt_constraints,
}
use revenue_guard.Outbox.Enqueue.{get_action, record_audit}
use revenue_guard.Outbox.Claim.{
  ClaimedAction, is_due, due_rows, leased, claim_rows, claim_due_actions,
}
use revenue_guard.Outbox.Attempt.{
  AttemptResult, begin_attempt, finish_attempt, counted, completed, row_after, audit_finish,
  finished_request, retries_at,
}
use revenue_guard.Outbox.Sound.{get_action-key}
use revenue_guard.Outbox.Begun.{begin_attempt-Begun, record_audit-attempts}
use revenue_guard.Outbox.Finished.{finish_attempt-Finished, row_after_lem}
use revenue_guard.Outbox.Claimed.{due_rows-All}
use revenue_guard.Outbox.Held.{HeldUntil, KeyHeld, update-All, saved_rows}

-- A row whose lease runs is not due.
pub held_not_due :
    (attempts : List ActionAttempt) (until now : ℕ) (r : ActionRow) (free : Bool)
    → now < until
    → HeldUntil until r
    → (is_due attempts now r && free) ≡ true
    → ⊥
unfolding is_due
held_not_due attempts until now r free early held h =
    ground (arith, held.0, held.1, token_there r.lease_token held.0)
  where
    token_there : (o : Option String) → (o ≡ none → ⊥) → is_none o ≡ false
    token_there none f = absurd (f refl)
    token_there (some s) f = refl

first_row-All :
    (P : ActionRow → Type 0) (test : ActionRow → Bool) (rows : List ActionRow) (r : ActionRow)
    → All P rows
    → first_row test rows ≡ some r
    → P r
unfolding first_row
first_row-All P test [] r p h = cc
first_row-All P test (x ∷ rows) r p h = elim (Bool-cases (test x)) [
  | inl same ↦ subst P (found same) p.0
  | inr other ↦ first_row-All P test rows r p.1 (rest other)
]
  where
    found : test x ≡ true → x ≡ r
    found same = ground (arith, same, h)

    rest : test x ≡ false → first_row test rows ≡ some r
    rest other = ground (arith, other, h)

-- Rows of which none has a key are claimed without a change to the rows that have it.
claim_rows-kept :
    (Q : ActionRow → Type 0) (merchant action : String) (until : ℕ)
    → ((r : ActionRow) → Q r → has_key merchant action r ≡ false)
    → (tokens : ℕ → String) (db db' : Database) (now lease_for : ℕ) (rows : List ActionRow) (n : ℕ)
      (claims : List ClaimedAction)
    → claim_rows tokens db now lease_for rows n ≡ ok (claims, db')
    → All Q rows
    → All (KeyHeld merchant action until) db.actions
    → All (KeyHeld merchant action until) db'.actions
unfolding claim_rows
claim_rows-kept Q merchant action until differ tokens db db' now lease_for [] n claims h qs held =
    subst (λ (x : List ClaimedAction × Database). All (KeyHeld merchant action until) x.1.actions)
      (ok-injective h) held
claim_rows-kept Q merchant action until differ tokens db db' now lease_for (r ∷ rows) n claims h qs
      held =
    let (saved, wrote, h1) = >>=-eq-ok (save_action db (leased r (tokens n) now lease_for)) _ h in
    let ((more, claimed), rest, e) =
      >>=-eq-ok (claim_rows tokens saved now lease_for rows (n + 1)) _ h1 in
    let held' =
      claim_rows-kept Q merchant action until differ tokens saved claimed now lease_for rows (n + 1)
        more rest qs.1
        (subst (λ l. All (KeyHeld merchant action until) l)
          (saved_rows db saved (leased r (tokens n) now lease_for) wrote)
          (update-All (KeyHeld merchant action until) (has_key r.merchant_id r.id)
            (leased r (tokens n) now lease_for) db.actions
            (λ same. absurd (never (has_key merchant action r) same (differ r qs.0))) held)) in
    subst (λ (x : List ClaimedAction × Database). All (KeyHeld merchant action until) x.1.actions)
      (ok-injective e) held'
  where
    never : (b : Bool) → b ≡ true → b ≡ false → ⊥
    never b p q = cc

module _ (sha256 : List ℕ → String) (text_before : String → String → Bool) where
  -- What the workers do while one action is being worked on: they claim actions before an instant, they
  -- begin attempts, and they end attempts of other actions.
  pub data Between (merchant action : String) (until : ℕ) (db : Database) : Database → Type 0 where
    here : Between merchant action until db db
    claimed :
        {d e : Database} (locked : ActionRow → Bool) (tokens : ℕ → String) (now lease_for limit : ℕ)
        (claims : List ClaimedAction)
        → Between merchant action until db d
        → now < until
        → claim_due_actions text_before locked tokens d now lease_for limit ≡ ok (claims, e)
        → Between merchant action until db e
    begun :
        {d e : Database} (merchant' action' token : String) (at : ℕ) (ids : String × String)
        (row : ActionRow) (t : ActionAttempt)
        → Between merchant action until db d
        → begin_attempt sha256 d merchant' action' token at ids ≡ ok (row, t, e)
        → Between merchant action until db e
    finished :
        {d e : Database} (merchant' action' token : String) (x : AttemptResult)
        (ids : String × String) (row : ActionRow) (t : ActionAttempt)
        → Between merchant action until db d
        → (str_eq merchant' merchant && str_eq action' action) ≡ false
        → finish_attempt sha256 d merchant' action' token x ids ≡ ok (row, t, e)
        → Between merchant action until db e

  pub audit_finish-kept :
      (db db' : Database) (r : ActionRow) (t : ActionAttempt) (x : AttemptResult)
      (ids : String × String)
      → audit_finish sha256 db r t x ids ≡ ok db'
      → (db'.attempts ≡ db.attempts) × (db'.actions ≡ db.actions)
  unfolding audit_finish
  audit_finish-kept db db' r t x ids h = elim (Bool-cases (is_some (retries_at r x))) [
    | inl again ↦ same (unaudited again)
    | inr over ↦ record_audit-attempts sha256 db db' (finished_request r t x) ids (recorded over)
  ]
    where
      unaudited : is_some (retries_at r x) ≡ true → db ≡ db'
      unaudited again = ground (arith, again, h)

      same : db ≡ db' → (db'.attempts ≡ db.attempts) × (db'.actions ≡ db.actions)
      same e = (ap (λ (y : Database). y.attempts) (sym e), ap (λ (y : Database). y.actions) (sym e))

      recorded :
          is_some (retries_at r x) ≡ false
          → record_audit sha256 db (finished_request r t x) ids ≡ ok db'
      recorded over = ground (arith, over, h)

  claims-held :
      (merchant action : String) (until : ℕ) (locked : ActionRow → Bool) (tokens : ℕ → String)
      (d e : Database) (now lease_for limit : ℕ) (claims : List ClaimedAction)
      → now < until
      → claim_due_actions text_before locked tokens d now lease_for limit ≡ ok (claims, e)
      → All (KeyHeld merchant action until) d.actions
      → All (KeyHeld merchant action until) e.actions
  unfolding claim_due_actions
  claims-held merchant action until locked tokens d e now lease_for limit claims early h held =
      let (_, k) =
        raise_if-eq-ok ((lease_for == 0) || (limit == 0))
          (value_error "lease_for and limit must be positive") _ h in
      claim_rows-kept
        (λ r.
          ((is_due d.attempts now r && not (locked r)) ≡ true) × KeyHeld merchant action until r)
        merchant action until differs tokens d e now lease_for
        (due_rows text_before locked d now limit) 0 claims k
        (due_rows-All text_before (KeyHeld merchant action until) locked d now limit held) held
    where
      differs :
          (r : ActionRow)
          → ((is_due d.attempts now r && not (locked r)) ≡ true) × KeyHeld merchant action until r
          → has_key merchant action r ≡ false
      differs r q = elim (Bool-cases (has_key merchant action r)) [
        | inl same ↦
            absurd (held_not_due d.attempts until now r (not (locked r)) early (q.1 same) q.0)
        | inr other ↦ other
      ]

  begins-held :
      (merchant action : String) (until : ℕ) (d e : Database) (merchant' action' token : String)
      (at : ℕ) (ids : String × String) (row : ActionRow) (t : ActionAttempt)
      → begin_attempt sha256 d merchant' action' token at ids ≡ ok (row, t, e)
      → All (KeyHeld merchant action until) d.actions
      → All (KeyHeld merchant action until) e.actions
  unfolding get_action
  begins-held merchant action until d e merchant' action' token at ids row t h held =
      let b = begin_attempt-Begun sha256 d e merchant' action' token at ids row t h in
      let (_, actions) = record_audit-attempts sha256 _ e _ b.audited.0 b.audited.1 in
      subst (λ l. All (KeyHeld merchant action until) l)
        (saved_rows d b.saved (counted b.before at) b.action_saved ∙ sym actions)
        (update-All (KeyHeld merchant action until) (has_key b.before.merchant_id b.before.id)
          (counted b.before at) d.actions
          (first_row-All (KeyHeld merchant action until) (has_key merchant' action') d.actions
            b.before held b.read)
          held)

  finishes-held :
      (merchant action : String) (until : ℕ) (d e : Database) (merchant' action' token : String)
      (x : AttemptResult) (ids : String × String) (row : ActionRow) (t : ActionAttempt)
      → (str_eq merchant' merchant && str_eq action' action) ≡ false
      → finish_attempt sha256 d merchant' action' token x ids ≡ ok (row, t, e)
      → All (KeyHeld merchant action until) d.actions
      → All (KeyHeld merchant action until) e.actions
  unfolding save_attempt
  finishes-held merchant action until d e merchant' action' token x ids row t differ h held =
      let f = finish_attempt-Finished sha256 d e merchant' action' token x ids row t h in
      let (_, completes) =
        raise_if-eq-ok (not (attempt_constraints (completed f.started x))) _ _ f.attempt_saved in
      let kept = ap (λ (y : Database). y.actions) (ok-injective completes) in
      let (_, actions) = audit_finish-kept f.saved e f.before f.started x f.ids f.audited in
      let (m, i, _, _, _) = row_after_lem f.before x in
      let (own_m, own_i) = get_action-key d merchant' action' f.read in
      let after = row_after f.before x in
      subst (λ l. All (KeyHeld merchant action until) l)
        (saved_rows f.closed f.saved after f.action_saved ∙ sym actions)
        (update-All (KeyHeld merchant action until) (has_key after.merchant_id after.id) after
          f.closed.actions (λ mine. absurd (never _ mine (apart after (m ∙ own_m) (i ∙ own_i))))
          (subst (λ l. All (KeyHeld merchant action until) l) kept held))
    where
      apart :
          (r : ActionRow)
          → r.merchant_id ≡ merchant'
          → r.id ≡ action'
          → has_key merchant action r ≡ false
      apart r p q =
          ap (λ y. str_eq y merchant && str_eq r.id action) p
          ∙ ap (λ y. str_eq merchant' merchant && str_eq y action) q
          ∙ differ

      never : (b : Bool) → b ≡ true → b ≡ false → ⊥
      never b p q = cc

  -- The leases of an action run on.
  pub Between-held :
      {merchant action : String} {until : ℕ} {db e : Database}
      → Between merchant action until db e
      → All (KeyHeld merchant action until) db.actions
      → All (KeyHeld merchant action until) e.actions
  Between-held here held = held
  Between-held {merchant} {action} {until} {db} {e}
        (claimed {d} locked tokens now lease_for limit claims before early h) held =
      claims-held merchant action until locked tokens d e now lease_for limit claims early h
        (Between-held before held)
  Between-held {merchant} {action} {until} {db} {e}
        (begun {d} merchant' action' token at ids row t before h) held =
      begins-held merchant action until d e merchant' action' token at ids row t h
        (Between-held before held)
  Between-held {merchant} {action} {until} {db} {e}
        (finished {d} merchant' action' token x ids row t before differ h) held =
      finishes-held merchant action until d e merchant' action' token x ids row t differ h
        (Between-held before held)
