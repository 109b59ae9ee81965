-- ===== src/Outbox/Standing.antt =====
-- action_repositories.py: what workers do with other actions leaves an open attempt open.
use revenue_guard.Prelude.{
  ℕ, ◌+◌, String, ◌≡◌, refl, sym, ap, ◌∙◌, subst, Bool, true, false, not, ◌&&◌, ◌||◌, Bool-cases,
  inl, inr, List, [], ◌∷◌, any, arith, str_eq, str_eq_iff, ◌==◌,
}
use revenue_guard.Fault.{ok, value_error, ok-injective, >>=-eq-ok, raise_if-eq-ok}
use revenue_guard.Table.{update}
use revenue_guard.Outbox.Keys.{save_action_lem}
use revenue_guard.Outbox.Tables.{
  ActionRow, ActionAttempt, Database, open_of, save_action, save_attempt, attempt_constraints,
}
use revenue_guard.Outbox.Claim.{ClaimedAction, due_rows, leased, claim_rows, claim_due_actions}
use revenue_guard.Outbox.Attempt.{new_attempt, counted, completed, held_by, row_after}
use revenue_guard.Outbox.Begun.{begin_attempt-Begun, record_audit-attempts}
use revenue_guard.Outbox.Finished.{finish_attempt-Finished}
use revenue_guard.Outbox.Between.{Between, here, claimed, begun, finished, audit_finish-kept}

same_key :
    (m a m' a' m'' a'' : String)
    → (str_eq m' m && str_eq a' a) ≡ false
    → (str_eq m'' m && str_eq a'' a) ≡ true
    → (str_eq m'' m' && str_eq a'' a') ≡ false
same_key m a m' a' m'' a'' differ mine = elim (Bool-cases (str_eq m'' m' && str_eq a'' a')) [
  | inl theirs ↦ absurd (both_differ theirs)
  | inr other ↦ other
]
  where
    both_differ : (str_eq m'' m' && str_eq a'' a') ≡ true → ⊥
    both_differ theirs =
        let own = (str_eq_iff m'' m).0 (left (str_eq m'' m) (str_eq a'' a) mine) in
        let own' = (str_eq_iff a'' a).0 (right (str_eq m'' m) (str_eq a'' a) mine) in
        let far = (str_eq_iff m'' m').0 (left (str_eq m'' m') (str_eq a'' a') theirs) in
        let far' = (str_eq_iff a'' a').0 (right (str_eq m'' m') (str_eq a'' a') theirs) in
        no (str_eq m' m) (str_eq a' a) ((str_eq_iff m' m).1 (sym far ∙ own))
          ((str_eq_iff a' a).1 (sym far' ∙ own')) differ
      where
        left : (b c : Bool) → (b && c) ≡ true → b ≡ true
        left b c p = ground arith

        right : (b c : Bool) → (b && c) ≡ true → c ≡ true
        right b c p = ground arith

        no : (b c : Bool) → b ≡ true → c ≡ true → (b && c) ≡ false → ⊥
        no b c p q r = ground arith

-- Closing an attempt of another action leaves an attempt of an action open.
still_open :
    (merchant action merchant' action' token : String) (t : ActionAttempt) (ts : List ActionAttempt)
    → (str_eq merchant' merchant && str_eq action' action) ≡ false
    → any (open_of merchant action) ts ≡ true
    → any (open_of merchant action) (update (held_by merchant' action' token) (λ _. t) ts) ≡ true
unfolding update
still_open merchant action merchant' action' token t [] differ h = cc
still_open merchant action merchant' action' token t (u ∷ us) differ h =
    elim (Bool-cases (open_of merchant action u)) [
      | inl mine ↦ rw (untouched mine, mine) refl
      | inr other ↦ later other (
          still_open merchant action merchant' action' token t us differ (ground (arith, other, h)))
    ]
  where
    untouched : open_of merchant action u ≡ true → held_by merchant' action' token u ≡ false
    untouched mine = ground (
      arith,
      same_key merchant action merchant' action' u.merchant_id u.recovery_action_id differ
          (ground (arith, mine)),
    )

    either : {c : Bool} (b : Bool) → c ≡ true → (b || c) ≡ true
    either b e = ground arith

    later :
        open_of merchant action u ≡ false
        → any (open_of merchant action) (update (held_by merchant' action' token) (λ _. t) us)
          ≡ true
        → any (open_of merchant action) (update (held_by merchant' action' token) (λ _. t) (u ∷ us))
          ≡ true
    later other rest = elim (Bool-cases (held_by merchant' action' token u)) [
      | inl closed ↦ rw closed (either (open_of merchant action t) rest)
      | inr kept ↦ rw kept (either (open_of merchant action u) rest)
    ]

claim_rows-attempts :
    (tokens : ℕ → String) (db db' : Database) (now lease_for : ℕ) (rows : List ActionRow) (n : ℕ)
    (claims : List ClaimedAction)
    → claim_rows tokens db now lease_for rows n ≡ ok (claims, db')
    → db.attempts ≡ db'.attempts
unfolding claim_rows
claim_rows-attempts tokens db db' now lease_for [] n claims h =
    ap (λ (x : List ClaimedAction × Database). x.1.attempts) (ok-injective h)
claim_rows-attempts tokens db db' now lease_for (r ∷ rows) n claims h =
    let (saved, wrote, h1) = >>=-eq-ok (save_action db (leased r (tokens n) now lease_for)) _ h in
    let ((more, after), rest, e) =
      >>=-eq-ok (claim_rows tokens saved now lease_for rows (n + 1)) _ h1 in
    ap (λ (x : Database). x.attempts)
      (save_action_lem db saved (leased r (tokens n) now lease_for) wrote)
    ∙ claim_rows-attempts tokens saved after now lease_for rows (n + 1) more rest
    ∙ ap (λ (x : List ClaimedAction × Database). x.1.attempts) (ok-injective e)

one_more :
    (test : ActionAttempt → Bool) (t : ActionAttempt) (ts : List ActionAttempt)
    → any test ts ≡ true
    → any test (t ∷ ts) ≡ true
one_more test t ts h = ground (arith, h)

module _ (sha256 : List ℕ → String) (text_before : String → String → Bool) where
  -- An open attempt stays open.
  pub Between-open :
      {merchant action : String} {until : ℕ} {db e : Database}
      → Between sha256 text_before merchant action until db e
      → any (open_of merchant action) db.attempts ≡ true
      → any (open_of merchant action) e.attempts ≡ true
  unfolding claim_due_actions save_attempt
  Between-open here running = running
  Between-open {merchant} {action} {until} {db} {e}
        (claimed {d} locked tokens now lease_for limit claims before early h) running =
      let (_, k) =
        raise_if-eq-ok ((lease_for == 0) || (limit == 0))
          (value_error "lease_for and limit must be positive") _ h in
      subst (λ l. any (open_of merchant action) l ≡ true)
        (claim_rows-attempts tokens d e now lease_for (due_rows text_before locked d now limit) 0
          claims k)
        (Between-open before running)
  Between-open {merchant} {action} {until} {db} {e}
        (begun {d} merchant' action' token at ids row t before h) running =
      let b = begin_attempt-Begun sha256 d e merchant' action' token at ids row t h in
      let (ts, _) = record_audit-attempts sha256 _ e _ b.audited.0 b.audited.1 in
      let kept =
        ap (λ (x : Database). x.attempts)
          (save_action_lem d b.saved (counted b.before at) b.action_saved) in
      subst (λ l. any (open_of merchant action) l ≡ true) (sym ts)
        (one_more (open_of merchant action) (new_attempt sha256 (counted b.before at) token at)
          b.saved.attempts
          (subst (λ l. any (open_of merchant action) l ≡ true) kept (Between-open before running)))
  Between-open {merchant} {action} {until} {db} {e}
        (finished {d} merchant' action' token x ids row t before differ h) running =
      let f = finish_attempt-Finished sha256 d e merchant' action' token x ids row t h in
      let (_, completes) =
        raise_if-eq-ok (not (attempt_constraints (completed f.started x))) _ _ f.attempt_saved in
      let closed = ap (λ (y : Database). y.attempts) (ok-injective completes) in
      let kept =
        ap (λ (y : Database). y.attempts)
          (save_action_lem f.closed f.saved (row_after f.before x) f.action_saved) in
      let (ts, _) =
        audit_finish-kept sha256 text_before f.saved e f.before f.started x f.ids f.audited in
      subst (λ l. any (open_of merchant action) l ≡ true) (closed ∙ kept ∙ sym ts)
        (still_open merchant action merchant' action' token (completed f.started x) d.attempts
          differ (Between-open before running))
