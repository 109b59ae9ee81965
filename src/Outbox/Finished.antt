-- ===== src/Outbox/Finished.antt =====
-- What an attempt that was finished has found and has left, and that it keeps the outbox sound.
use revenue_guard.Prelude.{
  ℕ, String, ◌≡◌, refl, sym, ap, ◌∙◌, subst, true, false, Bool-cases, Option-cases, inl, inr,
  Option, none, some, List, arith, is_some, str_eq,
}
use revenue_guard.Fault.{ok, err, action_error, ok-injective, >>=-eq-ok}
use revenue_guard.Table.{select, one_or_none, update, one_or_none_holds}
use revenue_guard.Outbox.Tables.{
  ActionRow, ActionAttempt, Database, attempt_of, is_open, open_of, save_action, save_attempt,
}
use revenue_guard.Outbox.Enqueue.{get_action, record_audit}
use revenue_guard.Outbox.Attempt.{
  required_action, AttemptResult, held_by, required_attempt, completed, row_after, audit_finish,
  finish_attempt, finished_request, retries_at,
}
use revenue_guard.Outbox.Keys.{both_true}
use revenue_guard.Outbox.Sound.{Agrees, IsSound, Numbered, get_action-key}
use revenue_guard.Outbox.Kept.{read-at, complete-Numbered, complete-at}
use revenue_guard.Outbox.Begun.{required_action_found, record_audit-IsSound}

required_attempt_found :
    (db : Database) (merchant action token : String) (t : ActionAttempt)
    → required_attempt db merchant action token ≡ ok t
    → one_or_none (select (held_by merchant action token) db.attempts) ≡ ok (some t)
unfolding required_attempt
required_attempt_found db merchant action token t h =
    let (found, there, h1) =
      >>=-eq-ok (one_or_none (select (held_by merchant action token) db.attempts)) _ h in
    there ∙ ap (λ o. ok o) (present found h1)
  where
    present :
        (o : Option ActionAttempt)
        → (elim o [ none ↦ err (action_error "ACTION_ATTEMPT_NOT_OPEN") | some u ↦ ok u ]) ≡ ok t
        → o ≡ some t
    present none h = cc
    present (some u) h = cc

-- The row after an attempt keeps its key and its counts, and its lease is given back.
pub row_after_lem :
    (r : ActionRow) (x : AttemptResult)
    → ((row_after r x).merchant_id ≡ r.merchant_id)
      × ((row_after r x).id ≡ r.id)
      × ((row_after r x).attempt_count ≡ r.attempt_count)
      × ((row_after r x).max_attempts ≡ r.max_attempts)
      × (is_some (row_after r x).lease_token ≡ false)
unfolding row_after
row_after_lem r x = elim (Option-cases (retries_at r x)) [
  | inl settles ↦ rw (settles, row_after) (refl, refl, refl, refl, refl)
  | inr (at, again) ↦ rw (again, row_after) (refl, refl, refl, refl, refl)
]

module _ (sha256 : List ℕ → String) where
  pub record Finished (db : Database) (merchant action token : String) (x : AttemptResult)
      (r : ActionRow) (t : ActionAttempt) (db' : Database) : Type 0 where
    pub before : ActionRow
    pub read : get_action db merchant action ≡ some before
    pub started : ActionAttempt
    pub held : one_or_none (select (held_by merchant action token) db.attempts) ≡ ok (some started)
    pub row : r ≡ row_after before x
    pub attempt : t ≡ completed started x
    pub closed : Database
    pub attempt_saved :
        save_attempt db (held_by merchant action token) (completed started x) ≡ ok closed
    pub saved : Database
    pub action_saved : save_action closed (row_after before x) ≡ ok saved
    pub ids : String × String
    pub audited : audit_finish sha256 saved before started x ids ≡ ok db'

  pub finish_attempt-Finished :
      (db db' : Database) (merchant action token : String) (x : AttemptResult)
      (ids : String × String) (r : ActionRow) (t : ActionAttempt)
      → finish_attempt sha256 db merchant action token x ids ≡ ok (r, t, db')
      → Finished db merchant action token x r t db'
  unfolding finish_attempt
  finish_attempt-Finished db db' merchant action token x ids r t h =
      let (b, found, h1) = >>=-eq-ok (required_action db merchant action) _ h in
      let (u, held, h2) = >>=-eq-ok (required_attempt db merchant action token) _ h1 in
      let (closed, completes, h3) =
        >>=-eq-ok (save_attempt db (held_by merchant action token) (completed u x)) _ h2 in
      let (saved, wrote, h4) = >>=-eq-ok (save_action closed (row_after b x)) _ h3 in
      let (audited, told, h5) = >>=-eq-ok (audit_finish sha256 saved b u x ids) _ h4 in
      let e : (row_after b x, completed u x, audited) ≡ (r, t, db') = ok-injective h5 in
      record {
        before = b;
        read = required_action_found db merchant action b found;
        started = u;
        held = required_attempt_found db merchant action token u held;
        row = ap (λ (y : ActionRow × ActionAttempt × Database). y.0) (sym e);
        attempt = ap (λ (y : ActionRow × ActionAttempt × Database). y.1) (sym e);
        closed = closed;
        attempt_saved = completes;
        saved = saved;
        action_saved = wrote;
        ids = ids;
        audited = told ∙ ap (λ (y : ActionRow × ActionAttempt × Database). ok y.2) e;
      }

  audit_finish-IsSound :
      (db db' : Database) (r : ActionRow) (t : ActionAttempt) (x : AttemptResult)
      (ids : String × String)
      → IsSound db
      → audit_finish sha256 db r t x ids ≡ ok db'
      → IsSound db'
  unfolding audit_finish
  audit_finish-IsSound db db' r t x ids s h = elim (Bool-cases (is_some (retries_at r x))) [
    | inl again ↦ subst IsSound (unaudited again) s
    | inr settles ↦
        record_audit-IsSound sha256 db db' (finished_request r t x) ids s (recorded settles)
  ]
    where
      unaudited : is_some (retries_at r x) ≡ true → db ≡ db'
      unaudited again = ok-injective (ground (arith, again, h))

      recorded :
          is_some (retries_at r x) ≡ false
          → record_audit sha256 db (finished_request r t x) ids ≡ ok db'
      recorded settles = ground (arith, settles, h)

  completed-Agrees :
      (merchant action token : String) (attempts : List ActionAttempt) (r : ActionRow)
      (t : ActionAttempt) (x : AttemptResult)
      → Agrees r (select (attempt_of merchant action) attempts)
      → one_or_none (select (held_by merchant action token) attempts) ≡ ok (some t)
      → Agrees (row_after r x) (
          select
            (attempt_of merchant action)
            (update (held_by merchant action token) (λ _. completed t x) attempts))
  completed-Agrees merchant action token attempts r t x a held =
      let (m, i, counts, bound, free) = row_after_lem r x in
      record {
        numbered =
            complete-Numbered merchant action (held_by merchant action token) within
              (row_after r x).attempt_count attempts t (completed t x)
              (subst (λ n. Numbered n (select (attempt_of merchant action) attempts)) (sym counts)
                a.numbered)
              held
              (both_true (attempt_of merchant action t) (is_open t)
                (within t (one_or_none_holds (held_by merchant action token) attempts t held))).0
              refl;
        bounded = omega (arith, counts, bound, a.bounded);
        room = λ leased _. absurd (ground (arith, leased, free));
      }
    where
      within :
          (u : ActionAttempt)
          → held_by merchant action token u ≡ true
          → open_of merchant action u ≡ true
      within u h = (both_true (open_of merchant action u) (str_eq u.lease_token token) h).0

  -- Finishing an attempt keeps the outbox sound.
  pub finish_attempt-IsSound :
      (db db' : Database) (merchant action token : String) (x : AttemptResult)
      (ids : String × String) (r : ActionRow) (t : ActionAttempt)
      → IsSound db
      → finish_attempt sha256 db merchant action token x ids ≡ ok (r, t, db')
      → IsSound db'
  finish_attempt-IsSound db db' merchant action token x ids r t s h =
      let f = finish_attempt-Finished db db' merchant action token x ids r t h in
      let (m, a) = get_action-key db merchant action f.read in
      let (m', a', counts, bound, free) = row_after_lem f.before x in
      let own =
        both_true (open_of merchant action f.started) (str_eq f.started.lease_token token)
          (one_or_none_holds (held_by merchant action token) db.attempts f.started f.held) in
      audit_finish-IsSound f.saved db' f.before f.started x f.ids
        (complete-at db f.closed f.saved merchant action f.before (row_after f.before x)
          (held_by merchant action token) (completed f.started x) s (m' ∙ m) (a' ∙ a) f.read
          (λ u k. (both_true (open_of merchant action u) (str_eq u.lease_token token) k).0)
          (both_true (attempt_of merchant action f.started) (is_open f.started) own.0).0
          (completed-Agrees merchant action token db.attempts f.before f.started x
            (read-at db merchant action f.before s f.read) f.held)
          f.attempt_saved f.action_saved)
        f.audited
