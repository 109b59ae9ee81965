-- ===== src/Outbox/Kept.antt =====
-- Each operation of the outbox keeps its actions and their attempts together.
use revenue_guard.Prelude.{
  ℕ, String, ◌≡◌, refl, sym, ap, ◌∙◌, subst, Bool, true, false, not, ◌&&◌, some, List, ◌∷◌, arith,
  is_some, str_eq, str_eq_iff,
}
use revenue_guard.Fault.{ok, integrity_error, raise_if-eq-ok, ok-injective}
use revenue_guard.Table.{
  select, update, one_or_none, select-update, select-update_other, select-within,
}
use revenue_guard.Outbox.Tables.{
  ActionRow, ActionAttempt, Database, has_key, attempt_of, is_open, open_of, save_action,
  save_attempt, attempt_constraints,
}
use revenue_guard.Outbox.Enqueue.{get_action}
use revenue_guard.Outbox.Keys.{save_action_lem, both_true, Unique-update}
use revenue_guard.Outbox.Sound.{Agrees, AgreesOpt, IsSound, Numbered, Sound-write}
use revenue_guard.Outbox.Numbering.{Numbered-complete}

abbrev pub own_attempts : Database → ActionRow → List ActionAttempt
own_attempts db r = select (attempt_of r.merchant_id r.id) db.attempts

-- A write of an action that agrees with its attempts.
pub save_action-IsSound :
    (db db' : Database) (r row : ActionRow)
    → IsSound db
    → get_action db row.merchant_id row.id ≡ some r
    → Agrees row (own_attempts db row)
    → save_action db row ≡ ok db'
    → IsSound db'
unfolding get_action
save_action-IsSound db db' r row s there agrees h =
    subst IsSound (save_action_lem db db' row h) (record {
      agree =
          Sound-write db.actions db.attempts db.attempts r row s.agree there agrees
            (λ merchant action differ. refl);
      keys_unique = Unique-update row db.actions s.keys_unique;
    })

-- A row without a lease agrees with the attempts of the row before it.
pub Agrees-released :
    (r row : ActionRow) (ts : List ActionAttempt)
    → Agrees r ts
    → row.attempt_count ≡ r.attempt_count
    → row.max_attempts ≡ r.max_attempts
    → is_some row.lease_token ≡ false
    → Agrees row ts
Agrees-released r row ts a counts bound free = record {
  numbered = subst (λ n. Numbered n ts) (sym counts) a.numbered;
  bounded = omega (arith, counts, bound, a.bounded);
  room = λ held _. absurd (ground (arith, held, free));
}

-- What a sound database says of a row that is read.
pub read-Agrees :
    (db : Database) (r : ActionRow)
    → IsSound db
    → get_action db r.merchant_id r.id ≡ some r
    → Agrees r (own_attempts db r)
unfolding get_action
read-Agrees db r s there =
    subst (λ o. AgreesOpt o (own_attempts db r)) there (s.agree r.merchant_id r.id)

pub read-at :
    (db : Database) (merchant action : String) (r : ActionRow)
    → IsSound db
    → get_action db merchant action ≡ some r
    → Agrees r (select (attempt_of merchant action) db.attempts)
unfolding get_action
read-at db merchant action r s there =
    subst (λ o. AgreesOpt o (select (attempt_of merchant action) db.attempts)) there
      (s.agree merchant action)

-- The attempts that a test of one action selects, when they are completed.
module _ (merchant action : String) (test : ActionAttempt → Bool)
    (within : (t : ActionAttempt) → test t ≡ true → open_of merchant action t ≡ true) where
  inside : (t : ActionAttempt) → test t ≡ true → attempt_of merchant action t ≡ true
  inside t h = (both_true (attempt_of merchant action t) (is_open t) (within t h)).0

  opens : (t : ActionAttempt) → test t ≡ true → is_open t ≡ true
  opens t h = (both_true (attempt_of merchant action t) (is_open t) (within t h)).1

  pub complete-Numbered :
      (n : ℕ) (attempts : List ActionAttempt) (t done : ActionAttempt)
      → Numbered n (select (attempt_of merchant action) attempts)
      → one_or_none (select test attempts) ≡ ok (some t)
      → attempt_of merchant action done ≡ true
      → done.attempt_number ≡ t.attempt_number
      → Numbered n (select (attempt_of merchant action) (update test (λ _. done) attempts))
  complete-Numbered n attempts t done h found own same =
      subst (Numbered n)
        (sym (
          select-update test (attempt_of merchant action) (λ _. done) inside (λ _ _. own) attempts))
        (Numbered-complete test opens n (select (attempt_of merchant action) attempts) t done h
          (ap one_or_none (select-within test (attempt_of merchant action) inside attempts) ∙ found)
          same)

-- The attempts of one action are not those of another.
attempts_apart :
    (merchant action : String) (r : ActionRow) (t : ActionAttempt)
    → has_key merchant action r ≡ false
    → attempt_of r.merchant_id r.id t ≡ true
    → attempt_of merchant action t ≡ false
attempts_apart merchant action r t h k =
    let (m, a) =
      both_true (str_eq t.merchant_id r.merchant_id) (str_eq t.recovery_action_id r.id) k in
    ap (λ x. str_eq x merchant && str_eq t.recovery_action_id action)
      ((str_eq_iff t.merchant_id r.merchant_id).0 m)
    ∙ ap (λ x. str_eq r.merchant_id merchant && str_eq x action)
        ((str_eq_iff t.recovery_action_id r.id).0 a)
    ∙ h

-- A write of an action and the completion of one of its attempts.
pub complete-IsSound :
    (db closed db' : Database) (r row : ActionRow) (test : ActionAttempt → Bool)
    (done : ActionAttempt)
    → IsSound db
    → get_action db row.merchant_id row.id ≡ some r
    → ((t : ActionAttempt) → test t ≡ true → open_of row.merchant_id row.id t ≡ true)
    → attempt_of row.merchant_id row.id done ≡ true
    → Agrees row (select (attempt_of row.merchant_id row.id) (update test (λ _. done) db.attempts))
    → save_attempt db test done ≡ ok closed
    → save_action closed row ≡ ok db'
    → IsSound db'
unfolding save_attempt get_action
complete-IsSound db closed db' r row test done s there within own agrees h k =
    let (_, e) = raise_if-eq-ok (not (attempt_constraints done)) integrity_error _ h in
    subst IsSound (save_action_lem closed db' row k) (
      subst
        (λ x.
          IsSound
            (record x { actions = update (has_key row.merchant_id row.id) (λ _. row) x.actions }))
        (ok-injective e)
        (record {
          agree =
              Sound-write db.actions db.attempts (update test (λ _. done) db.attempts) r row s.agree
                there agrees others;
          keys_unique = Unique-update row db.actions s.keys_unique;
        }))
  where
    others :
        (merchant action : String)
        → has_key merchant action row ≡ false
        → select (attempt_of merchant action) (update test (λ _. done) db.attempts)
          ≡ select (attempt_of merchant action) db.attempts
    others merchant action differ =
        select-update_other test (attempt_of merchant action) (λ _. done)
          (λ t p.
            attempts_apart merchant action row t differ
              (inside row.merchant_id row.id test within t p))
          (λ t p. attempts_apart merchant action row done differ own) db.attempts

-- The same, for a row whose key is given apart.
pub complete-at :
    (db closed db' : Database) (merchant action : String) (r row : ActionRow)
    (test : ActionAttempt → Bool) (done : ActionAttempt)
    → IsSound db
    → row.merchant_id ≡ merchant
    → row.id ≡ action
    → get_action db merchant action ≡ some r
    → ((t : ActionAttempt) → test t ≡ true → open_of merchant action t ≡ true)
    → attempt_of merchant action done ≡ true
    → Agrees row (select (attempt_of merchant action) (update test (λ _. done) db.attempts))
    → save_attempt db test done ≡ ok closed
    → save_action closed row ≡ ok db'
    → IsSound db'
complete-at db closed db' merchant action r row test done s m a =
    subst Holds_at m
      (subst (Holds row.merchant_id) a (complete-IsSound db closed db' r row test done s))
  where
    Holds : String → String → Type 0
    Holds x y =
        get_action db x y ≡ some r
        → ((t : ActionAttempt) → test t ≡ true → open_of x y t ≡ true)
        → attempt_of x y done ≡ true
        → Agrees row (select (attempt_of x y) (update test (λ _. done) db.attempts))
        → save_attempt db test done ≡ ok closed
        → save_action closed row ≡ ok db'
        → IsSound db'

    Holds_at : String → Type 0
    Holds_at x = Holds x action

-- A write of an action and of a new attempt to execute it.
pub open-IsSound :
    (db saved : Database) (r row : ActionRow) (t : ActionAttempt)
    → IsSound db
    → get_action db row.merchant_id row.id ≡ some r
    → attempt_of row.merchant_id row.id t ≡ true
    → Agrees row (t ∷ own_attempts db row)
    → save_action db row ≡ ok saved
    → IsSound (record saved { attempts = t ∷ saved.attempts })
unfolding get_action select
open-IsSound db saved r row t s there own agrees h =
    subst (λ x. IsSound (record x { attempts = t ∷ x.attempts })) (save_action_lem db saved row h)
      (record {
        agree =
            Sound-write db.actions db.attempts (t ∷ db.attempts) r row s.agree there (rw own agrees)
              (λ merchant action differ. rw (attempts_apart merchant action row t differ own));
        keys_unique = Unique-update row db.actions s.keys_unique;
      })
