-- ===== src/Outbox/Sound.antt =====
-- The actions and their attempts belong together: what the outbox promises of its two tables, and
-- what a write to an action and its attempts has to show.
use revenue_guard.Prelude.{
  ℕ, ◌-◌, ◌≤◌, ◌<◌, String, ◌≡◌, sym, subst, true, false, Bool-cases, inl, inr, Option, none, some,
  List, [], ◌∷◌, All, any, is_some,
}
use revenue_guard.Table.{
  select, first_row, update, first_row-update, first_row-update_other, first_row_holds,
}
use revenue_guard.Outbox.Tables.{ActionRow, ActionAttempt, Database, has_key, attempt_of, is_open}
use revenue_guard.Outbox.Enqueue.{get_action}
use revenue_guard.Outbox.Keys.{has_key_eq, has_key_self, keys_apart, Unique}

-- Attempts, newest first, that are numbered down from a count to one, of which only the newest can be
-- open.
abbrev pub AllClosed : List ActionAttempt → Type 0
AllClosed = All λ t. is_open t ≡ false

abbrev pub Numbered : ℕ → List ActionAttempt → Type 0
Numbered n [] = n ≡ 0
Numbered n (t ∷ ts) = (t.attempt_number ≡ n) × (1 ≤ n) × AllClosed ts × Numbered (n - 1) ts

-- An action agrees with its attempts: they are numbered up to its count, which is within its maximum,
-- and below it while the action is leased with no attempt open.
pub record Agrees (r : ActionRow) (ts : List ActionAttempt) : Type 0 where
  pub numbered : Numbered r.attempt_count ts
  pub bounded : r.attempt_count ≤ r.max_attempts
  pub room :
      is_some r.lease_token ≡ true → any is_open ts ≡ false → r.attempt_count < r.max_attempts

-- Where there is no action there is no attempt.
abbrev pub AgreesOpt : Option ActionRow → List ActionAttempt → Type 0
AgreesOpt none ts = ts ≡ []
AgreesOpt (some r) ts = Agrees r ts

abbrev pub Sound : List ActionRow → List ActionAttempt → Type 0
Sound actions attempts =
    (merchant action : String)
    → AgreesOpt (first_row (has_key merchant action) actions)
        (select (attempt_of merchant action) attempts)

pub record IsSound (db : Database) : Type 0 where
  pub agree : Sound db.actions db.attempts
  pub keys_unique : Unique db.actions

-- The row that is read by a key has it.
pub get_action-key :
    (db : Database) (merchant action : String) {r : ActionRow}
    → get_action db merchant action ≡ some r
    → (r.merchant_id ≡ merchant) × (r.id ≡ action)
unfolding get_action
get_action-key db merchant action {r} h =
    has_key_eq merchant action r (first_row_holds (has_key merchant action) db.actions r h)

-- What a write of one action and its attempts has to show.
pub Sound-write :
    (actions : List ActionRow) (attempts attempts' : List ActionAttempt) (r row : ActionRow)
    → Sound actions attempts
    → first_row (has_key row.merchant_id row.id) actions ≡ some r
    → Agrees row (select (attempt_of row.merchant_id row.id) attempts')
    → ((merchant action : String)
        → has_key merchant action row ≡ false
        → select (attempt_of merchant action) attempts'
          ≡ select (attempt_of merchant action) attempts)
    → Sound (update (has_key row.merchant_id row.id) (λ _. row) actions) attempts'
Sound-write actions attempts attempts' r row sound there agrees others merchant action =
    elim (Bool-cases (has_key merchant action row)) [
      | inl same ↦ own (has_key_eq merchant action row same)
      | inr differ ↦
          subst (λ o. AgreesOpt o (select (attempt_of merchant action) attempts'))
            (sym (
              first_row-update_other (has_key row.merchant_id row.id) (has_key merchant action)
                (λ _. row) (λ s k. keys_apart merchant action row s differ k) (λ s k. differ)
                actions))
            (subst (λ ts. AgreesOpt (first_row (has_key merchant action) actions) ts)
              (sym (others merchant action differ)) (sound merchant action))
    ]
  where
    written : List ActionRow
    written = update (has_key row.merchant_id row.id) (λ _. row) actions

    here :
        AgreesOpt
          (first_row (has_key row.merchant_id row.id) written)
          (select (attempt_of row.merchant_id row.id) attempts')
    here =
        subst (λ o. AgreesOpt o (select (attempt_of row.merchant_id row.id) attempts'))
          (sym (
            first_row-update (has_key row.merchant_id row.id) (λ _. row) (λ s k. has_key_self row)
              actions r there))
          agrees

    own :
        (row.merchant_id ≡ merchant) × (row.id ≡ action)
        → AgreesOpt
            (first_row (has_key merchant action) written)
            (select (attempt_of merchant action) attempts')
    own k =
        subst
          (λ m.
            AgreesOpt (first_row (has_key m action) written)
              (select (attempt_of m action) attempts'))
          k.0
          (subst
            (λ a.
              AgreesOpt (first_row (has_key row.merchant_id a) written)
                (select (attempt_of row.merchant_id a) attempts'))
            k.1 here)
