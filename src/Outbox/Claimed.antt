-- ===== src/Outbox/Claimed.antt =====
-- What a claim leaves: each claimed action leased, and the outbox sound.
use revenue_guard.Prelude.{
  ℕ, ◌+◌, ◌<◌, String, ◌≡◌, refl, sym, ap, ◌∙◌, subst, Bool, true, not, ◌&&◌, ◌||◌, Bool-cases, inl,
  inr, some, List, [], ◌∷◌, arith, All, if◌then◌else◌, zero, suc, ◌==◌,
}
use revenue_guard.Fault.{ok, raise_if-eq-ok, ok-injective, >>=-eq-ok, value_error}
use revenue_guard.Table.{first_row, select-All, order_by-All}
use revenue_guard.Outbox.Tables.{ActionRow, ActionAttempt, Database, has_key, save_action}
use revenue_guard.Outbox.Enqueue.{get_action}
use revenue_guard.Outbox.Claim.{
  ClaimedAction, is_due, first_rows, due_rows, leased, claim_rows, claim_due_actions,
}
use revenue_guard.Outbox.Keys.{save_action_lem, has_key_eq, FoundIn, Unique-found, first_row-write}
use revenue_guard.Outbox.Sound.{Agrees, IsSound, Numbered}
use revenue_guard.Outbox.Kept.{own_attempts, read-at, save_action-IsSound}

-- What holds of all rows holds of the first of them.
first_rows-All :
    (P : ActionRow → Type 0) (n : ℕ) (rows : List ActionRow)
    → All P rows
    → All P (first_rows n rows)
unfolding first_rows
first_rows-All P zero rows h = tt
first_rows-All P (suc n) [] h = tt
first_rows-All P (suc n) (r ∷ rows) h = (h.0, first_rows-All P n rows h.1)

module _ (text_before : String → String → Bool) where
  -- The rows that are claimed are due, and are read by their keys.
  pub due_rows-All :
      (P : ActionRow → Type 0) (locked : ActionRow → Bool) (db : Database) (now limit : ℕ)
      → All P db.actions
      → All
          (λ r. ((is_due db.attempts now r && not (locked r)) ≡ true) × P r)
          (due_rows text_before locked db now limit)
  unfolding due_rows
  due_rows-All P locked db now limit h = first_rows-All _ limit _ (
      order_by-All _ _ _
        (select-All P (λ r. is_due db.attempts now r && not (locked r)) db.actions h))

-- What a row that is to be claimed still needs to be, while others are claimed.
abbrev Waits : Database → ActionRow → Type 0
Waits db r =
    (s : ActionRow) × (get_action db r.merchant_id r.id ≡ some s)
    × (s.attempt_count ≡ r.attempt_count)
    × (s.max_attempts ≡ r.max_attempts)
    × (r.attempt_count < r.max_attempts)

leased-Agrees :
    (r s : ActionRow) (token : String) (now lease_for : ℕ) (ts : List ActionAttempt)
    → Agrees s ts
    → s.attempt_count ≡ r.attempt_count
    → s.max_attempts ≡ r.max_attempts
    → r.attempt_count < r.max_attempts
    → Agrees (leased r token now lease_for) ts
leased-Agrees r s token now lease_for ts a counts bound below = record {
  numbered = subst (λ n. Numbered n ts) counts a.numbered;
  bounded = omega (arith, below);
  room = λ _ _. below;
}

-- What is read after the flush of a row.
pub read-saved :
    (db saved : Database) (row r : ActionRow) (merchant action : String)
    → get_action db row.merchant_id row.id ≡ some r
    → save_action db row ≡ ok saved
    → get_action saved merchant action
      ≡ (if has_key merchant action row then some row else get_action db merchant action)
unfolding get_action
read-saved db saved row r merchant action there h =
    ap (λ (x : Database). first_row (has_key merchant action) x.actions)
      (sym (save_action_lem db saved row h))
    ∙ first_row-write db.actions row r merchant action there

saved-Waits :
    (db saved : Database) (r x : ActionRow) (token : String) (now lease_for : ℕ)
    → Waits db r
    → Waits db x
    → save_action db (leased r token now lease_for) ≡ ok saved
    → Waits saved x
saved-Waits db saved r x token now lease_for w v h =
    elim (Bool-cases (has_key x.merchant_id x.id r)) [
      | inl same ↦
          let e = matched (has_key_eq x.merchant_id x.id r same) in
          (
            leased r token now lease_for,
            wrote
                ∙ ap (λ (b : Bool). if b then some row else get_action db x.merchant_id x.id) same,
            sym w.2 ∙ ap (λ (y : ActionRow). y.attempt_count) e ∙ v.2,
            sym w.3 ∙ ap (λ (y : ActionRow). y.max_attempts) e ∙ v.3,
            v.4,
          )
      | inr differ ↦ (
        v.0,
        wrote
            ∙ ap (λ (b : Bool). if b then some row else get_action db x.merchant_id x.id) differ
            ∙ v.1,
        v.2,
        v.3,
        v.4,
      )
    ]
  where
    row : ActionRow
    row = leased r token now lease_for

    wrote :
        get_action saved x.merchant_id x.id
        ≡ (if has_key x.merchant_id x.id r then some row else get_action db x.merchant_id x.id)
    wrote = read-saved db saved row w.0 x.merchant_id x.id w.1 h

    matched : (r.merchant_id ≡ x.merchant_id) × (r.id ≡ x.id) → w.0 ≡ v.0
    matched k = some-injective (
        sym w.1
        ∙ ap (λ m. get_action db m r.id) k.0
        ∙ ap (λ a. get_action db x.merchant_id a) k.1
        ∙ v.1)
      where
        some-injective : {a b : ActionRow} → some a ≡ some b → a ≡ b
        some-injective e = cc

saved_keeps_claims :
    (db saved : Database) (r : ActionRow) (rows : List ActionRow) (token : String)
    (now lease_for : ℕ)
    → Waits db r
    → All (Waits db) rows
    → save_action db (leased r token now lease_for) ≡ ok saved
    → All (Waits saved) rows
saved_keeps_claims db saved r [] token now lease_for w v h = tt
saved_keeps_claims db saved r (x ∷ rows) token now lease_for w v h = (
  saved-Waits db saved r x token now lease_for w v.0 h,
  saved_keeps_claims db saved r rows token now lease_for w v.1 h,
)

leased-IsSound :
    (db saved : Database) (r : ActionRow) (token : String) (now lease_for : ℕ)
    → IsSound db
    → Waits db r
    → save_action db (leased r token now lease_for) ≡ ok saved
    → IsSound saved
leased-IsSound db saved r token now lease_for s w h =
    save_action-IsSound db saved w.0 (leased r token now lease_for) s w.1
      (leased-Agrees r w.0 token now lease_for (own_attempts db r)
        (read-at db r.merchant_id r.id w.0 s w.1) w.2 w.3 w.4)
      h

claim_rows-IsSound :
    (tokens : ℕ → String) (db db' : Database) (now lease_for : ℕ) (rows : List ActionRow) (n : ℕ)
    (claims : List ClaimedAction)
    → IsSound db
    → All (Waits db) rows
    → claim_rows tokens db now lease_for rows n ≡ ok (claims, db')
    → IsSound db'
unfolding claim_rows
claim_rows-IsSound tokens db db' now lease_for [] n claims s w h =
    subst IsSound (ap (λ (x : List ClaimedAction × Database). x.1) (ok-injective h)) s
claim_rows-IsSound tokens db db' now lease_for (r ∷ rows) n claims s w h =
    let (saved, wrote, h1) = >>=-eq-ok (save_action db (leased r (tokens n) now lease_for)) _ h in
    let ((more, claimed), rest, e) =
      >>=-eq-ok (claim_rows tokens saved now lease_for rows (n + 1)) _ h1 in
    subst IsSound (ap (λ (x : List ClaimedAction × Database). x.1) (ok-injective e)) (
      claim_rows-IsSound tokens saved claimed now lease_for rows (n + 1) more
        (leased-IsSound db saved r (tokens n) now lease_for s w.0 wrote)
        (saved_keeps_claims db saved r rows (tokens n) now lease_for w.0 w.1 wrote) rest)

due_below :
    (attempts : List ActionAttempt) (now : ℕ) (r : ActionRow) (free : Bool)
    → (is_due attempts now r && free) ≡ true
    → r.attempt_count < r.max_attempts
unfolding is_due
due_below attempts now r free h = ground arith

others_wait :
    (db : Database) (now : ℕ) (locked : ActionRow → Bool) (rows : List ActionRow)
    → All (λ r. ((is_due db.attempts now r && not (locked r)) ≡ true) × FoundIn db.actions r) rows
    → All (Waits db) rows
unfolding get_action
others_wait db now locked [] h = tt
others_wait db now locked (r ∷ rows) h = (
  (r, h.0.1, refl, refl, due_below db.attempts now r (not (locked r)) h.0.0),
  others_wait db now locked rows h.1,
)

-- Claiming due actions keeps the outbox sound.
pub claim_due_actions-IsSound :
    (text_before : String → String → Bool) (locked : ActionRow → Bool) (tokens : ℕ → String)
    (db db' : Database) (now lease_for limit : ℕ) (claims : List ClaimedAction)
    → IsSound db
    → claim_due_actions text_before locked tokens db now lease_for limit ≡ ok (claims, db')
    → IsSound db'
unfolding claim_due_actions
claim_due_actions-IsSound text_before locked tokens db db' now lease_for limit claims s h =
    let (_, rest) =
      raise_if-eq-ok ((lease_for == 0) || (limit == 0))
        (value_error "lease_for and limit must be positive") _ h in
    claim_rows-IsSound tokens db db' now lease_for (due_rows text_before locked db now limit) 0
      claims s
      (others_wait db now locked (due_rows text_before locked db now limit) (
        due_rows-All text_before (FoundIn db.actions) locked db now limit
          (Unique-found db.actions s.keys_unique)))
      rest
