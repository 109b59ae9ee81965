-- ===== src/Outbox/Held.antt =====
-- The rows of a claim are held for as long as its leases run.
use revenue_guard.Prelude.{
  ℕ, ◌+◌, String, ◌≡◌, refl, ap, subst, Bool, true, Bool-cases, inl, inr, none, some, List, [], ◌∷◌,
  arith, All,
}
use revenue_guard.Fault.{ok, ok-injective, >>=-eq-ok}
use revenue_guard.Table.{update}
use revenue_guard.Outbox.Keys.{save_action_lem}
use revenue_guard.Outbox.Tables.{ActionRow, Database, has_key, save_action}
use revenue_guard.Outbox.Claim.{ClaimedAction, leased, claim_of, claim_rows}

-- A row whose lease runs until an instant.
abbrev pub HeldUntil : ℕ → ActionRow → Type 0
HeldUntil until r = (r.lease_token ≡ none → ⊥) × (r.lease_expires_at ≡ some until)

-- A key whose rows are all held.
abbrev pub KeyHeld : String → String → ℕ → ActionRow → Type 0
KeyHeld merchant action until r = has_key merchant action r ≡ true → HeldUntil until r

pub update-All :
    (P : ActionRow → Type 0) (test : ActionRow → Bool) (row : ActionRow) (rows : List ActionRow)
    → P row
    → All P rows
    → All P (update test (λ _. row) rows)
unfolding update
update-All P test row [] p h = tt
update-All P test row (x ∷ rows) p h = elim (Bool-cases (test x)) [
  | inl same ↦ rw same (p, update-All P test row rows p h.1)
  | inr differ ↦ rw differ (h.0, update-All P test row rows p h.1)
]

update-Held :
    (until : ℕ) (row : ActionRow) (rows : List ActionRow)
    → HeldUntil until row
    → All
        (KeyHeld row.merchant_id row.id until)
        (update (has_key row.merchant_id row.id) (λ _. row) rows)
unfolding update
update-Held until row [] p = tt
update-Held until row (x ∷ rows) p = elim (Bool-cases (has_key row.merchant_id row.id x)) [
  | inl same ↦ rw same ((λ _. p), update-Held until row rows p)
  | inr differ ↦
      rw differ ((λ same. absurd (ground (arith, same, differ))), update-Held until row rows p)
]

pub saved_rows :
    (db saved : Database) (row : ActionRow)
    → save_action db row ≡ ok saved
    → update (has_key row.merchant_id row.id) (λ _. row) db.actions ≡ saved.actions
saved_rows db saved row h = ap (λ (x : Database). x.actions) (save_action_lem db saved row h)

leased_until :
    (r : ActionRow) (token : String) (now lease_for : ℕ)
    → HeldUntil (now + lease_for) (leased r token now lease_for)
leased_until r token now lease_for = (λ e. cc, refl)

-- A key that is held stays held while other rows are claimed.
claim_rows-Held :
    (tokens : ℕ → String) (db db' : Database) (now lease_for : ℕ) (rows : List ActionRow) (n : ℕ)
    (claims : List ClaimedAction) (merchant action : String)
    → claim_rows tokens db now lease_for rows n ≡ ok (claims, db')
    → All (KeyHeld merchant action (now + lease_for)) db.actions
    → All (KeyHeld merchant action (now + lease_for)) db'.actions
unfolding claim_rows
claim_rows-Held tokens db db' now lease_for [] n claims merchant action h held =
    subst
      (λ (x : List ClaimedAction × Database).
        All (KeyHeld merchant action (now + lease_for)) x.1.actions)
      (ok-injective h) held
claim_rows-Held tokens db db' now lease_for (r ∷ rows) n claims merchant action h held =
    let (saved, wrote, h1) = >>=-eq-ok (save_action db (leased r (tokens n) now lease_for)) _ h in
    let ((more, claimed), rest, e) =
      >>=-eq-ok (claim_rows tokens saved now lease_for rows (n + 1)) _ h1 in
    subst
      (λ (x : List ClaimedAction × Database).
        All (KeyHeld merchant action (now + lease_for)) x.1.actions)
      (ok-injective e)
      (claim_rows-Held tokens saved claimed now lease_for rows (n + 1) more merchant action rest (
        subst (λ l. All (KeyHeld merchant action (now + lease_for)) l)
          (saved_rows db saved (leased r (tokens n) now lease_for) wrote)
          (update-All (KeyHeld merchant action (now + lease_for)) (has_key r.merchant_id r.id)
            (leased r (tokens n) now lease_for) db.actions
            (λ _. leased_until r (tokens n) now lease_for) held)))

-- What a claim says of the rows.
abbrev pub Leases : List ClaimedAction → ℕ → List ActionRow → Type 0
Leases claims until rows =
    All (λ (c : ClaimedAction). All (KeyHeld c.merchant_id c.action_id until) rows) claims

pub claim_rows-Leases :
    (tokens : ℕ → String) (db db' : Database) (now lease_for : ℕ) (rows : List ActionRow) (n : ℕ)
    (claims : List ClaimedAction)
    → claim_rows tokens db now lease_for rows n ≡ ok (claims, db')
    → Leases claims (now + lease_for) db'.actions
unfolding claim_rows
claim_rows-Leases tokens db db' now lease_for [] n claims h =
    subst (λ (x : List ClaimedAction × Database). Leases x.0 (now + lease_for) x.1.actions)
      (ok-injective h) tt
claim_rows-Leases tokens db db' now lease_for (r ∷ rows) n claims h =
    let (saved, wrote, h1) = >>=-eq-ok (save_action db (leased r (tokens n) now lease_for)) _ h in
    let ((more, claimed), rest, e) =
      >>=-eq-ok (claim_rows tokens saved now lease_for rows (n + 1)) _ h1 in
    subst (λ (x : List ClaimedAction × Database). Leases x.0 (now + lease_for) x.1.actions)
      (ok-injective e)
      (
        claim_rows-Held tokens saved claimed now lease_for rows (n + 1) more r.merchant_id r.id rest
            (subst (λ l. All (KeyHeld r.merchant_id r.id (now + lease_for)) l)
              (saved_rows db saved (leased r (tokens n) now lease_for) wrote)
              (update-Held (now + lease_for) (leased r (tokens n) now lease_for) db.actions
                (leased_until r (tokens n) now lease_for))),
        claim_rows-Leases tokens saved claimed now lease_for rows (n + 1) more rest,
      )

pub claim_rows-All :
    (Q : ActionRow → Type 0) (P : ClaimedAction → Type 0)
    → ((r : ActionRow) (token : String) → Q r → P (claim_of r token))
    → (tokens : ℕ → String) (db db' : Database) (now lease_for : ℕ) (rows : List ActionRow) (n : ℕ)
      (claims : List ClaimedAction)
    → claim_rows tokens db now lease_for rows n ≡ ok (claims, db')
    → All Q rows
    → All P claims
unfolding claim_rows
claim_rows-All Q P give tokens db db' now lease_for [] n claims h all_rows =
    subst (λ (x : List ClaimedAction × Database). All P x.0) (ok-injective h) tt
claim_rows-All Q P give tokens db db' now lease_for (r ∷ rows) n claims h all_rows =
    let (saved, wrote, h1) = >>=-eq-ok (save_action db (leased r (tokens n) now lease_for)) _ h in
    let ((more, claimed), rest, e) =
      >>=-eq-ok (claim_rows tokens saved now lease_for rows (n + 1)) _ h1 in
    subst (λ (x : List ClaimedAction × Database). All P x.0) (ok-injective e)
      (
        give r (tokens n) all_rows.0,
        claim_rows-All Q P give tokens saved claimed now lease_for rows (n + 1) more rest
            all_rows.1,
      )
