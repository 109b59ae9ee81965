-- ===== src/Outbox/Keys.antt =====
-- The primary key of the actions in the outbox: a key has at most one row.
use revenue_guard.Prelude.{
  String, ◌≡◌, refl, sym, ap, ◌∙◌, subst, Bool, true, false, Bool-cases, ◌&&◌, inl, inr, none, some,
  List, [], ◌∷◌, arith, All, str_eq, str_eq_iff, if◌then◌else◌,
}
use revenue_guard.Table.{
  first_row, update, first_row-update, first_row-update_other, missing_after_update,
}
use revenue_guard.Fault.{ok, integrity_error, raise_if-eq-ok, ok-injective}
use revenue_guard.Outbox.Tables.{ActionRow, Database, has_key, is_refused, save_action}

pub both_true : (a b : Bool) → (a && b) ≡ true → (a ≡ true) × (b ≡ true)
both_true true true h = (refl, refl)
both_true true false h = cc
both_true false b h = cc

pub has_key_eq :
    (merchant action : String) (r : ActionRow)
    → has_key merchant action r ≡ true
    → (r.merchant_id ≡ merchant) × (r.id ≡ action)
has_key_eq merchant action r h =
    let (m, a) = both_true (str_eq r.merchant_id merchant) (str_eq r.id action) h in
    ((str_eq_iff r.merchant_id merchant).0 m, (str_eq_iff r.id action).0 a)

pub has_key_self : (r : ActionRow) → has_key r.merchant_id r.id r ≡ true
has_key_self r = rw ((str_eq_iff r.merchant_id r.merchant_id).1 refl, (str_eq_iff r.id r.id).1 refl)

-- Two keys of one row are one key.
pub keys_apart :
    (merchant action : String) (r s : ActionRow)
    → has_key merchant action r ≡ false
    → has_key r.merchant_id r.id s ≡ true
    → has_key merchant action s ≡ false
keys_apart merchant action r s h k =
    let (m, a) = has_key_eq r.merchant_id r.id s k in
    sym (
      ap (λ x. str_eq x merchant && str_eq r.id action) (sym m)
      ∙ ap (λ x. str_eq s.merchant_id merchant && str_eq x action) (sym a))
    ∙ h

-- No two rows have one key.
abbrev pub Unique : List ActionRow → Type 0
Unique [] = Unit
Unique (r ∷ rows) = (first_row (has_key r.merchant_id r.id) rows ≡ none) × Unique rows

-- A row is found by its key.
abbrev pub FoundIn : List ActionRow → ActionRow → Type 0
FoundIn rows r = first_row (has_key r.merchant_id r.id) rows ≡ some r

has_key_symm :
    (r s : ActionRow) → has_key r.merchant_id r.id s ≡ true → has_key s.merchant_id s.id r ≡ true
has_key_symm r s h =
    let (m, a) = has_key_eq r.merchant_id r.id s h in
    rw ((str_eq_iff r.merchant_id s.merchant_id).1 (sym m), (str_eq_iff r.id s.id).1 (sym a))

-- A row below a row with another key is found past it.
past :
    (x : ActionRow) (rows l : List ActionRow)
    → first_row (has_key x.merchant_id x.id) rows ≡ none
    → All (FoundIn rows) l
    → All (FoundIn (x ∷ rows)) l
unfolding first_row
past x rows [] h k = tt
past x rows (r ∷ l) h k = elim (Bool-cases (has_key r.merchant_id r.id x)) [
  | inl same ↦
      let (m, a) = has_key_eq r.merchant_id r.id x same in
      absurd (
        clash (
          ap (λ y. first_row (has_key y x.id) rows) m
          ∙ ap (λ y. first_row (has_key r.merchant_id y) rows) a))
  | inr differ ↦ (rw differ k.0, past x rows l h k.1)
]
  where
    clash :
        first_row (has_key x.merchant_id x.id) rows ≡ first_row (has_key r.merchant_id r.id) rows
        → ⊥
    clash e = ground (arith, e, h, k.0)

pub Unique-found : (rows : List ActionRow) → Unique rows → All (FoundIn rows) rows
unfolding first_row
Unique-found [] u = tt
Unique-found (r ∷ rows) u = (rw (has_key_self r), past r rows rows u.0 (Unique-found rows u.1))

other_way :
    (r s : ActionRow) → has_key r.merchant_id r.id s ≡ false → has_key s.merchant_id s.id r ≡ false
other_way r s h = elim (Bool-cases (has_key s.merchant_id s.id r)) [
  | inl same ↦ absurd (ground (arith, h, has_key_symm s r same))
  | inr differ ↦ differ
]

-- A write keeps the keys of the rows that it writes.
pub Unique-update :
    (row : ActionRow) (rows : List ActionRow)
    → Unique rows
    → Unique (update (has_key row.merchant_id row.id) (λ _. row) rows)
unfolding update
Unique-update row [] u = tt
Unique-update row (x ∷ rows) u = elim (Bool-cases (has_key row.merchant_id row.id x)) [
  | inl same ↦
      rw same (absent (has_key_eq row.merchant_id row.id x same), Unique-update row rows u.1)
  | inr differ ↦ rw differ (
    first_row-update_other (has_key row.merchant_id row.id) (has_key x.merchant_id x.id) (λ _. row)
          (λ s k. keys_apart x.merchant_id x.id row s (other_way row x differ) k)
          (λ s k. other_way row x differ) rows
        ∙ u.0,
    Unique-update row rows u.1,
  )
]
  where
    absent :
        (x.merchant_id ≡ row.merchant_id) × (x.id ≡ row.id)
        → first_row
            (has_key row.merchant_id row.id)
            (update (has_key row.merchant_id row.id) (λ _. row) rows)
          ≡ none
    absent k =
        missing_after_update (has_key row.merchant_id row.id) (λ _. row) (λ s _. has_key_self row)
          rows
          (subst (λ m. first_row (has_key m row.id) rows ≡ none) k.0
            (subst (λ a. first_row (has_key x.merchant_id a) rows ≡ none) k.1 u.0))

-- What is read by a key after a write.
pub first_row-write :
    (rows : List ActionRow) (row r : ActionRow) (merchant action : String)
    → first_row (has_key row.merchant_id row.id) rows ≡ some r
    → first_row (has_key merchant action) (update (has_key row.merchant_id row.id) (λ _. row) rows)
      ≡ (if has_key merchant action row then some row else first_row (has_key merchant action) rows)
first_row-write rows row r merchant action there = elim (Bool-cases (has_key merchant action row)) [
  | inl same ↦ rw same (own (has_key_eq merchant action row same))
  | inr differ ↦ rw differ (
      first_row-update_other (has_key row.merchant_id row.id) (has_key merchant action) (λ _. row)
        (λ s k. keys_apart merchant action row s differ k) (λ s k. differ) rows)
]
  where
    written : List ActionRow
    written = update (has_key row.merchant_id row.id) (λ _. row) rows

    own :
        (row.merchant_id ≡ merchant) × (row.id ≡ action)
        → first_row (has_key merchant action) written ≡ some row
    own k =
        subst (λ m. first_row (has_key m action) written ≡ some row) k.0
          (subst (λ a. first_row (has_key row.merchant_id a) written ≡ some row) k.1
            (first_row-update (has_key row.merchant_id row.id) (λ _. row) (λ s k. has_key_self row)
              rows r there))

-- What a row that was written leaves.
pub save_action_lem :
    (db db' : Database) (r : ActionRow)
    → save_action db r ≡ ok db'
    → record db { actions = update (has_key r.merchant_id r.id) (λ _. r) db.actions } ≡ db'
unfolding save_action
save_action_lem db db' r h = ok-injective ((raise_if-eq-ok (is_refused db r) integrity_error _ h).1)
