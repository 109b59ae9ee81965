-- ===== src/Table.antt =====
-- A table of the database as the list of its rows, newest first, and the statements of SQLAlchemy
-- that the repositories under packages/integrations/src/revenueguard_integrations/persistence use:
-- `select ... where`, `one_or_none`, `one`, and the update of the rows that a test selects. One
-- transaction holds the rows that it works on, so each operation is one step.
use revenue_guard.Prelude.{
  ◌≡◌, refl, ap, subst, Bool, true, false, Bool-cases, inl, inr, Option, none, some, List, [], ◌∷◌,
  arith, if◌then◌else◌, All, ◌&&◌,
}
use revenue_guard.Fault.{Result, ok, err, no_row, multiple_rows}

module _ {Row : Type 0} where
  -- `select(Row).where(test)`, all of it.
  unfoldable pub select : (Row → Bool) → List Row → List Row
  select test [] = []
  select test (r ∷ rows) = let rest = select test rows in if test r then r ∷ rest else rest

  -- The row with a key, for a test on a primary key.
  unfoldable pub first_row : (Row → Bool) → List Row → Option Row
  first_row test [] = none
  first_row test (r ∷ rows) = let rest = first_row test rows in if test r then some r else rest

  -- `.one_or_none()`.
  abbrev pub one_or_none : List Row → Result (Option Row)
  one_or_none [] = ok none
  one_or_none (r ∷ []) = ok (some r)
  one_or_none (r ∷ s ∷ rows) = err multiple_rows

  -- `.one()`.
  abbrev pub one : List Row → Result Row
  one [] = err no_row
  one (r ∷ []) = ok r
  one (r ∷ s ∷ rows) = err multiple_rows

  -- `.order_by(...)`, for the comparison of its columns.
  unfoldable pub insert_by : (Row → Row → Bool) → Row → List Row → List Row
  insert_by before r [] = r ∷ []
  insert_by before r (s ∷ rows) =
      let rest = insert_by before r rows in if before r s then r ∷ s ∷ rows else s ∷ rest

  unfoldable pub order_by : (Row → Row → Bool) → List Row → List Row
  unfolding insert_by
  order_by before [] = []
  order_by before (r ∷ rows) = insert_by before r (order_by before rows)

  -- Writes to the rows that a test selects.
  unfoldable pub update : (Row → Bool) → (Row → Row) → List Row → List Row
  update test change [] = []
  update test change (r ∷ rows) = (if test r then change r else r) ∷ update test change rows

  pub first_row_holds :
      (test : Row → Bool) (rows : List Row) (r : Row) → first_row test rows ≡ some r → test r ≡ true
  unfolding first_row
  first_row_holds test [] r h = cc
  first_row_holds test (x ∷ rows) r h = elim (Bool-cases (test x)) [
    | inl same ↦ ground (arith, same, ap test (found same))
    | inr other ↦ first_row_holds test rows r (rest other)
  ]
    where
      found : test x ≡ true → x ≡ r
      found same = ground (arith, same, h)

      rest : test x ≡ false → first_row test rows ≡ some r
      rest other = ground (arith, other, h)

  -- Rows that pass a test are written by a change that keeps the test.
  module _ (test : Row → Bool) (change : Row → Row)
      (keeps : (r : Row) → test r ≡ true → test (change r) ≡ true) where
    pub first_row-update :
        (rows : List Row) (r : Row)
        → first_row test rows ≡ some r
        → first_row test (update test change rows) ≡ some (change r)
    unfolding first_row update
    first_row-update [] r h = cc
    first_row-update (x ∷ rows) r h = elim (Bool-cases (test x)) [
      | inl same ↦ ground (arith, same, keeps x same, h)
      | inr other ↦ ground (arith, other, first_row-update rows r)
    ]

    pub missing_after_update :
        (rows : List Row)
        → first_row test rows ≡ none
        → first_row test (update test change rows) ≡ none
    unfolding first_row update
    missing_after_update [] h = refl
    missing_after_update (x ∷ rows) h = elim (Bool-cases (test x)) [
      | inl same ↦ absurd (ground (arith, same, h))
      | inr other ↦ ground (arith, other, missing_after_update rows)
    ]

  -- The rows of another test are left alone.
  module _ (test other : Row → Bool) (change : Row → Row)
      (apart : (r : Row) → test r ≡ true → other r ≡ false)
      (stay : (r : Row) → test r ≡ true → other (change r) ≡ false) where
    pub first_row-update_other :
        (rows : List Row) → first_row other (update test change rows) ≡ first_row other rows
    unfolding first_row update
    first_row-update_other [] = refl
    first_row-update_other (x ∷ rows) = elim (Bool-cases (test x)) [
      | inl same ↦ ground (arith, same, apart x same, stay x same, first_row-update_other rows)
      | inr differ ↦ ground (arith, differ, first_row-update_other rows)
    ]

    pub select-update_other :
        (rows : List Row) → select other (update test change rows) ≡ select other rows
    unfolding select update
    select-update_other [] = refl
    select-update_other (x ∷ rows) = elim (Bool-cases (test x)) [
      | inl same ↦ ground (arith, same, apart x same, stay x same, select-update_other rows)
      | inr differ ↦ ground (arith, differ, select-update_other rows)
    ]

  -- A change of some rows of a selection, which keeps them in it.
  module _ (test group : Row → Bool) (change : Row → Row)
      (inside : (r : Row) → test r ≡ true → group r ≡ true)
      (stay : (r : Row) → test r ≡ true → group (change r) ≡ true) where
    pub select-update :
        (rows : List Row)
        → select group (update test change rows) ≡ update test change (select group rows)
    unfolding select update
    select-update [] = refl
    select-update (x ∷ rows) = elim (Bool-cases (test x)) [
      | inl same ↦ ground (arith, same, inside x same, stay x same, select-update rows)
      | inr differ ↦ elim (Bool-cases (group x)) [
        | inl member ↦ ground (arith, differ, member, select-update rows)
        | inr not_member ↦ ground (arith, differ, not_member, select-update rows)
      ]
    ]

  -- A test within a group selects the same rows from the group.
  pub select-within :
      (test group : Row → Bool)
      → ((r : Row) → test r ≡ true → group r ≡ true)
      → (rows : List Row) → select test (select group rows) ≡ select test rows
  unfolding select
  select-within test group inside [] = refl
  select-within test group inside (x ∷ rows) = elim (Bool-cases (test x)) [
    | inl same ↦ ground (arith, same, inside x same, select-within test group inside rows)
    | inr differ ↦ elim (Bool-cases (group x)) [
      | inl member ↦ ground (arith, differ, member, select-within test group inside rows)
      | inr not_member ↦ ground (arith, differ, not_member, select-within test group inside rows)
    ]
  ]

  -- What holds of all rows holds of those that are selected, which pass the test.
  pub select-All {κ} :
      (P : Row → Type κ) (test : Row → Bool) (rows : List Row)
      → All P rows
      → All (λ r. (test r ≡ true) × P r) (select test rows)
  unfolding select
  select-All P test [] h = tt
  select-All P test (x ∷ rows) h = elim (Bool-cases (test x)) [
    | inl same ↦ rw same ((same, h.0), select-All P test rows h.1)
    | inr differ ↦ rw differ (select-All P test rows h.1)
  ]

  -- What holds of all rows holds of them in any order.
  insert_by-All {κ} :
      (P : Row → Type κ) (before : Row → Row → Bool) (r : Row) (rows : List Row)
      → P r
      → All P rows
      → All P (insert_by before r rows)
  unfolding insert_by
  insert_by-All P before r [] p h = (p, tt)
  insert_by-All P before r (s ∷ rows) p h = elim (Bool-cases (before r s)) [
    | inl first ↦ rw first (p, h)
    | inr later ↦ rw later (h.0, insert_by-All P before r rows p h.1)
  ]

  pub order_by-All {κ} :
      (P : Row → Type κ) (before : Row → Row → Bool) (rows : List Row)
      → All P rows
      → All P (order_by before rows)
  unfolding order_by
  order_by-All P before [] h = tt
  order_by-All P before (r ∷ rows) h =
      insert_by-All P before r (order_by before rows) h.0 (order_by-All P before rows h.1)

  pub select-and :
      (p q : Row → Bool) (rows : List Row)
      → select (λ r. p r && q r) rows ≡ select q (select p rows)
  unfolding select
  select-and p q [] = refl
  select-and p q (x ∷ rows) = elim (Bool-cases (p x)) [
    | inl same ↦ ground (arith, same, select-and p q rows)
    | inr differ ↦ ground (arith, differ, select-and p q rows)
  ]

  one_or_none_one : (rows : List Row) (r : Row) → one_or_none rows ≡ ok (some r) → rows ≡ r ∷ []
  one_or_none_one [] r h = cc
  one_or_none_one (x ∷ []) r h = cc
  one_or_none_one (x ∷ y ∷ rows) r h = cc

  -- The one row that a query gives passes its test.
  pub one_or_none_holds :
      (test : Row → Bool) (rows : List Row) (r : Row)
      → one_or_none (select test rows) ≡ ok (some r)
      → test r ≡ true
  one_or_none_holds test rows r h =
      (subst (All λ x. (test x ≡ true) × Unit {0}) (one_or_none_one (select test rows) r h)
        (select-All (λ x. Unit {0}) test rows (trivial rows))).0.0
    where
      trivial : (l : List Row) → All (λ x. Unit {0}) l
      trivial [] = tt
      trivial (x ∷ l) = (tt, trivial l)
