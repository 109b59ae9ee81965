-- ===== src/Outbox/Totals.antt =====
-- What `recovered_totals` reports, told from the outcomes one by one.
use revenue_guard.Prelude.{
  ℕ, ◌+◌, String, ◌≡◌, refl, ap, ◌∙◌, Bool, true, false, ◌&&◌, ◌||◌, Bool-cases, inl, inr, List, [],
  ◌∷◌, map, arith, min, str_eq, str_eq_iff, str_mem, all_distinct, if◌then◌else◌,
}
use revenue_guard.Actions.{ActionStatus, succeeded}
use revenue_guard.Table.{select, insert_by, order_by}
use revenue_guard.Outbox.Tables.{OutcomeRow, Database}
use revenue_guard.Outbox.Outcomes.{
  RecoveryTotals, counts_for, add_to_groups, group_outcomes, reports_before, recovered_totals,
}

-- The money and the outcomes that a report gives for a currency.
abbrev pub amount_for : String → List RecoveryTotals → ℕ
amount_for currency [] = 0
amount_for currency (t ∷ ts) =
    (if str_eq t.currency currency then t.recovered_amount_minor else 0) + amount_for currency ts

abbrev pub count_for : String → List RecoveryTotals → ℕ
count_for currency [] = 0
count_for currency (t ∷ ts) =
    (if str_eq t.currency currency then t.verified_action_count else 0) + count_for currency ts

-- The money that one outcome proves to be recovered: what an authoritative success says, and nothing
-- otherwise.
abbrev pub proves_success : ActionStatus → Bool → Bool
proves_success succeeded true = true
proves_success _ _ = false

abbrev pub proved_money : String → String → OutcomeRow → ℕ
proved_money merchant currency o =
    if proves_success o.outcome_status o.is_authoritative
      && (str_eq o.merchant_id merchant && str_eq o.currency currency)
    then o.recovered_amount_minor
    else 0

-- The sum of that money over a list of outcomes, and the number of those that prove any.
abbrev pub proved_amount : String → String → List OutcomeRow → ℕ
proved_amount merchant currency [] = 0
proved_amount merchant currency (o ∷ os) =
    proved_money merchant currency o + proved_amount merchant currency os

abbrev pub proved_count : String → String → List OutcomeRow → ℕ
proved_count merchant currency [] = 0
proved_count merchant currency (o ∷ os) =
    min (proved_money merchant currency o) 1 + proved_count merchant currency os

-- The conditions of the query are those of a proof.
counted_money :
    (merchant currency : String) (o : OutcomeRow)
    → counts_for merchant o ≡ true
    → (proved_money merchant currency o
        ≡ (if str_eq o.currency currency then o.recovered_amount_minor else 0))
      × (min (proved_money merchant currency o) 1 ≡ (if str_eq o.currency currency then 1 else 0))
unfolding counts_for
counted_money merchant currency o h = (ground arith, ground arith)

other_money :
    (merchant currency : String) (o : OutcomeRow)
    → counts_for merchant o ≡ false
    → proved_money merchant currency o ≡ 0
unfolding counts_for
other_money merchant currency o h = ground arith

abbrev currencies : List RecoveryTotals → List String
currencies = map λ t. t.currency

module _ (merchant currency : String) where
  amount-add :
      (o : OutcomeRow) (ts : List RecoveryTotals)
      → amount_for currency (add_to_groups merchant o ts)
        ≡ (if str_eq o.currency currency then o.recovered_amount_minor else 0)
          + amount_for currency ts
  unfolding add_to_groups
  amount-add o [] = refl
  amount-add o (t ∷ ts) = ground (
    arith,
    amount-add o ts,
    str_eq_iff t.currency o.currency,
    str_eq_iff t.currency currency,
    str_eq_iff o.currency currency,
  )

  count-add :
      (o : OutcomeRow) (ts : List RecoveryTotals)
      → count_for currency (add_to_groups merchant o ts)
        ≡ (if str_eq o.currency currency then 1 else 0) + count_for currency ts
  unfolding add_to_groups
  count-add o [] = refl
  count-add o (t ∷ ts) = ground (
    arith,
    count-add o ts,
    str_eq_iff t.currency o.currency,
    str_eq_iff t.currency currency,
    str_eq_iff o.currency currency,
  )

  grouped :
      (os : List OutcomeRow)
      → (amount_for currency (group_outcomes merchant (select (counts_for merchant) os))
          ≡ proved_amount merchant currency os)
        × (count_for currency (group_outcomes merchant (select (counts_for merchant) os))
            ≡ proved_count merchant currency os)
  unfolding group_outcomes select
  grouped [] = (refl, refl)
  grouped (o ∷ os) =
      let (amount, count) = grouped os in
      let rest : List RecoveryTotals = group_outcomes merchant (select (counts_for merchant) os) in
      elim (Bool-cases (counts_for merchant o)) [
        | inl counts ↦
            let (m, n) = counted_money merchant currency o counts in
            rw counts (
              omega (arith, amount-add o rest, amount, m),
              omega (arith, count-add o rest, count, n),
            )
        | inr other ↦
            let m = other_money merchant currency o other in
            rw other (omega (arith, amount, m), omega (arith, count, m))
      ]

  module _ (text_before : String → String → Bool) where
    insert-amount :
        (t : RecoveryTotals) (ts : List RecoveryTotals)
        → (amount_for currency (insert_by (reports_before text_before) t ts)
            ≡ amount_for currency (t ∷ ts))
          × (count_for currency (insert_by (reports_before text_before) t ts)
              ≡ count_for currency (t ∷ ts))
    unfolding insert_by
    insert-amount t [] = (refl, refl)
    insert-amount t (u ∷ us) = ground (arith, insert-amount t us)

    order-amount :
        (ts : List RecoveryTotals)
        → (amount_for currency (order_by (reports_before text_before) ts) ≡ amount_for currency ts)
          × (count_for currency (order_by (reports_before text_before) ts) ≡ count_for currency ts)
    unfolding order_by
    order-amount [] = (refl, refl)
    order-amount (t ∷ ts) =
        let (a, c) = insert-amount t (order_by (reports_before text_before) ts) in
        let (b, d) = order-amount ts in (omega (arith, a, b), omega (arith, c, d))

-- A currency has one group.
mem-add :
    (x merchant : String) (o : OutcomeRow) (ts : List RecoveryTotals)
    → str_mem x (currencies (add_to_groups merchant o ts))
      ≡ (str_eq x o.currency || str_mem x (currencies ts))
unfolding add_to_groups
mem-add x merchant o [] = refl
mem-add x merchant o (t ∷ ts) = ground (
  arith,
  mem-add x merchant o ts,
  str_eq_iff t.currency o.currency,
  str_eq_iff x t.currency,
  str_eq_iff x o.currency,
)

distinct-add :
    (merchant : String) (o : OutcomeRow) (ts : List RecoveryTotals)
    → all_distinct (currencies ts) ≡ true
    → all_distinct (currencies (add_to_groups merchant o ts)) ≡ true
unfolding add_to_groups
distinct-add merchant o [] h = refl
distinct-add merchant o (t ∷ ts) h = ground (
  arith,
  distinct-add merchant o ts,
  mem-add t.currency merchant o ts,
  str_eq_iff t.currency o.currency,
)

distinct-group :
    (merchant : String) (os : List OutcomeRow)
    → all_distinct (currencies (group_outcomes merchant os)) ≡ true
unfolding group_outcomes
distinct-group merchant [] = refl
distinct-group merchant (o ∷ os) =
    distinct-add merchant o (group_outcomes merchant os) (distinct-group merchant os)

module _ (text_before : String → String → Bool) where
  mem-insert :
      (x : String) (t : RecoveryTotals) (ts : List RecoveryTotals)
      → str_mem x (currencies (insert_by (reports_before text_before) t ts))
        ≡ (str_eq x t.currency || str_mem x (currencies ts))
  unfolding insert_by
  mem-insert x t [] = refl
  mem-insert x t (u ∷ us) = ground (arith, mem-insert x t us)

  distinct-insert :
      (t : RecoveryTotals) (ts : List RecoveryTotals)
      → str_mem t.currency (currencies ts) ≡ false
      → all_distinct (currencies ts) ≡ true
      → all_distinct (currencies (insert_by (reports_before text_before) t ts)) ≡ true
  unfolding insert_by
  distinct-insert t [] h d = refl
  distinct-insert t (u ∷ us) h d = ground (
    arith,
    distinct-insert t us,
    mem-insert u.currency t us,
    str_eq_iff t.currency u.currency,
    str_eq_iff u.currency t.currency,
  )

  mem-order :
      (x : String) (ts : List RecoveryTotals)
      → str_mem x (currencies (order_by (reports_before text_before) ts))
        ≡ str_mem x (currencies ts)
  unfolding order_by
  mem-order x [] = refl
  mem-order x (t ∷ ts) =
      mem-insert x t (order_by (reports_before text_before) ts)
      ∙ ap (λ b. str_eq x t.currency || b) (mem-order x ts)

  distinct-order :
      (ts : List RecoveryTotals)
      → all_distinct (currencies ts) ≡ true
      → all_distinct (currencies (order_by (reports_before text_before) ts)) ≡ true
  unfolding order_by
  distinct-order [] h = refl
  distinct-order (t ∷ ts) h =
      distinct-insert t (order_by (reports_before text_before) ts)
        (mem-order t.currency ts ∙ ground (arith, h)) (distinct-order ts (ground (arith, h)))

  -- The report on a merchant has each currency once, with the sum and the number of the outcomes that
  -- are stored for the merchant in that currency as authoritative successes with money; a currency that
  -- is not reported has none.
  pub recovered_totals_sum :
      (db : Database) (merchant currency : String)
      → let report = recovered_totals text_before db merchant in
        (all_distinct (map (λ (t : RecoveryTotals). t.currency) report) ≡ true)
        × (amount_for currency report ≡ proved_amount merchant currency db.outcomes)
        × (count_for currency report ≡ proved_count merchant currency db.outcomes)
  unfolding recovered_totals
  recovered_totals_sum db merchant currency =
      let groups : List RecoveryTotals =
        group_outcomes merchant (select (counts_for merchant) db.outcomes) in
      let (a, c) = order-amount merchant currency text_before groups in
      let (b, d) = grouped merchant currency db.outcomes in
      (
        distinct-order groups (distinct-group merchant (select (counts_for merchant) db.outcomes)),
        a ∙ b,
        c ∙ d,
      )
