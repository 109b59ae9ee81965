-- ===== src/Policy/Outcome/Reasons.antt =====
-- `_unique` keeps the texts and drops their repetitions.
use revenue_guard.Prelude.{
  String, ◌≡◌, refl, subst, inl, inr, true, false, List, [], ◌∷◌, ◌++◌, arith, Bool-cases, str_eq,
  str_mem, str_eq_iff, all_distinct,
}
use revenue_guard.Policy.Decide.{unique, unique_from}

str_eq_refl : (x : String) → str_eq x x ≡ true
str_eq_refl x = (str_eq_iff x x).1 refl

mem-fresh :
    (x y : String) (seen : List String)
    → str_mem y seen ≡ true
    → str_mem x seen ≡ false
    → str_eq y x ≡ false
mem-fresh x y seen h k = elim (Bool-cases (str_eq y x)) [
  | inl same ↦ cc (subst (λ z. str_mem z seen ≡ true) ((str_eq_iff y x).0 same) h, k)
  | inr other ↦ other
]

-- What was seen before does not come again.
unique_from-seen :
    (y : String) (seen xs : List String)
    → str_mem y seen ≡ true
    → str_mem y (unique_from seen xs) ≡ false
unfolding unique_from
unique_from-seen y seen [] h = refl
unique_from-seen y seen (x ∷ xs) h =
    ground (arith, unique_from-seen y (x ∷ seen) xs, mem-fresh x y seen)

unique_from-distinct : (seen xs : List String) → all_distinct (unique_from seen xs) ≡ true
unfolding unique_from
unique_from-distinct seen [] = refl
unique_from-distinct seen (x ∷ xs) =
    ground
      (arith, unique_from-distinct (x ∷ seen) xs, unique_from-seen x (x ∷ seen) xs, str_eq_refl x)

unique_from-mem :
    (y : String) (seen xs : List String)
    → str_mem y seen ≡ false
    → str_mem y (unique_from seen xs) ≡ str_mem y xs
unfolding unique_from
unique_from-mem y seen [] h = refl
unique_from-mem y seen (x ∷ xs) h = elim (Bool-cases (str_eq y x)) [
  | inl same ↦ ground (arith, same, subst (λ z. str_mem z seen ≡ false) ((str_eq_iff y x).0 same) h)
  | inr other ↦ ground (arith, other, unique_from-mem y (x ∷ seen) xs)
]

pub unique-distinct : (xs : List String) → all_distinct (unique xs) ≡ true
unfolding unique
unique-distinct xs = unique_from-distinct [] xs

pub unique-mem : (y : String) (xs : List String) → str_mem y (unique xs) ≡ str_mem y xs
unfolding unique
unique-mem y xs = unique_from-mem y [] xs refl

pub mem_last : (y : String) (xs : List String) → str_mem y (xs ++ y ∷ []) ≡ true
mem_last y [] = rw (str_eq_refl y)
mem_last y (x ∷ xs) = ground (arith, mem_last y xs)
