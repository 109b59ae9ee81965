-- ===== src/Canonical/Decimal.antt =====
-- Reading back decimal digits: a number can be told from its digits and what follows them, if that
-- is no digit.
use mathlib.Core.WellFounded.{Acc}
use mathlib.Core.List.{append_assoc}
use mathlib.Core.Logic.{dif_pos, dif_neg}
use native.Mathlib.Decide.{dec_lt}
use native.Mathlib.Bridge.{le_prop}
use revenue_guard.Prelude.{
  ℕ, ◌+◌, ◌-◌, ◌*◌, ◌/◌, ◌%◌, ◌<◌, ◌≡◌, refl, ap, sym, ◌∙◌, Bool, true, false, ◌&&◌, List, [], ◌∷◌,
  ◌++◌, arith, leb, if◌then◌else◌,
}
use revenue_guard.Prelude.Order.{lt_wf}
use revenue_guard.Canonical.{decimal_acc, decimal}

abbrev pub is_digit : ℕ → Bool
is_digit c = leb 48 c && leb c 57

read : ℕ → List ℕ → ℕ × List ℕ
read acc [] = (acc, [])
read acc (c ∷ r) =
    let more = read (acc * 10 + (c - 48)) r in if is_digit c then more else (acc, c ∷ r)

read-digit : (acc d : ℕ) (r : List ℕ) → d < 10 → read acc ((48 + d) ∷ r) ≡ read (acc * 10 + d) r
unfolding read
read-digit acc d r h = ground (arith, ap (λ (k : ℕ). read (acc * 10 + k) r) (sub-digit d))
  where
    sub-digit : (k : ℕ) → 48 + k - 48 ≡ k
    sub-digit k = omega arith

read-decimal_acc : (n : ℕ) (w : Acc ◌<◌ n) (r : List ℕ) → read 0 (decimal_acc n w ++ r) ≡ read n r
unfolding decimal_acc
read-decimal_acc n (Acc.intro _ smaller) r = elim (dec_lt n 10) [
  | yes h ↦ rw (dif_pos _ le_prop h) (read-digit 0 n r h ∙ ap (λ (k : ℕ). read k r) (omega arith))
  | no h ↦
      rw (dif_neg _ h, append_assoc)
        (read-decimal_acc (n / 10) (smaller (n / 10) (omega arith)) ((48 + n % 10) ∷ r)
          ∙ read-digit (n / 10) (n % 10) r (omega arith)
          ∙ ap (λ (k : ℕ). read k r) (omega arith))
]

-- What may follow a number.
abbrev pub Stops : List ℕ → Type 0
Stops [] = Unit
Stops (c ∷ r) = is_digit c ≡ false

read-Stops : (n : ℕ) (r : List ℕ) → Stops r → read n r ≡ (n, r)
unfolding read
read-Stops n [] h = refl
read-Stops n (c ∷ r) h = rw h

read-decimal : (n : ℕ) (r : List ℕ) → Stops r → read 0 (decimal n ++ r) ≡ (n, r)
unfolding decimal
read-decimal n r h = read-decimal_acc n (lt_wf.apply n) r ∙ read-Stops n r h

pub decimal-cancel :
    (n m : ℕ) (r q : List ℕ)
    → Stops r
    → Stops q
    → decimal n ++ r ≡ decimal m ++ q
    → (n ≡ m) × (r ≡ q)
decimal-cancel n m r q h k e =
    let p : (n, r) ≡ (m, q) = sym (read-decimal n r h) ∙ ap (read 0) e ∙ read-decimal m q k in
    (ap (λ x. x.0) p, ap (λ x. x.1) p)

-- Digits do not begin as any other value does.
abbrev pub head_is_digit : List ℕ → Bool
head_is_digit [] = false
head_is_digit (c ∷ r) = is_digit c

head-decimal_acc :
    (n : ℕ) (w : Acc ◌<◌ n) (r : List ℕ) → head_is_digit (decimal_acc n w ++ r) ≡ true
unfolding decimal_acc
head-decimal_acc n (Acc.intro _ smaller) r = elim (dec_lt n 10) [
  | yes h ↦ rw (dif_pos _ le_prop h) (ground arith)
  | no h ↦
      rw (dif_neg _ h, append_assoc)
        (head-decimal_acc (n / 10) (smaller (n / 10) (omega arith)) ((48 + n % 10) ∷ r))
]

pub head-decimal : (n : ℕ) (r : List ℕ) → head_is_digit (decimal n ++ r) ≡ true
unfolding decimal
head-decimal n r = head-decimal_acc n (lt_wf.apply n) r
