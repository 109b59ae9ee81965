-- ===== src/Prelude/Text.antt =====
-- Python's tests on `str`: equality, emptiness, length in code points, and the two patterns that
-- the domain matches.
use Prim.Native.Nat.{ℕ}
use Prim.Native.Char.{code}
use Prim.Native.String.{String}
use mathlib.Core.Path.{◌≡◌}
use mathlib.Core.Bool.{Bool, true, false, not, ◌&&◌, ◌||◌}
use mathlib.Core.List.{List, [], ◌∷◌}
use mathlib.Core.Option.{Option, none, some}
use text.Mathlib.Text.{◌==◌ as text_eq}
use text.Mathlib.TextEquality.{eq_iff}
use revenue_guard.Prelude.Tests.{leb, ◌==◌}
use revenue_guard.Prelude.Lists.{length, all}

abbrev pub str_eq : String → String → Bool
str_eq = text_eq

-- The code points of a text: `String` has its own `[]` and `∷`.
abbrev pub codes : String → List ℕ
codes String.[] = []
codes (String.◌∷◌ c s) = code c ∷ codes s

-- `len(value)`.
abbrev pub str_len : String → ℕ
str_len s = length (codes s)

-- `not value` is `is_blank value`.
abbrev pub is_blank : String → Bool
is_blank String.[] = true
is_blank (String.◌∷◌ c s) = false

-- `value or ""` is falsy: absent or empty.
abbrev pub is_missing : Option String → Bool
is_missing none = true
is_missing (some s) = is_blank s

abbrev pub is_upper_letter : ℕ → Bool
is_upper_letter c = leb b'A' c && leb c b'Z'

-- `re.fullmatch("^[A-Z]{3}$", s)`.
abbrev pub is_currency_code : String → Bool
is_currency_code s = (length (codes s) == 3) && all is_upper_letter (codes s)

abbrev reason_char : ℕ → Bool
reason_char c = is_upper_letter c || (leb b'0' c && leb c b'9') || (c == b'_')

abbrev reason_codes : List ℕ → Bool
reason_codes [] = false
reason_codes (c ∷ cs) = is_upper_letter c && all reason_char cs

-- `re.fullmatch("^[A-Z][A-Z0-9_]*$", s)`.
abbrev pub is_reason_code : String → Bool
is_reason_code s = reason_codes (codes s)

-- `x in xs` for texts.
abbrev pub str_mem : String → List String → Bool
str_mem x [] = false
str_mem x (y ∷ ys) = str_eq x y || str_mem x ys

-- `len(set(xs)) == len(xs)`: no item occurs twice.
abbrev pub all_distinct : List String → Bool
all_distinct [] = true
all_distinct (x ∷ xs) = not (str_mem x xs) && all_distinct xs

pub str_eq_iff : (s t : String) → ((str_eq s t ≡ true) → (s ≡ t)) × (s ≡ t → str_eq s t ≡ true)
str_eq_iff s t = eq_iff s t
