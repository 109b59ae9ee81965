-- ===== src/Canonical.antt =====
-- `json.dumps(document, sort_keys=True, separators=(",", ":"))` of Python's standard library, as
-- actions.py, reviews.py, policy.py and audit_ledger.py use it, before the text is hashed. A text is
-- a list of code points. The keys of an object are listed in the order that `sort_keys` gives them;
-- numbers are whole, since no hashed
-- document holds another kind.
mod Escape
mod Decimal
pub mod Injective
pub mod Access
use revenue_guard.Prelude.{
  ℕ, ◌+◌, ◌-◌, ◌/◌, ◌%◌, ◌<◌, String, Bool, true, false, not, Option, none, some, ◌&&◌, ◌||◌, List,
  [], ◌∷◌, ◌++◌, ◌≡◌, refl, arith, codes, leb, ltb, ◌==◌, if◌then◌else◌,
}
use mathlib.Core.WellFounded.{Acc, WellFounded}
use mathlib.Core.Logic.{dite}
use native.Mathlib.Decide.{dec_lt}
use revenue_guard.Prelude.Order.{lt_wf}

unfoldable pub hex_digit : ℕ → ℕ
hex_digit d = if ltb d 10 then 48 + d else 87 + d

-- The four digits of `\uXXXX`.
unfoldable pub hex4 : ℕ → List ℕ
unfolding hex_digit
hex4 n =
    hex_digit (n / 4096 % 16)
    ∷ hex_digit (n / 256 % 16)
    ∷ hex_digit (n / 16 % 16)
    ∷ hex_digit (n % 16)
    ∷ []

abbrev pub unicode_escape : ℕ → List ℕ
unicode_escape n = b'\\' ∷ b'u' ∷ hex4 n

-- The characters that have an escape of one letter.
unfoldable pub short_escape : ℕ → Option ℕ
short_escape c =
    if c == 34
    then some 34
    else if c == 92
    then some 92
    else if c == 10
    then some b'n'
    else if c == 13
    then some b'r'
    else if c == 9
    then some b't'
    else if c == 12
    then some b'f'
    else if c == 8
    then some b'b'
    else none

-- The others stand as they are, or are written by their code, beyond 16 bits by a surrogate pair.
unfoldable pub long_escape : Bool → ℕ → List ℕ
long_escape ascii c =
    if leb 32 c && (leb c 126 || not ascii)
    then c ∷ []
    else if ltb c 65536
    then unicode_escape c
    else unicode_escape (55296 + (c - 65536) / 1024) ++ unicode_escape (56320 + (c - 65536) % 1024)

-- What one character becomes. `ascii` is `ensure_ascii`.
unfoldable pub escape : Bool → ℕ → List ℕ
escape ascii c = elim (short_escape c) [ some x ↦ b'\\' ∷ x ∷ [] | none ↦ long_escape ascii c ]

unfoldable pub escapes : Bool → List ℕ → List ℕ
unfolding escape short_escape long_escape hex4
escapes ascii [] = []
escapes ascii (c ∷ cs) = escape ascii c ++ escapes ascii cs

-- A quoted text.
unfoldable pub quote : Bool → String → List ℕ
unfolding escapes
quote ascii s = 34 ∷ (escapes ascii (codes s) ++ 34 ∷ [])

-- Decimal digits: `str(n)`.
unfoldable pub decimal_acc : (n : ℕ) → Acc ◌<◌ n → List ℕ
decimal_acc n (Acc.intro _ smaller) =
    dite (dec_lt n 10) (λ _. (48 + n) ∷ [])
      (λ h. decimal_acc (n / 10) (smaller (n / 10) (omega arith)) ++ (48 + n % 10) ∷ [])

unfoldable pub decimal : ℕ → List ℕ
unfolding decimal_acc lt_wf dec_lt
decimal n = decimal_acc n (lt_wf.apply n)

mutual
  pub data Json : Type 0 where
    null : Json
    flag : Bool → Json
    num : ℕ → Json
    -- -(n + 1)
    minus : ℕ → Json
    text : String → Json
    arr : Items → Json
    obj : Fields → Json

  pub data Items : Type 0 where
    last : Items
    item : Json → Items → Items

  pub data Fields : Type 0 where
    end : Fields
    field : String → Json → Fields → Fields

-- An item after the first has a comma before it; so has a field.
unfoldable mutual
  unfolding quote decimal

  pub dumps : Bool → Json → List ℕ
  dumps ascii null = codes "null"
  dumps ascii (flag true) = codes "true"
  dumps ascii (flag false) = codes "false"
  dumps ascii (num n) = decimal n
  dumps ascii (minus n) = b'-' ∷ decimal (n + 1)
  dumps ascii (text s) = quote ascii s
  dumps ascii (arr last) = b'[' ∷ b']' ∷ []
  dumps ascii (arr (item v vs)) = b'[' ∷ (dumps ascii v ++ dump_items ascii vs)
  dumps ascii (obj end) = b'{' ∷ b'}' ∷ []
  dumps ascii (obj (field k v fs)) =
      b'{' ∷ (quote ascii k ++ (b':' ∷ (dumps ascii v ++ dump_fields ascii fs)))

  pub dump_items : Bool → Items → List ℕ
  dump_items ascii last = b']' ∷ []
  dump_items ascii (item v vs) = b',' ∷ (dumps ascii v ++ dump_items ascii vs)

  pub dump_fields : Bool → Fields → List ℕ
  dump_fields ascii end = b'}' ∷ []
  dump_fields ascii (field k v fs) =
      b',' ∷ (quote ascii k ++ (b':' ∷ (dumps ascii v ++ dump_fields ascii fs)))

sample_dump :
    dumps true
      (obj (field "a\"é" (num 1205) (field "b" (arr (item null (item (text "x") last))) end)))
    ≡ codes "{\"a\\\"\\u00e9\":1205,\"b\":[null,\"x\"]}"
unfolding dumps
sample_dump = refl
