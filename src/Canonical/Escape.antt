-- ===== src/Canonical/Escape.antt =====
-- Reading back what `escape` writes: a text can be told from its quoted form and what follows it.
use Prim.Native.Char.{Char, code, char}
use Prim.Native.String.{String}
use text.Mathlib.TextEquality.{Char-path}
use revenue_guard.Prelude.{
  ℕ, ◌+◌, ◌-◌, ◌*◌, ◌/◌, ◌%◌, ◌<◌, ◌≡◌, refl, ◌≢◌, Option-cases, Bool-cases, ltb→lt, ap, ap₂, sym,
  ◌∙◌, ◌⊎◌, inl, inr, Bool, false, not, ◌&&◌, ◌||◌, Option, none, some, List, [], ◌∷◌, ◌++◌, arith,
  codes, leb, ltb, ◌==◌, if◌then◌else◌,
}
use mathlib.Core.List.{append_assoc}
use revenue_guard.Canonical.{
  hex_digit, hex4, unicode_escape, short_escape, long_escape, escape, escapes, quote,
}

abbrev unhex : ℕ → ℕ
unhex d = if ltb d 58 then d - 48 else d - 87

unhex-hex_digit : (d : ℕ) → d < 16 → unhex (hex_digit d) ≡ d
unfolding hex_digit
unhex-hex_digit d h = ground arith

abbrev unhex4 : ℕ → ℕ → ℕ → ℕ → ℕ
unhex4 a b c d = unhex a * 4096 + unhex b * 256 + unhex c * 16 + unhex d

unhex4-hex4 :
    (n : ℕ)
    → n < 65536
    → unhex4
        (hex_digit (n / 4096 % 16))
        (hex_digit (n / 256 % 16))
        (hex_digit (n / 16 % 16))
        (hex_digit (n % 16))
      ≡ n
unhex4-hex4 n h =
    rw
      (
        unhex-hex_digit (n / 4096 % 16) (omega arith),
        unhex-hex_digit (n / 256 % 16) (omega arith),
        unhex-hex_digit (n / 16 % 16) (omega arith),
        unhex-hex_digit (n % 16) (omega arith),
      )
      (omega arith)

-- The low half of a surrogate pair.
low_half : ℕ → List ℕ → Option (ℕ × List ℕ)
low_half high (_ ∷ _ ∷ a ∷ b ∷ c ∷ d ∷ r) =
    some (65536 + (high - 55296) * 1024 + (unhex4 a b c d - 56320), r)
low_half high _ = none

after_unicode : List ℕ → Option (ℕ × List ℕ)
unfolding low_half
after_unicode (a ∷ b ∷ c ∷ d ∷ r) =
    let n = unhex4 a b c d in if leb 55296 n && leb n 57343 then low_half n r else some (n, r)
after_unicode _ = none

after_backslash : ℕ → List ℕ → Option (ℕ × List ℕ)
unfolding after_unicode
after_backslash x r =
    if x == b'n'
    then some (10, r)
    else if x == b'r'
    then some (13, r)
    else if x == b't'
    then some (9, r)
    else if x == b'f'
    then some (12, r)
    else if x == b'b'
    then some (8, r)
    else if x == b'u'
    then after_unicode r
    else some (x, r)

escape_sequence : List ℕ → Option (ℕ × List ℕ)
escape_sequence (x ∷ r) = after_backslash x r
escape_sequence [] = none

-- One character of a quoted text; `none` at the closing quote.
unescape : List ℕ → Option (ℕ × List ℕ)
unescape (x ∷ r) = if x == 34 then none else if x == 92 then escape_sequence r else some (x, r)
unescape [] = none

abbrev IsScalarCode : ℕ → Type 0
IsScalarCode n = (n < 55296) ⊎ ((57343 < n) × (n < 1114112))

code-IsScalarCode : (c : Char) → IsScalarCode (code c)
code-IsScalarCode (char n p) = ground arith

module _ (n : ℕ) (bound : n < 65536) where
  abbrev quad : List ℕ → List ℕ
  quad r =
      hex_digit (n / 4096 % 16)
      ∷ hex_digit (n / 256 % 16)
      ∷ hex_digit (n / 16 % 16)
      ∷ hex_digit (n % 16)
      ∷ r

  after_unicode-quad :
      (r : List ℕ)
      → after_unicode (quad r) ≡ (if leb 55296 n && leb n 57343 then low_half n r else some (n, r))
  unfolding after_unicode
  after_unicode-quad r = rw (unhex4-hex4 n bound)

  low_half-quad :
      (high x y : ℕ) (r : List ℕ)
      → low_half high (x ∷ y ∷ quad r) ≡ some (65536 + (high - 55296) * 1024 + (n - 56320), r)
  unfolding low_half
  low_half-quad high x y r = rw (unhex4-hex4 n bound)

  hex4-quad : (r : List ℕ) → hex4 n ++ r ≡ quad r
  unfolding hex4
  hex4-quad r = refl

after_unicode-basic :
    (n : ℕ) (r : List ℕ) → n < 65536 → IsScalarCode n → after_unicode (hex4 n ++ r) ≡ some (n, r)
after_unicode-basic n r h k = rw (hex4-quad n h, after_unicode-quad n h) (ground arith)

after_unicode-pair :
    (v : ℕ) (r : List ℕ)
    → v < 1048576
    → after_unicode ((hex4 (55296 + v / 1024) ++ unicode_escape (56320 + v % 1024)) ++ r)
      ≡ some (65536 + v, r)
after_unicode-pair v r h =
    let high = 55296 + v / 1024 in
    let low = 56320 + v % 1024 in
    rw (append_assoc, hex4-quad high (omega arith), after_unicode-quad high (omega arith))
      (ground (
        arith,
        ap (low_half high) (ap (λ l. 92 ∷ 117 ∷ l) (hex4-quad low (omega arith) r)),
        low_half-quad low (omega arith) high 92 117 r,
      ))

after_backslash-short_escape :
    (c x : ℕ) (r : List ℕ) → short_escape c ≡ some x → after_backslash x r ≡ some (c, r)
unfolding after_backslash short_escape
after_backslash-short_escape c x r h = ground arith

short_escape-none : (c : ℕ) → short_escape c ≡ none → (c ≢ 34) × (c ≢ 92)
unfolding short_escape
short_escape-none c h = ground arith

unescape-unicode : (r : List ℕ) → unescape (92 ∷ 117 ∷ r) ≡ after_unicode r
unfolding unescape escape_sequence after_backslash
unescape-unicode r = refl

unescape-plain : (c : ℕ) (r : List ℕ) → c ≢ 34 → c ≢ 92 → unescape (c ∷ r) ≡ some (c, r)
unfolding unescape
unescape-plain c r p q = ground arith

-- The character beyond 16 bits is the one that its surrogate pair stands for.
pair_value :
    (c : ℕ) (r : List ℕ)
    → (c < 1114112)
    → ltb c 65536 ≡ false
    → after_unicode
        ((hex4 (55296 + (c - 65536) / 1024) ++ unicode_escape (56320 + (c - 65536) % 1024)) ++ r)
      ≡ some (c, r)
pair_value c r h k =
    after_unicode-pair (c - 65536) r (ground arith) ∙ ap (λ n. some (n, r)) (ground arith)

unescape-long_escape :
    (ascii : Bool) (c : ℕ) (r : List ℕ)
    → IsScalarCode c
    → c ≢ 34
    → c ≢ 92
    → unescape (long_escape ascii c ++ r) ≡ some (c, r)
unfolding long_escape
unescape-long_escape ascii c r h p q = elim (Bool-cases (leb 32 c && (leb c 126 || not ascii))) [
  | inl plain ↦ rw (plain, long_escape) (unescape-plain c r p q)
  | inr coded ↦ elim (Bool-cases (ltb c 65536)) [
    | inl basic ↦
        rw (coded, basic, long_escape)
          (unescape-unicode (hex4 c ++ r) ∙ after_unicode-basic c r (ltb→lt c 65536 basic) h)
    | inr wide ↦
        rw (coded, wide, long_escape)
          (unescape-unicode (
              (hex4 (55296 + (c - 65536) / 1024) ++ unicode_escape (56320 + (c - 65536) % 1024))
              ++ r)
            ∙ pair_value c r (ground arith) wide)
  ]
]

unescape-short : (x : ℕ) (r : List ℕ) → unescape (92 ∷ x ∷ r) ≡ after_backslash x r
unfolding unescape escape_sequence
unescape-short x r = refl

unescape-escape :
    (ascii : Bool) (c : ℕ) (r : List ℕ)
    → IsScalarCode c
    → unescape (escape ascii c ++ r) ≡ some (c, r)
unfolding escape
unescape-escape ascii c r h = elim (Option-cases (short_escape c)) [
  | inl none_short ↦
      rw (none_short, escape)
        (unescape-long_escape ascii c r h (short_escape-none c none_short).0
          (short_escape-none c none_short).1)
  | inr (x, short) ↦
      rw (short, escape) (unescape-short x r ∙ after_backslash-short_escape c x r short)
]

unescape-quote : (r : List ℕ) → unescape (34 ∷ r) ≡ none
unfolding unescape
unescape-quote r = refl

unescape-escapes :
    (ascii : Bool) (c : Char) (s : String) (r : List ℕ)
    → unescape ((escape ascii (code c) ++ escapes ascii (codes s)) ++ 34 ∷ r)
      ≡ some (code c, escapes ascii (codes s) ++ 34 ∷ r)
unescape-escapes ascii c s r =
    ap unescape (append_assoc (escape ascii (code c)) (escapes ascii (codes s)) (34 ∷ r))
    ∙ unescape-escape ascii (code c) _ (code-IsScalarCode c)

some-inj : {A : Type 0} {a b : A} → some a ≡ some b → a ≡ b
some-inj h = cc

cons-cancel :
    {c d : Char} {s t : String} {r q : List ℕ}
    → code c ≡ code d
    → (s ≡ t) × (r ≡ q)
    → (String.◌∷◌ c s ≡ String.◌∷◌ d t) × (r ≡ q)
cons-cancel {c} {d} p h = (ap₂ String.◌∷◌ (Char-path c d p) h.0, h.1)

-- Two texts with the same quoted form, whatever follows it, are one text.
pub escapes-cancel :
    (ascii : Bool) (s t : String) (r q : List ℕ)
    → escapes ascii (codes s) ++ 34 ∷ r ≡ escapes ascii (codes t) ++ 34 ∷ q
    → (s ≡ t) × (r ≡ q)
unfolding escapes
escapes-cancel ascii String.[] String.[] r q h = (refl, cc)
escapes-cancel ascii String.[] (String.◌∷◌ d t) r q h =
    absurd (cc (unescape-quote r, unescape-escapes ascii d t q))
escapes-cancel ascii (String.◌∷◌ c s) String.[] r q h =
    absurd (cc (unescape-quote q, unescape-escapes ascii c s r))
escapes-cancel ascii (String.◌∷◌ c s) (String.◌∷◌ d t) r q h =
    let e : (code c, escapes ascii (codes s) ++ 34 ∷ r)
        ≡ (code d, escapes ascii (codes t) ++ 34 ∷ q) =
      some-inj
        (sym (unescape-escapes ascii c s r) ∙ ap unescape h ∙ unescape-escapes ascii d t q) in
    cons-cancel (ap (λ p. p.0) e) (escapes-cancel ascii s t r q (ap (λ p. p.1) e))

abbrev pub rest : List ℕ → List ℕ
rest [] = []
rest (x ∷ xs) = xs

pub quote-cancel :
    (ascii : Bool) (s t : String) (r q : List ℕ)
    → quote ascii s ++ r ≡ quote ascii t ++ q
    → (s ≡ t) × (r ≡ q)
unfolding quote
quote-cancel ascii s t r q h = escapes-cancel ascii s t r q (
    sym (append_assoc (escapes ascii (codes s)) (34 ∷ []) r)
    ∙ ap rest h
    ∙ append_assoc (escapes ascii (codes t)) (34 ∷ []) q)
