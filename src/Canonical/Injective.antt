-- ===== src/Canonical/Injective.antt =====
-- The canonical text of a document determines the document.
use mathlib.Core.List.{append-nil, append_assoc}
use revenue_guard.Prelude.{
  ◌≢◌, if◌then◌else◌, ℕ, ◌+◌, String, ◌≡◌, refl, ap, ap₂, sym, ◌∙◌, Bool, true, false, List, [],
  ◌∷◌, ◌++◌, arith,
}
use revenue_guard.Canonical.{
  quote, decimal, Json, Items, Fields, null, flag, num, minus, text, arr, obj, last, item, end,
  field, dumps, dump_items, dump_fields,
}
use revenue_guard.Canonical.Escape.{quote-cancel, rest}
use revenue_guard.Canonical.Decimal.{is_digit, Stops, decimal-cancel, head_is_digit, head-decimal}

-- What the first character of a value tells: all digits tell the same.
abbrev kind : List ℕ → ℕ
kind [] = 0
kind (c ∷ r) = if is_digit c then 1 else c

abbrev value_kind : Json → ℕ
value_kind null = b'n'
value_kind (flag true) = b't'
value_kind (flag false) = b'f'
value_kind (num n) = 1
value_kind (minus n) = b'-'
value_kind (text s) = 34
value_kind (arr vs) = b'['
value_kind (obj fs) = b'{'

kind_of_digits : (l : List ℕ) → head_is_digit l ≡ true → kind l ≡ 1
kind_of_digits [] h = cc
kind_of_digits (c ∷ r) h = rw h

kind-dumps : (ascii : Bool) (v : Json) (r : List ℕ) → kind (dumps ascii v ++ r) ≡ value_kind v
unfolding dumps
kind-dumps ascii null r = refl
kind-dumps ascii (flag true) r = refl
kind-dumps ascii (flag false) r = refl
kind-dumps ascii (num n) r = kind_of_digits (decimal n ++ r) (head-decimal n r)
kind-dumps ascii (minus n) r = refl
kind-dumps ascii (text s) r = refl
kind-dumps ascii (arr last) r = refl
kind-dumps ascii (arr (item v vs)) r = refl
kind-dumps ascii (obj end) r = refl
kind-dumps ascii (obj (field k v fs)) r = refl

same_kind :
    (ascii : Bool) (v w : Json) (r q : List ℕ)
    → dumps ascii v ++ r ≡ dumps ascii w ++ q
    → value_kind v ≡ value_kind w
same_kind ascii v w r q h = sym (kind-dumps ascii v r) ∙ ap kind h ∙ kind-dumps ascii w q

items-Stops : (ascii : Bool) (vs : Items) (r : List ℕ) → Stops (dump_items ascii vs ++ r)
unfolding dumps
items-Stops ascii last r = refl
items-Stops ascii (item v vs) r = refl

fields-Stops : (ascii : Bool) (fs : Fields) (r : List ℕ) → Stops (dump_fields ascii fs ++ r)
unfolding dumps
fields-Stops ascii end r = refl
fields-Stops ascii (field k v fs) r = refl

assoc-cancel :
    (a b r q x y : List ℕ) → (a ++ r) ++ x ≡ (b ++ q) ++ y → a ++ (r ++ x) ≡ b ++ (q ++ y)
assoc-cancel a b r q x y h = sym (append_assoc a r x) ∙ h ∙ append_assoc b q y

-- The key of a field and the rest of it.
key-cancel :
    (ascii : Bool) (i j : String) (a b r q x y : List ℕ)
    → (quote ascii i ++ 58 ∷ (a ++ r)) ++ x ≡ (quote ascii j ++ 58 ∷ (b ++ q)) ++ y
    → (i ≡ j) × (a ++ (r ++ x) ≡ b ++ (q ++ y))
key-cancel ascii i j a b r q x y h =
    let e =
      quote-cancel ascii i j (58 ∷ (a ++ r) ++ x) (58 ∷ (b ++ q) ++ y)
        (assoc-cancel (quote ascii i) (quote ascii j) (58 ∷ (a ++ r)) (58 ∷ (b ++ q)) x y h) in
    (e.0, assoc-cancel a b r q x y (ap rest e.1))

value_kind-ne-bracket : (v : Json) → (value_kind v ≢ 93) × (value_kind v ≢ 125)
value_kind-ne-bracket (flag true) = (omega arith, omega arith)
value_kind-ne-bracket _ = (omega arith, omega arith)

-- Two documents with the same text, whatever follows each that is no digit, are one document.
mutual
  unfolding dumps

  dumps-cancel :
      (ascii : Bool) (v w : Json) (r q : List ℕ)
      → Stops r
      → Stops q
      → dumps ascii v ++ r ≡ dumps ascii w ++ q
      → (v ≡ w) × (r ≡ q)
  dumps-cancel ascii null null r q k l h = (refl, ap (λ x. rest (rest (rest (rest x)))) h)
  dumps-cancel ascii (flag true) (flag true) r q k l h =
      (refl, ap (λ x. rest (rest (rest (rest x)))) h)
  dumps-cancel ascii (flag false) (flag false) r q k l h =
      (refl, ap (λ x. rest (rest (rest (rest (rest x))))) h)
  dumps-cancel ascii (num n) (num m) r q k l h =
      let e = decimal-cancel n m r q k l h in (ap num e.0, e.1)
  dumps-cancel ascii (minus n) (minus m) r q k l h =
      let e = decimal-cancel (n + 1) (m + 1) r q k l (ap rest h) in
      (ap minus (omega (arith, e.0)), e.1)
  dumps-cancel ascii (text s) (text t) r q k l h =
      let e = quote-cancel ascii s t r q h in (ap text e.0, e.1)
  dumps-cancel ascii (arr last) (arr last) r q k l h = (refl, ap (λ x. rest (rest x)) h)
  dumps-cancel ascii (arr (item v vs)) (arr (item w ws)) r q k l h =
      let e =
        dumps-cancel ascii v w (dump_items ascii vs ++ r) (dump_items ascii ws ++ q)
          (items-Stops ascii vs r) (items-Stops ascii ws q)
          (assoc-cancel (dumps ascii v) (dumps ascii w) (dump_items ascii vs) (dump_items ascii ws)
            r q (ap rest h)) in
      let f = items-cancel ascii vs ws r q k l e.1 in (ap arr (ap₂ item e.0 f.0), f.1)
  dumps-cancel ascii (arr last) (arr (item w ws)) r q k l h = absurd (
      (value_kind-ne-bracket w).0 (
        sym (kind-dumps ascii w (dump_items ascii ws ++ q))
        ∙ sym (ap kind (ap rest h ∙ append_assoc (dumps ascii w) (dump_items ascii ws) q))))
  dumps-cancel ascii (arr (item v vs)) (arr last) r q k l h = absurd (
      (value_kind-ne-bracket v).0 (
        sym (kind-dumps ascii v (dump_items ascii vs ++ r))
        ∙ ap kind (sym (append_assoc (dumps ascii v) (dump_items ascii vs) r) ∙ ap rest h)))
  dumps-cancel ascii (obj end) (obj end) r q k l h = (refl, ap (λ x. rest (rest x)) h)
  dumps-cancel ascii (obj (field i v fs)) (obj (field j w gs)) r q k l h =
      let e =
        key-cancel ascii i j (dumps ascii v) (dumps ascii w) (dump_fields ascii fs)
          (dump_fields ascii gs) r q (ap rest h) in
      let d =
        dumps-cancel ascii v w (dump_fields ascii fs ++ r) (dump_fields ascii gs ++ q)
          (fields-Stops ascii fs r) (fields-Stops ascii gs q) e.1 in
      let f = fields-cancel ascii fs gs r q k l d.1 in
      (λ t. obj (field (e.0 t) (d.0 t) (f.0 t)), f.1)
  dumps-cancel ascii (obj end) (obj (field j w gs)) r q k l h =
      absurd (omega (arith, ap kind (ap rest h)))
  dumps-cancel ascii (obj (field i v fs)) (obj end) r q k l h =
      absurd (omega (arith, ap kind (ap rest h)))
  dumps-cancel ascii v w r q k l h = absurd (ground (arith, same_kind ascii v w r q h))

  items-cancel :
      (ascii : Bool) (v w : Items) (r q : List ℕ)
      → Stops r
      → Stops q
      → dump_items ascii v ++ r ≡ dump_items ascii w ++ q
      → (v ≡ w) × (r ≡ q)
  items-cancel ascii last last r q k l h = (refl, ap rest h)
  items-cancel ascii (item v vs) (item w ws) r q k l h =
      let e =
        dumps-cancel ascii v w (dump_items ascii vs ++ r) (dump_items ascii ws ++ q)
          (items-Stops ascii vs r) (items-Stops ascii ws q)
          (assoc-cancel (dumps ascii v) (dumps ascii w) (dump_items ascii vs) (dump_items ascii ws)
            r q (ap rest h)) in
      let f = items-cancel ascii vs ws r q k l e.1 in (ap₂ item e.0 f.0, f.1)
  items-cancel ascii last (item w ws) r q k l h = absurd (omega (arith, ap kind h))
  items-cancel ascii (item v vs) last r q k l h = absurd (omega (arith, ap kind h))

  fields-cancel :
      (ascii : Bool) (fs gs : Fields) (r q : List ℕ)
      → Stops r
      → Stops q
      → dump_fields ascii fs ++ r ≡ dump_fields ascii gs ++ q
      → (fs ≡ gs) × (r ≡ q)
  fields-cancel ascii end end r q k l h = (refl, ap rest h)
  fields-cancel ascii (field i v fs) (field j w gs) r q k l h =
      let e =
        key-cancel ascii i j (dumps ascii v) (dumps ascii w) (dump_fields ascii fs)
          (dump_fields ascii gs) r q (ap rest h) in
      let d =
        dumps-cancel ascii v w (dump_fields ascii fs ++ r) (dump_fields ascii gs ++ q)
          (fields-Stops ascii fs r) (fields-Stops ascii gs q) e.1 in
      let f = fields-cancel ascii fs gs r q k l d.1 in (λ t. field (e.0 t) (d.0 t) (f.0 t), f.1)
  fields-cancel ascii end (field j w gs) r q k l h = absurd (omega (arith, ap kind h))
  fields-cancel ascii (field i v fs) end r q k l h = absurd (omega (arith, ap kind h))

-- The canonical text of a document determines the document.
pub dumps_injective : (ascii : Bool) (v w : Json) → dumps ascii v ≡ dumps ascii w → v ≡ w
dumps_injective ascii v w h =
    (dumps-cancel ascii v w [] [] tt tt
      (append-nil (dumps ascii v) ∙ h ∙ sym (append-nil (dumps ascii w)))).0
