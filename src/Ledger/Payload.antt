-- ===== src/Ledger/Payload.antt =====
-- `_canonical_value` of audit_ledger.py: what an audit payload becomes before it is stored and hashed.
use Prim.Native.Nat.{Ordering}
use Prim.Native.String.{compare}
use revenue_guard.Prelude.{
  ℕ, String, ◌≡◌, refl, Bool, true, false, not, List, [], ◌∷◌, if◌then◌else◌,
}
use revenue_guard.Prelude.Int.{ℤ, pos, negsuc}
use revenue_guard.Fault.{Result, ok, err, value_error, ◌>>=◌, ◌>>◌, raise_if}
use revenue_guard.Clock.{Datetime, naive, utc_zone, offset}
use revenue_guard.Clock.Calendar.{format_exact}
use revenue_guard.Value.{
  Value, Values, Entries, none_value, bool_value, int_value, str_value, float_value, time_value,
  mapping, sequence_value, other_value, no_value, more_values, no_entry, entry_at, entry_at_other,
}
use revenue_guard.Canonical.{
  Json, Items, Fields, null, flag, num, minus, text, arr, obj, last, item, end, field,
}

abbrev int_json : ℤ → Json
int_json (pos n) = num n
int_json (negsuc n) = minus n

-- `_utc(value)` of audit_ledger.py, as an instant.
abbrev pub audit_utc : Datetime → Result ℕ
audit_utc t = elim (t.zone) [
  | naive ↦ err (value_error "audit timestamps must be timezone-aware")
  | utc_zone ↦ ok t.instant
  | offset k ↦ ok t.instant
]

-- Whether a text comes before another, by code points.
abbrev text_before : String → String → Bool
text_before s t = elim (compare s t) [ Ordering.lt ↦ true | _ ↦ false ]

-- The values by their keys, in the order of the keys, which differ from one another.
abbrev insert_key : String × Result Json → List (String × Result Json) → List (String × Result Json)
insert_key a [] = a ∷ []
insert_key a (b ∷ bs) =
    let rest = insert_key a bs in if text_before b.0 a.0 then b ∷ rest else a ∷ b ∷ bs

abbrev all_text_keys : Entries → Bool
all_text_keys no_entry = true
all_text_keys (entry_at key v es) = all_text_keys es
all_text_keys (entry_at_other v es) = false

-- The fields, or the first error among their values.
abbrev collect : List (String × Result Json) → Result Fields
collect [] = ok end
collect ((key, v) ∷ rest) = do j ← v; fs ← collect rest; ok (field key j fs)

unfoldable mutual
  pub canonical_value : Value → Result Json
  canonical_value none_value = ok null
  canonical_value (bool_value b) = ok (flag b)
  canonical_value (int_value n) = ok (int_json n)
  canonical_value (str_value s) = ok (text s)
  canonical_value float_value =
      err (value_error "audit payloads cannot contain binary floating point")
  canonical_value (time_value t) = audit_utc t >>= λ now. ok (text (format_exact now))
  canonical_value (mapping es) =
      raise_if (not (all_text_keys es)) (value_error "audit payload keys must be strings")
      >> (collect (canonical_entries es) >>= λ fs. ok (obj fs))
  canonical_value (sequence_value vs) = canonical_values vs >>= λ items. ok (arr items)
  canonical_value (other_value name) = err (value_error name)

  pub canonical_values : Values → Result Items
  canonical_values no_value = ok last
  canonical_values (more_values v vs) =
      canonical_value v >>= λ j. canonical_values vs >>= λ items. ok (item j items)

  -- The canonical values of a mapping by their keys, sorted.
  pub canonical_entries : Entries → List (String × Result Json)
  canonical_entries no_entry = []
  canonical_entries (entry_at key v es) = insert_key (key, canonical_value v) (canonical_entries es)
  canonical_entries (entry_at_other v es) = canonical_entries es

-- `_canonical_payload`; the payload of a request is a mapping.
unfoldable pub canonical_payload : Entries → Result Json
unfolding canonical_value
canonical_payload es = canonical_value (mapping es)

sorted_keys :
    canonical_payload (entry_at "b" (int_value (negsuc 1)) (entry_at "a" none_value no_entry))
    ≡ ok (obj (field "a" null (field "b" (minus 1) end)))
unfolding canonical_payload
sorted_keys = refl
