-- ===== src/Canonical/Access.antt =====
-- Reading the fields of a document by their positions.
use revenue_guard.Prelude.{ℕ, zero, suc, String}
use revenue_guard.Canonical.{Json, Fields, null, num, text, obj, end, field}

-- The value of a field, by its position, and the text or the number that it is.
abbrev pub nth_field : ℕ → Fields → Json
nth_field n end = null
nth_field zero (field k v fs) = v
nth_field (suc n) (field k v fs) = nth_field n fs

abbrev pub field_text : ℕ → Json → String
field_text n (obj fs) = elim (nth_field n fs) [ text s ↦ s | _ ↦ "" ]
field_text n _ = ""

abbrev pub field_num : ℕ → Json → ℕ
field_num n (obj fs) = elim (nth_field n fs) [ num k ↦ k | _ ↦ 0 ]
field_num n _ = 0
