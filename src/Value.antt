-- ===== src/Value.antt =====
-- The values of a `Mapping[str, object]` of Python: audit payloads and action parameters are such
-- mappings.
use revenue_guard.Prelude.{String, Bool, Option, none, some, str_eq, if◌then◌else◌}
use revenue_guard.Prelude.Int.{ℤ}
use revenue_guard.Clock.{Datetime}

mutual
  pub data Value : Type 0 where
    none_value : Value
    bool_value : Bool → Value
    int_value : ℤ → Value
    str_value : String → Value
    float_value : Value
    time_value : Datetime → Value
    mapping : Entries → Value
    sequence_value : Values → Value
    -- a value of any other type, by the name of the type
    other_value : String → Value

  pub data Values : Type 0 where
    no_value : Values
    more_values : Value → Values → Values

  -- The pairs of a mapping; a key may be no text.
  pub data Entries : Type 0 where
    no_entry : Entries
    entry_at : String → Value → Entries → Entries
    entry_at_other : Value → Entries → Entries

-- `mapping.get(name)`, of a mapping whose keys differ.
abbrev pub get : String → Entries → Option Value
get name no_entry = none
get name (entry_at key v es) = let rest = get name es in if str_eq key name then some v else rest
get name (entry_at_other v es) = get name es
