-- ===== src/Identifier.antt =====
-- The `_identifier` helpers of cases.py, actions.py, events.py, playbooks.py and portfolio.py. That
-- a value is a `str` is given by its type here.
use revenue_guard.Prelude.{
  ℕ, ◌≤◌, String, ◌≡◌, refl, ◌||◌, Option, none, some, arith, ltb, str_len, is_blank,
}
use revenue_guard.Fault.{Result, ok, identifier_error, raise_if}

unfoldable pub identifier : String → String → ℕ → Result (Unit {0})
identifier name value maximum =
    raise_if (is_blank value || ltb maximum (str_len value)) (identifier_error name maximum)

unfoldable pub identifier_opt : String → Option String → ℕ → Result (Unit {0})
unfolding identifier
identifier_opt name none maximum = ok tt
identifier_opt name (some value) maximum = identifier name value maximum

-- The length of an identifier is between 1 and its maximum.
abbrev pub Fits : String → ℕ → Type 0
Fits value maximum = (1 ≤ str_len value) × (str_len value ≤ maximum)

abbrev pub FitsOpt : Option String → ℕ → Type 0
FitsOpt none maximum = Unit
FitsOpt (some value) maximum = Fits value maximum

pub identifier-Fits :
    (name value : String) (maximum : ℕ) → identifier name value maximum ≡ ok tt → Fits value maximum
unfolding identifier
identifier-Fits name String.[] maximum h = ground arith
identifier-Fits name (String.◌∷◌ c s) maximum h = ground arith

pub Fits-identifier :
    (name value : String) (maximum : ℕ) → Fits value maximum → identifier name value maximum ≡ ok tt
unfolding identifier
Fits-identifier name String.[] maximum h = ground arith
Fits-identifier name (String.◌∷◌ c s) maximum h = ground arith

pub identifier_opt-FitsOpt :
    (name : String) (value : Option String) (maximum : ℕ)
    → identifier_opt name value maximum ≡ ok tt
    → FitsOpt value maximum
unfolding identifier_opt
identifier_opt-FitsOpt name none maximum h = tt
identifier_opt-FitsOpt name (some value) maximum h = identifier-Fits name value maximum h

pub FitsOpt-identifier_opt :
    (name : String) (value : Option String) (maximum : ℕ)
    → FitsOpt value maximum
    → identifier_opt name value maximum ≡ ok tt
unfolding identifier_opt
FitsOpt-identifier_opt name none maximum h = refl
FitsOpt-identifier_opt name (some value) maximum h = Fits-identifier name value maximum h
