-- ===== src/Fault.antt =====
-- The exceptions that the domain raises, and the result of a call that may raise one. A message
-- that is an f-string over a field's name and a bound carries the two as values.
use revenue_guard.Prelude.{ℕ, String, ◌≡◌, refl, ◌⊎◌, inl, inr, Bool, true, false}

pub data Fault : Type 0 where
  -- `ValueError(message)`
  value_error : String → Fault
  -- `ValueError` of the `_identifier` helpers: a field's name and its maximal length
  identifier_error : String → ℕ → Fault
  -- `ValueError(f"{name} must be at least {minimum}")`
  minimum_error : String → ℕ → Fault
  -- `ValueError(f"{name} must be timezone-aware")`
  timezone_error : String → Fault
  -- `ZoneInfoNotFoundError(name)`
  zone_not_found : String → Fault
  -- `AssertionError(message)`
  assertion_error : String → Fault
  -- `CaseTransitionError(code, detail)`, by its code
  transition_error : String → Fault
  -- `StaleCaseVersionError("STALE_CASE_VERSION", ...)`: the expected and the found version
  stale_version : ℕ → ℕ → Fault
  -- `StopIteration`, from `next` on an iterator that is exhausted
  stop_iteration : Fault
  -- `OverflowError`, of a timedelta that is too long
  overflow_error : Fault
  -- `LookupError(message)`
  lookup_error : String → Fault
  -- `ActionPersistenceError(code, detail)`, by its code
  action_error : String → Fault
  -- `RecoveryPersistenceError(code, detail)` and its subclasses, by the code
  recovery_error : String → Fault
  -- `IntegrityError` of the database, where a constraint of a table refuses a write
  integrity_error : Fault
  -- `NoResultFound` and `MultipleResultsFound`, from a query that has to give one row
  no_row multiple_rows : Fault

-- What a call gives back: the exception that it raised, or its value.
pub data Result {ℓ} (Value : Type ℓ) : Type ℓ where
  err : Fault → Result Value
  ok : Value → Result Value

module _ {ℓ} {X : Type ℓ} where
  pub Result-cases : (r : Result X) → ((x : X) × (r ≡ ok x)) ⊎ ((f : Fault) × (r ≡ err f))
  Result-cases (err f) = inr (f, refl)
  Result-cases (ok x) = inl (x, refl)

  pub ok-injective : {x y : X} → ok x ≡ ok y → x ≡ y
  ok-injective same = cc

-- A line of a block whose value the next lines use.
infixl 5 ◌>>=◌
abbrev pub ◌>>=◌ {ℓ κ} : {X : Type ℓ} {Y : Type κ} → Result X → (X → Result Y) → Result Y
err f >>= rest = err f
ok x >>= rest = rest x

-- A line that only checks.
infixl 5 ◌>>◌
abbrev pub ◌>>◌ {ℓ} : {Y : Type ℓ} → Result (Unit {0}) → Result Y → Result Y
check >> rest = check >>= λ _. rest

-- `if test: raise fault`.
abbrev pub raise_if : Bool → Fault → Result (Unit {0})
raise_if false fault = ok tt
raise_if true fault = err fault

-- A block that returned has run its first line, and returned from there.
pub >>=-eq-ok {ℓ κ} :
    {X : Type ℓ} {Y : Type κ} (first : Result X) (rest : X → Result Y) {y : Y}
    → (first >>= rest) ≡ ok y
    → (x : X) × (first ≡ ok x) × (rest x ≡ ok y)
>>=-eq-ok (err f) rest ran = cc
>>=-eq-ok (ok x) rest ran = (x, refl, ran)

-- A check that was passed did not fire, and the rest of the block ran.
pub raise_if-eq-ok {ℓ} :
    {Y : Type ℓ} (test : Bool) (fault : Fault) (rest : Result Y) {y : Y}
    → (raise_if test fault >> rest) ≡ ok y
    → (test ≡ false) × (rest ≡ ok y)
raise_if-eq-ok false fault rest ran = (refl, ran)
raise_if-eq-ok true fault rest ran = cc
