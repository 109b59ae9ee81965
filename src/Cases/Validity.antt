-- ===== src/Cases/Validity.antt =====
-- What `RecoveryCase.__post_init__` promises of a case that it lets through.
use revenue_guard.Prelude.{
  refl, sym, ◌∙◌, ◌≢◌, ℕ, ◌≤◌, ◌≡◌, true, Option, none, some, arith, is_some, is_currency_code,
  str_eq_iff,
}
use revenue_guard.Fault.{ok}
use revenue_guard.Clock.{Datetime, naive, at_utc, utc_zone, utc, utc_opt}
use revenue_guard.Identifier.{
  Fits, FitsOpt, identifier-Fits, Fits-identifier, identifier_opt-FitsOpt, FitsOpt-identifier_opt,
}
use revenue_guard.Cases.{
  schema_version, RecoveryCase, is_terminal, check_identifiers, check_values, normalize_times,
  init_case,
}

abbrev pub InUtc : Option Datetime → Type 0
InUtc none = Unit
InUtc (some t) = t.zone ≡ utc_zone

abbrev pub AtMost : ℕ → Option ℕ → Type 0
AtMost n none = Unit
AtMost n (some k) = k ≤ n

pub record HasIdentifiers (c : RecoveryCase) : Type 0 where
  pub case_id_fits : Fits c.case_id 128
  pub merchant_id_fits : Fits c.merchant_id 128
  pub subject_id_fits : Fits c.subject_id 128
  pub customer_id_fits : FitsOpt c.customer_id 128
  pub diagnosis_fits : FitsOpt c.diagnosis 128
  pub active_incident_id_fits : FitsOpt c.active_incident_id 128
  pub terminal_reason_fits : FitsOpt c.terminal_reason 256

pub record HasValues (c : RecoveryCase) : Type 0 where
  pub version_positive : 1 ≤ c.state_version
  pub currency_code : is_currency_code c.currency ≡ true
  pub confidence_bounded : AtMost 10000 c.diagnosis_confidence
  -- a terminal case has a reason, and no other case has one
  pub reason_iff_terminal : is_some c.terminal_reason ≡ is_terminal c.state

pub record HasTimes (c : RecoveryCase) : Type 0 where
  pub created_utc : c.created_at.zone ≡ utc_zone
  pub updated_utc : c.updated_at.zone ≡ utc_zone
  pub next_utc : InUtc c.next_evaluation_at
  pub chronological : c.created_at.instant ≤ c.updated_at.instant

pub record IsValid (c : RecoveryCase) : Type 0 where
  pub schema_supported : c.schema ≡ schema_version
  pub identifiers : HasIdentifiers c
  pub values : HasValues c
  pub times : HasTimes c

pub check_values-HasValues : (c : RecoveryCase) → check_values c ≡ ok tt → HasValues c
unfolding check_values
check_values-HasValues c h = ground arith

pub HasValues-check_values : (c : RecoveryCase) → HasValues c → check_values c ≡ ok tt
unfolding check_values
HasValues-check_values c h = ground arith

pub check_identifiers-HasIdentifiers :
    (c : RecoveryCase) → check_identifiers c ≡ ok tt → HasIdentifiers c
unfolding check_identifiers
check_identifiers-HasIdentifiers c h = ground (
  arith,
  identifier-Fits "case_id" c.case_id 128,
  identifier-Fits "merchant_id" c.merchant_id 128,
  identifier-Fits "subject_id" c.subject_id 128,
  identifier_opt-FitsOpt "customer_id" c.customer_id 128,
  identifier_opt-FitsOpt "diagnosis" c.diagnosis 128,
  identifier_opt-FitsOpt "active_incident_id" c.active_incident_id 128,
  identifier_opt-FitsOpt "terminal_reason" c.terminal_reason 256,
)

pub HasIdentifiers-check_identifiers :
    (c : RecoveryCase) → HasIdentifiers c → check_identifiers c ≡ ok tt
unfolding check_identifiers
HasIdentifiers-check_identifiers c h =
    rw
      (
        Fits-identifier "case_id" c.case_id 128 h.case_id_fits,
        Fits-identifier "merchant_id" c.merchant_id 128 h.merchant_id_fits,
        Fits-identifier "subject_id" c.subject_id 128 h.subject_id_fits,
        FitsOpt-identifier_opt "customer_id" c.customer_id 128 h.customer_id_fits,
        FitsOpt-identifier_opt "diagnosis" c.diagnosis 128 h.diagnosis_fits,
        FitsOpt-identifier_opt "active_incident_id" c.active_incident_id 128
            h.active_incident_id_fits,
      )
      (FitsOpt-identifier_opt "terminal_reason" c.terminal_reason 256 h.terminal_reason_fits)

pub normalize_times-HasTimes : (c d : RecoveryCase) → normalize_times c ≡ ok d → HasTimes d
unfolding normalize_times utc utc_opt
normalize_times-HasTimes c d h = ground arith

pub HasTimes-normalize_times : (c : RecoveryCase) → HasTimes c → normalize_times c ≡ ok c
unfolding normalize_times utc utc_opt
HasTimes-normalize_times c h = ground arith

abbrev pub utc_of : Option Datetime → Option Datetime
utc_of none = none
utc_of (some t) = some (at_utc t.instant)

abbrev pub in_utc : RecoveryCase → RecoveryCase
in_utc c = record c {
  created_at = at_utc c.created_at.instant;
  updated_at = at_utc c.updated_at.instant;
  next_evaluation_at = utc_of c.next_evaluation_at;
}

-- Only the times are rewritten.
normalize_times_lem : (c d : RecoveryCase) → normalize_times c ≡ ok d → d ≡ in_utc c
unfolding normalize_times utc utc_opt
normalize_times_lem c d h = ground arith

pub init_case_lem : (c d : RecoveryCase) → init_case c ≡ ok d → d ≡ in_utc c
unfolding init_case
init_case_lem c d h = ground (arith, normalize_times_lem c d)

-- The checks that come before the times do not read them.
check_values-normalize_times :
    (c d : RecoveryCase) → normalize_times c ≡ ok d → check_values d ≡ check_values c
unfolding check_values
check_values-normalize_times c d h = rw (normalize_times_lem c d h)

check_identifiers-normalize_times :
    (c d : RecoveryCase) → normalize_times c ≡ ok d → check_identifiers d ≡ check_identifiers c
unfolding check_identifiers
check_identifiers-normalize_times c d h = rw (normalize_times_lem c d h)

schema-normalize_times : (c d : RecoveryCase) → normalize_times c ≡ ok d → d.schema ≡ c.schema
schema-normalize_times c d h = rw (normalize_times_lem c d h)

-- A case that the constructor lets through is valid.
pub init_case-IsValid : (c d : RecoveryCase) → init_case c ≡ ok d → IsValid d
unfolding init_case
init_case-IsValid c d h = ground (
  arith,
  str_eq_iff c.schema schema_version,
  check_values-HasValues d,
  check_identifiers-HasIdentifiers d,
  normalize_times-HasTimes c d,
  check_values-normalize_times c d,
  check_identifiers-normalize_times c d,
  schema-normalize_times c d,
)

-- A valid case is let through as it is.
pub IsValid-init_case : (c : RecoveryCase) → IsValid c → init_case c ≡ ok c
unfolding init_case
IsValid-init_case c h = ground (
  arith,
  str_eq_iff c.schema schema_version,
  HasValues-check_values c,
  HasIdentifiers-check_identifiers c,
  HasTimes-normalize_times c,
)

abbrev pub NotNaive : Option Datetime → Type 0
NotNaive none = Unit
NotNaive (some t) = t.zone ≢ naive

normalize_times-in_utc :
    (c : RecoveryCase)
    → c.created_at.zone ≢ naive
    → c.updated_at.zone ≢ naive
    → NotNaive c.next_evaluation_at
    → c.created_at.instant ≤ c.updated_at.instant
    → normalize_times c ≡ ok (in_utc c)
unfolding normalize_times utc utc_opt
normalize_times-in_utc c p q r h = ground arith

check_values-in_utc : (c : RecoveryCase) → check_values (in_utc c) ≡ check_values c
unfolding check_values
check_values-in_utc c = refl

check_identifiers-in_utc : (c : RecoveryCase) → check_identifiers (in_utc c) ≡ check_identifiers c
unfolding check_identifiers
check_identifiers-in_utc c = refl

-- A case with aware times is let through if it is valid once they are written in UTC.
pub in_utc-init_case :
    (c : RecoveryCase)
    → c.created_at.zone ≢ naive
    → c.updated_at.zone ≢ naive
    → NotNaive c.next_evaluation_at
    → IsValid (in_utc c)
    → init_case c ≡ ok (in_utc c)
unfolding init_case
in_utc-init_case c p q r v =
    rw
      (
        (str_eq_iff c.schema schema_version).1 v.schema_supported,
        sym (check_identifiers-in_utc c)
            ∙ HasIdentifiers-check_identifiers (in_utc c) v.identifiers,
        sym (check_values-in_utc c) ∙ HasValues-check_values (in_utc c) v.values,
      )
      (normalize_times-in_utc c p q r v.times.chronological)

-- Constructing a case is idempotent: its result is valid, and is its own construction.
pub init_case_idem : (c d : RecoveryCase) → init_case c ≡ ok d → IsValid d × (init_case d ≡ ok d)
init_case_idem c d h = let v : IsValid d = init_case-IsValid c d h in (v, IsValid-init_case d v)
