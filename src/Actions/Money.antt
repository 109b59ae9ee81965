-- ===== src/Actions/Money.antt =====
-- What a verified outcome proves.
use revenue_guard.Prelude.{◌≤◌, ◌<◌, ◌≡◌, true, false, none, some, arith, is_some}
use revenue_guard.Fault.{ok}
use revenue_guard.Clock.{Datetime, utc, utc_opt}
use revenue_guard.Actions.{succeeded, unknown, VerifiedOutcome, check_claims, init_outcome}

-- What an outcome may claim: money only as an authoritative success that names its evidence and
-- was verified; certainty only with a time of verification, no earlier than the observation; and
-- nothing of either where the outcome is unknown.
pub record IsCredible (o : VerifiedOutcome) : Type 0 where
  pub money_proved :
      0 < o.recovered_amount_minor
      → (o.outcome_status ≡ succeeded)
        × (o.is_authoritative ≡ true)
        × (is_some o.evidence_reference ≡ true)
        × (is_some o.verified_at ≡ true)
  pub certain_verified : o.is_authoritative ≡ true → is_some o.verified_at ≡ true
  pub after_observation :
      (v : Datetime) → o.verified_at ≡ some v → o.observed_at.instant ≤ v.instant
  pub unknown_claims_nothing :
      o.outcome_status ≡ unknown
      → (o.is_authoritative ≡ false) × (o.recovered_amount_minor ≡ 0) × (o.verified_at ≡ none)

-- The claims are checked, and construction keeps them.
claims_checked :
    (o p : VerifiedOutcome)
    → init_outcome o ≡ ok p
    → (check_claims o ≡ ok tt)
      × (p.outcome_status ≡ o.outcome_status)
      × (p.is_authoritative ≡ o.is_authoritative)
      × (p.recovered_amount_minor ≡ o.recovered_amount_minor)
      × (p.evidence_reference ≡ o.evidence_reference)
      × (is_some p.verified_at ≡ is_some o.verified_at)
unfolding init_outcome utc utc_opt
claims_checked o p h = ground arith

observed_first :
    (o p : VerifiedOutcome) (v : Datetime)
    → init_outcome o ≡ ok p
    → p.verified_at ≡ some v
    → p.observed_at.instant ≤ v.instant
unfolding init_outcome utc utc_opt
observed_first o p v h there = ground arith

money_needs :
    (o : VerifiedOutcome)
    → check_claims o ≡ ok tt
    → 0 < o.recovered_amount_minor
    → (o.outcome_status ≡ succeeded)
      × (o.is_authoritative ≡ true)
      × (is_some o.evidence_reference ≡ true)
      × (is_some o.verified_at ≡ true)
unfolding check_claims
money_needs o h m = ground arith

certain_needs :
    (o : VerifiedOutcome)
    → check_claims o ≡ ok tt
    → o.is_authoritative ≡ true
    → is_some o.verified_at ≡ true
unfolding check_claims
certain_needs o h a = ground arith

unknown_needs :
    (o : VerifiedOutcome)
    → check_claims o ≡ ok tt
    → o.outcome_status ≡ unknown
    → (o.is_authoritative ≡ false)
      × (o.recovered_amount_minor ≡ 0)
      × (is_some o.verified_at ≡ false)
unfolding check_claims
unknown_needs o h u = ground arith

-- Every outcome that was constructed is credible.
pub init_outcome-IsCredible : (o p : VerifiedOutcome) → init_outcome o ≡ ok p → IsCredible p
init_outcome-IsCredible o p h =
    let (c, status, authority, amount, evidence, verified) = claims_checked o p h in
    record {
      money_proved =
          λ m. ground (arith, money_needs o c, status, authority, amount, evidence, verified, m);
      certain_verified = λ a. ground (arith, certain_needs o c, authority, verified, a);
      after_observation = λ v there. observed_first o p v h there;
      unknown_claims_nothing =
          λ u. ground (arith, unknown_needs o c, status, authority, amount, verified, u);
    }
