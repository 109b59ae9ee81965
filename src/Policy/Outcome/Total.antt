-- ===== src/Policy/Outcome/Total.antt =====
-- `evaluate_policy` returns a decision.
use revenue_guard.Prelude.{String, ◌≡◌, refl, true, false, is_blank, is_currency_code}
use revenue_guard.Fault.{Fault, Result, ok, err}
use revenue_guard.Clock.{utc_zone}
use revenue_guard.Reviews.{required}
use revenue_guard.Policy.Snapshot.{
  Environment, find_zone, MerchantPolicySnapshot, content_digest, PolicyEvaluationInput,
}

abbrev pub Returns {ℓ} : {A : Type ℓ} → Result A → Type ℓ
Returns {A = A} m = (x : A) × (m ≡ ok x)

pub Returns-unless {ℓ} : {A : Type ℓ} (m : Result A) → ((f : Fault) → m ≡ err f → ⊥) → Returns m
Returns-unless (ok x) h = (x, refl)
Returns-unless (err f) h = absurd (h f refl)

-- What validation promises of an input and a policy, as far as the evaluation relies on it.
pub record IsReady (env : Environment) (p : MerchantPolicySnapshot) (e : PolicyEvaluationInput)
    : Type 0 where
  pub case_named : is_blank e.case_id ≡ false
  pub times_utc : e.evaluated_at.zone ≡ utc_zone
  pub currency_code : is_currency_code e.currency ≡ true
  pub digest_there : is_blank (content_digest env p) ≡ false
  pub zone_found : Returns (find_zone env p.timezone)

required-there : (name value : String) → is_blank value ≡ false → required name value ≡ ok tt
required-there name value h = rw h
