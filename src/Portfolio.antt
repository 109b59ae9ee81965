-- ===== src/Portfolio.antt =====
-- packages/domain/src/revenueguard_domain/portfolio.py: the candidates of a case are scored by the
-- net amount that they can be expected to recover, and ranked.
pub mod Ranked
pub mod Falling
pub mod Interleaved
pub mod Order
pub mod Total
mod Examples
use Prim.Native.Nat.{Ordering}
use Prim.Native.String.{compare}
use revenue_guard.Prelude.{
  ℕ, ◌+◌, ◌-◌, ◌*◌, ◌/◌, String, Bool, true, false, not, ◌&&◌, ◌||◌, Option, none, some, List, [],
  ◌∷◌, ◌++◌, ltb, leb, ◌==◌, is_blank, str_len, min, if◌then◌else◌,
}
use revenue_guard.Prelude.Int.{ℤ, pos, negsuc, sub_ℕ, ltb_ℤ, ◌+ℤ◌, scale}
use revenue_guard.Fault.{
  Result, ok, err, value_error, assertion_error, stop_iteration, ◌>>=◌, ◌>>◌, raise_if,
}
use revenue_guard.Clock.{Datetime, utc}
use revenue_guard.Clock.Calendar.{hour, day_of_month}
use revenue_guard.Identifier.{identifier}
use revenue_guard.Policy.Vocabulary.{
  ActionType, no_action, action_eq, action_value, action_class, always_allowed, value_exempt,
}
use revenue_guard.Policy.Candidate.{CandidateAction, init_candidate}
use revenue_guard.Policy.Snapshot.{allows, ends_with_no_action}

pub data ArtifactClassification : Type 0 where
  synthetic production : ArtifactClassification

-- A whole number for each of the names of `SCORING_FEATURE_NAMES`.
pub record Features (A : Type 0) : Type 0 where
  pub amount_bucket : A
  pub retry_count : A
  pub aggregate_contact_count : A
  pub diagnosis_confidence_decile : A
  pub active_systemic_incident : A
  pub hour_bucket : A
  pub day_of_month_bucket : A

-- The biases are mappings that are read by `get(key, 0)`, as functions.
pub record LogisticScoringArtifact : Type 0 where
  pub model_version : String
  pub feature_version : String
  pub classification : ArtifactClassification
  pub intercept_millilogits : ℤ
  pub feature_weights_millilogits : Features ℤ
  pub action_bias_millilogits : ActionType → ℤ
  pub failure_category_bias_millilogits : String → ℤ

-- Mappings that are read by `get(action, 0)`.
pub record ActionEconomics : Type 0 where
  pub version : String
  pub action_cost_minor : ActionType → ℕ
  pub risk_penalty_minor : ActionType → ℕ
  pub customer_friction_penalty_minor : ActionType → ℕ

pub record RecoveryScoringContext : Type 0 where
  pub amount_minor : ℕ
  pub retry_count : ℕ
  pub aggregate_contact_count : ℕ
  pub diagnosis_confidence_basis_points : ℕ
  pub failure_category : String
  pub active_systemic_incident : Bool
  pub evaluated_at : Datetime

-- `RecoveryScoringContext.__post_init__`.
unfoldable pub init_context : RecoveryScoringContext → Result RecoveryScoringContext
init_context x = do
  raise_if (ltb 10000 x.diagnosis_confidence_basis_points)
      (value_error "diagnosis confidence must be between 0 and 10000")
  identifier "failure_category" x.failure_category 128
  at ← utc "evaluated_at" x.evaluated_at
  ok (record x { evaluated_at = at })

pub record RecoveryScoringResult : Type 0 where
  pub candidates : List CandidateAction
  pub model_version : String
  pub feature_version : String
  pub economics_version : String
  pub artifact_classification : ArtifactClassification
  pub fallback_reason : Option String

-- `_feature_values`; the context's time is in UTC.
unfoldable pub feature_values : RecoveryScoringContext → Features ℕ
feature_values x = record {
  amount_bucket = min (x.amount_minor / 10000) 100;
  retry_count = min x.retry_count 10;
  aggregate_contact_count = min x.aggregate_contact_count 10;
  diagnosis_confidence_decile = x.diagnosis_confidence_basis_points / 1000;
  active_systemic_incident = if x.active_systemic_incident then 1 else 0;
  hour_bucket = hour x.evaluated_at.instant / 6;
  day_of_month_bucket = (day_of_month x.evaluated_at.instant - 1) / 7;
}

-- `max(-20_000, min(20_000, n))`.
abbrev clamp : ℤ → ℤ
clamp n =
    if ltb_ℤ (pos 20000) n then pos 20000 else if ltb_ℤ n (negsuc 19999) then negsuc 19999 else n

-- The millilogits of `_probability_basis_points`.
unfoldable pub millilogits : LogisticScoringArtifact → ActionType → String → Features ℕ → ℤ
millilogits art a category v =
    let w = art.feature_weights_millilogits in
    clamp (
      art.intercept_millilogits
      +ℤ art.action_bias_millilogits a
      +ℤ art.failure_category_bias_millilogits category
      +ℤ scale w.amount_bucket v.amount_bucket
      +ℤ scale w.retry_count v.retry_count
      +ℤ scale w.aggregate_contact_count v.aggregate_contact_count
      +ℤ scale w.diagnosis_confidence_decile v.diagnosis_confidence_decile
      +ℤ scale w.active_systemic_incident v.active_systemic_incident
      +ℤ scale w.hour_bucket v.hour_bucket
      +ℤ scale w.day_of_month_bucket v.day_of_month_bucket)

-- The NO_ACTION candidate without any expectation.
abbrev pub cleared : CandidateAction → CandidateAction
cleared c = record c {
  recovery_probability_basis_points = 0;
  expected_net_recovery_minor = pos 0;
  action_cost_minor = 0;
  risk_penalty_minor = 0;
  customer_friction_penalty_minor = 0;
}

-- The sort key `(-net, -probability, action_type.value)`: `a` comes before `b`.
abbrev text_before : String → String → Bool
text_before s t = elim (compare s t) [ Ordering.lt ↦ true | _ ↦ false ]

unfoldable pub scores_better : CandidateAction → CandidateAction → Bool
scores_better a b =
    if ltb_ℤ b.expected_net_recovery_minor a.expected_net_recovery_minor
    then true
    else if ltb_ℤ a.expected_net_recovery_minor b.expected_net_recovery_minor
    then false
    else if ltb b.recovery_probability_basis_points a.recovery_probability_basis_points
    then true
    else if ltb a.recovery_probability_basis_points b.recovery_probability_basis_points
    then false
    else text_before (action_value a.action_type) (action_value b.action_type)

-- `scored.sort(...)`, which is stable.
unfoldable pub insert_scored : CandidateAction → List CandidateAction → List CandidateAction
unfolding scores_better
insert_scored a [] = a ∷ []
insert_scored a (b ∷ bs) =
    let rest = insert_scored a bs in if scores_better b a then b ∷ rest else a ∷ b ∷ bs

unfoldable pub sort_scored : List CandidateAction → List CandidateAction
unfolding insert_scored
sort_scored [] = []
sort_scored (a ∷ as') = insert_scored a (sort_scored as')

-- What the loop over the candidates collects.
pub record Scan : Type 0 where
  pub eligible_original_order : List CandidateAction
  pub scored : List CandidateAction
  pub fallback : Option CandidateAction

-- `candidate` where its class is exempt, and the next of the scored ones elsewhere.
unfoldable pub interleave :
    List CandidateAction → List CandidateAction → Result (List CandidateAction)
interleave [] scored = ok []
interleave (c ∷ cs) scored =
    if value_exempt (action_class c.action_type)
    then (interleave cs scored >>= λ rest. ok (c ∷ rest))
    else elim scored [
      | [] ↦ err stop_iteration
      | s ∷ ss ↦ interleave cs ss >>= λ rest. ok (s ∷ rest)
    ]

-- `if no_action is None: raise AssertionError(...)`.
abbrev pub needed : Option CandidateAction → Result CandidateAction
needed none = err (assertion_error "validated candidates must contain NO_ACTION")
needed (some c) = ok c

-- `replace(candidate, rank=index)` from an index on.
unfoldable pub number_from : ℕ → List CandidateAction → Result (List CandidateAction)
number_from n [] = ok []
number_from n (c ∷ cs) = do
  first ← init_candidate (record c { rank = n })
  rest ← number_from (n + 1) cs
  ok (first ∷ rest)

-- `logistic` is `1 / (1 + exp(-x / 1000))` in decimal arithmetic, rounded to basis points.
module _ (logistic : ℤ → ℕ) where
  -- `_probability_basis_points`.
  unfoldable pub probability_basis_points :
      LogisticScoringArtifact → ActionType → String → Features ℕ → ℕ
  unfolding millilogits
  probability_basis_points art a category v = logistic (millilogits art a category v)

  module _ (x : RecoveryScoringContext) (art : LogisticScoringArtifact) (econ : ActionEconomics)
      (allowed : List ActionType) where
    -- The candidate with its score.
    unfoldable pub score_candidate : CandidateAction → Result CandidateAction
    score_candidate c =
        let probability =
          probability_basis_points art c.action_type x.failure_category (feature_values x) in
        let cost = econ.action_cost_minor c.action_type in
        let risk = econ.risk_penalty_minor c.action_type in
        let friction = econ.customer_friction_penalty_minor c.action_type in
        init_candidate (record c {
          recovery_probability_basis_points = probability;
          expected_net_recovery_minor =
              sub_ℕ (probability * x.amount_minor / 10000) (cost + risk + friction);
          action_cost_minor = cost;
          risk_penalty_minor = risk;
          customer_friction_penalty_minor = friction;
        })

    -- The loop over the candidates; a later NO_ACTION replaces an earlier one.
    unfoldable pub scan_candidates : List CandidateAction → Result Scan
    scan_candidates [] = ok (record { eligible_original_order = []; scored = []; fallback = none })
    scan_candidates (c ∷ cs) =
        let rest = scan_candidates cs in
        let cls = action_class c.action_type in
        if action_eq c.action_type no_action
        then (do
          n ← init_candidate (cleared c)
          s ← rest
          ok (record s { fallback = elim s.fallback [ none ↦ some n | some later ↦ some later ] }))
        else if not (allows allowed c.action_type) && not (always_allowed cls)
        then rest
        else if value_exempt cls
        then (do
          s ← rest
          ok (record s { eligible_original_order = c ∷ s.eligible_original_order }))
        else (do
          scored ← score_candidate c
          s ← rest
          ok (record s {
            eligible_original_order = c ∷ s.eligible_original_order;
            scored = scored ∷ s.scored;
          }))

    -- `rank_candidates_by_expected_net_recovery`.
    unfoldable pub rank_candidates_by_expected_net_recovery :
        List CandidateAction → Result RecoveryScoringResult
    rank_candidates_by_expected_net_recovery cs = do
      raise_if (not (ends_with_no_action cs)) (value_error "candidate list must end with NO_ACTION")
      s ← scan_candidates cs
      fallback ← needed s.fallback
      ordered ← interleave s.eligible_original_order (sort_scored s.scored)
      ranked ← number_from 1 (ordered ++ fallback ∷ [])
      ok (record {
        candidates = ranked;
        model_version = art.model_version;
        feature_version = art.feature_version;
        economics_version = econ.version;
        artifact_classification = art.classification;
        fallback_reason = none;
      })
