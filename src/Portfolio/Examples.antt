-- ===== src/Portfolio/Examples.antt =====
-- Ranking at a concrete input.
use revenue_guard.Prelude.{ℕ, ◌≡◌, refl, All, arith, false, none, some, List, [], ◌∷◌}
use revenue_guard.Prelude.Int.{ℤ, pos}
use revenue_guard.Fault.{ok}
use revenue_guard.Clock.{at_utc}
use revenue_guard.Policy.Vocabulary.{
  ActionType, create_payment_link, send_reminder, no_action, email,
}
use revenue_guard.Policy.Candidate.{CandidateAction, init_candidate}
use revenue_guard.Portfolio.{
  synthetic, LogisticScoringArtifact, ActionEconomics, RecoveryScoringContext,
  RecoveryScoringResult, probability_basis_points, feature_values, score_candidate, scan_candidates,
  sort_scored, interleave, number_from, rank_candidates_by_expected_net_recovery,
}
use revenue_guard.Policy.Outcome.Total.{Returns}
use revenue_guard.Portfolio.Total.{rank_candidates-Returns}
use revenue_guard.Portfolio.Ranked.{Accepted, IsRanked, rank_candidates-IsRanked}
use revenue_guard.Portfolio.Falling.{valued_ones}
use revenue_guard.Portfolio.Order.{Descending, worths, rank_candidates-Descending}

abbrev even_chance : ℤ → ℕ
even_chance millilogits = 5000

abbrev context : RecoveryScoringContext
context = record {
  amount_minor = 10000;
  retry_count = 0;
  aggregate_contact_count = 0;
  diagnosis_confidence_basis_points = 9000;
  failure_category = "UNKNOWN";
  active_systemic_incident = false;
  evaluated_at = at_utc 0;
}

abbrev zero_weighted : LogisticScoringArtifact
zero_weighted = record {
  model_version = "model-1";
  feature_version = "features-1";
  classification = synthetic;
  intercept_millilogits = pos 0;
  feature_weights_millilogits = record {
    amount_bucket = pos 0;
    retry_count = pos 0;
    aggregate_contact_count = pos 0;
    diagnosis_confidence_decile = pos 0;
    active_systemic_incident = pos 0;
    hour_bucket = pos 0;
    day_of_month_bucket = pos 0;
  };
  action_bias_millilogits = λ a. pos 0;
  failure_category_bias_millilogits = λ name. pos 0;
}

abbrev reminder_cost : ActionType → ℕ
reminder_cost send_reminder = 100
reminder_cost _ = 75

abbrev economics : ActionEconomics
economics = record {
  version = "economics-1";
  action_cost_minor = reminder_cost;
  risk_penalty_minor = λ a. 0;
  customer_friction_penalty_minor = λ a. 0;
}

abbrev plain : CandidateAction
plain = record {
  action_type = no_action;
  recovery_probability_basis_points = 0;
  expected_net_recovery_minor = pos 0;
  rank = 3;
  target = "sub_1";
  logical_attempt = 1;
  channel = none;
  action_cost_minor = 0;
  risk_penalty_minor = 0;
  customer_friction_penalty_minor = 0;
}

abbrev reminder : CandidateAction
reminder = record plain { action_type = send_reminder; rank = 1; channel = some email }

abbrev link : CandidateAction
link = record plain { action_type = create_payment_link; rank = 2 }

-- The link costs less, so it comes first.
abbrev ranked : List CandidateAction
ranked =
    record link {
      rank = 1;
      recovery_probability_basis_points = 5000;
      expected_net_recovery_minor = pos 4925;
      action_cost_minor = 75;
    }
    ∷ record reminder {
      rank = 2;
      recovery_probability_basis_points = 5000;
      expected_net_recovery_minor = pos 4900;
      action_cost_minor = 100;
    }
    ∷ plain
    ∷ []

abbrev outcome : RecoveryScoringResult
outcome = record {
  candidates = ranked;
  model_version = "model-1";
  feature_version = "features-1";
  economics_version = "economics-1";
  artifact_classification = synthetic;
  fallback_reason = none;
}

link_first :
    rank_candidates_by_expected_net_recovery even_chance context zero_weighted economics
      (send_reminder ∷ create_payment_link ∷ [])
      (reminder ∷ link ∷ plain ∷ [])
    ≡ ok outcome
unfolding rank_candidates_by_expected_net_recovery scan_candidates score_candidate
    probability_basis_points feature_values init_candidate sort_scored interleave number_from
link_first = refl

rank_candidates-IsRanked_example : IsRanked ranked
rank_candidates-IsRanked_example =
    rank_candidates-IsRanked even_chance context zero_weighted economics
      (send_reminder ∷ create_payment_link ∷ []) (reminder ∷ link ∷ plain ∷ []) outcome link_first

rank_candidates-Descending_example : Descending (worths (valued_ones ranked))
rank_candidates-Descending_example =
    rank_candidates-Descending even_chance context zero_weighted economics
      (send_reminder ∷ create_payment_link ∷ []) (reminder ∷ link ∷ plain ∷ []) outcome link_first

valid_inputs : All Accepted (reminder ∷ link ∷ plain ∷ [])
unfolding init_candidate
valid_inputs = (refl, (refl, (refl, tt)))

rank_candidates-Returns_example : Returns (
    rank_candidates_by_expected_net_recovery even_chance context zero_weighted economics
      (send_reminder ∷ create_payment_link ∷ [])
      (reminder ∷ link ∷ plain ∷ []))
rank_candidates-Returns_example =
    rank_candidates-Returns even_chance (λ n. omega arith) context zero_weighted economics
      (send_reminder ∷ create_payment_link ∷ []) (reminder ∷ link ∷ plain ∷ []) valid_inputs refl
