-- ===== src/Policy/Examples.antt =====
-- Policy decisions at concrete inputs.
use revenue_guard.Prelude.{
  ℕ, ◌+◌, ◌*◌, ◌≤◌, ◌<◌, String, ◌≡◌, refl, subst, true, false, none, some, List, [], ◌∷◌, arith,
}
use revenue_guard.Prelude.Int.{pos}
use revenue_guard.Fault.{ok, ok-injective}
use revenue_guard.Clock.{at_utc, utc, utc_opt}
use revenue_guard.Clock.Calendar.{day_length}
use revenue_guard.Cases.{ready, deferred}
use revenue_guard.Policy.Vocabulary.{send_reminder, no_action, email, granted, proceed, defer}
use revenue_guard.Policy.Candidate.{CandidateAction}
use revenue_guard.Policy.Snapshot.{
  TimeZone, Environment, find_zone, MerchantPolicySnapshot, init_policy, PolicyEvaluationInput,
  init_evaluation,
}
use revenue_guard.Policy.Evaluate.{
  decided, in_quiet_hours, quiet_hours_end_at, permission_stage, contact_stage, channel_stage,
  consent_for, conflict_stage, first_end, confidence_stage, delay_stage, quiet_stage, final_stage,
  evaluate_candidate,
}
use revenue_guard.Policy.Decide.{
  PolicyDecision, global_stop_reason, unique, sorted, select_candidate, evaluate_policy,
}
use revenue_guard.Policy.Authorized.{Authorized}
use revenue_guard.Policy.Authorized.Sound.{proceed-Authorized}
use revenue_guard.Policy.Authorized.Complete.{Authorized-proceeds}
use revenue_guard.Policy.Selection.{Chosen}
use revenue_guard.Policy.Outcome.{proceed_needs}
use revenue_guard.Policy.Outcome.Consistent.{
  IsConsistent, evaluate_policy-IsConsistent, evaluate_policy-Chosen,
}
use revenue_guard.Policy.Outcome.Wake.Stages.{IsForward, Wakes}
use revenue_guard.Policy.Outcome.Wake.{evaluate_policy-Wakes}
use revenue_guard.Policy.QuietHours.{quiet_hours_end_first}

abbrev utc_clock : TimeZone
utc_clock = record { to_local = λ t. t; from_local = λ l. l }

abbrev one_hash : List ℕ → String
one_hash document = "0123456789abcdef0123456789abcdef0123456789abcdef0123456789abcdef"

abbrev world : Environment
world = record { sha256 = one_hash; zoneinfo = λ name. some utc_clock }

abbrev policy : MerchantPolicySnapshot
policy = record {
  version = "policy-1";
  effective_at = at_utc 0;
  allowed_actions = send_reminder ∷ [];
  retry_limit = 3;
  contact_limit = 2;
  minimum_expected_net_recovery_minor = 100;
  human_review_amount_minor = 50000;
  minimum_confidence_basis_points = 5000;
  default_defer_seconds = 3600;
  timezone = "UTC";
  quiet_hours_start = 22 * 3600000000;
  quiet_hours_end = 7 * 3600000000;
  currency = "INR";
  features_version = "features-1";
}

abbrev reminder : CandidateAction
reminder = record {
  action_type = send_reminder;
  recovery_probability_basis_points = 4000;
  expected_net_recovery_minor = pos 7000;
  rank = 1;
  target = "sub_1";
  logical_attempt = 1;
  channel = some email;
  action_cost_minor = 100;
  risk_penalty_minor = 75;
  customer_friction_penalty_minor = 200;
}

abbrev fallback : CandidateAction
fallback = record {
  action_type = no_action;
  recovery_probability_basis_points = 0;
  expected_net_recovery_minor = pos 0;
  rank = 2;
  target = "sub_1";
  logical_attempt = 1;
  channel = none;
  action_cost_minor = 0;
  risk_penalty_minor = 0;
  customer_friction_penalty_minor = 0;
}

-- A case at this time of the first day.
abbrev input : ℕ → PolicyEvaluationInput
input t = record {
  case_id = "case_1";
  amount_minor = 20000;
  currency = "INR";
  confidence_basis_points = 9000;
  retry_count = 0;
  contact_count = 0;
  evaluated_at = at_utc t;
  candidates = reminder ∷ fallback ∷ [];
  evidence_references = "evt_1" ∷ [];
  consent_by_channel = (email, granted) ∷ [];
  opted_out_channels = [];
  incidents = [];
  already_paid = false;
  disputed = false;
  cancelled = false;
  terminal = false;
  diagnosis_defer_until = none;
  approval = none;
  unknown_equivalent_action = false;
  customer_contact_in_progress = false;
  customer_identity_resolved = true;
  active_promise_to_pay = false;
  promise_due_at = none;
}

abbrev noon : PolicyEvaluationInput
noon = input (12 * 3600000000)

abbrev night : PolicyEvaluationInput
night = input (23 * 3600000000)

abbrev at_noon : PolicyDecision
at_noon = record {
  selected_action = reminder;
  result = proceed;
  reason_codes = "POLICY_AUTHORIZED" ∷ [];
  resulting_state = ready;
  next_evaluation_at = none;
  evaluated_candidates = reminder ∷ [];
}

-- The quiet hours end at seven of the next day.
abbrev at_night : PolicyDecision
at_night = record {
  selected_action = reminder;
  result = defer;
  reason_codes = "QUIET_HOURS" ∷ [];
  resulting_state = deferred;
  next_evaluation_at = some (at_utc (31 * 3600000000));
  evaluated_candidates = reminder ∷ [];
}

proceeds_at_noon :
    evaluate_candidate world policy noon reminder ≡ ok (decided proceed "POLICY_AUTHORIZED")
unfolding evaluate_candidate permission_stage contact_stage channel_stage consent_for conflict_stage
    first_end confidence_stage delay_stage quiet_stage in_quiet_hours final_stage
proceeds_at_noon = refl

noon_decided : evaluate_policy world policy noon ≡ ok at_noon
unfolding evaluate_policy global_stop_reason sorted select_candidate unique evaluate_candidate
    permission_stage contact_stage channel_stage consent_for conflict_stage first_end
    confidence_stage delay_stage quiet_stage in_quiet_hours final_stage
noon_decided = refl

night_decided : evaluate_policy world policy night ≡ ok at_night
unfolding evaluate_policy global_stop_reason sorted select_candidate unique evaluate_candidate
    permission_stage contact_stage channel_stage consent_for conflict_stage first_end
    confidence_stage delay_stage quiet_stage in_quiet_hours quiet_hours_end_at
night_decided = refl

policy_valid : init_policy world policy ≡ ok policy
unfolding init_policy utc
policy_valid = refl

noon_valid : init_evaluation noon ≡ ok noon
unfolding init_evaluation utc utc_opt
noon_valid = refl

night_valid : init_evaluation night ≡ ok night
unfolding init_evaluation utc utc_opt
night_valid = refl

nothing_stops : global_stop_reason noon ≡ none
unfolding global_stop_reason
nothing_stops = refl

night_is_quiet : in_quiet_hours utc_clock policy (23 * 3600000000) ≡ true
unfolding in_quiet_hours
night_is_quiet = refl

utc-IsForward : (z : TimeZone) → find_zone world policy.timezone ≡ ok z → IsForward z
utc-IsForward z found =
    subst (λ w. IsForward w) (ok-injective found) (record { later = λ t l h. h })

proceed-Authorized_example : Authorized world policy noon reminder
proceed-Authorized_example =
    proceed-Authorized world policy noon reminder (decided proceed "POLICY_AUTHORIZED")
      proceeds_at_noon refl

reminder-Authorized : Authorized world policy noon reminder
reminder-Authorized =
    proceed-Authorized world policy noon reminder (decided proceed "POLICY_AUTHORIZED")
      proceeds_at_noon refl

Authorized-proceeds_example :
    evaluate_candidate world policy noon reminder ≡ ok (decided proceed "POLICY_AUTHORIZED")
Authorized-proceeds_example = Authorized-proceeds world policy noon reminder reminder-Authorized

proceed_needs_example :
    Authorized world policy noon reminder
    × (policy.currency ≡ noon.currency)
    × (policy.effective_at.instant ≤ noon.evaluated_at.instant)
    × (global_stop_reason noon ≡ none)
proceed_needs_example = proceed_needs world policy noon at_noon noon_decided refl

evaluate_policy-Wakes_example : Wakes night defer (some (at_utc (31 * 3600000000)))
evaluate_policy-Wakes_example =
    evaluate_policy-Wakes world policy policy night night at_night policy_valid night_valid
      utc-IsForward night_decided

evaluate_policy-IsConsistent_example : IsConsistent at_noon
evaluate_policy-IsConsistent_example =
    evaluate_policy-IsConsistent world policy noon at_noon noon_decided

evaluate_policy-Chosen_example : Chosen world policy noon [] [] (reminder ∷ fallback ∷ []) at_noon
evaluate_policy-Chosen_example =
    evaluate_policy-Chosen world policy noon noon at_noon noon_valid refl nothing_stops noon_decided

quiet_hours_end_first_example :
    (in_quiet_hours utc_clock policy (quiet_hours_end_at utc_clock policy (23 * 3600000000))
      ≡ false)
    × (23 * 3600000000 < quiet_hours_end_at utc_clock policy (23 * 3600000000))
    × (quiet_hours_end_at utc_clock policy (23 * 3600000000) ≤ 23 * 3600000000 + day_length)
    × ((t : ℕ)
        → 23 * 3600000000 ≤ t
        → t < quiet_hours_end_at utc_clock policy (23 * 3600000000)
        → in_quiet_hours utc_clock policy t ≡ true)
quiet_hours_end_first_example =
    quiet_hours_end_first utc_clock policy (23 * 3600000000)
      (record { starts = omega arith; finishes = omega arith }) refl night_is_quiet
