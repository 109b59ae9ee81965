-- ===== src/Policy/Decide.antt =====
-- `evaluate_policy` of policy.py: the candidates in the order of their ranks, until one is not skipped.
use Prim.Native.Nat.{Ordering}
use Prim.Native.String.{compare}
use revenue_guard.Prelude.{
  String, Bool, true, false, not, ◌&&◌, ◌||◌, Option, none, some, List, [], ◌∷◌, ◌++◌, ltb, ◌==◌,
  str_eq, str_mem, if◌then◌else◌,
}
use revenue_guard.Prelude.Int.{pos}
use revenue_guard.Fault.{Result, ok, err, value_error, assertion_error, ◌>>=◌}
use revenue_guard.Clock.{Datetime}
use revenue_guard.Cases.{CaseState, ready, deferred, decision_pending, stopped, escalated}
use revenue_guard.Policy.Vocabulary.{
  stop_automation, no_action, action_eq, action_value, PolicyResult, proceed, defer, skip, stop,
  require_human,
}
use revenue_guard.Policy.Candidate.{CandidateAction}
use revenue_guard.Policy.Snapshot.{Environment, MerchantPolicySnapshot, PolicyEvaluationInput}
use revenue_guard.Policy.Evaluate.{Verdict, evaluate_candidate}

pub record PolicyDecision : Type 0 where
  pub selected_action : CandidateAction
  pub result : PolicyResult
  pub reason_codes : List String
  pub resulting_state : CaseState
  pub next_evaluation_at : Option Datetime
  pub evaluated_candidates : List CandidateAction

-- `_state_for`.
abbrev pub state_for : PolicyResult → CaseState
state_for proceed = ready
state_for defer = deferred
state_for skip = decision_pending
state_for stop = stopped
state_for require_human = escalated

-- `_global_stop_reason`.
unfoldable pub global_stop_reason : PolicyEvaluationInput → Option String
global_stop_reason e =
    if e.terminal
    then some "CASE_ALREADY_TERMINAL"
    else if e.already_paid
    then some "ALREADY_PAID"
    else if e.disputed
    then some "PAYMENT_DISPUTED"
    else if e.cancelled
    then some "SUBJECT_CANCELLED"
    else none

-- `_unique`: `dict.fromkeys` keeps the first of equal texts. `seen` holds the texts before.
unfoldable pub unique_from : List String → List String → List String
unique_from seen [] = []
unique_from seen (x ∷ xs) =
    let rest = unique_from (x ∷ seen) xs in if str_mem x seen then rest else x ∷ rest

unfoldable pub unique : List String → List String
unfolding unique_from
unique xs = unique_from [] xs

-- The key `(rank, action_type.value)` of `a` is at most that of `b`.
abbrev text_le : String → String → Bool
text_le s t = elim (compare s t) [ Ordering.gt ↦ false | _ ↦ true ]

unfoldable pub key_le : CandidateAction → CandidateAction → Bool
key_le a b =
    ltb a.rank b.rank
    || ((a.rank == b.rank) && text_le (action_value a.action_type) (action_value b.action_type))

-- `sorted`, which is stable: an item goes before those that are not less.
unfoldable pub insert_sorted : CandidateAction → List CandidateAction → List CandidateAction
unfolding key_le
insert_sorted a [] = a ∷ []
insert_sorted a (b ∷ bs) = if key_le a b then a ∷ b ∷ bs else b ∷ insert_sorted a bs

unfoldable pub sorted : List CandidateAction → List CandidateAction
unfolding insert_sorted
sorted [] = []
sorted (a ∷ as') = insert_sorted a (sorted as')

abbrev pub is_skip : PolicyResult → Bool
is_skip skip = true
is_skip _ = false

abbrev pub skip_decision : CandidateAction → List String → List CandidateAction → PolicyDecision
skip_decision c reasons evaluated = record {
  selected_action = c;
  result = skip;
  reason_codes = unique (reasons ++ "NO_ELIGIBLE_ACTION" ∷ []);
  resulting_state = decision_pending;
  next_evaluation_at = none;
  evaluated_candidates = evaluated;
}

abbrev pub verdict_decision :
    CandidateAction → Verdict → List String → List CandidateAction → PolicyDecision
verdict_decision c v reasons evaluated = record {
  selected_action = c;
  result = v.result;
  reason_codes = unique (reasons ++ v.reason ∷ []);
  resulting_state = state_for v.result;
  next_evaluation_at = v.wake;
  evaluated_candidates = evaluated;
}

-- The loop of `evaluate_policy` over the sorted candidates: `reasons` are those of the candidates
-- skipped so far, and `evaluated` the candidates that were looked at.
unfoldable pub select_candidate :
    Environment
    → MerchantPolicySnapshot
    → PolicyEvaluationInput
    → List String
    → List CandidateAction
    → List CandidateAction
    → Result PolicyDecision
select_candidate env p e reasons evaluated [] =
    err (assertion_error "validated candidate list must contain NO_ACTION")
select_candidate env p e reasons evaluated (c ∷ cs) =
    let more = λ (reason : String).
      select_candidate env p e (reasons ++ reason ∷ []) (evaluated ++ c ∷ []) cs in
    if action_eq c.action_type no_action
    then ok (skip_decision c reasons (evaluated ++ c ∷ []))
    else (do
      v ← evaluate_candidate env p e c
      if is_skip v.result
          then more v.reason
          else ok (verdict_decision c v reasons (evaluated ++ c ∷ [])))

-- The candidate that stands for a stop.
abbrev pub stop_candidate : PolicyEvaluationInput → CandidateAction
stop_candidate e = record {
  action_type = stop_automation;
  recovery_probability_basis_points = 0;
  expected_net_recovery_minor = pos 0;
  rank = 1;
  target = e.case_id;
  logical_attempt = 1;
  channel = none;
  action_cost_minor = 0;
  risk_penalty_minor = 0;
  customer_friction_penalty_minor = 0;
}

abbrev pub stop_decision : PolicyEvaluationInput → String → PolicyDecision
stop_decision e reason = record {
  selected_action = stop_candidate e;
  result = stop;
  reason_codes = reason ∷ [];
  resulting_state = stopped;
  next_evaluation_at = none;
  evaluated_candidates = stop_candidate e ∷ [];
}

-- `evaluate_policy`.
unfoldable pub evaluate_policy :
    Environment → MerchantPolicySnapshot → PolicyEvaluationInput → Result PolicyDecision
evaluate_policy env p e =
    if ltb e.evaluated_at.instant p.effective_at.instant
    then err (value_error "policy is not yet effective")
    else if not (str_eq p.currency e.currency)
    then ok (stop_decision e "POLICY_CURRENCY_MISMATCH")
    else elim (global_stop_reason e) [
      | some reason ↦ ok (stop_decision e reason)
      | none ↦ select_candidate env p e [] [] (sorted e.candidates)
    ]
