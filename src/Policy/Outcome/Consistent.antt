-- ===== src/Policy/Outcome/Consistent.antt =====
-- A decision of `evaluate_policy` agrees with itself, with the case it is for and with the ranks.
use revenue_guard.Prelude.{
  String, ◌≡◌, refl, sym, ◌∙◌, subst, true, none, List, [], ◌∷◌, ◌++◌, map, arith, all_distinct,
  str_mem,
}
use revenue_guard.Fault.{ok}
use revenue_guard.Clock.{utc, utc_opt}
use revenue_guard.Cases.{policy_check, can_transition}
use revenue_guard.Policy.Vocabulary.{PolicyResult, proceed, defer, skip, stop, require_human}
use revenue_guard.Policy.Candidate.{CandidateAction}
use revenue_guard.Policy.Snapshot.{
  Environment, MerchantPolicySnapshot, PolicyEvaluationInput, ranked_from, init_evaluation,
}
use revenue_guard.Policy.Evaluate.{Verdict}
use revenue_guard.Policy.Decide.{
  PolicyDecision, state_for, global_stop_reason, stop_decision, verdict_decision, evaluate_policy,
}
use revenue_guard.Policy.Selection.{Chosen}
use revenue_guard.Policy.Selection.Order.{ranked-sorted}
use revenue_guard.Policy.Outcome.{
  Decided, wrong_currency, halted, selected, evaluate_policy-Decided,
}
use revenue_guard.Policy.Outcome.Reasons.{unique-distinct, unique-mem, mem_last}

-- The state goes with the result and is one that the case may move to, and the reasons are named
-- once each, with at least one.
pub record IsConsistent (d : PolicyDecision) : Type 0 where
  pub state_of_result : d.resulting_state ≡ state_for d.result
  pub permitted : can_transition policy_check d.resulting_state ≡ true
  pub reasons_distinct : all_distinct d.reason_codes ≡ true
  pub reason_given : (reason : String) × (str_mem reason d.reason_codes ≡ true)
  pub action_evaluated :
      (before : List CandidateAction) × (d.evaluated_candidates ≡ before ++ d.selected_action ∷ [])

state_for-permitted : (r : PolicyResult) → can_transition policy_check (state_for r) ≡ true
unfolding can_transition
state_for-permitted proceed = refl
state_for-permitted defer = refl
state_for-permitted skip = refl
state_for-permitted stop = refl
state_for-permitted require_human = refl

verdict-IsConsistent :
    (c : CandidateAction) (v : Verdict) (reasons : List String) (before : List CandidateAction)
    → IsConsistent (verdict_decision c v reasons (before ++ c ∷ []))
verdict-IsConsistent c v reasons before = record {
  state_of_result = refl;
  permitted = state_for-permitted v.result;
  reasons_distinct = unique-distinct (reasons ++ v.reason ∷ []);
  reason_given = (v.reason, unique-mem v.reason _ ∙ mem_last v.reason reasons);
  action_evaluated = (before, refl);
}

stop-IsConsistent :
    (e : PolicyEvaluationInput) (reason : String) → IsConsistent (stop_decision e reason)
stop-IsConsistent e reason = record {
  state_of_result = refl;
  permitted = state_for-permitted stop;
  reasons_distinct = refl;
  reason_given = (reason, mem_last reason []);
  action_evaluated = ([], refl);
}

-- Every decision is consistent: its state is the one of its result and can follow POLICY_CHECK, its
-- reason codes are distinct and not empty, and its action is the last one that was evaluated.
pub evaluate_policy-IsConsistent :
    (env : Environment) (p : MerchantPolicySnapshot) (e : PolicyEvaluationInput)
    (d : PolicyDecision)
    → evaluate_policy env p e ≡ ok d
    → IsConsistent d
evaluate_policy-IsConsistent env p e d h = by_origin (evaluate_policy-Decided env p e d h).1
  where
    by_origin : Decided env p e d → IsConsistent d
    by_origin (wrong_currency other made) =
        subst IsConsistent (sym made) (stop-IsConsistent e "POLICY_CURRENCY_MISMATCH")
    by_origin (halted reason found made) =
        subst IsConsistent (sym made) (stop-IsConsistent e reason)
    by_origin (selected same clear c) = subst IsConsistent (sym c.made) (
        verdict-IsConsistent c.chosen c.verdict (map (λ s. s.1) c.skipped)
          (map (λ s. s.0) c.skipped))

validated_ranks :
    (raw e : PolicyEvaluationInput) → init_evaluation raw ≡ ok e → ranked_from 1 e.candidates ≡ true
unfolding init_evaluation utc utc_opt
validated_ranks raw e h = ground arith

-- Where the currencies agree and nothing stops the case, the decision is made for the first candidate
-- of a validated input, as ranked, that is not skipped, or for NO_ACTION; all before it were skipped.
pub evaluate_policy-Chosen :
    (env : Environment) (p : MerchantPolicySnapshot) (raw e : PolicyEvaluationInput)
    (d : PolicyDecision)
    → init_evaluation raw ≡ ok e
    → p.currency ≡ e.currency
    → global_stop_reason e ≡ none
    → evaluate_policy env p e ≡ ok d
    → Chosen env p e [] [] e.candidates d
evaluate_policy-Chosen env p raw e d he same clear h =
    by_origin (evaluate_policy-Decided env p e d h).1
  where
    by_origin : Decided env p e d → Chosen env p e [] [] e.candidates d
    by_origin (wrong_currency other made) = absurd (other same)
    by_origin (halted reason found made) = absurd (cc (sym clear ∙ found))
    by_origin (selected _ _ c) =
        subst (λ cs. Chosen env p e [] [] cs d)
          (ranked-sorted 1 e.candidates (validated_ranks raw e he)) c
