-- ===== src/Policy/Outcome.antt =====
-- What `evaluate_policy` answers.
pub mod Wake
pub mod Reasons
pub mod Consistent
pub mod Total
use revenue_guard.Prelude.{
  ℕ, ◌+◌, ◌≤◌, ◌<◌, String, ◌≡◌, refl, sym, ap, ◌∙◌, subst, ◌≢◌, ◌↔◌, ◌⊎◌, inl, inr, Bool, true,
  false, not, ◌||◌, Option, none, some, List, [], ◌∷◌, ◌++◌, arith, Bool-cases, Option-cases,
  if◌then◌else◌, ltb, str_eq, str_mem, str_eq_iff, all_distinct,
}
use revenue_guard.Fault.{Result, ok, err, ok-injective}
use revenue_guard.Clock.{Datetime}
use revenue_guard.Cases.{CaseState, policy_check, can_transition, stopped}
use revenue_guard.Policy.Vocabulary.{no_action, action_eq, PolicyResult, proceed, skip, stop, defer}
use revenue_guard.Policy.Candidate.{CandidateAction}
use revenue_guard.Policy.Snapshot.{
  Environment, MerchantPolicySnapshot, PolicyEvaluationInput, ranked_from, init_evaluation,
}
use revenue_guard.Policy.Evaluate.{Verdict, evaluate_candidate}
use revenue_guard.Policy.Decide.{
  PolicyDecision, is_skip, state_for, global_stop_reason, unique, unique_from, sorted,
  select_candidate, stop_decision, verdict_decision, evaluate_policy,
}
use revenue_guard.Policy.Authorized.{Authorized}
use revenue_guard.Policy.Authorized.Sound.{proceed-Authorized}
use revenue_guard.Policy.Selection.{
  Chosen, Decides, nothing_eligible, not_skipped, select_candidate-Chosen,
}
use revenue_guard.Policy.Selection.Order.{ranked-sorted}

-- A decision is a stop before any candidate is looked at, or it was chosen among the candidates.
pub data Decided (env : Environment) (p : MerchantPolicySnapshot) (e : PolicyEvaluationInput)
    (d : PolicyDecision) : Type 0 where
  wrong_currency :
      p.currency ≢ e.currency → d ≡ stop_decision e "POLICY_CURRENCY_MISMATCH" → Decided env p e d
  halted :
      (reason : String)
      → global_stop_reason e ≡ some reason
      → d ≡ stop_decision e reason
      → Decided env p e d
  selected :
      p.currency ≡ e.currency
      → global_stop_reason e ≡ none
      → Chosen env p e [] [] (sorted e.candidates) d
      → Decided env p e d

pub evaluate_policy-Decided :
    (env : Environment) (p : MerchantPolicySnapshot) (e : PolicyEvaluationInput)
    (d : PolicyDecision)
    → evaluate_policy env p e ≡ ok d
    → (p.effective_at.instant ≤ e.evaluated_at.instant) × Decided env p e d
unfolding evaluate_policy
evaluate_policy-Decided env p e d h =
    elim (Bool-cases (ltb e.evaluated_at.instant p.effective_at.instant)) [
      | inl early ↦ absurd (ground (arith, early))
      | inr effective ↦ (
        ground (arith, effective),
        elim (Bool-cases (str_eq p.currency e.currency)) [
          | inr other ↦
              wrong_currency (ground (arith, str_eq_iff p.currency e.currency))
                (sym (ok-injective (rw (effective, other, evaluate_policy) at h)))
          | inl same ↦ elim (Option-cases (global_stop_reason e)) [
            | inr (reason, found) ↦
                halted reason found
                  (sym (ok-injective (rw (effective, same, found, evaluate_policy) at h)))
            | inl none_found ↦ selected ((str_eq_iff p.currency e.currency).0 same) none_found (
                select_candidate-Chosen env p e [] [] (sorted e.candidates) d
                  (rw (effective, same, none_found, evaluate_policy) at h))
          ]
        ],
      )
    ]

-- The decision for an action to proceed is made only for an authorized action, in the merchant's
-- currency, under a policy in effect, and for a case that nothing has settled.
pub proceed_needs :
    (env : Environment) (p : MerchantPolicySnapshot) (e : PolicyEvaluationInput)
    (d : PolicyDecision)
    → evaluate_policy env p e ≡ ok d
    → d.result ≡ proceed
    → Authorized env p e d.selected_action
      × (p.currency ≡ e.currency)
      × (p.effective_at.instant ≤ e.evaluated_at.instant)
      × (global_stop_reason e ≡ none)
proceed_needs env p e d h k =
    let (effective, how) = evaluate_policy-Decided env p e d h in proceeds how effective
  where
    chosen_proceeds :
        (c : CandidateAction) (v : Verdict) (r : List String) (x : List CandidateAction)
        → Decides env p e c v
        → d ≡ verdict_decision c v r x
        → Authorized env p e d.selected_action
    chosen_proceeds c v r x (nothing_eligible none_left) made =
        absurd (cc (k, ap (λ (y : PolicyDecision). y.result) made))
    chosen_proceeds c v r x (not_skipped real found keeps) made =
        subst (λ a. Authorized env p e a)
          (sym (ap (λ (y : PolicyDecision). y.selected_action) made))
          (proceed-Authorized env p e c v found
            (sym (ap (λ (y : PolicyDecision). y.result) made) ∙ k))

    proceeds :
        Decided env p e d
        → p.effective_at.instant ≤ e.evaluated_at.instant
        → Authorized env p e d.selected_action
          × (p.currency ≡ e.currency)
          × (p.effective_at.instant ≤ e.evaluated_at.instant)
          × (global_stop_reason e ≡ none)
    proceeds (wrong_currency other made) effective =
        absurd (cc (k, ap (λ (y : PolicyDecision). y.result) made))
    proceeds (halted reason found made) effective =
        absurd (cc (k, ap (λ (y : PolicyDecision). y.result) made))
    proceeds (selected same clear c) effective =
        (chosen_proceeds c.chosen c.verdict _ _ c.decides c.made, same, effective, clear)
