-- ===== src/Policy/Outcome/Wake.antt =====
-- When a deferred case wakes up.
pub mod Stages
use revenue_guard.Prelude.{◌<◌, ◌≡◌, refl, sym, subst, true, none, some, arith, is_some}
use revenue_guard.Fault.{ok}
use revenue_guard.Clock.{utc, utc_opt}
use revenue_guard.Policy.Vocabulary.{defer}
use revenue_guard.Policy.Candidate.{CandidateAction}
use revenue_guard.Policy.Snapshot.{
  TimeZone, Environment, find_zone, MerchantPolicySnapshot, init_policy, PolicyEvaluationInput,
  init_evaluation,
}
use revenue_guard.Policy.Decide.{PolicyDecision, evaluate_policy}
use revenue_guard.Policy.Selection.{Decides, nothing_eligible, not_skipped}
use revenue_guard.Policy.Outcome.{
  Decided, wrong_currency, halted, selected, evaluate_policy-Decided,
}
use revenue_guard.Policy.Evaluate.{Verdict}
use revenue_guard.Policy.Outcome.Wake.Stages.{IsForward, Wakes, evaluate_candidate-Wakes}

module _ (env : Environment) (p : MerchantPolicySnapshot) (e : PolicyEvaluationInput)
    (waits : 0 < p.default_defer_seconds)
    (due : e.active_promise_to_pay ≡ true → is_some e.promise_due_at ≡ true)
    (forward : (z : TimeZone) → find_zone env p.timezone ≡ ok z → IsForward z) where
  -- The wake-up time of a decision, by how it came about.
  Decided-Wakes : (d : PolicyDecision) → Decided env p e d → Wakes e d.result d.next_evaluation_at
  Decided-Wakes d (wrong_currency other made) =
      subst (λ (x : PolicyDecision). Wakes e x.result x.next_evaluation_at) (sym made)
        (record { deferred_later = λ k. absurd (cc); else_none = λ k. refl })
  Decided-Wakes d (halted reason found made) =
      subst (λ (x : PolicyDecision). Wakes e x.result x.next_evaluation_at) (sym made)
        (record { deferred_later = λ k. absurd (cc); else_none = λ k. refl })
  Decided-Wakes d (selected same clear c) =
      subst (λ (x : PolicyDecision). Wakes e x.result x.next_evaluation_at) (sym c.made)
        (of_verdict c.chosen c.verdict c.decides)
    where
      of_verdict :
          (a : CandidateAction) (v : Verdict) → Decides env p e a v → Wakes e v.result v.wake
      of_verdict a v (nothing_eligible none_left) = record {
        deferred_later = λ k. absurd (cc);
        else_none = λ k. refl;
      }
      of_verdict a v (not_skipped real found keeps) =
          evaluate_candidate-Wakes env p e waits due forward a v found

-- A validated input has the due time of an active promise.
validated_promise :
    (raw e : PolicyEvaluationInput)
    → init_evaluation raw ≡ ok e
    → e.active_promise_to_pay ≡ true
    → is_some e.promise_due_at ≡ true
unfolding init_evaluation utc utc_opt
validated_promise raw e h active = ground arith

-- A validated policy waits for some time.
validated_wait :
    (env : Environment) (raw p : MerchantPolicySnapshot)
    → init_policy env raw ≡ ok p
    → 0 < p.default_defer_seconds
unfolding init_policy utc
validated_wait env raw p h = ground arith

-- A decision to defer names a time to look again, which is still to come or is the due time of the
-- active promise; any other decision names none. The policy and the input are validated ones, and
-- the merchant's zone is one whose clock is never set back.
pub evaluate_policy-Wakes :
    (env : Environment) (raw_p p : MerchantPolicySnapshot) (raw_e e : PolicyEvaluationInput)
    (d : PolicyDecision)
    → init_policy env raw_p ≡ ok p
    → init_evaluation raw_e ≡ ok e
    → ((z : TimeZone) → find_zone env p.timezone ≡ ok z → IsForward z)
    → evaluate_policy env p e ≡ ok d
    → Wakes e d.result d.next_evaluation_at
evaluate_policy-Wakes env raw_p p raw_e e d hp he forward h =
    Decided-Wakes env p e (validated_wait env raw_p p hp) (validated_promise raw_e e he) forward d
      (evaluate_policy-Decided env p e d h).1
