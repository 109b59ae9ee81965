-- ===== src/Policy/Selection.antt =====
-- Which candidate `evaluate_policy` selects: the first, in the order of the ranks, that is not skipped.
pub mod Order
use mathlib.Core.List.{append-nil, append_assoc}
use revenue_guard.Prelude.{
  ℕ, String, ◌≡◌, refl, sym, ap, ap₂, ◌∙◌, ◌⊎◌, inl, inr, Bool, true, false, Option, none, some,
  List, [], ◌∷◌, ◌++◌, map, arith, All, Bool-cases, if◌then◌else◌,
}
use revenue_guard.Fault.{Result, ok, err, ◌>>=◌, >>=-eq-ok, ok-injective}
use revenue_guard.Clock.{Datetime}
use revenue_guard.Policy.Vocabulary.{no_action, action_eq, skip, PolicyResult}
use revenue_guard.Policy.Candidate.{CandidateAction}
use revenue_guard.Policy.Snapshot.{Environment, MerchantPolicySnapshot, PolicyEvaluationInput}
use revenue_guard.Policy.Evaluate.{Verdict, decided, evaluate_candidate}
use revenue_guard.Policy.Decide.{
  PolicyDecision, is_skip, skip_decision, verdict_decision, select_candidate,
}

is_skip→≡ : (r : PolicyResult) → is_skip r ≡ true → r ≡ skip
is_skip→≡ r h = ground arith

module _ (env : Environment) (p : MerchantPolicySnapshot) (e : PolicyEvaluationInput) where
  -- A candidate that is looked at and skipped, for this reason.
  abbrev pub SkippedFor : CandidateAction × String → Type 0
  SkippedFor s =
      (action_eq s.0.action_type no_action ≡ false)
      × (wake : Option Datetime) × (evaluate_candidate env p e s.0
          ≡ ok (record { result = skip; reason = s.1; wake = wake }))

  -- A candidate at which the search ends: NO_ACTION, or one that is not skipped.
  pub data Decides (c : CandidateAction) : Verdict → Type 0 where
    nothing_eligible :
        action_eq c.action_type no_action ≡ true → Decides c (decided skip "NO_ELIGIBLE_ACTION")
    not_skipped :
        {v : Verdict}
        → action_eq c.action_type no_action ≡ false
        → evaluate_candidate env p e c ≡ ok v
        → is_skip v.result ≡ false
        → Decides c v

  -- How a decision comes about from the candidates in their order, with the reasons and the
  -- candidates from before.
  pub record Chosen (reasons : List String) (evaluated candidates : List CandidateAction)
      (d : PolicyDecision) : Type 0 where
    pub skipped : List (CandidateAction × String)
    pub chosen : CandidateAction
    pub rest : List CandidateAction
    pub verdict : Verdict
    pub split : candidates ≡ map (λ s. s.0) skipped ++ chosen ∷ rest
    pub all_skipped : All SkippedFor skipped
    pub decides : Decides chosen verdict
    pub made :
        d
        ≡ verdict_decision chosen verdict
            (reasons ++ map (λ s. s.1) skipped)
            (evaluated ++ (map (λ s. s.0) skipped ++ chosen ∷ []))

  no_candidates :
      (reasons : List String) (evaluated : List CandidateAction) (d : PolicyDecision)
      → select_candidate env p e reasons evaluated [] ≡ ok d
      → ⊥
  unfolding select_candidate
  no_candidates reasons evaluated d h = cc

  Chosen-first :
      (reasons : List String) (evaluated : List CandidateAction) (c : CandidateAction)
      (cs : List CandidateAction) (v : Verdict) {d : PolicyDecision}
      → Decides c v
      → verdict_decision c v reasons (evaluated ++ c ∷ []) ≡ d
      → Chosen reasons evaluated (c ∷ cs) d
  Chosen-first reasons evaluated c cs v h k = record {
    skipped = [];
    chosen = c;
    rest = cs;
    verdict = v;
    split = refl;
    all_skipped = tt;
    decides = h;
    made =
        sym k ∙ ap (λ r. verdict_decision c v r (evaluated ++ c ∷ [])) (sym (append-nil reasons));
  }

  Chosen-later :
      (reasons : List String) (evaluated : List CandidateAction) (c : CandidateAction)
      (cs : List CandidateAction) (reason : String) (d : PolicyDecision)
      → SkippedFor (c, reason)
      → Chosen (reasons ++ reason ∷ []) (evaluated ++ c ∷ []) cs d
      → Chosen reasons evaluated (c ∷ cs) d
  Chosen-later reasons evaluated c cs reason d s k = record {
    skipped = (c, reason) ∷ k.skipped;
    chosen = k.chosen;
    rest = k.rest;
    verdict = k.verdict;
    split = ap (λ l. c ∷ l) k.split;
    all_skipped = (s, k.all_skipped);
    decides = k.decides;
    made =
        k.made
        ∙ ap₂ (verdict_decision k.chosen k.verdict)
            (append_assoc reasons (reason ∷ []) (map (λ s'. s'.1) k.skipped))
            (append_assoc evaluated (c ∷ []) (map (λ s'. s'.0) k.skipped ++ k.chosen ∷ []));
  }

  -- One round of the loop, at NO_ACTION and at any other candidate.
  pub select-no_action :
      (reasons : List String) (evaluated cs : List CandidateAction) (c : CandidateAction)
      → action_eq c.action_type no_action ≡ true
      → select_candidate env p e reasons evaluated (c ∷ cs)
        ≡ ok (skip_decision c reasons (evaluated ++ c ∷ []))
  unfolding select_candidate
  select-no_action reasons evaluated cs c h = rw h

  pub select-other :
      (reasons : List String) (evaluated cs : List CandidateAction) (c : CandidateAction)
      → action_eq c.action_type no_action ≡ false
      → select_candidate env p e reasons evaluated (c ∷ cs) ≡ (
          evaluate_candidate env p e c >>= λ v.
          if is_skip v.result
          then select_candidate env p e (reasons ++ v.reason ∷ []) (evaluated ++ c ∷ []) cs
          else ok (verdict_decision c v reasons (evaluated ++ c ∷ [])))
  unfolding select_candidate
  select-other reasons evaluated cs c h = rw h

  -- A decision that the loop returns has come about in that way.
  pub select_candidate-Chosen :
      (reasons : List String) (evaluated cs : List CandidateAction) (d : PolicyDecision)
      → select_candidate env p e reasons evaluated cs ≡ ok d
      → Chosen reasons evaluated cs d
  select_candidate-Chosen reasons evaluated [] d h = absurd (no_candidates reasons evaluated d h)
  select_candidate-Chosen reasons evaluated (c ∷ cs) d h =
      elim (Bool-cases (action_eq c.action_type no_action)) [
        | inl none_left ↦
            Chosen-first reasons evaluated c cs (decided skip "NO_ELIGIBLE_ACTION")
              (nothing_eligible none_left)
              (ok-injective (sym (select-no_action reasons evaluated cs c none_left) ∙ h))
        | inr real ↦
            let (v, found, more) =
              >>=-eq-ok (evaluate_candidate env p e c) _
                (sym (select-other reasons evaluated cs c real) ∙ h) in
            elim (Bool-cases (is_skip v.result)) [
              | inl skips ↦
                  let q = is_skip→≡ v.result skips in
                  Chosen-later reasons evaluated c cs v.reason d
                    (real, v.wake, found ∙ λ i. ok (record v { result = q i }))
                    (select_candidate-Chosen (reasons ++ v.reason ∷ []) (evaluated ++ c ∷ []) cs d
                      (rw skips at more))
              | inr keeps ↦
                  Chosen-first reasons evaluated c cs v (not_skipped real found keeps)
                    (ok-injective (rw keeps at more))
            ]
      ]
