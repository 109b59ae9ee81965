-- ===== src/Portfolio/Order.antt =====
-- The order in which the scored candidates are ranked.
use revenue_guard.Prelude.{
  ℕ, ◌+◌, ◌≡◌, refl, sym, ap, ap₂, ◌∙◌, subst, ◌⊎◌, inl, inr, true, false, not, ◌&&◌, List, [], ◌∷◌,
  ◌++◌, arith, All, Bool-cases,
}
use revenue_guard.Prelude.Int.{ℤ, ◌≤ℤ◌}
use revenue_guard.Fault.{ok, >>=-eq-ok, raise_if-eq-ok, ok-injective, Result-cases}
use revenue_guard.Policy.Vocabulary.{
  ActionType, no_action, action_eq, action_class, always_allowed, value_exempt,
}
use revenue_guard.Policy.Candidate.{CandidateAction, init_candidate}
use revenue_guard.Policy.Snapshot.{allows, ends_with_no_action}
use revenue_guard.Portfolio.{
  LogisticScoringArtifact, ActionEconomics, RecoveryScoringContext, RecoveryScoringResult,
  sort_scored, Scan, interleave, number_from, needed, score_candidate, scan_candidates,
  rank_candidates_by_expected_net_recovery,
}
use revenue_guard.Portfolio.Ranked.{
  init_candidate_same, scan_rest, needed_no_action, scan-KeepsNoAction,
}
use revenue_guard.Portfolio.Falling.{
  valued, valued_ones, WorthAtMost, Falling, IsValued, sort-All, sort-Falling,
}
use revenue_guard.Portfolio.Interleaved.{valued_ones-exempt, valued_ones-valued, interleave-Falling}

-- Numbering changes the ranks only.
abbrev pub worths : List CandidateAction → List ℤ
worths [] = []
worths (c ∷ cs) = c.expected_net_recovery_minor ∷ worths cs

same_worths :
    (d c : CandidateAction) (es cs : List CandidateAction)
    → d.action_type ≡ c.action_type
    → d.expected_net_recovery_minor ≡ c.expected_net_recovery_minor
    → worths (valued_ones es) ≡ worths (valued_ones cs)
    → worths (valued_ones (d ∷ es)) ≡ worths (valued_ones (c ∷ cs))
same_worths d c es cs kind net same = elim (Bool-cases (valued c)) [
  | inl v ↦
      ap worths (valued_ones-valued d es (ap (λ a. not (value_exempt (action_class a))) kind ∙ v))
      ∙ ap₂ (λ x xs. x ∷ xs) net same
      ∙ ap worths (sym (valued_ones-valued c cs v))
  | inr v ↦
      let exempt : value_exempt (action_class c.action_type) ≡ true = ground (arith, v) in
      ap worths (valued_ones-exempt d es (ap (λ a. value_exempt (action_class a)) kind ∙ exempt))
      ∙ same
      ∙ ap worths (sym (valued_ones-exempt c cs exempt))
]

number-worths :
    (n : ℕ) (cs ds : List CandidateAction)
    → number_from n cs ≡ ok ds
    → worths (valued_ones ds) ≡ worths (valued_ones cs)
unfolding number_from
number-worths n [] ds h = ap (λ l. worths (valued_ones l)) (sym (ok-injective h))
number-worths n (c ∷ cs) ds h =
    let (d, made, k) = >>=-eq-ok (init_candidate (record c { rank = n })) _ h in
    let (es, rest, e) = >>=-eq-ok (number_from (n + 1) cs) _ k in
    ap (λ l. worths (valued_ones l)) (sym (ok-injective e))
    ∙ ap (λ (y : CandidateAction). worths (valued_ones (y ∷ es)))
        (init_candidate_same (record c { rank = n }) d made)
    ∙ same_worths (record c { rank = n }) c es cs refl refl (number-worths (n + 1) cs es rest)

-- No amount is more than one before it.
abbrev pub Descending : List ℤ → Type 0
Descending [] = Unit
Descending (n ∷ ns) = All (λ m. m ≤ℤ n) ns × Descending ns

worths-All :
    (n : ℤ) (cs : List CandidateAction) → All (WorthAtMost n) cs → All (λ m. m ≤ℤ n) (worths cs)
worths-All n [] h = tt
worths-All n (c ∷ cs) h = (h.0, worths-All n cs h.1)

Falling-Descending : (cs : List CandidateAction) → Falling cs → Descending (worths cs)
Falling-Descending [] h = tt
Falling-Descending (c ∷ cs) h =
    (worths-All c.expected_net_recovery_minor cs h.0, Falling-Descending cs h.1)

valued_ones-last :
    (cs : List CandidateAction) (n : CandidateAction)
    → valued n ≡ false
    → valued_ones (cs ++ n ∷ []) ≡ valued_ones cs
valued_ones-last [] n h = rw (h, valued_ones)
valued_ones-last (c ∷ cs) n h = elim (Bool-cases (valued c)) [
  | inl v ↦
      valued_ones-valued c (cs ++ n ∷ []) v
      ∙ ap (λ l. c ∷ l) (valued_ones-last cs n h)
      ∙ sym (valued_ones-valued c cs v)
  | inr v ↦
      let exempt : value_exempt (action_class c.action_type) ≡ true = ground (arith, v) in
      valued_ones-exempt c (cs ++ n ∷ []) exempt
      ∙ valued_ones-last cs n h
      ∙ sym (valued_ones-exempt c cs exempt)
]

no_action-exempt :
    (a : ActionType) → action_eq a no_action ≡ true → not (value_exempt (action_class a)) ≡ false
no_action-exempt a h = ground arith

module _ (logistic : ℤ → ℕ) (x : RecoveryScoringContext) (art : LogisticScoringArtifact)
    (econ : ActionEconomics) (allowed : List ActionType) where
  score-kind :
      (c d : CandidateAction)
      → score_candidate logistic x art econ allowed c ≡ ok d
      → d.action_type ≡ c.action_type
  unfolding score_candidate
  score-kind c d h = ap (λ (y : CandidateAction). y.action_type) (init_candidate_same _ d h)

  -- Only candidates that have an expected value are scored.
  scored-IsValued :
      (c : CandidateAction) (cs : List CandidateAction) (s t : Scan)
      → scan_candidates logistic x art econ allowed (c ∷ cs) ≡ ok s
      → scan_candidates logistic x art econ allowed cs ≡ ok t
      → (s.scored ≡ t.scored) ⊎ ((d : CandidateAction) × IsValued d × (s.scored ≡ d ∷ t.scored))
  unfolding scan_candidates
  scored-IsValued c cs s t h m = elim (Bool-cases (value_exempt (action_class c.action_type))) [
    | inl exempt ↦ inl (ground (arith, exempt, m, h))
    | inr open_class ↦
        let real : action_eq c.action_type no_action ≡ false =
          elim (Bool-cases (action_eq c.action_type no_action)) [
            | inr other ↦ other
            | inl none_left ↦
                absurd (ground (arith, no_action-exempt c.action_type none_left, open_class))
          ] in
        let skipped =
          not (allows allowed c.action_type) && not (always_allowed (action_class c.action_type)) in
        elim (Bool-cases skipped) [
          | inl skips ↦ inl (ground (arith, real, skips, m, h))
          | inr eligible ↦ elim (Result-cases (score_candidate logistic x art econ allowed c)) [
            | inr (f, bad) ↦ absurd (ground (arith, real, eligible, open_class, bad, h))
            | inl (d, made) ↦ inr (
              d,
              ap (λ a. not (value_exempt (action_class a))) (score-kind c d made)
                  ∙ ap not open_class,
              ground (arith, real, eligible, open_class, made, m, h),
            )
          ]
        ]
  ]

  scan-IsValued :
      (cs : List CandidateAction) (s : Scan)
      → scan_candidates logistic x art econ allowed cs ≡ ok s
      → All IsValued s.scored
  unfolding scan_candidates
  scan-IsValued [] s h = subst (λ (r : Scan). All IsValued r.scored) (ok-injective h) tt
  scan-IsValued (c ∷ cs) s h =
      let (t, m) = scan_rest logistic x art econ allowed c cs s h in
      elim (scored-IsValued c cs s t h m) [
        | inl same ↦ subst (All IsValued) (sym same) (scan-IsValued cs t m)
        | inr (d, v, more) ↦ subst (All IsValued) (sym more) (v, scan-IsValued cs t m)
      ]

  -- Along the ranks no candidate that has an expected value is expected to recover more than one
  -- before it.
  pub rank_candidates-Descending :
      (cs : List CandidateAction) (r : RecoveryScoringResult)
      → rank_candidates_by_expected_net_recovery logistic x art econ allowed cs ≡ ok r
      → Descending (worths (valued_ones r.candidates))
  unfolding rank_candidates_by_expected_net_recovery
  rank_candidates-Descending cs r h =
      let (_, h0) = raise_if-eq-ok (not (ends_with_no_action cs)) _ _ h in
      let (s, scanned, h1) = >>=-eq-ok (scan_candidates logistic x art econ allowed cs) _ h0 in
      let (n, found, h2) = >>=-eq-ok (needed s.fallback) _ h1 in
      let (ordered, mixed, h3) =
        >>=-eq-ok (interleave s.eligible_original_order (sort_scored s.scored)) _ h2 in
      let (ranked, numbered, e) = >>=-eq-ok (number_from 1 (ordered ++ n ∷ [])) _ h3 in
      let falls =
        interleave-Falling s.eligible_original_order (sort_scored s.scored) ordered mixed
          (sort-All IsValued s.scored (scan-IsValued cs s scanned)) (sort-Falling s.scored) in
      let last = no_action-exempt n.action_type (
        needed_no_action s.fallback n found
          (scan-KeepsNoAction logistic x art econ allowed cs s scanned)) in
      subst (λ (q : RecoveryScoringResult). Descending (worths (valued_ones q.candidates)))
        (ok-injective e)
        (subst Descending
          (sym (
            number-worths 1 (ordered ++ n ∷ []) ranked numbered
            ∙ ap worths (valued_ones-last ordered n last)))
          (Falling-Descending (valued_ones ordered) falls))
