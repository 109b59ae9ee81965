-- ===== src/Portfolio/Ranked.antt =====
-- The candidates that `rank_candidates_by_expected_net_recovery` returns.
use revenue_guard.Prelude.{
  ℕ, suc, ◌+◌, ◌≤◌, ◌≡◌, refl, sym, ap, ◌∙◌, subst, ◌⊎◌, inl, inr, true, not, Option, none, some,
  List, [], ◌∷◌, ◌++◌, arith, All, Bool-cases, Option-cases, length,
}
use revenue_guard.Prelude.Int.{ℤ}
use revenue_guard.Fault.{ok, >>=-eq-ok, raise_if-eq-ok, ok-injective, Result-cases}
use revenue_guard.Policy.Vocabulary.{ActionType, no_action, action_eq}
use revenue_guard.Policy.Candidate.{CandidateAction, init_candidate}
use revenue_guard.Policy.Snapshot.{ranked_from, ends_with_no_action}
use revenue_guard.Portfolio.{
  LogisticScoringArtifact, ActionEconomics, RecoveryScoringContext, RecoveryScoringResult, cleared,
  sort_scored, Scan, interleave, number_from, needed, scan_candidates,
  rank_candidates_by_expected_net_recovery,
}

pub init_candidate_same : (c d : CandidateAction) → init_candidate c ≡ ok d → d ≡ c
unfolding init_candidate
init_candidate_same c d h = ground arith

abbrev pub Accepted : CandidateAction → Type 0
Accepted c = init_candidate c ≡ ok c

-- What `evaluate_policy` asks of the candidates of its input.
pub record IsRanked (cs : List CandidateAction) : Type 0 where
  pub contiguous : ranked_from 1 cs ≡ true
  pub ends : ends_with_no_action cs ≡ true
  pub accepted : All Accepted cs

pub numbered-Accepted :
    (n : ℕ) (c d : CandidateAction)
    → init_candidate (record c { rank = n }) ≡ ok d
    → Accepted d × (d.rank ≡ n) × (d.action_type ≡ c.action_type)
numbered-Accepted n c d h =
    let same = init_candidate_same (record c { rank = n }) d h in
    (
      subst (λ x. init_candidate x ≡ ok d) (sym same) h,
      ap (λ (x : CandidateAction). x.rank) same,
      ap (λ (x : CandidateAction). x.action_type) same,
    )

number_from-Accepted :
    (n : ℕ) (cs ds : List CandidateAction)
    → number_from n cs ≡ ok ds
    → All Accepted ds × (ranked_from n ds ≡ true) × (length ds ≡ length cs)
unfolding number_from
number_from-Accepted n [] ds h =
    subst (λ l. All Accepted l × (ranked_from n l ≡ true) × (length l ≡ 0)) (ok-injective h)
      (tt, refl, refl)
number_from-Accepted n (c ∷ cs) ds h =
    let (d, made, k) = >>=-eq-ok (init_candidate (record c { rank = n })) _ h in
    let (es, rest, e) = >>=-eq-ok (number_from (n + 1) cs) _ k in
    let (valid, rank, kind) = numbered-Accepted n c d made in
    let (all, ranks, long) = number_from-Accepted (n + 1) cs es rest in
    subst (λ l. All Accepted l × (ranked_from n l ≡ true) × (length l ≡ suc (length cs)))
      (ok-injective e) ((valid, all), ground (arith, rank, ranks), ap (λ k'. suc k') long)

ends_later :
    (c : CandidateAction) (cs : List CandidateAction)
    → 1 ≤ length cs
    → ends_with_no_action (c ∷ cs) ≡ ends_with_no_action cs
ends_later c [] h = absurd (omega (arith, h))
ends_later c (d ∷ cs) h = refl

ends_at_last :
    (cs : List CandidateAction) (c : CandidateAction)
    → ends_with_no_action (cs ++ c ∷ []) ≡ action_eq c.action_type no_action
ends_at_last [] c = refl
ends_at_last (d ∷ []) c = refl
ends_at_last (d ∷ e ∷ cs) c = ends_at_last (e ∷ cs) c

number_from-ends :
    (n : ℕ) (cs ds : List CandidateAction)
    → number_from n cs ≡ ok ds
    → ends_with_no_action ds ≡ ends_with_no_action cs
unfolding number_from
number_from-ends n [] ds h = ap ends_with_no_action (sym (ok-injective h))
number_from-ends n (c ∷ cs) ds h =
    let (d, made, k) = >>=-eq-ok (init_candidate (record c { rank = n })) _ h in
    let (es, rest, e) = >>=-eq-ok (number_from (n + 1) cs) _ k in
    let (valid, rank, kind) = numbered-Accepted n c d made in
    let (all, ranks, long) = number_from-Accepted (n + 1) cs es rest in
    sym (ap ends_with_no_action (ok-injective e))
    ∙ same_end c d cs es kind long (number_from-ends (n + 1) cs es rest)
  where
    same_end :
        (c d : CandidateAction) (cs es : List CandidateAction)
        → d.action_type ≡ c.action_type
        → length es ≡ length cs
        → ends_with_no_action es ≡ ends_with_no_action cs
        → ends_with_no_action (d ∷ es) ≡ ends_with_no_action (c ∷ cs)
    same_end c d [] [] kind long same = ap (λ a. action_eq a no_action) kind
    same_end c d [] (e ∷ es) kind long same = absurd (omega (arith, long))
    same_end c d (c' ∷ cs) [] kind long same = absurd (omega (arith, long))
    same_end c d (c' ∷ cs) (e ∷ es) kind long same = same

-- The scan keeps a NO_ACTION candidate as its fallback.
abbrev pub KeepsNoAction : Option CandidateAction → Type 0
KeepsNoAction none = Unit
KeepsNoAction (some n) = action_eq n.action_type no_action ≡ true

pub needed_no_action :
    (o : Option CandidateAction) (n : CandidateAction)
    → needed o ≡ ok n
    → KeepsNoAction o
    → action_eq n.action_type no_action ≡ true
needed_no_action none n found k = absurd (cc (found))
needed_no_action (some m) n found k =
    subst (λ (y : CandidateAction). action_eq y.action_type no_action ≡ true) (ok-injective found) k

module _ (logistic : ℤ → ℕ) (x : RecoveryScoringContext) (art : LogisticScoringArtifact)
    (econ : ActionEconomics) (allowed : List ActionType) where
  pub scan_rest :
      (c : CandidateAction) (cs : List CandidateAction) (s : Scan)
      → scan_candidates logistic x art econ allowed (c ∷ cs) ≡ ok s
      → (t : Scan) × (scan_candidates logistic x art econ allowed cs ≡ ok t)
  unfolding scan_candidates
  scan_rest c cs s h = elim (Result-cases (scan_candidates logistic x art econ allowed cs)) [
    | inl found ↦ found
    | inr (f, m) ↦ absurd (ground (arith, m, h))
  ]

  -- What one round of the loop does to the fallback.
  scan-fallback :
      (c : CandidateAction) (cs : List CandidateAction) (s t : Scan)
      → scan_candidates logistic x art econ allowed (c ∷ cs) ≡ ok s
      → scan_candidates logistic x art econ allowed cs ≡ ok t
      → (s.fallback ≡ t.fallback)
        ⊎ ((action_eq c.action_type no_action ≡ true)
            × ((n : CandidateAction) × (init_candidate (cleared c) ≡ ok n) × (s.fallback ≡ some n)))
  unfolding scan_candidates
  scan-fallback c cs s t h m = elim (Bool-cases (action_eq c.action_type no_action)) [
    | inl none_left ↦
        let (n, made, k) =
          >>=-eq-ok (init_candidate (cleared c)) _ (rw (none_left, scan_candidates) at h) in
        elim (Option-cases t.fallback) [
          | inl absent ↦ inr (none_left, (n, made, ground (arith, absent, m, k)))
          | inr (later, there) ↦ inl (ground (arith, there, m, k))
        ]
    | inr other ↦ inl (ground (arith, other, m, h))
  ]

  pub scan-KeepsNoAction :
      (cs : List CandidateAction) (s : Scan)
      → scan_candidates logistic x art econ allowed cs ≡ ok s
      → KeepsNoAction s.fallback
  unfolding scan_candidates
  scan-KeepsNoAction [] s h = subst (λ (r : Scan). KeepsNoAction r.fallback) (ok-injective h) tt
  scan-KeepsNoAction (c ∷ cs) s h =
      let (t, m) = scan_rest c cs s h in
      elim (scan-fallback c cs s t h m) [
        | inl same ↦ subst KeepsNoAction (sym same) (scan-KeepsNoAction cs t m)
        | inr (none_left, (n, made, there)) ↦ subst KeepsNoAction (sym there) (
            ap (λ (y : CandidateAction). action_eq y.action_type no_action)
              (init_candidate_same (cleared c) n made)
            ∙ none_left)
      ]

  -- The candidates that come out are ranked as the policy's input wants them: numbered from one
  -- without gaps, with NO_ACTION at the end, and each of them valid.
  pub rank_candidates-IsRanked :
      (cs : List CandidateAction) (r : RecoveryScoringResult)
      → rank_candidates_by_expected_net_recovery logistic x art econ allowed cs ≡ ok r
      → IsRanked r.candidates
  unfolding rank_candidates_by_expected_net_recovery
  rank_candidates-IsRanked cs r h =
      let (_, h0) = raise_if-eq-ok (not (ends_with_no_action cs)) _ _ h in
      let (s, scanned, h1) = >>=-eq-ok (scan_candidates logistic x art econ allowed cs) _ h0 in
      let (n, found, h2) = >>=-eq-ok (needed s.fallback) _ h1 in
      let (ordered, _, h3) =
        >>=-eq-ok (interleave s.eligible_original_order (sort_scored s.scored)) _ h2 in
      let (ranked, numbered, e) = >>=-eq-ok (number_from 1 (ordered ++ n ∷ [])) _ h3 in
      let (all, ranks, _) = number_from-Accepted 1 (ordered ++ n ∷ []) ranked numbered in
      subst (λ (q : RecoveryScoringResult). IsRanked q.candidates) (ok-injective e)
        (record {
          contiguous = ranks;
          ends =
              number_from-ends 1 (ordered ++ n ∷ []) ranked numbered
              ∙ ends_at_last ordered n
              ∙ needed_no_action s.fallback n found (scan-KeepsNoAction cs s scanned);
          accepted = all;
        })
