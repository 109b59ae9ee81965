-- ===== src/Portfolio/Total.antt =====
-- The ranking returns: it never runs out of scored candidates.
use revenue_guard.Prelude.{
  ℕ, suc, ◌+◌, ◌≤◌, ◌≡◌, refl, sym, ap, ◌∙◌, subst, inl, inr, true, false, not, ◌&&◌, Option, none,
  some, List, [], ◌∷◌, ◌++◌, arith, All, All-append, Bool-cases, Option-cases, length,
  if◌then◌else◌, is_some,
}
use revenue_guard.Prelude.Int.{ℤ}
use revenue_guard.Fault.{ok, ◌>>=◌}
use revenue_guard.Policy.Vocabulary.{
  ActionType, no_action, action_eq, action_class, always_allowed, value_exempt,
}
use revenue_guard.Policy.Candidate.{CandidateAction, init_candidate}
use revenue_guard.Policy.Snapshot.{allows, ends_with_no_action}
use revenue_guard.Policy.Outcome.Total.{Returns, Returns-unless}
use revenue_guard.Portfolio.{
  LogisticScoringArtifact, ActionEconomics, RecoveryScoringContext, cleared, insert_scored,
  sort_scored, Scan, interleave, number_from, feature_values, Features, probability_basis_points,
  score_candidate, scan_candidates, rank_candidates_by_expected_net_recovery,
}
use revenue_guard.Portfolio.Ranked.{Accepted, init_candidate_same}
use revenue_guard.Portfolio.Falling.{valued, sort-All}
use revenue_guard.Portfolio.Interleaved.{interleave-exempt, interleave-next}

abbrev count_valued : List CandidateAction → ℕ
count_valued [] = 0
count_valued (c ∷ cs) = let rest = count_valued cs in if valued c then suc rest else rest

length-insert :
    (a : CandidateAction) (bs : List CandidateAction)
    → length (insert_scored a bs) ≡ suc (length bs)
unfolding insert_scored
length-insert a [] = refl
length-insert a (b ∷ bs) = ground (arith, length-insert a bs)

length-sort : (cs : List CandidateAction) → length (sort_scored cs) ≡ length cs
unfolding sort_scored
length-sort [] = refl
length-sort (c ∷ cs) = length-insert c (sort_scored cs) ∙ ap (λ n. suc n) (length-sort cs)

interleave_nothing : (ss : List CandidateAction) → interleave [] ss ≡ ok []
unfolding interleave
interleave_nothing ss = refl

interleave-Returns :
    (cs ss : List CandidateAction)
    → count_valued cs ≡ length ss
    → All Accepted cs
    → All Accepted ss
    → (os : List CandidateAction) × (interleave cs ss ≡ ok os) × All Accepted os
interleave-Returns [] ss h k l = ([], interleave_nothing ss, tt)
interleave-Returns (c ∷ cs) [] h k l =
    elim (Bool-cases (value_exempt (action_class c.action_type))) [
      | inr open_class ↦ absurd (ground (arith, open_class, h))
      | inl exempt ↦
          let (os, made, all) = interleave-Returns cs [] (ground (arith, exempt, h)) k.1 l in
          (
            c ∷ os,
            interleave-exempt c cs [] exempt ∙ ap (λ r. r >>= λ rest. ok (c ∷ rest)) made,
            (k.0, all),
          )
    ]
interleave-Returns (c ∷ cs) (s ∷ ss) h k l =
    elim (Bool-cases (value_exempt (action_class c.action_type))) [
      | inr open_class ↦
          let (os, made, all) = interleave-Returns cs ss (ground (arith, open_class, h)) k.1 l.1 in
          (
            s ∷ os,
            interleave-next c s cs ss open_class ∙ ap (λ r. r >>= λ rest. ok (s ∷ rest)) made,
            (l.0, all),
          )
      | inl exempt ↦
          let (os, made, all) = interleave-Returns cs (s ∷ ss) (ground (arith, exempt, h)) k.1 l in
          (
            c ∷ os,
            interleave-exempt c cs (s ∷ ss) exempt ∙ ap (λ r. r >>= λ rest. ok (c ∷ rest)) made,
            (k.0, all),
          )
    ]

numbered :
    (n : ℕ) (c : CandidateAction)
    → Accepted c
    → init_candidate (record c { rank = n + 1 }) ≡ ok (record c { rank = n + 1 })
unfolding init_candidate
numbered n c h = ground arith

cleared-Accepted : (c : CandidateAction) → Accepted c → init_candidate (cleared c) ≡ ok (cleared c)
unfolding init_candidate
cleared-Accepted c h = ground arith

number-Returns :
    (n : ℕ) (cs : List CandidateAction) → All Accepted cs → Returns (number_from (n + 1) cs)
unfolding number_from
number-Returns n [] h = ([], refl)
number-Returns n (c ∷ cs) h =
    let (ds, more) = number-Returns (n + 1) cs h.1 in
    (record c { rank = n + 1 } ∷ ds, rw (numbered n c h.0, more))

abbrev AcceptedOpt : Option CandidateAction → Type 0
AcceptedOpt none = Unit
AcceptedOpt (some n) = Accepted n

-- What the scan hands on: one scored candidate for each eligible one that has an expected value.
record IsBalanced (s : Scan) : Type 0 where
  counted : count_valued s.eligible_original_order ≡ length s.scored
  eligible_accepted : All Accepted s.eligible_original_order
  scored_accepted : All Accepted s.scored
  fallback_accepted : AcceptedOpt s.fallback

later_or_this :
    (o : Option CandidateAction) (n : CandidateAction)
    → Accepted n
    → AcceptedOpt o
    → AcceptedOpt (elim o [ none ↦ some n | some later ↦ some later ])
later_or_this none n h k = h
later_or_this (some later) n h k = k

ends_there :
    (c : CandidateAction) (cs : List CandidateAction)
    → action_eq c.action_type no_action ≡ false
    → ends_with_no_action (c ∷ cs) ≡ true
    → ends_with_no_action cs ≡ true
ends_there c [] h k = absurd (cc (sym h ∙ k))
ends_there c (d ∷ cs) h k = k

module _ (logistic : ℤ → ℕ) (bounded : (n : ℤ) → logistic n ≤ 10000) (x : RecoveryScoringContext)
    (art : LogisticScoringArtifact) (econ : ActionEconomics) (allowed : List ActionType) where
  probability-bounded :
      (a : ActionType) (v : Features ℕ)
      → probability_basis_points logistic art a x.failure_category v ≤ 10000
  unfolding probability_basis_points
  probability-bounded a v = bounded _

  score-succeeds :
      (c : CandidateAction) → Accepted c → Returns (score_candidate logistic x art econ allowed c)
  unfolding score_candidate init_candidate
  score-succeeds c h =
      let b = probability-bounded c.action_type (feature_values x) in
      Returns-unless (score_candidate logistic x art econ allowed c) (λ f k. ground (arith, b))

  score-Accepted :
      (c d : CandidateAction) → score_candidate logistic x art econ allowed c ≡ ok d → Accepted d
  unfolding score_candidate
  score-Accepted c d made =
      let same = init_candidate_same _ d made in
      subst (λ y. init_candidate y ≡ ok d) (sym same) made

  scan-Returns :
      (cs : List CandidateAction)
      → All Accepted cs
      → (s : Scan) × (scan_candidates logistic x art econ allowed cs ≡ ok s)
        × IsBalanced s
        × (ends_with_no_action cs ≡ true → is_some s.fallback ≡ true)
  unfolding scan_candidates
  scan-Returns [] h = (
    record { eligible_original_order = []; scored = []; fallback = none },
    refl,
    record { counted = refl; eligible_accepted = tt; scored_accepted = tt; fallback_accepted = tt },
    λ k. absurd (cc),
  )
  scan-Returns (c ∷ cs) h =
      let (t, m, good, found) = scan-Returns cs h.1 in
      elim (Bool-cases (action_eq c.action_type no_action)) [
        | inl none_left ↦
            let n : CandidateAction = cleared c in
            let fallback : Option CandidateAction = elim (t.fallback) [
              | none ↦ some n
              | some later ↦ some later
            ] in
            (
              record t { fallback = fallback },
              ground (arith, none_left, m, cleared-Accepted c h.0),
              record {
                counted = good.counted;
                eligible_accepted = good.eligible_accepted;
                scored_accepted = good.scored_accepted;
                fallback_accepted =
                    later_or_this t.fallback n (cleared-Accepted c h.0) good.fallback_accepted;
              },
              λ k. ground arith,
            )
        | inr other ↦
            elim (Bool-cases (
              not (allows allowed c.action_type)
              && not (always_allowed (action_class c.action_type)))) [
                | inl skips ↦
                    (t, ground (arith, other, skips, m), good, λ k. found (ends_there c cs other k))
                | inr eligible ↦ elim (Bool-cases (value_exempt (action_class c.action_type))) [
                  | inl exempt ↦ (
                    record t { eligible_original_order = c ∷ t.eligible_original_order },
                    ground (arith, other, eligible, exempt, m),
                    record {
                      counted = ground (arith, exempt, good.counted);
                      eligible_accepted = (h.0, good.eligible_accepted);
                      scored_accepted = good.scored_accepted;
                      fallback_accepted = good.fallback_accepted;
                    },
                    λ k. found (ends_there c cs other k),
                  )
                  | inr open_class ↦
                      let (d, made) = score-succeeds c h.0 in
                      (
                        record t {
                          eligible_original_order = c ∷ t.eligible_original_order;
                          scored = d ∷ t.scored;
                        },
                        ground (arith, other, eligible, open_class, made, m),
                        record {
                          counted = ground (arith, open_class, good.counted);
                          eligible_accepted = (h.0, good.eligible_accepted);
                          scored_accepted = (score-Accepted c d made, good.scored_accepted);
                          fallback_accepted = good.fallback_accepted;
                        },
                        λ k. found (ends_there c cs other k),
                      )
                ]
              ]
      ]

  ranking-Returns :
      (cs : List CandidateAction) (s : Scan)
      → scan_candidates logistic x art econ allowed cs ≡ ok s
      → IsBalanced s
      → ends_with_no_action cs ≡ true
      → is_some s.fallback ≡ true
      → Returns (rank_candidates_by_expected_net_recovery logistic x art econ allowed cs)
  unfolding rank_candidates_by_expected_net_recovery
  ranking-Returns cs s scanned good ends there = elim (Option-cases s.fallback) [
    | inl absent ↦ absurd (ground (arith, absent, there))
    | inr (n, found) ↦
        let (os, mixed, all) =
          interleave-Returns s.eligible_original_order (sort_scored s.scored)
            (good.counted ∙ sym (length-sort s.scored)) good.eligible_accepted
            (sort-All Accepted s.scored good.scored_accepted) in
        let last : Accepted n = subst AcceptedOpt found good.fallback_accepted in
        let (ranked, numbers) =
          number-Returns 0 (os ++ n ∷ []) (All-append Accepted os (n ∷ []) all (last, tt)) in
        (
          record {
            candidates = ranked;
            model_version = art.model_version;
            feature_version = art.feature_version;
            economics_version = econ.version;
            artifact_classification = art.classification;
            fallback_reason = none;
          },
          rw (ends, scanned, found, mixed, numbers),
        )
  ]

  -- The ranking of validated candidates that end with NO_ACTION returns: there is a scored candidate
  -- for each place, and no check fails. The logistic function gives at most 10000 basis points.
  pub rank_candidates-Returns :
      (cs : List CandidateAction)
      → All Accepted cs
      → ends_with_no_action cs ≡ true
      → Returns (rank_candidates_by_expected_net_recovery logistic x art econ allowed cs)
  rank_candidates-Returns cs h ends =
      let (s, scanned, good, found) = scan-Returns cs h in
      ranking-Returns cs s scanned good ends (found ends)
