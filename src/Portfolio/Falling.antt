-- ===== src/Portfolio/Falling.antt =====
-- Sorting by score.
use revenue_guard.Prelude.{
  ◌≡◌, inl, inr, Bool, true, false, not, List, [], ◌∷◌, arith, All, Bool-cases, if◌then◌else◌,
}
use revenue_guard.Prelude.Int.{ℤ, ◌≤ℤ◌}
use revenue_guard.Policy.Vocabulary.{action_class, value_exempt}
use revenue_guard.Policy.Candidate.{CandidateAction}
use revenue_guard.Portfolio.{scores_better, insert_scored, sort_scored}

-- The candidates whose class has an expected value.
abbrev pub valued : CandidateAction → Bool
valued c = not (value_exempt (action_class c.action_type))

abbrev pub valued_ones : List CandidateAction → List CandidateAction
valued_ones [] = []
valued_ones (c ∷ cs) = let rest = valued_ones cs in if valued c then c ∷ rest else rest

abbrev pub WorthAtMost : ℤ → CandidateAction → Type 0
WorthAtMost net c = c.expected_net_recovery_minor ≤ℤ net

-- No candidate is expected to recover more than one before it.
abbrev pub Falling : List CandidateAction → Type 0
Falling [] = Unit
Falling (c ∷ cs) = All (WorthAtMost c.expected_net_recovery_minor) cs × Falling cs

abbrev pub IsValued : CandidateAction → Type 0
IsValued c = valued c ≡ true

pub better-WorthAtMost :
    (a b : CandidateAction) → scores_better b a ≡ true → WorthAtMost b.expected_net_recovery_minor a
unfolding scores_better
better-WorthAtMost a b h = ground arith

pub not_better-WorthAtMost :
    (a b : CandidateAction)
    → scores_better b a ≡ false
    → WorthAtMost a.expected_net_recovery_minor b
unfolding scores_better
not_better-WorthAtMost a b h = ground arith

pub WorthAtMost-trans :
    (m n : ℤ) (cs : List CandidateAction) → m ≤ℤ n → All (WorthAtMost m) cs → All (WorthAtMost n) cs
WorthAtMost-trans m n [] h k = tt
WorthAtMost-trans m n (c ∷ cs) h k = (omega (arith, h, k.0), WorthAtMost-trans m n cs h k.1)

pub insert-All :
    (P : CandidateAction → Type 0) (a : CandidateAction) (bs : List CandidateAction)
    → P a
    → All P bs
    → All P (insert_scored a bs)
unfolding insert_scored
insert-All P a [] h k = (h, tt)
insert-All P a (b ∷ bs) h k = elim (Bool-cases (scores_better b a)) [
  | inl better ↦ rw (better, insert_scored) (k.0, insert-All P a bs h k.1)
  | inr worse ↦ rw (worse, insert_scored) (h, k)
]

pub insert-Falling :
    (a : CandidateAction) (bs : List CandidateAction) → Falling bs → Falling (insert_scored a bs)
unfolding insert_scored
insert-Falling a [] h = (tt, tt)
insert-Falling a (b ∷ bs) h = elim (Bool-cases (scores_better b a)) [
  | inl better ↦
      rw (better, insert_scored)
        (
          insert-All (WorthAtMost b.expected_net_recovery_minor) a bs
              (better-WorthAtMost a b better) h.0,
          insert-Falling a bs h.1,
        )
  | inr worse ↦
      let below = not_better-WorthAtMost a b worse in
      rw (worse, insert_scored)
        (
          (
            below,
            WorthAtMost-trans b.expected_net_recovery_minor a.expected_net_recovery_minor bs below
                h.0,
          ),
          h,
        )
]

pub sort-All :
    (P : CandidateAction → Type 0) (cs : List CandidateAction) → All P cs → All P (sort_scored cs)
unfolding sort_scored
sort-All P [] h = tt
sort-All P (c ∷ cs) h = insert-All P c (sort_scored cs) h.0 (sort-All P cs h.1)

pub sort-Falling : (cs : List CandidateAction) → Falling (sort_scored cs)
unfolding sort_scored
sort-Falling [] = tt
sort-Falling (c ∷ cs) = insert-Falling c (sort_scored cs) (sort-Falling cs)
