-- ===== src/Portfolio/Interleaved.antt =====
-- Interleaving the scored candidates with the exempt ones.
use revenue_guard.Prelude.{
  ◌≡◌, sym, ◌∙◌, subst, inl, inr, true, false, List, [], ◌∷◌, All, Bool-cases,
}
use revenue_guard.Fault.{ok, ◌>>=◌, >>=-eq-ok, ok-injective}
use revenue_guard.Policy.Vocabulary.{action_class, value_exempt}
use revenue_guard.Policy.Candidate.{CandidateAction}
use revenue_guard.Portfolio.{interleave}
use revenue_guard.Portfolio.Falling.{valued, valued_ones, WorthAtMost, Falling, IsValued}

-- One step of `interleave`, by the class of the candidate.
pub interleave-exempt :
    (c : CandidateAction) (cs ss : List CandidateAction)
    → value_exempt (action_class c.action_type) ≡ true
    → interleave (c ∷ cs) ss ≡ (interleave cs ss >>= λ rest. ok (c ∷ rest))
unfolding interleave
interleave-exempt c cs ss h = rw (h, interleave)

pub interleave-next :
    (c s : CandidateAction) (cs ss : List CandidateAction)
    → value_exempt (action_class c.action_type) ≡ false
    → interleave (c ∷ cs) (s ∷ ss) ≡ (interleave cs ss >>= λ rest. ok (s ∷ rest))
unfolding interleave
interleave-next c s cs ss h = rw (h, interleave)

pub interleave-exhausted :
    (c : CandidateAction) (cs os : List CandidateAction)
    → value_exempt (action_class c.action_type) ≡ false
    → interleave (c ∷ cs) [] ≡ ok os
    → ⊥
unfolding interleave
interleave-exhausted c cs os h k = cc (rw (h, interleave) at k)

pub valued_ones-exempt :
    (c : CandidateAction) (cs : List CandidateAction)
    → value_exempt (action_class c.action_type) ≡ true
    → valued_ones (c ∷ cs) ≡ valued_ones cs
valued_ones-exempt c cs h = rw (h, valued_ones)

pub valued_ones-valued :
    (c : CandidateAction) (cs : List CandidateAction)
    → valued c ≡ true
    → valued_ones (c ∷ cs) ≡ c ∷ valued_ones cs
valued_ones-valued c cs h = rw (h, valued_ones)

-- The step at an exempt candidate, for a property of the valued ones.
pub exempt_step :
    (Q : List CandidateAction → Type 0) (c : CandidateAction) (cs ss os : List CandidateAction)
    → value_exempt (action_class c.action_type) ≡ true
    → interleave (c ∷ cs) ss ≡ ok os
    → ((os' : List CandidateAction) → interleave cs ss ≡ ok os' → Q (valued_ones os'))
    → Q (valued_ones os)
exempt_step Q c cs ss os exempt h more =
    let (os', kept, e) =
      >>=-eq-ok (interleave cs ss) _ (sym (interleave-exempt c cs ss exempt) ∙ h) in
    subst (λ l. Q (valued_ones l)) (ok-injective e)
      (subst Q (sym (valued_ones-exempt c os' exempt)) (more os' kept))

-- The step at a candidate that is replaced by the next scored one.
pub valued_step :
    (Q : List CandidateAction → Type 0) (c s : CandidateAction) (cs ss os : List CandidateAction)
    → value_exempt (action_class c.action_type) ≡ false
    → valued s ≡ true
    → interleave (c ∷ cs) (s ∷ ss) ≡ ok os
    → ((os' : List CandidateAction) → interleave cs ss ≡ ok os' → Q (s ∷ valued_ones os'))
    → Q (valued_ones os)
valued_step Q c s cs ss os open_class v h more =
    let (os', kept, e) =
      >>=-eq-ok (interleave cs ss) _ (sym (interleave-next c s cs ss open_class) ∙ h) in
    subst (λ l. Q (valued_ones l)) (ok-injective e)
      (subst Q (sym (valued_ones-valued s os' v)) (more os' kept))

pub interleave-nothing : (ss os : List CandidateAction) → interleave [] ss ≡ ok os → os ≡ []
unfolding interleave
interleave-nothing ss os h = sym (ok-injective h)

-- What is interleaved keeps the order of the scored ones.
pub interleave-All :
    (P : CandidateAction → Type 0) (cs ss os : List CandidateAction)
    → interleave cs ss ≡ ok os
    → All IsValued ss
    → All P ss
    → All P (valued_ones os)
interleave-All P [] ss os h v k =
    subst (λ l. All P (valued_ones l)) (sym (interleave-nothing ss os h)) tt
interleave-All P (c ∷ cs) [] os h v k =
    elim (Bool-cases (value_exempt (action_class c.action_type))) [
      | inl exempt ↦
          exempt_step (All P) c cs [] os exempt h (λ os' kept. interleave-All P cs [] os' kept v k)
      | inr open_class ↦ absurd (interleave-exhausted c cs os open_class h)
    ]
interleave-All P (c ∷ cs) (s ∷ ss) os h v k =
    elim (Bool-cases (value_exempt (action_class c.action_type))) [
      | inl exempt ↦
          exempt_step (All P) c cs (s ∷ ss) os exempt h
            (λ os' kept. interleave-All P cs (s ∷ ss) os' kept v k)
      | inr open_class ↦
          valued_step (All P) c s cs ss os open_class v.0 h
            (λ os' kept. (k.0, interleave-All P cs ss os' kept v.1 k.1))
    ]

pub interleave-Falling :
    (cs ss os : List CandidateAction)
    → interleave cs ss ≡ ok os
    → All IsValued ss
    → Falling ss
    → Falling (valued_ones os)
interleave-Falling [] ss os h v f =
    subst (λ l. Falling (valued_ones l)) (sym (interleave-nothing ss os h)) tt
interleave-Falling (c ∷ cs) [] os h v f =
    elim (Bool-cases (value_exempt (action_class c.action_type))) [
      | inl exempt ↦
          exempt_step Falling c cs [] os exempt h
            (λ os' kept. interleave-Falling cs [] os' kept v f)
      | inr open_class ↦ absurd (interleave-exhausted c cs os open_class h)
    ]
interleave-Falling (c ∷ cs) (s ∷ ss) os h v f =
    elim (Bool-cases (value_exempt (action_class c.action_type))) [
      | inl exempt ↦
          exempt_step Falling c cs (s ∷ ss) os exempt h
            (λ os' kept. interleave-Falling cs (s ∷ ss) os' kept v f)
      | inr open_class ↦ valued_step Falling c s cs ss os open_class v.0 h (λ os' kept. (
        interleave-All (WorthAtMost s.expected_net_recovery_minor) cs ss os' kept v.1 f.0,
        interleave-Falling cs ss os' kept v.1 f.1,
      ))
    ]
