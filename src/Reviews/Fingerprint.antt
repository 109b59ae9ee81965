-- ===== src/Reviews/Fingerprint.antt =====
-- What an approval is bound to: the fingerprint stands for one action.
use revenue_guard.Prelude.{ℕ, String, ◌≡◌, ◌⊎◌, inl, inr, true, sym, ◌∙◌, str_eq_iff, List, arith}
use revenue_guard.Clock.{at_utc, utc}
use revenue_guard.Fault.{ok}
use revenue_guard.Digest.{Collision, digest-binds}
use revenue_guard.Reviews.{
  ActionFingerprintInput, HumanReviewRequest, fingerprint_document, fingerprint,
  is_matching_approval,
}

fingerprint_document-injective :
    (i j : ActionFingerprintInput) → fingerprint_document i ≡ fingerprint_document j → i ≡ j
unfolding fingerprint_document
fingerprint_document-injective i j h = ground arith

-- Two actions with one fingerprint agree in the case, the action type, the target, the amount, the
-- currency, the attempt and the policy's digest, unless SHA-256 has a collision, which is shown.
fingerprint-binds :
    (sha256 : List ℕ → String) (i j : ActionFingerprintInput)
    → fingerprint sha256 i ≡ fingerprint sha256 j
    → (i ≡ j) ⊎ Collision sha256
unfolding fingerprint
fingerprint-binds sha256 i j h =
    elim (digest-binds sha256 true (fingerprint_document i) (fingerprint_document j) h) [
      | inl same ↦ inl (fingerprint_document-injective i j same)
      | inr collision ↦ inr collision
    ]

matching_print :
    (q : HumanReviewRequest) (print policy_digest : String) (now : ℕ)
    → is_matching_approval q print policy_digest (at_utc now) ≡ ok true
    → q.action_fingerprint ≡ print
unfolding is_matching_approval utc
matching_print q print policy_digest now h = ground (arith, str_eq_iff q.action_fingerprint print)

-- A review that was requested for the fingerprint of one action matches the fingerprint of another
-- only if the two agree in every field, unless they show a collision of the hash.
pub approval-binds :
    (sha256 : List ℕ → String) (q : HumanReviewRequest) (i j : ActionFingerprintInput) (now : ℕ)
    → q.action_fingerprint ≡ fingerprint sha256 i
    → is_matching_approval q (fingerprint sha256 j) j.policy_digest (at_utc now) ≡ ok true
    → (i ≡ j) ⊎ Collision sha256
approval-binds sha256 q i j now asked h =
    fingerprint-binds sha256 i j
      (sym asked ∙ matching_print q (fingerprint sha256 j) j.policy_digest now h)
