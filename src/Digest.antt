-- ===== src/Digest.antt =====
-- SHA-256 of a canonical document, as `hashlib.sha256(canonical.encode()).hexdigest()`. The hash is
-- any function here: what is proved of a digest holds whatever it computes, and where a theorem needs
-- that it tells documents apart, the alternative is a collision, shown by its two documents.
use mathlib.Core.List.{List}
use native.Mathlib.Decide.{ℕ_discrete}
use revenue_guard.Prelude.{ℕ, String, ◌≡◌, ◌≢◌, ◌⊎◌, inl, inr, Bool}
use revenue_guard.Canonical.{Json, dumps}
use revenue_guard.Canonical.Injective.{dumps_injective}

-- Two texts with one digest.
pub record Collision (sha256 : List ℕ → String) : Type 0 where
  pub first : List ℕ
  pub second : List ℕ
  pub differ : first ≢ second
  pub same_digest : sha256 first ≡ sha256 second

module _ (sha256 : List ℕ → String) (ascii : Bool) where
  unfoldable pub digest : Json → String
  digest document = sha256 (dumps ascii document)

  Text-discrete : Discrete (List ℕ)
  Text-discrete = hlevel ℕ_discrete

  -- Documents with one digest are one document, unless they are a collision.
  pub digest-binds : (v w : Json) → digest v ≡ digest w → (v ≡ w) ⊎ Collision sha256
  unfolding digest
  digest-binds v w h = elim (Text-discrete (dumps ascii v) (dumps ascii w)) [
    | yes same ↦ inl (dumps_injective ascii v w same)
    | no differ ↦
        inr (record {
          first = dumps ascii v;
          second = dumps ascii w;
          differ = differ;
          same_digest = h;
        })
  ]
