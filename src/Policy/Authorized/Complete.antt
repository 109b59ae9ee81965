-- ===== src/Policy/Authorized/Complete.antt =====
-- An action that is authorized proceeds.
use revenue_guard.Prelude.{
  ℕ, ◌≡◌, refl, inl, inr, true, false, Option, none, some, List, [], ◌∷◌, arith, any, Bool-cases,
  Option-cases,
}
use revenue_guard.Fault.{ok}
use revenue_guard.Policy.Vocabulary.{action_class, is_contact, ContactChannel, proceed}
use revenue_guard.Policy.Candidate.{CandidateAction, IncidentConstraint, applies}
use revenue_guard.Policy.Snapshot.{Environment, MerchantPolicySnapshot, PolicyEvaluationInput}
use revenue_guard.Policy.Evaluate.{
  decided, approval_matches, permission_stage, channel_stage, contact_stage, first_end,
  conflict_stage, confidence_stage, delay_stage, quiet_stage, needs_review, final_stage,
  evaluate_candidate,
}
use revenue_guard.Policy.Authorized.{
  IsPermitted, HasConsent, MayContact, NoConflict, Waited, IsAwake, Authorized,
  needs_review-NeedsReview,
}

any-first_end :
    (is : List IncidentConstraint) (c : CandidateAction) (now : ℕ)
    → any (λ i. applies i c now) is ≡ false
    → first_end is c now ≡ none
unfolding first_end
any-first_end [] c now h = refl
any-first_end (i ∷ is) c now h = elim (Bool-cases (applies i c now)) [
  | inl yes_applies ↦ absurd (ground (arith, yes_applies, h))
  | inr not_applies ↦ ground (arith, any-first_end is c now, not_applies)
]

module _ (env : Environment) (p : MerchantPolicySnapshot) (e : PolicyEvaluationInput)
    (c : CandidateAction) where
  IsPermitted-permission : IsPermitted p e c → permission_stage p e c ≡ none
  unfolding permission_stage
  IsPermitted-permission h = ground arith

  HasConsent-channel :
      (channel : Option ContactChannel) → HasConsent e channel → channel_stage e channel ≡ ok none
  unfolding channel_stage
  HasConsent-channel none h = absurd (cc (h.named))
  HasConsent-channel (some ch) h = ground arith

  MayContact-contact :
      (is_contact (action_class c.action_type) ≡ true → MayContact p e c)
      → contact_stage p e c ≡ ok none
  unfolding contact_stage
  MayContact-contact h = elim (Bool-cases (is_contact (action_class c.action_type))) [
    | inl contacts ↦
        let m = h contacts in ground (arith, contacts, m, HasConsent-channel c.channel m.consent)
    | inr silent ↦ rw silent
  ]

  NoConflict-conflict : NoConflict e c → conflict_stage p e c ≡ none
  unfolding conflict_stage
  NoConflict-conflict h =
      ground (arith, any-first_end e.incidents c e.evaluated_at.instant h.no_incident)

  -- A retry at low confidence needs review, so an approval that matches is there.
  reviewed-confidence :
      (needs_review p e c ≡ true → approval_matches env p e c ≡ ok true)
      → confidence_stage env p e c ≡ ok none
  unfolding confidence_stage
  reviewed-confidence h = ground (arith, h)

  Waited-delay : Waited e → delay_stage e ≡ none
  unfolding delay_stage
  Waited-delay h = elim (Option-cases e.diagnosis_defer_until) [
    | inl never ↦ rw never
    | inr (until, set) ↦ ground (arith, set, h until set)
  ]

  IsAwake-quiet :
      (is_contact (action_class c.action_type) ≡ true → IsAwake env p e)
      → quiet_stage env p e c ≡ ok none
  unfolding quiet_stage
  IsAwake-quiet h = elim (Bool-cases (is_contact (action_class c.action_type))) [
    | inl contacts ↦ let a = h contacts in rw (contacts, a.found) (rw a.outside)
    | inr silent ↦ rw silent
  ]

  approved : Authorized env p e c → needs_review p e c ≡ true → approval_matches env p e c ≡ ok true
  approved h n = h.reviewed (needs_review-NeedsReview p e c n)

  Authorized-final :
      Authorized env p e c → final_stage env p e c ≡ ok (decided proceed "POLICY_AUTHORIZED")
  unfolding final_stage
  Authorized-final h = ground (arith, h.worthwhile, approved h)

  -- An action that is authorized is let through by `_evaluate_candidate`.
  pub Authorized-proceeds :
      Authorized env p e c → evaluate_candidate env p e c ≡ ok (decided proceed "POLICY_AUTHORIZED")
  unfolding evaluate_candidate
  Authorized-proceeds h =
      rw
        (
          IsPermitted-permission h.permitted,
          MayContact-contact h.contact,
          NoConflict-conflict h.conflict_free,
          reviewed-confidence (approved h),
          Waited-delay h.waited,
          IsAwake-quiet h.awake,
        )
        (Authorized-final h)
