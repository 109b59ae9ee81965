-- ===== src/Policy/Authorized/Sound.antt =====
-- An action that proceeds is authorized.
use revenue_guard.Prelude.{
  ℕ, ◌≡◌, refl, ap, ◌∙◌, ◌≢◌, inl, inr, true, false, Option, none, some, List, [], ◌∷◌, arith, any,
  Bool-cases, Option-cases,
}
use revenue_guard.Prelude.Int.{pos, ◌≤ℤ◌}
use revenue_guard.Fault.{Result, ok, err}
use revenue_guard.Policy.Vocabulary.{
  action_class, value_exempt, is_contact, ContactChannel, proceed,
}
use revenue_guard.Policy.Candidate.{CandidateAction, IncidentConstraint, applies}
use revenue_guard.Policy.Snapshot.{
  Environment, find_zone, MerchantPolicySnapshot, PolicyEvaluationInput,
}
use revenue_guard.Policy.Evaluate.{
  Verdict, approval_matches, permission_stage, channel_stage, contact_stage, first_end,
  conflict_stage, confidence_stage, delay_stage, quiet_stage, needs_review, final_stage,
  evaluate_candidate, ◌or_else◌,
}
use revenue_guard.Policy.Authorized.{
  IsPermitted, HasConsent, MayContact, NoConflict, Waited, IsAwake, Authorized,
  NeedsReview-needs_review,
}

module _ (env : Environment) (p : MerchantPolicySnapshot) (e : PolicyEvaluationInput)
    (c : CandidateAction) where
  permission-IsPermitted : permission_stage p e c ≡ none → IsPermitted p e c
  unfolding permission_stage
  permission-IsPermitted h = ground arith

  channel-HasConsent :
      (channel : Option ContactChannel) → channel_stage e channel ≡ ok none → HasConsent e channel
  unfolding channel_stage
  channel-HasConsent none h = cc
  channel-HasConsent (some ch) h = record {
    by = ch;
    named = refl;
    not_opted_out = ground arith;
    consented = ground arith;
  }

  contact-MayContact :
      contact_stage p e c ≡ ok none
      → is_contact (action_class c.action_type) ≡ true
      → MayContact p e c
  unfolding contact_stage
  contact-MayContact h k = record {
    identified = ground arith;
    no_other_contact = ground arith;
    contact_left = ground arith;
    consent = channel-HasConsent c.channel (ground arith);
  }

first_end-none :
    (is : List IncidentConstraint) (c : CandidateAction) (now : ℕ)
    → first_end is c now ≡ none
    → any (λ i. applies i c now) is ≡ false
unfolding first_end
first_end-none [] c now h = refl
first_end-none (i ∷ is) c now h = elim (Bool-cases (applies i c now)) [
  | inl yes_applies ↦ absurd (ground (arith, yes_applies, h))
  | inr not_applies ↦ rw not_applies (first_end-none is c now (ground (arith, not_applies, h)))
]

-- No stage before the last lets an action proceed.
abbrev NeverProceeds : Result (Option Verdict) → Type 0
NeverProceeds m = (v : Verdict) → m ≡ ok (some v) → v.result ≢ proceed

passes-or_else :
    (m : Result (Option Verdict)) (n : Result Verdict) {v : Verdict}
    → NeverProceeds m
    → (m or_else n) ≡ ok v
    → v.result ≡ proceed
    → (m ≡ ok none) × (n ≡ ok v)
passes-or_else (err f) n never h k = cc
passes-or_else (ok none) n never h k = (refl, h)
passes-or_else (ok (some w)) n {v} never h k =
    let same : w ≡ v = cc in absurd (never w refl (ap (λ x. x.result) same ∙ k))

module _ (env : Environment) (p : MerchantPolicySnapshot) (e : PolicyEvaluationInput)
    (c : CandidateAction) where
  conflict-NoConflict : conflict_stage p e c ≡ none → NoConflict e c
  unfolding conflict_stage
  conflict-NoConflict h = record {
    outcomes_known = λ k. ground arith;
    no_promise = λ k. ground arith;
    no_incident = first_end-none e.incidents c e.evaluated_at.instant (ground arith);
  }

  delay-Waited : delay_stage e ≡ none → Waited e
  unfolding delay_stage
  delay-Waited h until k = ground arith

  quiet-IsAwake :
      quiet_stage env p e c ≡ ok none
      → is_contact (action_class c.action_type) ≡ true
      → IsAwake env p e
  unfolding quiet_stage
  quiet-IsAwake h k = elim (Option-cases (env.zoneinfo p.timezone)) [
    | inl missing ↦ absurd (ground (arith, missing))
    | inr (z, found) ↦ record {
      zone = z;
      found = rw (found, find_zone);
      outside = ground (arith, found);
    }
  ]

  permission-NeverProceeds : NeverProceeds (ok (permission_stage p e c))
  unfolding permission_stage
  permission-NeverProceeds v h k = ground arith

  channel-NeverProceeds :
      (channel : Option ContactChannel) → NeverProceeds (channel_stage e channel)
  unfolding channel_stage
  channel-NeverProceeds none v h k = cc
  channel-NeverProceeds (some ch) v h k = ground arith

  contact-NeverProceeds : NeverProceeds (contact_stage p e c)
  unfolding contact_stage
  contact-NeverProceeds v h k = ground (arith, channel-NeverProceeds c.channel v)

  conflict-NeverProceeds : NeverProceeds (ok (conflict_stage p e c))
  unfolding conflict_stage
  conflict-NeverProceeds v h k = ground arith

  confidence-NeverProceeds : NeverProceeds (confidence_stage env p e c)
  unfolding confidence_stage
  confidence-NeverProceeds v h k = ground arith

  delay-NeverProceeds : NeverProceeds (ok (delay_stage e))
  unfolding delay_stage
  delay-NeverProceeds v h k = ground arith

  quiet-NeverProceeds : NeverProceeds (quiet_stage env p e c)
  unfolding quiet_stage
  quiet-NeverProceeds v h k = ground arith

  final-worthwhile :
      (v : Verdict)
      → final_stage env p e c ≡ ok v
      → v.result ≡ proceed
      → value_exempt (action_class c.action_type) ≡ false
      → pos p.minimum_expected_net_recovery_minor ≤ℤ c.expected_net_recovery_minor
  unfolding final_stage
  final-worthwhile v h k x = ground arith

  final-reviewed :
      (v : Verdict)
      → final_stage env p e c ≡ ok v
      → v.result ≡ proceed
      → needs_review p e c ≡ true
      → approval_matches env p e c ≡ ok true
  unfolding final_stage
  final-reviewed v h k x = ground arith

  -- An action that `_evaluate_candidate` lets proceed is authorized.
  pub proceed-Authorized :
      (v : Verdict)
      → evaluate_candidate env p e c ≡ ok v
      → v.result ≡ proceed
      → Authorized env p e c
  unfolding evaluate_candidate
  proceed-Authorized v h k =
      let (a, h1) = passes-or_else _ _ permission-NeverProceeds h k in
      let (b, h2) = passes-or_else _ _ contact-NeverProceeds h1 k in
      let (d, h3) = passes-or_else _ _ conflict-NeverProceeds h2 k in
      let (f, h4) = passes-or_else _ _ confidence-NeverProceeds h3 k in
      let (g, h5) = passes-or_else _ _ delay-NeverProceeds h4 k in
      let (i, h6) = passes-or_else _ _ quiet-NeverProceeds h5 k in
      record {
        permitted = permission-IsPermitted env p e c (cc);
        contact = contact-MayContact env p e c b;
        conflict_free = conflict-NoConflict (cc);
        waited = delay-Waited (cc);
        awake = quiet-IsAwake i;
        worthwhile = final-worthwhile v h6 k;
        reviewed = λ n. final-reviewed v h6 k (NeedsReview-needs_review p e c n);
      }
