-- ===== src/Policy/Authorized.antt =====
-- When `_evaluate_candidate` lets an action proceed.
pub mod Sound
pub mod Complete
use revenue_guard.Prelude.{
  ℕ, ◌+◌, ◌≤◌, ◌<◌, String, ◌≡◌, refl, sym, ap, ◌∙◌, ◌≢◌, ◌↔◌, ◌⊎◌, inl, inr, Bool, true, false,
  not, ◌&&◌, ◌||◌, Option, none, some, List, [], ◌∷◌, arith, any, Bool-cases, Option-cases,
  if◌then◌else◌, ltb, leb,
}
use revenue_guard.Prelude.Int.{pos, ◌≤ℤ◌}
use revenue_guard.Fault.{Result, ok, err, ◌>>=◌}
use revenue_guard.Clock.{Datetime}
use revenue_guard.Policy.Vocabulary.{
  action_eq, action_class, defer_retry, schedule_promise_reminder, escalate_human, always_allowed,
  value_exempt, is_contact, is_retry, channel_eq, unknown_consent, is_granted, ContactChannel,
  proceed, PolicyResult,
}
use revenue_guard.Policy.Candidate.{CandidateAction, IncidentConstraint, applies}
use revenue_guard.Policy.Snapshot.{
  TimeZone, Environment, find_zone, MerchantPolicySnapshot, allows, PolicyEvaluationInput,
}
use revenue_guard.Policy.Evaluate.{
  Verdict, decided, in_quiet_hours, approval_matches, consent_for, permission_stage, channel_stage,
  contact_stage, reaches_out, first_end, conflict_stage, confidence_stage, delay_stage, quiet_stage,
  needs_review, final_stage, evaluate_candidate, ◌or_else◌,
}

-- The action is allowed, is no escalation, and has a retry left if it is one.
pub record IsPermitted (p : MerchantPolicySnapshot) (e : PolicyEvaluationInput)
    (c : CandidateAction) : Type 0 where
  pub allowed :
      (allows p.allowed_actions c.action_type ≡ true)
      ⊎ (always_allowed (action_class c.action_type) ≡ true)
  pub no_escalation : action_eq c.action_type escalate_human ≡ false
  pub retry_left : is_retry (action_class c.action_type) ≡ true → e.retry_count < p.retry_limit

-- A channel that the customer has agreed to and not left.
pub record HasConsent (e : PolicyEvaluationInput) (channel : Option ContactChannel) : Type 0 where
  pub by : ContactChannel
  pub named : channel ≡ some by
  pub not_opted_out : any (channel_eq by) e.opted_out_channels ≡ false
  pub consented : is_granted (consent_for e.consent_by_channel by unknown_consent) ≡ true

pub record MayContact (p : MerchantPolicySnapshot) (e : PolicyEvaluationInput) (c : CandidateAction)
    : Type 0 where
  pub identified : e.customer_identity_resolved ≡ true
  pub no_other_contact : e.customer_contact_in_progress ≡ false
  pub contact_left : e.contact_count < p.contact_limit
  pub consent : HasConsent e c.channel

-- Nothing that is going on stands against the action.
pub record NoConflict (e : PolicyEvaluationInput) (c : CandidateAction) : Type 0 where
  pub outcomes_known :
      reaches_out (action_class c.action_type) ≡ true → e.unknown_equivalent_action ≡ false
  pub no_promise :
      reaches_out (action_class c.action_type) ≡ true
      → (e.active_promise_to_pay ≡ false)
        ⊎ (action_eq c.action_type schedule_promise_reminder ≡ true)
  pub no_incident : any (λ i. applies i c e.evaluated_at.instant) e.incidents ≡ false

abbrev pub Waited : PolicyEvaluationInput → Type 0
Waited e =
    (until : Datetime)
    → e.diagnosis_defer_until ≡ some until
    → until.instant ≤ e.evaluated_at.instant

-- The local time of the merchant is outside quiet hours.
pub record IsAwake (env : Environment) (p : MerchantPolicySnapshot) (e : PolicyEvaluationInput)
    : Type 0 where
  pub zone : TimeZone
  pub found : find_zone env p.timezone ≡ ok zone
  pub outside : in_quiet_hours zone p e.evaluated_at.instant ≡ false

-- The amount is as large, or the diagnosis as doubtful, as the merchant wants a human to review.
abbrev pub NeedsReview : MerchantPolicySnapshot → PolicyEvaluationInput → CandidateAction → Type 0
NeedsReview p e c =
    (value_exempt (action_class c.action_type) ≡ false)
    × ((p.human_review_amount_minor ≤ e.amount_minor)
        ⊎ (e.confidence_basis_points < p.minimum_confidence_basis_points))

NeedsReview-needs_review :
    (p : MerchantPolicySnapshot) (e : PolicyEvaluationInput) (c : CandidateAction)
    → NeedsReview p e c
    → needs_review p e c ≡ true
NeedsReview-needs_review p e c h = ground (arith, h)

needs_review-NeedsReview :
    (p : MerchantPolicySnapshot) (e : PolicyEvaluationInput) (c : CandidateAction)
    → needs_review p e c ≡ true
    → NeedsReview p e c
needs_review-NeedsReview p e c h =
    elim (Bool-cases (leb p.human_review_amount_minor e.amount_minor)) [
      | inl large ↦ (ground (arith, h), inl (ground (arith, large)))
      | inr small ↦ (ground (arith, h), inr (ground (arith, small, h)))
    ]

-- All that an action needs to proceed.
pub record Authorized (env : Environment) (p : MerchantPolicySnapshot) (e : PolicyEvaluationInput)
    (c : CandidateAction) : Type 0 where
  pub permitted : IsPermitted p e c
  pub contact : is_contact (action_class c.action_type) ≡ true → MayContact p e c
  pub conflict_free : NoConflict e c
  pub waited : Waited e
  pub awake : is_contact (action_class c.action_type) ≡ true → IsAwake env p e
  pub worthwhile :
      value_exempt (action_class c.action_type) ≡ false
      → pos p.minimum_expected_net_recovery_minor ≤ℤ c.expected_net_recovery_minor
  -- a large amount or a low confidence needs an approval that matches
  pub reviewed : NeedsReview p e c → approval_matches env p e c ≡ ok true
