-- ===== src/Policy/Evaluate.antt =====
-- `evaluate_policy` of policy.py and the functions that it calls.
use revenue_guard.Prelude.{
  ℕ, ◌+◌, String, Bool, true, false, not, ◌&&◌, ◌||◌, Option, none, some, List, [], ◌∷◌, ltb, leb,
  ◌==◌, any, if◌then◌else◌, min,
}
use revenue_guard.Prelude.Int.{pos, ltb_ℤ}
use revenue_guard.Fault.{Result, ok, err, assertion_error, ◌>>=◌}
use revenue_guard.Clock.{Datetime, at_utc, seconds}
use revenue_guard.Clock.Calendar.{day_length, time_of_day, midnight}
use revenue_guard.Reviews.{init_fingerprint, fingerprint, is_matching_approval}
use revenue_guard.Policy.Vocabulary.{
  defer_retry, schedule_promise_reminder, escalate_human, action_eq, action_value, action_class,
  ActionClass, always_allowed, value_exempt, is_contact, is_retry, is_payment, ContactChannel,
  channel_eq, ConsentState, unknown_consent, is_granted, PolicyResult, proceed, defer, skip,
  require_human,
}
use revenue_guard.Policy.Candidate.{CandidateAction, IncidentConstraint, applies}
use revenue_guard.Policy.Snapshot.{
  TimeZone, Environment, find_zone, MerchantPolicySnapshot, allows, content_digest,
  PolicyEvaluationInput,
}

-- What `_evaluate_candidate` returns of one candidate.
pub record Verdict : Type 0 where
  pub result : PolicyResult
  pub reason : String
  pub wake : Option Datetime

abbrev pub verdict : PolicyResult → String → Option Datetime → Option Verdict
verdict result reason wake = some (record { result = result; reason = reason; wake = wake })

-- `_in_quiet_hours`, of the local time of day.
unfoldable pub within_quiet : ℕ → ℕ → ℕ → Bool
within_quiet start finish local_time =
    if start == finish
    then false
    else if ltb start finish
    then leb start local_time && ltb local_time finish
    else leb start local_time || ltb local_time finish

-- `_in_quiet_hours`.
unfoldable pub in_quiet_hours : TimeZone → MerchantPolicySnapshot → ℕ → Bool
unfolding within_quiet
in_quiet_hours z p now =
    within_quiet p.quiet_hours_start p.quiet_hours_end (time_of_day (z.to_local now))

-- `_quiet_hours_end`: the local day's end of quiet hours, or the next day's, as an instant.
unfoldable pub quiet_hours_end_at : TimeZone → MerchantPolicySnapshot → ℕ → ℕ
quiet_hours_end_at z p now =
    let local_now = z.to_local now in
    let candidate = midnight local_now + p.quiet_hours_end in
    z.from_local (if leb candidate local_now then candidate + day_length else candidate)

-- `_approval_matches`.
unfoldable pub approval_matches :
    Environment → MerchantPolicySnapshot → PolicyEvaluationInput → CandidateAction → Result Bool
approval_matches env p e c = elim e.approval [
  | none ↦ ok false
  | some approval ↦ do
    print ← init_fingerprint (record {
      case_id = e.case_id;
      action_type = action_value c.action_type;
      target = c.target;
      amount_minor = e.amount_minor;
      currency = e.currency;
      logical_attempt = c.logical_attempt;
      policy_digest = content_digest env p;
    })
    is_matching_approval approval (fingerprint env.sha256 print) (content_digest env p)
        e.evaluated_at
]

-- `dict(consent_by_channel).get(channel, UNKNOWN)`: the last pair of a channel counts.
unfoldable pub consent_for :
    List (ContactChannel × ConsentState) → ContactChannel → ConsentState → ConsentState
consent_for [] channel found = found
consent_for ((ch, state) ∷ rest) channel found =
    consent_for rest channel (if channel_eq ch channel then state else found)

abbrev pub defer_by_default : MerchantPolicySnapshot → PolicyEvaluationInput → Option Datetime
defer_by_default p e = some (at_utc (e.evaluated_at.instant + seconds p.default_defer_seconds))

-- The checks of `_evaluate_candidate` in their order, in stages: a stage gives a verdict, or `none`
-- where the code goes on.

-- Whether the action is allowed at all.
unfoldable pub permission_stage :
    MerchantPolicySnapshot → PolicyEvaluationInput → CandidateAction → Option Verdict
permission_stage p e c =
    let cls = action_class c.action_type in
    if not (allows p.allowed_actions c.action_type) && not (always_allowed cls)
    then verdict skip "ACTION_NOT_ALLOWED" none
    else if action_eq c.action_type escalate_human
    then verdict require_human "AGENT_ESCALATION_REQUESTED" none
    else if is_retry cls && leb p.retry_limit e.retry_count
    then verdict skip "RETRY_LIMIT_REACHED" none
    else none

-- Consent of a contact by its channel.
unfoldable pub channel_stage :
    PolicyEvaluationInput → Option ContactChannel → Result (Option Verdict)
channel_stage e none =
    err (assertion_error "validated customer-contact candidate requires a channel")
channel_stage e (some channel) = ok (
    if any (channel_eq channel) e.opted_out_channels
    then verdict skip "CHANNEL_OPTED_OUT" none
    else if not (is_granted (consent_for e.consent_by_channel channel unknown_consent))
    then verdict skip "CHANNEL_CONSENT_NOT_GRANTED" none
    else none)

-- Contacts of the customer.
unfoldable pub contact_stage :
    MerchantPolicySnapshot → PolicyEvaluationInput → CandidateAction → Result (Option Verdict)
contact_stage p e c =
    if not (is_contact (action_class c.action_type))
    then ok none
    else if not e.customer_identity_resolved
    then ok (verdict skip "CUSTOMER_IDENTITY_UNRESOLVED" none)
    else if e.customer_contact_in_progress
    then ok (verdict defer "CUSTOMER_CONTACT_ALREADY_IN_PROGRESS" (defer_by_default p e))
    else if leb p.contact_limit e.contact_count
    then ok (verdict skip "CONTACT_LIMIT_REACHED" none)
    else channel_stage e c.channel

-- `action_class in {RETRY, MONEY_INTENT, CUSTOMER_CONTACT}`.
abbrev pub reaches_out : ActionClass → Bool
reaches_out cls = is_payment cls || is_contact cls

-- `min(incident.ends_at for incident in matching_incidents)`, where there is one.
unfoldable pub first_end : List IncidentConstraint → CandidateAction → ℕ → Option ℕ
first_end [] c now = none
first_end (i ∷ is) c now =
    let rest = first_end is c now in
    elim (applies i c now) [
      | false ↦ rest
      | true ↦ some (elim rest [ none ↦ i.ends_at.instant | some t ↦ min i.ends_at.instant t ])
    ]

-- What is going on already: an unknown outcome, a promise, an incident.
unfoldable pub conflict_stage :
    MerchantPolicySnapshot → PolicyEvaluationInput → CandidateAction → Option Verdict
conflict_stage p e c =
    let cls = action_class c.action_type in
    if e.unknown_equivalent_action && reaches_out cls
    then verdict defer "EQUIVALENT_ACTION_OUTCOME_UNKNOWN" (defer_by_default p e)
    else if e.active_promise_to_pay
        && not (action_eq c.action_type schedule_promise_reminder)
        && reaches_out cls
    then verdict defer "ACTIVE_PROMISE_TO_PAY" e.promise_due_at
    else elim (first_end e.incidents c e.evaluated_at.instant) [
      | none ↦ none
      | some t ↦ verdict defer "ACTIVE_INCIDENT" (some (at_utc t))
    ]

-- The wake-up time of a retry at low confidence.
abbrev pub confidence_wake : MerchantPolicySnapshot → PolicyEvaluationInput → Option Datetime
confidence_wake p e = elim e.diagnosis_defer_until [
  | none ↦ defer_by_default p e
  | some until ↦
      if leb until.instant e.evaluated_at.instant then defer_by_default p e else some until
]

unfoldable pub confidence_stage :
    Environment
    → MerchantPolicySnapshot
    → PolicyEvaluationInput
    → CandidateAction
    → Result (Option Verdict)
confidence_stage env p e c =
    if action_eq c.action_type defer_retry
      && ltb e.confidence_basis_points p.minimum_confidence_basis_points
    then (do
      matches ← approval_matches env p e c
      ok (
          if matches
          then none
          else verdict defer "LOW_CONFIDENCE_RETRY_DEFERRED" (confidence_wake p e)))
    else ok none

unfoldable pub delay_stage : PolicyEvaluationInput → Option Verdict
delay_stage e = elim e.diagnosis_defer_until [
  | none ↦ none
  | some until ↦
      if ltb e.evaluated_at.instant until.instant
      then verdict defer "DIAGNOSIS_DELAY" (some until)
      else none
]

unfoldable pub quiet_stage :
    Environment
    → MerchantPolicySnapshot
    → PolicyEvaluationInput
    → CandidateAction
    → Result (Option Verdict)
quiet_stage env p e c = if not (is_contact (action_class c.action_type)) then ok none else (do
  z ← find_zone env p.timezone
  ok (
      if in_quiet_hours z p e.evaluated_at.instant
      then verdict defer "QUIET_HOURS"
          (some (at_utc (quiet_hours_end_at z p e.evaluated_at.instant)))
      else none))

-- `needs_review`.
abbrev pub needs_review : MerchantPolicySnapshot → PolicyEvaluationInput → CandidateAction → Bool
needs_review p e c =
    not (value_exempt (action_class c.action_type))
    && (leb p.human_review_amount_minor e.amount_minor
        || ltb e.confidence_basis_points p.minimum_confidence_basis_points)

abbrev pub decided : PolicyResult → String → Verdict
decided result reason = record { result = result; reason = reason; wake = none }

-- The value of the action and its review; this stage always decides.
unfoldable pub final_stage :
    Environment → MerchantPolicySnapshot → PolicyEvaluationInput → CandidateAction → Result Verdict
final_stage env p e c =
    if not (value_exempt (action_class c.action_type))
      && ltb_ℤ c.expected_net_recovery_minor (pos p.minimum_expected_net_recovery_minor)
    then ok (decided skip "EXPECTED_VALUE_BELOW_MINIMUM")
    else if needs_review p e c
    then (do
      matches ← approval_matches env p e c
      ok (
          if matches
          then decided proceed "POLICY_AUTHORIZED"
          else decided require_human "HUMAN_REVIEW_REQUIRED"))
    else ok (decided proceed "POLICY_AUTHORIZED")

-- A stage and what follows where it gives no verdict.
infixr 20 ◌or_else◌
abbrev pub ◌or_else◌ : Result (Option Verdict) → Result Verdict → Result Verdict
err f or_else next = err f
ok (some v) or_else next = ok v
ok none or_else next = next

-- `_evaluate_candidate`.
unfoldable pub evaluate_candidate :
    Environment → MerchantPolicySnapshot → PolicyEvaluationInput → CandidateAction → Result Verdict
evaluate_candidate env p e c =
    ok (permission_stage p e c)
    or_else contact_stage p e c
    or_else ok (conflict_stage p e c)
    or_else confidence_stage env p e c
    or_else ok (delay_stage e)
    or_else quiet_stage env p e c
    or_else final_stage env p e c
