-- ===== src/Policy/Candidate.antt =====
-- `CandidateAction` and `IncidentConstraint` of policy.py.
use revenue_guard.Prelude.{
  ℕ, String, Bool, true, false, not, ◌&&◌, Option, ltb, leb, is_some, is_none, is_blank,
  if◌then◌else◌,
}
use revenue_guard.Prelude.Int.{ℤ}
use revenue_guard.Fault.{Result, ok, value_error, minimum_error, ◌>>=◌, ◌>>◌, raise_if}
use revenue_guard.Clock.{Datetime, utc}
use revenue_guard.Policy.Vocabulary.{
  ActionType, action_class, ActionClass, escalation, stop_class, none_class, is_contact, is_payment,
  ContactChannel, channel_opt_eq, IncidentScope, contact_channel, all_automation,
}

-- Amounts are in minor units; only the expected net recovery may be negative.
pub record CandidateAction : Type 0 where
  pub action_type : ActionType
  pub recovery_probability_basis_points : ℕ
  pub expected_net_recovery_minor : ℤ
  pub rank : ℕ
  pub target : String
  pub logical_attempt : ℕ
  pub channel : Option ContactChannel
  pub action_cost_minor : ℕ
  pub risk_penalty_minor : ℕ
  pub customer_friction_penalty_minor : ℕ

-- `CandidateAction.__post_init__`. The penalties are natural numbers, so not negative.
unfoldable pub init_candidate : CandidateAction → Result CandidateAction
init_candidate c = do
  raise_if (ltb c.recovery_probability_basis_points 0)
      (minimum_error "recovery_probability_basis_points" 0)
  raise_if (ltb c.rank 1) (minimum_error "rank" 1)
  raise_if (ltb c.logical_attempt 1) (minimum_error "logical_attempt" 1)
  raise_if (ltb 10000 c.recovery_probability_basis_points)
      (value_error "recovery probability cannot exceed 10000 basis points")
  raise_if (is_blank c.target) (value_error "target is required")
  raise_if (is_contact (action_class c.action_type) && is_none c.channel)
      (value_error "customer-contact actions require a channel")
  raise_if (not (is_contact (action_class c.action_type)) && is_some c.channel)
      (value_error "only customer-contact actions accept a channel")
  ok c

pub record IncidentConstraint : Type 0 where
  pub incident_id : String
  pub scope : IncidentScope
  pub starts_at : Datetime
  pub ends_at : Datetime
  pub channel : Option ContactChannel

abbrev scope_is_channel : IncidentScope → Bool
scope_is_channel contact_channel = true
scope_is_channel _ = false

-- `IncidentConstraint.__post_init__`.
unfoldable pub init_incident : IncidentConstraint → Result IncidentConstraint
init_incident i = do
  raise_if (is_blank i.incident_id) (value_error "incident_id is required")
  starts ← utc "starts_at" i.starts_at
  ends ← utc "ends_at" i.ends_at
  raise_if (leb ends.instant starts.instant) (value_error "incident end must follow its start")
  raise_if (scope_is_channel i.scope && is_none i.channel)
      (value_error "contact-channel incident requires a channel")
  raise_if (not (scope_is_channel i.scope) && is_some i.channel)
      (value_error "channel only applies to contact-channel incidents")
  ok (record i { starts_at = starts; ends_at = ends })

-- `action_class in {STOP, NO_ACTION, ESCALATION}`.
abbrev never_constrained : ActionClass → Bool
never_constrained stop_class = true
never_constrained none_class = true
never_constrained escalation = true
never_constrained _ = false

abbrev scope_covers :
    IncidentScope → ActionClass → Option ContactChannel → Option ContactChannel → Bool
scope_covers all_automation cls channel own = true
scope_covers contact_channel cls channel own = is_contact cls && channel_opt_eq channel own
scope_covers _ cls channel own = is_payment cls

-- `IncidentConstraint.applies`, at an instant.
unfoldable pub applies : IncidentConstraint → CandidateAction → ℕ → Bool
applies i c now =
    let cls = action_class c.action_type in
    if not (leb i.starts_at.instant now && ltb now i.ends_at.instant)
    then false
    else if never_constrained cls
    then false
    else scope_covers i.scope cls c.channel i.channel
