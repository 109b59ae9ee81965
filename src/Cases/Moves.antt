-- ===== src/Cases/Moves.antt =====
-- When `transition_case` moves a case, and what it then returns.
use revenue_guard.Prelude.{
  ap, sym, ◌≢◌, ◌∙◌, ◌+◌, ◌≤◌, String, ◌≡◌, refl, true, false, Option, none, some, arith, is_some,
  is_missing,
}
use revenue_guard.Fault.{ok, err, stale_version, >>=-eq-ok}
use revenue_guard.Clock.{Datetime, Zone, naive, utc_zone, at_utc, utc}
use revenue_guard.Identifier.{Fits, FitsOpt, Fits-identifier}
use revenue_guard.Cases.{
  recovered, RecoveryCase, CaseTransition, TransitionRequest, is_terminal, can_transition,
  longer_than, check_transition, init_case, init_transition, moved_case, transition_record,
  transition_case,
}
use revenue_guard.Cases.Validity.{
  IsValid, InUtc, init_case-IsValid, init_case_lem, in_utc, utc_of, NotNaive, in_utc-init_case,
}
use revenue_guard.Cases.Graph.{◌⟶◌, can_transition-edge, edge-can_transition}

-- What a successful call returns.
pub record Moved (c : RecoveryCase) (r : TransitionRequest) (d : RecoveryCase) (t : CaseTransition)
    : Type 0 where
  pub expected : c.state_version ≡ r.expected_version
  pub edge : c.state ⟶ d.state
  pub state : d.state ≡ r.to_state
  pub version : d.state_version ≡ c.state_version + 1
  pub monotone : c.updated_at.instant ≤ d.updated_at.instant
  pub reason : d.terminal_reason ≡ r.terminal_reason
  -- the record tells the two states, the two versions and the time of the move
  pub told_before : (t.before_state ≡ c.state) × (t.before_version ≡ c.state_version)
  pub told_after : (t.after_state ≡ d.state) × (t.after_version ≡ d.state_version)
  pub told_at : t.occurred_at ≡ d.updated_at
  pub told_case : (t.merchant_id ≡ c.merchant_id) × (t.case_id ≡ c.case_id)
  pub told_evidence : t.authoritative_evidence_reference ≡ r.authoritative_evidence_reference
  pub evidence : d.state ≡ recovered → is_missing t.authoritative_evidence_reference ≡ false

-- What no move touches.
pub record SameSubject (c d : RecoveryCase) : Type 0 where
  pub same_case : (d.case_id ≡ c.case_id) × (d.merchant_id ≡ c.merchant_id)
  pub same_workflow : (d.workflow_type ≡ c.workflow_type) × (d.subject_type ≡ c.subject_type)
  pub same_subject : (d.subject_id ≡ c.subject_id) × (d.customer_id ≡ c.customer_id)
  pub same_money : (d.revenue_at_risk_minor ≡ c.revenue_at_risk_minor) × (d.currency ≡ c.currency)
  pub same_counts : (d.retry_count ≡ c.retry_count) × (d.contact_count ≡ c.contact_count)
  pub same_created : d.created_at.instant ≡ c.created_at.instant

utc_of-InUtc : (o : Option Datetime) → InUtc (utc_of o)
utc_of-InUtc none = tt
utc_of-InUtc (some t) = refl

zone-aware : {z : Zone} → z ≡ utc_zone → z ≢ naive
zone-aware e n = cc

-- The guards, as facts.
record Passes (c : RecoveryCase) (r : TransitionRequest) (at : Datetime) : Type 0 where
  expected : c.state_version ≡ r.expected_version
  allowed : can_transition c.state r.to_state ≡ true
  aware : at ≡ at_utc r.occurred_at.instant
  later : c.updated_at.instant ≤ at.instant
  ended : is_terminal r.to_state ≡ true → is_missing r.terminal_reason ≡ false
  open_ended : is_terminal r.to_state ≡ false → is_some r.terminal_reason ≡ false
  evidence : r.to_state ≡ recovered → is_missing r.authoritative_evidence_reference ≡ false

check_transition-Passes :
    (c : RecoveryCase) (r : TransitionRequest) {at : Datetime}
    → check_transition c r ≡ ok at
    → Passes c r at
unfolding check_transition utc
check_transition-Passes c r h = ground arith

-- The parts of a successful call.
record Parts (c : RecoveryCase) (r : TransitionRequest) (d : RecoveryCase) (t : CaseTransition)
    : Type 0 where
  at : Datetime
  passes : Passes c r at
  case_made : init_case (moved_case c r at) ≡ ok d
  record_made : init_transition (transition_record c r at d.state_version) ≡ ok t

transition_case-Parts :
    (c : RecoveryCase) (r : TransitionRequest) {d : RecoveryCase} {t : CaseTransition}
    → transition_case c r ≡ ok (d, t)
    → Parts c r d t
unfolding transition_case
transition_case-Parts c r {d} {t} h =
    let (at, checked, rest) = >>=-eq-ok (check_transition c r) _ h in
    let (updated, made, last) = >>=-eq-ok (init_case (moved_case c r at)) _ rest in
    let (told, recorded, same) =
      >>=-eq-ok (init_transition (transition_record c r at updated.state_version)) _ last in
    let e : updated ≡ d = cc in
    record {
      at = at;
      passes = check_transition-Passes c r checked;
      case_made = cc;
      record_made =
          ap (λ u. init_transition (transition_record c r at u.state_version)) (sym e)
          ∙ recorded
          ∙ cc;
    }

-- A record of a transition that is let through is in UTC, and has its evidence.
init_transition_lem :
    (x t : CaseTransition)
    → init_transition x ≡ ok t
    → (t ≡ record x { occurred_at = at_utc x.occurred_at.instant })
      × (x.after_state ≡ recovered → is_missing x.authoritative_evidence_reference ≡ false)
unfolding init_transition utc
init_transition_lem x t h = ground arith

-- A call of `transition_case` that returns has moved the case along an edge of the diagram.
pub transition_case-Moved :
    (c : RecoveryCase) (r : TransitionRequest) (d : RecoveryCase) (t : CaseTransition)
    → transition_case c r ≡ ok (d, t)
    → Moved c r d t
transition_case-Moved c r d t h =
    let p = transition_case-Parts c r h in
    let s = init_case_lem (moved_case c r p.at) d p.case_made in
    let q = init_transition_lem (transition_record c r p.at d.state_version) t p.record_made in
    let e : d.state ≡ r.to_state = ap (λ x. x.state) s in
    record {
      expected = p.passes.expected;
      edge = rw e (can_transition-edge c.state r.to_state p.passes.allowed);
      state = e;
      version = ap (λ x. x.state_version) s;
      monotone = rw (ap (λ x. x.updated_at.instant) s) p.passes.later;
      reason = ap (λ x. x.terminal_reason) s;
      told_before = (ap (λ x. x.before_state) q.0, ap (λ x. x.before_version) q.0);
      told_after = (ap (λ x. x.after_state) q.0 ∙ sym e, ap (λ x. x.after_version) q.0);
      told_at = ap (λ x. x.occurred_at) q.0 ∙ sym (ap (λ x. x.updated_at) s);
      told_case = (ap (λ x. x.merchant_id) q.0, ap (λ x. x.case_id) q.0);
      told_evidence = ap (λ x. x.authoritative_evidence_reference) q.0;
      evidence = λ x. rw (ap (λ y. y.authoritative_evidence_reference) q.0) (q.1 (sym e ∙ x));
    }

-- A call that returns gives a valid case of the same subject, amount and counters, whatever the
-- case it was given.
pub transition_case-IsValid :
    (c : RecoveryCase) (r : TransitionRequest) (d : RecoveryCase) (t : CaseTransition)
    → transition_case c r ≡ ok (d, t)
    → IsValid d × SameSubject c d
transition_case-IsValid c r d t h =
    let p = transition_case-Parts c r h in
    let s = init_case_lem (moved_case c r p.at) d p.case_made in
    (
      init_case-IsValid (moved_case c r p.at) d p.case_made,
      record {
        same_case = (ap (λ x. x.case_id) s, ap (λ x. x.merchant_id) s);
        same_workflow = (ap (λ x. x.workflow_type) s, ap (λ x. x.subject_type) s);
        same_subject = (ap (λ x. x.subject_id) s, ap (λ x. x.customer_id) s);
        same_money = (ap (λ x. x.revenue_at_risk_minor) s, ap (λ x. x.currency) s);
        same_counts = (ap (λ x. x.retry_count) s, ap (λ x. x.contact_count) s);
        same_created = ap (λ x. x.created_at.instant) s;
      },
    )

-- What a caller has to supply, told without the code: the right version, an edge of the diagram, an
-- aware time that is not before the last update, a reason exactly at the end, evidence for a
-- recovery, and texts within their limits.
pub record Permitted (c : RecoveryCase) (r : TransitionRequest) : Type 0 where
  pub expected : c.state_version ≡ r.expected_version
  pub edge : c.state ⟶ r.to_state
  pub aware : r.occurred_at.zone ≢ naive
  pub later : c.updated_at.instant ≤ r.occurred_at.instant
  pub reason_iff_terminal : is_some r.terminal_reason ≡ is_terminal r.to_state
  pub reason_fits : FitsOpt r.terminal_reason 256
  pub wake_aware : NotNaive r.next_evaluation_at
  pub evidence : r.to_state ≡ recovered → is_missing r.authoritative_evidence_reference ≡ false
  pub evidence_fits : longer_than 512 r.authoritative_evidence_reference ≡ false
  pub actor_fits : Fits r.actor 128
  pub reason_code_fits : Fits r.reason_code 128
  pub correlation_fits : Fits r.correlation_id 128
  pub policy_version_fits : Fits r.policy_version 128
  pub detail_fits : longer_than 2000 r.reason_detail ≡ false

missing-FitsOpt : (o : Option String) → is_some o ≡ true → FitsOpt o 256 → is_missing o ≡ false
missing-FitsOpt none h f = cc
missing-FitsOpt (some String.[]) h f = absurd (omega arith)
missing-FitsOpt (some (String.◌∷◌ x s)) h f = refl

check_transition-Permitted :
    (c : RecoveryCase) (r : TransitionRequest)
    → Permitted c r
    → check_transition c r ≡ ok (at_utc r.occurred_at.instant)
unfolding check_transition utc
check_transition-Permitted c r p =
    ground (arith, edge-can_transition p.edge, missing-FitsOpt r.terminal_reason)

moved-IsValid :
    (c : RecoveryCase) (r : TransitionRequest)
    → IsValid c
    → Permitted c r
    → IsValid (in_utc (moved_case c r (at_utc r.occurred_at.instant)))
moved-IsValid c r v p = record {
  schema_supported = v.schema_supported;
  identifiers = record {
    case_id_fits = v.identifiers.case_id_fits;
    merchant_id_fits = v.identifiers.merchant_id_fits;
    subject_id_fits = v.identifiers.subject_id_fits;
    customer_id_fits = v.identifiers.customer_id_fits;
    diagnosis_fits = v.identifiers.diagnosis_fits;
    active_incident_id_fits = v.identifiers.active_incident_id_fits;
    terminal_reason_fits = p.reason_fits;
  };
  values = record {
    version_positive = omega arith;
    currency_code = v.values.currency_code;
    confidence_bounded = v.values.confidence_bounded;
    reason_iff_terminal = p.reason_iff_terminal;
  };
  times = record {
    created_utc = refl;
    updated_utc = refl;
    next_utc = utc_of-InUtc r.next_evaluation_at;
    chronological = omega (arith, p.later, v.times.chronological);
  };
}

init_transition-Permitted :
    (c : RecoveryCase) (r : TransitionRequest)
    → IsValid c
    → Permitted c r
    → let x = transition_record c r (at_utc r.occurred_at.instant) (c.state_version + 1) in
      init_transition x ≡ ok x
unfolding init_transition utc
init_transition-Permitted c r v p = ground (
  arith,
  edge-can_transition p.edge,
  Fits-identifier "case_id" c.case_id 128,
  Fits-identifier "merchant_id" c.merchant_id 128,
  Fits-identifier "actor" r.actor 128,
  Fits-identifier "reason_code" r.reason_code 128,
  Fits-identifier "correlation_id" r.correlation_id 128,
  Fits-identifier "policy_version" r.policy_version 128,
  v.identifiers.case_id_fits,
  v.identifiers.merchant_id_fits,
)

-- A permitted move of a valid case is made, and gives this case and this record.
pub transition_case-Permitted :
    (c : RecoveryCase) (r : TransitionRequest)
    → IsValid c
    → Permitted c r
    → let at = at_utc r.occurred_at.instant in
      transition_case c r
      ≡ ok (in_utc (moved_case c r at), transition_record c r at (c.state_version + 1))
unfolding transition_case
transition_case-Permitted c r v p = rw (
  check_transition-Permitted c r p,
  in_utc-init_case (moved_case c r (at_utc r.occurred_at.instant)) (zone-aware v.times.created_utc)
      (λ e. cc) p.wake_aware (moved-IsValid c r v p),
  init_transition-Permitted c r v p,
)

-- A stale caller is refused before anything else is looked at.
pub transition_case_stale :
    (c : RecoveryCase) (r : TransitionRequest)
    → c.state_version ≢ r.expected_version
    → transition_case c r ≡ err (stale_version r.expected_version c.state_version)
unfolding transition_case check_transition
transition_case_stale c r h = ground arith
