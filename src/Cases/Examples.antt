-- ===== src/Cases/Examples.antt =====
-- Cases at concrete inputs.
use revenue_guard.Prelude.{ℕ, ◌+◌, ◌≡◌, refl, All, none, some, List, [], ◌∷◌, arith}
use revenue_guard.Fault.{transition_error, ok, err, stale_version}
use revenue_guard.Clock.{offset, at_utc, utc, utc_opt}
use revenue_guard.Identifier.{identifier, identifier_opt}
use revenue_guard.Cases
use revenue_guard.Cases.{
  CaseState, detected, diagnosing, policy_check, ready, executing, verifying, recovered, stopped,
  RecoveryCase, CaseTransition, TransitionRequest, can_transition, transition_case, init_case,
  transition_record, moved_case, is_terminal,
}
use revenue_guard.Cases.Validity.{IsValid, init_case_idem, init_case-IsValid, in_utc}
use revenue_guard.Cases.Graph.{execute, InContract}
use revenue_guard.Cases.Moves.{
  Moved, SameSubject, Permitted, transition_case-Moved, transition_case-IsValid,
  transition_case-Permitted,
}
use revenue_guard.Cases.History.{
  History, start, move, Accounted, History-Accounted, History-InContract, terminal-History,
  transition_case_once, Enters, HasEvidence, recovered_needs,
}

abbrev sample : RecoveryCase
sample = record {
  case_id = "case_1";
  merchant_id = "merchant_demo_001";
  workflow_type = Cases.failed_subscription;
  subject_type = Cases.subscription;
  subject_id = "sub_1";
  revenue_at_risk_minor = 49900;
  currency = "INR";
  state = ready;
  state_version = 5;
  retry_count = 0;
  contact_count = 0;
  created_at = at_utc 1000;
  updated_at = at_utc 2000;
  customer_id = none;
  diagnosis = some "EXPIRED_PAYMENT_METHOD";
  diagnosis_confidence = some 9700;
  active_incident_id = none;
  next_evaluation_at = none;
  terminal_reason = none;
  schema = "1.0";
}

abbrev request : ℕ → CaseState → TransitionRequest
request version state = record {
  expected_version = version;
  to_state = state;
  actor = "worker";
  reason_code = "ACTION_STARTED";
  correlation_id = "corr_1";
  occurred_at = record { instant = 3000; zone = offset 330 };
  reason_detail = none;
  policy_version = "phase3-conservative-default-1.0";
  authoritative_evidence_reference = none;
  terminal_reason = none;
  next_evaluation_at = none;
}

abbrev recovery : TransitionRequest
recovery = record (request 7 recovered) {
  terminal_reason = some "PAYMENT_VERIFIED";
  authoritative_evidence_reference = some "evt_9";
}

abbrev after_move : RecoveryCase → TransitionRequest → RecoveryCase
after_move c r = in_utc (moved_case c r (at_utc r.occurred_at.instant))

abbrev record_of : RecoveryCase → TransitionRequest → CaseTransition
record_of c r = transition_record c r (at_utc r.occurred_at.instant) (c.state_version + 1)

abbrev case_executing : RecoveryCase
case_executing = after_move sample (request 5 executing)

abbrev case_verifying : RecoveryCase
case_verifying = after_move case_executing (request 6 verifying)

abbrev case_recovered : RecoveryCase
case_recovered = after_move case_verifying recovery

first_move :
    transition_case sample (request 5 executing)
    ≡ ok (case_executing, record_of sample (request 5 executing))
unfolding transition_case Cases.check_transition init_case Cases.check_identifiers
    Cases.check_values Cases.normalize_times Cases.init_transition can_transition utc utc_opt
    identifier identifier_opt
first_move = refl

second_move :
    transition_case case_executing (request 6 verifying)
    ≡ ok (case_verifying, record_of case_executing (request 6 verifying))
unfolding transition_case Cases.check_transition init_case Cases.check_identifiers
    Cases.check_values Cases.normalize_times Cases.init_transition can_transition utc utc_opt
    identifier identifier_opt
second_move = refl

third_move :
    transition_case case_verifying recovery ≡ ok (case_recovered, record_of case_verifying recovery)
unfolding transition_case Cases.check_transition init_case Cases.check_identifiers
    Cases.check_values Cases.normalize_times Cases.init_transition can_transition utc utc_opt
    identifier identifier_opt
third_move = refl

-- A recovery without evidence is refused.
no_evidence :
    transition_case case_verifying (record recovery { authoritative_evidence_reference = some "" })
    ≡ err (transition_error "AUTHORITATIVE_EVIDENCE_REQUIRED")
unfolding transition_case Cases.check_transition init_case Cases.check_identifiers
    Cases.check_values Cases.normalize_times Cases.init_transition can_transition utc utc_opt
    identifier identifier_opt
no_evidence = refl

-- Nor does a case leave a state by an edge that the diagram lacks.
no_edge :
    transition_case sample (request 5 stopped) ≡ err (transition_error "ILLEGAL_CASE_TRANSITION")
unfolding transition_case Cases.check_transition init_case Cases.check_identifiers
    Cases.check_values Cases.normalize_times Cases.init_transition can_transition utc utc_opt
    identifier identifier_opt
no_edge = refl

sample-IsValid : IsValid sample
unfolding init_case Cases.check_identifiers Cases.check_values Cases.normalize_times utc utc_opt
    identifier identifier_opt
sample-IsValid = init_case-IsValid sample sample refl

whole_log : List CaseTransition
whole_log =
    record_of sample (request 5 executing)
    ∷ record_of case_executing (request 6 verifying)
    ∷ record_of case_verifying recovery
    ∷ []

whole : History sample case_recovered whole_log
unfolding whole_log
whole =
    move (request 5 executing) first_move
      (move (request 6 verifying) second_move (move recovery third_move start))

init_case_idem_example : IsValid sample × (init_case sample ≡ ok sample)
unfolding init_case Cases.check_identifiers Cases.check_values Cases.normalize_times utc utc_opt
    identifier identifier_opt
init_case_idem_example = init_case_idem sample sample refl

transition_case-Moved_example :
    Moved sample (request 5 executing) case_executing (record_of sample (request 5 executing))
transition_case-Moved_example =
    transition_case-Moved sample (request 5 executing) case_executing
      (record_of sample (request 5 executing)) first_move

transition_case-IsValid_example : IsValid case_executing × SameSubject sample case_executing
transition_case-IsValid_example =
    transition_case-IsValid sample (request 5 executing) case_executing
      (record_of sample (request 5 executing)) first_move

request-Permitted : Permitted sample (request 5 executing)
request-Permitted = record {
  expected = refl;
  edge = execute;
  aware = λ e. cc;
  later = omega arith;
  reason_iff_terminal = refl;
  reason_fits = tt;
  wake_aware = tt;
  evidence = λ e. cc;
  evidence_fits = refl;
  actor_fits = omega arith;
  reason_code_fits = omega arith;
  correlation_fits = omega arith;
  policy_version_fits = omega arith;
  detail_fits = refl;
}

transition_case-Permitted_example :
    transition_case sample (request 5 executing)
    ≡ ok (case_executing, record_of sample (request 5 executing))
transition_case-Permitted_example =
    transition_case-Permitted sample (request 5 executing) sample-IsValid request-Permitted

transition_case_once_example :
    transition_case case_executing (request 5 stopped) ≡ err (stale_version 5 6)
transition_case_once_example =
    transition_case_once sample case_executing (record_of sample (request 5 executing))
      (request 5 executing) (request 5 stopped) first_move refl

History-Accounted_example : Accounted sample case_recovered whole_log
History-Accounted_example = History-Accounted sample case_recovered whole_log whole

recovered_needs_example : Enters executing whole_log × HasEvidence whole_log
recovered_needs_example = recovered_needs sample case_recovered whole_log whole refl refl

terminal-History_example : ◌≡◌ {A = List CaseTransition} [] [] × (case_recovered ≡ case_recovered)
terminal-History_example = terminal-History case_recovered case_recovered [] refl start

History-InContract_example :
    All (λ (t : CaseTransition). InContract t.before_state t.after_state) whole_log
History-InContract_example = History-InContract sample case_recovered whole_log whole
