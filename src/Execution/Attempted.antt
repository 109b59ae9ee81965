-- ===== src/Execution/Attempted.antt =====
-- packages/integrations/src/revenueguard_integrations/execution/service.py: what the service makes of
-- the answer of a provider to an attempt. The answer is that of execution/providers.py, whose adapters
-- stand outside this model.
use revenue_guard.Prelude.{
  ltb, if◌then◌else◌, ℕ, ◌+◌, ◌-◌, ◌*◌, ◌^◌, String, Bool, true, false, ◌&&◌, ◌||◌, ◌==◌, Option,
  none, some, List, min,
}
use revenue_guard.Fault.{overflow_error, ◌>>=◌, ◌>>◌, Result, ok, value_error, raise_if}
use revenue_guard.Clock.{Datetime, seconds, utc}
use revenue_guard.Cases.{CaseState, decision_pending, verifying, RecoveryCase}
use revenue_guard.Cases
use revenue_guard.Actions.{
  ActionStatus, pending, succeeded, failed, EvidenceSource, is_succeeded, is_unknown,
}
use revenue_guard.Actions
use revenue_guard.Outbox.Tables.{ActionRow, is_pending}
use revenue_guard.Outbox.Attempt.{AttemptResult, required_action, finish_attempt}
use revenue_guard.Execution.World.{
  World, required_case, Observation, no_options, move, observe, or_default,
}

pub record ProviderExecutionResult : Type 0 where
  pub status : ActionStatus
  pub evidence_source : EvidenceSource
  pub observed_at : Datetime
  pub response_category : String
  pub provider_object_id : Option String
  pub response_reference : Option String
  pub provider_status_code : Option ℕ
  pub error_code : Option String
  pub retryable : Bool

-- `ProviderExecutionResult.__post_init__`.
unfoldable pub init_execution_result : ProviderExecutionResult → Result ProviderExecutionResult
init_execution_result x = do
  raise_if (is_pending x.status)
      (value_error "provider execution must be succeeded, failed, or unknown")
  raise_if (is_unknown x.status && x.retryable)
      (value_error "ambiguous results must reconcile instead of retrying")
  at ← utc "timestamp" x.observed_at
  ok (record x { observed_at = at })

pub record ExecutionDisposition : Type 0 where
  pub action_id : String
  pub action_status : ActionStatus
  pub case_state : CaseState
  pub reason_code : String

-- The durations that the service is constructed with.
pub record ServiceSettings : Type 0 where
  pub retry_base : ℕ
  pub unknown_ttl : ℕ

-- `ActionExecutionService.__init__`.
unfoldable pub init_settings : ServiceSettings → Result ServiceSettings
init_settings s = do
  raise_if ((s.retry_base == 0) || (s.unknown_ttl == 0))
      (value_error "retry and unknown durations must be positive")
  ok s

-- `timedelta.max`, in microseconds.
abbrev pub longest_timedelta : ℕ
longest_timedelta = 86399999999999999999

-- `min(retry_base * (2 ** max(attempt_count - 1, 0)), timedelta(minutes=5))`, whose product comes first.
unfoldable pub retry_delay : ℕ → ℕ → Result ℕ
retry_delay retry_base attempt_count = do
  let product = retry_base * 2 ^ (attempt_count - 1)
  raise_if (ltb longest_timedelta product) overflow_error
  ok (min product (seconds 300))

abbrev pub attempt_result : ServiceSettings → ProviderExecutionResult → ℕ → AttemptResult
attempt_result settings x delay = record {
  completed_at = x.observed_at.instant;
  outcome_status = x.status;
  response_category = x.response_category;
  provider_object_id = x.provider_object_id;
  provider_status_code = x.provider_status_code;
  error_code = x.error_code;
  response_reference = x.response_reference;
  retryable = x.retryable;
  retry_at = some (x.observed_at.instant + delay);
  reconciliation_deadline = x.observed_at.instant + settings.unknown_ttl;
}

abbrev pub disposition : ActionRow → ActionStatus → RecoveryCase → String → ExecutionDisposition
disposition r status c reason_code = record {
  action_id = r.id;
  action_status = status;
  case_state = c.state;
  reason_code = reason_code;
}

-- An observation of the provider's answer, which is no authority unless it is a refusal.
abbrev pub answer : ProviderExecutionResult → Option String → Bool → Observation
answer x reason_code authoritative = record {
  source = x.evidence_source;
  observed_at = x.observed_at;
  evidence_reference = x.response_reference;
  reason_code = reason_code;
  authoritative = authoritative;
  recovered_amount_minor = 0;
  verified_at = none;
}

module _ (sha256 : List ℕ → String) where
  -- The three ends of `record_execution_result` for an attempt that settled its action.
  unfoldable pub settle_unknown :
      World
      → ActionRow
      → RecoveryCase
      → ProviderExecutionResult
      → (ℕ → String × String)
      → Result (ExecutionDisposition × World)
  settle_unknown w r c x ids = do
    let reason = or_default x.error_code "PROVIDER_RESULT_UNKNOWN"
    (moved, w1) ← move sha256 w c r Cases.unknown reason x.observed_at no_options (ids 1)
    w2 ← observe sha256 w1 r Actions.unknown (answer x (some reason) false) (ids 2)
    ok (disposition r Actions.unknown moved "UNKNOWN", w2)

  unfoldable pub settle_accepted :
      World
      → ActionRow
      → RecoveryCase
      → ProviderExecutionResult
      → (ℕ → String × String)
      → Result (ExecutionDisposition × World)
  settle_accepted w r c x ids = do
    (moved, w1) ←
        move sha256 w c r verifying "PROVIDER_REQUEST_ACCEPTED" x.observed_at no_options (ids 1)
    w2 ←
        observe sha256 w1 r pending (answer x (some "AWAITING_AUTHORITATIVE_OUTCOME") false) (ids 2)
    ok (disposition r succeeded moved "VERIFYING", w2)

  unfoldable pub settle_rejected :
      World
      → ActionRow
      → RecoveryCase
      → ProviderExecutionResult
      → (ℕ → String × String)
      → Result (ExecutionDisposition × World)
  settle_rejected w r c x ids = do
    (checked, w1) ←
        move sha256 w c r verifying "PROVIDER_REQUEST_REJECTED" x.observed_at no_options (ids 1)
    let reason = or_default x.error_code "PROVIDER_REQUEST_REJECTED"
    w2 ← observe sha256 w1 r failed (answer x (some reason) true) (ids 2)
    (moved, w3) ←
        move sha256 w2 checked r decision_pending "VERIFIED_ACTION_FAILURE" x.observed_at no_options
          (ids 3)
    ok (disposition r failed moved "FAILED", w3)

  -- What follows the end of the attempt.
  unfoldable pub settle :
      World
      → ActionRow
      → RecoveryCase
      → ProviderExecutionResult
      → (ℕ → String × String)
      → Result (ExecutionDisposition × World)
  settle w r c x ids =
      if is_pending r.status
      then ok (disposition r pending c "EXPLICIT_FAILURE_RETRY_SCHEDULED", w)
      else if is_unknown x.status
      then settle_unknown w r c x ids
      else if is_succeeded x.status
      then settle_accepted w r c x ids
      else settle_rejected w r c x ids

  -- `record_execution_result`.
  unfoldable pub record_execution_result :
      ServiceSettings
      → World
      → String
      → String
      → String
      → ProviderExecutionResult
      → (ℕ → String × String)
      → Result (ExecutionDisposition × World)
  record_execution_result settings w merchant action token x ids = do
    before ← required_action w.db merchant action
    delay ← retry_delay settings.retry_base before.attempt_count
    (r, t, finished) ←
        finish_attempt sha256 w.db merchant action token (attempt_result settings x delay) (ids 0)
    let w0 : World = record w { db = finished }
    c ← required_case w0 r
    settle w0 r c x ids
