-- ===== src/Outbox/Attempt.antt =====
-- packages/integrations/src/revenueguard_integrations/persistence/action_repositories.py: the start
-- and the end of an attempt to execute an action.
use Prim.Native.String.{◌++◌ as append_text}
use revenue_guard.Prelude.{
  ℕ, zero, suc, ◌+◌, String, Bool, false, not, ◌&&◌, ◌||◌, Option, none, some, List, ◌∷◌, ◌++◌, any,
  is_some, is_missing, ltb, ◌==◌, if◌then◌else◌, str_eq, codes,
}
use revenue_guard.Prelude.Int.{pos}
use revenue_guard.Fault.{
  Result, ok, err, lookup_error, action_error, integrity_error, ◌>>=◌, ◌>>◌, raise_if,
}
use revenue_guard.Canonical.{decimal}
use revenue_guard.Value.{no_entry, entry_at, int_value, str_value, bool_value}
use revenue_guard.Actions.{ActionStatus, is_unknown}
use revenue_guard.Ledger.{AuditAppend}
use revenue_guard.Table.{select, one_or_none}
use revenue_guard.Outbox.Tables.{
  ActionRow, ActionAttempt, Database, status_value, is_pending, is_failed, attempt_of, open_of,
  attempt_constraints, save_action, save_attempt,
}
use revenue_guard.Outbox.Enqueue.{get_action, action_request, text_value, record_audit}
use revenue_guard.Outbox.Claim.{expired_by}

-- `text[:n]`.
abbrev pub str_take : ℕ → String → String
str_take zero s = String.[]
str_take (suc n) String.[] = String.[]
str_take (suc n) (String.◌∷◌ c s) = String.◌∷◌ c (str_take n s)

-- `get_action(..., for_update=True)`, which has to find the row.
unfoldable pub required_action : Database → String → String → Result ActionRow
required_action db merchant action = elim (get_action db merchant action) [
  | none ↦ err (lookup_error "tenant-scoped recovery action does not exist")
  | some r ↦ ok r
]

-- `action.lease_token != lease_token or action.lease_expires_at is None`, negated.
abbrev pub owns_lease : ActionRow → String → Bool
owns_lease r token = elim r.lease_token [
  | none ↦ false
  | some held ↦ str_eq held token && is_some r.lease_expires_at
]

-- The guards of `begin_attempt`, on the row that it locked.
unfoldable pub check_begin : Database → ActionRow → String → ℕ → Result (Unit {0})
check_begin db r token started_at = do
  raise_if (not (is_pending r.status)) (action_error "ACTION_NOT_PENDING")
  raise_if (not (owns_lease r token)) (action_error "STALE_ACTION_LEASE")
  raise_if (expired_by started_at r.lease_expires_at) (action_error "EXPIRED_ACTION_LEASE")
  running ← one_or_none (select (open_of r.merchant_id r.id) db.attempts)
  raise_if (is_some running) (action_error "ACTION_ATTEMPT_IN_FLIGHT")

-- `f"{action.idempotency_key}:{action.attempt_count}"`, encoded.
abbrev pub request_material : ActionRow → List ℕ
request_material r = codes r.idempotency_key ++ (b':' ∷ decimal r.attempt_count)

-- What the unique constraints of `action_attempts` refuse.
abbrev pub repeats_attempt : ActionAttempt → ActionAttempt → Bool
repeats_attempt new t =
    str_eq t.id new.id
    || str_eq t.request_id new.request_id
    || (attempt_of new.merchant_id new.recovery_action_id t
        && (t.attempt_number == new.attempt_number))

unfoldable pub insert_attempt : Database → ActionAttempt → Result Database
insert_attempt db t = do
  raise_if (not (attempt_constraints t) || any (repeats_attempt t) db.attempts) integrity_error
  ok (record db { attempts = t ∷ db.attempts })

-- One more attempt.
abbrev pub counted : ActionRow → ℕ → ActionRow
counted r started_at = record r { attempt_count = r.attempt_count + 1; updated_at = started_at }

-- The last field that an operation writes is `or`: the new value unless it is absent or empty.
abbrev pub or_text : Option String → Option String → Option String
or_text new old = if is_missing new then old else new

-- What the provider answered, with what the caller makes of it.
pub record AttemptResult : Type 0 where
  pub completed_at : ℕ
  pub outcome_status : ActionStatus
  pub response_category : String
  pub provider_object_id : Option String
  pub provider_status_code : Option ℕ
  pub error_code : Option String
  pub response_reference : Option String
  pub retryable : Bool
  pub retry_at : Option ℕ
  pub reconciliation_deadline : ℕ

abbrev pub completed : ActionAttempt → AttemptResult → ActionAttempt
completed t x = record t {
  completed_at = some x.completed_at;
  outcome_status = some x.outcome_status;
  response_category = some x.response_category;
  provider_object_id = x.provider_object_id;
  provider_status_code = x.provider_status_code;
  error_code = x.error_code;
  response_reference = x.response_reference;
  retryable = x.retryable;
}

-- The row once its lease is given back.
abbrev pub released : ActionRow → AttemptResult → ActionRow
released r x = record r {
  provider_object_id = or_text x.provider_object_id r.provider_object_id;
  last_error_code = x.error_code;
  lease_token = none;
  lease_expires_at = none;
  updated_at = x.completed_at;
}

-- An explicit failure that may be tried again, while attempts are left.
abbrev pub retries_at : ActionRow → AttemptResult → Option ℕ
retries_at r x =
    if is_failed x.outcome_status && x.retryable && ltb r.attempt_count r.max_attempts
    then x.retry_at
    else none

-- The row with the outcome.
abbrev pub settled : ActionRow → AttemptResult → ActionRow
settled r x = record r {
  status = x.outcome_status;
  unknown_since = if is_unknown x.outcome_status then some x.completed_at else none;
  reconciliation_deadline =
      if is_unknown x.outcome_status
      then some x.reconciliation_deadline
      else r.reconciliation_deadline;
  dead_lettered_at = if is_failed x.outcome_status then some x.completed_at else r.dead_lettered_at;
}

-- What is left of a failed attempt that is to be tried again, or of one that settles the action.
unfoldable pub row_after : ActionRow → AttemptResult → ActionRow
row_after r x = elim (retries_at r x) [
  | some at ↦ record (released r x) { next_attempt_at = at }
  | none ↦ settled (released r x) x
]

abbrev pub started_request : ActionRow → ActionAttempt → AuditAppend
started_request r t =
    action_request r "ACTION_ATTEMPT_STARTED" (some t.id) "WORKER" "action-execution"
      (entry_at "attempt_number" (int_value (pos t.attempt_number))
        (entry_at "request_id" (str_value t.request_id) no_entry))
      (some r.schema_version) t.started_at

abbrev pub finished_request : ActionRow → ActionAttempt → AttemptResult → AuditAppend
finished_request r t x =
    action_request r "ACTION_ATTEMPT_FINISHED" (some t.id) "WORKER" "action-execution"
      (entry_at "attempt_number" (int_value (pos t.attempt_number)) (
        entry_at "error_code" (text_value x.error_code) (
          entry_at "outcome_status" (str_value (status_value x.outcome_status)) (
            entry_at "response_category" (str_value x.response_category)
              (entry_at "retryable" (bool_value x.retryable) no_entry)))))
      (some r.schema_version) x.completed_at

-- The open attempt that holds a lease.
abbrev pub held_by : String → String → String → ActionAttempt → Bool
held_by merchant action token t = open_of merchant action t && str_eq t.lease_token token

unfoldable pub required_attempt : Database → String → String → String → Result ActionAttempt
required_attempt db merchant action token = do
  found ← one_or_none (select (held_by merchant action token) db.attempts)
  elim found [ none ↦ err (action_error "ACTION_ATTEMPT_NOT_OPEN") | some t ↦ ok t ]

module _ (sha256 : List ℕ → String) where
  abbrev pub new_attempt : ActionRow → String → ℕ → ActionAttempt
  new_attempt r token started_at = record {
    id = append_text "attempt_" (str_take 32 (sha256 (request_material r ++ codes ":row")));
    merchant_id = r.merchant_id;
    recovery_action_id = r.id;
    attempt_number = r.attempt_count;
    request_id = append_text "req_" (sha256 (request_material r));
    lease_token = token;
    started_at = started_at;
    completed_at = none;
    outcome_status = none;
    response_category = none;
    provider_object_id = none;
    provider_status_code = none;
    error_code = none;
    response_reference = none;
    retryable = false;
  }

  -- `begin_attempt`.
  unfoldable pub begin_attempt :
      Database
      → String
      → String
      → String
      → ℕ
      → String × String
      → Result (ActionRow × ActionAttempt × Database)
  begin_attempt db merchant action token started_at ids = do
    r ← required_action db merchant action
    check_begin db r token started_at
    saved ← save_action db (counted r started_at)
    let t = new_attempt (counted r started_at) token started_at
    added ← insert_attempt saved t
    audited ← record_audit sha256 added (started_request (counted r started_at) t) ids
    ok (counted r started_at, t, audited)

  -- The audit entry of `finish_attempt`, which a scheduled retry leaves out.
  unfoldable pub audit_finish :
      Database → ActionRow → ActionAttempt → AttemptResult → String × String → Result Database
  audit_finish db r t x ids =
      if is_some (retries_at r x)
      then ok db
      else record_audit sha256 db (finished_request r t x) ids

  -- `finish_attempt`.
  unfoldable pub finish_attempt :
      Database
      → String
      → String
      → String
      → AttemptResult
      → String × String
      → Result (ActionRow × ActionAttempt × Database)
  finish_attempt db merchant action token x ids = do
    r ← required_action db merchant action
    t ← required_attempt db merchant action token
    closed ← save_attempt db (held_by merchant action token) (completed t x)
    saved ← save_action closed (row_after r x)
    audited ← audit_finish saved r t x ids
    ok (row_after r x, completed t x, audited)
