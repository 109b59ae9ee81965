-- ===== src/Outbox/Resolve.antt =====
-- packages/integrations/src/revenueguard_integrations/persistence/action_repositories.py: what settles
-- an action outside its attempts: a worker that was lost, a deadline, a cancellation, and evidence.
use revenue_guard.Prelude.{
  ℕ, String, Bool, true, false, not, ◌&&◌, ◌||◌, Option, none, some, List, [], ◌∷◌, any, is_empty,
  ltb, leb, ◌==◌, if◌then◌else◌, str_eq, is_none,
}
use revenue_guard.Fault.{Result, ok, value_error, action_error, ◌>>=◌, ◌>>◌, raise_if}
use revenue_guard.Policy.Vocabulary.{ActionType, action_value}
use revenue_guard.Actions.{ActionStatus, failed, unknown, is_succeeded, is_unknown}
use revenue_guard.Table.{select, order_by, one, one_or_none}
use revenue_guard.Outbox.Tables.{
  ActionRow, ActionAttempt, Database, is_pending, is_failed, has_key, is_open, open_of, save_action,
  save_attempt,
}
use revenue_guard.Outbox.Enqueue.{get_action}
use revenue_guard.Outbox.Claim.{expired_by, first_rows}
use revenue_guard.Outbox.Attempt.{or_text}

-- The join of `stale_inflight_actions`: the action of an open attempt whose lease has run out.
abbrev lost_action : (ActionRow → Bool) → Database → ℕ → ActionAttempt → Option ActionRow
lost_action locked db now t = elim (get_action db t.merchant_id t.recovery_action_id) [
  | none ↦ none
  | some r ↦
      if is_open t && is_pending r.status && expired_by now r.lease_expires_at && not (locked r)
      then some r
      else none
]

abbrev add_row : Option ActionRow → List ActionRow → List ActionRow
add_row none rows = rows
add_row (some r) rows = r ∷ rows

unfoldable pub lost_actions :
    (ActionRow → Bool) → Database → ℕ → List ActionAttempt → List ActionRow
lost_actions locked db now [] = []
lost_actions locked db now (t ∷ ts) =
    add_row (lost_action locked db now t) (lost_actions locked db now ts)

-- `.order_by(ActionAttempt.started_at)`.
abbrev starts_before : ActionAttempt → ActionAttempt → Bool
starts_before t u = leb t.started_at u.started_at

-- `.unique()`: an action stands where it first occurs.
unfoldable pub unique_rows : List ActionRow → List ActionRow → List ActionRow
unique_rows seen [] = []
unique_rows seen (r ∷ rows) =
    let rest = unique_rows (r ∷ seen) rows in
    let more = unique_rows seen rows in
    if any (has_key r.merchant_id r.id) seen then more else r ∷ rest

-- `stale_inflight_actions`.
unfoldable pub stale_inflight_actions :
    (ActionRow → Bool) → Database → ℕ → ℕ → Result (List ActionRow)
stale_inflight_actions locked db now limit = do
  raise_if (limit == 0) (value_error "limit must be positive")
  ok (
      unique_rows []
        (first_rows limit (lost_actions locked db now (order_by starts_before db.attempts))))

abbrev pub lost_attempt : ActionAttempt → ℕ → ActionAttempt
lost_attempt t now = record t {
  completed_at = some now;
  outcome_status = some unknown;
  response_category = some "WORKER_LOST_DURING_PROVIDER_CALL";
  error_code = some "INCOMPLETE_PROVIDER_CALL";
}

abbrev pub unknown_row : ActionRow → ℕ → String → ActionRow
unknown_row r now code = record r {
  status = unknown;
  unknown_since = some now;
  lease_token = none;
  lease_expires_at = none;
  last_error_code = some code;
  updated_at = now;
}

-- `mark_stale_inflight_unknown`.
unfoldable pub mark_stale_inflight_unknown :
    Database → ActionRow → ℕ → ℕ → Result (ActionRow × ActionAttempt × Database)
mark_stale_inflight_unknown db r now reconciliation_deadline = do
  t ← one (select (open_of r.merchant_id r.id) db.attempts)
  closed ← save_attempt db (open_of r.merchant_id r.id) (lost_attempt t now)
  let row : ActionRow = record (unknown_row r now "INCOMPLETE_PROVIDER_CALL") {
    reconciliation_deadline = some reconciliation_deadline;
  }
  saved ← save_action closed row
  ok (row, lost_attempt t now, saved)

-- `mark_verification_expired_unknown`.
unfoldable pub mark_verification_expired_unknown :
    Database → ActionRow → ℕ → Result (ActionRow × Database)
mark_verification_expired_unknown db r observed_at = do
  raise_if (not (is_succeeded r.status)) (action_error "ACTION_NOT_VERIFYING")
  saved ← save_action db (unknown_row r observed_at "VERIFICATION_DEADLINE_EXCEEDED")
  ok (unknown_row r observed_at "VERIFICATION_DEADLINE_EXCEEDED", saved)

abbrev pub cancelled_row : ActionRow → ℕ → String → ActionRow
cancelled_row r cancelled_at reason_code = record r {
  status = failed;
  last_error_code = some reason_code;
  dead_lettered_at = some cancelled_at;
  lease_token = none;
  lease_expires_at = none;
  updated_at = cancelled_at;
}

-- `cancel_before_execution`.
unfoldable pub cancel_before_execution :
    Database → ActionRow → ℕ → String → Result (ActionRow × Database)
cancel_before_execution db r cancelled_at reason_code = do
  raise_if (not (is_pending r.status)) (action_error "ACTION_NOT_PENDING")
  saved ← save_action db (cancelled_row r cancelled_at reason_code)
  ok (cancelled_row r cancelled_at reason_code, saved)

abbrev pub resolved_row : ActionRow → ActionStatus → ℕ → Option String → Option String → ActionRow
resolved_row r status resolved_at provider_object_id error_code = record r {
  status = status;
  provider_object_id = or_text provider_object_id r.provider_object_id;
  last_error_code = error_code;
  unknown_since = none;
  lease_token = none;
  lease_expires_at = none;
  updated_at = resolved_at;
  dead_lettered_at = if is_failed status then some resolved_at else r.dead_lettered_at;
}

-- `set_action_resolution`.
unfoldable pub set_action_resolution :
    Database
    → ActionRow
    → ActionStatus
    → ℕ
    → Option String
    → Option String
    → Result (ActionRow × Database)
set_action_resolution db r status resolved_at provider_object_id error_code = do
  saved ← save_action db (resolved_row r status resolved_at provider_object_id error_code)
  ok (resolved_row r status resolved_at provider_object_id error_code, saved)

-- The actions that evidence may be about.
abbrev type_in : List ActionType → ActionRow → Bool
type_in kinds r = any (λ k. str_eq (action_value r.action_type) (action_value k)) kinds

abbrev awaits_evidence : ActionRow → Bool
awaits_evidence r = is_succeeded r.status || is_unknown r.status

abbrev text_is : Option String → String → Bool
text_is none s = false
text_is (some t) s = str_eq t s

abbrev provides : String → String → List ActionType → ActionRow → Bool
provides merchant object kinds r =
    str_eq r.merchant_id merchant
    && text_is r.provider_object_id object
    && type_in kinds r
    && awaits_evidence r

-- `find_action_for_provider_object`.
unfoldable pub find_action_for_provider_object :
    Database → String → String → List ActionType → Result (Option ActionRow)
find_action_for_provider_object db merchant object kinds = do
  raise_if (is_empty kinds) (value_error "action_types cannot be empty")
  one_or_none (select (provides merchant object kinds) db.actions)

abbrev targets : String → String → List ActionType → ActionRow → Bool
targets merchant target kinds r =
    str_eq r.merchant_id merchant
    && str_eq r.target_id target
    && type_in kinds r
    && awaits_evidence r

-- `.order_by(authorized_at.desc(), id.desc()).limit(1)`, by the collation of the database.
abbrev is_later : (String → String → Bool) → ActionRow → ActionRow → Bool
is_later text_before r s =
    ltb s.authorized_at r.authorized_at
    || ((s.authorized_at == r.authorized_at) && text_before s.id r.id)

abbrev later_row : (String → String → Bool) → ActionRow → Option ActionRow → ActionRow
later_row text_before r none = r
later_row text_before r (some s) = if is_later text_before r s then r else s

unfoldable pub latest_row : (String → String → Bool) → List ActionRow → Option ActionRow
latest_row text_before [] = none
latest_row text_before (r ∷ rows) = some (later_row text_before r (latest_row text_before rows))

-- `find_latest_action_for_target`.
unfoldable pub find_latest_action_for_target :
    (String → String → Bool)
    → Database
    → String
    → String
    → List ActionType
    → Result (Option ActionRow)
find_latest_action_for_target text_before db merchant target kinds = do
  raise_if (is_empty kinds) (value_error "action_types cannot be empty")
  ok (latest_row text_before (select (targets merchant target kinds) db.actions))

-- `unknown_actions`: those that are not given up, by the time since which they are unknown.
abbrev unknown_by : ℕ → ActionRow → Bool
unknown_by now r =
    is_unknown r.status && expired_by now r.unknown_since && is_none r.dead_lettered_at

abbrev unknown_before : ActionRow → ActionRow → Bool
unknown_before r s = elim s.unknown_since [ none ↦ true | some at ↦ expired_by at r.unknown_since ]

unfoldable pub unknown_actions : (ActionRow → Bool) → Database → ℕ → ℕ → List ActionRow
unknown_actions locked db now limit =
    first_rows limit
      (order_by unknown_before (select (λ r. unknown_by now r && not (locked r)) db.actions))
