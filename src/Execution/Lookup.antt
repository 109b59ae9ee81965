-- ===== src/Execution/Lookup.antt =====
-- packages/integrations/src/revenueguard_integrations/execution/service.py: `record_lookup`, what the
-- service makes of a lookup of an action at its provider.
use revenue_guard.Prelude.{
  ℕ, String, Bool, true, false, not, ◌&&◌, ◌||◌, Option, none, some, List, leb, if◌then◌else◌,
}
use revenue_guard.Fault.{Result, ok, value_error, ◌>>=◌, ◌>>◌, raise_if}
use revenue_guard.Clock.{Datetime, utc}
use revenue_guard.Cases.{
  CaseState, decision_pending, verifying, escalated, recovered, RecoveryCase, state_eq,
}
use revenue_guard.Cases
use revenue_guard.Actions.{
  ActionStatus, pending, succeeded, failed, EvidenceSource, provider_lookup, simulator,
  is_succeeded, is_unknown,
}
use revenue_guard.Actions
use revenue_guard.Outbox.Tables.{ActionRow, is_pending, is_failed, save_action}
use revenue_guard.Outbox.Attempt.{required_action}
use revenue_guard.Outbox.Resolve.{mark_verification_expired_unknown, set_action_resolution}
use revenue_guard.Execution.World.{
  World, required_case, Observation, no_options, with_evidence, ending, move, observe, or_default,
  amount_of,
}
use revenue_guard.Execution.Attempted.{ExecutionDisposition, disposition}

pub record ProviderLookupResult : Type 0 where
  pub status : ActionStatus
  pub evidence_source : EvidenceSource
  pub evidence_reference : String
  pub observed_at : Datetime
  pub is_authoritative : Bool
  pub provider_object_id : Option String
  pub reason_code : Option String

abbrev is_lookup_source : EvidenceSource → Bool
is_lookup_source provider_lookup = true
is_lookup_source simulator = true
is_lookup_source _ = false

-- `ProviderLookupResult.__post_init__`.
unfoldable pub init_lookup_result : ProviderLookupResult → Result ProviderLookupResult
init_lookup_result x = do
  at ← utc "timestamp" x.observed_at
  raise_if (not (is_lookup_source x.evidence_source))
      (value_error "lookup evidence must come from lookup or simulator")
  raise_if (is_unknown x.status && x.is_authoritative)
      (value_error "UNKNOWN lookup results cannot be authoritative")
  ok (record x { observed_at = at })

-- Whether the lookup settles the action.
abbrev pub is_conclusive : ProviderLookupResult → Bool
is_conclusive x = x.is_authoritative && (is_succeeded x.status || is_failed x.status)

abbrev pub reached : Option ℕ → ℕ → Bool
reached none at = false
reached (some deadline) at = leb deadline at

-- `unresolved_at_deadline`.
abbrev pub unresolved_at_deadline : ActionRow → ProviderLookupResult → Bool
unresolved_at_deadline r x =
    reached r.reconciliation_deadline x.observed_at.instant && not (is_conclusive x)

-- `resolved_status`.
abbrev pub resolved_status : ProviderLookupResult → ActionStatus
resolved_status x = if is_succeeded x.status || is_pending x.status then succeeded else failed

abbrev pub looked_up : ProviderLookupResult → Option String → Bool → ℕ → Observation
looked_up x reason_code authoritative amount = record {
  source = x.evidence_source;
  observed_at = x.observed_at;
  evidence_reference = some x.evidence_reference;
  reason_code = reason_code;
  authoritative = authoritative;
  recovered_amount_minor = amount;
  verified_at = none;
}

-- The action, the case and the tables that the steps of a lookup hand on.
pub record Looked : Type 0 where
  pub row : ActionRow
  pub recovery_case : RecoveryCase
  pub world : World

module _ (sha256 : List ℕ → String) (ids : ℕ → String × String) (x : ProviderLookupResult) where
  -- An accepted action whose deadline has passed without proof becomes unknown.
  unfoldable pub expire_now : Looked → Result Looked
  expire_now l = do
    (row, db) ← mark_verification_expired_unknown l.world.db l.row x.observed_at.instant
    (moved, w1) ←
        move sha256 (record (l.world) { db = db }) l.recovery_case row Cases.unknown
          "VERIFICATION_DEADLINE_EXCEEDED" x.observed_at no_options (ids 0)
    w2 ←
        observe sha256 w1 row Actions.unknown
          (looked_up x (some "VERIFICATION_DEADLINE_EXCEEDED") false 0) (ids 1)
    ok (record { row = row; recovery_case = moved; world = w2 })

  abbrev pub must_expire : Looked → Bool
  must_expire l = state_eq l.recovery_case.state verifying && unresolved_at_deadline l.row x

  unfoldable pub expire_verification : Looked → Result Looked
  expire_verification l = if must_expire l then expire_now l else ok l

  -- An unknown action whose deadline has passed is given to a human.
  unfoldable pub escalate : Looked → Result (ExecutionDisposition × World)
  escalate l = do
    let dead : ActionRow = record (l.row) {
      dead_lettered_at = some x.observed_at.instant;
      updated_at = x.observed_at.instant;
    }
    saved ← save_action l.world.db dead
    (moved, w1) ←
        move sha256 (record (l.world) { db = saved }) l.recovery_case dead escalated
          "RECONCILIATION_DEADLINE_EXCEEDED" x.observed_at no_options (ids 2)
    ok (disposition dead Actions.unknown moved "ESCALATED", w1)

  -- `set_action_resolution`, where the lookup resolves the action.
  unfoldable pub resolve_now : Looked → Result Looked
  resolve_now l = do
    (row, db) ←
        set_action_resolution l.world.db l.row (resolved_status x) x.observed_at.instant
          x.provider_object_id (if is_failed (resolved_status x) then x.reason_code else none)
    ok (record l { row = row; world = record (l.world) { db = db } })

  unfoldable pub resolve_row : Looked → Result Looked
  resolve_row l =
      if state_eq l.recovery_case.state Cases.unknown || is_failed (resolved_status x)
      then resolve_now l
      else ok l

  -- An unknown case goes back to verification.
  unfoldable pub reconcile_now : Looked → Result Looked
  reconcile_now l = do
    (moved, w1) ←
        move sha256 l.world l.recovery_case l.row verifying "UNKNOWN_RECONCILED" x.observed_at
          (with_evidence (some x.evidence_reference)) (ids 3)
    ok (record l { recovery_case = moved; world = w1 })

  unfoldable pub reconcile_case : Looked → Result Looked
  reconcile_case l = if state_eq l.recovery_case.state Cases.unknown then reconcile_now l else ok l

  -- The money that the lookup proves.
  unfoldable pub recovered_amount : Looked → Result ℕ
  recovered_amount l =
      if is_succeeded x.status && x.is_authoritative then amount_of l.row.parameters else ok 0

  -- The last move of the case.
  unfoldable pub conclude_recovered : Looked → Result Looked
  conclude_recovered l = do
    let reason = or_default x.reason_code "AUTHORITATIVE_RECOVERY"
    (moved, w1) ←
        move sha256 l.world l.recovery_case l.row recovered reason x.observed_at
          (ending (some x.evidence_reference) reason) (ids 5)
    ok (record l { recovery_case = moved; world = w1 })

  unfoldable pub conclude_failed : Looked → Result Looked
  conclude_failed l = do
    (moved, w1) ←
        move sha256 l.world l.recovery_case l.row decision_pending
          (or_default x.reason_code "AUTHORITATIVE_ACTION_FAILURE") x.observed_at no_options (ids 5)
    ok (record l { recovery_case = moved; world = w1 })

  unfoldable pub conclude : Looked → Result Looked
  conclude l =
      if is_succeeded x.status && x.is_authoritative
      then conclude_recovered l
      else if is_failed x.status && x.is_authoritative
      then conclude_failed l
      else ok l

  -- The rest of `record_lookup`, for an answer that is no `UNKNOWN`.
  unfoldable pub reconcile : Looked → Result (ExecutionDisposition × World)
  reconcile l = do
    resolved ← resolve_row l
    checked ← reconcile_case resolved
    amount ← recovered_amount checked
    w1 ←
        observe sha256 checked.world checked.row x.status
          (looked_up x x.reason_code x.is_authoritative amount) (ids 4)
    ended ← conclude (record checked { world = w1 })
    ok (disposition ended.row (resolved_status x) ended.recovery_case "RECONCILED", ended.world)

  abbrev pub still_open : Looked → String
  still_open l =
      if state_eq l.recovery_case.state Cases.unknown
      then "STILL_UNKNOWN"
      else "AWAITING_VERIFICATION"

  -- What follows the check of the deadline.
  unfoldable pub after_deadline : Looked → Result (ExecutionDisposition × World)
  after_deadline l =
      if state_eq l.recovery_case.state Cases.unknown && unresolved_at_deadline l.row x
      then escalate l
      else if is_unknown x.status
      then ok (disposition l.row l.row.status l.recovery_case (still_open l), l.world)
      else reconcile l

  -- `record_lookup`, for the action and the case that it locked.
  unfoldable pub look_up : Looked → Result (ExecutionDisposition × World)
  look_up l =
      if not
        (state_eq l.recovery_case.state Cases.unknown || state_eq l.recovery_case.state verifying)
      then ok (disposition l.row l.row.status l.recovery_case "STALE_LOOKUP", l.world)
      else (expire_verification l >>= after_deadline)

  -- `record_lookup`.
  unfoldable pub record_lookup : World → String → String → Result (ExecutionDisposition × World)
  record_lookup w merchant action = do
    r ← required_action w.db merchant action
    c ← required_case w r
    look_up (record { row = r; recovery_case = c; world = w })
