-- ===== src/Execution/Lost.antt =====
-- packages/integrations/src/revenueguard_integrations/execution/service.py: `mark_stale_calls_unknown`,
-- what the service makes of attempts whose worker was lost.
use revenue_guard.Prelude.{if◌then◌else◌, ℕ, ◌+◌, String, Bool, false, none, some, List, [], ◌∷◌}
use revenue_guard.Fault.{◌>>=◌, Result, ok}
use revenue_guard.Clock.{Datetime, at_utc, utc}
use revenue_guard.Cases.{executing, state_eq}
use revenue_guard.Cases
use revenue_guard.Actions.{no_source}
use revenue_guard.Actions
use revenue_guard.Outbox.Tables.{ActionRow}
use revenue_guard.Outbox.Resolve.{stale_inflight_actions, mark_stale_inflight_unknown}
use revenue_guard.Execution.World.{World, required_case, no_options, move, observe}
use revenue_guard.Execution.Attempted.{ExecutionDisposition, ServiceSettings, disposition}

module _ (sha256 : List ℕ → String) where
  -- One round of the loop of `mark_stale_calls_unknown`.
  unfoldable pub mark_lost_call :
      ServiceSettings
      → World
      → ActionRow
      → ℕ
      → String × String
      → String × String
      → Result (ExecutionDisposition × World)
  mark_lost_call settings w r now move_ids outcome_ids = do
    (row, t, marked) ← mark_stale_inflight_unknown w.db r now (now + settings.unknown_ttl)
    let w0 : World = record w { db = marked }
    c ← required_case w0 row
    (moved, w1) ←
        (if state_eq c.state executing
          then move sha256 w0 c row Cases.unknown "INCOMPLETE_PROVIDER_CALL" (at_utc now) no_options
              move_ids
          else ok (c, w0))
    w2 ←
        observe sha256 w1 row Actions.unknown
          (record {
            source = no_source;
            observed_at = at_utc now;
            evidence_reference = none;
            reason_code = some "INCOMPLETE_PROVIDER_CALL";
            authoritative = false;
            recovered_amount_minor = 0;
            verified_at = none;
          })
          outcome_ids
    ok (disposition row Actions.unknown moved "UNKNOWN", w2)

  unfoldable pub mark_lost_calls :
      ServiceSettings
      → World
      → List ActionRow
      → ℕ
      → ℕ
      → (ℕ → String × String)
      → Result (List ExecutionDisposition × World)
  mark_lost_calls settings w [] now n ids = ok ([], w)
  mark_lost_calls settings w (r ∷ rows) now n ids = do
    (d, w1) ← mark_lost_call settings w r now (ids n) (ids (n + 1))
    (ds, w2) ← mark_lost_calls settings w1 rows now (n + 2) ids
    ok (d ∷ ds, w2)

  -- `mark_stale_calls_unknown`.
  unfoldable pub mark_stale_calls_unknown :
      ServiceSettings
      → (ActionRow → Bool)
      → World
      → Datetime
      → ℕ
      → (ℕ → String × String)
      → Result (List ExecutionDisposition × World)
  mark_stale_calls_unknown settings locked w now limit ids = do
    observed ← utc "timestamp" now
    rows ← stale_inflight_actions locked w.db observed.instant limit
    mark_lost_calls settings w rows observed.instant 0 ids
