-- ===== src/Execution/Waiting.antt =====
-- packages/integrations/src/revenueguard_integrations/persistence/action_repositories.py:
-- `actions_for_reconciliation`, the query that joins the outbox with the cases, for the lookups that the
-- worker makes.
use revenue_guard.Prelude.{ℕ, String, Bool, not, ◌&&◌, ◌||◌, List, any, is_none, ltb, ◌==◌, str_eq}
use revenue_guard.Cases.{RecoveryCase, verifying, state_eq}
use revenue_guard.Cases
use revenue_guard.Actions.{is_succeeded, is_unknown}
use revenue_guard.Table.{select, order_by}
use revenue_guard.Outbox.Tables.{ActionRow}
use revenue_guard.Outbox.Claim.{expired_by, first_rows}
use revenue_guard.Execution.World.{World, has_case_key}

-- `RecoveryCase.state.in_(("UNKNOWN", "VERIFYING"))`, for the case of the action.
abbrev in_question : List RecoveryCase → ActionRow → Bool
in_question cases r =
    any
      (λ c.
        has_case_key r.merchant_id r.recovery_case_id c
        && (state_eq c.state Cases.unknown || state_eq c.state verifying))
      cases

-- The conditions of the query.
unfoldable pub is_waiting : List RecoveryCase → ℕ → ActionRow → Bool
is_waiting cases now r =
    (is_unknown r.status || is_succeeded r.status)
    && is_none r.dead_lettered_at
    && in_question cases r
    && (is_none r.unknown_since || expired_by now r.unknown_since)

-- The order of `updated_at`, `merchant_id` and `id`, by the collation of the database.
abbrev waits_longer : (String → String → Bool) → ActionRow → ActionRow → Bool
waits_longer text_before r s =
    ltb r.updated_at s.updated_at
    || ((r.updated_at == s.updated_at)
        && (text_before r.merchant_id s.merchant_id
            || (str_eq r.merchant_id s.merchant_id && text_before r.id s.id)))

-- `actions_for_reconciliation`.
unfoldable pub actions_for_reconciliation :
    (String → String → Bool) → (ActionRow → Bool) → World → ℕ → ℕ → List ActionRow
actions_for_reconciliation text_before locked w now limit = first_rows limit (
    order_by (waits_longer text_before)
      (select (λ r. is_waiting w.cases now r && not (locked r)) w.db.actions))
