-- ===== src/Outbox/Claim.antt =====
-- packages/integrations/src/revenueguard_integrations/persistence/action_repositories.py: the claim of
-- due actions by a worker. The order of texts is the collation of the database, rows that another
-- transaction has locked are skipped, and `uuid4` gives a token for each row that is claimed.
use revenue_guard.Prelude.{
  ℕ, zero, suc, ◌+◌, String, Bool, false, not, ◌&&◌, ◌||◌, Option, none, some, List, [], ◌∷◌, any,
  is_none, ltb, leb, ◌==◌, str_eq,
}
use revenue_guard.Fault.{Result, ok, value_error, ◌>>=◌, ◌>>◌, raise_if}
use revenue_guard.Table.{select, order_by}
use revenue_guard.Outbox.Tables.{
  ActionRow, ActionAttempt, Database, is_pending, open_of, save_action,
}

pub record ClaimedAction : Type 0 where
  pub merchant_id : String
  pub action_id : String
  pub lease_token : String

-- `lease_expires_at <= now`, which is not true of NULL.
abbrev pub expired_by : ℕ → Option ℕ → Bool
expired_by now none = false
expired_by now (some at) = leb at now

abbrev pub lease_is_free : ℕ → ActionRow → Bool
lease_is_free now r = is_none r.lease_token || expired_by now r.lease_expires_at

-- The conditions of the query in `claim_due_actions`.
unfoldable pub is_due : List ActionAttempt → ℕ → ActionRow → Bool
is_due attempts now r =
    is_pending r.status
    && is_none r.dead_lettered_at
    && leb r.execute_after now
    && leb r.next_attempt_at now
    && ltb r.attempt_count r.max_attempts
    && lease_is_free now r
    && not (any (open_of r.merchant_id r.id) attempts)

-- `.limit(n)`.
unfoldable pub first_rows : ℕ → List ActionRow → List ActionRow
first_rows zero rows = []
first_rows (suc n) [] = []
first_rows (suc n) (r ∷ rows) = r ∷ first_rows n rows

module _ (text_before : String → String → Bool) where
  -- The order of `next_attempt_at`, `merchant_id` and `id`.
  abbrev pub comes_before : ActionRow → ActionRow → Bool
  comes_before r s =
      ltb r.next_attempt_at s.next_attempt_at
      || ((r.next_attempt_at == s.next_attempt_at)
          && (text_before r.merchant_id s.merchant_id
              || (str_eq r.merchant_id s.merchant_id && text_before r.id s.id)))

  -- The rows that the query gives.
  unfoldable pub due_rows : (ActionRow → Bool) → Database → ℕ → ℕ → List ActionRow
  due_rows locked db now limit =
      first_rows limit (
        order_by comes_before (select (λ r. is_due db.attempts now r && not (locked r)) db.actions))

-- A lease on a row.
abbrev pub leased : ActionRow → String → ℕ → ℕ → ActionRow
leased r token now lease_for = record r {
  lease_token = some token;
  lease_expires_at = some (now + lease_for);
  updated_at = now;
}

abbrev pub claim_of : ActionRow → String → ClaimedAction
claim_of r token = record { merchant_id = r.merchant_id; action_id = r.id; lease_token = token }

-- The loop of `claim_due_actions`, with the next token to draw.
unfoldable pub claim_rows :
    (ℕ → String) → Database → ℕ → ℕ → List ActionRow → ℕ → Result (List ClaimedAction × Database)
claim_rows tokens db now lease_for [] n = ok ([], db)
claim_rows tokens db now lease_for (r ∷ rows) n = do
  saved ← save_action db (leased r (tokens n) now lease_for)
  (claims, claimed) ← claim_rows tokens saved now lease_for rows (n + 1)
  ok (claim_of r (tokens n) ∷ claims, claimed)

-- `claim_due_actions`.
unfoldable pub claim_due_actions :
    (String → String → Bool)
    → (ActionRow → Bool)
    → (ℕ → String)
    → Database
    → ℕ
    → ℕ
    → ℕ
    → Result (List ClaimedAction × Database)
claim_due_actions text_before locked tokens db now lease_for limit = do
  raise_if ((lease_for == 0) || (limit == 0)) (value_error "lease_for and limit must be positive")
  claim_rows tokens db now lease_for (due_rows text_before locked db now limit) 0
