-- ===== src/Execution/Settled.antt =====
-- What the answer of a provider to an attempt leads to, from the end of the attempt on.
use revenue_guard.Prelude.{
  ℕ, ◌+◌, ◌<◌, String, ◌≡◌, sym, ap, ◌∙◌, subst, ◌⊎◌, inl, inr, true, false, some, List, any, arith,
  is_some,
}
use revenue_guard.Fault.{ok, ok-injective, >>=-eq-ok}
use revenue_guard.Actions.{ActionStatus, pending}
use revenue_guard.Table.{first_row}
use revenue_guard.Outbox.Tables.{ActionRow, Database, has_key, is_pending, is_failed}
use revenue_guard.Outbox.Attempt.{required_action, row_after, finish_attempt, held_by}
use revenue_guard.Outbox.Enqueue.{get_action}
use revenue_guard.Outbox.Begun.{required_action_found}
use revenue_guard.Outbox.Finished.{finish_attempt-Finished, row_after_lem}
use revenue_guard.Execution.World.{World, required_case}
use revenue_guard.Execution.Attempted.{
  ProviderExecutionResult, ExecutionDisposition, ServiceSettings, attempt_result,
  record_execution_result, retry_delay,
}
use revenue_guard.Execution.Moved.{CaseIn, required_case-OfCase}
use revenue_guard.Execution.Observed.{Adds}
use revenue_guard.Execution.Ended.{NoMoney, end_state, settle_lem}
use revenue_guard.Execution.Closed.{Finished-Closed}

-- An attempt that is to be made again: an explicit failure that the provider allows to repeat, of an
-- action with attempts left. The row is still pending and is due again after the delay, its lease is
-- given back, the attempt is closed, and the cases and the outcomes are as they were.
pub record Retried (settings : ServiceSettings) (w : World) (merchant action token : String)
    (before : ActionRow) (x : ProviderExecutionResult) (w' : World) : Type 0 where
  pub explicit : (is_failed x.status ≡ true) × (x.retryable ≡ true)
  pub left : before.attempt_count < before.max_attempts
  pub row : ActionRow
  pub after : get_action w'.db merchant action ≡ some row
  pub still_pending : row.status ≡ pending
  pub delay : ℕ
  pub delayed : retry_delay settings.retry_base before.attempt_count ≡ ok delay
  pub again_at : row.next_attempt_at ≡ x.observed_at.instant + delay
  pub given_back : is_some row.lease_token ≡ false
  pub closed : any (held_by merchant action token) w'.db.attempts ≡ false
  pub same_cases : (w'.cases ≡ w.cases) × (w'.transitions ≡ w.transitions)
  pub no_outcome : w'.db.outcomes ≡ w.db.outcomes

-- An attempt that is over for its action, which is not to be tried again: the row has the status of the answer and no lease, the attempt
-- is closed, the case is in the state for that status, in the answer of the service and in its row, and
-- at most an outcome without money is added.
pub record Ended (w : World) (merchant action token : String) (before : ActionRow)
    (x : ProviderExecutionResult) (d : ExecutionDisposition) (w' : World) : Type 0 where
  pub not_again : ¬ (
      (is_failed x.status ≡ true)
      × (x.retryable ≡ true)
      × (before.attempt_count < before.max_attempts))
  pub row : ActionRow
  pub after : get_action w'.db merchant action ≡ some row
  pub settled : row.status ≡ x.status
  pub given_back : is_some row.lease_token ≡ false
  pub closed : any (held_by merchant action token) w'.db.attempts ≡ false
  pub reached : d.case_state ≡ end_state x.status
  pub stored : CaseIn row.merchant_id row.recovery_case_id (end_state x.status) w'
  pub no_money : Adds w.db.outcomes NoMoney w'.db.outcomes

one_before :
    (db : Database) (merchant action : String) (b before : ActionRow)
    → required_action db merchant action ≡ ok b
    → get_action db merchant action ≡ some before
    → before ≡ b
one_before db merchant action b before found read =
    some_row (sym read ∙ required_action_found db merchant action b found)
  where
    some_row : {r s : ActionRow} → some r ≡ some s → r ≡ s
    some_row e = cc

module _ (sha256 : List ℕ → String) where
  pending_again :
      (settings : ServiceSettings) (r : ActionRow) (x : ProviderExecutionResult) (delay : ℕ)
      → is_pending x.status ≡ false
      → is_pending (row_after r (attempt_result settings x delay)).status ≡ true
      → (is_failed x.status ≡ true)
        × (x.retryable ≡ true)
        × (r.attempt_count < r.max_attempts)
        × ((row_after r (attempt_result settings x delay)).next_attempt_at
            ≡ x.observed_at.instant + delay)
  unfolding row_after
  pending_again settings r x delay answered again = ground arith

  ended_with :
      (settings : ServiceSettings) (r : ActionRow) (x : ProviderExecutionResult) (delay : ℕ)
      → r.status ≡ pending
      → is_pending (row_after r (attempt_result settings x delay)).status ≡ false
      → (row_after r (attempt_result settings x delay)).status ≡ x.status
  unfolding row_after
  ended_with settings r x delay open_still over = ground arith

  no_retry :
      (settings : ServiceSettings) (r : ActionRow) (x : ProviderExecutionResult) (delay : ℕ)
      → r.status ≡ pending
      → is_pending (row_after r (attempt_result settings x delay)).status ≡ false
      → ¬ ((is_failed x.status ≡ true) × (x.retryable ≡ true) × (r.attempt_count < r.max_attempts))
  unfolding row_after
  no_retry settings r x delay open_still over (e, u, below) =
      absurd (ground (arith, open_still, over, e, u, below))

  is_still_pending : (s : ActionStatus) → is_pending s ≡ true → s ≡ pending
  is_still_pending s h = ground arith

  -- A provider's answer that is recorded for a pending action has the action tried again exactly if it is
  -- an explicit failure that may be repeated, of an action with attempts left: the row is then due again
  -- after the delay and the case is left alone. Otherwise it ends the attempt with the row at the status
  -- of the answer: an ambiguous answer with the case unknown, an accepted request with the case
  -- verifying, a refusal with the case to be decided anew, in the row of the case too, and no answer
  -- credits money. Either way the attempt is closed and the lease given back.
  pub record_execution_result-Settled :
      (settings : ServiceSettings) (w w' : World) (merchant action token : String)
      (before : ActionRow) (x : ProviderExecutionResult) (ids : ℕ → String × String)
      (d : ExecutionDisposition)
      → get_action w.db merchant action ≡ some before
      → before.status ≡ pending
      → is_pending x.status ≡ false
      → record_execution_result sha256 settings w merchant action token x ids ≡ ok (d, w')
      → Retried settings w merchant action token before x w'
        ⊎ Ended w merchant action token before x d w'
  unfolding record_execution_result get_action
  record_execution_result-Settled settings w w' merchant action token before x ids d read open_still
        answered h =
      let (b, found, h0) = >>=-eq-ok (required_action w.db merchant action) _ h in
      let same = one_before w.db merchant action b before found read in
      let (delay, delayed, h1) = >>=-eq-ok (retry_delay settings.retry_base b.attempt_count) _ h0 in
      let y = attempt_result settings x delay in
      let ((r, t, db), finished, h2) =
        >>=-eq-ok (finish_attempt sha256 w.db merchant action token y (ids 0)) _ h1 in
      let (c, of_case, h3) = >>=-eq-ok (required_case (record w { db = db }) r) _ h2 in
      let f = finish_attempt-Finished sha256 w.db db merchant action token y (ids 0) r t finished in
      let z = Finished-Closed sha256 w.db db merchant action token y r t f in
      let own = (required_case-OfCase (record w { db = db }) r c of_case).0 in
      let is_before = one_before w.db merchant action b f.before found f.read ∙ sym same in
      let is_row : r ≡ row_after before y = f.row ∙ ap (λ k. row_after k y) is_before in
      let read_after : get_action db merchant action ≡ some r =
        z.after ∙ ap (λ k. some k) (sym f.row) in
      let (_, _, _, _, free) = row_after_lem before y in
      let given : is_some r.lease_token ≡ false =
        ap (λ (k : ActionRow). is_some k.lease_token) is_row ∙ free in
      elim (settle_lem sha256 (record w { db = db }) w' r c x ids d h3 own) [
        | inl (again, kept) ↦
            let (e, u, below, at) =
              pending_again settings before x delay answered
                (ap (λ (k : ActionRow). is_pending k.status) (sym is_row) ∙ again) in
            let same_world =
              ap (λ (k : ExecutionDisposition × World). k.1) (sym (ok-injective kept)) in
            inl (record {
              explicit = (e, u);
              left = below;
              row = r;
              after =
                  ap (λ (k : World). first_row (has_key merchant action) k.db.actions) same_world
                  ∙ read_after;
              still_pending = is_still_pending r.status again;
              delay = delay;
              delayed =
                  ap (λ (k : ActionRow). retry_delay settings.retry_base k.attempt_count) same
                  ∙ delayed;
              again_at = ap (λ (k : ActionRow). k.next_attempt_at) is_row ∙ at;
              given_back = given;
              closed =
                  ap (λ (k : World). any (held_by merchant action token) k.db.attempts) same_world
                  ∙ z.closed;
              same_cases = (
                ap (λ (k : World). k.cases) same_world,
                ap (λ (k : World). k.transitions) same_world,
              );
              no_outcome = ap (λ (k : World). k.db.outcomes) same_world ∙ z.same_outcomes;
            })
        | inr (over, s) ↦ inr (record {
          not_again =
              no_retry settings before x delay open_still
                (ap (λ (k : ActionRow). is_pending k.status) (sym is_row) ∙ over);
          row = r;
          after = ap (λ l. first_row (has_key merchant action) l) s.same_actions ∙ read_after;
          settled =
              ap (λ (k : ActionRow). k.status) is_row
              ∙ ended_with settings before x delay open_still
                  (ap (λ (k : ActionRow). is_pending k.status) (sym is_row) ∙ over);
          given_back = given;
          closed = ap (λ l. any (held_by merchant action token) l) s.same_attempts ∙ z.closed;
          reached = s.reached;
          stored = s.stored;
          no_money = subst (λ l. Adds l NoMoney w'.db.outcomes) z.same_outcomes s.no_money;
        })
      ]
