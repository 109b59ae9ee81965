-- ===== src/Outbox/Steps.antt =====
-- The life of the outbox: any sequence of its operations, each of which returned.
use revenue_guard.Prelude.{
  ℕ, ◌-◌, ◌≤◌, String, Bool, ◌≡◌, Option, some, List, [], ◌∷◌, arith, length,
}
use revenue_guard.Fault.{ok}
use revenue_guard.Actions.{RecoveryAction, ActionStatus, VerifiedOutcome}
use revenue_guard.Table.{select}
use revenue_guard.Outbox.Tables.{
  ActionRow, ActionAttempt, OutcomeRow, Database, attempt_of, is_open,
}
use revenue_guard.Outbox.Enqueue.{get_action, store_action}
use revenue_guard.Outbox.Claim.{ClaimedAction, claim_due_actions}
use revenue_guard.Outbox.Attempt.{AttemptResult, begin_attempt, finish_attempt}
use revenue_guard.Outbox.Resolve.{
  mark_stale_inflight_unknown, mark_verification_expired_unknown, cancel_before_execution,
  set_action_resolution,
}
use revenue_guard.Outbox.Outcomes.{store_outcome}
use revenue_guard.Outbox.Sound.{IsSound, Numbered}
use revenue_guard.Outbox.Numbering.{select-closed}
use revenue_guard.Outbox.Kept.{read-at}
use revenue_guard.Outbox.Begun.{begin_attempt-IsSound}
use revenue_guard.Outbox.Finished.{finish_attempt-IsSound}
use revenue_guard.Outbox.Stored.{
  store_action-IsSound, mark_stale_inflight_unknown-IsSound,
  mark_verification_expired_unknown-IsSound, cancel_before_execution-IsSound,
  set_action_resolution-IsSound,
}
use revenue_guard.Outbox.Claimed.{claim_due_actions-IsSound}
use revenue_guard.Outbox.Credited.{store_outcome-IsSound}

module _ (sha256 : List ℕ → String) (text_before : String → String → Bool) where
  -- One operation that returned. An action that an operation is given was read in the same
  -- transaction.
  pub data Step (db : Database) : Database → Type 0 where
    stored :
        {db' : Database} (a : RecoveryAction) (policy correlation : String)
        (max_attempts deadline : ℕ) (parents_exist : Bool) (ids : String × String) (row : ActionRow)
        → store_action sha256 db a policy correlation max_attempts deadline parents_exist ids
          ≡ ok (row, db')
        → Step db db'
    claimed :
        {db' : Database} (locked : ActionRow → Bool) (tokens : ℕ → String) (now lease_for limit : ℕ)
        (claims : List ClaimedAction)
        → claim_due_actions text_before locked tokens db now lease_for limit ≡ ok (claims, db')
        → Step db db'
    begun :
        {db' : Database} (merchant action token : String) (at : ℕ) (ids : String × String)
        (row : ActionRow) (t : ActionAttempt)
        → begin_attempt sha256 db merchant action token at ids ≡ ok (row, t, db')
        → Step db db'
    finished :
        {db' : Database} (merchant action token : String) (x : AttemptResult)
        (ids : String × String) (row : ActionRow) (t : ActionAttempt)
        → finish_attempt sha256 db merchant action token x ids ≡ ok (row, t, db')
        → Step db db'
    lost :
        {db' : Database} (r row : ActionRow) (t : ActionAttempt) (now deadline : ℕ)
        → get_action db r.merchant_id r.id ≡ some r
        → mark_stale_inflight_unknown db r now deadline ≡ ok (row, t, db')
        → Step db db'
    expired :
        {db' : Database} (r row : ActionRow) (now : ℕ)
        → get_action db r.merchant_id r.id ≡ some r
        → mark_verification_expired_unknown db r now ≡ ok (row, db')
        → Step db db'
    cancelled :
        {db' : Database} (r row : ActionRow) (now : ℕ) (reason : String)
        → get_action db r.merchant_id r.id ≡ some r
        → cancel_before_execution db r now reason ≡ ok (row, db')
        → Step db db'
    resolved :
        {db' : Database} (r row : ActionRow) (status : ActionStatus) (now : ℕ)
        (provider_object error_code : Option String)
        → get_action db r.merchant_id r.id ≡ some r
        → set_action_resolution db r status now provider_object error_code ≡ ok (row, db')
        → Step db db'
    credited :
        {db' : Database} (o : VerifiedOutcome) (ids : String × String) (row : OutcomeRow)
        → store_outcome sha256 db o ids ≡ ok (row, db')
        → Step db db'

  pub data Reach (db : Database) : Database → Type 0 where
    here : Reach db db
    next : {d e : Database} → Reach db d → Step d e → Reach db e

  pub Step-IsSound : {d e : Database} → Step d e → IsSound d → IsSound e
  Step-IsSound {d} {e} (stored a policy correlation m deadline p ids row h) s =
      store_action-IsSound sha256 d e a policy correlation m deadline p ids row s h
  Step-IsSound {d} {e} (claimed locked tokens now lease_for limit claims h) s =
      claim_due_actions-IsSound text_before locked tokens d e now lease_for limit claims s h
  Step-IsSound {d} {e} (begun merchant action token at ids row t h) s =
      begin_attempt-IsSound sha256 d e merchant action token at ids row t s h
  Step-IsSound {d} {e} (finished merchant action token x ids row t h) s =
      finish_attempt-IsSound sha256 d e merchant action token x ids row t s h
  Step-IsSound {d} {e} (lost r row t now deadline there h) s =
      mark_stale_inflight_unknown-IsSound d e r row t now deadline s there h
  Step-IsSound {d} {e} (expired r row now there h) s =
      mark_verification_expired_unknown-IsSound d e r row now s there h
  Step-IsSound {d} {e} (cancelled r row now reason there h) s =
      cancel_before_execution-IsSound d e r row now reason s there h
  Step-IsSound {d} {e} (resolved r row status now object code there h) s =
      set_action_resolution-IsSound d e r row status now object code s there h
  Step-IsSound {d} {e} (credited o ids row h) s = store_outcome-IsSound sha256 d e o ids row s h

  pub Reach-IsSound : {d e : Database} → IsSound d → Reach d e → IsSound e
  Reach-IsSound s here = s
  Reach-IsSound s (next r step) = Step-IsSound step (Reach-IsSound s r)

Numbered-length : (n : ℕ) (ts : List ActionAttempt) → Numbered n ts → length ts ≡ n
Numbered-length n [] h = omega (arith, h)
Numbered-length n (t ∷ ts) h = omega (arith, h.1, Numbered-length (n - 1) ts h.3)

-- At most one attempt is open.
at_most_one : (n : ℕ) (ts : List ActionAttempt) → Numbered n ts → length (select is_open ts) ≤ 1
unfolding select
at_most_one n [] h = omega arith
at_most_one n (t ∷ ts) h = ground (arith, select-closed is_open (λ u k. k) ts h.2)

module _ (sha256 : List ℕ → String) (text_before : String → String → Bool) where
  -- From a sound outbox, such as an empty one, any sequence of operations, of any workers in any order,
  -- leaves each action with as many attempts as it counts, no more than its maximum, numbered from one
  -- without gaps, and at most one of them open.
  pub attempts_bounded :
      {d e : Database} (merchant action : String) (r : ActionRow)
      → IsSound d
      → Reach sha256 text_before d e
      → get_action e merchant action ≡ some r
      → let ts = select (attempt_of merchant action) e.attempts in
        Numbered r.attempt_count ts
        × (length ts ≡ r.attempt_count)
        × (r.attempt_count ≤ r.max_attempts)
        × (length (select is_open ts) ≤ 1)
  attempts_bounded {d} {e} merchant action r s steps there =
      let a = read-at e merchant action r (Reach-IsSound sha256 text_before s steps) there in
      let ts = select (attempt_of merchant action) e.attempts in
      (
        a.numbered,
        Numbered-length r.attempt_count ts a.numbered,
        a.bounded,
        at_most_one r.attempt_count ts a.numbered,
      )
