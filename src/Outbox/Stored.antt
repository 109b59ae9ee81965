-- ===== src/Outbox/Stored.antt =====
-- Storing an action, claiming due actions, and settling an action keep the outbox sound.
use revenue_guard.Prelude.{
  ℕ, String, ◌≡◌, refl, sym, ap, subst, Bool, false, not, ◌&&◌, ◌||◌, Bool-cases, inl, inr, Option,
  none, some, List, [], ◌∷◌, arith, any, is_some, str_eq, ltb, leb,
}
use revenue_guard.Fault.{
  ok, integrity_error, action_error, raise_if-eq-ok, ok-injective, >>=-eq-ok, value_error,
}
use revenue_guard.Actions.{RecoveryAction, ActionStatus, is_succeeded}
use revenue_guard.Table.{select, first_row, one, one_or_none, one_or_none_holds}
use revenue_guard.Outbox.Tables.{
  active_equivalent, ActionRow, ActionAttempt, Database, has_key, attempt_of, is_open, is_pending,
  is_failed, open_of, save_action, save_attempt, action_constraints,
}
use revenue_guard.Outbox.Enqueue.{
  get_action, insert_action, authorized_request, record_audit, add_action, reuse_action, store_row,
  store_action, row_of_action, key_is,
}
use revenue_guard.Outbox.Resolve.{
  lost_attempt, unknown_row, mark_stale_inflight_unknown, mark_verification_expired_unknown,
  cancelled_row, cancel_before_execution, resolved_row, set_action_resolution,
}
use revenue_guard.Outbox.Keys.{has_key_eq, both_true}
use revenue_guard.Outbox.Sound.{Agrees, AgreesOpt, IsSound, Sound, Numbered}
use revenue_guard.Outbox.Kept.{
  own_attempts, read-Agrees, Agrees-released, complete-Numbered, complete-IsSound,
  save_action-IsSound,
}
use revenue_guard.Outbox.Begun.{record_audit-IsSound}

-- A new action has no attempt yet.
insert-Sound :
    (actions : List ActionRow) (attempts : List ActionAttempt) (r : ActionRow)
    → Sound actions attempts
    → first_row (has_key r.merchant_id r.id) actions ≡ none
    → r.attempt_count ≡ 0
    → r.lease_token ≡ none
    → Sound (r ∷ actions) attempts
unfolding first_row
insert-Sound actions attempts r sound absent counts free merchant action =
    elim (Bool-cases (has_key merchant action r)) [
      | inl same ↦ rw same (fresh (has_key_eq merchant action r same))
      | inr differ ↦ rw differ (sound merchant action)
    ]
  where
    no_attempts :
        (m a : String)
        → first_row (has_key m a) actions ≡ none
        → select (attempt_of m a) attempts ≡ []
    no_attempts m a gone =
        subst (λ o. AgreesOpt o (select (attempt_of m a) attempts)) gone (sound m a)

    first : (ts : List ActionAttempt) → ts ≡ [] → Agrees r ts
    first ts e = record {
      numbered = subst (λ x. Numbered r.attempt_count x) (sym e) counts;
      bounded = omega (arith, counts);
      room = λ leased _. absurd (ground (arith, leased, free));
    }

    fresh :
        (r.merchant_id ≡ merchant) × (r.id ≡ action)
        → Agrees r (select (attempt_of merchant action) attempts)
    fresh k = first (select (attempt_of merchant action) attempts) (
        no_attempts merchant action (
          subst (λ m. first_row (has_key m action) actions ≡ none) k.0
            (subst (λ a. first_row (has_key r.merchant_id a) actions ≡ none) k.1 absent)))

absent_of : (o : Option ActionRow) → is_some o ≡ false → o ≡ none
absent_of none h = refl
absent_of (some r) h = cc

insert_action-IsSound :
    (db db' : Database) (r : ActionRow) (parents_exist : Bool)
    → IsSound db
    → r.attempt_count ≡ 0
    → r.lease_token ≡ none
    → insert_action db r parents_exist ≡ ok db'
    → IsSound db'
unfolding insert_action get_action
insert_action-IsSound db db' r parents_exist s counts free h =
    let (_, h1) =
      raise_if-eq-ok (not (action_constraints r) || not parents_exist) integrity_error _ h in
    let (gone, h2) =
      raise_if-eq-ok (is_some (first_row (has_key r.merchant_id r.id) db.actions)) integrity_error _
        h1 in
    let (_, e) =
      raise_if-eq-ok (not (is_failed r.status) && any (active_equivalent r) db.actions)
        integrity_error _ h2 in
    let absent = absent_of (first_row (has_key r.merchant_id r.id) db.actions) gone in
    subst IsSound (ok-injective e) (record {
      agree = insert-Sound db.actions db.attempts r s.agree absent counts free;
      keys_unique = (absent, s.keys_unique);
    })

-- Lost workers, deadlines, cancellations and evidence.
pub mark_verification_expired_unknown-IsSound :
    (db db' : Database) (r row : ActionRow) (observed_at : ℕ)
    → IsSound db
    → get_action db r.merchant_id r.id ≡ some r
    → mark_verification_expired_unknown db r observed_at ≡ ok (row, db')
    → IsSound db'
unfolding mark_verification_expired_unknown
mark_verification_expired_unknown-IsSound db db' r row observed_at s there h =
    let (_, h1) =
      raise_if-eq-ok (not (is_succeeded r.status)) (action_error "ACTION_NOT_VERIFYING") _ h in
    let expired : ActionRow = unknown_row r observed_at "VERIFICATION_DEADLINE_EXCEEDED" in
    let (saved, wrote, e) = >>=-eq-ok (save_action db expired) _ h1 in
    subst IsSound (ap (λ (x : ActionRow × Database). x.1) (ok-injective e)) (
      save_action-IsSound db saved r expired s there
        (Agrees-released r expired (own_attempts db r) (read-Agrees db r s there) refl refl refl)
        wrote)

pub cancel_before_execution-IsSound :
    (db db' : Database) (r row : ActionRow) (cancelled_at : ℕ) (reason_code : String)
    → IsSound db
    → get_action db r.merchant_id r.id ≡ some r
    → cancel_before_execution db r cancelled_at reason_code ≡ ok (row, db')
    → IsSound db'
unfolding cancel_before_execution
cancel_before_execution-IsSound db db' r row cancelled_at reason_code s there h =
    let (_, h1) =
      raise_if-eq-ok (not (is_pending r.status)) (action_error "ACTION_NOT_PENDING") _ h in
    let cancelled : ActionRow = cancelled_row r cancelled_at reason_code in
    let (saved, wrote, e) = >>=-eq-ok (save_action db cancelled) _ h1 in
    subst IsSound (ap (λ (x : ActionRow × Database). x.1) (ok-injective e)) (
      save_action-IsSound db saved r cancelled s there
        (Agrees-released r cancelled (own_attempts db r) (read-Agrees db r s there) refl refl refl)
        wrote)

pub set_action_resolution-IsSound :
    (db db' : Database) (r row : ActionRow) (status : ActionStatus) (resolved_at : ℕ)
    (provider_object_id error_code : Option String)
    → IsSound db
    → get_action db r.merchant_id r.id ≡ some r
    → set_action_resolution db r status resolved_at provider_object_id error_code ≡ ok (row, db')
    → IsSound db'
unfolding set_action_resolution
set_action_resolution-IsSound db db' r row status resolved_at provider_object_id error_code s there
      h =
    let resolved : ActionRow = resolved_row r status resolved_at provider_object_id error_code in
    let (saved, wrote, e) = >>=-eq-ok (save_action db resolved) _ h in
    subst IsSound (ap (λ (x : ActionRow × Database). x.1) (ok-injective e)) (
      save_action-IsSound db saved r resolved s there
        (Agrees-released r resolved (own_attempts db r) (read-Agrees db r s there) refl refl refl)
        wrote)

one_found :
    (ts : List ActionAttempt) (t : ActionAttempt) → one ts ≡ ok t → one_or_none ts ≡ ok (some t)
one_found [] t h = cc
one_found (u ∷ []) t h = cc
one_found (u ∷ v ∷ ts) t h = cc

pub mark_stale_inflight_unknown-IsSound :
    (db db' : Database) (r row : ActionRow) (t : ActionAttempt) (now deadline : ℕ)
    → IsSound db
    → get_action db r.merchant_id r.id ≡ some r
    → mark_stale_inflight_unknown db r now deadline ≡ ok (row, t, db')
    → IsSound db'
unfolding mark_stale_inflight_unknown
mark_stale_inflight_unknown-IsSound db db' r row t now deadline s there h =
    let test : ActionAttempt → Bool = open_of r.merchant_id r.id in
    let (u, found, h1) = >>=-eq-ok (one (select test db.attempts)) _ h in
    let (closed, completes, h2) = >>=-eq-ok (save_attempt db test (lost_attempt u now)) _ h1 in
    let lost : ActionRow = record (unknown_row r now "INCOMPLETE_PROVIDER_CALL") {
      reconciliation_deadline = some deadline;
    } in
    let (saved, wrote, e) = >>=-eq-ok (save_action closed lost) _ h2 in
    let before = read-Agrees db r s there in
    let held = one_found (select test db.attempts) u found in
    let own =
      (both_true (attempt_of r.merchant_id r.id u) (is_open u)
        (one_or_none_holds test db.attempts u held)).0 in
    subst IsSound (ap (λ (x : ActionRow × ActionAttempt × Database). x.2) (ok-injective e)) (
      complete-IsSound db closed saved r lost test (lost_attempt u now) s there (λ v k. k) own
        (record {
          numbered =
              complete-Numbered r.merchant_id r.id test (λ v k. k) r.attempt_count db.attempts u
                (lost_attempt u now) before.numbered held own refl;
          bounded = before.bounded;
          room = λ leased _. cc;
        })
        completes wrote)

module _ (sha256 : List ℕ → String) where
  add_action-IsSound :
      (db db' : Database) (r row : ActionRow) (parents_exist : Bool) (ids : String × String)
      → IsSound db
      → r.attempt_count ≡ 0
      → r.lease_token ≡ none
      → add_action sha256 db r parents_exist ids ≡ ok (row, db')
      → IsSound db'
  unfolding add_action
  add_action-IsSound db db' r row parents_exist ids s counts free h =
      let (stored, inserted, h1) = >>=-eq-ok (insert_action db r parents_exist) _ h in
      let (audited, told, e) =
        >>=-eq-ok (record_audit sha256 stored (authorized_request r) ids) _ h1 in
      subst IsSound (ap (λ (x : ActionRow × Database). x.1) (ok-injective e)) (
        record_audit-IsSound sha256 stored audited (authorized_request r) ids
          (insert_action-IsSound db stored r parents_exist s counts free inserted) told)

  reuse_action-same :
      (db db' : Database) (existing r row : ActionRow)
      → reuse_action sha256 db existing r ≡ ok (row, db')
      → db ≡ db'
  unfolding reuse_action
  reuse_action-same db db' existing r row h =
      let (_, e) =
        raise_if-eq-ok
          (not (str_eq existing.merchant_id r.merchant_id) || not (str_eq existing.id r.id))
          (action_error "IDEMPOTENCY_KEY_CONFLICT") _ h in
      ap (λ (x : ActionRow × Database). x.1) (ok-injective e)

  store_row-IsSound :
      (db db' : Database) (r row : ActionRow) (parents_exist : Bool) (ids : String × String)
      → IsSound db
      → r.attempt_count ≡ 0
      → r.lease_token ≡ none
      → store_row sha256 db r parents_exist ids ≡ ok (row, db')
      → IsSound db'
  unfolding store_row
  store_row-IsSound db db' r row parents_exist ids s counts free h =
      let (found, there, h1) =
        >>=-eq-ok (one_or_none (select (key_is r.idempotency_key) db.actions)) _ h in
      chosen found h1
    where
      chosen :
          (o : Option ActionRow)
          → (elim o [
            | some e ↦ reuse_action sha256 db e r
            | none ↦ add_action sha256 db r parents_exist ids
          ])
            ≡ ok (row, db')
          → IsSound db'
      chosen none k = add_action-IsSound db db' r row parents_exist ids s counts free k
      chosen (some e) k = subst IsSound (reuse_action-same db db' e r row k) s

  pub store_action-IsSound :
      (db db' : Database) (a : RecoveryAction) (policy correlation : String)
      (max_attempts deadline : ℕ) (parents_exist : Bool) (ids : String × String) (row : ActionRow)
      → IsSound db
      → store_action sha256 db a policy correlation max_attempts deadline parents_exist ids
        ≡ ok (row, db')
      → IsSound db'
  unfolding store_action
  store_action-IsSound db db' a policy correlation max_attempts deadline parents_exist ids row s h =
      let (_, h1) =
        raise_if-eq-ok (ltb max_attempts 1) (value_error "max_attempts must be positive") _ h in
      let (_, h2) =
        raise_if-eq-ok (leb deadline a.authorized_at.instant)
          (value_error "reconciliation deadline must follow authorization") _ h1 in
      store_row-IsSound db db' (row_of_action a policy correlation max_attempts deadline) row
        parents_exist ids s refl refl h2
