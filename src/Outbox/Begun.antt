-- ===== src/Outbox/Begun.antt =====
-- What an attempt that was begun or finished has found, and that both keep the outbox sound.
use revenue_guard.Prelude.{
  ℕ, String, ◌≡◌, refl, sym, ap, ◌∙◌, subst, true, false, not, ◌||◌, Option-cases, inl, inr, Option,
  none, some, List, [], ◌∷◌, arith, any, is_some, str_eq_iff,
}
use revenue_guard.Fault.{
  ok, integrity_error, action_error, raise_if, raise_if-eq-ok, ok-injective, >>=-eq-ok,
}
use revenue_guard.Ledger
use revenue_guard.Ledger.{AuditAppend}
use revenue_guard.Table.{select, one_or_none, select-and}
use revenue_guard.Outbox.Tables.{
  ActionRow, ActionAttempt, Database, attempt_of, is_open, is_pending, open_of, save_action,
  attempt_constraints,
}
use revenue_guard.Outbox.Enqueue.{get_action, record_audit}
use revenue_guard.Outbox.Attempt.{
  required_action, owns_lease, check_begin, counted, insert_attempt, new_attempt, started_request,
  begin_attempt, repeats_attempt,
}
use revenue_guard.Outbox.Claim.{expired_by}
use revenue_guard.Outbox.Sound.{Agrees, IsSound, Numbered, get_action-key}
use revenue_guard.Outbox.Numbering.{none_open}
use revenue_guard.Outbox.Kept.{own_attempts, read-Agrees, open-IsSound}

pub required_action_found :
    (db : Database) (merchant action : String) (r : ActionRow)
    → required_action db merchant action ≡ ok r
    → get_action db merchant action ≡ some r
unfolding required_action
required_action_found db merchant action r h = elim (Option-cases (get_action db merchant action)) [
  | inl gone ↦ absurd (ground (arith, gone, h))
  | inr (s, there) ↦ ground (arith, there, h)
]

pub read_own :
    (db : Database) (merchant action : String) (r : ActionRow)
    → get_action db merchant action ≡ some r
    → get_action db r.merchant_id r.id ≡ some r
read_own db merchant action r h =
    let (m, a) = get_action-key db merchant action h in
    subst (λ x. get_action db x r.id ≡ some r) (sym m)
      (subst (λ x. get_action db merchant x ≡ some r) (sym a) h)

one_or_none_empty : (ts : List ActionAttempt) → one_or_none ts ≡ ok none → ts ≡ []
one_or_none_empty [] h = refl
one_or_none_empty (t ∷ []) h = cc
one_or_none_empty (t ∷ u ∷ ts) h = cc

-- What the guards of `begin_attempt` let through.
pub record MayBegin (db : Database) (r : ActionRow) (token : String) (started_at : ℕ) : Type 0 where
  pub pending_still : is_pending r.status ≡ true
  pub lease_owned : owns_lease r token ≡ true
  pub lease_running : expired_by started_at r.lease_expires_at ≡ false
  pub none_running : select (open_of r.merchant_id r.id) db.attempts ≡ []

pub check_begin-MayBegin :
    (db : Database) (r : ActionRow) (token : String) (started_at : ℕ)
    → check_begin db r token started_at ≡ ok tt
    → MayBegin db r token started_at
unfolding check_begin
check_begin-MayBegin db r token started_at h =
    let (p, h1) =
      raise_if-eq-ok (not (is_pending r.status)) (action_error "ACTION_NOT_PENDING") _ h in
    let (o, h2) =
      raise_if-eq-ok (not (owns_lease r token)) (action_error "STALE_ACTION_LEASE") _ h1 in
    let (x, h3) =
      raise_if-eq-ok (expired_by started_at r.lease_expires_at)
        (action_error "EXPIRED_ACTION_LEASE") _ h2 in
    let (running, found, h4) =
      >>=-eq-ok (one_or_none (select (open_of r.merchant_id r.id) db.attempts)) _ h3 in
    record {
      pending_still = ground (arith, p);
      lease_owned = ground (arith, o);
      lease_running = x;
      none_running =
          one_or_none_empty (select (open_of r.merchant_id r.id) db.attempts)
            (found ∙ ap (λ y. ok y) (absent running h4));
    }
  where
    absent :
        (o : Option ActionAttempt)
        → raise_if (is_some o) (action_error "ACTION_ATTEMPT_IN_FLIGHT") ≡ ok tt
        → o ≡ none
    absent none h = refl
    absent (some t) h = cc

owns-leased :
    (r : ActionRow) (token : String) → owns_lease r token ≡ true → is_some r.lease_token ≡ true
owns-leased r token h = ground arith

module _ (sha256 : List ℕ → String) where
  pub record_audit-IsSound :
      (db db' : Database) (q : AuditAppend) (ids : String × String)
      → IsSound db
      → record_audit sha256 db q ids ≡ ok db'
      → IsSound db'
  unfolding record_audit
  record_audit-IsSound db db' q ids s h =
      let ((entry, ledger), _, e) = >>=-eq-ok (Ledger.append sha256 db.ledger q ids.0 ids.1) _ h in
      subst IsSound (ok-injective e) (record { agree = s.agree; keys_unique = s.keys_unique })

  -- The audit ledger is a table of its own.
  pub record_audit-attempts :
      (db db' : Database) (q : AuditAppend) (ids : String × String)
      → record_audit sha256 db q ids ≡ ok db'
      → (db'.attempts ≡ db.attempts) × (db'.actions ≡ db.actions)
  unfolding record_audit
  record_audit-attempts db db' q ids h =
      let ((entry, ledger), _, e) = >>=-eq-ok (Ledger.append sha256 db.ledger q ids.0 ids.1) _ h in
      (
        ap (λ (x : Database). x.attempts) (sym (ok-injective e)),
        ap (λ (x : Database). x.actions) (sym (ok-injective e)),
      )

  -- An action that may begin agrees with one more attempt.
  begun-Agrees :
      (db : Database) (r : ActionRow) (token : String) (started_at : ℕ)
      → Agrees r (own_attempts db r)
      → MayBegin db r token started_at
      → Agrees
          (counted r started_at)
          (new_attempt sha256 (counted r started_at) token started_at ∷ own_attempts db r)
  begun-Agrees db r token started_at a m =
      let (closed, none_there) =
        none_open (own_attempts db r)
          (sym (select-and (attempt_of r.merchant_id r.id) is_open db.attempts) ∙ m.none_running) in
      let below = a.room (owns-leased r token m.lease_owned) none_there in
      record {
        numbered = (
          refl,
          omega arith,
          closed,
          subst (λ n. Numbered n (own_attempts db r)) (omega arith) a.numbered,
        );
        bounded = omega (arith, below);
        room = λ held other. cc;
      }

  insert_attempt_lem :
      (db added : Database) (t : ActionAttempt)
      → insert_attempt db t ≡ ok added
      → record db { attempts = t ∷ db.attempts } ≡ added
  unfolding insert_attempt
  insert_attempt_lem db added t h =
      let (_, e) =
        raise_if-eq-ok (not (attempt_constraints t) || any (repeats_attempt t) db.attempts)
          integrity_error _ h in
      ok-injective e

  -- What an attempt that was begun has found and has left.
  pub record Begun (db : Database) (merchant action token : String) (started_at : ℕ) (r : ActionRow)
      (t : ActionAttempt) (db' : Database) : Type 0 where
    pub before : ActionRow
    pub read : get_action db merchant action ≡ some before
    pub permitted : MayBegin db before token started_at
    pub row : r ≡ counted before started_at
    pub attempt : t ≡ new_attempt sha256 (counted before started_at) token started_at
    pub saved : Database
    pub action_saved : save_action db (counted before started_at) ≡ ok saved
    pub audited :
        (ids : String × String) × (record_audit sha256
            (record saved {
              attempts =
                  new_attempt sha256 (counted before started_at) token started_at ∷ saved.attempts;
            })
            (started_request
              (counted before started_at)
              (new_attempt sha256 (counted before started_at) token started_at))
            ids
          ≡ ok db')

  pub begin_attempt-Begun :
      (db db' : Database) (merchant action token : String) (started_at : ℕ) (ids : String × String)
      (r : ActionRow) (t : ActionAttempt)
      → begin_attempt sha256 db merchant action token started_at ids ≡ ok (r, t, db')
      → Begun db merchant action token started_at r t db'
  unfolding begin_attempt
  begin_attempt-Begun db db' merchant action token started_at ids r t h =
      let (b, found, h1) = >>=-eq-ok (required_action db merchant action) _ h in
      let (_, checked, h2) = >>=-eq-ok (check_begin db b token started_at) _ h1 in
      let (saved, wrote, h3) = >>=-eq-ok (save_action db (counted b started_at)) _ h2 in
      let fresh : ActionAttempt = new_attempt sha256 (counted b started_at) token started_at in
      let (added, inserted, h4) = >>=-eq-ok (insert_attempt saved fresh) _ h3 in
      let (audited, told, h5) =
        >>=-eq-ok (record_audit sha256 added (started_request (counted b started_at) fresh) ids) _
          h4 in
      let e : (counted b started_at, fresh, audited) ≡ (r, t, db') = ok-injective h5 in
      record {
        before = b;
        read = required_action_found db merchant action b found;
        permitted = check_begin-MayBegin db b token started_at checked;
        row = ap (λ (x : ActionRow × ActionAttempt × Database). x.0) (sym e);
        attempt = ap (λ (x : ActionRow × ActionAttempt × Database). x.1) (sym e);
        saved = saved;
        action_saved = wrote;
        audited = (
          ids,
          ap (λ x. record_audit sha256 x (started_request (counted b started_at) fresh) ids)
                (insert_attempt_lem saved added fresh inserted)
              ∙ told
              ∙ ap (λ (x : ActionRow × ActionAttempt × Database). ok x.2) e,
        );
      }

  -- Beginning an attempt keeps the outbox sound.
  pub begin_attempt-IsSound :
      (db db' : Database) (merchant action token : String) (started_at : ℕ) (ids : String × String)
      (r : ActionRow) (t : ActionAttempt)
      → IsSound db
      → begin_attempt sha256 db merchant action token started_at ids ≡ ok (r, t, db')
      → IsSound db'
  begin_attempt-IsSound db db' merchant action token started_at ids r t s h =
      let b = begin_attempt-Begun db db' merchant action token started_at ids r t h in
      let there = read_own db merchant action b.before b.read in
      record_audit-IsSound _ db' _ b.audited.0
        (open-IsSound db b.saved b.before (counted b.before started_at)
          (new_attempt sha256 (counted b.before started_at) token started_at) s there
          (own_attempt b.before)
          (begun-Agrees db b.before token started_at (read-Agrees db b.before s there) b.permitted)
          b.action_saved)
        b.audited.1
    where
      own_attempt :
          (x : ActionRow)
          → attempt_of x.merchant_id x.id
              (new_attempt sha256 (counted x started_at) token started_at)
            ≡ true
      own_attempt x =
          rw ((str_eq_iff x.merchant_id x.merchant_id).1 refl, (str_eq_iff x.id x.id).1 refl)
