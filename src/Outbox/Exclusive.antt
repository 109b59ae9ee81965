-- ===== src/Outbox/Exclusive.antt =====
-- Two workers do not hold one action: neither by claims nor by attempts.
use revenue_guard.Prelude.{
  ℕ, ◌+◌, ◌<◌, String, ◌≡◌, refl, sym, subst, Bool, true, false, not, ◌&&◌, ◌||◌, Bool-cases, inl,
  inr, List, [], ◌∷◌, any, arith, All, str_eq, str_eq_iff, ◌==◌,
}
use revenue_guard.Fault.{ok, value_error, raise_if-eq-ok}
use revenue_guard.Table.{select}
use revenue_guard.Outbox.Tables.{ActionRow, ActionAttempt, Database, has_key, open_of}
use revenue_guard.Outbox.Claim.{
  ClaimedAction, is_due, due_rows, claim_of, claim_rows, claim_due_actions,
}
use revenue_guard.Outbox.Attempt.{begin_attempt, new_attempt, counted}
use revenue_guard.Outbox.Sound.{get_action-key}
use revenue_guard.Outbox.Begun.{begin_attempt-Begun, record_audit-attempts}
use revenue_guard.Outbox.Claimed.{due_rows-All}
use revenue_guard.Outbox.Held.{KeyHeld, Leases, claim_rows-Leases, claim_rows-All}
use revenue_guard.Outbox.Between.{Between, Between-held, held_not_due}
use revenue_guard.Outbox.Standing.{Between-open}

-- Whether two claims are of one action.
abbrev pub same_claim : ClaimedAction → ClaimedAction → Bool
same_claim c d = str_eq d.merchant_id c.merchant_id && str_eq d.action_id c.action_id

module _ (text_before : String → String → Bool) where
  none_again :
      (locked : ActionRow → Bool) (tokens : ℕ → String) (db db' : Database)
      (now lease_for limit until : ℕ) (claims : List ClaimedAction) (c : ClaimedAction)
      → now < until
      → All (KeyHeld c.merchant_id c.action_id until) db.actions
      → claim_rows tokens db now lease_for (due_rows text_before locked db now limit) 0
        ≡ ok (claims, db')
      → All (λ d. same_claim c d ≡ false) claims
  none_again locked tokens db db' now lease_for limit until claims c early held h =
      claim_rows-All
        (λ r.
          ((is_due db.attempts now r && not (locked r)) ≡ true)
          × KeyHeld c.merchant_id c.action_id until r)
        (λ d. same_claim c d ≡ false) differs tokens db db' now lease_for
        (due_rows text_before locked db now limit) 0 claims h
        (due_rows-All text_before (KeyHeld c.merchant_id c.action_id until) locked db now limit
          held)
    where
      differs :
          (r : ActionRow) (token : String)
          → ((is_due db.attempts now r && not (locked r)) ≡ true)
            × KeyHeld c.merchant_id c.action_id until r
          → same_claim c (claim_of r token) ≡ false
      differs r token q = elim (Bool-cases (has_key c.merchant_id c.action_id r)) [
        | inl same ↦
            absurd (held_not_due db.attempts until now r (not (locked r)) early (q.1 same) q.0)
        | inr other ↦ other
      ]

-- The lease of one of the claims.
lease_of :
    (c : ClaimedAction) (until : ℕ) (rows : List ActionRow) (claims : List ClaimedAction)
    → any (same_claim c) claims ≡ true
    → Leases claims until rows
    → All (KeyHeld c.merchant_id c.action_id until) rows
lease_of c until rows [] there h = cc
lease_of c until rows (d ∷ ds) there h = elim (Bool-cases (same_claim c d)) [
  | inl same ↦
      subst (λ x. All (KeyHeld x c.action_id until) rows)
        ((str_eq_iff d.merchant_id c.merchant_id).0 (ground (arith, same)))
        (subst (λ x. All (KeyHeld d.merchant_id x until) rows)
          ((str_eq_iff d.action_id c.action_id).0 (ground (arith, same))) h.0)
  | inr other ↦ lease_of c until rows ds (ground (arith, other, there)) h.1
]

module _ (sha256 : List ℕ → String) (text_before : String → String → Bool) where
  -- A claimed action is not claimed by another worker while its lease runs: if what happened since the
  -- claim are claims before the lease runs out, attempts begun, and attempts of other actions ended, a
  -- claim before the lease runs out does not get the action.
  pub claim_exclusive :
      (locked locked' : ActionRow → Bool) (tokens tokens' : ℕ → String) (db db' e e' : Database)
      (now lease_for limit now' lease_for' limit' : ℕ) (claims claims' : List ClaimedAction)
      (c : ClaimedAction)
      → claim_due_actions text_before locked tokens db now lease_for limit ≡ ok (claims, db')
      → any (same_claim c) claims ≡ true
      → Between sha256 text_before c.merchant_id c.action_id (now + lease_for) db' e
      → claim_due_actions text_before locked' tokens' e now' lease_for' limit' ≡ ok (claims', e')
      → now' < now + lease_for
      → All (λ d. same_claim c d ≡ false) claims'
  unfolding claim_due_actions
  claim_exclusive locked locked' tokens tokens' db db' e e' now lease_for limit now' lease_for'
        limit' claims claims' c h there between k early =
      let (_, first) =
        raise_if-eq-ok ((lease_for == 0) || (limit == 0))
          (value_error "lease_for and limit must be positive") _ h in
      let (_, second) =
        raise_if-eq-ok ((lease_for' == 0) || (limit' == 0))
          (value_error "lease_for and limit must be positive") _ k in
      none_again text_before locked' tokens' e e' now' lease_for' limit' (now + lease_for) claims' c
        early
        (Between-held sha256 text_before between (
          lease_of c (now + lease_for) db'.actions claims there (
            claim_rows-Leases tokens db db' now lease_for (due_rows text_before locked db now limit)
              0 claims first)))
        second

none_selected :
    (test : ActionAttempt → Bool) (ts : List ActionAttempt)
    → any test ts ≡ true
    → select test ts ≡ []
    → ⊥
unfolding select
none_selected test [] passes h = cc
none_selected test (t ∷ ts) passes h = elim (Bool-cases (test t)) [
  | inl same ↦ ground (arith, same, h)
  | inr other ↦ none_selected test ts (ground (arith, other, passes)) (ground (arith, other, h))
]

module _ (sha256 : List ℕ → String) (text_before : String → String → Bool) where
  begun_open :
      (db db' : Database) (merchant action token : String) (at : ℕ) (ids : String × String)
      (r : ActionRow) (t : ActionAttempt)
      → begin_attempt sha256 db merchant action token at ids ≡ ok (r, t, db')
      → any (open_of merchant action) db'.attempts ≡ true
  begun_open db db' merchant action token at ids r t h =
      let b = begin_attempt-Begun sha256 db db' merchant action token at ids r t h in
      let (m, a) = get_action-key db merchant action b.read in
      let (ts, _) = record_audit-attempts sha256 _ db' _ b.audited.0 b.audited.1 in
      subst (λ l. any (open_of merchant action) l ≡ true) (sym ts)
        (fresh b.before b.saved.attempts m a)
    where
      fresh :
          (x : ActionRow) (ts : List ActionAttempt)
          → x.merchant_id ≡ merchant
          → x.id ≡ action
          → any (open_of merchant action) (new_attempt sha256 (counted x at) token at ∷ ts) ≡ true
      fresh x ts p q =
          rw ((str_eq_iff x.merchant_id merchant).1 p, (str_eq_iff x.id action).1 q) refl

  -- While an attempt to execute an action is open, no other can be begun, by whichever worker, with
  -- whatever lease and at whatever time: after a call of begin_attempt that returned, and whatever
  -- actions were claimed since, attempts begun and attempts of other actions ended, another call for the
  -- action does not return.
  pub begin_attempt_once :
      (db db' e : Database) (merchant action token token' : String) (at at' until : ℕ)
      (ids ids' : String × String) (r : ActionRow) (t : ActionAttempt)
      (again : ActionRow × ActionAttempt × Database)
      → begin_attempt sha256 db merchant action token at ids ≡ ok (r, t, db')
      → Between sha256 text_before merchant action until db' e
      → ¬ (begin_attempt sha256 e merchant action token' at' ids' ≡ ok again)
  begin_attempt_once db db' e merchant action token token' at at' until ids ids' r t again h between
        k =
      let c =
        begin_attempt-Begun sha256 e again.2 merchant action token' at' ids' again.0 again.1 k in
      let (m, a) = get_action-key e merchant action c.read in
      none_selected (open_of merchant action) e.attempts
        (Between-open sha256 text_before between
          (begun_open db db' merchant action token at ids r t h))
        (subst (λ x. select (open_of x action) e.attempts ≡ []) m
          (subst (λ x. select (open_of c.before.merchant_id x) e.attempts ≡ []) a
            c.permitted.none_running))
