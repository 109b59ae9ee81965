-- ===== src/Execution/Doubted.antt =====
-- What the steps of a lookup make of the case: its expiry, its escalation, and the resolution of its row.
use revenue_guard.Prelude.{
  ℕ, String, ◌≡◌, sym, ap, ◌∙◌, subst, inl, inr, true, false, not, ◌||◌, Bool-cases, none, some,
  List, arith, if◌then◌else◌,
}
use revenue_guard.Fault.{ok, ok-injective, >>=-eq-ok, raise_if-eq-ok}
use revenue_guard.Cases.{
  CaseState, verifying, escalated, recovered, decision_pending, RecoveryCase, state_eq,
}
use revenue_guard.Cases
use revenue_guard.Actions.{ActionStatus, succeeded, failed, is_succeeded, is_unknown}
use revenue_guard.Actions
use revenue_guard.Outbox.Keys.{save_action_lem}
use revenue_guard.Outbox.Tables.{ActionRow, Database, is_failed, save_action}
use revenue_guard.Outbox.Resolve.{
  mark_verification_expired_unknown, set_action_resolution, unknown_row,
}
use revenue_guard.Execution.World.{World, no_options, move, observe}
use revenue_guard.Execution.Attempted.{ExecutionDisposition}
use revenue_guard.Execution.Lookup.{
  ProviderLookupResult, Looked, resolved_status, looked_up, expire_now, escalate, resolve_now,
  resolve_row,
}
use revenue_guard.Execution.Moved.{CaseIn, move-HasMoved}

-- A case and what became of it.
abbrev pub SameCase : RecoveryCase → RecoveryCase → Type 0
SameCase c c' = (c'.merchant_id ≡ c.merchant_id) × (c'.case_id ≡ c.case_id)

module _ (sha256 : List ℕ → String) (ids : ℕ → String × String) (x : ProviderLookupResult) where
  mark_expired_row :
      (db db' : Database) (r row : ActionRow) (at : ℕ)
      → mark_verification_expired_unknown db r at ≡ ok (row, db')
      → row ≡ unknown_row r at "VERIFICATION_DEADLINE_EXCEEDED"
  unfolding mark_verification_expired_unknown
  mark_expired_row db db' r row at h =
      let (_, h1) = raise_if-eq-ok (not (is_succeeded r.status)) _ _ h in
      let (saved, _, same) =
        >>=-eq-ok (save_action db (unknown_row r at "VERIFICATION_DEADLINE_EXCEEDED")) _ h1 in
      ap (λ (y : ActionRow × Database). y.0) (sym (ok-injective same))

  -- An action whose verification expires.
  pub expired :
      (l l' : Looked)
      → expire_now sha256 ids x l ≡ ok l'
      → (l'.recovery_case.state ≡ Cases.unknown)
        × (l'.row.reconciliation_deadline ≡ l.row.reconciliation_deadline)
        × SameCase l.recovery_case l'.recovery_case
  unfolding expire_now
  expired l l' h =
      let ((row, db), marked, h1) =
        >>=-eq-ok (mark_verification_expired_unknown l.world.db l.row x.observed_at.instant) _ h in
      let ((moved, w1), went, h2) =
        >>=-eq-ok
          (move sha256 (record (l.world) { db = db }) l.recovery_case row Cases.unknown
            "VERIFICATION_DEADLINE_EXCEEDED" x.observed_at no_options (ids 0))
          _ h1 in
      let (w2, _, same) =
        >>=-eq-ok
          (observe sha256 w1 row Actions.unknown
            (looked_up x (some "VERIFICATION_DEADLINE_EXCEEDED") false 0) (ids 1))
          _ h2 in
      let m =
        move-HasMoved sha256 (record (l.world) { db = db }) w1 l.recovery_case moved row
          Cases.unknown "VERIFICATION_DEADLINE_EXCEEDED" x.observed_at no_options (ids 0) went in
      (
        ap (λ (y : Looked). y.recovery_case.state) (sym (ok-injective same)) ∙ m.reached,
        ap (λ (y : Looked). y.row.reconciliation_deadline) (sym (ok-injective same))
            ∙ ap (λ (y : ActionRow). y.reconciliation_deadline)
                (mark_expired_row l.world.db db l.row row x.observed_at.instant marked),
        (
          ap (λ (y : Looked). y.recovery_case.merchant_id) (sym (ok-injective same))
              ∙ m.same_owner.1,
          ap (λ (y : Looked). y.recovery_case.case_id) (sym (ok-injective same)) ∙ m.same_owner.0,
        ),
      )

  pub escalate-escalated :
      (l : Looked) (d : ExecutionDisposition) (w : World)
      → escalate sha256 ids x l ≡ ok (d, w)
      → (d.case_state ≡ escalated)
        × (w.db.outcomes ≡ l.world.db.outcomes)
        × CaseIn l.recovery_case.merchant_id l.recovery_case.case_id escalated w
  unfolding escalate
  escalate-escalated l d w h =
      let dead : ActionRow = record (l.row) {
        dead_lettered_at = some x.observed_at.instant;
        updated_at = x.observed_at.instant;
      } in
      let (saved, wrote, h1) = >>=-eq-ok (save_action l.world.db dead) _ h in
      let kept = save_action_lem l.world.db saved dead wrote in
      let ((moved, w1), went, same) =
        >>=-eq-ok
          (move sha256 (record (l.world) { db = saved }) l.recovery_case dead escalated
            "RECONCILIATION_DEADLINE_EXCEEDED" x.observed_at no_options (ids 2))
          _ h1 in
      let m =
        move-HasMoved sha256 (record (l.world) { db = saved }) w1 l.recovery_case moved dead
          escalated "RECONCILIATION_DEADLINE_EXCEEDED" x.observed_at no_options (ids 2) went in
      (
        ap (λ (y : ExecutionDisposition × World). y.0.case_state) (sym (ok-injective same))
            ∙ m.reached,
        ap (λ (y : ExecutionDisposition × World). y.1.db.outcomes) (sym (ok-injective same))
            ∙ m.same_outcomes
            ∙ ap (λ (y : Database). y.outcomes) (sym kept),
        subst
            (λ (y : ExecutionDisposition × World).
              CaseIn l.recovery_case.merchant_id l.recovery_case.case_id escalated y.1)
            (ok-injective same) m.stored,
      )

  -- What leaves a case in doubt.
  pub resolve_row-case :
      (l l' : Looked) → resolve_row sha256 ids x l ≡ ok l' → l'.recovery_case ≡ l.recovery_case
  unfolding resolve_row resolve_now
  resolve_row-case l l' h =
      elim (Bool-cases
        (state_eq l.recovery_case.state Cases.unknown || is_failed (resolved_status x))) [
          | inl resolves ↦
              let (done, _, same) =
                >>=-eq-ok
                  (set_action_resolution l.world.db l.row (resolved_status x) x.observed_at.instant
                    x.provider_object_id
                    (if is_failed (resolved_status x) then x.reason_code else none))
                  _ (now resolves h) in
              ap (λ (y : Looked). y.recovery_case) (sym (ok-injective same))
          | inr other ↦ ap (λ (y : Looked). y.recovery_case) (sym (kept other h))
        ]
    where
      now :
          (state_eq l.recovery_case.state Cases.unknown || is_failed (resolved_status x)) ≡ true
          → resolve_row sha256 ids x l ≡ ok l'
          → resolve_now sha256 ids x l ≡ ok l'
      now resolves k = ground (arith, resolves, k)

      kept :
          (state_eq l.recovery_case.state Cases.unknown || is_failed (resolved_status x)) ≡ false
          → resolve_row sha256 ids x l ≡ ok l'
          → l ≡ l'
      kept other k = ground (arith, other, k)
