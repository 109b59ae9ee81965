-- ===== src/Execution/Resolved.antt =====
-- What a lookup decides: a recovery only by proof, and an end to uncertainty at the deadline.
use revenue_guard.Prelude.{
  ℕ, ◌≤◌, String, ◌≡◌, ◌≢◌, ◌⊎◌, refl, sym, ap, ◌∙◌, subst, inl, inr, Bool, true, false, not, ◌&&◌,
  ◌||◌, Bool-cases, some, List, arith,
}
use revenue_guard.Fault.{ok, >>=-eq-ok, ◌>>=◌}
use revenue_guard.Cases.{
  CaseState, verifying, escalated, recovered, decision_pending, RecoveryCase, state_eq,
}
use revenue_guard.Cases
use revenue_guard.Actions.{ActionStatus, succeeded, failed, is_succeeded}
use revenue_guard.Outbox.Tables.{ActionRow, is_failed}
use revenue_guard.Outbox.Enqueue.{get_action}
use revenue_guard.Outbox.Attempt.{required_action}
use revenue_guard.Execution.World.{World, required_case}
use revenue_guard.Execution.Attempted.{ExecutionDisposition}
use revenue_guard.Execution.Lookup.{
  ProviderLookupResult, Looked, is_conclusive, reached, unresolved_at_deadline, expire_verification,
  after_deadline, look_up, record_lookup,
}
use revenue_guard.Execution.Moved.{CaseIn, required_case-OfCase}
use revenue_guard.Execution.Doubted.{SameCase, expired, escalate-escalated}

-- The states in which a lookup is heard.
abbrev pub in_doubt : CaseState → Bool
in_doubt s = state_eq s Cases.unknown || state_eq s verifying

-- The answer says that the case is escalated, and so does its row.
abbrev Escalated : RecoveryCase → ExecutionDisposition → World → Type 0
Escalated c d w = (d.case_state ≡ escalated) × CaseIn c.merchant_id c.case_id escalated w

inconclusive :
    (authority : Bool) (s : ActionStatus)
    → (authority ≡ true → (s ≢ succeeded) × (s ≢ failed))
    → (authority && (is_succeeded s || is_failed s)) ≡ false
inconclusive true succeeded h = absurd ((h refl).0 refl)
inconclusive true failed h = absurd ((h refl).1 refl)
inconclusive true _ h = refl
inconclusive false s h = refl

module _ (sha256 : List ℕ → String) (ids : ℕ → String × String) (x : ProviderLookupResult) where
  -- Once the deadline is reached without proof, an unknown case is given to a human.
  due_escalates :
      (l : Looked) (d : ExecutionDisposition) (w : World)
      → l.recovery_case.state ≡ Cases.unknown
      → unresolved_at_deadline l.row x ≡ true
      → after_deadline sha256 ids x l ≡ ok (d, w)
      → Escalated l.recovery_case d w
  unfolding after_deadline
  due_escalates l d w unsure due h =
      let (told, _, stored) =
        escalate-escalated sha256 ids x l d w (ground (arith, unsure, due, h)) in
      (told, stored)

  of_same_case :
      (c c' : RecoveryCase) (d : ExecutionDisposition) (w : World)
      → SameCase c c'
      → Escalated c' d w
      → Escalated c d w
  of_same_case c c' d w same e = (
    e.0,
    subst (λ y. CaseIn y c.case_id escalated w) same.0
        (subst (λ y. CaseIn c'.merchant_id y escalated w) same.1 e.1),
  )

  only_unknown :
      (s : CaseState) → in_doubt s ≡ true → state_eq s verifying ≡ false → s ≡ Cases.unknown
  only_unknown s doubt other = ground arith

  timed_escalates :
      (l timed : Looked) (d : ExecutionDisposition) (w : World)
      → in_doubt l.recovery_case.state ≡ true
      → unresolved_at_deadline l.row x ≡ true
      → expire_verification sha256 ids x l ≡ ok timed
      → after_deadline sha256 ids x timed ≡ ok (d, w)
      → Escalated l.recovery_case d w
  unfolding expire_verification
  timed_escalates l timed d w doubt due expires rest =
      elim (Bool-cases (state_eq l.recovery_case.state verifying)) [
        | inl awaiting ↦
            let (unsure, same, owner) =
              expired sha256 ids x l timed (ground (arith, awaiting, due, expires)) in
            of_same_case l.recovery_case timed.recovery_case d w owner (
              due_escalates timed d w unsure
                (ap (λ o. reached o x.observed_at.instant && not (is_conclusive x)) same ∙ due)
                rest)
        | inr other ↦
            let kept : l ≡ timed = ground (arith, other, expires) in
            of_same_case l.recovery_case timed.recovery_case d w (owner_kept kept) (
              due_escalates timed d w
                (subst (λ y. y.recovery_case.state ≡ Cases.unknown) kept
                  (only_unknown l.recovery_case.state doubt other))
                (subst (λ y. unresolved_at_deadline y.row x ≡ true) kept due) rest)
      ]
    where
      owner_kept : l ≡ timed → SameCase l.recovery_case timed.recovery_case
      owner_kept kept = (
        ap (λ (y : Looked). y.recovery_case.merchant_id) (sym kept),
        ap (λ (y : Looked). y.recovery_case.case_id) (sym kept),
      )

  -- A lookup of a case in doubt is heard.
  heard :
      (l : Looked) (d : ExecutionDisposition) (w : World)
      → in_doubt l.recovery_case.state ≡ true
      → look_up sha256 ids x l ≡ ok (d, w)
      → (expire_verification sha256 ids x l >>= after_deadline sha256 ids x) ≡ ok (d, w)
  unfolding look_up
  heard l d w doubt h = ground (arith, doubt, h)

  look_up-Escalates :
      (l : Looked) (d : ExecutionDisposition) (w : World)
      → in_doubt l.recovery_case.state ≡ true
      → unresolved_at_deadline l.row x ≡ true
      → look_up sha256 ids x l ≡ ok (d, w)
      → Escalated l.recovery_case d w
  look_up-Escalates l d w doubt due h =
      let (timed, expires, rest) =
        >>=-eq-ok (expire_verification sha256 ids x l) (after_deadline sha256 ids x)
          (heard l d w doubt h) in
      timed_escalates l timed d w doubt due expires rest

  due_now :
      (r : ActionRow) (deadline : ℕ)
      → r.reconciliation_deadline ≡ some deadline
      → deadline ≤ x.observed_at.instant
      → (x.is_authoritative ≡ true → (x.status ≢ succeeded) × (x.status ≢ failed))
      → unresolved_at_deadline r x ≡ true
  due_now r deadline set passed unproved =
      rw (set, inconclusive x.is_authoritative x.status unproved) (ground (arith, passed))

  doubts : (s : CaseState) → (s ≡ Cases.unknown) ⊎ (s ≡ verifying) → in_doubt s ≡ true
  doubts s (inl e) = rw e refl
  doubts s (inr e) = rw e refl

  looks :
      (w w' : World) (merchant action : String) (r : ActionRow) (c : RecoveryCase)
      (d : ExecutionDisposition)
      → get_action w.db merchant action ≡ some r
      → required_case w r ≡ ok c
      → record_lookup sha256 ids x w merchant action ≡ ok (d, w')
      → look_up sha256 ids x (record { row = r; recovery_case = c; world = w }) ≡ ok (d, w')
  unfolding record_lookup required_action
  looks w w' merchant action r c d there of_case h = ground (arith, there, of_case, h)

  -- A lookup of an action whose case is unknown or verifying, at its reconciliation deadline or later,
  -- escalates the case unless it is an authoritative success or failure: where the call returns, it says
  -- so, and the row of the case is escalated. Uncertainty ends at the deadline.
  pub record_lookup-Escalates :
      (w w' : World) (merchant action : String) (r : ActionRow) (c : RecoveryCase) (deadline : ℕ)
      (d : ExecutionDisposition)
      → get_action w.db merchant action ≡ some r
      → required_case w r ≡ ok c
      → (c.state ≡ Cases.unknown) ⊎ (c.state ≡ verifying)
      → r.reconciliation_deadline ≡ some deadline
      → deadline ≤ x.observed_at.instant
      → (x.is_authoritative ≡ true → (x.status ≢ succeeded) × (x.status ≢ failed))
      → record_lookup sha256 ids x w merchant action ≡ ok (d, w')
      → (d.case_state ≡ escalated) × CaseIn r.merchant_id r.recovery_case_id escalated w'
  record_lookup-Escalates w w' merchant action r c deadline d there of_case doubt set passed
        unproved h =
      let (told, stored) =
        look_up-Escalates (record { row = r; recovery_case = c; world = w }) d w'
          (doubts c.state doubt) (due_now r deadline set passed unproved)
          (looks w w' merchant action r c d there of_case h) in
      let own = (required_case-OfCase w r c of_case).0 in
      (
        told,
        subst (λ y. CaseIn y r.recovery_case_id escalated w') own.0
            (subst (λ y. CaseIn c.merchant_id y escalated w') own.1 stored),
      )
