-- ===== src/Execution/Ended.antt =====
-- What an attempt that settled its action leads to.
use revenue_guard.Prelude.{
  ℕ, String, ◌≡◌, sym, ap, ◌∙◌, subst, ◌⊎◌, inl, inr, Bool, true, false, Bool-cases, Option, some,
  List, arith, any, ◌&&◌,
}
use revenue_guard.Fault.{Result, ok, ok-injective, >>=-eq-ok}
use revenue_guard.Cases.{CaseState, verifying, decision_pending, RecoveryCase, state_eq}
use revenue_guard.Cases
use revenue_guard.Actions.{ActionStatus, pending, succeeded, failed, is_succeeded, is_unknown}
use revenue_guard.Actions
use revenue_guard.Outbox.Tables.{ActionRow, OutcomeRow, is_pending}
use revenue_guard.Execution.World.{World, has_case_key, no_options, move, observe, or_default}
use revenue_guard.Execution.Attempted.{
  ProviderExecutionResult, ExecutionDisposition, disposition, answer, settle_unknown,
  settle_accepted, settle_rejected, settle,
}
use revenue_guard.Execution.Moved.{CaseIn, OfCase, HasMoved, HasMoved-stores, move-HasMoved}
use revenue_guard.Execution.Observed.{Adds, Tells, observe-Adds, observe-tables}

-- The state in which an attempt that settled its action leaves the case.
abbrev pub end_state : ActionStatus → CaseState
end_state Actions.unknown = Cases.unknown
end_state succeeded = verifying
end_state _ = decision_pending

-- An outcome without money.
abbrev pub NoMoney : OutcomeRow → Type 0
NoMoney o = o.recovered_amount_minor ≡ 0

abbrev answered : ExecutionDisposition → World → Result (ExecutionDisposition × World)
answered d w = ok (d, w)

-- What the settling of an action does: the case of the action, which the answer of the service and the
-- stored row tell alike, no money, and the tables of the outbox as they were.
pub record Settles (w : World) (r : ActionRow) (s : CaseState) (d : ExecutionDisposition)
    (w' : World) : Type 0 where
  pub reached : d.case_state ≡ s
  pub stored : CaseIn r.merchant_id r.recovery_case_id s w'
  pub no_money : Adds w.db.outcomes NoMoney w'.db.outcomes
  pub same_actions : w'.db.actions ≡ w.db.actions
  pub same_attempts : w'.db.attempts ≡ w.db.attempts

-- A part of it, with the case that is in the hand of the service.
record Told (w : World) (r : ActionRow) (s : CaseState) (c : RecoveryCase) (w' : World)
    : Type 0 where
  pub reached : c.state ≡ s
  pub own : OfCase r c
  pub stored : CaseIn r.merchant_id r.recovery_case_id s w'
  pub no_money : Adds w.db.outcomes NoMoney w'.db.outcomes
  pub same_actions : w'.db.actions ≡ w.db.actions
  pub same_attempts : w'.db.attempts ≡ w.db.attempts

ends :
    (w w1 w' : World) (r : ActionRow) (s : CaseState) (c : RecoveryCase) (status : ActionStatus)
    (why : String) (d : ExecutionDisposition)
    → Told w r s c w1
    → answered (disposition r status c why) w1 ≡ ok (d, w')
    → Settles w r s d w'
ends w w1 w' r s c status why d t same = record {
  reached =
      ap (λ (y : ExecutionDisposition × World). y.0.case_state) (sym (ok-injective same))
      ∙ t.reached;
  stored =
      subst (λ (y : ExecutionDisposition × World). CaseIn r.merchant_id r.recovery_case_id s y.1)
        (ok-injective same) t.stored;
  no_money =
      subst (λ (y : ExecutionDisposition × World). Adds w.db.outcomes NoMoney y.1.db.outcomes)
        (ok-injective same) t.no_money;
  same_actions =
      ap (λ (y : ExecutionDisposition × World). y.1.db.actions) (sym (ok-injective same))
      ∙ t.same_actions;
  same_attempts =
      ap (λ (y : ExecutionDisposition × World). y.1.db.attempts) (sym (ok-injective same))
      ∙ t.same_attempts;
}

without_money :
    (l l' : List OutcomeRow) (r : ActionRow) (status : ActionStatus) (x : ProviderExecutionResult)
    (reason : Option String) (authority : Bool)
    → Adds l (Tells r status (answer x reason authority)) l'
    → Adds l NoMoney l'
without_money l l' r status x reason authority (inl none_added) = inl none_added
without_money l l' r status x reason authority (inr (o, added, t)) = inr (o, added, t.with_amount)

module _ (sha256 : List ℕ → String) where
  -- A move and an observation without money.
  moves_on :
      (w w1 w2 : World) (c moved : RecoveryCase) (r : ActionRow) (to_state : CaseState)
      (status : ActionStatus) (x : ProviderExecutionResult) (why : String) (reason : Option String)
      (authority : Bool) (ids ids' : String × String)
      → move sha256 w c r to_state why x.observed_at no_options ids ≡ ok (moved, w1)
      → observe sha256 w1 r status (answer x reason authority) ids' ≡ ok w2
      → OfCase r c
      → Told w r to_state moved w2
  moves_on w w1 w2 c moved r to_state status x why reason authority ids ids' went told own =
      let m = move-HasMoved sha256 w w1 c moved r to_state why x.observed_at no_options ids went in
      let (cases, actions, attempts) =
        observe-tables sha256 w1 w2 r status (answer x reason authority) ids' told in
      let (stored, own1) = HasMoved-stores sha256 w w1 r c moved to_state own m in
      record {
        reached = m.reached;
        own = own1;
        stored =
            subst
              (λ l.
                any
                  (λ y.
                    has_case_key r.merchant_id r.recovery_case_id y && state_eq y.state to_state)
                  l
                ≡ true)
              (sym cases) stored;
        no_money =
            subst (λ l. Adds l NoMoney w2.db.outcomes) m.same_outcomes
              (without_money w1.db.outcomes w2.db.outcomes r status x reason authority
                (observe-Adds sha256 w1 w2 r status (answer x reason authority) ids' told));
        same_actions = actions ∙ m.same_actions;
        same_attempts = attempts ∙ m.same_attempts;
      }

  -- One more move.
  moved_on :
      (w w2 w3 : World) (r : ActionRow) (s s' : CaseState) (c c' : RecoveryCase)
      → Told w r s c w2
      → HasMoved sha256 w2 c s' c' w3
      → Told w r s' c' w3
  moved_on w w2 w3 r s s' c c' t m =
      let (stored, own) = HasMoved-stores sha256 w2 w3 r c c' s' t.own m in
      record {
        reached = m.reached;
        own = own;
        stored = stored;
        no_money = subst (λ l. Adds w.db.outcomes NoMoney l) (sym m.same_outcomes) t.no_money;
        same_actions = m.same_actions ∙ t.same_actions;
        same_attempts = m.same_attempts ∙ t.same_attempts;
      }

  settle_unknown-Settles :
      (w w' : World) (r : ActionRow) (c : RecoveryCase) (x : ProviderExecutionResult)
      (ids : ℕ → String × String) (d : ExecutionDisposition)
      → settle_unknown sha256 w r c x ids ≡ ok (d, w')
      → OfCase r c
      → Settles w r Cases.unknown d w'
  unfolding settle_unknown
  settle_unknown-Settles w w' r c x ids d h own =
      let reason = or_default x.error_code "PROVIDER_RESULT_UNKNOWN" in
      let ((moved, w1), went, h1) =
        >>=-eq-ok (move sha256 w c r Cases.unknown reason x.observed_at no_options (ids 1)) _ h in
      let (w2, told, same) =
        >>=-eq-ok (observe sha256 w1 r Actions.unknown (answer x (some reason) false) (ids 2)) _
          h1 in
      ends w w2 w' r Cases.unknown moved Actions.unknown "UNKNOWN" d
        (moves_on w w1 w2 c moved r Cases.unknown Actions.unknown x reason (some reason) false
          (ids 1) (ids 2) went told own)
        same

  settle_accepted-Settles :
      (w w' : World) (r : ActionRow) (c : RecoveryCase) (x : ProviderExecutionResult)
      (ids : ℕ → String × String) (d : ExecutionDisposition)
      → settle_accepted sha256 w r c x ids ≡ ok (d, w')
      → OfCase r c
      → Settles w r verifying d w'
  unfolding settle_accepted
  settle_accepted-Settles w w' r c x ids d h own =
      let reason : Option String = some "AWAITING_AUTHORITATIVE_OUTCOME" in
      let ((moved, w1), went, h1) =
        >>=-eq-ok
          (move sha256 w c r verifying "PROVIDER_REQUEST_ACCEPTED" x.observed_at no_options (ids 1))
          _ h in
      let (w2, told, same) =
        >>=-eq-ok (observe sha256 w1 r pending (answer x reason false) (ids 2)) _ h1 in
      ends w w2 w' r verifying moved succeeded "VERIFYING" d
        (moves_on w w1 w2 c moved r verifying pending x "PROVIDER_REQUEST_ACCEPTED" reason false
          (ids 1) (ids 2) went told own)
        same

  settle_rejected-Settles :
      (w w' : World) (r : ActionRow) (c : RecoveryCase) (x : ProviderExecutionResult)
      (ids : ℕ → String × String) (d : ExecutionDisposition)
      → settle_rejected sha256 w r c x ids ≡ ok (d, w')
      → OfCase r c
      → Settles w r decision_pending d w'
  unfolding settle_rejected
  settle_rejected-Settles w w' r c x ids d h own =
      let reason : Option String = some (or_default x.error_code "PROVIDER_REQUEST_REJECTED") in
      let ((checked, w1), went, h1) =
        >>=-eq-ok
          (move sha256 w c r verifying "PROVIDER_REQUEST_REJECTED" x.observed_at no_options (ids 1))
          _ h in
      let (w2, told, h2) =
        >>=-eq-ok (observe sha256 w1 r failed (answer x reason true) (ids 2)) _ h1 in
      let ((moved, w3), ended, same) =
        >>=-eq-ok
          (move sha256 w2 checked r decision_pending "VERIFIED_ACTION_FAILURE" x.observed_at
            no_options (ids 3))
          _ h2 in
      let t =
        moves_on w w1 w2 c checked r verifying failed x "PROVIDER_REQUEST_REJECTED" reason true
          (ids 1) (ids 2) went told own in
      let m =
        move-HasMoved sha256 w2 w3 checked moved r decision_pending "VERIFIED_ACTION_FAILURE"
          x.observed_at no_options (ids 3) ended in
      ends w w3 w' r decision_pending moved failed "FAILED" d
        (moved_on w w2 w3 r verifying decision_pending checked moved t m) same

  end_unknown : (s : ActionStatus) → is_unknown s ≡ true → end_state s ≡ Cases.unknown
  end_unknown s h = ground arith

  end_accepted : (s : ActionStatus) → is_succeeded s ≡ true → end_state s ≡ verifying
  end_accepted s h = ground arith

  end_rejected :
      (s : ActionStatus)
      → is_unknown s ≡ false
      → is_succeeded s ≡ false
      → end_state s ≡ decision_pending
  end_rejected s h k = ground arith

  abbrev pub scheduled : World → ActionRow → RecoveryCase → Result (ExecutionDisposition × World)
  scheduled w r c = ok (disposition r pending c "EXPLICIT_FAILURE_RETRY_SCHEDULED", w)

  pub settle_lem :
      (w w' : World) (r : ActionRow) (c : RecoveryCase) (x : ProviderExecutionResult)
      (ids : ℕ → String × String) (d : ExecutionDisposition)
      → settle sha256 w r c x ids ≡ ok (d, w')
      → OfCase r c
      → ((is_pending r.status ≡ true) × (scheduled w r c ≡ ok (d, w')))
        ⊎ ((is_pending r.status ≡ false) × Settles w r (end_state x.status) d w')
  unfolding settle
  settle_lem w w' r c x ids d h own = elim (Bool-cases (is_pending r.status)) [
    | inl again ↦ inl (again, ground (arith, again, h))
    | inr over ↦ elim (Bool-cases (is_unknown x.status)) [
      | inl unsure ↦ inr (
        over,
        subst (λ s. Settles w r s d w') (sym (end_unknown x.status unsure))
            (settle_unknown-Settles w w' r c x ids d (ground (arith, over, unsure, h)) own),
      )
      | inr told ↦ elim (Bool-cases (is_succeeded x.status)) [
        | inl done ↦ inr (
          over,
          subst (λ s. Settles w r s d w') (sym (end_accepted x.status done))
              (settle_accepted-Settles w w' r c x ids d (ground (arith, over, told, done, h)) own),
        )
        | inr refused ↦ inr (
          over,
          subst (λ s. Settles w r s d w') (sym (end_rejected x.status told refused))
              (settle_rejected-Settles w w' r c x ids d (ground (arith, over, told, refused, h))
                own),
        )
      ]
    ]
  ]
