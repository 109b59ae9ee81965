-- ===== src/Cases/History.antt =====
-- A case's life: any sequence of successful calls of `transition_case`, with the records it leaves.
use revenue_guard.Prelude.{
  subst, All, Bool, Bool-cases, ℕ, ◌+◌, ◌≤◌, ◌≡◌, refl, sym, ap, ◌∙◌, ◌≢◌, true, false, List, [],
  ◌∷◌, length, arith, is_missing, ◌⊎◌, inl, inr,
}
use revenue_guard.Fault.{ok, err, stale_version}
use revenue_guard.Cases.{
  unknown, CaseState, executing, verifying, recovered, RecoveryCase, CaseTransition,
  TransitionRequest, transition_case, is_terminal,
}
use revenue_guard.Cases.Graph.{
  InContract, edge-InContract, ◌⟶◌, ◌⟶*◌, here, next, terminal-no-edge, execute,
}
use revenue_guard.Cases.Moves.{
  transition_case-Moved, transition_case-IsValid, transition_case_stale,
}

CaseState-discrete : Discrete CaseState
CaseState-discrete = hlevel

is_recovered : (s : CaseState) → Dec (s ≡ recovered)
is_recovered s = CaseState-discrete s recovered

-- `History c d log`: `c` becomes `d` by moves whose records, oldest first, are `log`.
pub data History : RecoveryCase → RecoveryCase → List CaseTransition → Type 0 where
  start : {c : RecoveryCase} → History c c []
  move :
      {c d e : RecoveryCase} {t : CaseTransition} {log : List CaseTransition}
      (r : TransitionRequest)
      → transition_case c r ≡ ok (d, t)
      → History d e log
      → History c e (t ∷ log)

-- Each record begins at the state and version where the one before it ended.
abbrev pub Chains : CaseState → ℕ → List CaseTransition → Type 0
Chains s v [] = Unit
Chains s v (t ∷ log) =
    (t.before_state ≡ s)
    × (t.before_version ≡ v)
    × (t.after_version ≡ v + 1)
    × Chains t.after_state t.after_version log

-- What a log accounts for.
pub record Accounted (c d : RecoveryCase) (log : List CaseTransition) : Type 0 where
  pub version : d.state_version ≡ c.state_version + length log
  pub chained : Chains c.state c.state_version log
  pub monotone : c.updated_at.instant ≤ d.updated_at.instant
  pub same_amount : (d.revenue_at_risk_minor ≡ c.revenue_at_risk_minor) × (d.currency ≡ c.currency)
  pub same_owner : (d.case_id ≡ c.case_id) × (d.merchant_id ≡ c.merchant_id)

Chains-along :
    {s s' : CaseState} {v v' : ℕ} (log : List CaseTransition)
    → s ≡ s'
    → v ≡ v'
    → Chains s v log
    → Chains s' v' log
Chains-along [] p q h = tt
Chains-along (t ∷ log) p q h = (h.0 ∙ p, h.1 ∙ q, h.2 ∙ ap (λ (n : ℕ). n + 1) q, h.3)

-- After any history the version has grown by the number of its records, the records chain up from the
-- first state and version, time has not gone back, and the owner and the amount are the same.
pub History-Accounted :
    (c d : RecoveryCase) (log : List CaseTransition) → History c d log → Accounted c d log
History-Accounted c d [] start = record {
  version = omega arith;
  chained = tt;
  monotone = omega arith;
  same_amount = (refl, refl);
  same_owner = (refl, refl);
}
History-Accounted c e (t ∷ log) (move {d} r h rest) =
    let m = transition_case-Moved c r d t h in
    let s = (transition_case-IsValid c r d t h).1 in
    let a = History-Accounted d e log rest in
    record {
      version = omega (arith, a.version, m.version);
      chained = (
        m.told_before.0,
        m.told_before.1,
        m.told_after.1 ∙ m.version,
        Chains-along log (sym m.told_after.0) (sym m.told_after.1) a.chained,
      );
      monotone = omega (arith, a.monotone, m.monotone);
      same_amount = (a.same_amount.0 ∙ s.same_money.0, a.same_amount.1 ∙ s.same_money.1);
      same_owner = (a.same_owner.0 ∙ s.same_case.0, a.same_owner.1 ∙ s.same_case.1);
    }

-- A history follows a path of the diagram.
pub History-path :
    {c d : RecoveryCase} {log : List CaseTransition} → History c d log → c.state ⟶* d.state
History-path start = here
History-path (move {c} {d} {e} {t} r h rest) =
    next (transition_case-Moved c r d t h).edge (History-path rest)

-- Every move of a history is one that the published contract lists: the state of each record after it
-- is among the contract's transitions from the state before it.
pub History-InContract :
    (c d : RecoveryCase) (log : List CaseTransition)
    → History c d log
    → All (λ (t : CaseTransition). InContract t.before_state t.after_state) log
History-InContract c d [] start = tt
History-InContract c e (t ∷ log) (move {d} r h rest) =
    let m = transition_case-Moved c r d t h in
    (
      subst (λ s. InContract s t.after_state) (sym m.told_before.0)
          (subst (λ s. InContract c.state s) (sym m.told_after.0) (edge-InContract m.edge)),
      History-InContract d e log rest,
    )

-- A terminal case has no further history.
pub terminal-History :
    (c d : RecoveryCase) (log : List CaseTransition)
    → is_terminal c.state ≡ true
    → History c d log
    → (log ≡ []) × (d ≡ c)
terminal-History c d [] h start = (refl, refl)
terminal-History c d (t ∷ log) h (move {d = e} r p rest) =
    absurd (terminal-no-edge c.state e.state h (transition_case-Moved c r e t p).edge)

-- Of two callers that read the same version, the second is refused: what one of them moved, the
-- other can no longer move with the version that it read.
pub transition_case_once :
    (c d : RecoveryCase) (t : CaseTransition) (r r' : TransitionRequest)
    → transition_case c r ≡ ok (d, t)
    → r'.expected_version ≡ r.expected_version
    → transition_case d r' ≡ err (stale_version r.expected_version (r.expected_version + 1))
transition_case_once c d t r r' h same =
    let m = transition_case-Moved c r d t h in
    let e : d.state_version ≡ r.expected_version + 1 = omega (arith, m.version, m.expected) in
    transition_case_stale d r' (omega arith) ∙ cc

-- Some record of the log enters the state, with evidence where it is a recovery.
abbrev pub Enters : CaseState → List CaseTransition → Type 0
Enters s [] = ⊥
Enters s (t ∷ log) = (t.after_state ≡ s) ⊎ Enters s log

abbrev pub HasEvidence : List CaseTransition → Type 0
HasEvidence [] = ⊥
HasEvidence (t ∷ log) =
    ((t.after_state ≡ recovered) × (is_missing t.authoritative_evidence_reference ≡ false))
    ⊎ HasEvidence log

recovered-Evidence :
    {c d : RecoveryCase} {log : List CaseTransition}
    → History c d log
    → c.state ≢ recovered
    → d.state ≡ recovered
    → HasEvidence log
recovered-Evidence start n h = absurd (n h)
recovered-Evidence (move {c} {d} {e} {t} {log} r p rest) n h =
    let m = transition_case-Moved c r d t p in
    elim (is_recovered d.state) [
      | yes q ↦ inl (m.told_after.0 ∙ q, m.evidence q)
      | no q ↦ inr (recovered-Evidence rest q h)
    ]

-- The states that a case reaches only once an action was executed for it.
abbrev pub past_execution : CaseState → Bool
past_execution executing = true
past_execution verifying = true
past_execution unknown = true
past_execution recovered = true
past_execution _ = false

enters_by_executing :
    {s t : CaseState} → s ⟶ t → past_execution s ≡ false → past_execution t ≡ true → t ≡ executing
enters_by_executing execute p q = refl
enters_by_executing _ p q = cc

past_execution-Enters :
    {c d : RecoveryCase} {log : List CaseTransition}
    → History c d log
    → past_execution c.state ≡ false
    → past_execution d.state ≡ true
    → Enters executing log
past_execution-Enters start p q = cc
past_execution-Enters (move {c} {d} {e} {t} r h rest) p q =
    let m = transition_case-Moved c r d t h in
    elim (Bool-cases (past_execution d.state)) [
      | inl later ↦ inl (m.told_after.0 ∙ enters_by_executing m.edge p later)
      | inr not_yet ↦ inr (past_execution-Enters rest not_yet q)
    ]

-- A case that was not past execution is recovered only by a history in which it was executed, and
-- in which the record of a recovery has evidence.
pub recovered_needs :
    (c d : RecoveryCase) (log : List CaseTransition)
    → History c d log
    → past_execution c.state ≡ false
    → d.state ≡ recovered
    → Enters executing log × HasEvidence log
recovered_needs c d log h p q = (
  past_execution-Enters h p (ap past_execution q),
  recovered-Evidence h (λ e. cc (ap past_execution e)) q,
)
