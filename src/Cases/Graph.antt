-- ===== src/Cases/Graph.antt =====
-- The state diagram of cases.py as a relation, beside the table that the code looks up and the
-- published contract.
use revenue_guard.Prelude.{List, [], ◌∷◌, any, ◌≡◌, refl, true, false, arith}
use revenue_guard.Cases.{
  CaseState, detected, diagnosing, decision_pending, policy_check, ready, executing, verifying,
  unknown, deferred, escalated, recovered, stopped, is_terminal, can_transition, state_eq,
}

infix 40 ◌⟶◌ ◌⟶*◌
pub data ◌⟶◌ : CaseState → CaseState → Type 0 where
  diagnose : detected ⟶ diagnosing
  decide : diagnosing ⟶ decision_pending
  check : decision_pending ⟶ policy_check
  authorize : policy_check ⟶ ready
  defer : policy_check ⟶ deferred
  skip : policy_check ⟶ decision_pending
  escalate : policy_check ⟶ escalated
  refuse : policy_check ⟶ stopped
  execute : ready ⟶ executing
  observe : executing ⟶ verifying
  lose : executing ⟶ unknown
  recover : verifying ⟶ recovered
  retry : verifying ⟶ decision_pending
  doubt : verifying ⟶ unknown
  give_up : verifying ⟶ stopped
  resolve : unknown ⟶ verifying
  hand_over : unknown ⟶ escalated
  wake : deferred ⟶ decision_pending
  review : escalated ⟶ decision_pending
  close : escalated ⟶ stopped

pub data ◌⟶*◌ : CaseState → CaseState → Type 0 where
  here : {s : CaseState} → s ⟶* s
  next : {s t u : CaseState} → s ⟶ t → t ⟶* u → s ⟶* u

ruleset edges = (
  diagnose, decide, check, authorize, defer, skip, escalate, refuse, execute, observe, lose,
  recover, retry, doubt, give_up, resolve, hand_over, wake, review, close,
)

pub edge-can_transition : {s t : CaseState} → s ⟶ t → can_transition s t ≡ true
unfolding can_transition
edge-can_transition diagnose = refl
edge-can_transition _ = refl

pub can_transition-edge : (s t : CaseState) → can_transition s t ≡ true → s ⟶ t
unfolding can_transition
can_transition-edge s t h = grind (arith, edges)

-- docs/contracts/v1/case-state-machine.json: the transitions of the published contract.
unfoldable pub contract_transitions : CaseState → List CaseState
contract_transitions detected = diagnosing ∷ []
contract_transitions diagnosing = decision_pending ∷ escalated ∷ stopped ∷ []
contract_transitions decision_pending = policy_check ∷ escalated ∷ stopped ∷ []
contract_transitions policy_check = ready ∷ deferred ∷ decision_pending ∷ escalated ∷ stopped ∷ []
contract_transitions ready = executing ∷ stopped ∷ []
contract_transitions executing = verifying ∷ unknown ∷ []
contract_transitions verifying = recovered ∷ decision_pending ∷ unknown ∷ escalated ∷ stopped ∷ []
contract_transitions unknown = verifying ∷ escalated ∷ []
contract_transitions deferred = decision_pending ∷ stopped ∷ []
contract_transitions escalated = decision_pending ∷ stopped ∷ []
contract_transitions recovered = []
contract_transitions stopped = []

abbrev pub InContract : CaseState → CaseState → Type 0
InContract s t = any (state_eq t) (contract_transitions s) ≡ true

pub edge-InContract : {s t : CaseState} → s ⟶ t → InContract s t
unfolding contract_transitions
edge-InContract diagnose = refl
edge-InContract _ = refl

-- Both terminal states can be reached.
abbrev CanEnd : CaseState → Type 0
CanEnd s = (s ⟶* recovered) × (s ⟶* stopped)

-- From a state that is not terminal both terminal states can be reached.
nonterminal-CanEnd : (s : CaseState) → is_terminal s ≡ false → CanEnd s
nonterminal-CanEnd recovered h = cc
nonterminal-CanEnd stopped h = cc
nonterminal-CanEnd _ h = (search (here, next, edges) depth 9, search (here, next, edges) depth 8)

pub terminal-no-edge : (s t : CaseState) → is_terminal s ≡ true → ¬ (s ⟶ t)
terminal-no-edge recovered t h e = elim e [ ]
terminal-no-edge stopped t h e = elim e [ ]
terminal-no-edge _ t h e = cc
