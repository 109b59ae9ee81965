-- ===== src/Execution/Moved.antt =====
-- What a move of a case and an observation change.
use revenue_guard.Prelude.{
  ℕ, String, ◌≡◌, sym, ap, ◌∙◌, subst, ◌⊎◌, inl, inr, Bool, true, false, ◌&&◌, Bool-cases,
  Option-cases, none, some, List, [], ◌∷◌, any, arith, str_eq, str_eq_iff,
}
use revenue_guard.Fault.{ok, raise_if-eq-ok, ok-injective, >>=-eq-ok}
use revenue_guard.Clock.{Datetime}
use revenue_guard.Cases.{
  CaseState, RecoveryCase, CaseTransition, state_eq, init_case, transition_case,
}
use revenue_guard.Cases.Validity.{init_case_lem}
use revenue_guard.Outbox.Keys.{both_true}
use revenue_guard.Cases.Moves.{transition_case-Moved, transition_case-IsValid}
use revenue_guard.Ledger
use revenue_guard.Ledger.{AuditAppend}
use revenue_guard.Table.{select, first_row, update, first_row_holds}
use revenue_guard.Outbox.Tables.{ActionRow, Database}
use revenue_guard.Outbox.Enqueue.{record_audit}
use revenue_guard.Execution.World.{
  World, MoveOptions, move_request, is_before, not_one, transition_request, apply_transition, move,
  has_case_key, moved_row, required_case,
}

-- The row of a case is in a state.
abbrev pub CaseIn : String → String → CaseState → World → Type 0
CaseIn merchant identifier s w =
    any (λ c. has_case_key merchant identifier c && state_eq c.state s) w.cases ≡ true

-- A case is the one that an action is about.
abbrev pub OfCase : ActionRow → RecoveryCase → Type 0
OfCase r c = (c.merchant_id ≡ r.merchant_id) × (c.case_id ≡ r.recovery_case_id)

state_eq_self : (s : CaseState) → state_eq s s ≡ true
state_eq_self s = ground arith

first_row-any :
    (test seen : RecoveryCase → Bool) (rows : List RecoveryCase) (row : RecoveryCase)
    → first_row test rows ≡ some row
    → seen row ≡ true
    → any seen rows ≡ true
unfolding first_row
first_row-any test seen [] row h k = cc
first_row-any test seen (c ∷ rows) row h k = elim (Bool-cases (test c)) [
  | inl same ↦ ground (arith, same, ap seen (found same), k)
  | inr other ↦ ground (arith, other, first_row-any test seen rows row (rest other) k)
]
  where
    found : test c ≡ true → c ≡ row
    found same = ground (arith, same, h)

    rest : test c ≡ false → first_row test rows ≡ some row
    rest other = ground (arith, other, h)

pub required_case-OfCase :
    (w : World) (r : ActionRow) (c : RecoveryCase)
    → required_case w r ≡ ok c
    → OfCase r c × CaseIn r.merchant_id r.recovery_case_id c.state w
unfolding required_case
required_case-OfCase w r c h =
    found (Option-cases (first_row (has_case_key r.merchant_id r.recovery_case_id) w.cases))
  where
    made :
        (row : RecoveryCase)
        → first_row (has_case_key r.merchant_id r.recovery_case_id) w.cases ≡ some row
        → init_case row ≡ ok c
    made row there = ground (arith, there, h)

    missing : first_row (has_case_key r.merchant_id r.recovery_case_id) w.cases ≡ none → ⊥
    missing absent = ground (arith, absent, h)

    found :
        (first_row (has_case_key r.merchant_id r.recovery_case_id) w.cases ≡ none)
          ⊎ ((row : RecoveryCase) × (first_row
                  (has_case_key r.merchant_id r.recovery_case_id)
                  w.cases
                ≡ some row))
        → OfCase r c × CaseIn r.merchant_id r.recovery_case_id c.state w
    found (inl absent) = absurd (missing absent)
    found (inr (row, there)) =
        let same = init_case_lem row c (made row there) in
        let key =
          first_row_holds (has_case_key r.merchant_id r.recovery_case_id) w.cases row there in
        let (m, n) =
          both_true (str_eq row.merchant_id r.merchant_id) (str_eq row.case_id r.recovery_case_id)
            key in
        (
          (
            ap (λ (x : RecoveryCase). x.merchant_id) same
                ∙ (str_eq_iff row.merchant_id r.merchant_id).0 m,
            ap (λ (x : RecoveryCase). x.case_id) same
                ∙ (str_eq_iff row.case_id r.recovery_case_id).0 n,
          ),
          first_row-any (has_case_key r.merchant_id r.recovery_case_id)
              (λ y. has_case_key r.merchant_id r.recovery_case_id y && state_eq y.state c.state)
              w.cases row there
              (rw (key, ap (λ (x : RecoveryCase). x.state) same) (state_eq_self row.state)),
        )

-- A row that an update writes is in the table.
written :
    (test seen : RecoveryCase → Bool) (change : RecoveryCase → RecoveryCase)
    (rows : List RecoveryCase)
    → ((c : RecoveryCase) → test c ≡ true → seen (change c) ≡ true)
    → not_one (select test rows) ≡ false
    → any seen (update test change rows) ≡ true
unfolding select update
written test seen change [] shows h = cc
written test seen change (c ∷ rows) shows h = elim (Bool-cases (test c)) [
  | inl same ↦ ground (arith, same, shows c same)
  | inr other ↦ ground (arith, other, written test seen change rows shows (rest other))
]
  where
    rest : test c ≡ false → not_one (select test rows) ≡ false
    rest other = ground (arith, other, h)

module _ (sha256 : List ℕ → String) where
  pub record_audit-tables :
      (db db' : Database) (q : AuditAppend) (ids : String × String)
      → record_audit sha256 db q ids ≡ ok db'
      → (db'.outcomes ≡ db.outcomes) × (db'.attempts ≡ db.attempts) × (db'.actions ≡ db.actions)
  unfolding record_audit
  record_audit-tables db db' q ids h =
      let ((entry, ledger), _, e) = >>=-eq-ok (Ledger.append sha256 db.ledger q ids.0 ids.1) _ h in
      (
        ap (λ (x : Database). x.outcomes) (sym (ok-injective e)),
        ap (λ (x : Database). x.attempts) (sym (ok-injective e)),
        ap (λ (x : Database). x.actions) (sym (ok-injective e)),
      )

  -- A move that returned.
  pub record HasMoved (w : World) (c : RecoveryCase) (to_state : CaseState) (c' : RecoveryCase)
      (w' : World) : Type 0 where
    pub transition : CaseTransition
    pub reached : c'.state ≡ to_state
    pub logged : w'.transitions ≡ transition ∷ w.transitions
    pub same_outcomes : w'.db.outcomes ≡ w.db.outcomes
    pub same_actions : w'.db.actions ≡ w.db.actions
    pub same_attempts : w'.db.attempts ≡ w.db.attempts
    pub stored : CaseIn c.merchant_id c.case_id to_state w'
    pub same_owner : (c'.case_id ≡ c.case_id) × (c'.merchant_id ≡ c.merchant_id)

  apply_transition-tables :
      (w w' : World) (c : RecoveryCase) (t : CaseTransition) (ids : String × String)
      → apply_transition sha256 w c t ids ≡ ok w'
      → (w'.transitions ≡ t ∷ w.transitions)
        × (w'.db.outcomes ≡ w.db.outcomes)
        × (w'.db.actions ≡ w.db.actions)
        × (w'.db.attempts ≡ w.db.attempts)
        × CaseIn t.merchant_id t.case_id c.state w'
  unfolding apply_transition
  apply_transition-tables w w' c t ids h =
      let (once, h1) = raise_if-eq-ok (not_one (select (is_before t) w.cases)) _ _ h in
      let (audited, told, e) =
        >>=-eq-ok (record_audit sha256 w.db (transition_request t) ids) _ h1 in
      let (outcomes, attempts, actions) =
        record_audit-tables w.db audited (transition_request t) ids told in
      (
        ap (λ (x : World). x.transitions) (sym (ok-injective e)),
        ap (λ (x : World). x.db.outcomes) (sym (ok-injective e)) ∙ outcomes,
        ap (λ (x : World). x.db.actions) (sym (ok-injective e)) ∙ actions,
        ap (λ (x : World). x.db.attempts) (sym (ok-injective e)) ∙ attempts,
        subst (λ (x : World). CaseIn t.merchant_id t.case_id c.state x) (ok-injective e)
            (written (is_before t)
              (λ y. has_case_key t.merchant_id t.case_id y && state_eq y.state c.state)
              (moved_row c) w.cases (λ y same. moves y same) once),
      )
    where
      moves :
          (y : RecoveryCase)
          → is_before t y ≡ true
          → (has_case_key t.merchant_id t.case_id (moved_row c y) && state_eq c.state c.state)
            ≡ true
      moves y same = rw (state_eq_self c.state) (ground (arith, same))

  pub move-HasMoved :
      (w w' : World) (c c' : RecoveryCase) (r : ActionRow) (to_state : CaseState)
      (reason_code : String) (at : Datetime) (o : MoveOptions) (ids : String × String)
      → move sha256 w c r to_state reason_code at o ids ≡ ok (c', w')
      → HasMoved w c to_state c' w'
  unfolding move
  move-HasMoved w w' c c' r to_state reason_code at o ids h =
      let request = move_request c r to_state reason_code at o in
      let ((updated, t), transits, h1) = >>=-eq-ok (transition_case c request) _ h in
      let (moved, applied, e) = >>=-eq-ok (apply_transition sha256 w updated t ids) _ h1 in
      let m = transition_case-Moved c request updated t transits in
      let (_, s) = transition_case-IsValid c request updated t transits in
      let (logged, outcomes, actions, attempts, stored) =
        apply_transition-tables w moved updated t ids applied in
      let same_case = ap (λ (x : RecoveryCase × World). x.0) (sym (ok-injective e)) in
      let same_world = ap (λ (x : RecoveryCase × World). x.1) (sym (ok-injective e)) in
      record {
        transition = t;
        reached = ap (λ (x : RecoveryCase). x.state) same_case ∙ m.state;
        logged = ap (λ (x : World). x.transitions) same_world ∙ logged;
        same_outcomes = ap (λ (x : World). x.db.outcomes) same_world ∙ outcomes;
        same_actions = ap (λ (x : World). x.db.actions) same_world ∙ actions;
        same_attempts = ap (λ (x : World). x.db.attempts) same_world ∙ attempts;
        stored =
            subst (λ (x : World). CaseIn c.merchant_id c.case_id to_state x) (sym same_world)
              (in_case moved updated t m.state m.told_case stored);
        same_owner = (
          ap (λ (x : RecoveryCase). x.case_id) same_case ∙ s.same_case.0,
          ap (λ (x : RecoveryCase). x.merchant_id) same_case ∙ s.same_case.1,
        );
      }
    where
      in_case :
          (v : World) (u : RecoveryCase) (t : CaseTransition)
          → u.state ≡ to_state
          → (t.merchant_id ≡ c.merchant_id) × (t.case_id ≡ c.case_id)
          → CaseIn t.merchant_id t.case_id u.state v
          → CaseIn c.merchant_id c.case_id to_state v
      in_case v u t e k there =
          subst (λ z. CaseIn c.merchant_id c.case_id z v) e
            (subst (λ z. CaseIn z c.case_id u.state v) k.0
              (subst (λ z. CaseIn t.merchant_id z u.state v) k.1 there))

  -- A move of the case of an action stores the state that it reaches.
  pub HasMoved-stores :
      (w w' : World) (r : ActionRow) (c c' : RecoveryCase) (to_state : CaseState)
      → OfCase r c
      → HasMoved w c to_state c' w'
      → CaseIn r.merchant_id r.recovery_case_id to_state w' × OfCase r c'
  HasMoved-stores w w' r c c' to_state same m = (
    subst (λ z. CaseIn z r.recovery_case_id to_state w') same.0
        (subst (λ z. CaseIn c.merchant_id z to_state w') same.1 m.stored),
    (m.same_owner.1 ∙ same.0, m.same_owner.0 ∙ same.1),
  )
