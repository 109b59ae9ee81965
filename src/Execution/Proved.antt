-- ===== src/Execution/Proved.antt =====
-- A lookup recovers a case only by proof.
use revenue_guard.Prelude.{
  ℕ, String, ◌≡◌, refl, sym, ap, ◌∙◌, subst, ◌⊎◌, inl, inr, Bool, true, false, ◌&&◌, Bool-cases,
  some, List, arith,
}
use revenue_guard.Fault.{Result, ok, ok-injective, >>=-eq-ok}
use revenue_guard.Cases.{
  CaseState, verifying, escalated, recovered, decision_pending, RecoveryCase, state_eq,
}
use revenue_guard.Cases
use revenue_guard.Actions.{is_succeeded, is_unknown}
use revenue_guard.Outbox.Tables.{is_failed}
use revenue_guard.Execution.World.{World, no_options, with_evidence, move, observe, or_default}
use revenue_guard.Execution.Attempted.{ExecutionDisposition, disposition}
use revenue_guard.Execution.Lookup.{
  ProviderLookupResult, Looked, unresolved_at_deadline, looked_up, must_expire, expire_verification,
  escalate, resolve_row, reconcile_now, reconcile_case, recovered_amount, conclude_failed, conclude,
  reconcile, still_open, after_deadline, look_up,
}
use revenue_guard.Execution.Moved.{move-HasMoved}
use revenue_guard.Execution.Resolved.{in_doubt}
use revenue_guard.Execution.Doubted.{expired, escalate-escalated, resolve_row-case}

doubt_of : {s t : CaseState} → s ≡ t → in_doubt t ≡ true → in_doubt s ≡ true
doubt_of e h = ap in_doubt e ∙ h

not_recovered : (s : CaseState) → in_doubt s ≡ true → s ≡ recovered → ⊥
not_recovered s doubt h = ground (arith, sym (ap in_doubt h) ∙ doubt)

module _ (sha256 : List ℕ → String) (ids : ℕ → String × String) (x : ProviderLookupResult) where
  -- The lookup is an authoritative success.
  abbrev pub proves : Bool
  proves = is_succeeded x.status && x.is_authoritative

  expire_verification-doubt :
      (l l' : Looked)
      → expire_verification sha256 ids x l ≡ ok l'
      → in_doubt l.recovery_case.state ≡ true
      → in_doubt l'.recovery_case.state ≡ true
  unfolding expire_verification
  expire_verification-doubt l l' h doubt = elim (Bool-cases (must_expire sha256 ids x l)) [
    | inl due ↦ doubt_of (expired sha256 ids x l l' (ground (arith, due, h))).0 refl
    | inr early ↦ subst (λ y. in_doubt y.recovery_case.state ≡ true) (kept early) doubt
  ]
    where
      kept : must_expire sha256 ids x l ≡ false → l ≡ l'
      kept early = ground (arith, early, h)

  reconcile_now-doubt :
      (l l' : Looked) → reconcile_now sha256 ids x l ≡ ok l' → l'.recovery_case.state ≡ verifying
  unfolding reconcile_now
  reconcile_now-doubt l l' h =
      let ((moved, w1), went, same) =
        >>=-eq-ok
          (move sha256 l.world l.recovery_case l.row verifying "UNKNOWN_RECONCILED" x.observed_at
            (with_evidence (some x.evidence_reference)) (ids 3))
          _ h in
      ap (λ (y : Looked). y.recovery_case.state) (sym (ok-injective same))
      ∙ (move-HasMoved sha256 l.world w1 l.recovery_case moved l.row verifying "UNKNOWN_RECONCILED"
          x.observed_at (with_evidence (some x.evidence_reference)) (ids 3) went).reached

  reconcile_case-doubt :
      (l l' : Looked)
      → reconcile_case sha256 ids x l ≡ ok l'
      → in_doubt l.recovery_case.state ≡ true
      → in_doubt l'.recovery_case.state ≡ true
  unfolding reconcile_case
  reconcile_case-doubt l l' h doubt =
      elim (Bool-cases (state_eq l.recovery_case.state Cases.unknown)) [
        | inl unsure ↦ doubt_of (reconcile_now-doubt l l' (ground (arith, unsure, h))) refl
        | inr sure ↦ subst (λ y. in_doubt y.recovery_case.state ≡ true) (kept sure) doubt
      ]
    where
      kept : state_eq l.recovery_case.state Cases.unknown ≡ false → l ≡ l'
      kept sure = ground (arith, sure, h)

  conclude_failed-pending :
      (l l' : Looked)
      → conclude_failed sha256 ids x l ≡ ok l'
      → l'.recovery_case.state ≡ decision_pending
  unfolding conclude_failed
  conclude_failed-pending l l' h =
      let reason = or_default x.reason_code "AUTHORITATIVE_ACTION_FAILURE" in
      let ((moved, w1), went, same) =
        >>=-eq-ok
          (move sha256 l.world l.recovery_case l.row decision_pending reason x.observed_at
            no_options (ids 5))
          _ h in
      ap (λ (y : Looked). y.recovery_case.state) (sym (ok-injective same))
      ∙ (move-HasMoved sha256 l.world w1 l.recovery_case moved l.row decision_pending reason
          x.observed_at no_options (ids 5) went).reached

  -- Without proof the case that a lookup in doubt ends with is not recovered.
  conclude_unproved :
      (l l' : Looked)
      → conclude sha256 ids x l ≡ ok l'
      → in_doubt l.recovery_case.state ≡ true
      → proves ≡ false
      → l'.recovery_case.state ≡ recovered
      → ⊥
  unfolding conclude
  conclude_unproved l l' h doubt unproved ends =
      elim (Bool-cases (is_failed x.status && x.is_authoritative)) [
        | inl refused ↦ clash (conclude_failed-pending l l' (ground (arith, unproved, refused, h)))
        | inr other ↦
            not_recovered l'.recovery_case.state
              (subst (λ y. in_doubt y.recovery_case.state ≡ true) (kept other) doubt) ends
      ]
    where
      clash : l'.recovery_case.state ≡ decision_pending → ⊥
      clash e = cc (sym ends ∙ e)

      kept : (is_failed x.status && x.is_authoritative) ≡ false → l ≡ l'
      kept other = ground (arith, unproved, other, h)

  reconcile_unproved :
      (l : Looked) (d : ExecutionDisposition) (w : World)
      → reconcile sha256 ids x l ≡ ok (d, w)
      → in_doubt l.recovery_case.state ≡ true
      → proves ≡ false
      → d.case_state ≡ recovered
      → ⊥
  unfolding reconcile
  reconcile_unproved l d w h doubt unproved ends =
      let (resolved, r, h1) = >>=-eq-ok (resolve_row sha256 ids x l) _ h in
      let (checked, c, h2) = >>=-eq-ok (reconcile_case sha256 ids x resolved) _ h1 in
      let (amount, _, h3) = >>=-eq-ok (recovered_amount sha256 ids x checked) _ h2 in
      let (w1, _, h4) =
        >>=-eq-ok
          (observe sha256 checked.world checked.row x.status
            (looked_up x x.reason_code x.is_authoritative amount) (ids 4))
          _ h3 in
      let (ended, e, same) =
        >>=-eq-ok (conclude sha256 ids x (record checked { world = w1 })) _ h4 in
      conclude_unproved (record checked { world = w1 }) ended e
        (reconcile_case-doubt resolved checked c (
          doubt_of (ap (λ (y : RecoveryCase). y.state) (resolve_row-case sha256 ids x l resolved r))
            doubt))
        unproved
        (ap (λ (y : ExecutionDisposition × World). y.0.case_state) (ok-injective same) ∙ ends)

  escalates_not :
      (l : Looked) (d : ExecutionDisposition) (w : World)
      → escalate sha256 ids x l ≡ ok (d, w)
      → d.case_state ≡ recovered
      → ⊥
  escalates_not l d w h ends = cc (sym ends ∙ (escalate-escalated sha256 ids x l d w h).0)

  abbrev left_open : Looked → Result (ExecutionDisposition × World)
  left_open l =
      ok (disposition l.row l.row.status l.recovery_case (still_open sha256 ids x l), l.world)

  left_open_not :
      (l : Looked) (d : ExecutionDisposition) (w : World)
      → left_open l ≡ ok (d, w)
      → in_doubt l.recovery_case.state ≡ true
      → d.case_state ≡ recovered
      → ⊥
  left_open_not l d w h doubt ends =
      not_recovered l.recovery_case.state doubt
        (ap (λ (y : ExecutionDisposition × World). y.0.case_state) (ok-injective h) ∙ ends)

  after_deadline_unproved :
      (l : Looked) (d : ExecutionDisposition) (w : World)
      → after_deadline sha256 ids x l ≡ ok (d, w)
      → in_doubt l.recovery_case.state ≡ true
      → proves ≡ false
      → d.case_state ≡ recovered
      → ⊥
  unfolding after_deadline
  after_deadline_unproved l d w h doubt unproved ends =
      elim (Bool-cases
        (state_eq l.recovery_case.state Cases.unknown && unresolved_at_deadline l.row x)) [
          | inl due ↦ escalates_not l d w (ground (arith, due, h)) ends
          | inr early ↦ elim (Bool-cases (is_unknown x.status)) [
            | inl unsure ↦ left_open_not l d w (ground (arith, early, unsure, h)) doubt ends
            | inr told ↦
                reconcile_unproved l d w (ground (arith, early, told, h)) doubt unproved ends
          ]
        ]

  abbrev not_heard : Looked → Result (ExecutionDisposition × World)
  not_heard l = ok (disposition l.row l.row.status l.recovery_case "STALE_LOOKUP", l.world)

  -- A lookup that returns with a recovered case has either found it recovered and changed nothing, or is
  -- an authoritative success: no lookup without authority, and none that is pending, failed or unknown,
  -- recovers a case.
  pub look_up-Proves :
      (l : Looked) (d : ExecutionDisposition) (w : World)
      → look_up sha256 ids x l ≡ ok (d, w)
      → d.case_state ≡ recovered
      → ((l.recovery_case.state ≡ recovered) × (w ≡ l.world)) ⊎ (proves ≡ true)
  unfolding look_up
  look_up-Proves l d w h ends = elim (Bool-cases proves) [
    | inl proof ↦ inr proof
    | inr unproved ↦ elim (Bool-cases (in_doubt l.recovery_case.state)) [
      | inl doubt ↦
          let (timed, expires, rest) =
            >>=-eq-ok (expire_verification sha256 ids x l) (after_deadline sha256 ids x)
              (ground (arith, doubt, h)) in
          absurd (
            after_deadline_unproved timed d w rest (expire_verification-doubt l timed expires doubt)
              unproved ends)
      | inr sure ↦ inl (stale (ground (arith, sure, h)))
    ]
  ]
    where
      stale : not_heard l ≡ ok (d, w) → (l.recovery_case.state ≡ recovered) × (w ≡ l.world)
      stale k = (
        ap (λ (y : ExecutionDisposition × World). y.0.case_state) (ok-injective k) ∙ ends,
        ap (λ (y : ExecutionDisposition × World). y.1) (sym (ok-injective k)),
      )
