-- ===== src/Policy/Outcome/Wake/Stages.antt =====
-- The stages of `_evaluate_candidate` that defer name a time to look again.
use revenue_guard.Prelude.{
  ℕ, ◌+◌, ◌<◌, ◌≡◌, refl, sym, ap, ◌∙◌, subst, ◌≢◌, ◌⊎◌, inl, inr, true, false, not, ◌&&◌, Option,
  none, some, List, [], ◌∷◌, arith, Bool-cases, Option-cases, is_some, leb, ltb,
}
use revenue_guard.Fault.{Result, ok, err, ok-injective, Result-cases}
use revenue_guard.Clock.{Datetime, at_utc, seconds}
use revenue_guard.Policy.Vocabulary.{
  PolicyResult, defer, action_eq, action_class, defer_retry, schedule_promise_reminder, is_contact,
}
use revenue_guard.Policy.Candidate.{CandidateAction, IncidentConstraint, applies}
use revenue_guard.Policy.Snapshot.{
  TimeZone, Environment, find_zone, MerchantPolicySnapshot, PolicyEvaluationInput,
}
use revenue_guard.Policy.Evaluate.{
  Verdict, reaches_out, approval_matches, in_quiet_hours, permission_stage, channel_stage,
  contact_stage, first_end, conflict_stage, confidence_stage, confidence_wake, delay_stage,
  quiet_stage, quiet_hours_end_at, final_stage, evaluate_candidate, ◌or_else◌,
}

-- A reading of the wall clock that is still to come belongs to an instant that is still to come. A
-- zone whose clock is never set back is so.
pub record IsForward (z : TimeZone) : Type 0 where
  pub later : (t l : ℕ) → z.to_local t < l → t < z.from_local l

-- The wake-up time is there and still to come, or it is the due time of the active promise.
abbrev pub Later : PolicyEvaluationInput → Option Datetime → Type 0
Later e wake =
    (t : Datetime) × (wake ≡ some t)
    × ((e.evaluated_at.instant < t.instant)
        ⊎ ((e.active_promise_to_pay ≡ true) × (e.promise_due_at ≡ some t)))

pub record Wakes (e : PolicyEvaluationInput) (result : PolicyResult) (wake : Option Datetime)
    : Type 0 where
  pub deferred_later : result ≡ defer → Later e wake
  pub else_none : result ≢ defer → wake ≡ none

applies-later :
    (i : IncidentConstraint) (c : CandidateAction) (now : ℕ)
    → applies i c now ≡ true
    → now < i.ends_at.instant
unfolding applies
applies-later i c now h = ground arith

first_end-later :
    (is : List IncidentConstraint) (c : CandidateAction) (now t : ℕ)
    → first_end is c now ≡ some t
    → now < t
unfolding first_end
first_end-later [] c now t h = absurd (cc)
first_end-later (i ∷ is) c now t h = elim (Bool-cases (applies i c now)) [
  | inr not_applies ↦ first_end-later is c now t (ground (arith, not_applies, h))
  | inl this ↦
      let a = applies-later i c now this in
      elim (Option-cases (first_end is c now)) [
        | inl alone ↦ ground (arith, this, alone, a)
        | inr (u, found) ↦ ground (arith, this, found, a, first_end-later is c now u found)
      ]
]

quiet_end-later :
    (z : TimeZone) (p : MerchantPolicySnapshot) (now : ℕ)
    → IsForward z
    → now < quiet_hours_end_at z p now
unfolding quiet_hours_end_at
quiet_end-later z p now f = f.later now _ (ground arith)

abbrev AllWake : PolicyEvaluationInput → Result (Option Verdict) → Type 0
AllWake e m = (v : Verdict) → m ≡ ok (some v) → Wakes e v.result v.wake

module _ (env : Environment) (p : MerchantPolicySnapshot) (e : PolicyEvaluationInput)
    (waits : 0 < p.default_defer_seconds)
    (due : e.active_promise_to_pay ≡ true → is_some e.promise_due_at ≡ true)
    (forward : (z : TimeZone) → find_zone env p.timezone ≡ ok z → IsForward z) where
  soon : Later e (some (at_utc (e.evaluated_at.instant + seconds p.default_defer_seconds)))
  soon =
      (at_utc (e.evaluated_at.instant + seconds p.default_defer_seconds), refl, inl (omega arith))

  module _ (c : CandidateAction) where
    permission-AllWake : AllWake e (ok (permission_stage p e c))
    unfolding permission_stage
    permission-AllWake v h = record {
      deferred_later = λ k. absurd (ground arith);
      else_none = λ k. ground arith;
    }

    contact-AllWake : AllWake e (contact_stage p e c)
    unfolding contact_stage channel_stage
    contact-AllWake v h = record {
      deferred_later = λ k. (soon.0, ground arith, soon.2);
      else_none = λ k. ground arith;
    }

    unknown-or_promise-or_incident :
        (v : Verdict)
        → conflict_stage p e c ≡ some v
        → (v.wake ≡ some soon.0)
          ⊎ ((e.active_promise_to_pay ≡ true) × (v.wake ≡ e.promise_due_at))
          ⊎ ((t : ℕ) × (first_end e.incidents c e.evaluated_at.instant ≡ some t)
              × (v.wake ≡ some (at_utc t)))
    unfolding conflict_stage
    unknown-or_promise-or_incident v h =
        let unknown = e.unknown_equivalent_action && reaches_out (action_class c.action_type) in
        let promised =
          e.active_promise_to_pay
          && not (action_eq c.action_type schedule_promise_reminder)
          && reaches_out (action_class c.action_type) in
        elim (Bool-cases unknown) [
          | inl u ↦ inl (ground (arith, u, h))
          | inr not_u ↦ elim (Bool-cases promised) [
            | inl q ↦ inr (inl (ground (arith, q), ground (arith, not_u, q, h)))
            | inr not_q ↦ elim (Option-cases (first_end e.incidents c e.evaluated_at.instant)) [
              | inl clear ↦ absurd (ground (arith, not_u, not_q, clear, h))
              | inr (t, found) ↦ inr (inr (t, found, ground (arith, not_u, not_q, found, h)))
            ]
          ]
        ]

    conflict-defer : (v : Verdict) → conflict_stage p e c ≡ some v → v.result ≡ defer
    unfolding conflict_stage
    conflict-defer v h = ground arith

    conflict-AllWake : AllWake e (ok (conflict_stage p e c))
    conflict-AllWake v h = record {
      deferred_later = λ k. by_cause (unknown-or_promise-or_incident v (ok-injective h));
      else_none = λ k. absurd (k (conflict-defer v (ok-injective h)));
    }
      where
        by_cause :
            (v.wake ≡ some soon.0)
              ⊎ ((e.active_promise_to_pay ≡ true) × (v.wake ≡ e.promise_due_at))
              ⊎ ((t : ℕ) × (first_end e.incidents c e.evaluated_at.instant ≡ some t)
                  × (v.wake ≡ some (at_utc t)))
            → Later e v.wake
        by_cause (inl w) = (soon.0, w, soon.2)
        by_cause (inr (inl (active, w))) = elim (Option-cases e.promise_due_at) [
          | inl missing ↦ absurd (ground (arith, missing, due active))
          | inr (t, there) ↦ (t, w ∙ there, inr (active, there))
        ]
        by_cause (inr (inr (t, found, w))) =
            (at_utc t, w, inl (first_end-later e.incidents c e.evaluated_at.instant t found))

    confidence_wake-Later : Later e (confidence_wake p e)
    confidence_wake-Later = elim (Option-cases e.diagnosis_defer_until) [
      | inl absent ↦ (soon.0, ground (arith, absent), soon.2)
      | inr (t, there) ↦ elim (Bool-cases (leb t.instant e.evaluated_at.instant)) [
        | inl past ↦ (soon.0, ground (arith, there, past), soon.2)
        | inr ahead ↦ (t, ground (arith, there, ahead), inl (ground (arith, ahead)))
      ]
    ]

    confidence-waits :
        (v : Verdict)
        → confidence_stage env p e c ≡ ok (some v)
        → (v.result ≡ defer) × (v.wake ≡ confidence_wake p e)
    unfolding confidence_stage
    confidence-waits v h =
        let low =
          action_eq c.action_type defer_retry
          && ltb e.confidence_basis_points p.minimum_confidence_basis_points in
        elim (Bool-cases low) [
          | inr high ↦ absurd (ground (arith, high, h))
          | inl is_low ↦ elim (Result-cases (approval_matches env p e c)) [
            | inl (true, m) ↦ absurd (ground (arith, is_low, m, h))
            | inl (false, m) ↦ (ground (arith, is_low, m, h), ground (arith, is_low, m, h))
            | inr (f, m) ↦ absurd (ground (arith, is_low, m, h))
          ]
        ]

    confidence-AllWake : AllWake e (confidence_stage env p e c)
    confidence-AllWake v h =
        let (d, w) = confidence-waits v h in
        record {
          deferred_later = λ k. subst (λ x. Later e x) (sym w) confidence_wake-Later;
          else_none = λ k. absurd (k d);
        }

    delay-waits :
        (v : Verdict)
        → delay_stage e ≡ some v
        → (v.result ≡ defer)
          × ((t : Datetime) × (v.wake ≡ some t) × (e.evaluated_at.instant < t.instant))
    unfolding delay_stage
    delay-waits v h = elim (Option-cases e.diagnosis_defer_until) [
      | inl absent ↦ absurd (ground (arith, absent, h))
      | inr (t, there) ↦
          (ground (arith, there, h), (t, ground (arith, there, h), ground (arith, there, h)))
    ]

    delay-AllWake : AllWake e (ok (delay_stage e))
    delay-AllWake v h =
        let (d, (t, w, l)) = delay-waits v (ok-injective h) in
        record { deferred_later = λ k. (t, w, inl l); else_none = λ k. absurd (k d) }

    quiet-waits :
        (v : Verdict)
        → quiet_stage env p e c ≡ ok (some v)
        → (v.result ≡ defer)
          × ((z : TimeZone) × (find_zone env p.timezone ≡ ok z)
              × (v.wake ≡ some (at_utc (quiet_hours_end_at z p e.evaluated_at.instant))))
    unfolding quiet_stage
    quiet-waits v h = elim (Bool-cases (is_contact (action_class c.action_type))) [
      | inr other ↦ absurd (ground (arith, other, h))
      | inl contact ↦ elim (Result-cases (find_zone env p.timezone)) [
        | inr (f, m) ↦ absurd (ground (arith, contact, m, h))
        | inl (z, m) ↦ elim (Bool-cases (in_quiet_hours z p e.evaluated_at.instant)) [
          | inr outside ↦ absurd (ground (arith, contact, m, outside, h))
          | inl inside ↦
              (ground (arith, contact, m, inside, h), (z, m, ground (arith, contact, m, inside, h)))
        ]
      ]
    ]

    quiet-AllWake : AllWake e (quiet_stage env p e c)
    quiet-AllWake v h =
        let (d, (z, found, w)) = quiet-waits v h in
        record {
          deferred_later = λ k. (
            at_utc (quiet_hours_end_at z p e.evaluated_at.instant),
            w,
            inl (quiet_end-later z p e.evaluated_at.instant (forward z found)),
          );
          else_none = λ k. absurd (k d);
        }

    final-Wakes : (v : Verdict) → final_stage env p e c ≡ ok v → Wakes e v.result v.wake
    unfolding final_stage
    final-Wakes v h = record {
      deferred_later = λ k. absurd (ground arith);
      else_none = λ k. ground arith;
    }

    or_else-Wakes :
        (m : Result (Option Verdict)) (next : Result Verdict)
        → AllWake e m
        → ((v : Verdict) → next ≡ ok v → Wakes e v.result v.wake)
        → (v : Verdict) → m or_else next ≡ ok v
        → Wakes e v.result v.wake
    or_else-Wakes (ok (some w)) next a b v h = a v (ap (λ (x : Result Verdict). some_of x) h)
      where
        some_of : Result Verdict → Result (Option Verdict)
        some_of (ok x) = ok (some x)
        some_of (err f) = err f
    or_else-Wakes (ok none) next a b v h = b v h
    or_else-Wakes (err f) next a b v h = absurd (cc)

    pub evaluate_candidate-Wakes :
        (v : Verdict) → evaluate_candidate env p e c ≡ ok v → Wakes e v.result v.wake
    unfolding evaluate_candidate
    evaluate_candidate-Wakes = or_else-Wakes _ _ permission-AllWake (
        or_else-Wakes _ _ contact-AllWake (
          or_else-Wakes _ _ conflict-AllWake (
            or_else-Wakes _ _ confidence-AllWake
              (or_else-Wakes _ _ delay-AllWake (or_else-Wakes _ _ quiet-AllWake final-Wakes)))))
