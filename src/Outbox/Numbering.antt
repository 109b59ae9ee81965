-- ===== src/Outbox/Numbering.antt =====
-- The numbering of the attempts of an action, as attempts are opened and completed.
use revenue_guard.Prelude.{
  ℕ, ◌≡◌, refl, sym, ap, ◌∙◌, Bool, true, false, Bool-cases, inl, inr, some, List, [], ◌∷◌, arith,
  any,
}
use revenue_guard.Fault.{ok}
use revenue_guard.Table.{select, one_or_none, update}
use revenue_guard.Outbox.Tables.{ActionAttempt, is_open}
use revenue_guard.Outbox.Sound.{AllClosed, Numbered}

-- Of attempts that are closed a test on open ones selects none, and an update of them does nothing.
module _ (test : ActionAttempt → Bool)
    (opens : (t : ActionAttempt) → test t ≡ true → is_open t ≡ true) where
  closed_fails : (t : ActionAttempt) → is_open t ≡ false → test t ≡ false
  closed_fails t h = elim (Bool-cases (test t)) [
    | inl passes ↦ absurd (ground (arith, opens t passes, h))
    | inr fails ↦ fails
  ]

  pub select-closed : (ts : List ActionAttempt) → AllClosed ts → select test ts ≡ []
  unfolding select
  select-closed [] h = refl
  select-closed (t ∷ ts) h = rw (closed_fails t h.0) (select-closed ts h.1)

  update-closed :
      (change : ActionAttempt → ActionAttempt) (ts : List ActionAttempt)
      → AllClosed ts
      → update test change ts ≡ ts
  unfolding update
  update-closed change [] h = refl
  update-closed change (t ∷ ts) h =
      rw (closed_fails t h.0) (ap (λ x. t ∷ x) (update-closed change ts h.1))

  -- The numbering outlives the completion of the attempt that a test finds.
  pub Numbered-complete :
      (n : ℕ) (ts : List ActionAttempt) (t done : ActionAttempt)
      → Numbered n ts
      → one_or_none (select test ts) ≡ ok (some t)
      → done.attempt_number ≡ t.attempt_number
      → Numbered n (update test (λ _. done) ts)
  unfolding select update
  Numbered-complete n [] t done h found same = cc
  Numbered-complete n (u ∷ us) t done h found same = elim (Bool-cases (test u)) [
    | inl passes ↦ rw (passes, update-closed (λ _. done) us h.2) (numbered passes, h.1, h.2, h.3)
    | inr fails ↦ rw (fails, update-closed (λ _. done) us h.2) h
  ]
    where
      only : test u ≡ true → u ≡ t
      only passes = ground (arith, passes, select-closed us h.2, found)

      numbered : test u ≡ true → done.attempt_number ≡ n
      numbered passes = same ∙ sym (ap (λ x. x.attempt_number) (only passes)) ∙ h.0

-- No attempt is open where none is found.
pub none_open :
    (ts : List ActionAttempt) → select is_open ts ≡ [] → AllClosed ts × (any is_open ts ≡ false)
unfolding select
none_open [] h = (tt, refl)
none_open (t ∷ ts) h = elim (Bool-cases (is_open t)) [
  | inl running ↦ absurd (ground (arith, running, h))
  | inr closed ↦
      let (all_closed, none_there) = none_open ts (ground (arith, closed, h)) in
      ((closed, all_closed), rw (closed, none_there))
]
