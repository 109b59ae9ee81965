-- ===== src/Actions/Key.antt =====
-- An idempotency key identifies its action.
use Prim.Native.String.{◌++◌ as append_text}
use Prim.Native.String.append
use revenue_guard.Prelude.{
  ℕ, String, ◌≡◌, refl, sym, ap, ◌∙◌, ◌⊎◌, inl, inr, true, List, arith, str_eq, str_eq_iff,
  if◌then◌else◌,
}
use revenue_guard.Fault.{ok, Result-cases}
use revenue_guard.Clock.{utc, utc_opt}
use revenue_guard.Identifier.{identifier}
use revenue_guard.Canonical.Access.{field_text, field_num}
use revenue_guard.Digest.{Collision, digest, digest-binds}
use revenue_guard.Cases.{SubjectType, payment, subscription, invoice, portfolio_incident}
use revenue_guard.Policy.Vocabulary.{
  ActionType, defer_retry, create_payment_link, request_payment_method_update, send_reminder,
  schedule_promise_reminder, pause_retries, resume_deferred_case, escalate_human, stop_automation,
  no_action, action_value,
}
use revenue_guard.Actions.{
  ActionIdentity, RecoveryAction, identity_of, subject_value, key_document, action_idempotency_key,
  init_action, normalize_action,
}

-- The text after the first character.
abbrev tail : String → String
tail String.[] = String.[]
tail (String.◌∷◌ c s) = s

prefix-cancel : (p s t : String) → append_text p s ≡ append_text p t → s ≡ t
prefix-cancel String.[] s t h = sym (append.nil s) ∙ h ∙ append.nil t
prefix-cancel (String.◌∷◌ c p) s t h =
    prefix-cancel p s t (ap tail (sym (append.cons c p s) ∙ h ∙ append.cons c p t))

-- The members of the enumerations by their values.
abbrev action_of : String → ActionType
action_of s =
    if str_eq s (action_value defer_retry)
    then defer_retry
    else if str_eq s (action_value create_payment_link)
    then create_payment_link
    else if str_eq s (action_value request_payment_method_update)
    then request_payment_method_update
    else if str_eq s (action_value send_reminder)
    then send_reminder
    else if str_eq s (action_value schedule_promise_reminder)
    then schedule_promise_reminder
    else if str_eq s (action_value pause_retries)
    then pause_retries
    else if str_eq s (action_value resume_deferred_case)
    then resume_deferred_case
    else if str_eq s (action_value escalate_human)
    then escalate_human
    else if str_eq s (action_value stop_automation)
    then stop_automation
    else no_action

action_of-value : (a : ActionType) → action_of (action_value a) ≡ a
action_of-value defer_retry = refl
action_of-value create_payment_link = refl
action_of-value request_payment_method_update = refl
action_of-value send_reminder = refl
action_of-value schedule_promise_reminder = refl
action_of-value pause_retries = refl
action_of-value resume_deferred_case = refl
action_of-value escalate_human = refl
action_of-value stop_automation = refl
action_of-value no_action = refl

abbrev subject_of : String → SubjectType
subject_of s =
    if str_eq s (subject_value payment)
    then payment
    else if str_eq s (subject_value subscription)
    then subscription
    else if str_eq s (subject_value invoice)
    then invoice
    else portfolio_incident

subject_of-value : (a : SubjectType) → subject_of (subject_value a) ≡ a
subject_of-value payment = refl
subject_of-value subscription = refl
subject_of-value invoice = refl
subject_of-value portfolio_incident = refl

key_document-injective : (i j : ActionIdentity) → key_document i ≡ key_document j → i ≡ j
unfolding key_document
key_document-injective i j h =
    let action =
      sym (action_of-value i.action_type)
      ∙ ap (λ v. action_of (field_text 0 v)) h
      ∙ action_of-value j.action_type in
    let target =
      sym (subject_of-value i.target_type)
      ∙ ap (λ v. subject_of (field_text 5 v)) h
      ∙ subject_of-value j.target_type in
    λ t. record {
      merchant_id = field_text 3 (h t);
      case_id = field_text 1 (h t);
      action_type = action t;
      target_type = target t;
      target_id = field_text 4 (h t);
      logical_attempt = field_num 2 (h t);
    }

module _ (sha256 : List ℕ → String) where
  key_is_digest :
      (i : ActionIdentity) (k : String)
      → action_idempotency_key sha256 i ≡ ok k
      → k ≡ append_text "rg:v1:" (digest sha256 true (key_document i))
  unfolding action_idempotency_key identifier
  key_is_digest i k h = ground arith

  -- Two actions with one idempotency key are one action: the same merchant, case, kind, target and
  -- logical attempt, unless they show a collision of the hash.
  pub action_idempotency_key-binds :
      (i j : ActionIdentity) (k : String)
      → action_idempotency_key sha256 i ≡ ok k
      → action_idempotency_key sha256 j ≡ ok k
      → (i ≡ j) ⊎ Collision sha256
  action_idempotency_key-binds i j k h l =
      let same =
        prefix-cancel "rg:v1:" (digest sha256 true (key_document i))
          (digest sha256 true (key_document j)) (sym (key_is_digest i k h) ∙ key_is_digest j k l) in
      elim (digest-binds sha256 true (key_document i) (key_document j) same) [
        | inl documents ↦ inl (key_document-injective i j documents)
        | inr clash ↦ inr clash
      ]

  -- An action that was constructed carries the key of its own identity.
  action-key :
      (a b : RecoveryAction)
      → init_action sha256 a ≡ ok b
      → (action_idempotency_key sha256 (identity_of b) ≡ ok b.idempotency_key)
  unfolding init_action normalize_action utc utc_opt
  action-key a b h = elim (Result-cases (action_idempotency_key sha256 (identity_of a))) [
    | inr (f, m) ↦ absurd (ground (arith, m, h))
    | inl (expected, m) ↦ ground (arith, m, h, str_eq_iff a.idempotency_key expected)
  ]

  -- Two recovery actions that were constructed with one idempotency key are the same logical action,
  -- unless they show a collision of the hash.
  pub init_action-binds :
      (a b c d : RecoveryAction)
      → init_action sha256 a ≡ ok b
      → init_action sha256 c ≡ ok d
      → b.idempotency_key ≡ d.idempotency_key
      → (identity_of b ≡ identity_of d) ⊎ Collision sha256
  init_action-binds a b c d h k same =
      action_idempotency_key-binds (identity_of b) (identity_of d) d.idempotency_key
        (action-key a b h ∙ ap (λ x. ok x) same) (action-key c d k)
