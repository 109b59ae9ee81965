-- ===== src/Policy/Vocabulary.antt =====
-- The enumerations of policy.py and the tables over them.
use revenue_guard.Prelude.{ℕ, String, ◌≡◌, Bool, true, false, Option, none, some, arith, ◌==◌}

pub data ActionType : Type 0 where
  defer_retry create_payment_link request_payment_method_update : ActionType
  send_reminder schedule_promise_reminder pause_retries : ActionType
  resume_deferred_case escalate_human stop_automation no_action : ActionType

-- `action_type.value`.
abbrev pub action_value : ActionType → String
action_value defer_retry = "DEFER_RETRY"
action_value create_payment_link = "CREATE_PAYMENT_LINK"
action_value request_payment_method_update = "REQUEST_PAYMENT_METHOD_UPDATE"
action_value send_reminder = "SEND_REMINDER"
action_value schedule_promise_reminder = "SCHEDULE_PROMISE_REMINDER"
action_value pause_retries = "PAUSE_RETRIES"
action_value resume_deferred_case = "RESUME_DEFERRED_CASE"
action_value escalate_human = "ESCALATE_HUMAN"
action_value stop_automation = "STOP_AUTOMATION"
action_value no_action = "NO_ACTION"

abbrev action_code : ActionType → ℕ
action_code defer_retry = 0
action_code create_payment_link = 1
action_code request_payment_method_update = 2
action_code send_reminder = 3
action_code schedule_promise_reminder = 4
action_code pause_retries = 5
action_code resume_deferred_case = 6
action_code escalate_human = 7
action_code stop_automation = 8
action_code no_action = 9

-- `a is b` on the members of the enumeration.
abbrev pub action_eq : ActionType → ActionType → Bool
action_eq a b = action_code a == action_code b

pub data ActionClass : Type 0 where
  retry money_intent customer_contact internal escalation stop_class none_class : ActionClass

-- `ACTION_CLASSES[action]`.
abbrev pub action_class : ActionType → ActionClass
action_class defer_retry = retry
action_class create_payment_link = money_intent
action_class request_payment_method_update = customer_contact
action_class send_reminder = customer_contact
action_class schedule_promise_reminder = customer_contact
action_class pause_retries = internal
action_class resume_deferred_case = internal
action_class escalate_human = escalation
action_class stop_automation = stop_class
action_class no_action = none_class

-- `action_class in ALWAYS_ALLOWED_CLASSES`.
abbrev pub always_allowed : ActionClass → Bool
always_allowed escalation = true
always_allowed stop_class = true
always_allowed none_class = true
always_allowed _ = false

-- `action_class in EXPECTED_VALUE_EXEMPT_CLASSES`.
abbrev pub value_exempt : ActionClass → Bool
value_exempt internal = true
value_exempt escalation = true
value_exempt stop_class = true
value_exempt none_class = true
value_exempt _ = false

abbrev pub is_contact : ActionClass → Bool
is_contact customer_contact = true
is_contact _ = false

abbrev pub is_retry : ActionClass → Bool
is_retry retry = true
is_retry _ = false

-- `action_class in {RETRY, MONEY_INTENT}`.
abbrev pub is_payment : ActionClass → Bool
is_payment retry = true
is_payment money_intent = true
is_payment _ = false

pub data ContactChannel : Type 0 where
  email sms whatsapp : ContactChannel

abbrev channel_code : ContactChannel → ℕ
channel_code email = 0
channel_code sms = 1
channel_code whatsapp = 2

abbrev pub channel_eq : ContactChannel → ContactChannel → Bool
channel_eq a b = channel_code a == channel_code b

-- `a is b` where either may be `None`.
abbrev pub channel_opt_eq : Option ContactChannel → Option ContactChannel → Bool
channel_opt_eq none none = true
channel_opt_eq none (some b) = false
channel_opt_eq (some a) none = false
channel_opt_eq (some a) (some b) = channel_eq a b

pub data ConsentState : Type 0 where
  granted denied unknown_consent : ConsentState

abbrev pub is_granted : ConsentState → Bool
is_granted granted = true
is_granted _ = false

pub data IncidentScope : Type 0 where
  payment_rail gateway issuer contact_channel all_automation : IncidentScope

pub data PolicyResult : Type 0 where
  proceed defer skip stop require_human : PolicyResult

pub action_eq→≡ : (a b : ActionType) → action_eq a b ≡ true → a ≡ b
action_eq→≡ a b h = ground arith
