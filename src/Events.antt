-- ===== src/Events.antt =====
-- packages/domain/src/revenueguard_domain/events.py: the event that provider adapters hand to the
-- domain. The types give what the `isinstance` tests ask, and an amount is a natural number.
use revenue_guard.Prelude.{
  ℕ, String, Bool, not, Option, [], ◌∷◌, all, is_missing, str_eq, is_currency_code,
}
use revenue_guard.Fault.{Result, ok, value_error, ◌>>=◌, ◌>>◌, raise_if}
use revenue_guard.Clock.{Datetime, utc}
use revenue_guard.Identifier.{identifier, identifier_opt}

pub data EventSource : Type 0 where
  razorpay merchant synthetic : EventSource

pub data NormalizedFailureCategory : Type 0 where
  no_failure insufficient_funds expired_payment_method : NormalizedFailureCategory
  authentication_failure issuer_unavailable gateway_unavailable : NormalizedFailureCategory
  customer_action_required dispute unknown_failure : NormalizedFailureCategory

pub record RevenueRiskEvent : Type 0 where
  pub event_id : String
  pub merchant_id : String
  pub source : EventSource
  pub source_event_id : String
  pub event_type : String
  pub occurred_at : Datetime
  pub received_at : Datetime
  pub amount_minor : ℕ
  pub currency : String
  pub normalized_failure_category : NormalizedFailureCategory
  pub correlation_id : String
  pub source_payload_reference : String
  pub customer_id : Option String
  pub payment_id : Option String
  pub order_id : Option String
  pub subscription_id : Option String
  pub invoice_id : Option String
  pub payment_link_id : Option String
  pub failure_code : Option String
  pub causation_id : Option String
  pub schema : String

-- The loop over `required_limits`, and the one over `optional_limits`.
unfoldable pub check_required : RevenueRiskEvent → Result (Unit {0})
check_required e = do
  identifier "event_id" e.event_id 128
  identifier "merchant_id" e.merchant_id 128
  identifier "source_event_id" e.source_event_id 256
  identifier "event_type" e.event_type 128
  identifier "correlation_id" e.correlation_id 128
  identifier "source_payload_reference" e.source_payload_reference 512

unfoldable pub check_optional : RevenueRiskEvent → Result (Unit {0})
check_optional e = do
  identifier_opt "customer_id" e.customer_id 128
  identifier_opt "payment_id" e.payment_id 128
  identifier_opt "order_id" e.order_id 128
  identifier_opt "subscription_id" e.subscription_id 128
  identifier_opt "invoice_id" e.invoice_id 128
  identifier_opt "payment_link_id" e.payment_link_id 128
  identifier_opt "failure_code" e.failure_code 128
  identifier_opt "causation_id" e.causation_id 128

-- `not any((customer_id, payment_id, ...))`.
abbrev pub without_subject : RevenueRiskEvent → Bool
without_subject e =
    all is_missing
      (e.customer_id ∷ e.payment_id ∷ e.subscription_id ∷ e.invoice_id ∷ e.payment_link_id ∷ [])

-- `RevenueRiskEvent.__post_init__`.
unfoldable pub init_event : RevenueRiskEvent → Result RevenueRiskEvent
init_event e = do
  raise_if (not (str_eq e.schema "1.0")) (value_error "unsupported RevenueRiskEvent schema")
  check_required e
  check_optional e
  raise_if (without_subject e)
      (value_error "a RevenueRiskEvent requires at least one subject reference")
  raise_if (not (is_currency_code e.currency))
      (value_error "currency must be a three-letter uppercase ISO code")
  occurred ← utc "occurred_at" e.occurred_at
  received ← utc "received_at" e.received_at
  ok (record e { occurred_at = occurred; received_at = received })
