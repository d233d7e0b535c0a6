-- ===== src/Ingest/Envelope.antt =====
-- `_canonical_envelope`, `_from_envelope` (services/api/paytwin_api/services/ingest.py) and the checks
-- of `CanonicalEvent` (packages/contracts/paytwin_contracts/events.py). The two conversions of an
-- instant to text are a parameter.
use Prim.Native.String.{count}
use pay_twin_os.Prelude.{
  ℕ, String, Bool, Option, none, some, ◌&&◌, leb, str_eq, if◌then◌else◌, get_or,
}
use pay_twin_os.Payments.Rows.{
  EventType, payment_created, payment_authorized, payment_failed, payment_success, payment_timeout,
  refund_created, refund_failed, refund_updated, order_paid, connector_health, Payload, Cohort,
  CanonicalEvent,
}

abbrev pub event_name : EventType → String
event_name payment_created = "payment.created"
event_name payment_authorized = "payment.authorized"
event_name payment_failed = "payment.failed"
event_name payment_success = "payment.success"
event_name payment_timeout = "payment.timeout"
event_name refund_created = "refund.created"
event_name refund_failed = "refund.failed"
event_name refund_updated = "refund.updated"
event_name order_paid = "order.paid"
event_name connector_health = "connector.health"

-- `_known_type`
abbrev pub known_type : String → Option EventType
known_type t =
    if str_eq t "payment.created"
    then some payment_created
    else if str_eq t "payment.authorized"
    then some payment_authorized
    else if str_eq t "payment.failed"
    then some payment_failed
    else if str_eq t "payment.success"
    then some payment_success
    else if str_eq t "payment.timeout"
    then some payment_timeout
    else if str_eq t "refund.created"
    then some refund_created
    else if str_eq t "refund.failed"
    then some refund_failed
    else if str_eq t "refund.updated"
    then some refund_updated
    else if str_eq t "order.paid"
    then some order_paid
    else if str_eq t "connector.health"
    then some connector_health
    else none

-- The entries of the stored dictionary; `none` is a missing entry.
pub record Envelope : Type 0 where
  pub type : Option String
  pub organization_id : Option String
  pub merchant_id : Option String
  pub provider : Option String
  pub external_event_id : Option String
  pub occurred_at : Option String
  pub payment_ref : Option String
  pub amount_paise : Option ℕ
  pub currency : Option String
  pub cohort : Option Cohort
  pub payload : Option Payload

-- The conversion of instants that the standard library does.
pub record Clock : Type 0 where
  pub iso_format : ℕ → String
  pub from_iso_format : String → Option ℕ

-- The checks that the constructor of `CanonicalEvent` makes beside the one of the type.
abbrev pub is_valid : CanonicalEvent → Bool
is_valid e =
    leb 3 (count e.external_event_id)
    && leb (count e.external_event_id) 200
    && leb 1 (count e.payment_ref)
    && leb (count e.payment_ref) 200
    && str_eq e.currency "INR"

abbrev pub checked : CanonicalEvent → Option CanonicalEvent
checked e = if is_valid e then some e else none

infixl 5 ◌>>=◌
abbrev ◌>>=◌ : {A B : Type 0} → Option A → (A → Option B) → Option B
m >>= rest = elim m [ none ↦ none | some value ↦ rest value ]

abbrev no_cohort : Cohort
no_cohort = record { issuer = none; method = none; psp = none; gateway = none }

abbrev pub no_payload : Payload
no_payload = record {
  group_id = none;
  attempt_no = none;
  order_ref = none;
  customer_ref = none;
  payment_link_ref = none;
  payment_amount_paise = none;
  order_amount_paise = none;
  latency_ms = none;
  failure_class = none;
  refund_ref = none;
  refund_amount_paise = none;
  refund_status = none;
  refund_receipt = none;
  refund_idempotency_key = none;
  refund_speed_requested = none;
  refund_speed_processed = none;
}

module _ (clock : Clock) where
  unfoldable pub canonical_envelope : CanonicalEvent → Envelope
  canonical_envelope e = record {
    type = some (event_name e.type);
    organization_id = some e.organization_id;
    merchant_id = some e.merchant_id;
    provider = some e.provider;
    external_event_id = some e.external_event_id;
    occurred_at = some (clock.iso_format e.occurred_at);
    payment_ref = some e.payment_ref;
    amount_paise = some e.amount_paise;
    currency = some e.currency;
    cohort = some e.cohort;
    payload = some e.payload;
  }

  -- `none` is a KeyError, TypeError or ValueError.
  unfoldable pub from_envelope : Envelope → Option CanonicalEvent
  from_envelope v = do
    name ← v.type
    organization_id ← v.organization_id
    merchant_id ← v.merchant_id
    provider ← v.provider
    external_event_id ← v.external_event_id
    written ← v.occurred_at
    occurred_at ← clock.from_iso_format written
    payment_ref ← v.payment_ref
    amount_paise ← v.amount_paise
    type ← known_type name
    checked (record {
      type = type;
      organization_id = organization_id;
      merchant_id = merchant_id;
      provider = provider;
      external_event_id = external_event_id;
      occurred_at = occurred_at;
      payment_ref = payment_ref;
      amount_paise = amount_paise;
      currency = get_or v.currency "INR";
      cohort = get_or v.cohort no_cohort;
      payload = get_or v.payload no_payload;
    })
