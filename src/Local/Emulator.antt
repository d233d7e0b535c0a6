-- ===== src/Local/Emulator.antt =====
-- `simulate_payment` and `simulate_refund` (services/api/paytwin_api/services/razorpay_local.py). The
-- fresh references, the id of the delivery and the time are arguments. Their webhook is signed with
-- the merchant's own secret under a new event id, so that ingestion normalizes it and applies the
-- event; the inbox, the outbox and the answer are left out here.
use pay_twin_os.Prelude.{
  ℕ, ◌-◌, String, Bool, true, false, not, Option, none, some, ◌&&◌, ◌||◌, ltb, str_eq,
  if◌then◌else◌, or_text, Result, ok, err, ◌>>=◌, ◌>>◌, raise_if, or_raise,
}
use pay_twin_os.Table.{find_row}
use pay_twin_os.Payments.Rows.{Payment, Order, Db, is_captured, is_paid}
use pay_twin_os.Payments.Apply.{apply_event}
use pay_twin_os.Connectors.Dialect.{value, Library, Owner}
use pay_twin_os.Connectors.Razorpay.{PaymentEntity, Webhook, bare_payment, normalize}

pub data LocalError : Type 0 where
  order_not_found order_paid payment_not_found not_captured bad_amount webhook_refused : LocalError

-- The outcomes of an attempt that the emulator knows.
pub data Attempt : Type 0 where
  captured failed authorized : Attempt

abbrev pub event_of : Attempt → String
event_of captured = "payment.captured"
event_of failed = "payment.failed"
event_of authorized = "payment.authorized"

-- What the caller says of an attempt.
pub record Method : Type 0 where
  pub method : String
  pub bank : Option String
  pub vpa : Option String
  pub failure_reason : Option String
  pub payment_group_id : Option String

abbrev pub is_failed : Attempt → Bool
is_failed failed = true
is_failed _ = false

abbrev pub payment_entity : Order → String → Attempt → Method → ℕ → PaymentEntity
payment_entity order payment_ref outcome how at = record (bare_payment payment_ref) {
  amount = value order.amount_paise;
  created_at = some at;
  method = some how.method;
  bank = how.bank;
  vpa = if str_eq how.method "upi" then how.vpa else none;
  order_id = some order.order_ref;
  paytwin_group_id = how.payment_group_id;
  error_source = if is_failed outcome then some "bank" else none;
  error_reason =
      if is_failed outcome then some (or_text how.failure_reason "issuer_declined") else none;
  error_description =
      if is_failed outcome
      then some (or_text how.failure_reason "issuer declined the payment")
      else none;
}

abbrev pub payment_webhook : Order → String → Attempt → Method → ℕ → Webhook
payment_webhook order payment_ref outcome how at = record {
  event = some (event_of outcome);
  created_at = none;
  payment = some (payment_entity order payment_ref outcome how at);
  refund = none;
  payment_link = none;
}

abbrev pub refund_webhook : Payment → String → ℕ → Option String → ℕ → Webhook
refund_webhook p refund_ref amount receipt at = record {
  event = some "refund.processed";
  created_at = none;
  payment = some (record (bare_payment p.payment_ref) {
    amount = value p.amount_paise;
    order_id = p.order_ref;
    created_at = some at;
  });
  refund = some (record {
    id = some refund_ref;
    payment_id = some p.payment_ref;
    amount = value amount;
    created_at = some at;
    status = some "processed";
    receipt = receipt;
    speed_requested = none;
    speed_processed = none;
  });
  payment_link = none;
}

abbrev pub has_order_ref : String → String → Order → Bool
has_order_ref merchant order_ref row =
    str_eq row.merchant_id merchant
    && str_eq row.provider "razorpay"
    && str_eq row.order_ref order_ref

abbrev pub has_payment_ref : String → String → Payment → Bool
has_payment_ref merchant payment_ref row =
    str_eq row.merchant_id merchant
    && str_eq row.provider "razorpay"
    && str_eq row.payment_ref payment_ref

module _ (l : Library) (owner : Owner) (event_id : String) (at now : ℕ) where
  unfoldable pub ingested : Webhook → Db → Result LocalError Db
  ingested w db = elim (normalize l owner (some event_id) w) [
    | err raised ↦ err webhook_refused
    | ok e ↦ ok (apply_event now db e).1
  ]

  unfoldable pub simulate_payment : String → String → Attempt → Method → Db → Result LocalError Db
  simulate_payment payment_ref order_ref outcome how db = do
    order ←
        or_raise (find_row (has_order_ref owner.merchant_id order_ref) db.orders) order_not_found
    raise_if (is_paid order.status) order_paid
    ingested (payment_webhook order payment_ref outcome how at) db

  unfoldable pub simulate_refund : String → String → ℕ → Option String → Db → Result LocalError Db
  simulate_refund refund_ref payment_ref amount receipt db = do
    p ←
        or_raise (find_row (has_payment_ref owner.merchant_id payment_ref) db.payments)
          payment_not_found
    raise_if (not (is_captured p.status)) not_captured
    raise_if (ltb amount 1 || ltb (p.amount_paise - p.refunded_amount_paise) amount) bad_amount
    ingested (refund_webhook p refund_ref amount receipt at) db
