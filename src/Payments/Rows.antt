-- ===== src/Payments/Rows.antt =====
-- Canonical events (packages/contracts/paytwin_contracts/events.py, enums.py) and the table rows
-- of services/api/paytwin_api/models/pipeline.py that the payment state machine reads and writes.
-- Text columns are texts, generated primary keys are numbers in the order of insertion, amounts
-- are whole paise, and times are instants in UTC, counted in any fixed unit. A column that the
-- state machine never reads or writes is left out.
use pay_twin_os.Prelude.{ℕ, String, Bool, true, false, Option, List, []}

pub data EventType : Type 0 where
  payment_created payment_authorized payment_failed payment_success payment_timeout : EventType
  refund_created refund_failed refund_updated order_paid connector_health : EventType

pub data PaymentStatus : Type 0 where
  created authorized success failed timeout refunded : PaymentStatus

-- A provider may name any status for a refund: `other` holds a text that is none of the rest.
pub data RefundStatus : Type 0 where
  created pending processed updated failed rejected pending_reconciliation : RefundStatus
  other : String → RefundStatus

pub data OrderStatus : Type 0 where
  created paid : OrderStatus

abbrev pub is_success : PaymentStatus → Bool
is_success PaymentStatus.success = true
is_success _ = false

abbrev pub is_refunded : PaymentStatus → Bool
is_refunded PaymentStatus.refunded = true
is_refunded _ = false

-- `status in {"success", "refunded"}`
abbrev pub is_captured : PaymentStatus → Bool
is_captured PaymentStatus.success = true
is_captured PaymentStatus.refunded = true
is_captured _ = false

abbrev pub is_processed : RefundStatus → Bool
is_processed RefundStatus.processed = true
is_processed _ = false

abbrev pub is_held : RefundStatus → Bool
is_held RefundStatus.pending_reconciliation = true
is_held _ = false

abbrev pub is_paid : OrderStatus → Bool
is_paid OrderStatus.paid = true
is_paid OrderStatus.created = false

-- The entries of `CanonicalEvent.payload` that the state machine reads; `none` is a missing
-- entry or a null. Amounts in it are not negative, as the connectors write them.
pub record Payload : Type 0 where
  pub group_id : Option String
  pub attempt_no : Option ℕ
  pub order_ref : Option String
  pub customer_ref : Option String
  pub payment_link_ref : Option String
  pub payment_amount_paise : Option ℕ
  pub order_amount_paise : Option ℕ
  pub latency_ms : Option ℕ
  pub failure_class : Option String
  pub refund_ref : Option String
  pub refund_amount_paise : Option ℕ
  pub refund_status : Option RefundStatus
  pub refund_receipt : Option String
  pub refund_idempotency_key : Option String
  pub refund_speed_requested : Option String
  pub refund_speed_processed : Option String

-- `Cohort`: issuer, method, psp and gateway, all optional.
pub record Cohort : Type 0 where
  pub issuer : Option String
  pub method : Option String
  pub psp : Option String
  pub gateway : Option String

-- The event's `schema_version`, `ingested_at` and `late` are left out: no operation reads them, and an
-- envelope does not keep them. The lateness that the event table stores is computed anew.
pub record CanonicalEvent : Type 0 where
  pub type : EventType
  pub organization_id : String
  pub merchant_id : String
  pub provider : String
  pub external_event_id : String
  pub occurred_at : ℕ
  pub payment_ref : String
  pub amount_paise : ℕ
  pub currency : String
  pub cohort : Cohort
  pub payload : Payload

pub record Payment : Type 0 where
  pub id : ℕ
  pub organization_id : String
  pub merchant_id : String
  pub group_id : String
  pub attempt_no : ℕ
  pub provider : String
  pub payment_ref : String
  pub order_ref : Option String
  pub customer_ref : Option String
  pub amount_paise : ℕ
  pub cohort : Cohort
  pub status : PaymentStatus
  pub failure_class : Option String
  pub latency_ms : Option ℕ
  pub occurred_at : ℕ
  pub final_status_at : Option ℕ
  pub refunded_amount_paise : ℕ
  pub recovered : Bool
  pub updated_at : ℕ

pub record Order : Type 0 where
  pub id : ℕ
  pub organization_id : String
  pub merchant_id : String
  pub provider : String
  pub order_ref : String
  pub amount_paise : ℕ
  pub amount_paid_paise : ℕ
  pub currency : String
  pub status : OrderStatus
  pub paid_at : Option ℕ

pub record Refund : Type 0 where
  pub id : ℕ
  pub organization_id : String
  pub merchant_id : String
  pub payment_id : ℕ
  pub provider : String
  pub refund_ref : String
  pub amount_paise : ℕ
  pub currency : String
  pub receipt : Option String
  pub idempotency_key : Option String
  pub speed_requested : Option String
  pub speed_processed : Option String
  pub status : RefundStatus
  pub failure_reason : Option String
  pub processed_at : Option ℕ

pub record Fulfilment : Type 0 where
  pub id : ℕ
  pub organization_id : String
  pub merchant_id : String
  pub order_id : ℕ
  pub payment_id : ℕ
  pub source : String
  pub idempotency_key : String

pub data ProofStatus : Type 0 where
  verified rejected : ProofStatus

pub record CheckoutVerification : Type 0 where
  pub id : ℕ
  pub organization_id : String
  pub merchant_id : String
  pub order_id : ℕ
  pub payment_id : Option ℕ
  pub provider : String
  pub payment_ref : String
  pub signature_valid : Bool
  pub status : ProofStatus
  pub reason : Option String
  pub verified_at : ℕ

-- The tables, and the next primary key.
pub record Db : Type 0 where
  pub payments : List Payment
  pub orders : List Order
  pub refunds : List Refund
  pub fulfilments : List Fulfilment
  pub verifications : List CheckoutVerification
  pub next_id : ℕ

abbrev pub empty_db : Db
empty_db = record {
  payments = [];
  orders = [];
  refunds = [];
  fulfilments = [];
  verifications = [];
  next_id = 1;
}
