-- ===== src/Connectors/Razorpay.antt =====
-- `normalize` of the Razorpay adapter (services/api/paytwin_api/connectors/razorpay.py). An entity
-- that is missing or empty is `none`; the fields that no table keeps are left out.
use pay_twin_os.Prelude.{
  ℕ, String, Bool, true, false, Option, none, some, ◌&&◌, ◌||◌, str_eq, if◌then◌else◌, given,
  given_num, or_text, Result, ok, ◌>>=◌, or_raise,
}
use Prim.Native.String.{◌++◌ as text_append}
use pay_twin_os.Payments.Rows.{
  EventType, payment_authorized, payment_failed, payment_success, refund_created, refund_failed,
  refund_updated, order_paid, RefundStatus, Payload, Cohort, CanonicalEvent,
}
use pay_twin_os.Ingest.Envelope.{no_payload}
use pay_twin_os.Connectors.Dialect.{
  Rejection, webhook_rejected, Entry, value, present, with_default, Library, Owner,
  pseudonymize_ref, epoch_to_dt, cohort_of, canonical_event,
}

pub record PaymentEntity : Type 0 where
  pub id : Option String
  pub amount : Entry ℕ
  pub created_at : Option ℕ
  pub method : Option String
  pub bank : Option String
  pub vpa : Option String
  pub flow : Option String
  pub order_id : Option String
  pub customer_id : Option String
  pub paytwin_group_id : Option String
  pub error_source : Option String
  pub error_reason : Option String
  pub error_description : Option String

pub record RefundEntity : Type 0 where
  pub id : Option String
  pub payment_id : Option String
  pub amount : Entry ℕ
  pub created_at : Option ℕ
  pub status : Option String
  pub receipt : Option String
  pub speed_requested : Option String
  pub speed_processed : Option String

pub record PaymentLinkEntity : Type 0 where
  pub id : Option String
  pub paytwin_group_id : Option String

pub record Webhook : Type 0 where
  pub event : Option String
  pub created_at : Option ℕ
  pub payment : Option PaymentEntity
  pub refund : Option RefundEntity
  pub payment_link : Option PaymentLinkEntity

-- The mapped events.
pub data RazorpayEvent : Type 0 where
  payment_authorized_event payment_failed_event payment_captured_event : RazorpayEvent
  refund_created_event refund_processed_event refund_failed_event : RazorpayEvent
  refund_speed_changed_event order_paid_event payment_link_paid_event : RazorpayEvent
  payment_link_partially_paid_event payment_link_expired_event : RazorpayEvent
  payment_link_cancelled_event : RazorpayEvent

-- The keys of `_EVENT_MAP`.
abbrev pub mapped : String → Option RazorpayEvent
mapped raw =
    if str_eq raw "payment.authorized"
    then some payment_authorized_event
    else if str_eq raw "payment.failed"
    then some payment_failed_event
    else if str_eq raw "payment.captured"
    then some payment_captured_event
    else if str_eq raw "refund.created"
    then some refund_created_event
    else if str_eq raw "refund.processed"
    then some refund_processed_event
    else if str_eq raw "refund.failed"
    then some refund_failed_event
    else if str_eq raw "refund.speed_changed"
    then some refund_speed_changed_event
    else if str_eq raw "order.paid"
    then some order_paid_event
    else if str_eq raw "payment_link.paid"
    then some payment_link_paid_event
    else if str_eq raw "payment_link.partially_paid"
    then some payment_link_partially_paid_event
    else if str_eq raw "payment_link.expired"
    then some payment_link_expired_event
    else if str_eq raw "payment_link.cancelled"
    then some payment_link_cancelled_event
    else none

-- The values of `_EVENT_MAP`.
abbrev pub event_map : RazorpayEvent → EventType
event_map payment_authorized_event = payment_authorized
event_map payment_failed_event = payment_failed
event_map payment_captured_event = payment_success
event_map refund_created_event = refund_created
event_map refund_processed_event = refund_created
event_map refund_failed_event = refund_failed
event_map refund_speed_changed_event = refund_updated
event_map order_paid_event = order_paid
event_map payment_link_paid_event = payment_success
event_map payment_link_partially_paid_event = payment_authorized
event_map payment_link_expired_event = payment_failed
event_map payment_link_cancelled_event = payment_failed

-- What follows "refund." in the event's name, for the events that start with it.
abbrev pub refund_suffix : RazorpayEvent → Option String
refund_suffix refund_created_event = some "created"
refund_suffix refund_processed_event = some "processed"
refund_suffix refund_failed_event = some "failed"
refund_suffix refund_speed_changed_event = some "speed_changed"
refund_suffix _ = none

abbrev pub status_named : String → RefundStatus
status_named s =
    if str_eq s "created"
    then RefundStatus.created
    else if str_eq s "pending"
    then RefundStatus.pending
    else if str_eq s "processed"
    then RefundStatus.processed
    else if str_eq s "updated"
    then RefundStatus.updated
    else if str_eq s "failed"
    then RefundStatus.failed
    else if str_eq s "rejected"
    then RefundStatus.rejected
    else if str_eq s "pending_reconciliation"
    then RefundStatus.pending_reconciliation
    else RefundStatus.other s

-- What the event says of its subject: the payment's id, the id that names the event, the amount, the
-- time, and the payment entity to read the rest from.
pub record Subject : Type 0 where
  pub payment_ref : String
  pub event_ref : String
  pub amount_paise : ℕ
  pub occurred_at : Option ℕ
  pub ent : PaymentEntity

abbrev pub bare_payment : String → PaymentEntity
bare_payment ref = record {
  id = some ref;
  amount = value 0;
  created_at = none;
  method = none;
  bank = none;
  vpa = none;
  flow = none;
  order_id = none;
  customer_id = none;
  paytwin_group_id = none;
  error_source = none;
  error_reason = none;
  error_description = none;
}

-- `a or b`, of two times.
abbrev pub or_time : Option ℕ → Option ℕ → Option ℕ
or_time a b = elim (given_num a) [ none ↦ b | some n ↦ some n ]

unfoldable pub refund_subject : Webhook → Result Rejection Subject
refund_subject w = do
  refund ← or_raise w.refund webhook_rejected
  ref ← or_raise (given refund.payment_id) webhook_rejected
  amount ← or_raise (with_default 0 refund.amount) webhook_rejected
  ok (record {
    payment_ref = ref;
    event_ref = or_text refund.id ref;
    amount_paise = amount;
    occurred_at = or_time refund.created_at w.created_at;
    ent = elim w.payment [ none ↦ bare_payment ref | some p ↦ p ];
  })

unfoldable pub payment_subject : Webhook → Result Rejection Subject
payment_subject w = do
  payment ← or_raise w.payment webhook_rejected
  ref ← or_raise payment.id webhook_rejected
  amount ← or_raise (with_default 0 payment.amount) webhook_rejected
  ok (record {
    payment_ref = ref;
    event_ref = ref;
    amount_paise = amount;
    occurred_at = or_time payment.created_at w.created_at;
    ent = payment;
  })

abbrev pub subject_of : RazorpayEvent → Webhook → Result Rejection Subject
subject_of event w = elim (refund_suffix event) [
  | none ↦ payment_subject w
  | some suffix ↦ refund_subject w
]

abbrev is_text : Option String → String → Bool
is_text none t = false
is_text (some s) t = str_eq s t

abbrev pub method_of : PaymentEntity → Option String
method_of ent =
    if is_text ent.method "upi"
      && ((elim (given ent.vpa) [ none ↦ false | some v ↦ true ]) || is_text ent.flow "intent")
    then some "upi_intent"
    else ent.method

module _ (l : Library) where
  abbrev pub cohort_in : PaymentEntity → Cohort
  cohort_in ent =
      cohort_of (some (l.upper (or_text ent.bank ""))) (method_of ent) (some "razorpay") none

  abbrev pub link_group : Option PaymentLinkEntity → Option String
  link_group none = none
  link_group (some link) = given link.paytwin_group_id

  unfoldable pub payment_payload : Webhook → Subject → Payload
  payment_payload w s =
      let ent = s.ent in
      record no_payload {
        failure_class = some (
            or_text ent.error_reason
              (or_text ent.error_source (or_text ent.error_description "issuer_decline")));
        customer_ref = pseudonymize_ref l ent.customer_id;
        order_ref = ent.order_id;
        order_amount_paise = present ent.amount;
        attempt_no = some 1;
        group_id = some (
            or_text (link_group w.payment_link)
              (or_text ent.paytwin_group_id (or_text ent.order_id s.payment_ref)));
        payment_link_ref = elim w.payment_link [ none ↦ none | some link ↦ link.id ];
      }

  -- The entries that a refund entity adds, whatever the event is.
  unfoldable pub add_refund :
      String → RazorpayEvent → Subject → Option RefundEntity → Payload → Payload
  add_refund raw event s none p = p
  add_refund raw event s (some refund) p = record p {
    refund_ref = some (or_text refund.id "");
    refund_amount_paise = some s.amount_paise;
    refund_status = some (
        status_named (
          or_text refund.status
            (elim (refund_suffix event) [ none ↦ raw | some suffix ↦ suffix ])));
    refund_receipt = refund.receipt;
    refund_speed_requested = refund.speed_requested;
    refund_speed_processed = refund.speed_processed;
    payment_amount_paise = present s.ent.amount;
  }

  -- `header` is "x-razorpay-event-id".
  abbrev pub external_id : Option String → String → Subject → String
  external_id header raw s = or_text header (text_append raw (text_append ":" s.event_ref))

  unfoldable pub normalize : Owner → Option String → Webhook → Result Rejection CanonicalEvent
  normalize owner header w = do
    raw ← or_raise w.event webhook_rejected
    event ← or_raise (mapped raw) webhook_rejected
    s ← subject_of event w
    at ← epoch_to_dt l s.occurred_at
    canonical_event (event_map event) owner "razorpay" (external_id header raw s) at s.payment_ref
        s.amount_paise (cohort_in s.ent) (add_refund raw event s w.refund (payment_payload w s))
