-- ===== src/Payments/Tests.antt =====
-- Sample payments, refunds and events, tests of the state machine, and the theorems at them.
use pay_twin_os.Prelude.{
  ℕ, ◌+◌, ◌≡◌, refl, Bool, true, false, none, some, List, [], ◌∷◌, arith, All, ok, map,
}
use pay_twin_os.Table.{find_row}
use pay_twin_os.Table.Extends.{Extends}
use pay_twin_os.Payments.Rows.{
  EventType, payment_success, payment_failed, refund_created, refund_failed, PaymentStatus,
  RefundStatus, OrderStatus, Payload, CanonicalEvent, Payment, Order, Refund, Fulfilment,
  CheckoutVerification, Db, empty_db, is_captured, is_paid,
}
use pay_twin_os.Payments.Transition.{target_status, can_transition}
use pay_twin_os.Payments.Refunds.{
  refund_status, settle_refund, advance, advance_refund, new_refund, update_refund, apply_refund,
  is_held_for, settle_held, settle_pending_refunds,
}
use pay_twin_os.Payments.Apply.{
  new_payment, attach_order, attach_group, ensure_payment, enrich, mark_group_recovered,
  apply_by_type, apply_status, new_order, find_order, ensure_order, pay_order, mark_order_paid,
  refund_step, settle_capture, capture_step, touch, conclude, change_status, advance_payment,
  apply_event, apply_events,
}
use pay_twin_os.Payments.Money.{IsSound}
use pay_twin_os.Payments.Money.Events.{apply_events-IsSound}
use pay_twin_os.Payments.Lifecycle.{Later}
use pay_twin_os.Payments.Lifecycle.Tables.{
  HasPaymentKeys, Apart, apply_events_monotone, apply_events_isolated,
}
use pay_twin_os.Payments.Credit.{
  Balanced, credit_total, advance_refund-Balanced, settle_held_none_left,
  reprocessed_refund_credits_twice,
}
use pay_twin_os.Payments.Fulfil.{
  owns_order, proves, latest_proof, needs_proof, fulfilling_payment, insert_fulfilment, paid_order,
  record_fulfilment,
}
use pay_twin_os.Payments.Fulfil.Once.{FulfilledOnce, record_fulfilment_once}

abbrev no_payload : Payload
no_payload = record {
  group_id = none;
  attempt_no = none;
  order_ref = some "order_1";
  customer_ref = none;
  payment_link_ref = none;
  payment_amount_paise = some 64000;
  order_amount_paise = none;
  latency_ms = none;
  failure_class = none;
  refund_ref = some "rfnd_1";
  refund_amount_paise = some 16000;
  refund_status = none;
  refund_receipt = none;
  refund_idempotency_key = none;
  refund_speed_requested = none;
  refund_speed_processed = none;
}

abbrev event : EventType → ℕ → CanonicalEvent
event t at = record {
  type = t;
  organization_id = "org_1";
  merchant_id = "m_1";
  provider = "simulator";
  external_event_id = "evt_1";
  occurred_at = at;
  payment_ref = "pay_1";
  amount_paise = 64000;
  currency = "INR";
  cohort = record { issuer = some "HDFC"; method = none; psp = none; gateway = none };
  payload = no_payload;
}

-- A refund ahead of its capture, the capture, and a failure that comes too late.
abbrev reordered : List (ℕ × CanonicalEvent)
reordered =
    (100, event refund_created 90)
    ∷ (101, event payment_success 80)
    ∷ (102, event payment_failed 85)
    ∷ []

abbrev summary : Payment → PaymentStatus × ℕ × Bool
summary p = (p.status, p.refunded_amount_paise, p.recovered)

-- The held refund settles with the capture, and the late failure changes nothing.
reordered_settles :
    (map summary (apply_events empty_db reordered).payments
      ≡ (PaymentStatus.success, 16000, true) ∷ [])
    × (map (λ (r : Refund). r.status) (apply_events empty_db reordered).refunds
        ≡ RefundStatus.processed ∷ [])
    × (map (λ (o : Order). o.status) (apply_events empty_db reordered).orders
        ≡ OrderStatus.paid ∷ [])
unfolding apply_events apply_event ensure_payment new_payment attach_order attach_group enrich
    advance_payment change_status can_transition target_status apply_status apply_by_type
    mark_group_recovered conclude ensure_order find_order new_order refund_step apply_refund
    advance_refund advance refund_status new_refund capture_step settle_capture
    settle_pending_refunds settle_held settle_refund mark_order_paid pay_order touch
reordered_settles = (refl, refl, refl)

abbrev captured : Payment
captured = record {
  id = 1;
  organization_id = "org_1";
  merchant_id = "m_1";
  group_id = "order_1";
  attempt_no = 1;
  provider = "simulator";
  payment_ref = "pay_1";
  order_ref = some "order_1";
  customer_ref = none;
  amount_paise = 64000;
  cohort = record { issuer = none; method = none; psp = none; gateway = none };
  status = PaymentStatus.success;
  failure_class = none;
  latency_ms = none;
  occurred_at = 80;
  final_status_at = some 80;
  refunded_amount_paise = 16000;
  recovered = true;
  updated_at = 101;
}

abbrev unrecovered : Payment
unrecovered = record captured { recovered = false }

-- A success marks its own row, but not where its group was attached since the row was flushed.
attached_is_not_marked :
    ((mark_group_recovered unrecovered
        (record empty_db { payments = unrecovered ∷ [] })).0.recovered
      ≡ true)
    × ((mark_group_recovered
          (record unrecovered { group_id = "link_1" })
          (record empty_db { payments = unrecovered ∷ [] })).0.recovered
        ≡ false)
unfolding mark_group_recovered
attached_is_not_marked = (refl, refl)

abbrev settled : Refund
settled = record {
  id = 2;
  organization_id = "org_1";
  merchant_id = "m_1";
  payment_id = 1;
  provider = "simulator";
  refund_ref = "rfnd_1";
  amount_paise = 16000;
  currency = "INR";
  receipt = none;
  idempotency_key = none;
  speed_requested = none;
  speed_processed = none;
  status = RefundStatus.processed;
  failure_reason = none;
  processed_at = some 90;
}

abbrev held : Refund
held = record settled {
  id = 3;
  refund_ref = "rfnd_2";
  status = RefundStatus.pending_reconciliation;
}

-- The same provider reference in another organization.
abbrev foreign : Payment
foreign = record captured { id = 4; organization_id = "org_2" }

abbrev order : Order
order = record {
  id = 5;
  organization_id = "org_1";
  merchant_id = "m_1";
  provider = "simulator";
  order_ref = "order_1";
  amount_paise = 64000;
  amount_paid_paise = 64000;
  currency = "INR";
  status = OrderStatus.paid;
  paid_at = some 80;
}

abbrev db : Db
db = record {
  payments = captured ∷ foreign ∷ [];
  orders = order ∷ [];
  refunds = settled ∷ held ∷ [];
  fulfilments = [];
  verifications = [];
  next_id = 6;
}

captured-IsSound : IsSound captured
captured-IsSound = ground arith

apply_events-IsSound_example : All IsSound (apply_events db reordered).payments
apply_events-IsSound_example =
    apply_events-IsSound db reordered (captured-IsSound, (ground arith, tt))

db_keys : HasPaymentKeys db
db_keys = omega arith

apply_events_monotone_example :
    Extends Later db.payments (apply_events db reordered).payments
    × HasPaymentKeys (apply_events db reordered)
apply_events_monotone_example = apply_events_monotone db reordered db_keys

apply_events_isolated_example :
    Extends (Apart "org_1") db.payments (apply_events db reordered).payments
apply_events_isolated_example =
    apply_events_isolated "org_1" db reordered db_keys (refl, (refl, (refl, tt)))

advance_refund-Balanced_example :
    Balanced captured held (advance_refund captured held (event refund_created 95))
advance_refund-Balanced_example =
    advance_refund-Balanced captured held (event refund_created 95) (λ p. cc)

settle_held_none_left_example :
    let (q, rows) = settle_held captured (settled ∷ held ∷ []) 120 in
    All (λ r. is_held_for 1 r ≡ false) rows
    × (q.id ≡ 1)
    × (q.refunded_amount_paise + 16000 ≡ 16000 + credit_total 1 rows)
settle_held_none_left_example = settle_held_none_left captured (settled ∷ held ∷ []) 120

reprocessed_refund_credits_twice_example :
    let (q, row) = update_refund captured settled (event refund_failed 95) in
    (q ≡ captured)
    × ((update_refund q row (event refund_created 96)).0.refunded_amount_paise ≡ 32000)
unfolding refund_status
reprocessed_refund_credits_twice_example =
    reprocessed_refund_credits_twice captured settled (event refund_failed 95)
      (event refund_created 96) refl refl (omega arith) refl refl refl refl

abbrev fulfilled : Fulfilment
fulfilled = record {
  id = 6;
  organization_id = "org_1";
  merchant_id = "m_1";
  order_id = 5;
  payment_id = 1;
  source = "worker";
  idempotency_key = "key_1";
}

record_fulfilment_runs :
    record_fulfilment captured "worker" "key_1" db
    ≡ ok (fulfilled, record db { fulfilments = fulfilled ∷ []; next_id = 7 })
unfolding record_fulfilment paid_order fulfilling_payment insert_fulfilment
record_fulfilment_runs = refl

record_fulfilment_once_example :
    FulfilledOnce (record db { fulfilments = fulfilled ∷ []; next_id = 7 })
    × (is_captured captured.status ≡ true)
    × ((o : Order) × (find_row (owns_order captured) db.orders ≡ some o)
        × (is_paid o.status ≡ true)
        × (5 ≡ o.id)
        × (needs_proof captured "worker" ≡ true
            → (v : CheckoutVerification) × (latest_proof (proves captured o) db.verifications
                ≡ some v)
              × (v.signature_valid ≡ true)
              × (v.order_id ≡ o.id)))
record_fulfilment_once_example =
    record_fulfilment_once captured "worker" "key_1" db _ fulfilled tt record_fulfilment_runs
