-- ===== src/Local/Tests.antt =====
-- The emulator at a captured payment and an unpaid order.
use pay_twin_os.Prelude.{
  List, All, arith, ◌+◌, ◌≤◌, ◌≡◌, refl, true, false, none, some, [], ◌∷◌, ok, err,
}
use pay_twin_os.Table.{find_row}
use pay_twin_os.Payments.Rows.{
  refund_created, payment_authorized, PaymentStatus, RefundStatus, OrderStatus, Payment, Order,
  CanonicalEvent, Db, empty_db,
}
use pay_twin_os.Payments.Apply.{apply_event}
use pay_twin_os.Ingest.Envelope.{no_payload}
use pay_twin_os.Connectors.Dialect.{Library, Owner, pseudonymize_ref, epoch_to_dt, canonical_event}
use pay_twin_os.Connectors.Razorpay.{
  refund_subject, payment_subject, payment_payload, add_refund, normalize,
}
use pay_twin_os.Local.Emulator.{
  bad_amount, order_paid, captured, refund_webhook, ingested, simulate_refund, simulate_payment,
}
use pay_twin_os.Executor.Rows.{LinkStatus, PaymentLink}
use pay_twin_os.Local.Outcomes.{
  Names, link_closed, paid, partially_paid, is_closed, is_link, put_link, lifted, outcome_of,
  simulate_payment_link_outcome,
}
use pay_twin_os.Local.Settled.{IsWellPaid, Follows, simulate_payment_link_outcome-IsWellPaid}
use pay_twin_os.Local.Refunded.{simulate_refund-credited}

abbrev library : Library
library = record {
  upper = λ s. s;
  first = λ n s. s;
  sha256 = λ s. s;
  hmac_sha256 = λ secret body. body;
  starts_with = λ scheme s. true;
  from_timestamp = λ ts. some ts;
  hash_salt = "salt";
}

abbrev owner : Owner
owner = record { organization_id = "org_1"; merchant_id = "m_1" }

-- A captured payment of which a part is refunded already.
abbrev refundable : Payment
refundable = record {
  id = 7;
  organization_id = "org_1";
  merchant_id = "m_1";
  group_id = "g_1";
  attempt_no = 1;
  provider = "razorpay";
  payment_ref = "pay_1";
  order_ref = some "order_1";
  customer_ref = none;
  amount_paise = 64000;
  cohort = record { issuer = none; method = none; psp = none; gateway = none };
  status = PaymentStatus.success;
  failure_class = none;
  latency_ms = none;
  occurred_at = 90;
  final_status_at = none;
  refunded_amount_paise = 16000;
  recovered = false;
  updated_at = 100;
}

abbrev order : Order
order = record {
  id = 6;
  organization_id = "org_1";
  merchant_id = "m_1";
  provider = "razorpay";
  order_ref = "order_1";
  amount_paise = 64000;
  amount_paid_paise = 64000;
  currency = "INR";
  status = OrderStatus.paid;
  paid_at = some 90;
}

abbrev tables : Db
tables = record empty_db { payments = refundable ∷ []; orders = order ∷ [] }

abbrev refund_read : CanonicalEvent
refund_read = record {
  type = refund_created;
  organization_id = "org_1";
  merchant_id = "m_1";
  provider = "razorpay";
  external_event_id = "evt_test_1";
  occurred_at = 120;
  payment_ref = "pay_1";
  amount_paise = 48000;
  currency = "INR";
  cohort = record { issuer = none; method = none; psp = some "razorpay"; gateway = none };
  payload = record no_payload {
    group_id = some "order_1";
    attempt_no = some 1;
    order_ref = some "order_1";
    payment_amount_paise = some 64000;
    order_amount_paise = some 64000;
    failure_class = some "issuer_decline";
    refund_ref = some "rfnd_test_1";
    refund_amount_paise = some 48000;
    refund_status = some RefundStatus.processed;
  };
}

refund_is_read :
    normalize library owner
      (some "evt_test_1")
      (refund_webhook refundable "rfnd_test_1" 48000 none 120)
    ≡ ok refund_read
unfolding normalize refund_subject payment_payload add_refund epoch_to_dt canonical_event
    pseudonymize_ref
refund_is_read = refl

refund_is_accepted :
    simulate_refund library owner "evt_test_1" 120 130 "rfnd_test_1" "pay_1" 48000 none tables
    ≡ ok (apply_event 130 tables refund_read).1
unfolding simulate_refund ingested normalize refund_subject payment_payload add_refund epoch_to_dt
    canonical_event pseudonymize_ref
refund_is_accepted = refl

simulate_refund-credited_example :
    ((apply_event 130 tables refund_read).1 ≡ (apply_event 130 tables refund_read).1)
    × ((apply_event 130 tables refund_read).0.refunded_amount_paise ≡ 16000 + 48000)
    × (16000 + 48000 ≤ 64000)
simulate_refund-credited_example =
    simulate_refund-credited library owner "evt_test_1" 120 130 "rfnd_test_1" "pay_1" 48000 none
      tables refundable refund_read refl refund_is_read refl refl refund_is_accepted

too_much :
    simulate_refund library owner "evt_test_1" 120 130 "rfnd_test_1" "pay_1" 48001 none tables
    ≡ err bad_amount
unfolding simulate_refund
too_much = refl

paid_already :
    simulate_payment library owner "evt_test_2" 120 130 "pay_2" "order_1" captured
      (record {
        method = "upi";
        bank = some "HDFC";
        vpa = none;
        failure_reason = none;
        payment_group_id = none;
      })
      tables
    ≡ err order_paid
unfolding simulate_payment
paid_already = refl

-- A link of an unpaid order, and a part of its amount that is paid.
abbrev open_order : Order
open_order = record order { amount_paid_paise = 0; status = OrderStatus.created; paid_at = none }

abbrev link : PaymentLink
link = record {
  id = 5;
  organization_id = "org_1";
  merchant_id = "m_1";
  reference_id = "recovery-1";
  order_id = 6;
  action_execution_id = 2;
  payment_group_id = "g_1";
  amount_paise = 64000;
  amount_paid_paise = 0;
  channel = "whatsapp";
  expires_at = 500;
  status = LinkStatus.issued;
  terminal_reason = none;
}

abbrev names : Names
names = record {
  link_ref = "plink_test_1";
  payment_ref = "pay_3";
  link_payment_ref = "pay_link_1";
  payment_event = "evt_test_3";
  link_event_id = "evt_test_4";
}

abbrev unpaid : Db
unpaid = record empty_db { orders = open_order ∷ [] }

abbrev part_read : CanonicalEvent
part_read = record {
  type = payment_authorized;
  organization_id = "org_1";
  merchant_id = "m_1";
  provider = "razorpay";
  external_event_id = "evt_test_4";
  occurred_at = 120;
  payment_ref = "pay_link_1";
  amount_paise = 20000;
  currency = "INR";
  cohort = record {
    issuer = some "HDFC";
    method = some "upi";
    psp = some "razorpay";
    gateway = none;
  };
  payload = record no_payload {
    group_id = some "g_1";
    attempt_no = some 1;
    order_ref = some "order_1";
    order_amount_paise = some 20000;
    failure_class = some "issuer_decline";
    payment_link_ref = some "plink_test_1";
  };
}

abbrev part_paid : List PaymentLink
part_paid = record link { amount_paid_paise = 20000; status = LinkStatus.partially_paid } ∷ []

part_is_paid :
    simulate_payment_link_outcome library owner names 120 130 5
      (partially_paid (some 20000))
      (link ∷ [])
      unpaid
    ≡ ok (part_paid, (apply_event 130 unpaid part_read).1)
unfolding simulate_payment_link_outcome outcome_of lifted ingested normalize payment_subject
    payment_payload add_refund epoch_to_dt canonical_event pseudonymize_ref
part_is_paid = refl

link-IsWellPaid : IsWellPaid link
link-IsWellPaid = record { within = omega arith; full = λ e. cc }

simulate_payment_link_outcome-IsWellPaid_example :
    (before : PaymentLink) × (row : PaymentLink) × (find_row (is_link "m_1" 5) (link ∷ [])
      ≡ some before)
    × (is_closed before.status ≡ false)
    × (part_paid ≡ put_link row (link ∷ []))
    × Follows before row
    × All IsWellPaid part_paid
simulate_payment_link_outcome-IsWellPaid_example =
    simulate_payment_link_outcome-IsWellPaid library owner names 120 130 5
      (partially_paid (some 20000)) (link ∷ []) unpaid (link-IsWellPaid, tt) part_is_paid

closed_stays_closed :
    simulate_payment_link_outcome library owner names 120 130 5 paid
      (record link { status = LinkStatus.cancelled } ∷ [])
      unpaid
    ≡ err link_closed
unfolding simulate_payment_link_outcome
closed_stays_closed = refl
