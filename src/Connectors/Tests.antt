-- ===== src/Connectors/Tests.antt =====
-- The adapters at concrete payloads, and their theorems at them.
use pay_twin_os.Prelude.{ℕ, ◌*◌, ◌≡◌, refl, true, none, some, arith, min, ok, err}
use pay_twin_os.Payments.Rows.{refund_created, payment_success, RefundStatus, CanonicalEvent}
use pay_twin_os.Ingest.Envelope.{no_payload}
use pay_twin_os.Connectors.Dialect.{
  value, webhook_rejected, Library, Owner, pseudonymize_ref, epoch_to_dt, canonical_event,
}
use pay_twin_os.Connectors.Generic.{MockBody, normalize_simulator, normalize_mock}
use pay_twin_os.Connectors.Razorpay.{
  RefundEntity, Webhook, refund_processed_event, bare_payment, refund_subject, payment_subject,
  payment_payload, add_refund, normalize,
}
use pay_twin_os.Connectors.Agnostic.{simulated, relabelled, normalize_simulator-simulated}
use pay_twin_os.Connectors.RefundEntity.{
  TakesRefund, captures, normalize-refund_entity, normalize-success,
}
use pay_twin_os.Connectors.Draws.{Fraction, perform_action, perform_action-all_recovered}

abbrev library : Library
library = record {
  upper = λ s. s;
  first = λ n s. s;
  sha256 = λ s. s;
  hmac_sha256 = λ secret body. body;
  starts_with = λ scheme s. true;
  from_timestamp = λ ts. some ts;
  hash_salt = "salt";
}

abbrev owner : Owner
owner = record { organization_id = "org1"; merchant_id = "mer1" }

abbrev charge_failed : MockBody ℕ
charge_failed = record {
  type = some "charge.failed";
  event_id = some "mp_9";
  ts = some 1750000000;
  charge = some (record {
    id = some "ch_1";
    amount_rupees = value 1299;
    bank = some "HDFC";
    rail = some "upi_intent";
    aggregator = some "cashfree";
    gateway = none;
    decline_code = some "issuer_decline";
    rtt_ms = none;
    buyer_ref = some "c_1";
    order_id = none;
    attempt = value 2;
    session = some "grp_1";
  });
}

abbrev paise : ℕ → ℕ
paise rupees = rupees * 100

normalize_simulator-simulated_example :
    normalize_simulator library owner (simulated paise charge_failed)
    ≡ relabelled "simulator" (normalize_mock paise library owner charge_failed)
normalize_simulator-simulated_example =
    normalize_simulator-simulated paise library owner charge_failed

-- A partial refund beside the snapshot of its payment.
abbrev refunded : Webhook
refunded = record {
  event = some "refund.processed";
  created_at = none;
  payment =
      some (record (bare_payment "pay_1") { amount = value 64000; order_id = some "order_1" });
  refund = some (record {
    id = some "rfnd_1";
    payment_id = some "pay_1";
    amount = value 16000;
    created_at = some 1750000000;
    status = some "processed";
    receipt = none;
    speed_requested = none;
    speed_processed = none;
  });
  payment_link = none;
}

abbrev refund_read : CanonicalEvent
refund_read = record {
  type = refund_created;
  organization_id = "org1";
  merchant_id = "mer1";
  provider = "razorpay";
  external_event_id = "evt_r1";
  occurred_at = 1750000000;
  payment_ref = "pay_1";
  amount_paise = 16000;
  currency = "INR";
  cohort = record { issuer = none; method = none; psp = some "razorpay"; gateway = none };
  payload = record no_payload {
    group_id = some "order_1";
    attempt_no = some 1;
    order_ref = some "order_1";
    payment_amount_paise = some 64000;
    order_amount_paise = some 64000;
    failure_class = some "issuer_decline";
    refund_ref = some "rfnd_1";
    refund_amount_paise = some 16000;
    refund_status = some RefundStatus.processed;
  };
}

refund_is_read : normalize library owner (some "evt_r1") refunded ≡ ok refund_read
unfolding normalize refund_subject payment_payload add_refund epoch_to_dt canonical_event
    pseudonymize_ref
refund_is_read = refl

normalize-refund_entity_example :
    (r : RefundEntity) × (refunded.refund ≡ some r)
    × TakesRefund r refund_processed_event "processed" refund_read
normalize-refund_entity_example =
    normalize-refund_entity library owner (some "evt_r1") refunded refl refl refl refund_is_read

-- A capture that carries no id of its own.
abbrev captured : Webhook
captured = record {
  event = some "payment.captured";
  created_at = some 1750000000;
  payment = some (record (bare_payment "pay_2") { amount = value 64000; bank = some "hdfc" });
  refund = none;
  payment_link = none;
}

abbrev capture_read : CanonicalEvent
capture_read = record {
  type = payment_success;
  organization_id = "org1";
  merchant_id = "mer1";
  provider = "razorpay";
  external_event_id = "payment.captured:pay_2";
  occurred_at = 1750000000;
  payment_ref = "pay_2";
  amount_paise = 64000;
  currency = "INR";
  cohort = record { issuer = some "hdfc"; method = none; psp = some "razorpay"; gateway = none };
  payload = record no_payload {
    group_id = some "pay_2";
    attempt_no = some 1;
    order_amount_paise = some 64000;
    failure_class = some "issuer_decline";
  };
}

capture_is_read : normalize library owner none captured ≡ ok capture_read
unfolding normalize payment_subject payment_payload add_refund epoch_to_dt canonical_event
    pseudonymize_ref
capture_is_read = refl

normalize-success_example : captures captured.event ≡ true
normalize-success_example = normalize-success library owner none captured capture_is_read refl

-- A refund without its entity is rejected.
bare_refund_rejected :
    normalize library owner none (record refunded { refund = none }) ≡ err webhook_rejected
unfolding normalize refund_subject
bare_refund_rejected = refl

-- One chance in a thousand, and yet every draw recovers.
abbrev unlikely : Fraction
unlikely = record { numerator = 1; denominator = 1000 }

perform_action-all_recovered_example :
    let o = perform_action 305419896 200 unlikely 50000 in
    (o.attempted ≡ min 200 100000)
    × (o.recovered ≡ o.attempted)
    × (o.recovered_paise ≡ o.attempted * 50000)
perform_action-all_recovered_example =
    perform_action-all_recovered 305419896 200 50000 unlikely (omega arith) (omega arith)
