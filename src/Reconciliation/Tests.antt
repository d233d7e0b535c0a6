-- ===== src/Reconciliation/Tests.antt =====
-- The sweep on a captured payment with a held refund and on an integration with an expired secret.
use pay_twin_os.Prelude.{◌≡◌, refl, false, none, some, [], ◌∷◌, arith, All, map}
use pay_twin_os.Tenancy.{Merchant, Integration}
use pay_twin_os.Payments.Rows.{PaymentStatus, RefundStatus, Payment, Refund, Db, empty_db}
use pay_twin_os.Payments.Refunds.{
  settle_refund, settle_held, settle_pending_refunds, reconcile_pending_refunds,
}
use pay_twin_os.Payments.Money.{IsSound}
use pay_twin_os.Bus.Delivery.{new_session}
use pay_twin_os.Ingest.Rows.{Store, Settings, PaymentUpdate}
use pay_twin_os.Ingest.Secrets.{secrets_for}
use pay_twin_os.Reconciliation.Sweep.{
  swept, reconcile_all, retire, reconcile_financial_state, operational_status,
}
use pay_twin_os.Reconciliation.Cleared.{Cleared, reconcile_financial_state-Cleared}
use pay_twin_os.Reconciliation.Retired.{reconcile_financial_state-secrets_for}

abbrev paid : Payment
paid = record {
  id = 7;
  organization_id = "org_1";
  merchant_id = "m_1";
  group_id = "g_1";
  attempt_no = 1;
  provider = "razorpay";
  payment_ref = "pay_1";
  order_ref = none;
  customer_ref = none;
  amount_paise = 64000;
  cohort = record { issuer = none; method = none; psp = none; gateway = none };
  status = PaymentStatus.success;
  failure_class = none;
  latency_ms = none;
  occurred_at = 90;
  final_status_at = none;
  refunded_amount_paise = 0;
  recovered = false;
  updated_at = 100;
}

abbrev held : Refund
held = record {
  id = 8;
  organization_id = "org_1";
  merchant_id = "m_1";
  payment_id = 7;
  provider = "razorpay";
  refund_ref = "rfnd_1";
  amount_paise = 16000;
  currency = "INR";
  receipt = none;
  idempotency_key = none;
  speed_requested = none;
  speed_processed = none;
  status = RefundStatus.pending_reconciliation;
  failure_reason = none;
  processed_at = none;
}

abbrev tables : Db
tables = record empty_db { payments = paid ∷ []; refunds = held ∷ [] }

abbrev rotated : Integration
rotated = record {
  id = 3;
  organization_id = "org_1";
  merchant_id = "m_1";
  provider = "razorpay";
  secret_ref = some "NEW_SECRET";
  api_secret_ref = none;
  previous_secret_ref = some "OLD_SECRET";
  previous_secret_expires_at = some 150;
  last_webhook_at = none;
  last_healthcheck_at = none;
}

swept_once :
    let after = reconcile_financial_state none 200 tables (rotated ∷ []) in
    (after.pending_refunds_examined ≡ 1)
    × (after.expired_secret_references_retired ≡ 1)
    × (map (λ (p : Payment). p.refunded_amount_paise) after.db.payments ≡ 16000 ∷ [])
    × ((operational_status tables "org_1").pending_refunds ≡ 1)
    × ((operational_status after.db "org_1").pending_refunds ≡ 0)
unfolding reconcile_financial_state reconcile_all swept retire operational_status
    reconcile_pending_refunds settle_pending_refunds settle_held settle_refund
swept_once = (refl, refl, refl, refl, refl)

tables-IsSound : All IsSound tables.payments
tables-IsSound =
    (record { within = omega arith; full = λ e. cc; captured = λ lt. absurd (omega arith) }, tt)

reconcile_financial_state-Cleared_example :
    let after = (reconcile_financial_state none 200 tables (rotated ∷ [])).db in
    All IsSound after.payments
    × All (λ (p : Payment). Cleared p.id after.refunds) (swept none tables)
reconcile_financial_state-Cleared_example =
    reconcile_financial_state-Cleared none 200 tables (rotated ∷ []) tables-IsSound

abbrev settings : Settings
settings = record {
  webhook_secret_simulator = "";
  webhook_secret_mockprovider = "";
  webhook_secret_razorpay = "shared";
  environ = λ name. name;
}

abbrev merchant : Merchant
merchant = record {
  id = "m_1";
  organization_id = "org_1";
  autonomy_mode = 3;
  connector = some "razorpay";
  policy_rules = none;
}

abbrev store : Store
store = record {
  merchants = merchant ∷ [];
  integrations = rotated ∷ [];
  inbox = [];
  events = [];
  dead_letters = [];
  core = tables;
  session = new_session PaymentUpdate;
  next_id = 9;
}

reconcile_financial_state-secrets_for_example :
    secrets_for settings 210
      (record store {
        integrations = (reconcile_financial_state none 200 tables (rotated ∷ [])).integrations;
      })
      "razorpay"
      merchant
    ≡ secrets_for settings 210 store "razorpay" merchant
reconcile_financial_state-secrets_for_example =
    reconcile_financial_state-secrets_for settings none 200 210 tables store "razorpay" merchant
      (omega arith)
