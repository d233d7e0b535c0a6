-- ===== src/Local/Outcomes.antt =====
-- `_emit_payment_link_webhook` and `simulate_payment_link_outcome`
-- (services/api/paytwin_api/services/razorpay_local.py). The text that names a link, the payments of
-- its outcomes and the ids of the deliveries are arguments.
use pay_twin_os.Prelude.{
  ℕ, String, Bool, true, false, not, Option, none, some, List, ◌&&◌, ◌==◌, ltb, leb, max, str_eq,
  get_or, Result, ok, err, ◌>>=◌, ◌>>◌, raise_if, or_raise,
}
use pay_twin_os.Table.{find_row, put_row}
use pay_twin_os.Payments.Rows.{Order, Db}
use pay_twin_os.Executor.Rows.{LinkStatus, PaymentLink}
use pay_twin_os.Connectors.Dialect.{value, Library, Owner}
use pay_twin_os.Connectors.Razorpay.{PaymentEntity, Webhook, bare_payment}
use pay_twin_os.Local.Emulator.{
  LocalError, captured, Method, payment_entity, ingested, simulate_payment,
}

pub data LinkError : Type 0 where
  link_not_found no_order link_closed link_expired bad_partial_amount : LinkError
  refused : LocalError → LinkError

-- What happens to a link; a partial payment comes with its amount.
pub data LinkOutcome : Type 0 where
  paid expired cancelled : LinkOutcome
  partially_paid : Option ℕ → LinkOutcome

abbrev pub link_event : LinkOutcome → String
link_event paid = "payment_link.paid"
link_event (partially_paid amount) = "payment_link.partially_paid"
link_event expired = "payment_link.expired"
link_event cancelled = "payment_link.cancelled"

-- `outcome in {"expired", "cancelled"}`
abbrev pub ends : LinkOutcome → Bool
ends expired = true
ends cancelled = true
ends _ = false

-- `link.status in {"paid", "cancelled", "expired"}`
abbrev pub is_closed : LinkStatus → Bool
is_closed LinkStatus.paid = true
is_closed LinkStatus.cancelled = true
is_closed LinkStatus.expired = true
is_closed _ = false

-- What an outcome needs beside the link: its name, the references of its payments, and the ids of
-- the two deliveries.
pub record Names : Type 0 where
  pub link_ref : String
  pub payment_ref : String
  pub link_payment_ref : String
  pub payment_event : String
  pub link_event_id : String

abbrev pub recovery_method : PaymentLink → Method
recovery_method link = record {
  method = "upi";
  bank = some "HDFC";
  vpa = some "recovery@upi";
  failure_reason = none;
  payment_group_id = some link.payment_group_id;
}

abbrev pub link_webhook : Names → PaymentLink → LinkOutcome → PaymentEntity → Webhook
link_webhook n link outcome payment = record {
  event = some (link_event outcome);
  created_at = none;
  payment = some payment;
  refund = none;
  payment_link =
      some (record { id = some n.link_ref; paytwin_group_id = some link.payment_group_id });
}

-- The payment that stands in an expired or cancelled link's webhook.
abbrev pub no_payment : Names → Order → String → ℕ → PaymentEntity
no_payment n order reason at = record (bare_payment n.link_payment_ref) {
  order_id = some order.order_ref;
  method = some "upi";
  created_at = some at;
  error_reason = some reason;
}

abbrev pub part_payment : Names → Order → ℕ → ℕ → PaymentEntity
part_payment n order amount at = record (bare_payment n.link_payment_ref) {
  amount = value amount;
  order_id = some order.order_ref;
  method = some "upi";
  bank = some "HDFC";
  created_at = some at;
}

abbrev pub paid_link : PaymentLink → PaymentLink
paid_link link = record link {
  amount_paid_paise = link.amount_paise;
  status = LinkStatus.paid;
  terminal_reason = some "captured_payment";
}

abbrev pub part_paid_link : ℕ → PaymentLink → PaymentLink
part_paid_link amount link = record link {
  amount_paid_paise = max link.amount_paid_paise amount;
  status = LinkStatus.partially_paid;
}

abbrev pub is_link : String → ℕ → PaymentLink → Bool
is_link merchant id row = str_eq row.merchant_id merchant && row.id == id

abbrev pub put_link : PaymentLink → List PaymentLink → List PaymentLink
put_link link links = put_row (λ (r : PaymentLink). r.id) link links

unfoldable pub lifted : {A : Type 0} → Result LocalError A → Result LinkError A
lifted (err raised) = err (refused raised)
lifted (ok a) = ok a

module _ (l : Library) (owner : Owner) (n : Names) (at now : ℕ) where
  -- The link after an outcome, and the tables after its webhook.
  unfoldable pub outcome_of :
      LinkOutcome → PaymentLink → Order → Db → Result LinkError (PaymentLink × Db)
  outcome_of paid link order db = do
    db₁ ← lifted (
        simulate_payment l owner n.payment_event at now n.payment_ref order.order_ref captured
          (recovery_method link) db)
    let payment = payment_entity order n.payment_ref captured (recovery_method link) at
    db₂ ← lifted (ingested l owner n.link_event_id at now (link_webhook n link paid payment) db₁)
    ok (paid_link link, db₂)
  outcome_of (partially_paid given_amount) link order db = do
    let amount = get_or given_amount 0
    raise_if (not (leb 1 amount && ltb amount link.amount_paise)) bad_partial_amount
    db₁ ← lifted (
        ingested l owner n.link_event_id at now
          (link_webhook n link (partially_paid given_amount) (part_payment n order amount at)) db)
    ok (part_paid_link amount link, db₁)
  outcome_of expired link order db = do
    db₁ ← lifted (
        ingested l owner n.link_event_id at now
          (link_webhook n link expired (no_payment n order "expired" at)) db)
    ok (record link { status = LinkStatus.expired; terminal_reason = some "expired" }, db₁)
  outcome_of cancelled link order db = do
    db₁ ← lifted (
        ingested l owner n.link_event_id at now
          (link_webhook n link cancelled (no_payment n order "cancelled" at)) db)
    ok (record link { status = LinkStatus.cancelled; terminal_reason = some "cancelled" }, db₁)

  unfoldable pub simulate_payment_link_outcome :
      ℕ → LinkOutcome → List PaymentLink → Db → Result LinkError (List PaymentLink × Db)
  simulate_payment_link_outcome id outcome links db = do
    link ← or_raise (find_row (is_link owner.merchant_id id) links) link_not_found
    order ← or_raise (find_row (λ (o : Order). o.id == link.order_id) db.orders) no_order
    raise_if (is_closed link.status) link_closed
    raise_if (ltb link.expires_at now && not (ends outcome)) link_expired
    (changed, after) ← outcome_of outcome link order db
    ok (put_link changed links, after)
