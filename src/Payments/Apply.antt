-- ===== src/Payments/Apply.antt =====
-- `apply_event` of services/api/paytwin_api/services/state_machine.py and the helpers that it
-- calls for payments and orders. The payment in hand is a value beside the tables, and is written
-- to its row where the code flushes it; no query between reads a column that is pending.
use pay_twin_os.Prelude.{
  ℕ, ◌+◌, String, Bool, true, false, not, Option, none, some, List, [], ◌∷◌, ◌++◌, ◌&&◌, ◌||◌, ◌==◌,
  str_eq, max, if◌then◌else◌, is_some, given, num_true, or_text, or_option, or_num, get_or,
}
use pay_twin_os.Table.{find_row, put_row, update_where}
use pay_twin_os.Payments.Rows.{
  EventType, payment_failed, payment_success, refund_created, refund_failed, refund_updated,
  order_paid, PaymentStatus, OrderStatus, CanonicalEvent, Payment, Order, Db, is_captured,
}
use pay_twin_os.Payments.Transition.{same_status, target_status, can_transition}
use pay_twin_os.Payments.Refunds.{apply_refund, settle_pending_refunds}

-- The tenant-scoped key of the lookup in `_ensure_payment`.
abbrev pub matches_payment : CanonicalEvent → Payment → Bool
matches_payment e row =
    str_eq row.merchant_id e.merchant_id
    && str_eq row.organization_id e.organization_id
    && str_eq row.provider e.provider
    && str_eq row.payment_ref e.payment_ref

abbrev pub put_payment : Payment → Db → Db
put_payment p db = record db { payments = put_row (λ (q : Payment). q.id) p db.payments }

unfoldable pub new_payment : ℕ → Db → CanonicalEvent → Payment
new_payment now db e = record {
  id = db.next_id;
  organization_id = e.organization_id;
  merchant_id = e.merchant_id;
  group_id = or_text e.payload.group_id e.payment_ref;
  attempt_no = get_or e.payload.attempt_no 1;
  provider = e.provider;
  payment_ref = e.payment_ref;
  order_ref = e.payload.order_ref;
  customer_ref = e.payload.customer_ref;
  amount_paise = or_num e.payload.payment_amount_paise e.amount_paise;
  cohort = record { issuer = none; method = none; psp = none; gateway = none };
  status = PaymentStatus.created;
  failure_class = none;
  latency_ms = none;
  occurred_at = e.occurred_at;
  final_status_at = none;
  refunded_amount_paise = 0;
  recovered = false;
  updated_at = now;
}

-- `elif e.payload.get("order_ref") and not row.order_ref`
unfoldable pub attach_order : CanonicalEvent → Payment → Payment
attach_order e row =
    if is_some (given e.payload.order_ref) && not (is_some (given row.order_ref))
    then record row { order_ref = e.payload.order_ref }
    else row

unfoldable pub attach_group : CanonicalEvent → Payment → Payment
attach_group e row =
    if is_some (given e.payload.payment_link_ref) && is_some (given e.payload.group_id)
    then record row { group_id = or_text e.payload.group_id row.group_id }
    else row

unfoldable pub ensure_payment : ℕ → Db → CanonicalEvent → Payment × Db
ensure_payment now db e = elim (find_row (matches_payment e) db.payments) [
  | none ↦
      let row = new_payment now db e in
      (
        attach_group e row,
        record db { payments = db.payments ++ row ∷ []; next_id = db.next_id + 1 },
      )
  | some row ↦ (attach_group e (attach_order e row), db)
]

-- `if v and not getattr(p, dim): setattr(p, dim, v)`
abbrev enrich_dim : Option String → Option String → Option String
enrich_dim v old = if is_some (given v) && not (is_some (given old)) then v else old

unfoldable pub enrich : CanonicalEvent → Payment → Payment
enrich e p = record p {
  cohort = record {
    issuer = enrich_dim e.cohort.issuer p.cohort.issuer;
    method = enrich_dim e.cohort.method p.cohort.method;
    psp = enrich_dim e.cohort.psp p.cohort.psp;
    gateway = enrich_dim e.cohort.gateway p.cohort.gateway;
  };
  latency_ms = elim e.payload.latency_ms [ none ↦ p.latency_ms | some ms ↦ some ms ];
}

abbrev pub in_group : Payment → Payment → Bool
in_group p row =
    str_eq row.organization_id p.organization_id
    && str_eq row.group_id p.group_id
    && not row.recovered

abbrev pub mark_recovered : Payment → Payment
mark_recovered row = record row { recovered = true }

-- The update goes to the rows as they were last flushed. The payment in hand is marked only where its
-- own row is among them, which a group that was just attached to it is not.
unfoldable pub mark_group_recovered : Payment → Db → Payment × Db
mark_group_recovered p db =
    let row = find_row (λ (q : Payment). q.id == p.id && in_group p q) db.payments in
    (
      record p { recovered = p.recovered || is_some row },
      record db { payments = update_where (in_group p) mark_recovered db.payments },
    )

unfoldable pub apply_by_type :
    EventType → PaymentStatus → Payment → Db → CanonicalEvent → Payment × Db
apply_by_type payment_failed target p db e = (
  record p {
    failure_class = some (or_text e.payload.failure_class "issuer_decline");
    final_status_at = some e.occurred_at;
  },
  db,
)
apply_by_type payment_success target p db e =
    mark_group_recovered (record p { final_status_at = some e.occurred_at }) db
apply_by_type _ PaymentStatus.authorized p db e = (record p { final_status_at = none }, db)
apply_by_type _ _ p db e = (p, db)

unfoldable pub apply_status : PaymentStatus → Payment → Db → CanonicalEvent → Payment × Db
apply_status target p db e = apply_by_type e.type target (record p { status = target }) db e

abbrev pub matches_order : CanonicalEvent → String → Order → Bool
matches_order e order_ref row =
    str_eq row.organization_id e.organization_id
    && str_eq row.merchant_id e.merchant_id
    && str_eq row.provider e.provider
    && str_eq row.order_ref order_ref

abbrev pub put_order : Order → Db → Db
put_order o db = record db { orders = put_row (λ (r : Order). r.id) o db.orders }

unfoldable pub new_order : Db → String → Payment → CanonicalEvent → Order
new_order db order_ref p e = record {
  id = db.next_id;
  organization_id = e.organization_id;
  merchant_id = e.merchant_id;
  provider = e.provider;
  order_ref = order_ref;
  amount_paise = or_num e.payload.order_amount_paise p.amount_paise;
  amount_paid_paise = 0;
  currency = e.currency;
  status = OrderStatus.created;
  paid_at = none;
}

unfoldable pub find_order : String → Db → Payment → CanonicalEvent → Option Order × Db
find_order order_ref db p e = elim (find_row (matches_order e order_ref) db.orders) [
  | none ↦
      let row = new_order db order_ref p e in
      (some row, record db { orders = db.orders ++ row ∷ []; next_id = db.next_id + 1 })
  | some row ↦
      let priced =
        if not (num_true row.amount_paise) && num_true p.amount_paise
        then record row { amount_paise = p.amount_paise }
        else row in
      (some priced, put_order priced db)
]

unfoldable pub ensure_order : Db → Payment → CanonicalEvent → Option Order × Db
ensure_order db p e = elim (given (or_option e.payload.order_ref p.order_ref)) [
  | none ↦ (none, db)
  | some order_ref ↦ find_order order_ref db p e
]

unfoldable pub pay_order : Order → Payment → CanonicalEvent → Order
pay_order order p e = record order {
  status = OrderStatus.paid;
  amount_paid_paise = max order.amount_paid_paise p.amount_paise;
  paid_at = elim order.paid_at [ none ↦ some e.occurred_at | some at ↦ some at ];
}

unfoldable pub mark_order_paid : Option Order → Payment → Db → CanonicalEvent → Db
mark_order_paid none p db e = db
mark_order_paid (some order) p db e =
    if is_captured p.status then put_order (pay_order order p e) db else db

abbrev pub is_refund_event : EventType → Bool
is_refund_event refund_created = true
is_refund_event refund_failed = true
is_refund_event refund_updated = true
is_refund_event _ = false

abbrev pub is_capture_event : EventType → Bool
is_capture_event payment_success = true
is_capture_event order_paid = true
is_capture_event _ = false

-- `if t in {"refund.created", "refund.failed", "refund.updated"}`
unfoldable pub refund_step : Payment → Db → CanonicalEvent → Payment × Db
refund_step p db e = if is_refund_event e.type then apply_refund p db e else (p, db)

unfoldable pub settle_capture : Option Order → Payment → Db → CanonicalEvent → Payment × Db
settle_capture order p db e =
    let (q, db') = settle_pending_refunds p db e.occurred_at in (q, mark_order_paid order q db' e)

-- `if t in {"payment.success", "order.paid"}`
unfoldable pub capture_step : Option Order → Payment → Db → CanonicalEvent → Payment × Db
capture_step order p db e = if is_capture_event e.type then settle_capture order p db e else (p, db)

unfoldable pub touch : ℕ → CanonicalEvent → Payment → Payment
touch now e p = record p { occurred_at = max p.occurred_at e.occurred_at; updated_at = now }

-- The end of `apply_event`, from `_ensure_order` on.
unfoldable pub conclude : ℕ → Payment → Db → CanonicalEvent → Payment × Db
conclude now p db e =
    let (order, db₁) = ensure_order db p e in
    let (p₂, db₂) = refund_step p db₁ e in
    let (p₃, db₃) = capture_step order p₂ db₂ e in (touch now e p₃, db₃)

-- The change of status, or `none` where the event may not make it.
unfoldable pub change_status : Payment → Db → CanonicalEvent → Option (Payment × Db)
change_status p db e = elim (target_status e.type) [
  | none ↦ some (p, db)
  | some target ↦
      if not (can_transition p target e.occurred_at)
      then none
      else if same_status target p.status
      then some (p, db)
      else some (apply_status target p db e)
]

unfoldable pub advance_payment : ℕ → Payment → Db → CanonicalEvent → Payment × Db
advance_payment now p db e = elim (change_status p db e) [
  | none ↦ (p, db)
  | some (q, db') ↦ conclude now q db' e
]

unfoldable pub apply_event : ℕ → Db → CanonicalEvent → Payment × Db
apply_event now db e =
    let (p, db₁) = ensure_payment now db e in
    let (q, db₂) = advance_payment now (enrich e p) db₁ e in (q, put_payment q db₂)

-- Events applied one after another, each with the time of its processing.
unfoldable pub apply_events : Db → List (ℕ × CanonicalEvent) → Db
apply_events db [] = db
apply_events db ((now, e) ∷ es) = apply_events (apply_event now db e).1 es
