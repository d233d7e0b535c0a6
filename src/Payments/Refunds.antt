-- ===== src/Payments/Refunds.antt =====
-- Refunds: `_refund_status`, `_apply_refund`, `_settle_refund`, `_settle_pending_refunds` and
-- `reconcile_pending_refunds` of services/api/paytwin_api/services/state_machine.py.
use Prim.Native.String.{◌++◌ as text_append}
use pay_twin_os.Prelude.{
  ℕ, ◌+◌, String, Bool, true, false, not, Option, none, some, List, [], ◌∷◌, ◌++◌, ◌&&◌, str_eq,
  ◌==◌, ltb, if◌then◌else◌, given, or_text, or_option, or_num, length,
}
use pay_twin_os.Table.{find_row, put_row, rows_where}
use pay_twin_os.Payments.Rows.{
  EventType, refund_created, refund_failed, refund_updated, PaymentStatus, RefundStatus, Refund,
  Payment, CanonicalEvent, Db, is_captured, is_processed, is_held,
}

-- The empty text is false in a test.
abbrev pub given_status : Option RefundStatus → Option RefundStatus
given_status none = none
given_status (some (RefundStatus.other s)) = elim (given (some s)) [
  | none ↦ none
  | some t ↦ some (RefundStatus.other t)
]
given_status (some s) = some s

abbrev is_refund_created : EventType → Bool
is_refund_created refund_created = true
is_refund_created _ = false

-- What the payload says, for an event that is neither a failure nor an update.
abbrev reported_status : CanonicalEvent → RefundStatus
reported_status e = elim (given_status e.payload.refund_status) [
  | some s ↦ s
  | none ↦
      if is_refund_created e.type && not (str_eq e.provider "razorpay")
      then RefundStatus.processed
      else RefundStatus.created
]

abbrev refund_status_of : EventType → CanonicalEvent → RefundStatus
refund_status_of refund_failed e = RefundStatus.failed
refund_status_of refund_updated e = RefundStatus.updated
refund_status_of _ e = reported_status e

unfoldable pub refund_status : CanonicalEvent → RefundStatus
refund_status e = refund_status_of e.type e

unfoldable pub settle_refund : Payment → Refund → ℕ → Payment × Refund
settle_refund p row occurred_at =
    if ltb p.amount_paise (p.refunded_amount_paise + row.amount_paise)
    then (
      p,
      record row {
        status = RefundStatus.rejected;
        failure_reason = some "refund total exceeds captured payment amount";
      },
    )
    else (credit p, record row { status = RefundStatus.processed; processed_at = some occurred_at })
  where
    credit : Payment → Payment
    credit q =
        let total = q.refunded_amount_paise + row.amount_paise in
        if total == q.amount_paise
        then record q {
          refunded_amount_paise = total;
          status = PaymentStatus.refunded;
          final_status_at = some occurred_at;
        }
        else record q { refunded_amount_paise = total }

-- The part of `_apply_refund` below the lookup: the new status of the row, and what it credits.
unfoldable pub advance : RefundStatus → Payment → Refund → CanonicalEvent → Payment × Refund
advance RefundStatus.failed p row e = (
  p,
  record row {
    status = RefundStatus.failed;
    failure_reason = some (or_text e.payload.failure_class "provider_refund_failed");
  },
)
advance RefundStatus.rejected p row e = (p, record row { status = RefundStatus.rejected })
advance RefundStatus.pending_reconciliation p row e =
    (p, record row { status = RefundStatus.pending_reconciliation })
advance (RefundStatus.other s) p row e = (p, record row { status = RefundStatus.other s })
advance RefundStatus.processed p row e =
    if is_processed row.status
    then (p, row)
    else if is_captured p.status
    then settle_refund p row e.occurred_at
    else (p, record row { status = RefundStatus.pending_reconciliation })
advance status p row e =
    (p, if is_processed row.status then row else record row { status = status })

unfoldable pub advance_refund : Payment → Refund → CanonicalEvent → Payment × Refund
advance_refund p row e = advance (refund_status e) p row e

abbrev pub refund_ref_of : CanonicalEvent → String
refund_ref_of e = or_text e.payload.refund_ref (text_append "event:" e.external_event_id)

abbrev pub refund_amount_of : CanonicalEvent → ℕ
refund_amount_of e = or_num e.payload.refund_amount_paise e.amount_paise

abbrev pub matches_refund : CanonicalEvent → Refund → Bool
matches_refund e row =
    str_eq row.organization_id e.organization_id
    && str_eq row.merchant_id e.merchant_id
    && str_eq row.provider e.provider
    && str_eq row.refund_ref (refund_ref_of e)

unfoldable pub new_refund : Db → Payment → CanonicalEvent → Refund
new_refund db p e = record {
  id = db.next_id;
  organization_id = e.organization_id;
  merchant_id = e.merchant_id;
  payment_id = p.id;
  provider = e.provider;
  refund_ref = refund_ref_of e;
  amount_paise = refund_amount_of e;
  currency = e.currency;
  receipt = e.payload.refund_receipt;
  idempotency_key = e.payload.refund_idempotency_key;
  speed_requested = e.payload.refund_speed_requested;
  speed_processed = e.payload.refund_speed_processed;
  status = RefundStatus.created;
  failure_reason = none;
  processed_at = none;
}

abbrev pub put_refund : Refund → Db → Db
put_refund row db = record db { refunds = put_row (λ (r : Refund). r.id) row db.refunds }

-- A known row: its amount may not change; the update may add its speeds.
unfoldable pub update_refund : Payment → Refund → CanonicalEvent → Payment × Refund
update_refund p row e =
    if not (row.amount_paise == refund_amount_of e)
    then (
      p,
      record row {
        status = RefundStatus.rejected;
        failure_reason = some "provider refund amount changed for same refund reference";
      },
    )
    else advance_refund p
        (record row {
          speed_requested = or_option e.payload.refund_speed_requested row.speed_requested;
          speed_processed = or_option e.payload.refund_speed_processed row.speed_processed;
        })
        e

unfoldable pub apply_refund : Payment → Db → CanonicalEvent → Payment × Db
apply_refund p db e = elim (find_row (matches_refund e) db.refunds) [
  | none ↦
      let (p', row) = advance_refund p (new_refund db p e) e in
      (p', record db { refunds = db.refunds ++ row ∷ []; next_id = db.next_id + 1 })
  | some found ↦ let (p', row) = update_refund p found e in (p', put_refund row db)
]

abbrev pub is_held_for : ℕ → Refund → Bool
is_held_for payment_id row = row.payment_id == payment_id && is_held row.status

-- The loop of `_settle_pending_refunds` over the refund table in the order of creation.
unfoldable pub settle_held : Payment → List Refund → ℕ → Payment × List Refund
settle_held p [] occurred_at = (p, [])
settle_held p (row ∷ rows) occurred_at =
    let (q, row') = if is_held_for p.id row then settle_refund p row occurred_at else (p, row) in
    let (r, rows') = settle_held q rows occurred_at in (r, row' ∷ rows')

unfoldable pub settle_pending_refunds : Payment → Db → ℕ → Payment × Db
settle_pending_refunds p db occurred_at =
    let (q, rows) = settle_held p db.refunds occurred_at in (q, record db { refunds = rows })

-- The number of refunds that were held is returned beside the payment and the tables.
unfoldable pub reconcile_pending_refunds : Payment → Db → ℕ → ℕ × Payment × Db
reconcile_pending_refunds p db event_time =
    let pending = length (rows_where (is_held_for p.id) db.refunds) in
    if not (is_captured p.status)
    then (0, p, db)
    else if pending == 0
    then (0, p, db)
    else let (q, db') = settle_pending_refunds p db event_time in (pending, q, db')
