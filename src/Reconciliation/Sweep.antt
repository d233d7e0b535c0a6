-- ===== src/Reconciliation/Sweep.antt =====
-- `reconcile_financial_state` and the counts over the payment tables of `operational_status`
-- (services/api/paytwin_api/services/reconciliation.py). The counts over the outbox and the dead
-- letters and the list of integrations are left out.
use pay_twin_os.Prelude.{
  ℕ, ◌+◌, String, Bool, true, false, not, Option, none, some, List, [], ◌∷◌, ◌&&◌, leb, ltb, str_eq,
  ◌==◌, if◌then◌else◌, given, length, take, map,
}
use pay_twin_os.Table.{find_row, put_row, rows_where}
use pay_twin_os.Tenancy.{Integration}
use pay_twin_os.Payments.Rows.{
  Payment, Order, Refund, Fulfilment, CheckoutVerification, Db, is_captured, is_held, is_paid,
}
use pay_twin_os.Payments.Refunds.{reconcile_pending_refunds}

-- `if organization_id:`
abbrev pub in_scope : Option String → String → Bool
in_scope scope org = elim (given scope) [ none ↦ true | some wanted ↦ str_eq org wanted ]

abbrev pub is_swept : Option String → Payment → Bool
is_swept scope p = is_captured p.status && in_scope scope p.organization_id

-- `order_by(Payment.updated_at.asc())`
abbrev pub insert_by_update : Payment → List Payment → List Payment
insert_by_update p [] = p ∷ []
insert_by_update p (q ∷ qs) =
    let rest = insert_by_update p qs in
    if leb p.updated_at q.updated_at then p ∷ q ∷ qs else q ∷ rest

abbrev pub by_update : List Payment → List Payment
by_update [] = []
by_update (p ∷ ps) = insert_by_update p (by_update ps)

unfoldable pub swept : Option String → Db → List Payment
swept scope db = take 1000 (by_update (rows_where (is_swept scope) db.payments))

abbrev pub put_payment : Payment → Db → Db
put_payment p db = record db { payments = put_row (λ (q : Payment). q.id) p db.payments }

-- The loop over the payments; the settled payment is flushed with its refunds.
unfoldable pub reconcile_all : ℕ → List Payment → Db → ℕ × Db
reconcile_all now [] db = (0, db)
reconcile_all now (p ∷ ps) db =
    let (examined, q, db') = reconcile_pending_refunds p db now in
    let (more, after) = reconcile_all now ps (put_payment q db') in (examined + more, after)

abbrev pub is_expired : ℕ → Option ℕ → Bool
is_expired now none = false
is_expired now (some expires_at) = ltb expires_at now

abbrev pub checked_at : ℕ → Integration → Integration
checked_at now row = record row { last_healthcheck_at = some now }

abbrev pub without_previous : Integration → Integration
without_previous row = record row { previous_secret_ref = none; previous_secret_expires_at = none }

unfoldable pub retire : Option String → ℕ → Integration → Integration
retire scope now row =
    if in_scope scope row.organization_id
    then checked_at now
        (if is_expired now row.previous_secret_expires_at then without_previous row else row)
    else row

abbrev pub retires : Option String → ℕ → Integration → Bool
retires scope now row =
    in_scope scope row.organization_id && is_expired now row.previous_secret_expires_at

pub record Swept : Type 0 where
  pub pending_refunds_examined : ℕ
  pub expired_secret_references_retired : ℕ
  pub db : Db
  pub integrations : List Integration

unfoldable pub reconcile_financial_state : Option String → ℕ → Db → List Integration → Swept
reconcile_financial_state scope now db integrations =
    let (examined, after) = reconcile_all now (swept scope db) db in
    record {
      pending_refunds_examined = examined;
      expired_secret_references_retired = length (rows_where (retires scope now) integrations);
      db = after;
      integrations = map (retire scope now) integrations;
    }

abbrev pub is_pending_of : String → Refund → Bool
is_pending_of org row = str_eq row.organization_id org && is_held row.status

abbrev pub is_paid_of : String → Order → Bool
is_paid_of org row =
    str_eq row.organization_id org && str_eq row.provider "razorpay" && is_paid row.status

abbrev pub proves : Order → CheckoutVerification → Bool
proves order row = row.order_id == order.id && row.signature_valid

abbrev pub fulfils : Order → Fulfilment → Bool
fulfils order row = row.order_id == order.id

abbrev pub is_unverified : Db → Order → Bool
is_unverified db order = elim (find_row (proves order) db.verifications) [
  | none ↦ true
  | some proof ↦ false
]

abbrev pub is_unfulfilled : Db → Order → Bool
is_unfulfilled db order = elim (find_row (fulfils order) db.fulfilments) [
  | none ↦ true
  | some fulfilment ↦ false
]

pub record Status : Type 0 where
  pub pending_refunds : ℕ
  pub razorpay_paid_orders_unverified : ℕ
  pub verified_orders_unfulfilled : ℕ

unfoldable pub operational_status : Db → String → Status
operational_status db org =
    let orders = rows_where (is_paid_of org) db.orders in
    record {
      pending_refunds = length (rows_where (is_pending_of org) db.refunds);
      razorpay_paid_orders_unverified = length (rows_where (is_unverified db) orders);
      verified_orders_unfulfilled =
          length
            (rows_where (λ (o : Order). not (is_unverified db o) && is_unfulfilled db o) orders);
    }
