-- ===== src/Payments/Fulfil.antt =====
-- `record_fulfilment` of services/api/paytwin_api/services/state_machine.py. What it raises is a
-- value; a clash of the unique idempotency key is the database's refusal of the insertion.
pub mod Once
use pay_twin_os.Prelude.{
  ℕ, ◌+◌, String, Bool, true, false, not, Option, none, some, List, [], ◌∷◌, ◌++◌, ◌&&◌, str_eq,
  ◌==◌, ltb, if◌then◌else◌, is_some, given, Result, ok, err, ◌>>=◌, ◌>>◌, raise_if, or_raise,
}
use pay_twin_os.Table.{find_row}
use pay_twin_os.Payments.Rows.{
  Payment, Order, Fulfilment, CheckoutVerification, ProofStatus, Db, is_captured, is_paid,
}

pub data FulfilError : Type 0 where
  uncaptured no_order_ref unpaid_order no_proof unlinked_proof key_taken : FulfilError

abbrev pub is_verified : ProofStatus → Bool
is_verified ProofStatus.verified = true
is_verified ProofStatus.rejected = false

abbrev pub owns_order : Payment → Order → Bool
owns_order p row =
    str_eq row.organization_id p.organization_id
    && str_eq row.merchant_id p.merchant_id
    && str_eq row.provider p.provider
    && is_some p.order_ref
    && str_eq row.order_ref (elim p.order_ref [ none ↦ "" | some r ↦ r ])

-- A verified Checkout proof of the order.
abbrev pub proves : Payment → Order → CheckoutVerification → Bool
proves p order row =
    str_eq row.organization_id p.organization_id
    && str_eq row.merchant_id p.merchant_id
    && row.order_id == order.id
    && str_eq row.provider "razorpay"
    && row.signature_valid
    && is_verified row.status

-- `.filter(test).order_by(verified_at.desc()).first()`
abbrev pub latest_proof :
    (CheckoutVerification → Bool) → List CheckoutVerification → Option CheckoutVerification
latest_proof test [] = none
latest_proof test (row ∷ rows) =
    let rest = latest_proof test rows in
    if test row
    then elim rest [
      | none ↦ some row
      | some later ↦ if ltb row.verified_at later.verified_at then some later else some row
    ]
    else rest

-- The payment that the proof names must belong to the order.
unfoldable pub proven_payment :
    Payment → Order → Db → CheckoutVerification → Result FulfilError Payment
proven_payment p order db proof = elim proof.payment_id [
  | none ↦ ok p
  | some id ↦ elim (find_row (λ (q : Payment). q.id == id) db.payments) [
    | none ↦ err unlinked_proof
    | some q ↦
        if is_some q.order_ref
          && str_eq (elim q.order_ref [ none ↦ "" | some r ↦ r ]) order.order_ref
        then ok q
        else err unlinked_proof
  ]
]

-- `payment.provider == "razorpay" and source == "razorpay_checkout"`
abbrev pub needs_proof : Payment → String → Bool
needs_proof p source = str_eq p.provider "razorpay" && str_eq source "razorpay_checkout"

unfoldable pub fulfilling_payment : Payment → Order → Db → String → Result FulfilError Payment
fulfilling_payment p order db source =
    if needs_proof p source
    then (do
      proof ← or_raise (latest_proof (proves p order) db.verifications) no_proof
      proven_payment p order db proof)
    else ok p

abbrev pub has_order : ℕ → Fulfilment → Bool
has_order order_id row = row.order_id == order_id

unfoldable pub insert_fulfilment :
    Payment → Order → Payment → String → String → Db → Result FulfilError (Fulfilment × Db)
insert_fulfilment p order by source key db = elim (find_row (has_order order.id) db.fulfilments) [
  | some existing ↦ ok (existing, db)
  | none ↦
      let row : Fulfilment = record {
        id = db.next_id;
        organization_id = p.organization_id;
        merchant_id = p.merchant_id;
        order_id = order.id;
        payment_id = by.id;
        source = source;
        idempotency_key = key;
      } in
      if is_some (find_row (λ (f : Fulfilment). str_eq f.idempotency_key key) db.fulfilments)
      then err key_taken
      else ok
          (row, record db { fulfilments = db.fulfilments ++ row ∷ []; next_id = db.next_id + 1 })
]

unfoldable pub paid_order : Payment → Db → Result FulfilError Order
paid_order p db = do
  raise_if (not (is_captured p.status)) uncaptured
  raise_if (not (is_some (given p.order_ref))) no_order_ref
  order ← or_raise (find_row (owns_order p) db.orders) unpaid_order
  raise_if (not (is_paid order.status)) unpaid_order
  ok order

unfoldable pub record_fulfilment :
    Payment → String → String → Db → Result FulfilError (Fulfilment × Db)
record_fulfilment p source key db = do
  order ← paid_order p db
  by ← fulfilling_payment p order db source
  insert_fulfilment p order by source key db
