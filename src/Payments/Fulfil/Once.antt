-- ===== src/Payments/Fulfil/Once.antt =====
-- At most one fulfilment for an order, and what a recorded fulfilment rests on.
use pay_twin_os.Prelude.{
  ℕ, ◌≡◌, refl, ◌≢◌, subst, ◌∙◌, inl, inr, String, Bool, true, none, some, List, [], ◌∷◌, arith,
  str_eq, is_some, Bool-cases, Option-cases, All, map, Result, ok, err, >>=-ok,
}
use pay_twin_os.Table.{find_row, find_row-test, find_row-append}
use pay_twin_os.Table.Keys.{Distinct, Distinct-snoc, map-append_one}
use pay_twin_os.Payments.Rows.{
  Payment, Order, Fulfilment, CheckoutVerification, Db, is_captured, is_paid,
}
use pay_twin_os.Payments.Fulfil.{
  FulfilError, owns_order, proves, latest_proof, proven_payment, needs_proof, fulfilling_payment,
  has_order, insert_fulfilment, paid_order, record_fulfilment,
}

-- No order is fulfilled twice.
abbrev pub FulfilledOnce : Db → Type 0
FulfilledOnce db = Distinct (map (λ (f : Fulfilment). f.order_id) db.fulfilments)

absent-All :
    (k : ℕ) (rows : List Fulfilment)
    → find_row (has_order k) rows ≡ none
    → All (λ j. j ≢ k) (map (λ (f : Fulfilment). f.order_id) rows)
absent-All k [] h = tt
absent-All k (r ∷ rows) h = elim (Bool-cases (has_order k r)) [
  | inl e ↦ absurd (ground arith)
  | inr e ↦ (ground arith, absent-All k rows (ground arith))
]

-- The three steps of a recorded fulfilment.
record Recorded (p : Payment) (source key : String) (db : Db) (r : Fulfilment × Db) : Type 0 where
  order : Order
  paid : paid_order p db ≡ ok order
  by : Payment
  proven : fulfilling_payment p order db source ≡ ok by
  inserted : insert_fulfilment p order by source key db ≡ ok r

record_fulfilment_steps :
    (p : Payment) (source key : String) (db : Db) {r : Fulfilment × Db}
    → record_fulfilment p source key db ≡ ok r
    → Recorded p source key db r
unfolding record_fulfilment
record_fulfilment_steps p source key db h =
    let (order, paid, rest) = >>=-ok (paid_order p db) _ h in
    let (by, proven, inserted) = >>=-ok (fulfilling_payment p order db source) _ rest in
    record { order = order; paid = paid; by = by; proven = proven; inserted = inserted }

paid_order_facts :
    (p : Payment) (db : Db) {o : Order}
    → paid_order p db ≡ ok o
    → (is_captured p.status ≡ true)
      × (is_paid o.status ≡ true)
      × (find_row (owns_order p) db.orders ≡ some o)
unfolding paid_order
paid_order_facts p db h = ground arith

-- What an insertion leaves: one row for the order, and all other tables as they were.
abbrev InsertPost : Order → Db → Result FulfilError (Fulfilment × Db) → Type 0
InsertPost o db (err e) = Unit
InsertPost o db (ok (f, db')) =
    FulfilledOnce db'
    × (f.order_id ≡ o.id)
    × (find_row (has_order o.id) db'.fulfilments ≡ some f)
    × (db'.payments ≡ db.payments)
    × (db'.orders ≡ db.orders)
    × (db'.verifications ≡ db.verifications)

insert_fulfilment-post :
    (p : Payment) (o : Order) (by : Payment) (source key : String) (db : Db)
    → FulfilledOnce db
    → InsertPost o db (insert_fulfilment p o by source key db)
unfolding insert_fulfilment
insert_fulfilment-post p o by source key db u =
    elim (Option-cases (find_row (has_order o.id) db.fulfilments)) [
      | inr (f, found) ↦
          let at = find_row-test (has_order o.id) db.fulfilments found in
          rw (found, insert_fulfilment) (u, ground arith, found, refl, refl, refl)
      | inl absent ↦
          rw (absent, insert_fulfilment)
            (elim (Bool-cases (
              is_some
                (find_row (λ (f : Fulfilment). str_eq f.idempotency_key key) db.fulfilments))) [
                  | inl taken ↦ rw taken tt
                  | inr free ↦ rw free (
                    rw (map-append_one (λ (f : Fulfilment). f.order_id))
                        (Distinct-snoc o.id _ (absent-All o.id db.fulfilments absent) u),
                    refl,
                    find_row-append (has_order o.id) _ db.fulfilments absent (ground arith),
                    refl,
                    refl,
                    refl,
                  )
                ])
    ]

latest_proof-test :
    (test : CheckoutVerification → Bool) (rows : List CheckoutVerification)
    {v : CheckoutVerification}
    → latest_proof test rows ≡ some v
    → test v ≡ true
latest_proof-test test [] h = cc
latest_proof-test test (row ∷ rows) {v} h = ground (arith, latest_proof-test test rows {v = v})

proof_given :
    (p : Payment) (o : Order) (db : Db) (source : String) {by : Payment}
    → fulfilling_payment p o db source ≡ ok by
    → needs_proof p source ≡ true
    → (v : CheckoutVerification) × (latest_proof (proves p o) db.verifications ≡ some v)
      × (v.signature_valid ≡ true)
      × (v.order_id ≡ o.id)
unfolding fulfilling_payment
proof_given p o db source h n = elim (Option-cases (latest_proof (proves p o) db.verifications)) [
  | inl absent ↦ absurd (ground arith)
  | inr (v, found) ↦
      let t = latest_proof-test (proves p o) db.verifications found in
      (v, found, ground arith, ground arith)
]

-- A recorded fulfilment keeps the one row for each order. It rests on a captured payment and on a
-- paid order of the same organization, merchant, provider and reference, and for a Razorpay
-- Checkout on a verified proof of that order.
pub record_fulfilment_once :
    (p : Payment) (source key : String) (db db' : Db) (f : Fulfilment)
    → FulfilledOnce db
    → record_fulfilment p source key db ≡ ok (f, db')
    → FulfilledOnce db'
      × (is_captured p.status ≡ true)
      × ((o : Order) × (find_row (owns_order p) db.orders ≡ some o)
          × (is_paid o.status ≡ true)
          × (f.order_id ≡ o.id)
          × (needs_proof p source ≡ true
              → (v : CheckoutVerification) × (latest_proof (proves p o) db.verifications ≡ some v)
                × (v.signature_valid ≡ true)
                × (v.order_id ≡ o.id)))
record_fulfilment_once p source key db db' f u h =
    let s = record_fulfilment_steps p source key db h in
    let (captured, paid, owned) = paid_order_facts p db s.paid in
    let post =
      subst (InsertPost s.order db) s.inserted
        (insert_fulfilment-post p s.order s.by source key db u) in
    (post.0, captured, (s.order, owned, paid, post.1, proof_given p s.order db source s.proven))

paid_order-same :
    (p : Payment) (db db' : Db) → db'.orders ≡ db.orders → paid_order p db' ≡ paid_order p db
unfolding paid_order
paid_order-same p db db' e = rw e

fulfilling_payment-same :
    (p : Payment) (o : Order) (db db' : Db) (source : String)
    → db'.payments ≡ db.payments
    → db'.verifications ≡ db.verifications
    → fulfilling_payment p o db' source ≡ fulfilling_payment p o db source
unfolding fulfilling_payment proven_payment
fulfilling_payment-same p o db db' source e f = rw (e, f)

-- Recording again gives the same row and changes nothing, whatever key the repeat brings.
pub record_fulfilment_again :
    (p : Payment) (source key key' : String) (db db' : Db) (f : Fulfilment)
    → FulfilledOnce db
    → record_fulfilment p source key db ≡ ok (f, db')
    → record_fulfilment p source key' db' ≡ ok (f, db')
unfolding record_fulfilment insert_fulfilment
record_fulfilment_again p source key key' db db' f u h =
    let s = record_fulfilment_steps p source key db h in
    let (_, _, found, payments, orders, proofs) =
      subst (InsertPost s.order db) s.inserted
        (insert_fulfilment-post p s.order s.by source key db u) in
    let paid' = paid_order-same p db db' orders ∙ s.paid in
    let proven' = fulfilling_payment-same p s.order db db' source payments proofs ∙ s.proven in
    rw (record_fulfilment, paid', proven', insert_fulfilment, found)
