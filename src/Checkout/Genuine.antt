-- ===== src/Checkout/Genuine.antt =====
-- Which callbacks `verify_razorpay_checkout` takes for proven
-- (services/api/paytwin_api/services/checkout_verification.py).
use pay_twin_os.Prelude.{
  ℕ, ◌≡◌, ◌⊎◌, inl, inr, true, some, List, arith, str_eq, text_true, Option-cases,
}
use pay_twin_os.Table.{find_row}
use pay_twin_os.Tenancy.{Integration}
use pay_twin_os.Payments.Rows.{Payment, Order, Db, is_success, is_paid}
use pay_twin_os.Checkout.Verify.{
  Site, Callback, is_order_of, is_payment_of, belongs_to, checkout_secret, expected, verify_payment,
  verify_order, verify_razorpay_checkout,
}

module _ (site : Site) (integrations : List Integration) (now : ℕ) (q : Callback) where
  -- The merchant has the order, the signature is the HMAC of order and payment under a secret that is
  -- set, and the payment of that name is captured, for that order, of its amount.
  pub record Genuine (db : Db) : Type 0 where
    pub order : Order
    pub payment : Payment
    pub known_order : find_row (is_order_of q) db.orders ≡ some order
    pub known_payment : find_row (is_payment_of q) db.payments ≡ some payment
    pub secret : text_true (checkout_secret site integrations q.merchant_id) ≡ true
    pub signed : str_eq (expected site integrations now q) q.signature ≡ true
    pub same_order : belongs_to q.order_ref payment ≡ true
    pub captured : is_success payment.status ≡ true
    pub paid : is_paid order.status ≡ true
    pub amount : (order.amount_paise ≡ 0) ⊎ (payment.amount_paise ≡ order.amount_paise)

  -- A callback is verified exactly when it is genuine: no other one is, and no genuine one is refused.
  pub verify_razorpay_checkout-Genuine :
      (db : Db)
      → ((verify_razorpay_checkout site integrations now q db).0.ok ≡ true → Genuine db)
        × (Genuine db → (verify_razorpay_checkout site integrations now q db).0.ok ≡ true)
  unfolding verify_razorpay_checkout verify_order verify_payment
  verify_razorpay_checkout-Genuine db = (accepted, accepts)
    where
      accepted : (verify_razorpay_checkout site integrations now q db).0.ok ≡ true → Genuine db
      accepted h = elim (Option-cases (find_row (is_order_of q) db.orders)) [
        | inl unknown ↦ absurd (ground arith)
        | inr (order, known) ↦ elim (Option-cases (find_row (is_payment_of q) db.payments)) [
          | inl missing ↦ absurd (ground arith)
          | inr (p, there) ↦ record {
            order = order;
            payment = p;
            known_order = known;
            known_payment = there;
            secret = ground arith;
            signed = ground arith;
            same_order = ground arith;
            captured = ground arith;
            paid = ground arith;
            amount = ground arith;
          }
        ]
      ]

      accepts : Genuine db → (verify_razorpay_checkout site integrations now q db).0.ok ≡ true
      accepts g = ground (
        arith, g.known_order, g.known_payment, g.secret, g.signed, g.same_order, g.captured, g.paid,
        g.amount,
      )
