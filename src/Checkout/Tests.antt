-- ===== src/Checkout/Tests.antt =====
-- Checkout callbacks on concrete tables.
use Prim.Native.String.{◌++◌ as append}
use pay_twin_os.Prelude.{◌≡◌, refl, Bool, true, false, none, some, [], ◌∷◌, Result, ok, err}
use pay_twin_os.Payments.Rows.{Payment, Order, OrderStatus, PaymentStatus, Fulfilment, Db, empty_db}
use pay_twin_os.Payments.Fulfil.{
  paid_order, proven_payment, fulfilling_payment, insert_fulfilment, record_fulfilment, FulfilError,
  no_proof,
}
use pay_twin_os.Checkout.Verify.{
  Site, Callback, checkout_secret, record_proof, verify_payment, verify_order,
  verify_razorpay_checkout,
}
use pay_twin_os.Checkout.Genuine.{Genuine, verify_razorpay_checkout-Genuine}

abbrev site : Site
site = record {
  environ = λ name. "";
  razorpay_key_secret = "key";
  is_prod = false;
  hmac = λ secret message. append secret message;
}

abbrev wanted : Order
wanted = record {
  id = 2;
  organization_id = "o1";
  merchant_id = "m1";
  provider = "razorpay";
  order_ref = "order_b";
  amount_paise = 500;
  amount_paid_paise = 500;
  currency = "INR";
  status = OrderStatus.paid;
  paid_at = none;
}

abbrev other_order : Order
other_order = record wanted { id = 1; order_ref = "order_a"; status = OrderStatus.created }

abbrev payment : Payment
payment = record {
  id = 3;
  organization_id = "o1";
  merchant_id = "m1";
  group_id = "g";
  attempt_no = 1;
  provider = "razorpay";
  payment_ref = "pay";
  order_ref = some "order_b";
  customer_ref = none;
  amount_paise = 500;
  cohort = record { issuer = none; method = none; psp = none; gateway = none };
  status = PaymentStatus.success;
  failure_class = none;
  latency_ms = none;
  occurred_at = 0;
  final_status_at = none;
  refunded_amount_paise = 0;
  recovered = false;
  updated_at = 0;
}

abbrev shop : Db
shop = record empty_db { payments = payment ∷ []; orders = other_order ∷ wanted ∷ []; next_id = 9 }

abbrev genuine : Callback
genuine = record {
  organization_id = "o1";
  merchant_id = "m1";
  order_ref = "order_b";
  payment_ref = "pay";
  signature = "keyorder_b|pay";
}

-- The same payment under another order, with any signature.
abbrev stray : Callback
stray = record genuine { order_ref = "order_a"; signature = "" }

genuine_is_verified : (verify_razorpay_checkout site [] 5 genuine shop).0.ok ≡ true
unfolding verify_razorpay_checkout verify_order verify_payment checkout_secret record_proof
genuine_is_verified = refl

verify_razorpay_checkout-Genuine_example :
    ((verify_razorpay_checkout site [] 5 genuine shop).0.ok ≡ true → Genuine site [] 5 genuine shop)
    × (Genuine site [] 5 genuine shop
        → (verify_razorpay_checkout site [] 5 genuine shop).0.ok ≡ true)
verify_razorpay_checkout-Genuine_example = verify_razorpay_checkout-Genuine site [] 5 genuine shop

abbrev after_stray : Db
after_stray =
    (verify_razorpay_checkout site [] 6 genuine (verify_razorpay_checkout site [] 5 stray shop).1).1

abbrev fulfilled : Result FulfilError (Fulfilment × Db) → Bool
fulfilled (ok done) = true
fulfilled (err raised) = false

-- The genuine proof alone lets the order be fulfilled. After the stray callback it is verified too,
-- but the row names the other order, and the fulfilment finds no proof.
stray_callback_blocks_fulfilment :
    (fulfilled (
        record_fulfilment payment "razorpay_checkout" "k"
          (verify_razorpay_checkout site [] 6 genuine shop).1)
      ≡ true)
    × ((verify_razorpay_checkout site [] 6 genuine
          (verify_razorpay_checkout site [] 5 stray shop).1).0.ok
        ≡ true)
    × (record_fulfilment payment "razorpay_checkout" "k" after_stray ≡ err no_proof)
unfolding verify_razorpay_checkout verify_order verify_payment checkout_secret record_proof
    record_fulfilment paid_order fulfilling_payment proven_payment insert_fulfilment
stray_callback_blocks_fulfilment = (refl, refl, refl)
