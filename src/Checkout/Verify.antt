-- ===== src/Checkout/Verify.antt =====
-- `_checkout_secret`, `_record` and `verify_razorpay_checkout`
-- (services/api/paytwin_api/services/checkout_verification.py), on the tables of Payments. The HMAC is
-- a parameter, and the messages are left out.
use Prim.Native.String.{◌++◌ as append}
use pay_twin_os.Prelude.{
  ℕ, ◌+◌, String, Bool, true, false, not, Option, none, some, List, [], ◌∷◌, ◌++◌, ◌&&◌, ◌||◌, ◌==◌,
  str_eq, text_true, num_true, or_text, if◌then◌else◌,
}
use pay_twin_os.Table.{find_row, put_row}
use pay_twin_os.Tenancy.{Integration, integrates}
use pay_twin_os.Payments.Rows.{
  Payment, Order, CheckoutVerification, ProofStatus, Db, is_success, is_paid,
}

pub record Site : Type 0 where
  pub environ : String → String
  pub razorpay_key_secret : String
  pub is_prod : Bool
  pub hmac : String → String → String

pub record CheckoutResult : Type 0 where
  pub ok : Bool
  pub code : String
  pub verification_id : Option ℕ

-- A callback of the browser.
pub record Callback : Type 0 where
  pub organization_id : String
  pub merchant_id : String
  pub order_ref : String
  pub payment_ref : String
  pub signature : String

abbrev pub is_order_of : Callback → Order → Bool
is_order_of q row =
    str_eq row.organization_id q.organization_id
    && str_eq row.merchant_id q.merchant_id
    && str_eq row.provider "razorpay"
    && str_eq row.order_ref q.order_ref

abbrev pub is_payment_of : Callback → Payment → Bool
is_payment_of q row =
    str_eq row.organization_id q.organization_id
    && str_eq row.merchant_id q.merchant_id
    && str_eq row.provider "razorpay"
    && str_eq row.payment_ref q.payment_ref

abbrev pub is_proof_of : String → String → CheckoutVerification → Bool
is_proof_of merchant payment_ref row =
    str_eq row.merchant_id merchant
    && str_eq row.provider "razorpay"
    && str_eq row.payment_ref payment_ref

abbrev pub belongs_to : String → Payment → Bool
belongs_to order_ref p = elim p.order_ref [ none ↦ false | some r ↦ str_eq r order_ref ]

abbrev pub api_ref : Option Integration → Option String
api_ref none = none
api_ref (some row) = row.api_secret_ref

unfoldable pub checkout_secret : Site → List Integration → String → String
checkout_secret site integrations merchant =
    let found = find_row (integrates merchant "razorpay") integrations in
    let configured = site.environ (or_text (api_ref found) "PAYTWIN_RAZORPAY_KEY_SECRET") in
    if text_true configured
    then configured
    else if site.is_prod
    then ""
    else site.razorpay_key_secret

abbrev pub payment_key : Option Payment → Option ℕ
payment_key none = none
payment_key (some p) = some p.id

abbrev pub new_proof :
    ℕ → Order → Option Payment → String → Bool → String → Db → CheckoutVerification
new_proof now order payment payment_ref valid code db = record {
  id = db.next_id;
  organization_id = order.organization_id;
  merchant_id = order.merchant_id;
  order_id = order.id;
  payment_id = payment_key payment;
  provider = "razorpay";
  payment_ref = payment_ref;
  signature_valid = valid;
  status = if valid then ProofStatus.verified else ProofStatus.rejected;
  reason = if valid then none else some code;
  verified_at = now;
}

-- The row that becomes valid; its order stays the one it was made for.
abbrev pub validated : ℕ → Option Payment → CheckoutVerification → CheckoutVerification
validated now payment row = record row {
  payment_id = elim payment [ none ↦ row.payment_id | some p ↦ some p.id ];
  signature_valid = true;
  status = ProofStatus.verified;
  reason = none;
  verified_at = now;
}

unfoldable pub record_proof :
    ℕ → Order → Option Payment → String → Bool → String → Db → CheckoutVerification × Db
record_proof now order payment payment_ref valid code db =
    elim (find_row (is_proof_of order.merchant_id payment_ref) db.verifications) [
      | none ↦
          let row = new_proof now order payment payment_ref valid code db in
          (
            row,
            record db { verifications = db.verifications ++ row ∷ []; next_id = db.next_id + 1 },
          )
      | some row ↦
          let row' = validated now payment row in
          if valid && not row.signature_valid
          then (
            row',
            record db {
              verifications = put_row (λ (r : CheckoutVerification). r.id) row' db.verifications;
            },
          )
          else (row, db)
    ]

-- The answer that goes with the recorded row.
abbrev pub answer : Bool → String → CheckoutVerification × Db → CheckoutResult × Db
answer ok code (row, db) = (record { ok = ok; code = code; verification_id = some row.id }, db)

abbrev pub refusal : String → CheckoutResult
refusal code = record { ok = false; code = code; verification_id = none }

module _ (site : Site) (integrations : List Integration) (now : ℕ) (q : Callback) where
  abbrev pub expected : String
  expected =
      site.hmac (checkout_secret site integrations q.merchant_id)
        (append (append q.order_ref "|") q.payment_ref)

  unfoldable pub verify_payment : Order → Option Payment → Db → CheckoutResult × Db
  verify_payment order none db =
      answer false "payment_order_mismatch"
        (record_proof now order none q.payment_ref false "payment_order_mismatch" db)
  verify_payment order (some p) db =
      if not (belongs_to q.order_ref p)
      then answer false "payment_order_mismatch"
          (record_proof now order (some p) q.payment_ref false "payment_order_mismatch" db)
      else if not (is_success p.status) || not (is_paid order.status)
      then answer false "payment_not_captured"
          (record_proof now order (some p) q.payment_ref false "payment_not_captured" db)
      else if num_true order.amount_paise && not (p.amount_paise == order.amount_paise)
      then answer false "payment_amount_mismatch"
          (record_proof now order (some p) q.payment_ref false "payment_amount_mismatch" db)
      else answer true "verified" (record_proof now order (some p) q.payment_ref true "verified" db)

  unfoldable pub verify_order : Order → Db → CheckoutResult × Db
  verify_order order db =
      if not (text_true (checkout_secret site integrations q.merchant_id))
      then (refusal "checkout_secret_not_configured", db)
      else if not (str_eq expected q.signature)
      then answer false "invalid_signature"
          (record_proof now order none q.payment_ref false "invalid_signature" db)
      else verify_payment order (find_row (is_payment_of q) db.payments) db

  unfoldable pub verify_razorpay_checkout : Db → CheckoutResult × Db
  verify_razorpay_checkout db = elim (find_row (is_order_of q) db.orders) [
    | none ↦ (refusal "unknown_order", db)
    | some order ↦ verify_order order db
  ]
