-- ===== src/Payments/Frame.antt =====
-- What the parts of `apply_event` leave alone: the payment table under everything but the change of
-- status, and the keys that were handed out.
use pay_twin_os.Prelude.{ℕ, ◌≤◌, ◌≡◌, ◌∙◌, Option, arith}
use pay_twin_os.Payments.Rows.{Payment, Order, CanonicalEvent, Db}
use pay_twin_os.Payments.Refunds.{apply_refund, settle_pending_refunds}
use pay_twin_os.Payments.Apply.{
  find_order, ensure_order, mark_order_paid, refund_step, settle_capture, capture_step, conclude,
}

-- The payment table is the same, and keys are only handed out.
pub record Framed (db db' : Db) : Type 0 where
  pub payments : db'.payments ≡ db.payments
  pub next_id : db.next_id ≤ db'.next_id

Framed-trans : (a b c : Db) → Framed a b → Framed b c → Framed a c
Framed-trans a b c h k = record { payments = k.payments ∙ h.payments; next_id = omega arith }

ensure_order-Framed :
    (db : Db) (p : Payment) (e : CanonicalEvent) → Framed db (ensure_order db p e).1
unfolding ensure_order find_order
ensure_order-Framed db p e = ground arith

mark_order_paid-Framed :
    (o : Option Order) (p : Payment) (db : Db) (e : CanonicalEvent)
    → Framed db (mark_order_paid o p db e)
unfolding mark_order_paid
mark_order_paid-Framed o p db e = ground arith

refund_step-Framed : (p : Payment) (db : Db) (e : CanonicalEvent) → Framed db (refund_step p db e).1
unfolding refund_step apply_refund
refund_step-Framed p db e = ground arith

capture_step-Framed :
    (o : Option Order) (p : Payment) (db : Db) (e : CanonicalEvent)
    → Framed db (capture_step o p db e).1
unfolding capture_step settle_capture settle_pending_refunds
capture_step-Framed o p db e = ground (
  arith,
  mark_order_paid-Framed o (settle_pending_refunds p db e.occurred_at).0
      (settle_pending_refunds p db e.occurred_at).1 e,
)

pub conclude-Framed :
    (now : ℕ) (p : Payment) (db : Db) (e : CanonicalEvent) → Framed db (conclude now p db e).1
unfolding conclude
conclude-Framed now p db e =
    let (o, db₁) = ensure_order db p e in
    let (p₂, db₂) = refund_step p db₁ e in
    Framed-trans db db₂ _
      (Framed-trans db db₁ db₂ (ensure_order-Framed db p e) (refund_step-Framed p db₁ e))
      (capture_step-Framed o p₂ db₂ e)
