-- ===== src/Payments/Lifecycle.antt =====
-- What one event may do to one payment: the relation `Later` between a payment and the same payment
-- after it, shown for each part of `apply_event`; `Events` has the whole tables.
pub mod Events
pub mod Tables
use pay_twin_os.Prelude.{
  ℕ, ◌≤◌, ◌≡◌, refl, Bool, true, false, Option, none, some, List, [], ◌∷◌, arith, Bool-cases,
  Option-cases, if_intro, not, ◌==◌, inl, inr, String,
}
use pay_twin_os.Table.{find_row}
use pay_twin_os.Payments.Rows.{
  EventType, PaymentStatus, created, refunded, RefundStatus, Refund, Order, Payment, CanonicalEvent,
  Db, is_captured, is_processed,
}
use pay_twin_os.Payments.Transition.{same_status, target_status, can_transition}
use pay_twin_os.Payments.Refunds.{
  settle_refund, advance, advance_refund, refund_status, matches_refund, refund_amount_of,
  update_refund, apply_refund, is_held_for, settle_held, settle_pending_refunds,
}
use pay_twin_os.Payments.Apply.{
  mark_group_recovered, mark_recovered, attach_order, attach_group, enrich, apply_by_type,
  apply_status, change_status, is_refund_event, is_capture_event, refund_step, settle_capture,
  capture_step, touch, conclude, advance_payment, ensure_order,
}

-- The identity and the principal of a payment never change; a captured payment stays captured, a
-- refunded one refunded, a recovered one recovered; nothing goes back to `created`; the refunded
-- amount and the time of the last event never fall.
pub record Later (old new : Payment) : Type 0 where
  pub same_id : old.id ≡ new.id
  pub same_org : old.organization_id ≡ new.organization_id
  pub same_merchant : old.merchant_id ≡ new.merchant_id
  pub same_provider : old.provider ≡ new.provider
  pub same_ref : old.payment_ref ≡ new.payment_ref
  pub same_amount : old.amount_paise ≡ new.amount_paise
  pub captured_stays : is_captured old.status ≡ true → is_captured new.status ≡ true
  pub refunded_stays : old.status ≡ refunded → new.status ≡ refunded
  pub created_before : new.status ≡ created → old.status ≡ created
  pub recovered_stays : old.recovered ≡ true → new.recovered ≡ true
  pub refunds_grow : old.refunded_amount_paise ≤ new.refunded_amount_paise
  pub time_grows : old.occurred_at ≤ new.occurred_at

pub Later-refl : (p : Payment) → Later p p
Later-refl p = ground arith

pub Later-trans : (p q r : Payment) → Later p q → Later q r → Later p r
Later-trans p q r h k = ground arith

settle_refund-Later : (p : Payment) (row : Refund) (at : ℕ) → Later p (settle_refund p row at).0
unfolding settle_refund
settle_refund-Later p row at = ground arith

advance-Later :
    (s : RefundStatus) (p : Payment) (row : Refund) (e : CanonicalEvent)
    → Later p (advance s p row e).0
unfolding advance
advance-Later RefundStatus.processed p row e = elim (Bool-cases (is_processed row.status)) [
  | inl done ↦ rw done (Later-refl p)
  | inr fresh ↦ rw fresh (
      if_intro (λ (r : Payment × Refund). Later p r.0) (is_captured p.status)
        (settle_refund-Later p row e.occurred_at) (Later-refl p))
]
advance-Later s p row e = Later-refl p

apply_refund-Later : (p : Payment) (db : Db) (e : CanonicalEvent) → Later p (apply_refund p db e).0
unfolding apply_refund update_refund advance_refund
apply_refund-Later p db e = elim (Option-cases (find_row (matches_refund e) db.refunds)) [
  | inl absent ↦ rw (absent, apply_refund) (advance-Later (refund_status e) p _ e)
  | inr (row, found) ↦
      rw (found, apply_refund)
        (if_intro (λ (r : Payment × Refund). Later p r.0)
          (not (row.amount_paise == refund_amount_of e)) (Later-refl p)
          (advance-Later (refund_status e) p _ e))
]

settle_held-Later : (p : Payment) (rows : List Refund) (at : ℕ) → Later p (settle_held p rows at).0
unfolding settle_held
settle_held-Later p [] at = Later-refl p
settle_held-Later p (row ∷ rows) at = elim (Bool-cases (is_held_for p.id row)) [
  | inl held ↦ rw held (
      Later-trans p _ _ (settle_refund-Later p row at)
        (settle_held-Later (settle_refund p row at).0 rows at))
  | inr other ↦ rw other (settle_held-Later p rows at)
]

refund_step-Later : (p : Payment) (db : Db) (e : CanonicalEvent) → Later p (refund_step p db e).0
unfolding refund_step
refund_step-Later p db e =
    if_intro (λ (r : Payment × Db). Later p r.0) (is_refund_event e.type)
      (apply_refund-Later p db e) (Later-refl p)

capture_step-Later :
    (o : Option Order) (p : Payment) (db : Db) (e : CanonicalEvent)
    → Later p (capture_step o p db e).0
unfolding capture_step settle_capture settle_pending_refunds
capture_step-Later o p db e =
    if_intro (λ (r : Payment × Db). Later p r.0) (is_capture_event e.type)
      (settle_held-Later p db.refunds e.occurred_at) (Later-refl p)

touch-Later : (now : ℕ) (e : CanonicalEvent) (p : Payment) → Later p (touch now e p)
unfolding touch
touch-Later now e p = ground arith

pub conclude-Later :
    (now : ℕ) (p : Payment) (db : Db) (e : CanonicalEvent) → Later p (conclude now p db e).0
unfolding conclude
conclude-Later now p db e =
    let (o, db₁) = ensure_order db p e in
    let (p₂, db₂) = refund_step p db₁ e in
    let (p₃, db₃) = capture_step o p₂ db₂ e in
    Later-trans p p₂ _ (refund_step-Later p db₁ e)
      (Later-trans p₂ p₃ _ (capture_step-Later o p₂ db₂ e) (touch-Later now e p₃))

pub prepare-Later :
    (e : CanonicalEvent) (p : Payment) → Later p (enrich e (attach_group e (attach_order e p)))
unfolding enrich attach_group attach_order
prepare-Later e p = ground arith

-- The change of status, for a target that the lifecycle admits.
pub apply_by_type-Later :
    (t : EventType) (target : PaymentStatus) (p : Payment) (db : Db) (e : CanonicalEvent)
    → Later p (apply_by_type t target p db e).0
unfolding apply_by_type mark_group_recovered
apply_by_type-Later t target p db e = ground arith

pub admitted-Later :
    (t : EventType) (p : Payment) (at : ℕ) {target : PaymentStatus}
    → target_status t ≡ some target
    → can_transition p target at ≡ true
    → same_status target p.status ≡ false
    → Later p (record p { status = target })
unfolding target_status can_transition
admitted-Later t p at a c d = ground arith
