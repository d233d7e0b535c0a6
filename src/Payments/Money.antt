-- ===== src/Payments/Money.antt =====
-- The refund aggregate of a payment under the parts of `apply_event`; `Events` has the whole.
pub mod Events
use pay_twin_os.Prelude.{
  ℕ, ◌≤◌, ◌<◌, ◌≡◌, refl, subst, ◌⊎◌, inl, inr, Bool, true, false, Option, none, some, List, [],
  ◌∷◌, arith, ◌==◌, Bool-cases, Option-cases, if_intro, All, All-snoc,
}
use mathlib.Core.Option.{some-injective}
use pay_twin_os.Table.{All-find_row, All-put_row, All-update_where, find_row}
use pay_twin_os.Payments.Rows.{
  EventType, payment_failed, payment_success, PaymentStatus, refunded, RefundStatus, Order, Refund,
  Payment, CanonicalEvent, Db, is_captured, is_processed,
}
use pay_twin_os.Payments.Transition.{same_status, target_status, can_transition}
use pay_twin_os.Payments.Refunds.{
  refund_status, settle_refund, advance, advance_refund, refund_amount_of, matches_refund,
  is_held_for, new_refund, update_refund, apply_refund, settle_held, settle_pending_refunds,
  reconcile_pending_refunds,
}
use pay_twin_os.Payments.Apply.{
  matches_payment, mark_recovered, mark_group_recovered, apply_by_type, apply_status, find_order,
  ensure_order, is_capture_event, is_refund_event, refund_step, settle_capture, capture_step, touch,
  mark_order_paid, conclude, change_status,
}

pub record IsSound (p : Payment) : Type 0 where
  pub within : p.refunded_amount_paise ≤ p.amount_paise
  pub full : p.status ≡ refunded → p.refunded_amount_paise ≡ p.amount_paise
  pub captured : 0 < p.refunded_amount_paise → is_captured p.status ≡ true

settle_refund-IsSound :
    (p : Payment) (row : Refund) (at : ℕ)
    → is_captured p.status ≡ true
    → IsSound p
    → IsSound (settle_refund p row at).0 × (is_captured (settle_refund p row at).0.status ≡ true)
unfolding settle_refund
settle_refund-IsSound p row at c h = ground arith

advance-IsSound :
    (s : RefundStatus) (p : Payment) (row : Refund) (e : CanonicalEvent)
    → IsSound p
    → IsSound (advance s p row e).0
unfolding advance
advance-IsSound RefundStatus.processed p row e h = elim (Bool-cases (is_processed row.status)) [
  | inl done ↦ rw done h
  | inr fresh ↦ rw fresh (elim (Bool-cases (is_captured p.status)) [
    | inl c ↦ rw c (settle_refund-IsSound p row e.occurred_at c h).0
    | inr c ↦ rw c h
  ])
]
advance-IsSound s p row e h = h

update_refund-IsSound :
    (p : Payment) (row : Refund) (e : CanonicalEvent)
    → IsSound p
    → IsSound (update_refund p row e).0
unfolding update_refund advance_refund
update_refund-IsSound p row e h = elim (Bool-cases (row.amount_paise == refund_amount_of e)) [
  | inl same ↦ rw same (advance-IsSound (refund_status e) p _ e h)
  | inr changed ↦ rw changed h
]

-- What an operation leaves: the payment in hand and every payment row.
abbrev pub Sound : Payment × Db → Type 0
Sound (p, db) = IsSound p × All IsSound db.payments

apply_refund-Sound :
    (p : Payment) (db : Db) (e : CanonicalEvent) → Sound (p, db) → Sound (apply_refund p db e)
unfolding apply_refund advance_refund
apply_refund-Sound p db e h = elim (Option-cases (find_row (matches_refund e) db.refunds)) [
  | inl absent ↦
      rw (absent, apply_refund, advance_refund)
        (advance-IsSound (refund_status e) p (new_refund db p e) e h.0, h.1)
  | inr (row, found) ↦ rw (found, apply_refund) (update_refund-IsSound p row e h.0, h.1)
]

settle_held-IsSound :
    (p : Payment) (rows : List Refund) (at : ℕ)
    → is_captured p.status ≡ true
    → IsSound p
    → IsSound (settle_held p rows at).0
unfolding settle_held
settle_held-IsSound p [] at c h = h
settle_held-IsSound p (row ∷ rows) at c h = elim (Bool-cases (is_held_for p.id row)) [
  | inl held ↦ rw held (
      settle_held-IsSound (settle_refund p row at).0 rows at (settle_refund-IsSound p row at c h).1
        (settle_refund-IsSound p row at c h).0)
  | inr other ↦ rw other (settle_held-IsSound p rows at c h)
]

pub settle_pending_refunds-Sound :
    (p : Payment) (db : Db) (at : ℕ)
    → is_captured p.status ≡ true
    → Sound (p, db)
    → Sound (settle_pending_refunds p db at)
unfolding settle_pending_refunds
settle_pending_refunds-Sound p db at c h = (settle_held-IsSound p db.refunds at c h.0, h.1)

-- The fields of which the invariant speaks.
pub IsSound-same :
    (p q : Payment)
    → q.refunded_amount_paise ≡ p.refunded_amount_paise
    → q.amount_paise ≡ p.amount_paise
    → q.status ≡ p.status
    → IsSound p
    → IsSound q
IsSound-same p q a b c h = ground arith

apply_by_type-Sound :
    (t : EventType) (target : PaymentStatus) (p : Payment) (db : Db) (e : CanonicalEvent)
    → Sound (p, db)
    → Sound (apply_by_type t target p db e)
unfolding apply_by_type mark_group_recovered
apply_by_type-Sound payment_failed target p db e h = (IsSound-same p _ refl refl refl h.0, h.1)
apply_by_type-Sound payment_success target p db e h = (
  IsSound-same p _ refl refl refl h.0,
  All-update_where IsSound _ mark_recovered db.payments
      (λ r k. IsSound-same r (mark_recovered r) refl refl refl k) h.1,
)
apply_by_type-Sound _ PaymentStatus.authorized p db e h = (IsSound-same p _ refl refl refl h.0, h.1)
apply_by_type-Sound _ _ p db e h = h

-- No event has `refunded` for its target, and what may leave a captured status is no event's.
target_status-keeps :
    (t : EventType) (p : Payment) (at : ℕ) {target : PaymentStatus}
    → target_status t ≡ some target
    → can_transition p target at ≡ true
    → IsSound p
    → IsSound (record p { status = target })
unfolding target_status can_transition
target_status-keeps t p at a b h = ground arith

abbrev pub SoundIfChanged : Option (Payment × Db) → Type 0
SoundIfChanged none = Unit
SoundIfChanged (some r) = Sound r

pub change_status-Sound :
    (p : Payment) (db : Db) (e : CanonicalEvent)
    → Sound (p, db)
    → SoundIfChanged (change_status p db e)
unfolding change_status apply_status
change_status-Sound p db e h = elim (Option-cases (target_status e.type)) [
  | inl untargeted ↦ rw (untargeted, change_status) h
  | inr (target, a) ↦ elim (Bool-cases (can_transition p target e.occurred_at)) [
    | inl c ↦
        rw (a, change_status, c)
          (if_intro (λ o. SoundIfChanged o) (same_status target p.status) h
            (apply_by_type-Sound e.type target (record p { status = target }) db e
              (target_status-keeps e.type p e.occurred_at a c h.0, h.1)))
    | inr c ↦ rw (a, change_status, c) tt
  ]
]

ensure_order-payments :
    (db : Db) (p : Payment) (e : CanonicalEvent) → (ensure_order db p e).1.payments ≡ db.payments
unfolding ensure_order find_order
ensure_order-payments db p e = ground arith

mark_order_paid-payments :
    (o : Option Order) (p : Payment) (db : Db) (e : CanonicalEvent)
    → (mark_order_paid o p db e).payments ≡ db.payments
unfolding mark_order_paid
mark_order_paid-payments o p db e = ground arith

refund_step-Sound :
    (p : Payment) (db : Db) (e : CanonicalEvent) → Sound (p, db) → Sound (refund_step p db e)
unfolding refund_step
refund_step-Sound p db e h =
    if_intro (λ r. Sound r) (is_refund_event e.type) (apply_refund-Sound p db e h) h

settle_capture-Sound :
    (o : Option Order) (p : Payment) (db : Db) (e : CanonicalEvent)
    → is_captured p.status ≡ true
    → Sound (p, db)
    → Sound (settle_capture o p db e)
unfolding settle_capture
settle_capture-Sound o p db e c h =
    let (a, b) = settle_pending_refunds-Sound p db e.occurred_at c h in
    (a, rw mark_order_paid-payments b)

capture_step-Sound :
    (o : Option Order) (p : Payment) (db : Db) (e : CanonicalEvent)
    → (is_capture_event e.type ≡ true → is_captured p.status ≡ true)
    → Sound (p, db)
    → Sound (capture_step o p db e)
unfolding capture_step
capture_step-Sound o p db e c h = elim (Bool-cases (is_capture_event e.type)) [
  | inl capture ↦ rw capture (settle_capture-Sound o p db e (c capture) h)
  | inr other ↦ rw other h
]

pub refund_step_capture :
    (p : Payment) (db : Db) (e : CanonicalEvent)
    → is_capture_event e.type ≡ true
    → refund_step p db e ≡ (p, db)
unfolding refund_step
refund_step_capture p db e c = ground arith

pub conclude-Sound :
    (now : ℕ) (p : Payment) (db : Db) (e : CanonicalEvent)
    → (is_capture_event e.type ≡ true → is_captured p.status ≡ true)
    → Sound (p, db)
    → Sound (conclude now p db e)
unfolding conclude touch
conclude-Sound now p db e c h =
    let db₁ = (ensure_order db p e).1 in
    let refunded_sound = refund_step-Sound p db₁ e (h.0, rw ensure_order-payments h.1) in
    let (a, b) =
      capture_step-Sound (ensure_order db p e).0 (refund_step p db₁ e).0 (refund_step p db₁ e).1 e
        (λ t. rw (refund_step_capture p db₁ e t) (c t)) refunded_sound in
    (IsSound-same _ _ refl refl refl a, b)
