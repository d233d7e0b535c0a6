-- ===== src/Payments/Money/Events.antt =====
-- The refund aggregate under whole events and under the repair sweep of
-- services/api/paytwin_api/services/state_machine.py.
use pay_twin_os.Prelude.{
  ℕ, ◌≡◌, refl, subst, inl, inr, true, false, some, List, [], ◌∷◌, ◌==◌, arith, Bool-cases,
  Option-cases, length, All, All-snoc,
}
use mathlib.Core.Bool.{false≢true}
use pay_twin_os.Table.{All-find_row, All-put_row, find_row, rows_where}
use pay_twin_os.Payments.Rows.{Payment, CanonicalEvent, Db, is_captured}
use pay_twin_os.Payments.Transition.{target_status}
use pay_twin_os.Payments.Refunds.{is_held_for, reconcile_pending_refunds}
use pay_twin_os.Payments.Apply.{
  matches_payment, mark_group_recovered, apply_by_type, new_payment, attach_order, attach_group,
  ensure_payment, enrich, apply_status, is_capture_event, change_status, advance_payment,
  apply_event, apply_events,
}
use pay_twin_os.Payments.Money.{
  IsSound, IsSound-same, Sound, SoundIfChanged, settle_pending_refunds-Sound, change_status-Sound,
  conclude-Sound,
}

-- A capture that is not refused leaves a captured payment.
pub change_status_captured :
    (p : Payment) (db : Db) (e : CanonicalEvent) {r : Payment × Db}
    → change_status p db e ≡ some r
    → is_capture_event e.type ≡ true
    → is_captured r.0.status ≡ true
unfolding change_status apply_status apply_by_type target_status mark_group_recovered
change_status_captured p db e h c = ground arith

advance_payment-Sound :
    (now : ℕ) (p : Payment) (db : Db) (e : CanonicalEvent)
    → Sound (p, db)
    → Sound (advance_payment now p db e)
unfolding advance_payment
advance_payment-Sound now p db e h = elim (Option-cases (change_status p db e)) [
  | inl refused ↦ rw (refused, advance_payment) h
  | inr (r, changed) ↦
      rw (changed, advance_payment)
        (conclude-Sound now r.0 r.1 e (change_status_captured p db e changed)
          (subst SoundIfChanged changed (change_status-Sound p db e h)))
]

new_payment-IsSound : (now : ℕ) (db : Db) (e : CanonicalEvent) → IsSound (new_payment now db e)
unfolding new_payment
new_payment-IsSound now db e = ground arith

attach-IsSound : (e : CanonicalEvent) (p : Payment) → IsSound p → IsSound (attach_group e p)
unfolding attach_group
attach-IsSound e p h = ground arith

attach_order-IsSound : (e : CanonicalEvent) (p : Payment) → IsSound p → IsSound (attach_order e p)
unfolding attach_order
attach_order-IsSound e p h = ground arith

ensure_payment-Sound :
    (now : ℕ) (db : Db) (e : CanonicalEvent)
    → All IsSound db.payments
    → Sound (ensure_payment now db e)
unfolding ensure_payment
ensure_payment-Sound now db e h = elim (Option-cases (find_row (matches_payment e) db.payments)) [
  | inl absent ↦
      rw (absent, ensure_payment)
        (
          attach-IsSound e _ (new_payment-IsSound now db e),
          All-snoc IsSound _ db.payments (new_payment-IsSound now db e) h,
        )
  | inr (p, found) ↦
      rw (found, ensure_payment)
        (
          attach-IsSound e _ (
              attach_order-IsSound e p
                (All-find_row IsSound (matches_payment e) db.payments found h)),
          h,
        )
]

pub apply_event-Sound :
    (now : ℕ) (db : Db) (e : CanonicalEvent)
    → All IsSound db.payments
    → All IsSound (apply_event now db e).1.payments
unfolding apply_event enrich
apply_event-Sound now db e h =
    let (a, b) = ensure_payment-Sound now db e h in
    let (c, d) =
      advance_payment-Sound now (enrich e (ensure_payment now db e).0) (ensure_payment now db e).1 e
        (IsSound-same _ _ refl refl refl a, b) in
    All-put_row IsSound (λ (q : Payment). q.id) _ _ c d

-- From tables in which every payment is sound, any events in any order leave every payment sound:
-- no more is refunded than was captured, a payment has the status `refunded` only where all of its
-- amount is refunded, and a payment with a refunded amount has a captured status.
pub apply_events-IsSound :
    (db : Db) (es : List (ℕ × CanonicalEvent))
    → All IsSound db.payments
    → All IsSound (apply_events db es).payments
unfolding apply_events
apply_events-IsSound db [] h = h
apply_events-IsSound db ((now, e) ∷ es) h =
    apply_events-IsSound (apply_event now db e).1 es (apply_event-Sound now db e h)

-- The repair sweep keeps the payment and the payment rows sound. For a payment that is not captured
-- it changes nothing and returns 0; for one that is captured it returns the number of refunds that
-- were held for the payment.
pub reconcile_pending_refunds-Sound :
    (p : Payment) (db : Db) (at : ℕ)
    → Sound (p, db)
    → let r = reconcile_pending_refunds p db at in
      Sound (r.1, r.2)
      × (is_captured p.status ≡ false → r ≡ (0, p, db))
      × (is_captured p.status ≡ true → r.0 ≡ length (rows_where (is_held_for p.id) db.refunds))
unfolding reconcile_pending_refunds
reconcile_pending_refunds-Sound p db at h = elim (Bool-cases (is_captured p.status)) [
  | inr c ↦ rw (c, reconcile_pending_refunds) (h, λ _. refl, λ t. absurd (false≢true t))
  | inl c ↦ elim (Bool-cases (length (rows_where (is_held_for p.id) db.refunds) == 0)) [
    | inl none_held ↦ rw (c, reconcile_pending_refunds, none_held) (h, λ t. cc, λ _. ground arith)
    | inr held ↦
        rw (c, reconcile_pending_refunds, held)
          (settle_pending_refunds-Sound p db at c h, λ t. cc, λ _. refl)
  ]
]
