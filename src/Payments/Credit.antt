-- ===== src/Payments/Credit.antt =====
-- What a refund row credits to its payment (`_apply_refund`, `_settle_refund` and
-- `_settle_pending_refunds` of services/api/paytwin_api/services/state_machine.py).
use pay_twin_os.Prelude.{
  ℕ, ◌+◌, ◌≤◌, ◌≡◌, refl, subst, Bool, true, false, List, [], ◌∷◌, arith, ◌==◌, or_option,
  if◌then◌else◌, Bool-cases, inl, inr, All,
}
use pay_twin_os.Payments.Rows.{
  Payment, Refund, RefundStatus, CanonicalEvent, is_captured, is_processed, is_held,
}
use pay_twin_os.Payments.Refunds.{
  refund_status, settle_refund, advance, advance_refund, refund_amount_of, update_refund,
  is_held_for, settle_held,
}

-- What a row counts for in the aggregate of its payment.
abbrev pub credit_of : Refund → ℕ
credit_of row = if is_processed row.status then row.amount_paise else 0

abbrev pub Balanced : Payment → Refund → Payment × Refund → Type 0
Balanced p row (q, row') =
    q.refunded_amount_paise + credit_of row ≡ p.refunded_amount_paise + credit_of row'

-- A status that does not take a processed refund back.
abbrev pub keeps_credit : RefundStatus → Bool
keeps_credit RefundStatus.processed = true
keeps_credit RefundStatus.created = true
keeps_credit RefundStatus.pending = true
keeps_credit RefundStatus.updated = true
keeps_credit _ = false

settle_refund-Balanced :
    (p : Payment) (row : Refund) (at : ℕ)
    → is_processed row.status ≡ false
    → Balanced p row (settle_refund p row at)
unfolding settle_refund
settle_refund-Balanced p row at fresh = ground arith

advance-Balanced :
    (s : RefundStatus) (p : Payment) (row : Refund) (e : CanonicalEvent)
    → (is_processed row.status ≡ true → keeps_credit s ≡ true)
    → Balanced p row (advance s p row e)
unfolding advance
advance-Balanced RefundStatus.processed p row e k =
    ground (arith, settle_refund-Balanced p row e.occurred_at)
advance-Balanced s p row e k = ground arith

-- An event moves a payment's refunded amount by exactly what its refund row comes to count for,
-- provided that it does not take a processed refund back.
pub advance_refund-Balanced :
    (p : Payment) (row : Refund) (e : CanonicalEvent)
    → (is_processed row.status ≡ true → keeps_credit (refund_status e) ≡ true)
    → Balanced p row (advance_refund p row e)
unfolding advance_refund
advance_refund-Balanced p row e k = advance-Balanced (refund_status e) p row e k

advance_processed :
    (s : RefundStatus) (p : Payment) (row : Refund) (e : CanonicalEvent)
    → is_processed row.status ≡ true
    → ((advance s p row e).0 ≡ p)
      × (keeps_credit s ≡ true → is_processed (advance s p row e).1.status ≡ true)
unfolding advance
advance_processed RefundStatus.processed p row e done = (rw done, λ _. rw (done, advance) done)
advance_processed RefundStatus.created p row e done = (refl, λ _. rw (done, advance) done)
advance_processed RefundStatus.pending p row e done = (refl, λ _. rw (done, advance) done)
advance_processed RefundStatus.updated p row e done = (refl, λ _. rw (done, advance) done)
advance_processed s p row e done = (refl, λ k. cc)

-- A redelivery about a processed refund never touches the payment, whatever it says, and leaves the
-- row processed if its amount is the same and its status takes nothing back.
pub update_refund_processed :
    (p : Payment) (row : Refund) (e : CanonicalEvent)
    → is_processed row.status ≡ true
    → ((update_refund p row e).0 ≡ p)
      × (row.amount_paise ≡ refund_amount_of e
          → keeps_credit (refund_status e) ≡ true
          → is_processed (update_refund p row e).1.status ≡ true)
unfolding update_refund advance_refund
update_refund_processed p row e done = elim (Bool-cases (row.amount_paise == refund_amount_of e)) [
  | inl same ↦
      rw (same, update_refund)
        (let a =
            advance_processed (refund_status e) p
              (record row {
                speed_requested = or_option e.payload.refund_speed_requested row.speed_requested;
                speed_processed = or_option e.payload.refund_speed_processed row.speed_processed;
              })
              e done in
          (a.0, λ _. a.1))
  | inr changed ↦ rw (changed, update_refund) (refl, λ eq. absurd (ground arith))
]

-- The sum of what the rows of one payment count for.
abbrev pub credit_total : ℕ → List Refund → ℕ
credit_total id [] = 0
credit_total id (row ∷ rows) =
    (if row.payment_id == id then credit_of row else 0) + credit_total id rows

settle_refund-facts :
    (p : Payment) (row : Refund) (at : ℕ)
    → let (q, row') = settle_refund p row at in
      (q.id ≡ p.id) × (row'.payment_id ≡ row.payment_id) × (is_held row'.status ≡ false)
unfolding settle_refund
settle_refund-facts p row at = ground arith

-- Settling the held refunds of a payment leaves none of its refunds held, and moves its refunded
-- amount by exactly what its rows come to count for.
pub settle_held_none_left :
    (p : Payment) (rows : List Refund) (at : ℕ)
    → let (q, rows') = settle_held p rows at in
      All (λ r. is_held_for p.id r ≡ false) rows'
      × (q.id ≡ p.id)
      × (q.refunded_amount_paise + credit_total p.id rows
          ≡ p.refunded_amount_paise + credit_total p.id rows')
unfolding settle_held
settle_held_none_left p [] at = (tt, refl, refl)
settle_held_none_left p (row ∷ rows) at = elim (Bool-cases (is_held_for p.id row)) [
  | inl held ↦
      let (q, row') = settle_refund p row at in
      let (i, k, free) = settle_refund-facts p row at in
      let b = settle_refund-Balanced p row at (ground arith) in
      let (z, rows') = settle_held q rows at in
      let (none_held, j, sum) =
        subst
          (λ n.
            All (λ r. is_held_for n r ≡ false) rows'
            × (z.id ≡ n)
            × (z.refunded_amount_paise + credit_total n rows
                ≡ q.refunded_amount_paise + credit_total n rows'))
          i (settle_held_none_left q rows at) in
      let hit : (row.payment_id == p.id) ≡ true = ground arith in
      rw held ((ground arith, none_held), j, rw (k, hit) (omega (arith, sum, b)))
  | inr other ↦
      let (none_held, j, sum) = settle_held_none_left p rows at in
      rw other ((other, none_held), j, omega (arith, sum))
]

-- A processed refund that the provider reports as failed and then as processed again is credited
-- twice, if its amount still fits under what was captured: the failure takes nothing back from the
-- payment.
pub reprocessed_refund_credits_twice :
    (p : Payment) (row : Refund) (fails succeeds : CanonicalEvent)
    → is_captured p.status ≡ true
    → is_processed row.status ≡ true
    → p.refunded_amount_paise + row.amount_paise ≤ p.amount_paise
    → refund_amount_of fails ≡ row.amount_paise
    → refund_amount_of succeeds ≡ row.amount_paise
    → refund_status fails ≡ RefundStatus.failed
    → refund_status succeeds ≡ RefundStatus.processed
    → let (q, row') = update_refund p row fails in
      (q ≡ p)
      × ((update_refund q row' succeeds).0.refunded_amount_paise
          ≡ p.refunded_amount_paise + row.amount_paise)
unfolding update_refund advance_refund advance settle_refund
reprocessed_refund_credits_twice p row fails succeeds c done fits a b f s = ground arith
