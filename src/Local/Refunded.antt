-- ===== src/Local/Refunded.antt =====
-- What a simulated refund does to its payment
-- (services/api/paytwin_api/services/razorpay_local.py and state_machine.py).
use pay_twin_os.Prelude.{
  List, ℕ, ◌+◌, ◌-◌, ◌≤◌, ◌≡◌, refl, sym, ap, ◌∙◌, subst, String, true, not, Option, none, some,
  ◌||◌, ltb, arith, or_text, Result, ok, ◌>>◌, raise_if, or_raise, >>=-ok, raise_if-ok, or_raise-ok,
}
use pay_twin_os.Table.{find_row}
use pay_twin_os.Payments.Rows.{
  refund_created, RefundStatus, Payment, Refund, CanonicalEvent, Db, is_captured,
}
use pay_twin_os.Payments.Refunds.{
  refund_status, refund_amount_of, matches_refund, settle_refund, advance, advance_refund,
  new_refund, apply_refund,
}
use pay_twin_os.Payments.Transition.{target_status}
use pay_twin_os.Payments.Apply.{
  matches_payment, attach_order, attach_group, ensure_payment, enrich, find_order, ensure_order,
  refund_step, capture_step, touch, conclude, change_status, advance_payment, apply_event,
}
use pay_twin_os.Connectors.Dialect.{Library, Owner, with_default}
use pay_twin_os.Connectors.Razorpay.{
  Webhook, RefundEntity, normalize, refund_processed_event, status_named,
}
use pay_twin_os.Connectors.RefundEntity.{some_injective, normalize-refund_entity}
use pay_twin_os.Local.Emulator.{
  LocalError, payment_not_found, not_captured, bad_amount, has_payment_ref, refund_webhook,
  ingested, simulate_refund,
}

settle_refund_credits :
    (q : Payment) (row : Refund) (at : ℕ)
    → q.refunded_amount_paise + row.amount_paise ≤ q.amount_paise
    → (settle_refund q row at).0.refunded_amount_paise ≡ q.refunded_amount_paise + row.amount_paise
unfolding settle_refund
settle_refund_credits q row at fits = ground arith

apply_refund_credits :
    (q : Payment) (db : Db) (e : CanonicalEvent)
    → is_captured q.status ≡ true
    → refund_status e ≡ RefundStatus.processed
    → find_row (matches_refund e) db.refunds ≡ none
    → q.refunded_amount_paise + refund_amount_of e ≤ q.amount_paise
    → (apply_refund q db e).0.refunded_amount_paise ≡ q.refunded_amount_paise + refund_amount_of e
unfolding apply_refund advance_refund advance settle_refund new_refund
apply_refund_credits q db e captured processed fresh fits =
    rw (fresh, apply_refund, processed, captured)
      (settle_refund_credits q (new_refund db q e) e.occurred_at fits)

ensure_order_refunds :
    (q : Payment) (db : Db) (e : CanonicalEvent) → (ensure_order db q e).1.refunds ≡ db.refunds
unfolding ensure_order find_order
ensure_order_refunds q db e = ground arith

conclude_refund :
    (now : ℕ) (q : Payment) (db : Db) (e : CanonicalEvent)
    → e.type ≡ refund_created
    → (conclude now q db e).0.refunded_amount_paise
      ≡ (apply_refund q (ensure_order db q e).1 e).0.refunded_amount_paise
unfolding conclude refund_step capture_step touch
conclude_refund now q db e is_refund = rw (is_refund) refl

-- The payment in hand keeps its amounts and its status until the refund is applied.
enriched_same :
    (e : CanonicalEvent) (p : Payment)
    → let q = enrich e (attach_group e (attach_order e p)) in
      (q.status ≡ p.status)
      × (q.amount_paise ≡ p.amount_paise)
      × (q.refunded_amount_paise ≡ p.refunded_amount_paise)
unfolding enrich attach_group attach_order
enriched_same e p = (ground arith, ground arith, ground arith)

advance_payment_refund :
    (now : ℕ) (q : Payment) (db : Db) (e : CanonicalEvent)
    → e.type ≡ refund_created
    → advance_payment now q db e ≡ conclude now q db e
unfolding advance_payment change_status target_status
advance_payment_refund now q db e is_refund = rw (is_refund) refl

ensure_payment_found :
    (now : ℕ) (db : Db) (e : CanonicalEvent) (p : Payment)
    → find_row (matches_payment e) db.payments ≡ some p
    → ensure_payment now db e ≡ (attach_group e (attach_order e p), db)
unfolding ensure_payment
ensure_payment_found now db e p found = rw (found, ensure_payment) refl

-- A new refund that is reported as processed, and fits into what is left of its captured payment, is
-- credited to the payment in full.
pub apply_event_refund :
    (now : ℕ) (db : Db) (e : CanonicalEvent) (p : Payment)
    → find_row (matches_payment e) db.payments ≡ some p
    → e.type ≡ refund_created
    → is_captured p.status ≡ true
    → refund_status e ≡ RefundStatus.processed
    → find_row (matches_refund e) db.refunds ≡ none
    → p.refunded_amount_paise + refund_amount_of e ≤ p.amount_paise
    → (apply_event now db e).0.refunded_amount_paise ≡ p.refunded_amount_paise + refund_amount_of e
unfolding apply_event
apply_event_refund now db e p found is_refund captured processed fresh fits =
    let q = enrich e (attach_group e (attach_order e p)) in
    let (status, amount, refunded) = enriched_same e p in
    let same = ensure_order_refunds q db e in
    ap (λ (r : Payment × Db). (advance_payment now (enrich e r.0) r.1 e).0.refunded_amount_paise)
      (ensure_payment_found now db e p found)
    ∙ ap (λ (r : Payment × Db). r.0.refunded_amount_paise)
        (advance_payment_refund now q db e is_refund)
    ∙ conclude_refund now q db e is_refund
    ∙ apply_refund_credits q (ensure_order db q e).1 e (ap is_captured status ∙ captured) processed
        (ap (λ (rows : List Refund). find_row (matches_refund e) rows) same ∙ fresh)
        (omega (arith, amount, refunded, fits))
    ∙ ap (λ (n : ℕ). n + refund_amount_of e) refunded

processed_status :
    (e : CanonicalEvent)
    → e.type ≡ refund_created
    → e.payload.refund_status ≡ some RefundStatus.processed
    → refund_status e ≡ RefundStatus.processed
unfolding refund_status
processed_status e is_refund named = rw (is_refund, named) refl

module _ (l : Library) (owner : Owner) (event_id : String) (at now : ℕ) where
  ingested-ok :
      (w : Webhook) (db : Db) (e : CanonicalEvent) {after : Db}
      → normalize l owner (some event_id) w ≡ ok e
      → ingested l owner event_id at now w db ≡ ok after
      → after ≡ (apply_event now db e).1
  unfolding ingested
  ingested-ok w db e read h = ground arith

  -- What the tests of the emulator leave of a request.
  accepted :
      (p : Payment) (amount : ℕ) (rest : Result LocalError Db) {after : Db}
      → (raise_if (not (is_captured p.status)) not_captured
          >> (raise_if
                (ltb amount 1 || ltb (p.amount_paise - p.refunded_amount_paise) amount)
                bad_amount
              >> rest))
        ≡ ok after
      → (is_captured p.status ≡ true)
        × (p.refunded_amount_paise + amount ≤ p.amount_paise)
        × (rest ≡ ok after)
  accepted p amount rest h =
      let (c, h1) = raise_if-ok (not (is_captured p.status)) not_captured _ h in
      let (b, h2) =
        raise_if-ok (ltb amount 1 || ltb (p.amount_paise - p.refunded_amount_paise) amount)
          bad_amount rest h1 in
      (ground arith, ground arith, h2)

  -- The refund that the emulator sends, as the adapter reads it.
  read_refund :
      (p : Payment) (refund_ref : String) (amount : ℕ) (receipt : Option String)
      (e : CanonicalEvent)
      → normalize l owner (some event_id) (refund_webhook p refund_ref amount receipt at) ≡ ok e
      → (refund_amount_of e ≡ amount)
        × (refund_status e ≡ RefundStatus.processed)
        × (e.type ≡ refund_created)
  read_refund p refund_ref amount receipt e read =
      let w = refund_webhook p refund_ref amount receipt at in
      let (r, there, (_, count, _, status, credited, type)) =
        normalize-refund_entity l owner (some event_id) w {event = refund_processed_event} refl refl
          refl read in
      let entity = some_injective there in
      let same : some amount ≡ some e.amount_paise =
        ap (λ (x : RefundEntity). with_default 0 x.amount) entity ∙ count in
      (
        credited ∙ sym (some_injective same),
        processed_status e type (
            status
            ∙ sym (
                ap (λ (x : RefundEntity). some (status_named (or_text x.status "processed")))
                  entity)),
        type,
      )

  -- A refund that the emulator accepts comes to no more than what is left of its payment, and the
  -- state machine credits it in full to the payment, provided that the payment that the event names is
  -- the one that the emulator found, and no refund has its name yet.
  pub simulate_refund-credited :
      (refund_ref payment_ref : String) (amount : ℕ) (receipt : Option String) (db : Db)
      (p : Payment) (e : CanonicalEvent) {after : Db}
      → find_row (has_payment_ref owner.merchant_id payment_ref) db.payments ≡ some p
      → normalize l owner (some event_id) (refund_webhook p refund_ref amount receipt at) ≡ ok e
      → find_row (matches_payment e) db.payments ≡ some p
      → find_row (matches_refund e) db.refunds ≡ none
      → simulate_refund l owner event_id at now refund_ref payment_ref amount receipt db ≡ ok after
      → (after ≡ (apply_event now db e).1)
        × ((apply_event now db e).0.refunded_amount_paise ≡ p.refunded_amount_paise + amount)
        × (p.refunded_amount_paise + amount ≤ p.amount_paise)
  unfolding simulate_refund
  simulate_refund-credited refund_ref payment_ref amount receipt db p e {after} found read named
        fresh h =
      let (q, there, h1) =
        >>=-ok
          (or_raise (find_row (has_payment_ref owner.merchant_id payment_ref) db.payments)
            payment_not_found)
          _ h in
      let same : q ≡ p = some_injective (
        sym (
          or_raise-ok (find_row (has_payment_ref owner.merchant_id payment_ref) db.payments)
            payment_not_found there)
        ∙ found) in
      let (captured, fits, sent) =
        accepted p amount
          (ingested l owner event_id at now (refund_webhook p refund_ref amount receipt at) db)
          (subst
            (λ (x : Payment).
              (raise_if (not (is_captured x.status)) not_captured
                >> (raise_if (ltb amount 1 || ltb (x.amount_paise - x.refunded_amount_paise) amount)
                      bad_amount
                    >> ingested l owner event_id at now
                        (refund_webhook x refund_ref amount receipt at) db))
              ≡ ok after)
            same h1) in
      let (count, processed, type) = read_refund p refund_ref amount receipt e read in
      let credited =
        apply_event_refund now db e p named type captured processed fresh
          (subst (λ (n : ℕ). p.refunded_amount_paise + n ≤ p.amount_paise) (sym count) fits) in
      (
        ingested-ok (refund_webhook p refund_ref amount receipt at) db e read sent,
        credited ∙ ap (λ (n : ℕ). p.refunded_amount_paise + n) count,
        fits,
      )
