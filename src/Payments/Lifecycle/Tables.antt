-- ===== src/Payments/Lifecycle/Tables.antt =====
-- `apply_event` and `apply_events` of services/api/paytwin_api/services/state_machine.py on the
-- whole payment table: monotone rows, organizations apart, keys.
use mathlib.Core.Logic.{◌≢◌}
use pay_twin_os.Prelude.{
  ℕ, ◌+◌, ◌<◌, ◌≡◌, refl, sym, ap, ◌∙◌, none, some, List, [], ◌∷◌, ◌++◌, arith, eq_iff,
  Option-cases, inl, inr, All, All-imp, String,
}
use pay_twin_os.Table.{find_row, find_row-test}
use pay_twin_os.Table.Keys.{HasKeys, HasKeys-le, HasKeys-snoc, map-append_one, keys-put_row}
use pay_twin_os.Table.Extends.{
  Extends, Extends-imp, Extends-refl, Extends-append, Extends-trans, Extends-put_absent,
  Extends-put_found,
}
use pay_twin_os.Payments.Rows.{Payment, CanonicalEvent, Db}
use pay_twin_os.Payments.Apply.{
  matches_payment, put_payment, new_payment, attach_order, attach_group, ensure_payment, enrich,
  advance_payment, apply_event, apply_events,
}
use pay_twin_os.Payments.Lifecycle.{Later, Later-refl, Later-trans, prepare-Later}
use pay_twin_os.Payments.Lifecycle.Events.{
  Step, Step-refl, payment_keys, Moved, advance_payment-Moved,
}

abbrev pub HasPaymentKeys : Db → Type 0
HasPaymentKeys db = HasKeys db.next_id (payment_keys db)

abbrev Steps : CanonicalEvent → Db → Db → Type 0
Steps e db db' = Extends (Step e) db.payments db'.payments × HasPaymentKeys db'

put_payment-keys : (p : Payment) (db : Db) → payment_keys (put_payment p db) ≡ payment_keys db
put_payment-keys p db = keys-put_row (λ (q : Payment). q.id) p db.payments

same_key : (e : CanonicalEvent) (x y : Payment) → Step e x y → x.id ≡ y.id
same_key e x y s = s.0.same_id

-- The prepared new payment has the event's organization and the next key.
new_payment-facts :
    (now : ℕ) (db : Db) (e : CanonicalEvent)
    → let p = enrich e (attach_group e (new_payment now db e)) in
      (p.organization_id ≡ e.organization_id)
      × (p.id ≡ db.next_id)
      × ((new_payment now db e).id ≡ db.next_id)
unfolding enrich attach_group new_payment
new_payment-facts now db e = ground arith

-- The written row leaves the keys as they were handed out.
flushed-keys :
    (e : CanonicalEvent) (xs : List Payment) (p : Payment) (db : Db) (r : Payment × Db)
    → HasPaymentKeys db
    → Moved e xs p db r
    → HasPaymentKeys (put_payment r.0 r.1)
flushed-keys e xs p db r h m =
    rw (put_payment-keys r.0 r.1, m.keys) (HasKeys-le db.next_id r.1.next_id _ m.next_id h)

-- The event is about a payment that has no row.
apply_new-Steps :
    (now : ℕ) (db : Db) (e : CanonicalEvent)
    → HasPaymentKeys db
    → find_row (matches_payment e) db.payments ≡ none
    → Steps e db (apply_event now db e).1
unfolding apply_event ensure_payment
apply_new-Steps now db e h absent =
    let row = new_payment now db e in
    let p = enrich e (attach_group e row) in
    let db₁ : Db = record db { payments = db.payments ++ row ∷ []; next_id = db.next_id + 1 } in
    let (o, i, k) = new_payment-facts now db e in
    let start =
      Extends-append (Step e) db.payments db.payments (row ∷ [])
        (Extends-refl (Step e) (Step-refl e) db.payments) in
    let m = advance_payment-Moved e db.payments now p db₁ o start in
    let r = advance_payment now p db₁ e in
    let keyed : payment_keys db₁ ≡ payment_keys db ++ db.next_id ∷ [] =
      map-append_one _ row db.payments ∙ ap (λ j. payment_keys db ++ j ∷ []) k in
    let fresh : All (λ j. j ≢ r.0.id) (payment_keys db) =
      All-imp (λ j. j < db.next_id) (λ j. j ≢ r.0.id) (payment_keys db)
        (λ j lt. omega (arith, i, m.hand.same_id)) h.1 in
    rw (absent, apply_event, ensure_payment)
      (
        Extends-put_absent (Step e) (λ (q : Payment). q.id) (same_key e) r.0 db.payments
            r.1.payments fresh m.rows,
        flushed-keys e db.payments p db₁ r (rw keyed (HasKeys-snoc db.next_id _ h)) m,
      )

-- The event is about a payment that has one.
apply_known-Steps :
    (now : ℕ) (db : Db) (e : CanonicalEvent) (row : Payment)
    → HasPaymentKeys db
    → find_row (matches_payment e) db.payments ≡ some row
    → Steps e db (apply_event now db e).1
unfolding apply_event ensure_payment
apply_known-Steps now db e row h found =
    let p = enrich e (attach_group e (attach_order e row)) in
    let matched = find_row-test (matches_payment e) db.payments found in
    let here : row.organization_id ≡ e.organization_id =
      (eq_iff row.organization_id e.organization_id).0 (ground arith) in
    let l = prepare-Later e row in
    let m =
      advance_payment-Moved e db.payments now p db (sym l.same_org ∙ here)
        (Extends-refl (Step e) (Step-refl e) db.payments) in
    let r = advance_payment now p db e in
    let onward = Later-trans row p r.0 l m.hand in
    rw (found, apply_event, ensure_payment)
      (
        Extends-put_found (Step e) (λ (q : Payment). q.id) (same_key e) (matches_payment e) row r.0
            db.payments r.1.payments found onward.same_id (onward, λ ne. absurd (ne here)) h.0
            m.rows,
        flushed-keys e db.payments p db r h m,
      )

pub apply_event-Steps :
    (now : ℕ) (db : Db) (e : CanonicalEvent)
    → HasPaymentKeys db
    → Extends (Step e) db.payments (apply_event now db e).1.payments
      × HasPaymentKeys (apply_event now db e).1
apply_event-Steps now db e h = elim (Option-cases (find_row (matches_payment e) db.payments)) [
  | inl absent ↦ apply_new-Steps now db e h absent
  | inr (row, found) ↦ apply_known-Steps now db e row h found
]

-- From tables whose payment keys were handed out once each, any events in any order keep every
-- payment row at its place and only move it forward: its identity and amount stay, captured,
-- refunded and recovered are never undone, no status returns to `created`, and the refunded amount
-- and the time of the last event never fall. The keys stay distinct and handed out.
pub apply_events_monotone :
    (db : Db) (es : List (ℕ × CanonicalEvent))
    → HasPaymentKeys db
    → Extends Later db.payments (apply_events db es).payments × HasPaymentKeys (apply_events db es)
unfolding apply_events
apply_events_monotone db [] h = (Extends-refl Later Later-refl db.payments, h)
apply_events_monotone db ((now, e) ∷ es) h =
    let db' = (apply_event now db e).1 in
    let (steps, keys) = apply_event-Steps now db e h in
    let (later, keys') = apply_events_monotone db' es keys in
    (
      Extends-trans Later Later-trans db.payments db'.payments _
          (Extends-imp (Step e) Later db.payments db'.payments (λ x y s. s.0) steps) later,
      keys',
    )

-- A row of another organization is as it was.
abbrev pub Apart : String → Payment → Payment → Type 0
Apart org old new = old.organization_id ≢ org → new ≡ old

Apart-trans : (org : String) (x y z : Payment) → Apart org x y → Apart org y z → Apart org x z
Apart-trans org x y z h k ne =
    k (λ e. ne (sym (ap (λ (p : Payment). p.organization_id) (h ne)) ∙ e)) ∙ h ne

-- Events of one organization, any number in any order, leave every payment row of another
-- organization exactly as it was, when the payment keys were handed out once each.
pub apply_events_isolated :
    (org : String) (db : Db) (es : List (ℕ × CanonicalEvent))
    → HasPaymentKeys db
    → All (λ (t : ℕ × CanonicalEvent). t.1.organization_id ≡ org) es
    → Extends (Apart org) db.payments (apply_events db es).payments
unfolding apply_events
apply_events_isolated org db [] h o = Extends-refl (Apart org) (λ x _. refl) db.payments
apply_events_isolated org db ((now, e) ∷ es) h o =
    let db' = (apply_event now db e).1 in
    let (steps, keys) = apply_event-Steps now db e h in
    Extends-trans (Apart org) (Apart-trans org) db.payments db'.payments _
      (Extends-imp (Step e) (Apart org) db.payments db'.payments
        (λ x y s ne. s.1 (λ q. ne (q ∙ o.0))) steps)
      (apply_events_isolated org db' es keys o.1)
