-- ===== src/Payments/Lifecycle/Events.antt =====
-- Whole events on the payment table: every row against the row before, and the keys.
use mathlib.Core.Logic.{◌≢◌, ◌⊎◌}
use pay_twin_os.Prelude.{
  ℕ, ◌≤◌, ◌≡◌, refl, subst, ◌∙◌, true, Option, none, some, List, map, arith, eq_iff, Bool-cases,
  Option-cases, inl, inr,
}
use pay_twin_os.Table.Keys.{keys-update_where}
use pay_twin_os.Table.Extends.{Extends, Extends-update_where}
use pay_twin_os.Payments.Rows.{
  EventType, PaymentStatus, payment_success, Payment, CanonicalEvent, Db,
}
use pay_twin_os.Payments.Transition.{same_status, target_status, can_transition}
use pay_twin_os.Payments.Apply.{
  mark_recovered, mark_group_recovered, in_group, apply_by_type, apply_status, change_status,
  conclude, advance_payment,
}
use pay_twin_os.Payments.Frame.{conclude-Framed}
use pay_twin_os.Payments.Lifecycle.{
  Later, Later-refl, Later-trans, conclude-Later, apply_by_type-Later, admitted-Later,
}

-- One event against one row: it may only move forward, and not at all in another organization.
abbrev pub Step : CanonicalEvent → Payment → Payment → Type 0
Step e old new = Later old new × (old.organization_id ≢ e.organization_id → new ≡ old)

pub Step-refl : (e : CanonicalEvent) (p : Payment) → Step e p p
Step-refl e p = (Later-refl p, λ _. refl)

abbrev pub payment_keys : Db → List ℕ
payment_keys db = map (λ (p : Payment). p.id) db.payments

-- What an operation on a payment in hand and the tables did, against the rows `xs`.
pub record Moved (e : CanonicalEvent) (xs : List Payment) (p : Payment) (db : Db) (r : Payment × Db)
    : Type 0 where
  pub hand : Later p r.0
  pub rows : Extends (Step e) xs r.1.payments
  pub keys : payment_keys r.1 ≡ payment_keys db
  pub next_id : db.next_id ≤ r.1.next_id

mark_recovered-Later : (p : Payment) → Later p (mark_recovered p)
mark_recovered-Later p = ground arith

-- A row of the group of a payment of the event's organization is of that organization.
mark_recovered-Step :
    (e : CanonicalEvent) (p x y : Payment)
    → p.organization_id ≡ e.organization_id
    → in_group p y ≡ true
    → Step e x y
    → Step e x (mark_recovered y)
mark_recovered-Step e p x y o t s = (
  Later-trans x y (mark_recovered y) s.0 (mark_recovered-Later y),
  λ ne.
      absurd
        (ne (s.0.same_org ∙ (eq_iff y.organization_id p.organization_id).0 (ground arith) ∙ o)),
)

mark_group_recovered-keys :
    (p : Payment) (db : Db) → payment_keys (mark_group_recovered p db).1 ≡ payment_keys db
unfolding mark_group_recovered
mark_group_recovered-keys p db =
    keys-update_where (λ (q : Payment). q.id) (in_group p) mark_recovered db.payments (λ r. refl)

mark_group_recovered-next :
    (p : Payment) (db : Db) → db.next_id ≤ (mark_group_recovered p db).1.next_id
unfolding mark_group_recovered
mark_group_recovered-next p db = omega arith

-- Only a success writes to the tables: it marks the group.
apply_by_type-tables :
    (t : EventType) (target : PaymentStatus) (p : Payment) (db : Db) (e : CanonicalEvent)
    → let db' = (apply_by_type t target p db e).1 in
      (db' ≡ db) ⊎ (db' ≡ (mark_group_recovered p db).1)
unfolding apply_by_type mark_group_recovered
apply_by_type-tables payment_success target p db e = inr refl
apply_by_type-tables _ PaymentStatus.authorized p db e = inl refl
apply_by_type-tables _ _ p db e = inl refl

module _ (e : CanonicalEvent) (xs : List Payment) where
  Moved-refl : (p : Payment) (db : Db) → Extends (Step e) xs db.payments → Moved e xs p db (p, db)
  Moved-refl p db h = record { hand = Later-refl p; rows = h; keys = refl; next_id = omega arith }

  mark_group_recovered-Extends :
      (p : Payment) (db : Db)
      → p.organization_id ≡ e.organization_id
      → Extends (Step e) xs db.payments
      → Extends (Step e) xs (mark_group_recovered p db).1.payments
  unfolding mark_group_recovered
  mark_group_recovered-Extends p db o h =
      Extends-update_where (Step e) (in_group p) mark_recovered
        (λ x y t s. mark_recovered-Step e p x y o t s) xs db.payments h

  apply_by_type-Moved :
      (t : EventType) (target : PaymentStatus) (p : Payment) (db : Db)
      → p.organization_id ≡ e.organization_id
      → Extends (Step e) xs db.payments
      → Moved e xs p db (apply_by_type t target p db e)
  apply_by_type-Moved t target p db o h = elim (apply_by_type-tables t target p db e) [
    | inl same ↦ record {
      hand = apply_by_type-Later t target p db e;
      rows = rw same h;
      keys = rw same;
      next_id = rw same (omega arith);
    }
    | inr marked ↦ record {
      hand = apply_by_type-Later t target p db e;
      rows = rw marked (mark_group_recovered-Extends p db o h);
      keys = rw marked (mark_group_recovered-keys p db);
      next_id = rw marked (mark_group_recovered-next p db);
    }
  ]

  Moved-trans :
      (p : Payment) (db : Db) (q r : Payment × Db)
      → Later p q.0
      → Moved e xs q.0 db r
      → Moved e xs p db r
  Moved-trans p db q r h k = record {
    hand = Later-trans p q.0 r.0 h k.hand;
    rows = k.rows;
    keys = k.keys;
    next_id = k.next_id;
  }

  abbrev MovedIf : Payment → Db → Option (Payment × Db) → Type 0
  MovedIf p db none = Unit
  MovedIf p db (some r) = Moved e xs p db r

  change_status-Moved :
      (p : Payment) (db : Db)
      → p.organization_id ≡ e.organization_id
      → Extends (Step e) xs db.payments
      → MovedIf p db (change_status p db e)
  unfolding change_status apply_status
  change_status-Moved p db o h = elim (Option-cases (target_status e.type)) [
    | inl untargeted ↦ rw (untargeted, change_status) (Moved-refl p db h)
    | inr (target, a) ↦ elim (Bool-cases (can_transition p target e.occurred_at)) [
      | inr refused ↦ rw (a, change_status, refused) tt
      | inl admitted ↦ elim (Bool-cases (same_status target p.status)) [
        | inl same ↦ rw (a, change_status, admitted, same) (Moved-refl p db h)
        | inr moves ↦
            rw (a, change_status, admitted, moves)
              (Moved-trans p db (record p { status = target }, db) _
                (admitted-Later e.type p e.occurred_at a admitted moves)
                (apply_by_type-Moved e.type target (record p { status = target }) db o h))
      ]
    ]
  ]

  conclude-Moved :
      (now : ℕ) (p q : Payment) (db db' : Db)
      → Moved e xs p db (q, db')
      → Moved e xs p db (conclude now q db' e)
  conclude-Moved now p q db db' h =
      let f = conclude-Framed now q db' e in
      record {
        hand = Later-trans p q _ h.hand (conclude-Later now q db' e);
        rows = rw f.payments h.rows;
        keys = rw f.payments h.keys;
        next_id = omega (arith, f.next_id, h.next_id);
      }

  pub advance_payment-Moved :
      (now : ℕ) (p : Payment) (db : Db)
      → p.organization_id ≡ e.organization_id
      → Extends (Step e) xs db.payments
      → Moved e xs p db (advance_payment now p db e)
  unfolding advance_payment
  advance_payment-Moved now p db o h = elim (Option-cases (change_status p db e)) [
    | inl refused ↦ rw (refused, advance_payment) (Moved-refl p db h)
    | inr (r, changed) ↦
        rw (changed, advance_payment)
          (conclude-Moved now p r.0 db r.1
            (subst (MovedIf p db) changed (change_status-Moved p db o h)))
  ]
