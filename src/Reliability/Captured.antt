-- ===== src/Reliability/Captured.antt =====
-- INV-001 of the correct handler: a fulfilment only for a captured payment, and the payment's status
-- is not taken back by an event that is late or out of order.
use pay_twin_os.Prelude.{
  ◌+◌, ◌≡◌, refl, sym, subst, ◌⊎◌, inl, inr, String, Bool, true, false, not, Option, none, some,
  List, [], ◌∷◌, ◌++◌, ◌&&◌, eq_iff, eq_refl, str_eq, ltb, if_split, num_true, get_or, All, All-imp,
  All-snoc,
}
use pay_twin_os.Reliability.Events.{
  LabType, payment_authorized, payment_captured, payment_failed, order_paid, refund_processed,
  agent_purchase, other, LabEvent, LabStatus, is_captured, LabPayment, LabOrder, Dict, correct,
  EffectKind, is_fulfilment, Effect, World, Note, lookup, insert,
}
use pay_twin_os.Reliability.Engine.{
  effect_of, add_effect, order_of, payment_of, authorize, fail, fulfil, apply_type, deliver,
  new_world,
}
use pay_twin_os.Reliability.Invariants.{uncaptured_fulfilment, no_fulfilment_without_captured}
use pay_twin_os.Reliability.Dicts.{lookup-insert, any_of-eq-false}
use pay_twin_os.Reliability.Correct.{deliver_keeps}

-- The payment row that a step writes, and the one effect that it may add.
record Recorded (w : World) (ev : LabEvent) (w' : World) : Type 0 where
  pub pay : LabPayment
  pub payments : w'.payments ≡ insert ev.payment_id pay w.payments
  pub stays : is_captured (payment_of w ev).status ≡ true → is_captured pay.status ≡ true
  pub effects :
      (w'.effects ≡ w.effects)
      ⊎ ((k : EffectKind) × (w'.effects ≡ w.effects ++ effect_of k ev ∷ [])
          × (is_fulfilment k ≡ true → is_captured pay.status ≡ true))

authorize-captured : (s : LabStatus) → is_captured s ≡ true → is_captured (authorize s) ≡ true
authorize-captured LabStatus.captured h = refl
authorize-captured LabStatus.created h = absurd (cc)
authorize-captured LabStatus.authorized h = absurd (cc)
authorize-captured LabStatus.failed h = absurd (cc)

fail-captured : (s : LabStatus) → is_captured s ≡ true → is_captured (fail s) ≡ true
fail-captured LabStatus.captured h = refl
fail-captured LabStatus.created h = absurd (cc)
fail-captured LabStatus.authorized h = absurd (cc)
fail-captured LabStatus.failed h = absurd (cc)

abbrev wrote : World → LabEvent → LabPayment → Dict LabOrder → Bool → World
wrote w ev pay os used = record w {
  payments = insert ev.payment_id pay w.payments;
  orders = os;
  mandate_used = used;
}

quiet :
    (w : World) (ev : LabEvent) (pay : LabPayment) (os : Dict LabOrder) (used : Bool)
    → (is_captured (payment_of w ev).status ≡ true → is_captured pay.status ≡ true)
    → Recorded w ev (wrote w ev pay os used)
quiet w ev pay os used s = record { pay = pay; payments = refl; stays = s; effects = inl refl }

acting :
    (k : EffectKind) (w : World) (ev : LabEvent) (pay : LabPayment) (os : Dict LabOrder)
    (used : Bool)
    → (is_captured (payment_of w ev).status ≡ true → is_captured pay.status ≡ true)
    → (is_fulfilment k ≡ true → is_captured pay.status ≡ true)
    → Recorded w ev (add_effect k ev (wrote w ev pay os used))
acting k w ev pay os used s c = record {
  pay = pay;
  payments = refl;
  stays = s;
  effects = inr (k, refl, c);
}

apply_type-Recorded :
    (t : LabType) (w : World) (ev : LabEvent) → Recorded w ev (apply_type t w correct ev).0
unfolding apply_type fulfil
apply_type-Recorded payment_authorized w ev =
    quiet w ev _ w.orders w.mandate_used (authorize-captured (payment_of w ev).status)
apply_type-Recorded payment_captured w ev =
    if_split (Recorded w ev) (num_true (order_of w ev).fulfilled_count)
      (λ _. quiet w ev _ _ w.mandate_used (λ _. refl))
      (λ _. acting EffectKind.fulfilment w ev _ _ w.mandate_used (λ _. refl) (λ _. refl))
apply_type-Recorded payment_failed w ev =
    quiet w ev _ w.orders w.mandate_used (fail-captured (payment_of w ev).status)
apply_type-Recorded refund_processed w ev =
    if_split (λ (r : World × Note). Recorded w ev r.0)
      (ltb (payment_of w ev).captured_amount ((payment_of w ev).refunded_total + ev.amount))
      (λ _. quiet w ev _ w.orders w.mandate_used (λ h. h))
      (λ _. acting EffectKind.refund w ev _ w.orders w.mandate_used (λ h. h) (λ h. absurd (cc)))
apply_type-Recorded agent_purchase w ev =
    if_split (λ (r : World × Note). Recorded w ev r.0) w.mandate_used
      (λ _. quiet w ev _ w.orders w.mandate_used (λ h. h))
      (λ _. acting EffectKind.purchase w ev _ w.orders true (λ h. h) (λ h. absurd (cc)))
apply_type-Recorded order_paid w ev = quiet w ev _ _ w.mandate_used (λ h. h)
apply_type-Recorded other w ev = quiet w ev _ w.orders w.mandate_used (λ h. h)

abbrev captured_in : Option LabPayment → Bool
captured_in none = false
captured_in (some pay) = is_captured pay.status

abbrev Backed : World → Effect → Type 0
Backed w e = is_fulfilment e.kind ≡ true → captured_in (lookup e.payment_id w.payments) ≡ true

status-of :
    (o : Option LabPayment) (d : LabPayment)
    → captured_in o ≡ true
    → is_captured (get_or o d).status ≡ true
status-of none d h = absurd (cc)
status-of (some pay) d h = h

not_uncaptured : (w : World) (e : Effect) → Backed w e → uncaptured_fulfilment w e ≡ false
not_uncaptured w e h = split (is_fulfilment e.kind) (lookup e.payment_id w.payments) h
  where
    split :
        (b : Bool) (o : Option LabPayment)
        → (b ≡ true → captured_in o ≡ true)
        → (b && (elim o [ none ↦ true | some pay ↦ not (is_captured pay.status) ])) ≡ false
    split false o g = refl
    split true none g = absurd (cc (g refl))
    split true (some pay) g = rw (g refl) refl

Backed-insert :
    (w w' : World) (ev : LabEvent) (r : Recorded w ev w') (e : Effect) → Backed w e → Backed w' e
Backed-insert w w' ev r e h f =
    rw (r.payments, lookup-insert ev.payment_id e.payment_id r.pay w.payments)
      (if_split (λ o. captured_in o ≡ true) (str_eq ev.payment_id e.payment_id)
        (λ same. r.stays (
          status-of _ _ (
            subst (λ k. captured_in (lookup k w.payments) ≡ true)
              (sym ((eq_iff ev.payment_id e.payment_id).0 same)) (h f))))
        (λ _. h f))

Backed-acts :
    (w w' : World) (ev : LabEvent)
    → Recorded w ev w'
    → All (Backed w) w.effects
    → All (Backed w') w'.effects
Backed-acts w w' ev r a =
    let old : All (Backed w') w.effects = All-imp _ _ w.effects (Backed-insert w w' ev r) a in
    elim r.effects [
      | inl e ↦ subst (All (Backed w')) (sym e) old
      | inr (k, e, c) ↦ subst (All (Backed w')) (sym e) (
          All-snoc (Backed w') (effect_of k ev) w.effects
            (λ f.
              rw
                (
                  r.payments,
                  lookup-insert ev.payment_id ev.payment_id r.pay w.payments,
                  eq_refl ev.payment_id,
                )
                (c f))
            old)
    ]

-- Under the correct policy every fulfilment rests on a captured payment, in whatever order the
-- events come.
pub deliver-no_fulfilment_without_captured :
    (home : String) (single : Bool) (evs : List LabEvent)
    → no_fulfilment_without_captured (deliver (new_world home single) correct evs) ≡ false
unfolding no_fulfilment_without_captured new_world
deliver-no_fulfilment_without_captured home single evs =
    let w' = deliver (new_world home single) correct evs in
    let backed : All (Backed w') w'.effects =
      deliver_keeps (λ w. All (Backed w) w.effects) (λ w ev b n h. h) (λ w ev h. h)
        (λ w ev fresh same signed h. Backed-acts _ _ ev (apply_type-Recorded ev.type _ ev) h) evs
        (new_world home single) tt in
    any_of-eq-false _ w'.effects (All-imp _ _ w'.effects (λ e p. not_uncaptured w' e p) backed)
