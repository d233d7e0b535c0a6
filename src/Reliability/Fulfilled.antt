-- ===== src/Reliability/Fulfilled.antt =====
-- INV-008 and INV-007 of the correct handler: one fulfilment an order and one purchase a mandate.
use pay_twin_os.Prelude.{
  ℕ, ◌+◌, ◌≡◌, refl, sym, subst, ◌∙◌, ◌≢◌, String, Bool, true, false, Option, none, some, List, [],
  ◌∷◌, ◌++◌, arith, eq_iff, eq_refl, str_eq, ltb, if◌then◌else◌, if_split, num_true, get_or, All,
  All-imp, All-snoc,
}
use pay_twin_os.Reliability.Events.{
  LabType, payment_authorized, payment_captured, payment_failed, order_paid, refund_processed,
  agent_purchase, other, LabEvent, LabPayment, LabOrder, Dict, correct, EffectKind, is_fulfilment,
  Effect, World, Note, lookup, insert,
}
use pay_twin_os.Reliability.Engine.{
  effect_of, add_effect, order_of, payment_of, fulfil, apply_type, deliver, new_world,
}
use pay_twin_os.Reliability.Invariants.{fulfilled_orders, one_fulfilment_per_order}
use pay_twin_os.Reliability.Dicts.{NoRepeat, NoRepeat-snoc, lookup-insert, has_repeat-eq-false}
use pay_twin_os.Reliability.Correct.{deliver_keeps}

abbrev filled_in : Option LabOrder → Bool
filled_in none = false
filled_in (some o) = num_true o.fulfilled_count

filled_in-get :
    (o : Option LabOrder)
    → filled_in o
      ≡ num_true (get_or o (record { fulfilled_count = 0; paid_expected = false })).fulfilled_count
filled_in-get none = refl
filled_in-get (some o) = refl

num_true-suc : (n : ℕ) → num_true (n + 1) ≡ true
num_true-suc n = ground arith

fulfilled_orders-snoc :
    (es : List Effect) (e : Effect)
    → fulfilled_orders (es ++ e ∷ []) ≡ (
        if is_fulfilment e.kind
        then fulfilled_orders es ++ e.order_id ∷ []
        else fulfilled_orders es)
fulfilled_orders-snoc [] e = refl
fulfilled_orders-snoc (f ∷ es) e = ground (arith, fulfilled_orders-snoc es e)

record OnceEach (w : World) : Type 0 where
  pub distinct : NoRepeat (fulfilled_orders w.effects)
  pub filled : All (λ k. filled_in (lookup k w.orders) ≡ true) (fulfilled_orders w.effects)

module _ (w : World) (ev : LabEvent) where
  -- An order row that is written stays filled.
  filled-insert :
      (o : LabOrder) (ks : List String)
      → (num_true (order_of w ev).fulfilled_count ≡ true → num_true o.fulfilled_count ≡ true)
      → All (λ k. filled_in (lookup k w.orders) ≡ true) ks
      → All (λ k. filled_in (lookup k (insert ev.order_id o w.orders)) ≡ true) ks
  filled-insert o ks s a =
      All-imp _ _ ks
        (λ k h. rw (lookup-insert ev.order_id k o w.orders) (
          if_split (λ o. filled_in o ≡ true) (str_eq ev.order_id k)
            (λ same. s (
              sym (filled_in-get (lookup ev.order_id w.orders))
              ∙ subst (λ k. filled_in (lookup k w.orders) ≡ true)
                  (sym ((eq_iff ev.order_id k).0 same)) h))
            (λ _. h)))
        a

  abbrev stepped : Dict LabPayment → Dict LabOrder → Bool → World
  stepped ps os used = record w { payments = ps; orders = os; mandate_used = used }

  kept_orders :
      (ps : Dict LabPayment) (used : Bool) → OnceEach w → OnceEach (stepped ps w.orders used)
  kept_orders ps used h = record { distinct = h.distinct; filled = h.filled }

  other_effect :
      (k : EffectKind) (ps : Dict LabPayment) (used : Bool)
      → is_fulfilment k ≡ false
      → OnceEach w
      → OnceEach (add_effect k ev (stepped ps w.orders used))
  other_effect k ps used n h = record {
    distinct = rw (fulfilled_orders-snoc w.effects (effect_of k ev), n) h.distinct;
    filled = rw (fulfilled_orders-snoc w.effects (effect_of k ev), n) h.filled;
  }

  put_order :
      (ps : Dict LabPayment) (o : LabOrder)
      → (num_true (order_of w ev).fulfilled_count ≡ true → num_true o.fulfilled_count ≡ true)
      → OnceEach w
      → OnceEach (stepped ps (insert ev.order_id o w.orders) w.mandate_used)
  put_order ps o s h = record {
    distinct = h.distinct;
    filled = filled-insert o (fulfilled_orders w.effects) s h.filled;
  }

  filled_differs :
      num_true (order_of w ev).fulfilled_count ≡ false
      → (k : String) → filled_in (lookup k w.orders) ≡ true
      → k ≢ ev.order_id
  filled_differs empty k h e =
      let g : filled_in (lookup ev.order_id w.orders) ≡ true =
        subst (λ j. filled_in (lookup j w.orders) ≡ true) e h in
      absurd (cc (filled_in-get (lookup ev.order_id w.orders), g, empty))

  first_fulfilment :
      (ps : Dict LabPayment)
      → num_true (order_of w ev).fulfilled_count ≡ false
      → OnceEach w
      → OnceEach (
          add_effect EffectKind.fulfilment ev (
            stepped ps
              (insert ev.order_id
                (record (order_of w ev) { fulfilled_count = (order_of w ev).fulfilled_count + 1 })
                w.orders)
              w.mandate_used))
  first_fulfilment ps empty h =
      let o : LabOrder = record (order_of w ev) {
        fulfilled_count = (order_of w ev).fulfilled_count + 1;
      } in
      let full : num_true o.fulfilled_count ≡ true = num_true-suc (order_of w ev).fulfilled_count in
      record {
        distinct = rw (fulfilled_orders-snoc w.effects (effect_of EffectKind.fulfilment ev)) (
            NoRepeat-snoc ev.order_id _
              (All-imp _ _ (fulfilled_orders w.effects) (filled_differs empty) h.filled)
              h.distinct);
        filled = rw (fulfilled_orders-snoc w.effects (effect_of EffectKind.fulfilment ev)) (
            All-snoc _ ev.order_id (fulfilled_orders w.effects)
              (rw (lookup-insert ev.order_id ev.order_id o w.orders, eq_refl ev.order_id) full)
              (filled-insert o (fulfilled_orders w.effects) (λ _. full) h.filled));
      }

  apply_type-OnceEach : (t : LabType) → OnceEach w → OnceEach (apply_type t w correct ev).0
  unfolding apply_type fulfil
  apply_type-OnceEach payment_authorized h = kept_orders _ w.mandate_used h
  apply_type-OnceEach payment_captured h =
      if_split OnceEach (num_true (order_of w ev).fulfilled_count)
        (λ _. put_order _ (order_of w ev) (λ s. s) h) (λ empty. first_fulfilment _ empty h)
  apply_type-OnceEach payment_failed h = kept_orders _ w.mandate_used h
  apply_type-OnceEach refund_processed h =
      if_split (λ (r : World × Note). OnceEach r.0)
        (ltb (payment_of w ev).captured_amount ((payment_of w ev).refunded_total + ev.amount))
        (λ _. kept_orders _ w.mandate_used h)
        (λ _. other_effect EffectKind.refund _ w.mandate_used refl h)
  apply_type-OnceEach agent_purchase h =
      if_split (λ (r : World × Note). OnceEach r.0) w.mandate_used
        (λ _. kept_orders _ w.mandate_used h) (λ _. other_effect EffectKind.purchase _ true refl h)
  apply_type-OnceEach order_paid h = put_order _ _ (λ s. s) h
  apply_type-OnceEach other h = kept_orders _ w.mandate_used h

-- Under the correct policy an order is fulfilled at most once.
pub deliver-one_fulfilment_per_order :
    (home : String) (single : Bool) (evs : List LabEvent)
    → one_fulfilment_per_order (deliver (new_world home single) correct evs) ≡ false
unfolding one_fulfilment_per_order new_world
deliver-one_fulfilment_per_order home single evs =
    let once : OnceEach (deliver (new_world home single) correct evs) =
      deliver_keeps OnceEach (λ w ev b n h. record { distinct = h.distinct; filled = h.filled })
        (λ w ev h. record { distinct = h.distinct; filled = h.filled })
        (λ w ev fresh same signed h.
          apply_type-OnceEach _ ev ev.type (record { distinct = h.distinct; filled = h.filled }))
        evs (new_world home single) (record { distinct = tt; filled = tt }) in
    has_repeat-eq-false _ once.distinct
