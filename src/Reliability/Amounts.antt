-- ===== src/Reliability/Amounts.antt =====
-- INV-007 and INV-004 of the correct handler: purchases of a mandate and refunds of a payment.
use pay_twin_os.Prelude.{
  ℕ, ◌+◌, ◌≤◌, ◌≡◌, refl, sym, subst, String, Bool, true, false, List, [], ◌∷◌, ◌++◌, ◌&&◌, arith,
  eq_iff, str_eq, ltb, if◌then◌else◌, if_split, if_intro, num_true, get_or, All, All-imp,
}
use pay_twin_os.Reliability.Events.{
  LabType, payment_authorized, payment_captured, payment_failed, order_paid, refund_processed,
  agent_purchase, other, LabEvent, LabPayment, LabStatus, Dict, correct, EffectKind, is_purchase,
  Effect, World, Note, lookup, insert,
}
use pay_twin_os.Reliability.Engine.{
  effect_of, order_of, payment_of, fulfil, apply_type, deliver, new_world,
}
use pay_twin_os.Reliability.Invariants.{count_of, refund_le_captured, agent_mandate_single_use}
use pay_twin_os.Reliability.Dicts.{any_of-eq-false}
use pay_twin_os.Reliability.Correct.{deliver_keeps, deliver_keeps_when}

abbrev is_bought : Effect → Bool
is_bought e = is_purchase e.kind

count_of-snoc :
    (es : List Effect) (e : Effect)
    → count_of is_bought (es ++ e ∷ []) ≡ count_of is_bought es + (if is_bought e then 1 else 0)
count_of-snoc [] e = ground arith
count_of-snoc (f ∷ es) e = ground (arith, count_of-snoc es e)

abbrev OncePurchased : World → Type 0
OncePurchased w = count_of is_bought w.effects ≤ (if w.mandate_used then 1 else 0)

apply_type-OncePurchased :
    (t : LabType) (w : World) (ev : LabEvent)
    → OncePurchased w
    → OncePurchased (apply_type t w correct ev).0
unfolding apply_type fulfil
apply_type-OncePurchased payment_authorized w ev h = h
apply_type-OncePurchased payment_captured w ev h =
    if_split OncePurchased (num_true (order_of w ev).fulfilled_count) (λ _. h)
      (λ _. rw (count_of-snoc w.effects (effect_of EffectKind.fulfilment ev)) (omega arith))
apply_type-OncePurchased payment_failed w ev h = h
apply_type-OncePurchased refund_processed w ev h =
    if_split (λ (r : World × Note). OncePurchased r.0)
      (ltb (payment_of w ev).captured_amount ((payment_of w ev).refunded_total + ev.amount))
      (λ _. h) (λ _. rw (count_of-snoc w.effects (effect_of EffectKind.refund ev)) (omega arith))
apply_type-OncePurchased agent_purchase w ev h =
    if_split (λ (r : World × Note). OncePurchased r.0) w.mandate_used (λ _. h)
      (λ unused. rw (count_of-snoc w.effects (effect_of EffectKind.purchase ev)) (
        let none_yet : count_of is_bought w.effects ≤ 0 =
          subst (λ b. count_of is_bought w.effects ≤ (if b then 1 else 0)) unused h in
        omega arith))
apply_type-OncePurchased order_paid w ev h = h
apply_type-OncePurchased other w ev h = h

-- Under the correct policy a mandate is never used twice.
pub deliver-agent_mandate_single_use :
    (home : String) (single : Bool) (evs : List LabEvent)
    → agent_mandate_single_use (deliver (new_world home single) correct evs) ≡ false
unfolding agent_mandate_single_use new_world
deliver-agent_mandate_single_use home single evs =
    let w' = deliver (new_world home single) correct evs in
    let h : OncePurchased w' =
      deliver_keeps OncePurchased (λ w ev b n h. h) (λ w ev h. h)
        (λ w ev fresh same signed h.
          apply_type-OncePurchased ev.type (record w { seen = ev.event_id ∷ w.seen }) ev h)
        evs (new_world home single) (omega arith) in
    at_most_once w'.mandate_single_use w'.mandate_used _ h
  where
    at_most_once : (s u : Bool) (n : ℕ) → n ≤ (if u then 1 else 0) → (s && ltb 1 n) ≡ false
    at_most_once s true n h = ground arith
    at_most_once s false n h = ground arith

-- The amounts that the captures name.
module _ (amount_of : String → ℕ) where
  abbrev pub SameCapture : LabEvent → Type 0
  SameCapture ev = ev.type ≡ payment_captured → ev.amount ≡ amount_of ev.payment_id

  abbrev Bounded : String → LabPayment → Type 0
  Bounded k pay = (pay.refunded_total ≤ pay.captured_amount) × (pay.captured_amount ≤ amount_of k)

  abbrev AllBounded : Dict LabPayment → Type 0
  AllBounded ps = All (λ (c : String × LabPayment). Bounded c.0 c.1) ps

  insert-AllBounded :
      (k : String) (pay : LabPayment) (ps : Dict LabPayment)
      → Bounded k pay
      → AllBounded ps
      → AllBounded (insert k pay ps)
  insert-AllBounded k pay [] b a = (b, tt)
  insert-AllBounded k pay ((j, old) ∷ ps) b a =
      if_split AllBounded (str_eq j k)
        (λ same. (subst (λ i. Bounded i pay) (sym ((eq_iff j k).0 same)) b, a.1))
        (λ _. (a.0, insert-AllBounded k pay ps b a.1))

  lookup-Bounded :
      (k : String) (ps : Dict LabPayment) (d : LabPayment)
      → Bounded k d
      → AllBounded ps
      → Bounded k (get_or (lookup k ps) d)
  lookup-Bounded k [] d b a = b
  lookup-Bounded k ((j, old) ∷ ps) d b a =
      if_split (λ o. Bounded k (get_or o d)) (str_eq j k)
        (λ same. subst (λ i. Bounded i old) ((eq_iff j k).0 same) a.0)
        (λ _. lookup-Bounded k ps d b a.1)

  payment_of-Bounded :
      (w : World) (ev : LabEvent) → AllBounded w.payments → Bounded ev.payment_id (payment_of w ev)
  payment_of-Bounded w ev a = lookup-Bounded ev.payment_id w.payments _ (omega arith, omega arith) a

  apply_type-AllBounded :
      (t : LabType) (w : World) (ev : LabEvent)
      → (t ≡ payment_captured → ev.amount ≡ amount_of ev.payment_id)
      → AllBounded w.payments
      → AllBounded (apply_type t w correct ev).0.payments
  unfolding apply_type fulfil
  apply_type-AllBounded payment_authorized w ev q a =
      insert-AllBounded _ _ w.payments (payment_of-Bounded w ev a) a
  apply_type-AllBounded payment_captured w ev q a =
      let b = payment_of-Bounded w ev a in
      let refunds : (payment_of w ev).refunded_total ≤ (payment_of w ev).captured_amount = b.0 in
      let captures : (payment_of w ev).captured_amount ≤ amount_of ev.payment_id = b.1 in
      let named = q refl in
      let a' =
        insert-AllBounded ev.payment_id
          (record (payment_of w ev) { status = LabStatus.captured; captured_amount = ev.amount })
          w.payments (omega arith, omega arith) a in
      if_intro (λ (w' : World). AllBounded w'.payments) (num_true (order_of w ev).fulfilled_count)
        a' a'
  apply_type-AllBounded payment_failed w ev q a =
      insert-AllBounded _ _ w.payments (payment_of-Bounded w ev a) a
  apply_type-AllBounded refund_processed w ev q a =
      let b = payment_of-Bounded w ev a in
      if_split (λ (r : World × Note). AllBounded r.0.payments)
        (ltb (payment_of w ev).captured_amount ((payment_of w ev).refunded_total + ev.amount))
        (λ _. insert-AllBounded _ _ w.payments b a)
        (λ fits. insert-AllBounded _ _ w.payments (ground arith, b.1) a)
  apply_type-AllBounded agent_purchase w ev q a =
      let a' =
        insert-AllBounded ev.payment_id (payment_of w ev) w.payments (payment_of-Bounded w ev a)
          a in
      if_intro (λ (r : World × Note). AllBounded r.0.payments) w.mandate_used a' a'
  apply_type-AllBounded order_paid w ev q a =
      insert-AllBounded _ _ w.payments (payment_of-Bounded w ev a) a
  apply_type-AllBounded other w ev q a =
      insert-AllBounded _ _ w.payments (payment_of-Bounded w ev a) a

-- Under the correct policy no payment is refunded beyond its captured amount, provided that every
-- capture of a payment names the same amount.
pub deliver-refund_le_captured :
    (amount_of : String → ℕ) (home : String) (single : Bool) (evs : List LabEvent)
    → All (SameCapture amount_of) evs
    → refund_le_captured (deliver (new_world home single) correct evs) ≡ false
unfolding refund_le_captured new_world
deliver-refund_le_captured amount_of home single evs same =
    let w' = deliver (new_world home single) correct evs in
    let bounded : AllBounded amount_of w'.payments =
      deliver_keeps_when (λ w. AllBounded amount_of w.payments) (SameCapture amount_of)
        (λ w ev b n q s a. a) (λ w ev a. a)
        (λ w ev q fresh home signed a.
          apply_type-AllBounded amount_of ev.type (record w { seen = ev.event_id ∷ w.seen }) ev q a)
        evs (new_world home single) same tt in
    any_of-eq-false _ w'.payments (All-imp _ _ w'.payments (λ c b. within c.1 b.0) bounded)
  where
    within :
        (pay : LabPayment)
        → pay.refunded_total ≤ pay.captured_amount
        → ltb pay.captured_amount pay.refunded_total ≡ false
    within pay h = ground arith
