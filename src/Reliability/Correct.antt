-- ===== src/Reliability/Correct.antt =====
-- The correct handler against the invariants, over every list of deliveries.
use pay_twin_os.Prelude.{
  ◌+◌, ◌≡◌, refl, ◌⊎◌, inl, inr, Bool, true, false, not, List, [], ◌∷◌, ◌++◌, eq_iff, str_eq, ltb,
  if_intro, if_split, num_true, All,
}
use pay_twin_os.Reliability.Events.{
  LabType, payment_authorized, payment_captured, order_paid, refund_processed, agent_purchase,
  LabEvent, LabPayment, LabOrder, Dict, correct, EffectKind, World, member, Note, bad_signature,
  duplicate_delivery, foreign_tenant,
}
use pay_twin_os.Reliability.Engine.{
  effect_of, add_effect, log, order_of, payment_of, fulfil, apply_type, accept, handle, deliver,
}

-- What a step leaves alone, and the one effect that it may add.
pub record Applied (w : World) (ev : LabEvent) (w' : World) : Type 0 where
  pub same_home : w'.home_tenant ≡ w.home_tenant
  pub same_seen : w'.seen ≡ w.seen
  pub same_log : w'.processed ≡ w.processed
  pub same_single : w'.mandate_single_use ≡ w.mandate_single_use
  pub effects :
      (w'.effects ≡ w.effects)
      ⊎ ((k : EffectKind) × (w'.effects ≡ w.effects ++ effect_of k ev ∷ []))

-- The new payments, orders and mandate do not matter.
kept :
    (w : World) (ev : LabEvent) (ps : Dict LabPayment) (os : Dict LabOrder) (used : Bool)
    → Applied w ev (record w { payments = ps; orders = os; mandate_used = used })
kept w ev ps os used = record {
  same_home = refl;
  same_seen = refl;
  same_single = refl;
  same_log = refl;
  effects = inl refl;
}

added :
    (k : EffectKind) (w : World) (ev : LabEvent) (ps : Dict LabPayment) (os : Dict LabOrder)
    (used : Bool)
    → Applied w ev (add_effect k ev (record w { payments = ps; orders = os; mandate_used = used }))
added k w ev ps os used = record {
  same_home = refl;
  same_seen = refl;
  same_single = refl;
  same_log = refl;
  effects = inr (k, refl);
}

fulfil-Applied :
    (w : World) (ev : LabEvent) (ps : Dict LabPayment)
    → Applied w ev (fulfil (record w { payments = ps }) correct ev)
unfolding fulfil
fulfil-Applied w ev ps =
    if_intro (Applied w ev) (num_true (order_of w ev).fulfilled_count)
      (kept w ev ps _ w.mandate_used) (added EffectKind.fulfilment w ev ps _ w.mandate_used)

pub apply_type-Applied :
    (t : LabType) (w : World) (ev : LabEvent) → Applied w ev (apply_type t w correct ev).0
unfolding apply_type
apply_type-Applied payment_authorized w ev = kept w ev _ w.orders w.mandate_used
apply_type-Applied payment_captured w ev = fulfil-Applied w ev _
apply_type-Applied refund_processed w ev =
    if_intro (λ (r : World × Note). Applied w ev r.0)
      (ltb (payment_of w ev).captured_amount ((payment_of w ev).refunded_total + ev.amount))
      (kept w ev _ w.orders w.mandate_used) (added EffectKind.refund w ev _ w.orders w.mandate_used)
apply_type-Applied agent_purchase w ev =
    if_intro (λ (r : World × Note). Applied w ev r.0) w.mandate_used
      (kept w ev _ w.orders w.mandate_used) (added EffectKind.purchase w ev _ w.orders true)
apply_type-Applied order_paid w ev = kept w ev _ _ w.mandate_used
apply_type-Applied _ w ev = kept w ev _ w.orders w.mandate_used

not-eq-false : (b : Bool) → not b ≡ false → b ≡ true
not-eq-false true h = refl
not-eq-false false h = absurd (cc)

-- A property of worlds that the correct handler keeps through a log entry, a new seen event and the
-- effect of an accepted event of this tenant holds after any deliveries of events with `Q`. Only a
-- signed event is logged as accepted.
module _ (P : World → Type 0) (Q : LabEvent → Type 0)
    (logs : (w : World) (ev : LabEvent) (b : Bool) (n : Note)
      → Q ev
      → (b ≡ true → ev.signature_ok ≡ true)
      → P w
      → P (log ev b n w))
    (sees : (w : World) (ev : LabEvent) → P w → P (record w { seen = ev.event_id ∷ w.seen }))
    (acts : (w : World) (ev : LabEvent)
      → Q ev
      → member ev.event_id w.seen ≡ false
      → ev.tenant ≡ w.home_tenant
      → ev.signature_ok ≡ true
      → P w
      → P (apply_type ev.type (record w { seen = ev.event_id ∷ w.seen }) correct ev).0) where
  handle_keeps_when : (w : World) (ev : LabEvent) → Q ev → P w → P (handle w correct ev)
  unfolding handle accept
  handle_keeps_when w ev q h =
      if_split P (not ev.signature_ok) (λ _. logs w ev false bad_signature q (λ e. absurd (cc)) h)
        (λ signed.
          if_split P (member ev.event_id w.seen)
            (λ _. logs w ev false duplicate_delivery q (λ e. absurd (cc)) h)
            (λ fresh.
              if_split P (not (str_eq ev.tenant w.home_tenant))
                (λ _. logs _ ev false foreign_tenant q (λ e. absurd (cc)) (sees w ev h))
                (λ home.
                  logs _ ev _ _ q (λ _. not-eq-false _ signed)
                    (acts w ev q fresh ((eq_iff ev.tenant w.home_tenant).0 (not-eq-false _ home))
                      (not-eq-false _ signed) h))))

  pub deliver_keeps_when :
      (evs : List LabEvent) (w : World) → All Q evs → P w → P (deliver w correct evs)
  unfolding deliver
  deliver_keeps_when [] w q h = h
  deliver_keeps_when (ev ∷ evs) w q h =
      deliver_keeps_when evs (handle w correct ev) q.1 (handle_keeps_when w ev q.0 h)

all_events : (evs : List LabEvent) → All {0, 0} (λ (ev : LabEvent). Unit) evs
all_events [] = tt
all_events (ev ∷ evs) = (tt, all_events evs)

-- The same for any events.
module _ (P : World → Type 0)
    (logs : (w : World) (ev : LabEvent) (b : Bool) (n : Note) → P w → P (log ev b n w))
    (sees : (w : World) (ev : LabEvent) → P w → P (record w { seen = ev.event_id ∷ w.seen }))
    (acts : (w : World) (ev : LabEvent)
      → member ev.event_id w.seen ≡ false
      → ev.tenant ≡ w.home_tenant
      → ev.signature_ok ≡ true
      → P w
      → P (apply_type ev.type (record w { seen = ev.event_id ∷ w.seen }) correct ev).0) where
  pub deliver_keeps : (evs : List LabEvent) (w : World) → P w → P (deliver w correct evs)
  deliver_keeps evs w h =
      deliver_keeps_when P (λ ev. Unit) (λ w ev b n q s. logs w ev b n) sees (λ w ev q. acts w ev)
        evs w (all_events evs) h
