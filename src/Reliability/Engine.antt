-- ===== src/Reliability/Engine.antt =====
-- `new_world`, `_fulfil`, `handle` and the delivery loop of `run_scenario`
-- (services/api/paytwin_api/reliability/engine.py).
use pay_twin_os.Prelude.{
  ◌+◌, String, Bool, true, false, not, List, [], ◌∷◌, ◌++◌, ◌&&◌, str_eq, ltb, num_true,
  if◌then◌else◌, get_or,
}
use pay_twin_os.Reliability.Events.{
  LabType, payment_authorized, payment_captured, payment_failed, order_paid, refund_processed,
  agent_purchase, other, LabEvent, FixturePolicy, LabStatus, LabPayment, LabOrder, EffectKind,
  Effect, Note, no_note, bad_signature, duplicate_delivery, foreign_tenant, refund_exceeds,
  mandate_replay, World, lookup, insert, member,
}

unfoldable pub new_world : String → Bool → World
new_world home_tenant mandate_single_use = record {
  payments = [];
  orders = [];
  effects = [];
  processed = [];
  seen = [];
  home_tenant = home_tenant;
  mandate_single_use = mandate_single_use;
  mandate_used = false;
}

abbrev pub effect_of : EffectKind → LabEvent → Effect
effect_of kind ev = record {
  kind = kind;
  payment_id = ev.payment_id;
  order_id = ev.order_id;
  tenant = ev.tenant;
  amount = ev.amount;
  src_event_id = ev.event_id;
}

abbrev pub add_effect : EffectKind → LabEvent → World → World
add_effect kind ev w = record w { effects = w.effects ++ effect_of kind ev ∷ [] }

abbrev pub order_of : World → LabEvent → LabOrder
order_of w ev =
    get_or (lookup ev.order_id w.orders) (record { fulfilled_count = 0; paid_expected = false })

unfoldable pub fulfil : World → FixturePolicy → LabEvent → World
fulfil w p ev =
    let o = order_of w ev in
    if p.single_fulfilment_per_order && num_true o.fulfilled_count
    then record w { orders = insert ev.order_id o w.orders }
    else add_effect EffectKind.fulfilment ev (record w {
      orders = insert ev.order_id (record o { fulfilled_count = o.fulfilled_count + 1 }) w.orders;
    })

-- `w["payments"].setdefault(pid, ...)`
abbrev pub payment_of : World → LabEvent → LabPayment
payment_of w ev = get_or (lookup ev.payment_id w.payments) (record {
  status = LabStatus.created;
  captured_amount = 0;
  refunded_total = 0;
  tenant = ev.tenant;
})

abbrev pub put_lab_payment : LabEvent → LabPayment → World → World
put_lab_payment ev pay w = record w { payments = insert ev.payment_id pay w.payments }

abbrev pub authorize : LabStatus → LabStatus
authorize LabStatus.captured = LabStatus.captured
authorize _ = LabStatus.authorized

abbrev pub fail : LabStatus → LabStatus
fail LabStatus.captured = LabStatus.captured
fail LabStatus.authorized = LabStatus.authorized
fail _ = LabStatus.failed

-- What an accepted event does, and the note where it is rejected after all.
unfoldable pub apply_type : LabType → World → FixturePolicy → LabEvent → World × Note
apply_type payment_authorized w p ev =
    let pay = payment_of w ev in
    let w' = put_lab_payment ev (record pay { status = authorize pay.status }) w in
    (if p.require_captured_for_fulfilment then w' else fulfil w' p ev, no_note)
apply_type payment_captured w p ev =
    let pay = payment_of w ev in
    let w' =
      put_lab_payment ev (record pay { status = LabStatus.captured; captured_amount = ev.amount })
        w in
    (if p.require_captured_for_fulfilment then fulfil w' p ev else w', no_note)
apply_type payment_failed w p ev =
    let pay = payment_of w ev in
    (put_lab_payment ev (record pay { status = fail pay.status }) w, no_note)
apply_type order_paid w p ev =
    let w₁ = put_lab_payment ev (payment_of w ev) w in
    let o = order_of w₁ ev in
    let w' = record w₁ {
      orders = insert ev.order_id (record o { paid_expected = true }) w₁.orders;
    } in
    (if p.require_captured_for_fulfilment then w' else fulfil w' p ev, no_note)
apply_type refund_processed w p ev =
    let pay = payment_of w ev in
    if p.idempotent_refunds && ltb pay.captured_amount (pay.refunded_total + ev.amount)
    then (put_lab_payment ev pay w, refund_exceeds)
    else (
      add_effect EffectKind.refund ev
          (put_lab_payment ev (record pay { refunded_total = pay.refunded_total + ev.amount }) w),
      no_note,
    )
apply_type agent_purchase w p ev =
    let w' = put_lab_payment ev (payment_of w ev) w in
    if p.enforce_mandate_limits && w'.mandate_used
    then (w', mandate_replay)
    else (add_effect EffectKind.purchase ev (record w' { mandate_used = true }), no_note)
apply_type other w p ev = (put_lab_payment ev (payment_of w ev) w, no_note)

abbrev pub is_no_note : Note → Bool
is_no_note no_note = true
is_no_note _ = false

-- The record of a delivery, which the code appends first and completes later.
abbrev pub log : LabEvent → Bool → Note → World → World
log ev accepted note w = record w {
  processed =
      w.processed
      ++ record {
        event_id = ev.event_id;
        signature_ok = ev.signature_ok;
        accepted = accepted;
        note = note;
      }
        ∷ [];
}

unfoldable pub accept : World → FixturePolicy → LabEvent → World
accept w p ev = let (w', note) = apply_type ev.type w p ev in log ev (is_no_note note) note w'

unfoldable pub handle : World → FixturePolicy → LabEvent → World
handle w p ev =
    if p.verify_signature && not ev.signature_ok
    then log ev false bad_signature w
    else if p.dedupe_by_event_id && member ev.event_id w.seen
    then log ev false duplicate_delivery w
    else let w' = record w { seen = ev.event_id ∷ w.seen } in
      if p.enforce_tenant_scope && not (str_eq ev.tenant w.home_tenant)
      then log ev false foreign_tenant w'
      else accept w' p ev

-- `for ev in scenario["events"]: handle(w, policy, ev)`
unfoldable pub deliver : World → FixturePolicy → List LabEvent → World
deliver w p [] = w
deliver w p (ev ∷ evs) = deliver (handle w p ev) p evs
