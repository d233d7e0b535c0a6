-- ===== src/Connectors/RefundEntity.antt =====
-- What the normalized Razorpay events take from which entity
-- (services/api/paytwin_api/connectors/razorpay.py).
use pay_twin_os.Prelude.{
  ℕ, ◌≡◌, refl, sym, ap, ◌∙◌, subst, String, Bool, true, false, Option, none, some, arith, given,
  or_text, or_num, ok, or_raise, >>=-ok, or_raise-ok, or_raise-ok,
}
use pay_twin_os.Payments.Rows.{EventType, payment_success, Cohort, Payload, CanonicalEvent}
use pay_twin_os.Payments.Refunds.{refund_amount_of}
use pay_twin_os.Connectors.Dialect.{
  Library, Owner, with_default, canonical_event, epoch_to_dt, webhook_rejected,
}
use pay_twin_os.Connectors.Razorpay.{
  status_named, RefundEntity, Webhook, RazorpayEvent, payment_authorized_event,
  payment_failed_event, payment_captured_event, refund_created_event, refund_processed_event,
  refund_failed_event, refund_speed_changed_event, order_paid_event, payment_link_paid_event,
  payment_link_partially_paid_event, payment_link_expired_event, payment_link_cancelled_event,
  mapped, event_map, refund_suffix, Subject, refund_subject, subject_of, payment_payload,
  add_refund, normalize, cohort_in, external_id,
}

pub canonical_event-ok :
    (type : EventType) (owner : Owner) (provider ext : String) (at : ℕ) (ref : String) (amount : ℕ)
    (cohort : Cohort) (payload : Payload) {e : CanonicalEvent}
    → canonical_event type owner provider ext at ref amount cohort payload ≡ ok e
    → record {
      type = type;
      organization_id = owner.organization_id;
      merchant_id = owner.merchant_id;
      provider = provider;
      external_event_id = ext;
      occurred_at = at;
      payment_ref = ref;
      amount_paise = amount;
      currency = "INR";
      cohort = cohort;
      payload = payload;
    }
      ≡ e
unfolding canonical_event
canonical_event-ok type owner provider ext at ref amount cohort payload h = ground arith

or_num-same : (n : ℕ) → or_num (some n) n ≡ n
or_num-same n = ground arith

pub some_injective : {A : Type 0} {x y : A} → some x ≡ some y → x ≡ y
some_injective h = cc

-- What an event has of the refund entity.
abbrev pub TakesRefund : RefundEntity → RazorpayEvent → String → CanonicalEvent → Type 0
TakesRefund r event suffix e =
    (given r.payment_id ≡ some e.payment_ref)
    × (with_default 0 r.amount ≡ some e.amount_paise)
    × (e.payload.refund_ref ≡ some (or_text r.id ""))
    × (e.payload.refund_status ≡ some (status_named (or_text r.status suffix)))
    × (refund_amount_of e ≡ e.amount_paise)
    × (e.type ≡ event_map event)

module _ (l : Library) (owner : Owner) (header : Option String) (w : Webhook) where
  -- The parts of an event that was normalized.
  record Normalized (e : CanonicalEvent) : Type 0 where
    pub raw : String
    pub event : RazorpayEvent
    pub subject : Subject
    pub at : ℕ
    pub named : w.event ≡ some raw
    pub is_mapped : mapped raw ≡ some event
    pub from_entity : subject_of event w ≡ ok subject
    pub made :
        record {
          type = event_map event;
          organization_id = owner.organization_id;
          merchant_id = owner.merchant_id;
          provider = "razorpay";
          external_event_id = external_id l header raw subject;
          occurred_at = at;
          payment_ref = subject.payment_ref;
          amount_paise = subject.amount_paise;
          currency = "INR";
          cohort = cohort_in l subject.ent;
          payload = add_refund l raw event subject w.refund (payment_payload l w subject);
        }
        ≡ e

  normalize-Normalized : {e : CanonicalEvent} → normalize l owner header w ≡ ok e → Normalized e
  unfolding normalize
  normalize-Normalized h =
      let (raw, named, h1) = >>=-ok (or_raise w.event webhook_rejected) _ h in
      let (event, is_mapped, h2) = >>=-ok (or_raise (mapped raw) webhook_rejected) _ h1 in
      let (s, from_entity, h3) = >>=-ok (subject_of event w) _ h2 in
      let (at, _, h4) = >>=-ok (epoch_to_dt l s.occurred_at) _ h3 in
      record {
        raw = raw;
        event = event;
        subject = s;
        at = at;
        named = or_raise-ok w.event webhook_rejected named;
        is_mapped = or_raise-ok (mapped raw) webhook_rejected is_mapped;
        from_entity = from_entity;
        made = canonical_event-ok _ _ _ _ _ _ _ _ _ h4;
      }

  -- The parts of a refund's subject.
  refund_subject-entity :
      {s : Subject}
      → refund_subject w ≡ ok s
      → (r : RefundEntity) × (w.refund ≡ some r)
        × (given r.payment_id ≡ some s.payment_ref)
        × (with_default 0 r.amount ≡ some s.amount_paise)
  unfolding refund_subject
  refund_subject-entity {s} h =
      let (r, there, h1) = >>=-ok (or_raise w.refund webhook_rejected) _ h in
      let (ref, named, h2) = >>=-ok (or_raise (given r.payment_id) webhook_rejected) _ h1 in
      let (amount, counted, h3) =
        >>=-ok (or_raise (with_default 0 r.amount) webhook_rejected) _ h2 in
      (
        r,
        or_raise-ok w.refund webhook_rejected there,
        or_raise-ok (given r.payment_id) webhook_rejected named ∙ ground arith,
        or_raise-ok (with_default 0 r.amount) webhook_rejected counted ∙ ground arith,
      )

  -- A refund event that is normalized has the payment, the amount, the reference and the status of its refund
  -- entity, whatever the payment entity beside it says; and that amount is the one that the state
  -- machine credits.
  pub normalize-refund_entity :
      {e : CanonicalEvent} {raw suffix : String} {event : RazorpayEvent}
      → w.event ≡ some raw
      → mapped raw ≡ some event
      → refund_suffix event ≡ some suffix
      → normalize l owner header w ≡ ok e
      → (r : RefundEntity) × (w.refund ≡ some r) × TakesRefund r event suffix e
  unfolding add_refund
  normalize-refund_entity {e} {raw} {suffix} {event} named is_mapped is_refund h =
      let n = normalize-Normalized h in
      let same : n.event ≡ event =
        some_injective
          (sym n.is_mapped ∙ ap mapped (some_injective (sym n.named ∙ named)) ∙ is_mapped) in
      let path : subject_of n.event w ≡ refund_subject w =
        ap (λ (v : RazorpayEvent). subject_of v w) same ∙ rw (is_refund, subject_of) refl in
      let (r, there, ref, amount) =
        refund_subject-entity {s = n.subject} (sym path ∙ n.from_entity) in
      let added : add_refund l n.raw n.event n.subject w.refund (payment_payload l w n.subject)
          ≡ add_refund l n.raw n.event n.subject (some r) (payment_payload l w n.subject) =
        ap
          (λ (x : Option RefundEntity).
            add_refund l n.raw n.event n.subject x (payment_payload l w n.subject))
          there in
      (
        r,
        there,
        subst (TakesRefund r event suffix) n.made (
          ref,
          amount,
          ap (λ (p : Payload). p.refund_ref) added,
          ap (λ (p : Payload). p.refund_status) added
              ∙ ap
                  (λ (x : Option String).
                    some (status_named (or_text r.status (elim x [ none ↦ n.raw | some t ↦ t ]))))
                  (ap refund_suffix same ∙ is_refund),
          ap (λ (p : Payload). or_num p.refund_amount_paise n.subject.amount_paise) added
              ∙ or_num-same n.subject.amount_paise,
          ap event_map same,
        ),
      )

-- The events of a captured payment and of a paid link.
abbrev pub is_capture : RazorpayEvent → Bool
is_capture payment_captured_event = true
is_capture payment_link_paid_event = true
is_capture _ = false

abbrev pub captures : Option String → Bool
captures none = false
captures (some raw) = elim (mapped raw) [ none ↦ false | some event ↦ is_capture event ]

event_map_success :
    (event : RazorpayEvent) → event_map event ≡ payment_success → is_capture event ≡ true
event_map_success payment_captured_event h = refl
event_map_success payment_link_paid_event h = refl
event_map_success payment_authorized_event h = cc
event_map_success payment_failed_event h = cc
event_map_success refund_created_event h = cc
event_map_success refund_processed_event h = cc
event_map_success refund_failed_event h = cc
event_map_success refund_speed_changed_event h = cc
event_map_success order_paid_event h = cc
event_map_success payment_link_partially_paid_event h = cc
event_map_success payment_link_expired_event h = cc
event_map_success payment_link_cancelled_event h = cc

-- Only a captured payment or a paid link becomes a success: one that is authorized, failed, expired,
-- cancelled or paid in part never does.
pub normalize-success :
    (l : Library) (owner : Owner) (header : Option String) (w : Webhook) {e : CanonicalEvent}
    → normalize l owner header w ≡ ok e
    → e.type ≡ payment_success
    → captures w.event ≡ true
normalize-success l owner header w {e} h success =
    let n = normalize-Normalized l owner header w h in
    ap captures n.named
    ∙ rw (n.is_mapped, captures)
        (event_map_success n.event (ap (λ (x : CanonicalEvent). x.type) n.made ∙ success))
