-- ===== src/Ingest/Materialize.antt =====
-- `materialize_inbox`, `process_pending_inbox` and `ingest_webhook`
-- (services/api/paytwin_api/services/ingest.py).
use pay_twin_os.Prelude.{
  take, ℕ, ◌+◌, max, min, String, Bool, true, false, Option, none, some, List, [], ◌∷◌, ◌++◌, map,
  ltb, str_eq, if◌then◌else◌, length,
}
use pay_twin_os.Table.{find_row, rows_where}
use pay_twin_os.Payments.Rows.{CanonicalEvent, Payment}
use pay_twin_os.Payments.Apply.{apply_event}
use pay_twin_os.Bus.Delivery.{publish_outbox}
use pay_twin_os.Ingest.Envelope.{from_envelope}
use pay_twin_os.Ingest.Rows.{
  InboxStatus, EventInbox, is_received, is_done, CanonicalEventRow, PaymentUpdate, Store,
  Deployment, IngestBody, inbox_not_found, invalid_inbox, IngestResult, result, event_key,
  has_inbox_id, put_inbox, set_status, finish, undo,
}
use pay_twin_os.Ingest.Accept.{Delivery, accept_webhook}

-- The latest instant among a merchant's events.
abbrev pub later : ℕ → Option ℕ → Option ℕ
later at none = some at
later at (some best) = some (max at best)

abbrev pub last_seen : String → List CanonicalEventRow → Option ℕ
last_seen merchant [] = none
last_seen merchant (r ∷ rs) =
    let rest = last_seen merchant rs in
    if str_eq r.merchant_id merchant then later r.occurred_at rest else rest

abbrev pub is_late : ℕ → ℕ → Option ℕ → Bool
is_late minute at none = false
is_late minute at (some last) = ltb (at + minute) last

abbrev pub event_row : ℕ → Bool → CanonicalEvent → CanonicalEventRow
event_row id late e = record {
  id = id;
  organization_id = e.organization_id;
  merchant_id = e.merchant_id;
  type = e.type;
  provider = e.provider;
  external_event_id = e.external_event_id;
  occurred_at = e.occurred_at;
  payment_ref = e.payment_ref;
  amount_paise = e.amount_paise;
  currency = e.currency;
  cohort = e.cohort;
  payload = e.payload;
  late = late;
}

abbrev pub update_of : CanonicalEvent → Payment → Bool → PaymentUpdate
update_of e p late = record {
  event = e.type;
  payment_ref = e.payment_ref;
  merchant_id = e.merchant_id;
  status = p.status;
  amount_paise = e.amount_paise;
  late = late;
  cohort = e.cohort;
}

abbrev pub settled : ℕ → EventInbox → EventInbox
settled now row = record row { status = InboxStatus.processed; processed_at = some now }

-- The inbox is in the order of `received_at`.
abbrev pub pending_ids : ℕ → Store → List ℕ
pending_ids limit s =
    take (max 1 (min limit 1000)) (
      map (λ (r : EventInbox). r.id)
        (rows_where (λ (r : EventInbox). is_received r.status) s.inbox))

pub record Tally : Type 0 where
  pub received : ℕ
  pub processed : ℕ
  pub failed : ℕ

abbrev pub is_success : IngestResult → Bool
is_success r = ltb r.status 300

module _ (d : Deployment) where
  -- The canonical row, the payment, the outbox row and the inbox change together.
  unfoldable pub apply_once : Bool → ℕ → EventInbox → CanonicalEvent → Store → IngestResult × Store
  apply_once commits now row e s =
      let late = is_late d.minute e.occurred_at (last_seen e.merchant_id s.events) in
      let (p, core') = apply_event now s.core e in
      let s' = put_inbox (settled now row) (record s {
        events = s.events ++ event_row s.next_id late e ∷ [];
        core = core';
        session = publish_outbox e.organization_id "payment.updated" (update_of e p late) s.session;
        next_id = s.next_id + 1;
      }) in
      (result 200 (IngestBody.applied s.next_id e.type p.status late), finish commits s')

  -- The canonical row may stand already: the delivery was completed by another worker.
  unfoldable pub apply_unless_done :
      Bool → ℕ → EventInbox → CanonicalEvent → Store → IngestResult × Store
  apply_unless_done commits now row e s =
      elim (find_row (event_key e.provider e.organization_id e.external_event_id) s.events) [
        | some stored ↦ (
          result 200 (IngestBody.duplicate row.id),
          finish commits (put_inbox (set_status InboxStatus.processed row) s),
        )
        | none ↦ apply_once commits now row e s
      ]

  unfoldable pub materialize_row : Bool → ℕ → EventInbox → Store → IngestResult × Store
  materialize_row commits now row s =
      if is_done row.status
      then (result 200 (IngestBody.duplicate row.id), s)
      else elim (from_envelope d.clock row.canonical_payload) [
        | none ↦ (
          result 422 invalid_inbox,
          finish commits (put_inbox (set_status InboxStatus.dead row) s),
        )
        | some e ↦ apply_unless_done commits now row e s
      ]

  unfoldable pub materialize_inbox : Bool → ℕ → ℕ → Store → IngestResult × Store
  materialize_inbox commits now inbox_id s = elim (find_row (has_inbox_id inbox_id) s.inbox) [
    | none ↦ (result 404 inbox_not_found, s)
    | some row ↦ materialize_row commits now row s
  ]

  abbrev pub materialize_accepted : Bool → ℕ → IngestResult → Store → IngestResult × Store
  materialize_accepted commits now r s = elim r.body [
    | IngestBody.accepted id t ↦ materialize_inbox commits now id s
    | _ ↦ (r, finish commits s)
  ]

  unfoldable pub ingest_webhook :
      (Store → Store) → Bool → ℕ → Delivery → Store → IngestResult × Store
  ingest_webhook others commits now q s =
      let (r, s') = accept_webhook d others false now q s in materialize_accepted commits now r s'

  -- After an exception the transaction is undone and the delivery is dead.
  unfoldable pub dead_after : ℕ → Store → Store
  dead_after id s =
      let s' = undo s in
      elim (find_row (has_inbox_id id) s'.inbox) [
        | none ↦ s'
        | some row ↦ finish true (put_inbox (set_status InboxStatus.dead row) s')
      ]

  -- `raises` tells for which deliveries the database fails.
  unfoldable pub process_one : (ℕ → Bool) → ℕ → ℕ → Store → Bool × Store
  process_one raises now id s =
      if raises id
      then (false, dead_after id s)
      else let (r, s') = materialize_inbox false now id s in (is_success r, finish true s')

  unfoldable pub process_ids : (ℕ → Bool) → ℕ → List ℕ → Tally × Store → Tally × Store
  process_ids raises now [] (t, s) = (t, s)
  process_ids raises now (id ∷ ids) (t, s) =
      let (done, s') = process_one raises now id s in
      let t' : Tally = record t {
        processed = t.processed + (if done then 1 else 0);
        failed = t.failed + (if done then 0 else 1);
      } in
      process_ids raises now ids (t', s')

  unfoldable pub process_pending_inbox : (ℕ → Bool) → ℕ → ℕ → Store → Tally × Store
  process_pending_inbox raises now limit s =
      let ids = pending_ids limit s in
      process_ids raises now ids (record { received = length ids; processed = 0; failed = 0 }, s)
