-- ===== src/Ingest/Once.antt =====
-- What holds between the operations of ingestion: each delivery is in the inbox once, each event in
-- the event table once, and the payment tables are the replay of that table.
use pay_twin_os.Prelude.{
  ℕ, ◌≡◌, refl, sym, ◌∙◌, subst, inl, inr, String, Bool, false, none, some, List, [], ◌∷◌, ◌++◌,
  ◌&&◌, arith, str_eq, map, All, All-snoc, Bool-cases,
}
use pay_twin_os.Table.{find_row}
use pay_twin_os.Table.Keys.{HasKeys, map-put_row, keys-put_row}
use pay_twin_os.Payments.Rows.{EventType, CanonicalEvent, Db}
use pay_twin_os.Payments.Apply.{apply_event, apply_events}
use pay_twin_os.Bus.Delivery.{BusEvent}
use pay_twin_os.Ingest.Rows.{EventInbox, CanonicalEventRow, PaymentUpdate, Store, put_inbox}

-- A unique key of three texts.
abbrev pub Identity : Type 0
Identity = String × String × String

abbrev pub same_identity : Identity → Identity → Bool
same_identity (a, b, c) (x, y, z) = str_eq a x && str_eq b y && str_eq c z

abbrev pub NoTwin : List Identity → Type 0
NoTwin [] = Unit
NoTwin (k ∷ ks) = All (λ j. same_identity k j ≡ false) ks × NoTwin ks

pub NoTwin-snoc :
    (k : Identity) (ks : List Identity)
    → All (λ j. same_identity j k ≡ false) ks
    → NoTwin ks
    → NoTwin (ks ++ k ∷ [])
NoTwin-snoc k [] a h = (tt, tt)
NoTwin-snoc k (j ∷ ks) a h =
    (All-snoc (λ i. same_identity j i ≡ false) k ks a.0 h.0, NoTwin-snoc k ks a.1 h.1)

abbrev pub inbox_identity : EventInbox → Identity
inbox_identity row = (row.provider, row.organization_id, row.external_event_id)

abbrev pub row_identity : CanonicalEventRow → Identity
row_identity row = (row.organization_id, row.provider, row.external_event_id)

abbrev pub event_identity : CanonicalEvent → Identity
event_identity e = (e.organization_id, e.provider, e.external_event_id)

module _ {A : Type 0} (key : A → Identity) where
  -- The query by the key of a new row finds nothing.
  pub none-identity :
      (test : A → Bool) (k : Identity) (rs : List A)
      → ((r : A) → test r ≡ same_identity (key r) k)
      → find_row test rs ≡ none
      → All (λ j. same_identity j k ≡ false) (map key rs)
  none-identity test k [] same h = tt
  none-identity test k (r ∷ rs) same h = elim (Bool-cases (test r)) [
    | inl hit ↦ absurd (ground arith)
    | inr miss ↦ (sym (same r) ∙ miss, none-identity test k rs same (ground arith))
  ]

-- What is told of an event, and what the outbox row tells.
abbrev pub Notice : Type 0
Notice = String × EventType × String × ℕ

abbrev pub notice_of : CanonicalEvent → Notice
notice_of e = (e.organization_id, e.type, e.payment_ref, e.amount_paise)

abbrev pub notice_in : BusEvent PaymentUpdate → Notice
notice_in u = (u.organization_id, u.payload.event, u.payload.payment_ref, u.payload.amount_paise)

-- The event that a row of the event table stands for, every column but the row's own key and mark.
abbrev pub event_in : CanonicalEventRow → CanonicalEvent
event_in r = record {
  type = r.type;
  organization_id = r.organization_id;
  merchant_id = r.merchant_id;
  provider = r.provider;
  external_event_id = r.external_event_id;
  occurred_at = r.occurred_at;
  payment_ref = r.payment_ref;
  amount_paise = r.amount_paise;
  currency = r.currency;
  cohort = r.cohort;
  payload = r.payload;
}

abbrev pub Log : Type 0
Log = List (ℕ × CanonicalEvent)

-- The tables agree with a log of events and the times of their processing: the payment tables are
-- the state machine's run over it from `base`, the event table has one row for each of its events,
-- with the whole event in it, and the outbox one that tells of it, in its order.
pub record Replays (base : Db) (log : Log) (s : Store) : Type 0 where
  pub replayed : s.core ≡ apply_events base log
  pub recorded :
      map row_identity s.events ≡ map (λ (t : ℕ × CanonicalEvent). event_identity t.1) log
  pub contents : map event_in s.events ≡ map (λ (t : ℕ × CanonicalEvent). t.1) log
  pub published :
      map notice_in s.session.outbox ≡ map (λ (t : ℕ × CanonicalEvent). notice_of t.1) log
  pub events_once : NoTwin (map row_identity s.events)
  pub inbox_once : NoTwin (map inbox_identity s.inbox)
  pub inbox_ids : HasKeys s.next_id (map (λ (r : EventInbox). r.id) s.inbox)

-- The transaction has no open changes.
pub record Quiet (s : Store) : Type 0 where
  pub durable : s.session.outbox ≡ s.session.durable
  pub pending : s.session.pending ≡ []

abbrev pub Replayed : Db → Store → Type 0
Replayed base s = (log : Log) × Replays base log s

pub apply_events-snoc :
    (base : Db) (log : Log) (now : ℕ) (e : CanonicalEvent)
    → apply_events base (log ++ (now, e) ∷ []) ≡ (apply_event now (apply_events base log) e).1
unfolding apply_events
apply_events-snoc base [] now e = refl
apply_events-snoc base ((at, f) ∷ log) now e = apply_events-snoc (apply_event at base f).1 log now e

-- A row of the inbox that a query found, written back with the same identity.
pub put_inbox-Replays :
    (base : Db) (log : Log) (s : Store) (test : EventInbox → Bool) (v r : EventInbox)
    → find_row test s.inbox ≡ some r
    → v.id ≡ r.id
    → inbox_identity v ≡ inbox_identity r
    → Replays base log s
    → Replays base log (put_inbox v s)
put_inbox-Replays base log s test v r found same_id same h = record {
  replayed = h.replayed;
  recorded = h.recorded;
  contents = h.contents;
  published = h.published;
  events_once = h.events_once;
  inbox_once =
      subst NoTwin
        (sym (
          map-put_row (λ (r : EventInbox). r.id) inbox_identity test v s.inbox found same_id same
            h.inbox_ids.0))
        h.inbox_once;
  inbox_ids =
      subst (HasKeys s.next_id) (sym (keys-put_row (λ (r : EventInbox). r.id) v s.inbox))
        h.inbox_ids;
}
