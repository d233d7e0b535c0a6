-- ===== src/Ingest/Materialized.antt =====
-- Materialization keeps the tables a replay of the event table.
use pay_twin_os.Prelude.{
  map-snoc, ℕ, ◌+◌, ◌≡◌, refl, sym, ap, ◌∙◌, subst, inl, inr, Bool, Option, none, some, [], ◌∷◌,
  ◌++◌, if_intro, Option-cases, arith,
}
use pay_twin_os.Table.{find_row}
use pay_twin_os.Table.Keys.{HasKeys-le}
use pay_twin_os.Payments.Rows.{CanonicalEvent, Db}
use pay_twin_os.Payments.Apply.{apply_event}
use pay_twin_os.Bus.Delivery.{publish_outbox}
use pay_twin_os.Ingest.Envelope.{from_envelope}
use pay_twin_os.Ingest.Rows.{
  InboxStatus, EventInbox, is_done, Store, Deployment, invalid_inbox, IngestResult, event_key,
  has_inbox_id, put_inbox, set_status, finish,
}
use pay_twin_os.Ingest.Materialize.{
  event_row, update_of, settled, apply_once, apply_unless_done, materialize_row, materialize_inbox,
  is_late, last_seen,
}
use pay_twin_os.Ingest.Once.{
  inbox_identity, row_identity, event_identity, event_in, NoTwin, NoTwin-snoc, none-identity,
  notice_in, notice_of, Replayed, apply_events-snoc, put_inbox-Replays,
}
use pay_twin_os.Ingest.Replay.{finish-Replayed}

module _ (base : Db) (d : Deployment) where
  -- The store with the event, its payment and its outbox row, before the inbox is marked.
  recorded_store : ℕ → CanonicalEvent → Store → Store
  recorded_store now e s =
      let late = is_late d.minute e.occurred_at (last_seen e.merchant_id s.events) in
      record s {
        events = s.events ++ event_row s.next_id late e ∷ [];
        core = (apply_event now s.core e).1;
        session =
            publish_outbox e.organization_id "payment.updated"
              (update_of e (apply_event now s.core e).0 late) s.session;
        next_id = s.next_id + 1;
      }

  recorded_store-Replayed :
      (now : ℕ) (e : CanonicalEvent) (s : Store)
      → find_row (event_key e.provider e.organization_id e.external_event_id) s.events ≡ none
      → Replayed base s
      → Replayed base (recorded_store now e s)
  unfolding recorded_store publish_outbox
  recorded_store-Replayed now e s free (log, h) = (
    log ++ (now, e) ∷ [],
    record {
      replayed =
          ap (λ db. (apply_event now db e).1) h.replayed ∙ sym (apply_events-snoc base log now e);
      recorded =
          map-snoc row_identity s.events _
          ∙ ap (λ r. r ++ event_identity e ∷ []) h.recorded
          ∙ sym (map-snoc _ log (now, e));
      contents =
          map-snoc event_in s.events _
          ∙ ap (λ r. r ++ e ∷ []) h.contents
          ∙ sym (map-snoc _ log (now, e));
      published =
          map-snoc notice_in s.session.outbox _
          ∙ ap (λ r. r ++ notice_of e ∷ []) h.published
          ∙ sym (map-snoc _ log (now, e));
      events_once = subst NoTwin (sym (map-snoc row_identity s.events _)) (
          NoTwin-snoc _ _
            (none-identity row_identity _ (event_identity e) s.events (λ r. refl) free)
            h.events_once);
      inbox_once = h.inbox_once;
      inbox_ids = HasKeys-le s.next_id (s.next_id + 1) _ (omega arith) h.inbox_ids;
    },
  )

  pub put-Replayed :
      (s : Store) (test : EventInbox → Bool) (v r : EventInbox)
      → find_row test s.inbox ≡ some r
      → v.id ≡ r.id
      → inbox_identity v ≡ inbox_identity r
      → Replayed base s
      → Replayed base (put_inbox v s)
  put-Replayed s test v r found k same (log, h) =
      (log, put_inbox-Replays base log s test v r found k same h)

  module _ (commits : Bool) (now : ℕ) where
    apply_unless_done-Replayed :
        (test : EventInbox → Bool) (row : EventInbox) (e : CanonicalEvent) (s : Store)
        → find_row test s.inbox ≡ some row
        → Replayed base s
        → Replayed base (apply_unless_done d commits now row e s).1
    unfolding apply_unless_done apply_once recorded_store
    apply_unless_done-Replayed test row e s found h =
        elim (Option-cases
          (find_row (event_key e.provider e.organization_id e.external_event_id) s.events)) [
            | inl free ↦
                rw (apply_unless_done, free)
                  (finish-Replayed base commits _ (
                    put-Replayed (recorded_store now e s) test (settled now row) row found refl refl
                      (recorded_store-Replayed now e s free h)))
            | inr (stored, there) ↦
                rw (apply_unless_done, there)
                  (finish-Replayed base commits _ (put-Replayed s test _ row found refl refl h))
          ]

    materialize_row-Replayed :
        (test : EventInbox → Bool) (row : EventInbox) (s : Store)
        → find_row test s.inbox ≡ some row
        → Replayed base s
        → Replayed base (materialize_row d commits now row s).1
    unfolding materialize_row
    materialize_row-Replayed test row s found h =
        if_intro (λ (r : IngestResult × Store). Replayed base r.1) (is_done row.status) h
          (pending (from_envelope d.clock row.canonical_payload))
      where
        pending :
            (o : Option CanonicalEvent)
            → Replayed base (
                let y : IngestResult × Store = elim o [
                  | none ↦ (
                    record { status = 422; body = invalid_inbox },
                    finish commits (put_inbox (set_status InboxStatus.dead row) s),
                  )
                  | some e ↦ apply_unless_done d commits now row e s
                ] in
                y.1)
        pending none = finish-Replayed base commits _ (put-Replayed s test _ row found refl refl h)
        pending (some e) = apply_unless_done-Replayed test row e s found h

    pub materialize_inbox-Replayed :
        (id : ℕ) (s : Store)
        → Replayed base s
        → Replayed base (materialize_inbox d commits now id s).1
    unfolding materialize_inbox
    materialize_inbox-Replayed id s h = elim (Option-cases (find_row (has_inbox_id id) s.inbox)) [
      | inl gone ↦ rw (materialize_inbox, gone) h
      | inr (row, found) ↦ rw (materialize_inbox, found) (materialize_row-Replayed _ row s found h)
    ]
