-- ===== src/Ingest/Replay.antt =====
-- Every operation of ingestion keeps the tables a replay of the event table.
use pay_twin_os.Prelude.{
  map-snoc, ℕ, ◌+◌, ◌≡◌, refl, sym, subst, inl, inr, String, Bool, true, false, not, none, some,
  if_intro, map, Option-cases,
}
use pay_twin_os.Table.{find_row}
use pay_twin_os.Table.Keys.{HasKeys, HasKeys-snoc}
use pay_twin_os.Tenancy.{Merchant, has_merchant_id}
use pay_twin_os.Payments.Rows.{CanonicalEvent, Db}
use pay_twin_os.Bus.Delivery.{commit, rollback}
use pay_twin_os.Ingest.Redact.{Json}
use pay_twin_os.Ingest.Rows.{
  EventInbox, is_processed, Reason, Store, Connector, get_connector, Deployment, IngestResult,
  inbox_key, put_inbox, finish, undo,
}
use pay_twin_os.Ingest.Accept.{
  Delivery, bury, redelivered, inbox_row, add_inbox, insert_inbox, enqueue, read_event, receive,
  authentic, authenticate, accept_webhook,
}
use pay_twin_os.Ingest.Once.{
  inbox_identity, NoTwin, NoTwin-snoc, none-identity, notice_in, notice_of, Quiet, Replayed,
  put_inbox-Replays,
}

module _ (base : Db) where
  abbrev pub Good : Store → Type 0
  Good s = Replayed base s × Quiet s

  pub finish-Replayed : (b : Bool) (s : Store) → Replayed base s → Replayed base (finish b s)
  unfolding finish commit
  finish-Replayed true s (log, h) = (
    log,
    record {
      replayed = h.replayed;
      recorded = h.recorded;
      contents = h.contents;
      published = h.published;
      events_once = h.events_once;
      inbox_once = h.inbox_once;
      inbox_ids = h.inbox_ids;
    },
  )
  finish-Replayed false s h = h

  finish-Quiet : (b : Bool) (s : Store) → Quiet s → Quiet (finish b s)
  unfolding finish commit
  finish-Quiet true s q = record { durable = refl; pending = refl }
  finish-Quiet false s q = q

  pub finish-Good : (b : Bool) (s : Store) → Good s → Good (finish b s)
  finish-Good b s (h, q) = (finish-Replayed b s h, finish-Quiet b s q)

  pub committed-Good : (s : Store) → Replayed base s → Good (finish true s)
  unfolding finish commit
  committed-Good s h = (finish-Replayed true s h, record { durable = refl; pending = refl })

  pub undo-Good : (s : Store) → Good s → Good (undo s)
  unfolding undo rollback
  undo-Good s ((log, h), q) = (
    (
      log,
      record {
        replayed = h.replayed;
        recorded = h.recorded;
        contents = h.contents;
        published =
            subst (λ o. map notice_in o ≡ map (λ (t : ℕ × CanonicalEvent). notice_of t.1) log)
              q.durable h.published;
        events_once = h.events_once;
        inbox_once = h.inbox_once;
        inbox_ids = h.inbox_ids;
      },
    ),
    record { durable = refl; pending = refl },
  )

  bury-Good :
      (org : String) (reason : Reason) (payload : Json) (s : Store)
      → Good s
      → Good (bury org reason payload s)
  bury-Good org reason payload s ((log, h), q) = (
    (
      log,
      record {
        replayed = h.replayed;
        recorded = h.recorded;
        contents = h.contents;
        published = h.published;
        events_once = h.events_once;
        inbox_once = h.inbox_once;
        inbox_ids = h.inbox_ids;
      },
    ),
    record { durable = q.durable; pending = q.pending },
  )

  pub put_inbox-Good :
      (s : Store) (test : EventInbox → Bool) (v r : EventInbox)
      → find_row test s.inbox ≡ some r
      → v.id ≡ r.id
      → inbox_identity v ≡ inbox_identity r
      → Good s
      → Good (put_inbox v s)
  put_inbox-Good s test v r found k same ((log, h), q) = (
    (log, put_inbox-Replays base log s test v r found k same h),
    record { durable = q.durable; pending = q.pending },
  )

  module _ (d : Deployment) (others : Store → Store) (commits : Bool) (now : ℕ) where
    add_inbox-Good :
        (q : Delivery) (m : Merchant) (raw : Json) (e : CanonicalEvent) (s : Store)
        → find_row (inbox_key q.provider m.organization_id e.external_event_id) s.inbox ≡ none
        → Good s
        → Good (add_inbox d others commits now q (inbox_row d others commits now q m raw e s) s)
    unfolding inbox_row
    add_inbox-Good q m raw e s free ((log, h), quiet) = (
      (
        log,
        record {
          replayed = h.replayed;
          recorded = h.recorded;
          contents = h.contents;
          published = h.published;
          events_once = h.events_once;
          inbox_once = subst NoTwin (sym (map-snoc inbox_identity s.inbox _)) (
              NoTwin-snoc _ _
                (none-identity inbox_identity _ (q.provider, m.organization_id, e.external_event_id)
                  s.inbox (λ r. refl) free)
                h.inbox_once);
          inbox_ids =
              subst (HasKeys (s.next_id + 1)) (sym (map-snoc (λ (r : EventInbox). r.id) s.inbox _))
                (HasKeys-snoc s.next_id _ h.inbox_ids);
        },
      ),
      record { durable = quiet.durable; pending = quiet.pending },
    )

    insert_inbox-Good :
        (q : Delivery) (m : Merchant) (raw : Json) (e : CanonicalEvent) (s : Store)
        → Good s
        → Good (insert_inbox d others commits now q m raw e s).1
    unfolding insert_inbox
    insert_inbox-Good q m raw e s h =
        elim (Option-cases
          (find_row (inbox_key q.provider m.organization_id e.external_event_id) s.inbox)) [
            | inl free ↦
                rw (insert_inbox, free) (finish-Good commits _ (add_inbox-Good q m raw e s free h))
            | inr (winner, found) ↦ rw (insert_inbox, found) (undo-Good s h)
          ]

    enqueue-Good :
        (q : Delivery) (m : Merchant) (raw : Json) (e : CanonicalEvent) (s : Store)
        → Good s
        → Good (others s)
        → Good (enqueue d others commits now q m raw e s).1
    unfolding enqueue redelivered
    enqueue-Good q m raw e s h k =
        elim (Option-cases
          (find_row (inbox_key q.provider m.organization_id e.external_event_id) s.inbox)) [
            | inl free ↦ rw (enqueue, free) (insert_inbox-Good q m raw e (others s) k)
            | inr (row, found) ↦
                rw (enqueue, found)
                  (finish-Good commits _ (
                    if_intro Good (is_processed row.status)
                      (put_inbox-Good s _ _ row found refl refl h) h))
          ]

    receive-Good :
        (c : Connector) (m : Merchant) (q : Delivery) (s : Store)
        → Good s
        → Good (others s)
        → Good (receive d others commits now c m q s).1
    unfolding receive
    receive-Good c m q s h k = elim (Option-cases (read_event d others commits now c m q)) [
      | inl bad ↦ rw (receive, bad) (finish-Good commits _ (bury-Good m.organization_id _ _ s h))
      | inr ((raw, e), read) ↦ rw (receive, read) (enqueue-Good q m raw e s h k)
    ]

    authenticate-Good :
        (m : Merchant) (q : Delivery) (s : Store)
        → Good s
        → Good (others s)
        → Good (authenticate d others commits now m q s).1
    unfolding authenticate
    authenticate-Good m q s h k = elim (Option-cases (get_connector d.registry q.provider)) [
      | inl unknown ↦
          rw (authenticate, unknown) (finish-Good commits _ (bury-Good m.organization_id _ _ s h))
      | inr (c, known) ↦
          rw (authenticate, known)
            (if_intro (λ (r : IngestResult × Store). Good r.1)
              (not (authentic d others commits now c m q s))
              (finish-Good commits _ (bury-Good m.organization_id _ _ s h))
              (receive-Good c m q s h k))
    ]

    -- Accepting a delivery, whatever other sessions do meanwhile.
    pub accept_webhook-Good :
        (q : Delivery) (s : Store)
        → Good s
        → Good (others s)
        → Good (accept_webhook d others commits now q s).1
    unfolding accept_webhook
    accept_webhook-Good q s h k =
        elim (Option-cases (find_row (has_merchant_id q.merchant_id) s.merchants)) [
          | inl unknown ↦ rw (accept_webhook, unknown) h
          | inr (m, known) ↦ rw (accept_webhook, known) (authenticate-Good m q s h k)
        ]
