-- ===== src/Ingest/Authentic.antt =====
-- Which deliveries are accepted, and what a redelivery does.
use pay_twin_os.Prelude.{
  ℕ, ◌≡◌, refl, ◌∙◌, ◌≢◌, inl, inr, Bool, true, false, not, none, some, [], ◌∷◌, ◌++◌, arith,
  if_split, Option-cases,
}
use pay_twin_os.Table.{find_row}
use pay_twin_os.Tenancy.{Merchant, has_merchant_id}
use pay_twin_os.Payments.Rows.{CanonicalEvent}
use pay_twin_os.Bus.Delivery.{commit}
use pay_twin_os.Ingest.Redact.{Json}
use pay_twin_os.Ingest.Rows.{
  EventInbox, is_received, is_processed, Store, Connector, get_connector, Deployment, IngestBody,
  IngestResult, result, inbox_key, finish, InboxStatus,
}
use pay_twin_os.Ingest.Accept.{
  Delivery, redelivered, inbox_row, insert_inbox, enqueue, read_event, receive, authentic,
  authenticate, accept_webhook,
}

module _ (d : Deployment) (others : Store → Store) (commits : Bool) (now : ℕ) where
  -- What stands behind an accepted delivery.
  pub record Genuine (q : Delivery) (s t : Store) : Type 0 where
    pub merchant : Merchant
    pub connector : Connector
    pub raw : Json
    pub event : CanonicalEvent
    pub known : find_row (has_merchant_id q.merchant_id) s.merchants ≡ some merchant
    pub provided : get_connector d.registry q.provider ≡ some connector
    pub signed : authentic d others commits now connector merchant q s ≡ true
    pub read : read_event d others commits now connector merchant q ≡ some (raw, event)
    pub new :
        find_row (inbox_key q.provider merchant.organization_id event.external_event_id) s.inbox
        ≡ none
    pub stored :
        t.inbox
        ≡ (others s).inbox ++ inbox_row d others commits now q merchant raw event (others s) ∷ []

  not-eq-false : (b : Bool) → not b ≡ false → b ≡ true
  not-eq-false true h = refl
  not-eq-false false h = absurd (cc)

  finish-inbox : (s : Store) → (finish commits s).inbox ≡ s.inbox
  unfolding finish
  finish-inbox s = ground arith

  -- A result with the status 202 has a genuine delivery behind it.
  abbrev Backed : Delivery → Store → IngestResult × Store → Type 0
  Backed q s r = r.0.status ≡ 202 → Genuine q s r.1

  enqueue-Backed :
      (q : Delivery) (s : Store) (m : Merchant) (c : Connector) (raw : Json) (e : CanonicalEvent)
      → find_row (has_merchant_id q.merchant_id) s.merchants ≡ some m
      → get_connector d.registry q.provider ≡ some c
      → authentic d others commits now c m q s ≡ true
      → read_event d others commits now c m q ≡ some (raw, e)
      → Backed q s (enqueue d others commits now q m raw e s)
  unfolding enqueue insert_inbox
  enqueue-Backed q s m c raw e known provided signed read =
      let test = inbox_key q.provider m.organization_id e.external_event_id in
      elim (Option-cases (find_row test s.inbox)) [
        | inr (row, found) ↦ rw (enqueue, found) (λ h. absurd (omega arith))
        | inl free ↦ elim (Option-cases (find_row test (others s).inbox)) [
          | inr (winner, found) ↦
              rw (enqueue, free, insert_inbox, found) (λ h. absurd (omega arith))
          | inl open_ ↦
              rw (enqueue, free, insert_inbox, open_)
                (λ h. record {
                  merchant = m;
                  connector = c;
                  raw = raw;
                  event = e;
                  known = known;
                  provided = provided;
                  signed = signed;
                  read = read;
                  new = free;
                  stored = finish-inbox _;
                })
        ]
      ]

  receive-Backed :
      (q : Delivery) (s : Store) (m : Merchant) (c : Connector)
      → find_row (has_merchant_id q.merchant_id) s.merchants ≡ some m
      → get_connector d.registry q.provider ≡ some c
      → authentic d others commits now c m q s ≡ true
      → Backed q s (receive d others commits now c m q s)
  unfolding receive
  receive-Backed q s m c known provided signed =
      elim (Option-cases (read_event d others commits now c m q)) [
        | inl bad ↦ rw (receive, bad) (λ h. absurd (omega arith))
        | inr ((raw, e), read) ↦
            rw (receive, read) (enqueue-Backed q s m c raw e known provided signed read)
      ]

  authenticate-Backed :
      (q : Delivery) (s : Store) (m : Merchant)
      → find_row (has_merchant_id q.merchant_id) s.merchants ≡ some m
      → Backed q s (authenticate d others commits now m q s)
  unfolding authenticate
  authenticate-Backed q s m known = elim (Option-cases (get_connector d.registry q.provider)) [
    | inl unknown ↦ rw (authenticate, unknown) (λ h. absurd (omega arith))
    | inr (c, provided) ↦
        rw (authenticate, provided)
          (if_split (Backed q s) (not (authentic d others commits now c m q s))
            (λ _ h. absurd (omega arith))
            (λ signed. receive-Backed q s m c known provided (not-eq-false _ signed)))
  ]

  -- A delivery is accepted with 202 only for a known merchant and provider, signed under one of the
  -- merchant's active secrets, readable as an event and not in the inbox; and what it stores is
  -- exactly one inbox row, behind those that other sessions have committed.
  pub accept_webhook-Genuine :
      (q : Delivery) (s : Store)
      → (accept_webhook d others commits now q s).0.status ≡ 202
      → Genuine q s (accept_webhook d others commits now q s).1
  unfolding accept_webhook
  accept_webhook-Genuine q s =
      elim (Option-cases (find_row (has_merchant_id q.merchant_id) s.merchants)) [
        | inl unknown ↦ rw (accept_webhook, unknown) (λ h. absurd (omega arith))
        | inr (m, known) ↦ rw (accept_webhook, known) (authenticate-Backed q s m known)
      ]

  waits-not-processed :
      (status : InboxStatus) → is_received status ≡ true → is_processed status ≢ true
  waits-not-processed InboxStatus.received h k = absurd (cc)
  waits-not-processed InboxStatus.processed h k = absurd (cc)
  waits-not-processed InboxStatus.duplicate h k = absurd (cc)
  waits-not-processed InboxStatus.dead h k = absurd (cc)

  abbrev pub Untouched : Store → Store → Type 0
  Untouched s t =
      (t.core ≡ s.core)
      × (t.events ≡ s.events)
      × (t.session.outbox ≡ s.session.outbox)
      × (t.dead_letters ≡ s.dead_letters)

  finish-Untouched : (s t : Store) → Untouched s t → Untouched s (finish commits t)
  unfolding finish commit
  finish-Untouched s t u = if_split (Untouched s) commits (λ _. u) (λ _. u)

  -- A genuine delivery that is in the inbox already is answered as a duplicate of that row. It
  -- applies nothing, buries nothing, and leaves the inbox as it is while that row still waits.
  pub accept_webhook_again :
      (q : Delivery) (s : Store) (m : Merchant) (c : Connector) (raw : Json) (e : CanonicalEvent)
      (row : EventInbox)
      → find_row (has_merchant_id q.merchant_id) s.merchants ≡ some m
      → get_connector d.registry q.provider ≡ some c
      → authentic d others commits now c m q s ≡ true
      → read_event d others commits now c m q ≡ some (raw, e)
      → find_row (inbox_key q.provider m.organization_id e.external_event_id) s.inbox ≡ some row
      → let r = accept_webhook d others commits now q s in
        (r.0 ≡ result 200 (IngestBody.duplicate row.id))
        × Untouched s r.1
        × (is_received row.status ≡ true → r.1.inbox ≡ s.inbox)
  unfolding accept_webhook authenticate receive enqueue redelivered
  accept_webhook_again q s m c raw e row known provided signed read found =
      rw (accept_webhook, known, authenticate, provided, signed, receive, read, enqueue, found)
        (
          refl,
          finish-Untouched s _ (
              if_split (Untouched s) (is_processed row.status) (λ _. (refl, refl, refl, refl))
                (λ _. (refl, refl, refl, refl))),
          λ waits.
              finish-inbox _
              ∙ if_split (λ (t : Store). t.inbox ≡ s.inbox) (is_processed row.status)
                  (λ done. absurd (waits-not-processed row.status waits done)) (λ _. refl),
        )
