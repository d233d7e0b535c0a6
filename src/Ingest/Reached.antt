-- ===== src/Ingest/Reached.antt =====
-- Whole histories of ingestion: synchronous deliveries, accepted ones, single materializations and
-- worker passes, in any order, with other sessions' commits in between.
use pay_twin_os.Prelude.{
  ℕ, ◌≡◌, refl, sym, subst, inl, inr, Bool, true, false, Option, none, some, List, [], ◌∷◌,
  if_intro, Option-cases,
}
use pay_twin_os.Table.{find_row}
use pay_twin_os.Payments.Rows.{CanonicalEvent, Db}
use pay_twin_os.Bus.Delivery.{commit}
use pay_twin_os.Ingest.Envelope.{from_envelope}
use pay_twin_os.Ingest.Rows.{
  InboxStatus, EventInbox, is_done, Store, Deployment, IngestBody, inbox_not_found, invalid_inbox,
  unknown_merchant, unknown_provider, bad_signature, malformed_payload, duplicate, accepted,
  applied, IngestResult, result, event_key, has_inbox_id, put_inbox, set_status, finish, undo,
}
use pay_twin_os.Ingest.Accept.{Delivery, accept_webhook}
use pay_twin_os.Ingest.Materialize.{
  apply_once, apply_unless_done, materialize_row, materialize_inbox, materialize_accepted,
  ingest_webhook, dead_after, process_one, process_ids, process_pending_inbox, Tally, pending_ids,
}
use pay_twin_os.Ingest.Once.{Quiet, Replayed}
use pay_twin_os.Ingest.Replay.{
  Good, finish-Good, committed-Good, undo-Good, put_inbox-Good, accept_webhook-Good,
}
use pay_twin_os.Ingest.Materialized.{materialize_inbox-Replayed}

module _ (base : Db) (d : Deployment) where
  finish-true-Quiet : (s : Store) → Quiet (finish true s)
  unfolding finish commit
  finish-true-Quiet s = record { durable = refl; pending = refl }

  materialize_row-Quiet :
      (now : ℕ) (row : EventInbox) (s : Store)
      → Quiet s
      → Quiet (materialize_row d true now row s).1
  unfolding materialize_row apply_unless_done apply_once
  materialize_row-Quiet now row s q =
      if_intro (λ (r : IngestResult × Store). Quiet r.1) (is_done row.status) q
        (pending (from_envelope d.clock row.canonical_payload))
    where
      stored : (e : CanonicalEvent) → Quiet (apply_unless_done d true now row e s).1
      stored e =
          elim (Option-cases
            (find_row (event_key e.provider e.organization_id e.external_event_id) s.events)) [
              | inl free ↦ rw (apply_unless_done, free) (finish-true-Quiet _)
              | inr (there, found) ↦ rw (apply_unless_done, found) (finish-true-Quiet _)
            ]

      pending :
          (o : Option CanonicalEvent)
          → Quiet (
              let y : IngestResult × Store = elim o [
                | none ↦ (
                  result 422 invalid_inbox,
                  finish true (put_inbox (set_status InboxStatus.dead row) s),
                )
                | some e ↦ apply_unless_done d true now row e s
              ] in
              y.1)
      pending none = finish-true-Quiet _
      pending (some e) = stored e

  materialize_inbox-Quiet :
      (now id : ℕ) (s : Store) → Quiet s → Quiet (materialize_inbox d true now id s).1
  unfolding materialize_inbox
  materialize_inbox-Quiet now id s q = elim (Option-cases (find_row (has_inbox_id id) s.inbox)) [
    | inl gone ↦ rw (materialize_inbox, gone) q
    | inr (row, found) ↦ rw (materialize_inbox, found) (materialize_row-Quiet now row s q)
  ]

  materialize_inbox-Good :
      (now id : ℕ) (s : Store) → Good base s → Good base (materialize_inbox d true now id s).1
  materialize_inbox-Good now id s (h, q) =
      (materialize_inbox-Replayed base d true now id s h, materialize_inbox-Quiet now id s q)

  materialize_accepted-Good :
      (now : ℕ) (r : IngestResult) (s : Store)
      → Good base s
      → Good base (materialize_accepted d true now r s).1
  materialize_accepted-Good now r s h = by_body r.body
    where
      by_body :
          (b : IngestBody) → Good base (materialize_accepted d true now (record r { body = b }) s).1
      by_body (accepted id t) = materialize_inbox-Good now id s h
      by_body unknown_merchant = finish-Good base true s h
      by_body unknown_provider = finish-Good base true s h
      by_body bad_signature = finish-Good base true s h
      by_body malformed_payload = finish-Good base true s h
      by_body inbox_not_found = finish-Good base true s h
      by_body invalid_inbox = finish-Good base true s h
      by_body (duplicate id) = finish-Good base true s h
      by_body (applied id t p l) = finish-Good base true s h

  ingest_webhook-Good :
      (others : Store → Store) (now : ℕ) (q : Delivery) (s : Store)
      → Good base s
      → Good base (others s)
      → Good base (ingest_webhook d others true now q s).1
  unfolding ingest_webhook
  ingest_webhook-Good others now q s h k =
      let r = accept_webhook d others false now q s in
      materialize_accepted-Good now r.0 r.1 (accept_webhook-Good base d others false now q s h k)

  dead_after-Good : (id : ℕ) (s : Store) → Good base s → Good base (dead_after d id s)
  unfolding dead_after
  dead_after-Good id s h = elim (Option-cases (find_row (has_inbox_id id) (undo s).inbox)) [
    | inl gone ↦ rw (dead_after, gone) (undo-Good base s h)
    | inr (row, found) ↦
        rw (dead_after, found)
          (finish-Good base true _
            (put_inbox-Good base (undo s) _ _ row found refl refl (undo-Good base s h)))
  ]

  process_one-Good :
      (raises : ℕ → Bool) (now id : ℕ) (s : Store)
      → Good base s
      → Good base (process_one d raises now id s).1
  unfolding process_one
  process_one-Good raises now id s h =
      if_intro (λ (r : Bool × Store). Good base r.1) (raises id) (dead_after-Good id s h)
        (committed-Good base _ (materialize_inbox-Replayed base d false now id s h.0))

  process_ids-Good :
      (raises : ℕ → Bool) (now : ℕ) (ids : List ℕ) (t : Tally) (s : Store)
      → Good base s
      → Good base (process_ids d raises now ids (t, s)).1
  unfolding process_ids
  process_ids-Good raises now [] t s h = h
  process_ids-Good raises now (id ∷ ids) t s h =
      process_ids-Good raises now ids _ (process_one d raises now id s).1
        (process_one-Good raises now id s h)

  -- The stores that a deployment comes to. What another session commits between two statements of
  -- one operation is a store that was reached.
  pub data Reached (start : Store) : Store → Type 0 where
    starts : Reached start start
    accepts :
        (q : Delivery) (now : ℕ) (s between t : Store)
        → Reached start s
        → Reached start between
        → t ≡ (accept_webhook d (λ _. between) true now q s).1
        → Reached start t
    ingests :
        (q : Delivery) (now : ℕ) (s between t : Store)
        → Reached start s
        → Reached start between
        → t ≡ (ingest_webhook d (λ _. between) true now q s).1
        → Reached start t
    materializes :
        (now id : ℕ) (s t : Store)
        → Reached start s
        → t ≡ (materialize_inbox d true now id s).1
        → Reached start t
    works :
        (raises : ℕ → Bool) (now limit : ℕ) (s t : Store)
        → Reached start s
        → t ≡ (process_pending_inbox d raises now limit s).1
        → Reached start t

  Reached-Good : (start t : Store) → Good base start → Reached start t → Good base t
  unfolding process_pending_inbox
  Reached-Good start t g starts = g
  Reached-Good start t g (accepts q now s between _ r k e) = subst (Good base) (sym e) (
      accept_webhook-Good base d (λ _. between) true now q s (Reached-Good start s g r)
        (Reached-Good start between g k))
  Reached-Good start t g (ingests q now s between _ r k e) = subst (Good base) (sym e) (
      ingest_webhook-Good (λ _. between) now q s (Reached-Good start s g r)
        (Reached-Good start between g k))
  Reached-Good start t g (materializes now id s _ r e) =
      subst (Good base) (sym e) (materialize_inbox-Good now id s (Reached-Good start s g r))
  Reached-Good start t g (works raises now limit s _ r e) =
      subst (Good base) (sym e)
        (process_ids-Good raises now (pending_ids limit s) _ s (Reached-Good start s g r))

  -- Over every history, racing sessions and failing deliveries included, the inbox holds each
  -- delivery once and the event table each event once; the payment tables are what the state machine
  -- makes, at the times of processing, of the events that stand in the event table, payload and
  -- amounts included, from the first row to the last; and the outbox announces each event once, in
  -- the same order.
  pub Reached-Replayed :
      (start t : Store) → Replayed base start → Quiet start → Reached start t → Replayed base t
  Reached-Replayed start t h q r = (Reached-Good start t (h, q) r).0
