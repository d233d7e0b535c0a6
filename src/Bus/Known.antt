-- ===== src/Bus/Known.antt =====
-- What subscribers receive, whatever savepoints end and when.
use mathlib.Core.List.{
  Mem, mem-append_left, mem-append_right, mem-cons_self, append_assoc, append-nil,
}
use pay_twin_os.Prelude.{subst, List, [], ◌∷◌, ◌++◌, All, All-imp, All-snoc}
use pay_twin_os.Bus.Delivery.{
  BusEvent, Session, subscribe, unsubscribe, is_other, publish_all, publish_outbox, commit,
  rollback, release, roll_back_to,
}
use pay_twin_os.Bus.History.{
  Op, subscribes, unsubscribes, publishes, commits, rolls_back, begins_nested, releases,
  rolls_back_to, Transaction, step, released, rolled_back, run, event_by, published_by,
}
use pay_twin_os.Bus.Sound.{
  Sound, Sound-more, publish_all-Sound, rows_where-All, new_subscriber-Sound,
}

module _ {P : Type 0} where
  -- Whatever waits or was received is one of the events in `known`.
  pub record Known (known : List (BusEvent P)) (t : Transaction P) : Type 0 where
    pub pending : All (λ e. Mem e known) t.session.pending
    pub received : All (Sound known) t.session.subscribers

  Known-more :
      (known more : List (BusEvent P)) (t : Transaction P) → Known known t → Known (known ++ more) t
  Known-more known more t h = record {
    pending = All-imp _ _ t.session.pending (λ e m. mem-append_left more m) h.pending;
    received = All-imp _ _ t.session.subscribers (Sound-more known more) h.received;
  }

  published-Known :
      (known : List (BusEvent P)) (s : Session P)
      → All (λ e. Mem e known) s.pending
      → All (Sound known) s.subscribers
      → All (Sound known) (publish_all s.pending s.subscribers)
  published-Known known s p r = publish_all-Sound known s.pending s.subscribers p r

  released-Known :
      (known : List (BusEvent P)) (saves : List (List (BusEvent P))) (t : Transaction P)
      → Known known t
      → Known known (released saves t)
  unfolding release
  released-Known known [] t h = h
  released-Known known (saved ∷ outer) t h = record {
    pending = tt;
    received = published-Known known t.session h.pending h.received;
  }

  rolled_back-Known :
      (known : List (BusEvent P)) (saves : List (List (BusEvent P))) (t : Transaction P)
      → Known known t
      → Known known (rolled_back saves t)
  unfolding roll_back_to
  rolled_back-Known known [] t h = h
  rolled_back-Known known (saved ∷ outer) t h = record { pending = tt; received = h.received }

  same-Known :
      (known : List (BusEvent P)) (t : Transaction P) → Known known t → Known (known ++ []) t
  same-Known known t h = Known-more known [] t h

  step-Known :
      (known : List (BusEvent P)) (o : Op P) (t : Transaction P)
      → Known known t
      → Known (known ++ event_by o) (step o t)
  unfolding step subscribe unsubscribe publish_outbox commit rollback
  step-Known known (subscribes org) t h = same-Known known _ (record {
    pending = h.pending;
    received =
        All-snoc (Sound known) _ t.session.subscribers (new_subscriber-Sound _ _ org) h.received;
  })
  step-Known known (unsubscribes org id) t h = same-Known known _ (record {
    pending = h.pending;
    received = rows_where-All (Sound known) (is_other org id) t.session.subscribers h.received;
  })
  step-Known known (publishes org topic payload) t h =
      let more = Known-more known _ t h in
      record {
        pending =
            All-snoc _ _ t.session.pending (mem-append_right known mem-cons_self) more.pending;
        received = more.received;
      }
  step-Known known commits t h =
      same-Known known _
        (record { pending = tt; received = published-Known known t.session h.pending h.received })
  step-Known known rolls_back t h =
      same-Known known _ (record { pending = tt; received = h.received })
  step-Known known begins_nested t h =
      same-Known known _ (record { pending = h.pending; received = h.received })
  step-Known known releases t h = same-Known known _ (released-Known known t.savepoints t h)
  step-Known known rolls_back_to t h = same-Known known _ (rolled_back-Known known t.savepoints t h)

  -- Over every history, whatever savepoints end in it and when, a subscriber has received only events
  -- of its own organization that the history published or that were known before it, and at most
  -- `maxsize` of them wait in its queue.
  pub run-Known :
      (os : List (Op P)) (t : Transaction P) (known : List (BusEvent P))
      → Known known t
      → Known (known ++ published_by os) (run os t)
  unfolding run
  run-Known [] t known h = rw (append-nil known) h
  run-Known (o ∷ os) t known h =
      subst (λ k. Known k (run os (step o t))) (append_assoc known (event_by o) (published_by os))
        (run-Known os (step o t) (known ++ event_by o) (step-Known known o t h))
