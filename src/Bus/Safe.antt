-- ===== src/Bus/Safe.antt =====
-- What subscribers receive where no savepoint ends while an event waits.
use mathlib.Core.List.{mem-append_right, append_assoc, append-nil}
use pay_twin_os.Prelude.{
  subst, true, false, ap, ◌∙◌, ◌≢◌, ◌⊎◌, inl, inr, ◌||◌, refl, ◌≡◌, sym, String, Bool, List, [],
  ◌∷◌, ◌++◌, arith, All, All-imp, All-snoc,
}
use pay_twin_os.Bus.Delivery.{
  BusEvent, Session, subscribe, unsubscribe, is_other, publish_all, publish_outbox, commit,
  rollback, release, roll_back_to,
}
use pay_twin_os.Bus.History.{
  Op, subscribes, unsubscribes, publishes, commits, rolls_back, begins_nested, releases,
  rolls_back_to, Transaction, step, released, rolled_back, run, waits, ends_waiting, disturbs,
}
use pay_twin_os.Bus.Sound.{
  Sound, Sound-more, publish_all-Sound, all_members, rows_where-All, new_subscriber-Sound,
}

List-cases : {A : Type 0} (xs : List A) → (xs ≡ []) ⊎ ((x : A) × (rest : List A) × (xs ≡ x ∷ rest))
List-cases [] = inl refl
List-cases (x ∷ rest) = inr (x, rest, refl)

or-neither : (a b : Bool) → (a || b) ≡ false → (a ≡ false) × (b ≡ false)
or-neither a b h = ground arith

module _ {P : Type 0} where
  -- The outbox as a savepoint keeps it holds the durable rows and some of the waiting events.
  abbrev pub Within : Session P → List (BusEvent P) → Type 0
  Within s saved =
      (before : List (BusEvent P)) × (after : List (BusEvent P)) × (saved ≡ s.durable ++ before)
      × (s.pending ≡ before ++ after)

  -- The transaction's table continues the durable one by the events that wait.
  pub record Consistent (t : Transaction P) : Type 0 where
    pub waiting : t.session.outbox ≡ t.session.durable ++ t.session.pending
    pub sound : All (Sound t.session.durable) t.session.subscribers
    pub saved : All (Within t.session) t.savepoints

  published-Within :
      (s : Session P) (org topic : String) (payload : P) (saved : List (BusEvent P))
      → Within s saved
      → Within (publish_outbox org topic payload s) saved
  unfolding publish_outbox
  published-Within s org topic payload saved (before, after, kept, queued) =
      let e : BusEvent P = record { topic = topic; organization_id = org; payload = payload } in
      (
        before,
        after ++ e ∷ [],
        kept,
        ap (λ l. l ++ e ∷ []) queued ∙ append_assoc before after (e ∷ []),
      )

  quiet : (t : Transaction P) → waits t ≡ false → t.session.pending ≡ []
  quiet t h = elim (List-cases t.session.pending) [
    | inl e ↦ e
    | inr (x, xs, e) ↦ absurd (busy (sym (ap any e) ∙ h))
  ]
    where
      any : List (BusEvent P) → Bool
      any es = elim es [ [] ↦ false | e ∷ es ↦ true ]

      busy : true ≢ false
      busy e = absurd (cc)

  nothing_before : (before after : List (BusEvent P)) → [] ≡ before ++ after → before ≡ []
  nothing_before [] after h = refl
  nothing_before (e ∷ before) after h = absurd (cc)

  release-idle : (s : Session P) → s.pending ≡ [] → release s ≡ s
  unfolding release publish_all
  release-idle s idle =
      ap (λ p. record s { pending = []; subscribers = publish_all p s.subscribers }) idle
      ∙ ap (λ p. record s { pending = p }) (sym idle)

  roll_back_to-idle :
      (s : Session P) (saved : List (BusEvent P))
      → s.pending ≡ []
      → saved ≡ s.outbox
      → roll_back_to saved s ≡ s
  unfolding roll_back_to
  roll_back_to-idle s saved idle same =
      ap (λ o. record s { outbox = o; pending = [] }) same
      ∙ ap (λ p. record s { pending = p }) (sym idle)

  -- Where nothing waits, a savepoint has kept the outbox as it is.
  saved-idle :
      (t : Transaction P) (saved : List (BusEvent P))
      → t.session.pending ≡ []
      → Within t.session saved
      → Consistent t
      → saved ≡ t.session.outbox
  saved-idle t saved idle (before, after, kept, queued) h =
      kept
      ∙ ap (λ b. t.session.durable ++ b)
          (nothing_before before after (sym idle ∙ queued) ∙ sym idle)
      ∙ sym h.waiting

  Consistent-outer :
      (t : Transaction P) (s : Session P) (saved : List (BusEvent P))
      (outer : List (List (BusEvent P)))
      → s ≡ t.session
      → All (Within t.session) (saved ∷ outer)
      → Consistent t
      → Consistent (record { session = s; savepoints = outer })
  Consistent-outer t s saved outer same a h =
      subst (λ u. Consistent (record { session = u; savepoints = outer })) (sym same)
        (record { waiting = h.waiting; sound = h.sound; saved = a.1 })

  released-Consistent :
      (saves : List (List (BusEvent P))) (t : Transaction P)
      → t.session.pending ≡ []
      → All (Within t.session) saves
      → Consistent t
      → Consistent (released saves t)
  released-Consistent [] t idle a h = h
  released-Consistent (saved ∷ outer) t idle a h =
      Consistent-outer t _ saved outer (release-idle t.session idle) a h

  rolled_back-Consistent :
      (saves : List (List (BusEvent P))) (t : Transaction P)
      → t.session.pending ≡ []
      → All (Within t.session) saves
      → Consistent t
      → Consistent (rolled_back saves t)
  rolled_back-Consistent [] t idle a h = h
  rolled_back-Consistent (saved ∷ outer) t idle a h =
      Consistent-outer t _ saved outer
        (roll_back_to-idle t.session saved idle (saved-idle t saved idle a.0 h)) a h

  step-Consistent :
      (o : Op P) (t : Transaction P)
      → ends_waiting o t ≡ false
      → Consistent t
      → Consistent (step o t)
  unfolding step subscribe unsubscribe publish_outbox commit rollback
  step-Consistent (subscribes org) t n h = record {
    waiting = h.waiting;
    sound =
        All-snoc (Sound t.session.durable) _ t.session.subscribers (new_subscriber-Sound _ _ org)
          h.sound;
    saved = h.saved;
  }
  step-Consistent (unsubscribes org id) t n h = record {
    waiting = h.waiting;
    sound =
        rows_where-All (Sound t.session.durable) (is_other org id) t.session.subscribers h.sound;
    saved = h.saved;
  }
  step-Consistent (publishes org topic payload) t n h = record {
    waiting = rw h.waiting (append_assoc t.session.durable t.session.pending _);
    sound = h.sound;
    saved = All-imp _ _ t.savepoints (published-Within t.session org topic payload) h.saved;
  }
  step-Consistent commits t n h = record {
    waiting = sym (append-nil t.session.outbox);
    sound = rw h.waiting (
        publish_all-Sound _ t.session.pending t.session.subscribers
          (All-imp _ _ t.session.pending (λ e m. mem-append_right t.session.durable m)
            (all_members t.session.pending))
          (All-imp _ _ t.session.subscribers (Sound-more t.session.durable t.session.pending)
            h.sound));
    saved = tt;
  }
  step-Consistent rolls_back t n h = record {
    waiting = sym (append-nil t.session.durable);
    sound = h.sound;
    saved = tt;
  }
  step-Consistent begins_nested t n h = record {
    waiting = h.waiting;
    sound = h.sound;
    saved = ((t.session.pending, [], h.waiting, sym (append-nil t.session.pending)), h.saved);
  }
  step-Consistent releases t n h = released-Consistent t.savepoints t (quiet t n) h.saved h
  step-Consistent rolls_back_to t n h = rolled_back-Consistent t.savepoints t (quiet t n) h.saved h

  -- Over every history in which no savepoint ends while an event waits, a subscriber has received only
  -- events of its own organization that are durable in the outbox, at most `maxsize` of them wait in
  -- its queue, and what the transaction wrote to the outbox beyond the durable rows is exactly what
  -- waits for its commit.
  pub run-Consistent :
      (os : List (Op P)) (t : Transaction P)
      → disturbs os t ≡ false
      → Consistent t
      → Consistent (run os t)
  unfolding run disturbs
  run-Consistent [] t n h = h
  run-Consistent (o ∷ os) t n h =
      let (now, later) = or-neither _ _ n in
      run-Consistent os (step o t) later (step-Consistent o t now h)
