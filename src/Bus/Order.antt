-- ===== src/Bus/Order.antt =====
-- What a commit, or the release of a savepoint, hands to a subscriber with room.
use mathlib.Core.List.{Mem, mem-map_of_mem, append_assoc, append-nil}
use pay_twin_os.Prelude.{
  ◌+◌, ◌≤◌, ◌<◌, ◌≡◌, refl, sym, ap, ◌∙◌, Bool, true, false, inl, inr, List, [], ◌∷◌, ◌++◌, arith,
  str_eq, length, length-append, map, Bool-cases,
}
use pay_twin_os.Table.{rows_where}
use pay_twin_os.Bus.Delivery.{
  BusEvent, Subscriber, maxsize, Session, offer, publish, publish_all, commit, rollback, release,
}

module _ {P : Type 0} where
  abbrev pub is_for : Subscriber P → BusEvent P → Bool
  is_for q e = str_eq q.organization_id e.organization_id

  offers : List (BusEvent P) → Subscriber P → Subscriber P
  offers [] q = q
  offers (e ∷ es) q = offers es (offer e q)

  map-map :
      (e : BusEvent P) (es : List (BusEvent P)) (qs : List (Subscriber P))
      → map (offers es) (publish e qs) ≡ map (offers (e ∷ es)) qs
  unfolding publish offers
  map-map e es [] = refl
  map-map e es (q ∷ qs) = ap (λ r. offers es (offer e q) ∷ r) (map-map e es qs)

  offers-nil : (qs : List (Subscriber P)) → map (offers []) qs ≡ qs
  unfolding offers
  offers-nil [] = refl
  offers-nil (q ∷ qs) = ap (λ r. q ∷ r) (offers-nil qs)

  publish_all-offers :
      (es : List (BusEvent P)) (qs : List (Subscriber P)) → publish_all es qs ≡ map (offers es) qs
  unfolding publish_all
  publish_all-offers [] qs = sym (offers-nil qs)
  publish_all-offers (e ∷ es) qs = publish_all-offers es (publish e qs) ∙ map-map e es qs

  with_event : Subscriber P → BusEvent P → Subscriber P
  with_event q e = record q { items = q.items ++ e ∷ [] }

  offer-mine :
      (e : BusEvent P) (q : Subscriber P)
      → is_for q e ≡ true
      → length q.items < maxsize
      → offer e q ≡ with_event q e
  unfolding offer with_event
  offer-mine e q mine room = ground arith

  offer-foreign : (e : BusEvent P) (q : Subscriber P) → is_for q e ≡ false → offer e q ≡ q
  unfolding offer
  offer-foreign e q foreign = rw foreign refl

  offers-room :
      (es : List (BusEvent P)) (q : Subscriber P)
      → length q.items + length es ≤ maxsize
      → ((offers es q).id ≡ q.id) × ((offers es q).items ≡ q.items ++ rows_where (is_for q) es)
  unfolding offers with_event
  offers-room [] q h = (refl, sym (append-nil q.items))
  offers-room (e ∷ es) q h = elim (Bool-cases (is_for q e)) [
    | inl mine ↦
        rw (offers, mine, offer-mine e q mine (omega arith))
          (let room : length (q.items ++ e ∷ []) + length es ≤ maxsize =
              omega (arith, length-append q.items (e ∷ [])) in
            let (same, items) = offers-room es (with_event q e) room in
            (same, items ∙ append_assoc q.items (e ∷ []) _))
    | inr foreign ↦ rw (offers, foreign, offer-foreign e q foreign) (offers-room es q (omega arith))
  ]

  -- A subscriber whose queue has room for all that waits receives, at a commit, the waiting events of
  -- its own organization in the order of their publication, behind what it already had.
  pub commit_in_order :
      (s : Session P) (q : Subscriber P)
      → Mem q s.subscribers
      → length q.items + length s.pending ≤ maxsize
      → (q' : Subscriber P) × Mem q' (commit s).subscribers
        × (q'.id ≡ q.id)
        × (q'.items ≡ q.items ++ rows_where (is_for q) s.pending)
  unfolding commit
  commit_in_order s q m h =
      let (same, items) = offers-room s.pending q h in
      (
        offers s.pending q,
        rw (publish_all-offers s.pending s.subscribers) (mem-map_of_mem (offers s.pending) m),
        same,
        items,
      )

  -- The release of a savepoint hands out what waits, so a subscriber with room keeps the events of its
  -- organization although the transaction around the savepoint is then rolled back and none of them
  -- is in the outbox beyond the durable rows.
  pub released_then_rolled_back :
      (s : Session P) (q : Subscriber P)
      → Mem q s.subscribers
      → length q.items + length s.pending ≤ maxsize
      → ((rollback (release s)).outbox ≡ s.durable)
        × ((q' : Subscriber P) × Mem q' (rollback (release s)).subscribers
            × (q'.id ≡ q.id)
            × (q'.items ≡ q.items ++ rows_where (is_for q) s.pending))
  unfolding commit release rollback
  released_then_rolled_back s q m h = (refl, commit_in_order s q m h)
