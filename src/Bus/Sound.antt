-- ===== src/Bus/Sound.antt =====
-- Queues that hold only events of their own organization out of given rows.
use mathlib.Core.List.{Mem, mem-append_left, mem-append_right, mem-cons_self}
use pay_twin_os.Prelude.{
  ℕ, ◌≤◌, ◌≡◌, sym, String, Bool, List, [], ◌∷◌, ◌++◌, arith, ltb, str_eq, eq_iff, if_split, length,
  length-append, All, All-imp, All-snoc,
}
use pay_twin_os.Table.{rows_where}
use pay_twin_os.Bus.Delivery.{BusEvent, Subscriber, maxsize, offer, publish, publish_all}

module _ {P : Type 0} where
  -- A queue holds at most `maxsize` events, each of its own organization and each durable.
  pub record Sound (durable : List (BusEvent P)) (q : Subscriber P) : Type 0 where
    pub bounded : length q.items ≤ maxsize
    pub own : All (λ (e : BusEvent P). e.organization_id ≡ q.organization_id) q.items
    pub stored : All (λ e. Mem e durable) q.items

  pub Sound-more :
      (rows more : List (BusEvent P)) (q : Subscriber P) → Sound rows q → Sound (rows ++ more) q
  Sound-more rows more q h = record {
    bounded = h.bounded;
    own = h.own;
    stored = All-imp _ _ q.items (λ e m. mem-append_left more m) h.stored;
  }

  offer-Sound :
      (rows : List (BusEvent P)) (e : BusEvent P) (q : Subscriber P)
      → Mem e rows
      → Sound rows q
      → Sound rows (offer e q)
  unfolding offer
  offer-Sound rows e q m h =
      if_split (Sound rows) (str_eq q.organization_id e.organization_id)
        (λ mine.
          if_split (Sound rows) (ltb (length q.items) maxsize)
            (λ room. record {
              bounded = ground (arith, length-append q.items (e ∷ []));
              own =
                  All-snoc _ e q.items (sym ((eq_iff q.organization_id e.organization_id).0 mine))
                    h.own;
              stored = All-snoc _ e q.items m h.stored;
            })
            (λ full. h))
        (λ foreign. h)

  publish-Sound :
      (rows : List (BusEvent P)) (e : BusEvent P) (qs : List (Subscriber P))
      → Mem e rows
      → All (Sound rows) qs
      → All (Sound rows) (publish e qs)
  unfolding publish
  publish-Sound rows e [] m h = tt
  publish-Sound rows e (q ∷ qs) m h = (offer-Sound rows e q m h.0, publish-Sound rows e qs m h.1)

  pub publish_all-Sound :
      (rows : List (BusEvent P)) (es : List (BusEvent P)) (qs : List (Subscriber P))
      → All (λ e. Mem e rows) es
      → All (Sound rows) qs
      → All (Sound rows) (publish_all es qs)
  unfolding publish_all
  publish_all-Sound rows [] qs m h = h
  publish_all-Sound rows (e ∷ es) qs m h =
      publish_all-Sound rows es (publish e qs) m.1 (publish-Sound rows e qs m.0 h)

  pub all_members : (es : List (BusEvent P)) → All (λ e. Mem e es) es
  all_members [] = tt
  all_members (e ∷ es) =
      (mem-cons_self, All-imp _ _ es (λ x m. mem-append_right (e ∷ []) m) (all_members es))

  pub rows_where-All :
      (T : Subscriber P → Type 0) (test : Subscriber P → Bool) (qs : List (Subscriber P))
      → All T qs
      → All T (rows_where test qs)
  rows_where-All T test [] h = tt
  rows_where-All T test (q ∷ qs) h =
      if_split (All T) (test q) (λ _. (h.0, rows_where-All T test qs h.1))
        (λ _. rows_where-All T test qs h.1)

  pub new_subscriber-Sound :
      (rows : List (BusEvent P)) (id : ℕ) (org : String)
      → Sound rows (record { id = id; organization_id = org; items = [] })
  new_subscriber-Sound rows id org = record { bounded = omega arith; own = tt; stored = tt }
