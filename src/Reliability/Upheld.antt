-- ===== src/Reliability/Upheld.antt =====
-- INV-002, INV-005 and INV-003 of the correct handler: effects, their source events and tenants.
use pay_twin_os.Prelude.{
  ◌≡◌, refl, sym, ap, subst, ◌≢◌, inl, inr, String, Bool, true, false, List, [], ◌∷◌, ◌++◌, map,
  arith, eq_iff, eq_refl, All, All-imp, All-snoc,
}
use pay_twin_os.Reliability.Events.{LabEvent, correct, EffectKind, Effect, World, member}
use pay_twin_os.Reliability.Engine.{effect_of, apply_type, deliver, new_world}
use pay_twin_os.Reliability.Invariants.{tenant_isolation, one_effect_per_event}
use pay_twin_os.Reliability.Dicts.{NoRepeat, NoRepeat-snoc, any_of-eq-false, has_repeat-eq-false}
use pay_twin_os.Reliability.Correct.{Applied, apply_type-Applied, deliver_keeps}

All-effects :
    (Q : Effect → Type 0) (w : World) (ev : LabEvent) (w' : World)
    → Applied w ev w'
    → All Q w.effects
    → ((k : EffectKind) → Q (effect_of k ev))
    → All Q w'.effects
All-effects Q w ev w' a q new = elim a.effects [
  | inl e ↦ subst (All Q) (sym e) q
  | inr (k, e) ↦ subst (All Q) (sym e) (All-snoc Q (effect_of k ev) w.effects (new k) q)
]

abbrev AtHome : World → Type 0
AtHome w = All (λ (e : Effect). e.tenant ≡ w.home_tenant) w.effects

-- Under the correct policy, no deliveries give an effect of another tenant.
pub deliver-tenant_isolation :
    (home : String) (single : Bool) (evs : List LabEvent)
    → tenant_isolation (deliver (new_world home single) correct evs) ≡ false
unfolding tenant_isolation new_world
deliver-tenant_isolation home single evs =
    let w' = deliver (new_world home single) correct evs in
    let at_home : AtHome w' =
      deliver_keeps AtHome (λ w ev b n h. h) (λ w ev h. h)
        (λ w ev fresh same signed h.
          let w₁ = record w { seen = ev.event_id ∷ w.seen } in
          let a = apply_type-Applied ev.type w₁ ev in
          subst
            (λ t. All (λ (e : Effect). e.tenant ≡ t) (apply_type ev.type w₁ correct ev).0.effects)
            (sym a.same_home) (All-effects (λ e. e.tenant ≡ w.home_tenant) w₁ ev _ a h (λ k. same)))
        evs (new_world home single) tt in
    any_of-eq-false _ w'.effects
      (All-imp _ _ w'.effects (λ e p. ground (arith, eq_iff e.tenant w'.home_tenant)) at_home)

abbrev sources : List Effect → List String
sources es = map (λ (e : Effect). e.src_event_id) es

sources-snoc :
    (es : List Effect) (e : Effect) → sources (es ++ e ∷ []) ≡ sources es ++ e.src_event_id ∷ []
sources-snoc [] e = refl
sources-snoc (f ∷ es) e = ap (λ ks. f.src_event_id ∷ ks) (sources-snoc es e)

record Once (w : World) : Type 0 where
  pub distinct : NoRepeat (sources w.effects)
  pub known : All (λ k. member k w.seen ≡ true) (sources w.effects)

member-ne : (x y : String) (xs : List String) → member x xs ≡ true → member y xs ≡ false → x ≢ y
member-ne x y xs h g e = absurd (cc)

Once-acts :
    (w : World) (ev : LabEvent) (w' : World)
    → member ev.event_id w.seen ≡ false
    → Applied (record w { seen = ev.event_id ∷ w.seen }) ev w'
    → Once w
    → Once w'
Once-acts w ev w' fresh a h =
    let seen_more : All (λ k. member k (ev.event_id ∷ w.seen) ≡ true) (sources w.effects) =
      All-imp _ _ (sources w.effects) (λ k p. ground arith) h.known in
    let differ : All (λ k. k ≢ ev.event_id) (sources w.effects) =
      All-imp _ _ (sources w.effects) (λ k p. member-ne k ev.event_id w.seen p fresh) h.known in
    let Seen : List String → List String → Type 0 = λ seen ks. All (λ k. member k seen ≡ true) ks in
    elim a.effects [
      | inl e ↦ record {
        distinct = subst (λ es. NoRepeat (sources es)) (sym e) h.distinct;
        known = rw (a.same_seen, e) seen_more;
      }
      | inr (k, e) ↦ record {
        distinct =
            rw (e, sources-snoc w.effects (effect_of k ev))
              (NoRepeat-snoc ev.event_id (sources w.effects) differ h.distinct);
        known =
            rw (a.same_seen, e, sources-snoc w.effects (effect_of k ev))
              (All-snoc _ ev.event_id (sources w.effects) (rw (eq_refl ev.event_id) refl)
                seen_more);
      }
    ]

-- Under the correct policy, no two effects come from one event id, whatever is delivered again.
pub deliver-one_effect_per_event :
    (home : String) (single : Bool) (evs : List LabEvent)
    → one_effect_per_event (deliver (new_world home single) correct evs) ≡ false
unfolding one_effect_per_event new_world
deliver-one_effect_per_event home single evs =
    let once : Once (deliver (new_world home single) correct evs) =
      deliver_keeps Once (λ w ev b n h. record { distinct = h.distinct; known = h.known })
        (λ w ev h. record {
          distinct = h.distinct;
          known = All-imp _ _ (sources w.effects) (λ k p. ground arith) h.known;
        })
        (λ w ev fresh same signed h. Once-acts w ev _ fresh (apply_type-Applied ev.type _ ev) h) evs
        (new_world home single) (record { distinct = tt; known = tt }) in
    has_repeat-eq-false _ once.distinct
