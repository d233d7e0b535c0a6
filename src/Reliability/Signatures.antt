-- ===== src/Reliability/Signatures.antt =====
-- INV-003 of the correct handler, and two runs that its policy does not exclude.
use pay_twin_os.Prelude.{
  ◌≡◌, refl, sym, ap, ◌∙◌, ◌≢◌, inl, inr, String, Bool, true, false, not, List, [], ◌∷◌, ◌&&◌,
  Bool-cases, All, All-imp, All-snoc,
}
use pay_twin_os.Reliability.Events.{
  LabType, LabEvent, correct, Effect, World, Note, Processed, member,
}
use pay_twin_os.Reliability.Engine.{effect_of, apply_type, deliver, new_world, log}
use pay_twin_os.Reliability.Invariants.{invalid_signature_zero_effect, bad_ids}
use pay_twin_os.Reliability.Dicts.{any_of-eq-false, str_eq-ne}
use pay_twin_os.Reliability.Correct.{apply_type-Applied, deliver_keeps_when}

module _ (genuine : String → Bool) where
  abbrev pub SignedAs : LabEvent → Type 0
  SignedAs ev = ev.signature_ok ≡ genuine ev.event_id

  record Screened (w : World) : Type 0 where
    pub sources : All (λ (e : Effect). genuine e.src_event_id ≡ true) w.effects
    pub logged :
        All
          (λ (r : Processed).
            (r.signature_ok ≡ genuine r.event_id) × (r.accepted ≡ true → r.signature_ok ≡ true))
          w.processed

  Screened-log :
      (w : World) (ev : LabEvent) (b : Bool) (n : Note)
      → SignedAs ev
      → (b ≡ true → ev.signature_ok ≡ true)
      → Screened w
      → Screened (log ev b n w)
  Screened-log w ev b n q s h = record {
    sources = h.sources;
    logged = All-snoc _ _ w.processed (q, s) h.logged;
  }

  Screened-acts :
      (w : World) (ev : LabEvent) (t : LabType)
      → SignedAs ev
      → ev.signature_ok ≡ true
      → Screened w
      → Screened (apply_type t w correct ev).0
  Screened-acts w ev t q signed h =
      let a = apply_type-Applied t w ev in
      record {
        sources = elim a.effects [
          | inl e ↦ rw e h.sources
          | inr (k, e) ↦ rw e (All-snoc _ (effect_of k ev) w.effects (sym q ∙ signed) h.sources)
        ];
        logged = rw a.same_log h.logged;
      }

  -- An id that is always genuine is not among those of the forged deliveries.
  bad_ids-genuine :
      (k : String) (rs : List Processed)
      → genuine k ≡ true
      → All (λ (r : Processed). r.signature_ok ≡ genuine r.event_id) rs
      → member k (bad_ids rs) ≡ false
  bad_ids-genuine k [] g a = refl
  bad_ids-genuine k (r ∷ rs) g a = elim (Bool-cases r.signature_ok) [
    | inl signed ↦ rw signed (bad_ids-genuine k rs g a.1)
    | inr forged ↦
        rw (forged, bad_ids, str_eq-ne r.event_id k (differs r a.0 forged))
          (bad_ids-genuine k rs g a.1)
  ]
    where
      differs :
          (r : Processed)
          → r.signature_ok ≡ genuine r.event_id
          → r.signature_ok ≡ false
          → r.event_id ≢ k
      differs r q forged e = absurd (cc (ap genuine e, q, forged, g))

unaccepted :
    (r : Processed)
    → (r.accepted ≡ true → r.signature_ok ≡ true)
    → (not r.signature_ok && r.accepted) ≡ false
unaccepted r h = split r.signature_ok r.accepted h
  where
    split : (s a : Bool) → (a ≡ true → s ≡ true) → (not s && a) ≡ false
    split true a h = refl
    split false true h = absurd (cc (h refl))
    split false false h = refl

-- Under the correct policy a delivery with a bad signature is not accepted and has no effect,
-- provided that the deliveries of one event id are all genuine or all forged.
pub deliver-invalid_signature_zero_effect :
    (genuine : String → Bool) (home : String) (single : Bool) (evs : List LabEvent)
    → All (SignedAs genuine) evs
    → invalid_signature_zero_effect (deliver (new_world home single) correct evs) ≡ false
unfolding invalid_signature_zero_effect new_world
deliver-invalid_signature_zero_effect genuine home single evs q =
    let w' = deliver (new_world home single) correct evs in
    let h : Screened genuine w' =
      deliver_keeps_when (Screened genuine) (SignedAs genuine) (Screened-log genuine)
        (λ w ev h. record { sources = h.sources; logged = h.logged })
        (λ w ev q fresh home signed h.
          Screened-acts genuine _ ev ev.type q signed
            (record { sources = h.sources; logged = h.logged }))
        evs (new_world home single) q (record { sources = tt; logged = tt }) in
    rw
      (any_of-eq-false (λ (e : Effect). member e.src_event_id (bad_ids w'.processed)) w'.effects
        (All-imp _ _ w'.effects
          (λ e g.
            bad_ids-genuine genuine e.src_event_id w'.processed g
              (All-imp _ _ w'.processed (λ r p. p.0) h.logged))
          h.sources))
      (any_of-eq-false _ w'.processed (All-imp _ _ w'.processed (λ r p. unaccepted r p.1) h.logged))
