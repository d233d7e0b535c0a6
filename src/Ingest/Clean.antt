-- ===== src/Ingest/Clean.antt =====
-- What remains of personal data in the stored traces and dead letters.
use pay_twin_os.Prelude.{
  ℕ, zero, suc, ◌+◌, ◌≡◌, refl, String, true, false, Option, none, some, [], ◌∷◌, ltb, if_split,
  All,
}
use Prim.Native.String.{count}
use pay_twin_os.Ingest.Redact.{
  Json, null, boolean, number, text, array, object, Items, end, item, Fields, done, field, Texts,
  is_pii, redacted, take_items, redact, redact_items, redact_fields, capped, inbox_payload,
  dlq_payload, keys_of, keys_entry, wrapped,
}

module _ (t : Texts) where
  -- Every field with a key of `pii_keys`, at any depth, has the value "[redacted]".
  mutual
    pub Clean : Json → Type 0
    Clean null = Unit
    Clean (boolean b) = Unit
    Clean (number n) = Unit
    Clean (text s) = Unit
    Clean (array xs) = CleanItems xs
    Clean (object fs) = CleanFields fs

    pub CleanItems : Items → Type 0
    CleanItems end = Unit
    CleanItems (item x xs) = Clean x × CleanItems xs

    pub CleanFields : Fields → Type 0
    CleanFields done = Unit
    CleanFields (field key x fs) = (is_pii t key ≡ true → x ≡ redacted) × Clean x × CleanFields fs

  mutual
    unfolding redact Clean

    redact-Clean : (depth : ℕ) (j : Json) → Clean (redact t depth j)
    redact-Clean depth null = if_split Clean (ltb 6 depth) (λ _. tt) (λ _. tt)
    redact-Clean depth (boolean b) = if_split Clean (ltb 6 depth) (λ _. tt) (λ _. tt)
    redact-Clean depth (number n) = if_split Clean (ltb 6 depth) (λ _. tt) (λ _. tt)
    redact-Clean depth (text s) = if_split Clean (ltb 6 depth) (λ _. tt) (λ _. tt)
    redact-Clean depth (array xs) =
        let h = redact_items-CleanItems (depth + 1) 20 xs in
        if_split Clean (ltb 6 depth) (λ _. tt) (λ _. h)
    redact-Clean depth (object fs) =
        let h = redact_fields-CleanFields (depth + 1) fs in
        if_split Clean (ltb 6 depth) (λ _. tt) (λ _. h)

    redact_items-CleanItems : (depth n : ℕ) (xs : Items) → CleanItems (redact_items t depth n xs)
    redact_items-CleanItems depth zero xs = tt
    redact_items-CleanItems depth (suc n) end = tt
    redact_items-CleanItems depth (suc n) (item x xs) =
        (redact-Clean depth x, redact_items-CleanItems depth n xs)

    redact_fields-CleanFields : (depth : ℕ) (fs : Fields) → CleanFields (redact_fields t depth fs)
    redact_fields-CleanFields depth done = tt
    redact_fields-CleanFields depth (field key x fs) =
        let h = redact-Clean depth x in
        (
          λ e. rw e refl,
          if_split Clean (is_pii t key) (λ _. tt) (λ _. h),
          redact_fields-CleanFields depth fs,
        )

  take_items-CleanItems : (n : ℕ) (fs : Fields) → CleanItems (take_items n (keys_of fs))
  unfolding Clean
  take_items-CleanItems zero fs = tt
  take_items-CleanItems (suc n) done = tt
  take_items-CleanItems (suc n) (field key x fs) = (tt, take_items-CleanItems n fs)

  keys_entry-Clean : (j : Json) → Clean (keys_entry j)
  unfolding Clean
  keys_entry-Clean null = tt
  keys_entry-Clean (boolean b) = tt
  keys_entry-Clean (number n) = tt
  keys_entry-Clean (text s) = tt
  keys_entry-Clean (array xs) = tt
  keys_entry-Clean (object fs) = take_items-CleanItems 20 fs

  -- The keys that the code itself writes are in lower case and none of the listed ones.
  abbrev pub Plain : Type 0
  Plain =
      All (λ key. is_pii t key ≡ false)
        ("truncated" ∷ "body_sha256" ∷ "keys" ∷ "raw_b64_prefix" ∷ [])

  capped-Clean : (j : Json) (body : String) → Plain → Clean j → Clean (capped t j body)
  unfolding capped Clean
  capped-Clean j body p h =
      if_split Clean (ltb 8192 (count (t.printed j)))
        (λ _. (
          λ e. absurd (cc (e, p.0)),
          tt,
          (
            λ e. absurd (cc (e, p.1.0)),
            tt,
            (λ e. absurd (cc (e, p.1.1.0)), keys_entry-Clean j, tt),
          ),
        ))
        (λ _. h)

  -- The trace of an accepted delivery and the dead letter of a malformed one have "[redacted]" as the
  -- value of every field with a personal key, at any depth.
  pub payload-Clean :
      (raw : Json) (body : String)
      → Plain
      → Clean (inbox_payload t raw) × Clean (dlq_payload t body)
  unfolding inbox_payload dlq_payload Clean
  payload-Clean raw body p =
      (capped-Clean (redact t 0 raw) (t.printed raw) p (redact-Clean 0 raw), dlq (t.loads body))
    where
      dlq :
          (o : Option Json)
          → Clean (elim o [
            | none ↦ object (field "raw_b64_prefix" (text (t.hex (t.first 120 body))) done)
            | some j ↦ capped t (redact t 0 (wrapped t j)) body
          ])
      dlq none = (λ e. absurd (cc (e, p.1.1.1.0)), tt, tt)
      dlq (some j) = capped-Clean _ body p (redact-Clean 0 (wrapped t j))
