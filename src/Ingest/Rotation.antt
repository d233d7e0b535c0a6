-- ===== src/Ingest/Rotation.antt =====
-- Which secrets a delivery may be signed under.
use mathlib.Core.List.{Mem, mem-append_right, mem-cons_self}
use pay_twin_os.Prelude.{
  ℕ, ◌<◌, ◌≡◌, refl, ap, ◌∙◌, ◌⊎◌, inl, inr, String, true, false, Option, none, some, List, [], ◌∷◌,
  ◌++◌, arith, if◌then◌else◌, if_split, text_true, given, All, All-imp, All-snoc,
}
use pay_twin_os.Table.{find_row}
use pay_twin_os.Tenancy.{Merchant, Integration, integrates}
use pay_twin_os.Ingest.Redact.{in_texts}
use pay_twin_os.Ingest.Rows.{Store, Settings}
use pay_twin_os.Ingest.Secrets.{
  provider_secret, nonempty, configured, previous, in_grace, own_secrets, with_fallback, from_keys,
  secrets_for,
}

-- A secret of the integration itself, or the provider's where the integration has none.
abbrev pub Active : List String → String → String → Type 0
Active own fallback x = (Mem x own ⊎ ((own ≡ []) × (x ≡ fallback))) × (text_true x ≡ true)

from_keys-All :
    (P : String → Type 0) (kept xs : List String)
    → All P kept
    → All P xs
    → All P (from_keys kept xs)
from_keys-All P kept [] k h = k
from_keys-All P kept (x ∷ xs) k h =
    from_keys-All P (if in_texts x kept then kept else kept ++ x ∷ []) xs
      (if_split (All P) (in_texts x kept) (λ _. k) (λ _. All-snoc P x kept h.0 k)) h.1

nonempty-All : (secret : String) → All (λ x. (x ≡ secret) × (text_true x ≡ true)) (nonempty secret)
nonempty-All secret =
    if_split (All (λ x. (x ≡ secret) × (text_true x ≡ true))) (text_true secret)
      (λ t. ((refl, t), tt)) (λ _. tt)

abbrev True : String → Type 0
True x = text_true x ≡ true

nonempty-True : (secret : String) → All True (nonempty secret)
nonempty-True secret = All-imp _ True (nonempty secret) (λ x h. h.1) (nonempty-All secret)

configured-True : (c : Settings) (row : Integration) → All True (configured c row)
configured-True c row = by_ref (given row.secret_ref)
  where
    by_ref :
        (o : Option String) → All True (elim o [ none ↦ [] | some ref ↦ nonempty (c.environ ref) ])
    by_ref none = tt
    by_ref (some ref) = nonempty-True (c.environ ref)

previous-True : (c : Settings) (now : ℕ) (row : Integration) → All True (previous c now row)
previous-True c now row = by_ref (given row.previous_secret_ref)
  where
    by_ref :
        (o : Option String)
        → All True (elim o [
          | none ↦ []
          | some ref ↦
              if in_grace now row.previous_secret_expires_at then nonempty (c.environ ref) else []
        ])
    by_ref none = tt
    by_ref (some ref) =
        if_split (All True) (in_grace now row.previous_secret_expires_at)
          (λ _. nonempty-True (c.environ ref)) (λ _. tt)

All-append : (xs ys : List String) → All True xs → All True ys → All True (xs ++ ys)
All-append [] ys a b = b
All-append (x ∷ xs) ys a b = (a.0, All-append xs ys a.1 b)

own_secrets-True :
    (c : Settings) (now : ℕ) (o : Option Integration) → All True (own_secrets c now o)
own_secrets-True c now none = tt
own_secrets-True c now (some row) =
    All-append (configured c row) (previous c now row) (configured-True c row)
      (previous-True c now row)

members : (xs : List String) → All True xs → All (λ x. Mem x xs × True x) xs
members [] h = tt
members (x ∷ xs) h = (
  (mem-cons_self, h.0),
  All-imp _ _ xs (λ y m. (mem-append_right (x ∷ []) m.0, m.1)) (members xs h.1),
)

with_fallback-Active :
    (own : List String) (fallback : String)
    → All True own
    → All (Active own fallback) (with_fallback own fallback)
with_fallback-Active [] fallback h =
    All-imp _ _ (nonempty fallback) (λ x e. (inr (refl, e.0), e.1)) (nonempty-All fallback)
with_fallback-Active (x ∷ xs) fallback h =
    All-imp _ _ (x ∷ xs) (λ y m. (inl m.0, m.1)) (members (x ∷ xs) h)

-- Every active secret is not empty and is the integration's own, or the provider's where the
-- integration has none at all; and a previous secret whose grace window has ended is not among the
-- integration's own.
pub secrets_for-Active :
    (c : Settings) (now : ℕ) (s : Store) (provider : String) (m : Merchant)
    → let found = find_row (integrates m.id provider) s.integrations in
      All
        (Active (own_secrets c now found) (provider_secret c provider))
        (secrets_for c now s provider m)
      × ((row : Integration) (expires_at : ℕ)
          → found ≡ some row
          → row.previous_secret_expires_at ≡ some expires_at
          → expires_at < now
          → own_secrets c now found ≡ configured c row ++ [])
unfolding secrets_for
secrets_for-Active c now s provider m =
    let found = find_row (integrates m.id provider) s.integrations in
    (
      from_keys-All _ [] _ tt
          (with_fallback-Active (own_secrets c now found) _ (own_secrets-True c now found)),
      λ row expires_at e at ended.
          ap (own_secrets c now) e
          ∙ ap (λ r. configured c row ++ r) (expired row expires_at at ended),
    )
  where
    expired :
        (row : Integration) (expires_at : ℕ)
        → row.previous_secret_expires_at ≡ some expires_at
        → expires_at < now
        → previous c now row ≡ []
    expired row expires_at at ended = by_ref (given row.previous_secret_ref)
      where
        closed : in_grace now row.previous_secret_expires_at ≡ false
        closed = ap (in_grace now) at ∙ ground arith

        by_ref :
            (o : Option String)
            → (let ys : List String = elim o [
              | none ↦ []
              | some ref ↦
                  if in_grace now row.previous_secret_expires_at
                  then nonempty (c.environ ref)
                  else []
            ] in
                ys)
              ≡ []
        by_ref none = refl
        by_ref (some ref) = ap (λ b. if b then nonempty (c.environ ref) else []) closed
