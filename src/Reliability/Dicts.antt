-- ===== src/Reliability/Dicts.antt =====
-- Laws of the lab's dictionaries and of the counting in its evaluators.
use pay_twin_os.Prelude.{
  ℕ, ◌+◌, ◌≤◌, ◌≡◌, refl, sym, ◌≢◌, String, Bool, false, none, some, List, [], ◌∷◌, ◌++◌, arith,
  eq_iff, str_eq, if◌then◌else◌, get_or, All, All-imp, All-snoc, Bool-cases, inl, inr, subst,
}
use pay_twin_os.Reliability.Events.{Dict, lookup, insert}
use pay_twin_os.Reliability.Invariants.{any_of, count_keys, has_repeat}

module _ {V : Type 0} where
  pub lookup-insert :
      (k j : String) (v : V) (d : Dict V)
      → lookup j (insert k v d) ≡ (if str_eq k j then some v else lookup j d)
  lookup-insert k j v [] = refl
  lookup-insert k j v ((i, w) ∷ d) =
      ground (arith, eq_iff k j, eq_iff i k, eq_iff i j, lookup-insert k j v d)

  pub All-insert :
      (P : V → Type 0) (k : String) (v : V) (d : Dict V)
      → P v
      → All (λ (c : String × V). P c.1) d
      → All (λ (c : String × V). P c.1) (insert k v d)
  All-insert P k v [] p a = (p, tt)
  All-insert P k v ((i, w) ∷ d) p a = elim (Bool-cases (str_eq i k)) [
    | inl e ↦ rw e (p, a.1)
    | inr e ↦ rw e (a.0, All-insert P k v d p a.1)
  ]

  pub All-lookup :
      (P : V → Type 0) (k : String) (d : Dict V) {v : V}
      → lookup k d ≡ some v
      → All (λ (c : String × V). P c.1) d
      → P v
  All-lookup P k [] h a = absurd (cc)
  All-lookup P k ((i, w) ∷ d) {v} h a = elim (Bool-cases (str_eq i k)) [
    | inl e ↦ subst P (ground arith) a.0
    | inr e ↦ All-lookup P k d (ground arith) a.1
  ]

abbrev pub NoRepeat : List String → Type 0
NoRepeat [] = Unit
NoRepeat (k ∷ ks) = All (λ j. j ≢ k) ks × NoRepeat ks

pub NoRepeat-snoc :
    (k : String) (ks : List String) → All (λ j. j ≢ k) ks → NoRepeat ks → NoRepeat (ks ++ k ∷ [])
NoRepeat-snoc k [] a h = (tt, tt)
NoRepeat-snoc k (j ∷ ks) a h =
    (All-snoc (λ i. i ≢ j) k ks (λ e. a.0 (sym e)) h.0, NoRepeat-snoc k ks a.1 h.1)

pub any_of-eq-false {ℓ} :
    {A : Type ℓ} (test : A → Bool) (xs : List A)
    → All (λ x. test x ≡ false) xs
    → any_of test xs ≡ false
any_of-eq-false test [] a = refl
any_of-eq-false test (x ∷ xs) a = ground (arith, any_of-eq-false test xs a.1)

pub str_eq-ne : (s t : String) → s ≢ t → str_eq s t ≡ false
str_eq-ne s t ne = ground (arith, eq_iff s t)

lookup-insert_new :
    (k : String) (v : ℕ) (d : Dict ℕ) (ks : List String)
    → All (λ j. j ≢ k) ks
    → All (λ j. lookup j d ≡ none) ks
    → All (λ j. lookup j (insert k v d) ≡ none) ks
lookup-insert_new k v d [] n a = tt
lookup-insert_new k v d (j ∷ ks) n a = (
  rw (lookup-insert k j v d, str_eq-ne k j (λ e. n.0 (sym e))) a.0,
  lookup-insert_new k v d ks n.1 a.1,
)

All-absent : (ks : List String) → All (λ k. lookup {V = ℕ} k [] ≡ none) ks
All-absent [] = tt
All-absent (k ∷ ks) = (refl, All-absent ks)

-- Counting keys that are new to the dictionary and differ from one another.
count_keys-low :
    (ks : List String) (d : Dict ℕ)
    → NoRepeat ks
    → All (λ k. lookup k d ≡ none) ks
    → All (λ (c : String × ℕ). c.1 ≤ 1) d
    → All (λ (c : String × ℕ). c.1 ≤ 1) (count_keys ks d)
count_keys-low [] d n a h = h
count_keys-low (k ∷ ks) d n a h =
    let d' = insert k (get_or (lookup k d) 0 + 1) d in
    count_keys-low ks d' n.1 (lookup-insert_new k _ d ks n.0 a.1)
      (All-insert (λ n. n ≤ 1) k _ d (rw a.0 (omega arith)) h)

pub has_repeat-eq-false : (ks : List String) → NoRepeat ks → has_repeat ks ≡ false
has_repeat-eq-false ks n = any_of-eq-false _ _ (
    All-imp _ _ (count_keys ks []) (λ c p. ground arith)
      (count_keys-low ks [] n (All-absent ks) tt))
