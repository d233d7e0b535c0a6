-- ===== src/Table/Extends.antt =====
-- A table after some operations against the table before: each old row is related to the row at
-- its place, and new rows stand behind.
use pay_twin_os.Prelude.{
  ℕ, ◌≡◌, sym, ap, subst, ◌∙◌, ◌≢◌, inl, inr, Bool, true, false, some, List, [], ◌∷◌, ◌++◌, arith,
  ◌==◌, Bool-cases, All, map,
}
use pay_twin_os.Table.{find_row, put_row, update_where}
use pay_twin_os.Table.Keys.{Distinct}

abbrev pub Extends {ℓ} : {A : Type ℓ} → (A → A → Type 0) → List A → List A → Type 0
Extends R [] new = Unit
Extends R (x ∷ xs) [] = ⊥
Extends R (x ∷ xs) (y ∷ ys) = R x y × Extends R xs ys

found_key {ℓ} :
    {A : Type ℓ} (P : ℕ → Type 0) (key : A → ℕ) (test : A → Bool) (xs : List A) {r : A}
    → find_row test xs ≡ some r
    → All P (map key xs)
    → P (key r)
found_key P key test [] f a = absurd (cc)
found_key P key test (x ∷ xs) {r} f a = elim (Bool-cases (test x)) [
  | inl e ↦ let p : x ≡ r = ground arith in subst (λ z. P (key z)) p a.0
  | inr e ↦ found_key P key test xs (ground arith) a.1
]

pub Extends-imp {ℓ} :
    {A : Type ℓ} (R S : A → A → Type 0) (xs ys : List A)
    → ((x y : A) → R x y → S x y)
    → Extends R xs ys
    → Extends S xs ys
Extends-imp R S [] ys f h = tt
Extends-imp R S (x ∷ xs) [] f h = elim h [ ]
Extends-imp R S (x ∷ xs) (y ∷ ys) f h = (f x y h.0, Extends-imp R S xs ys f h.1)

module _ {ℓ} {A : Type ℓ} (R : A → A → Type 0) where
  pub Extends-refl : ((x : A) → R x x) → (xs : List A) → Extends R xs xs
  Extends-refl r [] = tt
  Extends-refl r (x ∷ xs) = (r x, Extends-refl r xs)

  pub Extends-append : (xs ys zs : List A) → Extends R xs ys → Extends R xs (ys ++ zs)
  Extends-append [] ys zs h = tt
  Extends-append (x ∷ xs) [] zs h = elim h [ ]
  Extends-append (x ∷ xs) (y ∷ ys) zs h = (h.0, Extends-append xs ys zs h.1)

  pub Extends-trans :
      ((x y z : A) → R x y → R y z → R x z)
      → (xs ys zs : List A) → Extends R xs ys
      → Extends R ys zs
      → Extends R xs zs
  Extends-trans t [] ys zs h k = tt
  Extends-trans t (x ∷ xs) [] zs h k = elim h [ ]
  Extends-trans t (x ∷ xs) (y ∷ ys) [] h k = elim k [ ]
  Extends-trans t (x ∷ xs) (y ∷ ys) (z ∷ zs) h k =
      (t x y z h.0 k.0, Extends-trans t xs ys zs h.1 k.1)

  pub Extends-update_where :
      (test : A → Bool) (f : A → A)
      → ((x y : A) → test y ≡ true → R x y → R x (f y))
      → (xs ys : List A) → Extends R xs ys
      → Extends R xs (update_where test f ys)
  Extends-update_where test f keep [] ys h = tt
  Extends-update_where test f keep (x ∷ xs) [] h = elim h [ ]
  Extends-update_where test f keep (x ∷ xs) (y ∷ ys) h = (
    elim (Bool-cases (test y)) [ inl e ↦ rw e (keep x y e h.0) | inr e ↦ rw e h.0 ],
    Extends-update_where test f keep xs ys h.1,
  )

  module _ (key : A → ℕ) (same : (x y : A) → R x y → key x ≡ key y) where
    -- A row whose key no old row has.
    pub Extends-put_absent :
        (v : A) (xs ys : List A)
        → All (λ k. k ≢ key v) (map key xs)
        → Extends R xs ys
        → Extends R xs (put_row key v ys)
    Extends-put_absent v [] ys a h = tt
    Extends-put_absent v (x ∷ xs) [] a h = elim h [ ]
    Extends-put_absent v (x ∷ xs) (y ∷ ys) a h = (
      elim (Bool-cases (key y == key v)) [
        | inl e ↦ absurd (a.0 (same x y h.0 ∙ (ground arith)))
        | inr e ↦ rw e h.0
      ],
      Extends-put_absent v xs ys a.1 h.1,
    )

    -- A row that replaces the one that a query had found.
    pub Extends-put_found :
        (test : A → Bool) (r v : A) (xs ys : List A)
        → find_row test xs ≡ some r
        → key r ≡ key v
        → R r v
        → Distinct (map key xs)
        → Extends R xs ys
        → Extends R xs (put_row key v ys)
    Extends-put_found test r v [] ys f e p d h = tt
    Extends-put_found test r v (x ∷ xs) [] f e p d h = elim h [ ]
    Extends-put_found test r v (x ∷ xs) (y ∷ ys) f e p d h = elim (Bool-cases (test x)) [
      | inl t ↦
          let p' : r ≡ x = ground arith in
          let at : key x ≡ key v = ap key (sym p') ∙ e in
          let hit : (key y == key v) ≡ true = ground (arith, same x y h.0) in
          (
            rw hit (subst (λ z. R z v) p' p),
            Extends-put_absent v xs ys (subst (λ k. All (λ j. j ≢ k) (map key xs)) at d.0) h.1,
          )
      | inr t ↦
          let f' : find_row test xs ≡ some r = ground arith in
          let other : key r ≢ key x = found_key (λ j. j ≢ key x) key test xs f' d.0 in
          let miss : (key y == key v) ≡ false = ground (arith, same x y h.0) in
          (rw miss h.0, Extends-put_found test r v xs ys f' e p d.1 h.1)
    ]
