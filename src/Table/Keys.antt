-- ===== src/Table/Keys.antt =====
-- Primary keys: distinct, and below the next key to be handed out.
use pay_twin_os.Prelude.{
  ℕ, ◌+◌, ◌≤◌, ◌<◌, ◌≡◌, refl, sym, ◌∙◌, ◌≢◌, Bool, List, [], ◌∷◌, ◌++◌, arith, All, All-snoc,
  All-imp, ap, map, some, Bool-cases, inl, inr, subst,
}
use pay_twin_os.Table.{find_row, put_row, update_where}

abbrev pub Distinct : List ℕ → Type 0
Distinct [] = Unit
Distinct (k ∷ ks) = All (λ j. j ≢ k) ks × Distinct ks

-- Every key has been handed out, and none twice.
abbrev pub HasKeys : ℕ → List ℕ → Type 0
HasKeys next ks = Distinct ks × All (λ k. k < next) ks

pub HasKeys-le : (m n : ℕ) (ks : List ℕ) → m ≤ n → HasKeys m ks → HasKeys n ks
HasKeys-le m n ks h a = (a.0, All-imp (λ k. k < m) (λ k. k < n) ks (λ k p. omega arith) a.1)

pub Distinct-snoc :
    (n : ℕ) (ks : List ℕ) → All (λ j. j ≢ n) ks → Distinct ks → Distinct (ks ++ n ∷ [])
Distinct-snoc n [] a d = (tt, tt)
Distinct-snoc n (j ∷ ks) a d =
    (All-snoc (λ k. k ≢ j) n ks (λ e. a.0 (sym e)) d.0, Distinct-snoc n ks a.1 d.1)

-- The next key is fresh.
pub HasKeys-snoc : (n : ℕ) (ks : List ℕ) → HasKeys n ks → HasKeys (n + 1) (ks ++ n ∷ [])
HasKeys-snoc n ks h = (
  Distinct-snoc n ks (All-imp (λ k. k < n) (λ k. k ≢ n) ks (λ k p. omega arith) h.1) h.0,
  All-snoc (λ k. k < n + 1) n ks (omega arith) (HasKeys-le n (n + 1) ks (omega arith) h).1,
)

module _ {ℓ} {A : Type ℓ} (key : A → ℕ) where
  pub map-append_one : (v : A) (rs : List A) → map key (rs ++ v ∷ []) ≡ map key rs ++ key v ∷ []
  map-append_one v [] = refl
  map-append_one v (r ∷ rs) = ap (λ ks. key r ∷ ks) (map-append_one v rs)

  pub keys-put_row : (v : A) (rs : List A) → map key (put_row key v rs) ≡ map key rs
  keys-put_row v [] = refl
  keys-put_row v (r ∷ rs) = ground (arith, keys-put_row v rs)

  pub keys-update_where :
      (test : A → Bool) (f : A → A) (rs : List A)
      → ((r : A) → key (f r) ≡ key r)
      → map key (update_where test f rs) ≡ map key rs
  keys-update_where test f [] same = refl
  keys-update_where test f (r ∷ rs) same = ground (arith, same r, keys-update_where test f rs same)

-- The flush of a row found by a query leaves what the change does not touch.
module _ {ℓ} {A : Type ℓ} (key : A → ℕ) {B : Type 0} (f : A → B) where
  put_row-absent : (v : A) (rs : List A) → All (λ k. k ≢ key v) (map key rs) → put_row key v rs ≡ rs
  put_row-absent v [] a = refl
  put_row-absent v (r ∷ rs) a = ground (arith, a.0, put_row-absent v rs a.1)

  found_key :
      (P : ℕ → Type 0) (test : A → Bool) (rs : List A) {r : A}
      → find_row test rs ≡ some r
      → All P (map key rs)
      → P (key r)
  found_key P test [] h a = absurd (cc)
  found_key P test (x ∷ rs) {r} h a = elim (Bool-cases (test x)) [
    | inl e ↦ let p : x ≡ r = ground arith in subst (λ z. P (key z)) p a.0
    | inr e ↦ found_key P test rs (ground arith) a.1
  ]

  pub map-put_row :
      (test : A → Bool) (v : A) (rs : List A) {r : A}
      → find_row test rs ≡ some r
      → key v ≡ key r
      → f v ≡ f r
      → Distinct (map key rs)
      → map f (put_row key v rs) ≡ map f rs
  map-put_row test v [] h k e d = refl
  map-put_row test v (x ∷ rs) {r} h k e d = elim (Bool-cases (test x)) [
    | inl hit ↦
        let p : x ≡ r = ground arith in
        let q : put_row key v rs ≡ rs =
          put_row-absent v rs (subst (λ j. All (λ i. i ≢ j) (map key rs)) (ap key p ∙ sym k) d.0) in
        let g : f v ≡ f x = e ∙ sym (ap f p) in rw q (ground arith)
    | inr miss ↦
        let h' : find_row test rs ≡ some r = ground arith in
        let ne : key r ≢ key x = found_key (λ k. k ≢ key x) test rs h' d.0 in
        let ih = map-put_row test v rs {r = r} h' k e d.1 in ground arith
  ]
