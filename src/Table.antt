-- ===== src/Table.antt =====
-- A database table as the list of its rows in the order of insertion. A row's generated primary
-- key is a number; a query that a unique constraint makes single is the first match.
pub mod Keys
pub mod Extends
use pay_twin_os.Prelude.{
  ℕ, ◌≡◌, Bool, true, Option, none, some, List, [], ◌∷◌, ◌++◌, arith, ◌==◌, if◌then◌else◌, if_intro,
  Bool-cases, inl, inr, subst, All,
}

module _ {ℓ} {A : Type ℓ} where
  -- `query.filter(test).one_or_none()`
  abbrev pub find_row : (A → Bool) → List A → Option A
  find_row test [] = none
  find_row test (r ∷ rs) = if test r then some r else find_row test rs

  -- `query.filter(test).all()`
  abbrev pub rows_where : (A → Bool) → List A → List A
  rows_where test [] = []
  rows_where test (r ∷ rs) = let rest = rows_where test rs in if test r then r ∷ rest else rest

  -- `query.filter(test).update(...)`
  abbrev pub update_where : (A → Bool) → (A → A) → List A → List A
  update_where test f [] = []
  update_where test f (r ∷ rs) = (if test r then f r else r) ∷ update_where test f rs

  -- The flush of a changed row: it replaces the row of its key.
  abbrev pub put_row : (A → ℕ) → A → List A → List A
  put_row key v [] = []
  put_row key v (r ∷ rs) = (if key r == key v then v else r) ∷ put_row key v rs

  pub find_row-test :
      (test : A → Bool) (rs : List A) {r : A} → find_row test rs ≡ some r → test r ≡ true
  find_row-test test [] h = cc
  find_row-test test (x ∷ rs) {r} h = ground (arith, find_row-test test rs {r = r})

  pub find_row-append :
      (test : A → Bool) (v : A) (rs : List A)
      → find_row test rs ≡ none
      → test v ≡ true
      → find_row test (rs ++ v ∷ []) ≡ some v
  find_row-append test v [] h t = ground arith
  find_row-append test v (x ∷ rs) h t = ground (arith, find_row-append test v rs)

  pub All-find_row {κ} :
      (P : A → Type κ) (test : A → Bool) (rs : List A) {r : A}
      → find_row test rs ≡ some r
      → All P rs
      → P r
  All-find_row P test [] h a = absurd (cc)
  All-find_row P test (x ∷ rs) {r} h a = elim (Bool-cases (test x)) [
    | inl e ↦ subst P (ground arith) a.0
    | inr e ↦ All-find_row P test rs (ground arith) a.1
  ]

  pub All-put_row {κ} :
      (P : A → Type κ) (key : A → ℕ) (v : A) (rs : List A)
      → P v
      → All P rs
      → All P (put_row key v rs)
  All-put_row P key v [] p a = tt
  All-put_row P key v (x ∷ rs) p a =
      (if_intro P (key x == key v) p a.0, All-put_row P key v rs p a.1)

  pub All-update_where {κ} :
      (P : A → Type κ) (test : A → Bool) (f : A → A) (rs : List A)
      → ((r : A) → P r → P (f r))
      → All P rs
      → All P (update_where test f rs)
  All-update_where P test f [] k a = tt
  All-update_where P test f (x ∷ rs) k a =
      (if_intro P (test x) (k x a.0) a.0, All-update_where P test f rs k a.1)
