-- ===== src/Executor/Ledger.antt =====
-- The accounts of the executions: how often the providers were called under each key, and what the
-- row of an execution says of it (services/api/paytwin_api/services/executor.py).
use pay_twin_os.Prelude.{
  ℕ, ◌+◌, ◌≤◌, ◌≡◌, sym, ap, ◌∙◌, subst, ◌≢◌, ◌⊎◌, inl, inr, String, Bool, true, false, none, some,
  List, [], ◌∷◌, ◌++◌, arith, ◌==◌, ◌||◌, map, All, Bool-cases, str_eq, eq_refl, if◌then◌else◌,
  get_or, is_some,
}
use pay_twin_os.Table.{find_row, put_row}
use pay_twin_os.Table.Keys.{HasKeys, HasKeys-le, keys-put_row, map-put_row}
use pay_twin_os.Reliability.Dicts.{NoRepeat, str_eq-ne}
use pay_twin_os.Executor.Rows.{ExecutionState, ActionExecution, World}
use pay_twin_os.Executor.Request.{has_key, awaits}
use pay_twin_os.Executor.Monitor.{is_retryable, is_active}
use pay_twin_os.Executor.Sent.{is_attempted}

abbrev pub calls_of : String → List String → ℕ
calls_of key [] = 0
calls_of key (c ∷ cs) = (if str_eq c key then 1 else 0) + calls_of key cs

pub calls_of-same :
    (key : String) (cs : List String) → calls_of key (cs ++ key ∷ []) ≡ calls_of key cs + 1
calls_of-same key [] = ground (arith, eq_refl key)
calls_of-same key (c ∷ cs) = omega (arith, calls_of-same key cs)

calls_of-other :
    (key other : String) (cs : List String)
    → other ≢ key
    → calls_of key (cs ++ other ∷ []) ≡ calls_of key cs
calls_of-other key other [] ne = ground (arith, str_eq-ne other key ne)
calls_of-other key other (c ∷ cs) ne = omega (arith, calls_of-other key other cs ne)

abbrev pub retry_limit : ActionExecution → ℕ
retry_limit ex = get_or ex.params.stopping_rules.max_provider_retries 2

-- The action was let through.
abbrev pub is_started : ExecutionState → Bool
is_started s = is_attempted s || is_active s

abbrev pub id_of : ActionExecution → ℕ
id_of r = r.id

abbrev pub key_in : ActionExecution → String
key_in r = r.idempotency_key

-- The calls under the key of a row are within its budget, and its approver stands before the first.
pub record Accounted (calls : List String) (r : ActionExecution) : Type 0 where
  pub approved : is_started r.state ≡ true → is_some r.approved_by ≡ true
  pub unapproved : is_some r.approved_by ≡ false → calls_of r.idempotency_key calls ≡ 0
  pub waiting : awaits r.state ≡ true → calls_of r.idempotency_key calls ≡ 0
  pub budget : calls_of r.idempotency_key calls ≤ retry_limit r + 1
  pub retries :
      is_retryable r.state ≡ true
      → calls_of r.idempotency_key calls ≤ get_or r.outcome.retry_count 0

-- Each key has one execution, each execution its accounts, and no call is under a key without one.
pub record Sound (w : World) : Type 0 where
  pub ids : HasKeys w.next_id (map id_of w.executions)
  pub keys : NoRepeat (map key_in w.executions)
  pub rows : All (Accounted w.calls) w.executions
  pub orphans : (k : String) → All (λ j. j ≢ k) (map key_in w.executions) → calls_of k w.calls ≡ 0

-- The query by a key that no row has.
pub absent_key :
    (k : String) (rs : List ActionExecution)
    → find_row (has_key k) rs ≡ none
    → All (λ j. j ≢ k) (map key_in rs)
absent_key k [] h = tt
absent_key k (r ∷ rs) h = elim (Bool-cases (has_key k r)) [
  | inl hit ↦ absurd (ground arith)
  | inr miss ↦ (
    λ e. absurd (ground (arith, subst (λ j. str_eq j k ≡ true) (sym e) (eq_refl k))),
    absent_key k rs (ground arith),
  )
]

found_key :
    (test : ActionExecution → Bool) (rs : List ActionExecution) {k : String} {ex : ActionExecution}
    → find_row test rs ≡ some ex
    → All (λ j. j ≢ k) (map key_in rs)
    → key_in ex ≢ k
found_key test [] h a = absurd (cc)
found_key test (x ∷ rs) {k} {ex} h a = elim (Bool-cases (test x)) [
  | inl hit ↦ (let e : x ≡ ex = ground arith in subst (λ z. key_in z ≢ k) e a.0)
  | inr miss ↦ found_key test rs {k = k} {ex = ex} (ground arith) a.1
]

-- Beside the row of a key that a query found, the rows have other keys.
others_differ :
    (test : ActionExecution → Bool) (rs : List ActionExecution) {ex : ActionExecution}
    → find_row test rs ≡ some ex
    → NoRepeat (map key_in rs)
    → All (λ r. (r ≡ ex) ⊎ (ex.idempotency_key ≢ r.idempotency_key)) rs
others_differ test [] h u = tt
others_differ test (r ∷ rs) {ex} h u = elim (Bool-cases (test r)) [
  | inl hit ↦
      let e : r ≡ ex = ground arith in
      (inl e, later rs (subst (λ x. All (λ j. j ≢ key_in x) (map key_in rs)) e u.0))
  | inr miss ↦
      let h' : find_row test rs ≡ some ex = ground arith in
      (inr (found_key test rs h' u.0), others_differ test rs h' u.1)
]
  where
    later :
        (rs : List ActionExecution)
        → All (λ j. j ≢ key_in ex) (map key_in rs)
        → All (λ r. (r ≡ ex) ⊎ (ex.idempotency_key ≢ r.idempotency_key)) rs
    later [] a = tt
    later (r ∷ rs) a = (inr (λ e. a.0 (sym e)), later rs a.1)

-- One execution is written back; at most one call was made meanwhile, under its key.
pub record Saved (id : ℕ) (key : String) (w : World) (ex' : ActionExecution) (w' : World)
    : Type 0 where
  pub executions : w'.executions ≡ put_row id_of ex' w.executions
  pub next_id : w.next_id ≤ w'.next_id
  pub same_id : ex'.id ≡ id
  pub same_key : ex'.idempotency_key ≡ key
  pub calls : (w'.calls ≡ w.calls) ⊎ (w'.calls ≡ w.calls ++ key ∷ [])
  pub accounted : Accounted w'.calls ex'

-- A call under another key changes no count.
count_other :
    (k key : String) (cs cs' : List String)
    → key ≢ k
    → (cs' ≡ cs) ⊎ (cs' ≡ cs ++ key ∷ [])
    → calls_of k cs' ≡ calls_of k cs
count_other k key cs cs' ne (inl e) = ap (calls_of k) e
count_other k key cs cs' ne (inr e) = ap (calls_of k) e ∙ calls_of-other k key cs ne

Accounted-count :
    (cs cs' : List String) (r : ActionExecution)
    → calls_of r.idempotency_key cs' ≡ calls_of r.idempotency_key cs
    → Accounted cs r
    → Accounted cs' r
Accounted-count cs cs' r e a = record {
  approved = a.approved;
  unapproved = λ h. e ∙ a.unapproved h;
  waiting = λ h. e ∙ a.waiting h;
  budget = omega (arith, a.budget);
  retries = λ h. let p = a.retries h in omega arith;
}

module _ (ex : ActionExecution) (w : World) (ex' : ActionExecution) (w' : World)
    (saved : Saved ex.id ex.idempotency_key w ex' w') where
  saved_rows :
      (rs : List ActionExecution)
      → All (λ r. (r ≡ ex) ⊎ (ex.idempotency_key ≢ r.idempotency_key)) rs
      → All (Accounted w.calls) rs
      → All (Accounted w'.calls) (put_row id_of ex' rs)
  saved_rows [] o a = tt
  saved_rows (r ∷ rs) o a = (
    elim (Bool-cases (id_of r == id_of ex')) [
      | inl hit ↦ rw hit saved.accounted
      | inr miss ↦ rw miss (elim o.0 [
        | inl e ↦
            absurd (let p : id_of r ≡ id_of ex' = ap id_of e ∙ sym saved.same_id in ground arith)
        | inr ne ↦
            Accounted-count w.calls w'.calls r
              (count_other (key_in r) (key_in ex) w.calls w'.calls ne saved.calls) a.0
      ])
    ],
    saved_rows rs o.1 a.1,
  )

  -- The keys stand as they stood.
  pub Saved-keys :
      (test : ActionExecution → Bool)
      → find_row test w.executions ≡ some ex
      → Sound w
      → map key_in w'.executions ≡ map key_in w.executions
  Saved-keys test found h =
      ap (map key_in) saved.executions
      ∙ map-put_row id_of key_in test ex' w.executions found saved.same_id saved.same_key h.ids.0

  pub Saved-Sound :
      (test : ActionExecution → Bool) → find_row test w.executions ≡ some ex → Sound w → Sound w'
  Saved-Sound test found h =
      let same_ids : map id_of w'.executions ≡ map id_of w.executions =
        ap (map id_of) saved.executions ∙ keys-put_row id_of ex' w.executions in
      let same_keys : map key_in w'.executions ≡ map key_in w.executions =
        Saved-keys test found h in
      record {
        ids =
            HasKeys-le w.next_id w'.next_id (map id_of w'.executions) saved.next_id
              (subst (HasKeys w.next_id) (sym same_ids) h.ids);
        keys = subst NoRepeat (sym same_keys) h.keys;
        rows =
            subst (All (Accounted w'.calls)) (sym saved.executions)
              (saved_rows w.executions (others_differ test w.executions found h.keys) h.rows);
        orphans = λ k a.
            let absent : All (λ j. j ≢ k) (map key_in w.executions) =
              subst (All (λ j. j ≢ k)) same_keys a in
            count_other k (key_in ex) w.calls w'.calls (found_key test w.executions found absent)
              saved.calls
            ∙ h.orphans k absent;
      }
