-- ===== src/Audit/Tamper.antt =====
-- What a verified chain rules out.
use pay_twin_os.Prelude.{
  Option-cases, ℕ, ◌+◌, ◌≡◌, refl, ap, subst, ◌⊎◌, inl, inr, String, Bool, true, false, Option,
  none, some, List, [], ◌∷◌, arith, eq_iff, length, Bool-cases, and-both,
}
use pay_twin_os.Table.{find_row}
use pay_twin_os.Audit.Chain.{
  Payload, AuditRecord, AuditHead, AuditDb, head_of, records_of, Walk, broken, through, intact,
  walk, check_head, verify_chain, ends_with, end_hash,
}
use pay_twin_os.Audit.Append.{Linked, last_of, walk-Linked, check_head-agrees}

Walk-cases :
    (x : Walk)
    → ((s : ℕ) × (x ≡ broken s)) ⊎ ((n : ℕ) × (last : Option AuditRecord) × (x ≡ through n last))
Walk-cases (broken s) = inl (s, refl)
Walk-cases (through n last) = inr (n, last, refl)

is_through : Walk → Bool
is_through (broken s) = false
is_through (through n last) = true

ends_with-end_hash :
    (r : AuditRecord) (rs : List AuditRecord) (hash : String)
    → ends_with (last_of (some r) rs) hash ≡ true
    → end_hash r.hash rs ≡ hash
ends_with-end_hash r [] hash e = (eq_iff r.hash hash).0 e
ends_with-end_hash r (x ∷ rs) hash e = ends_with-end_hash x rs hash e

-- A checkpoint that counts nothing, or one that names the number of the records and the last hash.
abbrev pub Agrees : AuditHead → List AuditRecord → Type 0
Agrees h rs = (h.record_count ≡ 0) ⊎ ((h.last_hash ≡ end_hash "" rs) × (h.record_count ≡ length rs))

check_head-Agrees :
    (h : AuditHead) (rs : List AuditRecord)
    → check_head (some h) (0 + length rs) (last_of none rs) ≡ (true, none)
    → Agrees h rs
check_head-Agrees h [] e = ground arith
check_head-Agrees h (r ∷ rs) e = elim (Bool-cases (ends_with (last_of (some r) rs) h.last_hash)) [
  | inl ends ↦ let last = ends_with-end_hash r rs h.last_hash ends in ground arith
  | inr other ↦ ground arith
]

Agrees-check_head :
    (h : AuditHead) (rs : List AuditRecord)
    → Agrees h rs
    → check_head (some h) (0 + length rs) (last_of none rs) ≡ (true, none)
Agrees-check_head h rs (inl reset) = rw reset refl
Agrees-check_head h rs (inr (last, count)) = check_head-agrees h rs last count

module _ (hash_of : String → Payload → String) where
  walk-through :
      (prev : String) (n : ℕ) (last : Option AuditRecord) (rs : List AuditRecord)
      → is_through (walk hash_of prev n last rs) ≡ true
      → Linked hash_of prev rs
  unfolding walk is_through
  walk-through prev n last [] h = tt
  walk-through prev n last (r ∷ rs) h = elim (Bool-cases (intact hash_of prev r)) [
    | inl good ↦ (good, walk-through r.hash (n + 1) (some r) rs (ground arith))
    | inr bad ↦ absurd (ground arith)
  ]

  -- Every record names the hash of the one before it, and its hash is that of its own payload.
  abbrev pub LinkedByHash : String → List AuditRecord → Type 0
  LinkedByHash prev [] = Unit
  LinkedByHash prev (r ∷ rs) =
      (r.prev_hash ≡ prev) × (r.hash ≡ hash_of r.prev_hash r.payload) × LinkedByHash r.hash rs

  Linked-LinkedByHash :
      (prev : String) (rs : List AuditRecord) → Linked hash_of prev rs → LinkedByHash prev rs
  Linked-LinkedByHash prev [] l = tt
  Linked-LinkedByHash prev (r ∷ rs) l =
      let (previous, own) = and-both _ _ l.0 in
      (
        (eq_iff r.prev_hash prev).0 previous,
        (eq_iff r.hash (hash_of r.prev_hash r.payload)).0 own,
        Linked-LinkedByHash r.hash rs l.1,
      )

  LinkedByHash-Linked :
      (prev : String) (rs : List AuditRecord) → LinkedByHash prev rs → Linked hash_of prev rs
  LinkedByHash-Linked prev [] l = tt
  LinkedByHash-Linked prev (r ∷ rs) (previous, own, l) = (
    rw ((eq_iff r.prev_hash prev).1 previous, (eq_iff r.hash (hash_of r.prev_hash r.payload)).1 own)
        refl,
    LinkedByHash-Linked r.hash rs l,
  )

  -- What the chain of an organization and its checkpoint satisfy where the verification accepts.
  abbrev pub Accepted : AuditDb → String → Type 0
  Accepted db org =
      LinkedByHash "" (records_of org db)
      × ((find_row (head_of org) db.heads ≡ none)
          ⊎ ((h : AuditHead) × (find_row (head_of org) db.heads ≡ some h)
              × Agrees h (records_of org db)))

  Accepted-verified :
      (db : AuditDb) (org : String) → Accepted db org → verify_chain hash_of db org ≡ (true, none)
  unfolding verify_chain
  Accepted-verified db org (l, heads) =
      rw
        (
          verify_chain,
          walk-Linked hash_of "" 0 none (records_of org db)
              (LinkedByHash-Linked "" (records_of org db) l),
        )
        (elim heads [
          | inl e ↦ rw e refl
          | inr (h, e, a) ↦ rw e (Agrees-check_head h (records_of org db) a)
        ])

  verified-Accepted :
      (db : AuditDb) (org : String) → verify_chain hash_of db org ≡ (true, none) → Accepted db org
  unfolding verify_chain is_through
  verified-Accepted db org e = elim (Walk-cases (walk hash_of "" 0 none (records_of org db))) [
    | inl (s, b) ↦
        absurd (cc (ap (λ (x : Bool × Option ℕ). x.0) (subst (λ x. ended x ≡ (true, none)) b e)))
    | inr (n, last, t) ↦
        let linked = walk-through "" 0 none (records_of org db) (ap is_through t) in
        let met =
          subst (λ x. ended x ≡ (true, none))
            (walk-Linked hash_of "" 0 none (records_of org db) linked) e in
        (
          Linked-LinkedByHash "" (records_of org db) linked,
          elim (Option-cases (find_row (head_of org) db.heads)) [
            | inl bare ↦ inl bare
            | inr (h, found) ↦ inr (
              h,
              found,
              check_head-Agrees h (records_of org db) (
                  subst
                    (λ o.
                      check_head o (0 + length (records_of org db))
                        (last_of none (records_of org db))
                      ≡ (true, none))
                    found met),
            )
          ],
        )
  ]
    where
      ended : Walk → Bool × Option ℕ
      ended (broken s) = (false, some s)
      ended (through n last) = check_head (find_row (head_of org) db.heads) n last

  -- The verification accepts exactly the chains in which every record of the organization names the
  -- hash of the one before it and hashes rightly, and whose checkpoint, where there is one, counts
  -- nothing, or names the hash of the last record and counts exactly the records that there are. A
  -- checkpoint that is missing or whose count is 0 says nothing of the records.
  pub verify_chain-accepts :
      (db : AuditDb) (org : String)
      → (verify_chain hash_of db org ≡ (true, none) → Accepted db org)
        × (Accepted db org → verify_chain hash_of db org ≡ (true, none))
  verify_chain-accepts db org = (verified-Accepted db org, Accepted-verified db org)
