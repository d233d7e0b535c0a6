-- ===== src/Audit/Append.antt =====
-- An append against the verification of the chain.
use pay_twin_os.Prelude.{
  ℕ, ◌+◌, ◌≡◌, refl, sym, ap, ◌∙◌, ◌⊎◌, inl, inr, String, Bool, true, Option, none, some, List, [],
  ◌∷◌, ◌++◌, arith, eq_refl, length, length-append, ok, Option-cases,
}
use pay_twin_os.Table.{find_row, rows_where, update_where, find_row-append, find_row-test}
use pay_twin_os.Audit.Chain.{
  Payload, AuditRecord, AuditHead, AuditDb, of_org, head_of, records_of, claims, end_hash, position,
  put_head, claim, attempt, attempts, append_audit, through, intact, walk, ends_with, check_head,
  verify_chain,
}

rows_where-snoc {ℓ} :
    {A : Type ℓ} (test : A → Bool) (rs : List A) (v : A)
    → test v ≡ true
    → rows_where test (rs ++ v ∷ []) ≡ rows_where test rs ++ v ∷ []
rows_where-snoc test [] v h = ground arith
rows_where-snoc test (r ∷ rs) v h = ground (arith, rows_where-snoc test rs v h)

find_row-update {ℓ} :
    {A : Type ℓ} (test : A → Bool) (f : A → A) (rs : List A) {r : A}
    → find_row test rs ≡ some r
    → test (f r) ≡ true
    → find_row test (update_where test f rs) ≡ some (f r)
find_row-update test f [] h t = absurd (cc)
find_row-update test f (x ∷ rs) {r} h t = ground (arith, find_row-update test f rs {r = r})

end_hash-snoc :
    (prev : String) (rs : List AuditRecord) (r : AuditRecord)
    → end_hash prev (rs ++ r ∷ []) ≡ r.hash
end_hash-snoc prev [] r = refl
end_hash-snoc prev (x ∷ rs) r = end_hash-snoc x.hash rs r

abbrev pub last_of : Option AuditRecord → List AuditRecord → Option AuditRecord
last_of last [] = last
last_of last (r ∷ rs) = last_of (some r) rs

last_of-snoc :
    (last : Option AuditRecord) (rs : List AuditRecord) (r : AuditRecord)
    → last_of last (rs ++ r ∷ []) ≡ some r
last_of-snoc last [] r = refl
last_of-snoc last (x ∷ rs) r = last_of-snoc (some x) rs r

last_ends_with :
    (r : AuditRecord) (rs : List AuditRecord)
    → ends_with (last_of (some r) rs) (end_hash r.hash rs) ≡ true
last_ends_with r [] = eq_refl r.hash
last_ends_with r (x ∷ rs) = last_ends_with x rs

pub check_head-agrees :
    (h : AuditHead) (rs : List AuditRecord)
    → h.last_hash ≡ end_hash "" rs
    → h.record_count ≡ length rs
    → check_head (some h) (0 + length rs) (last_of none rs) ≡ (true, none)
check_head-agrees h [] e c = ground arith
check_head-agrees h (r ∷ rs) e c = rw (e, c, last_ends_with r rs) (ground arith)

module _ (hash_of : String → Payload → String) where
  -- Every record names the hash of the one before it and its own hash.
  abbrev pub Linked : String → List AuditRecord → Type 0
  Linked prev [] = Unit
  Linked prev (r ∷ rs) = (intact hash_of prev r ≡ true) × Linked r.hash rs

  Linked-snoc :
      (prev : String) (rs : List AuditRecord) (r : AuditRecord)
      → Linked prev rs
      → intact hash_of (end_hash prev rs) r ≡ true
      → Linked prev (rs ++ r ∷ [])
  Linked-snoc prev [] r l h = (h, tt)
  Linked-snoc prev (x ∷ rs) r l h = (l.0, Linked-snoc x.hash rs r l.1 h)

  pub walk-Linked :
      (prev : String) (n : ℕ) (last : Option AuditRecord) (rs : List AuditRecord)
      → Linked prev rs
      → walk hash_of prev n last rs ≡ through (n + length rs) (last_of last rs)
  unfolding walk
  walk-Linked prev n last [] l = ap (λ m. through m last) (omega arith)
  walk-Linked prev n last (r ∷ rs) l =
      rw (l.0, walk-Linked r.hash (n + 1) (some r) rs l.1)
        (ap (λ m. through m (last_of (some r) rs)) (omega arith))

  -- The records of the organization are linked, and the checkpoint names their number and last hash.
  pub record Chained (org : String) (db : AuditDb) : Type 0 where
    pub linked : Linked "" (records_of org db)
    pub headed :
        (find_row (head_of org) db.heads ≡ none)
        ⊎ ((h : AuditHead) × (find_row (head_of org) db.heads ≡ some h)
            × (h.last_hash ≡ end_hash "" (records_of org db))
            × (h.record_count ≡ length (records_of org db)))

  -- A chain in order is verified.
  Chained-verified :
      (org : String) (db : AuditDb) → Chained org db → verify_chain hash_of db org ≡ (true, none)
  unfolding verify_chain
  Chained-verified org db c =
      rw (verify_chain, walk-Linked "" 0 none (records_of org db) c.linked)
        (elim c.headed [
          | inl e ↦ rw e refl
          | inr (h, e, l, n) ↦ rw e (check_head-agrees h (records_of org db) l n)
        ])

  position-Chained :
      (org : String) (db : AuditDb)
      → Chained org db
      → position org db ≡ (end_hash "" (records_of org db), length (records_of org db))
  unfolding position
  position-Chained org db c = elim c.headed [
    | inl e ↦ rw (position, e) refl
    | inr (h, e, l, n) ↦ rw (position, e, l, n) refl
  ]

  -- The head after a write names the record that was written.
  put_head-written :
      (org : String) (rec : AuditRecord) (n : ℕ) (db : AuditDb)
      → ((put_head org rec n db).records ≡ db.records)
        × ((h : AuditHead) × (find_row (head_of org) (put_head org rec n db).heads ≡ some h)
            × (h.last_hash ≡ rec.hash)
            × (h.record_count ≡ n))
  unfolding put_head
  put_head-written org rec n db = elim (Option-cases (find_row (head_of org) db.heads)) [
    | inl e ↦
        rw (put_head, e)
          (refl, (_, find_row-append (head_of org) _ db.heads e (eq_refl org), refl, refl))
    | inr (old, e) ↦
        rw (put_head, e)
          (
            refl,
            (
              _,
              find_row-update (head_of org) _ db.heads e (find_row-test (head_of org) db.heads e),
              refl,
              refl,
            ),
          )
  ]

  -- An append to a chain in order, whose last hash no record of the organization has claimed, returns
  -- at once a record of the payload behind the last one, and the chain is in order and verified.
  pub append_audit-verified :
      (p : Payload) (incident : Option String) (db : AuditDb)
      → let org = p.organization_id in
        let last = end_hash "" (records_of org db) in
        Chained org db
        → find_row (claims org last) db.records ≡ none
        → (rec : AuditRecord) × (db' : AuditDb) × (append_audit hash_of p incident db
            ≡ ok (rec, db'))
          × (db'.records ≡ db.records ++ rec ∷ [])
          × (rec.payload ≡ p)
          × (rec.prev_hash ≡ last)
          × Chained org db'
          × (verify_chain hash_of db' org ≡ (true, none))
  unfolding append_audit attempts attempt claim
  append_audit-verified p incident db c free =
      let org = p.organization_id in
      let rows = records_of org db in
      let last = end_hash "" rows in
      let rec : AuditRecord = record {
        seq = db.next_seq;
        payload = p;
        incident_id = incident;
        prev_hash = last;
        hash = hash_of last p;
      } in
      let db₁ : AuditDb = record db {
        records = db.records ++ rec ∷ [];
        next_seq = db.next_seq + 1;
      } in
      let db' = put_head org rec (length rows + 1) db₁ in
      let inserted : attempt hash_of p incident db ≡ some (rec, db') =
        ap (λ q. claim hash_of p incident q db) (position-Chained org db c)
        ∙ rw (claim, free) refl in
      let written = put_head-written org rec (length rows + 1) db₁ in
      let grown : records_of org db' ≡ rows ++ rec ∷ [] =
        ap (rows_where (of_org org)) written.0
        ∙ rows_where-snoc (of_org org) db.records rec (eq_refl org) in
      let (h, found, hashed, counted) = written.1 in
      let chained : Chained org db' = record {
        linked =
            rw grown (Linked-snoc "" rows rec c.linked (rw (eq_refl last, eq_refl rec.hash) refl));
        headed = inr (
          h,
          found,
          hashed ∙ sym (ap (end_hash "") grown ∙ end_hash-snoc "" rows rec),
          counted ∙ sym (ap length grown ∙ length-append rows (rec ∷ [])),
        );
      } in
      (
        rec,
        db',
        rw (append_audit, attempts, inserted) refl,
        written.0,
        refl,
        refl,
        chained,
        Chained-verified org db' chained,
      )
