-- ===== src/Audit/Chain.antt =====
-- `append_audit` and `verify_chain` (services/api/paytwin_api/services/audit.py). The hash of a text
-- and a payload is a parameter; the details of a record are a text.
use pay_twin_os.Prelude.{
  ℕ, zero, suc, ◌+◌, String, Bool, true, false, not, Option, none, some, List, [], ◌∷◌, ◌++◌, ◌&&◌,
  str_eq, ltb, ◌==◌, if◌then◌else◌, length, Result, ok, err,
}
use pay_twin_os.Table.{find_row, rows_where, update_where}

pub record Payload : Type 0 where
  pub organization_id : String
  pub actor : String
  pub actor_role : String
  pub action_type : String
  pub object_type : String
  pub object_id : String
  pub summary : String
  pub details : String
  pub policy_version : Option String

pub record AuditRecord : Type 0 where
  pub seq : ℕ
  pub payload : Payload
  pub incident_id : Option String
  pub prev_hash : String
  pub hash : String

pub record AuditHead : Type 0 where
  pub organization_id : String
  pub last_seq : ℕ
  pub last_hash : String
  pub record_count : ℕ

pub record AuditDb : Type 0 where
  pub records : List AuditRecord
  pub heads : List AuditHead
  pub next_seq : ℕ

-- `RuntimeError`, after the last attempt.
pub data AuditError : Type 0 where
  contention : AuditError

abbrev pub of_org : String → AuditRecord → Bool
of_org org r = str_eq r.payload.organization_id org

abbrev pub head_of : String → AuditHead → Bool
head_of org h = str_eq h.organization_id org

abbrev pub records_of : String → AuditDb → List AuditRecord
records_of org db = rows_where (of_org org) db.records

-- UNIQUE(organization_id, prev_hash)
abbrev pub claims : String → String → AuditRecord → Bool
claims org prev r = of_org org r && str_eq r.prev_hash prev

-- The hash of the record with the greatest `seq`, which is the one inserted last.
abbrev pub end_hash : String → List AuditRecord → String
end_hash prev [] = prev
end_hash prev (r ∷ rs) = end_hash r.hash rs

-- `prev_hash` and `base_count`.
unfoldable pub position : String → AuditDb → String × ℕ
position org db = elim (find_row (head_of org) db.heads) [
  | some h ↦ (h.last_hash, h.record_count)
  | none ↦ (end_hash "" (records_of org db), length (records_of org db))
]

unfoldable pub put_head : String → AuditRecord → ℕ → AuditDb → AuditDb
put_head org rec count db = elim (find_row (head_of org) db.heads) [
  | none ↦ record db {
    heads =
        db.heads
        ++ record {
          organization_id = org;
          last_seq = rec.seq;
          last_hash = rec.hash;
          record_count = count;
        }
          ∷ [];
  }
  | some old ↦ record db {
    heads =
        update_where (head_of org)
          (λ (h : AuditHead). record h {
            last_seq = rec.seq;
            last_hash = rec.hash;
            record_count = count;
          })
          db.heads;
  }
]

pub data Walk : Type 0 where
  broken : ℕ → Walk
  through : ℕ → Option AuditRecord → Walk

abbrev pub ends_with : Option AuditRecord → String → Bool
ends_with none hash = false
ends_with (some r) hash = str_eq r.hash hash

abbrev pub check_head : Option AuditHead → ℕ → Option AuditRecord → Bool × Option ℕ
check_head none count last = (true, none)
check_head (some h) count last =
    if ltb 0 h.record_count && not (count == h.record_count && ends_with last h.last_hash)
    then (false, some h.last_seq)
    else (true, none)

module _ (hash_of : String → Payload → String) where
  abbrev pub new_record : Payload → Option String → String → AuditDb → AuditRecord
  new_record p incident prev_hash db = record {
    seq = db.next_seq;
    payload = p;
    incident_id = incident;
    prev_hash = prev_hash;
    hash = hash_of prev_hash p;
  }

  -- The insertion at a position: `none` is the `IntegrityError` that rolls the savepoint back.
  unfoldable pub claim :
      Payload → Option String → String × ℕ → AuditDb → Option (AuditRecord × AuditDb)
  claim p incident (prev_hash, base_count) db =
      let rec = new_record p incident prev_hash db in
      let db₁ = record db { records = db.records ++ rec ∷ []; next_seq = db.next_seq + 1 } in
      elim (find_row (claims p.organization_id prev_hash) db.records) [
        | some r ↦ none
        | none ↦ some (rec, put_head p.organization_id rec (base_count + 1) db₁)
      ]

  unfoldable pub attempt : Payload → Option String → AuditDb → Option (AuditRecord × AuditDb)
  attempt p incident db = claim p incident (position p.organization_id db) db

  unfoldable pub attempts :
      ℕ → Payload → Option String → AuditDb → Result AuditError (AuditRecord × AuditDb)
  attempts zero p incident db = err contention
  attempts (suc n) p incident db = elim (attempt p incident db) [
    | some done ↦ ok done
    | none ↦ attempts n p incident db
  ]

  unfoldable pub append_audit :
      Payload → Option String → AuditDb → Result AuditError (AuditRecord × AuditDb)
  append_audit p incident db = attempts 4 p incident db

  abbrev pub intact : String → AuditRecord → Bool
  intact prev r = str_eq r.prev_hash prev && str_eq r.hash (hash_of r.prev_hash r.payload)

  -- The loop over the records.
  unfoldable pub walk : String → ℕ → Option AuditRecord → List AuditRecord → Walk
  walk prev count last [] = through count last
  walk prev count last (r ∷ rs) =
      let rest = walk r.hash (count + 1) (some r) rs in if intact prev r then rest else broken r.seq

  unfoldable pub verify_chain : AuditDb → String → Bool × Option ℕ
  verify_chain db org = elim (walk "" 0 none (records_of org db)) [
    | broken seq ↦ (false, some seq)
    | through count last ↦ check_head (find_row (head_of org) db.heads) count last
  ]
