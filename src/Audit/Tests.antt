-- ===== src/Audit/Tests.antt =====
-- The audit chain of one organization with one record.
use Prim.Native.String.{◌++◌ as text_append}
use pay_twin_os.Prelude.{◌≡◌, refl, inr, String, true, false, none, some, [], ◌∷◌, ◌++◌, ok}
use pay_twin_os.Audit.Chain.{
  Payload, AuditRecord, AuditHead, AuditDb, append_audit, verify_chain, walk,
}
use pay_twin_os.Audit.Tamper.{Accepted, verify_chain-accepts}
use pay_twin_os.Audit.Append.{Chained, append_audit-verified}

abbrev joined : String → Payload → String
joined prev p = text_append (text_append prev "/") p.summary

abbrev promotion : Payload
promotion = record {
  organization_id = "org_1";
  actor = "policy-engine";
  actor_role = "system";
  action_type = "promote";
  object_type = "model";
  object_id = "model_1";
  summary = "promoted";
  details = "";
  policy_version = none;
}

abbrev first_record : AuditRecord
first_record = record {
  seq = 1;
  payload = promotion;
  incident_id = none;
  prev_hash = "";
  hash = "/promoted";
}

abbrev first_head : AuditHead
first_head = record {
  organization_id = "org_1";
  last_seq = 1;
  last_hash = "/promoted";
  record_count = 1;
}

abbrev audited : AuditDb
audited = record { records = first_record ∷ []; heads = first_head ∷ []; next_seq = 2 }

audited-Chained : Chained joined "org_1" audited
audited-Chained = record { linked = (refl, tt); headed = inr (first_head, refl, refl, refl) }

-- The head still names the record that was deleted.
deleted_tail_is_found :
    verify_chain joined (record audited { records = [] }) "org_1" ≡ (false, some 1)
unfolding verify_chain walk
deleted_tail_is_found = refl

append_audit-verified_example :
    (rec : AuditRecord) × (db' : AuditDb) × (append_audit joined promotion none audited
      ≡ ok (rec, db'))
    × (db'.records ≡ audited.records ++ rec ∷ [])
    × (rec.payload ≡ promotion)
    × (rec.prev_hash ≡ "/promoted")
    × Chained joined "org_1" db'
    × (verify_chain joined db' "org_1" ≡ (true, none))
append_audit-verified_example =
    append_audit-verified joined promotion none audited audited-Chained refl

audited_is_verified : verify_chain joined audited "org_1" ≡ (true, none)
unfolding verify_chain walk
audited_is_verified = refl

verify_chain-accepts_example :
    (verify_chain joined audited "org_1" ≡ (true, none) → Accepted joined audited "org_1")
    × (Accepted joined audited "org_1" → verify_chain joined audited "org_1" ≡ (true, none))
verify_chain-accepts_example = verify_chain-accepts joined audited "org_1"
