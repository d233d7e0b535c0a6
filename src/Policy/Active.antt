-- ===== src/Policy/Active.antt =====
-- `active_rules` (services/api/paytwin_api/services/policy.py): the rules of a merchant, from the
-- versioned policies (models/actions.py) and the legacy entries of its configuration. The label
-- that names the versions is left out.
use Prim.Native.Nat.{Ordering}
use Prim.Native.String.{compare}
use pay_twin_os.Prelude.{
  ℕ, String, Bool, true, false, none, some, List, [], ◌∷◌, ◌++◌, ◌&&◌, ◌||◌, ltb, str_eq,
  if◌then◌else◌,
}
use pay_twin_os.Table.{rows_where}
use pay_twin_os.Tenancy.{Merchant}
use pay_twin_os.Policy.Decision.{Rules, update_rules, merge_rules}

pub data PolicyStatus : Type 0 where
  draft live archived : PolicyStatus

pub record Policy : Type 0 where
  pub organization_id : String
  pub merchant_id : String
  pub human_id : String
  pub version : ℕ
  pub status : PolicyStatus
  pub rules : Rules

abbrev pub no_rules : Rules
no_rules = record {
  max_attempts = none;
  amount_cap = none;
  contact_budget = none;
  provider_healthy = none;
  consent_on_file = none;
  dnd_window = none;
  within_mandate_window = none;
  cooldown = none;
  agent_authority = none;
}

abbrev pub is_live : PolicyStatus → Bool
is_live PolicyStatus.live = true
is_live _ = false

abbrev pub is_lt : Ordering → Bool
is_lt Ordering.lt = true
is_lt _ = false

-- `order_by(Policy.human_id, Policy.version.desc())`: the first row stands before the second.
abbrev pub precedes : Policy → Policy → Bool
precedes r s =
    is_lt (compare r.human_id s.human_id) || str_eq r.human_id s.human_id && ltb s.version r.version

abbrev pub insert_row : Policy → List Policy → List Policy
insert_row r [] = r ∷ []
insert_row r (s ∷ ss) = let rest = insert_row r ss in if precedes s r then s ∷ rest else r ∷ s ∷ ss

abbrev pub order_by : List Policy → List Policy
order_by [] = []
order_by (r ∷ rs) = insert_row r (order_by rs)

abbrev pub has_human_id : String → List Policy → Bool
has_human_id id [] = false
has_human_id id (r ∷ rs) = str_eq r.human_id id || has_human_id id rs

-- `latest.setdefault(r.human_id, r)` over the rows.
abbrev pub latest : List Policy → List Policy → List Policy
latest seen [] = seen
latest seen (r ∷ rs) = latest (if has_human_id r.human_id seen then seen else seen ++ r ∷ []) rs

-- `merged.update(row.rules or {})` over the rows.
abbrev pub merged : Rules → List Policy → Rules
merged rules [] = rules
merged rules (r ∷ rs) = merged (update_rules rules r.rules) rs

abbrev pub applies_to : String → String → Policy → Bool
applies_to org merchant row =
    str_eq row.organization_id org && str_eq row.merchant_id merchant && is_live row.status

-- An entry of the legacy rules stays only where no policy has one: the policies' update it. The
-- rows of `latest` have distinct names, in whose order they stand sorted.
unfoldable pub active_rules : List Policy → String → Merchant → Rules
active_rules policies org merchant =
    let rows = latest [] (order_by (rows_where (applies_to org merchant.id) policies)) in
    let legacy : Rules = elim merchant.policy_rules [ none ↦ no_rules | some r ↦ r ] in
    merge_rules (some (update_rules legacy (merged no_rules (order_by rows))))
