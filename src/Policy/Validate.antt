-- ===== src/Policy/Validate.antt =====
-- `validate_rules` (services/api/paytwin_api/services/policy.py) on the values of a JSON object, and
-- the reading of such an object as typed rules. An error names its key and its limits.
use pay_twin_os.Prelude.{
  ℕ, String, Bool, Option, none, some, List, [], ◌∷◌, ◌&&◌, leb, ◌==◌, str_eq, if◌then◌else◌,
}
use pay_twin_os.Table.{find_row}
use pay_twin_os.Policy.Decision.{
  PolicyRuleId, max_attempts, amount_cap, dnd_window, within_mandate_window, consent_on_file,
  contact_budget, agent_authority, provider_healthy, cooldown, DndWindow, Rules,
}
use pay_twin_os.Policy.Active.{no_rules}

-- `other` is null, a text, a list, or a number that is no integer; in a window also an object.
pub data Scalar : Type 0 where
  boolean : Bool → Scalar
  integer : ℕ → Scalar
  negative : ℕ → Scalar
  other : Scalar

pub data Value : Type 0 where
  scalar : Scalar → Value
  object : List (String × Scalar) → Value

pub data RuleError : Type 0 where
  must_be_integer : PolicyRuleId → ℕ → ℕ → RuleError
  must_be_boolean : PolicyRuleId → RuleError
  must_be_object start_hour_range end_hour_range hours_equal : RuleError
  unrecognized : String → RuleError

-- The rule of a key.
abbrev pub rule_named : String → Option PolicyRuleId
rule_named key =
    if str_eq key "max_attempts"
    then some max_attempts
    else if str_eq key "amount_cap"
    then some amount_cap
    else if str_eq key "contact_budget_ok"
    then some contact_budget
    else if str_eq key "cooldown_ok"
    then some cooldown
    else if str_eq key "provider_healthy"
    then some provider_healthy
    else if str_eq key "consent_on_file"
    then some consent_on_file
    else if str_eq key "within_mandate_window"
    then some within_mandate_window
    else if str_eq key "agent_authority_verified"
    then some agent_authority
    else if str_eq key "dnd_window_ok"
    then some dnd_window
    else none

-- An integer within the limits, which a boolean is not.
abbrev pub integer_in : ℕ → ℕ → Scalar → Option ℕ
integer_in lo hi (integer n) = if leb lo n && leb n hi then some n else none
integer_in lo hi _ = none

abbrev pub get : String → List (String × Scalar) → Scalar
get key entries = elim (find_row (λ (c : String × Scalar). str_eq c.0 key) entries) [
  | none ↦ other
  | some c ↦ c.1
]

unfoldable pub check_hours : Option ℕ → Option ℕ → Option RuleError
check_hours none e = some start_hour_range
check_hours (some s) none = some end_hour_range
check_hours (some s) (some e) = if s == e then some hours_equal else none

unfoldable pub check_window : Value → Option RuleError
check_window (scalar s) = some must_be_object
check_window (object entries) =
    check_hours (integer_in 0 23 (get "start_hour" entries))
      (integer_in 0 23 (get "end_hour" entries))

unfoldable pub check_integer : PolicyRuleId → ℕ → ℕ → Value → Option RuleError
check_integer rule lo hi (object entries) = some (must_be_integer rule lo hi)
check_integer rule lo hi (scalar s) = elim (integer_in lo hi s) [
  | none ↦ some (must_be_integer rule lo hi)
  | some n ↦ none
]

unfoldable pub check_boolean : PolicyRuleId → Value → Option RuleError
check_boolean rule (scalar (boolean b)) = none
check_boolean rule _ = some (must_be_boolean rule)

-- The rules of `_INT_BOUNDS`, the window, and `_BOOL_RULES`.
unfoldable pub check_rule : PolicyRuleId → Value → Option RuleError
check_rule max_attempts v = check_integer max_attempts 1 10 v
check_rule amount_cap v = check_integer amount_cap 100 10000000 v
check_rule contact_budget v = check_integer contact_budget 0 10 v
check_rule cooldown v = check_integer cooldown 0 1440 v
check_rule dnd_window v = check_window v
check_rule rule v = check_boolean rule v

-- The loop, which returns the first error.
unfoldable pub validate_rules : List (String × Value) → Option RuleError
validate_rules [] = none
validate_rules ((key, v) ∷ rules) = elim (rule_named key) [
  | none ↦ some (unrecognized key)
  | some rule ↦ elim (check_rule rule v) [ some e ↦ some e | none ↦ validate_rules rules ]
]

abbrev pub as_integer : Value → Option ℕ
as_integer (scalar (integer n)) = some n
as_integer _ = none

abbrev pub as_boolean : Value → Option Bool
as_boolean (scalar (boolean b)) = some b
as_boolean _ = none

abbrev pub hour_of : Scalar → Option ℕ
hour_of (integer n) = some n
hour_of _ = none

abbrev pub as_window : Value → Option DndWindow
as_window (object entries) = some (record {
  start_hour = hour_of (get "start_hour" entries);
  end_hour = hour_of (get "end_hour" entries);
})
as_window _ = none

-- The rules with one entry more; an entry of another type is none.
abbrev pub read_rule : PolicyRuleId → Value → Rules → Rules
read_rule max_attempts v r = record r { max_attempts = as_integer v }
read_rule amount_cap v r = record r { amount_cap = as_integer v }
read_rule contact_budget v r = record r { contact_budget = as_integer v }
read_rule cooldown v r = record r { cooldown = as_integer v }
read_rule provider_healthy v r = record r { provider_healthy = as_boolean v }
read_rule consent_on_file v r = record r { consent_on_file = as_boolean v }
read_rule within_mandate_window v r = record r { within_mandate_window = as_boolean v }
read_rule agent_authority v r = record r { agent_authority = as_boolean v }
read_rule dnd_window v r = record r { dnd_window = as_window v }

-- The typed rules that an object's entries are.
abbrev pub rules_of : List (String × Value) → Rules
rules_of [] = no_rules
rules_of ((key, v) ∷ entries) =
    let rest = rules_of entries in
    elim (rule_named key) [ none ↦ rest | some rule ↦ read_rule rule v rest ]
