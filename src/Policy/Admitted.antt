-- ===== src/Policy/Admitted.antt =====
-- The rules that `validate_rules` admits, and those that then hold for a merchant
-- (services/api/paytwin_api/services/policy.py).
use pay_twin_os.Prelude.{
  ℕ, ◌≤◌, ◌≡◌, refl, ap, inl, inr, String, Bool, false, none, some, List, [], ◌∷◌, arith, ◌==◌,
  Option-cases, All,
}
use pay_twin_os.Policy.Decision.{
  PolicyRuleId, max_attempts, amount_cap, dnd_window, within_mandate_window, consent_on_file,
  contact_budget, agent_authority, provider_healthy, cooldown,
}
use pay_twin_os.Policy.Validate.{
  Scalar, boolean, integer, negative, other, Value, scalar, object, rule_named, integer_in, get,
  check_hours, check_window, check_integer, check_boolean, check_rule, validate_rules,
}

-- A value that is an integer within the limits.
abbrev pub Between : ℕ → ℕ → Value → Type 0
Between lo hi v = (n : ℕ) × (v ≡ scalar (integer n)) × (lo ≤ n) × (n ≤ hi)

abbrev pub IsBoolean : Value → Type 0
IsBoolean v = (b : Bool) × (v ≡ scalar (boolean b))

-- A value that is an object with two hours of a day that differ.
abbrev pub IsWindow : Value → Type 0
IsWindow v =
    (entries : List (String × Scalar)) × (s : ℕ) × (e : ℕ) × (v ≡ object entries)
    × (get "start_hour" entries ≡ integer s)
    × (get "end_hour" entries ≡ integer e)
    × (s ≤ 23)
    × (e ≤ 23)
    × ((s == e) ≡ false)

-- What a rule's value has to be.
abbrev pub Fits : PolicyRuleId → Value → Type 0
Fits max_attempts v = Between 1 10 v
Fits amount_cap v = Between 100 10000000 v
Fits contact_budget v = Between 0 10 v
Fits cooldown v = Between 0 1440 v
Fits dnd_window v = IsWindow v
Fits rule v = IsBoolean v

abbrev pub FitsEntry : String × Value → Type 0
FitsEntry (key, v) = (rule : PolicyRuleId) × (rule_named key ≡ some rule) × Fits rule v

integer_in-Between :
    (lo hi : ℕ) (s : Scalar) {n : ℕ}
    → integer_in lo hi s ≡ some n
    → (s ≡ integer n) × (lo ≤ n) × (n ≤ hi)
integer_in-Between lo hi (integer m) {n} h =
    let same : m ≡ n = ground arith in (ap integer same, ground arith, ground arith)
integer_in-Between lo hi (boolean b) h = cc
integer_in-Between lo hi (negative m) h = cc
integer_in-Between lo hi other h = cc

check_integer-Between :
    (rule : PolicyRuleId) (lo hi : ℕ) (v : Value)
    → check_integer rule lo hi v ≡ none
    → Between lo hi v
unfolding check_integer
check_integer-Between rule lo hi (object entries) h = cc
check_integer-Between rule lo hi (scalar s) h = elim (Option-cases (integer_in lo hi s)) [
  | inl e ↦ absurd (ground arith)
  | inr (n, e) ↦ let (same, l, u) = integer_in-Between lo hi s e in (n, ap scalar same, l, u)
]

check_boolean-IsBoolean :
    (rule : PolicyRuleId) (v : Value) → check_boolean rule v ≡ none → IsBoolean v
unfolding check_boolean
check_boolean-IsBoolean rule (scalar (boolean b)) h = (b, refl)
check_boolean-IsBoolean rule (scalar (integer n)) h = cc
check_boolean-IsBoolean rule (scalar (negative n)) h = cc
check_boolean-IsBoolean rule (scalar other) h = cc
check_boolean-IsBoolean rule (object entries) h = cc

check_window-IsWindow : (v : Value) → check_window v ≡ none → IsWindow v
unfolding check_window check_hours
check_window-IsWindow (scalar s) h = cc
check_window-IsWindow (object entries) h =
    elim (Option-cases (integer_in 0 23 (get "start_hour" entries))) [
      | inl e ↦ absurd (ground arith)
      | inr (s, e) ↦ elim (Option-cases (integer_in 0 23 (get "end_hour" entries))) [
        | inl f ↦ absurd (ground arith)
        | inr (t, f) ↦
            let (a, _, b) = integer_in-Between 0 23 (get "start_hour" entries) e in
            let (c, _, d) = integer_in-Between 0 23 (get "end_hour" entries) f in
            (entries, s, t, refl, a, c, b, d, ground arith)
      ]
    ]

check_rule-Fits : (rule : PolicyRuleId) (v : Value) → check_rule rule v ≡ none → Fits rule v
unfolding check_rule
check_rule-Fits max_attempts v h = check_integer-Between max_attempts 1 10 v h
check_rule-Fits amount_cap v h = check_integer-Between amount_cap 100 10000000 v h
check_rule-Fits contact_budget v h = check_integer-Between contact_budget 0 10 v h
check_rule-Fits cooldown v h = check_integer-Between cooldown 0 1440 v h
check_rule-Fits dnd_window v h = check_window-IsWindow v h
check_rule-Fits within_mandate_window v h = check_boolean-IsBoolean within_mandate_window v h
check_rule-Fits consent_on_file v h = check_boolean-IsBoolean consent_on_file v h
check_rule-Fits agent_authority v h = check_boolean-IsBoolean agent_authority v h
check_rule-Fits provider_healthy v h = check_boolean-IsBoolean provider_healthy v h

pub validate_rules-Fits :
    (rules : List (String × Value)) → validate_rules rules ≡ none → All FitsEntry rules
unfolding validate_rules
validate_rules-Fits [] h = tt
validate_rules-Fits ((key, v) ∷ rules) h = elim (Option-cases (rule_named key)) [
  | inl e ↦ absurd (ground arith)
  | inr (rule, e) ↦ elim (Option-cases (check_rule rule v)) [
    | inr (raised, f) ↦ absurd (ground arith)
    | inl f ↦ ((rule, e, check_rule-Fits rule v f), validate_rules-Fits rules (ground arith))
  ]
]
