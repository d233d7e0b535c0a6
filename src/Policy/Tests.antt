-- ===== src/Policy/Tests.antt =====
-- The policy engine on concrete contexts.
use pay_twin_os.Prelude.{
  String, List, All, some, none, ◌*◌, ◌≤◌, ◌≡◌, refl, ◌≢◌, ◌⊎◌, true, [], ◌∷◌,
}
use pay_twin_os.Tenancy.{Merchant}
use pay_twin_os.Policy.Active.{PolicyStatus, Policy, no_rules, active_rules}
use pay_twin_os.Policy.Decision.{
  Rules, merge_rules, update_rules, ActionKind, allow, require_approval, block, dnd_window,
  max_attempts, amount_cap, PolicyContext, hard, hard_when, guardrails, ladder, evaluate,
  default_rules,
}
use pay_twin_os.Policy.Limits.{Permitted, evaluate-Permitted, money_allowed_by_mode}
use pay_twin_os.Policy.Validate.{
  boolean, integer, Value, scalar, object, must_be_integer, hours_equal, unrecognized, check_hours,
  check_window, check_integer, check_boolean, check_rule, validate_rules, rules_of,
}
use pay_twin_os.Policy.Admitted.{FitsEntry}
use pay_twin_os.Policy.Effective.{
  InRange, IsAdmitted, validate_rules-Fits_InRange, active_rules-InRange,
}

abbrev noon : PolicyContext
noon = record {
  autonomy_mode = 3;
  action_kind = ActionKind.payment_link;
  amount_paise = 64000;
  attempts_used = 1;
  contacts_24h = 0;
  minutes_since_last_action = 9999;
  provider_healthy = true;
  consent_on_file = true;
  within_mandate_window = true;
  agent_authority_verified = true;
  ist_hour = 12;
}

abbrev night : PolicyContext
night = record noon { ist_hour = 22 }

noon_is_allowed : (evaluate default_rules noon).decision ≡ allow
unfolding evaluate guardrails hard hard_when ladder
noon_is_allowed = refl

night_is_blocked : (evaluate default_rules night).failed_rules ≡ dnd_window ∷ []
unfolding evaluate guardrails hard hard_when ladder
night_is_blocked = refl

large_needs_approval :
    (evaluate default_rules (record noon { amount_paise = 300000 })).decision ≡ require_approval
unfolding evaluate guardrails hard hard_when ladder
large_needs_approval = refl

noon_is_not_blocked : (evaluate default_rules noon).decision ≢ block
noon_is_not_blocked e = absurd (cc (noon_is_allowed, e))

evaluate-Permitted_example : Permitted default_rules noon
evaluate-Permitted_example = evaluate-Permitted default_rules noon noon_is_not_blocked

money_allowed_by_mode_example : (4 ≤ 3) ⊎ ((noon.autonomy_mode ≡ 3) × (64000 * 2 ≤ 500000))
money_allowed_by_mode_example = money_allowed_by_mode default_rules noon refl noon_is_allowed

-- Two versions of one policy, and a legacy entry that no policy has.
abbrev first_version : Policy
first_version = record {
  organization_id = "o1";
  merchant_id = "m1";
  human_id = "RP-007";
  version = 1;
  status = PolicyStatus.live;
  rules = record no_rules { max_attempts = some 9; cooldown = some 5 };
}

abbrev second_version : Policy
second_version = record first_version {
  version = 2;
  rules = record no_rules { max_attempts = some 2 };
}

abbrev draft_version : Policy
draft_version = record second_version { version = 3; status = PolicyStatus.draft }

abbrev shop : Merchant
shop = record {
  id = "m1";
  organization_id = "o1";
  autonomy_mode = 1;
  connector = none;
  policy_rules = some (record no_rules { max_attempts = some 7; amount_cap = some 900 });
}

abbrev rules_of_shop : Rules
rules_of_shop = active_rules (first_version ∷ draft_version ∷ second_version ∷ []) "o1" shop

latest_live_version_speaks :
    (rules_of_shop.max_attempts ≡ some 2)
    × (rules_of_shop.amount_cap ≡ some 900)
    × (rules_of_shop.cooldown ≡ some 30)
unfolding active_rules merge_rules update_rules
latest_live_version_speaks = (refl, refl, refl)

-- A saved policy with a limit, a switch and quiet hours.
abbrev saved : List (String × Value)
saved =
    ("max_attempts", scalar (integer 5))
    ∷ ("consent_on_file", scalar (boolean true))
    ∷ ("dnd_window_ok", object (("start_hour", integer 22) ∷ ("end_hour", integer 8) ∷ []))
    ∷ []

saved_passes : validate_rules saved ≡ none
unfolding validate_rules check_rule check_integer check_boolean check_window check_hours
saved_passes = refl

refused :
    (validate_rules (("max_attempts", scalar (boolean true)) ∷ [])
      ≡ some (must_be_integer max_attempts 1 10))
    × (validate_rules (("amount_cap", scalar (integer 10000001)) ∷ [])
        ≡ some (must_be_integer amount_cap 100 10000000))
    × (validate_rules (
          ("dnd_window_ok", object (("start_hour", integer 9) ∷ ("end_hour", integer 9) ∷ [])) ∷ [])
        ≡ some hours_equal)
    × (validate_rules (("max_attempt", scalar (integer 3)) ∷ [])
        ≡ some (unrecognized "max_attempt"))
unfolding validate_rules check_rule check_integer check_boolean check_window check_hours
refused = (refl, refl, refl, refl)

validate_rules-Fits_InRange_example : All FitsEntry saved × InRange (rules_of saved)
validate_rules-Fits_InRange_example = validate_rules-Fits_InRange saved saved_passes

abbrev policy : Policy
policy = record {
  organization_id = "org_1";
  merchant_id = "m_1";
  human_id = "POL-1";
  version = 1;
  status = PolicyStatus.live;
  rules = rules_of saved;
}

abbrev no_legacy_shop : Merchant
no_legacy_shop = record shop { policy_rules = none }

no_legacy : (r : Rules) → no_legacy_shop.policy_rules ≡ some r → IsAdmitted r
no_legacy r h = cc

active_rules-InRange_example : InRange (active_rules (policy ∷ []) "org_1" no_legacy_shop)
active_rules-InRange_example =
    active_rules-InRange (policy ∷ []) "org_1" no_legacy_shop ((saved, saved_passes, refl), tt)
      no_legacy
