-- ===== src/Policy/Decision.antt =====
-- `DEFAULT_RULES`, `merge_rules` and `evaluate` (services/api/paytwin_api/services/policy.py), on
-- rules of the types that `validate_rules` admits. The hour of the context is the one in IST, and a
-- number of minutes is rounded down, which no comparison with a whole number sees.
use pay_twin_os.Prelude.{
  ℕ, ◌*◌, Bool, true, false, not, Option, none, some, List, [], ◌∷◌, ◌++◌, ◌&&◌, ◌||◌, ltb, leb,
  ◌==◌, if◌then◌else◌, get_or,
}

pub data ActionKind : Type 0 where
  do_nothing retry_burst reroute_psp payment_link notify_customer calendar_shift escalate :
      ActionKind

pub data PolicyDecision : Type 0 where
  allow require_approval block : PolicyDecision

pub data PolicyRuleId : Type 0 where
  max_attempts amount_cap dnd_window within_mandate_window consent_on_file contact_budget :
      PolicyRuleId
  agent_authority provider_healthy cooldown : PolicyRuleId

abbrev pub contacts : ActionKind → Bool
contacts ActionKind.payment_link = true
contacts ActionKind.notify_customer = true
contacts ActionKind.calendar_shift = true
contacts _ = false

abbrev pub moves_money : ActionKind → Bool
moves_money ActionKind.retry_burst = true
moves_money ActionKind.reroute_psp = true
moves_money ActionKind.payment_link = true
moves_money ActionKind.calendar_shift = true
moves_money _ = false

abbrev pub is_calendar_shift : ActionKind → Bool
is_calendar_shift ActionKind.calendar_shift = true
is_calendar_shift _ = false

pub record DndWindow : Type 0 where
  pub start_hour : Option ℕ
  pub end_hour : Option ℕ

-- A dictionary of rules; an absent entry is `none`.
pub record Rules : Type 0 where
  pub max_attempts : Option ℕ
  pub amount_cap : Option ℕ
  pub contact_budget : Option ℕ
  pub provider_healthy : Option Bool
  pub consent_on_file : Option Bool
  pub dnd_window : Option DndWindow
  pub within_mandate_window : Option Bool
  pub cooldown : Option ℕ
  pub agent_authority : Option Bool

pub record PolicyContext : Type 0 where
  pub autonomy_mode : ℕ
  pub action_kind : ActionKind
  pub amount_paise : ℕ
  pub attempts_used : ℕ
  pub contacts_24h : ℕ
  pub minutes_since_last_action : ℕ
  pub provider_healthy : Bool
  pub consent_on_file : Bool
  pub within_mandate_window : Bool
  pub agent_authority_verified : Bool
  pub ist_hour : ℕ

pub record PolicyResult : Type 0 where
  pub decision : PolicyDecision
  pub failed_rules : List PolicyRuleId
  pub checks : List (PolicyRuleId × Bool)

abbrev pub default_rules : Rules
default_rules = record {
  max_attempts = some 3;
  amount_cap = some 500000;
  contact_budget = some 2;
  provider_healthy = some true;
  consent_on_file = some true;
  dnd_window = some (record { start_hour = some 21; end_hour = some 9 });
  within_mandate_window = some true;
  cooldown = some 30;
  agent_authority = some true;
}

-- One entry of `d.update(other)`.
abbrev pub updated : {A : Type 0} → Option A → Option A → Option A
updated old none = old
updated old (some a) = some a

unfoldable pub update_rules : Rules → Rules → Rules
update_rules d r = record {
  max_attempts = updated d.max_attempts r.max_attempts;
  amount_cap = updated d.amount_cap r.amount_cap;
  contact_budget = updated d.contact_budget r.contact_budget;
  provider_healthy = updated d.provider_healthy r.provider_healthy;
  consent_on_file = updated d.consent_on_file r.consent_on_file;
  dnd_window = updated d.dnd_window r.dnd_window;
  within_mandate_window = updated d.within_mandate_window r.within_mandate_window;
  cooldown = updated d.cooldown r.cooldown;
  agent_authority = updated d.agent_authority r.agent_authority;
}

unfoldable pub merge_rules : Option Rules → Rules
unfolding update_rules
merge_rules none = default_rules
merge_rules (some r) = update_rules default_rules r

-- `failed` and `checks`, to which `hard` appends.
pub record Findings : Type 0 where
  pub failed : List PolicyRuleId
  pub checks : List (PolicyRuleId × Bool)

unfoldable pub hard : PolicyRuleId → Bool → Findings → Findings
hard rule ok f = record {
  failed = if ok then f.failed else f.failed ++ rule ∷ [];
  checks = f.checks ++ (rule, ok) ∷ [];
}

abbrev pub cap_of : Rules → ℕ
cap_of r = get_or r.amount_cap 500000

abbrev pub dnd_of : Rules → ℕ × ℕ
dnd_of r = elim r.dnd_window [
  | none ↦ (21, 9)
  | some w ↦ (get_or w.start_hour 21, get_or w.end_hour 9)
]

abbrev pub in_dnd : Rules → ℕ → Bool
in_dnd r h = let (s, e) = dnd_of r in if ltb e s then leb s h || ltb h e else leb s h && ltb h e

unfoldable pub hard_when : Bool → PolicyRuleId → Bool → Findings → Findings
hard_when asked rule ok f = let f' = hard rule ok f in if asked then f' else f

-- The guardrails, in the order of the code.
unfoldable pub guardrails : Rules → PolicyContext → Findings
guardrails r ctx =
    let f₁ =
      hard max_attempts (ltb ctx.attempts_used (get_or r.max_attempts 3))
        (record { failed = []; checks = [] }) in
    let f₂ = hard amount_cap (leb ctx.amount_paise (cap_of r)) f₁ in
    let f₃ = hard_when (get_or r.provider_healthy true) provider_healthy ctx.provider_healthy f₂ in
    let f₄ =
      hard_when (contacts ctx.action_kind && get_or r.consent_on_file true) consent_on_file
        ctx.consent_on_file f₃ in
    let f₅ =
      hard_when (is_calendar_shift ctx.action_kind && get_or r.within_mandate_window true)
        within_mandate_window ctx.within_mandate_window f₄ in
    let f₆ =
      hard_when (get_or r.agent_authority true && moves_money ctx.action_kind) agent_authority
        ctx.agent_authority_verified f₅ in
    let f₇ =
      hard_when (contacts ctx.action_kind) contact_budget
        (ltb ctx.contacts_24h (get_or r.contact_budget 2)) f₆ in
    let f₈ = hard_when (contacts ctx.action_kind) dnd_window (not (in_dnd r ctx.ist_hour)) f₇ in
    hard cooldown (leb (get_or r.cooldown 30) ctx.minutes_since_last_action) f₈

-- The autonomy ladder, for a context with no violation.
unfoldable pub ladder : Rules → PolicyContext → PolicyDecision
ladder r ctx =
    if not (moves_money ctx.action_kind)
    then allow
    else if leb 4 ctx.autonomy_mode
    then allow
    else if ctx.autonomy_mode == 3
    then if leb (ctx.amount_paise * 2) (cap_of r) then allow else require_approval
    else require_approval

abbrev pub is_empty {ℓ} : {A : Type ℓ} → List A → Bool
is_empty [] = true
is_empty (x ∷ xs) = false

unfoldable pub evaluate : Rules → PolicyContext → PolicyResult
evaluate r ctx =
    let f = guardrails r ctx in
    if is_empty f.failed
    then record { decision = ladder r ctx; failed_rules = []; checks = f.checks }
    else record { decision = block; failed_rules = f.failed; checks = f.checks }
