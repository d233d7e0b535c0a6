-- ===== src/Policy/Report.antt =====
-- The failed rules of `evaluate` against its checks, and the rules that it falls back on.
use pay_twin_os.Prelude.{
  ◌≡◌, inl, inr, refl, sym, ◌∙◌, Bool, true, false, List, [], ◌∷◌, ◌++◌, arith, if◌then◌else◌,
  Bool-cases, if_intro,
}
use pay_twin_os.Policy.Decision.{
  block, PolicyRuleId, max_attempts, amount_cap, dnd_window, Rules, PolicyContext, Findings, hard,
  hard_when, guardrails, is_empty, evaluate, within_mandate_window, consent_on_file, contact_budget,
  agent_authority, provider_healthy, cooldown,
}

-- The rules that the checks report as violated.
abbrev pub violated : List (PolicyRuleId × Bool) → List PolicyRuleId
violated [] = []
violated ((rule, ok) ∷ cs) = if ok then violated cs else rule ∷ violated cs

violated-snoc :
    (cs : List (PolicyRuleId × Bool)) (rule : PolicyRuleId) (ok : Bool)
    → violated (cs ++ (rule, ok) ∷ []) ≡ (if ok then violated cs else violated cs ++ rule ∷ [])
violated-snoc [] rule ok = refl
violated-snoc ((r, b) ∷ cs) rule ok = ground (arith, violated-snoc cs rule ok)

abbrev Reported : Findings → Type 0
Reported f = f.failed ≡ violated f.checks

hard-Reported :
    (rule : PolicyRuleId) (ok : Bool) (f : Findings) → Reported f → Reported (hard rule ok f)
unfolding hard
hard-Reported rule ok f h = rw (violated-snoc f.checks rule ok, h) refl

hard_when-Reported :
    (asked : Bool) (rule : PolicyRuleId) (ok : Bool) (f : Findings)
    → Reported f
    → Reported (hard_when asked rule ok f)
unfolding hard_when
hard_when-Reported asked rule ok f h = if_intro Reported asked (hard-Reported rule ok f h) h

guardrails-Reported : (r : Rules) (ctx : PolicyContext) → Reported (guardrails r ctx)
unfolding guardrails
guardrails-Reported r ctx = hard-Reported cooldown _ _ (
    hard_when-Reported _ dnd_window _ _ (
      hard_when-Reported _ contact_budget _ _ (
        hard_when-Reported _ agent_authority _ _ (
          hard_when-Reported _ within_mandate_window _ _ (
            hard_when-Reported _ consent_on_file _ _ (
              hard_when-Reported _ provider_healthy _ _
                (hard-Reported amount_cap _ _ (hard-Reported max_attempts _ _ refl))))))))

is_empty-nil : (xs : List PolicyRuleId) → is_empty xs ≡ true → xs ≡ []
is_empty-nil [] h = refl
is_empty-nil (x ∷ xs) h = absurd (cc)

-- The failed rules are the violated ones among the checks, in the same order, and the decision is to
-- block when there is one.
pub evaluate-failed_rules :
    (r : Rules) (ctx : PolicyContext)
    → let result = evaluate r ctx in
      (result.failed_rules ≡ violated result.checks)
      × (is_empty result.failed_rules ≡ false → result.decision ≡ block)
unfolding evaluate
evaluate-failed_rules r ctx = elim (Bool-cases (is_empty (guardrails r ctx).failed)) [
  | inl clean ↦ rw clean (sym (is_empty-nil _ clean) ∙ guardrails-Reported r ctx, λ h. absurd (cc))
  | inr dirty ↦ rw dirty (guardrails-Reported r ctx, λ h. refl)
]
