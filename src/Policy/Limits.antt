-- ===== src/Policy/Limits.antt =====
-- What the decision of `evaluate` promises of amounts, contacts, authority and autonomy.
use pay_twin_os.Prelude.{
  ℕ, ◌*◌, ◌≤◌, ◌<◌, ◌≡◌, refl, sym, ◌∙◌, ◌≢◌, ◌⊎◌, inl, inr, Bool, true, false, not, List, [], ◌∷◌,
  ◌++◌, ◌&&◌, ◌||◌, arith, ltb, leb, get_or, Bool-cases, and-both, Option-cases, none, some,
}
use pay_twin_os.Policy.Decision.{
  allow, block, PolicyRuleId, max_attempts, amount_cap, dnd_window, within_mandate_window,
  consent_on_file, contact_budget, agent_authority, provider_healthy, cooldown, contacts,
  moves_money, is_calendar_shift, Rules, PolicyContext, Findings, hard, hard_when, cap_of, in_dnd,
  guardrails, ladder, is_empty, evaluate,
}

is_empty-snoc {ℓ} : {A : Type ℓ} (xs : List A) (x : A) → is_empty (xs ++ x ∷ []) ≡ false
is_empty-snoc [] x = refl
is_empty-snoc (y ∷ xs) x = refl

hard-is_empty :
    (rule : PolicyRuleId) (ok : Bool) (f : Findings)
    → is_empty (hard rule ok f).failed ≡ (is_empty f.failed && ok)
unfolding hard
hard-is_empty rule true f = ground arith
hard-is_empty rule false f = ground (arith, is_empty-snoc f.failed rule)

hard_when-is_empty :
    (asked : Bool) (rule : PolicyRuleId) (ok : Bool) (f : Findings)
    → is_empty (hard_when asked rule ok f).failed ≡ (is_empty f.failed && (not asked || ok))
unfolding hard_when
hard_when-is_empty true rule ok f = hard-is_empty rule ok f
hard_when-is_empty false rule ok f = ground arith

-- The quiet window of the rules, from 21 to 9 where they do not say.
abbrev pub quiet_from : Rules → ℕ
quiet_from r = elim r.dnd_window [ none ↦ 21 | some w ↦ get_or w.start_hour 21 ]

abbrev pub quiet_until : Rules → ℕ
quiet_until r = elim r.dnd_window [ none ↦ 9 | some w ↦ get_or w.end_hour 9 ]

-- An hour outside the quiet window: between its end and its start where it goes over midnight, and
-- before its start or after its end where it does not.
abbrev pub Awake : ℕ → ℕ → ℕ → Type 0
Awake start stop hour =
    ((stop < start) × (stop ≤ hour) × (hour < start))
    ⊎ ((start ≤ stop) × ((hour < start) ⊎ (stop ≤ hour)))

in_dnd-Awake :
    (r : Rules) (hour : ℕ) → in_dnd r hour ≡ false → Awake (quiet_from r) (quiet_until r) hour
in_dnd-Awake r hour h = elim (Option-cases r.dnd_window) [
  | inl none_set ↦ ground arith
  | inr (w, set) ↦ ground arith
]

-- What a context without a violation satisfies, in the words of the rules.
pub record Permitted (r : Rules) (ctx : PolicyContext) : Type 0 where
  pub attempts : ctx.attempts_used < get_or r.max_attempts 3
  pub amount : ctx.amount_paise ≤ cap_of r
  pub healthy : get_or r.provider_healthy true ≡ true → ctx.provider_healthy ≡ true
  pub consent :
      contacts ctx.action_kind ≡ true
      → get_or r.consent_on_file true ≡ true
      → ctx.consent_on_file ≡ true
  pub mandate :
      is_calendar_shift ctx.action_kind ≡ true
      → get_or r.within_mandate_window true ≡ true
      → ctx.within_mandate_window ≡ true
  pub authority :
      moves_money ctx.action_kind ≡ true
      → get_or r.agent_authority true ≡ true
      → ctx.agent_authority_verified ≡ true
  pub budget : contacts ctx.action_kind ≡ true → ctx.contacts_24h < get_or r.contact_budget 2
  pub awake : contacts ctx.action_kind ≡ true → Awake (quiet_from r) (quiet_until r) ctx.ist_hour
  pub rested : get_or r.cooldown 30 ≤ ctx.minutes_since_last_action

when-ok : (asked ok : Bool) → (not asked || ok) ≡ true → asked ≡ true → ok ≡ true
when-ok true ok h e = h
when-ok false ok h e = absurd (cc)

guardrails-Permitted :
    (r : Rules) (ctx : PolicyContext) → is_empty (guardrails r ctx).failed ≡ true → Permitted r ctx
unfolding guardrails
guardrails-Permitted r ctx h =
    let h₉ = and-both _ _ (sym (hard-is_empty cooldown _ _) ∙ h) in
    let h₈ = and-both _ _ (sym (hard_when-is_empty _ dnd_window _ _) ∙ h₉.0) in
    let h₇ = and-both _ _ (sym (hard_when-is_empty _ contact_budget _ _) ∙ h₈.0) in
    let h₆ = and-both _ _ (sym (hard_when-is_empty _ agent_authority _ _) ∙ h₇.0) in
    let h₅ = and-both _ _ (sym (hard_when-is_empty _ within_mandate_window _ _) ∙ h₆.0) in
    let h₄ = and-both _ _ (sym (hard_when-is_empty _ consent_on_file _ _) ∙ h₅.0) in
    let h₃ = and-both _ _ (sym (hard_when-is_empty _ provider_healthy _ _) ∙ h₄.0) in
    let h₂ = and-both _ _ (sym (hard-is_empty amount_cap _ _) ∙ h₃.0) in
    let h₁ = and-both true _ (sym (hard-is_empty max_attempts _ _) ∙ h₂.0) in
    record {
      attempts = ltb-lt _ _ h₁.1;
      amount = leb-le _ _ h₂.1;
      healthy = when-ok _ _ h₃.1;
      consent = λ c a. when-ok _ _ h₄.1 (both c a);
      mandate = λ c a. when-ok _ _ h₅.1 (both c a);
      authority = λ c a. when-ok _ _ h₆.1 (both a c);
      budget = λ c. ltb-lt _ _ (when-ok _ _ h₇.1 c);
      awake = λ c. in_dnd-Awake r _ (not-true _ (when-ok _ _ h₈.1 c));
      rested = leb-le _ _ h₉.1;
    }
  where
    ltb-lt : (a b : ℕ) → ltb a b ≡ true → a < b
    ltb-lt a b h = ground arith

    leb-le : (a b : ℕ) → leb a b ≡ true → a ≤ b
    leb-le a b h = ground arith

    both : {a b : Bool} → a ≡ true → b ≡ true → (a && b) ≡ true
    both p q = rw (p, q) refl

    not-true : (b : Bool) → not b ≡ true → b ≡ false
    not-true true h = absurd (cc)
    not-true false h = refl

-- An action that is allowed or sent for approval violates no guardrail: its amount, attempts and
-- cooldown are within the limits, and a contact has budget and an hour outside the quiet window,
-- which may go over midnight. Where the merchant's rule for it is on, the provider is healthy, a
-- contact has consent, a shift of dates is in the mandate's window and a money action has a verified
-- agent.
pub evaluate-Permitted :
    (r : Rules) (ctx : PolicyContext) → (evaluate r ctx).decision ≢ block → Permitted r ctx
unfolding evaluate
evaluate-Permitted r ctx h = elim (Bool-cases (is_empty (guardrails r ctx).failed)) [
  | inl clean ↦ guardrails-Permitted r ctx clean
  | inr dirty ↦ absurd (h (rw dirty refl))
]

-- A money action is allowed without approval only in the mode AUTONOMOUS, or in BOUNDED_AUTOPILOT for
-- at most half of the amount cap.
pub money_allowed_by_mode :
    (r : Rules) (ctx : PolicyContext)
    → moves_money ctx.action_kind ≡ true
    → (evaluate r ctx).decision ≡ allow
    → (4 ≤ ctx.autonomy_mode) ⊎ ((ctx.autonomy_mode ≡ 3) × (ctx.amount_paise * 2 ≤ cap_of r))
unfolding evaluate ladder
money_allowed_by_mode r ctx money h = ground arith

ladder-permits : (r : Rules) (ctx : PolicyContext) → ladder r ctx ≢ block
unfolding ladder
ladder-permits r ctx h = ground arith

guardrails_any_mode :
    (r : Rules) (ctx : PolicyContext) (mode : ℕ)
    → guardrails r (record ctx { autonomy_mode = mode }) ≡ guardrails r ctx
unfolding guardrails
guardrails_any_mode r ctx mode = refl

-- The autonomy mode decides only between allow and approval: a context that is blocked in one mode
-- is blocked in every other, and the failed rules and the checks are the same in every mode.
pub block_in_every_mode :
    (r : Rules) (ctx : PolicyContext) (mode : ℕ)
    → let other = evaluate r (record ctx { autonomy_mode = mode }) in
      ((evaluate r ctx).decision ≡ block → other.decision ≡ block)
      × (other.failed_rules ≡ (evaluate r ctx).failed_rules)
      × (other.checks ≡ (evaluate r ctx).checks)
unfolding evaluate
block_in_every_mode r ctx mode = elim (Bool-cases (is_empty (guardrails r ctx).failed)) [
  | inl clean ↦
      rw (guardrails_any_mode r ctx mode, clean) (λ e. absurd (ladder-permits r ctx e), refl, refl)
  | inr dirty ↦ rw (guardrails_any_mode r ctx mode, dirty) (λ e. refl, refl, refl)
]
