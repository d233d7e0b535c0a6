-- ===== src/Release/Fair.antt =====
-- When the execution of a suite cannot block a release
-- (services/api/paytwin_api/reliability/router.py).
use pay_twin_os.Prelude.{
  ℕ, ◌≡◌, refl, ap, ◌∙◌, String, Bool, true, false, List, [], ◌∷◌, ◌++◌, if_intro, All,
}
use pay_twin_os.Reliability.Events.{correct}
use pay_twin_os.Reliability.Engine.{new_world, deliver}
use pay_twin_os.Reliability.Invariants.{InvariantId, out_of_order_converges}
use pay_twin_os.Reliability.Amounts.{SameCapture}
use pay_twin_os.Reliability.Signatures.{SignedAs}
use pay_twin_os.Reliability.Scenario.{run_scenario, run_scenario-correct, same_set}
use pay_twin_os.Release.Packs.{Mutation, PackScenario, Suite, presets}
use pay_twin_os.Release.Suite.{
  is_critical, severity_of, finding, Finding, gate, Report, base_check, mutation_check,
  mutation_checks, scenario_checks, execute_suite,
}
use pay_twin_os.Release.Verdict.{any_critical, any_critical-append, is_blocked, gate_blocked}

-- A scenario that expects no violation, whose captures of a payment name one amount, whose event
-- ids are each genuine or forged throughout, and that leaves no paid order without a fulfilment.
pub record IsFair (sc : PackScenario) : Type 0 where
  pub amount_of : String → ℕ
  pub genuine : String → Bool
  pub captures : All (SameCapture amount_of) sc.scenario.events
  pub signed : All (SignedAs genuine) sc.scenario.events
  pub converges :
      out_of_order_converges
        (deliver (new_world "t1" sc.scenario.single_use_mandate) correct sc.scenario.events)
      ≡ false
  pub expects : sc.scenario.expect_violations ≡ []

IsFair-passed : (sc : PackScenario) → IsFair sc → (run_scenario sc.scenario correct).passed ≡ true
unfolding run_scenario
IsFair-passed sc fair =
    let found =
      run_scenario-correct fair.amount_of fair.genuine sc.scenario fair.captures fair.signed in
    let none : (run_scenario sc.scenario correct).violations ≡ [] =
      found ∙ rw (fair.converges) refl in
    ap (λ (is : List InvariantId). same_set is sc.scenario.expect_violations) none
    ∙ ap (λ (is : List InvariantId). same_set [] is) fair.expects

-- No finding so far is critical.
abbrev Harmless : Report → Type 0
Harmless r = any_critical r.findings ≡ false

severity_of_mutation :
    (violations : List InvariantId) → is_critical (severity_of true violations) ≡ false
unfolding severity_of
severity_of_mutation [] = refl
severity_of_mutation (i ∷ is) = refl

base_check-Harmless :
    (sc : PackScenario) (r : Report) → IsFair sc → Harmless r → Harmless (base_check sc r)
unfolding base_check
base_check-Harmless sc r fair h = rw (IsFair-passed sc fair) h

mutation_check-Harmless :
    (sc : PackScenario) (mut : Mutation) (r : Report)
    → Harmless r
    → Harmless (mutation_check sc mut r)
unfolding mutation_check finding
mutation_check-Harmless sc mut r h =
    let mres = run_scenario sc.scenario (presets mut.preset) in
    let f = finding sc.scenario.id mut.name mres sc.req_ids true in
    let added : any_critical (r.findings ++ f ∷ []) ≡ false =
      any_critical-append r.findings (f ∷ []) ∙ rw (h, severity_of_mutation mres.violations) refl in
    if_intro (λ (fs : List Finding). any_critical fs ≡ false) (same_set mres.violations mut.expect)
      h added

mutation_checks-Harmless :
    (sc : PackScenario) (muts : List Mutation) (r : Report)
    → Harmless r
    → Harmless (mutation_checks sc muts r)
unfolding mutation_checks
mutation_checks-Harmless sc [] r h = h
mutation_checks-Harmless sc (mut ∷ muts) r h =
    mutation_checks-Harmless sc muts (mutation_check sc mut r) (mutation_check-Harmless sc mut r h)

scenario_checks-Harmless :
    (scs : List PackScenario) (r : Report)
    → All IsFair scs
    → Harmless r
    → Harmless (scenario_checks scs r)
unfolding scenario_checks
scenario_checks-Harmless [] r fair h = h
scenario_checks-Harmless (sc ∷ scs) r (fair, rest) h =
    scenario_checks-Harmless scs (mutation_checks sc sc.mutations (base_check sc r)) rest
      (mutation_checks-Harmless sc sc.mutations (base_check sc r) (base_check-Harmless sc r fair h))

-- A suite of fair scenarios never blocks a release, whatever its mutations: a broken fixture that the
-- lab does not detect warns only.
pub execute_suite-not_blocked :
    (suite : Suite)
    → All IsFair suite.scenarios
    → is_blocked (gate (execute_suite suite).findings).verdict ≡ false
unfolding execute_suite
execute_suite-not_blocked suite fair =
    gate_blocked (execute_suite suite).findings
    ∙ scenario_checks-Harmless suite.scenarios _ fair refl
