-- ===== src/Release/Suite.antt =====
-- `_finding`, `_gate`, `_unknown_gate` and `_execute_suite`
-- (services/api/paytwin_api/reliability/router.py). Texts and random ids are left out.
use pay_twin_os.Prelude.{
  ℕ, ◌+◌, ◌-◌, ◌*◌, String, Bool, true, false, not, Option, none, some, List, [], ◌∷◌, ◌++◌, ◌&&◌,
  ◌||◌, leb, num_true, if◌then◌else◌,
}
use pay_twin_os.Reliability.Events.{correct}
use pay_twin_os.Reliability.Invariants.{InvariantId, count_of}
use pay_twin_os.Reliability.Scenario.{ScenarioResult, run_scenario, number, same_set}
use pay_twin_os.Release.Packs.{Mutation, PackScenario, Suite, presets}

pub data Severity : Type 0 where
  critical high medium : Severity

abbrev pub is_critical : Severity → Bool
is_critical critical = true
is_critical _ = false

abbrev pub is_high : Severity → Bool
is_high high = true
is_high _ = false

abbrev pub is_medium : Severity → Bool
is_medium medium = true
is_medium _ = false

pub record Finding : Type 0 where
  pub scenario : String
  pub severity : Severity
  pub fixture : String
  pub requirement_ids : List String
  pub expected : List InvariantId
  pub actual : List InvariantId

pub record Check : Type 0 where
  pub scenario : String
  pub fixture : String
  pub passed : Bool
  pub expected : List InvariantId
  pub violations : List InvariantId
  pub severity : Option Severity

abbrev pub any_violation : List InvariantId → Bool
any_violation [] = false
any_violation (i ∷ is) = true

unfoldable pub severity_of : Bool → List InvariantId → Severity
severity_of mutation violations =
    if not mutation && any_violation violations
    then critical
    else if mutation && not (any_violation violations)
    then high
    else medium

unfoldable pub finding : String → String → ScenarioResult → List String → Bool → Finding
finding scenario_id fixture res req_ids mutation = record {
  scenario = scenario_id;
  severity = severity_of mutation res.violations;
  fixture = fixture;
  requirement_ids = req_ids;
  expected = res.expected;
  actual = res.violations;
}

pub data Verdict : Type 0 where
  blocked warning ready unknown : Verdict

pub record Gate : Type 0 where
  pub verdict : Verdict
  pub score : ℕ
  pub critical : ℕ
  pub high : ℕ
  pub medium : ℕ

-- The score stops at 0, as subtraction on natural numbers does.
unfoldable pub gate : List Finding → Gate
gate findings =
    let crit = count_of (λ (f : Finding). is_critical f.severity) findings in
    let hi = count_of (λ (f : Finding). is_high f.severity) findings in
    let med = count_of (λ (f : Finding). is_medium f.severity) findings in
    record {
      verdict =
          if num_true crit then blocked else if num_true hi || num_true med then warning else ready;
      score = 100 - (25 * crit + 10 * hi + 3 * med);
      critical = crit;
      high = hi;
      medium = med;
    }

unfoldable pub unknown_gate : Gate
unknown_gate = record { verdict = unknown; score = 0; critical = 0; high = 0; medium = 0 }

-- `sorted(...)` of the ids.
abbrev pub insert_id : InvariantId → List InvariantId → List InvariantId
insert_id i [] = i ∷ []
insert_id i (j ∷ js) =
    let rest = insert_id i js in if leb (number i) (number j) then i ∷ j ∷ js else j ∷ rest

abbrev pub sorted : List InvariantId → List InvariantId
sorted [] = []
sorted (i ∷ is) = insert_id i (sorted is)

pub record Report : Type 0 where
  pub checks : List Check
  pub findings : List Finding
  pub ok : Bool

abbrev pub empty_report : Report
empty_report = record { checks = []; findings = []; ok = true }

unfoldable pub base_check : PackScenario → Report → Report
base_check sc r =
    let res = run_scenario sc.scenario correct in
    let entry : Check = record {
      scenario = sc.scenario.id;
      fixture = "correct";
      passed = res.passed;
      expected = sorted res.expected;
      violations = res.violations;
      severity = if res.passed then none else some critical;
    } in
    let found = finding sc.scenario.id "correct-integration" res sc.req_ids false in
    record {
      checks = r.checks ++ entry ∷ [];
      findings = if res.passed then r.findings else r.findings ++ found ∷ [];
      ok = if res.passed then r.ok else false;
    }

unfoldable pub mutation_check : PackScenario → Mutation → Report → Report
mutation_check sc mut r =
    let mres = run_scenario sc.scenario (presets mut.preset) in
    let mok = same_set mres.violations mut.expect in
    let entry : Check = record {
      scenario = sc.scenario.id;
      fixture = mut.name;
      passed = mok;
      expected = sorted mut.expect;
      violations = mres.violations;
      severity =
          if mok then none else some (if any_violation mres.violations then high else critical);
    } in
    let found = finding sc.scenario.id mut.name mres sc.req_ids true in
    record {
      checks = r.checks ++ entry ∷ [];
      findings = if mok then r.findings else r.findings ++ found ∷ [];
      ok = if mok then r.ok else false;
    }

unfoldable pub mutation_checks : PackScenario → List Mutation → Report → Report
mutation_checks sc [] r = r
mutation_checks sc (mut ∷ muts) r = mutation_checks sc muts (mutation_check sc mut r)

unfoldable pub scenario_checks : List PackScenario → Report → Report
scenario_checks [] r = r
scenario_checks (sc ∷ scs) r =
    scenario_checks scs (mutation_checks sc sc.mutations (base_check sc r))

unfoldable pub execute_suite : Suite → Report
execute_suite suite = scenario_checks suite.scenarios empty_report
