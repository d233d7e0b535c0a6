-- ===== src/Release/Verdict.antt =====
-- What a verdict says of the checks (services/api/paytwin_api/reliability/router.py).
use pay_twin_os.Prelude.{
  ◌+◌, ◌≡◌, refl, Bool, true, false, List, [], ◌∷◌, ◌++◌, ◌&&◌, ◌||◌, arith, num_true,
  if◌then◌else◌, length,
}
use pay_twin_os.Reliability.Events.{correct}
use pay_twin_os.Reliability.Invariants.{count_of}
use pay_twin_os.Reliability.Scenario.{run_scenario, same_set}
use pay_twin_os.Release.Packs.{Mutation, PackScenario, Suite, presets}
use pay_twin_os.Release.Suite.{
  is_critical, is_high, is_medium, Finding, Check, Verdict, blocked, ready, gate, finding, Report,
  empty_report, base_check, mutation_check, mutation_checks, scenario_checks, execute_suite,
}

abbrev pub all_passed : List Check → Bool
all_passed [] = true
all_passed (c ∷ cs) = c.passed && all_passed cs

abbrev pub is_clean : List Finding → Bool
is_clean [] = true
is_clean (f ∷ fs) = false

abbrev pub any_critical : List Finding → Bool
any_critical [] = false
any_critical (f ∷ fs) = is_critical f.severity || any_critical fs

pub all_passed-append :
    (cs ds : List Check) → all_passed (cs ++ ds) ≡ (all_passed cs && all_passed ds)
all_passed-append [] ds = refl
all_passed-append (c ∷ cs) ds = ground (arith, all_passed-append cs ds)

pub is_clean-append : (fs gs : List Finding) → is_clean (fs ++ gs) ≡ (is_clean fs && is_clean gs)
is_clean-append [] gs = refl
is_clean-append (f ∷ fs) gs = refl

pub any_critical-append :
    (fs gs : List Finding) → any_critical (fs ++ gs) ≡ (any_critical fs || any_critical gs)
any_critical-append [] gs = refl
any_critical-append (f ∷ fs) gs = ground (arith, any_critical-append fs gs)

-- Each check that fails leaves a finding, and no other one does.
pub record Agrees (r : Report) : Type 0 where
  pub checks : all_passed r.checks ≡ r.ok
  pub findings : is_clean r.findings ≡ r.ok

Agrees-add :
    (passed : Bool) (r : Report) (c : Check) (f : Finding)
    → c.passed ≡ passed
    → Agrees r
    → Agrees (record {
      checks = r.checks ++ c ∷ [];
      findings = if passed then r.findings else r.findings ++ f ∷ [];
      ok = if passed then r.ok else false;
    })
Agrees-add true r c f e a = record {
  checks = let p = all_passed-append r.checks (c ∷ []) in ground (arith, a.checks);
  findings = a.findings;
}
Agrees-add false r c f e a = record {
  checks = let p = all_passed-append r.checks (c ∷ []) in ground (arith, a.checks);
  findings = let p = is_clean-append r.findings (f ∷ []) in ground (arith, a.findings);
}

base_check-Agrees : (sc : PackScenario) (r : Report) → Agrees r → Agrees (base_check sc r)
unfolding base_check
base_check-Agrees sc r a =
    let res = run_scenario sc.scenario correct in
    Agrees-add res.passed r _ (finding sc.scenario.id "correct-integration" res sc.req_ids false)
      refl a

mutation_check-Agrees :
    (sc : PackScenario) (mut : Mutation) (r : Report) → Agrees r → Agrees (mutation_check sc mut r)
unfolding mutation_check
mutation_check-Agrees sc mut r a =
    let mres = run_scenario sc.scenario (presets mut.preset) in
    Agrees-add (same_set mres.violations mut.expect) r _
      (finding sc.scenario.id mut.name mres sc.req_ids true) refl a

mutation_checks-Agrees :
    (sc : PackScenario) (muts : List Mutation) (r : Report)
    → Agrees r
    → Agrees (mutation_checks sc muts r)
unfolding mutation_checks
mutation_checks-Agrees sc [] r a = a
mutation_checks-Agrees sc (mut ∷ muts) r a =
    mutation_checks-Agrees sc muts (mutation_check sc mut r) (mutation_check-Agrees sc mut r a)

scenario_checks-Agrees :
    (scs : List PackScenario) (r : Report) → Agrees r → Agrees (scenario_checks scs r)
unfolding scenario_checks
scenario_checks-Agrees [] r a = a
scenario_checks-Agrees (sc ∷ scs) r a =
    scenario_checks-Agrees scs (mutation_checks sc sc.mutations (base_check sc r))
      (mutation_checks-Agrees sc sc.mutations (base_check sc r) (base_check-Agrees sc r a))

pub execute_suite-Agrees : (suite : Suite) → Agrees (execute_suite suite)
unfolding execute_suite
execute_suite-Agrees suite =
    scenario_checks-Agrees suite.scenarios empty_report (record { checks = refl; findings = refl })

gate_counts :
    (fs : List Finding)
    → (num_true (count_of (λ (f : Finding). is_critical f.severity) fs) ≡ any_critical fs)
      × (count_of (λ (f : Finding). is_critical f.severity) fs
            + count_of (λ (f : Finding). is_high f.severity) fs
            + count_of (λ (f : Finding). is_medium f.severity) fs
          ≡ length fs)
gate_counts [] = (refl, refl)
gate_counts (f ∷ fs) = let ih = gate_counts fs in (ground (arith, ih.0), ground (arith, ih.1))

abbrev pub is_ready : Verdict → Bool
is_ready ready = true
is_ready _ = false

abbrev pub is_blocked : Verdict → Bool
is_blocked blocked = true
is_blocked _ = false

pub gate_ready : (fs : List Finding) → is_ready (gate fs).verdict ≡ is_clean fs
unfolding gate
gate_ready [] = refl
gate_ready (f ∷ fs) = let n = gate_counts (f ∷ fs) in ground (arith, n.1)

pub gate_blocked : (fs : List Finding) → is_blocked (gate fs).verdict ≡ any_critical fs
unfolding gate
gate_blocked fs = let n = gate_counts fs in ground (arith, n.0)
