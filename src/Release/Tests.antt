-- ===== src/Release/Tests.antt =====
-- Runs of the shipped packs, and the theorems of the gate at concrete runs.
use pay_twin_os.Prelude.{
  none, Result, err, ◌≡◌, refl, String, Bool, true, false, Option, some, List, [], ◌∷◌, ok, All,
}
use pay_twin_os.Reliability.Engine.{new_world, deliver, handle, accept, apply_type, fulfil}
use pay_twin_os.Reliability.Events.{correct}
use pay_twin_os.Reliability.Invariants.{
  InvariantId, inv_005, evaluate, violated_by, no_fulfilment_without_captured, one_effect_per_event,
  invalid_signature_zero_effect, refund_le_captured, tenant_isolation, out_of_order_converges,
  agent_mandate_single_use, one_fulfilment_per_order,
}
use pay_twin_os.Reliability.Scenario.{ScenarioResult, run_scenario}
use pay_twin_os.Release.Packs
use pay_twin_os.Release.Packs.{Suite, PackScenario, Mutation}
use pay_twin_os.Release.Suite.{
  Gate, Verdict, blocked, ready, gate, execute_suite, scenario_checks, mutation_checks,
  mutation_check, base_check,
}
use pay_twin_os.Release.Verdict.{all_passed, is_ready, is_blocked}
use pay_twin_os.Release.Evidence.{
  of_org, Observation, Run, Evidence, missing, run, run_suites, run_merchant, record_run,
  runtime_check, runtime_findings, add_suite, new_run, release_gate,
}
use pay_twin_os.Release.Gated.{run-release_gate, run-release_gate_other}
use pay_twin_os.Release.Views.{
  get_run, get_run-of_org, run_not_found, ViewError, proof_flow, webhook_lab,
}
use pay_twin_os.Release.Fair.{IsFair, execute_suite-not_blocked}

-- A replayed checkout that the sandbox answers twice, and a forged callback that it refuses.
abbrev observed : String → Option (List Observation)
observed id = some (
    record { check_id = "RT-CHECKOUT-REPLAY"; requirement_ids = []; as_expected = false }
    ∷ record { check_id = "RT-FORGED"; requirement_ids = []; as_expected = true }
    ∷ [])

abbrev owned : String → Bool
owned id = true

abbrev requested : List String
requested = "paytwin/isolation" ∷ "razorpay/runtime" ∷ []

abbrev no_evidence : Evidence
no_evidence = record { rows = []; artifact = missing }

abbrev first_run : Run
first_run =
    let lab = execute_suite Packs.tenant_isolation in
    let found = runtime_findings (
      record { check_id = "RT-CHECKOUT-REPLAY"; requirement_ids = []; as_expected = false }
      ∷ record { check_id = "RT-FORGED"; requirement_ids = []; as_expected = true }
      ∷ []) in
    new_run "REL-1" "org_a" (some "mer_1") (
      add_suite "org_a" "razorpay/runtime" false
        (runtime_check
            (record { check_id = "RT-CHECKOUT-REPLAY"; requirement_ids = []; as_expected = false })
          ∷ runtime_check
              (record { check_id = "RT-FORGED"; requirement_ids = []; as_expected = true })
          ∷ [])
        found
        (add_suite "org_a" "paytwin/isolation" lab.ok lab.checks lab.findings
          (record { per_suite = []; checks = []; findings = [] })))

first_run_made :
    run true false observed owned "REL-1" "org_a" (some "mer_1") requested no_evidence
    ≡ ok (first_run, record_run true false first_run no_evidence)
unfolding run run_suites run_merchant runtime_findings
first_run_made = refl

run-release_gate_example :
    (is_ready first_run.gate.verdict ≡ all_passed first_run.checks)
    × (release_gate true (record_run true false first_run no_evidence) "org_a" ≡ first_run.gate)
run-release_gate_example =
    run-release_gate true false observed owned "REL-1" "org_a" (some "mer_1") requested no_evidence
      first_run_made

run-release_gate_other_example :
    release_gate true (record_run true false first_run no_evidence) "org_b"
    ≡ release_gate true no_evidence "org_b"
run-release_gate_other_example =
    run-release_gate_other false observed owned "REL-1" "org_a" "org_b" (some "mer_1") requested
      no_evidence refl first_run_made

-- A broken fixture that the scenario cannot detect.
abbrev blind : Suite
blind = record {
  suite_id = "paytwin/isolation";
  req_ids = [];
  scenarios =
      record {
        scenario = Packs.base "ISO-OWN" (Packs.pay "t9" 10000 ∷ []);
        req_ids = [];
        mutations =
            record {
              name = "cross_tenant_blind";
              preset = Packs.Preset.cross_tenant_blind;
              expect = inv_005 ∷ [];
            }
            ∷ [];
      }
      ∷ [];
}

blind_converges :
    out_of_order_converges (deliver (new_world "t1" false) correct (Packs.pay "t9" 10000 ∷ []))
    ≡ false
unfolding out_of_order_converges deliver handle accept apply_type fulfil new_world
blind_converges = refl

blind-IsFair : All IsFair blind.scenarios
blind-IsFair = (
  record {
    amount_of = λ _. 10000;
    genuine = λ _. true;
    captures = (λ _. refl, tt);
    signed = (refl, tt);
    converges = blind_converges;
    expects = refl;
  },
  tt,
)

execute_suite-not_blocked_example : is_blocked (gate (execute_suite blind).findings).verdict ≡ false
execute_suite-not_blocked_example = execute_suite-not_blocked blind blind-IsFair

shipped_packs_pass :
    ((execute_suite Packs.generic_webhooks).ok ≡ true)
    × ((execute_suite Packs.razorpay_core).ok ≡ true)
    × ((execute_suite Packs.tenant_isolation).ok ≡ true)
    × ((execute_suite Packs.agentic).ok ≡ true)
unfolding execute_suite scenario_checks mutation_checks mutation_check base_check run_scenario
    evaluate violated_by deliver handle accept apply_type fulfil new_world
    no_fulfilment_without_captured one_effect_per_event invalid_signature_zero_effect
    refund_le_captured tenant_isolation out_of_order_converges agent_mandate_single_use
    one_fulfilment_per_order
shipped_packs_pass = (refl, refl, refl, refl)

abbrev verdict_of : Result ViewError Gate → Option Verdict
verdict_of (err raised) = none
verdict_of (ok g) = some g.verdict

abbrev violations_of : Result ViewError ScenarioResult → Option (List InvariantId)
violations_of (err raised) = none
violations_of (ok res) = some res.violations

-- The lab catches the duplicate fulfilment and clears the corrected handler.
both_stages_pass :
    (verdict_of (proof_flow true) ≡ some blocked) × (verdict_of (proof_flow false) ≡ some ready)
unfolding proof_flow run_scenario evaluate violated_by deliver handle accept apply_type fulfil
    new_world no_fulfilment_without_captured one_effect_per_event invalid_signature_zero_effect
    refund_le_captured tenant_isolation out_of_order_converges agent_mandate_single_use
    one_fulfilment_per_order
both_stages_pass = (refl, refl)

no_fault_violates :
    (violations_of (webhook_lab "duplicate") ≡ some [])
    × (violations_of (webhook_lab "bad_signature") ≡ some [])
    × (violations_of (webhook_lab "timeout_redelivery") ≡ some [])
    × (violations_of (webhook_lab "out_of_order") ≡ some [])
unfolding webhook_lab run_scenario evaluate violated_by deliver handle accept apply_type fulfil
    new_world no_fulfilment_without_captured one_effect_per_event invalid_signature_zero_effect
    refund_le_captured tenant_isolation out_of_order_converges agent_mandate_single_use
    one_fulfilment_per_order
no_fault_violates = (refl, refl, refl, refl)

first_run_found :
    get_run true (record_run true false first_run no_evidence) "org_a" "REL-1" ≡ ok first_run
unfolding get_run record_run
first_run_found = refl

first_run_hidden :
    get_run true (record_run true false first_run no_evidence) "org_b" "REL-1" ≡ err run_not_found
unfolding get_run record_run
first_run_hidden = refl

get_run-of_org_example : of_org "org_a" first_run ≡ true
get_run-of_org_example =
    get_run-of_org true (record_run true false first_run no_evidence) "org_a" "REL-1"
      first_run_found
