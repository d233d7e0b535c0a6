-- ===== src/Reliability/Scenario.antt =====
-- `run_scenario` (services/api/paytwin_api/reliability/engine.py) and what it reports of the correct
-- handler.
use pay_twin_os.Prelude.{
  ℕ, ◌≡◌, refl, String, Bool, true, false, List, [], ◌∷◌, ◌&&◌, ◌||◌, ◌==◌, if◌then◌else◌, length,
  All,
}
use pay_twin_os.Reliability.Events.{LabEvent, FixturePolicy, correct}
use pay_twin_os.Reliability.Engine.{new_world, deliver}
use pay_twin_os.Reliability.Invariants.{
  InvariantId, inv_001, inv_002, inv_003, inv_004, inv_005, inv_006, inv_007, inv_008, evaluate,
  violated_by, out_of_order_converges,
}
use pay_twin_os.Reliability.Upheld.{deliver-tenant_isolation, deliver-one_effect_per_event}
use pay_twin_os.Reliability.Captured.{deliver-no_fulfilment_without_captured}
use pay_twin_os.Reliability.Fulfilled.{deliver-one_fulfilment_per_order}
use pay_twin_os.Reliability.Amounts.{
  SameCapture, deliver-refund_le_captured, deliver-agent_mandate_single_use,
}
use pay_twin_os.Reliability.Signatures.{SignedAs, deliver-invalid_signature_zero_effect}

pub record Scenario : Type 0 where
  pub id : String
  pub events : List LabEvent
  pub single_use_mandate : Bool
  pub expect_violations : List InvariantId

pub record ScenarioResult : Type 0 where
  pub scenario_id : String
  pub fixture : String
  pub passed : Bool
  pub expected : List InvariantId
  pub violations : List InvariantId
  pub events : ℕ
  pub processed : ℕ
  pub effects : ℕ

abbrev pub number : InvariantId → ℕ
number inv_001 = 1
number inv_002 = 2
number inv_003 = 3
number inv_004 = 4
number inv_005 = 5
number inv_006 = 6
number inv_007 = 7
number inv_008 = 8

abbrev pub holds_id : InvariantId → List InvariantId → Bool
holds_id i [] = false
holds_id i (j ∷ js) = number i == number j || holds_id i js

abbrev pub within : List InvariantId → List InvariantId → Bool
within [] js = true
within (i ∷ is) js = holds_id i js && within is js

-- `set(actual) == expected`
abbrev pub same_set : List InvariantId → List InvariantId → Bool
same_set is js = within is js && within js is

unfoldable pub run_scenario : Scenario → FixturePolicy → ScenarioResult
run_scenario s p =
    let w = deliver (new_world "t1" s.single_use_mandate) p s.events in
    let actual = evaluate w in
    record {
      scenario_id = s.id;
      fixture = p.name;
      passed = same_set actual s.expect_violations;
      expected = s.expect_violations;
      violations = actual;
      events = length s.events;
      processed = length w.processed;
      effects = length w.effects;
    }

-- A scenario run with the correct policy reports no violation but PTWIN-INV-006, and that one
-- exactly when an order is left paid and not fulfilled, provided that every capture of a payment
-- names the same amount and the deliveries of one event id are all genuine or all forged.
pub run_scenario-correct :
    (amount_of : String → ℕ) (genuine : String → Bool) (s : Scenario)
    → All (SameCapture amount_of) s.events
    → All (SignedAs genuine) s.events
    → (run_scenario s correct).violations ≡ (
        if out_of_order_converges (deliver (new_world "t1" s.single_use_mandate) correct s.events)
        then inv_006 ∷ []
        else [])
unfolding run_scenario evaluate violated_by
run_scenario-correct amount_of genuine s c g =
    let one = s.single_use_mandate in
    rw
      (
        deliver-no_fulfilment_without_captured "t1" one s.events,
        deliver-one_effect_per_event "t1" one s.events,
        deliver-invalid_signature_zero_effect genuine "t1" one s.events g,
        deliver-refund_le_captured amount_of "t1" one s.events c,
        deliver-tenant_isolation "t1" one s.events,
        deliver-agent_mandate_single_use "t1" one s.events,
        deliver-one_fulfilment_per_order "t1" one s.events,
      )
      refl
