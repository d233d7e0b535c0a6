-- ===== src/Reliability/Tests.antt =====
-- The lab on concrete deliveries: the theorems at work, and broken handlers that the evaluators
-- report.
use pay_twin_os.Prelude.{
  ℕ, ◌≡◌, refl, String, Bool, true, false, List, [], ◌∷◌, str_eq, All, if◌then◌else◌,
}
use pay_twin_os.Reliability.Events.{
  payment_authorized, payment_captured, order_paid, refund_processed, agent_purchase, LabEvent,
  correct, cross_tenant_blind, duplicate_fulfilment,
}
use pay_twin_os.Reliability.Engine.{handle, accept, apply_type, fulfil, deliver, new_world}
use pay_twin_os.Reliability.Invariants.{
  inv_005, inv_006, inv_008, evaluate, violated_by, tenant_isolation, one_effect_per_event,
  no_fulfilment_without_captured, one_fulfilment_per_order, agent_mandate_single_use,
  refund_le_captured, invalid_signature_zero_effect, out_of_order_converges,
}
use pay_twin_os.Reliability.Captured.{deliver-no_fulfilment_without_captured}
use pay_twin_os.Reliability.Amounts.{SameCapture}
use pay_twin_os.Reliability.Signatures.{SignedAs, deliver-invalid_signature_zero_effect}
use pay_twin_os.Reliability.Limits.{delivery}
use pay_twin_os.Reliability.Scenario.{Scenario, run_scenario, run_scenario-correct}

-- An order paid ahead of its capture, a duplicate, a forged and a foreign delivery, a late
-- authorization, a second attempt on the order, refunds within and beyond the capture and a
-- mandate used twice.
abbrev deliveries : List LabEvent
deliveries =
    delivery "evt_1" order_paid "t1" 500 true
    ∷ delivery "evt_2" payment_captured "t1" 500 true
    ∷ delivery "evt_2" payment_captured "t1" 500 true
    ∷ delivery "forged" payment_captured "t1" 500 false
    ∷ delivery "evt_3" refund_processed "t2" 100 true
    ∷ delivery "evt_4" payment_authorized "t1" 500 true
    ∷ delivery "evt_5" payment_captured "t1" 500 true
    ∷ delivery "evt_6" refund_processed "t1" 400 true
    ∷ delivery "evt_7" refund_processed "t1" 200 true
    ∷ delivery "evt_8" agent_purchase "t1" 900 true
    ∷ delivery "evt_9" agent_purchase "t1" 900 true
    ∷ []

abbrev amount_of : String → ℕ
amount_of id = 500

abbrev genuine : String → Bool
genuine id = if str_eq id "forged" then false else true

same_captures : All (SameCapture amount_of) deliveries
same_captures = (
  (λ e. absurd (cc)),
  (
    (λ e. refl),
    (
      (λ e. refl),
      (
        (λ e. refl),
        (
          (λ e. absurd (cc)),
          (
            (λ e. absurd (cc)),
            (
              (λ e. refl),
              (
                (λ e. absurd (cc)),
                ((λ e. absurd (cc)), ((λ e. absurd (cc)), ((λ e. absurd (cc)), tt))),
              ),
            ),
          ),
        ),
      ),
    ),
  ),
)

signed : All (SignedAs genuine) deliveries
signed = (refl, (refl, (refl, (refl, (refl, (refl, (refl, (refl, (refl, (refl, (refl, tt)))))))))))

abbrev scenario : Scenario
scenario = record {
  id = "MIXED";
  events = deliveries;
  single_use_mandate = true;
  expect_violations = [];
}

deliver-no_fulfilment_without_captured_example :
    no_fulfilment_without_captured (deliver (new_world "t1" true) correct deliveries) ≡ false
deliver-no_fulfilment_without_captured_example =
    deliver-no_fulfilment_without_captured "t1" true deliveries

deliver-invalid_signature_zero_effect_example :
    invalid_signature_zero_effect (deliver (new_world "t1" true) correct deliveries) ≡ false
deliver-invalid_signature_zero_effect_example =
    deliver-invalid_signature_zero_effect genuine "t1" true deliveries signed

run_scenario-correct_example : (run_scenario scenario correct).violations ≡ (
    if out_of_order_converges (deliver (new_world "t1" true) correct deliveries)
    then inv_006 ∷ []
    else [])
run_scenario-correct_example = run_scenario-correct amount_of genuine scenario same_captures signed

correct_run : evaluate (deliver (new_world "t1" true) correct deliveries) ≡ []
unfolding evaluate violated_by deliver handle accept apply_type fulfil new_world tenant_isolation
    one_effect_per_event no_fulfilment_without_captured one_fulfilment_per_order
    agent_mandate_single_use refund_le_captured invalid_signature_zero_effect out_of_order_converges
correct_run = refl

blind_run : evaluate (deliver (new_world "t1" true) cross_tenant_blind deliveries) ≡ inv_005 ∷ []
unfolding evaluate violated_by deliver handle accept apply_type fulfil new_world tenant_isolation
    one_effect_per_event no_fulfilment_without_captured one_fulfilment_per_order
    agent_mandate_single_use refund_le_captured invalid_signature_zero_effect out_of_order_converges
blind_run = refl

double_run : evaluate (deliver (new_world "t1" true) duplicate_fulfilment deliveries) ≡ inv_008 ∷ []
unfolding evaluate violated_by deliver handle accept apply_type fulfil new_world tenant_isolation
    one_effect_per_event no_fulfilment_without_captured one_fulfilment_per_order
    agent_mandate_single_use refund_le_captured invalid_signature_zero_effect out_of_order_converges
double_run = refl
