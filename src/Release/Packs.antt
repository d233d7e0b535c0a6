-- ===== src/Release/Packs.antt =====
-- The suites of services/api/paytwin_api/reliability/packs.py and the presets of fixtures.py.
use pay_twin_os.Prelude.{ℕ, String, true, false, Option, List, [], ◌∷◌, str_eq}
use pay_twin_os.Table.{find_row}
use pay_twin_os.Reliability.Events.{
  LabType, payment_authorized, payment_captured, payment_failed, order_paid, refund_processed,
  agent_purchase, LabEvent, FixturePolicy,
}
use pay_twin_os.Reliability.Events
use pay_twin_os.Reliability.Invariants.{
  InvariantId, inv_001, inv_002, inv_003, inv_004, inv_005, inv_007, inv_008,
}
use pay_twin_os.Reliability.Scenario.{Scenario}

-- The keys of `PRESETS`.
pub data Preset : Type 0 where
  correct no_verify no_dedupe fulfil_on_authorized refund_over_capture : Preset
  cross_tenant_blind mandate_limits_off forged_callback duplicate_fulfilment : Preset

abbrev pub presets : Preset → FixturePolicy
presets Preset.correct = Events.correct
presets Preset.no_verify = Events.no_signature_verification
presets Preset.no_dedupe = Events.no_dedupe
presets Preset.fulfil_on_authorized = Events.fulfil_on_authorized
presets Preset.refund_over_capture = Events.refund_over_capture
presets Preset.cross_tenant_blind = Events.cross_tenant_blind
presets Preset.mandate_limits_off = Events.mandate_limits_off
presets Preset.forged_callback = Events.forged_callback
presets Preset.duplicate_fulfilment = Events.duplicate_fulfilment

pub record Mutation : Type 0 where
  pub name : String
  pub preset : Preset
  pub expect : List InvariantId

-- A scenario with what the pack adds to it.
pub record PackScenario : Type 0 where
  pub scenario : Scenario
  pub req_ids : List String
  pub mutations : List Mutation

pub record Suite : Type 0 where
  pub suite_id : String
  pub req_ids : List String
  pub scenarios : List PackScenario

-- `_pay`
abbrev pub pay : String → ℕ → LabEvent
pay eid amt = record {
  event_id = eid;
  type = payment_captured;
  payment_id = "pay_1";
  order_id = "order_1";
  tenant = "t1";
  amount = amt;
  signature_ok = true;
}

abbrev pub base : String → List LabEvent → Scenario
base id events = record {
  id = id;
  events = events;
  single_use_mandate = false;
  expect_violations = [];
}

abbrev pub generic_webhooks : Suite
generic_webhooks = record {
  suite_id = "generic/webhooks";
  req_ids = "PTWIN-INV-002" ∷ "PTWIN-INV-003" ∷ [];
  scenarios =
      record {
        scenario = base "GEN-WH-DUP" (pay "e1" 50000 ∷ pay "e1" 50000 ∷ []);
        req_ids = [];
        mutations =
            record {
              name = "no_dedupe";
              preset = Preset.no_dedupe;
              expect = inv_002 ∷ inv_008 ∷ [];
            }
            ∷ [];
      }
      ∷ record {
        scenario =
            base "GEN-WH-BADSIG"
              (record (pay "e2" 50000) { type = order_paid; signature_ok = false } ∷ []);
        req_ids = [];
        mutations =
            record {
              name = "forged_callback";
              preset = Preset.forged_callback;
              expect = inv_003 ∷ inv_001 ∷ [];
            }
            ∷ [];
      }
      ∷ [];
}

abbrev pub razorpay_core : Suite
razorpay_core = record {
  suite_id = "razorpay/core";
  req_ids =
      "RZPREQ-WEBHOOK-001" ∷ "RZPREQ-WEBHOOK-003" ∷ "RZPREQ-WEBHOOK-006" ∷ "RZPREQ-PAYMENTS-001"
      ∷ "RZPREQ-REFUNDS-001" ∷ "RZPREQ-LATEAUTH-001" ∷ [];
  scenarios =
      record {
        scenario = base "RZP-WH-DUP-DELIVERY" (pay "rz1" 64000 ∷ pay "rz1" 64000 ∷ []);
        req_ids = "RZPREQ-WEBHOOK-001" ∷ "RZPREQ-WEBHOOK-002" ∷ [];
        mutations =
            record {
              name = "no_dedupe";
              preset = Preset.no_dedupe;
              expect = inv_002 ∷ inv_008 ∷ [];
            }
            ∷ [];
      }
      ∷ record {
        scenario = base "RZP-WH-FORGED" (record (pay "rz2" 64000) { signature_ok = false } ∷ []);
        req_ids = "RZPREQ-WEBHOOK-006" ∷ [];
        mutations =
            record { name = "no_verify"; preset = Preset.no_verify; expect = inv_003 ∷ [] } ∷ [];
      }
      ∷ record {
        scenario = base "RZP-LATE-AUTH" (
            record (pay "rz3" 84000) { type = payment_failed }
            ∷ record (pay "rz4" 84000) { type = payment_authorized }
            ∷ pay "rz4" 84000
            ∷ []);
        req_ids = "RZPREQ-LATEAUTH-001" ∷ "RZPREQ-PAYMENTS-001" ∷ [];
        mutations =
            record {
              name = "fulfil_on_authorized";
              preset = Preset.fulfil_on_authorized;
              expect = inv_001 ∷ [];
            }
            ∷ [];
      }
      ∷ record {
        scenario =
            base "RZP-REFUND-CAP"
              (pay "rz5" 50000 ∷ record (pay "rz6" 120000) { type = refund_processed } ∷ []);
        req_ids = "RZPREQ-REFUNDS-001" ∷ "RZPREQ-REFUNDS-003" ∷ [];
        mutations =
            record {
              name = "refund_over_capture";
              preset = Preset.refund_over_capture;
              expect = inv_004 ∷ [];
            }
            ∷ [];
      }
      ∷ record {
        scenario = base "RZP-WH-REORDER" (
            pay "rz8" 40000
            ∷ record (pay "rz7" 40000) { type = payment_authorized }
            ∷ record (pay "rz9" 40000) { type = order_paid }
            ∷ []);
        req_ids = "RZPREQ-WEBHOOK-003" ∷ [];
        mutations = [];
      }
      ∷ record {
        scenario = base "RZP-ONE-FULFILMENT" (
            record (pay "rz10" 40000) { payment_id = "pay_attempt_1"; order_id = "order_once" }
            ∷ record (pay "rz11" 40000) { payment_id = "pay_attempt_2"; order_id = "order_once" }
            ∷ []);
        req_ids = "RZPREQ-PAYMENTS-001" ∷ [];
        mutations =
            record {
              name = "duplicate_fulfilment";
              preset = Preset.duplicate_fulfilment;
              expect = inv_008 ∷ [];
            }
            ∷ [];
      }
      ∷ [];
}

abbrev pub tenant_isolation : Suite
tenant_isolation = record {
  suite_id = "paytwin/isolation";
  req_ids = "PTWIN-INV-005" ∷ [];
  scenarios =
      record {
        scenario = base "ISO-TENANT-B" (record (pay "t9" 10000) { tenant = "tB" } ∷ []);
        req_ids = [];
        mutations =
            record {
              name = "cross_tenant_blind";
              preset = Preset.cross_tenant_blind;
              expect = inv_005 ∷ [];
            }
            ∷ [];
      }
      ∷ [];
}

abbrev pub agentic : Suite
agentic = record {
  suite_id = "paytwin/agentic";
  req_ids = "PTWIN-INV-007" ∷ [];
  scenarios =
      record {
        scenario =
            record (base "AGT-REPLAY" (
              record (pay "a1" 25000) { type = agent_purchase }
              ∷ record (pay "a2" 25000) { type = agent_purchase }
              ∷ [])) { single_use_mandate = true };
        req_ids = [];
        mutations =
            record {
              name = "mandate_limits_off";
              preset = Preset.mandate_limits_off;
              expect = inv_007 ∷ [];
            }
            ∷ [];
      }
      ∷ [];
}

abbrev pub all_suites : List Suite
all_suites = generic_webhooks ∷ razorpay_core ∷ tenant_isolation ∷ agentic ∷ []

abbrev pub find_suite : String → Option Suite
find_suite suite_id = find_row (λ (s : Suite). str_eq s.suite_id suite_id) all_suites
