-- ===== src/Reliability/Events.antt =====
-- The events, the handler policies and the world of the Reliability Lab
-- (services/api/paytwin_api/reliability/engine.py, fixtures.py and packs.py). The dictionaries of
-- the world are association lists in the order of insertion.
use pay_twin_os.Prelude.{
  ℕ, String, Bool, true, false, Option, none, some, List, [], ◌∷◌, str_eq, if◌then◌else◌,
}

-- The event types that the handler tells apart; `other` is any other text.
pub data LabType : Type 0 where
  payment_authorized payment_captured payment_failed order_paid refund_processed : LabType
  agent_purchase other : LabType

pub record LabEvent : Type 0 where
  pub event_id : String
  pub type : LabType
  pub payment_id : String
  pub order_id : String
  pub tenant : String
  pub amount : ℕ
  pub signature_ok : Bool

pub record FixturePolicy : Type 0 where
  pub name : String
  pub verify_signature : Bool
  pub dedupe_by_event_id : Bool
  pub require_captured_for_fulfilment : Bool
  pub idempotent_refunds : Bool
  pub enforce_tenant_scope : Bool
  pub enforce_mandate_limits : Bool
  pub single_fulfilment_per_order : Bool

abbrev pub correct : FixturePolicy
correct = record {
  name = "correct";
  verify_signature = true;
  dedupe_by_event_id = true;
  require_captured_for_fulfilment = true;
  idempotent_refunds = true;
  enforce_tenant_scope = true;
  enforce_mandate_limits = true;
  single_fulfilment_per_order = true;
}

abbrev pub no_signature_verification : FixturePolicy
no_signature_verification = record correct { name = "no_verify"; verify_signature = false }

abbrev pub no_dedupe : FixturePolicy
no_dedupe = record correct {
  name = "no_dedupe";
  dedupe_by_event_id = false;
  single_fulfilment_per_order = false;
}

abbrev pub fulfil_on_authorized : FixturePolicy
fulfil_on_authorized = record correct {
  name = "fulfil_on_authorized";
  require_captured_for_fulfilment = false;
}

abbrev pub refund_over_capture : FixturePolicy
refund_over_capture = record correct { name = "refund_over_capture"; idempotent_refunds = false }

abbrev pub cross_tenant_blind : FixturePolicy
cross_tenant_blind = record correct { name = "cross_tenant_blind"; enforce_tenant_scope = false }

abbrev pub mandate_limits_off : FixturePolicy
mandate_limits_off = record correct { name = "mandate_limits_off"; enforce_mandate_limits = false }

abbrev pub forged_callback : FixturePolicy
forged_callback = record correct {
  name = "forged_callback";
  verify_signature = false;
  require_captured_for_fulfilment = false;
}

abbrev pub duplicate_fulfilment : FixturePolicy
duplicate_fulfilment = record correct {
  name = "duplicate_fulfilment";
  single_fulfilment_per_order = false;
}

pub data LabStatus : Type 0 where
  created authorized captured failed : LabStatus

abbrev pub is_captured : LabStatus → Bool
is_captured LabStatus.captured = true
is_captured _ = false

pub record LabPayment : Type 0 where
  pub status : LabStatus
  pub captured_amount : ℕ
  pub refunded_total : ℕ
  pub tenant : String

pub record LabOrder : Type 0 where
  pub fulfilled_count : ℕ
  pub paid_expected : Bool

pub data EffectKind : Type 0 where
  fulfilment refund purchase : EffectKind

abbrev pub is_fulfilment : EffectKind → Bool
is_fulfilment EffectKind.fulfilment = true
is_fulfilment _ = false

abbrev pub is_purchase : EffectKind → Bool
is_purchase EffectKind.purchase = true
is_purchase _ = false

pub record Effect : Type 0 where
  pub kind : EffectKind
  pub payment_id : String
  pub order_id : String
  pub tenant : String
  pub amount : ℕ
  pub src_event_id : String

pub data Note : Type 0 where
  no_note bad_signature duplicate_delivery foreign_tenant refund_exceeds mandate_replay : Note

pub record Processed : Type 0 where
  pub event_id : String
  pub signature_ok : Bool
  pub accepted : Bool
  pub note : Note

abbrev pub Dict : Type 0 → Type 0
Dict V = List (String × V)

pub record World : Type 0 where
  pub payments : Dict LabPayment
  pub orders : Dict LabOrder
  pub effects : List Effect
  pub processed : List Processed
  pub seen : List String
  pub home_tenant : String
  pub mandate_single_use : Bool
  pub mandate_used : Bool

module _ {V : Type 0} where
  -- `d.get(key)`
  abbrev pub lookup : String → Dict V → Option V
  lookup key [] = none
  lookup key ((j, v) ∷ d) = if str_eq j key then some v else lookup key d

  -- `d[key] = value`
  abbrev pub insert : String → V → Dict V → Dict V
  insert key v [] = (key, v) ∷ []
  insert key v ((j, w) ∷ d) = if str_eq j key then (j, v) ∷ d else (j, w) ∷ insert key v d

-- `value in list`
abbrev pub member : String → List String → Bool
member x [] = false
member x (y ∷ ys) = if str_eq y x then true else member x ys
