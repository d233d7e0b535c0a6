-- ===== src/Connectors/Agnostic.antt =====
-- One occurrence in the dialects of the simulator and of the mock provider
-- (services/api/paytwin_api/connectors/simulator.py, mockprovider.py).
use pay_twin_os.Prelude.{
  str_eq, if◌then◌else◌, ℕ, ◌≡◌, String, Option, none, some, arith, Result, ok, err,
}
use pay_twin_os.Payments.Rows.{EventType, Cohort, Payload, CanonicalEvent}
use pay_twin_os.Connectors.Dialect.{
  Rejection, Entry, missing, null, value, Library, Owner, canonical_event,
}
use pay_twin_os.Connectors.Generic.{
  SimulatorData, SimulatorBody, normalize_simulator, Charge, MockBody, normalize_mock,
}

-- The mock provider's word for an occurrence, in the simulator's words; an occurrence that the mock
-- provider has no word for has no counterpart.
abbrev pub simulator_word : String → Option String
simulator_word t =
    if str_eq t "charge.created"
    then some "created"
    else if str_eq t "charge.captured"
    then some "success"
    else if str_eq t "charge.failed"
    then some "failed"
    else if str_eq t "charge.refunded"
    then some "refund.created"
    else none

abbrev entry_map : {A B : Type 0} → (A → B) → Entry A → Entry B
entry_map f missing = missing
entry_map f null = null
entry_map f (value x) = value (f x)

abbrev option_map : {A B : Type 0} → (A → B) → Option A → Option B
option_map f none = none
option_map f (some x) = some (f x)

abbrev option_bind : {A B : Type 0} → Option A → (A → Option B) → Option B
option_bind none f = none
option_bind (some x) f = f x

module _ {R : Type 0} (paise : R → ℕ) where
  abbrev pub data_in : Charge R → SimulatorData
  data_in ch = record {
    payment_id = ch.id;
    amount = entry_map paise ch.amount_rupees;
    issuer = ch.bank;
    method = ch.rail;
    psp = ch.aggregator;
    gateway = ch.gateway;
    error_reason = ch.decline_code;
    latency_ms = ch.rtt_ms;
    customer_ref = ch.buyer_ref;
    order_id = ch.order_id;
    attempt_no = ch.attempt;
    group_id = ch.session;
  }

  -- The simulator's body for what a body of the mock provider says.
  abbrev pub simulated : MockBody R → SimulatorBody
  simulated b = record {
    event = option_bind b.type simulator_word;
    id = b.event_id;
    created_at = b.ts;
    data_of = option_map data_in b.charge;
  }

abbrev pub relabelled : String → Result Rejection CanonicalEvent → Result Rejection CanonicalEvent
relabelled provider (err raised) = err raised
relabelled provider (ok e) = ok (record e { provider = provider })

relabelled-canonical_event :
    (type : EventType) (owner : Owner) (from to ext : String) (at : ℕ) (ref : String) (amount : ℕ)
    (cohort : Cohort) (payload : Payload)
    → relabelled to (canonical_event type owner from ext at ref amount cohort payload)
      ≡ canonical_event type owner to ext at ref amount cohort payload
unfolding canonical_event
relabelled-canonical_event type owner from to ext at ref amount cohort payload = ground arith

module _ {R : Type 0} (paise : R → ℕ) (l : Library) (owner : Owner) (b : MockBody R) where
  -- The two adapters, each by its own tables and entries, agree: a payload of the mock provider and the
  -- same occurrence in the simulator's words are both rejected, or give one canonical event but for
  -- the name of the provider.
  pub normalize_simulator-simulated :
      normalize_simulator l owner (simulated paise b)
      ≡ relabelled "simulator" (normalize_mock paise l owner b)
  unfolding normalize_simulator normalize_mock
  normalize_simulator-simulated = grind (arith, relabelled-canonical_event)
