-- ===== src/Connectors/Generic.antt =====
-- `normalize` of the simulator's and the mock provider's adapter
-- (services/api/paytwin_api/connectors/simulator.py, mockprovider.py). An amount in rupees is of any
-- type, and its conversion to paise (packages/contracts/paytwin_contracts/money.py) a parameter.
use pay_twin_os.Prelude.{
  ℕ, String, Option, none, some, str_eq, if◌then◌else◌, given, Result, ◌>>=◌, or_raise,
}
use pay_twin_os.Payments.Rows.{
  EventType, payment_created, payment_failed, payment_success, refund_created, Payload,
  CanonicalEvent,
}
use pay_twin_os.Ingest.Envelope.{known_type, no_payload}
use pay_twin_os.Connectors.Dialect.{
  Rejection, webhook_rejected, Entry, present, with_default, Library, Owner, pseudonymize_ref,
  epoch_to_dt, ext_event_id, cohort_of, canonical_event,
}

pub record SimulatorData : Type 0 where
  pub payment_id : Option String
  pub amount : Entry ℕ
  pub issuer : Option String
  pub method : Option String
  pub psp : Option String
  pub gateway : Option String
  pub error_reason : Option String
  pub latency_ms : Option ℕ
  pub customer_ref : Option String
  pub order_id : Option String
  pub attempt_no : Entry ℕ
  pub group_id : Option String

pub record SimulatorBody : Type 0 where
  pub event : Option String
  pub id : Option String
  pub created_at : Option ℕ
  pub data_of : Option SimulatorData

-- `_STATUS_MAP[e] if e in _STATUS_MAP else e`
abbrev pub status_map : String → String
status_map e =
    if str_eq e "created"
    then "payment.created"
    else if str_eq e "authorized"
    then "payment.authorized"
    else if str_eq e "success"
    then "payment.success"
    else if str_eq e "failed"
    then "payment.failed"
    else if str_eq e "timeout"
    then "payment.timeout"
    else e

-- The entries of the canonical payload, in the words of the simulator.
abbrev pub simulator_payload : Library → SimulatorData → String → Payload
simulator_payload l data_of payment_ref = record no_payload {
  failure_class = data_of.error_reason;
  latency_ms = data_of.latency_ms;
  customer_ref = pseudonymize_ref l data_of.customer_ref;
  order_ref = data_of.order_id;
  attempt_no = with_default 1 data_of.attempt_no;
  group_id = elim (given data_of.group_id) [ none ↦ some payment_ref | some g ↦ some g ];
}

unfoldable pub normalize_simulator :
    Library → Owner → SimulatorBody → Result Rejection CanonicalEvent
normalize_simulator l owner b = do
  event ← or_raise b.event webhook_rejected
  data_of ← or_raise b.data_of webhook_rejected
  ext ← ext_event_id b.id
  at ← epoch_to_dt l b.created_at
  ref ← or_raise data_of.payment_id webhook_rejected
  amount ← or_raise (present data_of.amount) webhook_rejected
  type ← or_raise (known_type (status_map event)) webhook_rejected
  canonical_event type owner "simulator" ext at ref amount
      (cohort_of data_of.issuer data_of.method data_of.psp data_of.gateway)
      (simulator_payload l data_of ref)

pub record Charge (R : Type 0) : Type 0 where
  pub id : Option String
  pub amount_rupees : Entry R
  pub bank : Option String
  pub rail : Option String
  pub aggregator : Option String
  pub gateway : Option String
  pub decline_code : Option String
  pub rtt_ms : Option ℕ
  pub buyer_ref : Option String
  pub order_id : Option String
  pub attempt : Entry ℕ
  pub session : Option String

pub record MockBody (R : Type 0) : Type 0 where
  pub type : Option String
  pub event_id : Option String
  pub ts : Option ℕ
  pub charge : Option (Charge R)

abbrev pub type_map : String → Option EventType
type_map t =
    if str_eq t "charge.created"
    then some payment_created
    else if str_eq t "charge.captured"
    then some payment_success
    else if str_eq t "charge.failed"
    then some payment_failed
    else if str_eq t "charge.refunded"
    then some refund_created
    else none

-- The entries of the canonical payload, in the words of the mock provider.
abbrev pub mock_payload : {R : Type 0} → Library → Charge R → String → Payload
mock_payload l ch payment_ref = record no_payload {
  failure_class = ch.decline_code;
  latency_ms = ch.rtt_ms;
  customer_ref = pseudonymize_ref l ch.buyer_ref;
  order_ref = ch.order_id;
  attempt_no = with_default 1 ch.attempt;
  group_id = elim (given ch.session) [ none ↦ some payment_ref | some g ↦ some g ];
}

unfoldable pub normalize_mock :
    {R : Type 0} → (R → ℕ) → Library → Owner → MockBody R → Result Rejection CanonicalEvent
normalize_mock paise l owner b = do
  raw ← or_raise b.type webhook_rejected
  type ← or_raise (type_map raw) webhook_rejected
  ch ← or_raise b.charge webhook_rejected
  ext ← ext_event_id b.event_id
  at ← epoch_to_dt l b.ts
  ref ← or_raise ch.id webhook_rejected
  rupees ← or_raise (present ch.amount_rupees) webhook_rejected
  canonical_event type owner "mockprovider" ext at ref (paise rupees)
      (cohort_of ch.bank ch.rail ch.aggregator ch.gateway) (mock_payload l ch ref)
