-- ===== src/Ingest/Rows.antt =====
-- The tables of ingestion (services/api/paytwin_api/models/pipeline.py), the interface of a provider
-- adapter (connectors/base.py), the registry of adapters (connectors/registry.py) and the results of
-- ingestion (services/ingest.py).
use pay_twin_os.Prelude.{
  ℕ, String, Bool, true, false, Option, none, some, List, ◌&&◌, ◌==◌, str_eq, if◌then◌else◌,
}
use pay_twin_os.Table.{put_row}
use pay_twin_os.Tenancy.{Merchant, Integration}
use pay_twin_os.Payments.Rows.{EventType, PaymentStatus, Cohort, Payload, CanonicalEvent, Db}
use pay_twin_os.Bus.Delivery.{Session, commit, rollback}
use pay_twin_os.Ingest.Envelope.{Envelope, Clock}
use pay_twin_os.Ingest.Redact.{Json, Texts}

pub data InboxStatus : Type 0 where
  received processed duplicate dead : InboxStatus

abbrev pub is_received : InboxStatus → Bool
is_received InboxStatus.received = true
is_received _ = false

abbrev pub is_processed : InboxStatus → Bool
is_processed InboxStatus.processed = true
is_processed _ = false

-- `status in {"processed", "duplicate"}`
abbrev pub is_done : InboxStatus → Bool
is_done InboxStatus.processed = true
is_done InboxStatus.duplicate = true
is_done _ = false

pub record EventInbox : Type 0 where
  pub id : ℕ
  pub organization_id : String
  pub merchant_id : String
  pub provider : String
  pub external_event_id : String
  pub signature_ok : Bool
  pub status : InboxStatus
  pub payload : Json
  pub canonical_payload : Envelope
  pub processed_at : Option ℕ

pub record CanonicalEventRow : Type 0 where
  pub id : ℕ
  pub organization_id : String
  pub merchant_id : String
  pub type : EventType
  pub provider : String
  pub external_event_id : String
  pub occurred_at : ℕ
  pub payment_ref : String
  pub amount_paise : ℕ
  pub currency : String
  pub cohort : Cohort
  pub payload : Payload
  pub late : Bool

pub data Reason : Type 0 where
  unknown_provider bad_signature malformed : Reason

pub record DeadLetter : Type 0 where
  pub organization_id : String
  pub reason : Reason
  pub payload : Json

-- The payload of the outbox topic "payment.updated".
pub record PaymentUpdate : Type 0 where
  pub event : EventType
  pub payment_ref : String
  pub merchant_id : String
  pub status : PaymentStatus
  pub amount_paise : ℕ
  pub late : Bool
  pub cohort : Cohort

pub record Store : Type 0 where
  pub merchants : List Merchant
  pub integrations : List Integration
  pub inbox : List EventInbox
  pub events : List CanonicalEventRow
  pub dead_letters : List DeadLetter
  pub core : Db
  pub session : Session PaymentUpdate
  pub next_id : ℕ

pub record Connector : Type 0 where
  pub verify_webhook : String → String → String → Bool
  pub normalize : Json → String → String → String → Option CanonicalEvent

pub record Registry : Type 0 where
  pub simulator : Connector
  pub mockprovider : Connector
  pub razorpay : Connector

abbrev pub get_connector : Registry → String → Option Connector
get_connector r provider =
    if str_eq provider "simulator"
    then some r.simulator
    else if str_eq provider "mockprovider"
    then some r.mockprovider
    else if str_eq provider "razorpay"
    then some r.razorpay
    else none

pub record Settings : Type 0 where
  pub webhook_secret_simulator : String
  pub webhook_secret_mockprovider : String
  pub webhook_secret_razorpay : String
  pub environ : String → String

-- What a deployment gives: its adapters and settings, and the library's texts and clock. `minute`
-- is sixty seconds in the unit of the instants.
pub record Deployment : Type 0 where
  pub registry : Registry
  pub settings : Settings
  pub texts : Texts
  pub clock : Clock
  pub minute : ℕ

pub data IngestBody : Type 0 where
  unknown_merchant unknown_provider bad_signature malformed_payload : IngestBody
  inbox_not_found invalid_inbox : IngestBody
  duplicate : ℕ → IngestBody
  accepted : ℕ → EventType → IngestBody
  applied : ℕ → EventType → PaymentStatus → Bool → IngestBody

pub record IngestResult : Type 0 where
  pub status : ℕ
  pub body : IngestBody

abbrev pub result : ℕ → IngestBody → IngestResult
result status body = record { status = status; body = body }

abbrev pub inbox_key : String → String → String → EventInbox → Bool
inbox_key provider org external row =
    str_eq row.provider provider
    && str_eq row.organization_id org
    && str_eq row.external_event_id external

abbrev pub event_key : String → String → String → CanonicalEventRow → Bool
event_key provider org external row =
    str_eq row.organization_id org
    && str_eq row.provider provider
    && str_eq row.external_event_id external

abbrev pub has_inbox_id : ℕ → EventInbox → Bool
has_inbox_id id row = row.id == id

abbrev pub put_inbox : EventInbox → Store → Store
put_inbox row s = record s { inbox = put_row (λ (r : EventInbox). r.id) row s.inbox }

abbrev pub set_status : InboxStatus → EventInbox → EventInbox
set_status status row = record row { status = status }

-- `if commit: db.commit()`
unfoldable pub finish : Bool → Store → Store
finish now s = if now then record s { session = commit s.session } else s

-- What the rollback of a transaction without changes to the tables does.
unfoldable pub undo : Store → Store
undo s = record s { session = rollback s.session }
