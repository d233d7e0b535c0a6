-- ===== src/Ingest/Tests.antt =====
-- A deployment with one merchant, one delivery through the webhook and the worker, and a duplicate.
use Prim.Native.String.{slice}
use pay_twin_os.Prelude.{
  ℕ, ◌<◌, ◌≡◌, refl, true, none, some, [], ◌∷◌, ◌++◌, str_eq, if◌then◌else◌, All,
}
use pay_twin_os.Table.{find_row}
use pay_twin_os.Tenancy.{Merchant, Integration, integrates}
use pay_twin_os.Payments.Rows.{payment_success, CanonicalEvent, empty_db}
use pay_twin_os.Payments.Apply.{apply_events}
use pay_twin_os.Payments.Money.{IsSound}
use pay_twin_os.Bus.Delivery.{new_session}
use pay_twin_os.Ingest.Envelope.{Clock, no_payload, canonical_envelope, from_envelope}
use pay_twin_os.Ingest.Redact.{
  text, object, done, field, Texts, is_pii, redacted, redact, inbox_payload, dlq_payload,
}
use pay_twin_os.Ingest.Clean.{Clean, Plain, payload-Clean}
use pay_twin_os.Ingest.Rows.{EventInbox, Store, Connector, Deployment, inbox_key}
use pay_twin_os.Ingest.Secrets.{provider_secret, configured, own_secrets, secrets_for}
use pay_twin_os.Ingest.Accept.{
  Delivery, authentic, read_event, accept_webhook, authenticate, receive, enqueue, insert_inbox,
  inbox_row,
}
use pay_twin_os.Ingest.Materialize.{ingest_webhook}
use pay_twin_os.Ingest.Once.{Quiet, Replayed}
use pay_twin_os.Ingest.Reached.{Reached, starts, ingests, Reached-Replayed}
use pay_twin_os.Ingest.Authentic.{Genuine, accept_webhook-Genuine}
use pay_twin_os.Ingest.Rotation.{Active, secrets_for-Active}
use pay_twin_os.Ingest.Sound.{Reached-IsSound}

abbrev captured : CanonicalEvent
captured = record {
  type = payment_success;
  organization_id = "org_1";
  merchant_id = "m_1";
  provider = "simulator";
  external_event_id = "evt_1";
  occurred_at = 100;
  payment_ref = "pay_1";
  amount_paise = 64000;
  currency = "INR";
  cohort = record { issuer = none; method = none; psp = none; gateway = none };
  payload = no_payload;
}

abbrev clock : Clock
clock = record { iso_format = λ at. "100"; from_iso_format = λ written. some 100 }

abbrev texts : Texts
texts = record {
  lower = λ s. s;
  first = λ n s. slice s 0 n;
  printed = λ j. "{}";
  shown = λ j. "{}";
  sha256 = λ s. s;
  hex = λ s. s;
  loads = λ body. some (object (field "email" (text body) done));
}

abbrev adapter : Connector
adapter = record {
  verify_webhook = λ body signature secret. str_eq signature secret;
  normalize = λ raw org merchant headers.
      some (record captured { organization_id = org; merchant_id = merchant });
}

abbrev deployment : Deployment
deployment = record {
  registry = record { simulator = adapter; mockprovider = adapter; razorpay = adapter };
  settings = record {
    webhook_secret_simulator = "shared";
    webhook_secret_mockprovider = "";
    webhook_secret_razorpay = "";
    environ = λ ref. if str_eq ref "OWN" then "own" else if str_eq ref "OLD" then "old" else "";
  };
  texts = texts;
  clock = clock;
  minute = 60;
}

abbrev shop : Merchant
shop = record {
  id = "m_1";
  organization_id = "org_1";
  autonomy_mode = 1;
  connector = none;
  policy_rules = none;
}

abbrev integration : Integration
integration = record {
  id = 1;
  organization_id = "org_1";
  merchant_id = "m_1";
  provider = "simulator";
  secret_ref = some "OWN";
  api_secret_ref = none;
  previous_secret_ref = some "OLD";
  previous_secret_expires_at = some 50;
  last_webhook_at = none;
  last_healthcheck_at = none;
}

abbrev empty_store : Store
empty_store = record {
  merchants = shop ∷ [];
  integrations = integration ∷ [];
  inbox = [];
  events = [];
  dead_letters = [];
  core = empty_db;
  session = new_session _;
  next_id = 1;
}

abbrev webhook : Delivery
webhook = record {
  provider = "simulator";
  merchant_id = "m_1";
  body = "a@example.org";
  signature = "own";
  headers = "";
}

abbrev alone : Store → Store
alone s = s

-- The shared secret and the expired one do not sign for the integration.
one_secret : secrets_for deployment.settings 100 empty_store "simulator" shop ≡ "own" ∷ []
unfolding secrets_for
one_secret = refl

after : Store
after = (accept_webhook deployment alone true 100 webhook empty_store).1

accepted_then_duplicate :
    (accept_webhook deployment alone true 100 webhook empty_store).0.status ≡ 202
unfolding accept_webhook authenticate receive enqueue insert_inbox secrets_for read_event inbox_row
accepted_then_duplicate = refl

-- An event survives its envelope.
captured_survives : from_envelope clock (canonical_envelope clock captured) ≡ some captured
unfolding from_envelope canonical_envelope
captured_survives = refl

email_is_redacted :
    redact texts 0 (object (field "email" (text "a") done)) ≡ object (field "email" redacted done)
unfolding redact is_pii
email_is_redacted = refl

plain : Plain texts
unfolding is_pii
plain = (refl, (refl, (refl, (refl, tt))))

payload-Clean_example :
    Clean texts (inbox_payload texts (object (field "email" (text "a") done)))
    × Clean texts (dlq_payload texts "a@example.org")
payload-Clean_example =
    payload-Clean texts (object (field "email" (text "a") done)) "a@example.org" plain

accept_webhook-Genuine_example : Genuine deployment alone true 100 webhook empty_store after
unfolding after
accept_webhook-Genuine_example =
    accept_webhook-Genuine deployment alone true 100 webhook empty_store accepted_then_duplicate

abbrev waiting_row : EventInbox
unfolding inbox_row
waiting_row =
    inbox_row deployment alone true 100 webhook shop
      (object (field "email" (text "a@example.org") done)) captured empty_store

abbrev with_row : Store
with_row = record empty_store { inbox = waiting_row ∷ [] }

signed_own : authentic deployment alone true 100 adapter shop webhook with_row ≡ true
unfolding secrets_for
signed_own = refl

read_captured :
    read_event deployment alone true 100 adapter shop webhook
    ≡ some (object (field "email" (text "a@example.org") done), captured)
unfolding read_event
read_captured = refl

found_row : find_row (inbox_key "simulator" "org_1" "evt_1") with_row.inbox ≡ some waiting_row
unfolding inbox_row
found_row = refl

secrets_for-Active_example :
    let found = find_row (integrates "m_1" "simulator") empty_store.integrations in
    All
      (Active
        (own_secrets deployment.settings 100 found)
        (provider_secret deployment.settings "simulator"))
      (secrets_for deployment.settings 100 empty_store "simulator" shop)
    × ((row : Integration) (expires_at : ℕ)
        → found ≡ some row
        → row.previous_secret_expires_at ≡ some expires_at
        → expires_at < 100
        → own_secrets deployment.settings 100 found ≡ configured deployment.settings row ++ [])
secrets_for-Active_example = secrets_for-Active deployment.settings 100 empty_store "simulator" shop

start-Replayed : Replayed empty_db empty_store
unfolding apply_events
start-Replayed = (
  [],
  record {
    replayed = refl;
    recorded = refl;
    contents = refl;
    published = refl;
    events_once = tt;
    inbox_once = tt;
    inbox_ids = (tt, tt);
  },
)

start-Quiet : Quiet empty_store
start-Quiet = record { durable = refl; pending = refl }

abbrev ingested : Store
ingested = (ingest_webhook deployment (λ _. empty_store) true 100 webhook empty_store).1

history : Reached empty_db deployment empty_store ingested
history = ingests webhook 100 empty_store empty_store ingested starts starts refl

Reached-Replayed_example : Replayed empty_db ingested
Reached-Replayed_example =
    Reached-Replayed empty_db deployment empty_store ingested start-Replayed start-Quiet history

Reached-IsSound_example : All IsSound ingested.core.payments
Reached-IsSound_example =
    Reached-IsSound empty_db deployment empty_store ingested tt start-Replayed start-Quiet history
