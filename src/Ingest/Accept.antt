-- ===== src/Ingest/Accept.antt =====
-- `accept_webhook` (services/api/paytwin_api/services/ingest.py). Where other sessions may commit
-- between the lookup of the inbox and the insertion, `others` is what they do.
use pay_twin_os.Prelude.{
  ℕ, ◌+◌, String, Bool, true, false, not, Option, none, some, List, [], ◌∷◌, ◌++◌, ◌||◌,
  if◌then◌else◌,
}
use pay_twin_os.Table.{find_row, update_where}
use pay_twin_os.Tenancy.{Merchant, Integration, has_merchant_id, integrates}
use pay_twin_os.Payments.Rows.{CanonicalEvent}
use pay_twin_os.Ingest.Envelope.{canonical_envelope}
use pay_twin_os.Ingest.Redact.{Json, text, object, done, field, inbox_payload, dlq_payload}
use pay_twin_os.Ingest.Rows.{
  InboxStatus, EventInbox, is_processed, Reason, malformed, Store, Connector, get_connector,
  Deployment, IngestBody, unknown_merchant, malformed_payload, IngestResult, result, inbox_key,
  put_inbox, set_status, finish, undo,
}
use pay_twin_os.Ingest.Secrets.{secrets_for}

-- The arguments of a delivery.
pub record Delivery : Type 0 where
  pub provider : String
  pub merchant_id : String
  pub body : String
  pub signature : String
  pub headers : String

abbrev pub any_secret : (String → Bool) → List String → Bool
any_secret test [] = false
any_secret test (x ∷ xs) = test x || any_secret test xs

abbrev pub bury : String → Reason → Json → Store → Store
bury org reason payload s = record s {
  dead_letters =
      s.dead_letters ++ record { organization_id = org; reason = reason; payload = payload } ∷ [];
}

abbrev pub is_object : Json → Bool
is_object (object fs) = true
is_object _ = false

-- An existing delivery that is processed is marked; one that still waits is left alone.
unfoldable pub redelivered : EventInbox → Store → Store
redelivered row s =
    if is_processed row.status then put_inbox (set_status InboxStatus.duplicate row) s else s

abbrev pub received_at : ℕ → Integration → Integration
received_at now row = record row { last_webhook_at = some now }

module _ (d : Deployment) (others : Store → Store) (commits : Bool) (now : ℕ) where
  abbrev pub digest : String → Json
  digest body = object (field "body_sha" (text (d.texts.sha256 body)) done)

  unfoldable pub inbox_row : Delivery → Merchant → Json → CanonicalEvent → Store → EventInbox
  inbox_row q m raw event s = record {
    id = s.next_id;
    organization_id = m.organization_id;
    merchant_id = m.id;
    provider = q.provider;
    external_event_id = event.external_event_id;
    signature_ok = true;
    status = InboxStatus.received;
    payload = inbox_payload d.texts raw;
    canonical_payload = canonical_envelope d.clock event;
    processed_at = none;
  }

  abbrev pub add_inbox : Delivery → EventInbox → Store → Store
  add_inbox q row s = record s {
    inbox = s.inbox ++ row ∷ [];
    integrations =
        update_where (integrates row.merchant_id q.provider) (received_at now) s.integrations;
    next_id = s.next_id + 1;
  }

  -- The flush, which the unique constraint of the inbox may refuse.
  unfoldable pub insert_inbox :
      Delivery → Merchant → Json → CanonicalEvent → Store → IngestResult × Store
  insert_inbox q m raw event s =
      let row = inbox_row q m raw event s in
      elim (find_row (inbox_key q.provider m.organization_id event.external_event_id) s.inbox) [
        | some winner ↦ (result 200 (IngestBody.duplicate winner.id), undo s)
        | none ↦
            (result 202 (IngestBody.accepted row.id event.type), finish commits (add_inbox q row s))
      ]

  unfoldable pub enqueue :
      Delivery → Merchant → Json → CanonicalEvent → Store → IngestResult × Store
  enqueue q m raw event s =
      elim (find_row (inbox_key q.provider m.organization_id event.external_event_id) s.inbox) [
        | some existing ↦
            (result 200 (IngestBody.duplicate existing.id), finish commits (redelivered existing s))
        | none ↦ insert_inbox q m raw event (others s)
      ]

  -- `json.loads` and `normalize`.
  unfoldable pub read_event : Connector → Merchant → Delivery → Option (Json × CanonicalEvent)
  read_event c m q = elim (d.texts.loads q.body) [
    | none ↦ none
    | some raw ↦
        if is_object raw
        then elim (c.normalize raw m.organization_id m.id q.headers) [
          | none ↦ none
          | some event ↦ some (raw, event)
        ]
        else none
  ]

  unfoldable pub receive : Connector → Merchant → Delivery → Store → IngestResult × Store
  receive c m q s = elim (read_event c m q) [
    | none ↦ (
      result 422 malformed_payload,
      finish commits (bury m.organization_id malformed (dlq_payload d.texts q.body) s),
    )
    | some (raw, event) ↦ enqueue q m raw event s
  ]

  abbrev pub authentic : Connector → Merchant → Delivery → Store → Bool
  authentic c m q s =
      any_secret (c.verify_webhook q.body q.signature) (secrets_for d.settings now s q.provider m)

  unfoldable pub authenticate : Merchant → Delivery → Store → IngestResult × Store
  authenticate m q s = elim (get_connector d.registry q.provider) [
    | none ↦ (
      result 404 IngestBody.unknown_provider,
      finish commits (bury m.organization_id Reason.unknown_provider (digest q.body) s),
    )
    | some c ↦
        if not (authentic c m q s)
        then (
          result 401 IngestBody.bad_signature,
          finish commits (bury m.organization_id Reason.bad_signature (digest q.body) s),
        )
        else receive c m q s
  ]

  unfoldable pub accept_webhook : Delivery → Store → IngestResult × Store
  accept_webhook q s = elim (find_row (has_merchant_id q.merchant_id) s.merchants) [
    | none ↦ (result 404 unknown_merchant, s)
    | some m ↦ authenticate m q s
  ]
