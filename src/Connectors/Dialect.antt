-- ===== src/Connectors/Dialect.antt =====
-- What the adapters share (services/api/paytwin_api/connectors/base.py). The fields of a decoded
-- payload have the types that the provider documents, numbers in them are not negative; what the
-- standard library does to texts, digests and instants is a parameter.
use Prim.Native.String.{◌++◌ as text_append}
use pay_twin_os.Prelude.{
  ℕ, String, Bool, Option, none, some, ◌&&◌, str_eq, given, Result, err, or_raise,
}
use pay_twin_os.Payments.Rows.{EventType, Cohort, Payload, CanonicalEvent}
use pay_twin_os.Ingest.Envelope.{checked}

pub data Rejection : Type 0 where
  webhook_rejected : Rejection

-- A field that is missing, null, or there.
pub data Entry (A : Type 0) : Type 0 where
  missing null : Entry A
  value : A → Entry A

abbrev pub present : {A : Type 0} → Entry A → Option A
present missing = none
present null = none
present (value x) = some x

-- `d.get(key, default)`
abbrev pub with_default : {A : Type 0} → A → Entry A → Option A
with_default default missing = some default
with_default default null = none
with_default default (value x) = some x

pub record Library : Type 0 where
  pub upper : String → String
  pub first : ℕ → String → String
  pub sha256 : String → String
  pub hmac_sha256 : String → String → String
  pub starts_with : String → String → Bool
  pub from_timestamp : ℕ → Option ℕ
  pub hash_salt : String

-- Whose event it is.
pub record Owner : Type 0 where
  pub organization_id : String
  pub merchant_id : String

module _ (l : Library) where
  unfoldable pub hmac_ok : String → String → String → String → Bool
  hmac_ok body signature secret scheme =
      l.starts_with scheme signature
      && str_eq (text_append scheme (l.hmac_sha256 secret body)) signature

  unfoldable pub pseudonymize_ref : Option String → Option String
  pseudonymize_ref ref = elim (given ref) [
    | none ↦ none
    | some r ↦
        some
          (text_append "c_" (l.first 16 (l.sha256 (text_append l.hash_salt (text_append "|" r)))))
  ]

  unfoldable pub epoch_to_dt : Option ℕ → Result Rejection ℕ
  epoch_to_dt none = err webhook_rejected
  epoch_to_dt (some ts) = or_raise (l.from_timestamp ts) webhook_rejected

abbrev pub ext_event_id : Option String → Result Rejection String
ext_event_id id = or_raise (given id) webhook_rejected

-- `{k: v for k, v in cohort.items() if v}`
abbrev pub cohort_of : Option String → Option String → Option String → Option String → Cohort
cohort_of issuer method psp gateway = record {
  issuer = given issuer;
  method = given method;
  psp = given psp;
  gateway = given gateway;
}

-- The constructor of the event, whose refusal the adapters turn into a rejection.
unfoldable pub canonical_event :
    EventType
    → Owner
    → String
    → String
    → ℕ
    → String
    → ℕ
    → Cohort
    → Payload
    → Result Rejection CanonicalEvent
canonical_event type owner provider external_event_id occurred_at payment_ref amount cohort
      payload =
    or_raise
      (checked (record {
        type = type;
        organization_id = owner.organization_id;
        merchant_id = owner.merchant_id;
        provider = provider;
        external_event_id = external_event_id;
        occurred_at = occurred_at;
        payment_ref = payment_ref;
        amount_paise = amount;
        currency = "INR";
        cohort = cohort;
        payload = payload;
      }))
      webhook_rejected
