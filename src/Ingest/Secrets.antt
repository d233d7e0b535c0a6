-- ===== src/Ingest/Secrets.antt =====
-- `_provider_secret` and `_secrets_for` (services/api/paytwin_api/services/ingest.py).
use pay_twin_os.Prelude.{
  ℕ, String, Bool, false, Option, none, some, List, [], ◌∷◌, ◌++◌, leb, str_eq, if◌then◌else◌,
  text_true, given,
}
use pay_twin_os.Table.{find_row}
use pay_twin_os.Tenancy.{Merchant, Integration, integrates}
use pay_twin_os.Ingest.Rows.{Store, Settings}
use pay_twin_os.Ingest.Redact.{in_texts}

abbrev pub provider_secret : Settings → String → String
provider_secret c provider =
    if str_eq provider "simulator"
    then c.webhook_secret_simulator
    else if str_eq provider "mockprovider"
    then c.webhook_secret_mockprovider
    else if str_eq provider "razorpay"
    then c.webhook_secret_razorpay
    else ""

-- A list of one text, or of none where the text is empty.
abbrev pub nonempty : String → List String
nonempty secret = if text_true secret then secret ∷ [] else []

abbrev pub configured : Settings → Integration → List String
configured c row = elim (given row.secret_ref) [ none ↦ [] | some ref ↦ nonempty (c.environ ref) ]

-- The secret before a rotation, in its grace window.
abbrev pub in_grace : ℕ → Option ℕ → Bool
in_grace now none = false
in_grace now (some expires_at) = leb now expires_at

abbrev pub previous : Settings → ℕ → Integration → List String
previous c now row = elim (given row.previous_secret_ref) [
  | none ↦ []
  | some ref ↦ if in_grace now row.previous_secret_expires_at then nonempty (c.environ ref) else []
]

abbrev pub own_secrets : Settings → ℕ → Option Integration → List String
own_secrets c now none = []
own_secrets c now (some row) = configured c row ++ previous c now row

abbrev pub with_fallback : List String → String → List String
with_fallback [] fallback = nonempty fallback
with_fallback (x ∷ xs) fallback = x ∷ xs

-- `dict.fromkeys`: the first of equal texts stays.
abbrev pub from_keys : List String → List String → List String
from_keys kept [] = kept
from_keys kept (x ∷ xs) = from_keys (if in_texts x kept then kept else kept ++ x ∷ []) xs

unfoldable pub secrets_for : Settings → ℕ → Store → String → Merchant → List String
secrets_for c now s provider m = from_keys [] (
    with_fallback (own_secrets c now (find_row (integrates m.id provider) s.integrations))
      (provider_secret c provider))
