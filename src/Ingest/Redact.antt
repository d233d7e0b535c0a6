-- ===== src/Ingest/Redact.antt =====
-- `_redact`, `_capped_redacted_payload` and `_inbox_payload`
-- (services/api/paytwin_api/services/ingest.py) on JSON values. Lower case, the size of the printed
-- value and the digest of a body are parameters.
use Prim.Native.String.{count}
use pay_twin_os.Prelude.{
  ℕ, zero, suc, ◌+◌, String, Bool, true, false, Option, none, some, List, [], ◌∷◌, ltb, str_eq,
  if◌then◌else◌,
}

mutual
  pub data Json : Type 0 where
    null : Json
    boolean : Bool → Json
    number : ℕ → Json
    text : String → Json
    array : Items → Json
    object : Fields → Json

  pub data Items : Type 0 where
    end : Items
    item : Json → Items → Items

  pub data Fields : Type 0 where
    done : Fields
    field : String → Json → Fields → Fields

abbrev pub in_texts : String → List String → Bool
in_texts s [] = false
in_texts s (t ∷ ts) = if str_eq t s then true else in_texts s ts

abbrev pub pii_keys : List String
pii_keys =
    "customer_ref" ∷ "customer_id" ∷ "vpa" ∷ "email" ∷ "phone" ∷ "contact" ∷ "contact_id" ∷ "name"
    ∷ "notes" ∷ "description" ∷ "pan" ∷ "cvv" ∷ "card_number" ∷ "cardholder_name" ∷ "expiry"
    ∷ "exp_month" ∷ "exp_year" ∷ []

-- What the standard library does to texts.
pub record Texts : Type 0 where
  pub lower : String → String
  pub first : ℕ → String → String
  pub printed : Json → String
  pub shown : Json → String
  pub sha256 : String → String
  pub hex : String → String
  pub loads : String → Option Json

abbrev pub redacted : Json
redacted = text "[redacted]"

abbrev pub take_items : ℕ → Items → Items
take_items zero xs = end
take_items (suc n) end = end
take_items (suc n) (item x xs) = item x (take_items n xs)

abbrev pub keys_of : Fields → Items
keys_of done = end
keys_of (field key x fs) = item (text key) (keys_of fs)

abbrev pub keys_entry : Json → Json
keys_entry (object fs) = array (take_items 20 (keys_of fs))
keys_entry _ = null

module _ (t : Texts) where
  unfoldable pub is_pii : String → Bool
  is_pii key = in_texts (t.lower key) pii_keys

  unfoldable mutual
    pub redact : ℕ → Json → Json
    redact depth null = if ltb 6 depth then text "…" else null
    redact depth (boolean b) = if ltb 6 depth then text "…" else boolean b
    redact depth (number n) = if ltb 6 depth then text "…" else number n
    redact depth (text s) = if ltb 6 depth then text "…" else text (t.first 200 s)
    redact depth (array xs) =
        let ys = redact_items (depth + 1) 20 xs in if ltb 6 depth then text "…" else array ys
    redact depth (object fs) =
        let gs = redact_fields (depth + 1) fs in if ltb 6 depth then text "…" else object gs

    -- The first items, as many as the number says.
    pub redact_items : ℕ → ℕ → Items → Items
    redact_items depth zero xs = end
    redact_items depth (suc n) end = end
    redact_items depth (suc n) (item x xs) = item (redact depth x) (redact_items depth n xs)

    pub redact_fields : ℕ → Fields → Fields
    redact_fields depth done = done
    redact_fields depth (field key x fs) =
        let v = redact depth x in
        let rest = redact_fields depth fs in field key (if is_pii key then redacted else v) rest

  -- The printed value is ASCII, so its characters are what `len` counts.
  unfoldable pub capped : Json → String → Json
  capped value body =
      if ltb 8192 (count (t.printed value))
      then object (
          field "truncated" (boolean true)
            (field "body_sha256" (text (t.sha256 body)) (field "keys" (keys_entry value) done)))
      else value

  unfoldable pub inbox_payload : Json → Json
  inbox_payload raw = capped (redact 0 raw) (t.printed raw)

  abbrev pub wrapped : Json → Json
  wrapped (object fs) = object fs
  wrapped j = object (field "raw" (text (t.first 400 (t.shown j))) done)

  unfoldable pub dlq_payload : String → Json
  dlq_payload body = elim (t.loads body) [
    | none ↦ object (field "raw_b64_prefix" (text (t.hex (t.first 120 body))) done)
    | some j ↦ capped (redact 0 (wrapped j)) body
  ]
