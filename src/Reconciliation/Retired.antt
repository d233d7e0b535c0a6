-- ===== src/Reconciliation/Retired.antt =====
-- The retirement of expired secrets and the secrets that ingestion accepts
-- (services/api/paytwin_api/services/reconciliation.py and ingest.py).
use pay_twin_os.Prelude.{
  ℕ, ◌≤◌, ◌≡◌, refl, sym, ap, ◌∙◌, String, true, false, Option, none, some, List, [], ◌∷◌, ◌++◌,
  arith, Bool-cases, Option-cases, given, inl, inr, map,
}
use pay_twin_os.Table.{find_row}
use pay_twin_os.Tenancy.{Merchant, Integration, integrates}
use pay_twin_os.Payments.Rows.{Db}
use pay_twin_os.Ingest.Rows.{Store, Settings}
use pay_twin_os.Ingest.Secrets.{
  provider_secret, configured, in_grace, previous, own_secrets, with_fallback, from_keys,
  secrets_for,
}
use pay_twin_os.Reconciliation.Sweep.{is_expired, in_scope, retire, reconcile_financial_state}

abbrev option_map : {A B : Type 0} → (A → B) → Option A → Option B
option_map f none = none
option_map f (some x) = some (f x)

retire-integrates :
    (scope : Option String) (now : ℕ) (merchant provider : String) (row : Integration)
    → integrates merchant provider (retire scope now row) ≡ integrates merchant provider row
unfolding retire
retire-integrates scope now merchant provider row = ground arith

find_row-retire :
    (scope : Option String) (now : ℕ) (merchant provider : String) (rows : List Integration)
    → find_row (integrates merchant provider) (map (retire scope now) rows)
      ≡ option_map (retire scope now) (find_row (integrates merchant provider) rows)
find_row-retire scope now merchant provider [] = refl
find_row-retire scope now merchant provider (row ∷ rows) =
    let same = retire-integrates scope now merchant provider row in
    elim (Bool-cases (integrates merchant provider row)) [
      | inl e ↦ rw (same, e) refl
      | inr e ↦ rw (same, e) (find_row-retire scope now merchant provider rows)
    ]

in_grace-expired :
    (now later : ℕ) (expires_at : Option ℕ)
    → now ≤ later
    → is_expired now expires_at ≡ true
    → in_grace later expires_at ≡ false
in_grace-expired now later none le h = cc
in_grace-expired now later (some at) le h = ground arith

previous-expired :
    (c : Settings) (now later : ℕ) (row : Integration)
    → now ≤ later
    → is_expired now row.previous_secret_expires_at ≡ true
    → previous c later row ≡ []
previous-expired c now later row le h =
    let over = in_grace-expired now later row.previous_secret_expires_at le h in
    elim (Option-cases (given row.previous_secret_ref)) [
      | inl absent ↦ rw (absent, previous) refl
      | inr (ref, there) ↦ rw (there, previous, over) refl
    ]

own_secrets-retire :
    (c : Settings) (scope : Option String) (now later : ℕ) (row : Option Integration)
    → now ≤ later
    → own_secrets c later (option_map (retire scope now) row) ≡ own_secrets c later row
unfolding retire
own_secrets-retire c scope now later none le = refl
own_secrets-retire c scope now later (some row) le =
    elim (Bool-cases (in_scope scope row.organization_id)) [
      | inr outside ↦ rw (outside) refl
      | inl inside ↦ elim (Bool-cases (is_expired now row.previous_secret_expires_at)) [
        | inr fresh ↦ rw (inside, fresh) refl
        | inl expired ↦
            rw (inside, expired)
              (ap (λ (old : List String). configured c row ++ old)
                (sym (previous-expired c now later row le expired)))
      ]
    ]

-- From the sweep on, the secrets under which ingestion accepts a delivery are the ones without the
-- sweep: only references whose grace window is over are retired.
pub reconcile_financial_state-secrets_for :
    (c : Settings) (scope : Option String) (now later : ℕ) (db : Db) (s : Store) (provider : String)
    (m : Merchant)
    → now ≤ later
    → secrets_for c later
        (record s {
          integrations = (reconcile_financial_state scope now db s.integrations).integrations;
        })
        provider
        m
      ≡ secrets_for c later s provider m
unfolding secrets_for reconcile_financial_state
reconcile_financial_state-secrets_for c scope now later db s provider m le =
    ap (λ (own : List String). from_keys [] (with_fallback own (provider_secret c provider)))
      (ap (own_secrets c later) (find_row-retire scope now m.id provider s.integrations)
        ∙ own_secrets-retire c scope now later (find_row (integrates m.id provider) s.integrations)
            le)
