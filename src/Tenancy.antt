-- ===== src/Tenancy.antt =====
-- The tables of tenants that several parts read: merchants and integrations
-- (services/api/paytwin_api/models/tenancy.py and measure.py). A column that no modelled operation
-- reads or writes is left out.
use pay_twin_os.Prelude.{ℕ, String, Option, ◌&&◌, str_eq, Bool}
use pay_twin_os.Policy.Decision.{Rules}

pub record Merchant : Type 0 where
  pub id : String
  pub organization_id : String
  pub autonomy_mode : ℕ
  pub connector : Option String
  pub policy_rules : Option Rules

pub record Integration : Type 0 where
  pub id : ℕ
  pub organization_id : String
  pub merchant_id : String
  pub provider : String
  pub secret_ref : Option String
  pub api_secret_ref : Option String
  pub previous_secret_ref : Option String
  pub previous_secret_expires_at : Option ℕ
  pub last_webhook_at : Option ℕ
  pub last_healthcheck_at : Option ℕ

abbrev pub has_merchant_id : String → Merchant → Bool
has_merchant_id id m = str_eq m.id id

abbrev pub integrates : String → String → Integration → Bool
integrates merchant provider row = str_eq row.merchant_id merchant && str_eq row.provider provider
