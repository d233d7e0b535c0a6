-- ===== src/Executor/Rows.antt =====
-- The rows that the executor reads and writes (services/api/paytwin_api/models/actions.py,
-- models/pipeline.py), and what a deployment gives it.
use pay_twin_os.Prelude.{
  ℕ, String, Bool, true, false, Option, none, List, [], ◌∷◌, ◌++◌, ◌==◌, Result,
}
use pay_twin_os.Table.{put_row}
use pay_twin_os.Policy.Active.{Policy}
use pay_twin_os.Tenancy.{Merchant, Integration}
use pay_twin_os.Policy.Decision.{ActionKind, PolicyDecision, PolicyRuleId}

pub data ExecutionState : Type 0 where
  created validated approved scheduled executing monitoring : ExecutionState
  succeeded rolled_back halted failed_retryable failed_final rejected_by_policy : ExecutionState

-- `params["failure_mode"]`; `clear` is an absent or empty text, `named` any other one.
pub data FailureMode : Type 0 where
  clear timeout rate_limit provider_5xx partial_success : FailureMode
  named : String → FailureMode

pub record StoppingRules : Type 0 where
  pub max_campaign_value_paise : Option ℕ
  pub max_duration_min : Option ℕ
  pub max_provider_retries : Option ℕ
  pub rollback_on_partial_success : Option Bool

-- `params["evidence"]`: an entry that is not exactly true counts as false.
pub record Evidence : Type 0 where
  pub contacts_24h : Option ℕ
  pub minutes_since_last_action : Option ℕ
  pub provider_healthy : Bool
  pub consent_on_file : Bool
  pub within_mandate_window : Bool
  pub agent_authority_verified : Bool
  pub local_test_mode : Bool
  pub policy_evaluated_at : Option ℕ

pub record Params : Type 0 where
  pub slice_value_paise : Option ℕ
  pub amount_cap_paise : Option ℕ
  pub attempts_used : Option ℕ
  pub failure_mode : FailureMode
  pub treatment_group_ids : List String
  pub count : Option ℕ
  pub avg_amount_paise : Option ℕ
  pub retry_after_sec : Option ℕ
  pub channel : Option String
  pub stopping_rules : StoppingRules
  pub evidence : Evidence

pub record Candidate : Type 0 where
  pub id : String
  pub kind : ActionKind
  pub params : Params
  pub incident_id : Option String
  pub value_paise : Option ℕ

pub record Stop : Type 0 where
  pub reason : String
  pub automatic : Bool
  pub at : ℕ

-- The entries of `outcome` that the executor reads or counts.
pub record Outcome : Type 0 where
  pub error : Option String
  pub retry_count : Option ℕ
  pub next_retry_at : Option ℕ
  pub stopping_events : List Stop
  pub stop_reason : Option String
  pub partial_success : Bool
  pub attempted : ℕ
  pub recovered : ℕ
  pub recovered_paise : ℕ
  pub terminal_links : Option ℕ
  pub ref : Option String

abbrev pub no_outcome : Outcome
no_outcome = record {
  error = none;
  retry_count = none;
  next_retry_at = none;
  stopping_events = [];
  stop_reason = none;
  partial_success = false;
  attempted = 0;
  recovered = 0;
  recovered_paise = 0;
  terminal_links = none;
  ref = none;
}

pub record ActionExecution : Type 0 where
  pub id : ℕ
  pub organization_id : String
  pub merchant_id : String
  pub incident_id : Option String
  pub candidate_id : String
  pub human_number : ℕ
  pub kind : ActionKind
  pub params : Params
  pub idempotency_key : String
  pub state : ExecutionState
  pub approved_by : Option String
  pub connector : String
  pub connector_ref : Option String
  pub outcome : Outcome
  pub executed_at : Option ℕ
  pub created_at : ℕ

pub record DecisionRow : Type 0 where
  pub execution_id : ℕ
  pub decision : PolicyDecision
  pub failed_rules : List PolicyRuleId

pub data LinkStatus : Type 0 where
  issued partially_paid paid cancelled expired : LinkStatus

-- `status in {"issued", "partially_paid"}`
abbrev pub is_open : LinkStatus → Bool
is_open LinkStatus.issued = true
is_open LinkStatus.partially_paid = true
is_open _ = false

abbrev pub is_paid : LinkStatus → Bool
is_paid LinkStatus.paid = true
is_paid _ = false

pub record PaymentLink : Type 0 where
  pub id : ℕ
  pub organization_id : String
  pub merchant_id : String
  pub reference_id : String
  pub order_id : ℕ
  pub action_execution_id : ℕ
  pub payment_group_id : String
  pub amount_paise : ℕ
  pub amount_paid_paise : ℕ
  pub channel : String
  pub expires_at : ℕ
  pub status : LinkStatus
  pub terminal_reason : Option String

-- A local order with its receipt.
pub record LocalOrder : Type 0 where
  pub id : ℕ
  pub organization_id : String
  pub merchant_id : String
  pub receipt : String
  pub amount_paise : ℕ

pub data AuditAction : Type 0 where
  action_blocked approval_required executed action_monitoring retry_scheduled action_failed :
      AuditAction
  canary_started completed stopped action_halted action_rolled_back : AuditAction

pub record AuditEntry : Type 0 where
  pub organization_id : String
  pub action : AuditAction
  pub object_id : ℕ
  pub actor : String

-- `calls` is what the adapters have been asked to do: the keys of their calls, in order.
pub record World : Type 0 where
  pub merchants : List Merchant
  pub integrations : List Integration
  pub policies : List Policy
  pub executions : List ActionExecution
  pub decisions : List DecisionRow
  pub links : List PaymentLink
  pub orders : List LocalOrder
  pub audit : List AuditEntry
  pub calls : List String
  pub next_id : ℕ

-- What an operation raises: a transient of a provider, a refusal, an error of the local provider,
-- a `ValueError`.
pub data Raised : Type 0 where
  retryable : FailureMode → Raised
  refused local_error not_awaiting unknown_merchant : Raised

pub record ActionConnector : Type 0 where
  pub direct_retry : Bool
  pub payment_link : Bool
  pub perform_action : Option (ActionKind → Params → String → String → Result Raised Outcome)

pub record Deployment : Type 0 where
  pub is_prod : Bool
  pub allow_real_execution : Bool
  pub get_connector : String → Option ActionConnector
  pub environ : String → String
  pub webhook_secret_simulator : String
  pub secret_name : String → String
  pub idempotency_key : String → ActionKind → Params → Option String → String
  pub ist_hour : ℕ → ℕ
  pub reference : ℕ → ℕ → String
  pub receipt : String → String
  pub group_name : ℕ → ℕ → String
  pub minute : ℕ
  pub second : ℕ

abbrev pub put_execution : ActionExecution → World → World
put_execution ex w = record w {
  executions = put_row (λ (r : ActionExecution). r.id) ex w.executions;
}

abbrev pub note : AuditAction → String → ActionExecution → World → World
note action actor ex w = record w {
  audit =
      w.audit
      ++ record {
        organization_id = ex.organization_id;
        action = action;
        object_id = ex.human_number;
        actor = actor;
      }
        ∷ [];
}

abbrev pub has_execution_id : ℕ → ActionExecution → Bool
has_execution_id id row = row.id == id
