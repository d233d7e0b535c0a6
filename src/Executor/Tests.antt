-- ===== src/Executor/Tests.antt =====
-- The executor on concrete requests.
use pay_twin_os.Prelude.{
  ℕ, ◌≡◌, refl, subst, true, false, none, some, [], ◌∷◌, arith, length, str_eq, if◌then◌else◌,
  Result, ok, err,
}
use pay_twin_os.Tenancy.{Merchant}
use pay_twin_os.Policy.Active.{active_rules}
use pay_twin_os.Policy.Decision.{
  ActionKind, merge_rules, update_rules, evaluate, guardrails, hard, hard_when, ladder,
}
use pay_twin_os.Executor.Rows.{
  ExecutionState, FailureMode, Params, Candidate, ActionExecution, World, Raised, retryable,
  no_outcome, ActionConnector, Deployment,
}
use pay_twin_os.Executor.Links.{
  create_order, insert_link, create_payment_link, issue_links, new_link,
}
use pay_twin_os.Executor.Dispatch.{
  resolve_connector_secret, dispatch, dispatch_row, dispatch_local, execute, admit, answered,
  caught,
}
use pay_twin_os.Executor.Request.{
  policy_context, judge, new_execution, follow, insert_and_follow, request_execution,
  approve_and_execute,
}
use pay_twin_os.Executor.Monitor.{is_retryable, is_due, monitor_execution, retry, redispatch}
use pay_twin_os.Executor.Gate.{is_denied, Withheld, request_execution-Withheld}
use pay_twin_os.Executor.Ledger.{Sound}
use pay_twin_os.Executor.Requested.{request_execution_again}
use pay_twin_os.Executor.Reached.{requests, starts, Reached-Sound}
use pay_twin_os.Executor.Retries.{follow_up, Timely, follow_up-settles}

abbrev acme : Merchant
acme = record {
  id = "m1";
  organization_id = "o1";
  autonomy_mode = 4;
  connector = some "simulator";
  policy_rules = none;
}

-- A provider that is never there.
abbrev absent_provider : ActionConnector
absent_provider = record {
  direct_retry = true;
  payment_link = true;
  perform_action = some (λ kind params key secret. err (retryable FailureMode.timeout));
}

abbrev site : ℕ → Deployment
site hour = record {
  is_prod = false;
  allow_real_execution = false;
  get_connector = λ name. if str_eq name "simulator" then some absent_provider else none;
  environ = λ name. "";
  webhook_secret_simulator = "secret";
  secret_name = λ provider. "PAYTWIN_SECRET";
  idempotency_key = λ m kind params incident. "key";
  ist_hour = λ at. hour;
  reference = λ n i. "reference";
  receipt = λ reference. "receipt";
  group_name = λ n i. "group";
  minute = 60;
  second = 1;
}

abbrev noon_site : Deployment
noon_site = site 12

abbrev night_site : Deployment
night_site = site 22

abbrev plan : Params
plan = record {
  slice_value_paise = some 50000;
  amount_cap_paise = none;
  attempts_used = none;
  failure_mode = FailureMode.clear;
  treatment_group_ids = [];
  count = none;
  avg_amount_paise = some 25000;
  retry_after_sec = none;
  channel = none;
  stopping_rules = record {
    max_campaign_value_paise = none;
    max_duration_min = none;
    max_provider_retries = none;
    rollback_on_partial_success = none;
  };
  evidence = record {
    contacts_24h = none;
    minutes_since_last_action = some 9999;
    provider_healthy = true;
    consent_on_file = true;
    within_mandate_window = true;
    agent_authority_verified = true;
    local_test_mode = false;
    policy_evaluated_at = none;
  };
}

abbrev recovery : Candidate
recovery = record {
  id = "c1";
  kind = ActionKind.payment_link;
  params = plan;
  incident_id = none;
  value_paise = none;
}

abbrev empty : World
empty = record {
  merchants = acme ∷ [];
  integrations = [];
  policies = [];
  executions = [];
  decisions = [];
  links = [];
  orders = [];
  audit = [];
  calls = [];
  next_id = 1;
}

empty-Sound : Sound empty
empty-Sound = record { ids = (tt, tt); keys = tt; rows = tt; orphans = λ k a. refl }

night_is_denied : is_denied (judge night_site 0 "worker" acme recovery empty).decision none ≡ true
unfolding judge policy_context evaluate active_rules merge_rules update_rules guardrails hard
    hard_when ladder
night_is_denied = refl

request_execution-Withheld_example :
    (r : ActionExecution × World) × (request_execution night_site 0 "worker"
        (λ _. empty)
        acme
        recovery
        none
        empty
      ≡ ok r)
    × Withheld empty r.0 r.1 (judge night_site 0 "worker" acme recovery empty)
request_execution-Withheld_example =
    request_execution-Withheld night_site 0 "worker" (λ _. empty) acme recovery none empty refl refl
      night_is_denied

abbrev value_or : {A : Type 0} → A → Result Raised A → A
value_or other (ok a) = a
value_or other (err raised) = other

abbrev first : ActionExecution × World
first =
    value_or (new_execution noon_site 0 "worker" acme recovery "other" empty, empty)
      (request_execution noon_site 0 "worker" (λ _. empty) acme recovery none empty)

first_is_made :
    request_execution noon_site 0 "worker" (λ _. empty) acme recovery none empty ≡ ok first
unfolding request_execution insert_and_follow judge policy_context evaluate active_rules merge_rules
    update_rules guardrails hard hard_when ladder new_execution follow dispatch_row dispatch execute
    resolve_connector_secret admit answered caught
first_is_made = refl

first_is_to_be_retried :
    (first.0.state ≡ ExecutionState.failed_retryable) × (first.1.calls ≡ "key" ∷ [])
unfolding request_execution insert_and_follow judge policy_context evaluate active_rules merge_rules
    update_rules guardrails hard hard_when ladder new_execution follow dispatch_row dispatch execute
    resolve_connector_secret admit answered caught
first_is_to_be_retried = (refl, refl)

request_execution_again_example :
    (ex : ActionExecution) × (request_execution noon_site 7 "other"
        (λ _. empty)
        acme
        recovery
        (some "admin")
        first.1
      ≡ ok (ex, first.1))
    × (ex.idempotency_key ≡ "key")
request_execution_again_example =
    request_execution_again noon_site 0 "worker" 7 "other" (λ _. empty) (λ _. empty) acme recovery
      none (some "admin") empty empty-Sound empty-Sound first_is_made

Reached-Sound_example : Sound first.1
Reached-Sound_example =
    Reached-Sound noon_site empty first.1 empty-Sound
      (requests 0 "worker" acme recovery none empty empty first starts starts first_is_made)

-- An execution after its first failure.
abbrev failing : ActionExecution
failing = record {
  id = 1;
  organization_id = "o1";
  merchant_id = "m1";
  incident_id = none;
  candidate_id = "c1";
  human_number = 5001;
  kind = ActionKind.payment_link;
  params = plan;
  idempotency_key = "key";
  state = ExecutionState.failed_retryable;
  approved_by = some "worker";
  connector = "simulator";
  connector_ref = none;
  outcome = record no_outcome { retry_count = some 1; next_retry_at = some 30 };
  executed_at = none;
  created_at = 0;
}

abbrev failed_world : World
failed_world = record empty { executions = failing ∷ []; calls = "key" ∷ []; next_id = 2 }

abbrev second : ActionExecution × World
second =
    value_or (failing, failed_world) (monitor_execution noon_site 30 "worker" failing failed_world)

second_fails :
    (monitor_execution noon_site 30 "worker" failing failed_world ≡ ok second)
    × (is_due noon_site 100 "worker" second.0.outcome.next_retry_at ≡ true)
unfolding monitor_execution retry redispatch dispatch_row dispatch execute resolve_connector_secret
    admit answered caught
second_fails = (refl, refl)

failing-Timely : Timely noon_site "worker" (30 ∷ 100 ∷ []) failing failed_world
failing-Timely = (
  λ _. refl,
  λ r e.
      let p : second ≡ r = ground (arith, second_fails.0) in
      (
        λ _.
            subst
              (λ (r : ActionExecution × World).
                is_due noon_site 100 "worker" r.0.outcome.next_retry_at ≡ true)
              p second_fails.1,
        λ _ _. tt,
      ),
)

abbrev third : ActionExecution × World
third =
    value_or (failing, failed_world)
      (follow_up noon_site "worker" (30 ∷ 100 ∷ []) failing failed_world)

third_is_made : follow_up noon_site "worker" (30 ∷ 100 ∷ []) failing failed_world ≡ ok third
unfolding follow_up monitor_execution retry redispatch dispatch_row dispatch execute
    resolve_connector_secret admit answered caught
third_is_made = refl

follow_up-settles_example : is_retryable third.0.state ≡ false
follow_up-settles_example =
    follow_up-settles noon_site "worker" (30 ∷ 100 ∷ []) failing failed_world (omega arith)
      failing-Timely third_is_made

-- The local Test Mode issues one link for each group.
abbrev local_merchant : Merchant
local_merchant = record acme { connector = some "razorpay" }

abbrev issued : ActionExecution × World
issued =
    value_or (failing, failed_world)
      (request_execution noon_site 0 "worker" (λ _. empty) local_merchant recovery none empty)

one_link_is_issued :
    (issued.0.state ≡ ExecutionState.monitoring)
    × (length issued.1.links ≡ 1)
    × (issued.1.calls ≡ [])
unfolding request_execution insert_and_follow judge policy_context evaluate active_rules merge_rules
    update_rules guardrails hard hard_when ladder new_execution follow dispatch_row dispatch
    dispatch_local create_order insert_link create_payment_link issue_links new_link caught
one_link_is_issued = (refl, refl, refl)

-- A duration below five minutes raises an error that the dispatch does not catch.
abbrev short : Candidate
short = record recovery {
  params = record plan {
    stopping_rules = record plan.stopping_rules { max_duration_min = some 4 };
  };
}

short_is_not_caught :
    request_execution noon_site 0 "worker" (λ _. empty) local_merchant short none empty
    ≡ err Raised.local_error
unfolding request_execution insert_and_follow judge policy_context evaluate active_rules merge_rules
    update_rules guardrails hard hard_when ladder new_execution follow dispatch_row dispatch
    dispatch_local create_order insert_link create_payment_link issue_links new_link caught
short_is_not_caught = refl

-- An execution that waits for an approval.
abbrev waiting : ActionExecution
waiting = record failing {
  state = ExecutionState.validated;
  approved_by = none;
  outcome = no_outcome;
}

abbrev waiting_world : World
waiting_world = record empty { executions = waiting ∷ []; next_id = 2 }

abbrev approved : ActionExecution × World
approved =
    value_or (waiting, waiting_world)
      (approve_and_execute noon_site 0 "admin" (λ w. w) 1 waiting_world)

abbrev approved_in_between : ActionExecution × World
approved_in_between =
    value_or (waiting, waiting_world)
      (approve_and_execute noon_site 0 "owner" (λ w. approved.1) 1 waiting_world)

-- Of two approvals that have both read the row before either is dispatched, both call the provider.
racing_approvals_call_twice :
    (approved.1.calls ≡ "key" ∷ []) × (approved_in_between.1.calls ≡ "key" ∷ "key" ∷ [])
unfolding approve_and_execute dispatch_row dispatch execute resolve_connector_secret admit answered
    caught
racing_approvals_call_twice = (refl, refl)

-- The first retry has come through, and a second monitor still holds the row as it was before.
abbrev retried_in_between : ActionExecution × World
retried_in_between =
    value_or (failing, failed_world) (monitor_execution noon_site 30 "worker" failing second.1)

-- The racing retry calls the provider once more and leaves the count of the retries as it was.
racing_monitors_call_twice :
    (second.1.calls ≡ "key" ∷ "key" ∷ [])
    × (retried_in_between.1.calls ≡ "key" ∷ "key" ∷ "key" ∷ [])
    × (retried_in_between.0.outcome.retry_count ≡ second.0.outcome.retry_count)
unfolding monitor_execution retry redispatch dispatch_row dispatch execute resolve_connector_secret
    admit answered caught
racing_monitors_call_twice = (refl, refl, refl)
