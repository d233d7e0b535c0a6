-- ===== src/Executor/Dispatch.antt =====
-- `_dispatch`, `_dispatch_local_payment_links` (services/api/paytwin_api/services/executor.py) and
-- `execute_action` (connectors/execution.py). The texts of errors and references are shortened.
use pay_twin_os.Prelude.{
  ℕ, zero, suc, ◌+◌, ◌*◌, max, min, String, Bool, true, false, not, none, some, List, [], ◌∷◌, ◌++◌,
  ◌&&◌, ◌||◌, ltb, str_eq, if◌then◌else◌, get_or, or_text, given, Option, length, Result, ok, err,
  ◌>>=◌, ◌>>◌, raise_if, or_raise,
}
use pay_twin_os.Table.{find_row}
use pay_twin_os.Tenancy.{Merchant, integrates}
use pay_twin_os.Policy.Decision.{ActionKind}
use pay_twin_os.Executor.Rows.{
  ExecutionState, FailureMode, Params, Outcome, no_outcome, ActionExecution, AuditAction, World,
  Raised, retryable, refused, local_error, not_awaiting, unknown_merchant, ActionConnector,
  Deployment, put_execution, note,
}
use pay_twin_os.Executor.Links.{issue_links}

abbrev pub is_payment_link : ActionKind → Bool
is_payment_link ActionKind.payment_link = true
is_payment_link _ = false

-- `failure_mode in {"timeout", "rate_limit", "provider_5xx"}`
abbrev pub is_transient : FailureMode → Bool
is_transient FailureMode.timeout = true
is_transient FailureMode.rate_limit = true
is_transient FailureMode.provider_5xx = true
is_transient _ = false

abbrev pub is_partial : FailureMode → Bool
is_partial FailureMode.partial_success = true
is_partial _ = false

-- `list(dict.fromkeys(...))`
abbrev pub holds : String → List String → Bool
holds s [] = false
holds s (t ∷ ts) = str_eq t s || holds s ts

abbrev pub distinct_from : List String → List String → List String
distinct_from kept [] = kept
distinct_from kept (x ∷ xs) = distinct_from (if holds x kept then kept else kept ++ x ∷ []) xs

abbrev pub numbered : (ℕ → String) → ℕ → ℕ → List String
numbered name zero index = []
numbered name (suc n) index = name index ∷ numbered name n (index + 1)

abbrev pub or_else : List String → List String → List String
or_else [] other = other
or_else (x ∷ xs) other = x ∷ xs

-- `needs.get(kind, False)`
abbrev pub capable : ActionConnector → ActionKind → Bool
capable c ActionKind.retry_burst = c.direct_retry
capable c ActionKind.reroute_psp = true
capable c ActionKind.payment_link = c.payment_link
capable c ActionKind.notify_customer = true
capable c ActionKind.calendar_shift = c.payment_link
capable c ActionKind.escalate = true
capable c ActionKind.do_nothing = false

module _ (d : Deployment) (now : ℕ) (actor : String) where
  abbrev pub groups_of : ActionExecution → List String
  groups_of ex =
      or_else (distinct_from [] ex.params.treatment_group_ids)
        (numbered (d.group_name ex.human_number) (max 1 (min (get_or ex.params.count 1) 100)) 1)

  abbrev pub monitored : ActionExecution → ActionExecution
  monitored ex = record ex {
    state = ExecutionState.monitoring;
    executed_at = some now;
    connector_ref = some "local-payment-link-batch";
    outcome = record no_outcome {
      attempted = length (groups_of ex);
      partial_success = is_partial ex.params.failure_mode;
    };
  }

  unfoldable pub dispatch_local : ActionExecution → World → Result Raised (ActionExecution × World)
  dispatch_local ex w = do
    raise_if (not (is_payment_link ex.kind)) refused
    raise_if (is_transient ex.params.failure_mode) (retryable ex.params.failure_mode)
    let groups = groups_of ex
    let amount = get_or ex.params.avg_amount_paise 0
    raise_if (ltb amount 100) refused
    let total = amount * length groups
    raise_if (ltb (get_or ex.params.stopping_rules.max_campaign_value_paise total) total) refused
    w' ←
        issue_links d now ex amount (get_or ex.params.stopping_rules.max_duration_min 30)
          (or_text ex.params.channel "whatsapp") 1 groups w
    ok (monitored ex, note AuditAction.canary_started actor ex w')

  abbrev pub retry_later : ActionExecution → ActionExecution
  retry_later ex = record ex {
    state = ExecutionState.failed_retryable;
    outcome = record no_outcome {
      error = some "provider transient";
      retry_count = some (get_or ex.outcome.retry_count 0 + 1);
      next_retry_at = some (now + get_or ex.params.retry_after_sec 30 * d.second);
    };
  }

  abbrev pub give_up : ActionExecution → ActionExecution
  give_up ex = record ex {
    state = ExecutionState.failed_final;
    outcome = record no_outcome { error = some "refused" };
  }

  -- The two `except` clauses: other exceptions leave the dispatch.
  unfoldable pub caught :
      ActionExecution
      → World
      → Result Raised (ActionExecution × World)
      → Result Raised (ActionExecution × World)
  caught ex w (ok done) = ok done
  caught ex w (err (retryable mode)) =
      ok (retry_later ex, note AuditAction.retry_scheduled actor ex w)
  caught ex w (err refused) = ok (give_up ex, note AuditAction.action_failed actor ex w)
  caught ex w (err local_error) = err local_error
  caught ex w (err not_awaiting) = err not_awaiting
  caught ex w (err unknown_merchant) = err unknown_merchant

  -- The checks before the adapter's own function is called.
  unfoldable pub admit :
      ActionConnector
      → ActionKind
      → Params
      → Result Raised (ActionKind → Params → String → String → Result Raised Outcome)
  admit c kind params = do
    raise_if (is_transient params.failure_mode) (retryable params.failure_mode)
    raise_if (not (capable c kind)) refused
    or_raise c.perform_action refused

  abbrev pub with_fault : FailureMode → Outcome → Outcome
  with_fault mode o = if is_partial mode then record o { partial_success = true } else o

  abbrev pub performed : ActionExecution → Outcome → ActionExecution
  performed ex o = record ex {
    state = if o.partial_success then ExecutionState.monitoring else ExecutionState.succeeded;
    outcome = o;
    connector_ref = o.ref;
    executed_at = some now;
  }

  abbrev pub performed_note : ActionExecution → Outcome → World → World
  performed_note ex o w =
      note (if o.partial_success then AuditAction.action_monitoring else AuditAction.executed) actor
        ex w

  abbrev pub called : ActionExecution → World → World
  called ex w = record w { calls = w.calls ++ ex.idempotency_key ∷ [] }

  unfoldable pub answered :
      ActionExecution → World → Result Raised Outcome → Result Raised (ActionExecution × World)
  answered ex w (ok answer) =
      let o = with_fault ex.params.failure_mode answer in ok (performed ex o, performed_note ex o w)
  answered ex w (err raised) = caught ex w (err raised)

  -- The secret of an adapter; `none` where it is refused.
  unfoldable pub resolve_connector_secret : ActionExecution → Merchant → World → Option String
  resolve_connector_secret ex merchant w =
      let named : Option String =
        elim (find_row (integrates merchant.id ex.connector) w.integrations) [
          | none ↦ none
          | some row ↦ row.secret_ref
        ] in
      if str_eq ex.connector "simulator"
      then some d.webhook_secret_simulator
      else given (some (d.environ (or_text named (d.secret_name ex.connector))))

  unfoldable pub execute :
      ActionConnector → Merchant → ActionExecution → World → Result Raised (ActionExecution × World)
  execute c merchant ex w = elim (resolve_connector_secret ex merchant w) [
    | none ↦ caught ex w (err refused)
    | some secret ↦ elim (admit c ex.kind ex.params) [
      | err raised ↦ caught ex w (err raised)
      | ok perform ↦ answered ex (called ex w) (perform ex.kind ex.params ex.idempotency_key secret)
    ]
  ]

  abbrev pub is_local : ActionExecution → Bool
  is_local ex = str_eq ex.connector "razorpay" && not d.is_prod && not d.allow_real_execution

  unfoldable pub dispatch :
      ActionExecution → Merchant → World → Result Raised (ActionExecution × World)
  dispatch ex merchant w =
      if is_local ex
      then caught ex w (dispatch_local ex w)
      else if not (str_eq ex.connector "simulator") && not d.allow_real_execution
      then ok (give_up ex, note AuditAction.action_failed actor ex w)
      else elim (d.get_connector ex.connector) [
        | none ↦ err refused
        | some c ↦ execute c merchant (record ex { state = ExecutionState.executing }) w
      ]

  -- The dispatched execution as the session flushes it.
  unfoldable pub dispatch_row :
      ActionExecution → Merchant → World → Result Raised (ActionExecution × World)
  dispatch_row ex merchant w = do (ex', w') ← dispatch ex merchant w; ok (ex', put_execution ex' w')
