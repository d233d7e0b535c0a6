-- ===== src/Executor/Monitor.antt =====
-- `monitor_execution`, `halt_execution` and `monitor_open_executions`
-- (services/api/paytwin_api/services/executor.py).
use pay_twin_os.Prelude.{
  ℕ, take, ◌+◌, ◌*◌, String, Bool, true, false, not, Option, none, some, List, [], ◌∷◌, ◌++◌, map,
  ◌&&◌, ◌||◌, ◌==◌, ltb, leb, str_eq, if◌then◌else◌, get_or, length, Result, ok, ◌>>=◌, or_raise,
}
use pay_twin_os.Table.{find_row, rows_where}
use pay_twin_os.Tenancy.{has_merchant_id}
use pay_twin_os.Executor.Rows.{
  ExecutionState, FailureMode, ActionExecution, PaymentLink, is_open, is_paid, AuditAction, World,
  Raised, unknown_merchant, not_awaiting, Deployment, put_execution, note, has_execution_id,
}
use pay_twin_os.Executor.Links.{cancel_open_payment_links}
use pay_twin_os.Executor.Dispatch.{dispatch_row}

-- `state in {"MONITORING", "EXECUTING", "SCHEDULED", "FAILED_RETRYABLE"}`
abbrev pub is_active : ExecutionState → Bool
is_active ExecutionState.monitoring = true
is_active ExecutionState.executing = true
is_active ExecutionState.scheduled = true
is_active ExecutionState.failed_retryable = true
is_active _ = false

abbrev pub is_retryable : ExecutionState → Bool
is_retryable ExecutionState.failed_retryable = true
is_retryable _ = false

-- `state in {"SUCCEEDED", "FAILED_FINAL", "REJECTED_BY_POLICY", "ROLLED_BACK", "HALTED"}`
abbrev pub is_terminal : ExecutionState → Bool
is_terminal ExecutionState.succeeded = true
is_terminal ExecutionState.failed_final = true
is_terminal ExecutionState.rejected_by_policy = true
is_terminal ExecutionState.rolled_back = true
is_terminal ExecutionState.halted = true
is_terminal _ = false

abbrev pub append_stop : ℕ → String → Bool → ActionExecution → ActionExecution
append_stop now reason automatic ex = record ex {
  outcome = record ex.outcome {
    stopping_events =
        ex.outcome.stopping_events
        ++ record { reason = reason; automatic = automatic; at = now } ∷ [];
    stop_reason = some reason;
  };
}

abbrev pub halted_state : Bool → ExecutionState
halted_state rollback = if rollback then ExecutionState.rolled_back else ExecutionState.halted

abbrev pub halted_note : Bool → AuditAction
halted_note rollback =
    if rollback then AuditAction.action_rolled_back else AuditAction.action_halted

abbrev pub links_of : ℕ → World → List PaymentLink
links_of id w = rows_where (λ (l : PaymentLink). l.action_execution_id == id) w.links

abbrev pub any_open : List PaymentLink → Bool
any_open [] = false
any_open (l ∷ ls) = is_open l.status || any_open ls

abbrev pub total_paid : List PaymentLink → ℕ
total_paid [] = 0
total_paid (l ∷ ls) = l.amount_paid_paise + total_paid ls

abbrev pub any_link : List PaymentLink → Bool
any_link [] = false
any_link (l ∷ ls) = true

module _ (d : Deployment) (now : ℕ) (actor : String) where
  unfoldable pub halt_execution :
      ActionExecution → String → Bool → Bool → World → ActionExecution × World
  halt_execution ex reason automatic rollback w =
      let (cancelled, w₁) = cancel_open_payment_links ex.id reason w in
      let w₂ = if str_eq ex.connector "razorpay" then w₁ else w in
      let ex' = append_stop now reason automatic (record ex { state = halted_state rollback }) in
      if is_terminal ex.state
      then (ex, w)
      else (ex', note (halted_note rollback) actor ex' (put_execution ex' w₂))

  abbrev pub over_time : ActionExecution → Bool
  over_time ex =
      ltb (ex.created_at + get_or ex.params.stopping_rules.max_duration_min 30 * d.minute) now

  abbrev pub is_due : Option ℕ → Bool
  is_due none = false
  is_due (some at) = leb at now

  abbrev pub exhausted : ActionExecution → ActionExecution
  exhausted ex =
      append_stop now "provider_retry_budget_exhausted" true
        (record ex { state = ExecutionState.failed_final })

  abbrev pub unfaulted : ActionExecution → ActionExecution
  unfaulted ex = record ex { params = record ex.params { failure_mode = FailureMode.clear } }

  unfoldable pub redispatch : ActionExecution → World → Result Raised (ActionExecution × World)
  redispatch ex w = do
    merchant ← or_raise (find_row (has_merchant_id ex.merchant_id) w.merchants) unknown_merchant
    dispatch_row d now actor (unfaulted ex) merchant w

  unfoldable pub retry : ActionExecution → World → Result Raised (ActionExecution × World)
  retry ex w =
      if not (is_due ex.outcome.next_retry_at)
      then ok (ex, w)
      else if leb (get_or ex.params.stopping_rules.max_provider_retries 2)
          (get_or ex.outcome.retry_count 0)
      then ok (exhausted ex, note AuditAction.stopped actor ex (put_execution (exhausted ex) w))
      else redispatch ex w

  abbrev pub settled_batch : List PaymentLink → ActionExecution → ActionExecution
  settled_batch links ex =
      let paid = rows_where (λ (l : PaymentLink). is_paid l.status) links in
      record ex {
        state = ExecutionState.succeeded;
        outcome = record ex.outcome {
          recovered = length paid;
          recovered_paise = total_paid paid;
          terminal_links = some (length links);
        };
      }

  unfoldable pub settle_links : ActionExecution → World → ActionExecution × World
  settle_links ex w =
      let links = links_of ex.id w in
      let ex' = settled_batch links ex in
      if str_eq ex.connector "razorpay" && any_link links && not (any_open links)
      then (ex', note AuditAction.completed actor ex' (put_execution ex' w))
      else (ex, w)

  -- The row is the one that the caller has read, which takes no lock, and the world the one in which
  -- it is written back: another session may have committed between the two.
  unfoldable pub monitor_execution :
      ActionExecution → World → Result Raised (ActionExecution × World)
  monitor_execution ex w =
      if not (is_active ex.state)
      then ok (ex, w)
      else if over_time ex
      then ok (halt_execution ex "max_duration_exceeded" true false w)
      else if is_retryable ex.state
      then retry ex w
      else if ex.outcome.partial_success
          && get_or ex.params.stopping_rules.rollback_on_partial_success true
      then ok (halt_execution ex "partial_provider_success" true true w)
      else ok (settle_links ex w)

  abbrev pub open_ids : Option String → World → List ℕ
  open_ids org w =
      map (λ (r : ActionExecution). r.id)
        (rows_where
          (λ (r : ActionExecution).
            is_active r.state && (elim org [ none ↦ true | some o ↦ str_eq r.organization_id o ]))
          w.executions)

  -- The rows are live objects: each is looked at as the ones before it have left it.
  unfoldable pub monitor_all : List ℕ → World → Result Raised World
  monitor_all [] w = ok w
  monitor_all (id ∷ ids) w = do
    ex ← or_raise (find_row (has_execution_id id) w.executions) not_awaiting
    (ex', w') ← monitor_execution ex w
    monitor_all ids w'

  -- The rows are in the order of `created_at`.
  unfoldable pub monitor_open_executions : Option String → World → Result Raised (ℕ × World)
  monitor_open_executions org w = do
    let ids = take 500 (open_ids org w)
    w' ← monitor_all ids w
    ok (length ids, w')
