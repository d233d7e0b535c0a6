-- ===== src/Executor/Reached.antt =====
-- Whole histories of the executor (services/api/paytwin_api/services/executor.py): requests,
-- approvals, halts and monitoring in any order and at any time, with other sessions' commits between
-- the two statements of a request. An approval, a halt and a pass of the monitor have no other session
-- between the reading of their row and their end, and an operation that raises is rolled back and its
-- calls are not counted.
use pay_twin_os.Prelude.{
  ℕ, take, length, arith, ◌≡◌, subst, String, Bool, Option, some, Result, ok, >>=-ok,
}
use pay_twin_os.Table.{find_row}
use pay_twin_os.Tenancy.{Merchant}
use pay_twin_os.Executor.Rows.{
  Candidate, ActionExecution, World, Raised, Deployment, has_execution_id,
}
use pay_twin_os.Executor.Request.{request_execution, approve_and_execute}
use pay_twin_os.Executor.Monitor.{
  halt_execution, monitor_execution, monitor_all, monitor_open_executions, open_ids,
}
use pay_twin_os.Executor.Ledger.{Sound}
use pay_twin_os.Executor.Budget.{halt_execution-Sound}
use pay_twin_os.Executor.Watched.{
  monitor_execution-Sound, monitor_all-Sound, approve_and_execute-Sound,
}
use pay_twin_os.Executor.Requested.{request_execution-Answered}

module _ (d : Deployment) where
  pub data Reached (start : World) : World → Type 0 where
    starts : Reached start start
    requests :
        (now : ℕ) (actor : String) (m : Merchant) (c : Candidate) (approved_by : Option String)
        (w between : World) (r : ActionExecution × World)
        → Reached start w
        → Reached start between
        → request_execution d now actor (λ _. between) m c approved_by w ≡ ok r
        → Reached start r.1
    approves :
        (now : ℕ) (actor : String) (id : ℕ) (w : World) (r : ActionExecution × World)
        → Reached start w
        → approve_and_execute d now actor (λ v. v) id w ≡ ok r
        → Reached start r.1
    halts :
        (now : ℕ) (actor : String) (id : ℕ) (ex : ActionExecution) (reason : String)
        (automatic rollback : Bool) (w : World)
        → Reached start w
        → find_row (has_execution_id id) w.executions ≡ some ex
        → Reached start (halt_execution d now actor ex reason automatic rollback w).1
    monitors :
        (now : ℕ) (actor : String) (id : ℕ) (ex : ActionExecution) (w : World)
        (r : ActionExecution × World)
        → Reached start w
        → find_row (has_execution_id id) w.executions ≡ some ex
        → monitor_execution d now actor ex w ≡ ok r
        → Reached start r.1
    works :
        (now : ℕ) (actor : String) (org : Option String) (w : World) (r : ℕ × World)
        → Reached start w
        → monitor_open_executions d now actor org w ≡ ok r
        → Reached start r.1

  monitor_open_executions-Sound :
      (now : ℕ) (actor : String) (org : Option String) (w : World) (r : ℕ × World)
      → Sound w
      → monitor_open_executions d now actor org w ≡ ok r
      → Sound r.1
  unfolding monitor_open_executions
  monitor_open_executions-Sound now actor org w r h e =
      let ids = take 500 (open_ids d now actor org w) in
      let finish : World → Result Raised (ℕ × World) = λ v. ok (length ids, v) in
      let (v, seen, rest) = >>=-ok (monitor_all d now actor ids w) finish e in
      let p : (length ids, v) ≡ r = ground arith in
      subst (λ (r : ℕ × World). Sound r.1) p (monitor_all-Sound d now actor ids w h seen)

  -- Over every history of operations that come through, where another session may commit within a
  -- request, and none within an approval, a halt or a pass of the monitor: each idempotency key has
  -- one execution; an execution past the policy has an approver; the providers were called under the
  -- key of an execution at most once more than its retry limit, and never without an approver or for
  -- a row that awaits one; and no call is under a key without an execution.
  pub Reached-Sound : (start t : World) → Sound start → Reached start t → Sound t
  Reached-Sound start t s starts = s
  Reached-Sound start t s (requests now actor m c approved_by w between r h k e) =
      (request_execution-Answered d now actor (λ _. between) m c approved_by w {r = r}
        (Reached-Sound start w s h) (Reached-Sound start between s k) e).0
  Reached-Sound start t s (approves now actor id w r h e) =
      approve_and_execute-Sound d now actor id w {r = r} (Reached-Sound start w s h) e
  Reached-Sound start t s (halts now actor id ex reason automatic rollback w h found) =
      halt_execution-Sound d now actor ex reason automatic rollback w (has_execution_id id) found
        (Reached-Sound start w s h)
  Reached-Sound start t s (monitors now actor id ex w r h found e) =
      monitor_execution-Sound d now actor ex w (has_execution_id id) {r = r} found
        (Reached-Sound start w s h) e
  Reached-Sound start t s (works now actor org w r h e) =
      monitor_open_executions-Sound now actor org w r (Reached-Sound start w s h) e
