-- ===== src/Executor/Watched.antt =====
-- Monitoring and approval keep the accounts (`monitor_execution`, `approve_and_execute`,
-- services/api/paytwin_api/services/executor.py).
use pay_twin_os.Prelude.{
  ℕ, ◌≡◌, refl, subst, inl, inr, String, Bool, true, false, not, some, List, [], ◌∷◌, ◌&&◌, arith,
  leb, Bool-cases, str_eq, if_intro, get_or, ok, >>=-ok, or_raise,
}
use pay_twin_os.Table.{All-find_row, find_row}
use pay_twin_os.Tenancy.{has_merchant_id}
use pay_twin_os.Executor.Rows.{
  ExecutionState, AuditAction, ActionExecution, World, unknown_merchant, not_awaiting, Deployment,
  put_execution, note, has_execution_id,
}
use pay_twin_os.Executor.Request.{awaits, approve_and_execute}
use pay_twin_os.Executor.Monitor.{
  is_active, is_retryable, halt_execution, retry, redispatch, unfaulted, exhausted, is_due,
  over_time, settle_links, settled_batch, links_of, any_link, any_open, monitor_execution,
  monitor_all,
}
use pay_twin_os.Executor.Ledger.{is_started, retry_limit, Accounted, Sound}
use pay_twin_os.Executor.Budget.{
  dispatch_row-Saved, kept, stopped-Accounted, written-Sound, >>-ok, halt_execution-Sound,
}

module _ (d : Deployment) (now : ℕ) (actor : String) where
  active_started : (s : ExecutionState) → is_active s ≡ true → is_started s ≡ true
  active_started s h = ground arith

  settle_links-Sound :
      (ex : ActionExecution) (w : World) (test : ActionExecution → Bool)
      → find_row test w.executions ≡ some ex
      → is_active ex.state ≡ true
      → Sound w
      → Sound (settle_links d now actor ex w).1
  unfolding settle_links
  settle_links-Sound ex w test found active h =
      let links = links_of ex.id w in
      let done = settled_batch d now actor links ex in
      if_intro (λ (r : ActionExecution × World). Sound r.1)
        (str_eq ex.connector "razorpay" && any_link links && not (any_open links))
        (written-Sound d now actor ex done done AuditAction.completed w w test found h refl refl
          refl refl refl
          (stopped-Accounted d now actor w.calls ex done refl refl refl refl refl
            (λ _. active_started ex.state active)))
        h

  redispatch-Sound :
      (ex : ActionExecution) (w : World) (test : ActionExecution → Bool)
      {r : ActionExecution × World}
      → find_row test w.executions ≡ some ex
      → is_retryable ex.state ≡ true
      → leb (retry_limit ex) (get_or ex.outcome.retry_count 0) ≡ false
      → Sound w
      → redispatch d now actor ex w ≡ ok r
      → Sound r.1
  unfolding redispatch
  redispatch-Sound ex w test {r} found due within h e =
      let a : Accounted w.calls ex =
        All-find_row (Accounted w.calls) test w.executions found h.rows in
      let (m, known, sent) =
        >>=-ok (or_raise (find_row (has_merchant_id ex.merchant_id) w.merchants) unknown_merchant) _
          e in
      let n = a.retries due in
      kept d now actor ex w r.1 r.0 test found h (
        dispatch_row-Saved d now actor (unfaulted d now actor ex) m w (a.approved (started due)) n
          (ground arith) sent)
    where
      started : is_retryable ex.state ≡ true → is_started ex.state ≡ true
      started h = ground arith

  retry-Sound :
      (ex : ActionExecution) (w : World) (test : ActionExecution → Bool)
      {r : ActionExecution × World}
      → find_row test w.executions ≡ some ex
      → is_retryable ex.state ≡ true
      → Sound w
      → retry d now actor ex w ≡ ok r
      → Sound r.1
  unfolding retry
  retry-Sound ex w test {r} found due h e =
      elim (Bool-cases (not (is_due d now actor ex.outcome.next_retry_at))) [
        | inl early ↦
            let p : (ex, w) ≡ r = ground arith in
            subst (λ (r : ActionExecution × World). Sound r.1) p h
        | inr late ↦ elim (Bool-cases (leb (retry_limit ex) (get_or ex.outcome.retry_count 0))) [
          | inl spent ↦
              let p : (
                exhausted d now actor ex,
                note AuditAction.stopped actor ex (put_execution (exhausted d now actor ex) w),
              )
                  ≡ r =
                ground arith in
              subst (λ (r : ActionExecution × World). Sound r.1) p
                (written-Sound d now actor ex _ ex AuditAction.stopped w w test found h refl refl
                  refl refl refl
                  (stopped-Accounted d now actor w.calls ex (exhausted d now actor ex) refl refl
                    refl refl refl (λ _. started due)))
          | inr within ↦ redispatch-Sound ex w test {r = r} found due within h (ground arith)
        ]
      ]
    where
      started : is_retryable ex.state ≡ true → is_started ex.state ≡ true
      started h = ground arith

  pub monitor_execution-Sound :
      (ex : ActionExecution) (w : World) (test : ActionExecution → Bool)
      {r : ActionExecution × World}
      → find_row test w.executions ≡ some ex
      → Sound w
      → monitor_execution d now actor ex w ≡ ok r
      → Sound r.1
  unfolding monitor_execution
  monitor_execution-Sound ex w test {r} found h e =
      let sound : (x : ActionExecution × World) → x ≡ r → Sound x.1 → Sound r.1 =
        λ x p. subst (λ (r : ActionExecution × World). Sound r.1) p in
      elim (Bool-cases (is_active ex.state)) [
        | inr idle ↦ sound (ex, w) (ground arith) h
        | inl active ↦ elim (Bool-cases (over_time d now actor ex)) [
          | inl over ↦
              sound (halt_execution d now actor ex "max_duration_exceeded" true false w)
                (ground arith)
                (halt_execution-Sound d now actor ex "max_duration_exceeded" true false w test found
                  h)
          | inr within ↦ elim (Bool-cases (is_retryable ex.state)) [
            | inl due ↦ retry-Sound ex w test {r = r} found due h (ground arith)
            | inr steady ↦
                let partial : Bool =
                  ex.outcome.partial_success
                  && get_or ex.params.stopping_rules.rollback_on_partial_success true in
                elim (Bool-cases partial) [
                  | inl undo ↦
                      sound (halt_execution d now actor ex "partial_provider_success" true true w)
                        (ground arith)
                        (halt_execution-Sound d now actor ex "partial_provider_success" true true w
                          test found h)
                  | inr whole ↦
                      sound (settle_links d now actor ex w) (ground arith)
                        (settle_links-Sound ex w test found active h)
                ]
          ]
        ]
      ]

  pub monitor_all-Sound :
      (ids : List ℕ) (w : World) {v : World}
      → Sound w
      → monitor_all d now actor ids w ≡ ok v
      → Sound v
  unfolding monitor_all
  monitor_all-Sound [] w {v} h e = let p : w ≡ v = ground arith in subst Sound p h
  monitor_all-Sound (id ∷ ids) w {v} h e =
      let (ex, found, e') =
        >>=-ok (or_raise (find_row (has_execution_id id) w.executions) not_awaiting) _ e in
      let ((y, u), seen, rest) = >>=-ok (monitor_execution d now actor ex w) _ e' in
      monitor_all-Sound ids u
        (monitor_execution-Sound ex w (has_execution_id id) (ground arith) h seen) rest

  -- An approval that no other session runs into.
  pub approve_and_execute-Sound :
      (id : ℕ) (w : World) {r : ActionExecution × World}
      → Sound w
      → approve_and_execute d now actor (λ v. v) id w ≡ ok r
      → Sound r.1
  unfolding approve_and_execute
  approve_and_execute-Sound id w {r} h e =
      let (ex, known, e') =
        >>=-ok (or_raise (find_row (has_execution_id id) w.executions) not_awaiting) _ e in
      let found : find_row (has_execution_id id) w.executions ≡ some ex = ground arith in
      let (waits, e'') = >>-ok (awaits ex.state) not_awaiting _ e' in
      let (m, ours, sent) =
        >>=-ok (or_raise (find_row (has_merchant_id ex.merchant_id) w.merchants) unknown_merchant) _
          e'' in
      let a : Accounted w.calls ex =
        All-find_row (Accounted w.calls) (has_execution_id id) w.executions found h.rows in
      let n = a.waiting waits in
      kept d now actor ex w r.1 r.0 (has_execution_id id) found h (
        dispatch_row-Saved d now actor (record ex { approved_by = some actor }) m w refl
          (omega (arith, n)) (omega (arith, n)) sent)
