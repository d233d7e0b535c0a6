-- ===== src/Executor/Budget.antt =====
-- The executor over whole histories (services/api/paytwin_api/services/executor.py): requests,
-- approvals, halts and monitoring in any order. An operation that raises is rolled back.
use pay_twin_os.Prelude.{
  ℕ, ◌+◌, ◌≤◌, ◌≡◌, refl, sym, ap, ◌∙◌, subst, ◌⊎◌, inl, inr, String, Bool, true, false, not, some,
  List, [], ◌∷◌, ◌++◌, arith, str_eq, if◌then◌else◌, if_intro, get_or, is_some, Result, ok, ◌>>◌,
  >>=-ok, raise_if,
}
use pay_twin_os.Table.{All-find_row, find_row, put_row}
use pay_twin_os.Tenancy.{Merchant}
use pay_twin_os.Executor.Rows.{
  ExecutionState, AuditAction, ActionExecution, World, Raised, Deployment, put_execution, note,
}
use pay_twin_os.Executor.Links.{cancel_open_payment_links}
use pay_twin_os.Executor.Dispatch.{dispatch, dispatch_row}
use pay_twin_os.Executor.Request.{awaits}
use pay_twin_os.Executor.Monitor.{
  is_retryable, is_terminal, halt_execution, halted_state, halted_note, append_stop,
}
use pay_twin_os.Executor.Dispatched.{dispatch-Dispatched}
use pay_twin_os.Executor.Sent.{apart, is_attempted, Dispatched}
use pay_twin_os.Executor.Ledger.{
  is_started, calls_of, calls_of-same, retry_limit, id_of, Accounted, Sound, Saved, Saved-Sound,
}

at_most_one :
    (key : String) (cs cs' : List String)
    → (cs' ≡ cs) ⊎ (cs' ≡ cs ++ key ∷ [])
    → calls_of key cs' ≤ calls_of key cs + 1
at_most_one key cs cs' (inl e) = rw e (omega arith)
at_most_one key cs cs' (inr e) = rw e (omega (arith, calls_of-same key cs))

awaits_no_attempt : (s : ExecutionState) → is_attempted s ≡ true → awaits s ≡ false
awaits_no_attempt s h = ground arith

-- A body goes on behind its guard.
pub >>-ok :
    {B : Type 0} (b : Bool) (raised : Raised) (rest : Result Raised B) {result : B}
    → (raise_if (not b) raised >> rest) ≡ ok result
    → (b ≡ true) × (rest ≡ ok result)
>>-ok true raised rest h = (refl, h)
>>-ok false raised rest h = absurd (cc)

module _ (d : Deployment) (now : ℕ) (actor : String) where
  -- A dispatch of an approved row, within its budget.
  Dispatched-Accounted :
      (ex : ActionExecution) (w : World) {ex' : ActionExecution} {w' : World}
      → is_some ex.approved_by ≡ true
      → calls_of ex.idempotency_key w.calls ≤ get_or ex.outcome.retry_count 0
      → calls_of ex.idempotency_key w.calls ≤ retry_limit ex
      → Dispatched ex w ex' w'
      → Accounted w'.calls ex'
  Dispatched-Accounted ex w {ex'} {w'} approved retries budget k =
      let count : calls_of ex'.idempotency_key w'.calls ≤ calls_of ex.idempotency_key w.calls + 1 =
        rw k.idempotency_key (at_most_one ex.idempotency_key w.calls w'.calls k.calls) in
      let has : is_some ex'.approved_by ≡ true = ap is_some k.approved_by ∙ approved in
      record {
        approved = λ _. has;
        unapproved = λ e. absurd (cc (has, e));
        waiting = λ e. absurd (cc (awaits_no_attempt ex'.state k.attempted, e));
        budget = rw k.stopping_rules (omega arith);
        retries = λ e. rw (k.counted e) (omega arith);
      }

  pub dispatch_row-Saved :
      (ex : ActionExecution) (m : Merchant) (w : World) {ex' : ActionExecution} {w' : World}
      → is_some ex.approved_by ≡ true
      → calls_of ex.idempotency_key w.calls ≤ get_or ex.outcome.retry_count 0
      → calls_of ex.idempotency_key w.calls ≤ retry_limit ex
      → dispatch_row d now actor ex m w ≡ ok (ex', w')
      → Saved ex.id ex.idempotency_key w ex' w'
  unfolding dispatch_row
  dispatch_row-Saved ex m w {ex'} {w'} approved retries budget h =
      let ((y, v), sent, rest) = >>=-ok (dispatch d now actor ex m w) _ h in
      let k : Dispatched ex w y v = dispatch-Dispatched d now actor ex m w sent in
      let p : (y, put_execution y v) ≡ (ex', w') = ground arith in
      subst (λ (r : ActionExecution × World). Saved ex.id ex.idempotency_key w r.0 r.1) p
        (record {
          executions = ap (put_row id_of y) k.executions;
          next_id = k.next_id;
          same_id = k.id;
          same_key = k.idempotency_key;
          calls = k.calls;
          accounted = Dispatched-Accounted ex w approved retries budget k;
        })

  -- An operation on the row that a query found.
  pub kept :
      (ex : ActionExecution) (w v : World) (ex' : ActionExecution) (test : ActionExecution → Bool)
      → find_row test w.executions ≡ some ex
      → Sound w
      → Saved ex.id ex.idempotency_key w ex' v
      → Sound v
  kept ex w v ex' test found h saved = Saved-Sound ex w ex' v saved test found h

  pub stopped-Accounted :
      (cs : List String) (ex ex' : ActionExecution)
      → awaits ex'.state ≡ false
      → is_retryable ex'.state ≡ false
      → ex'.idempotency_key ≡ ex.idempotency_key
      → ex'.approved_by ≡ ex.approved_by
      → ex'.params ≡ ex.params
      → (is_started ex'.state ≡ true → is_started ex.state ≡ true)
      → Accounted cs ex
      → Accounted cs ex'
  stopped-Accounted cs ex ex' waits retries k a p was h = record {
    approved = λ e. ap is_some a ∙ h.approved (was e);
    unapproved = λ e. rw k (h.unapproved (sym (ap is_some a) ∙ e));
    waiting = λ e. absurd (cc (waits, e));
    budget = rw (k, p) h.budget;
    retries = λ e. absurd (cc (retries, e));
  }

  -- A row is written back with no call, over links that may be cancelled.
  pub written-Sound :
      (ex ex' told : ActionExecution) (action : AuditAction) (w u : World)
      (test : ActionExecution → Bool)
      → find_row test w.executions ≡ some ex
      → Sound w
      → u.executions ≡ w.executions
      → u.next_id ≡ w.next_id
      → u.calls ≡ w.calls
      → ex'.id ≡ ex.id
      → ex'.idempotency_key ≡ ex.idempotency_key
      → (Accounted w.calls ex → Accounted w.calls ex')
      → Sound (note action actor told (put_execution ex' u))
  written-Sound ex ex' told action w u test found h rows next calls same_id same_key keep =
      kept ex w (note action actor told (put_execution ex' u)) ex' test found h (record {
        executions = ap (put_row id_of ex') rows;
        next_id = omega (arith, next);
        same_id = same_id;
        same_key = same_key;
        calls = inl calls;
        accounted =
            subst (λ cs. Accounted cs ex') (sym calls)
              (keep (All-find_row (Accounted w.calls) test w.executions found h.rows));
      })

  pub halt_execution-Sound :
      (ex : ActionExecution) (reason : String) (automatic rollback : Bool) (w : World)
      (test : ActionExecution → Bool)
      → find_row test w.executions ≡ some ex
      → Sound w
      → Sound (halt_execution d now actor ex reason automatic rollback w).1
  unfolding halt_execution cancel_open_payment_links
  halt_execution-Sound ex reason automatic rollback w test found h =
      let cancelled = (cancel_open_payment_links ex.id reason w).1 in
      let stopped =
        append_stop now reason automatic (record ex { state = halted_state rollback }) in
      let by_link : Bool = str_eq ex.connector "razorpay" in
      if_intro (λ (r : ActionExecution × World). Sound r.1) (is_terminal ex.state) h
        (written-Sound ex stopped stopped (halted_note rollback) w
          (if by_link then cancelled else w) test found h
          (if_intro (λ (u : World). u.executions ≡ w.executions) by_link refl refl)
          (if_intro (λ (u : World). u.next_id ≡ w.next_id) by_link refl refl)
          (if_intro (λ (u : World). u.calls ≡ w.calls) by_link refl refl) refl refl
          (stopped-Accounted w.calls ex stopped
            (if_intro (λ s. awaits s ≡ false) rollback refl refl)
            (if_intro (λ s. is_retryable s ≡ false) rollback refl refl) refl refl refl
            (if_intro (λ s. is_started s ≡ true → is_started ex.state ≡ true) rollback apart
              apart)))
