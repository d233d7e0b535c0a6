-- ===== src/Executor/Sent.antt =====
-- What a dispatch leaves alone (services/api/paytwin_api/services/executor.py): the table of the
-- executions, and of the dispatched row what identifies it.
use pay_twin_os.Prelude.{
  ℕ, ◌+◌, ◌≤◌, ◌≡◌, refl, ◌⊎◌, inl, inr, String, Bool, true, false, Option, none, some, [], ◌∷◌,
  ◌++◌, arith, if_intro, get_or, subst, Result, ok, err,
}
use pay_twin_os.Tenancy.{Merchant}
use pay_twin_os.Policy.Decision.{ActionKind}
use pay_twin_os.Executor.Rows.{
  ExecutionState, Params, Outcome, ActionExecution, World, Raised, retryable, refused, local_error,
  not_awaiting, unknown_merchant, ActionConnector, Deployment, AuditAction, note,
}
use pay_twin_os.Executor.Dispatch.{
  performed_note, caught, resolve_connector_secret, admit, answered, execute, called, retry_later,
  give_up, performed, with_fault,
}
use pay_twin_os.Executor.Monitor.{is_retryable}

pub apart : {A : Type 0} → false ≡ true → A
apart h = absurd (cc)

-- The states that a dispatch leaves.
abbrev pub is_attempted : ExecutionState → Bool
is_attempted ExecutionState.monitoring = true
is_attempted ExecutionState.succeeded = true
is_attempted ExecutionState.failed_retryable = true
is_attempted ExecutionState.failed_final = true
is_attempted _ = false

-- At most one call, under the key of the execution, no other row touched, and a transient counted.
pub record Dispatched (ex : ActionExecution) (w : World) (ex' : ActionExecution) (w' : World)
    : Type 0 where
  pub executions : w'.executions ≡ w.executions
  pub merchants : w'.merchants ≡ w.merchants
  pub next_id : w.next_id ≤ w'.next_id
  pub id : ex'.id ≡ ex.id
  pub idempotency_key : ex'.idempotency_key ≡ ex.idempotency_key
  pub merchant_id : ex'.merchant_id ≡ ex.merchant_id
  pub approved_by : ex'.approved_by ≡ ex.approved_by
  pub stopping_rules : ex'.params.stopping_rules ≡ ex.params.stopping_rules
  pub attempted : is_attempted ex'.state ≡ true
  pub calls : (w'.calls ≡ w.calls) ⊎ (w'.calls ≡ w.calls ++ ex.idempotency_key ∷ [])
  pub counted :
      is_retryable ex'.state ≡ true
      → ex'.outcome.retry_count ≡ some (get_or ex.outcome.retry_count 0 + 1)

module _ (d : Deployment) (now : ℕ) (actor : String) where
  pub given_up-Dispatched :
      (ex : ActionExecution) (w v : World)
      → v.executions ≡ w.executions
      → v.merchants ≡ w.merchants
      → w.next_id ≤ v.next_id
      → (v.calls ≡ w.calls) ⊎ (v.calls ≡ w.calls ++ ex.idempotency_key ∷ [])
      → Dispatched ex w (give_up d now actor ex) (note AuditAction.action_failed actor ex v)
  given_up-Dispatched ex w v same_rows same_merchants later calls = record {
    executions = same_rows;
    merchants = same_merchants;
    next_id = later;
    id = refl;
    idempotency_key = refl;
    merchant_id = refl;
    approved_by = refl;
    stopping_rules = refl;
    attempted = refl;
    calls = calls;
    counted = apart;
  }

  pub caught-Dispatched :
      (ex : ActionExecution) (w v : World) (raised : Raised) {ex' : ActionExecution} {w' : World}
      → v.executions ≡ w.executions
      → v.merchants ≡ w.merchants
      → w.next_id ≤ v.next_id
      → (v.calls ≡ w.calls) ⊎ (v.calls ≡ w.calls ++ ex.idempotency_key ∷ [])
      → caught d now actor ex v (err raised) ≡ ok (ex', w')
      → Dispatched ex w ex' w'
  unfolding caught
  caught-Dispatched ex w v (retryable mode) {ex'} {w'} same_rows same_merchants later calls h =
      let p : (retry_later d now actor ex, note AuditAction.retry_scheduled actor ex v)
          ≡ (ex', w') =
        ground arith in
      subst (λ (r : ActionExecution × World). Dispatched ex w r.0 r.1) p
        (record {
          executions = same_rows;
          merchants = same_merchants;
          next_id = later;
          id = refl;
          idempotency_key = refl;
          merchant_id = refl;
          approved_by = refl;
          stopping_rules = refl;
          attempted = refl;
          calls = calls;
          counted = λ _. refl;
        })
  caught-Dispatched ex w v refused {ex'} {w'} same_rows same_merchants later calls h =
      let p : (give_up d now actor ex, note AuditAction.action_failed actor ex v) ≡ (ex', w') =
        ground arith in
      subst (λ (r : ActionExecution × World). Dispatched ex w r.0 r.1) p
        (given_up-Dispatched ex w v same_rows same_merchants later calls)
  caught-Dispatched ex w v local_error a b l c h = absurd (ground arith)
  caught-Dispatched ex w v not_awaiting a b l c h = absurd (ground arith)
  caught-Dispatched ex w v unknown_merchant a b l c h = absurd (ground arith)

  performed-Dispatched :
      (ex : ActionExecution) (w : World) (o : Outcome)
      → Dispatched ex w
          (performed d now actor ex o)
          (performed_note d now actor ex o (called d now actor ex w))
  performed-Dispatched ex w o = record {
    executions = refl;
    merchants = refl;
    next_id = omega arith;
    id = refl;
    idempotency_key = refl;
    merchant_id = refl;
    approved_by = refl;
    stopping_rules = refl;
    calls = inr refl;
    attempted = if_intro (λ s. is_attempted s ≡ true) o.partial_success refl refl;
    counted =
        if_intro
          (λ s. is_retryable s ≡ true → o.retry_count ≡ some (get_or ex.outcome.retry_count 0 + 1))
          o.partial_success (apart) (apart);
  }

  answered-Dispatched :
      (ex : ActionExecution) (w : World) (r : Result Raised Outcome) {ex' : ActionExecution}
      {w' : World}
      → answered d now actor ex (called d now actor ex w) r ≡ ok (ex', w')
      → Dispatched ex w ex' w'
  unfolding answered
  answered-Dispatched ex w (err raised) h =
      caught-Dispatched ex w (called d now actor ex w) raised refl refl (omega arith) (inr refl) h
  answered-Dispatched ex w (ok answer) {ex'} {w'} h =
      let o = with_fault d now actor ex.params.failure_mode answer in
      let p : (
        performed d now actor ex o,
        performed_note d now actor ex o (called d now actor ex w),
      )
          ≡ (ex', w') =
        ground arith in
      subst (λ (r : ActionExecution × World). Dispatched ex w r.0 r.1) p
        (performed-Dispatched ex w o)

  pub execute-Dispatched :
      (c : ActionConnector) (merchant : Merchant) (ex : ActionExecution) (w : World)
      {ex' : ActionExecution} {w' : World}
      → execute d now actor c merchant ex w ≡ ok (ex', w')
      → Dispatched ex w ex' w'
  unfolding execute
  execute-Dispatched c merchant ex w {ex'} {w'} h =
      with_secret (resolve_connector_secret d now actor ex merchant w) h
    where
      with_answer :
          (secret : String)
          (r : Result Raised (ActionKind → Params → String → String → Result Raised Outcome))
          → (elim r [
            | err raised ↦ caught d now actor ex w (err raised)
            | ok perform ↦
                answered d now actor ex
                  (called d now actor ex w)
                  (perform ex.kind ex.params ex.idempotency_key secret)
          ])
            ≡ ok (ex', w')
          → Dispatched ex w ex' w'
      with_answer secret (err raised) h =
          caught-Dispatched ex w w raised refl refl (omega arith) (inl refl) h
      with_answer secret (ok perform) h =
          answered-Dispatched ex w (perform ex.kind ex.params ex.idempotency_key secret) h

      with_secret :
          (o : Option String)
          → (elim o [
            | none ↦ caught d now actor ex w (err refused)
            | some secret ↦ elim (admit d now actor c ex.kind ex.params) [
              | err raised ↦ caught d now actor ex w (err raised)
              | ok perform ↦
                  answered d now actor ex
                    (called d now actor ex w)
                    (perform ex.kind ex.params ex.idempotency_key secret)
            ]
          ])
            ≡ ok (ex', w')
          → Dispatched ex w ex' w'
      with_secret none h = caught-Dispatched ex w w refused refl refl (omega arith) (inl refl) h
      with_secret (some secret) h = with_answer secret (admit d now actor c ex.kind ex.params) h
