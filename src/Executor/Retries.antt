-- ===== src/Executor/Retries.antt =====
-- The retries of an execution come to an end (`monitor_execution`,
-- services/api/paytwin_api/services/executor.py).
use pay_twin_os.Prelude.{
  ℕ, ◌+◌, ◌-◌, ◌≤◌, ◌≡◌, refl, ap, subst, ◌⊎◌, inl, inr, String, Bool, true, false, not, Option,
  List, [], ◌∷◌, ◌&&◌, arith, leb, length, Bool-cases, str_eq, if_intro, if_split, get_or, Result,
  ok, ◌>>=◌, >>=-ok, or_raise,
}
use pay_twin_os.Table.{find_row}
use pay_twin_os.Tenancy.{has_merchant_id}
use pay_twin_os.Executor.Rows.{
  ExecutionState, AuditAction, ActionExecution, World, Raised, unknown_merchant, Deployment, note,
  put_execution,
}
use pay_twin_os.Executor.Links.{cancel_open_payment_links}
use pay_twin_os.Executor.Dispatch.{dispatch, dispatch_row}
use pay_twin_os.Executor.Monitor.{
  is_active, is_retryable, is_terminal, halt_execution, retry, redispatch, unfaulted, exhausted,
  is_due, over_time, settle_links, any_link, any_open, links_of, monitor_execution,
}
use pay_twin_os.Executor.Dispatched.{dispatch-Dispatched}
use pay_twin_os.Executor.Sent.{Dispatched}
use pay_twin_os.Executor.Ledger.{retry_limit}

abbrev pub retry_count : ActionExecution → ℕ
retry_count ex = get_or ex.outcome.retry_count 0

-- The execution has left the state of retries, or has used one of those that its limit allows.
abbrev Progress : ActionExecution → ActionExecution → Type 0
Progress ex ex' =
    (is_retryable ex'.state ≡ false)
    ⊎ ((retry_count ex' ≡ retry_count ex + 1)
        × (retry_count ex + 1 ≤ retry_limit ex)
        × (retry_limit ex' ≡ retry_limit ex))

terminal_calm : (s : ExecutionState) → is_terminal s ≡ true → is_retryable s ≡ false
terminal_calm s h = ground arith

module _ (d : Deployment) (actor : String) where
  module _ (now : ℕ) where
    halt_execution-calm :
        (ex : ActionExecution) (reason : String) (automatic rollback : Bool) (w : World)
        → is_retryable (halt_execution d now actor ex reason automatic rollback w).0.state ≡ false
    unfolding halt_execution cancel_open_payment_links
    halt_execution-calm ex reason automatic rollback w =
        if_split (λ (r : ActionExecution × World). is_retryable r.0.state ≡ false)
          (is_terminal ex.state) (terminal_calm ex.state)
          (λ _. if_intro (λ s. is_retryable s ≡ false) rollback refl refl)

    redispatch-Progress :
        (ex : ActionExecution) (w : World) {r : ActionExecution × World}
        → leb (retry_limit ex) (retry_count ex) ≡ false
        → redispatch d now actor ex w ≡ ok r
        → Progress ex r.0
    unfolding redispatch dispatch_row
    redispatch-Progress ex w {r} within e =
        let (m, known, sent) =
          >>=-ok (or_raise (find_row (has_merchant_id ex.merchant_id) w.merchants) unknown_merchant)
            _ e in
        let ((y, v), went, rest) =
          >>=-ok (dispatch d now actor (unfaulted d now actor ex) m w) _ sent in
        let k : Dispatched (unfaulted d now actor ex) w y v =
          dispatch-Dispatched d now actor (unfaulted d now actor ex) m w went in
        let p : (y, put_execution y v) ≡ r = ground arith in
        subst (λ (r : ActionExecution × World). Progress ex r.0) p
          (elim (Bool-cases (is_retryable y.state)) [
            | inr calm ↦ inl calm
            | inl again ↦ inr (
              ap (λ (o : Option ℕ). get_or o 0) (k.counted again),
              (ground arith),
              ap (λ x. get_or x 2) (ap (λ x. x.max_provider_retries) k.stopping_rules),
            )
          ])

    -- A pass over a retryable execution whose time has come.
    monitor_execution-Progress :
        (ex : ActionExecution) (w : World) {r : ActionExecution × World}
        → is_retryable ex.state ≡ true
        → is_due d now actor ex.outcome.next_retry_at ≡ true
        → monitor_execution d now actor ex w ≡ ok r
        → Progress ex r.0
    unfolding monitor_execution retry
    monitor_execution-Progress ex w {r} retryable due e =
        let progress : (x : ActionExecution × World) → x ≡ r → Progress ex x.0 → Progress ex r.0 =
          λ x p. subst (λ (r : ActionExecution × World). Progress ex r.0) p in
        let active : is_active ex.state ≡ true = ground arith in
        elim (Bool-cases (over_time d now actor ex)) [
          | inl over ↦
              progress (halt_execution d now actor ex "max_duration_exceeded" true false w)
                (ground arith) (inl (halt_execution-calm ex "max_duration_exceeded" true false w))
          | inr within ↦ elim (Bool-cases (leb (retry_limit ex) (retry_count ex))) [
            | inl spent ↦
                progress
                  (
                    exhausted d now actor ex,
                    note AuditAction.stopped actor ex (put_execution (exhausted d now actor ex) w),
                  )
                  (ground arith) (inl refl)
            | inr left ↦ redispatch-Progress ex w {r = r} left (ground arith)
          ]
        ]

    monitor_execution-calm :
        (ex : ActionExecution) (w : World) {r : ActionExecution × World}
        → is_retryable ex.state ≡ false
        → monitor_execution d now actor ex w ≡ ok r
        → is_retryable r.0.state ≡ false
    unfolding monitor_execution settle_links
    monitor_execution-calm ex w {r} calm e =
        let stays : (x : ActionExecution × World)
            → x ≡ r
            → is_retryable x.0.state ≡ false
            → is_retryable r.0.state ≡ false =
          λ x p. subst (λ (r : ActionExecution × World). is_retryable r.0.state ≡ false) p in
        elim (Bool-cases (is_active ex.state)) [
          | inr idle ↦ stays (ex, w) (ground arith) calm
          | inl active ↦ elim (Bool-cases (over_time d now actor ex)) [
            | inl over ↦
                stays (halt_execution d now actor ex "max_duration_exceeded" true false w)
                  (ground arith) (halt_execution-calm ex "max_duration_exceeded" true false w)
            | inr within ↦
                elim (Bool-cases (
                  ex.outcome.partial_success
                  && get_or ex.params.stopping_rules.rollback_on_partial_success true)) [
                    | inl undo ↦
                        stays (halt_execution d now actor ex "partial_provider_success" true true w)
                          (ground arith)
                          (halt_execution-calm ex "partial_provider_success" true true w)
                    | inr whole ↦ stays (settle_links d now actor ex w) (ground arith) (
                        if_intro (λ (r : ActionExecution × World). is_retryable r.0.state ≡ false)
                          (str_eq ex.connector "razorpay"
                            && any_link (links_of ex.id w)
                            && not (any_open (links_of ex.id w)))
                          refl calm)
                  ]
          ]
        ]

  -- The passes of the worker over one execution, at the given instants.
  unfoldable pub follow_up :
      List ℕ → ActionExecution → World → Result Raised (ActionExecution × World)
  follow_up [] ex w = ok (ex, w)
  follow_up (now ∷ nows) ex w = do
    (ex', w') ← monitor_execution d now actor ex w
    follow_up nows ex' w'

  -- Each pass over a retryable execution comes when its retry is due.
  abbrev pub Timely : List ℕ → ActionExecution → World → Type 0
  Timely [] ex w = Unit
  Timely (now ∷ nows) ex w =
      (is_retryable ex.state ≡ true → is_due d now actor ex.outcome.next_retry_at ≡ true)
      × ((r : ActionExecution × World)
          → monitor_execution d now actor ex w ≡ ok r
          → Timely nows r.0 r.1)

  follow_up-calm :
      (nows : List ℕ) (ex : ActionExecution) (w : World) {r : ActionExecution × World}
      → is_retryable ex.state ≡ false
      → follow_up nows ex w ≡ ok r
      → is_retryable r.0.state ≡ false
  unfolding follow_up
  follow_up-calm [] ex w {r} calm e =
      let p : (ex, w) ≡ r = ground arith in
      subst (λ (r : ActionExecution × World). is_retryable r.0.state ≡ false) p calm
  follow_up-calm (now ∷ nows) ex w {r} calm e =
      let ((y, v), seen, rest) = >>=-ok (monitor_execution d now actor ex w) _ e in
      follow_up-calm nows y v {r = r} (monitor_execution-calm now ex w calm seen) rest

  -- Whatever the providers answer, an execution is no longer to be retried after one pass more than
  -- the retries its limit leaves it, where each pass comes when a retry is due and none raises.
  pub follow_up-settles :
      (nows : List ℕ) (ex : ActionExecution) (w : World) {r : ActionExecution × World}
      → retry_limit ex - retry_count ex + 1 ≤ length nows
      → Timely nows ex w
      → follow_up nows ex w ≡ ok r
      → is_retryable r.0.state ≡ false
  unfolding follow_up
  follow_up-settles [] ex w enough timely e = absurd (omega arith)
  follow_up-settles (now ∷ nows) ex w {r} enough timely e =
      let ((y, v), seen, rest) = >>=-ok (monitor_execution d now actor ex w) _ e in
      elim (Bool-cases (is_retryable ex.state)) [
        | inr calm ↦
            follow_up-calm nows y v {r = r} (monitor_execution-calm now ex w calm seen) rest
        | inl retryable ↦
            elim (monitor_execution-Progress now ex w retryable (timely.0 retryable) seen) [
              | inl calm ↦ follow_up-calm nows y v {r = r} calm rest
              | inr (used, left, same) ↦
                  follow_up-settles nows y v {r = r} (omega (arith, enough, used, left, same))
                    (timely.1 (y, v) seen) rest
            ]
      ]
