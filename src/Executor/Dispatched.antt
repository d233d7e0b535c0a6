-- ===== src/Executor/Dispatched.antt =====
-- `_dispatch` and `_dispatch_local_payment_links` touch no row but their own
-- (services/api/paytwin_api/services/executor.py).
use pay_twin_os.Prelude.{
  ℕ, ◌≡◌, refl, inl, inr, String, Option, none, some, arith, get_or, or_text, Bool-cases, not, ◌&&◌,
  str_eq, >>=-ok, subst, Result, ok, err, ◌>>=◌,
}
use pay_twin_os.Tenancy.{Merchant}
use pay_twin_os.Executor.Rows.{
  ExecutionState, ActionExecution, World, Raised, refused, ActionConnector, Deployment, AuditAction,
  note,
}
use pay_twin_os.Executor.Links.{issue_links}
use pay_twin_os.Executor.Dispatch.{
  caught, dispatch_local, groups_of, is_local, monitored, execute, dispatch, give_up,
}
use pay_twin_os.Executor.Frame.{LinksOnly, issue_links-LinksOnly}
use pay_twin_os.Executor.Sent.{
  apart, Dispatched, given_up-Dispatched, caught-Dispatched, execute-Dispatched,
}

module _ (d : Deployment) (now : ℕ) (actor : String) where
  monitored-Dispatched :
      (ex : ActionExecution) (w v : World)
      → LinksOnly w v
      → Dispatched ex w (monitored d now actor ex) (note AuditAction.canary_started actor ex v)
  monitored-Dispatched ex w v k = record {
    executions = k.executions;
    merchants = k.merchants;
    next_id = k.next_id;
    id = refl;
    idempotency_key = refl;
    merchant_id = refl;
    approved_by = refl;
    stopping_rules = refl;
    attempted = refl;
    calls = inl k.calls;
    counted = apart;
  }

  dispatch_local-Dispatched :
      (ex : ActionExecution) (w : World) {ex' : ActionExecution} {w' : World}
      → dispatch_local d now actor ex w ≡ ok (ex', w')
      → Dispatched ex w ex' w'
  unfolding dispatch_local
  dispatch_local-Dispatched ex w {ex'} {w'} h =
      let groups = groups_of d now actor ex in
      let amount = get_or ex.params.avg_amount_paise 0 in
      let minutes = get_or ex.params.stopping_rules.max_duration_min 30 in
      let channel = or_text ex.params.channel "whatsapp" in
      let finish : World → Result Raised (ActionExecution × World) =
        λ v. ok (monitored d now actor ex, note AuditAction.canary_started actor ex v) in
      let h' : (issue_links d now ex amount minutes channel 1 groups w >>= finish) ≡ ok (ex', w') =
        ground arith in
      let (v, issued, rest) =
        >>=-ok (issue_links d now ex amount minutes channel 1 groups w) finish h' in
      let k : LinksOnly w v =
        issue_links-LinksOnly d now ex amount minutes channel 1 groups w issued in
      let p : (monitored d now actor ex, note AuditAction.canary_started actor ex v) ≡ (ex', w') =
        ground arith in
      subst (λ (r : ActionExecution × World). Dispatched ex w r.0 r.1) p
        (monitored-Dispatched ex w v k)

  local-Dispatched :
      (ex : ActionExecution) (w : World) (x : Result Raised (ActionExecution × World))
      {ex' : ActionExecution} {w' : World}
      → ((r : ActionExecution × World) → x ≡ ok r → Dispatched ex w r.0 r.1)
      → caught d now actor ex w x ≡ ok (ex', w')
      → Dispatched ex w ex' w'
  unfolding caught
  local-Dispatched ex w (ok r) {ex'} {w'} k h = k (ex', w') h
  local-Dispatched ex w (err raised) k h =
      caught-Dispatched d now actor ex w w raised refl refl (omega arith) (inl refl) h

  connected-Dispatched :
      (ex : ActionExecution) (merchant : Merchant) (w : World) (o : Option ActionConnector)
      {ex' : ActionExecution} {w' : World}
      → (elim o as (λ _. Result Raised (ActionExecution × World)) [
        | none ↦ err refused
        | some c ↦ execute d now actor c merchant (record ex { state = ExecutionState.executing }) w
      ])
        ≡ ok (ex', w')
      → Dispatched ex w ex' w'
  connected-Dispatched ex merchant w none h = absurd (cc)
  connected-Dispatched ex merchant w (some c) {ex'} {w'} h =
      let k : Dispatched (record ex { state = ExecutionState.executing }) w ex' w' =
        execute-Dispatched d now actor c merchant (record ex { state = ExecutionState.executing }) w
          h in
      record {
        executions = k.executions;
        merchants = k.merchants;
        next_id = k.next_id;
        id = k.id;
        idempotency_key = k.idempotency_key;
        merchant_id = k.merchant_id;
        approved_by = k.approved_by;
        stopping_rules = k.stopping_rules;
        attempted = k.attempted;
        calls = k.calls;
        counted = k.counted;
      }

  -- Whatever a dispatch does, it touches no row but its own.
  pub dispatch-Dispatched :
      (ex : ActionExecution) (merchant : Merchant) (w : World) {ex' : ActionExecution} {w' : World}
      → dispatch d now actor ex merchant w ≡ ok (ex', w')
      → Dispatched ex w ex' w'
  unfolding dispatch
  dispatch-Dispatched ex merchant w {ex'} {w'} h = elim (Bool-cases (is_local d now actor ex)) [
    | inl local ↦
        local-Dispatched ex w (dispatch_local d now actor ex w)
          (λ r e. dispatch_local-Dispatched ex w e) (ground arith)
    | inr remote ↦
        elim (Bool-cases (not (str_eq ex.connector "simulator") && not d.allow_real_execution)) [
          | inl disabled ↦
              let p : (give_up d now actor ex, note AuditAction.action_failed actor ex w)
                  ≡ (ex', w') =
                ground arith in
              subst (λ (r : ActionExecution × World). Dispatched ex w r.0 r.1) p
                (given_up-Dispatched d now actor ex w w refl refl (omega arith) (inl refl))
          | inr enabled ↦
              connected-Dispatched ex merchant w (d.get_connector ex.connector) (ground arith)
        ]
  ]
