-- ===== src/Executor/Requested.antt =====
-- `request_execution` on sound accounts (services/api/paytwin_api/services/executor.py).
use pay_twin_os.Prelude.{
  ℕ, ◌+◌, ◌<◌, ◌≡◌, refl, sym, ap, ◌∙◌, subst, ◌≢◌, inl, inr, String, false, not, Option, none,
  some, List, [], ◌∷◌, ◌++◌, ◌&&◌, arith, map, All, All-snoc, map-snoc, Bool-cases, eq_iff,
  Option-cases, is_some, given, get_or, ok,
}
use pay_twin_os.Table.{find_row, find_row-append, find_row-test}
use pay_twin_os.Table.Keys.{HasKeys, HasKeys-snoc, map-append_one}
use pay_twin_os.Reliability.Dicts.{NoRepeat, NoRepeat-snoc}
use pay_twin_os.Tenancy.{Merchant}
use pay_twin_os.Policy.Decision.{PolicyResult}
use pay_twin_os.Executor.Rows.{
  ExecutionState, AuditAction, Candidate, ActionExecution, World, Deployment, has_execution_id,
}
use pay_twin_os.Executor.Request.{
  has_key, judge, is_block, is_require_approval, new_execution, insert_execution, park, follow,
  insert_and_follow, key_of, request_execution,
}
use pay_twin_os.Executor.Monitor.{is_retryable}
use pay_twin_os.Executor.Ledger.{
  is_started, calls_of, id_of, key_in, Accounted, Sound, absent_key, Saved, Saved-Sound, Saved-keys,
}
use pay_twin_os.Executor.Budget.{dispatch_row-Saved}

-- A row that is nobody's yet.
record Fresh (w : World) (ex : ActionExecution) : Type 0 where
  id : ex.id ≡ w.next_id
  state : ex.state ≡ ExecutionState.created
  approved_by : ex.approved_by ≡ none
  absent : All (λ j. j ≢ ex.idempotency_key) (map key_in w.executions)

no_row :
    (n : ℕ) (rs : List ActionExecution)
    → All (λ k. k < n) (map id_of rs)
    → find_row (has_execution_id n) rs ≡ none
no_row n [] a = refl
no_row n (r ∷ rs) a = ground (arith, a.0, no_row n rs a.1)

All-front :
    (k : String) (j : String) (ks : List String)
    → All (λ i. i ≢ k) (ks ++ j ∷ [])
    → All (λ i. i ≢ k) ks
All-front k j [] a = tt
All-front k j (i ∷ ks) a = (a.0, All-front k j ks a.1)

module _ (d : Deployment) (now : ℕ) (actor : String) where
  module _ (ex : ActionExecution) (result : PolicyResult) (w : World) (f : Fresh w ex)
      (h : Sound w) where
    uncalled : calls_of ex.idempotency_key w.calls ≡ 0
    uncalled = h.orphans ex.idempotency_key f.absent

    found : find_row (has_execution_id ex.id) (w.executions ++ ex ∷ []) ≡ some ex
    found =
        find_row-append (has_execution_id ex.id) ex w.executions
          (no_row ex.id w.executions
            (subst (λ n. All (λ k. k < n) (map id_of w.executions)) (sym f.id) h.ids.1))
          (ground arith)

    insert_execution-Sound : Sound (insert_execution d now actor ex result w)
    insert_execution-Sound =
        let ids_grow : map id_of (w.executions ++ ex ∷ []) ≡ map id_of w.executions ++ ex.id ∷ [] =
          map-append_one id_of ex w.executions in
        let keys_grow : map key_in (w.executions ++ ex ∷ [])
            ≡ map key_in w.executions ++ ex.idempotency_key ∷ [] =
          map-snoc key_in w.executions ex in
        record {
          ids =
              subst (HasKeys (w.next_id + 1))
                (ap (λ n. map id_of w.executions ++ n ∷ []) (sym f.id) ∙ sym ids_grow)
                (HasKeys-snoc w.next_id (map id_of w.executions) h.ids);
          keys =
              subst NoRepeat (sym keys_grow)
                (NoRepeat-snoc ex.idempotency_key (map key_in w.executions) f.absent h.keys);
          rows =
              All-snoc (Accounted w.calls) ex w.executions
                (record {
                  approved = λ e. absurd (cc (f.state, e));
                  unapproved = λ _. uncalled;
                  waiting = λ _. uncalled;
                  budget = omega (arith, uncalled);
                  retries = λ _. omega (arith, uncalled);
                })
                h.rows;
          orphans = λ k a. h.orphans k (
              All-front k ex.idempotency_key (map key_in w.executions)
                (subst (All (λ j. j ≢ k)) keys_grow a));
        }

    abbrev inserted : World
    inserted = insert_execution d now actor ex result w

    -- Sound accounts, with the keys as they were and the new one.
    abbrev Follows : World → Type 0
    Follows v =
        Sound v × (map key_in v.executions ≡ map key_in w.executions ++ ex.idempotency_key ∷ [])

    Saved-Follows :
        (ex' : ActionExecution) (v : World)
        → Saved ex.id ex.idempotency_key inserted ex' v
        → Follows v
    Saved-Follows ex' v saved = (
      Saved-Sound ex inserted ex' v saved (has_execution_id ex.id) found insert_execution-Sound,
      Saved-keys ex inserted ex' v saved (has_execution_id ex.id) found insert_execution-Sound
          ∙ map-snoc key_in w.executions ex,
    )

    parked-Follows :
        (state : ExecutionState) (action : AuditAction)
        → is_started state ≡ false
        → is_retryable state ≡ false
        → Follows (park d now actor state action ex inserted).1
    unfolding park
    parked-Follows state action idle calm =
        Saved-Follows (record ex { state = state }) (park d now actor state action ex inserted).1
          (record {
            executions = refl;
            next_id = omega arith;
            same_id = refl;
            same_key = refl;
            calls = inl refl;
            accounted = record {
              approved = λ e. absurd (cc (idle, e));
              unapproved = λ _. uncalled;
              waiting = λ _. uncalled;
              budget = omega (arith, uncalled);
              retries = λ _. omega (arith, uncalled);
            };
          })

    follow-Follows :
        (m : Merchant) (approved_by : Option String) {r : ActionExecution × World}
        → follow d now actor ex result m approved_by inserted ≡ ok r
        → Follows r.1
    unfolding follow
    follow-Follows m approved_by {r} e =
        let sound : (x : ActionExecution × World) → x ≡ r → Follows x.1 → Follows r.1 =
          λ x p. subst (λ (r : ActionExecution × World). Follows r.1) p in
        elim (Bool-cases (is_block result.decision)) [
          | inl blocked ↦
              sound
                (park d now actor ExecutionState.rejected_by_policy AuditAction.action_blocked ex
                  inserted)
                (ground arith)
                (parked-Follows ExecutionState.rejected_by_policy AuditAction.action_blocked refl
                  refl)
          | inr unblocked ↦
              elim (Bool-cases
                (is_require_approval result.decision && not (is_some (given approved_by)))) [
                  | inl asked ↦
                      sound
                        (park d now actor ExecutionState.validated AuditAction.approval_required ex
                          inserted)
                        (ground arith)
                        (parked-Follows ExecutionState.validated AuditAction.approval_required refl
                          refl)
                  | inr through ↦ Saved-Follows r.0 r.1 (
                      dispatch_row-Saved d now actor
                        (record ex { approved_by = some (get_or (given approved_by) actor) }) m
                        inserted refl (omega (arith, uncalled)) (omega (arith, uncalled))
                        (ground arith))
                ]
        ]

  -- A request on two sound stores leaves a sound one that has the key.
  abbrev Answered : String → World → Type 0
  Answered key v = Sound v × (find_row (has_key key) v.executions ≡ none → ⊥)

  no_longer_absent : (key : String) (ks : List String) → All (λ j. j ≢ key) (ks ++ key ∷ []) → ⊥
  no_longer_absent key [] a = a.0 refl
  no_longer_absent key (k ∷ ks) a = no_longer_absent key ks a.1

  pub request_execution-Answered :
      (others : World → World) (m : Merchant) (c : Candidate) (approved_by : Option String)
      (w : World) {r : ActionExecution × World}
      → Sound w
      → Sound (others w)
      → request_execution d now actor others m c approved_by w ≡ ok r
      → Answered (key_of d now actor m c) r.1
  unfolding request_execution insert_and_follow new_execution
  request_execution-Answered others m c approved_by w {r} h k e =
      let key = key_of d now actor m c in
      let answered : (x : ActionExecution × World) → x ≡ r → Answered key x.1 → Answered key r.1 =
        λ x p. subst (λ (r : ActionExecution × World). Answered key r.1) p in
      elim (Option-cases (find_row (has_key key) w.executions)) [
        | inr (there, holder) ↦ answered (there, w) (ground arith) (h, λ n. absurd (cc (holder, n)))
        | inl free ↦ elim (Option-cases (find_row (has_key key) (others w).executions)) [
          | inr (there, holder) ↦
              answered (there, others w) (ground arith) (k, λ n. absurd (cc (holder, n)))
          | inl still ↦
              let ex = new_execution d now actor m c key (others w) in
              let (sound, keys) =
                follow-Follows ex (judge d now actor m c w) (others w)
                  (record {
                    id = refl;
                    state = refl;
                    approved_by = refl;
                    absent = absent_key key (others w).executions still;
                  })
                  k m approved_by {r = r} (ground arith) in
              (
                sound,
                λ n.
                    no_longer_absent key (map key_in (others w).executions)
                      (subst (All (λ j. j ≢ key)) keys (absent_key key r.1.executions n)),
              )
        ]
      ]

  -- After a request has returned, a request with the same key changes nothing, whoever makes it and
  -- when, and answers with the one execution of the key.
  pub request_execution_again :
      (later : ℕ) (other : String) (others others' : World → World) (m : Merchant) (c : Candidate)
      (approved_by approved_by' : Option String) (w : World) {r : ActionExecution × World}
      → Sound w
      → Sound (others w)
      → request_execution d now actor others m c approved_by w ≡ ok r
      → (ex : ActionExecution) × (request_execution d later other others' m c approved_by' r.1
          ≡ ok (ex, r.1))
        × (ex.idempotency_key ≡ key_of d now actor m c)
  unfolding request_execution
  request_execution_again later other others others' m c approved_by approved_by' w {r} h k e =
      let key = key_of d now actor m c in
      let (sound, there) = request_execution-Answered others m c approved_by w h k e in
      elim (Option-cases (find_row (has_key key) r.1.executions)) [
        | inl n ↦ absurd (there n)
        | inr (ex, holder) ↦ (
          ex,
          rw (request_execution, holder) refl,
          (eq_iff ex.idempotency_key key).0 (find_row-test (has_key key) r.1.executions holder),
        )
      ]
