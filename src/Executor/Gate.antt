-- ===== src/Executor/Gate.antt =====
-- The policy before the provider: what `request_execution` does when the policy does not let an
-- action through (services/api/paytwin_api/services/executor.py).
use pay_twin_os.Prelude.{
  ℕ, ◌≡◌, refl, inl, inr, String, Bool, true, not, Option, none, [], ◌∷◌, ◌++◌, ◌&&◌, ◌||◌, arith,
  Bool-cases, is_some, given, if◌then◌else◌, ok,
}
use pay_twin_os.Table.{find_row}
use pay_twin_os.Tenancy.{Merchant}
use pay_twin_os.Policy.Decision.{PolicyDecision, PolicyResult}
use pay_twin_os.Executor.Rows.{
  ExecutionState, Candidate, ActionExecution, AuditAction, World, Deployment,
}
use pay_twin_os.Executor.Request.{
  has_key, is_block, is_require_approval, judge, new_execution, insert_execution, park, follow,
  insert_and_follow, key_of, request_execution,
}

-- The policy blocks, or it asks for an approval that is not given.
abbrev pub is_denied : PolicyDecision → Option String → Bool
is_denied decision approved_by =
    is_block decision || is_require_approval decision && not (is_some (given approved_by))

-- Nothing but the ledger of the executions has grown: no call, no link, no order; the row waits for
-- its approval or is rejected; and the decision is on record.
pub record Withheld (w : World) (ex : ActionExecution) (v : World) (result : PolicyResult)
    : Type 0 where
  pub calls : v.calls ≡ w.calls
  pub links : v.links ≡ w.links
  pub orders : v.orders ≡ w.orders
  pub unapproved : ex.approved_by ≡ none
  pub state : ex.state ≡ (
      if is_block result.decision
      then ExecutionState.rejected_by_policy
      else ExecutionState.validated)
  pub recorded :
      v.decisions
      ≡ w.decisions
        ++ record {
          execution_id = ex.id;
          decision = result.decision;
          failed_rules = result.failed_rules;
        }
          ∷ []

module _ (d : Deployment) (now : ℕ) (actor : String) where
  follow-Withheld :
      (ex : ActionExecution) (result : PolicyResult) (m : Merchant) (approved_by : Option String)
      (w : World)
      → ex.approved_by ≡ none
      → is_denied result.decision approved_by ≡ true
      → (r : ActionExecution × World) × (follow d now actor ex result m approved_by
            (insert_execution d now actor ex result w)
          ≡ ok r)
        × Withheld w r.0 r.1 result
  unfolding follow park
  follow-Withheld ex result m approved_by w fresh denied =
      let parked : ExecutionState → AuditAction → ActionExecution × World = λ state action.
        park d now actor state action ex (insert_execution d now actor ex result w) in
      elim (Bool-cases (is_block result.decision)) [
        | inl blocked ↦ (
          parked ExecutionState.rejected_by_policy AuditAction.action_blocked,
          ground arith,
          record {
            calls = refl;
            links = refl;
            orders = refl;
            unapproved = fresh;
            state = ground arith;
            recorded = refl;
          },
        )
        | inr asked ↦ (
          parked ExecutionState.validated AuditAction.approval_required,
          ground arith,
          record {
            calls = refl;
            links = refl;
            orders = refl;
            unapproved = fresh;
            state = ground arith;
            recorded = refl;
          },
        )
      ]

  -- A new request that the policy blocks, or for which it asks for an approval that is not given,
  -- reaches no provider: it answers with a row that is rejected, or waits, without an approver; no
  -- call, link or order is new beside those of other sessions; and the decision is on record.
  pub request_execution-Withheld :
      (others : World → World) (m : Merchant) (c : Candidate) (approved_by : Option String)
      (w : World)
      → find_row (has_key (key_of d now actor m c)) w.executions ≡ none
      → find_row (has_key (key_of d now actor m c)) (others w).executions ≡ none
      → is_denied (judge d now actor m c w).decision approved_by ≡ true
      → (r : ActionExecution × World) × (request_execution d now actor others m c approved_by w
          ≡ ok r)
        × Withheld (others w) r.0 r.1 (judge d now actor m c w)
  unfolding request_execution insert_and_follow new_execution
  request_execution-Withheld others m c approved_by w free free' denied =
      rw (request_execution, insert_and_follow, free, free')
        (follow-Withheld (new_execution d now actor m c (key_of d now actor m c) (others w))
          (judge d now actor m c w) m approved_by (others w) refl denied)
