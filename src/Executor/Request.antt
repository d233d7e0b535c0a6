-- ===== src/Executor/Request.antt =====
-- `request_execution` and `approve_and_execute` (services/api/paytwin_api/services/executor.py). Where
-- another session may commit between the lookup of a key or a row and what follows it, `others` is what
-- it does.
use pay_twin_os.Prelude.{
  ℕ, ◌+◌, String, Bool, true, false, not, Option, none, some, [], ◌∷◌, ◌++◌, ◌&&◌, str_eq,
  if◌then◌else◌, get_or, is_some, given, length, Result, ok, ◌>>=◌, ◌>>◌, raise_if, or_raise,
}
use pay_twin_os.Table.{find_row}
use pay_twin_os.Policy.Active.{active_rules}
use pay_twin_os.Tenancy.{Merchant, has_merchant_id}
use pay_twin_os.Policy.Decision.{
  PolicyDecision, require_approval, block, PolicyContext, PolicyResult, evaluate,
}
use pay_twin_os.Executor.Rows.{
  ExecutionState, Evidence, Candidate, no_outcome, ActionExecution, AuditAction, World, Raised,
  not_awaiting, unknown_merchant, Deployment, put_execution, note, has_execution_id,
}
use pay_twin_os.Executor.Dispatch.{dispatch_row}

abbrev pub has_key : String → ActionExecution → Bool
has_key key row = str_eq row.idempotency_key key

abbrev pub awaits : ExecutionState → Bool
awaits ExecutionState.validated = true
awaits ExecutionState.approved = true
awaits _ = false

abbrev pub is_block : PolicyDecision → Bool
is_block block = true
is_block _ = false

abbrev pub is_require_approval : PolicyDecision → Bool
is_require_approval require_approval = true
is_require_approval _ = false

-- `candidate.params.get("slice_value_paise", ...)`
abbrev pub exposure : Candidate → ℕ
exposure c =
    get_or c.params.slice_value_paise (get_or c.params.amount_cap_paise (get_or c.value_paise 0))

module _ (d : Deployment) (now : ℕ) (actor : String) where
  -- `_policy_evaluation_time(evidence) or datetime.now(...)`
  abbrev pub evaluation_time : Evidence → ℕ
  evaluation_time e =
      if not d.is_prod && e.local_test_mode then get_or e.policy_evaluated_at now else now

  unfoldable pub policy_context : Merchant → Candidate → PolicyContext
  policy_context m c =
      let e = c.params.evidence in
      record {
        autonomy_mode = m.autonomy_mode;
        action_kind = c.kind;
        amount_paise = exposure c;
        attempts_used = get_or c.params.attempts_used 1;
        contacts_24h = get_or e.contacts_24h 0;
        minutes_since_last_action = get_or e.minutes_since_last_action 0;
        provider_healthy = e.provider_healthy;
        consent_on_file = e.consent_on_file;
        within_mandate_window = e.within_mandate_window;
        agent_authority_verified = e.agent_authority_verified;
        ist_hour = d.ist_hour (evaluation_time e);
      }

  unfoldable pub judge : Merchant → Candidate → World → PolicyResult
  judge m c w = evaluate (active_rules w.policies m.organization_id m) (policy_context m c)

  unfoldable pub new_execution : Merchant → Candidate → String → World → ActionExecution
  new_execution m c key w = record {
    id = w.next_id;
    organization_id = m.organization_id;
    merchant_id = m.id;
    incident_id = c.incident_id;
    candidate_id = c.id;
    human_number = 5000 + length w.executions + 1;
    kind = c.kind;
    params = c.params;
    idempotency_key = key;
    state = ExecutionState.created;
    approved_by = none;
    connector = get_or m.connector "simulator";
    connector_ref = none;
    outcome = no_outcome;
    executed_at = none;
    created_at = now;
  }

  abbrev pub insert_execution : ActionExecution → PolicyResult → World → World
  insert_execution ex result w = record w {
    executions = w.executions ++ ex ∷ [];
    decisions =
        w.decisions
        ++ record {
          execution_id = ex.id;
          decision = result.decision;
          failed_rules = result.failed_rules;
        }
          ∷ [];
    next_id = w.next_id + 1;
  }

  -- The row with its new state, and the audit entry.
  unfoldable pub park :
      ExecutionState → AuditAction → ActionExecution → World → ActionExecution × World
  park state action ex w =
      let ex' = record ex { state = state } in (ex', note action actor ex' (put_execution ex' w))

  unfoldable pub follow :
      ActionExecution
      → PolicyResult
      → Merchant
      → Option String
      → World
      → Result Raised (ActionExecution × World)
  follow ex result m approved_by w =
      if is_block result.decision
      then ok (park ExecutionState.rejected_by_policy AuditAction.action_blocked ex w)
      else if is_require_approval result.decision && not (is_some (given approved_by))
      then ok (park ExecutionState.validated AuditAction.approval_required ex w)
      else dispatch_row d now actor
          (record ex { approved_by = some (get_or (given approved_by) actor) }) m w

  -- The insertion, which the unique constraint on the key may refuse.
  unfoldable pub insert_and_follow :
      Merchant
      → Candidate
      → String
      → PolicyResult
      → Option String
      → World
      → Result Raised (ActionExecution × World)
  insert_and_follow m c key result approved_by w = elim (find_row (has_key key) w.executions) [
    | some existing ↦ ok (existing, w)
    | none ↦
        let ex = new_execution m c key w in
        follow ex result m approved_by (insert_execution ex result w)
  ]

  abbrev pub key_of : Merchant → Candidate → String
  key_of m c = d.idempotency_key m.id c.kind c.params c.incident_id

  unfoldable pub request_execution :
      (World → World)
      → Merchant
      → Candidate
      → Option String
      → World
      → Result Raised (ActionExecution × World)
  request_execution others m c approved_by w = elim (find_row (has_key (key_of m c)) w.executions) [
    | some existing ↦ ok (existing, w)
    | none ↦ insert_and_follow m c (key_of m c) (judge m c w) approved_by (others w)
  ]

  -- The row is read without a lock: `others` is what other sessions commit between its reading and its
  -- dispatch, another approval of the same row among it.
  unfoldable pub approve_and_execute :
      (World → World) → ℕ → World → Result Raised (ActionExecution × World)
  approve_and_execute others execution_id w = do
    ex ← or_raise (find_row (has_execution_id execution_id) w.executions) not_awaiting
    raise_if (not (awaits ex.state)) not_awaiting
    merchant ← or_raise (find_row (has_merchant_id ex.merchant_id) w.merchants) unknown_merchant
    dispatch_row d now actor (record ex { approved_by = some actor }) merchant (others w)
