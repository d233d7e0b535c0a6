-- ===== src/Reliability/Invariants.antt =====
-- The evaluators of services/api/paytwin_api/reliability/invariants.py: each tells whether its
-- invariant is violated in a world. The texts of the violations are left out.
use pay_twin_os.Prelude.{
  ℕ, ◌+◌, String, Bool, true, false, not, none, some, List, [], ◌∷◌, map, ◌&&◌, ◌||◌, str_eq, ltb,
  if◌then◌else◌, get_or,
}
use pay_twin_os.Reliability.Events.{
  is_captured, LabPayment, LabOrder, is_fulfilment, is_purchase, Effect, Processed, Dict, World,
  lookup, insert, member,
}

abbrev pub any_of {ℓ} : {A : Type ℓ} → (A → Bool) → List A → Bool
any_of test [] = false
any_of test (x ∷ xs) = test x || any_of test xs

-- `any(v > 1 for v in counts.values())`, where `counts[k] = counts.get(k, 0) + 1` for each key.
abbrev pub count_keys : List String → Dict ℕ → Dict ℕ
count_keys [] counts = counts
count_keys (k ∷ ks) counts = count_keys ks (insert k (get_or (lookup k counts) 0 + 1) counts)

abbrev pub has_repeat : List String → Bool
has_repeat ks = any_of (λ (c : String × ℕ). ltb 1 c.1) (count_keys ks [])

abbrev pub uncaptured_fulfilment : World → Effect → Bool
uncaptured_fulfilment w f = is_fulfilment f.kind && (elim (lookup f.payment_id w.payments) [
  | none ↦ true
  | some pay ↦ not (is_captured pay.status)
])

unfoldable pub no_fulfilment_without_captured : World → Bool
no_fulfilment_without_captured w = any_of (uncaptured_fulfilment w) w.effects

unfoldable pub one_effect_per_event : World → Bool
one_effect_per_event w = has_repeat (map (λ (e : Effect). e.src_event_id) w.effects)

abbrev pub bad_ids : List Processed → List String
bad_ids [] = []
bad_ids (r ∷ rs) = let rest = bad_ids rs in if r.signature_ok then rest else r.event_id ∷ rest

unfoldable pub invalid_signature_zero_effect : World → Bool
invalid_signature_zero_effect w =
    any_of (λ (e : Effect). member e.src_event_id (bad_ids w.processed)) w.effects
    || any_of (λ (r : Processed). not r.signature_ok && r.accepted) w.processed

unfoldable pub refund_le_captured : World → Bool
refund_le_captured w =
    any_of (λ (c : String × LabPayment). ltb c.1.captured_amount c.1.refunded_total) w.payments

unfoldable pub tenant_isolation : World → Bool
tenant_isolation w = any_of (λ (e : Effect). not (str_eq e.tenant w.home_tenant)) w.effects

unfoldable pub out_of_order_converges : World → Bool
out_of_order_converges w =
    any_of (λ (c : String × LabOrder). c.1.paid_expected && ltb c.1.fulfilled_count 1) w.orders

abbrev pub count_of : {A : Type 0} → (A → Bool) → List A → ℕ
count_of test [] = 0
count_of test (x ∷ xs) = (if test x then 1 else 0) + count_of test xs

unfoldable pub agent_mandate_single_use : World → Bool
agent_mandate_single_use w =
    w.mandate_single_use && ltb 1 (count_of (λ (e : Effect). is_purchase e.kind) w.effects)

abbrev pub fulfilled_orders : List Effect → List String
fulfilled_orders [] = []
fulfilled_orders (e ∷ es) =
    let rest = fulfilled_orders es in if is_fulfilment e.kind then e.order_id ∷ rest else rest

unfoldable pub one_fulfilment_per_order : World → Bool
one_fulfilment_per_order w = has_repeat (fulfilled_orders w.effects)

pub data InvariantId : Type 0 where
  inv_001 inv_002 inv_003 inv_004 inv_005 inv_006 inv_007 inv_008 : InvariantId

abbrev pub evaluators : List (InvariantId × (World → Bool))
evaluators =
    (inv_001, no_fulfilment_without_captured)
    ∷ (inv_002, one_effect_per_event)
    ∷ (inv_003, invalid_signature_zero_effect)
    ∷ (inv_004, refund_le_captured)
    ∷ (inv_005, tenant_isolation)
    ∷ (inv_006, out_of_order_converges)
    ∷ (inv_007, agent_mandate_single_use)
    ∷ (inv_008, one_fulfilment_per_order)
    ∷ []

unfoldable pub violated_by : World → List (InvariantId × (World → Bool)) → List InvariantId
violated_by w [] = []
violated_by w ((id, fn) ∷ fns) = let rest = violated_by w fns in if fn w then id ∷ rest else rest

-- The violated invariants, in the order of `EVALUATORS`.
unfoldable pub evaluate : World → List InvariantId
unfolding violated_by
evaluate w = violated_by w evaluators
