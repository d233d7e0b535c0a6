-- ===== src/Reliability/Limits.antt =====
-- Runs of the correct handler that its invariants do not survive: a payment captured again with a
-- smaller amount, and a forged delivery under the id of a genuine one.
use pay_twin_os.Prelude.{
  ℕ, ◌+◌, ◌≤◌, ◌<◌, ◌≡◌, refl, String, Bool, true, false, [], ◌∷◌, arith, eq_refl, ltb,
}
use pay_twin_os.Reliability.Events.{LabType, payment_captured, refund_processed, LabEvent, correct}
use pay_twin_os.Reliability.Engine.{handle, accept, apply_type, fulfil, deliver, new_world}
use pay_twin_os.Reliability.Invariants.{refund_le_captured, invalid_signature_zero_effect}

abbrev pub delivery : String → LabType → String → ℕ → Bool → LabEvent
delivery id t tenant amount signed = record {
  event_id = id;
  type = t;
  payment_id = "pay_1";
  order_id = "order_1";
  tenant = tenant;
  amount = amount;
  signature_ok = signed;
}

-- A capture, a refund within it and a second capture below the refund: the payment ends refunded
-- beyond its captured amount under the correct policy.
pub recapture_below_refund :
    (single : Bool) (a r b : ℕ)
    → r ≤ a
    → b < r
    → refund_le_captured (
        deliver (new_world "t1" single) correct (
          delivery "evt_1" payment_captured "t1" a true
          ∷ delivery "evt_2" refund_processed "t1" r true
          ∷ delivery "evt_3" payment_captured "t1" b true
          ∷ []))
      ≡ true
unfolding refund_le_captured deliver handle accept apply_type fulfil new_world
recapture_below_refund single a r b within below =
    let fits : ltb a (0 + r) ≡ false = ground arith in
    let beyond : ltb b (0 + r) ≡ true = ground arith in rw (fits, handle, beyond) refl

-- A forged delivery and then a genuine one under the same id: the forged one has no effect, and the
-- evaluator still reports the effect of the genuine one.
pub forged_id_flags_genuine :
    (home : String) (single : Bool) (a b : ℕ)
    → invalid_signature_zero_effect (
        deliver (new_world home single) correct (
          delivery "evt_1" payment_captured home a false
          ∷ delivery "evt_1" payment_captured home b true
          ∷ []))
      ≡ true
unfolding invalid_signature_zero_effect deliver handle accept apply_type fulfil new_world
forged_id_flags_genuine home single a b = rw (eq_refl home) refl
