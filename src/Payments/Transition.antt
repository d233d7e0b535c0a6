-- ===== src/Payments/Transition.antt =====
-- The lifecycle of one payment: `_ALLOWED_TRANSITIONS`, `_TARGET_STATUS` and `_can_transition` of
-- services/api/paytwin_api/services/state_machine.py.
use pay_twin_os.Prelude.{
  ℕ, Bool, ◌≡◌, true, false, not, Option, none, some, ◌&&◌, ◌||◌, arith, leb, if◌then◌else◌,
}
use pay_twin_os.Payments.Rows.{
  EventType, payment_created, payment_authorized, payment_failed, payment_success, payment_timeout,
  order_paid, PaymentStatus, created, authorized, success, failed, timeout, refunded, Payment,
  is_success,
}

abbrev pub same_status : PaymentStatus → PaymentStatus → Bool
same_status created created = true
same_status authorized authorized = true
same_status success success = true
same_status failed failed = true
same_status timeout timeout = true
same_status refunded refunded = true
same_status _ _ = false

-- `target in _ALLOWED_TRANSITIONS[current]`
unfoldable pub allowed : PaymentStatus → PaymentStatus → Bool
allowed created target = true
allowed authorized created = false
allowed authorized target = true
allowed timeout created = false
allowed timeout target = true
allowed failed created = false
allowed failed timeout = false
allowed failed target = true
allowed success success = true
allowed success refunded = true
allowed success target = false
allowed refunded refunded = true
allowed refunded target = false

unfoldable pub target_status : EventType → Option PaymentStatus
target_status payment_created = some created
target_status payment_authorized = some authorized
target_status payment_timeout = some timeout
target_status payment_failed = some failed
target_status payment_success = some success
target_status order_paid = some success
target_status _ = none

-- The tests on `p.status` that follow the one on `target == current`.
leave_status : PaymentStatus → PaymentStatus → Bool → Bool
unfolding allowed
leave_status refunded target on_time = false
leave_status success target on_time = same_status target refunded && on_time
leave_status current target on_time = allowed current target

unfoldable pub can_transition : Payment → PaymentStatus → ℕ → Bool
unfolding leave_status
can_transition p target occurred_at =
    if same_status target p.status
    then true
    else leave_status p.status target (leb p.occurred_at occurred_at)

-- The early returns of `_can_transition` agree with `_ALLOWED_TRANSITIONS`, but for the one further
-- condition that a successful payment is refunded only by an event that is not stale.
pub can_transition_table :
    (p : Payment) (target : PaymentStatus) (at : ℕ)
    → can_transition p target at ≡ (
        allowed p.status target
        && (not (is_success p.status) || is_success target || leb p.occurred_at at))
unfolding can_transition allowed
can_transition_table p target at = ground arith
