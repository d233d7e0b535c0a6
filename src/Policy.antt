-- ===== src/Policy.antt =====
-- The policy engine (services/api/paytwin_api/services/policy.py): the last word on actions that
-- move money.
pub mod Decision
pub mod Active
pub mod Limits
pub mod Report
pub mod Validate
pub mod Admitted
pub mod Effective
mod Tests
