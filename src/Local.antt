-- ===== src/Local.antt =====
-- The local emulator of the provider (services/api/paytwin_api/services/razorpay_local.py) on the
-- payment tables.
pub mod Emulator
pub mod Refunded
pub mod Outcomes
pub mod Settled
mod Tests
