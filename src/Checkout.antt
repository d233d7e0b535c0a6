-- ===== src/Checkout.antt =====
-- Server-side verification of Razorpay Checkout callbacks
-- (services/api/paytwin_api/services/checkout_verification.py).
pub mod Verify
pub mod Genuine
mod Tests
