-- ===== src/Connectors.antt =====
-- The adapters of the payment providers (services/api/paytwin_api/connectors): each one normalizes
-- the dialect of its provider to a canonical event.
pub mod Dialect
pub mod Generic
pub mod Razorpay
pub mod Agnostic
pub mod RefundEntity
pub mod Draws
mod Tests
