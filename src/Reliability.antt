-- ===== src/Reliability.antt =====
-- The Reliability Lab (services/api/paytwin_api/reliability): a deterministic model of a merchant's
-- webhook handler, the business invariants that judge it, and the release gate.
pub mod Events
pub mod Engine
pub mod Invariants
pub mod Dicts
pub mod Correct
pub mod Upheld
pub mod Captured
pub mod Fulfilled
pub mod Amounts
pub mod Signatures
pub mod Limits
pub mod Scenario
mod Tests
