-- ===== src/Reconciliation.antt =====
-- The repair sweep of the worker and the operational status
-- (services/api/paytwin_api/services/reconciliation.py).
pub mod Sweep
pub mod Cleared
mod Tests
pub mod Retired
