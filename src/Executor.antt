-- ===== src/Executor.antt =====
-- Action execution (services/api/paytwin_api/services/executor.py): one execution for each idempotency
-- key, gated by the policy, dispatched to a connector or to local payment links, monitored and halted.
pub mod Rows
pub mod Links
pub mod Dispatch
pub mod Request
pub mod Monitor
pub mod Frame
pub mod Sent
pub mod Dispatched
pub mod Gate
pub mod Ledger
pub mod Budget
pub mod Watched
pub mod Requested
pub mod Reached
pub mod Retries
mod Tests
