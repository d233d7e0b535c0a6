-- ===== src/Payments.antt =====
-- The payment state machine (services/api/paytwin_api/services/state_machine.py) over the rows
-- of services/api/paytwin_api/models/pipeline.py.
pub mod Rows
pub mod Transition
pub mod Refunds
pub mod Apply
pub mod Money
pub mod Frame
pub mod Lifecycle
pub mod Fulfil
pub mod Credit
mod Tests
