-- ===== src/Bus.antt =====
-- The transactional outbox and its fan-out (services/api/paytwin_api/services/bus.py). A session is
-- the outbox table as the last commit left it, the table as the transaction sees it, and the events
-- that wait for the commit or for the end of a savepoint. The subscribers of all organizations stand in one list.
pub mod Delivery
pub mod History
pub mod Sound
pub mod Safe
pub mod Known
pub mod Order
mod Tests
