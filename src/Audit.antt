-- ===== src/Audit.antt =====
-- The audit chain (services/api/paytwin_api/services/audit.py): records linked by hashes, with a
-- checkpoint of the last one for each organization.
pub mod Chain
pub mod Append
pub mod Tamper
mod Tests
