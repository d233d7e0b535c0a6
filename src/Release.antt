-- ===== src/Release.antt =====
-- The release gate of the Reliability Lab (services/api/paytwin_api/reliability): the packs of
-- scenarios, their execution, the evidence of the runs and the verdict.
pub mod Packs
pub mod Suite
pub mod Evidence
pub mod Verdict
pub mod Recorded
pub mod Gated
pub mod Fair
pub mod Views
mod Tests
