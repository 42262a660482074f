-- ===== src/Sectors.antt =====
-- The states of sectors: sectorstatemgr/ and db/sectors.go.
pub mod State
pub mod Reported
pub mod Updates
pub mod Check
mod Tests
