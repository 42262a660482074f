-- ===== src/Exec.antt =====
-- The execution of a deal: storagemarket/deal_execution.go and verifyCommP of deal_commp.go.
pub mod World
mod Transfer
mod Publish
pub mod Seal
pub mod Run
pub mod Steps
pub mod Tests
pub mod Outcome
pub mod Success
pub mod Leaves
