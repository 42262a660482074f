-- ===== src/Commp.antt =====
-- The piece commitment of a file: storagemarket/deal_commp.go, without `verifyCommP`.
mod Generate
pub mod Outcome
mod Tests
