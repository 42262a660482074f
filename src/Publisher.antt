-- ===== src/Publisher.antt =====
-- The deal publisher: markets/storageadapter/dealpublisher.go.
pub mod Queue
mod Counts
pub mod Once
pub mod Batches
pub mod Stalled
pub mod Send
pub mod Answers
pub mod Message
mod Tests
