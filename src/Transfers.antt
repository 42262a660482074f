-- ===== src/Transfers.antt =====
-- The samples of transfer rates: storagemarket/transfers.go.
pub mod Sample
pub mod Window
pub mod Expiry
pub mod Refines
pub mod History
mod Tests
