-- ===== src/Direct.antt =====
-- Direct deals: storagemarket/direct_deals_provider.go.
pub mod Import
pub mod Sealing
pub mod Claims
pub mod Faults
pub mod Waits
mod Tests
