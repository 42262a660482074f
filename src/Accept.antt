-- ===== src/Accept.antt =====
-- Which proposals the provider accepts: storagemarket/deal_acceptance.go.
mod Chain
mod Validate
pub mod Conditions
pub mod Refusals
mod Tests
