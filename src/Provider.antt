-- ===== src/Provider.antt =====
-- The provider's run loop: storagemarket/provider_loop.go and storagemarket/provider.go.
pub mod World
pub mod Propose
pub mod Loop
mod Trace
mod Checks
mod Reserve
mod Save
pub mod Retry
pub mod Words
pub mod Offline
pub mod Duplicate
pub mod Race
mod Served
pub mod Finished
pub mod Restart
mod Resumed
pub mod Rows
pub mod Elapsed
mod Threads
pub mod Started
pub mod Requests
pub mod Imported
pub mod Cancelled
pub mod AddPiece
pub mod Handed
pub mod Refused
mod Tests
