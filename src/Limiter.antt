-- ===== src/Limiter.antt =====
-- The queue of data transfers: storagemarket/transfer_limiter.go.
mod Queue
mod Check
pub mod Choice
pub mod Order
pub mod Oldest
pub mod Starts
pub mod Counting
pub mod Restart
mod Tests
pub use Queue.{TransferLimiterConfig, QueuedTransfer, Limiter}
unfoldable pub use Queue.{
  new_transfer_limiter, time_sub, is_started, enqueue, complete, set_bytes, is_stalled,
}
unfoldable pub use Check.{check}
