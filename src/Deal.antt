-- ===== src/Deal.antt =====
-- The state of a storage deal: storagemarket/types and storagemarket/types/dealcheckpoints.
mod Checkpoints
mod State
pub use Checkpoints.{
  Checkpoint, accepted, transferred, published, publish_confirmed, added_piece,
  indexed_and_announced, complete, before, up_to, rank, Checkpoint-discrete,
}
pub use State.{
  Retry, retry_auto, retry_manual, retry_fatal, DealProposal, Transfer, ErrorText, cancelled_text,
  terminated_text, failure_text, ProviderDealState, is_auto,
}
