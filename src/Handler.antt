-- ===== src/Handler.antt =====
-- The handler of a running deal: storagemarket/deal_handler.go.
mod State
pub mod Cancel
mod Tests
pub use State.{
  Response, no_error, transfer_complete, cleaned_up, handler_closed, DealHandler, Answer, answered,
  waiting,
}
unfoldable pub use State.{
  new_deal_handler, set_cancel_transfer_response, close, set_running, cancel_transfer,
}
