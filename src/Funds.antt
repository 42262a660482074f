-- ===== src/Funds.antt =====
-- Tagged funds: fundmanager/fundmanager.go over the table of db/funds.go.
mod Ledger
mod Manager
pub mod Sums
pub mod Solvency
pub mod Refusal
pub mod Undo
mod Tests
pub use Ledger.{
  TaggedFunds, FundsLog, FundsDb, FundsError, db_error, not_found, insufficient_funds, api_error,
  FundsAction, TotalTagged,
}
unfoldable pub use Ledger.{
  funds_query, tag_funds_row, untag_funds_row, insert_funds_logs, db_funds_tagged, add_row,
  add_rows,
}
pub use Manager.{FundsConfig, MarketBalance, Balance, Node, TagFundsResp}
unfoldable pub use Manager.{
  to_shared_balance, balance_market, balance_publish_msg, persist_funds, reserve, tag_against,
  tag_funds, untag_funds,
}
