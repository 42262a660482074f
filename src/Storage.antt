-- ===== src/Storage.antt =====
-- Staging space: storagemanager/storagemanager.go over the table of db/storage.go.
mod Db
mod Manager
pub mod Rows
pub mod Quota
pub mod Decision
pub mod Release
pub mod Race
mod Tests
pub use Db.{
  TaggedRow, StorageLog, StorageDb, StorageError, db_error, not_found, no_space_left, StorageAction,
}
unfoldable pub use Db.{
  storage_query, db_tag, db_untag, insert_logs, sizes_for_host, db_total_tagged,
}
pub use Manager.{StorageConfig}
unfoldable pub use Manager.{
  new_storage_manager, total_tagged, total_tagged_for_host, free, persist_tagged, host_limit,
  check_host, check_total, check_limits, tag, untag,
}
