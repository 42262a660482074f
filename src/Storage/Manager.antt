-- ===== src/Storage/Manager.antt =====
-- storagemanager/storagemanager.go: `Free`, `Tag`, `Untag` and what they call.
use boost.Common.{
  ℕ, ◌+◌, ◌-◌, ◌*◌, ◌/◌, ◌==◌, ltb, leb, [], ◌∷◌, if◌then◌else◌, u64, Result, ok, err, pure,
  raise_if, ◌>>=◌, ◌>>◌, Driver,
}
use boost.Storage.Db.{StorageAction, no_space_left, db_tag, db_untag, insert_logs, db_total_tagged}

pub record StorageConfig : Type 0 where
  pub max_staging_deals_bytes : ℕ
  pub max_staging_deals_percent_per_host : ℕ

pub data ConfigError : Type 0 where
  bad_percent : ConfigError

-- `New`, without the creation of the staging directory.
unfoldable pub new_storage_manager : StorageConfig → Result ConfigError StorageConfig
new_storage_manager cfg =
    if ltb 100 cfg.max_staging_deals_percent_per_host then err bad_percent else ok cfg

-- `limit` of `Tag`: a product of two uint64.
unfoldable pub host_limit : StorageConfig → ℕ
host_limit cfg = u64 (cfg.max_staging_deals_bytes * cfg.max_staging_deals_percent_per_host) / 100

module _ (driver : Driver) (cfg : StorageConfig) where
  unfoldable pub total_tagged : StorageAction ℕ
  unfolding db_total_tagged
  total_tagged = db_total_tagged driver 0

  unfoldable pub total_tagged_for_host : ℕ → StorageAction ℕ
  unfolding db_total_tagged
  total_tagged_for_host host = db_total_tagged driver host

  unfoldable pub free : StorageAction ℕ
  unfolding total_tagged
  free = do
    tagged ← total_tagged
    if ltb cfg.max_staging_deals_bytes tagged
        then pure 0
        else pure (cfg.max_staging_deals_bytes - tagged)

  unfoldable pub persist_tagged : ℕ → ℕ → ℕ → StorageAction (Unit {0})
  unfolding db_tag insert_logs
  persist_tagged deal size host = do
    db_tag driver deal size host
    insert_logs driver (
        record {
          deal_uuid = deal;
          log_created_at = 0;
          transfer_size = size;
          log_text = "Tag staging storage";
        }
        ∷ [])

  -- The block under `if m.Cfg.MaxStagingDealsPercentPerHost != 0`.
  unfoldable pub check_host : ℕ → ℕ → StorageAction (Unit {0})
  unfolding total_tagged_for_host host_limit
  check_host size host = if cfg.max_staging_deals_percent_per_host == 0 then pure tt else (do
    tagged ← total_tagged_for_host host
    raise_if (leb (host_limit cfg) (u64 (tagged + size))) no_space_left)

  -- The check against the whole staging area.
  unfoldable pub check_total : ℕ → StorageAction (Unit {0})
  unfolding total_tagged
  check_total size = do
    tagged ← total_tagged
    raise_if (leb cfg.max_staging_deals_bytes (u64 (tagged + size))) no_space_left

  -- The block under `if m.Cfg.MaxStagingDealsBytes != 0`.
  unfoldable pub check_limits : ℕ → ℕ → StorageAction (Unit {0})
  check_limits size host =
      if cfg.max_staging_deals_bytes == 0
      then pure tt
      else (do check_host size host; check_total size)

  unfoldable pub tag : ℕ → ℕ → ℕ → StorageAction (Unit {0})
  tag deal size host = do check_limits size host; persist_tagged deal size host

  unfoldable pub untag : ℕ → StorageAction (Unit {0})
  unfolding db_untag insert_logs
  untag deal = do
    size ← db_untag driver deal
    insert_logs driver (
        record {
          deal_uuid = deal;
          log_created_at = 0;
          transfer_size = size;
          log_text = "Untag staging storage for deal";
        }
        ∷ [])
