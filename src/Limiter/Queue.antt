-- ===== src/Limiter/Queue.antt =====
-- The limiter's state, and every method but `check` and `stats`.
-- A `chan struct{}` is a number: the transfers of the map and the copies of them that `check` makes
-- hold the same channel, so which channels are closed is kept beside the map. Times are nanoseconds
-- since the zero time. The map is listed in the order in which a `range` would visit it.
use boost.Common.{
  ℕ, suc, ◌-◌, ◌^◌, ◌==◌, ltb, Bool, false, not, ◌&&◌, List, [], Option, none, some, if◌then◌else◌,
  contains, lookup, insert, erase, length, Result, ok, err, ℤ, pos, negsuc, sub_ℕ, ltb_ℤ, eqb_ℤ,
}
use boost.Deal.{ProviderDealState}

pub record QueuedTransfer : Type 0 where
  pub started : ℕ
  pub deal : ProviderDealState
  pub host : ℕ
  pub updated_at : ℕ
  pub bytes : ℕ

-- Periods are `time.Duration`, signed.
pub record TransferLimiterConfig : Type 0 where
  pub max_concurrent : ℕ
  pub stall_check_period : ℤ
  pub stall_timeout : ℤ

pub record Limiter : Type 0 where
  pub cfg : TransferLimiterConfig
  pub xfers : List (ℕ × QueuedTransfer)
  pub closed : List ℕ
  pub next_channel : ℕ

pub data LimiterConfigError : Type 0 where
  no_concurrency no_check_period no_stall_timeout : LimiterConfigError

unfoldable pub new_transfer_limiter : TransferLimiterConfig → Result LimiterConfigError Limiter
new_transfer_limiter cfg =
    if cfg.max_concurrent == 0
    then err no_concurrency
    else if eqb_ℤ cfg.stall_check_period (pos 0)
    then err no_check_period
    else if eqb_ℤ cfg.stall_timeout (pos 0)
    then err no_stall_timeout
    else ok (record { cfg = cfg; xfers = []; closed = []; next_channel = 0 })

abbrev pub max_duration : ℕ
max_duration = 2 ^ 63 - 1

-- A duration too long for an int64 is cut to the longest.
abbrev pub saturate : ℤ → ℤ
saturate (pos n) = if ltb max_duration n then pos max_duration else pos n
saturate (negsuc n) = if ltb max_duration n then negsuc max_duration else negsuc n

-- `t.Sub(u)`.
unfoldable pub time_sub : ℕ → ℕ → ℤ
time_sub t u = saturate (sub_ℕ t u)

-- `t.isStarted()`: a receive from a closed channel does not block.
unfoldable pub is_started : List ℕ → QueuedTransfer → Bool
is_started closed x = contains x.started closed

-- `now.Sub(xfer.updatedAt) < tl.cfg.StallTimeout`.
unfoldable pub is_fresh : TransferLimiterConfig → ℕ → QueuedTransfer → Bool
is_fresh cfg now x = ltb_ℤ (time_sub now x.updated_at) cfg.stall_timeout

-- The `&transfer{…}` of `waitInQueue`, on a new channel.
abbrev pub new_transfer : ℕ → ProviderDealState → ℕ → QueuedTransfer
new_transfer host deal channel = record {
  started = channel;
  deal = deal;
  host = host;
  updated_at = 0;
  bytes = 0;
}

-- `waitInQueue` up to the wait, with what `deal.Transfer.Host()` gives; the result is the limiter
-- and the channel to wait on, or nothing where there is no host.
unfoldable pub enqueue : Option ℕ → ProviderDealState → Limiter → Option (Limiter × ℕ)
enqueue none deal tl = none
enqueue (some host) deal tl = some (
  record tl {
    xfers = insert deal.deal_uuid (new_transfer host deal tl.next_channel) tl.xfers;
    next_channel = suc tl.next_channel;
  },
  tl.next_channel,
)

unfoldable pub complete : ℕ → Limiter → Limiter
complete deal_uuid tl = record tl { xfers = erase deal_uuid tl.xfers }

-- How the `select` of `waitInQueue` ends: the channel is closed, or the context is done first.
pub data Wake : Type 0 where
  woken cancelled : Wake

-- The rest of `waitInQueue`: the limiter after it, and whether it returns nil.
unfoldable pub stop_waiting : Wake → ℕ → Limiter → Limiter × Bool
stop_waiting woken deal_uuid tl = (tl, Bool.true)
stop_waiting cancelled deal_uuid tl = (complete deal_uuid tl, false)

abbrev pub touch :
    ℕ → ℕ → ℕ → Option QueuedTransfer → List (ℕ × QueuedTransfer) → List (ℕ × QueuedTransfer)
touch deal_uuid bytes now none xfers = xfers
touch deal_uuid bytes now (some x) xfers =
    insert deal_uuid (record x { updated_at = now; bytes = bytes }) xfers

unfoldable pub set_bytes : ℕ → ℕ → ℕ → Limiter → Limiter
set_bytes deal_uuid bytes now tl = record tl {
  xfers = touch deal_uuid bytes now (lookup deal_uuid tl.xfers) tl.xfers;
}

abbrev stalled_entry : Limiter → ℕ → Option QueuedTransfer → Bool
stalled_entry tl now none = false
stalled_entry tl now (some x) = is_started tl.closed x && not (is_fresh tl.cfg now x)

unfoldable pub is_stalled : Limiter → ℕ → ℕ → Bool
is_stalled tl now deal_uuid = stalled_entry tl now (lookup deal_uuid tl.xfers)

unfoldable pub transfers_count : Limiter → ℕ
transfers_count tl = length tl.xfers
