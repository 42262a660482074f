-- ===== src/Lib.antt =====
-- Verification of boost, a storage provider for Filecoin: clients propose storage deals, the
-- provider decides on them, moves the data in, publishes them on the chain, hands the pieces to a
-- sealer, and indexes and announces them.
--
-- The parts, and the files that model them:
--   Deal      storagemarket/types/deal_state.go and storagemarket/types/dealcheckpoints: the state
--             of a deal (`ProviderDealState`), its checkpoints in order and their names.
--   Accept    storagemarket/deal_acceptance.go: `validateDealProposal` as `validate_deal_proposal`,
--             cut into the groups of its checks (`check_origin`, `check_form`, `check_epochs`,
--             `check_collateral`, `validate_ask`, `check_client`), one error for each return.
--   Exec      storagemarket/deal_execution.go, and `verifyCommP` of storagemarket/deal_commp.go:
--             `runDeal` as `run_deal`, `execDeal` as `exec_deal`, and the stages below: Transfer
--             (`transferAndVerify`), Publish (`publishDeal`), Seal (`addPiece`,
--             `indexAndAnnounce`, `fireSealingUpdateEvents`), Run (the order of the stages, and how
--             a run ends). Steps holds the proofs on progress, Outcome and Leaves those on how a
--             run ends and what it leaves in the deals table.
--   Handler   storagemarket/deal_handler.go: `cancelTransfer` and the response it waits for.
--   Limiter   storagemarket/transfer_limiter.go: the queue of transfers; `check` decides which
--             waiting transfers start.
--   Storage   storagemanager/storagemanager.go over db/storage.go: staging space tagged for deals.
--   Funds     fundmanager/fundmanager.go over db/funds.go: funds tagged for deals.
--   Provider  storagemarket/provider_loop.go, storagemarket/provider.go and the map of handlers of
--             storagemarket/deal_handler.go: Propose (`processDeal` and what it calls), Loop (the
--             cases of `run`), Restart (`Start`), Requests (imports and cancellations), AddPiece
--             (`AddPieceToSector`). The other files hold the proofs; Served and Finished put the
--             loop together with Exec, and Race two proposals side by side.
--   Commp     storagemarket/deal_commp.go: `generatePieceCommitment`, remote or under the throttle.
--   Transfers storagemarket/transfers.go: the samples of the bytes that transfers have moved
--             (`sample`), kept for the latest twenty seconds.
--   Publisher markets/storageadapter/dealpublisher.go: Queue (`processNewDeal`, `waitForMoreDeals`,
--             `publishAllDeals`, `PublishQueuedDeals`), Send (`publishReady`, `validateDeal`,
--             `publishDealProposals`). Once, Batches and Stalled are on the queue, Answers and
--             Message on what becomes of a batch.
--   Car       car/: Writer (the offset writer of car_offset_writer.go over the cache of
--             block_info_cache.go), Parts (multi_reader_at.go), Refs (who shares a cache). Layout,
--             Resume, Walk and Whole are on the writer, Reads and Search on the reader, Dropped on
--             the caches.
--   Sectors   sectorstatemgr/sectorstatemgr.go over db/sectors.go: State (`refreshState` and
--             `checkForUpdates`), Reported and Updates (the two halves of a check), Check.
--   Direct    storagemarket/direct_deals_provider.go over db/directdeals.go: Import (`Accept`,
--             `Import` and the requests of users), Sealing (the waits for a sector and its claim).
--             Claims and Faults are on imports, Waits on the waits.
--   Common    what the parts share: Boolean tests on the native numbers, integers, lists and
--             association lists, state with errors (`Action`), errors without state (`Refusal`).
--
-- How they interact: the provider validates a proposal (Accept), tags funds (Funds) and space
-- (Storage) for the deal, saves it and starts it in a thread of its own (Provider), which runs it
-- (Exec). A run waits in the queue of the limiter (Limiter), can be cancelled through its handler
-- (Handler), and asks the event loop (Provider) to untag what was tagged: `serve` gives the loop
-- the requests of a run in their order. A deal that is run again is read from its row (`reload`).
-- The threads that `Start` begins in order to fail deals wait in `failing`, and `run_failing`
-- runs them in any order. The table of deals is a list of rows, read by uuid or by the cid of the
-- proposal and written whole; its SQL is not modelled.
--
-- A run of Exec publishes through the publisher, which it asks as an answer of its environment;
-- Publisher models the other side, with the calls of `Publish` as events. Car and Sectors stand by
-- themselves: they serve retrievals and the index of what is unsealed.
--
-- How code becomes definitions: a method is a function of the state it changes that gives an
-- answer or an error and the new state; what it did before it failed stays done. Numbers of the
-- source are native numbers or integers, with the wrap-around written out where uint64 sums decide
-- something (`u64`) and where a uint64 is read as an int64 (`to_int64`). Epochs and token amounts
-- are integers without bounds. Addresses, cids, uuids, hosts and file paths are numbers that are
-- only compared. Time is a number that the environment gives.
--
-- A Go map is an association list with one entry for each key, which a loop goes through in the
-- order of the entries.
--
-- What other components and packages answer is a parameter: a record of functions, as a rule of
-- the number of calls or statements made before, so that every later call may answer anew. In Exec
-- this holds for the transfer queue, the transport, the deal publisher, the full node, the sealer,
-- the piece directory, the index provider, `generatePieceCommitment` and `AddPieceToSector`; that a
-- user may cancel at any time is an answer too. In Provider it holds for the statements on the
-- deals table, the deal filter, the staging files, the making of handlers, the node and the clock.
-- A reading that the code skips on some branch may count as a call there too. A method that runs
-- into a nil pointer ends by a panic, which unwinds to `execDeal` or, in Provider, ends the program.
--
-- Loops are structural recursion: on the lists they range over, on the slots of the limiter that
-- are free, on the events of a transfer, and on the ticks that pass before a context is done. Only
-- the retry of a hand-off runs on fuel: 73 attempts, one and one after each wait of five minutes
-- for which six hours have room, which is enough on a clock that the waits advance.
--
-- In Publisher a timer fires and its goroutine later runs under the lock, in two steps; the end of a
-- caller's context is an event. In Car the readers and the writer of others are parameters, and the
-- loop of `ReadAt` has one round more than there are parts, which is enough for readers that keep
-- the contract of `io.ReaderAt` and report no end of input together with all bytes asked for.
--
-- Not modelled: retrieval, the data transfer protocol, the run of a direct deal (`execDeal` of
-- the direct deals provider), the index and piece directories, the transports and the tools; the
-- reader that puts the CAR writer behind a pipe; the end of the provider (`Stop`), and its
-- context where a request waits for the loop; log lines and events to subscribers beyond that
-- they are sent; the statistics of the limiter; locks, which make each method of Handler,
-- Limiter, Publisher and the caches of Car one step. Storage and Funds have no lock: a method of
-- theirs is one step here all the same, as where calls do not overlap, and Storage/Race takes the
-- steps of `Tag` apart to show what comes of calls that do.
pub mod Accept
pub mod Car
pub mod Common
pub mod Commp
pub mod Deal
pub mod Direct
pub mod Exec
pub mod Funds
pub mod Handler
pub mod Limiter
pub mod Provider
pub mod Publisher
pub mod Sectors
pub mod Storage
pub mod Transfers
