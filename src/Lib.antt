-- ===== src/Lib.antt =====
-- A model of the IoTeX analyser: the loop that feeds the indexing plugins with blocks, the heights
-- that they have committed, and computations that plugins and services keep in tables.
--
-- How the parts interact. A runner (server/runner.go) drives one plugin. In each pass it asks for
-- the tip, the least of the DAO's height and the index heights of the plugins that this one depends
-- on, and for the plugin's own index height (db/index.go), and hands the plugin the blocks between
-- the two, in batches whose size the batch size manager (server/batch_size_manager.go) adapts. The
-- plugin stores its rows and its height in one transaction. The plugin of token holders
-- (plugins/erc1155_721_holder_v2) folds a batch of token operations into its table; the Hermes
-- rebuild (service/hermes_reward) splits an epoch's rewards among the delegates. The staking plugins
-- share the bucket index of a receipt's logs (service/stakinglog), and the reward plugins the reward
-- map of a receipt (kernel/reward.go). The plugin of voter rewards (service/voter_reward) reads the
-- logs of a block and the chain's state into pending rows, and writes those of a batch at once.
--
-- The files.
--   Base          names of the libraries, and the helpers that the parts share: lists, Boolean
--                 tests, equality, Go's maps (Base/GoMap) and Go's pairs of a value and an error
--                 (Base/Returns), sums and portions (Base/Portions).
--   Server/Batch  server/batch_size_manager.go: newBatchSizeManager, getCurrent, onSuccess,
--                 onFailure. Server/Float has the two float64 products.
--   Server/Runner server/runner.go. `process` is the inner loop, `round` one pass of the outer
--                 loop, `rounds` the goroutine, `read` the choice between DAO and chain, `put` the
--                 closure putBlocks. The DAO, the index table and the plugin are fields of `Env`
--                 in Server/World, each a function on a world; Server/Runner/Contract says what
--                 is relied on.
--   Server/Service server/service.go: the registry of runners, Load, UnLoad and pluginRefresh.
--                 Server/Service/Registry has runs of them as lists of events, the reports of
--                 the runners' UpdateStatus and UpdateError among them.
--   Authorization kernel/authorization_validity.go: ComputeAuthorizationValidity with its retries.
--   Db            db/index.go: the cache and the table of index heights, and `commit_block`, the
--                 transaction of a plugin's PutBlock (plugins/account_vote/account_vote.go).
--   Holder        plugins/erc1155_721_holder_v2/state.go: `apply_holder_operations` and all it
--                 calls. Holder/Spec runs the operations one after the other on the rows.
--   Hermes        service/hermes_reward/rebuild.go: getVotingInfo, contributorsTo, in
--                 Hermes/Breakdown breakdownRewards and in Hermes/Rebuild
--                 RebuildAccountRewardTable. Hermes/Added has the rows that a rebuild makes.
--   StakingLog    service/stakinglog/bucketindex.go: BucketIndex, indexFromEventData and
--                 uint64FromTopic. A log's meaning on its own is in StakingLog/Order.
--   Rewards       kernel/reward.go: RewardInfoFromReceipt, from the logs of a receipt to the
--                 rewards of each address, and RewardAt, over the receipts of a block.
--   VoterReward   service/voter_reward and models/voter_reward.go. The state is the record
--                 `VoterPlugin`; a method that changes it and may fail is a `Stateful`
--                 (Base/Stateful), which keeps what was changed before an error.
--                 VoterReward/Candidates is candidates.go, VoterReward/Reader statereader.go and
--                 util.go, VoterReward/Decode decode.go. Of plugin.go VoterReward/Plan has
--                 ensureEraPlan, snapshotDelegateConfigs, indexFrozenEra and
--                 refreshCandidatesIfNeeded, VoterReward/Blocks putBlock, consumeLog and
--                 refreshChunkedEras, VoterReward/Commit PutBlocks, commit, upsertEra and
--                 upgradeOptInAttribution, and VoterReward/Commit/Dedupe dedupeConfigs.
--   AccountIncome plugins/account_income: getIncomes, putBlock, and in AccountIncome/Commit commit
--                 and PutBlocks. AccountIncome/Flows says what a transfer moves for an account.
--   Examples      concrete worlds, databases and tables, and the theorems at them.
--
-- Parameters. gorm's transactions and PostgreSQL's statements are records of functions with laws
-- (Database, Table, Tx); of a transaction the laws say what gorm documents, and that it does not
-- undo what its body does to the process's memory. The order in which Go ranges over a map is the
-- order of an association list. In the Hermes rebuild, where the outcome depends on it, it is a
-- parameter: a rebuild has an `Order` for each turn of its loop, with the order of sort.Slice on the
-- candidates and that of the map of shares, and two rebuilds may differ in them. There big.Int's
-- SetString and the protocol's epoch heights are parameters too, and the database's answers fixed. The
-- topics and the unpacking of staking events and the protocol's UnmarshalRewardLog are parameters
-- of the parts that use them, as are the parsing of addresses and the statements (`IncomeStore`) in
-- AccountIncome. For voter rewards the node, the protocol's codecs and the statements
-- on the tables are the records `Client`, `Chain`, `Codec` and `Store`; what the node answers depends
-- on what it is asked alone within one call of PutBlocks, and from one call to the next the node may
-- be another.
--
-- Numbers. Heights and counters are uint64 and wrap; the batch sizes go through float64 and are
-- exact below 2 ^ 53. Rewards, votes and token values are natural numbers; a block production, which
-- Go sums as an int64, is taken to be below 2 ^ 63. A division by zero and a nil pointer in
-- breakdownRewards, which panic, are errors of the model.
--
-- Loops. `fetchBlocks` and the runner's inner loop have fuel. A fetch that fails halves its size
-- down to one block, so that more fuel than blocks suffices where one block alone is always
-- answered; an inner loop's pass delivers at least one block, so that the number of blocks up to
-- the tip and one suffice. The paging of candidates has fuel for its pages. The outer loop, which
-- only the context or Stop ends, is run for a number of passes.
--
-- What the runner's invariant takes for granted is that the index height is the height of the last
-- block that was stored. The cache of db/index.go does not give this after a rollback.
--
-- Not modelled: the start of a worker, crawl mode, the height that catch-up mode sets at the start,
-- Stop, logging, metrics and clocks; the building of SQL text; of the service Stop, Info,
-- TraceBlockByHeight and the loading of shared objects, and the HTTP interface; the rest of kernel;
-- the other plugins; contract bindings, which are generated; configuration and the command line.
pub mod AccountIncome
pub mod Authorization
pub mod Base
pub mod Db
pub mod Examples
pub mod Hermes
pub mod Holder
pub mod Rewards
pub mod Server
pub mod StakingLog
pub mod VoterReward
