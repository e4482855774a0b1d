-- ===== src/Server/Runner.antt =====
-- server/runner.go: the goroutine that feeds one plugin with blocks.
--
-- Heights and counters are uint64 and wrap. Logging, metrics and the clock are left out.

pub mod Contract
pub mod Fetch
pub mod Rounds
pub mod TipHeight
pub mod Gapless
pub mod Read
pub use iotex_analyser.Server.World.{
  u64, PluginStatus, unload, loaded, start_ok, start_error, put_ok, put_error, Outcome, done,
  failed, panicked, Fetched, blocks, exhausted, broken, Work, single, several, Plugin, Env, Runner,
  panic_error,
}
use iotex_analyser.Base.{
  ℕ, zero, suc, ◌+◌, ◌-◌, ◌*◌, ◌%◌, ◌^◌, String, Bool, true, false, ◌&&◌, Option, none, some, List,
  [], ◌∷◌, Result, ok, err, ltb, leb, if◌then◌else◌, length,
}
use Prim.Native.String.{◌++◌}
use iotex_analyser.Server.Batch.{BatchSizeManager, get_current, on_success, on_failure}

module _ (env : Env) (plugin : Plugin) (catch_up : Bool) where
  open env use {
    World, Block, actions, dao_height, index_height, dao_block, chain_block, batch_get, put_block,
    put_blocks, is_running, ctx_done,
  }

  -- `nextHeight`
  unfoldable pub next_height : World → Result String ℕ × World
  next_height w =
      let (r, w') = index_height plugin.name w in
      elim r [ ok height ↦ (ok (u64 (height + 1)), w') | err e ↦ (err e, w') ]

  -- The loop of `getTipHeight` over the dependent plugins.
  unfoldable pub lowest : List String → ℕ → World → Result String ℕ × World
  lowest [] dep w = (ok dep, w)
  lowest (name ∷ names) dep w =
      let (r, w') = index_height name w in
      elim r [
        | err e ↦ (err e, w')
        | ok height ↦ lowest names (if ltb height dep then height else dep) w'
      ]

  -- `getTipHeight`
  unfoldable pub get_tip_height : World → Result String ℕ × World
  unfolding lowest
  get_tip_height w =
      let (r, w') = dao_height w in
      elim r [ err e ↦ (err e, w') | ok dep ↦ lowest plugin.dependents dep w' ]

  -- `fetchBlocks`, on fuel for its recursion; `none` means that the fuel ran out.
  unfoldable pub fetch_blocks :
      ℕ
      → ℕ
      → ℕ
      → BatchSizeManager
      → World
      → Option (Result String (List Block) × BatchSizeManager × World)
  fetch_blocks zero start count m w = none
  fetch_blocks (suc fuel) start zero m w = some (ok [], m, w)
  fetch_blocks (suc fuel) start (suc c) m w =
      let (r, w') = batch_get start (suc c) w in
      elim r [
        | blocks blks ↦ some (ok blks, m, w')
        | broken e ↦ some (err e, m, w')
        | exhausted e ↦
            (let (count, m') = on_failure (suc c) m in fetch_blocks fuel start count m' w')
      ]

  -- The loop that cuts a batch after the block with which its actions pass `max_txs`.
  unfoldable pub cut : ℕ → ℕ → List Block → List Block
  cut max_txs count [] = []
  cut max_txs count (blk ∷ blks) =
      let total = u64 (count + actions blk) in
      let rest = cut max_txs total blks in if ltb max_txs total then blk ∷ [] else blk ∷ rest

  unfoldable pub count_txs : ℕ → List Block → ℕ
  count_txs acc [] = acc
  count_txs acc (blk ∷ blks) = count_txs (u64 (acc + actions blk)) blks

  -- How many blocks a pass asks for.
  unfoldable pub batch_count : ℕ → ℕ → BatchSizeManager → ℕ
  batch_count next tip m =
      let available = u64 (tip + 2 ^ 64 - next + 1) in
      let current = get_current m in
      if ltb 0 current && ltb current available then current else available

  -- What is done with the answer to a request of `count` blocks.
  unfoldable pub after_fetch :
      ℕ
      → Option (Result String (List Block) × BatchSizeManager × World)
      → Option (Result String (Work Block) × BatchSizeManager × World)
  unfolding cut
  after_fetch count none = none
  after_fetch count (some (err e, m, w)) = some (err e, m, w)
  after_fetch count (some (ok blks, m, w)) =
      some (ok (several (cut (u64 (count * 500)) 0 blks)), on_success m, w)

  -- The pass's read without catch-up mode, for a plugin that takes batches.
  unfoldable pub read_batch :
      ℕ
      → ℕ
      → ℕ
      → BatchSizeManager
      → World
      → Option (Result String (Work Block) × BatchSizeManager × World)
  unfolding fetch_blocks batch_count after_fetch
  read_batch fuel next tip m w =
      let count = batch_count next tip m in after_fetch count (fetch_blocks fuel next count m w)

  -- One block that was read: a plugin that takes batches gets it as a batch of one.
  unfoldable pub hand_on :
      Option ℕ
      → BatchSizeManager
      → Result String Block
      → World
      → Option (Result String (Work Block) × BatchSizeManager × World)
  hand_on size m (err e) w = some (err e, m, w)
  hand_on none m (ok blk) w = some (ok (single blk), m, w)
  hand_on (some size) m (ok blk) w = some (ok (several (blk ∷ [])), m, w)

  -- The pass's read: of the chain in catch-up mode, else of the DAO. For a plugin that takes
  -- batches the result of the first DAO read is overwritten.
  unfoldable pub read_by :
      Bool
      → Option ℕ
      → ℕ
      → ℕ
      → ℕ
      → BatchSizeManager
      → World
      → Option (Result String (Work Block) × BatchSizeManager × World)
  unfolding read_batch hand_on
  read_by true size fuel next tip m w = let (r, w') = chain_block next w in hand_on size m r w'
  read_by false none fuel next tip m w = let (r, w') = dao_block next w in hand_on none m r w'
  read_by false (some size) fuel next tip m w = read_batch fuel next tip m (dao_block next w).1

  unfoldable pub read :
      ℕ
      → ℕ
      → ℕ
      → BatchSizeManager
      → World
      → Option (Result String (Work Block) × BatchSizeManager × World)
  unfolding read_by
  read = read_by catch_up plugin.batch

  abbrev put_error_of : String → Runner → Runner
  put_error_of e r = record r { status = put_error; error = some e }

  -- The closure `putBlocks`: whether to leave the loop, the runner and the next height.
  unfoldable pub put : Work Block → Runner → ℕ → World → Bool × Runner × ℕ × World
  unfolding count_txs
  put (several blks) r next w =
      let (outcome, w') = put_blocks blks w in
      elim outcome [
        | failed e ↦ (true, put_error_of e r, next, w')
        | panicked e ↦ (true, put_error_of (panic_error e) r, next, w')
        | done ↦ (
          false,
          record r {
            status = put_ok;
            error = none;
            blocks_processed = u64 (r.blocks_processed + length blks);
            txs_processed = u64 (r.txs_processed + count_txs 0 blks);
          },
          u64 (next + length blks),
          w',
        )
      ]
  put (single blk) r next w =
      let (outcome, w') = put_block blk w in
      elim outcome [
        | failed e ↦ (true, put_error_of e r, next, w')
        | panicked e ↦ (true, put_error_of (panic_error e) r, next, w')
        | done ↦ (
          false,
          record r {
            status = put_ok;
            error = none;
            blocks_processed = u64 (r.blocks_processed + 1);
            txs_processed = u64 (r.txs_processed + actions blk);
          },
          u64 (next + 1),
          w',
        )
      ]

  -- The end of a pass: leave the loop, or go on by `again`.
  unfoldable pub after_put :
      (Runner → ℕ → World → Option (Runner × ℕ × World))
      → Bool × Runner × ℕ × World
      → Option (Runner × ℕ × World)
  after_put again (true, r, next, w) = some (r, next, w)
  after_put again (false, r, next, w) = again r next w

  unfoldable pub after_read :
      (Runner → ℕ → World → Option (Runner × ℕ × World))
      → Runner
      → ℕ
      → Option (Result String (Work Block) × BatchSizeManager × World)
      → Option (Runner × ℕ × World)
  after_read again r next none = none
  after_read again r next (some (err e, m, w)) = some (record r { batch = m }, next, w)
  after_read again r next (some (ok work, m, w)) =
      after_put again (put work (record r { batch = m }) next w)

  -- The loop `for nextHeight <= tipHeight`, on fuel, with `fetch_fuel` for each fetch.
  unfoldable pub process : ℕ → ℕ → ℕ → Runner → ℕ → World → Option (Runner × ℕ × World)
  process zero fetch_fuel tip r next w = none
  process (suc fuel) fetch_fuel tip r next w = elim (leb next tip) [
    | false ↦ some (r, next, w)
    | true ↦
        (let (running, w') = is_running w in
          elim running [
            | false ↦ some (r, next, w')
            | true ↦
                after_read (process fuel fetch_fuel tip) r next
                  (read fetch_fuel next tip r.batch w')
          ])
  ]

  -- The start of the statistics, in the first pass that gets so far.
  unfoldable pub init_stats : ℕ → Runner → Runner
  init_stats next r =
      if r.stats_initialized
      then r
      else record r { start_height = u64 (next + 2 ^ 64 - 1); stats_initialized = true }

  -- After the inner loop the goroutine goes on.
  unfoldable pub go_on : Option (Runner × ℕ × World) → Option (Bool × Runner × World)
  go_on none = none
  go_on (some (r, next, w)) = some (false, r, w)

  -- One pass of the goroutine's outer loop; the Boolean says that the goroutine returns.
  unfoldable pub round : ℕ → ℕ → Runner → World → Option (Bool × Runner × World)
  round fuel fetch_fuel r w =
      let (running, w₁) = is_running w in
      elim running [
        | false ↦ some (true, r, w₁)
        | true ↦
            (let (stop, w₂) = ctx_done w₁ in
              elim stop [
                | true ↦ some (true, r, w₂)
                | false ↦
                    (let (tip, w₃) = get_tip_height w₂ in
                      elim tip [
                        | err e ↦ some (false, r, w₃)
                        | ok tip_height ↦
                            (let (next, w₄) = next_height w₃ in
                              elim next [
                                | err e ↦ some (false, r, w₄)
                                | ok next ↦
                                    go_on (
                                      process fuel fetch_fuel tip_height (init_stats next r) next
                                        w₄)
                              ])
                      ])
              ])
      ]

  unfoldable pub after_round :
      (Runner → World → Option (Runner × World))
      → Option (Bool × Runner × World)
      → Option (Runner × World)
  after_round again none = none
  after_round again (some (true, r, w)) = some (r, w)
  after_round again (some (false, r, w)) = again r w

  -- The outer loop for at most `n` passes.
  unfoldable pub rounds : ℕ → ℕ → ℕ → Runner → World → Option (Runner × World)
  rounds zero fuel fetch_fuel r w = some (r, w)
  rounds (suc n) fuel fetch_fuel r w =
      after_round (rounds n fuel fetch_fuel) (round fuel fetch_fuel r w)
