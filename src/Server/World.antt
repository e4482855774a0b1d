-- ===== src/Server/World.antt =====
-- What a runner works on (server/runner.go, plugin/plugin.go): its own fields, and its surroundings
-- as a record `Env`, the block DAO, the table of index heights, the plugin itself, the context and
-- the flag that `Stop` clears. Each call may change the world.
use iotex_analyser.Base.{ℕ, ◌%◌, ◌^◌, String, Bool, Option, List, Result}
use Prim.Native.String.{◌++◌}
use iotex_analyser.Server.Batch.{BatchSizeManager}

abbrev pub u64 : ℕ → ℕ
u64 n = n % 2 ^ 64

-- `pluginStatus`
pub data PluginStatus : Type 0 where
  unload loaded start_ok start_error put_ok put_error : PluginStatus

-- How a call of the plugin ends: it returns nil, it returns an error, or it panics.
pub data Outcome : Type 0 where
  done : Outcome
  failed : String → Outcome
  panicked : String → Outcome

-- What BatchGetBlocks answers; `exhausted` is the gRPC status ResourceExhausted.
pub data Fetched (Block : Type 0) : Type 0 where
  blocks : List Block → Fetched Block
  exhausted : String → Fetched Block
  broken : String → Fetched Block

-- What one pass of the loop hands to the plugin: `blk` for PutBlock or `blks` for PutBlocks.
pub data Work (Block : Type 0) : Type 0 where
  single : Block → Work Block
  several : List Block → Work Block

-- What the plugin implements and is configured with.
pub record Plugin : Type 0 where
  pub name : String
  -- `BatchAdapter`, with its BatchSize
  pub batch : Option ℕ
  -- `DependentAdapter`, with its DependentPlugins
  pub dependents : List String

pub record Env : Type 1 where
  pub World : Type 0
  pub Block : Type 0
  -- len(blk.Actions)
  pub actions : Block → ℕ
  -- dao.Height
  pub dao_height : World → Result String ℕ × World
  -- db.GetIndexHeight
  pub index_height : String → World → Result String ℕ × World
  -- kernel.GetBlockByHeightFromBlockDAO and kernel.GetBlockByHeightFromChain
  pub dao_block : ℕ → World → Result String Block × World
  pub chain_block : ℕ → World → Result String Block × World
  -- dao.BatchGetBlocks
  pub batch_get : ℕ → ℕ → World → Fetched Block × World
  -- plugin.PutBlock and plugin.PutBlocks
  pub put_block : Block → World → Outcome × World
  pub put_blocks : List Block → World → Outcome × World
  -- isRunning.Get and ctx.Done
  pub is_running : World → Bool × World
  pub ctx_done : World → Bool × World

pub record Runner : Type 0 where
  pub status : PluginStatus
  pub error : Option String
  pub batch : BatchSizeManager
  pub start_height : ℕ
  pub blocks_processed : ℕ
  pub txs_processed : ℕ
  -- a local variable of the goroutine
  pub stats_initialized : Bool

-- The wrapping of a recovered panic's value.
unfoldable pub panic_error : String → String
panic_error e = "panic when putting block to plugin: " ++ e
