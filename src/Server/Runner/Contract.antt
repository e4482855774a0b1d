-- ===== src/Server/Runner/Contract.antt =====
-- What a runner relies on in its surroundings (server/runner.go): the DAO answers with the blocks
-- that were asked for, reads change nothing that a plugin stores, and a plugin stores what it is
-- handed when it returns nil and nothing when it does not.
use iotex_analyser.Base.{ℕ, ◌≤◌, ◌≡◌, ◌≢◌, String, List, [], ◌∷◌, ◌++◌, map, ok, length, range_from}
use iotex_analyser.Server.Runner.{Env, blocks, exhausted, done}

pub record Contract (env : Env) : Type 0 where
  pub height : env.Block → ℕ
  -- The blocks that the plugin has stored, oldest first.
  pub stored : env.World → List env.Block
  pub dao_height_keeps : (w : env.World) → stored (env.dao_height w).1 ≡ stored w
  pub index_height_keeps :
      (name : String) (w : env.World) → stored (env.index_height name w).1 ≡ stored w
  pub dao_block_keeps : (h : ℕ) (w : env.World) → stored (env.dao_block h w).1 ≡ stored w
  pub chain_block_keeps : (h : ℕ) (w : env.World) → stored (env.chain_block h w).1 ≡ stored w
  pub batch_get_keeps : (s c : ℕ) (w : env.World) → stored (env.batch_get s c w).1 ≡ stored w
  pub is_running_keeps : (w : env.World) → stored (env.is_running w).1 ≡ stored w
  pub ctx_done_keeps : (w : env.World) → stored (env.ctx_done w).1 ≡ stored w
  pub dao_block_height :
      (h : ℕ) (w : env.World) (b : env.Block) → (env.dao_block h w).0 ≡ ok b → height b ≡ h
  pub chain_block_height :
      (h : ℕ) (w : env.World) (b : env.Block) → (env.chain_block h w).0 ≡ ok b → height b ≡ h
  -- A batch holds consecutive blocks from `s` on, at least one and at most `c`.
  pub batch_get_heights :
      (s c : ℕ) (w : env.World) (bs : List env.Block)
      → (env.batch_get s c w).0 ≡ blocks bs
      → map height bs ≡ range_from s (length bs)
  pub batch_get_length :
      (s c : ℕ) (w : env.World) (bs : List env.Block)
      → 1 ≤ c
      → (env.batch_get s c w).0 ≡ blocks bs
      → (1 ≤ length bs) × (length bs ≤ c)
  -- One block alone fits the limit of the DAO's answers.
  pub batch_get_single :
      (s : ℕ) (w : env.World) (e : String) → (env.batch_get s 1 w).0 ≢ exhausted e
  pub put_block_done :
      (b : env.Block) (w : env.World)
      → (env.put_block b w).0 ≡ done
      → stored (env.put_block b w).1 ≡ stored w ++ (b ∷ [])
  pub put_block_undone :
      (b : env.Block) (w : env.World)
      → (env.put_block b w).0 ≢ done
      → stored (env.put_block b w).1 ≡ stored w
  pub put_blocks_done :
      (bs : List env.Block) (w : env.World)
      → (env.put_blocks bs w).0 ≡ done
      → stored (env.put_blocks bs w).1 ≡ stored w ++ bs
  pub put_blocks_undone :
      (bs : List env.Block) (w : env.World)
      → (env.put_blocks bs w).0 ≢ done
      → stored (env.put_blocks bs w).1 ≡ stored w
