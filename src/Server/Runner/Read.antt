-- ===== src/Server/Runner/Read.antt =====
-- The read at the head of each pass of the runner's loop (server/runner.go).
use iotex_analyser.Base.{
  ℕ, ◌*◌, ◌+◌, ◌^◌, ◌≤◌, ◌<◌, ◌≡◌, refl, ap, ◌∙◌, String, Bool, true, false, Option, none, some,
  List, [], ◌∷◌, Result, ok, err, arith, length,
}
use iotex_analyser.Server.Batch.{BatchSizeManager, get_current}
use iotex_analyser.Server.Batch.Bounds.{IsValid, on_success-IsValid}
use iotex_analyser.Server.Runner.{
  Env, Plugin, Work, single, several, batch_count, after_fetch, read_batch, read, u64, read_by,
  hand_on,
}
use iotex_analyser.Server.Runner.Contract.{Contract}
use iotex_analyser.Server.Runner.Fetch.{
  Consecutive, Fetches, fetch_blocks-Fetches, cut-Consecutive, length-cut,
}

-- The blocks that a pass hands to the plugin.
abbrev pub work_blocks : {B : Type 0} → Work B → List B
work_blocks (single b) = b ∷ []
work_blocks (several bs) = bs

module _ (env : Env) (law : Contract env) where
  -- What a read at the height `next`, begun in the world `w`, ends with: an error, or blocks from
  -- `next` on that do not pass `tip`; it stores nothing.
  abbrev pub Reads :
      ℕ
      → ℕ
      → env.World
      → Option (Result String (Work env.Block) × BatchSizeManager × env.World)
      → Type 0
  Reads next tip w none = ⊥
  Reads next tip w (some (err e, m, w')) = IsValid m × (law.stored w' ≡ law.stored w)
  Reads next tip w (some (ok work, m, w')) =
      IsValid m
      × (law.stored w' ≡ law.stored w)
      × Consecutive env law next (work_blocks work)
      × (next + length (work_blocks work) ≤ tip + 1)
      × (1 ≤ length (work_blocks work))

module _ (env : Env) (law : Contract env) (plugin : Plugin) (catch_up : Bool) where
  batch_count_bounds :
      (next tip : ℕ) (m : BatchSizeManager)
      → IsValid m
      → next ≤ tip
      → tip < 2 ^ 53
      → let count = batch_count env plugin catch_up next tip m in
        (1 ≤ count) × (count + next ≤ tip + 1) × (count ≤ m.max_size)
  unfolding batch_count get_current
  batch_count_bounds next tip m v le s = ground arith

  after_fetch-Reads :
      (next tip count : ℕ) (w : env.World)
      (r : Option (Result String (List env.Block) × BatchSizeManager × env.World))
      → 1 ≤ count
      → count + next ≤ tip + 1
      → Fetches env law next count w r
      → Reads env law next tip w (after_fetch env plugin catch_up count r)
  unfolding after_fetch
  after_fetch-Reads next tip count w none p q h = h
  after_fetch-Reads next tip count w (some (err e, m, w')) p q h = h
  after_fetch-Reads next tip count w (some (ok bs, m, w')) p q h =
      let max_txs = u64 (count * 500) in
      let size = length-cut env law plugin catch_up max_txs 0 bs in
      (
        on_success-IsValid m h.0,
        h.1,
        cut-Consecutive env law plugin catch_up max_txs 0 next bs h.2,
        omega arith,
        size.1 (h.4 p),
      )

  read_batch-Reads :
      (fuel next tip : ℕ) (m : BatchSizeManager) (w : env.World)
      → IsValid m
      → next ≤ tip
      → tip < 2 ^ 53
      → tip + 1 < fuel + next
      → Reads env law next tip w (read_batch env plugin catch_up fuel next tip m w)
  unfolding read_batch
  read_batch-Reads fuel next tip m w v le s f =
      let count = batch_count env plugin catch_up next tip m in
      let bounds = batch_count_bounds next tip m v le s in
      after_fetch-Reads next tip count w _ bounds.0 bounds.1 (
        fetch_blocks-Fetches env law plugin catch_up fuel next count m w (omega arith) (omega arith)
          bounds.2 v)

  hand_on-Reads :
      (size : Option ℕ) (next tip : ℕ) (m : BatchSizeManager) (w w' : env.World)
      (r : Result String env.Block)
      → IsValid m
      → next ≤ tip
      → law.stored w' ≡ law.stored w
      → ((b : env.Block) → r ≡ ok b → law.height b ≡ next)
      → Reads env law next tip w (hand_on env plugin catch_up size m r w')
  unfolding hand_on
  hand_on-Reads size next tip m w w' (err e) v le keeps h = (v, keeps)
  hand_on-Reads none next tip m w w' (ok b) v le keeps h =
      (v, keeps, ap (λ n. n ∷ []) (h b refl), omega arith, omega arith)
  hand_on-Reads (some size) next tip m w w' (ok b) v le keeps h =
      (v, keeps, ap (λ n. n ∷ []) (h b refl), omega arith, omega arith)

  -- What was stored before an earlier read that stores nothing.
  Reads-before :
      (next tip : ℕ) (w w' : env.World)
      (r : Option (Result String (Work env.Block) × BatchSizeManager × env.World))
      → law.stored w' ≡ law.stored w
      → Reads env law next tip w' r
      → Reads env law next tip w r
  Reads-before next tip w w' none e h = h
  Reads-before next tip w w' (some (err x, m, w'')) e h = (h.0, h.1 ∙ e)
  Reads-before next tip w w' (some (ok work, m, w'')) e h = (h.0, h.1 ∙ e, h.2, h.3, h.4)

  module _ (fuel next tip : ℕ) (m : BatchSizeManager) (w : env.World) where
    read_by-Reads :
        (chain : Bool) (size : Option ℕ)
        → IsValid m
        → next ≤ tip
        → tip < 2 ^ 53
        → tip + 1 < fuel + next
        → Reads env law next tip w (read_by env plugin catch_up chain size fuel next tip m w)
    unfolding read_by
    read_by-Reads true size v le s f =
        hand_on-Reads size next tip m w _ _ v le (law.chain_block_keeps next w)
          (law.chain_block_height next w)
    read_by-Reads false none v le s f =
        hand_on-Reads none next tip m w _ _ v le (law.dao_block_keeps next w)
          (law.dao_block_height next w)
    read_by-Reads false (some size) v le s f =
        Reads-before next tip w _ _ (law.dao_block_keeps next w)
          (read_batch-Reads fuel next tip m _ v le s f)

    -- Every read ends, and what it hands on are blocks from the next height on.
    pub read-Reads :
        IsValid m
        → next ≤ tip
        → tip < 2 ^ 53
        → tip + 1 < fuel + next
        → Reads env law next tip w (read env plugin catch_up fuel next tip m w)
    unfolding read
    read-Reads = read_by-Reads catch_up plugin.batch
