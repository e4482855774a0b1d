-- ===== src/Server/Runner/Fetch.antt =====
-- `fetchBlocks` and the cut of a batch (server/runner.go).
use iotex_analyser.Base.{
  ℕ, zero, suc, ◌+◌, ◌^◌, ◌≤◌, ◌<◌, ◌≡◌, ◌≢◌, refl, subst, ◌∙◌, inl, inr, String, Bool, Option,
  none, some, List, [], ◌∷◌, map, Result, ok, err, arith, ltb, Bool-cases, length, range_from, ◌⊎◌,
}
use iotex_analyser.Server.Batch.{BatchSizeManager, on_failure}
use iotex_analyser.Server.Batch.Bounds.{
  IsValid, on_failure_size, on_failure-IsValid, max_size-on_failure,
}
use iotex_analyser.Server.Runner.{
  Env, Plugin, Fetched, blocks, exhausted, broken, fetch_blocks, cut, u64,
}
use iotex_analyser.Server.Runner.Contract.{Contract}

module _ (env : Env) (law : Contract env) where
  -- Consecutive blocks from `s` on.
  abbrev pub Consecutive : ℕ → List env.Block → Type 0
  Consecutive s bs = map law.height bs ≡ range_from s (length bs)

  -- What a fetch of `count` blocks from `start` on, begun in the world `w`, ends with.
  abbrev pub Fetches :
      ℕ
      → ℕ
      → env.World
      → Option (Result String (List env.Block) × BatchSizeManager × env.World)
      → Type 0
  Fetches start count w none = ⊥
  Fetches start count w (some (err e, m, w')) = IsValid m × (law.stored w' ≡ law.stored w)
  Fetches start count w (some (ok bs, m, w')) =
      IsValid m
      × (law.stored w' ≡ law.stored w)
      × Consecutive start bs
      × (length bs ≤ count)
      × (1 ≤ count → 1 ≤ length bs)

  -- A retry that asks for fewer blocks, after a step that stores nothing.
  Fetches-mono :
      (start count count' : ℕ) (w w' : env.World)
      (r : Option (Result String (List env.Block) × BatchSizeManager × env.World))
      → law.stored w' ≡ law.stored w
      → count' ≤ count
      → 1 ≤ count'
      → Fetches start count' w' r
      → Fetches start count w r
  Fetches-mono start count count' w w' none e l p h = h
  Fetches-mono start count count' w w' (some (err x, m, w'')) e l p h = (h.0, h.1 ∙ e)
  Fetches-mono start count count' w w' (some (ok bs, m, w'')) e l p h =
      (h.0, h.1 ∙ e, h.2, omega arith, λ _. h.4 p)

Fetched-cases :
    {B : Type 0} (r : Fetched B)
    → ((bs : List B) × (r ≡ blocks bs))
      ⊎ ((e : String) × (r ≡ broken e))
      ⊎ ((e : String) × (r ≡ exhausted e))
Fetched-cases (blocks bs) = inl (bs, refl)
Fetched-cases (broken e) = inr (inl (e, refl))
Fetched-cases (exhausted e) = inr (inr (e, refl))

-- The size of a retry.
retry_size :
    (c : ℕ) (m : BatchSizeManager)
    → suc c < 2 ^ 53
    → suc c ≢ 1
    → (1 ≤ (on_failure (suc c) m).0) × ((on_failure (suc c) m).0 ≤ c)
retry_size c m s ne =
    let size = on_failure_size (suc c) m s in (size.1, omega (arith, size.2 (omega arith)))

module _ (env : Env) (law : Contract env) (plugin : Plugin) (catch_up : Bool) where
  -- Under the contract with its surroundings, with more fuel than blocks are asked for, and with a
  -- valid batch size manager whose maximum they do not exceed, a fetch returns; it stores nothing,
  -- keeps the manager valid, and what it returns are consecutive blocks from the start, at most as
  -- many as were asked for and at least one when any was.
  pub fetch_blocks-Fetches :
      (fuel start count : ℕ) (m : BatchSizeManager) (w : env.World)
      → count < fuel
      → count < 2 ^ 53
      → count ≤ m.max_size
      → IsValid m
      → Fetches env law start count w (fetch_blocks env plugin catch_up fuel start count m w)
  unfolding fetch_blocks
  fetch_blocks-Fetches zero start count m w f s l v = elim f [ ]
  fetch_blocks-Fetches (suc fuel) start zero m w f s l v = (v, refl, refl, omega arith, λ h. h)
  fetch_blocks-Fetches (suc fuel) start (suc c) m w f s l v =
      let keeps = law.batch_get_keeps start (suc c) w in
      elim (Fetched-cases (env.batch_get start (suc c) w).0) [
        | inl (bs, e) ↦
            rw (e, fetch_blocks, Fetches)
              (let size = law.batch_get_length start (suc c) w bs (omega arith) e in
                (v, keeps, law.batch_get_heights start (suc c) w bs e, size.1, λ _. size.0))
        | inr (inl (x, e)) ↦ rw (e, fetch_blocks, Fetches) (v, keeps)
        | inr (inr (x, e)) ↦
            rw (e, fetch_blocks, Fetches)
              (let ne : suc c ≢ 1 = λ one.
                  law.batch_get_single start w x
                    (subst (λ n. (env.batch_get start n w).0 ≡ exhausted x) one e) in
                let size = retry_size c m s ne in
                let r = on_failure (suc c) m in
                let w' = (env.batch_get start (suc c) w).1 in
                Fetches-mono env law start (suc c) r.0 w w' _ keeps (omega arith) size.0 (
                  fetch_blocks-Fetches fuel start r.0 r.1 w' (omega arith) (omega arith)
                    (omega (arith, max_size-on_failure (suc c) m))
                    (on_failure-IsValid (suc c) m l v)))
      ]

  -- The cut of consecutive blocks is a prefix of them, and it keeps the first.
  pub cut-Consecutive :
      (max_txs acc s : ℕ) (bs : List env.Block)
      → Consecutive env law s bs
      → Consecutive env law s (cut env plugin catch_up max_txs acc bs)
  unfolding cut
  cut-Consecutive max_txs acc s [] h = h
  cut-Consecutive max_txs acc s (b ∷ bs) h =
      elim (Bool-cases (ltb max_txs (u64 (acc + env.actions b)))) [
        | inl e ↦ rw e (ground arith)
        | inr e ↦
            rw e (ground (arith, cut-Consecutive max_txs (u64 (acc + env.actions b)) (s + 1) bs))
      ]

  pub length-cut :
      (max_txs acc : ℕ) (bs : List env.Block)
      → (length (cut env plugin catch_up max_txs acc bs) ≤ length bs)
        × (1 ≤ length bs → 1 ≤ length (cut env plugin catch_up max_txs acc bs))
  unfolding cut
  length-cut max_txs acc [] = (omega arith, λ h. h)
  length-cut max_txs acc (b ∷ bs) =
      ground (arith, length-cut max_txs (u64 (acc + env.actions b)) bs)

module _ (env : Env) (plugin : Plugin) (catch_up : Bool) where
  -- While the DAO calls even one block too large, a fetch of one block does not return, whatever
  -- the fuel.
  pub fetch_blocks_stuck :
      (fuel start : ℕ) (m : BatchSizeManager) (w : env.World)
      → ((v : env.World) → (e : String) × ((env.batch_get start 1 v).0 ≡ exhausted e))
      → fetch_blocks env plugin catch_up fuel start 1 m w ≡ none
  unfolding fetch_blocks
  fetch_blocks_stuck zero start m w h = refl
  fetch_blocks_stuck (suc fuel) start m w h =
      let size = on_failure_size 1 m (omega arith) in
      let w' = (env.batch_get start 1 w).1 in
      rw ((h w).1, fetch_blocks, size.3 (omega arith))
        (fetch_blocks_stuck fuel start (on_failure 1 m).1 w' h)
