-- ===== src/Server/Runner/Gapless.antt =====
-- The loop of a runner (server/runner.go) hands every block to its plugin once and in order.
use iotex_analyser.Base.{
  zero, suc, none, some, Result, ok, err, leb, leb→le, ℕ, ◌+◌, ◌-◌, ◌^◌, ◌≤◌, ◌<◌, ◌≡◌, refl, sym,
  ap, ◌∙◌, ◌⊎◌, inl, inr, String, Bool, true, false, List, ◌++◌, map, arith, length, range_from,
  range_from-split, subst, Option, some, suc, Bool-cases,
}
use mathlib.Core.List.{append-nil, append_assoc, map-append}
use iotex_analyser.Server.Batch.Bounds.{IsValid}
use iotex_analyser.Server.Runner.{
  Env, Plugin, Runner, Outcome, done, failed, panicked, Work, single, several, put, u64, put_error,
  put_ok, after_put, after_read, process, BatchSizeManager,
}
use iotex_analyser.Server.Runner.Contract.{Contract}
use iotex_analyser.Server.Runner.Fetch.{Consecutive}
use iotex_analyser.Server.Runner.Read.{work_blocks, Reads, read-Reads}

Outcome-cases :
    (o : Outcome) → (o ≡ done) ⊎ ((e : String) × (o ≡ failed e)) ⊎ ((e : String) × (o ≡ panicked e))
Outcome-cases done = inl refl
Outcome-cases (failed e) = inr (inl (e, refl))
Outcome-cases (panicked e) = inr (inr (e, refl))

module _ (env : Env) (law : Contract env) where
  -- Between two states of the loop the plugin has stored the blocks of the heights from `next` to
  -- below `next'`, each once and in order, and they are counted.
  pub record Advances (r : Runner) (next : ℕ) (w : env.World) (r' : Runner) (next' : ℕ)
      (w' : env.World) : Type 0 where
    pub forward : next ≤ next'
    pub delivered :
        map law.height (law.stored w')
        ≡ map law.height (law.stored w) ++ range_from next (next' - next)
    pub counted : u64 r'.blocks_processed ≡ u64 (r.blocks_processed + (next' - next))
    pub valid : IsValid r'.batch

  -- How the closure `putBlocks` ends: it leaves the loop with nothing stored and an error noted, or
  -- goes on with the blocks stored.
  abbrev pub Puts :
      ℕ → Runner → ℕ → env.World → List env.Block → Bool × Runner × ℕ × env.World → Type 0
  Puts tip r next w bs (true, r', next', w') =
      (law.stored w' ≡ law.stored w)
      × (next' ≡ next)
      × (r'.status ≡ put_error)
      × (r'.blocks_processed ≡ r.blocks_processed)
      × (r'.batch ≡ r.batch)
  Puts tip r next w bs (false, r', next', w') =
      (law.stored w' ≡ law.stored w ++ bs)
      × (next' ≡ next + length bs)
      × (r'.status ≡ put_ok)
      × (r'.blocks_processed ≡ u64 (r.blocks_processed + length bs))
      × (r'.batch ≡ r.batch)

module _ (env : Env) (law : Contract env) (plugin : Plugin) (catch_up : Bool) where
  pub put-Puts :
      (tip : ℕ) (work : Work env.Block) (r : Runner) (next : ℕ) (w : env.World)
      → next + length (work_blocks work) ≤ tip + 1
      → tip < 2 ^ 53
      → Puts env law tip r next w (work_blocks work) (put env plugin catch_up work r next w)
  unfolding put
  put-Puts tip (single b) r next w le s = elim (Outcome-cases (env.put_block b w).0) [
    | inl e ↦
        rw (e, put, Puts)
          (
            law.put_block_done b w e,
            omega arith,
            refl,
            ap (λ n. u64 (r.blocks_processed + n)) (omega arith),
            refl,
          )
    | inr (inl (x, e)) ↦
        rw (e, put, Puts) (law.put_block_undone b w (λ d. cc (sym e ∙ d)), refl, refl, refl, refl)
    | inr (inr (x, e)) ↦
        rw (e, put, Puts) (law.put_block_undone b w (λ d. cc (sym e ∙ d)), refl, refl, refl, refl)
  ]
  put-Puts tip (several bs) r next w le s = elim (Outcome-cases (env.put_blocks bs w).0) [
    | inl e ↦ rw (e, put, Puts) (law.put_blocks_done bs w e, omega arith, refl, refl, refl)
    | inr (inl (x, e)) ↦
        rw (e, put, Puts) (law.put_blocks_undone bs w (λ d. cc (sym e ∙ d)), refl, refl, refl, refl)
    | inr (inr (x, e)) ↦
        rw (e, put, Puts) (law.put_blocks_undone bs w (λ d. cc (sym e ∙ d)), refl, refl, refl, refl)
  ]

module _ (env : Env) (law : Contract env) where
  -- Steps that store nothing.
  Advances-stay :
      {r r' : Runner} {next next' : ℕ} {w w' : env.World}
      → IsValid r'.batch
      → law.stored w' ≡ law.stored w
      → next' ≡ next
      → r'.blocks_processed ≡ r.blocks_processed
      → Advances env law r next w r' next' w'
  Advances-stay {next = next} {next' = next'} {w = w} v e n p =
      let zero_left : 0 ≡ next' - next = omega arith in
      record {
        forward = omega arith;
        delivered =
            ap (map law.height) e
            ∙ sym (append-nil (map law.height (law.stored w)))
            ∙ ap (λ n. map law.height (law.stored w) ++ range_from next n) zero_left;
        counted = omega arith;
        valid = v;
      }

  Advances-trans :
      {r r' r'' : Runner} {next next' next'' : ℕ} {w w' w'' : env.World}
      → Advances env law r next w r' next' w'
      → Advances env law r' next' w' r'' next'' w''
      → Advances env law r next w r'' next'' w''
  Advances-trans {next = a} {next' = b} {next'' = c} {w = w} p q = record {
    forward = omega arith;
    delivered =
        q.delivered
        ∙ ap (λ l. l ++ range_from b (c - b)) p.delivered
        ∙ append_assoc (map law.height (law.stored w)) _ _
        ∙ ap (λ l. map law.height (law.stored w) ++ l) (range_from-split a b c p.forward q.forward);
    counted = omega (arith, p.counted, q.counted);
    valid = q.valid;
  }

  -- One pass that stores `bs`.
  Advances-put :
      (tip : ℕ) (r r' : Runner) (next next' : ℕ) (w w' : env.World) (bs : List env.Block)
      → IsValid r.batch
      → Consecutive env law next bs
      → Puts env law tip r next w bs (false, r', next', w')
      → Advances env law r next w r' next' w'
  Advances-put tip r r' next next' w w' bs v con p = record {
    forward = omega arith;
    delivered =
        ap (map law.height) p.0
        ∙ map-append law.height (law.stored w) bs
        ∙ ap (λ l. map law.height (law.stored w) ++ l)
            (con ∙ ap (range_from next) (omega (arith, p.1)));
    counted = omega (arith, p.1, p.3);
    valid = subst IsValid (sym p.4) v;
  }

module _ (env : Env) (law : Contract env) where
  -- What the loop has done when it ends.
  abbrev pub Processes : ℕ → Runner → ℕ → env.World → Option (Runner × ℕ × env.World) → Type 0
  Processes tip r next w none = ⊥
  Processes tip r next w (some (r', next', w')) =
      Advances env law r next w r' next' w' × ((next' ≤ tip + 1) ⊎ (next' ≡ next))

module _ (env : Env) (law : Contract env) (plugin : Plugin) (catch_up : Bool) where
  Processes-trans :
      (tip : ℕ) (r r' : Runner) (next next' : ℕ) (w w' : env.World)
      (x : Option (Runner × ℕ × env.World))
      → Advances env law r next w r' next' w'
      → next' ≤ tip + 1
      → Processes env law tip r' next' w' x
      → Processes env law tip r next w x
  Processes-trans tip r r' next next' w w' none a le h = h
  Processes-trans tip r r' next next' w w' (some (r'', next'', w'')) a le h =
      (Advances-trans env law a h.0, elim h.1 [ inl l ↦ inl l | inr e ↦ inl (omega (arith, e)) ])

  module _ (tip : ℕ) (again : Runner → ℕ → env.World → Option (Runner × ℕ × env.World)) where
    -- The rest of the loop keeps the statement from the height `least` on.
    abbrev Continues : ℕ → Type 0
    Continues least =
        (r : Runner) (next : ℕ) (w : env.World)
        → IsValid r.batch
        → least ≤ next
        → Processes env law tip r next w (again r next w)

    after_put-Processes :
        (r : Runner) (next : ℕ) (w : env.World) (bs : List env.Block)
        (x : Bool × Runner × ℕ × env.World)
        → Continues (next + 1)
        → IsValid r.batch
        → Consecutive env law next bs
        → next + length bs ≤ tip + 1
        → 1 ≤ length bs
        → Puts env law tip r next w bs x
        → Processes env law tip r next w (after_put env plugin catch_up again x)
    unfolding after_put
    after_put-Processes r next w bs (true, r', next', w') go v con le pos p =
        (Advances-stay env law (subst IsValid (sym p.4) v) p.0 p.1 p.3, inr p.1)
    after_put-Processes r next w bs (false, r', next', w') go v con le pos p =
        let a = Advances-put env law tip r r' next next' w w' bs v con p in
        Processes-trans tip r r' next next' w w' _ a (omega (arith, p.1))
          (go r' next' w' a.valid (omega (arith, p.1)))

    after_read-Processes :
        (r r₀ : Runner) (next : ℕ) (w : env.World)
        (x : Option (Result String (Work env.Block) × BatchSizeManager × env.World))
        → Continues (next + 1)
        → tip < 2 ^ 53
        → Reads env law next tip w x
        → Processes env law tip r next w (after_read env plugin catch_up again r next x)
    unfolding after_read
    after_read-Processes r r₀ next w none go s h = h
    after_read-Processes r r₀ next w (some (err e, m, w')) go s h =
        (Advances-stay env law h.0 h.1 refl refl, inr refl)
    after_read-Processes r r₀ next w (some (ok work, m, w')) go s h =
        let r' : Runner = record r { batch = m } in
        Processes-trans tip r r' next next w w' _ (Advances-stay env law h.0 h.1 refl refl)
          (omega arith)
          (after_put-Processes r' next w' (work_blocks work) _ go h.0 h.2 h.3 h.4
            (put-Puts env law plugin catch_up tip work r' next w' h.3 s))

  -- Under the contract with its surroundings and with a valid batch size manager, the inner loop
  -- ends, given fuel for one pass more than the blocks that are left up to a tip below 2^53, and as
  -- much for each fetch. It hands the plugin the blocks from the next height on, each once and in
  -- order, leaves the counter of blocks in step with them, and goes no further than the tip.
  pub process-Processes :
      (fuel fetch_fuel tip : ℕ) (r : Runner) (next : ℕ) (w : env.World)
      → IsValid r.batch
      → tip < 2 ^ 53
      → 1 ≤ fuel
      → tip + 1 < fuel + next
      → tip + 1 < fetch_fuel + next
      → Processes env law tip r next w (process env plugin catch_up fuel fetch_fuel tip r next w)
  unfolding process
  process-Processes zero fetch_fuel tip r next w v s one f g = elim one [ ]
  process-Processes (suc fuel) fetch_fuel tip r next w v s one f g =
      elim (Bool-cases (leb next tip)) [
        | inr past ↦ rw (past, process) (Advances-stay env law v refl refl refl, inr refl)
        | inl more ↦ elim (Bool-cases (env.is_running w).0) [
          | inr stopped ↦
              rw (more, process, stopped)
                (Advances-stay env law v (law.is_running_keeps w) refl refl, inr refl)
          | inl running ↦
              rw (more, process, running)
                (let w' = (env.is_running w).1 in
                  Processes-trans tip r r next next w w' _
                    (Advances-stay env law v (law.is_running_keeps w) refl refl)
                    (omega (arith, leb→le next tip more))
                    (after_read-Processes tip (process env plugin catch_up fuel fetch_fuel tip) r r
                      next w' _
                      (λ r' next' w'' v' le.
                        process-Processes fuel fetch_fuel tip r' next' w'' v' s
                          (omega (arith, leb→le next tip more)) (omega arith) (omega arith))
                      s
                      (read-Reads env law plugin catch_up fetch_fuel next tip r.batch w' v
                        (leb→le next tip more) s g)))
        ]
      ]
