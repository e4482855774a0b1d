-- ===== src/Server/Runner/Rounds.antt =====
-- The goroutine of a runner over any number of passes (server/runner.go): it takes up where the
-- plugin's committed index height stands, so failed passes and restarts lose and repeat nothing.
use iotex_analyser.Base.{
  zero, suc, ℕ, ◌+◌, ◌-◌, ◌^◌, ◌≤◌, ◌<◌, ◌≡◌, ◌∙◌, refl, sym, ap, ap, inl, inr, String, Bool, true,
  false, Option, none, some, List, [], ◌∷◌, ◌++◌, map, ok, err, arith, ltb, if◌then◌else◌,
  Bool-cases, Result-cases, range_from, range_from-append, last_or, last_or-range_from,
}
use iotex_analyser.Server.Batch.Bounds.{IsValid}
use iotex_analyser.Server.Runner.{
  Env, Plugin, Runner, lowest, get_tip_height, next_height, after_round, round, rounds, u64, go_on,
  init_stats,
}
use iotex_analyser.Server.Runner.Contract.{Contract}
use iotex_analyser.Server.Runner.Gapless.{Advances, Processes, process-Processes}

-- The plugin has stored the blocks above `base`, each once and in order, and none above `bound`.
pub record IsGapless (env : Env) (law : Contract env) (base bound : ℕ) (w : env.World)
    : Type 0 where
  pub count : ℕ
  pub heights : map law.height (law.stored w) ≡ range_from (base + 1) count
  pub within : base + count ≤ bound

module _ (env : Env) (law : Contract env) (plugin : Plugin) (catch_up : Bool) where
  lowest-keeps :
      (names : List String) (dep : ℕ) (w : env.World)
      → law.stored (lowest env plugin catch_up names dep w).1 ≡ law.stored w
  unfolding lowest
  lowest-keeps [] dep w = refl
  lowest-keeps (name ∷ names) dep w =
      let keeps = law.index_height_keeps name w in
      elim (Result-cases (env.index_height name w).0) [
        | inl (v, q) ↦
            rw (q, lowest)
              (lowest-keeps names (if ltb v dep then v else dep) (env.index_height name w).1
                ∙ keeps)
        | inr (x, q) ↦ rw (q, lowest) keeps
      ]

  lowest-le :
      (names : List String) (dep : ℕ) (w : env.World) (h : ℕ)
      → (lowest env plugin catch_up names dep w).0 ≡ ok h
      → h ≤ dep
  unfolding lowest
  lowest-le [] dep w h e = let same : dep ≡ h = cc in omega arith
  lowest-le (name ∷ names) dep w h e = elim (Result-cases (env.index_height name w).0) [
    | inl (v, q) ↦
        (let rec =
            lowest-le names (if ltb v dep then v else dep) (env.index_height name w).1 h
              (rw (q, lowest) at e) in
          ground arith)
    | inr (x, q) ↦ absurd (let e' : err x ≡ ok h = rw (q, lowest) at e in cc)
  ]

  get_tip_height-keeps :
      (w : env.World) → law.stored (get_tip_height env plugin catch_up w).1 ≡ law.stored w
  unfolding get_tip_height
  get_tip_height-keeps w =
      let keeps = law.dao_height_keeps w in
      elim (Result-cases (env.dao_height w).0) [
        | inl (v, q) ↦
            rw (q, get_tip_height) (lowest-keeps plugin.dependents v (env.dao_height w).1 ∙ keeps)
        | inr (x, q) ↦ rw (q, get_tip_height) keeps
      ]

  get_tip_height-le :
      (bound : ℕ) (w : env.World) (h : ℕ)
      → ((v : env.World) (d : ℕ) → (env.dao_height v).0 ≡ ok d → d ≤ bound)
      → (get_tip_height env plugin catch_up w).0 ≡ ok h
      → h ≤ bound
  unfolding get_tip_height
  get_tip_height-le bound w h limit e = elim (Result-cases (env.dao_height w).0) [
    | inl (v, q) ↦
        (let at_dao = limit w v q in
          let below =
            lowest-le plugin.dependents v (env.dao_height w).1 h (rw (q, get_tip_height) at e) in
          omega arith)
    | inr (x, q) ↦ absurd (let e' : err x ≡ ok h = rw (q, get_tip_height) at e in cc)
  ]

  next_height-keeps :
      (w : env.World) → law.stored (next_height env plugin catch_up w).1 ≡ law.stored w
  unfolding next_height
  next_height-keeps w =
      let keeps = law.index_height_keeps plugin.name w in
      elim (Result-cases (env.index_height plugin.name w).0) [
        | inl (v, q) ↦ rw (q, next_height) keeps
        | inr (x, q) ↦ rw (q, next_height) keeps
      ]

  next_height_value :
      (w : env.World) (n : ℕ)
      → (next_height env plugin catch_up w).0 ≡ ok n
      → (h : ℕ) × ((env.index_height plugin.name w).0 ≡ ok h) × (n ≡ u64 (h + 1))
  unfolding next_height
  next_height_value w n e = elim (Result-cases (env.index_height plugin.name w).0) [
    | inl (v, q) ↦ (v, q, (let e' : ok (u64 (v + 1)) ≡ ok n = rw (q, next_height) at e in cc))
    | inr (x, q) ↦ absurd (let e' : err x ≡ ok n = rw (q, next_height) at e in cc)
  ]

module _ (env : Env) (law : Contract env) (plugin : Plugin) (catch_up : Bool) (base bound : ℕ)
    (committed : (w : env.World) (h : ℕ)
      → (env.index_height plugin.name w).0 ≡ ok h
      → h ≡ last_or base (map law.height (law.stored w)))
    (limit : (w : env.World) (d : ℕ) → (env.dao_height w).0 ≡ ok d → d ≤ bound)
    (small : bound + 1 < 2 ^ 53) where
  IsGapless-keeps :
      {w w' : env.World}
      → law.stored w' ≡ law.stored w
      → IsGapless env law base bound w
      → IsGapless env law base bound w'
  IsGapless-keeps e g = record {
    count = g.count;
    heights = ap (map law.height) e ∙ g.heights;
    within = g.within;
  }

  -- The next height is the one above the last block that is stored.
  next_height-IsGapless :
      (w : env.World) (n : ℕ)
      → (g : IsGapless env law base bound (next_height env plugin catch_up w).1)
      → (next_height env plugin catch_up w).0 ≡ ok n
      → n ≡ base + 1 + g.count
  next_height-IsGapless w n g e =
      let value = next_height_value env law plugin catch_up w n e in
      let last =
        committed w value.0 value.1
        ∙ ap (λ l. last_or base (map law.height l))
            (sym (next_height-keeps env law plugin catch_up w))
        ∙ ap (last_or base) g.heights in
      omega (arith, value.2, last, last_or-range_from base g.count, g.within)

  Advances-IsGapless :
      {r r' : Runner} {n n' : ℕ} {w w' : env.World}
      → (g : IsGapless env law base bound w) → n ≡ base + 1 + g.count
      → n' ≤ bound + 1
      → Advances env law r n w r' n' w'
      → IsGapless env law base bound w'
  Advances-IsGapless {n = n} {n' = n'} g e le a = record {
    count = g.count + (n' - n);
    heights =
        a.delivered
        ∙ ap (λ l. l ++ range_from n (n' - n)) g.heights
        ∙ ap (λ (s : ℕ). range_from (base + 1) g.count ++ range_from s (n' - n)) e
        ∙ range_from-append (base + 1) g.count (n' - n);
    within = omega (arith, a.forward);
  }

  -- What a pass, and a run of passes, end with.
  abbrev pub Passes : Option (Bool × Runner × env.World) → Type 0
  Passes none = ⊥
  Passes (some (stop, r, w)) = IsValid r.batch × IsGapless env law base bound w

  abbrev pub Runs : Option (Runner × env.World) → Type 0
  Runs none = ⊥
  Runs (some (r, w)) = IsValid r.batch × IsGapless env law base bound w

  go_on-Passes :
      (tip : ℕ) (r : Runner) (next : ℕ) (w : env.World) (x : Option (Runner × ℕ × env.World))
      → (g : IsGapless env law base bound w) → next ≡ base + 1 + g.count
      → tip ≤ bound
      → Processes env law tip r next w x
      → Passes (go_on env plugin catch_up x)
  unfolding go_on
  go_on-Passes tip r next w none g e le h = h
  go_on-Passes tip r next w (some (r', next', w')) g e le h = (
    h.0.valid,
    Advances-IsGapless g e
        (elim h.1 [ inl l ↦ omega (arith, l) | inr l ↦ omega (arith, l, e, g.within) ]) h.0,
  )

  init_stats-IsValid :
      (n : ℕ) (r : Runner) → IsValid r.batch → IsValid (init_stats env plugin catch_up n r).batch
  unfolding init_stats
  init_stats-IsValid n r v = elim (Bool-cases r.stats_initialized) [
    | inl e ↦ rw e v
    | inr e ↦ rw e v
  ]

  -- One pass ends, and keeps the stored blocks gapless, whichever of its calls fails.
  pub round-Passes :
      (fuel fetch_fuel : ℕ) (r : Runner) (w : env.World)
      → IsValid r.batch
      → bound + 1 < fuel
      → bound + 1 < fetch_fuel
      → IsGapless env law base bound w
      → Passes (round env plugin catch_up fuel fetch_fuel r w)
  unfolding round
  round-Passes fuel fetch_fuel r w v f ff g =
      let w₁ = (env.is_running w).1 in
      let g₁ = IsGapless-keeps (law.is_running_keeps w) g in
      let w₂ = (env.ctx_done w₁).1 in
      let g₂ = IsGapless-keeps (law.ctx_done_keeps w₁) g₁ in
      let w₃ = (get_tip_height env plugin catch_up w₂).1 in
      let g₃ = IsGapless-keeps (get_tip_height-keeps env law plugin catch_up w₂) g₂ in
      let w₄ = (next_height env plugin catch_up w₃).1 in
      let g₄ = IsGapless-keeps (next_height-keeps env law plugin catch_up w₃) g₃ in
      elim (Bool-cases (env.is_running w).0) [
        | inr halted ↦ rw (halted, round) (v, g₁)
        | inl running ↦ elim (Bool-cases (env.ctx_done w₁).0) [
          | inl over ↦ rw (running, round, over) (v, g₂)
          | inr alive ↦ elim (Result-cases (get_tip_height env plugin catch_up w₂).0) [
            | inr (x, no_tip) ↦ rw (running, round, alive, no_tip) (v, g₃)
            | inl (tip, is_tip) ↦ elim (Result-cases (next_height env plugin catch_up w₃).0) [
              | inr (x, no_next) ↦ rw (running, round, alive, is_tip, no_next) (v, g₄)
              | inl (next, is_next) ↦
                  rw (running, round, alive, is_tip, is_next)
                    (let below =
                        get_tip_height-le env law plugin catch_up bound w₂ tip limit is_tip in
                      let at_next = next_height-IsGapless w₃ next g₄ is_next in
                      go_on-Passes tip (init_stats env plugin catch_up next r) next w₄ _ g₄ at_next
                        below
                        (process-Processes env law plugin catch_up fuel fetch_fuel tip
                          (init_stats env plugin catch_up next r) next w₄
                          (init_stats-IsValid next r v) (omega arith) (omega arith) (omega arith)
                          (omega arith)))
            ]
          ]
        ]
      ]

  continue-Runs :
      (n fuel fetch_fuel : ℕ) (x : Option (Bool × Runner × env.World))
      → ((r : Runner) (w : env.World)
          → IsValid r.batch
          → IsGapless env law base bound w
          → Runs (rounds env plugin catch_up n fuel fetch_fuel r w))
      → Passes x
      → Runs (after_round env plugin catch_up (rounds env plugin catch_up n fuel fetch_fuel) x)
  unfolding after_round
  continue-Runs n fuel fetch_fuel none go h = h
  continue-Runs n fuel fetch_fuel (some (true, r, w)) go h = h
  continue-Runs n fuel fetch_fuel (some (false, r, w)) go h = go r w h.0 h.1

  -- Under the contract with its surroundings and with a valid batch size manager, over any number
  -- of passes of a runner's goroutine, with any failures of the DAO, of the index table and of the
  -- plugin, every pass ends, and the plugin has stored the blocks above a base height without a
  -- gap, in order and each once, provided that the index height is that of the last stored block,
  -- that DAO heights are at most a bound below 2^53 - 1, that both fuels exceed the bound by more
  -- than 1, and that this holds at the start.
  pub rounds-Runs :
      (n fuel fetch_fuel : ℕ) (r : Runner) (w : env.World)
      → IsValid r.batch
      → bound + 1 < fuel
      → bound + 1 < fetch_fuel
      → IsGapless env law base bound w
      → Runs (rounds env plugin catch_up n fuel fetch_fuel r w)
  unfolding rounds
  rounds-Runs zero fuel fetch_fuel r w v f ff g = (v, g)
  rounds-Runs (suc n) fuel fetch_fuel r w v f ff g =
      continue-Runs n fuel fetch_fuel _
        (λ r' w' v' g'. rounds-Runs n fuel fetch_fuel r' w' v' f ff g')
        (round-Passes fuel fetch_fuel r w v f ff g)
