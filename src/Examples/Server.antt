-- ===== src/Examples/Server.antt =====
-- A runner over a DAO that answers at most two blocks at once, and a plugin that fails at first
-- (server/runner.go).
use iotex_analyser.Base.{
  ok-injective, string_eq, ◌==◌, ℕ, zero, suc, ◌+◌, ◌≤◌, ◌≡◌, ◌≢◌, refl, String, true, false, none,
  some, List, [], ◌∷◌, ◌++◌, map, ok, ltb, if◌then◌else◌, length, range_from, last_or, arith, inl,
  Bool-cases, inr, ap, ◌==◌, sym, ◌∙◌,
}
use iotex_analyser.Server.Batch.{new_manager}
use iotex_analyser.Server.Batch.Bounds.{
  IsValid, new_manager-IsValid, Event, success, failure, after_all, new_manager-after_all,
}
use iotex_analyser.Server.Runner.{
  Env, Plugin, Runner, Fetched, blocks, exhausted, Outcome, done, failed, fetch_blocks, process,
  rounds, get_tip_height, lowest, start_ok,
}
use iotex_analyser.Server.Runner.Contract.{Contract}
use iotex_analyser.Server.Runner.Fetch.{Fetches, fetch_blocks-Fetches, fetch_blocks_stuck}
use iotex_analyser.Server.Runner.Gapless.{Processes, process-Processes}
use iotex_analyser.Server.Runner.TipHeight.{IsLeast, get_tip_height-IsLeast}
use iotex_analyser.Server.Runner.Rounds.{IsGapless, Runs, rounds-Runs}

-- The plugin's blocks, by their heights, and how often it will still fail.
record Stage : Type 0 where
  blocks_of : List ℕ
  faults : ℕ

abbrev put_stage : List ℕ → Stage → Outcome × Stage
put_stage bs w = elim w.faults [
  | zero ↦ (done, record w { blocks_of = w.blocks_of ++ bs })
  | suc n ↦ (failed "deadlock", record w { faults = n })
]

abbrev get_stage : ℕ → ℕ → Stage → Fetched ℕ × Stage
get_stage start count w =
    (if ltb 2 count then exhausted "too large" else blocks (range_from start count), w)

abbrev stage_env : Env
stage_env = record {
  World = Stage;
  Block = ℕ;
  actions = λ b. 3;
  dao_height = λ w. (ok 9, w);
  index_height = λ name w. (ok (last_or 4 w.blocks_of), w);
  dao_block = λ h w. (ok h, w);
  chain_block = λ h w. (ok h, w);
  batch_get = get_stage;
  put_block = λ b w. put_stage (b ∷ []) w;
  put_blocks = put_stage;
  is_running = λ w. (true, w);
  ctx_done = λ w. (false, w);
}

put_stage_done :
    (bs : List ℕ) (w : Stage)
    → (put_stage bs w).0 ≡ done
    → (put_stage bs w).1.blocks_of ≡ w.blocks_of ++ bs
put_stage_done bs w h = ground arith

put_stage_undone :
    (bs : List ℕ) (w : Stage)
    → (put_stage bs w).0 ≢ done
    → (put_stage bs w).1.blocks_of ≡ w.blocks_of
put_stage_undone bs w h = ground arith

map_same : (xs : List ℕ) → map (λ (b : ℕ). b) xs ≡ xs
map_same [] = refl
map_same (x ∷ xs) = rw (map_same xs)

length-range_from : (s c : ℕ) → length (range_from s c) ≡ c
length-range_from s zero = refl
length-range_from s (suc c) = omega (arith, length-range_from (s + 1) c)

get_stage_heights :
    (s c : ℕ) (w : Stage) (bs : List ℕ)
    → (get_stage s c w).0 ≡ blocks bs
    → (map (λ (b : ℕ). b) bs ≡ range_from s (length bs)) × (length bs ≡ c)
get_stage_heights s c w bs h = elim (Bool-cases (ltb 2 c)) [
  | inl large ↦ absurd (let h' : exhausted "too large" ≡ blocks bs = rw large at h in cc)
  | inr small ↦
      (let h' : blocks (range_from s c) ≡ blocks bs = rw small at h in
        let same : range_from s c ≡ bs = cc in
        let size : length bs ≡ c = ap length (sym same) ∙ length-range_from s c in
        (map_same bs ∙ sym same ∙ ap (range_from s) (sym size), size))
]

-- A block alone is never too large.
get_stage_single : (s : ℕ) (w : Stage) (e : String) → (get_stage s 1 w).0 ≢ exhausted e
get_stage_single s w e h = let h' : blocks (range_from s 1) ≡ exhausted e = h in cc

abbrev stage_contract : Contract stage_env
stage_contract = record {
  height = λ b. b;
  stored = λ w. w.blocks_of;
  dao_height_keeps = λ w. refl;
  index_height_keeps = λ name w. refl;
  dao_block_keeps = λ h w. refl;
  chain_block_keeps = λ h w. refl;
  batch_get_keeps = λ s c w. refl;
  is_running_keeps = λ w. refl;
  ctx_done_keeps = λ w. refl;
  dao_block_height = λ h w b e. sym (ok-injective e);
  chain_block_height = λ h w b e. sym (ok-injective e);
  batch_get_heights = λ s c w bs e. (get_stage_heights s c w bs e).0;
  batch_get_length =
      λ s c w bs one e. (let l = (get_stage_heights s c w bs e).1 in (omega arith, omega arith));
  batch_get_single = get_stage_single;
  put_block_done = λ b w h. put_stage_done (b ∷ []) w h;
  put_block_undone = λ b w h. put_stage_undone (b ∷ []) w h;
  put_blocks_done = put_stage_done;
  put_blocks_undone = put_stage_undone;
}

abbrev index_plugin : Plugin
index_plugin = record { name = "votes"; batch = some 4; dependents = "base" ∷ [] }

abbrev idle : Runner
idle = record {
  status = start_ok;
  error = none;
  batch = new_manager 4;
  start_height = 0;
  blocks_processed = 0;
  txs_processed = 0;
  stats_initialized = false;
}

abbrev empty : Stage
empty = record { blocks_of = []; faults = 1 }

four_IsValid : IsValid (new_manager 4)
four_IsValid = new_manager-IsValid 4 (omega arith) (omega arith)

empty-IsGapless : IsGapless stage_env stage_contract 4 9 empty
empty-IsGapless = record { count = 0; heights = refl; within = omega arith }

committed_stage :
    (w : Stage) (h : ℕ)
    → (stage_env.index_height "votes" w).0 ≡ ok h
    → h ≡ last_or 4 (map (λ (b : ℕ). b) w.blocks_of)
committed_stage w h e =
    let e' : ok (last_or 4 w.blocks_of) ≡ ok h = e in
    let same : last_or 4 w.blocks_of ≡ h = cc in
    sym same ∙ ap (last_or 4) (sym (map_same w.blocks_of))

dao_within : (w : Stage) (d : ℕ) → (stage_env.dao_height w).0 ≡ ok d → d ≤ 9
dao_within w d e = let e' : ok 9 ≡ ok d = e in let same : 9 ≡ d = cc in omega arith

rounds-Runs_example :
    Runs stage_env stage_contract index_plugin false 4 9 committed_stage dao_within
      (omega arith)
      (rounds stage_env index_plugin false 3 20 20 idle empty)
rounds-Runs_example =
    rounds-Runs stage_env stage_contract index_plugin false 4 9 committed_stage dao_within
      (omega arith) 3 20 20 idle empty four_IsValid (omega arith) (omega arith) empty-IsGapless

process-Processes_example :
    Processes stage_env stage_contract 9 idle 5 empty
      (process stage_env index_plugin false 20 20 9 idle 5 empty)
process-Processes_example =
    process-Processes stage_env stage_contract index_plugin false 20 20 9 idle 5 empty four_IsValid
      (omega arith) (omega arith) (omega arith) (omega arith)

fetch_blocks-Fetches_example :
    Fetches stage_env stage_contract 5 4 empty
      (fetch_blocks stage_env index_plugin false 9 5 4 (new_manager 4) empty)
fetch_blocks-Fetches_example =
    fetch_blocks-Fetches stage_env stage_contract index_plugin false 9 5 4 (new_manager 4) empty
      (omega arith) (omega arith) (unfold new_manager in omega arith) four_IsValid

abbrev height_of : String → ℕ
height_of name = if name == "base" then 6 else 3

abbrev tip_env : Env
tip_env = record stage_env { index_height = λ name w. (ok (height_of name), w) }

height_of_answer :
    (name : String) (w : Stage) (v : ℕ)
    → (tip_env.index_height name w).0 ≡ ok v
    → v ≡ height_of name
height_of_answer name w v e = let e' : ok (height_of name) ≡ ok v = e in cc

get_tip_height_run : (get_tip_height tip_env index_plugin false empty).0 ≡ ok 6
unfolding get_tip_height lowest
get_tip_height_run = refl

get_tip_height-IsLeast_example :
    (dao : ℕ) × ((tip_env.dao_height empty).0 ≡ ok dao) × IsLeast height_of ("base" ∷ []) dao 6
get_tip_height-IsLeast_example =
    get_tip_height-IsLeast tip_env index_plugin false height_of height_of_answer empty 6
      get_tip_height_run

-- A DAO that calls every answer too large.
abbrev full_env : Env
full_env = record stage_env { batch_get = λ s c w. (exhausted "too large", w) }

fetch_blocks_stuck_example :
    fetch_blocks full_env index_plugin false 100 5 1 (new_manager 4) empty ≡ none
fetch_blocks_stuck_example =
    fetch_blocks_stuck full_env index_plugin false 100 5 (new_manager 4) empty
      (λ v. ("too large", refl))

abbrev events : List Event
events = success ∷ failure 4 ∷ failure 2 ∷ success ∷ []

new_manager-after_all_example :
    IsValid (after_all events (new_manager 4)) × ((after_all events (new_manager 4)).max_size ≡ 4)
new_manager-after_all_example =
    new_manager-after_all 4 events (omega arith) (omega arith)
      (tt, (omega arith, (omega arith, (tt, tt))))
