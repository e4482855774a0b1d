-- ===== src/Server/Batch.antt =====
-- server/batch_size_manager.go: how many blocks the runner asks for at once. The mutex makes each
-- method one step; the logger and the plugin's name serve logging alone and are left out.
pub mod Bounds
use iotex_analyser.Base.{ℕ, ◌+◌, ◌-◌, ◌%◌, ◌^◌, ltb, leb, if◌then◌else◌}
use iotex_analyser.Server.Float.{scale_up, scale_down}

abbrev pub increase_threshold : ℕ
increase_threshold = 10

abbrev pub min_batch_size : ℕ
min_batch_size = 1

pub record BatchSizeManager : Type 0 where
  pub effective_size : ℕ
  pub max_size : ℕ
  pub consecutive_successes : ℕ

-- `newBatchSizeManager`
unfoldable pub new_manager : ℕ → BatchSizeManager
new_manager initial = record {
  effective_size = initial;
  max_size = initial;
  consecutive_successes = 0;
}

-- `getCurrent`
unfoldable pub get_current : BatchSizeManager → ℕ
get_current m = m.effective_size

-- `onSuccess`
unfoldable pub on_success : BatchSizeManager → BatchSizeManager
on_success m =
    let successes = m.consecutive_successes + 1 in
    let counted : BatchSizeManager = record m { consecutive_successes = successes } in
    let scaled = scale_up m.effective_size in
    let new_size = if ltb m.max_size scaled then m.max_size else scaled in
    if leb increase_threshold successes
    then (if ltb m.effective_size new_size
        then record m { effective_size = new_size; consecutive_successes = 0 }
        else counted)
    else counted

-- `onFailure`, with the size that it returns.
unfoldable pub on_failure : ℕ → BatchSizeManager → ℕ × BatchSizeManager
on_failure failed m =
    let scaled = scale_down failed in
    let new_size = if ltb scaled min_batch_size then min_batch_size else scaled in
    (new_size, record m { effective_size = new_size; consecutive_successes = 0 })
