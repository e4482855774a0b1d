-- ===== src/VoterReward/Blocks.antt =====
-- service/voter_reward/plugin.go: a block's logs are read into the pending rows.
pub mod Keeping
pub mod Reading
pub mod Memos
pub mod Tallied
pub mod Emitters
use iotex_analyser.Base.{
  ℕ, ◌+◌, ◌%◌, ◌^◌, String, Bool, true, false, not, ◌&&◌, ◌||◌, Option, none, some, List, [], ◌∷◌,
  ◌++◌, ok, nat_beq, ◌==◌, string_eq, nat_eq, if◌then◌else◌, length,
}
use iotex_analyser.Base.Stateful.{pure, lift, modify, ◌>>=◌, ◌>>◌, continue_with}
use iotex_analyser.Base.GoMap.{GoMap, lookup, insert, has}
use iotex_analyser.StakingLog.{Log}
use iotex_analyser.VoterReward.{
  DelegateSnapshot, VoterPlugin, EraRow, EraSet, Distribution, CandidateInfo, edit_era, is_era_done,
}
use iotex_analyser.VoterReward.Reader.{DistributionState, read_distribution_state}
use iotex_analyser.VoterReward.Candidates.{lookup_candidate}
use iotex_analyser.VoterReward.Decode.{
  Codec, DistributionRow, FrozenSnapshot, DestinationChange, CursorProgress, DrainOverrun,
  Bookkeeping, decode_distribution, decode_opt_in, decode_freeze, decode_destination,
  decode_reward_bookkeeping,
}
use iotex_analyser.VoterReward.Plan.{
  Chain, Steps, client_of, ensure_era_plan, index_frozen_era, refresh_candidates_if_needed,
}

-- A receipt of the block: its action's hash in hex, and its logs.
pub record BlockReceipt : Type 0 where
  pub action_hash : String
  pub logs : List (Option Log)

pub record ChainBlock : Type 0 where
  pub height : ℕ
  pub receipts : List BlockReceipt

-- Where a log stands.
pub record Place : Type 0 where
  pub height : ℕ
  pub epoch : ℕ
  pub action_hash : String
  pub log_index : ℕ

abbrev pub name_of : Option CandidateInfo → String
name_of none = ""
name_of (some info) = info.name

abbrev pub distribution_of : Place → DistributionRow → VoterPlugin → Distribution
distribution_of at row p = record {
  block_height = at.height;
  epoch_number = at.epoch;
  era = row.era;
  action_hash = at.action_hash;
  log_index = at.log_index;
  row_index = row.row_index;
  delegate_id = row.delegate;
  delegate_name = name_of (lookup_candidate row.delegate p.candidates);
  voter_address = row.voter;
  recipient_address = row.recipient;
  amount = row.amount;
  compounded = row.compounded;
  compound_bucket_id = row.compound_bucket_id;
}

abbrev pub count_voter : ℕ → ℕ → EraRow → EraRow
count_voter amount height row = record row {
  voter_count = (row.voter_count + 1) % 2 ^ 64;
  total_distributed = row.total_distributed + amount;
  last_chunk_at = height;
}

-- A row of a distribution log: the pending row, and the era's running totals.
unfoldable pub add_row : Place → DistributionRow → VoterPlugin → VoterPlugin
add_row at row p =
    edit_era row.era (count_voter row.amount at.height)
      (record p { pending_rows = p.pending_rows ++ (distribution_of at row p ∷ []) })

-- An opt-in that was not seen before.
unfoldable pub see_opt_in : String → ℕ → VoterPlugin → VoterPlugin
see_opt_in id height p =
    if id == "" || has id p.opt_in_seen
    then p
    else record p { opt_in_seen = insert id height p.opt_in_seen }

-- `recordFrozenSnapshot`
unfoldable pub record_frozen_snapshot : FrozenSnapshot → VoterPlugin → VoterPlugin
record_frozen_snapshot f p =
    let by_delegate : GoMap String DelegateSnapshot = elim (lookup f.era p.frozen_snaps) [
      | none ↦ []
      | some m ↦ m
    ] in
    record p {
      frozen_snaps = insert f.era (insert f.delegate f.snapshot by_delegate) p.frozen_snaps;
    }

abbrev pub see_freeze : Option FrozenSnapshot → VoterPlugin → VoterPlugin
see_freeze none p = p
see_freeze (some f) p = record_frozen_snapshot f p

abbrev pub add_destination : Place → Option DestinationChange → VoterPlugin → VoterPlugin
add_destination at none p = p
add_destination at (some change) p = record p {
  pending_destinations =
      p.pending_destinations
      ++ (record {
        block_height = at.height;
        action_hash = at.action_hash;
        voter_address = change.voter;
        old_recipient = change.old_recipient;
        new_recipient = change.new_recipient;
      }
          ∷ []);
}

abbrev pub chunk_row : CursorProgress → ℕ → EraRow → EraRow
chunk_row progress height row = record row {
  scan_phase = progress.scan_phase;
  resume_voter = progress.resume_voter;
  last_chunk_at = height;
}

abbrev pub mark_chunked : ℕ → VoterPlugin → VoterPlugin
mark_chunked era p = record p { chunk_eras = insert era tt p.chunk_eras }

abbrev pub with_residue : ℕ → EraRow → EraRow
with_residue residue row = record row { overrun_residue = residue }

abbrev pub see_overrun : Option DrainOverrun → VoterPlugin → VoterPlugin
see_overrun none p = p
see_overrun (some overrun) p = edit_era overrun.era (with_residue overrun.residue) p

abbrev pub clear_chunked : VoterPlugin → VoterPlugin
clear_chunked p = record p { chunk_eras = [] }

unfoldable pub any_not_done : EraSet → VoterPlugin → Bool
any_not_done [] p = false
any_not_done ((era, u) ∷ eras) p = not (is_era_done era p) || any_not_done eras p

abbrev pub is_complete : DistributionState → Bool
is_complete state = state.completed || nat_beq state.scan_phase 2

-- The row after a chunk, from the state behind the block.
abbrev pub settled_row : ℕ → String → DistributionState → EraRow → EraRow
settled_row height resume state row = record row {
  scan_phase = state.scan_phase;
  resume_voter = resume;
  completed_height =
      if is_complete state
      then (if nat_beq state.completed_height 0 then height else state.completed_height)
      else row.completed_height;
}

abbrev pub mark_done : DistributionState → VoterPlugin → VoterPlugin
mark_done state p =
    if is_complete state && not (is_era_done state.target_era p)
    then record p { pending_era_done = insert state.target_era tt p.pending_era_done }
    else p

module _ (codec : Codec) (chain : Chain) where
  unfoldable pub consume_rows : Place → List DistributionRow → Steps (Unit {0})
  consume_rows at [] = pure tt
  consume_rows at (row ∷ rows) = do
    modify (add_row at row)
    ensure_era_plan chain row.era at.height
    consume_rows at rows

  abbrev pub consume_progress : ℕ → Option CursorProgress → Steps (Unit {0})
  consume_progress height none = pure tt
  consume_progress height (some progress) = do
    modify (edit_era progress.era (chunk_row progress height))
    modify (mark_chunked progress.era)
    ensure_era_plan chain progress.era height

  -- `consumeLog`
  unfoldable pub consume_log : Place → Option Log → Steps (Unit {0})
  consume_log at l = do
    rows ← lift (decode_distribution codec l)
    consume_rows at rows
    candidate ← lift (decode_opt_in codec l)
    modify (see_opt_in candidate at.height)
    frozen ← lift (decode_freeze codec l)
    modify (see_freeze frozen)
    change ← lift (decode_destination codec l)
    modify (add_destination at change)
    (progress, overrun) ← lift (decode_reward_bookkeeping codec l)
    consume_progress at.height progress
    modify (see_overrun overrun)

  -- The logs of a receipt from index `i` on.
  unfoldable pub consume_logs : ℕ → ℕ → String → ℕ → List (Option Log) → Steps (Unit {0})
  consume_logs height epoch hash i [] = pure tt
  consume_logs height epoch hash i (l ∷ logs) = do
    consume_log
        (record { height = height; epoch = epoch; action_hash = hash; log_index = i % 2 ^ 32 }) l
    consume_logs height epoch hash (i + 1) logs

  unfoldable pub consume_receipts : ℕ → ℕ → List BlockReceipt → Steps (Unit {0})
  consume_receipts height epoch [] = pure tt
  consume_receipts height epoch (r ∷ rs) = do
    consume_logs height epoch r.action_hash 0 r.logs
    consume_receipts height epoch rs

  -- What `refreshChunkedEras` does with the state that it has read.
  unfoldable pub settle : ℕ → DistributionState → Steps (Unit {0})
  settle height state p =
      if has state.target_era p.chunk_eras
      then (
        ok tt,
        mark_done state
            (edit_era state.target_era (settled_row height (chain.hex state.resume_voter) state) p),
      )
      else (ok tt, p)

  unfoldable pub read_chunked : ℕ → Steps (Unit {0})
  read_chunked height = do
    client ← lift (client_of chain.client)
    state ← lift (read_distribution_state client height)
    settle height state

  -- `refreshChunkedEras`
  unfoldable pub refresh_chunked_eras : ℕ → Steps (Unit {0})
  refresh_chunked_eras height p =
      if any_not_done p.chunk_eras p then read_chunked height p else (ok tt, p)

  -- `putBlock`
  unfoldable pub put_block : ChainBlock → Steps (Unit {0})
  put_block blk = do
    refresh_candidates_if_needed chain blk.height (chain.epoch_num blk.height)
    modify clear_chunked
    consume_receipts blk.height (chain.epoch_num blk.height) blk.receipts
    refresh_chunked_eras blk.height
    index_frozen_era chain blk.height (chain.epoch_num blk.height)
