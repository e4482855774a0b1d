-- ===== src/VoterReward/Commit.antt =====
-- service/voter_reward/plugin.go: the pending rows are written in one transaction.
--
-- The statements are the record `Store` of Statements.
mod Statements
pub mod Dedupe
pub mod Outcome
pub mod Replay
pub mod Eras
pub mod Sources
pub mod Attribution
pub mod Upgrade
pub mod Recount
pub use Statements.{OptIn, source_of, first_config, assigned, upserted, changed, Store}
use iotex_analyser.Base.{
  ℕ, ◌+◌, ◌%◌, ◌^◌, ◌≡◌, String, Bool, true, false, not, ◌&&◌, ◌||◌, Option, none, some, List, [],
  ◌∷◌, ◌++◌, Result, ok, err, ◌>>=◌, nat_beq, ltb, ◌==◌, string_eq, nat_eq, Eq, if◌then◌else◌,
  length,
}
use iotex_analyser.Base.GoMap.{GoMap, lookup, insert, has}
use iotex_analyser.Db.{Database, IndexCache, commit_block}
use iotex_analyser.VoterReward.{
  VoterPlugin, EraRow, EraSet, Distribution, Destination, DelegateConfig, DelegateSnapshot,
  opt_in_source_action, opt_in_source_migration,
}
use iotex_analyser.VoterReward.Plan.{Chain}
use iotex_analyser.VoterReward.Decode.{Codec}
use iotex_analyser.VoterReward.Blocks.{ChainBlock, put_block}
use iotex_analyser.VoterReward.Commit.Dedupe.{dedupe_configs}

-- What `upsertEra` makes of a stored row and of the pending one.
unfoldable pub merge_era : EraRow → EraRow → EraRow
merge_era existing row = record existing {
  voter_count = (existing.voter_count + row.voter_count) % 2 ^ 64;
  total_distributed = existing.total_distributed + row.total_distributed;
  last_chunk_at =
      if ltb existing.last_chunk_at row.last_chunk_at
      then row.last_chunk_at
      else existing.last_chunk_at;
  scan_phase =
      if ltb existing.last_chunk_at row.last_chunk_at then row.scan_phase else existing.scan_phase;
  resume_voter =
      if ltb existing.last_chunk_at row.last_chunk_at
      then row.resume_voter
      else existing.resume_voter;
  freeze_height = if nat_beq row.freeze_height 0 then existing.freeze_height else row.freeze_height;
  delegate_count =
      if nat_beq row.freeze_height 0 then existing.delegate_count else row.delegate_count;
  total_frozen = if nat_beq row.freeze_height 0 then existing.total_frozen else row.total_frozen;
  first_chunk_at =
      if nat_beq existing.first_chunk_at 0 then row.first_chunk_at else existing.first_chunk_at;
  completed_height =
      if nat_beq row.completed_height 0 then existing.completed_height else row.completed_height;
  overrun_residue =
      if nat_beq row.overrun_residue 0 then existing.overrun_residue else row.overrun_residue;
}

-- The condition of `upgradeOptInAttribution` on the stored source.
unfoldable pub may_replace : String → String → Bool
may_replace new old =
    if new == opt_in_source_migration then old == "" else not (old == opt_in_source_action)

-- The entries of the pending map, for the list of eras.
abbrev pub era_rows : GoMap ℕ EraRow → List EraRow
era_rows [] = []
era_rows ((era, row) ∷ m) = row ∷ era_rows m

-- `set[era] = true` for each era of `more`.
unfoldable pub add_eras : EraSet → EraSet → EraSet
add_eras [] set = set
add_eras ((era, u) ∷ more) set = add_eras more (insert era tt set)

-- The freeze logs whose era is in neither set.
unfoldable pub unsettled :
    EraSet
    → EraSet
    → GoMap ℕ (GoMap String DelegateSnapshot)
    → GoMap ℕ (GoMap String DelegateSnapshot)
unsettled seen passed [] = []
unsettled seen passed ((era, snaps) ∷ m) =
    let rest = unsettled seen passed m in
    if has era seen || has era passed then rest else (era, snaps) ∷ rest

abbrev pub no_memos : VoterPlugin → VoterPlugin
no_memos p = record p { pending_era_seen = []; pending_era_done = []; pending_era_state_pass = [] }

-- `promotePendingMemos`
unfoldable pub promote_pending_memos : VoterPlugin → VoterPlugin
promote_pending_memos p =
    let seen = add_eras p.pending_era_seen p.era_seen in
    let passed = add_eras p.pending_era_state_pass p.era_state_pass in
    no_memos (record p {
      era_seen = seen;
      era_done = add_eras p.pending_era_done p.era_done;
      era_state_pass = passed;
      frozen_snaps = unsettled seen passed p.frozen_snaps;
    })

-- `dropPendingMemos`
unfoldable pub drop_pending_memos : VoterPlugin → VoterPlugin
drop_pending_memos p = no_memos p

-- The plugin once `commit` has taken what is pending.
unfoldable pub taken_pending : VoterPlugin → VoterPlugin
taken_pending p = record p {
  pending_rows = [];
  pending_destinations = [];
  pending_configs = [];
  pending_eras = [];
}

module _ (db : Database) (store : Store db) (codec : Codec) (chain : Chain) (name : String) where
  open db use {Tables}
  open store use {
    insert_rows, insert_destinations, take_era, create_era, save_era, upsert_configs, update_opt_in,
  }

  abbrev pub merge_into : EraRow → Option EraRow → Tables → Result String Tables
  merge_into row none t = create_era row t
  merge_into row (some existing) t = save_era (merge_era existing row) t

  -- `upsertEra`
  unfoldable pub upsert_era : EraRow → Tables → Result String Tables
  upsert_era row t = take_era row.era t >>= λ existing. merge_into row existing t

  unfoldable pub upsert_eras : List EraRow → Tables → Result String Tables
  upsert_eras [] t = ok t
  upsert_eras (row ∷ rows) t = do t' ← upsert_era row t; upsert_eras rows t'

  -- `upgradeOptInAttribution`
  unfoldable pub upgrade_opt_in : DelegateConfig → Tables → Result String Tables
  upgrade_opt_in cfg t =
      if cfg.opt_in_source == ""
      then ok t
      else update_opt_in cfg.delegate_id cfg.era (may_replace cfg.opt_in_source) (source_of cfg) t

  unfoldable pub upgrade_opt_ins : List DelegateConfig → Tables → Result String Tables
  upgrade_opt_ins [] t = ok t
  upgrade_opt_ins (cfg ∷ cfgs) t = do t' ← upgrade_opt_in cfg t; upgrade_opt_ins cfgs t'

  abbrev pub write_rows : List Distribution → Tables → Result String Tables
  write_rows [] t = ok t
  write_rows (row ∷ rows) t = insert_rows (row ∷ rows) t

  abbrev pub write_destinations : List Destination → Tables → Result String Tables
  write_destinations [] t = ok t
  write_destinations (row ∷ rows) t = insert_destinations (row ∷ rows) t

  abbrev pub write_configs : List DelegateConfig → Tables → Result String Tables
  write_configs [] t = ok t
  write_configs (cfg ∷ cfgs) t = do
    t' ← upsert_configs (cfg ∷ cfgs) t
    upgrade_opt_ins (cfg ∷ cfgs) t'

  -- The statements of the transaction but the last.
  unfoldable pub write_pending : VoterPlugin → Tables → Result String Tables
  write_pending p t = do
    t₁ ← write_rows p.pending_rows t
    t₂ ← write_destinations p.pending_destinations t₁
    t₃ ← upsert_eras (era_rows p.pending_eras) t₂
    write_configs (dedupe_configs p.pending_configs) t₃

  abbrev pub System : Type 0
  System = VoterPlugin × Tables × IndexCache

  abbrev pub concluded :
      VoterPlugin
      → Result String (Unit {0}) × Tables × IndexCache
      → Result String (Unit {0}) × System
  concluded p (ok u, t, c) = (ok u, (promote_pending_memos p, t, c))
  concluded p (err e, t, c) = (err e, (drop_pending_memos p, t, c))

  -- `commit`
  unfoldable pub commit : System → Result String (Unit {0}) × System
  commit (p, t, c) =
      concluded (taken_pending p) (commit_block db (write_pending p) name p.tip_height t c)

  -- The loop of `PutBlocks`.
  unfoldable pub put_all : List ChainBlock → VoterPlugin → Result String (Unit {0}) × VoterPlugin
  put_all [] p = (ok tt, p)
  put_all (blk ∷ blks) p =
      let (r, p') = put_block codec chain blk p in
      let rest = put_all blks p' in elim r [ err e ↦ (err e, p') | ok u ↦ rest ]

  unfoldable pub last_height : List ChainBlock → Result String ℕ
  last_height [] = err "index out of range"
  last_height (blk ∷ []) = ok blk.height
  last_height (blk ∷ next ∷ blks) = last_height (next ∷ blks)

  abbrev pub committed :
      Tables
      → IndexCache
      → Result String ℕ
      → Result String (Unit {0}) × VoterPlugin
      → Result String (Unit {0}) × System
  committed t c tip (err e, p) = (err e, (p, t, c))
  committed t c (err e) (ok u, p) = (err e, (p, t, c))
  committed t c (ok tip) (ok u, p) = commit (record p { tip_height = tip }, t, c)

  -- `PutBlocks`; `PutBlock` is that of one block.
  unfoldable pub put_blocks : List ChainBlock → System → Result String (Unit {0}) × System
  put_blocks blks (p, t, c) = committed t c (last_height blks) (put_all blks p)
