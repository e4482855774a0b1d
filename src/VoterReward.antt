-- ===== src/VoterReward.antt =====
-- service/voter_reward: the plugin that indexes the voter rewards that a block pays out.
--
-- The chain that the plugin reads is a record `Chain`: within one call of PutBlock or PutBlocks its
-- answers depend on what is asked alone. Amounts are natural numbers, heights and counters uint64.
-- A map to bool holds only true; logging and deadlines are left out.
pub mod Candidates
pub mod Reader
pub mod Decode
pub mod Plan
pub mod Blocks
pub mod Commit
use iotex_analyser.Base.{
  ℕ, String, Bool, true, false, ◌||◌, Option, none, some, List, [], ◌∷◌, if◌then◌else◌, nat_eq,
  string_eq,
}
use iotex_analyser.Base.GoMap.{GoMap, lookup, insert, has}

-- `CandidateInfo`
pub record CandidateInfo : Type 0 where
  pub identifier : String
  pub name : String
  pub owner : String
  pub reward : String
  pub operator : String

-- `CandidateIndex`
pub record CandidateIndex : Type 0 where
  pub by_id : GoMap String CandidateInfo
  pub by_owner : GoMap String CandidateInfo
  pub height : ℕ

-- `DelegateSnapshot`
pub record DelegateSnapshot : Type 0 where
  pub block_commission_bps : ℕ
  pub epoch_commission_bps : ℕ
  pub commission_configured : Bool
  pub total_weight : ℕ
  pub freeze_height : ℕ
  pub self_stake_bucket_idx : ℕ

-- A row of models.VoterRewardDistribution.
pub record Distribution : Type 0 where
  pub block_height : ℕ
  pub epoch_number : ℕ
  pub era : ℕ
  pub action_hash : String
  pub log_index : ℕ
  pub row_index : ℕ
  pub delegate_id : String
  pub delegate_name : String
  pub voter_address : String
  pub recipient_address : String
  pub amount : ℕ
  pub compounded : Bool
  pub compound_bucket_id : ℕ

-- A row of models.VoterRewardDestination.
pub record Destination : Type 0 where
  pub block_height : ℕ
  pub action_hash : String
  pub voter_address : String
  pub old_recipient : String
  pub new_recipient : String

-- A row of models.VoterRewardEra.
pub record EraRow : Type 0 where
  pub era : ℕ
  pub freeze_height : ℕ
  pub first_chunk_at : ℕ
  pub completed_height : ℕ
  pub scan_phase : ℕ
  pub resume_voter : String
  pub delegate_count : ℕ
  pub voter_count : ℕ
  pub total_frozen : ℕ
  pub total_distributed : ℕ
  pub overrun_residue : ℕ
  pub last_chunk_at : ℕ

-- A row of models.DelegateRewardConfig.
pub record DelegateConfig : Type 0 where
  pub delegate_id : String
  pub era : ℕ
  pub block_height : ℕ
  pub delegate_name : String
  pub opted_in : Bool
  pub opt_in_source : String
  pub opt_in_height : ℕ
  pub freeze_height : ℕ
  pub block_commission_bps : ℕ
  pub epoch_commission_bps : ℕ
  pub commission_configured : Bool
  pub total_weight : ℕ
  pub voter_amount_frozen : ℕ
  pub payout_address : String

abbrev pub opt_in_source_action : String
opt_in_source_action = "action"

abbrev pub opt_in_source_migration : String
opt_in_source_migration = "migration"

abbrev pub EraSet : Type 0
EraSet = GoMap ℕ (Unit {0})

-- `Plugin`; the shadow names and tables are the database's.
pub record VoterPlugin : Type 0 where
  pub tip_height : ℕ
  pub candidates : CandidateIndex
  pub opt_in_seen : GoMap String ℕ
  pub era_seen : EraSet
  pub era_done : EraSet
  pub chunk_eras : EraSet
  pub frozen_snaps : GoMap ℕ (GoMap String DelegateSnapshot)
  pub pending_rows : List Distribution
  pub pending_destinations : List Destination
  pub pending_eras : GoMap ℕ EraRow
  pub pending_configs : List DelegateConfig
  pub pending_era_seen : EraSet
  pub pending_era_done : EraSet
  pub era_state_pass : EraSet
  pub pending_era_state_pass : EraSet

-- `New`
unfoldable pub new_plugin : VoterPlugin
new_plugin = record {
  tip_height = 0;
  candidates = record { by_id = []; by_owner = []; height = 0 };
  opt_in_seen = [];
  era_seen = [];
  era_done = [];
  chunk_eras = [];
  frozen_snaps = [];
  pending_rows = [];
  pending_destinations = [];
  pending_eras = [];
  pending_configs = [];
  pending_era_seen = [];
  pending_era_done = [];
  era_state_pass = [];
  pending_era_state_pass = [];
}

-- The new row of `era`.
abbrev pub new_era : ℕ → EraRow
new_era era = record {
  era = era;
  freeze_height = 0;
  first_chunk_at = 0;
  completed_height = 0;
  scan_phase = 0;
  resume_voter = "";
  delegate_count = 0;
  voter_count = 0;
  total_frozen = 0;
  total_distributed = 0;
  overrun_residue = 0;
  last_chunk_at = 0;
}

abbrev pub era_of : ℕ → GoMap ℕ EraRow → EraRow
era_of era m = elim (lookup era m) [ none ↦ new_era era | some row ↦ row ]

-- `era`, and a change of the row that it returns.
unfoldable pub edit_era : ℕ → (EraRow → EraRow) → VoterPlugin → VoterPlugin
edit_era era change p = record p {
  pending_eras = insert era (change (era_of era p.pending_eras)) p.pending_eras;
}

-- `isEraSeen`, `isEraDone`, `isEraStatePassed`
unfoldable pub is_era_seen : ℕ → VoterPlugin → Bool
is_era_seen era p = has era p.era_seen || has era p.pending_era_seen

unfoldable pub is_era_done : ℕ → VoterPlugin → Bool
is_era_done era p = has era p.era_done || has era p.pending_era_done

unfoldable pub is_era_state_passed : ℕ → VoterPlugin → Bool
is_era_state_passed era p = has era p.era_state_pass || has era p.pending_era_state_pass

-- The loop of `rehydrateOptIns` over the rows that it has read.
unfoldable pub rehydrate_opt_ins : List DelegateConfig → VoterPlugin → VoterPlugin
rehydrate_opt_ins [] p = p
rehydrate_opt_ins (row ∷ rows) p =
    let rest = rehydrate_opt_ins rows in
    if has row.delegate_id p.opt_in_seen
    then rest p
    else rest (record p { opt_in_seen = insert row.delegate_id row.opt_in_height p.opt_in_seen })
