-- ===== src/VoterReward/Commit/Statements.antt =====
-- The statements of voter rewards on the tables of a database of Db (service/voter_reward/plugin.go,
-- `commit`, `upsertEra`, `upgradeOptInAttribution`). A statement fails or does what its law says. One
-- INSERT stands for its batches.
use iotex_analyser.Base.{
  ℕ, ◌≡◌, String, Bool, ◌&&◌, Option, none, some, List, [], ◌∷◌, Result, ok, ◌==◌, string_eq,
  nat_eq, if◌then◌else◌,
}
use iotex_analyser.Db.{Database}
use iotex_analyser.VoterReward.{EraRow, Distribution, Destination, DelegateConfig}

-- A stored attribution: opt_in_source and opt_in_height.
abbrev pub OptIn : Type 0
OptIn = String × ℕ

abbrev pub source_of : DelegateConfig → OptIn
source_of cfg = (cfg.opt_in_source, cfg.opt_in_height)

-- The first of the configs for a delegate and an era.
abbrev pub first_config : String → ℕ → List DelegateConfig → Option DelegateConfig
first_config d e [] = none
first_config d e (c ∷ cs) = if c.delegate_id == d && c.era == e then some c else first_config d e cs

-- The columns that a config which is stored already takes over: all but those of the attribution.
abbrev pub assigned : DelegateConfig → DelegateConfig → DelegateConfig
assigned old new = record old {
  block_height = new.block_height;
  delegate_name = new.delegate_name;
  opted_in = new.opted_in;
  freeze_height = new.freeze_height;
  block_commission_bps = new.block_commission_bps;
  epoch_commission_bps = new.epoch_commission_bps;
  commission_configured = new.commission_configured;
  total_weight = new.total_weight;
  voter_amount_frozen = new.voter_amount_frozen;
  payout_address = new.payout_address;
}

-- A stored row after the INSERT … ON CONFLICT of at most one config of its key.
abbrev pub upserted : Option DelegateConfig → Option DelegateConfig → Option DelegateConfig
upserted old none = old
upserted none (some new) = some new
upserted (some old) (some new) = some (assigned old new)

-- A stored row after the UPDATE of its attribution, under a condition on opt_in_source.
abbrev pub changed : (String → Bool) → OptIn → Option DelegateConfig → Option DelegateConfig
changed condition new none = none
changed condition new (some old) =
    if condition old.opt_in_source
    then some (record old { opt_in_source = new.0; opt_in_height = new.1 })
    else some old

pub record Store (db : Database) : Type 0 where
  -- INSERT … ON CONFLICT (action_hash, log_index, row_index) DO NOTHING
  pub insert_rows : List Distribution → db.Tables → Result String db.Tables
  pub insert_destinations : List Destination → db.Tables → Result String db.Tables
  -- Take, by era; `none` is ErrRecordNotFound.
  pub take_era : ℕ → db.Tables → Result String (Option EraRow)
  pub create_era : EraRow → db.Tables → Result String db.Tables
  pub save_era : EraRow → db.Tables → Result String db.Tables
  -- INSERT … ON CONFLICT (delegate_id, era) DO UPDATE of the assignable columns
  pub upsert_configs : List DelegateConfig → db.Tables → Result String db.Tables
  -- UPDATE of the attribution WHERE delegate_id, era and a condition on opt_in_source
  pub update_opt_in : String → ℕ → (String → Bool) → OptIn → db.Tables → Result String db.Tables
  -- The row of the config table for a delegate and an era.
  pub stored_config : String → ℕ → db.Tables → Option DelegateConfig
  pub take-insert_rows :
      (rows : List Distribution) (t t' : db.Tables)
      → insert_rows rows t ≡ ok t'
      → (e : ℕ) → take_era e t' ≡ take_era e t
  pub take-insert_destinations :
      (rows : List Destination) (t t' : db.Tables)
      → insert_destinations rows t ≡ ok t'
      → (e : ℕ) → take_era e t' ≡ take_era e t
  pub take-create_era :
      (row : EraRow) (t t' : db.Tables)
      → create_era row t ≡ ok t'
      → (e : ℕ) → take_era e t' ≡ (if row.era == e then ok (some row) else take_era e t)
  pub take-save_era :
      (row : EraRow) (t t' : db.Tables)
      → save_era row t ≡ ok t'
      → (e : ℕ) → take_era e t' ≡ (if row.era == e then ok (some row) else take_era e t)
  -- The row that is found by an era is of that era.
  pub era-take : (e : ℕ) (t : db.Tables) (row : EraRow) → take_era e t ≡ ok (some row) → row.era ≡ e
  pub take-upsert_configs :
      (rows : List DelegateConfig) (t t' : db.Tables)
      → upsert_configs rows t ≡ ok t'
      → (e : ℕ) → take_era e t' ≡ take_era e t
  pub take-update_opt_in :
      (d : String) (era : ℕ) (condition : String → Bool) (new : OptIn) (t t' : db.Tables)
      → update_opt_in d era condition new t ≡ ok t'
      → (e : ℕ) → take_era e t' ≡ take_era e t
  pub take-update :
      (name : String) (h : ℕ) (t t' : db.Tables)
      → db.update name h t ≡ ok t'
      → (e : ℕ) → take_era e t' ≡ take_era e t
  pub config-insert_rows :
      (rows : List Distribution) (t t' : db.Tables)
      → insert_rows rows t ≡ ok t'
      → (d : String) (e : ℕ) → stored_config d e t' ≡ stored_config d e t
  pub config-insert_destinations :
      (rows : List Destination) (t t' : db.Tables)
      → insert_destinations rows t ≡ ok t'
      → (d : String) (e : ℕ) → stored_config d e t' ≡ stored_config d e t
  pub config-create_era :
      (row : EraRow) (t t' : db.Tables)
      → create_era row t ≡ ok t'
      → (d : String) (e : ℕ) → stored_config d e t' ≡ stored_config d e t
  pub config-save_era :
      (row : EraRow) (t t' : db.Tables)
      → save_era row t ≡ ok t'
      → (d : String) (e : ℕ) → stored_config d e t' ≡ stored_config d e t
  pub config-upsert_configs :
      (rows : List DelegateConfig) (t t' : db.Tables)
      → upsert_configs rows t ≡ ok t'
      → (d : String) (e : ℕ)
      → stored_config d e t' ≡ upserted (stored_config d e t) (first_config d e rows)
  pub config-update_opt_in :
      (id : String) (era : ℕ) (condition : String → Bool) (new : OptIn) (t t' : db.Tables)
      → update_opt_in id era condition new t ≡ ok t'
      → (d : String) (e : ℕ)
      → stored_config d e t' ≡ (
          if id == d && era == e
          then changed condition new (stored_config d e t)
          else stored_config d e t)
  pub config-update :
      (name : String) (h : ℕ) (t t' : db.Tables)
      → db.update name h t ≡ ok t'
      → (d : String) (e : ℕ) → stored_config d e t' ≡ stored_config d e t
