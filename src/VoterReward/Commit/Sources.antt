-- ===== src/VoterReward/Commit/Sources.antt =====
-- The attributions in the config table, from what the statements do to its rows
-- (service/voter_reward/plugin.go, `commit`).
use iotex_analyser.Base.{
  ℕ, String, Bool, Option, none, some, List, ◌≡◌, refl, ap, ◌∙◌, inl, inr, ok, Bool-cases, ◌==◌,
  ◌&&◌, string_eq, nat_eq, if◌then◌else◌,
}
use iotex_analyser.Db.{Database}
use iotex_analyser.VoterReward.{EraRow, Distribution, Destination, DelegateConfig}
use iotex_analyser.VoterReward.Commit.{Store, OptIn, source_of, upserted, changed, first_config}

-- The attribution of a row that may be there.
abbrev pub source : Option DelegateConfig → Option OptIn
source none = none
source (some cfg) = some (source_of cfg)

abbrev pub kept_source : Option OptIn → Option DelegateConfig → Option OptIn
kept_source (some a) c = some a
kept_source none c = source c

abbrev pub changed_source : (String → Bool) → OptIn → Option OptIn → Option OptIn
changed_source condition new none = none
changed_source condition new (some a) = if condition a.0 then some new else some a

source-upserted :
    (old new : Option DelegateConfig) → source (upserted old new) ≡ kept_source (source old) new
source-upserted none none = refl
source-upserted none (some c) = refl
source-upserted (some o) none = refl
source-upserted (some o) (some c) = refl

source-changed :
    (condition : String → Bool) (new : OptIn) (old : Option DelegateConfig)
    → source (changed condition new old) ≡ changed_source condition new (source old)
source-changed condition new none = refl
source-changed condition new (some o) = elim (Bool-cases (condition o.opt_in_source)) [
  | inl b ↦ rw b refl
  | inr b ↦ rw b refl
]

module _ (db : Database) (store : Store db) where
  open db use {Tables}

  -- The attribution that a row of the config table holds.
  abbrev pub stored : String → ℕ → Tables → Option OptIn
  stored d e t = source (store.stored_config d e t)

  pub stored-insert_rows :
      (rows : List Distribution) (t t' : Tables)
      → store.insert_rows rows t ≡ ok t'
      → (d : String) (e : ℕ) → stored d e t' ≡ stored d e t
  stored-insert_rows rows t t' h d e = ap source (store.config-insert_rows rows t t' h d e)

  pub stored-insert_destinations :
      (rows : List Destination) (t t' : Tables)
      → store.insert_destinations rows t ≡ ok t'
      → (d : String) (e : ℕ) → stored d e t' ≡ stored d e t
  stored-insert_destinations rows t t' h d e =
      ap source (store.config-insert_destinations rows t t' h d e)

  pub stored-create_era :
      (row : EraRow) (t t' : Tables)
      → store.create_era row t ≡ ok t'
      → (d : String) (e : ℕ) → stored d e t' ≡ stored d e t
  stored-create_era row t t' h d e = ap source (store.config-create_era row t t' h d e)

  pub stored-save_era :
      (row : EraRow) (t t' : Tables)
      → store.save_era row t ≡ ok t'
      → (d : String) (e : ℕ) → stored d e t' ≡ stored d e t
  stored-save_era row t t' h d e = ap source (store.config-save_era row t t' h d e)

  pub stored-update :
      (name : String) (h : ℕ) (t t' : Tables)
      → db.update name h t ≡ ok t'
      → (d : String) (e : ℕ) → stored d e t' ≡ stored d e t
  stored-update name h t t' made d e = ap source (store.config-update name h t t' made d e)

  pub stored-upsert_configs :
      (rows : List DelegateConfig) (t t' : Tables)
      → store.upsert_configs rows t ≡ ok t'
      → (d : String) (e : ℕ) → stored d e t' ≡ kept_source (stored d e t) (first_config d e rows)
  stored-upsert_configs rows t t' h d e =
      ap source (store.config-upsert_configs rows t t' h d e)
      ∙ source-upserted (store.stored_config d e t) (first_config d e rows)

  pub stored-update_opt_in :
      (id : String) (era : ℕ) (condition : String → Bool) (new : OptIn) (t t' : Tables)
      → store.update_opt_in id era condition new t ≡ ok t'
      → (d : String) (e : ℕ)
      → stored d e t' ≡ (
          if id == d && era == e then changed_source condition new (stored d e t) else stored d e t)
  stored-update_opt_in id era condition new t t' h d e =
      ap source (store.config-update_opt_in id era condition new t t' h d e)
      ∙ elim (Bool-cases (id == d && era == e)) [
        | inl b ↦ rw b (source-changed condition new (store.stored_config d e t))
        | inr b ↦ rw b refl
      ]
