-- ===== src/VoterReward/Commit/Attribution.antt =====
-- The attribution of an opt-in in the config table (service/voter_reward/plugin.go,
-- `upgradeOptInAttribution`).
use iotex_analyser.Base.{
  ℕ, String, Option, none, some, List, [], ◌∷◌, ◌≡◌, refl, sym, ap, ◌∙◌, inl, inr, Result, ok, err,
  Result-cases, Bool-cases, >>=-eq-ok, ok-injective, ◌==◌, ◌&&◌, string_eq, nat_eq, false, subst,
}
use iotex_analyser.Db.{Database, IndexCache}
use iotex_analyser.VoterReward.{
  VoterPlugin, EraRow, Distribution, Destination, DelegateConfig, opt_in_source_action,
  opt_in_source_migration,
}
use iotex_analyser.VoterReward.Plan.{Chain}
use iotex_analyser.VoterReward.Decode.{Codec}
use iotex_analyser.VoterReward.Blocks.{ChainBlock}
use iotex_analyser.VoterReward.Commit.{
  Store, OptIn, merge_era, merge_into, upsert_era, upsert_eras, upgrade_opt_in, upgrade_opt_ins,
  write_rows, write_destinations, write_configs, write_pending, put_all, put_blocks, committed,
  commit, last_height, era_rows, may_replace, source_of, first_config,
}
use iotex_analyser.VoterReward.Commit.Sources.{
  stored, kept_source, changed_source, stored-insert_destinations, stored-insert_rows,
  stored-create_era, stored-upsert_configs, stored-update, stored-update_opt_in, stored-save_era,
}
use iotex_analyser.VoterReward.Commit.Dedupe.{dedupe_configs}
use iotex_analyser.VoterReward.Commit.Outcome.{commit-done, commit-failed}

may_replace-action : (new : String) → may_replace new opt_in_source_action ≡ false
unfolding may_replace
may_replace-action new = elim (Bool-cases (new == opt_in_source_migration)) [
  | inl b ↦ rw b refl
  | inr b ↦ rw b refl
]

module _ (db : Database) (store : Store db) (codec : Codec) (chain : Chain) (name : String) where
  open db use {Tables}

  module _ (d : String) (e : ℕ) where
    write_rows-stored :
        (rows : List Distribution) (t t' : Tables)
        → write_rows db store codec chain name rows t ≡ ok t'
        → stored db store d e t' ≡ stored db store d e t
    write_rows-stored [] t t' h = let same : t ≡ t' = cc in ap (stored db store d e) (sym same)
    write_rows-stored (row ∷ rows) t t' h = stored-insert_rows db store (row ∷ rows) t t' h d e

    write_destinations-stored :
        (rows : List Destination) (t t' : Tables)
        → write_destinations db store codec chain name rows t ≡ ok t'
        → stored db store d e t' ≡ stored db store d e t
    write_destinations-stored [] t t' h =
        let same : t ≡ t' = cc in ap (stored db store d e) (sym same)
    write_destinations-stored (row ∷ rows) t t' h =
        stored-insert_destinations db store (row ∷ rows) t t' h d e

    merged-stored :
        (row : EraRow) (ex : Option EraRow) (t t' : Tables)
        → merge_into db store codec chain name row ex t ≡ ok t'
        → stored db store d e t' ≡ stored db store d e t
    merged-stored row none t t' h = stored-create_era db store row t t' h d e
    merged-stored row (some old) t t' h = stored-save_era db store (merge_era old row) t t' h d e

    upsert_eras-stored :
        (rows : List EraRow) (t t' : Tables)
        → upsert_eras db store codec chain name rows t ≡ ok t'
        → stored db store d e t' ≡ stored db store d e t
    unfolding upsert_eras upsert_era
    upsert_eras-stored [] t t' h = let same : t ≡ t' = cc in ap (stored db store d e) (sym same)
    upsert_eras-stored (row ∷ rows) t t' h =
        let (u, first, rest) =
          >>=-eq-ok (upsert_era db store codec chain name row t)
            (upsert_eras db store codec chain name rows) h in
        let (ex, found, made) =
          >>=-eq-ok (store.take_era row.era t) (λ x. merge_into db store codec chain name row x t)
            first in
        upsert_eras-stored rows u t' rest ∙ merged-stored row ex t u made

    -- An attribution that no config replaces.
    module _ (h : ℕ) where
      abbrev pub Held : Tables → Type 0
      Held t = stored db store d e t ≡ some (opt_in_source_action, h)

      changed-Held :
          (new : OptIn)
          → changed_source (may_replace new.0) new (some (opt_in_source_action, h))
            ≡ some (opt_in_source_action, h)
      changed-Held new = rw (may_replace-action new.0) refl

      upgrade_opt_in-Held :
          (cfg : DelegateConfig) (t t' : Tables)
          → upgrade_opt_in db store codec chain name cfg t ≡ ok t'
          → Held t
          → Held t'
      unfolding upgrade_opt_in
      upgrade_opt_in-Held cfg t t' made held = elim (Bool-cases (cfg.opt_in_source == "")) [
        | inl b ↦ (let same : ok t ≡ ok t' = rw b at made in subst Held (ok-injective same) held)
        | inr b ↦
            (let updated = rw b at made in
              let after = stored-update_opt_in db store _ _ _ _ t t' updated d e in
              elim (Bool-cases (cfg.delegate_id == d && cfg.era == e)) [
                | inl k ↦ after ∙ rw (k, held) (changed-Held (source_of cfg))
                | inr k ↦ after ∙ rw k held
              ])
      ]

      pub upgrade_opt_ins-Held :
          (cfgs : List DelegateConfig) (t t' : Tables)
          → upgrade_opt_ins db store codec chain name cfgs t ≡ ok t'
          → Held t
          → Held t'
      unfolding upgrade_opt_ins
      upgrade_opt_ins-Held [] t t' made held = let same : t ≡ t' = cc in subst Held same held
      upgrade_opt_ins-Held (cfg ∷ cfgs) t t' made held =
          let (u, first, rest) =
            >>=-eq-ok (upgrade_opt_in db store codec chain name cfg t)
              (upgrade_opt_ins db store codec chain name cfgs) made in
          upgrade_opt_ins-Held cfgs u t' rest (upgrade_opt_in-Held cfg t u first held)

      write_configs-Held :
          (cfgs : List DelegateConfig) (t t' : Tables)
          → write_configs db store codec chain name cfgs t ≡ ok t'
          → Held t
          → Held t'
      write_configs-Held [] t t' made held = let same : t ≡ t' = cc in subst Held same held
      write_configs-Held (cfg ∷ cfgs) t t' made held =
          let (u, first, rest) =
            >>=-eq-ok (store.upsert_configs (cfg ∷ cfgs) t)
              (upgrade_opt_ins db store codec chain name (cfg ∷ cfgs)) made in
          upgrade_opt_ins-Held (cfg ∷ cfgs) u t' rest (
            stored-upsert_configs db store (cfg ∷ cfgs) t u first d e
            ∙ ap (λ a. kept_source a (first_config d e (cfg ∷ cfgs))) held)

      write_pending-Held :
          (p : VoterPlugin) (t t' : Tables)
          → write_pending db store codec chain name p t ≡ ok t'
          → Held t
          → Held t'
      unfolding write_pending
      write_pending-Held p t t' made held =
          let (t₁, h₁, k₁) =
            >>=-eq-ok (write_rows db store codec chain name p.pending_rows t) _ made in
          let (t₂, h₂, k₂) =
            >>=-eq-ok (write_destinations db store codec chain name p.pending_destinations t₁) _
              k₁ in
          let (t₃, h₃, k₃) =
            >>=-eq-ok (upsert_eras db store codec chain name (era_rows p.pending_eras) t₂) _ k₂ in
          write_configs-Held (dedupe_configs p.pending_configs) t₃ t' k₃ (
            upsert_eras-stored (era_rows p.pending_eras) t₂ t₃ h₃
            ∙ write_destinations-stored p.pending_destinations t₁ t₂ h₂
            ∙ write_rows-stored p.pending_rows t t₁ h₁
            ∙ held)

      commit-Held :
          (p : VoterPlugin) (t : Tables) (c : IndexCache)
          → Held t
          → Held (commit db store codec chain name (p, t, c)).1.1
      commit-Held p t c held = elim (Result-cases (commit db store codec chain name (p, t, c)).0) [
        | inl (u, done) ↦
            (let (plugin, (v, made, updated)) = commit-done db store codec chain name p t c done in
              stored-update db store name p.tip_height v _ updated d e
              ∙ write_pending-Held p t v made held)
        | inr (m, failed) ↦
            (let (plugin, same) = commit-failed db store codec chain name p t c m failed in
              ap (stored db store d e) same ∙ held)
      ]

      committed-Held :
          (t : Tables) (c : IndexCache) (tip : Result String ℕ)
          (read : Result String (Unit {0}) × VoterPlugin)
          → Held t
          → Held (committed db store codec chain name t c tip read).1.1
      committed-Held t c tip (err m, q) held = held
      committed-Held t c (err m) (ok u, q) held = held
      committed-Held t c (ok tip) (ok u, q) held =
          commit-Held (record q { tip_height = tip }) t c held

  -- An opt-in that the config table attributes to an action stays attributed to it, at the same
  -- height, whatever blocks are put and whether or not the call succeeds.
  pub put_blocks-Held :
      (d : String) (e h : ℕ) (blks : List ChainBlock) (p : VoterPlugin) (t : Tables)
      (c : IndexCache)
      → stored db store d e t ≡ some (opt_in_source_action, h)
      → stored db store d e (put_blocks db store codec chain name blks (p, t, c)).1.1
        ≡ some (opt_in_source_action, h)
  unfolding put_blocks
  put_blocks-Held d e h blks p t c held =
      committed-Held d e h t c (last_height db store codec chain name blks)
        (put_all db store codec chain name blks p) held
