-- ===== src/VoterReward/Commit/Eras.antt =====
-- What a commit makes of the totals of the eras (service/voter_reward/plugin.go).
use iotex_analyser.Base.{
  ℕ, ◌+◌, String, Option, none, some, List, [], ◌∷◌, ◌≡◌, refl, sym, ap, ◌∙◌, inl, inr, Result, ok,
  err, Bool-cases, >>=-eq-ok, ◌==◌, nat_eq, string_eq, ok-injective, eq_of_beq, arith, true, false,
  ok-injective,
}
use iotex_analyser.Db.{Database, IndexCache}
use iotex_analyser.VoterReward.{VoterPlugin, EraRow, Distribution, Destination, DelegateConfig}
use iotex_analyser.VoterReward.Plan.{Chain}
use iotex_analyser.VoterReward.Decode.{Codec}
use iotex_analyser.VoterReward.Blocks.{ChainBlock}
use iotex_analyser.VoterReward.Blocks.Tallied.{IsTallied, IsTallied-IsKept, paid, tallied, counted}
use iotex_analyser.VoterReward.Commit.{
  Store, merge_era, merge_into, upsert_era, upsert_eras, upgrade_opt_in, upgrade_opt_ins,
  write_rows, write_destinations, write_configs, write_pending, put_all, put_blocks, committed,
  commit, last_height, era_rows,
}
use iotex_analyser.VoterReward.Commit.Dedupe.{dedupe_configs}
use iotex_analyser.VoterReward.Commit.Outcome.{put_all-Keeps, commit-done}

-- The total of a row that was read, or 0.
abbrev pub total_of : Result String (Option EraRow) → ℕ
total_of (err e) = 0
total_of (ok none) = 0
total_of (ok (some row)) = row.total_distributed

module _ (db : Database) (store : Store db) (codec : Codec) (chain : Chain) (name : String) where
  open db use {Tables}
  open store use {take_era}

  -- The total that the table has for an era.
  abbrev pub stored_total : ℕ → Tables → ℕ
  stored_total e t = total_of (take_era e t)

  merged-total :
      (row : EraRow) (ex : Option EraRow) (t t' : Tables)
      → take_era row.era t ≡ ok ex
      → merge_into db store codec chain name row ex t ≡ ok t'
      → (e : ℕ) → stored_total e t' ≡ stored_total e t + counted row.era e row.total_distributed
  unfolding merge_era
  merged-total row none t t' found made e =
      let after = store.take-create_era row t t' made e in
      elim (Bool-cases (row.era == e)) [
        | inl b ↦
            (let before : take_era e t ≡ ok none =
                ap (λ x. take_era x t) (sym (eq_of_beq row.era e b)) ∙ found in
              let now : take_era e t' ≡ ok (some row) = after ∙ rw b refl in
              rw (before, now, b) (omega arith))
        | inr b ↦
            (let now : take_era e t' ≡ take_era e t = after ∙ rw b refl in
              rw (now, b) (omega arith))
      ]
  merged-total row (some old) t t' found made e =
      let same : old.era ≡ row.era = store.era-take row.era t old found in
      let after = store.take-save_era (merge_era old row) t t' made e in
      elim (Bool-cases (row.era == e)) [
        | inl b ↦
            (let before : take_era e t ≡ ok (some old) =
                ap (λ x. take_era x t) (sym (eq_of_beq row.era e b)) ∙ found in
              let b' : (old.era == e) ≡ true = ap (λ x. x == e) same ∙ b in
              let now : take_era e t' ≡ ok (some (merge_era old row)) = after ∙ rw b' refl in
              rw (before, now, b) refl)
        | inr b ↦
            (let b' : (old.era == e) ≡ false = ap (λ x. x == e) same ∙ b in
              let now : take_era e t' ≡ take_era e t = after ∙ rw b' refl in
              rw (now, b) (omega arith))
      ]

  upsert_era-total :
      (row : EraRow) (t t' : Tables)
      → upsert_era db store codec chain name row t ≡ ok t'
      → (e : ℕ) → stored_total e t' ≡ stored_total e t + counted row.era e row.total_distributed
  unfolding upsert_era
  upsert_era-total row t t' h e =
      let (ex, found, made) =
        >>=-eq-ok (take_era row.era t) (λ x. merge_into db store codec chain name row x t) h in
      merged-total row ex t t' found made e

  upsert_eras-total :
      (m : List (ℕ × EraRow)) (t t' : Tables)
      → upsert_eras db store codec chain name (era_rows m) t ≡ ok t'
      → (e : ℕ) → stored_total e t' ≡ stored_total e t + tallied e m
  unfolding upsert_eras
  upsert_eras-total [] t t' h e = let same : t ≡ t' = cc in rw same (omega arith)
  upsert_eras-total ((era, row) ∷ m) t t' h e =
      let (u, first, rest) =
        >>=-eq-ok (upsert_era db store codec chain name row t)
          (upsert_eras db store codec chain name (era_rows m)) h in
      omega (arith, upsert_era-total row t u first e, upsert_eras-total m u t' rest e)

  write_rows-take :
      (rows : List Distribution) (t t' : Tables)
      → write_rows db store codec chain name rows t ≡ ok t'
      → (e : ℕ) → take_era e t' ≡ take_era e t
  write_rows-take [] t t' h e = let same : t ≡ t' = cc in ap (take_era e) (sym same)
  write_rows-take (row ∷ rows) t t' h e = store.take-insert_rows (row ∷ rows) t t' h e

  write_destinations-take :
      (rows : List Destination) (t t' : Tables)
      → write_destinations db store codec chain name rows t ≡ ok t'
      → (e : ℕ) → take_era e t' ≡ take_era e t
  write_destinations-take [] t t' h e = let same : t ≡ t' = cc in ap (take_era e) (sym same)
  write_destinations-take (row ∷ rows) t t' h e =
      store.take-insert_destinations (row ∷ rows) t t' h e

  upgrade_opt_in-take :
      (cfg : DelegateConfig) (t t' : Tables)
      → upgrade_opt_in db store codec chain name cfg t ≡ ok t'
      → (e : ℕ) → take_era e t' ≡ take_era e t
  unfolding upgrade_opt_in
  upgrade_opt_in-take cfg t t' h e = elim (Bool-cases (cfg.opt_in_source == "")) [
    | inl b ↦ (let same : ok t ≡ ok t' = rw b at h in ap (take_era e) (sym (ok-injective same)))
    | inr b ↦ (let made = rw b at h in store.take-update_opt_in _ _ _ _ t t' made e)
  ]

  upgrade_opt_ins-take :
      (cfgs : List DelegateConfig) (t t' : Tables)
      → upgrade_opt_ins db store codec chain name cfgs t ≡ ok t'
      → (e : ℕ) → take_era e t' ≡ take_era e t
  unfolding upgrade_opt_ins
  upgrade_opt_ins-take [] t t' h e = let same : t ≡ t' = cc in ap (take_era e) (sym same)
  upgrade_opt_ins-take (cfg ∷ cfgs) t t' h e =
      let (u, first, rest) =
        >>=-eq-ok (upgrade_opt_in db store codec chain name cfg t)
          (upgrade_opt_ins db store codec chain name cfgs) h in
      upgrade_opt_ins-take cfgs u t' rest e ∙ upgrade_opt_in-take cfg t u first e

  write_configs-take :
      (cfgs : List DelegateConfig) (t t' : Tables)
      → write_configs db store codec chain name cfgs t ≡ ok t'
      → (e : ℕ) → take_era e t' ≡ take_era e t
  write_configs-take [] t t' h e = let same : t ≡ t' = cc in ap (take_era e) (sym same)
  write_configs-take (cfg ∷ cfgs) t t' h e =
      let (u, first, rest) =
        >>=-eq-ok (store.upsert_configs (cfg ∷ cfgs) t)
          (upgrade_opt_ins db store codec chain name (cfg ∷ cfgs)) h in
      upgrade_opt_ins-take (cfg ∷ cfgs) u t' rest e
      ∙ store.take-upsert_configs (cfg ∷ cfgs) t u first e

  write_pending-total :
      (p : VoterPlugin) (t t' : Tables)
      → write_pending db store codec chain name p t ≡ ok t'
      → (e : ℕ) → stored_total e t' ≡ stored_total e t + tallied e p.pending_eras
  unfolding write_pending
  write_pending-total p t t' h e =
      let (t₁, h₁, k₁) = >>=-eq-ok (write_rows db store codec chain name p.pending_rows t) _ h in
      let (t₂, h₂, k₂) =
        >>=-eq-ok (write_destinations db store codec chain name p.pending_destinations t₁) _ k₁ in
      let (t₃, h₃, k₃) =
        >>=-eq-ok (upsert_eras db store codec chain name (era_rows p.pending_eras) t₂) _ k₂ in
      ap total_of (write_configs-take (dedupe_configs p.pending_configs) t₃ t' k₃ e)
      ∙ upsert_eras-total p.pending_eras t₂ t₃ h₃ e
      ∙ ap (λ x. total_of x + tallied e p.pending_eras)
          (write_destinations-take p.pending_destinations t₁ t₂ h₂ e
            ∙ write_rows-take p.pending_rows t t₁ h₁ e)

  commit-total :
      (p : VoterPlugin) (t : Tables) (c : IndexCache)
      → (commit db store codec chain name (p, t, c)).0 ≡ ok tt
      → (e : ℕ)
      → stored_total e (commit db store codec chain name (p, t, c)).1.1
        ≡ stored_total e t + tallied e p.pending_eras
  commit-total p t c h e =
      let (plugin, (u, made, updated)) = commit-done db store codec chain name p t c h in
      ap total_of (store.take-update name p.tip_height u _ updated e)
      ∙ write_pending-total p t u made e

  committed-total :
      (t : Tables) (c : IndexCache) (tip : Result String ℕ)
      (read : Result String (Unit {0}) × VoterPlugin)
      → (committed db store codec chain name t c tip read).0 ≡ ok tt
      → (e : ℕ)
      → stored_total e (committed db store codec chain name t c tip read).1.1
        ≡ stored_total e t + tallied e read.1.pending_eras
  committed-total t c tip (err e, q) h era = absurd cc
  committed-total t c (err e) (ok u, q) h era = absurd cc
  committed-total t c (ok tip) (ok u, q) h era =
      commit-total (record q { tip_height = tip }) t c h era

  -- When PutBlocks succeeds from a plugin whose pending totals are those of its pending rows, the
  -- stored total of every era has grown by exactly what the rows pay in it that were pending before
  -- the commit.
  pub put_blocks-total :
      (blks : List ChainBlock) (p : VoterPlugin) (t : Tables) (c : IndexCache)
      → IsTallied p
      → (put_blocks db store codec chain name blks (p, t, c)).0 ≡ ok tt
      → (e : ℕ)
      → stored_total e (put_blocks db store codec chain name blks (p, t, c)).1.1
        ≡ stored_total e t + paid e (put_all db store codec chain name blks p).1.pending_rows
  unfolding put_blocks
  put_blocks-total blks p t c sums h e =
      let read = put_all db store codec chain name blks p in
      let kept : IsTallied read.1 =
        put_all-Keeps db store codec chain name IsTallied IsTallied-IsKept blks p sums in
      committed-total t c (last_height db store codec chain name blks) read h e
      ∙ ap (λ n. stored_total e t + n) (kept.is_tallied e)
