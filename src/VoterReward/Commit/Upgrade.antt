-- ===== src/VoterReward/Commit/Upgrade.antt =====
-- An opt-in that the plugin saw ends up in the config table (service/voter_reward/plugin.go,
-- `upgradeOptInAttribution`).
use iotex_analyser.Base.{
  ℕ, String, Bool, Option, none, some, List, [], ◌∷◌, ◌≡◌, refl, ap, ◌∙◌, inl, inr, ok, Bool-cases,
  >>=-eq-ok, ok-injective, ◌==◌, ◌&&◌, string_eq, nat_eq, beq_refl, eq_of_beq, true, Any, subst,
}
use iotex_analyser.Db.{Database, IndexCache}
use iotex_analyser.VoterReward.{VoterPlugin, DelegateConfig, opt_in_source_action}
use iotex_analyser.VoterReward.Plan.{Chain}
use iotex_analyser.VoterReward.Decode.{Codec}
use iotex_analyser.VoterReward.Commit.{
  Store, OptIn, upsert_eras, upgrade_opt_in, upgrade_opt_ins, write_rows, write_destinations,
  write_configs, write_pending, commit, era_rows, may_replace, source_of, first_config,
}
use iotex_analyser.VoterReward.Commit.Sources.{
  stored, kept_source, changed_source, stored-update_opt_in, stored-upsert_configs, stored-update,
}
use iotex_analyser.VoterReward.Commit.Dedupe.{dedupe_configs}
use iotex_analyser.VoterReward.Commit.Outcome.{commit-done}
use iotex_analyser.VoterReward.Commit.Attribution.{upgrade_opt_ins-Held}

-- An attribution to an action.
abbrev pub IsAction : Option OptIn → Type 0
IsAction o = (h : ℕ) × (o ≡ some (opt_in_source_action, h))

changed-IsAction :
    (a : OptIn) (h : ℕ)
    → IsAction
        (changed_source (may_replace opt_in_source_action) (opt_in_source_action, h) (some a))
unfolding may_replace
changed-IsAction (source, k) h = elim (Bool-cases (source == opt_in_source_action)) [
  | inl b ↦ rw b (k, ap (λ s. some (s, k)) (eq_of_beq source opt_in_source_action b))
  | inr b ↦ rw b (h, refl)
]

changed-some :
    (condition : String → Bool) (new a : OptIn)
    → (b : OptIn) × (changed_source condition new (some a) ≡ some b)
changed-some condition new (source, k) = elim (Bool-cases (condition source)) [
  | inl b ↦ rw b (new, refl)
  | inr b ↦ rw b ((source, k), refl)
]

first_config-some :
    (d : String) (e : ℕ) (cfgs : List DelegateConfig)
    → Any (λ c. (c.delegate_id ≡ d) × (c.era ≡ e)) cfgs
    → (c : DelegateConfig) × (first_config d e cfgs ≡ some c)
first_config-some d e [] member = elim member [ ]
first_config-some d e (c ∷ cfgs) (inl (same_id, same_era)) =
    let here : (c.delegate_id == d && c.era == e) ≡ true =
      rw (same_id, same_era, beq_refl d, beq_refl e) refl in
    rw here (c, refl)
first_config-some d e (c ∷ cfgs) (inr later) =
    elim (Bool-cases (c.delegate_id == d && c.era == e)) [
      | inl b ↦ rw b (c, refl)
      | inr b ↦ rw b (first_config-some d e cfgs later)
    ]

upserted-some :
    (a : Option OptIn) (c : DelegateConfig) → (b : OptIn) × (kept_source a (some c) ≡ some b)
upserted-some none c = (source_of c, refl)
upserted-some (some a) c = (a, refl)

module _ (db : Database) (store : Store db) (codec : Codec) (chain : Chain) (name : String)
    (d : String) (e : ℕ) where
  open db use {Tables}

  abbrev IsStored : Tables → Type 0
  IsStored t = (a : OptIn) × (stored db store d e t ≡ some a)

  -- A config of the delegate and era whose opt-in was seen.
  abbrev pub Attributes : DelegateConfig → Type 0
  Attributes c = (c.opt_in_source ≡ opt_in_source_action) × (c.delegate_id ≡ d) × (c.era ≡ e)

  upgrade_opt_in-IsStored :
      (cfg : DelegateConfig) (t t' : Tables)
      → upgrade_opt_in db store codec chain name cfg t ≡ ok t'
      → IsStored t
      → IsStored t'
  unfolding upgrade_opt_in
  upgrade_opt_in-IsStored cfg t t' made (a, held) = elim (Bool-cases (cfg.opt_in_source == "")) [
    | inl b ↦
        (let same : ok t ≡ ok t' = rw b at made in subst IsStored (ok-injective same) (a, held))
    | inr b ↦
        (let updated = rw b at made in
          let after = stored-update_opt_in db store _ _ _ _ t t' updated d e in
          elim (Bool-cases (cfg.delegate_id == d && cfg.era == e)) [
            | inl k ↦
                (let (c, some_c) = changed-some (may_replace cfg.opt_in_source) (source_of cfg) a in
                  (c, after ∙ rw (k, held) some_c))
            | inr k ↦ (a, after ∙ rw k held)
          ])
  ]

  upgrade_opt_in-IsAction :
      (cfg : DelegateConfig) (t t' : Tables)
      → Attributes cfg
      → upgrade_opt_in db store codec chain name cfg t ≡ ok t'
      → IsStored t
      → IsAction (stored db store d e t')
  unfolding upgrade_opt_in
  upgrade_opt_in-IsAction cfg t t' (source, same_id, same_era) made (a, held) =
      let updated = rw source at made in
      let after = stored-update_opt_in db store _ _ _ _ t t' updated d e in
      let here : (cfg.delegate_id == d && cfg.era == e) ≡ true =
        rw (same_id, same_era, beq_refl d, beq_refl e) refl in
      let (h, action) = changed-IsAction a cfg.opt_in_height in (h, after ∙ rw (here, held) action)

  upgrade_opt_ins-IsAction :
      (cfgs : List DelegateConfig) (t t' : Tables)
      → Any Attributes cfgs
      → upgrade_opt_ins db store codec chain name cfgs t ≡ ok t'
      → IsStored t
      → IsAction (stored db store d e t')
  unfolding upgrade_opt_ins
  upgrade_opt_ins-IsAction [] t t' member made held = elim member [ ]
  upgrade_opt_ins-IsAction (cfg ∷ cfgs) t t' (inl here) made held =
      let (u, first, rest) =
        >>=-eq-ok (upgrade_opt_in db store codec chain name cfg t)
          (upgrade_opt_ins db store codec chain name cfgs) made in
      let (h, action) = upgrade_opt_in-IsAction cfg t u here first held in
      (h, upgrade_opt_ins-Held db store codec chain name d e h cfgs u t' rest action)
  upgrade_opt_ins-IsAction (cfg ∷ cfgs) t t' (inr later) made held =
      let (u, first, rest) =
        >>=-eq-ok (upgrade_opt_in db store codec chain name cfg t)
          (upgrade_opt_ins db store codec chain name cfgs) made in
      upgrade_opt_ins-IsAction cfgs u t' later rest (upgrade_opt_in-IsStored cfg t u first held)

  named :
      (cfgs : List DelegateConfig)
      → Any Attributes cfgs
      → Any (λ c. (c.delegate_id ≡ d) × (c.era ≡ e)) cfgs
  named [] member = elim member [ ]
  named (c ∷ cfgs) (inl (source, same_id, same_era)) = inl (same_id, same_era)
  named (c ∷ cfgs) (inr later) = inr (named cfgs later)

  write_configs-IsAction :
      (cfgs : List DelegateConfig) (t t' : Tables)
      → Any Attributes cfgs
      → write_configs db store codec chain name cfgs t ≡ ok t'
      → IsAction (stored db store d e t')
  write_configs-IsAction [] t t' member made = elim member [ ]
  write_configs-IsAction (cfg ∷ cfgs) t t' member made =
      let (u, first, rest) =
        >>=-eq-ok (store.upsert_configs (cfg ∷ cfgs) t)
          (upgrade_opt_ins db store codec chain name (cfg ∷ cfgs)) made in
      let (c, found) = first_config-some d e (cfg ∷ cfgs) (named (cfg ∷ cfgs) member) in
      let (a, put) = upserted-some (stored db store d e t) c in
      upgrade_opt_ins-IsAction (cfg ∷ cfgs) u t' member rest (
        a,
        stored-upsert_configs db store (cfg ∷ cfgs) t u first d e
            ∙ ap (kept_source (stored db store d e t)) found
            ∙ put,
      )

  write_pending-IsAction :
      (p : VoterPlugin) (t t' : Tables)
      → Any Attributes (dedupe_configs p.pending_configs)
      → write_pending db store codec chain name p t ≡ ok t'
      → IsAction (stored db store d e t')
  unfolding write_pending
  write_pending-IsAction p t t' member made =
      let (t₁, h₁, k₁) = >>=-eq-ok (write_rows db store codec chain name p.pending_rows t) _ made in
      let (t₂, h₂, k₂) =
        >>=-eq-ok (write_destinations db store codec chain name p.pending_destinations t₁) _ k₁ in
      let (t₃, h₃, k₃) =
        >>=-eq-ok (upsert_eras db store codec chain name (era_rows p.pending_eras) t₂) _ k₂ in
      write_configs-IsAction (dedupe_configs p.pending_configs) t₃ t' member k₃

  -- When a commit succeeds and some config for a delegate and an era, after duplicates are dropped,
  -- has its opt-in from an action, the config table attributes that opt-in to an action afterwards.
  pub commit-IsAction :
      (p : VoterPlugin) (t : Tables) (c : IndexCache)
      → Any Attributes (dedupe_configs p.pending_configs)
      → (commit db store codec chain name (p, t, c)).0 ≡ ok tt
      → IsAction (stored db store d e (commit db store codec chain name (p, t, c)).1.1)
  commit-IsAction p t c member done =
      let (plugin, (u, made, updated)) = commit-done db store codec chain name p t c done in
      let (h, action) = write_pending-IsAction p t u member made in
      (h, stored-update db store name p.tip_height u _ updated d e ∙ action)
