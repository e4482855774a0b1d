-- ===== src/VoterReward/Blocks/Keeping.antt =====
-- A property of the plugin that each change of its fields keeps is kept when an era is planned or read
-- and when candidates are refreshed, also on an error (service/voter_reward/plugin.go).
use iotex_analyser.Base.{
  ℕ, ◌-◌, ◌||◌, ◌&&◌, String, Option, List, [], ◌∷◌, Result, ok, err, Bool-cases, inl, inr, nat_beq,
  nat_eq, string_eq, ◌≡◌, refl, not,
}
use iotex_analyser.Base.Stateful.{Keeps, Keeps-bind, Keeps-modify, Keeps-lift, modify, Keeps-pure}
use iotex_analyser.Base.GoMap.{GoMap, lookup}
use iotex_analyser.VoterReward.{
  VoterPlugin, EraRow, DelegateConfig, DelegateSnapshot, CandidateIndex, CandidateInfo, edit_era,
  is_era_seen, is_era_state_passed,
}
use iotex_analyser.VoterReward.Reader.{
  Client, DistributionState, ReadError, no_state, failed, PayoutRouting, read_payout_address,
  read_distribution_state,
}
use iotex_analyser.VoterReward.Candidates.{refresh, all_candidates}
use iotex_analyser.VoterReward.Decode.{DistributionRow, FrozenSnapshot, DestinationChange}
use iotex_analyser.VoterReward.Plan.{
  Chain, client_of, paged, with_frozen, with_delegates, with_freeze, frozen_amounts, add_config,
  file_config, routed_config, snapshot_delegate, snapshot_delegates, snapshot_delegate_configs,
  mark_seen, start_plan, record_plan, plan_era, ensure_era_plan, mark_state_passed,
  record_frozen_era, read_frozen_era, index_frozen_era, refresh_candidates,
  refresh_candidates_if_needed,
}
use iotex_analyser.VoterReward.Blocks.{
  Place, add_row, see_opt_in, see_freeze, add_destination, mark_chunked, clear_chunked, mark_done,
}

-- A change of an era's row that leaves its totals alone.
abbrev pub KeepsTotal : (EraRow → EraRow) → Type 0
KeepsTotal change =
    (row : EraRow)
    → ((change row).era ≡ row.era) × ((change row).total_distributed ≡ row.total_distributed)

-- The changes of the fields that a block makes.
pub record IsKept (P : VoterPlugin → Type 0) : Type 0 where
  pub keeps_row :
      (at : Place) (row : DistributionRow) (p : VoterPlugin) → P p → P (add_row at row p)
  pub keeps_era :
      (era : ℕ) (change : EraRow → EraRow) (p : VoterPlugin)
      → KeepsTotal change
      → P p
      → P (edit_era era change p)
  pub keeps_opt_in : (id : String) (height : ℕ) (p : VoterPlugin) → P p → P (see_opt_in id height p)
  pub keeps_freeze : (f : Option FrozenSnapshot) (p : VoterPlugin) → P p → P (see_freeze f p)
  pub keeps_destination :
      (at : Place) (d : Option DestinationChange) (p : VoterPlugin)
      → P p
      → P (add_destination at d p)
  pub keeps_config : (cfg : DelegateConfig) (p : VoterPlugin) → P p → P (add_config cfg p)
  pub keeps_seen : (era : ℕ) (p : VoterPlugin) → P p → P (mark_seen era p)
  pub keeps_chunked : (era : ℕ) (p : VoterPlugin) → P p → P (mark_chunked era p)
  pub keeps_clear : (p : VoterPlugin) → P p → P (clear_chunked p)
  pub keeps_done : (state : DistributionState) (p : VoterPlugin) → P p → P (mark_done state p)
  pub keeps_passed :
      (chain : Chain) (era : ℕ) (p : VoterPlugin) → P p → P (mark_state_passed chain era p)
  pub keeps_candidates :
      (c : CandidateIndex) (p : VoterPlugin) → P p → P (record p { candidates = c })

module _ (P : VoterPlugin → Type 0) (kept : IsKept P) where
  pub Keeps-edit_era :
      (era : ℕ) (change : EraRow → EraRow)
      → KeepsTotal change
      → Keeps P (modify (edit_era era change))
  Keeps-edit_era era change k =
      Keeps-modify P (edit_era era change) (λ p. kept.keeps_era era change p k)

  file_config-Keeps :
      (cfg : DelegateConfig) (f n : ℕ) (snap : Result ReadError DelegateSnapshot)
      → Keeps P (file_config cfg f n snap)
  file_config-Keeps cfg f n (ok snap) =
      Keeps-bind P _ _ (Keeps-modify P _ (kept.keeps_config _))
        (λ _. Keeps-pure P (snap.freeze_height, n))
  file_config-Keeps cfg f n (err (no_state e)) =
      Keeps-bind P _ _ (Keeps-modify P _ (kept.keeps_config cfg)) (λ _. Keeps-pure P (f, n))
  file_config-Keeps cfg f n (err (failed e)) = Keeps-lift P (err e)

  module _ (client : Client) (era height : ℕ) (frozen : GoMap String ℕ)
      (logged : Option (GoMap String DelegateSnapshot)) where
    routed_config-Keeps :
        (info : CandidateInfo) (f n : ℕ) (r : Result ReadError PayoutRouting)
        → Keeps P (routed_config client era height frozen logged info f n r)
    routed_config-Keeps info f n (err (no_state e)) = record { keeps = λ p h. h }
    routed_config-Keeps info f n (err (failed e)) = record { keeps = λ p h. h }
    routed_config-Keeps info f n (ok routing) = record {
      keeps = λ p h. (file_config-Keeps _ f _ _).keeps p h;
    }

    snapshot_delegates-Keeps :
        (infos : List CandidateInfo) (f n : ℕ)
        → Keeps P (snapshot_delegates client era height frozen logged infos f n)
    unfolding snapshot_delegates snapshot_delegate
    snapshot_delegates-Keeps [] f n = Keeps-pure P (f, n)
    snapshot_delegates-Keeps (info ∷ infos) f n =
        Keeps-bind P (snapshot_delegate client era height frozen logged info f n) _
          (routed_config-Keeps info f n (read_payout_address client info.identifier height))
          (λ (r : ℕ × ℕ). snapshot_delegates-Keeps infos r.0 r.1)

  snapshot_delegate_configs-Keeps :
      (client : Client) (era height : ℕ) (frozen : GoMap String ℕ)
      → Keeps P (snapshot_delegate_configs client era height frozen)
  unfolding snapshot_delegate_configs
  snapshot_delegate_configs-Keeps client era height frozen = record {
    keeps = λ p h.
        (snapshot_delegates-Keeps client era height frozen (lookup era p.frozen_snaps)
            (all_candidates p.candidates) 0 0).keeps
          p h;
  }

  record_plan-Keeps :
      (client : Client) (era height : ℕ) (state : DistributionState)
      → Keeps P (record_plan client era height state)
  unfolding record_plan
  record_plan-Keeps client era height state =
      Keeps-bind P _ _ (Keeps-edit_era era (start_plan state height) (λ row. (refl, refl))) (λ _.
        Keeps-bind P _ _ (Keeps-lift P (frozen_amounts client state.allocations 0 []))
          (λ (t : ℕ × GoMap String ℕ).
            Keeps-bind P _ _ (Keeps-edit_era era (with_frozen t.0) (λ row. (refl, refl))) (λ _.
              Keeps-bind P _ _ (snapshot_delegate_configs-Keeps client era height t.1)
                (λ (r : ℕ × ℕ).
                  Keeps-bind P _ _ (Keeps-edit_era era (with_delegates r.1) (λ row. (refl, refl)))
                    (λ _. Keeps-modify P (mark_seen era) (kept.keeps_seen era))))))

  module _ (chain : Chain) where
    plan_era-Keeps : (era height : ℕ) → Keeps P (plan_era chain era height)
    unfolding plan_era
    plan_era-Keeps era height =
        Keeps-bind P _ _ (Keeps-lift P (client_of chain.client)) (λ (client : Client).
          Keeps-bind P _ _ (Keeps-lift P (read_distribution_state client height))
            (λ (state : DistributionState). elim (Bool-cases (nat_beq state.target_era era)) [
              | inl e ↦ rw e (record_plan-Keeps client era height state)
              | inr e ↦ rw e (Keeps-pure P tt)
            ]))

    pub ensure_era_plan-Keeps : (era height : ℕ) → Keeps P (ensure_era_plan chain era height)
    unfolding ensure_era_plan
    ensure_era_plan-Keeps era height = record {
      keeps = λ p h. elim (Bool-cases (is_era_seen era p)) [
        | inl e ↦ rw e (h)
        | inr e ↦ rw e ((plan_era-Keeps era height).keeps p h)
      ];
    }

    record_frozen_era-Keeps : (epoch f n : ℕ) → Keeps P (record_frozen_era chain epoch f n)
    record_frozen_era-Keeps epoch f n =
        Keeps-bind P _ _ (Keeps-edit_era epoch (with_freeze f n) (λ row. (refl, refl)))
          (λ _. Keeps-modify P (mark_state_passed chain epoch) (kept.keeps_passed chain epoch))

    read_frozen_era-Keeps : (height epoch : ℕ) → Keeps P (read_frozen_era chain height epoch)
    unfolding read_frozen_era
    read_frozen_era-Keeps height epoch =
        Keeps-bind P _ _ (Keeps-lift P (client_of chain.client)) (λ (client : Client).
          Keeps-bind P _ _ (snapshot_delegate_configs-Keeps client epoch height []) (λ (r : ℕ × ℕ).
            elim (Bool-cases (nat_beq r.0 0)) [
              | inl e ↦ rw e (Keeps-pure P tt)
              | inr e ↦ rw e (record_frozen_era-Keeps epoch r.0 r.1)
            ]))

    pub index_frozen_era-Keeps : (height epoch : ℕ) → Keeps P (index_frozen_era chain height epoch)
    unfolding index_frozen_era
    index_frozen_era-Keeps height epoch = record {
      keeps = λ p h. elim (Bool-cases (not (chain.is_era_boundary epoch))) [
        | inl e ↦ rw e h
        | inr e ↦
            rw e
              (elim (Bool-cases (
                not (nat_beq height (chain.epoch_last epoch))
                || is_era_state_passed epoch p
                || is_era_seen epoch p)) [
                  | inl f ↦ rw f h
                  | inr f ↦ rw f ((read_frozen_era-Keeps height epoch).keeps p h)
                ])
      ];
    }

    refresh_candidates-Keeps : (height : ℕ) → Keeps P (refresh_candidates chain height)
    unfolding refresh_candidates
    refresh_candidates-Keeps height =
        Keeps-bind P _ _ (Keeps-lift P (client_of chain.client)) (λ (client : Client).
          Keeps-bind P _ _
            (Keeps-lift P (paged chain (refresh client chain.page_fuel (height - 1))))
            (λ (c : CandidateIndex). Keeps-modify P _ (kept.keeps_candidates c)))

    pub refresh_candidates_if_needed-Keeps :
        (height epoch : ℕ) → Keeps P (refresh_candidates_if_needed chain height epoch)
    unfolding refresh_candidates_if_needed
    refresh_candidates_if_needed-Keeps height epoch = record {
      keeps = λ p h.
          elim (Bool-cases (
            not (nat_beq height (chain.epoch_height epoch))
            && not (nat_beq p.candidates.height 0))) [
              | inl e ↦ rw e (h)
              | inr e ↦ rw e ((refresh_candidates-Keeps height).keeps p h)
            ];
    }
