-- ===== src/VoterReward/Blocks/Reading.antt =====
-- A property of the plugin that each change of its fields keeps is kept by a whole block, whether
-- the block is read to its end or fails (service/voter_reward/plugin.go).
use iotex_analyser.Base.{
  ℕ, ◌+◌, String, Option, none, some, List, [], ◌∷◌, Bool-cases, inl, inr, nat_eq, string_eq, refl,
}
use iotex_analyser.Base.Stateful.{Keeps, Keeps-bind, Keeps-modify, Keeps-lift, modify, Keeps-pure}
use iotex_analyser.Base.GoMap.{has}
use iotex_analyser.StakingLog.{Log}
use iotex_analyser.VoterReward.{VoterPlugin}
use iotex_analyser.VoterReward.Reader.{Client, DistributionState, read_distribution_state}
use iotex_analyser.VoterReward.Decode.{
  Codec, decode_distribution, decode_opt_in, decode_freeze, decode_destination,
  decode_reward_bookkeeping, DistributionRow, FrozenSnapshot, DestinationChange, CursorProgress,
}
use iotex_analyser.VoterReward.Plan.{Chain, client_of}
use iotex_analyser.VoterReward.Blocks.{
  Place, ChainBlock, BlockReceipt, add_row, chunk_row, mark_chunked, see_overrun, clear_chunked,
  consume_rows, consume_progress, consume_log, consume_logs, consume_receipts, settle, read_chunked,
  refresh_chunked_eras, put_block, DrainOverrun, any_not_done, Bookkeeping, with_residue,
}
use iotex_analyser.VoterReward.Blocks.Keeping.{
  IsKept, Keeps-edit_era, ensure_era_plan-Keeps, refresh_candidates_if_needed-Keeps,
  index_frozen_era-Keeps,
}

module _ (P : VoterPlugin → Type 0) (kept : IsKept P) (chain : Chain) (codec : Codec) where
  consume_rows-Keeps :
      (at : Place) (rows : List DistributionRow) → Keeps P (consume_rows codec chain at rows)
  unfolding consume_rows
  consume_rows-Keeps at [] = Keeps-pure P tt
  consume_rows-Keeps at (row ∷ rows) =
      Keeps-bind P _ _ (Keeps-modify P (add_row at row) (kept.keeps_row at row)) (λ _.
        Keeps-bind P _ _ (ensure_era_plan-Keeps P kept chain row.era at.height)
          (λ _. consume_rows-Keeps at rows))

  consume_progress-Keeps :
      (height : ℕ) (progress : Option CursorProgress)
      → Keeps P (consume_progress codec chain height progress)
  consume_progress-Keeps height none = Keeps-pure P tt
  consume_progress-Keeps height (some c) =
      Keeps-bind P _ _ (Keeps-edit_era P kept c.era (chunk_row c height) (λ row. (refl, refl)))
        (λ _.
          Keeps-bind P _ _ (Keeps-modify P (mark_chunked c.era) (kept.keeps_chunked c.era))
            (λ _. ensure_era_plan-Keeps P kept chain c.era height))

  see_overrun-Keeps : (o : Option DrainOverrun) → Keeps P (modify (see_overrun o))
  see_overrun-Keeps none = record { keeps = λ p h. h }
  see_overrun-Keeps (some o) =
      Keeps-edit_era P kept o.era (with_residue o.residue) (λ row. (refl, refl))

  consume_log-Keeps : (at : Place) (l : Option Log) → Keeps P (consume_log codec chain at l)
  unfolding consume_log
  consume_log-Keeps at l =
      Keeps-bind P _ _ (Keeps-lift P (decode_distribution codec l))
        (λ (rows : List DistributionRow). Keeps-bind P _ _ (consume_rows-Keeps at rows) (λ _.
          Keeps-bind P _ _ (Keeps-lift P (decode_opt_in codec l)) (λ (id : String).
            Keeps-bind P _ _ (Keeps-modify P _ (kept.keeps_opt_in id at.height)) (λ _.
              Keeps-bind P _ _ (Keeps-lift P (decode_freeze codec l))
                (λ (f : Option FrozenSnapshot).
                  Keeps-bind P _ _ (Keeps-modify P _ (kept.keeps_freeze f)) (λ _.
                    Keeps-bind P _ _ (Keeps-lift P (decode_destination codec l))
                      (λ (d : Option DestinationChange).
                        Keeps-bind P _ _ (Keeps-modify P _ (kept.keeps_destination at d)) (λ _.
                          Keeps-bind P _ _ (Keeps-lift P (decode_reward_bookkeeping codec l))
                            (λ (b : Bookkeeping codec).
                              Keeps-bind P _ _ (consume_progress-Keeps at.height b.0)
                                (λ _. see_overrun-Keeps b.1))))))))))

  consume_logs-Keeps :
      (height epoch : ℕ) (hash : String) (i : ℕ) (logs : List (Option Log))
      → Keeps P (consume_logs codec chain height epoch hash i logs)
  unfolding consume_logs
  consume_logs-Keeps height epoch hash i [] = Keeps-pure P tt
  consume_logs-Keeps height epoch hash i (l ∷ logs) =
      Keeps-bind P _ _ (consume_log-Keeps _ l)
        (λ _. consume_logs-Keeps height epoch hash (i + 1) logs)

  consume_receipts-Keeps :
      (height epoch : ℕ) (rs : List BlockReceipt)
      → Keeps P (consume_receipts codec chain height epoch rs)
  unfolding consume_receipts
  consume_receipts-Keeps height epoch [] = Keeps-pure P tt
  consume_receipts-Keeps height epoch (r ∷ rs) =
      Keeps-bind P _ _ (consume_logs-Keeps height epoch r.action_hash 0 r.logs)
        (λ _. consume_receipts-Keeps height epoch rs)

  settle-Keeps :
      (height : ℕ) (state : DistributionState) → Keeps P (settle codec chain height state)
  unfolding settle
  settle-Keeps height state = record {
    keeps = λ p h. elim (Bool-cases (has state.target_era p.chunk_eras)) [
      | inl e ↦
          rw e
            (kept.keeps_done state _ (kept.keeps_era state.target_era _ p (λ row. (refl, refl)) h))
      | inr e ↦ rw e (h)
    ];
  }

  read_chunked-Keeps : (height : ℕ) → Keeps P (read_chunked codec chain height)
  unfolding read_chunked
  read_chunked-Keeps height =
      Keeps-bind P _ _ (Keeps-lift P (client_of chain.client)) (λ (client : Client).
        Keeps-bind P _ _ (Keeps-lift P (read_distribution_state client height))
          (λ (state : DistributionState). settle-Keeps height state))

  refresh_chunked_eras-Keeps : (height : ℕ) → Keeps P (refresh_chunked_eras codec chain height)
  unfolding refresh_chunked_eras
  refresh_chunked_eras-Keeps height = record {
    keeps = λ p h. elim (Bool-cases (any_not_done p.chunk_eras p)) [
      | inl e ↦ rw e ((read_chunked-Keeps height).keeps p h)
      | inr e ↦ rw e (h)
    ];
  }

  pub put_block-Keeps : (blk : ChainBlock) → Keeps P (put_block codec chain blk)
  unfolding put_block
  put_block-Keeps blk =
      Keeps-bind P _ _
        (refresh_candidates_if_needed-Keeps P kept chain blk.height (chain.epoch_num blk.height))
        (λ _. Keeps-bind P _ _ (Keeps-modify P clear_chunked kept.keeps_clear) (λ _.
          Keeps-bind P _ _
            (consume_receipts-Keeps blk.height (chain.epoch_num blk.height) blk.receipts)
            (λ _.
              Keeps-bind P _ _ (refresh_chunked_eras-Keeps blk.height) (λ _.
                index_frozen_era-Keeps P kept chain blk.height (chain.epoch_num blk.height)))))
