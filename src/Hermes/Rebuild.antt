-- ===== src/Hermes/Rebuild.antt =====
-- `RebuildAccountRewardTable` (service/hermes_reward/rebuild.go).
use iotex_analyser.Base.{
  ℕ, ◌+◌, String, Bool, Option, none, some, List, [], ◌∷◌, ◌++◌, Result, ok, err, ◌==◌, string_eq,
  nat_beq, if◌then◌else◌, ◌>>=◌, length,
}
use iotex_analyser.Base.GoMap.{GoMap}
use iotex_analyser.Hermes.{
  AggregateReward, AccountReward, VotingInfo, Tx, check_epoch_coverage, get_voting_info, names_of,
  opted_in_delegates, contributors_to,
}
use iotex_analyser.Hermes.Breakdown.{Totals, breakdown_rewards}
use mathlib.Core.List.{Perm}

-- The orders that Go leaves open in one call of breakdownRewards: of the candidates' votes, which
-- are ranged over and then sorted by a sort that is not stable, and of the map that it returns,
-- which is ranged over for its entries.
pub record Order : Type 0 where
  pub sort_votes : List (String × ℕ) → List (String × ℕ)
  pub range : GoMap String Totals → List (String × Totals)
  pub range-Perm : (m : GoMap String Totals) → Perm (range m) m

abbrev pub convert_error : String
convert_error = "failed to convert string to big int"

abbrev pub number : (String → Option ℕ) → String → Result String ℕ
number set_string s = elim (set_string s) [ none ↦ err convert_error | some n ↦ ok n ]

-- The totals of one row; the priority bonus is added to the block reward.
unfoldable pub row_totals : (String → Option ℕ) → AggregateReward → Result String Totals
row_totals set_string row = do
  block ← number set_string row.block_reward
  epoch ← number set_string row.epoch_reward
  foundation ← number set_string row.foundation_bonus
  if row.priority_bonus == ""
      then ok (record { block_reward = block; epoch_reward = epoch; foundation_bonus = foundation })
      else (do
        priority ← number set_string row.priority_bonus
        ok (record {
          block_reward = block + priority;
          epoch_reward = epoch;
          foundation_bonus = foundation;
        }))

abbrev pub account_reward : ℕ → String → Totals → AccountReward
account_reward epoch name s = record {
  epoch_number = epoch;
  candidate_name = name;
  block_reward = s.block_reward;
  epoch_reward = s.epoch_reward;
  foundation_bonus = s.foundation_bonus;
}

-- DELETE … WHERE epoch_number = epoch
unfoldable pub without_epoch : ℕ → List AccountReward → List AccountReward
without_epoch epoch [] = []
without_epoch epoch (r ∷ rs) =
    let rest = without_epoch epoch rs in if nat_beq r.epoch_number epoch then rest else r ∷ rest

module _ (set_string : String → Option ℕ) (epoch_height : ℕ → ℕ) (orders : ℕ → Order) (tx : Tx)
    (epoch : ℕ) where
  -- `tx.Create` of one row after the other.
  unfoldable pub create_all :
      List (String × Totals) → List AccountReward → Result String (List AccountReward)
  create_all [] stored = ok stored
  create_all ((name, s) ∷ rest) stored = elim (tx.create (account_reward epoch name s)) [
    | err e ↦ err e
    | ok done ↦ create_all rest (stored ++ (account_reward epoch name s ∷ []))
  ]

  -- The entries that one address's totals make: all to a single candidate, or a split.
  unfoldable pub split_row :
      Order → GoMap String ℕ → List String → Totals → Result String (List (String × Totals))
  split_row order votes (name ∷ []) totals = ok ((name, totals) ∷ [])
  split_row order votes names totals = do
    entries ← breakdown_rewards order.sort_votes tx.productivity names votes totals
    ok (order.range entries)

  -- One turn of the loop over the aggregated rows.
  unfoldable pub rebuild_row :
      Order
      → VotingInfo
      → GoMap String Bool
      → AggregateReward
      → List AccountReward
      → Result String (List AccountReward)
  rebuild_row order info opted row stored = do
    totals ← row_totals set_string row
    entries ←
        split_row order info.votes (contributors_to (names_of row.reward_address info.names) opted)
          totals
    create_all entries stored

  -- The turns take their orders by the number of rows that are left.
  unfoldable pub rebuild_rows :
      VotingInfo
      → GoMap String Bool
      → List AggregateReward
      → List AccountReward
      → Result String (List AccountReward)
  rebuild_rows info opted [] stored = ok stored
  rebuild_rows info opted (row ∷ rows) stored =
      elim (rebuild_row (orders (length rows)) info opted row stored) [
        | err e ↦ err e
        | ok stored' ↦ rebuild_rows info opted rows stored'
      ]

  -- From the aggregated rows on; without any the stored rows are left alone.
  unfoldable pub replace_rows :
      VotingInfo → List AggregateReward → List AccountReward → Result String (List AccountReward)
  replace_rows info [] stored = ok stored
  replace_rows info (row ∷ rows) stored = do
    done ← tx.delete
    opted ← tx.opted_in
    rebuild_rows info (opted_in_delegates opted) (row ∷ rows) (without_epoch epoch stored)

  abbrev pub with_votes :
      Option VotingInfo → List AccountReward → Result String (List AccountReward)
  with_votes none stored = ok stored
  with_votes (some info) stored = do rows ← tx.aggregates; replace_rows info rows stored

  -- `RebuildAccountRewardTable`, from the stored rows to the stored rows.
  unfoldable pub rebuild_account_reward_table :
      List AccountReward → Result String (List AccountReward)
  rebuild_account_reward_table stored = if nat_beq epoch 0 then ok stored else (do
    probe ← tx.coverage
    if check_epoch_coverage epoch_height epoch probe
        then (do results ← tx.voting; with_votes (get_voting_info results) stored)
        else ok stored)
