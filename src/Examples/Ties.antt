-- ===== src/Examples/Ties.antt =====
-- Two delegates with the same votes at the 36th and the 37th place (service/hermes_reward/rebuild.go):
-- a rebuild of a rebuilt epoch may pay the other one.
use iotex_analyser.Base.{ℕ, ◌*◌, ◌≡◌, refl, String, List, [], ◌∷◌, ◌++◌, map, ok}
use iotex_analyser.Base.GoMap.{lookup, insert}
use iotex_analyser.Hermes.{
  Tx, VotingResult, AccountReward, contributors_to, marked, check_epoch_coverage, get_voting_info,
  collect_votes, opted_in_delegates, keep_unmarked,
}
use iotex_analyser.Hermes.Breakdown.{
  breakdown_rewards, rank_from, collect_productivity, get_productivity, tally_production,
  tally_epoch, tally_foundation, tally_one, tally_all, add_entry, share, share_all,
}
use iotex_analyser.Hermes.Rebuild.{
  Order, rebuild_account_reward_table, row_totals, create_all, split_row, rebuild_row, rebuild_rows,
  without_epoch, replace_rows,
}
use iotex_analyser.Examples.Hermes.{history, number_in, row_at}
use mathlib.Core.List.Perm

abbrev leaders : List String
leaders =
    "d01" ∷ "d02" ∷ "d03" ∷ "d04" ∷ "d05" ∷ "d06" ∷ "d07" ∷ "d08" ∷ "d09" ∷ "d10" ∷ "d11" ∷ "d12"
    ∷ "d13" ∷ "d14" ∷ "d15" ∷ "d16" ∷ "d17" ∷ "d18" ∷ "d19" ∷ "d20" ∷ "d21" ∷ "d22" ∷ "d23" ∷ "d24"
    ∷ "d25" ∷ "d26" ∷ "d27" ∷ "d28" ∷ "d29" ∷ "d30" ∷ "d31" ∷ "d32" ∷ "d33" ∷ "d34" ∷ "d35" ∷ []

abbrev voting_row : String → String → ℕ → VotingResult
voting_row address name votes = record {
  reward_address = address;
  delegate_name = name;
  total_weighted_votes = votes;
}

abbrev tied_rows : List VotingResult
tied_rows = voting_row "io1" "ann" 200 ∷ voting_row "io1" "bob" 200 ∷ []

abbrev tied : Tx
tied = record {
  coverage = ok (720, 100);
  voting = ok (map (λ name. voting_row "io2" name 900) leaders ++ tied_rows);
  aggregates = ok (
      record {
        epoch_number = 5;
        reward_address = "io1";
        block_reward = "100";
        epoch_reward = "50";
        foundation_bonus = "7";
        priority_bonus = "1";
      }
      ∷ []);
  delete = ok tt;
  opted_in = ok [];
  productivity = ok history;
  create = λ r. ok tt;
}

-- Both orders are decreasing in the votes.
abbrev swap_last : List (String × ℕ) → List (String × ℕ)
swap_last [] = []
swap_last (a ∷ []) = a ∷ []
swap_last (a ∷ b ∷ []) = b ∷ a ∷ []
swap_last (a ∷ b ∷ c ∷ l) = a ∷ swap_last (b ∷ c ∷ l)

abbrev first_order : Order
first_order = record { sort_votes = λ l. l; range = λ m. m; range-Perm = λ m. Perm.rfl }

abbrev second_order : Order
second_order = record { sort_votes = swap_last; range = λ m. m; range-Perm = λ m. Perm.rfl }

abbrev first_table : List AccountReward
first_table = row_at 5 "ann" 75 50 7 ∷ row_at 5 "bob" 25 0 0 ∷ []

abbrev second_table : List AccountReward
second_table = row_at 5 "ann" 75 50 0 ∷ row_at 5 "bob" 25 0 7 ∷ []

tied_runs :
    (rebuild_account_reward_table number_in (λ e. e * 360) (λ n. first_order) tied 5 []
      ≡ ok first_table)
    × (rebuild_account_reward_table number_in (λ e. e * 360) (λ n. second_order) tied 5 first_table
        ≡ ok second_table)
unfolding rebuild_account_reward_table check_epoch_coverage get_voting_info collect_votes
    replace_rows without_epoch rebuild_rows rebuild_row row_totals split_row create_all
    opted_in_delegates contributors_to keep_unmarked breakdown_rewards rank_from get_productivity
    collect_productivity tally_production tally_epoch tally_foundation tally_one tally_all share
    share_all add_entry lookup insert marked
tied_runs = (refl, refl)
