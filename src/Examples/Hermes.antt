-- ===== src/Examples/Hermes.antt =====
-- Two delegates share a reward address (service/hermes_reward/rebuild.go).
use iotex_analyser.Base.{
  ℕ, ◌*◌, ◌≡◌, refl, ◌⊎◌, inl, inr, String, Bool, true, false, Option, none, some, List, [], ◌∷◌,
  ok, ◌==◌, string_eq, if◌then◌else◌, arith, All, Any,
}
use iotex_analyser.Base.GoMap.{GoMap, lookup, insert}
use iotex_analyser.Hermes.{
  Tx, AggregateReward, AccountReward, ProductivityHistory, contributors_to, marked,
  check_epoch_coverage, get_voting_info, collect_votes, opted_in_delegates, keep_unmarked,
}
use iotex_analyser.Hermes.Breakdown.{
  Totals, breakdown_rewards, rank_from, collect_productivity, get_productivity, tally_production,
  tally_epoch, tally_foundation, tally_one, tally_all, add_entry, share, share_all,
}
use iotex_analyser.Hermes.Rebuild.{
  Order, rebuild_account_reward_table, row_totals, create_all, split_row, rebuild_row, rebuild_rows,
  without_epoch, replace_rows,
}
use iotex_analyser.Hermes.Contributors.{contributors_to-unmarked, contributors_to-All}
use iotex_analyser.Hermes.Shares.{Affordable, breakdown_rewards-Affordable}
use iotex_analyser.Hermes.Added.{Adds, granted}
use iotex_analyser.Hermes.Rows.{rebuild_twice, rebuild-Adds}
use mathlib.Core.List.{Perm}
use mathlib.Core.List.Perm

abbrev opted : GoMap String Bool
opted = ("carol", true) ∷ ("dave", true) ∷ []

bob_unmarked : marked "bob" opted ≡ false
unfolding marked lookup
bob_unmarked = refl

contributors_to-unmarked_example :
    All (λ m. marked m opted ≡ false) (contributors_to ("carol" ∷ "bob" ∷ []) opted)
    × Any (λ m. m ≡ "bob") (contributors_to ("carol" ∷ "bob" ∷ []) opted)
contributors_to-unmarked_example =
    contributors_to-unmarked ("carol" ∷ "bob" ∷ []) opted (omega arith) (omega arith) "bob"
      bob_unmarked (inr (inl refl))

both_marked : All (λ n. marked n opted ≡ true) ("dave" ∷ "carol" ∷ [])
unfolding marked lookup
both_marked = (refl, (refl, tt))

contributors_to-All_example : contributors_to ("dave" ∷ "carol" ∷ []) opted ≡ "dave" ∷ "carol" ∷ []
contributors_to-All_example = contributors_to-All ("dave" ∷ "carol" ∷ []) opted both_marked

abbrev names : List String
names = "ann" ∷ "bob" ∷ []

abbrev pub history : List ProductivityHistory
history =
    record { producer_name = "ann"; production = 30; expected_production = 30 }
    ∷ record { producer_name = "bob"; production = 10; expected_production = 30 }
    ∷ []

abbrev vote_counts : GoMap String ℕ
vote_counts = ("ann", 700) ∷ ("bob", 200) ∷ []

abbrev totals : Totals
totals = record { block_reward = 101; epoch_reward = 50; foundation_bonus = 7 }

abbrev entries : GoMap String Totals
entries =
    ("ann", record { block_reward = 75; epoch_reward = 50; foundation_bonus = 3 })
    ∷ ("bob", record { block_reward = 25; epoch_reward = 0; foundation_bonus = 3 })
    ∷ []

breakdown_run : breakdown_rewards (λ l. l) (ok history) names vote_counts totals ≡ ok entries
unfolding breakdown_rewards rank_from get_productivity collect_productivity tally_production
    tally_epoch tally_foundation tally_one tally_all share share_all add_entry lookup insert marked
breakdown_run = refl

breakdown_rewards-Affordable_example : Affordable totals entries
breakdown_rewards-Affordable_example =
    breakdown_rewards-Affordable (λ l. l) (ok history) names vote_counts totals entries
      breakdown_run

-- The database of epoch 5. Both delegates name the address `io1`, and none has opted in.
abbrev tx : Tx
tx = record {
  coverage = ok (720, 100);
  voting = ok (
      record { reward_address = "io1"; delegate_name = "ann"; total_weighted_votes = 700 }
      ∷ record { reward_address = "io1"; delegate_name = "bob"; total_weighted_votes = 200 }
      ∷ []);
  aggregates = ok (
      record {
        epoch_number = 5;
        reward_address = "io1";
        block_reward = "100";
        epoch_reward = "50";
        foundation_bonus = "7";
        priority_bonus = "1";
      }
      ∷ []);
  delete = ok tt;
  opted_in = ok [];
  productivity = ok history;
  create = λ r. ok tt;
}

abbrev pub number_in : String → Option ℕ
number_in s =
    if s == "100"
    then some 100
    else if s == "50"
    then some 50
    else if s == "7"
    then some 7
    else if s == "1"
    then some 1
    else none

abbrev pub row_at : ℕ → String → ℕ → ℕ → ℕ → AccountReward
row_at epoch name block reward bonus = record {
  epoch_number = epoch;
  candidate_name = name;
  block_reward = block;
  epoch_reward = reward;
  foundation_bonus = bonus;
}

abbrev stored : List AccountReward
stored = row_at 4 "ann" 9 9 9 ∷ row_at 5 "eve" 1 1 1 ∷ []

abbrev rebuilt : List AccountReward
rebuilt = row_at 4 "ann" 9 9 9 ∷ row_at 5 "ann" 75 50 3 ∷ row_at 5 "bob" 25 0 3 ∷ []

-- An order that swaps two entries.
abbrev turn : GoMap String Totals → List (String × Totals)
turn [] = []
turn (a ∷ []) = a ∷ []
turn (a ∷ b ∷ m) = b ∷ a ∷ m

turn-Perm : (m : GoMap String Totals) → Perm (turn m) m
turn-Perm [] = Perm.rfl
turn-Perm (a ∷ []) = Perm.rfl
turn-Perm (a ∷ b ∷ m) = Perm.swap a b m

abbrev kept_order : Order
kept_order = record { sort_votes = λ l. l; range = λ m. m; range-Perm = λ m. Perm.rfl }

abbrev turned_order : Order
turned_order = record { sort_votes = λ l. l; range = turn; range-Perm = turn-Perm }

rebuild_run :
    rebuild_account_reward_table number_in (λ e. e * 360) (λ n. kept_order) tx 5 stored ≡ ok rebuilt
unfolding rebuild_account_reward_table check_epoch_coverage get_voting_info collect_votes
    replace_rows without_epoch rebuild_rows rebuild_row row_totals split_row create_all
    opted_in_delegates contributors_to keep_unmarked breakdown_rewards rank_from get_productivity
    collect_productivity tally_production tally_epoch tally_foundation tally_one tally_all share
    share_all add_entry lookup insert marked
rebuild_run = refl

rebuild_twice_example :
    rebuild_account_reward_table number_in (λ e. e * 360) (λ n. turned_order) tx 5 rebuilt
    ≡ rebuild_account_reward_table number_in (λ e. e * 360) (λ n. turned_order) tx 5 stored
rebuild_twice_example =
    rebuild_twice number_in (λ e. e * 360) tx 5 (λ n. kept_order) (λ n. turned_order) stored rebuilt
      rebuild_run

rebuild-Adds_example :
    (rebuilt ≡ stored)
    ⊎ ((rows : List AggregateReward) × (tx.aggregates ≡ ok rows)
        × Adds 5 (granted number_in rows) (without_epoch 5 stored) rebuilt)
rebuild-Adds_example =
    rebuild-Adds number_in (λ e. e * 360) tx 5 (λ n. kept_order) stored rebuilt rebuild_run
