-- ===== src/Hermes/Breakdown.antt =====
-- `breakdownRewards` (service/hermes_reward/rebuild.go).
use iotex_analyser.Base.{
  ℕ, ◌+◌, ◌*◌, ◌/◌, ◌%◌, ◌^◌, String, Bool, true, not, ◌&&◌, Option, none, some, List, [], ◌∷◌,
  Result, ok, err, string_eq, leb, ltb, nat_beq, if◌then◌else◌, ◌>>=◌,
}
use iotex_analyser.Base.GoMap.{GoMap, lookup, insert}
use iotex_analyser.Hermes.{Productivity, ProductivityHistory, marked}

abbrev pub delegates_for_epoch_reward : ℕ
delegates_for_epoch_reward = 100

abbrev pub delegates_for_foundation_bonus : ℕ
delegates_for_foundation_bonus = 36

-- `candidateRank`: a candidate's place in the sorted list, from 1.
unfoldable pub rank_from : ℕ → List (String × ℕ) → GoMap String ℕ → GoMap String ℕ
rank_from i [] ranks = ranks
rank_from i ((name, votes) ∷ rest) ranks = rank_from (i + 1) rest (insert name i ranks)

-- A number that is missing from a map reads as 0.
abbrev pub number_of : String → GoMap String ℕ → ℕ
number_of name m = elim (lookup name m) [ none ↦ 0 | some n ↦ n ]

-- `getProductivity`
unfoldable pub collect_productivity :
    List ProductivityHistory → GoMap String Productivity → GoMap String Productivity
collect_productivity [] m = m
collect_productivity (row ∷ rows) m = collect_productivity rows (
    insert row.producer_name
      (record { production = row.production; expected_production = row.expected_production }) m)

unfoldable pub get_productivity :
    List ProductivityHistory → Result String (GoMap String Productivity)
get_productivity [] = err "empty records"
get_productivity (row ∷ rows) = ok (collect_productivity (row ∷ rows) [])

-- What the first loop over the candidates sums up.
pub record Tally : Type 0 where
  pub production_sum : ℕ
  pub qualified_votes : ℕ
  pub foundation_count : ℕ
  pub earn_block : GoMap String Bool
  pub earn_epoch : GoMap String Bool
  pub earn_foundation : GoMap String Bool

abbrev pub no_tally : Tally
no_tally = record {
  production_sum = 0;
  qualified_votes = 0;
  foundation_count = 0;
  earn_block = [];
  earn_epoch = [];
  earn_foundation = [];
}

-- The candidate's production, and whether it is productive. The product is one of uint64 values,
-- and a division by zero panics.
unfoldable pub tally_production :
    String → Option Productivity → Tally → Result String (Bool × Tally)
tally_production name none t = ok (true, t)
tally_production name (some p) t =
    if nat_beq p.expected_production 0
    then err "integer divide by zero"
    else ok (
      not (ltb (p.production * 100 % 2 ^ 64 / p.expected_production) 85),
      record t {
        production_sum = t.production_sum + p.production;
        earn_block = insert name true t.earn_block;
      },
    )

-- Qualification for the epoch reward. Votes that are missing are a nil big.Int, which panics.
unfoldable pub tally_epoch : String → ℕ → Option ℕ → Bool → Tally → Result String Tally
tally_epoch name rank votes productive t =
    if leb rank delegates_for_epoch_reward && productive
    then elim votes [
      | none ↦ err "nil pointer dereference"
      | some v ↦ ok (record t {
        qualified_votes = t.qualified_votes + v;
        earn_epoch = insert name true t.earn_epoch;
      })
    ]
    else ok t

-- Qualification for the foundation bonus.
unfoldable pub tally_foundation : String → ℕ → Tally → Tally
tally_foundation name rank t =
    if leb rank delegates_for_foundation_bonus
    then record t {
      foundation_count = t.foundation_count + 1;
      earn_foundation = insert name true t.earn_foundation;
    }
    else t

-- The three totals of a reward address.
pub record Totals : Type 0 where
  pub block_reward : ℕ
  pub epoch_reward : ℕ
  pub foundation_bonus : ℕ

abbrev pub is_zero : Totals → Bool
is_zero s = nat_beq s.block_reward 0 && (nat_beq s.epoch_reward 0 && nat_beq s.foundation_bonus 0)

-- The entry that a turn of the second loop makes: none where all three shares are 0.
unfoldable pub add_entry : String → Totals → GoMap String Totals → GoMap String Totals
add_entry name s m = if is_zero s then m else insert name s m

module _ (ranks : GoMap String ℕ) (votes : GoMap String ℕ)
    (productivity : GoMap String Productivity) where
  -- One turn of the first loop.
  unfoldable pub tally_one : String → Tally → Result String Tally
  tally_one name t = do
    (productive, t₁) ← tally_production name (lookup name productivity) t
    t₂ ← tally_epoch name (number_of name ranks) (lookup name votes) productive t₁
    ok (tally_foundation name (number_of name ranks) t₂)

  unfoldable pub tally_all : List String → Tally → Result String Tally
  tally_all [] t = ok t
  tally_all (name ∷ names) t = elim (tally_one name t) [
    | err e ↦ err e
    | ok t' ↦ tally_all names t'
  ]

  abbrev pub production_of : String → ℕ
  production_of name = elim (lookup name productivity) [ none ↦ 0 | some p ↦ p.production ]

  -- One candidate's shares, in the second loop.
  unfoldable pub share : Tally → Totals → String → Totals
  share t totals name = record {
    block_reward =
        if ltb 0 t.production_sum && marked name t.earn_block
        then totals.block_reward * production_of name / t.production_sum
        else 0;
    epoch_reward =
        if ltb 0 t.qualified_votes && marked name t.earn_epoch
        then totals.epoch_reward * number_of name votes / t.qualified_votes
        else 0;
    foundation_bonus =
        if ltb 0 totals.foundation_bonus && marked name t.earn_foundation
        then totals.foundation_bonus / t.foundation_count
        else 0;
  }

  -- The second loop.
  unfoldable pub share_all :
      Tally → Totals → List String → GoMap String Totals → GoMap String Totals
  share_all t totals [] m = m
  share_all t totals (name ∷ names) m =
      share_all t totals names (add_entry name (share t totals name) m)

-- `breakdownRewards`
unfoldable pub breakdown_rewards :
    (List (String × ℕ) → List (String × ℕ))
    → Result String (List ProductivityHistory)
    → List String
    → GoMap String ℕ
    → Totals
    → Result String (GoMap String Totals)
breakdown_rewards sort_votes history names votes totals = do
  rows ← history
  productivity ← get_productivity rows
  t ← tally_all (rank_from 1 (sort_votes votes) []) votes productivity names no_tally
  ok (share_all (rank_from 1 (sort_votes votes) []) votes productivity t totals names [])
