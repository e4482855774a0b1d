-- ===== src/Hermes.antt =====
-- service/hermes_reward/rebuild.go: the rewards of an epoch are summed for each reward address and
-- split among the delegates that share the address.
--
-- What the database answers in one rebuild is a record `Tx`. Amounts of reward and of votes are
-- natural numbers. `set_string` is big.Int's SetString to base 10, `epoch_height` the protocol's
-- GetEpochHeight, and `sort_votes` the order in which sort.Slice leaves the candidates; the lists of
-- a Go map's entries stand for any order of iteration.
pub mod Breakdown
pub mod Rebuild
pub mod Contributors
pub mod Shares
pub mod Tallies
pub mod Added
pub mod Rows
use iotex_analyser.Base.{
  ℕ, zero, suc, ◌+◌, ◌≡◌, String, Bool, true, false, not, ◌&&◌, ◌||◌, Option, none, some, List, [],
  ◌∷◌, ◌++◌, Result, ok, err, ◌==◌, string_eq, leb, ltb, nat_beq, if◌then◌else◌, length, ◌>>=◌,
}
use iotex_analyser.Base.GoMap.{GoMap, lookup, insert}

-- `AggregateReward`
pub record AggregateReward : Type 0 where
  pub epoch_number : ℕ
  pub reward_address : String
  pub block_reward : String
  pub epoch_reward : String
  pub foundation_bonus : String
  pub priority_bonus : String

-- `Productivity`
pub record Productivity : Type 0 where
  pub production : ℕ
  pub expected_production : ℕ

-- `ProductivityHistory`
pub record ProductivityHistory : Type 0 where
  pub producer_name : String
  pub production : ℕ
  pub expected_production : ℕ

-- A row of models.HermesVotingResult.
pub record VotingResult : Type 0 where
  pub reward_address : String
  pub delegate_name : String
  pub total_weighted_votes : ℕ

-- A row of models.HermesAccountReward.
pub record AccountReward : Type 0 where
  pub epoch_number : ℕ
  pub candidate_name : String
  pub block_reward : ℕ
  pub epoch_reward : ℕ
  pub foundation_bonus : ℕ

-- The answers of the database, in the order in which they are asked for.
pub record Tx : Type 0 where
  -- the number of block_meta rows of the epoch, and the least height among them or 0
  pub coverage : Result String (ℕ × ℕ)
  pub voting : Result String (List VotingResult)
  pub aggregates : Result String (List AggregateReward)
  pub delete : Result String (Unit {0})
  pub opted_in : Result String (List String)
  pub productivity : Result String (List ProductivityHistory)
  pub create : AccountReward → Result String (Unit {0})

-- `CheckEpochCoverage`: its field OK.
unfoldable pub check_epoch_coverage : (ℕ → ℕ) → ℕ → ℕ × ℕ → Bool
check_epoch_coverage epoch_height epoch (blocks, earliest) =
    if nat_beq blocks 0 then false else if ltb (epoch_height epoch) earliest then false else true

-- The two maps of `getVotingInfo`.
pub record VotingInfo : Type 0 where
  pub names : GoMap String (List String)
  pub votes : GoMap String ℕ

abbrev pub names_of : String → GoMap String (List String) → List String
names_of address m = elim (lookup address m) [ none ↦ [] | some names ↦ names ]

unfoldable pub collect_votes : List VotingResult → VotingInfo → VotingInfo
collect_votes [] info = info
collect_votes (row ∷ rows) info = collect_votes rows (record {
  names =
      insert row.reward_address (names_of row.reward_address info.names ++ (row.delegate_name ∷ []))
        info.names;
  votes = insert row.delegate_name row.total_weighted_votes info.votes;
})

-- `getVotingInfo`; `none` is ErrEmptyRecords.
unfoldable pub get_voting_info : List VotingResult → Option VotingInfo
get_voting_info [] = none
get_voting_info (row ∷ rows) = some (collect_votes (row ∷ rows) (record { names = []; votes = [] }))

-- `optedInDelegates`, as far as it is not SQL.
unfoldable pub opted_in_delegates : List String → GoMap String Bool
opted_in_delegates [] = []
opted_in_delegates (name ∷ names) = insert name true (opted_in_delegates names)

-- `m[name]` on a map to bool.
unfoldable pub marked : String → GoMap String Bool → Bool
marked name m = elim (lookup name m) [ none ↦ false | some b ↦ b ]

-- The loop of `contributorsTo`.
unfoldable pub keep_unmarked : List String → GoMap String Bool → List String
keep_unmarked [] opted = []
keep_unmarked (name ∷ names) opted =
    let rest = keep_unmarked names opted in if not (marked name opted) then name ∷ rest else rest

-- `contributorsTo`
unfoldable pub contributors_to : List String → GoMap String Bool → List String
contributors_to names opted =
    if nat_beq (length opted) 0 || leb (length names) 1
    then names
    else (let kept = keep_unmarked names opted in if nat_beq (length kept) 0 then names else kept)
