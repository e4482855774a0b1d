-- ===== src/VoterReward/Reader.antt =====
-- service/voter_reward/statereader.go and util.go: the reads of chain state.
--
-- The gRPC client is a record `Client`: its ReadState, the page of candidates, and the decoders of
-- protobuf and address bytes that the reads use.
use iotex_analyser.Base.{ℕ, ◌+◌, ◌*◌, String, Bool, List, [], ◌∷◌, Result, ok, err, ◌>>=◌}
use iotex_analyser.VoterReward.{DelegateSnapshot}

-- The answer of ReadState: data, or an error by its gRPC status.
pub data Reply : Type 0 where
  reply : String → Reply
  not_found : String → Reply
  unavailable : String → Reply

-- The fields of iotextypes.CandidateV2 that are read.
pub record Candidate : Type 0 where
  pub id : String
  pub name : String
  pub owner_address : String
  pub reward_address : String
  pub operator_address : String

-- A delegate's allocation in the distribution state.
pub record Allocation : Type 0 where
  pub candidate_identifier : List ℕ
  pub voter_amount_frozen : List ℕ

-- The fields of VoterRewardDistributionState that are read.
pub record DistributionState : Type 0 where
  pub target_era : ℕ
  pub freeze_height : ℕ
  pub scan_phase : ℕ
  pub resume_voter : List ℕ
  pub completed : Bool
  pub completed_height : ℕ
  pub allocations : List Allocation

-- CandidateRewardSnapshot; the weight is big-endian.
pub record RawSnapshot : Type 0 where
  pub block_commission : ℕ
  pub epoch_commission : ℕ
  pub configured : Bool
  pub weight : List ℕ
  pub frozen_at : ℕ
  pub self_stake_bucket : ℕ

-- DelegatePayoutAddress
pub record RawPayout : Type 0 where
  pub address : List ℕ
  pub enabled : Bool

pub record Client : Type 0 where
  -- stakingCandidatePage, by offset, limit and height
  pub candidate_page : ℕ → ℕ → ℕ → Result String (List Candidate)
  -- client.ReadState, by protocol, method, arguments and height
  pub read_state : String → String → List String → ℕ → Reply
  pub unmarshal_distribution : String → Result String DistributionState
  pub unmarshal_snapshot : String → Result String RawSnapshot
  pub unmarshal_payout : String → Result String RawPayout
  -- address.FromBytes and String
  pub from_bytes : List ℕ → Result String String

-- `ErrNoSnapshot` and `ErrNoPayoutRouting`, or another error.
pub data ReadError : Type 0 where
  no_state : String → ReadError
  failed : String → ReadError

-- `PayoutRouting`
pub record PayoutRouting : Type 0 where
  pub address : String
  pub onchain_reward_enabled : Bool

-- big.Int's SetBytes.
unfoldable pub set_bytes : ℕ → List ℕ → ℕ
set_bytes acc [] = acc
set_bytes acc (b ∷ bs) = set_bytes (acc * 256 + b) bs

-- `bytesToDec`
abbrev pub bytes_to_dec : List ℕ → ℕ
bytes_to_dec bs = set_bytes 0 bs

abbrev pub or_failed : {A : Type 0} → Result String A → Result ReadError A
or_failed (ok a) = ok a
or_failed (err e) = err (failed e)

abbrev pub data_of : Reply → Result ReadError String
data_of (reply d) = ok d
data_of (not_found e) = err (no_state e)
data_of (unavailable e) = err (failed e)

module _ (client : Client) where
  open client use {
    read_state, unmarshal_distribution, unmarshal_snapshot, unmarshal_payout, from_bytes,
  }

  -- `addressString`
  unfoldable pub address_string : List ℕ → Result String String
  address_string [] = ok ""
  address_string (b ∷ bs) = from_bytes (b ∷ bs)

  -- `ReadDistributionState`
  unfoldable pub read_distribution_state : ℕ → Result String DistributionState
  read_distribution_state height =
      elim (read_state "rewarding" "VoterRewardDistribution" [] height) [
        | reply d ↦ unmarshal_distribution d
        | not_found e ↦ err e
        | unavailable e ↦ err e
      ]

  -- `ReadDelegateSnapshot`
  unfoldable pub read_delegate_snapshot : String → ℕ → Result ReadError DelegateSnapshot
  read_delegate_snapshot delegate_id height = do
    d ← data_of (read_state "rewarding" "DelegateRewardSnapshot" (delegate_id ∷ []) height)
    snap ← or_failed (unmarshal_snapshot d)
    ok (record {
      block_commission_bps = snap.block_commission;
      epoch_commission_bps = snap.epoch_commission;
      commission_configured = snap.configured;
      total_weight = set_bytes 0 snap.weight;
      freeze_height = snap.frozen_at;
      self_stake_bucket_idx = snap.self_stake_bucket;
    })

  -- `ReadPayoutAddress`
  unfoldable pub read_payout_address : String → ℕ → Result ReadError PayoutRouting
  unfolding address_string
  read_payout_address delegate_id height = do
    d ← data_of (read_state "rewarding" "DelegatePayoutAddress" (delegate_id ∷ []) height)
    out ← or_failed (unmarshal_payout d)
    addr ← or_failed (address_string out.address)
    ok (record { address = addr; onchain_reward_enabled = out.enabled })
