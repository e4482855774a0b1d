-- ===== src/VoterReward/Decode.antt =====
-- service/voter_reward/decode.go: from receipt logs to what the plugin indexes.
--
-- What iotex-core and the ABI supply, the selectors, the emitters and the unpackers, is a record
-- `Codec`. `none` is a nil log. An index past the end of an array, which panics, is an error.
pub mod Text
use iotex_analyser.Base.{
  ℕ, zero, suc, ◌+◌, ◌*◌, ◌-◌, ◌%◌, ◌^◌, String, Bool, true, false, ◌&&◌, ◌||◌, not, Option, none,
  some, List, [], ◌∷◌, Result, ok, err, ltb, leb, nat_beq, ◌==◌, string_eq, if◌then◌else◌, length,
  take, drop, ◌>>=◌,
}
use iotex_analyser.StakingLog.{Word, Log, word_beq, big_endian}
use iotex_analyser.Rewards.{RewardLog, RewardType, cursor_progress, epoch_drain_overrun}
use iotex_analyser.VoterReward.{DelegateSnapshot}
use iotex_analyser.VoterReward.Decode.Text.{split_colon, parse_uint}

-- The arguments of a DelegateVoterRewardsDistributed event.
pub record DistributedArgs : Type 0 where
  pub epoch : ℕ
  pub delegate : String
  pub voters : List String
  pub recipients : List String
  pub amounts : List ℕ
  pub compounded : List Bool
  pub compound_bucket_ids : List ℕ

-- A value that the ABI unpacks, by its Go type.
pub data AbiValue : Type 0 where
  abi_uint64 : ℕ → AbiValue
  abi_bool : Bool → AbiValue
  abi_big : ℕ → AbiValue
  abi_other : AbiValue

pub record Codec : Type 0 where
  pub rewarding_addr : String
  pub staking_addr : String
  pub distributed_topic : Word
  pub opt_in_topic : Word
  pub destination_topic : Word
  pub freeze_topic : Word
  pub unpack_distributed : List Word → List ℕ → Result String DistributedArgs
  pub unpack_freeze : List ℕ → Result String (List AbiValue)
  pub unmarshal_reward_log : List ℕ → Result String (List RewardLog)
  -- address.FromBytes and String
  pub address_of : List ℕ → Result String String
  -- SetString of big.Int to base 10
  pub set_string : String → Option ℕ

-- `DistributionRow`
pub record DistributionRow : Type 0 where
  pub era : ℕ
  pub delegate : String
  pub voter : String
  pub recipient : String
  pub amount : ℕ
  pub compounded : Bool
  pub compound_bucket_id : ℕ
  pub row_index : ℕ

-- `FrozenSnapshot`
pub record FrozenSnapshot : Type 0 where
  pub era : ℕ
  pub delegate : String
  pub snapshot : DelegateSnapshot

-- `DestinationChange`
pub record DestinationChange : Type 0 where
  pub voter : String
  pub old_recipient : String
  pub new_recipient : String

-- `CursorProgress`
pub record CursorProgress : Type 0 where
  pub era : ℕ
  pub scan_phase : ℕ
  pub resume_voter : String
  pub ranges_remaining : ℕ

-- `DrainOverrun`
pub record DrainOverrun : Type 0 where
  pub era : ℕ
  pub delegates_remaining : ℕ
  pub residue : ℕ

-- A log's first topic is `topic`, and it was emitted by `addr`.
abbrev pub is_event : Word → String → Log → Bool
is_event topic addr l = elim l.topics [
  | [] ↦ false
  | t ∷ ts ↦ word_beq t topic && l.address == addr
]

-- The loop over the voters, from index `i` on.
unfoldable pub distribution_rows :
    ℕ
    → String
    → ℕ
    → List String
    → List String
    → List ℕ
    → List Bool
    → List ℕ
    → Result String (List DistributionRow)
distribution_rows era delegate i [] rs amounts cs bs = ok []
distribution_rows era delegate i (v ∷ vs) (r ∷ rs) (a ∷ more) (c ∷ cs) (b ∷ bs) = do
  rest ← distribution_rows era delegate (i + 1) vs rs more cs bs
  ok (
      record {
        era = era;
        delegate = delegate;
        voter = v;
        recipient = r;
        amount = a;
        compounded = c;
        compound_bucket_id = b;
        row_index = i % 2 ^ 32;
      }
      ∷ rest)
distribution_rows era delegate i (v ∷ vs) _ _ _ _ = err "index out of range"

module _ (codec : Codec) where
  open codec use {
    rewarding_addr, staking_addr, distributed_topic, opt_in_topic, destination_topic, freeze_topic,
    unpack_distributed, unpack_freeze, unmarshal_reward_log, address_of, set_string,
  }

  -- `DecodeDistribution`
  unfoldable pub decode_distribution : Option Log → Result String (List DistributionRow)
  decode_distribution none = ok []
  decode_distribution (some l) =
      if is_event distributed_topic rewarding_addr l
      then (do
        args ← unpack_distributed l.topics l.payload
        distribution_rows args.epoch args.delegate 0 args.voters args.recipients args.amounts
            args.compounded args.compound_bucket_ids)
      else ok []

  -- `DecodeOptIn`; "" stands for any other log.
  abbrev opt_in_of : List Word → Result String String
  opt_in_of (t ∷ candidate ∷ ts) = address_of (drop 12 candidate)
  opt_in_of _ = ok ""

  unfoldable pub decode_opt_in : Option Log → Result String String
  decode_opt_in none = ok ""
  decode_opt_in (some l) =
      if is_event opt_in_topic staking_addr l then opt_in_of l.topics else ok ""

  -- The six type assertions of `DecodeFreeze`, in their order.
  abbrev pub as_uint64 : String → AbiValue → Result String ℕ
  as_uint64 e (abi_uint64 n) = ok n
  as_uint64 e _ = err e

  abbrev pub as_bool : String → AbiValue → Result String Bool
  as_bool e (abi_bool b) = ok b
  as_bool e _ = err e

  abbrev pub as_big : String → AbiValue → Result String ℕ
  as_big e (abi_big n) = ok n
  as_big e _ = err e

  unfoldable pub frozen_fields : List AbiValue → Result String DelegateSnapshot
  frozen_fields (a₀ ∷ a₁ ∷ a₂ ∷ a₃ ∷ a₄ ∷ a₅ ∷ []) = do
    height ← as_uint64 "freezeHeight" a₀
    block ← as_uint64 "blockCommissionBps" a₁
    epoch ← as_uint64 "epochCommissionBps" a₂
    configured ← as_bool "commissionConfigured" a₃
    weight ← as_big "totalWeight" a₄
    bucket ← as_uint64 "selfStakeBucketIdx" a₅
    ok (record {
      block_commission_bps = block;
      epoch_commission_bps = epoch;
      commission_configured = configured;
      total_weight = weight;
      freeze_height = height;
      self_stake_bucket_idx = bucket;
    })
  frozen_fields _ = err "want 6 data fields"

  abbrev freeze_of : List Word → List ℕ → Result String (Option FrozenSnapshot)
  freeze_of (t ∷ era ∷ candidate ∷ ts) payload = do
    delegate ← address_of (drop 12 candidate)
    args ← unpack_freeze payload
    snap ← frozen_fields args
    ok (some (record { era = big_endian 0 (drop 24 era); delegate = delegate; snapshot = snap }))
  freeze_of _ payload = ok none

  -- `DecodeFreeze`
  unfoldable pub decode_freeze : Option Log → Result String (Option FrozenSnapshot)
  unfolding frozen_fields
  decode_freeze none = ok none
  decode_freeze (some l) =
      if is_event freeze_topic staking_addr l then freeze_of l.topics l.payload else ok none

  abbrev destination_of : List Word → List ℕ → Result String (Option DestinationChange)
  destination_of (t ∷ voter ∷ ts) payload = do
    who ← address_of (drop 12 voter)
    if nat_beq (length payload) 64
        then (do
          old ← address_of (drop 12 (take 32 payload))
          new ← address_of (drop 44 payload)
          ok (some (record { voter = who; old_recipient = old; new_recipient = new })))
        else err "want 64 data bytes"
  destination_of _ payload = ok none

  -- `DecodeDestination`
  unfoldable pub decode_destination : Option Log → Result String (Option DestinationChange)
  decode_destination none = ok none
  decode_destination (some l) =
      if is_event destination_topic rewarding_addr l
      then destination_of l.topics l.payload
      else ok none

  abbrev pub number_or : String → Option ℕ → Result String ℕ
  number_or e none = err e
  number_or e (some n) = ok n

  -- The fields of a CURSOR_PROGRESS log, split at the colons.
  unfoldable pub cursor_fields : List String → Result String CursorProgress
  cursor_fields (f₀ ∷ f₁ ∷ f₂ ∷ f₃ ∷ []) = do
    era ← number_or "era" (parse_uint 64 f₀)
    phase ← number_or "scanPhase" (parse_uint 32 f₁)
    ranges ← number_or "rangesRemaining" (parse_uint 64 f₃)
    ok (record { era = era; scan_phase = phase; resume_voter = f₂; ranges_remaining = ranges })
  cursor_fields _ = err "want 4 fields"

  unfoldable pub overrun_fields : List String → String → Result String DrainOverrun
  overrun_fields (f₀ ∷ f₁ ∷ []) amount = do
    era ← number_or "era" (parse_uint 64 f₀)
    remaining ← number_or "delegatesRemaining" (parse_uint 64 f₁)
    residue ← number_or "residue" (set_string amount)
    ok (record { era = era; delegates_remaining = remaining; residue = residue })
  overrun_fields _ amount = err "want 2 fields"

  abbrev pub Bookkeeping : Type 0
  Bookkeeping = Option CursorProgress × Option DrainOverrun

  -- The switch of `DecodeRewardBookkeeping` on one reward log's type.
  abbrev bookkeeping_log : RewardType → RewardLog → Bookkeeping → Result String Bookkeeping
  bookkeeping_log cursor_progress l (progress, overrun) = do
    cursor ← cursor_fields (split_colon l.addr)
    ok (some cursor, overrun)
  bookkeeping_log epoch_drain_overrun l (progress, overrun) = do
    drain ← overrun_fields (split_colon l.addr) l.amount
    ok (progress, some drain)
  bookkeeping_log _ l found = ok found

  unfoldable pub bookkeeping_logs : List RewardLog → Bookkeeping → Result String Bookkeeping
  unfolding cursor_fields overrun_fields
  bookkeeping_logs [] found = ok found
  bookkeeping_logs (l ∷ logs) found = elim (bookkeeping_log l.reward_type l found) [
    | err e ↦ err e
    | ok found' ↦ bookkeeping_logs logs found'
  ]

  abbrev bookkeeping_of : Result String (List RewardLog) → Result String Bookkeeping
  bookkeeping_of (err e) = ok (none, none)
  bookkeeping_of (ok logs) = bookkeeping_logs logs (none, none)

  -- `DecodeRewardBookkeeping`
  unfoldable pub decode_reward_bookkeeping : Option Log → Result String Bookkeeping
  decode_reward_bookkeeping none = ok (none, none)
  decode_reward_bookkeeping (some l) =
      if l.address == rewarding_addr && nat_beq (length l.topics) 0
      then bookkeeping_of (unmarshal_reward_log l.payload)
      else ok (none, none)
