-- ===== src/Rewards.antt =====
-- kernel/reward.go: the rewards that the receipts of a block grant.
--
-- `unmarshal` is the protocol's UnmarshalRewardLog and `set_string` big.Int's SetString to base 10,
-- whose amounts are natural numbers here. Logging is left out.
pub mod Sums
pub mod Blocks
use iotex_analyser.Base.{
  ℕ, ◌+◌, ◌%◌, ◌^◌, String, Bool, true, false, Option, none, some, List, [], ◌∷◌, Result, ok, err,
  ◌>>=◌, ◌==◌, string_eq, if◌then◌else◌, nat_beq, length,
}
use iotex_analyser.Base.GoMap.{GoMap, lookup, insert, has}

-- `RewardLog_RewardType`; the last stands for the types that the code does not know.
pub data RewardType : Type 0 where
  block_reward epoch_reward foundation_bonus priority_bonus unproductive_slash : RewardType
  epoch_drain_overrun cursor_progress unknown : RewardType

pub record RewardLog : Type 0 where
  pub reward_type : RewardType
  pub addr : String
  pub amount : String

-- The fields of a receipt's log that are read: how many topics, and the data.
pub record ReceiptLog : Type 0 where
  pub topics : List String
  pub payload : String

-- `RewardInfo`
pub record RewardInfo : Type 0 where
  pub block_sum : ℕ
  pub epoch_sum : ℕ
  pub foundation_sum : ℕ
  pub priority_sum : ℕ
  pub slash_sum : ℕ

abbrev pub no_rewards : RewardInfo
no_rewards = record {
  block_sum = 0;
  epoch_sum = 0;
  foundation_sum = 0;
  priority_sum = 0;
  slash_sum = 0;
}

-- The first switch: the types that carry a payout.
unfoldable pub is_payout : RewardType → Bool
is_payout block_reward = true
is_payout epoch_reward = true
is_payout foundation_bonus = true
is_payout priority_bonus = true
is_payout unproductive_slash = true
is_payout _ = false

-- The second switch.
unfoldable pub accumulate : RewardType → ℕ → RewardInfo → Result String RewardInfo
accumulate block_reward n r = ok (record r { block_sum = r.block_sum + n })
accumulate epoch_reward n r = ok (record r { epoch_sum = r.epoch_sum + n })
accumulate foundation_bonus n r = ok (record r { foundation_sum = r.foundation_sum + n })
accumulate priority_bonus n r = ok (record r { priority_sum = r.priority_sum + n })
accumulate unproductive_slash n r = ok (record r { slash_sum = r.slash_sum + n })
accumulate _ n r = err "reward log type passed classification but has no accumulator"

-- `rewardInfoMap[addr]`, or the new entry.
abbrev pub info_of : String → GoMap String RewardInfo → RewardInfo
info_of addr m = elim (lookup addr m) [ none ↦ no_rewards | some r ↦ r ]

module _ (unmarshal : String → Result String (List RewardLog))
    (set_string : String → Option ℕ) where
  abbrev pub amount_of : RewardLog → Result String ℕ
  amount_of l = elim (set_string l.amount) [
    | none ↦ err "failed to convert reward amount from string to big int"
    | some n ↦ ok n
  ]

  -- One turn of the inner loop.
  unfoldable pub add_log :
      RewardLog → GoMap String RewardInfo → Result String (GoMap String RewardInfo)
  add_log l m =
      if is_payout l.reward_type
      then (do
        n ← amount_of l
        r ← accumulate l.reward_type n (info_of l.addr m)
        ok (insert l.addr r m))
      else ok m

  unfoldable pub add_logs :
      List RewardLog → GoMap String RewardInfo → Result String (GoMap String RewardInfo)
  add_logs [] m = ok m
  add_logs (l ∷ logs) m = elim (add_log l m) [ err e ↦ err e | ok m' ↦ add_logs logs m' ]

  -- One turn of the outer loop.
  unfoldable pub add_receipt_log :
      ReceiptLog → GoMap String RewardInfo → Result String (GoMap String RewardInfo)
  add_receipt_log l m =
      if nat_beq (length l.topics) 0
      then (unmarshal l.payload >>= λ logs. add_logs logs m)
      else ok m

  unfoldable pub add_receipt_logs :
      List ReceiptLog → GoMap String RewardInfo → Result String (GoMap String RewardInfo)
  add_receipt_logs [] m = ok m
  add_receipt_logs (l ∷ logs) m = elim (add_receipt_log l m) [
    | err e ↦ err e
    | ok m' ↦ add_receipt_logs logs m'
  ]

  -- `RewardInfoFromReceipt`
  unfoldable pub reward_info_from_receipt :
      List ReceiptLog → Result String (GoMap String RewardInfo)
  reward_info_from_receipt logs = add_receipt_logs logs []

-- The fields of a receipt that are read; an action is given by its hash.
pub record Receipt : Type 0 where
  pub gas_consumed : ℕ
  pub action_hash : String
  pub logs : List ReceiptLog

-- What `RewardAt` returns beside the error.
pub record BlockRewards : Type 0 where
  pub block_total : ℕ
  pub epoch_total : ℕ
  pub foundation_total : ℕ
  pub priority_total : ℕ
  pub gas_total : ℕ

-- The loop over a receipt's reward map.
unfoldable pub add_infos : GoMap String RewardInfo → BlockRewards → BlockRewards
add_infos [] b = b
add_infos ((addr, r) ∷ m) b = add_infos m (record b {
  block_total = b.block_total + r.block_sum;
  epoch_total = b.epoch_total + r.epoch_sum;
  foundation_total = b.foundation_total + r.foundation_sum;
  priority_total = b.priority_total + r.priority_sum;
})

abbrev pub with_gas : Receipt → BlockRewards → BlockRewards
with_gas r b = record b { gas_total = (b.gas_total + r.gas_consumed) % 2 ^ 64 }

module _ (unmarshal : String → Result String (List RewardLog)) (set_string : String → Option ℕ)
    (grants : GoMap String Bool) where
  -- The loop of `RewardAt`, with the error that it ends with, if any.
  unfoldable pub add_receipts : List Receipt → BlockRewards → Option String × BlockRewards
  add_receipts [] b = (none, b)
  add_receipts (r ∷ rs) b = elim (has r.action_hash grants) [
    | false ↦ add_receipts rs (with_gas r b)
    | true ↦ elim (reward_info_from_receipt unmarshal set_string r.logs) [
      | err e ↦ (some e, with_gas r b)
      | ok m ↦ add_receipts rs (add_infos m (with_gas r b))
    ]
  ]

  -- `RewardAt`
  unfoldable pub reward_at : List Receipt → Option String × BlockRewards
  reward_at receipts = add_receipts receipts (record {
    block_total = 0;
    epoch_total = 0;
    foundation_total = 0;
    priority_total = 0;
    gas_total = 0;
  })
