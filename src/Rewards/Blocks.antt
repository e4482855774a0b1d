-- ===== src/Rewards/Blocks.antt =====
-- What a block's receipts come to (kernel/reward.go, RewardAt).
use iotex_analyser.Base.{
  ℕ, ◌+◌, ◌≡◌, inl, inr, String, Bool, Option, none, some, List, [], ◌∷◌, Result, if◌then◌else◌,
  string_eq, arith, Bool-cases, Result-cases,
}
use iotex_analyser.Base.GoMap.{GoMap, has}
use iotex_analyser.Base.Portions.{sum_of}
use iotex_analyser.Rewards.{
  RewardType, RewardLog, RewardInfo, Receipt, BlockRewards, with_gas, add_infos, add_receipts,
  reward_at, reward_info_from_receipt, block_reward, epoch_reward, foundation_bonus, priority_bonus,
  unproductive_slash, epoch_drain_overrun, cursor_progress, unknown,
}
use iotex_analyser.Rewards.Sums.{total, receipt_pays, reward_info_from_receipt-total}

-- A block's total of a type; slashes and the types without a payout have none.
abbrev pub block_sum_of : RewardType → BlockRewards → ℕ
block_sum_of block_reward b = b.block_total
block_sum_of epoch_reward b = b.epoch_total
block_sum_of foundation_bonus b = b.foundation_total
block_sum_of priority_bonus b = b.priority_total
block_sum_of _ b = 0

abbrev pub IsCounted : RewardType → Type 0
IsCounted block_reward = Unit
IsCounted epoch_reward = Unit
IsCounted foundation_bonus = Unit
IsCounted priority_bonus = Unit
IsCounted _ = ⊥

add_infos_lem :
    (kind : RewardType) (m : GoMap String RewardInfo) (b : BlockRewards)
    → IsCounted kind
    → block_sum_of kind (add_infos m b) ≡ block_sum_of kind b + total kind m
unfolding add_infos
add_infos_lem kind [] b c = omega arith
add_infos_lem block_reward ((addr, r) ∷ m) b c = omega (arith, add_infos_lem block_reward m _ c)
add_infos_lem epoch_reward ((addr, r) ∷ m) b c = omega (arith, add_infos_lem epoch_reward m _ c)
add_infos_lem foundation_bonus ((addr, r) ∷ m) b c =
    omega (arith, add_infos_lem foundation_bonus m _ c)
add_infos_lem priority_bonus ((addr, r) ∷ m) b c = omega (arith, add_infos_lem priority_bonus m _ c)
add_infos_lem unproductive_slash ((addr, r) ∷ m) b c = elim c [ ]
add_infos_lem epoch_drain_overrun ((addr, r) ∷ m) b c = elim c [ ]
add_infos_lem cursor_progress ((addr, r) ∷ m) b c = elim c [ ]
add_infos_lem unknown ((addr, r) ∷ m) b c = elim c [ ]

with_gas_lem :
    (kind : RewardType) (r : Receipt) (b : BlockRewards)
    → block_sum_of kind (with_gas r b) ≡ block_sum_of kind b
with_gas_lem kind r b = ground arith

module _ (unmarshal : String → Result String (List RewardLog)) (set_string : String → Option ℕ)
    (grants : GoMap String Bool) where
  -- What a receipt pays: nothing if its action grants no reward.
  abbrev pub grant_pays : RewardType → Receipt → ℕ
  grant_pays kind r =
      if has r.action_hash grants then sum_of (receipt_pays unmarshal set_string kind) r.logs else 0

  add_receipts-total :
      (kind : RewardType) (rs : List Receipt) (b : BlockRewards)
      → IsCounted kind
      → (add_receipts unmarshal set_string grants rs b).0 ≡ none
      → block_sum_of kind (add_receipts unmarshal set_string grants rs b).1
        ≡ block_sum_of kind b + sum_of (grant_pays kind) rs
  unfolding add_receipts
  add_receipts-total kind [] b c h = omega arith
  add_receipts-total kind (r ∷ rs) b c h = elim (Bool-cases (has r.action_hash grants)) [
    | inr e ↦
        rw (e, add_receipts)
          (omega (
            arith,
            add_receipts-total kind rs (with_gas r b) c (rw (e, add_receipts) at h),
            with_gas_lem kind r b,
          ))
    | inl e ↦ elim (Result-cases (reward_info_from_receipt unmarshal set_string r.logs)) [
      | inr (x, q) ↦ absurd (let h' : some x ≡ none = rw (e, add_receipts, q) at h in cc)
      | inl (m, q) ↦
          rw (e, add_receipts, q)
            (omega (
              arith,
              add_receipts-total kind rs (add_infos m (with_gas r b)) c
                  (rw (e, add_receipts, q) at h),
              add_infos_lem kind m (with_gas r b) c,
              with_gas_lem kind r b,
              reward_info_from_receipt-total unmarshal set_string kind r.logs m q,
            ))
    ]
  ]

  -- When RewardAt returns no error, a block's total of block rewards, epoch rewards, foundation or
  -- priority bonuses is the sum of the amounts of that type in the reward logs of the receipts
  -- whose actions grant rewards.
  pub reward_at-total :
      (kind : RewardType) (receipts : List Receipt)
      → IsCounted kind
      → (reward_at unmarshal set_string grants receipts).0 ≡ none
      → block_sum_of kind (reward_at unmarshal set_string grants receipts).1
        ≡ sum_of (grant_pays kind) receipts
  unfolding reward_at
  reward_at-total kind receipts c h =
      let start : BlockRewards = record {
        block_total = 0;
        epoch_total = 0;
        foundation_total = 0;
        priority_total = 0;
        gas_total = 0;
      } in
      let zero_start : block_sum_of kind start ≡ 0 = ground arith in
      omega (arith, add_receipts-total kind receipts start c h, zero_start)
