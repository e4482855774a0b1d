-- ===== src/Rewards/Sums.antt =====
-- What the entries of the reward map come to (kernel/reward.go).
use iotex_analyser.Base.{
  ℕ, ◌+◌, ◌≡◌, sym, ap, inl, inr, String, Bool, true, false, Option, none, some, List, [], ◌∷◌,
  Result, ok, err, ◌==◌, string_eq, if◌then◌else◌, nat_beq, length, arith, Bool-cases, Option-cases,
  Result-cases, >>=-eq-ok, ok-injective,
}
use iotex_analyser.Base.GoMap.{GoMap, lookup, insert}
use iotex_analyser.Base.Portions.{sum_of}
use iotex_analyser.Rewards.{
  RewardType, RewardLog, ReceiptLog, RewardInfo, no_rewards, is_payout, accumulate, info_of,
  amount_of, add_log, add_logs, add_receipt_log, add_receipt_logs, reward_info_from_receipt,
  block_reward, epoch_reward, foundation_bonus, priority_bonus, unproductive_slash,
}

-- The sum that belongs to a type, and 0 for the types without a payout.
abbrev pub sum_for : RewardType → RewardInfo → ℕ
sum_for block_reward r = r.block_sum
sum_for epoch_reward r = r.epoch_sum
sum_for foundation_bonus r = r.foundation_sum
sum_for priority_bonus r = r.priority_sum
sum_for unproductive_slash r = r.slash_sum
sum_for _ r = 0

-- The type's number, to tell types apart.
abbrev pub same_type : RewardType → RewardType → Bool
same_type block_reward block_reward = true
same_type epoch_reward epoch_reward = true
same_type foundation_bonus foundation_bonus = true
same_type priority_bonus priority_bonus = true
same_type unproductive_slash unproductive_slash = true
same_type _ _ = false

-- What all addresses have got together of one type.
abbrev pub total : RewardType → GoMap String RewardInfo → ℕ
total kind m = sum_of (λ entry. sum_for kind entry.1) m

sum_for_none : (kind : RewardType) → sum_for kind no_rewards ≡ 0
sum_for_none kind = ground arith

total-insert :
    (kind : RewardType) (addr : String) (r : RewardInfo) (m : GoMap String RewardInfo)
    → total kind (insert addr r m) + sum_for kind (info_of addr m) ≡ total kind m + sum_for kind r
unfolding insert lookup
total-insert kind addr r [] = omega (arith, sum_for_none kind)
total-insert kind addr r ((j, s) ∷ m) = elim (Bool-cases (j == addr)) [
  | inl e ↦ rw (e, info_of) (omega arith)
  | inr e ↦ rw (e, info_of) (omega (arith, total-insert kind addr r m))
]

accumulate_lem :
    (kind t : RewardType) (n : ℕ) (r r' : RewardInfo)
    → accumulate t n r ≡ ok r'
    → sum_for kind r' ≡ sum_for kind r + (if same_type kind t then n else 0)
unfolding accumulate
accumulate_lem kind t n r r' h = ground arith

module _ (unmarshal : String → Result String (List RewardLog))
    (set_string : String → Option ℕ) where
  -- What one reward log pays of a type: its amount where it is of that type.
  abbrev pub pays : RewardType → RewardLog → ℕ
  pays kind l =
      if same_type kind l.reward_type
      then elim (set_string l.amount) [ none ↦ 0 | some n ↦ n ]
      else 0

  abbrev pays_all : RewardType → Result String (List RewardLog) → ℕ
  pays_all kind (ok logs) = sum_of (pays kind) logs
  pays_all kind (err e) = 0

  -- What a receipt's log pays: a log with topics is no reward log.
  abbrev pub receipt_pays : RewardType → ReceiptLog → ℕ
  receipt_pays kind l =
      if nat_beq (length l.topics) 0 then pays_all kind (unmarshal l.payload) else 0

  no_payout : (kind t : RewardType) → is_payout t ≡ false → same_type kind t ≡ false
  unfolding is_payout
  no_payout kind t h = ground arith

  add_log-total :
      (kind : RewardType) (l : RewardLog) (m m' : GoMap String RewardInfo)
      → add_log unmarshal set_string l m ≡ ok m'
      → total kind m' ≡ total kind m + pays kind l
  unfolding add_log
  add_log-total kind l m m' h = elim (Bool-cases (is_payout l.reward_type)) [
    | inr e ↦
        (let h' : ok m ≡ ok m' = rw (e, add_log) at h in
          let same : m ≡ m' = ok-injective h' in
          rw (no_payout kind l.reward_type e) (omega (arith, ap (total kind) (sym same))))
    | inl e ↦ elim (Option-cases (set_string l.amount)) [
      | inl none_here ↦ absurd (
          let h' = >>=-eq-ok (amount_of unmarshal set_string l) _ (rw (e, add_log) at h) in
          let h'' : err "failed to convert reward amount from string to big int" ≡ ok h'.0 =
            rw (none_here, amount_of) at h'.1 in
          cc)
      | inr (n, read) ↦
          (let (n', got, h₁) =
              >>=-eq-ok (amount_of unmarshal set_string l) _ (rw (e, add_log) at h) in
            let same_n : n ≡ n' = ok-injective (rw (read, amount_of) at got) in
            let (r, added, h₂) = >>=-eq-ok (accumulate l.reward_type n' (info_of l.addr m)) _ h₁ in
            let inserted = total-insert kind l.addr r m in
            let result : total kind (insert l.addr r m) ≡ total kind m' =
              ap (total kind) (ok-injective h₂) in
            let step = accumulate_lem kind l.reward_type n' (info_of l.addr m) r added in
            rw (read, same_n) (omega (arith, inserted, result, step)))
    ]
  ]

  add_logs-total :
      (kind : RewardType) (logs : List RewardLog) (m m' : GoMap String RewardInfo)
      → add_logs unmarshal set_string logs m ≡ ok m'
      → total kind m' ≡ total kind m + sum_of (pays kind) logs
  unfolding add_logs
  add_logs-total kind [] m m' h =
      let same : m ≡ m' = ok-injective h in omega (arith, ap (total kind) (sym same))
  add_logs-total kind (l ∷ logs) m m' h = elim (Result-cases (add_log unmarshal set_string l m)) [
    | inl (m₁, e) ↦
        (let first = add_log-total kind l m m₁ e in
          let rest = add_logs-total kind logs m₁ m' (rw (e, add_logs) at h) in
          omega (arith, first, rest))
    | inr (x, e) ↦ absurd (let h' : err x ≡ ok m' = rw (e, add_logs) at h in cc)
  ]

  add_receipt_log-total :
      (kind : RewardType) (l : ReceiptLog) (m m' : GoMap String RewardInfo)
      → add_receipt_log unmarshal set_string l m ≡ ok m'
      → total kind m' ≡ total kind m + receipt_pays kind l
  unfolding add_receipt_log
  add_receipt_log-total kind l m m' h = elim (Bool-cases (nat_beq (length l.topics) 0)) [
    | inr e ↦
        (let h' : ok m ≡ ok m' = rw (e, add_receipt_log) at h in
          let same : m ≡ m' = ok-injective h' in rw e (omega (arith, ap (total kind) (sym same))))
    | inl e ↦
        (let h' =
            >>=-eq-ok (unmarshal l.payload) (λ logs. add_logs unmarshal set_string logs m)
              (rw (e, add_receipt_log) at h) in
          rw (e, h'.1) (add_logs-total kind h'.0 m m' h'.2))
  ]

  add_receipt_logs-total :
      (kind : RewardType) (logs : List ReceiptLog) (m m' : GoMap String RewardInfo)
      → add_receipt_logs unmarshal set_string logs m ≡ ok m'
      → total kind m' ≡ total kind m + sum_of (receipt_pays kind) logs
  unfolding add_receipt_logs
  add_receipt_logs-total kind [] m m' h =
      let same : m ≡ m' = ok-injective h in omega (arith, ap (total kind) (sym same))
  add_receipt_logs-total kind (l ∷ logs) m m' h =
      elim (Result-cases (add_receipt_log unmarshal set_string l m)) [
        | inl (m₁, e) ↦
            (let first = add_receipt_log-total kind l m m₁ e in
              let rest = add_receipt_logs-total kind logs m₁ m' (rw (e, add_receipt_logs) at h) in
              omega (arith, first, rest))
        | inr (x, e) ↦ absurd (let h' : err x ≡ ok m' = rw (e, add_receipt_logs) at h in cc)
      ]

  -- When the reward map of a receipt is built, what all its addresses have got together of a reward
  -- type is the sum of the amounts of that type in the receipt's reward logs; logs with topics and
  -- logs of other types pay nothing.
  pub reward_info_from_receipt-total :
      (kind : RewardType) (logs : List ReceiptLog) (m : GoMap String RewardInfo)
      → reward_info_from_receipt unmarshal set_string logs ≡ ok m
      → total kind m ≡ sum_of (receipt_pays kind) logs
  unfolding reward_info_from_receipt
  reward_info_from_receipt-total kind logs m h =
      omega (arith, add_receipt_logs-total kind logs [] m h)
