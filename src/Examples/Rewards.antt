-- ===== src/Examples/Rewards.antt =====
-- A receipt with two reward logs, a diagnostic one, and an event with topics (kernel/reward.go).
use iotex_analyser.Base.{
  ℕ, ◌≡◌, refl, String, Option, none, some, List, [], ◌∷◌, Result, ok, err, ◌==◌, string_eq,
  if◌then◌else◌, Bool, true,
}
use iotex_analyser.Base.GoMap.{GoMap, lookup, insert, has}
use iotex_analyser.Base.Portions.{sum_of}
use iotex_analyser.Rewards.{
  Receipt, add_receipts, reward_at, RewardLog, ReceiptLog, RewardInfo, RewardType, block_reward,
  cursor_progress, reward_info_from_receipt, add_log, add_logs, add_receipt_log, add_receipt_logs,
  is_payout, accumulate,
}
use iotex_analyser.Rewards.Blocks.{block_sum_of, grant_pays, reward_at-total}
use iotex_analyser.Rewards.Sums.{total, receipt_pays, reward_info_from_receipt-total}

abbrev log_of : RewardType → String → String → RewardLog
log_of t addr amount = record { reward_type = t; addr = addr; amount = amount }

abbrev decode : String → Result String (List RewardLog)
decode s =
    if s == "rewards"
    then ok (
        log_of block_reward "io1" "8"
        ∷ log_of cursor_progress "12:5" "0"
        ∷ log_of block_reward "io2" "4"
        ∷ [])
    else err "not a reward log"

abbrev digits : String → Option ℕ
digits s = if s == "8" then some 8 else if s == "4" then some 4 else none

abbrev logs : List ReceiptLog
logs =
    record { topics = "distributed" ∷ []; payload = "event" }
    ∷ record { topics = []; payload = "rewards" }
    ∷ []

abbrev granted : ℕ → RewardInfo
granted n = record {
  block_sum = n;
  epoch_sum = 0;
  foundation_sum = 0;
  priority_sum = 0;
  slash_sum = 0;
}

abbrev infos : GoMap String RewardInfo
infos = ("io1", granted 8) ∷ ("io2", granted 4) ∷ []

receipt_run : reward_info_from_receipt decode digits logs ≡ ok infos
unfolding reward_info_from_receipt add_log add_logs add_receipt_log add_receipt_logs is_payout
    accumulate lookup insert
receipt_run = refl

reward_info_from_receipt-total_example :
    total block_reward infos ≡ sum_of (receipt_pays decode digits block_reward) logs
reward_info_from_receipt-total_example =
    reward_info_from_receipt-total decode digits block_reward logs infos receipt_run

abbrev receipts : List Receipt
receipts =
    record { gas_consumed = 21; action_hash = "transfer"; logs = logs }
    ∷ record { gas_consumed = 5; action_hash = "grant"; logs = logs }
    ∷ []

abbrev grants : GoMap String Bool
grants = ("grant", true) ∷ []

reward_at_run : (reward_at decode digits grants receipts).0 ≡ none
unfolding reward_at add_receipts has reward_info_from_receipt add_log add_logs add_receipt_log
    add_receipt_logs is_payout accumulate lookup insert
reward_at_run = refl

reward_at-total_example :
    block_sum_of block_reward (reward_at decode digits grants receipts).1
    ≡ sum_of (grant_pays decode digits grants block_reward) receipts
reward_at-total_example =
    reward_at-total decode digits grants block_reward receipts tt reward_at_run
