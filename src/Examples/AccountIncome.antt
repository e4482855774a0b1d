-- ===== src/Examples/AccountIncome.antt =====
-- Two blocks of transfers, the second of which no column holds (plugins/account_income).
use iotex_analyser.Db.{commit_block, update_index_height_by_tx}
use iotex_analyser.Base.{
  ℕ, ◌+◌, ◌≡◌, refl, String, true, Option, none, some, ◌==◌, string_eq, Result, ok, err,
  if◌then◌else◌, List, [], ◌∷◌, ◌^◌,
}
use iotex_analyser.Base.GoMap.{GoMap, lookup, insert}
use iotex_analyser.AccountIncome.{
  Transfer, IncomeBlock, IncomePlugin, no_income, put_all_incomes, tip_of, put_incomes, get_incomes,
  add_receipts, add_transfers, add_transfer, recipient_of, add_entries, add_entry, add_recipient,
  add_sender,
}
use iotex_analyser.AccountIncome.Flows.{
  flow_in, actions_out, moved_in_blocks, put_all_incomes-moved, rowed, counted_in,
}
use iotex_analyser.AccountIncome.Commit.{
  put_income_blocks, commit_incomes, write_income_pending, taken_incomes,
}
use iotex_analyser.AccountIncome.Commit.Totals.{
  stored, put_income_blocks-stored, put_income_blocks-retried,
}
use iotex_analyser.Examples.Shelf.{Shelf, shelf, income_store}

-- One address is not valid, and an eth address stands for an io address.
abbrev from_string : String → Option String
from_string s = if s == "xyz" then none else if s == "0x1" then some "io1alice" else some s

abbrev pays : String → String → ℕ → Transfer
pays a b n = record { sender = a; recipient = b; amount = n }

abbrev first : IncomeBlock
first = record {
  height = 10;
  receipts =
      (pays "io1bob" "0x1" 5 ∷ pays "io1alice" "xyz" 2 ∷ []) ∷ (pays "" "io1alice" 3 ∷ []) ∷ [];
}

abbrev huge : IncomeBlock
huge = record { height = 11; receipts = (pays "io1bob" "io1alice" (10 ^ 42) ∷ []) ∷ [] }

abbrev idle : IncomePlugin
idle = record { tip_height = 0; account_income = []; account_income_count = [] }

abbrev ledger : Shelf
ledger = record {
  heights = ("account_income", 9) ∷ [];
  eras = λ e. none;
  rows = [];
  configs = λ d e. none;
  counts = λ a. record no_income { in_flow = 100 };
  income_rows = [];
  accepts = true;
}

abbrev call :
    List IncomeBlock
    → IncomePlugin × Shelf × GoMap String ℕ
    → Result String (Unit {0}) × (IncomePlugin × Shelf × GoMap String ℕ)
call blks x = put_income_blocks shelf income_store from_string blks x

runs :
    ((call (first ∷ []) (idle, ledger, [])).0 ≡ ok tt)
    × ((call (first ∷ huge ∷ []) (idle, ledger, [])).0 ≡ err "numeric field overflow")
    × ((call (first ∷ []) (call (first ∷ huge ∷ []) (idle, ledger, [])).1).0 ≡ ok tt)
    × (moved_in_blocks flow_in "io1alice" refl from_string (first ∷ []) ≡ 8)
    × (moved_in_blocks actions_out "io1alice" refl from_string (first ∷ []) ≡ 1)
unfolding put_income_blocks commit_incomes write_income_pending taken_incomes tip_of put_all_incomes
    put_incomes get_incomes add_receipts add_transfers add_transfer recipient_of add_entries
    add_entry add_recipient add_sender commit_block update_index_height_by_tx lookup insert
runs = (refl, refl, refl, refl, refl)

put_all_incomes-moved_example :
    (rowed flow_in "io1alice" (put_all_incomes from_string (first ∷ huge ∷ []) idle).account_income
      ≡ rowed flow_in "io1alice" idle.account_income
        + moved_in_blocks flow_in "io1alice" refl from_string (first ∷ huge ∷ []))
    × (counted_in flow_in "io1alice" refl from_string
          (put_all_incomes from_string (first ∷ huge ∷ []) idle)
        ≡ counted_in flow_in "io1alice" refl from_string idle
          + moved_in_blocks flow_in "io1alice" refl from_string (first ∷ huge ∷ []))
put_all_incomes-moved_example =
    put_all_incomes-moved flow_in "io1alice" refl from_string (first ∷ huge ∷ []) idle

put_income_blocks-stored_example :
    stored shelf income_store from_string flow_in "io1alice"
      (call (first ∷ []) (idle, ledger, [])).1.1
    ≡ stored shelf income_store from_string flow_in "io1alice" ledger
      + moved_in_blocks flow_in "io1alice" refl from_string (first ∷ [])
put_income_blocks-stored_example =
    put_income_blocks-stored shelf income_store from_string flow_in "io1alice" (first ∷ []) idle
      ledger [] refl (record { no_rows = refl; no_counts = refl }) runs.0

put_income_blocks-retried_example :
    stored shelf income_store from_string flow_in "io1alice"
      (call (first ∷ []) (call (first ∷ huge ∷ []) (idle, ledger, [])).1).1.1
    ≡ stored shelf income_store from_string flow_in "io1alice" ledger
      + moved_in_blocks flow_in "io1alice" refl from_string (first ∷ [])
put_income_blocks-retried_example =
    put_income_blocks-retried shelf income_store from_string flow_in "io1alice" first (huge ∷ [])
      (first ∷ []) idle ledger [] "numeric field overflow" refl runs.1 runs.2
