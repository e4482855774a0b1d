-- ===== src/AccountIncome.antt =====
-- plugins/account_income: what each account receives and sends in a block, and over all blocks.
--
-- address.FromString followed by String is a parameter; `none` is its error. Amounts are natural
-- numbers, and so are the counts of actions, which Go keeps as an int. An entry of the map of counts
-- has its address as key.
pub mod Flows
pub mod Commit
use iotex_analyser.Base.{
  ℕ, ◌+◌, String, Option, none, some, List, [], ◌∷◌, ◌++◌, Result, ok, err, ◌>>=◌, ◌==◌, string_eq,
  if◌then◌else◌,
}
use iotex_analyser.Base.GoMap.{GoMap, lookup, insert}
use iotex_analyser.Db.{Database, IndexCache, commit_block}

-- The fields of action.TransactionLog that are read.
pub record Transfer : Type 0 where
  pub sender : String
  pub recipient : String
  pub amount : ℕ

-- `income`
pub record Income : Type 0 where
  pub in_flow : ℕ
  pub in_num_actions : ℕ
  pub out_flow : ℕ
  pub out_num_actions : ℕ

-- A row of AccountIncome.
pub record IncomeRow : Type 0 where
  pub block_height : ℕ
  pub address : String
  pub income : Income

abbrev pub no_income : Income
no_income = record { in_flow = 0; in_num_actions = 0; out_flow = 0; out_num_actions = 0 }

abbrev pub or_no_income : Option Income → Income
or_no_income none = no_income
or_no_income (some inc) = inc

abbrev pub income_of : String → GoMap String Income → Income
income_of a m = or_no_income (lookup a m)

abbrev pub sent : ℕ → Income → Income
sent amount inc = record inc {
  out_flow = inc.out_flow + amount;
  out_num_actions = inc.out_num_actions + 1;
}

abbrev pub received : ℕ → Income → Income
received amount inc = record inc {
  in_flow = inc.in_flow + amount;
  in_num_actions = inc.in_num_actions + 1;
}

abbrev pub plus : Income → Income → Income
plus x y = record {
  in_flow = x.in_flow + y.in_flow;
  in_num_actions = x.in_num_actions + y.in_num_actions;
  out_flow = x.out_flow + y.out_flow;
  out_num_actions = x.out_num_actions + y.out_num_actions;
}

-- `if transation.Sender != ""`
unfoldable pub add_sender : Transfer → GoMap String Income → GoMap String Income
add_sender t m =
    if t.sender == "" then m else insert t.sender (sent t.amount (income_of t.sender m)) m

-- `if recipient != ""`
unfoldable pub add_recipient : String → ℕ → GoMap String Income → GoMap String Income
add_recipient recipient amount m =
    if recipient == "" then m else insert recipient (received amount (income_of recipient m)) m

-- A block: its height and the transaction logs of its receipts.
pub record IncomeBlock : Type 0 where
  pub height : ℕ
  pub receipts : List (List Transfer)

-- `accountIncomePlugin`
pub record IncomePlugin : Type 0 where
  pub tip_height : ℕ
  pub account_income : List IncomeRow
  pub account_income_count : GoMap String Income

unfoldable pub add_entry : ℕ → String → Income → IncomePlugin → IncomePlugin
add_entry height a inc p = record p {
  account_income =
      p.account_income ++ (record { block_height = height; address = a; income = inc } ∷ []);
  account_income_count =
      insert a (plus (income_of a p.account_income_count) inc) p.account_income_count;
}

-- The loop of `putBlock`.
unfoldable pub add_entries : ℕ → GoMap String Income → IncomePlugin → IncomePlugin
add_entries height [] p = p
add_entries height ((a, inc) ∷ m) p = add_entries height m (add_entry height a inc p)

module _ (from_string : String → Option String) where
  -- The recipient that is counted; "" for none.
  unfoldable pub recipient_of : Transfer → String
  recipient_of t =
      if t.recipient == ""
      then ""
      else elim (from_string t.recipient) [ none ↦ "" | some addr ↦ addr ]

  unfoldable pub add_transfer : Transfer → GoMap String Income → GoMap String Income
  add_transfer t m = add_recipient (recipient_of t) t.amount (add_sender t m)

  unfoldable pub add_transfers : List Transfer → GoMap String Income → GoMap String Income
  add_transfers [] m = m
  add_transfers (t ∷ ts) m = add_transfers ts (add_transfer t m)

  unfoldable pub add_receipts : List (List Transfer) → GoMap String Income → GoMap String Income
  add_receipts [] m = m
  add_receipts (ts ∷ rs) m = add_receipts rs (add_transfers ts m)

  -- `getIncomes`
  unfoldable pub get_incomes : IncomeBlock → GoMap String Income
  get_incomes blk = add_receipts blk.receipts []

  -- `putBlock`
  unfoldable pub put_incomes : IncomeBlock → IncomePlugin → IncomePlugin
  put_incomes blk p = add_entries blk.height (get_incomes blk) p

  unfoldable pub put_all_incomes : List IncomeBlock → IncomePlugin → IncomePlugin
  put_all_incomes [] p = p
  put_all_incomes (blk ∷ blks) p = put_all_incomes blks (put_incomes blk p)

-- `blks[len(blks)-1].Height()`
unfoldable pub tip_of : List IncomeBlock → Result String ℕ
tip_of [] = err "index out of range"
tip_of (blk ∷ []) = ok blk.height
tip_of (blk ∷ next ∷ blks) = tip_of (next ∷ blks)
