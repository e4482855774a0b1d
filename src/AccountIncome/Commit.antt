-- ===== src/AccountIncome/Commit.antt =====
-- plugins/account_income: the pending rows and counts are written in one transaction.
--
-- The statements are a record `IncomeStore` on the tables of a database of Db; a statement fails or
-- does what its law says. One INSERT stands for its batches.
pub mod Totals
use iotex_analyser.Base.{
  ℕ, ◌≡◌, String, Option, none, some, List, [], ◌∷◌, Result, ok, err, ◌>>=◌, ◌==◌, string_eq,
}
use iotex_analyser.Base.GoMap.{GoMap}
use iotex_analyser.Db.{Database, IndexCache, commit_block}
use iotex_analyser.AccountIncome.{
  Income, IncomeRow, IncomeBlock, IncomePlugin, no_income, income_of, plus, put_all_incomes, tip_of,
}

pub record IncomeStore (db : Database) : Type 0 where
  pub insert_incomes : List IncomeRow → db.Tables → Result String db.Tables
  -- INSERT … ON CONFLICT (address) DO UPDATE that adds the four columns
  pub upsert_counts : GoMap String Income → db.Tables → Result String db.Tables
  -- The count that the table holds of an address; none is nothing.
  pub stored_count : String → db.Tables → Income
  pub count-insert_incomes :
      (rows : List IncomeRow) (t t' : db.Tables)
      → insert_incomes rows t ≡ ok t'
      → (a : String) → stored_count a t' ≡ stored_count a t
  pub count-upsert_counts :
      (counts : GoMap String Income) (t t' : db.Tables)
      → upsert_counts counts t ≡ ok t'
      → (a : String) → stored_count a t' ≡ plus (stored_count a t) (income_of a counts)
  pub count-update :
      (name : String) (h : ℕ) (t t' : db.Tables)
      → db.update name h t ≡ ok t'
      → (a : String) → stored_count a t' ≡ stored_count a t

-- The plugin once `commit` has taken what is pending.
unfoldable pub taken_incomes : IncomePlugin → IncomePlugin
taken_incomes p = record p { account_income = []; account_income_count = [] }

module _ (db : Database) (store : IncomeStore db) (from_string : String → Option String) where
  open db use {Tables}
  open store use {insert_incomes, upsert_counts}

  abbrev pub write_incomes : List IncomeRow → Tables → Result String Tables
  write_incomes [] t = ok t
  write_incomes (r ∷ rs) t = insert_incomes (r ∷ rs) t

  abbrev pub write_counts : GoMap String Income → Tables → Result String Tables
  write_counts [] t = ok t
  write_counts (e ∷ es) t = upsert_counts (e ∷ es) t

  -- The statements of the transaction but the last.
  unfoldable pub write_income_pending : IncomePlugin → Tables → Result String Tables
  write_income_pending p t = do
    t₁ ← write_incomes p.account_income t
    write_counts p.account_income_count t₁

  abbrev pub IncomeSystem : Type 0
  IncomeSystem = IncomePlugin × Tables × IndexCache

  -- `commit`
  unfoldable pub commit_incomes : IncomeSystem → Result String (Unit {0}) × IncomeSystem
  commit_incomes (p, t, c) =
      let (r, (t', c')) =
        regroup (commit_block db (write_income_pending p) "account_income" p.tip_height t c) in
      (r, (taken_incomes p, t', c'))
    where
      regroup :
          Result String (Unit {0}) × Tables × IndexCache
          → Result String (Unit {0}) × (Tables × IndexCache)
      regroup (r, t', c') = (r, (t', c'))

  abbrev pub tipped :
      Tables → IndexCache → IncomePlugin → Result String ℕ → Result String (Unit {0}) × IncomeSystem
  tipped t c p (err e) = (err e, (p, t, c))
  tipped t c p (ok tip) = commit_incomes (record p { tip_height = tip }, t, c)

  -- `PutBlocks`; `PutBlock` is that of one block.
  unfoldable pub put_income_blocks :
      List IncomeBlock → IncomeSystem → Result String (Unit {0}) × IncomeSystem
  put_income_blocks blks (p, t, c) = tipped t c (put_all_incomes from_string blks p) (tip_of blks)
