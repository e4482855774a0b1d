-- ===== src/AccountIncome/Commit/Totals.antt =====
-- What calls of PutBlocks add to the counts of the accounts (plugins/account_income).
use iotex_analyser.Base.{
  ℕ, ◌+◌, ◌≡◌, refl, sym, ap, ◌∙◌, String, Option, false, List, [], ◌∷◌, Result, ok, err, >>=-eq-ok,
  ◌==◌, string_eq, arith,
}
use iotex_analyser.Base.GoMap.{GoMap, lookup}
use iotex_analyser.Db.{Database, IndexCache}
use iotex_analyser.Db.Cache.{commit_block-done, commit_block-failed}
use iotex_analyser.AccountIncome.{
  Income, IncomeRow, IncomePlugin, income_of, err, Result, tip_of, IncomeBlock, put_all_incomes,
}
use iotex_analyser.AccountIncome.Flows.{
  Field, get, get-plus, get-no_income, moved_in_blocks, put_all_incomes-moved,
}
use iotex_analyser.AccountIncome.Commit.{
  IncomeStore, write_incomes, write_counts, write_income_pending, commit_incomes, put_income_blocks,
  taken_incomes, tipped,
}

-- Nothing is pending.
pub record IsIdle (p : IncomePlugin) : Type 0 where
  pub no_rows : p.account_income ≡ []
  pub no_counts : p.account_income_count ≡ []

tip_of-ok :
    (blk : IncomeBlock) (blks : List IncomeBlock) → (tip : ℕ) × (tip_of (blk ∷ blks) ≡ ok tip)
unfolding tip_of
tip_of-ok blk [] = (blk.height, refl)
tip_of-ok blk (next ∷ blks) = tip_of-ok next blks

module _ (db : Database) (store : IncomeStore db) (from_string : String → Option String) where
  open db use {Tables}
  open store use {stored_count}

  -- A number of the count that is stored of an account.
  abbrev pub stored : Field → String → Tables → ℕ
  stored f a t = get f (stored_count a t)

  module _ (f : Field) (a : String) where
    write_incomes-stored :
        (rows : List IncomeRow) (t t' : Tables)
        → write_incomes db store from_string rows t ≡ ok t'
        → stored f a t' ≡ stored f a t
    write_incomes-stored [] t t' h = let same : t ≡ t' = cc in ap (stored f a) (sym same)
    write_incomes-stored (r ∷ rs) t t' h = ap (get f) (store.count-insert_incomes (r ∷ rs) t t' h a)

    write_counts-stored :
        (counts : GoMap String Income) (t t' : Tables)
        → write_counts db store from_string counts t ≡ ok t'
        → stored f a t' ≡ stored f a t + get f (income_of a counts)
    unfolding lookup
    write_counts-stored [] t t' h =
        let same : t ≡ t' = cc in rw same (omega (arith, get-no_income f))
    write_counts-stored (e ∷ es) t t' h =
        ap (get f) (store.count-upsert_counts (e ∷ es) t t' h a)
        ∙ get-plus f (stored_count a t) (income_of a (e ∷ es))

    write_income_pending-stored :
        (p : IncomePlugin) (t t' : Tables)
        → write_income_pending db store from_string p t ≡ ok t'
        → stored f a t' ≡ stored f a t + get f (income_of a p.account_income_count)
    unfolding write_income_pending
    write_income_pending-stored p t t' h =
        let (u, rows, counts) =
          >>=-eq-ok (write_incomes db store from_string p.account_income t)
            (write_counts db store from_string p.account_income_count) h in
        omega (
          arith,
          write_incomes-stored p.account_income t u rows,
          write_counts-stored p.account_income_count u t' counts,
        )

    commit_incomes-stored :
        (p : IncomePlugin) (t : Tables) (c : IndexCache)
        → (commit_incomes db store from_string (p, t, c)).0 ≡ ok tt
        → stored f a (commit_incomes db store from_string (p, t, c)).1.1
          ≡ stored f a t + get f (income_of a p.account_income_count)
    unfolding commit_incomes
    commit_incomes-stored p t c h =
        let (u, made, updated) =
          commit_block-done db (write_income_pending db store from_string p) "account_income"
            p.tip_height t c h in
        ap (get f) (store.count-update "account_income" p.tip_height u _ updated a)
        ∙ write_income_pending-stored p t u made

    tipped-stored :
        (p : IncomePlugin) (t : Tables) (c : IndexCache) (tip : Result String ℕ)
        → (tipped db store from_string t c p tip).0 ≡ ok tt
        → stored f a (tipped db store from_string t c p tip).1.1
          ≡ stored f a t + get f (income_of a p.account_income_count)
    tipped-stored p t c (err e) h = absurd cc
    tipped-stored p t c (ok tip) h = commit_incomes-stored (record p { tip_height = tip }) t c h

    -- When PutBlocks succeeds from a plugin with nothing pending, each of the four numbers that are
    -- stored of an account, whose address is not empty, has grown by exactly what the transfers of
    -- the blocks move for it: a transfer counts for its sender, and for its recipient when that is
    -- a valid address, in the form that the protocol writes.
    pub put_income_blocks-stored :
        (blks : List IncomeBlock) (p : IncomePlugin) (t : Tables) (c : IndexCache)
        → (named : (a == "") ≡ false) → IsIdle p
        → (put_income_blocks db store from_string blks (p, t, c)).0 ≡ ok tt
        → stored f a (put_income_blocks db store from_string blks (p, t, c)).1.1
          ≡ stored f a t + moved_in_blocks f a named from_string blks
    unfolding put_income_blocks lookup
    put_income_blocks-stored blks p t c named idle h =
        let read = put_all_incomes from_string blks p in
        let (rows, counts) = put_all_incomes-moved f a named from_string blks p in
        let start : get f (income_of a p.account_income_count) ≡ 0 =
          ap (λ m. get f (income_of a m)) idle.no_counts ∙ get-no_income f in
        omega (arith, tipped-stored read t c (tip_of blks) h, counts, start)

    commit_incomes-failed :
        (p : IncomePlugin) (t : Tables) (c : IndexCache) (m : String)
        → (commit_incomes db store from_string (p, t, c)).0 ≡ err m
        → (commit_incomes db store from_string (p, t, c)).1.1 ≡ t
    unfolding commit_incomes
    commit_incomes-failed p t c m h =
        commit_block-failed db (write_income_pending db store from_string p) "account_income"
          p.tip_height t c m h

    tipped-failed :
        (p : IncomePlugin) (t : Tables) (c : IndexCache) (tip : Result String ℕ) (m : String)
        → (tipped db store from_string t c p tip).0 ≡ err m
        → (tipped db store from_string t c p tip).1.1 ≡ t
    tipped-failed p t c (err e) m h = refl
    tipped-failed p t c (ok tip) m h = commit_incomes-failed (record p { tip_height = tip }) t c m h

    tipped-IsIdle :
        (p : IncomePlugin) (t : Tables) (c : IndexCache) (tip : ℕ)
        → IsIdle (tipped db store from_string t c p (ok tip)).1.0
    unfolding commit_incomes taken_incomes
    tipped-IsIdle p t c tip = record { no_rows = refl; no_counts = refl }

    -- When PutBlocks fails on some blocks and a call after it succeeds, the stored numbers of an
    -- account have grown by what the blocks of the second call move for it, and by nothing of the
    -- first.
    pub put_income_blocks-retried :
        (blk : IncomeBlock) (blks blks' : List IncomeBlock) (p : IncomePlugin) (t : Tables)
        (c : IndexCache) (m : String)
        → (named : (a == "") ≡ false)
        → (put_income_blocks db store from_string (blk ∷ blks) (p, t, c)).0 ≡ err m
        → (put_income_blocks db store from_string blks'
            (put_income_blocks db store from_string (blk ∷ blks) (p, t, c)).1).0
          ≡ ok tt
        → stored f a
            (put_income_blocks db store from_string blks'
              (put_income_blocks db store from_string (blk ∷ blks) (p, t, c)).1).1.1
          ≡ stored f a t + moved_in_blocks f a named from_string blks'
    unfolding put_income_blocks
    put_income_blocks-retried blk blks blks' p t c m named failed done =
        let read = put_all_incomes from_string (blk ∷ blks) p in
        let (tip, tip_ok) = tip_of-ok blk blks in
        let first = put_income_blocks db store from_string (blk ∷ blks) (p, t, c) in
        let kept = tipped-failed read t c (tip_of (blk ∷ blks)) m failed in
        let idle : IsIdle first.1.0 = rw tip_ok (tipped-IsIdle read t c tip) in
        put_income_blocks-stored blks' first.1.0 first.1.1 first.1.2 named idle done
        ∙ ap (λ u. stored f a u + moved_in_blocks f a named from_string blks') kept
