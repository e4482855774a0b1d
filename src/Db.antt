-- ===== src/Db.antt =====
-- db/index.go: how far each plugin has come. The table index_heights holds the committed heights,
-- and the process keeps a cache of them beside it, which no transaction rolls back.
--
-- The database is a record `Database`: its statements, and gorm's Transaction with what gorm
-- documents of it.
pub mod Cache
use iotex_analyser.Base.{
  ℕ, ◌≡◌, String, Option, none, some, ◌==◌, string_eq, Result, ok, err, if◌then◌else◌,
}
use iotex_analyser.Base.GoMap.{GoMap, lookup, insert}

-- `indexCache`
abbrev pub IndexCache : Type 0
IndexCache = GoMap String ℕ

-- What a transaction runs: statements on the tables, and calls that touch the cache.
abbrev pub Body : Type 0 → Type 0
Body Tables = Tables → IndexCache → Result String Tables × IndexCache

pub record Database : Type 1 where
  pub Tables : Type 0
  -- `Take` on index_heights; `none` is ErrRecordNotFound.
  pub take : String → Tables → Result String (Option ℕ)
  -- `Create` of a row.
  pub create : String → ℕ → Tables → Result String Tables
  -- `UpdateColumn` of the height where the name is given.
  pub update : String → ℕ → Tables → Result String Tables
  pub transaction :
      Body Tables → Tables → IndexCache → Result String (Unit {0}) × Tables × IndexCache
  -- An UPDATE changes the rows that it names, and makes none.
  pub take-update :
      (name j : String) (h : ℕ) (t t' : Tables)
      → update name h t ≡ ok t'
      → (old : ℕ) → take j t ≡ ok (some old)
      → take j t' ≡ ok (some (if name == j then h else old))
  -- A transaction commits the tables of its body, or leaves the tables alone. What its body does to
  -- the cache is done.
  pub transaction_cache :
      (body : Body Tables) (t : Tables) (c : IndexCache) → (transaction body t c).2 ≡ (body t c).1
  pub transaction_commit :
      (body : Body Tables) (t : Tables) (c : IndexCache)
      → (transaction body t c).0 ≡ ok tt
      → (body t c).0 ≡ ok (transaction body t c).1
  pub transaction_rollback :
      (body : Body Tables) (t : Tables) (c : IndexCache) (e : String)
      → (transaction body t c).0 ≡ err e
      → (transaction body t c).1 ≡ t

module _ (db : Database) where
  open db use {Tables, take, create, update, transaction}

  -- `UpdateIndexHeightByTx`: the cache is written first, whatever becomes of the statement.
  unfoldable pub update_index_height_by_tx : String → ℕ → Body Tables
  update_index_height_by_tx name height t c = (update name height t, insert name height c)

  abbrev created :
      Result String Tables → Tables → IndexCache → Result String ℕ × Tables × IndexCache
  created (err e) t c = (err e, t, c)
  created (ok t') t c = (ok 0, t', c)

  abbrev found :
      String
      → Result String (Option ℕ)
      → Tables
      → IndexCache
      → Result String ℕ × Tables × IndexCache
  found name (err e) t c = (err e, t, c)
  found name (ok none) t c = created (create name 0 t) t c
  found name (ok (some height)) t c = (ok height, t, insert name height c)

  abbrev cached : String → Option ℕ → Tables → IndexCache → Result String ℕ × Tables × IndexCache
  cached name (some height) t c = (ok height, t, c)
  cached name none t c = found name (take name t) t c

  -- `GetIndexHeight`
  unfoldable pub get_index_height :
      String → Tables → IndexCache → Result String ℕ × Tables × IndexCache
  get_index_height name t c = cached name (lookup name c) t c

  -- `GetCommittedIndexHeight`
  unfoldable pub get_committed_index_height : String → Tables → Result String ℕ
  get_committed_index_height name t = elim (take name t) [
    | err e ↦ err e
    | ok row ↦ elim row [ none ↦ ok 0 | some height ↦ ok height ]
  ]

  -- The transaction in which a plugin commits: its own rows, then the height.
  abbrev pub wrote :
      String → ℕ → Result String Tables → IndexCache → Result String Tables × IndexCache
  wrote name height (err e) c = (err e, c)
  wrote name height (ok t) c = update_index_height_by_tx name height t c

  unfoldable pub commit_block :
      (Tables → Result String Tables)
      → String
      → ℕ
      → Tables
      → IndexCache
      → Result String (Unit {0}) × Tables × IndexCache
  commit_block write name height t c = transaction (λ t' c'. wrote name height (write t') c') t c
