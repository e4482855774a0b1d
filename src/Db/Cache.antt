-- ===== src/Db/Cache.antt =====
-- The cache of index heights against the table (db/index.go).
use iotex_analyser.Base.{
  ℕ, ◌≡◌, sym, ap, ◌∙◌, String, some, beq_refl, Result, ok, err, Result-cases, inl, inr,
  if◌then◌else◌, string_eq,
}
use iotex_analyser.Base.GoMap.{lookup, insert, lookup-insert}
use iotex_analyser.Db.{
  Database, IndexCache, update_index_height_by_tx, get_index_height, get_committed_index_height,
  commit_block, wrote, cached,
}

-- A transaction that commits has made its rows, and then the height.
pub commit_block-done :
    (db : Database) (write : db.Tables → Result String db.Tables) (name : String) (height : ℕ)
    (t : db.Tables) (c : IndexCache)
    → (commit_block db write name height t c).0 ≡ ok tt
    → (u : db.Tables) × (write t ≡ ok u)
      × (db.update name height u ≡ ok (commit_block db write name height t c).1)
unfolding commit_block update_index_height_by_tx
commit_block-done db write name height t c done =
    let body = λ (t' : db.Tables) (c' : IndexCache). wrote db name height (write t') c' in
    let made = db.transaction_commit body t c done in
    elim (Result-cases (write t)) [
      | inl (u, e) ↦ (u, e, sym (ap (λ x. (wrote db name height x c).0) e) ∙ made)
      | inr (x, e) ↦ absurd (let bad = sym (ap (λ r. (wrote db name height r c).0) e) ∙ made in cc)
    ]

-- One that does not leaves the tables alone.
pub commit_block-failed :
    (db : Database) (write : db.Tables → Result String db.Tables) (name : String) (height : ℕ)
    (t : db.Tables) (c : IndexCache) (m : String)
    → (commit_block db write name height t c).0 ≡ err m
    → (commit_block db write name height t c).1 ≡ t
unfolding commit_block
commit_block-failed db write name height t c m h = db.transaction_rollback _ t c m h

module _ (db : Database) where
  -- The cache holds no height for `name` but the committed one.
  abbrev pub Coherent : String → db.Tables → IndexCache → Type 0
  Coherent name t c = (h : ℕ) → lookup name c ≡ some h → db.take name t ≡ ok (some h)

  lookup-insert_self :
      (name : String) (h : ℕ) (c : IndexCache) → lookup name (insert name h c) ≡ some h
  lookup-insert_self name h c = lookup-insert name name h c ∙ rw (beq_refl name)

  get_index_height_cached :
      (name : String) (h : ℕ) (t : db.Tables) (c : IndexCache)
      → lookup name c ≡ some h
      → (get_index_height db name t c).0 ≡ ok h
  unfolding get_index_height
  get_index_height_cached name h t c e = rw (e, cached)

  module _ (write : db.Tables → Result String db.Tables) (name : String) (height : ℕ)
      (t u : db.Tables) (c : IndexCache) (written : write t ≡ ok u) where
    -- The cache after the transaction, committed or not.
    cache_after : (commit_block db write name height t c).2 ≡ insert name height c
    unfolding commit_block update_index_height_by_tx
    cache_after =
        db.transaction_cache (λ t' c'. wrote db name height (write t') c') t c
        ∙ ap (λ x. (wrote db name height x c).1) written

    cached_after : lookup name (commit_block db write name height t c).2 ≡ some height
    cached_after = rw cache_after (lookup-insert_self name height c)

    row_after :
        (old : ℕ)
        → db.take name u ≡ ok (some old)
        → (commit_block db write name height t c).0 ≡ ok tt
        → db.take name (commit_block db write name height t c).1 ≡ ok (some height)
    unfolding commit_block update_index_height_by_tx
    row_after old row done =
        let body = λ (t' : db.Tables) (c' : IndexCache). wrote db name height (write t') c' in
        let t' = (db.transaction body t c).1 in
        let updated : db.update name height u ≡ ok t' =
          sym (ap (λ x. (wrote db name height x c).0) written)
          ∙ db.transaction_commit body t c done in
        db.take-update name name height u t' updated old row
        ∙ ap (λ b. ok (some (if b then height else old))) (beq_refl name)

    -- When a plugin's write succeeds, its row of the index table is there and the transaction
    -- commits at a height, the cache holds only the committed height for the plugin, and both reads
    -- give that height.
    pub commit_block_ok :
        (old : ℕ)
        → db.take name u ≡ ok (some old)
        → (commit_block db write name height t c).0 ≡ ok tt
        → let (r, t', c') = commit_block db write name height t c in
          Coherent name t' c'
          × ((get_index_height db name t' c').0 ≡ ok height)
          × (get_committed_index_height db name t' ≡ ok height)
    unfolding get_committed_index_height
    commit_block_ok old row done =
        let seen = row_after old row done in
        (
          λ h e. (let same : h ≡ height = cc (cached_after) in rw same seen),
          get_index_height_cached name height _ _ cached_after,
          rw (seen, get_committed_index_height),
        )

    -- When a plugin's write succeeds and the transaction is rolled back all the same, the tables
    -- are as before and so is the committed read, but GetIndexHeight answers the height that was
    -- never committed.
    pub commit_block_rollback :
        (e : String)
        → (commit_block db write name height t c).0 ≡ err e
        → let (r, t', c') = commit_block db write name height t c in
          (t' ≡ t)
          × ((get_index_height db name t' c').0 ≡ ok height)
          × (get_committed_index_height db name t' ≡ get_committed_index_height db name t)
    unfolding commit_block
    commit_block_rollback e failed =
        let back = db.transaction_rollback _ t c e failed in
        (
          back,
          get_index_height_cached name height _ _ cached_after,
          ap (get_committed_index_height db name) back,
        )
