-- ===== src/Examples/Db.antt =====
-- A database whose table of index heights is a map, and whose transactions end as the tables say
-- (db/index.go).
use iotex_analyser.Base.{
  ◌∙◌, sym, ap, eq_of_beq, ℕ, ◌≡◌, refl, String, Bool, true, false, Option, none, some, ◌==◌,
  string_eq, Result, ok, err, if◌then◌else◌, arith, [], ◌∷◌, Option-cases, inl, Bool-cases,
  eq_of_beq, inr, ap, sym, ◌∙◌,
}
use iotex_analyser.Base.GoMap.{GoMap, lookup, insert, lookup-insert}
use iotex_analyser.Db.{
  Database, IndexCache, commit_block, get_index_height, get_committed_index_height,
  update_index_height_by_tx,
}
use iotex_analyser.Db.Cache.{Coherent, commit_block_ok, commit_block_rollback}

-- The rows of index_heights, and whether a commit will succeed.
record Disk : Type 0 where
  rows : GoMap String ℕ
  accepts : Bool

abbrev take_disk : String → Disk → Result String (Option ℕ)
take_disk name d = ok (lookup name d.rows)

abbrev update_disk : String → ℕ → Disk → Result String Disk
update_disk name h d = elim (lookup name d.rows) [
  | none ↦ ok d
  | some old ↦ ok (record d { rows = insert name h d.rows })
]

-- The end of a transaction that began with `d`.
abbrev settle :
    Disk → Result String Disk × IndexCache → Result String (Unit {0}) × Disk × IndexCache
settle d (err e, c) = (err e, d, c)
settle d (ok d', c) = if d.accepts then (ok tt, d', c) else (err "commit failed", d, c)

take-update_disk :
    (name j : String) (h : ℕ) (t t' : Disk)
    → update_disk name h t ≡ ok t'
    → (old : ℕ) → take_disk j t ≡ ok (some old)
    → take_disk j t' ≡ ok (some (if name == j then h else old))
take-update_disk name j h t t' e old row =
    let found : lookup j t.rows ≡ some old = cc in
    elim (Option-cases (lookup name t.rows)) [
      | inl e₀ ↦
          (let e' : ok t ≡ ok t' = rw (e₀, update_disk) at e in
            let same : t ≡ t' = cc in
            elim (Bool-cases (name == j)) [
              | inl eq ↦ absurd (let e₁ = eq_of_beq name j eq in cc)
              | inr ne ↦ rw ne (ap (take_disk j) (sym same) ∙ row)
            ])
      | inr (v, e₀) ↦
          (let e' : ok (record t { rows = insert name h t.rows }) ≡ ok t' =
              rw (e₀, update_disk) at e in
            let same : record t { rows = insert name h t.rows } ≡ t' = cc in
            ap (take_disk j) (sym same)
            ∙ ap (λ x. ok x) (lookup-insert name j h t.rows ∙ ground arith))
    ]

settle_cache : (d : Disk) (x : Result String Disk × IndexCache) → (settle d x).2 ≡ x.1
settle_cache d (err e, c) = refl
settle_cache d (ok d', c) = ground arith

settle_commit :
    (d : Disk) (x : Result String Disk × IndexCache)
    → (settle d x).0 ≡ ok tt
    → x.0 ≡ ok (settle d x).1
settle_commit d (err e, c) h = ground arith
settle_commit d (ok d', c) h = ground arith

settle_rollback :
    (d : Disk) (x : Result String Disk × IndexCache) (e : String)
    → (settle d x).0 ≡ err e
    → (settle d x).1 ≡ d
settle_rollback d (err e, c) x h = ground arith
settle_rollback d (ok d', c) x h = ground arith

abbrev disk : Database
disk = record {
  Tables = Disk;
  take = take_disk;
  create = λ name h d. ok (record d { rows = insert name h d.rows });
  update = update_disk;
  transaction = λ body d c. settle d (body d c);
  take-update = take-update_disk;
  transaction_cache = λ body d c. settle_cache d (body d c);
  transaction_commit = λ body d c. settle_commit d (body d c);
  transaction_rollback = λ body d c. settle_rollback d (body d c);
}

abbrev disk_at : Bool → Disk
disk_at b = record { rows = ("votes", 7) ∷ []; accepts = b }

commit_run : (commit_block disk (λ t. ok t) "votes" 8 (disk_at true) []).0 ≡ ok tt
unfolding commit_block update_index_height_by_tx lookup insert
commit_run = refl

rollback_run : (commit_block disk (λ t. ok t) "votes" 8 (disk_at false) []).0 ≡ err "commit failed"
unfolding commit_block update_index_height_by_tx lookup insert
rollback_run = refl

row_of_votes : disk.take "votes" (disk_at true) ≡ ok (some 7)
unfolding lookup
row_of_votes = refl

commit_block_ok_example :
    let (r, t', c') = commit_block disk (λ t. ok t) "votes" 8 (disk_at true) [] in
    Coherent disk "votes" t' c'
    × ((get_index_height disk "votes" t' c').0 ≡ ok 8)
    × (get_committed_index_height disk "votes" t' ≡ ok 8)
commit_block_ok_example =
    commit_block_ok disk (λ t. ok t) "votes" 8 (disk_at true) (disk_at true) [] refl 7 row_of_votes
      commit_run

commit_block_rollback_example :
    let (r, t', c') = commit_block disk (λ t. ok t) "votes" 8 (disk_at false) [] in
    (t' ≡ disk_at false)
    × ((get_index_height disk "votes" t' c').0 ≡ ok 8)
    × (get_committed_index_height disk "votes" t'
        ≡ get_committed_index_height disk "votes" (disk_at false))
commit_block_rollback_example =
    commit_block_rollback disk (λ t. ok t) "votes" 8 (disk_at false) (disk_at false) [] refl
      "commit failed" rollback_run
