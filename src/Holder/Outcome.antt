-- ===== src/Holder/Outcome.antt =====
-- When `applyHolderOperations` succeeds, and what it does with a token that is minted again
-- (plugins/erc1155_721_holder_v2/state.go).
use iotex_analyser.Base.{
  ℕ, ◌≡◌, ◌≢◌, refl, ◌∙◌, String, some, List, [], ◌∷◌, Result, ok, err, ◌>>=◌, arith, length,
  beq_refl,
}
use iotex_analyser.Base.GoMap.{
  GoMap, insert, keys, erase, lookup-insert, has-erase, lookup-empty, has-empty,
}
use iotex_analyser.Holder.Store.{
  HolderKey, TokenKey, HolderState, Table, holder_key_eq, token_key_eq, holder_key_beq_iff,
}
use iotex_analyser.Holder.{
  Operation, Work, apply_ops, apply_op, apply_by, chunks, load_existing_holder_states, load_chunks,
  put_rows, delete_key_chunks, delete_holders_by_key, delete_token_chunks, delete_holders_by_token,
  upsert_holder_states, write_work, apply_holder_operations, collect_touched_keys, erc721_mint,
  erc721_burn, one_token, erase_token, touch_ops, touch_op, HolderError,
}
use iotex_analyser.Holder.Spec.{Ledger, run_ops, IsFresh}
use iotex_analyser.Holder.Step.{view, Agree}
use iotex_analyser.Holder.Touched.{collect_touched_keys-TouchedBy}
use iotex_analyser.Holder.Batch.{apply_ops-Agree}
use iotex_analyser.Holder.Refines.{start, start-Related, row-write_work}

-- No statement fails.
pub record IsReliable (table : Table) : Type 0 where
  pub selects :
      (keys : List HolderKey) (t : table.Rows)
      → (rows : List (HolderKey × HolderState)) × (table.select keys t ≡ ok rows)
  pub deletes_keys :
      (keys : List HolderKey) (t : table.Rows)
      → (t' : table.Rows) × (table.delete_keys keys t ≡ ok t')
  pub deletes_tokens :
      (tokens : List TokenKey) (t : table.Rows)
      → (t' : table.Rows) × (table.delete_tokens tokens t ≡ ok t')
  pub upserts :
      (states : GoMap HolderKey HolderState) (t : table.Rows)
      → (t' : table.Rows) × (table.upsert states t ≡ ok t')

module _ (table : Table) (up : IsReliable table) where
  load_chunks_ok :
      (batches : List (List HolderKey)) (states : GoMap HolderKey HolderState) (t : table.Rows)
      → (states' : GoMap HolderKey HolderState) × (load_chunks table batches states t ≡ ok states')
  unfolding load_chunks
  load_chunks_ok [] states t = (states, refl)
  load_chunks_ok (c ∷ batches) states t =
      let (rows, e) = up.selects c t in
      let (states', e') = load_chunks_ok batches (put_rows table rows states) t in
      (states', rw (e, load_chunks) e')

  delete_key_chunks_ok :
      (batches : List (List HolderKey)) (t : table.Rows)
      → (t' : table.Rows) × (delete_key_chunks table batches t ≡ ok t')
  unfolding delete_key_chunks
  delete_key_chunks_ok [] t = (t, refl)
  delete_key_chunks_ok (c ∷ batches) t =
      let (t₁, e) = up.deletes_keys c t in
      let (t', e') = delete_key_chunks_ok batches t₁ in (t', rw (e, delete_key_chunks) e')

  delete_token_chunks_ok :
      (batches : List (List TokenKey)) (t : table.Rows)
      → (t' : table.Rows) × (delete_token_chunks table batches t ≡ ok t')
  unfolding delete_token_chunks
  delete_token_chunks_ok [] t = (t, refl)
  delete_token_chunks_ok (c ∷ batches) t =
      let (t₁, e) = up.deletes_tokens c t in
      let (t', e') = delete_token_chunks_ok batches t₁ in (t', rw (e, delete_token_chunks) e')

  upsert_holder_states_ok :
      (states : GoMap HolderKey HolderState) (t : table.Rows)
      → (t' : table.Rows) × (upsert_holder_states table states t ≡ ok t')
  unfolding upsert_holder_states
  upsert_holder_states_ok [] t = (t, refl)
  upsert_holder_states_ok (r ∷ rows) t = up.upserts (r ∷ rows) t

  write_work_ok : (w : Work) (t : table.Rows) → (t' : table.Rows) × (write_work table w t ≡ ok t')
  unfolding write_work delete_holders_by_token delete_holders_by_key
  write_work_ok w t =
      let tokens = keys w.delete_by_token in
      let (t₁, e₁) = delete_token_chunks_ok (chunks (length tokens) tokens) t in
      let marked = keys w.delete_by_key in
      let (t₂, e₂) = delete_key_chunks_ok (chunks (length marked) marked) t₁ in
      let (t₃, e₃) = upsert_holder_states_ok w.states t₂ in (t₃, rw (e₁, ◌>>=◌, e₂) e₃)

  -- How a batch and the run of its operations on the ledger end together.
  abbrev pub SameEnd : Result HolderError table.Rows → Result HolderError Ledger → Type 0
  SameEnd (ok t') (ok l) = Unit
  SameEnd (err e) (err f) = e ≡ f
  SameEnd (ok t') (err f) = ⊥
  SameEnd (err e) (ok l) = ⊥

  finished :
      (touched : List HolderKey) (before : Ledger) (last : GoMap TokenKey (Unit {0}))
      (x : Result HolderError Work) (r : Result HolderError Ledger) (t : table.Rows)
      → Agree touched before last x r
      → SameEnd (x >>= λ w. write_work table w t) r
  finished touched before last (ok w) (ok l) t a = let (t', e) = write_work_ok w t in rw e tt
  finished touched before last (err e) (err f) t a = a
  finished touched before last (ok w) (err f) t a = elim a [ ]
  finished touched before last (err e) (ok l) t a = elim a [ ]

  -- While no statement fails, and no ERC-721 token is minted or transferred after a burn of it in
  -- the same batch, a batch succeeds exactly when its operations run one after the other do, and
  -- fails with the same error.
  pub apply_holder_operations-SameEnd :
      (ops : List Operation) (t : table.Rows)
      → IsFresh ops []
      → SameEnd (apply_holder_operations table ops t) (run_ops ops (table.row t))
  unfolding apply_holder_operations
  apply_holder_operations-SameEnd [] t f = unfold run_ops in tt
  apply_holder_operations-SameEnd (op ∷ ops) t f =
      let touched = collect_touched_keys (op ∷ ops) in
      let (states, e) : (s : GoMap HolderKey HolderState) × (load_existing_holder_states table
              touched t
            ≡ ok s) =
        unfold load_existing_holder_states in
        load_chunks_ok (chunks (length touched) touched) [] t in
      let (last, agree) =
        apply_ops-Agree touched (table.row t) [] (op ∷ ops) (start table states) (table.row t)
          (collect_touched_keys-TouchedBy (op ∷ ops)) f (start-Related table touched states t e) in
      rw (e, ◌>>=◌)
        (finished touched (table.row t) last (apply_ops (op ∷ ops) (start table states))
          (run_ops (op ∷ ops) (table.row t)) t agree)

-- Two operations on one ERC-721 token in one batch: `a` burns it, and it is minted for `b`.
abbrev pub burn_then_mint : String → String → String → String → ℕ → List Operation
burn_then_mint contract token a b erc_type =
    record {
      op_type = erc721_burn;
      contract = contract;
      from = a;
      to = "";
      token_id = token;
      erc_type = erc_type;
      value = 0;
    }
    ∷ record {
      op_type = erc721_mint;
      contract = contract;
      from = "";
      to = b;
      token_id = token;
      erc_type = erc_type;
      value = 0;
    }
    ∷ []

abbrev pub key_of : String → String → String → HolderKey
key_of contract holder token = record { contract = contract; holder = holder; token_id = token }

-- The maps of that batch.
minted : String → String → String → ℕ → Work
minted contract token b erc_type = record {
  states = insert (key_of contract b token) (one_token erc_type) [];
  delete_by_key = [];
  delete_by_token =
      erase (record { contract = contract; token_id = token })
        (insert (record { contract = contract; token_id = token }) tt []);
}

burn_then_mint-write_work :
    (table : Table) (contract token a b : String) (erc_type : ℕ) (t t' : table.Rows)
    → apply_holder_operations table (burn_then_mint contract token a b erc_type) t ≡ ok t'
    → write_work table (minted contract token b erc_type) t ≡ ok t'
unfolding minted apply_holder_operations load_existing_holder_states load_chunks chunks apply_ops
    apply_op apply_by collect_touched_keys touch_ops touch_op erase_token
burn_then_mint-write_work table contract token a b erc_type t t' e = e

view-minted :
    (contract token b : String) (erc_type : ℕ) (before : Ledger)
    → view (minted contract token b erc_type) before (key_of contract b token)
      ≡ some (one_token erc_type)
unfolding view minted
view-minted contract token b erc_type before = ground (
  arith,
  lookup-insert (key_of contract b token) (key_of contract b token) (one_token erc_type) [],
  beq_refl (key_of contract b token),
)

view-other :
    (contract token a b : String) (erc_type : ℕ) (before : Ledger)
    → a ≢ b
    → view (minted contract token b erc_type) before (key_of contract a token)
      ≡ before (key_of contract a token)
unfolding view minted
view-other contract token a b erc_type before ne =
    let other : TokenKey = record { contract = contract; token_id = token } in
    ground (
      arith,
      lookup-insert (key_of contract b token) (key_of contract a token) (one_token erc_type) [],
      holder_key_beq_iff (key_of contract b token) (key_of contract a token),
      has-erase other other (insert other tt []),
      beq_refl other,
      lookup-empty {V = HolderState} (key_of contract a token),
      has-empty (Unit {0}) (key_of contract a token),
    )

-- When a batch that burns an ERC-721 token of one holder and mints it for another is applied, both
-- holders have a row afterwards.
pub burn_then_mint_keeps_row :
    (table : Table) (contract token a b : String) (erc_type : ℕ) (state : HolderState)
    (t t' : table.Rows)
    → a ≢ b
    → table.row t (key_of contract a token) ≡ some state
    → apply_holder_operations table (burn_then_mint contract token a b erc_type) t ≡ ok t'
    → (table.row t' (key_of contract a token) ≡ some state)
      × (table.row t' (key_of contract b token) ≡ some (one_token erc_type))
burn_then_mint_keeps_row table contract token a b erc_type state t t' ne held e =
    let view_of = λ (k : HolderKey).
      row-write_work table k (minted contract token b erc_type) t t'
        (burn_then_mint-write_work table contract token a b erc_type t t' e) in
    (
      view_of (key_of contract a token)
          ∙ view-other contract token a b erc_type (table.row t) ne
          ∙ held,
      view_of (key_of contract b token) ∙ view-minted contract token b erc_type (table.row t),
    )
