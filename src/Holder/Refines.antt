-- ===== src/Holder/Refines.antt =====
-- `applyHolderOperations` against the ledger (plugins/erc1155_721_holder_v2/state.go).
use iotex_analyser.Base.{
  >>=-eq-ok, ◌≡◌, refl, sym, ap, ◌∙◌, subst, none, List, [], ◌∷◌, Result, ok, err, if◌then◌else◌,
  arith, length,
}
use iotex_analyser.Base.GoMap.{GoMap, has, lookup, keys}
use iotex_analyser.Holder.Store.{
  HolderKey, TokenKey, HolderState, Table, token_of, holder_key_eq, token_key_eq,
}
use iotex_analyser.Holder.{
  Operation, Work, apply_ops, chunks, load_existing_holder_states, delete_holders_by_key,
  delete_holders_by_token, write_work, apply_holder_operations, collect_touched_keys, HolderError,
}
use iotex_analyser.Holder.Spec.{Ledger, run_ops, IsFresh}
use iotex_analyser.Holder.Step.{view, Related, Agree}
use iotex_analyser.Holder.Touched.{member-chunks, member-keys, collect_touched_keys-TouchedBy}
use iotex_analyser.Holder.Batch.{
  apply_ops-Agree, lookup-load, row-delete_key_chunks, row-delete_token_chunks,
  row-upsert_holder_states,
}

module _ (table : Table) where
  row-delete_holders_by_token :
      (k : HolderKey) (set : GoMap TokenKey (Unit {0})) (t t' : table.Rows)
      → delete_holders_by_token table set t ≡ ok t'
      → table.row t' k ≡ (if has (token_of k) set then none else table.row t k)
  unfolding delete_holders_by_token
  row-delete_holders_by_token k set t t' e =
      row-delete_token_chunks table k (chunks (length (keys set)) (keys set)) t t' e
      ∙ ap (λ b. if b then none else table.row t k)
          (member-chunks (length (keys set)) (token_of k) (keys set) (omega arith)
            ∙ member-keys (token_of k) set)

  row-delete_holders_by_key :
      (k : HolderKey) (set : GoMap HolderKey (Unit {0})) (t t' : table.Rows)
      → delete_holders_by_key table set t ≡ ok t'
      → table.row t' k ≡ (if has k set then none else table.row t k)
  unfolding delete_holders_by_key
  row-delete_holders_by_key k set t t' e =
      row-delete_key_chunks table k (chunks (length (keys set)) (keys set)) t t' e
      ∙ ap (λ b. if b then none else table.row t k)
          (member-chunks (length (keys set)) k (keys set) (omega arith) ∙ member-keys k set)

  -- The deletes and the upsert leave the view of the batch in the table.
  pub row-write_work :
      (k : HolderKey) (w : Work) (t t' : table.Rows)
      → write_work table w t ≡ ok t'
      → table.row t' k ≡ view w (table.row t) k
  unfolding write_work view
  row-write_work k w t t' e =
      let (t₁, e₁, rest₁) = >>=-eq-ok (delete_holders_by_token table w.delete_by_token t) _ e in
      let (t₂, e₂, rest₂) = >>=-eq-ok (delete_holders_by_key table w.delete_by_key t₁) _ rest₁ in
      ground (
        arith,
        row-delete_holders_by_token k w.delete_by_token t t₁ e₁,
        row-delete_holders_by_key k w.delete_by_key t₁ t₂ e₂,
        row-upsert_holder_states table k w.states t₂ t' rest₂,
      )

  -- The work that a batch begins with.
  abbrev pub start : GoMap HolderKey HolderState → Work
  start states = record { states = states; delete_by_key = []; delete_by_token = [] }

  pub start-Related :
      (touched : List HolderKey) (states : GoMap HolderKey HolderState) (t : table.Rows)
      → load_existing_holder_states table touched t ≡ ok states
      → Related touched (table.row t) [] (start states) (table.row t)
  unfolding view has lookup
  start-Related touched states t e = record {
    same = λ k. ground (arith, lookup-load table k touched states t e);
    loaded = λ k m n. ground (arith, lookup-load table k touched states t e);
    dead = λ token. refl;
  }

  abbrev pub RunsTo : Result HolderError Ledger → table.Rows → Type 0
  RunsTo (ok l) t' = (k : HolderKey) → table.row t' k ≡ l k
  RunsTo (err e) t' = ⊥

  written :
      (touched : List HolderKey) (last : GoMap TokenKey (Unit {0})) (w : Work)
      (r : Result HolderError Ledger) (t t' : table.Rows)
      → Agree touched (table.row t) last (ok w) r
      → write_work table w t ≡ ok t'
      → RunsTo r t'
  written touched last w (ok l) t t' a e = λ k. row-write_work k w t t' e ∙ a.same k
  written touched last w (err x) t t' a e = a

  -- A batch of token operations that is applied with chunked reads, deletes and an upsert leaves
  -- every row as the operations leave it that are run one after the other, when no ERC-721 token is
  -- minted or transferred after a burn of it in the same batch.
  pub apply_holder_operations-run_ops :
      (ops : List Operation) (t t' : table.Rows)
      → IsFresh ops []
      → apply_holder_operations table ops t ≡ ok t'
      → RunsTo (run_ops ops (table.row t)) t'
  unfolding apply_holder_operations
  apply_holder_operations-run_ops [] t t' f e =
      let same : t ≡ t' = cc in unfold run_ops in λ k. ap (λ u. table.row u k) (sym same)
  apply_holder_operations-run_ops (op ∷ ops) t t' f e =
      let touched = collect_touched_keys (op ∷ ops) in
      let (states, e₁, rest₁) = >>=-eq-ok (load_existing_holder_states table touched t) _ e in
      let (w, e₂, rest₂) = >>=-eq-ok (apply_ops (op ∷ ops) (start states)) _ rest₁ in
      let (last, agree) =
        apply_ops-Agree touched (table.row t) [] (op ∷ ops) (start states) (table.row t)
          (collect_touched_keys-TouchedBy (op ∷ ops)) f (start-Related touched states t e₁) in
      written touched last w (run_ops (op ∷ ops) (table.row t)) t t'
        (subst (λ x. Agree touched (table.row t) last x (run_ops (op ∷ ops) (table.row t))) e₂
          agree)
        rest₂
