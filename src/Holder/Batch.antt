-- ===== src/Holder/Batch.antt =====
-- A batch of token operations does to the table of holders what its operations do one after the
-- other (plugins/erc1155_721_holder_v2/state.go).
use iotex_analyser.Base.{
  ◌≡◌, refl, sym, ap, ◌∙◌, inl, inr, Bool, false, ◌||◌, none, List, [], ◌∷◌, Result, ok, err,
  if◌then◌else◌, arith, Result-cases, All, length,
}
use iotex_analyser.Base.GoMap.{GoMap, insert, lookup, lookup-insert}
use iotex_analyser.Holder.Store.{
  HolderKey, TokenKey, HolderState, Table, token_of, holder_key_eq, token_key_eq, member, IsUnique,
  holder_key_beq_iff,
}
use iotex_analyser.Holder.{
  Operation, Work, apply_op, apply_ops, chunks, put_rows, load_chunks, load_existing_holder_states,
  delete_key_chunks, delete_token_chunks, upsert_holder_states, HolderError,
}
use iotex_analyser.Holder.Spec.{Ledger, run_by, run_ops, burned_by, IsFresh}
use iotex_analyser.Holder.Step.{outcome, Related, Agree, TouchedBy, apply_by-Agree}
use iotex_analyser.Holder.Touched.{in_some, member-chunks}

or_assoc : (a b c : Bool) → ((a || b) || c) ≡ (a || (b || c))
or_assoc a b c = ground arith

-- The loop over the operations.
pub apply_ops-Agree :
    (touched : List HolderKey) (before : Ledger) (burned : GoMap TokenKey (Unit {0}))
    (ops : List Operation) (w : Work) (l : Ledger)
    → All (λ op. TouchedBy touched op.op_type op) ops
    → IsFresh ops burned
    → Related touched before burned w l
    → (last : GoMap TokenKey (Unit {0})) × Agree touched before last
        (apply_ops ops w)
        (run_ops ops l)
unfolding apply_ops run_ops apply_op
apply_ops-Agree touched before burned [] w l t f r = (burned, r)
apply_ops-Agree touched before burned (op ∷ ops) w l t f r =
    continue (apply_op op w) (run_by op.op_type op l)
      (apply_by-Agree touched before burned op.op_type op w l t.0 f.0 r)
      (λ w' l'. apply_ops-Agree touched before (burned_by op.op_type op burned) ops w' l' t.1 f.1)
  where
    continue :
        (x : Result HolderError Work) (y : Result HolderError Ledger)
        → Agree touched before (burned_by op.op_type op burned) x y
        → ((w' : Work) (l' : Ledger)
            → Related touched before (burned_by op.op_type op burned) w' l'
            → (last : GoMap TokenKey (Unit {0})) × Agree touched before last
                (apply_ops ops w')
                (run_ops ops l'))
        → (last : GoMap TokenKey (Unit {0})) × Agree touched before last
            (elim x [ err e ↦ err e | ok w' ↦ apply_ops ops w' ])
            (elim y [ err e ↦ err e | ok l' ↦ run_ops ops l' ])
    continue (ok w') (ok l') a go = go w' l' a
    continue (err e) (err f') a go = (burned, a)
    continue (ok w') (err f') a go = elim a [ ]
    continue (err e) (ok l') a go = elim a [ ]

module _ (table : Table) where
  lookup-put_rows :
      (k : HolderKey) (rows : List (HolderKey × HolderState)) (states : GoMap HolderKey HolderState)
      → IsUnique rows
      → lookup k (put_rows table rows states) ≡ outcome (lookup k rows) false (lookup k states)
  unfolding lookup
  lookup-put_rows k [] states u = refl
  lookup-put_rows k ((j, s) ∷ rows) states u = ground (
    arith,
    lookup-put_rows k rows (insert j s states) u.1,
    lookup-insert j k s states,
    ap (λ i. lookup i rows) {x = j} {y = k},
    holder_key_beq_iff j k,
  )

  lookup-put_rows_selected :
      (k : HolderKey) (seen : Bool) (c : List HolderKey) (rows : List (HolderKey × HolderState))
      (states : GoMap HolderKey HolderState) (t : table.Rows)
      → lookup k states ≡ (if seen then table.row t k else none)
      → table.select c t ≡ ok rows
      → lookup k (put_rows table rows states) ≡ (if seen || member k c then table.row t k else none)
  lookup-put_rows_selected k seen c rows states t h e = ground (
    arith,
    lookup-put_rows k rows states (table.select_unique c t rows e),
    table.select_rows c t rows e k,
  )

  -- What the loading loop holds for a key.
  lookup-load_chunks :
      (k : HolderKey) (seen : Bool) (batches : List (List HolderKey))
      (states states' : GoMap HolderKey HolderState) (t : table.Rows)
      → lookup k states ≡ (if seen then table.row t k else none)
      → load_chunks table batches states t ≡ ok states'
      → lookup k states' ≡ (if seen || in_some k batches then table.row t k else none)
  unfolding load_chunks
  lookup-load_chunks k seen [] states states' t h e = ground arith
  lookup-load_chunks k seen (c ∷ batches) states states' t h e =
      elim (Result-cases (table.select c t)) [
        | inl (rows, q) ↦
            (let rec =
                lookup-load_chunks k (seen || member k c) batches (put_rows table rows states)
                  states' t (lookup-put_rows_selected k seen c rows states t h q)
                  (rw (q, load_chunks) at e) in
              rec
              ∙ ap (λ b. if b then table.row t k else none)
                  (or_assoc seen (member k c) (in_some k batches)))
        | inr (x, q) ↦ absurd (let e' : err x ≡ ok states' = rw (q, load_chunks) at e in cc)
      ]

  -- The touched keys are in memory as they are in the table.
  pub lookup-load :
      (k : HolderKey) (touched : List HolderKey) (states : GoMap HolderKey HolderState)
      (t : table.Rows)
      → load_existing_holder_states table touched t ≡ ok states
      → lookup k states ≡ (if member k touched then table.row t k else none)
  unfolding load_existing_holder_states
  lookup-load k touched states t e =
      lookup-load_chunks k false (chunks (length touched) touched) [] states t
        (unfold lookup in refl) e
      ∙ ap (λ b. if b then table.row t k else none)
          (member-chunks (length touched) k touched (omega arith))

  pub row-delete_key_chunks :
      (k : HolderKey) (batches : List (List HolderKey)) (t t' : table.Rows)
      → delete_key_chunks table batches t ≡ ok t'
      → table.row t' k ≡ (if in_some k batches then none else table.row t k)
  unfolding delete_key_chunks
  row-delete_key_chunks k [] t t' e = let same : t ≡ t' = cc in ap (λ u. table.row u k) (sym same)
  row-delete_key_chunks k (c ∷ batches) t t' e = elim (Result-cases (table.delete_keys c t)) [
    | inl (u, q) ↦
        (let rec = row-delete_key_chunks k batches u t' (rw (q, delete_key_chunks) at e) in
          let here = table.row-delete_keys c t u q k in ground arith)
    | inr (x, q) ↦ absurd (let e' : err x ≡ ok t' = rw (q, delete_key_chunks) at e in cc)
  ]

  pub row-delete_token_chunks :
      (k : HolderKey) (batches : List (List TokenKey)) (t t' : table.Rows)
      → delete_token_chunks table batches t ≡ ok t'
      → table.row t' k ≡ (if in_some (token_of k) batches then none else table.row t k)
  unfolding delete_token_chunks
  row-delete_token_chunks k [] t t' e = let same : t ≡ t' = cc in ap (λ u. table.row u k) (sym same)
  row-delete_token_chunks k (c ∷ batches) t t' e = elim (Result-cases (table.delete_tokens c t)) [
    | inl (u, q) ↦
        (let rec = row-delete_token_chunks k batches u t' (rw (q, delete_token_chunks) at e) in
          let here = table.row-delete_tokens c t u q k in ground arith)
    | inr (x, q) ↦ absurd (let e' : err x ≡ ok t' = rw (q, delete_token_chunks) at e in cc)
  ]

  pub row-upsert_holder_states :
      (k : HolderKey) (states : GoMap HolderKey HolderState) (t t' : table.Rows)
      → upsert_holder_states table states t ≡ ok t'
      → table.row t' k ≡ outcome (lookup k states) false (table.row t k)
  unfolding upsert_holder_states lookup
  row-upsert_holder_states k [] t t' e =
      let same : t ≡ t' = cc in ap (λ u. table.row u k) (sym same)
  row-upsert_holder_states k (r ∷ rows) t t' e =
      ground (arith, table.row-upsert (r ∷ rows) t t' e k)
