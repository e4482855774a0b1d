-- ===== src/Examples/Holder.antt =====
-- A table of holders as a function from keys to rows (plugins/erc1155_721_holder_v2/state.go).
use iotex_analyser.Base.{
  ok-injective, ℕ, ◌≡◌, ◌≢◌, refl, String, true, false, ◌||◌, Option, none, some, List, [], ◌∷◌,
  ◌==◌, string_eq, eq_of_beq, Result, ok, err, if◌then◌else◌, arith, Bool-cases, Option-cases, inl,
  inr, ap, ◌∙◌, All, sym, subst,
}
use iotex_analyser.Base.GoMap.{GoMap, lookup, insert, erase, has, lookup-insert}
use iotex_analyser.Holder.Store.{
  HolderKey, HolderState, Table, IsUnique, member, token_of, holder_key_eq, token_key_eq,
  holder_key_beq, token_key_beq, holder_key_beq_iff, HolderError,
}
use iotex_analyser.Holder.{
  load_existing_holder_states, load_chunks, chunks, apply_ops, apply_op, apply_by,
  collect_touched_keys, touch_ops, touch_op, touch, erase_token, apply_positive_delta,
  apply_negative_delta, write_work, delete_holders_by_token, delete_holders_by_key,
  delete_token_chunks, delete_key_chunks, upsert_holder_states, Operation, apply_holder_operations,
  erc1155_mint, erc1155_burn, erc1155_transfer, one_token, OpType, collect_touched_keys,
  load_existing_holder_states, load_chunks, chunks, apply_ops,
}
use iotex_analyser.Holder.Spec.{Ledger, run_ops}
use iotex_analyser.Holder.Refines.{RunsTo, apply_holder_operations-run_ops}
use iotex_analyser.Holder.Step.{TouchedBy}
use iotex_analyser.Holder.Touched.{collect_touched_keys-TouchedBy}
use iotex_analyser.Holder.Outcome.{
  IsReliable, SameEnd, apply_holder_operations-SameEnd, burn_then_mint, key_of,
  burn_then_mint_keeps_row,
}

abbrev pick :
    Option HolderState → HolderKey → GoMap HolderKey HolderState → GoMap HolderKey HolderState
pick none key rows = rows
pick (some state) key rows = insert key state rows

abbrev select_from : List HolderKey → Ledger → GoMap HolderKey HolderState
select_from [] l = []
select_from (key ∷ wanted) l = pick (l key) key (select_from wanted l)

lookup-pick :
    (l : Ledger) (key k : HolderKey) (wanted : List HolderKey)
    → lookup k (select_from wanted l) ≡ (if member k wanted then l k else none)
    → lookup k (pick (l key) key (select_from wanted l))
      ≡ (if key == k || member k wanted then l k else none)
lookup-pick l key k wanted rest = elim (Option-cases (l key)) [
  | inl e ↦ rw e (elim (Bool-cases (key == k)) [
    | inl same ↦
        (let e' : l k ≡ none = ap l (sym (eq_of_beq key k same)) ∙ e in ground (arith, rest))
    | inr other ↦ rw other rest
  ])
  | inr (state, e) ↦ rw e (
      lookup-insert key k state (select_from wanted l) ∙ elim (Bool-cases (key == k)) [
        | inl same ↦
            (let e' : l k ≡ some state = ap l (sym (eq_of_beq key k same)) ∙ e in
              ground (arith, rest))
        | inr other ↦ rw other rest
      ])
]

lookup-select_from :
    (wanted : List HolderKey) (l : Ledger) (k : HolderKey)
    → lookup k (select_from wanted l) ≡ (if member k wanted then l k else none)
unfolding member lookup
lookup-select_from [] l k = refl
lookup-select_from (key ∷ wanted) l k = lookup-pick l key k wanted (lookup-select_from wanted l k)

insert-IsUnique :
    (key : HolderKey) (state : HolderState) (rows : GoMap HolderKey HolderState)
    → IsUnique rows
    → IsUnique (insert key state rows)
unfolding insert lookup
insert-IsUnique key state [] u = (refl, tt)
insert-IsUnique key state ((k, s) ∷ rows) u = elim (Bool-cases (k == key)) [
  | inl e ↦ rw e u
  | inr e ↦ rw e (
    lookup-insert key k state rows
        ∙ ground (arith, holder_key_beq_iff key k, holder_key_beq_iff k key, e, u.0),
    insert-IsUnique key state rows u.1,
  )
]

pick-IsUnique :
    (found : Option HolderState) (key : HolderKey) (rows : GoMap HolderKey HolderState)
    → IsUnique rows
    → IsUnique (pick found key rows)
pick-IsUnique none key rows u = u
pick-IsUnique (some state) key rows u = insert-IsUnique key state rows u

select_from-IsUnique : (wanted : List HolderKey) (l : Ledger) → IsUnique (select_from wanted l)
select_from-IsUnique [] l = tt
select_from-IsUnique (key ∷ wanted) l =
    pick-IsUnique (l key) key (select_from wanted l) (select_from-IsUnique wanted l)

abbrev after_upsert : Option HolderState → Option HolderState → Option HolderState
after_upsert none old = old
after_upsert (some state) old = some state

upserted_lem :
    (found old : Option HolderState)
    → after_upsert found old ≡ elim found [ some state ↦ some state | none ↦ old ]
upserted_lem none old = refl
upserted_lem (some state) old = refl

abbrev holders : Table
holders = record {
  Rows = Ledger;
  row = λ l. l;
  select = λ wanted l. ok (select_from wanted l);
  delete_keys = λ wanted l. ok (λ k. if member k wanted then none else l k);
  delete_tokens = λ tokens l. ok (λ k. if member (token_of k) tokens then none else l k);
  upsert = λ states l. ok (λ k. after_upsert (lookup k states) (l k));
  select_rows =
      λ wanted l rows e k. ap (lookup k) (sym (ok-injective e)) ∙ lookup-select_from wanted l k;
  select_unique =
      λ wanted l rows e. subst IsUnique (ok-injective e) (select_from-IsUnique wanted l);
  row-delete_keys = λ wanted l l' e k. ap (λ f. f k) (sym (ok-injective e));
  row-delete_tokens = λ tokens l l' e k. ap (λ f. f k) (sym (ok-injective e));
  row-upsert = λ states l l' e k.
      ap (λ f. f k) (sym (ok-injective e)) ∙ upserted_lem (lookup k states) (l k);
}

holders_IsReliable : IsReliable holders
holders_IsReliable = record {
  selects = λ wanted l. (_, refl);
  deletes_keys = λ wanted l. (_, refl);
  deletes_tokens = λ tokens l. (_, refl);
  upserts = λ states l. (_, refl);
}

-- `ada` holds five of token 9 and the token 7.
abbrev held : Ledger
held key =
    if holder_key_beq key (key_of "nft" "ada" "9")
    then some (record { erc_type = 1155; value = 5 })
    else if holder_key_beq key (key_of "nft" "ada" "7")
    then some (record { erc_type = 721; value = 1 })
    else none

abbrev op_on : String → String → ℕ → OpType → Operation
op_on from to n op_type = record {
  op_type = op_type;
  contract = "nft";
  from = from;
  to = to;
  token_id = "9";
  erc_type = 1155;
  value = n;
}

-- A transfer of all, a mint and a burn.
abbrev trades : List Operation
trades =
    op_on "ada" "bob" 5 erc1155_transfer
    ∷ op_on "" "ada" 2 erc1155_mint
    ∷ op_on "bob" "" 3 erc1155_burn
    ∷ []

abbrev rows_of : Result HolderError Ledger → Ledger
rows_of (ok l) = l
rows_of (err e) = λ k. none

abbrev after : Ledger → List Operation → Ledger
after l ops = rows_of (apply_holder_operations holders ops l)

trades_run : apply_holder_operations holders trades held ≡ ok (after held trades)
unfolding apply_holder_operations load_existing_holder_states load_chunks chunks apply_ops apply_op
    apply_by collect_touched_keys touch_ops touch_op touch erase_token apply_positive_delta
    apply_negative_delta write_work delete_holders_by_token delete_holders_by_key
    delete_token_chunks delete_key_chunks upsert_holder_states lookup insert erase has member
    holder_key_beq token_key_beq
trades_run = refl

apply_holder_operations-run_ops_example : RunsTo holders (run_ops trades held) (after held trades)
apply_holder_operations-run_ops_example =
    apply_holder_operations-run_ops holders trades held (after held trades) (tt, (tt, (tt, tt)))
      trades_run

apply_holder_operations-SameEnd_example :
    SameEnd holders holders_IsReliable
      (apply_holder_operations holders trades held)
      (run_ops trades held)
apply_holder_operations-SameEnd_example =
    apply_holder_operations-SameEnd holders holders_IsReliable trades held (tt, (tt, (tt, tt)))

abbrev reminted : List Operation
reminted = burn_then_mint "nft" "7" "ada" "bob" 721

reminted_run : apply_holder_operations holders reminted held ≡ ok (after held reminted)
unfolding apply_holder_operations load_existing_holder_states load_chunks chunks apply_ops apply_op
    apply_by collect_touched_keys touch_ops touch_op touch erase_token apply_positive_delta
    apply_negative_delta write_work delete_holders_by_token delete_holders_by_key
    delete_token_chunks delete_key_chunks upsert_holder_states lookup insert erase has member
    holder_key_beq token_key_beq
reminted_run = refl

ada_not_bob : ◌≢◌ {A = String} "ada" "bob"
ada_not_bob h = let same : false ≡ true = (string_eq.beq_iff "ada" "bob").1 h in cc

ada_holds : held (key_of "nft" "ada" "7") ≡ some (record { erc_type = 721; value = 1 })
unfolding holder_key_beq
ada_holds = refl

burn_then_mint_keeps_row_example :
    (after held reminted (key_of "nft" "ada" "7") ≡ some (record { erc_type = 721; value = 1 }))
    × (after held reminted (key_of "nft" "bob" "7") ≡ some (one_token 721))
burn_then_mint_keeps_row_example =
    burn_then_mint_keeps_row holders "nft" "7" "ada" "bob" 721
      (record { erc_type = 721; value = 1 }) held (after held reminted) ada_not_bob ada_holds
      reminted_run

collect_touched_keys-TouchedBy_example :
    All (λ op. TouchedBy (collect_touched_keys trades) op.op_type op) trades
collect_touched_keys-TouchedBy_example = collect_touched_keys-TouchedBy trades
