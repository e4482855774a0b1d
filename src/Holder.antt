-- ===== src/Holder.antt =====
-- plugins/erc1155_721_holder_v2/state.go: a batch of token operations is applied to the table of
-- holders. The touched ERC-1155 rows are read once, the operations run in memory, and the outcome
-- is written by deletes and one upsert.
--
-- The table is a record `Table`: the SQL statements with what they mean for a row. Token ids are in
-- the canonical form that they are stored in, and amounts are natural numbers (uint256 values).
pub mod Store
pub mod Spec
pub mod Step
pub mod Outcome
pub mod Refines
pub mod Batch
pub mod Touched
use iotex_analyser.Base.{
  ℕ, zero, suc, ◌+◌, ◌-◌, String, Bool, true, false, ◌&&◌, Option, none, some, List, [], ◌∷◌, ◌++◌,
  Result, ok, err, Eq, ◌==◌, string_eq, ltb, nat_beq, if◌then◌else◌, ◌>>=◌, length, take, drop,
}
use iotex_analyser.Base.GoMap.{GoMap, lookup, insert, erase, has, keys}
use iotex_analyser.Holder.Store.{
  HolderKey, TokenKey, HolderState, Table, token_of, holder_key_eq, token_key_eq, HolderError,
  underflow,
}

abbrev pub chunk_size : ℕ
chunk_size = 500

-- `holderOperation`; the type of the operation is the constructor.
pub data OpType : Type 0 where
  erc721_mint erc721_burn erc721_transfer erc1155_mint erc1155_burn erc1155_transfer : OpType

pub record Operation : Type 0 where
  pub op_type : OpType
  pub contract : String
  pub from : String
  pub to : String
  pub token_id : String
  pub erc_type : ℕ
  pub value : ℕ

abbrev pub from_key : Operation → HolderKey
from_key op = record { contract = op.contract; holder = op.from; token_id = op.token_id }

abbrev pub to_key : Operation → HolderKey
to_key op = record { contract = op.contract; holder = op.to; token_id = op.token_id }

abbrev pub token_key : Operation → TokenKey
token_key op = record { contract = op.contract; token_id = op.token_id }

-- `currentStates`, `deleteByKey` and `deleteByToken`.
pub record Work : Type 0 where
  pub states : GoMap HolderKey HolderState
  pub delete_by_key : GoMap HolderKey (Unit {0})
  pub delete_by_token : GoMap TokenKey (Unit {0})

-- `applyPositiveDelta`; a missing state is the zero value.
unfoldable pub apply_positive_delta :
    GoMap HolderKey HolderState → HolderKey → ℕ → ℕ → GoMap HolderKey HolderState
apply_positive_delta states key erc_type value =
    let old : ℕ = elim (lookup key states) [ none ↦ 0 | some state ↦ state.value ] in
    insert key (record { erc_type = erc_type; value = old + value }) states

-- `applyNegativeDelta`
unfoldable pub apply_negative_delta : Work → HolderKey → ℕ → Result HolderError Work
apply_negative_delta w key value = elim (lookup key w.states) [
  | none ↦ ok w
  | some state ↦
      if ltb state.value value
      then err (underflow key state.value value)
      else if nat_beq state.value value
      then ok
          (record w { states = erase key w.states; delete_by_key = insert key tt w.delete_by_key })
      else ok
          (record w { states = insert key (record state { value = state.value - value }) w.states })
]

-- The loop of a burn over `currentStates`.
unfoldable pub erase_token : TokenKey → GoMap HolderKey HolderState → GoMap HolderKey HolderState
erase_token token [] = []
erase_token token ((key, state) ∷ states) =
    let rest = erase_token token states in
    if token == token_of key then rest else (key, state) ∷ rest

abbrev pub one_token : ℕ → HolderState
one_token erc_type = record { erc_type = erc_type; value = 1 }

-- The second half of an ERC-1155 transfer, after the first.
abbrev pub credited : HolderKey → ℕ → ℕ → Result HolderError Work → Result HolderError Work
credited key erc_type value (err e) = err e
credited key erc_type value (ok w) =
    ok (record w { states = apply_positive_delta w.states key erc_type value })

-- One turn of the loop of `applyHolderOperations`.
unfoldable pub apply_by : OpType → Operation → Work → Result HolderError Work
apply_by erc721_mint op w = ok (record w {
  delete_by_token = erase (token_key op) w.delete_by_token;
  states = insert (to_key op) (one_token op.erc_type) w.states;
})
apply_by erc721_burn op w = ok (record w {
  delete_by_token = insert (token_key op) tt w.delete_by_token;
  states = erase_token (token_key op) w.states;
})
apply_by erc721_transfer op w = ok (record {
  delete_by_token = erase (token_key op) w.delete_by_token;
  delete_by_key = insert (from_key op) tt w.delete_by_key;
  states = insert (to_key op) (one_token op.erc_type) (erase (from_key op) w.states);
})
apply_by erc1155_mint op w =
    ok (record w { states = apply_positive_delta w.states (to_key op) op.erc_type op.value })
apply_by erc1155_burn op w = apply_negative_delta w (from_key op) op.value
apply_by erc1155_transfer op w =
    credited (to_key op) op.erc_type op.value (apply_negative_delta w (from_key op) op.value)

unfoldable pub apply_op : Operation → Work → Result HolderError Work
apply_op op w = apply_by op.op_type op w

unfoldable pub apply_ops : List Operation → Work → Result HolderError Work
apply_ops [] w = ok w
apply_ops (op ∷ ops) w = elim (apply_op op w) [ err e ↦ err e | ok w' ↦ apply_ops ops w' ]

-- `keys` and `seen` of `collectTouchedKeys`
abbrev pub Touched : Type 0
Touched = List HolderKey × GoMap HolderKey (Unit {0})

unfoldable pub touch : HolderKey → Touched → Touched
touch key (keys, seen) =
    if has key seen then (keys, seen) else (keys ++ (key ∷ []), insert key tt seen)

unfoldable pub touch_op : OpType → Operation → Touched → Touched
touch_op erc1155_mint op t = touch (to_key op) t
touch_op erc1155_burn op t = touch (from_key op) t
touch_op erc1155_transfer op t = touch (to_key op) (touch (from_key op) t)
touch_op _ op t = t

unfoldable pub touch_ops : List Operation → Touched → Touched
touch_ops [] t = t
touch_ops (op ∷ ops) t = touch_ops ops (touch_op op.op_type op t)

-- `collectTouchedKeys`
unfoldable pub collect_touched_keys : List Operation → List HolderKey
collect_touched_keys ops = (touch_ops ops ([], [])).0

-- The slices `xs[start:end]` of the chunk loops; `fuel` is the length of the list.
unfoldable pub chunks : {A : Type 0} → ℕ → List A → List (List A)
chunks zero xs = []
chunks (suc fuel) [] = []
chunks (suc fuel) (x ∷ xs) = take chunk_size (x ∷ xs) ∷ chunks fuel (drop chunk_size (x ∷ xs))

module _ (table : Table) where
  open table use {Rows, select, delete_keys, delete_tokens, upsert}

  abbrev put_rows :
      List (HolderKey × HolderState) → GoMap HolderKey HolderState → GoMap HolderKey HolderState
  put_rows [] states = states
  put_rows ((key, state) ∷ rows) states = put_rows rows (insert key state states)

  unfoldable pub load_chunks :
      List (List HolderKey)
      → GoMap HolderKey HolderState
      → Rows
      → Result HolderError (GoMap HolderKey HolderState)
  load_chunks [] states t = ok states
  load_chunks (batch ∷ batches) states t = elim (select batch t) [
    | err e ↦ err e
    | ok rows ↦ load_chunks batches (put_rows rows states) t
  ]

  -- `loadExistingHolderStates`
  unfoldable pub load_existing_holder_states :
      List HolderKey → Rows → Result HolderError (GoMap HolderKey HolderState)
  load_existing_holder_states touched t = load_chunks (chunks (length touched) touched) [] t

  unfoldable pub delete_key_chunks : List (List HolderKey) → Rows → Result HolderError Rows
  delete_key_chunks [] t = ok t
  delete_key_chunks (batch ∷ batches) t = elim (delete_keys batch t) [
    | err e ↦ err e
    | ok t' ↦ delete_key_chunks batches t'
  ]

  -- `deleteHoldersByKey`
  unfoldable pub delete_holders_by_key : GoMap HolderKey (Unit {0}) → Rows → Result HolderError Rows
  delete_holders_by_key set t = delete_key_chunks (chunks (length (keys set)) (keys set)) t

  unfoldable pub delete_token_chunks : List (List TokenKey) → Rows → Result HolderError Rows
  delete_token_chunks [] t = ok t
  delete_token_chunks (batch ∷ batches) t = elim (delete_tokens batch t) [
    | err e ↦ err e
    | ok t' ↦ delete_token_chunks batches t'
  ]

  -- `deleteHoldersByToken`
  unfoldable pub delete_holders_by_token :
      GoMap TokenKey (Unit {0}) → Rows → Result HolderError Rows
  delete_holders_by_token set t = delete_token_chunks (chunks (length (keys set)) (keys set)) t

  -- `upsertHolderStates`
  unfoldable pub upsert_holder_states : GoMap HolderKey HolderState → Rows → Result HolderError Rows
  upsert_holder_states [] t = ok t
  upsert_holder_states (row ∷ rows) t = upsert (row ∷ rows) t

  -- What `applyHolderOperations` writes.
  unfoldable pub write_work : Work → Rows → Result HolderError Rows
  write_work w t = do
    t₁ ← delete_holders_by_token w.delete_by_token t
    t₂ ← delete_holders_by_key w.delete_by_key t₁
    upsert_holder_states w.states t₂

  -- `applyHolderOperations`
  unfoldable pub apply_holder_operations : List Operation → Rows → Result HolderError Rows
  apply_holder_operations [] t = ok t
  apply_holder_operations (op ∷ ops) t = do
    states ← load_existing_holder_states (collect_touched_keys (op ∷ ops)) t
    w ← apply_ops (op ∷ ops) (record { states = states; delete_by_key = []; delete_by_token = [] })
    write_work w t
