-- ===== src/Holder/Store.antt =====
-- The table of token holders and its keys (plugins/erc1155_721_holder_v2/state.go). The statements
-- are PostgreSQL's; a statement fails or does what its law says of every row.
use iotex_analyser.Base.{
  ℕ, ◌≡◌, ◌↔◌, String, Bool, true, false, ◌&&◌, ◌||◌, Option, none, some, List, [], ◌∷◌, Result, ok,
  arith, Eq, ◌==◌, string_eq, if◌then◌else◌,
}
use iotex_analyser.Base.GoMap.{GoMap, lookup}
use text.Mathlib.TextEquality.{eq_iff}

-- `holderKey`
pub record HolderKey : Type 0 where
  pub contract : String
  pub holder : String
  pub token_id : String

-- `holderTokenKey`
pub record TokenKey : Type 0 where
  pub contract : String
  pub token_id : String

-- `holderState`
pub record HolderState : Type 0 where
  pub erc_type : ℕ
  pub value : ℕ

abbrev pub token_of : HolderKey → TokenKey
token_of key = record { contract = key.contract; token_id = key.token_id }

unfoldable pub holder_key_beq : HolderKey → HolderKey → Bool
holder_key_beq a b = a.contract == b.contract && (a.holder == b.holder && a.token_id == b.token_id)

pub holder_key_beq_iff : (a b : HolderKey) → (holder_key_beq a b ≡ true) ↔ (a ≡ b)
unfolding holder_key_beq
holder_key_beq_iff a b =
    ground
      (arith, eq_iff a.contract b.contract, eq_iff a.holder b.holder, eq_iff a.token_id b.token_id)

unfoldable pub token_key_beq : TokenKey → TokenKey → Bool
token_key_beq a b = a.contract == b.contract && a.token_id == b.token_id

pub token_key_beq_iff : (a b : TokenKey) → (token_key_beq a b ≡ true) ↔ (a ≡ b)
unfolding token_key_beq
token_key_beq_iff a b = ground (arith, eq_iff a.contract b.contract, eq_iff a.token_id b.token_id)

instance abbrev pub holder_key_eq : Eq HolderKey
holder_key_eq = record { beq = holder_key_beq; beq_iff = holder_key_beq_iff }

instance abbrev pub token_key_eq : Eq TokenKey
token_key_eq = record { beq = token_key_beq; beq_iff = token_key_beq_iff }

module _ {A : Type 0} ⦃eq : Eq A⦄ where
  -- `x IN (xs)`
  unfoldable pub member : A → List A → Bool
  member x [] = false
  member x (y ∷ ys) = y == x || member x ys

-- No key stands in two rows: the three columns are the table's key.
abbrev pub IsUnique : List (HolderKey × HolderState) → Type 0
IsUnique [] = Unit
IsUnique ((k, state) ∷ rows) = (lookup k rows ≡ none) × IsUnique rows

-- The error of `applyNegativeDelta`, with what its message names: the row, the amount that it holds
-- and the amount that is taken. Any other error is one of a statement.
pub data HolderError : Type 0 where
  underflow : HolderKey → ℕ → ℕ → HolderError
  statement_failed : String → HolderError

pub record Table : Type 1 where
  pub Rows : Type 0
  pub row : Rows → HolderKey → Option HolderState
  -- SELECT … WHERE (contract_address, holder, token_id) IN keys
  pub select : List HolderKey → Rows → Result HolderError (List (HolderKey × HolderState))
  -- DELETE … WHERE (contract_address, holder, token_id) IN keys
  pub delete_keys : List HolderKey → Rows → Result HolderError Rows
  -- DELETE … WHERE (contract_address, token_id) IN tokens
  pub delete_tokens : List TokenKey → Rows → Result HolderError Rows
  -- INSERT … ON CONFLICT (contract_address, holder, token_id) DO UPDATE
  pub upsert : GoMap HolderKey HolderState → Rows → Result HolderError Rows
  pub select_rows :
      (keys : List HolderKey) (t : Rows) (rows : List (HolderKey × HolderState))
      → select keys t ≡ ok rows
      → (k : HolderKey) → lookup k rows ≡ (if member k keys then row t k else none)
  pub select_unique :
      (keys : List HolderKey) (t : Rows) (rows : List (HolderKey × HolderState))
      → select keys t ≡ ok rows
      → IsUnique rows
  pub row-delete_keys :
      (keys : List HolderKey) (t t' : Rows)
      → delete_keys keys t ≡ ok t'
      → (k : HolderKey) → row t' k ≡ (if member k keys then none else row t k)
  pub row-delete_tokens :
      (tokens : List TokenKey) (t t' : Rows)
      → delete_tokens tokens t ≡ ok t'
      → (k : HolderKey) → row t' k ≡ (if member (token_of k) tokens then none else row t k)
  pub row-upsert :
      (states : GoMap HolderKey HolderState) (t t' : Rows)
      → upsert states t ≡ ok t'
      → (k : HolderKey)
      → row t' k ≡ elim (lookup k states) [ some state ↦ some state | none ↦ row t k ]
