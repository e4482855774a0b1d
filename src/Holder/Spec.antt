-- ===== src/Holder/Spec.antt =====
-- What one token operation means for the table of holders, as a function from keys to states
-- (plugins/erc1155_721_holder_v2/state.go, one operation at a time).
use iotex_analyser.Base.{
  ℕ, ◌+◌, ◌-◌, ◌≡◌, false, Option, none, some, List, [], ◌∷◌, Result, ok, err, ltb, nat_beq, ◌==◌,
  if◌then◌else◌,
}
use iotex_analyser.Base.GoMap.{GoMap, has, insert}
use iotex_analyser.Holder.Store.{
  HolderKey, TokenKey, HolderState, token_of, holder_key_eq, token_key_eq,
}
use iotex_analyser.Holder.{
  OpType, erc721_mint, erc721_burn, erc721_transfer, erc1155_mint, erc1155_burn, erc1155_transfer,
  Operation, from_key, to_key, token_key, one_token, HolderError, underflow,
}

abbrev pub Ledger : Type 0
Ledger = HolderKey → Option HolderState

unfoldable pub put : HolderKey → Option HolderState → Ledger → Ledger
put key state l k = if key == k then state else l k

unfoldable pub clear_token : TokenKey → Ledger → Ledger
clear_token token l k = if token == token_of k then none else l k

abbrev pub amount : Option HolderState → ℕ
amount none = 0
amount (some state) = state.value

unfoldable pub credit : HolderKey → ℕ → ℕ → Ledger → Ledger
credit key erc_type value l =
    put key (some (record { erc_type = erc_type; value = amount (l key) + value })) l

abbrev pub debit_from : Option HolderState → HolderKey → ℕ → Ledger → Result HolderError Ledger
debit_from none key value l = ok l
debit_from (some state) key value l =
    if ltb state.value value
    then err (underflow key state.value value)
    else if nat_beq state.value value
    then ok (put key none l)
    else ok (put key (some (record state { value = state.value - value })) l)

unfoldable pub debit : HolderKey → ℕ → Ledger → Result HolderError Ledger
debit key value l = debit_from (l key) key value l

unfoldable pub run_by : OpType → Operation → Ledger → Result HolderError Ledger
run_by erc721_mint op l = ok (put (to_key op) (some (one_token op.erc_type)) l)
run_by erc721_burn op l = ok (clear_token (token_key op) l)
run_by erc721_transfer op l =
    ok (put (to_key op) (some (one_token op.erc_type)) (put (from_key op) none l))
run_by erc1155_mint op l = ok (credit (to_key op) op.erc_type op.value l)
run_by erc1155_burn op l = debit (from_key op) op.value l
run_by erc1155_transfer op l = elim (debit (from_key op) op.value l) [
  | err e ↦ err e
  | ok l' ↦ ok (credit (to_key op) op.erc_type op.value l')
]

unfoldable pub run_ops : List Operation → Ledger → Result HolderError Ledger
run_ops [] l = ok l
run_ops (op ∷ ops) l = elim (run_by op.op_type op l) [ err e ↦ err e | ok l' ↦ run_ops ops l' ]

-- The tokens that are burned once `op` is done.
abbrev pub burned_by : OpType → Operation → GoMap TokenKey (Unit {0}) → GoMap TokenKey (Unit {0})
burned_by erc721_burn op burned = insert (token_key op) tt burned
burned_by _ op burned = burned

abbrev pub FreshAt : OpType → Operation → GoMap TokenKey (Unit {0}) → Type 0
FreshAt erc721_mint op burned = has (token_key op) burned ≡ false
FreshAt erc721_transfer op burned = has (token_key op) burned ≡ false
FreshAt _ op burned = Unit

-- No ERC-721 token is minted or transferred after a burn of it in the same batch.
abbrev pub IsFresh : List Operation → GoMap TokenKey (Unit {0}) → Type 0
IsFresh [] burned = Unit
IsFresh (op ∷ ops) burned =
    FreshAt op.op_type op burned × IsFresh ops (burned_by op.op_type op burned)
