-- ===== src/Authorization.antt =====
-- kernel/authorization_validity.go: whether the chain would have accepted an EIP-7702 authorization.
--
-- The archive node is a record `Archive`: what it answers depends on the block and on the attempt,
-- and `cancelled` is the context before the attempt. Code is a list of bytes; the chain id is a
-- uint256, and `none` is a nil pointer. Delays and logging are left out.
pub mod Decides
use iotex_analyser.Base.{
  ℕ, zero, suc, ◌+◌, ◌-◌, ◌%◌, ◌^◌, String, Bool, true, false, not, ◌&&◌, ◌||◌, Option, none, some,
  List, [], ◌∷◌, Result, ok, err, ◌>>=◌, nat_beq, if◌then◌else◌,
}

abbrev pub validity_max_retries : ℕ
validity_max_retries = 3

-- The authority's state at a block, `none` for the latest, by attempt.
pub record Archive : Type 0 where
  pub connected : Result String (Unit {0})
  pub code_at : Option ℕ → ℕ → Result String (List ℕ)
  pub nonce_at : Option ℕ → ℕ → Result String ℕ
  pub cancelled : ℕ → Option String

-- `bytes.HasPrefix`
unfoldable pub has_prefix : List ℕ → List ℕ → Bool
has_prefix bs [] = true
has_prefix [] (p ∷ ps) = false
has_prefix (b ∷ bs) (p ∷ ps) = nat_beq b p && has_prefix bs ps

abbrev pub delegation_designator_prefix : List ℕ
delegation_designator_prefix = 239 ∷ 1 ∷ 0 ∷ []

abbrev pub is_cancelled : (ℕ → Option String) → ℕ → Option String
is_cancelled cancelled zero = none
is_cancelled cancelled (suc n) = cancelled (suc n)

-- The loop over the attempts, with `left` of them to go.
unfoldable pub attempts :
    {A : Type 0} → (ℕ → Option String) → (ℕ → Result String A) → ℕ → ℕ → String → Result String A
attempts cancelled ask zero attempt last_err = err last_err
attempts cancelled ask (suc left) attempt last_err = elim (is_cancelled cancelled attempt) [
  | some e ↦ err e
  | none ↦ elim (ask attempt) [ ok a ↦ ok a | err e ↦ attempts cancelled ask left (attempt + 1) e ]
]

-- The test of the second rule.
abbrev pub is_other_code : List ℕ → Bool
is_other_code [] = false
is_other_code (b ∷ bs) = not (has_prefix (b ∷ bs) delegation_designator_prefix)

-- The test of the first rule; `Uint64` keeps the low 64 bits.
abbrev pub is_other_chain : ℕ → Option ℕ → Bool
is_other_chain network none = false
is_other_chain network (some id) = not (nat_beq id 0) && not (nat_beq (id % 2 ^ 64) network)

abbrev pub pre_block_num : ℕ → Option ℕ
pre_block_num zero = none
pre_block_num (suc n) = some n

module _ (archive : Archive) where
  open archive use {connected, code_at, nonce_at, cancelled}

  -- `getCodeAtWithRetry`
  unfoldable pub get_code_at_with_retry : Option ℕ → Result String (List ℕ)
  get_code_at_with_retry block_num = do
    client ← connected
    attempts cancelled (code_at block_num) validity_max_retries 0 ""

  -- `getNonceAtWithRetry`
  unfoldable pub get_nonce_at_with_retry : Option ℕ → Result String ℕ
  get_nonce_at_with_retry block_num = do
    client ← connected
    attempts cancelled (nonce_at block_num) validity_max_retries 0 ""

  -- The third rule, and the second.
  abbrev pub check_nonce : Option ℕ → ℕ → Result String Bool
  check_nonce block_num auth_nonce = do
    nonce ← get_nonce_at_with_retry block_num
    ok (nat_beq nonce auth_nonce)

  abbrev pub check_code : Option ℕ → ℕ → Result String Bool
  check_code block_num auth_nonce = do
    code ← get_code_at_with_retry block_num
    if is_other_code code then ok false else check_nonce block_num auth_nonce

  -- `ComputeAuthorizationValidity`
  unfoldable pub compute_authorization_validity : ℕ → ℕ → Option ℕ → ℕ → Result String Bool
  compute_authorization_validity network block_height chain_id auth_nonce =
      if is_other_chain network chain_id
      then ok false
      else check_code (pre_block_num block_height) auth_nonce
