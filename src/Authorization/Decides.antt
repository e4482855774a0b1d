-- ===== src/Authorization/Decides.antt =====
-- The verdict on an authorization from the state of its authority (kernel/authorization_validity.go).
use iotex_analyser.Base.{
  ℕ, zero, suc, ◌≤◌, ◌↔◌, ◌⊎◌, ◌++◌, nat_beq_iff, ◌+◌, ◌<◌, ◌%◌, ◌^◌, ◌≡◌, refl, String, Bool, true,
  false, ◌&&◌, Option, none, some, List, [], ◌∷◌, Result, ok, err, nat_beq, Bool-cases, inl, inr,
  arith,
}
use iotex_analyser.Authorization.{
  Archive, has_prefix, delegation_designator_prefix, validity_max_retries, is_cancelled, attempts,
  get_code_at_with_retry, get_nonce_at_with_retry, is_other_code, is_other_chain, pre_block_num,
  compute_authorization_validity,
}

-- Attempt `n`, of those from `start` on, is the first that is answered, and the context is not done
-- before it.
pub data AnswersAt {A : Type 0} (cancelled : ℕ → Option String) (ask : ℕ → Result String A) (a : A)
    : ℕ → ℕ → Type 0 where
  now :
      {start : ℕ}
      → is_cancelled cancelled start ≡ none
      → ask start ≡ ok a
      → AnswersAt cancelled ask a start start
  later :
      {start n : ℕ} {e : String}
      → is_cancelled cancelled start ≡ none
      → ask start ≡ err e
      → AnswersAt cancelled ask a (start + 1) n
      → AnswersAt cancelled ask a start n

and_true : (a b : Bool) → (a && b) ≡ true → (a ≡ true) × (b ≡ true)
and_true true b h = (refl, h)
and_true false b h = absurd cc

AnswersAt-le :
    {A : Type 0} (cancelled : ℕ → Option String) (ask : ℕ → Result String A) (a : A) (start n : ℕ)
    → AnswersAt cancelled ask a start n
    → start ≤ n
AnswersAt-le cancelled ask a start n (now free answer) = omega arith
AnswersAt-le cancelled ask a start n (later free failed rest) =
    omega (arith, AnswersAt-le cancelled ask a (start + 1) n rest)

-- Among enough attempts, the loop ends with the first answer.
attempts-AnswersAt :
    {A : Type 0} (cancelled : ℕ → Option String) (ask : ℕ → Result String A) (a : A)
    (left start n : ℕ) (last_err : String)
    → AnswersAt cancelled ask a start n
    → n < start + left
    → attempts cancelled ask left start last_err ≡ ok a
unfolding attempts
attempts-AnswersAt cancelled ask a zero start n m h k =
    absurd (omega (arith, AnswersAt-le cancelled ask a start n h, k))
attempts-AnswersAt cancelled ask a (suc left) start n m (now free answer) k =
    rw (free, attempts, answer) refl
attempts-AnswersAt cancelled ask a (suc left) start n m (later {e = e} free failed rest) k =
    rw (free, attempts, failed)
      (attempts-AnswersAt cancelled ask a left (start + 1) n e rest (omega (arith, k)))

has_prefix_iff :
    (bs ps : List ℕ) → (has_prefix bs ps ≡ true) ↔ ((rest : List ℕ) × (bs ≡ ps ++ rest))
unfolding has_prefix
has_prefix_iff bs [] = ((λ h. (bs, refl)), (λ h. refl))
has_prefix_iff [] (p ∷ ps) = ((λ h. absurd cc), (λ h. absurd (let e = h.1 in cc)))
has_prefix_iff (b ∷ bs) (p ∷ ps) = (
  (λ h.
      let (same, more) = and_true (nat_beq b p) (has_prefix bs ps) h in
      let (rest, e) = (has_prefix_iff bs ps).0 more in
      (rest, (let e₀ = (nat_beq_iff b p).0 same in cc))),
  (λ h.
      let (rest, e) = h in
      let head : b ≡ p = cc in
      let tail : bs ≡ ps ++ rest = cc in
      let e₀ = (nat_beq_iff b p).1 head in
      let e₁ = (has_prefix_iff bs ps).1 (rest, tail) in rw (e₀, e₁) refl),
)

-- No chain id, the id 0, or one that has the network's id in its low 64 bits.
abbrev pub IsOurChain : ℕ → Option ℕ → Type 0
IsOurChain network none = Unit
IsOurChain network (some id) = (id ≡ 0) ⊎ (id % 2 ^ 64 ≡ network)

-- No code, or a delegation designator.
abbrev pub IsDelegable : List ℕ → Type 0
IsDelegable code = (code ≡ []) ⊎ ((rest : List ℕ) × (code ≡ delegation_designator_prefix ++ rest))

-- The three rules.
pub record Accepts (network : ℕ) (chain_id : Option ℕ) (code : List ℕ) (nonce auth_nonce : ℕ)
    : Type 0 where
  pub is_our_chain : IsOurChain network chain_id
  pub is_delegable : IsDelegable code
  pub is_next_nonce : nonce ≡ auth_nonce

is_other_chain-IsOurChain :
    (network : ℕ) (id : Option ℕ) → (is_other_chain network id ≡ false) ↔ IsOurChain network id
is_other_chain-IsOurChain network none = ((λ h. tt), (λ h. refl))
is_other_chain-IsOurChain network (some id) =
    ground (arith, nat_beq_iff id 0, nat_beq_iff (id % 2 ^ 64) network)

is_other_code-IsDelegable : (code : List ℕ) → (is_other_code code ≡ false) ↔ IsDelegable code
is_other_code-IsDelegable [] = ((λ h. inl refl), (λ h. refl))
is_other_code-IsDelegable (b ∷ bs) =
    elim (Bool-cases (has_prefix (b ∷ bs) delegation_designator_prefix)) [
      | inl e ↦ (
        (λ h. inr ((has_prefix_iff (b ∷ bs) delegation_designator_prefix).0 e)),
        (λ h. rw e refl),
      )
      | inr e ↦ (
        (λ h. absurd (let bad = rw e at h in cc)),
        (λ h. elim h [
          | inl none_left ↦ absurd cc
          | inr found ↦
              absurd
                (let yes = (has_prefix_iff (b ∷ bs) delegation_designator_prefix).1 found in cc)
        ]),
      )
    ]

module _ (archive : Archive) (network block_height : ℕ) (chain_id : Option ℕ) (auth_nonce : ℕ)
    (code : List ℕ) (nonce i j : ℕ) where
  -- When the archive node is connected and answers the code and the nonce of the authority each
  -- within the first three attempts, with the context not done before, the verdict is given, and it
  -- is true exactly when the chain id is absent, is 0 or has the network's id in its low 64 bits,
  -- the code is empty or begins as a delegation designator, and the nonce is that of the
  -- authorization.
  pub compute_authorization_validity-Accepts :
      archive.connected ≡ ok tt
      → AnswersAt archive.cancelled (archive.code_at (pre_block_num block_height)) code 0 i
      → i < validity_max_retries
      → AnswersAt archive.cancelled (archive.nonce_at (pre_block_num block_height)) nonce 0 j
      → j < validity_max_retries
      → (valid : Bool) × (compute_authorization_validity archive network block_height chain_id
            auth_nonce
          ≡ ok valid)
        × ((valid ≡ true) ↔ Accepts network chain_id code nonce auth_nonce)
  unfolding compute_authorization_validity get_code_at_with_retry get_nonce_at_with_retry
  compute_authorization_validity-Accepts up got_code few_codes got_nonce few_nonces =
      let asked_code =
        attempts-AnswersAt archive.cancelled (archive.code_at (pre_block_num block_height)) code
          validity_max_retries 0 i "" got_code (omega (arith, few_codes)) in
      let asked_nonce =
        attempts-AnswersAt archive.cancelled (archive.nonce_at (pre_block_num block_height)) nonce
          validity_max_retries 0 j "" got_nonce (omega (arith, few_nonces)) in
      elim (Bool-cases (is_other_chain network chain_id)) [
        | inl other ↦ (
          false,
          rw other refl,
          (
            (λ h. absurd cc),
            (λ a.
                absurd
                  (let ours = (is_other_chain-IsOurChain network chain_id).1 a.is_our_chain in cc)),
          ),
        )
        | inr ours ↦ elim (Bool-cases (is_other_code code)) [
          | inl other ↦ (
            false,
            rw (ours, up, asked_code, other) refl,
            (
              (λ h. absurd cc),
              (λ a. absurd (let fine = (is_other_code-IsDelegable code).1 a.is_delegable in cc)),
            ),
          )
          | inr fine ↦ (
            nat_beq nonce auth_nonce,
            rw (ours, up, asked_code, fine, asked_nonce) refl,
            (
              (λ h. record {
                is_our_chain = (is_other_chain-IsOurChain network chain_id).0 ours;
                is_delegable = (is_other_code-IsDelegable code).0 fine;
                is_next_nonce = (nat_beq_iff nonce auth_nonce).0 h;
              }),
              (λ a. (nat_beq_iff nonce auth_nonce).1 a.is_next_nonce),
            ),
          )
        ]
      ]
