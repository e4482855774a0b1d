-- ===== src/Holder/Step.antt =====
-- One operation on the maps of a batch against one operation on the table of holders
-- (plugins/erc1155_721_holder_v2/state.go).
use iotex_analyser.Base.{
  ℕ, ◌+◌, ◌-◌, ◌≡◌, refl, inl, inr, Bool, true, false, ◌||◌, Option, none, some, List, [], ◌∷◌,
  Result, ok, err, ltb, nat_beq, ◌==◌, if◌then◌else◌, arith, Bool-cases, Option-cases, eq_of_beq,
  beq_refl,
}
use iotex_analyser.Base.GoMap.{
  GoMap, has, insert, erase, lookup, lookup-insert, lookup-erase, has-insert, has-erase,
}
use iotex_analyser.Holder.Store.{
  HolderKey, TokenKey, HolderState, token_of, holder_key_eq, token_key_eq, token_key_beq_iff,
  member,
}
use iotex_analyser.Holder.{
  OpType, erc721_mint, erc721_burn, erc721_transfer, erc1155_mint, erc1155_burn, erc1155_transfer,
  Operation, from_key, to_key, token_key, one_token, Work, apply_positive_delta,
  apply_negative_delta, erase_token, apply_by, credited, HolderError,
}
use iotex_analyser.Holder.Spec.{Ledger, put, clear_token, credit, debit, run_by, burned_by, FreshAt}

-- What will be written for the key `k`, where the table holds `before`.
abbrev pub outcome : Option HolderState → Bool → Option HolderState → Option HolderState
outcome (some state) gone before = some state
outcome none true before = none
outcome none false before = before

unfoldable pub view : Work → Ledger → HolderKey → Option HolderState
view w before k =
    outcome (lookup k w.states) (has k w.delete_by_key || has (token_of k) w.delete_by_token)
      (before k)

lookup-erase_token :
    (token : TokenKey) (k : HolderKey) (states : GoMap HolderKey HolderState)
    → lookup k (erase_token token states) ≡ (if token == token_of k then none else lookup k states)
unfolding erase_token lookup
lookup-erase_token token k [] = ground arith
lookup-erase_token token k ((j, s) ∷ states) = elim (Bool-cases (j == k)) [
  | inl e ↦ rw (eq_of_beq j k e) (ground (arith, lookup-erase_token token k states, beq_refl k))
  | inr e ↦ ground (arith, lookup-erase_token token k states, e)
]

-- The batch so far against the ledger so far: they agree on every key, and what is not in memory of
-- the keys that were loaded is not in the ledger.
pub record Related (touched : List HolderKey) (before : Ledger) (burned : GoMap TokenKey (Unit {0}))
    (w : Work) (l : Ledger) : Type 0 where
  pub same : (k : HolderKey) → view w before k ≡ l k
  pub loaded : (k : HolderKey) → member k touched ≡ true → lookup k w.states ≡ none → l k ≡ none
  pub dead : (token : TokenKey) → has token w.delete_by_token ≡ has token burned

module _ (touched : List HolderKey) (before : Ledger) (burned : GoMap TokenKey (Unit {0})) where
  mint-Related :
      (op : Operation) (w : Work) (l : Ledger)
      → has (token_key op) burned ≡ false
      → Related touched before burned w l
      → Related touched before burned
          (record w {
            delete_by_token = erase (token_key op) w.delete_by_token;
            states = insert (to_key op) (one_token op.erc_type) w.states;
          })
          (put (to_key op) (some (one_token op.erc_type)) l)
  unfolding view put
  mint-Related op w l fresh r = record {
    same = λ k. ground (
      arith,
      r.same k,
      r.dead (token_of k),
      lookup-insert (to_key op) k (one_token op.erc_type) w.states,
      has-erase (token_key op) (token_of k) w.delete_by_token,
      token_key_beq_iff (token_key op) (token_of k),
      r.dead (token_key op),
    );
    loaded = λ k m e.
        ground (arith, r.loaded k m, lookup-insert (to_key op) k (one_token op.erc_type) w.states);
    dead = λ t. ground (
      arith,
      r.dead t,
      has-erase (token_key op) t w.delete_by_token,
      token_key_beq_iff (token_key op) t,
    );
  }

  burn-Related :
      (op : Operation) (w : Work) (l : Ledger)
      → Related touched before burned w l
      → Related touched before
          (insert (token_key op) tt burned)
          (record w {
            delete_by_token = insert (token_key op) tt w.delete_by_token;
            states = erase_token (token_key op) w.states;
          })
          (clear_token (token_key op) l)
  unfolding view clear_token
  burn-Related op w l r = record {
    same = λ k. ground (
      arith,
      r.same k,
      lookup-erase_token (token_key op) k w.states,
      has-insert (token_key op) (token_of k) tt w.delete_by_token,
    );
    loaded = λ k m e. ground (arith, r.loaded k m, lookup-erase_token (token_key op) k w.states);
    dead = λ t. ground (
      arith,
      r.dead t,
      has-insert (token_key op) t tt w.delete_by_token,
      has-insert (token_key op) t tt burned,
    );
  }

  -- The source of a transfer is removed.
  remove-Related :
      (key : HolderKey) (w : Work) (l : Ledger)
      → Related touched before burned w l
      → Related touched before burned
          (record w { states = erase key w.states; delete_by_key = insert key tt w.delete_by_key })
          (put key none l)
  unfolding view put
  remove-Related key w l r = record {
    same = λ k.
        ground (arith, r.same k, lookup-erase key k w.states, has-insert key k tt w.delete_by_key);
    loaded = λ k m e. ground (arith, r.loaded k m, lookup-erase key k w.states);
    dead = r.dead;
  }

  -- A state is written.
  write-Related :
      (key : HolderKey) (state : HolderState) (w : Work) (l : Ledger)
      → Related touched before burned w l
      → Related touched before burned
          (record w { states = insert key state w.states })
          (put key (some state) l)
  unfolding view put
  write-Related key state w l r = record {
    same = λ k. ground (arith, r.same k, lookup-insert key k state w.states);
    loaded = λ k m e. ground (arith, r.loaded k m, lookup-insert key k state w.states);
    dead = r.dead;
  }

  -- What a touched key holds in memory is what the ledger holds.
  lookup-touched :
      (key : HolderKey) (w : Work) (l : Ledger)
      → member key touched ≡ true
      → Related touched before burned w l
      → lookup key w.states ≡ l key
  unfolding view
  lookup-touched key w l m r = ground (arith, r.same key, r.loaded key m)

  credit-Related :
      (key : HolderKey) (erc_type value : ℕ) (w : Work) (l : Ledger)
      → member key touched ≡ true
      → Related touched before burned w l
      → Related touched before burned
          (record w { states = apply_positive_delta w.states key erc_type value })
          (credit key erc_type value l)
  unfolding apply_positive_delta credit
  credit-Related key erc_type value w l m r = elim (Option-cases (l key)) [
    | inl e ↦
        rw (lookup-touched key w l m r, e)
          (write-Related key (record { erc_type = erc_type; value = 0 + value }) w l r)
    | inr (s, e) ↦
        rw (lookup-touched key w l m r, e)
          (write-Related key (record { erc_type = erc_type; value = s.value + value }) w l r)
  ]

  -- Two outcomes of an operation: both fail, or both succeed and are related.
  abbrev pub Agree : Result HolderError Work → Result HolderError Ledger → Type 0
  Agree (ok w) (ok l) = Related touched before burned w l
  Agree (err e) (err f) = e ≡ f
  Agree (ok w) (err f) = ⊥
  Agree (err e) (ok l) = ⊥

  debit-Agree :
      (key : HolderKey) (value : ℕ) (w : Work) (l : Ledger)
      → member key touched ≡ true
      → Related touched before burned w l
      → Agree (apply_negative_delta w key value) (debit key value l)
  unfolding apply_negative_delta debit
  debit-Agree key value w l m r = elim (Option-cases (l key)) [
    | inl e ↦ rw (lookup-touched key w l m r, apply_negative_delta, e) r
    | inr (s, e) ↦ elim (Bool-cases (ltb s.value value)) [
      | inl low ↦ rw (lookup-touched key w l m r, apply_negative_delta, e, low) refl
      | inr enough ↦ elim (Bool-cases (nat_beq s.value value)) [
        | inl all ↦
            rw (lookup-touched key w l m r, apply_negative_delta, e, enough, all)
              (remove-Related key w l r)
        | inr part ↦
            rw (lookup-touched key w l m r, apply_negative_delta, e, enough, part)
              (write-Related key (record s { value = s.value - value }) w l r)
      ]
    ]
  ]

-- The keys that an operation reads are among those that were loaded.
abbrev pub TouchedBy : List HolderKey → OpType → Operation → Type 0
TouchedBy touched erc1155_mint op = member (to_key op) touched ≡ true
TouchedBy touched erc1155_burn op = member (from_key op) touched ≡ true
TouchedBy touched erc1155_transfer op =
    (member (from_key op) touched ≡ true) × (member (to_key op) touched ≡ true)
TouchedBy touched _ op = Unit

module _ (touched : List HolderKey) (before : Ledger) (burned : GoMap TokenKey (Unit {0})) where
  transfer-Related :
      (op : Operation) (w : Work) (l : Ledger)
      → has (token_key op) burned ≡ false
      → Related touched before burned w l
      → Related touched before burned
          (record {
            delete_by_token = erase (token_key op) w.delete_by_token;
            delete_by_key = insert (from_key op) tt w.delete_by_key;
            states = insert (to_key op) (one_token op.erc_type) (erase (from_key op) w.states);
          })
          (put (to_key op) (some (one_token op.erc_type)) (put (from_key op) none l))
  transfer-Related op w l fresh r =
      mint-Related touched before burned op _ _ fresh
        (remove-Related touched before burned (from_key op) w l r)

  credit-Agree :
      (key : HolderKey) (erc_type value : ℕ) (r : Result HolderError Work)
      (s : Result HolderError Ledger)
      → member key touched ≡ true
      → Agree touched before burned r s
      → Agree touched before burned
          (credited key erc_type value r)
          (elim s [ err e ↦ err e | ok l ↦ ok (credit key erc_type value l) ])
  credit-Agree key erc_type value (ok w) (ok l) m r =
      credit-Related touched before burned key erc_type value w l m r
  credit-Agree key erc_type value (err e) (err f) m r = r
  credit-Agree key erc_type value (ok w) (err f) m r = elim r [ ]
  credit-Agree key erc_type value (err e) (ok l) m r = elim r [ ]

  -- One operation on the maps of the batch does what it does to the ledger.
  pub apply_by-Agree :
      (op_type : OpType) (op : Operation) (w : Work) (l : Ledger)
      → TouchedBy touched op_type op
      → FreshAt op_type op burned
      → Related touched before burned w l
      → Agree touched before
          (burned_by op_type op burned)
          (apply_by op_type op w)
          (run_by op_type op l)
  unfolding apply_by run_by
  apply_by-Agree erc721_mint op w l t f r = mint-Related touched before burned op w l f r
  apply_by-Agree erc721_burn op w l t f r = burn-Related touched before burned op w l r
  apply_by-Agree erc721_transfer op w l t f r = transfer-Related op w l f r
  apply_by-Agree erc1155_mint op w l t f r =
      credit-Related touched before burned (to_key op) op.erc_type op.value w l t r
  apply_by-Agree erc1155_burn op w l t f r =
      debit-Agree touched before burned (from_key op) op.value w l t r
  apply_by-Agree erc1155_transfer op w l t f r =
      credit-Agree (to_key op) op.erc_type op.value _ _ t.1
        (debit-Agree touched before burned (from_key op) op.value w l t.0 r)
