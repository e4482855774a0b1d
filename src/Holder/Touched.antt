-- ===== src/Holder/Touched.antt =====
-- `collectTouchedKeys` names every key whose balance an ERC-1155 operation of the batch reads, and
-- the chunk loops miss no key (plugins/erc1155_721_holder_v2/state.go).
use iotex_analyser.Base.{
  ℕ, zero, suc, ◌≤◌, ◌≡◌, refl, sym, ap, ◌∙◌, inl, inr, Bool, true, false, ◌||◌, List, [], ◌∷◌,
  ◌++◌, Eq, beq_refl, arith, Bool-cases, All, length, take, drop, take-append-drop, length-drop-le,
}
use iotex_analyser.Base.GoMap.{GoMap, has, has-insert, lookup, keys}
use iotex_analyser.Holder.Store.{HolderKey, holder_key_eq, member}
use iotex_analyser.Holder.{
  OpType, erc721_mint, erc721_burn, erc721_transfer, erc1155_mint, erc1155_burn, erc1155_transfer,
  Operation, from_key, to_key, Touched, touch, touch_op, touch_ops, collect_touched_keys, chunks,
  chunk_size,
}
use iotex_analyser.Holder.Step.{TouchedBy}

module _ {A : Type 0} ⦃eq : Eq A⦄ where
  pub member-append : (x : A) (xs ys : List A) → member x (xs ++ ys) ≡ (member x xs || member x ys)
  unfolding member
  member-append x [] ys = refl
  member-append x (y ∷ xs) ys = ground (arith, member-append x xs ys)

  -- Every element of `xs` is in one of the chunks, and the other way round.
  abbrev pub in_some : A → List (List A) → Bool
  in_some x [] = false
  in_some x (c ∷ cs) = member x c || in_some x cs

  pub member-chunks :
      (fuel : ℕ) (x : A) (xs : List A) → length xs ≤ fuel → in_some x (chunks fuel xs) ≡ member x xs
  unfolding chunks member
  member-chunks zero x [] h = refl
  member-chunks zero x (y ∷ xs) h = elim h [ ]
  member-chunks (suc fuel) x [] h = refl
  member-chunks (suc fuel) x (y ∷ xs) h =
      let rest = drop chunk_size (y ∷ xs) in
      let shorter : length rest ≤ fuel = omega (arith, length-drop-le 499 xs) in
      ap (λ b. member x (take chunk_size (y ∷ xs)) || b) (member-chunks fuel x rest shorter)
      ∙ sym (member-append x (take chunk_size (y ∷ xs)) rest)
      ∙ ap (member x) (take-append-drop chunk_size (y ∷ xs))

module _ {A B : Type 0} ⦃eq : Eq A⦄ where
  pub member-keys : (x : A) (m : GoMap A B) → member x (keys m) ≡ has x m
  unfolding member has lookup
  member-keys x [] = refl
  member-keys x ((k, v) ∷ m) = ground (arith, member-keys x m)

-- The two structures that `collectTouchedKeys` fills hold the same keys.
abbrev InStep : Touched → Type 0
InStep t = (k : HolderKey) → member k t.0 ≡ has k t.1

-- What is touched stays touched.
abbrev Grows : Touched → Touched → Type 0
Grows t t' = (k : HolderKey) → member k t.0 ≡ true → member k t'.0 ≡ true

touch_lem :
    (key : HolderKey) (t : Touched)
    → InStep t
    → InStep (touch key t) × Grows t (touch key t) × (member key (touch key t).0 ≡ true)
unfolding touch member
touch_lem key t h = elim (Bool-cases (has key t.1)) [
  | inl seen ↦ rw seen (h, λ k m. m, h key ∙ seen)
  | inr new ↦ rw new (
    λ k. ground (arith, h k, member-append k t.0 (key ∷ []), has-insert key k tt t.1),
    λ k m. ground (arith, member-append k t.0 (key ∷ [])),
    ground (arith, member-append key t.0 (key ∷ []), beq_refl key),
  )
]

touch_op_lem :
    (op_type : OpType) (op : Operation) (t : Touched)
    → InStep t
    → InStep (touch_op op_type op t)
      × Grows t (touch_op op_type op t)
      × TouchedBy (touch_op op_type op t).0 op_type op
unfolding touch_op
touch_op_lem erc721_mint op t h = (h, λ k m. m, tt)
touch_op_lem erc721_burn op t h = (h, λ k m. m, tt)
touch_op_lem erc721_transfer op t h = (h, λ k m. m, tt)
touch_op_lem erc1155_mint op t h = touch_lem (to_key op) t h
touch_op_lem erc1155_burn op t h = touch_lem (from_key op) t h
touch_op_lem erc1155_transfer op t h =
    let first = touch_lem (from_key op) t h in
    let second = touch_lem (to_key op) (touch (from_key op) t) first.0 in
    (second.0, λ k m. second.1 k (first.1 k m), (second.1 (from_key op) first.2, second.2))

TouchedBy-mono :
    (op_type : OpType) (op : Operation) (t t' : Touched)
    → Grows t t'
    → TouchedBy t.0 op_type op
    → TouchedBy t'.0 op_type op
TouchedBy-mono erc721_mint op t t' g h = tt
TouchedBy-mono erc721_burn op t t' g h = tt
TouchedBy-mono erc721_transfer op t t' g h = tt
TouchedBy-mono erc1155_mint op t t' g h = g (to_key op) h
TouchedBy-mono erc1155_burn op t t' g h = g (from_key op) h
TouchedBy-mono erc1155_transfer op t t' g h = (g (from_key op) h.0, g (to_key op) h.1)

touch_ops_lem :
    (ops : List Operation) (t : Touched)
    → InStep t
    → Grows t (touch_ops ops t) × All (λ op. TouchedBy (touch_ops ops t).0 op.op_type op) ops
unfolding touch_ops
touch_ops_lem [] t h = (λ k m. m, tt)
touch_ops_lem (op ∷ ops) t h =
    let here = touch_op_lem op.op_type op t h in
    let rest = touch_ops_lem ops (touch_op op.op_type op t) here.0 in
    (
      λ k m. rest.0 k (here.1 k m),
      (
        TouchedBy-mono op.op_type op (touch_op op.op_type op t)
            (touch_ops ops (touch_op op.op_type op t)) rest.0 here.2,
        rest.1,
      ),
    )

-- Every key whose balance an ERC-1155 operation of the batch reads is among the collected keys.
pub collect_touched_keys-TouchedBy :
    (ops : List Operation) → All (λ op. TouchedBy (collect_touched_keys ops) op.op_type op) ops
unfolding collect_touched_keys
collect_touched_keys-TouchedBy ops =
    (touch_ops_lem ops ([], []) (unfold member has lookup in λ k. refl)).1
