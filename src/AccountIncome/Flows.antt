-- ===== src/AccountIncome/Flows.antt =====
-- What the transfers of a block move for an account (plugins/account_income, `getIncomes`).
use iotex_analyser.Base.{
  ℕ, ◌+◌, String, Bool, true, false, Option, List, [], ◌∷◌, ◌++◌, ◌≡◌, refl, ap, ◌∙◌, ◌==◌,
  string_eq, if◌then◌else◌, Bool-cases, inl, inr, eq_of_beq, arith,
}
use iotex_analyser.Base.GoMap.{GoMap, lookup, insert, lookup-insert}
use iotex_analyser.AccountIncome.{
  Transfer, Income, IncomeRow, IncomeBlock, IncomePlugin, no_income, income_of, or_no_income, sent,
  received, plus, add_sender, add_recipient, add_entry, add_entries, recipient_of, add_transfer,
  add_transfers, add_receipts, get_incomes, put_incomes, put_all_incomes,
}

-- The four numbers that are kept of an account.
pub data Field : Type 0 where
  flow_in : Field
  actions_in : Field
  flow_out : Field
  actions_out : Field

abbrev pub get : Field → Income → ℕ
get flow_in x = x.in_flow
get actions_in x = x.in_num_actions
get flow_out x = x.out_flow
get actions_out x = x.out_num_actions

-- What sending an amount adds to a number, and what receiving it adds.
abbrev pub by_sending : Field → ℕ → ℕ
by_sending flow_in n = 0
by_sending actions_in n = 0
by_sending flow_out n = n
by_sending actions_out n = 1

abbrev pub by_receiving : Field → ℕ → ℕ
by_receiving flow_in n = n
by_receiving actions_in n = 1
by_receiving flow_out n = 0
by_receiving actions_out n = 0

abbrev pub when : Bool → ℕ → ℕ
when b n = if b then n else 0

get-sent : (f : Field) (n : ℕ) (x : Income) → get f (sent n x) ≡ get f x + by_sending f n
get-sent flow_in n x = omega arith
get-sent actions_in n x = omega arith
get-sent flow_out n x = refl
get-sent actions_out n x = refl

get-received : (f : Field) (n : ℕ) (x : Income) → get f (received n x) ≡ get f x + by_receiving f n
get-received flow_in n x = refl
get-received actions_in n x = refl
get-received flow_out n x = omega arith
get-received actions_out n x = omega arith

pub get-plus : (f : Field) (x y : Income) → get f (plus x y) ≡ get f x + get f y
get-plus flow_in x y = refl
get-plus actions_in x y = refl
get-plus flow_out x y = refl
get-plus actions_out x y = refl

pub get-no_income : (f : Field) → get f no_income ≡ 0
get-no_income flow_in = refl
get-no_income actions_in = refl
get-no_income flow_out = refl
get-no_income actions_out = refl

pub income_of-insert :
    (k a : String) (x : Income) (m : GoMap String Income)
    → income_of a (insert k x m) ≡ (if k == a then x else income_of a m)
income_of-insert k a x m =
    ap or_no_income (lookup-insert k a x m)
    ∙ (elim (Bool-cases (k == a)) [ inl b ↦ rw b refl | inr b ↦ rw b refl ])

module _ (f : Field) (a : String) where
  -- What the entries of a map say of the account.
  abbrev pub entered : GoMap String Income → ℕ
  entered [] = 0
  entered ((k, x) ∷ m) = when (k == a) (get f x) + entered m

  -- What rows say of it.
  abbrev pub rowed : List IncomeRow → ℕ
  rowed [] = 0
  rowed (r ∷ rs) = when (r.address == a) (get f r.income) + rowed rs

  rowed-append : (xs ys : List IncomeRow) → rowed (xs ++ ys) ≡ rowed xs + rowed ys
  rowed-append [] ys = omega arith
  rowed-append (x ∷ xs) ys = omega (arith, rowed-append xs ys)

  -- A new value for a key changes what is entered by as much.
  entered-insert :
      (k : String) (x : Income) (m : GoMap String Income)
      → entered (insert k x m) + when (k == a) (get f (income_of k m))
        ≡ entered m + when (k == a) (get f x)
  unfolding insert lookup
  entered-insert k x [] = rw (get-no_income f) (ground arith)
  entered-insert k x ((j, old) ∷ m) = elim (Bool-cases (j == k)) [
    | inl b ↦ (let same = eq_of_beq j k b in rw (b, income_of) (rw same (omega arith)))
    | inr b ↦ (let rest = entered-insert k x m in rw (b, income_of) (omega (arith, rest)))
  ]

  moved :
      (here : Bool) (after before old new more : ℕ)
      → after + when here old ≡ before + when here new
      → new ≡ old + more
      → after ≡ before + when here more
  moved true after before old new more step e = omega (arith, step, e)
  moved false after before old new more step e = omega (arith, step)

  module _ (named : (a == "") ≡ false) where
    -- The empty address is not the account.
    not_named : (k : String) → (k == "") ≡ true → (k == a) ≡ false
    not_named k b = elim (Bool-cases (k == a)) [
      | inl c ↦ absurd (
          let e₁ = eq_of_beq k "" b in
          let e₂ = eq_of_beq k a c in let bad : (a == "") ≡ true = rw⁻¹ e₂ b in cc)
      | inr c ↦ c
    ]

    entered-add_sender :
        (t : Transfer) (m : GoMap String Income)
        → entered (add_sender t m) ≡ entered m + when (t.sender == a) (by_sending f t.amount)
    unfolding add_sender
    entered-add_sender t m = elim (Bool-cases (t.sender == "")) [
      | inl b ↦
          (let other : (t.sender == a) ≡ false = not_named t.sender b in
            rw (b, other) (omega arith))
      | inr b ↦
          (let step = entered-insert t.sender (sent t.amount (income_of t.sender m)) m in
            let more = get-sent f t.amount (income_of t.sender m) in
            rw b (moved (t.sender == a) _ _ _ _ _ step more))
    ]

    entered-add_recipient :
        (r : String) (n : ℕ) (m : GoMap String Income)
        → entered (add_recipient r n m) ≡ entered m + when (r == a) (by_receiving f n)
    unfolding add_recipient
    entered-add_recipient r n m = elim (Bool-cases (r == "")) [
      | inl b ↦ (let other : (r == a) ≡ false = not_named r b in rw (b, other) (omega arith))
      | inr b ↦
          (let step = entered-insert r (received n (income_of r m)) m in
            let more = get-received f n (income_of r m) in
            rw b (moved (r == a) _ _ _ _ _ step more))
    ]

    module _ (from_string : String → Option String) where
      -- What transfers move for the account.
      abbrev pub moved_by : Transfer → ℕ
      moved_by t =
          when (t.sender == a) (by_sending f t.amount)
          + when (recipient_of from_string t == a) (by_receiving f t.amount)

      abbrev pub moved_in : List Transfer → ℕ
      moved_in [] = 0
      moved_in (t ∷ ts) = moved_by t + moved_in ts

      abbrev pub moved_in_all : List (List Transfer) → ℕ
      moved_in_all [] = 0
      moved_in_all (ts ∷ rs) = moved_in ts + moved_in_all rs

      -- What the blocks move for it.
      abbrev pub moved_in_blocks : List IncomeBlock → ℕ
      moved_in_blocks [] = 0
      moved_in_blocks (blk ∷ blks) = moved_in_all blk.receipts + moved_in_blocks blks

      entered-add_transfers :
          (ts : List Transfer) (m : GoMap String Income)
          → entered (add_transfers from_string ts m) ≡ entered m + moved_in ts
      unfolding add_transfers add_transfer
      entered-add_transfers [] m = omega arith
      entered-add_transfers (t ∷ ts) m =
          let out = entered-add_sender t m in
          let into = entered-add_recipient (recipient_of from_string t) t.amount (add_sender t m) in
          omega (arith, out, into, entered-add_transfers ts (add_transfer from_string t m))

      entered-add_receipts :
          (rs : List (List Transfer)) (m : GoMap String Income)
          → entered (add_receipts from_string rs m) ≡ entered m + moved_in_all rs
      unfolding add_receipts
      entered-add_receipts [] m = omega arith
      entered-add_receipts (ts ∷ rs) m = omega (
        arith,
        entered-add_transfers ts m,
        entered-add_receipts rs (add_transfers from_string ts m),
      )

      rowed-add_entries :
          (height : ℕ) (m : GoMap String Income) (p : IncomePlugin)
          → rowed (add_entries height m p).account_income ≡ rowed p.account_income + entered m
      unfolding add_entries add_entry
      rowed-add_entries height [] p = omega arith
      rowed-add_entries height ((k, x) ∷ m) p =
          let row : IncomeRow = record { block_height = height; address = k; income = x } in
          let one = rowed-append p.account_income (row ∷ []) in
          omega (arith, one, rowed-add_entries height m (add_entry height k x p))

      -- What is counted of the account.
      abbrev pub counted_in : IncomePlugin → ℕ
      counted_in p = get f (income_of a p.account_income_count)

      counted-add_entry :
          (height : ℕ) (k : String) (x : Income) (p : IncomePlugin)
          → counted_in (add_entry height k x p) ≡ counted_in p + when (k == a) (get f x)
      unfolding add_entry
      counted-add_entry height k x p =
          let counts = p.account_income_count in
          let total = plus (income_of k counts) x in
          let now = ap (get f) (income_of-insert k a total counts) in
          elim (Bool-cases (k == a)) [
            | inl b ↦
                (let same = eq_of_beq k a b in
                  let now' : get f (income_of a (insert k total counts)) ≡ get f total =
                    rw b at now in
                  let old = ap (λ j. get f (income_of j counts)) same in
                  let sum = get-plus f (income_of k counts) x in
                  rw b (omega (arith, now', old, sum)))
            | inr b ↦
                (let now' : get f (income_of a (insert k total counts))
                      ≡ get f (income_of a counts) =
                    rw b at now in
                  rw b (omega (arith, now')))
          ]

      counted-add_entries :
          (height : ℕ) (m : GoMap String Income) (p : IncomePlugin)
          → counted_in (add_entries height m p) ≡ counted_in p + entered m
      unfolding add_entries
      counted-add_entries height [] p = omega arith
      counted-add_entries height ((k, x) ∷ m) p = omega (
        arith,
        counted-add_entry height k x p,
        counted-add_entries height m (add_entry height k x p),
      )

      -- Reading blocks adds to the pending rows of an account, whose address is not empty, and to
      -- its pending count the same amount, in each of the four numbers: what the transfers of the
      -- blocks move for it.
      pub put_all_incomes-moved :
          (blks : List IncomeBlock) (p : IncomePlugin)
          → (rowed (put_all_incomes from_string blks p).account_income
              ≡ rowed p.account_income + moved_in_blocks blks)
            × (counted_in (put_all_incomes from_string blks p)
                ≡ counted_in p + moved_in_blocks blks)
      unfolding put_all_incomes put_incomes get_incomes
      put_all_incomes-moved [] p = (omega arith, omega arith)
      put_all_incomes-moved (blk ∷ blks) p =
          let m = get_incomes from_string blk in
          let next = put_incomes from_string blk p in
          let (rows, counts) = put_all_incomes-moved blks next in
          let whole = entered-add_receipts blk.receipts [] in
          (
            omega (arith, rows, rowed-add_entries blk.height m p, whole),
            omega (arith, counts, counted-add_entries blk.height m p, whole),
          )
