-- ===== src/Examples/Shelf.antt =====
-- A database that keeps heights, the eras and attributions of service/voter_reward, and the incomes
-- of plugins/account_income.
use iotex_analyser.Base.{
  ltb, ◌^◌, sym, ap, ◌∙◌, eq_of_beq, ℕ, ◌≡◌, refl, String, Bool, false, ◌&&◌, ◌||◌, Option, none,
  some, ◌==◌, string_eq, nat_eq, Result, ok, err, if◌then◌else◌, arith, List, [], ◌∷◌, ◌++◌,
  Bool-cases, Option-cases, ok-injective, inl, inr, subst, true,
}
use iotex_analyser.Base.GoMap.{GoMap, lookup, insert, lookup-insert}
use iotex_analyser.Db.{Database, IndexCache}
use iotex_analyser.AccountIncome.{Income, IncomeRow, income_of, plus}
use iotex_analyser.AccountIncome.Commit.{IncomeStore}
use iotex_analyser.VoterReward.{EraRow, Distribution, DelegateConfig}
use iotex_analyser.VoterReward.Commit.{Store, changed, upserted, first_config}

-- The era's rows and the configs are functions of their keys.
pub record Shelf : Type 0 where
  pub heights : GoMap String ℕ
  pub eras : ℕ → Option EraRow
  pub rows : List Distribution
  pub configs : String → ℕ → Option DelegateConfig
  pub counts : String → Income
  pub income_rows : List IncomeRow
  pub accepts : Bool

abbrev pub is_same_row : Distribution → Distribution → Bool
is_same_row a b =
    a.action_hash == b.action_hash && a.log_index == b.log_index && a.row_index == b.row_index

abbrev pub has_row : Distribution → List Distribution → Bool
has_row d [] = false
has_row d (x ∷ xs) = is_same_row x d || has_row d xs

-- ON CONFLICT DO NOTHING.
abbrev pub add_rows : List Distribution → List Distribution → List Distribution
add_rows [] old = old
add_rows (d ∷ ds) old = add_rows ds (if has_row d old then old else old ++ (d ∷ []))

abbrev pub end_with :
    Shelf → Result String Shelf × IndexCache → Result String (Unit {0}) × Shelf × IndexCache
end_with s (err e, c) = (err e, s, c)
end_with s (ok s', c) = if s.accepts then (ok tt, s', c) else (err "commit failed", s, c)

-- UPDATE of a row that is there.
abbrev pub raised : String → ℕ → GoMap String ℕ → GoMap String ℕ
raised name h m = elim (lookup name m) [ none ↦ m | some old ↦ insert name h m ]

abbrev pub set_height : String → ℕ → Shelf → Shelf
set_height name h s = record s { heights = raised name h s.heights }

lookup-raised :
    (name j : String) (h : ℕ) (m : GoMap String ℕ) (old : ℕ)
    → lookup j m ≡ some old
    → lookup j (raised name h m) ≡ some (if name == j then h else old)
lookup-raised name j h m old row = elim (Option-cases (lookup name m)) [
  | inl e₀ ↦
      rw (e₀, raised)
        (elim (Bool-cases (name == j)) [
          | inl eq ↦ absurd (let e₁ = eq_of_beq name j eq in cc)
          | inr ne ↦ rw ne row
        ])
  | inr (v, e₀) ↦ rw (e₀, raised) (lookup-insert name j h m ∙ ground arith)
]

pub take-set_height :
    (name j : String) (h : ℕ) (s s' : Shelf)
    → ◌≡◌ {A = Result String Shelf} (ok (set_height name h s)) (ok s')
    → (old : ℕ) → ◌≡◌ {A = Result String (Option ℕ)} (ok (lookup j s.heights)) (ok (some old))
    → ◌≡◌ {A = Result String (Option ℕ)}
        (ok (lookup j s'.heights))
        (ok (some (if name == j then h else old)))
take-set_height name j h s s' e old row =
    let same : set_height name h s ≡ s' = cc in
    let found : lookup j s.heights ≡ some old = cc in
    ap (λ (x : Shelf). ok (lookup j x.heights)) (sym same)
    ∙ ap (λ x. ok x) (lookup-raised name j h s.heights old found)

pub end_with_cache : (s : Shelf) (x : Result String Shelf × IndexCache) → (end_with s x).2 ≡ x.1
end_with_cache s (err e, c) = refl
end_with_cache s (ok s', c) = elim (Bool-cases s.accepts) [ inl b ↦ rw b refl | inr b ↦ rw b refl ]

pub end_with_commit :
    (s : Shelf) (x : Result String Shelf × IndexCache)
    → (end_with s x).0 ≡ ok tt
    → x.0 ≡ ok (end_with s x).1
end_with_commit s (err e, c) h = absurd cc
end_with_commit s (ok s', c) h = elim (Bool-cases s.accepts) [
  | inl b ↦ rw b refl
  | inr b ↦ absurd (let bad = rw b at h in cc)
]

pub end_with_rollback :
    (s : Shelf) (x : Result String Shelf × IndexCache) (e : String)
    → (end_with s x).0 ≡ err e
    → (end_with s x).1 ≡ s
end_with_rollback s (err e, c) m h = refl
end_with_rollback s (ok s', c) m h = elim (Bool-cases s.accepts) [
  | inl b ↦ absurd (let bad = rw b at h in cc)
  | inr b ↦ rw b refl
]

abbrev pub shelf : Database
shelf = record {
  Tables = Shelf;
  take = λ name s. ok (lookup name s.heights);
  create = λ name h s. ok (record s { heights = insert name h s.heights });
  update = λ name h s. ok (set_height name h s);
  transaction = λ body s c. end_with s (body s c);
  take-update = take-set_height;
  transaction_cache = λ body s c. end_with_cache s (body s c);
  transaction_commit = λ body s c. end_with_commit s (body s c);
  transaction_rollback = λ body s c. end_with_rollback s (body s c);
}

-- The row of an era, of that era.
abbrev pub of_era : ℕ → Option EraRow → Option EraRow
of_era e none = none
of_era e (some row) = some (record row { era = e })

abbrev pub put_era : EraRow → Shelf → Shelf
put_era row s = record s { eras = λ e. if row.era == e then some row else s.eras e }

pub put_era-law :
    (row : EraRow) (s s' : Shelf)
    → ◌≡◌ {A = Result String Shelf} (ok (put_era row s)) (ok s')
    → (e : ℕ)
    → ◌≡◌ {A = Result String (Option EraRow)}
        (ok (of_era e (s'.eras e)))
        (if row.era == e then ok (some row) else ok (of_era e (s.eras e)))
put_era-law row s s' h e =
    let same : put_era row s ≡ s' = cc in
    subst
      (λ (x : Shelf).
        ◌≡◌ {A = Result String (Option EraRow)} (ok (of_era e (x.eras e)))
          (if row.era == e then ok (some row) else ok (of_era e (s.eras e))))
      same
      (elim (Bool-cases (row.era == e)) [
        | inl b ↦ rw b (ap (λ n. ok (some (record row { era = n }))) (sym (eq_of_beq row.era e b)))
        | inr b ↦ rw b refl
      ])

pub of_era-law : (e : ℕ) (o : Option EraRow) (row : EraRow) → of_era e o ≡ some row → row.era ≡ e
of_era-law e none row h = absurd cc
of_era-law e (some r) row h =
    let same : record r { era = e } ≡ row = cc in ap (λ (x : EraRow). x.era) (sym same)

pub same_shelf :
    (A : Type 0) (f : Shelf → A) (s s' : Shelf)
    → ◌≡◌ {A = Result String Shelf} (ok s) (ok s')
    → f s' ≡ f s
same_shelf A f s s' h = let same : s ≡ s' = cc in ap f (sym same)

abbrev pub shelf_store : Store shelf
shelf_store = record {
  insert_rows = λ rows s. ok (record s { rows = add_rows rows s.rows });
  insert_destinations = λ rows s. ok s;
  take_era = λ e s. ok (of_era e (s.eras e));
  create_era = λ row s. ok (put_era row s);
  save_era = λ row s. ok (put_era row s);
  upsert_configs =
      λ rows s. ok (record s { configs = λ d e. upserted (s.configs d e) (first_config d e rows) });
  update_opt_in = λ id era condition new s. ok (record s {
    configs =
        λ d e. if id == d && era == e then changed condition new (s.configs d e) else s.configs d e;
  });
  stored_config = λ d e s. s.configs d e;
  take-insert_rows = λ rows t t' h e. same_shelf _ (λ s. ok (of_era e (s.eras e))) _ t' h;
  take-insert_destinations = λ rows t t' h e. same_shelf _ (λ s. ok (of_era e (s.eras e))) _ t' h;
  take-create_era = put_era-law;
  take-save_era = put_era-law;
  era-take = λ e t row h. of_era-law e (t.eras e) row (ok-injective h);
  take-upsert_configs = λ rows t t' h e. same_shelf _ (λ s. ok (of_era e (s.eras e))) _ t' h;
  take-update_opt_in =
      λ d era condition new t t' h e. same_shelf _ (λ s. ok (of_era e (s.eras e))) _ t' h;
  take-update = λ name h t t' made e. same_shelf _ (λ s. ok (of_era e (s.eras e))) _ t' made;
  config-insert_rows = λ rows t t' h d e. same_shelf _ (λ s. s.configs d e) _ t' h;
  config-insert_destinations = λ rows t t' h d e. same_shelf _ (λ s. s.configs d e) _ t' h;
  config-create_era = λ row t t' h d e. same_shelf _ (λ s. s.configs d e) _ t' h;
  config-save_era = λ row t t' h d e. same_shelf _ (λ s. s.configs d e) _ t' h;
  config-upsert_configs = λ rows t t' h d e. same_shelf _ (λ s. s.configs d e) _ t' h;
  config-update_opt_in =
      λ id era condition new t t' h d e. same_shelf _ (λ s. s.configs d e) _ t' h;
  config-update = λ name h t t' made d e. same_shelf _ (λ s. s.configs d e) _ t' made;
}

-- A column decimal(42,0) holds each inflow.
abbrev pub all_fit : List IncomeRow → Bool
all_fit [] = true
all_fit (r ∷ rs) = ltb r.income.in_flow (10 ^ 42) && all_fit rs

abbrev pub insert_rows_if : Bool → List IncomeRow → Shelf → Result String Shelf
insert_rows_if true rows s = ok (record s { income_rows = s.income_rows ++ rows })
insert_rows_if false rows s = err "numeric field overflow"

pub count-insert_rows_if :
    (b : Bool) (rows : List IncomeRow) (s s' : Shelf)
    → insert_rows_if b rows s ≡ ok s'
    → (a : String) → s'.counts a ≡ s.counts a
count-insert_rows_if true rows s s' h a = same_shelf _ (λ x. x.counts a) _ s' h
count-insert_rows_if false rows s s' h a = absurd cc

abbrev pub income_store : IncomeStore shelf
income_store = record {
  insert_incomes = λ rows s. insert_rows_if (all_fit rows) rows s;
  upsert_counts =
      λ counts s. ok (record s { counts = λ a. plus (s.counts a) (income_of a counts) });
  stored_count = λ a s. s.counts a;
  count-insert_incomes = λ rows t t' h a. count-insert_rows_if (all_fit rows) rows t t' h a;
  count-upsert_counts = λ counts t t' h a. same_shelf _ (λ s. s.counts a) _ t' h;
  count-update = λ name h t t' made a. same_shelf _ (λ s. s.counts a) _ t' made;
}
