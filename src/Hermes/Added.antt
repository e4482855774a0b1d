-- ===== src/Hermes/Added.antt =====
-- What the rows of a rebuild pay (service/hermes_reward/rebuild.go).
use iotex_analyser.Base.{
  ℕ, ◌+◌, ◌≤◌, ◌≡◌, refl, sym, ap, subst, >>=-eq-ok, ◌∙◌, inl, inr, String, Bool, Option, List, [],
  ◌∷◌, ◌++◌, map, ok, err, nat_beq, nat_beq_iff, ok-injective, ◌>>=◌, arith, Bool-cases,
  Result-cases, length,
}
use iotex_analyser.Base.GoMap.{GoMap}
use iotex_analyser.Base.Portions.{sum_of, sum_of_mono, sum_of-append, sum_of-map}
use iotex_analyser.Hermes.{
  AggregateReward, AccountReward, VotingInfo, Tx, names_of, contributors_to,
}
use iotex_analyser.Hermes.Breakdown.{Totals, breakdown_rewards}
use iotex_analyser.Hermes.Rebuild.{
  Order, row_totals, account_reward, create_all, split_row, rebuild_row, rebuild_rows,
  without_epoch,
}
use iotex_analyser.Hermes.Shares.{Affordable, Affordable-Perm, paid, breakdown_rewards-Affordable}
use mathlib.Core.List.{append-nil, append_assoc}

module _ (epoch : ℕ) where
  -- Rows of other epochs, and only these, are left by the delete.
  abbrev others : List AccountReward → List AccountReward
  others = without_epoch epoch

  others-append : (a b : List AccountReward) → others (a ++ b) ≡ others a ++ others b
  unfolding without_epoch
  others-append [] b = refl
  others-append (r ∷ a) b = elim (Bool-cases (nat_beq r.epoch_number epoch)) [
    | inl e ↦ rw e (others-append a b)
    | inr e ↦ rw e (ap (λ l. r ∷ l) (others-append a b))
  ]

  pub others-others : (a : List AccountReward) → others (others a) ≡ others a
  unfolding without_epoch
  others-others [] = refl
  others-others (r ∷ a) = elim (Bool-cases (nat_beq r.epoch_number epoch)) [
    | inl e ↦ rw e (others-others a)
    | inr e ↦ rw (e, without_epoch, e) (ap (λ l. r ∷ l) (others-others a))
  ]

  abbrev made : List (String × Totals) → List AccountReward
  made = map (λ (entry : String × Totals). account_reward epoch entry.0 entry.1)

  others-made : (entries : List (String × Totals)) → others (made entries) ≡ []
  unfolding without_epoch
  others-made [] = refl
  others-made (entry ∷ entries) = rw ((nat_beq_iff epoch epoch).1 refl) (others-made entries)

  -- Rows of the epoch are added, and they pay no more than `most`.
  pub record Adds (most : Totals) (stored stored' : List AccountReward) : Type 0 where
    pub unchanged : others stored' ≡ others stored
    pub block :
        sum_of (λ (r : AccountReward). r.block_reward) stored'
        ≤ sum_of (λ (r : AccountReward). r.block_reward) stored + most.block_reward
    pub epochs :
        sum_of (λ (r : AccountReward). r.epoch_reward) stored'
        ≤ sum_of (λ (r : AccountReward). r.epoch_reward) stored + most.epoch_reward
    pub foundation :
        sum_of (λ (r : AccountReward). r.foundation_bonus) stored'
        ≤ sum_of (λ (r : AccountReward). r.foundation_bonus) stored + most.foundation_bonus

  paid-made :
      (field : Totals → ℕ) (amount : AccountReward → ℕ) (entries : List (String × Totals))
      (stored : List AccountReward) (most : ℕ)
      → ((name : String) (s : Totals) → amount (account_reward epoch name s) ≡ field s)
      → paid field entries ≤ most
      → sum_of amount (stored ++ made entries) ≤ sum_of amount stored + most
  paid-made field amount entries stored most same le = omega (
    arith,
    sum_of-append amount stored (made entries),
    sum_of-map amount (λ (entry : String × Totals). account_reward epoch entry.0 entry.1) entries,
    sum_of_mono (λ (entry : String × Totals). amount (account_reward epoch entry.0 entry.1))
        (λ (entry : String × Totals). field entry.1) entries
        (λ entry. omega (arith, same entry.0 entry.1)),
  )

module _ (set_string : String → Option ℕ) where
  -- The totals of all aggregated rows; a row that cannot be read counts for nothing.
  abbrev row_amount : (Totals → ℕ) → AggregateReward → ℕ
  row_amount field row = elim (row_totals set_string row) [ ok totals ↦ field totals | err e ↦ 0 ]

  row_amount_ok :
      (field : Totals → ℕ) (row : AggregateReward) (totals : Totals)
      → row_totals set_string row ≡ ok totals
      → row_amount field row ≡ field totals
  row_amount_ok field row totals e = rw (row_amount, e)

  abbrev pub granted : List AggregateReward → Totals
  granted rows = record {
    block_reward = sum_of (row_amount (λ s. s.block_reward)) rows;
    epoch_reward = sum_of (row_amount (λ s. s.epoch_reward)) rows;
    foundation_bonus = sum_of (row_amount (λ s. s.foundation_bonus)) rows;
  }

module _ (set_string : String → Option ℕ) (epoch_height : ℕ → ℕ) (orders : ℕ → Order) (tx : Tx)
    (epoch : ℕ) where
  create_all_lem :
      (entries : List (String × Totals)) (stored stored' : List AccountReward)
      → create_all set_string epoch_height orders tx epoch entries stored ≡ ok stored'
      → stored' ≡ stored ++ made epoch entries
  unfolding create_all
  create_all_lem [] stored stored' h =
      let same : stored ≡ stored' = cc in sym same ∙ sym (append-nil stored)
  create_all_lem ((name, s) ∷ rest) stored stored' h =
      elim (Result-cases (tx.create (account_reward epoch name s))) [
        | inl (u, e) ↦
            create_all_lem rest (stored ++ (account_reward epoch name s ∷ [])) stored'
              (rw (e, create_all) at h)
            ∙ append_assoc stored (account_reward epoch name s ∷ []) (made epoch rest)
        | inr (x, e) ↦ absurd (let h' : err x ≡ ok stored' = rw (e, create_all) at h in cc)
      ]

  create_all-Adds :
      (entries : List (String × Totals)) (totals : Totals) (stored stored' : List AccountReward)
      → Affordable totals entries
      → create_all set_string epoch_height orders tx epoch entries stored ≡ ok stored'
      → Adds epoch totals stored stored'
  create_all-Adds entries totals stored stored' a h =
      subst (Adds epoch totals stored) (sym (create_all_lem entries stored stored' h)) (record {
        unchanged =
            others-append epoch stored (made epoch entries)
            ∙ ap (λ l. others epoch stored ++ l) (others-made epoch entries)
            ∙ append-nil (others epoch stored);
        block =
            paid-made epoch (λ s. s.block_reward) (λ r. r.block_reward) entries stored
              totals.block_reward (λ n s. refl) a.0;
        epochs =
            paid-made epoch (λ s. s.epoch_reward) (λ r. r.epoch_reward) entries stored
              totals.epoch_reward (λ n s. refl) a.1;
        foundation =
            paid-made epoch (λ s. s.foundation_bonus) (λ r. r.foundation_bonus) entries stored
              totals.foundation_bonus (λ n s. refl) a.2;
      })

  -- The order of the entries does not change what they pay.
  ranged-Affordable :
      (order : Order) (names : List String) (votes : GoMap String ℕ) (totals : Totals)
      (entries : List (String × Totals))
      → (breakdown_rewards order.sort_votes tx.productivity names votes totals
          >>= (λ m. ok (order.range m)))
        ≡ ok entries
      → Affordable totals entries
  ranged-Affordable order names votes totals entries h =
      let (m, e, k) =
        >>=-eq-ok (breakdown_rewards order.sort_votes tx.productivity names votes totals) _ h in
      subst (Affordable totals) (ok-injective k) (
        Affordable-Perm totals (order.range m) m (order.range-Perm m)
          (breakdown_rewards-Affordable order.sort_votes tx.productivity names votes totals m e))

  split_row-Affordable :
      (order : Order) (votes : GoMap String ℕ) (names : List String) (totals : Totals)
      (entries : List (String × Totals))
      → split_row set_string epoch_height orders tx epoch order votes names totals ≡ ok entries
      → Affordable totals entries
  unfolding split_row
  split_row-Affordable order votes [] totals entries h =
      ranged-Affordable order [] votes totals entries h
  split_row-Affordable order votes (name ∷ []) totals entries h =
      let same : ((name, totals) ∷ []) ≡ entries = cc in
      subst (Affordable totals) same (omega arith, omega arith, omega arith)
  split_row-Affordable order votes (name ∷ other ∷ names) totals entries h =
      ranged-Affordable order (name ∷ other ∷ names) votes totals entries h

  pub rebuild_rows-Adds :
      (info : VotingInfo) (opted : GoMap String Bool) (rows : List AggregateReward)
      (stored stored' : List AccountReward)
      → rebuild_rows set_string epoch_height orders tx epoch info opted rows stored ≡ ok stored'
      → Adds epoch (granted set_string rows) stored stored'
  unfolding rebuild_rows rebuild_row
  rebuild_rows-Adds info opted [] stored stored' h =
      let same : stored ≡ stored' = cc in
      subst (Adds epoch (granted set_string []) stored) same (record {
        unchanged = refl;
        block = omega arith;
        epochs = omega arith;
        foundation = omega arith;
      })
  rebuild_rows-Adds info opted (row ∷ rows) stored stored' h =
      elim (Result-cases (
        rebuild_row set_string epoch_height orders tx epoch (orders (length rows)) info opted row
          stored)) [
            | inl (s, e) ↦
                (let names = contributors_to (names_of row.reward_address info.names) opted in
                  let (totals, e₁, h₁) = >>=-eq-ok (row_totals set_string row) _ e in
                  let (entries, e₂, h₂) =
                    >>=-eq-ok
                      (split_row set_string epoch_height orders tx epoch (orders (length rows))
                        info.votes names totals)
                      _ h₁ in
                  let one =
                    create_all-Adds entries totals stored s
                      (split_row-Affordable (orders (length rows)) info.votes names totals entries
                        e₂)
                      h₂ in
                  let rest =
                    rebuild_rows-Adds info opted rows s stored' (rw (e, rebuild_rows) at h) in
                  record {
                    unchanged = rest.unchanged ∙ one.unchanged;
                    block = omega (
                      arith,
                      one.block,
                      rest.block,
                      row_amount_ok set_string (λ s. s.block_reward) row totals e₁,
                    );
                    epochs = omega (
                      arith,
                      one.epochs,
                      rest.epochs,
                      row_amount_ok set_string (λ s. s.epoch_reward) row totals e₁,
                    );
                    foundation = omega (
                      arith,
                      one.foundation,
                      rest.foundation,
                      row_amount_ok set_string (λ s. s.foundation_bonus) row totals e₁,
                    );
                  })
            | inr (x, e) ↦ absurd (let h' : err x ≡ ok stored' = rw (e, rebuild_rows) at h in cc)
          ]
