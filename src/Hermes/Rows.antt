-- ===== src/Hermes/Rows.antt =====
-- What a rebuild does to the stored rows (service/hermes_reward/rebuild.go).
use iotex_analyser.Base.{
  ℕ, ◌≡◌, refl, sym, ap, ◌∙◌, ◌⊎◌, inl, inr, String, Bool, Option, none, some, List, [], ◌∷◌,
  Result, ok, err, nat_beq, Bool-cases, Result-cases,
}
use iotex_analyser.Base.GoMap.{GoMap}
use iotex_analyser.Hermes.{
  AggregateReward, AccountReward, VotingInfo, Tx, check_epoch_coverage, get_voting_info,
  opted_in_delegates,
}
use iotex_analyser.Hermes.Rebuild.{
  Order, rebuild_rows, without_epoch, replace_rows, with_votes, rebuild_account_reward_table,
}
use iotex_analyser.Hermes.Added.{Adds, granted, rebuild_rows-Adds, others-others}

module _ (set_string : String → Option ℕ) (epoch_height : ℕ → ℕ) (tx : Tx) (epoch : ℕ) where
  abbrev rebuild : (ℕ → Order) → List AccountReward → Result String (List AccountReward)
  rebuild orders = rebuild_account_reward_table set_string epoch_height orders tx epoch

  -- In all orders a rebuild leaves every table as it is, or in all it fails for every table, or in
  -- all it replaces the rows of the epoch by rows that the table has no part in.
  abbrev Kind : ((ℕ → Order) → List AccountReward → Result String (List AccountReward)) → Type 0
  Kind f =
      ((orders : ℕ → Order) (stored : List AccountReward) → f orders stored ≡ ok stored)
      ⊎ ((e : String) × ((orders : ℕ → Order) (stored : List AccountReward)
            → f orders stored ≡ err e))
      ⊎ ((rows : List AggregateReward) × (info : VotingInfo) × (opted : GoMap String Bool)
          × (tx.aggregates ≡ ok rows)
          × ((orders : ℕ → Order) (stored : List AccountReward)
              → f orders stored
                ≡ rebuild_rows set_string epoch_height orders tx epoch info opted rows
                    (without_epoch epoch stored)))

  replace_rows-Kind :
      (info : VotingInfo) (rows : List AggregateReward)
      → tx.aggregates ≡ ok rows
      → Kind (λ w. replace_rows set_string epoch_height w tx epoch info rows)
  unfolding replace_rows
  replace_rows-Kind info [] a = inl (λ w s. refl)
  replace_rows-Kind info (row ∷ rows) a = elim (Result-cases tx.delete) [
    | inr (x, e) ↦ inr (inl (x, λ w s. rw e refl))
    | inl (d, e) ↦ elim (Result-cases tx.opted_in) [
      | inr (x, o) ↦ inr (inl (x, λ w s. rw (e, o) refl))
      | inl (names, o) ↦
          inr (inr (row ∷ rows, info, opted_in_delegates names, a, λ w s. rw (e, o) refl))
    ]
  ]

  with_votes-Kind :
      (info : Option VotingInfo) → Kind (λ w. with_votes set_string epoch_height w tx epoch info)
  with_votes-Kind none = inl (λ w s. refl)
  with_votes-Kind (some info) = elim (Result-cases tx.aggregates) [
    | inr (x, a) ↦ inr (inl (x, λ w s. rw (with_votes, a) refl))
    | inl (rows, a) ↦ elim (replace_rows-Kind info rows a) [
      | inl same ↦ inl (λ w s. simp (with_votes, a) (same w s))
      | inr (inl (x, fails)) ↦ inr (inl (x, λ w s. simp (with_votes, a) (fails w s)))
      | inr (inr (rs, i, opted, a', makes)) ↦
          inr (inr (rs, i, opted, a', λ w s. simp (with_votes, a) (makes w s)))
    ]
  ]

  rebuild-Kind : Kind rebuild
  unfolding rebuild_account_reward_table
  rebuild-Kind = elim (Bool-cases (nat_beq epoch 0)) [
    | inl e ↦ inl (λ w s. rw (rebuild_account_reward_table, e) refl)
    | inr e ↦ elim (Result-cases tx.coverage) [
      | inr (x, c) ↦ inr (inl (x, λ w s. rw (rebuild_account_reward_table, e, c) refl))
      | inl (probe, c) ↦ elim (Bool-cases (check_epoch_coverage epoch_height epoch probe)) [
        | inr bad ↦ inl (λ w s. rw (rebuild_account_reward_table, e, c, bad) refl)
        | inl good ↦ elim (Result-cases tx.voting) [
          | inr (x, v) ↦ inr (inl (x, λ w s. rw (rebuild_account_reward_table, e, c, good, v) refl))
          | inl (results, v) ↦ elim (with_votes-Kind (get_voting_info results)) [
            | inl same ↦ inl (λ w s. simp (e, c, good, v) (same w s))
            | inr (inl (x, fails)) ↦ inr (inl (x, λ w s. simp (e, c, good, v) (fails w s)))
            | inr (inr (rs, i, opted, a', makes)) ↦
                inr (inr (rs, i, opted, a', λ w s. simp (e, c, good, v) (makes w s)))
          ]
        ]
      ]
    ]
  ]

  rebuild-unchanged :
      (orders : ℕ → Order) (stored stored' : List AccountReward)
      → rebuild orders stored ≡ ok stored'
      → without_epoch epoch stored' ≡ without_epoch epoch stored
  rebuild-unchanged orders stored stored' h = elim rebuild-Kind [
    | inl same ↦
        (let e : stored ≡ stored' = cc (same orders stored) in ap (without_epoch epoch) (sym e))
    | inr (inl (x, fails)) ↦ absurd (cc (fails orders stored))
    | inr (inr (rows, info, opted, a, makes)) ↦
        (rebuild_rows-Adds set_string epoch_height orders tx epoch info opted rows
          (without_epoch epoch stored) stored' (sym (makes orders stored) ∙ h)).unchanged
        ∙ others-others epoch stored
  ]

  -- A rebuild, on the same answers of the database, makes of the table of an earlier successful
  -- rebuild of the epoch what it makes of the table before that one, in whatever orders the two
  -- range over their maps and leave tied votes.
  pub rebuild_twice :
      (orders orders' : ℕ → Order) (stored stored' : List AccountReward)
      → rebuild orders stored ≡ ok stored'
      → rebuild orders' stored' ≡ rebuild orders' stored
  rebuild_twice orders orders' stored stored' h = elim rebuild-Kind [
    | inl same ↦
        (let e : stored ≡ stored' = cc (same orders stored) in ap (rebuild orders') (sym e))
    | inr (inl (x, fails)) ↦ absurd (cc (fails orders stored))
    | inr (inr (rows, info, opted, a, makes)) ↦
        makes orders' stored'
        ∙ ap (rebuild_rows set_string epoch_height orders' tx epoch info opted rows)
            (rebuild-unchanged orders stored stored' h)
        ∙ sym (makes orders' stored)
  ]

  -- A successful rebuild of an epoch's account rewards either leaves the table as it was, or leaves
  -- the other epochs' rows and new rows of the epoch that pay no more than the aggregated rows
  -- hold, in each of the three amounts.
  pub rebuild-Adds :
      (orders : ℕ → Order) (stored stored' : List AccountReward)
      → rebuild orders stored ≡ ok stored'
      → (stored' ≡ stored)
        ⊎ ((rows : List AggregateReward) × (tx.aggregates ≡ ok rows)
            × Adds epoch (granted set_string rows) (without_epoch epoch stored) stored')
  rebuild-Adds orders stored stored' h = elim rebuild-Kind [
    | inl same ↦ inl (cc (same orders stored))
    | inr (inl (x, fails)) ↦ absurd (cc (fails orders stored))
    | inr (inr (rows, info, opted, a, makes)) ↦ inr (
      rows,
      a,
      rebuild_rows-Adds set_string epoch_height orders tx epoch info opted rows
          (without_epoch epoch stored) stored' (sym (makes orders stored) ∙ h),
    )
  ]
