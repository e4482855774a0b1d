-- ===== src/Hermes/Shares.antt =====
-- `breakdownRewards` never hands out more than the totals of the address that is split
-- (service/hermes_reward/rebuild.go).
use iotex_analyser.Base.{
  ℕ, ◌+◌, ◌*◌, ◌/◌, ◌≤◌, ◌≡◌, subst, >>=-eq-ok, inl, inr, String, true, List, [], ◌∷◌, Result, ok,
  ◌==◌, string_eq, arith, Bool-cases,
}
use iotex_analyser.Base.GoMap.{GoMap, lookup, insert}
use mathlib.Core.List.{Perm}
use iotex_analyser.Base.Portions.{sum_of-Perm, sum_of, sum_of_mono, sum_of_portions-le}
use iotex_analyser.Hermes.{Productivity, ProductivityHistory, marked}
use iotex_analyser.Hermes.Breakdown.{
  Tally, no_tally, Totals, tally_all, share, share_all, is_zero, add_entry, production_of,
  rank_from, get_productivity, breakdown_rewards,
}
use iotex_analyser.Hermes.Tallies.{
  earns_epoch, earns_foundation, epoch_weight, foundation_weight, Tallied, tally_all-Tallied,
  tally_all_epoch_marks, tally_all_foundation_marks,
}

-- One of the three amounts of a candidate.
abbrev pub Field : Type 0
Field = Totals → ℕ

-- What the entries of a split come to in one field.
abbrev pub paid : Field → GoMap String Totals → ℕ
paid field m = sum_of (λ entry. field entry.1) m

paid-insert :
    (field : Field) (name : String) (s : Totals) (m : GoMap String Totals)
    → paid field (insert name s m) ≤ paid field m + field s
unfolding insert
paid-insert field name s [] = omega arith
paid-insert field name s ((j, u) ∷ m) = elim (Bool-cases (j == name)) [
  | inl e ↦ rw e (omega arith)
  | inr e ↦ rw e (omega (arith, paid-insert field name s m))
]

paid-add_entry :
    (field : Field) (name : String) (s : Totals) (m : GoMap String Totals)
    → paid field (add_entry name s m) ≤ paid field m + field s
unfolding add_entry
paid-add_entry field name s m = elim (Bool-cases (is_zero s)) [
  | inl e ↦ rw e (omega arith)
  | inr e ↦ rw e (paid-insert field name s m)
]

module _ (ranks votes : GoMap String ℕ) (productivity : GoMap String Productivity) where
  paid-share_all :
      (field : Field) (t : Tally) (totals : Totals) (names : List String) (m : GoMap String Totals)
      → paid field (share_all ranks votes productivity t totals names m)
        ≤ paid field m + sum_of (λ name. field (share ranks votes productivity t totals name)) names
  unfolding share_all
  paid-share_all field t totals [] m = omega arith
  paid-share_all field t totals (name ∷ names) m =
      let s = share ranks votes productivity t totals name in
      omega (
        arith,
        paid-share_all field t totals names (add_entry name s m),
        paid-add_entry field name s m,
      )

  module _ (t : Tally) (totals : Totals) (names : List String)
      (tallied : tally_all ranks votes productivity names no_tally ≡ ok t) where
    sums :
        Tallied ranks votes productivity no_tally t
          (sum_of (production_of ranks votes productivity) names)
          (sum_of (epoch_weight ranks votes productivity) names)
          (sum_of (foundation_weight ranks votes productivity) names)
    sums = tally_all-Tallied ranks votes productivity names no_tally t tallied

    block_portion : String → ℕ
    block_portion name =
        totals.block_reward * production_of ranks votes productivity name / t.production_sum

    epoch_portion : String → ℕ
    epoch_portion name =
        totals.epoch_reward * epoch_weight ranks votes productivity name / t.qualified_votes

    foundation_portion : String → ℕ
    foundation_portion name =
        totals.foundation_bonus
        * foundation_weight ranks votes productivity name
        / t.foundation_count

    block-share-le :
        (name : String)
        → (share ranks votes productivity t totals name).block_reward ≤ block_portion name
    unfolding share block_portion
    block-share-le name = ground arith

    marked_epoch :
        (name : String)
        → marked name t.earn_epoch ≡ true
        → earns_epoch ranks votes productivity name ≡ true
    unfolding marked lookup
    marked_epoch name m =
        elim (tally_all_epoch_marks ranks votes productivity names name no_tally t tallied m) [
          | inl old ↦ absurd (cc)
          | inr earned ↦ earned
        ]

    marked_foundation :
        (name : String)
        → marked name t.earn_foundation ≡ true
        → earns_foundation ranks votes productivity name ≡ true
    unfolding marked lookup
    marked_foundation name m =
        elim (tally_all_foundation_marks ranks votes productivity names name no_tally t tallied m) [
          | inl old ↦ absurd (cc)
          | inr earned ↦ earned
        ]

    epoch-share-le :
        (name : String)
        → (share ranks votes productivity t totals name).epoch_reward ≤ epoch_portion name
    unfolding share epoch_portion
    epoch-share-le name = elim (Bool-cases (marked name t.earn_epoch)) [
      | inl m ↦ rw (m, marked_epoch name m) (ground arith)
      | inr m ↦ rw m (ground arith)
    ]

    foundation-share-le :
        (name : String)
        → (share ranks votes productivity t totals name).foundation_bonus ≤ foundation_portion name
    unfolding share foundation_portion
    foundation-share-le name = elim (Bool-cases (marked name t.earn_foundation)) [
      | inl m ↦ rw (m, marked_foundation name m) (ground arith)
      | inr m ↦ rw m (ground arith)
    ]

    paid-le :
        (field : Field) (weight : String → ℕ) (total s : ℕ)
        → ((name : String)
            → field (share ranks votes productivity t totals name) ≤ total * weight name / s)
        → sum_of weight names ≤ s
        → paid field (share_all ranks votes productivity t totals names []) ≤ total
    paid-le field weight total s each le = omega (
      arith,
      paid-share_all field t totals names [],
      sum_of_mono (λ name. field (share ranks votes productivity t totals name))
          (λ name. total * weight name / s) names each,
      sum_of_portions-le total s weight names le,
    )

    -- The entries come to no more than the totals, in each of the three amounts.
    pub share_all-le :
        let entries = share_all ranks votes productivity t totals names [] in
        (paid (λ s. s.block_reward) entries ≤ totals.block_reward)
        × (paid (λ s. s.epoch_reward) entries ≤ totals.epoch_reward)
        × (paid (λ s. s.foundation_bonus) entries ≤ totals.foundation_bonus)
    unfolding block_portion epoch_portion foundation_portion
    share_all-le = (
      paid-le (λ s. s.block_reward) (production_of ranks votes productivity) totals.block_reward
          t.production_sum block-share-le (omega (arith, sums.productions)),
      paid-le (λ s. s.epoch_reward) (epoch_weight ranks votes productivity) totals.epoch_reward
          t.qualified_votes epoch-share-le (omega (arith, sums.epochs)),
      paid-le (λ s. s.foundation_bonus) (foundation_weight ranks votes productivity)
          totals.foundation_bonus t.foundation_count foundation-share-le
          (omega (arith, sums.foundations)),
    )

-- What an outcome of a split pays: no more than the totals, in each of the three amounts.
abbrev pub Affordable : Totals → GoMap String Totals → Type 0
Affordable totals entries =
    (paid (λ s. s.block_reward) entries ≤ totals.block_reward)
    × (paid (λ s. s.epoch_reward) entries ≤ totals.epoch_reward)
    × (paid (λ s. s.foundation_bonus) entries ≤ totals.foundation_bonus)

pub Affordable-Perm :
    (totals : Totals) (entries other : List (String × Totals))
    → Perm entries other
    → Affordable totals other
    → Affordable totals entries
Affordable-Perm totals entries other p (b, e, f) =
    let same : (field : Field) → paid field entries ≡ paid field other =
      λ field. sum_of-Perm (λ (entry : String × Totals). field entry.1) entries other p in
    (
      omega (arith, b, same (λ s. s.block_reward)),
      omega (arith, e, same (λ s. s.epoch_reward)),
      omega (arith, f, same (λ s. s.foundation_bonus)),
    )

-- However votes are sorted and whatever the productivity, a successful split of an address's
-- rewards pays no more than its totals in block rewards, in epoch rewards and in foundation
-- bonuses.
pub breakdown_rewards-Affordable :
    (sort_votes : List (String × ℕ) → List (String × ℕ))
    (history : Result String (List ProductivityHistory)) (names : List String)
    (votes : GoMap String ℕ) (totals : Totals) (entries : GoMap String Totals)
    → breakdown_rewards sort_votes history names votes totals ≡ ok entries
    → Affordable totals entries
unfolding breakdown_rewards
breakdown_rewards-Affordable sort_votes history names votes totals entries h =
    let ranks = rank_from 1 (sort_votes votes) [] in
    let (rows, e₁, h₁) = >>=-eq-ok history _ h in
    let (productivity, e₂, h₂) = >>=-eq-ok (get_productivity rows) _ h₁ in
    let (t, e₃, h₃) = >>=-eq-ok (tally_all ranks votes productivity names no_tally) _ h₂ in
    let same : share_all ranks votes productivity t totals names [] ≡ entries = cc in
    subst (Affordable totals) same (share_all-le ranks votes productivity t totals names e₃)
