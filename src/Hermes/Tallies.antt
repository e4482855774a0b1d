-- ===== src/Hermes/Tallies.antt =====
-- What the first loop of `breakdownRewards` sums up and marks (service/hermes_reward/rebuild.go).
use iotex_analyser.Base.{
  ℕ, ◌+◌, ◌*◌, ◌/◌, ◌%◌, ◌^◌, ◌≡◌, refl, sym, subst, ◌∙◌, ◌⊎◌, inl, inr, String, Bool, true, false,
  not, ◌||◌, ◌&&◌, Option, none, some, List, [], ◌∷◌, ok, err, ◌==◌, string_eq, eq_of_beq, leb, ltb,
  if◌then◌else◌, arith, Bool-cases, Result-cases,
}
use iotex_analyser.Base.GoMap.{GoMap, lookup, insert, lookup-insert}
use iotex_analyser.Base.Portions.{sum_of}
use iotex_analyser.Hermes.{Productivity, marked}
use iotex_analyser.Hermes.Breakdown.{
  number_of, Tally, tally_production, tally_epoch, tally_foundation, tally_one, tally_all,
  production_of, delegates_for_epoch_reward, delegates_for_foundation_bonus,
}

marked-insert :
    (k n : String) (m : GoMap String Bool)
    → marked n (insert k true m) ≡ (if k == n then true else marked n m)
unfolding marked
marked-insert k n m = ground (arith, lookup-insert k n true m)

module _ (ranks : GoMap String ℕ) (votes : GoMap String ℕ)
    (productivity : GoMap String Productivity) where
  -- At least 85 blocks in 100 were produced, or none were expected of the candidate.
  abbrev is_productive : Option Productivity → Bool
  is_productive none = true
  is_productive (some p) = not (ltb (p.production * 100 % 2 ^ 64 / p.expected_production) 85)

  abbrev pub earns_epoch : String → Bool
  earns_epoch name =
      leb (number_of name ranks) delegates_for_epoch_reward
      && is_productive (lookup name productivity)

  abbrev pub earns_foundation : String → Bool
  earns_foundation name = leb (number_of name ranks) delegates_for_foundation_bonus

  -- What a candidate counts for in each of the three sums.
  abbrev pub epoch_weight : String → ℕ
  epoch_weight name = if earns_epoch name then number_of name votes else 0

  abbrev pub foundation_weight : String → ℕ
  foundation_weight name = if earns_foundation name then 1 else 0

  pub record Tallied (t t' : Tally) (production epoch foundation : ℕ) : Type 0 where
    pub productions : t'.production_sum ≡ t.production_sum + production
    pub epochs : t'.qualified_votes ≡ t.qualified_votes + epoch
    pub foundations : t'.foundation_count ≡ t.foundation_count + foundation

  tally_one-Tallied :
      (name : String) (t t' : Tally)
      → tally_one ranks votes productivity name t ≡ ok t'
      → Tallied t t'
          (production_of ranks votes productivity name)
          (epoch_weight name)
          (foundation_weight name)
  unfolding tally_one tally_production tally_epoch tally_foundation
  tally_one-Tallied name t t' h = ground arith

  tally_one_epoch_marks :
      (name n : String) (t t' : Tally)
      → tally_one ranks votes productivity name t ≡ ok t'
      → marked n t'.earn_epoch ≡ (marked n t.earn_epoch || (name == n && earns_epoch name))
  unfolding tally_one tally_production tally_epoch tally_foundation
  tally_one_epoch_marks name n t t' h = ground (arith, marked-insert name n t.earn_epoch)

  tally_one_foundation_marks :
      (name n : String) (t t' : Tally)
      → tally_one ranks votes productivity name t ≡ ok t'
      → marked n t'.earn_foundation
        ≡ (marked n t.earn_foundation || (name == n && earns_foundation name))
  unfolding tally_one tally_production tally_epoch tally_foundation
  tally_one_foundation_marks name n t t' h = ground (arith, marked-insert name n t.earn_foundation)

  mark_earned :
      (earns : String → Bool) (name n : String) (old : Bool)
      → (old || (name == n && earns name)) ≡ true
      → (old ≡ true) ⊎ (earns n ≡ true)
  mark_earned earns name n true h = inl refl
  mark_earned earns name n false h = elim (Bool-cases (name == n)) [
    | inl e ↦ inr (subst (λ m. earns m ≡ true) (eq_of_beq name n e) (ground arith))
    | inr e ↦ inl (ground arith)
  ]

  -- The sums over all candidates, and who is marked at the end.
  pub tally_all-Tallied :
      (names : List String) (t t' : Tally)
      → tally_all ranks votes productivity names t ≡ ok t'
      → Tallied t t'
          (sum_of (production_of ranks votes productivity) names)
          (sum_of epoch_weight names)
          (sum_of foundation_weight names)
  unfolding tally_all
  tally_all-Tallied [] t t' h =
      let same : t ≡ t' = cc in
      rw same
        (record { productions = omega arith; epochs = omega arith; foundations = omega arith })
  tally_all-Tallied (name ∷ names) t t' h =
      elim (Result-cases (tally_one ranks votes productivity name t)) [
        | inl (u, e) ↦
            (let one = tally_one-Tallied name t u e in
              let rest = tally_all-Tallied names u t' (rw (e, tally_all) at h) in
              record {
                productions = omega (arith, one.productions, rest.productions);
                epochs = omega (arith, one.epochs, rest.epochs);
                foundations = omega (arith, one.foundations, rest.foundations);
              })
        | inr (x, e) ↦ absurd (let h' : err x ≡ ok t' = rw (e, tally_all) at h in cc)
      ]

  pub tally_all_epoch_marks :
      (names : List String) (n : String) (t t' : Tally)
      → tally_all ranks votes productivity names t ≡ ok t'
      → marked n t'.earn_epoch ≡ true
      → (marked n t.earn_epoch ≡ true) ⊎ (earns_epoch n ≡ true)
  unfolding tally_all
  tally_all_epoch_marks [] n t t' h m = let same : t ≡ t' = cc in inl (rw same m)
  tally_all_epoch_marks (name ∷ names) n t t' h m =
      elim (Result-cases (tally_one ranks votes productivity name t)) [
        | inl (u, e) ↦ elim (tally_all_epoch_marks names n u t' (rw (e, tally_all) at h) m) [
          | inl old ↦
              mark_earned earns_epoch name n (marked n t.earn_epoch)
                (sym (tally_one_epoch_marks name n t u e) ∙ old)
          | inr earned ↦ inr earned
        ]
        | inr (x, e) ↦ absurd (let h' : err x ≡ ok t' = rw (e, tally_all) at h in cc)
      ]

  pub tally_all_foundation_marks :
      (names : List String) (n : String) (t t' : Tally)
      → tally_all ranks votes productivity names t ≡ ok t'
      → marked n t'.earn_foundation ≡ true
      → (marked n t.earn_foundation ≡ true) ⊎ (earns_foundation n ≡ true)
  unfolding tally_all
  tally_all_foundation_marks [] n t t' h m = let same : t ≡ t' = cc in inl (rw same m)
  tally_all_foundation_marks (name ∷ names) n t t' h m =
      elim (Result-cases (tally_one ranks votes productivity name t)) [
        | inl (u, e) ↦ elim (tally_all_foundation_marks names n u t' (rw (e, tally_all) at h) m) [
          | inl old ↦
              mark_earned earns_foundation name n (marked n t.earn_foundation)
                (sym (tally_one_foundation_marks name n t u e) ∙ old)
          | inr earned ↦ inr earned
        ]
        | inr (x, e) ↦ absurd (let h' : err x ≡ ok t' = rw (e, tally_all) at h in cc)
      ]
