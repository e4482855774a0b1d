-- ===== src/Hermes/Contributors.antt =====
-- `contributorsTo` (service/hermes_reward/rebuild.go).
use iotex_analyser.Base.{
  ◌≤◌, ◌<◌, ◌≡◌, refl, inl, inr, String, Bool, true, false, ◌||◌, List, [], ◌∷◌, leb, nat_beq,
  length, All, Any, arith, Bool-cases,
}
use iotex_analyser.Base.GoMap.{GoMap}
use iotex_analyser.Hermes.{marked, keep_unmarked, contributors_to}

module _ (opted : GoMap String Bool) where
  keep_unmarked-unmarked :
      (names : List String) → All (λ n. marked n opted ≡ false) (keep_unmarked names opted)
  unfolding keep_unmarked
  keep_unmarked-unmarked [] = tt
  keep_unmarked-unmarked (name ∷ names) = elim (Bool-cases (marked name opted)) [
    | inl e ↦ rw e (keep_unmarked-unmarked names)
    | inr e ↦ rw e (e, keep_unmarked-unmarked names)
  ]

  keep_unmarked-keeps :
      (n : String) (names : List String)
      → marked n opted ≡ false
      → Any (λ m. m ≡ n) names
      → Any (λ m. m ≡ n) (keep_unmarked names opted)
  unfolding keep_unmarked
  keep_unmarked-keeps n [] u h = h
  keep_unmarked-keeps n (name ∷ names) u (inl e) = rw (e, u) (inl refl)
  keep_unmarked-keeps n (name ∷ names) u (inr h) = elim (Bool-cases (marked name opted)) [
    | inl e ↦ rw e (keep_unmarked-keeps n names u h)
    | inr e ↦ rw e (inr (keep_unmarked-keeps n names u h))
  ]

  keep_unmarked_none :
      (names : List String)
      → All (λ n. marked n opted ≡ true) names
      → keep_unmarked names opted ≡ []
  unfolding keep_unmarked
  keep_unmarked_none [] h = refl
  keep_unmarked_none (name ∷ names) h = rw h.0 (keep_unmarked_none names h.1)

  length_of_Any : (n : String) (names : List String) → Any (λ m. m ≡ n) names → 1 ≤ length names
  length_of_Any n [] h = elim h [ ]
  length_of_Any n (name ∷ names) h = omega arith

module _ (names : List String) (opted : GoMap String Bool) (some_in : 1 ≤ length opted)
    (shared : 1 < length names) where
  -- Where several delegates share an address and some delegate has opted in, a delegate of the
  -- address who has not opted in is among the contributors, and every contributor has not opted in.
  pub contributors_to-unmarked :
      (n : String)
      → marked n opted ≡ false
      → Any (λ m. m ≡ n) names
      → All (λ m. marked m opted ≡ false) (contributors_to names opted)
        × Any (λ m. m ≡ n) (contributors_to names opted)
  unfolding contributors_to
  contributors_to-unmarked n u h =
      let skip : (nat_beq (length opted) 0 || leb (length names) 1) ≡ false = ground arith in
      let kept = keep_unmarked-keeps opted n names u h in
      let full : nat_beq (length (keep_unmarked names opted)) 0 ≡ false =
        ground (arith, length_of_Any opted n (keep_unmarked names opted) kept) in
      rw (skip, full) (keep_unmarked-unmarked opted names, kept)

-- Where every delegate of an address has opted in, all of them are its contributors.
pub contributors_to-All :
    (names : List String) (opted : GoMap String Bool)
    → All (λ n. marked n opted ≡ true) names
    → contributors_to names opted ≡ names
unfolding contributors_to
contributors_to-All names opted h =
    elim (Bool-cases (nat_beq (length opted) 0 || leb (length names) 1)) [
      | inl e ↦ rw e
      | inr e ↦ rw (e, keep_unmarked_none opted names h)
    ]
