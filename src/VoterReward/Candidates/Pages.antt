-- ===== src/VoterReward/Candidates/Pages.antt =====
-- The paging of candidates against a node that serves a list by its pages
-- (service/voter_reward/candidates.go).
use iotex_analyser.Base.{
  Result, err, String, Option, ℕ, zero, suc, ◌+◌, ◌*◌, ◌-◌, ◌%◌, ◌^◌, ◌≤◌, ◌<◌, ◌≡◌, refl, sym, ap,
  ◌∙◌, some, List, [], ◌∷◌, ◌++◌, append_assoc, ok, ltb, ltb→lt, Bool-cases, inl, inr, length, take,
  drop, arith, if◌then◌else◌, take-append-drop,
}
use iotex_analyser.VoterReward.Reader.{Client, Candidate}
use iotex_analyser.VoterReward.Candidates.{read_candidates_limit, all_staking_candidates}

-- The node's answers at a height are the pages of `all`.
abbrev pub Serves : Client → ℕ → List Candidate → Type 0
Serves client height all =
    (offset limit : ℕ)
    → client.candidate_page offset limit height ≡ ok (take limit (drop offset all))

module _ {A : Type 0} where
  -- A short page is all that is left.
  take-short : (n : ℕ) (xs : List A) → length (take n xs) < n → take n xs ≡ xs
  take-short zero xs h = absurd (omega (arith, h))
  take-short (suc n) [] h = refl
  take-short (suc n) (x ∷ xs) h = ap (λ l. x ∷ l) (take-short n xs (omega (arith, h)))

  length-take-full : (n : ℕ) (xs : List A) → n ≤ length (take n xs) → n ≤ length xs
  length-take-full zero xs h = omega arith
  length-take-full (suc n) [] h = h
  length-take-full (suc n) (x ∷ xs) h = omega (arith, length-take-full n xs (omega (arith, h)))

  length-drop : (n : ℕ) (xs : List A) → length (drop n xs) ≡ length xs - n
  length-drop zero xs = omega arith
  length-drop (suc n) [] = omega arith
  length-drop (suc n) (x ∷ xs) = omega (arith, length-drop n xs)

  drop_nil : (n : ℕ) → drop {A = A} n [] ≡ []
  drop_nil zero = refl
  drop_nil (suc n) = refl

  drop-drop : (n m : ℕ) (xs : List A) → drop n (drop m xs) ≡ drop (m + n) xs
  drop-drop n zero xs = ap (λ k. drop k xs) (omega arith)
  drop-drop n (suc m) [] = drop_nil n ∙ sym (drop_nil (suc m + n))
  drop-drop n (suc m) (x ∷ xs) =
      drop-drop n m xs
      ∙ ap (λ k. drop k (x ∷ xs)) (let e : suc (m + n) ≡ suc m + n = omega arith in e)

module _ (client : Client) (height : ℕ) (all : List Candidate)
    (serves : Serves client height all) where
  -- What a turn of the loop does with the answer.
  abbrev turn :
      List Candidate
      → (List Candidate → Option (Result String (List Candidate)))
      → Result String (List Candidate)
      → Option (Result String (List Candidate))
  turn out again (err e) = some (err e)
  turn out again (ok page) =
      if ltb (length page) read_candidates_limit
      then some (ok (out ++ page))
      else again (out ++ page)

  all_staking_candidates-turn :
      (fuel i : ℕ) (out : List Candidate)
      → all_staking_candidates client (suc fuel) i height out
        ≡ turn out (all_staking_candidates client fuel ((i + 1) % 2 ^ 32) height) (
            client.candidate_page (i * read_candidates_limit % 2 ^ 32) read_candidates_limit height)
  unfolding all_staking_candidates
  all_staking_candidates-turn fuel i out = refl

  -- From a page that is not beyond the list, the rest of the list is put behind what was read.
  pages_from :
      (fuel i : ℕ) (out : List Candidate)
      → i * read_candidates_limit ≤ length all
      → length all < (i + fuel) * read_candidates_limit
      → (i + fuel) * read_candidates_limit < 2 ^ 32
      → all_staking_candidates client fuel i height out
        ≡ some (ok (out ++ drop (i * read_candidates_limit) all))
  pages_from zero i out h k w = absurd (omega arith)
  pages_from (suc fuel) i out h k w =
      let offset : i * read_candidates_limit % 2 ^ 32 ≡ i * read_candidates_limit = omega arith in
      let next : (i + 1) % 2 ^ 32 ≡ i + 1 = omega arith in
      let left = drop (i * read_candidates_limit) all in
      let page = take read_candidates_limit left in
      let answer = serves (i * read_candidates_limit) read_candidates_limit in
      rw (all_staking_candidates-turn fuel i out, offset, answer, next)
        (elim (Bool-cases (ltb (length page) read_candidates_limit)) [
          | inl b ↦
              rw
                (
                  b,
                  take-short read_candidates_limit left
                      (ltb→lt (length page) read_candidates_limit b),
                )
                refl
          | inr b ↦
              (let full : read_candidates_limit ≤ length left =
                  length-take-full read_candidates_limit left (ground arith) in
                let size = length-drop (i * read_candidates_limit) all in
                let step : i * read_candidates_limit + read_candidates_limit
                    ≡ (i + 1) * read_candidates_limit =
                  omega arith in
                rw b (
                  pages_from fuel (i + 1) (out ++ page) (omega arith) (omega arith) (omega arith)
                  ∙ ap (λ l. some (ok l))
                      (append_assoc out page (drop ((i + 1) * read_candidates_limit) all)
                        ∙ ap (λ l. out ++ l)
                            (ap (λ l. page ++ l)
                                (ap (λ n. drop n all) (sym step)
                                  ∙ sym (
                                      drop-drop read_candidates_limit (i * read_candidates_limit)
                                        all))
                              ∙ take-append-drop read_candidates_limit left))))
        ])

  -- Against a node that serves a list of candidates by its pages, with fuel for more candidates
  -- than the list has and below 2^32, the paging ends and returns the whole list in its order.
  pub all_staking_candidates-Serves :
      (fuel : ℕ)
      → length all < fuel * read_candidates_limit
      → fuel * read_candidates_limit < 2 ^ 32
      → all_staking_candidates client fuel 0 height [] ≡ some (ok all)
  all_staking_candidates-Serves fuel h w =
      pages_from fuel 0 [] (omega arith) (omega arith) (omega arith)
