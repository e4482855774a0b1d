-- ===== src/VoterReward/Candidates.antt =====
-- service/voter_reward/candidates.go: the index of candidates.
pub mod Pages
use iotex_analyser.Base.{
  ℕ, zero, suc, ◌+◌, ◌*◌, ◌%◌, ◌^◌, String, Bool, true, false, Option, none, some, List, [], ◌∷◌,
  ◌++◌, Result, ok, err, ltb, ◌==◌, string_eq, if◌then◌else◌, length,
}
use iotex_analyser.Base.GoMap.{GoMap, lookup, insert}
use iotex_analyser.VoterReward.{CandidateInfo, CandidateIndex}
use iotex_analyser.VoterReward.Reader.{Client, Candidate}

abbrev pub read_candidates_limit : ℕ
read_candidates_limit = 20000

-- The body of the loop of `Refresh`; an empty identifier is the owner.
abbrev pub info_of : Candidate → CandidateInfo
info_of cand = record {
  identifier = if cand.id == "" then cand.owner_address else cand.id;
  name = cand.name;
  owner = cand.owner_address;
  reward = cand.reward_address;
  operator = cand.operator_address;
}

unfoldable pub index_candidates : List Candidate → CandidateIndex → CandidateIndex
index_candidates [] c = c
index_candidates (cand ∷ list) c =
    let info = info_of cand in
    index_candidates list (record c {
      by_id = insert info.identifier info c.by_id;
      by_owner = if info.owner == "" then c.by_owner else insert info.owner info c.by_owner;
    })

-- The entries of a map to records, for `All`.
abbrev pub values : GoMap String CandidateInfo → List CandidateInfo
values [] = []
values ((id, info) ∷ m) = info ∷ values m

-- `All`
unfoldable pub all_candidates : CandidateIndex → List CandidateInfo
all_candidates c = values c.by_id

-- `Lookup`
unfoldable pub lookup_candidate : String → CandidateIndex → Option CandidateInfo
lookup_candidate identifier c = elim (lookup identifier c.by_id) [
  | some info ↦ some info
  | none ↦ lookup identifier c.by_owner
]

module _ (client : Client) where
  -- `allStakingCandidates` from page `i` on, on fuel; `none` means that the fuel ran out.
  unfoldable pub all_staking_candidates :
      ℕ → ℕ → ℕ → List Candidate → Option (Result String (List Candidate))
  all_staking_candidates zero i height out = none
  all_staking_candidates (suc fuel) i height out =
      elim (client.candidate_page (i * read_candidates_limit % 2 ^ 32) read_candidates_limit
        height) [
          | err e ↦ some (err e)
          | ok page ↦
              (let rest = all_staking_candidates fuel ((i + 1) % 2 ^ 32) height (out ++ page) in
                if ltb (length page) read_candidates_limit then some (ok (out ++ page)) else rest)
        ]

  -- What `Refresh` makes of the list.
  abbrev pub refreshed :
      ℕ → Option (Result String (List Candidate)) → Option (Result String CandidateIndex)
  refreshed height none = none
  refreshed height (some (err e)) = some (err e)
  refreshed height (some (ok list)) =
      some (ok (index_candidates list (record { by_id = []; by_owner = []; height = height })))

  -- `Refresh`: the new index, or an error, which leaves the old one in place.
  unfoldable pub refresh : ℕ → ℕ → Option (Result String CandidateIndex)
  refresh fuel height = refreshed height (all_staking_candidates fuel 0 height [])
