-- ===== src/VoterReward/Decode/Text.antt =====
-- strings.Split at the colons and strconv.ParseUint to base 10, as service/voter_reward/decode.go
-- calls them.
use Prim.Native.Char.{Char, code}
use iotex_analyser.Base.{
  ℕ, ◌+◌, ◌*◌, ◌-◌, ◌^◌, String, ◌&&◌, Option, none, some, List, [], ◌∷◌, ltb, leb, nat_beq,
  if◌then◌else◌,
}

-- A character in front of the first part.
abbrev pub onto_first : Char → List String → List String
onto_first c [] = []
onto_first c (part ∷ parts) = String.◌∷◌ c part ∷ parts

unfoldable pub split_colon : String → List String
split_colon String.[] = "" ∷ []
split_colon (String.◌∷◌ c s) =
    let rest = split_colon s in if nat_beq (code c) 58 then "" ∷ rest else onto_first c rest

-- The number that the digits of `s` make after those that made `acc`.
unfoldable pub parse_digits : ℕ → String → Option ℕ
parse_digits acc String.[] = some acc
parse_digits acc (String.◌∷◌ c s) =
    let rest = parse_digits (acc * 10 + (code c - 48)) s in
    if leb 48 (code c) && leb (code c) 57 then rest else none

abbrev pub within : ℕ → Option ℕ → Option ℕ
within bits none = none
within bits (some n) = if ltb n (2 ^ bits) then some n else none

unfoldable pub parse_uint : ℕ → String → Option ℕ
unfolding parse_digits
parse_uint bits String.[] = none
parse_uint bits (String.◌∷◌ c s) = within bits (parse_digits 0 (String.◌∷◌ c s))
