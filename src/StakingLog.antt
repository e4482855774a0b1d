-- ===== src/StakingLog.antt =====
-- service/stakinglog/bucketindex.go: the bucket index that a receipt's staking logs name.
--
-- The topics of the protocol's events, the set of the legacy topics and the unpacking of a Staked
-- event's data, which gives its first argument if that is a uint64, come from the protocol's ABI
-- and are parameters. A word is the list of its bytes.
pub mod Order
pub mod Words
use iotex_analyser.Base.{
  ℕ, ◌+◌, ◌*◌, ◌-◌, ◌^◌, String, Bool, true, false, not, ◌&&◌, ◌||◌, Option, none, some, List, [],
  ◌∷◌, ◌==◌, string_eq, nat_beq, ltb, if◌then◌else◌, length, take, drop,
}

-- `hash.Hash256`
abbrev pub Word : Type 0
Word = List ℕ

-- `==` on words.
unfoldable pub word_beq : Word → Word → Bool
word_beq [] [] = true
word_beq [] (b ∷ bs) = false
word_beq (a ∷ rest) [] = false
word_beq (a ∷ rest) (b ∷ bs) = nat_beq a b && word_beq rest bs

-- The fields of action.Log that are read.
pub record Log : Type 0 where
  pub address : String
  pub topics : List Word
  pub payload : List ℕ

abbrev pub protocol_address : String
protocol_address = "io1qnpz47hx5q6r3w876axtrn6yz95d70cjl35r53"

abbrev pub no_bucket : ℕ
no_bucket = 2 ^ 64 - 1

-- `binary.BigEndian.Uint64`, after the bytes that make up `acc`.
unfoldable pub big_endian : ℕ → List ℕ → ℕ
big_endian acc [] = acc
big_endian acc (b ∷ bs) = big_endian (acc * 256 + b) bs

unfoldable pub all_zero : List ℕ → Bool
all_zero [] = true
all_zero (b ∷ bs) = nat_beq b 0 && all_zero bs

-- `uint64FromTopic`
unfoldable pub uint64_from_topic : Word → Option ℕ
uint64_from_topic w = if all_zero (take 24 w) then some (big_endian 0 (drop 24 w)) else none

-- The locals of `BucketIndex`; `idx` with `found` is an option.
pub record Seen : Type 0 where
  pub found : Option ℕ
  pub registered : Bool

module _ (staked activated registered : Word) (legacy : Word → Bool)
    (unpack : List ℕ → Option ℕ) where
  -- `indexFromEventData`, given Topics[0].
  unfoldable pub index_from_event_data : Word → List ℕ → Option ℕ
  index_from_event_data topic payload =
      if word_beq topic staked
      then unpack payload
      else if ltb (length payload) 32
      then none
      else uint64_from_topic (take 32 payload)

  -- `if v, ok := …; ok { idx, found = v, true }`
  abbrev pub keep : Option ℕ → Seen → Seen
  keep none s = s
  keep (some v) s = record s { found = some v }

  -- The default case, given the topics after the first.
  unfoldable pub legacy_log : Word → List Word → Seen → Seen
  legacy_log topic [] s = s
  legacy_log topic (second ∷ more) s = if legacy topic then keep (uint64_from_topic second) s else s

  -- The switch on Topics[0].
  unfoldable pub protocol_log : List Word → List ℕ → Seen → Seen
  protocol_log [] payload s = s
  protocol_log (topic ∷ more) payload s =
      if word_beq topic staked || word_beq topic activated
      then keep (index_from_event_data topic payload) s
      else if word_beq topic registered
      then record s { registered = true }
      else legacy_log topic more s

  -- One turn of the loop; `none` is a nil log.
  unfoldable pub see : Option Log → Seen → Seen
  see none s = s
  see (some l) s = if l.address == protocol_address then protocol_log l.topics l.payload s else s

  unfoldable pub see_all : List (Option Log) → Seen → Seen
  see_all [] s = s
  see_all (l ∷ logs) s = see_all logs (see l s)

  -- The switch after the loop.
  unfoldable pub resolve : Seen → Option ℕ
  resolve s = elim s.found [
    | some v ↦ some v
    | none ↦ if s.registered then some no_bucket else none
  ]

  -- `BucketIndex`
  unfoldable pub bucket_index : List (Option Log) → Option ℕ
  bucket_index logs = resolve (see_all logs (record { found = none; registered = false }))
