-- ===== src/Examples/StakingLog.antt =====
-- Staking logs with small words for topics (service/stakinglog/bucketindex.go).
use iotex_analyser.Base.{
  ℕ, ◌≡◌, ◌≢◌, refl, inl, inr, Bool, Option, none, some, List, [], ◌∷◌, ◌++◌, arith,
}
use iotex_analyser.StakingLog.{
  Word, Log, bucket_index, uint64_from_topic, no_bucket, word_beq, index_from_event_data,
}
use iotex_analyser.StakingLog.Order.{
  bucket_index-Names, bucket_index-Registers, bucket_index-none, Says, says,
}
use iotex_analyser.StakingLog.Words.{
  bytes_of, zeros, uint64_from_topic-bytes_of, uint64_from_topic-none,
}

abbrev staked : Word
staked = 1 ∷ []

abbrev activated : Word
activated = 2 ∷ []

abbrev registered : Word
registered = 3 ∷ []

abbrev legacy : Word → Bool
legacy w = word_beq w (4 ∷ [])

abbrev unpack : List ℕ → Option ℕ
unpack [] = none
unpack (b ∷ bs) = some b

abbrev event : Word → List ℕ → Option Log
event topic bytes = some (record {
  address = "io1qnpz47hx5q6r3w876axtrn6yz95d70cjl35r53";
  topics = topic ∷ [];
  payload = bytes;
})

-- A log of a contract that emits the same topic.
abbrev foreign : Option Log
foreign = some (record { address = "io1"; topics = staked ∷ []; payload = 9 ∷ [] })

stake_says : says staked activated registered legacy unpack (event staked (7 ∷ [])) ≡ Says.index 7
unfolding word_beq index_from_event_data
stake_says = refl

abbrev full : List (Option Log)
full = event registered [] ∷ foreign ∷ event staked (7 ∷ []) ∷ none ∷ []

bucket_index-Names_example : bucket_index staked activated registered legacy unpack full ≡ some 7
unfolding word_beq index_from_event_data
bucket_index-Names_example =
    bucket_index-Names staked activated registered legacy unpack 7 full (tt, (tt, (refl, (tt, tt))))
      (inr (inr (inl refl)))

abbrev bare : List (Option Log)
bare = none ∷ event registered [] ∷ foreign ∷ []

bucket_index-Registers_example :
    bucket_index staked activated registered legacy unpack bare ≡ some no_bucket
unfolding word_beq index_from_event_data
bucket_index-Registers_example =
    bucket_index-Registers staked activated registered legacy unpack bare (tt, (tt, (tt, tt)))
      (inr (inl tt))

bucket_index-none_example :
    bucket_index staked activated registered legacy unpack (foreign ∷ none ∷ []) ≡ none
unfolding word_beq index_from_event_data
bucket_index-none_example =
    bucket_index-none staked activated registered legacy unpack (foreign ∷ none ∷ [])
      (refl, (refl, tt))

uint64_from_topic-bytes_of_example : uint64_from_topic (zeros 24 ++ bytes_of 8 70000) ≡ some 70000
uint64_from_topic-bytes_of_example = uint64_from_topic-bytes_of 70000 (omega arith)

one_not_zero : ◌≢◌ {A = ℕ} 1 0
one_not_zero e = omega (arith, e)

uint64_from_topic-none_example : uint64_from_topic (0 ∷ 1 ∷ zeros 30) ≡ none
uint64_from_topic-none_example = uint64_from_topic-none (0 ∷ 1 ∷ zeros 30) (inr (inl one_not_zero))
