-- ===== src/StakingLog/Words.antt =====
-- The bucket index in a word (service/stakinglog/bucketindex.go).
use iotex_analyser.Base.{
  ℕ, zero, suc, ◌+◌, ◌*◌, ◌/◌, ◌%◌, ◌^◌, ◌<◌, ◌≢◌, ◌≡◌, refl, false, none, some, List, [], ◌∷◌,
  ◌++◌, take, arith, Any, inl, inr,
}
use native.Mathlib.Nat.{pow-suc}
use iotex_analyser.StakingLog.{Word, big_endian, all_zero, uint64_from_topic}

-- The low `k` bytes of `n`, the highest first.
abbrev pub bytes_of : ℕ → ℕ → List ℕ
bytes_of zero n = []
bytes_of (suc k) n = bytes_of k (n / 256) ++ (n % 256 ∷ [])

abbrev pub zeros : ℕ → List ℕ
zeros zero = []
zeros (suc k) = 0 ∷ zeros k

big_endian-append :
    (acc : ℕ) (bs : List ℕ) (b : ℕ) → big_endian acc (bs ++ (b ∷ [])) ≡ big_endian acc bs * 256 + b
unfolding big_endian
big_endian-append acc [] b = refl
big_endian-append acc (c ∷ bs) b = big_endian-append (acc * 256 + c) bs b

big_endian-bytes_of : (k n : ℕ) → n < 256 ^ k → big_endian 0 (bytes_of k n) ≡ n
unfolding big_endian
big_endian-bytes_of zero n h = omega arith
big_endian-bytes_of (suc k) n h =
    let power : 256 ^ suc k ≡ 256 ^ k * 256 = pow-suc 256 k in
    let high : big_endian 0 (bytes_of k (n / 256)) ≡ n / 256 =
      big_endian-bytes_of k (n / 256) (omega (arith, power)) in
    omega (arith, big_endian-append 0 (bytes_of k (n / 256)) (n % 256), high)

-- A number below 2^64 that is written big-endian into the low 8 bytes of a 32-byte word is read
-- back.
pub uint64_from_topic-bytes_of :
    (n : ℕ) → n < 2 ^ 64 → uint64_from_topic (zeros 24 ++ bytes_of 8 n) ≡ some n
unfolding uint64_from_topic all_zero
uint64_from_topic-bytes_of n h = rw (big_endian-bytes_of 8 n h) refl

all_zero_not : (bs : List ℕ) → Any (λ b. b ≢ 0) bs → all_zero bs ≡ false
unfolding all_zero
all_zero_not [] h = elim h [ ]
all_zero_not (b ∷ bs) (inl h) = ground arith
all_zero_not (b ∷ bs) (inr h) = ground (arith, all_zero_not bs h)

-- A word with a byte other than 0 among its first 24 is not read as a number.
pub uint64_from_topic-none : (w : Word) → Any (λ b. b ≢ 0) (take 24 w) → uint64_from_topic w ≡ none
unfolding uint64_from_topic
uint64_from_topic-none w h = rw (all_zero_not (take 24 w) h) refl
