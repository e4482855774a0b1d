-- ===== src/Server/Float.antt =====
-- The two float64 products of server/batch_size_manager.go, on natural numbers: a product of
-- float64 values is rounded to 53 significant bits, ties to even, and `uint64` truncates it.
use iotex_analyser.Base.{
  ℕ, zero, suc, ◌+◌, ◌*◌, ◌/◌, ◌%◌, ◌^◌, ◌<◌, ◌≡◌, refl, arith, ltb, ◌&&◌, ◌||◌, nat_beq,
  if◌then◌else◌, ◌∙◌, lt→ltb, ap,
}

-- By how many bits `m` is longer than 53; 128 bits are read at most.
excess : ℕ → ℕ → ℕ
excess zero m = 0
excess (suc fuel) m = let more = 1 + excess fuel (m / 2) in if ltb m (2 ^ 53) then 0 else more

-- The float64 nearest to `m`.
round_at : ℕ → ℕ → ℕ
round_at e m =
    let unit = 2 ^ e in
    let q = m / unit in
    let r = m % unit in
    let up = ltb unit (r * 2) || (nat_beq (r * 2) unit && nat_beq (q % 2) 1) in
    (if up then q + 1 else q) * unit

float64 : ℕ → ℕ
float64 m = round_at (excess 128 m) m

-- `uint64(float64(x) * 1.2)`; the float64 constant 1.2 is 5404319552844595 / 2 ^ 52.
unfoldable pub scale_up : ℕ → ℕ
unfolding float64 round_at excess
scale_up x = float64 (float64 x * 5404319552844595) / 2 ^ 52

-- `uint64(float64(x) * 0.5)`.
unfoldable pub scale_down : ℕ → ℕ
unfolding float64 round_at excess
scale_down x = float64 x / 2

scale_down_lem : (x : ℕ) → scale_down x ≡ float64 x / 2
unfolding scale_down
scale_down_lem x = refl

excess_short : (fuel m : ℕ) → m < 2 ^ 53 → excess (suc fuel) m ≡ 0
unfolding excess
excess_short fuel m h = rw (lt→ltb m (2 ^ 53) h)

round_at_zero : (m : ℕ) → round_at 0 m ≡ m
unfolding round_at
round_at_zero m = ground arith

-- Integers below 2 ^ 53 are float64 values.
float64_exact : (x : ℕ) → x < 2 ^ 53 → float64 x ≡ x
unfolding float64
float64_exact x h = rw (excess_short 127 x h) (round_at_zero x)

pub scale_down-half : (x : ℕ) → x < 2 ^ 53 → scale_down x ≡ x / 2
scale_down-half x h = scale_down_lem x ∙ ap (λ (y : ℕ). y / 2) (float64_exact x h)

scale_up_tests : (scale_up 50 ≡ 60) × (scale_up 60 ≡ 72) × (scale_up 5 ≡ 6) × (scale_up 4 ≡ 4)
unfolding scale_up
scale_up_tests = (refl, refl, refl, refl)
