-- ===== src/Base/Portions.antt =====
-- Proportional shares of a total, rounded down: they never add up to more than the total, and what
-- is left over is less than the number of shares.
use iotex_analyser.Base.Lists.{length}
use Prim.Native.Nat.{ℕ, zero, suc, ◌+◌, ◌*◌, ◌/◌, ◌≤◌, ◌<◌}
use mathlib.Core.Path.{◌≡◌, refl, sym, ap, ◌∙◌}
use mathlib.Core.List.{List, [], ◌∷◌, ◌++◌, map, foldr, Perm}
use mathlib.Core.List.Perm
use native.Mathlib.Nat.{ℕ_set}
use native.Mathlib.Omega.{arith}

div-mul-le : (a s : ℕ) → a / s * s ≤ a
div-mul-le a s = grind arith

div-mul-lt : (a s : ℕ) → 0 < s → a < a / s * s + s
div-mul-lt a s h = grind arith

le_of_mul_le : (a b s : ℕ) → 0 < s → a * s ≤ b * s → a ≤ b
le_of_mul_le a b s h k = grind arith

mul_mono_left : (a b s : ℕ) → a ≤ b → s * a ≤ s * b
mul_mono_left a b s h = grind arith

module _ {A : Type 0} where
  -- Σ f
  abbrev pub sum_of : (A → ℕ) → List A → ℕ
  sum_of f [] = 0
  sum_of f (x ∷ xs) = f x + sum_of f xs

  foldr-sum_of : (f : A → ℕ) (xs : List A) → foldr (λ x n. f x + n) 0 xs ≡ sum_of f xs
  foldr-sum_of f [] = refl
  foldr-sum_of f (x ∷ xs) = ap (λ n. f x + n) (foldr-sum_of f xs)

  pub sum_of-Perm : (f : A → ℕ) (xs ys : List A) → Perm xs ys → sum_of f xs ≡ sum_of f ys
  sum_of-Perm f xs ys p =
      sym (foldr-sum_of f xs)
      ∙ Perm.foldr-eq ℕ_set (λ x n. f x + n) (λ a b n. omega arith) p 0
      ∙ foldr-sum_of f ys

  pub sum_of_mono : (f g : A → ℕ) (xs : List A) → ((x : A) → f x ≤ g x) → sum_of f xs ≤ sum_of g xs
  sum_of_mono f g [] h = omega arith
  sum_of_mono f g (x ∷ xs) h = omega (arith, h x, sum_of_mono f g xs h)

  portions-mul-le :
      (total s : ℕ) (f : A → ℕ) (xs : List A)
      → sum_of (λ x. total * f x / s) xs * s ≤ total * sum_of f xs
  portions-mul-le total s f [] = omega arith
  portions-mul-le total s f (x ∷ xs) =
      omega (arith, portions-mul-le total s f xs, div-mul-le (total * f x) s)

  portions-mul-lt :
      (total s : ℕ) (f : A → ℕ) (xs : List A)
      → 0 < s
      → total * sum_of f xs ≤ sum_of (λ x. total * f x / s) xs * s + length xs * s
  portions-mul-lt total s f [] h = omega arith
  portions-mul-lt total s f (x ∷ xs) h =
      omega (arith, portions-mul-lt total s f xs h, div-mul-lt (total * f x) s h)

  portions_zero : (total : ℕ) (f : A → ℕ) (xs : List A) → sum_of (λ x. total * f x / 0) xs ≡ 0
  portions_zero total f [] = refl
  portions_zero total f (x ∷ xs) = omega (arith, portions_zero total f xs)

  -- Also where `s` is 0: then every share is 0.
  pub sum_of_portions-le :
      (total s : ℕ) (f : A → ℕ) (xs : List A)
      → sum_of f xs ≤ s
      → sum_of (λ x. total * f x / s) xs ≤ total
  sum_of_portions-le total zero f xs le = omega (arith, portions_zero total f xs)
  sum_of_portions-le total (suc s) f xs le = le_of_mul_le _ total (suc s) (omega arith) (
      omega
        (arith, portions-mul-le total (suc s) f xs, mul_mono_left (sum_of f xs) (suc s) total le))

  pub le-sum_of_portions :
      (total s : ℕ) (f : A → ℕ) (xs : List A)
      → 0 < s
      → sum_of f xs ≡ s
      → total ≤ sum_of (λ x. total * f x / s) xs + length xs
  le-sum_of_portions total s f xs h e =
      le_of_mul_le total _ s h
        (omega (arith, portions-mul-lt total s f xs h, ap (λ (n : ℕ). total * n) e))

pub sum_of-append :
    {A : Type 0} (f : A → ℕ) (xs ys : List A) → sum_of f (xs ++ ys) ≡ sum_of f xs + sum_of f ys
sum_of-append f [] ys = omega arith
sum_of-append f (x ∷ xs) ys = omega (arith, sum_of-append f xs ys)

pub sum_of-map :
    {A B : Type 0} (f : B → ℕ) (g : A → B) (xs : List A)
    → sum_of f (map g xs) ≡ sum_of (λ x. f (g x)) xs
sum_of-map f g [] = refl
sum_of-map f g (x ∷ xs) = ap (λ n. f (g x) + n) (sum_of-map f g xs)
