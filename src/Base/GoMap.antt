-- ===== src/Base/GoMap.antt =====
-- Go's `map[K]V` as an association list. A key stands in it once when it is built by `insert`.
-- The order of the entries stands for the order in which a `range` loop meets them.
use iotex_analyser.Base.Equality.{Eq, ◌==◌}
use iotex_analyser.Base.Tests.{if◌then◌else◌}
use mathlib.Core.Path.{◌≡◌, refl}
use mathlib.Core.Bool.{Bool, true, false}
use mathlib.Core.Option.{Option, none, some}
use mathlib.Core.List.{List, [], ◌∷◌}
use native.Mathlib.Omega.{arith}

abbrev pub GoMap : Type 0 → Type 0 → Type 0
GoMap K V = List (K × V)

module _ {K V : Type 0} ⦃eq : Eq K⦄ where
  -- `v, ok := es[k]`
  unfoldable pub lookup : K → GoMap K V → Option V
  lookup k [] = none
  lookup k ((j, v) ∷ es) = if j == k then some v else lookup k es

  -- `es[k] = v`
  unfoldable pub insert : K → V → GoMap K V → GoMap K V
  insert k v [] = (k, v) ∷ []
  insert k v ((j, u) ∷ es) = if j == k then (j, v) ∷ es else (j, u) ∷ insert k v es

  -- `delete(es, k)`
  unfoldable pub erase : K → GoMap K V → GoMap K V
  erase k [] = []
  erase k ((j, u) ∷ es) = let rest = erase k es in if j == k then rest else (j, u) ∷ rest

  -- `_, ok := es[k]`
  unfoldable pub has : K → GoMap K V → Bool
  has k es = elim (lookup k es) [ none ↦ false | some v ↦ true ]

  pub lookup-insert :
      (k j : K) (v : V) (es : GoMap K V)
      → lookup j (insert k v es) ≡ (if k == j then some v else lookup j es)
  unfolding lookup insert
  lookup-insert k j v [] = refl
  lookup-insert k j v ((i, u) ∷ es) =
      ground (arith, eq.beq_iff k j, eq.beq_iff i k, eq.beq_iff i j, lookup-insert k j v es)

  pub lookup-erase :
      (k j : K) (es : GoMap K V) → lookup j (erase k es) ≡ (if k == j then none else lookup j es)
  unfolding lookup erase
  lookup-erase k j [] = ground arith
  lookup-erase k j ((i, u) ∷ es) =
      ground (arith, eq.beq_iff k j, eq.beq_iff i k, eq.beq_iff i j, lookup-erase k j es)

pub lookup-empty : {K V : Type 0} ⦃eq : Eq K⦄ (k : K) → lookup {V = V} k [] ≡ none
unfolding lookup
lookup-empty k = refl

pub has-empty : {K : Type 0} (V : Type 0) ⦃eq : Eq K⦄ (k : K) → has {V = V} k [] ≡ false
unfolding has lookup
has-empty V k = refl

module _ {K V : Type 0} ⦃eq : Eq K⦄ where
  pub has-insert :
      (k j : K) (v : V) (es : GoMap K V)
      → has j (insert k v es) ≡ (if k == j then true else has j es)
  unfolding has
  has-insert k j v es = ground (arith, lookup-insert k j v es)

  pub has-erase :
      (k j : K) (es : GoMap K V) → has j (erase k es) ≡ (if k == j then false else has j es)
  unfolding has
  has-erase k j es = ground (arith, lookup-erase k j es)

-- The keys of a map, in the order of its entries.
abbrev pub keys : {K V : Type 0} → GoMap K V → List K
keys [] = []
keys ((k, v) ∷ es) = k ∷ keys es
