-- ===== src/Base/Equality.antt =====
-- Go's `==` on comparable types, as an instance with its law.
use text.Mathlib.TextEquality.{eq_iff}
use mathlib.Core.Logic.{◌↔◌}
use mathlib.Core.Bool.{Bool, true}
use mathlib.Core.Path.{◌≡◌, refl}
use iotex_analyser.Base.Tests.{nat_beq, nat_beq_iff}
use text.Mathlib.Text.{◌==◌ as str_eq}
use Prim.Native.String.{String}
use Prim.Native.Nat.{ℕ}

-- `beq` is Go's test; values that it takes for equal are equal.
pub record Eq {κ} (T : Type κ) : Type κ where
  pub beq : T → T → Bool
  pub beq_iff : (x y : T) → (beq x y ≡ true) ↔ (x ≡ y)

infix 50 ◌==◌
abbrev pub ◌==◌ {κ} : {T : Type κ} ⦃same : Eq T⦄ → T → T → Bool
◌==◌ ⦃same⦄ = same.beq

pub beq_refl {κ} : {T : Type κ} ⦃same : Eq T⦄ (x : T) → (x == x) ≡ true
beq_refl ⦃same⦄ x = (same.beq_iff x x).1 refl

pub eq_of_beq {κ} : {T : Type κ} ⦃same : Eq T⦄ (x y : T) → (x == y) ≡ true → x ≡ y
eq_of_beq ⦃same⦄ x y h = (same.beq_iff x y).0 h

instance abbrev pub string_eq : Eq String
string_eq = record { beq = str_eq; beq_iff = eq_iff }

instance abbrev pub nat_eq : Eq ℕ
nat_eq = record { beq = nat_beq; beq_iff = nat_beq_iff }
