-- ===== src/Base/Stateful.antt =====
-- A Go method that changes its receiver and returns a value and an error: what was changed before
-- an error stays changed.
use Prim.Native.String.{String}
use iotex_analyser.Base.Returns.{Result, ok, err}

abbrev pub Stateful : Type 0 → Type 0 → Type 0
Stateful S A = S → Result String A × S

abbrev pub continue_with :
    {S A B : Type 0} → (A → Stateful S B) → Result String A × S → Result String B × S
continue_with next (ok a, s) = next a s
continue_with next (err e, s) = (err e, s)

infixl 5 ◌>>=◌ ◌>>◌
abbrev pub ◌>>=◌ : {S A B : Type 0} → Stateful S A → (A → Stateful S B) → Stateful S B
◌>>=◌ m next s = continue_with next (m s)

abbrev pub ◌>>◌ : {S B : Type 0} → Stateful S (Unit {0}) → Stateful S B → Stateful S B
m >> next = m >>= λ _. next

abbrev pub pure : {S A : Type 0} → A → Stateful S A
pure a s = (ok a, s)

-- `if err != nil { return err }` after a call that leaves the receiver alone.
abbrev pub lift : {S A : Type 0} → Result String A → Stateful S A
lift r s = (r, s)

abbrev pub modify : {S : Type 0} → (S → S) → Stateful S (Unit {0})
modify f s = (ok tt, f s)

module _ {S : Type 0} (P : S → Type 0) where
  -- A method that keeps a property of its receiver, whether it fails or not.
  pub record Keeps {A : Type 0} (m : Stateful S A) : Type 0 where
    pub keeps : (s : S) → P s → P (m s).1

  continue_with-Keeps :
      {A B : Type 0} (next : A → Stateful S B) (x : Result String A × S)
      → ((a : A) → Keeps (next a))
      → P x.1
      → P (continue_with next x).1
  continue_with-Keeps next (ok a, s) k h = (k a).keeps s h
  continue_with-Keeps next (err e, s) k h = h

  pub Keeps-bind :
      {A B : Type 0} (m : Stateful S A) (next : A → Stateful S B)
      → Keeps m
      → ((a : A) → Keeps (next a))
      → Keeps (m >>= next)
  Keeps-bind m next h k = record { keeps = λ s p. continue_with-Keeps next (m s) k (h.keeps s p) }

  pub Keeps-modify : (f : S → S) → ((s : S) → P s → P (f s)) → Keeps (modify f)
  Keeps-modify f h = record { keeps = h }

  pub Keeps-lift : {A : Type 0} (r : Result String A) → Keeps (lift r)
  Keeps-lift r = record { keeps = λ s p. p }

  pub Keeps-pure : {A : Type 0} (a : A) → Keeps (pure a)
  Keeps-pure a = record { keeps = λ s p. p }
