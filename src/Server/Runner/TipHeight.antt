-- ===== src/Server/Runner/TipHeight.antt =====
-- `getTipHeight` (server/runner.go): how far a runner may go.
use iotex_analyser.Base.{
  ℕ, ◌≤◌, ◌≡◌, ◌⊎◌, inl, inr, String, List, [], ◌∷◌, ok, err, arith, ltb, if◌then◌else◌, Bool, All,
  Any, Result-cases,
}
use iotex_analyser.Server.Runner.{Env, Plugin, lowest, get_tip_height}

-- `h` is the least of `dep` and the heights of the plugins `names`.
pub record IsLeast (height : String → ℕ) (names : List String) (dep h : ℕ) : Type 0 where
  pub below : h ≤ dep
  pub below_each : All (λ name. h ≤ height name) names
  pub attained : (h ≡ dep) ⊎ Any (λ name. h ≡ height name) names

IsLeast-cons_attained :
    (height : String → ℕ) (name : String) (names : List String) (dep v h : ℕ)
    → v ≡ height name
    → (h ≡ (if ltb v dep then v else dep)) ⊎ Any (λ n. h ≡ height n) names
    → (h ≡ dep) ⊎ ((h ≡ height name) ⊎ Any (λ n. h ≡ height n) names)
IsLeast-cons_attained height name names dep v h e (inl a) = ground arith
IsLeast-cons_attained height name names dep v h e (inr a) = inr (inr a)

-- One more plugin, of height `v`.
IsLeast-cons :
    (height : String → ℕ) (name : String) (names : List String) (dep v h : ℕ)
    → v ≡ height name
    → IsLeast height names (if ltb v dep then v else dep) h
    → IsLeast height (name ∷ names) dep h
IsLeast-cons height name names dep v h e l = record {
  below = ground arith;
  below_each = (ground arith, l.below_each);
  attained = IsLeast-cons_attained height name names dep v h e l.attained;
}

module _ (env : Env) (plugin : Plugin) (catch_up : Bool) where
  module _ (height : String → ℕ)
      (answers : (name : String) (w : env.World) (v : ℕ)
        → (env.index_height name w).0 ≡ ok v
        → v ≡ height name) where
    lowest-IsLeast :
        (names : List String) (dep : ℕ) (w : env.World) (h : ℕ)
        → (lowest env plugin catch_up names dep w).0 ≡ ok h
        → IsLeast height names dep h
    unfolding lowest
    lowest-IsLeast [] dep w h e =
        let same : h ≡ dep = cc in
        record { below = omega arith; below_each = tt; attained = inl same }
    lowest-IsLeast (name ∷ names) dep w h e = elim (Result-cases (env.index_height name w).0) [
      | inl (v, q) ↦ IsLeast-cons height name names dep v h (answers name w v q) (
          lowest-IsLeast names (if ltb v dep then v else dep) (env.index_height name w).1 h
            (rw (q, lowest) at e))
      | inr (x, q) ↦ absurd (let e' : err x ≡ ok h = rw (q, lowest) at e in cc)
    ]

    -- When the index heights do not change meanwhile, a tip height that is answered is the least of
    -- the DAO's height and the index heights of the plugins depended on.
    pub get_tip_height-IsLeast :
        (w : env.World) (h : ℕ)
        → (get_tip_height env plugin catch_up w).0 ≡ ok h
        → (dao : ℕ) × ((env.dao_height w).0 ≡ ok dao) × IsLeast height plugin.dependents dao h
    unfolding get_tip_height
    get_tip_height-IsLeast w h e = elim (Result-cases (env.dao_height w).0) [
      | inl (dao, q) ↦ (
        dao,
        q,
        lowest-IsLeast plugin.dependents dao (env.dao_height w).1 h (rw (q, get_tip_height) at e),
      )
      | inr (x, q) ↦ absurd (let e' : err x ≡ ok h = rw (q, get_tip_height) at e in cc)
    ]
