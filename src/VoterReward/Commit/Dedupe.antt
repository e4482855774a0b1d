-- ===== src/VoterReward/Commit/Dedupe.antt =====
-- `dedupeConfigs` (service/voter_reward/plugin.go): one config for each delegate and era, the last.
pub mod Last
use iotex_analyser.Base.{
  ℕ, zero, suc, ◌+◌, ◌≡◌, refl, sym, ap, ◌∙◌, ◌⊎◌, inl, inr, String, Bool, true, false, ◌&&◌,
  Option, none, some, List, [], ◌∷◌, ◌++◌, ltb, ◌==◌, string_eq, nat_eq, Eq, eq_of_beq, beq_refl,
  ◌↔◌, if◌then◌else◌, length, arith, Bool-cases, Option-cases, nat_beq,
}
use iotex_analyser.Base.GoMap.{GoMap, lookup, insert, lookup-insert}
use iotex_analyser.VoterReward.{DelegateConfig}
use text.Mathlib.TextEquality.{eq_iff}

-- `key`
pub record ConfigKey : Type 0 where
  pub delegate : String
  pub era : ℕ

unfoldable pub config_key_beq : ConfigKey → ConfigKey → Bool
config_key_beq a b = a.delegate == b.delegate && a.era == b.era

pub config_key_beq_iff : (a b : ConfigKey) → (config_key_beq a b ≡ true) ↔ (a ≡ b)
unfolding config_key_beq
config_key_beq_iff a b = ground (arith, eq_iff a.delegate b.delegate)

instance abbrev pub config_key_eq : Eq ConfigKey
config_key_eq = record { beq = config_key_beq; beq_iff = config_key_beq_iff }

abbrev pub key_of : DelegateConfig → ConfigKey
key_of c = record { delegate = c.delegate_id; era = c.era }

-- `out[i] = c`
unfoldable pub set_nth : ℕ → DelegateConfig → List DelegateConfig → List DelegateConfig
set_nth i c [] = []
set_nth zero c (x ∷ xs) = c ∷ xs
set_nth (suc i) c (x ∷ xs) = x ∷ set_nth i c xs

-- `at` and `out`
abbrev pub Deduping : Type 0
Deduping = GoMap ConfigKey ℕ × List DelegateConfig

-- One turn of the loop.
unfoldable pub dedupe_one : DelegateConfig → Deduping → Deduping
dedupe_one c (places, out) = elim (lookup (key_of c) places) [
  | some i ↦ (places, set_nth i c out)
  | none ↦ (insert (key_of c) (length out) places, out ++ (c ∷ []))
]

unfoldable pub dedupe_all : List DelegateConfig → Deduping → Deduping
dedupe_all [] d = d
dedupe_all (c ∷ cs) d = dedupe_all cs (dedupe_one c d)

-- `dedupeConfigs`
unfoldable pub dedupe_configs : List DelegateConfig → List DelegateConfig
dedupe_configs configs = if ltb (length configs) 2 then configs else (dedupe_all configs ([], [])).1
