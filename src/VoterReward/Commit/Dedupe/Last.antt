-- ===== src/VoterReward/Commit/Dedupe/Last.antt =====
-- `dedupeConfigs` against a map that is written once for each config (service/voter_reward/plugin.go).
use iotex_analyser.Base.{
  ℕ, zero, suc, ◌≡◌, refl, sym, ap, ◌∙◌, inl, inr, Bool, false, Option, none, some, List, [], ◌∷◌,
  ◌++◌, ltb, ◌==◌, eq_of_beq, if◌then◌else◌, length, arith, Bool-cases, Option-cases, subst,
}
use iotex_analyser.Base.GoMap.{GoMap, lookup, insert, lookup-insert}
use iotex_analyser.VoterReward.{DelegateConfig}
use iotex_analyser.VoterReward.Commit.Dedupe.{
  ConfigKey, config_key_eq, key_of, set_nth, Deduping, dedupe_one, dedupe_all, dedupe_configs,
}

-- The configs as a map from their keys.
abbrev pub entries : List DelegateConfig → GoMap ConfigKey DelegateConfig
entries [] = []
entries (c ∷ cs) = (key_of c, c) ∷ entries cs

-- The map to which each config is written in turn.
abbrev pub written :
    List DelegateConfig → GoMap ConfigKey DelegateConfig → GoMap ConfigKey DelegateConfig
written [] m = m
written (c ∷ cs) m = written cs (insert (key_of c) c m)

-- The last of the configs with a key.
abbrev pub last_config :
    ConfigKey → List DelegateConfig → Option DelegateConfig → Option DelegateConfig
last_config k [] found = found
last_config k (c ∷ cs) found = last_config k cs (if key_of c == k then some c else found)

-- The index of the first config with a key.
abbrev place : ConfigKey → List DelegateConfig → Option ℕ
place k [] = none
place k (c ∷ cs) =
    let rest = place k cs in
    if key_of c == k then some zero else elim rest [ none ↦ none | some i ↦ some (suc i) ]

-- The map of places knows where each config of the list stands.
abbrev Placed : Deduping → Type 0
Placed (places, out) = (k : ConfigKey) → lookup k places ≡ place k out

-- The place of a key, once `c` stands behind the list.
abbrev placed_behind : Bool → ℕ → Option ℕ → Option ℕ
placed_behind same n (some i) = some i
placed_behind same n none = if same then some n else none

place-append :
    (k : ConfigKey) (c : DelegateConfig) (out : List DelegateConfig)
    → place k (out ++ (c ∷ [])) ≡ placed_behind (key_of c == k) (length out) (place k out)
place-append k c [] = elim (Bool-cases (key_of c == k)) [ inl b ↦ rw b refl | inr b ↦ rw b refl ]
place-append k c (x ∷ out) = elim (Bool-cases (key_of x == k)) [
  | inl b ↦ rw b refl
  | inr b ↦
      rw (b, place-append k c out)
        (elim (Option-cases (place k out)) [
          | inl n ↦
              rw n (elim (Bool-cases (key_of c == k)) [ inl e ↦ rw e refl | inr e ↦ rw e refl ])
          | inr (i, n) ↦ rw n refl
        ])
]

entries-append :
    (c : DelegateConfig) (out : List DelegateConfig)
    → place (key_of c) out ≡ none
    → entries (out ++ (c ∷ [])) ≡ insert (key_of c) c (entries out)
unfolding insert
entries-append c [] h = refl
entries-append c (x ∷ out) h = elim (Bool-cases (key_of x == key_of c)) [
  | inl b ↦ absurd (let bad = rw b at h in cc)
  | inr b ↦ rw b (elim (Option-cases (place (key_of c) out)) [
    | inl n ↦ ap (λ l. (key_of x, x) ∷ l) (entries-append c out n)
    | inr (i, n) ↦ absurd (let bad = rw (b, n) at h in cc)
  ])
]

-- A config takes the place of the first with its key.
record Replaces (c : DelegateConfig) (out : List DelegateConfig) (i : ℕ) : Type 0 where
  same_places : (k : ConfigKey) → place k (set_nth i c out) ≡ place k out
  same_entries : entries (set_nth i c out) ≡ insert (key_of c) c (entries out)

set_nth-Replaces :
    (c : DelegateConfig) (out : List DelegateConfig) (i : ℕ)
    → place (key_of c) out ≡ some i
    → Replaces c out i
unfolding set_nth insert
set_nth-Replaces c [] i h = absurd cc
set_nth-Replaces c (x ∷ out) i h = elim (Bool-cases (key_of x == key_of c)) [
  | inl b ↦
      (let zeroth : zero ≡ i = (let e = rw b at h in cc) in
        let same : key_of x ≡ key_of c = eq_of_beq (key_of x) (key_of c) b in
        subst (Replaces c (x ∷ out)) zeroth (record {
          same_places = λ k. rw same refl;
          same_entries = rw b (ap (λ k. (k, c) ∷ entries out) (sym same));
        }))
  | inr b ↦ elim (Option-cases (place (key_of c) out)) [
    | inl n ↦ absurd (let bad = rw (b, n) at h in cc)
    | inr (j, n) ↦
        (let next : suc j ≡ i = (let e = rw (b, n) at h in cc) in
          let rest = set_nth-Replaces c out j n in
          subst (Replaces c (x ∷ out)) next (record {
            same_places = λ k. rw (rest.same_places k) refl;
            same_entries = rw b (ap (λ l. (key_of x, x) ∷ l) rest.same_entries);
          }))
  ]
]

-- One turn of the loop: the map is written, and the places are right again.
dedupe_one-written :
    (c : DelegateConfig) (places : GoMap ConfigKey ℕ) (out : List DelegateConfig)
    → Placed (places, out)
    → Placed (dedupe_one c (places, out))
      × (entries (dedupe_one c (places, out)).1 ≡ insert (key_of c) c (entries out))
unfolding dedupe_one
dedupe_one-written c places out h = elim (Option-cases (lookup (key_of c) places)) [
  | inl n ↦
      (let fresh : place (key_of c) out ≡ none = sym (h (key_of c)) ∙ n in
        rw (n, dedupe_one)
          (
            (λ k.
                lookup-insert (key_of c) k (length out) places
                ∙ (elim (Bool-cases (key_of c == k)) [
                  | inl b ↦
                      (let same : place k out ≡ none =
                          ap (λ j. place j out) (sym (eq_of_beq (key_of c) k b)) ∙ fresh in
                        rw (place-append k c out, b, same) refl)
                  | inr b ↦
                      rw (place-append k c out, b, h k)
                        (elim (Option-cases (place k out)) [
                          | inl m ↦ rw m refl
                          | inr (j, m) ↦ rw m refl
                        ])
                ])),
            entries-append c out fresh,
          ))
  | inr (i, n) ↦
      (let taken = set_nth-Replaces c out i (sym (h (key_of c)) ∙ n) in
        rw (n, dedupe_one) ((λ k. h k ∙ sym (taken.same_places k)), taken.same_entries))
]

dedupe_all-written :
    (cs : List DelegateConfig) (places : GoMap ConfigKey ℕ) (out : List DelegateConfig)
    → Placed (places, out)
    → entries (dedupe_all cs (places, out)).1 ≡ written cs (entries out)
unfolding dedupe_all
dedupe_all-written [] places out h = refl
dedupe_all-written (c ∷ cs) places out h =
    let (placed, same) = dedupe_one-written c places out h in
    let next = dedupe_one c (places, out) in
    dedupe_all-written cs next.0 next.1 placed ∙ ap (written cs) same

written-last :
    (k : ConfigKey) (cs : List DelegateConfig) (m : GoMap ConfigKey DelegateConfig)
    → lookup k (written cs m) ≡ last_config k cs (lookup k m)
written-last k [] m = refl
written-last k (c ∷ cs) m =
    written-last k cs (insert (key_of c) c m)
    ∙ ap (last_config k cs) (lookup-insert (key_of c) k c m)

entries-dedupe_configs :
    (configs : List DelegateConfig) → entries (dedupe_configs configs) ≡ written configs []
unfolding dedupe_configs insert lookup
entries-dedupe_configs [] = refl
entries-dedupe_configs (c ∷ []) = refl
entries-dedupe_configs (c ∷ c' ∷ cs) =
    let long : ltb (length (c ∷ c' ∷ cs)) 2 ≡ false = ground arith in
    rw long (dedupe_all-written (c ∷ c' ∷ cs) [] [] (λ k. refl))

-- The configs without duplicates are, in their order, the entries of a map to which each config is
-- written in turn, and for every delegate and era they hold the last config of the list with that
-- key, or none when there is none.
pub dedupe_configs-written :
    (configs : List DelegateConfig)
    → (entries (dedupe_configs configs) ≡ written configs [])
      × ((k : ConfigKey) → lookup k (entries (dedupe_configs configs)) ≡ last_config k configs none)
unfolding lookup
dedupe_configs-written configs =
    let same = entries-dedupe_configs configs in
    (same, (λ k. ap (lookup k) same ∙ written-last k configs []))
