-- ===== src/StakingLog/Order.antt =====
-- What the logs of a receipt come to does not depend on their order
-- (service/stakinglog/bucketindex.go).
use iotex_analyser.Base.{
  ap, ℕ, ◌≡◌, refl, ◌⊎◌, inl, inr, Bool, true, false, ◌||◌, Option, none, some, List, [], ◌∷◌, ◌==◌,
  string_eq, if◌then◌else◌, All, Any, Bool-cases,
}
use iotex_analyser.StakingLog.{
  Word, Log, Seen, word_beq, protocol_address, no_bucket, uint64_from_topic, index_from_event_data,
  keep, legacy_log, protocol_log, see, see_all, resolve, bucket_index,
}

-- What one log says, read on its own.
pub data Says : Type 0 where
  nothing : Says
  index : ℕ → Says
  no_index : Says

-- What is said names no bucket but `v`; it names `v`; it names none; it registers a candidate.
abbrev pub Agrees : ℕ → Says → Type 0
Agrees v (index w) = w ≡ v
Agrees v _ = Unit

abbrev pub Names : ℕ → Says → Type 0
Names v (index w) = w ≡ v
Names v _ = ⊥

abbrev pub NamesNone : Says → Type 0
NamesNone (index w) = ⊥
NamesNone _ = Unit

abbrev pub Registers : Says → Type 0
Registers no_index = Unit
Registers _ = ⊥

module _ (staked activated registered : Word) (legacy : Word → Bool)
    (unpack : List ℕ → Option ℕ) where
  abbrev indexed : Option ℕ → Says
  indexed none = nothing
  indexed (some v) = index v

  abbrev said_by_topics : List Word → List ℕ → Says
  said_by_topics [] payload = nothing
  said_by_topics (topic ∷ more) payload =
      if word_beq topic staked || word_beq topic activated
      then indexed (index_from_event_data staked activated registered legacy unpack topic payload)
      else if word_beq topic registered
      then no_index
      else elim more [
        | [] ↦ nothing
        | second ∷ rest ↦ if legacy topic then indexed (uint64_from_topic second) else nothing
      ]

  -- A log of the protocol names a bucket, or registers a candidate, or says nothing.
  abbrev pub says : Option Log → Says
  says none = nothing
  says (some l) =
      if l.address == protocol_address then said_by_topics l.topics l.payload else nothing

  abbrev taken : Says → Seen → Seen
  taken nothing s = s
  taken (index v) s = record s { found = some v }
  taken no_index s = record s { registered = true }

  taken-Agrees :
      (v : ℕ) (x : Says) (s : Seen) → Agrees v x → s.found ≡ some v → (taken x s).found ≡ some v
  taken-Agrees v nothing s a e = e
  taken-Agrees v (index w) s a e = ap some a
  taken-Agrees v no_index s a e = e

  taken-Names : (v : ℕ) (x : Says) (s : Seen) → Names v x → (taken x s).found ≡ some v
  taken-Names v nothing s n = elim n [ ]
  taken-Names v (index w) s n = ap some n
  taken-Names v no_index s n = elim n [ ]

  taken-NamesNone : (x : Says) (s : Seen) → NamesNone x → s.found ≡ none → (taken x s).found ≡ none
  taken-NamesNone nothing s n e = e
  taken-NamesNone (index w) s n e = elim n [ ]
  taken-NamesNone no_index s n e = e

  taken_registered : (x : Says) (s : Seen) → s.registered ≡ true → (taken x s).registered ≡ true
  taken_registered nothing s e = e
  taken_registered (index w) s e = e
  taken_registered no_index s e = refl

  taken-Registers : (x : Says) (s : Seen) → Registers x → (taken x s).registered ≡ true
  taken-Registers nothing s n = elim n [ ]
  taken-Registers (index w) s n = elim n [ ]
  taken-Registers no_index s n = refl

  keep_lem :
      (o : Option ℕ) (s : Seen)
      → keep staked activated registered legacy unpack o s ≡ taken (indexed o) s
  keep_lem none s = refl
  keep_lem (some v) s = refl

  legacy_log_lem :
      (topic : Word) (more : List Word) (s : Seen)
      → legacy_log staked activated registered legacy unpack topic more s
        ≡ taken
            (elim more [
              | [] ↦ nothing
              | second ∷ rest ↦ if legacy topic then indexed (uint64_from_topic second) else nothing
            ])
            s
  unfolding legacy_log
  legacy_log_lem topic [] s = refl
  legacy_log_lem topic (second ∷ rest) s = elim (Bool-cases (legacy topic)) [
    | inl e ↦ rw e (keep_lem (uint64_from_topic second) s)
    | inr e ↦ rw e refl
  ]

  protocol_log_lem :
      (topics : List Word) (payload : List ℕ) (s : Seen)
      → protocol_log staked activated registered legacy unpack topics payload s
        ≡ taken (said_by_topics topics payload) s
  unfolding protocol_log legacy_log
  protocol_log_lem [] payload s = refl
  protocol_log_lem (topic ∷ more) payload s =
      elim (Bool-cases (word_beq topic staked || word_beq topic activated)) [
        | inl e ↦ rw e (
            keep_lem (index_from_event_data staked activated registered legacy unpack topic payload)
              s)
        | inr e ↦ rw e (elim (Bool-cases (word_beq topic registered)) [
          | inl r ↦ rw r refl
          | inr r ↦ rw r (legacy_log_lem topic more s)
        ])
      ]

  see_lem :
      (l : Option Log) (s : Seen)
      → see staked activated registered legacy unpack l s ≡ taken (says l) s
  unfolding see
  see_lem none s = refl
  see_lem (some l) s = elim (Bool-cases (l.address == protocol_address)) [
    | inl e ↦ rw e (protocol_log_lem l.topics l.payload s)
    | inr e ↦ rw e refl
  ]

  see_all_found :
      (v : ℕ) (logs : List (Option Log)) (s : Seen)
      → All (λ l. Agrees v (says l)) logs
      → (s.found ≡ some v) ⊎ Any (λ l. Names v (says l)) logs
      → (see_all staked activated registered legacy unpack logs s).found ≡ some v
  unfolding see_all
  see_all_found v [] s a (inl e) = e
  see_all_found v [] s a (inr n) = elim n [ ]
  see_all_found v (l ∷ logs) s a (inl e) =
      rw (see_lem l s, see_all)
        (see_all_found v logs (taken (says l) s) a.1 (inl (taken-Agrees v (says l) s a.0 e)))
  see_all_found v (l ∷ logs) s a (inr (inl n)) =
      rw (see_lem l s, see_all)
        (see_all_found v logs (taken (says l) s) a.1 (inl (taken-Names v (says l) s n)))
  see_all_found v (l ∷ logs) s a (inr (inr n)) =
      rw (see_lem l s, see_all) (see_all_found v logs (taken (says l) s) a.1 (inr n))

  see_all_not_found :
      (logs : List (Option Log)) (s : Seen)
      → All (λ l. NamesNone (says l)) logs
      → s.found ≡ none
      → (see_all staked activated registered legacy unpack logs s).found ≡ none
  unfolding see_all
  see_all_not_found [] s a e = e
  see_all_not_found (l ∷ logs) s a e =
      rw (see_lem l s, see_all)
        (see_all_not_found logs (taken (says l) s) a.1 (taken-NamesNone (says l) s a.0 e))

  see_all_registered :
      (logs : List (Option Log)) (s : Seen)
      → (s.registered ≡ true) ⊎ Any (λ l. Registers (says l)) logs
      → (see_all staked activated registered legacy unpack logs s).registered ≡ true
  unfolding see_all
  see_all_registered [] s (inl e) = e
  see_all_registered [] s (inr n) = elim n [ ]
  see_all_registered (l ∷ logs) s (inl e) =
      rw (see_lem l s, see_all)
        (see_all_registered logs (taken (says l) s) (inl (taken_registered (says l) s e)))
  see_all_registered (l ∷ logs) s (inr (inl n)) =
      rw (see_lem l s, see_all)
        (see_all_registered logs (taken (says l) s) (inl (taken-Registers (says l) s n)))
  see_all_registered (l ∷ logs) s (inr (inr n)) =
      rw (see_lem l s, see_all) (see_all_registered logs (taken (says l) s) (inr n))

  see_all_same :
      (logs : List (Option Log)) (s : Seen)
      → All (λ l. says l ≡ nothing) logs
      → see_all staked activated registered legacy unpack logs s ≡ s
  unfolding see_all
  see_all_same [] s a = refl
  see_all_same (l ∷ logs) s a = rw (see_lem l s, see_all, a.0) (see_all_same logs s a.1)

  -- When some log of the staking protocol names the bucket v and no log names another, the bucket
  -- index is v, in whatever order the logs come and whether or not a candidate is registered.
  pub bucket_index-Names :
      (v : ℕ) (logs : List (Option Log))
      → All (λ l. Agrees v (says l)) logs
      → Any (λ l. Names v (says l)) logs
      → bucket_index staked activated registered legacy unpack logs ≡ some v
  unfolding bucket_index resolve
  bucket_index-Names v logs a n =
      rw (see_all_found v logs (record { found = none; registered = false }) a (inr n)) refl

  -- When no log names a bucket and some log registers a candidate, the bucket index is NoBucket.
  pub bucket_index-Registers :
      (logs : List (Option Log))
      → All (λ l. NamesNone (says l)) logs
      → Any (λ l. Registers (says l)) logs
      → bucket_index staked activated registered legacy unpack logs ≡ some no_bucket
  unfolding bucket_index resolve
  bucket_index-Registers logs a n =
      let start : Seen = record { found = none; registered = false } in
      rw (see_all_not_found logs start a refl, see_all_registered logs start (inr n)) refl

  -- When no log says anything, there is no bucket index.
  pub bucket_index-none :
      (logs : List (Option Log))
      → All (λ l. says l ≡ nothing) logs
      → bucket_index staked activated registered legacy unpack logs ≡ none
  unfolding bucket_index resolve
  bucket_index-none logs a =
      rw (see_all_same logs (record { found = none; registered = false }) a) refl
