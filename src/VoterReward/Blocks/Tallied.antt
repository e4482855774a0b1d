-- ===== src/VoterReward/Blocks/Tallied.antt =====
-- The totals of the pending eras against the pending rows (service/voter_reward/plugin.go).
use iotex_analyser.Base.{
  ℕ, ◌+◌, String, Option, none, some, List, [], ◌∷◌, ◌++◌, ◌≡◌, refl, sym, ap, ◌∙◌, ◌&&◌, ◌||◌, not,
  Bool-cases, inl, inr, ◌==◌, string_eq, nat_eq, eq_of_beq, nat_beq, if◌then◌else◌, arith,
}
use iotex_analyser.Base.GoMap.{GoMap, has, lookup, insert}
use iotex_analyser.VoterReward.{VoterPlugin, EraRow, Distribution, edit_era, is_era_done, era_of}
use iotex_analyser.VoterReward.Plan.{Chain}
use iotex_analyser.VoterReward.Decode.{Codec, FrozenSnapshot, DestinationChange, DistributionRow}
use iotex_analyser.VoterReward.Reader.{DistributionState}
use iotex_analyser.VoterReward.Blocks.{
  Place, ChainBlock, add_row, count_voter, distribution_of, see_opt_in, see_freeze,
  record_frozen_snapshot, add_destination, mark_done, put_block,
}
use iotex_analyser.VoterReward.Blocks.Keeping.{IsKept, KeepsTotal}
use iotex_analyser.VoterReward.Blocks.Reading.{put_block-Keeps}

abbrev pub counted : ℕ → ℕ → ℕ → ℕ
counted era e n = if era == e then n else 0

-- What the pending rows pay in an era.
abbrev pub paid : ℕ → List Distribution → ℕ
paid e [] = 0
paid e (d ∷ ds) = counted d.era e d.amount + paid e ds

-- What the rows of the eras say of an era.
abbrev pub tallied : ℕ → GoMap ℕ EraRow → ℕ
tallied e [] = 0
tallied e ((era, row) ∷ m) = counted row.era e row.total_distributed + tallied e m

-- Each entry is of the era under which it stands.
abbrev pub Keyed : GoMap ℕ EraRow → Type 0
Keyed [] = Unit
Keyed ((era, row) ∷ m) = (row.era ≡ era) × Keyed m

pub record IsTallied (p : VoterPlugin) : Type 0 where
  pub is_keyed : Keyed p.pending_eras
  pub is_tallied : (e : ℕ) → tallied e p.pending_eras ≡ paid e p.pending_rows

pub paid-append : (e : ℕ) (xs ys : List Distribution) → paid e (xs ++ ys) ≡ paid e xs + paid e ys
paid-append e [] ys = omega arith
paid-append e (x ∷ xs) ys = omega (arith, paid-append e xs ys)

era_of-era : (k : ℕ) (m : GoMap ℕ EraRow) → Keyed m → (era_of k m).era ≡ k
unfolding lookup
era_of-era k [] h = refl
era_of-era k ((era, row) ∷ m) (e, h) = elim (Bool-cases (nat_beq era k)) [
  | inl b ↦ rw (b, era_of) (e ∙ eq_of_beq era k b)
  | inr b ↦ rw (b, era_of) (era_of-era k m h)
]

Keyed-insert :
    (k : ℕ) (row : EraRow) (m : GoMap ℕ EraRow) → row.era ≡ k → Keyed m → Keyed (insert k row m)
unfolding insert
Keyed-insert k row [] e h = (e, tt)
Keyed-insert k row ((era, old) ∷ m) e (e₀, h) = elim (Bool-cases (nat_beq era k)) [
  | inl b ↦ rw b (e ∙ sym (eq_of_beq era k b), h)
  | inr b ↦ rw b (e₀, Keyed-insert k row m e h)
]

-- A change of the row of an era changes what is tallied by as much.
tallied-insert :
    (e k : ℕ) (row : EraRow) (m : GoMap ℕ EraRow)
    → row.era ≡ k
    → Keyed m
    → tallied e (insert k row m) + counted k e (era_of k m).total_distributed
      ≡ tallied e m + counted k e row.total_distributed
unfolding insert lookup
tallied-insert e k row [] h keyed = ground arith
tallied-insert e k row ((era, old) ∷ m) h (e₀, keyed) = elim (Bool-cases (nat_beq era k)) [
  | inl b ↦ (let same = eq_of_beq era k b in rw b (ground arith))
  | inr b ↦ (let rest = tallied-insert e k row m h keyed in rw (b, era_of) (omega (arith, rest)))
]

edit_era-IsTallied :
    (era : ℕ) (change : EraRow → EraRow) (p : VoterPlugin)
    → KeepsTotal change
    → IsTallied p
    → IsTallied (edit_era era change p)
unfolding edit_era
edit_era-IsTallied era change p k h =
    let old = era_of era p.pending_eras in
    let same : (change old).era ≡ era = (k old).0 ∙ era_of-era era p.pending_eras h.is_keyed in
    record {
      is_keyed = Keyed-insert era (change old) p.pending_eras same h.is_keyed;
      is_tallied = λ e.
          let step = tallied-insert e era (change old) p.pending_eras same h.is_keyed in
          let total = ap (counted era e) (k old).1 in let before = h.is_tallied e in omega arith;
    }

add_row-IsTallied :
    (at : Place) (row : DistributionRow) (p : VoterPlugin)
    → IsTallied p
    → IsTallied (add_row at row p)
unfolding add_row edit_era
add_row-IsTallied at row p h =
    let old = era_of row.era p.pending_eras in
    let same : old.era ≡ row.era = era_of-era row.era p.pending_eras h.is_keyed in
    record {
      is_keyed =
          Keyed-insert row.era (count_voter row.amount at.height old) p.pending_eras same
            h.is_keyed;
      is_tallied = λ e.
          let step =
            tallied-insert e row.era (count_voter row.amount at.height old) p.pending_eras same
              h.is_keyed in
          let more = paid-append e p.pending_rows (distribution_of at row p ∷ []) in
          let before = h.is_tallied e in ground arith;
    }

-- A change of neither the pending eras nor the pending rows.
IsTallied-same :
    (p q : VoterPlugin)
    → q.pending_eras ≡ p.pending_eras
    → q.pending_rows ≡ p.pending_rows
    → IsTallied p
    → IsTallied q
IsTallied-same p q eras rows h = record {
  is_keyed = rw eras h.is_keyed;
  is_tallied = λ e. ap (tallied e) eras ∙ h.is_tallied e ∙ ap (paid e) (sym rows);
}

see_opt_in-IsTallied :
    (id : String) (height : ℕ) (p : VoterPlugin) → IsTallied p → IsTallied (see_opt_in id height p)
unfolding see_opt_in
see_opt_in-IsTallied id height p h = elim (Bool-cases (id == "" || has id p.opt_in_seen)) [
  | inl e ↦ rw e h
  | inr e ↦ rw e (IsTallied-same p _ refl refl h)
]

see_freeze-IsTallied :
    (f : Option FrozenSnapshot) (p : VoterPlugin) → IsTallied p → IsTallied (see_freeze f p)
unfolding record_frozen_snapshot
see_freeze-IsTallied none p h = h
see_freeze-IsTallied (some f) p h = IsTallied-same p _ refl refl h

add_destination-IsTallied :
    (at : Place) (d : Option DestinationChange) (p : VoterPlugin)
    → IsTallied p
    → IsTallied (add_destination at d p)
add_destination-IsTallied at none p h = h
add_destination-IsTallied at (some d) p h = IsTallied-same p _ refl refl h

mark_done-IsTallied :
    (state : DistributionState) (p : VoterPlugin) → IsTallied p → IsTallied (mark_done state p)
mark_done-IsTallied state p h =
    elim (Bool-cases
      ((state.completed || nat_beq state.scan_phase 2) && not (is_era_done state.target_era p))) [
        | inl e ↦ rw e (IsTallied-same p _ refl refl h)
        | inr e ↦ rw e h
      ]

pub IsTallied-IsKept : IsKept IsTallied
IsTallied-IsKept = record {
  keeps_row = add_row-IsTallied;
  keeps_era = edit_era-IsTallied;
  keeps_opt_in = see_opt_in-IsTallied;
  keeps_freeze = see_freeze-IsTallied;
  keeps_destination = add_destination-IsTallied;
  keeps_config = λ cfg p h. IsTallied-same p _ refl refl h;
  keeps_seen = λ era p h. IsTallied-same p _ refl refl h;
  keeps_chunked = λ era p h. IsTallied-same p _ refl refl h;
  keeps_clear = λ p h. IsTallied-same p _ refl refl h;
  keeps_done = mark_done-IsTallied;
  keeps_passed = λ chain era p h. IsTallied-same p _ refl refl h;
  keeps_candidates = λ c p h. IsTallied-same p _ refl refl h;
}

-- Reading a block, to its end or to an error, keeps the pending total of every era equal to the sum
-- of the amounts of the era's pending rows, and every pending era under its own number.
pub put_block-IsTallied :
    (codec : Codec) (chain : Chain) (blk : ChainBlock) (p : VoterPlugin)
    → IsTallied p
    → IsTallied (put_block codec chain blk p).1
put_block-IsTallied codec chain blk p h =
    (put_block-Keeps IsTallied IsTallied-IsKept chain codec blk).keeps p h
