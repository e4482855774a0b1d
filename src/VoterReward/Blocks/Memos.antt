-- ===== src/VoterReward/Blocks/Memos.antt =====
-- The committed memos of the plugin, and that a block only adds to what is pending
-- (service/voter_reward/plugin.go).
use iotex_analyser.Base.{
  ℕ, String, Option, none, some, List, [], ◌∷◌, ◌++◌, append_assoc, append-nil, ◌≡◌, refl, sym, ap,
  ◌∙◌, ◌&&◌, ◌||◌, not, Bool-cases, inl, inr, ◌==◌, string_eq, nat_beq,
}
use iotex_analyser.Base.GoMap.{has}
use iotex_analyser.VoterReward.{VoterPlugin, EraRow, Distribution, edit_era, is_era_done}
use iotex_analyser.VoterReward.Plan.{Chain}
use iotex_analyser.VoterReward.Decode.{Codec, FrozenSnapshot, DestinationChange, DistributionRow}
use iotex_analyser.VoterReward.Reader.{DistributionState}
use iotex_analyser.VoterReward.Blocks.{
  Place, ChainBlock, add_row, distribution_of, see_opt_in, see_freeze, record_frozen_snapshot,
  add_destination, mark_done, put_block,
}
use iotex_analyser.VoterReward.Blocks.Keeping.{IsKept}
use iotex_analyser.VoterReward.Blocks.Reading.{put_block-Keeps}

-- `q` has the committed memos of `p`.
pub record SameMemos (p q : VoterPlugin) : Type 0 where
  pub same_seen : q.era_seen ≡ p.era_seen
  pub same_done : q.era_done ≡ p.era_done
  pub same_pass : q.era_state_pass ≡ p.era_state_pass

-- `q` has the rows that were pending in `p`, and more behind them.
abbrev pub Extends : VoterPlugin → VoterPlugin → Type 0
Extends p q = (more : List Distribution) × (q.pending_rows ≡ p.pending_rows ++ more)

abbrev pub Follows : VoterPlugin → VoterPlugin → Type 0
Follows p q = SameMemos p q × Extends p q

pub Follows-refl : (p : VoterPlugin) → Follows p p
Follows-refl p = (
  record { same_seen = refl; same_done = refl; same_pass = refl },
  ([], sym (append-nil p.pending_rows)),
)

-- A change of neither the committed memos nor the pending rows.
Follows-same :
    (p₀ p q : VoterPlugin)
    → q.era_seen ≡ p.era_seen
    → q.era_done ≡ p.era_done
    → q.era_state_pass ≡ p.era_state_pass
    → q.pending_rows ≡ p.pending_rows
    → Follows p₀ p
    → Follows p₀ q
Follows-same p₀ p q s d a r (m, (more, e)) = (
  record { same_seen = s ∙ m.same_seen; same_done = d ∙ m.same_done; same_pass = a ∙ m.same_pass },
  (more, r ∙ e),
)

module _ (p₀ : VoterPlugin) where
  add_row-Follows :
      (at : Place) (row : DistributionRow) (p : VoterPlugin)
      → Follows p₀ p
      → Follows p₀ (add_row at row p)
  unfolding add_row edit_era
  add_row-Follows at row p (m, (more, e)) = (
    record { same_seen = m.same_seen; same_done = m.same_done; same_pass = m.same_pass },
    (
      more ++ (distribution_of at row p ∷ []),
      ap (λ l. l ++ (distribution_of at row p ∷ [])) e
          ∙ append_assoc p₀.pending_rows more (distribution_of at row p ∷ []),
    ),
  )

  edit_era-Follows :
      (era : ℕ) (change : EraRow → EraRow) (p : VoterPlugin)
      → Follows p₀ p
      → Follows p₀ (edit_era era change p)
  unfolding edit_era
  edit_era-Follows era change p h = Follows-same p₀ p _ refl refl refl refl h

  see_opt_in-Follows :
      (id : String) (height : ℕ) (p : VoterPlugin)
      → Follows p₀ p
      → Follows p₀ (see_opt_in id height p)
  unfolding see_opt_in
  see_opt_in-Follows id height p h = elim (Bool-cases (id == "" || has id p.opt_in_seen)) [
    | inl e ↦ rw e h
    | inr e ↦ rw e (Follows-same p₀ p _ refl refl refl refl h)
  ]

  see_freeze-Follows :
      (f : Option FrozenSnapshot) (p : VoterPlugin) → Follows p₀ p → Follows p₀ (see_freeze f p)
  unfolding record_frozen_snapshot
  see_freeze-Follows none p h = h
  see_freeze-Follows (some f) p h = Follows-same p₀ p _ refl refl refl refl h

  add_destination-Follows :
      (at : Place) (d : Option DestinationChange) (p : VoterPlugin)
      → Follows p₀ p
      → Follows p₀ (add_destination at d p)
  add_destination-Follows at none p h = h
  add_destination-Follows at (some d) p h = Follows-same p₀ p _ refl refl refl refl h

  mark_done-Follows :
      (state : DistributionState) (p : VoterPlugin) → Follows p₀ p → Follows p₀ (mark_done state p)
  mark_done-Follows state p h =
      elim (Bool-cases
        ((state.completed || nat_beq state.scan_phase 2) && not (is_era_done state.target_era p))) [
          | inl e ↦ rw e (Follows-same p₀ p _ refl refl refl refl h)
          | inr e ↦ rw e h
        ]

  pub Follows-IsKept : IsKept (Follows p₀)
  Follows-IsKept = record {
    keeps_row = add_row-Follows;
    keeps_era = λ era change p k h. edit_era-Follows era change p h;
    keeps_opt_in = see_opt_in-Follows;
    keeps_freeze = see_freeze-Follows;
    keeps_destination = add_destination-Follows;
    keeps_config = λ cfg p h. Follows-same p₀ p _ refl refl refl refl h;
    keeps_seen = λ era p h. Follows-same p₀ p _ refl refl refl refl h;
    keeps_chunked = λ era p h. Follows-same p₀ p _ refl refl refl refl h;
    keeps_clear = λ p h. Follows-same p₀ p _ refl refl refl refl h;
    keeps_done = mark_done-Follows;
    keeps_passed = λ chain era p h. Follows-same p₀ p _ refl refl refl refl h;
    keeps_candidates = λ c p h. Follows-same p₀ p _ refl refl refl refl h;
  }

-- A block, read to its end or not, leaves the committed memos as they are and only adds to the
-- pending rows.
pub put_block-Follows :
    (codec : Codec) (chain : Chain) (blk : ChainBlock) (p₀ p : VoterPlugin)
    → Follows p₀ p
    → Follows p₀ (put_block codec chain blk p).1
put_block-Follows codec chain blk p₀ p h =
    (put_block-Keeps (Follows p₀) (Follows-IsKept p₀) chain codec blk).keeps p h
