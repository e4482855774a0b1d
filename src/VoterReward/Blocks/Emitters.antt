-- ===== src/VoterReward/Blocks/Emitters.antt =====
-- Logs of contracts that the plugin does not follow (service/voter_reward/decode.go and plugin.go).
use iotex_analyser.Base.{
  ℕ, ◌+◌, ◌%◌, ◌^◌, String, Bool, true, false, ◌&&◌, Option, none, some, List, [], ◌∷◌, ◌≡◌, refl,
  ok, ◌==◌, string_eq, All,
}
use iotex_analyser.StakingLog.{Word, Log, word_beq}
use iotex_analyser.VoterReward.{VoterPlugin}
use iotex_analyser.VoterReward.Plan.{Chain}
use iotex_analyser.VoterReward.Decode.{
  Codec, is_event, decode_distribution, decode_opt_in, decode_freeze, decode_destination,
  decode_reward_bookkeeping,
}
use iotex_analyser.VoterReward.Blocks.{
  Place, BlockReceipt, consume_log, consume_logs, consume_receipts, consume_rows, see_opt_in,
}

and_false : (b : Bool) → (b && false) ≡ false
and_false true = refl
and_false false = refl

-- A log of an address that is not the one asked for is no event.
is_event-foreign :
    (topic : Word) (addr : String) (l : Log)
    → (l.address == addr) ≡ false
    → is_event topic addr l ≡ false
is_event-foreign topic addr l h = topics_foreign l.topics
  where
    topics_foreign :
        (ts : List Word)
        → elim ts [ [] ↦ false | u ∷ us ↦ word_beq u topic && l.address == addr ] ≡ false
    topics_foreign [] = refl
    topics_foreign (u ∷ us) = rw h (and_false (word_beq u topic))

module _ (codec : Codec) (chain : Chain) where
  -- No log, or a log of neither protocol.
  abbrev pub IsForeign : Option Log → Type 0
  IsForeign none = Unit
  IsForeign (some l) =
      ((l.address == codec.rewarding_addr) ≡ false) × ((l.address == codec.staking_addr) ≡ false)

  consume_log-IsForeign :
      (at : Place) (l : Option Log) (p : VoterPlugin)
      → IsForeign l
      → consume_log codec chain at l p ≡ (ok tt, p)
  unfolding consume_log decode_distribution decode_opt_in decode_freeze decode_destination
      decode_reward_bookkeeping see_opt_in consume_rows
  consume_log-IsForeign at none p h = refl
  consume_log-IsForeign at (some l) p (rewarding, staking) =
      let e₁ = is_event-foreign codec.distributed_topic codec.rewarding_addr l rewarding in
      let e₂ = is_event-foreign codec.opt_in_topic codec.staking_addr l staking in
      let e₃ = is_event-foreign codec.freeze_topic codec.staking_addr l staking in
      let e₄ = is_event-foreign codec.destination_topic codec.rewarding_addr l rewarding in
      rw (e₁, e₂, e₃, e₄, rewarding) refl

  consume_logs-IsForeign :
      (height epoch : ℕ) (hash : String) (i : ℕ) (logs : List (Option Log)) (p : VoterPlugin)
      → All IsForeign logs
      → consume_logs codec chain height epoch hash i logs p ≡ (ok tt, p)
  unfolding consume_logs
  consume_logs-IsForeign height epoch hash i [] p h = refl
  consume_logs-IsForeign height epoch hash i (l ∷ logs) p (h, hs) =
      let at : Place = record {
        height = height;
        epoch = epoch;
        action_hash = hash;
        log_index = i % 2 ^ 32;
      } in
      rw (consume_log-IsForeign at l p h)
        (consume_logs-IsForeign height epoch hash (i + 1) logs p hs)

  -- Receipts whose logs were emitted by neither the rewarding nor the staking protocol are read
  -- without an error and change nothing of the plugin.
  pub consume_receipts-IsForeign :
      (height epoch : ℕ) (rs : List BlockReceipt) (p : VoterPlugin)
      → All (λ r. All IsForeign r.logs) rs
      → consume_receipts codec chain height epoch rs p ≡ (ok tt, p)
  unfolding consume_receipts
  consume_receipts-IsForeign height epoch [] p h = refl
  consume_receipts-IsForeign height epoch (r ∷ rs) p (h, hs) =
      rw (consume_logs-IsForeign height epoch r.action_hash 0 r.logs p h)
        (consume_receipts-IsForeign height epoch rs p hs)
