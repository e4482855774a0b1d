-- ===== src/Examples/VoterReward.antt =====
-- Two blocks that pay out rewards, and a node that fails at one height (service/voter_reward).
use iotex_analyser.AccountIncome.{no_income}
use iotex_analyser.VoterReward.Candidates.{
  all_candidates, lookup_candidate, index_candidates, all_staking_candidates, refresh,
}
use iotex_analyser.VoterReward.Commit.Sources.{stored}
use iotex_analyser.VoterReward.Commit.Dedupe.{
  ConfigKey, config_key_eq, dedupe_configs, dedupe_all, dedupe_one, set_nth, config_key_beq,
  ConfigKey,
}
use iotex_analyser.Base.{
  sym, ap, ℕ, ◌+◌, ◌≡◌, refl, String, Bool, true, false, Option, none, some, ◌==◌, string_eq,
  nat_eq, Result, ok, err, if◌then◌else◌, arith, List, [], ◌∷◌, ◌++◌, ltb, take, drop, inl, Any,
  subst,
}
use iotex_analyser.Base.GoMap.{lookup, insert, has}
use iotex_analyser.Db.{IndexCache, commit_block, update_index_height_by_tx}
use iotex_analyser.StakingLog.{Log, word_beq}
use iotex_analyser.VoterReward.{
  VoterPlugin, Distribution, DelegateConfig, new_plugin, opt_in_source_action, edit_era,
  is_era_seen, is_era_done, is_era_state_passed,
}
use iotex_analyser.VoterReward.Reader.{
  Client, Candidate, reply, unavailable, read_distribution_state, read_delegate_snapshot,
  read_payout_address, address_string, set_bytes,
}
use iotex_analyser.VoterReward.Plan.{
  Chain, ensure_era_plan, plan_era, record_plan, frozen_amounts, snapshot_delegate_configs,
  snapshot_delegates, snapshot_delegate, frozen_snapshot, index_frozen_era, read_frozen_era,
  refresh_candidates, refresh_candidates_if_needed,
}
use iotex_analyser.VoterReward.Decode.{
  Codec, abi_uint64, abi_bool, abi_big, decode_distribution, distribution_rows, decode_opt_in,
  decode_freeze, decode_destination, decode_reward_bookkeeping, bookkeeping_logs,
}
use iotex_analyser.VoterReward.Blocks.{
  ChainBlock, BlockReceipt, put_block, consume_receipts, consume_logs, consume_log, consume_rows,
  settle, read_chunked, refresh_chunked_eras, any_not_done, add_row, see_opt_in,
  record_frozen_snapshot,
}
use iotex_analyser.VoterReward.Commit.{
  put_all, put_blocks, commit, last_height, write_pending, upsert_eras, upsert_era, merge_era,
  upgrade_opt_ins, upgrade_opt_in, may_replace, promote_pending_memos, drop_pending_memos,
  taken_pending, add_eras, unsettled,
}
use iotex_analyser.VoterReward.Blocks.Tallied.{IsTallied, put_block-IsTallied, paid}
use iotex_analyser.VoterReward.Blocks.Emitters.{consume_receipts-IsForeign}
use iotex_analyser.VoterReward.Candidates.Pages.{all_staking_candidates-Serves}
use iotex_analyser.VoterReward.Commit.Replay.{Untouched, put_blocks-Untouched}
use iotex_analyser.VoterReward.Commit.Eras.{stored_total, put_blocks-total}
use iotex_analyser.VoterReward.Commit.Recount.{put_blocks-recounted}
use iotex_analyser.VoterReward.Commit.Dedupe.Last.{
  entries, written, last_config, dedupe_configs-written,
}
use iotex_analyser.VoterReward.Commit.Attribution.{put_blocks-Held}
use iotex_analyser.VoterReward.Commit.Upgrade.{IsAction, Attributes, commit-IsAction}
use iotex_analyser.Examples.Shelf.{Shelf, shelf, shelf_store}

abbrev delegate : Candidate
delegate = record {
  id = "io1delegate";
  name = "delegate";
  owner_address = "io1owner";
  reward_address = "io1reward";
  operator_address = "io1operator";
}

-- The node has no state from `limit` on.
abbrev node : ℕ → Client
node limit = record {
  candidate_page = λ offset count height. ok (take count (drop offset (delegate ∷ [])));
  read_state = λ protocol method args height.
      if ltb height limit then reply method else unavailable "no archive";
  unmarshal_distribution = λ d. ok (record {
    target_era = 5;
    freeze_height = 9;
    scan_phase = 1;
    resume_voter = [];
    completed = false;
    completed_height = 0;
    allocations = [];
  });
  unmarshal_snapshot = λ d. ok (record {
    block_commission = 10;
    epoch_commission = 10;
    configured = true;
    weight = 1 ∷ [];
    frozen_at = 9;
    self_stake_bucket = 3;
  });
  unmarshal_payout = λ d. ok (record { address = 1 ∷ []; enabled = true });
  from_bytes = λ bs. ok "io1someone";
}

abbrev chain : ℕ → Chain
chain limit = record {
  client = some (node limit);
  page_fuel = 3;
  epoch_num = λ h. 5;
  epoch_height = λ epoch. 1;
  epoch_last = λ epoch. 40;
  is_era_boundary = λ epoch. false;
  hex = λ bs. "";
}

-- The payload of a distribution is its era and its amount.
abbrev codec : Codec
codec = record {
  rewarding_addr = "io1rewarding";
  staking_addr = "io1staking";
  distributed_topic = 1 ∷ [];
  opt_in_topic = 2 ∷ [];
  destination_topic = 3 ∷ [];
  freeze_topic = 4 ∷ [];
  unpack_distributed = λ topics payload. (elim payload [
    | [] ↦ err "short"
    | era ∷ amounts ↦ ok (record {
      epoch = era;
      delegate = "io1delegate";
      voters = "io1voter" ∷ [];
      recipients = "io1voter" ∷ [];
      amounts = amounts;
      compounded = false ∷ [];
      compound_bucket_ids = 0 ∷ [];
    })
  ]);
  unpack_freeze = λ payload. ok (
      abi_uint64 9 ∷ abi_uint64 10 ∷ abi_uint64 10 ∷ abi_bool true ∷ abi_big 1 ∷ abi_uint64 3 ∷ []);
  unmarshal_reward_log = λ payload. ok [];
  address_of = λ bs. ok "io1delegate";
  set_string = λ s. none;
}

abbrev pays : ℕ → ℕ → Option Log
pays era amount =
    some (record { address = "io1rewarding"; topics = (1 ∷ []) ∷ []; payload = era ∷ amount ∷ [] })

abbrev opts_in : Option Log
opts_in = some (record { address = "io1staking"; topics = (2 ∷ []) ∷ (7 ∷ []) ∷ []; payload = [] })

abbrev first_block : ChainBlock
first_block = record {
  height = 10;
  receipts = record { action_hash = "a1"; logs = opts_in ∷ pays 5 30 ∷ none ∷ [] } ∷ [];
}

abbrev second_block : ChainBlock
second_block = record {
  height = 11;
  receipts = record { action_hash = "a2"; logs = pays 6 4 ∷ [] } ∷ [];
}

abbrev both : List ChainBlock
both = first_block ∷ second_block ∷ []

-- A config that is stored already, from an opt-in at height 2.
abbrev config_of_era_four : String → DelegateConfig
config_of_era_four d = record {
  delegate_id = d;
  era = 4;
  block_height = 3;
  delegate_name = "delegate";
  opted_in = true;
  opt_in_source = opt_in_source_action;
  opt_in_height = 2;
  freeze_height = 3;
  block_commission_bps = 100;
  epoch_commission_bps = 100;
  commission_configured = true;
  total_weight = 10;
  voter_amount_frozen = 10;
  payout_address = "";
}

abbrev empty_shelf : Bool → Shelf
empty_shelf accepts = record {
  heights = ("voter_reward", 9) ∷ [];
  eras = λ e. none;
  rows = [];
  configs = λ d e. if e == 4 then some (config_of_era_four d) else none;
  counts = λ a. no_income;
  income_rows = [];
  accepts = accepts;
}

abbrev run :
    ℕ
    → List ChainBlock
    → VoterPlugin
    → Shelf
    → Result String (Unit {0}) × (VoterPlugin × Shelf × IndexCache)
run limit blks p s = put_blocks shelf shelf_store codec (chain limit) "voter_reward" blks (p, s, [])

-- The total that a shelf has for era 5, and the amounts of its rows.
abbrev total_at : Shelf → Option ℕ
total_at s = elim (s.eras 5) [ none ↦ none | some row ↦ some row.total_distributed ]

abbrev amounts : List Distribution → List ℕ
amounts [] = []
amounts (d ∷ ds) = d.amount ∷ amounts ds

abbrev outcome :
    Result String (Unit {0}) × (VoterPlugin × Shelf × IndexCache)
    → Result String (Unit {0}) × Option ℕ × List ℕ
outcome (r, (p, s, c)) = (r, total_at s, amounts s.rows)

abbrev read : ℕ → Result String (Unit {0}) × VoterPlugin
read limit = put_all shelf shelf_store codec (chain limit) "voter_reward" both new_plugin

-- The call again, with a node that answers, after a call that failed.
abbrev again : Result String (Unit {0}) × (VoterPlugin × Shelf × IndexCache)
again =
    put_blocks shelf shelf_store codec (chain 100) "voter_reward" both
      (run 11 both new_plugin (empty_shelf true)).1

abbrev seen_config : DelegateConfig
seen_config = record {
  delegate_id = "io1delegate";
  era = 5;
  block_height = 10;
  delegate_name = "delegate";
  opted_in = true;
  opt_in_source = opt_in_source_action;
  opt_in_height = 10;
  freeze_height = 9;
  block_commission_bps = 10;
  epoch_commission_bps = 10;
  commission_configured = true;
  total_weight = 1;
  voter_amount_frozen = 0;
  payout_address = "io1someone";
}

abbrev older_config : DelegateConfig
older_config = record seen_config { opt_in_source = "migration"; opt_in_height = 0 }

abbrev with_config : VoterPlugin
with_config = record new_plugin { pending_configs = older_config ∷ seen_config ∷ [] }

-- In the third run the node fails in the second block and the call is made again: the rows are
-- written once, and the era's total is twice what they pay.
runs :
    (outcome (run 100 both new_plugin (empty_shelf true)) ≡ (ok tt, some 30, 30 ∷ 4 ∷ []))
    × ((run 100 both new_plugin (empty_shelf false)).0 ≡ err "commit failed")
    × (outcome again ≡ (ok tt, some 60, 30 ∷ 4 ∷ []))
    × ((read 11).0 ≡ err "no archive")
    × ((commit shelf shelf_store codec
          (chain 100)
          "voter_reward"
          (with_config, empty_shelf true, [])).0
        ≡ ok tt)
    × (dedupe_configs with_config.pending_configs ≡ seen_config ∷ [])
unfolding put_blocks put_all last_height commit commit_block update_index_height_by_tx write_pending
    upsert_eras upsert_era merge_era upgrade_opt_ins upgrade_opt_in may_replace
    promote_pending_memos drop_pending_memos taken_pending add_eras unsettled dedupe_configs
    dedupe_all dedupe_one set_nth config_key_beq put_block consume_receipts consume_logs consume_log
    consume_rows settle read_chunked refresh_chunked_eras any_not_done add_row see_opt_in
    record_frozen_snapshot edit_era is_era_seen is_era_done is_era_state_passed ensure_era_plan
    plan_era record_plan frozen_amounts snapshot_delegate_configs snapshot_delegates
    snapshot_delegate frozen_snapshot index_frozen_era read_frozen_era refresh_candidates
    refresh_candidates_if_needed all_candidates lookup_candidate index_candidates
    all_staking_candidates refresh decode_distribution distribution_rows decode_opt_in decode_freeze
    decode_destination decode_reward_bookkeeping bookkeeping_logs read_distribution_state
    read_delegate_snapshot read_payout_address address_string set_bytes new_plugin word_beq lookup
    insert has
runs = (refl, refl, refl, refl, refl, refl)

new_plugin-IsTallied : IsTallied new_plugin
unfolding new_plugin
new_plugin-IsTallied = record { is_keyed = tt; is_tallied = λ e. refl }

put_block-IsTallied_example : IsTallied (put_block codec (chain 100) first_block new_plugin).1
put_block-IsTallied_example =
    put_block-IsTallied codec (chain 100) first_block new_plugin new_plugin-IsTallied

put_blocks-Untouched_example :
    Untouched shelf shelf_store codec
      (chain 100)
      "voter_reward"
      new_plugin
      (empty_shelf false)
      (run 100 both new_plugin (empty_shelf false)).1
put_blocks-Untouched_example =
    put_blocks-Untouched shelf shelf_store codec (chain 100) "voter_reward" both new_plugin
      (empty_shelf false) [] "commit failed" runs.1

put_blocks-total_example :
    stored_total shelf shelf_store codec
      (chain 100)
      "voter_reward"
      5
      (run 100 both new_plugin (empty_shelf true)).1.1
    ≡ stored_total shelf shelf_store codec (chain 100) "voter_reward" 5 (empty_shelf true)
      + paid 5 (read 100).1.pending_rows
put_blocks-total_example =
    put_blocks-total shelf shelf_store codec (chain 100) "voter_reward" both new_plugin
      (empty_shelf true) [] new_plugin-IsTallied (ap (λ x. x.0) runs.0) 5

put_blocks-recounted_example :
    (more : List Distribution) × ((put_all shelf shelf_store codec
        (chain 100)
        "voter_reward"
        both
        (read 11).1).1.pending_rows
      ≡ (read 11).1.pending_rows ++ more)
    × ((e : ℕ)
        → stored_total shelf shelf_store codec (chain 100) "voter_reward" e again.1.1
          ≡ stored_total shelf shelf_store codec (chain 100) "voter_reward" e (empty_shelf true)
            + (paid e (read 11).1.pending_rows + paid e more))
put_blocks-recounted_example =
    put_blocks-recounted shelf shelf_store codec (chain 11) (chain 100) "voter_reward" both both
      new_plugin (empty_shelf true) [] "no archive" new_plugin-IsTallied runs.3
      (ap (λ x. x.0) runs.2)

dedupe_configs-written_example :
    (entries (dedupe_configs (older_config ∷ seen_config ∷ []))
      ≡ written (older_config ∷ seen_config ∷ []) [])
    × ((k : ConfigKey)
        → lookup k (entries (dedupe_configs (older_config ∷ seen_config ∷ [])))
          ≡ last_config k (older_config ∷ seen_config ∷ []) none)
dedupe_configs-written_example = dedupe_configs-written (older_config ∷ seen_config ∷ [])

put_blocks-Held_example :
    stored shelf shelf_store "io1delegate" 4 (run 100 both new_plugin (empty_shelf true)).1.1
    ≡ some (opt_in_source_action, 2)
put_blocks-Held_example =
    put_blocks-Held shelf shelf_store codec (chain 100) "voter_reward" "io1delegate" 4 2 both
      new_plugin (empty_shelf true) [] refl

deduped :
    Any
      (Attributes shelf shelf_store codec (chain 100) "voter_reward" "io1delegate" 5)
      (dedupe_configs with_config.pending_configs)
deduped =
    subst (Any (Attributes shelf shelf_store codec (chain 100) "voter_reward" "io1delegate" 5))
      (sym runs.5) (inl (refl, refl, refl))

commit-IsAction_example : IsAction (
    stored shelf shelf_store "io1delegate" 5
      (commit shelf shelf_store codec
        (chain 100)
        "voter_reward"
        (with_config, empty_shelf true, [])).1.1)
commit-IsAction_example =
    commit-IsAction shelf shelf_store codec (chain 100) "voter_reward" "io1delegate" 5 with_config
      (empty_shelf true) [] deduped runs.4

abbrev foreign_log : Option Log
foreign_log = some (record { address = "io1token"; topics = (1 ∷ []) ∷ []; payload = 5 ∷ 30 ∷ [] })

abbrev foreign_receipts : List BlockReceipt
foreign_receipts = record { action_hash = "a3"; logs = foreign_log ∷ none ∷ [] } ∷ []

consume_receipts-IsForeign_example :
    consume_receipts codec (chain 11) 40 5 foreign_receipts new_plugin ≡ (ok tt, new_plugin)
consume_receipts-IsForeign_example =
    consume_receipts-IsForeign codec (chain 11) 40 5 foreign_receipts new_plugin
      (((refl, refl), (tt, tt)), tt)

all_staking_candidates-Serves_example :
    all_staking_candidates (node 100) 3 0 40 [] ≡ some (ok (delegate ∷ []))
all_staking_candidates-Serves_example =
    all_staking_candidates-Serves (node 100) 40 (delegate ∷ []) (λ offset limit. refl) 3
      (omega arith) (omega arith)
