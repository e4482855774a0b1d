-- ===== src/VoterReward/Plan.antt =====
-- service/voter_reward/plugin.go: what is read of an era and of its delegates.
use iotex_analyser.Base.{
  ℕ, ◌+◌, ◌-◌, ◌%◌, ◌^◌, String, Bool, false, not, ◌&&◌, ◌||◌, Option, none, some, List, [], ◌∷◌,
  ◌++◌, Result, ok, err, nat_beq, nat_eq, string_eq, if◌then◌else◌,
}
use iotex_analyser.Base.Stateful.{Stateful, pure, lift, modify, ◌>>=◌, ◌>>◌}
use iotex_analyser.Base.GoMap.{GoMap, lookup, insert}
use iotex_analyser.VoterReward.{
  VoterPlugin, EraRow, DelegateConfig, DelegateSnapshot, CandidateInfo, CandidateIndex, edit_era,
  is_era_seen, is_era_state_passed, opt_in_source_action, opt_in_source_migration,
}
use iotex_analyser.VoterReward.Reader.{
  Client, Allocation, DistributionState, PayoutRouting, ReadError, no_state, failed, bytes_to_dec,
  address_string, read_distribution_state, read_delegate_snapshot, read_payout_address,
}
use iotex_analyser.VoterReward.Candidates.{all_candidates, refresh}

-- The surroundings of the plugin: the chain client, if one is configured, fuel for the paging of
-- candidates, and the protocol's epochs.
pub record Chain : Type 0 where
  pub client : Option Client
  pub page_fuel : ℕ
  -- kernel.GetEpochNum, GetEpochHeight and GetEpochLastBlockHeight
  pub epoch_num : ℕ → ℕ
  pub epoch_height : ℕ → ℕ
  pub epoch_last : ℕ → ℕ
  -- protocol.IsEraBoundary with the configured EpochsPerRewardEra
  pub is_era_boundary : ℕ → Bool
  -- hexOrEmpty: hex.EncodeToString
  pub hex : List ℕ → String

abbrev pub Steps : Type 0 → Type 0
Steps A = Stateful VoterPlugin A

abbrev pub client_of : Option Client → Result String Client
client_of none = err "no chain client configured"
client_of (some c) = ok c

-- The loop of `ensureEraPlan` over the allocations: their sum and the amount of each delegate.
unfoldable pub frozen_amounts :
    Client → List Allocation → ℕ → GoMap String ℕ → Result String (ℕ × GoMap String ℕ)
frozen_amounts client [] total frozen = ok (total, frozen)
frozen_amounts client (alloc ∷ allocs) total frozen =
    elim (address_string client alloc.candidate_identifier) [
      | err e ↦ err e
      | ok id ↦
          frozen_amounts client allocs (total + bytes_to_dec alloc.voter_amount_frozen)
            (insert id (bytes_to_dec alloc.voter_amount_frozen) frozen)
    ]

-- How a config row says that its delegate opted in.
abbrev pub attribution : Option ℕ → String × ℕ
attribution (some h) = (opt_in_source_action, h)
attribution none = (opt_in_source_migration, 0)

-- The config row before the snapshot is read.
abbrev pub base_config :
    CandidateInfo → ℕ → ℕ → PayoutRouting → Option ℕ → Option ℕ → DelegateConfig
base_config info era height routing amount seen = record {
  delegate_id = info.identifier;
  era = era;
  block_height = height;
  delegate_name = info.name;
  opted_in = routing.onchain_reward_enabled;
  opt_in_source = if routing.onchain_reward_enabled then (attribution seen).0 else "";
  opt_in_height = if routing.onchain_reward_enabled then (attribution seen).1 else 0;
  freeze_height = 0;
  block_commission_bps = 0;
  epoch_commission_bps = 0;
  commission_configured = false;
  total_weight = 0;
  voter_amount_frozen = elim amount [ none ↦ 0 | some n ↦ n ];
  payout_address = routing.address;
}

abbrev pub with_snapshot : DelegateSnapshot → DelegateConfig → DelegateConfig
with_snapshot snap cfg = record cfg {
  freeze_height = snap.freeze_height;
  block_commission_bps = snap.block_commission_bps;
  epoch_commission_bps = snap.epoch_commission_bps;
  commission_configured = snap.commission_configured;
  total_weight = snap.total_weight;
}

-- `frozenSnapshot`
unfoldable pub frozen_snapshot :
    Client → Option (GoMap String DelegateSnapshot) → String → ℕ → Result ReadError DelegateSnapshot
frozen_snapshot client none id height = read_delegate_snapshot client id height
frozen_snapshot client (some logged) id height = elim (lookup id logged) [
  | some snap ↦ ok snap
  | none ↦ err (no_state "no freeze log")
]

abbrev pub add_config : DelegateConfig → VoterPlugin → VoterPlugin
add_config cfg p = record p { pending_configs = p.pending_configs ++ (cfg ∷ []) }

-- The end of a turn of the loop, once the snapshot is read: the freeze height so far and the number
-- of delegates that have opted in.
abbrev pub file_config : DelegateConfig → ℕ → ℕ → Result ReadError DelegateSnapshot → Steps (ℕ × ℕ)
file_config cfg freeze_height opted_in (ok snap) = do
  modify (add_config (with_snapshot snap cfg))
  pure (snap.freeze_height, opted_in)
file_config cfg freeze_height opted_in (err (no_state e)) = do
  modify (add_config cfg)
  pure (freeze_height, opted_in)
file_config cfg freeze_height opted_in (err (failed e)) = lift (err e)

module _ (client : Client) (era height : ℕ) (frozen : GoMap String ℕ)
    (logged : Option (GoMap String DelegateSnapshot)) where
  abbrev pub routed_config : CandidateInfo → ℕ → ℕ → Result ReadError PayoutRouting → Steps (ℕ × ℕ)
  routed_config info freeze_height opted_in (err (no_state e)) p = (ok (freeze_height, opted_in), p)
  routed_config info freeze_height opted_in (err (failed e)) p = (err e, p)
  routed_config info freeze_height opted_in (ok routing) p =
      file_config
        (base_config info era height routing (lookup info.identifier frozen)
          (lookup info.identifier p.opt_in_seen))
        freeze_height (if routing.onchain_reward_enabled then opted_in + 1 else opted_in)
        (frozen_snapshot client logged info.identifier height) p

  -- One turn of the loop of `snapshotDelegateConfigs`.
  unfoldable pub snapshot_delegate : CandidateInfo → ℕ → ℕ → Steps (ℕ × ℕ)
  snapshot_delegate info freeze_height opted_in =
      routed_config info freeze_height opted_in (read_payout_address client info.identifier height)

  unfoldable pub snapshot_delegates : List CandidateInfo → ℕ → ℕ → Steps (ℕ × ℕ)
  snapshot_delegates [] freeze_height opted_in = pure (freeze_height, opted_in)
  snapshot_delegates (info ∷ infos) freeze_height opted_in = do
    (freeze, opted) ← snapshot_delegate info freeze_height opted_in
    snapshot_delegates infos freeze opted

-- `snapshotDelegateConfigs`
unfoldable pub snapshot_delegate_configs : Client → ℕ → ℕ → GoMap String ℕ → Steps (ℕ × ℕ)
snapshot_delegate_configs client era height frozen p =
    snapshot_delegates client era height frozen (lookup era p.frozen_snaps)
      (all_candidates p.candidates) 0 0 p

abbrev pub mark_seen : ℕ → VoterPlugin → VoterPlugin
mark_seen era p = record p { pending_era_seen = insert era tt p.pending_era_seen }

abbrev pub start_plan : DistributionState → ℕ → EraRow → EraRow
start_plan state height row = record row {
  freeze_height = state.freeze_height;
  scan_phase = state.scan_phase;
  first_chunk_at = if nat_beq row.first_chunk_at 0 then height else row.first_chunk_at;
}

abbrev pub with_frozen : ℕ → EraRow → EraRow
with_frozen total row = record row { total_frozen = total }

abbrev pub with_delegates : ℕ → EraRow → EraRow
with_delegates opted_in row = record row { delegate_count = opted_in % 2 ^ 32 }

-- The second half of `ensureEraPlan`, for a state that is of the era.
unfoldable pub record_plan : Client → ℕ → ℕ → DistributionState → Steps (Unit {0})
record_plan client era height state = do
  modify (edit_era era (start_plan state height))
  (total, frozen) ← lift (frozen_amounts client state.allocations 0 [])
  modify (edit_era era (with_frozen total))
  (freeze, opted_in) ← snapshot_delegate_configs client era height frozen
  modify (edit_era era (with_delegates opted_in))
  modify (mark_seen era)

abbrev pub with_freeze : ℕ → ℕ → EraRow → EraRow
with_freeze freeze_height opted_in row = record row {
  freeze_height = freeze_height;
  delegate_count = opted_in % 2 ^ 32;
}

module _ (chain : Chain) where
  unfoldable pub plan_era : ℕ → ℕ → Steps (Unit {0})
  plan_era era height = do
    client ← lift (client_of chain.client)
    state ← lift (read_distribution_state client height)
    if nat_beq state.target_era era then record_plan client era height state else pure tt

  -- `ensureEraPlan`
  unfoldable pub ensure_era_plan : ℕ → ℕ → Steps (Unit {0})
  ensure_era_plan era height p = if is_era_seen era p then (ok tt, p) else plan_era era height p

  abbrev pub mark_state_passed : ℕ → VoterPlugin → VoterPlugin
  mark_state_passed era p = record p {
    pending_era_state_pass = insert era tt p.pending_era_state_pass;
  }

  abbrev pub record_frozen_era : ℕ → ℕ → ℕ → Steps (Unit {0})
  record_frozen_era epoch freeze_height opted_in = do
    modify (edit_era epoch (with_freeze freeze_height opted_in))
    modify (mark_state_passed epoch)

  unfoldable pub read_frozen_era : ℕ → ℕ → Steps (Unit {0})
  read_frozen_era height epoch = do
    client ← lift (client_of chain.client)
    (freeze_height, opted_in) ← snapshot_delegate_configs client epoch height []
    if nat_beq freeze_height 0 then pure tt else record_frozen_era epoch freeze_height opted_in

  -- `indexFrozenEra`
  unfoldable pub index_frozen_era : ℕ → ℕ → Steps (Unit {0})
  index_frozen_era height epoch p =
      if not (chain.is_era_boundary epoch)
      then (ok tt, p)
      else if not (nat_beq height (chain.epoch_last epoch))
          || is_era_state_passed epoch p
          || is_era_seen epoch p
      then (ok tt, p)
      else read_frozen_era height epoch p

  abbrev pub paged : Option (Result String CandidateIndex) → Result String CandidateIndex
  paged none = err "out of fuel"
  paged (some r) = r

  unfoldable pub refresh_candidates : ℕ → Steps (Unit {0})
  refresh_candidates height = do
    client ← lift (client_of chain.client)
    candidates ← lift (paged (refresh client chain.page_fuel (height - 1)))
    modify (λ p. record p { candidates = candidates })

  -- `refreshCandidatesIfNeeded`; `height - 1` stops at 0 as the source's test makes it.
  unfoldable pub refresh_candidates_if_needed : ℕ → ℕ → Steps (Unit {0})
  refresh_candidates_if_needed height epoch p =
      if not (nat_beq height (chain.epoch_height epoch)) && not (nat_beq p.candidates.height 0)
      then (ok tt, p)
      else refresh_candidates height p
