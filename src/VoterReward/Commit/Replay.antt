-- ===== src/VoterReward/Commit/Replay.antt =====
-- What a call of PutBlocks that fails leaves behind (service/voter_reward/plugin.go).
use iotex_analyser.Base.{ℕ, String, List, ◌≡◌, refl, Result, ok, err}
use iotex_analyser.Db.{Database, IndexCache}
use iotex_analyser.VoterReward.{VoterPlugin}
use iotex_analyser.VoterReward.Plan.{Chain}
use iotex_analyser.VoterReward.Decode.{Codec}
use iotex_analyser.VoterReward.Blocks.{ChainBlock}
use iotex_analyser.VoterReward.Blocks.Memos.{SameMemos, Follows, Follows-refl, Follows-IsKept}
use iotex_analyser.VoterReward.Commit.{
  Store, put_all, put_blocks, committed, last_height, taken_pending, drop_pending_memos, System,
}
use iotex_analyser.VoterReward.Commit.Outcome.{put_all-Keeps, commit-failed}

module _ (db : Database) (store : Store db) (codec : Codec) (chain : Chain) (name : String) where
  -- The tables are `t`, and the committed memos those of `p`.
  abbrev pub Untouched : VoterPlugin → db.Tables → System db store codec chain name → Type 0
  Untouched p t (q, u, c) = (u ≡ t) × SameMemos p q

  dropped-SameMemos :
      (p q : VoterPlugin) → SameMemos p q → SameMemos p (drop_pending_memos (taken_pending q))
  unfolding drop_pending_memos taken_pending
  dropped-SameMemos p q m = record {
    same_seen = m.same_seen;
    same_done = m.same_done;
    same_pass = m.same_pass;
  }

  committed-Untouched :
      (p : VoterPlugin) (t : db.Tables) (c : IndexCache) (tip : Result String ℕ)
      (read : Result String (Unit {0}) × VoterPlugin) (m : String)
      → SameMemos p read.1
      → (committed db store codec chain name t c tip read).0 ≡ err m
      → Untouched p t (committed db store codec chain name t c tip read).1
  committed-Untouched p t c tip (err e, q) m same h = (refl, same)
  committed-Untouched p t c (err e) (ok u, q) m same h = (refl, same)
  committed-Untouched p t c (ok tip) (ok u, q) m same h =
      let q' : VoterPlugin = record q { tip_height = tip } in
      let (plugin, tables) = commit-failed db store codec chain name q' t c m h in
      (
        tables,
        rw plugin (
            dropped-SameMemos p q' (record {
              same_seen = same.same_seen;
              same_done = same.same_done;
              same_pass = same.same_pass;
            })),
      )

  -- When PutBlocks fails, while it reads or in its transaction, the tables are as before, and so
  -- are the committed memos of eras that were planned, settled or read from state.
  pub put_blocks-Untouched :
      (blks : List ChainBlock) (p : VoterPlugin) (t : db.Tables) (c : IndexCache) (m : String)
      → (put_blocks db store codec chain name blks (p, t, c)).0 ≡ err m
      → Untouched p t (put_blocks db store codec chain name blks (p, t, c)).1
  unfolding put_blocks
  put_blocks-Untouched blks p t c m h =
      let read : Follows p (put_all db store codec chain name blks p).1 =
        put_all-Keeps db store codec chain name (Follows p) (Follows-IsKept p) blks p
          (Follows-refl p) in
      committed-Untouched p t c (last_height db store codec chain name blks)
        (put_all db store codec chain name blks p) m read.0 h
