-- ===== src/VoterReward/Commit/Outcome.antt =====
-- How a call of PutBlocks ends: what it read, and what became of its transaction
-- (service/voter_reward/plugin.go).
use iotex_analyser.Base.{
  String, List, [], ◌∷◌, ◌≡◌, refl, sym, ap, ◌∙◌, inl, inr, Result, ok, err, Result-cases,
}
use iotex_analyser.Db.{Database, IndexCache, commit_block}
use iotex_analyser.Db.Cache.{commit_block-done, commit_block-failed}
use iotex_analyser.VoterReward.{VoterPlugin}
use iotex_analyser.VoterReward.Plan.{Chain}
use iotex_analyser.VoterReward.Decode.{Codec}
use iotex_analyser.VoterReward.Blocks.{ChainBlock, put_block}
use iotex_analyser.VoterReward.Blocks.Keeping.{IsKept}
use iotex_analyser.VoterReward.Blocks.Reading.{put_block-Keeps}
use iotex_analyser.VoterReward.Commit.{
  Store, write_pending, commit, concluded, put_all, taken_pending, promote_pending_memos,
  drop_pending_memos,
}

module _ (db : Database) (store : Store db) (codec : Codec) (chain : Chain) (name : String) where
  -- What holds of the plugin and is kept by each change that a block makes holds after the blocks
  -- that were read.
  pub put_all-Keeps :
      (P : VoterPlugin → Type 0)
      → IsKept P
      → (blks : List ChainBlock) (p : VoterPlugin) → P p
      → P (put_all db store codec chain name blks p).1
  unfolding put_all
  put_all-Keeps P kept [] p h = h
  put_all-Keeps P kept (blk ∷ blks) p h =
      let next : P (put_block codec chain blk p).1 =
        (put_block-Keeps P kept chain codec blk).keeps p h in
      let rest = put_all-Keeps P kept blks (put_block codec chain blk p).1 next in
      elim (Result-cases (put_block codec chain blk p).0) [
        | inl (u, e) ↦ rw (e, put_all) rest
        | inr (x, e) ↦ rw (e, put_all) next
      ]

  concluded-ok :
      (q : VoterPlugin) (x : Result String (Unit {0}) × db.Tables × IndexCache)
      → (concluded db store codec chain name q x).0 ≡ ok tt
      → (x.0 ≡ ok tt)
        × ((concluded db store codec chain name q x).1 ≡ (promote_pending_memos q, x.1, x.2))
  concluded-ok q (ok u, t, c) h = (refl, refl)
  concluded-ok q (err e, t, c) h = absurd cc

  concluded-err :
      (q : VoterPlugin) (x : Result String (Unit {0}) × db.Tables × IndexCache) (m : String)
      → (concluded db store codec chain name q x).0 ≡ err m
      → (x.0 ≡ err m)
        × ((concluded db store codec chain name q x).1 ≡ (drop_pending_memos q, x.1, x.2))
  concluded-err q (ok u, t, c) m h = absurd cc
  concluded-err q (err e, t, c) m h = (h, refl)

  module _ (p : VoterPlugin) (t : db.Tables) (c : IndexCache) where
    -- A commit that succeeds has written what was pending, and then the height.
    pub commit-done :
        (commit db store codec chain name (p, t, c)).0 ≡ ok tt
        → ((commit db store codec chain name (p, t, c)).1.0
            ≡ promote_pending_memos (taken_pending p))
          × ((u : db.Tables) × (write_pending db store codec chain name p t ≡ ok u)
              × (db.update name p.tip_height u
                  ≡ ok (commit db store codec chain name (p, t, c)).1.1))
    unfolding commit
    commit-done h =
        let write = write_pending db store codec chain name p in
        let x = commit_block db write name p.tip_height t c in
        let (done, after) = concluded-ok (taken_pending p) x h in
        let (u, made, updated) = commit_block-done db write name p.tip_height t c done in
        (ap (λ s. s.0) after, (u, made, updated ∙ ap (λ s. ok s.1) (sym after)))

    -- A commit that fails leaves the tables alone.
    pub commit-failed :
        (m : String)
        → (commit db store codec chain name (p, t, c)).0 ≡ err m
        → ((commit db store codec chain name (p, t, c)).1.0 ≡ drop_pending_memos (taken_pending p))
          × ((commit db store codec chain name (p, t, c)).1.1 ≡ t)
    unfolding commit
    commit-failed m h =
        let write = write_pending db store codec chain name p in
        let x = commit_block db write name p.tip_height t c in
        let (failed, after) = concluded-err (taken_pending p) x m h in
        (
          ap (λ s. s.0) after,
          ap (λ s. s.1) after ∙ commit_block-failed db write name p.tip_height t c m failed,
        )
