-- ===== src/VoterReward/Commit/Recount.antt =====
-- A batch that is read again after it failed (service/voter_reward/plugin.go, `PutBlocks`).
use iotex_analyser.Base.{ℕ, ◌+◌, String, List, ◌++◌, ◌≡◌, refl, ap, ◌∙◌, ok, err}
use iotex_analyser.Db.{Database, IndexCache}
use iotex_analyser.VoterReward.{VoterPlugin, Distribution}
use iotex_analyser.VoterReward.Plan.{Chain}
use iotex_analyser.VoterReward.Decode.{Codec}
use iotex_analyser.VoterReward.Blocks.{ChainBlock}
use iotex_analyser.VoterReward.Blocks.Memos.{Follows, Follows-refl, Follows-IsKept}
use iotex_analyser.VoterReward.Blocks.Tallied.{IsTallied, IsTallied-IsKept, paid, paid-append}
use iotex_analyser.VoterReward.Commit.{Store, put_all, put_blocks}
use iotex_analyser.VoterReward.Commit.Outcome.{put_all-Keeps}
use iotex_analyser.VoterReward.Commit.Eras.{stored_total, put_blocks-total}

module _ (db : Database) (store : Store db) (codec : Codec) (chain chain' : Chain)
    (name : String) where
  -- A call that fails while it reads keeps what it has read.
  put_blocks-unread :
      (blks : List ChainBlock) (p : VoterPlugin) (t : db.Tables) (c : IndexCache) (m : String)
      → (put_all db store codec chain name blks p).0 ≡ err m
      → (put_blocks db store codec chain name blks (p, t, c)).1
        ≡ ((put_all db store codec chain name blks p).1, t, c)
  unfolding put_blocks
  put_blocks-unread blks p t c m h = rw h refl

  -- When a call of PutBlocks fails while it reads, from a plugin whose pending totals are those of
  -- its pending rows, and a second call succeeds, then the second call's pending rows are those
  -- that the first left and more, and the stored total of every era grows by both: what is read
  -- again is counted twice.
  pub put_blocks-recounted :
      (blks blks' : List ChainBlock) (p : VoterPlugin) (t : db.Tables) (c : IndexCache) (m : String)
      → IsTallied p
      → (put_all db store codec chain name blks p).0 ≡ err m
      → (put_blocks db store codec chain' name blks'
          (put_blocks db store codec chain name blks (p, t, c)).1).0
        ≡ ok tt
      → let read = (put_all db store codec chain name blks p).1 in
        (more : List Distribution) × ((put_all db store codec chain' name blks' read).1.pending_rows
          ≡ read.pending_rows ++ more)
        × ((e : ℕ)
            → stored_total db store codec chain' name e
                (put_blocks db store codec chain' name blks'
                  (put_blocks db store codec chain name blks (p, t, c)).1).1.1
              ≡ stored_total db store codec chain' name e t
                + (paid e read.pending_rows + paid e more))
  put_blocks-recounted blks blks' p t c m sums failed done =
      let read = (put_all db store codec chain name blks p).1 in
      let left = put_blocks-unread blks p t c m failed in
      let kept : IsTallied read =
        put_all-Keeps db store codec chain name IsTallied IsTallied-IsKept blks p sums in
      let again : Follows read (put_all db store codec chain' name blks' read).1 =
        put_all-Keeps db store codec chain' name (Follows read) (Follows-IsKept read) blks' read
          (Follows-refl read) in
      let (same, (more, rows)) = again in
      (
        more,
        rows,
        (λ e. rw left (
            put_blocks-total db store codec chain' name blks' read t c kept (rw left at done) e
            ∙ ap (λ n. stored_total db store codec chain' name e t + n)
                (ap (paid e) rows ∙ paid-append e read.pending_rows more))),
      )
