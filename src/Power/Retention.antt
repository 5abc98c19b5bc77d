-- ===== src/Power/Retention.antt =====
-- hub/power_history.go: the pruning of a stream, and what a stream goes through after a commit.
use blox_os.Base.{ℕ, ◌≡◌, Bool, Option}
use blox_os.Base.Text.{Text}
use blox_os.Base.Table.{delete_where}
use blox_os.Base.Result.{ok}
use blox_os.Power.Ingest.{Bucket, Batch, Gap, Stream, commit_batch}

-- prunePowerHistory on one stream. Which rows are outside the window is an argument: of the records by
-- their sequence, which is their key, since a row's end is not in the model; of the gaps by their range.
unfoldable pub prune_power_history : (ℕ → Bool) → (Gap → Bool) → Stream → Stream
unfolding delete_where
prune_power_history expired stale st = record st {
  records = delete_where (λ (b : Bucket). expired b.seq) st.records;
  gaps = delete_where stale st.gaps;
}

-- What the stream can be after any batches that are committed and any prunings, in any order.
pub data Since (canonical : Text → Option Text) (st : Stream) : Stream → Type 0 where
  at_once : Since canonical st st
  committing :
      {u v : Stream}
      → Since canonical st u
      → (past_limit : ℕ) (b : Batch) (t : ℕ) → commit_batch canonical past_limit b u ≡ ok (v, t)
      → Since canonical st v
  pruning :
      {u : Stream}
      → Since canonical st u
      → (expired : ℕ → Bool) (stale : Gap → Bool)
      → Since canonical st (prune_power_history expired stale u)
