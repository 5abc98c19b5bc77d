-- ===== src/Power/Tests.antt =====
-- hub/power_history.go: a stream that receives 1 and 2, loses 3 and 4, and receives 5.
use blox_os.Base.{
  ◌⊎◌, ◌*◌, ◌≢◌, ◌↔◌, All, length, ℕ, ◌+◌, ◌≤◌, ◌<◌, ◌≡◌, refl, Bool, true, false, ◌&&◌, ◌||◌, not,
  Option, none, some, List, [], ◌∷◌, ltb, arith,
}
use blox_os.Base.Text.{Text, codes}
use blox_os.Base.Table.{find_where}
use blox_os.Base.Result.{ok, err}
use blox_os.Power.Ingest.{Bucket, Batch, Stream, conflict, has_seq, mem_seq, seqs, commit_batch}
use blox_os.Power.Gaps.{in_gaps}
use blox_os.Power.Prefix.{is_settled}
use blox_os.Power.Acks.{commit-settles, commit-stops, commit-gaps}
use blox_os.Power.Replay.{commit-replay}
use blox_os.Power.Delivery.{commit-delivers}
use blox_os.Power.Journal.{Journal, Entry, Snapshot, PendingBatch, is_pending, pending_batch}
use blox_os.Power.Pending.{IsRun, Fits}
use blox_os.Power.Uplink.{pending_entries, pending_batch_sound, pending_batch-none}

abbrev bucket : ℕ → Bucket
bucket seq = record { seq = seq; start_ms = 1000; payload = seq ∷ [] }

abbrev empty_stream : Stream
empty_stream = record {
  acked_through = 0;
  max_seen_seq = 0;
  retained_from = 0;
  degraded = false;
  records = [];
  gaps = [];
}

abbrev first_batch : Batch
first_batch = record { retained_from = 1; degraded = false; buckets = bucket 1 ∷ bucket 2 ∷ [] }

abbrev first_stream : Stream
first_stream = record {
  acked_through = 2;
  max_seen_seq = 2;
  retained_from = 1;
  degraded = false;
  records = bucket 2 ∷ bucket 1 ∷ [];
  gaps = [];
}

abbrev lossy_batch : Batch
lossy_batch = record { retained_from = 5; degraded = false; buckets = bucket 5 ∷ [] }

abbrev lossy_stream : Stream
lossy_stream = record {
  acked_through = 5;
  max_seen_seq = 5;
  retained_from = 5;
  degraded = false;
  records = bucket 5 ∷ bucket 2 ∷ bucket 1 ∷ [];
  gaps = record { from_seq = 3; through_seq = 4 } ∷ [];
}

first_commit : commit_batch some 0 first_batch empty_stream ≡ ok (first_stream, 2)
unfolding commit_batch find_where blox_os.Base.Table.select_where
first_commit = refl

lossy_commit : commit_batch some 0 lossy_batch first_stream ≡ ok (lossy_stream, 5)
unfolding commit_batch find_where blox_os.Base.Table.select_where
lossy_commit = refl

-- The same sequence with another payload is refused.
other_payload :
    commit_batch some 0
      (record first_batch { buckets = record { seq = 1; start_ms = 1000; payload = [] } ∷ [] })
      first_stream
    ≡ err conflict
unfolding commit_batch find_where blox_os.Base.Text.text_eq
other_payload = refl

commit-settles_example : is_settled 4 lossy_stream ≡ true
commit-settles_example =
    commit-settles some 0 lossy_batch first_stream lossy_stream 5 lossy_commit 4 (omega arith)
      (omega arith)

commit-stops_example :
    (lossy_stream.acked_through ≡ 5) × (2 ≤ 5) × (is_settled (5 + 1) lossy_stream ≡ false)
commit-stops_example =
    commit-stops some 0 lossy_batch first_stream lossy_stream 5 lossy_commit (omega arith)

bucket_found : find_where (has_seq 1) first_stream.records ≡ some (bucket 1)
unfolding find_where
bucket_found = refl

commit-gaps_example : in_gaps 3 lossy_stream.gaps ≡ (
    in_gaps 3 first_stream.gaps
    || (ltb 1 5
        && ltb 2 3
        && ltb 3 5
        && not (mem_seq 3 (seqs lossy_batch.buckets) || mem_seq 3 (seqs lossy_stream.records))))
commit-gaps_example = commit-gaps some 0 lossy_batch first_stream lossy_stream 5 lossy_commit 3

commit-replay_example : commit_batch some 9000 lossy_batch lossy_stream ≡ ok (lossy_stream, 5)
commit-replay_example =
    commit-replay some 0 9000 lossy_batch first_stream lossy_stream 5 (refl, tt) lossy_commit

abbrev entry : ℕ → Entry
entry seq = record { seq = seq; end_ms = 1000 }

-- Sequence 3 was lost, so 4 and 5 wait for the acknowledgement that covers it.
abbrev snapshot : Snapshot
snapshot = record {
  stream_id = codes "a1";
  acked = 0;
  next_seq = 6;
  records = entry 1 ∷ entry 2 ∷ entry 4 ∷ entry 5 ∷ [];
  retention_ms = 86400000;
}

abbrev encoded_size : PendingBatch → Option ℕ
encoded_size b = some (length b.buckets * 100)

abbrev sent : PendingBatch
sent = record { stream_id = codes "a1"; retained_from = 1; buckets = entry 1 ∷ entry 2 ∷ [] }

snapshot-sent : pending_batch encoded_size 2000 10 1000 snapshot ≡ some sent
unfolding pending_batch blox_os.Base.Table.select_where
snapshot-sent = refl

-- With room for one bucket the batch is halved.
snapshot-halved :
    pending_batch encoded_size 2000 10 150 snapshot ≡ some (record sent { buckets = entry 1 ∷ [] })
unfolding pending_batch blox_os.Base.Table.select_where blox_os.Base.take
snapshot-halved = refl

pending_batch_sound_example :
    (codes "a1" ≡ snapshot.stream_id)
    × IsRun 1 sent.buckets
    × All (λ r. is_pending 2000 snapshot r ≡ true) sent.buckets
    × Fits encoded_size 1000 sent
pending_batch_sound_example =
    pending_batch_sound encoded_size 2000 10 1000 snapshot sent snapshot-sent

encodes : (b : PendingBatch) → encoded_size b ≢ none
encodes b h = cc

pending_batch-none_example :
    (pending_batch encoded_size 2000 10 1000 snapshot ≡ none)
    ↔ ((pending_entries 2000 snapshot ≡ []) × (snapshot.next_seq ≤ snapshot.acked + 1))
pending_batch-none_example =
    pending_batch-none encoded_size 2000 10 1000 snapshot (omega arith) encodes

abbrev journal : Journal
journal = record {
  stream = codes "a1";
  cursor = 0;
  reserved = 64;
  next = 6;
  entries = [];
  segs = [];
  is_open = false;
  over_cap = false;
}

carries_five : (k : ℕ) → 5 ≤ k → k ≤ 5 → mem_seq k (seqs lossy_batch.buckets) ≡ true
unfolding mem_seq seqs
carries_five k low high = ground arith

commit-delivers_example : 5 ≤ 5
commit-delivers_example =
    commit-delivers some 0 lossy_batch first_stream lossy_stream 5 5 (refl, tt) lossy_commit
      (omega arith) (omega arith) carries_five
