-- ===== src/Frame/Tests.antt =====
-- hub/power_history.go: frames that are refused, accepted, and sent again.
use blox_os.Base.{
  ℕ, ◌≡◌, ◌≤◌, ltb, ◌≢◌, ◌⊎◌, ◌↔◌, ◌*◌, ◌^◌, inl, inr, refl, arith, List, [], ◌∷◌, Option, none,
  some, Bool, true, false,
}
use blox_os.Base.Text.{Text, codes}
use blox_os.Base.Result.{Result, ok, err}
use blox_os.Power.Ingest.{Bucket, Batch, Stream, too_old, commit_batch}
use blox_os.Power.Retention.{prune_power_history, Since, at_once, committing, pruning}
use blox_os.Frame.Wire.{
  pos, nan, below, Stats, Sensor, WireBucket, WireBatch, batch_type, domain_cpu,
}
use blox_os.Frame.Check.{
  in_bucket, not_increasing, clock_skew, bad_sources, label_without_statistics, duplicate_gpu,
  not_finite, retained_out_of_range, watts, valid_power_stats, validate_power_batch,
}
use blox_os.Frame.Accept.{
  Ingestion, Ack, FrameError, issue_none, issue_clock, refused, not_committed, to_bucket,
  with_stream, commit_power_history_frame,
}
use blox_os.Frame.Answering.{Refused, frame-refuses}
use blox_os.Frame.Statistics.{IsStats, valid_stats_iff}
use blox_os.Frame.Again.{frame_again}

abbrev one_stats : ℕ → Stats
one_stats n = record {
  mean_watts = some (watts 100);
  peak_watts = some (watts 120);
  samples = pos n;
}

abbrev gpu : Text → Sensor
gpu id = record { id = id; stats = one_stats 30 }

abbrev window : ℕ → WireBucket
window n = record {
  seq = n;
  start_unix_ms = pos 1788739200000;
  end_unix_ms = pos 1788739230000;
  expected_samples = pos 30;
  gpus = gpu (codes "g0") ∷ gpu (codes "g1") ∷ [];
  gpu_total = some (one_stats 30);
  cpu = some (one_stats 29);
  system = none;
  dram = none;
  sources = record { domain = domain_cpu; source = codes "rapl:x" } ∷ [];
  gap_before = false;
}

abbrev frame : List WireBucket → WireBatch
frame bs = record {
  kind = batch_type;
  stream_id = codes "s1";
  retained_from = 1;
  buckets = bs;
  degraded = false;
}

abbrev noon : ℕ
noon = 1788739240000

valid_frame : validate_power_batch (frame (window 1 ∷ window 3 ∷ [])) noon ≡ none
unfolding validate_power_batch
valid_frame = refl

same_seq :
    validate_power_batch (frame (window 1 ∷ window 1 ∷ [])) noon ≡ some (in_bucket 1 not_increasing)
unfolding validate_power_batch
same_seq = refl

ahead : validate_power_batch (frame (window 1 ∷ [])) 1788738300000 ≡ some (in_bucket 0 clock_skew)
unfolding validate_power_batch
ahead = refl

just_ahead : validate_power_batch (frame (window 1 ∷ [])) 1788738330000 ≡ none
unfolding validate_power_batch
just_ahead = refl

no_retention :
    validate_power_batch (record (frame []) { retained_from = 0 }) noon ≡ some retained_out_of_range
unfolding validate_power_batch
no_retention = refl

gap_only : validate_power_batch (frame []) noon ≡ none
unfolding validate_power_batch
gap_only = refl

unlabelled_system :
    validate_power_batch (frame (record (window 1) { cpu = none } ∷ [])) noon
    ≡ some (in_bucket 0 (bad_sources label_without_statistics))
unfolding validate_power_batch
unlabelled_system = refl

two_alike :
    validate_power_batch
      (frame (record (window 1) { gpus = gpu (codes "g0") ∷ gpu (codes "g0") ∷ [] } ∷ []))
      noon
    ≡ some (in_bucket 0 duplicate_gpu)
unfolding validate_power_batch
two_alike = refl

not_a_number :
    valid_power_stats (record (one_stats 1) { peak_watts = some nan }) (pos 30) (watts 1000)
    ≡ some not_finite
unfolding valid_power_stats
not_a_number = refl

negative_zero :
    valid_power_stats (record (one_stats 1) { mean_watts = some (below 0) }) (pos 30) (watts 1000)
    ≡ none
unfolding valid_power_stats
negative_zero = refl

-- A bucket as text: its sequence.
abbrev as_text : WireBucket → Text
as_text b = b.seq ∷ []

abbrev no_rows : Stream
no_rows = record {
  acked_through = 0;
  max_seen_seq = 0;
  retained_from = 0;
  degraded = false;
  records = [];
  gaps = [];
}

abbrev fresh_machine : Ingestion
fresh_machine = record { streams = λ s. no_rows; issue = issue_clock }

abbrev full : WireBatch
full = frame (window 1 ∷ window 2 ∷ [])

abbrev first_ack : Ack
first_ack = record { stream_id = codes "s1"; through = 2 }

abbrev sent : Ingestion × Result FrameError Ack
sent = commit_power_history_frame as_text some true 900 (some full) noon noon true fresh_machine

sent_whole :
    commit_power_history_frame as_text some true 900 (some full) noon noon true fresh_machine
    ≡ (sent.0, ok first_ack)
unfolding commit_power_history_frame blox_os.Base.Table.find_where blox_os.Base.Table.select_where
sent_whole = refl

-- Another batch of the stream, with the hole 4, and the pruning of every acknowledged row.
abbrev next_batch : Batch
next_batch = record {
  retained_from = 1;
  degraded = true;
  buckets = to_bucket as_text (window 3) ∷ to_bucket as_text (window 5) ∷ [];
}

abbrev row : ℕ → Bucket
row n = to_bucket as_text (window n)

abbrev grown : Stream
grown = record {
  acked_through = 3;
  max_seen_seq = 5;
  retained_from = 1;
  degraded = true;
  records = row 5 ∷ row 3 ∷ row 2 ∷ row 1 ∷ [];
  gaps = [];
}

grows : commit_batch some 0 next_batch (sent.0.streams (codes "s1")) ≡ ok (grown, 3)
unfolding commit_batch blox_os.Base.Table.find_where commit_power_history_frame
    blox_os.Base.Table.select_where
grows = refl

abbrev aged : Stream
aged = prune_power_history (λ n. ltb n 4) (λ g. true) grown

aged_rows : aged.records ≡ (row 5 ∷ [])
unfolding prune_power_history
aged_rows = refl

abbrev aged_machine : Ingestion
aged_machine = record { streams = λ s. aged; issue = issue_clock }

aged-Since : Since some (sent.0.streams (codes "s1")) aged
aged-Since = pruning (committing at_once 0 next_batch 3 grows) (λ n. ltb n 4) (λ g. true)

frame_again_example :
    (2 ≤ 3)
    × (commit_power_history_frame as_text some true 900
          (some full)
          1888739240000
          1888739240000
          true
          aged_machine
        ≡ (
          record {
            streams = with_stream (codes "s1") (record aged { degraded = false }) (λ s. aged);
            issue = issue_none;
          },
          ok (record { stream_id = codes "s1"; through = 3 }),
        ))
unfolding prune_power_history
frame_again_example =
    frame_again as_text some 900 full noon 1888739240000 noon 1888739240000 true fresh_machine
      sent.0 aged_machine first_ack (λ k. refl) (omega arith) sent_whole
      (omega arith, (omega arith, tt)) aged-Since

-- A row above the acknowledgement that was pruned is refused when its batch comes again too late.
abbrev holed : Stream
holed = record {
  acked_through = 2;
  max_seen_seq = 4;
  retained_from = 1;
  degraded = false;
  records = [];
  gaps = [];
}

too_late :
    (commit_power_history_frame as_text some true 900
      (some (frame (window 1 ∷ window 2 ∷ window 4 ∷ [])))
      1888739240000
      1888739240000
      true
      (record { streams = λ s. holed; issue = issue_none })).1
    ≡ err (not_committed too_old)
unfolding commit_power_history_frame blox_os.Base.Table.find_where
too_late = refl

skewed :
    (commit_power_history_frame as_text some true 900
      (some (frame (window 1 ∷ [])))
      1788738300000
      1788738300000
      true
      fresh_machine).1
    ≡ err (refused (in_bucket 0 clock_skew))
unfolding commit_power_history_frame
skewed = refl

frame-refuses_example :
    Refused fresh_machine
      (commit_power_history_frame as_text some true 900
        (some (frame (window 1 ∷ [])))
        1788738300000
        1788738300000
        true
        fresh_machine).0
      (refused (in_bucket 0 clock_skew))
frame-refuses_example =
    frame-refuses as_text some true 900 (some (frame (window 1 ∷ []))) 1788738300000 1788738300000
      true fresh_machine (refused (in_bucket 0 clock_skew)) skewed

valid_stats_iff_example :
    (valid_power_stats (one_stats 30) (pos 30) (watts 1000) ≡ none)
    ↔ IsStats (one_stats 30) (pos 30) (1000 * 2 ^ 1074)
valid_stats_iff_example = valid_stats_iff (one_stats 30) (pos 30) (1000 * 2 ^ 1074)
