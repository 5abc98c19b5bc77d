-- ===== src/Frame/Accept.antt =====
-- hub/power_history.go: commitPowerHistoryFrame, on the streams of one machine and the diagnostic of its
-- connection. JSON is an argument: what the frame decodes to, and the text of a bucket.
use blox_os.Base.{ℕ, ◌-◌, Option, none, some, Bool, not, ltb, if◌then◌else◌, map}
use blox_os.Base.Text.{Text, text_eq}
use blox_os.Base.Result.{Result, ok, err}
use blox_os.Power.Ingest.{Bucket, Batch, Stream, CommitError, conflict, commit_batch}
use blox_os.Frame.Wire.{to_nat, WireBucket, WireBatch, max_frame_bytes}
use blox_os.Frame.Check.{BatchError, clock_skew, in_bucket, validate_power_batch}

-- powerIssueNone and its like.
pub data PowerIssue : Type 0 where
  issue_none issue_invalid issue_clock issue_storage issue_conflict : PowerIssue

pub data FrameError : Type 0 where
  unregistered_connection frame_too_large invalid_json : FrameError
  refused : BatchError → FrameError
  not_committed : CommitError → FrameError
  storage_failed : FrameError

-- The machine's rows, by stream, and the connection's diagnostic.
pub record Ingestion : Type 0 where
  pub streams : Text → Stream
  pub issue : PowerIssue

pub record Ack : Type 0 where
  pub stream_id : Text
  pub through : ℕ

-- powerMaxPastAge, in milliseconds.
abbrev pub max_past_age_ms : ℕ
max_past_age_ms = 172800000

abbrev pub to_bucket : (WireBucket → Text) → WireBucket → Bucket
to_bucket encode b = record { seq = b.seq; start_ms = to_nat b.start_unix_ms; payload = encode b }

abbrev pub to_batch : (WireBucket → Text) → WireBatch → Batch
to_batch encode b = record {
  retained_from = b.retained_from;
  degraded = b.degraded;
  buckets = map (to_bucket encode) b.buckets;
}

unfoldable pub with_stream : Text → Stream → (Text → Stream) → Text → Stream
unfolding text_eq
with_stream s st streams t = if text_eq t s then st else streams t

abbrev pub issue_of_refusal : BatchError → PowerIssue
issue_of_refusal (in_bucket i clock_skew) = issue_clock
issue_of_refusal _ = issue_invalid

abbrev pub issue_of_commit : CommitError → PowerIssue
issue_of_commit conflict = issue_conflict
issue_of_commit _ = issue_storage

abbrev pub with_issue : PowerIssue → Ingestion → Ingestion
with_issue i h = record h { issue = i }

-- The commit, which the database can refuse.
abbrev pub commit_result :
    WireBatch
    → Bool
    → Ingestion
    → Result CommitError (Stream × ℕ)
    → Ingestion × Result FrameError Ack
commit_result b stored h (err e) = (with_issue (issue_of_commit e) h, err (not_committed e))
commit_result b stored h (ok (st, through)) =
    if stored
    then (
      record { streams = with_stream b.stream_id st h.streams; issue = issue_none },
      ok (record { stream_id = b.stream_id; through = through }),
    )
    else (with_issue issue_storage h, err storage_failed)

abbrev pub accept_checked :
    (WireBucket → Text)
    → (Text → Option Text)
    → ℕ
    → Bool
    → Ingestion
    → WireBatch
    → Option BatchError
    → Ingestion × Result FrameError Ack
accept_checked encode canonical now stored h b (some e) =
    (with_issue (issue_of_refusal e) h, err (refused e))
accept_checked encode canonical now stored h b none =
    commit_result b stored h
      (commit_batch canonical (now - max_past_age_ms) (to_batch encode b) (h.streams b.stream_id))

abbrev pub accept_decoded :
    (WireBucket → Text)
    → (Text → Option Text)
    → ℕ
    → ℕ
    → Bool
    → Ingestion
    → Option WireBatch
    → Ingestion × Result FrameError Ack
accept_decoded encode canonical now commit_now stored h none =
    (with_issue issue_invalid h, err invalid_json)
accept_decoded encode canonical now commit_now stored h (some b) =
    accept_checked encode canonical commit_now stored h b (validate_power_batch b now)

-- commitPowerHistoryFrame: whether the connection is the registered one, the bytes of the frame, what it
-- decodes to, the time of the checks, that of the commit, and whether the database stores it.
unfoldable pub commit_power_history_frame :
    (WireBucket → Text)
    → (Text → Option Text)
    → Bool
    → ℕ
    → Option WireBatch
    → ℕ
    → ℕ
    → Bool
    → Ingestion
    → Ingestion × Result FrameError Ack
unfolding validate_power_batch commit_batch with_stream
commit_power_history_frame encode canonical registered size decoded now commit_now stored h =
    if not registered
    then (h, err unregistered_connection)
    else if ltb max_frame_bytes size
    then (with_issue issue_invalid h, err frame_too_large)
    else accept_decoded encode canonical now commit_now stored h decoded
