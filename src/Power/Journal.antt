-- ===== src/Power/Journal.antt =====
-- agent/power_journal.go: what the agent sends next of its journal, and what an acknowledgement does
-- to it. JSON is an argument: the encoded size of a batch, or none if it cannot be encoded.
use blox_os.Base.{
  ℕ, zero, suc, ◌+◌, ◌-◌, ◌/◌, Bool, true, false, ◌&&◌, not, Option, none, some, List, [], ◌∷◌, ltb,
  leb, ◌==◌, if◌then◌else◌, length, take,
}
use blox_os.Base.Text.{Text, text_eq}
use blox_os.Base.Table.{select_where}
use blox_os.Base.Result.{Result, ok, err}

-- powerhistory.MaxFutureSkewSeconds, in milliseconds.
abbrev pub max_future_skew_ms : ℕ
max_future_skew_ms = 900000

-- Of a bucket, what the journal reads; the rest is in its encoding.
pub record Entry : Type 0 where
  pub seq : ℕ
  pub end_ms : ℕ

-- powerSnapshot, taken of the journal.
pub record Snapshot : Type 0 where
  pub stream_id : Text
  pub acked : ℕ
  pub next_seq : ℕ
  pub records : List Entry
  pub retention_ms : ℕ

pub record PendingBatch : Type 0 where
  pub stream_id : Text
  pub retained_from : ℕ
  pub buckets : List Entry

-- powerRecordLive.
unfoldable pub is_live : ℕ → ℕ → Entry → Bool
is_live cut horizon r = leb cut r.end_ms && leb r.end_ms horizon

-- Unacknowledged, and live at this time.
unfoldable pub is_pending : ℕ → Snapshot → Entry → Bool
unfolding is_live
is_pending now s r =
    ltb s.acked r.seq && is_live (now - s.retention_ms) (now + max_future_skew_ms) r

-- The contiguous run: `prev` is the sequence before, none at the start.
unfoldable pub take_run : ℕ → Option ℕ → List Entry → List Entry
take_run zero prev rs = []
take_run (suc room) prev [] = []
take_run (suc room) none (r ∷ rs) = r ∷ take_run room (some r.seq) rs
take_run (suc room) (some prev) (r ∷ rs) =
    let rest = take_run room (some r.seq) rs in if r.seq == prev + 1 then r ∷ rest else []

unfoldable pub first_seq : ℕ → List Entry → ℕ
first_seq next_seq [] = next_seq
first_seq next_seq (r ∷ rs) = r.seq

abbrev pub is_bare : List Entry → Bool
is_bare [] = true
is_bare (r ∷ rs) = false

abbrev pub fits : Option ℕ → ℕ → Option Bool
fits none max_bytes = none
fits (some size) max_bytes = some (leb size max_bytes)

-- The loop that halves the batch until it fits, or holds one bucket.
unfoldable pub shrink : (PendingBatch → Option ℕ) → ℕ → ℕ → PendingBatch → Option PendingBatch
shrink size max_bytes zero b = none
shrink size max_bytes (suc fuel) b =
    let smaller =
      shrink size max_bytes fuel (record b { buckets = take (length b.buckets / 2) b.buckets }) in
    elim (fits (size b) max_bytes) [
      | none ↦ none
      | some small ↦ if small then some b else if leb (length b.buckets) 1 then some b else smaller
    ]

unfoldable pub batch_of : Snapshot → List Entry → PendingBatch
unfolding first_seq
batch_of s pending = record {
  stream_id = s.stream_id;
  retained_from = first_seq s.next_seq pending;
  buckets = pending;
}

unfoldable pub pending_batch :
    (PendingBatch → Option ℕ) → ℕ → ℕ → ℕ → Snapshot → Option PendingBatch
unfolding is_pending take_run shrink batch_of
pending_batch size now max_records max_bytes s =
    let b = batch_of s (take_run max_records none (select_where (is_pending now s) s.records)) in
    if is_bare b.buckets && not (ltb (s.acked + 1) b.retained_from)
    then none
    else shrink size max_bytes (suc (length b.buckets)) b

-- powerSegment; its path is made of the stream and `first`.
pub record Segment : Type 0 where
  pub first : ℕ
  pub last : ℕ
  pub count : ℕ
  pub bytes : ℕ

-- powerJournal; `cursor` is acked, `is_open` that the append handle is there. Its limits and its
-- clock are arguments of the operations.
pub record Journal : Type 0 where
  pub stream : Text
  pub cursor : ℕ
  pub reserved : ℕ
  pub next : ℕ
  pub entries : List Entry
  pub segs : List Segment
  pub is_open : Bool
  pub over_cap : Bool

pub data AckError : Type 0 where
  stream_mismatch beyond_last state_not_written : AckError

-- ack; `written` is whether the state file could be replaced. The answer says that the cursor moved.
unfoldable pub ack : Bool → Text → ℕ → Journal → Journal × Result AckError Bool
ack written stream through j =
    if not (text_eq stream j.stream)
    then (j, err stream_mismatch)
    else if leb j.next through
    then (j, err beyond_last)
    else if leb through j.cursor
    then (j, ok false)
    else if not written
    then (j, err state_not_written)
    else (record j { cursor = through }, ok true)
