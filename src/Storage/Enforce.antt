-- ===== src/Storage/Enforce.antt =====
-- agent/power_journal.go: the retention window and the limits, enforced on the retained records and
-- on the segment files. Which removals and compactions fail is an argument.
use blox_os.Base.{
  ℕ, ◌+◌, ◌-◌, Bool, true, false, ◌&&◌, ◌||◌, not, Option, none, some, List, [], ◌∷◌, ◌++◌, ltb,
  leb, ◌==◌, if◌then◌else◌, length, drop,
}
use blox_os.Base.Table.{select_where}
use blox_os.Power.Journal.{Entry, Segment, Journal, is_live, is_bare, max_future_skew_ms}

-- maxRecords, maxBytes, segRecords, powerJournalMaxLine and the retention window.
pub record Limits : Type 0 where
  pub max_records : ℕ
  pub max_bytes : ℕ
  pub seg_records : ℕ
  pub max_line : ℕ
  pub retention_ms : ℕ

abbrev pub default_limits : Limits
default_limits = record {
  max_records = 2880;
  max_bytes = 33554432;
  seg_records = 10;
  max_line = 65536;
  retention_ms = 86400000;
}

-- What the system answers to an enforcement: by first sequence, whether a segment can be removed (or
-- is not there) and whether it can be rewritten.
pub record Answers : Type 0 where
  pub removed : ℕ → Bool
  pub rewritten : ℕ → Bool

-- The records from sequence `n` on, of the rest of the list.
unfoldable pub skip_before : ℕ → List Entry → List Entry
skip_before n [] = []
skip_before n (r ∷ rs) = if ltb r.seq n then skip_before n rs else r ∷ rs

-- The records up to sequence `n`, at the front of the list.
unfoldable pub take_through : ℕ → List Entry → List Entry
take_through n [] = []
take_through n (r ∷ rs) = let rest = take_through n rs in if leb r.seq n then r ∷ rest else []

unfoldable pub last_seq : ℕ → List Entry → ℕ
last_seq n [] = n
last_seq n (r ∷ rs) = last_seq r.seq rs

-- The bytes of the lines, or none if one cannot be encoded.
unfoldable pub lines_size : (Entry → Option ℕ) → List Entry → Option ℕ
lines_size size [] = some 0
lines_size size (r ∷ rs) =
    let rest = lines_size size rs in
    elim (size r) [ none ↦ none | some n ↦ elim rest [ none ↦ none | some m ↦ some (n + 1 + m) ] ]

unfoldable pub total_bytes : List Segment → ℕ
total_bytes [] = 0
total_bytes (s ∷ ss) = s.bytes + total_bytes ss

abbrev rewrite : Bool → Segment → List Entry → Option ℕ → Option Segment
rewrite written s rs none = none
rewrite written s rs (some bytes) =
    if written
    then some (record s { count = length rs; bytes = bytes; last = last_seq s.last rs })
    else none

-- compactSegment: the segment after it, or none after an error.
unfoldable pub compact_segment :
    (Entry → Option ℕ) → Answers → Segment → List Entry → Option Segment
unfolding lines_size last_seq
compact_segment size w s rs = rewrite (w.rewritten s.first) s rs (lines_size size rs)

-- One segment reconciled: what stays of it, whether an error occurred, whether its handle is closed.
pub record Reconciled : Type 0 where
  pub kept : List Segment
  pub has_failed : Bool
  pub is_closed : Bool

abbrev compacted : Segment → Option Segment → Reconciled
compacted s none = record { kept = s ∷ []; has_failed = true; is_closed = true }
compacted s (some s') = record { kept = s' ∷ []; has_failed = false; is_closed = true }

abbrev removed_or_kept : Bool → Segment → Reconciled
removed_or_kept true s = record { kept = []; has_failed = false; is_closed = true }
removed_or_kept false s = record { kept = s ∷ []; has_failed = true; is_closed = true }

unfoldable pub reconcile_one :
    (Entry → Option ℕ) → Answers → Bool → Segment → List Entry → Reconciled
unfolding compact_segment
reconcile_one size w failed_before s in_seg =
    if length in_seg == s.count || failed_before
    then record { kept = s ∷ []; has_failed = failed_before; is_closed = false }
    else if is_bare in_seg
    then removed_or_kept (w.removed s.first) s
    else compacted s (compact_segment size w s in_seg)

abbrev is_none_left : List Segment → Bool
is_none_left [] = true
is_none_left (s ∷ ss) = false

-- The rest of the records, behind those of a segment.
unfoldable pub beyond : Segment → List Entry → List Entry
unfolding skip_before
beyond s rs = skip_before (s.last + 1) (skip_before s.first rs)

unfoldable pub within : Segment → List Entry → List Entry
unfolding skip_before take_through
within s rs = take_through s.last (skip_before s.first rs)

abbrev pub join : Reconciled → Bool → Reconciled → Reconciled
join one is_live_one rest = record {
  kept = one.kept ++ rest.kept;
  has_failed = rest.has_failed;
  is_closed = (one.is_closed && is_live_one) || rest.is_closed;
}

-- The loop over the segments; only the last one can have the handle.
unfoldable pub reconcile_segments :
    (Entry → Option ℕ) → Answers → Bool → List Segment → List Entry → Reconciled
unfolding reconcile_one beyond within
reconcile_segments size w failed_before [] rs = record {
  kept = [];
  has_failed = failed_before;
  is_closed = false;
}
reconcile_segments size w failed_before (s ∷ ss) rs =
    let one = reconcile_one size w failed_before s (within s rs) in
    join one (is_none_left ss) (reconcile_segments size w one.has_failed ss (beyond s rs))

pub record Trimmed : Type 0 where
  pub left : List Segment
  pub records : List Entry
  pub has_failed : Bool
  pub is_closed : Bool

-- The loop that removes the oldest segments while the files are too large; the handle is closed
-- with the last segment.
unfoldable pub trim : Answers → ℕ → List Segment → List Entry → Trimmed
unfolding total_bytes skip_before
trim w limit [] rs = record { left = []; records = rs; has_failed = false; is_closed = false }
trim w limit (s ∷ ss) rs =
    let smaller = trim w limit ss (skip_before (s.last + 1) rs) in
    if leb (total_bytes (s ∷ ss)) limit
    then record { left = s ∷ ss; records = rs; has_failed = false; is_closed = false }
    else if not (w.removed s.first)
    then record { left = s ∷ ss; records = rs; has_failed = true; is_closed = is_none_left ss }
    else record smaller { is_closed = is_none_left ss || smaller.is_closed }

-- The age filter, and then the newest records.
unfoldable pub retained : Limits → ℕ → List Entry → List Entry
unfolding is_live
retained l now rs =
    let live = select_where (is_live (now - l.retention_ms) (now + max_future_skew_ms)) rs in
    drop (length live - l.max_records) live

abbrev pub trim_unless : Bool → Answers → ℕ → List Segment → List Entry → Trimmed
trim_unless true w limit ss rs = record {
  left = ss;
  records = rs;
  has_failed = true;
  is_closed = false;
}
trim_unless false w limit ss rs = trim w limit ss rs

-- enforce; the answer is whether it succeeded.
unfoldable pub enforce : (Entry → Option ℕ) → Answers → Limits → ℕ → Journal → Journal × Bool
unfolding retained reconcile_segments trim
enforce size w l now j =
    let rs = retained l now j.entries in
    let swept = reconcile_segments size w false j.segs rs in
    let cut = trim_unless swept.has_failed w l.max_bytes swept.kept rs in
    (
      record j {
        entries = cut.records;
        segs = cut.left;
        is_open = j.is_open && not (swept.is_closed || cut.is_closed);
        over_cap = cut.has_failed;
      },
      not cut.has_failed,
    )
