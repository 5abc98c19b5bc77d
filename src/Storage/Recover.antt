-- ===== src/Storage/Recover.antt =====
-- agent/power_journal.go: what is read back of the segment files when the journal is opened. A file
-- is its lines and a torn tail; JSON is the entry that a line decodes to, if it does.
use blox_os.Base.{
  ℕ, zero, suc, ◌+◌, ◌-◌, ◌/◌, Bool, false, ◌||◌, not, Option, none, some, List, [], ◌∷◌, ◌++◌, ltb,
  ◌==◌, if◌then◌else◌, length, drop,
}
use blox_os.Base.Table.{select_where}
use blox_os.Power.Journal.{Entry, Segment}
use blox_os.Storage.Enforce.{Limits, last_seq}

-- A line with its newline.
pub record Line : Type 0 where
  pub size : ℕ
  pub decoded : Option Entry

-- A segment file: whether it can be opened and truncated, and the bytes after its last newline.
pub record File : Type 0 where
  pub first : ℕ
  pub can_read : Bool
  pub can_truncate : Bool
  pub lines : List Line
  pub tail : ℕ

-- What readSegment returns; its count is the length of `entries`.
pub record Contents : Type 0 where
  pub good : ℕ
  pub entries : List Entry
  pub is_clean : Bool

abbrev pub stopped : Bool → Contents
stopped clean = record { good = 0; entries = []; is_clean = clean }

abbrev pub read_more : ℕ → Entry → Contents → Contents
read_more size e rest = record rest { good = size + rest.good; entries = e ∷ rest.entries }

abbrev pub follows : ℕ → Option Entry → Bool
follows last none = false
follows last (some e) = ltb last e.seq

abbrev pub is_last_line : List Line → ℕ → Bool
is_last_line [] tail = tail == 0
is_last_line (l ∷ ls) tail = false

abbrev pub and_then : ℕ → Option Entry → (Entry → Contents) → Contents
and_then size none next = stopped false
and_then size (some e) next = read_more size e (next e)

-- There is no room for the line, or it is too long, or it does not decode to a later entry.
abbrev pub refuses : Limits → ℕ → ℕ → Line → Bool
refuses l budget last x =
    budget == 0 || ltb (l.max_line + 1) x.size || ltb budget x.size || not (follows last x.decoded)

-- The loop of readSegment: `room` is how many records it still takes, `budget` how many bytes.
unfoldable pub read_lines : Limits → ℕ → ℕ → ℕ → List Line → ℕ → Contents
read_lines l zero budget last ls tail = stopped (is_last_line ls tail)
read_lines l (suc room) budget last [] tail = stopped (tail == 0)
read_lines l (suc room) budget last (x ∷ ls) tail =
    let more = λ (e : Entry). read_lines l room (budget - x.size) e.seq ls tail in
    if refuses l budget last x then stopped false else and_then x.size x.decoded more

-- readSegment.
unfoldable pub read_segment : Limits → ℕ → ℕ → File → Contents
unfolding read_lines
read_segment l last budget f =
    if f.can_read then read_lines l l.seg_records budget last f.lines f.tail else stopped false

unfoldable pub insert_file : File → List File → List File
insert_file f [] = f ∷ []
insert_file f (g ∷ gs) =
    let rest = insert_file f gs in if ltb g.first f.first then g ∷ rest else f ∷ g ∷ gs

-- sort.Slice by the first sequence.
unfoldable pub sort_files : List File → List File
unfolding insert_file
sort_files [] = []
sort_files (f ∷ fs) = insert_file f (sort_files fs)

pub record Loaded : Type 0 where
  pub segs : List Segment
  pub entries : List Entry

abbrev pub segment_of : File → Contents → Segment
segment_of f c = record {
  first = f.first;
  last = last_seq 0 c.entries;
  count = length c.entries;
  bytes = c.good;
}

abbrev pub load_more : File → Contents → Option Loaded → Option Loaded
load_more f c none = none
load_more f c (some rest) =
    some (record { segs = segment_of f c ∷ rest.segs; entries = c.entries ++ rest.entries })

-- The loop of recover over the files: a file that is not clean is truncated and ends it. The answer
-- is none if the truncation fails.
unfoldable pub load_files : Limits → ℕ → ℕ → List File → Option Loaded
unfolding read_segment
load_files l last total [] = some (record { segs = []; entries = [] })
load_files l last total (f ∷ fs) =
    let c = read_segment l last (l.max_bytes - total) f in
    let rest = load_files l (last_seq last c.entries) (total + c.good) fs in
    if c.is_clean
    then load_more f c rest
    else if f.can_truncate
    then load_more f c (some (record { segs = []; entries = [] }))
    else none

abbrev pub has_records : Segment → Bool
has_records s = not (s.count == 0)

abbrev pub drop_empty : Option Loaded → Option Loaded
drop_empty none = none
drop_empty (some x) = some (record x { segs = select_where has_records x.segs })

-- The newest files that retention could have produced.
unfoldable pub newest_files : Limits → List File → List File
unfolding sort_files
newest_files l fs = drop (length fs - (l.max_records / l.seg_records + 2)) (sort_files fs)

-- recover, given the files of the stream.
unfoldable pub recover_journal : Limits → List File → Option Loaded
unfolding load_files newest_files
recover_journal l fs = drop_empty (load_files l 0 0 (newest_files l fs))
