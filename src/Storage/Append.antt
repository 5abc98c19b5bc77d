-- ===== src/Storage/Append.antt =====
-- agent/power_journal.go: opening the journal, and appending a record to it.
use blox_os.Base.{
  ℕ, ◌+◌, ◌%◌, ◌^◌, Bool, true, false, ◌&&◌, ◌||◌, not, Option, none, some, List, [], ◌∷◌, ◌++◌,
  ltb, leb, if◌then◌else◌, max,
}
use blox_os.Base.Text.{Text}
use blox_os.Power.Ingest.{max_seq}
use blox_os.Power.Journal.{Entry, Segment, Journal}
use blox_os.Storage.Disk.{
  Outcome, Disk, Rotation, write_state, rotate_stream, load_identity, is_done, remove_orphans,
}
use blox_os.Storage.Enforce.{Limits, Answers, last_seq, enforce}
use blox_os.Storage.Recover.{File, Loaded, recover_journal}

-- powerJournalReserve: how many sequences one write of the state file reserves.
abbrev pub reserve_step : ℕ
reserve_step = 64

-- What the system answers while a record is appended.
pub record Calls : Type 0 where
  pub before : Answers
  pub rotation : Rotation
  pub reservation : Outcome
  pub created : Outcome
  pub opened : Bool
  pub written : Bool
  pub synced : Bool
  pub after : Answers

pub data AppendError : Type 0 where
  not_enforceable not_rotated not_reserved not_encoded too_long not_opened not_written
        not_enforced :
      AppendError

-- A journal with the state files, the error of the call if there is one, and the sequence of the
-- record that became durable, if one did.
pub record Appended : Type 0 where
  pub journal : Journal
  pub disk : Disk
  pub error : Option AppendError
  pub assigned : Option ℕ

abbrev pub stop : Journal → Disk → AppendError → Appended
stop j d e = record { journal = j; disk = d; error = some e; assigned = none }

-- Go on unless the last operation failed.
abbrev pub unless_failed :
    Journal × Disk × Bool → AppendError → (Journal → Disk → Appended) → Appended
unless_failed (j, d, true) e go = go j d
unless_failed (j, d, false) e go = stop j d e

-- The last segment has room.
unfoldable pub has_room : Limits → List Segment → Bool
has_room l [] = false
has_room l (s ∷ []) = ltb s.count l.seg_records
has_room l (s ∷ t ∷ ss) = has_room l (t ∷ ss)

-- The last segment is full.
unfoldable pub is_full : Limits → List Segment → Bool
is_full l [] = false
is_full l (s ∷ []) = leb l.seg_records s.count
is_full l (s ∷ t ∷ ss) = is_full l (t ∷ ss)

abbrev fresh_segment : ℕ → Segment
fresh_segment n = record { first = n; last = 0; count = 0; bytes = 0 }

-- ensureOpen.
unfoldable pub ensure_open : Limits → Outcome → Bool → Journal → Journal × Bool
unfolding has_room
ensure_open l created opened j =
    if j.is_open
    then (j, true)
    else if has_room l j.segs
    then (if opened then (record j { is_open = true }, true) else (j, false))
    else if is_done created && opened
    then (record j { segs = j.segs ++ (fresh_segment j.next ∷ []); is_open = true }, true)
    else (j, false)

-- The last segment counts one more line.
unfoldable pub count_line : ℕ → ℕ → List Segment → List Segment
count_line bytes seq [] = []
count_line bytes seq (s ∷ []) =
    record s { count = s.count + 1; bytes = s.bytes + bytes; last = seq } ∷ []
count_line bytes seq (s ∷ t ∷ ss) = s ∷ count_line bytes seq (t ∷ ss)

-- The journal with one more record.
abbrev pub with_line : ℕ → Entry → Journal → Journal
with_line bytes e j = record j {
  segs = count_line bytes e.seq j.segs;
  next = j.next + 1;
  entries = j.entries ++ (e ∷ []);
}

abbrev pub stamped : ℕ → Entry → Entry
stamped n e = record e { seq = n }

abbrev pub enforced : Journal × Bool → Disk → (Journal → Appended) → Appended
enforced (j, true) d go = go j
enforced (j, false) d go = stop j d not_enforceable

abbrev pub enforce_error : Bool → Option AppendError
enforce_error true = none
enforce_error false = some not_enforced

module _ (size : Entry → Option ℕ) (l : Limits) (now : ℕ) (w : Calls) where
  -- The record is durable: it becomes one of the journal's, and the limits are enforced.
  unfoldable pub confirm : ℕ → Entry → Journal → Disk → Appended
  unfolding enforce count_line
  confirm bytes e j d =
      let (k, good) = enforce size w.after l now (with_line bytes e j) in
      record { journal = k; disk = d; error = enforce_error good; assigned = some e.seq }

  -- The write and the sync of the line, on an open segment.
  unfoldable pub write_line : ℕ → Entry → Disk → Journal × Bool → Appended
  unfolding confirm
  write_line bytes e d (j, false) = stop j d not_opened
  write_line bytes e d (j, true) =
      if not w.written || not w.synced
      then stop (record j { is_open = false }) d not_written
      else confirm bytes e j d

  abbrev pub close_full : Journal → Journal
  close_full j = if is_full l j.segs then record j { is_open = false } else j

  abbrev pub put_line : Option ℕ → Entry → Journal → Disk → Appended
  put_line none e j d = stop j d not_encoded
  put_line (some n) e j d =
      if ltb l.max_line n
      then stop j d too_long
      else write_line (n + 1) e d (ensure_open l w.created w.opened (close_full j))

  -- From the assigned sequence on.
  unfoldable pub put_record : Entry → Journal → Disk → Appended
  unfolding write_line ensure_open is_full
  put_record e j d = put_line (size (stamped j.next e)) (stamped j.next e) j d

  -- The reservation, where the next sequence is above the durable one.
  unfoldable pub reserve_and_put : Entry → Journal → Disk → Appended
  unfolding put_record write_state
  reserve_and_put e j d =
      if ltb j.reserved j.next
      then unless_failed (write_state w.reservation j.cursor (j.next + reserve_step) j d)
          not_reserved (put_record e)
      else put_record e j d

  unfoldable pub rotate_and_put : Entry → Journal → Disk → Appended
  unfolding reserve_and_put rotate_stream
  rotate_and_put e j d =
      if leb max_seq j.next
      then unless_failed (rotate_stream w.rotation j d) not_rotated (reserve_and_put e)
      else reserve_and_put e j d

  -- append.
  unfoldable pub append : Entry → Journal → Disk → Appended
  unfolding rotate_and_put enforce
  append e j d =
      if j.over_cap
      then enforced (enforce size w.before l now j) d (λ k. rotate_and_put e k d)
      else rotate_and_put e j d

-- What the system answers while the journal is opened.
pub record Opening : Type 0 where
  pub identity : Rotation
  pub exhausted : Rotation
  pub gone : Text → Bool
  pub files : List File
  pub swept : Answers

-- The opened journal, or none after an error.
abbrev pub opened_if : Journal × Bool → Disk → Option Journal × Disk
opened_if (j, true) d = (some j, d)
opened_if (j, false) d = (none, d)

abbrev pub then_open :
    Journal × Disk × Bool → (Journal → Disk → Option Journal × Disk) → Option Journal × Disk
then_open (j, d, true) go = go j d
then_open (j, d, false) go = (none, d)

-- One more than the largest sequence that is known, on 64 bits.
unfoldable pub next_after : Journal → List Entry → ℕ
unfolding last_seq
next_after j rs = (max (max j.cursor j.reserved) (last_seq 0 rs) + 1) % 2 ^ 64

module _ (size : Entry → Option ℕ) (l : Limits) (now : ℕ) (w : Opening) where
  unfoldable pub open_enforced : Journal → Disk → Option Journal × Disk
  unfolding enforce
  open_enforced j d = opened_if (enforce size w.swept l now j) d

  abbrev pub open_recovered : Option Loaded → Journal → Disk → Option Journal × Disk
  open_recovered none j d = (none, d)
  open_recovered (some x) j d =
      let k = record j { entries = x.entries; segs = x.segs; next = next_after j x.entries } in
      let kept = remove_orphans w.gone j.stream d in
      if leb max_seq k.next
      then then_open (rotate_stream w.exhausted k kept) open_enforced
      else open_enforced k kept

  unfoldable pub open_loaded : Journal → Disk → Option Journal × Disk
  unfolding open_enforced recover_journal next_after rotate_stream remove_orphans
  open_loaded j d = open_recovered (recover_journal l w.files) j d

  -- openPowerJournalWith, once the directory is there.
  unfoldable pub open_journal : Disk → Option Journal × Disk
  unfolding open_loaded load_identity
  open_journal d = then_open (load_identity w.identity d) open_loaded
