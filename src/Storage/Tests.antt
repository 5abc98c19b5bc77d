-- ===== src/Storage/Tests.antt =====
-- agent/power_journal.go: a journal that is opened, gets a record, crashes with the segment torn, and
-- goes on.
use blox_os.Base.{
  ℕ, ◌+◌, ◌-◌, ◌≡◌, ◌≤◌, ◌<◌, refl, Bool, true, false, not, Option, none, some, List, [], ◌∷◌, All,
  length, arith,
}
use blox_os.Base.Text.{Text, codes}
use blox_os.Power.Journal.{Entry, Segment, Journal}
use blox_os.Storage.Disk.{done, Rotation, new_stream}
use blox_os.Storage.Enforce.{
  Limits, Answers, total_bytes, reconcile_segments, retained, enforce, default_limits,
}
use blox_os.Storage.Recover.{File, recover_journal}
use blox_os.Storage.Append.{Calls, Opening, append, open_journal, next_after}
use blox_os.Storage.Log.{
  System, appending, opening, Reach, here, next, first_start, after_append, after_open, IsRising,
}
use blox_os.Storage.Reading.{IsAscending}
use blox_os.Storage.Recovered.{recover_journal_sound}
use blox_os.Storage.Bounds.{IsRetained, enforce_sound}
use blox_os.Storage.Durable.{append-All}
use blox_os.Storage.Fresh.{Reach-IsRising}

abbrev entry : ℕ → Entry
entry n = record { seq = n; end_ms = 1000 }

abbrev line_size : Entry → Option ℕ
line_size e = some 40

abbrev all_well : Answers
all_well = record { removed = λ n. true; rewritten = λ n. true }

abbrev rotation : Rotation
rotation = record {
  fresh = some (codes "a1");
  state_file = done;
  stream_file = done;
  gone = λ id. true;
}

abbrev no_rotation : Rotation
no_rotation = record { fresh = none; state_file = done; stream_file = done; gone = λ id. true }

abbrev calls : Calls
calls = record {
  before = all_well;
  rotation = no_rotation;
  reservation = done;
  created = done;
  opened = true;
  written = true;
  synced = true;
  after = all_well;
}

abbrev lost_calls : Calls
lost_calls = record calls { synced = false }

-- A segment whose only record is torn.
abbrev torn_file : File
torn_file = record { first = 1; can_read = true; can_truncate = true; lines = []; tail = 12 }

abbrev mixed_file : File
mixed_file = record {
  first = 1;
  can_read = true;
  can_truncate = true;
  lines =
      record { size = 41; decoded = some (entry 1) }
      ∷ record { size = 41; decoded = some (entry 3) }
      ∷ record { size = 41; decoded = some (entry 2) }
      ∷ [];
  tail = 0;
}

abbrev opening_with : List File → Opening
opening_with fs = record {
  identity = rotation;
  exhausted = no_rotation;
  gone = λ id. true;
  files = fs;
  swept = all_well;
}

abbrev reopening_with : List File → Opening
reopening_with fs = record (opening_with fs) { identity = no_rotation }

-- The first opening, the first record, the crash, and the record after it.
abbrev opened_once : System
opened_once =
    after_open (open_journal line_size default_limits 2000 (opening_with []) first_start.disk) []

abbrev opened_journal : Journal
opened_journal = new_stream (codes "a1")

abbrev appended_once : System
appended_once =
    after_append
      (append line_size default_limits 2000 calls (entry 0) opened_journal opened_once.disk)
      opened_once.log

abbrev opened_again : System
opened_again =
    after_open
      (open_journal line_size default_limits 3000 (reopening_with (torn_file ∷ []))
        appended_once.disk)
      appended_once.log

abbrev reopened_journal : Journal
reopened_journal = record opened_journal { reserved = 65; next = 66 }

abbrev appended_again : System
appended_again =
    after_append
      (append line_size default_limits 3000 calls (entry 0) reopened_journal opened_again.disk)
      opened_again.log

-- The torn record's sequence is not used again.
skips_reserved : appended_again.log ≡ ((codes "a1", 66) ∷ (codes "a1", 1) ∷ [])
unfolding after_append append after_open
skips_reserved = refl

first_runs : opened_once.running ≡ some opened_journal
unfolding after_open open_journal blox_os.Base.drop blox_os.Base.Table.select_where
first_runs = refl

second_runs : opened_again.running ≡ some reopened_journal
unfolding after_open open_journal after_append append blox_os.Base.drop
    blox_os.Base.Table.select_where blox_os.Base.Text.text_eq
second_runs = refl

run : Reach first_start appended_again
run =
    next
      (next
        (next (next here (opening line_size default_limits 2000 (opening_with []) tt tt tt))
          (appending line_size default_limits 2000 calls (entry 0) opened_journal first_runs tt tt))
        (opening line_size default_limits 3000 (reopening_with (torn_file ∷ [])) tt tt (tt, tt)))
      (appending line_size default_limits 3000 calls (entry 0) reopened_journal second_runs tt tt)

Reach-IsRising_example : IsRising appended_again.log
Reach-IsRising_example = Reach-IsRising run

-- The line that goes back ends the file.
mixed_recovered :
    recover_journal default_limits (mixed_file ∷ [])
    ≡ some (record {
      segs = record { first = 1; last = 3; count = 2; bytes = 82 } ∷ [];
      entries = entry 1 ∷ entry 3 ∷ [];
    })
unfolding recover_journal blox_os.Base.drop blox_os.Base.Table.select_where
    blox_os.Storage.Enforce.last_seq
mixed_recovered = refl

recover_journal_sound_example :
    All (λ (e : Entry). e.end_ms ≡ 1000) (entry 1 ∷ entry 3 ∷ [])
    × IsAscending 0 (entry 1 ∷ entry 3 ∷ [])
    × All
        (λ (s : Segment). (0 < s.count) × (s.count ≤ 10))
        (record { first = 1; last = 3; count = 2; bytes = 82 } ∷ [])
    × (total_bytes (record { first = 1; last = 3; count = 2; bytes = 82 } ∷ []) ≤ 33554432)
recover_journal_sound_example =
    recover_journal_sound (λ (e : Entry). e.end_ms ≡ 1000) default_limits (mixed_file ∷ [])
      (record {
        segs = record { first = 1; last = 3; count = 2; bytes = 82 } ∷ [];
        entries = entry 1 ∷ entry 3 ∷ [];
      })
      ((refl, (refl, (refl, tt))), tt) mixed_recovered

-- A line with the largest 64-bit sequence makes the next one wrap to zero.
largest_wraps : next_after reopened_journal (entry 18446744073709551615 ∷ []) ≡ 0
unfolding next_after
largest_wraps = refl

-- Two segments of which the older does not fit in the byte limit.
abbrev small_limits : Limits
small_limits = record default_limits { max_bytes = 50 }

abbrev full_journal : Journal
full_journal = record opened_journal {
  next = 3;
  reserved = 65;
  entries = entry 1 ∷ entry 2 ∷ [];
  segs =
      record { first = 1; last = 1; count = 1; bytes = 41 }
      ∷ record { first = 2; last = 2; count = 1; bytes = 41 }
      ∷ [];
}

oldest_goes : enforce line_size all_well small_limits 2000 full_journal ≡ (
  record full_journal {
    entries = entry 2 ∷ [];
    segs = record { first = 2; last = 2; count = 1; bytes = 41 } ∷ [];
  },
  true,
)
unfolding enforce blox_os.Base.drop blox_os.Base.Table.select_where
oldest_goes = refl

enforce_sound_example :
    (let k = enforce line_size all_well small_limits 2000 full_journal in
      All (IsRetained small_limits 2000) k.0.entries
      × (length k.0.entries ≤ 2880)
      × (k.0.over_cap ≡ not k.1)
      × (k.1 ≡ true → total_bytes k.0.segs ≤ 50)
      × (total_bytes
              (reconcile_segments line_size all_well false full_journal.segs
                (retained small_limits 2000 full_journal.entries)).kept
            ≤ 50
          → k.0.entries ≡ retained small_limits 2000 full_journal.entries))
enforce_sound_example = enforce_sound line_size all_well small_limits 2000 full_journal

-- The record is not kept if the sync fails.
append-All_example :
    All
      (λ (e : Entry). e.seq < 3)
      (append line_size default_limits 2000 lost_calls
        (entry 0)
        full_journal
        first_start.disk).journal.entries
append-All_example =
    append-All line_size default_limits 2000 lost_calls (entry 0) (λ (e : Entry). e.seq < 3)
      (λ a b n. absurd (cc b)) full_journal first_start.disk (omega arith, (omega arith, tt))
