-- ===== src/Storage/Log.antt =====
-- agent/power_journal.go: the journal with a log of the sequences that were given to durable records,
-- newest first, through appends, acknowledgements, enforcements, crashes and openings in any order.
use blox_os.Base.{
  ℕ, ◌≡◌, ◌≢◌, ◌≤◌, ◌<◌, Bool, ◌&&◌, not, Option, none, some, List, [], ◌∷◌, leb, if◌then◌else◌,
  All,
}
use blox_os.Base.Text.{Text, text_eq}
use blox_os.Power.Journal.{Entry, Journal, ack}
use blox_os.Storage.Disk.{Outcome, Disk, is_done, put_state}
use blox_os.Storage.Enforce.{Limits, Answers, enforce}
use blox_os.Storage.Recover.{File}
use blox_os.Storage.Reading.{AllLines}
use blox_os.Storage.Append.{Appended, Calls, Opening, append, open_journal}

abbrev pub Log : Type 0
Log = List (Text × ℕ)

-- The journal of the running agent, if it is open, its state files, and the log.
pub record System : Type 0 where
  pub running : Option Journal
  pub disk : Disk
  pub log : Log

abbrev pub logged : Text → Option ℕ → Log → Log
logged stream none log = log
logged stream (some n) log = (stream, n) ∷ log

unfoldable pub after_append : Appended → Log → System
after_append a log = record {
  running = some a.journal;
  disk = a.disk;
  log = logged a.journal.stream a.assigned log;
}

-- ack writes the state file unless it returns before.
abbrev pub ack_writes : Text → ℕ → Journal → Bool
ack_writes stream through j =
    text_eq stream j.stream && not (leb j.next through) && not (leb through j.cursor)

unfoldable pub after_ack : Outcome → Text → ℕ → Journal → Disk → Log → System
unfolding ack put_state
after_ack o stream through j d log = record {
  running = some (ack (is_done o) stream through j).0;
  disk =
      if ack_writes stream through j
      then put_state o j.stream (record { acked = through; reserved = j.reserved }) d
      else d;
  log = log;
}

unfoldable pub after_open : Option Journal × Disk → Log → System
after_open (j, d) log = record { running = j; disk = d; log = log }

-- A random id that no sequence was given out under.
abbrev pub IsUnused : Log → Option Text → Type 0
IsUnused log none = Unit
IsUnused log (some id) = All (λ p. p.0 ≢ id) log

-- The random id is not the stream's.
abbrev pub IsOther : Text → Option Text → Type 0
IsOther stream none = Unit
IsOther stream (some id) = stream ≢ id

abbrev pub max_sequence : ℕ
max_sequence = 18446744073709551614

-- No line of the file decodes to the largest 64-bit sequence.
abbrev pub HasSmall : File → Type 0
HasSmall = AllLines (λ e. e.seq ≤ max_sequence)

-- A crash is an opening: what the running agent held is lost. The segment files may hold anything.
pub data Step (s : System) : System → Type 0 where
  appending :
      (size : Entry → Option ℕ) (l : Limits) (now : ℕ) (w : Calls) (e : Entry) (j : Journal)
      → s.running ≡ some j
      → IsUnused s.log w.rotation.fresh
      → IsOther j.stream w.rotation.fresh
      → Step s (after_append (append size l now w e j s.disk) s.log)
  acking :
      (o : Outcome) (stream : Text) (through : ℕ) (j : Journal)
      → s.running ≡ some j
      → Step s (after_ack o stream through j s.disk s.log)
  enforcing :
      (size : Entry → Option ℕ) (w : Answers) (l : Limits) (now : ℕ) (j : Journal)
      → s.running ≡ some j
      → Step s (record s { running = some (enforce size w l now j).0 })
  opening :
      (size : Entry → Option ℕ) (l : Limits) (now : ℕ) (w : Opening)
      → IsUnused s.log w.identity.fresh
      → IsUnused s.log w.exhausted.fresh
      → All HasSmall w.files
      → Step s (after_open (open_journal size l now w s.disk) s.log)

pub data Reach (s : System) : System → Type 0 where
  here : Reach s s
  next : {t u : System} → Reach s t → Step t u → Reach s u

-- An empty directory.
abbrev pub first_start : System
first_start = record {
  running = none;
  disk = record { identity = none; states = λ id. none };
  log = [];
}

-- Under each stream, every sequence is larger than all that were given out before.
abbrev pub IsRising : Log → Type 0
IsRising [] = Unit
IsRising (p ∷ ps) = All (λ q. q.0 ≡ p.0 → q.1 < p.1) ps × IsRising ps
