-- ===== src/Storage/Disk.antt =====
-- agent/power_journal.go: the identity and the state files, and the rotation to a new stream. Each
-- write of a file has an outcome: after an error the new contents may be there or not.
use blox_os.Base.{ℕ, Bool, true, false, Option, none, some, if◌then◌else◌, [], ◌&&◌, not}
use blox_os.Base.Text.{Text, text_eq}
use blox_os.Power.Journal.{Journal}

-- What writePowerFileAtomic did: `unsure` is an error with the file replaced all the same.
pub data Outcome : Type 0 where
  done failed unsure : Outcome

-- powerState.
pub record Saved : Type 0 where
  pub acked : ℕ
  pub reserved : ℕ

-- stream.json, where it is there and holds a valid id, and the readable state files by stream.
pub record Disk : Type 0 where
  pub identity : Option Text
  pub states : Text → Option Saved

abbrev pub is_done : Outcome → Bool
is_done done = true
is_done failed = false
is_done unsure = false

abbrev pub is_replaced : Outcome → Bool
is_replaced done = true
is_replaced failed = false
is_replaced unsure = true

unfoldable pub put_state : Outcome → Text → Saved → Disk → Disk
put_state o id v d = record d {
  states = λ k. if is_replaced o && text_eq k id then some v else d.states k;
}

unfoldable pub put_identity : Outcome → Text → Disk → Disk
put_identity o id d = record d { identity = if is_replaced o then some id else d.identity }

-- removeOrphans on the state files; `gone` says which removals succeed.
unfoldable pub remove_orphans : (Text → Bool) → Text → Disk → Disk
remove_orphans gone id d = record d {
  states = λ k. if not (text_eq k id) && gone k then none else d.states k;
}

-- writeState.
unfoldable pub write_state : Outcome → ℕ → ℕ → Journal → Disk → Journal × Disk × Bool
unfolding put_state
write_state o acked reserved j d = (
  if is_done o then record j { cursor = acked; reserved = reserved } else j,
  put_state o j.stream (record { acked = acked; reserved = reserved }) d,
  is_done o,
)

-- What the system answers to a rotation: the random id, if there is one, and the two writes.
pub record Rotation : Type 0 where
  pub fresh : Option Text
  pub state_file : Outcome
  pub stream_file : Outcome
  pub gone : Text → Bool

abbrev pub new_stream : Text → Journal
new_stream id = record {
  stream = id;
  cursor = 0;
  reserved = 0;
  next = 1;
  entries = [];
  segs = [];
  is_open = false;
  over_cap = false;
}

abbrev pub nothing_saved : Saved
nothing_saved = record { acked = 0; reserved = 0 }

-- rotateStream, once the id is drawn.
unfoldable pub rotate_to : Rotation → Text → Journal → Disk → Journal × Disk × Bool
unfolding put_state put_identity remove_orphans
rotate_to r id j d =
    let written = put_state r.state_file id nothing_saved d in
    let committed = put_identity r.stream_file id written in
    if not (is_done r.state_file)
    then (record j { is_open = false }, written, false)
    else if not (is_done r.stream_file)
    then (record j { is_open = false }, committed, false)
    else (new_stream id, remove_orphans r.gone id committed, true)

abbrev pub rotate_fresh : Rotation → Option Text → Journal → Disk → Journal × Disk × Bool
rotate_fresh r none j d = (j, d, false)
rotate_fresh r (some id) j d = rotate_to r id j d

-- rotateStream.
unfoldable pub rotate_stream : Rotation → Journal → Disk → Journal × Disk × Bool
unfolding rotate_to
rotate_stream r j d = rotate_fresh r r.fresh j d

abbrev pub loaded_as : Text → Saved → Journal
loaded_as id s = record (new_stream id) { cursor = s.acked; reserved = s.reserved }

abbrev pub load_state : Rotation → Text → Option Saved → Disk → Journal × Disk × Bool
load_state r id none d = rotate_stream r (new_stream id) d
load_state r id (some s) d = (loaded_as id s, d, true)

abbrev pub load_stream : Rotation → Option Text → Disk → Journal × Disk × Bool
load_stream r none d = rotate_stream r (new_stream []) d
load_stream r (some id) d = load_state r id (d.states id) d

-- loadIdentity, into a journal that has nothing else yet.
unfoldable pub load_identity : Rotation → Disk → Journal × Disk × Bool
unfolding rotate_stream
load_identity r d = load_stream r d.identity d
