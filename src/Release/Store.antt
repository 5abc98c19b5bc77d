-- ===== src/Release/Store.antt =====
-- agent/release_floor.go: the floor file on disk, read, replaced, seeded and raised.
use blox_os.Base.{Bool, ◌||◌, Option, none, some, ltb, ◌==◌, not, if◌then◌else◌}
use blox_os.Base.Text.{Text, lower}
use blox_os.Base.Result.{Result, ok, err}
use blox_os.Release.Floor.{ReleaseFloor, max_release, Refusal, permits, covers}
use blox_os.Release.File.{FileError, is_hex_sha256, parse_release_floor, format_release_floor}

-- What os.ReadFile finds at the floor's path.
pub data File : Type 0 where
  absent : File
  unreadable : File
  present : Text → File

-- Where replacing the file may fail. After `fsync_directory` the new text is visible under the
-- path, with no proof that it survives a crash.
pub data Fault : Type 0 where
  make_directory create_temporary write_temporary sync_temporary close_temporary : Fault
  change_mode rename fsync_directory : Fault

pub data Error : Type 0 where
  no_floor read_failed invalid_floor unnumbered_self : Error
  corrupt : FileError → Error
  refused : Refusal → Error
  uncovered : Refusal → Error
  write_failed : Fault → Error
  not_booted no_own_path no_own_hash own_marker_unreadable mis_stamped : Error
  disabled_since_boot : Error → Error
  unusable : Error → Error
  no_candidate_release marker_mismatch : Error

abbrev pub corrupted : Result FileError ReleaseFloor → Result Error ReleaseFloor
corrupted (ok f) = ok f
corrupted (err e) = err (corrupt e)

unfoldable pub read_release_floor : File → Result Error ReleaseFloor
read_release_floor absent = err no_floor
read_release_floor unreadable = err read_failed
read_release_floor (present body) = corrupted (parse_release_floor body)

-- Which faults leave the new text in place.
unfoldable pub replace : Option Fault → Text → File → File × Result Error (Unit {0})
replace none body file = (present body, ok tt)
replace (some fsync_directory) body file = (present body, err (write_failed fsync_directory))
replace (some fault) body file = (file, err (write_failed fault))

unfoldable pub is_writable : ReleaseFloor → Bool
is_writable f =
    not (f.release == 0 || ltb max_release f.release || not (is_hex_sha256 (lower f.sha)))

unfoldable pub write_release_floor :
    Option Fault → ReleaseFloor → File → File × Result Error (Unit {0})
unfolding replace is_writable
write_release_floor fault f file =
    if is_writable f then replace fault (format_release_floor f) file else (file, err invalid_floor)

unfoldable pub seeded :
    ReleaseFloor → File × Result Error (Unit {0}) → File × Result Error ReleaseFloor
seeded self (file, ok _) = (file, ok self)
seeded self (file, err e) = (file, err e)

-- The stored floor against the running binary: kept, refused, or raised.
unfoldable pub reconcile :
    Option Fault
    → ReleaseFloor
    → ReleaseFloor
    → Option Refusal
    → File
    → File × Result Error ReleaseFloor
unfolding write_release_floor seeded
reconcile fault self stored none file = (file, ok stored)
reconcile fault self stored (some why) file =
    if stored.release == self.release
    then (file, err (uncovered why))
    else seeded self (write_release_floor fault self file)

unfoldable pub seed_stored :
    Option Fault
    → ReleaseFloor
    → Result Error ReleaseFloor
    → File
    → File × Result Error ReleaseFloor
unfolding reconcile
seed_stored fault self (ok stored) file = reconcile fault self stored (covers stored self) file
seed_stored fault self (err no_floor) file = seeded self (write_release_floor fault self file)
seed_stored fault self (err e) file = (file, err e)

unfoldable pub seed_release_floor :
    Option Fault → ReleaseFloor → File → File × Result Error ReleaseFloor
unfolding seed_stored read_release_floor
seed_release_floor fault self file =
    if self.release == 0
    then (file, err unnumbered_self)
    else seed_stored fault self (read_release_floor file) file

unfoldable pub raise_permitted :
    Option Fault → ReleaseFloor → Option Refusal → File → File × Result Error (Unit {0})
unfolding write_release_floor
raise_permitted fault candidate none file = write_release_floor fault candidate file
raise_permitted fault candidate (some why) file = (file, err (refused why))

unfoldable pub raise_stored :
    Option Fault → ReleaseFloor → Result Error ReleaseFloor → File → File × Result Error (Unit {0})
unfolding raise_permitted
raise_stored fault candidate (ok stored) file =
    raise_permitted fault candidate (permits stored candidate) file
raise_stored fault candidate (err e) file = (file, err e)

unfoldable pub raise_release_floor :
    Option Fault → ReleaseFloor → File → File × Result Error (Unit {0})
unfolding raise_stored read_release_floor
raise_release_floor fault candidate file =
    raise_stored fault candidate (read_release_floor file) file
