-- ===== src/Release/Boot.antt =====
-- agent/release_floor.go: the state established at boot, and the checks of the update path.
-- The path of the floor is fixed; the agent's own path, the hash of its binary and the release
-- sequences read out of binaries come from the system, as arguments that may be missing.
use blox_os.Base.{ℕ, Bool, true, false, ◌&&◌, Option, none, some, [], ◌==◌, not, if◌then◌else◌}
use blox_os.Base.Text.{Text, lower, trim_space}
use blox_os.Base.Result.{Result, ok, err}
use blox_os.Release.Floor.{ReleaseFloor, Refusal, permits, covers}
use blox_os.Release.Store.{
  File, Fault, Error, refused, uncovered, not_booted, no_own_path, no_own_hash,
  own_marker_unreadable, mis_stamped, disabled_since_boot, unusable, no_candidate_release,
  marker_mismatch, read_release_floor, seed_release_floor, raise_release_floor,
}

-- releaseFloorState, with the file that it lives beside.
pub record Agent : Type 0 where
  pub booted : Bool
  pub self : ReleaseFloor
  pub boot_err : Option Error
  pub file : File

unfoldable pub booted_with : ReleaseFloor → File × Result Error ReleaseFloor → Agent
booted_with self (file, ok floor) = record {
  booted = true;
  self = self;
  boot_err = none;
  file = file;
}
booted_with self (file, err e) = record {
  booted = true;
  self = self;
  boot_err = some e;
  file = file;
}

-- initReleaseFloorState.
unfoldable pub init_release_floor_state : Option Fault → ReleaseFloor → Option Error → File → Agent
unfolding booted_with
init_release_floor_state fault self (some e) file = record {
  booted = true;
  self = self;
  boot_err = some e;
  file = file;
}
init_release_floor_state fault self none file =
    booted_with self (seed_release_floor fault self file)

abbrev pub nobody : ReleaseFloor
nobody = record { release = 0; sha = [] }

-- seedReleaseFloorAtBoot after the hash: the scanner must read back what the constant says.
unfoldable pub boot_scanned : Option Fault → ReleaseFloor → Option ℕ → File → Agent
unfolding init_release_floor_state
boot_scanned fault self none file =
    init_release_floor_state fault self (some own_marker_unreadable) file
boot_scanned fault self (some scanned) file =
    if not (scanned == self.release)
    then init_release_floor_state fault self (some mis_stamped) file
    else init_release_floor_state fault self none file

unfoldable pub boot_hashed : Option Fault → ℕ → Option Text → Option ℕ → File → Agent
unfolding boot_scanned
boot_hashed fault embedded none scan file =
    init_release_floor_state fault (record nobody { release = embedded }) (some no_own_hash) file
boot_hashed fault embedded (some sha) scan file =
    boot_scanned fault (record { release = embedded; sha = sha }) scan file

unfoldable pub seed_at_boot : Option Fault → Bool → ℕ → Option Text → Option ℕ → File → Agent
unfolding boot_hashed
seed_at_boot fault false embedded hash scan file =
    init_release_floor_state fault nobody (some no_own_path) file
seed_at_boot fault true embedded hash scan file = boot_hashed fault embedded hash scan file

unfoldable pub covering : ReleaseFloor → Option Refusal → Result Error ReleaseFloor
covering floor none = ok floor
covering floor (some why) = err (uncovered why)

unfoldable pub still_covering : ReleaseFloor → Result Error ReleaseFloor → Result Error ReleaseFloor
unfolding covering
still_covering self (err e) = err (unusable e)
still_covering self (ok floor) = covering floor (covers floor self)

unfoldable pub current_enabled : Agent → Option Error → Result Error ReleaseFloor
unfolding still_covering
current_enabled a (some e) = err (disabled_since_boot e)
current_enabled a none = still_covering a.self (read_release_floor a.file)

unfoldable pub current_release_floor : Agent → Result Error ReleaseFloor
unfolding current_enabled
current_release_floor a = if a.booted then current_enabled a a.boot_err else err not_booted

unfoldable pub status_of : Result Error ReleaseFloor → ReleaseFloor × Bool
status_of (ok floor) = (floor, true)
status_of (err e) = (nobody, false)

unfoldable pub release_floor_status : Agent → ReleaseFloor × Bool
unfolding status_of
release_floor_status a = status_of (current_release_floor a)

unfoldable pub permitted : ReleaseFloor → Option Refusal → Result Error ReleaseFloor
permitted candidate none = ok candidate
permitted candidate (some why) = err (refused why)

unfoldable pub verify_over : Option ℕ → Text → Result Error ReleaseFloor → Result Error ReleaseFloor
unfolding permitted
verify_over scan sha (err e) = err e
verify_over none sha (ok floor) = err no_candidate_release
verify_over (some seq) sha (ok floor) =
    let candidate : ReleaseFloor = record { release = seq; sha = lower sha } in
    permitted candidate (permits floor candidate)

-- verifyCandidateRelease; `scan` is what ExtractRelease reads out of the candidate.
unfoldable pub verify_candidate_release : Option ℕ → Text → Agent → Result Error ReleaseFloor
unfolding verify_over
verify_candidate_release scan sha a = verify_over scan sha (current_release_floor a)

abbrev pub with_file : Agent → File × Result Error (Unit {0}) → Agent × Result Error (Unit {0})
with_file a (file, r) = (record a { file = file }, r)

unfoldable pub check_verified :
    Option Fault → ℕ → Result Error ReleaseFloor → Agent → Agent × Result Error (Unit {0})
check_verified fault marker (err e) a = (a, err e)
check_verified fault marker (ok candidate) a =
    if not (marker == 0) && not (marker == candidate.release)
    then (a, err marker_mismatch)
    else with_file a (raise_release_floor fault candidate a.file)

-- checkStagedRelease.
unfoldable pub check_staged_release :
    Option Fault → Option ℕ → Text → ℕ → Agent → Agent × Result Error (Unit {0})
unfolding check_verified
check_staged_release fault scan sha marker a =
    check_verified fault marker (verify_candidate_release scan sha a) a

-- checkAdvisoryRelease: a hint of the hub can only refuse.
unfoldable pub check_advisory_release : ReleaseFloor → ℕ → Text → Option Refusal
check_advisory_release floor advisory sha =
    if advisory == 0
    then none
    else permits floor (record { release = advisory; sha = lower (trim_space sha) })
