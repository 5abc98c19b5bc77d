-- ===== src/Release/Tests.antt =====
-- agent/release_floor.go, hub/release_policy.go: floors, candidates and reports on concrete values.
use blox_os.Base.{ℕ, Option, ◌≡◌, ◌≢◌, ◌↔◌, inl, refl, true, none, some, arith}
use blox_os.Base.Text.{Text, codes, text_eq, lower, to_lower, equal_fold}
use blox_os.Base.Result.{ok, err}
use blox_os.Release.Floor.{ReleaseFloor, different_build, permits, covers}
use blox_os.Release.File.{is_hex_sha256, parse_release_floor, format_release_floor}
use blox_os.Release.RoundTrip.{parse-format}
use blox_os.Release.Store.{
  File, absent, present, Fault, rename, fsync_directory, Error, unnumbered_self, uncovered, refused,
  no_floor, disabled_since_boot, read_release_floor, is_writable, raise_release_floor,
  seed_release_floor,
}
use blox_os.Release.Boot.{
  Agent, nobody, init_release_floor_state, seed_at_boot, current_release_floor,
  verify_candidate_release, check_staged_release,
}
use blox_os.Release.Policy.{AgentBinaryState, release_announce_blocked}
use blox_os.Release.Ahead.{
  Ahead, recorded, read-written, here, next, raising, ReadsAhead, floor_never_falls,
}
use blox_os.Release.BootLaws.{boot-current, verify-not-older}
use blox_os.Release.Staged.{staged_accepted}
use blox_os.Release.Enabling.{enabled_iff}
use blox_os.Release.Agreement.{report_of, announce-iff-verify}

abbrev sha_a : Text
sha_a = codes "aaaaaaaaaaaaaaaaaaaaaaaaaaaaaaaaaaaaaaaaaaaaaaaaaaaaaaaaaaaaaaaa"

abbrev sha_b : Text
sha_b = codes "bbbbbbbbbbbbbbbbbbbbbbbbbbbbbbbbbbbbbbbbbbbbbbbbbbbbbbbbbbbbbbbb"

abbrev seven : ReleaseFloor
seven = record { release = 7; sha = sha_a }

abbrev eight : ReleaseFloor
eight = record { release = 8; sha = sha_b }

sha_a-hex : is_hex_sha256 (lower sha_a) ≡ true
unfolding is_hex_sha256 lower to_lower
sha_a-hex = refl

seven-is_writable : is_writable seven ≡ true
unfolding is_writable is_hex_sha256 lower to_lower
seven-is_writable = refl

eight-is_writable : is_writable eight ≡ true
unfolding is_writable is_hex_sha256 lower to_lower
eight-is_writable = refl

sha_a-lower : lower sha_a ≡ sha_a
unfolding lower to_lower
sha_a-lower = refl

sha_b-lower : lower sha_b ≡ sha_b
unfolding lower to_lower
sha_b-lower = refl

abbrev stored : File
stored = present (format_release_floor seven)

stored-read : read_release_floor stored ≡ ok seven
stored-read = rw (read-written seven seven-is_writable, sha_a-lower)

permits-eight : permits seven eight ≡ none
unfolding permits
permits-eight = refl

covers-seven : covers seven seven ≡ none
unfolding covers equal_fold text_eq lower to_lower
covers-seven = refl

-- The same release with other bytes is refused.
conflict : permits seven (record { release = 7; sha = sha_b }) ≡ some different_build
unfolding permits equal_fold text_eq lower to_lower
conflict = refl

parse-format_example : parse_release_floor (format_release_floor seven) ≡ ok (recorded seven)
parse-format_example = parse-format seven (omega arith) (omega arith) sha_a-hex

abbrev raised : File
raised = (raise_release_floor (some fsync_directory) eight stored).0

floor_never_falls_example : ReadsAhead seven raised
floor_never_falls_example =
    floor_never_falls seven stored-read (next here (raising (some fsync_directory) eight))

abbrev running : Agent
running = record { booted = true; self = seven; boot_err = none; file = stored }

abbrev refused_boot : Agent
refused_boot = record {
  booted = true;
  self = nobody;
  boot_err = some unnumbered_self;
  file = stored;
}

seven-current : current_release_floor running ≡ ok seven
unfolding current_release_floor
seven-current = rw (stored-read, covers-seven)

boot-clean : (init_release_floor_state none eight none absent).boot_err ≡ none
unfolding init_release_floor_state blox_os.Release.Store.seed_release_floor is_hex_sha256 lower
    to_lower
boot-clean = refl

boot-current_example :
    (f : ReleaseFloor) × (current_release_floor (init_release_floor_state none eight none absent)
      ≡ ok f)
    × (covers f eight ≡ none)
boot-current_example = boot-current none eight absent boot-clean

verified_eight : verify_candidate_release (some 8) sha_b running ≡ ok eight
unfolding verify_candidate_release permits lower to_lower
verified_eight = rw (seven-current)

verify-not-older_example :
    Ahead seven eight
    × (some 8 ≡ some eight.release)
    × (eight.release ≢ 0)
    × (running.boot_err ≡ none)
verify-not-older_example = verify-not-older (some 8) sha_b running eight verified_eight

seven-recorded : current_release_floor running ≡ ok (recorded seven)
seven-recorded = rw (sha_a-lower) seven-current

staged_accepted_example :
    check_staged_release none (some 7) sha_a 0 running
    ≡ (record running { file = present (format_release_floor (recorded seven)) }, ok tt)
staged_accepted_example =
    staged_accepted running seven 0 seven-is_writable seven-recorded (inl refl)

abbrev later_file : File
later_file = present (format_release_floor eight)

later-read : read_release_floor later_file ≡ ok eight
later-read = rw (read-written eight eight-is_writable, sha_b-lower)

covers-eight : covers eight eight ≡ none
unfolding covers equal_fold text_eq lower to_lower
covers-eight = refl

eight-seeds : (seed_release_floor none eight absent).1 ≡ ok (recorded eight)
unfolding seed_release_floor is_hex_sha256 lower to_lower
eight-seeds = refl

enabled_iff_example :
    (current_release_floor
        (record (seed_at_boot none true 8 (some sha_b) (some 8) absent) { file = later_file })
      ≡ ok eight)
    ↔ ((true ≡ true)
        × (sha : Text) × (some sha_b ≡ some sha)
        × (◌≡◌ {A = Option ℕ} (some 8) (some 8))
        × (g : ReleaseFloor) × ((seed_release_floor none
              (record { release = 8; sha = sha })
              absent).1
            ≡ ok g)
        × (read_release_floor later_file ≡ ok eight)
        × (covers eight (record { release = 8; sha = sha }) ≡ none))
enabled_iff_example = enabled_iff none true 8 (some sha_b) (some 8) absent later_file eight

-- The floor is in force at that point.
eight-enabled :
    current_release_floor
      (record (seed_at_boot none true 8 (some sha_b) (some 8) absent) { file = later_file })
    ≡ ok eight
eight-enabled =
    (enabled_iff none true 8 (some sha_b) (some 8) absent later_file eight).1
      (refl, sha_b, refl, refl, recorded eight, eight-seeds, later-read, covers-eight)

abbrev served : AgentBinaryState
served = record { release = 8; sha = sha_b }

announce-iff-verify_example :
    (release_announce_blocked (some (report_of running)) served sha_b ≡ none) ↔ (
      verify_candidate_release (some 8) sha_b running
      ≡ ok (record { release = 8; sha = lower sha_b }))
announce-iff-verify_example = announce-iff-verify running seven served seven-current

refused-current : current_release_floor refused_boot ≡ err (disabled_since_boot unnumbered_self)
unfolding current_release_floor
refused-current = refl
