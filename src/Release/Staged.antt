-- ===== src/Release/Staged.antt =====
-- agent/release_floor.go: the staged update at the next boot.
use blox_os.Base.{ℕ, ◌≡◌, ◌⊎◌, true, false, none, some, arith, ◌==◌, not, ◌&&◌}
use blox_os.Base.Text.{lower, lower_idem, equal_fold_iff}
use blox_os.Base.Result.{ok}
use blox_os.Release.Floor.{ReleaseFloor, permits}
use blox_os.Release.File.{format_release_floor}
use blox_os.Release.Store.{present, is_writable}
use blox_os.Release.Boot.{
  Agent, current_release_floor, permitted, verify_over, verify_candidate_release, check_verified,
  check_staged_release,
}
use blox_os.Release.Ahead.{recorded}
use blox_os.Release.BootLaws.{current_inv, raise_succeeds}

permits-recorded :
    (c : ReleaseFloor) → is_writable c ≡ true → permits (recorded c) (recorded c) ≡ none
unfolding permits is_writable
permits-recorded c w = ground (arith, equal_fold_iff (lower c.sha) (lower c.sha))

verified :
    (a : Agent) (c : ReleaseFloor)
    → is_writable c ≡ true
    → current_release_floor a ≡ ok (recorded c)
    → verify_candidate_release (some c.release) c.sha a ≡ ok (recorded c)
unfolding verify_candidate_release verify_over permitted
verified a c w e = rw (e, verify_over) (rw (permits-recorded c w, permitted))

recorded-is_writable : (c : ReleaseFloor) → is_writable c ≡ true → is_writable (recorded c) ≡ true
unfolding is_writable
recorded-is_writable c w = rw lower_idem w

right_marker :
    (marker release : ℕ)
    → (marker ≡ 0) ⊎ (marker ≡ release)
    → (not (marker == 0) && not (marker == release)) ≡ false
right_marker marker release m = ground arith

-- A staged update whose floor was raised before the restart is accepted at the next boot, and the
-- floor is written again: for a writable candidate, an agent whose floor in force is the one that
-- the raise recorded, a staged file that scans as the candidate's release and hashes to its SHA, in
-- either case of letters, a marker with that release or with none, and a write that does not fail.
pub staged_accepted :
    (a : Agent) (c : ReleaseFloor) (marker : ℕ)
    → is_writable c ≡ true
    → current_release_floor a ≡ ok (recorded c)
    → (marker ≡ 0) ⊎ (marker ≡ c.release)
    → check_staged_release none (some c.release) c.sha marker a
      ≡ (record a { file = present (format_release_floor (recorded c)) }, ok tt)
unfolding check_staged_release check_verified
staged_accepted a c marker w e m =
    rw (verified a c w e, check_verified)
      (rw (right_marker marker c.release m) (
        rw (
          raise_succeeds (recorded c) (recorded c) a.file (current_inv a (recorded c) e).2
            (permits-recorded c w) (recorded-is_writable c w))))
