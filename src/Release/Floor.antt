-- ===== src/Release/Floor.antt =====
-- agent/release_floor.go: a release floor, what it permits and what it covers.
use blox_os.Base.{ℕ, Option, none, some, ltb, ◌==◌, if◌then◌else◌}
use blox_os.Base.Text.{Text, equal_fold}

-- The release sequence that was accepted last, and the build that set it.
pub record ReleaseFloor : Type 0 where
  pub release : ℕ
  pub sha : Text

-- updatesigning.MaxRelease: what a fixed-width marker can carry.
abbrev pub max_release : ℕ
max_release = 9999999999

pub data Refusal : Type 0 where
  unnumbered different_build below_floor : Refusal

-- Whether the candidate may be installed over this floor; none is no error.
unfoldable pub permits : ReleaseFloor → ReleaseFloor → Option Refusal
permits f candidate =
    if candidate.release == 0
    then some unnumbered
    else if ltb f.release candidate.release
    then none
    else if candidate.release == f.release
    then (if equal_fold candidate.sha f.sha then none else some different_build)
    else some below_floor

-- Whether the floor is consistent with the binary that runs.
unfoldable pub covers : ReleaseFloor → ReleaseFloor → Option Refusal
covers f running =
    if running.release == 0
    then some unnumbered
    else if ltb running.release f.release
    then none
    else if f.release == running.release
    then (if equal_fold f.sha running.sha then none else some different_build)
    else some below_floor
