-- ===== src/Release/Policy.antt =====
-- hub/release_policy.go: what the hub withholds from an agent that enforces a floor.
use blox_os.Base.{ℕ, Bool, ◌&&◌, ◌||◌, Option, none, some, ltb, ◌==◌, not, if◌then◌else◌, length}
use blox_os.Base.Text.{Text, lower, text_eq, equal_fold}
use blox_os.Release.File.{all_hex}

-- The fields of agentVersionInfo that the policy reads.
pub record AgentVersionInfo : Type 0 where
  pub update_protocol : ℕ
  pub release : ℕ
  pub release_floor : ℕ
  pub release_floor_sha : Text
  pub release_floor_ok : Bool

-- The fields of agentBinaryState that it reads.
pub record AgentBinaryState : Type 0 where
  pub release : ℕ
  pub sha : Text

pub data Blocked : Type 0 where
  floor_unreadable release_changed release_missing release_below_floor release_conflict : Blocked

-- hex.DecodeString succeeds, with 32 bytes.
unfoldable pub decodes_to_sha256 : Text → Bool
decodes_to_sha256 s = length s == 64 && all_hex (lower s)

unfoldable pub is_reported : AgentVersionInfo → Bool
unfolding decodes_to_sha256
is_reported report = not (
    not report.release_floor_ok
    || report.release_floor == 0
    || report.release == 0
    || ltb report.release_floor report.release
    || not (decodes_to_sha256 report.release_floor_sha))

unfoldable pub blocked_by_floor : AgentVersionInfo → AgentBinaryState → Text → Option Blocked
blocked_by_floor report state sha =
    if not (text_eq state.sha sha)
    then some release_changed
    else if state.release == 0
    then some release_missing
    else if ltb state.release report.release_floor
    then some release_below_floor
    else if state.release == report.release_floor && not (equal_fold sha report.release_floor_sha)
    then some release_conflict
    else none

-- The reason not to announce; none is the empty text.
unfoldable pub release_announce_blocked :
    Option AgentVersionInfo → AgentBinaryState → Text → Option Blocked
unfolding is_reported blocked_by_floor
release_announce_blocked none state sha = none
release_announce_blocked (some report) state sha =
    if ltb report.update_protocol 2
    then none
    else if not (is_reported report)
    then some floor_unreadable
    else blocked_by_floor report state sha
