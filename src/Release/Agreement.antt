-- ===== src/Release/Agreement.antt =====
-- hub/release_policy.go against agent/release_floor.go: the hub's view of a floor agrees with the
-- agent that enforces it.
use blox_os.Base.{◌≡◌, ◌≢◌, ◌↔◌, Bool, true, false, none, some, arith}
use blox_os.Base.Text.{Text, lower, lower_idem, equal_fold_iff, text_eq_refl}
use blox_os.Base.Result.{ok, err}
use blox_os.Release.Floor.{ReleaseFloor, permits}
use blox_os.Release.File.{is_hex_sha256}
use blox_os.Release.Store.{Error, is_writable}
use blox_os.Release.Boot.{
  Agent, nobody, current_release_floor, status_of, release_floor_status, permitted, verify_over,
  verify_candidate_release,
}
use blox_os.Release.Policy.{
  AgentVersionInfo, AgentBinaryState, is_reported, blocked_by_floor, release_announce_blocked,
}
use blox_os.Release.Ahead.{Ahead, covers-none}
use blox_os.Release.BootLaws.{current_inv}
use blox_os.Release.Valid.{read-is_writable}

-- What a protocol-2 agent reports of itself: its own release, and releaseFloorStatus.
abbrev pub report_for : ReleaseFloor → ReleaseFloor × Bool → AgentVersionInfo
report_for self (floor, usable) = record {
  update_protocol = 2;
  release = self.release;
  release_floor = floor.release;
  release_floor_sha = floor.sha;
  release_floor_ok = usable;
}

unfoldable pub report_of : Agent → AgentVersionInfo
report_of a = report_for a.self (release_floor_status a)

blocked_iff :
    (report : AgentVersionInfo) (state : AgentBinaryState)
    → (blocked_by_floor report state state.sha ≡ none) ↔ (
        permits
          (record { release = report.release_floor; sha = report.release_floor_sha })
          (record { release = state.release; sha = lower state.sha })
        ≡ none)
unfolding blocked_by_floor permits
blocked_iff report state = ground (
  arith,
  text_eq_refl state.sha,
  lower_idem state.sha,
  equal_fold_iff state.sha report.release_floor_sha,
  equal_fold_iff (lower state.sha) report.release_floor_sha,
)

report_of_floor :
    (a : Agent) (f : ReleaseFloor)
    → current_release_floor a ≡ ok f
    → report_of a ≡ report_for a.self (f, true)
unfolding report_of release_floor_status status_of
report_of_floor a f e = rw e

valid_report :
    (self f : ReleaseFloor)
    → is_writable f ≡ true
    → lower f.sha ≡ f.sha
    → Ahead self f
    → self.release ≢ 0
    → is_reported (report_for self (f, true)) ≡ true
unfolding is_reported is_writable is_hex_sha256
valid_report self f w low ahead numbered = ground arith

announced :
    (self f : ReleaseFloor) (state : AgentBinaryState)
    → is_reported (report_for self (f, true)) ≡ true
    → release_announce_blocked (some (report_for self (f, true))) state state.sha
      ≡ blocked_by_floor (report_for self (f, true)) state state.sha
unfolding release_announce_blocked
announced self f state valid = rw valid

verified_iff :
    (a : Agent) (f : ReleaseFloor) (state : AgentBinaryState)
    → current_release_floor a ≡ ok f
    → (verify_candidate_release (some state.release) state.sha a
        ≡ ok (record { release = state.release; sha = lower state.sha }))
      ↔ (permits f (record { release = state.release; sha = lower state.sha }) ≡ none)
unfolding verify_candidate_release verify_over permitted
verified_iff a f state e = (λ h. ground arith, λ h. ground arith)

-- While a floor is in force on an agent, the hub's release policy (releaseAnnounceBlocked, one of the gates
-- before an announcement) has nothing against the binary that the hub serves, for that agent's report,
-- exactly when the agent, having read the same release out of the same bytes, would verify it.
pub announce-iff-verify :
    (a : Agent) (f : ReleaseFloor) (state : AgentBinaryState)
    → current_release_floor a ≡ ok f
    → (release_announce_blocked (some (report_of a)) state state.sha ≡ none) ↔ (
        verify_candidate_release (some state.release) state.sha a
        ≡ ok (record { release = state.release; sha = lower state.sha }))
announce-iff-verify a f state e =
    let (_, _, stored, covered) = current_inv a f e in
    let (writable, low) = read-is_writable a.file f stored in
    let (ahead, numbered) = covers-none f a.self covered in
    let same = announced a.self f state (valid_report a.self f writable low ahead numbered) in
    let agent = verified_iff a f state e in
    let hub = blocked_iff (report_for a.self (f, true)) state in
    rw (report_of_floor a f e, same) (λ h. agent.1 (hub.0 h), λ h. hub.1 (agent.0 h))

not_reported :
    (self floor : ReleaseFloor) (state : AgentBinaryState) (sha : Text)
    → release_announce_blocked (some (report_for self (floor, false))) state sha ≢ none
unfolding release_announce_blocked is_reported
not_reported self floor state sha h = cc

-- While no floor is in force, whatever the reason, the hub's release policy blocks every announcement to
-- that agent's report.
pub unusable-withheld :
    (a : Agent) (e : Error) (state : AgentBinaryState) (sha : Text)
    → current_release_floor a ≡ err e
    → release_announce_blocked (some (report_of a)) state sha ≢ none
unusable-withheld a e state sha h = rw (no_report a h) (not_reported a.self nobody state sha)
  where
    no_report :
        (a : Agent)
        → current_release_floor a ≡ err e
        → report_of a ≡ report_for a.self (nobody, false)
    no_report a h = unfold report_of release_floor_status status_of in rw h
