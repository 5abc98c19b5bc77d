-- ===== src/Rollout/Completing.antt =====
-- hub/agent_rollout.go: a healthy machine's dwell is proven.
use blox_os.Base.{ℕ, ◌-◌, ◌≤◌, ◌≡◌, true, some, List, [], ◌∷◌, arith}
use blox_os.Base.Text.{Text, lower, lower_idem, equal_fold, equal_fold_iff}
use blox_os.Rollout.Tables.{dwell_ms, telemetry_gap_ms}
use blox_os.Rollout.Evidence.{
  Proof, note_report, is_stale, next_start, note_metrics, judge_times, judge_proof, proven,
}
use blox_os.Rollout.Dwell.{Event, report, metrics, note_event, after, is_about}

-- A first report of the candidate on a new connection, and then metrics frames from `start` to
-- `last` with no silence beyond the gap, and any repeated reports of the candidate between them.
pub data Streak (g : ℕ) (candidate : Text) : List Event → ℕ → ℕ → Type 0 where
  begin :
      (running : Text) (now : ℕ)
      → equal_fold running candidate ≡ true
      → Streak g candidate (metrics now ∷ report g running candidate ∷ []) now now
  carry_on :
      (now : ℕ) {es : List Event} {start last : ℕ}
      → Streak g candidate es start last
      → now - last ≤ telemetry_gap_ms
      → Streak g candidate (metrics now ∷ es) start now
  repeated :
      (running : Text) {es : List Event} {start last : ℕ}
      → equal_fold running candidate ≡ true
      → Streak g candidate es start last
      → Streak g candidate (report g running candidate ∷ es) start last

record Accrued (g : ℕ) (candidate : Text) (start last : ℕ) (ev : Proof) : Type 0 where
  about : is_about g candidate ev ≡ true
  saw : ev.saw_candidate ≡ true
  from : ev.dwell_start ≡ some start
  to : ev.last_metrics ≡ some last

Streak-Accrued :
    {g : ℕ} {candidate : Text} {es : List Event} {start last : ℕ}
    → Streak g candidate es start last
    → Accrued g candidate start last (after es)
unfolding after note_event note_metrics next_start is_stale is_about
Streak-Accrued {g} {candidate} (begin running now same) =
    unfold note_report in
    ground (
      arith,
      equal_fold_iff [] candidate,
      equal_fold_iff (lower candidate) candidate,
      lower_idem candidate,
    )
Streak-Accrued (carry_on now s h) = carried (Streak-Accrued s) h
  where
    carried :
        {g : ℕ} {candidate : Text} {start last : ℕ} {ev : Proof}
        → Accrued g candidate start last ev
        → now - last ≤ telemetry_gap_ms
        → Accrued g candidate start now (note_metrics now ev)
    carried a h = ground arith
Streak-Accrued {g} {candidate} (repeated running same s) = reported (Streak-Accrued s) same
  where
    reported :
        {start last : ℕ} {ev : Proof}
        → Accrued g candidate start last ev
        → equal_fold running candidate ≡ true
        → Accrued g candidate start last (note_report g running candidate ev)
    reported a e = unfold note_report in ground arith

judged-Accrued :
    (now g : ℕ) (candidate : Text) (start last : ℕ) (ev : Proof)
    → Accrued g candidate start last ev
    → now - last ≤ telemetry_gap_ms
    → dwell_ms ≤ last - start
    → judge_proof now g candidate (some ev) ≡ proven
unfolding judge_proof judge_times is_about
judged-Accrued now g candidate start last ev a fresh long = ground arith

-- A machine that reports the candidate on a new connection and then delivers metrics frames with
-- no silence beyond 45 s, and reports of the candidate only, is proven as soon as the frames span
-- 60 s, while the last one is at most 45 s old.
pub dwell_completes :
    (now g : ℕ) (candidate : Text) (es : List Event) {start last : ℕ}
    → Streak g candidate es start last
    → now - last ≤ telemetry_gap_ms
    → dwell_ms ≤ last - start
    → judge_proof now g candidate (some (after es)) ≡ proven
dwell_completes now g candidate es s fresh long =
    judged-Accrued now g candidate _ _ (after es) (Streak-Accrued s) fresh long
