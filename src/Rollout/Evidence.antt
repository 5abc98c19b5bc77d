-- ===== src/Rollout/Evidence.antt =====
-- hub/agent_rollout.go: dwell evidence, filed under the machine and the connection that produced
-- it, and the verdict on a machine. A connection is the number of its *ConnectedAgent, none for a
-- nil pointer; a zero time is none. The platform is fixed, as in Rollout/Tables.
use blox_os.Base.{
  ℕ, ◌-◌, Bool, true, false, ◌&&◌, ◌||◌, not, Option, none, some, [], ltb, ◌==◌, if◌then◌else◌,
}
use blox_os.Base.Text.{Text, text_eq, lower, equal_fold, is_empty}
use blox_os.Rollout.Tables.{dwell_ms, telemetry_gap_ms}

-- rolloutEvidence.
pub record Proof : Type 0 where
  pub generation : ℕ
  pub candidate : Text
  pub saw_candidate : Bool
  pub dwell_start : Option ℕ
  pub last_metrics : Option ℕ

abbrev pub no_proof : Proof
no_proof = record {
  generation = 0;
  candidate = [];
  saw_candidate = false;
  dwell_start = none;
  last_metrics = none;
}

abbrev pub Evidence : Type 0
Evidence = Text → ℕ → Option Proof

-- The body of observeCandidateReport on the connection's own record: whether the record is about
-- this candidate and generation, and then whether the machine runs it.
unfoldable pub retarget : ℕ → Text → Proof → Proof
retarget g candidate ev =
    if not (ev.generation == g) || not (equal_fold ev.candidate candidate)
    then record ev {
      generation = g;
      candidate = lower candidate;
      saw_candidate = false;
      dwell_start = none;
    }
    else ev

unfoldable pub note_report : ℕ → Text → Text → Proof → Proof
unfolding retarget
note_report g running candidate ev =
    let ev' = retarget g candidate ev in
    if equal_fold running candidate
    then record ev' { saw_candidate = true }
    else record ev' { saw_candidate = false; dwell_start = none }

-- The silence before this frame is longer than the allowed gap.
unfoldable pub is_stale : ℕ → Option ℕ → Bool
is_stale now none = false
is_stale now (some last) = ltb telemetry_gap_ms (now - last)

unfoldable pub next_start : ℕ → Option ℕ → Option ℕ → Option ℕ
unfolding is_stale
next_start now none last = some now
next_start now (some start) last = if is_stale now last then some now else some start

unfoldable pub note_metrics : ℕ → Proof → Proof
unfolding next_start
note_metrics now ev =
    if ev.saw_candidate
    then record ev {
      dwell_start = next_start now ev.dwell_start ev.last_metrics;
      last_metrics = some now;
    }
    else record ev { last_metrics = some now; dwell_start = none }

-- evidenceFor creates the record on first use.
abbrev pub get_proof : Option Proof → Proof
get_proof none = no_proof
get_proof (some ev) = ev

unfoldable pub write_proof : Text → ℕ → Option Proof → Evidence → Evidence
write_proof m conn ev all m' conn' = if text_eq m m' && conn == conn' then ev else all m' conn'

unfoldable pub observe_candidate_report : Text → Option ℕ → ℕ → Text → Text → Evidence → Evidence
unfolding note_report write_proof
observe_candidate_report m none g running candidate all = all
observe_candidate_report m (some conn) g running candidate all =
    if is_empty candidate
    then all
    else write_proof m conn (some (note_report g running candidate (get_proof (all m conn)))) all

unfoldable pub observe_telemetry : ℕ → Text → Option ℕ → Evidence → Evidence
unfolding note_metrics write_proof
observe_telemetry now m none all = all
observe_telemetry now m (some conn) all =
    write_proof m conn (some (note_metrics now (get_proof (all m conn)))) all

-- A nil connection drops the machine's whole record; forgetEvidence does the same.
unfoldable pub forget_evidence : Text → Evidence → Evidence
forget_evidence m all m' conn' = if text_eq m m' then none else all m' conn'

unfoldable pub forget_connection : Text → Option ℕ → Evidence → Evidence
unfolding forget_evidence write_proof
forget_connection m none all = forget_evidence m all
forget_connection m (some conn) all = write_proof m conn none all

pub data Verdict : Type 0 where
  proven not_connected no_evidence other_candidate not_reported no_metrics stale in_progress :
      Verdict

abbrev pub is_proven : Verdict → Bool
is_proven proven = true
is_proven _ = false

-- The checks of dwellSatisfied, in order: on the times, on the record, on the connection. No frame at all is
-- the zero time, long ago.
unfoldable pub judge_times : ℕ → Option ℕ → Option ℕ → Verdict
unfolding is_stale
judge_times now none last = no_metrics
judge_times now (some start) none = stale
judge_times now (some start) (some last) =
    if ltb telemetry_gap_ms (now - last)
    then stale
    else if ltb (last - start) dwell_ms
    then in_progress
    else proven

unfoldable pub judge_proof : ℕ → ℕ → Text → Option Proof → Verdict
unfolding judge_times
judge_proof now g candidate none = no_evidence
judge_proof now g candidate (some ev) =
    if not (ev.generation == g) || not (equal_fold ev.candidate candidate)
    then other_candidate
    else if not ev.saw_candidate
    then not_reported
    else judge_times now ev.dwell_start ev.last_metrics

-- `owner` is what the registry holds for the machine now.
unfoldable pub dwell_satisfied : ℕ → ℕ → Text → Option ℕ → Text → Evidence → Verdict
unfolding judge_proof
dwell_satisfied now g candidate none m all = not_connected
dwell_satisfied now g candidate (some conn) m all = judge_proof now g candidate (all m conn)
