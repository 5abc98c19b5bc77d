-- ===== src/Rollout/Report.antt =====
-- hub/agent_rollout.go: status and rolloutSummary, what an operator is shown of a platform.
use blox_os.Base.{
  ℕ, ◌+◌, Bool, ◌&&◌, ◌||◌, Option, none, some, List, [], ◌∷◌, ltb, ◌==◌, if◌then◌else◌,
}
use blox_os.Base.Text.{Text}
use blox_os.Base.Table.{select_where}
use blox_os.Rollout.Tables.{
  Slot, SlotState, reserved, offered, observed, healthy, failed, withheld, Status, active, halted,
  Reason, PlatformRow, Tables, is_healthy,
}

pub record RolloutStatus : Type 0 where
  pub generation : ℕ
  pub candidate : Text
  pub stage : ℕ
  pub status : Status
  pub halt_reason : Option (Text × Reason)
  pub updated : ℕ
  pub validated : ℕ
  pub validating : ℕ
  pub pending : ℕ
  pub withheld_count : ℕ
  pub withheld_reason : List (Text × Reason)
  pub failed_count : ℕ
  pub failed_reason : List (Text × Reason)

abbrev pub blank : PlatformRow → RolloutStatus
blank st = record {
  generation = st.generation;
  candidate = st.candidate;
  stage = st.stage;
  status = st.status;
  halt_reason = st.halt_reason;
  updated = 0;
  validated = 0;
  validating = 0;
  pending = 0;
  withheld_count = 0;
  withheld_reason = [];
  failed_count = 0;
  failed_reason = [];
}

-- The switch on the state of one row.
unfoldable pub tally_state : Slot → SlotState → RolloutStatus → RolloutStatus
tally_state s healthy out = record out { validated = out.validated + 1 }
tally_state s observed out = record out { validating = out.validating + 1 }
tally_state s reserved out = record out { pending = out.pending + 1 }
tally_state s offered out = record out { pending = out.pending + 1 }
tally_state s withheld out = record out {
  withheld_count = out.withheld_count + 1;
  withheld_reason = (s.machine_id, s.reason) ∷ out.withheld_reason;
}
tally_state s failed out = record out {
  failed_count = out.failed_count + 1;
  failed_reason = (s.machine_id, s.reason) ∷ out.failed_reason;
}

unfoldable pub tally_row : Slot → RolloutStatus → RolloutStatus
unfolding tally_state
tally_row s out = tally_state s s.state (
    if s.ran_candidate || is_healthy s.state then record out { updated = out.updated + 1 } else out)

unfoldable pub tally : List Slot → RolloutStatus → RolloutStatus
unfolding tally_row
tally [] out = out
tally (s ∷ ss) out = tally ss (tally_row s out)

abbrev pub of_generation : ℕ → Slot → Bool
of_generation g s = s.generation == g

unfoldable pub status_of : Option PlatformRow → List Slot → Option RolloutStatus
unfolding tally
status_of none slots = none
status_of (some st) slots =
    some (tally (select_where (of_generation st.generation) slots) (blank st))

unfoldable pub rollout_status : Tables → Option RolloutStatus
unfolding status_of
rollout_status db = status_of db.row db.slots

pub data Summary : Type 0 where
  needs_operator : Option (Text × Reason) → Summary
  updating : ℕ → ℕ → ℕ → Summary
  waiting_withheld : ℕ → Summary
  waiting : Summary
  some_failed : ℕ → ℕ → Summary
  no_outstanding : ℕ → Summary

unfoldable pub summary_active : RolloutStatus → Summary
summary_active st =
    if ltb 0 st.pending || ltb 0 st.validating
    then updating st.pending st.validating st.validated
    else if st.validated == 0 && ltb 0 st.withheld_count
    then waiting_withheld st.withheld_count
    else if st.validated == 0
    then waiting
    else if ltb 0 st.failed_count
    then some_failed st.validated st.failed_count
    else no_outstanding st.validated

unfoldable pub summary_in : Status → RolloutStatus → Summary
unfolding summary_active
summary_in halted st = needs_operator st.halt_reason
summary_in active st = summary_active st

unfoldable pub rollout_summary : RolloutStatus → Summary
unfolding summary_in
rollout_summary st = summary_in st.status st
