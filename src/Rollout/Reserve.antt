-- ===== src/Rollout/Reserve.antt =====
-- hub/agent_rollout.go: a machine takes a slot, gives it back, is offered the candidate, is
-- observed to run it, or is withheld.
use blox_os.Base.{
  ℕ, ◌+◌, Bool, true, false, ◌&&◌, Option, none, some, List, ◌∷◌, leb, ltb, ◌==◌, if◌then◌else◌,
}
use blox_os.Base.Text.{Text, is_empty}
use blox_os.Base.Table.{count_where, update_where, delete_where}
use blox_os.Rollout.Tables.{
  Slot, SlotState, reserved, offered, observed, healthy, failed, withheld, Status, active, halted,
  no_reason, unconfirmed, resend_exhausted, refusal, PlatformRow, Tables, attempt_timeout_ms,
  max_resends, rollout_capacity, is_live, is_reserved, is_pending, is_withheld, is_slot, in_state,
  find_slot, load_platform, fail_slot,
}

pub record Reservation : Type 0 where
  pub generation : ℕ
  pub machine_id : Text
  pub stage : ℕ
  pub attempt : ℕ
  pub resend : Bool

-- The answers of reserve: a reservation, or the reason why there is none (`wait` is the empty one).
pub data Answer : Type 0 where
  granted : Reservation → Answer
  no_candidate rollout_halted wait attempt_failed window_expired budget_exhausted : Answer

-- The insert, under the capacity check.
unfoldable pub admit : ℕ → PlatformRow → Text → Tables → Tables × Answer
admit now st machine db =
    if leb (rollout_capacity st.stage) (count_where (in_state st.generation is_live) db.slots)
    then (db, wait)
    else (
      record db {
        slots =
            record {
              generation = st.generation;
              machine_id = machine;
              stage = st.stage;
              attempt = 1;
              state = reserved;
              reserved_ms = now;
              offered_ms = none;
              deadline_ms = now + attempt_timeout_ms;
              reason = no_reason;
              grace_used = false;
              resend_count = 0;
              ran_candidate = false;
            }
            ∷ db.slots;
      },
      granted (record {
        generation = st.generation;
        machine_id = machine;
        stage = st.stage;
        attempt = 1;
        resend = false;
      }),
    )

-- A slot that is still reserved is sent again, within its window and its budget.
unfoldable pub recover : ℕ → PlatformRow → Text → Slot → Tables → Tables × Answer
recover now st machine slot db =
    if ltb slot.deadline_ms now
    then (fail_slot st.generation machine unconfirmed db, window_expired)
    else if leb max_resends slot.resend_count
    then (fail_slot st.generation machine resend_exhausted db, budget_exhausted)
    else (
      record db {
        slots =
            update_where (is_slot st.generation machine)
              (λ s. record s { resend_count = s.resend_count + 1 }) db.slots;
      },
      granted (record {
        generation = st.generation;
        machine_id = machine;
        stage = st.stage;
        attempt = slot.attempt;
        resend = true;
      }),
    )

-- The switch on the state of the machine's slot in this generation.
unfoldable pub reserve_in_state :
    ℕ → PlatformRow → Text → Slot → SlotState → Tables → Tables × Answer
unfolding admit recover
reserve_in_state now st machine slot healthy db = (db, wait)
reserve_in_state now st machine slot failed db = (db, attempt_failed)
reserve_in_state now st machine slot offered db = (db, wait)
reserve_in_state now st machine slot observed db = (db, wait)
reserve_in_state now st machine slot withheld db =
    admit now st machine
      (record db { slots = delete_where (is_slot st.generation machine) db.slots })
reserve_in_state now st machine slot reserved db = recover now st machine slot db

unfoldable pub reserve_slot : ℕ → PlatformRow → Text → Option Slot → Tables → Tables × Answer
unfolding reserve_in_state
reserve_slot now st machine none db = admit now st machine db
reserve_slot now st machine (some slot) db = reserve_in_state now st machine slot slot.state db

unfoldable pub reserve_active : ℕ → PlatformRow → Text → Status → Tables → Tables × Answer
unfolding reserve_slot
reserve_active now st machine halted db = (db, rollout_halted)
reserve_active now st machine active db =
    reserve_slot now st machine (find_slot st.generation machine db) db

unfoldable pub reserve : ℕ → Text → Text → ℕ → Tables → Tables × Answer
unfolding reserve_active load_platform
reserve now machine candidate release db =
    if is_empty candidate
    then (db, no_candidate)
    else let (db', st) = load_platform candidate release db in
      reserve_active now st machine st.status db'

-- The row that a reservation names, while it is still reserved under the same attempt.
unfoldable pub holds : Reservation → Slot → Bool
unfolding is_slot
holds r s = is_slot r.generation r.machine_id s && s.attempt == r.attempt && is_reserved s.state

unfoldable pub release_before_send : Reservation → Tables → Tables
release_before_send r db = record db { slots = delete_where (holds r) db.slots }

unfoldable pub mark_offered : ℕ → Reservation → Tables → Tables
mark_offered now r db = record db {
  slots =
      update_where (holds r) (λ s. record s { state = offered; offered_ms = some now }) db.slots;
}

unfoldable pub observe_running_candidate : ℕ → Text → Tables → Tables
observe_running_candidate g machine db = record db {
  slots =
      update_where (λ s. is_slot g machine s && is_pending s.state)
        (λ s. record s { state = observed; ran_candidate = true }) db.slots;
}

-- The insert of withhold, and its ON CONFLICT clause: an existing row is rewritten only if it is
-- withheld itself.
unfoldable pub withhold_slot : ℕ → PlatformRow → Text → Text → Option Slot → List Slot → List Slot
withhold_slot now st machine why none slots =
    record {
      generation = st.generation;
      machine_id = machine;
      stage = st.stage;
      attempt = 0;
      state = withheld;
      reserved_ms = now;
      offered_ms = none;
      deadline_ms = now;
      reason = refusal why;
      grace_used = false;
      resend_count = 0;
      ran_candidate = false;
    }
    ∷ slots
withhold_slot now st machine why (some _) slots =
    update_where (λ s. is_slot st.generation machine s && is_withheld s.state)
      (λ s. record s { state = withheld; reason = refusal why }) slots

unfoldable pub withhold : ℕ → Text → Text → ℕ → Text → Tables → Tables
unfolding withhold_slot load_platform
withhold now machine candidate release why db =
    let (db', st) = load_platform candidate release db in
    record db' {
      slots = withhold_slot now st machine why (find_slot st.generation machine db') db'.slots;
    }
