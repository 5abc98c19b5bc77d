-- ===== src/Rollout/Tables.antt =====
-- hub/agent_rollout.go and hub/migrations.go: the durable tables of the staged rollout.
-- Every statement of the controller is keyed by the platform, so `Tables` holds one platform's
-- row of agent_rollout_platform and its rows of agent_rollout_slot. Times are unix milliseconds.
use blox_os.Base.{
  ℕ, ◌+◌, Bool, true, false, ◌&&◌, Option, none, some, List, [], leb, ◌==◌, if◌then◌else◌,
}
use blox_os.Base.Text.{Text, text_eq}
use blox_os.Base.Table.{find_where, update_where}

pub data SlotState : Type 0 where
  reserved offered observed healthy failed withheld : SlotState

pub data Status : Type 0 where
  active halted : Status

-- The reason column of a slot: the controller's own texts, or a refusal that a caller words.
pub data Reason : Type 0 where
  no_reason unconfirmed resend_exhausted not_proven : Reason
  refusal : Text → Reason

pub record Slot : Type 0 where
  pub generation : ℕ
  pub machine_id : Text
  pub stage : ℕ
  pub attempt : ℕ
  pub state : SlotState
  pub reserved_ms : ℕ
  pub offered_ms : Option ℕ
  pub deadline_ms : ℕ
  pub reason : Reason
  pub grace_used : Bool
  pub resend_count : ℕ
  pub ran_candidate : Bool

-- rolloutPlatformState; the halt reason is the machine that failed and why, none while empty.
pub record PlatformRow : Type 0 where
  pub generation : ℕ
  pub candidate : Text
  pub release : ℕ
  pub stage : ℕ
  pub status : Status
  pub halt_reason : Option (Text × Reason)

pub record Tables : Type 0 where
  pub row : Option PlatformRow
  pub slots : List Slot

abbrev pub empty_tables : Tables
empty_tables = record { row = none; slots = [] }

abbrev pub dwell_ms : ℕ
dwell_ms = 60000

abbrev pub telemetry_gap_ms : ℕ
telemetry_gap_ms = 45000

abbrev pub canary_capacity : ℕ
canary_capacity = 1

abbrev pub batch_capacity : ℕ
batch_capacity = 2

abbrev pub attempt_timeout_ms : ℕ
attempt_timeout_ms = 600000

abbrev pub max_resends : ℕ
max_resends = 3

abbrev pub restart_grace_ms : ℕ
restart_grace_ms = 300000

unfoldable pub rollout_capacity : ℕ → ℕ
rollout_capacity stage = if leb stage 0 then canary_capacity else batch_capacity

abbrev pub is_active : Status → Bool
is_active active = true
is_active halted = false

-- state IN (reserved, offered, observed): outstanding, unvalidated work.
abbrev pub is_live : SlotState → Bool
is_live reserved = true
is_live offered = true
is_live observed = true
is_live _ = false

abbrev pub is_reserved : SlotState → Bool
is_reserved reserved = true
is_reserved _ = false

abbrev pub is_pending : SlotState → Bool
is_pending reserved = true
is_pending offered = true
is_pending _ = false

abbrev pub is_observed : SlotState → Bool
is_observed observed = true
is_observed _ = false

abbrev pub is_healthy : SlotState → Bool
is_healthy healthy = true
is_healthy _ = false

abbrev pub is_failed : SlotState → Bool
is_failed failed = true
is_failed _ = false

abbrev pub is_withheld : SlotState → Bool
is_withheld withheld = true
is_withheld _ = false

-- WHERE generation = ? AND machine_id = ?
unfoldable pub is_slot : ℕ → Text → Slot → Bool
is_slot g m s = s.generation == g && text_eq s.machine_id m

-- WHERE generation = ? with a test on the state.
unfoldable pub in_state : ℕ → (SlotState → Bool) → Slot → Bool
in_state g p s = s.generation == g && p s.state

unfoldable pub find_slot : ℕ → Text → Tables → Option Slot
unfolding is_slot
find_slot g m db = find_where (is_slot g m) db.slots

-- The row that loadPlatform inserts for a platform that has none.
abbrev pub first_row : Text → ℕ → PlatformRow
first_row candidate release = record {
  generation = 1;
  candidate = candidate;
  release = release;
  stage = 0;
  status = active;
  halt_reason = none;
}

-- A changed candidate starts a new generation, at the canary stage.
abbrev pub next_row : Text → ℕ → PlatformRow → PlatformRow
next_row candidate release st = record {
  generation = st.generation + 1;
  candidate = candidate;
  release = release;
  stage = 0;
  status = active;
  halt_reason = none;
}

-- The row that loadPlatform returns, and that it has left in the table.
unfoldable pub load_row : Text → ℕ → Option PlatformRow → PlatformRow
load_row candidate release none = first_row candidate release
load_row candidate release (some st) =
    if text_eq st.candidate candidate then st else next_row candidate release st

unfoldable pub load_platform : Text → ℕ → Tables → Tables × PlatformRow
unfolding load_row
load_platform candidate release db =
    let st = load_row candidate release db.row in (record db { row = some st }, st)

-- failSlotTx: the slot fails, and one failed attempt halts the platform.
unfoldable pub halt_row : ℕ → Text → Reason → Option PlatformRow → Option PlatformRow
halt_row g m why none = none
halt_row g m why (some st) =
    if st.generation == g
    then some (record st { status = halted; halt_reason = some (m, why) })
    else some st

unfoldable pub fail_slot : ℕ → Text → Reason → Tables → Tables
unfolding halt_row is_slot
fail_slot g m why db = record {
  row = halt_row g m why db.row;
  slots = update_where (is_slot g m) (λ s. record s { state = failed; reason = why }) db.slots;
}
