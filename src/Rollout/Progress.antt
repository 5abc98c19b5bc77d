-- ===== src/Rollout/Progress.antt =====
-- hub/agent_rollout.go: the scheduler's tick, the operator's resume, and the reconciliation when
-- the controller is built.
use blox_os.Base.{
  ℕ, ◌+◌, Bool, true, false, ◌&&◌, not, Option, none, some, List, [], ◌∷◌, max, ltb, ◌==◌,
  if◌then◌else◌,
}
use blox_os.Base.Text.{Text}
use blox_os.Base.Table.{count_where, update_where, select_where}
use blox_os.Rollout.Tables.{
  Slot, SlotState, reserved, healthy, Status, active, halted, Reason, no_reason, unconfirmed,
  not_proven, PlatformRow, Tables, attempt_timeout_ms, restart_grace_ms, is_live, is_healthy,
  is_failed, is_active, is_slot, in_state, fail_slot,
}

-- The slot proved itself: its row becomes healthy.
unfoldable pub promote : ℕ → Text → Tables → Tables
promote g machine db = record db {
  slots =
      update_where (is_slot g machine) (λ s. record s { state = healthy; reason = no_reason })
        db.slots;
}

abbrev pub expiry_reason : SlotState → Reason
expiry_reason reserved = unconfirmed
expiry_reason _ = not_proven

-- The loop over the outstanding rows; the flag says that an expired attempt halted the platform.
-- `proven` is the verdict of dwellSatisfied on a machine.
unfoldable pub tick_rows : (Text → Bool) → ℕ → ℕ → List Slot → Tables → Tables × Bool
unfolding promote
tick_rows proven now g [] db = (db, false)
tick_rows proven now g (l ∷ ls) db =
    let promoted = tick_rows proven now g ls (promote g l.machine_id db) in
    let kept = tick_rows proven now g ls db in
    if proven l.machine_id
    then promoted
    else if ltb l.deadline_ms now
    then (fail_slot g l.machine_id (expiry_reason l.state) db, true)
    else kept

unfoldable pub at_stage : ℕ → ℕ → (SlotState → Bool) → Slot → Bool
at_stage g stage p s = s.generation == g && s.stage == stage && p s.state

abbrev pub positive : ℕ → Bool
positive n = ltb 0 n

-- The conditions of the one advancement statement: nothing of this stage is outstanding, and
-- something of it is healthy.
unfoldable pub can_advance : ℕ → ℕ → List Slot → PlatformRow → Bool
can_advance g stage slots row =
    row.generation == g
    && is_active row.status
    && row.stage == stage
    && not (positive (count_where (at_stage row.generation row.stage is_live) slots))
    && positive (count_where (at_stage row.generation row.stage is_healthy) slots)

unfoldable pub advance_row : ℕ → ℕ → List Slot → Option PlatformRow → Option PlatformRow
advance_row g stage slots none = none
advance_row g stage slots (some row) =
    if can_advance g stage slots row then some (record row { stage = row.stage + 1 }) else some row

unfoldable pub advance : ℕ → ℕ → Tables → Tables
unfolding advance_row can_advance
advance g stage db = record db { row = advance_row g stage db.slots db.row }

unfoldable pub tick_active : (Text → Bool) → ℕ → PlatformRow → Status → Tables → Tables
unfolding tick_rows advance
tick_active proven now st halted db = db
tick_active proven now st active db =
    let (db', stopped) =
      tick_rows proven now st.generation (select_where (in_state st.generation is_live) db.slots)
        db in
    if stopped then db' else advance st.generation st.stage db'

unfoldable pub tick_row : (Text → Bool) → ℕ → Option PlatformRow → Tables → Tables
unfolding tick_active
tick_row proven now none db = db
tick_row proven now (some st) db = tick_active proven now st st.status db

unfoldable pub tick : (Text → Bool) → ℕ → Tables → Tables
unfolding tick_row
tick proven now db = tick_row proven now db.row db

-- resumeTx: every failed slot of the generation gets a new attempt, and the halt is cleared.
abbrev pub retry : ℕ → Slot → Slot
retry now s = record s {
  state = reserved;
  attempt = s.attempt + 1;
  resend_count = 0;
  grace_used = false;
  offered_ms = none;
  deadline_ms = now + attempt_timeout_ms;
  reason = no_reason;
}

unfoldable pub resume_row : ℕ → Option PlatformRow → Tables → Tables
resume_row now none db = db
resume_row now (some st) db = record {
  row = some (record st { status = active; halt_reason = none });
  slots = update_where (in_state st.generation is_failed) (retry now) db.slots;
}

unfoldable pub resume : ℕ → Tables → Tables
unfolding resume_row
resume now db = resume_row now db.row db

-- reconcileAfterRestart: one deadline extension for each live attempt that has not had it.
unfoldable pub reconcile_after_restart : ℕ → Tables → Tables
reconcile_after_restart now db = record db {
  slots =
      update_where (λ s. is_live s.state && not s.grace_used)
        (λ s. record s {
          deadline_ms = max s.deadline_ms (now + restart_grace_ms);
          grace_used = true;
        })
        db.slots;
}
