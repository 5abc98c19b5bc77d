-- ===== src/Rollout/Forward.antt =====
-- hub/agent_rollout.go: generations and stages only move forward.
use native.Mathlib.Nat.{le_refl}
use blox_os.Base.{
  ℕ, ◌≤◌, ◌<◌, ◌≡◌, ◌⊎◌, inl, inr, refl, Bool, Option, some, none, List, [], ◌∷◌, arith, Bool-cases,
  ltb, leb, ◌==◌,
}
use blox_os.Base.Text.{Text, text_eq, is_empty}
use blox_os.Base.Table.{select_where}
use blox_os.Rollout.Tables.{
  Slot, SlotState, reserved, withheld, Status, active, halted, Reason, PlatformRow, Tables, is_live,
  in_state, load_row, load_platform, halt_row, fail_slot, max_resends,
}
use blox_os.Rollout.Reserve.{
  admit, recover, reserve_in_state, reserve_slot, reserve_active, reserve, release_before_send,
  mark_offered, observe_running_candidate, withhold,
}
use blox_os.Rollout.Progress.{
  promote, tick_rows, can_advance, advance_row, advance, tick_active, tick_row, tick, resume_row,
  resume, reconcile_after_restart,
}
use blox_os.Rollout.Reach.{
  Step, reserving, releasing, offering, observing, withholding, ticking, resuming, restarting,
  Reach, here, next,
}

-- The second row is the first one, or a later one: a later generation, or the same generation of
-- the same candidate at the same stage or a later one. A row is never dropped.
abbrev pub Forward : Option PlatformRow → Option PlatformRow → Type 0
Forward none row = Unit
Forward (some st) none = ⊥
Forward (some st) (some st') =
    (st.generation < st'.generation)
    ⊎ ((st.generation ≡ st'.generation) × (st.candidate ≡ st'.candidate) × (st.stage ≤ st'.stage))

pub Forward-refl : (row : Option PlatformRow) → Forward row row
Forward-refl none = tt
Forward-refl (some st) = inr (refl, refl, le_refl st.stage)

pub Forward-trans : (a b c : Option PlatformRow) → Forward a b → Forward b c → Forward a c
Forward-trans none b c h k = tt
Forward-trans (some a) none c h k = absurd h
Forward-trans (some a) (some b) none h k = absurd k
Forward-trans (some a) (some b) (some c) h k = ground arith

load_row-Forward :
    (candidate : Text) (release : ℕ) (row : Option PlatformRow)
    → Forward row (some (load_row candidate release row))
unfolding load_row
load_row-Forward candidate release none = tt
load_row-Forward candidate release (some st) = elim (Bool-cases (text_eq st.candidate candidate)) [
  | inl same ↦ rw same (Forward-refl (some st))
  | inr other ↦ rw other (inl (omega arith))
]

halt_row-Forward :
    (g : ℕ) (m : Text) (why : Reason) (row : Option PlatformRow)
    → Forward row (halt_row g m why row)
unfolding halt_row
halt_row-Forward g m why none = tt
halt_row-Forward g m why (some st) = elim (Bool-cases (st.generation == g)) [
  | inl this ↦ rw this (inr (refl, refl, le_refl st.stage))
  | inr other ↦ rw other (Forward-refl (some st))
]

fail_slot-Forward :
    (g : ℕ) (m : Text) (why : Reason) (db : Tables) → Forward db.row (fail_slot g m why db).row
unfolding fail_slot
fail_slot-Forward g m why db = halt_row-Forward g m why db.row

admit-row :
    (now : ℕ) (st : PlatformRow) (m : Text) (db : Tables) → (admit now st m db).0.row ≡ db.row
unfolding admit
admit-row now st m db = ground arith

recover-Forward :
    (now : ℕ) (st : PlatformRow) (m : Text) (slot : Slot) (db : Tables)
    → Forward db.row (recover now st m slot db).0.row
unfolding recover
recover-Forward now st m slot db = elim (Bool-cases (ltb slot.deadline_ms now)) [
  | inl late ↦ rw late (fail_slot-Forward st.generation m _ db)
  | inr early ↦ rw early (elim (Bool-cases (leb max_resends slot.resend_count)) [
    | inl spent ↦ rw spent (fail_slot-Forward st.generation m _ db)
    | inr left ↦ rw left (Forward-refl db.row)
  ])
]

reserve_in_state-Forward :
    (now : ℕ) (st : PlatformRow) (m : Text) (slot : Slot) (state : SlotState) (db : Tables)
    → Forward db.row (reserve_in_state now st m slot state db).0.row
unfolding reserve_in_state
reserve_in_state-Forward now st m slot reserved db = recover-Forward now st m slot db
reserve_in_state-Forward now st m slot withheld db = rw admit-row (Forward-refl db.row)
reserve_in_state-Forward now st m slot _ db = Forward-refl db.row

reserve_slot-Forward :
    (now : ℕ) (st : PlatformRow) (m : Text) (found : Option Slot) (db : Tables)
    → Forward db.row (reserve_slot now st m found db).0.row
unfolding reserve_slot
reserve_slot-Forward now st m none db = rw admit-row (Forward-refl db.row)
reserve_slot-Forward now st m (some slot) db = reserve_in_state-Forward now st m slot slot.state db

reserve_active-Forward :
    (now : ℕ) (st : PlatformRow) (m : Text) (status : Status) (db : Tables)
    → Forward db.row (reserve_active now st m status db).0.row
unfolding reserve_active
reserve_active-Forward now st m halted db = Forward-refl db.row
reserve_active-Forward now st m active db = reserve_slot-Forward now st m _ db

reserve-Forward :
    (now : ℕ) (m candidate : Text) (release : ℕ) (db : Tables)
    → Forward db.row (reserve now m candidate release db).0.row
unfolding reserve load_platform
reserve-Forward now m candidate release db = elim (Bool-cases (is_empty candidate)) [
  | inl nothing ↦ rw nothing (Forward-refl db.row)
  | inr given ↦ rw given (
      Forward-trans db.row (some st) _ (load_row-Forward candidate release db.row)
        (reserve_active-Forward now st m st.status (record { row = some st; slots = db.slots })))
]
  where
    st : PlatformRow
    st = load_row candidate release db.row

tick_rows-Forward :
    (proven : Text → Bool) (now g : ℕ) (rows : List Slot) (db : Tables)
    → Forward db.row (tick_rows proven now g rows db).0.row
unfolding tick_rows
tick_rows-Forward proven now g [] db = Forward-refl db.row
tick_rows-Forward proven now g (l ∷ ls) db = elim (Bool-cases (proven l.machine_id)) [
  | inl done ↦ rw done (tick_rows-Forward proven now g ls (promote g l.machine_id db))
  | inr not_yet ↦ rw not_yet (elim (Bool-cases (ltb l.deadline_ms now)) [
    | inl late ↦ rw late (fail_slot-Forward g l.machine_id _ db)
    | inr early ↦ rw early (tick_rows-Forward proven now g ls db)
  ])
]

advance_row-Forward :
    (g stage : ℕ) (slots : List Slot) (row : Option PlatformRow)
    → Forward row (advance_row g stage slots row)
unfolding advance_row
advance_row-Forward g stage slots none = tt
advance_row-Forward g stage slots (some st) = elim (Bool-cases (can_advance g stage slots st)) [
  | inl ready ↦ rw ready (inr (refl, refl, omega arith))
  | inr not_ready ↦ rw not_ready (Forward-refl (some st))
]

tick_active-Forward :
    (proven : Text → Bool) (now : ℕ) (st : PlatformRow) (status : Status) (db : Tables)
    → Forward db.row (tick_active proven now st status db).row
unfolding tick_active advance
tick_active-Forward proven now st halted db = Forward-refl db.row
tick_active-Forward proven now st active db = elim (Bool-cases ticked.1) [
  | inl stopped ↦ rw stopped kept
  | inr going ↦ rw going (
      Forward-trans db.row ticked.0.row _ kept
        (advance_row-Forward st.generation st.stage ticked.0.slots ticked.0.row))
]
  where
    ticked : Tables × Bool
    ticked =
        tick_rows proven now st.generation (select_where (in_state st.generation is_live) db.slots)
          db

    kept : Forward db.row ticked.0.row
    kept = tick_rows-Forward proven now st.generation _ db

tick_row-Forward :
    (proven : Text → Bool) (now : ℕ) (row : Option PlatformRow) (db : Tables)
    → Forward db.row (tick_row proven now row db).row
unfolding tick_row
tick_row-Forward proven now none db = Forward-refl db.row
tick_row-Forward proven now (some st) db = tick_active-Forward proven now st st.status db

resume_row-Forward :
    (now : ℕ) (row : Option PlatformRow) (slots : List Slot)
    → Forward row (resume_row now row (record { row = row; slots = slots })).row
unfolding resume_row
resume_row-Forward now none slots = tt
resume_row-Forward now (some st) slots = inr (refl, refl, le_refl st.stage)

Step-Forward : {db db' : Tables} → Step db db' → Forward db.row db'.row
unfolding release_before_send mark_offered observe_running_candidate withhold load_platform tick
    resume reconcile_after_restart
Step-Forward {db} (reserving now m candidate release) = reserve-Forward now m candidate release db
Step-Forward {db} (releasing r) = Forward-refl db.row
Step-Forward {db} (offering now r) = Forward-refl db.row
Step-Forward {db} (observing g m) = Forward-refl db.row
Step-Forward {db} (withholding now m candidate release why) =
    load_row-Forward candidate release db.row
Step-Forward {db} (ticking proven now) = tick_row-Forward proven now db.row db
Step-Forward {db} (resuming now) = resume_row-Forward now db.row db.slots
Step-Forward {db} (restarting now) = Forward-refl db.row

-- From any state, by any operations in any order, the platform's row is never dropped; its
-- generation never falls, and while the generation is the same the candidate is the same and the
-- stage does not fall.
pub Reach-Forward : {db db' : Tables} → Reach db db' → Forward db.row db'.row
Reach-Forward {db} here = Forward-refl db.row
Reach-Forward {db} (next {t} {u} r s) =
    Forward-trans db.row t.row u.row (Reach-Forward r) (Step-Forward s)
