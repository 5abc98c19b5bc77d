-- ===== src/Rollout/Ticking.antt =====
-- hub/agent_rollout.go: tick and resumeTx keep the invariant.
use blox_os.Base.{
  ℕ, ◌+◌, ◌<◌, ◌≡◌, refl, Bool, true, Option, none, some, List, [], ◌∷◌, arith, ltb, Bool-cases,
  inl, inr,
}
use blox_os.Base.Text.{Text}
use blox_os.Base.Table.{count_where, select_where, count-update_clear}
use blox_os.Rollout.Tables.{
  Slot, Status, active, halted, PlatformRow, Tables, rollout_capacity, is_healthy, is_failed,
  is_live, in_state,
}
use blox_os.Rollout.Progress.{
  at_stage, expiry_reason, tick_rows, can_advance, advance_row, advance, tick_active, tick_row,
  tick, retry, resume_row, resume,
}
use blox_os.Rollout.Invariant.{Ok, RowOk, IsValid, is_exposed}
use blox_os.Rollout.Updates.{
  Keeps, keyed-update, latest-update, in_state-update, healthy-update, update-Ok,
}
use blox_os.Rollout.Failing.{
  tables, fail_slot-IsValid, Visiting, Visiting-start, promote-Keeps, Visiting-promote,
  unsettled_visited,
}

tick_rows-IsValid :
    (proven : Text → Bool) (now : ℕ) (st : PlatformRow) (rows slots : List Slot)
    → Ok st slots
    → Visiting st.generation rows slots
    → IsValid (tick_rows proven now st.generation rows (tables st slots)).0
unfolding tick_rows
tick_rows-IsValid proven now st [] slots v visiting = v
tick_rows-IsValid proven now st (l ∷ ls) slots v visiting =
    elim (Bool-cases (proven l.machine_id)) [
      | inl yes' ↦ rw yes' (
          tick_rows-IsValid proven now st ls _
            (update-Ok _ _ slots st (promote-Keeps st.generation l.machine_id) (λ s h e. cc) v)
            (Visiting-promote st l ls slots v visiting))
      | inr not_yet ↦ rw not_yet (elim (Bool-cases (ltb l.deadline_ms now)) [
        | inl late ↦ rw late (
            fail_slot-IsValid st l.machine_id (expiry_reason l.state) slots
              (unsettled_visited st.generation l ls slots visiting) v)
        | inr early ↦ rw early (tick_rows-IsValid proven now st ls slots v (visiting_rest visiting))
      ])
    ]
  where
    visiting_rest : Visiting st.generation (l ∷ ls) slots → Visiting st.generation ls slots
    visiting_rest h m = unfold count_where in ground (arith, h m)

advanced-Ok :
    (st : PlatformRow) (slots : List Slot)
    → 0 < count_where (at_stage st.generation st.stage is_healthy) slots
    → Ok st slots
    → Ok (record st { stage = st.stage + 1 }) slots
unfolding rollout_capacity
advanced-Ok st slots some_healthy v = record {
  keyed = v.keyed;
  exposure = ground (arith, v.exposure);
  latest = v.latest;
  clean = v.clean;
  canary = λ h. ground (arith, v.canary, some_healthy);
}

proven_of_ready :
    (g stage : ℕ) (st : PlatformRow) (slots : List Slot)
    → can_advance g stage slots st ≡ true
    → 0 < count_where (at_stage st.generation st.stage is_healthy) slots
unfolding can_advance
proven_of_ready g stage st slots h = ground arith

advance_row-Ok :
    (g stage : ℕ) (row : Option PlatformRow) (slots : List Slot)
    → RowOk row slots
    → RowOk (advance_row g stage slots row) slots
unfolding advance_row
advance_row-Ok g stage none slots v = v
advance_row-Ok g stage (some row) slots v = elim (Bool-cases (can_advance g stage slots row)) [
  | inl ready ↦ rw ready (advanced-Ok row slots (proven_of_ready g stage row slots ready) v)
  | inr not_ready ↦ rw not_ready v
]

advance-IsValid : (g stage : ℕ) (db : Tables) → IsValid db → IsValid (advance g stage db)
unfolding advance
advance-IsValid g stage db v = advance_row-Ok g stage db.row db.slots v

tick_active-IsValid :
    (proven : Text → Bool) (now : ℕ) (st : PlatformRow) (status : Status) (slots : List Slot)
    → Ok st slots
    → IsValid (tick_active proven now st status (tables st slots))
unfolding tick_active
tick_active-IsValid proven now st halted slots v = v
tick_active-IsValid proven now st active slots v = elim (Bool-cases ticked.1) [
  | inl stopped ↦ rw stopped kept
  | inr going ↦ rw going (advance-IsValid st.generation st.stage ticked.0 kept)
]
  where
    ticked : Tables × Bool
    ticked =
        tick_rows proven now st.generation (select_where (in_state st.generation is_live) slots)
          (tables st slots)

    kept : IsValid ticked.0
    kept = tick_rows-IsValid proven now st _ slots v (Visiting-start st slots v)

tick_row-IsValid :
    (proven : Text → Bool) (now : ℕ) (row : Option PlatformRow) (slots : List Slot)
    → RowOk row slots
    → IsValid (tick_row proven now row (record { row = row; slots = slots }))
unfolding tick_row
tick_row-IsValid proven now none slots v = v
tick_row-IsValid proven now (some st) slots v = tick_active-IsValid proven now st st.status slots v

-- A tick keeps the invariant, whatever the verdicts on the machines are.
pub tick-IsValid :
    (proven : Text → Bool) (now : ℕ) (db : Tables) → IsValid db → IsValid (tick proven now db)
unfolding tick
tick-IsValid proven now db v = tick_row-IsValid proven now db.row db.slots v

resume_row-IsValid :
    (now : ℕ) (row : Option PlatformRow) (slots : List Slot)
    → RowOk row slots
    → IsValid (resume_row now row (record { row = row; slots = slots }))
unfolding resume_row
resume_row-IsValid now none slots v = v
resume_row-IsValid now (some st) slots v = record {
  keyed = λ g n.
      omega (arith, keyed-update p (retry now) slots (λ s. refl) (λ s. refl) g n, v.keyed g n);
  exposure = omega (
    arith,
    v.exposure,
    in_state-update p (retry now) slots is_exposed st.generation (λ s. refl)
        (λ s h e. unfold in_state in ground arith),
  );
  latest = omega (arith, latest-update p (retry now) slots (λ s. refl) st.generation, v.latest);
  clean = λ a. count-update_clear p (retry now) slots (λ s. unfold in_state in ground arith);
  canary = λ h. omega (arith, v.canary h, healthy-update p (retry now) slots st.generation keeps);
}
  where
    p : Slot → Bool
    p = in_state st.generation is_failed

    keeps : Keeps p (retry now)
    keeps = record {
      generation = λ s. refl;
      machine = λ s. refl;
      stage = λ s. refl;
      exposed = λ s h e. unfold in_state in ground arith;
      proven = λ s h e. unfold in_state in ground arith;
    }

-- An operator's resume keeps the invariant: the retried slots were already counted.
pub resume-IsValid : (now : ℕ) (db : Tables) → IsValid db → IsValid (resume now db)
unfolding resume
resume-IsValid now db v = resume_row-IsValid now db.row db.slots v
