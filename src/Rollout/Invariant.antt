-- ===== src/Rollout/Invariant.antt =====
-- hub/agent_rollout.go: what holds of the tables between any two operations.
use blox_os.Base.{
  ℕ, ◌+◌, ◌≤◌, ◌<◌, ◌≡◌, refl, Bool, true, false, Option, none, some, List, arith, ltb, Bool-cases,
  inl, inr,
}
use blox_os.Base.Text.{Text, text_eq}
use blox_os.Base.Table.{count_where, count_mono}
use blox_os.Rollout.Tables.{
  Slot, SlotState, healthy, withheld, active, PlatformRow, Tables, rollout_capacity, is_healthy,
  is_failed, is_slot, in_state, first_row, next_row, load_row,
}
use blox_os.Rollout.Progress.{at_stage}

-- Outstanding or failed: a machine that the candidate may have reached without a proof of health.
abbrev pub is_exposed : SlotState → Bool
is_exposed healthy = false
is_exposed withheld = false
is_exposed _ = true

unfoldable pub is_later : ℕ → Slot → Bool
is_later g s = ltb g s.generation

pub record Ok (st : PlatformRow) (slots : List Slot) : Type 0 where
  pub keyed : (g : ℕ) (m : Text) → count_where (is_slot g m) slots ≤ 1
  pub exposure : count_where (in_state st.generation is_exposed) slots ≤ rollout_capacity st.stage
  pub latest : count_where (is_later st.generation) slots ≡ 0
  pub clean : st.status ≡ active → count_where (in_state st.generation is_failed) slots ≡ 0
  pub canary : 0 < st.stage → 0 < count_where (at_stage st.generation 0 is_healthy) slots

-- A platform with no row has no slots.
abbrev pub RowOk : Option PlatformRow → List Slot → Type 0
RowOk none slots = count_where (λ _. true) slots ≡ 0
RowOk (some st) slots = Ok st slots

abbrev pub IsValid : Tables → Type 0
IsValid db = RowOk db.row db.slots

count_none :
    (q : Slot → Bool) (slots : List Slot)
    → count_where (λ _. true) slots ≡ 0
    → count_where q slots ≡ 0
count_none q slots h = omega (arith, count_mono q (λ _. true) slots (λ s _. refl))

first_row-Ok :
    (candidate : Text) (release : ℕ) (slots : List Slot)
    → count_where (λ _. true) slots ≡ 0
    → Ok (first_row candidate release) slots
first_row-Ok candidate release slots h = record {
  keyed = λ g m. omega (arith, count_none (is_slot g m) slots h);
  exposure = omega (arith, count_none (in_state 1 is_exposed) slots h);
  latest = count_none (is_later 1) slots h;
  clean = λ _. count_none (in_state 1 is_failed) slots h;
  canary = λ p. absurd (omega arith);
}

later_mono : (g : ℕ) (s : Slot) → is_later (g + 1) s ≡ true → is_later g s ≡ true
unfolding is_later
later_mono g s h = ground arith

later_of_next :
    (g : ℕ) (p : SlotState → Bool) (s : Slot) → in_state (g + 1) p s ≡ true → is_later g s ≡ true
unfolding is_later in_state
later_of_next g p s h = ground arith

next_row-Ok :
    (candidate : Text) (release : ℕ) (st : PlatformRow) (slots : List Slot)
    → Ok st slots
    → Ok (next_row candidate release st) slots
next_row-Ok candidate release st slots v = record {
  keyed = v.keyed;
  exposure = omega (arith, none_later is_exposed);
  latest = omega (
    arith,
    v.latest,
    count_mono (is_later (st.generation + 1)) (is_later st.generation) slots
        (later_mono st.generation),
  );
  clean = λ _. none_later is_failed;
  canary = λ p. absurd (omega arith);
}
  where
    none_later : (p : SlotState → Bool) → count_where (in_state (st.generation + 1) p) slots ≡ 0
    none_later p = omega (
      arith,
      v.latest,
      count_mono (in_state (st.generation + 1) p) (is_later st.generation) slots
          (later_of_next st.generation p),
    )

pub load_row-Ok :
    (candidate : Text) (release : ℕ) (row : Option PlatformRow) (slots : List Slot)
    → RowOk row slots
    → Ok (load_row candidate release row) slots
unfolding load_row
load_row-Ok candidate release none slots v = first_row-Ok candidate release slots v
load_row-Ok candidate release (some st) slots v =
    elim (Bool-cases (text_eq st.candidate candidate)) [
      | inl same ↦ rw same v
      | inr other ↦ rw other (next_row-Ok candidate release st slots v)
    ]
