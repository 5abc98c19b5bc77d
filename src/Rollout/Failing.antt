-- ===== src/Rollout/Failing.antt =====
-- hub/agent_rollout.go: failSlotTx, and the rows that a tick visits, against the invariant.
use blox_os.Base.{
  ℕ, ◌+◌, ◌≤◌, ◌≡◌, refl, Bool, true, false, ◌&&◌, not, some, List, ◌∷◌, arith, ◌==◌, Bool-cases,
  inl, inr,
}
use blox_os.Base.Text.{Text, text_eq, text_eq_refl, eq_of_text_eq}
use blox_os.Base.Table.{
  count_where, update_where, select_where, count_mono, count-update_le, count-update_upper,
  count-update_lower, count-disjoint, count-select,
}
use blox_os.Rollout.Tables.{
  Slot, healthy, failed, halted, PlatformRow, Reason, no_reason, Tables, is_healthy, is_live,
  is_slot, in_state, fail_slot,
}
use blox_os.Rollout.Progress.{at_stage}
use blox_os.Rollout.Invariant.{Ok, IsValid, is_exposed}
use blox_os.Rollout.Updates.{Keeps, keyed-update, latest-update}

-- The slot of a machine that can no longer fail or be sent to.
unfoldable pub is_settled : ℕ → Text → Slot → Bool
is_settled g m s = is_slot g m s && not (is_exposed s.state)

abbrev pub tables : PlatformRow → List Slot → Tables
tables st slots = record { row = some st; slots = slots }

abbrev halt : PlatformRow → Text → Reason → PlatformRow
halt st m why = record st { status = halted; halt_reason = some (m, why) }

module _ (g : ℕ) (m : Text) (s : Slot) where
  exposed_or_settled :
      (is_slot g m s && not (in_state g is_exposed s)) ≡ true → is_settled g m s ≡ true
  unfolding is_slot in_state is_settled
  exposed_or_settled h = ground arith

  healthy_settled : (is_slot g m s && at_stage g 0 is_healthy s) ≡ true → is_settled g m s ≡ true
  unfolding is_slot at_stage is_settled
  healthy_settled h = ground arith

fail-Ok :
    (st : PlatformRow) (m : Text) (why : Reason) (slots : List Slot)
    → count_where (is_settled st.generation m) slots ≡ 0
    → Ok st slots
    → Ok (halt st m why) (
        update_where
          (is_slot st.generation m)
          (λ s. record s { state = failed; reason = why })
          slots)
fail-Ok st m why slots unsettled v = record {
  keyed = λ g n. omega (arith, keyed-update p f slots (λ s. refl) (λ s. refl) g n, v.keyed g n);
  exposure = omega (
    arith,
    count-update_upper (in_state gen is_exposed) p f slots,
    unsettled,
    v.exposure,
    count_mono (λ s. p s && not (in_state gen is_exposed s)) (is_settled gen m) slots
        (exposed_or_settled gen m),
  );
  latest = omega (arith, latest-update p f slots (λ s. refl) gen, v.latest);
  clean = λ a. cc;
  canary = λ h. omega (
    arith,
    count-update_lower (at_stage gen 0 is_healthy) p f slots,
    unsettled,
    v.canary h,
    count_mono (λ s. p s && at_stage gen 0 is_healthy s) (is_settled gen m) slots
        (healthy_settled gen m),
  );
}
  where
    gen : ℕ
    gen = st.generation

    p : Slot → Bool
    p = is_slot gen m

    f : Slot → Slot
    f s = record s { state = failed; reason = why }

pub same_generation : (n : ℕ) → (n == n) ≡ true
same_generation n = ground arith

pub fail_slot-IsValid :
    (st : PlatformRow) (m : Text) (why : Reason) (slots : List Slot)
    → count_where (is_settled st.generation m) slots ≡ 0
    → Ok st slots
    → IsValid (fail_slot st.generation m why (tables st slots))
unfolding fail_slot
fail_slot-IsValid st m why slots unsettled v =
    rw (same_generation st.generation) (fail-Ok st m why slots unsettled v)

-- The rows that a tick has still to visit are not settled, and no machine has two.
abbrev pub Visiting : ℕ → List Slot → List Slot → Type 0
Visiting g rows slots =
    (m : Text)
    → count_where (λ r. text_eq r.machine_id m) rows + count_where (is_settled g m) slots ≤ 1

pub Visiting-start :
    (st : PlatformRow) (slots : List Slot)
    → Ok st slots
    → Visiting st.generation (select_where (in_state st.generation is_live) slots) slots
Visiting-start st slots v m = omega (
  arith,
  count-select (λ r. text_eq r.machine_id m) (in_state st.generation is_live) slots,
  v.keyed st.generation m,
  count-disjoint (λ s. in_state st.generation is_live s && text_eq s.machine_id m)
      (is_settled st.generation m) (is_slot st.generation m) slots
      (λ s h. unfold is_slot in_state in ground arith)
      (λ s h. unfold is_slot in_state is_settled in ground arith),
)

pub promote-Keeps :
    (g : ℕ) (m : Text) → Keeps (is_slot g m) (λ s. record s { state = healthy; reason = no_reason })
promote-Keeps g m = record {
  generation = λ s. refl;
  machine = λ s. refl;
  stage = λ s. refl;
  exposed = λ s h e. cc;
  proven = λ s h e. refl;
}

settled_elsewhere :
    (g : ℕ) (m n : Text) (s : Slot)
    → text_eq n m ≡ false
    → is_slot g n s ≡ true
    → is_settled g m (record s { state = healthy; reason = no_reason }) ≡ true
    → is_settled g m s ≡ true
unfolding is_slot is_settled
settled_elsewhere g m n s other here h =
    ground (arith, eq_of_text_eq s.machine_id m, eq_of_text_eq s.machine_id n, text_eq_refl m)

pub Visiting-promote :
    (st : PlatformRow) (l : Slot) (ls slots : List Slot)
    → Ok st slots
    → Visiting st.generation (l ∷ ls) slots
    → Visiting st.generation ls (
        update_where
          (is_slot st.generation l.machine_id)
          (λ s. record s { state = healthy; reason = no_reason })
          slots)
unfolding count_where
Visiting-promote st l ls slots v visiting m = elim (Bool-cases (text_eq l.machine_id m)) [
  | inl here ↦ omega (
    arith,
    rw here at (visiting m),
    keyed-update p f slots (λ s. refl) (λ s. refl) gen m,
    v.keyed gen m,
    count_mono (is_settled gen m) (is_slot gen m) (update_where p f slots)
        (λ s h. unfold is_settled in ground arith),
  )
  | inr other ↦ omega (
    arith,
    rw other at (visiting m),
    count-update_le (is_settled gen m) p f slots
        (λ s. settled_elsewhere gen m l.machine_id s other),
  )
]
  where
    gen : ℕ
    gen = st.generation

    p : Slot → Bool
    p = is_slot gen l.machine_id

    f : Slot → Slot
    f s = record s { state = healthy; reason = no_reason }

pub unsettled_visited :
    (g : ℕ) (l : Slot) (ls slots : List Slot)
    → Visiting g (l ∷ ls) slots
    → count_where (is_settled g l.machine_id) slots ≡ 0
unfolding count_where
unsettled_visited g l ls slots visiting =
    omega (arith, rw (text_eq_refl l.machine_id) at (visiting l.machine_id))
