-- ===== src/Rollout/Updates.antt =====
-- hub/agent_rollout.go: statements that rewrite, insert or delete slots, against the invariant.
use blox_os.Base.{ℕ, ◌≤◌, ◌≡◌, Bool, true, false, ◌&&◌, List, ◌∷◌, arith, Bool-cases, inl, inr}
use blox_os.Base.Text.{Text, eq_of_text_eq}
use blox_os.Base.Table.{
  count_where, update_where, delete_where, count-update_le, count-update_ge, count-delete_le,
  count-delete_ge,
}
use blox_os.Rollout.Tables.{
  Slot, SlotState, PlatformRow, rollout_capacity, is_healthy, is_failed, is_slot, in_state,
}
use blox_os.Rollout.Progress.{at_stage}
use blox_os.Rollout.Invariant.{Ok, is_exposed, is_later}

-- A rewriting of the slots that pass `p`: it keeps their keys and stages, exposes nothing that
-- was not exposed, and unproves nothing.
pub record Keeps (p : Slot → Bool) (f : Slot → Slot) : Type 0 where
  pub generation : (s : Slot) → (f s).generation ≡ s.generation
  pub machine : (s : Slot) → (f s).machine_id ≡ s.machine_id
  pub stage : (s : Slot) → (f s).stage ≡ s.stage
  pub exposed : (s : Slot) → p s ≡ true → is_exposed (f s).state ≡ true → is_exposed s.state ≡ true
  pub proven : (s : Slot) → p s ≡ true → is_healthy s.state ≡ true → is_healthy (f s).state ≡ true

module _ (p : Slot → Bool) (f : Slot → Slot) (slots : List Slot) where
  pub keyed-update :
      ((s : Slot) → (f s).generation ≡ s.generation)
      → ((s : Slot) → (f s).machine_id ≡ s.machine_id)
      → (g : ℕ) (m : Text)
      → count_where (is_slot g m) (update_where p f slots) ≤ count_where (is_slot g m) slots
  unfolding is_slot
  keyed-update gen mach g m =
      count-update_le (is_slot g m) p f slots (λ s _ h. ground (arith, gen s, mach s))

  pub latest-update :
      ((s : Slot) → (f s).generation ≡ s.generation)
      → (g : ℕ) → count_where (is_later g) (update_where p f slots) ≤ count_where (is_later g) slots
  unfolding is_later
  latest-update gen g = count-update_le (is_later g) p f slots (λ s _ h. ground (arith, gen s))

  pub in_state-update :
      (q : SlotState → Bool) (g : ℕ)
      → ((s : Slot) → (f s).generation ≡ s.generation)
      → ((s : Slot) → p s ≡ true → q (f s).state ≡ true → q s.state ≡ true)
      → count_where (in_state g q) (update_where p f slots) ≤ count_where (in_state g q) slots
  unfolding in_state
  in_state-update q g gen keep =
      count-update_le (in_state g q) p f slots (λ s hp h. ground (arith, gen s, keep s hp))

  pub healthy-update :
      (g : ℕ)
      → Keeps p f
      → count_where (at_stage g 0 is_healthy) slots
        ≤ count_where (at_stage g 0 is_healthy) (update_where p f slots)
  unfolding at_stage
  healthy-update g k =
      count-update_ge (at_stage g 0 is_healthy) p f slots
        (λ s hp h. ground (arith, k.generation s, k.stage s, k.proven s hp))

  pub update-Ok :
      (st : PlatformRow)
      → Keeps p f
      → ((s : Slot) → p s ≡ true → is_failed (f s).state ≡ true → is_failed s.state ≡ true)
      → Ok st slots
      → Ok st (update_where p f slots)
  update-Ok st k fails v = record {
    keyed = λ g m. omega (arith, keyed-update k.generation k.machine g m, v.keyed g m);
    exposure =
        omega (arith, in_state-update is_exposed st.generation k.generation k.exposed, v.exposure);
    latest = omega (arith, latest-update k.generation st.generation, v.latest);
    clean =
        λ a. omega (arith, in_state-update is_failed st.generation k.generation fails, v.clean a);
    canary = λ h. omega (arith, healthy-update st.generation k, v.canary h);
  }

-- What is deleted was not healthy.
pub delete-Ok :
    (p : Slot → Bool) (st : PlatformRow) (slots : List Slot)
    → count_where (λ s. p s && at_stage st.generation 0 is_healthy s) slots ≡ 0
    → Ok st slots
    → Ok st (delete_where p slots)
delete-Ok p st slots unproven v = record {
  keyed = λ g m. omega (arith, count-delete_le (is_slot g m) p slots, v.keyed g m);
  exposure = omega (arith, count-delete_le (in_state st.generation is_exposed) p slots, v.exposure);
  latest = omega (arith, count-delete_le (is_later st.generation) p slots, v.latest);
  clean = λ a. omega (arith, count-delete_le (in_state st.generation is_failed) p slots, v.clean a);
  canary = λ h.
      omega (
        arith,
        count-delete_ge (at_stage st.generation 0 is_healthy) p slots,
        unproven,
        v.canary h,
      );
}

keyed-insert :
    (s : Slot) (slots : List Slot)
    → count_where (is_slot s.generation s.machine_id) slots ≡ 0
    → ((g : ℕ) (m : Text) → count_where (is_slot g m) slots ≤ 1)
    → (g : ℕ) (m : Text) → count_where (is_slot g m) (s ∷ slots) ≤ 1
unfolding count_where
keyed-insert s slots absent keyed g m = elim (Bool-cases (is_slot g m s)) [
  | inl here ↦ unfold is_slot in ground (arith, keyed g m, eq_of_text_eq s.machine_id m)
  | inr there ↦ rw there (omega (arith, keyed g m))
]

-- A new slot of this generation: it takes room if it is exposed, and it has not failed.
pub insert-Ok :
    (s : Slot) (st : PlatformRow) (slots : List Slot)
    → s.generation ≡ st.generation
    → count_where (is_slot s.generation s.machine_id) slots ≡ 0
    → is_failed s.state ≡ false
    → count_where (in_state st.generation is_exposed) (s ∷ slots) ≤ rollout_capacity st.stage
    → Ok st slots
    → Ok st (s ∷ slots)
unfolding count_where
insert-Ok s st slots gen absent alive room v = record {
  keyed = keyed-insert s slots absent v.keyed;
  exposure = room;
  latest = unfold is_later in ground (arith, v.latest);
  clean = λ a. unfold in_state in ground (arith, v.clean a);
  canary = λ h. omega (arith, v.canary h);
}
