-- ===== src/Rollout/Reserving.antt =====
-- hub/agent_rollout.go: reserve, releaseBeforeSend, markOffered, observeRunningCandidate,
-- withhold and reconcileAfterRestart keep the invariant.
use blox_os.Base.{
  ℕ, ◌+◌, ◌≤◌, ◌≡◌, refl, Bool, true, not, Option, none, some, List, [], ◌∷◌, arith, ltb, leb,
  Bool-cases, inl, inr,
}
use blox_os.Base.Text.{Text, is_empty}
use blox_os.Base.Table.{
  count_where, find_where, update_where, delete_where, count-update_le, count-delete_le,
  count_of_find-none, count_of_find, count_self-delete, count_never,
}
use blox_os.Rollout.Tables.{
  Slot, SlotState, reserved, offered, observed, healthy, failed, withheld, Status, active, halted,
  PlatformRow, unconfirmed, resend_exhausted, Tables, rollout_capacity, is_healthy, is_failed,
  is_live, is_slot, in_state, find_slot, load_row, load_platform, max_resends,
}
use blox_os.Rollout.Reserve.{
  Reservation, admit, recover, reserve_in_state, reserve_slot, reserve_active, reserve, holds,
  release_before_send, mark_offered, observe_running_candidate, withhold_slot, withhold,
}
use blox_os.Rollout.Progress.{at_stage, reconcile_after_restart}
use blox_os.Rollout.Invariant.{Ok, RowOk, IsValid, is_exposed, load_row-Ok}
use blox_os.Rollout.Updates.{Keeps, update-Ok, delete-Ok, insert-Ok}
use blox_os.Rollout.Failing.{tables, is_settled, fail_slot-IsValid}

exposed_split :
    (g : ℕ) (l : List Slot)
    → count_where (in_state g is_exposed) l
      ≤ count_where (in_state g is_live) l + count_where (in_state g is_failed) l
unfolding count_where in_state
exposed_split g [] = omega arith
exposed_split g (s ∷ l) = ground (arith, exposed_split g l)

-- While the platform is active nothing has failed, so what is exposed is outstanding.
exposed_of_active :
    (st : PlatformRow) (slots : List Slot)
    → st.status ≡ active
    → Ok st slots
    → count_where (in_state st.generation is_exposed) slots
      ≤ count_where (in_state st.generation is_live) slots
exposed_of_active st slots a v = omega (arith, v.clean a, exposed_split st.generation slots)

admit-IsValid :
    (now : ℕ) (st : PlatformRow) (m : Text) (slots : List Slot)
    → st.status ≡ active
    → count_where (is_slot st.generation m) slots ≡ 0
    → Ok st slots
    → IsValid (admit now st m (tables st slots)).0
unfolding admit
admit-IsValid now st m slots a absent v =
    elim (Bool-cases
      (leb (rollout_capacity st.stage) (count_where (in_state st.generation is_live) slots))) [
        | inl full ↦ rw full v
        | inr room ↦ rw room (
            insert-Ok _ st slots refl absent refl
              (unfold count_where in_state in ground (arith, exposed_of_active st slots a v)) v)
      ]

-- A rewriting that leaves the state alone.
same_state-Keeps :
    (p : Slot → Bool) (f : Slot → Slot)
    → ((s : Slot) → (f s).generation ≡ s.generation)
    → ((s : Slot) → (f s).machine_id ≡ s.machine_id)
    → ((s : Slot) → (f s).stage ≡ s.stage)
    → ((s : Slot) → (f s).state ≡ s.state)
    → Keeps p f
same_state-Keeps p f gen mach stage state = record {
  generation = gen;
  machine = mach;
  stage = stage;
  exposed = λ s h e. rw state at e;
  proven = λ s h e. rw state e;
}

recover-IsValid :
    (now : ℕ) (st : PlatformRow) (m : Text) (slot : Slot) (slots : List Slot)
    → count_where (is_settled st.generation m) slots ≡ 0
    → Ok st slots
    → IsValid (recover now st m slot (tables st slots)).0
unfolding recover
recover-IsValid now st m slot slots unsettled v = elim (Bool-cases (ltb slot.deadline_ms now)) [
  | inl late ↦ rw late (fail_slot-IsValid st m unconfirmed slots unsettled v)
  | inr early ↦ rw early (elim (Bool-cases (leb max_resends slot.resend_count)) [
    | inl spent ↦ rw spent (fail_slot-IsValid st m resend_exhausted slots unsettled v)
    | inr left ↦ rw left (
        update-Ok _ _ slots st
          (same_state-Keeps _ _ (λ s. refl) (λ s. refl) (λ s. refl) (λ s. refl)) (λ s h e. e) v)
  ])
]

module _ (now : ℕ) (st : PlatformRow) (m : Text) (slot : Slot) (slots : List Slot) where
  reserve_in_state-IsValid :
      (state : SlotState)
      → slot.state ≡ state
      → find_where (is_slot st.generation m) slots ≡ some slot
      → st.status ≡ active
      → Ok st slots
      → IsValid (reserve_in_state now st m slot state (tables st slots)).0
  unfolding reserve_in_state
  reserve_in_state-IsValid healthy e found a v = v
  reserve_in_state-IsValid failed e found a v = v
  reserve_in_state-IsValid offered e found a v = v
  reserve_in_state-IsValid observed e found a v = v
  reserve_in_state-IsValid withheld e found a v =
      admit-IsValid now st m (delete_where (is_slot st.generation m) slots) a
        (count_self-delete (is_slot st.generation m) slots)
        (delete-Ok (is_slot st.generation m) st slots
          (count_of_find (is_slot st.generation m) (at_stage st.generation 0 is_healthy) slots slot
            found (v.keyed st.generation m) (unfold at_stage in ground arith))
          v)
  reserve_in_state-IsValid reserved e found a v =
      recover-IsValid now st m slot slots
        (unfold is_settled in
          count_of_find (is_slot st.generation m) (λ s. not (is_exposed s.state)) slots slot found
            (v.keyed st.generation m) (ground arith))
        v

reserve_slot-IsValid :
    (now : ℕ) (st : PlatformRow) (m : Text) (found : Option Slot) (slots : List Slot)
    → find_where (is_slot st.generation m) slots ≡ found
    → st.status ≡ active
    → Ok st slots
    → IsValid (reserve_slot now st m found (tables st slots)).0
unfolding reserve_slot
reserve_slot-IsValid now st m none slots e a v =
    admit-IsValid now st m slots a (count_of_find-none (is_slot st.generation m) slots e) v
reserve_slot-IsValid now st m (some slot) slots e a v =
    reserve_in_state-IsValid now st m slot slots slot.state refl e a v

reserve_active-IsValid :
    (now : ℕ) (st : PlatformRow) (m : Text) (status : Status) (slots : List Slot)
    → st.status ≡ status
    → Ok st slots
    → IsValid (reserve_active now st m status (tables st slots)).0
unfolding reserve_active find_slot
reserve_active-IsValid now st m halted slots e v = v
reserve_active-IsValid now st m active slots e v =
    reserve_slot-IsValid now st m (find_where (is_slot st.generation m) slots) slots refl e v

-- A reservation keeps the invariant on every branch: granted, resent, refused or expired.
pub reserve-IsValid :
    (now : ℕ) (m candidate : Text) (release : ℕ) (db : Tables)
    → IsValid db
    → IsValid (reserve now m candidate release db).0
unfolding reserve load_platform
reserve-IsValid now m candidate release db v = elim (Bool-cases (is_empty candidate)) [
  | inl nothing ↦ rw nothing v
  | inr given ↦ rw given (
      reserve_active-IsValid now st m st.status db.slots refl
        (load_row-Ok candidate release db.row db.slots v))
]
  where
    st : PlatformRow
    st = load_row candidate release db.row

-- A statement on the slots alone keeps the invariant if it keeps `Ok` for every row.
slots-IsValid :
    (f : List Slot → List Slot) (row : Option PlatformRow) (slots : List Slot)
    → ((st : PlatformRow) → Ok st slots → Ok st (f slots))
    → (count_where (λ _. true) slots ≡ 0 → count_where (λ _. true) (f slots) ≡ 0)
    → RowOk row slots
    → RowOk row (f slots)
slots-IsValid f none slots keep empty v = empty v
slots-IsValid f (some st) slots keep empty v = keep st v

update-IsValid :
    (p : Slot → Bool) (f : Slot → Slot) (db : Tables)
    → Keeps p f
    → ((s : Slot) → p s ≡ true → is_failed (f s).state ≡ true → is_failed s.state ≡ true)
    → IsValid db
    → IsValid (record db { slots = update_where p f db.slots })
update-IsValid p f db keeps fails v =
    slots-IsValid (update_where p f) db.row db.slots (λ st. update-Ok p f db.slots st keeps fails)
      (λ e. omega (arith, count-update_le (λ _. true) p f db.slots (λ s h k. refl))) v

-- Giving a reservation back keeps the invariant.
pub release_before_send-IsValid :
    (r : Reservation) (db : Tables) → IsValid db → IsValid (release_before_send r db)
unfolding release_before_send
release_before_send-IsValid r db v =
    slots-IsValid (delete_where (holds r)) db.row db.slots
      (λ st.
        delete-Ok (holds r) st db.slots
          (count_never _ db.slots (λ s. unfold holds at_stage is_slot in ground arith)))
      (λ e. omega (arith, count-delete_le (λ _. true) (holds r) db.slots)) v

pub mark_offered-IsValid :
    (now : ℕ) (r : Reservation) (db : Tables) → IsValid db → IsValid (mark_offered now r db)
unfolding mark_offered
mark_offered-IsValid now r db v =
    update-IsValid _ _ db
      (record {
        generation = λ s. refl;
        machine = λ s. refl;
        stage = λ s. refl;
        exposed = λ s h e. unfold holds in ground arith;
        proven = λ s h e. unfold holds in ground arith;
      })
      (λ s h e. cc) v

pub observe_running_candidate-IsValid :
    (g : ℕ) (m : Text) (db : Tables) → IsValid db → IsValid (observe_running_candidate g m db)
unfolding observe_running_candidate
observe_running_candidate-IsValid g m db v =
    update-IsValid _ _ db
      (record {
        generation = λ s. refl;
        machine = λ s. refl;
        stage = λ s. refl;
        exposed = λ s h e. ground arith;
        proven = λ s h e. ground arith;
      })
      (λ s h e. cc) v

pub reconcile-IsValid :
    (now : ℕ) (db : Tables) → IsValid db → IsValid (reconcile_after_restart now db)
unfolding reconcile_after_restart
reconcile-IsValid now db v =
    update-IsValid _ _ db (same_state-Keeps _ _ (λ s. refl) (λ s. refl) (λ s. refl) (λ s. refl))
      (λ s h e. e) v

withhold_slot-Ok :
    (now : ℕ) (st : PlatformRow) (m why : Text) (found : Option Slot) (slots : List Slot)
    → find_where (is_slot st.generation m) slots ≡ found
    → Ok st slots
    → Ok st (withhold_slot now st m why found slots)
unfolding withhold_slot
withhold_slot-Ok now st m why none slots e v =
    insert-Ok _ st slots refl (count_of_find-none (is_slot st.generation m) slots e) refl
      (unfold count_where in_state in ground (arith, v.exposure)) v
withhold_slot-Ok now st m why (some slot) slots e v =
    update-Ok _ _ slots st
      (record {
        generation = λ s. refl;
        machine = λ s. refl;
        stage = λ s. refl;
        exposed = λ s h k. cc;
        proven = λ s h k. ground arith;
      })
      (λ s h k. cc) v

-- Withholding a machine keeps the invariant.
pub withhold-IsValid :
    (now : ℕ) (m candidate : Text) (release : ℕ) (why : Text) (db : Tables)
    → IsValid db
    → IsValid (withhold now m candidate release why db)
unfolding withhold load_platform find_slot
withhold-IsValid now m candidate release why db v =
    withhold_slot-Ok now (load_row candidate release db.row) m why _ db.slots refl
      (load_row-Ok candidate release db.row db.slots v)
