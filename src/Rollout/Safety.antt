-- ===== src/Rollout/Safety.antt =====
-- hub/agent_rollout.go: the blast radius of a candidate, in every state that the controller reaches.
use blox_os.Base.{◌⊎◌, ◌≤◌, ◌<◌, ◌≡◌, refl, true, some, arith}
use blox_os.Base.Text.{Text}
use blox_os.Base.Table.{count_where, find_where, find_of_count, count_of_found, find_holds}
use blox_os.Rollout.Tables.{
  Slot, Status, active, halted, failed, PlatformRow, Tables, empty_tables, rollout_capacity,
  is_healthy, is_failed, is_slot, in_state, find_slot,
}
use blox_os.Rollout.Progress.{at_stage}
use blox_os.Rollout.Invariant.{is_exposed}
use blox_os.Rollout.Reach.{Reach, Ok-of_Reach}

-- In every state that the controller reaches from empty tables, by any operations in any order:
-- the slots of the current generation that are outstanding or failed never exceed the capacity of
-- its stage; they are one machine at most, or the stage is past the canary's; two at most ever.
pub Reach-exposure :
    {db : Tables} (st : PlatformRow)
    → Reach empty_tables db
    → db.row ≡ some st
    → (count_where (in_state st.generation is_exposed) db.slots ≤ rollout_capacity st.stage)
      × ((count_where (in_state st.generation is_exposed) db.slots ≤ 1) ⊎ (0 < st.stage))
      × (count_where (in_state st.generation is_exposed) db.slots ≤ 2)
unfolding rollout_capacity
Reach-exposure st r e =
    let v = Ok-of_Reach st r e in
    (v.exposure, ground (arith, v.exposure), ground (arith, v.exposure))

-- In every state that the controller reaches, a generation that is past stage 0 has a slot of
-- stage 0 that is healthy: no batch is offered before a canary of this candidate has been validated.
pub Reach-canary :
    {db : Tables} (st : PlatformRow)
    → Reach empty_tables db
    → db.row ≡ some st
    → 0 < st.stage
    → (s : Slot) × (find_where (at_stage st.generation 0 is_healthy) db.slots ≡ some s)
      × (at_stage st.generation 0 is_healthy s ≡ true)
Reach-canary {db} st r e past =
    find_of_count (at_stage st.generation 0 is_healthy) db.slots ((Ok-of_Reach st r e).canary past)

-- In every state that the controller reaches, if any slot of the current generation has failed,
-- the platform is halted.
pub Reach-failed_halts :
    {db : Tables} (st : PlatformRow) (m : Text) (s : Slot)
    → Reach empty_tables db
    → db.row ≡ some st
    → find_slot st.generation m db ≡ some s
    → s.state ≡ failed
    → st.status ≡ halted
unfolding find_slot
Reach-failed_halts {db} st m s r e found bad = status_cases st.status refl
  where
    fails : in_state st.generation is_failed s ≡ true
    fails =
        unfold in_state is_slot in
        ground (arith, find_holds (is_slot st.generation m) db.slots s found)

    status_cases : (status : Status) → st.status ≡ status → status ≡ halted
    status_cases halted h = refl
    status_cases active h = absurd (
        omega (
          arith,
          (Ok-of_Reach st r e).clean h,
          count_of_found (is_slot st.generation m) (in_state st.generation is_failed) db.slots s
              found fails,
        ))
