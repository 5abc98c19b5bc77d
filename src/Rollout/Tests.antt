-- ===== src/Rollout/Tests.antt =====
-- hub/agent_rollout.go: the rollout of one candidate to a canary and then on, run step by step.
use blox_os.Base.{
  ℕ, ◌-◌, ◌≤◌, ◌<◌, ◌≡◌, ◌⊎◌, refl, ap, Bool, true, false, Option, none, some, List, [], ◌∷◌, arith,
  if◌then◌else◌,
}
use blox_os.Base.Text.{Text, codes, text_eq, lower, to_lower, equal_fold, is_empty}
use blox_os.Base.Table.{count_where, find_where, update_where, select_where}
use blox_os.Rollout.Tables.{
  Slot, offered, healthy, failed, no_reason, active, halted, not_proven, PlatformRow, Tables,
  empty_tables, rollout_capacity, dwell_ms, telemetry_gap_ms, is_healthy, is_slot, in_state,
  find_slot, load_row, load_platform, fail_slot,
}
use blox_os.Rollout.Reserve.{
  Reservation, wait, admit, reserve_slot, reserve_active, reserve, holds, mark_offered,
  observe_running_candidate,
}
use blox_os.Rollout.Progress.{promote, at_stage, tick, reconcile_after_restart}
use blox_os.Rollout.Invariant.{is_exposed}
use blox_os.Rollout.Failing.{tables}
use blox_os.Rollout.Reach.{Reach, here, next, reserving, offering, observing, ticking}
use blox_os.Rollout.Safety.{Reach-exposure, Reach-canary, Reach-failed_halts}
use blox_os.Rollout.Forward.{Forward, Reach-Forward}
use blox_os.Rollout.Evidence.{judge_proof, dwell_satisfied, proven, not_reported}
use blox_os.Rollout.Dwell.{Event, report, metrics, note_event, after, Covered, dwell_sound}
use blox_os.Rollout.Completing.{Streak, begin, carry_on, dwell_completes}
use blox_os.Rollout.Deliveries.{
  Delivery, reporting, measuring, forgetting, deliver, gathered, events_of, dwell_satisfied_sound,
}
use blox_os.Rollout.Promotion.{verdict, controller_tick, Earned, controller_tick_sound}
use blox_os.Rollout.Sending.{Claims}
use blox_os.Rollout.Report.{RolloutStatus, blank, rollout_status, rollout_summary, needs_operator}

abbrev rig : Text
rig = codes "rig-1"

abbrev other_rig : Text
other_rig = codes "rig-2"

abbrev build : Text
build = codes "c0ffee"

abbrev first_reservation : Reservation
first_reservation = record {
  generation = 1;
  machine_id = rig;
  stage = 0;
  attempt = 1;
  resend = false;
}

abbrev proves : Text → Bool
proves m = text_eq m rig

abbrev after_reserve : Tables
after_reserve = (reserve 0 rig build 7 empty_tables).0

abbrev after_offer : Tables
after_offer = mark_offered 10 first_reservation after_reserve

abbrev after_observe : Tables
after_observe = observe_running_candidate 1 rig after_offer

abbrev after_tick : Tables
after_tick = tick proves 70000 after_observe

abbrev after_expiry : Tables
after_expiry = tick (λ m. false) 600001 after_offer

abbrev canary_row : ℕ → PlatformRow
canary_row stage = record {
  generation = 1;
  candidate = build;
  release = 7;
  stage = stage;
  status = active;
  halt_reason = none;
}

abbrev offered_slot : Slot
offered_slot = record {
  generation = 1;
  machine_id = rig;
  stage = 0;
  attempt = 1;
  state = offered;
  reserved_ms = 0;
  offered_ms = some 10;
  deadline_ms = 600000;
  reason = no_reason;
  grace_used = false;
  resend_count = 0;
  ran_candidate = false;
}

abbrev failed_row : PlatformRow
failed_row = record (canary_row 0) { status = halted; halt_reason = some (rig, not_proven) }

abbrev failed_slot : Slot
failed_slot = record offered_slot { state = failed; reason = not_proven }

Reach-offer : Reach empty_tables after_offer
Reach-offer = next (next here (reserving 0 rig build 7)) (offering 10 first_reservation)

Reach-tick : Reach empty_tables after_tick
Reach-tick = next (next Reach-offer (observing 1 rig)) (ticking proves 70000)

Reach-expiry : Reach empty_tables after_expiry
Reach-expiry = next Reach-offer (ticking (λ m. false) 600001)

offer-tables : after_offer ≡ tables (canary_row 0) (offered_slot ∷ [])
unfolding reserve load_platform load_row reserve_active find_slot find_where is_slot reserve_slot
    admit rollout_capacity count_where in_state mark_offered holds update_where is_empty text_eq
offer-tables = refl

tick-row : after_tick.row ≡ some (canary_row 1)
unfolding tick observe_running_candidate mark_offered reserve is_empty find_slot find_where
    rollout_capacity count_where select_where update_where in_state holds text_eq at_stage
tick-row = refl

expiry-tables : after_expiry ≡ tables failed_row (failed_slot ∷ [])
unfolding tick mark_offered reserve is_empty find_slot find_where rollout_capacity count_where
    select_where update_where in_state holds text_eq fail_slot
expiry-tables = refl

expiry-row : after_expiry.row ≡ some failed_row
expiry-row = ap (λ db. db.row) expiry-tables

expiry-slot : find_slot 1 rig after_expiry ≡ some failed_slot
unfolding find_slot find_where tick mark_offered reserve is_empty rollout_capacity count_where
    select_where update_where in_state holds text_eq fail_slot
expiry-slot = refl

-- While the canary is on its way no second machine gets the candidate.
second-waits : (reserve 20 other_rig build 7 after_offer).1 ≡ wait
unfolding reserve is_empty mark_offered find_slot find_where rollout_capacity count_where text_eq
    update_where holds in_state
second-waits = refl

-- A second candidate starts over at the canary stage of a later generation.
superseded : (load_platform (codes "beef") 8 after_tick).1.stage ≡ 0
unfolding load_platform tick observe_running_candidate mark_offered reserve is_empty find_slot
    find_where rollout_capacity count_where select_where update_where in_state holds text_eq
    at_stage
superseded = refl

Reach-exposure_example :
    (count_where (in_state 1 is_exposed) after_expiry.slots ≤ rollout_capacity 0)
    × ((count_where (in_state 1 is_exposed) after_expiry.slots ≤ 1) ⊎ (0 < 0))
    × (count_where (in_state 1 is_exposed) after_expiry.slots ≤ 2)
Reach-exposure_example = Reach-exposure failed_row Reach-expiry expiry-row

Reach-canary_example :
    (s : Slot) × (find_where (at_stage 1 0 is_healthy) after_tick.slots ≡ some s)
    × (at_stage 1 0 is_healthy s ≡ true)
Reach-canary_example = Reach-canary (canary_row 1) Reach-tick tick-row (omega arith)

Reach-failed_halts_example : halted ≡ halted
Reach-failed_halts_example =
    Reach-failed_halts failed_row rig failed_slot Reach-expiry expiry-row expiry-slot refl

-- The canary's promotion moves the stage from 0 to 1.
Reach-promotion : Reach after_offer after_tick
Reach-promotion = next (next here (observing 1 rig)) (ticking proves 70000)

Reach-Forward_example : Forward (some (canary_row 0)) (some (canary_row 1))
unfolding mark_offered reserve is_empty find_slot find_where rollout_capacity count_where tick
    observe_running_candidate select_where update_where in_state holds text_eq at_stage
Reach-Forward_example = Reach-Forward Reach-promotion

-- Frames every 30 s after one report: 0, 30 and 60 s.
abbrev frames : List Event
frames = metrics 60000 ∷ metrics 30000 ∷ metrics 0 ∷ report 1 build build ∷ []

frames-proven : judge_proof 61000 1 build (some (after frames)) ≡ proven
unfolding judge_proof after note_event equal_fold text_eq lower to_lower
frames-proven = refl

dwell_sound_example :
    (n : ℕ) × (s : ℕ) × (l : ℕ) × Covered 1 build n frames s l
    × (3 ≤ n)
    × (dwell_ms ≤ l - s)
    × (61000 - l ≤ telemetry_gap_ms)
dwell_sound_example = dwell_sound 61000 1 build frames frames-proven

same_build : equal_fold build build ≡ true
unfolding equal_fold text_eq lower to_lower
same_build = refl

frames-Streak : Streak 1 build frames 0 60000
frames-Streak =
    carry_on 60000 (carry_on 30000 (begin build 0 same_build) (omega arith)) (omega arith)

dwell_completes_example : judge_proof 61000 1 build (some (after frames)) ≡ proven
dwell_completes_example =
    dwell_completes 61000 1 build frames frames-Streak (omega arith) (omega arith)

-- Another connection of the machine reports another build meanwhile.
abbrev deliveries : List Delivery
deliveries =
    measuring 60000 rig (some 3)
    ∷ reporting rig (some 4) 1 (codes "0ld") build
    ∷ measuring 30000 rig (some 3)
    ∷ measuring 0 rig (some 3)
    ∷ reporting rig (some 3) 1 build build
    ∷ forgetting rig none
    ∷ []

satisfied : dwell_satisfied 61000 1 build (some 3) rig (gathered deliveries) ≡ proven
unfolding dwell_satisfied gathered deliver text_eq is_empty equal_fold lower to_lower
satisfied = refl

-- The registry holds the other connection: what the old one proved does not count.
taken_over : dwell_satisfied 61000 1 build (some 4) rig (gathered deliveries) ≡ not_reported
unfolding dwell_satisfied gathered deliver text_eq is_empty equal_fold lower to_lower
taken_over = refl

dwell_satisfied_sound_example :
    (conn : ℕ) × (some 3 ≡ some conn)
    × (n : ℕ) × (s : ℕ) × (l : ℕ) × Covered 1 build n (events_of rig conn deliveries) s l
    × (3 ≤ n)
    × (dwell_ms ≤ l - s)
    × (61000 - l ≤ telemetry_gap_ms)
dwell_satisfied_sound_example =
    dwell_satisfied_sound 61000 1 build (some 3) rig deliveries satisfied

abbrev owners : Text → Option ℕ
owners m = if text_eq m rig then some 3 else none

abbrev promoted_slot : Slot
promoted_slot = record offered_slot { state = healthy }

promotion :
    find_slot 1 rig (controller_tick 61000 owners (gathered deliveries) after_offer)
    ≡ some promoted_slot
unfolding find_slot find_where controller_tick tick mark_offered reserve is_empty rollout_capacity
    count_where select_where update_where in_state holds text_eq verdict dwell_satisfied gathered
    equal_fold lower to_lower deliver promote is_slot at_stage
promotion = refl

controller_tick_sound_example :
    (s : Slot) × (find_slot 1 rig after_offer ≡ some s)
    × ((s.state ≡ healthy) ⊎ Earned 61000 owners deliveries rig after_offer)
controller_tick_sound_example =
    controller_tick_sound 61000 owners deliveries 1 rig after_offer promoted_slot promotion refl

abbrev graced_slot : Slot
graced_slot = record offered_slot { deadline_ms = 800000; grace_used = true }

graced : find_slot 1 rig (reconcile_after_restart 500000 after_offer) ≡ some graced_slot
unfolding find_slot find_where reconcile_after_restart update_where mark_offered reserve is_empty
    rollout_capacity count_where holds text_eq
graced = refl

failed_found : find_slot 1 rig (tables failed_row (failed_slot ∷ [])) ≡ some failed_slot
unfolding find_slot find_where text_eq
failed_found = refl

abbrev no_claims : Claims
no_claims g m a = false

abbrev shown : RolloutStatus
shown = record (blank failed_row) { failed_count = 1; failed_reason = (rig, not_proven) ∷ [] }

expiry-status : rollout_status (tables failed_row (failed_slot ∷ [])) ≡ some shown
unfolding rollout_status select_where
expiry-status = refl

expiry-summary : rollout_summary shown ≡ needs_operator (some (rig, not_proven))
unfolding rollout_summary
expiry-summary = refl
