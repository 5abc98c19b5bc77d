-- ===== src/Rollout/Promotion.antt =====
-- hub/agent_rollout.go: what a tick can make healthy, with the evidence that the controller holds.
use blox_os.Base.{
  ℕ, ◌≤◌, ◌-◌, ◌≡◌, ◌⊎◌, inl, inr, refl, Bool, true, false, Option, some, none, List, [], ◌∷◌,
  arith, Bool-cases, ltb,
}
use blox_os.Base.Text.{Text, eq_of_text_eq}
use blox_os.Base.Table.{select_where, find-update_inv, find_holds}
use blox_os.Rollout.Tables.{
  Slot, Status, active, halted, healthy, failed, Reason, PlatformRow, Tables, is_live, is_slot,
  in_state, find_slot, fail_slot, dwell_ms, telemetry_gap_ms, no_reason,
}
use blox_os.Rollout.Progress.{
  promote, expiry_reason, tick_rows, advance, tick_active, tick_row, tick,
}
use blox_os.Rollout.Evidence.{Evidence, dwell_satisfied, is_proven, proven, Verdict}
use blox_os.Rollout.Dwell.{Covered}
use blox_os.Rollout.Deliveries.{Delivery, gathered, events_of, dwell_satisfied_sound}

-- The verdict that a tick asks for: on the generation and the candidate of the platform's row, and
-- on the connection that the registry holds.
unfoldable pub verdict : ℕ → (Text → Option ℕ) → Evidence → Option PlatformRow → Text → Bool
verdict now owner all none m = false
verdict now owner all (some st) m =
    is_proven (dwell_satisfied now st.generation st.candidate (owner m) m all)

unfoldable pub controller_tick : ℕ → (Text → Option ℕ) → Evidence → Tables → Tables
controller_tick now owner all db = tick (verdict now owner all db.row) now db

-- Where a healthy slot of `db'` comes from.
abbrev Origin : (Text → Bool) → ℕ → Text → Tables → Tables → Type 0
Origin ok g m db db' =
    (t : Slot)
    → find_slot g m db' ≡ some t
    → t.state ≡ healthy
    → (s : Slot) × (find_slot g m db ≡ some s) × ((s.state ≡ healthy) ⊎ (ok m ≡ true))

module _ (ok : Text → Bool) (g : ℕ) (m : Text) where
  Origin-refl : (db : Tables) → Origin ok g m db db
  Origin-refl db t found h = (t, found, inl h)

  same_machine :
      (g' : ℕ) (n : Text) (db : Tables) (s : Slot)
      → find_slot g m db ≡ some s
      → is_slot g' n s ≡ true
      → n ≡ m
  unfolding find_slot
  same_machine g' n db s found here =
      unfold is_slot in
      ground (
        arith,
        find_holds (is_slot g m) db.slots s found,
        eq_of_text_eq s.machine_id n,
        eq_of_text_eq s.machine_id m,
      )

  Origin-promote :
      (g' : ℕ) (n : Text) (db db' : Tables)
      → ok n ≡ true
      → Origin ok g m (promote g' n db) db'
      → Origin ok g m db db'
  unfolding promote find_slot is_slot
  Origin-promote g' n db db' good rest t found h =
      let (s1, found1, how) = rest t found h in
      let (s, found0, change) =
        find-update_inv (is_slot g m) (is_slot g' n)
          (λ s. record s { state = healthy; reason = no_reason }) db.slots s1 (λ s. refl) found1 in
      (
        s,
        found0,
        elim how [
          | inr proven' ↦ inr proven'
          | inl healthy' ↦ elim change [
            | inl same ↦ inl (rw (← same) healthy')
            | inr (here, e) ↦ inr (rw (← same_machine g' n db s found0 here) good)
          ]
        ],
      )

  Origin-fail :
      (g' : ℕ) (n : Text) (why : Reason) (db : Tables) → Origin ok g m db (fail_slot g' n why db)
  unfolding fail_slot find_slot is_slot
  Origin-fail g' n why db t found h =
      let (s, found0, change) =
        find-update_inv (is_slot g m) (is_slot g' n)
          (λ s. record s { state = failed; reason = why }) db.slots t (λ s. refl) found in
      (s, found0, elim change [ inl same ↦ inl (rw (← same) h) | inr (here, e) ↦ cc ])

  tick_rows-Origin :
      (now g' : ℕ) (rows : List Slot) (db : Tables)
      → Origin ok g m db (tick_rows ok now g' rows db).0
  unfolding tick_rows
  tick_rows-Origin now g' [] db = Origin-refl db
  tick_rows-Origin now g' (l ∷ ls) db = elim (Bool-cases (ok l.machine_id)) [
    | inl good ↦ rw good (
        Origin-promote g' l.machine_id db _ good
          (tick_rows-Origin now g' ls (promote g' l.machine_id db)))
    | inr not_yet ↦ rw not_yet (elim (Bool-cases (ltb l.deadline_ms now)) [
      | inl late ↦ rw late (Origin-fail g' l.machine_id (expiry_reason l.state) db)
      | inr early ↦ rw early (tick_rows-Origin now g' ls db)
    ])
  ]

  tick_active-Origin :
      (now : ℕ) (st : PlatformRow) (status : Status) (db : Tables)
      → Origin ok g m db (tick_active ok now st status db)
  unfolding tick_active advance find_slot
  tick_active-Origin now st halted db = Origin-refl db
  tick_active-Origin now st active db = elim (Bool-cases ticked.1) [
    | inl stopped ↦ rw stopped (tick_rows-Origin now st.generation _ db)
    | inr going ↦ rw going (tick_rows-Origin now st.generation _ db)
  ]
    where
      ticked : Tables × Bool
      ticked =
          tick_rows ok now st.generation (select_where (in_state st.generation is_live) db.slots) db

  tick_row-Origin :
      (now : ℕ) (row : Option PlatformRow) (db : Tables) → Origin ok g m db (tick_row ok now row db)
  unfolding tick_row
  tick_row-Origin now none db = Origin-refl db
  tick_row-Origin now (some st) db = tick_active-Origin now st st.status db

  tick-Origin : (now : ℕ) (db : Tables) → Origin ok g m db (tick ok now db)
  unfolding tick
  tick-Origin now db = tick_row-Origin now db.row db

-- A machine that the controller may promote, with the frames that prove it.
pub record Earned (now : ℕ) (owner : Text → Option ℕ) (ds : List Delivery) (m : Text) (db : Tables)
    : Type 0 where
  pub st : PlatformRow
  pub row : db.row ≡ some st
  pub conn : ℕ
  pub owned : owner m ≡ some conn
  pub frames : ℕ
  pub start : ℕ
  pub last : ℕ
  pub covered : Covered st.generation st.candidate frames (events_of m conn ds) start last
  pub three : 3 ≤ frames
  pub long : dwell_ms ≤ last - start
  pub fresh : now - last ≤ telemetry_gap_ms

proven_of_flag : (v : Verdict) → is_proven v ≡ true → v ≡ proven
proven_of_flag proven h = refl
proven_of_flag _ h = cc

earned :
    (now : ℕ) (owner : Text → Option ℕ) (ds : List Delivery) (m : Text) (db : Tables)
    (row : Option PlatformRow)
    → db.row ≡ row
    → verdict now owner (gathered ds) row m ≡ true
    → Earned now owner ds m db
unfolding verdict
earned now owner ds m db none e h = absurd (cc h)
earned now owner ds m db (some st) e h =
    let (conn, owned, n, s, l, c, three, long, fresh) =
      dwell_satisfied_sound now st.generation st.candidate (owner m) m ds (
        proven_of_flag (dwell_satisfied now st.generation st.candidate (owner m) m (gathered ds))
          h) in
    record {
      st = st;
      row = e;
      conn = conn;
      owned = owned;
      frames = n;
      start = s;
      last = l;
      covered = c;
      three = three;
      long = long;
      fresh = fresh;
    }

-- A slot that is healthy after the controller's tick was in the table before it, and either it was
-- healthy already, or the platform has a row and the connection that the registry holds for the
-- machine delivered, since it was last forgotten, three or more metrics frames after an
-- uncontradicted report of that row's candidate and generation, neighbours at most 45 s apart, 60 s
-- or more from first to last, the last at most 45 s old: a matching report alone promotes nothing.
pub controller_tick_sound :
    (now : ℕ) (owner : Text → Option ℕ) (ds : List Delivery) (g : ℕ) (m : Text) (db : Tables)
    (t : Slot)
    → find_slot g m (controller_tick now owner (gathered ds) db) ≡ some t
    → t.state ≡ healthy
    → (s : Slot) × (find_slot g m db ≡ some s) × ((s.state ≡ healthy) ⊎ Earned now owner ds m db)
unfolding controller_tick
controller_tick_sound now owner ds g m db t found h =
    let (s, before, why) =
      tick-Origin (verdict now owner (gathered ds) db.row) g m now db t found h in
    (
      s,
      before,
      elim why [ inl old ↦ inl old | inr new ↦ inr (earned now owner ds m db db.row refl new) ],
    )
