-- ===== src/Rollout/Counting.antt =====
-- hub/agent_rollout.go: what the status of a platform counts.
use blox_os.Base.{
  ℕ, ◌+◌, ◌≡◌, ◌≤◌, Bool, true, ◌||◌, some, some_eq, List, [], ◌∷◌, arith, subst, refl,
}
use blox_os.Base.Table.{count_where, select_where, count-select}
use blox_os.Rollout.Tables.{
  Slot, SlotState, PlatformRow, is_failed, is_healthy, is_observed, is_pending, is_withheld,
  in_state,
}
use blox_os.Rollout.Failing.{tables}
use blox_os.Rollout.Report.{
  RolloutStatus, blank, tally_state, tally_row, tally, status_of, rollout_status, of_generation,
}

-- The counts of `out'` are those of `out` and of the rows.
record Counted (rows : List Slot) (out out' : RolloutStatus) : Type 0 where
  validated : out'.validated ≡ out.validated + count_where (λ s. is_healthy s.state) rows
  validating : out'.validating ≡ out.validating + count_where (λ s. is_observed s.state) rows
  pending : out'.pending ≡ out.pending + count_where (λ s. is_pending s.state) rows
  withheld_count :
      out'.withheld_count ≡ out.withheld_count + count_where (λ s. is_withheld s.state) rows
  failed_count : out'.failed_count ≡ out.failed_count + count_where (λ s. is_failed s.state) rows
  updated :
      out'.updated ≡ out.updated + count_where (λ s. s.ran_candidate || is_healthy s.state) rows

tally-Counted : (rows : List Slot) (out : RolloutStatus) → Counted rows out (tally rows out)
unfolding tally count_where
tally-Counted [] out = ground arith
tally-Counted (s ∷ rows) out = stepped (tally-Counted rows (tally_row s out))
  where
    stepped :
        {out' : RolloutStatus} → Counted rows (tally_row s out) out' → Counted (s ∷ rows) out out'
    stepped c = unfold tally_row tally_state in ground arith

every_state :
    (rows : List Slot)
    → count_where (λ s. is_healthy s.state) rows
        + count_where (λ s. is_observed s.state) rows
        + count_where (λ s. is_pending s.state) rows
        + count_where (λ s. is_withheld s.state) rows
        + count_where (λ s. is_failed s.state) rows
      ≡ count_where (λ _. true) rows
unfolding count_where
every_state [] = omega arith
every_state (s ∷ rows) = ground (arith, every_state rows)

seen_running :
    (rows : List Slot)
    → count_where (λ s. is_healthy s.state) rows
      ≤ count_where (λ s. s.ran_candidate || is_healthy s.state) rows
unfolding count_where
seen_running [] = omega arith
seen_running (s ∷ rows) = ground (arith, seen_running rows)

in_generation :
    (g : ℕ) (q : SlotState → Bool) (slots : List Slot)
    → count_where (λ s. q s.state) (select_where (of_generation g) slots)
      ≡ count_where (in_state g q) slots
unfolding in_state
in_generation g q slots = count-select (λ s. q s.state) (of_generation g) slots

count-all :
    (g : ℕ) (slots : List Slot)
    → count_where (λ _. true) (select_where (of_generation g) slots)
      ≡ count_where (of_generation g) slots
unfolding count_where select_where
count-all g [] = refl
count-all g (s ∷ slots) = ground (arith, count-all g slots)

-- What an operator is shown of a platform with a row: the validated, validating, pending, withheld
-- and failed machines are those of the current generation whose slots are healthy, observed,
-- reserved or offered, withheld and failed; together they are all its slots; no machine is
-- validated without being counted as updated.
pub status_counts :
    (st : PlatformRow) (slots : List Slot) (out : RolloutStatus)
    → rollout_status (tables st slots) ≡ some out
    → (out.validated ≡ count_where (in_state st.generation is_healthy) slots)
      × (out.validating ≡ count_where (in_state st.generation is_observed) slots)
      × (out.pending ≡ count_where (in_state st.generation is_pending) slots)
      × (out.withheld_count ≡ count_where (in_state st.generation is_withheld) slots)
      × (out.failed_count ≡ count_where (in_state st.generation is_failed) slots)
      × (out.validated + out.validating + out.pending + out.withheld_count + out.failed_count
          ≡ count_where (of_generation st.generation) slots)
      × (out.validated ≤ out.updated)
unfolding rollout_status status_of
status_counts st slots out e =
    let c = subst (Counted rows (blank st)) (some_eq e) (tally-Counted rows (blank st)) in
    (
      omega (arith, c.validated, in_generation st.generation is_healthy slots),
      omega (arith, c.validating, in_generation st.generation is_observed slots),
      omega (arith, c.pending, in_generation st.generation is_pending slots),
      omega (arith, c.withheld_count, in_generation st.generation is_withheld slots),
      omega (arith, c.failed_count, in_generation st.generation is_failed slots),
      omega (
        arith,
        c.validated,
        c.validating,
        c.pending,
        c.withheld_count,
        c.failed_count,
        every_state rows,
        count-all st.generation slots,
      ),
      omega (arith, c.validated, c.updated, seen_running rows),
    )
  where
    rows : List Slot
    rows = select_where (of_generation st.generation) slots
