-- ===== src/Power/Rounds.antt =====
-- hub/power_history.go: powerAckedThrough ends, and ends at the last sequence of the contiguous prefix.
use blox_os.Base.{
  ℕ, zero, suc, ◌+◌, ◌≤◌, ◌<◌, ◌≡◌, ◌≢◌, ◌∙◌, ◌⊎◌, inl, inr, subst, true, false, ◌||◌, List, ltb,
  ◌==◌, ==_iff, arith, Bool-cases, length,
}
use blox_os.Power.Ingest.{Gap, mem_seq, pass_gaps, skip_below, follow_run, walk}
use blox_os.Power.Gaps.{in_gaps, Ascending}
use blox_os.Power.Walk.{
  pass_gaps-le, pass_gaps-in_gaps, pass_gaps-stays, live, live_mono, pass_gaps-live,
  Ascending-skip_below, mem_seq-skip_below, skip_below-mem_seq, skip_below-All, length-skip_below,
  follow_run-le, follow_run-mem_seq, follow_run-rest, follow_run-keeps, follow_run-Ascending,
  follow_run-length, follow_run-stops,
}

-- What one round of the walk does: the gaps, the skip and the run.
round : List Gap → ℕ → List ℕ → ℕ × List ℕ
round gs next present = follow_run (pass_gaps gs next) (skip_below (pass_gaps gs next) present)

walk-step :
    (fuel : ℕ) (gs : List Gap) (next : ℕ) (present : List ℕ)
    → (((round gs next present).0 ≡ next) × (walk (suc fuel) gs next present ≡ next))
      ⊎ (((round gs next present).0 ≢ next)
          × (walk (suc fuel) gs next present
              ≡ walk fuel gs (round gs next present).0 (round gs next present).1))
unfolding walk round
walk-step fuel gs next present = ground arith

module _ (gs : List Gap) where
  round-le : (next : ℕ) (present : List ℕ) → next ≤ (round gs next present).0
  unfolding round
  round-le next present = omega (
    arith,
    pass_gaps-le gs next,
    follow_run-le (pass_gaps gs next) (skip_below (pass_gaps gs next) present),
  )

  round-covers :
      (n next : ℕ) (present : List ℕ)
      → next ≤ n
      → n < (round gs next present).0
      → (in_gaps n gs || mem_seq n present) ≡ true
  unfolding round
  round-covers n next present h k = ground (
    arith,
    pass_gaps-in_gaps n gs next,
    follow_run-mem_seq n (pass_gaps gs next) (skip_below (pass_gaps gs next) present),
    mem_seq-skip_below n (pass_gaps gs next) present,
  )

  round-rest :
      (n next : ℕ) (present : List ℕ)
      → mem_seq n (round gs next present).1 ≡ true
      → mem_seq n present ≡ true
  unfolding round
  round-rest n next present h =
      mem_seq-skip_below n (pass_gaps gs next) present
        (follow_run-rest n (pass_gaps gs next) (skip_below (pass_gaps gs next) present) h)

  round-keeps :
      (n next : ℕ) (present : List ℕ)
      → (round gs next present).0 ≤ n
      → mem_seq n present ≡ true
      → mem_seq n (round gs next present).1 ≡ true
  unfolding round
  round-keeps n next present h k =
      follow_run-keeps n (pass_gaps gs next) (skip_below (pass_gaps gs next) present) h (
        skip_below-mem_seq n (pass_gaps gs next) present
          (omega
            (arith, follow_run-le (pass_gaps gs next) (skip_below (pass_gaps gs next) present)))
          k)

  round-Ascending :
      (next : ℕ) (present : List ℕ) → Ascending present → Ascending (round gs next present).1
  unfolding round
  round-Ascending next present a =
      follow_run-Ascending (pass_gaps gs next) _
        (Ascending-skip_below (pass_gaps gs next) present a)

  round-stays :
      (next : ℕ) (present : List ℕ)
      → Ascending present
      → (round gs next present).0 ≡ next
      → (in_gaps next gs ≡ false) × (mem_seq next present ≡ false)
  unfolding round
  round-stays next present a h =
      let p = pass_gaps gs next in
      let up = follow_run-le p (skip_below p present) in
      let same : p ≡ next = omega (arith, pass_gaps-le gs next, up) in
      let stopped =
        follow_run-stops p (skip_below p present) (Ascending-skip_below p present a)
          (skip_below-All p present a) (omega arith) in
      (
        pass_gaps-stays gs next same,
        ground (
          arith,
          subst (λ k. mem_seq k (skip_below p present) ≡ false) same stopped,
          skip_below-mem_seq next p present,
        ),
      )

  round-shrinks :
      (next : ℕ) (present : List ℕ)
      → (round gs next present).0 ≢ next
      → live (round gs next present).0 gs + length (round gs next present).1
        < live next gs + length present
  unfolding round
  round-shrinks next present h =
      let p = pass_gaps gs next in
      let run = follow_run-length p (skip_below p present) in
      let fewer =
        live_mono p (follow_run p (skip_below p present)).0 gs
          (follow_run-le p (skip_below p present)) in
      elim (Bool-cases (p == next)) [
        | inl same ↦ elim run.1 [
          | inl stuck ↦ absurd (h (stuck ∙ (==_iff p next).0 same))
          | inr shorter ↦ omega (
            arith,
            fewer,
            live_mono next p gs (pass_gaps-le gs next),
            length-skip_below p present,
          )
        ]
        | inr moved ↦ omega (
          arith,
          fewer,
          run.0,
          length-skip_below p present,
          pass_gaps-live gs next (λ e. absurd (cc ((==_iff p next).1 e))),
        )
      ]

  -- Every sequence that the walk passes is a record or in a gap.
  pub walk-covers :
      (fuel n next : ℕ) (present : List ℕ)
      → next ≤ n
      → n < walk fuel gs next present
      → (in_gaps n gs || mem_seq n present) ≡ true
  walk-covers zero n next present h k = absurd (unfold walk in omega arith)
  walk-covers (suc fuel) n next present h k = elim (walk-step fuel gs next present) [
    | inl (_, e) ↦ absurd (omega (arith, e))
    | inr (_, e) ↦ elim (Bool-cases (ltb n (round gs next present).0)) [
      | inl now ↦ round-covers n next present h (ground arith)
      | inr later ↦ ground (
        arith,
        walk-covers fuel n (round gs next present).0 (round gs next present).1 (ground arith)
            (rw e at k),
        round-rest n next present,
      )
    ]
  ]

  pub walk-le : (fuel next : ℕ) (present : List ℕ) → next ≤ walk fuel gs next present
  walk-le zero next present = unfold walk in omega arith
  walk-le (suc fuel) next present = elim (walk-step fuel gs next present) [
    | inl (_, e) ↦ omega (arith, e)
    | inr (_, e) ↦ omega (
      arith,
      e,
      round-le next present,
      walk-le fuel (round gs next present).0 (round gs next present).1,
    )
  ]

  -- With fuel for every gap and every record, the walk ends at a sequence that is neither.
  pub walk-stops :
      (fuel next : ℕ) (present : List ℕ)
      → Ascending present
      → live next gs + length present < fuel
      → (in_gaps (walk fuel gs next present) gs ≡ false)
        × (mem_seq (walk fuel gs next present) present ≡ false)
  walk-stops zero next present a enough = absurd (omega arith)
  walk-stops (suc fuel) next present a enough = elim (walk-step fuel gs next present) [
    | inl (stay, e) ↦ rw e (round-stays next present a stay)
    | inr (move, e) ↦
        let after =
          walk-stops fuel (round gs next present).0 (round gs next present).1
            (round-Ascending next present a) (omega (arith, round-shrinks next present move)) in
        rw e (
          after.0,
          ground (
            arith,
            after.1,
            round-keeps (walk fuel gs (round gs next present).0 (round gs next present).1) next
                present (walk-le fuel (round gs next present).0 (round gs next present).1),
          ),
        )
  ]
