-- ===== src/Power/Gaps.antt =====
-- hub/power_history.go: which sequences the gap rows cover after a declaration.
use blox_os.Base.{
  ℕ, ◌+◌, ◌-◌, ◌≤◌, ◌<◌, ◌≡◌, ◌⊎◌, inl, inr, Bool, true, false, ◌&&◌, ◌||◌, not, List, [], ◌∷◌, ltb,
  leb, ◌==◌, ==_iff, arith, Bool-cases, All, subst,
}
use blox_os.Power.Ingest.{
  Gap, mem_seq, touches, merged_from, merged_through, keep_apart, declare_gap, declare_missing,
}

-- A sequence that some gap row covers.
unfoldable pub in_gaps : ℕ → List Gap → Bool
in_gaps n [] = false
in_gaps n (g ∷ gs) = (leb g.from_seq n && leb n g.through_seq) || in_gaps n gs

module _ (from through n : ℕ) where
  merged_from-le : (gs : List Gap) → merged_from from through gs ≤ from
  unfolding merged_from touches
  merged_from-le [] = omega arith
  merged_from-le (g ∷ gs) = ground (arith, merged_from-le gs)

  merged_through-ge : (gs : List Gap) → through ≤ merged_through from through gs
  unfolding merged_through
  merged_through-ge [] = omega arith
  merged_through-ge (g ∷ gs) = ground (arith, merged_through-ge gs)

  covered_before :
      (gs : List Gap) → merged_from from through gs ≤ n → n < from → in_gaps n gs ≡ true
  unfolding merged_from in_gaps
  covered_before [] h k = absurd (omega arith)
  covered_before (g ∷ gs) h k = ground (arith, covered_before gs)

  covered_after :
      (gs : List Gap) → n ≤ merged_through from through gs → through < n → in_gaps n gs ≡ true
  unfolding merged_through in_gaps
  covered_after [] h k = absurd (omega arith)
  covered_after (g ∷ gs) h k = ground (arith, covered_after gs)

  in_gaps-keep_apart :
      (gs : List Gap) → in_gaps n (keep_apart from through gs) ≡ true → in_gaps n gs ≡ true
  unfolding keep_apart in_gaps
  in_gaps-keep_apart [] h = h
  in_gaps-keep_apart (g ∷ gs) h = ground (arith, in_gaps-keep_apart gs)

  kept_or_merged :
      (gs : List Gap)
      → in_gaps n gs ≡ true
      → (in_gaps n (keep_apart from through gs) ≡ true)
        ⊎ ((merged_from from through gs ≤ n) × (n ≤ merged_through from through gs))
  unfolding keep_apart in_gaps merged_from merged_through
  kept_or_merged [] h = cc
  kept_or_merged (g ∷ gs) h = ground (arith, kept_or_merged gs)

  -- A declaration adds its range to what the rows cover, and nothing else, however it merges them.
  pub in_gaps-declare_gap :
      (gs : List Gap)
      → from ≤ through
      → in_gaps n (declare_gap from through gs) ≡ (in_gaps n gs || (leb from n && leb n through))
  unfolding declare_gap
  in_gaps-declare_gap gs h =
      unfold in_gaps in
      ground (
        arith,
        merged_from-le gs,
        merged_through-ge gs,
        covered_before gs,
        covered_after gs,
        in_gaps-keep_apart gs,
        kept_or_merged gs,
      )

-- Strictly ascending sequences.
abbrev pub Ascending : List ℕ → Type 0
Ascending [] = Unit
Ascending (x ∷ xs) = All (λ y. x < y) xs × Ascending xs

pub All-mem_seq : (P : ℕ → Type 0) (n : ℕ) (xs : List ℕ) → All P xs → mem_seq n xs ≡ true → P n
unfolding mem_seq
All-mem_seq P n [] h k = absurd (cc k)
All-mem_seq P n (x ∷ xs) h k = elim (Bool-cases (x == n)) [
  | inl same ↦ subst P ((==_iff x n).0 same) h.0
  | inr other ↦ All-mem_seq P n xs h.1 (rw other at k)
]

-- The interval subtraction: exactly the sequences of the range that are not present become gaps.
pub in_gaps-declare_missing :
    (n cursor hi : ℕ) (present : List ℕ) (gs : List Gap)
    → Ascending present
    → All (λ x. x ≤ hi) present
    → in_gaps n (declare_missing cursor hi present gs)
      ≡ (in_gaps n gs || (leb cursor n && leb n hi && not (mem_seq n present)))
unfolding declare_missing mem_seq
in_gaps-declare_missing n cursor hi [] gs up small =
    ground (arith, in_gaps-declare_gap cursor hi n gs)
in_gaps-declare_missing n cursor hi (x ∷ xs) gs up small =
    let above : mem_seq n xs ≡ true → x < n = All-mem_seq (λ y. x < y) n xs up.0 in
    let far =
      in_gaps-declare_missing n (x + 1) hi xs (declare_gap cursor (x - 1) gs) up.1 small.1 in
    let near = in_gaps-declare_missing n (x + 1) hi xs gs up.1 small.1 in
    let past = in_gaps-declare_missing n cursor hi xs gs up.1 small.1 in
    let fits : x ≤ hi = small.0 in
    let gap = in_gaps-declare_gap cursor (x - 1) n gs in
    elim (Bool-cases (ltb hi cursor)) [
      | inl over ↦ rw over (ground arith)
      | inr open' ↦ elim (Bool-cases (ltb cursor x)) [
        | inl before ↦ rw (open', before, far, gap (ground arith)) (ground arith)
        | inr reached ↦ elim (Bool-cases (leb cursor x)) [
          | inl at_it ↦ rw (open', reached, at_it, near) (ground arith)
          | inr passed ↦ rw (open', reached, passed, past) (ground arith)
        ]
      ]
    ]
