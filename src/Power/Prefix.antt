-- ===== src/Power/Prefix.antt =====
-- hub/power_history.go: the acknowledged sequence is the end of the contiguous prefix.
use blox_os.Base.{
  ℕ, suc, ◌+◌, ◌≤◌, ◌<◌, ◌≡◌, ◌∙◌, inl, inr, refl, sym, subst, Bool, true, false, ◌||◌, List, [],
  ◌∷◌, ltb, leb, arith, Bool-cases, length,
}
use blox_os.Base.Table.{select_where}
use blox_os.Power.Ingest.{
  max_seq, Bucket, Gap, Stream, mem_seq, seqs, seqs_above, walk, acked_through,
}
use blox_os.Power.Gaps.{in_gaps}
use blox_os.Power.Sorted.{ascending-Ascending, mem_seq-ascending, mem_seq-select_where}
use blox_os.Power.Walk.{live-le_length}
use blox_os.Power.Rounds.{walk-covers, walk-le, walk-stops}

-- A record or a gap row of the stream has this sequence.
abbrev pub is_settled : ℕ → Stream → Bool
is_settled n st = in_gaps n st.gaps || mem_seq n (seqs st.records)

in_gaps-select :
    (from n : ℕ) (gs : List Gap)
    → from < n
    → in_gaps n (select_where (λ (g : Gap). ltb from g.through_seq) gs) ≡ in_gaps n gs
unfolding in_gaps select_where
in_gaps-select from n [] h = refl
in_gaps-select from n (g ∷ gs) h = ground (arith, in_gaps-select from n gs h)

mem_seq-above :
    (from n : ℕ) (records : List Bucket)
    → from < n
    → mem_seq n (seqs_above from records) ≡ mem_seq n (seqs records)
mem_seq-above from n records h =
    mem_seq-ascending n (select_where (λ k. ltb from k) (seqs records))
    ∙ mem_seq-select_where (λ k. ltb from k) n (seqs records)
    ∙ ground arith

-- The acknowledged sequence is the end of the contiguous prefix: everything up to it is settled.
pub acked-settled :
    (from n : ℕ) (st : Stream) → from < n → n ≤ acked_through from st → is_settled n st ≡ true
unfolding acked_through
acked-settled from n st h k = elim (Bool-cases (leb max_seq from)) [
  | inl full ↦ absurd (ground arith)
  | inr room ↦
      let gaps = select_where (λ (g : Gap). ltb from g.through_seq) st.gaps in
      let present = seqs_above from st.records in
      let covered =
        walk-covers gaps (suc (length gaps + length present)) n (from + 1) present (omega arith)
          (ground arith) in
      ground (arith, covered, in_gaps-select from n st.gaps h, mem_seq-above from n st.records h)
]

pub acked-le : (from : ℕ) (st : Stream) → from ≤ acked_through from st
unfolding acked_through
acked-le from st =
    let gaps = select_where (λ (g : Gap). ltb from g.through_seq) st.gaps in
    let present = seqs_above from st.records in
    ground (arith, walk-le gaps (suc (length gaps + length present)) (from + 1) present)

-- Where the walk of a stream ends.
end_of : ℕ → Stream → ℕ
end_of from st =
    let gaps = select_where (λ (g : Gap). ltb from g.through_seq) st.gaps in
    let present = seqs_above from st.records in
    walk (suc (length gaps + length present)) gaps (from + 1) present

acked_end : (from : ℕ) (st : Stream) → from < max_seq → acked_through from st + 1 ≡ end_of from st
unfolding acked_through end_of
acked_end from st h =
    let gaps = select_where (λ (g : Gap). ltb from g.through_seq) st.gaps in
    let present = seqs_above from st.records in
    ground (arith, walk-le gaps (suc (length gaps + length present)) (from + 1) present)

end_of-free : (from : ℕ) (st : Stream) → is_settled (end_of from st) st ≡ false
unfolding end_of
end_of-free from st =
    let gaps = select_where (λ (g : Gap). ltb from g.through_seq) st.gaps in
    let present = seqs_above from st.records in
    let end = walk (suc (length gaps + length present)) gaps (from + 1) present in
    let past : from < end =
      omega (arith, walk-le gaps (suc (length gaps + length present)) (from + 1) present) in
    let (no_gap, no_record) =
      walk-stops gaps (suc (length gaps + length present)) (from + 1) present
        (ascending-Ascending (select_where (λ k. ltb from k) (seqs st.records)))
        (omega (arith, live-le_length (from + 1) gaps)) in
    rw (
      sym (in_gaps-select from end st.gaps past) ∙ no_gap,
      sym (mem_seq-above from end st.records past) ∙ no_record,
    )

pub acked-stops :
    (from : ℕ) (st : Stream) → from < max_seq → is_settled (acked_through from st + 1) st ≡ false
acked-stops from st h =
    subst (λ k. is_settled k st ≡ false) (sym (acked_end from st h)) (end_of-free from st)
