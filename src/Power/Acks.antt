-- ===== src/Power/Acks.antt =====
-- hub/power_history.go: what an acknowledgement of the hub promises about a commit.
use blox_os.Base.{
  ℕ, ◌+◌, ◌≤◌, ◌<◌, ◌≡◌, ◌∙◌, sym, subst, true, false, ◌&&◌, ◌||◌, not, Option, some, ltb, arith,
  ap,
}
use blox_os.Base.Text.{Text}
use blox_os.Base.Table.{find_where}
use blox_os.Base.Result.{ok}
use blox_os.Power.Ingest.{
  max_seq, Bucket, Batch, Stream, has_seq, mem_seq, seqs, acked_through, declare_retained,
  commit_batch,
}
use blox_os.Power.Gaps.{in_gaps}
use blox_os.Power.Prefix.{is_settled, acked-settled, acked-le, acked-stops}
use blox_os.Power.Commit.{
  take_buckets-Kept, commit_batch_inv, declare_retained-acked, declare_retained-gaps,
}

-- What a commit has done before it stores the acknowledged sequence.
pub record Declared (b : Batch) (st st' : Stream) (t : ℕ) : Type 0 where
  pub stream : Stream
  pub acked : stream.acked_through ≡ st.acked_through
  pub ack : t ≡ acked_through stream.acked_through stream
  pub result : st' ≡ record stream {
    acked_through = acked_through stream.acked_through stream;
    degraded = b.degraded;
  }
  pub kept :
      (n : ℕ) (old : Bucket)
      → find_where (has_seq n) st.records ≡ some old
      → find_where (has_seq n) stream.records ≡ some old
  pub lost :
      (n : ℕ)
      → in_gaps n stream.gaps ≡ (
          in_gaps n st.gaps
          || (ltb st.retained_from b.retained_from
              && ltb st.acked_through n
              && ltb n b.retained_from
              && not (mem_seq n (seqs b.buckets) || mem_seq n (seqs stream.records))))

module _ (canonical : Text → Option Text) (past_limit : ℕ) (b : Batch) (st st' : Stream) (t : ℕ)
    (committed : commit_batch canonical past_limit b st ≡ ok (st', t)) where
  declared : Declared b st st' t
  declared =
      let (st1, taken, (ack, e)) = commit_batch_inv canonical past_limit b st st' t committed in
      let kept = take_buckets-Kept canonical past_limit st.records b.buckets st st1 taken in
      let (acked, same, _, _) = declare_retained-acked b.retained_from b.buckets st1 in
      record {
        stream = declare_retained b.retained_from b.buckets st1;
        acked = acked ∙ kept.acked;
        ack = ack;
        result = e;
        kept = λ n old found. ap (λ l. find_where (has_seq n) l) same ∙ kept.records n old found;
        lost = λ n.
            rw (same, sym kept.gaps, sym kept.retained, sym kept.acked)
              (declare_retained-gaps b.retained_from n b.buckets st1);
      }

  -- An acknowledgement is of a contiguous prefix: every sequence above the last acknowledged one, up
  -- to the one that the hub now acknowledges, is a stored record or lies in a declared gap.
  pub commit-settles : (n : ℕ) → st.acked_through < n → n ≤ t → is_settled n st' ≡ true
  commit-settles n above upto =
      let d = declared in
      subst (λ s. is_settled n s ≡ true) (sym d.result)
        (acked-settled d.stream.acked_through n d.stream (omega (arith, above, d.acked))
          (omega (arith, upto, d.ack)))

  -- An acknowledgement never goes back and is never late: the stream stores the sequence that the
  -- hub acknowledges, it is not below the one before, and the next one is neither a record nor lost,
  -- while the sequence space is not used up.
  pub commit-stops :
      st.acked_through < max_seq
      → (st'.acked_through ≡ t) × (st.acked_through ≤ t) × (is_settled (t + 1) st' ≡ false)
  commit-stops room =
      let d = declared in
      (
        ap (λ (s : Stream). s.acked_through) d.result ∙ sym d.ack,
        omega (arith, d.acked, d.ack, acked-le d.stream.acked_through d.stream),
        subst (λ s. is_settled (t + 1) s ≡ false) (sym d.result)
            (subst (λ k. is_settled (k + 1) d.stream ≡ false) (sym d.ack)
              (acked-stops d.stream.acked_through d.stream (omega (arith, room, d.acked)))),
      )

  -- A stored record is never changed, replaced or dropped by a later batch, whatever it carries.
  pub commit-keeps :
      (n : ℕ) (old : Bucket)
      → find_where (has_seq n) st.records ≡ some old
      → find_where (has_seq n) st'.records ≡ some old
  commit-keeps n old found =
      let d = declared in
      ap (λ (s : Stream). find_where (has_seq n) s.records) d.result ∙ d.kept n old found

  -- Exactly the sequences that the agent declares lost become gaps: those above the acknowledged one
  -- and below retained_from, when it advances, that the hub has no record of and the batch does not
  -- carry; every gap declared before stays, however the rows are merged.
  pub commit-gaps :
      (n : ℕ)
      → in_gaps n st'.gaps ≡ (
          in_gaps n st.gaps
          || (ltb st.retained_from b.retained_from
              && ltb st.acked_through n
              && ltb n b.retained_from
              && not (mem_seq n (seqs b.buckets) || mem_seq n (seqs st'.records))))
  commit-gaps n = let d = declared in rw d.result (d.lost n)
