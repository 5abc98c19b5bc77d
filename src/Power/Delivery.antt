-- ===== src/Power/Delivery.antt =====
-- hub/power_history.go: what a batch of consecutive buckets delivers.
use blox_os.Base.{
  ℕ, ◌+◌, ◌≤◌, ◌<◌, ◌≡◌, ◌∙◌, ◌⊎◌, inl, inr, subst, ap, true, Option, some, List, [], ◌∷◌, ◌==◌,
  ==_iff, arith, Bool-cases, All,
}
use blox_os.Base.Text.{Text}
use blox_os.Base.Result.{ok}
use blox_os.Power.Ingest.{max_seq, Bucket, Batch, Stream, mem_seq, seqs, commit_batch}
use blox_os.Power.Commit.{
  mem_seq-find, commit_batch_inv, Kept-refl, take_buckets-Kept, declare_retained-acked,
}
use blox_os.Power.Acks.{commit-stops, commit-gaps}
use blox_os.Power.Replay.{Absorbed, take_buckets-Absorbed}

Absorbed-seq :
    (canonical : Text → Option Text) (st : Stream) (b : Bucket)
    → Absorbed canonical st b
    → (mem_seq b.seq (seqs st.records) ≡ true) ⊎ (b.seq ≤ st.acked_through)
unfolding Absorbed
Absorbed-seq canonical st b (inl (old, found, _, _, _)) =
    inl (mem_seq-find b.seq old st.records found)
Absorbed-seq canonical st b (inr (_, small)) = inr small

Absorbed-All :
    (canonical : Text → Option Text) (st : Stream) (n : ℕ) (bs : List Bucket)
    → All (Absorbed canonical st) bs
    → mem_seq n (seqs bs) ≡ true
    → (mem_seq n (seqs st.records) ≡ true) ⊎ (n ≤ st.acked_through)
unfolding seqs mem_seq
Absorbed-All canonical st n [] a h = absurd (cc h)
Absorbed-All canonical st n (b ∷ bs) a h = elim (Bool-cases (b.seq == n)) [
  | inl same ↦
      subst (λ k. (mem_seq k (seqs st.records) ≡ true) ⊎ (k ≤ st.acked_through))
        ((==_iff b.seq n).0 same) (Absorbed-seq canonical st b a.0)
  | inr other ↦ Absorbed-All canonical st n bs a.1 (rw other at h)
]

-- Every sequence of a committed batch is a record afterwards, or was acknowledged before.
batch_recorded :
    (canonical : Text → Option Text) (past_limit : ℕ) (b : Batch) (st st' : Stream) (t n : ℕ)
    → All (λ (k : Bucket). canonical k.payload ≡ some k.payload) b.buckets
    → commit_batch canonical past_limit b st ≡ ok (st', t)
    → mem_seq n (seqs b.buckets) ≡ true
    → (mem_seq n (seqs st'.records) ≡ true) ⊎ (n ≤ st.acked_through)
batch_recorded canonical past_limit b st st' t n encoded committed h =
    let (st1, taken, (_, e)) = commit_batch_inv canonical past_limit b st st' t committed in
    let kept = take_buckets-Kept canonical past_limit st.records b.buckets st st1 taken in
    let (_, same, _, _) = declare_retained-acked b.retained_from b.buckets st1 in
    let absorbed =
      take_buckets-Absorbed canonical past_limit st st st1 b.buckets encoded (Kept-refl st) taken in
    elim (Absorbed-All canonical st1 n b.buckets absorbed h) [
      | inl recorded ↦
          inl (ap (λ l. mem_seq n (seqs l)) (ap (λ (s : Stream). s.records) e ∙ same) ∙ recorded)
      | inr old ↦ inr (omega (arith, old, kept.acked))
    ]

-- A batch is acknowledged as a whole, if re-encoding the payload of a bucket yields the payload: when
-- it advances retained_from and carries every sequence from there to n, the hub acknowledges n or
-- more, whatever was missing before; while the sequence space is not used up.
pub commit-delivers :
    (canonical : Text → Option Text) (past_limit : ℕ) (b : Batch) (st st' : Stream) (t n : ℕ)
    → All (λ (k : Bucket). canonical k.payload ≡ some k.payload) b.buckets
    → commit_batch canonical past_limit b st ≡ ok (st', t)
    → st.acked_through < max_seq
    → st.retained_from < b.retained_from
    → ((k : ℕ) → b.retained_from ≤ k → k ≤ n → mem_seq k (seqs b.buckets) ≡ true)
    → n ≤ t
commit-delivers canonical past_limit b st st' t n encoded committed room newer carried =
    let (_, ahead, free) = commit-stops canonical past_limit b st st' t committed room in
    let lost = commit-gaps canonical past_limit b st st' t committed (t + 1) in
    let recorded = batch_recorded canonical past_limit b st st' t (t + 1) encoded committed in
    let mine = carried (t + 1) in ground (arith, ahead, free, lost, recorded, mine)
