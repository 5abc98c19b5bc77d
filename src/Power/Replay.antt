-- ===== src/Power/Replay.antt =====
-- hub/power_history.go: a batch that is sent again, because its acknowledgement was lost.
use blox_os.Base.{
  ℕ, ◌+◌, ◌≤◌, ◌≡◌, ◌∙◌, ◌⊎◌, inl, inr, refl, sym, subst, ap, Bool, true, false, Option, none, some,
  List, [], ◌∷◌, ltb, arith, All, Bool-cases,
}
use blox_os.Base.Text.{Text, text_eq, text_eq_refl}
use blox_os.Base.Table.{find_where}
use blox_os.Base.Result.{ok}
use blox_os.Power.Ingest.{
  max_seq, Bucket, Batch, Stream, has_seq, insert_bucket, take_bucket, take_buckets, acked_through,
  declare_retained, commit_batch,
}
use blox_os.Power.Prefix.{acked-settled, acked-le, acked-stops}
use blox_os.Power.Commit.{
  Kept, Kept-refl, Kept-trans, take_bucket-Kept, take_buckets-Kept, commit_batch_inv,
  declare_retained-acked, insert_bucket_inv, compare_payload_inv, bind_inv,
}

-- The stream has what the bucket brings: a record with the same payload, or none, and its sequence
-- acknowledged.
unfoldable pub Absorbed : (Text → Option Text) → Stream → Bucket → Type 0
Absorbed canonical st b =
    ((old : Bucket) × (find_where (has_seq b.seq) st.records ≡ some old)
      × (c : Text) × (canonical old.payload ≡ some c)
      × (text_eq c b.payload ≡ true))
    ⊎ ((find_where (has_seq b.seq) st.records ≡ none) × (b.seq ≤ st.acked_through))

pub Absorbed-Kept :
    (canonical : Text → Option Text) (b : Bucket) (st st' : Stream)
    → Kept st st'
    → Absorbed canonical st b
    → Absorbed canonical st' b
unfolding Absorbed
Absorbed-Kept canonical b st st' k (inl (old, found, c, e, same)) =
    inl (old, k.records b.seq old found, c, e, same)
Absorbed-Kept canonical b st st' k (inr (none_yet, small)) =
    inr (k.absent b.seq small none_yet, omega (arith, small, k.acked))

find_first : (b : Bucket) (l : List Bucket) → find_where (has_seq b.seq) (b ∷ l) ≡ some b
unfolding find_where
find_first b l = ground arith

-- A bucket that the loop takes is absorbed afterwards. `orig` is the stream before the batch.
take_bucket-Absorbed :
    (canonical : Text → Option Text) (past_limit : ℕ) (orig st st' : Stream) (b : Bucket)
    (stored : Option Bucket)
    → canonical b.payload ≡ some b.payload
    → Kept orig st
    → find_where (has_seq b.seq) orig.records ≡ stored
    → take_bucket canonical past_limit stored b st ≡ ok st'
    → Absorbed canonical st' b
unfolding Absorbed take_bucket
take_bucket-Absorbed canonical past_limit orig st st' b (some old) encoded k found h =
    let (e, c, read, same) = compare_payload_inv (canonical old.payload) b.payload st st' h in
    subst (λ s. Absorbed canonical s b) (sym e)
      (inl (old, k.records b.seq old found, c, read, same))
take_bucket-Absorbed canonical past_limit orig st st' b none encoded k missing h =
    elim (insert_bucket_inv past_limit b st st' h) [
      | inl (e, small) ↦
          subst (λ s. Absorbed canonical s b) (sym e)
            (inr (k.absent b.seq (omega (arith, small, k.acked)) missing, small))
      | inr (_, _, e) ↦
          subst (λ s. Absorbed canonical s b) (sym e)
            (inl (b, find_first b st.records, b.payload, encoded, text_eq_refl b.payload))
    ]

pub take_buckets-Absorbed :
    (canonical : Text → Option Text) (past_limit : ℕ) (orig st st' : Stream) (bs : List Bucket)
    → All (λ (b : Bucket). canonical b.payload ≡ some b.payload) bs
    → Kept orig st
    → take_buckets canonical past_limit orig.records bs st ≡ ok st'
    → All (Absorbed canonical st') bs
unfolding take_buckets
take_buckets-Absorbed canonical past_limit orig st st' [] encoded k h = tt
take_buckets-Absorbed canonical past_limit orig st st' (b ∷ bs) encoded k h =
    let stored = find_where (has_seq b.seq) orig.records in
    let (mid, one, rest) = bind_inv (take_bucket canonical past_limit stored b st) _ st' h in
    let kept =
      Kept-trans orig st mid k (take_bucket-Kept canonical past_limit stored b st mid one) in
    (
      Absorbed-Kept canonical b mid st'
          (take_buckets-Kept canonical past_limit orig.records bs mid st' rest)
          (take_bucket-Absorbed canonical past_limit orig st mid b stored encoded.0 k refl one),
      take_buckets-Absorbed canonical past_limit orig mid st' bs encoded.1 kept rest,
    )

absorb :
    (canonical : Text → Option Text) (past_limit : ℕ) (st : Stream) (b : Bucket)
    → Absorbed canonical st b
    → take_bucket canonical past_limit (find_where (has_seq b.seq) st.records) b st ≡ ok st
unfolding take_bucket Absorbed
absorb canonical past_limit st b (inl (old, found, c, e, same)) = rw (found, e, same) refl
absorb canonical past_limit st b (inr (missing, small)) =
    rw missing (unfold insert_bucket in ground arith)

take_buckets-absorb :
    (canonical : Text → Option Text) (past_limit : ℕ) (st : Stream) (bs : List Bucket)
    → All (Absorbed canonical st) bs
    → take_buckets canonical past_limit st.records bs st ≡ ok st
unfolding take_buckets
take_buckets-absorb canonical past_limit st [] h = refl
take_buckets-absorb canonical past_limit st (b ∷ bs) h =
    rw (absorb canonical past_limit st b h.0) (take_buckets-absorb canonical past_limit st bs h.1)

pub acked_full : (from : ℕ) (st : Stream) → max_seq ≤ from → acked_through from st ≡ from
unfolding acked_through
acked_full from st h = ground arith

-- The prefix does not grow when nothing is added.
pub acked-again :
    (from : ℕ) (st : Stream) → acked_through (acked_through from st) st ≡ acked_through from st
acked-again from st =
    let a = acked_through from st in
    elim (Bool-cases (ltb from max_seq)) [
      | inr full ↦ rw (acked_full from st (ground arith)) (acked_full from st (ground arith))
      | inl room ↦ elim (Bool-cases (ltb a (acked_through a st))) [
        | inl more ↦ absurd (
            clash (acked-stops from st (ground arith))
              (acked-settled a (a + 1) st (omega arith) (ground arith)))
        | inr same ↦ ground (arith, acked-le a st)
      ]
    ]
  where
    clash : {v : Bool} → v ≡ false → v ≡ true → ⊥
    clash h k = cc

pub acked_ext :
    (from : ℕ) (a b : Stream)
    → a.records ≡ b.records
    → a.gaps ≡ b.gaps
    → acked_through from a ≡ acked_through from b
unfolding acked_through
acked_ext from a b h k = rw (h, k) refl

declare_retained-again :
    (retained : ℕ) (bs : List Bucket) (st : Stream)
    → retained ≤ st.retained_from
    → declare_retained retained bs st ≡ st
unfolding declare_retained
declare_retained-again retained bs st h = ground arith

pub replay :
    (canonical : Text → Option Text) (limit : ℕ) (b : Batch) (st : Stream)
    → All (Absorbed canonical st) b.buckets
    → b.retained_from ≤ st.retained_from
    → acked_through st.acked_through st ≡ st.acked_through
    → commit_batch canonical limit b st ≡ ok (record st { degraded = b.degraded }, st.acked_through)
unfolding commit_batch
replay canonical limit b st absorbed old same =
    rw
      (
        take_buckets-absorb canonical limit st b.buckets absorbed,
        declare_retained-again b.retained_from b.buckets st old,
        same,
      )
      refl

pub Absorbed-later :
    (canonical : Text → Option Text) (a b : Stream) (bs : List Bucket)
    → b.records ≡ a.records
    → a.acked_through ≤ b.acked_through
    → All (Absorbed canonical a) bs
    → All (Absorbed canonical b) bs
unfolding Absorbed
Absorbed-later canonical a b [] same h absorbed = tt
Absorbed-later canonical a b (k ∷ ks) same h absorbed =
    (later absorbed.0, Absorbed-later canonical a b ks same h absorbed.1)
  where
    later : Absorbed canonical a k → Absorbed canonical b k
    later (inl (old, found, c, e, p)) =
        inl (old, ap (λ l. find_where (has_seq k.seq) l) same ∙ found, c, e, p)
    later (inr (missing, small)) =
        inr (ap (λ l. find_where (has_seq k.seq) l) same ∙ missing, omega (arith, small, h))

-- What a commit leaves: its batch is absorbed, its declaration of losses is made, its answer is the
-- acknowledged sequence, and nothing more can be acknowledged.
pub commit-Absorbed :
    (canonical : Text → Option Text) (past_limit : ℕ) (b : Batch) (st st' : Stream) (t : ℕ)
    → All (λ (k : Bucket). canonical k.payload ≡ some k.payload) b.buckets
    → commit_batch canonical past_limit b st ≡ ok (st', t)
    → All (Absorbed canonical st') b.buckets
commit-Absorbed canonical past_limit b st st' t encoded committed =
    let (st1, taken, (ack, e)) = commit_batch_inv canonical past_limit b st st' t committed in
    let st2 = declare_retained b.retained_from b.buckets st1 in
    let (acked, same, _, _) = declare_retained-acked b.retained_from b.buckets st1 in
    let st_acked : st'.acked_through ≡ acked_through st2.acked_through st2 =
      ap (λ (s : Stream). s.acked_through) e in
    Absorbed-later canonical st1 st' b.buckets (ap (λ (s : Stream). s.records) e ∙ same)
      (omega (arith, acked, st_acked, acked-le st2.acked_through st2))
      (take_buckets-Absorbed canonical past_limit st st st1 b.buckets encoded (Kept-refl st) taken)

pub commit-stopped :
    (canonical : Text → Option Text) (past_limit : ℕ) (b : Batch) (st st' : Stream) (t : ℕ)
    → commit_batch canonical past_limit b st ≡ ok (st', t)
    → (t ≡ st'.acked_through)
      × (b.retained_from ≤ st'.retained_from)
      × (st'.degraded ≡ b.degraded)
      × (acked_through st'.acked_through st' ≡ st'.acked_through)
commit-stopped canonical past_limit b st st' t committed =
    let (st1, taken, (ack, e)) = commit_batch_inv canonical past_limit b st st' t committed in
    let st2 = declare_retained b.retained_from b.buckets st1 in
    let (_, _, reached, _) = declare_retained-acked b.retained_from b.buckets st1 in
    let st_acked : st'.acked_through ≡ acked_through st2.acked_through st2 =
      ap (λ (s : Stream). s.acked_through) e in
    (
      ack ∙ sym st_acked,
      omega (arith, reached, ap (λ (s : Stream). s.retained_from) e),
      ap (λ (s : Stream). s.degraded) e,
      acked_ext st'.acked_through st' st2 (ap (λ (s : Stream). s.records) e)
            (ap (λ (s : Stream). s.gaps) e)
          ∙ ap (λ n. acked_through n st2) st_acked
          ∙ acked-again st2.acked_through st2
          ∙ sym st_acked,
    )

-- A batch that is committed, and committed again onto the stream exactly as the first commit left it,
-- no pruning and no other batch in between, is acknowledged with the same sequence and changes nothing,
-- under any age limit of the second commit; where re-encoding the payload of a bucket of it yields the
-- payload.
pub commit-replay :
    (canonical : Text → Option Text) (past_limit later_limit : ℕ) (b : Batch) (st st' : Stream)
    (t : ℕ)
    → All (λ (k : Bucket). canonical k.payload ≡ some k.payload) b.buckets
    → commit_batch canonical past_limit b st ≡ ok (st', t)
    → commit_batch canonical later_limit b st' ≡ ok (st', t)
commit-replay canonical past_limit later_limit b st st' t encoded committed =
    let (ack, declared, degraded, stopped) =
      commit-stopped canonical past_limit b st st' t committed in
    subst (λ n. commit_batch canonical later_limit b st' ≡ ok (st', n)) (sym ack)
      (replay canonical later_limit b st'
          (commit-Absorbed canonical past_limit b st st' t encoded committed) declared stopped
        ∙ ap (λ d. ok (record st' { degraded = d }, st'.acked_through)) (sym degraded))
