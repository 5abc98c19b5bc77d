-- ===== src/Power/Later.antt =====
-- hub/power_history.go: an acknowledged batch is sent again after other batches and after prunings.
use blox_os.Base.{
  ℕ, ◌+◌, ◌≤◌, ◌≡◌, ◌∙◌, inl, inr, refl, ap, Bool, true, Option, none, some, List, [], ◌∷◌, ltb,
  ==_iff, if◌then◌else◌, arith, All, Bool-cases,
}
use blox_os.Base.Text.{Text}
use blox_os.Base.Table.{find_where, delete_where}
use blox_os.Base.Result.{ok}
use blox_os.Power.Ingest.{
  max_seq, Bucket, Batch, Gap, Stream, has_seq, mem_seq, seqs, acked_through, declare_retained,
  commit_batch,
}
use blox_os.Power.Gaps.{in_gaps}
use blox_os.Power.Prefix.{is_settled, acked-settled, acked-le, acked-stops}
use blox_os.Power.Commit.{Kept, take_buckets-Kept, commit_batch_inv, declare_retained-acked}
use blox_os.Power.Retention.{prune_power_history, Since, at_once, committing, pruning}
use blox_os.Power.Replay.{
  Absorbed, Absorbed-Kept, Absorbed-later, acked_full, commit-Absorbed, commit-stopped, replay,
}

find-delete :
    (expired : ℕ → Bool) (n : ℕ) (l : List Bucket)
    → find_where (has_seq n) (delete_where (λ (b : Bucket). expired b.seq) l)
      ≡ (if expired n then none else find_where (has_seq n) l)
unfolding find_where delete_where
find-delete expired n [] = ground arith
find-delete expired n (b ∷ l) = ground (arith, find-delete expired n l, ==_iff b.seq n)

mem_seq-delete :
    (expired : ℕ → Bool) (n : ℕ) (l : List Bucket)
    → mem_seq n (seqs (delete_where (λ (b : Bucket). expired b.seq) l)) ≡ true
    → mem_seq n (seqs l) ≡ true
unfolding mem_seq seqs delete_where
mem_seq-delete expired n [] h = h
mem_seq-delete expired n (b ∷ l) h = ground (arith, mem_seq-delete expired n l)

in_gaps-delete :
    (stale : Gap → Bool) (n : ℕ) (l : List Gap)
    → in_gaps n (delete_where stale l) ≡ true
    → in_gaps n l ≡ true
unfolding in_gaps delete_where
in_gaps-delete stale n [] h = h
in_gaps-delete stale n (g ∷ l) h = ground (arith, in_gaps-delete stale n l)

-- With fewer rows no more is acknowledged.
acked-fewer :
    (a : ℕ) (st st' : Stream)
    → ((n : ℕ) → is_settled n st' ≡ true → is_settled n st ≡ true)
    → acked_through a st ≡ a
    → acked_through a st' ≡ a
acked-fewer a st st' fewer stopped = elim (Bool-cases (ltb a max_seq)) [
  | inr full ↦ acked_full a st' (ground arith)
  | inl room ↦ elim (Bool-cases (ltb a (acked_through a st'))) [
    | inr same ↦ ground (arith, acked-le a st')
    | inl more ↦
        (let settled = fewer (a + 1) (acked-settled a (a + 1) st' (omega arith) (ground arith)) in
          let free = rw stopped at (acked-stops a st (ground arith)) in absurd (cc (settled, free)))
  ]
]

prune-settled :
    (expired : ℕ → Bool) (stale : Gap → Bool) (st : Stream) (n : ℕ)
    → is_settled n (prune_power_history expired stale st) ≡ true
    → is_settled n st ≡ true
unfolding prune_power_history
prune-settled expired stale st n h =
    ground (arith, mem_seq-delete expired n st.records, in_gaps-delete stale n st.gaps)

prune-Absorbed :
    (canonical : Text → Option Text) (expired : ℕ → Bool) (stale : Gap → Bool) (st : Stream)
    (k : Bucket)
    → k.seq ≤ st.acked_through
    → Absorbed canonical st k
    → Absorbed canonical (prune_power_history expired stale st) k
unfolding Absorbed prune_power_history
prune-Absorbed canonical expired stale st k le (inr (missing, small)) =
    elim (Bool-cases (expired k.seq)) [
      | inl gone ↦ inr (find-delete expired k.seq st.records ∙ rw gone refl, le)
      | inr stays ↦ inr (find-delete expired k.seq st.records ∙ rw stays missing, le)
    ]
prune-Absorbed canonical expired stale st k le (inl (old, found, c, encoded, same)) =
    elim (Bool-cases (expired k.seq)) [
      | inl gone ↦ inr (find-delete expired k.seq st.records ∙ rw gone refl, le)
      | inr stays ↦
          inl (old, find-delete expired k.seq st.records ∙ rw stays found, c, encoded, same)
    ]

all_pruned :
    (canonical : Text → Option Text) (expired : ℕ → Bool) (stale : Gap → Bool) (st : Stream)
    (bs : List Bucket)
    → All (λ (k : Bucket). k.seq ≤ st.acked_through) bs
    → All (Absorbed canonical st) bs
    → All (Absorbed canonical (prune_power_history expired stale st)) bs
all_pruned canonical expired stale st [] le h = tt
all_pruned canonical expired stale st (k ∷ ks) le h = (
  prune-Absorbed canonical expired stale st k le.0 h.0,
  all_pruned canonical expired stale st ks le.1 h.1,
)

all-Kept :
    (canonical : Text → Option Text) (st st' : Stream) (bs : List Bucket)
    → Kept st st'
    → All (Absorbed canonical st) bs
    → All (Absorbed canonical st') bs
all-Kept canonical st st' [] kept h = tt
all-Kept canonical st st' (k ∷ ks) kept h =
    (Absorbed-Kept canonical k st st' kept h.0, all-Kept canonical st st' ks kept h.1)

below_later :
    (a c : ℕ) (bs : List Bucket)
    → a ≤ c
    → All (λ (k : Bucket). k.seq ≤ a) bs
    → All (λ (k : Bucket). k.seq ≤ c) bs
below_later a c [] le h = tt
below_later a c (k ∷ ks) le h = (omega (arith, le, h.0), below_later a c ks le h.1)

-- A commit of another batch.
commit-later :
    (canonical : Text → Option Text) (past_limit : ℕ) (c : Batch) (u v : Stream) (t : ℕ)
    (bs : List Bucket)
    → commit_batch canonical past_limit c u ≡ ok (v, t)
    → (u.acked_through ≤ v.acked_through)
      × (u.retained_from ≤ v.retained_from)
      × (All (Absorbed canonical u) bs → All (Absorbed canonical v) bs)
commit-later canonical past_limit c u v t bs committed =
    let (st1, taken, (_, e)) = commit_batch_inv canonical past_limit c u v t committed in
    let st2 = declare_retained c.retained_from c.buckets st1 in
    let (acked, same, _, further) = declare_retained-acked c.retained_from c.buckets st1 in
    let kept = take_buckets-Kept canonical past_limit u.records c.buckets u st1 taken in
    let v_acked : v.acked_through ≡ acked_through st2.acked_through st2 =
      ap (λ (s : Stream). s.acked_through) e in
    let more = acked-le st2.acked_through st2 in
    (
      omega (arith, kept.acked, acked, v_acked, more),
      omega (arith, kept.retained, further, ap (λ (s : Stream). s.retained_from) e),
      λ h.
          Absorbed-later canonical st1 v bs (ap (λ (s : Stream). s.records) e ∙ same)
            (omega (arith, acked, v_acked, more)) (all-Kept canonical u st1 bs kept h),
    )

-- What stays true of a batch that is acknowledged whole.
record Delivered (canonical : Text → Option Text) (b : Batch) (t : ℕ) (st : Stream) : Type 0 where
  absorbed : All (Absorbed canonical st) b.buckets
  reached : t ≤ st.acked_through
  declared : b.retained_from ≤ st.retained_from
  stopped : acked_through st.acked_through st ≡ st.acked_through

prune-Delivered :
    (canonical : Text → Option Text) (b : Batch) (t : ℕ) (u : Stream) (expired : ℕ → Bool)
    (stale : Gap → Bool)
    → All (λ (k : Bucket). k.seq ≤ t) b.buckets
    → Delivered canonical b t u
    → Delivered canonical b t (prune_power_history expired stale u)
unfolding prune_power_history
prune-Delivered canonical b t u expired stale whole was = record {
  absorbed =
      all_pruned canonical expired stale u b.buckets
        (below_later t u.acked_through b.buckets was.reached whole) was.absorbed;
  reached = was.reached;
  declared = was.declared;
  stopped =
      acked-fewer u.acked_through u (prune_power_history expired stale u)
        (prune-settled expired stale u) was.stopped;
}

Since-Delivered :
    (canonical : Text → Option Text) (b : Batch) (t : ℕ) (st u : Stream)
    → All (λ (k : Bucket). k.seq ≤ t) b.buckets
    → Delivered canonical b t st
    → Since canonical st u
    → Delivered canonical b t u
Since-Delivered canonical b t st u whole h at_once = h
Since-Delivered canonical b t st v whole h (committing {u} before past_limit c n committed) =
    let was = Since-Delivered canonical b t st u whole h before in
    let (more, further, carry) = commit-later canonical past_limit c u v n b.buckets committed in
    let (_, _, _, stopped) = commit-stopped canonical past_limit c u v n committed in
    record {
      absorbed = carry was.absorbed;
      reached = omega (arith, was.reached, more);
      declared = omega (arith, was.declared, further);
      stopped = stopped;
    }
Since-Delivered canonical b t st _ whole h (pruning {u} before expired stale) =
    prune-Delivered canonical b t u expired stale whole
      (Since-Delivered canonical b t st u whole h before)

-- A batch that was committed and acknowledged whole, every sequence of it, is committed again after any
-- other batches and any prunings, in any order, and under any age limit: the answer is what the stream
-- has acknowledged by then, which is no less than before, and only the stream's degraded flag changes;
-- where re-encoding the payload of a bucket of it yields the payload.
pub commit-Since :
    (canonical : Text → Option Text) (past_limit later_limit : ℕ) (b : Batch) (st st' u : Stream)
    (t : ℕ)
    → All (λ (k : Bucket). canonical k.payload ≡ some k.payload) b.buckets
    → commit_batch canonical past_limit b st ≡ ok (st', t)
    → All (λ (k : Bucket). k.seq ≤ t) b.buckets
    → Since canonical st' u
    → (t ≤ u.acked_through)
      × (commit_batch canonical later_limit b u
          ≡ ok (record u { degraded = b.degraded }, u.acked_through))
commit-Since canonical past_limit later_limit b st st' u t encoded committed whole since =
    let (ack, declared, _, stopped) = commit-stopped canonical past_limit b st st' t committed in
    let delivered =
      Since-Delivered canonical b t st' u whole
        (record {
          absorbed = commit-Absorbed canonical past_limit b st st' t encoded committed;
          reached = omega (arith, ack);
          declared = declared;
          stopped = stopped;
        })
        since in
    (
      delivered.reached,
      replay canonical later_limit b u delivered.absorbed delivered.declared delivered.stopped,
    )
