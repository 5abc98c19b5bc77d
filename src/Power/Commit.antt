-- ===== src/Power/Commit.antt =====
-- hub/power_history.go: what the loop over a batch keeps, and the parts of a commit.
use blox_os.Base.{
  ℕ, ◌+◌, ◌-◌, ◌≤◌, ◌<◌, ◌≡◌, ◌∙◌, ◌⊎◌, inl, inr, refl, sym, ap, subst, Bool, true, false, ◌&&◌,
  ◌||◌, not, Option, none, some, List, [], ◌∷◌, ◌++◌, ltb, leb, ◌==◌, ==_iff, arith, Bool-cases,
  max,
}
use blox_os.Base.Text.{Text, text_eq}
use blox_os.Base.Table.{find_where}
use blox_os.Base.Result.{Result, ok, err, ◌>>=◌, ok_eq}
use blox_os.Power.Ingest.{
  Bucket, Batch, Stream, CommitError, has_seq, mem_seq, seqs, insert_bucket, take_bucket,
  compare_payload, take_buckets, ascending, between, declare_gaps_for_missing, acked_through,
  declare_retained, commit_batch,
}
use blox_os.Power.Gaps.{in_gaps, in_gaps-declare_missing}
use blox_os.Power.Sorted.{
  ascending-Ascending, mem_seq-ascending, mem_seq-select_where, mem_seq-append, All-ascending,
  between-All,
}

-- What the loop over the buckets leaves alone: everything but the records and the highest sequence.
pub record Kept (st st' : Stream) : Type 0 where
  pub acked : st'.acked_through ≡ st.acked_through
  pub retained : st'.retained_from ≡ st.retained_from
  pub gaps : st'.gaps ≡ st.gaps
  pub records :
      (n : ℕ) (old : Bucket)
      → find_where (has_seq n) st.records ≡ some old
      → find_where (has_seq n) st'.records ≡ some old
  pub absent :
      (n : ℕ)
      → n ≤ st.acked_through
      → find_where (has_seq n) st.records ≡ none
      → find_where (has_seq n) st'.records ≡ none

pub Kept-refl : (st : Stream) → Kept st st
Kept-refl st = record {
  acked = refl;
  retained = refl;
  gaps = refl;
  records = λ n old h. h;
  absent = λ n small h. h;
}

pub mem_seq-find :
    (n : ℕ) (old : Bucket) (l : List Bucket)
    → find_where (has_seq n) l ≡ some old
    → mem_seq n (seqs l) ≡ true
unfolding find_where mem_seq seqs
mem_seq-find n old [] h = cc
mem_seq-find n old (b ∷ l) h = ground (arith, mem_seq-find n old l)

pub insert_bucket_inv :
    (past_limit : ℕ) (b : Bucket) (st st' : Stream)
    → insert_bucket past_limit b st ≡ ok st'
    → ((st' ≡ st) × (b.seq ≤ st.acked_through))
      ⊎ ((mem_seq b.seq (seqs st.records) ≡ false)
          × (st.acked_through < b.seq)
          × (st'
              ≡ record st { max_seen_seq = max st.max_seen_seq b.seq; records = b ∷ st.records }))
unfolding insert_bucket
insert_bucket_inv past_limit b st st' h = ground arith

pub compare_payload_inv :
    (canonical : Option Text) (payload : Text) (st st' : Stream)
    → compare_payload canonical payload st ≡ ok st'
    → (st' ≡ st) × (c : Text) × (canonical ≡ some c) × (text_eq c payload ≡ true)
compare_payload_inv none payload st st' h = cc
compare_payload_inv (some c) payload st st' h = elim (Bool-cases (text_eq c payload)) [
  | inl same ↦ (sym (ok_eq (rw same at h)), c, refl, same)
  | inr other ↦ absurd (cc (rw other at h))
]

pub bind_inv :
    {A B : Type 0} (r : Result CommitError A) (f : A → Result CommitError B) (x : B)
    → (r >>= f) ≡ ok x
    → (a : A) × (r ≡ ok a) × (f a ≡ ok x)
bind_inv (ok a) f x h = (a, refl, h)
bind_inv (err e) f x h = cc

pub Kept-trans : (a b c : Stream) → Kept a b → Kept b c → Kept a c
Kept-trans a b c h k = record {
  acked = k.acked ∙ h.acked;
  retained = k.retained ∙ h.retained;
  gaps = k.gaps ∙ h.gaps;
  records = λ n old found. k.records n old (h.records n old found);
  absent =
      λ n small none_yet. k.absent n (omega (arith, small, h.acked)) (h.absent n small none_yet);
}

find_added :
    (n : ℕ) (b old : Bucket) (l : List Bucket)
    → mem_seq b.seq (seqs l) ≡ false
    → find_where (has_seq n) l ≡ some old
    → find_where (has_seq n) (b ∷ l) ≡ some old
find_added n b old l fresh found = elim (Bool-cases (b.seq == n)) [
  | inl same ↦ absurd (
      clash fresh (
        subst (λ k. mem_seq k (seqs l) ≡ true) (sym ((==_iff b.seq n).0 same))
          (mem_seq-find n old l found)))
  | inr other ↦ unfold find_where in (rw other found)
]
  where
    clash : {v : Bool} → v ≡ false → v ≡ true → ⊥
    clash h k = cc

still_absent :
    (n : ℕ) (b : Bucket) (l : List Bucket)
    → n < b.seq
    → find_where (has_seq n) l ≡ none
    → find_where (has_seq n) (b ∷ l) ≡ none
unfolding find_where
still_absent n b l h k = ground arith

pub take_bucket-Kept :
    (canonical : Text → Option Text) (past_limit : ℕ) (stored : Option Bucket) (b : Bucket)
    (st st' : Stream)
    → take_bucket canonical past_limit stored b st ≡ ok st'
    → Kept st st'
unfolding take_bucket
take_bucket-Kept canonical past_limit (some old) b st st' h =
    subst (Kept st) (sym (compare_payload_inv (canonical old.payload) b.payload st st' h).0)
      (Kept-refl st)
take_bucket-Kept canonical past_limit none b st st' h =
    elim (insert_bucket_inv past_limit b st st' h) [
      | inl (same, _) ↦ subst (Kept st) (sym same) (Kept-refl st)
      | inr (fresh, new, e) ↦ subst (Kept st) (sym e) (record {
        acked = refl;
        retained = refl;
        gaps = refl;
        records = λ n old found. find_added n b old st.records fresh found;
        absent = λ n small none_yet. still_absent n b st.records (omega arith) none_yet;
      })
    ]

pub take_buckets-Kept :
    (canonical : Text → Option Text) (past_limit : ℕ) (existing bs : List Bucket) (st st' : Stream)
    → take_buckets canonical past_limit existing bs st ≡ ok st'
    → Kept st st'
unfolding take_buckets
take_buckets-Kept canonical past_limit existing [] st st' h =
    subst (Kept st) (ok_eq h) (Kept-refl st)
take_buckets-Kept canonical past_limit existing (b ∷ bs) st st' h =
    let (mid, one, rest) =
      bind_inv (take_bucket canonical past_limit (find_where (has_seq b.seq) existing) b st) _ st'
        h in
    Kept-trans st mid st' (take_bucket-Kept canonical past_limit _ b st mid one)
      (take_buckets-Kept canonical past_limit existing bs mid st' rest)

-- The parts of a commit that succeeds.
pub commit_batch_inv :
    (canonical : Text → Option Text) (past_limit : ℕ) (b : Batch) (st st' : Stream) (t : ℕ)
    → commit_batch canonical past_limit b st ≡ ok (st', t)
    → (st1 : Stream) × (take_buckets canonical past_limit st.records b.buckets st ≡ ok st1)
      × (let st2 = declare_retained b.retained_from b.buckets st1 in
          (t ≡ acked_through st2.acked_through st2)
          × (st' ≡ record st2 {
            acked_through = acked_through st2.acked_through st2;
            degraded = b.degraded;
          }))
unfolding commit_batch
commit_batch_inv canonical past_limit b st st' t h =
    let (st1, taken, e) =
      bind_inv (take_buckets canonical past_limit st.records b.buckets st) _ (st', t) h in
    (st1, taken, (ap (λ p. p.1) (sym (ok_eq e)), ap (λ p. p.0) (sym (ok_eq e))))

pub declare_retained-acked :
    (retained : ℕ) (bs : List Bucket) (st : Stream)
    → ((declare_retained retained bs st).acked_through ≡ st.acked_through)
      × ((declare_retained retained bs st).records ≡ st.records)
      × (retained ≤ (declare_retained retained bs st).retained_from)
      × (st.retained_from ≤ (declare_retained retained bs st).retained_from)
unfolding declare_retained declare_gaps_for_missing
declare_retained-acked retained bs st = ground arith

present_in :
    (lo hi n : ℕ) (bs records : List Bucket)
    → mem_seq n (ascending (between lo hi (seqs bs ++ seqs records)))
      ≡ ((leb lo n && leb n hi) && (mem_seq n (seqs bs) || mem_seq n (seqs records)))
unfolding between
present_in lo hi n bs records =
    mem_seq-ascending n (between lo hi (seqs bs ++ seqs records))
    ∙ mem_seq-select_where (λ k. leb lo k && leb k hi) n (seqs bs ++ seqs records)
    ∙ ap (λ v. (leb lo n && leb n hi) && v) (mem_seq-append n (seqs bs) (seqs records))

pub declare_retained-gaps :
    (retained n : ℕ) (bs : List Bucket) (st : Stream)
    → in_gaps n (declare_retained retained bs st).gaps ≡ (
        in_gaps n st.gaps
        || (ltb st.retained_from retained
            && ltb st.acked_through n
            && ltb n retained
            && not (mem_seq n (seqs bs) || mem_seq n (seqs st.records))))
unfolding declare_retained declare_gaps_for_missing
declare_retained-gaps retained n bs st =
    let lo = st.acked_through + 1 in
    let hi = retained - 1 in
    let present = ascending (between lo hi (seqs bs ++ seqs st.records)) in
    let exact =
      in_gaps-declare_missing n lo hi present st.gaps
        (ascending-Ascending (between lo hi (seqs bs ++ seqs st.records)))
        (All-ascending (λ x. x ≤ hi) _ (between-All lo hi (seqs bs ++ seqs st.records))) in
    elim (Bool-cases (ltb st.retained_from retained)) [
      | inr old ↦ rw old (ground arith)
      | inl newer ↦ elim (Bool-cases (ltb (st.acked_through + 1) retained)) [
        | inr done ↦ rw (newer, done) (ground arith)
        | inl lost ↦ rw (newer, lost, exact, present_in lo hi n bs st.records) (ground arith)
      ]
    ]
