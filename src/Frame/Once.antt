-- ===== src/Frame/Once.antt =====
-- hub/power_history.go: the insertions of a validated batch never meet a row of their key.
use blox_os.Base.{
  ℕ, suc, ◌≤◌, ◌≡◌, ◌≢◌, ◌∙◌, refl, ap, List, [], ◌∷◌, Option, none, some, false, arith, All,
  Option-cases, inl, inr,
}
use blox_os.Base.Text.{Text}
use blox_os.Base.Table.{find_where}
use blox_os.Base.Result.{ok, err, Result-cases, err_eq}
use blox_os.Power.Ingest.{
  Bucket, Stream, duplicate_key, has_seq, mem_seq, seqs, insert_bucket, take_bucket,
  compare_payload, take_buckets, commit_batch,
}
use blox_os.Power.Gaps.{Ascending}
use blox_os.Power.Commit.{insert_bucket_inv, compare_payload_inv}
use blox_os.Frame.Wire.{WireBucket, WireBatch}
use blox_os.Frame.Check.{validate_power_batch}
use blox_os.Frame.Accept.{to_batch}
use blox_os.Frame.Ordered.{validate-seqs}

-- From a sequence on, the rows are those that stood in the table before the loop.
abbrev Fresh : ℕ → List Bucket → List Bucket → Type 0
Fresh low existing records =
    (n : ℕ) → low ≤ n → mem_seq n (seqs existing) ≡ false → mem_seq n (seqs records) ≡ false

mem_seq-missing :
    (n : ℕ) (l : List Bucket) → find_where (has_seq n) l ≡ none → mem_seq n (seqs l) ≡ false
unfolding find_where mem_seq seqs
mem_seq-missing n [] h = refl
mem_seq-missing n (b ∷ l) h = ground (arith, mem_seq-missing n l)

insert_bucket-key :
    (past_limit : ℕ) (b : Bucket) (st : Stream)
    → mem_seq b.seq (seqs st.records) ≡ false
    → insert_bucket past_limit b st ≢ err duplicate_key
unfolding insert_bucket
insert_bucket-key past_limit b st fresh h = ground arith

compare_payload-key :
    (canonical : Option Text) (payload : Text) (st : Stream)
    → compare_payload canonical payload st ≢ err duplicate_key
compare_payload-key none payload st h = cc
compare_payload-key (some c) payload st h = ground arith

take_bucket-key :
    (canonical : Text → Option Text) (past_limit low : ℕ) (existing : List Bucket) (b : Bucket)
    (st : Stream)
    → low ≤ b.seq
    → Fresh low existing st.records
    → take_bucket canonical past_limit (find_where (has_seq b.seq) existing) b st
      ≢ err duplicate_key
unfolding take_bucket
take_bucket-key canonical past_limit low existing b st le fresh h =
    elim (Option-cases (find_where (has_seq b.seq) existing)) [
      | inl missing ↦
          insert_bucket-key past_limit b st
            (fresh b.seq le (mem_seq-missing b.seq existing missing)) (rw missing at h)
      | inr (old, found) ↦ compare_payload-key (canonical old.payload) b.payload st (rw found at h)
    ]

take_bucket-Fresh :
    (canonical : Text → Option Text) (past_limit low : ℕ) (existing : List Bucket)
    (stored : Option Bucket) (b : Bucket) (st st' : Stream)
    → low ≤ b.seq
    → Fresh low existing st.records
    → take_bucket canonical past_limit stored b st ≡ ok st'
    → Fresh (suc b.seq) existing st'.records
unfolding take_bucket mem_seq seqs
take_bucket-Fresh canonical past_limit low existing (some old) b st st' le fresh h n lt gone =
    let (e, _, _, _) = compare_payload_inv (canonical old.payload) b.payload st st' h in
    rw e (fresh n (omega (arith, le, lt)) gone)
take_bucket-Fresh canonical past_limit low existing none b st st' le fresh h n lt gone =
    let before = fresh n (omega (arith, le, lt)) gone in
    elim (insert_bucket_inv past_limit b st st' h) [
      | inl (e, _) ↦ rw e before
      | inr (_, _, e) ↦ rw e (ground (arith, before))
    ]

take_buckets-key :
    (canonical : Text → Option Text) (past_limit low : ℕ) (existing bs : List Bucket) (st : Stream)
    → All (λ s. low ≤ s) (seqs bs)
    → Ascending (seqs bs)
    → Fresh low existing st.records
    → take_buckets canonical past_limit existing bs st ≢ err duplicate_key
unfolding take_buckets seqs
take_buckets-key canonical past_limit low existing [] st above up fresh h = cc
take_buckets-key canonical past_limit low existing (b ∷ bs) st above up fresh h =
    let stored = find_where (has_seq b.seq) existing in
    elim (Result-cases (take_bucket canonical past_limit stored b st)) [
      | inl (mid, one) ↦
          take_buckets-key canonical past_limit (suc b.seq) existing bs mid up.0 up.1
            (take_bucket-Fresh canonical past_limit low existing stored b st mid above.0 fresh one)
            (rw one at h)
      | inr (e, one) ↦
          take_bucket-key canonical past_limit low existing b st above.0 fresh (one ∙ (rw one at h))
    ]

-- A validated batch is never refused for a row of its key, whatever the table holds.
pub validated-key :
    (encode : WireBucket → Text) (canonical : Text → Option Text) (past_limit now : ℕ)
    (b : WireBatch) (st : Stream)
    → validate_power_batch b now ≡ none
    → commit_batch canonical past_limit (to_batch encode b) st ≢ err duplicate_key
unfolding commit_batch
validated-key encode canonical past_limit now b st valid h =
    let (up, _) = validate-seqs encode b now valid in
    let buckets = (to_batch encode b).buckets in
    elim (Result-cases (take_buckets canonical past_limit st.records buckets st)) [
      | inl (mid, taken) ↦ absurd (cc (rw taken at h))
      | inr (e, failed) ↦
          take_buckets-key canonical past_limit 0 st.records buckets st (all_above (seqs buckets))
            up (λ n le gone. gone) (failed ∙ ap err (err_eq (rw failed at h)))
    ]
  where
    all_above : (l : List ℕ) → All (λ s. 0 ≤ s) l
    all_above [] = tt
    all_above (x ∷ l) = (omega arith, all_above l)
