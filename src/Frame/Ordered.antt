-- ===== src/Frame/Ordered.antt =====
-- hub/power_history.go: the sequences of a validated batch ascend, and a validation holds later too.
use blox_os.Base.{
  ℕ, suc, ◌+◌, ◌≤◌, ◌<◌, ◌≡◌, refl, ap, List, [], ◌∷◌, none, Bool, true, false, ◌&&◌, ◌||◌, not,
  ltb, leb, ◌==◌, arith, All, length, map,
}
use blox_os.Base.Text.{Text, text_eq}
use blox_os.Power.Ingest.{max_seq, seqs}
use blox_os.Power.Gaps.{Ascending}
use blox_os.Power.Sorted.{All-below}
use blox_os.Frame.Wire.{
  ℤ, pos, negsuc, ltb_ℤ, WireBucket, WireBatch, max_future_skew_ms, batch_type, max_batch_records,
}
use blox_os.Frame.Check.{
  in_bucket, check_times, check_contents, check_bucket, check_buckets, min_start_unix_ms,
  valid_power_id, validate_power_batch,
}
use blox_os.Frame.Accept.{to_bucket, to_batch}
use blox_os.Frame.Passing.{
  then_check-parts, then_check-both, refuse_if-parts, then_check-map, rename-none, rename_passed,
}

-- What a round of the loop has found of the bucket's sequence.
check_bucket-seq :
    (limit retained i prev : ℕ) (b : WireBucket)
    → check_bucket limit retained i prev b ≡ none
    → (b.seq ≤ max_seq) × (0 < b.seq) × (retained ≤ b.seq) × (0 < i → prev < b.seq)
unfolding check_bucket
check_bucket-seq limit retained i prev b h =
    let (r, h1) = refuse_if-parts (b.seq == 0 || ltb max_seq b.seq) _ _ h in
    let (s, h2) = refuse_if-parts (ltb 0 i && leb b.seq prev) _ _ h1 in
    let (k, _) = refuse_if-parts (ltb b.seq retained) _ _ h2 in ground (arith, r, s, k)

abbrev wire_seqs : List WireBucket → List ℕ
wire_seqs bs = map (λ (b : WireBucket). b.seq) bs

check_buckets-seqs :
    (limit retained i prev : ℕ) (bs : List WireBucket)
    → check_buckets limit retained i prev bs ≡ none
    → Ascending (wire_seqs bs)
      × All (λ s. (s ≤ max_seq) × (retained ≤ s)) (wire_seqs bs)
      × (0 < i → All (λ s. prev < s) (wire_seqs bs))
unfolding check_buckets
check_buckets-seqs limit retained i prev [] h = (tt, tt, λ _. tt)
check_buckets-seqs limit retained i prev (b ∷ bs) h =
    let (first, rest) = then_check-parts _ _ h in
    let (small, positive, kept, rising) =
      check_bucket-seq limit retained i prev b
        (rename-none (check_bucket limit retained i prev b) _ first) in
    let (ascending, bounded, above) = check_buckets-seqs limit retained (suc i) b.seq bs rest in
    let later = above (omega arith) in
    (
      (later, ascending),
      ((small, kept), bounded),
      λ started. (rising started, All-below prev b.seq (wire_seqs bs) (rising started) later),
    )

seqs-to_bucket :
    (encode : WireBucket → Text) (bs : List WireBucket)
    → seqs (map (to_bucket encode) bs) ≡ wire_seqs bs
unfolding seqs
seqs-to_bucket encode [] = refl
seqs-to_bucket encode (b ∷ bs) = ap (λ l. b.seq ∷ l) (seqs-to_bucket encode bs)

or-left : (a b : Bool) → (a || b) ≡ false → a ≡ false
or-left false b h = refl
or-left true b h = cc

or-right : (a b : Bool) → (a || b) ≡ false → b ≡ false
or-right false b h = h
or-right true b h = cc

ltb_ℤ-later :
    (limit limit' : ℕ) (z : ℤ)
    → limit ≤ limit'
    → ltb_ℤ (pos limit) z ≡ false
    → ltb_ℤ (pos limit') z ≡ false
ltb_ℤ-later limit limit' (pos n) le h = ground arith
ltb_ℤ-later limit limit' (negsuc n) le h = refl

not_before :
    (limit limit' : ℕ) (b : WireBucket)
    → limit ≤ limit'
    → (ltb_ℤ (pos limit) b.start_unix_ms || ltb_ℤ (pos limit) b.end_unix_ms) ≡ false
    → (ltb_ℤ (pos limit') b.start_unix_ms ≡ false) × (ltb_ℤ (pos limit') b.end_unix_ms ≡ false)
not_before limit limit' b le h = (
  ltb_ℤ-later limit limit' b.start_unix_ms le (or-left _ _ h),
  ltb_ℤ-later limit limit' b.end_unix_ms le (or-right _ _ h),
)

check_times-later :
    (limit limit' : ℕ) (b : WireBucket)
    → limit ≤ limit'
    → check_times limit b ≡ none
    → check_times limit' b ≡ none
unfolding check_times
check_times-later limit limit' b le h =
    let (future, h1) =
      refuse_if-parts (ltb_ℤ (pos limit) b.start_unix_ms || ltb_ℤ (pos limit) b.end_unix_ms) _ _
        h in
    let (early, h2) = refuse_if-parts (ltb_ℤ b.start_unix_ms (pos min_start_unix_ms)) _ _ h1 in
    let (order, h3) =
      refuse_if-parts (not (ltb_ℤ b.start_unix_ms b.end_unix_ms) || ltb_ℤ (pos limit) b.end_unix_ms)
        _ _ h2 in
    let (start, end) = not_before limit limit' b le future in
    let forward : not (ltb_ℤ b.start_unix_ms b.end_unix_ms) ≡ false = or-left _ _ order in
    rw (start, end, early, forward) h3

check_bucket-later :
    (limit limit' retained i prev : ℕ) (b : WireBucket)
    → limit ≤ limit'
    → check_bucket limit retained i prev b ≡ none
    → check_bucket limit' retained i prev b ≡ none
unfolding check_bucket
check_bucket-later limit limit' retained i prev b le h =
    let (r, h1) = refuse_if-parts (b.seq == 0 || ltb max_seq b.seq) _ _ h in
    let (s, h2) = refuse_if-parts (ltb 0 i && leb b.seq prev) _ _ h1 in
    let (k, h3) = refuse_if-parts (ltb b.seq retained) _ _ h2 in
    let (times, contents) = then_check-parts (check_times limit b) (check_contents b) h3 in
    rw (r, s, k) (then_check-both (check_times-later limit limit' b le times) contents)

check_buckets-later :
    (limit limit' retained i prev : ℕ) (bs : List WireBucket)
    → limit ≤ limit'
    → check_buckets limit retained i prev bs ≡ none
    → check_buckets limit' retained i prev bs ≡ none
unfolding check_buckets
check_buckets-later limit limit' retained i prev [] le h = refl
check_buckets-later limit limit' retained i prev (b ∷ bs) le h =
    then_check-map
      (λ first. rename_passed (in_bucket i) (
        check_bucket-later limit limit' retained i prev b le
          (rename-none (check_bucket limit retained i prev b) _ first)))
      (check_buckets-later limit limit' retained (suc i) b.seq bs le) h

-- A batch that is valid is valid at every later time.
pub validate-later :
    (b : WireBatch) (now now' : ℕ)
    → now ≤ now'
    → validate_power_batch b now ≡ none
    → validate_power_batch b now' ≡ none
unfolding validate_power_batch
validate-later b now now' le h =
    let (kind, h1) = refuse_if-parts (not (text_eq b.kind batch_type)) _ _ h in
    let (id, h2) = refuse_if-parts (not (valid_power_id b.stream_id)) _ _ h1 in
    let (kept, h3) =
      refuse_if-parts (ltb b.retained_from 1 || ltb max_seq b.retained_from) _ _ h2 in
    let (size, h4) = refuse_if-parts (ltb max_batch_records (length b.buckets)) _ _ h3 in
    rw (kind, id, kept, size)
      (check_buckets-later (now + max_future_skew_ms) (now' + max_future_skew_ms) b.retained_from 0
        0 b.buckets (omega (arith, le)) h4)

-- The sequences of a valid batch.
pub validate-seqs :
    (encode : WireBucket → Text) (b : WireBatch) (now : ℕ)
    → validate_power_batch b now ≡ none
    → Ascending (seqs (to_batch encode b).buckets)
      × All (λ s. (s ≤ max_seq) × (b.retained_from ≤ s)) (seqs (to_batch encode b).buckets)
unfolding validate_power_batch
validate-seqs encode b now h =
    let (_, h1) = refuse_if-parts (not (text_eq b.kind batch_type)) _ _ h in
    let (_, h2) = refuse_if-parts (not (valid_power_id b.stream_id)) _ _ h1 in
    let (_, h3) = refuse_if-parts (ltb b.retained_from 1 || ltb max_seq b.retained_from) _ _ h2 in
    let (_, h4) = refuse_if-parts (ltb max_batch_records (length b.buckets)) _ _ h3 in
    let (ascending, bounded, _) =
      check_buckets-seqs (now + max_future_skew_ms) b.retained_from 0 0 b.buckets h4 in
    rw (seqs-to_bucket encode b.buckets) (ascending, bounded)
