-- ===== src/Power/Ingest.antt =====
-- hub/power_history.go: one stream of one machine, and the commit of a batch into it. The tables of
-- a stream are its records, its gaps and its row of state; every statement is keyed by both.
use blox_os.Base.{
  ℕ, zero, suc, ◌+◌, ◌-◌, Bool, false, ◌&&◌, ◌||◌, Option, none, some, List, [], ◌∷◌, ◌++◌, ltb,
  leb, ◌==◌, max, if◌then◌else◌, length,
}
use blox_os.Base.Text.{Text, text_eq}
use blox_os.Base.Table.{find_where, select_where}
use blox_os.Base.Result.{Result, ok, err, ◌>>=◌}

-- powerhistory.MaxSeq.
abbrev pub max_seq : ℕ
max_seq = 9007199254740991

-- A bucket as the commit handles it; the payload is its JSON.
pub record Bucket : Type 0 where
  pub seq : ℕ
  pub start_ms : ℕ
  pub payload : Text

pub record Batch : Type 0 where
  pub retained_from : ℕ
  pub degraded : Bool
  pub buckets : List Bucket

pub record Gap : Type 0 where
  pub from_seq : ℕ
  pub through_seq : ℕ

-- powerStreamState, with the rows of the stream.
pub record Stream : Type 0 where
  pub acked_through : ℕ
  pub max_seen_seq : ℕ
  pub retained_from : ℕ
  pub degraded : Bool
  pub records : List Bucket
  pub gaps : List Gap

pub data CommitError : Type 0 where
  corrupt_payload conflict too_old duplicate_key : CommitError

abbrev pub has_seq : ℕ → Bucket → Bool
has_seq n b = b.seq == n

unfoldable pub mem_seq : ℕ → List ℕ → Bool
mem_seq n [] = false
mem_seq n (x ∷ xs) = (x == n) || mem_seq n xs

unfoldable pub seqs : List Bucket → List ℕ
seqs [] = []
seqs (b ∷ bs) = b.seq ∷ seqs bs

-- Dedupe against a stored row: both payloads are compared as the current schema writes them.
abbrev pub compare_payload : Option Text → Text → Stream → Result CommitError Stream
compare_payload none payload st = err corrupt_payload
compare_payload (some canonical) payload st =
    if text_eq canonical payload then ok st else err conflict

-- A bucket with no stored row before the batch.
unfoldable pub insert_bucket : ℕ → Bucket → Stream → Result CommitError Stream
unfolding mem_seq seqs
insert_bucket past_limit b st =
    if leb b.seq st.acked_through
    then ok st
    else if ltb b.start_ms past_limit
    then err too_old
    else if mem_seq b.seq (seqs st.records)
    then err duplicate_key
    else ok (record st { max_seen_seq = max st.max_seen_seq b.seq; records = b ∷ st.records })

-- `stored` is the row that the query before the loop found for this bucket.
unfoldable pub take_bucket :
    (Text → Option Text) → ℕ → Option Bucket → Bucket → Stream → Result CommitError Stream
unfolding insert_bucket
take_bucket canonical past_limit none b st = insert_bucket past_limit b st
take_bucket canonical past_limit (some old) b st =
    compare_payload (canonical old.payload) b.payload st

-- The loop over the batch. The query's range spans the batch, so a row of the range is looked up in
-- the whole table as it was.
unfoldable pub take_buckets :
    (Text → Option Text) → ℕ → List Bucket → List Bucket → Stream → Result CommitError Stream
unfolding take_bucket
take_buckets canonical past_limit existing [] st = ok st
take_buckets canonical past_limit existing (b ∷ bs) st =
    take_bucket canonical past_limit (find_where (has_seq b.seq) existing) b st
    >>= take_buckets canonical past_limit existing bs

-- A set of sequences in ascending order: presentSet, then sorted; also ORDER BY seq, a key.
unfoldable pub insert_seq : ℕ → List ℕ → List ℕ
insert_seq n [] = n ∷ []
insert_seq n (x ∷ xs) =
    let rest = insert_seq n xs in
    if ltb n x then n ∷ x ∷ xs else if n == x then x ∷ xs else x ∷ rest

unfoldable pub ascending : List ℕ → List ℕ
unfolding insert_seq
ascending [] = []
ascending (x ∷ xs) = insert_seq x (ascending xs)

-- declarePowerGap: the rows that overlap or touch a range, and the range widened by them.
unfoldable pub touches : ℕ → ℕ → Gap → Bool
touches from through g =
    leb g.from_seq (if ltb through max_seq then through + 1 else through)
    && leb (if ltb 1 from then from - 1 else from) g.through_seq

unfoldable pub merged_from : ℕ → ℕ → List Gap → ℕ
unfolding touches
merged_from from through [] = from
merged_from from through (g ∷ gs) =
    let rest = merged_from from through gs in
    if touches from through g && ltb g.from_seq rest then g.from_seq else rest

unfoldable pub merged_through : ℕ → ℕ → List Gap → ℕ
unfolding touches
merged_through from through [] = through
merged_through from through (g ∷ gs) =
    let rest = merged_through from through gs in
    if touches from through g && ltb rest g.through_seq then g.through_seq else rest

unfoldable pub keep_apart : ℕ → ℕ → List Gap → List Gap
unfolding touches
keep_apart from through [] = []
keep_apart from through (g ∷ gs) =
    let rest = keep_apart from through gs in if touches from through g then rest else g ∷ rest

unfoldable pub declare_gap : ℕ → ℕ → List Gap → List Gap
unfolding merged_from merged_through keep_apart
declare_gap from through gaps =
    record {
      from_seq = merged_from from through gaps;
      through_seq = merged_through from through gaps;
    }
    ∷ keep_apart from through gaps

-- declarePowerGapsForMissing: the interval subtraction over the present sequences.
unfoldable pub declare_missing : ℕ → ℕ → List ℕ → List Gap → List Gap
unfolding declare_gap
declare_missing cursor hi [] gaps = if leb cursor hi then declare_gap cursor hi gaps else gaps
declare_missing cursor hi (seq ∷ present) gaps =
    let skipped = declare_missing (seq + 1) hi present (declare_gap cursor (seq - 1) gaps) in
    let followed = declare_missing (seq + 1) hi present gaps in
    let passed = declare_missing cursor hi present gaps in
    if ltb hi cursor
    then gaps
    else if ltb cursor seq
    then skipped
    else if leb cursor seq
    then followed
    else passed

-- seq BETWEEN lo AND hi.
unfoldable pub between : ℕ → ℕ → List ℕ → List ℕ
between lo hi xs = select_where (λ n. leb lo n && leb n hi) xs

unfoldable pub declare_gaps_for_missing : ℕ → ℕ → List Bucket → Stream → Stream
unfolding declare_missing between ascending seqs
declare_gaps_for_missing lo hi buckets st = record st {
  gaps =
      declare_missing lo hi (ascending (between lo hi (seqs buckets ++ seqs st.records))) st.gaps;
}

-- powerAckedThrough: one pass over the gaps, the skip, and the run of present sequences.
unfoldable pub pass_gaps : List Gap → ℕ → ℕ
pass_gaps [] next = next
pass_gaps (g ∷ gs) next =
    let inside = pass_gaps gs (g.through_seq + 1) in
    let outside = pass_gaps gs next in
    if leb g.from_seq next && leb next g.through_seq then inside else outside

unfoldable pub skip_below : ℕ → List ℕ → List ℕ
skip_below next [] = []
skip_below next (x ∷ xs) = if ltb x next then skip_below next xs else x ∷ xs

unfoldable pub follow_run : ℕ → List ℕ → ℕ × List ℕ
follow_run next [] = (next, [])
follow_run next (x ∷ xs) =
    let rest = follow_run (next + 1) xs in if x == next then rest else (next, x ∷ xs)

unfoldable pub walk : ℕ → List Gap → ℕ → List ℕ → ℕ
unfolding pass_gaps skip_below follow_run
walk zero gaps next present = next
walk (suc fuel) gaps next present =
    let after_gaps = pass_gaps gaps next in
    let (next', present') = follow_run after_gaps (skip_below after_gaps present) in
    let further = walk fuel gaps next' present' in if next' == next then next else further

abbrev pub seqs_above : ℕ → List Bucket → List ℕ
seqs_above from records = ascending (select_where (λ n. ltb from n) (seqs records))

unfoldable pub acked_through : ℕ → Stream → ℕ
unfolding walk
acked_through from st =
    if leb max_seq from
    then from
    else (let gaps = select_where (λ (g : Gap). ltb from g.through_seq) st.gaps in
        let present = seqs_above from st.records in
        walk (suc (length gaps + length present)) gaps (from + 1) present - 1)

unfoldable pub declare_retained : ℕ → List Bucket → Stream → Stream
unfolding declare_gaps_for_missing
declare_retained retained buckets st =
    if ltb st.retained_from retained
    then record (if ltb (st.acked_through + 1) retained
        then declare_gaps_for_missing (st.acked_through + 1) (retained - 1) buckets st
        else st) { retained_from = retained }
    else st

unfoldable pub commit_batch :
    (Text → Option Text) → ℕ → Batch → Stream → Result CommitError (Stream × ℕ)
unfolding take_buckets declare_retained acked_through
commit_batch canonical past_limit b st =
    take_buckets canonical past_limit st.records b.buckets st >>= λ st1.
    let st2 = declare_retained b.retained_from b.buckets st1 in
    let through = acked_through st2.acked_through st2 in
    ok (record st2 { acked_through = through; degraded = b.degraded }, through)
