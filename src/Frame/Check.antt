-- ===== src/Frame/Check.antt =====
-- hub/power_history.go: validatePowerBatch. Each check answers with the first refusal, if there is one.
use blox_os.Base.{
  ℕ, suc, ◌+◌, ◌-◌, ◌*◌, ◌%◌, ◌^◌, List, [], ◌∷◌, Option, none, some, Bool, true, false, not, ◌&&◌,
  ◌||◌, ltb, leb, ◌==◌, if◌then◌else◌, length,
}
use blox_os.Base.Text.{Text, text_eq, byte_length}
use blox_os.Power.Ingest.{max_seq}
use blox_os.Frame.Wire.{
  ℤ, pos, negsuc, ltb_ℤ, to_nat, Float, above, ltb_Float, is_finite, Stats, Sensor, DomainSource,
  WireBucket, WireBatch, batch_type, domain_system, domain_cpu, domain_dram, max_batch_records,
  max_sensors, max_future_skew_ms, max_domain_sources, max_source_len,
}

pub data StatsError : Type 0 where
  samples_out_of_range stats_with_zero_samples samples_without_stats samples_exceed_expected :
      StatsError
  not_finite watts_out_of_range peak_below_mean : StatsError

pub data SourcesError : Type 0 where
  too_many_sources invalid_domain invalid_source duplicate_source label_without_statistics :
      SourcesError

pub data BucketError : Type 0 where
  seq_out_of_range not_increasing below_retained clock_skew start_out_of_range end_out_of_range :
      BucketError
  window_out_of_range expected_out_of_range too_many_gpus invalid_gpu_id duplicate_gpu : BucketError
  bad_stats : StatsError → BucketError
  total_without_gpus total_exceeds_gpus : BucketError
  bad_sources : SourcesError → BucketError

pub data BatchError : Type 0 where
  bad_type invalid_stream_id retained_out_of_range too_many_buckets : BatchError
  in_bucket : ℕ → BucketError → BatchError

-- The first check, and the next one if it passes.
infixr 4 ◌then_check◌
abbrev pub ◌then_check◌ : {E : Type 0} → Option E → Option E → Option E
none then_check next = next
some e then_check next = some e

abbrev pub refuse_if : {E : Type 0} → Bool → E → Option E
refuse_if b e = if b then some e else none

-- The classes of powerIDRe and powerSourceRe.
abbrev pub is_id_char : ℕ → Bool
is_id_char c =
    (leb 65 c && leb c 90)
    || (leb 97 c && leb c 122)
    || (leb 48 c && leb c 57)
    || c == 46
    || c == 95
    || c == 45

abbrev pub is_source_char : ℕ → Bool
is_source_char c = is_id_char c || c == 58

unfoldable pub all_chars : (ℕ → Bool) → Text → Bool
all_chars p [] = true
all_chars p (c ∷ s) = p c && all_chars p s

abbrev pub power_max_id_len : ℕ
power_max_id_len = 128

-- validPowerID.
unfoldable pub valid_power_id : Text → Bool
unfolding all_chars byte_length
valid_power_id s =
    ltb 0 (byte_length s) && leb (byte_length s) power_max_id_len && all_chars is_id_char s

-- validPowerLabel.
unfoldable pub valid_power_label : Text → Bool
unfolding all_chars byte_length
valid_power_label s =
    ltb 0 (byte_length s) && leb (byte_length s) max_source_len && all_chars is_source_char s

-- A number of watts as a float.
abbrev pub watts : ℕ → Float
watts n = above (n * 2 ^ 1074)

abbrev pub max_watts_per_sensor : ℕ
max_watts_per_sensor = 100000

abbrev pub max_watts_gpu_total : ℕ
max_watts_gpu_total = 1000000

abbrev pub max_watts_domain : ℕ
max_watts_domain = 100000

abbrev pub max_samples : ℕ
max_samples = 1000000

abbrev pub is_some {ℓ} : {A : Type ℓ} → Option A → Bool
is_some none = false
is_some (some a) = true

abbrev pub is_zero : ℤ → Bool
is_zero (pos n) = n == 0
is_zero (negsuc n) = false

unfoldable pub check_watts : Float → Option Float → Option StatsError
check_watts bound none = none
check_watts bound (some w) =
    if not (is_finite w)
    then some not_finite
    else if ltb_Float w (above 0) || ltb_Float bound w
    then some watts_out_of_range
    else none

abbrev pub peak_is_below : Option Float → Option Float → Bool
peak_is_below (some mean) (some peak) = ltb_Float peak mean
peak_is_below _ _ = false

-- validPowerStats; the two readings are checked in either order.
unfoldable pub valid_power_stats : Stats → ℤ → Float → Option StatsError
unfolding check_watts
valid_power_stats st expected bound =
    refuse_if (ltb_ℤ st.samples (pos 0) || ltb_ℤ (pos max_samples) st.samples) samples_out_of_range
    then_check refuse_if (is_zero st.samples && (is_some st.mean_watts || is_some st.peak_watts))
        stats_with_zero_samples
    then_check refuse_if
        (ltb_ℤ (pos 0) st.samples && not (is_some st.mean_watts && is_some st.peak_watts))
        samples_without_stats
    then_check refuse_if (ltb_ℤ expected st.samples) samples_exceed_expected
    then_check check_watts bound st.mean_watts
    then_check check_watts bound st.peak_watts
    then_check refuse_if (peak_is_below st.mean_watts st.peak_watts) peak_below_mean

abbrev pub check_stats : Option Stats → ℤ → Float → Option BucketError
check_stats none expected bound = none
check_stats (some st) expected bound = elim (valid_power_stats st expected bound) [
  | none ↦ none
  | some e ↦ some (bad_stats e)
]

unfoldable pub seen_before : Text → List Text → Bool
unfolding text_eq
seen_before s [] = false
seen_before s (t ∷ ts) = text_eq s t || seen_before s ts

-- A label for a domain of this hub that carries no statistics.
unfoldable pub labels_nothing : WireBucket → Text → Bool
unfolding text_eq
labels_nothing b d =
    (text_eq d domain_system && not (is_some b.system))
    || (text_eq d domain_cpu && not (is_some b.cpu))
    || (text_eq d domain_dram && not (is_some b.dram))

unfoldable pub check_sources : WireBucket → List Text → List DomainSource → Option SourcesError
unfolding valid_power_label seen_before labels_nothing
check_sources b seen [] = none
check_sources b seen (s ∷ ss) =
    refuse_if (not (valid_power_label s.domain)) invalid_domain
    then_check refuse_if (not (valid_power_label s.source)) invalid_source
    then_check refuse_if (seen_before s.domain seen) duplicate_source
    then_check refuse_if (labels_nothing b s.domain) label_without_statistics
    then_check check_sources b (s.domain ∷ seen) ss

-- validPowerSources.
unfoldable pub valid_power_sources : WireBucket → Option SourcesError
unfolding check_sources
valid_power_sources b =
    refuse_if (ltb max_domain_sources (length b.sources)) too_many_sources
    then_check check_sources b [] b.sources

unfoldable pub check_gpus : ℤ → List Text → List Sensor → Option BucketError
unfolding valid_power_id seen_before valid_power_stats
check_gpus expected seen [] = none
check_gpus expected seen (g ∷ gs) =
    refuse_if (not (valid_power_id g.id)) invalid_gpu_id
    then_check refuse_if (seen_before g.id seen) duplicate_gpu
    then_check check_stats (some g.stats) expected (watts max_watts_per_sensor)
    then_check check_gpus expected (g.id ∷ seen) gs

-- minGPUSamples after the loop.
unfoldable pub least_from : ℤ → List Sensor → ℤ
least_from least [] = least
least_from least (g ∷ gs) =
    let smaller = least_from g.stats.samples gs in
    let same = least_from least gs in if ltb_ℤ g.stats.samples least then smaller else same

unfoldable pub min_gpu_samples : List Sensor → ℤ
unfolding least_from
min_gpu_samples [] = pos 0
min_gpu_samples (g ∷ gs) = least_from g.stats.samples gs

abbrev pub is_empty_list {ℓ} : {A : Type ℓ} → List A → Bool
is_empty_list [] = true
is_empty_list (x ∷ xs) = false

-- The GPUs' total covers no more observations than each of them.
unfoldable pub check_total : WireBucket → Option BucketError
unfolding min_gpu_samples
check_total b = elim b.gpu_total [
  | none ↦ none
  | some total ↦
      if not (ltb_ℤ (pos 0) total.samples)
      then none
      else if is_empty_list b.gpus
      then some total_without_gpus
      else if ltb_ℤ (min_gpu_samples b.gpus) total.samples
      then some total_exceeds_gpus
      else none
]

abbrev pub min_start_unix_ms : ℕ
min_start_unix_ms = 1000000000000

abbrev pub max_expected_samples : ℕ
max_expected_samples = 86400

-- powerMaxWindowDuration, in nanoseconds.
abbrev pub max_window_ns : ℕ
max_window_ns = 3600000000000

-- The window as a time.Duration, which wraps around; it is computed for 0 < start < end.
abbrev pub window_ns : ℤ → ℤ → ℕ
window_ns start end = ((to_nat end - to_nat start) * 1000000) % 2 ^ 64

abbrev pub window_too_long : ℤ → ℤ → Bool
window_too_long start end =
    ltb max_window_ns (window_ns start end) && ltb (window_ns start end) (2 ^ 63)

unfoldable pub check_times : ℕ → WireBucket → Option BucketError
check_times limit b =
    refuse_if (ltb_ℤ (pos limit) b.start_unix_ms || ltb_ℤ (pos limit) b.end_unix_ms) clock_skew
    then_check refuse_if (ltb_ℤ b.start_unix_ms (pos min_start_unix_ms)) start_out_of_range
    then_check refuse_if
        (not (ltb_ℤ b.start_unix_ms b.end_unix_ms) || ltb_ℤ (pos limit) b.end_unix_ms)
        end_out_of_range
    then_check refuse_if (window_too_long b.start_unix_ms b.end_unix_ms) window_out_of_range

-- What a bucket holds beside its sequence and its times.
unfoldable pub check_contents : WireBucket → Option BucketError
unfolding check_gpus check_total valid_power_stats valid_power_sources
check_contents b =
    refuse_if
      (ltb_ℤ b.expected_samples (pos 1) || ltb_ℤ (pos max_expected_samples) b.expected_samples)
      expected_out_of_range
    then_check refuse_if (ltb max_sensors (length b.gpus)) too_many_gpus
    then_check check_gpus b.expected_samples [] b.gpus
    then_check check_stats b.gpu_total b.expected_samples (watts max_watts_gpu_total)
    then_check check_total b
    then_check check_stats b.system b.expected_samples (watts max_watts_domain)
    then_check check_stats b.cpu b.expected_samples (watts max_watts_domain)
    then_check check_stats b.dram b.expected_samples (watts max_watts_domain)
    then_check elim (valid_power_sources b) [ none ↦ none | some e ↦ some (bad_sources e) ]

-- One round of the loop over the buckets: the bucket of index i, after one of sequence prev.
unfoldable pub check_bucket : ℕ → ℕ → ℕ → ℕ → WireBucket → Option BucketError
unfolding check_times check_contents
check_bucket limit retained i prev b =
    refuse_if (b.seq == 0 || ltb max_seq b.seq) seq_out_of_range
    then_check refuse_if (ltb 0 i && leb b.seq prev) not_increasing
    then_check refuse_if (ltb b.seq retained) below_retained
    then_check check_times limit b
    then_check check_contents b

unfoldable pub check_buckets : ℕ → ℕ → ℕ → ℕ → List WireBucket → Option BatchError
unfolding check_bucket
check_buckets limit retained i prev [] = none
check_buckets limit retained i prev (b ∷ bs) =
    elim (check_bucket limit retained i prev b) [ none ↦ none | some e ↦ some (in_bucket i e) ]
    then_check check_buckets limit retained (suc i) b.seq bs

-- validatePowerBatch, at a time in unix milliseconds.
unfoldable pub validate_power_batch : WireBatch → ℕ → Option BatchError
unfolding text_eq valid_power_id check_buckets
validate_power_batch b now =
    refuse_if (not (text_eq b.kind batch_type)) bad_type
    then_check refuse_if (not (valid_power_id b.stream_id)) invalid_stream_id
    then_check refuse_if (ltb b.retained_from 1 || ltb max_seq b.retained_from)
        retained_out_of_range
    then_check refuse_if (ltb max_batch_records (length b.buckets)) too_many_buckets
    then_check check_buckets (now + max_future_skew_ms) b.retained_from 0 0 b.buckets
