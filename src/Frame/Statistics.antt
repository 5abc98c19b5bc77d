-- ===== src/Frame/Statistics.antt =====
-- hub/power_history.go: what the checks of a domain's statistics accept.
use blox_os.Base.{
  ℕ, zero, suc, ◌≤◌, ◌<◌, ◌≡◌, ◌↔◌, ◌⊎◌, inl, inr, ◌∙◌, refl, ap, ==_iff, Option, none, some, Bool,
  true, false, ◌&&◌, ◌||◌, not, ltb, ◌==◌, arith, Bool-cases,
}
use blox_os.Frame.Wire.{
  ℤ, pos, negsuc, ltb_ℤ, Float, nan, infinity, negative_infinity, above, below, ltb_Float, Stats,
}
use blox_os.Frame.Check.{
  peak_below_mean, ◌then_check◌, refuse_if, check_watts, valid_power_stats, is_some, is_zero,
  peak_is_below, max_samples,
}
use blox_os.Frame.Passing.{refuse_if-parts, refuse_if-passes, then_check-parts}

-- A float that is this number of units, or the negative zero.
abbrev pub Reads : Float → ℕ → Type 0
Reads w n = (w ≡ above n) ⊎ ((w ≡ below 0) × (n ≡ 0))

-- A domain that was not observed, or one whose mean is at most its peak and its peak at most the bound,
-- over no more samples than there should be.
abbrev pub IsStats : Stats → ℤ → ℕ → Type 0
IsStats st expected bound =
    (ltb_ℤ expected st.samples ≡ false)
    × (((st.samples ≡ pos 0) × (st.mean_watts ≡ none) × (st.peak_watts ≡ none))
        ⊎ ((n mean_units peak_units : ℕ) × (mean peak : Float) × (st.samples ≡ pos n)
            × (0 < n)
            × (n ≤ max_samples)
            × (st.mean_watts ≡ some mean)
            × (st.peak_watts ≡ some peak)
            × Reads mean mean_units
            × Reads peak peak_units
            × (mean_units ≤ peak_units)
            × (peak_units ≤ bound)))

check_watts-Reads :
    (bound : ℕ) (w : Float)
    → check_watts (above bound) (some w) ≡ none
    → (n : ℕ) × Reads w n × (n ≤ bound)
unfolding check_watts
check_watts-Reads bound nan h = absurd (cc h)
check_watts-Reads bound infinity h = absurd (cc h)
check_watts-Reads bound negative_infinity h = absurd (cc h)
check_watts-Reads bound (above n) h = (n, inl refl, ground arith)
check_watts-Reads bound (below zero) h = (0, inr (refl, refl), omega arith)
check_watts-Reads bound (below (suc n)) h = absurd (ground arith)

Reads-check_watts :
    (bound n : ℕ) (w : Float) → Reads w n → n ≤ bound → check_watts (above bound) (some w) ≡ none
unfolding check_watts
Reads-check_watts bound n w (inl e) le = rw e (ground arith)
Reads-check_watts bound n w (inr (e, z)) le = rw e (ground arith)

peak_is_below-Reads :
    (m p : ℕ) (mean peak : Float) → Reads mean m → Reads peak p → ltb_Float peak mean ≡ ltb p m
peak_is_below-Reads m p mean peak (inl e) (inl f) = rw (e, f) refl
peak_is_below-Reads m p mean peak (inl e) (inr (f, z)) = rw (e, f, z) (ground arith)
peak_is_below-Reads m p mean peak (inr (e, z)) (inl f) = rw (e, f, z) (ground arith)
peak_is_below-Reads m p mean peak (inr (e, z)) (inr (f, y)) = rw (e, f, z, y) refl

unobserved :
    (mean peak : Option Float)
    → (is_some mean || is_some peak) ≡ false
    → (mean ≡ none) × (peak ≡ none)
unobserved none none h = (refl, refl)
unobserved none (some p) h = absurd (cc h)
unobserved (some m) peak h = absurd (cc h)

observed :
    (mean peak : Option Float) (bound : ℕ)
    → not (is_some mean && is_some peak) ≡ false
    → check_watts (above bound) mean ≡ none
    → check_watts (above bound) peak ≡ none
    → peak_is_below mean peak ≡ false
    → (m p : ℕ) × (u v : Float) × (mean ≡ some u)
      × (peak ≡ some v)
      × Reads u m
      × Reads v p
      × (m ≤ p)
      × (p ≤ bound)
observed none peak bound both mean_ok peak_ok order = absurd (cc both)
observed (some u) none bound both mean_ok peak_ok order = absurd (cc both)
observed (some u) (some v) bound both mean_ok peak_ok order =
    let (m, reads_m, _) = check_watts-Reads bound u mean_ok in
    let (p, reads_p, top) = check_watts-Reads bound v peak_ok in
    let as_numbers = peak_is_below-Reads m p u v reads_m reads_p in
    (m, p, u, v, refl, refl, reads_m, reads_p, ground (arith, as_numbers, order), top)

and-second : (a b : Bool) → a ≡ true → (a && b) ≡ false → b ≡ false
and-second true b e h = h
and-second false b e h = absurd (cc e)

-- The samples as a number, once their range is passed.
in_range :
    (z : ℤ)
    → (ltb_ℤ z (pos 0) || ltb_ℤ (pos max_samples) z) ≡ false
    → (n : ℕ) × (z ≡ pos n) × (n ≤ max_samples)
in_range (pos n) h = (n, refl, ground arith)
in_range (negsuc n) h = absurd (cc h)

accepted :
    (st : Stats) (expected : ℤ) (bound : ℕ)
    → valid_power_stats st expected (above bound) ≡ none
    → IsStats st expected bound
unfolding valid_power_stats
accepted st expected bound h =
    let (range, h1) =
      refuse_if-parts (ltb_ℤ st.samples (pos 0) || ltb_ℤ (pos max_samples) st.samples) _ _ h in
    let (zero_stats, h2) =
      refuse_if-parts (is_zero st.samples && (is_some st.mean_watts || is_some st.peak_watts)) _ _
        h1 in
    let (some_stats, h3) =
      refuse_if-parts
        (ltb_ℤ (pos 0) st.samples && not (is_some st.mean_watts && is_some st.peak_watts)) _ _ h2 in
    let (few, h4) = refuse_if-parts (ltb_ℤ expected st.samples) _ _ h3 in
    let (mean_ok, h5) =
      then_check-parts (check_watts (above bound) st.mean_watts)
        (check_watts (above bound) st.peak_watts
          then_check refuse_if (peak_is_below st.mean_watts st.peak_watts) peak_below_mean)
        h4 in
    let (peak_ok, h6) =
      then_check-parts (check_watts (above bound) st.peak_watts)
        (refuse_if (peak_is_below st.mean_watts st.peak_watts) peak_below_mean) h5 in
    let (n, is_n, le) = in_range st.samples range in
    let ends = refuse_if-passes (peak_is_below st.mean_watts st.peak_watts) peak_below_mean h6 in
    (
      few,
      elim (Bool-cases (n == 0)) [
        | inl none_seen ↦
            (let (no_mean, no_peak) =
                unobserved st.mean_watts st.peak_watts
                  (and-second (n == 0) _ none_seen (rw is_n at zero_stats)) in
              inl (is_n ∙ ap pos ((==_iff n 0).0 none_seen), no_mean, no_peak))
        | inr seen ↦
            (let (m, p, u, v, is_mean, is_peak, reads_m, reads_p, order, top) =
                observed st.mean_watts st.peak_watts bound
                  (and-second (ltb 0 n) _ (ground (arith, seen)) (rw is_n at some_stats)) mean_ok
                  peak_ok ends in
              inr (
                n,
                m,
                p,
                u,
                v,
                is_n,
                ground (arith, seen),
                le,
                is_mean,
                is_peak,
                reads_m,
                reads_p,
                order,
                top,
              ))
      ],
    )

refused_not :
    (st : Stats) (expected : ℤ) (bound : ℕ)
    → IsStats st expected bound
    → valid_power_stats st expected (above bound) ≡ none
unfolding valid_power_stats
refused_not st expected bound (few, inl (zero_samples, no_mean, no_peak)) =
    rw (zero_samples, no_mean, no_peak) (rw (rw zero_samples at few) refl)
refused_not st expected bound
      (
        few,
        inr (n, m, p, mean, peak, is_n, seen, le, is_mean, is_peak, reads_m, reads_p, order, top),
      ) =
    let low = Reads-check_watts bound m mean reads_m (omega (arith, order, top)) in
    let high = Reads-check_watts bound p peak reads_p top in
    let ends = peak_is_below-Reads m p mean peak reads_m reads_p in
    let enough = rw is_n at few in
    rw (is_n, is_mean, is_peak) (rw (low, high, enough, ends) (ground (arith, seen, le, order)))

-- Statistics are accepted under a bound and an expected count exactly where they are no observation at all,
-- with no samples, no mean and no peak; or a mean and a peak that are finite and not negative, the mean at
-- most the peak and the peak at most the bound, over at least one sample and at most 1,000,000; and in both
-- cases the samples are no more than expected.
pub valid_stats_iff :
    (st : Stats) (expected : ℤ) (bound : ℕ)
    → (valid_power_stats st expected (above bound) ≡ none) ↔ IsStats st expected bound
valid_stats_iff st expected bound = (accepted st expected bound, refused_not st expected bound)
