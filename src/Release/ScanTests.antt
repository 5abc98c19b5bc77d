-- ===== src/Release/ScanTests.antt =====
-- proto/updatesigning/release.go: the scanner on small streams, in chunks of seven bytes.
use blox_os.Base.{
  true, ℕ, ◌<◌, ◌≤◌, ◌≡◌, ◌≢◌, ◌↔◌, refl, Option, none, some, List, [], ◌∷◌, ◌++◌, arith, take,
  drop, length,
}
use blox_os.Base.Text.{Text, codes, has_prefix}
use blox_os.Base.Result.{ok, err}
use blox_os.Release.Marker.{
  ambiguous_release, malformed_marker, truncated_marker, release_marker_prefix, release_marker,
  extract_release,
}
use blox_os.Release.Extracting.{whole, occurrences, IsMarker, extract_release-numbered}
use blox_os.Release.Numbering.{release_marker-extract}

abbrev before : Text
before = codes "ELF BLOX"

abbrev marker : Text
marker = codes "BLOXOS-AGENT-RELEASE:0000000042:"

abbrev post : Text
post = codes " tail"

abbrev binary : Text
binary = before ++ (marker ++ post)

marker-written : release_marker release_marker_prefix 42 ≡ some marker
unfolding release_marker
marker-written = refl

marker_once : occurrences release_marker_prefix binary ≡ (marker ++ post) ∷ []
unfolding occurrences has_prefix
marker_once = refl

-- A second marker, a cut one and one with a letter among its digits are refused.
twice : extract_release release_marker_prefix 7 (whole (marker ++ marker)) ≡ err ambiguous_release
unfolding extract_release take has_prefix drop blox_os.Base.Text.parse_uint
twice = refl

cut_off : extract_release release_marker_prefix 7 (whole (take 30 marker)) ≡ err truncated_marker
unfolding extract_release take has_prefix drop
cut_off = refl

misspelt :
    extract_release release_marker_prefix 7 (whole (codes "BLOXOS-AGENT-RELEASE:00000000x2:"))
    ≡ err malformed_marker
unfolding extract_release take has_prefix drop
misspelt = refl

release_marker-extract_example :
    extract_release release_marker_prefix 7 (whole (before ++ (marker ++ post))) ≡ ok (some 42)
release_marker-extract_example =
    release_marker-extract release_marker_prefix before marker post 7 42 (omega arith)
      marker-written marker_once

extract_release-numbered_example :
    (extract_release release_marker_prefix 7 (whole binary) ≡ ok (some 42)) ↔ (
      (here : Text) × (occurrences release_marker_prefix binary ≡ here ∷ [])
      × IsMarker release_marker_prefix here 42)
extract_release-numbered_example =
    extract_release-numbered release_marker_prefix 7 binary 42 (omega arith)

marker-extracted : extract_release release_marker_prefix 7 (whole binary) ≡ ok (some 42)
unfolding extract_release take has_prefix drop blox_os.Base.Text.parse_uint
marker-extracted = refl
