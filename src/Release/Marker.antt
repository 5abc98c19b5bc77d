-- ===== src/Release/Marker.antt =====
-- proto/updatesigning/release.go: the marker of a release inside a binary, and the scanner that
-- reads it out of a stream in chunks. The prefix is an argument of the scanner.
use blox_os.Base.{
  ℕ, zero, suc, ◌+◌, ◌-◌, ◌/◌, ◌%◌, Bool, true, false, ◌&&◌, ◌||◌, not, Option, none, some, [], ◌∷◌,
  ◌++◌, ltb, leb, ◌==◌, if◌then◌else◌, length, take, drop,
}
use blox_os.Base.Text.{Text, codes, has_prefix, parse_uint}
use blox_os.Release.Floor.{max_release}
use blox_os.Base.Result.{Result, ok, err, ◌>>=◌}

abbrev pub release_marker_digits : ℕ
release_marker_digits = 10

abbrev pub release_marker_prefix : Text
release_marker_prefix = codes "BLOXOS-" ++ codes "AGENT-" ++ codes "RELEASE:"

unfoldable pub release_marker_len : Text → ℕ
release_marker_len prefix = length prefix + release_marker_digits + 1

-- fmt's %0*d: a number in this many digits.
unfoldable pub padded : ℕ → ℕ → Text
padded zero n = []
padded (suc width) n = padded width (n / 10) ++ (n % 10 + 48) ∷ []

-- ReleaseMarker; none is its error. A number of at most ten digits is never wider than the field.
unfoldable pub release_marker : Text → ℕ → Option Text
unfolding padded
release_marker prefix seq =
    if seq == 0 || ltb max_release seq
    then none
    else some (prefix ++ (padded release_marker_digits seq ++ b':' ∷ []))

pub data ScanError : Type 0 where
  read_failed truncated_marker malformed_marker zero_release ambiguous_release : ScanError

-- What a reader yields: its bytes, and then the end of the stream or another error.
pub record Stream : Type 0 where
  pub bytes : Text
  pub fails : Bool

unfoldable pub are_digits : Text → Bool
are_digits [] = true
are_digits (c ∷ s) = leb 48 c && leb c 57 && are_digits s

abbrev pub numbered : Option ℕ → Result ScanError ℕ
numbered none = err malformed_marker
numbered (some seq) = if seq == 0 then err zero_release else ok seq

-- parseMarkerBody, on <digits>: .
unfoldable pub parse_marker_body : Text → Result ScanError ℕ
unfolding are_digits
parse_marker_body body =
    let digits = take release_marker_digits body in
    if not (are_digits digits)
    then err malformed_marker
    else if not (has_prefix (b':' ∷ []) (drop release_marker_digits body))
    then err malformed_marker
    else numbered (parse_uint digits)

-- The count of markers and the one found: a second one is refused.
abbrev pub count_marker : Option ℕ → ℕ → Result ScanError (Option ℕ)
count_marker none seq = ok (some seq)
count_marker (some first) seq = err ambiguous_release

-- buf[i+len(prefix) : i+markerLen], parsed and counted.
unfoldable pub read_marker : Text → Text → Option ℕ → Result ScanError (Option ℕ)
unfolding parse_marker_body
read_marker prefix here found =
    parse_marker_body (take (release_marker_digits + 1) (drop (length prefix) here))
    >>= count_marker found

-- The scan of one buffer: every occurrence of the prefix, from left to right, that has enough
-- bytes behind it.
unfoldable pub scan_buffer : Text → Bool → Text → Option ℕ → Result ScanError (Option ℕ)
unfolding read_marker release_marker_len
scan_buffer prefix eof [] found = ok found
scan_buffer prefix eof (b ∷ bs) found =
    if not (has_prefix prefix (b ∷ bs))
    then scan_buffer prefix eof bs found
    else if ltb (length (b ∷ bs)) (release_marker_len prefix)
    then (if eof then err truncated_marker else ok found)
    else read_marker prefix (b ∷ bs) found >>= λ found'. scan_buffer prefix eof bs found'

-- The tail that is kept for the next chunk.
unfoldable pub carry : ℕ → Text → Text
carry keep buf = if ltb keep (length buf) then drop (length buf - keep) buf else buf

-- The loop over the chunks: io.ReadFull yields `size` bytes, or all that is left.
unfoldable pub scan_chunks : Text → ℕ → ℕ → Text → Option ℕ → Stream → Result ScanError (Option ℕ)
unfolding scan_buffer carry release_marker_len
scan_chunks prefix size zero buf found r = err read_failed
scan_chunks prefix size (suc fuel) buf found r =
    let buf' = buf ++ take size r.bytes in
    if ltb (length r.bytes) size
    then (if r.fails then err read_failed else scan_buffer prefix true buf' found)
    else scan_buffer prefix false buf' found >>= λ found'.
        scan_chunks prefix size fuel (carry (release_marker_len prefix - 1) buf') found'
          (record r { bytes = drop size r.bytes })

-- ExtractReleaseReader; no marker is `none`, which the code returns as 0.
unfoldable pub extract_release : Text → ℕ → Stream → Result ScanError (Option ℕ)
unfolding scan_chunks
extract_release prefix size r = scan_chunks prefix size (suc (length r.bytes)) [] none r
