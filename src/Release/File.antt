-- ===== src/Release/File.antt =====
-- agent/release_floor.go: the text of the floor file, read and written.
use blox_os.Base.{
  ℕ, suc, zero, ◌+◌, ◌/◌, ◌%◌, Bool, true, ◌&&◌, ◌||◌, Option, none, some, List, [], ◌∷◌, ◌++◌, leb,
  ltb, ◌==◌, if◌then◌else◌, length,
}
use blox_os.Base.Text.{
  Text, codes, text_eq, lower, trim_space, trim_cr, split_on, cut, is_empty, has_prefix, parse_uint,
}
use blox_os.Base.Result.{Result, ok, err, ◌>>=◌}
use blox_os.Release.Floor.{ReleaseFloor, max_release}

pub data FileError : Type 0 where
  unparseable_line duplicate_release bad_release duplicate_sha bad_sha missing_field : FileError

-- The fields read so far.
pub record Fields : Type 0 where
  pub release : Option ℕ
  pub sha : Option Text

abbrev pub no_fields : Fields
no_fields = record { release = none; sha = none }

abbrev pub release_key : Text
release_key = codes "release"

abbrev pub sha_key : Text
sha_key = codes "sha256"

unfoldable pub is_hex : ℕ → Bool
is_hex c = (leb 48 c && leb c 57) || (leb 97 c && leb c 102)

unfoldable pub all_hex : Text → Bool
unfolding is_hex
all_hex [] = true
all_hex (c ∷ s) = is_hex c && all_hex s

unfoldable pub is_hex_sha256 : Text → Bool
unfolding all_hex
is_hex_sha256 s = length s == 64 && all_hex s

unfoldable pub accept_release : Option ℕ → Fields → Result FileError Fields
accept_release none p = err bad_release
accept_release (some seq) p =
    if seq == 0 || ltb max_release seq
    then err bad_release
    else ok (record p { release = some seq })

unfoldable pub release_field : Text → Option ℕ → Fields → Result FileError Fields
unfolding accept_release
release_field value (some _) p = err duplicate_release
release_field value none p = accept_release (parse_uint (trim_space value)) p

unfoldable pub sha_field : Text → Option Text → Fields → Result FileError Fields
sha_field value (some _) p = err duplicate_sha
sha_field value none p =
    let sha = lower (trim_space value) in
    if is_hex_sha256 sha then ok (record p { sha = some sha }) else err bad_sha

-- The switch on the key: an unknown key is tolerated.
unfoldable pub read_field : Text → Text → Fields → Result FileError Fields
unfolding release_field sha_field
read_field key value p =
    if text_eq key release_key
    then release_field value p.release p
    else if text_eq key sha_key
    then sha_field value p.sha p
    else ok p

unfoldable pub read_cut : Option (Text × Text) → Fields → Result FileError Fields
unfolding read_field
read_cut none p = err unparseable_line
read_cut (some (key, value)) p = read_field (trim_space key) value p

unfoldable pub read_line : Text → Fields → Result FileError Fields
unfolding read_cut
read_line raw p =
    let line = trim_space (trim_cr raw) in
    if is_empty line || has_prefix (b'#' ∷ []) line then ok p else read_cut (cut b'=' line) p

unfoldable pub read_lines : List Text → Fields → Result FileError Fields
unfolding read_line
read_lines [] p = ok p
read_lines (line ∷ lines) p = read_line line p >>= read_lines lines

unfoldable pub finish_fields : Option ℕ → Option Text → Result FileError ReleaseFloor
finish_fields (some release) (some sha) = ok (record { release = release; sha = sha })
finish_fields _ _ = err missing_field

unfoldable pub parse_release_floor : Text → Result FileError ReleaseFloor
unfolding read_lines finish_fields
parse_release_floor body =
    read_lines (split_on 10 body) no_fields >>= λ p. finish_fields p.release p.sha

-- strconv's %d: the digits of a number, the last one first in the recursion.
unfoldable pub digits_from : ℕ → ℕ → Text
digits_from zero n = []
digits_from (suc fuel) n =
    let front = digits_from fuel (n / 10) in
    if ltb n 10 then (n + 48) ∷ [] else front ++ (n % 10 + 48) ∷ []

unfoldable pub decimal : ℕ → Text
unfolding digits_from
decimal n = digits_from (suc n) n

-- The body that writeReleaseFloor writes: release=%d\nsha256=%s\n.
unfoldable pub format_release_floor : ReleaseFloor → Text
unfolding decimal
format_release_floor f =
    (codes "release=" ++ decimal f.release) ++ 10 ∷ ((codes "sha256=" ++ lower f.sha) ++ 10 ∷ [])
