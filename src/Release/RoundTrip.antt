-- ===== src/Release/RoundTrip.antt =====
-- agent/release_floor.go: what writeReleaseFloor writes, parseReleaseFloor reads back.
use blox_os.Base.{
  ℕ, suc, zero, ◌+◌, ◌/◌, ◌%◌, ◌<◌, ◌≤◌, ◌≡◌, refl, true, false, none, some, [], ◌∷◌, ◌++◌, ltb,
  ◌==◌, length, All, All-append, arith, Bool-cases, Option-cases, inl, inr, ◌∙◌, ap, and-parts,
}
use blox_os.Base.Text.{
  Text, codes, text_eq, lower, lower_idem, is_space, trim_left, trim_right, trim_space, trim_cr,
  split_on, cut, is_empty, has_prefix, max_uint64, push_digit, parse_digits, parse_uint,
}
use blox_os.Base.Result.{ok, ◌>>=◌}
use blox_os.Release.Floor.{ReleaseFloor, max_release}
use blox_os.Release.File.{
  Fields, no_fields, release_key, sha_key, is_hex, all_hex, is_hex_sha256, accept_release,
  sha_field, read_cut, read_line, read_lines, finish_fields, parse_release_floor, digits_from,
  decimal, format_release_floor,
}

-- A text with no space in it, so on one line and with nothing to trim.
abbrev IsPlain : Text → Type 0
IsPlain = All (λ c. is_space c ≡ false)

trim_left-IsPlain : (s : Text) → IsPlain s → trim_left s ≡ s
unfolding trim_left
trim_left-IsPlain [] h = refl
trim_left-IsPlain (c ∷ s) h = rw h.0

trim_right-IsPlain : (s : Text) → IsPlain s → trim_right s ≡ s
unfolding trim_right
trim_right-IsPlain [] h = refl
trim_right-IsPlain (c ∷ s) h = rw h.0 (ap (◌∷◌ c) (trim_right-IsPlain s h.1))

trim_space-IsPlain : (s : Text) → IsPlain s → trim_space s ≡ s
unfolding trim_space
trim_space-IsPlain s h = rw (trim_left-IsPlain s h) (trim_right-IsPlain s h)

not_return : (c : ℕ) → is_space c ≡ false → (c == 13) ≡ false
unfolding is_space
not_return c h = ground arith

not_newline : (c : ℕ) → is_space c ≡ false → (c == 10) ≡ false
unfolding is_space
not_newline c h = ground arith

trim_cr-IsPlain : (s : Text) → IsPlain s → trim_cr s ≡ s
unfolding trim_cr
trim_cr-IsPlain [] h = refl
trim_cr-IsPlain (c ∷ []) h = rw (not_return c h.0)
trim_cr-IsPlain (c ∷ d ∷ s) h = ap (◌∷◌ c) (trim_cr-IsPlain (d ∷ s) h.1)

split_line : (a b : Text) → IsPlain a → split_on 10 (a ++ 10 ∷ b) ≡ a ∷ split_on 10 b
unfolding split_on
split_line [] b h = refl
split_line (c ∷ a) b h = rw (not_newline c h.0, split_line a b h.1)

pub parse_digits-append :
    (acc : ℕ) (xs : Text) (c v : ℕ)
    → parse_digits acc xs ≡ some v
    → parse_digits acc (xs ++ c ∷ []) ≡ push_digit v c
unfolding parse_digits
parse_digits-append acc [] c v h = ground arith
parse_digits-append acc (x ∷ xs) c v h = elim (Option-cases (push_digit acc x)) [
  | inl bad ↦ absurd (cc (rw (bad, parse_digits) at h))
  | inr (w, good) ↦
      rw (good, parse_digits) (parse_digits-append w xs c v (rw (good, parse_digits) at h))
]

digits_from-IsPlain : (fuel n : ℕ) → IsPlain (digits_from fuel n)
unfolding digits_from
digits_from-IsPlain zero n = tt
digits_from-IsPlain (suc fuel) n = elim (Bool-cases (ltb n 10)) [
  | inl small ↦ rw small (unfold is_space in ground arith, tt)
  | inr large ↦ rw large (
      All-append _ (digits_from fuel (n / 10)) ((n % 10 + 48) ∷ [])
        (digits_from-IsPlain fuel (n / 10)) (unfold is_space in ground arith, tt))
]

digits_from-parse :
    (fuel n : ℕ) → n < fuel → n ≤ max_uint64 → parse_digits 0 (digits_from fuel n) ≡ some n
unfolding digits_from
digits_from-parse zero n h k = absurd (omega arith)
digits_from-parse (suc fuel) n h k = elim (Bool-cases (ltb n 10)) [
  | inl small ↦ rw small (unfold parse_digits push_digit in ground arith)
  | inr large ↦ rw large (
      parse_digits-append 0 (digits_from fuel (n / 10)) (n % 10 + 48) (n / 10)
        (digits_from-parse fuel (n / 10) (ground arith) (omega arith))
      ∙ last_digit n k)
]
  where
    last_digit : (n : ℕ) → n ≤ max_uint64 → push_digit (n / 10) (n % 10 + 48) ≡ some n
    last_digit n k = unfold push_digit in ground arith

is_empty-snoc : (xs : Text) (c : ℕ) → is_empty (xs ++ c ∷ []) ≡ false
unfolding is_empty
is_empty-snoc [] c = refl
is_empty-snoc (x ∷ xs) c = refl

digits-not-empty : (n : ℕ) → is_empty (digits_from (suc n) n) ≡ false
unfolding digits_from
digits-not-empty n = elim (Bool-cases (ltb n 10)) [
  | inl small ↦ rw small (unfold is_empty in refl)
  | inr large ↦ rw large (is_empty-snoc _ _)
]

decimal-IsPlain : (n : ℕ) → IsPlain (decimal n)
unfolding decimal
decimal-IsPlain n = digits_from-IsPlain (suc n) n

-- A number within 64 bits is read back from its decimal digits.
parse_uint-decimal : (n : ℕ) → n ≤ max_uint64 → parse_uint (decimal n) ≡ some n
unfolding parse_uint decimal
parse_uint-decimal n h = rw (digits-not-empty n) (digits_from-parse (suc n) n (omega arith) h)

hex-IsPlain : (s : Text) → all_hex s ≡ true → IsPlain s
unfolding all_hex
hex-IsPlain [] h = tt
hex-IsPlain (c ∷ s) h =
    let (hex, rest) = and-parts (is_hex c) (all_hex s) h in
    (unfold is_hex is_space in ground arith, hex-IsPlain s rest)

sha-IsPlain : (s : Text) → is_hex_sha256 s ≡ true → IsPlain s
unfolding is_hex_sha256
sha-IsPlain s h = hex-IsPlain s (and-parts (length s == 64) (all_hex s) h).1

read_line-IsPlain :
    (line : Text) (p : Fields)
    → IsPlain line
    → is_empty line ≡ false
    → has_prefix (b'#' ∷ []) line ≡ false
    → read_line line p ≡ read_cut (cut b'=' line) p
unfolding read_line
read_line-IsPlain line p plain full code =
    rw (trim_cr-IsPlain line plain, trim_space-IsPlain line plain, full, code)

release-IsPlain : (n : ℕ) → IsPlain (codes "release=" ++ decimal n)
release-IsPlain n =
    All-append _ (codes "release=") (decimal n) (unfold is_space in ground arith)
      (decimal-IsPlain n)

sha_line-IsPlain :
    (sha : Text) → is_hex_sha256 (lower sha) ≡ true → IsPlain (codes "sha256=" ++ lower sha)
sha_line-IsPlain sha hex =
    All-append _ (codes "sha256=") (lower sha) (unfold is_space in ground arith)
      (sha-IsPlain (lower sha) hex)

read_release :
    (v : Text)
    → IsPlain v
    → read_cut (cut b'=' (codes "release=" ++ v)) no_fields
      ≡ accept_release (parse_uint v) no_fields
unfolding cut read_cut text_eq
read_release v plain =
    rw
      (trim_space-IsPlain release_key (unfold is_space in ground arith), trim_space-IsPlain v plain)

read_sha :
    (v : Text) (n : ℕ)
    → IsPlain v
    → read_cut (cut b'=' (codes "sha256=" ++ v)) (record no_fields { release = some n })
      ≡ sha_field v none (record no_fields { release = some n })
unfolding cut read_cut text_eq
read_sha v n plain =
    rw (trim_space-IsPlain sha_key (unfold is_space in ground arith), trim_space-IsPlain v plain)

accept_small :
    (n : ℕ)
    → 0 < n
    → n ≤ max_release
    → accept_release (some n) no_fields ≡ ok (record no_fields { release = some n })
unfolding accept_release
accept_small n pos small = ground arith

release_line :
    (n : ℕ)
    → 0 < n
    → n ≤ max_release
    → read_line (codes "release=" ++ decimal n) no_fields
      ≡ ok (record no_fields { release = some n })
release_line n pos small =
    read_line-IsPlain (codes "release=" ++ decimal n) no_fields (release-IsPlain n)
      (unfold is_empty in refl) (unfold has_prefix in refl)
    ∙ field
  where
    field :
        read_cut (cut b'=' (codes "release=" ++ decimal n)) no_fields
        ≡ ok (record no_fields { release = some n })
    field =
        read_release (decimal n) (decimal-IsPlain n)
        ∙ (rw (parse_uint-decimal n (omega arith)) (accept_small n pos small))

sha_line :
    (n : ℕ) (sha : Text)
    → is_hex_sha256 (lower sha) ≡ true
    → read_line (codes "sha256=" ++ lower sha) (record no_fields { release = some n })
      ≡ ok (record { release = some n; sha = some (lower sha) })
sha_line n sha hex =
    read_line-IsPlain (codes "sha256=" ++ lower sha) (record no_fields { release = some n })
      (sha_line-IsPlain sha hex) (unfold is_empty in refl) (unfold has_prefix in refl)
    ∙ field
  where
    field :
        read_cut (cut b'=' (codes "sha256=" ++ lower sha)) (record no_fields { release = some n })
        ≡ ok (record { release = some n; sha = some (lower sha) })
    field =
        read_sha (lower sha) n (sha-IsPlain (lower sha) hex)
        ∙ (unfold sha_field in
            rw (trim_space-IsPlain (lower sha) (sha-IsPlain (lower sha) hex), lower_idem sha, hex))

-- The floor file reads back as the floor that was written, its SHA in lower case: for a release in
-- 1..9999999999 and a SHA of 64 hexadecimal digits in either case.
pub parse-format :
    (f : ReleaseFloor)
    → 0 < f.release
    → f.release ≤ max_release
    → is_hex_sha256 (lower f.sha) ≡ true
    → parse_release_floor (format_release_floor f)
      ≡ ok (record { release = f.release; sha = lower f.sha })
unfolding parse_release_floor format_release_floor read_lines
parse-format f pos small hex =
    rw
      (
        split_line (codes "release=" ++ decimal f.release) _ (release-IsPlain f.release),
        split_line (codes "sha256=" ++ lower f.sha) [] (sha_line-IsPlain f.sha hex),
      )
      (rw (release_line f.release pos small) (rw (sha_line f.release f.sha hex) ended))
  where
    ended :
        (read_lines (split_on 10 []) (record { release = some f.release; sha = some (lower f.sha) })
          >>= λ p. finish_fields p.release p.sha)
        ≡ ok (record { release = f.release; sha = lower f.sha })
    ended =
        unfold split_on read_lines read_line trim_space trim_left trim_right trim_cr is_empty
          finish_fields in
        refl
