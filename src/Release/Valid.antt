-- ===== src/Release/Valid.antt =====
-- agent/release_floor.go: every floor that parseReleaseFloor accepts can be written back.
use blox_os.Base.{
  ℕ, ◌<◌, ◌≤◌, ◌≡◌, refl, subst, true, ◌||◌, Option, none, some, List, [], ◌∷◌, arith, Bool-cases,
  inl, inr, ltb, ◌==◌,
}
use blox_os.Base.Text.{
  Text, text_eq, lower, lower_idem, trim_space, trim_cr, split_on, cut, is_empty, has_prefix,
  parse_uint,
}
use blox_os.Base.Result.{Result, ok, err, Result-cases, ok_eq, ◌>>=◌}
use blox_os.Release.Floor.{ReleaseFloor, max_release}
use blox_os.Release.File.{
  FileError, Fields, no_fields, is_hex_sha256, accept_release, release_field, sha_field, read_field,
  read_cut, read_line, read_lines, finish_fields, parse_release_floor, release_key, sha_key,
}
use blox_os.Release.Store.{
  File, present, read_release_floor, is_writable, absent, unreadable, corrupted,
}

-- What has been read so far is in range.
record FieldsOk (p : Fields) : Type 0 where
  release : (n : ℕ) → p.release ≡ some n → (0 < n) × (n ≤ max_release)
  sha : (s : Text) → p.sha ≡ some s → (is_hex_sha256 s ≡ true) × (lower s ≡ s)

abbrev KeepsOk : Fields → Result FileError Fields → Type 0
KeepsOk p r = FieldsOk p → (q : Fields) → r ≡ ok q → FieldsOk q

accept-Ok : (n : Option ℕ) (p : Fields) → KeepsOk p (accept_release n p)
unfolding accept_release
accept-Ok none p v q h = cc
accept-Ok (some n) p v q h = elim (Bool-cases (n == 0 || ltb max_release n)) [
  | inl bad ↦ absurd (cc (rw (bad, accept_release) at h))
  | inr good ↦
      subst FieldsOk (ok_eq (rw (good, accept_release) at h))
        (record { release = λ k e. ground arith; sha = v.sha })
]

release_field-Ok :
    (value : Text) (got : Option ℕ) (p : Fields) → KeepsOk p (release_field value got p)
unfolding release_field
release_field-Ok value none p v q h = accept-Ok (parse_uint (trim_space value)) p v q h
release_field-Ok value (some _) p v q h = cc

sha_field-Ok : (value : Text) (got : Option Text) (p : Fields) → KeepsOk p (sha_field value got p)
unfolding sha_field
sha_field-Ok value (some _) p v q h = cc
sha_field-Ok value none p v q h = elim (Bool-cases (is_hex_sha256 (lower (trim_space value)))) [
  | inr bad ↦ absurd (cc (rw (bad, sha_field) at h))
  | inl good ↦
      subst FieldsOk (ok_eq (rw (good, sha_field) at h))
        (record { release = v.release; sha = λ k e. ground (arith, lower_idem (trim_space value)) })
]

unread-Ok : (p : Fields) → KeepsOk p (ok p)
unread-Ok p v q h = subst FieldsOk (ok_eq h) v

read_field-Ok : (key value : Text) (p : Fields) → KeepsOk p (read_field key value p)
unfolding read_field
read_field-Ok key value p = elim (Bool-cases (text_eq key release_key)) [
  | inl is_release ↦ rw is_release (release_field-Ok value p.release p)
  | inr other ↦ rw other (elim (Bool-cases (text_eq key sha_key)) [
    | inl is_sha ↦ rw is_sha (sha_field-Ok value p.sha p)
    | inr unknown ↦ rw unknown (unread-Ok p)
  ])
]

read_cut-Ok : (parts : Option (Text × Text)) (p : Fields) → KeepsOk p (read_cut parts p)
unfolding read_cut
read_cut-Ok none p v q h = cc
read_cut-Ok (some (key, value)) p v q h = read_field-Ok (trim_space key) value p v q h

read_line-Ok : (line : Text) (p : Fields) → KeepsOk p (read_line line p)
unfolding read_line
read_line-Ok line p =
    elim (Bool-cases (
      is_empty (trim_space (trim_cr line)) || has_prefix (b'#' ∷ []) (trim_space (trim_cr line)))) [
        | inl skipped ↦ rw skipped (unread-Ok p)
        | inr read ↦ rw read (read_cut-Ok (cut b'=' (trim_space (trim_cr line))) p)
      ]

read_lines-Ok : (lines : List Text) (p : Fields) → KeepsOk p (read_lines lines p)
unfolding read_lines
read_lines-Ok [] p v q h = unread-Ok p v q h
read_lines-Ok (line ∷ lines) p v q h = elim (Result-cases (read_line line p)) [
  | inl (p', good) ↦
      read_lines-Ok lines p' (read_line-Ok line p v p' good) q (rw (good, ◌>>=◌, read_lines) at h)
  | inr (e, bad) ↦ absurd (cc (rw (bad, ◌>>=◌, read_lines) at h))
]

finished :
    (p : Fields) (f : ReleaseFloor)
    → FieldsOk p
    → finish_fields p.release p.sha ≡ ok f
    → (is_writable f ≡ true) × (lower f.sha ≡ f.sha)
finished p f v h = complete p.release p.sha refl refl h
  where
    complete :
        (r : Option ℕ) (s : Option Text)
        → p.release ≡ r
        → p.sha ≡ s
        → finish_fields r s ≡ ok f
        → (is_writable f ≡ true) × (lower f.sha ≡ f.sha)
    complete (some n) (some s) e k h =
        unfold finish_fields is_writable in ground (arith, v.release n e, v.sha s k)
    complete (some n) none e k h = unfold finish_fields in cc
    complete none s e k h = unfold finish_fields in cc

not_corrupt : (r : Result FileError ReleaseFloor) {f : ReleaseFloor} → corrupted r ≡ ok f → r ≡ ok f
not_corrupt (ok f) h = cc
not_corrupt (err e) h = cc

-- A floor that is read from the file, whatever the file holds, is one that the agent would write:
-- its release is in 1..9999999999 and its SHA is 64 lower-case hexadecimal digits.
pub read-is_writable :
    (file : File) (f : ReleaseFloor)
    → read_release_floor file ≡ ok f
    → (is_writable f ≡ true) × (lower f.sha ≡ f.sha)
unfolding read_release_floor parse_release_floor
read-is_writable absent f h = cc
read-is_writable unreadable f h = cc
read-is_writable (present body) f h = parsed (read_lines (split_on 10 body) no_fields) refl h
  where
    parsed :
        (r : Result FileError Fields)
        → read_lines (split_on 10 body) no_fields ≡ r
        → corrupted (r >>= λ p. finish_fields p.release p.sha) ≡ ok f
        → (is_writable f ≡ true) × (lower f.sha ≡ f.sha)
    parsed (err e) k h = cc
    parsed (ok p) k h =
        finished p f
          (read_lines-Ok (split_on 10 body) no_fields
            (record { release = λ n e. cc; sha = λ s e. cc }) p k)
          (not_corrupt (finish_fields p.release p.sha) h)
