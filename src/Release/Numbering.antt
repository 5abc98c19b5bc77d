-- ===== src/Release/Numbering.antt =====
-- proto/updatesigning/release.go: the marker that ReleaseMarker writes is one that the scanner reads,
-- and what it reads is a release that the floor can record.
use blox_os.Base.{
  ℕ, zero, suc, ◌+◌, ◌*◌, ◌/◌, ◌%◌, ◌<◌, ◌≤◌, ◌≡◌, ◌≢◌, ◌∙◌, inl, inr, refl, sym, ap, subst, true,
  false, Option, none, some, [], ◌∷◌, ◌++◌, arith, Bool-cases, Option-cases, some_eq, leb, length,
  take, drop, take-append, drop-append, drop_all, drop_front, length-take, append_assoc, take_all,
  length-append,
}
use blox_os.Base.Text.{Text, has_prefix, push_digit, parse_digits, parse_uint, max_uint64, is_empty}
use blox_os.Base.Result.{ok}
use blox_os.Release.Floor.{max_release}
use blox_os.Release.RoundTrip.{parse_digits-append}
use blox_os.Release.Marker.{
  release_marker_digits, release_marker_len, padded, release_marker, are_digits, numbered,
  parse_marker_body, extract_release,
}
use blox_os.Release.Extracting.{whole, occurrences, IsMarker, extract_release-numbered}

-- Ten to a power, as the steps of the digits use it.
below : ℕ → ℕ
below zero = 1
below (suc width) = below width * 10

length-padded : (width n : ℕ) → length (padded width n) ≡ width
unfolding padded
length-padded zero n = refl
length-padded (suc width) n = omega (
  arith,
  length-append (padded width (n / 10)) ((n % 10 + 48) ∷ []),
  length-padded width (n / 10),
)

padded-parse :
    (width n : ℕ) → n < below width → n ≤ max_uint64 → parse_digits 0 (padded width n) ≡ some n
unfolding padded below
padded-parse zero n h k = unfold parse_digits in ground arith
padded-parse (suc width) n h k =
    parse_digits-append 0 (padded width (n / 10)) (n % 10 + 48) (n / 10)
      (padded-parse width (n / 10) (omega arith) (omega arith))
    ∙ last_digit n k
  where
    last_digit : (n : ℕ) → n ≤ max_uint64 → push_digit (n / 10) (n % 10 + 48) ≡ some n
    last_digit n k = unfold push_digit in ground arith

are_digits-snoc :
    (s : Text) (c : ℕ)
    → are_digits s ≡ true
    → leb 48 c ≡ true
    → leb c 57 ≡ true
    → are_digits (s ++ c ∷ []) ≡ true
unfolding are_digits
are_digits-snoc [] c h lo hi = rw (lo, hi)
are_digits-snoc (d ∷ s) c h lo hi = ground (arith, are_digits-snoc s c)

padded-are_digits : (width n : ℕ) → are_digits (padded width n) ≡ true
unfolding padded
padded-are_digits zero n = unfold are_digits in refl
padded-are_digits (suc width) n =
    are_digits-snoc (padded width (n / 10)) (n % 10 + 48) (padded-are_digits width (n / 10))
      (ground arith) (ground arith)

-- The body of the marker of a sequence.
abbrev body_of : ℕ → Text
body_of seq = padded release_marker_digits seq ++ b':' ∷ []

body_of-take :
    (seq : ℕ) → take release_marker_digits (body_of seq) ≡ padded release_marker_digits seq
body_of-take seq =
    take-append release_marker_digits (padded release_marker_digits seq) (b':' ∷ [])
      (omega (arith, length-padded release_marker_digits seq))
    ∙ take_all release_marker_digits (padded release_marker_digits seq)
        (omega (arith, length-padded release_marker_digits seq))

body_of-drop : (seq : ℕ) → drop release_marker_digits (body_of seq) ≡ b':' ∷ []
body_of-drop seq =
    drop-append release_marker_digits (padded release_marker_digits seq) (b':' ∷ [])
      (omega (arith, length-padded release_marker_digits seq))
    ∙ ap (λ s. s ++ b':' ∷ [])
        (drop_all release_marker_digits (padded release_marker_digits seq)
          (omega (arith, length-padded release_marker_digits seq)))

is_empty-filled : (s : Text) → 0 < length s → is_empty s ≡ false
unfolding is_empty
is_empty-filled [] h = absurd (omega arith)
is_empty-filled (c ∷ s) h = refl

padded-parse_uint :
    (seq : ℕ) → seq ≤ max_release → parse_uint (padded release_marker_digits seq) ≡ some seq
unfolding parse_uint
padded-parse_uint seq small =
    rw
      (is_empty-filled (padded release_marker_digits seq)
        (omega (arith, length-padded release_marker_digits seq)))
      (padded-parse release_marker_digits seq (unfold below in omega arith) (omega arith))

body_of-parse : (seq : ℕ) → seq ≢ 0 → seq ≤ max_release → parse_marker_body (body_of seq) ≡ ok seq
unfolding parse_marker_body
body_of-parse seq numbered small =
    rw
      (
        body_of-take seq,
        body_of-drop seq,
        padded-are_digits release_marker_digits seq,
        padded-parse_uint seq small,
      )
      (unfold has_prefix in ground arith)

marker_inv :
    (prefix : Text) (seq : ℕ) (text : Text)
    → release_marker prefix seq ≡ some text
    → (seq ≢ 0) × (seq ≤ max_release) × (text ≡ prefix ++ body_of seq)
unfolding release_marker
marker_inv prefix seq text h = ground arith

length-body_of : (seq : ℕ) → length (body_of seq) ≡ release_marker_digits + 1
length-body_of seq = omega (
  arith,
  length-append (padded release_marker_digits seq) (b':' ∷ []),
  length-padded release_marker_digits seq,
)

body_of-whole :
    (seq : ℕ) (post : Text) → take (release_marker_digits + 1) (body_of seq ++ post) ≡ body_of seq
body_of-whole seq post =
    take-append (release_marker_digits + 1) (body_of seq) post (omega (arith, length-body_of seq))
    ∙ take_all (release_marker_digits + 1) (body_of seq) (omega (arith, length-body_of seq))

embedded :
    (prefix post : Text) (seq : ℕ)
    → seq ≢ 0
    → seq ≤ max_release
    → IsMarker prefix ((prefix ++ body_of seq) ++ post) seq
unfolding IsMarker release_marker_len
embedded prefix post seq numbered small = rw (append_assoc prefix (body_of seq) post) (
  omega (
    arith,
    length-append prefix (body_of seq ++ post),
    length-append (body_of seq) post,
    length-body_of seq,
  ),
  rw (drop_front prefix (body_of seq ++ post), body_of-whole seq post)
      (body_of-parse seq numbered small),
)

-- A marker that ReleaseMarker writes into a binary is read back as its sequence, wherever it stands
-- and however the file is cut into chunks, if it is the only occurrence of the prefix.
pub release_marker-extract :
    (prefix before text post : Text) (size seq : ℕ)
    → 0 < size
    → release_marker prefix seq ≡ some text
    → occurrences prefix (before ++ (text ++ post)) ≡ (text ++ post) ∷ []
    → extract_release prefix size (whole (before ++ (text ++ post))) ≡ ok (some seq)
release_marker-extract prefix before text post size seq some_size written once =
    let (numbered, small, e) = marker_inv prefix seq text written in
    (extract_release-numbered prefix size (before ++ (text ++ post)) seq some_size).1 (
      text ++ post,
      once,
      subst (λ t. IsMarker prefix (t ++ post) seq) (sym e)
          (embedded prefix post seq numbered small),
    )

-- The greatest number that more digits can make of an accumulated one.
upto : ℕ → ℕ → ℕ
upto zero acc = acc
upto (suc width) acc = upto width (acc * 10 + 9)

upto_mono : (width a b : ℕ) → a ≤ b → upto width a ≤ upto width b
unfolding upto
upto_mono zero a b h = h
upto_mono (suc width) a b h = upto_mono width (a * 10 + 9) (b * 10 + 9) (omega arith)

upto_above : (width acc : ℕ) → acc ≤ upto width acc
unfolding upto
upto_above zero acc = omega arith
upto_above (suc width) acc = omega (arith, upto_above width (acc * 10 + 9))

push_digit-bound : (acc c v : ℕ) → push_digit acc c ≡ some v → v ≤ acc * 10 + 9
unfolding push_digit
push_digit-bound acc c v h = ground arith

parse_digits-bound :
    (width acc : ℕ) (s : Text) (v : ℕ)
    → length s ≤ width
    → parse_digits acc s ≡ some v
    → v ≤ upto width acc
unfolding parse_digits upto
parse_digits-bound width acc [] v short h = omega (arith, upto_above width acc, some_eq h)
parse_digits-bound zero acc (c ∷ s) v short h = absurd (omega arith)
parse_digits-bound (suc width) acc (c ∷ s) v short h = elim (Option-cases (push_digit acc c)) [
  | inl bad ↦ absurd (cc (rw (bad, parse_digits) at h))
  | inr (w, good) ↦ omega (
    arith,
    parse_digits-bound width w s v (omega arith) (rw (good, parse_digits) at h),
    upto_mono width w (acc * 10 + 9) (push_digit-bound acc c w good),
  )
]

parse_uint-bound :
    (width : ℕ) (s : Text) (v : ℕ) → length s ≤ width → parse_uint s ≡ some v → v ≤ upto width 0
unfolding parse_uint
parse_uint-bound width s v short h = elim (Bool-cases (is_empty s)) [
  | inl bare ↦ absurd (cc (rw bare at h))
  | inr filled ↦ parse_digits-bound width 0 s v short (rw filled at h)
]

numbered_inv : (n : Option ℕ) (seq : ℕ) → numbered n ≡ ok seq → (n ≡ some seq) × (seq ≢ 0)
numbered_inv none seq h = cc
numbered_inv (some k) seq h = ground arith

parse_marker_body-bound :
    (body : Text) (seq : ℕ) → parse_marker_body body ≡ ok seq → (seq ≢ 0) × (seq ≤ max_release)
unfolding parse_marker_body
parse_marker_body-bound body seq h =
    elim (Bool-cases (are_digits (take release_marker_digits body))) [
      | inr bad ↦ absurd (cc (rw bad at h))
      | inl digits ↦ elim (Bool-cases (has_prefix (b':' ∷ []) (drop release_marker_digits body))) [
        | inr open' ↦ absurd (cc (rw (digits, open') at h))
        | inl closed ↦
            let (read, positive) =
              numbered_inv (parse_uint (take release_marker_digits body)) seq
                (rw (digits, closed) at h) in
            (
              positive,
              in_range (
                  parse_uint-bound release_marker_digits (take release_marker_digits body) seq
                    (length-take release_marker_digits body) read),
            )
      ]
    ]
  where
    in_range : {n : ℕ} → n ≤ upto release_marker_digits 0 → n ≤ max_release
    in_range h = unfold upto in h

marker_parts :
    (prefix here : Text) (seq : ℕ)
    → IsMarker prefix here seq
    → (release_marker_len prefix ≤ length here)
      × (parse_marker_body (take (release_marker_digits + 1) (drop (length prefix) here)) ≡ ok seq)
unfolding IsMarker
marker_parts prefix here seq m = m

-- A release that the scanner reads out of a binary is in 1..9999999999, so the agent can record it
-- as its floor.
pub extract_release-bounds :
    (prefix : Text) (size : ℕ) (s : Text) (seq : ℕ)
    → 0 < size
    → extract_release prefix size (whole s) ≡ ok (some seq)
    → (0 < seq) × (seq ≤ max_release)
extract_release-bounds prefix size s seq some_size h =
    let (here, once, m) = (extract_release-numbered prefix size s seq some_size).0 h in
    let (_, parsed) = marker_parts prefix here seq m in
    let (positive, small) =
      parse_marker_body-bound (take (release_marker_digits + 1) (drop (length prefix) here)) seq
        parsed in
    (omega arith, small)
