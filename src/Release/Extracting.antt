-- ===== src/Release/Extracting.antt =====
-- proto/updatesigning/release.go: what the scanner answers about a whole stream.
use blox_os.Base.{
  ℕ, zero, suc, ◌+◌, ◌<◌, ◌≤◌, ◌≡◌, ◌↔◌, ◌∙◌, inl, inr, refl, sym, ap, subst, some_eq, true, false,
  Option, none, some, List, [], ◌∷◌, ◌++◌, arith, Bool-cases, ltb, length, take, drop, take-drop,
  length-drop, append_assoc, take_all, if◌then◌else◌,
}
use blox_os.Base.Text.{Text, has_prefix}
use blox_os.Base.Result.{Result, ok, err, ◌>>=◌, ok_eq}
use blox_os.Release.Marker.{
  ScanError, truncated_marker, Stream, release_marker_digits, release_marker_len, parse_marker_body,
  count_marker, read_marker, scan_buffer, scan_chunks, extract_release,
}
use blox_os.Release.Scanning.{scan-append, scan_miss, scan_hit}

-- A stream that ends without an error.
abbrev pub whole : Text → Stream
whole s = record { bytes = s; fails = false }

bind_ext :
    {A B : Type 0} (r : Result ScanError A) (f g : A → Result ScanError B)
    → ((a : A) → f a ≡ g a)
    → (r >>= f) ≡ (r >>= g)
bind_ext (ok a) f g h = h a
bind_ext (err e) f g h = refl

scan_chunks-whole :
    (prefix : Text) (size fuel : ℕ) (buf : Text) (found : Option ℕ) (s : Text)
    → 0 < size
    → length s < fuel
    → scan_chunks prefix size fuel buf found (whole s) ≡ scan_buffer prefix true (buf ++ s) found
unfolding scan_chunks
scan_chunks-whole prefix size zero buf found s some_size enough = absurd (omega arith)
scan_chunks-whole prefix size (suc fuel) buf found s some_size enough =
    elim (Bool-cases (ltb (length s) size)) [
      | inl last ↦ rw (last, take_all size s (ground arith))
      | inr more ↦ rw more (
          bind_ext (scan_buffer prefix false (buf ++ take size s) found) _ _ (λ f.
            scan_chunks-whole prefix size fuel _ f (drop size s) some_size
              (ground (arith, length-drop size s)))
          ∙ sym (scan-append prefix (buf ++ take size s) (drop size s) found)
          ∙ ap (λ u. scan_buffer prefix true u found)
              (append_assoc buf (take size s) (drop size s)
                ∙ ap (λ u. buf ++ u) (take-drop size s)))
    ]

-- However the stream is cut into chunks, of any size above 0, the answer is the one of a single scan
-- of all its bytes: no marker is missed, seen twice or cut at a boundary, and the loop ends.
pub extract_release-whole :
    (prefix : Text) (size : ℕ) (s : Text)
    → 0 < size
    → extract_release prefix size (whole s) ≡ scan_buffer prefix true s none
unfolding extract_release
extract_release-whole prefix size s some_size =
    scan_chunks-whole prefix size (suc (length s)) [] none s some_size (omega arith)

-- The tails of a text that begin with the prefix, from left to right.
unfoldable pub occurrences : Text → Text → List Text
occurrences prefix [] = []
occurrences prefix (b ∷ s) =
    let rest = occurrences prefix s in if has_prefix prefix (b ∷ s) then (b ∷ s) ∷ rest else rest

-- The marker of an occurrence: its body parses as this sequence, and it is complete.
unfoldable pub IsMarker : Text → Text → ℕ → Type 0
IsMarker prefix here seq =
    (release_marker_len prefix ≤ length here)
    × (parse_marker_body (take (release_marker_digits + 1) (drop (length prefix) here)) ≡ ok seq)

unfoldable judge : Text → List Text → Option ℕ → Result ScanError (Option ℕ)
judge prefix [] found = ok found
judge prefix (here ∷ rest) found =
    if ltb (length here) (release_marker_len prefix)
    then err truncated_marker
    else read_marker prefix here found >>= λ found'. judge prefix rest found'

scan_cut :
    (prefix : Text) (b : ℕ) (s : Text) (found : Option ℕ)
    → has_prefix prefix (b ∷ s) ≡ true
    → ltb (length (b ∷ s)) (release_marker_len prefix) ≡ true
    → scan_buffer prefix true (b ∷ s) found ≡ err truncated_marker
unfolding scan_buffer
scan_cut prefix b s found h short = rw (h, short)

scan-judge :
    (prefix s : Text) (found : Option ℕ)
    → scan_buffer prefix true s found ≡ judge prefix (occurrences prefix s) found
unfolding occurrences
scan-judge prefix [] found = unfold scan_buffer judge in refl
scan-judge prefix (b ∷ s) found = elim (Bool-cases (has_prefix prefix (b ∷ s))) [
  | inr miss ↦ rw (miss, scan_miss prefix true b s found miss) (scan-judge prefix s found)
  | inl hit ↦ rw hit (elim (Bool-cases (ltb (length (b ∷ s)) (release_marker_len prefix))) [
    | inl short ↦ rw (scan_cut prefix b s found hit short) (unfold judge in rw short)
    | inr long ↦
        scan_hit prefix true b s found hit long
        ∙ bind_ext (read_marker prefix (b ∷ s) found) _ _ (λ f. scan-judge prefix s f)
        ∙ (unfold judge in rw long)
  ])
]

read_inv :
    (body : Result ScanError ℕ) (found r : Option ℕ) (next : Option ℕ → Result ScanError (Option ℕ))
    → (body >>= count_marker found >>= next) ≡ ok r
    → (seq : ℕ) × (body ≡ ok seq) × (found ≡ none) × (next (some seq) ≡ ok r)
read_inv (err e) found r next h = cc
read_inv (ok seq) (some first) r next h = cc
read_inv (ok seq) none r next h = (seq, refl, refl, h)

judge_inv :
    (prefix here : Text) (rest : List Text) (found r : Option ℕ)
    → judge prefix (here ∷ rest) found ≡ ok r
    → (seq : ℕ) × IsMarker prefix here seq × (found ≡ none) × (judge prefix rest (some seq) ≡ ok r)
unfolding IsMarker judge read_marker
judge_inv prefix here rest found r h =
    elim (Bool-cases (ltb (length here) (release_marker_len prefix))) [
      | inl short ↦ absurd (cc (rw short at h))
      | inr long ↦
          let (seq, parsed, none_yet, after) =
            read_inv
              (parse_marker_body (take (release_marker_digits + 1) (drop (length prefix) here)))
              found r (λ f. judge prefix rest f) (rw long at h) in
          (seq, (ground arith, parsed), none_yet, after)
    ]

answer :
    (prefix : Text) (size : ℕ) (s : Text)
    → 0 < size
    → extract_release prefix size (whole s) ≡ judge prefix (occurrences prefix s) none
answer prefix size s some_size =
    extract_release-whole prefix size s some_size ∙ scan-judge prefix s none

judge_second :
    (prefix : Text) (hs : List Text) (first : ℕ) (r : Option ℕ)
    → judge prefix hs (some first) ≡ ok r
    → (hs ≡ []) × (r ≡ some first)
unfolding judge
judge_second prefix [] first r h = (refl, sym (ok_eq h))
judge_second prefix (here ∷ rest) first r h =
    let (seq, _, none_yet, _) = judge_inv prefix here rest (some first) r h in absurd (cc none_yet)

judge-none : (prefix : Text) (hs : List Text) → judge prefix hs none ≡ ok none → hs ≡ []
judge-none prefix [] h = refl
judge-none prefix (here ∷ rest) h =
    let (seq, _, _, after) = judge_inv prefix here rest none none h in
    absurd (cc (judge_second prefix rest seq none after).1)

judge_one :
    (prefix : Text) (hs : List Text) (seq : ℕ)
    → judge prefix hs none ≡ ok (some seq)
    → (here : Text) × (hs ≡ here ∷ []) × IsMarker prefix here seq
unfolding judge
judge_one prefix [] seq h = absurd (cc (ok_eq h))
judge_one prefix (here ∷ rest) seq h =
    let (seq', m, _, after) = judge_inv prefix here rest none (some seq) h in
    let (last, e) = judge_second prefix rest seq' (some seq) after in
    (here, ap (λ l. here ∷ l) last, subst (IsMarker prefix here) (sym (some_eq e)) m)

judge_marker :
    (prefix here : Text) (seq : ℕ)
    → IsMarker prefix here seq
    → judge prefix (here ∷ []) none ≡ ok (some seq)
unfolding judge read_marker IsMarker
judge_marker prefix here seq m =
    let (enough, parsed) = m in rw (not_short here (release_marker_len prefix) enough, parsed)
  where
    not_short : (here : Text) (n : ℕ) → n ≤ length here → ltb (length here) n ≡ false
    not_short here n h = ground arith

-- A stream has no release exactly when the prefix occurs nowhere in it: for chunks of any size above
-- 0, the answer that an unnumbered build gets is never the one of a damaged or a repeated marker.
pub extract_release-unnumbered :
    (prefix : Text) (size : ℕ) (s : Text)
    → 0 < size
    → (extract_release prefix size (whole s) ≡ ok none) ↔ (occurrences prefix s ≡ [])
extract_release-unnumbered prefix size s some_size = (
  λ h. judge-none prefix (occurrences prefix s) (sym (answer prefix size s some_size) ∙ h),
  λ h. answer prefix size s some_size ∙ rw h (unfold judge in refl),
)

-- A stream has the release `seq` exactly when the prefix occurs in it once, with the body of a
-- complete marker of that sequence behind it, for chunks of any size above 0.
pub extract_release-numbered :
    (prefix : Text) (size : ℕ) (s : Text) (seq : ℕ)
    → 0 < size
    → (extract_release prefix size (whole s) ≡ ok (some seq))
      ↔ ((here : Text) × (occurrences prefix s ≡ here ∷ []) × IsMarker prefix here seq)
extract_release-numbered prefix size s seq some_size = (
  λ h. judge_one prefix (occurrences prefix s) seq (sym (answer prefix size s some_size) ∙ h),
  λ (here, once, m). answer prefix size s some_size ∙ rw once (judge_marker prefix here seq m),
)
