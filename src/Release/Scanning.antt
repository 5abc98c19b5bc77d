-- ===== src/Release/Scanning.antt =====
-- proto/updatesigning/release.go: the scan in chunks against all occurrences of the prefix.
use blox_os.Base.{
  ℕ, suc, ◌+◌, ◌-◌, ◌<◌, ◌≤◌, ◌≡◌, ◌∙◌, inl, inr, refl, sym, ap, Bool, true, false, Option, [], ◌∷◌,
  ◌++◌, arith, Bool-cases, ltb, length, drop, length-append, length-drop, take-append, drop-append,
}
use blox_os.Base.Text.{Text, has_prefix}
use blox_os.Base.Result.{Result, ok, err, ◌>>=◌}
use blox_os.Release.Marker.{
  ScanError, release_marker_digits, release_marker_len, read_marker, scan_buffer, carry,
}

has_prefix-append : (p s t : Text) → length p ≤ length s → has_prefix p (s ++ t) ≡ has_prefix p s
unfolding has_prefix
has_prefix-append [] s t h = refl
has_prefix-append (c ∷ p) [] t h = absurd (omega arith)
has_prefix-append (c ∷ p) (d ∷ s) t h = rw (has_prefix-append p s t (omega arith))

drop_eq : {m n : ℕ} (s : Text) → m ≡ n → drop m s ≡ drop n s
drop_eq s h = ap (λ k. drop k s) h

carry-drop : (k : ℕ) (s : Text) → k ≤ length s → carry k s ≡ drop (length s - k) s
unfolding carry
carry-drop k s h = elim (Bool-cases (ltb k (length s))) [
  | inl long ↦ rw long
  | inr short ↦ rw short (unfold drop in drop_eq {m = 0} {n = length s - k} s (ground arith))
]

carry_step : (k b : ℕ) (s : Text) → k ≤ length s → carry k (b ∷ s) ≡ carry k s
carry_step k b s h =
    carry-drop k (b ∷ s) (omega arith)
    ∙ drop_eq {m = length (b ∷ s) - k} {n = suc (length s - k)} (b ∷ s) (omega arith)
    ∙ (unfold drop in sym (carry-drop k s h))

module _ (prefix : Text) where
  read_marker-append :
      (s t : Text) (found : Option ℕ)
      → release_marker_len prefix ≤ length s
      → read_marker prefix (s ++ t) found ≡ read_marker prefix s found
  unfolding read_marker release_marker_len
  read_marker-append s t found h = rw (
    drop-append (length prefix) s t (ground arith),
    take-append (release_marker_digits + 1) (drop (length prefix) s) t
        (ground (arith, length-drop (length prefix) s)),
  )

  carry_short :
      (s : Text)
      → length s < release_marker_len prefix
      → carry (release_marker_len prefix - 1) s ≡ s
  unfolding carry
  carry_short s h = ground arith

  carry_long :
      (b : ℕ) (s : Text)
      → release_marker_len prefix ≤ length (b ∷ s)
      → carry (release_marker_len prefix - 1) (b ∷ s) ≡ carry (release_marker_len prefix - 1) s
  carry_long b s h = carry_step (release_marker_len prefix - 1) b s (omega arith)

  scan_short :
      (s : Text) (found : Option ℕ)
      → length s < release_marker_len prefix
      → scan_buffer prefix false s found ≡ ok found
  unfolding scan_buffer
  scan_short [] found h = refl
  scan_short (b ∷ s) found h = ground (arith, scan_short s found)

  prefix_fits : (s : Text) → release_marker_len prefix ≤ length s → length prefix ≤ length s
  unfolding release_marker_len
  prefix_fits s h = omega arith

  longer :
      (b : ℕ) (s t : Text)
      → release_marker_len prefix ≤ length (b ∷ s)
      → ltb (length (b ∷ (s ++ t))) (release_marker_len prefix) ≡ false
  longer b s t h = ground (arith, length-append s t)

  pub positive_len : 0 < release_marker_len prefix
  unfolding release_marker_len
  positive_len = omega arith

  pub scan_miss :
      (eof : Bool) (b : ℕ) (s : Text) (found : Option ℕ)
      → has_prefix prefix (b ∷ s) ≡ false
      → scan_buffer prefix eof (b ∷ s) found ≡ scan_buffer prefix eof s found
  unfolding scan_buffer
  scan_miss eof b s found h = rw h

  pub scan_hit :
      (eof : Bool) (b : ℕ) (s : Text) (found : Option ℕ)
      → has_prefix prefix (b ∷ s) ≡ true
      → ltb (length (b ∷ s)) (release_marker_len prefix) ≡ false
      → scan_buffer prefix eof (b ∷ s) found
        ≡ (read_marker prefix (b ∷ s) found >>= λ found'. scan_buffer prefix eof s found')
  unfolding scan_buffer
  scan_hit eof b s found h long = rw (h, long)

  -- What `scan-append` says of one pair of pieces.
  abbrev pub Splits : Text → Text → Option ℕ → Type 0
  Splits s t found = scan_buffer prefix true (s ++ t) found ≡ (
      scan_buffer prefix false s found >>= λ found'.
      scan_buffer prefix true (carry (release_marker_len prefix - 1) s ++ t) found')

  step_read :
      (s t : Text) (r : Result ScanError (Option ℕ))
      → ((found : Option ℕ) → Splits s t found)
      → (r >>= λ found. scan_buffer prefix true (s ++ t) found) ≡ (
          (r >>= λ found. scan_buffer prefix false s found) >>= λ found'.
          scan_buffer prefix true (carry (release_marker_len prefix - 1) s ++ t) found')
  step_read s t (ok found) rest = rest found
  step_read s t (err e) rest = refl

  step_long :
      (b : ℕ) (s t : Text) (found : Option ℕ)
      → release_marker_len prefix ≤ length (b ∷ s)
      → ((f : Option ℕ) → Splits s t f)
      → Splits (b ∷ s) t found
  step_long b s t found enough rest =
      let same = has_prefix-append prefix (b ∷ s) t (prefix_fits (b ∷ s) enough) in
      rw (carry_long b s enough) (elim (Bool-cases (has_prefix prefix (b ∷ s))) [
        | inr miss ↦
            rw (scan_miss true b (s ++ t) found (same ∙ miss), scan_miss false b s found miss)
              (rest found)
        | inl hit ↦
            rw
              (
                scan_hit true b (s ++ t) found (same ∙ hit) (longer b s t enough),
                scan_hit false b s found hit (ground arith),
                read_marker-append (b ∷ s) t found enough,
              )
              (step_read s t (read_marker prefix (b ∷ s) found) rest)
      ])

  -- A scan of two pieces: of the first one as far as it goes, and of what it leaves with the second.
  pub scan-append : (s t : Text) (found : Option ℕ) → Splits s t found
  scan-append [] t found = rw (scan_short [] found (positive_len), carry_short [] positive_len)
  scan-append (b ∷ s) t found =
      elim (Bool-cases (ltb (length (b ∷ s)) (release_marker_len prefix))) [
        | inl short ↦
            rw (scan_short (b ∷ s) found (ground arith), carry_short (b ∷ s) (ground arith))
        | inr long ↦ step_long b s t found (ground arith) (λ f. scan-append s t f)
      ]
