-- ===== src/Enrollment/Confirming.antt =====
-- agent/credential_handoff.go: the active credential file changes for the confirmed secret only.
use blox_os.Base.{
  ◌≡◌, ◌∙◌, ◌⊎◌, inl, inr, refl, ap, Option, none, some, Bool, true, false, not, if◌then◌else◌,
  Bool-cases, and-parts, some_eq,
}
use blox_os.Base.Text.{Text, text_eq, is_empty, eq_of_text_eq}
use blox_os.Base.Result.{Result, ok, err}
use blox_os.Storage.Disk.{Outcome, done, failed, unsure, is_done}
use blox_os.Enrollment.Handoff.{
  Files, HandoffError, not_promoted, Confirmed, confirm_promoted, secret_hash, hash_credential_file,
  promote, remove_pending, names, confirm_active, confirm_pending, handle_enrollment_confirmed,
}

module _ (sha : Text → Text) (confirmed : Text) (f : Files) where
  -- The active file is as it was, or it is the pending file of before, with the confirmed hash.
  abbrev pub Kept : Files → Type 0
  Kept f' =
      (f'.active ≡ f.active) ⊎ ((f'.active ≡ f.pending) × (secret_hash sha f.pending ≡ confirmed))

  -- After a confirmation the active file has the confirmed hash.
  abbrev pub Settled : Files × Result HandoffError Confirmed → Type 0
  Settled (f', err e) = Kept f'
  Settled (f', ok o) = Kept f' × (secret_hash sha f'.active ≡ confirmed)

  hash_inv :
      (readable : Bool) (file : Option Text) (h : Text)
      → hash_credential_file sha readable file ≡ some h
      → secret_hash sha file ≡ h
  unfolding secret_hash
  hash_inv readable none h e = some_eq e
  hash_inv true (some content) h e = some_eq e
  hash_inv false (some content) h e = absurd (cc e)

  named : (h : Text) → names h confirmed ≡ true → h ≡ confirmed
  named h e = eq_of_text_eq h confirmed (and-parts (not (is_empty h)) (text_eq h confirmed) e).1

  cleared_active :
      (b removed : Bool) → (if b then remove_pending removed f else f).active ≡ f.active
  cleared_active true true = refl
  cleared_active true false = refl
  cleared_active false removed = refl

  active_settles :
      (removed readable : Bool) (pending_hash : Text) (read : Option Text)
      → hash_credential_file sha readable f.active ≡ read
      → Settled (confirm_active removed confirmed pending_hash f read)
  active_settles removed readable pending_hash none e = inl refl
  active_settles removed readable pending_hash (some h) e = elim (Bool-cases (names h confirmed)) [
    | inl same ↦
        (let kept = cleared_active (not (is_empty pending_hash)) removed in
          rw same
            (inl kept, ap (secret_hash sha) kept ∙ hash_inv readable f.active h e ∙ named h same))
    | inr other ↦ rw other (inl refl)
  ]

  promote_settles :
      (renamed : Outcome)
      → secret_hash sha f.pending ≡ confirmed
      → Settled
          (promote renamed f, if is_done renamed then ok confirm_promoted else err not_promoted)
  promote_settles done e = (inr (refl, e), e)
  promote_settles failed e = inl refl
  promote_settles unsure e = inr (refl, e)

  pending_settles :
      (readable : Bool) (renamed : Outcome) (removed pending_readable : Bool) (read : Option Text)
      → hash_credential_file sha pending_readable f.pending ≡ read
      → Settled (confirm_pending sha readable renamed removed confirmed f read)
  pending_settles readable renamed removed pending_readable none e = inl refl
  pending_settles readable renamed removed pending_readable (some h) e =
      elim (Bool-cases (names h confirmed)) [
        | inl same ↦
            rw same
              (promote_settles renamed (hash_inv pending_readable f.pending h e ∙ named h same))
        | inr other ↦
            rw other
              (active_settles removed readable h (hash_credential_file sha readable f.active) refl)
      ]

  -- Whatever the files hold and the file system answers, a confirmation from the hub replaces the active
  -- file only by the pending one and only if the pending one has the confirmed hash; and where it is
  -- accepted the active file has the confirmed hash afterwards.
  pub confirm_sound :
      (pending_readable active_readable : Bool) (renamed : Outcome) (removed : Bool)
      → Settled (
          handle_enrollment_confirmed sha pending_readable active_readable renamed removed confirmed
            f)
  unfolding handle_enrollment_confirmed
  confirm_sound pending_readable active_readable renamed removed =
      elim (Bool-cases (is_empty confirmed)) [
        | inl missing ↦ rw missing (inl refl)
        | inr given ↦ rw given (
            pending_settles active_readable renamed removed pending_readable
              (hash_credential_file sha pending_readable f.pending) refl)
      ]
