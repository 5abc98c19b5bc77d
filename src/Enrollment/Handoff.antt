-- ===== src/Enrollment/Handoff.antt =====
-- agent/credential_handoff.go: the agent's side of an enrollment, with its active and its pending
-- credential file. SHA-256 and what the file system answers are arguments.
use blox_os.Base.{◌∷◌, [], ◌++◌, Option, none, some, Bool, true, false, not, ◌&&◌, if◌then◌else◌}
use blox_os.Base.Text.{Text, text_eq, is_empty, trim_space}
use blox_os.Base.Result.{Result, ok, err}
use blox_os.Storage.Disk.{Outcome, is_done, is_replaced}

-- What the two files hold, where they are there.
pub record Files : Type 0 where
  pub active : Option Text
  pub pending : Option Text

pub data HandoffError : Type 0 where
  not_saved not_sent missing_hash pending_unreadable not_promoted active_unreadable no_match :
      HandoffError

-- enrollmentConfirmOutcome, where it is no rejection.
pub data Confirmed : Type 0 where
  confirm_promoted confirm_already_active : Confirmed

-- The hash of a file; the empty text is no secret.
unfoldable pub secret_hash : (Text → Text) → Option Text → Text
unfolding trim_space is_empty
secret_hash sha none = []
secret_hash sha (some content) =
    if is_empty (trim_space content) then [] else sha (trim_space content)

-- hashCredentialFileWith; a file that is there can be unreadable.
abbrev pub hash_credential_file : (Text → Text) → Bool → Option Text → Option Text
hash_credential_file sha readable none = some []
hash_credential_file sha readable (some content) =
    if readable then some (secret_hash sha (some content)) else none

-- The file after a durable replacement.
abbrev pub save_pending : Outcome → Text → Files → Files
save_pending o secret f = record f {
  pending = if is_replaced o then some (secret ++ (10 ∷ [])) else f.pending;
}

-- handleEnrolledFrame.
unfoldable pub handle_enrolled_frame :
    Text → Outcome → Bool → Files → Files × Result HandoffError Bool
unfolding is_empty
handle_enrolled_frame secret saved sent f =
    if is_empty secret
    then (f, ok false)
    else if not (is_done saved)
    then (save_pending saved secret f, err not_saved)
    else if not sent
    then (save_pending saved secret f, err not_sent)
    else (save_pending saved secret f, ok true)

-- The rename of the pending file to the active one.
abbrev pub promote : Outcome → Files → Files
promote o f = if is_replaced o then record { active = f.pending; pending = none } else f

abbrev pub remove_pending : Bool → Files → Files
remove_pending removed f = if removed then record f { pending = none } else f

abbrev pub names : Text → Text → Bool
names h confirmed = not (is_empty h) && text_eq h confirmed

abbrev pub confirm_active :
    Bool → Text → Text → Files → Option Text → Files × Result HandoffError Confirmed
confirm_active removed confirmed pending_hash f none = (f, err active_unreadable)
confirm_active removed confirmed pending_hash f (some h) =
    if names h confirmed
    then (
      if not (is_empty pending_hash) then remove_pending removed f else f,
      ok confirm_already_active,
    )
    else (f, err no_match)

abbrev pub confirm_pending :
    (Text → Text)
    → Bool
    → Outcome
    → Bool
    → Text
    → Files
    → Option Text
    → Files × Result HandoffError Confirmed
confirm_pending sha readable renamed removed confirmed f none = (f, err pending_unreadable)
confirm_pending sha readable renamed removed confirmed f (some h) =
    if names h confirmed
    then (promote renamed f, if is_done renamed then ok confirm_promoted else err not_promoted)
    else confirm_active removed confirmed h f (hash_credential_file sha readable f.active)

-- handleEnrollmentConfirmed: whether the pending and the active file can be read, how the rename ends, and
-- whether a left-over pending file is removed.
unfoldable pub handle_enrollment_confirmed :
    (Text → Text)
    → Bool
    → Bool
    → Outcome
    → Bool
    → Text
    → Files
    → Files × Result HandoffError Confirmed
unfolding is_empty secret_hash text_eq
handle_enrollment_confirmed sha pending_readable active_readable renamed removed confirmed f =
    if is_empty confirmed
    then (f, err missing_hash)
    else confirm_pending sha active_readable renamed removed confirmed f
        (hash_credential_file sha pending_readable f.pending)
