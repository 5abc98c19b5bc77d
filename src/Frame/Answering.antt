-- ===== src/Frame/Answering.antt =====
-- hub/power_history.go: the answers of commitPowerHistoryFrame, and a frame that is sent again.
use blox_os.Base.{
  ℕ, ◌-◌, ◌≡◌, ◌≢◌, refl, ap, subst, Option, none, some, Bool, true, false, ltb, Bool-cases, inl,
  inr, ◌⊎◌,
}
use blox_os.Base.Text.{Text}
use blox_os.Base.Result.{Result, ok, err, err_eq}
use blox_os.Power.Ingest.{Stream, duplicate_key, CommitError, conflict, commit_batch}
use blox_os.Frame.Wire.{WireBucket, WireBatch, max_frame_bytes}
use blox_os.Frame.Check.{BucketError, BatchError, clock_skew, in_bucket, validate_power_batch}
use blox_os.Frame.Accept.{
  Ingestion, FrameError, unregistered_connection, not_committed, issue_none, to_batch,
  max_past_age_ms, issue_of_refusal, issue_of_commit, commit_result, accept_checked, accept_decoded,
  commit_power_history_frame,
}
use blox_os.Frame.Once.{validated-key}

-- A refusal leaves the rows, and shows in the diagnostic of the registered connection.
abbrev pub Refused : Ingestion → Ingestion → FrameError → Type 0
Refused h h' e =
    (h'.streams ≡ h.streams)
    × (e ≢ not_committed duplicate_key)
    × ((e ≡ unregistered_connection) ⊎ (h'.issue ≢ issue_none))

in_bucket-shows : (i : ℕ) (e : BucketError) → issue_of_refusal (in_bucket i e) ≢ issue_none
in_bucket-shows i clock_skew h = cc
in_bucket-shows i _ h = cc

issue_of_refusal-shows : (e : BatchError) → issue_of_refusal e ≢ issue_none
issue_of_refusal-shows (in_bucket i e) = in_bucket-shows i e
issue_of_refusal-shows _ = λ h. cc

issue_of_commit-shows : (e : CommitError) → issue_of_commit e ≢ issue_none
issue_of_commit-shows conflict h = cc
issue_of_commit-shows _ h = cc

commit_result-Refused :
    (b : WireBatch) (stored : Bool) (h : Ingestion) (r : Result CommitError (Stream × ℕ))
    (e : FrameError)
    → r ≢ err duplicate_key
    → (commit_result b stored h r).1 ≡ err e
    → Refused h (commit_result b stored h r).0 e
commit_result-Refused b stored h (err c) e key k =
    subst (Refused h _) (err_eq k)
      (refl, (λ same. key (ap err (not_committed_eq same))), inr (issue_of_commit-shows c))
  where
    not_committed_eq : {c d : CommitError} → not_committed c ≡ not_committed d → c ≡ d
    not_committed_eq same = cc
commit_result-Refused b true h (ok (st, through)) e key k = absurd (cc k)
commit_result-Refused b false h (ok (st, through)) e key k =
    subst (Refused h _) (err_eq k)
      (refl, (λ same. absurd (cc same)), inr (λ same. absurd (cc same)))

-- Whatever the frame and the rows are, an error leaves the rows as they were, is never a row that is there
-- under the key of a bucket, and shows in the diagnostic unless the connection is not registered.
pub frame-refuses :
    (encode : WireBucket → Text) (canonical : Text → Option Text) (registered : Bool) (size : ℕ)
    (decoded : Option WireBatch) (now commit_now : ℕ) (stored : Bool) (h : Ingestion)
    (e : FrameError)
    → (commit_power_history_frame encode canonical registered size decoded now commit_now stored
        h).1
      ≡ err e
    → Refused h
        (commit_power_history_frame encode canonical registered size decoded now commit_now stored
          h).0
        e
unfolding commit_power_history_frame
frame-refuses encode canonical false size decoded now commit_now stored h e k =
    subst (Refused h _) (err_eq k) (refl, (λ same. absurd (cc same)), inl refl)
frame-refuses encode canonical true size decoded now commit_now stored h e k =
    elim (Bool-cases (ltb max_frame_bytes size)) [
      | inl large ↦ rw large (
          subst (Refused h _) (err_eq (rw large at k))
            (refl, (λ same. absurd (cc same)), inr (λ same. absurd (cc same))))
      | inr small ↦ rw small (decoded-Refused decoded (rw small at k))
    ]
  where
    checked-Refused :
        (b : WireBatch) (r : Option BatchError)
        → validate_power_batch b now ≡ r
        → (accept_checked encode canonical commit_now stored h b r).1 ≡ err e
        → Refused h (accept_checked encode canonical commit_now stored h b r).0 e
    checked-Refused b (some f) valid k =
        subst (Refused h _) (err_eq k)
          (refl, (λ same. absurd (cc same)), inr (issue_of_refusal-shows f))
    checked-Refused b none valid k =
        commit_result-Refused b stored h
          (commit_batch canonical (commit_now - max_past_age_ms) (to_batch encode b)
            (h.streams b.stream_id))
          e
          (validated-key encode canonical (commit_now - max_past_age_ms) now b
            (h.streams b.stream_id) valid)
          k

    decoded-Refused :
        (d : Option WireBatch)
        → (accept_decoded encode canonical now commit_now stored h d).1 ≡ err e
        → Refused h (accept_decoded encode canonical now commit_now stored h d).0 e
    decoded-Refused none k =
        subst (Refused h _) (err_eq k)
          (refl, (λ same. absurd (cc same)), inr (λ same. absurd (cc same)))
    decoded-Refused (some b) k = checked-Refused b (validate_power_batch b now) refl k
