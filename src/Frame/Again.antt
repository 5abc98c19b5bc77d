-- ===== src/Frame/Again.antt =====
-- hub/power_history.go: a frame whose acknowledgement was lost is sent again.
use blox_os.Base.{
  ℕ, ◌-◌, ◌≤◌, ◌≡◌, ◌∙◌, subst, arith, refl, sym, ap, List, [], ◌∷◌, Option, none, some, Bool, true,
  false, ltb, All, Bool-cases, inl, inr, map,
}
use blox_os.Base.Text.{Text, text_eq_refl}
use blox_os.Base.Result.{Result, ok, err, ok_eq}
use blox_os.Power.Ingest.{Bucket, Stream, CommitError, commit_batch}
use blox_os.Power.Retention.{Since}
use blox_os.Power.Later.{commit-Since}
use blox_os.Frame.Wire.{WireBucket, WireBatch, max_frame_bytes}
use blox_os.Frame.Check.{BatchError, validate_power_batch}
use blox_os.Frame.Accept.{
  Ingestion, Ack, issue_none, to_bucket, to_batch, max_past_age_ms, with_stream, commit_result,
  accept_checked, commit_power_history_frame,
}
use blox_os.Frame.Ordered.{validate-later}

abbrev committed_state : WireBatch → Stream → Ingestion → Ingestion
committed_state b st h = record {
  streams = with_stream b.stream_id st h.streams;
  issue = issue_none;
}

commit_result_inv :
    (b : WireBatch) (stored : Bool) (h : Ingestion) (r : Result CommitError (Stream × ℕ))
    (h' : Ingestion) (ack : Ack)
    → commit_result b stored h r ≡ (h', ok ack)
    → (st : Stream) × (through : ℕ) × (r ≡ ok (st, through))
      × (h' ≡ committed_state b st h)
      × (ack ≡ record { stream_id = b.stream_id; through = through })
commit_result_inv b stored h (err e) h' ack k = absurd (cc k)
commit_result_inv b false h (ok (st, through)) h' ack k = absurd (cc k)
commit_result_inv b true h (ok (st, through)) h' ack k =
    (st, through, refl, sym (ap (λ p. p.0) k), sym (ok_eq (ap (λ p. p.1) k)))

-- What an acknowledged frame has passed.
frame_inv :
    (encode : WireBucket → Text) (canonical : Text → Option Text) (size : ℕ) (b : WireBatch)
    (now commit_now : ℕ) (stored : Bool) (h h' : Ingestion) (ack : Ack)
    → commit_power_history_frame encode canonical true size (some b) now commit_now stored h
      ≡ (h', ok ack)
    → (ltb max_frame_bytes size ≡ false)
      × (validate_power_batch b now ≡ none)
      × (st : Stream) × (through : ℕ) × (commit_batch canonical
            (commit_now - max_past_age_ms)
            (to_batch encode b)
            (h.streams b.stream_id)
          ≡ ok (st, through))
      × (h' ≡ committed_state b st h)
      × (ack ≡ record { stream_id = b.stream_id; through = through })
unfolding commit_power_history_frame
frame_inv encode canonical size b now commit_now stored h h' ack k =
    elim (Bool-cases (ltb max_frame_bytes size)) [
      | inl large ↦ absurd (cc (rw large at k))
      | inr small ↦
          (let (valid, st, through, done, state, acked) =
              checked (validate_power_batch b now) (rw small at k) in
            (small, valid, st, through, done, state, acked))
    ]
  where
    checked :
        (r : Option BatchError)
        → accept_checked encode canonical commit_now stored h b r ≡ (h', ok ack)
        → (r ≡ none)
          × (st : Stream) × (through : ℕ) × (commit_batch canonical
                (commit_now - max_past_age_ms)
                (to_batch encode b)
                (h.streams b.stream_id)
              ≡ ok (st, through))
          × (h' ≡ committed_state b st h)
          × (ack ≡ record { stream_id = b.stream_id; through = through })
    checked (some e) k = absurd (cc k)
    checked none k =
        let (st, through, done, state, acked) =
          commit_result_inv b stored h
            (commit_batch canonical (commit_now - max_past_age_ms) (to_batch encode b)
              (h.streams b.stream_id))
            h' ack k in
        (refl, st, through, done, state, acked)

with_stream-same :
    (s : Text) (st : Stream) (streams : Text → Stream) → with_stream s st streams s ≡ st
unfolding with_stream
with_stream-same s st streams = rw (text_eq_refl s) refl

All-encoded :
    (encode : WireBucket → Text) (canonical : Text → Option Text) (bs : List WireBucket)
    → ((k : WireBucket) → canonical (encode k) ≡ some (encode k))
    → All (λ (k : Bucket). canonical k.payload ≡ some k.payload) (map (to_bucket encode) bs)
All-encoded encode canonical [] stable = tt
All-encoded encode canonical (b ∷ bs) stable = (stable b, All-encoded encode canonical bs stable)

whole_batch :
    (encode : WireBucket → Text) (t : ℕ) (bs : List WireBucket)
    → All (λ (k : WireBucket). k.seq ≤ t) bs
    → All (λ (k : Bucket). k.seq ≤ t) (map (to_bucket encode) bs)
whole_batch encode t [] h = tt
whole_batch encode t (b ∷ bs) h = (h.0, whole_batch encode t bs h.1)

-- A frame of which every bucket was acknowledged is sent again at a later time to the registered connection,
-- after any other batches of the stream and any prunings of it, in any order: the hub acknowledges what the
-- stream has acknowledged by then, which is no less than the first time, and changes nothing but the
-- stream's degraded flag, which is the batch's, and the connection's diagnostic, which is cleared; where the hub reads back the text that it wrote of a bucket, and the database
-- stores the second commit.
pub frame_again :
    (encode : WireBucket → Text) (canonical : Text → Option Text) (size : ℕ) (b : WireBatch)
    (now later commit_now commit_later : ℕ) (stored : Bool) (h h' g : Ingestion) (ack : Ack)
    → ((k : WireBucket) → canonical (encode k) ≡ some (encode k))
    → now ≤ later
    → commit_power_history_frame encode canonical true size (some b) now commit_now stored h
      ≡ (h', ok ack)
    → All (λ (k : WireBucket). k.seq ≤ ack.through) b.buckets
    → Since canonical (h'.streams b.stream_id) (g.streams b.stream_id)
    → (ack.through ≤ (g.streams b.stream_id).acked_through)
      × (commit_power_history_frame encode canonical true size (some b) later commit_later true g
          ≡ (
            record {
              streams =
                  with_stream b.stream_id
                    (record (g.streams b.stream_id) { degraded = b.degraded })
                    g.streams;
              issue = issue_none;
            },
            ok (record {
              stream_id = b.stream_id;
              through = (g.streams b.stream_id).acked_through;
            }),
          ))
unfolding commit_power_history_frame
frame_again encode canonical size b now later commit_now commit_later stored h h' g ack stable le k
      whole since =
    let (small, valid, st, through, committed, e, acked) =
      frame_inv encode canonical size b now commit_now stored h h' ack k in
    let same : h'.streams b.stream_id ≡ st =
      ap (λ (i : Ingestion). i.streams b.stream_id) e ∙ with_stream-same b.stream_id st h.streams in
    let answered = ap (λ (a : Ack). a.through) acked in
    let (more, replayed) =
      commit-Since canonical (commit_now - max_past_age_ms) (commit_later - max_past_age_ms)
        (to_batch encode b) (h.streams b.stream_id) st (g.streams b.stream_id) through
        (All-encoded encode canonical b.buckets stable) committed
        (whole_batch encode through b.buckets
          (subst (λ n. All (λ (k : WireBucket). k.seq ≤ n) b.buckets) answered whole))
        (subst (λ s. Since canonical s (g.streams b.stream_id)) same since) in
    (omega (arith, more, answered), rw (small, validate-later b now later le valid, replayed) refl)
