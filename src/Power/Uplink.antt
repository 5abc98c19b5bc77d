-- ===== src/Power/Uplink.antt =====
-- agent/power_journal.go: what the agent's next batch holds, and that it never waits with data.
use blox_os.Base.{
  ℕ, zero, suc, ◌+◌, ◌≤◌, ◌<◌, ◌≡◌, ◌≢◌, ◌↔◌, ◌∙◌, ◌⊎◌, inl, inr, refl, sym, Bool, true, false,
  ◌&&◌, not, Option, none, some, List, [], ◌∷◌, ltb, arith, Bool-cases, All, length,
}
use blox_os.Base.Text.{Text, text_eq_iff}
use blox_os.Base.Result.{ok}
use blox_os.Base.Table.{select_where}
use blox_os.Power.Journal.{
  Entry, Snapshot, Journal, ack, PendingBatch, is_pending, take_run, first_seq, is_bare, shrink,
  batch_of, pending_batch,
}
use blox_os.Power.Pending.{
  IsRun, first-IsRun, take_run-All, select-All, Sound, Fits, shrink-Sound, shrink-ends,
}

-- The entries that are unacknowledged and live.
abbrev pub pending_entries : ℕ → Snapshot → List Entry
pending_entries now s = select_where (is_pending now s) s.records

-- The batch before it is halved.
unsized : ℕ → ℕ → Snapshot → PendingBatch
unsized now max_records s = batch_of s (take_run max_records none (pending_entries now s))

-- The test for nothing to send and nothing to declare.
is_idle : ℕ → ℕ → Snapshot → Bool
is_idle now max_records s =
    let b = unsized now max_records s in
    is_bare b.buckets && not (ltb (s.acked + 1) b.retained_from)

idle_run :
    (room next acked : ℕ) (rs : List Entry)
    → 0 < room
    → ((is_bare (take_run room none rs)
          && not (ltb (acked + 1) (first_seq next (take_run room none rs))))
        ≡ true)
      ↔ ((rs ≡ []) × (next ≤ acked + 1))
unfolding take_run first_seq
idle_run zero next acked rs h = absurd (omega arith)
idle_run (suc room) next acked [] h = ground arith
idle_run (suc room) next acked (r ∷ rs) h = (λ e. absurd (cc e), λ (e, _). absurd (cc e))

module _ (size : PendingBatch → Option ℕ) (now max_records max_bytes : ℕ) (s : Snapshot) where
  idle_none :
      is_idle now max_records s ≡ true → pending_batch size now max_records max_bytes s ≡ none
  unfolding pending_batch is_idle unsized
  idle_none h = rw h refl

  busy_shrinks :
      is_idle now max_records s ≡ false
      → pending_batch size now max_records max_bytes s
        ≡ shrink size max_bytes
            (suc (length (unsized now max_records s).buckets))
            (unsized now max_records s)
  unfolding pending_batch is_idle unsized
  busy_shrinks h = rw h refl

  unsized-Sound : Sound (λ r. is_pending now s r ≡ true) s.stream_id (unsized now max_records s)
  unfolding unsized batch_of
  unsized-Sound = record {
    stream = refl;
    run = first-IsRun max_records s.next_seq (pending_entries now s);
    all = take_run-All _ max_records none _ (select-All (is_pending now s) s.records);
  }

  -- A batch that the agent sends is of its stream, with consecutive buckets from retained_from on,
  -- each of them unacknowledged, within the retention window and not too far in the future; its
  -- encoding is within the byte limit unless it holds one bucket or none.
  pub pending_batch_sound :
      (b : PendingBatch)
      → pending_batch size now max_records max_bytes s ≡ some b
      → (b.stream_id ≡ s.stream_id)
        × IsRun b.retained_from b.buckets
        × All (λ r. is_pending now s r ≡ true) b.buckets
        × Fits size max_bytes b
  pending_batch_sound b h = elim (Bool-cases (is_idle now max_records s)) [
    | inl idle ↦ absurd (cc (sym (idle_none idle) ∙ h))
    | inr busy ↦
        let (v, fit, _) =
          shrink-Sound size max_bytes _ s.stream_id _ (unsized now max_records s) b unsized-Sound
            (sym (busy_shrinks busy) ∙ h) in
        (v.stream, v.run, v.all, fit)
  ]

  idle_iff :
      0 < max_records
      → (is_idle now max_records s ≡ true)
        ↔ ((pending_entries now s ≡ []) × (s.next_seq ≤ s.acked + 1))
  unfolding is_idle unsized batch_of
  idle_iff some_room = idle_run max_records s.next_seq s.acked (pending_entries now s) some_room

  -- The agent sends nothing exactly when it has nothing to send and nothing to declare: no entry is
  -- unacknowledged and live, and no sequence is missing between the acknowledged one and the next;
  -- where a batch can hold an entry and every batch can be encoded.
  pub pending_batch-none :
      0 < max_records
      → ((b : PendingBatch) → size b ≢ none)
      → (pending_batch size now max_records max_bytes s ≡ none)
        ↔ ((pending_entries now s ≡ []) × (s.next_seq ≤ s.acked + 1))
  pending_batch-none some_room encodes = (
    λ h. elim (Bool-cases (is_idle now max_records s)) [
      | inl idle ↦ (idle_iff some_room).0 idle
      | inr busy ↦ absurd (
          shrink-ends size max_bytes _ (unsized now max_records s) encodes (omega arith)
            (sym (busy_shrinks busy) ∙ h))
    ],
    λ h. idle_none ((idle_iff some_room).1 h),
  )

-- An acknowledgement moves the agent's cursor exactly when it is of the stream, above the cursor,
-- below the next sequence, and stored; then the cursor is the acknowledged sequence. Otherwise the
-- cursor stays; it never goes back, and it stays below the next sequence if it was.
pub ack-moves :
    (written : Bool) (stream : Text) (through : ℕ) (j : Journal)
    → j.cursor < j.next
    → (((ack written stream through j).1 ≡ ok true)
        ↔ ((stream ≡ j.stream) × (j.cursor < through) × (through < j.next) × (written ≡ true)))
      × ((((ack written stream through j).1 ≡ ok true)
            × ((ack written stream through j).0.cursor ≡ through))
          ⊎ (((ack written stream through j).1 ≢ ok true) × ((ack written stream through j).0 ≡ j)))
      × (j.cursor ≤ (ack written stream through j).0.cursor)
      × ((ack written stream through j).0.cursor < (ack written stream through j).0.next)
unfolding ack
ack-moves written stream through j below = ground (arith, text_eq_iff stream j.stream)
