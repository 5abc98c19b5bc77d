-- ===== src/Storage/Durable.antt =====
-- agent/power_journal.go: the records of the journal after an append.
use blox_os.Base.{
  ℕ, ◌+◌, ◌≡◌, ◌∙◌, inl, inr, sym, ap, subst, Bool, true, false, ◌||◌, not, Option, none, some, [],
  ◌∷◌, ltb, leb, if◌then◌else◌, All, All-append, arith, Bool-cases,
}
use blox_os.Base.Text.{Text}
use blox_os.Power.Journal.{Entry, Journal}
use blox_os.Storage.Disk.{
  Outcome, Disk, Rotation, write_state, rotate_stream, rotate_fresh, rotate_to,
}
use blox_os.Storage.Enforce.{Limits, enforce}
use blox_os.Power.Ingest.{max_seq}
use blox_os.Storage.Append.{
  reserve_step, Calls, AppendError, Appended, unless_failed, not_reserved, not_rotated, ensure_open,
  close_full, with_line, stamped, confirm, write_line, put_line, put_record, reserve_and_put,
  rotate_and_put, append, enforced,
}
use blox_os.Storage.Bounds.{enforce-All}

module _ (P : Entry → Type 0) where
  entries-ensure_open :
      (l : Limits) (o : Outcome) (b : Bool) (j : Journal)
      → (ensure_open l o b j).0.entries ≡ j.entries
  unfolding ensure_open
  entries-ensure_open l o b j = ground arith

  entries-write_state :
      (o : Outcome) (a b : ℕ) (j : Journal) (d : Disk)
      → (write_state o a b j d).0.entries ≡ j.entries
  unfolding write_state
  entries-write_state o a b j d = ground arith

  rotate_to-All :
      (r : Rotation) (id : Text) (j : Journal) (d : Disk)
      → All P j.entries
      → All P (rotate_to r id j d).0.entries
  unfolding rotate_to
  rotate_to-All r id j d h = ground arith

  rotate_stream-All :
      (r : Rotation) (j : Journal) (d : Disk)
      → All P j.entries
      → All P (rotate_stream r j d).0.entries
  unfolding rotate_stream
  rotate_stream-All r j d h = rotate_with r.fresh
    where
      rotate_with : (fresh : Option Text) → All P (rotate_fresh r fresh j d).0.entries
      rotate_with none = h
      rotate_with (some id) = rotate_to-All r id j d h

  unless_failed-All :
      (t : Journal × Disk × Bool) (e : AppendError) (go : Journal → Disk → Appended)
      → All P t.0.entries
      → ((d : Disk) → All P (go t.0 d).journal.entries)
      → All P (unless_failed t e go).journal.entries
  unless_failed-All (j, d, true) e go h f = f d
  unless_failed-All (j, d, false) e go h f = h

module _ (size : Entry → Option ℕ) (l : Limits) (now : ℕ) (w : Calls) (e : Entry)
    (P : Entry → Type 0)
    (durable : w.written ≡ true → w.synced ≡ true → (n : ℕ) → P (stamped n e)) where
  confirm-All :
      (bytes n : ℕ) (j : Journal) (d : Disk)
      → w.written ≡ true
      → w.synced ≡ true
      → All P j.entries
      → All P (confirm size l now w bytes (stamped n e) j d).journal.entries
  unfolding confirm
  confirm-All bytes n j d a b h =
      enforce-All size w.after l now (with_line bytes (stamped n e) j) P
        (All-append P j.entries (stamped n e ∷ []) h (durable a b n, tt))

  write_line-All :
      (bytes n : ℕ) (d : Disk) (j : Journal) (b : Bool)
      → All P j.entries
      → All P (write_line size l now w bytes (stamped n e) d (j, b)).journal.entries
  unfolding write_line
  write_line-All bytes n d j false h = h
  write_line-All bytes n d j true h = elim (Bool-cases (not w.written || not w.synced)) [
    | inl lost ↦ rw lost h
    | inr safe ↦ rw safe (confirm-All bytes n j d (ground arith) (ground arith) h)
  ]

  entries-close_full : (j : Journal) → (close_full size l now w j).entries ≡ j.entries
  entries-close_full j = ground arith

  put_record-All :
      (j : Journal) (d : Disk)
      → All P j.entries
      → All P (put_record size l now w e j d).journal.entries
  unfolding put_record
  put_record-All j d h = put_sized (size (stamped j.next e))
    where
      put_sized :
          (n : Option ℕ) → All P (put_line size l now w n (stamped j.next e) j d).journal.entries
      put_sized none = h
      put_sized (some n) = elim (Bool-cases (ltb l.max_line n)) [
        | inl long ↦ rw long h
        | inr short ↦
            let k = close_full size l now w j in
            let o = ensure_open l w.created w.opened k in
            rw short (
              write_line-All (n + 1) j.next d o.0 o.1 (
                subst (All P)
                  (sym (entries-ensure_open P l w.created w.opened k ∙ entries-close_full j)) h))
      ]

  reserve_and_put-All :
      (j : Journal) (d : Disk)
      → All P j.entries
      → All P (reserve_and_put size l now w e j d).journal.entries
  unfolding reserve_and_put
  reserve_and_put-All j d h = elim (Bool-cases (ltb j.reserved j.next)) [
    | inl above ↦
        let t = write_state w.reservation j.cursor (j.next + reserve_step) j d in
        let same =
          subst (All P)
            (sym (entries-write_state P w.reservation j.cursor (j.next + reserve_step) j d)) h in
        rw above (
          unless_failed-All P t not_reserved (put_record size l now w e) same
            (λ d'. put_record-All t.0 d' same))
    | inr within ↦ rw within (put_record-All j d h)
  ]

  rotate_and_put-All :
      (j : Journal) (d : Disk)
      → All P j.entries
      → All P (rotate_and_put size l now w e j d).journal.entries
  unfolding rotate_and_put
  rotate_and_put-All j d h = elim (Bool-cases (leb max_seq j.next)) [
    | inl used_up ↦
        let t = rotate_stream w.rotation j d in
        let kept = rotate_stream-All P w.rotation j d h in
        rw used_up (
          unless_failed-All P t not_rotated (reserve_and_put size l now w e) kept
            (λ d'. reserve_and_put-All t.0 d' kept))
    | inr left ↦ rw left (reserve_and_put-All j d h)
  ]

  -- The records after an append are records from before, or the new one under some sequence, and
  -- this one only if its line was written and synced: what holds of the records from before, and of
  -- the new one if it is durable, holds of all records afterwards, whichever calls fail.
  pub append-All :
      (j : Journal) (d : Disk) → All P j.entries → All P (append size l now w e j d).journal.entries
  unfolding append
  append-All j d h = elim (Bool-cases j.over_cap) [
    | inl over ↦
        subst Keeps (sym (ap taken over))
          (enforced_first (enforce size w.before l now j) (enforce-All size w.before l now j P h))
    | inr good ↦ subst Keeps (sym (ap taken good)) (rotate_and_put-All j d h)
  ]
    where
      Keeps : Appended → Type 0
      Keeps a = All P a.journal.entries

      taken : Bool → Appended
      taken over =
          if over
          then enforced (enforce size w.before l now j) d (λ k. rotate_and_put size l now w e k d)
          else rotate_and_put size l now w e j d

      enforced_first :
          (t : Journal × Bool)
          → All P t.0.entries
          → All P (enforced t d (λ k. rotate_and_put size l now w e k d)).journal.entries
      enforced_first (k, true) a = rotate_and_put-All k d a
      enforced_first (k, false) a = a
