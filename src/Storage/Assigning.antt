-- ===== src/Storage/Assigning.antt =====
-- agent/power_journal.go: an append gives its record a sequence above all that were given out under
-- the stream, and keeps what holds of the journal and the log.
use blox_os.Base.{
  ℕ, ◌+◌, ◌≡◌, ◌≤◌, ◌<◌, ◌∙◌, inl, inr, refl, sym, ap, ap₂, subst, Bool, true, false, ◌||◌, not,
  Option, none, some, ◌∷◌, ltb, arith, Bool-cases,
}
use blox_os.Base.Text.{Text}
use blox_os.Power.Journal.{Entry, Journal}
use blox_os.Storage.Disk.{Outcome, Disk}
use blox_os.Storage.Enforce.{Limits, Answers, enforce}
use blox_os.Power.Ingest.{max_seq}
use blox_os.Storage.Append.{
  Calls, AppendError, Appended, stop, ensure_open, with_line, stamped, is_full, close_full, confirm,
  write_line, put_line, put_record,
}
use blox_os.Storage.Log.{Log, logged, IsRising}
use blox_os.Storage.Good.{Good, All-map, closed-Good}

-- The numbers of two journals are the same.
pub record Same (j k : Journal) : Type 0 where
  pub stream : k.stream ≡ j.stream
  pub cursor : k.cursor ≡ j.cursor
  pub reserved : k.reserved ≡ j.reserved
  pub next : k.next ≡ j.next

pub Same-Good : {log : Log} {j k : Journal} {d : Disk} → Same j k → Good log j d → Good log k d
Same-Good {log} {j} {k} {d} s g = record {
  files = g.files;
  limit = omega (arith, g.limit, s.next);
  granted = omega (arith, g.granted, s.reserved);
  acknowledged = omega (arith, g.acknowledged, s.cursor);
  ahead =
      All-map log
        (λ p f e.
          let (low, high) = f (e ∙ s.stream) in
          (omega (arith, low, s.next), omega (arith, high, s.reserved)))
        g.ahead;
  stored = λ v h. omega (arith, s.reserved, g.stored v (ap d.states (sym s.stream) ∙ h));
}

pub enforce-Same :
    (size : Entry → Option ℕ) (w : Answers) (l : Limits) (now : ℕ) (j : Journal)
    → Same j (enforce size w l now j).0
unfolding enforce
enforce-Same size w l now j = record { stream = refl; cursor = refl; reserved = refl; next = refl }

ensure_open_numbers :
    (l : Limits) (o : Outcome) (b : Bool) (j : Journal)
    → (let k = (ensure_open l o b j).0 in
        (k.stream ≡ j.stream)
        × (k.cursor ≡ j.cursor)
        × (k.reserved ≡ j.reserved)
        × (k.next ≡ j.next))
unfolding ensure_open
ensure_open_numbers l o b j = ground arith

ensure_open-Same :
    (l : Limits) (o : Outcome) (b : Bool) (j : Journal) → Same j (ensure_open l o b j).0
ensure_open-Same l o b j =
    let (a, c, d, e) = ensure_open_numbers l o b j in
    record { stream = a; cursor = c; reserved = d; next = e }

-- After an append: the log with the sequence that it gave out.
abbrev pub Fine : Log → Appended → Type 0
Fine log a =
    Good (logged a.journal.stream a.assigned log) a.journal a.disk
    × IsRising (logged a.journal.stream a.assigned log)

pub stop-Fine :
    {log : Log} {j : Journal} {d : Disk} (e : AppendError)
    → Good log j d
    → IsRising log
    → Fine log (stop j d e)
stop-Fine e g r = (g, r)

-- The next sequence is given out; it was reserved.
assign-Good :
    (log : Log) (j : Journal) (d : Disk)
    → j.next < max_seq
    → j.next ≤ j.reserved
    → Good log j d
    → Good ((j.stream, j.next) ∷ log) (record j { next = j.next + 1 }) d
assign-Good log j d low high g = record {
  files = record {
    bounded = g.files.bounded;
    covers =
        λ id s h. (λ e. omega (arith, high, g.stored s (ap d.states e ∙ h)), g.files.covers id s h);
  };
  limit = omega (arith, low);
  granted = g.granted;
  acknowledged = g.acknowledged;
  ahead =
      (λ e. (omega arith, high), All-map log (λ p f e. (omega (arith, (f e).0), (f e).1)) g.ahead);
  stored = g.stored;
}

module _ (size : Entry → Option ℕ) (l : Limits) (now : ℕ) (w : Calls) (log : Log)
    (r : IsRising log) where
  with_line-Good :
      (bytes : ℕ) (e : Entry) (j : Journal) (d : Disk)
      → Good ((j.stream, j.next) ∷ log) (record j { next = j.next + 1 }) d
      → Good ((j.stream, j.next) ∷ log) (with_line bytes e j) d
  with_line-Good bytes e j d g =
      Same-Good (record { stream = refl; cursor = refl; reserved = refl; next = refl }) g

  confirm-Fine :
      (bytes : ℕ) (e : Entry) (j : Journal) (d : Disk)
      → e.seq ≡ j.next
      → j.next < max_seq
      → j.next ≤ j.reserved
      → Good log j d
      → Fine log (confirm size l now w bytes e j d)
  unfolding confirm
  confirm-Fine bytes e j d same low high g =
      let s = enforce-Same size w.after l now (with_line bytes e j) in
      let good = Same-Good s (with_line-Good bytes e j d (assign-Good log j d low high g)) in
      let equal = ap₂ (λ (a : Text) (n : ℕ). (a, n)) (s.stream) same in
      let logs = ap (λ (p : Text × ℕ). p ∷ log) (sym equal) in
      (
        subst (λ k. Good k (enforce size w.after l now (with_line bytes e j)).0 d) logs good,
        subst IsRising logs (All-map log (λ p f h. (f h).0) g.ahead, r),
      )

  write_line-Fine :
      (bytes : ℕ) (e : Entry) (d : Disk) (j : Journal) (b : Bool)
      → e.seq ≡ j.next
      → j.next < max_seq
      → j.next ≤ j.reserved
      → Good log j d
      → Fine log (write_line size l now w bytes e d (j, b))
  unfolding write_line
  write_line-Fine bytes e d j false same low high g = (g, r)
  write_line-Fine bytes e d j true same low high g =
      elim (Bool-cases (not w.written || not w.synced)) [
        | inl lost ↦ rw lost (closed-Good g, r)
        | inr safe ↦ rw safe (confirm-Fine bytes e j d same low high g)
      ]

  close_full-Same : (j : Journal) → Same j (close_full size l now w j)
  close_full-Same j = elim (Bool-cases (is_full l j.segs)) [
    | inl full ↦ rw full (record { stream = refl; cursor = refl; reserved = refl; next = refl })
    | inr room ↦ rw room (record { stream = refl; cursor = refl; reserved = refl; next = refl })
  ]

  Same-trans : {j k m : Journal} → Same j k → Same k m → Same j m
  Same-trans a b = record {
    stream = b.stream ∙ a.stream;
    cursor = b.cursor ∙ a.cursor;
    reserved = b.reserved ∙ a.reserved;
    next = b.next ∙ a.next;
  }

  pub put_record-Fine :
      (e : Entry) (j : Journal) (d : Disk)
      → j.next < max_seq
      → j.next ≤ j.reserved
      → Good log j d
      → Fine log (put_record size l now w e j d)
  unfolding put_record
  put_record-Fine e j d low high g = put_sized (size (stamped j.next e))
    where
      open_at : Journal
      open_at = (ensure_open l w.created w.opened (close_full size l now w j)).0

      opened-Same : Same j open_at
      opened-Same = Same-trans (close_full-Same j) (ensure_open-Same l w.created w.opened _)

      put_sized : (n : Option ℕ) → Fine log (put_line size l now w n (stamped j.next e) j d)
      put_sized none = (g, r)
      put_sized (some n) = elim (Bool-cases (ltb l.max_line n)) [
        | inl long ↦ rw long (g, r)
        | inr short ↦ rw short (
            write_line-Fine (n + 1) (stamped j.next e) d open_at _ (sym opened-Same.next)
              (omega (arith, low, opened-Same.next))
              (omega (arith, high, opened-Same.next, opened-Same.reserved))
              (Same-Good opened-Same g))
      ]
