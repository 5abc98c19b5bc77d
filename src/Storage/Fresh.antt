-- ===== src/Storage/Fresh.antt =====
-- agent/power_journal.go: no sequence of a stream is given out twice, across appends that fail
-- anywhere, crashes, openings and rotations.
use blox_os.Base.{
  ℕ, ◌+◌, ◌≡◌, ◌<◌, ◌⊎◌, inl, inr, refl, sym, ap, subst, Bool, true, false, Option, some, ltb, leb,
  if◌then◌else◌, All, arith, Bool-cases, some_eq,
}
use blox_os.Base.Text.{Text}
use blox_os.Power.Journal.{Entry, Journal, ack}
use blox_os.Storage.Disk.{
  Outcome, done, failed, unsure, Disk, put_state, write_state, rotate_stream,
}
use blox_os.Storage.Enforce.{Limits, enforce}
use blox_os.Power.Ingest.{max_seq}
use blox_os.Storage.Append.{
  reserve_step, Calls, AppendError, Appended, not_reserved, not_rotated, unless_failed,
  reserve_and_put, rotate_and_put, append, enforced, Opening, open_journal,
}
use blox_os.Storage.Log.{
  Log, System, logged, IsUnused, IsOther, IsRising, HasSmall, Step, appending, acking, enforcing,
  opening, Reach, here, next, first_start, after_append, after_ack, after_open,
}
use blox_os.Storage.Good.{Covered, Good, write_state-Good}
use blox_os.Storage.Rotating.{rotate_stream-Good, rotated_next}
use blox_os.Storage.Assigning.{Fine, Same, Same-Good, enforce-Same, put_record-Fine}
use blox_os.Storage.Reopened.{open_journal-Opened}

-- An operation that may have failed, and what is done next.
unless_failed-Fine :
    (log : Log) (t : Journal × Disk × Bool) (e : AppendError) (go : Journal → Disk → Appended)
    → IsRising log
    → Good log t.0 t.1
    → (t.2 ≡ true → Fine log (go t.0 t.1))
    → Fine log (unless_failed t e go)
unless_failed-Fine log (j, d, true) e go r g f = f refl
unless_failed-Fine log (j, d, false) e go r g f = (g, r)

written_numbers :
    (o : Outcome) (a b : ℕ) (j : Journal) (d : Disk)
    → (write_state o a b j d).2 ≡ true
    → ((write_state o a b j d).0.next ≡ j.next) × ((write_state o a b j d).0.reserved ≡ b)
unfolding write_state
written_numbers done a b j d h = (refl, refl)
written_numbers failed a b j d h = absurd (cc h)
written_numbers unsure a b j d h = absurd (cc h)

module _ (size : Entry → Option ℕ) (l : Limits) (now : ℕ) (w : Calls) (log : Log) (r : IsRising log)
    (e : Entry) where
  reserve_and_put-Fine :
      (j : Journal) (d : Disk)
      → j.next < max_seq
      → Good log j d
      → Fine log (reserve_and_put size l now w e j d)
  unfolding reserve_and_put
  reserve_and_put-Fine j d low g = elim (Bool-cases (ltb j.reserved j.next)) [
    | inl above ↦ rw above (
        let t = write_state w.reservation j.cursor (j.next + reserve_step) j d in
        let good =
          write_state-Good j.cursor (j.next + reserve_step) log j d g.acknowledged
            (omega (arith, low)) (ground arith) g w.reservation in
        unless_failed-Fine log t not_reserved _ r good (λ h.
          let (same, upto) = written_numbers w.reservation j.cursor (j.next + reserve_step) j d h in
          put_record-Fine size l now w log r e t.0 t.1 (omega (arith, low, same))
            (omega (arith, same, upto)) good))
    | inr within ↦ rw within (put_record-Fine size l now w log r e j d low (ground arith) g)
  ]

  rotate_and_put-Fine :
      (j : Journal) (d : Disk)
      → IsUnused log w.rotation.fresh
      → IsOther j.stream w.rotation.fresh
      → Good log j d
      → Fine log (rotate_and_put size l now w e j d)
  unfolding rotate_and_put
  rotate_and_put-Fine j d unused other g = elim (Bool-cases (leb max_seq j.next)) [
    | inl used_up ↦ rw used_up (
        let good = rotate_stream-Good w.rotation log j d unused other g in
        unless_failed-Fine log (rotate_stream w.rotation j d) not_rotated _ r good
          (λ h. reserve_and_put-Fine _ _ (omega (arith, rotated_next w.rotation j d h)) good))
    | inr left ↦ rw left (reserve_and_put-Fine j d (ground arith) g)
  ]

  append-Fine :
      (j : Journal) (d : Disk)
      → IsUnused log w.rotation.fresh
      → IsOther j.stream w.rotation.fresh
      → Good log j d
      → Fine log (append size l now w e j d)
  unfolding append
  append-Fine j d unused other g = elim (Bool-cases j.over_cap) [
    | inl over ↦
        subst (Fine log) (sym (ap taken over))
          (enforced_first (enforce size w.before l now j) (enforce-Same size w.before l now j))
    | inr good ↦ subst (Fine log) (sym (ap taken good)) (rotate_and_put-Fine j d unused other g)
  ]
    where
      taken : Bool → Appended
      taken over =
          if over
          then enforced (enforce size w.before l now j) d (λ k. rotate_and_put size l now w e k d)
          else rotate_and_put size l now w e j d

      enforced_first :
          (t : Journal × Bool)
          → Same j t.0
          → Fine log (enforced t d (λ k. rotate_and_put size l now w e k d))
      enforced_first (k, true) s =
          rotate_and_put-Fine k d unused
            (subst (λ x. IsOther x w.rotation.fresh) (sym s.stream) other) (Same-Good s g)
      enforced_first (k, false) s = (Same-Good s g, r)

-- What holds of the running system.
pub record Sound (s : System) : Type 0 where
  pub files : Covered s.log s.disk
  pub good : (j : Journal) → s.running ≡ some j → Good s.log j s.disk
  pub rising : IsRising s.log

running-Sound :
    (log : Log) (j : Journal) (d : Disk)
    → Good log j d
    → IsRising log
    → Sound (record { running = some j; disk = d; log = log })
running-Sound log j d g r = record {
  files = g.files;
  good = λ k h. subst (λ x. Good log x d) (some_eq h) g;
  rising = r;
}

append-Sound :
    (size : Entry → Option ℕ) (l : Limits) (now : ℕ) (w : Calls) (e : Entry) (j : Journal)
    (s : System)
    → s.running ≡ some j
    → IsUnused s.log w.rotation.fresh
    → IsOther j.stream w.rotation.fresh
    → Sound s
    → Sound (after_append (append size l now w e j s.disk) s.log)
unfolding after_append
append-Sound size l now w e j s run unused other v =
    let a = append size l now w e j s.disk in
    let (g, r) = append-Fine size l now w s.log v.rising e j s.disk unused other (v.good j run) in
    running-Sound (logged a.journal.stream a.assigned s.log) a.journal a.disk g r

-- An acknowledgement that writes the state file is below the next sequence; others change nothing.
ack-step :
    (o : Outcome) (stream : Text) (through : ℕ) (j : Journal) (d : Disk) (log : Log)
    → ((through < j.next)
        × (after_ack o stream through j d log ≡ (
            let t = write_state o through j.reserved j d in
            record { running = some t.0; disk = t.1; log = log })))
      ⊎ (after_ack o stream through j d log ≡ record { running = some j; disk = d; log = log })
unfolding after_ack ack write_state put_state
ack-step done stream through j d log = ground arith
ack-step failed stream through j d log = ground arith
ack-step unsure stream through j d log = ground arith

ack-Sound :
    (o : Outcome) (stream : Text) (through : ℕ) (j : Journal) (s : System)
    → s.running ≡ some j
    → Sound s
    → Sound (after_ack o stream through j s.disk s.log)
ack-Sound o stream through j s run v =
    let g = v.good j run in
    elim (ack-step o stream through j s.disk s.log) [
      | inl (low, e) ↦ subst Sound (sym e) (
          running-Sound s.log _ _
            (write_state-Good through j.reserved s.log j s.disk (omega (arith, low, g.limit))
              g.granted (omega arith) g o)
            v.rising)
      | inr e ↦ subst Sound (sym e) (running-Sound s.log j s.disk g v.rising)
    ]

open-Sound :
    (size : Entry → Option ℕ) (l : Limits) (now : ℕ) (w : Opening) (s : System)
    → IsUnused s.log w.identity.fresh
    → IsUnused s.log w.exhausted.fresh
    → All HasSmall w.files
    → Sound s
    → Sound (after_open (open_journal size l now w s.disk) s.log)
unfolding after_open
open-Sound size l now w s unused spare small v =
    let o = open_journal-Opened size l now w s.log s.disk unused spare small v.files in
    record { files = o.files; good = o.good; rising = v.rising }

Step-Sound : {s t : System} → Sound s → Step s t → Sound t
Step-Sound {s} v (appending size l now w e j run unused other) =
    append-Sound size l now w e j s run unused other v
Step-Sound {s} v (acking o stream through j run) = ack-Sound o stream through j s run v
Step-Sound {s} v (enforcing size w l now j run) =
    running-Sound s.log _ s.disk (Same-Good (enforce-Same size w l now j) (v.good j run)) v.rising
Step-Sound {s} v (opening size l now w unused spare small) =
    open-Sound size l now w s unused spare small v

Reach-Sound : {s t : System} → Sound s → Reach s t → Sound t
Reach-Sound v here = v
Reach-Sound v (next r s) = Step-Sound (Reach-Sound v r) s

first_start-Sound : Sound first_start
first_start-Sound = record {
  files = record { bounded = λ id s h. absurd (cc h); covers = λ id s h. tt };
  good = λ j h. absurd (cc h);
  rising = tt;
}

-- Starting from an empty directory, under each stream every sequence that is given to a durable
-- record is larger than all that were given out before, so none is given out twice: whatever
-- appends, acknowledgements, enforcements, openings and crashes came between, whichever of their
-- writes failed or were done in spite of an error, and whatever the segment files held at an
-- opening, where no line of them decodes to the largest 64-bit sequence and a random stream id is
-- neither the running one nor one that was used.
pub Reach-IsRising : {s : System} → Reach first_start s → IsRising s.log
Reach-IsRising r = (Reach-Sound first_start-Sound r).rising
