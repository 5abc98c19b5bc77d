-- ===== src/Rollout/Dwell.antt =====
-- hub/agent_rollout.go: what a proven dwell means, over the frames that a connection delivered.
use mathlib.Core.Path.{subst}
use blox_os.Base.{
  some_eq, sym, ℕ, suc, ◌+◌, ◌-◌, ◌*◌, ◌≤◌, ◌≡◌, refl, Bool, true, false, ◌&&◌, Option, none, some,
  List, ◌∙◌, [], ◌∷◌, arith, ◌==◌, Bool-cases, inl, inr,
}
use blox_os.Base.Text.{Text, lower, lower_idem, equal_fold, equal_fold_iff}
use blox_os.Rollout.Tables.{dwell_ms, telemetry_gap_ms}
use blox_os.Rollout.Evidence.{
  Proof, no_proof, note_report, is_stale, next_start, note_metrics, judge_times, judge_proof,
  proven,
}

-- What one connection delivers about its machine; the newest event of a history stands first.
pub data Event : Type 0 where
  report : ℕ → Text → Text → Event
  metrics : ℕ → Event

unfoldable pub note_event : Event → Proof → Proof
unfolding note_report note_metrics
note_event (report g running candidate) ev = note_report g running candidate ev
note_event (metrics now) ev = note_metrics now ev

unfoldable pub after : List Event → Proof
after [] = no_proof
after (e ∷ es) = note_event e (after es)

-- A report that this candidate of this generation is what the machine runs.
unfoldable pub confirms : ℕ → Text → ℕ → Text → Text → Bool
confirms g candidate g' running candidate' =
    g == g' && equal_fold candidate candidate' && equal_fold running candidate'

-- The candidate was reported on this connection, and every later report says it again.
pub data Reported (g : ℕ) (candidate : Text) : List Event → Type 0 where
  first :
      (g' : ℕ) (running candidate' : Text) (es : List Event)
      → confirms g candidate g' running candidate' ≡ true
      → Reported g candidate (report g' running candidate' ∷ es)
  later :
      (now : ℕ) {es : List Event}
      → Reported g candidate es
      → Reported g candidate (metrics now ∷ es)

-- `Covered g candidate n es start last`: n metrics frames from `start` to `last`, each within the
-- allowed gap of the one before, all after a report of the candidate that nothing contradicts.
pub data Covered (g : ℕ) (candidate : Text) : ℕ → List Event → ℕ → ℕ → Type 0 where
  opening :
      (now : ℕ) {es : List Event}
      → Reported g candidate es
      → Covered g candidate 1 (metrics now ∷ es) now now
  extend :
      (now : ℕ) {n : ℕ} {es : List Event} {start last : ℕ}
      → Covered g candidate n es start last
      → now - last ≤ telemetry_gap_ms
      → Covered g candidate (suc n) (metrics now ∷ es) start now
  again :
      (g' : ℕ) (running candidate' : Text) {n : ℕ} {es : List Event} {start last : ℕ}
      → confirms g candidate g' running candidate' ≡ true
      → Covered g candidate n es start last
      → Covered g candidate n (report g' running candidate' ∷ es) start last

pub Covered-span :
    {g : ℕ} {candidate : Text} {n start last : ℕ} {es : List Event}
    → Covered g candidate n es start last
    → last - start + telemetry_gap_ms ≤ telemetry_gap_ms * n
Covered-span (opening now r) = omega arith
Covered-span (extend now c h) = omega (arith, Covered-span c)
Covered-span (again g' running candidate' h c) = Covered-span c

-- The record is about this candidate of this generation.
unfoldable pub is_about : ℕ → Text → Proof → Bool
is_about g candidate ev = ev.generation == g && equal_fold ev.candidate candidate

module _ (g : ℕ) (candidate : Text) (g' : ℕ) (running candidate' : Text) (ev : Proof) where
  reported_confirms :
      is_about g candidate (note_report g' running candidate' ev) ≡ true
      → (note_report g' running candidate' ev).saw_candidate ≡ true
      → confirms g candidate g' running candidate' ≡ true
  unfolding is_about note_report confirms
  reported_confirms h k = ground (
    arith,
    equal_fold_iff ev.candidate candidate,
    equal_fold_iff ev.candidate candidate',
    equal_fold_iff (lower candidate') candidate,
    equal_fold_iff candidate candidate',
    lower_idem candidate',
  )

  reported_start :
      (s : ℕ)
      → is_about g candidate (note_report g' running candidate' ev) ≡ true
      → (note_report g' running candidate' ev).dwell_start ≡ some s
      → (is_about g candidate ev ≡ true) × (ev.dwell_start ≡ some s)
  unfolding is_about note_report
  reported_start s h k = ground arith

  reported_idle :
      (ev.saw_candidate ≡ false → ev.dwell_start ≡ none)
      → (note_report g' running candidate' ev).saw_candidate ≡ false
      → (note_report g' running candidate' ev).dwell_start ≡ none
  unfolding note_report
  reported_idle h k = ground arith

  reported_last : (note_report g' running candidate' ev).last_metrics ≡ ev.last_metrics
  unfolding note_report
  reported_last = ground arith

-- A connection's record is backed by what the connection delivered.
record Backed (g : ℕ) (candidate : Text) (es : List Event) (ev : Proof) : Type 0 where
  idle : ev.saw_candidate ≡ false → ev.dwell_start ≡ none
  reported : is_about g candidate ev ≡ true → ev.saw_candidate ≡ true → Reported g candidate es
  covered :
      is_about g candidate ev ≡ true
      → (s : ℕ) → ev.dwell_start ≡ some s
      → (n : ℕ) × (l : ℕ) × (ev.last_metrics ≡ some l) × Covered g candidate n es s l

report-Backed :
    (g : ℕ) (candidate : Text) (g' : ℕ) (running candidate' : Text) (es : List Event) (ev : Proof)
    → Backed g candidate es ev
    → Backed g candidate (report g' running candidate' ∷ es) (note_report g' running candidate' ev)
report-Backed g candidate g' running candidate' es ev b = record {
  idle = reported_idle g candidate g' running candidate' ev b.idle;
  reported = λ h k.
      first g' running candidate' es (reported_confirms g candidate g' running candidate' ev h k);
  covered = λ h s k.
      let (same, start) = reported_start g candidate g' running candidate' ev s h k in
      let (n, l, last, c) = b.covered same s start in
      (
        n,
        l,
        reported_last g candidate g' running candidate' ev ∙ last,
        again g' running candidate'
            (reported_confirms g candidate g' running candidate' ev h (saw_of_start s h k)) c,
      );
}
  where
    saw_of_start :
        (s : ℕ)
        → is_about g candidate (note_report g' running candidate' ev) ≡ true
        → (note_report g' running candidate' ev).dwell_start ≡ some s
        → (note_report g' running candidate' ev).saw_candidate ≡ true
    saw_of_start s h k = ground (arith, reported_idle g candidate g' running candidate' ev b.idle)

module _ (g : ℕ) (candidate : Text) (now : ℕ) (es : List Event) (ev : Proof) where
  opens_at :
      (s : ℕ)
      → some now ≡ some s
      → Reported g candidate es
      → (n : ℕ) × (l : ℕ) × (some now ≡ some l) × Covered g candidate n (metrics now ∷ es) s l
  opens_at s e r = (
    1,
    now,
    refl,
    subst (λ x. Covered g candidate 1 (metrics now ∷ es) x now) (some_eq e) (opening now r),
  )

  Covered-next :
      (start : Option ℕ) (s : ℕ)
      → ev.dwell_start ≡ start
      → next_start now start ev.last_metrics ≡ some s
      → Reported g candidate es
      → ((s : ℕ)
          → ev.dwell_start ≡ some s
          → (n : ℕ) × (l : ℕ) × (ev.last_metrics ≡ some l) × Covered g candidate n es s l)
      → (n : ℕ) × (l : ℕ) × (some now ≡ some l) × Covered g candidate n (metrics now ∷ es) s l
  unfolding next_start
  Covered-next none s e k r before = opens_at s k r
  Covered-next (some s0) s e k r before = elim (Bool-cases (is_stale now ev.last_metrics)) [
    | inl quiet ↦ opens_at s (rw quiet at k) r
    | inr alive ↦
        let (n, l, last, c) = before s0 e in
        let same : s0 ≡ s = some_eq (rw alive at k) in
        (
          suc n,
          now,
          refl,
          subst (λ x. Covered g candidate (suc n) (metrics now ∷ es) x now) same
              (extend now c (unfold is_stale in ground arith)),
        )
  ]

  metrics-Backed :
      Backed g candidate es ev → Backed g candidate (metrics now ∷ es) (note_metrics now ev)
  unfolding note_metrics is_about
  metrics-Backed b = elim (Bool-cases ev.saw_candidate) [
    | inl saw ↦ rw saw (record {
      idle = λ h. cc;
      reported = λ h k. later now (b.reported h saw);
      covered = λ h s k. Covered-next ev.dwell_start s refl k (b.reported h saw) (b.covered h);
    })
    | inr unseen ↦
        rw unseen (record { idle = λ h. refl; reported = λ h k. cc; covered = λ h s k. cc })
  ]

after-Backed : (g : ℕ) (candidate : Text) (es : List Event) → Backed g candidate es (after es)
unfolding after note_event
after-Backed g candidate [] = record {
  idle = λ _. refl;
  reported = λ h k. cc;
  covered = λ h s k. cc;
}
after-Backed g candidate (report g' running candidate' ∷ es) =
    report-Backed g candidate g' running candidate' es (after es) (after-Backed g candidate es)
after-Backed g candidate (metrics now ∷ es) =
    metrics-Backed g candidate now es (after es) (after-Backed g candidate es)

judged_times :
    (now : ℕ) (start last : Option ℕ)
    → judge_times now start last ≡ proven
    → (s : ℕ) × (l : ℕ) × (start ≡ some s)
      × (last ≡ some l)
      × (now - l ≤ telemetry_gap_ms)
      × (dwell_ms ≤ l - s)
unfolding judge_times
judged_times now none last h = cc
judged_times now (some s) none h = cc
judged_times now (some s) (some l) h = (s, l, refl, refl, ground arith, ground arith)

judged_proof :
    (now g : ℕ) (candidate : Text) (ev : Proof)
    → judge_proof now g candidate (some ev) ≡ proven
    → (is_about g candidate ev ≡ true) × (judge_times now ev.dwell_start ev.last_metrics ≡ proven)
unfolding judge_proof is_about
judged_proof now g candidate ev h = ground arith

-- Whatever one connection has delivered, if its record then proves the dwell of a candidate of a
-- generation, then it delivered at least three metrics frames: all after a report that the machine
-- runs that candidate, which no later report contradicts; each within the allowed gap (45 s) of the
-- one before; the last within that gap of now; and 60 s or more between the first and the last.
pub dwell_sound :
    (now g : ℕ) (candidate : Text) (es : List Event)
    → judge_proof now g candidate (some (after es)) ≡ proven
    → (n : ℕ) × (s : ℕ) × (l : ℕ) × Covered g candidate n es s l
      × (3 ≤ n)
      × (dwell_ms ≤ l - s)
      × (now - l ≤ telemetry_gap_ms)
dwell_sound now g candidate es h =
    let (about, times) = judged_proof now g candidate (after es) h in
    let (s, l, start, last, fresh, long) = judged_times now _ _ times in
    let (n, l', last', c) = (after-Backed g candidate es).covered about s start in
    let same : l' ≡ l = some_eq (sym last' ∙ last) in
    let c' : Covered g candidate n es s l = subst (λ x. Covered g candidate n es s x) same c in
    (n, s, l, c', omega (arith, Covered-span c'), long, fresh)
