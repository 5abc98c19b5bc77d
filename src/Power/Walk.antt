-- ===== src/Power/Walk.antt =====
-- hub/power_history.go: the parts of a round of powerAckedThrough: the gaps, the skip, the run.
use blox_os.Base.{
  ℕ, ◌+◌, ◌≤◌, ◌<◌, ◌≡◌, ◌≢◌, ◌⊎◌, inl, inr, refl, true, false, List, [], ◌∷◌, ltb, leb, ◌==◌,
  if◌then◌else◌, arith, Bool-cases, All, length,
}
use blox_os.Power.Ingest.{Gap, mem_seq, pass_gaps, skip_below, follow_run}
use blox_os.Power.Gaps.{in_gaps, Ascending, All-mem_seq}

pub pass_gaps-le : (gs : List Gap) (next : ℕ) → next ≤ pass_gaps gs next
unfolding pass_gaps
pass_gaps-le [] next = omega arith
pass_gaps-le (g ∷ gs) next =
    ground (arith, pass_gaps-le gs next, pass_gaps-le gs (g.through_seq + 1))

pub pass_gaps-in_gaps :
    (n : ℕ) (gs : List Gap) (next : ℕ) → next ≤ n → n < pass_gaps gs next → in_gaps n gs ≡ true
unfolding pass_gaps in_gaps
pass_gaps-in_gaps n [] next h k = absurd (omega arith)
pass_gaps-in_gaps n (g ∷ gs) next h k =
    ground (arith, pass_gaps-in_gaps n gs next, pass_gaps-in_gaps n gs (g.through_seq + 1))

pub pass_gaps-stays :
    (gs : List Gap) (next : ℕ) → pass_gaps gs next ≡ next → in_gaps next gs ≡ false
unfolding pass_gaps in_gaps
pass_gaps-stays [] next h = refl
pass_gaps-stays (g ∷ gs) next h =
    ground (arith, pass_gaps-stays gs next, pass_gaps-le gs (g.through_seq + 1))

-- The gaps that the walk has not passed.
unfoldable pub live : ℕ → List Gap → ℕ
live next [] = 0
live next (g ∷ gs) = (if leb next g.through_seq then 1 else 0) + live next gs

pub live_mono : (a b : ℕ) (gs : List Gap) → a ≤ b → live b gs ≤ live a gs
unfolding live
live_mono a b [] h = omega arith
live_mono a b (g ∷ gs) h = ground (arith, live_mono a b gs h)

pub live-le_length : (a : ℕ) (gs : List Gap) → live a gs ≤ length gs
unfolding live
live-le_length a [] = omega arith
live-le_length a (g ∷ gs) = ground (arith, live-le_length a gs)

live_drop :
    (g : Gap) (gs : List Gap) (next r : ℕ)
    → next ≤ g.through_seq
    → g.through_seq < r
    → live r (g ∷ gs) < live next (g ∷ gs)
unfolding live
live_drop g gs next r h k = ground (arith, live_mono next r gs)

live_keep :
    (g : Gap) (gs : List Gap) (next r : ℕ)
    → next ≤ r
    → live r gs < live next gs
    → live r (g ∷ gs) < live next (g ∷ gs)
unfolding live
live_keep g gs next r h k = ground arith

pass_gaps-step :
    (g : Gap) (gs : List Gap) (next : ℕ)
    → ((pass_gaps (g ∷ gs) next ≡ pass_gaps gs (g.through_seq + 1)) × (next ≤ g.through_seq))
      ⊎ (pass_gaps (g ∷ gs) next ≡ pass_gaps gs next)
unfolding pass_gaps
pass_gaps-step g gs next = ground arith

pub pass_gaps-live :
    (gs : List Gap) (next : ℕ)
    → pass_gaps gs next ≢ next
    → live (pass_gaps gs next) gs < live next gs
pass_gaps-live [] next h = absurd (h (unfold pass_gaps in refl))
pass_gaps-live (g ∷ gs) next h = elim (pass_gaps-step g gs next) [
  | inl (fires, inside) ↦ rw fires (
      live_drop g gs next (pass_gaps gs (g.through_seq + 1)) inside
        (omega (arith, pass_gaps-le gs (g.through_seq + 1))))
  | inr idle ↦ rw idle (
      live_keep g gs next (pass_gaps gs next) (pass_gaps-le gs next)
        (pass_gaps-live gs next (rw idle at h)))
]

pub Ascending-skip_below : (next : ℕ) (xs : List ℕ) → Ascending xs → Ascending (skip_below next xs)
unfolding skip_below
Ascending-skip_below next [] a = tt
Ascending-skip_below next (x ∷ xs) a = elim (Bool-cases (ltb x next)) [
  | inl low ↦ rw low (Ascending-skip_below next xs a.1)
  | inr high ↦ rw high a
]

pub mem_seq-skip_below :
    (n next : ℕ) (xs : List ℕ) → mem_seq n (skip_below next xs) ≡ true → mem_seq n xs ≡ true
unfolding skip_below mem_seq
mem_seq-skip_below n next [] h = h
mem_seq-skip_below n next (x ∷ xs) h = ground (arith, mem_seq-skip_below n next xs)

pub skip_below-mem_seq :
    (n next : ℕ) (xs : List ℕ)
    → next ≤ n
    → mem_seq n xs ≡ true
    → mem_seq n (skip_below next xs) ≡ true
unfolding skip_below mem_seq
skip_below-mem_seq n next [] h k = k
skip_below-mem_seq n next (x ∷ xs) h k = ground (arith, skip_below-mem_seq n next xs)

All-from : (x next : ℕ) (xs : List ℕ) → next ≤ x → All (λ y. x < y) xs → All (λ y. next ≤ y) xs
All-from x next [] h a = tt
All-from x next (y ∷ ys) h a = (omega (arith, a.0), All-from x next ys h a.1)

pub skip_below-All :
    (next : ℕ) (xs : List ℕ) → Ascending xs → All (λ y. next ≤ y) (skip_below next xs)
unfolding skip_below
skip_below-All next [] a = tt
skip_below-All next (x ∷ xs) a = elim (Bool-cases (ltb x next)) [
  | inl low ↦ rw low (skip_below-All next xs a.1)
  | inr high ↦ rw high (ground arith, All-from x next xs (ground arith) a.0)
]

pub length-skip_below : (next : ℕ) (xs : List ℕ) → length (skip_below next xs) ≤ length xs
unfolding skip_below
length-skip_below next [] = omega arith
length-skip_below next (x ∷ xs) = ground (arith, length-skip_below next xs)

pub follow_run-le : (next : ℕ) (xs : List ℕ) → next ≤ (follow_run next xs).0
unfolding follow_run
follow_run-le next [] = omega arith
follow_run-le next (x ∷ xs) = ground (arith, follow_run-le (next + 1) xs)

pub follow_run-mem_seq :
    (n next : ℕ) (xs : List ℕ) → next ≤ n → n < (follow_run next xs).0 → mem_seq n xs ≡ true
unfolding follow_run mem_seq
follow_run-mem_seq n next [] h k = absurd (omega arith)
follow_run-mem_seq n next (x ∷ xs) h k = ground (arith, follow_run-mem_seq n (next + 1) xs)

pub follow_run-rest :
    (n next : ℕ) (xs : List ℕ) → mem_seq n (follow_run next xs).1 ≡ true → mem_seq n xs ≡ true
unfolding follow_run mem_seq
follow_run-rest n next [] h = h
follow_run-rest n next (x ∷ xs) h = ground (arith, follow_run-rest n (next + 1) xs)

pub follow_run-keeps :
    (n next : ℕ) (xs : List ℕ)
    → (follow_run next xs).0 ≤ n
    → mem_seq n xs ≡ true
    → mem_seq n (follow_run next xs).1 ≡ true
unfolding follow_run mem_seq
follow_run-keeps n next [] h k = k
follow_run-keeps n next (x ∷ xs) h k =
    ground (arith, follow_run-keeps n (next + 1) xs, follow_run-le (next + 1) xs)

pub follow_run-Ascending :
    (next : ℕ) (xs : List ℕ) → Ascending xs → Ascending (follow_run next xs).1
unfolding follow_run
follow_run-Ascending next [] a = tt
follow_run-Ascending next (x ∷ xs) a = elim (Bool-cases (x == next)) [
  | inl here ↦ rw here (follow_run-Ascending (next + 1) xs a.1)
  | inr stop ↦ rw stop a
]

pub follow_run-length :
    (next : ℕ) (xs : List ℕ)
    → (length (follow_run next xs).1 ≤ length xs)
      × (((follow_run next xs).0 ≡ next) ⊎ (length (follow_run next xs).1 < length xs))
unfolding follow_run
follow_run-length next [] = (omega arith, inl refl)
follow_run-length next (x ∷ xs) = ground (arith, follow_run-length (next + 1) xs)

pub follow_run-stops :
    (next : ℕ) (xs : List ℕ)
    → Ascending xs
    → All (λ y. next ≤ y) xs
    → (follow_run next xs).0 ≡ next
    → mem_seq next xs ≡ false
unfolding follow_run mem_seq
follow_run-stops next [] a b h = refl
follow_run-stops next (x ∷ xs) a b h =
    ground (arith, follow_run-le (next + 1) xs, b.0, All-mem_seq (λ y. x < y) next xs a.0)
