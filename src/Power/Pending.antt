-- ===== src/Power/Pending.antt =====
-- agent/power_journal.go: the contiguous run, and the loop that halves a batch until it fits.
use blox_os.Base.{
  ℕ, zero, suc, ◌+◌, ◌/◌, ◌≤◌, ◌<◌, ◌≡◌, ◌≢◌, ◌⊎◌, ◌∙◌, inl, inr, refl, sym, subst, Bool, true,
  Option, none, some, List, [], ◌∷◌, leb, ◌==◌, ==_iff, arith, Bool-cases, Option-cases, some_eq,
  All, length, take, length-take,
}
use blox_os.Base.Text.{Text}
use blox_os.Base.Table.{select_where}
use blox_os.Power.Journal.{Entry, PendingBatch, take_run, first_seq, shrink}

-- Entries with consecutive sequences from a given one.
abbrev pub IsRun : ℕ → List Entry → Type 0
IsRun n [] = Unit
IsRun n (r ∷ rs) = (r.seq ≡ n) × IsRun (n + 1) rs

take_run-IsRun : (room p : ℕ) (rs : List Entry) → IsRun (p + 1) (take_run room (some p) rs)
unfolding take_run
take_run-IsRun zero p rs = tt
take_run-IsRun (suc room) p [] = tt
take_run-IsRun (suc room) p (r ∷ rs) = elim (Bool-cases (r.seq == p + 1)) [
  | inl follows ↦ rw follows (
    (==_iff r.seq (p + 1)).0 follows,
    subst (λ n. IsRun (n + 1) (take_run room (some r.seq) rs)) ((==_iff r.seq (p + 1)).0 follows)
        (take_run-IsRun room r.seq rs),
  )
  | inr hole ↦ rw hole tt
]

pub first-IsRun :
    (room next : ℕ) (rs : List Entry)
    → IsRun (first_seq next (take_run room none rs)) (take_run room none rs)
unfolding take_run first_seq
first-IsRun zero next rs = tt
first-IsRun (suc room) next [] = tt
first-IsRun (suc room) next (r ∷ rs) = (refl, take_run-IsRun room r.seq rs)

pub take_run-All :
    (P : Entry → Type 0) (room : ℕ) (prev : Option ℕ) (rs : List Entry)
    → All P rs
    → All P (take_run room prev rs)
unfolding take_run
take_run-All P zero prev rs a = tt
take_run-All P (suc room) prev [] a = tt
take_run-All P (suc room) none (r ∷ rs) a = (a.0, take_run-All P room (some r.seq) rs a.1)
take_run-All P (suc room) (some p) (r ∷ rs) a = elim (Bool-cases (r.seq == p + 1)) [
  | inl follows ↦ rw follows (a.0, take_run-All P room (some r.seq) rs a.1)
  | inr hole ↦ rw hole tt
]

pub select-All : (p : Entry → Bool) (rs : List Entry) → All (λ r. p r ≡ true) (select_where p rs)
unfolding select_where
select-All p [] = tt
select-All p (r ∷ rs) = elim (Bool-cases (p r)) [
  | inl good ↦ rw good (good, select-All p rs)
  | inr bad ↦ rw bad (select-All p rs)
]

take-IsRun : (k n : ℕ) (rs : List Entry) → IsRun n rs → IsRun n (take k rs)
unfolding take
take-IsRun zero n rs a = tt
take-IsRun (suc k) n [] a = tt
take-IsRun (suc k) n (r ∷ rs) a = (a.0, take-IsRun k (n + 1) rs a.1)

take-All : (P : Entry → Type 0) (k : ℕ) (rs : List Entry) → All P rs → All P (take k rs)
unfolding take
take-All P zero rs a = tt
take-All P (suc k) [] a = tt
take-All P (suc k) (r ∷ rs) a = (a.0, take-All P k rs a.1)

-- What holds of a batch and survives the halving.
pub record Sound (P : Entry → Type 0) (id : Text) (b : PendingBatch) : Type 0 where
  pub stream : b.stream_id ≡ id
  pub run : IsRun b.retained_from b.buckets
  pub all : All P b.buckets

half : PendingBatch → PendingBatch
half b = record b { buckets = take (length b.buckets / 2) b.buckets }

module _ (size : PendingBatch → Option ℕ) (max_bytes : ℕ) where
  -- One round of the loop: the batch is sent, or halved.
  shrink-step :
      (fuel : ℕ) (b : PendingBatch) (n : ℕ)
      → size b ≡ some n
      → (((n ≤ max_bytes) ⊎ (length b.buckets ≤ 1)) × (shrink size max_bytes (suc fuel) b ≡ some b))
        ⊎ ((1 < length b.buckets)
            × (shrink size max_bytes (suc fuel) b ≡ shrink size max_bytes fuel (half b)))
  unfolding shrink half
  shrink-step fuel b n e = elim (Bool-cases (leb n max_bytes)) [
    | inl small ↦ inl (inl (ground arith), rw (e, shrink) (rw small refl))
    | inr large ↦ elim (Bool-cases (leb (length b.buckets) 1)) [
      | inl single ↦ inl (inr (ground arith), rw (e, shrink) (rw (large, single) refl))
      | inr more ↦ inr (ground arith, rw (e, shrink) (rw (large, more) refl))
    ]
  ]

  no_fuel : (b : PendingBatch) → shrink size max_bytes zero b ≡ none
  unfolding shrink
  no_fuel b = refl

  length-half : (b : PendingBatch) → length (half b).buckets ≤ length b.buckets / 2
  unfolding half
  length-half b = length-take (length b.buckets / 2) b.buckets

  shrink-none : (fuel : ℕ) (b : PendingBatch) → size b ≡ none → shrink size max_bytes fuel b ≡ none
  unfolding shrink
  shrink-none zero b e = refl
  shrink-none (suc fuel) b e = rw (e, shrink) refl

  half-Sound :
      (P : Entry → Type 0) (id : Text) (b : PendingBatch) → Sound P id b → Sound P id (half b)
  unfolding half
  half-Sound P id b v = record {
    stream = v.stream;
    run = take-IsRun (length b.buckets / 2) b.retained_from b.buckets v.run;
    all = take-All P (length b.buckets / 2) b.buckets v.all;
  }

  half-retained : (b : PendingBatch) → (half b).retained_from ≡ b.retained_from
  unfolding half
  half-retained b = refl

  -- A batch that is sent is small enough, or cannot be made smaller.
  abbrev pub Fits : PendingBatch → Type 0
  Fits b = (n : ℕ) × (size b ≡ some n) × ((n ≤ max_bytes) ⊎ (length b.buckets ≤ 1))

  pub shrink-Sound :
      (P : Entry → Type 0) (id : Text) (fuel : ℕ) (b b' : PendingBatch)
      → Sound P id b
      → shrink size max_bytes fuel b ≡ some b'
      → Sound P id b' × Fits b' × (b'.retained_from ≡ b.retained_from)
  shrink-Sound P id zero b b' v h = absurd (cc (sym (no_fuel b) ∙ h))
  shrink-Sound P id (suc fuel) b b' v h = elim (Option-cases (size b)) [
    | inl bad ↦ absurd (cc (shrink-none (suc fuel) b bad))
    | inr (n, e) ↦ elim (shrink-step fuel b n e) [
      | inl (small, sent) ↦
          subst (λ k. Sound P id k × Fits k × (k.retained_from ≡ b.retained_from))
            (some_eq (sym sent ∙ h)) (v, (n, e, small), refl)
      | inr (_, halved) ↦
          let (sound, fit, same) =
            shrink-Sound P id fuel (half b) b' (half-Sound P id b v) (sym halved ∙ h) in
          (sound, fit, same ∙ half-retained b)
    ]
  ]

  pub shrink-ends :
      (fuel : ℕ) (b : PendingBatch)
      → ((k : PendingBatch) → size k ≢ none)
      → length b.buckets < fuel
      → shrink size max_bytes fuel b ≢ none
  shrink-ends zero b encodes enough = absurd (omega arith)
  shrink-ends (suc fuel) b encodes enough = elim (Option-cases (size b)) [
    | inl bad ↦ absurd (encodes b bad)
    | inr (n, e) ↦ elim (shrink-step fuel b n e) [
      | inl (_, sent) ↦ λ h. absurd (cc (sym sent ∙ h))
      | inr (more, halved) ↦ λ h.
          shrink-ends fuel (half b) encodes (omega (arith, length-half b, more, enough))
            (sym halved ∙ h)
    ]
  ]
