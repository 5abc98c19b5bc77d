-- ===== src/Storage/Bounds.antt =====
-- agent/power_journal.go: what an enforcement leaves of the records and the segments.
use blox_os.Base.{
  ℕ, zero, suc, ◌+◌, ◌-◌, ◌≡◌, ◌≤◌, ◌<◌, ◌⊎◌, ◌∙◌, inl, inr, refl, sym, ap, subst, Bool, true,
  false, not, Option, List, [], ◌∷◌, ltb, All, arith, Bool-cases, length, drop, length-drop,
}
use blox_os.Base.Table.{select_where}
use blox_os.Power.Journal.{Entry, Segment, Journal, is_live, max_future_skew_ms}
use blox_os.Power.Pending.{select-All}
use blox_os.Storage.Enforce.{
  Limits, Answers, skip_before, total_bytes, Reconciled, reconcile_segments, trim, retained,
  enforce,
}

-- The live records at this time.
abbrev pub IsRetained : Limits → ℕ → Entry → Type 0
IsRetained l now r = is_live (now - l.retention_ms) (now + max_future_skew_ms) r ≡ true

module _ (P : Entry → Type 0) where
  skip_before-All : (n : ℕ) (rs : List Entry) → All P rs → All P (skip_before n rs)
  unfolding skip_before
  skip_before-All n [] h = tt
  skip_before-All n (r ∷ rs) h = elim (Bool-cases (ltb r.seq n)) [
    | inl low ↦ rw low (skip_before-All n rs h.1)
    | inr high ↦ rw high h
  ]

  drop-All : (n : ℕ) (rs : List Entry) → All P rs → All P (drop n rs)
  unfolding drop
  drop-All zero rs h = h
  drop-All (suc n) [] h = tt
  drop-All (suc n) (r ∷ rs) h = drop-All n rs h.1

  keep-All : (p : Entry → Bool) (rs : List Entry) → All P rs → All P (select_where p rs)
  unfolding select_where
  keep-All p [] h = tt
  keep-All p (r ∷ rs) h = elim (Bool-cases (p r)) [
    | inl good ↦ rw good (h.0, keep-All p rs h.1)
    | inr bad ↦ rw bad (keep-All p rs h.1)
  ]

  retained-All : (l : Limits) (now : ℕ) (rs : List Entry) → All P rs → All P (retained l now rs)
  unfolding retained
  retained-All l now rs h = drop-All _ _ (keep-All _ rs h)

length-skip : (n : ℕ) (rs : List Entry) → length (skip_before n rs) ≤ length rs
unfolding skip_before
length-skip n [] = omega arith
length-skip n (r ∷ rs) = ground (arith, length-skip n rs)

length-retained :
    (l : Limits) (now : ℕ) (rs : List Entry) → length (retained l now rs) ≤ l.max_records
unfolding retained
length-retained l now rs = omega (arith, length-drop (length live - l.max_records) live)
  where
    live : List Entry
    live = select_where (is_live (now - l.retention_ms) (now + max_future_skew_ms)) rs

retained-live :
    (l : Limits) (now : ℕ) (rs : List Entry) → All (IsRetained l now) (retained l now rs)
unfolding retained
retained-live l now rs = drop-All _ _ _ (select-All _ rs)

not-not : (b : Bool) → not (not b) ≡ b
not-not true = refl
not-not false = refl

not-true : (b : Bool) → not b ≡ true → b ≡ false
not-true true h = cc
not-true false h = refl

no_bytes : total_bytes [] ≡ 0
unfolding total_bytes
no_bytes = refl

module _ (w : Answers) (limit : ℕ) where
  -- One round of the loop over the oldest segments.
  trim-step :
      (s : Segment) (ss : List Segment) (rs : List Entry)
      → (let t = trim w limit (s ∷ ss) rs in
          ((total_bytes (s ∷ ss) ≤ limit) × (t.left ≡ (s ∷ ss)) × (t.records ≡ rs))
          ⊎ ((limit < total_bytes (s ∷ ss)) × (t.has_failed ≡ true) × (t.records ≡ rs))
          ⊎ ((limit < total_bytes (s ∷ ss))
              × (t.left ≡ (trim w limit ss (skip_before (s.last + 1) rs)).left)
              × (t.has_failed ≡ (trim w limit ss (skip_before (s.last + 1) rs)).has_failed)
              × (t.records ≡ (trim w limit ss (skip_before (s.last + 1) rs)).records)))
  unfolding trim
  trim-step s ss rs = ground arith

  trim_none :
      (rs : List Entry) → ((trim w limit [] rs).records ≡ rs) × ((trim w limit [] rs).left ≡ [])
  unfolding trim
  trim_none rs = (refl, refl)

  trim-All :
      (P : Entry → Type 0) (ss : List Segment) (rs : List Entry)
      → All P rs
      → All P (trim w limit ss rs).records
  trim-All P [] rs h = subst (All P) (sym (trim_none rs).0) h
  trim-All P (s ∷ ss) rs h = elim (trim-step s ss rs) [
    | inl (_, _, same) ↦ subst (All P) (sym same) h
    | inr (inl (_, _, same)) ↦ subst (All P) (sym same) h
    | inr (inr (_, _, _, same)) ↦
        subst (All P) (sym same) (trim-All P ss _ (skip_before-All P _ rs h))
  ]

  length-trim :
      (ss : List Segment) (rs : List Entry) → length (trim w limit ss rs).records ≤ length rs
  length-trim [] rs = omega (arith, ap length (trim_none rs).0)
  length-trim (s ∷ ss) rs = elim (trim-step s ss rs) [
    | inl (_, _, same) ↦ omega (arith, ap length same)
    | inr (inl (_, _, same)) ↦ omega (arith, ap length same)
    | inr (inr (_, _, _, same)) ↦ omega (
      arith,
      ap length same,
      length-trim ss (skip_before (s.last + 1) rs),
      length-skip (s.last + 1) rs,
    )
  ]

  trim-size :
      (ss : List Segment) (rs : List Entry)
      → (trim w limit ss rs).has_failed ≡ false
      → total_bytes (trim w limit ss rs).left ≤ limit
  trim-size [] rs h = omega (arith, ap total_bytes (trim_none rs).1, no_bytes)
  trim-size (s ∷ ss) rs h = elim (trim-step s ss rs) [
    | inl (fits, same, _) ↦ omega (arith, fits, ap total_bytes same)
    | inr (inl (_, failed, _)) ↦ absurd (cc (sym h ∙ failed))
    | inr (inr (_, same, failed, _)) ↦
        omega
          (arith, ap total_bytes same, trim-size ss (skip_before (s.last + 1) rs) (sym failed ∙ h))
  ]

  trim-whole :
      (ss : List Segment) (rs : List Entry)
      → total_bytes ss ≤ limit
      → (trim w limit ss rs).records ≡ rs
  trim-whole [] rs h = (trim_none rs).0
  trim-whole (s ∷ ss) rs h = elim (trim-step s ss rs) [
    | inl (_, _, same) ↦ same
    | inr (inl (large, _, same)) ↦ same
    | inr (inr (large, _, _, _)) ↦ absurd (omega (arith, large, h))
  ]

module _ (size : Entry → Option ℕ) (w : Answers) (l : Limits) (now : ℕ) (j : Journal) where
  kept_now : List Entry
  kept_now = retained l now j.entries

  swept : Reconciled
  unfolding kept_now
  swept = reconcile_segments size w false j.segs kept_now

  length-kept : length kept_now ≤ l.max_records
  unfolding kept_now
  length-kept = length-retained l now j.entries

  -- After the segments are reconciled, an error is recorded, or the oldest segments go.
  enforce-step :
      (let k = enforce size w l now j in
        ((swept.has_failed ≡ true)
          × (k.1 ≡ false)
          × (k.0.over_cap ≡ true)
          × (k.0.entries ≡ kept_now))
        ⊎ ((swept.has_failed ≡ false)
            × (k.1 ≡ not (trim w l.max_bytes swept.kept kept_now).has_failed)
            × (k.0.over_cap ≡ (trim w l.max_bytes swept.kept kept_now).has_failed)
            × (k.0.segs ≡ (trim w l.max_bytes swept.kept kept_now).left)
            × (k.0.entries ≡ (trim w l.max_bytes swept.kept kept_now).records)))
  unfolding enforce kept_now swept
  enforce-step =
      elim (Bool-cases
        (reconcile_segments size w false j.segs (retained l now j.entries)).has_failed) [
          | inl failed ↦ inl (failed, rw failed refl, rw failed refl, rw failed refl)
          | inr good ↦ inr (good, rw good refl, rw good refl, rw good refl, rw good refl)
        ]

  enforce-kept : (P : Entry → Type 0) → All P kept_now → All P (enforce size w l now j).0.entries
  enforce-kept P h = elim enforce-step [
    | inl (_, _, _, same) ↦ subst (All P) (sym same) h
    | inr (_, _, _, _, same) ↦
        subst (All P) (sym same) (trim-All w l.max_bytes P swept.kept kept_now h)
  ]

  -- What held of every record holds of those that stay.
  pub enforce-All :
      (P : Entry → Type 0) → All P j.entries → All P (enforce size w l now j).0.entries
  unfolding kept_now
  enforce-All P h = enforce-kept P (retained-All P l now j.entries h)

  enforce-length : length (enforce size w l now j).0.entries ≤ l.max_records
  enforce-length = elim enforce-step [
    | inl (_, _, _, same) ↦ omega (arith, ap length same, length-kept)
    | inr (_, _, _, _, same) ↦
        omega (arith, ap length same, length-trim w l.max_bytes swept.kept kept_now, length-kept)
  ]

  -- After an enforcement, failed or not, every record is within the retention window and not too far
  -- in the future, and there are at most as many as the limit. The journal is over its cap exactly
  -- when the enforcement failed; otherwise the segments are within the byte limit. If the
  -- reconciled segments were within it, the records are the newest live ones, up to the limit:
  -- none was dropped early.
  pub enforce_sound :
      All (IsRetained l now) (enforce size w l now j).0.entries
      × (length (enforce size w l now j).0.entries ≤ l.max_records)
      × ((enforce size w l now j).0.over_cap ≡ not (enforce size w l now j).1)
      × ((enforce size w l now j).1 ≡ true
          → total_bytes (enforce size w l now j).0.segs ≤ l.max_bytes)
      × (total_bytes (reconcile_segments size w false j.segs (retained l now j.entries)).kept
            ≤ l.max_bytes
          → (enforce size w l now j).0.entries ≡ retained l now j.entries)
  unfolding kept_now swept
  enforce_sound = (
    enforce-kept (IsRetained l now) (retained-live l now j.entries),
    enforce-length,
    elim enforce-step [
      | inl (_, bad, over, _) ↦ cc (bad, over)
      | inr (_, good, over, _, _) ↦ over ∙ sym (not-not _) ∙ ap not (sym good)
    ],
    λ h. elim enforce-step [
      | inl (_, bad, _, _) ↦ absurd (cc (sym h ∙ bad))
      | inr (_, good, _, same, _) ↦ omega (
        arith,
        ap total_bytes same,
        trim-size w l.max_bytes swept.kept kept_now (not-true _ (sym good ∙ h)),
      )
    ],
    λ h. elim enforce-step [
      | inl (_, _, _, same) ↦ same
      | inr (_, _, _, _, same) ↦ same ∙ trim-whole w l.max_bytes swept.kept kept_now h
    ],
  )
