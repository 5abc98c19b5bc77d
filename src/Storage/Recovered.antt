-- ===== src/Storage/Recovered.antt =====
-- agent/power_journal.go: what the journal starts from after a crash, whatever the files hold.
use blox_os.Base.{
  ℕ, zero, suc, ◌≡◌, ◌≤◌, ◌<◌, ◌∙◌, inl, inr, refl, sym, ap, subst, some, List, [], ◌∷◌, All, arith,
  Bool-cases, Option-cases, some_eq, drop, ltb,
}
use blox_os.Base.Table.{select_where}
use blox_os.Power.Journal.{Entry, Segment}
use blox_os.Storage.Enforce.{Limits, total_bytes}
use blox_os.Storage.Recover.{
  File, Loaded, insert_file, sort_files, load_files, newest_files, recover_journal, has_records,
  drop_empty,
}
use blox_os.Storage.Reading.{AllLines, IsAscending, Behind, load_files-Behind}

module _ (Q : File → Type 0) where
  insert_file-All : (f : File) (gs : List File) → Q f → All Q gs → All Q (insert_file f gs)
  unfolding insert_file
  insert_file-All f [] q h = (q, tt)
  insert_file-All f (g ∷ gs) q h = elim (Bool-cases (ltb g.first f.first)) [
    | inl before ↦ rw before (h.0, insert_file-All f gs q h.1)
    | inr behind ↦ rw behind (q, h)
  ]

  sort_files-All : (fs : List File) → All Q fs → All Q (sort_files fs)
  unfolding sort_files
  sort_files-All [] h = tt
  sort_files-All (f ∷ fs) h = insert_file-All f (sort_files fs) h.0 (sort_files-All fs h.1)

  drop-All : (n : ℕ) (fs : List File) → All Q fs → All Q (drop n fs)
  unfolding drop
  drop-All zero fs h = h
  drop-All (suc n) [] h = tt
  drop-All (suc n) (f ∷ fs) h = drop-All n fs h.1

  newest_files-All : (l : Limits) (fs : List File) → All Q fs → All Q (newest_files l fs)
  unfolding newest_files
  newest_files-All l fs h = drop-All _ (sort_files fs) (sort_files-All fs h)

-- The segments that are left have records, and no more bytes than before.
select-size : (ss : List Segment) → total_bytes (select_where has_records ss) ≤ total_bytes ss
unfolding total_bytes select_where
select-size [] = omega arith
select-size (s ∷ ss) = ground (arith, select-size ss)

select-counts :
    (n : ℕ) (ss : List Segment)
    → All (λ (s : Segment). s.count ≤ n) ss
    → All (λ (s : Segment). (0 < s.count) × (s.count ≤ n)) (select_where has_records ss)
unfolding select_where
select-counts n [] h = tt
select-counts n (s ∷ ss) h = elim (Bool-cases (has_records s)) [
  | inl full ↦ rw full ((ground arith, h.0), select-counts n ss h.1)
  | inr bare ↦ rw bare (select-counts n ss h.1)
]

module _ (P : Entry → Type 0) (l : Limits) (fs : List File) (x : Loaded) where
  recover_journal-loads : recover_journal l fs ≡ drop_empty (load_files l 0 0 (newest_files l fs))
  unfolding recover_journal
  recover_journal-loads = refl

  recover_journal-parts :
      All (AllLines P) fs
      → recover_journal l fs ≡ some x
      → (y : Loaded) × Behind P l 0 0 y × (x ≡ record y { segs = select_where has_records y.segs })
  recover_journal-parts a h = elim (Option-cases (load_files l 0 0 (newest_files l fs))) [
    | inl bad ↦ absurd (cc (sym h ∙ recover_journal-loads ∙ ap drop_empty bad))
    | inr (y, e) ↦ (
      y,
      load_files-Behind P l 0 0 (newest_files l fs) y (omega arith)
          (newest_files-All (AllLines P) l fs a) e,
      some_eq (sym h ∙ recover_journal-loads ∙ ap drop_empty e),
    )
  ]

  -- Whatever the segment files hold, the records that the journal starts from are decoded from
  -- lines of them, so what holds of every decoded line holds of them; their sequences are
  -- strictly ascending; the segments that stay have at least one record each and at most the
  -- segment's limit, and no more bytes together than the journal's limit.
  pub recover_journal_sound :
      All (AllLines P) fs
      → recover_journal l fs ≡ some x
      → All P x.entries
        × IsAscending 0 x.entries
        × All (λ (s : Segment). (0 < s.count) × (s.count ≤ l.seg_records)) x.segs
        × (total_bytes x.segs ≤ l.max_bytes)
  recover_journal_sound a h =
      let (y, b, e) = recover_journal-parts a h in
      subst
        (λ (k : Loaded).
          All P k.entries
          × IsAscending 0 k.entries
          × All (λ (s : Segment). (0 < s.count) × (s.count ≤ l.seg_records)) k.segs
          × (total_bytes k.segs ≤ l.max_bytes))
        (sym e)
        (
          b.all,
          b.ascending,
          select-counts l.seg_records y.segs b.counts,
          omega (arith, select-size y.segs, b.size),
        )
