-- ===== src/Storage/Reading.antt =====
-- agent/power_journal.go: the records that are read back of the segment files.
use blox_os.Base.{
  ℕ, zero, suc, ◌+◌, ◌-◌, ◌≡◌, ◌≤◌, ◌<◌, ◌⊎◌, ◌∙◌, inl, inr, refl, sym, subst, Bool, false, Option,
  none, some, List, [], ◌∷◌, ◌++◌, All, All-append, arith, Bool-cases, Option-cases, some_eq,
  length,
}
use blox_os.Power.Journal.{Entry, Segment}
use blox_os.Storage.Enforce.{Limits, last_seq, total_bytes}
use blox_os.Storage.Recover.{
  Line, File, Contents, Loaded, refuses, stopped, read_more, read_lines, read_segment, load_more,
  load_files,
}

-- Every entry that the option holds.
abbrev pub Holds : (Entry → Type 0) → Option Entry → Type 0
Holds P none = Unit
Holds P (some e) = P e

abbrev pub AllLines : (Entry → Type 0) → File → Type 0
AllLines P f = All (λ (x : Line). Holds P x.decoded) f.lines

-- Strictly ascending sequences above `n`.
abbrev pub IsAscending : ℕ → List Entry → Type 0
IsAscending n [] = Unit
IsAscending n (e ∷ es) = (n < e.seq) × IsAscending e.seq es

-- What holds of the contents that are read behind sequence `last`, within `room` and `budget`.
pub record Read (P : Entry → Type 0) (room budget last : ℕ) (c : Contents) : Type 0 where
  pub all : All P c.entries
  pub ascending : IsAscending last c.entries
  pub count : length c.entries ≤ room
  pub size : c.good ≤ budget

stopped-Read :
    (P : Entry → Type 0) (room budget last : ℕ) (b : Bool) → Read P room budget last (stopped b)
stopped-Read P room budget last b = record {
  all = tt;
  ascending = tt;
  count = omega arith;
  size = omega arith;
}

module _ (P : Entry → Type 0) (l : Limits) where
  -- One round of the loop: it stops, or takes the line.
  read_lines-step :
      (room budget last tail : ℕ) (x : Line) (ls : List Line)
      → ((b : Bool) × (read_lines l (suc room) budget last (x ∷ ls) tail ≡ stopped b))
        ⊎ ((e : Entry) × (x.decoded ≡ some e)
            × (last < e.seq)
            × (x.size ≤ budget)
            × (read_lines l (suc room) budget last (x ∷ ls) tail
                ≡ read_more x.size e (read_lines l room (budget - x.size) e.seq ls tail)))
  unfolding read_lines
  read_lines-step room budget last tail x ls = elim (Option-cases x.decoded) [
    | inl bad ↦ inl (false, ground arith)
    | inr (e, good) ↦ elim (Bool-cases (refuses l budget last x)) [
      | inl refused ↦ inl (false, rw refused refl)
      | inr taken ↦ inr (e, good, ground arith, ground arith, rw taken (rw good refl))
    ]
  ]

  read_lines-Read :
      (room budget last tail : ℕ) (ls : List Line)
      → All (λ (x : Line). Holds P x.decoded) ls
      → Read P room budget last (read_lines l room budget last ls tail)
  unfolding read_lines
  read_lines-Read zero budget last tail ls h = stopped-Read P zero budget last _
  read_lines-Read (suc room) budget last tail [] h = stopped-Read P (suc room) budget last _
  read_lines-Read (suc room) budget last tail (x ∷ ls) h =
      elim (read_lines-step room budget last tail x ls) [
        | inl (b, e) ↦
            subst (Read P (suc room) budget last) (sym e) (stopped-Read P (suc room) budget last b)
        | inr (e, good, later, fits, same) ↦
            let rest = read_lines-Read room (budget - x.size) e.seq tail ls h.1 in
            subst (Read P (suc room) budget last) (sym same) (record {
              all = (subst (Holds P) good h.0, rest.all);
              ascending = (later, rest.ascending);
              count = omega (arith, rest.count);
              size = omega (arith, rest.size, fits);
            })
      ]

  read_segment-Read :
      (last budget : ℕ) (f : File)
      → AllLines P f
      → Read P l.seg_records budget last (read_segment l last budget f)
  unfolding read_segment
  read_segment-Read last budget f h = elim (Bool-cases f.can_read) [
    | inl good ↦ rw good (read_lines-Read l.seg_records budget last f.tail f.lines h)
    | inr bad ↦ rw bad (stopped-Read P l.seg_records budget last false)
  ]

IsAscending-append :
    (n : ℕ) (xs ys : List Entry)
    → IsAscending n xs
    → IsAscending (last_seq n xs) ys
    → IsAscending n (xs ++ ys)
unfolding last_seq
IsAscending-append n [] ys hx hy = hy
IsAscending-append n (x ∷ xs) ys hx hy = (hx.0, IsAscending-append x.seq xs ys hx.1 hy)

-- The files that were read behind sequence `last`, when `total` bytes were read before.
pub record Behind (P : Entry → Type 0) (l : Limits) (last total : ℕ) (x : Loaded) : Type 0 where
  pub all : All P x.entries
  pub ascending : IsAscending last x.entries
  pub size : total + total_bytes x.segs ≤ l.max_bytes
  pub counts : All (λ (s : Segment). s.count ≤ l.seg_records) x.segs

no_files : Loaded
no_files = record { segs = []; entries = [] }

module _ (P : Entry → Type 0) (l : Limits) where
  no_files-Behind : (last total : ℕ) → total ≤ l.max_bytes → Behind P l last total no_files
  unfolding no_files total_bytes
  no_files-Behind last total h = record {
    all = tt;
    ascending = tt;
    size = omega arith;
    counts = tt;
  }

  load_more-Behind :
      (last total : ℕ) (f : File) (c : Contents) (rest : Option Loaded) (x : Loaded)
      → total ≤ l.max_bytes
      → Read P l.seg_records (l.max_bytes - total) last c
      → ((y : Loaded) → rest ≡ some y → Behind P l (last_seq last c.entries) (total + c.good) y)
      → load_more f c rest ≡ some x
      → Behind P l last total x
  unfolding total_bytes
  load_more-Behind last total f c none x fits r later h = absurd (cc h)
  load_more-Behind last total f c (some y) x fits r later h =
      subst (Behind P l last total) (some_eq h) (
        let b = later y refl in
        record {
          all = All-append P c.entries y.entries r.all b.all;
          ascending = IsAscending-append last c.entries y.entries r.ascending b.ascending;
          size = omega (arith, b.size);
          counts = (r.count, b.counts);
        })

  -- One file: the rest is read only if it is clean, and it fails if it cannot be truncated.
  load_files-step :
      (last total : ℕ) (f : File) (fs : List File)
      → (let c = read_segment l last (l.max_bytes - total) f in
          (load_files l last total (f ∷ fs)
            ≡ load_more f c (load_files l (last_seq last c.entries) (total + c.good) fs))
          ⊎ (load_files l last total (f ∷ fs) ≡ load_more f c (some no_files))
          ⊎ (load_files l last total (f ∷ fs) ≡ none))
  unfolding load_files no_files
  load_files-step last total f fs = ground arith

  load_none : (last total : ℕ) → load_files l last total [] ≡ some no_files
  unfolding load_files no_files
  load_none last total = refl

  pub load_files-Behind :
      (last total : ℕ) (fs : List File) (x : Loaded)
      → total ≤ l.max_bytes
      → All (AllLines P) fs
      → load_files l last total fs ≡ some x
      → Behind P l last total x
  load_files-Behind last total [] x fits a h =
      subst (Behind P l last total) (some_eq (sym (load_none last total) ∙ h))
        (no_files-Behind last total fits)
  load_files-Behind last total (f ∷ fs) x fits a h =
      let c = read_segment l last (l.max_bytes - total) f in
      let r = read_segment-Read P l last (l.max_bytes - total) f a.0 in
      elim (load_files-step last total f fs) [
        | inl e ↦
            load_more-Behind last total f c _ x fits r
              (λ y.
                load_files-Behind (last_seq last c.entries) (total + c.good) fs y
                  (omega (arith, r.size, fits)) a.1)
              (sym e ∙ h)
        | inr (inl e) ↦
            load_more-Behind last total f c (some no_files) x fits r
              (λ y ey.
                subst (Behind P l _ _) (some_eq ey)
                  (no_files-Behind _ _ (omega (arith, r.size, fits))))
              (sym e ∙ h)
        | inr (inr e) ↦ absurd (cc (sym e ∙ h))
      ]
