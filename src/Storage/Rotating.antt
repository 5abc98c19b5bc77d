-- ===== src/Storage/Rotating.antt =====
-- agent/power_journal.go: rotations and openings keep what holds of the journal and the log.
use blox_os.Base.{
  ◌+◌, ◌≡◌, ◌≢◌, ◌≤◌, ◌⊎◌, ◌∙◌, inl, inr, sym, ap, subst, Bool, true, false, Option, none, some, [],
  All, arith,
}
use blox_os.Base.Text.{Text}
use blox_os.Power.Journal.{Journal}
use blox_os.Storage.Disk.{
  Saved, Disk, Rotation, put_state, put_identity, remove_orphans, rotate_to, rotate_fresh,
  rotate_stream, new_stream, nothing_saved,
}
use blox_os.Power.Ingest.{max_seq}
use blox_os.Storage.Append.{reserve_step}
use blox_os.Storage.Log.{Log, IsUnused, IsOther}
use blox_os.Storage.Good.{
  Covered, Good, put_state_cases, put_identity-Covered, remove_orphans-Covered, Good-files,
  new_stream-Good, nothing-Covered, closed-Good,
}

-- After an operation that may have failed.
abbrev pub Turned : Log → Journal × Disk × Bool → Type 0
Turned log t = Covered log t.1 × (t.2 ≡ true → Good log t.0 t.1)

module _ (r : Rotation) (id : Text) (log : Log) (j : Journal) (d : Disk) where
  written : Disk
  written = put_state r.state_file id nothing_saved d

  committed : Disk
  unfolding written
  committed = put_identity r.stream_file id written

  -- A rotation stops at the first write that fails.
  rotate_to_cases :
      (rotate_to r id j d ≡ (record j { is_open = false }, written, false))
      ⊎ (rotate_to r id j d ≡ (record j { is_open = false }, committed, false))
      ⊎ (rotate_to r id j d ≡ (new_stream id, remove_orphans r.gone id committed, true))
  unfolding rotate_to written committed
  rotate_to_cases = ground arith

  module _ (unused : All (λ p. p.0 ≢ id) log) (c : Covered log d) where
    written-Covered : Covered log written
    unfolding written
    written-Covered = nothing-Covered r.state_file id log d unused c

    committed-Covered : Covered log committed
    unfolding committed
    committed-Covered = put_identity-Covered r.stream_file id log written written-Covered

    rotated-Good : Good log (new_stream id) (remove_orphans r.gone id committed)
    rotated-Good =
        new_stream-Good id log _ unused
          (remove_orphans-Covered r.gone id log committed committed-Covered)

    module _ (other : j.stream ≢ id) (g : Good log j d) where
      unchanged : (s : Saved) → written.states j.stream ≡ some s → d.states j.stream ≡ some s
      unfolding written
      unchanged s h = elim (put_state_cases r.state_file id j.stream nothing_saved s d h) [
        | inl (same, _) ↦ absurd (other same)
        | inr old ↦ old
      ]

      written-Good : Good log j written
      written-Good = Good-files written-Covered (λ s h. g.stored s (unchanged s h)) g

      committed-Good : Good log j committed
      unfolding committed put_identity
      committed-Good = Good-files committed-Covered written-Good.stored written-Good

      pub rotate_to-Good : Good log (rotate_to r id j d).0 (rotate_to r id j d).1
      rotate_to-Good = elim rotate_to_cases [
        | inl e ↦ subst (λ t. Good log t.0 t.1) (sym e) (closed-Good written-Good)
        | inr (inl e) ↦ subst (λ t. Good log t.0 t.1) (sym e) (closed-Good committed-Good)
        | inr (inr e) ↦ subst (λ t. Good log t.0 t.1) (sym e) rotated-Good
      ]

    pub rotate_to-Turned : Turned log (rotate_to r id j d)
    rotate_to-Turned = elim rotate_to_cases [
      | inl e ↦ subst (Turned log) (sym e) (written-Covered, λ h. absurd (cc h))
      | inr (inl e) ↦ subst (Turned log) (sym e) (committed-Covered, λ h. absurd (cc h))
      | inr (inr e) ↦ subst (Turned log) (sym e) (rotated-Good.files, λ h. rotated-Good)
    ]

pub rotate_stream-Good :
    (r : Rotation) (log : Log) (j : Journal) (d : Disk)
    → IsUnused log r.fresh
    → IsOther j.stream r.fresh
    → Good log j d
    → Good log (rotate_stream r j d).0 (rotate_stream r j d).1
unfolding rotate_stream
rotate_stream-Good r log j d unused other g = rotate_with r.fresh unused other
  where
    rotate_with :
        (fresh : Option Text)
        → IsUnused log fresh
        → IsOther j.stream fresh
        → Good log (rotate_fresh r fresh j d).0 (rotate_fresh r fresh j d).1
    rotate_with none u o = g
    rotate_with (some id) u o = rotate_to-Good r id log j d u g.files o g

pub rotate_stream-Turned :
    (r : Rotation) (log : Log) (j : Journal) (d : Disk)
    → IsUnused log r.fresh
    → Covered log d
    → Turned log (rotate_stream r j d)
unfolding rotate_stream
rotate_stream-Turned r log j d unused c = rotate_with r.fresh unused
  where
    rotate_with : (fresh : Option Text) → IsUnused log fresh → Turned log (rotate_fresh r fresh j d)
    rotate_with none u = (c, λ h. absurd (cc h))
    rotate_with (some id) u = rotate_to-Turned r id log j d u c

-- What is read back of a state file.
pub record Restored (log : Log) (j : Journal) (d : Disk) : Type 0 where
  pub files : Covered log d
  pub granted : j.reserved ≤ max_seq + reserve_step
  pub acknowledged : j.cursor ≤ max_seq
  pub below : All (λ p. p.0 ≡ j.stream → p.1 ≤ j.reserved) log
  pub stored : (s : Saved) → d.states j.stream ≡ some s → j.reserved ≤ s.reserved

-- A rotation that succeeds starts at one.
pub rotated_next :
    (r : Rotation) (j : Journal) (d : Disk)
    → (rotate_stream r j d).2 ≡ true
    → (rotate_stream r j d).0.next ≡ 1
unfolding rotate_stream
rotated_next r j d = rotate_with r.fresh
  where
    rotate_with :
        (fresh : Option Text)
        → (rotate_fresh r fresh j d).2 ≡ true
        → (rotate_fresh r fresh j d).0.next ≡ 1
    rotate_with none h = absurd (cc h)
    rotate_with (some id) h = elim (rotate_to_cases r id [] j d) [
      | inl e ↦ absurd (cc (sym h ∙ ap (λ t. t.2) e))
      | inr (inl e) ↦ absurd (cc (sym h ∙ ap (λ t. t.2) e))
      | inr (inr e) ↦ ap (λ (t : Journal × Disk × Bool). t.0.next) e
    ]
