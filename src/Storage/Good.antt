-- ===== src/Storage/Good.antt =====
-- agent/power_journal.go: what holds of the journal, its state files and the log, and that the writes
-- of the state files keep it.
use blox_os.Base.{
  ℕ, ◌+◌, ◌≡◌, ◌≢◌, ◌≤◌, ◌<◌, ◌⊎◌, ◌∙◌, inl, inr, refl, sym, ap, subst, Bool, false, some, List, [],
  ◌∷◌, All, arith, some_eq,
}
use blox_os.Base.Text.{Text, text_eq_iff}
use blox_os.Power.Journal.{Journal}
use blox_os.Storage.Disk.{
  Outcome, done, failed, unsure, Saved, Disk, put_state, put_identity, remove_orphans, write_state,
  new_stream, nothing_saved,
}
use blox_os.Power.Ingest.{max_seq}
use blox_os.Storage.Append.{reserve_step}
use blox_os.Storage.Log.{Log}

-- The state files: their numbers are bounded, and cover what was given out under their stream.
pub record Covered (log : Log) (d : Disk) : Type 0 where
  pub bounded :
      (id : Text) (s : Saved)
      → d.states id ≡ some s
      → (s.acked ≤ max_seq) × (s.reserved ≤ max_seq + reserve_step)
  pub covers :
      (id : Text) (s : Saved) → d.states id ≡ some s → All (λ p. p.0 ≡ id → p.1 ≤ s.reserved) log

-- The running journal: it goes on above what was given out under its stream, and its reservation is
-- not above the stored one.
pub record Good (log : Log) (j : Journal) (d : Disk) : Type 0 where
  pub files : Covered log d
  pub limit : j.next ≤ max_seq
  pub granted : j.reserved ≤ max_seq + reserve_step
  pub acknowledged : j.cursor ≤ max_seq
  pub ahead : All (λ p. p.0 ≡ j.stream → (p.1 < j.next) × (p.1 ≤ j.reserved)) log
  pub stored : (s : Saved) → d.states j.stream ≡ some s → j.reserved ≤ s.reserved

pub All-map {ℓ κ ι} :
    {A : Type ℓ} {P : A → Type κ} {Q : A → Type ι} (xs : List A)
    → ((x : A) → P x → Q x)
    → All P xs
    → All Q xs
All-map [] f h = tt
All-map (x ∷ xs) f h = (f x h.0, All-map xs f h.1)

-- The state of a stream after a write: the new one under its id, or unchanged.
put_state_at :
    (o : Outcome) (id k : Text) (v : Saved) (d : Disk)
    → ((k ≡ id) × ((put_state o id v d).states k ≡ some v))
      ⊎ ((put_state o id v d).states k ≡ d.states k)
unfolding put_state
put_state_at o id k v d = ground (arith, text_eq_iff k id)

pub put_state_cases :
    (o : Outcome) (id k : Text) (v s : Saved) (d : Disk)
    → (put_state o id v d).states k ≡ some s
    → ((k ≡ id) × (v ≡ s)) ⊎ (d.states k ≡ some s)
put_state_cases o id k v s d h = elim (put_state_at o id k v d) [
  | inl (same, new) ↦ inl (same, some_eq (sym new ∙ h))
  | inr old ↦ inr (sym old ∙ h)
]

pub put_state-Covered :
    (o : Outcome) (id : Text) (v : Saved) (log : Log) (d : Disk)
    → (v.acked ≤ max_seq) × (v.reserved ≤ max_seq + reserve_step)
    → All (λ p. p.0 ≡ id → p.1 ≤ v.reserved) log
    → Covered log d
    → Covered log (put_state o id v d)
put_state-Covered o id v log d small above c = record {
  bounded = λ k s h. elim (put_state_cases o id k v s d h) [
    | inl (_, e) ↦ subst (λ x. (x.acked ≤ max_seq) × (x.reserved ≤ max_seq + reserve_step)) e small
    | inr old ↦ c.bounded k s old
  ];
  covers = λ k s h. elim (put_state_cases o id k v s d h) [
    | inl (same, e) ↦ All-map log (λ p f q. subst (λ x. p.1 ≤ x.reserved) e (f (q ∙ same))) above
    | inr old ↦ c.covers k s old
  ];
}

pub put_identity-Covered :
    (o : Outcome) (id : Text) (log : Log) (d : Disk)
    → Covered log d
    → Covered log (put_identity o id d)
unfolding put_identity
put_identity-Covered o id log d c = record { bounded = c.bounded; covers = c.covers }

-- Removing state files leaves the others.
pub remove_orphans-some :
    (gone : Text → Bool) (id k : Text) (s : Saved) (d : Disk)
    → (remove_orphans gone id d).states k ≡ some s
    → d.states k ≡ some s
unfolding remove_orphans
remove_orphans-some gone id k s d h = ground arith

pub remove_orphans-Covered :
    (gone : Text → Bool) (id : Text) (log : Log) (d : Disk)
    → Covered log d
    → Covered log (remove_orphans gone id d)
remove_orphans-Covered gone id log d c = record {
  bounded = λ k s h. c.bounded k s (remove_orphans-some gone id k s d h);
  covers = λ k s h. c.covers k s (remove_orphans-some gone id k s d h);
}

-- The files may change as long as they cover the log and the journal's stream keeps its reservation.
pub Good-files :
    {log : Log} {j : Journal} {d d' : Disk}
    → Covered log d'
    → ((s : Saved) → d'.states j.stream ≡ some s → j.reserved ≤ s.reserved)
    → Good log j d
    → Good log j d'
Good-files c stored g = record {
  files = c;
  limit = g.limit;
  granted = g.granted;
  acknowledged = g.acknowledged;
  ahead = g.ahead;
  stored = stored;
}

-- A write that succeeds is read back.
states-put_state : (id : Text) (v : Saved) (d : Disk) → (put_state done id v d).states id ≡ some v
unfolding put_state
states-put_state id v d = ground (arith, text_eq_iff id id)

module _ (acked reserved : ℕ) (log : Log) (j : Journal) (d : Disk) (small : acked ≤ max_seq)
    (bounded : reserved ≤ max_seq + reserve_step) (grows : j.reserved ≤ reserved)
    (g : Good log j d) where
  written : Saved
  written = record { acked = acked; reserved = reserved }

  written_reserved : written.reserved ≡ reserved
  unfolding written
  written_reserved = refl

  written-Covered : (o : Outcome) → Covered log (put_state o j.stream written d)
  unfolding written
  written-Covered o =
      put_state-Covered o j.stream written log d (small, bounded)
        (All-map log (λ p f e. omega (arith, (f e).1, grows)) g.ahead) g.files

  kept : (o : Outcome) → Good log j (put_state o j.stream written d)
  kept o =
      Good-files (written-Covered o)
        (λ s h. elim (put_state_cases o j.stream j.stream written s d h) [
          | inl (_, e) ↦ omega (arith, grows, written_reserved, ap (λ (x : Saved). x.reserved) e)
          | inr old ↦ g.stored s old
        ])
        g

  -- A write of the journal's own state file, with a cursor and a reservation that are not too small.
  pub write_state-Good :
      (o : Outcome)
      → Good log (write_state o acked reserved j d).0 (write_state o acked reserved j d).1
  unfolding write_state written
  write_state-Good failed = kept failed
  write_state-Good unsure = kept unsure
  write_state-Good done = record {
    files = written-Covered done;
    limit = g.limit;
    granted = bounded;
    acknowledged = small;
    ahead = All-map log (λ p f e. (omega (arith, (f e).0), omega (arith, (f e).1, grows))) g.ahead;
    stored = λ s h. omega (
      arith,
      ap (λ (x : Saved). x.reserved) (some_eq (sym (states-put_state j.stream written d) ∙ h)),
    );
  }

pub new_stream-Good :
    (id : Text) (log : Log) (d : Disk)
    → All (λ p. p.0 ≢ id) log
    → Covered log d
    → Good log (new_stream id) d
new_stream-Good id log d unused c = record {
  files = c;
  limit = omega arith;
  granted = omega arith;
  acknowledged = omega arith;
  ahead = All-map log (λ p ne e. absurd (ne e)) unused;
  stored = λ s h. omega arith;
}

pub nothing-Covered :
    (o : Outcome) (id : Text) (log : Log) (d : Disk)
    → All (λ p. p.0 ≢ id) log
    → Covered log d
    → Covered log (put_state o id nothing_saved d)
nothing-Covered o id log d unused c =
    put_state-Covered o id nothing_saved log d (omega arith, omega arith)
      (All-map log (λ p ne e. absurd (ne e)) unused) c

pub closed-Good :
    {log : Log} {j : Journal} {d : Disk} → Good log j d → Good log (record j { is_open = false }) d
closed-Good g = record {
  files = g.files;
  limit = g.limit;
  granted = g.granted;
  acknowledged = g.acknowledged;
  ahead = g.ahead;
  stored = g.stored;
}
