-- ===== src/Storage/Reopened.antt =====
-- agent/power_journal.go: the journal that is opened goes on above what was given out before.
use blox_os.Base.{
  ℕ, ◌+◌, ◌≡◌, ◌≤◌, ◌<◌, ◌∙◌, inl, inr, refl, sym, ap, subst, Bool, true, false, Option, none, some,
  List, [], ◌∷◌, leb, All, arith, Bool-cases, some_eq,
}
use blox_os.Base.Text.{Text}
use blox_os.Power.Journal.{Entry, Segment, Journal}
use blox_os.Storage.Disk.{
  Saved, Disk, Rotation, load_identity, load_state, load_stream, remove_orphans, new_stream,
}
use blox_os.Storage.Enforce.{Limits, enforce, last_seq}
use blox_os.Storage.Recover.{File, recover_journal}
use blox_os.Storage.Recover
use blox_os.Power.Ingest.{max_seq}
use blox_os.Storage.Append.{
  reserve_step, Opening, next_after, open_enforced, open_recovered, open_loaded, open_journal,
  opened_if, then_open,
}
use blox_os.Storage.Log.{Log, IsUnused, HasSmall, max_sequence}
use blox_os.Storage.Good.{Covered, Good, All-map, remove_orphans-Covered, remove_orphans-some}
use blox_os.Storage.Rotating.{Turned, Restored, rotate_stream-Turned}
use blox_os.Storage.Assigning.{Same, Same-Good, enforce-Same}
use blox_os.Storage.Recovered.{recover_journal_sound}

last_seq-All :
    (m n : ℕ) (es : List Entry) → n ≤ m → All (λ (e : Entry). e.seq ≤ m) es → last_seq n es ≤ m
unfolding last_seq
last_seq-All m n [] low h = low
last_seq-All m n (e ∷ es) low h = last_seq-All m e.seq es h.0 h.1

next_after-above :
    (j : Journal) (es : List Entry)
    → j.cursor ≤ max_seq
    → j.reserved ≤ max_seq + reserve_step
    → All (λ (e : Entry). e.seq ≤ max_sequence) es
    → j.reserved < next_after j es
unfolding next_after
next_after-above j es low high h =
    omega (arith, low, high, last_seq-All max_sequence 0 es (omega arith) h)

Good-Restored : {log : Log} {j : Journal} {d : Disk} → Good log j d → Restored log j d
Good-Restored {log} g = record {
  files = g.files;
  granted = g.granted;
  acknowledged = g.acknowledged;
  below = All-map log (λ p f e. (f e).1) g.ahead;
  stored = g.stored;
}

-- The identity and its state are read, or a new stream is begun.
abbrev IsRead : Log → Journal × Disk × Bool → Type 0
IsRead log t = Covered log t.1 × (t.2 ≡ true → Restored log t.0 t.1)

Turned-IsRead : (log : Log) (t : Journal × Disk × Bool) → Turned log t → IsRead log t
Turned-IsRead log t (c, f) = (c, λ h. Good-Restored (f h))

load_identity-IsRead :
    (r : Rotation) (log : Log) (d : Disk)
    → IsUnused log r.fresh
    → Covered log d
    → IsRead log (load_identity r d)
unfolding load_identity
load_identity-IsRead r log d unused c = read_stream d.identity
  where
    read_state : (id : Text) (s : Option Saved) → d.states id ≡ s → IsRead log (load_state r id s d)
    read_state id none h =
        Turned-IsRead log _ (rotate_stream-Turned r log (new_stream id) d unused c)
    read_state id (some s) h = (
      c,
      λ e. record {
        files = c;
        granted = (c.bounded id s h).1;
        acknowledged = (c.bounded id s h).0;
        below = c.covers id s h;
        stored = λ v hv. omega (arith, ap (λ (x : Saved). x.reserved) (some_eq (sym h ∙ hv)));
      },
    )

    read_stream : (id : Option Text) → IsRead log (load_stream r id d)
    read_stream none = Turned-IsRead log _ (rotate_stream-Turned r log (new_stream []) d unused c)
    read_stream (some id) = read_state id (d.states id) refl

-- After an opening that may have failed.
pub record Opened (log : Log) (o : Option Journal × Disk) : Type 0 where
  pub files : Covered log o.1
  pub good : (j : Journal) → o.0 ≡ some j → Good log j o.1

none-Opened : (log : Log) (d : Disk) → Covered log d → Opened log (none, d)
none-Opened log d c = record { files = c; good = λ j h. absurd (cc h) }

then_open-Opened :
    (log : Log) (t : Journal × Disk × Bool) (go : Journal → Disk → Option Journal × Disk)
    → Covered log t.1
    → (t.2 ≡ true → Opened log (go t.0 t.1))
    → Opened log (then_open t go)
then_open-Opened log (j, d, true) go c f = f refl
then_open-Opened log (j, d, false) go c f = none-Opened log d c

module _ (size : Entry → Option ℕ) (l : Limits) (now : ℕ) (w : Opening) (log : Log) where
  open_enforced-Opened :
      (j : Journal) (d : Disk) → Good log j d → Opened log (open_enforced size l now w j d)
  unfolding open_enforced
  open_enforced-Opened j d g =
      opened_after (enforce size w.swept l now j) (enforce-Same size w.swept l now j)
    where
      opened_after : (t : Journal × Bool) → Same j t.0 → Opened log (opened_if t d)
      opened_after (k, true) s = record {
        files = g.files;
        good = λ m h. subst (λ x. Good log x d) (some_eq h) (Same-Good s g);
      }
      opened_after (k, false) s = none-Opened log d g.files

  -- The journal goes on above its reservation.
  continue-Good :
      (j : Journal) (d : Disk) (es : List Entry) (ss : List Segment)
      → All (λ (e : Entry). e.seq ≤ max_sequence) es
      → next_after j es < max_seq
      → Restored log j d
      → Good log (record j { entries = es; segs = ss; next = next_after j es }) d
  continue-Good j d es ss small low v = record {
    files = v.files;
    limit = omega (arith, low);
    granted = v.granted;
    acknowledged = v.acknowledged;
    ahead =
        All-map log
          (λ p f e. (omega (arith, f e, next_after-above j es v.acknowledged v.granted small), f e))
          v.below;
    stored = v.stored;
  }

  cleaned-Restored :
      (j : Journal) (d : Disk)
      → Restored log j d
      → Restored log j (remove_orphans w.gone j.stream d)
  cleaned-Restored j d v = record {
    files = remove_orphans-Covered w.gone j.stream log d v.files;
    granted = v.granted;
    acknowledged = v.acknowledged;
    below = v.below;
    stored = λ s h. v.stored s (remove_orphans-some w.gone j.stream j.stream s d h);
  }

  open_recovered-Opened :
      (j : Journal) (d : Disk) (x : Option Recover.Loaded)
      → IsUnused log w.exhausted.fresh
      → ((y : Recover.Loaded) → x ≡ some y → All (λ (e : Entry). e.seq ≤ max_sequence) y.entries)
      → Restored log j d
      → Opened log (open_recovered size l now w x j d)
  open_recovered-Opened j d none unused small v = none-Opened log d v.files
  open_recovered-Opened j d (some y) unused small v =
      let c = cleaned-Restored j d v in
      elim (Bool-cases (leb max_seq (next_after j y.entries))) [
        | inl used_up ↦ rw used_up (
            let t = rotate_stream-Turned w.exhausted log _ _ unused c.files in
            then_open-Opened log _ _ t.0 (λ h. open_enforced-Opened _ _ (t.1 h)))
        | inr left ↦ rw left (
            open_enforced-Opened _ _
              (continue-Good j _ y.entries y.segs (small y refl) (ground arith) c))
      ]

  open_loaded-Opened :
      (j : Journal) (d : Disk)
      → IsUnused log w.exhausted.fresh
      → All HasSmall w.files
      → Restored log j d
      → Opened log (open_loaded size l now w j d)
  unfolding open_loaded
  open_loaded-Opened j d unused small v =
      open_recovered-Opened j d (recover_journal l w.files) unused
        (λ y h. (recover_journal_sound (λ e. e.seq ≤ max_sequence) l w.files y small h).0) v

  pub open_journal-Opened :
      (d : Disk)
      → IsUnused log w.identity.fresh
      → IsUnused log w.exhausted.fresh
      → All HasSmall w.files
      → Covered log d
      → Opened log (open_journal size l now w d)
  unfolding open_journal
  open_journal-Opened d unused spare small c =
      let t = load_identity-IsRead w.identity log d unused c in
      then_open-Opened log _ _ t.0 (λ h. open_loaded-Opened _ _ spare small (t.1 h))
