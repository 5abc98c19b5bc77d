-- ===== src/Release/Ahead.antt =====
-- agent/release_floor.go: the floor on disk only moves forward, whatever fails on the way.
use blox_os.Base.{
  ◌<◌, ◌≡◌, ◌≢◌, ◌⊎◌, refl, true, false, Option, none, some, arith, Bool-cases, Option-cases, inl,
  inr, ◌==◌,
}
use blox_os.Base.Text.{Text, lower, lower_idem, equal_fold_iff}
use blox_os.Base.Result.{Result, ok, err}
use blox_os.Release.Floor.{ReleaseFloor, Refusal, permits, covers}
use blox_os.Release.File.{format_release_floor}
use blox_os.Release.RoundTrip.{parse-format}
use blox_os.Release.Store.{
  File, present, Fault, fsync_directory, Error, read_release_floor, replace, is_writable,
  write_release_floor, seeded, reconcile, seed_stored, seed_release_floor, raise_permitted,
  raise_stored, raise_release_floor,
}

-- A later release, or the same release of the same build.
abbrev pub Ahead : ReleaseFloor → ReleaseFloor → Type 0
Ahead f f' = (f.release < f'.release) ⊎ ((f.release ≡ f'.release) × (lower f.sha ≡ lower f'.sha))

pub Ahead-trans : (a b c : ReleaseFloor) → Ahead a b → Ahead b c → Ahead a c
Ahead-trans a b c h k = ground arith

-- What the file says once a floor has been written.
abbrev pub recorded : ReleaseFloor → ReleaseFloor
recorded f = record { release = f.release; sha = lower f.sha }

pub permits-none :
    (f candidate : ReleaseFloor) → permits f candidate ≡ none → Ahead f (recorded candidate)
unfolding permits
permits-none f candidate h =
    ground (arith, equal_fold_iff candidate.sha f.sha, lower_idem candidate.sha)

pub covers-none :
    (f running : ReleaseFloor) → covers f running ≡ none → Ahead running f × (running.release ≢ 0)
unfolding covers
covers-none f running h = ground (arith, equal_fold_iff f.sha running.sha)

covers-some :
    (f running : ReleaseFloor) (why : Refusal)
    → covers f running ≡ some why
    → running.release ≢ 0
    → (f.release == running.release) ≡ false
    → f.release < running.release
unfolding covers
covers-some f running why h numbered other = ground arith

pub read-written :
    (f : ReleaseFloor)
    → is_writable f ≡ true
    → read_release_floor (present (format_release_floor f)) ≡ ok (recorded f)
unfolding read_release_floor is_writable
read-written f h = rw (parse-format f (ground arith) (ground arith) (ground arith))

-- The file afterwards is the one before, or the new text.
pub replace-file :
    (fault : Option Fault) (body : Text) (file : File)
    → ((replace fault body file).0 ≡ file) ⊎ ((replace fault body file).0 ≡ present body)
unfolding replace
replace-file none body file = inr refl
replace-file (some fsync_directory) body file = inr refl
replace-file (some _) body file = inl refl

-- The file still reads, as a floor ahead of `f`.
abbrev pub ReadsAhead : ReleaseFloor → File → Type 0
ReadsAhead f file = (f' : ReleaseFloor) × (read_release_floor file ≡ ok f') × Ahead f f'

unchanged : (f : ReleaseFloor) (file : File) → read_release_floor file ≡ ok f → ReadsAhead f file
unchanged f file e = (f, e, inr (refl, refl))

pub write-ReadsAhead :
    (fault : Option Fault) (f c : ReleaseFloor) (file : File)
    → read_release_floor file ≡ ok f
    → Ahead f (recorded c)
    → ReadsAhead f (write_release_floor fault c file).0
unfolding write_release_floor
write-ReadsAhead fault f c file e h = elim (Bool-cases (is_writable c)) [
  | inr invalid ↦ rw invalid (unchanged f file e)
  | inl valid ↦ rw valid (elim (replace-file fault (format_release_floor c) file) [
    | inl old ↦ rw old (unchanged f file e)
    | inr new ↦ rw new (recorded c, read-written c valid, h)
  ])
]

pub raise-ReadsAhead :
    (fault : Option Fault) (candidate f : ReleaseFloor) (file : File)
    → read_release_floor file ≡ ok f
    → ReadsAhead f (raise_release_floor fault candidate file).0
unfolding raise_release_floor raise_stored raise_permitted
raise-ReadsAhead fault candidate f file e =
    rw (e, raise_stored)
      (elim (Option-cases (permits f candidate)) [
        | inl allowed ↦
            rw (allowed, raise_permitted)
              (write-ReadsAhead fault f candidate file e (permits-none f candidate allowed))
        | inr (why, denied) ↦ rw (denied, raise_permitted) (unchanged f file e)
      ])

pub seeded-file :
    (self : ReleaseFloor) (r : File × Result Error (Unit {0})) → (seeded self r).0 ≡ r.0
unfolding seeded
seeded-file self (file, ok _) = refl
seeded-file self (file, err e) = refl

reconcile-ReadsAhead :
    (fault : Option Fault) (self f : ReleaseFloor) (cover : Option Refusal) (file : File)
    → covers f self ≡ cover
    → self.release ≢ 0
    → read_release_floor file ≡ ok f
    → ReadsAhead f (reconcile fault self f cover file).0
unfolding reconcile
reconcile-ReadsAhead fault self f none file c numbered e = unchanged f file e
reconcile-ReadsAhead fault self f (some why) file c numbered e =
    elim (Bool-cases (f.release == self.release)) [
      | inl equal ↦ rw equal (unchanged f file e)
      | inr other ↦
          rw (other, seeded-file)
            (write-ReadsAhead fault f self file e (inl (covers-some f self why c numbered other)))
    ]

pub seed-ReadsAhead :
    (fault : Option Fault) (self f : ReleaseFloor) (file : File)
    → read_release_floor file ≡ ok f
    → ReadsAhead f (seed_release_floor fault self file).0
unfolding seed_release_floor
seed-ReadsAhead fault self f file e = elim (Bool-cases (self.release == 0)) [
  | inl nothing ↦ rw nothing (unchanged f file e)
  | inr numbered ↦
      rw (numbered, e)
        (unfold seed_stored in
          reconcile-ReadsAhead fault self f (covers f self) file refl (ground arith) e)
]

-- Every write of the agent to the floor file: at boot, by the running binary `self`, and on the
-- update path, for a candidate; each may fail at any point.
pub data Step (file : File) : File → Type 0 where
  seeding :
      (fault : Option Fault) (self : ReleaseFloor)
      → Step file (seed_release_floor fault self file).0
  raising :
      (fault : Option Fault) (candidate : ReleaseFloor)
      → Step file (raise_release_floor fault candidate file).0

pub data Reach (file : File) : File → Type 0 where
  here : Reach file file
  next : {a b : File} → Reach file a → Step a b → Reach file b

-- From a floor file that can be read, after any boots and raises in any order, of any binaries and
-- candidates, with any write failing at any point, the file can still be read, and its floor is a
-- later release or the same release of the same build: nothing on these paths lowers the floor,
-- corrupts it, or pins the same release to other bytes.
pub floor_never_falls :
    (f : ReleaseFloor) {file file' : File}
    → read_release_floor file ≡ ok f
    → Reach file file'
    → ReadsAhead f file'
floor_never_falls f {file} e here = unchanged f file e
floor_never_falls f e (next r s) = onwards (floor_never_falls f e r) s
  where
    onwards : {a b : File} → ReadsAhead f a → Step a b → ReadsAhead f b
    onwards {a} (f1, e1, h1) (seeding fault self) =
        let (f2, e2, h2) = seed-ReadsAhead fault self f1 a e1 in (f2, e2, Ahead-trans f f1 f2 h1 h2)
    onwards {a} (f1, e1, h1) (raising fault candidate) =
        let (f2, e2, h2) = raise-ReadsAhead fault candidate f1 a e1 in
        (f2, e2, Ahead-trans f f1 f2 h1 h2)
