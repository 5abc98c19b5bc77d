-- ===== src/Release/BootLaws.antt =====
-- agent/release_floor.go: what boot establishes and what the update path can rely on.
use blox_os.Base.{
  ℕ, ◌≡◌, ◌≢◌, ◌⊎◌, refl, true, Option, none, some, arith, Bool-cases, inl, inr, ◌==◌,
}
use blox_os.Base.Text.{Text, lower, lower_idem, equal_fold_iff}
use blox_os.Base.Result.{Result, ok, err}
use blox_os.Release.Floor.{ReleaseFloor, Refusal, permits, covers}
use blox_os.Release.File.{format_release_floor}
use blox_os.Release.Store.{
  File, present, Fault, Error, no_floor, read_release_floor, replace, is_writable,
  write_release_floor, seeded, reconcile, seed_stored, seed_release_floor, raise_permitted,
  raise_stored, raise_release_floor,
}
use blox_os.Release.Boot.{
  Agent, booted_with, init_release_floor_state, covering, still_covering, current_enabled,
  current_release_floor, permitted, verify_over, verify_candidate_release,
}
use blox_os.Release.Ahead.{Ahead, recorded, permits-none, covers-none, read-written, replace-file}

pub current_inv :
    (a : Agent) (f : ReleaseFloor)
    → current_release_floor a ≡ ok f
    → (a.booted ≡ true)
      × (a.boot_err ≡ none)
      × (read_release_floor a.file ≡ ok f)
      × (covers f a.self ≡ none)
unfolding current_release_floor current_enabled still_covering covering
current_inv a f h = ground arith

verify_inv :
    (scan : Option ℕ) (sha : Text) (a : Agent) (c : ReleaseFloor)
    → verify_candidate_release scan sha a ≡ ok c
    → (f : ReleaseFloor) × (current_release_floor a ≡ ok f)
      × (permits f c ≡ none)
      × (scan ≡ some c.release)
      × (c.sha ≡ lower sha)
unfolding verify_candidate_release verify_over permitted
verify_inv scan sha a c h = ground arith

-- A candidate that the agent verifies carries a release of its own, the one read out of its bytes,
-- and it is a later release than the binary that runs, or the same release of the same build:
-- the update path never goes below what is running, whatever the floor file has become since boot.
pub verify-not-older :
    (scan : Option ℕ) (sha : Text) (a : Agent) (c : ReleaseFloor)
    → verify_candidate_release scan sha a ≡ ok c
    → Ahead a.self c × (scan ≡ some c.release) × (c.release ≢ 0) × (a.boot_err ≡ none)
verify-not-older scan sha a c h =
    let (f, current, allowed, read, same) = verify_inv scan sha a c h in
    let (_, clean, stored, covered) = current_inv a f current in
    let (ahead, numbered) = covers-none f a.self covered in
    let forward = permits-none f c allowed in
    (ground (arith, lower_idem c.sha), read, ground arith, clean)

self_covers : (self : ReleaseFloor) → is_writable self ≡ true → covers (recorded self) self ≡ none
unfolding covers is_writable
self_covers self h = ground (arith, equal_fold_iff (lower self.sha) self.sha, lower_idem self.sha)

-- A write that reports success has put the new text in place.
written_ok :
    (fault : Option Fault) (c : ReleaseFloor) (file : File)
    → (write_release_floor fault c file).1 ≡ ok tt
    → (is_writable c ≡ true)
      × ((write_release_floor fault c file).0 ≡ present (format_release_floor c))
unfolding write_release_floor replace
written_ok fault c file h = ground arith

-- The file reads as a floor that covers the binary.
abbrev Covering : ReleaseFloor → File → Type 0
Covering self file = (f : ReleaseFloor) × (read_release_floor file ≡ ok f) × (covers f self ≡ none)

seeded_inv :
    (self f : ReleaseFloor) (r : File × Result Error (Unit {0}))
    → (seeded self r).1 ≡ ok f
    → (r.1 ≡ ok tt) × ((seeded self r).0 ≡ r.0)
unfolding seeded
seeded_inv self f (file, ok _) h = (refl, refl)
seeded_inv self f (file, err e) h = cc

seeded-Covering :
    (fault : Option Fault) (self f : ReleaseFloor) (file : File)
    → (seeded self (write_release_floor fault self file)).1 ≡ ok f
    → Covering self (seeded self (write_release_floor fault self file)).0
seeded-Covering fault self f file h =
    let (wrote, same) = seeded_inv self f (write_release_floor fault self file) h in
    let (valid, new) = written_ok fault self file wrote in
    rw (same, new) (recorded self, read-written self valid, self_covers self valid)

reconcile-Covering :
    (fault : Option Fault) (self stored f : ReleaseFloor) (cover : Option Refusal) (file : File)
    → covers stored self ≡ cover
    → read_release_floor file ≡ ok stored
    → (reconcile fault self stored cover file).1 ≡ ok f
    → Covering self (reconcile fault self stored cover file).0
unfolding reconcile
reconcile-Covering fault self stored f none file c e h = (stored, e, c)
reconcile-Covering fault self stored f (some why) file c e h =
    elim (Bool-cases (stored.release == self.release)) [
      | inl equal ↦ absurd (cc (rw (equal, reconcile) at h))
      | inr other ↦ rw other (seeded-Covering fault self f file (rw (other, reconcile) at h))
    ]

seed_stored-Covering :
    (fault : Option Fault) (self f : ReleaseFloor) (stored : Result Error ReleaseFloor)
    (file : File)
    → read_release_floor file ≡ stored
    → (seed_stored fault self stored file).1 ≡ ok f
    → Covering self (seed_stored fault self stored file).0
unfolding seed_stored
seed_stored-Covering fault self f (ok stored) file e h =
    reconcile-Covering fault self stored f (covers stored self) file refl e h
seed_stored-Covering fault self f (err no_floor) file e h = seeded-Covering fault self f file h
seed_stored-Covering fault self f (err _) file e h = cc

seed-Covering :
    (fault : Option Fault) (self f : ReleaseFloor) (file : File)
    → (seed_release_floor fault self file).1 ≡ ok f
    → Covering self (seed_release_floor fault self file).0
unfolding seed_release_floor
seed-Covering fault self f file h = elim (Bool-cases (self.release == 0)) [
  | inl nothing ↦ absurd (cc (rw (nothing, seed_release_floor) at h))
  | inr numbered ↦ rw numbered (
      seed_stored-Covering fault self f (read_release_floor file) file refl
        (rw (numbered, seed_release_floor) at h))
]

booted_inv :
    (self : ReleaseFloor) (r : File × Result Error ReleaseFloor)
    → (booted_with self r).boot_err ≡ none
    → (f : ReleaseFloor) × (r.1 ≡ ok f)
      × (booted_with self r ≡ record { booted = true; self = self; boot_err = none; file = r.0 })
unfolding booted_with
booted_inv self (file, ok f) h = (f, refl, refl)
booted_inv self (file, err e) h = cc

current_of_Covering :
    (self : ReleaseFloor) (file : File)
    → Covering self file
    → (f : ReleaseFloor) × (current_release_floor
          (record { booted = true; self = self; boot_err = none; file = file })
        ≡ ok f)
      × (covers f self ≡ none)
unfolding current_release_floor current_enabled still_covering covering
current_of_Covering self file (f, e, c) = (f, rw (e, still_covering) (rw (c, covering)), c)

-- A boot that ends without an error, from any state of the file and with any fault on the way,
-- leaves a floor in force that covers the running binary.
pub boot-current :
    (fault : Option Fault) (self : ReleaseFloor) (file : File)
    → (init_release_floor_state fault self none file).boot_err ≡ none
    → (f : ReleaseFloor) × (current_release_floor (init_release_floor_state fault self none file)
        ≡ ok f)
      × (covers f self ≡ none)
unfolding init_release_floor_state
boot-current fault self file h =
    let (f, seeded', state) = booted_inv self (seed_release_floor fault self file) h in
    rw state (
      current_of_Covering self (seed_release_floor fault self file).0
        (seed-Covering fault self f file seeded'))

pub permits_own : (c : ReleaseFloor) → is_writable c ≡ true → permits (recorded c) c ≡ none
unfolding permits is_writable
permits_own c h = ground (arith, equal_fold_iff c.sha (lower c.sha), lower_idem c.sha)

write_succeeds :
    (c : ReleaseFloor) (file : File)
    → is_writable c ≡ true
    → write_release_floor none c file ≡ (present (format_release_floor c), ok tt)
unfolding write_release_floor replace
write_succeeds c file h = rw h

pub raise_succeeds :
    (f c : ReleaseFloor) (file : File)
    → read_release_floor file ≡ ok f
    → permits f c ≡ none
    → is_writable c ≡ true
    → raise_release_floor none c file ≡ (present (format_release_floor c), ok tt)
unfolding raise_release_floor raise_stored raise_permitted
raise_succeeds f c file e p w =
    rw (e, raise_stored) (rw (p, raise_permitted) (write_succeeds c file w))

-- The update that is announced again after a failed or interrupted one goes through: if the floor on
-- disk permits a writable candidate, then after a raise to it that failed at any point, or did not,
-- a raise to it without a fault succeeds, and the file then reads as that candidate.
pub raise_retry :
    (fault : Option Fault) (f c : ReleaseFloor) (file : File)
    → read_release_floor file ≡ ok f
    → permits f c ≡ none
    → is_writable c ≡ true
    → let again = raise_release_floor none c (raise_release_floor fault c file).0 in
      (again.1 ≡ ok tt) × (read_release_floor again.0 ≡ ok (recorded c))
raise_retry fault f c file e p w = after_first (first fault)
  where
    first :
        (fault : Option Fault)
        → ((raise_release_floor fault c file).0 ≡ file)
          ⊎ ((raise_release_floor fault c file).0 ≡ present (format_release_floor c))
    first fault =
        unfold raise_release_floor raise_stored raise_permitted write_release_floor in
        rw (e, raise_stored)
          (rw (p, raise_permitted) (rw w (replace-file fault (format_release_floor c) file)))

    done :
        (middle : File) (g : ReleaseFloor)
        → read_release_floor middle ≡ ok g
        → permits g c ≡ none
        → ((raise_release_floor none c middle).1 ≡ ok tt)
          × (read_release_floor (raise_release_floor none c middle).0 ≡ ok (recorded c))
    done middle g k q = rw (raise_succeeds g c middle k q w) (refl, read-written c w)

    after_first :
        ((raise_release_floor fault c file).0 ≡ file)
          ⊎ ((raise_release_floor fault c file).0 ≡ present (format_release_floor c))
        → ((raise_release_floor none c (raise_release_floor fault c file).0).1 ≡ ok tt)
          × (read_release_floor (raise_release_floor none c (raise_release_floor fault c file).0).0
              ≡ ok (recorded c))
    after_first (inl old) = rw old (done file f e p)
    after_first (inr new) =
        rw new (
          done (present (format_release_floor c)) (recorded c) (read-written c w) (permits_own c w))
