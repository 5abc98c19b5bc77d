-- ===== src/Release/Enabling.antt =====
-- agent/release_floor.go: what the whole boot decides about self-update, for as long as the process runs.
use blox_os.Base.{
  ℕ, ◌≡◌, ◌↔◌, inl, inr, refl, ap, sym, subst, some_eq, Bool, true, false, Option, none, some, ◌==◌,
  ==_iff, arith, Bool-cases,
}
use blox_os.Base.Text.{Text}
use blox_os.Base.Result.{Result, ok, err}
use blox_os.Release.Floor.{ReleaseFloor, covers}
use blox_os.Release.Store.{File, Fault, Error, read_release_floor, seed_release_floor}
use blox_os.Release.Boot.{
  booted_with, init_release_floor_state, boot_scanned, boot_hashed, seed_at_boot, still_covering,
  covering, current_enabled, current_release_floor,
}

still_covering_iff :
    (self : ReleaseFloor) (r : Result Error ReleaseFloor) (f : ReleaseFloor)
    → (still_covering self r ≡ ok f) ↔ ((r ≡ ok f) × (covers f self ≡ none))
unfolding still_covering covering
still_covering_iff self r f = (λ h. ground arith, λ h. ground arith)

-- A boot that came as far as the seeding.
seeded_iff :
    (self : ReleaseFloor) (r : File × Result Error ReleaseFloor) (later : File) (f : ReleaseFloor)
    → (current_release_floor (record (booted_with self r) { file = later }) ≡ ok f) ↔ (
        (g : ReleaseFloor) × (r.1 ≡ ok g)
        × (read_release_floor later ≡ ok f)
        × (covers f self ≡ none))
unfolding current_release_floor current_enabled booted_with
seeded_iff self (file, err e) later f = (λ h. absurd (cc h), λ (g, h, _, _). absurd (cc h))
seeded_iff self (file, ok g) later f =
    let (to, from) = still_covering_iff self (read_release_floor later) f in
    (
      λ h. (let (read, covered) = to h in (g, refl, read, covered)),
      λ (_, _, read, covered). from (read, covered),
    )

-- Whatever the boot met and whatever the floor file has become since, a floor is in force exactly where the
-- boot found its own path and hash, read its own release back out of its bytes, and seeded the floor
-- without an error, and the file that is there now holds that floor and covers the running binary. So after
-- a failed boot no later file enables self-update.
pub enabled_iff :
    (fault : Option Fault) (path : Bool) (embedded : ℕ) (hash : Option Text) (scan : Option ℕ)
    (file later : File) (f : ReleaseFloor)
    → (current_release_floor
          (record (seed_at_boot fault path embedded hash scan file) { file = later })
        ≡ ok f)
      ↔ ((path ≡ true)
          × (sha : Text) × (hash ≡ some sha)
          × (scan ≡ some embedded)
          × (g : ReleaseFloor) × ((seed_release_floor fault
                (record { release = embedded; sha = sha })
                file).1
              ≡ ok g)
          × (read_release_floor later ≡ ok f)
          × (covers f (record { release = embedded; sha = sha }) ≡ none))
unfolding seed_at_boot boot_hashed boot_scanned init_release_floor_state current_release_floor
    current_enabled
enabled_iff fault false embedded hash scan file later f = (λ h. absurd (cc h), λ h. absurd (cc h.0))
enabled_iff fault true embedded none scan file later f =
    (λ h. absurd (cc h), λ (_, _, h, _, _, _, _, _). absurd (cc h))
enabled_iff fault true embedded (some sha) none file later f =
    (λ h. absurd (cc h), λ (_, _, _, h, _, _, _, _). absurd (cc h))
enabled_iff fault true embedded (some sha) (some n) file later f =
    elim (Bool-cases (n == embedded)) [
      | inr other ↦ rw other (
        λ h. absurd (cc h),
        λ (_, _, _, h, _, _, _, _). absurd (cc (other, (==_iff n embedded).1 (some_eq h))),
      )
      | inl same ↦
          (let self : ReleaseFloor = record { release = embedded; sha = sha } in
            let (to, from) = seeded_iff self (seed_release_floor fault self file) later f in
            rw same (
              λ h.
                  (let (g, seeded, read, covered) = to h in
                    (
                      refl,
                      sha,
                      refl,
                      ap some ((==_iff n embedded).0 same),
                      g,
                      seeded,
                      read,
                      covered,
                    )),
              λ (_, own, e, _, g, seeded, read, covered).
                  (let back : Text → ReleaseFloor = λ t. record { release = embedded; sha = t } in
                    from (
                      g,
                      subst (λ t. (seed_release_floor fault (back t) file).1 ≡ ok g)
                          (sym (some_eq e)) seeded,
                      read,
                      subst (λ t. covers f (back t) ≡ none) (sym (some_eq e)) covered,
                    )),
            ))
    ]
