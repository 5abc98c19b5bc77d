-- ===== src/Access/Rotating.antt =====
-- hub/auth.go: a user who changed both first credentials passes the rotation check, and a login
-- says what is still to be changed.
use blox_os.Base.{
  ◌≡◌, ◌⊎◌, ◌∙◌, inl, inr, refl, sym, ap, subst, List, Option, none, some, Bool, true, false, not,
  ◌||◌, if◌then◌else◌, Option-cases, ltb,
}
use blox_os.Base.Text.{Text, text_eq, is_empty, byte_length}
use blox_os.Base.Table.{find_where, update_where, find-updated, updated}
use blox_os.Access.Setup.{is_long_enough}
use blox_os.Access.Roles.{contains}
use blox_os.Access.Gate.{
  Request, Gated, Rotated, rotation_allowlist, credential_rotation_middleware, rotation_of,
  rotation_answer,
}
use blox_os.Access.Credentials.{
  User, has_id, Hashing, CredentialError, with_password, with_pin, store, store_password, store_pin,
  check_password, verify_terminal_pin, password_too_short, pin_too_short, no_user, rate_limited,
  wrong_password, wrong_pin, handle_change_password, handle_change_pin,
}

-- The columns that the rotation check reads.
abbrev columns : Option User → Option (Option Bool × Option Bool)
columns none = none
columns (some u) = some (u.password_changed, u.pin_changed)

unfoldable pub rotated_of : List User → Rotated
unfolding find_where text_eq
rotated_of users user = columns (find_where (has_id user) users)

abbrev Outcome : Type 0
Outcome = List User × Option CredentialError

-- A call that succeeds was not refused.
unrefused :
    (b : Bool) (users : List User) (e : CredentialError) (rest : Outcome)
    → (if b then (users, some e) else rest).1 ≡ none
    → (if b then (users, some e) else rest) ≡ rest
unrefused true users e rest h = absurd (cc h)
unrefused false users e rest h = refl

IsUpdate : (Text → User → User) → Text → List User → Outcome → Type 0
IsUpdate change user users o =
    (hash : Text) × (o ≡ (update_where (has_id user) (change hash) users, none))

store-IsUpdate :
    (stored : Bool) (change : Text → User → User) (user hash : Text) (users : List User)
    → (store stored user (change hash) users).1 ≡ none
    → IsUpdate change user users (store stored user (change hash) users)
unfolding IsUpdate
store-IsUpdate true change user hash users h = (hash, refl)
store-IsUpdate false change user hash users h = absurd (cc h)

module _ (h : Hashing) (allowed stored : Bool) (user current new : Text) (users : List User) where
  check_password-IsUpdate :
      (row : Option User)
      → (check_password h stored user current new row users).1 ≡ none
      → IsUpdate with_password user users (check_password h stored user current new row users)
  check_password-IsUpdate none e = absurd (cc e)
  check_password-IsUpdate (some u) e =
      let same =
        unrefused (not (h.fits u.password_hash current)) users wrong_password
          (store_password stored user (h.hash new) users) e in
      subst (IsUpdate with_password user users) (sym same)
        (hashed (h.hash new) (ap (λ (o : Outcome). o.1) (sym same) ∙ e))
    where
      hashed :
          (o : Option Text)
          → (store_password stored user o users).1 ≡ none
          → IsUpdate with_password user users (store_password stored user o users)
      hashed none k = absurd (cc k)
      hashed (some hash) k = store-IsUpdate stored with_password user hash users k

  store_pin-IsUpdate :
      (o : Option Text)
      → (store_pin stored user o users).1 ≡ none
      → IsUpdate with_pin user users (store_pin stored user o users)
  store_pin-IsUpdate none k = absurd (cc k)
  store_pin-IsUpdate (some hash) k = store-IsUpdate stored with_pin user hash users k

  change_password-IsUpdate :
      (handle_change_password h allowed stored user current new users).1 ≡ none
      → IsUpdate with_password user users
          (handle_change_password h allowed stored user current new users)
  unfolding handle_change_password
  change_password-IsUpdate e =
      let last = check_password h stored user current new (find_where (has_id user) users) users in
      let limited = if not allowed then (users, some rate_limited) else last in
      let named = if is_empty user then (users, some no_user) else limited in
      let a = unrefused (not (is_long_enough new)) users password_too_short named e in
      let b =
        unrefused (is_empty user) users no_user limited (ap (λ (o : Outcome). o.1) (sym a) ∙ e) in
      let c =
        unrefused (not allowed) users rate_limited last
          (ap (λ (o : Outcome). o.1) (sym (a ∙ b)) ∙ e) in
      subst (IsUpdate with_password user users) (sym (a ∙ b ∙ c)) (
        check_password-IsUpdate (find_where (has_id user) users)
          (ap (λ (o : Outcome). o.1) (sym (a ∙ b ∙ c)) ∙ e))

  change_pin-IsUpdate :
      (handle_change_pin h allowed stored user current new users).1 ≡ none
      → IsUpdate with_pin user users (handle_change_pin h allowed stored user current new users)
  unfolding handle_change_pin
  change_pin-IsUpdate e =
      let last = store_pin stored user (h.hash new) users in
      let fits =
        if not (verify_terminal_pin h user current users) then (users, some wrong_pin) else last in
      let limited = if not allowed then (users, some rate_limited) else fits in
      let named = if is_empty user then (users, some no_user) else limited in
      let a = unrefused (is_empty new || ltb (byte_length new) 4) users pin_too_short named e in
      let b =
        unrefused (is_empty user) users no_user limited (ap (λ (o : Outcome). o.1) (sym a) ∙ e) in
      let c =
        unrefused (not allowed) users rate_limited fits
          (ap (λ (o : Outcome). o.1) (sym (a ∙ b)) ∙ e) in
      let d =
        unrefused (not (verify_terminal_pin h user current users)) users wrong_pin last
          (ap (λ (o : Outcome). o.1) (sym (a ∙ b ∙ c)) ∙ e) in
      subst (IsUpdate with_pin user users) (sym (a ∙ b ∙ c ∙ d))
        (store_pin-IsUpdate (h.hash new) (ap (λ (o : Outcome). o.1) (sym (a ∙ b ∙ c ∙ d)) ∙ e))

module _ (rotated : Rotated) (r : Request) (user : Text) (next : Gated) where
  -- A user who changed both, or whose row is not there, is let through.
  rotation-next :
      ((rotated user ≡ none) ⊎ (rotated user ≡ some (some true, some true)))
      → credential_rotation_middleware rotated r (some user) next ≡ next
  unfolding credential_rotation_middleware
  rotation-next h = either (contains r.url_path rotation_allowlist) _ named
    where
      either : (b : Bool) (x : Gated) → x ≡ next → (if b then next else x) ≡ next
      either true x e = refl
      either false x e = e

      answered : rotation_answer (rotated user) next ≡ next
      answered = elim h [
        | inl e ↦ ap (λ o. rotation_answer o next) e
        | inr e ↦ ap (λ o. rotation_answer o next) e
      ]

      named : rotation_of rotated (some user) next ≡ next
      named = either (is_empty user) (rotation_answer (rotated user) next) answered

updated_twice :
    (user p q : Text) (users : List User)
    → (rotated_of
          (update_where
            (has_id user)
            (with_pin q)
            (update_where (has_id user) (with_password p) users))
          user
        ≡ none)
      ⊎ (rotated_of
            (update_where
              (has_id user)
              (with_pin q)
              (update_where (has_id user) (with_password p) users))
            user
          ≡ some (some true, some true))
unfolding rotated_of
updated_twice user p q users =
    let first = find-updated (has_id user) (with_password p) users (λ u. refl) in
    let second =
      find-updated (has_id user) (with_pin q) (update_where (has_id user) (with_password p) users)
        (λ u. refl) in
    let both = second ∙ ap (updated (with_pin q)) first in
    elim (Option-cases (find_where (has_id user) users)) [
      | inl e ↦
          inl (ap columns (both ∙ ap (λ o. updated (with_pin q) (updated (with_password p) o)) e))
      | inr (u, e) ↦
          inr (ap columns (both ∙ ap (λ o. updated (with_pin q) (updated (with_password p) o)) e))
    ]

-- A user whose change of the password succeeds, and then the change of the PIN, is let through by the
-- check of the first credentials, on every path and whatever stands behind it.
pub changes_rotate :
    (h : Hashing) (allowed allowed' stored stored' : Bool) (user current new pin new_pin : Text)
    (users : List User) (r : Request) (next : Gated)
    → (handle_change_password h allowed stored user current new users).1 ≡ none
    → (handle_change_pin h allowed' stored' user pin new_pin
        (handle_change_password h allowed stored user current new users).0).1
      ≡ none
    → credential_rotation_middleware
        (rotated_of
          (handle_change_pin h allowed' stored' user pin new_pin
            (handle_change_password h allowed stored user current new users).0).0)
        r
        (some user)
        next
      ≡ next
unfolding IsUpdate
changes_rotate h allowed allowed' stored stored' user current new pin new_pin users r next first
      second =
    let (p, changed) = change_password-IsUpdate h allowed stored user current new users first in
    let between = (handle_change_password h allowed stored user current new users).0 in
    let (q, rotated) = change_pin-IsUpdate h allowed' stored' user pin new_pin between second in
    let same =
      ap (λ (o : Outcome). o.0) rotated
      ∙ ap (λ (o : Outcome). update_where (has_id user) (with_pin q) o.0) changed in
    rotation-next (rotated_of (handle_change_pin h allowed' stored' user pin new_pin between).0) r
      user next
      (subst
        (λ us. (rotated_of us user ≡ none) ⊎ (rotated_of us user ≡ some (some true, some true)))
        (sym same) (updated_twice user p q users))
