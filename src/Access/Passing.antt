-- ===== src/Access/Passing.antt =====
-- hub/auth.go, hub/rbac.go: what a request has shown when its handler runs.
use blox_os.Base.{
  ◌≡◌, ◌⊎◌, ◌∙◌, inl, inr, refl, sym, ap, subst, List, Option, none, some, Bool, true, false, not,
  ◌||◌, if◌then◌else◌, arith, Bool-cases, some_eq, if-else,
}
use blox_os.Base.Text.{Text, is_empty}
use blox_os.Base.Result.{Result, ok, err}
use blox_os.Access.Roles.{contains, role_has_scope, route_scope_key}
use blox_os.Access.Permission.{
  RoleError, no_rows, query_failed, invalid_role, lookup_user_role, find_scope, Permitted,
  next_handler, permit_role, permit_user, permit_scope, permission_middleware,
}
use blox_os.Access.Gate.{
  Claims, Request, Gated, checked, token_of, is_sse_elsewhere, rotation_allowlist, Rotated, is_set,
  rotation_answer, rotation_of, credential_rotation_middleware, after_token, after_verify, serve,
}

-- The user has a valid role, and the role has the scope.
abbrev pub HasRight : (Text → Result RoleError (Option Text)) → Text → Text → Type 0
HasRight query user scope =
    (role : Text) × (lookup_user_role (query user) ≡ ok role) × (role_has_scope role scope ≡ true)

permit_role-next :
    (scope : Text) (r : Result RoleError Text)
    → permit_role scope r ≡ next_handler
    → (role : Text) × (r ≡ ok role) × (role_has_scope role scope ≡ true)
permit_role-next scope (err no_rows) h = absurd (cc h)
permit_role-next scope (err query_failed) h = absurd (cc h)
permit_role-next scope (err (invalid_role raw)) h = absurd (cc h)
permit_role-next scope (ok role) h = (role, refl, ground arith)

permit_user-next :
    (query : Text → Result RoleError (Option Text)) (scope : Text) (user : Option Text)
    → permit_user query scope user ≡ next_handler
    → (u : Text) × (user ≡ some u) × (is_empty u ≡ false) × HasRight query u scope
permit_user-next query scope none h = absurd (cc h)
permit_user-next query scope (some u) h =
    let (real, right) = if-else (is_empty u) (λ e. absurd (cc e)) h in
    (u, refl, real, permit_role-next scope (lookup_user_role (query u)) right)

permit_scope-next :
    (query : Text → Result RoleError (Option Text)) (scope user : Option Text)
    → permit_scope query scope user ≡ next_handler
    → (s : Text) × (u : Text) × (scope ≡ some s)
      × (user ≡ some u)
      × (is_empty u ≡ false)
      × HasRight query u s
permit_scope-next query none user h = absurd (cc h)
permit_scope-next query (some s) user h =
    let (u, same, real, right) = permit_user-next query s user h in (s, u, refl, same, real, right)

-- The first credentials were changed, or the path is allowed before, or the query failed.
abbrev pub MayProceed : Rotated → Request → Text → Type 0
MayProceed rotated r user =
    (contains r.url_path rotation_allowlist ≡ true)
    ⊎ (rotated user ≡ none)
    ⊎ ((p : Option Bool) × (q : Option Bool) × (rotated user ≡ some (p, q))
        × (is_set p ≡ true)
        × (is_set q ≡ true))

both : (a b : Bool) → (not a || not b) ≡ false → (a ≡ true) × (b ≡ true)
both true true h = (refl, refl)
both true false h = cc
both false b h = cc

rotation_answer-checked :
    (answer : Option (Option Bool × Option Bool)) (p : Permitted)
    → rotation_answer answer (checked p) ≡ checked next_handler
    → (p ≡ next_handler)
      × ((answer ≡ none)
          ⊎ ((a : Option Bool) × (b : Option Bool) × (answer ≡ some (a, b))
              × (is_set a ≡ true)
              × (is_set b ≡ true)))
rotation_answer-checked none p h = (cc h, inl refl)
rotation_answer-checked (some (a, b)) p h =
    let (changed, same) = if-else (not (is_set a) || not (is_set b)) (λ e. absurd (cc e)) h in
    let (x, y) = both (is_set a) (is_set b) changed in (cc same, inr (a, b, refl, x, y))

rotation_of-checked :
    (rotated : Rotated) (user : Text) (p : Permitted)
    → is_empty user ≡ false
    → rotation_of rotated (some user) (checked p) ≡ checked next_handler
    → (p ≡ next_handler)
      × ((rotated user ≡ none)
          ⊎ ((a : Option Bool) × (b : Option Bool) × (rotated user ≡ some (a, b))
              × (is_set a ≡ true)
              × (is_set b ≡ true)))
rotation_of-checked rotated user p real h =
    rotation_answer-checked (rotated user) p
      (sym (ap (λ b. if b then checked p else rotation_answer (rotated user) (checked p)) real) ∙ h)

-- What the checks after the token have found of a user.
pub record Passed (requirements : List (Text × Text))
    (query : Text → Result RoleError (Option Text)) (rotated : Rotated) (r : Request) (user : Text)
    : Type 0 where
  pub real : is_empty user ≡ false
  pub scope : Text
  pub mapped : find_scope (route_scope_key r.method r.route) requirements ≡ some scope
  pub right : HasRight query user scope
  pub proceeds : MayProceed rotated r user

module _ (requirements : List (Text × Text)) (query : Text → Result RoleError (Option Text))
    (rotated : Rotated) (verify : Text → Option (Option Claims)) (r : Request)
    (routed : is_empty r.route ≡ false) where
  permission-next :
      (user : Option Text)
      → permission_middleware requirements query r.method r.route user ≡ next_handler
      → (s : Text) × (u : Text) × (find_scope (route_scope_key r.method r.route) requirements
          ≡ some s)
        × (user ≡ some u)
        × (is_empty u ≡ false)
        × HasRight query u s
  unfolding permission_middleware
  permission-next user h =
      permit_scope-next query (find_scope (route_scope_key r.method r.route) requirements) user (
        sym (
          ap
            (λ b.
              if b
              then next_handler
              else permit_scope query (find_scope (route_scope_key r.method r.route) requirements)
                  user)
            routed)
        ∙ h)

  -- The rotation lets nobody past who has no scope.
  rotation-some :
      (user : Option Text) (p : Permitted)
      → credential_rotation_middleware rotated r user (checked p) ≡ checked next_handler
      → p ≡ next_handler
  unfolding credential_rotation_middleware
  rotation-some user p h = elim (Bool-cases (contains r.url_path rotation_allowlist)) [
    | inl allowed ↦ cc (sym (ap pick allowed) ∙ h)
    | inr not_allowed ↦ user_next user (sym (ap pick not_allowed) ∙ h)
  ]
    where
      pick : Bool → Gated
      pick b = if b then checked p else rotation_of rotated user (checked p)

      user_next :
          (o : Option Text)
          → rotation_of rotated o (checked p) ≡ checked next_handler
          → p ≡ next_handler
      user_next none e = cc e
      user_next (some u) e = elim (Bool-cases (is_empty u)) [
        | inl bare ↦ cc (
            sym (ap (λ b. if b then checked p else rotation_answer (rotated u) (checked p)) bare)
            ∙ e)
        | inr real ↦ (rotation_of-checked rotated u p real e).0
      ]

  rotation-proceeds :
      (user : Text) (p : Permitted)
      → is_empty user ≡ false
      → credential_rotation_middleware rotated r (some user) (checked p) ≡ checked next_handler
      → MayProceed rotated r user
  unfolding credential_rotation_middleware
  rotation-proceeds user p real h = elim (Bool-cases (contains r.url_path rotation_allowlist)) [
    | inl allowed ↦ inl allowed
    | inr not_allowed ↦
        inr (rotation_of-checked rotated user p real (sym (ap pick not_allowed) ∙ h)).1
  ]
    where
      pick : Bool → Gated
      pick b = if b then checked p else rotation_of rotated (some user) (checked p)

  after_token-Passed :
      (user : Option Text)
      → after_token requirements query rotated r user ≡ checked next_handler
      → (u : Text) × (user ≡ some u) × Passed requirements query rotated r u
  unfolding after_token
  after_token-Passed user h =
      let p = permission_middleware requirements query r.method r.route user in
      let (s, u, mapped, same, real, right) = permission-next user (rotation-some user p h) in
      (
        u,
        same,
        record {
          real = real;
          scope = s;
          mapped = mapped;
          right = right;
          proceeds =
              rotation-proceeds u p real
                (ap (λ o. credential_rotation_middleware rotated r o (checked p)) (sym same) ∙ h);
        },
      )

  -- A handler of a protected route runs only for a request with a valid token that has claims; an
  -- event stream token only on the events path; its user is named, has a valid role with the scope
  -- that the route asks for, and has changed the first password and PIN, unless the path is
  -- allowed before that, or the query for them failed.
  pub serve_sound :
      serve requirements query rotated verify r ≡ checked next_handler
      → (is_empty (token_of r) ≡ false)
        × ((c : Claims) × (verify (token_of r) ≡ some (some c))
            × (is_sse_elsewhere c r ≡ false)
            × Passed requirements query rotated r c.user_id)
  unfolding serve
  serve_sound h =
      let (given, verified) = if-else (is_empty (token_of r)) (λ e. absurd (cc e)) h in
      (given, claimed (verify (token_of r)) verified)
    where
      claimed :
          (v : Option (Option Claims))
          → after_verify requirements query rotated r v ≡ checked next_handler
          → (c : Claims) × (v ≡ some (some c))
            × (is_sse_elsewhere c r ≡ false)
            × Passed requirements query rotated r c.user_id
      claimed none e = absurd (cc e)
      claimed (some none) e = absurd (cc (after_token-Passed none e).1)
      claimed (some (some c)) e =
          let (here_allowed, passed) = if-else (is_sse_elsewhere c r) (λ k. absurd (cc k)) e in
          let (u, same, p) = after_token-Passed (some c.user_id) passed in
          (
            c,
            refl,
            here_allowed,
            subst (Passed requirements query rotated r) (sym (some_eq same)) p,
          )
