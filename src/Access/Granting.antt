-- ===== src/Access/Granting.antt =====
-- hub/rbac.go: the scopes of the roles, and what a passed audit is worth.
use blox_os.Base.{
  ◌≡◌, ◌≢◌, ◌↔◌, ◌⊎◌, ◌∙◌, inl, inr, refl, sym, ap, subst, List, [], ◌∷◌, Option, none, some, Bool,
  true, not, if◌then◌else◌, arith, and-parts, ◌&&◌, Bool-cases, Option-cases, All, if-else,
}
use blox_os.Base.Text.{Text, text_eq, text_eq_iff, is_empty}
use blox_os.Base.Result.{Result, ok, err}
use blox_os.Access.Roles.{
  role_admin, role_operator, role_viewer, contains, role_scopes, role_has_scope,
  route_scope_requirements,
}
use blox_os.Access.Permission.{
  RoleError, no_rows, query_failed, invalid_role, find_scope, missing_mapping, next_handler,
  insufficient_scope, permit_role, permit_user, permit_scope, lookup_user_role,
  permission_middleware,
}
use blox_os.Access.Audit.{
  Route, key_of, is_protected, registered_keys, missing_keys, orphan_keys, audit_error,
  audit_rbac_route_coverage,
}

-- What holds of every text of a list holds of a text that it contains.
contains-All :
    (P : Text → Type 0) (s : Text) (ts : List Text) → All P ts → contains s ts ≡ true → P s
unfolding contains
contains-All P s [] a h = absurd (cc h)
contains-All P s (t ∷ ts) a h = elim (Bool-cases (text_eq t s)) [
  | inl same ↦ subst P ((text_eq_iff t s).0 same) a.0
  | inr other ↦
      contains-All P s ts a.1 (sym (ap (λ b. if b then true else contains s ts) other) ∙ h)
]

abbrev all_of {ℓ} : {A : Type ℓ} → (A → Bool) → List A → Bool
all_of p [] = true
all_of p (x ∷ xs) = p x && all_of p xs

all_of-All {ℓ} :
    {A : Type ℓ} (p : A → Bool) (xs : List A) → all_of p xs ≡ true → All (λ x. p x ≡ true) xs
all_of-All p [] h = tt
all_of-All p (x ∷ xs) h =
    let (here, rest) = and-parts (p x) (all_of p xs) h in (here, all_of-All p xs rest)

-- Every scope of one role is a scope of another.
abbrev Includes : Text → Text → Type 0
Includes small large = All (λ s. role_has_scope large s ≡ true) (role_scopes small)

viewer-Includes : Includes role_viewer role_operator
unfolding role_has_scope
viewer-Includes = all_of-All (role_has_scope role_operator) (role_scopes role_viewer) refl

operator-Includes : Includes role_operator role_admin
unfolding role_has_scope
operator-Includes = all_of-All (role_has_scope role_admin) (role_scopes role_operator) refl

has-contains : (role s : Text) → role_has_scope role s ≡ contains s (role_scopes role)
unfolding role_has_scope
has-contains role s = refl

admin-all :
    All (λ (row : Text × Text). role_has_scope role_admin row.1 ≡ true) route_scope_requirements
unfolding role_has_scope
admin-all =
    all_of-All (λ (row : Text × Text). role_has_scope role_admin row.1) route_scope_requirements
      refl

-- The roles are nested: whatever a viewer may do an operator may do, and whatever an operator may do
-- an administrator may do; and an administrator has the scope that any route asks for.
pub roles_nested :
    ((s : Text) → role_has_scope role_viewer s ≡ true → role_has_scope role_operator s ≡ true)
    × ((s : Text) → role_has_scope role_operator s ≡ true → role_has_scope role_admin s ≡ true)
    × All (λ (row : Text × Text). role_has_scope role_admin row.1 ≡ true) route_scope_requirements
roles_nested = (
  λ s h.
      contains-All (λ t. role_has_scope role_operator t ≡ true) s (role_scopes role_viewer)
        viewer-Includes (sym (has-contains role_viewer s) ∙ h),
  λ s h.
      contains-All (λ t. role_has_scope role_admin t ≡ true) s (role_scopes role_operator)
        operator-Includes (sym (has-contains role_operator s) ∙ h),
  admin-all,
)

module _ (requirements : List (Text × Text)) where
  -- The key of a route has a scope.
  abbrev pub IsMapped : Text → Type 0
  IsMapped key = find_scope key requirements ≢ none

  missing_keys-step :
      (k : Text) (ks : List Text)
      → ((find_scope k requirements ≡ none)
          × (missing_keys requirements (k ∷ ks) ≡ (k ∷ missing_keys requirements ks)))
        ⊎ (IsMapped k × (missing_keys requirements (k ∷ ks) ≡ missing_keys requirements ks))
  unfolding missing_keys
  missing_keys-step k ks = elim (Option-cases (find_scope k requirements)) [
    | inl lost ↦ inl (lost, rw lost refl)
    | inr (s, found) ↦ inr (λ n. absurd (cc (sym n ∙ found)), rw found refl)
  ]

  no_keys : missing_keys requirements [] ≡ []
  unfolding missing_keys
  no_keys = refl

  missing_keys_iff : (ks : List Text) → (missing_keys requirements ks ≡ []) ↔ All IsMapped ks
  missing_keys_iff [] = (λ e. tt, λ a. no_keys)
  missing_keys_iff (k ∷ ks) = elim (missing_keys-step k ks) [
    | inl (lost, e) ↦ (λ h. absurd (cc (sym e ∙ h)), λ a. absurd (a.0 lost))
    | inr (mapped, e) ↦
        (λ h. (mapped, (missing_keys_iff ks).0 (sym e ∙ h)), λ a. e ∙ (missing_keys_iff ks).1 a.1)
  ]

  -- The keys of the map that some route has.
  orphan_keys_iff :
      (registered : List Text) (rows : List (Text × Text))
      → (orphan_keys registered rows ≡ [])
        ↔ All (λ (row : Text × Text). contains row.0 registered ≡ true) rows
  unfolding orphan_keys
  orphan_keys_iff registered [] = (λ e. tt, λ a. refl)
  orphan_keys_iff registered ((k, scope) ∷ rows) = elim (Bool-cases (contains k registered)) [
    | inl there ↦ rw there (
      λ h. (refl, (orphan_keys_iff registered rows).0 h),
      λ a. (orphan_keys_iff registered rows).1 a.1,
    )
    | inr orphan ↦ rw orphan (λ h. absurd (cc h), λ a. absurd (cc a.0))
  ]

-- A protected route is mapped.
abbrev pub IsCovered : List (Text × Text) → Route → Type 0
IsCovered requirements r = is_protected r ≡ true → IsMapped requirements (key_of r)

registered_keys_iff :
    (requirements : List (Text × Text)) (rs : List Route)
    → All (IsMapped requirements) (registered_keys rs) ↔ All (IsCovered requirements) rs
unfolding registered_keys
registered_keys_iff requirements [] = (λ a. tt, λ a. tt)
registered_keys_iff requirements (r ∷ rs) = elim (Bool-cases (is_protected r)) [
  | inl seen ↦ rw seen (
    λ a. (λ e. a.0, (registered_keys_iff requirements rs).0 a.1),
    λ a. (a.0 refl, (registered_keys_iff requirements rs).1 a.1),
  )
  | inr unseen ↦ rw unseen (
    λ a. (λ e. absurd (cc e), (registered_keys_iff requirements rs).0 a),
    λ a. (registered_keys_iff requirements rs).1 a.1,
  )
]

audit_error_iff : (ms os : List Text) → (audit_error ms os ≡ none) ↔ ((ms ≡ []) × (os ≡ []))
audit_error_iff [] [] = (λ e. (refl, refl), λ e. refl)
audit_error_iff [] (o ∷ os) = (λ e. absurd (cc e), λ e. absurd (cc e.1))
audit_error_iff (m ∷ ms) os = (λ e. absurd (cc e), λ e. absurd (cc e.0))

-- The audit passes exactly when every protected route has a scope and every key of the map is the
-- key of a protected route.
pub audit_iff :
    (routes : List Route) (requirements : List (Text × Text))
    → (audit_rbac_route_coverage routes requirements ≡ none) ↔ (
        All (IsCovered requirements) routes
        × All (λ (row : Text × Text). contains row.0 (registered_keys routes) ≡ true) requirements)
unfolding audit_rbac_route_coverage
audit_iff routes requirements =
    let ks = registered_keys routes in
    let error = audit_error_iff (missing_keys requirements ks) (orphan_keys ks requirements) in
    let missing = missing_keys_iff requirements ks in
    let orphans = orphan_keys_iff requirements ks requirements in
    let routed = registered_keys_iff requirements routes in
    (
      λ h. let (m, o) = error.0 h in (routed.0 (missing.0 m), orphans.0 o),
      λ (m, o). error.1 (missing.1 (routed.1 m), orphans.1 o),
    )

role-not_missing :
    (scope : Text) (r : Result RoleError Text) → permit_role scope r ≢ missing_mapping
role-not_missing scope (err no_rows) h = cc h
role-not_missing scope (err query_failed) h = cc h
role-not_missing scope (err (invalid_role raw)) h = cc h
role-not_missing scope (ok role) h =
    cc ((if-else (not (role_has_scope role scope)) (λ e. absurd (cc e)) (swapped ∙ h)).1)
  where
    swapped :
        (if not (role_has_scope role scope) then insufficient_scope scope role else next_handler)
        ≡ permit_role scope (ok role)
    swapped = ground arith

user-not_missing :
    (query : Text → Result RoleError (Option Text)) (scope : Text) (user : Option Text)
    → permit_user query scope user ≢ missing_mapping
user-not_missing query scope none h = cc h
user-not_missing query scope (some u) h =
    role-not_missing scope (lookup_user_role (query u))
      (if-else (is_empty u) (λ e. absurd (cc e)) h).1

-- When the audit passed, no request to a protected route is answered with a missing scope mapping.
pub audit-mapped :
    (routes : List Route) (requirements : List (Text × Text))
    (query : Text → Result RoleError (Option Text))
    → audit_rbac_route_coverage routes requirements ≡ none
    → All
        (λ (r : Route).
          is_protected r ≡ true
          → (user : Option Text)
          → permission_middleware requirements query r.method r.path user ≢ missing_mapping)
        routes
audit-mapped routes requirements query h = answered routes ((audit_iff routes requirements).0 h).0
  where
    mapped :
        (path : Text) (scope user : Option Text)
        → scope ≢ none
        → (if is_empty path then next_handler else permit_scope query scope user) ≢ missing_mapping
    mapped path none user found e = found refl
    mapped path (some scope) user found e =
        user-not_missing query scope user (if-else (is_empty path) (λ k. absurd (cc k)) e).1

    one :
        (r : Route) (user : Option Text)
        → IsMapped requirements (key_of r)
        → permission_middleware requirements query r.method r.path user ≢ missing_mapping
    one r user found =
        unfold permission_middleware in
        mapped r.path (find_scope (key_of r) requirements) user found

    answered :
        (rs : List Route)
        → All (IsCovered requirements) rs
        → All
            (λ (r : Route).
              is_protected r ≡ true
              → (user : Option Text)
              → permission_middleware requirements query r.method r.path user ≢ missing_mapping)
            rs
    answered [] a = tt
    answered (r ∷ rs) a = (λ seen user. one r user (a.0 seen), answered rs a.1)
