-- ===== src/Access/Tests.antt =====
-- hub/auth.go, hub/rbac.go: an operator, a viewer and a token of the event stream; a setup that is
-- tried twice.
use blox_os.Base.{
  ◌≡◌, ◌≢◌, ◌↔◌, ◌⊎◌, inl, inr, refl, List, [], ◌∷◌, Option, none, some, Bool, true, false, All,
  ◌++◌, if◌then◌else◌,
}
use blox_os.Base.Text.{Text, text_eq, codes, is_empty}
use blox_os.Base.Result.{Result, ok, err}
use blox_os.Access.Roles.{
  role_viewer, contains, scope_fleet_control, route_scope_key, route_scope_requirements,
}
use blox_os.Access.Permission.{
  RoleError, no_rows, next_handler, missing_mapping, insufficient_scope, permission_middleware,
}
use blox_os.Access.Audit.{Route, is_protected, registered_keys, audit_rbac_route_coverage}
use blox_os.Access.Gate.{
  Claims, Request, Gated, checked, sse_token_elsewhere, not_rotated, token_of, is_sse_elsewhere,
  Rotated, credential_rotation_middleware, serve,
}
use blox_os.Access.Setup.{
  Body, Admin, pin_too_short, check_setup, generate_setup_token, Server, consuming, inserting,
  consumes, inserts, Reach, here, next, started,
}
use blox_os.Access.Credentials.{
  User, Hashing, CredentialError, wrong_pin, handle_change_password, handle_change_pin,
  handle_login, scopes_for_role,
}
use blox_os.Access.Rotating.{rotated_of, changes_rotate}
use blox_os.Access.Passing.{Passed, serve_sound}
use blox_os.Access.Granting.{IsCovered, audit_iff, audit-mapped}
use blox_os.Access.OneAdmin.{places, Reach-places}

abbrev query : Text → Result RoleError (Option Text)
query user =
    if contains user (codes "ann" ∷ [])
    then ok (some (codes "operator"))
    else if contains user (codes "vic" ∷ [])
    then ok (some (codes " viewer "))
    else err no_rows

abbrev rotated : Rotated
rotated user =
    if contains user (codes "new" ∷ []) then some (none, some true) else some (some true, some true)

abbrev claims_of : Text → Option (Option Claims)
claims_of token =
    if contains token (codes "sse" ∷ [])
    then some (some (record { kind = some (codes "sse"); user_id = codes "ann" }))
    else some (some (record { kind = none; user_id = token }))

abbrev request : Text → Request
request token = record {
  method = codes "POST";
  route = codes "/api/refresh";
  url_path = codes "/api/refresh";
  authorization = codes "Bearer " ++ token;
  query_token = [];
}

abbrev answer : Text → Gated
answer token = serve route_scope_requirements query rotated claims_of (request token)

operator_passes : answer (codes "ann") ≡ checked next_handler
unfolding serve blox_os.Base.Text.is_space
operator_passes = refl

viewer_refused :
    answer (codes "vic") ≡ checked (insufficient_scope (codes "fleet.control") (codes "viewer"))
unfolding serve blox_os.Base.Text.is_space
viewer_refused = refl

sse_refused : answer (codes "sse") ≡ sse_token_elsewhere
unfolding serve
sse_refused = refl

new_refused : answer (codes "new") ≡ not_rotated false true
unfolding serve
new_refused = refl

has_route : is_empty (codes "/api/refresh") ≡ false
unfolding is_empty
has_route = refl

serve_sound_example :
    (is_empty (token_of (request (codes "ann"))) ≡ false)
    × ((c : Claims) × (claims_of (token_of (request (codes "ann"))) ≡ some (some c))
        × (is_sse_elsewhere c (request (codes "ann")) ≡ false)
        × Passed route_scope_requirements query rotated (request (codes "ann")) c.user_id)
serve_sound_example =
    serve_sound route_scope_requirements query rotated claims_of (request (codes "ann")) has_route
      operator_passes

abbrev refresh : Route
refresh = record { method = codes "POST"; path = codes "/api/refresh" }

abbrev login : Route
login = record { method = codes "POST"; path = codes "/api/auth/login" }

abbrev refresh_row : Text × Text
refresh_row = (route_scope_key (codes "POST") (codes "/api/refresh"), scope_fleet_control)

audit_passes : audit_rbac_route_coverage (login ∷ refresh ∷ []) (refresh_row ∷ []) ≡ none
unfolding audit_rbac_route_coverage
audit_passes = refl

audit_names :
    audit_rbac_route_coverage (login ∷ []) (refresh_row ∷ [])
    ≡ some (record { missing = []; orphans = codes "POST /api/refresh" ∷ [] })
unfolding audit_rbac_route_coverage
audit_names = refl

audit_iff_example : (audit_rbac_route_coverage (login ∷ refresh ∷ []) (refresh_row ∷ []) ≡ none) ↔ (
    All (IsCovered (refresh_row ∷ [])) (login ∷ refresh ∷ [])
    × All
        (λ (row : Text × Text). contains row.0 (registered_keys (login ∷ refresh ∷ [])) ≡ true)
        (refresh_row ∷ []))
audit_iff_example = audit_iff (login ∷ refresh ∷ []) (refresh_row ∷ [])

audit-mapped_example :
    All
      (λ (r : Route).
        is_protected r ≡ true
        → (user : Option Text)
        → permission_middleware (refresh_row ∷ []) query r.method r.path user ≢ missing_mapping)
      (login ∷ refresh ∷ [])
audit-mapped_example = audit-mapped (login ∷ refresh ∷ []) (refresh_row ∷ []) query audit_passes

abbrev body : Body
body = record {
  setup_token = codes "t0";
  username = codes " root ";
  password = codes "12345678";
  pin = codes "0000";
}

abbrev root : Admin
root = record { username = codes "root"; password_hash = codes "12345678"; pin_hash = codes "0000" }

body_accepted : check_setup some (some 0) true (codes "t0") (some body) ≡ ok root
unfolding check_setup blox_os.Base.Text.is_space
body_accepted = refl

short_pin :
    check_setup some (some 0) true (codes "t0") (some (record body { pin = codes "000" }))
    ≡ err pin_too_short
unfolding check_setup blox_os.Base.Text.is_space
short_pin = refl

-- A token file of spaces leaves no token.
blank_file :
    generate_setup_token (some 0) [] true (some (codes " ")) (some (codes "t0")) true [] ≡ []
unfolding generate_setup_token blox_os.Base.Text.is_space
blank_file = refl

-- The insert fails, the request is tried again, and another one is too late.
abbrev tried_once : Server
tried_once =
    inserting false (codes "t0") root [] (consuming (codes "t0") root (started (codes "t0")))

abbrev tried_twice : Server
tried_twice = consuming (codes "t0") root (consuming (codes "t0") root tried_once)

abbrev created : Server
created = inserting true (codes "t0") root [] tried_twice

created_one : created ≡ record { token = []; holders = []; admins = root ∷ [] }
unfolding inserting consuming
created_one = refl

first_holder :
    (consuming (codes "t0") root (started (codes "t0"))).holders ≡ ((codes "t0", root) ∷ [])
unfolding consuming
first_holder = refl

second_holder : tried_twice.holders ≡ ((codes "t0", root) ∷ [])
unfolding consuming inserting
second_holder = refl

run : Reach (started (codes "t0")) created
run =
    next
      (next
        (next
          (next (next here (consumes (codes "t0") root))
            (inserts false (codes "t0") root [] [] first_holder))
          (consumes (codes "t0") root))
        (consumes (codes "t0") root))
      (inserts true (codes "t0") root [] [] second_holder)

is_token : codes "t0" ≢ []
is_token h = cc h

Reach-places_example : (places created ≡ 1) × ((created.token ≡ codes "t0") ⊎ (created.token ≡ []))
Reach-places_example = Reach-places (codes "t0") is_token run

-- A hash is the text itself.
abbrev plain : Hashing
plain = record { fits = text_eq; hash = some }

abbrev ann : User
ann = record {
  id = codes "ann";
  username = codes "Ann";
  password_hash = codes "first-one";
  pin_hash = some (codes "0000");
  password_changed = none;
  pin_changed = some false;
  role = none;
}

abbrev new_ann : List User × Option CredentialError
new_ann =
    handle_change_password plain true true (codes "ann") (codes "first-one") (codes "second-one")
      (ann ∷ [])

new_password : new_ann.1 ≡ none
unfolding handle_change_password
new_password = refl

new_pin :
    (handle_change_pin plain true true (codes "ann") (codes "0000") (codes "4711") new_ann.0).1
    ≡ none
unfolding handle_change_pin handle_change_password
new_pin = refl

wrong_pin_kept :
    handle_change_pin plain true true (codes "ann") (codes "1111") (codes "4711") (ann ∷ [])
    ≡ (ann ∷ [], some wrong_pin)
unfolding handle_change_pin
wrong_pin_kept = refl

changes_rotate_example :
    credential_rotation_middleware
      (rotated_of
        (handle_change_pin plain true true (codes "ann") (codes "0000") (codes "4711") new_ann.0).0)
      (request (codes "ann"))
      (some (codes "ann"))
      (checked next_handler)
    ≡ checked next_handler
changes_rotate_example =
    changes_rotate plain true true true true (codes "ann") (codes "first-one") (codes "second-one")
      (codes "0000") (codes "4711") (ann ∷ []) (request (codes "ann")) (checked next_handler)
      new_password new_pin

login_wants_both :
    handle_login plain true true (some (codes "Ann", codes "first-one")) (ann ∷ [])
    ≡ ok (record {
      user_id = codes "ann";
      username = codes "Ann";
      role = codes "admin";
      scopes = scopes_for_role (codes "admin");
      password_change_required = true;
      pin_change_required = true;
    })
unfolding handle_login blox_os.Base.Text.is_space
login_wants_both = refl

viewer_scopes_sorted : scopes_for_role role_viewer ≡ (
    codes "alerts.read" ∷ codes "api_machines.read" ∷ codes "auth.self" ∷ codes "fleet.read" ∷ [])
unfolding scopes_for_role
viewer_scopes_sorted = refl
