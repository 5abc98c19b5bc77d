-- ===== src/Access/Permission.antt =====
-- hub/rbac.go: the check that stands before every handler. What the database answers for a user is an
-- argument.
use blox_os.Base.{List, [], ◌∷◌, Option, none, some, if◌then◌else◌}
use blox_os.Base.Text.{Text, text_eq, trim_space, is_empty}
use blox_os.Base.Result.{Result, ok, err, ◌>>=◌}
use blox_os.Access.Roles.{role_admin, role_operator, role_viewer, role_has_scope, route_scope_key}

pub data RoleError : Type 0 where
  no_rows query_failed : RoleError
  invalid_role : Text → RoleError

-- normalizeUserRole.
unfoldable pub normalize_user_role : Text → Option Text
unfolding text_eq trim_space
normalize_user_role raw =
    let r = trim_space raw in
    if is_empty r
    then some role_admin
    else if text_eq r role_admin
    then some role_admin
    else if text_eq r role_operator
    then some role_operator
    else if text_eq r role_viewer
    then some role_viewer
    else none

-- The column of a user's row: COALESCE(role, 'admin').
abbrev coalesced : Option Text → Text
coalesced none = role_admin
coalesced (some role) = role

abbrev valid_role : Text → Option Text → Result RoleError Text
valid_role raw none = err (invalid_role raw)
valid_role raw (some role) = ok role

-- lookupUserRole, of what the query answers.
unfoldable pub lookup_user_role : Result RoleError (Option Text) → Result RoleError Text
unfolding normalize_user_role
lookup_user_role answer = do
  role ← answer
  valid_role (coalesced role) (normalize_user_role (coalesced role))

-- The scope of a key in a map.
unfoldable pub find_scope : Text → List (Text × Text) → Option Text
unfolding text_eq
find_scope key [] = none
find_scope key ((k, scope) ∷ rows) =
    let rest = find_scope key rows in if text_eq k key then some scope else rest

-- What permissionMiddleware answers: the next handler, or one of its errors.
pub data Permitted : Type 0 where
  next_handler missing_mapping missing_user user_not_found database_error : Permitted
  insufficient_scope : Text → Text → Permitted

abbrev pub permit_role : Text → Result RoleError Text → Permitted
permit_role scope (err no_rows) = user_not_found
permit_role scope (err query_failed) = database_error
permit_role scope (err (invalid_role raw)) = database_error
permit_role scope (ok role) =
    if role_has_scope role scope then next_handler else insufficient_scope scope role

-- The user id of the claims, if the context has claims.
abbrev pub permit_user : (Text → Result RoleError (Option Text)) → Text → Option Text → Permitted
permit_user query scope none = missing_user
permit_user query scope (some user) =
    if is_empty user then missing_user else permit_role scope (lookup_user_role (query user))

abbrev pub permit_scope :
    (Text → Result RoleError (Option Text)) → Option Text → Option Text → Permitted
permit_scope query none claims = missing_mapping
permit_scope query (some scope) claims = permit_user query scope claims

-- permissionMiddleware: `path` is the registered path of the route, empty if there is none.
unfoldable pub permission_middleware :
    List (Text × Text)
    → (Text → Result RoleError (Option Text))
    → Text
    → Text
    → Option Text
    → Permitted
unfolding find_scope lookup_user_role role_has_scope route_scope_key is_empty
permission_middleware requirements query method path claims =
    if is_empty path
    then next_handler
    else permit_scope query (find_scope (route_scope_key method path) requirements) claims
