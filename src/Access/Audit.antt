-- ===== src/Access/Audit.antt =====
-- hub/rbac.go: the audit at startup, of the routes that are registered against the map of scopes.
use blox_os.Base.{List, [], ◌∷◌, Option, none, some, Bool, true, false, not, ◌&&◌, if◌then◌else◌}
use blox_os.Base.Text.{Text, codes, has_prefix}
use blox_os.Access.Roles.{contains, route_scope_key, public_api_routes}
use blox_os.Access.Permission.{find_scope}

-- A route of the server.
pub record Route : Type 0 where
  pub method : Text
  pub path : Text

abbrev pub key_of : Route → Text
key_of r = route_scope_key r.method r.path

abbrev api_prefix : Text
api_prefix = codes "/api/"

-- A route that the audit looks at.
unfoldable pub is_protected : Route → Bool
unfolding has_prefix contains route_scope_key
is_protected r = has_prefix api_prefix r.path && not (contains (key_of r) public_api_routes)

-- The keys of the protected routes.
unfoldable pub registered_keys : List Route → List Text
unfolding is_protected
registered_keys [] = []
registered_keys (r ∷ rs) =
    let rest = registered_keys rs in if is_protected r then key_of r ∷ rest else rest

abbrev pub is_missing : Option Text → Bool
is_missing none = true
is_missing (some scope) = false

-- The keys without a scope.
unfoldable pub missing_keys : List (Text × Text) → List Text → List Text
unfolding find_scope
missing_keys requirements [] = []
missing_keys requirements (k ∷ ks) =
    let rest = missing_keys requirements ks in
    if is_missing (find_scope k requirements) then k ∷ rest else rest

-- The keys of the map that no route has.
unfoldable pub orphan_keys : List Text → List (Text × Text) → List Text
unfolding contains
orphan_keys registered [] = []
orphan_keys registered ((k, scope) ∷ rows) =
    let rest = orphan_keys registered rows in if contains k registered then rest else k ∷ rest

-- The keys that the error names; the message sorts them.
pub record AuditError : Type 0 where
  pub missing : List Text
  pub orphans : List Text

abbrev pub audit_error : List Text → List Text → Option AuditError
audit_error [] [] = none
audit_error [] (k ∷ ks) = some (record { missing = []; orphans = k ∷ ks })
audit_error (k ∷ ks) os = some (record { missing = k ∷ ks; orphans = os })

-- auditRBACRouteCoverage.
unfoldable pub audit_rbac_route_coverage : List Route → List (Text × Text) → Option AuditError
unfolding registered_keys missing_keys orphan_keys
audit_rbac_route_coverage routes requirements =
    let registered = registered_keys routes in
    audit_error (missing_keys requirements registered) (orphan_keys registered requirements)
