-- ===== src/Access/Roles.antt =====
-- hub/rbac.go: the roles, the scopes that each role is granted, and the scope that each route asks
-- for.
use blox_os.Base.{List, [], ◌∷◌, ◌++◌, Bool, true, false, if◌then◌else◌}
use blox_os.Base.Text.{Text, codes, text_eq}

abbrev pub role_admin : Text
role_admin = codes "admin"

abbrev pub role_operator : Text
role_operator = codes "operator"

abbrev pub role_viewer : Text
role_viewer = codes "viewer"

abbrev pub scope_auth_self : Text
scope_auth_self = codes "auth.self"

abbrev pub scope_fleet_read : Text
scope_fleet_read = codes "fleet.read"

abbrev pub scope_fleet_control : Text
scope_fleet_control = codes "fleet.control"

abbrev pub scope_fleet_metadata : Text
scope_fleet_metadata = codes "fleet.metadata"

abbrev pub scope_fleet_admin : Text
scope_fleet_admin = codes "fleet.admin"

abbrev pub scope_alerts_read : Text
scope_alerts_read = codes "alerts.read"

abbrev pub scope_alerts_ack : Text
scope_alerts_ack = codes "alerts.ack"

abbrev pub scope_alerts_admin : Text
scope_alerts_admin = codes "alerts.admin"

abbrev pub scope_api_machines_read : Text
scope_api_machines_read = codes "api_machines.read"

abbrev pub scope_api_machines_control : Text
scope_api_machines_control = codes "api_machines.control"

abbrev pub scope_api_machines_admin : Text
scope_api_machines_admin = codes "api_machines.admin"

abbrev pub scope_install_tokens_admin : Text
scope_install_tokens_admin = codes "install_tokens.admin"

abbrev pub scope_users_admin : Text
scope_users_admin = codes "users.admin"

abbrev pub scope_branding_admin : Text
scope_branding_admin = codes "branding.admin"

abbrev admin_scopes : List Text
admin_scopes =
    scope_auth_self ∷ scope_fleet_read ∷ scope_fleet_control ∷ scope_fleet_metadata
    ∷ scope_fleet_admin ∷ scope_alerts_read ∷ scope_alerts_ack ∷ scope_alerts_admin
    ∷ scope_api_machines_read ∷ scope_api_machines_control ∷ scope_api_machines_admin
    ∷ scope_install_tokens_admin ∷ scope_users_admin ∷ scope_branding_admin ∷ []

abbrev operator_scopes : List Text
operator_scopes =
    scope_auth_self ∷ scope_fleet_read ∷ scope_fleet_control ∷ scope_fleet_metadata
    ∷ scope_alerts_read ∷ scope_alerts_ack ∷ scope_api_machines_read ∷ scope_api_machines_control
    ∷ []

abbrev viewer_scopes : List Text
viewer_scopes =
    scope_auth_self ∷ scope_fleet_read ∷ scope_alerts_read ∷ scope_api_machines_read ∷ []

-- roleScopes: a role that is not in the map has no scopes.
unfoldable pub role_scopes : Text → List Text
unfolding text_eq
role_scopes role =
    if text_eq role role_admin
    then admin_scopes
    else if text_eq role role_operator
    then operator_scopes
    else if text_eq role role_viewer
    then viewer_scopes
    else []

-- slices.Contains.
unfoldable pub contains : Text → List Text → Bool
contains s [] = false
contains s (t ∷ ts) = let rest = contains s ts in if text_eq t s then true else rest

-- roleHasScope.
unfoldable pub role_has_scope : Text → Text → Bool
unfolding contains role_scopes
role_has_scope role scope = contains scope (role_scopes role)

-- routeScopeKey.
unfoldable pub route_scope_key : Text → Text → Text
route_scope_key method path = method ++ (32 ∷ path)

abbrev get_method : Text
get_method = codes "GET"

abbrev post_method : Text
post_method = codes "POST"

abbrev put_method : Text
put_method = codes "PUT"

abbrev patch_method : Text
patch_method = codes "PATCH"

abbrev delete_method : Text
delete_method = codes "DELETE"

-- A route with the scope that it asks for.
abbrev needs : Text → Text → Text → Text × Text
needs method path scope = (route_scope_key method path, scope)

-- routeScopeRequirements.
abbrev pub route_scope_requirements : List (Text × Text)
route_scope_requirements =
    needs get_method (codes "/api/events") scope_fleet_read
    ∷ needs get_method (codes "/api/inventory") scope_fleet_read
    ∷ needs get_method (codes "/api/system/update") scope_fleet_admin
    ∷ needs post_method (codes "/api/system/update") scope_fleet_admin
    ∷ needs get_method (codes "/api/ai-sessions") scope_fleet_read
    ∷ needs patch_method (codes "/api/ai-sessions/settings") scope_fleet_admin
    ∷ needs get_method (codes "/api/machines") scope_fleet_read
    ∷ needs get_method (codes "/api/machines/:id") scope_fleet_read
    ∷ needs get_method (codes "/api/machines/:id/services") scope_fleet_read
    ∷ needs get_method (codes "/api/machines/:id/containers") scope_fleet_read
    ∷ needs get_method (codes "/api/machines/:id/metrics/history") scope_fleet_read
    ∷ needs get_method (codes "/api/machines/:id/power/history") scope_fleet_read
    ∷ needs post_method (codes "/api/machines/:id/command") scope_fleet_control
    ∷ needs post_method (codes "/api/machines/:id/refresh") scope_fleet_control
    ∷ needs post_method (codes "/api/refresh") scope_fleet_control
    ∷ needs get_method (codes "/api/versions") scope_fleet_read
    ∷ needs post_method (codes "/api/versions/pause") scope_fleet_admin
    ∷ needs post_method (codes "/api/versions/resume") scope_fleet_admin
    ∷ needs put_method (codes "/api/machines/:id/tags") scope_fleet_metadata
    ∷ needs get_method (codes "/api/machines/:id/notes") scope_fleet_read
    ∷ needs put_method (codes "/api/machines/:id/notes") scope_fleet_metadata
    ∷ needs delete_method (codes "/api/machines/:id/credential") scope_fleet_admin
    ∷ needs post_method (codes "/api/machines/:id/windows-re-enrollment") scope_fleet_admin
    ∷ needs delete_method (codes "/api/machines/:id") scope_fleet_admin
    ∷ needs post_method (codes "/api/machines/:id/terminal") scope_fleet_control
    ∷ needs delete_method (codes "/api/machines/:id/terminal/:session_id") scope_fleet_control
    ∷ needs get_method (codes "/api/alerts") scope_alerts_read
    ∷ needs get_method (codes "/api/alerts/active/count") scope_alerts_read
    ∷ needs post_method (codes "/api/alerts/:id/acknowledge") scope_alerts_ack
    ∷ needs get_method (codes "/api/alert-rules") scope_alerts_read
    ∷ needs put_method (codes "/api/alert-rules/:id") scope_alerts_admin
    ∷ needs post_method (codes "/api/auth/change-password") scope_auth_self
    ∷ needs post_method (codes "/api/auth/change-pin") scope_auth_self
    ∷ needs post_method (codes "/api/auth/sse-token") scope_auth_self
    ∷ needs post_method (codes "/api/tokens") scope_install_tokens_admin
    ∷ needs post_method (codes "/api/bulk/command") scope_fleet_control
    ∷ needs get_method (codes "/api/api-machines") scope_api_machines_read
    ∷ needs post_method (codes "/api/api-machines") scope_api_machines_admin
    ∷ needs patch_method (codes "/api/api-machines/:id") scope_api_machines_admin
    ∷ needs delete_method (codes "/api/api-machines/:id") scope_api_machines_admin
    ∷ needs post_method (codes "/api/api-machines/:id/poll") scope_api_machines_control
    ∷ needs get_method (codes "/api/users") scope_users_admin
    ∷ needs post_method (codes "/api/users") scope_users_admin
    ∷ needs patch_method (codes "/api/users/:id") scope_users_admin
    ∷ needs delete_method (codes "/api/users/:id") scope_users_admin
    ∷ needs patch_method (codes "/api/branding") scope_branding_admin
    ∷ needs post_method (codes "/api/branding/logo") scope_branding_admin
    ∷ needs post_method (codes "/api/branding/favicon") scope_branding_admin
    ∷ needs delete_method (codes "/api/branding/:kind") scope_branding_admin
    ∷ needs get_method (codes "/api/me/theme") scope_auth_self
    ∷ needs patch_method (codes "/api/me/theme") scope_auth_self
    ∷ needs get_method (codes "/api/me/preferences") scope_auth_self
    ∷ needs patch_method (codes "/api/me/preferences") scope_auth_self
    ∷ needs post_method (codes "/api/me/avatar") scope_auth_self
    ∷ needs delete_method (codes "/api/me/avatar") scope_auth_self
    ∷ needs get_method (codes "/api/users/:user_id/avatar") scope_auth_self
    ∷ needs post_method (codes "/api/me/pinned/:machine_id") scope_auth_self
    ∷ needs delete_method (codes "/api/me/pinned/:machine_id") scope_auth_self
    ∷ needs get_method (codes "/api/me/filters") scope_auth_self
    ∷ needs post_method (codes "/api/me/filters") scope_auth_self
    ∷ needs delete_method (codes "/api/me/filters/:id") scope_auth_self
    ∷ needs get_method (codes "/api/fleet/power/history") scope_fleet_read
    ∷ needs get_method (codes "/api/fleet/power/current") scope_fleet_read
    ∷ []

-- publicAPIRoutes.
abbrev pub public_api_routes : List Text
public_api_routes =
    route_scope_key post_method (codes "/api/auth/login")
    ∷ route_scope_key get_method (codes "/api/build-info")
    ∷ route_scope_key get_method (codes "/api/setup/status")
    ∷ route_scope_key post_method (codes "/api/setup")
    ∷ route_scope_key get_method (codes "/api/branding")
    ∷ route_scope_key get_method (codes "/api/branding/logo")
    ∷ route_scope_key get_method (codes "/api/branding/favicon")
    ∷ route_scope_key get_method (codes "/api/join/:code")
    ∷ []
