-- ===== src/Access/Gate.antt =====
-- hub/auth.go: the checks that a request passes before the handler of a protected route: the token, the
-- rotation of the first credentials, and then the scope. Verifying a token's signature and expiry is
-- an argument.
use blox_os.Base.{
  List, [], ◌∷◌, Option, none, some, Bool, false, not, ◌&&◌, ◌||◌, if◌then◌else◌, drop,
}
use blox_os.Base.Text.{Text, codes, text_eq, is_empty, has_prefix}
use blox_os.Base.Result.{Result}
use blox_os.Access.Roles.{contains}
use blox_os.Access.Permission.{RoleError, Permitted, permission_middleware}

-- The claims of a token, where it has any of the expected kind: the type if it is a text, and the user
-- id, empty if it is no text.
pub record Claims : Type 0 where
  pub kind : Option Text
  pub user_id : Text

pub record Request : Type 0 where
  pub method : Text
  pub route : Text
  pub url_path : Text
  pub authorization : Text
  pub query_token : Text

-- What the chain answers.
pub data Gated : Type 0 where
  missing_token invalid_token sse_token_elsewhere : Gated
  not_rotated : Bool → Bool → Gated
  checked : Permitted → Gated

abbrev bearer : Text
bearer = codes "Bearer "

-- The token of the header, or else of the query.
unfoldable pub token_of : Request → Text
unfolding has_prefix is_empty drop
token_of r =
    let given = if has_prefix bearer r.authorization then drop 7 r.authorization else [] in
    if is_empty given then r.query_token else given

abbrev pub events_path : Text
events_path = codes "/api/events"

abbrev is_sse : Option Text → Bool
is_sse none = false
is_sse (some kind) = text_eq kind (codes "sse")

-- A token of the event stream is for one path only.
unfoldable pub is_sse_elsewhere : Claims → Request → Bool
unfolding text_eq
is_sse_elsewhere c r = is_sse c.kind && not (text_eq r.url_path events_path)

-- rotationAllowlist.
abbrev pub rotation_allowlist : List Text
rotation_allowlist =
    codes "/api/auth/login"
    ∷ codes "/api/auth/change-password"
    ∷ codes "/api/auth/change-pin"
    ∷ codes "/api/auth/sse-token"
    ∷ codes "/health"
    ∷ []

-- The columns password_changed and pin_changed of a user, where the query succeeds; NULL is no.
abbrev pub Rotated : Type 0
Rotated = Text → Option (Option Bool × Option Bool)

abbrev pub is_set : Option Bool → Bool
is_set none = false
is_set (some b) = b

abbrev pub rotation_answer : Option (Option Bool × Option Bool) → Gated → Gated
rotation_answer none next = next
rotation_answer (some (password, pin)) next =
    if not (is_set password) || not (is_set pin)
    then not_rotated (is_set password) (is_set pin)
    else next

abbrev pub rotation_of : Rotated → Option Text → Gated → Gated
rotation_of rotated none next = next
rotation_of rotated (some user) next =
    if is_empty user then next else rotation_answer (rotated user) next

-- credentialRotationMiddleware, before `next`.
unfoldable pub credential_rotation_middleware : Rotated → Request → Option Text → Gated → Gated
unfolding contains is_empty
credential_rotation_middleware rotated r user next =
    if contains r.url_path rotation_allowlist then next else rotation_of rotated user next

module _ (requirements : List (Text × Text)) (query : Text → Result RoleError (Option Text))
    (rotated : Rotated) where
  -- The two checks after the token, with the user id that the context has.
  unfoldable pub after_token : Request → Option Text → Gated
  unfolding credential_rotation_middleware permission_middleware
  after_token r user =
      credential_rotation_middleware rotated r user
        (checked (permission_middleware requirements query r.method r.route user))

  abbrev pub after_claims : Request → Option Claims → Gated
  after_claims r none = after_token r none
  after_claims r (some c) =
      if is_sse_elsewhere c r then sse_token_elsewhere else after_token r (some c.user_id)

  abbrev pub after_verify : Request → Option (Option Claims) → Gated
  after_verify r none = invalid_token
  after_verify r (some claims) = after_claims r claims

  -- jwtMiddleware, credentialRotationMiddleware and permissionMiddleware, in the order in which the
  -- server installs them. `verify` is jwt.Parse with the secret and the signing method: the claims of a
  -- valid token, if it has claims.
  unfoldable pub serve : (Text → Option (Option Claims)) → Request → Gated
  unfolding token_of is_sse_elsewhere after_token
  serve verify r =
      if is_empty (token_of r) then missing_token else after_verify r (verify (token_of r))
