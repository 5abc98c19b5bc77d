-- ===== src/Access/Credentials.antt =====
-- hub/auth.go: the login and the changes of password and terminal PIN, over the rows of the user table.
-- bcrypt, the rate limiter and the signing of a token are arguments.
use blox_os.Base.{
  List, [], ◌∷◌, Option, none, some, Bool, true, false, not, ◌&&◌, ◌||◌, ltb, if◌then◌else◌, ◌==◌,
}
use blox_os.Base.Text.{Text, text_eq, is_empty, byte_length}
use blox_os.Base.Result.{Result, ok, err}
use blox_os.Base.Table.{find_where, update_where}
use blox_os.Access.Roles.{role_admin, role_scopes}
use blox_os.Access.Permission.{normalize_user_role}
use blox_os.Access.Gate.{is_set}
use blox_os.Access.Setup.{is_long_enough}

-- A row of users.
pub record User : Type 0 where
  pub id : Text
  pub username : Text
  pub password_hash : Text
  pub pin_hash : Option Text
  pub password_changed : Option Bool
  pub pin_changed : Option Bool
  pub role : Option Text

abbrev pub has_id : Text → User → Bool
has_id id u = text_eq u.id id

abbrev has_name : Text → User → Bool
has_name name u = text_eq u.username name

-- bcrypt: whether a password fits a hash, and the hash of a new one, if it can be made.
pub record Hashing : Type 0 where
  pub fits : Text → Text → Bool
  pub hash : Text → Option Text

pub data CredentialError : Type 0 where
  password_too_short pin_too_short no_user rate_limited user_not_found wrong_password wrong_pin
        not_hashed not_updated :
      CredentialError

-- verifyTerminalPIN, of the user's row.
unfoldable pub pin_fits : Hashing → Text → Option Text → Bool
unfolding is_empty
pin_fits h pin none = false
pin_fits h pin (some stored) = not (is_empty stored) && h.fits stored pin

abbrev user_pin_fits : Hashing → Text → Option User → Bool
user_pin_fits h pin none = false
user_pin_fits h pin (some u) = pin_fits h pin u.pin_hash

unfoldable pub verify_terminal_pin : Hashing → Text → Text → List User → Bool
unfolding pin_fits find_where text_eq is_empty
verify_terminal_pin h user pin users =
    not (is_empty user) && user_pin_fits h pin (find_where (has_id user) users)

abbrev pub with_password : Text → User → User
with_password hash u = record u { password_hash = hash; password_changed = some true }

abbrev pub with_pin : Text → User → User
with_pin hash u = record u { pin_hash = some hash; pin_changed = some true }

-- The UPDATE of a user's row; `stored` is whether it succeeds.
abbrev pub store : Bool → Text → (User → User) → List User → List User × Option CredentialError
store true user change users = (update_where (has_id user) change users, none)
store false user change users = (users, some not_updated)

abbrev pub store_password :
    Bool → Text → Option Text → List User → List User × Option CredentialError
store_password stored user none users = (users, some not_hashed)
store_password stored user (some new) users = store stored user (with_password new) users

abbrev pub store_pin : Bool → Text → Option Text → List User → List User × Option CredentialError
store_pin stored user none users = (users, some not_hashed)
store_pin stored user (some new) users = store stored user (with_pin new) users

abbrev pub check_password :
    Hashing
    → Bool
    → Text
    → Text
    → Text
    → Option User
    → List User
    → List User × Option CredentialError
check_password h stored user current new none users = (users, some user_not_found)
check_password h stored user current new (some u) users =
    if not (h.fits u.password_hash current)
    then (users, some wrong_password)
    else store_password stored user (h.hash new) users

-- handleChangePassword, with the user id of the request, empty if there is none.
unfoldable pub handle_change_password :
    Hashing → Bool → Bool → Text → Text → Text → List User → List User × Option CredentialError
unfolding is_long_enough is_empty find_where update_where text_eq
handle_change_password h allowed stored user current new users =
    if not (is_long_enough new)
    then (users, some password_too_short)
    else if is_empty user
    then (users, some no_user)
    else if not allowed
    then (users, some rate_limited)
    else check_password h stored user current new (find_where (has_id user) users) users

-- handleChangePIN.
unfoldable pub handle_change_pin :
    Hashing → Bool → Bool → Text → Text → Text → List User → List User × Option CredentialError
unfolding byte_length is_empty verify_terminal_pin update_where
handle_change_pin h allowed stored user current new users =
    if is_empty new || ltb (byte_length new) 4
    then (users, some pin_too_short)
    else if is_empty user
    then (users, some no_user)
    else if not allowed
    then (users, some rate_limited)
    else if not (verify_terminal_pin h user current users)
    then (users, some wrong_pin)
    else store_pin stored user (h.hash new) users

-- strings are ordered by their bytes, and so by their code points.
unfoldable pub text_leb : Text → Text → Bool
text_leb [] t = true
text_leb (c ∷ s) [] = false
text_leb (c ∷ s) (d ∷ t) = let rest = text_leb s t in if c == d then rest else ltb c d

unfoldable pub insert_text : Text → List Text → List Text
unfolding text_leb
insert_text s [] = s ∷ []
insert_text s (t ∷ ts) =
    let rest = insert_text s ts in if text_leb s t then s ∷ t ∷ ts else t ∷ rest

-- slices.Sort.
unfoldable pub sort_texts : List Text → List Text
unfolding insert_text
sort_texts [] = []
sort_texts (s ∷ ts) = insert_text s (sort_texts ts)

-- scopesForRole.
unfoldable pub scopes_for_role : Text → List Text
unfolding sort_texts role_scopes
scopes_for_role role = sort_texts (role_scopes role)

-- What the token names, and what the answer says besides.
pub record Session : Type 0 where
  pub user_id : Text
  pub username : Text
  pub role : Text
  pub scopes : List Text
  pub password_change_required : Bool
  pub pin_change_required : Bool

pub data LoginError : Type 0 where
  too_many invalid_body invalid_credentials database_error invalid_user_role not_signed : LoginError

abbrev pub raw_role : User → Text
raw_role u = elim u.role [ none ↦ role_admin | some r ↦ r ]

abbrev pub session_for : User → Text → Session
session_for u role = record {
  user_id = u.id;
  username = u.username;
  role = role;
  scopes = scopes_for_role role;
  password_change_required = not (is_set u.password_changed);
  pin_change_required = not (is_set u.pin_changed);
}

abbrev pub login_as : Hashing → Bool → Text → User → Option Text → Result LoginError Session
login_as h signed password u none = err invalid_user_role
login_as h signed password u (some role) =
    if not (h.fits u.password_hash password)
    then err invalid_credentials
    else if not signed
    then err not_signed
    else ok (session_for u role)

abbrev pub login_row : Hashing → Bool → Text → Option User → Result LoginError Session
login_row h signed password none = err invalid_credentials
login_row h signed password (some u) =
    login_as h signed password u (normalize_user_role (raw_role u))

abbrev pub login_bound :
    Hashing → Bool → Option (Text × Text) → List User → Result LoginError Session
login_bound h signed none users = err invalid_body
login_bound h signed (some (username, password)) users =
    login_row h signed password (find_where (has_name username) users)

-- handleLogin: the user name and the password of the body, if it is bound.
unfoldable pub handle_login :
    Hashing → Bool → Bool → Option (Text × Text) → List User → Result LoginError Session
unfolding normalize_user_role find_where text_eq scopes_for_role
handle_login h allowed signed body users =
    if not allowed then err too_many else login_bound h signed body users
