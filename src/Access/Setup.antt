-- ===== src/Access/Setup.antt =====
-- hub/auth.go: the first administrator. Requests run side by side; the token and the user table are
-- shared. Hashing, the rate limiter and the database are arguments.
use blox_os.Base.{
  ℕ, List, [], ◌∷◌, ◌++◌, ◌≡◌, Option, none, some, Bool, true, false, not, ◌&&◌, ltb, leb,
  if◌then◌else◌, length,
}
use blox_os.Base.Text.{Text, text_eq, is_empty, trim_space, byte_length}
use blox_os.Base.Result.{Result, ok, err}

-- The body of a request.
pub record Body : Type 0 where
  pub setup_token : Text
  pub username : Text
  pub password : Text
  pub pin : Text

abbrev token_from : Text → Option Text → Bool → Text
token_from old none stored = old
token_from old (some fresh) stored = if stored then fresh else old

abbrev token_file : Text → Option Text → Option Text → Bool → Text
token_file old none random stored = token_from old random stored
token_file old (some content) random stored =
    if is_empty content then token_from old random stored else trim_space content

-- generateSetupToken, from the token before: `count` is what the query answers, `home` whether there is a
-- home directory, `file` what the token file holds, `random` the new token, `stored` whether the new
-- token could be written to the file.
unfoldable pub generate_setup_token :
    Option ℕ → Text → Bool → Option Text → Option Text → Bool → Text → Text
unfolding is_empty trim_space
generate_setup_token none env home file random stored old = old
generate_setup_token (some count) env home file random stored old =
    if ltb 0 count
    then old
    else if not (is_empty env)
    then env
    else if not home
    then old
    else token_file old file random stored

-- A user to be inserted.
pub record Admin : Type 0 where
  pub username : Text
  pub password_hash : Text
  pub pin_hash : Text

pub data SetupError : Type 0 where
  database_error already_completed rate_limited invalid_body invalid_setup_token username_required
        password_too_short pin_too_short not_hashed pin_not_hashed not_created :
      SetupError

-- validatePassword.
unfoldable pub is_long_enough : Text → Bool
unfolding byte_length
is_long_enough s = not (ltb (byte_length s) 8)

unfoldable pub all_digits : Text → Bool
all_digits [] = true
all_digits (c ∷ s) = (leb 48 c && leb c 57) && all_digits s

-- The pattern ^\d{4,}$.
unfoldable pub is_pin : Text → Bool
unfolding all_digits
is_pin s = leb 4 (length s) && all_digits s

-- The comparison under the lock.
unfoldable pub token_matches : Text → Text → Bool
unfolding text_eq is_empty
token_matches token given = not (is_empty token) && text_eq given token

abbrev hashed : Text → Option Text → Option Text → Result SetupError Admin
hashed name none pin = err not_hashed
hashed name (some p) none = err pin_not_hashed
hashed name (some p) (some q) = ok (record { username = name; password_hash = p; pin_hash = q })

-- The checks of handleSetup on a body, with the token as it is then, up to the hashes.
unfoldable pub check_body : (Text → Option Text) → Text → Body → Result SetupError Admin
unfolding token_matches trim_space is_long_enough is_pin is_empty
check_body hash token b =
    let name = trim_space b.username in
    if not (token_matches token b.setup_token)
    then err invalid_setup_token
    else if is_empty name
    then err username_required
    else if not (is_long_enough b.password)
    then err password_too_short
    else if not (is_pin b.pin)
    then err pin_too_short
    else hashed name (hash b.password) (hash b.pin)

abbrev check_bound : (Text → Option Text) → Text → Option Body → Result SetupError Admin
check_bound hash token none = err invalid_body
check_bound hash token (some b) = check_body hash token b

-- handleSetup up to the hashes; `count` is what the query answers, `body` what is bound.
unfoldable pub check_setup :
    (Text → Option Text) → Option ℕ → Bool → Text → Option Body → Result SetupError Admin
unfolding check_body
check_setup hash none allowed token body = err database_error
check_setup hash (some count) allowed token body =
    if ltb 0 count
    then err already_completed
    else if not allowed
    then err rate_limited
    else check_bound hash token body

-- The consumption under the lock: whether the token was there, and the token afterwards.
unfoldable pub consume_token : Text → Text → Bool × Text
unfolding token_matches
consume_token token given = if token_matches token given then (true, []) else (false, token)

-- restoreToken.
unfoldable pub restore_token : Text → Text → Text
unfolding is_empty
restore_token token given = if is_empty token then given else token

-- What requests share, the requests that hold the consumed token with their admin, and the admins that
-- were inserted, newest first.
pub record Server : Type 0 where
  pub token : Text
  pub holders : List (Text × Admin)
  pub admins : List Admin

abbrev taken : Text → Admin → Server → Bool × Text → Server
taken given a s (true, token) = record s { token = token; holders = (given, a) ∷ s.holders }
taken given a s (false, token) = record s { token = token }

-- A request that passed the checks consumes the token, or is refused.
unfoldable pub consuming : Text → Admin → Server → Server
unfolding consume_token
consuming given a s = taken given a s (consume_token s.token given)

-- The insert of a holder: done, or failed and the token restored.
unfoldable pub inserting : Bool → Text → Admin → List (Text × Admin) → Server → Server
unfolding restore_token
inserting true given a others s = record s { holders = others; admins = a ∷ s.admins }
inserting false given a others s = record s {
  token = restore_token s.token given;
  holders = others;
}

-- Requests side by side: each consumption and each insert is a step.
pub data Step (s : Server) : Server → Type 0 where
  consumes : (given : Text) (a : Admin) → Step s (consuming given a s)
  inserts :
      (good : Bool) (given : Text) (a : Admin) (front back : List (Text × Admin))
      → s.holders ≡ front ++ ((given, a) ∷ back)
      → Step s (inserting good given a (front ++ back) s)

pub data Reach (s : Server) : Server → Type 0 where
  here : Reach s s
  next : {t u : Server} → Reach s t → Step t u → Reach s u

-- The server after its start.
abbrev pub started : Text → Server
started token = record { token = token; holders = []; admins = [] }
