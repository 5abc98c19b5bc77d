-- ===== src/Enrollment/Tokens.antt =====
-- hub/agentws.go: the rows of tokens and agent_credentials, and the checks of an install token. SHA-256 is
-- an argument. Times are unix milliseconds. A database error ends an operation with nothing written.
use blox_os.Base.{
  ℕ, List, ◌∷◌, Option, none, some, Bool, true, false, not, ◌&&◌, ltb, if◌then◌else◌,
}
use blox_os.Base.Text.{Text, text_eq}
use blox_os.Base.Table.{find_where, update_where, delete_where}
use blox_os.Base.Result.{Result, ok, err}

-- A row of tokens; the expiry is what parseTokenExpiry makes of its text, if it can.
pub record Token : Type 0 where
  pub hash : Text
  pub expires : Option ℕ
  pub used : Bool
  pub target : Option Text

-- A row of agent_credentials. The deadline of the pending secret is NULL, a text that does not parse, or
-- a time.
pub record Credential : Type 0 where
  pub machine : Text
  pub active : Text
  pub pending : Option Text
  pub deadline : Option (Option ℕ)

pub record Store : Type 0 where
  pub tokens : List Token
  pub credentials : List Credential

pub data TokenError : Type 0 where
  invalid_token already_used invalid_expiry expired : TokenError

-- checkTokenExpiry.
unfoldable pub check_token_expiry : ℕ → Option ℕ → Option TokenError
check_token_expiry now none = some invalid_expiry
check_token_expiry now (some t) = if ltb t now then some expired else none

abbrev pub has_hash : Text → Token → Bool
has_hash h t = text_eq t.hash h

abbrev pub is_fresh : Text → Token → Bool
is_fresh h t = text_eq t.hash h && not t.used

abbrev token_checked :
    Text → Option Text → Option TokenError → Result TokenError (Text × Option Text)
token_checked h target (some e) = err e
token_checked h target none = ok (h, target)

abbrev token_found : ℕ → Text → Option Token → Result TokenError (Text × Option Text)
token_found now h none = err invalid_token
token_found now h (some t) =
    if t.used then err already_used else token_checked h t.target (check_token_expiry now t.expires)

-- validateAgentToken: the hash of the token, and the machine that it is bound to.
unfoldable pub validate_agent_token :
    (Text → Text) → ℕ → Text → Store → Result TokenError (Text × Option Text)
unfolding check_token_expiry find_where text_eq
validate_agent_token sha now token db =
    token_found now (sha token) (find_where (has_hash (sha token)) db.tokens)

abbrev pub is_expired : ℕ → Token → Bool
is_expired now t = elim t.expires [ none ↦ false | some e ↦ ltb e now ]

-- deleteExpiredTokens: a row whose expiry does not parse is left.
unfoldable pub delete_expired_tokens : ℕ → Store → Store
unfolding delete_where
delete_expired_tokens now db = record db { tokens = delete_where (is_expired now) db.tokens }

-- handleCreateToken and handleWindowsReenrollment: the row of a new token.
unfoldable pub add_token : Text → ℕ → Option Text → Store → Store
add_token h expires target db = record db {
  tokens = record { hash = h; expires = some expires; used = false; target = target } ∷ db.tokens;
}

-- UPDATE tokens SET used = TRUE.
unfoldable pub use_token : Text → List Token → List Token
unfolding update_where text_eq
use_token h = update_where (is_fresh h) (λ t. record t { used = true })
