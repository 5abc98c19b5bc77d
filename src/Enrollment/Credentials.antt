-- ===== src/Enrollment/Credentials.antt =====
-- hub/agentws.go: a token is exchanged for the first credential of a machine, or stages a new one beside
-- the credential that it has; the staged one is promoted when the agent has shown that it holds it.
use blox_os.Base.{ℕ, ◌+◌, ◌*◌, ◌/◌, ◌∷◌, Option, none, some, Bool, true, false, not, if◌then◌else◌}
use blox_os.Base.Text.{Text, text_eq}
use blox_os.Base.Table.{find_where, update_where, delete_where}
use blox_os.Enrollment.Tokens.{
  Token, Credential, Store, TokenError, check_token_expiry, is_fresh, use_token,
}

pub data EnrollError : Type 0 where
  already_consumed bound_elsewhere has_credential not_bound no_credential : EnrollError
  bad_expiry : TokenError → EnrollError

abbrev pub is_machine : Text → Credential → Bool
is_machine m c = text_eq c.machine m

-- The target allows the machine: a token that is bound to no machine allows every one.
abbrev pub allows : Text → Option Text → Bool
allows m none = true
allows m (some t) = text_eq t m

abbrev pub binds : Text → Option Text → Bool
binds m none = false
binds m (some t) = text_eq t m

abbrev pub first_credential : Text → Text → Credential
first_credential m secret = record { machine = m; active = secret; pending = none; deadline = none }

abbrev pub store_first : Text → Text → Text → Store → Option Credential → Store × Option EnrollError
store_first h m secret db (some c) = (db, some has_credential)
store_first h m secret db none = (
  record {
    tokens = use_token h db.tokens;
    credentials = first_credential m secret ∷ db.credentials;
  },
  none,
)

abbrev pub consume_checked :
    Text → Text → Text → Store → Option Text → Option TokenError → Store × Option EnrollError
consume_checked h m secret db target (some e) = (db, some (bad_expiry e))
consume_checked h m secret db target none =
    if not (allows m target)
    then (db, some bound_elsewhere)
    else store_first h m secret db (find_where (is_machine m) db.credentials)

abbrev pub consume_found :
    ℕ → Text → Text → Text → Store → Option Token → Store × Option EnrollError
consume_found now h m secret db none = (db, some already_consumed)
consume_found now h m secret db (some t) =
    consume_checked h m secret db t.target (check_token_expiry now t.expires)

-- consumeTokenAndStoreCredential, a transaction.
unfoldable pub consume_token_and_store_credential :
    ℕ → Text → Text → Text → Store → Store × Option EnrollError
unfolding find_where text_eq check_token_expiry use_token
consume_token_and_store_credential now h m secret db =
    consume_found now h m secret db (find_where (is_fresh h) db.tokens)

-- pendingCredentialWindow, in milliseconds.
abbrev pub pending_credential_window : ℕ
pending_credential_window = 300000

-- The deadline as its text reads: whole seconds.
unfoldable pub deadline_at : ℕ → ℕ
deadline_at now = ((now + pending_credential_window) / 1000) * 1000

abbrev pub staged : ℕ → Text → Credential → Credential
staged now secret c = record c { pending = some secret; deadline = some (some (deadline_at now)) }

abbrev pub stage_beside :
    ℕ → Text → Text → Text → Store → Option Credential → Store × Option EnrollError
stage_beside now h m secret db none = (db, some no_credential)
stage_beside now h m secret db (some c) = (
  record {
    tokens = use_token h db.tokens;
    credentials = update_where (is_machine m) (staged now secret) db.credentials;
  },
  none,
)

abbrev pub stage_checked :
    ℕ → Text → Text → Text → Store → Option Text → Option TokenError → Store × Option EnrollError
stage_checked now h m secret db target (some e) = (db, some (bad_expiry e))
stage_checked now h m secret db target none =
    if not (binds m target)
    then (db, some not_bound)
    else stage_beside now h m secret db (find_where (is_machine m) db.credentials)

abbrev pub stage_found : ℕ → Text → Text → Text → Store → Option Token → Store × Option EnrollError
stage_found now h m secret db none = (db, some already_consumed)
stage_found now h m secret db (some t) =
    stage_checked now h m secret db t.target (check_token_expiry now t.expires)

-- stageTargetedCredential, a transaction.
unfoldable pub stage_targeted_credential :
    ℕ → Text → Text → Text → Store → Store × Option EnrollError
unfolding find_where text_eq check_token_expiry use_token update_where deadline_at
stage_targeted_credential now h m secret db =
    stage_found now h m secret db (find_where (is_fresh h) db.tokens)

-- revokeAgentCredential.
unfoldable pub revoke_agent_credential : Text → Store → Store
unfolding delete_where text_eq
revoke_agent_credential m db = record db {
  credentials = delete_where (is_machine m) db.credentials;
}
