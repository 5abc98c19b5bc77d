-- ===== src/Enrollment/Secrets.antt =====
-- hub/agentws.go: the promotion of a pending secret, and the secret that an agent presents. The hub's
-- clock and the database's are read separately.
use blox_os.Base.{ℕ, Option, none, some, Bool, true, false, not, ltb, if◌then◌else◌}
use blox_os.Base.Text.{Text, text_eq}
use blox_os.Base.Table.{find_where, update_where}
use blox_os.Enrollment.Tokens.{Credential, Store}
use blox_os.Enrollment.Credentials.{is_machine}

abbrev pub is_secret : Text → Option Text → Bool
is_secret s none = false
is_secret s (some t) = text_eq t s

abbrev pub cleared : Credential → Credential
cleared c = record c { pending = none; deadline = none }

abbrev pub promoted : Text → Credential → Credential
promoted secret c = record c { active = secret; pending = none; deadline = none }

abbrev pub change_row : Text → (Credential → Credential) → Store → Store
change_row m f db = record db { credentials = update_where (is_machine m) f db.credentials }

-- The deadline of the row: the pending secret is cleared where there is none, where it does not parse or
-- where it has passed for the hub; it is promoted where it has not passed for the database either.
abbrev pub promote_before : ℕ → ℕ → Text → Text → Store → Option (Option ℕ) → Store × Bool
promote_before hub_now db_now m secret db none = (change_row m cleared db, false)
promote_before hub_now db_now m secret db (some none) = (change_row m cleared db, false)
promote_before hub_now db_now m secret db (some (some t)) =
    if not (ltb hub_now t)
    then (change_row m cleared db, false)
    else if ltb db_now t
    then (change_row m (promoted secret) db, true)
    else (db, false)

abbrev pub promote_row : ℕ → ℕ → Text → Text → Store → Option Credential → Store × Bool
promote_row hub_now db_now m secret db none = (db, false)
promote_row hub_now db_now m secret db (some c) =
    if not (is_secret secret c.pending)
    then (db, false)
    else promote_before hub_now db_now m secret db c.deadline

-- promotePendingCredentialCASAt, a transaction: the row that is read is the row that is written.
unfoldable pub promote_pending_credential_cas : ℕ → ℕ → Text → Text → Store → Store × Bool
unfolding find_where update_where text_eq
promote_pending_credential_cas hub_now db_now m secret db =
    promote_row hub_now db_now m secret db (find_where (is_machine m) db.credentials)

abbrev pub has_active : Text → Credential → Bool
has_active s c = text_eq c.active s

abbrev pub has_pending : Text → Credential → Bool
has_pending s c = is_secret s c.pending

abbrev pub machine_of : Option Credential → Option Text
machine_of none = none
machine_of (some c) = some c.machine

-- lookupActiveCredential.
unfoldable pub lookup_active_credential : Text → Store → Option Text
unfolding find_where text_eq
lookup_active_credential s db = machine_of (find_where (has_active s) db.credentials)

-- The machine, and whether this call promoted its pending secret; none is an invalid secret.
abbrev pub Validated : Type 0
Validated = Store × Option (Text × Bool)

abbrev pub validate_again : Text → Text → Store × Bool → Validated
validate_again m s (db, true) = (db, some (m, true))
validate_again m s (db, false) =
    (db, elim (lookup_active_credential s db) [ none ↦ none | some n ↦ some (n, false) ])

abbrev pub validate_pending : ℕ → ℕ → Text → Store → Option Credential → Validated
validate_pending hub_now db_now s db none = (db, none)
validate_pending hub_now db_now s db (some c) =
    validate_again c.machine s (promote_pending_credential_cas hub_now db_now c.machine s db)

abbrev pub validate_active : ℕ → ℕ → Text → Store → Option Text → Validated
validate_active hub_now db_now s db (some m) = (db, some (m, false))
validate_active hub_now db_now s db none =
    validate_pending hub_now db_now s db (find_where (has_pending s) db.credentials)

-- validateAgentSecret.
unfoldable pub validate_agent_secret : (Text → Text) → ℕ → ℕ → Text → Store → Validated
unfolding lookup_active_credential promote_pending_credential_cas find_where text_eq
validate_agent_secret sha hub_now db_now secret db =
    validate_active hub_now db_now (sha secret) db (lookup_active_credential (sha secret) db)
