-- ===== src/Enrollment/Recovering.antt =====
-- hub/agentws.go: a staged credential beside the old one, when the acknowledgement is lost.
use blox_os.Base.{
  ℕ, ◌≡◌, ◌<◌, ◌∙◌, inl, inr, refl, sym, ap, subst, List, [], ◌∷◌, Option, none, some, Bool, true,
  false, not, if◌then◌else◌, ltb, All, arith,
}
use blox_os.Base.Text.{Text, text_eq_iff, text_eq_refl}
use blox_os.Base.Table.{
  find_where, update_where, find_holds, find-cons, find-hit, find-miss, find-updated, updated,
}
use blox_os.Enrollment.Tokens.{
  Token, Credential, Store, TokenError, check_token_expiry, is_fresh, use_token,
}
use blox_os.Enrollment.Credentials.{
  EnrollError, is_machine, binds, staged, deadline_at, stage_targeted_credential, stage_found,
  stage_checked, stage_beside, not_bound,
}
use blox_os.Enrollment.Secrets.{
  promote_row, promote_pending_credential_cas, has_active, has_pending, machine_of,
  lookup_active_credential, validate_again, validate_pending, validate_active,
  validate_agent_secret,
}
use blox_os.Enrollment.Presenting.{lookup-change}

-- The secret is nobody's yet.
abbrev pub IsNew : Text → List Credential → Type 0
IsNew s = All (λ (c : Credential). (has_active s c ≡ false) × (has_pending s c ≡ false))

nobody : (s : Text) (l : List Credential) → IsNew s l → find_where (has_active s) l ≡ none
unfolding find_where
nobody s [] a = refl
nobody s (c ∷ l) a = find-miss (has_active s) c l a.0.0 ∙ nobody s l a.1

module _ (now : ℕ) (m s : Text) where
  -- The row that has the new secret pending is the machine's.
  pending-staged :
      (l : List Credential) (c : Credential)
      → IsNew s l
      → find_where (is_machine m) l ≡ some c
      → find_where (has_pending s) (update_where (is_machine m) (staged now s) l)
        ≡ some (staged now s c)
  unfolding update_where find_where
  pending-staged [] c a h = absurd (cc h)
  pending-staged (d ∷ l) c a h = elim (find-cons (is_machine m) d c l h) [
    | inl (mine, same) ↦ rw mine (
        find-hit (has_pending s) (staged now s d) (update_where (is_machine m) (staged now s) l)
          (text_eq_refl s)
        ∙ ap (λ k. some (staged now s k)) same)
    | inr (other, later) ↦ rw other (
        find-miss (has_pending s) d (update_where (is_machine m) (staged now s) l) a.0.1
        ∙ pending-staged l c a.1 later)
  ]

  -- A staging that succeeds changes the row of the machine, which has one.
  stage-updates :
      (h : Text) (db : Store)
      → (stage_targeted_credential now h m s db).1 ≡ none
      → (c : Credential) × (find_where (is_machine m) db.credentials ≡ some c)
        × (stage_targeted_credential now h m s db ≡ (
          record {
            tokens = use_token h db.tokens;
            credentials = update_where (is_machine m) (staged now s) db.credentials;
          },
          none,
        ))
  unfolding stage_targeted_credential
  stage-updates h db = found (find_where (is_fresh h) db.tokens)
    where
      R : Store × Option EnrollError → Type 0
      R r =
          r.1 ≡ none
          → (c : Credential) × (find_where (is_machine m) db.credentials ≡ some c)
            × (r ≡ (
              record {
                tokens = use_token h db.tokens;
                credentials = update_where (is_machine m) (staged now s) db.credentials;
              },
              none,
            ))

      beside :
          (o : Option Credential)
          → find_where (is_machine m) db.credentials ≡ o
          → R (stage_beside now h m s db o)
      beside none e k = absurd (cc k)
      beside (some c) e k = (c, e, refl)

      bound :
          (b : Bool)
          → R (
              if b
              then (db, some not_bound)
              else stage_beside now h m s db (find_where (is_machine m) db.credentials))
      bound true k = absurd (cc k)
      bound false k = beside (find_where (is_machine m) db.credentials) refl k

      checked :
          (target : Option Text) (e : Option TokenError) → R (stage_checked now h m s db target e)
      checked target (some e) k = absurd (cc k)
      checked target none k = bound (not (binds m target)) k

      found : (o : Option Token) → R (stage_found now h m s db o)
      found none k = absurd (cc k)
      found (some t) k = checked t.target (check_token_expiry now t.expires) k

before : {a b : ℕ} → a < b → ltb a b ≡ true
before h = ground arith

won : (n s : Text) (r : Store × Bool) → r.1 ≡ true → (validate_again n s r).1 ≡ some (n, true)
won n s (db, true) h = refl
won n s (db, false) h = absurd (cc h)

module _ (sha : Text → Text) (now hub_now db_now : ℕ) (h m secret : Text) (db : Store) where
  staged_store : Store
  staged_store = (stage_targeted_credential now h m (sha secret) db).0

  module _ (succeeded : (stage_targeted_credential now h m (sha secret) db).1 ≡ none)
      (new : IsNew (sha secret) db.credentials) where
    staged_rows :
        (staged_store.credentials
          ≡ update_where (is_machine m) (staged now (sha secret)) db.credentials)
    unfolding staged_store
    staged_rows =
        let (c, found, e) = stage-updates now m (sha secret) h db succeeded in
        ap (λ (r : Store × Option EnrollError). r.0.credentials) e

    nobody_active : lookup_active_credential (sha secret) db ≡ none
    unfolding lookup_active_credential
    nobody_active = ap machine_of (nobody (sha secret) db.credentials new)

    -- Staging changes no active secret.
    lookup-staged :
        (s : Text) → lookup_active_credential s staged_store ≡ lookup_active_credential s db
    unfolding lookup_active_credential
    lookup-staged s =
        ap (λ (l : List Credential). machine_of (find_where (has_active s) l)) staged_rows
        ∙ lookup-change s m (staged now (sha secret)) db (λ c. (refl, refl))

    nobody_yet : lookup_active_credential (sha secret) staged_store ≡ none
    nobody_yet = lookup-staged (sha secret) ∙ nobody_active

    promotes :
        hub_now < deadline_at now
        → db_now < deadline_at now
        → (promote_pending_credential_cas hub_now db_now m (sha secret) staged_store).1 ≡ true
    unfolding promote_pending_credential_cas
    promotes early in_time =
        let (c, found, e) = stage-updates now m (sha secret) h db succeeded in
        let there =
          ap (find_where (is_machine m)) staged_rows
          ∙ find-updated (is_machine m) (staged now (sha secret)) db.credentials (λ r. refl)
          ∙ ap (updated (staged now (sha secret))) found in
        ap (λ (o : Option Credential). (promote_row hub_now db_now m (sha secret) staged_store o).1)
          there
        ∙ rw (text_eq_refl (sha secret)) (rw (before early) (rw (before in_time) refl))

    validates :
        hub_now < deadline_at now
        → db_now < deadline_at now
        → (validate_agent_secret sha hub_now db_now secret staged_store).1 ≡ some (m, true)
    unfolding validate_agent_secret
    validates early in_time =
        let (c, found, e) = stage-updates now m (sha secret) h db succeeded in
        let mine = (text_eq_iff c.machine m).0 (find_holds (is_machine m) db.credentials c found) in
        let pending =
          ap (find_where (has_pending (sha secret))) staged_rows
          ∙ pending-staged now m (sha secret) db.credentials c new found in
        ap (λ (o : Option Text). (validate_active hub_now db_now (sha secret) staged_store o).1)
          nobody_yet
        ∙ ap
            (λ (o : Option Credential).
              (validate_pending hub_now db_now (sha secret) staged_store o).1)
            pending
        ∙ subst
            (λ n.
              (validate_again n (sha secret)
                (promote_pending_credential_cas hub_now db_now n (sha secret) staged_store)).1
              ≡ some (m, true))
            (sym mine) (won m (sha secret) _ (promotes early in_time))

  -- After a staging that succeeds, of a secret that is nobody's, and before its deadline for the hub's clock
  -- and the database's: every active secret is valid as before, so the old one is still accepted; and an
  -- agent that presents the new secret is accepted as the machine and promoted, although its
  -- acknowledgement never arrived.
  pub stage_recovers :
      (stage_targeted_credential now h m (sha secret) db).1 ≡ none
      → IsNew (sha secret) db.credentials
      → hub_now < deadline_at now
      → db_now < deadline_at now
      → ((s : Text)
          → lookup_active_credential s (stage_targeted_credential now h m (sha secret) db).0
            ≡ lookup_active_credential s db)
        × ((validate_agent_secret sha hub_now db_now secret
              (stage_targeted_credential now h m (sha secret) db).0).1
            ≡ some (m, true))
  unfolding staged_store
  stage_recovers succeeded new hub db_in_time =
      (lookup-staged succeeded new, validates succeeded new hub db_in_time)
