-- ===== src/Enrollment/SingleUse.antt =====
-- hub/agentws.go: an install token authorises one change of a credential.
use blox_os.Base.{
  ℕ, ◌≡◌, ◌≢◌, ◌⊎◌, ◌∙◌, inl, inr, refl, sym, ap, subst, List, [], ◌∷◌, Option, none, some, Bool,
  true, false, not, if◌then◌else◌, ltb, All, arith, Bool-cases, and-parts,
}
use blox_os.Base.Text.{Text, text_eq, text_eq_iff}
use blox_os.Base.Table.{find_where, update_where, delete_where}
use blox_os.Enrollment.Tokens.{
  Token, Credential, Store, TokenError, check_token_expiry, is_fresh, use_token, add_token,
  delete_expired_tokens, is_expired,
}
use blox_os.Enrollment.Credentials.{
  EnrollError, has_credential, bad_expiry, bound_elsewhere, already_consumed, no_credential,
  not_bound, consume_token_and_store_credential, consume_found, consume_checked, store_first,
  allows, binds, stage_targeted_credential, stage_found, stage_checked, stage_beside,
  revoke_agent_credential, is_machine,
}
use blox_os.Enrollment.Secrets.{
  is_secret, has_pending, promote_pending_credential_cas, promote_row, promote_before,
  validate_agent_secret, validate_active, validate_pending, validate_again,
  lookup_active_credential,
}

-- The store, and the hashes of the tokens that changed a credential, newest first.
pub record System : Type 0 where
  pub store : Store
  pub spent : List Text

abbrev spend : Text → Option EnrollError → List Text → List Text
spend h none spent = h ∷ spent
spend h (some e) spent = spent

abbrev pub after_exchange : Text → Store × Option EnrollError → List Text → System
after_exchange h (db, e) spent = record { store = db; spent = spend h e spent }

-- The operations in any order, with any clock readings. The hash of a new token is not in the table and
-- was not spent before.
pub data Step (s : System) : System → Type 0 where
  minting :
      (h : Text) (expires : ℕ) (target : Option Text)
      → All (λ k. k ≢ h) s.spent
      → Step s (record s { store = add_token h expires target s.store })
  consuming :
      (now : ℕ) (h m secret : Text)
      → Step s
          (after_exchange h (consume_token_and_store_credential now h m secret s.store) s.spent)
  staging :
      (now : ℕ) (h m secret : Text)
      → Step s (after_exchange h (stage_targeted_credential now h m secret s.store) s.spent)
  promoting :
      (hub_now db_now : ℕ) (m secret : Text)
      → Step s
          (record s { store = (promote_pending_credential_cas hub_now db_now m secret s.store).0 })
  validating :
      (sha : Text → Text) (hub_now db_now : ℕ) (secret : Text)
      → Step s (record s { store = (validate_agent_secret sha hub_now db_now secret s.store).0 })
  revoking : (m : Text) → Step s (record s { store = revoke_agent_credential m s.store })
  cleaning : (now : ℕ) → Step s (record s { store = delete_expired_tokens now s.store })

pub data Reach (s : System) : System → Type 0 where
  here : Reach s s
  next : {t u : System} → Reach s t → Step t u → Reach s u

-- No two of the list are the same.
abbrev pub IsDistinct : List Text → Type 0
IsDistinct [] = Unit
IsDistinct (h ∷ hs) = All (λ k. k ≢ h) hs × IsDistinct hs

-- A token that was spent cannot be taken again.
record Sound (s : System) : Type 0 where
  gone : All (λ h. find_where (is_fresh h) s.store.tokens ≡ none) s.spent
  distinct : IsDistinct s.spent

All-map {ℓ κ} :
    {P : Text → Type ℓ} {Q : Text → Type κ} (hs : List Text)
    → ((h : Text) → P h → Q h)
    → All P hs
    → All Q hs
All-map [] f a = tt
All-map (h ∷ hs) f a = (f h a.0, All-map hs f a.1)

none_step :
    (h : Text) (t : Token) (ts : List Token)
    → find_where (is_fresh h) (t ∷ ts) ≡ none
    → (is_fresh h t ≡ false) × (find_where (is_fresh h) ts ≡ none)
unfolding find_where
none_step h t ts e = elim (Bool-cases (is_fresh h t)) [
  | inl hit ↦ absurd (cc (sym (ap (λ b. if b then some t else find_where (is_fresh h) ts) hit) ∙ e))
  | inr miss ↦ (miss, sym (ap (λ b. if b then some t else find_where (is_fresh h) ts) miss) ∙ e)
]

miss_step :
    (h : Text) (t : Token) (ts : List Token)
    → is_fresh h t ≡ false
    → find_where (is_fresh h) ts ≡ none
    → find_where (is_fresh h) (t ∷ ts) ≡ none
unfolding find_where
miss_step h t ts miss e = rw miss e

no_token : (h : Text) → find_where (is_fresh h) [] ≡ none
unfolding find_where
no_token h = refl

fresh-used :
    (h k : Text) (t : Token)
    → is_fresh h t ≡ false
    → is_fresh h (if is_fresh k t then record t { used = true } else t) ≡ false
fresh-used h k t miss = ground arith

used-gone :
    (k : Text) (t : Token)
    → is_fresh k (if is_fresh k t then record t { used = true } else t) ≡ false
used-gone k t = ground arith

-- A token that cannot be taken stays so, and the token that is taken becomes so.
use_token-none :
    (h k : Text) (ts : List Token)
    → find_where (is_fresh h) ts ≡ none
    → find_where (is_fresh h) (use_token k ts) ≡ none
unfolding use_token update_where
use_token-none h k [] e = no_token h
use_token-none h k (t ∷ ts) e =
    let (miss, rest) = none_step h t ts e in
    miss_step h _ _ (fresh-used h k t miss) (use_token-none h k ts rest)

use_token-gone : (k : Text) (ts : List Token) → find_where (is_fresh k) (use_token k ts) ≡ none
unfolding use_token update_where
use_token-gone k [] = no_token k
use_token-gone k (t ∷ ts) = miss_step k _ _ (used-gone k t) (use_token-gone k ts)

delete-none :
    (p : Token → Bool) (h : Text) (ts : List Token)
    → find_where (is_fresh h) ts ≡ none
    → find_where (is_fresh h) (delete_where p ts) ≡ none
unfolding delete_where
delete-none p h [] e = no_token h
delete-none p h (t ∷ ts) e =
    let (miss, rest) = none_step h t ts e in
    elim (Bool-cases (p t)) [
      | inl dropped ↦ rw dropped (delete-none p h ts rest)
      | inr kept ↦ rw kept (miss_step h t _ miss (delete-none p h ts rest))
    ]

-- An exchange takes the token that it finds, or changes nothing.
abbrev Exchanged : Text → Store → Store × Option EnrollError → Type 0
Exchanged h db r =
    ((r.1 ≡ none)
      × (r.0.tokens ≡ use_token h db.tokens)
      × (find_where (is_fresh h) db.tokens ≢ none))
    ⊎ ((r.1 ≢ none) × (r.0 ≡ db))

refused-Exchanged : (h : Text) (db : Store) (e : EnrollError) → Exchanged h db (db, some e)
refused-Exchanged h db e = inr (λ k. absurd (cc k), refl)

choice-Exchanged :
    (h : Text) (db : Store) (b : Bool) (x y : Store × Option EnrollError)
    → Exchanged h db x
    → Exchanged h db y
    → Exchanged h db (if b then x else y)
choice-Exchanged h db true x y ex ey = ex
choice-Exchanged h db false x y ex ey = ey

module _ (now : ℕ) (h m secret : Text) (db : Store) where
  consume-Exchanged : Exchanged h db (consume_token_and_store_credential now h m secret db)
  unfolding consume_token_and_store_credential
  consume-Exchanged = found (find_where (is_fresh h) db.tokens) refl
    where
      stored :
          (c : Option Credential)
          → find_where (is_fresh h) db.tokens ≢ none
          → Exchanged h db (store_first h m secret db c)
      stored none there = inl (refl, refl, there)
      stored (some c) there = refused-Exchanged h db has_credential

      checked :
          (target : Option Text) (e : Option TokenError)
          → find_where (is_fresh h) db.tokens ≢ none
          → Exchanged h db (consume_checked h m secret db target e)
      checked target (some e) there = refused-Exchanged h db (bad_expiry e)
      checked target none there =
          choice-Exchanged h db (not (allows m target)) (db, some bound_elsewhere) _
            (refused-Exchanged h db bound_elsewhere)
            (stored (find_where (is_machine m) db.credentials) there)

      found :
          (o : Option Token)
          → find_where (is_fresh h) db.tokens ≡ o
          → Exchanged h db (consume_found now h m secret db o)
      found none e = refused-Exchanged h db already_consumed
      found (some t) e =
          checked t.target (check_token_expiry now t.expires) (λ n. absurd (cc (sym n ∙ e)))

  stage-Exchanged : Exchanged h db (stage_targeted_credential now h m secret db)
  unfolding stage_targeted_credential
  stage-Exchanged = found (find_where (is_fresh h) db.tokens) refl
    where
      stored :
          (c : Option Credential)
          → find_where (is_fresh h) db.tokens ≢ none
          → Exchanged h db (stage_beside now h m secret db c)
      stored none there = refused-Exchanged h db no_credential
      stored (some c) there = inl (refl, refl, there)

      checked :
          (target : Option Text) (e : Option TokenError)
          → find_where (is_fresh h) db.tokens ≢ none
          → Exchanged h db (stage_checked now h m secret db target e)
      checked target (some e) there = refused-Exchanged h db (bad_expiry e)
      checked target none there =
          choice-Exchanged h db (not (binds m target)) (db, some not_bound) _
            (refused-Exchanged h db not_bound)
            (stored (find_where (is_machine m) db.credentials) there)

      found :
          (o : Option Token)
          → find_where (is_fresh h) db.tokens ≡ o
          → Exchanged h db (stage_found now h m secret db o)
      found none e = refused-Exchanged h db already_consumed
      found (some t) e =
          checked t.target (check_token_expiry now t.expires) (λ n. absurd (cc (sym n ∙ e)))

tokens-choice :
    (db : Store) (b : Bool) (x y : Store × Bool)
    → x.0.tokens ≡ db.tokens
    → y.0.tokens ≡ db.tokens
    → (if b then x else y).0.tokens ≡ db.tokens
tokens-choice db true x y ex ey = ex
tokens-choice db false x y ex ey = ey

-- A promotion and a validation leave the tokens.
tokens-promote :
    (hub_now db_now : ℕ) (m secret : Text) (db : Store)
    → (promote_pending_credential_cas hub_now db_now m secret db).0.tokens ≡ db.tokens
unfolding promote_pending_credential_cas
tokens-promote hub_now db_now m secret db = row (find_where (is_machine m) db.credentials)
  where
    before :
        (o : Option (Option ℕ)) → (promote_before hub_now db_now m secret db o).0.tokens ≡ db.tokens
    before none = refl
    before (some none) = refl
    before (some (some t)) =
        tokens-choice db (not (ltb hub_now t)) _ _ refl
          (tokens-choice db (ltb db_now t) _ _ refl refl)

    row : (o : Option Credential) → (promote_row hub_now db_now m secret db o).0.tokens ≡ db.tokens
    row none = refl
    row (some c) = tokens-choice db (not (is_secret secret c.pending)) _ _ refl (before c.deadline)

tokens-validate :
    (sha : Text → Text) (hub_now db_now : ℕ) (secret : Text) (db : Store)
    → (validate_agent_secret sha hub_now db_now secret db).0.tokens ≡ db.tokens
unfolding validate_agent_secret
tokens-validate sha hub_now db_now secret db = active (lookup_active_credential (sha secret) db)
  where
    again :
        (m : Text) (r : Store × Bool)
        → r.0.tokens ≡ db.tokens
        → (validate_again m (sha secret) r).0.tokens ≡ db.tokens
    again m (x, true) e = e
    again m (x, false) e = e

    pending :
        (o : Option Credential)
        → (validate_pending hub_now db_now (sha secret) db o).0.tokens ≡ db.tokens
    pending none = refl
    pending (some c) = again c.machine _ (tokens-promote hub_now db_now c.machine (sha secret) db)

    active :
        (o : Option Text) → (validate_active hub_now db_now (sha secret) db o).0.tokens ≡ db.tokens
    active (some m) = refl
    active none = pending (find_where (has_pending (sha secret)) db.credentials)

-- Steps that leave the tokens, or only take some away.
keep-Sound :
    {s : System} (db : Store)
    → ((h : Text)
        → find_where (is_fresh h) s.store.tokens ≡ none
        → find_where (is_fresh h) db.tokens ≡ none)
    → Sound s
    → Sound (record s { store = db })
keep-Sound {s} db keeps v = record { gone = All-map s.spent keeps v.gone; distinct = v.distinct }

same_tokens :
    {ts us : List Token} (h : Text)
    → us ≡ ts
    → find_where (is_fresh h) ts ≡ none
    → find_where (is_fresh h) us ≡ none
same_tokens h e lost = subst (λ l. find_where (is_fresh h) l ≡ none) (sym e) lost

exchange-Sound :
    (h : Text) (s : System) (r : Store × Option EnrollError)
    → Exchanged h s.store r
    → Sound s
    → Sound (after_exchange h r s.spent)
exchange-Sound h s (db, none) (inl (_, used, there)) v = record {
  gone = (
    subst (λ ts. find_where (is_fresh h) ts ≡ none) (sym used) (use_token-gone h s.store.tokens),
    All-map s.spent
        (λ k lost.
          subst (λ ts. find_where (is_fresh k) ts ≡ none) (sym used)
            (use_token-none k h s.store.tokens lost))
        v.gone,
  );
  distinct = (
    All-map s.spent
        (λ k lost same.
          there (subst (λ j. find_where (is_fresh j) s.store.tokens ≡ none) same lost))
        v.gone,
    v.distinct,
  );
}
exchange-Sound h s (db, some e) (inl (bad, _, _)) v = absurd (cc bad)
exchange-Sound h s (db, none) (inr (bad, _)) v = absurd (bad refl)
exchange-Sound h s (db, some e) (inr (_, same)) v = record {
  gone =
      All-map s.spent
        (λ k lost. subst (λ (x : Store). find_where (is_fresh k) x.tokens ≡ none) (sym same) lost)
        v.gone;
  distinct = v.distinct;
}

mint-Sound :
    (h : Text) (expires : ℕ) (target : Option Text) (s : System)
    → All (λ k. k ≢ h) s.spent
    → Sound s
    → Sound (record s { store = add_token h expires target s.store })
unfolding add_token
mint-Sound h expires target s fresh v = record {
  gone = both s.spent fresh v.gone;
  distinct = v.distinct;
}
  where
    new : Token
    new = record { hash = h; expires = some expires; used = false; target = target }

    other : (k : Text) → k ≢ h → is_fresh k new ≡ false
    other k ne = elim (Bool-cases (is_fresh k new)) [
      | inl hit ↦ absurd (ne (sym ((text_eq_iff h k).0 (and-parts (text_eq h k) true hit).0)))
      | inr miss ↦ miss
    ]

    both :
        (ks : List Text)
        → All (λ k. k ≢ h) ks
        → All (λ k. find_where (is_fresh k) s.store.tokens ≡ none) ks
        → All (λ k. find_where (is_fresh k) (new ∷ s.store.tokens) ≡ none) ks
    both [] a b = tt
    both (k ∷ ks) a b = (miss_step k new s.store.tokens (other k a.0) b.0, both ks a.1 b.1)

clean-none :
    (now : ℕ) (db : Store) (h : Text)
    → find_where (is_fresh h) db.tokens ≡ none
    → find_where (is_fresh h) (delete_expired_tokens now db).tokens ≡ none
unfolding delete_expired_tokens
clean-none now db h e = delete-none (is_expired now) h db.tokens e

tokens-revoke : (m : Text) (db : Store) → (revoke_agent_credential m db).tokens ≡ db.tokens
unfolding revoke_agent_credential
tokens-revoke m db = refl

Step-Sound : {s t : System} → Sound s → Step s t → Sound t
Step-Sound {s} v (minting h expires target fresh) = mint-Sound h expires target s fresh v
Step-Sound {s} v (consuming now h m secret) =
    exchange-Sound h s _ (consume-Exchanged now h m secret s.store) v
Step-Sound {s} v (staging now h m secret) =
    exchange-Sound h s _ (stage-Exchanged now h m secret s.store) v
Step-Sound {s} v (promoting a b m secret) =
    keep-Sound _ (λ h. same_tokens h (tokens-promote a b m secret s.store)) v
Step-Sound {s} v (validating sha a b secret) =
    keep-Sound _ (λ h. same_tokens h (tokens-validate sha a b secret s.store)) v
Step-Sound {s} v (revoking m) = keep-Sound _ (λ h. same_tokens h (tokens-revoke m s.store)) v
Step-Sound {s} v (cleaning now) = keep-Sound _ (clean-none now s.store) v

Reach-Sound : {s t : System} → Sound s → Reach s t → Sound t
Reach-Sound v here = v
Reach-Sound v (next r s) = Step-Sound (Reach-Sound v r) s

-- No tokens and no credentials.
abbrev pub empty_system : System
empty_system = record { store = record { tokens = []; credentials = [] }; spent = [] }

-- Starting from empty tables, no install token stores or stages a credential twice, in any order of
-- the operations and with any clock readings, where the hash of a new token is not one of those
-- that were spent.
pub Reach-IsDistinct : {s : System} → Reach empty_system s → IsDistinct s.spent
Reach-IsDistinct r = (Reach-Sound (record { gone = tt; distinct = tt }) r).distinct
