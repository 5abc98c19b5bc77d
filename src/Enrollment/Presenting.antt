-- ===== src/Enrollment/Presenting.antt =====
-- hub/agentws.go: what a secret that is accepted has shown, and that a staged credential is taken over
-- also when its acknowledgement is lost.
use blox_os.Base.{
  ℕ, ◌≡◌, ◌<◌, ◌⊎◌, ◌∙◌, inl, inr, refl, sym, ap, subst, List, [], ◌∷◌, Option, none, some, Bool,
  true, false, not, ◌&&◌, if◌then◌else◌, ltb, arith, Bool-cases, Option-cases, some_eq,
}
use blox_os.Base.Text.{Text, text_eq, text_eq_iff, text_eq_refl}
use blox_os.Base.Table.{
  find_where, update_where, find_holds, find-hit, find-miss, find-some, find-updated, updated,
}
use blox_os.Enrollment.Tokens.{Credential, Store}
use blox_os.Enrollment.Credentials.{is_machine}
use blox_os.Enrollment.Secrets.{
  is_secret, cleared, promoted, change_row, promote_before, promote_row,
  promote_pending_credential_cas, has_active, has_pending, machine_of, lookup_active_credential,
  Validated, validate_again, validate_pending, validate_active, validate_agent_secret,
}

-- The machine has the secret as its active one.
abbrev pub HasActive : Text → Text → Store → Type 0
HasActive m s db =
    (c : Credential) × (find_where (λ k. is_machine m k && has_active s k) db.credentials ≡ some c)

-- The machine has the secret as its pending one, before its deadline for both clocks.
abbrev pub HasPending : ℕ → ℕ → Text → Text → Store → Type 0
HasPending hub_now db_now m s db =
    (c : Credential) × (t : ℕ) × (find_where (is_machine m) db.credentials ≡ some c)
    × (is_secret s c.pending ≡ true)
    × (c.deadline ≡ some (some t))
    × (hub_now < t)
    × (db_now < t)

-- A row that is found by its secret has it.
lookup-HasActive :
    (s m : Text) (db : Store) → lookup_active_credential s db ≡ some m → HasActive m s db
unfolding lookup_active_credential
lookup-HasActive s m db h = elim (Option-cases (find_where (has_active s) db.credentials)) [
  | inl lost ↦ absurd (cc (sym (ap machine_of lost) ∙ h))
  | inr (c, found) ↦
      find-some (has_active s) (λ k. is_machine m k && has_active s k) db.credentials c found
        (both (is_machine m c) (has_active s c)
          ((text_eq_iff c.machine m).1 (some_eq (sym (ap machine_of found) ∙ h)))
          (find_holds (has_active s) db.credentials c found))
]
  where
    both : (a b : Bool) → a ≡ true → b ≡ true → (a && b) ≡ true
    both true true x y = refl
    both true false x y = y
    both false b x y = x

-- A change of a row that keeps its machine and its active secret keeps every active secret.
pub lookup-change :
    (s m : Text) (f : Credential → Credential) (db : Store)
    → ((c : Credential) → ((f c).machine ≡ c.machine) × ((f c).active ≡ c.active))
    → lookup_active_credential s (change_row m f db) ≡ lookup_active_credential s db
unfolding lookup_active_credential update_where
lookup-change s m f db keeps = rows db.credentials
  where
    kept :
        (c : Credential)
        → ((if is_machine m c then f c else c).machine ≡ c.machine)
          × ((if is_machine m c then f c else c).active ≡ c.active)
    kept c = elim (Bool-cases (is_machine m c)) [
      | inl mine ↦ rw mine (keeps c)
      | inr other ↦ rw other (refl, refl)
    ]

    rows :
        (l : List Credential)
        → machine_of (find_where (has_active s) (update_where (is_machine m) f l))
          ≡ machine_of (find_where (has_active s) l)
    rows [] = refl
    rows (c ∷ l) =
        let (machine, active) = kept c in
        elim (Bool-cases (has_active s c)) [
          | inl hit ↦
              ap machine_of (find-hit (has_active s) _ _ (ap (λ a. text_eq a s) active ∙ hit))
              ∙ ap some machine
              ∙ sym (ap machine_of (find-hit (has_active s) c l hit))
          | inr miss ↦
              ap machine_of (find-miss (has_active s) _ _ (ap (λ a. text_eq a s) active ∙ miss))
              ∙ rows l
              ∙ sym (ap machine_of (find-miss (has_active s) c l miss))
        ]

-- A promotion succeeds exactly for the pending secret before the deadline, and makes it the active one.
promote-cases :
    (hub_now db_now : ℕ) (m s : Text) (db : Store)
    → (HasPending hub_now db_now m s db
        × (promote_pending_credential_cas hub_now db_now m s db
            ≡ (change_row m (promoted s) db, true)))
      ⊎ (promote_pending_credential_cas hub_now db_now m s db ≡ (change_row m cleared db, false))
      ⊎ (promote_pending_credential_cas hub_now db_now m s db ≡ (db, false))
unfolding promote_pending_credential_cas
promote-cases hub_now db_now m s db = row (find_where (is_machine m) db.credentials) refl
  where
    R : Store × Bool → Type 0
    R r =
        (HasPending hub_now db_now m s db × (r ≡ (change_row m (promoted s) db, true)))
        ⊎ (r ≡ (change_row m cleared db, false))
        ⊎ (r ≡ (db, false))

    before :
        (c : Credential) (o : Option (Option ℕ))
        → find_where (is_machine m) db.credentials ≡ some c
        → is_secret s c.pending ≡ true
        → c.deadline ≡ o
        → R (promote_before hub_now db_now m s db o)
    before c none found same e = inr (inl refl)
    before c (some none) found same e = inr (inl refl)
    before c (some (some t)) found same e = elim (Bool-cases (ltb hub_now t)) [
      | inl early ↦ elim (Bool-cases (ltb db_now t)) [
        | inl in_time ↦
            inl ((c, t, found, same, e, ground arith, ground arith), rw early (rw in_time refl))
        | inr late ↦ inr (inr (rw early (rw late refl)))
      ]
      | inr late ↦ inr (inl (rw late refl))
    ]

    row :
        (o : Option Credential)
        → find_where (is_machine m) db.credentials ≡ o
        → R (promote_row hub_now db_now m s db o)
    row none e = inr (inr refl)
    row (some c) e = elim (Bool-cases (is_secret s c.pending)) [
      | inl same ↦
          subst R
            (sym (
              ap
                (λ b.
                  if not b then (db, false) else promote_before hub_now db_now m s db c.deadline)
                same))
            (before c c.deadline e same refl)
      | inr other ↦ inr (inr (rw other refl))
    ]

-- A promoted secret is the active one.
promoted-HasActive :
    (m s : Text) (db : Store) (c : Credential)
    → find_where (is_machine m) db.credentials ≡ some c
    → HasActive m s (change_row m (promoted s) db)
promoted-HasActive m s db c found =
    find-some (is_machine m) (λ k. is_machine m k && has_active s k) _ (promoted s c)
      (find-updated (is_machine m) (promoted s) db.credentials (λ r. refl)
        ∙ ap (updated (promoted s)) found)
      (both (find_holds (is_machine m) db.credentials c found) (text_eq_refl s))
  where
    both : is_machine m c ≡ true → text_eq s s ≡ true → (is_machine m c && text_eq s s) ≡ true
    both a b = rw a b

module _ (sha : Text → Text) (hub_now db_now : ℕ) (secret : Text) (db : Store) where
  Accepted : Validated → Type 0
  Accepted r =
      (m : Text) (p : Bool)
      → r.1 ≡ some (m, p)
      → HasActive m (sha secret) r.0
        × (HasActive m (sha secret) db ⊎ ((p ≡ true) × HasPending hub_now db_now m (sha secret) db))

  again-Accepted :
      (n : Text) (k : Store)
      → lookup_active_credential (sha secret) k ≡ lookup_active_credential (sha secret) db
      → lookup_active_credential (sha secret) db ≡ none
      → Accepted (validate_again n (sha secret) (k, false))
  unfolding Accepted
  again-Accepted n k same lost m p h = absurd (cc (sym (ap named (same ∙ lost)) ∙ h))
    where
      named : Option Text → Option (Text × Bool)
      named o = elim o [ none ↦ none | some x ↦ some (x, false) ]

  pending-Accepted :
      (o : Option Credential)
      → lookup_active_credential (sha secret) db ≡ none
      → Accepted (validate_pending hub_now db_now (sha secret) db o)
  unfolding Accepted
  pending-Accepted none lost = λ m p h. absurd (cc h)
  pending-Accepted (some c) lost = elim (promote-cases hub_now db_now c.machine (sha secret) db) [
    | inl (there, e) ↦
        subst (λ r. Accepted (validate_again c.machine (sha secret) r)) (sym e) (won there)
    | inr (inl e) ↦
        subst (λ r. Accepted (validate_again c.machine (sha secret) r)) (sym e)
          (again-Accepted c.machine _
            (lookup-change (sha secret) c.machine cleared db (λ k. (refl, refl))) lost)
    | inr (inr e) ↦
        subst (λ r. Accepted (validate_again c.machine (sha secret) r)) (sym e)
          (again-Accepted c.machine db refl lost)
  ]
    where
      won :
          HasPending hub_now db_now c.machine (sha secret) db
          → Accepted (
              validate_again c.machine
                (sha secret)
                (change_row c.machine (promoted (sha secret)) db, true))
      won there m p h =
          let (d, t, found, _, _, _, _) = there in
          subst
            (λ (x : Text × Bool).
              HasActive x.0 (sha secret) (change_row c.machine (promoted (sha secret)) db)
              × (HasActive x.0 (sha secret) db
                  ⊎ ((x.1 ≡ true) × HasPending hub_now db_now x.0 (sha secret) db)))
            (some_eq h) (promoted-HasActive c.machine (sha secret) db d found, inr (refl, there))

  -- A secret that is accepted for a machine is the machine's active secret afterwards, by its hash; it
  -- was so before, or this call promoted it: then it was the machine's pending secret, before its
  -- deadline for the hub's clock and the database's.
  pub validate_sound :
      (m : Text) (p : Bool)
      → (validate_agent_secret sha hub_now db_now secret db).1 ≡ some (m, p)
      → HasActive m (sha secret) (validate_agent_secret sha hub_now db_now secret db).0
        × (HasActive m (sha secret) db ⊎ ((p ≡ true) × HasPending hub_now db_now m (sha secret) db))
  unfolding validate_agent_secret Accepted
  validate_sound = active (lookup_active_credential (sha secret) db) refl
    where
      name : Text × Bool → Option Text
      name x = some x.0

      active :
          (o : Option Text)
          → lookup_active_credential (sha secret) db ≡ o
          → Accepted (validate_active hub_now db_now (sha secret) db o)
      active (some n) e = λ m p h.
          let same = lookup-HasActive (sha secret) m db (e ∙ ap name (some_eq h)) in
          (same, inl same)
      active none e = pending-Accepted (find_where (has_pending (sha secret)) db.credentials) e
