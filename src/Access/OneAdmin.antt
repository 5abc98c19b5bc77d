-- ===== src/Access/OneAdmin.antt =====
-- hub/auth.go: one administrator is created with a setup token, and the token is not lost before.
use blox_os.Base.{
  ℕ, suc, ◌+◌, ◌≡◌, ◌≢◌, ◌⊎◌, ◌∙◌, inl, inr, refl, sym, ap, subst, List, [], ◌∷◌, ◌++◌, Bool, true,
  false, length, length-append, All, arith, Bool-cases,
}
use blox_os.Base.Text.{Text, text_eq_iff, is_empty}
use blox_os.Access.Setup.{
  Admin, Server, token_matches, consume_token, restore_token, consuming, inserting, Step, consumes,
  inserts, Reach, here, next, started,
}

-- One for a token that is there.
unfoldable live_token : Text → ℕ
live_token [] = 0
live_token (c ∷ s) = 1

-- The places where the right to create the administrator can be: created, held or unused.
pub places : Server → ℕ
unfolding live_token
places s = length s.admins + length s.holders + live_token s.token

-- What holds of the server that was started with a token.
record Sound (token : Text) (s : Server) : Type 0 where
  one : places s ≡ 1
  same : (s.token ≡ token) ⊎ (s.token ≡ [])
  held : All (λ (h : Text × Admin). h.0 ≡ token) s.holders

All-middle :
    {A : Type 0} (P : A → Type 0) (front back : List A) (x : A)
    → All P (front ++ (x ∷ back))
    → P x × All P (front ++ back)
All-middle P [] back x h = h
All-middle P (y ∷ front) back x h =
    let (hx, rest) = All-middle P front back x h.1 in (hx, (h.0, rest))

length-middle :
    {A : Type 0} (front back : List A) (x : A)
    → length (front ++ (x ∷ back)) ≡ suc (length (front ++ back))
length-middle front back x = omega (arith, length-append front (x ∷ back), length-append front back)

matches-parts :
    (token given : Text) → token_matches token given ≡ true → (token ≢ []) × (given ≡ token)
unfolding token_matches is_empty
matches-parts [] given h = absurd (cc h)
matches-parts (c ∷ token) given h = (λ e. absurd (cc e), (text_eq_iff given (c ∷ token)).0 h)

live-one : (token : Text) → token ≢ [] → live_token token ≡ 1
unfolding live_token
live-one [] h = absurd (h refl)
live-one (c ∷ s) h = refl

live-none : live_token [] ≡ 0
unfolding live_token
live-none = refl

-- A consumption takes the token that is there, or changes nothing.
consuming-step :
    (given : Text) (a : Admin) (s : Server)
    → ((s.token ≢ [])
        × (given ≡ s.token)
        × (consuming given a s ≡ record s { token = []; holders = (given, a) ∷ s.holders }))
      ⊎ (consuming given a s ≡ s)
unfolding consuming consume_token
consuming-step given a s = elim (Bool-cases (token_matches s.token given)) [
  | inl fits ↦ let (real, same) = matches-parts s.token given fits in inl (real, same, rw fits refl)
  | inr other ↦ inr (rw other refl)
]

restored : (given : Text) → restore_token [] given ≡ given
unfolding restore_token is_empty
restored given = refl

module _ (token : Text) (real : token ≢ []) where
  consuming-Sound :
      (given : Text) (a : Admin) (s : Server) → Sound token s → Sound token (consuming given a s)
  unfolding places
  consuming-Sound given a s v = elim (consuming-step given a s) [
    | inr e ↦ subst (Sound token) (sym e) v
    | inl (live, same, e) ↦ subst (Sound token) (sym e) (record {
      one = omega (arith, v.one, live-one s.token live, live-none);
      same = inr refl;
      held = (elim v.same [ inl t ↦ same ∙ t | inr t ↦ absurd (live t) ], v.held);
    })
  ]

  -- A held token is not there.
  gone :
      (given : Text) (a : Admin) (front back : List (Text × Admin)) (s : Server)
      → s.holders ≡ front ++ ((given, a) ∷ back)
      → Sound token s
      → (s.token ≡ [])
        × (length s.admins + length (front ++ back) ≡ 0)
        × (given ≡ token)
        × All (λ (h : Text × Admin). h.0 ≡ token) (front ++ back)
  unfolding places
  gone given a front back s e v =
      let (mine, others) =
        All-middle (λ (h : Text × Admin). h.0 ≡ token) front back (given, a)
          (subst (All (λ (h : Text × Admin). h.0 ≡ token)) e v.held) in
      (no_token longer, alone longer, mine, others)
    where
      longer : length s.holders ≡ suc (length (front ++ back))
      longer = ap length e ∙ length-middle front back (given, a)

      alone :
          length s.holders ≡ suc (length (front ++ back))
          → length s.admins + length (front ++ back) ≡ 0
      alone h = omega (arith, v.one, h)

      no_token : length s.holders ≡ suc (length (front ++ back)) → s.token ≡ []
      no_token h = elim v.same [
        | inl t ↦ absurd (omega (arith, h, v.one, live-one s.token (λ n. real (sym t ∙ n))))
        | inr t ↦ t
      ]

  inserting-Sound :
      (good : Bool) (given : Text) (a : Admin) (front back : List (Text × Admin)) (s : Server)
      → s.holders ≡ front ++ ((given, a) ∷ back)
      → Sound token s
      → Sound token (inserting good given a (front ++ back) s)
  unfolding places inserting
  inserting-Sound true given a front back s e v =
      let (none_left, alone, mine, others) = gone given a front back s e v in
      record {
        one = omega (arith, alone, ap live_token none_left, live-none);
        same = inr none_left;
        held = others;
      }
  inserting-Sound false given a front back s e v =
      let (none_left, alone, mine, others) = gone given a front back s e v in
      let back_again = ap (λ t. restore_token t given) none_left ∙ restored given ∙ mine in
      record {
        one = omega (arith, alone, ap live_token back_again, live-one token real);
        same = inl back_again;
        held = others;
      }

  Step-Sound : {s t : Server} → Sound token s → Step s t → Sound token t
  Step-Sound {s} v (consumes given a) = consuming-Sound given a s v
  Step-Sound {s} v (inserts good given a front back e) =
      inserting-Sound good given a front back s e v

  Reach-Sound : {s : Server} → Reach (started token) s → Sound token s
  unfolding places
  Reach-Sound here = record { one = omega (arith, live-one token real); same = inl refl; held = tt }
  Reach-Sound (next r s) = Step-Sound (Reach-Sound r) s

  -- However the requests of a first setup interleave, after a start with a setup token: an
  -- administrator was inserted, or exactly one request holds the consumed token, or the token is
  -- there and is the one of the start. So at most one administrator is inserted, and a failed
  -- insert leaves the token for a retry.
  pub Reach-places :
      {s : Server} → Reach (started token) s → (places s ≡ 1) × ((s.token ≡ token) ⊎ (s.token ≡ []))
  Reach-places r = let v = Reach-Sound r in (v.one, v.same)
