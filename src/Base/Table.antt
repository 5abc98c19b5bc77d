-- ===== src/Base/Table.antt =====
-- Rows of a table as a list: SELECT, UPDATE and DELETE with a test on the row, and what an update
-- does to the count of rows that pass another test.
use mathlib.Core.Option
use blox_os.Base.{
  ℕ, ◌+◌, ◌≤◌, ◌≡◌, refl, Bool, true, false, not, ◌&&◌, Option, none, some, List, [], ◌∷◌, arith,
  if◌then◌else◌, Bool-cases, Option-cases, some_eq, sym, ap, ◌∙◌, ◌⊎◌, inl, inr, ◌<◌,
}

module _ {ℓ} {R : Type ℓ} where
  unfoldable pub count_where : (R → Bool) → List R → ℕ
  count_where q [] = 0
  count_where q (r ∷ rs) = (if q r then 1 else 0) + count_where q rs

  unfoldable pub find_where : (R → Bool) → List R → Option R
  find_where p [] = none
  find_where p (r ∷ rs) = if p r then some r else find_where p rs

  unfoldable pub update_where : (R → Bool) → (R → R) → List R → List R
  update_where p f [] = []
  update_where p f (r ∷ rs) = (if p r then f r else r) ∷ update_where p f rs

  unfoldable pub delete_where : (R → Bool) → List R → List R
  delete_where p [] = []
  delete_where p (r ∷ rs) = let rest = delete_where p rs in if p r then rest else r ∷ rest

  unfoldable pub select_where : (R → Bool) → List R → List R
  select_where p [] = []
  select_where p (r ∷ rs) = let rest = select_where p rs in if p r then r ∷ rest else rest

module _ {ℓ} {R : Type ℓ} (q : R → Bool) where
  pub count_mono :
      (r : R → Bool) (l : List R)
      → ((s : R) → q s ≡ true → r s ≡ true)
      → count_where q l ≤ count_where r l
  unfolding count_where
  count_mono r [] h = omega arith
  count_mono r (s ∷ l) h = ground (arith, h s, count_mono r l h)

  -- Rows that the update touches and that did not count before may count now.
  pub count-update_upper :
      (p : R → Bool) (f : R → R) (l : List R)
      → count_where q (update_where p f l) ≤ count_where q l + count_where (λ s. p s && not (q s)) l
  unfolding count_where update_where
  count-update_upper p f [] = omega arith
  count-update_upper p f (s ∷ l) = ground (arith, count-update_upper p f l)

  -- Rows that the update touches and that counted before may not count now.
  pub count-update_lower :
      (p : R → Bool) (f : R → R) (l : List R)
      → count_where q l ≤ count_where q (update_where p f l) + count_where (λ s. p s && q s) l
  unfolding count_where update_where
  count-update_lower p f [] = omega arith
  count-update_lower p f (s ∷ l) = ground (arith, count-update_lower p f l)

  pub count-update_le :
      (p : R → Bool) (f : R → R) (l : List R)
      → ((s : R) → p s ≡ true → q (f s) ≡ true → q s ≡ true)
      → count_where q (update_where p f l) ≤ count_where q l
  unfolding count_where update_where
  count-update_le p f [] h = omega arith
  count-update_le p f (s ∷ l) h = ground (arith, h s, count-update_le p f l h)

  pub count-update_ge :
      (p : R → Bool) (f : R → R) (l : List R)
      → ((s : R) → p s ≡ true → q s ≡ true → q (f s) ≡ true)
      → count_where q l ≤ count_where q (update_where p f l)
  unfolding count_where update_where
  count-update_ge p f [] h = omega arith
  count-update_ge p f (s ∷ l) h = ground (arith, h s, count-update_ge p f l h)

  pub count-delete_le :
      (p : R → Bool) (l : List R) → count_where q (delete_where p l) ≤ count_where q l
  unfolding count_where delete_where
  count-delete_le p [] = omega arith
  count-delete_le p (s ∷ l) = ground (arith, count-delete_le p l)

  -- What is deleted did not count.
  pub count-delete_ge :
      (p : R → Bool) (l : List R)
      → count_where q l ≤ count_where q (delete_where p l) + count_where (λ s. p s && q s) l
  unfolding count_where delete_where
  count-delete_ge p [] = omega arith
  count-delete_ge p (s ∷ l) = ground (arith, count-delete_ge p l)

  pub count_self-delete : (l : List R) → count_where q (delete_where q l) ≡ 0
  unfolding count_where delete_where
  count_self-delete [] = refl
  count_self-delete (s ∷ l) = ground (arith, count_self-delete l)

  pub count-select :
      (p : R → Bool) (l : List R)
      → count_where q (select_where p l) ≡ count_where (λ s. p s && q s) l
  unfolding count_where select_where
  count-select p [] = refl
  count-select p (s ∷ l) = ground (arith, count-select p l)

  pub count_of_find-none : (l : List R) → find_where q l ≡ none → count_where q l ≡ 0
  unfolding count_where find_where
  count_of_find-none [] h = refl
  count_of_find-none (s ∷ l) h = ground (arith, count_of_find-none l)

  pub find_holds : (l : List R) (s : R) → find_where q l ≡ some s → q s ≡ true
  unfolding find_where
  find_holds [] s h = cc
  find_holds (t ∷ l) s h = ground (arith, find_holds l s)

pub count-and-le {ℓ} :
    {R : Type ℓ} (q r : R → Bool) (l : List R) → count_where (λ t. q t && r t) l ≤ count_where q l
unfolding count_where
count-and-le q r [] = omega arith
count-and-le q r (t ∷ l) = ground (arith, count-and-le q r l)

-- The one row of a key decides every test on the rows of that key.
pub count_of_find {ℓ} :
    {R : Type ℓ} (q r : R → Bool) (l : List R) (s : R)
    → find_where q l ≡ some s
    → count_where q l ≤ 1
    → r s ≡ false
    → count_where (λ t. q t && r t) l ≡ 0
unfolding count_where find_where
count_of_find q r [] s h u n = cc
count_of_find q r (t ∷ l) s h u n = ground (arith, count_of_find q r l s, count-and-le q r l)

-- The update takes every row that counted, and leaves none that does.
pub count-update_clear {ℓ} :
    {R : Type ℓ} (q : R → Bool) (f : R → R) (l : List R)
    → ((s : R) → q (f s) ≡ false)
    → count_where q (update_where q f l) ≡ 0
unfolding count_where update_where
count-update_clear q f [] h = refl
count-update_clear q f (s ∷ l) h = ground (arith, h s, count-update_clear q f l h)

-- Two tests that exclude each other and each imply a third.
pub count-disjoint {ℓ} :
    {R : Type ℓ} (a b c : R → Bool) (l : List R)
    → ((s : R) → a s ≡ true → c s ≡ true)
    → ((s : R) → b s ≡ true → (c s ≡ true) × (a s ≡ false))
    → count_where a l + count_where b l ≤ count_where c l
unfolding count_where
count-disjoint a b c [] h k = omega arith
count-disjoint a b c (s ∷ l) h k = ground (arith, h s, k s, count-disjoint a b c l h k)

pub count_never {ℓ} :
    {R : Type ℓ} (q : R → Bool) (l : List R) → ((s : R) → q s ≡ false) → count_where q l ≡ 0
unfolding count_where
count_never q [] h = refl
count_never q (s ∷ l) h = ground (arith, h s, count_never q l h)

pub find_of_count {ℓ} :
    {R : Type ℓ} (q : R → Bool) (l : List R)
    → 0 < count_where q l
    → (s : R) × (find_where q l ≡ some s) × (q s ≡ true)
unfolding count_where find_where
find_of_count q [] h = absurd (omega arith)
find_of_count q (s ∷ l) h = elim (Bool-cases (q s)) [
  | inl here ↦ (s, rw here, here)
  | inr there ↦ rw there (find_of_count q l (omega (arith, rw there at h)))
]

-- A row that is found counts.
pub count_of_found {ℓ} :
    {R : Type ℓ} (p q : R → Bool) (l : List R) (s : R)
    → find_where p l ≡ some s
    → q s ≡ true
    → 0 < count_where q l
unfolding count_where find_where
count_of_found p q [] s h k = cc
count_of_found p q (t ∷ l) s h k = ground (arith, count_of_found p q l s)

-- An update that keeps the searched test rewrites what is found.
pub find-update {ℓ} :
    {R : Type ℓ} (p q : R → Bool) (f : R → R) (l : List R)
    → ((s : R) → p (f s) ≡ p s)
    → find_where p (update_where q f l) ≡ Option.map (λ s. if q s then f s else s) (find_where p l)
unfolding find_where update_where
find-update p q f [] h = refl
find-update p q f (s ∷ l) h = ground (arith, h s, find-update p q f l h)

-- A row that is found after the update was found before it, as it is or before it was rewritten.
pub find-update_inv {ℓ} :
    {R : Type ℓ} (p q : R → Bool) (f : R → R) (l : List R) (t : R)
    → ((s : R) → p (f s) ≡ p s)
    → find_where p (update_where q f l) ≡ some t
    → (s : R) × (find_where p l ≡ some s) × ((t ≡ s) ⊎ ((q s ≡ true) × (t ≡ f s)))
find-update_inv p q f l t keep h = elim (Option-cases (find_where p l)) [
  | inl absent ↦ cc (found, absent)
  | inr (s, present) ↦
      let same : (if q s then f s else s) ≡ t = some_eq (rw present at found) in
      (
        s,
        present,
        elim (Bool-cases (q s)) [
          | inl touched ↦ inr (touched, sym (rw touched at same))
          | inr kept ↦ inl (sym (rw kept at same))
        ],
      )
]
  where
    found : Option.map (λ s. if q s then f s else s) (find_where p l) ≡ some t
    found = sym (find-update p q f l keep) ∙ h

-- The row that is found first, by cases on the head.
module _ {ℓ} {R : Type ℓ} (p : R → Bool) where
  pub find-cons :
      (r s : R) (l : List R)
      → find_where p (r ∷ l) ≡ some s
      → ((p r ≡ true) × (r ≡ s)) ⊎ ((p r ≡ false) × (find_where p l ≡ some s))
  unfolding find_where
  find-cons r s l h = elim (Bool-cases (p r)) [
    | inl hit ↦ inl (hit, some_eq (sym (ap (λ b. if b then some r else find_where p l) hit) ∙ h))
    | inr miss ↦ inr (miss, sym (ap (λ b. if b then some r else find_where p l) miss) ∙ h)
  ]

  pub find-hit : (r : R) (l : List R) → p r ≡ true → find_where p (r ∷ l) ≡ some r
  unfolding find_where
  find-hit r l h = ap (λ b. if b then some r else find_where p l) h

  pub find-miss : (r : R) (l : List R) → p r ≡ false → find_where p (r ∷ l) ≡ find_where p l
  unfolding find_where
  find-miss r l h = ap (λ b. if b then some r else find_where p l) h

find_nil {ℓ} : {R : Type ℓ} (p : R → Bool) → find_where p [] ≡ none
unfolding find_where
find_nil p = refl

-- A row that one test finds is enough for another test that it passes.
pub find-some {ℓ} :
    {R : Type ℓ} (p q : R → Bool) (l : List R) (s : R)
    → find_where p l ≡ some s
    → q s ≡ true
    → (t : R) × (find_where q l ≡ some t)
find-some p q [] s h good = absurd (cc (sym (find_nil p) ∙ h))
find-some p q (r ∷ l) s h good = elim (Bool-cases (q r)) [
  | inl hit ↦ (r, find-hit q r l hit)
  | inr miss ↦ elim (find-cons p r s l h) [
    | inl (_, same) ↦ absurd (cc (sym (ap q same ∙ good) ∙ miss))
    | inr (_, later) ↦
        let (t, found) = find-some p q l s later good in (t, find-miss q r l miss ∙ found)
  ]
]

abbrev pub updated {ℓ} : {R : Type ℓ} → (R → R) → Option R → Option R
updated f none = none
updated f (some r) = some (f r)

-- An update that the test does not see is found again.
pub find-updated {ℓ} :
    {R : Type ℓ} (p : R → Bool) (f : R → R) (l : List R)
    → ((r : R) → p (f r) ≡ p r)
    → find_where p (update_where p f l) ≡ updated f (find_where p l)
unfolding find_where update_where
find-updated p f [] keeps = refl
find-updated p f (r ∷ l) keeps = elim (Bool-cases (p r)) [
  | inl mine ↦ rw mine (rw (keeps r ∙ mine) refl)
  | inr other ↦ rw other (rw other (find-updated p f l keeps))
]
