-- ===== src/Base/Lists.antt =====
-- Lists measured by native numbers, under the library's names, and a predicate on all elements.
use Prim.Native.Nat.{ℕ, zero, suc, ◌+◌, ◌-◌, ◌≤◌}
use mathlib.Core.Path.{◌≡◌, refl, ap}
use native.Mathlib.Omega.{arith}
use mathlib.Core.List.{List, [], ◌∷◌, ◌++◌}

module _ {ℓ} {A : Type ℓ} where
  abbrev pub length : List A → ℕ
  length [] = 0
  length (x ∷ xs) = suc (length xs)

abbrev pub All {ℓ κ} : {A : Type ℓ} → (A → Type κ) → List A → Type κ
All P [] = Unit
All P (x ∷ xs) = P x × All P xs

pub All-append {ℓ κ} :
    {A : Type ℓ} (P : A → Type κ) (xs ys : List A) → All P xs → All P ys → All P (xs ++ ys)
All-append P [] ys hx hy = hy
All-append P (x ∷ xs) ys hx hy = (hx.0, All-append P xs ys hx.1 hy)

-- Slices: `take n s` is s[:n] and `drop n s` is s[n:], each cut off at the end of s.
module _ {ℓ} {A : Type ℓ} where
  unfoldable pub take : ℕ → List A → List A
  take zero s = []
  take (suc n) [] = []
  take (suc n) (x ∷ s) = x ∷ take n s

  unfoldable pub drop : ℕ → List A → List A
  drop zero s = s
  drop (suc n) [] = []
  drop (suc n) (x ∷ s) = drop n s

  pub take-drop : (n : ℕ) (s : List A) → take n s ++ drop n s ≡ s
  unfolding take drop
  take-drop zero s = refl
  take-drop (suc n) [] = refl
  take-drop (suc n) (x ∷ s) = ap (λ t. x ∷ t) (take-drop n s)

  pub length-append : (s t : List A) → length (s ++ t) ≡ length s + length t
  length-append [] t = omega arith
  length-append (x ∷ s) t = omega (arith, length-append s t)

  pub length-drop : (n : ℕ) (s : List A) → length (drop n s) ≡ length s - n
  unfolding drop
  length-drop zero s = omega arith
  length-drop (suc n) [] = omega arith
  length-drop (suc n) (x ∷ s) = omega (arith, length-drop n s)

  pub take-append : (n : ℕ) (s t : List A) → n ≤ length s → take n (s ++ t) ≡ take n s
  unfolding take
  take-append zero s t h = refl
  take-append (suc n) [] t h = absurd (omega arith)
  take-append (suc n) (x ∷ s) t h = ap (λ r. x ∷ r) (take-append n s t (omega arith))

  pub drop-append : (n : ℕ) (s t : List A) → n ≤ length s → drop n (s ++ t) ≡ drop n s ++ t
  unfolding drop
  drop-append zero s t h = refl
  drop-append (suc n) [] t h = absurd (omega arith)
  drop-append (suc n) (x ∷ s) t h = drop-append n s t (omega arith)

  pub append_assoc : (s t u : List A) → (s ++ t) ++ u ≡ s ++ (t ++ u)
  append_assoc [] t u = refl
  append_assoc (x ∷ s) t u = ap (λ r. x ∷ r) (append_assoc s t u)

  pub take_all : (n : ℕ) (s : List A) → length s ≤ n → take n s ≡ s
  unfolding take
  take_all zero [] h = refl
  take_all zero (x ∷ s) h = absurd (omega arith)
  take_all (suc n) [] h = refl
  take_all (suc n) (x ∷ s) h = ap (λ r. x ∷ r) (take_all n s (omega arith))

  pub drop_all : (n : ℕ) (s : List A) → length s ≤ n → drop n s ≡ []
  unfolding drop
  drop_all zero [] h = refl
  drop_all zero (x ∷ s) h = absurd (omega arith)
  drop_all (suc n) [] h = refl
  drop_all (suc n) (x ∷ s) h = drop_all n s (omega arith)

  pub drop_front : (s t : List A) → drop (length s) (s ++ t) ≡ t
  unfolding drop
  drop_front [] t = refl
  drop_front (x ∷ s) t = drop_front s t

  pub length-take : (n : ℕ) (s : List A) → length (take n s) ≤ n
  unfolding take
  length-take zero s = omega arith
  length-take (suc n) [] = omega arith
  length-take (suc n) (x ∷ s) = omega (arith, length-take n s)
