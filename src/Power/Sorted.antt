-- ===== src/Power/Sorted.antt =====
-- hub/power_history.go: the ascending sets of sequences that the queries and the sort yield.
use blox_os.Base.{
  ℕ, ◌≤◌, ◌<◌, ◌≡◌, refl, Bool, ◌&&◌, ◌||◌, List, [], ◌∷◌, ◌++◌, ltb, leb, ◌==◌, ==_iff, ap, ◌∙◌,
  arith, Bool-cases, All, inl, inr,
}
use blox_os.Base.Table.{select_where}
use blox_os.Power.Ingest.{mem_seq, insert_seq, ascending, between}
use blox_os.Power.Gaps.{Ascending}

pub mem_seq-insert_seq :
    (n x : ℕ) (xs : List ℕ) → mem_seq n (insert_seq x xs) ≡ ((x == n) || mem_seq n xs)
unfolding mem_seq insert_seq
mem_seq-insert_seq n x [] = refl
mem_seq-insert_seq n x (y ∷ ys) = ground (arith, mem_seq-insert_seq n x ys)

All-insert_seq :
    (k x : ℕ) (xs : List ℕ) → k < x → All (λ y. k < y) xs → All (λ y. k < y) (insert_seq x xs)
unfolding insert_seq
All-insert_seq k x [] h a = (h, tt)
All-insert_seq k x (y ∷ ys) h a = elim (Bool-cases (ltb x y)) [
  | inl first ↦ rw first (h, a)
  | inr not_first ↦ elim (Bool-cases (x == y)) [
    | inl same ↦ rw (not_first, same) a
    | inr later ↦ rw (not_first, later) (a.0, All-insert_seq k x ys h a.1)
  ]
]

pub All-below : (x y : ℕ) (ys : List ℕ) → x < y → All (λ z. y < z) ys → All (λ z. x < z) ys
All-below x y [] h a = tt
All-below x y (z ∷ zs) h a = (omega (arith, a.0), All-below x y zs h a.1)

insert_seq-Ascending : (x : ℕ) (xs : List ℕ) → Ascending xs → Ascending (insert_seq x xs)
unfolding insert_seq
insert_seq-Ascending x [] a = (tt, tt)
insert_seq-Ascending x (y ∷ ys) a = elim (Bool-cases (ltb x y)) [
  | inl first ↦ rw first ((ground arith, All-below x y ys (ground arith) a.0), a)
  | inr not_first ↦ elim (Bool-cases (x == y)) [
    | inl same ↦ rw (not_first, same) a
    | inr later ↦
        rw (not_first, later)
          (All-insert_seq y x ys (ground arith) a.0, insert_seq-Ascending x ys a.1)
  ]
]

pub ascending-Ascending : (xs : List ℕ) → Ascending (ascending xs)
unfolding ascending
ascending-Ascending [] = tt
ascending-Ascending (x ∷ xs) = insert_seq-Ascending x (ascending xs) (ascending-Ascending xs)

pub mem_seq-ascending : (n : ℕ) (xs : List ℕ) → mem_seq n (ascending xs) ≡ mem_seq n xs
unfolding ascending mem_seq
mem_seq-ascending n [] = refl
mem_seq-ascending n (x ∷ xs) =
    mem_seq-insert_seq n x (ascending xs) ∙ ap (λ b. (x == n) || b) (mem_seq-ascending n xs)

pub mem_seq-select_where :
    (p : ℕ → Bool) (n : ℕ) (xs : List ℕ) → mem_seq n (select_where p xs) ≡ (p n && mem_seq n xs)
unfolding mem_seq select_where
mem_seq-select_where p n [] = ground arith
mem_seq-select_where p n (x ∷ xs) =
    let rest = mem_seq-select_where p n xs in
    elim (Bool-cases (x == n)) [
      | inl same ↦ elim (Bool-cases (p n)) [
        | inl good ↦ rw (ap p ((==_iff x n).0 same), good) (rw same refl)
        | inr bad ↦ rw (ap p ((==_iff x n).0 same), bad) (rw bad at rest)
      ]
      | inr other ↦ elim (Bool-cases (p x)) [
        | inl good ↦ rw (good, other) rest
        | inr bad ↦ rw (bad, other) rest
      ]
    ]

pub mem_seq-append :
    (n : ℕ) (xs ys : List ℕ) → mem_seq n (xs ++ ys) ≡ (mem_seq n xs || mem_seq n ys)
unfolding mem_seq
mem_seq-append n [] ys = refl
mem_seq-append n (x ∷ xs) ys = ground (arith, mem_seq-append n xs ys)

pub All-insert : (P : ℕ → Type 0) (x : ℕ) (xs : List ℕ) → P x → All P xs → All P (insert_seq x xs)
unfolding insert_seq
All-insert P x [] h a = (h, tt)
All-insert P x (y ∷ ys) h a = elim (Bool-cases (ltb x y)) [
  | inl first ↦ rw first (h, a)
  | inr not_first ↦ elim (Bool-cases (x == y)) [
    | inl same ↦ rw (not_first, same) a
    | inr later ↦ rw (not_first, later) (a.0, All-insert P x ys h a.1)
  ]
]

pub All-ascending : (P : ℕ → Type 0) (xs : List ℕ) → All P xs → All P (ascending xs)
unfolding ascending
All-ascending P [] a = tt
All-ascending P (x ∷ xs) a = All-insert P x (ascending xs) a.0 (All-ascending P xs a.1)

pub between-All : (lo hi : ℕ) (xs : List ℕ) → All (λ x. x ≤ hi) (between lo hi xs)
unfolding between select_where
between-All lo hi [] = tt
between-All lo hi (x ∷ xs) = elim (Bool-cases (leb lo x && leb x hi)) [
  | inl inside ↦ rw inside (ground arith, between-All lo hi xs)
  | inr outside ↦ rw outside (between-All lo hi xs)
]
