-- ===== src/Cpu/Affinity/Sorting.antt =====
-- Sorting a list of cores and leaving out what is twice in it.
use proxmox_api_go.Base.{
  ℕ, ◌≤◌, ◌<◌, ◌≡◌, refl, arith, ◌||◌, leb, nat_eqb, nat_eqb_iff, nat_eq, if◌then◌else◌, List, [],
  ◌∷◌, All, contains, Bool-cases, inl, inr,
}
use proxmox_api_go.Cpu.Affinity.{put_sorted, sort}

-- Every member is at least `n`, and none is below one before it.
abbrev pub SortedFrom : ℕ → List ℕ → Type 0
SortedFrom n [] = Unit
SortedFrom n (x ∷ xs) = (n ≤ x) × SortedFrom x xs

-- Every member is above `n` and above the one before it.
abbrev pub IncreasingFrom : ℕ → List ℕ → Type 0
IncreasingFrom n [] = Unit
IncreasingFrom n (x ∷ xs) = (n < x) × IncreasingFrom x xs

abbrev pub IsIncreasing : List ℕ → Type 0
IsIncreasing [] = Unit
IsIncreasing (x ∷ xs) = IncreasingFrom x xs

put_sorted-SortedFrom :
    (n x : ℕ) (xs : List ℕ) → n ≤ x → SortedFrom n xs → SortedFrom n (put_sorted x xs)
unfolding put_sorted
put_sorted-SortedFrom n x [] h k = (h, tt)
put_sorted-SortedFrom n x (y ∷ ys) h k = ground (arith, put_sorted-SortedFrom y x ys)

pub sort-SortedFrom : (xs : List ℕ) → SortedFrom 0 (sort xs)
unfolding sort
sort-SortedFrom [] = tt
sort-SortedFrom (x ∷ xs) = put_sorted-SortedFrom 0 x (sort xs) (omega arith) (sort-SortedFrom xs)

module _ (P : ℕ → Type 0) where
  put_sorted-All : (x : ℕ) (xs : List ℕ) → P x → All P xs → All P (put_sorted x xs)
  unfolding put_sorted
  put_sorted-All x [] h k = (h, tt)
  put_sorted-All x (y ∷ ys) h k = elim (Bool-cases (leb x y)) [
    | inl e ↦ rw e (h, k)
    | inr e ↦ rw e (k.0, put_sorted-All x ys h k.1)
  ]

  pub sort-All : (xs : List ℕ) → All P xs → All P (sort xs)
  unfolding sort
  sort-All [] h = tt
  sort-All (x ∷ xs) (h, hs) = put_sorted-All x (sort xs) h (sort-All xs hs)

contains-put_sorted :
    (x : ℕ) (xs : List ℕ) (n : ℕ) → contains (put_sorted x xs) n ≡ (nat_eqb x n || contains xs n)
unfolding put_sorted
contains-put_sorted x [] n = refl
contains-put_sorted x (y ∷ ys) n = ground (arith, contains-put_sorted x ys n)

pub contains-sort : (xs : List ℕ) (n : ℕ) → contains (sort xs) n ≡ contains xs n
unfolding sort
contains-sort [] n = refl
contains-sort (x ∷ xs) n = ground (arith, contains-put_sorted x (sort xs) n, contains-sort xs n)

-- The members of a sorted list behind `e`, each once.
abbrev pub uniq_after : ℕ → List ℕ → List ℕ
uniq_after e [] = []
uniq_after e (x ∷ xs) =
    let rest = uniq_after x xs in if nat_eqb x e then uniq_after e xs else x ∷ rest

pub uniq_after-IncreasingFrom :
    (e : ℕ) (xs : List ℕ) → SortedFrom e xs → IncreasingFrom e (uniq_after e xs)
uniq_after-IncreasingFrom e [] h = tt
uniq_after-IncreasingFrom e (x ∷ xs) (h, hs) = elim (Bool-cases (nat_eqb x e)) [
  | inl eq ↦
      let same = (nat_eqb_iff x e).0 eq in rw eq (uniq_after-IncreasingFrom e xs (rw same at hs))
  | inr ne ↦ rw ne (ground arith, uniq_after-IncreasingFrom x xs hs)
]

pub contains-uniq_after :
    (e : ℕ) (xs : List ℕ) (n : ℕ)
    → (nat_eqb e n || contains (uniq_after e xs) n) ≡ (nat_eqb e n || contains xs n)
contains-uniq_after e [] n = refl
contains-uniq_after e (x ∷ xs) n =
    ground (arith, contains-uniq_after e xs n, contains-uniq_after x xs n)
