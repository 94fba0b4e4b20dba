-- ===== src/Cpu/Affinity/RoundTrip.antt =====
-- The affinity is read back as the set of cores that was written.
use mathlib.Core.List.{append_assoc}
use proxmox_api_go.Base.{
  ℕ, ◌+◌, ◌%◌, ◌^◌, ◌≤◌, ◌<◌, ◌≡◌, ◌≢◌, refl, ap, sym, ◌∙◌, arith, true, false, nat_eqb,
  nat_eqb_iff, nat_eq, leb, some, List, [], ◌∷◌, ◌++◌, Text, All, contains, split_on,
  split_on-append, split_on_of_Lacks, Bool-cases, inl, inr,
}
use proxmox_api_go.Cpu.Affinity.{
  sort, put_sorted, range_text, write_ranges, write_sorted, map_to_api_affinity, read_part,
  read_parts, map_to_sdk_affinity,
}
use proxmox_api_go.Cpu.Affinity.Sorting.{
  SortedFrom, IsIncreasing, sort-SortedFrom, sort-All, contains-sort, uniq_after,
  uniq_after-IncreasingFrom, contains-uniq_after,
}
use proxmox_api_go.Cpu.Affinity.Ranges.{
  most, numbers, numbers-grow, numbers-one as numbers_one, range_text-Lacks, read_part-range_text,
}

-- The three branches of the loop.
module _ (p s e x : ℕ) (xs : List ℕ) (out : Text) where
  write_same : nat_eqb x p ≡ true → write_ranges p s e (x ∷ xs) out ≡ write_ranges x s e xs out
  unfolding write_ranges
  write_same eq = rw (eq, write_ranges) refl

  write_next :
      nat_eqb x p ≡ false
      → nat_eqb x ((e + 1) % 2 ^ 64) ≡ true
      → write_ranges p s e (x ∷ xs) out ≡ write_ranges x s x xs out
  unfolding write_ranges
  write_next ne next = rw (ne, next, write_ranges) refl

  write_gap :
      nat_eqb x p ≡ false
      → nat_eqb x ((e + 1) % 2 ^ 64) ≡ false
      → write_ranges p s e (x ∷ xs) out ≡ write_ranges x x x xs (out ++ range_text s e ++ b',' ∷ [])
  unfolding write_ranges
  write_gap ne gap = rw (ne, gap, write_ranges) refl

-- The text that was there before stays in front.
write_ranges-append :
    (p s e : ℕ) (xs : List ℕ) (out : Text)
    → write_ranges p s e xs out ≡ out ++ write_ranges p s e xs []
write_ranges-append p s e [] out = write_nothing
  where
    write_nothing : write_ranges p s e [] out ≡ out ++ write_ranges p s e [] []
    write_nothing = unfold write_ranges in refl
write_ranges-append p s e (x ∷ xs) out = elim (Bool-cases (nat_eqb x p)) [
  | inl eq ↦
      rw (write_same p s e x xs out eq, write_same p s e x xs [] eq)
        (write_ranges-append x s e xs out)
  | inr ne ↦ elim (Bool-cases (nat_eqb x ((e + 1) % 2 ^ 64))) [
    | inl next ↦
        rw (write_next p s e x xs out ne next, write_next p s e x xs [] ne next)
          (write_ranges-append x s x xs out)
    | inr gap ↦
        rw (write_gap p s e x xs out ne gap, write_gap p s e x xs [] ne gap)
          (write_ranges-append x x x xs (out ++ range_text s e ++ b',' ∷ [])
            ∙ ap (λ t. t ++ write_ranges x x x xs [])
                (append_assoc out (range_text s e) (b',' ∷ []))
            ∙ append_assoc out (range_text s e ++ b',' ∷ []) (write_ranges x x x xs [])
            ∙ ap (λ t. out ++ t) (sym (write_ranges-append x x x xs (range_text s e ++ b',' ∷ []))))
  ]
]

-- Behind a range, the rest of the parts is read on its own.
read_parts-cons :
    (part : Text) (parts : List Text) {xs ys : List ℕ}
    → read_part part ≡ some xs
    → read_parts parts ≡ some ys
    → read_parts (part ∷ parts) ≡ some (xs ++ ys)
unfolding read_parts
read_parts-cons part parts p q = rw (p, q) refl

read_nothing : read_parts [] ≡ some []
unfolding read_parts
read_nothing = refl

next_eq : (e x : ℕ) → e < most → nat_eqb x ((e + 1) % 2 ^ 64) ≡ true → x ≡ e + 1
next_eq e x k h = omega (arith, (nat_eqb_iff x ((e + 1) % 2 ^ 64)).0 h)

read_behind :
    (s e : ℕ)
    → s ≤ e
    → e < most
    → (rest : Text) {ys : List ℕ} → map_to_sdk_affinity rest ≡ some ys
    → map_to_sdk_affinity ((range_text s e ++ b',' ∷ []) ++ rest) ≡ some (numbers s e ++ ys)
unfolding map_to_sdk_affinity
read_behind s e h k rest q =
    rw
      (
        append_assoc (range_text s e) (b',' ∷ []) rest,
        split_on-append b',' (range_text s e) rest (range_text-Lacks s e h k),
      )
      (read_parts-cons (range_text s e) (split_on b',' rest) (read_part-range_text s e h k) q)

-- The loop with its open range, read back: the numbers of the range, and those behind it once each.
read-write_ranges :
    (s e : ℕ) (xs : List ℕ)
    → s ≤ e
    → e < most
    → All (λ x. x < most) xs
    → map_to_sdk_affinity (write_ranges e s e xs []) ≡ some (numbers s e ++ uniq_after e xs)
read-write_ranges s e [] h k _ = read_last
  where
    read_last : map_to_sdk_affinity (write_ranges e s e [] []) ≡ some (numbers s e ++ [])
    read_last =
        unfold write_ranges map_to_sdk_affinity in
        rw (split_on_of_Lacks b',' (range_text s e) (range_text-Lacks s e h k))
          (read_parts-cons (range_text s e) [] (read_part-range_text s e h k) read_nothing)
read-write_ranges s e (x ∷ xs) h k (l, ls) = elim (Bool-cases (nat_eqb x e)) [
  | inl eq ↦
      rw (write_same e s e x xs [] eq, eq, (nat_eqb_iff x e).0 eq) (read-write_ranges s e xs h k ls)
  | inr ne ↦ elim (Bool-cases (nat_eqb x ((e + 1) % 2 ^ 64))) [
    | inl next ↦
        let grown : x ≡ e + 1 = next_eq e x k next in
        rw (write_next e s e x xs [] ne next, ne)
          (read-write_ranges s x xs (omega arith) l ls
            ∙ ap some (rw grown (numbers-grow s e (uniq_after (e + 1) xs) h)))
    | inr gap ↦
        rw
          (
            write_gap e s e x xs [] ne gap,
            ne,
            write_ranges-append x x x xs (range_text s e ++ b',' ∷ []),
          )
          (read_behind s e h k (write_ranges x x x xs []) (
            read-write_ranges x x xs (omega arith) l ls
            ∙ ap (λ t. some (t ++ uniq_after x xs)) (numbers_one x)))
  ]
]

-- The first of the sorted cores, and what is behind it.
read_sorted :
    (xs : List ℕ) (text : Text)
    → SortedFrom 0 xs
    → All (λ x. x < most) xs
    → write_sorted xs ≡ some text
    → (numbers : List ℕ) × (map_to_sdk_affinity text ≡ some numbers)
      × ((n : ℕ) → contains numbers n ≡ contains xs n)
      × IsIncreasing numbers
unfolding write_sorted
read_sorted [] text h k e = absurd (cc)
read_sorted (x ∷ xs) text (h, hs) (k, ks) e =
    let written : write_ranges x x x xs [] ≡ text = cc in
    (
      x ∷ uniq_after x xs,
      rw (← written) (
          read-write_ranges x x xs (omega arith) k ks
          ∙ ap (λ t. some (t ++ uniq_after x xs)) (numbers_one x)),
      λ n. contains-uniq_after x xs n,
      uniq_after-IncreasingFrom x xs hs,
    )

written-put_sorted :
    (x : ℕ) (xs : List ℕ) → (text : Text) × (write_sorted (put_sorted x xs) ≡ some text)
unfolding write_sorted put_sorted
written-put_sorted x [] = (_, refl)
written-put_sorted x (y ∷ ys) = elim (Bool-cases (leb x y)) [
  | inl e ↦ (write_ranges x x x (y ∷ ys) [], rw e refl)
  | inr e ↦ (write_ranges y y y (put_sorted x ys) [], rw e refl)
]

written_of_ne_nil :
    (affinity : List ℕ) → affinity ≢ [] → (text : Text) × (map_to_api_affinity affinity ≡ some text)
unfolding map_to_api_affinity sort
written_of_ne_nil [] ne = absurd (ne refl)
written_of_ne_nil (x ∷ xs) ne = written-put_sorted x (sort xs)

-- A list of cores that is not empty, each below 2^63 - 1, is written, and the text is read back as the
-- same set of cores, in increasing order and each once.
pub map_to_sdk_affinity-map_to_api_affinity :
    (affinity : List ℕ)
    → affinity ≢ []
    → All (λ x. x < most) affinity
    → (text : Text) × (map_to_api_affinity affinity ≡ some text)
      × ((numbers : List ℕ) × (map_to_sdk_affinity text ≡ some numbers)
          × ((n : ℕ) → contains numbers n ≡ contains affinity n)
          × IsIncreasing numbers)
unfolding map_to_api_affinity
map_to_sdk_affinity-map_to_api_affinity affinity ne h =
    let (text, written) = written_of_ne_nil affinity ne in
    let (numbers, read, same, increasing) =
      read_sorted (sort affinity) text (sort-SortedFrom affinity)
        (sort-All (λ x. x < most) affinity h) written in
    (text, written, (numbers, read, λ n. same n ∙ contains-sort affinity n, increasing))
