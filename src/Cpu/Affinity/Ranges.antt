-- ===== src/Cpu/Affinity/Ranges.antt =====
-- One range as text, and the numbers of an interval.
use mathlib.Core.List.{append_assoc}
use proxmox_api_go.Base.{
  itoa_int, ℕ, zero, suc, ◌+◌, ◌-◌, ◌^◌, ◌≤◌, ◌<◌, ◌≡◌, ◌≢◌, ◌⊎◌, refl, ap, ◌∙◌, arith, false,
  nat_eqb, nat_eqb_iff, lt→ltb, some, List, [], ◌∷◌, ◌++◌, itoa, itoa-IsDigits, IsDigits-Lacks,
  atoi-itoa, Lacks, All-append, contains_byte_of_Lacks, contains_byte-append, split_on-append,
  split_on_of_Lacks, Bool-cases, inl, inr,
}
use proxmox_api_go.Cpu.Affinity.{range_text, from, interval, bounds, read_part}

-- The numbers that can be read back: the last int64 would keep the reading loop from its end.
abbrev pub most : ℕ
most = 2 ^ 63 - 1

itoa_int_lem : (n : ℕ) → n < most → itoa_int n ≡ itoa n
unfolding itoa_int
itoa_int_lem n h = rw (lt→ltb n (2 ^ 63) (omega arith)) refl

itoa-Lacks : (b n : ℕ) → b < b'0' → Lacks b (itoa n)
itoa-Lacks b n h = IsDigits-Lacks b (itoa n) h (itoa-IsDigits n)

from-suc : (s n : ℕ) → from s (suc n) ≡ from s n ++ (s + n) ∷ []
unfolding from
from-suc s zero = ap (λ (n : ℕ). n ∷ []) (omega arith)
from-suc s (suc n) =
    ap (λ (r : List ℕ). s ∷ r)
      (from-suc (suc s) n ∙ ap (λ (k : ℕ). from (suc s) n ++ k ∷ []) (omega arith))

-- The numbers of a range that is open at `end` and may grow.
abbrev pub numbers : ℕ → ℕ → List ℕ
numbers start end = from start (end + 1 - start)

pub numbers-grow :
    (start end : ℕ) (rest : List ℕ)
    → start ≤ end
    → numbers start (end + 1) ++ rest ≡ numbers start end ++ (end + 1) ∷ rest
numbers-grow start end rest h =
    let count : end + 1 + 1 - start ≡ suc (end + 1 - start) = omega arith in
    let last : start + (end + 1 - start) ≡ end + 1 = omega arith in
    rw (count, from-suc start (end + 1 - start), last)
      (append_assoc (numbers start end) ((end + 1) ∷ []) rest)

pub numbers-one : (n : ℕ) → numbers n n ≡ n ∷ []
unfolding from
numbers-one n = let count : n + 1 - n ≡ 1 = omega arith in rw count refl

range_text_one : (n : ℕ) → n < most → range_text n n ≡ itoa n
unfolding range_text
range_text_one n h = rw ((nat_eqb_iff n n).1 refl, itoa_int_lem n h) refl

range_text_two :
    (start end : ℕ)
    → start < end
    → end < most
    → range_text start end ≡ itoa start ++ b'-' ∷ itoa end
unfolding range_text
range_text_two start end h k =
    let ne : nat_eqb start end ≡ false = ground arith in
    rw (ne, itoa_int_lem start (omega arith), itoa_int_lem end k) refl

-- Either of the two forms.
range_text_cases :
    (start end : ℕ)
    → start ≤ end
    → end < most
    → ((start ≡ end) × (range_text start end ≡ itoa end))
      ⊎ ((start < end) × (range_text start end ≡ itoa start ++ b'-' ∷ itoa end))
range_text_cases start end h k = elim (Bool-cases (nat_eqb start end)) [
  | inl eq ↦ let same = (nat_eqb_iff start end).0 eq in inl (same, rw same (range_text_one end k))
  | inr ne ↦ inr (ground arith, range_text_two start end (ground arith) k)
]

pub range_text-Lacks :
    (start end : ℕ) → start ≤ end → end < most → Lacks b',' (range_text start end)
range_text-Lacks start end h k = elim (range_text_cases start end h k) [
  | inl (same, e) ↦ rw e (itoa-Lacks b',' end (omega arith))
  | inr (lt, e) ↦ rw e (
      All-append (λ c. c ≢ b',') (itoa start) (b'-' ∷ itoa end)
        (itoa-Lacks b',' start (omega arith)) (omega arith, itoa-Lacks b',' end (omega arith)))
]

read_one : (n : ℕ) → n < most → read_part (itoa n) ≡ some (n ∷ [])
unfolding read_part
read_one n h =
    rw
      (
        contains_byte_of_Lacks b'-' (itoa n) (itoa-Lacks b'-' n (omega arith)),
        atoi-itoa n (omega arith),
      )
      refl

interval_lem : (start end : ℕ) → end < most → interval start end ≡ some (numbers start end)
unfolding interval
interval_lem start end h = let ne : nat_eqb end most ≡ false = ground arith in rw ne refl

read_two :
    (start end : ℕ)
    → start < most
    → end < most
    → read_part (itoa start ++ b'-' ∷ itoa end) ≡ interval start end
unfolding read_part bounds
read_two start end h k =
    rw
      (
        contains_byte-append b'-' (itoa start) (itoa end),
        split_on-append b'-' (itoa start) (itoa end) (itoa-Lacks b'-' start (omega arith)),
        split_on_of_Lacks b'-' (itoa end) (itoa-Lacks b'-' end (omega arith)),
        atoi-itoa start (omega arith),
        atoi-itoa end (omega arith),
      )
      refl

-- A range is read back as its numbers.
pub read_part-range_text :
    (start end : ℕ)
    → start ≤ end
    → end < most
    → read_part (range_text start end) ≡ some (numbers start end)
read_part-range_text start end h k = elim (range_text_cases start end h k) [
  | inl (same, e) ↦ rw (e, read_one end k, same, numbers-one end) refl
  | inr (lt, e) ↦ rw (e, read_two start end (omega arith) k) (interval_lem start end k)
]
