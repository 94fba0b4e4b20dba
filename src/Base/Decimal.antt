-- ===== src/Base/Decimal.antt =====
-- Decimal notation: `strconv.Itoa` and `FormatInt` on numbers that are not negative, and the digits
-- that `Atoi` and `ParseUint` read.
use Prim.Native.Nat.{ℕ, zero, suc, ◌+◌, ◌-◌, ◌*◌, ◌/◌, ◌%◌, ◌^◌, ◌≤◌, ◌<◌}
use mathlib.Core.Path.{◌≡◌, refl, sym, ap, ◌∙◌}
use mathlib.Core.Logic.{◌≢◌, inl, inr}
use mathlib.Core.Bool.{Bool, true, false, ◌&&◌}
use mathlib.Core.Option.{Option, none, some}
use mathlib.Core.List.{[], ◌∷◌}
use native.Mathlib.Omega.{arith}
use proxmox_api_go.Base.Tests.{ltb→lt, ltb, leb, nat_eqb, Bool-cases, if◌then◌else◌}
use proxmox_api_go.Base.Lists.{All, all}
use proxmox_api_go.Base.Texts.{Text}
use proxmox_api_go.Base.Split.{Lacks}

abbrev pub is_digit : ℕ → Bool
is_digit c = leb b'0' c && leb c b'9'

abbrev pub IsDigits : Text → Type 0
IsDigits = All (λ c. (b'0' ≤ c) × (c ≤ b'9'))

-- The digits of `n` before `out`, with fuel.
emit : ℕ → ℕ → Text → Text
emit zero n out = out
emit (suc f) n out =
    let rest = emit f (n / 10) ((b'0' + n % 10) ∷ out) in
    if ltb n 10 then (b'0' + n) ∷ out else rest

unfoldable pub itoa : ℕ → Text
unfolding emit
itoa n = emit (suc n) n []

unfoldable pub digits_value : ℕ → Text → ℕ
digits_value acc [] = acc
digits_value acc (c ∷ s) = digits_value (acc * 10 + (c - b'0')) s

-- The value of a text that is a number without a sign, or 0 as the ignored error leaves it; a
-- number beyond the type is the greatest of the type.
unfoldable pub parse_digits : ℕ → Text → ℕ
unfolding digits_value
parse_digits most [] = 0
parse_digits most (c ∷ s) =
    if all is_digit (c ∷ s)
    then if ltb most (digits_value 0 (c ∷ s)) then most else digits_value 0 (c ∷ s)
    else 0

-- `n, _ := strconv.Atoi(s)` on a text without a minus sign; a plus sign may stand in front.
unfoldable pub atoi : Text → ℕ
unfolding parse_digits
atoi [] = 0
atoi (c ∷ s) =
    if nat_eqb c b'+' then parse_digits (2 ^ 63 - 1) s else parse_digits (2 ^ 63 - 1) (c ∷ s)

-- `strconv.Itoa(int(n))`, where a uint from 2^63 on becomes negative.
unfoldable pub itoa_int : ℕ → Text
itoa_int n = if ltb n (2 ^ 63) then itoa n else b'-' ∷ itoa (2 ^ 64 - n)

-- `strconv.Atoi`: a sign and a magnitude, or `none` where it returns an error.
abbrev pub in_range : Bool → Text → Option (Bool × ℕ)
in_range negative [] = none
in_range negative (c ∷ s) =
    if all is_digit (c ∷ s)
      && leb (digits_value 0 (c ∷ s)) (if negative then 2 ^ 63 else 2 ^ 63 - 1)
    then some (negative, digits_value 0 (c ∷ s))
    else none

unfoldable pub parse_int : Text → Option (Bool × ℕ)
unfolding digits_value
parse_int [] = none
parse_int (c ∷ s) =
    if nat_eqb c b'+'
    then in_range false s
    else if nat_eqb c b'-'
    then in_range true s
    else in_range false (c ∷ s)

-- The conversion of an int to a uint.
abbrev pub to_uint : Bool × ℕ → ℕ
to_uint (negative, n) = if negative then (2 ^ 64 - n) % 2 ^ 64 else n

-- `n, _ := strconv.Atoi(s)`, converted to a uint.
unfoldable pub uint_atoi : Text → ℕ
unfolding atoi parse_digits
uint_atoi [] = 0
uint_atoi (c ∷ s) = if nat_eqb c b'-' then to_uint (true, parse_digits (2 ^ 63) s) else atoi (c ∷ s)

emit-IsDigits : (f n : ℕ) (out : Text) → IsDigits out → IsDigits (emit f n out)
unfolding emit
emit-IsDigits zero n out h = h
emit-IsDigits (suc f) n out h = elim (Bool-cases (ltb n 10)) [
  | inl small ↦ rw small (ground arith)
  | inr large ↦ rw large (emit-IsDigits f (n / 10) _ ((omega arith, omega arith), h))
]

pub itoa-IsDigits : (n : ℕ) → IsDigits (itoa n)
unfolding itoa
itoa-IsDigits n = emit-IsDigits (suc n) n [] tt

ap_value : (m n : ℕ) (out : Text) → m ≡ n → digits_value m out ≡ digits_value n out
ap_value m n out e = ap (λ k. digits_value k out) e

digits_value_nil : (n : ℕ) → digits_value n [] ≡ n
unfolding digits_value
digits_value_nil n = refl

digits_value-emit :
    (f n : ℕ) (out : Text) → n < f → digits_value 0 (emit f n out) ≡ digits_value n out
unfolding digits_value emit
digits_value-emit zero n out h = absurd (omega arith)
digits_value-emit (suc f) n out h = elim (Bool-cases (ltb n 10)) [
  | inl small ↦ rw small (ap_value (0 * 10 + (b'0' + n - b'0')) n out (omega arith))
  | inr large ↦ rw large (
      digits_value-emit f (n / 10) ((b'0' + n % 10) ∷ out) (ground arith)
      ∙ ap_value (n / 10 * 10 + (b'0' + n % 10 - b'0')) n out (omega arith))
]

pub digits_value-itoa : (n : ℕ) → digits_value 0 (itoa n) ≡ n
unfolding itoa
digits_value-itoa n = digits_value-emit (suc n) n [] (omega arith) ∙ digits_value_nil n

all_digits : (s : Text) → IsDigits s → all is_digit s ≡ true
all_digits [] _ = refl
all_digits (c ∷ s) (h, hs) = ground (arith, all_digits s hs)

emit_cons-ne-nil : (f n d : ℕ) (out : Text) → emit f n (d ∷ out) ≢ []
unfolding emit
emit_cons-ne-nil zero n d out = λ e. cc
emit_cons-ne-nil (suc f) n d out = elim (Bool-cases (ltb n 10)) [
  | inl small ↦ rw small (λ e. cc)
  | inr large ↦ rw large (emit_cons-ne-nil f (n / 10) _ (d ∷ out))
]

pub itoa_injective : (a b : ℕ) → itoa a ≡ itoa b → a ≡ b
itoa_injective a b e = sym (digits_value-itoa a) ∙ ap (digits_value 0) e ∙ digits_value-itoa b

pub itoa-ne-nil : (n : ℕ) → itoa n ≢ []
unfolding itoa emit
itoa-ne-nil n = elim (Bool-cases (ltb n 10)) [
  | inl small ↦ rw small (λ e. cc)
  | inr large ↦ rw large (emit_cons-ne-nil n (n / 10) _ [])
]

-- A text of digits is read as their value, if that fits.
parse_digits_of_IsDigits :
    (most : ℕ) (t : Text)
    → t ≢ []
    → IsDigits t
    → digits_value 0 t ≤ most
    → parse_digits most t ≡ digits_value 0 t
unfolding parse_digits
parse_digits_of_IsDigits most [] ne h fits = absurd (ne refl)
parse_digits_of_IsDigits most (c ∷ s) ne h fits = ground (arith, all_digits (c ∷ s) h)

atoi_of_IsDigits : (t : Text) → IsDigits t → atoi t ≡ parse_digits (2 ^ 63 - 1) t
unfolding atoi
atoi_of_IsDigits [] h = refl
atoi_of_IsDigits (c ∷ s) h = ground arith

-- A number that fits is read back from its notation.
pub parse_digits-itoa : (most n : ℕ) → n ≤ most → parse_digits most (itoa n) ≡ n
parse_digits-itoa most n h =
    parse_digits_of_IsDigits most (itoa n) (itoa-ne-nil n) (itoa-IsDigits n)
      (omega (arith, digits_value-itoa n))
    ∙ digits_value-itoa n

pub atoi-itoa : (n : ℕ) → n < 2 ^ 63 → atoi (itoa n) ≡ n
atoi-itoa n h =
    atoi_of_IsDigits (itoa n) (itoa-IsDigits n) ∙ parse_digits-itoa (2 ^ 63 - 1) n (omega arith)

pub IsDigits-Lacks : (b : ℕ) (s : Text) → b < b'0' → IsDigits s → Lacks b s
IsDigits-Lacks b [] h _ = tt
IsDigits-Lacks b (c ∷ s) h (d, ds) = (λ e. omega arith, IsDigits-Lacks b s h ds)

abbrev if_fits : ℕ → Option (Bool × ℕ)
if_fits n = if leb n (2 ^ 63 - 1) then some (false, n) else none

in_range_of_IsDigits :
    (t : Text) → t ≢ [] → IsDigits t → in_range false t ≡ if_fits (digits_value 0 t)
in_range_of_IsDigits [] ne h = absurd (ne refl)
in_range_of_IsDigits (c ∷ s) ne h = rw (all_digits (c ∷ s) h) refl

parse_int_of_IsDigits : (t : Text) → t ≢ [] → IsDigits t → parse_int t ≡ in_range false t
unfolding parse_int
parse_int_of_IsDigits [] ne h = absurd (ne refl)
parse_int_of_IsDigits (c ∷ s) ne h = ground arith

-- A number that is not above the type is read back with its sign, and another one is refused.
pub parse_int-itoa :
    (n : ℕ) → parse_int (itoa n) ≡ (if leb n (2 ^ 63 - 1) then some (false, n) else none)
parse_int-itoa n =
    parse_int_of_IsDigits (itoa n) (itoa-ne-nil n) (itoa-IsDigits n)
    ∙ in_range_of_IsDigits (itoa n) (itoa-ne-nil n) (itoa-IsDigits n)
    ∙ ap if_fits (digits_value-itoa n)

pub IsDigits-Lacks_other : (b : ℕ) (s : Text) → is_digit b ≡ false → IsDigits s → Lacks b s
IsDigits-Lacks_other b [] h _ = tt
IsDigits-Lacks_other b (c ∷ s) h (d, ds) = (λ e. ground arith, IsDigits-Lacks_other b s h ds)

pub itoa_int_of_fits : (n : ℕ) → n < 2 ^ 63 → itoa_int n ≡ itoa n
unfolding itoa_int
itoa_int_of_fits n h = ground arith

uint_atoi_of_digit : (t : Text) → IsDigits t → uint_atoi t ≡ atoi t
unfolding uint_atoi atoi
uint_atoi_of_digit [] h = refl
uint_atoi_of_digit (c ∷ s) (h, hs) = ground arith

-- Every uint is read back, those that are written as negative numbers too.
pub uint_atoi-itoa_int : (n : ℕ) → n < 2 ^ 64 → uint_atoi (itoa_int n) ≡ n
unfolding itoa_int uint_atoi
uint_atoi-itoa_int n fits = elim (Bool-cases (ltb n (2 ^ 63))) [
  | inl small ↦
      rw small
        (uint_atoi_of_digit (itoa n) (itoa-IsDigits n) ∙ atoi-itoa n (ltb→lt n (2 ^ 63) small))
  | inr large ↦
      rw large (rw (parse_digits-itoa (2 ^ 63) (2 ^ 64 - n) (ground arith)) (ground arith))
]
