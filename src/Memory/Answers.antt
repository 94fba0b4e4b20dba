-- ===== src/Memory/Answers.antt =====
-- `QemuMemory.mapToSDK`, with `Uint` of internal/parse/parse.go: the memory settings in an answer of the
-- server. `strconv.ParseFloat` is the parameter `parse_float`.
use native.Mathlib.Nat.{mod-eq_of_lt}
use proxmox_api_go.Base.{
  ℕ, ◌<◌, ◌%◌, ◌^◌, ◌≡◌, ◌⊎◌, inl, inr, refl, arith, false, ◌&&◌, ◌||◌, not, leb, nat_eqb,
  if◌then◌else◌, Option, none, some, string_eq, Text, itoa, Float, Value, flt, str, Params, lookup,
}
use proxmox_api_go.Memory.{QemuMemory}

-- `parse.Uint` of a float64: `int` drops what is behind the point, and what is out of the range of an
-- int becomes the least one, which is negative.
unfoldable pub uint_of_float : Float → Option ℕ
uint_of_float f =
    if f.negative && not (nat_eqb f.whole 0) || leb (2 ^ 63) f.whole then none else some f.whole

abbrev pub whole_number : ℕ → Float
whole_number n = record { negative = false; whole = n; fraction = false }

module _ (parse_float : Text → Option Float) where
  -- `Uint` of internal/parse/parse.go.
  unfoldable pub parse_uint : Value → Option ℕ
  parse_uint (flt f) = uint_of_float f
  parse_uint (str s) = elim (parse_float s) [ none ↦ none | some f ↦ uint_of_float f ]
  parse_uint _ = none

  -- `tmp, _ := parse.Uint(v)`, converted to `w` bits: the error is dropped, and leaves a 0.
  abbrev pub setting : ℕ → Option Value → Option ℕ
  setting w none = none
  setting w (some v) = some (elim (parse_uint v) [ none ↦ 0 | some n ↦ n % 2 ^ w ])

  -- `mapToSDK`
  unfoldable pub map_to_sdk : Params → QemuMemory
  map_to_sdk params = record {
    capacity_mib = setting 32 (lookup "memory" params);
    minimum_capacity_mib = setting 32 (lookup "balloon" params);
    shares = setting 16 (lookup "shares" params);
  }

-- An answer states a setting: it leaves the key out where there is none, and else has the number under
-- it, as a number or as its decimal text.
abbrev pub States : Option Value → Option ℕ → Type 0
States o none = o ≡ none
States o (some n) = (o ≡ some (flt (whole_number n))) ⊎ (o ≡ some (str (itoa n)))

abbrev pub Fits : ℕ → Option ℕ → Type 0
Fits w none = Unit
Fits w (some n) = n < 2 ^ w

abbrev pub StatesMemory : Params → QemuMemory → Type 0
StatesMemory params server =
    States (lookup "memory" params) server.capacity_mib
    × States (lookup "balloon" params) server.minimum_capacity_mib
    × States (lookup "shares" params) server.shares

uint_of_whole : (n : ℕ) → n < 2 ^ 63 → uint_of_float (whole_number n) ≡ some n
unfolding uint_of_float
uint_of_whole n h = ground arith

module _ (parse_float : Text → Option Float)
    (reads : (n : ℕ) → n < 2 ^ 32 → parse_float (itoa n) ≡ some (whole_number n)) where
  parse_uint_lem :
      (n : ℕ) (v : Value)
      → n < 2 ^ 32
      → (v ≡ flt (whole_number n)) ⊎ (v ≡ str (itoa n))
      → parse_uint parse_float v ≡ some n
  unfolding parse_uint
  parse_uint_lem n v h (inl e) = rw e (uint_of_whole n (omega arith))
  parse_uint_lem n v h (inr e) = rw (e, parse_uint, reads n h) (uint_of_whole n (omega arith))

  setting_lem :
      (w : ℕ) (o : Option Value) (s : Option ℕ)
      → ((n : ℕ) → n < 2 ^ w → n < 2 ^ 32)
      → Fits w s
      → States o s
      → setting parse_float w o ≡ s
  setting_lem w o none small fits e = rw e refl
  setting_lem w o (some n) small fits (inl e) =
      rw (e, parse_uint_lem n _ (small n fits) (inl refl), mod-eq_of_lt fits) refl
  setting_lem w o (some n) small fits (inr e) =
      rw (e, parse_uint_lem n _ (small n fits) (inr refl), mod-eq_of_lt fits) refl

  -- From an answer that states the settings of the server these settings are read, each as a number or
  -- as a decimal text, if they fit their types and `ParseFloat` reads the notation of a number.
  pub map_to_sdk-StatesMemory :
      (params : Params) (server : QemuMemory)
      → Fits 32 server.capacity_mib
      → Fits 32 server.minimum_capacity_mib
      → Fits 16 server.shares
      → StatesMemory params server
      → map_to_sdk parse_float params ≡ server
  unfolding map_to_sdk
  map_to_sdk-StatesMemory params server c m s stated = cc (
    setting_lem 32 _ server.capacity_mib (λ n h. h) c stated.0,
    setting_lem 32 _ server.minimum_capacity_mib (λ n h. h) m stated.1,
    setting_lem 16 _ server.shares (λ n h. omega arith) s stated.2,
  )
