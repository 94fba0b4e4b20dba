-- ===== src/Cpu/Affinity.antt =====
-- The host cores that a machine may run on: `mapToApiAffinity` writes them as numbers and ranges, and
-- `mapToSdkAffinity` reads them. The proofs are in the modules below.
pub mod Sorting
pub mod Ranges
pub mod RoundTrip
mod Tests
use proxmox_api_go.Base.{
  itoa_int, ◌>>=◌, ℕ, zero, suc, ◌+◌, ◌-◌, ◌%◌, ◌^◌, Bool, true, false, ltb, leb, nat_eqb,
  if◌then◌else◌, Option, none, some, List, [], ◌∷◌, ◌++◌, Text, itoa, atoi, split_on, contains_byte,
}

-- `sort.Slice` by `<`.
unfoldable pub put_sorted : ℕ → List ℕ → List ℕ
put_sorted x [] = x ∷ []
put_sorted x (y ∷ ys) = let rest = put_sorted x ys in if leb x y then x ∷ y ∷ ys else y ∷ rest

unfoldable pub sort : List ℕ → List ℕ
sort [] = []
sort (x ∷ xs) = put_sorted x (sort xs)

unfoldable pub range_text : ℕ → ℕ → Text
range_text start end =
    if nat_eqb start end then itoa_int start else itoa_int start ++ b'-' ∷ itoa_int end

-- The loop, with the element before, the open range and the text that is written.
unfoldable pub write_ranges : (previous start end : ℕ) → List ℕ → Text → Text
write_ranges previous start end [] out = out ++ range_text start end
write_ranges previous start end (x ∷ xs) out = elim (nat_eqb x previous) [
  | true ↦ write_ranges x start end xs out
  | false ↦ elim (nat_eqb x ((end + 1) % 2 ^ 64)) [
    | true ↦ write_ranges x start x xs out
    | false ↦ write_ranges x x x xs (out ++ range_text start end ++ b',' ∷ [])
  ]
]

unfoldable pub write_sorted : List ℕ → Option Text
write_sorted [] = none
write_sorted (x ∷ xs) = some (write_ranges x x x xs [])

-- `none` is the panic of `affinity[0]` on an empty list. The source sorts the caller's list in place.
unfoldable pub map_to_api_affinity : List ℕ → Option Text
map_to_api_affinity affinity = write_sorted (sort affinity)

-- `count` numbers from `start` on.
unfoldable pub from : ℕ → ℕ → List ℕ
from start zero = []
from start (suc count) = start ∷ from (suc start) count

-- `for i := start; i <= end; i++`, which never ends where `end` is the greatest int: `none`.
unfoldable pub interval : ℕ → ℕ → Option (List ℕ)
interval start end = if nat_eqb end (2 ^ 63 - 1) then none else some (from start (end + 1 - start))

unfoldable pub bounds : List Text → Option (List ℕ)
bounds (start ∷ end ∷ rest) = interval (atoi start) (atoi end)
bounds _ = none

-- One part between commas: a range or a number.
unfoldable pub read_part : Text → Option (List ℕ)
read_part part =
    if contains_byte b'-' part then bounds (split_on b'-' part) else some (atoi part ∷ [])

unfoldable pub read_parts : List Text → Option (List ℕ)
read_parts [] = some []
read_parts (part ∷ parts) = do
  numbers ← read_part part
  rest ← read_parts parts
  some (numbers ++ rest)

unfoldable pub map_to_sdk_affinity : Text → Option (List ℕ)
map_to_sdk_affinity raw_affinity = read_parts (split_on b',' raw_affinity)
