-- ===== src/Cpu/Affinity/Tests.antt =====
-- Runs of the affinity, and the theorems at a concrete list.
use proxmox_api_go.Base.{
  itoa_int, ◌≡◌, refl, ℕ, List, [], ◌∷◌, some, codes, split_on, itoa, atoi, arith, contains, nat_eq,
  Text,
}
use proxmox_api_go.Cpu.Affinity.{
  sort, put_sorted, range_text, write_ranges, write_sorted, map_to_api_affinity, from, interval,
  bounds, read_part, read_parts, map_to_sdk_affinity,
}
use proxmox_api_go.Cpu.Affinity.Sorting.{IsIncreasing}
use proxmox_api_go.Cpu.Affinity.RoundTrip.{map_to_sdk_affinity-map_to_api_affinity}

write_run : Unit {0}
unfolding map_to_api_affinity sort put_sorted write_sorted write_ranges range_text itoa_int itoa
write_run = tt

abbrev cores : List ℕ
cores = 7 ∷ 0 ∷ 1 ∷ 2 ∷ 1 ∷ 12 ∷ []

written : map_to_api_affinity cores ≡ some (codes "0-2,7,12")
unfolding write_run
written = refl

read : map_to_sdk_affinity (codes "0-2,7,+12") ≡ some (0 ∷ 1 ∷ 2 ∷ 7 ∷ 12 ∷ [])
unfolding map_to_sdk_affinity read_parts read_part bounds interval from atoi split_on
read = refl

map_to_sdk_affinity-map_to_api_affinity_example :
    (text : Text) × (map_to_api_affinity cores ≡ some text)
    × ((numbers : List ℕ) × (map_to_sdk_affinity text ≡ some numbers)
        × ((n : ℕ) → contains numbers n ≡ contains cores n)
        × IsIncreasing numbers)
map_to_sdk_affinity-map_to_api_affinity_example =
    map_to_sdk_affinity-map_to_api_affinity cores (λ e. cc) (omega arith)
