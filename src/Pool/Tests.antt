-- ===== src/Pool/Tests.antt =====
-- Runs of the pools, and the theorems at concrete guests.
use proxmox_api_go.Version.{smaller}
use proxmox_api_go.Pool.Server.{server, pool_of, same_itoa, server-MovesGuests}
use proxmox_api_go.Pool.Numbers.{IsGuest}
use proxmox_api_go.Pool.Members.{set_guests_lem}
use proxmox_api_go.Base.{
  ℕ, arith, nat_eqb, text_eqb, contains, if◌then◌else◌, Text, Bool-cases, inl, inr, some, none,
  split_on, Params, str, flt, arr, obj, one_more, no_values, member, no_members, string_eq, false,
  ◌≡◌, refl, List, [], ◌∷◌, codes, itoa, lookup, insert, text_eq, nat_eq,
}
use proxmox_api_go.Pool.{
  set_guests, version_8, api_error, map_to_sdk, GuestResource, ids_of, format_int64, map_to_string,
  guests_map, put_guest, group_by_pool, guests_to_remove_from_pools,
}
use proxmox_api_go.Pool.Guests.{guests_to_remove_from_pools_lem}

abbrev guest_of_prod : GuestResource
guest_of_prod = record { id = 100; pool = codes "prod" }

abbrev guest_of_test : GuestResource
guest_of_test = record { id = 101; pool = codes "test" }

abbrev free_guest : GuestResource
free_guest = record { id = 102; pool = [] }

abbrev guests : List GuestResource
guests = guest_of_prod ∷ guest_of_test ∷ free_guest ∷ []

vms_run : map_to_string (100 ∷ 101 ∷ []) ≡ codes "100,101"
unfolding map_to_string format_int64 itoa
vms_run = refl

groups_run :
    guests_to_remove_from_pools guests (102 ∷ 101 ∷ 100 ∷ [])
    ≡ (codes "test", 101 ∷ []) ∷ (codes "prod", 100 ∷ []) ∷ []
unfolding guests_to_remove_from_pools guests_map put_guest group_by_pool lookup insert
groups_run = refl

guests_to_remove_from_pools_lem_example :
    (ids_of (lookup (codes "test") (guests_to_remove_from_pools guests (102 ∷ 101 ∷ 100 ∷ [])))
      ≡ 101 ∷ [])
    × (ids_of (lookup [] (guests_to_remove_from_pools guests (102 ∷ 101 ∷ 100 ∷ []))) ≡ [])
guests_to_remove_from_pools_lem_example =
    guests_to_remove_from_pools_lem guests (102 ∷ 101 ∷ 100 ∷ []) (codes "test")

abbrev listed : Params
listed =
    ("poolid", str (codes "prod"))
    ∷ (
      "members",
      arr (
          one_more
            (obj (
              member "vmid" (flt (record { negative = false; whole = 100; fraction = false }))
                no_members))
            (one_more (obj (member "id" (str (codes "storage/pve/local")) no_members)) no_values)),
    )
    ∷ []

listed_run :
    map_to_sdk listed
    ≡ some (record { name = codes "prod"; comment = none; guests = some (100 ∷ []) })
unfolding map_to_sdk lookup
listed_run = refl

-- Guest 100 is in the pool, 101 in another, and no other guest is in one.
abbrev two_pools : Text → Text
two_pools g =
    if text_eqb (itoa 100) g
    then codes "prod"
    else if text_eqb (itoa 101) g
    then codes "test"
    else []

two_pools_held :
    (g : ℕ) → IsGuest g → contains (100 ∷ []) g ≡ text_eqb (pool_of two_pools g) (codes "prod")
two_pools_held g small = rw (same_itoa 100 g) (elim (Bool-cases (nat_eqb 100 g)) [
  | inl e ↦ rw e refl
  | inr e ↦
      rw e
        (elim (Bool-cases (text_eqb (itoa 101) (itoa g))) [ inl d ↦ rw d refl | inr d ↦ rw d refl ])
])

-- Guest 101 comes from its pool to this one, and guest 100 leaves it.
set_guests_lem_example :
    ((set_guests server two_pools (codes "prod") (101 ∷ []) (some (100 ∷ [])) version_8).1 ≡ none)
    × ((g : ℕ)
        → IsGuest g
        → pool_of
            (set_guests server two_pools (codes "prod") (101 ∷ []) (some (100 ∷ [])) version_8).0
            g
          ≡ (if contains (101 ∷ []) g
              then codes "prod"
              else if text_eqb (pool_of two_pools g) (codes "prod")
              then []
              else pool_of two_pools g))
unfolding smaller
set_guests_lem_example =
    set_guests_lem server pool_of server-MovesGuests version_8 refl two_pools (codes "prod")
      (101 ∷ []) (100 ∷ []) (λ e. cc) (omega arith) (omega arith) (refl, tt) (refl, tt)
      two_pools_held

-- Without leave to move the server refuses a guest of another pool.
refused_run :
    server.put two_pools (codes "/pools?poolid=prod") (("vms", str (codes "101")) ∷ [])
    ≡ (two_pools, some api_error)
unfolding lookup split_on itoa
refused_run = refl
