-- ===== src/Memory/Update.antt =====
-- `QemuMemory.mapToAPI` against the settings that the server keeps.
use Prim.Native.Nat.{ℕ, zero, suc, ◌≤◌, ◌<◌}
use proxmox_api_go.Base.{
  string_eq, Option, none, some, [], ◌≡◌, refl, ◌≢◌, ◌⊎◌, arith, ltb, false, lt→ltb, Bool-cases,
  inl, inr, nat_eqb, lookup, insert,
}
use proxmox_api_go.Memory.{QemuMemory, validate, map_to_api, balloon_capacity_max}
use proxmox_api_go.Memory.Server.{receive, merged, IsBalanced, Below, or_else, shares_after}

abbrev settings : Option ℕ → Option ℕ → Option ℕ → QemuMemory
settings c m s = record { capacity_mib = c; minimum_capacity_mib = m; shares = s }

-- The cases of the two theorems below, by the settings that are given.
update_by_cases :
    (c m s m' : Option ℕ) (c' s' : Option ℕ)
    → receive (settings c' m' s') (map_to_api (settings c m s) (some (settings c' m' s')) [])
      ≡ merged (settings c m s) (settings c' m' s')
unfolding receive map_to_api lookup insert
update_by_cases none none none m' c' s' = refl
update_by_cases none none (some s) m' c' s' = elim (Bool-cases (nat_eqb s 0)) [
  | inl e ↦ rw e refl
  | inr e ↦ rw e refl
]
update_by_cases none (some m) none m' c' s' = elim (Bool-cases (nat_eqb m 0)) [
  | inl z ↦ rw z refl
  | inr z ↦ rw z (refl)
]
update_by_cases none (some m) (some s) m' c' s' = elim (Bool-cases (nat_eqb m 0)) [
  | inl z ↦ rw z refl
  | inr z ↦ rw z (elim (Bool-cases (nat_eqb s 0)) [ inl e ↦ rw e refl | inr e ↦ rw e refl ])
]
update_by_cases (some c) (some m) none m' c' s' = elim (Bool-cases (nat_eqb m 0)) [
  | inl z ↦ rw z refl
  | inr z ↦ rw z (refl)
]
update_by_cases (some c) (some m) (some s) m' c' s' = elim (Bool-cases (nat_eqb m 0)) [
  | inl z ↦ rw z refl
  | inr z ↦ rw z (elim (Bool-cases (nat_eqb s 0)) [ inl e ↦ rw e refl | inr e ↦ rw e refl ])
]
update_by_cases (some c) none none none c' s' = refl
update_by_cases (some c) none (some s) none c' s' = elim (Bool-cases (nat_eqb s 0)) [
  | inl e ↦ rw e refl
  | inr e ↦ rw e refl
]
update_by_cases (some c) none none (some m') c' s' = elim (Bool-cases (ltb c m')) [
  | inl z ↦ rw z refl
  | inr z ↦ rw z (refl)
]
update_by_cases (some c) none (some s) (some m') c' s' = elim (Bool-cases (ltb c m')) [
  | inl z ↦ rw z refl
  | inr z ↦ rw z (elim (Bool-cases (nat_eqb s 0)) [ inl e ↦ rw e refl | inr e ↦ rw e refl ])
]

suc_ne_zero : (n : ℕ) → nat_eqb (suc n) 0 ≡ false
suc_ne_zero n = ground arith

create_by_cases :
    (c m s : Option ℕ)
    → receive (settings none none none) (map_to_api (settings c m s) none [])
      ≡ settings (or_else c m) m (shares_after s none)
unfolding receive map_to_api lookup insert
create_by_cases none none none = refl
create_by_cases none none (some zero) = refl
create_by_cases none none (some (suc s)) = rw (lt→ltb 0 (suc s) (omega arith), suc_ne_zero s) refl
create_by_cases none (some m) none = refl
create_by_cases none (some m) (some zero) = refl
create_by_cases none (some m) (some (suc s)) =
    rw (lt→ltb 0 (suc s) (omega arith), suc_ne_zero s) refl
create_by_cases (some c) none none = refl
create_by_cases (some c) none (some zero) = refl
create_by_cases (some c) none (some (suc s)) =
    rw (lt→ltb 0 (suc s) (omega arith), suc_ne_zero s) refl
create_by_cases (some c) (some m) none = refl
create_by_cases (some c) (some m) (some zero) = refl
create_by_cases (some c) (some m) (some (suc s)) =
    rw (lt→ltb 0 (suc s) (omega arith), suc_ne_zero s) refl

-- A change of the settings, sent to a server that holds the current ones, leaves the merged settings.
pub receive-map_to_api :
    (config current : QemuMemory)
    → receive current (map_to_api config (some current) []) ≡ merged config current
receive-map_to_api config current =
    update_by_cases config.capacity_mib config.minimum_capacity_mib config.shares
      current.minimum_capacity_mib current.capacity_mib current.shares

-- At its creation a machine gets the capacity, or else the minimum in its place, the minimum, and
-- the shares unless they are 0; nothing is deleted.
receive-map_to_api_create :
    (config : QemuMemory)
    → receive
        (record { capacity_mib = none; minimum_capacity_mib = none; shares = none })
        (map_to_api config none [])
      ≡ record {
        capacity_mib = or_else config.capacity_mib config.minimum_capacity_mib;
        minimum_capacity_mib = config.minimum_capacity_mib;
        shares = shares_after config.shares none;
      }
receive-map_to_api_create config =
    create_by_cases config.capacity_mib config.minimum_capacity_mib config.shares

-- A change that passes `Validate` keeps the minimum below the capacity, if it names a capacity or
-- its minimum is not above the one that the machine has.
pub map_to_api-IsBalanced :
    (config current : QemuMemory)
    → validate config (some current) ≡ none
    → IsBalanced current
    → (config.capacity_mib ≢ none) ⊎ Below config.minimum_capacity_mib current.capacity_mib
    → IsBalanced (receive current (map_to_api config (some current) []))
unfolding validate
map_to_api-IsBalanced config current valid balanced fits =
    rw (receive-map_to_api config current) (ground arith)

-- Without that condition `Validate` does not protect the machine: each change of the minimum alone to
-- a value in range above the current capacity passes, and leaves the minimum above the capacity.
pub validate_misses_minimum :
    (m c : ℕ) (current : QemuMemory)
    → current.capacity_mib ≡ some c
    → 0 < c
    → c < m
    → m ≤ balloon_capacity_max
    → (validate
          (record { capacity_mib = none; minimum_capacity_mib = some m; shares = none })
          (some current)
        ≡ none)
      × ¬ IsBalanced (
          receive current (
            map_to_api
              (record { capacity_mib = none; minimum_capacity_mib = some m; shares = none })
              (some current)
              []))
unfolding validate
validate_misses_minimum m c current has pos above range =
    (ground arith, rw (receive-map_to_api (settings none (some m) none) current) (ground arith))
