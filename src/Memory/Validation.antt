-- ===== src/Memory/Validation.antt =====
-- What `QemuMemory.Validate` accepts.
use Prim.Native.Nat.{ℕ, ◌≤◌, ◌<◌}
use proxmox_api_go.Base.{Option, none, some, ◌≡◌, ◌≢◌, ◌↔◌, arith}
use proxmox_api_go.Memory.{
  QemuMemory, validate, current_minimum, current_capacity, balloon_capacity_max, capacity_max,
  shares_max,
}

-- A condition on a setting that may be left out.
abbrev pub Given : Option ℕ → (ℕ → Type 0) → Type 0
Given none P = Unit
Given (some n) P = P n

-- The capacity after the call, by that of the call, that of the machine and the minimum of the call;
-- and the minimum after the call.
abbrev pub final_capacity : Option ℕ → Option ℕ → Option ℕ → ℕ
final_capacity (some c) machine minimum = c
final_capacity none (some c) minimum = c
final_capacity none none (some m) = m
final_capacity none none none = 0

abbrev pub final_minimum : Option ℕ → Option ℕ → ℕ
final_minimum (some m) machine = m
final_minimum none (some m) = m
final_minimum none none = 0

-- The rules of the settings: the ranges, a minimum that is not above a capacity given with it, some
-- capacity in the end, and shares only where the memory can shrink.
pub record IsAcceptable (config : QemuMemory) (current : Option QemuMemory) : Type 0 where
  pub minimum_in_range : Given config.minimum_capacity_mib (λ m. m ≤ balloon_capacity_max)
  pub capacity_in_range : Given config.capacity_mib (λ c. (1 ≤ c) × (c ≤ capacity_max))
  pub minimum-le-capacity :
      Given config.minimum_capacity_mib (λ m. Given config.capacity_mib (λ c. m ≤ c))
  pub has_capacity :
      final_capacity config.capacity_mib (current_capacity current) config.minimum_capacity_mib ≢ 0
  pub shares_in_range : Given config.shares (λ s. s ≤ shares_max)
  pub shares_have_effect : Given config.shares (λ s.
      0 < s
      → final_capacity config.capacity_mib (current_capacity current) config.minimum_capacity_mib
        ≢ final_minimum config.minimum_capacity_mib (current_minimum current))

-- `Validate` returns nil exactly when the settings keep every rule of `IsAcceptable`.
pub validate_iff :
    (config : QemuMemory) (current : Option QemuMemory)
    → (validate config current ≡ none) ↔ IsAcceptable config current
unfolding validate
validate_iff config current = ground arith
