-- ===== src/Memory.antt =====
-- proxmox/config_qemu_memory.go: the memory settings of a virtual machine. The proofs are below:
-- `Memory.Validation` about `Validate`, `Memory.Update` about `mapToAPI` against the state that the
-- server keeps, `Memory.Answers` about `mapToSDK`, `Memory.Tests` the runs.
pub mod Validation
pub mod Server
pub mod Update
pub mod Answers
mod Tests
use Prim.Native.Nat.{ℕ}
use proxmox_api_go.Base.{
  String, Option, none, some, ltb, nat_eqb, if◌then◌else◌, Params, int, insert, string_eq,
}

pub record QemuMemory : Type 0 where
  pub capacity_mib : Option ℕ
  pub minimum_capacity_mib : Option ℕ
  pub shares : Option ℕ

-- The errors of this file, a constructor for each message.
pub data MemoryError : Type 0 where
  minimum_capacity_mib_greater_than_capacity_mib : MemoryError
  no_memory_capacity : MemoryError
  shares_has_no_effect_without_ballooning : MemoryError
  balloon_capacity_invalid : MemoryError
  capacity_maximum : MemoryError
  capacity_minimum : MemoryError
  shares_invalid : MemoryError

abbrev pub balloon_capacity_max : ℕ
balloon_capacity_max = 4178944

abbrev pub capacity_max : ℕ
capacity_max = 4178944

abbrev pub shares_max : ℕ
shares_max = 50000

-- `none` is the nil error.
unfoldable pub validate_balloon_capacity : ℕ → Option MemoryError
validate_balloon_capacity m =
    if ltb balloon_capacity_max m then some balloon_capacity_invalid else none

unfoldable pub validate_capacity : ℕ → Option MemoryError
validate_capacity m =
    if nat_eqb m 0
    then some capacity_minimum
    else if ltb capacity_max m
    then some capacity_maximum
    else none

unfoldable pub validate_shares : ℕ → Option MemoryError
validate_shares m = if ltb shares_max m then some shares_invalid else none

-- `if err := …; err != nil { return err }`
infixr 5 ◌orelse◌
abbrev pub ◌orelse◌ : Option MemoryError → Option MemoryError → Option MemoryError
some err orelse rest = some err
none orelse rest = rest

-- The part of `Validate` that reads the shares.
validate_shares_use : Option ℕ → ℕ → ℕ → Option MemoryError
unfolding validate_shares
validate_shares_use none eventual_capacity eventual_minimum = none
validate_shares_use (some shares) eventual_capacity eventual_minimum =
    validate_shares shares
    orelse (if ltb 0 shares
        then if nat_eqb eventual_capacity eventual_minimum
          then some shares_has_no_effect_without_ballooning
          else none
        else none)

-- The check of the minimum, and that it is not above a capacity given with it.
validate_minimum : Option ℕ → Option ℕ → Option MemoryError
unfolding validate_balloon_capacity
validate_minimum none capacity = none
validate_minimum (some minimum) none = validate_balloon_capacity minimum
validate_minimum (some minimum) (some capacity) =
    validate_balloon_capacity minimum
    orelse (if ltb capacity minimum
        then some minimum_capacity_mib_greater_than_capacity_mib
        else none)

validate_given_capacity : Option ℕ → Option MemoryError
unfolding validate_capacity
validate_given_capacity none = none
validate_given_capacity (some capacity) = validate_capacity capacity

-- A setting of the current configuration, which may be nil.
abbrev pub current_minimum : Option QemuMemory → Option ℕ
current_minimum none = none
current_minimum (some current) = current.minimum_capacity_mib

abbrev pub current_capacity : Option QemuMemory → Option ℕ
current_capacity none = none
current_capacity (some current) = current.capacity_mib

-- The first of the two that is set, and else the zero of Go's `var`.
abbrev pub first_set : Option ℕ → Option ℕ → ℕ
first_set (some n) other = n
first_set none (some n) = n
first_set none none = 0

-- The capacity starts from the minimum that is given in the same call.
unfoldable pub eventual_capacity_mib : QemuMemory → Option QemuMemory → ℕ
eventual_capacity_mib config current = elim config.capacity_mib [
  | some capacity ↦ capacity
  | none ↦ first_set (current_capacity current) config.minimum_capacity_mib
]

unfoldable pub validate : QemuMemory → Option QemuMemory → Option MemoryError
unfolding validate_minimum validate_given_capacity validate_shares_use eventual_capacity_mib
validate config current =
    validate_minimum config.minimum_capacity_mib config.capacity_mib
    orelse validate_given_capacity config.capacity_mib
    orelse (if nat_eqb (eventual_capacity_mib config current) 0
        then some no_memory_capacity
        else validate_shares_use config.shares (eventual_capacity_mib config current)
            (first_set config.minimum_capacity_mib (current_minimum current)))

-- `if field != nil { params[key] = *field }`
abbrev pub put_some : String → Option ℕ → Params → Params
put_some key none params = params
put_some key (some n) params = insert key (int n) params

create_minimum : Option ℕ → Option ℕ → Params → Params
create_minimum none capacity params = params
create_minimum (some minimum) none params =
    insert "memory" (int minimum) (insert "balloon" (int minimum) params)
create_minimum (some minimum) (some capacity) params = insert "balloon" (int minimum) params

create_shares : Option ℕ → Params → Params
create_shares none params = params
create_shares (some shares) params =
    if ltb 0 shares then insert "shares" (int shares) params else params

update_shares : Option ℕ → Params → Params × String
update_shares none params = (params, "")
update_shares (some shares) params =
    if nat_eqb shares 0 then (params, ",shares") else (insert "shares" (int shares) params, "")

update_minimum : Option ℕ → Option ℕ → Params → Params × String
unfolding update_shares
update_minimum none shares params = update_shares shares params
update_minimum (some minimum) shares params =
    let params' = insert "balloon" (int minimum) params in
    if nat_eqb minimum 0 then (params', ",shares") else update_shares shares params'

update_capacity : QemuMemory → Option ℕ → Option ℕ → Params → Params × String
unfolding update_minimum
update_capacity config none minimum params =
    update_minimum config.minimum_capacity_mib config.shares params
update_capacity config (some capacity) minimum params =
    let params' = insert "memory" (int capacity) params in
    elim config.minimum_capacity_mib [
      | none ↦ elim minimum [
        | none ↦ update_minimum config.minimum_capacity_mib config.shares params'
        | some m ↦
            if ltb capacity m
            then (insert "balloon" (int capacity) params', ",shares")
            else update_minimum config.minimum_capacity_mib config.shares params'
      ]
      | some _ ↦ update_minimum config.minimum_capacity_mib config.shares params'
    ]

-- The new params and the keys to delete, each behind a comma.
unfoldable pub map_to_api : QemuMemory → Option QemuMemory → Params → Params × String
unfolding create_minimum create_shares update_capacity
map_to_api config none params = (
  create_shares config.shares (
      create_minimum config.minimum_capacity_mib config.capacity_mib
        (put_some "memory" config.capacity_mib params)),
  "",
)
map_to_api config (some current) params =
    update_capacity config config.capacity_mib current.minimum_capacity_mib params
