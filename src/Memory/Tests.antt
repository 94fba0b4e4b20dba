-- ===== src/Memory/Tests.antt =====
-- Runs of the memory settings, and the theorems at concrete machines.
use proxmox_api_go.Base.{
  Text, Float, Option, ap, itoa, digits_value, digits_value-itoa, flt, str, lookup, ◌∷◌, inr,
  Params, string_eq, none, some, [], ◌≡◌, refl, arith, inl,
}
use proxmox_api_go.Memory.Answers.{whole_number, map_to_sdk, map_to_sdk-StatesMemory}
use proxmox_api_go.Memory.{QemuMemory, validate, map_to_api, shares_invalid}
use proxmox_api_go.Memory.Validation.{validate_iff, IsAcceptable}
use proxmox_api_go.Memory.Server.{receive, IsBalanced}
use proxmox_api_go.Memory.Update.{
  receive-map_to_api, map_to_api-IsBalanced, validate_misses_minimum,
}

abbrev machine : QemuMemory
machine = record { capacity_mib = some 4096; minimum_capacity_mib = some 2048; shares = some 1000 }

abbrev shrink : QemuMemory
shrink = record { capacity_mib = some 1024; minimum_capacity_mib = none; shares = none }

shrink_run : (map_to_api shrink (some machine) []).1 ≡ ",shares"
unfolding map_to_api
shrink_run = refl

too_many_shares :
    validate
      (record { capacity_mib = some 1; minimum_capacity_mib = none; shares = some 50001 })
      none
    ≡ some shares_invalid
unfolding validate
too_many_shares = refl

shrink_valid : validate shrink (some machine) ≡ none
unfolding validate
shrink_valid = refl

validate_iff_example : IsAcceptable shrink (some machine)
validate_iff_example = (validate_iff shrink (some machine)).0 shrink_valid

receive-map_to_api_example :
    receive machine (map_to_api shrink (some machine) [])
    ≡ record { capacity_mib = some 1024; minimum_capacity_mib = some 1024; shares = none }
receive-map_to_api_example = receive-map_to_api shrink machine

map_to_api-IsBalanced_example : IsBalanced (receive machine (map_to_api shrink (some machine) []))
map_to_api-IsBalanced_example =
    map_to_api-IsBalanced shrink machine shrink_valid (omega arith) (inl (λ h. cc))

abbrev raise : QemuMemory
raise = record { capacity_mib = none; minimum_capacity_mib = some 8192; shares = none }

validate_misses_minimum_example :
    (validate raise (some machine) ≡ none)
    × ¬ IsBalanced (receive machine (map_to_api raise (some machine) []))
validate_misses_minimum_example =
    validate_misses_minimum 8192 4096 machine refl (omega arith) (omega arith) (omega arith)

-- A reader of decimal texts.
abbrev read_decimal : Text → Option Float
read_decimal t = some (whole_number (digits_value 0 t))

abbrev listed : Params
listed =
    ("memory", str (itoa 4096))
    ∷ ("balloon", flt (whole_number 2048))
    ∷ ("shares", flt (whole_number 1000))
    ∷ []

map_to_sdk-StatesMemory_example : map_to_sdk read_decimal listed ≡ machine
unfolding lookup
map_to_sdk-StatesMemory_example =
    map_to_sdk-StatesMemory read_decimal
      (λ n h. ap (λ k. some (whole_number k)) (digits_value-itoa n)) listed machine (omega arith)
      (omega arith) (omega arith) (inr refl, inl refl, inl refl)
