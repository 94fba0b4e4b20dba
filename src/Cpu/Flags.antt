-- ===== src/Cpu/Flags.antt =====
-- `CpuFlags`: twelve flags that are each set, cleared, left open or not given. The struct is a
-- function from its fields; the order of `cpu_flags` is that of the source's arrays.
pub mod Names
pub mod RoundTrip
pub mod Validation
mod Tests
use proxmox_api_go.Base.{
  ℕ, Bool, true, false, ◌||◌, if◌then◌else◌, nat_eqb, Option, none, some, List, [], ◌∷◌, ◌++◌, Text,
  codes, Dict, lookup, insert, text_eq,
}
use proxmox_api_go.TriBool
use proxmox_api_go.TriBool.{TriBool, tri_false, tri_none, tri_true, tri_other, TriBoolError}

pub data CpuFlag : Type 0 where
  aes amd_no_ssb amd_ssbd hv_evmcs hv_tlb_flush ibpb : CpuFlag
  md_clear pcid pdpe1gb ssbd spec_ctrl virt_ssbd : CpuFlag

abbrev pub CpuFlags : Type 0
CpuFlags = CpuFlag → Option TriBool

abbrev pub cpu_flags : List CpuFlag
cpu_flags =
    aes ∷ amd_no_ssb ∷ amd_ssbd ∷ hv_evmcs ∷ hv_tlb_flush ∷ ibpb ∷ md_clear ∷ pcid ∷ pdpe1gb ∷ ssbd
    ∷ spec_ctrl ∷ virt_ssbd ∷ []

-- `flagNames`
unfoldable pub flag_name : CpuFlag → Text
flag_name aes = codes "aes"
flag_name amd_no_ssb = codes "amd-no-ssb"
flag_name amd_ssbd = codes "amd-ssbd"
flag_name hv_evmcs = codes "hv-evmcs"
flag_name hv_tlb_flush = codes "hv-tlbflush"
flag_name ibpb = codes "ibpb"
flag_name md_clear = codes "md-clear"
flag_name pcid = codes "pcid"
flag_name pdpe1gb = codes "pdpe1gb"
flag_name ssbd = codes "ssbd"
flag_name spec_ctrl = codes "spec-ctrl"
flag_name virt_ssbd = codes "virt-ssbd"

-- `CpuFlags{}`
abbrev pub no_flags : CpuFlags
no_flags flag = none

-- What one value adds to the text.
unfoldable pub flag_text : CpuFlag → TriBool → Text
flag_text flag tri_true = b';' ∷ b'+' ∷ flag_name flag
flag_text flag tri_false = b';' ∷ b'-' ∷ flag_name flag
flag_text flag _ = []

-- The loop, with the builder and `isSet`.
unfoldable pub write_flags : CpuFlags → CpuFlags → List CpuFlag → Text → Bool → Text × Bool
unfolding flag_text
write_flags flags current [] builder is_set = (builder, is_set)
write_flags flags current (flag ∷ rest) builder is_set = elim (flags flag) [
  | some v ↦ write_flags flags current rest (builder ++ flag_text flag v) true
  | none ↦ elim (current flag) [
    | some v ↦ write_flags flags current rest (builder ++ flag_text flag v) true
    | none ↦ write_flags flags current rest builder is_set
  ]
]

unfoldable pub map_to_api : CpuFlags → Option CpuFlags → Text × Bool
unfolding write_flags
map_to_api flags none = write_flags flags no_flags cpu_flags [] false
map_to_api flags (some current) = write_flags flags current cpu_flags [] false

-- The map of the flag names to their signs; `none` is the panic of `e[1:]` on an empty text.
unfoldable pub read_signs : List Text → Dict Text ℕ → Option (Dict Text ℕ)
read_signs [] signs = some signs
read_signs ([] ∷ rest) signs = none
read_signs ((sign ∷ name) ∷ rest) signs = read_signs rest (insert name sign signs)

-- `mapToSdkSubroutine`
unfoldable pub read_flag : Dict Text ℕ → Text → Option TriBool
read_flag signs name = elim (lookup name signs) [
  | none ↦ none
  | some sign ↦
      some
        (if nat_eqb sign b'+' then tri_true else if nat_eqb sign b'-' then tri_false else tri_none)
]

unfoldable pub map_to_sdk : List Text → Option CpuFlags
unfolding read_signs read_flag flag_name
map_to_sdk flags = elim (read_signs flags []) [
  | none ↦ none
  | some signs ↦ some (λ flag. read_flag signs (flag_name flag))
]

validate_flag : Option TriBool → Option TriBoolError
validate_flag none = none
validate_flag (some v) = TriBool.validate v

validate_flags : CpuFlags → List CpuFlag → Option TriBoolError
unfolding validate_flag TriBool.validate
validate_flags flags [] = none
validate_flags flags (flag ∷ rest) = elim (validate_flag (flags flag)) [
  | some err ↦ some err
  | none ↦ validate_flags flags rest
]

unfoldable pub validate : CpuFlags → Option TriBoolError
unfolding validate_flags
validate flags = validate_flags flags cpu_flags
