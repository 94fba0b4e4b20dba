-- ===== src/Cpu/Flags/Validation.antt =====
-- What `CpuFlags.Validate` accepts.
use proxmox_api_go.Base.{
  ◌≡◌, ◌↔◌, Option, none, some, List, [], ◌∷◌, All, All-intro, arith, Option-cases, inl, inr,
}
use proxmox_api_go.TriBool
use proxmox_api_go.TriBool.{TriBool, TriBoolError}
use proxmox_api_go.Cpu.Flags.{
  CpuFlag, CpuFlags, cpu_flags, validate_flag, validate_flags, validate, aes, amd_no_ssb, amd_ssbd,
  hv_evmcs, hv_tlb_flush, ibpb, md_clear, pcid, pdpe1gb, ssbd, spec_ctrl, virt_ssbd,
}

abbrev pub IsValidFlag : Option TriBool → Type 0
IsValidFlag none = Unit
IsValidFlag (some v) = TriBool.validate v ≡ none

validate_flag_iff : (o : Option TriBool) → (validate_flag o ≡ none) ↔ IsValidFlag o
unfolding validate_flag
validate_flag_iff none = ground arith
validate_flag_iff (some v) = (λ h. h, λ h. h)

validate_flags_iff :
    (flags : CpuFlags) (fs : List CpuFlag)
    → (validate_flags flags fs ≡ none) ↔ All (λ f. IsValidFlag (flags f)) fs
unfolding validate_flags
validate_flags_iff flags [] = ground arith
validate_flags_iff flags (f ∷ fs) = elim (Option-cases (validate_flag (flags f))) [
  | inl e ↦
      rw (e, validate_flags)
        (
          λ h. ((validate_flag_iff (flags f)).0 e, (validate_flags_iff flags fs).0 h),
          λ h. (validate_flags_iff flags fs).1 h.1,
        )
  | inr (err, e) ↦
      rw (e, validate_flags)
        (λ h. absurd (cc), λ h. absurd (refused err e ((validate_flag_iff (flags f)).1 h.0)))
]
  where
    refused :
        (err : TriBoolError)
        → validate_flag (flags f) ≡ some err
        → validate_flag (flags f) ≡ none
        → ⊥
    refused err e e' = cc

All-cpu_flags : (P : CpuFlag → Type 0) → All P cpu_flags → (flag : CpuFlag) → P flag
All-cpu_flags P h aes = h.0
All-cpu_flags P h amd_no_ssb = h.1.0
All-cpu_flags P h amd_ssbd = h.1.1.0
All-cpu_flags P h hv_evmcs = h.1.1.1.0
All-cpu_flags P h hv_tlb_flush = h.1.1.1.1.0
All-cpu_flags P h ibpb = h.1.1.1.1.1.0
All-cpu_flags P h md_clear = h.1.1.1.1.1.1.0
All-cpu_flags P h pcid = h.1.1.1.1.1.1.1.0
All-cpu_flags P h pdpe1gb = h.1.1.1.1.1.1.1.1.0
All-cpu_flags P h ssbd = h.1.1.1.1.1.1.1.1.1.0
All-cpu_flags P h spec_ctrl = h.1.1.1.1.1.1.1.1.1.1.0
All-cpu_flags P h virt_ssbd = h.1.1.1.1.1.1.1.1.1.1.1.0

-- The flags are accepted exactly when each of the twelve that is given holds a valid value.
pub flags_validate_iff :
    (flags : CpuFlags) → (validate flags ≡ none) ↔ ((flag : CpuFlag) → IsValidFlag (flags flag))
unfolding validate
flags_validate_iff flags = (
  λ h. All-cpu_flags (λ f. IsValidFlag (flags f)) ((validate_flags_iff flags cpu_flags).0 h),
  λ h. (validate_flags_iff flags cpu_flags).1 (All-intro (λ f. IsValidFlag (flags f)) h cpu_flags),
)
