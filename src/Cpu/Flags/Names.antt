-- ===== src/Cpu/Flags/Names.antt =====
-- The names of the flags: distinct, and free of the separator.
use proxmox_api_go.Base.{
  ◌≡◌, sym, ap, ◌∙◌, refl, Bool, true, List, [], ◌∷◌, Text, text_eqb, any, Lacks, if◌then◌else◌,
  arith,
}
use proxmox_api_go.Cpu.Flags.{
  CpuFlag, aes, amd_no_ssb, amd_ssbd, hv_evmcs, hv_tlb_flush, ibpb, md_clear, pcid, pdpe1gb, ssbd,
  spec_ctrl, virt_ssbd, cpu_flags, flag_name,
}

-- The first flag with a name, to show that names are distinct.
flag_named : List CpuFlag → Text → CpuFlag
flag_named [] name = aes
flag_named (flag ∷ rest) name =
    let other = flag_named rest name in if text_eqb (flag_name flag) name then flag else other

flag_named_lem : (flag : CpuFlag) → flag_named cpu_flags (flag_name flag) ≡ flag
unfolding flag_named flag_name
flag_named_lem aes = refl
flag_named_lem amd_no_ssb = refl
flag_named_lem amd_ssbd = refl
flag_named_lem hv_evmcs = refl
flag_named_lem hv_tlb_flush = refl
flag_named_lem ibpb = refl
flag_named_lem md_clear = refl
flag_named_lem pcid = refl
flag_named_lem pdpe1gb = refl
flag_named_lem ssbd = refl
flag_named_lem spec_ctrl = refl
flag_named_lem virt_ssbd = refl

pub flag_name_injective : (a b : CpuFlag) → flag_name a ≡ flag_name b → a ≡ b
flag_name_injective a b e = sym (flag_named_lem a) ∙ ap (flag_named cpu_flags) e ∙ flag_named_lem b

pub flag_name-Lacks : (flag : CpuFlag) → Lacks b';' (flag_name flag)
unfolding flag_name
flag_name-Lacks aes = omega arith
flag_name-Lacks amd_no_ssb = omega arith
flag_name-Lacks amd_ssbd = omega arith
flag_name-Lacks hv_evmcs = omega arith
flag_name-Lacks hv_tlb_flush = omega arith
flag_name-Lacks ibpb = omega arith
flag_name-Lacks md_clear = omega arith
flag_name-Lacks pcid = omega arith
flag_name-Lacks pdpe1gb = omega arith
flag_name-Lacks ssbd = omega arith
flag_name-Lacks spec_ctrl = omega arith
flag_name-Lacks virt_ssbd = omega arith

abbrev pub is_named_in : CpuFlag → List CpuFlag → Bool
is_named_in flag = any (λ f. text_eqb (flag_name f) (flag_name flag))

pub is_named_in_all : (flag : CpuFlag) → is_named_in flag cpu_flags ≡ true
unfolding flag_name
is_named_in_all aes = refl
is_named_in_all amd_no_ssb = refl
is_named_in_all amd_ssbd = refl
is_named_in_all hv_evmcs = refl
is_named_in_all hv_tlb_flush = refl
is_named_in_all ibpb = refl
is_named_in_all md_clear = refl
is_named_in_all pcid = refl
is_named_in_all pdpe1gb = refl
is_named_in_all ssbd = refl
is_named_in_all spec_ctrl = refl
is_named_in_all virt_ssbd = refl
