-- ===== src/Cpu/Kind/Tests.antt =====
-- Runs of `CpuType`, and the theorems at concrete names.
use proxmox_api_go.Base.{◌≡◌, ◌≢◌, refl, none, codes, lookup, insert, [], text_eq}
use proxmox_api_go.Version.{Version, smaller}
use proxmox_api_go.Cpu.Kind.{map_to_api, validate}
use proxmox_api_go.Cpu.Kind.Spelling.{key_of}
use proxmox_api_go.Cpu.Kind.Names.{ivy_bridge_ibrs, nahalem_ibrs, exported_refused}

abbrev v7 : Version
v7 = record { major = 7; minor = 4; patch = 0 }

abbrev v8 : Version
v8 = record { major = 8; minor = 1; patch = 0 }

run : Unit {0}
unfolding map_to_api key_of lookup insert smaller
run = tt

names :
    (map_to_api (codes "epyc_Rome") v7 ≡ codes "EPYC-Rome")
    × (map_to_api (codes "X86-64-V2_aes") v8 ≡ codes "x86-64-v2-AES")
    × (map_to_api (codes "x86-64-v2-AES") v7 ≡ [])
unfolding run
names = (refl, refl, refl)

name-ne-nil : map_to_api (codes "epyc_Rome") v7 ≢ []
name-ne-nil = rw names.0 (λ e. cc)

exported_refused_example : (validate ivy_bridge_ibrs v8 ≢ none) × (validate nahalem_ibrs v8 ≢ none)
exported_refused_example = exported_refused v8
