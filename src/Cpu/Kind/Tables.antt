-- ===== src/Cpu/Kind/Tables.antt =====
-- The tables of `CpuType`: from the spelling in small letters, without dashes and underscores, to
-- the name that the server knows.
use proxmox_api_go.Base.{[], ◌∷◌, Text, codes, Dict, insert, text_eq}

-- `cpuBase`
unfoldable pub cpu_base : Dict Text Text
cpu_base =
    (codes "athlon", codes "athlon")
    ∷ (codes "phenom", codes "phenom")
    ∷ (codes "486", codes "486")
    ∷ (codes "core2duo", codes "core2duo")
    ∷ (codes "coreduo", codes "coreduo")
    ∷ (codes "pentium", codes "pentium")
    ∷ (codes "pentium2", codes "pentium2")
    ∷ (codes "pentium3", codes "pentium3")
    ∷ (codes "kvm32", codes "kvm32")
    ∷ (codes "kvm64", codes "kvm64")
    ∷ (codes "max", codes "max")
    ∷ (codes "qemu32", codes "qemu32")
    ∷ (codes "qemu64", codes "qemu64")
    ∷ (codes "host", codes "host")
    ∷ (codes "epyc", codes "EPYC")
    ∷ (codes "epycibpb", codes "EPYC-IBPB")
    ∷ (codes "epycmilan", codes "EPYC-Milan")
    ∷ (codes "epycrome", codes "EPYC-Rome")
    ∷ (codes "opterong1", codes "Opteron_G1")
    ∷ (codes "opterong2", codes "Opteron_G2")
    ∷ (codes "opterong3", codes "Opteron_G3")
    ∷ (codes "opterong4", codes "Opteron_G4")
    ∷ (codes "opterong5", codes "Opteron_G5")
    ∷ (codes "broadwell", codes "Broadwell")
    ∷ (codes "broadwellibrs", codes "Broadwell-IBRS")
    ∷ (codes "broadwellnotsx", codes "Broadwell-noTSX")
    ∷ (codes "broadwellnotsxibrs", codes "Broadwell-noTSX-IBRS")
    ∷ (codes "cascadelakeserver", codes "Cascadelake-Server")
    ∷ (codes "cascadelakeservernotsx", codes "Cascadelake-Server-noTSX")
    ∷ (codes "conroe", codes "Conroe")
    ∷ (codes "haswell", codes "Haswell")
    ∷ (codes "haswellibrs", codes "Haswell-IBRS")
    ∷ (codes "haswellnotsx", codes "Haswell-noTSX")
    ∷ (codes "haswellnotsxibrs", codes "Haswell-noTSX-IBRS")
    ∷ (codes "icelakeclient", codes "Icelake-Client")
    ∷ (codes "icelakeclientnotsx", codes "Icelake-Client-noTSX")
    ∷ (codes "icelakeserver", codes "Icelake-Server")
    ∷ (codes "icelakeservernotsx", codes "Icelake-Server-noTSX")
    ∷ (codes "ivybridge", codes "IvyBridge")
    ∷ (codes "ivyBridgeibrs", codes "IvyBridge-IBRS")
    ∷ (codes "knightsmill", codes "KnightsMill")
    ∷ (codes "nahalem", codes "Nahalem")
    ∷ (codes "nahalemibrs", codes "Nahalem-IRBS")
    ∷ (codes "penrym", codes "Penrym")
    ∷ (codes "sandybridge", codes "SandyBridge")
    ∷ (codes "sandybridgeibrs", codes "SandyBridge-IBRS")
    ∷ (codes "skylakeclient", codes "Skylake-Client")
    ∷ (codes "skylakeclientibrs", codes "Skylake-Client-IBRS")
    ∷ (codes "skylakeclientnotsxibrs", codes "Skylake-Client-noTSX-IBRS")
    ∷ (codes "skylakeserver", codes "Skylake-Server")
    ∷ (codes "skylakeserveribrs", codes "Skylake-Server-IBRS")
    ∷ (codes "skylakeservernotsxibrs", codes "Skylake-Server-noTSX-IBRS")
    ∷ (codes "westmere", codes "Westmere")
    ∷ (codes "westmereibrs", codes "Westmere-IBRS")
    ∷ []

-- The entries that `cpuV8` writes, in its order.
unfoldable pub v8_entries : Dict Text Text
v8_entries =
    (codes "cascadelakeserverv2", codes "Cascadelake-Server-V2")
    ∷ (codes "cascadelakeserverv4", codes "Cascadelake-Server-V4")
    ∷ (codes "cascadelakeserverv5", codes "Cascadelake-Server-V5")
    ∷ (codes "cooperlake", codes "Cooperlake")
    ∷ (codes "cooperlakev2", codes "Cooperlake-V2")
    ∷ (codes "epycromev2", codes "EPYC-Rome-v2")
    ∷ (codes "epycv3", codes "EPYC-v3")
    ∷ (codes "icelakeserverv3", codes "Icelake-Server-v3")
    ∷ (codes "icelakeserverv4", codes "Icelake-Server-v4")
    ∷ (codes "icelakeserverv5", codes "Icelake-Server-v5")
    ∷ (codes "icelakeserverv6", codes "Icelake-Server-v6")
    ∷ (codes "sapphirerapids", codes "SapphireRapids")
    ∷ (codes "skylakeclientv4", codes "Skylake-Client-v4")
    ∷ (codes "skylakeserverv4", codes "Skylake-Server-v4")
    ∷ (codes "skylakeserverv5", codes "Skylake-Server-v5")
    ∷ (codes "x8664v2", codes "x86-64-v2")
    ∷ (codes "x8664v2aes", codes "x86-64-v2-AES")
    ∷ (codes "x8664v3", codes "x86-64-v3")
    ∷ (codes "x8664v4", codes "x86-64-v4")
    ∷ []

write_all : Dict Text Text → Dict Text Text → Dict Text Text
write_all [] cpus = cpus
write_all ((key, name) ∷ rest) cpus = write_all rest (insert key name cpus)

-- `cpuV8`
unfoldable pub cpu_v8 : Dict Text Text → Dict Text Text
unfolding write_all v8_entries
cpu_v8 cpus = write_all v8_entries cpus
