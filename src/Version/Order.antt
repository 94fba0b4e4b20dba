-- ===== src/Version/Order.antt =====
-- The order of versions.
use proxmox_api_go.Base.{◌<◌, ◌≡◌, ◌↔◌, ◌⊎◌, arith, true}
use proxmox_api_go.Version.{Version, FitsBytes, smaller, greater}

-- `Smaller` is the lexicographic order of major, minor and patch: for fields of a byte the packed
-- numbers neither overlap nor overflow.
pub smaller_iff :
    (v w : Version)
    → FitsBytes v
    → FitsBytes w
    → (smaller v w ≡ true) ↔ (
        (v.major < w.major)
        ⊎ (v.major ≡ w.major) × ((v.minor < w.minor) ⊎ (v.minor ≡ w.minor) × (v.patch < w.patch)))
unfolding smaller
smaller_iff v w fv fw = ground arith

-- Of two versions with fields of a byte one is smaller, or they are equal, or the first is greater.
smaller_trichotomy :
    (v w : Version)
    → FitsBytes v
    → FitsBytes w
    → (smaller v w ≡ true) ⊎ (v ≡ w) ⊎ (greater v w ≡ true)
unfolding smaller greater
smaller_trichotomy v w fv fw = ground arith
