-- ===== src/Cpu/Cores.antt =====
-- The counts of the processor settings, with their bounds: `CpuLimit` (uint8), `CpuUnits` (uint32),
-- `QemuCpuCores` (uint8), `QemuCpuSockets` (uint8) and `CpuVirtualCores` (uint16).
pub mod Bounds
use proxmox_api_go.Base.{ℕ, ◌*◌, ◌%◌, ◌^◌, ltb, if◌then◌else◌, Option, none, some}

-- The errors of these types; the last carries the maximum that its message names.
pub data CoresError : Type 0 where
  limit_maximum : CoresError
  units_maximum : CoresError
  cores_lower_bound : CoresError
  cores_upper_bound : CoresError
  sockets_lower_bound : CoresError
  sockets_upper_bound : CoresError
  virtual_cores_maximum : ℕ → CoresError

unfoldable pub validate_limit : ℕ → Option CoresError
validate_limit limit = if ltb 128 limit then some limit_maximum else none

unfoldable pub validate_units : ℕ → Option CoresError
validate_units units = if ltb 262144 units then some units_maximum else none

unfoldable pub validate_cores : ℕ → Option CoresError
validate_cores cores =
    if ltb cores 1
    then some cores_lower_bound
    else if ltb 128 cores
    then some cores_upper_bound
    else none

unfoldable pub validate_sockets : ℕ → Option CoresError
validate_sockets sockets =
    if ltb sockets 1
    then some sockets_lower_bound
    else if ltb 4 sockets
    then some sockets_upper_bound
    else none

-- The value that is given, or else the current one, or else 0.
abbrev pub used : Option ℕ → Option ℕ → ℕ
used (some n) current = n
used none (some n) = n
used none none = 0

-- `CpuVirtualCores.Validate`, with the current counts that are none where there is no current
-- configuration. The product is of type uint16.
unfoldable pub validate_virtual_cores :
    ℕ → (cores sockets current_cores current_sockets : Option ℕ) → Option CoresError
validate_virtual_cores v_cores cores sockets current_cores current_sockets =
    let most = used cores current_cores * used sockets current_sockets % 2 ^ 16 in
    if ltb most v_cores then some (virtual_cores_maximum most) else none
