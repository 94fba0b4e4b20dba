-- ===== src/Cpu/Config/Tests.antt =====
-- Runs of the processor settings, and the theorem at concrete ones.
use proxmox_api_go.Base.{◌≡◌, refl, arith, none, some, codes, text_eq}
use proxmox_api_go.Version.{Version}
use proxmox_api_go.Cpu.Config.{QemuCpu, cores_required, validate, IsAcceptable, cpu_validate_iff}
use proxmox_api_go.Cpu.Cores.{validate_virtual_cores}

abbrev v8 : Version
v8 = record { major = 8; minor = 1; patch = 0 }

abbrev no_settings : QemuCpu
no_settings = record {
  affinity = none;
  cores = none;
  flags = none;
  limit = none;
  numa = none;
  sockets = none;
  kind = none;
  units = none;
  virtual_cores = none;
}

abbrev four_cores : QemuCpu
four_cores = record {
  affinity = none;
  cores = some 4;
  flags = none;
  limit = none;
  numa = none;
  sockets = some 2;
  kind = some (codes "host");
  units = none;
  virtual_cores = none;
}

abbrev six_virtual : QemuCpu
six_virtual = record no_settings { virtual_cores = some 6 }

no_cores_run : validate no_settings none v8 ≡ some cores_required
unfolding validate
no_cores_run = refl

six_virtual_valid : validate six_virtual (some four_cores) v8 ≡ none
unfolding validate validate_virtual_cores
six_virtual_valid = refl

cpu_validate_iff_example : IsAcceptable six_virtual (some four_cores) v8
cpu_validate_iff_example =
    (cpu_validate_iff six_virtual (some four_cores) v8 (tt, tt, omega arith, omega arith)).0
      six_virtual_valid
