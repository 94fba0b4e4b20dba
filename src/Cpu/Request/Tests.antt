-- ===== src/Cpu/Request/Tests.antt =====
-- Runs of a request and of an answer, and the theorems at concrete settings.
use proxmox_api_go.Base.{
  ◌≡◌, refl, arith, true, inl, none, some, [], ◌∷◌, codes, lookup, insert, string_eq, text_eq, str,
  int,
}
use proxmox_api_go.Version.{Version, smaller}
use proxmox_api_go.TriBool.{tri_true, tri_false}
use proxmox_api_go.Cpu.Flags
use proxmox_api_go.Cpu.Flags.{
  CpuFlag, CpuFlags, aes, pcid, write_flags, flag_text, flag_name, no_flags,
}
use proxmox_api_go.Cpu.Kind
use proxmox_api_go.Cpu.Kind.{cpus_of}
use proxmox_api_go.Cpu.Kind.Tables.{cpu_base, cpu_v8}
use proxmox_api_go.Cpu.Kind.Spelling.{key_of}
use proxmox_api_go.Cpu.Config.{QemuCpu}
use proxmox_api_go.Cpu.Request.{map_to_api, read_cpu}
use proxmox_api_go.Cpu.Request.Entries.{wanted, flags_after}
use proxmox_api_go.Cpu.Request.Kinds.{read_cpu-map_to_api, unnamed_kind_is_dropped}

abbrev new_flags : CpuFlags
new_flags aes = some tri_true
new_flags _ = none

abbrev old_flags : CpuFlags
old_flags pcid = some tri_false
old_flags _ = none

abbrev version_9 : Version
version_9 = record { major = 9; minor = 0; patch = 0 }

abbrev change : QemuCpu
change = record {
  affinity = some [];
  cores = some 2;
  flags = some new_flags;
  limit = some 0;
  numa = some true;
  sockets = none;
  kind = none;
  units = some 0;
  virtual_cores = some 3;
}

abbrev new_kind : QemuCpu
new_kind = record change { kind = some (codes "kvm64") }

abbrev machine : QemuCpu
machine = record {
  affinity = some (1 ∷ []);
  cores = some 1;
  flags = some old_flags;
  limit = some 4;
  numa = none;
  sockets = some 1;
  kind = some (codes "host");
  units = none;
  virtual_cores = none;
}

-- The name that the server has for the kind `Nahalem-IRBS` of the tables.
abbrev nehalem : QemuCpu
nehalem = record machine { kind = some (codes "Nehalem-IBRS") }

request_run : map_to_api change (some machine) [] version_9 ≡ (
  ("affinity", str [])
      ∷ ("cores", int 2)
      ∷ ("numa", int 1)
      ∷ ("cpu", str (codes "host,flags=+aes;-pcid"))
      ∷ ("vcpus", int 3)
      ∷ [],
  codes ",cpulimit,cpuunits",
)
unfolding map_to_api insert Flags.map_to_api write_flags flag_text flag_name Kind.map_to_api key_of
    cpus_of cpu_base cpu_v8 lookup smaller
request_run = refl

read_cpu-map_to_api_example :
    read_cpu (lookup "cpu" (map_to_api new_kind (some machine) [] version_9).0)
    ≡ some (some (codes "kvm64"), flags_after (wanted (some new_flags) (some machine)))
unfolding Kind.map_to_api key_of cpus_of cpu_base cpu_v8 insert lookup smaller
read_cpu-map_to_api_example =
    read_cpu-map_to_api new_kind (some machine) (codes "kvm64") [] version_9 (inl tt) refl
      (ground arith)

kept_kind_run :
    read_cpu (lookup "cpu" (map_to_api change (some machine) [] version_9).0)
    ≡ some (some (codes "host"), flags_after (wanted (some new_flags) (some machine)))
unfolding Kind.map_to_api key_of cpus_of cpu_base cpu_v8 insert lookup smaller
kept_kind_run =
    read_cpu-map_to_api change (some machine) (codes "host") [] version_9 (inl tt) refl
      (ground arith)

unnamed_kind_is_dropped_example :
    read_cpu (lookup "cpu" (map_to_api change (some nehalem) [] version_9).0)
    ≡ some (some [], flags_after (wanted (some new_flags) (some nehalem)))
unfolding Kind.map_to_api key_of cpus_of cpu_base cpu_v8 insert lookup smaller Flags.map_to_api
    write_flags
unnamed_kind_is_dropped_example =
    unnamed_kind_is_dropped change nehalem (codes "Nehalem-IBRS") [] version_9 refl refl refl tt
      refl
