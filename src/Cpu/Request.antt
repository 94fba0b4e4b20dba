-- ===== src/Cpu/Request.antt =====
-- `QemuCPU.mapToApi` and `QemuCPU.mapToSDK`: the processor settings in a request and in an answer.
pub mod Entries
pub mod Kinds
mod Tests
use proxmox_api_go.Base.{
  ◌>>=◌, ℕ, ◌&&◌, not, leb, ltb, nat_eqb, Bool, true, false, if◌then◌else◌, Option, none, some,
  List, [], ◌∷◌, ◌++◌, String, string_eq, Text, codes, text_eqb, length, drop, Float, Value, int,
  flt, str, uint_of, Params, lookup, insert, split_on, split_first,
}
use proxmox_api_go.Version.{Version}
use proxmox_api_go.Cpu.Flags
use proxmox_api_go.Cpu.Flags.{CpuFlags, no_flags}
use proxmox_api_go.Cpu.Kind
use proxmox_api_go.Cpu.Affinity.{map_to_api_affinity, map_to_sdk_affinity}
use proxmox_api_go.Cpu.Config.{QemuCpu}
use proxmox_api_go.Memory.Answers.{setting}

-- Parameters, and the list of keys to delete.
abbrev pub Request : Type 0
Request = Params × Text

-- Whether the current settings, which may be nil, have one of their own.
abbrev pub has {ℓ} : {A : Type ℓ} → (QemuCpu → Option A) → Option QemuCpu → Bool
has field none = false
has field (some current) = elim (field current) [ none ↦ false | some _ ↦ true ]

abbrev pub put_affinity : Option (List ℕ) → Bool → Params → Params
put_affinity none had params = params
put_affinity (some []) had params = if had then insert "affinity" (str []) params else params
put_affinity (some (core ∷ cores)) had params = elim (map_to_api_affinity (core ∷ cores)) [
  | none ↦ params
  | some text ↦ insert "affinity" (str text) params
]

abbrev pub put_count : String → Option ℕ → Params → Params
put_count key none params = params
put_count key (some n) params = insert key (int n) params

-- A count that is deleted where it is 0, if there is one to delete.
abbrev pub put_or_delete : String → Text → Option ℕ → Bool → Request → Request
put_or_delete key deletion none had request = request
put_or_delete key deletion (some n) had (params, delete) =
    if not (nat_eqb n 0)
    then (insert key (int n) params, delete)
    else if had
    then (params, delete ++ deletion)
    else (params, delete)

-- `Btoi`
abbrev pub btoi : Bool → ℕ
btoi true = 1
btoi false = 0

abbrev pub put_numa : Option Bool → Params → Params
put_numa none params = params
put_numa (some b) params = insert "numa" (int (btoi b)) params

-- Flags of which none is written are not sent for a new machine.
abbrev pub unless_empty : Text × Bool → Text × Bool
unless_empty (text, set) = (text, set && not (text_eqb text []))

-- The text of the flags, and whether they are sent.
abbrev pub flags_text : Option CpuFlags → Option QemuCpu → Text × Bool
flags_text none none = ([], false)
flags_text (some flags) none = unless_empty (Flags.map_to_api flags none)
flags_text (some flags) (some current) = Flags.map_to_api flags current.flags
flags_text none (some current) = Flags.map_to_api no_flags current.flags

abbrev pub name_of : Option Text → Version → Text
name_of none version = []
name_of (some kind) version = Kind.map_to_api kind version

abbrev pub current_kind : Option QemuCpu → Option Text
current_kind none = none
current_kind (some current) = current.kind

abbrev pub kind_text : Option Text → Option QemuCpu → Version → Text
kind_text (some kind) current version = name_of (some kind) version
kind_text none current version = name_of (current_kind current) version

-- The parameter `cpu`; the flags start with their separator, which is not sent.
abbrev pub put_cpu : Text → Text × Bool → Params → Params
put_cpu kind ([], true) params = insert "cpu" (str (kind ++ codes ",flags=")) params
put_cpu kind (c ∷ flags, true) params =
    insert "cpu" (str (kind ++ (codes ",flags=" ++ flags))) params
put_cpu [] (flags, false) params = params
put_cpu (k ∷ kind) (flags, false) params = insert "cpu" (str (k ∷ kind)) params

abbrev pub put_kind_and_flags :
    Option CpuFlags → Option Text → Option QemuCpu → Version → Params → Params
put_kind_and_flags none none current version params = params
put_kind_and_flags none (some kind) current version params =
    put_cpu (kind_text (some kind) current version) (flags_text none current) params
put_kind_and_flags (some flags) kind current version params =
    put_cpu (kind_text kind current version) (flags_text (some flags) current) params

abbrev pub is_update : Option QemuCpu → Bool
is_update none = false
is_update (some _) = true

abbrev pub put_counts : QemuCpu → Option QemuCpu → Version → Request → Request
put_counts cpu current version (params, delete) =
    put_or_delete "vcpus" (codes ",vcpus") cpu.virtual_cores (has (λ c. c.virtual_cores) current) (
      put_or_delete "cpuunits" (codes ",cpuunits") cpu.units (is_update current) (
        put_kind_and_flags cpu.flags cpu.kind current version
            (put_count "sockets" cpu.sockets (put_numa cpu.numa params)),
        delete,
      ))

-- `mapToApi`
unfoldable pub map_to_api : QemuCpu → Option QemuCpu → Params → Version → Request
map_to_api cpu current params version = put_counts cpu current version (
    put_or_delete "cpulimit" (codes ",cpulimit") cpu.limit (has (λ c. c.limit) current) (
      put_count "cores" cpu.cores
          (put_affinity cpu.affinity (has (λ c. c.affinity) current) params),
      [],
    ))

-- Below, the outer `none` is a panic: a value of another type, or a text that cannot be read.
unfoldable pub read_affinity : Option Value → Option (Option (List ℕ))
read_affinity none = some none
read_affinity (some (str [])) = some (some [])
read_affinity (some (str (c ∷ s))) = elim (map_to_sdk_affinity (c ∷ s)) [
  | none ↦ none
  | some cores ↦ some (some cores)
]
read_affinity _ = none

abbrev pub read_number : ℕ → Option Value → Option (Option ℕ)
read_number w none = some none
read_number w (some (flt f)) = some (some (uint_of w f))
read_number w _ = none

abbrev pub is_one : Float → Bool
is_one f = not f.negative && (nat_eqb f.whole 1 && not f.fraction)

abbrev pub read_numa : Option Value → Option (Option Bool)
read_numa none = some none
read_numa (some (flt f)) = some (some (is_one f))
read_numa _ = none

-- What stands behind the first comma: `flags=` is dropped, and nothing is read where nothing follows.
unfoldable pub read_flags : Option Text → Option (Option CpuFlags)
read_flags none = some none
read_flags (some rest) =
    if ltb 6 (length rest)
    then elim (Flags.map_to_sdk (split_on b';' (drop 6 rest))) [
      | none ↦ none
      | some flags ↦ some (some flags)
    ]
    else some none

unfoldable pub read_cpu : Option Value → Option (Option Text × Option CpuFlags)
read_cpu none = some (none, none)
read_cpu (some (str v)) = do
  flags ← read_flags (split_first b',' v).1
  some (some (split_first b',' v).0, flags)
read_cpu _ = none

module _ (parse_float : Text → Option Float) where
  -- `mapToSDK`
  unfoldable pub map_to_sdk : Params → Option QemuCpu
  map_to_sdk params = do
    affinity ← read_affinity (lookup "affinity" params)
    cores ← read_number 8 (lookup "cores" params)
    cpu ← read_cpu (lookup "cpu" params)
    units ← read_number 32 (lookup "cpuunits" params)
    numa ← read_numa (lookup "numa" params)
    sockets ← read_number 8 (lookup "sockets" params)
    virtual_cores ← read_number 16 (lookup "vcpus" params)
    some (record {
      affinity = affinity;
      cores = cores;
      flags = cpu.1;
      limit = setting parse_float 8 (lookup "cpulimit" params);
      numa = numa;
      sockets = sockets;
      kind = cpu.0;
      units = units;
      virtual_cores = virtual_cores;
    })
