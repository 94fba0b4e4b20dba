-- ===== src/Cpu/Request/Kinds.antt =====
-- The parameter `cpu`, from a request back to the settings: the name of the processor and its flags.
use proxmox_api_go.Base.{
  split_on_tail, ℕ, ◌==◌, ◌≡◌, ◌≢◌, ◌⊎◌, ◌∙◌, refl, sym, ap, arith, Bool, Bool-cases, true, false,
  not, ltb, nat_eqb, nat_eqb_iff, all, contains_byte, Option, Option-cases, none, some, inl, inr,
  [], ◌∷◌, ◌++◌, String, string_eq, Text, codes, text_eq, length, Lacks, str, int, Params, lookup,
  insert, lookup-insert, lookup-of_all, more, split_on, split_first-append, split_first_of_Lacks,
}
use proxmox_api_go.Version.{Version, smaller}
use proxmox_api_go.Cpu.Flags
use proxmox_api_go.Cpu.Flags.{CpuFlag, CpuFlags, cpu_flags, no_flags, write_flags, flag_text}
use proxmox_api_go.Cpu.Flags.RoundTrip.{entries, entries-Lacks, settled, map_to_sdk-entries}
use proxmox_api_go.Cpu.Kind
use proxmox_api_go.Cpu.Kind.{cpus_of, version_8, name_or_empty}
use proxmox_api_go.Cpu.Kind.Tables.{cpu_base, cpu_v8}
use proxmox_api_go.Cpu.Kind.Spelling.{key_of}
use proxmox_api_go.Cpu.Config.{QemuCpu}
use proxmox_api_go.Cpu.Request.{
  Request, flags_text, name_of, current_kind, has, is_update, kind_text, put_cpu,
  put_kind_and_flags, put_counts, put_or_delete, put_count, put_numa, put_affinity, map_to_api,
  read_flags, read_cpu,
}
use proxmox_api_go.Cpu.Request.Entries.{
  wanted, states_any, flags_after, flags_text-set, flags_text-entries, states_any-entries, HasEntry,
  text-HasEntry,
}

longer : (rest : Text) → ltb 0 (length rest) ≡ true → ltb 6 (length (codes "flags=" ++ rest)) ≡ true
longer rest h = ground arith

read_flags_lem :
    (rest : Text) (flags : CpuFlags)
    → ltb 0 (length rest) ≡ true
    → Flags.map_to_sdk (split_on b';' rest) ≡ some flags
    → read_flags (some (codes "flags=" ++ rest)) ≡ some (some flags)
unfolding read_flags
read_flags_lem rest flags h found = rw (longer rest h, found) refl

no_flags_lem : read_flags (some (codes "flags=")) ≡ some none
unfolding read_flags
no_flags_lem = refl

cpu_found : (v : Text) (params : Params) → lookup "cpu" (insert "cpu" (str v) params) ≡ some (str v)
cpu_found v params = lookup-insert "cpu" "cpu" (str v) params

read_named :
    (name rest : Text) (flags : Option CpuFlags) (params : Params)
    → Lacks b',' name
    → read_flags (some rest) ≡ some flags
    → read_cpu (lookup "cpu" (insert "cpu" (str (name ++ b',' ∷ rest)) params))
      ≡ some (some name, flags)
unfolding read_cpu
read_named name rest flags params h found =
    rw (cpu_found (name ++ b',' ∷ rest) params, split_first-append b',' name rest h, found) refl

read_bare :
    (name : Text) (params : Params)
    → Lacks b',' name
    → read_cpu (lookup "cpu" (insert "cpu" (str name) params)) ≡ some (some name, none)
unfolding read_cpu read_flags
read_bare name params h = rw (cpu_found name params, split_first_of_Lacks b',' name h) refl

-- What is read of the parameter, where the text of the flags is that of their entries.
read_put :
    (name text : Text) (set : Bool) (values : CpuFlags) (params : Params)
    → (name ≢ []) ⊎ (set ≡ true)
    → Lacks b',' name
    → text ≡ more b';' (entries values cpu_flags)
    → (text ≢ [] → set ≡ true)
    → read_cpu (lookup "cpu" (put_cpu name (text, set) params))
      ≡ some (some name, flags_after values)
read_put [] [] set values params (inl given) h e marked = absurd (given refl)
read_put [] [] set values params (inr on) h e marked =
    let empty : states_any values ≡ false = states_any-entries values [] e in
    rw (on, empty) (read_named [] (codes "flags=") none params h no_flags_lem)
read_put (k ∷ ks) [] set values params given h e marked =
    let empty : states_any values ≡ false = states_any-entries values [] e in
    elim (Bool-cases set) [
      | inl on ↦ rw (on, empty) (read_named (k ∷ ks) (codes "flags=") none params h no_flags_lem)
      | inr off ↦ rw (off, empty) (read_bare (k ∷ ks) params h)
    ]
read_put name (c ∷ rest) set values params given h e marked =
    let full : states_any values ≡ true = states_any-entries values (c ∷ rest) e in
    let (first, long) : HasEntry (c ∷ rest) = text-HasEntry values (c ∷ rest) e in
    let parts =
      split_on_tail b';' (entries values cpu_flags) rest (entries-Lacks values cpu_flags)
        (sym e ∙ ap (λ d. d ∷ rest) first) in
    rw (marked (λ n. cc), full)
      (read_named name (codes "flags=" ++ rest) (some (settled values)) params h (
        read_flags_lem rest (settled values) long
          (ap Flags.map_to_sdk parts ∙ map_to_sdk-entries values)))

is_plain : Text → Text → Bool
is_plain key name = not (contains_byte b',' name)

base_plain : all (λ b. is_plain b.0 b.1) cpu_base ≡ true
unfolding cpu_base is_plain
base_plain = refl

recent_plain : all (λ b. is_plain b.0 b.1) (cpu_v8 cpu_base) ≡ true
unfolding cpu_base cpu_v8 insert is_plain
recent_plain = refl

names_plain : (version : Version) → all (λ b. is_plain b.0 b.1) (cpus_of version) ≡ true
unfolding cpus_of
names_plain version = elim (Bool-cases (smaller version version_8)) [
  | inl old ↦ rw old base_plain
  | inr new ↦ rw new recent_plain
]

Lacks-contains_byte : (b : ℕ) (s : Text) → contains_byte b s ≡ false → Lacks b s
Lacks-contains_byte b [] h = tt
Lacks-contains_byte b (c ∷ s) h = ground (arith, nat_eqb_iff c b, Lacks-contains_byte b s)

-- No name has a comma.
name-Lacks : (kind : Text) (version : Version) → Lacks b',' (Kind.map_to_api kind version)
unfolding Kind.map_to_api is_plain
name-Lacks kind version = elim (Option-cases (lookup (key_of kind) (cpus_of version))) [
  | inl missing ↦ rw missing tt
  | inr (name, found) ↦ rw found (
      Lacks-contains_byte b',' name (
        ground (
          arith,
          lookup-of_all is_plain (cpus_of version) (key_of kind) name (names_plain version) found,
        )))
]

put_or_delete-kept :
    (key other : String) (deletion : Text) (n : Option ℕ) (had : Bool) (params : Params)
    (delete : Text)
    → (key == other) ≡ false
    → lookup other (put_or_delete key deletion n had (params, delete)).0 ≡ lookup other params
put_or_delete-kept key other deletion none had params delete h = refl
put_or_delete-kept key other deletion (some n) had params delete h =
    elim (Bool-cases (nat_eqb n 0)) [
      | inr more ↦ rw more (lookup-insert key other (int n) params ∙ rw h refl)
      | inl zero ↦ elim (Bool-cases had) [ inl e ↦ rw (zero, e) refl | inr e ↦ rw (zero, e) refl ]
    ]

abbrev pub IsGiven {ℓ} : {A : Type ℓ} → Option A → Type 0
IsGiven none = ⊥
IsGiven (some a) = Unit

name_of-Lacks : (kind : Option Text) (version : Version) → Lacks b',' (name_of kind version)
name_of-Lacks none version = tt
name_of-Lacks (some kind) version = name-Lacks kind version

kind_text-Lacks :
    (kind : Option Text) (current : Option QemuCpu) (version : Version)
    → Lacks b',' (kind_text kind current version)
kind_text-Lacks (some kind) current version = name-Lacks kind version
kind_text-Lacks none current version = name_of-Lacks (current_kind current) version

read_sent :
    (flags : Option CpuFlags) (kind : Option Text) (current : Option QemuCpu) (params : Params)
    (version : Version)
    → (kind_text kind current version ≢ []) ⊎ ((flags_text flags current).1 ≡ true)
    → read_cpu
        (lookup "cpu" (put_cpu (kind_text kind current version) (flags_text flags current) params))
      ≡ some (some (kind_text kind current version), flags_after (wanted flags current))
read_sent flags kind current params version named =
    read_put (kind_text kind current version) (flags_text flags current).0
      (flags_text flags current).1 (wanted flags current) params named
      (kind_text-Lacks kind current version) (flags_text-entries flags current)
      (flags_text-set flags current)

read_given :
    (flags : Option CpuFlags) (kind : Option Text) (current : Option QemuCpu) (params : Params)
    (version : Version)
    → IsGiven flags ⊎ IsGiven kind
    → (kind_text kind current version ≢ []) ⊎ ((flags_text flags current).1 ≡ true)
    → read_cpu (lookup "cpu" (put_kind_and_flags flags kind current version params))
      ≡ some (some (kind_text kind current version), flags_after (wanted flags current))
read_given none none current params version (inl h) named = absurd h
read_given none none current params version (inr h) named = absurd h
read_given none (some kind) current params version given named =
    read_sent none (some kind) current params version named
read_given (some flags) kind current params version given named =
    read_sent (some flags) kind current params version named

sent_cpu :
    (cpu : QemuCpu) (current : Option QemuCpu) (version : Version) (params : Params) (delete : Text)
    → lookup "cpu" (put_counts cpu current version (params, delete)).0
      ≡ lookup "cpu" (
          put_kind_and_flags cpu.flags cpu.kind current version
            (put_count "sockets" cpu.sockets (put_numa cpu.numa params)))
sent_cpu cpu current version params delete =
    let request : Request = (
      put_kind_and_flags cpu.flags cpu.kind current version
          (put_count "sockets" cpu.sockets (put_numa cpu.numa params)),
      delete,
    ) in
    let next = put_or_delete "cpuunits" (codes ",cpuunits") cpu.units (is_update current) request in
    put_or_delete-kept "vcpus" "cpu" (codes ",vcpus") cpu.virtual_cores
      (has (λ c. c.virtual_cores) current) next.0 next.1 refl
    ∙ put_or_delete-kept "cpuunits" "cpu" (codes ",cpuunits") cpu.units (is_update current)
        request.0 delete refl

read_request :
    (cpu : QemuCpu) (current : Option QemuCpu) (params : Params) (version : Version)
    → IsGiven cpu.flags ⊎ IsGiven cpu.kind
    → (kind_text cpu.kind current version ≢ []) ⊎ ((flags_text cpu.flags current).1 ≡ true)
    → read_cpu (lookup "cpu" (map_to_api cpu current params version).0)
      ≡ some (some (kind_text cpu.kind current version), flags_after (wanted cpu.flags current))
unfolding map_to_api
read_request cpu current params version given sent =
    let (before, delete) =
      put_or_delete "cpulimit" (codes ",cpulimit") cpu.limit (has (λ c. c.limit) current) (
        put_count "cores" cpu.cores
            (put_affinity cpu.affinity (has (λ c. c.affinity) current) params),
        [],
      ) in
    ap read_cpu (sent_cpu cpu current version before delete)
    ∙ read_given cpu.flags cpu.kind current
        (put_count "sockets" cpu.sockets (put_numa cpu.numa before)) version given sent

-- The kind that is given, or else the one that the machine has now.
abbrev pub wanted_kind : Option Text → Option QemuCpu → Option Text
wanted_kind (some kind) now = some kind
wanted_kind none (some machine) = machine.kind
wanted_kind none none = none

kind_text-wanted_kind :
    (given : Option Text) (current : Option QemuCpu) (kind : Text) (version : Version)
    → wanted_kind given current ≡ some kind
    → kind_text given current version ≡ Kind.map_to_api kind version
kind_text-wanted_kind (some own) current kind version e =
    ap (λ k. Kind.map_to_api k version) {x = own} {y = kind} cc
kind_text-wanted_kind none (some machine) kind version e = rw e refl
kind_text-wanted_kind none none kind version e = absurd cc

-- If a kind is wanted, which is the one that is given or else the one that the machine has now, and it
-- has a name on the server, and the flags or the kind are given, what is read of the parameter that is
-- sent is this name, and the flags as they are given, or else as they are now, where they are on or off.
pub read_cpu-map_to_api :
    (cpu : QemuCpu) (current : Option QemuCpu) (kind : Text) (params : Params) (version : Version)
    → IsGiven cpu.flags ⊎ IsGiven cpu.kind
    → wanted_kind cpu.kind current ≡ some kind
    → Kind.map_to_api kind version ≢ []
    → read_cpu (lookup "cpu" (map_to_api cpu current params version).0)
      ≡ some (some (Kind.map_to_api kind version), flags_after (wanted cpu.flags current))
read_cpu-map_to_api cpu current kind params version given chosen named =
    let same = kind_text-wanted_kind cpu.kind current kind version chosen in
    read_request cpu current params version given (inl (λ e. named (sym same ∙ e)))
    ∙ ap (λ name. some (some name, flags_after (wanted cpu.flags current))) same

-- If a machine has a kind that the tables do not name, and its flags are changed alone, with a flag given
-- or set now, then the kind that is sent is empty.
pub unnamed_kind_is_dropped :
    (cpu current : QemuCpu) (kind : Text) (params : Params) (version : Version)
    → cpu.kind ≡ none
    → current.kind ≡ some kind
    → Kind.map_to_api kind version ≡ []
    → IsGiven cpu.flags
    → (flags_text cpu.flags (some current)).1 ≡ true
    → read_cpu (lookup "cpu" (map_to_api cpu (some current) params version).0)
      ≡ some (some [], flags_after (wanted cpu.flags (some current)))
unnamed_kind_is_dropped cpu current kind params version kept now unnamed given set =
    let empty : kind_text cpu.kind (some current) version ≡ [] = rw (kept, now) unnamed in
    read_request cpu (some current) params version (inl given) (inr set)
    ∙ ap (λ name. some (some name, flags_after (wanted cpu.flags (some current)))) empty
