-- ===== src/Cpu/Kind/Names.antt =====
-- The names that `CpuType.mapToApi` gives.
use proxmox_api_go.Base.{
  ◌≡◌, ◌≢◌, refl, ap, arith, Bool, true, false, ◌||◌, not, Option, Option-cases, inl, inr, none,
  some, [], Text, codes, text_eqb, text_eqb_iff, text_eq, lookup, insert, lookup-of_all, all,
  Bool-cases,
}
use proxmox_api_go.Version.{Version, smaller}
use proxmox_api_go.Cpu.Kind.{version_8, cpus_of, map_to_api, validate, name_or_empty}
use proxmox_api_go.Cpu.Kind.Tables.{cpu_base, cpu_v8}
use proxmox_api_go.Cpu.Kind.Spelling.{key_of, has_upper, has_upper-key_of}

abbrev pub ivy_bridge_ibrs : Text
ivy_bridge_ibrs = codes "IvyBridge-IBRS"

abbrev pub nahalem_ibrs : Text
nahalem_ibrs = codes "Nahalem-IRBS"

-- A key with a capital letter is never met; any other, but for one, is the key of its own name.
abbrev is_own_key : Text → Text → Bool
is_own_key key name = has_upper key || text_eqb name nahalem_ibrs || text_eqb (key_of name) key

base_own_keys : all (λ b. is_own_key b.0 b.1) cpu_base ≡ true
unfolding cpu_base key_of
base_own_keys = refl

v8_own_keys : all (λ b. is_own_key b.0 b.1) (cpu_v8 cpu_base) ≡ true
unfolding cpu_base cpu_v8 insert key_of
v8_own_keys = refl

cpus_own_keys : (version : Version) → all (λ b. is_own_key b.0 b.1) (cpus_of version) ≡ true
unfolding cpus_of
cpus_own_keys version = elim (Bool-cases (smaller version version_8)) [
  | inl old ↦ rw old base_own_keys
  | inr new ↦ rw new v8_own_keys
]

-- A name that is found has the key by which it was found.
key_of-found :
    (version : Version) (cpu name : Text)
    → lookup (key_of cpu) (cpus_of version) ≡ some name
    → name ≢ nahalem_ibrs
    → key_of name ≡ key_of cpu
key_of-found version cpu name found other = ground (
  arith,
  lookup-of_all is_own_key (cpus_of version) (key_of cpu) name (cpus_own_keys version) found,
  has_upper-key_of cpu,
  text_eqb_iff name nahalem_ibrs,
  text_eqb_iff (key_of name) (key_of cpu),
)

-- Where a spelling has a name for the server, and that is not `Nahalem-IRBS`, the name differs from
-- it only in capitals, dashes and underscores, and mapping it again changes nothing.
map_to_api_idempotent :
    (version : Version) (cpu : Text)
    → map_to_api cpu version ≢ []
    → map_to_api cpu version ≢ nahalem_ibrs
    → (key_of (map_to_api cpu version) ≡ key_of cpu)
      × (map_to_api (map_to_api cpu version) version ≡ map_to_api cpu version)
unfolding map_to_api
map_to_api_idempotent version cpu given other =
    elim (Option-cases (lookup (key_of cpu) (cpus_of version))) [
      | inl e ↦ absurd (given (rw (e, map_to_api) refl))
      | inr (name, e) ↦
          let same = key_of-found version cpu name e (rw (e, map_to_api) at other) in
          rw (e, map_to_api) (same, rw (same, e, map_to_api) refl)
    ]

-- What a table without the rows of version 8 holds, the one with them holds too.
abbrev is_kept : Text → Text → Bool
is_kept key name = elim (lookup key (cpu_v8 cpu_base)) [
  | some other ↦ text_eqb other name
  | none ↦ false
]

base_kept : all (λ b. is_kept b.0 b.1) cpu_base ≡ true
unfolding cpu_base cpu_v8 insert lookup
base_kept = refl

-- The test of `is_kept`, read as an equation.
text_eqb_eq :
    (o : Option Text) (name : Text)
    → elim o as (λ x. Bool) [ some other ↦ text_eqb other name | none ↦ false ] ≡ true
    → o ≡ some name
text_eqb_eq none name h = cc
text_eqb_eq (some other) name h = ap some ((text_eqb_iff other name).0 h)

lookup_kept :
    (key name : Text) → lookup key cpu_base ≡ some name → lookup key (cpu_v8 cpu_base) ≡ some name
lookup_kept key name found = ground (
  arith,
  lookup-of_all is_kept cpu_base key name base_kept found,
  text_eqb_eq (lookup key (cpu_v8 cpu_base)) name,
)

cpus_of_old : (version : Version) → smaller version version_8 ≡ true → cpus_of version ≡ cpu_base
unfolding cpus_of
cpus_of_old version h = rw h refl

cpus_of_new :
    (version : Version) → smaller version version_8 ≡ false → cpus_of version ≡ cpu_v8 cpu_base
unfolding cpus_of
cpus_of_new version h = rw h refl

map_to_api_lem :
    (cpu : Text) (version : Version)
    → map_to_api cpu version ≡ name_or_empty (lookup (key_of cpu) (cpus_of version))
unfolding map_to_api
map_to_api_lem cpu version = refl

-- A processor that a server before version 8 knows has the same name on every server.
map_to_api_monotone :
    (old version : Version) (cpu : Text)
    → smaller old version_8 ≡ true
    → map_to_api cpu old ≢ []
    → map_to_api cpu version ≡ map_to_api cpu old
map_to_api_monotone old version cpu h given = elim (Option-cases (lookup (key_of cpu) cpu_base)) [
  | inl e ↦ absurd (given (rw (map_to_api_lem cpu old, cpus_of_old old h, e) refl))
  | inr (name, e) ↦ elim (Bool-cases (smaller version version_8)) [
    | inl before ↦
        rw
          (
            map_to_api_lem cpu old,
            map_to_api_lem cpu version,
            cpus_of_old old h,
            cpus_of_old version before,
          )
          refl
    | inr since ↦
        let found = lookup_kept (key_of cpu) name e in
        rw
          (
            map_to_api_lem cpu old,
            map_to_api_lem cpu version,
            cpus_of_old old h,
            cpus_of_new version since,
            e,
            found,
          )
          refl
  ]
]

-- No row with a key that can be met has this name.
abbrev is_not_ivy_bridge_ibrs : Text → Text → Bool
is_not_ivy_bridge_ibrs key name = has_upper key || not (text_eqb name ivy_bridge_ibrs)

base_not_ivy : all (λ b. is_not_ivy_bridge_ibrs b.0 b.1) cpu_base ≡ true
unfolding cpu_base
base_not_ivy = refl

v8_not_ivy : all (λ b. is_not_ivy_bridge_ibrs b.0 b.1) (cpu_v8 cpu_base) ≡ true
unfolding cpu_base cpu_v8 insert
v8_not_ivy = refl

cpus_not_ivy :
    (version : Version) → all (λ b. is_not_ivy_bridge_ibrs b.0 b.1) (cpus_of version) ≡ true
unfolding cpus_of
cpus_not_ivy version = elim (Bool-cases (smaller version version_8)) [
  | inl old ↦ rw old base_not_ivy
  | inr new ↦ rw new v8_not_ivy
]

-- No spelling, on no server, is mapped to `IvyBridge-IBRS`: its key in the table has a capital letter.
ivy_bridge_ibrs_unreachable :
    (cpu : Text) (version : Version) → map_to_api cpu version ≢ ivy_bridge_ibrs
unfolding map_to_api
ivy_bridge_ibrs_unreachable cpu version e =
    elim (Option-cases (lookup (key_of cpu) (cpus_of version))) [
      | inl missing ↦ absurd (cc (rw (missing, map_to_api) at e))
      | inr (name, found) ↦ ground (
        arith,
        lookup-of_all is_not_ivy_bridge_ibrs (cpus_of version) (key_of cpu) name
            (cpus_not_ivy version) found,
        has_upper-key_of cpu,
        text_eqb_iff name ivy_bridge_ibrs,
        (rw (found, map_to_api) at e),
      )
    ]

-- The two names under either table.
refused_lem :
    (lookup (key_of ivy_bridge_ibrs) cpu_base ≡ none)
    × (lookup (key_of nahalem_ibrs) cpu_base ≡ none)
    × (lookup (key_of ivy_bridge_ibrs) (cpu_v8 cpu_base) ≡ none)
    × (lookup (key_of nahalem_ibrs) (cpu_v8 cpu_base) ≡ none)
unfolding lookup insert key_of cpu_base cpu_v8
refused_lem = (refl, refl, refl, refl)

nameless :
    (version : Version)
    → (map_to_api ivy_bridge_ibrs version ≡ []) × (map_to_api nahalem_ibrs version ≡ [])
unfolding map_to_api
nameless version = elim (Bool-cases (smaller version version_8)) [
  | inl old ↦
      let e = cpus_of_old version old in
      (rw (e, refused_lem.0, map_to_api) refl, rw (e, refused_lem.1, map_to_api) refl)
  | inr new ↦
      let e = cpus_of_new version new in
      (rw (e, refused_lem.2, map_to_api) refl, rw (e, refused_lem.3, map_to_api) refl)
]

-- Two of the exported constants, `CpuType_IntelIvybridgeIBRS` and `CpuType_IntelNahalemIBRS`, are
-- refused by `Validate` on every server.
pub exported_refused :
    (version : Version)
    → (validate ivy_bridge_ibrs version ≢ none) × (validate nahalem_ibrs version ≢ none)
unfolding validate
exported_refused version = (rw (nameless version).0 (λ e. cc), rw (nameless version).1 (λ e. cc))
