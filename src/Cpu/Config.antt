-- ===== src/Cpu/Config.antt =====
-- `QemuCPU`: the processor settings as a whole, and their validation.
mod Tests
use proxmox_api_go.Base.{
  ℕ, ◌*◌, ◌≤◌, ◌≡◌, ◌≢◌, ◌↔◌, ◌⊎◌, refl, arith, Bool, true, false, Option, Option-cases, none, some,
  inl, inr, List, [], ◌∷◌, Text, text_eqb, text_eqb_iff,
}
use proxmox_api_go.Version.{Version}
use proxmox_api_go.TriBool.{TriBoolError}
use proxmox_api_go.Cpu.Flags.{CpuFlag, CpuFlags}
use proxmox_api_go.Cpu.Flags
use proxmox_api_go.Cpu.Flags.Validation.{IsValidFlag, flags_validate_iff}
use proxmox_api_go.Cpu.Kind
use proxmox_api_go.Cpu.Kind.{KindError}
use proxmox_api_go.Cpu.Cores.{
  CoresError, validate_cores, validate_limit, validate_sockets, validate_units,
  validate_virtual_cores, used,
}
use proxmox_api_go.Cpu.Cores.Bounds.{FitsByte, counts_iff, validate_virtual_cores_iff}

pub record QemuCpu : Type 0 where
  pub affinity : Option (List ℕ)
  pub cores : Option ℕ
  pub flags : Option CpuFlags
  pub limit : Option ℕ
  pub numa : Option Bool
  pub sockets : Option ℕ
  pub kind : Option Text
  pub units : Option ℕ
  pub virtual_cores : Option ℕ

pub data CpuError : Type 0 where
  cores_required : CpuError
  of_count : CoresError → CpuError
  of_flags : TriBoolError → CpuError
  of_kind : KindError → CpuError

-- `if field != nil { if err = field.Validate(); err != nil { return } }`
abbrev pub check_given {ℓ κ} :
    {A : Type ℓ} {E : Type κ} → (E → CpuError) → (A → Option E) → Option A → Option CpuError
check_given wrap check none = none
check_given wrap check (some a) = elim (check a) [ none ↦ none | some e ↦ some (wrap e) ]

abbrev pub first_error : Option CpuError → Option CpuError → Option CpuError
first_error (some e) next = some e
first_error none next = next

check_cores : Option ℕ → Option QemuCpu → Option CpuError
check_cores none none = some cores_required
check_cores cores current = check_given of_count validate_cores cores

-- The counts of the current settings, which are none where there are no settings.
abbrev pub current_cores : Option QemuCpu → Option ℕ
current_cores none = none
current_cores (some current) = current.cores

abbrev pub current_sockets : Option QemuCpu → Option ℕ
current_sockets none = none
current_sockets (some current) = current.sockets

-- `Validate`
unfoldable pub validate : QemuCpu → Option QemuCpu → Version → Option CpuError
unfolding check_cores
validate cpu current version = first_error (check_cores cpu.cores current) (
    first_error (check_given of_flags Flags.validate cpu.flags) (
      first_error (check_given of_count validate_limit cpu.limit) (
        first_error (check_given of_count validate_sockets cpu.sockets) (
          first_error (check_given of_kind (λ k. Kind.validate k version) cpu.kind) (
            first_error (check_given of_count validate_units cpu.units) (
              check_given of_count
                (λ v.
                  validate_virtual_cores v cpu.cores cpu.sockets (current_cores current)
                    (current_sockets current))
                cpu.virtual_cores))))))

abbrev pub Given {ℓ} : {A : Type ℓ} → (A → Type 0) → Option A → Type 0
Given P none = Unit
Given P (some a) = P a

-- The rules of the settings, where each bounds a setting that is given.
pub record IsAcceptable (cpu : QemuCpu) (current : Option QemuCpu) (version : Version)
    : Type 0 where
  pub cores_given : (cpu.cores ≢ none) ⊎ (current ≢ none)
  pub cores_in_range : Given (λ n. (1 ≤ n) × (n ≤ 128)) cpu.cores
  pub flags_valid : Given (λ flags. (flag : CpuFlag) → IsValidFlag (flags flag)) cpu.flags
  pub limit_in_range : Given (λ n. n ≤ 128) cpu.limit
  pub sockets_in_range : Given (λ n. (1 ≤ n) × (n ≤ 4)) cpu.sockets
  pub kind_known : Given (λ k. (k ≡ []) ⊎ (Kind.map_to_api k version ≢ [])) cpu.kind
  pub units_in_range : Given (λ n. n ≤ 262144) cpu.units
  pub virtual_cores_in_range :
      Given
        (λ v.
          v ≤ used cpu.cores (current_cores current) * used cpu.sockets (current_sockets current))
        cpu.virtual_cores

check_given_iff {ℓ κ} :
    {A : Type ℓ} {E : Type κ} (wrap : E → CpuError) (check : A → Option E) (P : A → Type 0)
    (o : Option A)
    → ((a : A) → (check a ≡ none) ↔ P a)
    → (check_given wrap check o ≡ none) ↔ Given P o
check_given_iff wrap check P none iff = ground arith
check_given_iff wrap check P (some a) iff = elim (Option-cases (check a)) [
  | inl e ↦ rw (e, check_given) (λ _. (iff a).0 e, λ _. refl)
  | inr (err, e) ↦ rw (e, check_given) (λ h. absurd (cc), λ p. absurd (cc ((iff a).1 p)))
]

first_error_iff :
    {P Q : Type 0} (a b : Option CpuError)
    → (a ≡ none) ↔ P
    → (b ≡ none) ↔ Q
    → (first_error a b ≡ none) ↔ (P × Q)
first_error_iff none b p q = (λ h. (p.0 refl, q.0 h), λ h. q.1 h.1)
first_error_iff (some e) b p q = (λ h. absurd (cc), λ h. absurd (cc (p.1 h.0)))

check_cores_iff :
    (cores : Option ℕ) (current : Option QemuCpu)
    → (check_cores cores current ≡ none)
      ↔ (((cores ≢ none) ⊎ (current ≢ none)) × Given (λ n. (1 ≤ n) × (n ≤ 128)) cores)
unfolding check_cores
check_cores_iff none none = ground arith
check_cores_iff none (some c) = ground arith
check_cores_iff (some n) none = ground (arith, (counts_iff n))
check_cores_iff (some n) (some c) = ground (arith, (counts_iff n))

kind_iff :
    (version : Version) (k : Text)
    → (Kind.validate k version ≡ none) ↔ ((k ≡ []) ⊎ (Kind.map_to_api k version ≢ []))
unfolding Kind.validate
kind_iff version k = ground (arith, text_eqb_iff k [], text_eqb_iff (Kind.map_to_api k version) [])

-- The counts that bound the virtual cores are bytes.
abbrev pub CountsFit : QemuCpu → Option QemuCpu → Type 0
CountsFit cpu current =
    FitsByte cpu.cores
    × FitsByte cpu.sockets
    × FitsByte (current_cores current)
    × FitsByte (current_sockets current)

-- The processor settings are accepted exactly when they keep every rule of `IsAcceptable`: the counts
-- in their ranges, the virtual cores up to the cores that there are, valid flags, a kind that the
-- server knows or an empty one, and the cores given at the creation. The counts are bytes.
pub cpu_validate_iff :
    (cpu : QemuCpu) (current : Option QemuCpu) (version : Version)
    → CountsFit cpu current
    → (validate cpu current version ≡ none) ↔ IsAcceptable cpu current version
unfolding validate
cpu_validate_iff cpu current version fits =
    let all_iff = first_error_iff _ _ (check_cores_iff cpu.cores current) (
      first_error_iff _ _ (check_given_iff of_flags Flags.validate _ cpu.flags flags_validate_iff) (
        first_error_iff _ _
          (check_given_iff of_count validate_limit _ cpu.limit (λ n. (counts_iff n).0))
          (first_error_iff _ _
            (check_given_iff of_count validate_sockets _ cpu.sockets (λ n. (counts_iff n).3))
            (first_error_iff _ _ (check_given_iff of_kind _ _ cpu.kind (kind_iff version)) (
              first_error_iff _ _
                (check_given_iff of_count validate_units _ cpu.units (λ n. (counts_iff n).1))
                (check_given_iff of_count _ _ cpu.virtual_cores (λ v.
                  (validate_virtual_cores_iff v cpu.cores cpu.sockets (current_cores current)
                    (current_sockets current) fits.0 fits.1 fits.2 fits.3).0))))))) in
    (
      λ h.
          let ((given, cores), (flags, (limit, (sockets, (kind, (units, virtual)))))) =
            all_iff.0 h in
          record {
            cores_given = given;
            cores_in_range = cores;
            flags_valid = flags;
            limit_in_range = limit;
            sockets_in_range = sockets;
            kind_known = kind;
            units_in_range = units;
            virtual_cores_in_range = virtual;
          },
      λ a. all_iff.1 (
        (a.cores_given, a.cores_in_range),
        (
          a.flags_valid,
          (
            a.limit_in_range,
            (a.sockets_in_range, (a.kind_known, (a.units_in_range, a.virtual_cores_in_range))),
          ),
        ),
      ),
    )
