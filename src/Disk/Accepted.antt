-- ===== src/Disk/Accepted.antt =====
-- The drives that `QemuStorages.Validate` takes.
use proxmox_api_go.Base.{
  ℕ, ◌+◌, ◌≤◌, Bool, arith, nat_eq, if◌then◌else◌, Option, none, some, ◌≡◌, refl, ap, ◌⊎◌, inl, inr,
  ◌↔◌, List, [], ◌∷◌, Dict, lookup, All,
}
use proxmox_api_go.Disk.Validation.{DiskError, first_error, validate_disk}
use proxmox_api_go.Disk.CdRom.{validate_cd_rom, validate_cloud_init}
use proxmox_api_go.Disk.Slot.{is_given}
use proxmox_api_go.Disk.Drives.{
  storage_checks, Bus, Storage, validate_given, validate_storage, validate_drives, validate,
}
use proxmox_api_go.Disk.Ide.{ide_bus}
use proxmox_api_go.Disk.Sata.{sata_bus}
use proxmox_api_go.Disk.Scsi.{scsi_bus}
use proxmox_api_go.Disk.VirtIo.{virt_io_bus}
use proxmox_api_go.Disk.Ide as Ide
use proxmox_api_go.Disk.Sata as Sata
use proxmox_api_go.Disk.Scsi as Scsi
use proxmox_api_go.Disk.VirtIo as VirtIo
use proxmox_api_go.Disk.Storages as Storages
use proxmox_api_go.Disk.Storages.{QemuStorages, Orders, error_of}
use proxmox_api_go.Disk.Counts.{
  count, exclusive-false_iff, first_error_iff, result_iff, IfGiven, number_of, and_given_iff,
}

module _ {D P : Type 0} (bus : Bus D P) where
  abbrev pub kinds_given : Storage D P → List Bool
  kinds_given s =
      is_given s.cd_rom ∷ is_given s.cloud_init ∷ is_given s.disk ∷ is_given s.passthrough ∷ []

  -- The number of the kinds of drive in a place.
  abbrev pub kinds : Storage D P → ℕ
  kinds s = count (kinds_given s)

  abbrev pub cloud_init_count : Storage D P → ℕ
  cloud_init_count s = if is_given s.cloud_init then 1 else 0

  -- At most one kind of drive, and each that is there is valid.
  abbrev pub IsValidStorage : Storage D P → Type 0
  IsValidStorage s =
      (kinds s ≤ 1)
      × (validate_given validate_cd_rom s.cd_rom ≡ none)
      × (validate_given validate_cloud_init s.cloud_init ≡ none)
      × (validate_given (λ d. validate_disk (bus.convert_disk d)) s.disk ≡ none)
      × (validate_given (λ p. validate_disk (bus.convert_passthrough p)) s.passthrough ≡ none)

  validate_storage_iff :
      (s : Storage D P) (n : ℕ)
      → (validate_storage bus s ≡ inr n) ↔ (IsValidStorage s × (cloud_init_count s ≡ n))
  unfolding validate_storage
  validate_storage_iff s n = (
    λ e.
        let (valid, number) =
          (result_iff (first_error (storage_checks bus s)) (cloud_init_count s) n).0 e in
        let h = (first_error_iff (storage_checks bus s)).0 valid in
        (
          ((exclusive-false_iff (kinds_given s)).0 h.0, h.1.0, h.1.1.0, h.1.1.1.0, h.1.1.1.1.0),
          number,
        ),
    λ h. (result_iff (first_error (storage_checks bus s)) (cloud_init_count s) n).1 (
      (first_error_iff (storage_checks bus s)).1
          ((exclusive-false_iff (kinds_given s)).1 h.0.0, (h.0.1, (h.0.2, (h.0.3, (h.0.4, tt))))),
      h.1,
    ),
  )

  -- The number of the cloud-init drives of the places.
  abbrev pub cloud_inits : List ℕ → Dict ℕ (Storage D P) → ℕ
  cloud_inits [] disks = 0
  cloud_inits (i ∷ order) disks =
      number_of cloud_init_count (lookup i disks) + cloud_inits order disks

  validate_drives_iff :
      (order : List ℕ) (c n : ℕ) (disks : Dict ℕ (Storage D P))
      → c ≤ 1
      → (validate_drives bus order c disks ≡ inr n) ↔ (
          All (λ i. IfGiven IsValidStorage (lookup i disks)) order
          × (c + cloud_inits order disks ≡ n)
          × (n ≤ 1))
  unfolding validate_drives
  validate_drives_iff [] c n disks h = (
    λ e. let same : c ≡ n = cc in (tt, omega arith, omega arith),
    λ h. ap inr (omega (arith, h.1)),
  )
  validate_drives_iff (i ∷ order) c n disks h =
      and_given_iff (lookup i disks) (validate_storage bus) IsValidStorage cloud_init_count
        (cloud_inits order disks) c n (λ m. validate_drives bus order m disks) validate_storage_iff
        (λ m few. validate_drives_iff order m n disks few) h

  abbrev pub AllValid : List ℕ → Dict ℕ (Storage D P) → Type 0
  AllValid order disks = All (λ i. IfGiven IsValidStorage (lookup i disks)) order

  -- The drives of a bus are valid, and one of them at most is a cloud-init drive.
  abbrev pub IsValidBus : List ℕ → Dict ℕ (Storage D P) → Type 0
  IsValidBus order disks = AllValid order disks × (cloud_inits order disks ≤ 1)

  IsValidBus-iff :
      (order : List ℕ) (disks : Option (Dict ℕ (Storage D P)))
      → IfGiven (IsValidBus order) disks
        ↔ (IfGiven (AllValid order) disks × (number_of (cloud_inits order) disks ≤ 1))
  IsValidBus-iff order none = (λ h. (tt, omega arith), λ h. tt)
  IsValidBus-iff order (some disks) = (λ h. h, λ h. h)

  pub validate_iff :
      (order : List ℕ) (disks : Dict ℕ (Storage D P)) (n : ℕ)
      → (validate bus order disks ≡ inr n)
        ↔ (IsValidBus order disks × (cloud_inits order disks ≡ n))
  unfolding validate
  validate_iff order disks n =
      let (there, back) = validate_drives_iff order 0 n disks (omega arith) in
      (
        λ e.
            let (valid, total, most) = there e in
            ((valid, omega (arith, total)), omega (arith, total)),
        λ h. back (h.0.0, omega (arith, h.1), omega (arith, h.0.1, h.1)),
      )

-- The number of the cloud-init drives of the four buses.
abbrev pub all_cloud_inits : Orders → QemuStorages → ℕ
all_cloud_inits orders s =
    number_of (cloud_inits ide_bus orders.ide) s.ide
    + (number_of (cloud_inits sata_bus orders.sata) s.sata
        + (number_of (cloud_inits scsi_bus orders.scsi) s.scsi
            + (number_of (cloud_inits virt_io_bus orders.virt_io) s.virt_io + 0)))

abbrev IsValidWithCounts : Orders → QemuStorages → Type 0
IsValidWithCounts orders s =
    IfGiven (IsValidBus ide_bus orders.ide) s.ide
    × (IfGiven (IsValidBus sata_bus orders.sata) s.sata
        × (IfGiven (IsValidBus scsi_bus orders.scsi) s.scsi
            × (IfGiven (IsValidBus virt_io_bus orders.virt_io) s.virt_io × Unit)))

last_iff :
    (n m : ℕ)
    → m ≤ 1
    → (◌≡◌ {A = DiskError ⊎ ℕ} (inr m) (inr n)) ↔ (Unit {0} × (m + 0 ≡ n) × (n ≤ 1))
last_iff n m few =
    (λ e. let same : m ≡ n = cc in (tt, omega arith, omega arith), λ h. ap inr (omega (arith, h.1)))

validate_count_iff :
    (orders : Orders) (s : QemuStorages) (n : ℕ)
    → (Storages.validate_count orders s ≡ inr n)
      ↔ (IsValidWithCounts orders s × (0 + all_cloud_inits orders s ≡ n) × (n ≤ 1))
unfolding Storages.validate_count Ide.validate Sata.validate Scsi.validate VirtIo.validate
validate_count_iff orders s n =
    and_given_iff s.ide (Ide.validate orders.ide) (IsValidBus ide_bus orders.ide)
      (cloud_inits ide_bus orders.ide) _ 0 n _ (validate_iff ide_bus orders.ide)
      (λ i i_few.
        and_given_iff s.sata (Sata.validate orders.sata) (IsValidBus sata_bus orders.sata)
          (cloud_inits sata_bus orders.sata) _ i n _ (validate_iff sata_bus orders.sata)
          (λ j j_few.
            and_given_iff s.scsi (Scsi.validate orders.scsi) (IsValidBus scsi_bus orders.scsi)
              (cloud_inits scsi_bus orders.scsi) _ j n _ (validate_iff scsi_bus orders.scsi)
              (λ k k_few.
                and_given_iff s.virt_io (VirtIo.validate orders.virt_io)
                  (IsValidBus virt_io_bus orders.virt_io) (cloud_inits virt_io_bus orders.virt_io) _
                  k n _ (validate_iff virt_io_bus orders.virt_io) (last_iff n) k_few)
              j_few)
          i_few)
      (omega arith)

-- Each place of the buses that are there holds at most one kind of drive, and that is valid.
abbrev pub IsValid : Orders → QemuStorages → Type 0
IsValid orders s =
    IfGiven (AllValid ide_bus orders.ide) s.ide
    × IfGiven (AllValid sata_bus orders.sata) s.sata
    × IfGiven (AllValid scsi_bus orders.scsi) s.scsi
    × IfGiven (AllValid virt_io_bus orders.virt_io) s.virt_io

error_of_iff : (r : DiskError ⊎ ℕ) → (error_of r ≡ none) ↔ ((n : ℕ) × (r ≡ inr n))
error_of_iff (inl e) = (λ h. absurd cc, λ h. absurd cc)
error_of_iff (inr n) = (λ h. (n, refl), λ h. refl)

-- `Validate` takes drives exactly if each place holds at most one kind of drive, which is valid, and the
-- four buses together hold at most one cloud-init drive.
pub storages_validate_iff :
    (orders : Orders) (s : QemuStorages)
    → (Storages.validate orders s ≡ none) ↔ (IsValid orders s × (all_cloud_inits orders s ≤ 1))
unfolding Storages.validate
storages_validate_iff orders s =
    let ide = IsValidBus-iff ide_bus orders.ide s.ide in
    let sata = IsValidBus-iff sata_bus orders.sata s.sata in
    let scsi = IsValidBus-iff scsi_bus orders.scsi s.scsi in
    let virt_io = IsValidBus-iff virt_io_bus orders.virt_io s.virt_io in
    let outcome = error_of_iff (Storages.validate_count orders s) in
    (
      λ h.
          let (n, accepted) = outcome.0 h in
          let (valid, total, most) = (validate_count_iff orders s n).0 accepted in
          (
            (
              (ide.0 valid.0).0,
              (sata.0 valid.1.0).0,
              (scsi.0 valid.1.1.0).0,
              (virt_io.0 valid.1.1.1.0).0,
            ),
            omega (arith, total, most),
          ),
      λ h.
          let few = h.1 in
          outcome.1 (
            all_cloud_inits orders s,
            (validate_count_iff orders s (all_cloud_inits orders s)).1 (
              (
                ide.1 (h.0.0, omega (arith, few)),
                (
                  sata.1 (h.0.1, omega (arith, few)),
                  (scsi.1 (h.0.2, omega (arith, few)), (virt_io.1 (h.0.3, omega (arith, few)), tt)),
                ),
              ),
              omega arith,
              few,
            ),
          ),
    )
