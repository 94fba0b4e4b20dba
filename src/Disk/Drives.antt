-- ===== src/Disk/Drives.antt =====
-- The places of one bus. The four buses have the same code on types of their own, in
-- proxmox/config_qemu_disk_{ide,sata,scsi,virtio}.go: here it is once, on an interface that each bus fills
-- in. A place that is nil is not in the dictionary. Go goes through the map of the places in any order:
-- `order` is the one it takes.
use proxmox_api_go.Base.{
  ℕ, zero, suc, ◌+◌, ◌%◌, Bool, true, false, ◌&&◌, not, ltb, nat_eqb, nat_eq, if◌then◌else◌, Option,
  none, some, ◌>>=◌, ◌⊎◌, inl, inr, List, [], ◌∷◌, ◌++◌, Text, text_eqb, text_eq, Dict, lookup,
  itoa, split_first, split_string_of_settings,
}
use proxmox_api_go.Disk.{QemuDisk, gibibyte}
use proxmox_api_go.Disk.Limits.{Mbps}
use proxmox_api_go.Disk.Answer as Answer
use proxmox_api_go.Disk.CdRom.{
  QemuCdRom, QemuCloudInitDisk, ReadDrive, read_drive, cd_rom_of, cloud_init_of, validate_cd_rom,
  validate_cloud_init, check_duplicates,
}
use proxmox_api_go.Disk.Validation.{DiskError, mutually_exclusive, first_error, validate_disk}
use proxmox_api_go.Disk.Slot.{
  QemuStorage, Request, put_slot, is_given, QemuDiskMark, QemuDiskResize, QemuUpdateChanges,
  mark_changes,
}

-- `QemuSataStorage` and its like.
pub record Storage (D P : Type 0) : Type 0 where
  pub cd_rom : Option QemuCdRom
  pub cloud_init : Option QemuCloudInitDisk
  pub disk : Option D
  pub passthrough : Option P

-- What a bus brings: its name and the number of its places, the conversions of its disks and its
-- passthroughs to a `qemuDisk` and back, and the mark of a disk.
pub record Bus (D P : Type 0) : Type 0 where
  pub name : Text
  pub slots : ℕ
  pub convert_disk : D → QemuDisk
  pub convert_passthrough : P → QemuDisk
  pub disk_of : QemuDisk → D
  pub passthrough_of : QemuDisk → P
  pub mark_of : D → QemuDiskMark

abbrev pub option_map : {A B : Type 0} → (A → B) → Option A → Option B
option_map f none = none
option_map f (some x) = some (f x)

-- More than one kind of drive in a place is an error.
abbrev pub exclusive : Bool → List Bool → Option DiskError
exclusive set [] = none
exclusive set (true ∷ kinds) = if set then some mutually_exclusive else exclusive true kinds
exclusive set (false ∷ kinds) = exclusive set kinds

abbrev pub validate_given : {A : Type 0} → (A → Option DiskError) → Option A → Option DiskError
validate_given check none = none
validate_given check (some x) = check x

-- The numbers from `i` on.
abbrev pub numbers : ℕ → ℕ → List ℕ
numbers i zero = []
numbers i (suc n) = i ∷ numbers (suc i) n

-- A number without an error, or the error.
abbrev pub result : Option DiskError → ℕ → DiskError ⊎ ℕ
result none n = inr n
result (some e) n = inl e

-- The cloud-init drives of a part are added to those before it: one at most may be there.
abbrev pub and_count : DiskError ⊎ ℕ → ℕ → (ℕ → DiskError ⊎ ℕ) → DiskError ⊎ ℕ
and_count (inl e) count rest = inl e
and_count (inr n) count rest = elim (check_duplicates (count + n)) [
  | some e ↦ inl e
  | none ↦ rest (count + n)
]

abbrev pub and_given :
    {A : Type 0} → Option A → (A → DiskError ⊎ ℕ) → ℕ → (ℕ → DiskError ⊎ ℕ) → DiskError ⊎ ℕ
and_given none check count rest = rest count
and_given (some part) check count rest = and_count (check part) count rest

module _ {D P : Type 0} (bus : Bus D P) where
  abbrev pub slot_id : ℕ → Text
  slot_id i = bus.name ++ itoa i

  -- `convertDataStructure` of a place.
  unfoldable pub convert_data_structure : Storage D P → QemuStorage
  convert_data_structure storage = record {
    cd_rom = storage.cd_rom;
    cloud_init = storage.cloud_init;
    disk = option_map bus.convert_disk storage.disk;
    passthrough = option_map bus.convert_passthrough storage.passthrough;
  }

  -- `convertDataStructureMark`
  unfoldable pub convert_data_structure_mark : Option (Storage D P) → Option QemuDiskMark
  convert_data_structure_mark none = none
  convert_data_structure_mark (some storage) = option_map bus.mark_of storage.disk

  abbrev pub storage_checks : Storage D P → List (Option DiskError)
  storage_checks storage =
      exclusive false (
        is_given storage.cd_rom
        ∷ is_given storage.cloud_init
        ∷ is_given storage.disk
        ∷ is_given storage.passthrough
        ∷ [])
      ∷ validate_given validate_cd_rom storage.cd_rom
      ∷ validate_given validate_cloud_init storage.cloud_init
      ∷ validate_given (λ d. validate_disk (bus.convert_disk d)) storage.disk
      ∷ validate_given (λ p. validate_disk (bus.convert_passthrough p)) storage.passthrough
      ∷ []

  -- `validate` of a place: the number of its cloud-init drives, or an error.
  unfoldable pub validate_storage : Storage D P → DiskError ⊎ ℕ
  validate_storage storage =
      result (first_error (storage_checks storage)) (if is_given storage.cloud_init then 1 else 0)

  -- `listCloudInitDisk`
  unfoldable pub list_cloud_init_disk : List ℕ → Dict ℕ (Storage D P) → Text
  list_cloud_init_disk [] disks = []
  list_cloud_init_disk (i ∷ order) disks = elim (lookup i disks >>= (λ s. s.cloud_init)) [
    | some cloud_init ↦ slot_id i
    | none ↦ list_cloud_init_disk order disks
  ]

  abbrev pub current_disks : Option (Dict ℕ (Storage D P)) → Dict ℕ (Storage D P)
  current_disks none = []
  current_disks (some disks) = disks

  -- `mapToApiValues`
  abbrev pub put_slots :
      List ℕ → Dict ℕ (Storage D P) → Dict ℕ (Storage D P) → ℕ → ℕ → Request → Request
  put_slots [] disks current vm_id linked_vm_id request = request
  put_slots (i ∷ order) disks current vm_id linked_vm_id request =
      put_slots order disks current vm_id linked_vm_id (
        put_slot (option_map convert_data_structure (lookup i disks))
          (option_map convert_data_structure (lookup i current)) vm_id linked_vm_id (slot_id i)
          request)

  unfoldable pub map_to_api_values :
      List ℕ → Dict ℕ (Storage D P) → Option (Dict ℕ (Storage D P)) → ℕ → ℕ → Request → Request
  map_to_api_values order disks current = put_slots order disks (current_disks current)

  -- `markDiskChanges`
  abbrev pub mark_slots :
      List ℕ → Dict ℕ (Storage D P) → Dict ℕ (Storage D P) → QemuUpdateChanges → QemuUpdateChanges
  mark_slots [] disks current changes = changes
  mark_slots (i ∷ order) disks current changes = mark_slots order disks current (
      mark_changes (convert_data_structure_mark (lookup i disks))
        (convert_data_structure_mark (lookup i current)) (slot_id i) changes)

  unfoldable pub mark_disk_changes :
      List ℕ
      → Dict ℕ (Storage D P)
      → Option (Dict ℕ (Storage D P))
      → QemuUpdateChanges
      → QemuUpdateChanges
  mark_disk_changes order disks current = mark_slots order disks (current_disks current)

  -- A disk that is new, or smaller than the current one, and of no whole number of gibibytes.
  abbrev pub disk_size : Option (Storage D P) → Option ℕ
  disk_size storage =
      storage >>= (λ s. option_map (λ d. (bus.convert_disk d).size_in_kibibytes) s.disk)

  abbrev pub is_smaller : ℕ → Option ℕ → Bool
  is_smaller size none = true
  is_smaller size (some current) = ltb size current

  abbrev pub initial_resize : ℕ → Option ℕ → Option ℕ → List QemuDiskResize
  initial_resize i none current = []
  initial_resize i (some size) current =
      if not (nat_eqb (size % gibibyte) 0) && is_smaller size current
      then record { id = slot_id i; size_in_kibibytes = size } ∷ []
      else []

  -- `selectInitialResize`
  abbrev pub select_slots :
      List ℕ → Dict ℕ (Storage D P) → Dict ℕ (Storage D P) → List QemuDiskResize
  select_slots [] disks current = []
  select_slots (i ∷ order) disks current =
      initial_resize i (disk_size (lookup i disks)) (disk_size (lookup i current))
      ++ select_slots order disks current

  unfoldable pub select_initial_resize :
      List ℕ → Dict ℕ (Storage D P) → Option (Dict ℕ (Storage D P)) → List QemuDiskResize
  select_initial_resize order disks current = select_slots order disks (current_disks current)

  -- `validate`: the number of the cloud-init drives, which is never above 1, or the first error.
  unfoldable pub validate_drives : List ℕ → ℕ → Dict ℕ (Storage D P) → DiskError ⊎ ℕ
  validate_drives [] count disks = inr count
  validate_drives (i ∷ order) count disks =
      and_given (lookup i disks) validate_storage count (λ n. validate_drives order n disks)

  unfoldable pub validate : List ℕ → Dict ℕ (Storage D P) → DiskError ⊎ ℕ
  unfolding validate_drives
  validate order disks = validate_drives order 0 disks

  abbrev pub cd_rom_or_cloud_init : ReadDrive → Storage D P
  cd_rom_or_cloud_init drive =
      if drive.is_cd_rom
      then record {
        cd_rom = some (cd_rom_of drive);
        cloud_init = none;
        disk = none;
        passthrough = none;
      }
      else record {
        cd_rom = none;
        cloud_init = some (cloud_init_of drive);
        disk = none;
        passthrough = none;
      }

  abbrev pub disk_or_passthrough : QemuDisk → Storage D P
  disk_or_passthrough disk =
      if text_eqb disk.file []
      then record {
        cd_rom = none;
        cloud_init = none;
        disk = some (bus.disk_of disk);
        passthrough = none;
      }
      else record {
        cd_rom = none;
        cloud_init = none;
        disk = none;
        passthrough = some (bus.passthrough_of disk);
      }

  module _ (read_mbps : Text → Mbps) where
    abbrev pub read_as_disk : Option (QemuDisk × ℕ) → Option (Storage D P × ℕ)
    read_as_disk none = none
    read_as_disk (some (disk, linked)) = some (disk_or_passthrough disk, linked)

    abbrev pub drive_or_disk :
        Option ReadDrive → Text → Dict Text Text → ℕ → Option (Storage D P × ℕ)
    drive_or_disk (some drive) disk_data settings linked = some (cd_rom_or_cloud_init drive, linked)
    drive_or_disk none disk_data settings linked =
        read_as_disk (Answer.map_to_struct read_mbps disk_data settings linked)

    abbrev pub read_data : Text → Dict Text Text → ℕ → Option (Storage D P × ℕ)
    read_data disk_data settings = drive_or_disk (read_drive disk_data settings) disk_data settings

    -- `mapToStruct` of a place, with the number behind the pointer; `none` is a panic.
    unfoldable pub read_storage : Text → ℕ → Option (Storage D P × ℕ)
    read_storage param = read_data (split_first b',' param).0 (split_string_of_settings param)

    abbrev pub read_slots : List ℕ → Dict Text Text → ℕ → Option (Dict ℕ (Storage D P) × ℕ)
    read_slots [] params linked = some ([], linked)
    read_slots (i ∷ order) params linked = elim (lookup (slot_id i) params) [
      | none ↦ read_slots order params linked
      | some param ↦ do
        read ← read_storage param linked
        others ← read_slots order params read.1
        some ((i, read.0) ∷ others.0, others.1)
    ]

    abbrev pub populated : Dict ℕ (Storage D P) → Option (Dict ℕ (Storage D P))
    populated [] = none
    populated (d ∷ disks) = some (d ∷ disks)

    -- `mapToStruct`: the places in their order. A bus with no drive is nil.
    unfoldable pub map_to_struct : Dict Text Text → ℕ → Option (Option (Dict ℕ (Storage D P)) × ℕ)
    map_to_struct params linked = do
      read ← read_slots (numbers 0 bus.slots) params linked
      some (populated read.0, read.1)
