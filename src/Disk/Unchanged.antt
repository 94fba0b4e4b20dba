-- ===== src/Disk/Unchanged.antt =====
-- Updates that change nothing.
use proxmox_api_go.Base.{
  ℕ, Bool, true, false, ◌||◌, leb, ltb, arith, Option, none, some, ◌≡◌, refl, List, [], ◌∷◌, Text,
  text_eqb, text_eqb_iff, text_eq, nat_eq, Dict, lookup, All,
}
use proxmox_api_go.Disk.{QemuDisk}
use proxmox_api_go.Disk.CdRom.{QemuCdRom, QemuCloudInitDisk, cd_rom_text, cloud_init_text}
use proxmox_api_go.Disk.Slot.{
  passthrough_text, QemuStorage, Request, put_slot, put_changed, put_disk, put_drive, is_given,
  QemuDiskMark, QemuUpdateChanges, mark_changes, mark_resize, mark_move, update_text,
}
use mathlib.Core.List.{append-nil}
use proxmox_api_go.Disk.Ide.{ide_bus}
use proxmox_api_go.Disk.Sata.{sata_bus}
use proxmox_api_go.Disk.Scsi.{scsi_bus}
use proxmox_api_go.Disk.VirtIo.{virt_io_bus}
use proxmox_api_go.Disk.Ide as Ide
use proxmox_api_go.Disk.Sata as Sata
use proxmox_api_go.Disk.Scsi as Scsi
use proxmox_api_go.Disk.VirtIo as VirtIo
use proxmox_api_go.Disk.Storages as Storages
use proxmox_api_go.Disk.Storages.{QemuStorages, Orders, if_given}
use proxmox_api_go.Disk.Drives.{
  option_map, slot_id, Storage, Bus, put_slots, map_to_api_values, mark_slots, mark_disk_changes,
  convert_data_structure, convert_data_structure_mark,
}

text_eqb_same : (s : Text) → text_eqb s s ≡ true
text_eqb_same s = (text_eqb_iff s s).1 refl

ltb_same : (n : ℕ) → ltb n n ≡ false
ltb_same n = ground arith

leb_same : (n : ℕ) → leb n n ≡ true
leb_same n = ground arith

put_changed_same :
    (id text : Text) (request : Request) → put_changed id text (some text) request ≡ request
put_changed_same id text (params, delete) = rw (text_eqb_same text) refl

put_disk_same :
    (id : Text) (disk : QemuDisk) (vm_id linked : ℕ) (request : Request)
    → put_disk id disk (some disk) vm_id linked request ≡ request
put_disk_same id disk vm_id linked request =
    rw (leb_same disk.size_in_kibibytes)
      (put_changed_same id (update_text disk disk vm_id linked) request)

-- A place has a drive of some kind.
abbrev pub is_used : QemuStorage → Bool
is_used s = is_given s.cd_rom || is_given s.cloud_init || is_given s.disk || is_given s.passthrough

put_drive_same :
    (cd_rom : Option QemuCdRom) (cloud_init : Option QemuCloudInitDisk)
    (disk passthrough : Option QemuDisk) (vm_id linked : ℕ) (id : Text) (request : Request)
    → (let s : QemuStorage = record {
      cd_rom = cd_rom;
      cloud_init = cloud_init;
      disk = disk;
      passthrough = passthrough;
    } in
        is_used s ≡ true → put_drive id s (some s) vm_id linked request ≡ request)
put_drive_same (some c) cloud_init disk passthrough vm_id linked id request used =
    put_changed_same id (cd_rom_text c) request
put_drive_same none (some c) disk passthrough vm_id linked id request used =
    put_changed_same id (cloud_init_text c) request
put_drive_same none none (some d) passthrough vm_id linked id request used =
    put_disk_same id d vm_id linked request
put_drive_same none none none (some p) vm_id linked id request used =
    put_changed_same id (passthrough_text p) request
put_drive_same none none none none vm_id linked id request used = cc

put_slot_same :
    (s : QemuStorage) (vm_id linked : ℕ) (id : Text) (request : Request)
    → is_used s ≡ true
    → put_slot (some s) (some s) vm_id linked id request ≡ request
unfolding put_slot
put_slot_same s = put_drive_same s.cd_rom s.cloud_init s.disk s.passthrough

mark_move_same : (mark : QemuDiskMark) (id : Text) → mark_move mark mark id ≡ []
mark_move_same mark id = rw (text_eqb_same mark.storage, text_eqb_same mark.format) refl

mark_resize_same : (mark : QemuDiskMark) (id : Text) → mark_resize mark mark id ≡ []
mark_resize_same mark id = rw (ltb_same mark.size) refl

mark_changes_same :
    (mark : Option QemuDiskMark) (id : Text) (changes : QemuUpdateChanges)
    → mark_changes mark mark id changes ≡ changes
unfolding mark_changes
mark_changes_same none id changes = refl
mark_changes_same (some mark) id changes =
    rw
      (
        leb_same mark.size,
        mark_move_same mark id,
        mark_resize_same mark id,
        append-nil changes.moves,
        append-nil changes.resizes,
      )
      refl

module _ {D P : Type 0} (bus : Bus D P) where
  -- Each drive that is there is of some kind.
  abbrev pub IsUsed : Option (Storage D P) → Type 0
  IsUsed none = Unit
  IsUsed (some s) = is_used (convert_data_structure bus s) ≡ true

  put_used_same :
      (s : Option (Storage D P)) (vm_id linked : ℕ) (id : Text) (request : Request)
      → IsUsed s
      → (let slot = option_map (convert_data_structure bus) s in
          put_slot slot slot vm_id linked id request ≡ request)
  unfolding put_slot
  put_used_same none vm_id linked id request used = refl
  put_used_same (some s) vm_id linked id request used =
      put_slot_same (convert_data_structure bus s) vm_id linked id request used

  put_slots_same :
      (order : List ℕ) (disks : Dict ℕ (Storage D P)) (vm_id linked : ℕ) (request : Request)
      → All (λ i. IsUsed (lookup i disks)) order
      → put_slots bus order disks disks vm_id linked request ≡ request
  put_slots_same [] disks vm_id linked request h = refl
  put_slots_same (i ∷ order) disks vm_id linked request (used, h) =
      rw (put_used_same (lookup i disks) vm_id linked (slot_id bus i) request used)
        (put_slots_same order disks vm_id linked request h)

  -- Every bus that is there has drives of some kind only.
  abbrev pub AllUsed : List ℕ → Option (Dict ℕ (Storage D P)) → Type 0
  AllUsed order none = Unit
  AllUsed order (some disks) = All (λ i. IsUsed (lookup i disks)) order

  bus_same :
      (order : List ℕ) (disks : Option (Dict ℕ (Storage D P))) (vm_id linked : ℕ)
      (request : Request)
      → AllUsed order disks
      → if_given disks (λ d. map_to_api_values bus order d disks vm_id linked request) request
        ≡ request
  unfolding map_to_api_values
  bus_same order none vm_id linked request used = refl
  bus_same order (some disks) vm_id linked request used =
      put_slots_same order disks vm_id linked request used

  mark_slots_same :
      (order : List ℕ) (disks : Dict ℕ (Storage D P)) (changes : QemuUpdateChanges)
      → mark_slots bus order disks disks changes ≡ changes
  mark_slots_same [] disks changes = refl
  mark_slots_same (i ∷ order) disks changes =
      rw
        (mark_changes_same (convert_data_structure_mark bus (lookup i disks)) (slot_id bus i)
          changes)
        (mark_slots_same order disks changes)

  mark_bus_same :
      (order : List ℕ) (disks : Option (Dict ℕ (Storage D P))) (changes : QemuUpdateChanges)
      → if_given disks (λ d. mark_disk_changes bus order d disks changes) changes ≡ changes
  unfolding mark_disk_changes
  mark_bus_same order none changes = refl
  mark_bus_same order (some disks) changes = mark_slots_same order disks changes

storages_map_to_api_values_same :
    (orders : Orders) (s : QemuStorages) (vm_id linked : ℕ) (params : Dict Text Text)
    → AllUsed ide_bus orders.ide s.ide
    → AllUsed sata_bus orders.sata s.sata
    → AllUsed scsi_bus orders.scsi s.scsi
    → AllUsed virt_io_bus orders.virt_io s.virt_io
    → Storages.map_to_api_values orders s s vm_id linked params ≡ (params, [])
unfolding Storages.map_to_api_values Ide.map_to_api_values Sata.map_to_api_values
    Scsi.map_to_api_values VirtIo.map_to_api_values
storages_map_to_api_values_same orders s vm_id linked params ide sata scsi virt_io =
    rw
      (
        bus_same ide_bus orders.ide s.ide vm_id linked (params, []) ide,
        bus_same sata_bus orders.sata s.sata vm_id linked (params, []) sata,
        bus_same scsi_bus orders.scsi s.scsi vm_id linked (params, []) scsi,
        bus_same virt_io_bus orders.virt_io s.virt_io vm_id linked (params, []) virt_io,
      )
      refl

storages_mark_disk_changes_same :
    (orders : Orders) (s : QemuStorages)
    → Storages.mark_disk_changes orders s s ≡ record { moves = []; resizes = [] }
unfolding Storages.mark_disk_changes Ide.mark_disk_changes Sata.mark_disk_changes
    Scsi.mark_disk_changes VirtIo.mark_disk_changes
storages_mark_disk_changes_same orders s =
    let start : QemuUpdateChanges = record { moves = []; resizes = [] } in
    rw
      (
        mark_bus_same ide_bus orders.ide s.ide start,
        mark_bus_same sata_bus orders.sata s.sata start,
        mark_bus_same scsi_bus orders.scsi s.scsi start,
        mark_bus_same virt_io_bus orders.virt_io s.virt_io start,
      )
      refl

-- An update of the drives to what they are sends no drive and deletes, moves and resizes none, if each place
-- that is not nil has a drive.
pub update_to_current_lem :
    (orders : Orders) (s : QemuStorages) (vm_id linked : ℕ) (params : Dict Text Text)
    → AllUsed ide_bus orders.ide s.ide
    → AllUsed sata_bus orders.sata s.sata
    → AllUsed scsi_bus orders.scsi s.scsi
    → AllUsed virt_io_bus orders.virt_io s.virt_io
    → (Storages.map_to_api_values orders s s vm_id linked params ≡ (params, []))
      × (Storages.mark_disk_changes orders s s ≡ record { moves = []; resizes = [] })
update_to_current_lem orders s vm_id linked params ide sata scsi virt_io = (
  storages_map_to_api_values_same orders s vm_id linked params ide sata scsi virt_io,
  storages_mark_disk_changes_same orders s,
)
