-- ===== src/Disk/Tests.antt =====
-- Runs on drives, and the theorems at drives that are there.
use proxmox_api_go.Base.{
  if◌then◌else◌, text_eqb, ℕ, true, false, none, some, ◌≡◌, refl, ◌↔◌, ◌≤◌, ◌<◌, [], ◌∷◌, ◌++◌,
  Text, codes, itoa, itoa_int, lookup, text_eq, nat_eq, contains_byte, Lacks, write_settings, arith,
  Lacks-of_contains_byte, All,
}
use proxmox_api_go.Disk.{QemuDisk, file_syntax}
use proxmox_api_go.Disk.Limits.{Mbps}
use proxmox_api_go.Disk.Request.{disk_settings, disk_path, format_disk, map_to_api_values}
use proxmox_api_go.Disk.CdRom.{validate_cloud_init, check_duplicates}
use proxmox_api_go.Disk.Limits.{
  float_to_trimmed_string, hundredths, format_float, trim_right, without_point,
}
use proxmox_api_go.Disk.Validation.{id_invalid, validate_disk, validate_id}
use proxmox_api_go.Disk.Deletion.{put_slot-deleted}
use proxmox_api_go.Disk.Slot.{QemuStorage, put_slot, add_to_list, mark_changes}
use proxmox_api_go.Disk.Drives.{slot_id}
use proxmox_api_go.Disk.CdRom.{QemuCdRom, cd_rom_text}
use proxmox_api_go.Disk.Isos.{drive_with, read_storage-cd_rom_text, read_storage_of_other_type}
use proxmox_api_go.Disk.Drives as Drives
use proxmox_api_go.Disk.Ide.{ide_bus}
use proxmox_api_go.Disk.Sata.{sata_bus}
use proxmox_api_go.Disk.Scsi.{scsi_bus, QemuScsiDisk, QemuScsiDisks}
use proxmox_api_go.Disk.VirtIo.{virt_io_bus}
use proxmox_api_go.Disk.Scsi as Scsi
use proxmox_api_go.Disk.Storages as Storages
use proxmox_api_go.Disk.Storages.{QemuStorages, Orders}
use proxmox_api_go.Disk.Unchanged.{update_to_current_lem}
use proxmox_api_go.Disk.Accepted.{storages_validate_iff, IsValid, all_cloud_inits}
use proxmox_api_go.Disk.Growth.{mark_disk_changes-Grows, Grows}
use proxmox_api_go.Disk.Ids.{validate_id-slot_id, validate_id_with_sign}
use proxmox_api_go.Disk.RoundTrip.{read_storage-map_to_api_values}

abbrev no_mbps : Mbps
no_mbps = record { numerator = 0; shift = 0 }

abbrev one_and_a_half : Mbps
one_and_a_half = record { numerator = 3; shift = 1 }

abbrev disk_1 : QemuScsiDisk
disk_1 = record {
  async_io = codes "native";
  backup = true;
  bandwidth = record {
    mbps_read = record { burst = no_mbps; concurrent = one_and_a_half };
    mbps_write = record { burst = no_mbps; concurrent = no_mbps };
    iops_read = record { burst = 20; burst_duration = 5; concurrent = 10 };
    iops_write = record { burst = 0; burst_duration = 0; concurrent = 0 };
  };
  cache = [];
  discard = true;
  emulate_ssd = true;
  format = codes "raw";
  id = 7;
  io_thread = true;
  linked_disk_id = none;
  read_only = false;
  replicate = false;
  serial = codes "s1";
  size_in_kibibytes = 1048576;
  storage = codes "local";
  syntax = file_syntax;
  world_wide_name = [];
}

abbrev qemu_disk_1 : QemuDisk
qemu_disk_1 = scsi_bus.convert_disk disk_1

written_1 :
    map_to_api_values qemu_disk_1 100 0 (codes "local") (codes "raw") file_syntax false
    ≡ codes
        "local:100/vm-100-disk-7.raw,aio=native,discard=on,iops_rd=10,iops_rd_max=20,iops_rd_max_length=5,iothread=1,mbps_rd=1.5,replicate=0,serial=s1,ssd=1"
unfolding map_to_api_values Scsi.convert_disk disk_settings format_disk disk_path write_settings
    itoa_int itoa float_to_trimmed_string hundredths format_float trim_right without_point
written_1 = refl

abbrev slot_1 : Scsi.QemuScsiStorage
slot_1 = record { cd_rom = none; cloud_init = none; disk = some disk_1; passthrough = none }

abbrev cloud_init_slot : Scsi.QemuScsiStorage
cloud_init_slot = record {
  cd_rom = none;
  cloud_init = some (record { format = codes "raw"; storage = codes "local" });
  disk = none;
  passthrough = none;
}

abbrev scsi_drives : QemuScsiDisks
scsi_drives = (0, slot_1) ∷ (3, cloud_init_slot) ∷ []

abbrev storages_1 : QemuStorages
storages_1 = record { ide = none; sata = none; scsi = some scsi_drives; virt_io = none }

-- Go may go through the places in any order.
abbrev orders_1 : Orders
orders_1 = record { ide = []; sata = []; scsi = 3 ∷ 1 ∷ 0 ∷ 2 ∷ []; virt_io = [] }

valid_1 : Storages.validate orders_1 storages_1 ≡ none
unfolding Storages.validate Scsi.validate validate_disk Scsi.convert_disk validate_cloud_init
    check_duplicates lookup Drives.validate_storage
valid_1 = refl

storages_validate_iff_example :
    (Storages.validate orders_1 storages_1 ≡ none)
    ↔ (IsValid orders_1 storages_1 × (all_cloud_inits orders_1 storages_1 ≤ 1))
storages_validate_iff_example = storages_validate_iff orders_1 storages_1

update_to_current_lem_example :
    (Storages.map_to_api_values orders_1 storages_1 storages_1 100 0 [] ≡ ([], []))
    × (Storages.mark_disk_changes orders_1 storages_1 storages_1
        ≡ record { moves = []; resizes = [] })
unfolding lookup Drives.convert_data_structure
update_to_current_lem_example =
    update_to_current_lem orders_1 storages_1 100 0 [] tt tt (refl, (tt, (refl, (tt, tt)))) tt

abbrev grown_drives : QemuScsiDisks
grown_drives =
    (0, record slot_1 { disk = some (record disk_1 { size_in_kibibytes = 2097152 }) }) ∷ []

mark_disk_changes-Grows_example :
    All
      (Grows scsi_bus grown_drives scsi_drives)
      (Drives.mark_disk_changes scsi_bus
        (0 ∷ [])
        grown_drives
        (some scsi_drives)
        (record { moves = []; resizes = [] })).resizes
mark_disk_changes-Grows_example =
    mark_disk_changes-Grows scsi_bus (0 ∷ []) grown_drives (some scsi_drives)

grown_run :
    (Drives.mark_disk_changes scsi_bus
      (0 ∷ [])
      grown_drives
      (some scsi_drives)
      (record { moves = []; resizes = [] })).resizes
    ≡ record { id = codes "scsi0"; size_in_kibibytes = 2097152 } ∷ []
unfolding Drives.mark_disk_changes mark_changes Drives.convert_data_structure_mark Scsi.mark_of
    lookup itoa
grown_run = refl

validate_id-slot_id_example :
    ((validate_id (slot_id ide_bus 4) ≡ none) ↔ (4 < 4))
    × ((validate_id (slot_id sata_bus 4) ≡ none) ↔ (4 < 6))
    × ((validate_id (slot_id scsi_bus 4) ≡ none) ↔ (4 < 31))
    × ((validate_id (slot_id virt_io_bus 4) ≡ none) ↔ (4 < 16))
validate_id-slot_id_example = validate_id-slot_id 4

validate_id_with_sign_example :
    (validate_id (codes "sata+0" ++ itoa 5) ≡ none)
    × (validate_id (codes "sata0" ++ itoa 5) ≡ some id_invalid)
validate_id_with_sign_example = validate_id_with_sign 5 (omega arith)

abbrev linked_disk : QemuDisk
linked_disk = record qemu_disk_1 { linked_disk_id = some 1; format = codes "qcow2" }

linked_run :
    format_disk linked_disk 100 110 (codes "local") (codes "qcow2") file_syntax
    ≡ codes "local:110/base-110-disk-1.qcow2/100/vm-100-disk-7.qcow2"
unfolding format_disk Scsi.convert_disk disk_path itoa_int itoa
linked_run = refl

local_plain : (b : ℕ) → contains_byte b (codes "local") ≡ false → Lacks b (codes "local")
local_plain b = Lacks-of_contains_byte b (codes "local")

raw_plain : (b : ℕ) → contains_byte b (codes "raw") ≡ false → Lacks b (codes "raw")
raw_plain b = Lacks-of_contains_byte b (codes "raw")

qcow2_plain : (b : ℕ) → contains_byte b (codes "qcow2") ≡ false → Lacks b (codes "qcow2")
qcow2_plain b = Lacks-of_contains_byte b (codes "qcow2")

abbrev read_mbps : Text → Mbps
read_mbps t = if text_eqb t (codes "1.5") then one_and_a_half else no_mbps

read_storage-map_to_api_values_example :
    Drives.read_storage scsi_bus read_mbps
      (map_to_api_values qemu_disk_1 100 0 (codes "local") (codes "raw") file_syntax false)
      0
    ≡ some (
      record {
        cd_rom = none;
        cloud_init = none;
        disk = some (record disk_1 { size_in_kibibytes = 0 });
        passthrough = none;
      },
      0,
    )
unfolding Scsi.convert_disk Scsi.disk_of float_to_trimmed_string hundredths format_float trim_right
    without_point itoa
read_storage-map_to_api_values_example =
    read_storage-map_to_api_values scsi_bus read_mbps qemu_disk_1 100 0 0 (codes "local")
      (codes "raw") file_syntax refl
      (
        (λ e. cc),
        local_plain b':' refl,
        local_plain b',' refl,
        local_plain b'=' refl,
        local_plain b'/' refl,
      )
      ((raw_plain b'/' refl, raw_plain b':' refl), raw_plain b'.' refl, raw_plain b',' refl)
      (
        Lacks-of_contains_byte b',' (codes "native") refl,
        tt,
        Lacks-of_contains_byte b',' (codes "s1") refl,
        tt,
      )
      (omega arith, omega arith, omega arith, omega arith, omega arith, omega arith) (omega arith)
      (omega arith) (omega arith) tt

abbrev debian : QemuCdRom
debian =
    drive_with
      (record { file = codes "debian-11.0.0.iso"; storage = codes "local"; size = codes "377M" })

read_storage-cd_rom_text_example :
    Drives.read_storage scsi_bus read_mbps
      (cd_rom_text debian ++ write_settings ((codes "size", some (codes "377M")) ∷ []))
      0
    ≡ some (record { cd_rom = some debian; cloud_init = none; disk = none; passthrough = none }, 0)
read_storage-cd_rom_text_example =
    read_storage-cd_rom_text scsi_bus read_mbps (codes "local") (codes "debian-11.0.0")
      (codes "377M") 0
      (
        (λ e. cc),
        local_plain b':' refl,
        local_plain b',' refl,
        local_plain b'=' refl,
        local_plain b'/' refl,
      )
      (Lacks-of_contains_byte b'/' (codes "debian-11.0.0") refl)
      (Lacks-of_contains_byte b',' (codes "debian-11.0.0") refl)
      (Lacks-of_contains_byte b',' (codes "377M") refl)

abbrev image : QemuCdRom
image = drive_with (record { file = codes "debian.img"; storage = codes "local"; size = [] })

read_storage_of_other_type_example :
    Drives.read_storage scsi_bus read_mbps
      (cd_rom_text image ++ write_settings ((codes "size", none) ∷ []))
      0
    ≡ some (
      record {
        cd_rom = none;
        cloud_init = some (record { format = codes "img"; storage = codes "local" });
        disk = none;
        passthrough = none;
      },
      0,
    )
read_storage_of_other_type_example =
    read_storage_of_other_type scsi_bus read_mbps (codes "local") (codes "debian") (codes "img")
      none [] 0
      (
        (λ e. cc),
        local_plain b':' refl,
        local_plain b',' refl,
        local_plain b'=' refl,
        local_plain b'/' refl,
      )
      (Lacks-of_contains_byte b'/' (codes "debian") refl)
      (Lacks-of_contains_byte b',' (codes "debian") refl)
      (Lacks-of_contains_byte b'/' (codes "img") refl)
      (Lacks-of_contains_byte b',' (codes "img") refl)
      (Lacks-of_contains_byte b'.' (codes "img") refl) tt refl

abbrev emptied : QemuStorage
emptied = record { cd_rom = none; cloud_init = none; disk = none; passthrough = none }

put_slot-deleted_example :
    ((put_slot
        (some emptied)
        (some (Drives.convert_data_structure scsi_bus slot_1))
        100
        0
        (codes "scsi0")
        ([], codes "ide2")).1
      ≡ codes "ide2,scsi0")
    × (put_slot none
          (some (Drives.convert_data_structure scsi_bus slot_1))
          100
          0
          (codes "scsi0")
          ([], codes "ide2")
        ≡ ([], codes "ide2"))
unfolding add_to_list
put_slot-deleted_example =
    put_slot-deleted emptied (some (Drives.convert_data_structure scsi_bus slot_1)) 100 0
      (codes "scsi0") [] (codes "ide2")
