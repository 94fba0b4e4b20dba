-- ===== src/Disk/Sata.antt =====
-- proxmox/config_qemu_disk_sata.go: the disks of the SATA bus, on `Disk.Drives`.
use proxmox_api_go.Base.{ℕ, Bool, true, false, Option, none, ◌⊎◌, List, [], Text, codes, Dict}
use proxmox_api_go.Disk.{QemuDisk, DiskSyntax, file_syntax, ide, sata}
use proxmox_api_go.Disk.Limits.{Mbps, Bandwidth}
use proxmox_api_go.Disk.Validation.{DiskError}
use proxmox_api_go.Disk.Validation as Validation
use proxmox_api_go.Disk.Slot.{QemuStorage, Request, QemuDiskMark, QemuDiskResize, QemuUpdateChanges}
use proxmox_api_go.Disk.Drives as Drives
use proxmox_api_go.Disk.Drives.{Bus, Storage}

pub record QemuSataDisk : Type 0 where
  pub async_io : Text
  pub backup : Bool
  pub bandwidth : Bandwidth
  pub cache : Text
  pub discard : Bool
  pub emulate_ssd : Bool
  pub format : Text
  pub id : ℕ
  pub linked_disk_id : Option ℕ
  pub replicate : Bool
  pub serial : Text
  pub size_in_kibibytes : ℕ
  pub storage : Text
  pub syntax : DiskSyntax
  pub world_wide_name : Text

pub record QemuSataPassthrough : Type 0 where
  pub async_io : Text
  pub backup : Bool
  pub bandwidth : Bandwidth
  pub cache : Text
  pub discard : Bool
  pub emulate_ssd : Bool
  pub file : Text
  pub replicate : Bool
  pub serial : Text
  pub size_in_kibibytes : ℕ
  pub world_wide_name : Text

-- `QemuSataStorage`
abbrev pub QemuSataStorage : Type 0
QemuSataStorage = Storage QemuSataDisk QemuSataPassthrough

-- `QemuSataDisks`: `Disk_0` to `Disk_5`.
abbrev pub QemuSataDisks : Type 0
QemuSataDisks = Dict ℕ QemuSataStorage

-- `convertDataStructure` of a disk.
unfoldable pub convert_disk : QemuSataDisk → QemuDisk
convert_disk disk = record {
  async_io = disk.async_io;
  backup = disk.backup;
  bandwidth = disk.bandwidth;
  cache = disk.cache;
  discard = disk.discard;
  is_disk = true;
  emulate_ssd = disk.emulate_ssd;
  file = [];
  syntax = disk.syntax;
  format = disk.format;
  id = disk.id;
  io_thread = false;
  linked_disk_id = disk.linked_disk_id;
  read_only = false;
  replicate = disk.replicate;
  serial = disk.serial;
  size_in_kibibytes = disk.size_in_kibibytes;
  storage = disk.storage;
  disk_type = sata;
  world_wide_name = disk.world_wide_name;
}

-- `convertDataStructure` of a passthrough.
unfoldable pub convert_passthrough : QemuSataPassthrough → QemuDisk
convert_passthrough passthrough = record {
  async_io = passthrough.async_io;
  backup = passthrough.backup;
  bandwidth = passthrough.bandwidth;
  cache = passthrough.cache;
  discard = passthrough.discard;
  is_disk = false;
  emulate_ssd = passthrough.emulate_ssd;
  file = passthrough.file;
  syntax = file_syntax;
  format = [];
  id = 0;
  io_thread = false;
  linked_disk_id = none;
  read_only = false;
  replicate = passthrough.replicate;
  serial = passthrough.serial;
  size_in_kibibytes = 0;
  storage = [];
  disk_type = sata;
  world_wide_name = passthrough.world_wide_name;
}

-- The disk that `mapToStruct` makes of what it read.
unfoldable pub disk_of : QemuDisk → QemuSataDisk
disk_of read = record {
  async_io = read.async_io;
  backup = read.backup;
  bandwidth = read.bandwidth;
  cache = read.cache;
  discard = read.discard;
  emulate_ssd = read.emulate_ssd;
  format = read.format;
  id = read.id;
  linked_disk_id = read.linked_disk_id;
  replicate = read.replicate;
  serial = read.serial;
  size_in_kibibytes = read.size_in_kibibytes;
  storage = read.storage;
  syntax = read.syntax;
  world_wide_name = read.world_wide_name;
}

-- The passthrough that `mapToStruct` makes of what it read.
unfoldable pub passthrough_of : QemuDisk → QemuSataPassthrough
passthrough_of read = record {
  async_io = read.async_io;
  backup = read.backup;
  bandwidth = read.bandwidth;
  cache = read.cache;
  discard = read.discard;
  emulate_ssd = read.emulate_ssd;
  file = read.file;
  replicate = read.replicate;
  serial = read.serial;
  size_in_kibibytes = read.size_in_kibibytes;
  world_wide_name = read.world_wide_name;
}

-- The type in the mark is the same for every bus.
unfoldable pub mark_of : QemuSataDisk → QemuDiskMark
mark_of disk = record {
  format = disk.format;
  id = [];
  size = disk.size_in_kibibytes;
  storage = disk.storage;
  disk_type = ide;
}

abbrev pub sata_bus : Bus QemuSataDisk QemuSataPassthrough
sata_bus = record {
  name = codes "sata";
  slots = 6;
  convert_disk = convert_disk;
  convert_passthrough = convert_passthrough;
  disk_of = disk_of;
  passthrough_of = passthrough_of;
  mark_of = mark_of;
}

-- `QemuSataDisk.Validate`
unfoldable pub validate_disk : QemuSataDisk → Option DiskError
validate_disk disk = Validation.validate_disk (convert_disk disk)

-- `QemuSataPassthrough.Validate`
unfoldable pub validate_passthrough : QemuSataPassthrough → Option DiskError
validate_passthrough passthrough = Validation.validate_disk (convert_passthrough passthrough)

-- `QemuSataStorage.convertDataStructure`
unfoldable pub convert_data_structure : QemuSataStorage → QemuStorage
unfolding Drives.convert_data_structure
convert_data_structure = Drives.convert_data_structure sata_bus

-- `QemuSataStorage.convertDataStructureMark`
unfoldable pub convert_data_structure_mark : Option QemuSataStorage → Option QemuDiskMark
unfolding Drives.convert_data_structure_mark
convert_data_structure_mark = Drives.convert_data_structure_mark sata_bus

-- `QemuSataStorage.validate`
unfoldable pub validate_storage : QemuSataStorage → DiskError ⊎ ℕ
unfolding Drives.validate_storage
validate_storage = Drives.validate_storage sata_bus

-- `QemuSataStorage.mapToStruct`
unfoldable pub read_storage : (Text → Mbps) → Text → ℕ → Option (QemuSataStorage × ℕ)
unfolding Drives.read_storage
read_storage = Drives.read_storage sata_bus

-- `QemuSataDisks.listCloudInitDisk`
unfoldable pub list_cloud_init_disk : List ℕ → QemuSataDisks → Text
unfolding Drives.list_cloud_init_disk
list_cloud_init_disk = Drives.list_cloud_init_disk sata_bus

-- `QemuSataDisks.mapToApiValues`
unfoldable pub map_to_api_values :
    List ℕ → QemuSataDisks → Option QemuSataDisks → ℕ → ℕ → Request → Request
unfolding Drives.map_to_api_values
map_to_api_values = Drives.map_to_api_values sata_bus

-- `QemuSataDisks.mapToStruct`
unfoldable pub map_to_struct :
    (Text → Mbps) → Dict Text Text → ℕ → Option (Option QemuSataDisks × ℕ)
unfolding Drives.map_to_struct
map_to_struct = Drives.map_to_struct sata_bus

-- `QemuSataDisks.markDiskChanges`
unfoldable pub mark_disk_changes :
    List ℕ → QemuSataDisks → Option QemuSataDisks → QemuUpdateChanges → QemuUpdateChanges
unfolding Drives.mark_disk_changes
mark_disk_changes = Drives.mark_disk_changes sata_bus

-- `QemuSataDisks.selectInitialResize`
unfoldable pub select_initial_resize :
    List ℕ → QemuSataDisks → Option QemuSataDisks → List QemuDiskResize
unfolding Drives.select_initial_resize
select_initial_resize = Drives.select_initial_resize sata_bus

-- `QemuSataDisks.validate`
unfoldable pub validate : List ℕ → QemuSataDisks → DiskError ⊎ ℕ
unfolding Drives.validate
validate = Drives.validate sata_bus
