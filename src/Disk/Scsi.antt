-- ===== src/Disk/Scsi.antt =====
-- proxmox/config_qemu_disk_scsi.go: the disks of the SCSI bus, on `Disk.Drives`.
use proxmox_api_go.Base.{ℕ, Bool, true, false, Option, none, ◌⊎◌, List, [], Text, codes, Dict}
use proxmox_api_go.Disk.{QemuDisk, DiskSyntax, file_syntax, ide, scsi}
use proxmox_api_go.Disk.Limits.{Mbps, Bandwidth}
use proxmox_api_go.Disk.Validation.{DiskError}
use proxmox_api_go.Disk.Validation as Validation
use proxmox_api_go.Disk.Slot.{QemuStorage, Request, QemuDiskMark, QemuDiskResize, QemuUpdateChanges}
use proxmox_api_go.Disk.Drives as Drives
use proxmox_api_go.Disk.Drives.{Bus, Storage}

pub record QemuScsiDisk : Type 0 where
  pub async_io : Text
  pub backup : Bool
  pub bandwidth : Bandwidth
  pub cache : Text
  pub discard : Bool
  pub emulate_ssd : Bool
  pub format : Text
  pub id : ℕ
  pub io_thread : Bool
  pub linked_disk_id : Option ℕ
  pub read_only : Bool
  pub replicate : Bool
  pub serial : Text
  pub size_in_kibibytes : ℕ
  pub storage : Text
  pub syntax : DiskSyntax
  pub world_wide_name : Text

pub record QemuScsiPassthrough : Type 0 where
  pub async_io : Text
  pub backup : Bool
  pub bandwidth : Bandwidth
  pub cache : Text
  pub discard : Bool
  pub emulate_ssd : Bool
  pub file : Text
  pub io_thread : Bool
  pub read_only : Bool
  pub replicate : Bool
  pub serial : Text
  pub size_in_kibibytes : ℕ
  pub world_wide_name : Text

-- `QemuScsiStorage`
abbrev pub QemuScsiStorage : Type 0
QemuScsiStorage = Storage QemuScsiDisk QemuScsiPassthrough

-- `QemuScsiDisks`: `Disk_0` to `Disk_30`.
abbrev pub QemuScsiDisks : Type 0
QemuScsiDisks = Dict ℕ QemuScsiStorage

-- `convertDataStructure` of a disk.
unfoldable pub convert_disk : QemuScsiDisk → QemuDisk
convert_disk disk = record {
  async_io = disk.async_io;
  backup = disk.backup;
  bandwidth = disk.bandwidth;
  cache = disk.cache;
  discard = disk.discard;
  is_disk = true;
  emulate_ssd = disk.emulate_ssd;
  file = [];
  syntax = disk.syntax;
  format = disk.format;
  id = disk.id;
  io_thread = disk.io_thread;
  linked_disk_id = disk.linked_disk_id;
  read_only = disk.read_only;
  replicate = disk.replicate;
  serial = disk.serial;
  size_in_kibibytes = disk.size_in_kibibytes;
  storage = disk.storage;
  disk_type = scsi;
  world_wide_name = disk.world_wide_name;
}

-- `convertDataStructure` of a passthrough.
unfoldable pub convert_passthrough : QemuScsiPassthrough → QemuDisk
convert_passthrough passthrough = record {
  async_io = passthrough.async_io;
  backup = passthrough.backup;
  bandwidth = passthrough.bandwidth;
  cache = passthrough.cache;
  discard = passthrough.discard;
  is_disk = false;
  emulate_ssd = passthrough.emulate_ssd;
  file = passthrough.file;
  syntax = file_syntax;
  format = [];
  id = 0;
  io_thread = passthrough.io_thread;
  linked_disk_id = none;
  read_only = passthrough.read_only;
  replicate = passthrough.replicate;
  serial = passthrough.serial;
  size_in_kibibytes = 0;
  storage = [];
  disk_type = scsi;
  world_wide_name = passthrough.world_wide_name;
}

-- The disk that `mapToStruct` makes of what it read.
unfoldable pub disk_of : QemuDisk → QemuScsiDisk
disk_of read = record {
  async_io = read.async_io;
  backup = read.backup;
  bandwidth = read.bandwidth;
  cache = read.cache;
  discard = read.discard;
  emulate_ssd = read.emulate_ssd;
  format = read.format;
  id = read.id;
  io_thread = read.io_thread;
  linked_disk_id = read.linked_disk_id;
  read_only = read.read_only;
  replicate = read.replicate;
  serial = read.serial;
  size_in_kibibytes = read.size_in_kibibytes;
  storage = read.storage;
  syntax = read.syntax;
  world_wide_name = read.world_wide_name;
}

-- The passthrough that `mapToStruct` makes of what it read.
unfoldable pub passthrough_of : QemuDisk → QemuScsiPassthrough
passthrough_of read = record {
  async_io = read.async_io;
  backup = read.backup;
  bandwidth = read.bandwidth;
  cache = read.cache;
  discard = read.discard;
  emulate_ssd = read.emulate_ssd;
  file = read.file;
  io_thread = read.io_thread;
  read_only = read.read_only;
  replicate = read.replicate;
  serial = read.serial;
  size_in_kibibytes = read.size_in_kibibytes;
  world_wide_name = read.world_wide_name;
}

-- The type in the mark is the same for every bus.
unfoldable pub mark_of : QemuScsiDisk → QemuDiskMark
mark_of disk = record {
  format = disk.format;
  id = [];
  size = disk.size_in_kibibytes;
  storage = disk.storage;
  disk_type = ide;
}

abbrev pub scsi_bus : Bus QemuScsiDisk QemuScsiPassthrough
scsi_bus = record {
  name = codes "scsi";
  slots = 31;
  convert_disk = convert_disk;
  convert_passthrough = convert_passthrough;
  disk_of = disk_of;
  passthrough_of = passthrough_of;
  mark_of = mark_of;
}

-- `QemuScsiDisk.Validate`
unfoldable pub validate_disk : QemuScsiDisk → Option DiskError
validate_disk disk = Validation.validate_disk (convert_disk disk)

-- `QemuScsiPassthrough.Validate`
unfoldable pub validate_passthrough : QemuScsiPassthrough → Option DiskError
validate_passthrough passthrough = Validation.validate_disk (convert_passthrough passthrough)

-- `QemuScsiStorage.convertDataStructure`
unfoldable pub convert_data_structure : QemuScsiStorage → QemuStorage
unfolding Drives.convert_data_structure
convert_data_structure = Drives.convert_data_structure scsi_bus

-- `QemuScsiStorage.convertDataStructureMark`
unfoldable pub convert_data_structure_mark : Option QemuScsiStorage → Option QemuDiskMark
unfolding Drives.convert_data_structure_mark
convert_data_structure_mark = Drives.convert_data_structure_mark scsi_bus

-- `QemuScsiStorage.validate`
unfoldable pub validate_storage : QemuScsiStorage → DiskError ⊎ ℕ
unfolding Drives.validate_storage
validate_storage = Drives.validate_storage scsi_bus

-- `QemuScsiStorage.mapToStruct`
unfoldable pub read_storage : (Text → Mbps) → Text → ℕ → Option (QemuScsiStorage × ℕ)
unfolding Drives.read_storage
read_storage = Drives.read_storage scsi_bus

-- `QemuScsiDisks.listCloudInitDisk`
unfoldable pub list_cloud_init_disk : List ℕ → QemuScsiDisks → Text
unfolding Drives.list_cloud_init_disk
list_cloud_init_disk = Drives.list_cloud_init_disk scsi_bus

-- `QemuScsiDisks.mapToApiValues`
unfoldable pub map_to_api_values :
    List ℕ → QemuScsiDisks → Option QemuScsiDisks → ℕ → ℕ → Request → Request
unfolding Drives.map_to_api_values
map_to_api_values = Drives.map_to_api_values scsi_bus

-- `QemuScsiDisks.mapToStruct`
unfoldable pub map_to_struct :
    (Text → Mbps) → Dict Text Text → ℕ → Option (Option QemuScsiDisks × ℕ)
unfolding Drives.map_to_struct
map_to_struct = Drives.map_to_struct scsi_bus

-- `QemuScsiDisks.markDiskChanges`
unfoldable pub mark_disk_changes :
    List ℕ → QemuScsiDisks → Option QemuScsiDisks → QemuUpdateChanges → QemuUpdateChanges
unfolding Drives.mark_disk_changes
mark_disk_changes = Drives.mark_disk_changes scsi_bus

-- `QemuScsiDisks.selectInitialResize`
unfoldable pub select_initial_resize :
    List ℕ → QemuScsiDisks → Option QemuScsiDisks → List QemuDiskResize
unfolding Drives.select_initial_resize
select_initial_resize = Drives.select_initial_resize scsi_bus

-- `QemuScsiDisks.validate`
unfoldable pub validate : List ℕ → QemuScsiDisks → DiskError ⊎ ℕ
unfolding Drives.validate
validate = Drives.validate scsi_bus
