-- ===== src/Disk/Ide.antt =====
-- proxmox/config_qemu_disk_ide.go: the disks of the IDE bus, on `Disk.Drives`.
use proxmox_api_go.Base.{ℕ, Bool, true, false, Option, none, ◌⊎◌, List, [], Text, codes, Dict}
use proxmox_api_go.Disk.{QemuDisk, DiskSyntax, file_syntax, ide}
use proxmox_api_go.Disk.Limits.{Mbps, Bandwidth}
use proxmox_api_go.Disk.Validation.{DiskError}
use proxmox_api_go.Disk.Validation as Validation
use proxmox_api_go.Disk.Slot.{QemuStorage, Request, QemuDiskMark, QemuDiskResize, QemuUpdateChanges}
use proxmox_api_go.Disk.Drives as Drives
use proxmox_api_go.Disk.Drives.{Bus, Storage}

pub record QemuIdeDisk : Type 0 where
  pub async_io : Text
  pub backup : Bool
  pub bandwidth : Bandwidth
  pub cache : Text
  pub discard : Bool
  pub emulate_ssd : Bool
  pub format : Text
  pub id : ℕ
  pub linked_disk_id : Option ℕ
  pub replicate : Bool
  pub serial : Text
  pub size_in_kibibytes : ℕ
  pub storage : Text
  pub syntax : DiskSyntax
  pub world_wide_name : Text

pub record QemuIdePassthrough : Type 0 where
  pub async_io : Text
  pub backup : Bool
  pub bandwidth : Bandwidth
  pub cache : Text
  pub discard : Bool
  pub emulate_ssd : Bool
  pub file : Text
  pub replicate : Bool
  pub serial : Text
  pub size_in_kibibytes : ℕ
  pub world_wide_name : Text

-- `QemuIdeStorage`
abbrev pub QemuIdeStorage : Type 0
QemuIdeStorage = Storage QemuIdeDisk QemuIdePassthrough

-- `QemuIdeDisks`: `Disk_0` to `Disk_3`.
abbrev pub QemuIdeDisks : Type 0
QemuIdeDisks = Dict ℕ QemuIdeStorage

-- `convertDataStructure` of a disk.
unfoldable pub convert_disk : QemuIdeDisk → QemuDisk
convert_disk disk = record {
  async_io = disk.async_io;
  backup = disk.backup;
  bandwidth = disk.bandwidth;
  cache = disk.cache;
  discard = disk.discard;
  is_disk = true;
  emulate_ssd = disk.emulate_ssd;
  file = [];
  syntax = disk.syntax;
  format = disk.format;
  id = disk.id;
  io_thread = false;
  linked_disk_id = disk.linked_disk_id;
  read_only = false;
  replicate = disk.replicate;
  serial = disk.serial;
  size_in_kibibytes = disk.size_in_kibibytes;
  storage = disk.storage;
  disk_type = ide;
  world_wide_name = disk.world_wide_name;
}

-- `convertDataStructure` of a passthrough.
unfoldable pub convert_passthrough : QemuIdePassthrough → QemuDisk
convert_passthrough passthrough = record {
  async_io = passthrough.async_io;
  backup = passthrough.backup;
  bandwidth = passthrough.bandwidth;
  cache = passthrough.cache;
  discard = passthrough.discard;
  is_disk = false;
  emulate_ssd = passthrough.emulate_ssd;
  file = passthrough.file;
  syntax = file_syntax;
  format = [];
  id = 0;
  io_thread = false;
  linked_disk_id = none;
  read_only = false;
  replicate = passthrough.replicate;
  serial = passthrough.serial;
  size_in_kibibytes = 0;
  storage = [];
  disk_type = ide;
  world_wide_name = passthrough.world_wide_name;
}

-- The disk that `mapToStruct` makes of what it read.
unfoldable pub disk_of : QemuDisk → QemuIdeDisk
disk_of read = record {
  async_io = read.async_io;
  backup = read.backup;
  bandwidth = read.bandwidth;
  cache = read.cache;
  discard = read.discard;
  emulate_ssd = read.emulate_ssd;
  format = read.format;
  id = read.id;
  linked_disk_id = read.linked_disk_id;
  replicate = read.replicate;
  serial = read.serial;
  size_in_kibibytes = read.size_in_kibibytes;
  storage = read.storage;
  syntax = read.syntax;
  world_wide_name = read.world_wide_name;
}

-- The passthrough that `mapToStruct` makes of what it read.
unfoldable pub passthrough_of : QemuDisk → QemuIdePassthrough
passthrough_of read = record {
  async_io = read.async_io;
  backup = read.backup;
  bandwidth = read.bandwidth;
  cache = read.cache;
  discard = read.discard;
  emulate_ssd = read.emulate_ssd;
  file = read.file;
  replicate = read.replicate;
  serial = read.serial;
  size_in_kibibytes = read.size_in_kibibytes;
  world_wide_name = read.world_wide_name;
}

-- The type in the mark is the same for every bus.
unfoldable pub mark_of : QemuIdeDisk → QemuDiskMark
mark_of disk = record {
  format = disk.format;
  id = [];
  size = disk.size_in_kibibytes;
  storage = disk.storage;
  disk_type = ide;
}

abbrev pub ide_bus : Bus QemuIdeDisk QemuIdePassthrough
ide_bus = record {
  name = codes "ide";
  slots = 4;
  convert_disk = convert_disk;
  convert_passthrough = convert_passthrough;
  disk_of = disk_of;
  passthrough_of = passthrough_of;
  mark_of = mark_of;
}

-- `QemuIdeDisk.Validate`
unfoldable pub validate_disk : QemuIdeDisk → Option DiskError
validate_disk disk = Validation.validate_disk (convert_disk disk)

-- `QemuIdePassthrough.Validate`
unfoldable pub validate_passthrough : QemuIdePassthrough → Option DiskError
validate_passthrough passthrough = Validation.validate_disk (convert_passthrough passthrough)

-- `QemuIdeStorage.convertDataStructure`
unfoldable pub convert_data_structure : QemuIdeStorage → QemuStorage
unfolding Drives.convert_data_structure
convert_data_structure = Drives.convert_data_structure ide_bus

-- `QemuIdeStorage.convertDataStructureMark`
unfoldable pub convert_data_structure_mark : Option QemuIdeStorage → Option QemuDiskMark
unfolding Drives.convert_data_structure_mark
convert_data_structure_mark = Drives.convert_data_structure_mark ide_bus

-- `QemuIdeStorage.validate`
unfoldable pub validate_storage : QemuIdeStorage → DiskError ⊎ ℕ
unfolding Drives.validate_storage
validate_storage = Drives.validate_storage ide_bus

-- `QemuIdeStorage.mapToStruct`
unfoldable pub read_storage : (Text → Mbps) → Text → ℕ → Option (QemuIdeStorage × ℕ)
unfolding Drives.read_storage
read_storage = Drives.read_storage ide_bus

-- `QemuIdeDisks.listCloudInitDisk`
unfoldable pub list_cloud_init_disk : List ℕ → QemuIdeDisks → Text
unfolding Drives.list_cloud_init_disk
list_cloud_init_disk = Drives.list_cloud_init_disk ide_bus

-- `QemuIdeDisks.mapToApiValues`
unfoldable pub map_to_api_values :
    List ℕ → QemuIdeDisks → Option QemuIdeDisks → ℕ → ℕ → Request → Request
unfolding Drives.map_to_api_values
map_to_api_values = Drives.map_to_api_values ide_bus

-- `QemuIdeDisks.mapToStruct`
unfoldable pub map_to_struct : (Text → Mbps) → Dict Text Text → ℕ → Option (Option QemuIdeDisks × ℕ)
unfolding Drives.map_to_struct
map_to_struct = Drives.map_to_struct ide_bus

-- `QemuIdeDisks.markDiskChanges`
unfoldable pub mark_disk_changes :
    List ℕ → QemuIdeDisks → Option QemuIdeDisks → QemuUpdateChanges → QemuUpdateChanges
unfolding Drives.mark_disk_changes
mark_disk_changes = Drives.mark_disk_changes ide_bus

-- `QemuIdeDisks.selectInitialResize`
unfoldable pub select_initial_resize :
    List ℕ → QemuIdeDisks → Option QemuIdeDisks → List QemuDiskResize
unfolding Drives.select_initial_resize
select_initial_resize = Drives.select_initial_resize ide_bus

-- `QemuIdeDisks.validate`
unfoldable pub validate : List ℕ → QemuIdeDisks → DiskError ⊎ ℕ
unfolding Drives.validate
validate = Drives.validate ide_bus
