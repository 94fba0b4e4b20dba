-- ===== src/Disk.antt =====
-- proxmox/config_qemu_disk.go: the drives of a virtual machine. `Disk.Limits` has the limits of the
-- bandwidth, `Disk.Request` writes a disk, `Disk.Answer` reads one, `Disk.Validation` has the checks,
-- `Disk.CdRom` the two other kinds of drive, and `Disk.Slot` a place for a drive. `Disk.Drives` has the
-- places of a bus, over an interface that `Disk.Ide`, `Disk.Sata`, `Disk.Scsi` and `Disk.VirtIo` fill in,
-- and `Disk.Storages` the four buses. The other modules have lemmas about them.
pub mod Limits
pub mod Request
pub mod Answer
pub mod Validation
pub mod CdRom
pub mod Slot
pub mod Drives
pub mod Ide
pub mod Sata
pub mod Scsi
pub mod VirtIo
pub mod Storages
pub mod Unchanged
pub mod Counts
pub mod Accepted
pub mod Growth
pub mod Ids
pub mod Names
pub mod Paths
pub mod Volumes
pub mod Written
pub mod Reread
pub mod RoundTrip
pub mod Isos
pub mod Deletion
mod Tests
use proxmox_api_go.Base.{ℕ, Bool, true, false, Option, none, some, Text}
use proxmox_api_go.Disk.Limits.{Bandwidth}

-- `diskSyntaxEnum`
pub data DiskSyntax : Type 0 where
  file_syntax volume_syntax : DiskSyntax

-- `qemuDiskType`
pub data DiskType : Type 0 where
  ide sata scsi virt_io : DiskType

-- `qemuDisk`. `is_disk` is `Disk`: a disk, and not a passthrough.
pub record QemuDisk : Type 0 where
  pub async_io : Text
  pub backup : Bool
  pub bandwidth : Bandwidth
  pub cache : Text
  pub discard : Bool
  pub is_disk : Bool
  pub emulate_ssd : Bool
  pub file : Text
  pub syntax : DiskSyntax
  pub format : Text
  pub id : ℕ
  pub io_thread : Bool
  pub linked_disk_id : Option ℕ
  pub read_only : Bool
  pub replicate : Bool
  pub serial : Text
  pub size_in_kibibytes : ℕ
  pub storage : Text
  pub disk_type : DiskType
  pub world_wide_name : Text

abbrev pub mebibyte : ℕ
mebibyte = 1024

abbrev pub gibibyte : ℕ
gibibyte = 1048576

abbrev pub tebibyte : ℕ
tebibyte = 1073741824
