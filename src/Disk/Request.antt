-- ===== src/Disk/Request.antt =====
-- `qemuDisk.formatDisk` and `qemuDisk.mapToApiValues`: the text of a disk in a request.
use proxmox_api_go.Base.{
  ℕ, ◌/◌, ◌%◌, Bool, true, false, ◌&&◌, not, nat_eqb, if◌then◌else◌, Option, none, some, [], ◌∷◌,
  ◌++◌, Text, codes, text_eqb, itoa_int, Settings, write_settings,
}
use proxmox_api_go.Disk.{
  QemuDisk, DiskSyntax, file_syntax, volume_syntax, DiskType, ide, sata, scsi, virt_io, gibibyte,
}
use proxmox_api_go.Disk.Limits.{mbps_setting, iops_setting}

-- `vm-100-disk-0`
abbrev pub disk_name : ℕ → ℕ → Text
disk_name vm_id id = codes "vm-" ++ (itoa_int vm_id ++ (codes "-disk-" ++ itoa_int id))

-- `base-110-disk-1`
abbrev pub base_name : ℕ → ℕ → Text
base_name vm_id id = codes "base-" ++ (itoa_int vm_id ++ (codes "-disk-" ++ itoa_int id))

-- The path behind the storage. `none` is a disk that is no linked clone of the given one.
unfoldable pub disk_path : DiskSyntax → ℕ → ℕ → Option ℕ → Text → ℕ → Text
disk_path file_syntax vm_id linked_vm_id none format id =
    itoa_int vm_id ++ b'/' ∷ (disk_name vm_id id ++ b'.' ∷ format)
disk_path file_syntax vm_id linked_vm_id (some linked) format id =
    itoa_int linked_vm_id
    ++ b'/'
      ∷ ((base_name linked_vm_id linked ++ b'.' ∷ format)
          ++ b'/' ∷ (itoa_int vm_id ++ b'/' ∷ (disk_name vm_id id ++ b'.' ∷ format)))
disk_path volume_syntax vm_id linked_vm_id none format id = disk_name vm_id id
disk_path volume_syntax vm_id linked_vm_id (some linked) format id =
    base_name linked_vm_id linked ++ b'/' ∷ disk_name vm_id id

-- The disk is still the linked clone that it was: its storage, and where that is in the path its format,
-- are the current ones.
abbrev pub still_linked : QemuDisk → Text → Text → DiskSyntax → Option ℕ
still_linked disk current_storage current_format file_syntax =
    if text_eqb disk.storage current_storage && text_eqb disk.format current_format
    then disk.linked_disk_id
    else none
still_linked disk current_storage current_format volume_syntax =
    if text_eqb disk.storage current_storage then disk.linked_disk_id else none

-- `formatDisk`
unfoldable pub format_disk : QemuDisk → ℕ → ℕ → Text → Text → DiskSyntax → Text
unfolding disk_path
format_disk disk vm_id linked_vm_id current_storage current_format syntax =
    disk.storage
    ++ b':'
      ∷ disk_path syntax vm_id linked_vm_id
          (still_linked disk current_storage current_format syntax) disk.format disk.id

-- The volume of a new disk: its size in gibibytes, or else a small one, which is resized later.
abbrev pub new_volume : QemuDisk → Text
new_volume disk =
    disk.storage
    ++ (if nat_eqb (disk.size_in_kibibytes % gibibyte) 0
        then b':' ∷ itoa_int (disk.size_in_kibibytes / gibibyte)
        else codes ":0.001")

abbrev pub given : Text → Option Text
given [] = none
given (c ∷ s) = some (c ∷ s)

abbrev pub when : Bool → Text → Option Text
when true text = some text
when false text = none

abbrev pub has_io_thread : DiskType → Bool
has_io_thread ide = false
has_io_thread sata = false
has_io_thread scsi = true
has_io_thread virt_io = true

abbrev pub is_virt_io : DiskType → Bool
is_virt_io virt_io = true
is_virt_io _ = false

-- The settings behind the volume, in their order.
unfoldable pub disk_settings : QemuDisk → Bool → Settings
disk_settings disk create =
    (codes "aio", given disk.async_io)
    ∷ (codes "backup", when (not disk.backup) (codes "0"))
    ∷ (codes "cache", given disk.cache)
    ∷ (codes "discard", when disk.discard (codes "on"))
    ∷ (codes "format", if create then given disk.format else none)
    ∷ (codes "iops_rd", iops_setting disk.bandwidth.iops_read.concurrent)
    ∷ (codes "iops_rd_max", iops_setting disk.bandwidth.iops_read.burst)
    ∷ (codes "iops_rd_max_length", iops_setting disk.bandwidth.iops_read.burst_duration)
    ∷ (codes "iops_wr", iops_setting disk.bandwidth.iops_write.concurrent)
    ∷ (codes "iops_wr_max", iops_setting disk.bandwidth.iops_write.burst)
    ∷ (codes "iops_wr_max_length", iops_setting disk.bandwidth.iops_write.burst_duration)
    ∷ (codes "iothread", when (has_io_thread disk.disk_type && disk.io_thread) (codes "1"))
    ∷ (codes "mbps_rd", mbps_setting disk.bandwidth.mbps_read.concurrent)
    ∷ (codes "mbps_rd_max", mbps_setting disk.bandwidth.mbps_read.burst)
    ∷ (codes "mbps_wr", mbps_setting disk.bandwidth.mbps_write.concurrent)
    ∷ (codes "mbps_wr_max", mbps_setting disk.bandwidth.mbps_write.burst)
    ∷ (codes "replicate", when (not disk.replicate) (codes "0"))
    ∷ (codes "ro", when (has_io_thread disk.disk_type && disk.read_only) (codes "1"))
    ∷ (codes "serial", given disk.serial)
    ∷ (codes "ssd", when (not (is_virt_io disk.disk_type) && disk.emulate_ssd) (codes "1"))
    ∷ (codes "wwn", given disk.world_wide_name)
    ∷ []

-- What stands in front of the settings.
abbrev pub volume_or_file : Text → Text → Text → Text
volume_or_file volume storage [] = if text_eqb storage [] then [] else volume
volume_or_file volume storage (c ∷ file) = c ∷ file

-- `mapToApiValues`
unfoldable pub map_to_api_values : QemuDisk → ℕ → ℕ → Text → Text → DiskSyntax → Bool → Text
unfolding disk_settings
map_to_api_values disk vm_id linked_vm_id current_storage current_format syntax create =
    volume_or_file
      (if create
        then new_volume disk
        else format_disk disk vm_id linked_vm_id current_storage current_format syntax)
      disk.storage disk.file
    ++ write_settings (disk_settings disk create)
