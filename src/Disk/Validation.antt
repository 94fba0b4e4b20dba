-- ===== src/Disk/Validation.antt =====
-- The checks of a disk: `Validate` of each of its settings, in the order of `qemuDisk.validate`, and those
-- of the name of a disk and of a move. The first error is the result, and `none` is nil.
use proxmox_api_go.Base.{
  ℕ, ◌^◌, Bool, true, false, ◌&&◌, ◌||◌, not, ltb, leb, nat_eqb, if◌then◌else◌, Option, none, some,
  List, [], ◌∷◌, Text, codes, text_eqb, text_eq, contains, all, is_digit, parse_int, length,
}
use proxmox_api_go.Disk.{QemuDisk}
use proxmox_api_go.Disk.Limits.{Mbps, MbpsLimit, IopsLimit, Bandwidth, is_zero}

-- One constructor per message.
pub data DiskError : Type 0 where
  async_io_invalid cache_invalid format_invalid : DiskError
  iops_burst_too_low iops_concurrent_too_low mbps_burst_too_low mbps_concurrent_too_low : DiskError
  serial_illegal_character serial_illegal_length : DiskError
  size_too_small storage_empty file_empty wwn_invalid id_invalid : DiskError
  iso_file_empty iso_storage_empty cd_rom_mutually_exclusive : DiskError
  cloud_init_storage_empty cloud_init_only_one mutually_exclusive : DiskError

-- The first error of checks in a row.
abbrev pub first_error : List (Option DiskError) → Option DiskError
first_error [] = none
first_error (none ∷ checks) = first_error checks
first_error (some e ∷ checks) = some e

abbrev pub unless : DiskError → Bool → Option DiskError
unless error true = none
unless error false = some error

-- `QemuDiskAsyncIO.Validate`
unfoldable pub validate_async_io : Text → Option DiskError
validate_async_io async_io =
    unless async_io_invalid
      (contains ([] ∷ codes "native" ∷ codes "threads" ∷ codes "io_uring" ∷ []) async_io)

-- `QemuDiskBandwidthIopsLimit.Validate`
abbrev pub iops_allowed : ℕ → Bool
iops_allowed limit = not (not (nat_eqb limit 0) && ltb limit 10)

unfoldable pub validate_iops : IopsLimit → Option DiskError
validate_iops limit = first_error (
    unless iops_burst_too_low (iops_allowed limit.burst)
    ∷ unless iops_concurrent_too_low (iops_allowed limit.concurrent)
    ∷ [])

-- `QemuDiskBandwidthMBpsLimit.Validate`
abbrev pub mbps_allowed : Mbps → Bool
mbps_allowed limit = not (not (is_zero limit) && ltb limit.numerator (2 ^ limit.shift))

unfoldable pub validate_mbps : MbpsLimit → Option DiskError
validate_mbps limit = first_error (
    unless mbps_burst_too_low (mbps_allowed limit.burst)
    ∷ unless mbps_concurrent_too_low (mbps_allowed limit.concurrent)
    ∷ [])

-- `QemuDiskBandwidth.Validate`
unfoldable pub validate_bandwidth : Bandwidth → Option DiskError
unfolding validate_mbps validate_iops
validate_bandwidth bandwidth = first_error (
    validate_mbps bandwidth.mbps_read
    ∷ validate_mbps bandwidth.mbps_write
    ∷ validate_iops bandwidth.iops_read
    ∷ validate_iops bandwidth.iops_write
    ∷ [])

-- `QemuDiskCache.Validate`
unfoldable pub validate_cache : Text → Option DiskError
validate_cache cache = unless cache_invalid (
    contains
      ([]
        ∷ codes "none"
        ∷ codes "writethrough"
        ∷ codes "writeback"
        ∷ codes "unsafe"
        ∷ codes "directsync"
        ∷ [])
      cache)

-- `QemuDiskFormat.Validate`
unfoldable pub validate_format : Text → Option DiskError
validate_format format = unless format_invalid (
    contains
      (codes "cow"
        ∷ codes "cloop"
        ∷ codes "qcow"
        ∷ codes "qcow2"
        ∷ codes "qed"
        ∷ codes "vmdk"
        ∷ codes "raw"
        ∷ [])
      format)

abbrev pub between : ℕ → ℕ → ℕ → Bool
between low high c = leb low c && leb c high

-- `^([a-z]|[A-Z]|[0-9]|_|-)*$`
abbrev pub is_serial_byte : ℕ → Bool
is_serial_byte c =
    between b'a' b'z' c || between b'A' b'Z' c || is_digit c || nat_eqb c b'_' || nat_eqb c b'-'

-- `QemuDiskSerial.Validate`
unfoldable pub validate_serial : Text → Option DiskError
validate_serial serial = first_error (
    unless serial_illegal_character (all is_serial_byte serial)
    ∷ unless serial_illegal_length (not (ltb 60 (length serial)))
    ∷ [])

abbrev pub minimum_size : ℕ
minimum_size = 4097

-- `QemuDiskSize.Validate`
unfoldable pub validate_size : ℕ → Option DiskError
validate_size size = unless size_too_small (not (ltb size minimum_size))

abbrev pub is_hexadecimal : ℕ → Bool
is_hexadecimal c = is_digit c || between b'A' b'F' c || between b'a' b'f' c

-- `^0x[0-9A-Fa-f]{16}$`
abbrev pub is_world_wide_name : Text → Bool
is_world_wide_name (a ∷ b ∷ s) =
    nat_eqb a b'0' && nat_eqb b b'x' && nat_eqb (length s) 16 && all is_hexadecimal s
is_world_wide_name _ = false

-- `QemuWorldWideName.Validate`
unfoldable pub validate_world_wide_name : Text → Option DiskError
validate_world_wide_name wwn = unless wwn_invalid (text_eqb wwn [] || is_world_wide_name wwn)

-- What a disk has to have, and what a passthrough has to have.
abbrev pub validate_kind : QemuDisk → Option DiskError
validate_kind disk =
    if disk.is_disk
    then first_error (
        validate_format disk.format
        ∷ validate_size disk.size_in_kibibytes
        ∷ unless storage_empty (not (text_eqb disk.storage []))
        ∷ [])
    else unless file_empty (not (text_eqb disk.file []))

-- `qemuDisk.validate`
unfoldable pub validate_disk : QemuDisk → Option DiskError
unfolding validate_async_io validate_bandwidth validate_cache validate_serial
    validate_world_wide_name validate_format validate_size
validate_disk disk = first_error (
    validate_async_io disk.async_io
    ∷ validate_bandwidth disk.bandwidth
    ∷ validate_cache disk.cache
    ∷ validate_serial disk.serial
    ∷ validate_world_wide_name disk.world_wide_name
    ∷ validate_kind disk
    ∷ [])

-- The text behind a prefix.
unfoldable pub behind : Text → Text → Option Text
behind [] s = some s
behind (p ∷ prefix) [] = none
behind (p ∷ prefix) (c ∷ s) = let rest = behind prefix s in if nat_eqb c p then rest else none

abbrev pub starts_with_zero : Text → Bool
starts_with_zero [] = false
starts_with_zero (c ∷ s) = nat_eqb c b'0'

-- The number of a disk: accepted, refused, or `none` where the next test has the word.
abbrev pub number_check : ℕ → Option (Bool × ℕ) → Option (Option DiskError)
number_check most none = some (some id_invalid)
number_check most (some (negative, n)) =
    if (not negative || nat_eqb n 0) && leb n most then some none else none

abbrev pub id_check : ℕ → Option Text → Option (Option DiskError)
id_check most none = none
id_check most (some []) = none
id_check most (some (c ∷ s)) =
    if not (text_eqb (c ∷ s) (codes "0")) && starts_with_zero (c ∷ s)
    then some (some id_invalid)
    else number_check most (parse_int (c ∷ s))

-- An IDE disk has one byte for its number.
abbrev pub ide_check : Option Text → Option (Option DiskError)
ide_check (some (c ∷ [])) = number_check 3 (parse_int (c ∷ []))
ide_check _ = none

abbrev pub first_answer : List (Option (Option DiskError)) → Option DiskError
first_answer [] = some id_invalid
first_answer (none ∷ checks) = first_answer checks
first_answer (some result ∷ checks) = result

-- `QemuDiskId.Validate`
unfoldable pub validate_id : Text → Option DiskError
unfolding behind
validate_id id = first_answer (
    id_check 15 (behind (codes "virtio") id)
    ∷ id_check 5 (behind (codes "sata") id)
    ∷ id_check 30 (behind (codes "scsi") id)
    ∷ ide_check (behind (codes "ide") id)
    ∷ [])
