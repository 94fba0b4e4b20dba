-- ===== src/Disk/CdRom.antt =====
-- The two kinds of drive that are no disks: `QemuCdRom` and `QemuCloudInitDisk`, and `qemuCdRom`, which
-- reads both.
use proxmox_api_go.Base.{
  ℕ, Bool, true, false, not, ltb, if◌then◌else◌, Option, none, some, ◌>>=◌, List, [], ◌∷◌, ◌++◌,
  Text, codes, text_eqb, text_eq, split_on, Dict, lookup,
}
use proxmox_api_go.Disk.Answer.{last_or}
use proxmox_api_go.Disk.Validation.{
  DiskError, iso_file_empty, iso_storage_empty, cd_rom_mutually_exclusive, cloud_init_storage_empty,
  cloud_init_only_one, validate_format, first_error, unless,
}

pub record IsoFile : Type 0 where
  pub file : Text
  pub storage : Text
  pub size : Text

pub record QemuCdRom : Type 0 where
  pub iso : Option IsoFile
  pub passthrough : Bool

pub record QemuCloudInitDisk : Type 0 where
  pub format : Text
  pub storage : Text

-- `qemuCdRom`: what is read of either kind. `is_cd_rom` is `CdRom`.
pub record ReadDrive : Type 0 where
  pub is_cd_rom : Bool
  pub passthrough : Bool
  pub storage : Text
  pub format : Text
  pub file : Text
  pub size : Text

-- `IsoFile.Validate`
unfoldable pub validate_iso : IsoFile → Option DiskError
validate_iso iso = first_error (
    unless iso_file_empty (not (text_eqb iso.file []))
    ∷ unless iso_storage_empty (not (text_eqb iso.storage []))
    ∷ [])

-- `QemuCdRom.mapToApiValues`
unfoldable pub cd_rom_text : QemuCdRom → Text
cd_rom_text cd_rom = if cd_rom.passthrough then codes "cdrom,media=cdrom" else elim cd_rom.iso [
  | some iso ↦ iso.storage ++ (codes ":iso/" ++ (iso.file ++ codes ",media=cdrom"))
  | none ↦ codes "none,media=cdrom"
]

-- `QemuCdRom.mapToStruct`
unfoldable pub cd_rom_of : ReadDrive → QemuCdRom
cd_rom_of drive =
    if not (text_eqb drive.file [])
    then record {
      iso = some (record { file = drive.file; storage = drive.storage; size = drive.size });
      passthrough = false;
    }
    else record { iso = none; passthrough = drive.passthrough }

-- `QemuCdRom.Validate`
unfoldable pub validate_cd_rom : QemuCdRom → Option DiskError
unfolding validate_iso
validate_cd_rom cd_rom = elim cd_rom.iso [
  | none ↦ none
  | some iso ↦
      first_error
        (validate_iso iso ∷ unless cd_rom_mutually_exclusive (not cd_rom.passthrough) ∷ [])
]

-- `QemuCloudInitDisk.mapToApiValues`
unfoldable pub cloud_init_text : QemuCloudInitDisk → Text
cloud_init_text cloud_init = cloud_init.storage ++ (codes ":cloudinit,format=" ++ cloud_init.format)

-- `QemuCloudInitDisk.mapToStruct`
unfoldable pub cloud_init_of : ReadDrive → QemuCloudInitDisk
cloud_init_of drive = record { format = drive.format; storage = drive.storage }

-- `QemuCloudInitDisk.Validate`
unfoldable pub validate_cloud_init : QemuCloudInitDisk → Option DiskError
validate_cloud_init cloud_init = first_error (
    validate_format cloud_init.format
    ∷ unless cloud_init_storage_empty (not (text_eqb cloud_init.storage []))
    ∷ [])

-- `QemuCloudInitDisk.checkDuplicates`
unfoldable pub check_duplicates : ℕ → Option DiskError
check_duplicates number = unless cloud_init_only_one (not (ltb 1 number))

abbrev pub empty_drive : ReadDrive
empty_drive = record {
  is_cd_rom = true;
  passthrough = false;
  storage = [];
  format = [];
  file = [];
  size = [];
}

abbrev pub is_set : Option Text → Bool
is_set none = false
is_set (some v) = true

-- The last of the parts, if there is more than one.
abbrev pub file_type : List Text → Option Text
file_type [] = none
file_type (x ∷ []) = none
file_type (x ∷ y ∷ ys) = some (last_or y ys)

-- A drive with a file behind the one slash of the data.
abbrev pub drive_of_file : Text → Text → Option Text → Option ReadDrive
drive_of_file storage file size = do
  kind ← file_type (split_on b'.' file)
  if text_eqb kind (codes "iso")
      then size >>= (λ s. some (record {
        is_cd_rom = true;
        passthrough = false;
        storage = storage;
        format = [];
        file = file;
        size = s;
      }))
      else some (record {
        is_cd_rom = false;
        passthrough = false;
        storage = storage;
        format = kind;
        file = file;
        size = [];
      })

abbrev pub drive_of_path : Text → Text → List Text → Option Text → Option ReadDrive
drive_of_path storage volume (all_data ∷ []) size = some (record {
  is_cd_rom = false;
  passthrough = false;
  storage = storage;
  format = codes "raw";
  file = volume;
  size = [];
})
drive_of_path storage volume (directory ∷ file ∷ []) size = drive_of_file storage file size
drive_of_path storage volume _ size = none

abbrev pub drive_of_parts : List Text → List Text → Option Text → Option ReadDrive
drive_of_parts (storage ∷ volume ∷ rest) path size = drive_of_path storage volume path size
drive_of_parts _ path size = none

-- `qemuCdRom.mapToStruct`; `none` is nil, which is read as a disk.
unfoldable pub read_drive : Text → Dict Text Text → Option ReadDrive
read_drive disk_data settings = do
  media ← lookup (codes "media") settings
  if not (text_eqb media (codes "cdrom"))
      then none
      else if is_set (lookup (codes "none") settings)
      then some empty_drive
      else if is_set (lookup (codes "cdrom") settings)
      then some (record empty_drive { passthrough = true })
      else drive_of_parts (split_on b':' disk_data) (split_on b'/' disk_data)
          (lookup (codes "size") settings)
