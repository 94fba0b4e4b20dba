-- ===== src/Disk/RoundTrip.antt =====
-- A place with a disk that an update writes, and `mapToStruct` reads.
use proxmox_api_go.Base.{
  ℕ, ◌<◌, ◌^◌, false, nat_eqb, arith, Option, none, some, ◌≡◌, ◌≢◌, ◌⊎◌, inl, inr, refl, ap, ◌∙◌,
  [], ◌∷◌, ◌++◌, Text, codes, text_eq, All-append, Lacks, Lacks-of_contains_byte, contains_byte,
  split_first, split_first-append, split_first_of_Lacks, Dict, lookup, itoa_int, Settings,
  write_settings, find, split_string_of_settings, lookup-write_settings,
}
use mathlib.Core.List.{append-nil}
use proxmox_api_go.Disk.{QemuDisk, DiskSyntax, file_syntax, volume_syntax}
use proxmox_api_go.Disk.Limits.{Mbps}
use proxmox_api_go.Disk.Request.{
  disk_name, base_name, disk_settings, disk_path, map_to_api_values, format_disk, still_linked,
  volume_or_file,
}
use proxmox_api_go.Disk.Answer.{ParsedDisk, parse_disk, map_to_struct, read_disk, disk_of}
use proxmox_api_go.Disk.CdRom.{read_drive}
use proxmox_api_go.Disk.Drives.{read_data, drive_or_disk, read_as_disk, Bus, read_storage}
use proxmox_api_go.Disk.Written.{HasPlainSettings, disk_settings-IsClean, itoa_int-Lacks_comma}
use proxmox_api_go.Disk.Paths.{IsPart}
use proxmox_api_go.Disk.Volumes.{FitsIfGiven, read_format, origin, parse_disk-format_disk}
use proxmox_api_go.Disk.Reread.{IopsFit, reread, disk_of-settings, other_key, first_key}

-- A storage has a name, and that has none of the signs that stand around it.
abbrev pub IsStorageName : Text → Type 0
IsStorageName s = (s ≢ []) × Lacks b':' s × Lacks b',' s × Lacks b'=' s × Lacks b'/' s

abbrev pub IsFormatName : Text → Type 0
IsFormatName f = IsPart f × Lacks b'.' f × Lacks b',' f

Lacks-append : (b : ℕ) (s t : Text) → Lacks b s → Lacks b t → Lacks b (s ++ t)
Lacks-append b = All-append (λ c. c ≢ b)

name-Lacks_comma :
    (prefix : Text) (vm_id id : ℕ)
    → Lacks b',' prefix
    → Lacks b',' (codes "-disk-")
    → Lacks b',' (prefix ++ (itoa_int vm_id ++ (codes "-disk-" ++ itoa_int id)))
name-Lacks_comma prefix vm_id id p d =
    Lacks-append b',' prefix (itoa_int vm_id ++ (codes "-disk-" ++ itoa_int id)) p (
      Lacks-append b',' (itoa_int vm_id) (codes "-disk-" ++ itoa_int id)
        (itoa_int-Lacks_comma vm_id)
        (Lacks-append b',' (codes "-disk-") (itoa_int id) d (itoa_int-Lacks_comma id)))

vm-Lacks_comma : (vm_id id : ℕ) → Lacks b',' (disk_name vm_id id)
vm-Lacks_comma vm_id id =
    name-Lacks_comma (codes "vm-") vm_id id (Lacks-of_contains_byte b',' (codes "vm-") refl)
      (Lacks-of_contains_byte b',' (codes "-disk-") refl)

base-Lacks_comma : (vm_id id : ℕ) → Lacks b',' (base_name vm_id id)
base-Lacks_comma vm_id id =
    name-Lacks_comma (codes "base-") vm_id id (Lacks-of_contains_byte b',' (codes "base-") refl)
      (Lacks-of_contains_byte b',' (codes "-disk-") refl)

with_sign : (b : ℕ) (s t : Text) → b ≢ b',' → Lacks b',' s → Lacks b',' t → Lacks b',' (s ++ b ∷ t)
with_sign b s t h p q = Lacks-append b',' s (b ∷ t) p (h, q)

file-Lacks_comma :
    (vm_id : ℕ) (format : Text) (id : ℕ)
    → Lacks b',' format
    → Lacks b',' (itoa_int vm_id ++ b'/' ∷ (disk_name vm_id id ++ b'.' ∷ format))
file-Lacks_comma vm_id format id f =
    with_sign b'/' (itoa_int vm_id) (disk_name vm_id id ++ b'.' ∷ format) (λ e. omega arith)
      (itoa_int-Lacks_comma vm_id)
      (with_sign b'.' (disk_name vm_id id) format (λ e. omega arith) (vm-Lacks_comma vm_id id) f)

path-Lacks_comma :
    (syntax : DiskSyntax) (vm_id linked_vm_id : ℕ) (linked : Option ℕ) (format : Text) (id : ℕ)
    → Lacks b',' format
    → Lacks b',' (disk_path syntax vm_id linked_vm_id linked format id)
unfolding disk_path
path-Lacks_comma file_syntax vm_id linked_vm_id none format id f =
    file-Lacks_comma vm_id format id f
path-Lacks_comma file_syntax vm_id linked_vm_id (some linked) format id f =
    with_sign b'/' (itoa_int linked_vm_id)
      ((base_name linked_vm_id linked ++ b'.' ∷ format)
        ++ b'/' ∷ (itoa_int vm_id ++ b'/' ∷ (disk_name vm_id id ++ b'.' ∷ format)))
      (λ e. omega arith) (itoa_int-Lacks_comma linked_vm_id)
      (with_sign b'/' (base_name linked_vm_id linked ++ b'.' ∷ format)
        (itoa_int vm_id ++ b'/' ∷ (disk_name vm_id id ++ b'.' ∷ format)) (λ e. omega arith)
        (with_sign b'.' (base_name linked_vm_id linked) format (λ e. omega arith)
          (base-Lacks_comma linked_vm_id linked) f)
        (file-Lacks_comma vm_id format id f))
path-Lacks_comma volume_syntax vm_id linked_vm_id none format id f = vm-Lacks_comma vm_id id
path-Lacks_comma volume_syntax vm_id linked_vm_id (some linked) format id f =
    with_sign b'/' (base_name linked_vm_id linked) (disk_name vm_id id) (λ e. omega arith)
      (base-Lacks_comma linked_vm_id linked) (vm-Lacks_comma vm_id id)

-- Settings begin with a comma, if there are any.
write_settings-cases :
    (parts : Settings)
    → (write_settings parts ≡ []) ⊎ ((t : Text) × (write_settings parts ≡ b',' ∷ t))
unfolding write_settings
write_settings-cases [] = inl refl
write_settings-cases ((key, none) ∷ rest) = write_settings-cases rest
write_settings-cases ((key, some v) ∷ rest) = inr ((key ++ b'=' ∷ v) ++ write_settings rest, refl)

pub split_first-write_settings :
    (head : Text) (parts : Settings)
    → Lacks b',' head
    → (split_first b',' (head ++ write_settings parts)).0 ≡ head
split_first-write_settings head parts h = elim (write_settings-cases parts) [
  | inl nothing ↦ rw (nothing, append-nil head) (ap (λ p. p.0) (split_first_of_Lacks b',' head h))
  | inr (t, more) ↦ rw more (ap (λ p. p.0) (split_first-append b',' head t h))
]

-- No drive that is no disk is read, where there is no setting `media`.
read_drive-none :
    (volume : Text) (settings : Dict Text Text)
    → lookup (codes "media") settings ≡ none
    → read_drive volume settings ≡ none
unfolding read_drive
read_drive-none volume settings h = rw h refl

volume_text :
    (volume storage file : Text)
    → file ≡ []
    → storage ≢ []
    → volume_or_file volume storage file ≡ volume
volume_text volume [] [] e given = absurd (given refl)
volume_text volume (c ∷ storage) [] e given = refl
volume_text volume storage (c ∷ file) e given = cc

module _ (read_mbps : Text → Mbps) where
  map_to_struct_of_volume :
      (storage path : Text) (settings : Dict Text Text) (linked : ℕ)
      → storage ≢ []
      → Lacks b'/' storage
      → lookup (codes "size") settings ≡ none
      → map_to_struct read_mbps (storage ++ b':' ∷ path) settings linked ≡ (
          let parsed = parse_disk (storage ++ b':' ∷ path) linked in
          some (disk_of read_mbps [] parsed (λ key. lookup key settings) 0, parsed.linked_vm_id))
  unfolding map_to_struct
  map_to_struct_of_volume [] path settings linked given plain size = absurd (given refl)
  map_to_struct_of_volume (c ∷ storage) path settings linked given (plain, _) size =
      let other : nat_eqb c b'/' ≡ false = ground arith in rw (other, read_disk, size) refl

module _ {D P : Type 0} (bus : Bus D P) (read_mbps : Text → Mbps) where
  read_storage-settings :
      (disk : QemuDisk) (path : Text) (other : ℕ)
      → IsStorageName disk.storage
      → Lacks b',' path
      → HasPlainSettings disk
      → IopsFit disk
      → (let volume = disk.storage ++ b':' ∷ path in
          let parsed = parse_disk volume other in
          read_storage bus read_mbps (volume ++ write_settings (disk_settings disk false)) other
          ≡ some (
            record {
              cd_rom = none;
              cloud_init = none;
              disk = some (bus.disk_of (reread read_mbps disk parsed));
              passthrough = none;
            },
            parsed.linked_vm_id,
          ))
  unfolding read_storage disk_settings
  read_storage-settings disk path other (given, colon, comma, sign, slash) path_comma plain fit =
      let volume = disk.storage ++ b':' ∷ path in
      let settings =
        split_string_of_settings (volume ++ write_settings (disk_settings disk false)) in
      let volume_comma : Lacks b',' volume =
        with_sign b':' disk.storage path (λ e. omega arith) comma path_comma in
      let found : (k : Text)
          → contains_byte b':' k ≡ false
          → lookup k settings ≡ find k (disk_settings disk false) =
        λ k no_colon.
          lookup-write_settings volume (disk_settings disk false) k volume_comma
            (disk_settings-IsClean disk plain) refl
            (other_key (split_first b'=' volume).0 k (first_key disk.storage path sign) no_colon) in
      let read : map_to_struct read_mbps volume settings other
          ≡ some (
            reread read_mbps disk (parse_disk volume other),
            (parse_disk volume other).linked_vm_id,
          ) =
        map_to_struct_of_volume read_mbps disk.storage path settings other given slash
          (found (codes "size") refl)
        ∙ ap (λ d. some (d, (parse_disk volume other).linked_vm_id))
            (disk_of-settings read_mbps disk (parse_disk volume other) (λ k. lookup k settings) fit
              found) in
      ap (λ d. read_data bus read_mbps d settings other)
        (split_first-write_settings volume (disk_settings disk false) volume_comma)
      ∙ ap (λ drive. drive_or_disk bus read_mbps drive volume settings other)
          (read_drive-none volume settings (found (codes "media") refl))
      ∙ ap (read_as_disk bus read_mbps) read

  -- What an update writes of a disk is read as that disk, with the volume that `parsed` describes. The size is
  -- not written, the megabytes are read of their texts, and the three flags that only some buses have are
  -- read where the bus has them. The storage and the format are plain names, the texts among the settings
  -- have no comma, and the numbers fit in their types.
  pub read_storage-map_to_api_values :
      (disk : QemuDisk) (vm_id linked_vm_id other : ℕ) (current_storage current_format : Text)
      (syntax : DiskSyntax)
      → disk.file ≡ []
      → IsStorageName disk.storage
      → IsFormatName disk.format
      → HasPlainSettings disk
      → IopsFit disk
      → vm_id < 2 ^ 63
      → linked_vm_id < 2 ^ 63
      → disk.id < 2 ^ 63
      → FitsIfGiven disk.linked_disk_id
      → (let linked = still_linked disk current_storage current_format syntax in
          let parsed : ParsedDisk = record {
            id = disk.id;
            storage = disk.storage;
            format = read_format syntax disk.format;
            linked_disk_id = linked;
            syntax = syntax;
            linked_vm_id = origin linked linked_vm_id other;
          } in
          read_storage bus read_mbps
            (map_to_api_values disk vm_id linked_vm_id current_storage current_format syntax false)
            other
          ≡ some (
            record {
              cd_rom = none;
              cloud_init = none;
              disk = some (bus.disk_of (reread read_mbps disk parsed));
              passthrough = none;
            },
            parsed.linked_vm_id,
          ))
  unfolding map_to_api_values format_disk
  read_storage-map_to_api_values disk vm_id linked_vm_id other current_storage current_format syntax
        no_file s f plain fit v l i d =
      let linked = still_linked disk current_storage current_format syntax in
      let path = disk_path syntax vm_id linked_vm_id linked disk.format disk.id in
      let volume = disk.storage ++ b':' ∷ path in
      ap (λ t. read_storage bus read_mbps (t ++ write_settings (disk_settings disk false)) other)
        (volume_text volume disk.storage disk.file no_file s.0)
      ∙ read_storage-settings disk path other s
          (path-Lacks_comma syntax vm_id linked_vm_id linked disk.format disk.id f.2) plain fit
      ∙ ap
          (λ p. some (
            record {
              cd_rom = none;
              cloud_init = none;
              disk = some (bus.disk_of (reread read_mbps disk p));
              passthrough = none;
            },
            p.linked_vm_id,
          ))
          (parse_disk-format_disk disk vm_id linked_vm_id other current_storage current_format
            syntax s.1 f.0 f.1 v l i d)
