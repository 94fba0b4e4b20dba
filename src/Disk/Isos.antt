-- ===== src/Disk/Isos.antt =====
-- An ISO file in a drive, as it is written, and as it is read of an answer.
use proxmox_api_go.Base.{
  ℕ, nat_eqb, true, false, Bool-cases, if_elim, inl, inr, arith, Option, none, some, ◌≡◌, ◌≢◌, refl,
  sym, ap, ◌∙◌, List, [], ◌∷◌, ◌++◌, Text, codes, text_eqb, text_eq, All, All-append, Lacks,
  Lacks-of_contains_byte, contains_byte, cons_head, split_on, split_on-append, split_on_of_Lacks,
  split_first, Dict, lookup, IsClean, Settings, write_settings, find, split_string_of_settings,
  lookup-write_settings,
}
use mathlib.Core.List.{append_assoc}
use proxmox_api_go.Disk.Limits.{Mbps}
use proxmox_api_go.Disk.Answer.{last_or}
use proxmox_api_go.Disk.CdRom.{
  IsoFile, QemuCdRom, ReadDrive, cd_rom_text, cd_rom_of, cloud_init_of, file_type, drive_of_file,
  drive_of_parts, read_drive,
}
use proxmox_api_go.Disk.Drives.{Bus, Storage, read_storage, read_data, drive_or_disk}
use proxmox_api_go.Disk.RoundTrip.{IsStorageName, split_first-write_settings}
use proxmox_api_go.Disk.Written.{LacksIfGiven, clean}
use proxmox_api_go.Disk.Reread.{other_key, first_key}

cons_head-ne-nil : (c : ℕ) (xs : List Text) → cons_head c xs ≢ []
unfolding cons_head
cons_head-ne-nil c [] = λ e. cc
cons_head-ne-nil c (x ∷ xs) = λ e. cc

split_on-ne-nil : (sep : ℕ) (s : Text) → split_on sep s ≢ []
unfolding split_on cons_head
split_on-ne-nil sep [] = λ e. cc
split_on-ne-nil sep (c ∷ s) =
    if_elim (λ l. l ≢ []) (nat_eqb c sep) (λ e. cc) (cons_head-ne-nil c (split_on sep s))

cons_head-append :
    (c : ℕ) (xs ys : List Text) → xs ≢ [] → cons_head c (xs ++ ys) ≡ cons_head c xs ++ ys
unfolding cons_head
cons_head-append c [] ys ne = absurd (ne refl)
cons_head-append c (x ∷ xs) ys ne = refl

split_on-both :
    (sep : ℕ) (s t : Text) → split_on sep (s ++ sep ∷ t) ≡ split_on sep s ++ split_on sep t
unfolding split_on
split_on-both sep [] t = split_on-append sep [] t tt
split_on-both sep (c ∷ s) t = elim (Bool-cases (nat_eqb c sep)) [
  | inl same ↦ rw same (ap (λ l. [] ∷ l) (split_on-both sep s t))
  | inr other ↦ rw other (
      ap (cons_head c) (split_on-both sep s t)
      ∙ cons_head-append c (split_on sep s) (split_on sep t) (split_on-ne-nil sep s))
]

last_or-append : (y : Text) (ys : List Text) (k : Text) → last_or y (ys ++ k ∷ []) ≡ k
last_or-append y [] k = refl
last_or-append y (z ∷ ys) k = last_or-append z ys k

file_type-append : (xs : List Text) (k : Text) → xs ≢ [] → file_type (xs ++ k ∷ []) ≡ some k
file_type-append [] k ne = absurd (ne refl)
file_type-append (x ∷ []) k ne = refl
file_type-append (x ∷ y ∷ ys) k ne = ap some (last_or-append y ys k)

-- The type of a file is what stands behind its last point.
file_type_of :
    (stem kind : Text)
    → Lacks b'.' kind
    → file_type (split_on b'.' (stem ++ b'.' ∷ kind)) ≡ some kind
file_type_of stem kind h =
    ap file_type (
      split_on-both b'.' stem kind
      ∙ ap (λ t. split_on b'.' stem ++ t) (split_on_of_Lacks b'.' kind h))
    ∙ file_type-append (split_on b'.' stem) kind (split_on-ne-nil b'.' stem)

abbrev iso_volume : Text → Text → Text
iso_volume storage file = storage ++ b':' ∷ (codes "iso/" ++ file)

iso_path :
    (storage file : Text)
    → Lacks b'/' storage
    → Lacks b'/' file
    → split_on b'/' (iso_volume storage file) ≡ (storage ++ codes ":iso") ∷ file ∷ []
iso_path storage file s f =
    ap (split_on b'/') (sym (append_assoc storage (codes ":iso") (b'/' ∷ file)))
    ∙ split_on-append b'/' (storage ++ codes ":iso") file (
        All-append (λ c. c ≢ b'/') storage (codes ":iso") s
          (Lacks-of_contains_byte b'/' (codes ":iso") refl))
    ∙ ap (λ t. (storage ++ codes ":iso") ∷ t) (split_on_of_Lacks b'/' file f)

parts_of_iso :
    (storage : Text) (rest : List Text) (directory file : Text) (size : Option Text)
    → rest ≢ []
    → drive_of_parts (storage ∷ rest) (directory ∷ file ∷ []) size ≡ drive_of_file storage file size
parts_of_iso storage [] directory file size ne = absurd (ne refl)
parts_of_iso storage (r ∷ rest) directory file size ne = refl

abbrev iso_settings : Option Text → Settings
iso_settings size = (codes "media", some (codes "cdrom")) ∷ (codes "size", size) ∷ []

-- What is read of a volume of the directory iso, with the settings of a CD-ROM.
read_drive-iso :
    (storage file : Text) (settings : Dict Text Text) (size : Option Text)
    → Lacks b':' storage
    → Lacks b'/' storage
    → Lacks b'/' file
    → ((k : Text) → contains_byte b':' k ≡ false → lookup k settings ≡ find k (iso_settings size))
    → read_drive (iso_volume storage file) settings ≡ drive_of_file storage file size
unfolding read_drive
read_drive-iso storage file settings size colon slash plain found =
    rw
      (
        found (codes "media") refl,
        found (codes "none") refl,
        found (codes "cdrom") refl,
        found (codes "size") refl,
      )
      (ap (λ parts. drive_of_parts parts (split_on b'/' (iso_volume storage file)) size)
          (split_on-append b':' storage (codes "iso/" ++ file) colon)
        ∙ ap (λ path. drive_of_parts (storage ∷ split_on b':' (codes "iso/" ++ file)) path size)
            (iso_path storage file slash plain)
        ∙ parts_of_iso storage (split_on b':' (codes "iso/" ++ file)) (storage ++ codes ":iso") file
            size (split_on-ne-nil b':' (codes "iso/" ++ file)))

iso_settings-IsClean : (size : Option Text) → LacksIfGiven size → All IsClean (iso_settings size)
iso_settings-IsClean size h = (
  clean (codes "media") (some (codes "cdrom")) refl refl
      (Lacks-of_contains_byte b',' (codes "cdrom") refl),
  (clean (codes "size") size refl refl h, tt),
)

-- The text of a CD-ROM, and its size behind it, is a volume with two settings.
iso_text :
    (storage file : Text) (size : Option Text)
    → (storage ++ (codes ":iso/" ++ (file ++ codes ",media=cdrom")))
        ++ write_settings ((codes "size", size) ∷ [])
      ≡ iso_volume storage file ++ write_settings (iso_settings size)
unfolding write_settings
iso_text storage file size =
    append_assoc storage (codes ":iso/" ++ (file ++ codes ",media=cdrom"))
      (write_settings ((codes "size", size) ∷ []))
    ∙ ap (λ t. storage ++ (codes ":iso/" ++ t))
        (append_assoc file (codes ",media=cdrom") (write_settings ((codes "size", size) ∷ [])))
    ∙ sym (append_assoc storage (codes ":iso/" ++ file) (write_settings (iso_settings size)))

abbrev pub drive_with : (iso : IsoFile) → QemuCdRom
drive_with iso = record { iso = some iso; passthrough = false }

module _ {D P : Type 0} (bus : Bus D P) (read_mbps : Text → Mbps) where
  abbrev pub after_drive : Option ReadDrive → Text → Dict Text Text → ℕ → Option (Storage D P × ℕ)
  after_drive = drive_or_disk bus read_mbps

  read_iso :
      (storage file : Text) (size : Option Text) (other : ℕ)
      → IsStorageName storage
      → Lacks b'/' file
      → Lacks b',' file
      → LacksIfGiven size
      → (let text = iso_volume storage file ++ write_settings (iso_settings size) in
          read_storage bus read_mbps text other
          ≡ after_drive
              (drive_of_file storage file size)
              (iso_volume storage file)
              (split_string_of_settings text)
              other)
  unfolding read_storage
  read_iso storage file size other (given, colon, comma, sign, slash) plain file_comma size_comma =
      let volume = iso_volume storage file in
      let settings = split_string_of_settings (volume ++ write_settings (iso_settings size)) in
      let volume_comma : Lacks b',' volume =
        All-append (λ c. c ≢ b',') storage (codes ":iso/" ++ file) comma
          (All-append (λ c. c ≢ b',') (codes ":iso/") file
            (Lacks-of_contains_byte b',' (codes ":iso/") refl) file_comma) in
      let found : (k : Text)
          → contains_byte b':' k ≡ false
          → lookup k settings ≡ find k (iso_settings size) =
        λ k no_colon.
          lookup-write_settings volume (iso_settings size) k volume_comma
            (iso_settings-IsClean size size_comma) refl
            (other_key (split_first b'=' volume).0 k (first_key storage (codes "iso/" ++ file) sign)
              no_colon) in
      ap (λ d. read_data bus read_mbps d settings other)
        (split_first-write_settings volume (iso_settings size) volume_comma)
      ∙ ap (λ drive. drive_or_disk bus read_mbps drive volume settings other)
          (read_drive-iso storage file settings size colon slash plain found)

  kept :
      (storage stem kind s : Text)
      → cd_rom_of (record {
        is_cd_rom = true;
        passthrough = false;
        storage = storage;
        format = [];
        file = stem ++ b'.' ∷ kind;
        size = s;
      })
        ≡ drive_with (record { file = stem ++ b'.' ∷ kind; storage = storage; size = s })
  unfolding cd_rom_of
  kept storage [] kind s = refl
  kept storage (c ∷ stem) kind s = refl

  -- An ISO file in a CD-ROM is written, and with its size behind the text it is read back, if its name ends in
  -- `.iso`. The storage is a plain name, no slash and no comma are in the file, and no comma in the size.
  pub read_storage-cd_rom_text :
      (storage stem size : Text) (other : ℕ)
      → IsStorageName storage
      → Lacks b'/' stem
      → Lacks b',' stem
      → Lacks b',' size
      → (let cd_rom =
            drive_with (record { file = stem ++ codes ".iso"; storage = storage; size = size }) in
          read_storage bus read_mbps
            (cd_rom_text cd_rom ++ write_settings ((codes "size", some size) ∷ []))
            other
          ≡ some (
            record { cd_rom = some cd_rom; cloud_init = none; disk = none; passthrough = none },
            other,
          ))
  unfolding cd_rom_text
  read_storage-cd_rom_text storage stem size other s plain comma size_comma =
      let file = stem ++ codes ".iso" in
      let read : drive_of_file storage file (some size)
          ≡ some (record {
            is_cd_rom = true;
            passthrough = false;
            storage = storage;
            format = [];
            file = file;
            size = size;
          }) =
        rw
          (
            drive_of_file,
            file_type_of stem (codes "iso") (Lacks-of_contains_byte b'.' (codes "iso") refl),
          )
          refl in
      ap (λ t. read_storage bus read_mbps t other) (iso_text storage file (some size))
      ∙ read_iso storage file (some size) other s
          (All-append (λ c. c ≢ b'/') stem (codes ".iso") plain
            (Lacks-of_contains_byte b'/' (codes ".iso") refl))
          (All-append (λ c. c ≢ b',') stem (codes ".iso") comma
            (Lacks-of_contains_byte b',' (codes ".iso") refl))
          size_comma
      ∙ ap
          (λ drive.
            after_drive drive (iso_volume storage file)
              (split_string_of_settings
                (iso_volume storage file ++ write_settings (iso_settings (some size))))
              other)
          read
      ∙ ap
          (λ c.
            some (
              record { cd_rom = some c; cloud_init = none; disk = none; passthrough = none },
              other,
            ))
          (kept storage stem (codes "iso") size)

  -- With another ending, the text of a CD-ROM is read as a cloud-init drive, with its size or without.
  pub read_storage_of_other_type :
      (storage stem kind : Text) (size : Option Text) (listed : Text) (other : ℕ)
      → IsStorageName storage
      → Lacks b'/' stem
      → Lacks b',' stem
      → Lacks b'/' kind
      → Lacks b',' kind
      → Lacks b'.' kind
      → LacksIfGiven size
      → text_eqb kind (codes "iso") ≡ false
      → (let cd_rom =
            drive_with (record { file = stem ++ b'.' ∷ kind; storage = storage; size = listed }) in
          read_storage bus read_mbps
            (cd_rom_text cd_rom ++ write_settings ((codes "size", size) ∷ []))
            other
          ≡ some (
            record {
              cd_rom = none;
              cloud_init = some (record { format = kind; storage = storage });
              disk = none;
              passthrough = none;
            },
            other,
          ))
  unfolding cd_rom_text cloud_init_of
  read_storage_of_other_type storage stem kind size listed other s plain comma kind_plain kind_comma
        kind_point size_comma different =
      let file = stem ++ b'.' ∷ kind in
      let read : drive_of_file storage file size
          ≡ some (record {
            is_cd_rom = false;
            passthrough = false;
            storage = storage;
            format = kind;
            file = file;
            size = [];
          }) =
        rw (drive_of_file, file_type_of stem kind kind_point, different) refl in
      ap (λ t. read_storage bus read_mbps t other) (iso_text storage file size)
      ∙ read_iso storage file size other s
          (All-append (λ c. c ≢ b'/') stem (b'.' ∷ kind) plain ((λ e. omega arith), kind_plain))
          (All-append (λ c. c ≢ b',') stem (b'.' ∷ kind) comma ((λ e. omega arith), kind_comma))
          size_comma
      ∙ ap
          (λ drive.
            after_drive drive (iso_volume storage file)
              (split_string_of_settings
                (iso_volume storage file ++ write_settings (iso_settings size)))
              other)
          read
