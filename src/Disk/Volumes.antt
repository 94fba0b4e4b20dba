-- ===== src/Disk/Volumes.antt =====
-- `parseDisk` on what `formatDisk` writes.
use proxmox_api_go.Base.{
  ℕ, ◌<◌, ◌^◌, ◌&&◌, if_elim, Option, none, some, ◌≡◌, refl, ap, ◌∙◌, [], ◌∷◌, ◌++◌, Text, codes,
  text_eqb, text_eq, split_on, split_on-append, split_on_of_Lacks, Lacks, itoa_int, parse_int,
}
use proxmox_api_go.Disk.{QemuDisk, DiskSyntax, file_syntax, volume_syntax}
use proxmox_api_go.Disk.Request.{disk_path, still_linked, format_disk}
use proxmox_api_go.Disk.Answer.{
  dashes, number_behind, format_of, parse_link, parse_path, parse_disk, link_of_two,
}
use proxmox_api_go.Disk.Names.{
  Fits, name_of, uint_of_text-itoa_int, name_of-Lacks, dashes_of_file, dashes_of_name,
  number_of_parts,
}
use proxmox_api_go.Disk.Paths.{
  parse_path_of, IsPart, number-IsPart, name-IsPart, file-IsPart, colon, slash, last_part,
  parse_disk_of_path,
}

-- What is read of the format of a disk: a volume has none, and raw is assumed.
abbrev pub read_format : DiskSyntax → Text → Text
read_format file_syntax format = format
read_format volume_syntax format = codes "raw"

-- The machine that a linked clone was made from.
abbrev pub origin : Option ℕ → ℕ → ℕ → ℕ
origin none linked_vm_id other = other
origin (some linked) linked_vm_id other = linked_vm_id

abbrev pub FitsIfGiven : Option ℕ → Type 0
FitsIfGiven none = Unit
FitsIfGiven (some n) = n < 2 ^ 63

module _ (storage format : Text) (vm_id linked_vm_id id other : ℕ)
    (storage_plain : Lacks b':' storage) (format_plain : IsPart format)
    (no_point : Lacks b'.' format) (vm_fits : Fits vm_id) (linked_vm_fits : Fits linked_vm_id)
    (id_fits : Fits id) where
  disk-IsPart : IsPart (name_of (codes "vm") vm_id id)
  disk-IsPart = name-IsPart (codes "vm") vm_id id refl refl vm_fits id_fits

  format_of_disk :
      format_of (split_on b'.' (name_of (codes "vm") vm_id id ++ b'.' ∷ format)) ≡ format
  format_of_disk = ap format_of (
      split_on-append b'.' (name_of (codes "vm") vm_id id) format
        (name_of-Lacks b'.' (codes "vm") vm_id id refl refl refl vm_fits id_fits)
      ∙ ap (λ t. name_of (codes "vm") vm_id id ∷ t) (split_on_of_Lacks b'.' format no_point))

  number_of_disk : number_behind (dashes (name_of (codes "vm") vm_id id ++ b'.' ∷ format)) ≡ some id
  number_of_disk =
      ap number_behind (dashes_of_file (codes "vm") vm_id id format refl refl vm_fits id_fits)
      ∙ number_of_parts (codes "vm") (itoa_int vm_id) (codes "disk") id id_fits

  file_path :
      split_on b'/' (disk_path file_syntax vm_id linked_vm_id none format id)
      ≡ itoa_int vm_id ∷ (name_of (codes "vm") vm_id id ++ b'.' ∷ format) ∷ []
  unfolding disk_path
  file_path =
      slash (itoa_int vm_id) (name_of (codes "vm") vm_id id ++ b'.' ∷ format)
        (number-IsPart vm_id vm_fits)
      ∙ ap (λ t. itoa_int vm_id ∷ t)
          (last_part _
            (file-IsPart (name_of (codes "vm") vm_id id) format disk-IsPart format_plain))

  link_of_file :
      (name : Text) → parse_link (itoa_int vm_id ∷ name ∷ []) other ≡ (other, none, file_syntax)
  unfolding parse_link
  link_of_file name =
      ap (λ n. link_of_two n (dashes (itoa_int vm_id)) other) (uint_of_text-itoa_int vm_id vm_fits)

  read_file :
      parse_disk (storage ++ b':' ∷ disk_path file_syntax vm_id linked_vm_id none format id) other
      ≡ record {
        id = id;
        storage = storage;
        format = format;
        linked_disk_id = none;
        syntax = file_syntax;
        linked_vm_id = other;
      }
  unfolding disk_path parse_link
  read_file =
      parse_disk_of_path storage (disk_path file_syntax vm_id linked_vm_id none format id) other
        storage_plain
        (colon (itoa_int vm_id) (name_of (codes "vm") vm_id id ++ b'.' ∷ format)
          (number-IsPart vm_id vm_fits)
          (file-IsPart (name_of (codes "vm") vm_id id) format disk-IsPart format_plain).1)
      ∙ ap (λ t. parse_path storage t other) file_path
      ∙ parse_path_of storage
          (itoa_int vm_id ∷ (name_of (codes "vm") vm_id id ++ b'.' ∷ format) ∷ []) other
          (other, none, file_syntax) id format
          (link_of_file (name_of (codes "vm") vm_id id ++ b'.' ∷ format)) number_of_disk
          format_of_disk

  volume_path :
      split_on b'/' (disk_path volume_syntax vm_id linked_vm_id none format id)
      ≡ name_of (codes "vm") vm_id id ∷ []
  unfolding disk_path
  volume_path = last_part (name_of (codes "vm") vm_id id) disk-IsPart

  number_of_volume : number_behind (dashes (name_of (codes "vm") vm_id id)) ≡ some id
  number_of_volume =
      ap number_behind (dashes_of_name (codes "vm") vm_id id refl refl vm_fits id_fits)
      ∙ number_of_parts (codes "vm") (itoa_int vm_id) (codes "disk") id id_fits

  format_of_volume : format_of (split_on b'.' (name_of (codes "vm") vm_id id)) ≡ codes "raw"
  format_of_volume = ap format_of (
      split_on_of_Lacks b'.' (name_of (codes "vm") vm_id id)
        (name_of-Lacks b'.' (codes "vm") vm_id id refl refl refl vm_fits id_fits))

  read_volume :
      parse_disk (storage ++ b':' ∷ disk_path volume_syntax vm_id linked_vm_id none format id) other
      ≡ record {
        id = id;
        storage = storage;
        format = codes "raw";
        linked_disk_id = none;
        syntax = volume_syntax;
        linked_vm_id = other;
      }
  unfolding disk_path parse_link
  read_volume =
      parse_disk_of_path storage (disk_path volume_syntax vm_id linked_vm_id none format id) other
        storage_plain disk-IsPart.1
      ∙ ap (λ t. parse_path storage t other) volume_path
      ∙ parse_path_of storage (name_of (codes "vm") vm_id id ∷ []) other
          (other, none, volume_syntax) id (codes "raw") refl number_of_volume format_of_volume

  module _ (linked : ℕ) (linked_fits : Fits linked) where
    base-IsPart : IsPart (name_of (codes "base") linked_vm_id linked)
    base-IsPart =
        name-IsPart (codes "base") linked_vm_id linked refl refl linked_vm_fits linked_fits

    link_of_linked_volume :
        (name : Text)
        → parse_link (name_of (codes "base") linked_vm_id linked ∷ name ∷ []) other
          ≡ (linked_vm_id, some linked, volume_syntax)
    unfolding parse_link parse_int
    link_of_linked_volume name =
        ap (λ parts. link_of_two none parts other)
          (dashes_of_name (codes "base") linked_vm_id linked refl refl linked_vm_fits linked_fits)
        ∙ (rw
            (
              uint_of_text-itoa_int linked_vm_id linked_vm_fits,
              number_of_parts (codes "base") (itoa_int linked_vm_id) (codes "disk") linked
                  linked_fits,
            )
            refl)

    read_linked_volume :
        parse_disk
          (storage ++ b':' ∷ disk_path volume_syntax vm_id linked_vm_id (some linked) format id)
          other
        ≡ record {
          id = id;
          storage = storage;
          format = codes "raw";
          linked_disk_id = some linked;
          syntax = volume_syntax;
          linked_vm_id = linked_vm_id;
        }
    unfolding disk_path parse_link
    read_linked_volume =
        parse_disk_of_path storage
          (disk_path volume_syntax vm_id linked_vm_id (some linked) format id) other storage_plain
          (colon (name_of (codes "base") linked_vm_id linked) (name_of (codes "vm") vm_id id)
            base-IsPart disk-IsPart.1)
        ∙ ap (λ t. parse_path storage t other)
            (slash (name_of (codes "base") linked_vm_id linked) (name_of (codes "vm") vm_id id)
                base-IsPart
              ∙ ap (λ t. name_of (codes "base") linked_vm_id linked ∷ t) volume_path)
        ∙ parse_path_of storage
            (name_of (codes "base") linked_vm_id linked ∷ name_of (codes "vm") vm_id id ∷ []) other
            (linked_vm_id, some linked, volume_syntax) id (codes "raw")
            (link_of_linked_volume (name_of (codes "vm") vm_id id)) number_of_volume
            format_of_volume

    link_of_linked_file :
        (number name : Text)
        → parse_link
            (itoa_int linked_vm_id
              ∷ (name_of (codes "base") linked_vm_id linked ++ b'.' ∷ format)
              ∷ number
              ∷ name
              ∷ [])
            other
          ≡ (linked_vm_id, some linked, file_syntax)
    unfolding parse_link
    link_of_linked_file number name =
        rw
          (dashes_of_file (codes "base") linked_vm_id linked format refl refl linked_vm_fits
            linked_fits)
          (rw
            (
              uint_of_text-itoa_int linked_vm_id linked_vm_fits,
              number_of_parts (codes "base") (itoa_int linked_vm_id) (codes "disk") linked
                  linked_fits,
            )
            refl)

    read_linked_file :
        parse_disk
          (storage ++ b':' ∷ disk_path file_syntax vm_id linked_vm_id (some linked) format id)
          other
        ≡ record {
          id = id;
          storage = storage;
          format = format;
          linked_disk_id = some linked;
          syntax = file_syntax;
          linked_vm_id = linked_vm_id;
        }
    unfolding disk_path parse_link
    read_linked_file =
        let vm = itoa_int vm_id in
        let origin_vm = itoa_int linked_vm_id in
        let base = name_of (codes "base") linked_vm_id linked ++ b'.' ∷ format in
        let name = name_of (codes "vm") vm_id id ++ b'.' ∷ format in
        let base_part =
          file-IsPart (name_of (codes "base") linked_vm_id linked) format base-IsPart
            format_plain in
        let name_part =
          file-IsPart (name_of (codes "vm") vm_id id) format disk-IsPart format_plain in
        parse_disk_of_path storage
          (disk_path file_syntax vm_id linked_vm_id (some linked) format id) other storage_plain
          (colon origin_vm (base ++ b'/' ∷ (vm ++ b'/' ∷ name))
            (number-IsPart linked_vm_id linked_vm_fits)
            (colon base (vm ++ b'/' ∷ name) base_part
              (colon vm name (number-IsPart vm_id vm_fits) name_part.1)))
        ∙ ap (λ t. parse_path storage t other)
            (slash origin_vm (base ++ b'/' ∷ (vm ++ b'/' ∷ name))
                (number-IsPart linked_vm_id linked_vm_fits)
              ∙ ap (λ t. origin_vm ∷ t)
                  (slash base (vm ++ b'/' ∷ name) base_part ∙ ap (λ t. base ∷ t) file_path))
        ∙ parse_path_of storage (origin_vm ∷ base ∷ vm ∷ name ∷ []) other
            (linked_vm_id, some linked, file_syntax) id format (link_of_linked_file vm name)
            number_of_disk format_of_disk

  read_path :
      (syntax : DiskSyntax) (linked : Option ℕ)
      → FitsIfGiven linked
      → parse_disk (storage ++ b':' ∷ disk_path syntax vm_id linked_vm_id linked format id) other
        ≡ record {
          id = id;
          storage = storage;
          format = read_format syntax format;
          linked_disk_id = linked;
          syntax = syntax;
          linked_vm_id = origin linked linked_vm_id other;
        }
  read_path file_syntax none h = read_file
  read_path file_syntax (some linked) h = read_linked_file linked h
  read_path volume_syntax none h = read_volume
  read_path volume_syntax (some linked) h = read_linked_volume linked h

still_linked-FitsIfGiven :
    (disk : QemuDisk) (current_storage current_format : Text) (syntax : DiskSyntax)
    → FitsIfGiven disk.linked_disk_id
    → FitsIfGiven (still_linked disk current_storage current_format syntax)
still_linked-FitsIfGiven disk current_storage current_format file_syntax h =
    if_elim FitsIfGiven
      (text_eqb disk.storage current_storage && text_eqb disk.format current_format) h tt
still_linked-FitsIfGiven disk current_storage current_format volume_syntax h =
    if_elim FitsIfGiven (text_eqb disk.storage current_storage) h tt

-- What `formatDisk` writes, `parseDisk` reads: the number, the storage, the format, which is raw for a volume,
-- the syntax and, for a disk that is still linked, its origin. The storage has no colon, the format no
-- colon, slash or point, and the numbers fit in an int.
pub parse_disk-format_disk :
    (disk : QemuDisk) (vm_id linked_vm_id other : ℕ) (current_storage current_format : Text)
    (syntax : DiskSyntax)
    → Lacks b':' disk.storage
    → IsPart disk.format
    → Lacks b'.' disk.format
    → vm_id < 2 ^ 63
    → linked_vm_id < 2 ^ 63
    → disk.id < 2 ^ 63
    → FitsIfGiven disk.linked_disk_id
    → (let linked = still_linked disk current_storage current_format syntax in
        parse_disk (format_disk disk vm_id linked_vm_id current_storage current_format syntax) other
        ≡ record {
          id = disk.id;
          storage = disk.storage;
          format = read_format syntax disk.format;
          linked_disk_id = linked;
          syntax = syntax;
          linked_vm_id = origin linked linked_vm_id other;
        })
unfolding format_disk
parse_disk-format_disk disk vm_id linked_vm_id other current_storage current_format syntax s f p v l
      i d =
    read_path disk.storage disk.format vm_id linked_vm_id disk.id other s f p v l i syntax
      (still_linked disk current_storage current_format syntax)
      (still_linked-FitsIfGiven disk current_storage current_format syntax d)
