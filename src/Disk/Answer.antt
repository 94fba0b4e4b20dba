-- ===== src/Disk/Answer.antt =====
-- `qemuDisk.parseDisk` and `qemuDisk.mapToStruct`: a disk in an answer. The number of the machine that
-- a linked clone was made from is handed in by a pointer, and comes back beside the disk.
use proxmox_api_go.Base.{
  ℕ, ◌*◌, ◌%◌, ◌^◌, Bool, true, false, nat_eqb, if◌then◌else◌, Option, none, some, ◌>>=◌, List, [],
  ◌∷◌, Text, codes, text_eqb, text_eq, split_on, Dict, lookup, parse_int, to_uint, uint_atoi,
}
use proxmox_api_go.GuestAgent.{parse_bool}
use proxmox_api_go.Disk.{
  QemuDisk, DiskSyntax, file_syntax, volume_syntax, ide, mebibyte, gibibyte, tebibyte,
}
use proxmox_api_go.Disk.Limits.{Mbps}

-- What `parseDisk` returns, with the number behind the pointer.
pub record ParsedDisk : Type 0 where
  pub id : ℕ
  pub storage : Text
  pub format : Text
  pub linked_disk_id : Option ℕ
  pub syntax : DiskSyntax
  pub linked_vm_id : ℕ

abbrev pub head_or : Text → List Text → Text
head_or other [] = other
head_or other (x ∷ xs) = x

abbrev pub last_or : Text → List Text → Text
last_or x [] = x
last_or x (y ∷ ys) = last_or y ys

-- The number of a text, if `strconv.Atoi` takes it.
abbrev pub uint_of_text : Text → Option ℕ
uint_of_text s = elim (parse_int s) [ none ↦ none | some n ↦ some (to_uint n) ]

abbrev pub or_number : Option ℕ → ℕ → ℕ
or_number none n = n
or_number (some m) n = m

-- The parts between dashes of a name, without what follows its first point.
abbrev pub dashes : Text → List Text
dashes name = split_on b'-' (head_or [] (split_on b'.' name))

-- The number behind the last dash; a name without a dash has none.
abbrev pub number_behind : List Text → Option ℕ
number_behind (a ∷ b ∷ rest) = uint_of_text (last_or b rest)
number_behind _ = none

-- Two parts: a number in front is that of the machine, and else a name is that of the origin.
abbrev pub link_of_two : Option ℕ → List Text → ℕ → ℕ × Option ℕ × DiskSyntax
link_of_two (some n) origin linked = (linked, none, file_syntax)
link_of_two none (a ∷ b ∷ rest) linked =
    (or_number (uint_of_text b) linked, number_behind (a ∷ b ∷ rest), volume_syntax)
link_of_two none _ linked = (linked, none, file_syntax)

-- What the path says of a linked clone: the number of the machine, the number of the disk, the syntax.
unfoldable pub parse_link : List Text → ℕ → ℕ × Option ℕ × DiskSyntax
parse_link (a ∷ []) linked = (linked, none, volume_syntax)
parse_link (a ∷ b ∷ []) linked = link_of_two (uint_of_text a) (dashes a) linked
parse_link (a ∷ b ∷ c ∷ d ∷ []) linked =
    (or_number (uint_of_text a) linked, number_behind (dashes b), file_syntax)
parse_link _ linked = (linked, none, file_syntax)

-- Two parts around a point are a name and a format; else the format is raw.
abbrev pub format_of : List Text → Text
format_of (name ∷ format ∷ []) = format
format_of _ = codes "raw"

abbrev pub parse_path : Text → List Text → ℕ → ParsedDisk
parse_path storage path linked =
    let link = parse_link path linked in
    let name = last_or [] path in
    record {
      id = or_number (number_behind (dashes name)) 0;
      storage = storage;
      format = format_of (split_on b'.' name);
      linked_disk_id = link.1;
      syntax = link.2;
      linked_vm_id = link.0;
    }

abbrev pub parse_parts : List Text → ℕ → ParsedDisk
parse_parts (storage ∷ path ∷ []) linked = parse_path storage (split_on b'/' path) linked
parse_parts parts linked = record {
  id = 0;
  storage = head_or [] parts;
  format = [];
  linked_disk_id = none;
  syntax = file_syntax;
  linked_vm_id = linked;
}

-- `parseDisk`
unfoldable pub parse_disk : Text → ℕ → ParsedDisk
unfolding parse_link
parse_disk disk_data linked = parse_parts (split_on b':' disk_data) linked

-- The last byte of a text, and what stands before it.
unfoldable pub split_last : Text → Option (Text × ℕ)
split_last [] = none
split_last (c ∷ []) = some ([], c)
split_last (c ∷ d ∷ s) = elim (split_last (d ∷ s)) [ none ↦ none | some (t, e) ↦ some (c ∷ t, e) ]

abbrev pub unit_of : ℕ → ℕ
unit_of c =
    if nat_eqb c b'T'
    then tebibyte
    else if nat_eqb c b'G'
    then gibibyte
    else if nat_eqb c b'M'
    then mebibyte
    else if nat_eqb c b'K'
    then 1
    else 0

-- `QemuDiskSize.parse`; `none` is the panic on an empty text. An unknown unit leaves 0.
unfoldable pub parse_size : Text → Option ℕ
parse_size raw_size = elim (split_last raw_size) [
  | none ↦ none
  | some (digits, unit) ↦ some (uint_atoi digits * unit_of unit % 2 ^ 64)
]

abbrev pub text_or_empty : Option Text → Text
text_or_empty none = []
text_or_empty (some v) = v

abbrev pub bool_or : Bool → Option Text → Bool
bool_or default none = default
bool_or default (some v) = parse_bool v

abbrev pub is_on : Option Text → Bool
is_on none = false
is_on (some v) = text_eqb v (codes "on")

abbrev pub number_or_zero : Option Text → ℕ
number_or_zero none = 0
number_or_zero (some v) = uint_atoi v

abbrev pub size_or_zero : Option Text → Option ℕ
size_or_zero none = some 0
size_or_zero (some v) = parse_size v

abbrev pub zero_mbps : Mbps
zero_mbps = record { numerator = 0; shift = 0 }

abbrev pub is_path : Text → Bool
is_path [] = false
is_path (c ∷ s) = nat_eqb c b'/'

abbrev pub not_parsed : ℕ → ParsedDisk
not_parsed linked = record {
  id = 0;
  storage = [];
  format = [];
  linked_disk_id = none;
  syntax = file_syntax;
  linked_vm_id = linked;
}

-- `read_mbps` stands for `strconv.ParseFloat`, `math.Round` and the conversions around them.
module _ (read_mbps : Text → Mbps) where
  abbrev pub mbps_or_zero : Option Text → Mbps
  mbps_or_zero none = zero_mbps
  mbps_or_zero (some v) = read_mbps v

  abbrev pub disk_of : Text → ParsedDisk → (Text → Option Text) → ℕ → QemuDisk
  disk_of file parsed setting size = record {
    async_io = text_or_empty (setting (codes "aio"));
    backup = bool_or true (setting (codes "backup"));
    bandwidth = record {
      mbps_read = record {
        burst = mbps_or_zero (setting (codes "mbps_rd_max"));
        concurrent = mbps_or_zero (setting (codes "mbps_rd"));
      };
      mbps_write = record {
        burst = mbps_or_zero (setting (codes "mbps_wr_max"));
        concurrent = mbps_or_zero (setting (codes "mbps_wr"));
      };
      iops_read = record {
        burst = number_or_zero (setting (codes "iops_rd_max"));
        burst_duration = number_or_zero (setting (codes "iops_rd_max_length"));
        concurrent = number_or_zero (setting (codes "iops_rd"));
      };
      iops_write = record {
        burst = number_or_zero (setting (codes "iops_wr_max"));
        burst_duration = number_or_zero (setting (codes "iops_wr_max_length"));
        concurrent = number_or_zero (setting (codes "iops_wr"));
      };
    };
    cache = text_or_empty (setting (codes "cache"));
    discard = is_on (setting (codes "discard"));
    is_disk = false;
    emulate_ssd = bool_or false (setting (codes "ssd"));
    file = file;
    syntax = parsed.syntax;
    format = parsed.format;
    id = parsed.id;
    io_thread = bool_or false (setting (codes "iothread"));
    linked_disk_id = parsed.linked_disk_id;
    read_only = bool_or false (setting (codes "ro"));
    replicate = bool_or true (setting (codes "replicate"));
    serial = text_or_empty (setting (codes "serial"));
    size_in_kibibytes = size;
    storage = parsed.storage;
    disk_type = ide;
    world_wide_name = text_or_empty (setting (codes "wwn"));
  }

  abbrev pub read_disk : Text → ParsedDisk → Dict Text Text → Option (QemuDisk × ℕ)
  read_disk file parsed settings = do
    size ← size_or_zero (lookup (codes "size") settings)
    some (disk_of file parsed (λ key. lookup key settings) size, parsed.linked_vm_id)

  -- `mapToStruct`, from the data in front of the settings. `none` is the panic on an empty text, or on an
  -- empty size. There is always a setting, since the data is read as one too.
  unfoldable pub map_to_struct : Text → Dict Text Text → ℕ → Option (QemuDisk × ℕ)
  map_to_struct [] settings linked = none
  map_to_struct (c ∷ disk_data) settings linked =
      if nat_eqb c b'/'
      then read_disk (c ∷ disk_data) (not_parsed linked) settings
      else read_disk [] (parse_disk (c ∷ disk_data) linked) settings
