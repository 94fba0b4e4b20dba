-- ===== src/Disk/Paths.antt =====
-- The parts of the path of a volume, and what `parseDisk` makes of them.
use proxmox_api_go.Base.{
  ℕ, false, arith, Option, some, ◌≡◌, refl, ◌≢◌, List, [], ◌∷◌, ◌++◌, Text, text_eq, split_on,
  split_on-append, split_on_of_Lacks, Lacks, contains_byte, All-append, itoa_int,
}
use proxmox_api_go.Disk.{DiskSyntax}
use proxmox_api_go.Disk.Answer.{
  dashes, number_behind, format_of, last_or, parse_link, parse_path, parse_disk,
}
use proxmox_api_go.Disk.Names.{Fits, name_of, itoa_int-Lacks, name_of-Lacks}

-- What is read of a path that has this link, and whose last part has this number and this format.
pub parse_path_of :
    (storage : Text) (path : List Text) (linked : ℕ) (link : ℕ × Option ℕ × DiskSyntax) (id : ℕ)
    (format : Text)
    → parse_link path linked ≡ link
    → number_behind (dashes (last_or [] path)) ≡ some id
    → format_of (split_on b'.' (last_or [] path)) ≡ format
    → parse_path storage path linked ≡ record {
      id = id;
      storage = storage;
      format = format;
      linked_disk_id = link.1;
      syntax = link.2;
      linked_vm_id = link.0;
    }
parse_path_of storage path linked link id format l n f = rw (parse_path, l, n, f) refl

-- A part of a path: no slash and no colon.
abbrev pub IsPart : Text → Type 0
IsPart t = Lacks b'/' t × Lacks b':' t

pub number-IsPart : (n : ℕ) → Fits n → IsPart (itoa_int n)
number-IsPart n h = (itoa_int-Lacks b'/' n refl h, itoa_int-Lacks b':' n refl h)

pub name-IsPart :
    (prefix : Text) (vm_id id : ℕ)
    → contains_byte b'/' prefix ≡ false
    → contains_byte b':' prefix ≡ false
    → Fits vm_id
    → Fits id
    → IsPart (name_of prefix vm_id id)
name-IsPart prefix vm_id id p q v i = (
  name_of-Lacks b'/' prefix vm_id id refl p refl v i,
  name_of-Lacks b':' prefix vm_id id refl q refl v i,
)

pub file-IsPart :
    (name format : Text) → IsPart name → IsPart format → IsPart (name ++ b'.' ∷ format)
file-IsPart name format (n, m) (f, g) = (
  All-append (λ c. c ≢ b'/') name (b'.' ∷ format) n ((λ e. omega arith), f),
  All-append (λ c. c ≢ b':') name (b'.' ∷ format) m ((λ e. omega arith), g),
)

pub colon : (part rest : Text) → IsPart part → Lacks b':' rest → Lacks b':' (part ++ b'/' ∷ rest)
colon part rest h r = All-append (λ c. c ≢ b':') part (b'/' ∷ rest) h.1 ((λ e. omega arith), r)

pub slash :
    (part rest : Text)
    → IsPart part
    → split_on b'/' (part ++ b'/' ∷ rest) ≡ part ∷ split_on b'/' rest
slash part rest h = split_on-append b'/' part rest h.0

pub last_part : (part : Text) → IsPart part → split_on b'/' part ≡ part ∷ []
last_part part h = split_on_of_Lacks b'/' part h.0

pub parse_disk_of_path :
    (storage path : Text) (linked : ℕ)
    → Lacks b':' storage
    → Lacks b':' path
    → parse_disk (storage ++ b':' ∷ path) linked ≡ parse_path storage (split_on b'/' path) linked
unfolding parse_disk
parse_disk_of_path storage path linked s p =
    rw (split_on-append b':' storage path s, split_on_of_Lacks b':' path p) refl
