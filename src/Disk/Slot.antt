-- ===== src/Disk/Slot.antt =====
-- A place for a drive: `qemuStorage`, what a request has to say of it, and the changes of a disk that need
-- a move or a resize.
use proxmox_api_go.Base.{
  ℕ, Bool, true, false, ◌&&◌, ◌||◌, not, ltb, leb, if◌then◌else◌, Option, none, some, List, [], ◌∷◌,
  ◌++◌, Text, codes, text_eqb, text_eq, Dict, insert,
}
use proxmox_api_go.Disk.{QemuDisk, DiskType, file_syntax}
use proxmox_api_go.Disk.Request.{map_to_api_values}
use proxmox_api_go.Disk.CdRom.{QemuCdRom, QemuCloudInitDisk, cd_rom_text, cloud_init_text}
use proxmox_api_go.Disk.Validation.{DiskError, validate_format, validate_id, first_error}

pub record QemuStorage : Type 0 where
  pub cd_rom : Option QemuCdRom
  pub cloud_init : Option QemuCloudInitDisk
  pub disk : Option QemuDisk
  pub passthrough : Option QemuDisk

-- The parameters, and the list of the places to delete.
abbrev pub Request : Type 0
Request = Dict Text Text × Text

-- `AddToList` of proxmox/util.go.
unfoldable pub add_to_list : Text → Text → Text
add_to_list [] item = item
add_to_list (c ∷ list) item = (c ∷ list) ++ b',' ∷ item

abbrev pub is_given : {A : Type 0} → Option A → Bool
is_given none = false
is_given (some x) = true

abbrev pub delete_slot : Text → Request → Request
delete_slot id (params, delete) = (params, add_to_list delete id)

-- A text that is not the current one is sent.
abbrev pub put_changed : Text → Text → Option Text → Request → Request
put_changed id text none (params, delete) = (insert id text params, delete)
put_changed id text (some current) (params, delete) =
    if not (text_eqb text current) then (insert id text params, delete) else (params, delete)

abbrev pub creation_text : QemuDisk → ℕ → Text
creation_text disk vm_id = map_to_api_values disk vm_id 0 [] [] file_syntax true

abbrev pub update_text : QemuDisk → QemuDisk → ℕ → ℕ → Text
update_text disk current vm_id linked_vm_id =
    map_to_api_values disk vm_id linked_vm_id current.storage current.format current.syntax false

abbrev pub passthrough_text : QemuDisk → Text
passthrough_text passthrough = map_to_api_values passthrough 0 0 [] [] file_syntax false

-- A disk that is not smaller is changed, with the number and the origin of the current one; a smaller one
-- is created.
abbrev pub put_disk : Text → QemuDisk → Option QemuDisk → ℕ → ℕ → Request → Request
put_disk id disk none vm_id linked_vm_id request =
    put_changed id (creation_text disk vm_id) none request
put_disk id disk (some current) vm_id linked_vm_id request =
    if leb current.size_in_kibibytes disk.size_in_kibibytes
    then put_changed id
        (update_text (record disk { id = current.id; linked_disk_id = current.linked_disk_id })
          current vm_id linked_vm_id)
        (some (update_text current current vm_id linked_vm_id)) request
    else put_changed id (creation_text disk vm_id) none request

-- A kind of drive of the current place, if that is not nil.
module _ {A : Type 0} (kind : QemuStorage → Option A) (text : A → Text) where
  abbrev pub current_text : Option QemuStorage → Option Text
  current_text none = none
  current_text (some current) = elim (kind current) [ none ↦ none | some x ↦ some (text x) ]

abbrev pub current_of : {A : Type 0} → (QemuStorage → Option A) → Option QemuStorage → Option A
current_of kind none = none
current_of kind (some current) = kind current

-- The four kinds in their order: the first that is given is written, unless an earlier one that none
-- replaces has to go.
abbrev pub put_passthrough : Text → QemuStorage → Option QemuStorage → Request → Request
put_passthrough id storage current request = elim storage.passthrough [
  | some passthrough ↦
      put_changed id (passthrough_text passthrough)
        (current_text (λ s. s.passthrough) passthrough_text current) request
  | none ↦
      if is_given (current_of (λ s. s.passthrough) current)
      then delete_slot id request
      else if is_given current
      then delete_slot id request
      else request
]

abbrev pub put_any_disk : Text → QemuStorage → Option QemuStorage → ℕ → ℕ → Request → Request
put_any_disk id storage current vm_id linked_vm_id request = elim storage.disk [
  | some disk ↦ put_disk id disk (current_of (λ s. s.disk) current) vm_id linked_vm_id request
  | none ↦
      if is_given (current_of (λ s. s.disk) current) && not (is_given storage.passthrough)
      then delete_slot id request
      else put_passthrough id storage current request
]

abbrev pub put_cloud_init : Text → QemuStorage → Option QemuStorage → ℕ → ℕ → Request → Request
put_cloud_init id storage current vm_id linked_vm_id request = elim storage.cloud_init [
  | some cloud_init ↦
      put_changed id (cloud_init_text cloud_init)
        (current_text (λ s. s.cloud_init) cloud_init_text current) request
  | none ↦
      if is_given (current_of (λ s. s.cloud_init) current)
        && not (is_given storage.disk)
        && not (is_given storage.passthrough)
      then delete_slot id request
      else put_any_disk id storage current vm_id linked_vm_id request
]

abbrev pub put_drive : Text → QemuStorage → Option QemuStorage → ℕ → ℕ → Request → Request
put_drive id storage current vm_id linked_vm_id request = elim storage.cd_rom [
  | some cd_rom ↦
      put_changed id (cd_rom_text cd_rom) (current_text (λ s. s.cd_rom) cd_rom_text current) request
  | none ↦
      if is_given (current_of (λ s. s.cd_rom) current)
        && not (is_given storage.cloud_init)
        && not (is_given storage.disk)
        && not (is_given storage.passthrough)
      then delete_slot id request
      else put_cloud_init id storage current vm_id linked_vm_id request
]

-- `qemuStorage.mapToApiValues`
unfoldable pub put_slot : Option QemuStorage → Option QemuStorage → ℕ → ℕ → Text → Request → Request
unfolding add_to_list
put_slot none current vm_id linked_vm_id id request = request
put_slot (some storage) current vm_id linked_vm_id id request =
    put_drive id storage current vm_id linked_vm_id request

pub record QemuDiskMark : Type 0 where
  pub format : Text
  pub id : Text
  pub size : ℕ
  pub storage : Text
  pub disk_type : DiskType

pub record QemuDiskResize : Type 0 where
  pub id : Text
  pub size_in_kibibytes : ℕ

pub record QemuDiskMove : Type 0 where
  pub format : Option Text
  pub id : Text
  pub storage : Text

pub record QemuUpdateChanges : Type 0 where
  pub moves : List QemuDiskMove
  pub resizes : List QemuDiskResize

abbrev pub mark_resize : QemuDiskMark → QemuDiskMark → Text → List QemuDiskResize
mark_resize disk current id =
    if ltb current.size disk.size
    then record { id = id; size_in_kibibytes = disk.size } ∷ []
    else []

abbrev pub mark_move : QemuDiskMark → QemuDiskMark → Text → List QemuDiskMove
mark_move disk current id =
    if not (text_eqb disk.storage current.storage) || not (text_eqb disk.format current.format)
    then record {
      format = if not (text_eqb disk.format current.format) then some disk.format else none;
      id = id;
      storage = disk.storage;
    }
      ∷ []
    else []

-- `qemuDiskMark.markChanges`
unfoldable pub mark_changes :
    Option QemuDiskMark → Option QemuDiskMark → Text → QemuUpdateChanges → QemuUpdateChanges
mark_changes (some disk) (some current) id changes =
    if leb current.size disk.size
    then record {
      moves = changes.moves ++ mark_move disk current id;
      resizes = changes.resizes ++ mark_resize disk current id;
    }
    else changes
mark_changes _ _ id changes = changes

abbrev pub add_delete : Bool → Dict Text Text → Dict Text Text
add_delete true params = insert (codes "delete") (codes "1") params
add_delete false params = params

abbrev pub add_format : Option Text → Dict Text Text → Dict Text Text
add_format none params = params
add_format (some format) params = insert (codes "format") format params

-- `qemuDiskMove.mapToApiValues`
unfoldable pub move_params : QemuDiskMove → Bool → Dict Text Text
move_params move delete =
    add_format move.format
      (add_delete delete ((codes "disk", move.id) ∷ (codes "storage", move.storage) ∷ []))

-- `qemuDiskMove.Validate`
unfoldable pub validate_move : QemuDiskMove → Option DiskError
validate_move move = first_error (
    elim move.format [ none ↦ none | some format ↦ validate_format format ]
    ∷ validate_id move.id
    ∷ [])
