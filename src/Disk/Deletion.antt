-- ===== src/Disk/Deletion.antt =====
-- What the update of a place deletes, and what it writes.
use proxmox_api_go.Base.{
  ℕ, Bool, true, false, ◌&&◌, not, leb, if◌then◌else◌, if_either, Option, none, some, ◌≡◌, refl,
  Text, text_eqb, Dict,
}
use proxmox_api_go.Disk.{QemuDisk}
use proxmox_api_go.Disk.CdRom.{QemuCdRom, QemuCloudInitDisk, cd_rom_text, cloud_init_text}
use proxmox_api_go.Disk.Slot.{
  update_text, creation_text, delete_slot, QemuStorage, Request, put_slot, put_changed, put_disk,
  put_drive, is_given, add_to_list, current_text, current_of, passthrough_text,
}
use proxmox_api_go.Disk.Unchanged.{is_used}

put_changed-deletes :
    (id text : Text) (current : Option Text) (params : Dict Text Text) (delete : Text)
    → (put_changed id text current (params, delete)).1 ≡ delete
put_changed-deletes id text none params delete = refl
put_changed-deletes id text (some current) params delete =
    if_either {A = Request} (λ r. r.1) (not (text_eqb text current)) refl refl

put_disk-deletes :
    (id : Text) (disk : QemuDisk) (current : Option QemuDisk) (vm_id linked : ℕ)
    (params : Dict Text Text) (delete : Text)
    → (put_disk id disk current vm_id linked (params, delete)).1 ≡ delete
put_disk-deletes id disk none vm_id linked params delete = refl
put_disk-deletes id disk (some current) vm_id linked params delete =
    let changed =
      update_text (record disk { id = current.id; linked_disk_id = current.linked_disk_id }) current
        vm_id linked in
    let now = update_text current current vm_id linked in
    if_either {A = Request} (λ r. r.1) {x = put_changed id changed (some now) (params, delete)}
      {y = put_changed id (creation_text disk vm_id) none (params, delete)}
      (leb current.size_in_kibibytes disk.size_in_kibibytes)
      (put_changed-deletes id changed (some now) params delete) refl

-- What is deleted beside what was before: the place, if it was there and has no drive now.
abbrev pub deleted : Text → QemuStorage → Option QemuStorage → Text → Text
deleted id s current delete =
    if is_used s then delete else if is_given current then add_to_list delete id else delete

second : (a b c : Bool) → (a && false && b && c) ≡ false
second true b c = refl
second false b c = refl

second_of_three : (a b : Bool) → (a && false && b) ≡ false
second_of_three true b = refl
second_of_three false b = refl

third : (a c : Bool) → (a && true && false && c) ≡ false
third true c = refl
third false c = refl

third_of_three : (a : Bool) → (a && true && false) ≡ false
third_of_three true = refl
third_of_three false = refl

fourth : (a : Bool) → (a && true && true && false) ≡ false
fourth true = refl
fourth false = refl

last_of_two : (a : Bool) → (a && false) ≡ false
last_of_two true = refl
last_of_two false = refl

put_drive-deletes :
    (c : Option QemuCdRom) (i : Option QemuCloudInitDisk) (d p : Option QemuDisk)
    (current : Option QemuStorage) (vm_id linked : ℕ) (id : Text) (params : Dict Text Text)
    (delete : Text)
    → (let s : QemuStorage = record { cd_rom = c; cloud_init = i; disk = d; passthrough = p } in
        (put_drive id s current vm_id linked (params, delete)).1 ≡ deleted id s current delete)
put_drive-deletes (some c) i d p current vm_id linked id params delete =
    put_changed-deletes id (cd_rom_text c) _ params delete
put_drive-deletes none (some i) d p current vm_id linked id params delete =
    rw
      (second (is_given (current_of (λ s. s.cd_rom) current)) (not (is_given d)) (not (is_given p)))
      (put_changed-deletes id (cloud_init_text i)
        (current_text (λ s. s.cloud_init) cloud_init_text current) params delete)
put_drive-deletes none none (some d) p current vm_id linked id params delete =
    rw
      (
        third (is_given (current_of (λ s. s.cd_rom) current)) (not (is_given p)),
        second_of_three (is_given (current_of (λ s. s.cloud_init) current)) (not (is_given p)),
      )
      (put_disk-deletes id d (current_of (λ s. s.disk) current) vm_id linked params delete)
put_drive-deletes none none none (some p) current vm_id linked id params delete =
    rw
      (
        fourth (is_given (current_of (λ s. s.cd_rom) current)),
        third_of_three (is_given (current_of (λ s. s.cloud_init) current)),
        last_of_two (is_given (current_of (λ s. s.disk) current)),
      )
      (put_changed-deletes id (passthrough_text p)
        (current_text (λ s. s.passthrough) passthrough_text current) params delete)
put_drive-deletes none none none none none vm_id linked id params delete = refl
put_drive-deletes none none none none (some current) vm_id linked id params delete =
    let cut : Request = delete_slot id (params, delete) in
    let out : Request → Text = λ r. r.1 in
    if_either out {x = cut} (is_given current.cd_rom && true && true && true) refl (
      if_either out {x = cut} (is_given current.cloud_init && true && true) refl (
        if_either out {x = cut} (is_given current.disk && true) refl
          (if_either out {x = cut} {y = cut} (is_given current.passthrough) refl refl)))

-- The update of a place puts it on the list of deletions exactly if it was there and has no drive now, and
-- leaves the list as it is otherwise; a place that is nil is not touched.
pub put_slot-deleted :
    (s : QemuStorage) (current : Option QemuStorage) (vm_id linked : ℕ) (id : Text)
    (params : Dict Text Text) (delete : Text)
    → ((put_slot (some s) current vm_id linked id (params, delete)).1 ≡ deleted id s current delete)
      × (put_slot none current vm_id linked id (params, delete) ≡ (params, delete))
unfolding put_slot
put_slot-deleted s current vm_id linked id params delete = (
  put_drive-deletes s.cd_rom s.cloud_init s.disk s.passthrough current vm_id linked id params
      delete,
  refl,
)
