-- ===== src/Disk/Growth.antt =====
-- The resizes of `markDiskChanges`.
use proxmox_api_go.Base.{
  ℕ, ◌<◌, nat_eq, leb, ltb, Bool-cases, ltb→lt, Option, none, some, ◌≡◌, refl, inl, inr, List, [],
  ◌∷◌, Dict, lookup, All, All-append,
}
use proxmox_api_go.Disk.Slot.{
  QemuDiskMark, QemuDiskResize, QemuUpdateChanges, mark_changes, mark_resize,
}
use proxmox_api_go.Disk.Drives.{
  Bus, Storage, slot_id, mark_slots, mark_disk_changes, convert_data_structure_mark, current_disks,
}
use proxmox_api_go.Base.{Text}

mark_resize-All :
    (P : QemuDiskResize → Type 0) (disk current : QemuDiskMark) (id : Text)
    → (current.size < disk.size → P (record { id = id; size_in_kibibytes = disk.size }))
    → All P (mark_resize disk current id)
mark_resize-All P disk current id h = elim (Bool-cases (ltb current.size disk.size)) [
  | inl more ↦ rw more (h (ltb→lt current.size disk.size more), tt)
  | inr less ↦ rw less tt
]

mark_changes-All :
    (P : QemuDiskResize → Type 0) (disk current : Option QemuDiskMark) (id : Text)
    (changes : QemuUpdateChanges)
    → ((d c : QemuDiskMark)
        → disk ≡ some d
        → current ≡ some c
        → c.size < d.size
        → P (record { id = id; size_in_kibibytes = d.size }))
    → All P changes.resizes
    → All P (mark_changes disk current id changes).resizes
unfolding mark_changes
mark_changes-All P none current id changes h before = before
mark_changes-All P (some d) none id changes h before = before
mark_changes-All P (some d) (some c) id changes h before = elim (Bool-cases (leb c.size d.size)) [
  | inl most ↦ rw most (
      All-append P changes.resizes (mark_resize d c id) before
        (mark_resize-All P d c id (h d c refl refl)))
  | inr shrunk ↦ rw shrunk before
]

module _ {D P : Type 0} (bus : Bus D P) where
  -- A resize gives a disk of the bus a size that is above its current one.
  abbrev pub Grows : Dict ℕ (Storage D P) → Dict ℕ (Storage D P) → QemuDiskResize → Type 0
  Grows disks current r =
      (i : ℕ) × (d : QemuDiskMark) × (c : QemuDiskMark) × (convert_data_structure_mark bus
          (lookup i disks)
        ≡ some d)
      × (convert_data_structure_mark bus (lookup i current) ≡ some c)
      × (c.size < d.size)
      × (r ≡ record { id = slot_id bus i; size_in_kibibytes = d.size })

  mark_slots-All :
      (order : List ℕ) (disks current : Dict ℕ (Storage D P)) (changes : QemuUpdateChanges)
      → All (Grows disks current) changes.resizes
      → All (Grows disks current) (mark_slots bus order disks current changes).resizes
  mark_slots-All [] disks current changes h = h
  mark_slots-All (i ∷ order) disks current changes h = mark_slots-All order disks current _ (
      mark_changes-All (Grows disks current) (convert_data_structure_mark bus (lookup i disks))
        (convert_data_structure_mark bus (lookup i current)) (slot_id bus i) changes
        (λ d c e f more. (i, d, c, e, f, more, refl)) h)

  -- Every resize of `markDiskChanges` is one of a disk that is there in both, to a size above the current one.
  pub mark_disk_changes-Grows :
      (order : List ℕ) (disks : Dict ℕ (Storage D P)) (current : Option (Dict ℕ (Storage D P)))
      → All
          (Grows disks (current_disks bus current))
          (mark_disk_changes bus order disks current (record { moves = []; resizes = [] })).resizes
  unfolding mark_disk_changes
  mark_disk_changes-Grows order disks current =
      mark_slots-All order disks (current_disks bus current) (record { moves = []; resizes = [] })
        tt
