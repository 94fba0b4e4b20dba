-- ===== src/Disk/Ids.antt =====
-- The names of disks that `QemuDiskId.Validate` takes.
use proxmox_api_go.Base.{
  ℕ, zero, suc, ◌<◌, ◌-◌, ◌^◌, Bool, true, false, ◌&&◌, not, arith, ltb, leb, ltb→lt, Option, none,
  some, ◌≡◌, refl, ◌↔◌, inl, inr, List, [], ◌∷◌, ◌++◌, Text, codes, text_eqb, Bool-cases, itoa,
  itoa-ne-nil, parse_int, parse_int-itoa, ◌≤◌, ◌≢◌, All, if_elim,
}
use proxmox_api_go.Disk.Validation.{
  DiskError, id_invalid, validate_id, behind, id_check, ide_check, number_check, starts_with_zero,
  first_answer,
}
use proxmox_api_go.Disk.Drives.{slot_id}
use proxmox_api_go.Disk.Ide.{ide_bus}
use proxmox_api_go.Disk.Sata.{sata_bus}
use proxmox_api_go.Disk.Scsi.{scsi_bus}
use proxmox_api_go.Disk.VirtIo.{virt_io_bus}

abbrev is_accepted : Option DiskError → Bool
is_accepted none = true
is_accepted (some e) = false

abbrev all_below : ℕ → (ℕ → Bool) → Bool
all_below zero p = true
all_below (suc n) p = p n && all_below n p

below : (n i : ℕ) (p : ℕ → Bool) → all_below n p ≡ true → i < n → p i ≡ true
below zero i p h less = absurd (omega arith)
below (suc n) i p h less = elim (Bool-cases (ltb i n)) [
  | inl earlier ↦ below n i p (ground arith) (omega (arith, ltb→lt i n earlier))
  | inr last ↦ let same : i ≡ n = ground arith in rw same (ground arith)
]

none_of : (o : Option DiskError) → is_accepted o ≡ true → o ≡ none
none_of none h = refl
none_of (some e) h = cc

accepted_below :
    (n i : ℕ) (name : Text)
    → all_below n (λ k. is_accepted (validate_id (name ++ itoa k))) ≡ true
    → i < n
    → validate_id (name ++ itoa i) ≡ none
accepted_below n i name h less =
    none_of _ (below n i (λ k. is_accepted (validate_id (name ++ itoa k))) h less)

ide_below : (i : ℕ) → i < 4 → validate_id (slot_id ide_bus i) ≡ none
unfolding validate_id behind itoa parse_int
ide_below i = accepted_below 4 i (codes "ide") refl

sata_below : (i : ℕ) → i < 6 → validate_id (slot_id sata_bus i) ≡ none
unfolding validate_id behind itoa parse_int
sata_below i = accepted_below 6 i (codes "sata") refl

scsi_below : (i : ℕ) → i < 31 → validate_id (slot_id scsi_bus i) ≡ none
unfolding validate_id behind itoa parse_int
scsi_below i = accepted_below 31 i (codes "scsi") refl

virt_io_below : (i : ℕ) → i < 16 → validate_id (slot_id virt_io_bus i) ≡ none
unfolding validate_id behind itoa parse_int
virt_io_below i = accepted_below 16 i (codes "virtio") refl

-- Whatever the number, a text that is above the last one is not accepted.
abbrev refused : Option (Option DiskError) → Bool
refused none = true
refused (some none) = false
refused (some (some e)) = true

number_above : (most i : ℕ) → most < i → refused (number_check most (some (false, i))) ≡ true
number_above most i above = ground arith

number_check-itoa :
    (most i : ℕ) → most < i → refused (number_check most (parse_int (itoa i))) ≡ true
number_check-itoa most i above = rw (parse_int-itoa i) (
    if_elim (λ r. refused (number_check most r) ≡ true) (leb i (2 ^ 63 - 1))
      (number_above most i above) refl)

id_check-refused :
    (most : ℕ) (t : Text)
    → t ≢ []
    → refused (number_check most (parse_int t)) ≡ true
    → refused (id_check most (some t)) ≡ true
id_check-refused most [] ne h = absurd (ne refl)
id_check-refused most (c ∷ s) ne h =
    if_elim (λ r. refused r ≡ true) (not (text_eqb (c ∷ s) (codes "0")) && starts_with_zero (c ∷ s))
      refl h

ide_check-refused :
    (t : Text) → refused (number_check 3 (parse_int t)) ≡ true → refused (ide_check (some t)) ≡ true
ide_check-refused [] h = refl
ide_check-refused (c ∷ []) h = h
ide_check-refused (c ∷ d ∷ s) h = refl

refused_first :
    (r : Option (Option DiskError)) (after : List (Option (Option DiskError)))
    → refused r ≡ true
    → All (λ c. c ≡ none) after
    → first_answer (r ∷ after) ≢ none
refused_first none [] h _ = λ e. cc
refused_first none (none ∷ after) h (_, hs) = refused_first none after h hs
refused_first none (some c ∷ after) h (e, hs) = absurd cc
refused_first (some none) after h _ = absurd cc
refused_first (some (some e)) after h _ = λ f. cc

above-ide : (i : ℕ) → 3 < i → validate_id (slot_id ide_bus i) ≢ none
unfolding validate_id behind
above-ide i h =
    refused_first (ide_check (some (itoa i))) []
      (ide_check-refused (itoa i) (number_check-itoa 3 i h)) tt

above-sata : (i : ℕ) → 5 < i → validate_id (slot_id sata_bus i) ≢ none
unfolding validate_id behind
above-sata i h =
    refused_first (id_check 5 (some (itoa i))) (none ∷ none ∷ [])
      (id_check-refused 5 (itoa i) (itoa-ne-nil i) (number_check-itoa 5 i h)) (refl, (refl, tt))

above-scsi : (i : ℕ) → 30 < i → validate_id (slot_id scsi_bus i) ≢ none
unfolding validate_id behind
above-scsi i h =
    refused_first (id_check 30 (some (itoa i))) (none ∷ [])
      (id_check-refused 30 (itoa i) (itoa-ne-nil i) (number_check-itoa 30 i h)) (refl, tt)

above-virt_io : (i : ℕ) → 15 < i → validate_id (slot_id virt_io_bus i) ≢ none
unfolding validate_id behind
above-virt_io i h =
    refused_first (id_check 15 (some (itoa i))) (none ∷ none ∷ none ∷ [])
      (id_check-refused 15 (itoa i) (itoa-ne-nil i) (number_check-itoa 15 i h))
      (refl, (refl, (refl, tt)))

accepted_iff :
    (n i : ℕ) (v : Option DiskError)
    → (i < n → v ≡ none)
    → (n ≤ i → v ≢ none)
    → (v ≡ none) ↔ (i < n)
accepted_iff n i v low high = elim (Bool-cases (ltb i n)) [
  | inl below ↦ (λ h. ltb→lt i n below, low)
  | inr above ↦ (λ h. absurd (high (ground arith) h), low)
]

-- The name of a place is accepted exactly if the bus has that place.
pub validate_id-slot_id :
    (i : ℕ)
    → ((validate_id (slot_id ide_bus i) ≡ none) ↔ (i < 4))
      × ((validate_id (slot_id sata_bus i) ≡ none) ↔ (i < 6))
      × ((validate_id (slot_id scsi_bus i) ≡ none) ↔ (i < 31))
      × ((validate_id (slot_id virt_io_bus i) ≡ none) ↔ (i < 16))
validate_id-slot_id i = (
  accepted_iff 4 i _ (ide_below i) (above-ide i),
  accepted_iff 6 i _ (sata_below i) (above-sata i),
  accepted_iff 31 i _ (scsi_below i) (above-scsi i),
  accepted_iff 16 i _ (virt_io_below i) (above-virt_io i),
)

is_id_invalid : Option DiskError → Bool
is_id_invalid (some id_invalid) = true
is_id_invalid _ = false

id_invalid_of : (o : Option DiskError) → is_id_invalid o ≡ true → o ≡ some id_invalid
unfolding is_id_invalid
id_invalid_of (some id_invalid) h = refl
id_invalid_of o h = cc

refused_with_zero : (i : ℕ) → i < 6 → validate_id (codes "sata0" ++ itoa i) ≡ some id_invalid
unfolding validate_id behind itoa parse_int is_id_invalid
refused_with_zero i less =
    id_invalid_of _
      (below 6 i (λ k. is_id_invalid (validate_id (codes "sata0" ++ itoa k))) refl less)

-- For each number of a SATA disk, the text with a plus sign and a zero in front is accepted, and the
-- text with the zero alone in front is refused.
pub validate_id_with_sign :
    (i : ℕ)
    → i < 6
    → (validate_id (codes "sata+0" ++ itoa i) ≡ none)
      × (validate_id (codes "sata0" ++ itoa i) ≡ some id_invalid)
unfolding validate_id behind itoa parse_int
validate_id_with_sign i less =
    (accepted_below 6 i (codes "sata+0") refl less, refused_with_zero i less)
