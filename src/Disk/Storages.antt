-- ===== src/Disk/Storages.antt =====
-- `QemuStorages` of proxmox/config_qemu_disk.go: the drives of the four buses together. A bus that is nil
-- is `none`, and `Orders` has the order in which Go goes through the places of each.
use proxmox_api_go.Base.{
  ℕ, ◌&&◌, ◌||◌, not, if◌then◌else◌, Option, none, some, ◌>>=◌, ◌⊎◌, inl, inr, List, [], ◌∷◌, ◌++◌,
  Text, text_eqb, Dict,
}
use proxmox_api_go.Disk.Limits.{Mbps}
use proxmox_api_go.Disk.Validation.{DiskError}
use proxmox_api_go.Disk.Drives.{and_given}
use proxmox_api_go.Disk.Slot.{is_given, Request, QemuDiskResize, QemuUpdateChanges}
use proxmox_api_go.Disk.Ide as Ide
use proxmox_api_go.Disk.Sata as Sata
use proxmox_api_go.Disk.Scsi as Scsi
use proxmox_api_go.Disk.VirtIo as VirtIo

pub record QemuStorages : Type 0 where
  pub ide : Option Ide.QemuIdeDisks
  pub sata : Option Sata.QemuSataDisks
  pub scsi : Option Scsi.QemuScsiDisks
  pub virt_io : Option VirtIo.QemuVirtIoDisks

pub record Orders : Type 0 where
  pub ide : List ℕ
  pub sata : List ℕ
  pub scsi : List ℕ
  pub virt_io : List ℕ

abbrev pub if_given : {A B : Type 0} → Option A → (A → B) → B → B
if_given none f other = other
if_given (some x) f other = f x

abbrev pub or_text : Text → Text → Text
or_text [] other = other
or_text (c ∷ s) other = c ∷ s

-- `listCloudInitDisk`
unfoldable pub list_cloud_init_disk : Orders → QemuStorages → Text
list_cloud_init_disk orders storages =
    or_text (if_given storages.ide (Ide.list_cloud_init_disk orders.ide) []) (
      or_text (if_given storages.sata (Sata.list_cloud_init_disk orders.sata) []) (
        or_text (if_given storages.scsi (Scsi.list_cloud_init_disk orders.scsi) [])
          (if_given storages.virt_io (VirtIo.list_cloud_init_disk orders.virt_io) [])))

-- `cloudInitRemove`
unfoldable pub cloud_init_remove : Orders → Orders → QemuStorages → QemuStorages → Text
cloud_init_remove orders current_orders storages current_storages =
    let new = list_cloud_init_disk orders storages in
    let current = list_cloud_init_disk current_orders current_storages in
    if not (text_eqb new []) && not (text_eqb current []) && not (text_eqb new current)
    then current
    else []

-- `mapToApiValues`
unfoldable pub map_to_api_values :
    Orders → QemuStorages → QemuStorages → ℕ → ℕ → Dict Text Text → Request
map_to_api_values orders storages current vm_id linked_vm_id params =
    let ide =
      if_given storages.ide
        (λ d. Ide.map_to_api_values orders.ide d current.ide vm_id linked_vm_id (params, []))
        (params, []) in
    let sata =
      if_given storages.sata
        (λ d. Sata.map_to_api_values orders.sata d current.sata vm_id linked_vm_id ide) ide in
    let scsi =
      if_given storages.scsi
        (λ d. Scsi.map_to_api_values orders.scsi d current.scsi vm_id linked_vm_id sata) sata in
    if_given storages.virt_io
      (λ d. VirtIo.map_to_api_values orders.virt_io d current.virt_io vm_id linked_vm_id scsi) scsi

abbrev pub any_given : QemuStorages → Option QemuStorages
any_given storages =
    if is_given storages.ide
      || is_given storages.sata
      || is_given storages.scsi
      || is_given storages.virt_io
    then some storages
    else none

-- `mapToStruct`, with the number behind the pointer; `none` is a panic.
unfoldable pub map_to_struct : (Text → Mbps) → Dict Text Text → ℕ → Option (Option QemuStorages × ℕ)
map_to_struct read_mbps params linked = do
  ide ← Ide.map_to_struct read_mbps params linked
  sata ← Sata.map_to_struct read_mbps params ide.1
  scsi ← Scsi.map_to_struct read_mbps params sata.1
  virt_io ← VirtIo.map_to_struct read_mbps params scsi.1
  some (
    any_given (record { ide = ide.0; sata = sata.0; scsi = scsi.0; virt_io = virt_io.0 }),
    virt_io.1,
  )

-- `markDiskChanges`
unfoldable pub mark_disk_changes : Orders → QemuStorages → QemuStorages → QemuUpdateChanges
mark_disk_changes orders storages current =
    let start : QemuUpdateChanges = record { moves = []; resizes = [] } in
    let ide =
      if_given storages.ide (λ d. Ide.mark_disk_changes orders.ide d current.ide start) start in
    let sata =
      if_given storages.sata (λ d. Sata.mark_disk_changes orders.sata d current.sata ide) ide in
    let scsi =
      if_given storages.scsi (λ d. Scsi.mark_disk_changes orders.scsi d current.scsi sata) sata in
    if_given storages.virt_io (λ d. VirtIo.mark_disk_changes orders.virt_io d current.virt_io scsi)
      scsi

abbrev pub no_storages : QemuStorages
no_storages = record { ide = none; sata = none; scsi = none; virt_io = none }

abbrev pub or_no_storages : Option QemuStorages → QemuStorages
or_no_storages none = no_storages
or_no_storages (some storages) = storages

-- `selectInitialResize`; without current drives each bus is compared with nil.
unfoldable pub select_initial_resize :
    Orders → QemuStorages → Option QemuStorages → List QemuDiskResize
select_initial_resize orders storages current_storages =
    let current = or_no_storages current_storages in
    if_given storages.ide (λ d. Ide.select_initial_resize orders.ide d current.ide) []
    ++ (if_given storages.sata (λ d. Sata.select_initial_resize orders.sata d current.sata) []
        ++ (if_given storages.scsi (λ d. Scsi.select_initial_resize orders.scsi d current.scsi) []
            ++ if_given storages.virt_io
                (λ d. VirtIo.select_initial_resize orders.virt_io d current.virt_io) []))

-- The number of the cloud-init drives, or the first error.
unfoldable pub validate_count : Orders → QemuStorages → DiskError ⊎ ℕ
validate_count orders storages = and_given storages.ide (Ide.validate orders.ide) 0 (λ i.
    and_given storages.sata (Sata.validate orders.sata) i (λ j.
      and_given storages.scsi (Scsi.validate orders.scsi) j
        (λ k. and_given storages.virt_io (VirtIo.validate orders.virt_io) k (λ n. inr n))))

abbrev pub error_of : DiskError ⊎ ℕ → Option DiskError
error_of (inl e) = some e
error_of (inr n) = none

-- `Validate`
unfoldable pub validate : Orders → QemuStorages → Option DiskError
unfolding validate_count
validate orders storages = error_of (validate_count orders storages)
