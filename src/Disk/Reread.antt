-- ===== src/Disk/Reread.antt =====
-- A disk that is written into an update, and read again.
use proxmox_api_go.Base.{
  ℕ, ◌<◌, ◌^◌, nat_eqb, Bool, true, false, not, ◌&&◌, Bool-cases, inl, inr, arith, Option, ◌≡◌,
  refl, ap, ◌∙◌, [], ◌∷◌, ◌++◌, Text, codes, text_eqb, text_eq, text_eqb_iff, Lacks, contains_byte,
  split_first, uint_atoi-itoa_int, find,
}
use proxmox_api_go.Disk.{QemuDisk, ide}
use proxmox_api_go.Disk.Limits.{Mbps, iops_setting, mbps_setting}
use proxmox_api_go.Disk.Request.{disk_settings, given, when, has_io_thread, is_virt_io}
use proxmox_api_go.Disk.Answer.{
  ParsedDisk, disk_of, text_or_empty, bool_or, is_on, number_or_zero, mbps_or_zero,
}
use proxmox_api_go.GuestAgent.{parse_bool}

given_back : (t : Text) → text_or_empty (given t) ≡ t
given_back [] = refl
given_back (c ∷ t) = refl

not_zero_back : (b : Bool) → bool_or true (when (not b) (codes "0")) ≡ b
unfolding parse_bool
not_zero_back true = refl
not_zero_back false = refl

one_back : (b : Bool) → bool_or false (when b (codes "1")) ≡ b
unfolding parse_bool
one_back true = refl
one_back false = refl

on_back : (b : Bool) → is_on (when b (codes "on")) ≡ b
on_back true = refl
on_back false = refl

iops_back : (n : ℕ) → n < 2 ^ 64 → number_or_zero (iops_setting n) ≡ n
iops_back n fits = elim (Bool-cases (nat_eqb n 0)) [
  | inl zero ↦ rw zero (ground arith)
  | inr other ↦ rw other (uint_atoi-itoa_int n fits)
]

-- A text with a colon is no key.
pub other_key :
    (t k : Text) → contains_byte b':' t ≡ true → contains_byte b':' k ≡ false → text_eqb t k ≡ false
other_key t k colon plain = elim (Bool-cases (text_eqb t k)) [
  | inl same ↦ let e : t ≡ k = (text_eqb_iff t k).0 same in absurd cc
  | inr different ↦ different
]

pub first_key :
    (storage path : Text)
    → Lacks b'=' storage
    → contains_byte b':' (split_first b'=' (storage ++ b':' ∷ path)).0 ≡ true
unfolding split_first
first_key [] path h = refl
first_key (c ∷ storage) path (h, hs) = ground (arith, first_key storage path hs)

-- The limits that are written as uints.
abbrev pub IopsFit : QemuDisk → Type 0
IopsFit disk =
    let read = disk.bandwidth.iops_read in
    let write = disk.bandwidth.iops_write in
    (read.burst < 2 ^ 64)
    × (read.burst_duration < 2 ^ 64)
    × (read.concurrent < 2 ^ 64)
    × (write.burst < 2 ^ 64)
    × (write.burst_duration < 2 ^ 64)
    × (write.concurrent < 2 ^ 64)

module _ (read_mbps : Text → Mbps) where
  -- The disk that is read of the settings of a disk and of its volume. The megabytes are those that
  -- `read_mbps` reads of their texts. The size is not in the settings.
  abbrev pub reread : QemuDisk → ParsedDisk → QemuDisk
  reread disk parsed = record {
    async_io = disk.async_io;
    backup = disk.backup;
    bandwidth = record {
      mbps_read = record {
        burst = mbps_or_zero read_mbps (mbps_setting disk.bandwidth.mbps_read.burst);
        concurrent = mbps_or_zero read_mbps (mbps_setting disk.bandwidth.mbps_read.concurrent);
      };
      mbps_write = record {
        burst = mbps_or_zero read_mbps (mbps_setting disk.bandwidth.mbps_write.burst);
        concurrent = mbps_or_zero read_mbps (mbps_setting disk.bandwidth.mbps_write.concurrent);
      };
      iops_read = disk.bandwidth.iops_read;
      iops_write = disk.bandwidth.iops_write;
    };
    cache = disk.cache;
    discard = disk.discard;
    is_disk = false;
    emulate_ssd = not (is_virt_io disk.disk_type) && disk.emulate_ssd;
    file = [];
    syntax = parsed.syntax;
    format = parsed.format;
    id = parsed.id;
    io_thread = has_io_thread disk.disk_type && disk.io_thread;
    linked_disk_id = parsed.linked_disk_id;
    read_only = has_io_thread disk.disk_type && disk.read_only;
    replicate = disk.replicate;
    serial = disk.serial;
    size_in_kibibytes = 0;
    storage = parsed.storage;
    disk_type = ide;
    world_wide_name = disk.world_wide_name;
  }

  pub disk_of-settings :
      (disk : QemuDisk) (parsed : ParsedDisk) (setting : Text → Option Text)
      → IopsFit disk
      → ((k : Text) → contains_byte b':' k ≡ false → setting k ≡ find k (disk_settings disk false))
      → disk_of read_mbps [] parsed setting 0 ≡ reread disk parsed
  unfolding disk_settings
  disk_of-settings disk parsed setting (rb, rd, rc, wb, wd, wc) found = λ i. record {
    async_io = (ap text_or_empty (found (codes "aio") refl) ∙ given_back disk.async_io) i;
    backup = (ap (bool_or true) (found (codes "backup") refl) ∙ not_zero_back disk.backup) i;
    bandwidth = record {
      mbps_read = record {
        burst = mbps_or_zero read_mbps (found (codes "mbps_rd_max") refl i);
        concurrent = mbps_or_zero read_mbps (found (codes "mbps_rd") refl i);
      };
      mbps_write = record {
        burst = mbps_or_zero read_mbps (found (codes "mbps_wr_max") refl i);
        concurrent = mbps_or_zero read_mbps (found (codes "mbps_wr") refl i);
      };
      iops_read = record {
        burst =
            (ap number_or_zero (found (codes "iops_rd_max") refl)
                ∙ iops_back disk.bandwidth.iops_read.burst rb)
              i;
        burst_duration =
            (ap number_or_zero (found (codes "iops_rd_max_length") refl)
                ∙ iops_back disk.bandwidth.iops_read.burst_duration rd)
              i;
        concurrent =
            (ap number_or_zero (found (codes "iops_rd") refl)
                ∙ iops_back disk.bandwidth.iops_read.concurrent rc)
              i;
      };
      iops_write = record {
        burst =
            (ap number_or_zero (found (codes "iops_wr_max") refl)
                ∙ iops_back disk.bandwidth.iops_write.burst wb)
              i;
        burst_duration =
            (ap number_or_zero (found (codes "iops_wr_max_length") refl)
                ∙ iops_back disk.bandwidth.iops_write.burst_duration wd)
              i;
        concurrent =
            (ap number_or_zero (found (codes "iops_wr") refl)
                ∙ iops_back disk.bandwidth.iops_write.concurrent wc)
              i;
      };
    };
    cache = (ap text_or_empty (found (codes "cache") refl) ∙ given_back disk.cache) i;
    discard = (ap is_on (found (codes "discard") refl) ∙ on_back disk.discard) i;
    is_disk = false;
    emulate_ssd =
        (ap (bool_or false) (found (codes "ssd") refl)
            ∙ one_back (not (is_virt_io disk.disk_type) && disk.emulate_ssd))
          i;
    file = [];
    syntax = parsed.syntax;
    format = parsed.format;
    id = parsed.id;
    io_thread =
        (ap (bool_or false) (found (codes "iothread") refl)
            ∙ one_back (has_io_thread disk.disk_type && disk.io_thread))
          i;
    linked_disk_id = parsed.linked_disk_id;
    read_only =
        (ap (bool_or false) (found (codes "ro") refl)
            ∙ one_back (has_io_thread disk.disk_type && disk.read_only))
          i;
    replicate =
        (ap (bool_or true) (found (codes "replicate") refl) ∙ not_zero_back disk.replicate) i;
    serial = (ap text_or_empty (found (codes "serial") refl) ∙ given_back disk.serial) i;
    size_in_kibibytes = 0;
    storage = parsed.storage;
    disk_type = ide;
    world_wide_name =
        (ap text_or_empty (found (codes "wwn") refl) ∙ given_back disk.world_wide_name) i;
  }
