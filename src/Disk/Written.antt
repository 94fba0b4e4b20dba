-- ===== src/Disk/Written.antt =====
-- The settings that `mapToApiValues` writes have no comma in their values.
use proxmox_api_go.Base.{
  ℕ, ◌+◌, ◌-◌, ◌/◌, ◌%◌, ◌^◌, ltb, Bool, true, false, ◌&&◌, nat_eqb, not, if_elim, arith, ◌≢◌,
  Option, none, some, ◌≡◌, refl, [], ◌∷◌, Text, codes, All, All-append, Lacks,
  Lacks-of_contains_byte, contains_byte, IsClean, IsDigits-Lacks, itoa, itoa-IsDigits, itoa_int,
}
use proxmox_api_go.Disk.{QemuDisk}
use proxmox_api_go.Disk.Limits.{
  Mbps, hundredths, format_float, trim_byte, trim_right, without_point, float_to_trimmed_string,
  mbps_setting, iops_setting, is_zero,
}
use proxmox_api_go.Disk.Request.{disk_settings, given, when, has_io_thread, is_virt_io}

itoa-Lacks_comma : (n : ℕ) → Lacks b',' (itoa n)
itoa-Lacks_comma n = IsDigits-Lacks b',' (itoa n) (omega arith) (itoa-IsDigits n)

pub itoa_int-Lacks_comma : (n : ℕ) → Lacks b',' (itoa_int n)
unfolding itoa_int
itoa_int-Lacks_comma n =
    if_elim (Lacks b',') (ltb n (2 ^ 63)) (itoa-Lacks_comma n)
      ((λ e. omega arith), itoa-Lacks_comma (2 ^ 64 - n))

trim_byte-Lacks : (b trimmed c : ℕ) (s : Text) → c ≢ b → Lacks b s → Lacks b (trim_byte trimmed c s)
trim_byte-Lacks b trimmed c [] h hs = if_elim (Lacks b) (nat_eqb c trimmed) tt (h, tt)
trim_byte-Lacks b trimmed c (d ∷ s) h hs = (h, hs)

trim_right-Lacks : (b trimmed : ℕ) (s : Text) → Lacks b s → Lacks b (trim_right trimmed s)
unfolding trim_right
trim_right-Lacks b trimmed [] h = tt
trim_right-Lacks b trimmed (c ∷ s) (h, hs) =
    trim_byte-Lacks b trimmed c (trim_right trimmed s) h (trim_right-Lacks b trimmed s hs)

without_point-Lacks : (b : ℕ) (s : Text) → Lacks b s → Lacks b (without_point s)
unfolding without_point
without_point-Lacks b [] h = tt
without_point-Lacks b (c ∷ []) h = if_elim (Lacks b) (nat_eqb c b'.') tt h
without_point-Lacks b (c ∷ d ∷ s) (h, hs) = (h, without_point-Lacks b (d ∷ s) hs)

format_float-Lacks_comma : (n : ℕ) → Lacks b',' (format_float n)
unfolding format_float
format_float-Lacks_comma n =
    All-append (λ c. c ≢ b',') (itoa (n / 100)) (b'.' ∷ (b'0' + n / 10 % 10) ∷ (b'0' + n % 10) ∷ [])
      (itoa-Lacks_comma (n / 100))
      ((λ e. omega arith), ((λ e. omega arith), ((λ e. omega arith), tt)))

float-Lacks_comma : (x : Mbps) → Lacks b',' (float_to_trimmed_string x)
unfolding float_to_trimmed_string
float-Lacks_comma x = without_point-Lacks b',' (trim_right b'0' (format_float (hundredths x))) (
    trim_right-Lacks b',' b'0' (format_float (hundredths x))
      (format_float-Lacks_comma (hundredths x)))

abbrev pub LacksIfGiven : Option Text → Type 0
LacksIfGiven none = Unit
LacksIfGiven (some v) = Lacks b',' v

pub clean :
    (key : Text) (v : Option Text)
    → contains_byte b'=' key ≡ false
    → contains_byte b',' key ≡ false
    → LacksIfGiven v
    → IsClean (key, v)
clean key none e c h = (Lacks-of_contains_byte b'=' key e, Lacks-of_contains_byte b',' key c)
clean key (some v) e c h = (Lacks-of_contains_byte b'=' key e, Lacks-of_contains_byte b',' key c, h)

given-Lacks : (t : Text) → Lacks b',' t → LacksIfGiven (given t)
given-Lacks [] h = tt
given-Lacks (c ∷ t) h = h

when-Lacks : (b : Bool) (t : Text) → contains_byte b',' t ≡ false → LacksIfGiven (when b t)
when-Lacks true t h = Lacks-of_contains_byte b',' t h
when-Lacks false t h = tt

iops-Lacks : (n : ℕ) → LacksIfGiven (iops_setting n)
iops-Lacks n = if_elim LacksIfGiven (not (nat_eqb n 0)) (itoa_int-Lacks_comma n) tt

mbps-Lacks : (x : Mbps) → LacksIfGiven (mbps_setting x)
mbps-Lacks x = if_elim LacksIfGiven (not (is_zero x)) (float-Lacks_comma x) tt

-- The settings of a disk that are texts have no comma.
abbrev pub HasPlainSettings : QemuDisk → Type 0
HasPlainSettings disk =
    Lacks b',' disk.async_io
    × Lacks b',' disk.cache
    × Lacks b',' disk.serial
    × Lacks b',' disk.world_wide_name

pub disk_settings-IsClean :
    (disk : QemuDisk) → HasPlainSettings disk → All IsClean (disk_settings disk false)
unfolding disk_settings
disk_settings-IsClean disk (async_io, cache, serial, wwn) = (
  clean (codes "aio") (given disk.async_io) refl refl (given-Lacks disk.async_io async_io),
  (
    clean (codes "backup") (when (not disk.backup) (codes "0")) refl refl
        (when-Lacks (not disk.backup) (codes "0") refl),
    (
      clean (codes "cache") (given disk.cache) refl refl (given-Lacks disk.cache cache),
      (
        clean (codes "discard") (when disk.discard (codes "on")) refl refl
            (when-Lacks disk.discard (codes "on") refl),
        (
          clean (codes "format") none refl refl tt,
          (
            clean (codes "iops_rd") (iops_setting disk.bandwidth.iops_read.concurrent) refl refl
                (iops-Lacks disk.bandwidth.iops_read.concurrent),
            (
              clean (codes "iops_rd_max") (iops_setting disk.bandwidth.iops_read.burst) refl refl
                  (iops-Lacks disk.bandwidth.iops_read.burst),
              (
                clean (codes "iops_rd_max_length")
                    (iops_setting disk.bandwidth.iops_read.burst_duration) refl refl
                    (iops-Lacks disk.bandwidth.iops_read.burst_duration),
                (
                  clean (codes "iops_wr") (iops_setting disk.bandwidth.iops_write.concurrent) refl
                      refl (iops-Lacks disk.bandwidth.iops_write.concurrent),
                  (
                    clean (codes "iops_wr_max") (iops_setting disk.bandwidth.iops_write.burst) refl
                        refl (iops-Lacks disk.bandwidth.iops_write.burst),
                    (
                      clean (codes "iops_wr_max_length")
                          (iops_setting disk.bandwidth.iops_write.burst_duration) refl refl
                          (iops-Lacks disk.bandwidth.iops_write.burst_duration),
                      (
                        clean (codes "iothread")
                            (when (has_io_thread disk.disk_type && disk.io_thread) (codes "1")) refl
                            refl
                            (when-Lacks (has_io_thread disk.disk_type && disk.io_thread) (codes "1")
                              refl),
                        (
                          clean (codes "mbps_rd") (mbps_setting disk.bandwidth.mbps_read.concurrent)
                              refl refl (mbps-Lacks disk.bandwidth.mbps_read.concurrent),
                          (
                            clean (codes "mbps_rd_max")
                                (mbps_setting disk.bandwidth.mbps_read.burst) refl refl
                                (mbps-Lacks disk.bandwidth.mbps_read.burst),
                            (
                              clean (codes "mbps_wr")
                                  (mbps_setting disk.bandwidth.mbps_write.concurrent) refl refl
                                  (mbps-Lacks disk.bandwidth.mbps_write.concurrent),
                              (
                                clean (codes "mbps_wr_max")
                                    (mbps_setting disk.bandwidth.mbps_write.burst) refl refl
                                    (mbps-Lacks disk.bandwidth.mbps_write.burst),
                                (
                                  clean (codes "replicate") (when (not disk.replicate) (codes "0"))
                                      refl refl (when-Lacks (not disk.replicate) (codes "0") refl),
                                  (
                                    clean (codes "ro")
                                        (when (has_io_thread disk.disk_type && disk.read_only)
                                          (codes "1"))
                                        refl refl
                                        (when-Lacks (has_io_thread disk.disk_type && disk.read_only)
                                          (codes "1") refl),
                                    (
                                      clean (codes "serial") (given disk.serial) refl refl
                                          (given-Lacks disk.serial serial),
                                      (
                                        clean (codes "ssd")
                                            (when
                                              (not (is_virt_io disk.disk_type) && disk.emulate_ssd)
                                              (codes "1"))
                                            refl refl
                                            (when-Lacks
                                              (not (is_virt_io disk.disk_type) && disk.emulate_ssd)
                                              (codes "1") refl),
                                        (
                                          clean (codes "wwn") (given disk.world_wide_name) refl refl
                                              (given-Lacks disk.world_wide_name wwn),
                                          tt,
                                        ),
                                      ),
                                    ),
                                  ),
                                ),
                              ),
                            ),
                          ),
                        ),
                      ),
                    ),
                  ),
                ),
              ),
            ),
          ),
        ),
      ),
    ),
  ),
)
