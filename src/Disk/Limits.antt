-- ===== src/Disk/Limits.antt =====
-- The limits of the bandwidth of a disk. A number of megabytes per second is a float32; a finite one
-- that is not negative is a whole number over a power of two.
use proxmox_api_go.Base.{
  ℕ, suc, ◌+◌, ◌*◌, ◌/◌, ◌%◌, ◌^◌, Bool, ◌&&◌, ◌||◌, not, ltb, nat_eqb, if◌then◌else◌, Option, none,
  some, [], ◌∷◌, ◌++◌, Text, itoa, itoa_int,
}

-- `numerator / 2 ^ shift`
pub record Mbps : Type 0 where
  pub numerator : ℕ
  pub shift : ℕ

abbrev pub is_zero : Mbps → Bool
is_zero x = nat_eqb x.numerator 0

pub record MbpsLimit : Type 0 where
  pub burst : Mbps
  pub concurrent : Mbps

pub record IopsLimit : Type 0 where
  pub burst : ℕ
  pub burst_duration : ℕ
  pub concurrent : ℕ

pub record Bandwidth : Type 0 where
  pub mbps_read : MbpsLimit
  pub mbps_write : MbpsLimit
  pub iops_read : IopsLimit
  pub iops_write : IopsLimit

-- The nearest number of hundredths; where two are as near, the even one.
unfoldable pub hundredths : Mbps → ℕ
hundredths x =
    let whole = 100 * x.numerator / 2 ^ x.shift in
    let twice_rest = 2 * (100 * x.numerator % 2 ^ x.shift) in
    if ltb (2 ^ x.shift) twice_rest || nat_eqb (2 ^ x.shift) twice_rest && nat_eqb (whole % 2) 1
    then suc whole
    else whole

-- `strconv.FormatFloat(f, 'f', 2, 64)`
unfoldable pub format_float : ℕ → Text
format_float h = itoa (h / 100) ++ b'.' ∷ (b'0' + h / 10 % 10) ∷ (b'0' + h % 10) ∷ []

-- `strings.TrimRight`, of one byte.
abbrev pub trim_byte : ℕ → ℕ → Text → Text
trim_byte b c [] = if nat_eqb c b then [] else c ∷ []
trim_byte b c (d ∷ t) = c ∷ d ∷ t

unfoldable pub trim_right : ℕ → Text → Text
trim_right b [] = []
trim_right b (c ∷ s) = trim_byte b c (trim_right b s)

-- The text without its last byte, if that is a point.
unfoldable pub without_point : Text → Text
without_point [] = []
without_point (c ∷ []) = if nat_eqb c b'.' then [] else c ∷ []
without_point (c ∷ d ∷ s) = c ∷ without_point (d ∷ s)

-- `floatToTrimmedString` with two decimals.
unfoldable pub float_to_trimmed_string : Mbps → Text
unfolding hundredths format_float trim_right without_point
float_to_trimmed_string x = without_point (trim_right b'0' (format_float (hundredths x)))

-- A limit that is written: it is not 0.
abbrev pub mbps_setting : Mbps → Option Text
mbps_setting x = if not (is_zero x) then some (float_to_trimmed_string x) else none

abbrev pub iops_setting : ℕ → Option Text
iops_setting n = if not (nat_eqb n 0) then some (itoa_int n) else none
