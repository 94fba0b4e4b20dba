-- ===== src/Cpu/Kind/Spelling.antt =====
-- `strings.ToLower` and `strings.ReplaceAll` as `CpuType.mapToApi` uses them.
use proxmox_api_go.Base.{
  ℕ, ◌+◌, ◌≡◌, Bool, false, ◌&&◌, not, leb, nat_eqb, if◌then◌else◌, [], ◌∷◌, Text, filter, any,
  arith, refl,
}

abbrev pub is_upper : ℕ → Bool
is_upper c = leb b'A' c && leb c b'Z'

abbrev pub lower_byte : ℕ → ℕ
lower_byte c = if is_upper c then c + 32 else c

-- The bytes in small letters. Of the letters outside ASCII two have a small letter in ASCII: the
-- Kelvin sign (bytes 0xE2 0x84 0xAA) and the dotted capital I (bytes 0xC4 0xB0). The others stay outside ASCII,
-- where no name of a table has a byte, and are left as they are.
unfoldable pub to_lower : Text → Text
to_lower [] = []
to_lower (a ∷ []) = lower_byte a ∷ []
to_lower (a ∷ b ∷ []) =
    let rest = to_lower (b ∷ []) in
    if nat_eqb a 0xC4 && nat_eqb b 0xB0 then b'i' ∷ [] else lower_byte a ∷ rest
to_lower (a ∷ b ∷ c ∷ s) =
    let dotted = to_lower (c ∷ s) in
    let kelvin = to_lower s in
    let rest = to_lower (b ∷ c ∷ s) in
    if nat_eqb a 0xC4 && nat_eqb b 0xB0
    then b'i' ∷ dotted
    else if nat_eqb a 0xE2 && nat_eqb b 0x84 && nat_eqb c 0xAA
    then b'k' ∷ kelvin
    else lower_byte a ∷ rest

abbrev without_dashes : Text → Text
without_dashes cpu = filter (λ c. not (nat_eqb c b'-')) (filter (λ c. not (nat_eqb c b'_')) cpu)

-- The key under which a spelling is looked up.
unfoldable pub key_of : Text → Text
unfolding to_lower
key_of cpu = to_lower (without_dashes cpu)

abbrev pub has_upper : Text → Bool
has_upper = any is_upper

has_upper-to_lower : (s : Text) → has_upper (to_lower s) ≡ false
unfolding to_lower
has_upper-to_lower [] = refl
has_upper-to_lower (a ∷ []) = ground arith
has_upper-to_lower (a ∷ b ∷ []) = ground (arith, has_upper-to_lower (b ∷ []))
has_upper-to_lower (a ∷ b ∷ c ∷ s) =
    ground (arith, has_upper-to_lower (c ∷ s), has_upper-to_lower s, has_upper-to_lower (b ∷ c ∷ s))

pub has_upper-key_of : (cpu : Text) → has_upper (key_of cpu) ≡ false
unfolding key_of
has_upper-key_of cpu = has_upper-to_lower (without_dashes cpu)
