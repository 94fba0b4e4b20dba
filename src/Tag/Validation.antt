-- ===== src/Tag/Validation.antt =====
-- What `Tag.validate` accepts.
use proxmox_api_go.Base.{
  ℕ, ◌≤◌, ◌≡◌, ◌↔◌, ◌⊎◌, arith, true, false, ◌||◌, none, List, [], ◌∷◌, Text, text_eq, contains,
  All, all, length, nat_eqb,
}
use proxmox_api_go.Tag.{is_first_byte, matches, validate_tag, validate}

-- A letter, a digit or an underscore.
abbrev pub IsFirstByte : ℕ → Type 0
IsFirstByte c =
    (b'a' ≤ c) × (c ≤ b'z') ⊎ (b'A' ≤ c) × (c ≤ b'Z') ⊎ (b'0' ≤ c) × (c ≤ b'9') ⊎ (c ≡ b'_')

abbrev pub IsTagBytes : Text → Type 0
IsTagBytes [] = ⊥
IsTagBytes (c ∷ s) = IsFirstByte c × All (λ d. IsFirstByte d ⊎ (d ≡ b'-')) s

-- One to 124 bytes of the pattern.
pub record IsTag (t : Text) : Type 0 where
  pub bytes : IsTagBytes t
  pub short : length t ≤ 124

-- No tag comes twice.
abbrev pub IsDistinct : List Text → Type 0
IsDistinct [] = Unit
IsDistinct (e ∷ tags) = (contains tags e ≡ false) × IsDistinct tags

tag_bytes_iff :
    (s : Text)
    → (all (λ d. is_first_byte d || nat_eqb d b'-') s ≡ true)
      ↔ All (λ d. IsFirstByte d ⊎ (d ≡ b'-')) s
tag_bytes_iff [] = ground arith
tag_bytes_iff (c ∷ s) = ground (arith, tag_bytes_iff s)

matches_iff : (t : Text) → (matches t ≡ true) ↔ IsTagBytes t
unfolding matches
matches_iff [] = ground arith
matches_iff (c ∷ s) = ground (arith, tag_bytes_iff s)

-- A tag is accepted exactly when it has one to 124 bytes, each a letter, a digit, `_` or, but for the
-- first, `-`.
pub validate_tag_iff : (t : Text) → (validate_tag t ≡ none) ↔ IsTag t
unfolding validate_tag
validate_tag_iff [] = ground arith
validate_tag_iff (c ∷ s) = ground (arith, matches_iff (c ∷ s))

-- A list of tags is accepted exactly when each is a tag and no tag comes twice.
pub tags_validate_iff :
    (tags : List Text) → (validate tags ≡ none) ↔ (All IsTag tags × IsDistinct tags)
unfolding validate
tags_validate_iff [] = ground arith
tags_validate_iff (e ∷ tags) = ground (arith, validate_tag_iff e, tags_validate_iff tags)
