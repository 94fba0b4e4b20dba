-- ===== src/TriBool.antt =====
-- proxmox/type_tribool.go: a Boolean that may be left open. The proofs are in `TriBool.Json`.
pub mod Json
mod Tests
use proxmox_api_go.Base.{
  ℕ, ◌+◌, ◌&&◌, Bool, true, false, leb, nat_eqb, if◌then◌else◌, Option, none, some, List, [], ◌∷◌,
  ◌++◌, Text, codes, text_eqb,
}

-- An int8: -1, 0, 1, and the other bit patterns.
pub data TriBool : Type 0 where
  tri_false tri_none tri_true : TriBool
  tri_other : ℕ → TriBool

pub data TriBoolError : Type 0 where
  tri_bool_invalid : TriBoolError

unfoldable pub validate : TriBool → Option TriBoolError
validate (tri_other n) = some tri_bool_invalid
validate _ = none

abbrev quoted : Text → Text
quoted s = b'"' ∷ (s ++ b'"' ∷ [])

-- `none` is the error.
unfoldable pub marshal_json : TriBool → Option Text
marshal_json tri_true = some (quoted (codes "true"))
marshal_json tri_false = some (quoted (codes "false"))
marshal_json tri_none = some (quoted (codes "none"))
marshal_json (tri_other n) = none

-- `strings.Trim(s, "\"")`
trim_left : Text → Text
trim_left [] = []
trim_left (c ∷ s) = let rest = trim_left s in if nat_eqb c b'"' then rest else c ∷ s

trim_right : Text → Text
trim_right [] = []
trim_right (c ∷ s) = elim (trim_right s) [
  | [] ↦ if nat_eqb c b'"' then [] else c ∷ []
  | d ∷ rest ↦ c ∷ d ∷ rest
]

abbrev lower_byte : ℕ → ℕ
lower_byte c = if leb b'A' c && leb c b'Z' then c + 32 else c

-- The first letter of a text under simple case folding, and the rest. Two letters outside ASCII fold
-- to letters in it: the long s (U+017F, bytes 0xC5 0xBF) and the Kelvin sign (U+212A, bytes 0xE2 0x84 0xAA).
fold_head : Text → Option (ℕ × Text)
fold_head [] = none
fold_head (a ∷ []) = some (lower_byte a, [])
fold_head (a ∷ b ∷ []) =
    if nat_eqb a 0xC5 && nat_eqb b 0xBF then some (b's', []) else some (lower_byte a, b ∷ [])
fold_head (a ∷ b ∷ c ∷ s) =
    if nat_eqb a 0xC5 && nat_eqb b 0xBF
    then some (b's', c ∷ s)
    else if nat_eqb a 0xE2 && nat_eqb b 0x84 && nat_eqb c 0xAA
    then some (b'k', s)
    else some (lower_byte a, b ∷ c ∷ s)

-- `strings.EqualFold(s, word)` for a word of small ASCII letters.
equal_fold : Text → Text → Bool
equal_fold s [] = text_eqb s []
equal_fold s (d ∷ word) = elim (fold_head s) [
  | none ↦ false
  | some (c, rest) ↦ nat_eqb c d && equal_fold rest word
]

-- A loop over words that returns at the first one that fits.
one_of : Text → List Text → Bool
one_of s [] = false
one_of s (word ∷ words) = let rest = one_of s words in if equal_fold s word then true else rest

-- The value of the text behind the quotes; `none` is the error.
unfoldable pub tri_bool_of : Text → Option TriBool
unfolding one_of equal_fold fold_head
tri_bool_of s =
    if one_of s (codes "true" ∷ codes "yes" ∷ codes "on" ∷ [])
    then some tri_true
    else if one_of s (codes "false" ∷ codes "no" ∷ codes "off" ∷ [])
    then some tri_false
    else if one_of s (codes "none" ∷ codes "" ∷ [])
    then some tri_none
    else none

unfoldable pub unmarshal_json : Text → Option TriBool
unfolding trim_left trim_right tri_bool_of
unmarshal_json bytes = tri_bool_of (trim_right (trim_left bytes))
