-- ===== src/Tag.antt =====
-- proxmox/type_tag.go: the tags of a guest. `Tag.Validation` is about `validate`, and `Tag.RoundTrip`
-- about the text that the server keeps.
pub mod Validation
pub mod RoundTrip
mod Tests
use proxmox_api_go.Base.{
  ℕ, ◌&&◌, ◌||◌, Bool, false, ltb, leb, nat_eqb, if◌then◌else◌, Option, none, some, List, [], ◌∷◌,
  ◌++◌, Text, text_eqb, text_eq, contains, all, length, is_digit, split_on,
}

pub data TagError : Type 0 where
  invalid : TagError
  duplicate : TagError
  max_length : TagError
  empty : TagError

-- `[a-zA-Z0-9_]`
abbrev pub is_first_byte : ℕ → Bool
is_first_byte c =
    leb b'a' c && leb c b'z' || leb b'A' c && leb c b'Z' || is_digit c || nat_eqb c b'_'

-- `regexTag`: a byte of the first class, then such bytes and `-`.
unfoldable pub matches : Text → Bool
matches [] = false
matches (c ∷ s) = is_first_byte c && all (λ d. is_first_byte d || nat_eqb d b'-') s

-- `Tag.Validate`
unfoldable pub validate_tag : Text → Option TagError
unfolding matches
validate_tag t =
    if text_eqb t []
    then some empty
    else if ltb 124 (length t)
    then some max_length
    else if matches t
    then none
    else some invalid

-- `Tag.validate`: each tag, and then whether it comes again.
unfoldable pub validate : List Text → Option TagError
unfolding validate_tag
validate [] = none
validate (e ∷ tags) = elim (validate_tag e) [
  | some err ↦ some err
  | none ↦ let rest = validate tags in if contains tags e then some duplicate else rest
]

-- The loop of `mapToApi`.
unfoldable pub write_tags : Text → List Text → Text
write_tags tags_string [] = tags_string
write_tags tags_string (e ∷ tags) = write_tags (tags_string ++ (e ++ b';' ∷ [])) tags

-- `s[:len(s)-1]`
unfoldable pub without_last : Text → Text
without_last [] = []
without_last (c ∷ []) = []
without_last (c ∷ d ∷ s) = c ∷ without_last (d ∷ s)

unfoldable pub map_to_api : List Text → Text
unfolding write_tags without_last
map_to_api [] = []
map_to_api (e ∷ tags) = without_last (write_tags [] (e ∷ tags))

unfoldable pub map_to_sdk : Text → List Text
map_to_sdk tags = split_on b';' tags
