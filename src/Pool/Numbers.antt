-- ===== src/Pool/Numbers.antt =====
-- The numbers of guests as they stand in a request, which `mapToString` of proxmox/config_pool.go writes.
use mathlib.Core.List.{append_assoc, append-nil}
use proxmox_api_go.Base.{
  ℕ, ◌<◌, ◌^◌, ◌≡◌, ◌∙◌, refl, sym, List, [], ◌∷◌, ◌++◌, map, Text, All, more, itoa, lt→ltb,
}
use proxmox_api_go.Pool.{format_int64, join_ids, map_to_string}

-- The numbers that `FormatInt` writes without a sign.
abbrev pub IsGuest : ℕ → Type 0
IsGuest g = g < 2 ^ 63

-- Numbers in decimal digits, with a comma between two of them.
abbrev pub numbers : List ℕ → Text
numbers [] = []
numbers (id ∷ ids) = itoa id ++ more b',' (map itoa ids)

format_small : (g : ℕ) → IsGuest g → format_int64 g ≡ itoa g
unfolding format_int64
format_small g h = rw (lt→ltb g (2 ^ 63) h) refl

join_ids_lem :
    (out : Text) (ids : List ℕ)
    → All IsGuest ids
    → join_ids out ids ≡ out ++ more b',' (map itoa ids)
unfolding join_ids more
join_ids_lem out [] _ = sym (append-nil out)
join_ids_lem out (id ∷ ids) (h, hs) =
    rw (format_small id h)
      (join_ids_lem (out ++ b',' ∷ itoa id) ids hs ∙ append_assoc out (b',' ∷ itoa id) _)

pub map_to_string-numbers : (ids : List ℕ) → All IsGuest ids → map_to_string ids ≡ numbers ids
unfolding map_to_string join_ids
map_to_string-numbers [] h = refl
map_to_string-numbers (id ∷ ids) (h, hs) =
    rw (join_ids_lem (b',' ∷ format_int64 id) ids hs, map_to_string, format_small id h) refl
