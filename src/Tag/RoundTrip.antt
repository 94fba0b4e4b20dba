-- ===== src/Tag/RoundTrip.antt =====
-- Writing tags and reading them back.
use mathlib.Core.List.{append_assoc}
use proxmox_api_go.Base.{
  ℕ, ◌≡◌, ◌≢◌, ◌⊎◌, ◌∙◌, refl, ap, arith, none, List, [], ◌∷◌, ◌++◌, Text, All, Lacks, split_on,
  split_on-append, split_on_of_Lacks,
}
use proxmox_api_go.Tag.{write_tags, without_last, map_to_api, map_to_sdk, validate}
use proxmox_api_go.Tag.Validation.{IsFirstByte, IsTag, tags_validate_iff}

-- The tags with one separator between two of them.
joined : Text → List Text → Text
joined e [] = e
joined e (d ∷ tags) = e ++ b';' ∷ joined d tags

without_last-append : (s : Text) (c : ℕ) → without_last (s ++ c ∷ []) ≡ s
unfolding without_last
without_last-append [] c = refl
without_last-append (a ∷ []) c = refl
without_last-append (a ∷ b ∷ s) c = ap (λ t. a ∷ t) (without_last-append (b ∷ s) c)

write_tags_lem :
    (out e : Text) (tags : List Text)
    → write_tags out (e ∷ tags) ≡ out ++ (joined e tags ++ b';' ∷ [])
unfolding write_tags joined
write_tags_lem out e [] = refl
write_tags_lem out e (d ∷ tags) =
    write_tags_lem (out ++ (e ++ b';' ∷ [])) d tags
    ∙ rw (append_assoc, append_assoc, append_assoc) refl

split_on-joined :
    (e : Text) (tags : List Text)
    → All (Lacks b';') (e ∷ tags)
    → split_on b';' (joined e tags) ≡ e ∷ tags
unfolding joined
split_on-joined e [] (h, _) = split_on_of_Lacks b';' e h
split_on-joined e (d ∷ tags) (h, hs) =
    split_on-append b';' e _ h ∙ ap (λ r. e ∷ r) (split_on-joined d tags hs)

first_byte_ne : (c : ℕ) → IsFirstByte c → c ≢ b';'
first_byte_ne c h = ground arith

bytes-Lacks : (s : Text) → All (λ d. IsFirstByte d ⊎ (d ≡ b'-')) s → Lacks b';' s
bytes-Lacks [] _ = tt
bytes-Lacks (c ∷ s) (h, hs) = (ground arith, bytes-Lacks s hs)

tag-Lacks : (t : Text) → IsTag t → Lacks b';' t
tag-Lacks [] h = absurd h.bytes
tag-Lacks (c ∷ s) h = (first_byte_ne c h.bytes.0, bytes-Lacks s h.bytes.1)

tags-Lacks : (tags : List Text) → All IsTag tags → All (Lacks b';') tags
tags-Lacks [] _ = tt
tags-Lacks (e ∷ tags) (h, hs) = (tag-Lacks e h, tags-Lacks tags hs)

-- A list of tags that is accepted, and has a tag, is read back from the text in which it is written.
pub tags_round_trip :
    (tags : List Text) → tags ≢ [] → validate tags ≡ none → map_to_sdk (map_to_api tags) ≡ tags
unfolding map_to_api map_to_sdk
tags_round_trip [] ne valid = absurd (ne refl)
tags_round_trip (e ∷ tags) ne valid =
    rw (write_tags_lem [] e tags, without_last-append (joined e tags) b';')
      (split_on-joined e tags (tags-Lacks (e ∷ tags) ((tags_validate_iff (e ∷ tags)).0 valid).0))
