-- ===== src/Base/Assignments.antt =====
-- Texts of settings, `,key=value` each, in the order in which they are written.
use mathlib.Core.Path.{◌≡◌, refl, ap, ◌∙◌}
use mathlib.Core.Bool.{Bool, true, false, ◌&&◌, not}
use mathlib.Core.Logic.{inl, inr}
use mathlib.Core.Option.{Option, none, some}
use mathlib.Core.List.{List, [], ◌∷◌, ◌++◌}
use native.Mathlib.Omega.{arith}
use proxmox_api_go.Base.Tests.{if◌then◌else◌, Bool-cases}
use proxmox_api_go.Base.Lists.{All, All-append}
use proxmox_api_go.Base.Texts.{Text, text_eqb, text_eqb_iff, text_eq}
use proxmox_api_go.Base.Maps.{Dict, lookup, insert, lookup-insert}
use proxmox_api_go.Base.Split.{
  Lacks, more, split_on, split_on-more, split_first, split_first-append,
}

-- A key, and its value if it is written.
abbrev pub Settings : Type 0
Settings = List (Text × Option Text)

unfoldable pub write_settings : Settings → Text
write_settings [] = []
write_settings ((key, none) ∷ rest) = write_settings rest
write_settings ((key, some v) ∷ rest) = (b',' ∷ (key ++ b'=' ∷ v)) ++ write_settings rest

-- The value that is written under a key.
abbrev pub find : Text → Settings → Option Text
find k [] = none
find k ((key, v) ∷ rest) = if text_eqb key k then v else find k rest

-- `splitStringOfSettings`: one setting, `key=value`; without a sign its value is empty.
abbrev pub put_setting : Text × Option Text → Dict Text Text → Dict Text Text
put_setting (key, some value) settings = insert key value settings
put_setting (key, none) settings = insert key [] settings

unfoldable pub put_settings : List Text → Dict Text Text → Dict Text Text
put_settings [] settings = settings
put_settings (e ∷ pairs) settings = put_settings pairs (put_setting (split_first b'=' e) settings)

unfoldable pub split_string_of_settings : Text → Dict Text Text
split_string_of_settings settings = put_settings (split_on b',' settings) []

entries : Settings → List Text
entries [] = []
entries ((key, none) ∷ rest) = entries rest
entries ((key, some v) ∷ rest) = (key ++ b'=' ∷ v) ∷ entries rest

write_settings-entries : (parts : Settings) → write_settings parts ≡ more b',' (entries parts)
unfolding write_settings entries more
write_settings-entries [] = refl
write_settings-entries ((key, none) ∷ rest) = write_settings-entries rest
write_settings-entries ((key, some v) ∷ rest) =
    ap (λ t. b',' ∷ ((key ++ b'=' ∷ v) ++ t)) (write_settings-entries rest)

-- No sign and no separator in a key, and no separator in a value.
abbrev pub IsClean : Text × Option Text → Type 0
IsClean (key, none) = Lacks b'=' key × Lacks b',' key
IsClean (key, some v) = Lacks b'=' key × Lacks b',' key × Lacks b',' v

abbrev pub is_new : Text → Settings → Bool
is_new k [] = true
is_new k ((key, v) ∷ rest) = not (text_eqb key k) && is_new k rest

abbrev pub has_distinct_keys : Settings → Bool
has_distinct_keys [] = true
has_distinct_keys ((key, v) ∷ rest) = is_new key rest && has_distinct_keys rest

entries-Lacks : (parts : Settings) → All IsClean parts → All (Lacks b',') (entries parts)
unfolding entries
entries-Lacks [] h = tt
entries-Lacks ((key, none) ∷ rest) (_, hs) = entries-Lacks rest hs
entries-Lacks ((key, some v) ∷ rest) ((_, k, h), hs) =
    (All-append _ key (b'=' ∷ v) k ((λ e. omega arith), h), entries-Lacks rest hs)

abbrev or_else : Option Text → Option Text → Option Text
or_else (some v) other = some v
or_else none other = other

find-is_new : (k : Text) (parts : Settings) → is_new k parts ≡ true → find k parts ≡ none
find-is_new k [] h = refl
find-is_new k ((key, v) ∷ rest) h = ground (arith, find-is_new k rest)

later :
    (key : Text) (v : Option Text) (rest : Settings)
    → has_distinct_keys ((key, v) ∷ rest) ≡ true
    → has_distinct_keys rest ≡ true
later key v rest h = ground arith

first_new :
    (key : Text) (v : Option Text) (rest : Settings)
    → has_distinct_keys ((key, v) ∷ rest) ≡ true
    → is_new key rest ≡ true
first_new key v rest h = ground arith

missing :
    (k key : Text) (rest : Settings) (v : Option Text)
    → has_distinct_keys ((key, v) ∷ rest) ≡ true
    → text_eqb key k ≡ true
    → find k rest ≡ none
missing k key rest v h same =
    let e : key ≡ k = (text_eqb_iff key k).0 same in
    find-is_new k rest (rw e at (first_new key v rest h))

or_else-none : (o : Option Text) → or_else o none ≡ o
or_else-none none = refl
or_else-none (some v) = refl

only :
    (k : Text) (part : Text × Option Text)
    → text_eqb part.0 k ≡ false
    → lookup k (put_setting part []) ≡ none
unfolding lookup insert
only k (key, none) h = rw h refl
only k (key, some v) h = rw h refl

lookup-put_settings :
    (k : Text) (parts : Settings) (d : Dict Text Text)
    → All IsClean parts
    → has_distinct_keys parts ≡ true
    → lookup k (put_settings (entries parts) d) ≡ or_else (find k parts) (lookup k d)
unfolding put_settings entries
lookup-put_settings k [] d clean distinct = refl
lookup-put_settings k ((key, none) ∷ rest) d (_, clean) distinct =
    elim (Bool-cases (text_eqb key k)) [
      | inl same ↦
          rw
            (
              lookup-put_settings k rest d clean (later key none rest distinct),
              same,
              missing k key rest none distinct same,
            )
            refl
      | inr other ↦
          rw (lookup-put_settings k rest d clean (later key none rest distinct), other) refl
    ]
lookup-put_settings k ((key, some v) ∷ rest) d ((h, _, _), clean) distinct =
    ap (λ p. lookup k (put_settings (entries rest) (put_setting p d)))
      (split_first-append b'=' key v h)
    ∙ lookup-put_settings k rest (insert key v d) clean (later key (some v) rest distinct)
    ∙ rw (lookup-insert key k v d) (elim (Bool-cases (text_eqb key k)) [
      | inl same ↦ rw (same, missing k key rest (some v) distinct same) refl
      | inr other ↦ rw other refl
    ])

-- What is read of a text of settings behind a first part: the value of each key that is not the key of
-- that part.
pub lookup-write_settings :
    (head : Text) (parts : Settings) (k : Text)
    → Lacks b',' head
    → All IsClean parts
    → has_distinct_keys parts ≡ true
    → text_eqb (split_first b'=' head).0 k ≡ false
    → lookup k (split_string_of_settings (head ++ write_settings parts)) ≡ find k parts
unfolding split_string_of_settings put_settings
lookup-write_settings head parts k plain clean distinct other =
    rw
      (
        write_settings-entries parts,
        split_on-more b',' head (entries parts) (plain, entries-Lacks parts clean),
      )
      (lookup-put_settings k parts (put_setting (split_first b'=' head) []) clean distinct
        ∙ rw (only k (split_first b'=' head) other) (or_else-none (find k parts)))
