-- ===== src/GuestAgent/Update.antt =====
-- What the server holds after a change of the guest agent, as it is read back.
use mathlib.Core.List.{append-nil, append_assoc}
use proxmox_api_go.Base.{
  split_string_of_settings, put_settings, ◌≡◌, refl, sym, ap, arith, Bool, true, false, Option,
  none, some, List, [], ◌∷◌, ◌++◌, Text, codes, text_eq, All, All-append, Lacks, Dict, lookup,
  insert, split_on-more, more-append, more, split_first,
}
use proxmox_api_go.Cpu.Kind.Spelling.{to_lower}
use proxmox_api_go.GuestAgent.{
  QemuGuestAgent, bool_to_int_string, or_current, current_of, write_enable, write_flag, write_kind,
  map_to_api, parse_bool, read_flag, map_to_sdk,
}

-- The type that is sent, where one is.
abbrev pub kind_after : Option Text → Option Text → Option Text
kind_after (some []) current = none
kind_after (some (c ∷ s)) current = some (to_lower (c ∷ s))
kind_after none (some s) = some (to_lower s)
kind_after none none = none

-- Whether the agent is enabled: not, where nothing says so.
abbrev pub enable_after : Option Bool → Bool
enable_after none = false
enable_after (some b) = b

-- The settings that a change is meant to leave: those that are given, and the current ones where none
-- is given; an empty type clears the type, and a type is in small letters.
abbrev pub merged : QemuGuestAgent → Option QemuGuestAgent → QemuGuestAgent
merged new current = record {
  enable = some (enable_after (or_current new.enable (current_of (λ c. c.enable) current)));
  kind = kind_after new.kind (current_of (λ c. c.kind) current);
  freeze = or_current new.freeze (current_of (λ c. c.freeze) current);
  fs_trim = or_current new.fs_trim (current_of (λ c. c.fs_trim) current);
}

abbrev flag_part : Text → Option Bool → List Text
flag_part key none = []
flag_part key (some b) = (key ++ b'=' ∷ bool_to_int_string b) ∷ []

abbrev kind_part : Option Text → List Text
kind_part none = []
kind_part (some kind) = (codes "type=" ++ kind) ∷ []

abbrev enable_part : Option Bool → Text
enable_part e = bool_to_int_string (enable_after e)

abbrev parts : Option Bool → Option Bool → Option Text → List Text
parts freeze trim kind =
    flag_part (codes "freeze-fs-on-backup") freeze
    ++ (flag_part (codes "fstrim_cloned_disks") trim ++ kind_part kind)

abbrev text_of : Option Bool → Option Bool → Option Bool → Text → Text
text_of enable freeze trim kind =
    write_enable enable
    ++ ((write_flag (codes "freeze-fs-on-backup") freeze
          ++ write_flag (codes "fstrim_cloned_disks") trim)
        ++ kind)

abbrev kind_text : Option Text → Text
kind_text none = []
kind_text (some kind) = codes ",type=" ++ kind

write_kind_lem :
    (new current : Option Text) → write_kind new current ≡ kind_text (kind_after new current)
write_kind_lem (some []) current = refl
write_kind_lem (some (c ∷ s)) current = refl
write_kind_lem none (some s) = refl
write_kind_lem none none = refl

more_kind : (kind : Option Text) → kind_text kind ≡ more b',' (kind_part kind)
unfolding more
more_kind none = refl
more_kind (some kind) = ap (λ t. codes ",type=" ++ t) (sym (append-nil kind))

more_flag : (key : Text) (flag : Option Bool) → write_flag key flag ≡ more b',' (flag_part key flag)
unfolding more
more_flag key none = refl
more_flag key (some b) = ap (λ t. b',' ∷ t) (sym (append-nil (key ++ b'=' ∷ bool_to_int_string b)))

enable_lem : (enable : Option Bool) → write_enable enable ≡ enable_part enable
enable_lem none = refl
enable_lem (some true) = refl
enable_lem (some false) = refl

text_of-parts :
    (enable freeze trim : Option Bool) (kind : Option Text)
    → text_of enable freeze trim (kind_text kind)
      ≡ enable_part enable ++ more b',' (parts freeze trim kind)
text_of-parts enable freeze trim kind =
    rw
      (
        enable_lem enable,
        more_flag (codes "freeze-fs-on-backup") freeze,
        more_flag (codes "fstrim_cloned_disks") trim,
        more_kind kind,
        more-append b',' (flag_part (codes "freeze-fs-on-backup") freeze)
            (flag_part (codes "fstrim_cloned_disks") trim ++ kind_part kind),
        more-append b',' (flag_part (codes "fstrim_cloned_disks") trim) (kind_part kind),
      )
      (ap (λ t. enable_part enable ++ t)
        (append_assoc (more b',' (flag_part (codes "freeze-fs-on-backup") freeze)) _ _))

bit-Lacks : (b : Bool) → Lacks b',' (bool_to_int_string b)
bit-Lacks true = ground arith
bit-Lacks false = ground arith

flag-Lacks :
    (key : Text) (flag : Option Bool) → Lacks b',' key → All (Lacks b',') (flag_part key flag)
flag-Lacks key none h = tt
flag-Lacks key (some b) h =
    (All-append _ key (b'=' ∷ bool_to_int_string b) h ((λ e. omega arith), bit-Lacks b), tt)

abbrev pub KindLacks : Option Text → Type 0
KindLacks none = Unit
KindLacks (some kind) = Lacks b',' kind

kind_part-Lacks : (kind : Option Text) → KindLacks kind → All (Lacks b',') (kind_part kind)
kind_part-Lacks none h = tt
kind_part-Lacks (some kind) h = (All-append _ (codes "type=") kind (ground arith) h, tt)

parts-Lacks :
    (freeze trim : Option Bool) (kind : Option Text)
    → KindLacks kind
    → All (Lacks b',') (parts freeze trim kind)
parts-Lacks freeze trim kind h =
    All-append _ (flag_part (codes "freeze-fs-on-backup") freeze) _
      (flag-Lacks (codes "freeze-fs-on-backup") freeze (ground arith))
      (All-append _ (flag_part (codes "fstrim_cloned_disks") trim) _
        (flag-Lacks (codes "fstrim_cloned_disks") trim (ground arith)) (kind_part-Lacks kind h))

-- The settings that stand in the parts of a text.
settings_of : List Text → Dict Text Text
unfolding put_settings
settings_of es = put_settings es []

abbrev bits : Option Bool → Option Text
bits none = none
bits (some b) = some (bool_to_int_string b)

read_parts :
    (e : Bool) (freeze trim : Option Bool) (kind : Option Text)
    → (lookup (codes "type") (settings_of (bool_to_int_string e ∷ parts freeze trim kind)) ≡ kind)
      × (lookup
            (codes "freeze-fs-on-backup")
            (settings_of (bool_to_int_string e ∷ parts freeze trim kind))
          ≡ bits freeze)
      × (lookup
            (codes "fstrim_cloned_disks")
            (settings_of (bool_to_int_string e ∷ parts freeze trim kind))
          ≡ bits trim)
unfolding settings_of lookup insert split_first
read_parts true none none none = (refl, refl, refl)
read_parts true none none (some k) = (refl, refl, refl)
read_parts true none (some t) none = (refl, refl, refl)
read_parts true none (some t) (some k) = (refl, refl, refl)
read_parts true (some f) none none = (refl, refl, refl)
read_parts true (some f) none (some k) = (refl, refl, refl)
read_parts true (some f) (some t) none = (refl, refl, refl)
read_parts true (some f) (some t) (some k) = (refl, refl, refl)
read_parts false none none none = (refl, refl, refl)
read_parts false none none (some k) = (refl, refl, refl)
read_parts false none (some t) none = (refl, refl, refl)
read_parts false none (some t) (some k) = (refl, refl, refl)
read_parts false (some f) none none = (refl, refl, refl)
read_parts false (some f) none (some k) = (refl, refl, refl)
read_parts false (some f) (some t) none = (refl, refl, refl)
read_parts false (some f) (some t) (some k) = (refl, refl, refl)

read_bits : (flag : Option Bool) → read_flag (bits flag) ≡ flag
unfolding parse_bool
read_bits none = refl
read_bits (some true) = refl
read_bits (some false) = refl

split_lem :
    (e freeze trim : Option Bool) (kind : Option Text)
    → KindLacks kind
    → split_string_of_settings (enable_part e ++ more b',' (parts freeze trim kind))
      ≡ settings_of (enable_part e ∷ parts freeze trim kind)
unfolding split_string_of_settings settings_of
split_lem e freeze trim kind h =
    ap (λ es. put_settings es [])
      (split_on-more b',' (enable_part e) (parts freeze trim kind)
        (bit-Lacks (enable_after e), parts-Lacks freeze trim kind h))

-- What is read from a text with the settings.
map_to_sdk_lem :
    (e : Bool) (rest : Text)
    → map_to_sdk (bool_to_int_string e ++ rest)
      ≡ some (record {
        enable = some e;
        kind = lookup (codes "type") (split_string_of_settings (bool_to_int_string e ++ rest));
        freeze = read_flag (
            lookup
              (codes "freeze-fs-on-backup")
              (split_string_of_settings (bool_to_int_string e ++ rest)));
        fs_trim = read_flag (
            lookup
              (codes "fstrim_cloned_disks")
              (split_string_of_settings (bool_to_int_string e ++ rest)));
      })
unfolding map_to_sdk parse_bool
map_to_sdk_lem true rest = refl
map_to_sdk_lem false rest = refl

-- A change of the guest agent is written, and the text is read back as the merged settings, if no comma
-- is in the type that is sent.
pub map_to_sdk-map_to_api_agent :
    (new : QemuGuestAgent) (current : Option QemuGuestAgent)
    → KindLacks (kind_after new.kind (current_of (λ c. c.kind) current))
    → map_to_sdk (map_to_api new current) ≡ some (merged new current)
unfolding map_to_api
map_to_sdk-map_to_api_agent new current h =
    let enable = or_current new.enable (current_of (λ c. c.enable) current) in
    let freeze = or_current new.freeze (current_of (λ c. c.freeze) current) in
    let trim = or_current new.fs_trim (current_of (λ c. c.fs_trim) current) in
    let kind = kind_after new.kind (current_of (λ c. c.kind) current) in
    let (kinds, freezes, trims) = read_parts (enable_after enable) freeze trim kind in
    rw
      (
        write_kind_lem new.kind (current_of (λ c. c.kind) current),
        text_of-parts enable freeze trim kind,
        map_to_sdk_lem (enable_after enable) (more b',' (parts freeze trim kind)),
        split_lem enable freeze trim kind h,
        kinds,
        freezes,
        trims,
        read_bits freeze,
        read_bits trim,
      )
      refl
