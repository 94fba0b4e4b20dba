-- ===== src/Cpu/Flags/RoundTrip.antt =====
-- What `CpuFlags.mapToApi` writes, and that `CpuFlags.mapToSDK` reads it back.
use mathlib.Core.List.{append_assoc, append-nil}
use mathlib.Core.Path.{fun_ext}
use proxmox_api_go.Base.{
  Option-cases, inl, inr, ℕ, Bool, true, false, ◌≡◌, refl, ap, sym, ◌∙◌, arith, Option, none, some,
  List, [], ◌∷◌, ◌++◌, Text, text_eqb, text_eqb_iff, text_eq, Dict, lookup, insert, lookup-insert,
  if◌then◌else◌, All, Lacks, split_on, more, split_on_tail,
}
use proxmox_api_go.TriBool.{TriBool, tri_false, tri_none, tri_true, tri_other}
use proxmox_api_go.Cpu.Flags.{
  CpuFlag, CpuFlags, cpu_flags, flag_name, no_flags, flag_text, write_flags, map_to_api, read_signs,
  read_flag, map_to_sdk,
}
use proxmox_api_go.Cpu.Flags.Names.{
  flag_name_injective, flag_name-Lacks, is_named_in, is_named_in_all,
}

-- The value that a flag is to have: the new one, or else the current one.
abbrev pub first_given : Option TriBool → Option TriBool → Option TriBool
first_given (some v) other = some v
first_given none other = other

abbrev pub effective : CpuFlags → CpuFlags → CpuFlags
effective flags current flag = first_given (flags flag) (current flag)

-- The sign that stands for a value, if it has one.
abbrev pub sign_of : Option TriBool → Option ℕ
sign_of (some tri_true) = some b'+'
sign_of (some tri_false) = some b'-'
sign_of _ = none

abbrev pub entry : CpuFlag → Option ℕ → List Text
entry flag none = []
entry flag (some sign) = (sign ∷ flag_name flag) ∷ []

unfoldable pub entries : CpuFlags → List CpuFlag → List Text
entries values [] = []
entries values (flag ∷ rest) = entry flag (sign_of (values flag)) ++ entries values rest

flag_text-joined :
    (f : CpuFlag) (v : TriBool) (es : List Text)
    → flag_text f v ++ more b';' es ≡ more b';' (entry f (sign_of (some v)) ++ es)
unfolding flag_text more
flag_text-joined f tri_true es = refl
flag_text-joined f tri_false es = refl
flag_text-joined f tri_none es = refl
flag_text-joined f (tri_other n) es = refl

flag_text-joined_behind :
    (builder : Text) (f : CpuFlag) (v : TriBool) (es : List Text)
    → (builder ++ flag_text f v) ++ more b';' es
      ≡ builder ++ more b';' (entry f (sign_of (some v)) ++ es)
flag_text-joined_behind builder f v es =
    append_assoc builder (flag_text f v) (more b';' es)
    ∙ ap (λ t. builder ++ t) (flag_text-joined f v es)

joined_nil : [] ≡ more b';' []
unfolding more
joined_nil = refl

write_flags_lem :
    (flags current : CpuFlags) (fs : List CpuFlag) (builder : Text) (is_set : Bool)
    → (write_flags flags current fs builder is_set).0
      ≡ builder ++ more b';' (entries (effective flags current) fs)
unfolding write_flags entries
write_flags_lem flags current [] builder is_set =
    sym (append-nil builder) ∙ ap (λ t. builder ++ t) joined_nil
write_flags_lem flags current (f ∷ fs) builder is_set =
    let es = entries (effective flags current) fs in
    elim (Option-cases (flags f)) [
      | inr (v, e) ↦
          rw (e, write_flags)
            (write_flags_lem flags current fs (builder ++ flag_text f v) true
              ∙ flag_text-joined_behind builder f v es)
      | inl e ↦ elim (Option-cases (current f)) [
        | inr (v, e') ↦
            rw (e, e', write_flags)
              (write_flags_lem flags current fs (builder ++ flag_text f v) true
                ∙ flag_text-joined_behind builder f v es)
        | inl e' ↦ rw (e, e', write_flags) (write_flags_lem flags current fs builder is_set)
      ]
    ]

pub entries-Lacks : (values : CpuFlags) (fs : List CpuFlag) → All (Lacks b';') (entries values fs)
unfolding entries
entries-Lacks values [] = tt
entries-Lacks values (f ∷ fs) = ground (arith, entries-Lacks values fs, flag_name-Lacks f)

put_sign : CpuFlag → Option ℕ → Dict Text ℕ → Dict Text ℕ
put_sign flag none signs = signs
put_sign flag (some sign) signs = insert (flag_name flag) sign signs

put_signs : CpuFlags → List CpuFlag → Dict Text ℕ → Dict Text ℕ
put_signs values [] signs = signs
put_signs values (f ∷ fs) signs = put_signs values fs (put_sign f (sign_of (values f)) signs)

read_signs-entry :
    (f : CpuFlag) (o : Option ℕ) (es : List Text) (signs : Dict Text ℕ)
    → read_signs (entry f o ++ es) signs ≡ read_signs es (put_sign f o signs)
unfolding read_signs put_sign
read_signs-entry f none es signs = refl
read_signs-entry f (some sign) es signs = refl

read_signs-entries :
    (values : CpuFlags) (fs : List CpuFlag) (signs : Dict Text ℕ)
    → read_signs (entries values fs) signs ≡ some (put_signs values fs signs)
unfolding read_signs entries put_signs
read_signs-entries values [] signs = refl
read_signs-entries values (f ∷ fs) signs =
    let o = sign_of (values f) in
    read_signs-entry f o (entries values fs) signs
    ∙ read_signs-entries values fs (put_sign f o signs)

abbrev or_else : Option ℕ → Option ℕ → Option ℕ
or_else (some c) other = some c
or_else none other = other

lookup-put_sign :
    (k f : CpuFlag) (o : Option ℕ) (signs : Dict Text ℕ)
    → lookup (flag_name k) (put_sign f o signs) ≡ (
        if text_eqb (flag_name f) (flag_name k)
        then or_else o (lookup (flag_name k) signs)
        else lookup (flag_name k) signs)
unfolding put_sign
lookup-put_sign k f none signs = ground arith
lookup-put_sign k f (some sign) signs = lookup-insert (flag_name f) (flag_name k) sign signs

-- A field and the name of its flag tell the same.
values-eq :
    (values : CpuFlags) (f k : CpuFlag)
    → text_eqb (flag_name f) (flag_name k) ≡ true
    → sign_of (values f) ≡ sign_of (values k)
values-eq values f k e =
    ap (λ x. sign_of (values x)) (flag_name_injective f k ((text_eqb_iff _ _).0 e))

lookup-put_signs :
    (values : CpuFlags) (k : CpuFlag) (fs : List CpuFlag) (signs : Dict Text ℕ)
    → lookup (flag_name k) (put_signs values fs signs) ≡ (
        if is_named_in k fs
        then or_else (sign_of (values k)) (lookup (flag_name k) signs)
        else lookup (flag_name k) signs)
unfolding put_signs
lookup-put_signs values k [] signs = refl
lookup-put_signs values k (f ∷ fs) signs = ground (
  arith,
  lookup-put_signs values k fs (put_sign f (sign_of (values f)) signs),
  lookup-put_sign k f (sign_of (values f)) signs,
  values-eq values f k,
)

-- The flags as a reader gets them: what is on or off, of the new values or else of the current ones.
abbrev pub settled : CpuFlags → CpuFlags
settled values flag = elim (values flag) [
  | none ↦ none
  | some v ↦ elim v [ tri_true ↦ some tri_true | tri_false ↦ some tri_false | _ ↦ none ]
]

read_flag-settled :
    (values : CpuFlags) (k : CpuFlag)
    → read_flag (put_signs values cpu_flags []) (flag_name k) ≡ settled values k
unfolding read_flag lookup
read_flag-settled values k =
    ground (arith, lookup-put_signs values k cpu_flags [], is_named_in_all k)

pub map_to_sdk-entries :
    (values : CpuFlags) → map_to_sdk (entries values cpu_flags) ≡ some (settled values)
unfolding map_to_sdk
map_to_sdk-entries values =
    rw (read_signs-entries values cpu_flags [], map_to_sdk)
      (ap some (fun_ext (read_flag-settled values)))

abbrev pub current_flags : Option CpuFlags → CpuFlags
current_flags none = no_flags
current_flags (some current) = current

pub text_of_entries :
    (flags : CpuFlags) (current : Option CpuFlags)
    → (map_to_api flags current).0
      ≡ more b';' (entries (effective flags (current_flags current)) cpu_flags)
unfolding map_to_api
text_of_entries flags none = write_flags_lem flags no_flags cpu_flags [] false
text_of_entries flags (some current) = write_flags_lem flags current cpu_flags [] false

-- The flags that are written, without the separator in front and split at the others, are read back:
-- each flag as the new value, or else the current one, where that is on or off.
pub map_to_sdk-map_to_api :
    (flags : CpuFlags) (current : Option CpuFlags) (rest : Text)
    → (map_to_api flags current).0 ≡ b';' ∷ rest
    → map_to_sdk (split_on b';' rest) ≡ some (settled (effective flags (current_flags current)))
map_to_sdk-map_to_api flags current rest written =
    let values = effective flags (current_flags current) in
    rw
      (split_on_tail b';' (entries values cpu_flags) rest (entries-Lacks values cpu_flags)
        (sym (text_of_entries flags current) ∙ written))
      (map_to_sdk-entries values)
