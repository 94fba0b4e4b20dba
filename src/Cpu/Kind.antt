-- ===== src/Cpu/Kind.antt =====
-- `CpuType`: the name of a processor model. The tables are in `Cpu.Kind.Tables`, the proofs in
-- `Cpu.Kind.Names`.
pub mod Tables
pub mod Spelling
pub mod Names
mod Tests
use proxmox_api_go.Base.{
  ℕ, Bool, true, false, ◌||◌, ◌&&◌, not, ltb, nat_eqb, if◌then◌else◌, Option, none, some, List, [],
  ◌∷◌, map, Text, codes, Dict, lookup, text_eq, filter, text_eqb,
}
use proxmox_api_go.Version.{Version, smaller}
use proxmox_api_go.Cpu.Kind.Tables.{cpu_base, cpu_v8}
use proxmox_api_go.Cpu.Kind.Spelling.{key_of}

-- `"all names that are allowed, sorted"` of the error's message.
pub data KindError : Type 0 where
  one_of : List Text → KindError

-- The byte order of Go strings.
text_leb : Text → Text → Bool
text_leb [] t = true
text_leb (a ∷ s) [] = false
text_leb (a ∷ s) (b ∷ t) = ltb a b || nat_eqb a b && text_leb s t

put_sorted : Text → List Text → List Text
put_sorted s [] = s ∷ []
put_sorted s (t ∷ ts) = let rest = put_sorted s ts in if text_leb s t then s ∷ t ∷ ts else t ∷ rest

-- `slices.Sort`
sort : List Text → List Text
sort [] = []
sort (t ∷ ts) = put_sorted t (sort ts)

abbrev pub version_8 : Version
version_8 = record { major = 8; minor = 0; patch = 0 }

-- The table for a version.
unfoldable pub cpus_of : Version → Dict Text Text
unfolding smaller cpu_base cpu_v8
cpus_of version = if not (smaller version version_8) then cpu_v8 cpu_base else cpu_base

-- `Error`
unfoldable pub error_of : Version → KindError
unfolding sort put_sorted text_leb cpus_of
error_of version = one_of (sort (map (λ e. e.1) (cpus_of version)))

abbrev pub name_or_empty : Option Text → Text
name_or_empty (some name) = name
name_or_empty none = []

unfoldable pub map_to_api : Text → Version → Text
unfolding cpus_of key_of
map_to_api cpu version = name_or_empty (lookup (key_of cpu) (cpus_of version))

unfoldable pub validate : Text → Version → Option KindError
unfolding map_to_api error_of
validate cpu version =
    if text_eqb cpu [] || not (text_eqb (map_to_api cpu version) [])
    then none
    else some (error_of version)
