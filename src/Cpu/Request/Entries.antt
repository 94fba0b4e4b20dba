-- ===== src/Cpu/Request/Entries.antt =====
-- The text of the flags that a change sends, and what it says of each flag.
use proxmox_api_go.Base.{
  ℕ, ◌≡◌, ◌≢◌, refl, arith, Bool, true, false, ◌||◌, not, ltb, any, if◌then◌else◌, Option,
  Option-cases, none, some, inl, inr, List, [], ◌∷◌, ◌++◌, string_eq, Text, text_eqb, text_eq,
  length, more,
}
use proxmox_api_go.TriBool.{TriBool, tri_true, tri_false, tri_none, tri_other}
use proxmox_api_go.Cpu.Flags
use proxmox_api_go.Cpu.Flags.{CpuFlag, CpuFlags, cpu_flags, no_flags, write_flags, flag_text}
use proxmox_api_go.Cpu.Flags.RoundTrip.{
  effective, current_flags, entries, entry, sign_of, settled, text_of_entries,
}
use proxmox_api_go.Cpu.Config.{QemuCpu}
use proxmox_api_go.Cpu.Request.{flags_text, unless_empty}

abbrev pub given_flags : Option CpuFlags → CpuFlags
given_flags none = no_flags
given_flags (some flags) = flags

abbrev pub flags_now : Option QemuCpu → Option CpuFlags
flags_now none = none
flags_now (some current) = current.flags

-- The flags that a change leaves: those that are given, and else the current ones.
abbrev pub wanted : Option CpuFlags → Option QemuCpu → CpuFlags
wanted flags current = effective (given_flags flags) (current_flags (flags_now current))

abbrev pub is_stated : Option TriBool → Bool
is_stated (some tri_true) = true
is_stated (some tri_false) = true
is_stated _ = false

unfoldable pub states_any : CpuFlags → Bool
states_any values = any (λ f. is_stated (values f)) cpu_flags

-- What is read of the flags: nothing, where none is on or off.
abbrev pub flags_after : CpuFlags → Option CpuFlags
flags_after values = if states_any values then some (settled values) else none

-- A text that is not empty is marked as set.
write_flags-set :
    (flags current : CpuFlags) (fs : List CpuFlag) (builder : Text) (is_set : Bool)
    → (builder ≢ [] → is_set ≡ true)
    → (write_flags flags current fs builder is_set).0 ≢ []
    → (write_flags flags current fs builder is_set).1 ≡ true
unfolding write_flags
write_flags-set flags current [] builder is_set h = h
write_flags-set flags current (f ∷ fs) builder is_set h = elim (Option-cases (flags f)) [
  | inr (v, e) ↦
      rw (e, write_flags)
        (write_flags-set flags current fs (builder ++ flag_text f v) true (λ _. refl))
  | inl e ↦ elim (Option-cases (current f)) [
    | inr (v, e') ↦
        rw (e, e', write_flags)
          (write_flags-set flags current fs (builder ++ flag_text f v) true (λ _. refl))
    | inl e' ↦ rw (e, e', write_flags) (write_flags-set flags current fs builder is_set h)
  ]
]

pub api-set :
    (flags : CpuFlags) (current : Option CpuFlags)
    → (Flags.map_to_api flags current).0 ≢ []
    → (Flags.map_to_api flags current).1 ≡ true
unfolding Flags.map_to_api
api-set flags none = write_flags-set flags no_flags cpu_flags [] false (λ ne. absurd (ne refl))
api-set flags (some current) =
    write_flags-set flags current cpu_flags [] false (λ ne. absurd (ne refl))

unless_empty-set :
    (p : Text × Bool)
    → (p.0 ≢ [] → p.1 ≡ true)
    → (unless_empty p).0 ≢ []
    → (unless_empty p).1 ≡ true
unless_empty-set ([], set) h ne = absurd (ne refl)
unless_empty-set (c ∷ s, set) h ne = rw (h ne) refl

pub flags_text-set :
    (flags : Option CpuFlags) (current : Option QemuCpu)
    → (flags_text flags current).0 ≢ []
    → (flags_text flags current).1 ≡ true
flags_text-set none none ne = absurd (ne refl)
flags_text-set (some flags) none ne =
    unless_empty-set (Flags.map_to_api flags none) (api-set flags none) ne
flags_text-set (some flags) (some current) ne = api-set flags current.flags ne
flags_text-set none (some current) ne = api-set no_flags current.flags ne

no_entries : [] ≡ more b';' (entries (wanted none none) cpu_flags)
unfolding entries more
no_entries = refl

pub flags_text-entries :
    (flags : Option CpuFlags) (current : Option QemuCpu)
    → (flags_text flags current).0 ≡ more b';' (entries (wanted flags current) cpu_flags)
flags_text-entries none none = no_entries
flags_text-entries (some flags) none = text_of_entries flags none
flags_text-entries (some flags) (some current) = text_of_entries flags current.flags
flags_text-entries none (some current) = text_of_entries no_flags current.flags

entry-stated :
    (f : CpuFlag) (o : Option TriBool) (es : List Text) (b : Bool)
    → text_eqb (more b';' es) [] ≡ not b
    → text_eqb (more b';' (entry f (sign_of o) ++ es)) [] ≡ not (is_stated o || b)
unfolding more
entry-stated f none es b h = h
entry-stated f (some tri_true) es b h = refl
entry-stated f (some tri_false) es b h = refl
entry-stated f (some tri_none) es b h = h
entry-stated f (some (tri_other n)) es b h = h

-- No entry is written exactly where no flag is on or off.
entries-stated :
    (values : CpuFlags) (fs : List CpuFlag)
    → text_eqb (more b';' (entries values fs)) [] ≡ not (any (λ f. is_stated (values f)) fs)
unfolding entries more
entries-stated values [] = refl
entries-stated values (f ∷ fs) =
    entry-stated f (values f) (entries values fs) (any (λ g. is_stated (values g)) fs)
      (entries-stated values fs)

-- A text of entries starts with the separator, and does not end there.
abbrev pub HasEntry : Text → Type 0
HasEntry [] = Unit
HasEntry (c ∷ rest) = (c ≡ b';') × (ltb 0 (length rest) ≡ true)

entry-HasEntry :
    (f : CpuFlag) (o : Option ℕ) (es : List Text)
    → HasEntry (more b';' es)
    → HasEntry (more b';' (entry f o ++ es))
unfolding more
entry-HasEntry f none es h = h
entry-HasEntry f (some sign) es h = (refl, ground arith)

entries-HasEntry :
    (values : CpuFlags) (fs : List CpuFlag) → HasEntry (more b';' (entries values fs))
unfolding entries more
entries-HasEntry values [] = tt
entries-HasEntry values (f ∷ fs) =
    entry-HasEntry f (sign_of (values f)) (entries values fs) (entries-HasEntry values fs)

swapped : (a b : Bool) → a ≡ not b → b ≡ not a
swapped a b h = ground arith

pub states_any-entries :
    (values : CpuFlags) (text : Text)
    → text ≡ more b';' (entries values cpu_flags)
    → states_any values ≡ not (text_eqb text [])
unfolding states_any
states_any-entries values text e = rw e (
    swapped (text_eqb (more b';' (entries values cpu_flags)) []) (states_any values)
      (entries-stated values cpu_flags))

pub text-HasEntry :
    (values : CpuFlags) (text : Text) → text ≡ more b';' (entries values cpu_flags) → HasEntry text
text-HasEntry values text e = rw e (entries-HasEntry values cpu_flags)
