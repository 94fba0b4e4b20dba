-- ===== src/Snapshot.antt =====
-- proxmox/snapshot.go: the snapshots of a guest, as the list and as the tree that are shown, and their
-- names. The list is a list of pointers; a pointer is the position in it here.
pub mod Tree
mod Tests
use proxmox_api_go.Base.{
  ◌>>=◌, ℕ, zero, suc, Bool, true, false, ◌||◌, ◌&&◌, not, leb, ltb, nat_eqb, if◌then◌else◌, Option,
  none, some, List, [], ◌∷◌, ◌++◌, map, all, length, is_digit, string_eq, Text, text_eqb, Float,
  Value, str, flt, uint_of, Params, lookup,
}

-- `Snapshot`, with the positions of its children.
pub record Snapshot : Type 0 where
  pub name : Text
  pub snap_time : ℕ
  pub description : Text
  pub vm_state : Bool
  pub children : List ℕ
  pub parent : Text

-- A text, a number or a flag of an answer; the outer `none` is the panic of a value of another type.
abbrev pub read_text : Option Value → Option Text
read_text none = some []
read_text (some (str s)) = some s
read_text _ = none

abbrev pub read_time : Option Value → Option ℕ
read_time none = some 0
read_time (some (flt f)) = some (uint_of 64 f)
read_time _ = none

-- `Itob(int(…))`
abbrev pub read_state : Option Value → Option Bool
read_state none = some false
read_state (some (flt f)) = some (not f.negative && nat_eqb f.whole 1)
read_state _ = none

-- One element of `FormatSnapshotsList`
unfoldable pub read_snapshot : Params → Option Snapshot
read_snapshot e = do
  description ← read_text (lookup "description" e)
  name ← read_text (lookup "name" e)
  parent ← read_text (lookup "parent" e)
  snap_time ← read_time (lookup "snaptime" e)
  vm_state ← read_state (lookup "vmstate" e)
  some (record {
    name = name;
    snap_time = snap_time;
    description = description;
    vm_state = vm_state;
    children = [];
    parent = parent;
  })

-- `FormatSnapshotsList`
unfoldable pub format_snapshots_list : List Params → Option (List Snapshot)
format_snapshots_list [] = some []
format_snapshots_list (e ∷ raw) = do
  snapshot ← read_snapshot e
  rest ← format_snapshots_list raw
  some (snapshot ∷ rest)

-- The inner loop of `FormatSnapshotsTree`: the first snapshot with the name of the parent gets the
-- child at position `i`.
unfoldable pub adopt : ℕ → Text → List Snapshot → List Snapshot
adopt i parent [] = []
adopt i parent (s ∷ list) =
    let rest = adopt i parent list in
    if text_eqb parent s.name then record s { children = s.children ++ i ∷ [] } ∷ list else s ∷ rest

-- The first loop, from position `i` on. It changes no name and no parent.
unfoldable pub adopt_all : ℕ → List Snapshot → List Snapshot → List Snapshot
unfolding adopt
adopt_all i [] list = list
adopt_all i (e ∷ es) list = adopt_all (suc i) es (adopt i e.parent list)

-- The second loop: the positions of the tree.
unfoldable pub roots : ℕ → List Snapshot → List ℕ
roots i [] = []
roots i (e ∷ es) = let rest = roots (suc i) es in if text_eqb e.parent [] then i ∷ rest else rest

abbrev pub without_parent : Snapshot → Snapshot
without_parent s = record s { parent = [] }

-- `FormatSnapshotsTree`, from the list on: the snapshots as they are then, and the positions of the tree.
unfoldable pub tree_of : List Snapshot → List Snapshot × List ℕ
unfolding adopt_all roots
tree_of list = (map without_parent (adopt_all 0 list list), roots 0 (adopt_all 0 list list))

unfoldable pub format_snapshots_tree : List Params → Option (List Snapshot × List ℕ)
unfolding tree_of
format_snapshots_tree raw = elim (format_snapshots_list raw) [
  | none ↦ none
  | some list ↦ some (tree_of list)
]

pub data NameError : Type 0 where
  illegal_characters : NameError
  max_length : NameError
  min_length : NameError
  start_no_letter : NameError

abbrev pub is_ascii_letter : ℕ → Bool
is_ascii_letter c = leb b'a' c && leb c b'z' || leb b'A' c && leb c b'Z'

abbrev pub is_name_byte : ℕ → Bool
is_name_byte c = is_ascii_letter c || (is_digit c || (nat_eqb c b'_' || nat_eqb c b'-'))

-- `^([a-zA-Z])([a-z]|[A-Z]|[0-9]|_|-){2,39}$`
unfoldable pub matches : Text → Bool
matches [] = false
matches (c ∷ s) =
    is_ascii_letter c && (leb 2 (length s) && (leb (length s) 39 && all is_name_byte s))

-- `unicode.IsLetter` of a byte as a code point.
abbrev pub is_letter : ℕ → Bool
is_letter c =
    is_ascii_letter c
    || (nat_eqb c 170
        || (nat_eqb c 181
            || (nat_eqb c 186 || (leb 192 c && (not (nat_eqb c 215) && not (nat_eqb c 247))))))

abbrev pub starts_with_letter : Text → Bool
starts_with_letter [] = false
starts_with_letter (c ∷ s) = is_letter c

-- `SnapshotName.Validate`
unfoldable pub validate : Text → Option NameError
unfolding matches
validate name =
    if matches name
    then none
    else if ltb (length name) 3
    then some min_length
    else if ltb 40 (length name)
    then some max_length
    else if not (starts_with_letter name)
    then some start_no_letter
    else some illegal_characters
