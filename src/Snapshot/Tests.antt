-- ===== src/Snapshot/Tests.antt =====
-- Runs of the list, the tree and the names, and the theorem at a concrete list.
use proxmox_api_go.Base.{
  String, ◌≡◌, refl, false, none, some, List, [], ◌∷◌, map, ℕ, codes, string_eq, lookup, str,
  Params,
}
use proxmox_api_go.Snapshot.{
  Snapshot, read_snapshot, format_snapshots_list, format_snapshots_tree, tree_of, adopt, adopt_all,
  roots, matches, validate, min_length, start_no_letter, illegal_characters,
}
use proxmox_api_go.Snapshot.Tree.{children_of, in_tree, tree_of_lem}

abbrev named : String → String → Params
named name parent = ("name", str (codes name)) ∷ ("parent", str (codes parent)) ∷ []

abbrev raw : List Params
raw = named "new" "base" ∷ (("name", str (codes "base")) ∷ []) ∷ named "other" "base" ∷ []

abbrev snapshot : String → List ℕ → String → Snapshot
snapshot name children parent = record {
  name = codes name;
  snap_time = 0;
  description = [];
  vm_state = false;
  children = children;
  parent = codes parent;
}

abbrev listed : List Snapshot
listed = snapshot "new" [] "base" ∷ snapshot "base" [] "" ∷ snapshot "other" [] "base" ∷ []

list_run : format_snapshots_list raw ≡ some listed
unfolding format_snapshots_list read_snapshot lookup
list_run = refl

tree_run :
    format_snapshots_tree raw
    ≡ some (
      snapshot "new" [] "" ∷ snapshot "base" (0 ∷ 2 ∷ []) "" ∷ snapshot "other" [] "" ∷ [],
      1 ∷ [],
    )
unfolding format_snapshots_tree format_snapshots_list read_snapshot lookup tree_of adopt_all adopt
    roots
tree_run = refl

name_run :
    (validate (codes "before_update-2") ≡ none)
    × (validate (codes "ab") ≡ some min_length)
    × (validate (codes "1st") ≡ some start_no_letter)
    × (validate (codes "a.b") ≡ some illegal_characters)
unfolding validate matches
name_run = (refl, refl, refl, refl)

tree_of_lem_example : tree_of listed ≡ (map (in_tree listed) listed, children_of 0 [] listed)
tree_of_lem_example = tree_of_lem listed ((refl, (refl, tt)), ((refl, tt), (tt, tt)))
