-- ===== src/Permission/Paths.antt =====
-- Which paths `buildPathList` gathers.
use proxmox_api_go.Base.{
  ◌≡◌, ◌≢◌, arith, true, List, [], ◌∷◌, ◌++◌, Text, text_eqb, text_eqb_iff, text_eq, contains,
  contains-append, Bool-cases, inl, inr, All,
}
use proxmox_api_go.Permission.{
  Permission, path, append, add_category, add_paths, build_paths, build_path_list,
}

-- The paths that `check` looks up for a permission are in a list.
abbrev pub HasPathsOf : List Text → Permission → Type 0
HasPathsOf paths p =
    (contains paths (path p.category) ≡ true)
    × (p.item ≢ [] → contains paths (append (path p.category) p.item) ≡ true)

contains_front :
    (paths : List Text) (c a : Text) → contains paths a ≡ true → contains (paths ++ c ∷ []) a ≡ true
contains_front paths c a h = ground (arith, contains-append paths (c ∷ []) a)

contains_last : (paths : List Text) (c : Text) → contains (paths ++ c ∷ []) c ≡ true
contains_last paths c = ground (arith, contains-append paths (c ∷ []) c, text_eqb_iff c c)

add_category-contains : (paths : List Text) (c : Text) → contains (add_category paths c) c ≡ true
unfolding add_category
add_category-contains paths c = ground (arith, contains-append paths (c ∷ []) c, text_eqb_iff c c)

add_category_keeps :
    (paths : List Text) (c a : Text)
    → contains paths a ≡ true
    → contains (add_category paths c) a ≡ true
unfolding add_category
add_category_keeps paths c a h = ground (arith, contains-append paths (c ∷ []) a)

add_paths_keeps :
    (paths : List Text) (p : Permission) (a : Text)
    → contains paths a ≡ true
    → contains (add_paths paths p) a ≡ true
unfolding add_paths
add_paths_keeps paths p a h =
    let kept = add_category_keeps paths (path p.category) a h in
    elim (Bool-cases (text_eqb p.item [])) [
      | inl empty ↦ rw empty kept
      | inr given ↦ rw given (contains_front (add_category paths (path p.category)) _ a kept)
    ]

add_paths-HasPathsOf : (paths : List Text) (p : Permission) → HasPathsOf (add_paths paths p) p
unfolding add_paths
add_paths-HasPathsOf paths p =
    let added = add_category paths (path p.category) in
    let kept = add_category-contains paths (path p.category) in
    elim (Bool-cases (text_eqb p.item [])) [
      | inl empty ↦ rw empty (kept, λ given. absurd (given ((text_eqb_iff p.item []).0 empty)))
      | inr given ↦
          rw given (contains_front added _ (path p.category) kept, λ _. contains_last added _)
    ]

build_paths_keeps :
    (paths : List Text) (perms : List Permission) (a : Text)
    → contains paths a ≡ true
    → contains (build_paths paths perms) a ≡ true
unfolding build_paths
build_paths_keeps paths [] a h = h
build_paths_keeps paths (p ∷ perms) a h =
    build_paths_keeps (add_paths paths p) perms a (add_paths_keeps paths p a h)

build_paths-HasPathsOf :
    (paths : List Text) (perms : List Permission) → All (HasPathsOf (build_paths paths perms)) perms
unfolding build_paths
build_paths-HasPathsOf paths [] = tt
build_paths-HasPathsOf paths (p ∷ perms) =
    let (category, item) = add_paths-HasPathsOf paths p in
    (
      (
        build_paths_keeps (add_paths paths p) perms _ category,
        λ given. build_paths_keeps (add_paths paths p) perms _ (item given),
      ),
      build_paths-HasPathsOf (add_paths paths p) perms,
    )

-- The list holds, for each of the permissions, the path of its category, and that of its item where
-- one is given.
pub build_path_list-HasPathsOf :
    (perms : List Permission) → All (HasPathsOf (build_path_list perms)) perms
unfolding build_path_list
build_path_list-HasPathsOf perms = build_paths-HasPathsOf [] perms
