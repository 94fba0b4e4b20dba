-- ===== src/Permission/Cache/Agreement.antt =====
-- Checking against the extract of the cache is checking against the cache; and what a new client
-- checks.
use proxmox_api_go.Base.{
  ◌≡◌, ◌≢◌, refl, ap, ◌∙◌, arith, Bool, true, false, if◌then◌else◌, Option, none, some, List, [],
  ◌∷◌, Text, codes, text_eqb, text_eqb_iff, text_eq, Dict, lookup, lookup-insert, contains, Value,
  All, Bool-cases, inl, inr,
}
use proxmox_api_go.Permission.{
  Permission, PermissionError, Permissions, path, append, check, check_at, build_path_list,
}
use proxmox_api_go.Permission.PrivilegeSet.{Granted}
use proxmox_api_go.Permission.Check.{check_iff}
use proxmox_api_go.Permission.Paths.{HasPathsOf, build_path_list-HasPathsOf}
use proxmox_api_go.Permission.Cache.{
  Client, Result, ok, new_client, extract, extract_from, put_found, cached_permissions, check_all,
  check_valid_permissions, validate_all, check_permissions,
}

abbrev or_else : Option Granted → Option Granted → Option Granted
or_else (some granted) other = some granted
or_else none other = other

lookup-put_found :
    (q : Text) (o : Option Granted) (extracted : Permissions) (p : Text)
    → lookup p (put_found q o extracted)
      ≡ (if text_eqb q p then or_else o (lookup p extracted) else lookup p extracted)
lookup-put_found q none extracted p = ground arith
lookup-put_found q (some granted) extracted p = lookup-insert q p granted extracted

same_lookup :
    (cache : Permissions) (q p : Text) → text_eqb q p ≡ true → lookup q cache ≡ lookup p cache
same_lookup cache q p e = ap (λ k. lookup k cache) ((text_eqb_iff q p).0 e)

-- An entry of the extract is the cache's, for each path that is asked for.
lookup-extract :
    (cache : Permissions) (paths : List Text) (extracted : Permissions) (p : Text)
    → lookup p (extract cache paths extracted) ≡ (
        if contains paths p
        then or_else (lookup p cache) (lookup p extracted)
        else lookup p extracted)
unfolding extract
lookup-extract cache [] extracted p = refl
lookup-extract cache (q ∷ paths) extracted p = ground (
  arith,
  lookup-extract cache paths (put_found q (lookup q cache) extracted) p,
  lookup-put_found q (lookup q cache) extracted p,
  same_lookup cache q p,
)

check_at-agrees :
    (p : Permission) (m n : Permissions) (place : Text) (propagates : Bool)
    (rest : Option PermissionError)
    → lookup place m ≡ lookup place n
    → check_at p m place propagates rest ≡ check_at p n place propagates rest
unfolding check_at
check_at-agrees p m n place propagates rest e = rw (e, check_at) refl

not_both : {b : Bool} → b ≡ false → b ≡ true → ⊥
not_both f t = cc

-- `check` sees a map only at the two paths of the permission.
check-agrees :
    (p : Permission) (m n : Permissions)
    → lookup (path p.category) m ≡ lookup (path p.category) n
    → (p.item ≢ []
        → lookup (append (path p.category) p.item) m ≡ lookup (append (path p.category) p.item) n)
    → check p m ≡ check p n
unfolding check
check-agrees p m n category item =
    let place = path p.category in
    let at_category = check_at-agrees p m n place true none category in
    elim (Bool-cases (text_eqb p.item [])) [
      | inl empty ↦ rw empty at_category
      | inr given ↦
          let at_item = item (λ e. not_both given ((text_eqb_iff p.item []).1 e)) in
          rw (given, at_category)
            (check_at-agrees p m n (append place p.item) false (check_at p n place true none)
              at_item)
    ]

or_else_nothing : (o : Option Granted) (p : Text) → or_else o (lookup p []) ≡ o
unfolding lookup
or_else_nothing none p = refl
or_else_nothing (some granted) p = refl

lookup-extract_of_contains :
    (cache : Permissions) (paths : List Text) (p : Text)
    → contains paths p ≡ true
    → lookup p (extract cache paths []) ≡ lookup p cache
lookup-extract_of_contains cache paths p h =
    lookup-extract cache paths [] p ∙ rw h (or_else_nothing (lookup p cache) p)

check_all-extract :
    (cache : Permissions) (paths : List Text) (perms : List Permission)
    → All (HasPathsOf paths) perms
    → check_all perms (extract cache paths []) ≡ check_all perms cache
unfolding check_all
check_all-extract cache paths [] h = refl
check_all-extract cache paths (p ∷ perms) ((category, item), hs) =
    rw
      (
        check-agrees p (extract cache paths []) cache
            (lookup-extract_of_contains cache paths _ category)
            (λ given. lookup-extract_of_contains cache paths _ (item given)),
        check_all-extract cache paths perms hs,
      )
      refl

not_eq : (s t : Text) → s ≢ t → text_eqb s t ≡ false
not_eq s t ne = ground (arith, text_eqb_iff s t)

extracted_lem :
    (answer : Result (Dict Text Value)) (c : Client) (cache : Permissions) (paths : List Text)
    → c.permissions ≡ some cache
    → cached_permissions answer c paths ≡ (c, ok (extract cache paths []))
unfolding cached_permissions extract_from
extracted_lem answer c cache paths loaded = ap (λ o. extract_from answer c paths o) loaded

-- Past the validation.
validated :
    (answer : Result (Dict Text Value)) (c : Option Client) (perms : List Permission)
    → validate_all perms ≡ none
    → check_permissions answer c perms ≡ check_valid_permissions answer c perms
unfolding check_permissions
validated answer c perms valid = rw (valid, check_permissions) refl

-- A client with permissions checks a list of valid ones against its whole cache: the extract of the
-- paths that `buildPathList` gathers decides as the cache does. It asks the server nothing.
pub check_permissions-agrees :
    (answer : Result (Dict Text Value)) (c : Client) (cache : Permissions) (perms : List Permission)
    → c.permissions ≡ some cache
    → c.username ≢ codes "root@pam"
    → validate_all perms ≡ none
    → check_permissions answer (some c) perms ≡ (some c, check_all perms cache)
unfolding check_valid_permissions
check_permissions-agrees answer c cache perms loaded user valid =
    let paths = build_path_list perms in
    let other = not_eq c.username (codes "root@pam") user in
    rw (validated answer (some c) perms valid, other, extracted_lem answer c cache paths loaded)
      (ap (λ e. (some c, e))
        (check_all-extract cache paths perms (build_path_list-HasPathsOf perms)))

check_nothing : (p : Permission) → check p [] ≡ none
unfolding lookup
check_nothing p = (check_iff p []).1 (λ _. tt, tt)

check_all_nothing : (perms : List Permission) → check_all perms [] ≡ none
unfolding check_all
check_all_nothing [] = refl
check_all_nothing (p ∷ perms) = rw (check_nothing p) (check_all_nothing perms)

-- A client that was just made lets every list of valid permissions through, for every user and
-- whatever the server would answer: its cache is made empty, and is not filled before it is checked.
pub new_client_unchecked :
    (answer : Result (Dict Text Value)) (username : Text) (perms : List Permission)
    → validate_all perms ≡ none
    → (check_permissions answer (some (new_client username)) perms).1 ≡ none
unfolding check_valid_permissions
new_client_unchecked answer username perms valid =
    elim (Bool-cases (text_eqb username (codes "root@pam"))) [
      | inl root ↦ rw (validated answer _ perms valid, as_root root) refl
      | inr other ↦
          ap (λ r. r.1)
            (check_permissions-agrees answer (new_client username) [] perms made (made_other other)
              valid)
          ∙ check_all_nothing perms
    ]
  where
    made : (new_client username).permissions ≡ some []
    made = unfold new_client in refl

    as_root :
        text_eqb username (codes "root@pam") ≡ true
        → check_valid_permissions answer (some (new_client username)) perms
          ≡ (some (new_client username), none)
    as_root root = unfold new_client in rw root refl

    made_other :
        text_eqb username (codes "root@pam") ≡ false
        → (new_client username).username ≢ codes "root@pam"
    made_other other e = unfold new_client in not_both other ((text_eqb_iff username _).1 e)
