-- ===== src/Group/Changes.antt =====
-- What each user contributes to the updates of `SetMembers`.
use proxmox_api_go.Base.{
  ◌≡◌, ◌∙◌, refl, sym, ap, arith, Bool, true, false, Option, none, some, List, [], ◌∷◌, ◌++◌, Text,
  text_eqb, text_eqb_iff, text_eq, Bool-cases, inl, inr, map, if◌then◌else◌, contains,
}
use proxmox_api_go.User
use proxmox_api_go.User.{UserId}
use proxmox_api_go.Group.{
  RawUser, UserShort, array_to_csv, in_array, remove_from_array, groups_of, removal, remove_user,
  remove_user_except, remove_all_users_from_group, remove_each_except, for_members, addition,
  add_user, add_each,
}
use proxmox_api_go.Group.Members.{settled, settled_groups}
use proxmox_api_go.Group.Each.{updated_all, Targets, flat}

-- The name of a user has the form `name@realm`, so that it is read as a `UserID` and printed back.
abbrev pub IsName : Option Text → Type 0
IsName none = Unit
IsName (some id) = User.print (User.map_to_struct id) ≡ id

-- What one user contributes to the removals, for a group that is not empty.
abbrev pub removals : Text → Option (List UserId) → RawUser → List UserShort
removals group none u = remove_user group u.user_id u.groups
removals group (some []) u = remove_user group u.user_id u.groups
removals group (some (m ∷ members)) u = remove_user_except group (m ∷ members) u.user_id u.groups

abbrev pub listed : Option (List UserId) → List UserId
listed none = []
listed (some members) = members

abbrev pub additions : Text → Option (List UserId) → RawUser → List UserShort
additions group members u = add_user group (listed members) u.user_id u.groups

removal-Targets :
    (group id : Text) (groups : List Text)
    → IsName (some id)
    → Targets (some id) (removal group id groups)
removal-Targets group id groups name = elim (Bool-cases (in_array group groups)) [
  | inl e ↦ rw e (name, tt)
  | inr e ↦ rw e tt
]

pub remove_user-Targets :
    (group : Text) (id groups : Option Text) → IsName id → Targets id (remove_user group id groups)
remove_user-Targets group none groups name = refl
remove_user-Targets group (some id) none name = tt
remove_user-Targets group (some id) (some csv) name = removal-Targets group id _ name

pub remove_user_except-Targets :
    (group : Text) (members : List UserId) (id groups : Option Text)
    → IsName id
    → Targets id (remove_user_except group members id groups)
remove_user_except-Targets group members none groups name = refl
remove_user_except-Targets group members (some id) groups name =
    elim (Bool-cases (contains (map User.print members) id)) [
      | inl e ↦ rw e tt
      | inr e ↦ rw e (removal-Targets group id _ name)
    ]

for_members-Targets :
    (group id : Text) (groups : List Text) (members : List UserId)
    → Targets (some id) (for_members (addition group groups) id members)
for_members-Targets group id groups [] = tt
for_members-Targets group id groups (m ∷ members) = elim (Bool-cases (text_eqb id (User.print m))) [
  | inr e ↦ rw e (for_members-Targets group id groups members)
  | inl e ↦ rw e (elim (Bool-cases (in_array group groups)) [
    | inl old ↦ rw old (for_members-Targets group id groups members)
    | inr new ↦
        rw new
          (sym ((text_eqb_iff id (User.print m)).0 e), for_members-Targets group id groups members)
  ])
]

pub add_user-Targets :
    (group : Text) (members : List UserId) (id groups : Option Text)
    → Targets id (add_user group members id groups)
add_user-Targets group members none groups = refl
add_user-Targets group members (some id) groups =
    for_members-Targets group id (groups_of groups) members

pub remove_all-flat :
    (group : Text) (us : List RawUser)
    → remove_all_users_from_group group us ≡ flat (λ u. remove_user group u.user_id u.groups) us
unfolding remove_all_users_from_group
remove_all-flat group [] = refl
remove_all-flat group (u ∷ us) =
    ap (λ es. remove_user group u.user_id u.groups ++ es) (remove_all-flat group us)

pub remove_each-flat :
    (group : Text) (members : List UserId) (us : List RawUser)
    → remove_each_except group members us
      ≡ flat (λ u. remove_user_except group members u.user_id u.groups) us
unfolding remove_each_except
remove_each-flat group members [] = refl
remove_each-flat group members (u ∷ us) =
    ap (λ es. remove_user_except group members u.user_id u.groups ++ es)
      (remove_each-flat group members us)

pub add_each-flat :
    (group : Text) (members : List UserId) (us : List RawUser)
    → add_each group members us ≡ flat (λ u. add_user group members u.user_id u.groups) us
unfolding add_each
add_each-flat group members [] = refl
add_each-flat group members (u ∷ us) =
    ap (λ es. add_user group members u.user_id u.groups ++ es) (add_each-flat group members us)

pub removals-Targets :
    (group : Text) (members : Option (List UserId)) (u : RawUser)
    → IsName u.user_id
    → Targets u.user_id (removals group members u)
removals-Targets group none u name = remove_user-Targets group u.user_id u.groups name
removals-Targets group (some []) u name = remove_user-Targets group u.user_id u.groups name
removals-Targets group (some (m ∷ members)) u name =
    remove_user_except-Targets group (m ∷ members) u.user_id u.groups name

abbrev user : Option Text → Option Text → RawUser
user id groups = record { user_id = id; groups = groups }

not_symm : (s t : Text) → text_eqb s t ≡ false → text_eqb t s ≡ false
not_symm s t h = ground (arith, text_eqb_iff s t, text_eqb_iff t s)

is_symm : (s t : Text) → text_eqb s t ≡ true → text_eqb t s ≡ true
is_symm s t h = ground (arith, text_eqb_iff s t, text_eqb_iff t s)

no_additions :
    (group id : Text) (groups : List Text) (members : List UserId)
    → in_array group groups ≡ true
    → for_members (addition group groups) id members ≡ []
no_additions group id groups [] old = refl
no_additions group id groups (m ∷ members) old = elim (Bool-cases (text_eqb id (User.print m))) [
  | inl e ↦ rw (e, old) (no_additions group id groups members old)
  | inr e ↦ rw e (no_additions group id groups members old)
]

-- The additions of one user put it in the group, as often as it is listed.
additions_lem :
    (group id : Text) (groups : List Text) (members : List UserId) (own : Option Text)
    → in_array group groups ≡ false
    → updated_all (for_members (addition group groups) id members) (user (some id) own)
      ≡ user (some id) (
          if contains (map User.print members) id
          then some (array_to_csv (some (groups ++ group ∷ [])))
          else own)
additions_lem group id groups [] own new = refl
additions_lem group id groups (m ∷ members) own new =
    elim (Bool-cases (text_eqb id (User.print m))) [
      | inr e ↦ rw (e, not_symm id (User.print m) e) (additions_lem group id groups members own new)
      | inl e ↦
          rw (e, new, is_symm id (User.print m) e, e)
            (additions_lem group id groups members
                (some (array_to_csv (some (groups ++ group ∷ [])))) new
              ∙ ap (user (some id)) (if_same (contains (map User.print members) id)))
    ]
  where
    if_same : {A : Type 0} {a : A} (b : Bool) → (if b then a else a) ≡ a
    if_same true = refl
    if_same false = refl

in_array_nil : (group : Text) → in_array group [] ≡ false
unfolding in_array
in_array_nil group = ground arith

removal_lem :
    (group id : Text) (own : Option Text)
    → IsName (some id)
    → updated_all (removal group id (groups_of own)) (user (some id) own)
      ≡ user (some id) (
          if in_array group (groups_of own)
          then some (array_to_csv (some (remove_from_array group (groups_of own))))
          else own)
removal_lem group id own name = elim (Bool-cases (in_array group (groups_of own))) [
  | inl e ↦ rw (e, name, (text_eqb_iff id id).1 refl) refl
  | inr e ↦ rw e refl
]

removed :
    (group : Text) (members : Option (List UserId)) (id : Text) (own : Option Text)
    → IsName (some id)
    → updated_all (removals group members (user (some id) own)) (user (some id) own)
      ≡ user (some id) (
          if contains (map User.print (listed members)) id
          then own
          else if in_array group (groups_of own)
          then some (array_to_csv (some (remove_from_array group (groups_of own))))
          else own)
removed group none id none name = rw (in_array_nil group) refl
removed group none id (some csv) name = removal_lem group id (some csv) name
removed group (some []) id none name = rw (in_array_nil group) refl
removed group (some []) id (some csv) name = removal_lem group id (some csv) name
removed group (some (m ∷ members)) id own name =
    elim (Bool-cases (contains (map User.print (m ∷ members)) id)) [
      | inl e ↦ rw e refl
      | inr e ↦ rw e (removal_lem group id own name)
    ]

not_listed :
    (change : UserId → List UserShort) (id : Text) (members : List UserId)
    → contains (map User.print members) id ≡ false
    → for_members change id members ≡ []
not_listed change id [] h = refl
not_listed change id (m ∷ members) h = ground (
  arith,
  text_eqb_iff id (User.print m),
  text_eqb_iff (User.print m) id,
  not_listed change id members,
)

contributed :
    (group : Text) (members : Option (List UserId)) (id : Text) (own : Option Text)
    → IsName (some id)
    → updated_all
        (for_members (addition group (groups_of own)) id (listed members))
        (updated_all (removals group members (user (some id) own)) (user (some id) own))
      ≡ user (some id) (settled_groups group (map User.print (listed members)) (some id) own)
contributed group members id own name =
    rw (removed group members id own name)
      (elim (Bool-cases (contains (map User.print (listed members)) id)) [
        | inr e ↦ rw (e, not_listed (addition group (groups_of own)) id (listed members) e) refl
        | inl e ↦ elim (Bool-cases (in_array group (groups_of own))) [
          | inl old ↦ rw (e, old, no_additions group id (groups_of own) (listed members) old) refl
          | inr new ↦
              rw (e, new)
                (additions_lem group id (groups_of own) (listed members) own new ∙ rw e refl)
        ]
      ])

-- The removals and then the additions of one user settle its groups.
pub contributed_lem :
    (group : Text) (members : Option (List UserId)) (id own : Option Text)
    → IsName id
    → updated_all
        (additions group members (user id own))
        (updated_all (removals group members (user id own)) (user id own))
      ≡ settled group (map User.print (listed members)) (user id own)
contributed_lem group none none own name = refl
contributed_lem group (some []) none own name = refl
contributed_lem group (some (m ∷ members)) none own name = refl
contributed_lem group members (some id) own name = contributed group members id own name
