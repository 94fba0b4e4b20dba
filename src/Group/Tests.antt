-- ===== src/Group/Tests.antt =====
-- A server that keeps a list of users, and the theorems on it.
use proxmox_api_go.Base.{
  ◌≡◌, ◌≢◌, ◌∙◌, refl, ap, arith, Bool, true, false, Option, none, some, List, [], ◌∷◌, ◌++◌, Text,
  codes, text_eqb, text_eqb_iff, All, All-intro, map, str, if◌then◌else◌, Params, Value, lookup,
  string_eq, split_on,
}
use proxmox_api_go.User
use proxmox_api_go.User.{UserId}
use proxmox_api_go.Group.{
  RawUser, array_to_csv, csv_to_array, in_array, remove_from_array,
  remove_all_users_from_group_except, remove_each_except, users_to_add_to_group, add_each,
}
use proxmox_api_go.Group.Members.{ServesUsers, has_id, regroup, who_is_in}
use proxmox_api_go.Group.Each.{map-eq}
use proxmox_api_go.Group.Changes.{IsName}
use proxmox_api_go.Group.Updates.{
  UserApi, set_members, update_users_membership, update_each, update_user_membership,
}
use proxmox_api_go.Group.Setting.{set_members_lem}

abbrev has_path : Option Text → Text → Bool
has_path none path = false
has_path (some own) path = text_eqb (codes "/access/users/" ++ own) path

abbrev sent_groups : Option Value → Option Text → Option Text
sent_groups (some (str csv)) groups = some csv
sent_groups _ groups = groups

abbrev put_user : Text → Params → RawUser → RawUser
put_user path params u = record {
  user_id = u.user_id;
  groups =
      if has_path u.user_id path then sent_groups (lookup "groups" params) u.groups else u.groups;
}

abbrev server : UserApi
server = record {
  State = List RawUser;
  users = λ s. some s;
  put = λ s path params. (map (put_user path params) s, none);
}

has_path_lem :
    (own : Option Text) (id : Text) → has_path own (codes "/access/users/" ++ id) ≡ has_id own id
has_path_lem none id = refl
has_path_lem (some own) id = refl

put_user_lem :
    (id csv : Text) (u : RawUser)
    → put_user (codes "/access/users/" ++ id) (("groups", str csv) ∷ []) u ≡ regroup id csv u
unfolding lookup
put_user_lem id csv u = rw (has_path_lem u.user_id id) refl

serves :
    (s us : List RawUser) (id csv : Text)
    → ◌≡◌ {A = Option (List RawUser)} (some s) (some us)
    → ◌≡◌ {A = Option (List RawUser)}
        (some (map (put_user (codes "/access/users/" ++ id) (("groups", str csv) ∷ [])) s))
        (some (map (regroup id csv) us))
serves s us id csv e =
    let same : s ≡ us = cc in
    ap some (map-eq _ _ s (All-intro _ (put_user_lem id csv) s) ∙ ap (map (regroup id csv)) same)

server-ServesUsers : ServesUsers server
server-ServesUsers = record { replaces = λ s us id csv e. (refl, serves s us id csv e) }

abbrev user : Text → Text → RawUser
user id groups = record { user_id = some id; groups = some groups }

abbrev three_users : List RawUser
three_users =
    user (codes "ann@pve") (codes "ops,dev")
    ∷ user (codes "bob@pam") (codes "ops")
    ∷ user (codes "eve@pve") []
    ∷ []

abbrev two_members : List UserId
two_members =
    record { name = codes "ann"; realm = codes "pve" }
    ∷ record { name = codes "eve"; realm = codes "pve" }
    ∷ []

set_members_run :
    (set_members server three_users (codes "ops") (some two_members)).0
    ≡ user (codes "ann@pve") (codes "ops,dev")
      ∷ user (codes "bob@pam") []
      ∷ user (codes "eve@pve") (codes "ops")
      ∷ []
unfolding set_members update_users_membership update_each update_user_membership
    remove_all_users_from_group_except remove_each_except users_to_add_to_group add_each User.print
    User.map_to_struct in_array csv_to_array array_to_csv remove_from_array split_on lookup
set_members_run = refl

three_users_named : All (λ u. IsName u.user_id) three_users
unfolding User.print User.map_to_struct split_on
three_users_named = (refl, (refl, (refl, tt)))

differ : (s t : Text) → text_eqb s t ≡ false → s ≢ t
differ s t h e = cc ((text_eqb_iff s t).1 e)

set_members_lem_example :
    ((set_members server three_users (codes "ops") (some two_members)).1 ≡ none)
    × (who_is_in
          (codes "ops")
          (server.users (set_members server three_users (codes "ops") (some two_members)).0)
        ≡ some (
            (some (codes "ann@pve"), true)
            ∷ (some (codes "bob@pam"), false)
            ∷ (some (codes "eve@pve"), true)
            ∷ []))
unfolding User.print split_on
set_members_lem_example =
    set_members_lem server server-ServesUsers three_users (codes "ops") (codes "ops") three_users
      (some two_members) refl (λ e. cc) (omega arith) three_users_named
      ((differ _ _ refl, (differ _ _ refl, tt)), ((differ _ _ refl, tt), (tt, tt)))

-- The other group has the user that it had.
other_group_run :
    who_is_in
      (codes "dev")
      (server.users (set_members server three_users (codes "ops") (some two_members)).0)
    ≡ some (
        (some (codes "ann@pve"), true)
        ∷ (some (codes "bob@pam"), false)
        ∷ (some (codes "eve@pve"), false)
        ∷ [])
unfolding User.print split_on
other_group_run =
    (set_members_lem server server-ServesUsers three_users (codes "ops") (codes "dev") three_users
      (some two_members) refl (λ e. cc) (omega arith) three_users_named
      ((differ _ _ refl, (differ _ _ refl, tt)), ((differ _ _ refl, tt), (tt, tt)))).1
