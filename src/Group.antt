-- ===== src/Group.antt =====
-- proxmox/config_group.go: the groups of users. A group has no list of its members on the server: each
-- user has the list of its groups. `Group.Lists` is about these lists as texts, and `Group.Members`
-- about setting the members of a group.
pub mod Lists
pub mod Updates
pub mod Members
pub mod Each
pub mod Changes
pub mod Setting
mod Tests
use proxmox_api_go.Base.{
  Bool, true, false, ◌||◌, ◌&&◌, not, ltb, leb, nat_eqb, if◌then◌else◌, Option, none, some, List,
  [], ◌∷◌, ◌++◌, ℕ, Text, codes, text_eqb, text_eq, contains, filter, all, length, is_digit, map,
  split_on, Params, str,
}
use proxmox_api_go.User
use proxmox_api_go.User.{UserId}

-- `GroupName.arrayToCsv`
unfoldable pub join_more : Text → List Text → Text
join_more groups [] = groups
join_more groups (e ∷ es) = join_more (groups ++ b',' ∷ e) es

unfoldable pub array_to_csv : Option (List Text) → Text
unfolding join_more
array_to_csv none = []
array_to_csv (some []) = []
array_to_csv (some (e ∷ [])) = e
array_to_csv (some (e ∷ d ∷ es)) = join_more e (d ∷ es)

-- `GroupName.csvToArray`
unfoldable pub csv_to_array : Text → List Text
csv_to_array [] = []
csv_to_array (c ∷ s) = split_on b',' (c ∷ s)

-- `GroupName.inArray`
unfoldable pub in_array : Text → List Text → Bool
in_array group groups = if text_eqb group [] then false else contains groups group

-- `GroupName.removeFromArray`
unfoldable pub remove_from_array : Text → List Text → List Text
remove_from_array group groups = filter (λ e. not (text_eqb e group)) groups

-- A user in the answer of the server to `/access/users?full=1`, as far as it is read here. Both values
-- are texts there; the source would panic on another value of `groups`.
pub record RawUser : Type 0 where
  pub user_id : Option Text
  pub groups : Option Text

-- `configUserShort`
pub record UserShort : Type 0 where
  pub user : UserId
  pub groups : List Text

-- The groups of a user, where a user without the key has none.
abbrev pub groups_of : Option Text → List Text
groups_of none = []
groups_of (some csv) = csv_to_array csv

abbrev pub removal : Text → Text → List Text → List UserShort
removal group id groups =
    if in_array group groups
    then record { user = User.map_to_struct id; groups = remove_from_array group groups } ∷ []
    else []

-- One user of `removeAllUsersFromGroup`.
abbrev pub remove_user : Text → Option Text → Option Text → List UserShort
remove_user group none groups = []
remove_user group (some id) none = []
remove_user group (some id) (some csv) = removal group id (csv_to_array csv)

unfoldable pub remove_all_users_from_group : Text → List RawUser → List UserShort
remove_all_users_from_group group [] = []
remove_all_users_from_group group (u ∷ users) =
    remove_user group u.user_id u.groups ++ remove_all_users_from_group group users

-- One user of `removeAllUsersFromGroupExcept`.
abbrev pub remove_user_except : Text → List UserId → Option Text → Option Text → List UserShort
remove_user_except group members none groups = []
remove_user_except group members (some id) groups =
    if contains (map User.print members) id then [] else removal group id (groups_of groups)

unfoldable pub remove_each_except : Text → List UserId → List RawUser → List UserShort
remove_each_except group members [] = []
remove_each_except group members (u ∷ users) =
    remove_user_except group members u.user_id u.groups ++ remove_each_except group members users

-- `removeAllUsersFromGroupExcept`; `none` is nil.
unfoldable pub remove_all_users_from_group_except :
    Text → List RawUser → Option (List UserId) → Option (List UserShort)
remove_all_users_from_group_except [] users members = none
remove_all_users_from_group_except (c ∷ group) users none =
    some (remove_all_users_from_group (c ∷ group) users)
remove_all_users_from_group_except (c ∷ group) users (some []) =
    some (remove_all_users_from_group (c ∷ group) users)
remove_all_users_from_group_except (c ∷ group) users (some (m ∷ members)) =
    some (remove_each_except (c ∷ group) (m ∷ members) users)

-- The inner loop of `usersToAddToGroup` and of `usersToRemoveFromGroup`: a member that is listed twice
-- is updated twice.
abbrev pub for_members : (UserId → List UserShort) → Text → List UserId → List UserShort
for_members change id [] = []
for_members change id (m ∷ members) =
    let rest = for_members change id members in
    if text_eqb id (User.print m) then change m ++ rest else rest

abbrev pub addition : Text → List Text → UserId → List UserShort
addition group groups m =
    if not (in_array group groups)
    then record { user = m; groups = groups ++ group ∷ [] } ∷ []
    else []

abbrev pub add_user : Text → List UserId → Option Text → Option Text → List UserShort
add_user group members none groups = []
add_user group members (some id) groups = for_members (addition group (groups_of groups)) id members

unfoldable pub add_each : Text → List UserId → List RawUser → List UserShort
add_each group members [] = []
add_each group members (u ∷ users) =
    add_user group members u.user_id u.groups ++ add_each group members users

-- `usersToAddToGroup`
unfoldable pub users_to_add_to_group :
    Text → List RawUser → Option (List UserId) → Option (List UserShort)
users_to_add_to_group [] users members = none
users_to_add_to_group (c ∷ group) users none = none
users_to_add_to_group (c ∷ group) users (some members) = some (add_each (c ∷ group) members users)

abbrev pub member_removal : Text → List Text → UserId → List UserShort
member_removal group groups m =
    if in_array group groups
    then record { user = m; groups = remove_from_array group groups } ∷ []
    else []

abbrev pub drop_user : Text → List UserId → Option Text → Option Text → List UserShort
drop_user group members none groups = []
drop_user group members (some id) groups =
    for_members (member_removal group (groups_of groups)) id members

unfoldable pub drop_each : Text → List UserId → List RawUser → List UserShort
drop_each group members [] = []
drop_each group members (u ∷ users) =
    drop_user group members u.user_id u.groups ++ drop_each group members users

-- `usersToRemoveFromGroup`
unfoldable pub users_to_remove_from_group :
    Text → List RawUser → Option (List UserId) → Option (List UserShort)
users_to_remove_from_group [] users members = none
users_to_remove_from_group (c ∷ group) users none = none
users_to_remove_from_group (c ∷ group) users (some members) =
    some (drop_each (c ∷ group) members users)
