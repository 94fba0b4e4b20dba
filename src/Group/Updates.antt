-- ===== src/Group/Updates.antt =====
-- The calls of proxmox/config_group.go and of `configUserShort` that change users on the server.
use proxmox_api_go.Base.{
  Option, none, some, List, [], ◌∷◌, ◌++◌, Text, codes, Params, str, string_eq,
}
use proxmox_api_go.User
use proxmox_api_go.User.{UserId}
use proxmox_api_go.Group.{
  RawUser, UserShort, array_to_csv, remove_all_users_from_group, remove_all_users_from_group_except,
  users_to_add_to_group, users_to_remove_from_group,
}

-- What a call of the client reports.
pub data UpdateError : Type 0 where
  list_users : UpdateError
  update_user : UpdateError

-- The server: its state, the list of users with their groups, and a PUT request, which may fail.
pub record UserApi : Type 1 where
  pub State : Type 0
  pub users : State → Option (List RawUser)
  pub put : State → Text → Params → State × Option UpdateError

module _ (api : UserApi) where
  open api use {State, users, put}

  abbrev pub Call : Type 0
  Call = State × Option UpdateError

  -- The next call, if the one before returned no error.
  abbrev pub and_then : Call → (State → Call) → Call
  and_then (s, none) next = next s
  and_then (s, some e) next = (s, some e)

  -- `configUserShort.updateUserMembership`
  unfoldable pub update_user_membership : State → UserShort → Call
  update_user_membership s config =
      put s (codes "/access/users/" ++ User.print config.user)
        (("groups", str (array_to_csv (some config.groups))) ∷ [])

  -- `configUserShort.updateUsersMembership`
  unfoldable pub update_each : State → List UserShort → Call
  update_each s [] = (s, none)
  update_each s (e ∷ es) = and_then (update_user_membership s e) (λ t. update_each t es)

  unfoldable pub update_users_membership : State → Option (List UserShort) → Call
  update_users_membership s none = (s, none)
  update_users_membership s (some es) = update_each s es

  -- `GroupName.AddUsersToGroup`
  unfoldable pub add_users_to_group : State → Text → Option (List UserId) → Call
  add_users_to_group s group members = elim (users s) [
    | none ↦ (s, some list_users)
    | some us ↦ update_users_membership s (users_to_add_to_group group us members)
  ]

  -- `GroupName.RemoveUsersFromGroup`
  unfoldable pub remove_users_from_group : State → Text → Option (List UserId) → Call
  remove_users_from_group s group members = elim (users s) [
    | none ↦ (s, some list_users)
    | some us ↦ update_users_membership s (users_to_remove_from_group group us members)
  ]

  -- `GroupName.RemoveAllUsersFromGroup`
  unfoldable pub remove_all_users : State → Text → Call
  remove_all_users s group = elim (users s) [
    | none ↦ (s, some list_users)
    | some us ↦ update_users_membership s (some (remove_all_users_from_group group us))
  ]

  -- `GroupName.SetMembers`; the users are listed once, before both updates.
  unfoldable pub set_members : State → Text → Option (List UserId) → Call
  set_members s group members = elim (users s) [
    | none ↦ (s, some list_users)
    | some us ↦
        and_then (update_users_membership s (remove_all_users_from_group_except group us members))
          (λ t. update_users_membership t (users_to_add_to_group group us members))
  ]
