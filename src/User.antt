-- ===== src/User.antt =====
-- proxmox/config_user.go: the names of users, `name@realm`.
pub mod Naming
mod Tests
use proxmox_api_go.Base.{
  Bool, ◌||◌, if◌then◌else◌, Option, none, some, List, [], ◌∷◌, ◌++◌, Text, text_eqb, split_on,
}

pub record UserId : Type 0 where
  pub name : Text
  pub realm : Text

pub data UserError : Type 0 where
  new_user_id : UserError
  no_name : UserError
  no_realm : UserError

-- `UserID.String`
unfoldable pub print : UserId → Text
print id = if text_eqb id.name [] || text_eqb id.realm [] then [] else id.name ++ b'@' ∷ id.realm

-- `NewUserID`: the value beside the error.
abbrev pub parsed : Text → Text → UserId × Option UserError
parsed name realm =
    if text_eqb name [] || text_eqb realm []
    then (record { name = []; realm = [] }, some new_user_id)
    else (record { name = name; realm = realm }, none)

abbrev pub parse_parts : List Text → UserId × Option UserError
parse_parts (name ∷ realm ∷ []) = parsed name realm
parse_parts _ = (record { name = []; realm = [] }, some new_user_id)

unfoldable pub parse : Text → UserId × Option UserError
parse user_id = parse_parts (split_on b'@' user_id)

-- `UserID.mapToStruct`, which drops the error.
unfoldable pub map_to_struct : Text → UserId
unfolding parse
map_to_struct user_id = (parse user_id).0

-- The loop of `NewUserIDs`.
abbrev pub add_parsed : UserId × Option UserError → Option (List UserId) → Option (List UserId)
add_parsed (id, some e) rest = none
add_parsed (id, none) none = none
add_parsed (id, none) (some ids) = some (id ∷ ids)

unfoldable pub parse_each : List Text → Option (List UserId)
parse_each [] = some []
parse_each (e ∷ es) = add_parsed (parse e) (parse_each es)

-- `NewUserIDs`; `none` is the error of the first text that is no name.
unfoldable pub parse_all : Text → Option (List UserId)
unfolding parse_each
parse_all [] = some []
parse_all (c ∷ s) = parse_each (split_on b',' (c ∷ s))

-- `UserID.Validate`
unfoldable pub validate : UserId → Option UserError
validate id =
    if text_eqb id.name []
    then some no_name
    else if text_eqb id.realm []
    then some no_realm
    else none
