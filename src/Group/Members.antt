-- ===== src/Group/Members.antt =====
-- Setting the members of a group.
use proxmox_api_go.Base.{
  ◌≡◌, ◌≢◌, ◌∙◌, refl, sym, ap, ◌&&◌, not, split_on, Bool-cases, inl, inr, arith, Bool, false,
  if◌then◌else◌, Option, none, some, List, [], ◌∷◌, ◌++◌, Text, codes, text_eqb, text_eqb_iff,
  text_eq, contains, Lacks, map, str,
}
use proxmox_api_go.Group.{
  RawUser, array_to_csv, csv_to_array, in_array, remove_from_array, groups_of,
}
use proxmox_api_go.Group.Lists.{in_array-remove, in_array-add}
use proxmox_api_go.Group.Updates.{UserApi}

abbrev pub has_id : Option Text → Text → Bool
has_id none id = false
has_id (some own) id = text_eqb own id

-- The user after its list of groups was replaced, if it is the one that is named.
abbrev pub regroup : Text → Text → RawUser → RawUser
regroup id csv u = record {
  user_id = u.user_id;
  groups = if has_id u.user_id id then some csv else u.groups;
}

-- What is relied on of the server: a PUT request for a user with the key `groups` replaces that user's
-- groups, leaves the other users, and does not fail; and the list of users shows it.
pub record ServesUsers (api : UserApi) : Type 0 where
  pub replaces :
      (s : api.State) (us : List RawUser) (id csv : Text)
      → api.users s ≡ some us
      → ((api.put s (codes "/access/users/" ++ id) (("groups", str csv) ∷ [])).1 ≡ none)
        × (api.users (api.put s (codes "/access/users/" ++ id) (("groups", str csv) ∷ [])).0
            ≡ some (map (regroup id csv) us))

-- A user after the members of a group were set, by the names of the members: it is added where it is
-- one of them and not in the group, and removed where it is in the group and none of them.
abbrev pub settled_groups : Text → List Text → Option Text → Option Text → Option Text
settled_groups group ids none groups = groups
settled_groups group ids (some id) groups =
    if contains ids id
    then if in_array group (groups_of groups)
      then groups
      else some (array_to_csv (some (groups_of groups ++ group ∷ [])))
    else if in_array group (groups_of groups)
    then some (array_to_csv (some (remove_from_array group (groups_of groups))))
    else groups

abbrev pub settled : Text → List Text → RawUser → RawUser
settled group ids u = record {
  user_id = u.user_id;
  groups = settled_groups group ids u.user_id u.groups;
}

-- Whether a user with this text of groups is in a group: the texts between its commas are the names of
-- its groups, and the empty text is no name.
abbrev pub is_in : Text → Option Text → Bool
is_in group none = false
is_in group (some csv) = not (text_eqb group []) && contains (split_on b',' csv) group

-- Each user of a list, with whether it is in a group.
abbrev pub who_is_in : Text → Option (List RawUser) → Option (List (Option Text × Bool))
who_is_in group none = none
who_is_in group (some us) = some (map (λ u. (u.user_id, is_in group u.groups)) us)

-- Whether a user is to be in a group after the members of one group were set, by the names of the
-- members: in that group exactly if it is a member, in another exactly if it was. A user without a name is
-- left as it was.
abbrev pub is_in_after : Text → Text → List Text → Option Text → Option Text → Bool
is_in_after other group ids none groups = is_in other groups
is_in_after other group ids (some id) groups =
    if text_eqb other group then contains ids id else is_in other groups

in_array-is_in :
    (group : Text) (groups : Option Text) → in_array group (groups_of groups) ≡ is_in group groups
unfolding in_array csv_to_array split_on
in_array-is_in group none = elim (Bool-cases (text_eqb group [])) [
  | inl e ↦ rw e refl
  | inr e ↦ rw e refl
]
in_array-is_in [] (some []) = refl
in_array-is_in (b ∷ group) (some []) = refl
in_array-is_in group (some (c ∷ csv)) = elim (Bool-cases (text_eqb group [])) [
  | inl e ↦ rw e refl
  | inr e ↦ rw e refl
]

-- A user that has a name is in the group exactly if it is one of the members, and in every other group
-- as before.
settled_lem :
    (other group : Text) (ids : List Text) (id : Text) (groups : Option Text)
    → group ≢ []
    → Lacks b',' group
    → in_array other (groups_of (settled_groups group ids (some id) groups))
      ≡ (if text_eqb other group then contains ids id else in_array other (groups_of groups))
settled_lem other group ids id groups given clean = ground (
  arith,
  in_array-remove other group groups,
  in_array-add other group groups given clean,
  text_eqb_iff other group,
)

settled_groups-is_in :
    (other group : Text) (ids : List Text) (id groups : Option Text)
    → group ≢ []
    → Lacks b',' group
    → is_in other (settled_groups group ids id groups) ≡ is_in_after other group ids id groups
settled_groups-is_in other group ids none groups given clean = refl
settled_groups-is_in other group ids (some id) groups given clean =
    sym (in_array-is_in other (settled_groups group ids (some id) groups))
    ∙ settled_lem other group ids id groups given clean
    ∙ ap (λ b. if text_eqb other group then contains ids id else b) (in_array-is_in other groups)

pub settled-is_in :
    (other group : Text) (ids : List Text) (u : RawUser)
    → group ≢ []
    → Lacks b',' group
    → is_in other (settled group ids u).groups ≡ is_in_after other group ids u.user_id u.groups
settled-is_in other group ids u given clean =
    settled_groups-is_in other group ids u.user_id u.groups given clean
