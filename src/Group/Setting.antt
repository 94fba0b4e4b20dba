-- ===== src/Group/Setting.antt =====
-- `SetMembers` on a server that serves its users.
use proxmox_api_go.Base.{
  ℕ, ◌≡◌, ◌≢◌, ◌∙◌, refl, sym, ap, Option, none, some, List, [], ◌∷◌, Text, All, All-intro, map,
  Lacks,
}
use proxmox_api_go.User
use proxmox_api_go.User.{UserId}
use proxmox_api_go.Group.{
  RawUser, UserShort, array_to_csv, remove_all_users_from_group_except, add_user,
  users_to_add_to_group,
}
use proxmox_api_go.Group.Members.{
  ServesUsers, settled, who_is_in, is_in, is_in_after, settled-is_in,
}
use proxmox_api_go.Group.Each.{
  updated, updated_all, updated_all-user_id, AreDistinct, flat, updated_each, map-eq,
}
use proxmox_api_go.Group.Changes.{
  IsName, removals, listed, additions, removals-Targets, add_user-Targets, remove_all-flat,
  remove_each-flat, add_each-flat, contributed_lem,
}
use proxmox_api_go.Group.Updates.{
  UserApi, Call, and_then, update_user_membership, update_each, update_users_membership,
  set_members,
}

map-map {ℓ κ} :
    {A : Type ℓ} {B : Type κ} (f : A → B) (g : A → A) (xs : List A)
    → map f (map g xs) ≡ map (λ x. f (g x)) xs
map-map f g [] = refl
map-map f g (x ∷ xs) = ap (λ ys. f (g x) ∷ ys) (map-map f g xs)

map-same {ℓ} : {A : Type ℓ} (xs : List A) → map (λ x. x) xs ≡ xs
map-same [] = refl
map-same (x ∷ xs) = ap (λ ys. x ∷ ys) (map-same xs)

All-map {ℓ κ} :
    {A : Type ℓ} {P Q : A → Type κ} (f : (x : A) → P x → Q x) (xs : List A) → All P xs → All Q xs
All-map f [] h = tt
All-map f (x ∷ xs) (h, hs) = (f x h, All-map f xs hs)

-- Both updates of `SetMembers`, for a group that is not empty.
removed-flat :
    (c : ℕ) (g : Text) (us : List RawUser) (members : Option (List UserId))
    → remove_all_users_from_group_except (c ∷ g) us members
      ≡ some (flat (removals (c ∷ g) members) us)
unfolding remove_all_users_from_group_except
removed-flat c g us none = ap some (remove_all-flat (c ∷ g) us)
removed-flat c g us (some []) = ap some (remove_all-flat (c ∷ g) us)
removed-flat c g us (some (m ∷ members)) = ap some (remove_each-flat (c ∷ g) (m ∷ members) us)

-- Every user is settled by both updates.
settles :
    (group : Text) (us : List RawUser) (members : Option (List UserId))
    → All (λ u. IsName u.user_id) us
    → AreDistinct us
    → map
        (updated_all (flat (additions group members) us))
        (map (updated_all (flat (removals group members) us)) us)
      ≡ map (settled group (map User.print (listed members))) us
settles group us members names distinct =
    let remove = removals group members in
    let add = additions group members in
    let removes : map (updated_all (flat remove us)) us ≡ map (λ u. updated_all (remove u) u) us =
      map-eq _ _ us (
        updated_each remove (λ u. u) (λ u. refl) us
          (All-map (λ u h. removals-Targets group members u h) us names) distinct) in
    let adds : map (λ u. updated_all (flat add us) (updated_all (remove u) u)) us
        ≡ map (λ u. updated_all (add u) (updated_all (remove u) u)) us =
      map-eq _ _ us (
        updated_each add (λ u. updated_all (remove u) u) (λ u. updated_all-user_id (remove u) u) us
          (All-map (λ u h. add_user-Targets group (listed members) u.user_id u.groups) us names)
          distinct) in
    ap (map (updated_all (flat add us))) removes
    ∙ map-map (updated_all (flat add us)) (λ u. updated_all (remove u) u) us
    ∙ adds
    ∙ map-eq _ _ us (All-map (λ u h. contributed_lem group members u.user_id u.groups h) us names)

no_additions : (group : Text) (id own : Option Text) → add_user group [] id own ≡ []
no_additions group none own = refl
no_additions group (some id) own = refl

no_additions-flat : (group : Text) (us : List RawUser) → flat (additions group none) us ≡ []
no_additions-flat group [] = refl
no_additions-flat group (u ∷ us) =
    rw (no_additions group u.user_id u.groups) (no_additions-flat group us)

module _ (api : UserApi) (serves : ServesUsers api) where
  and_then-none :
      (call : Call api) (next : api.State → Call api)
      → call.1 ≡ none
      → and_then api call next ≡ next call.0
  and_then-none (s, none) next e = refl
  and_then-none (s, some err) next e = cc

  -- The list of users after a list of updates.
  update_each_lem :
      (s : api.State) (us : List RawUser) (es : List UserShort)
      → api.users s ≡ some us
      → ((update_each api s es).1 ≡ none)
        × (api.users (update_each api s es).0 ≡ some (map (updated_all es) us))
  unfolding update_each update_user_membership
  update_each_lem s us [] e = (refl, e ∙ ap some (sym (map-same us)))
  update_each_lem s us (u ∷ es) e =
      let (fine, users) =
        serves.replaces s us (User.print u.user) (array_to_csv (some u.groups)) e in
      let (fine', users') =
        update_each_lem (update_user_membership api s u).0 (map (updated u) us) es users in
      rw (and_then-none (update_user_membership api s u) (λ t. update_each api t es) fine)
        (fine', users' ∙ ap some (map-map (updated_all es) (updated u) us))

  updates_lem :
      (s : api.State) (us : List RawUser) (es : List UserShort)
      → api.users s ≡ some us
      → ((update_users_membership api s (some es)).1 ≡ none)
        × (api.users (update_users_membership api s (some es)).0 ≡ some (map (updated_all es) us))
  unfolding update_users_membership
  updates_lem s us es e = update_each_lem s us es e

  added_lem :
      (c : ℕ) (g : Text) (s : api.State) (all us : List RawUser) (members : Option (List UserId))
      → api.users s ≡ some us
      → ((update_users_membership api s (users_to_add_to_group (c ∷ g) all members)).1 ≡ none)
        × (api.users (update_users_membership api s (users_to_add_to_group (c ∷ g) all members)).0
            ≡ some (map (updated_all (flat (additions (c ∷ g) members) all)) us))
  unfolding users_to_add_to_group update_users_membership
  added_lem c g s all us none e =
      (refl, rw (no_additions-flat (c ∷ g) all) (e ∙ ap some (sym (map-same us))))
  added_lem c g s all us (some members) e =
      rw (add_each-flat (c ∷ g) members all) (updates_lem s us _ e)

  -- The list of users after `SetMembers`, where no call fails.
  set_members-settled :
      (s : api.State) (group : Text) (us : List RawUser) (members : Option (List UserId))
      → api.users s ≡ some us
      → group ≢ []
      → All (λ u. IsName u.user_id) us
      → AreDistinct us
      → ((set_members api s group members).1 ≡ none)
        × (api.users (set_members api s group members).0
            ≡ some (map (settled group (map User.print (listed members))) us))
  unfolding set_members
  set_members-settled s [] us members e given names distinct = absurd (given refl)
  set_members-settled s (c ∷ g) us members e given names distinct =
      let removed = updates_lem s us (flat (removals (c ∷ g) members) us) e in
      let t = (update_users_membership api s (some (flat (removals (c ∷ g) members) us))).0 in
      let added =
        added_lem c g t us (map (updated_all (flat (removals (c ∷ g) members) us)) us) members
          removed.1 in
      rw
        (
          e,
          set_members,
          removed-flat c g us members,
          and_then-none (update_users_membership api s (some (flat (removals (c ∷ g) members) us)))
              (λ t. update_users_membership api t (users_to_add_to_group (c ∷ g) us members))
              removed.0,
        )
        (added.0, added.1 ∙ ap some (settles (c ∷ g) us members names distinct))

  -- After `SetMembers` no call has failed, and the list of users shows the same users in the same order,
  -- where each that has a name is in the group exactly if it is one of the members that are given, and in
  -- every other group exactly if it was: the group has a name without a comma, and the users have
  -- different names of the form `name@realm`.
  pub set_members_lem :
      (s : api.State) (group other : Text) (us : List RawUser) (members : Option (List UserId))
      → api.users s ≡ some us
      → group ≢ []
      → Lacks b',' group
      → All (λ u. IsName u.user_id) us
      → AreDistinct us
      → ((set_members api s group members).1 ≡ none)
        × (who_is_in other (api.users (set_members api s group members).0)
            ≡ some (
                map
                  (λ u. (
                    u.user_id,
                    is_in_after other group (map User.print (listed members)) u.user_id u.groups,
                  ))
                  us))
  set_members_lem s group other us members e given clean names distinct =
      let (fine, after) = set_members-settled s group us members e given names distinct in
      let ids = map User.print (listed members) in
      (
        fine,
        ap (who_is_in other) after
            ∙ ap some (
                map-map (λ u. (u.user_id, is_in other u.groups)) (settled group ids) us
                ∙ map-eq _ _ us (
                    All-intro _
                      (λ u. ap (λ b. (u.user_id, b)) (settled-is_in other group ids u given clean))
                      us)),
      )
