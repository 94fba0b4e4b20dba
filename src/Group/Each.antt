-- ===== src/Group/Each.antt =====
-- Updates that are gathered user by user, in a list of users with different names, act on each user
-- by its own updates alone.
use proxmox_api_go.Base.{
  ◌≡◌, ◌≢◌, ◌∙◌, refl, sym, ap, arith, false, Option, none, some, List, [], ◌∷◌, ◌++◌, Text,
  text_eqb_iff, All, map,
}
use proxmox_api_go.User
use proxmox_api_go.Group.{RawUser, UserShort, array_to_csv}
use proxmox_api_go.Group.Members.{has_id, regroup}

abbrev pub updated : UserShort → RawUser → RawUser
updated e u = regroup (User.print e.user) (array_to_csv (some e.groups)) u

abbrev pub updated_all : List UserShort → RawUser → RawUser
updated_all [] u = u
updated_all (e ∷ es) u = updated_all es (updated e u)

-- The names of two users differ, where they have names.
abbrev pub Differ : Option Text → Option Text → Type 0
Differ none b = Unit
Differ (some a) none = Unit
Differ (some a) (some b) = a ≢ b

Differ-symm : (a b : Option Text) → Differ a b → Differ b a
Differ-symm none none h = tt
Differ-symm none (some b) h = tt
Differ-symm (some a) none h = tt
Differ-symm (some a) (some b) h = λ e. h (sym e)

-- No two users have the same name.
abbrev pub AreDistinct : List RawUser → Type 0
AreDistinct [] = Unit
AreDistinct (u ∷ us) = All (λ v. Differ u.user_id v.user_id) us × AreDistinct us

-- All of the updates are of the user with the name, and there are none without one.
abbrev pub Targets : Option Text → List UserShort → Type 0
Targets none es = es ≡ []
Targets (some id) es = All (λ e. User.print e.user ≡ id) es

abbrev pub flat : (RawUser → List UserShort) → List RawUser → List UserShort
flat r [] = []
flat r (u ∷ us) = r u ++ flat r us

pub updated_all-append :
    (xs ys : List UserShort) (u : RawUser)
    → updated_all (xs ++ ys) u ≡ updated_all ys (updated_all xs u)
updated_all-append [] ys u = refl
updated_all-append (e ∷ xs) ys u = updated_all-append xs ys (updated e u)

pub updated_all-user_id :
    (es : List UserShort) (u : RawUser) → (updated_all es u).user_id ≡ u.user_id
updated_all-user_id [] u = refl
updated_all-user_id (e ∷ es) u = updated_all-user_id es (updated e u)

has_id_of_Differ : (own : Option Text) (id : Text) → Differ own (some id) → has_id own id ≡ false
has_id_of_Differ none id h = refl
has_id_of_Differ (some a) id h = ground (arith, text_eqb_iff a id)

regroup_other : (id csv : Text) (u : RawUser) → has_id u.user_id id ≡ false → regroup id csv u ≡ u
regroup_other id csv u h = rw h refl

skip :
    (id : Option Text) (es : List UserShort) (u : RawUser)
    → Targets id es
    → Differ u.user_id id
    → updated_all es u ≡ u
skip none es u h d = rw h refl
skip (some id) [] u h d = refl
skip (some id) (e ∷ es) u (h, hs) d =
    let same : updated e u ≡ u =
      regroup_other (User.print e.user) _ u (rw h (has_id_of_Differ u.user_id id d)) in
    rw same (skip (some id) es u hs d)

module _ (r : RawUser → List UserShort) where
  skip_flat :
      (us : List RawUser) (u : RawUser)
      → All (λ v. Targets v.user_id (r v)) us
      → All (λ v. Differ u.user_id v.user_id) us
      → updated_all (flat r us) u ≡ u
  skip_flat [] u own h = refl
  skip_flat (v ∷ us) u (own, owns) (h, hs) =
      updated_all-append (r v) (flat r us) u
      ∙ ap (updated_all (flat r us)) (skip v.user_id (r v) u own h)
      ∙ skip_flat us u owns hs

  module _ (f : RawUser → RawUser) (keeps : (u : RawUser) → (f u).user_id ≡ u.user_id) where
    behind :
        (v : RawUser) (es : List UserShort) (us : List RawUser)
        → Targets v.user_id (r v)
        → All (λ u. Differ v.user_id u.user_id) us
        → All (λ u. updated_all es (f u) ≡ updated_all (r u) (f u)) us
        → All (λ u. updated_all (r v ++ es) (f u) ≡ updated_all (r u) (f u)) us
    behind v es [] own h k = tt
    behind v es (u ∷ us) own (h, hs) (k, ks) = (
      updated_all-append (r v) es (f u)
          ∙ ap (updated_all es)
              (skip v.user_id (r v) (f u) own (rw (keeps u) (Differ-symm v.user_id u.user_id h)))
          ∙ k,
      behind v es us own hs ks,
    )

    pub updated_each :
        (us : List RawUser)
        → All (λ u. Targets u.user_id (r u)) us
        → AreDistinct us
        → All (λ u. updated_all (flat r us) (f u) ≡ updated_all (r u) (f u)) us
    updated_each [] owns d = tt
    updated_each (v ∷ us) (own, owns) (d, ds) = (
      updated_all-append (r v) (flat r us) (f v)
          ∙ skip_flat us (updated_all (r v) (f v)) owns
              (rw (updated_all-user_id (r v) (f v), keeps v) d),
      behind v (flat r us) us own d (updated_each us owns ds),
    )

pub map-eq {ℓ κ} :
    {A : Type ℓ} {B : Type κ} (f g : A → B) (xs : List A)
    → All (λ x. f x ≡ g x) xs
    → map f xs ≡ map g xs
map-eq f g [] h = refl
map-eq f g (x ∷ xs) (h, hs) = cc (h, map-eq f g xs hs)
