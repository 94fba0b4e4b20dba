-- ===== src/Pool/Members.antt =====
-- Setting the guests of a pool on a server of version 8 or later.
use proxmox_api_go.Base.{
  All, ℕ, ◌≡◌, ◌≢◌, refl, sym, ◌∙◌, arith, true, false, if◌then◌else◌, none, some, List, [], ◌∷◌,
  ◌++◌, Text, codes, Params, str, text_eqb, text_eqb_iff, nat_eq, contains, Bool-cases, inl, inr,
}
use proxmox_api_go.Version.{Version, smaller}
use proxmox_api_go.Pool.{
  Api, Call, version_8, subtract_array, and_then, put_v8, put_pool, remove_guests, add_guests_v8,
  add_new_guests, add_guests, set_guests,
}
use proxmox_api_go.Pool.Numbers.{IsGuest, numbers, map_to_string-numbers}
use proxmox_api_go.Pool.Guests.{contains-subtract_array}

-- No number is listed twice.
abbrev pub IsDistinct : List ℕ → Type 0
IsDistinct [] = Unit
IsDistinct (id ∷ ids) = (contains ids id ≡ false) × IsDistinct ids

-- The keys of a request for guests to come into a pool, from other pools too.
abbrev pub move_request : List ℕ → Params
move_request ids = ("vms", str (numbers ids)) ∷ ("allow-move", str (codes "1")) ∷ []

-- The keys of a request for guests to leave a pool.
abbrev pub leave_request : List ℕ → Params
leave_request ids = ("vms", str (numbers ids)) ∷ ("delete", str (codes "1")) ∷ []

-- What is relied on of the server, where `pool_of` tells the pool of each guest: two requests at the
-- path of a pool. The one with `allow-move` brings the guests that it names into the pool, if none of
-- them is in it yet; the one with `delete` takes the guests that it names out of it, if all of them are
-- in it. Neither fails, and all other guests stay where they are. No guest is named twice. Nothing is
-- relied on for other requests, such as one for a guest of another pool without `allow-move`.
pub record MovesGuests (api : Api) (pool_of : api.State → ℕ → Text) : Type 0 where
  pub adds :
      (s : api.State) (pool : Text) (ids : List ℕ)
      → pool ≢ []
      → All IsGuest ids
      → IsDistinct ids
      → All (λ g. pool_of s g ≢ pool) ids
      → ((api.put s (codes "/pools?poolid=" ++ pool) (move_request ids)).1 ≡ none)
        × ((g : ℕ)
            → IsGuest g
            → pool_of (api.put s (codes "/pools?poolid=" ++ pool) (move_request ids)).0 g
              ≡ (if contains ids g then pool else pool_of s g))
  pub removes :
      (s : api.State) (pool : Text) (ids : List ℕ)
      → pool ≢ []
      → All IsGuest ids
      → IsDistinct ids
      → All (λ g. pool_of s g ≡ pool) ids
      → ((api.put s (codes "/pools?poolid=" ++ pool) (leave_request ids)).1 ≡ none)
        × ((g : ℕ)
            → IsGuest g
            → pool_of (api.put s (codes "/pools?poolid=" ++ pool) (leave_request ids)).0 g
              ≡ (if contains ids g then [] else pool_of s g))

-- What holds of each member of the first list that the second lacks holds of what is left of it.
subtract_array-All : (P : ℕ → Type 0) (a b : List ℕ) → All P a → All P (subtract_array a b)
unfolding subtract_array
subtract_array-All P [] b h = tt
subtract_array-All P (x ∷ a) b (h, hs) = elim (Bool-cases (contains b x)) [
  | inl e ↦ rw e (subtract_array-All P a b hs)
  | inr e ↦ rw e (h, subtract_array-All P a b hs)
]

subtract_array-IsDistinct : (a b : List ℕ) → IsDistinct a → IsDistinct (subtract_array a b)
unfolding subtract_array
subtract_array-IsDistinct [] b h = tt
subtract_array-IsDistinct (x ∷ a) b (h, hs) = elim (Bool-cases (contains b x)) [
  | inl e ↦ rw e (subtract_array-IsDistinct a b hs)
  | inr e ↦ rw e (rw (contains-subtract_array a b x, h) refl, subtract_array-IsDistinct a b hs)
]

-- A property that follows from being in a list holds of all its members.
All-contains :
    (P : ℕ → Type 0) (ids : List ℕ)
    → All IsGuest ids
    → ((g : ℕ) → IsGuest g → contains ids g ≡ true → P g)
    → All P ids
All-contains P [] h f = tt
All-contains P (id ∷ ids) (h, hs) f = (
  f id h (ground (arith, nat_eq.same_iff id id)),
  All-contains P ids hs (λ g small e. f g small (ground arith)),
)

module _ (api : Api) (pool_of : api.State → ℕ → Text) (serves : MovesGuests api pool_of)
    (version : Version) (recent : smaller version version_8 ≡ false) where
  and_then-none :
      (call : Call api) (next : api.State → Call api)
      → call.1 ≡ none
      → and_then api call next ≡ next call.0
  and_then-none (s, none) next e = refl
  and_then-none (s, some err) next e = cc

  add_guests_v8_lem :
      (s : api.State) (pool : Text) (ids : List ℕ)
      → All IsGuest ids
      → add_guests_v8 api s pool ids ≡ api.put s (codes "/pools?poolid=" ++ pool) (move_request ids)
  unfolding add_guests_v8 put_v8
  add_guests_v8_lem s pool ids h = rw (map_to_string-numbers ids h) refl

  remove_guests_lem :
      (s : api.State) (pool : Text) (ids : List ℕ)
      → All IsGuest ids
      → remove_guests api s pool ids version
        ≡ api.put s (codes "/pools?poolid=" ++ pool) (leave_request ids)
  unfolding remove_guests put_pool put_v8
  remove_guests_lem s pool ids h = rw (map_to_string-numbers ids h, recent, put_pool) refl

  add_new_guests_lem :
      (s : api.State) (pool : Text) (ids : List ℕ)
      → pool ≢ []
      → All IsGuest ids
      → IsDistinct ids
      → All (λ g. pool_of s g ≢ pool) ids
      → ((add_new_guests api s pool ids version).1 ≡ none)
        × ((g : ℕ)
            → IsGuest g
            → pool_of (add_new_guests api s pool ids version).0 g
              ≡ (if contains ids g then pool else pool_of s g))
  unfolding add_new_guests
  add_new_guests_lem s pool [] named h once out = (refl, λ g _. refl)
  add_new_guests_lem s pool (id ∷ ids) named h once out =
      rw (recent, add_new_guests, add_guests_v8_lem s pool (id ∷ ids) h)
        (serves.adds s pool (id ∷ ids) named h once out)

  -- A guest that leaves is in the pool.
  gone_held :
      (before pool : Text) (ids current : List ℕ) (g : ℕ)
      → contains current g ≡ text_eqb before pool
      → contains (subtract_array current ids) g ≡ true
      → before ≡ pool
  gone_held before pool ids current g held left =
      ground (arith, contains-subtract_array current ids g, text_eqb_iff before pool)

  -- A guest that comes is not in the pool, before some leave and after that.
  fresh_out :
      (before pool : Text) (ids current : List ℕ) (g : ℕ)
      → pool ≢ []
      → contains current g ≡ text_eqb before pool
      → contains (subtract_array ids current) g ≡ true
      → (if contains (subtract_array current ids) g then [] else before) ≢ pool
  fresh_out before pool ids current g named held came same = ground (
    arith,
    contains-subtract_array ids current g,
    contains-subtract_array current ids g,
    text_eqb_iff before pool,
  )

  -- Where a guest is at last, by whether it is wanted and whether it was in the pool.
  ends_in :
      (ids current : List ℕ) (pool before : Text) (g : ℕ)
      → contains current g ≡ text_eqb before pool
      → (if contains (subtract_array ids current) g
          then pool
          else if contains (subtract_array current ids) g
          then []
          else before)
        ≡ (if contains ids g then pool else if text_eqb before pool then [] else before)
  ends_in ids current pool before g held = ground (
    arith,
    contains-subtract_array ids current g,
    contains-subtract_array current ids g,
    text_eqb_iff before pool,
  )

  -- After the call the pool holds exactly the guests that are given: they are moved into it from
  -- wherever they were, those that it held and that are not given leave it, and every other guest
  -- stays. The pool has a name, the guests that it holds are read before the call, all numbers are below
  -- 2^63, and neither list has one twice.
  pub set_guests_lem :
      (s : api.State) (pool : Text) (ids current : List ℕ)
      → pool ≢ []
      → All IsGuest ids
      → All IsGuest current
      → IsDistinct ids
      → IsDistinct current
      → ((g : ℕ) → IsGuest g → contains current g ≡ text_eqb (pool_of s g) pool)
      → ((set_guests api s pool ids (some current) version).1 ≡ none)
        × ((g : ℕ)
            → IsGuest g
            → pool_of (set_guests api s pool ids (some current) version).0 g ≡ (
                if contains ids g
                then pool
                else if text_eqb (pool_of s g) pool
                then []
                else pool_of s g))
  unfolding set_guests add_guests
  set_guests_lem s pool ids [] named wanted had once once' holds =
      let out =
        All-contains (λ g. pool_of s g ≢ pool) ids wanted
          (λ g small _ same. ground (arith, holds g small, text_eqb_iff (pool_of s g) pool)) in
      let (fine, ends) = add_new_guests_lem s pool ids named wanted once out in
      (fine, λ g small. ends g small ∙ rw (← holds g small) refl)
  set_guests_lem s pool ids (c ∷ current) named wanted had once once' holds =
      let gone = subtract_array (c ∷ current) ids in
      let gone_small : All IsGuest gone = subtract_array-All IsGuest (c ∷ current) ids had in
      let (fine, left) =
        serves.removes s pool gone named gone_small
          (subtract_array-IsDistinct (c ∷ current) ids once')
          (All-contains (λ g. pool_of s g ≡ pool) gone gone_small
            (λ g small e. gone_held (pool_of s g) pool ids (c ∷ current) g (holds g small) e)) in
      let fresh = subtract_array ids (c ∷ current) in
      let fresh_small : All IsGuest fresh = subtract_array-All IsGuest ids (c ∷ current) wanted in
      let t = (api.put s (codes "/pools?poolid=" ++ pool) (leave_request gone)).0 in
      let (fine', ends) =
        add_new_guests_lem t pool fresh named fresh_small
          (subtract_array-IsDistinct ids (c ∷ current) once)
          (All-contains (λ g. pool_of t g ≢ pool) fresh fresh_small
            (λ g small e same.
              fresh_out (pool_of s g) pool ids (c ∷ current) g named (holds g small) e
                (sym (left g small) ∙ same))) in
      rw
        (
          remove_guests_lem s pool gone gone_small,
          and_then-none (api.put s (codes "/pools?poolid=" ++ pool) (leave_request gone))
              (λ t. add_guests api t pool ids (some (c ∷ current)) version) fine,
        )
        (
          fine',
          λ g small.
              ends g small
              ∙ rw (left g small) (ends_in ids (c ∷ current) pool (pool_of s g) g (holds g small)),
        )
