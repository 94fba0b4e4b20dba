-- ===== src/Pool/Guests.antt =====
-- The guests that leave a pool before version 8 can add them to another.
use mathlib.Core.List.{append_assoc, append-nil}
use proxmox_api_go.Base.{
  ℕ, ◌≡◌, refl, sym, ◌∙◌, ap, nat_eqb, insert, Bool, false, ◌&&◌, not, if◌then◌else◌, Option, none,
  some, List, [], ◌∷◌, ◌++◌, Text, text_eqb, text_eqb_iff, text_eq, nat_eq, Dict, lookup,
  lookup-insert, contains, contains-filter, filter, Bool-cases, inl, inr,
}
use proxmox_api_go.Pool.{
  GuestResource, ids_of, subtract_array, put_guest, group_by_pool, guests_map,
  guests_to_remove_from_pools,
}

pub contains-subtract_array :
    (a b : List ℕ) (x : ℕ) → contains (subtract_array a b) x ≡ (contains a x && not (contains b x))
unfolding subtract_array
contains-subtract_array a b x = contains-filter (λ y. not (contains b y)) a x

-- What the first states, or else the second.
abbrev pub or_else : Option Text → Option Text → Option Text
or_else (some pool) other = some pool
or_else none other = other

or_else_assoc : (a b c : Option Text) → or_else (or_else a b) c ≡ or_else a (or_else b c)
or_else_assoc (some pool) b c = refl
or_else_assoc none b c = refl

or_else-none : (a : Option Text) → or_else a none ≡ a
or_else-none (some pool) = refl
or_else-none none = refl

-- Whether a guest's pool is the one.
abbrev pub is_pool : Option Text → Text → Bool
is_pool none pool = false
is_pool (some p) pool = text_eqb p pool

ids_of-put_guest :
    (id : ℕ) (o : Option Text) (pool_map : Dict Text (List ℕ)) (pool : Text)
    → ids_of (lookup pool (put_guest id o pool_map))
      ≡ ids_of (lookup pool pool_map) ++ (if is_pool o pool then id ∷ [] else [])
unfolding put_guest
ids_of-put_guest id none pool_map pool = sym (append-nil _)
ids_of-put_guest id (some p) pool_map pool =
    rw (lookup-insert p pool (ids_of (lookup p pool_map) ++ id ∷ []) pool_map)
      (elim (Bool-cases (text_eqb p pool)) [
        | inl e ↦ rw e (rw ((text_eqb_iff p pool).0 e) refl)
        | inr e ↦ rw e (sym (append-nil _))
      ])

ids_of-group_by_pool :
    (m : Dict ℕ Text) (ids : List ℕ) (pool_map : Dict Text (List ℕ)) (pool : Text)
    → ids_of (lookup pool (group_by_pool m ids pool_map))
      ≡ ids_of (lookup pool pool_map) ++ filter (λ id. is_pool (lookup id m) pool) ids
unfolding group_by_pool
ids_of-group_by_pool m [] pool_map pool = sym (append-nil _)
ids_of-group_by_pool m (id ∷ ids) pool_map pool =
    rw
      (
        ids_of-group_by_pool m ids (put_guest id (lookup id m) pool_map) pool,
        ids_of-put_guest id (lookup id m) pool_map pool,
        append_assoc,
      )
      (elim (Bool-cases (is_pool (lookup id m) pool)) [ inl e ↦ rw e refl | inr e ↦ rw e refl ])

-- The pool that one entry of the list of guests shows for a guest; an empty text is no pool.
abbrev pub shown_pool : ℕ → ℕ → Text → Option Text
shown_pool id own [] = none
shown_pool id own (c ∷ pool) = if nat_eqb own id then some (c ∷ pool) else none

-- The pool of a guest: what the last of its entries that shows a pool shows.
abbrev pub pool_now : List GuestResource → ℕ → Option Text
pool_now [] id = none
pool_now (e ∷ guests) id = or_else (pool_now guests id) (shown_pool id e.id e.pool)

lookup-shown_pool :
    (id own : ℕ) (pool : Text) (m : Dict ℕ Text)
    → lookup id (if text_eqb pool [] then m else insert own pool m)
      ≡ or_else (shown_pool id own pool) (lookup id m)
lookup-shown_pool id own [] m = refl
lookup-shown_pool id own (c ∷ pool) m =
    lookup-insert own id (c ∷ pool) m
    ∙ (elim (Bool-cases (nat_eqb own id)) [ inl e ↦ rw e refl | inr e ↦ rw e refl ])

shown_pool-named : (id own : ℕ) (pool : Text) → is_pool (shown_pool id own pool) [] ≡ false
shown_pool-named id own [] = refl
shown_pool-named id own (c ∷ pool) = elim (Bool-cases (nat_eqb own id)) [
  | inl e ↦ rw e refl
  | inr e ↦ rw e refl
]

lookup-guests_map :
    (guests : List GuestResource) (m : Dict ℕ Text) (id : ℕ)
    → lookup id (guests_map guests m) ≡ or_else (pool_now guests id) (lookup id m)
unfolding guests_map
lookup-guests_map [] m id = refl
lookup-guests_map (e ∷ guests) m id =
    lookup-guests_map guests (if text_eqb e.pool [] then m else insert e.id e.pool m) id
    ∙ ap (or_else (pool_now guests id)) (lookup-shown_pool id e.id e.pool m)
    ∙ sym (or_else_assoc (pool_now guests id) (shown_pool id e.id e.pool) (lookup id m))

is_pool-or_else :
    (a b : Option Text)
    → is_pool a [] ≡ false
    → is_pool b [] ≡ false
    → is_pool (or_else a b) [] ≡ false
is_pool-or_else none b h k = k
is_pool-or_else (some p) b h k = h

-- No guest is in the pool of the empty name.
pool_now-named : (guests : List GuestResource) (id : ℕ) → is_pool (pool_now guests id) [] ≡ false
pool_now-named [] id = refl
pool_now-named (e ∷ guests) id =
    is_pool-or_else (pool_now guests id) (shown_pool id e.id e.pool) (pool_now-named guests id)
      (shown_pool-named id e.id e.pool)

filter-none : (p : ℕ → Bool) (ids : List ℕ) → ((id : ℕ) → p id ≡ false) → filter p ids ≡ []
filter-none p [] h = refl
filter-none p (id ∷ ids) h = rw (h id, filter-none p ids h) refl

filter-same :
    (p q : ℕ → Bool) (ids : List ℕ) → ((id : ℕ) → p id ≡ q id) → filter p ids ≡ filter q ids
filter-same p q [] h = refl
filter-same p q (id ∷ ids) h = rw (h id, filter-same p q ids h) refl

-- Under each pool stand exactly the guests to add that are in it now, in the order in which they are
-- given, where a guest is in the pool that the last of its entries with a pool shows; and none stands
-- under the empty name.
pub guests_to_remove_from_pools_lem :
    (guests : List GuestResource) (to_add : List ℕ) (pool : Text)
    → (ids_of (lookup pool (guests_to_remove_from_pools guests to_add))
        ≡ filter (λ id. is_pool (pool_now guests id) pool) to_add)
      × (ids_of (lookup [] (guests_to_remove_from_pools guests to_add)) ≡ [])
unfolding guests_to_remove_from_pools lookup
guests_to_remove_from_pools_lem guests to_add pool =
    let under : (pool : Text)
        → ids_of (lookup pool (group_by_pool (guests_map guests []) to_add []))
          ≡ filter (λ id. is_pool (pool_now guests id) pool) to_add =
      λ pool.
        ids_of-group_by_pool (guests_map guests []) to_add [] pool
        ∙ filter-same _ _ to_add (λ id.
          ap (λ o. is_pool o pool)
            (lookup-guests_map guests [] id ∙ or_else-none (pool_now guests id))) in
    (under pool, under [] ∙ filter-none _ to_add (pool_now-named guests))
