-- ===== src/Pool/Server.antt =====
-- A server of version 8 that keeps the pool of each guest, and reads the two requests of `Pool.Members`.
use proxmox_api_go.Base.{
  ℕ, ◌≡◌, ◌≢◌, ◌∙◌, refl, ap, arith, Bool, true, false, not, ◌||◌, if◌then◌else◌, Option, none,
  some, List, [], ◌∷◌, ◌++◌, map, any, Text, codes, text_eqb, text_eqb_iff, text_eq, nat_eq,
  nat_eqb, nat_eqb_iff, string_eq, lookup, contains, drop, Params, Value, str, All, Lacks, split_on,
  split_on-more, more, itoa, itoa_injective, itoa-IsDigits, itoa-ne-nil, IsDigits-Lacks,
}
use proxmox_api_go.Pool.{Api, api_error}
use proxmox_api_go.Pool.Numbers.{numbers}
use proxmox_api_go.Pool.Members.{MovesGuests, move_request, leave_request}

-- The pool that a path names.
abbrev pub pool_in : Text → Text
pool_in path = drop 14 path

-- The guests that a request names, each by its number in decimal digits.
abbrev pub named : Option Value → List Text
named (some (str (c ∷ vms))) = split_on b',' (c ∷ vms)
named _ = []

abbrev pub is_set : Option Value → Bool
is_set (some (str v)) = text_eqb v (codes "1")
is_set _ = false

-- A guest cannot leave a pool that it is not in, come into one that it is in, or come from another pool
-- without leave to move.
abbrev pub stops : Bool → Bool → Text → Text → Bool
stops deletes moves now pool =
    if deletes then not (text_eqb now pool) else text_eqb now pool || not (text_eqb now [] || moves)

-- The state is the pool of each guest, by the digits of its number; a guest in no pool has the empty text.
abbrev pub served : (Text → Text) → Text → Params → Text → Text
served s pool params g =
    if contains (named (lookup "vms" params)) g
    then if is_set (lookup "delete" params) then [] else pool
    else s g

abbrev pub server : Api
server = record {
  State = Text → Text;
  put = λ s path params.
      if any
        (λ g.
          stops (is_set (lookup "delete" params)) (is_set (lookup "allow-move" params)) (s g)
            (pool_in path))
        (named (lookup "vms" params))
      then (s, some api_error)
      else (served s (pool_in path) params, none);
  list_guests = λ s. none;
}

-- The pool of a guest on this server.
abbrev pub pool_of : (Text → Text) → ℕ → Text
pool_of s g = s (itoa g)

itoa-Lacks : (ids : List ℕ) → All (Lacks b',') (map itoa ids)
itoa-Lacks [] = tt
itoa-Lacks (id ∷ ids) =
    (IsDigits-Lacks b',' (itoa id) (omega arith) (itoa-IsDigits id), itoa-Lacks ids)

named_full : (s t : Text) → s ≢ [] → named (some (str (s ++ t))) ≡ split_on b',' (s ++ t)
named_full [] t h = absurd (h refl)
named_full (c ∷ s) t h = refl

named-numbers : (ids : List ℕ) → named (some (str (numbers ids))) ≡ map itoa ids
named-numbers [] = refl
named-numbers (id ∷ ids) =
    named_full (itoa id) (more b',' (map itoa ids)) (itoa-ne-nil id)
    ∙ split_on-more b',' (itoa id) (map itoa ids) (itoa-Lacks (id ∷ ids))

pub same_itoa : (a b : ℕ) → text_eqb (itoa a) (itoa b) ≡ nat_eqb a b
same_itoa a b = ground (
  arith,
  text_eqb_iff (itoa a) (itoa b),
  nat_eqb_iff a b,
  itoa_injective a b,
  ap itoa {x = a} {y = b},
)

contains-itoa : (ids : List ℕ) (g : ℕ) → contains (map itoa ids) (itoa g) ≡ contains ids g
contains-itoa [] g = refl
contains-itoa (id ∷ ids) g = rw (same_itoa id g, contains-itoa ids g) refl

-- No guest stops a request to move guests of other pools.
none_in :
    (s : Text → Text) (pool : Text) (ids : List ℕ)
    → All (λ g. pool_of s g ≢ pool) ids
    → any (λ g. stops false true (s g) pool) (map itoa ids) ≡ false
none_in s pool [] h = refl
none_in s pool (id ∷ ids) (h, hs) =
    ground (arith, none_in s pool ids hs, text_eqb_iff (s (itoa id)) pool)

-- No guest stops a request for guests of the pool to leave it.
all_in :
    (s : Text → Text) (pool : Text) (ids : List ℕ)
    → All (λ g. pool_of s g ≡ pool) ids
    → any (λ g. stops true false (s g) pool) (map itoa ids) ≡ false
all_in s pool [] h = refl
all_in s pool (id ∷ ids) (h, hs) =
    ground (arith, all_in s pool ids hs, text_eqb_iff (s (itoa id)) pool)

moved_lem :
    (s : Text → Text) (pool : Text) (ids : List ℕ)
    → All (λ g. pool_of s g ≢ pool) ids
    → server.put s (codes "/pools?poolid=" ++ pool) (move_request ids)
      ≡ (λ g. if contains (map itoa ids) g then pool else s g, none)
unfolding lookup
moved_lem s pool ids h =
    rw (named-numbers ids, none_in s pool ids h)
      (ap (λ ns. (λ g. if contains ns g then pool else s g, none)) (named-numbers ids))

left_lem :
    (s : Text → Text) (pool : Text) (ids : List ℕ)
    → All (λ g. pool_of s g ≡ pool) ids
    → server.put s (codes "/pools?poolid=" ++ pool) (leave_request ids)
      ≡ (λ g. if contains (map itoa ids) g then [] else s g, none)
unfolding lookup
left_lem s pool ids h =
    rw (named-numbers ids, all_in s pool ids h)
      (ap (λ ns. (λ g. if contains ns g then [] else s g, none)) (named-numbers ids))

pub server-MovesGuests : MovesGuests server pool_of
server-MovesGuests = record {
  adds = λ s pool ids _ _ _ out.
      rw (moved_lem s pool ids out) (refl, λ g _. rw (contains-itoa ids g) refl);
  removes = λ s pool ids _ _ _ held.
      rw (left_lem s pool ids held) (refl, λ g _. rw (contains-itoa ids g) refl);
}
