-- ===== src/Pool.antt =====
-- proxmox/config_pool.go: resource pools and the guests in them. The server is the parameter `Api`;
-- the proofs are in the modules below.
pub mod Guests
pub mod Numbers
pub mod Members
mod Server
mod Tests
use proxmox_api_go.Base.{
  ℕ, ◌+◌, ◌-◌, ◌^◌, ◌&&◌, ◌||◌, Bool, true, false, not, ltb, leb, nat_eqb, nat_eq, if◌then◌else◌,
  Option, none, some, List, [], ◌∷◌, ◌++◌, Text, codes, text_eqb, text_eq, string_eq, Dict, lookup,
  insert, contains, filter, all, length, is_digit, itoa, Params, Value, str, int, flt, arr, obj,
  items, fields, uint_of,
}
use proxmox_api_go.Version.{Version, smaller}

pub record ConfigPool : Type 0 where
  pub name : Text
  pub comment : Option Text
  pub guests : Option (List ℕ)

pub data PoolError : Type 0 where
  name_empty : PoolError
  name_length : PoolError
  name_characters : PoolError
  -- What a call of the client reports.
  api_error : PoolError

abbrev pub is_name_byte : ℕ → Bool
is_name_byte c =
    leb b'a' c && leb c b'z'
    || leb b'A' c && leb c b'Z'
    || is_digit c
    || nat_eqb c b'-'
    || nat_eqb c b'_'

-- `PoolName.Validate`; the pattern is one or more of these bytes.
unfoldable pub validate : Text → Option PoolError
validate name =
    if text_eqb name []
    then some name_empty
    else if ltb 1024 (length name)
    then some name_length
    else if all is_name_byte name
    then none
    else some name_characters

-- `if config.Comment != nil && *config.Comment != ""`
put_comment : Option Text → Params → Params
put_comment none params = params
put_comment (some comment) params =
    if text_eqb comment [] then params else insert "comment" (str comment) params

-- `ConfigPool.mapToApi`
unfoldable pub map_to_api : ConfigPool → Option ConfigPool → Params
unfolding put_comment
map_to_api config none = put_comment config.comment (insert "poolid" (str config.name) [])
map_to_api config (some current) = elim config.comment [
  | none ↦ []
  | some comment ↦ insert "comment" (str comment) []
]

-- One guest of `members`; without a `vmid` it is passed over. `none` is a panic.
add_member : Option Value → List ℕ → Option (List ℕ)
add_member none ids = some ids
add_member (some (flt f)) ids = some (uint_of 64 f ∷ ids)
add_member (some _) ids = none

read_members : List Value → Option (List ℕ)
unfolding add_member lookup
read_members [] = some []
read_members (obj guest ∷ vs) = elim (read_members vs) [
  | none ↦ none
  | some ids ↦ add_member (lookup "vmid" (fields guest)) ids
]
read_members (_ ∷ vs) = none

-- A text that may be left out; `none` is the panic of the type assertion.
read_text : Option Value → Option (Option Text)
read_text none = some none
read_text (some (str s)) = some (some s)
read_text (some _) = none

read_guests : Option Value → Option (Option (List ℕ))
unfolding read_members
read_guests none = some none
read_guests (some (arr vs)) = elim (read_members (items vs)) [
  | none ↦ none
  | some [] ↦ some none
  | some (id ∷ ids) ↦ some (some (id ∷ ids))
]
read_guests (some _) = none

abbrev pub text_or_empty : Option Text → Text
text_or_empty (some s) = s
text_or_empty none = []

-- `ConfigPool.mapToSDK`; `none` is the panic of a type assertion.
unfoldable pub map_to_sdk : Params → Option ConfigPool
unfolding read_text read_guests lookup
map_to_sdk params = elim (read_text (lookup "poolid" params)) [
  | none ↦ none
  | some name ↦ elim (read_text (lookup "comment" params)) [
    | none ↦ none
    | some comment ↦ elim (read_guests (lookup "members" params)) [
      | none ↦ none
      | some guests ↦
          some (record { name = text_or_empty name; comment = comment; guests = guests })
    ]
  ]
]

-- `strconv.FormatInt(int64(n), 10)`
unfoldable pub format_int64 : ℕ → Text
format_int64 n = if ltb n (2 ^ 63) then itoa n else b'-' ∷ itoa (2 ^ 64 - n)

unfoldable pub join_ids : Text → List ℕ → Text
join_ids vms [] = vms
join_ids vms (id ∷ ids) = join_ids (vms ++ b',' ∷ format_int64 id) ids

-- `mapToString`: `vms[1:]` where something was written.
unfoldable pub map_to_string : List ℕ → Text
unfolding join_ids
map_to_string ids = elim (join_ids [] ids) [ [] ↦ [] | c ∷ vms ↦ vms ]

-- `subtractArray`: the members of the first list that the second does not hold.
unfoldable pub subtract_array : List ℕ → List ℕ → List ℕ
subtract_array a b = filter (λ x. not (contains b x)) a

-- The fields of `GuestResource` that are read here.
pub record GuestResource : Type 0 where
  pub id : ℕ
  pub pool : Text

-- `guestsMap`: a later entry of a guest replaces an earlier one.
unfoldable pub guests_map : List GuestResource → Dict ℕ Text → Dict ℕ Text
guests_map [] m = m
guests_map (e ∷ guests) m =
    guests_map guests (if text_eqb e.pool [] then m else insert e.id e.pool m)

-- The guests listed for a pool, where it is listed.
abbrev pub ids_of : Option (List ℕ) → List ℕ
ids_of none = []
ids_of (some ids) = ids

-- One guest of the second loop of `guestsToRemoveFromPools`.
unfoldable pub put_guest : ℕ → Option Text → Dict Text (List ℕ) → Dict Text (List ℕ)
put_guest id none pool_map = pool_map
put_guest id (some pool) pool_map = insert pool (ids_of (lookup pool pool_map) ++ id ∷ []) pool_map

unfoldable pub group_by_pool : Dict ℕ Text → List ℕ → Dict Text (List ℕ) → Dict Text (List ℕ)
group_by_pool m [] pool_map = pool_map
group_by_pool m (id ∷ ids) pool_map = group_by_pool m ids (put_guest id (lookup id m) pool_map)

unfoldable pub guests_to_remove_from_pools : List GuestResource → List ℕ → Dict Text (List ℕ)
guests_to_remove_from_pools guests to_add = group_by_pool (guests_map guests []) to_add []

-- The server: its state, a PUT request and the list of guests.
pub record Api : Type 1 where
  pub State : Type 0
  pub put : State → Text → Params → State × Option PoolError
  pub list_guests : State → Option (List GuestResource)

abbrev pub version_8 : Version
version_8 = record { major = 8; minor = 0; patch = 0 }

module _ (api : Api) where
  open api use {State, put, list_guests}

  abbrev pub Call : Type 0
  Call = State × Option PoolError

  -- The next call, if the one before returned no error.
  abbrev pub and_then : Call → (State → Call) → Call
  and_then (s, none) next = next s
  and_then (s, some e) next = (s, some e)

  unfoldable pub put_v7 : State → Text → Params → Call
  put_v7 s pool params = put s (codes "/pools/" ++ pool) params

  unfoldable pub put_v8 : State → Text → Params → Call
  put_v8 s pool params = put s (codes "/pools?poolid=" ++ pool) params

  unfoldable pub put_pool : State → Text → Params → Version → Call
  put_pool s pool params version =
      if smaller version version_8 then put_v7 s pool params else put_v8 s pool params

  -- `removeGuests_Unsafe`
  unfoldable pub remove_guests : State → Text → List ℕ → Version → Call
  remove_guests s pool ids version =
      put_pool s pool (("vms", str (map_to_string ids)) ∷ ("delete", str (codes "1")) ∷ []) version

  -- The loop over `guestsToRemoveFromPools`. Go goes through the map in any order; here it is that of
  -- the first guest of each pool.
  unfoldable pub remove_all : State → Dict Text (List ℕ) → Version → Call
  remove_all s [] version = (s, none)
  remove_all s ((pool, ids) ∷ rest) version =
      and_then (remove_guests s pool ids version) (λ t. remove_all t rest version)

  unfoldable pub add_guests_v7 : State → Text → List ℕ → Call
  add_guests_v7 s pool ids = put_v7 s pool (("vms", str (map_to_string ids)) ∷ [])

  unfoldable pub add_guests_v8 : State → Text → List ℕ → Call
  add_guests_v8 s pool ids =
      put_v8 s pool (("vms", str (map_to_string ids)) ∷ ("allow-move", str (codes "1")) ∷ [])

  -- `addGuests_Unsafe`, from the guests that are to be added on.
  unfoldable pub add_new_guests : State → Text → List ℕ → Version → Call
  add_new_guests s pool [] version = (s, none)
  add_new_guests s pool (id ∷ ids) version =
      if not (smaller version version_8)
      then add_guests_v8 s pool (id ∷ ids)
      else elim (list_guests s) [
        | none ↦ (s, some api_error)
        | some guests ↦
            and_then (remove_all s (guests_to_remove_from_pools guests (id ∷ ids)) version)
              (λ t. add_guests_v7 t pool (id ∷ ids))
      ]

  -- The guests that a pool with the given ones still lacks.
  abbrev pub lacking : List ℕ → Option (List ℕ) → List ℕ
  lacking ids none = ids
  lacking ids (some []) = ids
  lacking ids (some (c ∷ current)) = subtract_array ids (c ∷ current)

  unfoldable pub add_guests : State → Text → List ℕ → Option (List ℕ) → Version → Call
  add_guests s pool ids current version = add_new_guests s pool (lacking ids current) version

  -- `setGuests_Unsafe`
  unfoldable pub set_guests : State → Text → List ℕ → Option (List ℕ) → Version → Call
  set_guests s pool ids none version = add_guests s pool ids none version
  set_guests s pool ids (some []) version = add_guests s pool ids (some []) version
  set_guests s pool ids (some (c ∷ current)) version =
      and_then (remove_guests s pool (subtract_array (c ∷ current) ids) version)
        (λ t. add_guests t pool ids (some (c ∷ current)) version)
