-- ===== src/Base/Values.antt =====
-- The dynamic values of API requests and answers (`interface{}`).
use Prim.Native.Nat.{ℕ, ◌-◌, ◌%◌, ◌^◌}
use Prim.Native.String.{String}
use mathlib.Core.Bool.{Bool}
use mathlib.Core.List.{List, [], ◌∷◌}
use proxmox_api_go.Base.Tests.{if◌then◌else◌}
use proxmox_api_go.Base.Texts.{Text}
use proxmox_api_go.Base.Maps.{Dict}

-- A finite float64, by what the program asks of one: its sign, its whole part, and whether
-- anything stands behind the point.
pub record Float : Type 0 where
  pub negative : Bool
  pub whole : ℕ
  pub fraction : Bool

-- The conversion of a float64 to an unsigned integer of `w` bits. Go leaves it open where the
-- value does not fit; this is the truncation to 64 bits and then to `w` that amd64 code does.
abbrev pub uint_of : ℕ → Float → ℕ
uint_of w f = (if f.negative then 2 ^ 64 - f.whole % 2 ^ 64 else f.whole) % 2 ^ w

mutual
  pub data Value : Type 0 where
    str : Text → Value
    int : ℕ → Value
    flt : Float → Value
    arr : Values → Value
    obj : Members → Value

  pub data Values : Type 0 where
    no_values : Values
    one_more : Value → Values → Values

  pub data Members : Type 0 where
    no_members : Members
    member : String → Value → Members → Members

abbrev pub items : Values → List Value
items no_values = []
items (one_more v vs) = v ∷ items vs

-- `map[string]interface{}`
abbrev pub Params : Type 0
Params = Dict String Value

abbrev pub fields : Members → Params
fields no_members = []
fields (member k v fs) = (k, v) ∷ fields fs
