-- ===== src/Memory/Server.antt =====
-- The memory settings as the server keeps them, and what a request does to them. This is the
-- documented meaning of a configuration call: a key that is sent replaces the setting, a key that is
-- named for deletion clears it, and all else stays.
use Prim.Native.Nat.{ℕ, ◌≤◌}
use proxmox_api_go.Base.{
  String, string_eq, Option, none, some, Bool, ◌==◌, if◌then◌else◌, ltb, nat_eqb, Params, Value,
  int, lookup,
}
use proxmox_api_go.Memory.{QemuMemory}

-- The number sent under a key, or else what was there before.
abbrev pub sent_or : Option Value → Option ℕ → Option ℕ
sent_or (some (int n)) before = some n
sent_or _ before = before

unfoldable pub receive : QemuMemory → Params × String → QemuMemory
unfolding lookup
receive server (params, deleted) = record {
  capacity_mib = sent_or (lookup "memory" params) server.capacity_mib;
  minimum_capacity_mib = sent_or (lookup "balloon" params) server.minimum_capacity_mib;
  shares = if deleted == ",shares" then none else sent_or (lookup "shares" params) server.shares;
}

abbrev pub or_else : Option ℕ → Option ℕ → Option ℕ
or_else (some n) other = some n
or_else none other = other

-- The minimum after a change of the capacity alone: it is pulled down with the capacity.
abbrev pub pulled_down : Option ℕ → Option ℕ → Option ℕ
pulled_down (some c) (some m) = some (if ltb c m then c else m)
pulled_down capacity minimum = minimum

-- Whether the change leaves the memory without room to shrink by order of the caller: the minimum
-- was pulled down to the capacity, or set to 0.
abbrev pub ends_ballooning : QemuMemory → QemuMemory → Bool
ends_ballooning config server = elim config.minimum_capacity_mib [
  | some m ↦ nat_eqb m 0
  | none ↦ elim config.capacity_mib [
    | none ↦ Bool.false
    | some c ↦ elim server.minimum_capacity_mib [ none ↦ Bool.false | some m ↦ ltb c m ]
  ]
]

abbrev pub shares_after : Option ℕ → Option ℕ → Option ℕ
shares_after none before = before
shares_after (some s) before = if nat_eqb s 0 then none else some s

-- The settings that a change is meant to leave on the server.
abbrev pub merged : QemuMemory → QemuMemory → QemuMemory
merged config server = record {
  capacity_mib = or_else config.capacity_mib server.capacity_mib;
  minimum_capacity_mib =
      or_else config.minimum_capacity_mib
        (pulled_down config.capacity_mib server.minimum_capacity_mib);
  shares = if ends_ballooning config server then none else shares_after config.shares server.shares;
}

abbrev pub Below : Option ℕ → Option ℕ → Type 0
Below (some m) (some c) = m ≤ c
Below _ _ = Unit

-- The minimum is not above the capacity, where both are set.
abbrev pub IsBalanced : QemuMemory → Type 0
IsBalanced server = Below server.minimum_capacity_mib server.capacity_mib
