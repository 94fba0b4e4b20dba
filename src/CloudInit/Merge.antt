-- ===== src/CloudInit/Merge.antt =====
-- What a change of the network settings of an interface is meant to leave.
use proxmox_api_go.Base.{
  ◌≡◌, true, false, if◌then◌else◌, Option, none, some, [], ◌∷◌, Text, codes, text_eqb, text_eq,
  Lacks,
}
use proxmox_api_go.CloudInit.{Ipv4Config, Ipv6Config, NetworkConfig, current_of}

-- A setting after a change: the given one, none where that is empty, or else the current one.
abbrev pub kept : Option Text → Option Text → Option Text
kept (some []) current = none
kept (some (c ∷ s)) current = some (c ∷ s)
kept none current = current

abbrev pub settled_ipv4 : Option Text → Option Text → Option Ipv4Config
settled_ipv4 none none = none
settled_ipv4 (some a) g = some (record { address = some a; dhcp = false; gateway = g })
settled_ipv4 none (some g) = some (record { address = none; dhcp = false; gateway = some g })

abbrev pub settled_ipv6 : Option Text → Option Text → Option Ipv6Config
settled_ipv6 none none = none
settled_ipv6 (some a) g =
    some (record { address = some a; dhcp = false; gateway = g; slaac = false })
settled_ipv6 none (some g) =
    some (record { address = none; dhcp = false; gateway = some g; slaac = false })

-- The settings that a change of a protocol is meant to leave: DHCP and SLAAC stand alone.
abbrev pub changed_ipv4 : Ipv4Config → Option Ipv4Config → Option Ipv4Config
changed_ipv4 config current =
    if config.dhcp
    then some (record { address = none; dhcp = true; gateway = none })
    else settled_ipv4 (kept config.address (current_of (λ c. c.address) current))
        (kept config.gateway (current_of (λ c. c.gateway) current))

abbrev pub changed_ipv6 : Ipv6Config → Option Ipv6Config → Option Ipv6Config
changed_ipv6 config current =
    if config.dhcp
    then some (record { address = none; dhcp = true; gateway = none; slaac = false })
    else if config.slaac
    then some (record { address = none; dhcp = false; gateway = none; slaac = true })
    else settled_ipv6 (kept config.address (current_of (λ c. c.address) current))
        (kept config.gateway (current_of (λ c. c.gateway) current))

-- A protocol that is not given keeps its current settings.
abbrev pub changed {ℓ} : {A : Type ℓ} → (A → Option A → Option A) → Option A → Option A → Option A
changed change (some config) current = change config current
changed change none (some current) = change current none
changed change none none = none

abbrev pub merged : NetworkConfig → Option NetworkConfig → NetworkConfig
merged config current = record {
  ipv4 = changed changed_ipv4 config.ipv4 (current_of (λ c. c.ipv4) current);
  ipv6 = changed changed_ipv6 config.ipv6 (current_of (λ c. c.ipv6) current);
}

-- A text that can be sent: no comma is in it, and it is none of the words for no address.
abbrev pub Given {ℓ} : {A : Type ℓ} → (A → Type 0) → Option A → Type 0
Given P none = Unit
Given P (some a) = P a

abbrev pub IsSendable : Text → Type 0
IsSendable a =
    Lacks b',' a × (text_eqb a (codes "dhcp") ≡ false) × (text_eqb a (codes "auto") ≡ false)

abbrev pub IsClean : NetworkConfig → Type 0
IsClean config =
    Given (λ c. Given IsSendable c.address × Given (Lacks b',') c.gateway) config.ipv4
    × Given (λ c. Given IsSendable c.address × Given (Lacks b',') c.gateway) config.ipv6
