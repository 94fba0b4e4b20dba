-- ===== src/CloudInit.antt =====
-- proxmox/config_qemu_cloudinit.go: the network settings of cloud-init. `CloudInit.Custom` has the
-- snippets, `CloudInit.Validation` the checks.
pub mod Custom
pub mod Validation
pub mod Merge
pub mod Writing
pub mod Addresses
pub mod Refused
mod Tests
use proxmox_api_go.Base.{
  split_string_of_settings, ℕ, zero, suc, Bool, true, false, ◌||◌, ◌&&◌, not, ltb, nat_eqb,
  if◌then◌else◌, Option, none, some, List, [], ◌∷◌, ◌++◌, Text, codes, text_eqb, text_eq, nat_eq,
  length, filter, Dict, lookup, insert, itoa,
}

pub record Ipv4Config : Type 0 where
  pub address : Option Text
  pub dhcp : Bool
  pub gateway : Option Text

pub record Ipv6Config : Type 0 where
  pub address : Option Text
  pub dhcp : Bool
  pub gateway : Option Text
  pub slaac : Bool

pub record NetworkConfig : Type 0 where
  pub ipv4 : Option Ipv4Config
  pub ipv6 : Option Ipv6Config

-- A setting that is written: the given one unless it is empty, or else the current one as it is. On
-- creation there is no current one.
abbrev pub write_setting : Text → Option Text → Option Text → Text
write_setting key (some []) current = []
write_setting key (some (c ∷ s)) current = b',' ∷ (key ++ b'=' ∷ c ∷ s)
write_setting key none (some now) = b',' ∷ (key ++ b'=' ∷ now)
write_setting key none none = []

abbrev pub current_of {ℓ κ} : {A : Type ℓ} {B : Type κ} → (A → Option B) → Option A → Option B
current_of field none = none
current_of field (some current) = field current

-- `CloudInitIPv4Config.mapToAPI`
unfoldable pub ipv4_map_to_api : Ipv4Config → Option Ipv4Config → Text
ipv4_map_to_api config current =
    if config.dhcp
    then codes ",ip=dhcp"
    else write_setting (codes "ip") config.address (current_of (λ c. c.address) current)
      ++ write_setting (codes "gw") config.gateway (current_of (λ c. c.gateway) current)

-- `CloudInitIPv6Config.mapToAPI`
unfoldable pub ipv6_map_to_api : Ipv6Config → Option Ipv6Config → Text
ipv6_map_to_api config current =
    if config.dhcp
    then codes ",ip6=dhcp"
    else if config.slaac
    then codes ",ip6=auto"
    else write_setting (codes "ip6") config.address (current_of (λ c. c.address) current)
      ++ write_setting (codes "gw6") config.gateway (current_of (λ c. c.gateway) current)

-- One of the two protocols: as it is given, or else the current one written anew.
abbrev pub write_protocol {ℓ} : {A : Type ℓ} → (A → Option A → Text) → Option A → Option A → Text
write_protocol write (some config) current = write config current
write_protocol write none (some current) = write current none
write_protocol write none none = []

-- `CloudInitNetworkConfig.mapToAPI`
unfoldable pub map_to_api : NetworkConfig → Option NetworkConfig → Text
map_to_api config current =
    write_protocol ipv4_map_to_api config.ipv4 (current_of (λ c. c.ipv4) current)
    ++ write_protocol ipv6_map_to_api config.ipv6 (current_of (λ c. c.ipv6) current)

-- The settings of a protocol, where one of its two keys is there.
abbrev pub read_ipv4 : Option Text → Option Text → Option Ipv4Config
read_ipv4 none none = none
read_ipv4 none (some gw) = some (record { address = none; dhcp = false; gateway = some gw })
read_ipv4 (some ip) gw = some (
    if text_eqb ip (codes "dhcp")
    then record { address = none; dhcp = true; gateway = gw }
    else record { address = some ip; dhcp = false; gateway = gw })

abbrev pub read_ipv6 : Option Text → Option Text → Option Ipv6Config
read_ipv6 none none = none
read_ipv6 none (some gw) =
    some (record { address = none; dhcp = false; gateway = some gw; slaac = false })
read_ipv6 (some ip) gw = some (
    if text_eqb ip (codes "dhcp")
    then record { address = none; dhcp = true; gateway = gw; slaac = false }
    else if text_eqb ip (codes "auto")
    then record { address = none; dhcp = false; gateway = gw; slaac = true }
    else record { address = some ip; dhcp = false; gateway = gw; slaac = false })

abbrev pub read_settings : Dict Text Text → NetworkConfig
read_settings params = record {
  ipv4 = read_ipv4 (lookup (codes "ip") params) (lookup (codes "gw") params);
  ipv6 = read_ipv6 (lookup (codes "ip6") params) (lookup (codes "gw6") params);
}

-- `CloudInitNetworkConfig.mapToSDK`
unfoldable pub map_to_sdk : Text → NetworkConfig
map_to_sdk param = read_settings (split_string_of_settings param)

-- `CloudInitNetworkInterfaces`, by the number of the interface.
abbrev pub NetworkInterfaces : Type 0
NetworkInterfaces = Dict ℕ NetworkConfig

abbrev pub ip_key : ℕ → Text
ip_key i = codes "ipconfig" ++ itoa i

-- One interface of the loop; the text starts with a separator, which is not sent.
abbrev pub put_interface :
    ℕ → Text → Option NetworkConfig → Dict Text Text × Text → Dict Text Text × Text
put_interface i (c ∷ param) current (params, delete) = (insert (ip_key i) param params, delete)
put_interface i [] (some current) (params, delete) = (params, delete ++ b',' ∷ ip_key i)
put_interface i [] none request = request

-- `CloudInitNetworkInterfaces.mapToAPI`, in the order of the list.
unfoldable pub interfaces_map_to_api :
    NetworkInterfaces → NetworkInterfaces → Dict Text Text × Text → Dict Text Text × Text
interfaces_map_to_api [] current request = request
interfaces_map_to_api ((i, e) ∷ interfaces) current request =
    interfaces_map_to_api interfaces current
      (put_interface i (map_to_api e (lookup i current)) (lookup i current) request)

-- A text of one byte is that of no settings.
abbrev pub read_interface : ℕ → Option Text → NetworkInterfaces → NetworkInterfaces
read_interface i none ci = ci
read_interface i (some tmp) ci = if ltb 1 (length tmp) then insert i (map_to_sdk tmp) ci else ci

-- `count` interfaces from `i` on.
unfoldable pub read_interfaces : ℕ → ℕ → Dict Text Text → NetworkInterfaces → NetworkInterfaces
read_interfaces zero i params ci = ci
read_interfaces (suc count) i params ci =
    read_interfaces count (suc i) params (read_interface i (lookup (ip_key i) params) ci)

-- `CloudInitNetworkInterfaces.mapToSDK`
unfoldable pub interfaces_map_to_sdk : Dict Text Text → NetworkInterfaces
unfolding read_interfaces
interfaces_map_to_sdk params = read_interfaces 32 0 params []
