-- ===== src/CloudInit/Validation.antt =====
-- The checks of the network settings of cloud-init. `net.ParseIP` and `net.ParseCIDR` are parameters:
-- whether a text is an address, and the text of the address in a text with a prefix length.
use proxmox_api_go.Base.{
  ℕ, Bool, true, false, ◌&&◌, ltb, nat_eqb, if◌then◌else◌, Option, none, some, [], ◌∷◌, Text,
  text_eqb, text_eq, nat_eq, length, filter,
}
use proxmox_api_go.CloudInit.{Ipv4Config, Ipv6Config, NetworkConfig, NetworkInterfaces}

pub data NetworkError : Type 0 where
  dhcp_address : NetworkError
  dhcp_gateway : NetworkError
  dhcp_slaac : NetworkError
  slaac_address : NetworkError
  slaac_gateway : NetworkError
  ipv4_address_invalid : NetworkError
  ipv4_cidr_invalid : NetworkError
  ipv6_address_invalid : NetworkError
  ipv6_cidr_invalid : NetworkError
  interface_invalid : NetworkError

-- `isIPv4` and `isIPv6` of proxmox/util.go count the colons.
abbrev pub colons : Text → ℕ
colons address = length (filter (λ c. nat_eqb c b':') address)

abbrev pub is_ipv4 : Text → Bool
is_ipv4 address = nat_eqb (colons address) 0

abbrev pub is_ipv6 : Text → Bool
is_ipv6 address = ltb 2 (colons address)

module _ (is_ip : Text → Bool) (parse_cidr : Text → Option Text) where
  abbrev pub check_address : (Text → Bool) → NetworkError → Text → Option NetworkError
  check_address of_version error ip =
      if text_eqb ip [] then none else if is_ip ip && of_version ip then none else some error

  abbrev pub check_cidr : (Text → Bool) → NetworkError → Text → Option NetworkError
  check_cidr of_version error cidr = if text_eqb cidr [] then none else elim (parse_cidr cidr) [
    | none ↦ some error
    | some ip ↦ if of_version ip then none else some error
  ]

  -- `Validate` of the four types of texts.
  unfoldable pub validate_ipv4_address : Text → Option NetworkError
  validate_ipv4_address = check_address is_ipv4 ipv4_address_invalid

  unfoldable pub validate_ipv4_cidr : Text → Option NetworkError
  validate_ipv4_cidr = check_cidr is_ipv4 ipv4_cidr_invalid

  unfoldable pub validate_ipv6_address : Text → Option NetworkError
  validate_ipv6_address = check_address is_ipv6 ipv6_address_invalid

  unfoldable pub validate_ipv6_cidr : Text → Option NetworkError
  validate_ipv6_cidr = check_cidr is_ipv6 ipv6_cidr_invalid

  abbrev pub or_next : Option NetworkError → Option NetworkError → Option NetworkError
  or_next (some e) next = some e
  or_next none next = next

  -- A text that is given and not empty, with the flags that exclude it.
  abbrev pub check_given :
      Option Text → Option NetworkError → (Text → Option NetworkError) → Option NetworkError
  check_given none excluded check = none
  check_given (some []) excluded check = none
  check_given (some (c ∷ s)) excluded check = or_next excluded (check (c ∷ s))

  abbrev pub excluded_by : Bool → NetworkError → Option NetworkError
  excluded_by true e = some e
  excluded_by false e = none

  -- `CloudInitIPv4Config.Validate`
  unfoldable pub validate_ipv4 : Ipv4Config → Option NetworkError
  validate_ipv4 config =
      or_next (check_given config.address (excluded_by config.dhcp dhcp_address) validate_ipv4_cidr)
        (check_given config.gateway (excluded_by config.dhcp dhcp_gateway) validate_ipv4_address)

  -- `CloudInitIPv6Config.Validate`
  unfoldable pub validate_ipv6 : Ipv6Config → Option NetworkError
  validate_ipv6 config = or_next (excluded_by (config.dhcp && config.slaac) dhcp_slaac) (
      or_next
        (check_given config.address
          (or_next (excluded_by config.dhcp dhcp_address) (excluded_by config.slaac slaac_address))
          validate_ipv6_cidr)
        (check_given config.gateway
          (or_next (excluded_by config.dhcp dhcp_gateway) (excluded_by config.slaac slaac_gateway))
          validate_ipv6_address))

  abbrev pub check_protocol {ℓ} :
      {A : Type ℓ} → (A → Option NetworkError) → Option A → Option NetworkError
  check_protocol check none = none
  check_protocol check (some config) = check config

  -- `CloudInitNetworkConfig.Validate`
  unfoldable pub validate : NetworkConfig → Option NetworkError
  validate config =
      or_next (check_protocol validate_ipv4 config.ipv4) (check_protocol validate_ipv6 config.ipv6)

  -- `CloudInitNetworkInterfaces.Validate`
  unfoldable pub validate_interfaces : NetworkInterfaces → Option NetworkError
  validate_interfaces [] = none
  validate_interfaces ((i, e) ∷ interfaces) =
      or_next (excluded_by (ltb 31 i) interface_invalid)
        (or_next (validate e) (validate_interfaces interfaces))
