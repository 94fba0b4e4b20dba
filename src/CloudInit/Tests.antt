-- ===== src/CloudInit/Tests.antt =====
-- Runs of the settings of cloud-init, and the theorems at concrete ones.
use proxmox_api_go.Base.{
  split_string_of_settings, put_settings, String, ◌≡◌, ◌↔◌, ◌||◌, refl, arith, true, false, none,
  some, [], ◌∷◌, codes, text_eq, nat_eq, lookup, insert, itoa, split_on, split_first,
}
use proxmox_api_go.CloudInit.{
  NetworkConfig, map_to_api, ipv4_map_to_api, ipv6_map_to_api, map_to_sdk, interfaces_map_to_api,
  interfaces_map_to_sdk, read_interfaces,
}
use proxmox_api_go.CloudInit.Validation.{
  validate, validate_ipv4, validate_ipv6_address, dhcp_gateway, ipv6_address_invalid,
}
use proxmox_api_go.CloudInit.Custom
use proxmox_api_go.CloudInit.Custom.{Snippet, Custom, snippet_map_to_api, snippet_map_to_sdk, print}
use proxmox_api_go.CloudInit.Merge.{merged}
use proxmox_api_go.CloudInit.Addresses.{map_to_sdk-map_to_api_network}
use proxmox_api_go.CloudInit.Refused.{misses, map_to_api-panics_iff, short_address_lem}

abbrev new_address : NetworkConfig
new_address = record {
  ipv4 = some (record { address = some (codes "10.0.0.2/24"); dhcp = false; gateway = none });
  ipv6 = none;
}

abbrev now : NetworkConfig
now = record {
  ipv4 = some (record {
    address = some (codes "10.0.0.9/24");
    dhcp = false;
    gateway = some (codes "10.0.0.1");
  });
  ipv6 = some (record { address = none; dhcp = false; gateway = none; slaac = true });
}

network_run : map_to_api new_address (some now) ≡ codes ",ip=10.0.0.2/24,gw=10.0.0.1,ip6=auto"
unfolding map_to_api ipv4_map_to_api ipv6_map_to_api
network_run = refl

interfaces_run :
    interfaces_map_to_api
      ((1, new_address) ∷ (2, record { ipv4 = none; ipv6 = none }) ∷ [])
      ((2, record { ipv4 = none; ipv6 = none }) ∷ [])
      ([], [])
    ≡ ((codes "ipconfig1", codes "ip=10.0.0.2/24") ∷ [], codes ",ipconfig2")
unfolding interfaces_map_to_api map_to_api ipv4_map_to_api ipv6_map_to_api insert lookup itoa
interfaces_run = refl

answer_run :
    interfaces_map_to_sdk
      ((codes "ipconfig1", codes "ip=10.0.0.2/24") ∷ (codes "ipconfig2", codes " ") ∷ [])
    ≡ (1, new_address) ∷ []
unfolding interfaces_map_to_sdk read_interfaces map_to_sdk split_string_of_settings put_settings
    split_on split_first insert lookup itoa
answer_run = refl

validate_run :
    validate
      (λ ip. true)
      (λ cidr. some cidr)
      (record {
        ipv4 = some (record { address = none; dhcp = true; gateway = some (codes "10.0.0.1") });
        ipv6 = none;
      })
    ≡ some dhcp_gateway
unfolding validate validate_ipv4
validate_run = refl

map_to_sdk-map_to_api_network_example :
    map_to_sdk (codes "ip=10.0.0.2/24,gw=10.0.0.1,ip6=auto") ≡ merged new_address (some now)
unfolding map_to_api ipv4_map_to_api ipv6_map_to_api
map_to_sdk-map_to_api_network_example =
    map_to_sdk-map_to_api_network new_address (some now)
      (codes "ip=10.0.0.2/24,gw=10.0.0.1,ip6=auto") (ground arith) refl

abbrev file : String → Snippet
file name = record { file_path = codes name; storage = codes "local" }

abbrev user_only : Custom
user_only = record { meta = none; network = none; user = some (file "user.yaml"); vendor = none }

custom_run :
    (Custom.map_to_api user_only none ≡ some (codes "user=local:user.yaml"))
    × (Custom.map_to_sdk (codes "user=local:user.yaml") ≡ some user_only)
unfolding Custom.map_to_api snippet_map_to_api print Custom.map_to_sdk snippet_map_to_sdk
    split_string_of_settings put_settings split_on split_first insert lookup
custom_run = (refl, refl)

map_to_api-panics_iff_example : (Custom.map_to_api user_only (some user_only) ≡ none) ↔ (
    (misses none none
      || (misses none none || (misses user_only.user user_only.user || misses none none)))
    ≡ true)
map_to_api-panics_iff_example = map_to_api-panics_iff user_only user_only

short_address_lem_example :
    validate_ipv6_address (λ ip. true) (λ cidr. some cidr) (codes "fe80::1")
    ≡ some ipv6_address_invalid
short_address_lem_example =
    short_address_lem (λ ip. true) (λ cidr. some cidr) (codes "fe80") (codes "1") refl

-- With a third colon the address is accepted.
three_colons_run : validate_ipv6_address (λ ip. true) (λ cidr. some cidr) (codes "fe80::1:2") ≡ none
three_colons_run =
    short_address_lem (λ ip. true) (λ cidr. some cidr) (codes "fe80") (codes "1:2") refl
