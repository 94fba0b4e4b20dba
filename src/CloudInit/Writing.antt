-- ===== src/CloudInit/Writing.antt =====
-- The text of the network settings of an interface, as the list of its settings.
use mathlib.Core.List.{append-nil}
use proxmox_api_go.Base.{
  ◌≡◌, ◌∙◌, refl, sym, ap, if◌then◌else◌, if_both, Option, none, some, List, [], ◌∷◌, ◌++◌, Text,
  codes, text_eq, more, more-append,
}
use proxmox_api_go.CloudInit.{
  Ipv4Config, Ipv6Config, write_setting, current_of, ipv4_map_to_api, ipv6_map_to_api,
  write_protocol,
}
use proxmox_api_go.CloudInit.Merge.{
  kept, settled_ipv4, settled_ipv6, changed_ipv4, changed_ipv6, changed,
}

-- The two values of a protocol.
abbrev pub ip_of : Option Ipv4Config → Option Text
ip_of none = none
ip_of (some c) = if c.dhcp then some (codes "dhcp") else c.address

abbrev pub ip6_of : Option Ipv6Config → Option Text
ip6_of none = none
ip6_of (some c) =
    if c.dhcp then some (codes "dhcp") else if c.slaac then some (codes "auto") else c.address

abbrev pub gw_of : Option Ipv4Config → Option Text
gw_of none = none
gw_of (some c) = c.gateway

abbrev pub gw6_of : Option Ipv6Config → Option Text
gw6_of none = none
gw6_of (some c) = c.gateway

abbrev pub part : Text → Option Text → List Text
part key none = []
part key (some v) = (key ++ b'=' ∷ v) ∷ []

more-part : (key v : Text) → more b',' (part key (some v)) ≡ b',' ∷ (key ++ b'=' ∷ v)
unfolding more
more-part key v = ap (λ t. b',' ∷ t) (append-nil (key ++ b'=' ∷ v))

no_part : [] ≡ more b',' []
unfolding more
no_part = refl

write_setting_lem :
    (key : Text) (given now : Option Text)
    → write_setting key given now ≡ more b',' (part key (kept given now))
write_setting_lem key (some []) now = no_part
write_setting_lem key (some (c ∷ s)) now = sym (more-part key (c ∷ s))
write_setting_lem key none (some v) = sym (more-part key v)
write_setting_lem key none none = no_part

two_settings :
    (key other : Text) (a b g h : Option Text)
    → write_setting key a b ++ write_setting other g h
      ≡ more b',' (part key (kept a b) ++ part other (kept g h))
two_settings key other a b g h =
    rw
      (
        write_setting_lem key a b,
        write_setting_lem other g h,
        more-append b',' (part key (kept a b)) (part other (kept g h)),
      )
      refl

unfoldable pub parts4 : Option Ipv4Config → List Text
parts4 m = part (codes "ip") (ip_of m) ++ part (codes "gw") (gw_of m)

unfoldable pub parts6 : Option Ipv6Config → List Text
parts6 m = part (codes "ip6") (ip6_of m) ++ part (codes "gw6") (gw6_of m)

settled4-parts :
    (a g : Option Text) → parts4 (settled_ipv4 a g) ≡ part (codes "ip") a ++ part (codes "gw") g
unfolding parts4
settled4-parts none none = refl
settled4-parts (some a) g = refl
settled4-parts none (some g) = refl

settled6-parts :
    (a g : Option Text) → parts6 (settled_ipv6 a g) ≡ part (codes "ip6") a ++ part (codes "gw6") g
unfolding parts6
settled6-parts none none = refl
settled6-parts (some a) g = refl
settled6-parts none (some g) = refl

dhcp-part : codes ",ip=dhcp" ≡ more b',' (part (codes "ip") (some (codes "dhcp")))
unfolding more
dhcp-part = refl

dhcp6-part : codes ",ip6=dhcp" ≡ more b',' (part (codes "ip6") (some (codes "dhcp")))
unfolding more
dhcp6-part = refl

auto-part : codes ",ip6=auto" ≡ more b',' (part (codes "ip6") (some (codes "auto")))
unfolding more
auto-part = refl

write4 :
    (config : Ipv4Config) (current : Option Ipv4Config)
    → ipv4_map_to_api config current ≡ more b',' (parts4 (changed_ipv4 config current))
unfolding ipv4_map_to_api parts4
write4 config current =
    let a = kept config.address (current_of (λ c. c.address) current) in
    let g = kept config.gateway (current_of (λ c. c.gateway) current) in
    if_both (λ t m. t ≡ more b',' (parts4 m)) config.dhcp dhcp-part
      (two_settings (codes "ip") (codes "gw") config.address (current_of (λ c. c.address) current)
          config.gateway (current_of (λ c. c.gateway) current)
        ∙ ap (more b',') (sym (settled4-parts a g)))

write6 :
    (config : Ipv6Config) (current : Option Ipv6Config)
    → ipv6_map_to_api config current ≡ more b',' (parts6 (changed_ipv6 config current))
unfolding ipv6_map_to_api parts6
write6 config current =
    let a = kept config.address (current_of (λ c. c.address) current) in
    let g = kept config.gateway (current_of (λ c. c.gateway) current) in
    if_both (λ t m. t ≡ more b',' (parts6 m)) config.dhcp dhcp6-part
      (if_both (λ t m. t ≡ more b',' (parts6 m)) config.slaac auto-part
        (two_settings (codes "ip6") (codes "gw6") config.address
            (current_of (λ c. c.address) current) config.gateway
            (current_of (λ c. c.gateway) current)
          ∙ ap (more b',') (sym (settled6-parts a g))))

pub write_protocol4 :
    (config current : Option Ipv4Config)
    → write_protocol ipv4_map_to_api config current
      ≡ more b',' (parts4 (changed changed_ipv4 config current))
unfolding parts4
write_protocol4 (some config) current = write4 config current
write_protocol4 none (some current) = write4 current none
write_protocol4 none none = no_part

pub write_protocol6 :
    (config current : Option Ipv6Config)
    → write_protocol ipv6_map_to_api config current
      ≡ more b',' (parts6 (changed changed_ipv6 config current))
unfolding parts6
write_protocol6 (some config) current = write6 config current
write_protocol6 none (some current) = write6 current none
write_protocol6 none none = no_part
