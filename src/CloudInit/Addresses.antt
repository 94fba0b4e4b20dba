-- ===== src/CloudInit/Addresses.antt =====
-- The network settings of one interface, from a request back to what is read of them.
use proxmox_api_go.Base.{
  split_string_of_settings, put_settings, ◌≡◌, ◌∙◌, refl, arith, if_elim, Option, none, some, List,
  [], ◌∷◌, ◌++◌, Text, codes, text_eq, All, All-append, Lacks, Dict, lookup, insert, more,
  more-append, split_on_tail, split_first,
}
use proxmox_api_go.CloudInit.{
  Ipv4Config, Ipv6Config, NetworkConfig, current_of, map_to_api, read_ipv4, read_ipv6,
  read_settings, map_to_sdk,
}
use proxmox_api_go.CloudInit.Merge.{
  kept, settled_ipv4, settled_ipv6, changed_ipv4, changed_ipv6, changed, merged, Given, IsSendable,
  IsClean,
}
use proxmox_api_go.CloudInit.Writing.{
  ip_of, ip6_of, gw_of, gw6_of, part, parts4, parts6, write_protocol4, write_protocol6,
}

abbrev IsClean4 : Option Ipv4Config → Type 0
IsClean4 = Given (λ c. Given IsSendable c.address × Given (Lacks b',') c.gateway)

abbrev IsClean6 : Option Ipv6Config → Type 0
IsClean6 = Given (λ c. Given IsSendable c.address × Given (Lacks b',') c.gateway)

-- What is read of the values of a protocol that was settled is the protocol.
abbrev IsRead4 : Option Ipv4Config → Type 0
IsRead4 m = IsClean4 m → read_ipv4 (ip_of m) (gw_of m) ≡ m

abbrev IsRead6 : Option Ipv6Config → Type 0
IsRead6 m = IsClean6 m → read_ipv6 (ip6_of m) (gw6_of m) ≡ m

settled4-IsRead : (a g : Option Text) → IsRead4 (settled_ipv4 a g)
settled4-IsRead none none h = refl
settled4-IsRead none (some g) h = refl
settled4-IsRead (some a) g ((_, not_dhcp, _), _) = rw not_dhcp refl

settled6-IsRead : (a g : Option Text) → IsRead6 (settled_ipv6 a g)
settled6-IsRead none none h = refl
settled6-IsRead none (some g) h = refl
settled6-IsRead (some a) g ((_, not_dhcp, not_auto), _) = rw (not_dhcp, not_auto) refl

changed4-IsRead :
    (config : Ipv4Config) (current : Option Ipv4Config) → IsRead4 (changed_ipv4 config current)
changed4-IsRead config current =
    if_elim IsRead4 config.dhcp (λ _. refl)
      (settled4-IsRead (kept config.address (current_of (λ c. c.address) current))
        (kept config.gateway (current_of (λ c. c.gateway) current)))

changed6-IsRead :
    (config : Ipv6Config) (current : Option Ipv6Config) → IsRead6 (changed_ipv6 config current)
changed6-IsRead config current =
    if_elim IsRead6 config.dhcp (λ _. refl)
      (if_elim IsRead6 config.slaac (λ _. refl)
        (settled6-IsRead (kept config.address (current_of (λ c. c.address) current))
          (kept config.gateway (current_of (λ c. c.gateway) current))))

protocol4-IsRead :
    (config current : Option Ipv4Config) → IsRead4 (changed changed_ipv4 config current)
protocol4-IsRead (some config) current = changed4-IsRead config current
protocol4-IsRead none (some current) = changed4-IsRead current none
protocol4-IsRead none none = λ _. refl

protocol6-IsRead :
    (config current : Option Ipv6Config) → IsRead6 (changed changed_ipv6 config current)
protocol6-IsRead (some config) current = changed6-IsRead config current
protocol6-IsRead none (some current) = changed6-IsRead current none
protocol6-IsRead none none = λ _. refl

part-Lacks :
    (key : Text) (o : Option Text)
    → Lacks b',' key
    → Given (Lacks b',') o
    → All (Lacks b',') (part key o)
part-Lacks key none h k = tt
part-Lacks key (some v) h k = (All-append _ key (b'=' ∷ v) h ((λ e. omega arith), k), tt)

address-Lacks : (o : Option Text) → Given IsSendable o → Given (Lacks b',') o
address-Lacks none h = tt
address-Lacks (some a) h = h.0

parts4-Lacks : (m : Option Ipv4Config) → IsClean4 m → All (Lacks b',') (parts4 m)
unfolding parts4
parts4-Lacks none h = tt
parts4-Lacks (some c) (h, k) =
    All-append _ (part (codes "ip") (ip_of (some c))) (part (codes "gw") c.gateway)
      (part-Lacks (codes "ip") (ip_of (some c)) (ground arith)
        (if_elim (Given (Lacks b',')) c.dhcp (ground arith) (address-Lacks c.address h)))
      (part-Lacks (codes "gw") c.gateway (ground arith) k)

parts6-Lacks : (m : Option Ipv6Config) → IsClean6 m → All (Lacks b',') (parts6 m)
unfolding parts6
parts6-Lacks none h = tt
parts6-Lacks (some c) (h, k) =
    All-append _ (part (codes "ip6") (ip6_of (some c))) (part (codes "gw6") c.gateway)
      (part-Lacks (codes "ip6") (ip6_of (some c)) (ground arith) (
        if_elim (Given (Lacks b',')) c.dhcp (ground arith)
          (if_elim (Given (Lacks b',')) c.slaac (ground arith) (address-Lacks c.address h))))
      (part-Lacks (codes "gw6") c.gateway (ground arith) k)

settings_of : List Text → Dict Text Text
unfolding put_settings
settings_of es = put_settings es []

-- Each key has its value.
read_values :
    (a g b h : Option Text)
    → read_settings (
        settings_of (
          (part (codes "ip") a ++ part (codes "gw") g)
          ++ (part (codes "ip6") b ++ part (codes "gw6") h)))
      ≡ record { ipv4 = read_ipv4 a g; ipv6 = read_ipv6 b h }
unfolding settings_of lookup insert split_first
read_values none none none none = refl
read_values none none none (some h) = refl
read_values none none (some b) none = refl
read_values none none (some b) (some h) = refl
read_values none (some g) none none = refl
read_values none (some g) none (some h) = refl
read_values none (some g) (some b) none = refl
read_values none (some g) (some b) (some h) = refl
read_values (some a) none none none = refl
read_values (some a) none none (some h) = refl
read_values (some a) none (some b) none = refl
read_values (some a) none (some b) (some h) = refl
read_values (some a) (some g) none none = refl
read_values (some a) (some g) none (some h) = refl
read_values (some a) (some g) (some b) none = refl
read_values (some a) (some g) (some b) (some h) = refl

read_split :
    (rest : Text) (es : List Text)
    → All (Lacks b',') es
    → more b',' es ≡ b',' ∷ rest
    → map_to_sdk rest ≡ read_settings (settings_of es)
unfolding map_to_sdk split_string_of_settings settings_of
read_split rest es h e = rw (split_on_tail b',' es rest h e) refl

read_parts :
    (m : Option Ipv4Config) (n : Option Ipv6Config)
    → read_settings (settings_of (parts4 m ++ parts6 n))
      ≡ record { ipv4 = read_ipv4 (ip_of m) (gw_of m); ipv6 = read_ipv6 (ip6_of n) (gw6_of n) }
unfolding parts4 parts6
read_parts m n = read_values (ip_of m) (gw_of m) (ip6_of n) (gw6_of n)

-- If the text for an interface is not empty, what is read of it, without the separator in front, is what
-- the change is meant to leave; no text in that has a comma, and no address is the word dhcp or auto.
pub map_to_sdk-map_to_api_network :
    (config : NetworkConfig) (current : Option NetworkConfig) (rest : Text)
    → IsClean (merged config current)
    → map_to_api config current ≡ b',' ∷ rest
    → map_to_sdk rest ≡ merged config current
unfolding map_to_api
map_to_sdk-map_to_api_network config current rest (clean4, clean6) written =
    let now4 = current_of (λ c. c.ipv4) current in
    let now6 = current_of (λ c. c.ipv6) current in
    let m = changed changed_ipv4 config.ipv4 now4 in
    let n = changed changed_ipv6 config.ipv6 now6 in
    let text : more b',' (parts4 m ++ parts6 n) ≡ b',' ∷ rest =
      more-append b',' (parts4 m) (parts6 n)
      ∙ rw (← write_protocol4 config.ipv4 now4, ← write_protocol6 config.ipv6 now6) written in
    read_split rest (parts4 m ++ parts6 n)
      (All-append _ (parts4 m) (parts6 n) (parts4-Lacks m clean4) (parts6-Lacks n clean6)) text
    ∙ read_parts m n
    ∙ rw (protocol4-IsRead config.ipv4 now4 clean4, protocol6-IsRead config.ipv6 now6 clean6) refl
