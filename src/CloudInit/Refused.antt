-- ===== src/CloudInit/Refused.antt =====
-- Settings of cloud-init that are refused, or make the program panic, though they are in order.
use proxmox_api_go.Base.{
  ◌+◌, ◌≡◌, ◌↔◌, ◌∙◌, ap, refl, arith, Bool, true, false, ◌||◌, if◌then◌else◌, Option, none, some,
  [], ◌∷◌, ◌++◌, Text, text_eqb, codes, ltb, contains_byte,
}
use proxmox_api_go.CloudInit.Validation.{
  ipv6_address_invalid, colons, is_ipv6, validate_ipv6_address,
}
use proxmox_api_go.CloudInit.Custom.{Snippet, Custom, write_snippet, join_kinds, map_to_api}

-- Whether neither the change nor the current settings have a snippet.
abbrev pub misses : Option Snippet → Option Snippet → Bool
misses none none = true
misses _ _ = false

unfoldable is_none : Option Text → Bool
is_none none = true
is_none (some _) = false

is_none-write_snippet :
    (kind : Text) (given now : Option Snippet)
    → is_none (write_snippet kind given (some now)) ≡ misses given now
unfolding is_none
is_none-write_snippet kind (some s) now = refl
is_none-write_snippet kind none (some s) = refl
is_none-write_snippet kind none none = refl

join_kinds_iff :
    (m n u v : Option Text)
    → (join_kinds m n u v ≡ none) ↔ ((is_none m || (is_none n || (is_none u || is_none v))) ≡ true)
unfolding is_none
join_kinds_iff none n u v = (λ _. refl, λ _. refl)
join_kinds_iff (some m) none u v = (λ _. refl, λ _. refl)
join_kinds_iff (some m) (some n) none v = (λ _. refl, λ _. refl)
join_kinds_iff (some m) (some n) (some u) none = (λ _. refl, λ _. refl)
join_kinds_iff (some m) (some n) (some u) (some v) = (λ h. absurd (cc), λ h. absurd (cc))

-- An update of the snippets panics exactly where one of the four kinds is neither given nor set now.
pub map_to_api-panics_iff :
    (config current : Custom)
    → (map_to_api config (some current) ≡ none) ↔ (
        (misses config.meta current.meta
          || (misses config.network current.network
              || (misses config.user current.user || misses config.vendor current.vendor)))
        ≡ true)
unfolding map_to_api
map_to_api-panics_iff config current =
    let iff =
      join_kinds_iff (write_snippet (codes "meta") config.meta (some current.meta))
        (write_snippet (codes "network") config.network (some current.network))
        (write_snippet (codes "user") config.user (some current.user))
        (write_snippet (codes "vendor") config.vendor (some current.vendor)) in
    rw
      (
        is_none-write_snippet (codes "meta") config.meta current.meta,
        is_none-write_snippet (codes "network") config.network current.network,
        is_none-write_snippet (codes "user") config.user current.user,
        is_none-write_snippet (codes "vendor") config.vendor current.vendor,
      )
      at iff

colons-append : (s t : Text) → colons (s ++ t) ≡ colons s + colons t
colons-append [] t = omega arith
colons-append (c ∷ s) t = ground (arith, colons-append s t)

-- A text has a colon exactly if there are some to count.
colons-contains_byte : (s : Text) → ltb 0 (colons s) ≡ contains_byte b':' s
colons-contains_byte [] = refl
colons-contains_byte (c ∷ s) = ground (arith, colons-contains_byte s)

more_than_two :
    (before after : Text)
    → is_ipv6 (before ++ codes "::" ++ after)
      ≡ (contains_byte b':' before || contains_byte b':' after)
more_than_two before after =
    let count : colons (before ++ codes "::" ++ after) ≡ colons before + 2 + colons after =
      colons-append (before ++ codes "::") after
      ∙ ap (λ n. n + colons after) (colons-append before (codes "::")) in
    ap (ltb 2) count
    ∙ (rw (← colons-contains_byte before, ← colons-contains_byte after) (ground arith))

short_form : (before after : Text) → text_eqb (before ++ codes "::" ++ after) [] ≡ false
short_form [] after = refl
short_form (c ∷ before) after = refl

-- An address in the short form with `::`, which `net.ParseIP` takes for one, is accepted exactly if there
-- is another colon in front of the `::` or behind it; else it is refused as no address of IPv6.
pub short_address_lem :
    (is_ip : Text → Bool) (parse_cidr : Text → Option Text) (before after : Text)
    → is_ip (before ++ codes "::" ++ after) ≡ true
    → validate_ipv6_address is_ip parse_cidr (before ++ codes "::" ++ after) ≡ (
        if contains_byte b':' before || contains_byte b':' after
        then none
        else some ipv6_address_invalid)
unfolding validate_ipv6_address
short_address_lem is_ip parse_cidr before after valid =
    rw (short_form before after, valid, more_than_two before after) refl
