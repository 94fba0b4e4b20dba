-- ===== src/CloudInit/Custom.antt =====
-- The snippets of cloud-init: four files that replace what it would write itself.
use proxmox_api_go.Base.{
  split_string_of_settings, Bool, if◌then◌else◌, Option, none, some, List, [], ◌∷◌, ◌++◌, ◌>>=◌,
  Text, codes, text_eqb, text_eq, lookup, split_first,
}

pub record Snippet : Type 0 where
  pub file_path : Text
  pub storage : Text

pub record Custom : Type 0 where
  pub meta : Option Snippet
  pub network : Option Snippet
  pub user : Option Snippet
  pub vendor : Option Snippet

-- `CloudInitSnippet.String`
unfoldable pub print : Snippet → Text
print config = config.storage ++ b':' ∷ config.file_path

-- `CloudInitSnippet.mapToAPI`
unfoldable pub snippet_map_to_api : Text → Snippet → Text
snippet_map_to_api kind ci =
    let tmp = print ci in if text_eqb tmp (codes ":") then [] else b',' ∷ (kind ++ b'=' ∷ tmp)

-- The current snippet of an update; `none` is a creation.
abbrev pub current_snippet : (Custom → Option Snippet) → Option Custom → Option (Option Snippet)
current_snippet field none = none
current_snippet field (some current) = some (field current)

-- One kind: the snippet that is given, or on an update the current one. `none` is the panic of a call
-- on a snippet that is nil.
abbrev pub write_snippet : Text → Option Snippet → Option (Option Snippet) → Option Text
write_snippet kind (some snippet) current = some (snippet_map_to_api kind snippet)
write_snippet kind none (some (some snippet)) = some (snippet_map_to_api kind snippet)
write_snippet kind none (some none) = none
write_snippet kind none none = some []

abbrev pub without_first : Text → Text
without_first [] = []
without_first (c ∷ param) = param

abbrev pub join_kinds : Option Text → Option Text → Option Text → Option Text → Option Text
join_kinds meta network user vendor = do
  m ← meta
  n ← network
  u ← user
  v ← vendor
  some (without_first (((m ++ n) ++ u) ++ v))

-- `CloudInitCustom.mapToAPI`
unfoldable pub map_to_api : Custom → Option Custom → Option Text
map_to_api config current =
    join_kinds (write_snippet (codes "meta") config.meta (current_snippet (λ c. c.meta) current))
      (write_snippet (codes "network") config.network (current_snippet (λ c. c.network) current))
      (write_snippet (codes "user") config.user (current_snippet (λ c. c.user) current))
      (write_snippet (codes "vendor") config.vendor (current_snippet (λ c. c.vendor) current))

-- `CloudInitSnippet.mapToSDK`
abbrev pub parsed : Text × Option Text → Option Snippet
parsed (storage, none) = none
parsed (storage, some file_path) = some (record { file_path = file_path; storage = storage })

unfoldable pub snippet_map_to_sdk : Text → Option Snippet
snippet_map_to_sdk param = parsed (split_first b':' param)

abbrev pub read_snippet : Option Text → Option Snippet
read_snippet none = none
read_snippet (some v) = snippet_map_to_sdk v

abbrev pub any_set : List (Option Text) → Bool
any_set [] = Bool.false
any_set (none ∷ os) = any_set os
any_set (some _ ∷ os) = Bool.true

-- `CloudInitCustom.mapToSDK`; `none` is nil.
abbrev pub read_kinds : Option Text → Option Text → Option Text → Option Text → Option Custom
read_kinds meta network user vendor =
    if any_set (meta ∷ network ∷ user ∷ vendor ∷ [])
    then some (record {
      meta = read_snippet meta;
      network = read_snippet network;
      user = read_snippet user;
      vendor = read_snippet vendor;
    })
    else none

unfoldable pub map_to_sdk : Text → Option Custom
map_to_sdk raw =
    let params = split_string_of_settings raw in
    read_kinds (lookup (codes "meta") params) (lookup (codes "network") params)
      (lookup (codes "user") params) (lookup (codes "vendor") params)
