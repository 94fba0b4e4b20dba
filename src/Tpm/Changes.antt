-- ===== src/Tpm/Changes.antt =====
-- What `TpmState.Validate` accepts, and what `TpmState.markChanges` changes.
use proxmox_api_go.Base.{
  ◌≡◌, ◌≢◌, ◌↔◌, ◌⊎◌, refl, arith, false, Option, Option-cases, none, some, [], Text, codes,
  text_eqb_iff, text_eq, inl, inr,
}
use proxmox_api_go.Tpm.{TpmState, version_map_to_api, validate_version, mark_changes, validate}

-- The spellings of a version that are accepted.
abbrev pub IsSpelling : Text → Type 0
IsSpelling v =
    (v ≡ codes "v1.2")
    ⊎ (v ≡ codes "1.2")
    ⊎ (v ≡ codes "v2.0")
    ⊎ (v ≡ codes "v2")
    ⊎ (v ≡ codes "2.0")
    ⊎ (v ≡ codes "2")

-- Where a version is given, it is spelled in one of these ways.
abbrev pub IsSpelled : Option Text → Type 0
IsSpelled none = Unit
IsSpelled (some version) = IsSpelling version

-- A TPM is created with a version; at a change it may be left out.
abbrev pub IsGivenToCreate : Option Text → Option TpmState → Type 0
IsGivenToCreate none none = ⊥
IsGivenToCreate _ _ = Unit

validate_version_iff : (v : Text) → (validate_version v ≡ none) ↔ IsSpelling v
unfolding validate_version version_map_to_api
validate_version_iff v = ground (
  arith,
  text_eqb_iff v (codes "v1.2"),
  text_eqb_iff v (codes "1.2"),
  text_eqb_iff v (codes "v2.0"),
  text_eqb_iff v (codes "v2"),
  text_eqb_iff v (codes "2.0"),
  text_eqb_iff v (codes "2"),
)

-- A TPM is accepted exactly when its storage is given, its version is spelled in one of the six ways,
-- and it has one if it is to be created.
pub tpm_validate_iff :
    (t : TpmState) (current : Option TpmState)
    → (validate t current ≡ none)
      ↔ ((t.storage ≢ []) × IsSpelled t.version × IsGivenToCreate t.version current)
unfolding validate
tpm_validate_iff t current = elim (Option-cases t.version) [
  | inl e ↦ rw e (ground (arith, text_eqb_iff t.storage []))
  | inr (v, e) ↦ rw e (ground (arith, text_eqb_iff t.storage [], validate_version_iff v))
]

-- Where the version is given, it is the one that the machine has.
abbrev pub IsVersionOf : Option Text → Text → Type 0
IsVersionOf none now = Unit
IsVersionOf (some version) now = version_map_to_api version ≡ now

-- A TPM that is not to be deleted is left as it is exactly when its storage is the current one and its
-- version, where it is given, is what the server is sent for it; the current one is deleted exactly
-- when the version differs.
pub mark_changes_iff :
    (t current : TpmState) (now : Text)
    → t.delete ≡ false
    → current.version ≡ some now
    → ((mark_changes t current ≡ some ([], none))
        ↔ (IsVersionOf t.version now × (t.storage ≡ current.storage)))
      × ((mark_changes t current ≡ some (codes "tpmstate0", none)) ↔ ¬ IsVersionOf t.version now)
unfolding mark_changes
mark_changes_iff t current now kept has = elim (Option-cases t.version) [
  | inl e ↦ rw (kept, e) (ground (arith, text_eqb_iff t.storage current.storage))
  | inr (v, e) ↦
      rw (kept, e, has)
        (ground
          (arith, text_eqb_iff t.storage current.storage, text_eqb_iff (version_map_to_api v) now))
]

-- The version `1.2` is accepted, at the creation and for each machine; but a TPM of version `v1.2` is
-- then deleted, whatever the storages, since the spelling is sent as it is.
pub short_spelling_replaces :
    (t current : TpmState)
    → t.delete ≡ false
    → t.storage ≢ []
    → t.version ≡ some (codes "1.2")
    → current.version ≡ some (codes "v1.2")
    → (validate t none ≡ none)
      × (validate t (some current) ≡ none)
      × (mark_changes t current ≡ some (codes "tpmstate0", none))
unfolding version_map_to_api
short_spelling_replaces t current kept given short has = (
  (tpm_validate_iff t none).1 (given, rw short (inr (inl refl)), rw short tt),
  (tpm_validate_iff t (some current)).1 (given, rw short (inr (inl refl)), rw short tt),
  ((mark_changes_iff t current (codes "v1.2") kept has).1).1 (rw short (λ e. cc)),
)
