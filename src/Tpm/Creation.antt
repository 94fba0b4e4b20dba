-- ===== src/Tpm/Creation.antt =====
-- A TPM that is created, and read back from the text in which it is written.
use mathlib.Core.List.{append_assoc}
use proxmox_api_go.Base.{
  put_settings, split_string_of_settings, ◌≡◌, ◌⊎◌, ◌∙◌, refl, sym, ap, arith, false, Option-cases,
  none, some, [], ◌∷◌, ◌++◌, Text, codes, text_eq, lookup, insert, lookup-insert, str, inl, inr,
  All-append, Lacks, split_on, split_on-append, split_on_of_Lacks, split_first-append,
}
use proxmox_api_go.Tpm.{
  TpmState, version_map_to_api, map_to_api, storage_of, map_to_sdk, mark_changes, validate,
}
use proxmox_api_go.Tpm.Changes.{IsSpelling, tpm_validate_iff, mark_changes_iff}

-- The value of `tpmstate0`, with a version as the server is sent it.
abbrev pub written : Text → Text → Text
written storage version = storage ++ (codes ":1,version=" ++ version)

read_storage :
    (storage version : Text)
    → Lacks b':' storage
    → Lacks b':' version
    → storage_of (split_on b':' (written storage version)) ≡ storage
read_storage storage version h k =
    let rest : Lacks b':' (codes "1,version=" ++ version) =
      All-append _ (codes "1,version=") version (ground arith) k in
    rw
      (
        split_on-append b':' storage (codes "1,version=" ++ version) h,
        split_on_of_Lacks b':' _ rest,
      )
      refl

settings_of :
    (storage version : Text)
    → Lacks b',' storage
    → Lacks b',' version
    → split_on b',' (written storage version)
      ≡ (storage ++ codes ":1") ∷ (codes "version=" ++ version) ∷ []
settings_of storage version h k =
    let first : Lacks b',' (storage ++ codes ":1") =
      All-append _ storage (codes ":1") h (ground arith) in
    let second : Lacks b',' (codes "version=" ++ version) =
      All-append _ (codes "version=") version (ground arith) k in
    ap (split_on b',')
      (sym (append_assoc storage (codes ":1") (b',' ∷ codes "version=" ++ version)))
    ∙ split_on-append b',' _ (codes "version=" ++ version) first
    ∙ ap (λ r. (storage ++ codes ":1") ∷ r) (split_on_of_Lacks b',' _ second)

read_version :
    (storage version : Text)
    → Lacks b',' storage
    → Lacks b',' version
    → lookup (codes "version") (split_string_of_settings (written storage version)) ≡ some version
unfolding split_string_of_settings put_settings
read_version storage version h k =
    rw
      (
        settings_of storage version h k,
        split_first-append b'=' (codes "version") version (ground arith),
        lookup-insert (codes "version") (codes "version") version _,
      )
      refl

-- What is sent for a version that is accepted.
sent_cases :
    (v : Text)
    → IsSpelling v
    → (version_map_to_api v ≡ codes "v1.2")
      ⊎ (version_map_to_api v ≡ codes "1.2")
      ⊎ (version_map_to_api v ≡ codes "v2.0")
unfolding version_map_to_api
sent_cases v (inl e) = rw e (inl refl)
sent_cases v (inr (inl e)) = rw e (inr (inl refl))
sent_cases v (inr (inr (inl e))) = rw e (inr (inr refl))
sent_cases v (inr (inr (inr (inl e)))) = rw e (inr (inr refl))
sent_cases v (inr (inr (inr (inr (inl e))))) = rw e (inr (inr refl))
sent_cases v (inr (inr (inr (inr (inr e))))) = rw e (inr (inr refl))

sent-Lacks :
    (v : Text)
    → IsSpelling v
    → Lacks b':' (version_map_to_api v) × Lacks b',' (version_map_to_api v)
sent-Lacks v h = elim (sent_cases v h) [
  | inl e ↦ rw e (ground arith)
  | inr (inl e) ↦ rw e (ground arith)
  | inr (inr e) ↦ rw e (ground arith)
]

-- The text that creates a TPM.
create_lem :
    (t : TpmState) (v : Text)
    → t.delete ≡ false
    → t.version ≡ some v
    → map_to_api t [] none
      ≡ some (("tpmstate0", str (written t.storage (version_map_to_api v))) ∷ [], [])
unfolding map_to_api insert
create_lem t v kept has = rw (kept, has) refl

read_lem :
    (t : TpmState) (v : Text)
    → IsSpelling v
    → Lacks b':' t.storage
    → Lacks b',' t.storage
    → ((map_to_sdk (written t.storage (version_map_to_api v))).storage ≡ t.storage)
      × ((map_to_sdk (written t.storage (version_map_to_api v))).version
          ≡ some (version_map_to_api v))
unfolding map_to_sdk
read_lem t v spelled h k =
    let sent = sent-Lacks v spelled in
    (read_storage t.storage _ h sent.0, read_version t.storage _ k sent.1)

spelled_of_valid :
    (t : TpmState) (v : Text) → t.version ≡ some v → validate t none ≡ none → IsSpelling v
spelled_of_valid t v has valid = rw has at (((tpm_validate_iff t none).0 valid).1)

-- A TPM that is accepted for a new machine, and is not to be deleted, is written; the text is read back
-- with its storage; and giving the same TPM again to the machine that has what was read changes
-- nothing. The name of the storage has neither a colon nor a comma.
pub create_then_unchanged :
    (t : TpmState)
    → t.delete ≡ false
    → validate t none ≡ none
    → Lacks b':' t.storage
    → Lacks b',' t.storage
    → (text : Text) × (map_to_api t [] none ≡ some (("tpmstate0", str text) ∷ [], []))
      × ((map_to_sdk text).storage ≡ t.storage)
      × (mark_changes t (map_to_sdk text) ≡ some ([], none))
create_then_unchanged t kept valid h k = elim (Option-cases t.version) [
  | inl e ↦ absurd (rw e at (((tpm_validate_iff t none).0 valid).2))
  | inr (v, e) ↦
      let (storage, version) = read_lem t v (spelled_of_valid t v e valid) h k in
      let text = written t.storage (version_map_to_api v) in
      (
        text,
        create_lem t v kept e,
        storage,
        ((mark_changes_iff t (map_to_sdk text) _ kept version).0).1 (rw e refl, sym storage),
      )
]
