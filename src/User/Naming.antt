-- ===== src/User/Naming.antt =====
-- Names of users that are printed and read back.
use proxmox_api_go.Base.{
  ◌≡◌, ◌∙◌, refl, ap, arith, none, false, [], ◌∷◌, ◌++◌, text_eqb, Lacks, split_on, split_on-append,
  split_on_of_Lacks,
}
use proxmox_api_go.User.{UserId, print, parse, validate}

split_on-print :
    (id : UserId)
    → Lacks b'@' id.name
    → Lacks b'@' id.realm
    → split_on b'@' (id.name ++ b'@' ∷ id.realm) ≡ id.name ∷ id.realm ∷ []
split_on-print id h k =
    split_on-append b'@' id.name id.realm h
    ∙ ap (λ r. id.name ∷ r) (split_on_of_Lacks b'@' id.realm k)

parts_of_valid :
    (id : UserId)
    → validate id ≡ none
    → (text_eqb id.name [] ≡ false) × (text_eqb id.realm [] ≡ false)
unfolding validate
parts_of_valid id valid = (ground arith, ground arith)

-- A name that is accepted, without an `@` in its parts, is printed, and read back as itself.
pub parse-print :
    (id : UserId)
    → validate id ≡ none
    → Lacks b'@' id.name
    → Lacks b'@' id.realm
    → parse (print id) ≡ (id, none)
unfolding validate parse print
parse-print id valid h k =
    let (name, realm) = parts_of_valid id valid in
    rw (name, realm, split_on-print id h k, name, realm) refl
