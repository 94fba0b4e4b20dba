-- ===== src/Disk/Names.antt =====
-- The names of disks in the paths of volumes, and their parts.
use proxmox_api_go.Base.{
  ℕ, ◌<◌, ◌^◌, false, arith, some, ◌≡◌, refl, ap, ◌∙◌, ◌≢◌, [], ◌∷◌, ◌++◌, Text, codes, text_eq,
  split_on, split_on-append, split_on_of_Lacks, Lacks, Lacks-of_contains_byte, contains_byte,
  All-append, itoa, itoa_int, itoa_int_of_fits, itoa-IsDigits, IsDigits-Lacks_other, is_digit,
  parse_int-itoa,
}
use proxmox_api_go.Disk.Answer.{uint_of_text, dashes, number_behind, head_or}

abbrev pub Fits : ℕ → Type 0
Fits n = n < 2 ^ 63

pub uint_of_text-itoa_int : (n : ℕ) → Fits n → uint_of_text (itoa_int n) ≡ some n
uint_of_text-itoa_int n h = rw (itoa_int_of_fits n h, uint_of_text, parse_int-itoa n) (ground arith)

pub itoa_int-Lacks : (b n : ℕ) → is_digit b ≡ false → Fits n → Lacks b (itoa_int n)
itoa_int-Lacks b n other h =
    rw (itoa_int_of_fits n h) (IsDigits-Lacks_other b (itoa n) other (itoa-IsDigits n))

-- `vm-100-disk-0` and `base-100-disk-0`
abbrev pub name_of : Text → ℕ → ℕ → Text
name_of prefix vm_id id =
    prefix ++ b'-' ∷ (itoa_int vm_id ++ b'-' ∷ (codes "disk" ++ b'-' ∷ itoa_int id))

pub name_of-Lacks :
    (b : ℕ) (prefix : Text) (vm_id id : ℕ)
    → is_digit b ≡ false
    → contains_byte b (b'-' ∷ prefix) ≡ false
    → contains_byte b (codes "disk") ≡ false
    → Fits vm_id
    → Fits id
    → Lacks b (name_of prefix vm_id id)
name_of-Lacks b prefix vm_id id other p d v i =
    let (dash, first) = Lacks-of_contains_byte b (b'-' ∷ prefix) p in
    let last : Lacks b (codes "disk" ++ b'-' ∷ itoa_int id) =
      All-append (λ c. c ≢ b) (codes "disk") (b'-' ∷ itoa_int id)
        (Lacks-of_contains_byte b (codes "disk") d) (dash, itoa_int-Lacks b id other i) in
    let middle : Lacks b (itoa_int vm_id ++ b'-' ∷ (codes "disk" ++ b'-' ∷ itoa_int id)) =
      All-append (λ c. c ≢ b) (itoa_int vm_id) (b'-' ∷ (codes "disk" ++ b'-' ∷ itoa_int id))
        (itoa_int-Lacks b vm_id other v) (dash, last) in
    All-append (λ c. c ≢ b) prefix
      (b'-' ∷ (itoa_int vm_id ++ b'-' ∷ (codes "disk" ++ b'-' ∷ itoa_int id))) first (dash, middle)

split_name :
    (prefix : Text) (vm_id id : ℕ)
    → contains_byte b'-' prefix ≡ false
    → Fits vm_id
    → Fits id
    → split_on b'-' (name_of prefix vm_id id)
      ≡ prefix ∷ itoa_int vm_id ∷ codes "disk" ∷ itoa_int id ∷ []
split_name prefix vm_id id p v i =
    split_on-append b'-' prefix (itoa_int vm_id ++ b'-' ∷ (codes "disk" ++ b'-' ∷ itoa_int id))
      (Lacks-of_contains_byte b'-' prefix p)
    ∙ ap (λ t. prefix ∷ t)
        (split_on-append b'-' (itoa_int vm_id) (codes "disk" ++ b'-' ∷ itoa_int id)
            (itoa_int-Lacks b'-' vm_id refl v)
          ∙ ap (λ t. itoa_int vm_id ∷ t)
              (split_on-append b'-' (codes "disk") (itoa_int id)
                  (Lacks-of_contains_byte b'-' (codes "disk") refl)
                ∙ ap (λ t. codes "disk" ∷ t)
                    (split_on_of_Lacks b'-' (itoa_int id) (itoa_int-Lacks b'-' id refl i))))

-- The parts of a name, with a format behind it or without.
pub dashes_of_file :
    (prefix : Text) (vm_id id : ℕ) (format : Text)
    → contains_byte b'-' prefix ≡ false
    → contains_byte b'.' prefix ≡ false
    → Fits vm_id
    → Fits id
    → dashes (name_of prefix vm_id id ++ b'.' ∷ format)
      ≡ prefix ∷ itoa_int vm_id ∷ codes "disk" ∷ itoa_int id ∷ []
dashes_of_file prefix vm_id id format p q v i =
    ap (λ t. split_on b'-' (head_or [] t))
      (split_on-append b'.' (name_of prefix vm_id id) format
        (name_of-Lacks b'.' prefix vm_id id refl q refl v i))
    ∙ split_name prefix vm_id id p v i

pub dashes_of_name :
    (prefix : Text) (vm_id id : ℕ)
    → contains_byte b'-' prefix ≡ false
    → contains_byte b'.' prefix ≡ false
    → Fits vm_id
    → Fits id
    → dashes (name_of prefix vm_id id) ≡ prefix ∷ itoa_int vm_id ∷ codes "disk" ∷ itoa_int id ∷ []
dashes_of_name prefix vm_id id p q v i =
    ap (λ t. split_on b'-' (head_or [] t))
      (split_on_of_Lacks b'.' (name_of prefix vm_id id)
        (name_of-Lacks b'.' prefix vm_id id refl q refl v i))
    ∙ split_name prefix vm_id id p v i

pub number_of_parts :
    (a b c : Text) (id : ℕ) → Fits id → number_behind (a ∷ b ∷ c ∷ itoa_int id ∷ []) ≡ some id
number_of_parts a b c id i = uint_of_text-itoa_int id i
