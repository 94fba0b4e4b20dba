-- ===== src/Disk/Counts.antt =====
-- How the checks of the drives add the cloud-init drives up.
use proxmox_api_go.Base.{
  ℕ, suc, ◌+◌, ◌≤◌, Bool, true, false, arith, nat_eq, if◌then◌else◌, Option, none, some, ◌≡◌, refl,
  ap, ◌⊎◌, inl, inr, ◌↔◌, List, [], ◌∷◌, All, Option-cases,
}
use proxmox_api_go.Disk.Validation.{DiskError, first_error}
use proxmox_api_go.Disk.CdRom.{check_duplicates}
use proxmox_api_go.Disk.Drives.{and_given, and_count, result, exclusive}

abbrev pub count : List Bool → ℕ
count [] = 0
count (b ∷ bs) = if b then suc (count bs) else count bs

pub exclusive-true_iff : (kinds : List Bool) → (exclusive true kinds ≡ none) ↔ (count kinds ≡ 0)
exclusive-true_iff [] = ground arith
exclusive-true_iff (true ∷ kinds) = ground arith
exclusive-true_iff (false ∷ kinds) = exclusive-true_iff kinds

pub exclusive-false_iff : (kinds : List Bool) → (exclusive false kinds ≡ none) ↔ (count kinds ≤ 1)
exclusive-false_iff [] = ground arith
exclusive-false_iff (true ∷ kinds) = ground (arith, exclusive-true_iff kinds)
exclusive-false_iff (false ∷ kinds) = exclusive-false_iff kinds

pub first_error_iff :
    (checks : List (Option DiskError)) → (first_error checks ≡ none) ↔ All (λ c. c ≡ none) checks
first_error_iff [] = (λ h. tt, λ h. refl)
first_error_iff (none ∷ checks) =
    (λ h. (refl, (first_error_iff checks).0 h), λ h. (first_error_iff checks).1 h.1)
first_error_iff (some e ∷ checks) = (λ h. absurd cc, λ h. h.0)

pub duplicates_iff : (n : ℕ) → (check_duplicates n ≡ none) ↔ (n ≤ 1)
unfolding check_duplicates
duplicates_iff n = ground arith

pub result_iff : (o : Option DiskError) (m n : ℕ) → (result o m ≡ inr n) ↔ ((o ≡ none) × (m ≡ n))
result_iff none m n = (λ e. (refl, cc), λ h. ap inr h.1)
result_iff (some e) m n = (λ h. absurd cc, λ h. absurd cc)

-- If a part is valid exactly with `k` drives, and the rest with `t`, both are with the sum of them.
pub and_count_iff :
    {V Q : Type 0} (r : DiskError ⊎ ℕ) (k t c n : ℕ) (rest : ℕ → DiskError ⊎ ℕ)
    → ((m : ℕ) → (r ≡ inr m) ↔ (V × (k ≡ m)))
    → ((m : ℕ) → m ≤ 1 → (rest m ≡ inr n) ↔ (Q × (m + t ≡ n) × (n ≤ 1)))
    → (and_count r c rest ≡ inr n) ↔ ((V × Q) × (c + (k + t) ≡ n) × (n ≤ 1))
and_count_iff (inl e) k t c n rest part others = (
  λ h. absurd cc,
  λ h.
      let refused : ◌≡◌ {A = DiskError ⊎ ℕ} (inl e) (inr k) = (part k).1 (h.0.0, refl) in absurd cc,
)
and_count_iff (inr m) k t c n rest part others =
    let (v, same) = (part m).0 refl in
    elim (Option-cases (check_duplicates (c + m))) [
      | inl fits ↦
          rw (and_count, fits)
            (let few : c + m ≤ 1 = (duplicates_iff (c + m)).0 fits in
              let (there, back) = others (c + m) few in
              (
                λ h. let (q, total, most) = there h in ((v, q), omega (arith, same, total), most),
                λ h. back (h.0.1, omega (arith, same, h.1), h.2),
              ))
      | inr (e, many) ↦
          rw (and_count, many)
            ((
              λ h. absurd cc,
              λ h.
                  let few : check_duplicates (c + m) ≡ none =
                    (duplicates_iff (c + m)).1 (omega (arith, same, h.1, h.2)) in
                  absurd cc,
            ))
    ]

-- What holds of a part that is there, and the number of one.
abbrev pub IfGiven : {A : Type 0} → (A → Type 0) → Option A → Type 0
IfGiven IsValid none = Unit
IfGiven IsValid (some a) = IsValid a

abbrev pub number_of : {A : Type 0} → (A → ℕ) → Option A → ℕ
number_of number none = 0
number_of number (some a) = number a

pub and_given_iff :
    {A Q : Type 0} (o : Option A) (check : A → DiskError ⊎ ℕ) (IsValid : A → Type 0)
    (number : A → ℕ) (t c n : ℕ) (rest : ℕ → DiskError ⊎ ℕ)
    → ((a : A) (m : ℕ) → (check a ≡ inr m) ↔ (IsValid a × (number a ≡ m)))
    → ((m : ℕ) → m ≤ 1 → (rest m ≡ inr n) ↔ (Q × (m + t ≡ n) × (n ≤ 1)))
    → c ≤ 1
    → (and_given o check c rest ≡ inr n)
      ↔ ((IfGiven IsValid o × Q) × (c + (number_of number o + t) ≡ n) × (n ≤ 1))
and_given_iff none check IsValid number t c n rest part others few =
    let (there, back) = others c few in
    (
      λ e. let (q, total, most) = there e in ((tt, q), omega (arith, total), most),
      λ h. back (h.0.1, omega (arith, h.1), h.2),
    )
and_given_iff (some a) check IsValid number t c n rest part others few =
    and_count_iff (check a) (number a) t c n rest (part a) others
