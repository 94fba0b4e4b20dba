-- ===== src/Base/Maps.antt =====
-- Go maps as association lists. A write replaces the entry of its key.
use mathlib.Core.Path.{◌≡◌, refl}
use mathlib.Core.Bool.{Bool, true}
use mathlib.Core.Option.{Option, none, some}
use mathlib.Core.List.{List, [], ◌∷◌}
use native.Mathlib.Omega.{arith}
use proxmox_api_go.Base.Tests.{Eq, ◌==◌, if◌then◌else◌}
use proxmox_api_go.Base.Lists.{all}

abbrev pub Dict {ℓ κ} : Type ℓ → Type κ → Type (ℓ ⊔ κ)
Dict K V = List (K × V)

module _ {ℓ κ} {K : Type ℓ} {V : Type κ} ⦃e : Eq K⦄ where
  unfoldable pub lookup : K → Dict K V → Option V
  lookup key [] = none
  lookup key ((other, value) ∷ dict) = if other == key then some value else lookup key dict

  -- A write at the place of the key, or else at the end.
  unfoldable pub insert : K → V → Dict K V → Dict K V
  insert key value ((other, old) ∷ dict) =
      if other == key then (key, value) ∷ dict else (other, old) ∷ insert key value dict
  insert key value [] = (key, value) ∷ []

  pub lookup-insert :
      (written read : K) (value : V) (dict : Dict K V)
      → lookup read (insert written value dict)
        ≡ (if written == read then some value else lookup read dict)
  unfolding lookup insert
  lookup-insert written read value ((other, old) ∷ dict) = ground (
    arith,
    e.same_iff other written,
    e.same_iff other read,
    e.same_iff written read,
    lookup-insert written read value dict,
  )
  lookup-insert written read value [] = refl

  -- What holds of every entry holds of the one that is found.
  pub lookup-of_all :
      (p : K → V → Bool) (m : Dict K V) (k : K) (v : V)
      → all (λ b. p b.0 b.1) m ≡ true
      → lookup k m ≡ some v
      → p k v ≡ true
  unfolding lookup
  lookup-of_all p [] k v h found = cc
  lookup-of_all p ((j, w) ∷ m) k v h found = ground (arith, e.same_iff j k, lookup-of_all p m k v)
