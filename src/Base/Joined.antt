-- ===== src/Base/Joined.antt =====
-- `strings.Split` of two texts that are joined by a separator.
use Prim.Native.Nat.{ℕ}
use mathlib.Core.Path.{◌≡◌, refl}
use mathlib.Core.Logic.{inl, inr}
use mathlib.Core.List.{List, [], ◌∷◌, ◌++◌}
use native.Mathlib.Omega.{arith}
use proxmox_api_go.Base.Tests.{nat_eqb, nat_eqb_iff, Bool-cases}
use proxmox_api_go.Base.Texts.{Text}
use proxmox_api_go.Base.Split.{split_on, cons_head}

split_on_cons :
    (sep : ℕ) (s : Text) → (word : Text) × (words : List Text) × (split_on sep s ≡ word ∷ words)
unfolding split_on cons_head
split_on_cons sep [] = ([], [], refl)
split_on_cons sep (c ∷ s) =
    let (word, words, e) = split_on_cons sep s in
    elim (Bool-cases (nat_eqb c sep)) [
      | inl same ↦ ([], split_on sep s, rw same refl)
      | inr other ↦ (c ∷ word, words, rw (other, e) refl)
    ]

cons_head-append :
    (c : ℕ) (word : Text) (words rest : List Text)
    → cons_head c ((word ∷ words) ++ rest) ≡ cons_head c (word ∷ words) ++ rest
unfolding cons_head
cons_head-append c word words rest = refl

pub split_on-join :
    (sep : ℕ) (s t : Text) → split_on sep (s ++ sep ∷ t) ≡ split_on sep s ++ split_on sep t
unfolding split_on
split_on-join sep [] t = ground (arith, nat_eqb_iff sep sep)
split_on-join sep (c ∷ s) t =
    let (word, words, e) = split_on_cons sep s in
    elim (Bool-cases (nat_eqb c sep)) [
      | inl same ↦ rw (split_on-join sep s t, same) refl
      | inr other ↦
          rw (split_on-join sep s t, other, e) (cons_head-append c word words (split_on sep t))
    ]
