-- ===== src/Base/Split.antt =====
-- `strings.Split`, `strings.SplitN` and `strings.Contains` at a separator of one byte.
use Prim.Native.Nat.{ℕ}
use mathlib.Core.Path.{◌≡◌, refl, sym, ap, ◌∙◌}
use mathlib.Core.Logic.{◌≢◌}
use mathlib.Core.Bool.{Bool, false, true}
use mathlib.Core.Option.{Option, none, some}
use mathlib.Core.List.{List, [], ◌∷◌, ◌++◌, append-nil, append_assoc}
use native.Mathlib.Omega.{arith}
use proxmox_api_go.Base.Tests.{nat_eqb, nat_eqb_iff, if◌then◌else◌}
use proxmox_api_go.Base.Lists.{All, any}
use proxmox_api_go.Base.Texts.{Text}

abbrev pub Lacks : ℕ → Text → Type 0
Lacks b = All (λ c. c ≢ b)

abbrev pub contains_byte : ℕ → Text → Bool
contains_byte b = any (λ c. nat_eqb c b)

unfoldable pub cons_head : ℕ → List Text → List Text
cons_head c [] = (c ∷ []) ∷ []
cons_head c (word ∷ words) = (c ∷ word) ∷ words

unfoldable pub split_on : ℕ → Text → List Text
unfolding cons_head
split_on sep [] = [] ∷ []
split_on sep (c ∷ s) =
    let rest = split_on sep s in if nat_eqb c sep then [] ∷ rest else cons_head c rest

-- `strings.SplitN(s, sep, 2)`: the text before the first separator, and the one behind it if there
-- is a separator.
unfoldable pub split_first : ℕ → Text → Text × Option Text
split_first sep [] = ([], none)
split_first sep (c ∷ s) =
    let (word, rest) = split_first sep s in if nat_eqb c sep then ([], some s) else (c ∷ word, rest)

pub split_on-append :
    (sep : ℕ) (word s : Text)
    → Lacks sep word
    → split_on sep (word ++ sep ∷ s) ≡ word ∷ split_on sep s
unfolding split_on
split_on-append sep [] s _ = ground (arith, nat_eqb_iff sep sep)
split_on-append sep (c ∷ word) s (h, hs) =
    ground (arith, nat_eqb_iff c sep, split_on-append sep word s hs)

pub split_on_of_Lacks : (sep : ℕ) (word : Text) → Lacks sep word → split_on sep word ≡ word ∷ []
unfolding split_on
split_on_of_Lacks sep [] _ = refl
split_on_of_Lacks sep (c ∷ word) (h, hs) =
    ground (arith, nat_eqb_iff c sep, split_on_of_Lacks sep word hs)

-- The words, each behind a separator.
unfoldable pub more : ℕ → List Text → Text
more sep [] = []
more sep (d ∷ es) = sep ∷ (d ++ more sep es)

pub split_on-more :
    (sep : ℕ) (e : Text) (es : List Text)
    → All (Lacks sep) (e ∷ es)
    → split_on sep (e ++ more sep es) ≡ e ∷ es
unfolding more
split_on-more sep e [] (h, _) = rw (append-nil e) (split_on_of_Lacks sep e h)
split_on-more sep e (d ∷ es) (h, hs) =
    split_on-append sep e _ h ∙ ap (λ r. e ∷ r) (split_on-more sep d es hs)

pub more-append : (sep : ℕ) (xs ys : List Text) → more sep (xs ++ ys) ≡ more sep xs ++ more sep ys
unfolding more
more-append sep [] ys = refl
more-append sep (x ∷ xs) ys =
    ap (λ t. sep ∷ (x ++ t)) (more-append sep xs ys) ∙ ap (λ t. sep ∷ t) (sym (append_assoc x _ _))

pub split_on_tail :
    (sep : ℕ) (es : List Text) (rest : Text)
    → All (Lacks sep) es
    → more sep es ≡ sep ∷ rest
    → split_on sep rest ≡ es
unfolding more
split_on_tail sep [] rest h e = absurd (cc)
split_on_tail sep (d ∷ es) rest h e =
    let same : d ++ more sep es ≡ rest = cc in rw (← same) (split_on-more sep d es h)

pub split_first-append :
    (sep : ℕ) (word s : Text) → Lacks sep word → split_first sep (word ++ sep ∷ s) ≡ (word, some s)
unfolding split_first
split_first-append sep [] s _ = ground (arith, nat_eqb_iff sep sep)
split_first-append sep (c ∷ word) s (h, hs) =
    ground (arith, nat_eqb_iff c sep, split_first-append sep word s hs)

pub split_first_of_Lacks :
    (sep : ℕ) (word : Text) → Lacks sep word → split_first sep word ≡ (word, none)
unfolding split_first
split_first_of_Lacks sep [] _ = refl
split_first_of_Lacks sep (c ∷ word) (h, hs) =
    ground (arith, nat_eqb_iff c sep, split_first_of_Lacks sep word hs)

pub contains_byte_of_Lacks : (b : ℕ) (s : Text) → Lacks b s → contains_byte b s ≡ false
contains_byte_of_Lacks b [] _ = refl
contains_byte_of_Lacks b (c ∷ s) (h, hs) =
    ground (arith, nat_eqb_iff c b, contains_byte_of_Lacks b s hs)

pub contains_byte-append : (b : ℕ) (s t : Text) → contains_byte b (s ++ b ∷ t) ≡ true
contains_byte-append b [] t = ground (arith, nat_eqb_iff b b)
contains_byte-append b (c ∷ s) t = ground (arith, contains_byte-append b s t)

pub Lacks-of_contains_byte : (b : ℕ) (s : Text) → contains_byte b s ≡ false → Lacks b s
Lacks-of_contains_byte b [] h = tt
Lacks-of_contains_byte b (c ∷ s) h =
    let first : c ≢ b = ground (arith, nat_eqb_iff c b) in
    let others : contains_byte b s ≡ false = ground arith in
    (first, Lacks-of_contains_byte b s others)
