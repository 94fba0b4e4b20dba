-- ===== src/Snapshot/Tree.antt =====
-- The tree of the snapshots: who is whose child.
use mathlib.Core.List.{append_assoc, append-nil}
use proxmox_api_go.Base.{
  ℕ, suc, ◌≡◌, ◌∙◌, refl, sym, ap, Bool, Bool-cases, true, false, inl, inr, if◌then◌else◌, List, [],
  ◌∷◌, ◌++◌, map, All, Text, text_eqb, text_eqb_iff,
}
use proxmox_api_go.Snapshot.{Snapshot, adopt, adopt_all, roots, without_parent, tree_of}

-- The positions, from `i` on, of the snapshots with a parent of that name, in their order.
abbrev pub children_of : ℕ → Text → List Snapshot → List ℕ
children_of i name [] = []
children_of i name (e ∷ es) =
    let rest = children_of (suc i) name es in if text_eqb e.parent name then i ∷ rest else rest

-- No name stands twice.
abbrev pub AreDistinct : List Snapshot → Type 0
AreDistinct [] = Unit
AreDistinct (s ∷ list) = All (λ t. text_eqb s.name t.name ≡ false) list × AreDistinct list

abbrev with_more : List ℕ → Snapshot → Snapshot
with_more more s = record s { children = s.children ++ more }

abbrev adopted : ℕ → Text → Snapshot → Snapshot
adopted i parent s = with_more (if text_eqb parent s.name then i ∷ [] else []) s

with_nothing : (s : Snapshot) → with_more [] s ≡ s
with_nothing s = ap (λ c. record s { children = c }) (append-nil s.children)

adopted_by_none :
    (i : ℕ) (parent : Text) (list : List Snapshot)
    → All (λ t. text_eqb parent t.name ≡ false) list
    → map (adopted i parent) list ≡ list
adopted_by_none i parent [] _ = refl
adopted_by_none i parent (s ∷ list) (h, hs) =
    ap (λ t. t ∷ map (adopted i parent) list) (rw h (with_nothing s))
    ∙ ap (λ l. s ∷ l) (adopted_by_none i parent list hs)

-- The same parent as `s` is no one else's.
All-same :
    (parent name : Text) (list : List Snapshot)
    → parent ≡ name
    → All (λ t. text_eqb name t.name ≡ false) list
    → All (λ t. text_eqb parent t.name ≡ false) list
All-same parent name list e h = rw e h

-- With distinct names the loop stops at no loss.
adopt_lem :
    (i : ℕ) (parent : Text) (list : List Snapshot)
    → AreDistinct list
    → adopt i parent list ≡ map (adopted i parent) list
unfolding adopt
adopt_lem i parent [] _ = refl
adopt_lem i parent (s ∷ list) (h, hs) = elim (Bool-cases (text_eqb parent s.name)) [
  | inl same ↦ rw same (
      ap (λ l. with_more (i ∷ []) s ∷ l)
        (sym (
          adopted_by_none i parent list
            (All-same parent s.name list ((text_eqb_iff parent s.name).0 same) h))))
  | inr other ↦ rw other (
      ap (λ t. t ∷ adopt i parent list) (sym (with_nothing s))
      ∙ ap (λ l. with_more [] s ∷ l) (adopt_lem i parent list hs))
]

abbrev tree_at : ℕ → List Snapshot → Snapshot → Snapshot
tree_at i es s = with_more (children_of i s.name es) s

All-map :
    (name : Text) (f : Snapshot → List ℕ) (list : List Snapshot)
    → All (λ t. text_eqb name t.name ≡ false) list
    → All (λ t. text_eqb name t.name ≡ false) (map (λ s. with_more (f s) s) list)
All-map name f [] _ = tt
All-map name f (s ∷ list) (h, hs) = (h, All-map name f list hs)

distinct-map :
    (f : Snapshot → List ℕ) (list : List Snapshot)
    → AreDistinct list
    → AreDistinct (map (λ s. with_more (f s) s) list)
distinct-map f [] _ = tt
distinct-map f (s ∷ list) (h, hs) = (All-map s.name f list h, distinct-map f list hs)

appended :
    (b : Bool) (i : ℕ) (s : Snapshot) (more : List ℕ)
    → with_more more (with_more (if b then i ∷ [] else []) s)
      ≡ with_more (if b then i ∷ more else more) s
appended true i s more = ap (λ c. record s { children = c }) (append_assoc s.children (i ∷ []) more)
appended false i s more = ap (λ c. record s { children = c }) (append_assoc s.children [] more)

after_one :
    (i : ℕ) (e : Snapshot) (es list : List Snapshot)
    → map (tree_at (suc i) es) (map (adopted i e.parent) list) ≡ map (tree_at i (e ∷ es)) list
after_one i e es [] = refl
after_one i e es (s ∷ list) =
    ap (λ t. t ∷ map (tree_at (suc i) es) (map (adopted i e.parent) list))
      (appended (text_eqb e.parent s.name) i s (children_of (suc i) s.name es))
    ∙ ap (λ l. tree_at i (e ∷ es) s ∷ l) (after_one i e es list)

nothing_more : (i : ℕ) (list : List Snapshot) → map (tree_at i []) list ≡ list
nothing_more i [] = refl
nothing_more i (s ∷ list) =
    ap (λ t. t ∷ map (tree_at i []) list) (with_nothing s) ∙ ap (λ l. s ∷ l) (nothing_more i list)

adopt_all_lem :
    (i : ℕ) (es list : List Snapshot)
    → AreDistinct list
    → adopt_all i es list ≡ map (tree_at i es) list
unfolding adopt_all
adopt_all_lem i [] list distinct = sym (nothing_more i list)
adopt_all_lem i (e ∷ es) list distinct = rw (adopt_lem i e.parent list distinct) (
    adopt_all_lem (suc i) es (map (adopted i e.parent) list)
      (distinct-map (λ s. if text_eqb e.parent s.name then i ∷ [] else []) list distinct)
    ∙ after_one i e es list)

roots_lem :
    (i : ℕ) (f : Snapshot → List ℕ) (list : List Snapshot)
    → roots i (map (λ s. with_more (f s) s) list) ≡ children_of i [] list
unfolding roots
roots_lem i f [] = refl
roots_lem i f (s ∷ list) =
    ap (λ r. if text_eqb s.parent [] then i ∷ r else r) (roots_lem (suc i) f list)

-- What a snapshot becomes in the tree of a list.
abbrev pub in_tree : List Snapshot → Snapshot → Snapshot
in_tree list s = record s { children = s.children ++ children_of 0 s.name list; parent = [] }

without_parents :
    (list es : List Snapshot) → map without_parent (map (tree_at 0 list) es) ≡ map (in_tree list) es
without_parents list [] = refl
without_parents list (s ∷ es) = ap (λ l. in_tree list s ∷ l) (without_parents list es)

-- If no name stands twice, each snapshot gets, in their order, all snapshots whose parent has its name,
-- and loses its own parent; the tree consists of the snapshots without a parent.
pub tree_of_lem :
    (list : List Snapshot)
    → AreDistinct list
    → tree_of list ≡ (map (in_tree list) list, children_of 0 [] list)
unfolding tree_of
tree_of_lem list distinct =
    rw
      (
        adopt_all_lem 0 list list distinct,
        without_parents list list,
        roots_lem 0 (λ s. children_of 0 s.name list) list,
      )
      refl
