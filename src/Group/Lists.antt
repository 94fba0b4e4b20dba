-- ===== src/Group/Lists.antt =====
-- The lists of groups as texts: writing and reading them, and membership.
use mathlib.Core.List.{append_assoc, append-nil}
use proxmox_api_go.Base.{
  ℕ, ◌≡◌, ◌≢◌, ◌∙◌, refl, sym, ap, arith, ◌&&◌, ◌||◌, not, Option, none, some, List, [], ◌∷◌, ◌++◌,
  Text, text_eqb, text_eqb_iff, text_eq, contains-filter, contains-append, Bool-cases, inl, inr,
  All, All-append, more, split_on-more, Lacks, split_on, cons_head, split_on_of_Lacks, nat_eqb,
  nat_eqb_iff,
}
use proxmox_api_go.Group.{
  join_more, array_to_csv, csv_to_array, in_array, remove_from_array, groups_of,
}

join_more_lem : (out : Text) (es : List Text) → join_more out es ≡ out ++ more b',' es
unfolding join_more more
join_more_lem out [] = sym (append-nil out)
join_more_lem out (d ∷ es) =
    join_more_lem (out ++ b',' ∷ d) es ∙ append_assoc out (b',' ∷ d) (more b',' es)

csv_to_array_cons : (c : ℕ) (s : Text) → csv_to_array (c ∷ s) ≡ split_on b',' (c ∷ s)
unfolding csv_to_array
csv_to_array_cons c s = refl

csv_to_array-more :
    (e d : Text) (es : List Text)
    → All (Lacks b',') (e ∷ d ∷ es)
    → csv_to_array (join_more e (d ∷ es)) ≡ e ∷ d ∷ es
unfolding more
csv_to_array-more [] d es h =
    rw (join_more_lem [] (d ∷ es), csv_to_array_cons) (split_on-more b',' [] (d ∷ es) h)
csv_to_array-more (c ∷ e) d es h =
    rw (join_more_lem (c ∷ e) (d ∷ es), csv_to_array_cons) (split_on-more b',' (c ∷ e) (d ∷ es) h)

-- Writing a list of groups and reading it back keeps who is in it; only a list of one empty name is
-- read back as the empty list.
pub in_array-csv :
    (group : Text) (es : List Text)
    → All (Lacks b',') es
    → in_array group (csv_to_array (array_to_csv (some es))) ≡ in_array group es
unfolding array_to_csv csv_to_array in_array
in_array-csv group [] h = refl
in_array-csv [] ([] ∷ []) h = refl
in_array-csv (c ∷ group) ([] ∷ []) h = refl
in_array-csv group ((c ∷ e) ∷ []) (h, _) = ap (in_array group) (split_on_of_Lacks b',' (c ∷ e) h)
in_array-csv group (e ∷ d ∷ es) h = ap (in_array group) (csv_to_array-more e d es h)

split_on-Lacks : (sep : ℕ) (s : Text) → All (Lacks sep) (split_on sep s)
unfolding split_on
split_on-Lacks sep [] = (tt, tt)
split_on-Lacks sep (c ∷ s) = elim (Bool-cases (nat_eqb c sep)) [
  | inl e ↦ rw e (tt, split_on-Lacks sep s)
  | inr e ↦ rw e (
      cons_head-Lacks (split_on sep s) (λ same. cc ((nat_eqb_iff c sep).1 same))
        (split_on-Lacks sep s))
]
  where
    cons_head-Lacks :
        (words : List Text) → c ≢ sep → All (Lacks sep) words → All (Lacks sep) (cons_head c words)
    cons_head-Lacks [] ne h = ((ne, tt), tt)
    cons_head-Lacks (w ∷ words) ne (h, hs) = ((ne, h), hs)

pub groups_of-Lacks : (groups : Option Text) → All (Lacks b',') (groups_of groups)
unfolding csv_to_array
groups_of-Lacks none = tt
groups_of-Lacks (some []) = tt
groups_of-Lacks (some (c ∷ s)) = split_on-Lacks b',' (c ∷ s)

remove_from_array-Lacks :
    (group : Text) (es : List Text)
    → All (Lacks b',') es
    → All (Lacks b',') (remove_from_array group es)
unfolding remove_from_array
remove_from_array-Lacks group [] h = tt
remove_from_array-Lacks group (e ∷ es) (h, hs) = elim (Bool-cases (text_eqb e group)) [
  | inl same ↦ rw same (remove_from_array-Lacks group es hs)
  | inr other ↦ rw other (h, remove_from_array-Lacks group es hs)
]

in_array-remove_from_array :
    (other group : Text) (es : List Text)
    → in_array other (remove_from_array group es)
      ≡ (in_array other es && not (text_eqb other group))
unfolding in_array remove_from_array
in_array-remove_from_array other group es =
    ground (arith, contains-filter (λ e. not (text_eqb e group)) es other)

in_array-append :
    (other group : Text) (es : List Text)
    → group ≢ []
    → in_array other (es ++ group ∷ []) ≡ (in_array other es || text_eqb other group)
unfolding in_array
in_array-append other group es given = ground (
  arith,
  contains-append es (group ∷ []) other,
  text_eqb_iff other [],
  text_eqb_iff other group,
  text_eqb_iff group other,
)

-- After a removal, a user is in the same groups but for the one.
pub in_array-remove :
    (other group : Text) (groups : Option Text)
    → in_array other
        (csv_to_array (array_to_csv (some (remove_from_array group (groups_of groups)))))
      ≡ (in_array other (groups_of groups) && not (text_eqb other group))
in_array-remove other group groups =
    in_array-csv other _ (remove_from_array-Lacks group _ (groups_of-Lacks groups))
    ∙ in_array-remove_from_array other group (groups_of groups)

-- After an addition, a user is in the same groups and in the one.
pub in_array-add :
    (other group : Text) (groups : Option Text)
    → group ≢ []
    → Lacks b',' group
    → in_array other (csv_to_array (array_to_csv (some (groups_of groups ++ group ∷ []))))
      ≡ (in_array other (groups_of groups) || text_eqb other group)
in_array-add other group groups given clean =
    in_array-csv other _ (All-append _ _ (group ∷ []) (groups_of-Lacks groups) (clean, tt))
    ∙ in_array-append other group (groups_of groups) given
