-- ===== src/Indexing/Grouped.antt =====
-- What `group` of indexing/semantic.py keeps: every input is in the group of its hash.
use andnp_searchkernel.Prelude.{
  ◌≡◌, ◌≢◌, refl, sym, ap, ◌∙◌, Bool, Bool-cases, inl, inr, subst, String, List, [], ◌∷◌, ◌++◌, map,
  All,
}
use andnp_searchkernel.Dict.{find, string_discrete, find-assign, find-cons_self, find-cons_ne}
use andnp_searchkernel.Dict.Keys.{find-assign_ne}
use andnp_searchkernel.Indexing.Semantic.{
  SemanticInput, insert_sorted, sorted, by_source_id, items_of, add_item, group_from, sort_groups,
  group, or_empty,
}

module _ {A : Type 0} (before : A → A → Bool) (P : A → Type 0) where
  All-insert_sorted : (x : A) (xs : List A) → All P (insert_sorted before x xs) → P x × All P xs
  unfolding insert_sorted
  All-insert_sorted x [] h = h
  All-insert_sorted x (y ∷ ys) h = elim (Bool-cases (before y x)) [
    | inl e ↦
        let h' : P y × All P (insert_sorted before x ys) = rw e at h in
        let rest = All-insert_sorted x ys h'.1 in (rest.0, (h'.0, rest.1))
    | inr e ↦ rw e at h
  ]

  pub All-sorted : (xs : List A) → All P (sorted before xs) → All P xs
  unfolding sorted
  All-sorted [] h = tt
  All-sorted (x ∷ xs) h =
      let r = All-insert_sorted x (sorted before xs) h in (r.0, All-sorted xs r.1)

pub All-append_left :
    {A : Type 0} (P : A → Type 0) (xs ys : List A) → All P (xs ++ ys) → All P xs × All P ys
All-append_left P [] ys h = (tt, h)
All-append_left P (x ∷ xs) ys h = let r = All-append_left P xs ys h.1 in ((h.0, r.0), r.1)

items_of-add_item :
    (item : SemanticInput) (groups : List (String × List SemanticInput))
    → items_of item.content_hash (add_item item groups)
      ≡ items_of item.content_hash groups ++ item ∷ []
unfolding add_item
items_of-add_item item groups = ap or_empty (
    find-assign string_discrete item.content_hash (items_of item.content_hash groups ++ item ∷ [])
      groups)

items_of-add_item_ne :
    (item : SemanticInput) (key : String) (groups : List (String × List SemanticInput))
    → item.content_hash ≢ key
    → items_of key (add_item item groups) ≡ items_of key groups
unfolding add_item
items_of-add_item_ne item key groups n =
    ap or_empty (find-assign_ne string_discrete key item.content_hash _ groups n)

pub items_of-cons_self :
    (key : String) (items : List SemanticInput) (groups : List (String × List SemanticInput))
    → items_of key ((key, items) ∷ groups) ≡ items
items_of-cons_self key items groups = ap or_empty (find-cons_self string_discrete key items groups)

pub items_of-cons_ne :
    (key j : String) (items : List SemanticInput) (groups : List (String × List SemanticInput))
    → j ≢ key
    → items_of key ((j, items) ∷ groups) ≡ items_of key groups
items_of-cons_ne key j items groups n =
    ap or_empty (find-cons_ne string_discrete key j items groups n)

items_of-sort_groups :
    (key : String) (groups : List (String × List SemanticInput))
    → items_of key (sort_groups groups) ≡ sorted by_source_id (items_of key groups)
unfolding find sorted
items_of-sort_groups key [] = refl
items_of-sort_groups key ((j, items) ∷ groups) = elim (string_discrete j key) [
  | yes p ↦ rw p (
      items_of-cons_self key (sorted by_source_id items) (sort_groups groups)
      ∙ sym (ap (sorted by_source_id) (items_of-cons_self key items groups)))
  | no p ↦
      items_of-cons_ne key j (sorted by_source_id items) (sort_groups groups) p
      ∙ items_of-sort_groups key groups
      ∙ sym (ap (sorted by_source_id) (items_of-cons_ne key j items groups p))
]

module _ (P : SemanticInput → Type 0) where
  -- Every item of every group has `P`.
  abbrev Everywhere : List (String × List SemanticInput) → Type 0
  Everywhere groups = (key : String) → All P (items_of key groups)

  add_item-Everywhere :
      (item : SemanticInput) (groups : List (String × List SemanticInput))
      → Everywhere (add_item item groups)
      → P item × Everywhere groups
  add_item-Everywhere item groups h =
      let both =
        All-append_left P (items_of item.content_hash groups) (item ∷ [])
          (subst (All P) (items_of-add_item item groups) (h item.content_hash)) in
      (
        both.1.0,
        λ key. elim (string_discrete item.content_hash key) [
          | yes p ↦ subst (λ k. All P (items_of k groups)) p both.0
          | no p ↦ subst (All P) (items_of-add_item_ne item key groups p) (h key)
        ],
      )

  group_from-Everywhere :
      (inputs : List SemanticInput) (groups : List (String × List SemanticInput))
      → Everywhere (group_from inputs groups)
      → All P inputs × Everywhere groups
  unfolding group_from
  group_from-Everywhere [] groups h = (tt, h)
  group_from-Everywhere (item ∷ inputs) groups h =
      let rest = group_from-Everywhere inputs (add_item item groups) h in
      let first = add_item-Everywhere item groups rest.1 in ((first.0, rest.0), first.1)

  sort_groups-Everywhere :
      (groups : List (String × List SemanticInput))
      → Everywhere (sort_groups groups)
      → Everywhere groups
  sort_groups-Everywhere groups h key =
      All-sorted by_source_id P (items_of key groups)
        (subst (All P) (items_of-sort_groups key groups) (h key))

module _ (P : SemanticInput → Type 0) where
  -- At a key of the dictionary `Q` says it; at another there is no item.
  at_key :
      (Q : String → Type 0) (groups : List (String × List SemanticInput)) (key : String)
      → All Q (map (λ g. g.0) groups)
      → (Q key → All P (items_of key groups))
      → All P (items_of key groups)
  unfolding find
  at_key Q [] key h k = tt
  at_key Q ((j, items) ∷ groups) key h k = elim (string_discrete j key) [
    | yes p ↦ k (subst Q p h.0)
    | no p ↦
        subst (All P) (sym (items_of-cons_ne key j items groups p)) (
          at_key Q groups key h.1
            (λ q. subst (All P) (items_of-cons_ne key j items groups p) (k q)))
  ]

  -- If every item in the group of every key of the groups has `P`, every input has it.
  pub All-group :
      (inputs : List SemanticInput)
      → All (λ key. All P (items_of key (group inputs))) (map (λ g. g.0) (group inputs))
      → All P inputs
  unfolding group
  All-group inputs h =
      (group_from-Everywhere P inputs [] (
        sort_groups-Everywhere P (group_from inputs [])
          (λ key. at_key _ (sort_groups (group_from inputs [])) key h (λ q. q)))).0
