-- ===== src/Indexing/Groups.antt =====
-- The groups of indexing/semantic.py have items, and a sort keeps how many there are.
use andnp_searchkernel.Prelude.{
  ◌+◌, ◌<◌, ◌≡◌, ◌≢◌, refl, sym, ap, subst, Bool, Bool-cases, inl, inr, String, List, [], ◌∷◌, ◌++◌,
  map, length, length-append, All, arith,
}
use andnp_searchkernel.Dict.{string_discrete, Absent, Distinct}
use andnp_searchkernel.Dict.Keys.{assign-Distinct}
use andnp_searchkernel.Indexing.Semantic.{
  SemanticInput, insert_sorted, sorted, by_source_id, items_of, add_item, group_from, sort_groups,
  group,
}
use andnp_searchkernel.Indexing.Grouped.{items_of-cons_self, items_of-cons_ne}
use andnp_searchkernel.Indexing.Placement.{assign-values}

module _ {A : Type 0} (before : A → A → Bool) where
  length-insert_sorted : (x : A) (xs : List A) → length (insert_sorted before x xs) ≡ length xs + 1
  unfolding insert_sorted
  length-insert_sorted x [] = refl
  length-insert_sorted x (y ∷ ys) = ground (arith, length-insert_sorted x ys)

  pub length-sorted : (xs : List A) → length (sorted before xs) ≡ length xs
  unfolding sorted
  length-sorted [] = refl
  length-sorted (x ∷ xs) =
      let n = length-insert_sorted x (sorted before xs) in let m = length-sorted xs in omega arith

  insert_sorted-All :
      (P : A → Type 0) (x : A) (xs : List A) → P x → All P xs → All P (insert_sorted before x xs)
  unfolding insert_sorted
  insert_sorted-All P x [] p h = (p, tt)
  insert_sorted-All P x (y ∷ ys) p h = elim (Bool-cases (before y x)) [
    | inl e ↦ rw e (h.0, insert_sorted-All P x ys p h.1)
    | inr e ↦ rw e (p, h)
  ]

  pub sorted-All : (P : A → Type 0) (xs : List A) → All P xs → All P (sorted before xs)
  unfolding sorted
  sorted-All P [] h = tt
  sorted-All P (x ∷ xs) h = insert_sorted-All P x (sorted before xs) h.0 (sorted-All P xs h.1)

abbrev pub HasItems : List SemanticInput → Type 0
HasItems items = 0 < length items

abbrev AllHaveItems : List (String × List SemanticInput) → Type 0
AllHaveItems groups = All (λ g. HasItems g.1) groups

group_from-HasItems :
    (inputs : List SemanticInput) (groups : List (String × List SemanticInput))
    → AllHaveItems groups
    → AllHaveItems (group_from inputs groups)
unfolding group_from add_item
group_from-HasItems [] groups h = h
group_from-HasItems (item ∷ inputs) groups h =
    let items = items_of item.content_hash groups in
    let n = length-append items (item ∷ []) in
    group_from-HasItems inputs _
      (assign-values HasItems item.content_hash (items ++ item ∷ []) groups (omega arith) h)

sort_groups-HasItems :
    (groups : List (String × List SemanticInput))
    → AllHaveItems groups
    → AllHaveItems (sort_groups groups)
sort_groups-HasItems [] h = tt
sort_groups-HasItems ((key, items) ∷ groups) h =
    let n = length-sorted by_source_id items in
    let m : HasItems items = h.0 in (omega arith, sort_groups-HasItems groups h.1)

keys-cons :
    (j : String) (items : List SemanticInput) (groups : List (String × List SemanticInput))
    (keys : List String)
    → HasItems items
    → All (λ key. HasItems (items_of key groups)) keys
    → All (λ key. HasItems (items_of key ((j, items) ∷ groups))) keys
keys-cons j items groups [] n h = tt
keys-cons j items groups (key ∷ keys) n h = (
  elim (string_discrete j key) [
    | yes p ↦
        subst (λ k. HasItems (items_of k ((j, items) ∷ groups))) p
          (subst HasItems (sym (items_of-cons_self j items groups)) n)
    | no p ↦ subst HasItems (sym (items_of-cons_ne key j items groups p)) h.0
  ],
  keys-cons j items groups keys n h.1,
)

keys-HasItems :
    (groups : List (String × List SemanticInput))
    → AllHaveItems groups
    → All (λ key. HasItems (items_of key groups)) (map (λ g. g.0) groups)
keys-HasItems [] h = tt
keys-HasItems ((j, items) ∷ groups) h = (
  subst HasItems (sym (items_of-cons_self j items groups)) h.0,
  keys-cons j items groups (map (λ g. g.0) groups) h.0 (keys-HasItems groups h.1),
)

-- The group of every key that there is has an item.
pub group-HasItems :
    (inputs : List SemanticInput)
    → All (λ key. HasItems (items_of key (group inputs))) (map (λ g. g.0) (group inputs))
unfolding group
group-HasItems inputs =
    keys-HasItems (sort_groups (group_from inputs []))
      (sort_groups-HasItems (group_from inputs []) (group_from-HasItems inputs [] tt))

-- The strings are all different.
abbrev pub Different : List String → Type 0
Different [] = Unit
Different (k ∷ ks) = All (λ j. j ≢ k) ks × Different ks

insert_sorted-Different :
    (before : String → String → Bool) (k : String) (ks : List String)
    → All (λ j. j ≢ k) ks
    → Different ks
    → Different (insert_sorted before k ks)
unfolding insert_sorted
insert_sorted-Different before k [] a d = (tt, tt)
insert_sorted-Different before k (j ∷ ks) a d = elim (Bool-cases (before j k)) [
  | inl e ↦ rw e (
    insert_sorted-All before (λ i. i ≢ j) k ks (λ q. a.0 (sym q)) d.0,
    insert_sorted-Different before k ks a.1 d.1,
  )
  | inr e ↦ rw e (a, d)
]

pub sorted-Different :
    (before : String → String → Bool) (ks : List String)
    → Different ks
    → Different (sorted before ks)
unfolding sorted
sorted-Different before [] d = tt
sorted-Different before (k ∷ ks) d =
    insert_sorted-Different before k (sorted before ks) (sorted-All before (λ j. j ≢ k) ks d.0)
      (sorted-Different before ks d.1)

module _ {V : Type 0} where
  Absent-keys :
      (k : String) (d : List (String × V))
      → Absent string_discrete k d
      → All (λ j. j ≢ k) (map (λ g. g.0) d)
  Absent-keys k [] a = tt
  Absent-keys k ((j, v) ∷ d) a = (a.0, Absent-keys k d a.1)

  Different-keys :
      (d : List (String × V)) → Distinct string_discrete d → Different (map (λ g. g.0) d)
  Different-keys [] a = tt
  Different-keys ((j, v) ∷ d) a = (Absent-keys j d a.0, Different-keys d a.1)

group_from-Distinct :
    (inputs : List SemanticInput) (groups : List (String × List SemanticInput))
    → Distinct string_discrete groups
    → Distinct string_discrete (group_from inputs groups)
unfolding group_from add_item
group_from-Distinct [] groups d = d
group_from-Distinct (item ∷ inputs) groups d =
    group_from-Distinct inputs _ (assign-Distinct string_discrete item.content_hash _ groups d)

sort_groups-keys :
    (groups : List (String × List SemanticInput))
    → map (λ g. g.0) (sort_groups groups) ≡ map (λ g. g.0) groups
sort_groups-keys [] = refl
sort_groups-keys ((key, items) ∷ groups) = ap (◌∷◌ key) (sort_groups-keys groups)

-- The keys of the groups are different.
pub group-Different : (inputs : List SemanticInput) → Different (map (λ g. g.0) (group inputs))
unfolding group
group-Different inputs =
    subst Different (sym (sort_groups-keys (group_from inputs [])))
      (Different-keys (group_from inputs []) (group_from-Distinct inputs [] tt))
