-- ===== src/Tests/Index.antt =====
-- A small index whose files have changed.
use andnp_searchkernel.Prelude.{
  ◌≡◌, refl, Bool, true, ◌||◌, Option, none, some, String, str_eq, [], ◌∷◌,
}
use andnp_searchkernel.Dict.{find, assign, apart, string_discrete}
use andnp_searchkernel.Index.Reconcile.{
  Files, contains, keys_where, values_where, find_excluded_indexed_files, files_from, discovered,
  build_indexed_files_map, reconcile_indices,
}
use andnp_searchkernel.Index.Changes.{
  contains-reconcile_indices, reconcile_indices-build_indexed_files_map,
}

-- Every file is its own id, and has one suffix.
abbrev own_id : String → Option (String × String)
own_id file = some (file, file)

abbrev indexed : Files
indexed = ("a", "a.md") ∷ ("b", "b.md") ∷ ("c", "c.txt") ∷ []

abbrev only_b : String → Bool
only_b path = str_eq path "a.md" || str_eq path "b.md"

reconcile_indices-indexed :
    reconcile_indices own_id (some only_b) ("b" ∷ "c" ∷ "d" ∷ []) (some indexed)
    ≡ ("d" ∷ [], "a" ∷ "c" ∷ [], [])
unfolding reconcile_indices discovered files_from keys_where values_where contains find assign
    string_discrete find_excluded_indexed_files
reconcile_indices-indexed = refl

contains-reconcile_indices_example :
    contains "c" (reconcile_indices own_id (some only_b) ("b" ∷ "c" ∷ "d" ∷ []) (some indexed)).1
    ≡ true
unfolding find string_discrete
contains-reconcile_indices_example =
    contains-reconcile_indices own_id (some only_b) ("b" ∷ "c" ∷ "d" ∷ []) indexed "c"
      ((apart "b" "a" refl, (apart "c" "a" refl, tt)), ((apart "c" "b" refl, tt), (tt, tt)))

reconcile_indices-build_indexed_files_map_example :
    reconcile_indices own_id none
      ("a" ∷ "b" ∷ [])
      (some (build_indexed_files_map own_id ("a" ∷ "b" ∷ [])))
    ≡ ([], [], [])
reconcile_indices-build_indexed_files_map_example =
    reconcile_indices-build_indexed_files_map own_id ("a" ∷ "b" ∷ [])
