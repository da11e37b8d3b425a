-- ===== src/Index/Reconcile.antt =====
-- `reconcile_indices`, `find_excluded_indexed_files` and `build_indexed_files_map` of
-- indexing/reconciler.py. `doc_id_of` gives a file's path below the roots, without and with its suffix,
-- or none for a file outside of them; `included` says whether an indexed path matches the patterns. The
-- sets of the code are lists here, in one of the orders that a set may have.
use andnp_searchkernel.Prelude.{
  Bool, false, not, ◌&&◌, ◌||◌, is_some, Option, none, some, String, str_eq, List, [], ◌∷◌, ◌++◌,
  if◌then◌else◌,
}
use andnp_searchkernel.Dict.{find, assign, string_discrete}

abbrev pub Files : Type 0
Files = List (String × String)

abbrev pub is_key : String → Files → Bool
is_key k d = is_some (find string_discrete k d)

unfoldable pub contains : String → List String → Bool
contains k [] = false
contains k (j ∷ js) = str_eq j k || contains k js

-- The ids of the items that pass a test, in their order.
unfoldable pub keys_where : (String → String → Bool) → Files → List String
keys_where test [] = []
keys_where test ((k, v) ∷ d) = let rest = keys_where test d in if test k v then k ∷ rest else rest

unfoldable pub values_where : (String → String → Bool) → Files → List String
values_where test [] = []
values_where test ((k, v) ∷ d) =
    let rest = values_where test d in if test k v then v ∷ rest else rest

abbrev pub or_empty : Option Files → Files
or_empty none = []
or_empty (some d) = d

-- `find_excluded_indexed_files`.
unfoldable pub find_excluded_indexed_files : (String → Bool) → Files → List String
find_excluded_indexed_files included indexed = keys_where (λ id path. not (included path)) indexed

-- The patterns may be missing, and then nothing is excluded.
abbrev pub excluded_ids : Option (String → Bool) → Files → List String
excluded_ids none indexed = []
excluded_ids (some included) indexed = find_excluded_indexed_files included indexed

module _ (doc_id_of : String → Option (String × String)) where
  abbrev pub add_file :
      (String → String × String → String) → String → Option (String × String) → Files → Files
  add_file value file none d = d
  add_file value file (some id) d = assign string_discrete id.0 (value file id) d

  -- The loop over the files that fills a dictionary by their ids.
  unfoldable pub files_from : (String → String × String → String) → List String → Files → Files
  files_from value [] d = d
  files_from value (file ∷ files) d =
      files_from value files (add_file value file (doc_id_of file) d)

  -- `doc_id_to_abs`.
  unfoldable pub discovered : List String → Files
  discovered files = files_from (λ file id. file) files []

  unfoldable pub build_indexed_files_map : List String → Files
  build_indexed_files_map files = files_from (λ file id. id.1) files []

  -- `reconcile_indices`: the files to add and the ids to remove; the third result is always empty.
  unfoldable pub reconcile_indices :
      Option (String → Bool) → List String → Option Files → List String × List String × Files
  reconcile_indices included files manifest =
      let indexed = or_empty manifest in
      let excluded = excluded_ids included indexed in
      let stale =
        keys_where (λ id path. not (is_key id (discovered files)) && not (contains id excluded))
          indexed in
      (values_where (λ id file. not (is_key id indexed)) (discovered files), stale ++ excluded, [])
