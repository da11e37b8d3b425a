-- ===== src/Index/Changes.antt =====
-- What `reconcile_indices` of indexing/reconciler.py adds and removes.
use andnp_searchkernel.Prelude.{
  ◌≡◌, refl, sym, ap, ◌∙◌, Bool, true, false, not, ◌&&◌, ◌||◌, Bool-cases, Option-cases, inl, inr,
  is_some, Option, none, some, String, List, [], ◌∷◌, ◌++◌, arith,
}
use andnp_searchkernel.Dict.{
  find, string_discrete, str_eq_self, str_eq_ne, Absent, Distinct, find-Absent, find-cons_self,
  find-cons_ne, find-assign,
}
use andnp_searchkernel.Dict.Keys.{assign-Distinct, find-assign_ne}
use andnp_searchkernel.Index.Reconcile.{
  Files, is_key, contains, keys_where, values_where, find_excluded_indexed_files, excluded_ids,
  add_file, files_from, discovered, build_indexed_files_map, reconcile_indices,
}

abbrev pub is_excluded : Option (String → Bool) → String → Bool
is_excluded none path = false
is_excluded (some included) path = not (included path)

-- A test on the value of a key, if it is there.
abbrev pub test_found : (String → String → Bool) → String → Option String → Bool
test_found test id none = false
test_found test id (some v) = test id v

contains-keys_where-Absent :
    (test : String → String → Bool) (id : String) (d : Files)
    → Absent string_discrete id d
    → contains id (keys_where test d) ≡ false
unfolding contains keys_where
contains-keys_where-Absent test id [] a = refl
contains-keys_where-Absent test id ((k, v) ∷ d) a = elim (Bool-cases (test k v)) [
  | inl y ↦ rw (y, str_eq_ne k id a.0) (contains-keys_where-Absent test id d a.1)
  | inr n ↦ rw n (contains-keys_where-Absent test id d a.1)
]

contains-keys_where :
    (test : String → String → Bool) (id : String) (d : Files)
    → Distinct string_discrete d
    → contains id (keys_where test d) ≡ test_found test id (find string_discrete id d)
unfolding contains keys_where
contains-keys_where test id [] a =
    ap (test_found test id) (sym (find-Absent string_discrete id [] tt))
contains-keys_where test id ((k, v) ∷ d) a = elim (string_discrete k id) [
  | no n ↦ elim (Bool-cases (test k v)) [
    | inl y ↦
        rw (y, str_eq_ne k id n, find-cons_ne string_discrete id k v d n)
          (contains-keys_where test id d a.1)
    | inr z ↦ rw (z, find-cons_ne string_discrete id k v d n) (contains-keys_where test id d a.1)
  ]
  | yes p ↦ elim (Bool-cases (test id v)) [
    | inl y ↦ rw (p, y, str_eq_self id, find-cons_self string_discrete id v d, y)
    | inr z ↦
        rw (p, z, find-cons_self string_discrete id v d, z)
          (contains-keys_where-Absent test id d (rw p at a.0))
  ]
]

contains-append :
    (id : String) (xs ys : List String)
    → contains id (xs ++ ys) ≡ (contains id xs || contains id ys)
unfolding contains
contains-append id [] ys = refl
contains-append id (x ∷ xs) ys = ground (arith, contains-append id xs ys)

keys_where_none :
    (test : String → String → Bool) (d : Files)
    → ((id v : String) → find string_discrete id d ≡ some v → test id v ≡ false)
    → Distinct string_discrete d
    → keys_where test d ≡ []
unfolding keys_where
keys_where_none test [] h a = refl
keys_where_none test ((k, v) ∷ d) h a = rw (h k v (find-cons_self string_discrete k v d)) (
    keys_where_none test d
      (λ id w e. h id w (
        find-cons_ne string_discrete id k v d
          (λ q. let gone = find-Absent string_discrete id d (rw q at a.0) in cc)
        ∙ e))
      a.1)

values_where_none :
    (test : String → String → Bool) (d : Files)
    → ((id v : String) → find string_discrete id d ≡ some v → test id v ≡ false)
    → Distinct string_discrete d
    → values_where test d ≡ []
unfolding values_where
values_where_none test [] h a = refl
values_where_none test ((k, v) ∷ d) h a = rw (h k v (find-cons_self string_discrete k v d)) (
    values_where_none test d
      (λ id w e. h id w (
        find-cons_ne string_discrete id k v d
          (λ q. let gone = find-Absent string_discrete id d (rw q at a.0) in cc)
        ∙ e))
      a.1)

contains-excluded_ids :
    (included : Option (String → Bool)) (id : String) (indexed : Files)
    → Distinct string_discrete indexed
    → contains id (excluded_ids included indexed)
      ≡ test_found (λ k path. is_excluded included path) id (find string_discrete id indexed)
unfolding contains find_excluded_indexed_files
contains-excluded_ids none id indexed a = elim (Option-cases (find string_discrete id indexed)) [
  | inl e ↦ rw e
  | inr (path, e) ↦ rw e
]
contains-excluded_ids (some included) id indexed a = contains-keys_where _ id indexed a

stale_or_excluded : (there out : Bool) → ((not there && not out) || out) ≡ (out || not there)
stale_or_excluded there true = ground arith
stale_or_excluded there false = ground arith

module _ (doc_id_of : String → Option (String × String)) where
  files_from-Distinct :
      (value : String → String × String → String) (files : List String) (d : Files)
      → Distinct string_discrete d
      → Distinct string_discrete (files_from doc_id_of value files d)
  unfolding files_from
  files_from-Distinct value [] d a = a
  files_from-Distinct value (file ∷ files) d a =
      files_from-Distinct value files _ (add (doc_id_of file))
    where
      add :
          (o : Option (String × String))
          → Distinct string_discrete (add_file doc_id_of value file o d)
      add none = a
      add (some id) = assign-Distinct string_discrete id.0 (value file id) d a

  is_key-add_file :
      (value other : String → String × String → String) (file id : String)
      (o : Option (String × String)) (d e : Files)
      → is_key id d ≡ is_key id e
      → is_key id (add_file doc_id_of value file o d)
        ≡ is_key id (add_file doc_id_of other file o e)
  is_key-add_file value other file id none d e h = h
  is_key-add_file value other file id (some at) d e h = elim (string_discrete at.0 id) [
    | yes p ↦ rw (
      ← p,
      find-assign string_discrete at.0 (value file at) d,
      find-assign string_discrete at.0 (other file at) e,
    )
    | no n ↦
        ap is_some (find-assign_ne string_discrete id at.0 (value file at) d n)
        ∙ h
        ∙ sym (ap is_some (find-assign_ne string_discrete id at.0 (other file at) e n))
  ]

  is_key-files_from :
      (value other : String → String × String → String) (files : List String) (id : String)
      (d e : Files)
      → is_key id d ≡ is_key id e
      → is_key id (files_from doc_id_of value files d)
        ≡ is_key id (files_from doc_id_of other files e)
  unfolding files_from
  is_key-files_from value other [] id d e h = h
  is_key-files_from value other (file ∷ files) id d e h =
      is_key-files_from value other files id _ _
        (is_key-add_file value other file id (doc_id_of file) d e h)

  -- The ids to remove are those of the indexed files, in a manifest with one entry for an id, that are
  -- no file any more or that the given patterns now exclude, and no others.
  pub contains-reconcile_indices :
      (included : Option (String → Bool)) (files : List String) (indexed : Files) (id : String)
      → Distinct string_discrete indexed
      → contains id (reconcile_indices doc_id_of included files (some indexed)).1
        ≡ test_found
            (λ k path. is_excluded included path || not (is_key k (discovered doc_id_of files)))
            id
            (find string_discrete id indexed)
  unfolding reconcile_indices
  contains-reconcile_indices included files indexed id a =
      elim (Option-cases (find string_discrete id indexed)) [
        | inl e ↦ rw (
          contains-append,
          contains-keys_where _ id indexed a,
          contains-excluded_ids included id indexed a,
          e,
        )
        | inr (path, e) ↦
            let out = contains-excluded_ids included id indexed a in
            rw (contains-append, contains-keys_where _ id indexed a, out, e, out, e)
              (stale_or_excluded (is_key id (discovered doc_id_of files))
                (is_excluded included path))
      ]

  -- Once the manifest lists the files that were discovered, nothing is left to add or to remove, if no
  -- pattern is given.
  pub reconcile_indices-build_indexed_files_map :
      (files : List String)
      → reconcile_indices doc_id_of none files (some (build_indexed_files_map doc_id_of files))
        ≡ ([], [], [])
  unfolding reconcile_indices discovered build_indexed_files_map contains
  reconcile_indices-build_indexed_files_map files = rw (
    keys_where_none
        (λ id path. not (is_key id (discovered doc_id_of files)) && not (contains id []))
        (files_from doc_id_of (λ file at. at.1) files [])
        (λ id v e.
          let t : is_key id (discovered doc_id_of files) ≡ true = sym (same id) ∙ ap is_some e in
          rw t)
        (files_from-Distinct _ files [] tt),
    values_where_none (λ id file. not (is_key id (build_indexed_files_map doc_id_of files)))
        (files_from doc_id_of (λ file at. file) files [])
        (λ id v e.
          let t : is_key id (build_indexed_files_map doc_id_of files) ≡ true =
            same id ∙ ap is_some e in
          rw t)
        (files_from-Distinct _ files [] tt),
  )
    where
      same :
          (id : String)
          → is_key id (files_from doc_id_of (λ file at. at.1) files [])
            ≡ is_key id (files_from doc_id_of (λ file at. file) files [])
      same id = is_key-files_from (λ file at. at.1) (λ file at. file) files id [] [] refl
