-- ===== src/Tests/Filters.antt =====
-- A note of the workspace w1, under filters that ask notes for that workspace and for an owner.
use andnp_searchkernel.Prelude.{refl, none, some, [], ◌∷◌}
use andnp_searchkernel.Filters.Scoped.{
  str, items, plain, fields, constraints, ScopedFilters, scoped, SourceScopedFilter,
  compile_source_scoped_filters, compile_entries, compile_scoped, compile_string_list,
  compile_metadata_keys, is_metadata_field, compile_metadata_contains_any, scoped_matches,
}
use andnp_searchkernel.Dict.{find, string_discrete}
use andnp_searchkernel.Batching.Keys.{contains}
use andnp_searchkernel.Filters.Compiled.{
  CompiledVectorFilter, Candidate, matches, matches_identity, requires_metadata, matches_metadata,
}
use andnp_searchkernel.Filters.Permitted.{Authorized}
use andnp_searchkernel.Filters.Authorized.{matches-Authorized}

abbrev filters : ScopedFilters
filters = scoped (
    (
      str "note",
      constraints (
          (str "workspace_ids", plain (items (str "w1" ∷ []) ""))
          ∷ (str "metadata_non_empty", plain (items (str "owners" ∷ []) ""))
          ∷ (
            str "metadata_contains_any",
            fields ((str "owners", items (str "ann" ∷ str "bob" ∷ []) "") ∷ []),
          )
          ∷ []),
    )
    ∷ [])

abbrev compiled : SourceScopedFilter
compiled = record {
  source_kind = "note";
  workspace_ids = some ("w1" ∷ []);
  metadata_non_empty = "owners" ∷ [];
  metadata_contains_any = ("owners", "ann" ∷ "bob" ∷ []) ∷ [];
}

abbrev only_scoped : CompiledVectorFilter
only_scoped = record {
  statuses = "active" ∷ [];
  workspace_id = none;
  source_kinds = none;
  candidate_keys = none;
  excluded_storage_keys = none;
  project_values = none;
  excluded_projects = none;
  included_paths = none;
  excluded_paths = none;
  document_values = none;
  excluded_documents = none;
  metadata_equals = none;
  metadata_in = none;
  source_scoped_filters = compiled ∷ [];
}

abbrev owned : Candidate
owned = record {
  storage_key = "k";
  source_id = "a";
  workspace_id = some "w1";
  source_kind = "note";
  status = "active";
  metadata = ("owners", items (str "bob" ∷ []) "") ∷ [];
  path_values = [];
}

matches-Authorized_example : Authorized (some filters) owned
unfolding compile_source_scoped_filters compile_entries compile_scoped compile_string_list
    compile_metadata_keys is_metadata_field compile_metadata_contains_any matches matches_identity
    contains requires_metadata matches_metadata scoped_matches find string_discrete
matches-Authorized_example = matches-Authorized (some filters) only_scoped owned refl refl
