-- ===== src/Filters/Compiled.antt =====
-- `CompiledVectorFilter.matches` of domain/vector_filters.py. The metadata is what `metadata_mapping` gives,
-- and the values of the paths are those of `_path_values`.
use andnp_searchkernel.Prelude.{
  Bool, true, false, not, ◌&&◌, ◌||◌, Option, none, some, is_some, String, str_eq, List, [], ◌∷◌,
  if◌then◌else◌,
}
use andnp_searchkernel.Dict.{find, string_discrete}
use andnp_searchkernel.Batching.Keys.{contains}
use andnp_searchkernel.Filters.Scoped.{
  Value, null, text, items, opaque, SourceScopedFilter, Metadata, scoped_matches,
}

pub record CompiledVectorFilter : Type 0 where
  pub statuses : List String
  pub workspace_id : Option String
  pub source_kinds : Option (List String)
  pub candidate_keys : Option (List String)
  pub excluded_storage_keys : Option (List String)
  pub project_values : Option (List String)
  pub excluded_projects : Option (List String)
  pub included_paths : Option (List String)
  pub excluded_paths : Option (List String)
  pub document_values : Option (List String)
  pub excluded_documents : Option (List String)
  pub metadata_equals : Option (List (String × String))
  pub metadata_in : Option (List (String × List String))
  pub source_scoped_filters : List SourceScopedFilter

-- What a record is matched by.
pub record Candidate : Type 0 where
  pub storage_key : String
  pub source_id : String
  pub workspace_id : Option String
  pub source_kind : String
  pub status : String
  pub metadata : Metadata
  pub path_values : List String

-- `str(value)`; a missing value is `None`.
abbrev pub str_of : Option Value → String
str_of none = "None"
str_of (some null) = "None"
str_of (some (text t)) = t
str_of (some (items is t)) = t
str_of (some (opaque t)) = t

-- A set that may be missing: nothing is asked, or the value is in it.
abbrev pub allowed_by : Option (List String) → String → Bool
allowed_by none v = true
allowed_by (some set) v = contains set v

abbrev pub excluded_by : Option (List String) → String → Bool
excluded_by none v = false
excluded_by (some set) v = contains set v

abbrev meets : List String → List String → Bool
meets [] set = false
meets (v ∷ vs) set = contains set v || meets vs set

abbrev meets_or : Bool → Option (List String) → List String → Bool
meets_or absent none vs = absent
meets_or absent (some set) vs = meets vs set

abbrev same_workspace : Option String → Option String → Bool
same_workspace none w = true
same_workspace (some a) none = false
same_workspace (some a) (some b) = str_eq a b

abbrev pub scoped_all : List SourceScopedFilter → Candidate → Bool
scoped_all [] c = true
scoped_all (f ∷ fs) c =
    (if str_eq f.source_kind c.source_kind
      then scoped_matches f c.workspace_id c.metadata
      else true)
    && scoped_all fs c

abbrev pub any_scoped : List SourceScopedFilter → Bool
any_scoped [] = false
any_scoped (f ∷ fs) = true

-- `requires_metadata`.
unfoldable pub requires_metadata : CompiledVectorFilter → Bool
requires_metadata f =
    any_scoped f.source_scoped_filters
    || is_some f.project_values
    || is_some f.excluded_projects
    || is_some f.included_paths
    || is_some f.excluded_paths
    || is_some f.document_values
    || is_some f.excluded_documents
    || is_some f.metadata_equals
    || is_some f.metadata_in

-- The checks on the fields beside the metadata.
unfoldable pub matches_identity : CompiledVectorFilter → Candidate → Bool
matches_identity f c =
    contains f.statuses c.status
    && same_workspace f.workspace_id c.workspace_id
    && allowed_by f.source_kinds c.source_kind
    && allowed_by f.candidate_keys c.storage_key
    && not (excluded_by f.excluded_storage_keys c.storage_key)

abbrev excluded_project : Option (List String) → Option Value → Bool
excluded_project set none = false
excluded_project set (some null) = false
excluded_project set (some v) = excluded_by set (str_of (some v))

abbrev document_of : Candidate → String
document_of c = elim (find string_discrete "doc_id" c.metadata) [
  | none ↦ c.source_id
  | some v ↦ str_of (some v)
]

abbrev all_equal : Metadata → List (String × String) → Bool
all_equal metadata [] = true
all_equal metadata ((field, value) ∷ rest) =
    str_eq (str_of (find string_discrete field metadata)) value && all_equal metadata rest

abbrev all_in : Metadata → List (String × List String) → Bool
all_in metadata [] = true
all_in metadata ((field, allowed) ∷ rest) =
    contains allowed (str_of (find string_discrete field metadata)) && all_in metadata rest

abbrev or_true : {A : Type 0} → (A → Bool) → Option A → Bool
or_true test none = true
or_true test (some a) = test a

-- The checks on the metadata.
unfoldable pub matches_metadata : CompiledVectorFilter → Candidate → Bool
matches_metadata f c =
    scoped_all f.source_scoped_filters c
    && allowed_by f.project_values (str_of (find string_discrete "project_id" c.metadata))
    && not (excluded_project f.excluded_projects (find string_discrete "project_id" c.metadata))
    && meets_or true f.included_paths c.path_values
    && not (meets_or false f.excluded_paths c.path_values)
    && allowed_by f.document_values (document_of c)
    && not (
        excluded_by f.excluded_documents (document_of c)
        || excluded_by f.excluded_documents c.source_id)
    && or_true (all_equal c.metadata) f.metadata_equals
    && or_true (all_in c.metadata) f.metadata_in

-- `matches`.
unfoldable pub matches : CompiledVectorFilter → Candidate → Bool
matches f c =
    if not (matches_identity f c)
    then false
    else if not (requires_metadata f)
    then true
    else matches_metadata f c
