-- ===== src/Filters/Permitted.antt =====
-- The constraints of domain/vector_filters.py as they are given, before they are compiled.
use andnp_searchkernel.Prelude.{◌≡◌, ◌⊎◌, Option, none, some, String, List, [], ◌∷◌, All}
use andnp_searchkernel.Dict.{find, string_discrete}
use andnp_searchkernel.Filters.Scoped.{
  Item, str, alien, Value, items, Constraint, plain, fields, Constraints, constraints,
  ScopedFilters, scoped, not_scoped, Metadata, constraint_of,
}
use andnp_searchkernel.Filters.Compiled.{Candidate}

-- The string is an item of the list.
abbrev pub IsIn : String → List Item → Type 0
IsIn s [] = ⊥
IsIn s (str t ∷ is) = (t ≡ s) ⊎ IsIn s is
IsIn s (alien ∷ is) = IsIn s is

-- The workspace is one of those listed, where some are.
abbrev pub Workspace : Option Constraint → Option String → Type 0
Workspace none w = Unit
Workspace (some (plain (items is t))) (some w) = IsIn w is
Workspace (some c) w = ⊥

-- The field of the metadata is a list with an item.
abbrev pub NonEmpty : Metadata → String → Type 0
NonEmpty metadata field =
    (i : Item) × (is : List Item) × (t : String) × (find string_discrete field metadata
      ≡ some (items (i ∷ is) t))

abbrev pub NonEmptyItem : Metadata → Item → Type 0
NonEmptyItem metadata (str field) = NonEmpty metadata field
NonEmptyItem metadata alien = ⊥

abbrev pub NonEmptyAll : Metadata → Option Constraint → Type 0
NonEmptyAll metadata none = Unit
NonEmptyAll metadata (some (plain (items is t))) = All (NonEmptyItem metadata) is
NonEmptyAll metadata (some c) = ⊥

-- The field of the metadata is a list with one of the strings.
abbrev pub Shares : Metadata → String → List Item → Type 0
Shares metadata field allowed =
    (is : List Item) × (t : String) × (s : String) × (find string_discrete field metadata
      ≡ some (items is t))
    × IsIn s is
    × IsIn s allowed

abbrev pub SharesEntry : Metadata → Item × Value → Type 0
SharesEntry metadata (str field, items allowed t) = Shares metadata field allowed
SharesEntry metadata _ = ⊥

abbrev pub SharesAll : Metadata → Option Constraint → Type 0
SharesAll metadata none = Unit
SharesAll metadata (some (fields kvs)) = All (SharesEntry metadata) kvs
SharesAll metadata (some c) = ⊥

-- The three constraints of a source kind.
abbrev pub Permitted : List (Item × Constraint) → Candidate → Type 0
Permitted cs c =
    Workspace (constraint_of "workspace_ids" cs) c.workspace_id
    × NonEmptyAll c.metadata (constraint_of "metadata_non_empty" cs)
    × SharesAll c.metadata (constraint_of "metadata_contains_any" cs)

-- Every constraint given for the candidate's source kind.
abbrev pub AllPermitted : List (Item × Constraints) → Candidate → Type 0
AllPermitted [] c = Unit
AllPermitted ((str kind, constraints cs) ∷ entries) c =
    (kind ≡ c.source_kind → Permitted cs c) × AllPermitted entries c
AllPermitted ((_, _) ∷ entries) c = AllPermitted entries c

abbrev pub Authorized : Option ScopedFilters → Candidate → Type 0
Authorized none c = Unit
Authorized (some not_scoped) c = Unit
Authorized (some (scoped entries)) c = AllPermitted entries c
