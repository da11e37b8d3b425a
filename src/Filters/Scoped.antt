-- ===== src/Filters/Scoped.antt =====
-- `SourceScopedFilter` and `compile_source_scoped_filters` of domain/vector_filters.py. A value of the
-- filters and of a record's metadata is kept as far as the code looks into it; a set is a list.
use Prim.Native.Char.{Char, code}
use Prim.Native.String.{[] as no_chars, ◌∷◌ as char_and}
use andnp_searchkernel.Prelude.{
  Bool, true, false, ◌&&◌, ◌||◌, Option, none, some, String, str_eq, List, [], ◌∷◌, leb, ◌==◌,
  if◌then◌else◌,
}
use andnp_searchkernel.Exec.{Result, ok, err}
use andnp_searchkernel.Dict.{find, string_discrete}
use andnp_searchkernel.Batching.Keys.{contains}

-- An item of a list: a string or something else.
pub data Item : Type 0 where
  str : String → Item
  alien : Item

-- `None`, a string, a list, or another value with its text.
pub data Value : Type 0 where
  null : Value
  text : String → Value
  items : List Item → String → Value
  opaque : String → Value

-- A value of a constraint: a mapping from fields, or a plain value.
pub data Constraint : Type 0 where
  plain : Value → Constraint
  fields : List (Item × Value) → Constraint

-- The constraints of a source kind: a mapping, or another value.
pub data Constraints : Type 0 where
  constraints : List (Item × Constraint) → Constraints
  no_mapping : Constraints

-- `filters["source_scoped_filters"]`, where it is there.
pub data ScopedFilters : Type 0 where
  scoped : List (Item × Constraints) → ScopedFilters
  not_scoped : ScopedFilters

pub data FilterError : Type 0 where
  type_error value_error : String → FilterError

pub record SourceScopedFilter : Type 0 where
  pub source_kind : String
  pub workspace_ids : Option (List String)
  pub metadata_non_empty : List String
  pub metadata_contains_any : List (String × List String)

abbrev pub Metadata : Type 0
Metadata = List (String × Value)

abbrev pub non_empty_list : Option Value → Bool
non_empty_list (some (items (i ∷ is) t)) = true
non_empty_list _ = false

abbrev pub any_allowed : List String → List Item → Bool
any_allowed allowed [] = false
any_allowed allowed (str s ∷ is) = contains allowed s || any_allowed allowed is
any_allowed allowed (alien ∷ is) = any_allowed allowed is

abbrev pub has_allowed : List String → Option Value → Bool
has_allowed allowed (some (items is t)) = any_allowed allowed is
has_allowed allowed _ = false

abbrev pub in_workspaces : Option (List String) → Option String → Bool
in_workspaces none w = true
in_workspaces (some ids) none = false
in_workspaces (some ids) (some w) = contains ids w

abbrev pub all_non_empty : Metadata → List String → Bool
all_non_empty metadata [] = true
all_non_empty metadata (field ∷ rest) =
    non_empty_list (find string_discrete field metadata) && all_non_empty metadata rest

abbrev pub all_contain : Metadata → List (String × List String) → Bool
all_contain metadata [] = true
all_contain metadata ((field, allowed) ∷ rest) =
    has_allowed allowed (find string_discrete field metadata) && all_contain metadata rest

-- `SourceScopedFilter.matches`.
unfoldable pub scoped_matches : SourceScopedFilter → Option String → Metadata → Bool
scoped_matches f workspace_id metadata =
    in_workspaces f.workspace_ids workspace_id
    && all_non_empty metadata f.metadata_non_empty
    && all_contain metadata f.metadata_contains_any

abbrev is_letter : Char → Bool
is_letter c =
    (leb 65 (code c) && leb (code c) 90) || (leb 97 (code c) && leb (code c) 122) || code c == 95

abbrev is_digit : Char → Bool
is_digit c = leb 48 (code c) && leb (code c) 57

abbrev all_word : String → Bool
all_word no_chars = true
all_word (char_and c cs) = (is_letter c || is_digit c) && all_word cs

-- `_METADATA_FIELD_RE.fullmatch`.
unfoldable pub is_metadata_field : String → Bool
is_metadata_field no_chars = false
is_metadata_field (char_and c cs) = is_letter c && all_word cs

infixl 10 ◌>>=◌
abbrev pub ◌>>=◌ :
    {A B : Type 0} → Result FilterError A → (A → Result FilterError B) → Result FilterError B
ok a >>= f = f a
err e >>= f = err e

-- The strings of a list that has nothing else.
abbrev pub strings_of : List Item → Result FilterError (List String)
strings_of [] = ok []
strings_of (str s ∷ is) = do ss ← strings_of is; ok (s ∷ ss)
strings_of (alien ∷ is) = err (type_error "must contain only strings")

-- `_compile_string_list`.
unfoldable pub compile_string_list : Constraint → Result FilterError (List String)
compile_string_list (plain (items is t)) = strings_of is
compile_string_list _ = err (type_error "must be a list")

abbrev pub keys_of : List Item → Result FilterError (List String)
keys_of [] = ok []
keys_of (str s ∷ is) = do
  ss ← keys_of is
  if is_metadata_field s then ok (s ∷ ss) else err (value_error "must contain valid metadata keys")
keys_of (alien ∷ is) = err (value_error "must contain valid metadata keys")

-- `_compile_metadata_keys`.
unfoldable pub compile_metadata_keys : Constraint → Result FilterError (List String)
compile_metadata_keys (plain (items is t)) = keys_of is
compile_metadata_keys _ = err (type_error "must be a list")

abbrev pub fields_of : List (Item × Value) → Result FilterError (List (String × List String))
fields_of [] = ok []
fields_of ((str field, value) ∷ rest) =
    if is_metadata_field field
    then (do
      allowed ← compile_string_list (plain value)
      compiled ← fields_of rest
      ok ((field, allowed) ∷ compiled))
    else err (value_error "must contain valid metadata keys")
fields_of ((alien, value) ∷ rest) = err (value_error "must contain valid metadata keys")

-- `_compile_metadata_contains_any`.
unfoldable pub compile_metadata_contains_any :
    Constraint → Result FilterError (List (String × List String))
compile_metadata_contains_any (fields kvs) = fields_of kvs
compile_metadata_contains_any (plain v) = err (type_error "metadata_contains_any must be a mapping")

-- `constraints[name]`, where it is there.
abbrev pub constraint_of : String → List (Item × Constraint) → Option Constraint
constraint_of name [] = none
constraint_of name ((str key, c) ∷ rest) =
    if str_eq key name then some c else constraint_of name rest
constraint_of name ((alien, c) ∷ rest) = constraint_of name rest

abbrev only_allowed : List (Item × Constraint) → Bool
only_allowed [] = true
only_allowed ((str key, c) ∷ rest) =
    (str_eq key "workspace_ids"
      || str_eq key "metadata_non_empty"
      || str_eq key "metadata_contains_any")
    && only_allowed rest
only_allowed ((alien, c) ∷ rest) = false

-- Some constraint is given, and all are known.
abbrev pub valid_constraints : List (Item × Constraint) → Bool
valid_constraints [] = false
valid_constraints (kc ∷ rest) = only_allowed (kc ∷ rest)

-- `compile(constraints[name]) if name in constraints else default`.
abbrev pub compile_if :
    {A : Type 0}
    → (Constraint → Result FilterError A)
    → A
    → Option Constraint
    → Result FilterError A
compile_if compile default none = ok default
compile_if compile default (some c) = compile c

abbrev pub compile_workspaces : Option Constraint → Result FilterError (Option (List String))
compile_workspaces none = ok none
compile_workspaces (some c) = do ids ← compile_string_list c; ok (some ids)

-- The loop's body.
unfoldable pub compile_scoped :
    String → List (Item × Constraint) → Result FilterError SourceScopedFilter
compile_scoped source_kind cs =
    if valid_constraints cs
    then (do
      ids ← compile_workspaces (constraint_of "workspace_ids" cs)
      non_empty ← compile_if compile_metadata_keys [] (constraint_of "metadata_non_empty" cs)
      contains_any ←
          compile_if compile_metadata_contains_any [] (constraint_of "metadata_contains_any" cs)
      ok record {
        source_kind = source_kind;
        workspace_ids = ids;
        metadata_non_empty = non_empty;
        metadata_contains_any = contains_any;
      })
    else err (value_error "has invalid constraints")

unfoldable pub compile_entries :
    List (Item × Constraints) → Result FilterError (List SourceScopedFilter)
compile_entries [] = ok []
compile_entries ((alien, cs) ∷ rest) =
    err (type_error "source_scoped_filters keys must be non-empty strings")
compile_entries ((str kind, no_mapping) ∷ rest) =
    if str_eq kind ""
    then err (type_error "source_scoped_filters keys must be non-empty strings")
    else err (type_error "must be a mapping")
compile_entries ((str kind, constraints cs) ∷ rest) =
    if str_eq kind ""
    then err (type_error "source_scoped_filters keys must be non-empty strings")
    else (do f ← compile_scoped kind cs; compiled ← compile_entries rest; ok (f ∷ compiled))

-- `compile_source_scoped_filters`; `none` where the filters have no such entry.
unfoldable pub compile_source_scoped_filters :
    Option ScopedFilters → Result FilterError (List SourceScopedFilter)
compile_source_scoped_filters none = ok []
compile_source_scoped_filters (some not_scoped) =
    err (type_error "source_scoped_filters must be a mapping")
compile_source_scoped_filters (some (scoped entries)) = compile_entries entries
