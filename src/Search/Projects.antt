-- ===== src/Search/Projects.antt =====
-- The other filters of search/filters.py: by confidence, by document and by project. Scores are any `N`
-- with the tests of floats that the code makes; a set is a list.
use Prim.Native.String.{[] as no_chars, ◌∷◌ as char_and}
use Prim.Native.Char.{code}
use andnp_searchkernel.Prelude.{
  starts_with, ℕ, Bool, true, false, ◌&&◌, Option, none, some, String, str_eq, List, [], ◌∷◌,
  if◌then◌else◌,
}
use andnp_searchkernel.Batching.Keys.{contains}
use andnp_searchkernel.Reindex.Domain.{is_space}
use andnp_searchkernel.Search.Groups.{limit_per_group}

abbrev confident : {N : Type 0} → (N → Bool) → List (String × N) → List (String × N)
confident test [] = []
confident test (result ∷ results) =
    let rest = confident test results in if test result.1 then result ∷ rest else rest

-- `filter_by_confidence`, given `score >= threshold` and `threshold <= 0.0`.
unfoldable pub filter_by_confidence :
    {N : Type 0} → (N → N → Bool) → (N → Bool) → List (String × N) → N → List (String × N)
filter_by_confidence at_least not_positive results threshold =
    if not_positive threshold
    then results
    else confident (λ score. at_least score threshold) results

abbrev or_before : String → Bool → Option String → Option String
or_before s here none = if here then some no_chars else none
or_before (char_and c s) here (some before) = some (char_and c before)
or_before no_chars here (some before) = some before

-- What stands before the last `mark` in a text.
unfoldable pub before_last : String → String → Option String
before_last mark no_chars = none
before_last mark (char_and c s) =
    or_before (char_and c s) (starts_with (char_and c s) mark) (before_last mark s)

-- The group of `limit_per_document`.
unfoldable pub document_of : String → String
document_of chunk_id = elim (before_last "_chunk_" chunk_id) [ none ↦ chunk_id | some d ↦ d ]

-- `limit_per_document`.
unfoldable pub limit_per_document :
    {N : Type 0} → Discrete String → List (String × N) → ℕ → List (String × N)
limit_per_document dec results max = limit_per_group dec (λ r. document_of r.0) results max

abbrev strip_start : String → String
strip_start no_chars = no_chars
strip_start (char_and c s) = if is_space (code c) then strip_start s else char_and c s

abbrev strip_end : String → String
strip_end no_chars = no_chars
strip_end (char_and c s) =
    let rest = strip_end s in
    if is_space (code c) && str_eq rest "" then no_chars else char_and c rest

-- `str.strip`.
unfoldable pub strip : String → String
strip s = strip_end (strip_start s)

abbrev stripped : List String → List String
stripped [] = []
stripped (item ∷ items) =
    if str_eq (strip item) "" then stripped items else strip item ∷ stripped items

abbrev or_none : List String → Option (List String)
or_none [] = none
or_none (item ∷ items) = some (item ∷ items)

-- `normalize_project_filter`; no filter and an empty one are the same.
unfoldable pub normalize_project_filter : List String → Option (List String)
normalize_project_filter project_filter = or_none (stripped project_filter)

-- `matches_project_filter`.
unfoldable pub matches_project_filter : Option String → Option (List String) → Bool
matches_project_filter project_id none = true
matches_project_filter none (some project_filter) = false
matches_project_filter (some project) (some project_filter) = contains project_filter project
