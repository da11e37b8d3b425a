-- ===== src/Bootstrap/Readiness.antt =====
-- indexing/runtime_readiness.py. The string literals are constructors; in a dictionary they are their
-- words again.
use andnp_searchkernel.Prelude.{
  ℕ, ◌≡◌, refl, Bool, true, false, not, ◌&&◌, ◌==◌, leb, Option, none, some, String, str_eq, List,
  [], ◌∷◌, if◌then◌else◌, arith,
}
use andnp_searchkernel.Exec.{Result, ok, err}
use andnp_searchkernel.Dict.{find, string_discrete}

pub data IndexStatus : Type 0 where
  uninitialized indexing partial ready failed : IndexStatus

pub data ReadinessStage : Type 0 where
  unavailable available backfilling complete : ReadinessStage

abbrev pub is_serving : ReadinessStage → Bool
is_serving ReadinessStage.unavailable = false
is_serving _ = true

abbrev pub is_ready : ReadinessStage → Bool
is_ready ReadinessStage.available = true
is_ready ReadinessStage.complete = true
is_ready _ = false

pub record SearchAvailability : Type 0 where
  pub lexical : ReadinessStage
  pub graph : ReadinessStage
  pub semantic_coarse : ReadinessStage
  pub semantic_fine : ReadinessStage

abbrev pub stage_word : ReadinessStage → String
stage_word ReadinessStage.unavailable = "unavailable"
stage_word ReadinessStage.available = "available"
stage_word ReadinessStage.backfilling = "backfilling"
stage_word ReadinessStage.complete = "complete"

-- `to_dict`.
unfoldable pub availability_to_dict : SearchAvailability → List (String × String)
availability_to_dict a =
    ("lexical", stage_word a.lexical)
    ∷ ("graph", stage_word a.graph)
    ∷ ("semantic_coarse", stage_word a.semantic_coarse)
    ∷ ("semantic_fine", stage_word a.semantic_fine)
    ∷ []

pub data ParseError : Type 0 where
  missing_key : String → ParseError
  invalid_availability : String → String → ParseError

abbrev pub stage_of : String → String → Result ParseError ReadinessStage
stage_of key value =
    if str_eq value "available"
    then ok ReadinessStage.available
    else if str_eq value "unavailable"
    then ok ReadinessStage.unavailable
    else if str_eq value "backfilling"
    then ok ReadinessStage.backfilling
    else if str_eq value "complete"
    then ok ReadinessStage.complete
    else err (invalid_availability key value)

abbrev pub parse_stage : String → Option String → Result ParseError ReadinessStage
parse_stage key none = err (missing_key key)
parse_stage key (some value) = stage_of key value

-- `_readiness_stage`, of the values that are strings.
unfoldable pub readiness_stage : List (String × String) → String → Result ParseError ReadinessStage
readiness_stage data_ key = parse_stage key (find string_discrete key data_)

abbrev pub or_else :
    {A B : Type 0} → Result ParseError A → (A → Result ParseError B) → Result ParseError B
or_else (ok a) f = f a
or_else (err e) f = err e

-- `from_dict`.
unfoldable pub availability_from_dict :
    List (String × String) → Result ParseError SearchAvailability
availability_from_dict d = or_else (readiness_stage d "lexical") λ lexical.
    or_else (readiness_stage d "graph") λ graph.
      or_else (readiness_stage d "semantic_coarse") λ coarse.
        or_else (readiness_stage d "semantic_fine") λ fine. ok record {
          lexical = lexical;
          graph = graph;
          semantic_coarse = coarse;
          semantic_fine = fine;
        }

-- `SearchAvailability.can_serve_queries`.
unfoldable pub availability_serves : SearchAvailability → Bool
availability_serves a = is_serving a.lexical && is_serving a.graph

-- `SearchAvailability.is_fully_ready`.
unfoldable pub availability_ready : SearchAvailability → Bool
availability_ready a =
    is_ready a.lexical && is_ready a.graph && is_ready a.semantic_coarse && is_ready a.semantic_fine

abbrev pub unless_given : Option SearchAvailability → (SearchAvailability → Bool) → Bool
unless_given none f = true
unless_given (some a) f = f a

-- `can_serve_queries`, with whether there is an `init_error`.
unfoldable pub can_serve_queries : Bool → Bool → Bool → Bool → Option SearchAvailability → Bool
can_serve_queries init_error ready_event_set is_virgin_startup indices_queryable availability =
    if init_error
    then false
    else if not indices_queryable
    then false
    else if not (unless_given availability availability_serves)
    then false
    else if ready_event_set
    then true
    else not is_virgin_startup

abbrev is_status_ready : IndexStatus → Bool
is_status_ready IndexStatus.ready = true
is_status_ready _ = false

-- `is_fully_ready`.
unfoldable pub is_fully_ready : Bool → Bool → IndexStatus → Bool → Option SearchAvailability → Bool
is_fully_ready init_error ready_event_set status indices_queryable availability =
    ready_event_set
    && not init_error
    && is_status_ready status
    && indices_queryable
    && unless_given availability availability_ready

unfoldable pub can_refresh_loaded_indices : Bool → Bool → Bool
can_refresh_loaded_indices ready_event_set init_error = ready_event_set && not init_error

unfoldable pub semantic_tier_from_progress : ℕ → ℕ → ReadinessStage
semantic_tier_from_progress indexed total =
    if total == 0
    then ReadinessStage.available
    else if leb total indexed
    then ReadinessStage.complete
    else ReadinessStage.backfilling

stage_word_lem : (key : String) (s : ReadinessStage) → stage_of key (stage_word s) ≡ ok s
stage_word_lem key ReadinessStage.unavailable = refl
stage_word_lem key ReadinessStage.available = refl
stage_word_lem key ReadinessStage.backfilling = refl
stage_word_lem key ReadinessStage.complete = refl

-- `from_dict` restores the availability that `to_dict` wrote.
pub availability_from_dict-availability_to_dict :
    (a : SearchAvailability) → availability_from_dict (availability_to_dict a) ≡ ok a
unfolding availability_from_dict availability_to_dict readiness_stage find string_discrete
availability_from_dict-availability_to_dict a = rw (
  stage_word_lem "lexical" a.lexical,
  stage_word_lem "graph" a.graph,
  stage_word_lem "semantic_coarse" a.semantic_coarse,
  stage_word_lem "semantic_fine" a.semantic_fine,
)

is_serving_lem : (s : ReadinessStage) → is_ready s ≡ true → is_serving s ≡ true
is_serving_lem ReadinessStage.unavailable h = h
is_serving_lem ReadinessStage.available h = refl
is_serving_lem ReadinessStage.backfilling h = refl
is_serving_lem ReadinessStage.complete h = refl

availability_serves_lem :
    (a : Option SearchAvailability)
    → unless_given a availability_ready ≡ true
    → unless_given a availability_serves ≡ true
unfolding availability_ready availability_serves
availability_serves_lem none h = refl
availability_serves_lem (some a) h =
    let l : is_ready a.lexical ≡ true = ground arith in
    let g : is_ready a.graph ≡ true = ground arith in
    rw (is_serving_lem a.lexical l, is_serving_lem a.graph g)

-- A server that reports full readiness serves queries and refreshes its loaded indices, whether or not
-- it started without an index.
pub can_serve_queries-is_fully_ready :
    (init_error ready_event_set is_virgin_startup indices_queryable : Bool) (status : IndexStatus)
    (availability : Option SearchAvailability)
    → is_fully_ready init_error ready_event_set status indices_queryable availability ≡ true
    → (can_serve_queries init_error ready_event_set is_virgin_startup indices_queryable availability
        ≡ true)
      × (can_refresh_loaded_indices ready_event_set init_error ≡ true)
unfolding is_fully_ready can_serve_queries can_refresh_loaded_indices
can_serve_queries-is_fully_ready true set virgin queryable status a h = absurd (ground arith)
can_serve_queries-is_fully_ready false false virgin queryable status a h = absurd (ground arith)
can_serve_queries-is_fully_ready false true virgin false status a h = absurd (ground arith)
can_serve_queries-is_fully_ready false true virgin true status a h =
    let r : unless_given a availability_ready ≡ true = ground arith in
    rw (availability_serves_lem a r) (refl, refl)
