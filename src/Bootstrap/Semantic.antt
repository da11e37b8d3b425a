-- ===== src/Bootstrap/Semantic.antt =====
-- The calls of indexing/bootstrap_checkpoint.py that keep the semantic progress and the availability.
use andnp_searchkernel.Prelude.{
  Bool, true, false, not, Option, none, some, String, str_eq, List, [], ◌∷◌, if◌then◌else◌,
}
use andnp_searchkernel.Dict.{assign, string_discrete}
use andnp_searchkernel.Bootstrap.Readiness.{SearchAvailability}
use andnp_searchkernel.Bootstrap.Records.{File, has_path, option_eq, availability_eq}
use andnp_searchkernel.Bootstrap.Checkpoint.{save_if_changed}

-- `publish_bootstrap_availability`.
unfoldable pub publish_bootstrap_availability : SearchAvailability → File → Bool × File
publish_bootstrap_availability availability none = (false, none)
publish_bootstrap_availability availability (some c) =
    if option_eq availability_eq c.availability (some availability)
    then (false, some c)
    else (true, some (record c { availability = some availability }))

abbrev availability_of : File → Option SearchAvailability
availability_of none = none
availability_of (some c) = c.availability

unfoldable pub get_bootstrap_availability : File → Option SearchAvailability
get_bootstrap_availability file = availability_of file

-- Another encoder's progress is there.
abbrev pub is_other : String → Option String → Bool
is_other ns none = false
is_other ns (some old) = not (str_eq old ns)

-- `mark_semantic_work_completed`.
unfoldable pub mark_semantic_work_completed : String → String → File → Bool × File
mark_semantic_work_completed ns path none = (false, none)
mark_semantic_work_completed ns path (some c) =
    if is_other ns c.semantic_encoder_namespace
    then (
      true,
      some (record c {
        semantic_encoder_namespace = some ns;
        semantic_completed = (path, true) ∷ [];
      }),
    )
    else if not (has_path path c.targets)
    then (false, some c)
    else save_if_changed
        (record c {
          semantic_encoder_namespace = some ns;
          semantic_completed = assign string_discrete path true c.semantic_completed;
        })
        c

abbrev pub is_same : String → Option String → Bool
is_same ns none = false
is_same ns (some old) = str_eq old ns

-- `get_semantic_completion_status`.
unfoldable pub get_semantic_completion_status : String → File → List (String × Bool)
get_semantic_completion_status ns none = []
get_semantic_completion_status ns (some c) =
    if is_same ns c.semantic_encoder_namespace then c.semantic_completed else []
