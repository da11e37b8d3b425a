-- ===== src/Bootstrap/Records.antt =====
-- The data of indexing/bootstrap_checkpoint.py, and `build_file_stamps`. The checkpoint file is `File`:
-- no checkpoint where the file is missing or cannot be read, and else the one that was saved; JSON and the atomic write are not
-- modelled. What a call finds on the file system, below the configured roots, is its argument `fs`.
use andnp_searchkernel.Prelude.{
  ℕ, Bool, true, false, not, ◌&&◌, ◌==◌, Option, none, some, is_some, String, str_eq, List, [], ◌∷◌,
  length,
}
use andnp_searchkernel.Dict.{find, assign, string_discrete}
use andnp_searchkernel.Bootstrap.Readiness.{ReadinessStage, SearchAvailability, stage_word}

pub record BootstrapFileStamp : Type 0 where
  pub relative_path : String
  pub mtime_ns : ℕ
  pub size : ℕ

-- `BootstrapFileStamp.matches`.
unfoldable pub matches : BootstrapFileStamp → BootstrapFileStamp → Bool
matches a b = a.mtime_ns == b.mtime_ns && a.size == b.size

pub record BootstrapCheckpoint : Type 0 where
  pub schema_version : String
  pub generation : String
  pub complete : Bool
  pub targets : List (String × BootstrapFileStamp)
  pub completed : List (String × BootstrapFileStamp)
  pub semantic_encoder_namespace : Option String
  pub semantic_completed : List (String × Bool)
  pub availability : Option SearchAvailability

abbrev pub File : Type 0
File = Option BootstrapCheckpoint

-- The path below the common root, and the time and size that `stat` gives, where it does not fail.
pub record FileSystem : Type 0 where
  pub relative_path_for : String → Option String
  pub stat : String → Option (ℕ × ℕ)

abbrev pub current_version : String
current_version = "1.0.0"

abbrev pub find_path : {V : Type 0} → String → List (String × V) → Option V
find_path = find string_discrete

abbrev pub has_path : {V : Type 0} → String → List (String × V) → Bool
has_path p d = is_some (find_path p d)

-- Python's equality of dictionaries, which forgets the order.
abbrev pub same_in : {V : Type 0} → (V → V → Bool) → V → Option V → Bool
same_in eq v none = false
same_in eq v (some w) = eq v w

unfoldable pub within_eq :
    {V : Type 0} → (V → V → Bool) → List (String × V) → List (String × V) → Bool
within_eq eq [] e = true
within_eq eq ((k, v) ∷ d) e = same_in eq v (find_path k e) && within_eq eq d e

abbrev pub dict_eq : {V : Type 0} → (V → V → Bool) → List (String × V) → List (String × V) → Bool
dict_eq eq d e = length d == length e && within_eq eq d e

abbrev pub option_eq : {V : Type 0} → (V → V → Bool) → Option V → Option V → Bool
option_eq eq none none = true
option_eq eq (some v) (some w) = eq v w
option_eq eq _ _ = false

abbrev pub bool_eq : Bool → Bool → Bool
bool_eq true b = b
bool_eq false b = not b

abbrev pub stamp_eq : BootstrapFileStamp → BootstrapFileStamp → Bool
stamp_eq a b =
    str_eq a.relative_path b.relative_path && a.mtime_ns == b.mtime_ns && a.size == b.size

abbrev pub stage_eq : ReadinessStage → ReadinessStage → Bool
stage_eq s t = str_eq (stage_word s) (stage_word t)

abbrev pub availability_eq : SearchAvailability → SearchAvailability → Bool
availability_eq a b =
    stage_eq a.lexical b.lexical
    && stage_eq a.graph b.graph
    && stage_eq a.semantic_coarse b.semantic_coarse
    && stage_eq a.semantic_fine b.semantic_fine

abbrev pub checkpoint_eq : BootstrapCheckpoint → BootstrapCheckpoint → Bool
checkpoint_eq a b =
    str_eq a.schema_version b.schema_version
    && str_eq a.generation b.generation
    && bool_eq a.complete b.complete
    && dict_eq stamp_eq a.targets b.targets
    && dict_eq stamp_eq a.completed b.completed
    && option_eq str_eq a.semantic_encoder_namespace b.semantic_encoder_namespace
    && dict_eq bool_eq a.semantic_completed b.semantic_completed
    && option_eq availability_eq a.availability b.availability

abbrev pub stamp_of : Option String → Option (ℕ × ℕ) → Option BootstrapFileStamp
stamp_of (some path) (some (mtime, bytes)) =
    some record { relative_path = path; mtime_ns = mtime; size = bytes }
stamp_of _ _ = none

abbrev pub add_stamp :
    Option BootstrapFileStamp
    → List (String × BootstrapFileStamp)
    → List (String × BootstrapFileStamp)
add_stamp none stamps = stamps
add_stamp (some stamp) stamps = assign string_discrete stamp.relative_path stamp stamps

-- The loop of `build_file_stamps`, with the stamps that it has.
unfoldable pub stamps_from :
    FileSystem
    → List String
    → List (String × BootstrapFileStamp)
    → List (String × BootstrapFileStamp)
stamps_from fs [] stamps = stamps
stamps_from fs (file ∷ files) stamps =
    stamps_from fs files (add_stamp (stamp_of (fs.relative_path_for file) (fs.stat file)) stamps)

unfoldable pub build_file_stamps : FileSystem → List String → List (String × BootstrapFileStamp)
build_file_stamps fs files = stamps_from fs files []
