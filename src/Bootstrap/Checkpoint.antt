-- ===== src/Bootstrap/Checkpoint.antt =====
-- The calls of indexing/bootstrap_checkpoint.py that keep which files are completed.
use andnp_searchkernel.Prelude.{
  ℕ, ◌+◌, Bool, true, false, not, ◌&&◌, ◌==◌, Option, none, some, String, str_eq, List, [], ◌∷◌,
  length, if◌then◌else◌,
}
use andnp_searchkernel.Dict.{assign, string_discrete}
use andnp_searchkernel.Bootstrap.Records.{
  BootstrapFileStamp, matches, BootstrapCheckpoint, File, FileSystem, current_version, find_path,
  has_path, same_in, stamp_eq, checkpoint_eq, build_file_stamps,
}

-- A completed file counts while it is a target and its stamp is still the target's.
abbrev pub still_valid : BootstrapFileStamp → Option BootstrapFileStamp → Bool
still_valid stamp none = false
still_valid stamp (some target) = matches stamp target

-- `valid_completed` of `prepare_bootstrap_checkpoint`.
unfoldable pub valid_completed :
    List (String × BootstrapFileStamp)
    → List (String × BootstrapFileStamp)
    → List (String × BootstrapFileStamp)
valid_completed targets [] = []
valid_completed targets ((path, stamp) ∷ completed) =
    let rest = valid_completed targets completed in
    if still_valid stamp (find_path path targets) then (path, stamp) ∷ rest else rest

abbrev pub fresh_checkpoint : String → List (String × BootstrapFileStamp) → BootstrapCheckpoint
fresh_checkpoint generation targets = record {
  schema_version = current_version;
  generation = generation;
  complete = length targets == 0;
  targets = targets;
  completed = [];
  semantic_encoder_namespace = none;
  semantic_completed = [];
  availability = none;
}

-- The checkpoint with other targets and completed files, as `prepare_` and `mark_…` write it.
abbrev pub with_files :
    List (String × BootstrapFileStamp)
    → List (String × BootstrapFileStamp)
    → BootstrapCheckpoint
    → BootstrapCheckpoint
with_files targets completed c = record c {
  schema_version = current_version;
  complete = length completed == length targets;
  targets = targets;
  completed = completed;
}

-- `if updated != checkpoint: save`, and whether it saved.
abbrev pub save_if_changed : BootstrapCheckpoint → BootstrapCheckpoint → Bool × File
save_if_changed updated c =
    if checkpoint_eq updated c then (false, some c) else (true, some updated)

-- `prepare_bootstrap_checkpoint`: what it returns, and the file.
unfoldable pub prepare_bootstrap_checkpoint :
    String → List (String × BootstrapFileStamp) → File → BootstrapCheckpoint × File
prepare_bootstrap_checkpoint generation targets none =
    (fresh_checkpoint generation targets, some (fresh_checkpoint generation targets))
prepare_bootstrap_checkpoint generation targets (some c) =
    let updated = with_files targets (valid_completed targets c.completed) c in
    if str_eq c.generation generation
    then (updated, (save_if_changed updated c).1)
    else (fresh_checkpoint generation targets, some (fresh_checkpoint generation targets))

-- `mark_bootstrap_file_completed`, of the file's stamp.
abbrev pub mark_stamp : List (String × BootstrapFileStamp) → BootstrapCheckpoint → Bool × File
mark_stamp [] c = (false, some c)
mark_stamp ((path, stamp) ∷ stamps) c =
    if has_path stamp.relative_path c.targets
    then save_if_changed
        (with_files (assign string_discrete stamp.relative_path stamp c.targets)
          (assign string_discrete stamp.relative_path stamp c.completed) c)
        c
    else (false, some c)

unfoldable pub mark_bootstrap_file_completed : FileSystem → String → File → Bool × File
mark_bootstrap_file_completed fs file none = (false, none)
mark_bootstrap_file_completed fs file (some c) = mark_stamp (build_file_stamps fs (file ∷ [])) c

-- `updated_targets`, `updated_completed` and `changed` of `mark_bootstrap_files_completed`.
pub record Marks : Type 0 where
  pub updated_targets : List (String × BootstrapFileStamp)
  pub updated_completed : List (String × BootstrapFileStamp)
  pub changed : ℕ

abbrev pub mark_one :
    List (String × BootstrapFileStamp) → String → BootstrapFileStamp → Marks → Marks
mark_one targets path stamp m =
    if not (has_path path targets)
    then m
    else if same_in stamp_eq stamp (find_path path m.updated_completed)
    then m
    else record {
      updated_targets = assign string_discrete path stamp m.updated_targets;
      updated_completed = assign string_discrete path stamp m.updated_completed;
      changed = m.changed + 1;
    }

unfoldable pub mark_stamps :
    List (String × BootstrapFileStamp) → List (String × BootstrapFileStamp) → Marks → Marks
mark_stamps targets [] m = m
mark_stamps targets ((path, stamp) ∷ stamps) m =
    mark_stamps targets stamps (mark_one targets path stamp m)

unfoldable pub mark_bootstrap_files_completed : FileSystem → List String → File → ℕ × File
mark_bootstrap_files_completed fs files none = (0, none)
mark_bootstrap_files_completed fs files (some c) =
    let m =
      mark_stamps c.targets (build_file_stamps fs files)
        (record { updated_targets = c.targets; updated_completed = c.completed; changed = 0 }) in
    if m.changed == 0
    then (0, some c)
    else (m.changed, some (with_files m.updated_targets m.updated_completed c))

unfoldable pub has_incomplete_bootstrap_checkpoint : File → Bool
has_incomplete_bootstrap_checkpoint none = false
has_incomplete_bootstrap_checkpoint (some c) = not c.complete && not (length c.targets == 0)
