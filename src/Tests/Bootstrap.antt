-- ===== src/Tests/Bootstrap.antt =====
-- A first build of two files, and the theorems about readiness and the checkpoint at it.
use andnp_searchkernel.Prelude.{◌≡◌, refl, true, none, some, String, List, [], ◌∷◌}
use andnp_searchkernel.Dict.{find, assign, apart, string_discrete}
use andnp_searchkernel.Dict.Keys.{Has}
use andnp_searchkernel.Bootstrap.Records.{
  matches, BootstrapFileStamp, BootstrapCheckpoint, FileSystem, find_path, stamps_from,
  build_file_stamps, within_eq,
}
use andnp_searchkernel.Bootstrap.Checkpoint.{
  fresh_checkpoint, with_files, prepare_bootstrap_checkpoint, mark_bootstrap_file_completed,
  mark_bootstrap_files_completed, mark_stamps,
}
use andnp_searchkernel.Bootstrap.Semantic.{
  mark_semantic_work_completed, get_semantic_completion_status,
}
use andnp_searchkernel.Bootstrap.Calls.{
  Call, prepare, mark_file, mark_files, after_all-IsSound, after_all-complete,
}
use andnp_searchkernel.Bootstrap.Sound.{IsSound}
use andnp_searchkernel.Bootstrap.Resume.{prepare-completed, prepare-semantic, status-mark_semantic}

-- Every file is there, under its own name, as it was at the time 5.
abbrev disk : FileSystem
disk = record { relative_path_for = λ p. some p; stat = λ p. some (5, 9) }

abbrev stamp : String → BootstrapFileStamp
stamp p = record { relative_path = p; mtime_ns = 5; size = 9 }

abbrev two_files : List (String × BootstrapFileStamp)
two_files = ("a", stamp "a") ∷ ("b", stamp "b") ∷ []

abbrev calls : List Call
calls = prepare "g" disk ("a" ∷ "b" ∷ []) ∷ mark_file disk "b" ∷ mark_files disk ("a" ∷ []) ∷ []

abbrev built : BootstrapCheckpoint
built =
    with_files two_files (("b", stamp "b") ∷ ("a", stamp "a") ∷ []) (fresh_checkpoint "g" two_files)

built-IsSound : IsSound (some built)
unfolding prepare_bootstrap_checkpoint mark_bootstrap_file_completed mark_bootstrap_files_completed
    mark_stamps build_file_stamps stamps_from find assign string_discrete within_eq
built-IsSound = after_all-IsSound calls none tt

after_all-complete_example : Has string_discrete "a" built.completed
unfolding prepare_bootstrap_checkpoint mark_bootstrap_file_completed mark_bootstrap_files_completed
    mark_stamps build_file_stamps stamps_from find assign string_discrete within_eq
after_all-complete_example = after_all-complete calls built "a" refl refl (stamp "a", refl)

-- The file `b` was changed since.
abbrev new_targets : List (String × BootstrapFileStamp)
new_targets = ("a", stamp "a") ∷ ("b", record (stamp "b") { mtime_ns = 6 }) ∷ []

prepare-completed_example :
    find_path "b" (prepare_bootstrap_checkpoint "g" new_targets (some built)).0.completed ≡ none
unfolding find string_discrete matches
prepare-completed_example = prepare-completed "g" "b" new_targets built built-IsSound

-- The file `b` was embedded before it changed.
abbrev embedded : BootstrapCheckpoint
embedded = record built {
  semantic_encoder_namespace = some "e";
  semantic_completed = ("b", true) ∷ [];
}

prepare-semantic_example :
    get_semantic_completion_status "e"
      (prepare_bootstrap_checkpoint "g" new_targets (some embedded)).1
    ≡ ("b", true) ∷ []
unfolding get_semantic_completion_status
prepare-semantic_example = prepare-semantic "g" "e" new_targets embedded refl

status-mark_semantic_example :
    (find_path "b" (get_semantic_completion_status "e" (some embedded)) ≡ some true)
    × (get_semantic_completion_status "f" (some embedded) ≡ [])
unfolding mark_semantic_work_completed find assign string_discrete within_eq
status-mark_semantic_example =
    status-mark_semantic "e" "f" "b" (some built) (some embedded) refl (apart "f" "e" refl)
