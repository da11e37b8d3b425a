-- ===== src/Bootstrap/Calls.antt =====
-- The calls of indexing/bootstrap_checkpoint.py in sequence.
use andnp_searchkernel.Prelude.{
  ℕ, ◌≡◌, refl, sym, ◌∙◌, true, ◌==◌, ==_iff, Bool-cases, inl, inr, none, some, String, str_eq,
  List, [], ◌∷◌, length, arith,
}
use andnp_searchkernel.Dict.{assign, string_discrete, Distinct}
use andnp_searchkernel.Dict.Keys.{Has, Has-Within}
use andnp_searchkernel.Bootstrap.Records.{
  BootstrapCheckpoint, File, FileSystem, has_path, checkpoint_eq, option_eq, availability_eq,
  build_file_stamps,
}
use andnp_searchkernel.Bootstrap.Readiness.{SearchAvailability}
use andnp_searchkernel.Bootstrap.Checkpoint.{
  valid_completed, with_files, save_if_changed, prepare_bootstrap_checkpoint, mark_stamp,
  mark_bootstrap_file_completed, mark_stamps, mark_bootstrap_files_completed,
}
use andnp_searchkernel.Bootstrap.Semantic.{
  is_other, publish_bootstrap_availability, mark_semantic_work_completed,
}
use andnp_searchkernel.Bootstrap.Sound.{
  Stamps, IsSound, stamps_from-Distinct, valid_completed-Within, valid_completed-Distinct,
}
use andnp_searchkernel.Bootstrap.Marks.{
  assigned-Sound, has_path_lem, mark_stamps-Sound, begin_marks, begin_marks-Sound,
}

save_if_changed-IsSound :
    (updated c : BootstrapCheckpoint)
    → IsSound (some updated)
    → IsSound (some c)
    → IsSound (save_if_changed updated c).1
save_if_changed-IsSound updated c h k = elim (Bool-cases (checkpoint_eq updated c)) [
  | inl same ↦ rw same k
  | inr new ↦ rw new h
]

==_zero : (n : ℕ) → (n == 0) ≡ (0 == n)
==_zero n = ground arith

pub prepare-IsSound :
    (generation : String) (targets : Stamps) (file : File)
    → Distinct string_discrete targets
    → IsSound file
    → IsSound (prepare_bootstrap_checkpoint generation targets file).1
unfolding prepare_bootstrap_checkpoint
prepare-IsSound generation targets none d h = (d, tt, tt, ==_zero (length targets))
prepare-IsSound generation targets (some c) d h =
    elim (Bool-cases (str_eq c.generation generation)) [
      | inr other ↦ rw other (d, tt, tt, ==_zero (length targets))
      | inl same ↦ rw same (
          save_if_changed-IsSound (with_files targets (valid_completed targets c.completed) c) c
            (
              d,
              valid_completed-Distinct targets c.completed h.1,
              valid_completed-Within targets c.completed,
              refl,
            )
            h)
    ]

mark_stamp-IsSound :
    (stamps : Stamps) (c : BootstrapCheckpoint) → IsSound (some c) → IsSound (mark_stamp stamps c).1
mark_stamp-IsSound [] c h = h
mark_stamp-IsSound ((path, stamp) ∷ stamps) c h =
    elim (Bool-cases (has_path stamp.relative_path c.targets)) [
      | inr n ↦ rw n h
      | inl y ↦
          let a =
            assigned-Sound stamp.relative_path stamp c.targets (begin_marks c)
              (has_path_lem stamp.relative_path _ y) (begin_marks-Sound c h) in
          rw y (save_if_changed-IsSound _ c (a.0, a.1, a.2, refl) h)
    ]

mark_many-IsSound :
    (fs : FileSystem) (files : List String) (file : File)
    → IsSound file
    → IsSound (mark_bootstrap_files_completed fs files file).1
unfolding mark_bootstrap_files_completed
mark_many-IsSound fs files none h = tt
mark_many-IsSound fs files (some c) h =
    let a =
      mark_stamps-Sound c.targets (build_file_stamps fs files) (begin_marks c)
        (begin_marks-Sound c h) in
    elim (Bool-cases
      ((mark_stamps c.targets (build_file_stamps fs files) (begin_marks c)).changed == 0)) [
        | inl none_ ↦ rw none_ h
        | inr some_ ↦ rw some_ (a.0, a.1, a.2, refl)
      ]

publish-IsSound :
    (availability : SearchAvailability) (file : File)
    → IsSound file
    → IsSound (publish_bootstrap_availability availability file).1
unfolding publish_bootstrap_availability
publish-IsSound availability none h = tt
publish-IsSound availability (some c) h =
    elim (Bool-cases (option_eq availability_eq c.availability (some availability))) [
      | inl same ↦ rw same h
      | inr new ↦ rw new h
    ]

semantic-IsSound :
    (ns path : String) (file : File)
    → IsSound file
    → IsSound (mark_semantic_work_completed ns path file).1
unfolding mark_semantic_work_completed
semantic-IsSound ns path none h = tt
semantic-IsSound ns path (some c) h = elim (Bool-cases (is_other ns c.semantic_encoder_namespace)) [
  | inl other ↦ rw other h
  | inr same ↦ rw same (elim (Bool-cases (has_path path c.targets)) [
    | inl y ↦ rw y (
        save_if_changed-IsSound
          (record c {
            semantic_encoder_namespace = some ns;
            semantic_completed = assign string_discrete path true c.semantic_completed;
          })
          c h h)
    | inr n ↦ rw n h
  ])
]

-- The calls that write the checkpoint. `prepare_bootstrap_checkpoint` is given the stamps that
-- `build_file_stamps` made of the target files.
pub data Call : Type 0 where
  prepare : String → FileSystem → List String → Call
  mark_file : FileSystem → String → Call
  mark_files : FileSystem → List String → Call
  mark_semantic : String → String → Call
  publish : SearchAvailability → Call

abbrev pub after : Call → File → File
after (prepare generation fs files) file =
    (prepare_bootstrap_checkpoint generation (build_file_stamps fs files) file).1
after (mark_file fs path) file = (mark_bootstrap_file_completed fs path file).1
after (mark_files fs files) file = (mark_bootstrap_files_completed fs files file).1
after (mark_semantic ns path) file = (mark_semantic_work_completed ns path file).1
after (publish availability) file = (publish_bootstrap_availability availability file).1

abbrev pub after_all : List Call → File → File
after_all [] file = file
after_all (call ∷ calls) file = after_all calls (after call file)

mark_file-IsSound :
    (fs : FileSystem) (path : String) (file : File)
    → IsSound file
    → IsSound (mark_bootstrap_file_completed fs path file).1
unfolding mark_bootstrap_file_completed
mark_file-IsSound fs path none h = tt
mark_file-IsSound fs path (some c) h = mark_stamp-IsSound (build_file_stamps fs (path ∷ [])) c h

after-IsSound : (call : Call) (file : File) → IsSound file → IsSound (after call file)
unfolding build_file_stamps
after-IsSound (prepare generation fs files) file h =
    prepare-IsSound generation _ file (stamps_from-Distinct fs files [] tt) h
after-IsSound (mark_file fs path) file h = mark_file-IsSound fs path file h
after-IsSound (mark_files fs files) file h = mark_many-IsSound fs files file h
after-IsSound (mark_semantic ns path) file h = semantic-IsSound ns path file h
after-IsSound (publish availability) file h = publish-IsSound availability file h

pub after_all-IsSound :
    (calls : List Call) (file : File) → IsSound file → IsSound (after_all calls file)
after_all-IsSound [] file h = h
after_all-IsSound (call ∷ calls) file h =
    after_all-IsSound calls (after call file) (after-IsSound call file h)

-- Whatever calls were made since there was no checkpoint, and whatever they found on the file system: a
-- checkpoint that says that it is complete has a completed stamp for every one of its targets.
pub after_all-complete :
    (calls : List Call) (c : BootstrapCheckpoint) (path : String)
    → after_all calls none ≡ some c
    → c.complete ≡ true
    → Has string_discrete path c.targets
    → Has string_discrete path c.completed
after_all-complete calls c path e done has =
    let h : IsSound (some c) = rw e at (after_all-IsSound calls none tt) in
    let same : length c.completed ≡ length c.targets = (==_iff _ _).0 (sym h.3 ∙ done) in
    Has-Within string_discrete c.completed c.targets path h.1 h.2 same has
