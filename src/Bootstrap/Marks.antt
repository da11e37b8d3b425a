-- ===== src/Bootstrap/Marks.antt =====
-- What the loop of `mark_bootstrap_files_completed` (indexing/bootstrap_checkpoint.py) keeps.
use andnp_searchkernel.Prelude.{
  ◌+◌, ◌≡◌, refl, true, Bool-cases, inl, inr, Option, none, some, is_some, String, [], ◌∷◌, arith,
}
use andnp_searchkernel.Dict.{assign, string_discrete, Distinct}
use andnp_searchkernel.Dict.Keys.{
  Has, Within, assign-Distinct, Has-assign, Within-assign_right, Within-assign_left,
}
use andnp_searchkernel.Bootstrap.Records.{
  BootstrapFileStamp, BootstrapCheckpoint, find_path, has_path, same_in, stamp_eq,
}
use andnp_searchkernel.Bootstrap.Checkpoint.{Marks, mark_one, mark_stamps}
use andnp_searchkernel.Bootstrap.Sound.{Stamps, IsSound}

-- What the loop of `mark_bootstrap_files_completed` keeps, from the targets that it began with.
abbrev pub MarksSound : Stamps → Marks → Type 0
MarksSound targets m =
    Distinct string_discrete m.updated_targets
    × Distinct string_discrete m.updated_completed
    × Within string_discrete m.updated_completed m.updated_targets
    × ((path : String)
        → Has string_discrete path targets
        → Has string_discrete path m.updated_targets)

pub assigned-Sound :
    (path : String) (stamp : BootstrapFileStamp) (targets : Stamps) (m : Marks)
    → Has string_discrete path targets
    → MarksSound targets m
    → MarksSound targets (record {
      updated_targets = assign string_discrete path stamp m.updated_targets;
      updated_completed = assign string_discrete path stamp m.updated_completed;
      changed = m.changed + 1;
    })
assigned-Sound path stamp targets m has h =
    let there = Has-assign string_discrete path path stamp m.updated_targets (h.3 path has) in
    (
      assign-Distinct string_discrete path stamp m.updated_targets h.0,
      assign-Distinct string_discrete path stamp m.updated_completed h.1,
      Within-assign_left string_discrete path stamp m.updated_completed _ there (
          Within-assign_right string_discrete path stamp m.updated_completed m.updated_targets h.2),
      λ p k. Has-assign string_discrete p path stamp m.updated_targets (h.3 p k),
    )

pub has_path_lem :
    (path : String) (o : Option BootstrapFileStamp)
    → is_some o ≡ true
    → (t : BootstrapFileStamp) × (o ≡ some t)
has_path_lem path none h = absurd (ground arith)
has_path_lem path (some t) h = (t, refl)

mark_one-Sound :
    (targets : Stamps) (path : String) (stamp : BootstrapFileStamp) (m : Marks)
    → MarksSound targets m
    → MarksSound targets (mark_one targets path stamp m)
mark_one-Sound targets path stamp m h = elim (Bool-cases (has_path path targets)) [
  | inr n ↦ rw n h
  | inl y ↦ rw y (elim (Bool-cases (same_in stamp_eq stamp (find_path path m.updated_completed))) [
    | inl same ↦ rw same h
    | inr new ↦ rw new (assigned-Sound path stamp targets m (has_path_lem path _ y) h)
  ])
]

pub mark_stamps-Sound :
    (targets stamps : Stamps) (m : Marks)
    → MarksSound targets m
    → MarksSound targets (mark_stamps targets stamps m)
unfolding mark_stamps
mark_stamps-Sound targets [] m h = h
mark_stamps-Sound targets ((path, stamp) ∷ stamps) m h =
    mark_stamps-Sound targets stamps (mark_one targets path stamp m)
      (mark_one-Sound targets path stamp m h)

abbrev pub begin_marks : BootstrapCheckpoint → Marks
begin_marks c = record { updated_targets = c.targets; updated_completed = c.completed; changed = 0 }

pub begin_marks-Sound :
    (c : BootstrapCheckpoint) → IsSound (some c) → MarksSound c.targets (begin_marks c)
begin_marks-Sound c h = (h.0, h.1, h.2, λ p k. k)
