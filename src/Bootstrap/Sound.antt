-- ===== src/Bootstrap/Sound.antt =====
-- When a checkpoint of indexing/bootstrap_checkpoint.py is sound, and lemmas on the parts of its calls.
use andnp_searchkernel.Prelude.{
  ◌≡◌, refl, Bool, true, ◌==◌, Bool-cases, inl, inr, Option, none, some, String, List, [], ◌∷◌,
  length, arith,
}
use andnp_searchkernel.Dict.{string_discrete, Absent, Distinct}
use andnp_searchkernel.Dict.Keys.{Within, assign-Distinct}
use andnp_searchkernel.Bootstrap.Records.{
  BootstrapFileStamp, File, FileSystem, find_path, stamps_from, stamp_of, add_stamp,
}
use andnp_searchkernel.Bootstrap.Checkpoint.{still_valid, valid_completed}

abbrev pub Stamps : Type 0
Stamps = List (String × BootstrapFileStamp)

-- One entry for a target and for a completed file, only targets completed, and complete exactly if as
-- many files are completed as there are targets.
abbrev pub FilesSound : Bool → Stamps → Stamps → Type 0
FilesSound complete targets completed =
    Distinct string_discrete targets
    × Distinct string_discrete completed
    × Within string_discrete completed targets
    × (complete ≡ (length completed == length targets))

abbrev pub IsSound : File → Type 0
IsSound none = Unit
IsSound (some c) = FilesSound c.complete c.targets c.completed

pub stamps_from-Distinct :
    (fs : FileSystem) (files : List String) (stamps : Stamps)
    → Distinct string_discrete stamps
    → Distinct string_discrete (stamps_from fs files stamps)
unfolding stamps_from
stamps_from-Distinct fs [] stamps h = h
stamps_from-Distinct fs (file ∷ files) stamps h =
    stamps_from-Distinct fs files _ (add (stamp_of (fs.relative_path_for file) (fs.stat file)))
  where
    add : (s : Option BootstrapFileStamp) → Distinct string_discrete (add_stamp s stamps)
    add none = h
    add (some s) = assign-Distinct string_discrete s.relative_path s stamps h

still_valid_lem :
    (stamp : BootstrapFileStamp) (target : Option BootstrapFileStamp)
    → still_valid stamp target ≡ true
    → (t : BootstrapFileStamp) × (target ≡ some t)
still_valid_lem stamp none h = absurd (ground arith)
still_valid_lem stamp (some t) h = (t, refl)

pub valid_completed-Within :
    (targets completed : Stamps)
    → Within string_discrete (valid_completed targets completed) targets
unfolding valid_completed
valid_completed-Within targets [] = tt
valid_completed-Within targets ((path, stamp) ∷ completed) =
    elim (Bool-cases (still_valid stamp (find_path path targets))) [
      | inl y ↦ rw y (still_valid_lem stamp _ y, valid_completed-Within targets completed)
      | inr n ↦ rw n (valid_completed-Within targets completed)
    ]

pub Absent-valid_completed :
    (path : String) (targets completed : Stamps)
    → Absent string_discrete path completed
    → Absent string_discrete path (valid_completed targets completed)
unfolding valid_completed
Absent-valid_completed path targets [] a = tt
Absent-valid_completed path targets ((p, stamp) ∷ completed) a =
    elim (Bool-cases (still_valid stamp (find_path p targets))) [
      | inl y ↦ rw y (a.0, Absent-valid_completed path targets completed a.1)
      | inr n ↦ rw n (Absent-valid_completed path targets completed a.1)
    ]

pub valid_completed-Distinct :
    (targets completed : Stamps)
    → Distinct string_discrete completed
    → Distinct string_discrete (valid_completed targets completed)
unfolding valid_completed
valid_completed-Distinct targets [] a = tt
valid_completed-Distinct targets ((p, stamp) ∷ completed) a =
    elim (Bool-cases (still_valid stamp (find_path p targets))) [
      | inl y ↦ rw y (
        Absent-valid_completed p targets completed a.0,
        valid_completed-Distinct targets completed a.1,
      )
      | inr n ↦ rw n (valid_completed-Distinct targets completed a.1)
    ]
