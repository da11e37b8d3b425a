-- ===== src/Bootstrap/Resume.antt =====
-- What a server that starts again finds done: the calls of indexing/bootstrap_checkpoint.py after each
-- other.
use andnp_searchkernel.Prelude.{
  ◌==◌, arith, ◌≡◌, ◌≢◌, refl, sym, ap, ◌∙◌, true, Bool-cases, inl, inr, Option, none, some, String,
  str_eq, [], ◌∷◌, if◌then◌else◌, arith,
}
use andnp_searchkernel.Dict.{
  find, assign, find-assign, find-Absent, find-cons_self, find-cons_ne, str_eq_self, str_eq_ne,
  string_discrete, Distinct,
}
use andnp_searchkernel.Bootstrap.Records.{
  BootstrapFileStamp, matches, BootstrapCheckpoint, File, find_path, has_path, checkpoint_eq,
}
use andnp_searchkernel.Bootstrap.Checkpoint.{
  still_valid, valid_completed, with_files, save_if_changed, prepare_bootstrap_checkpoint,
}
use andnp_searchkernel.Bootstrap.Semantic.{
  is_other, mark_semantic_work_completed, get_semantic_completion_status,
}
use andnp_searchkernel.Bootstrap.Sound.{Stamps, IsSound, Absent-valid_completed}

-- The stamp of a completed file, if the file is a target with the same time and size.
abbrev pub resumed :
    Option BootstrapFileStamp → Option BootstrapFileStamp → Option BootstrapFileStamp
resumed none target = none
resumed (some stamp) none = none
resumed (some stamp) (some target) =
    if stamp.mtime_ns == target.mtime_ns
    then if stamp.size == target.size then some stamp else none
    else none

abbrev kept_stamp :
    Option BootstrapFileStamp → Option BootstrapFileStamp → Option BootstrapFileStamp
kept_stamp none target = none
kept_stamp (some stamp) target = if still_valid stamp target then some stamp else none

kept_stamp_lem :
    (stamp target : Option BootstrapFileStamp) → kept_stamp stamp target ≡ resumed stamp target
unfolding matches
kept_stamp_lem none target = refl
kept_stamp_lem (some stamp) none = refl
kept_stamp_lem (some stamp) (some target) = ground arith

find-valid_completed :
    (path : String) (targets completed : Stamps)
    → Distinct string_discrete completed
    → find_path path (valid_completed targets completed)
      ≡ kept_stamp (find_path path completed) (find_path path targets)
unfolding valid_completed
find-valid_completed path targets [] d =
    find-Absent string_discrete path [] tt
    ∙ ap (λ o. kept_stamp o (find_path path targets)) (sym (find-Absent string_discrete path [] tt))
find-valid_completed path targets ((q, stamp) ∷ completed) d =
    let rest = valid_completed targets completed in
    elim (string_discrete q path) [
      | no n ↦ elim (Bool-cases (still_valid stamp (find_path q targets))) [
        | inl y ↦
            rw
              (
                y,
                find-cons_ne string_discrete path q stamp rest n,
                find-cons_ne string_discrete path q stamp completed n,
              )
              (find-valid_completed path targets completed d.1)
        | inr z ↦
            rw (z, find-cons_ne string_discrete path q stamp completed n)
              (find-valid_completed path targets completed d.1)
      ]
      | yes p ↦ elim (Bool-cases (still_valid stamp (find_path path targets))) [
        | inl y ↦ rw (
          p,
          y,
          find-cons_self string_discrete path stamp rest,
          find-cons_self string_discrete path stamp completed,
          y,
        )
        | inr z ↦
            let gone =
              find-Absent string_discrete path _
                (Absent-valid_completed path targets completed (rw p at d.0)) in
            rw (p, z, find-cons_self string_discrete path stamp completed, z) gone
      ]
    ]

-- A server that starts again on a sound checkpoint of the same generation finds a file completed exactly
-- if it was completed before, with the stamp it had, and the file is a target whose time and size are
-- still those of that stamp. On a checkpoint of another generation it finds none completed.
pub prepare-completed :
    (generation path : String) (targets : Stamps) (c : BootstrapCheckpoint)
    → IsSound (some c)
    → find_path path (prepare_bootstrap_checkpoint generation targets (some c)).0.completed ≡ (
        if str_eq c.generation generation
        then resumed (find_path path c.completed) (find_path path targets)
        else none)
unfolding prepare_bootstrap_checkpoint find
prepare-completed generation path targets c h = elim (Bool-cases (str_eq c.generation generation)) [
  | inl same ↦ rw same (find-valid_completed path targets c.completed h.1 ∙ kept_stamp_lem _ _)
  | inr other ↦ rw other
]

-- A server that starts again on a checkpoint of the same generation reports the same semantic work as
-- done, whichever files have changed since.
pub prepare-semantic :
    (generation ns : String) (targets : Stamps) (c : BootstrapCheckpoint)
    → str_eq c.generation generation ≡ true
    → get_semantic_completion_status ns (prepare_bootstrap_checkpoint generation targets (some c)).1
      ≡ get_semantic_completion_status ns (some c)
unfolding prepare_bootstrap_checkpoint get_semantic_completion_status
prepare-semantic generation ns targets c e =
    rw e
      (elim (Bool-cases
        (checkpoint_eq (with_files targets (valid_completed targets c.completed) c) c)) [
          | inl same ↦ rw same
          | inr new ↦ rw new
        ])

saved :
    (updated c : BootstrapCheckpoint) (marked : File)
    → save_if_changed updated c ≡ (true, marked)
    → marked ≡ some updated
saved updated c marked e = elim (Bool-cases (checkpoint_eq updated c)) [
  | inl same ↦ absurd (ground arith)
  | inr new ↦ sym (ap (λ p. p.1) (rw new at e))
]

-- Semantic work that was recorded for an encoder is reported for that encoder, and nothing is reported
-- for any other.
pub status-mark_semantic :
    (ns other path : String) (file marked : File)
    → mark_semantic_work_completed ns path file ≡ (true, marked)
    → other ≢ ns
    → (find_path path (get_semantic_completion_status ns marked) ≡ some true)
      × (get_semantic_completion_status other marked ≡ [])
unfolding mark_semantic_work_completed get_semantic_completion_status assign
status-mark_semantic ns other path none marked e n = absurd (ground arith)
status-mark_semantic ns other path (some c) marked e n =
    elim (Bool-cases (is_other ns c.semantic_encoder_namespace)) [
      | inl new ↦
          let p = sym (ap (λ r. r.1) (rw new at e)) in
          rw (p, str_eq_self ns, str_eq_ne ns other (λ q. n (sym q)))
            (find-assign string_discrete path true [], refl)
      | inr same ↦ elim (Bool-cases (has_path path c.targets)) [
        | inr gone ↦ absurd (ground arith)
        | inl there ↦
            let p =
              saved
                (record c {
                  semantic_encoder_namespace = some ns;
                  semantic_completed = assign string_discrete path true c.semantic_completed;
                })
                c marked (rw (same, there) at e) in
            rw (p, str_eq_self ns, str_eq_ne ns other (λ q. n (sym q)))
              (find-assign string_discrete path true c.semantic_completed, refl)
      ]
    ]
