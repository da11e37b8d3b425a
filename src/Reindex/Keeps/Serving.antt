-- ===== src/Reindex/Keeps/Serving.antt =====
-- What `flip` and `contract` keep, and what they return.
use andnp_searchkernel.Prelude.{◌≡◌, refl, true, ◌||◌, Option, none, some, is_some, String, arith}
use andnp_searchkernel.Exec.Triple.{Triple, Triple-pure, Triple-raise, Triple-if, Triple-try, ◌⨾◌}
use andnp_searchkernel.Reindex.Domain.{
  ns_eq, MigrationPhase, phase_eq, phase_eq→eq, ActiveModelMetadata, BackupMetadata, MigrationState,
}
use andnp_searchkernel.Reindex.Ports.{Routine}
use andnp_searchkernel.Reindex.Backfill.{at_phase}
use andnp_searchkernel.Reindex.Transitions.{is_validated, serves}
use andnp_searchkernel.Reindex.Serving
use andnp_searchkernel.Reindex.Serving.{is_foreign, unfinished}
use andnp_searchkernel.Reindex.Consistent.{IsConsistent, StoresKeep}
use andnp_searchkernel.Reindex.Keeps.Rules.{On, Triple-call, Triple-save}
use andnp_searchkernel.Reindex.Keeps.State.{
  Triple-reject_failed, Triple-check_old_model_name, Triple-load_or_create_state,
}
use andnp_searchkernel.Reindex.Keeps.Validate.{
  serving-IsConsistent, Triple-with_lock, Triple-fail_with, Triple-require_owner, Triple-activate,
  Triple-save_stage,
}

-- A consistent state in the phase.
abbrev pub IsIn : MigrationPhase → MigrationState → Type 0
IsIn phase s = IsConsistent s × (s.phase ≡ phase)

complete-IsConsistent :
    (s : MigrationState)
    → IsConsistent s
    → is_validated s.validation ≡ true
    → is_some s.backup ≡ true
    → IsConsistent (at_phase MigrationPhase.complete s)
complete-IsConsistent s c proved saved = record {
  distinct = c.distinct;
  fits = c.fits;
  evidenced = λ e. proved;
  resumed = λ e. proved;
  stage = refl;
  backed_up = λ e. saved;
  failed_only = λ e. ground arith;
  resumes = λ e. ground arith;
}

with_backup-IsConsistent :
    (s : MigrationState) (b : BackupMetadata)
    → IsConsistent s
    → IsConsistent (record s { backup = some b })
with_backup-IsConsistent s b c = record {
  distinct = c.distinct;
  fits = c.fits;
  evidenced = c.evidenced;
  resumed = c.resumed;
  stage = c.stage;
  backed_up = λ e. refl;
  failed_only = c.failed_only;
  resumes = c.resumes;
}

module _ {W R F : Type 0} (r : Routine W R F) {P : W → Type 0} (h : StoresKeep r P) where
  flip_to :
      (s : MigrationState) (active : Option ActiveModelMetadata)
      → IsConsistent s
      → is_validated s.validation ≡ true
      → Triple (On P) (Serving.flip_to r s active) (IsIn MigrationPhase.flip)
  unfolding Serving.flip_to
  flip_to s active c proved =
      let pending = serving-IsConsistent MigrationPhase.flip s c proved refl refl in
      Triple-save r h _ pending ⨾ λ _ _.
      Triple-try _ _ (Triple-activate r h s.target active _)
        (λ e. Triple-fail_with r h _ MigrationPhase.flip _ e pending refl (λ _. proved))
      ⨾ λ _ _. Triple-save_stage r h _ pending (pending, refl)

  flip_active :
      (s : MigrationState) (active : Option ActiveModelMetadata)
      → IsConsistent s
      → is_validated s.validation ≡ true
      → Triple (On P) (Serving.flip_active r s active) (IsIn MigrationPhase.flip)
  unfolding Serving.flip_active
  flip_active s none c proved = flip_to s none c proved
  flip_active s (some a) c proved =
      let pending = serving-IsConsistent MigrationPhase.flip s c proved refl refl in
      Triple-if (ns_eq a.model s.target) _ _ (λ _. Triple-save_stage r h _ pending (pending, refl))
        λ _.
          Triple-if (ns_eq a.model s.source) _ _ (λ _. flip_to s (some a) c proved)
            (λ _. Triple-raise _)

  flip_state :
      (s : MigrationState)
      → IsConsistent s
      → Triple (On P) (Serving.flip_state r s) (IsIn MigrationPhase.flip)
  unfolding Serving.flip_state
  flip_state s c =
      Triple-if (is_validated s.validation) _ _
        (λ proved.
          Triple-if
            (phase_eq s.phase MigrationPhase.validate || phase_eq s.phase MigrationPhase.flip) _ _
            (λ _. Triple-call _ h.active ⨾ λ a _. flip_active s a c proved) (λ _. Triple-raise _))
        (λ _. Triple-raise _)

  -- Over stores that keep a condition on the world as long as only consistent states are saved, and
  -- that load consistent states, a flip keeps the condition on every path, errors included: every
  -- state that it saves is consistent. If it returns, the returned state is consistent and in FLIP, so
  -- its validation has passed for its target.
  pub Triple-flip : Triple (On P) (Serving.flip r) (IsIn MigrationPhase.flip)
  unfolding Serving.flip
  Triple-flip =
      Triple-with_lock r h _
        (Triple-load_or_create_state r h ⨾ λ s c. Triple-reject_failed s ⨾ λ _ _. flip_state s c.0)

  back_up :
      (s : MigrationState) (o : Option BackupMetadata)
      → s.backup ≡ o
      → IsConsistent s
      → is_validated s.validation ≡ true
      → Triple
          (On P)
          (Serving.back_up r s o)
          (λ t. IsConsistent t × (is_validated t.validation ≡ true) × (is_some t.backup ≡ true))
  unfolding Serving.back_up
  back_up s (some b) e c proved = Triple-pure s (c, proved, ground arith)
  back_up s none e c proved =
      Triple-try _ _ (Triple-call _ (h.backs_up s.source))
        (λ e. Triple-fail_with r h s MigrationPhase.contract _ e c refl (λ _. proved))
      ⨾ λ b _.
          let saved = with_backup-IsConsistent s b c in
          Triple-save r h _ saved ⨾ λ _ _. Triple-pure _ (saved, proved, refl)

  contract_from :
      (s : MigrationState) (active : Option ActiveModelMetadata)
      → IsConsistent s
      → is_validated s.validation ≡ true
      → Triple (On P) (Serving.contract_from r s active) (IsIn MigrationPhase.complete)
  unfolding Serving.contract_from
  contract_from s active c proved =
      let pending = serving-IsConsistent MigrationPhase.contract s c proved refl refl in
      Triple-save r h _ pending ⨾ λ _ _. back_up _ s.backup refl pending proved ⨾ λ t ct.
      Triple-try _ _ (Triple-require_owner r h active _ ⨾ λ _ _. Triple-call _ (h.delete s.source))
        (λ e. Triple-fail_with r h t MigrationPhase.contract _ e ct.0 refl (λ _. ct.1))
      ⨾ λ _ _.
          let complete = complete-IsConsistent t ct.0 ct.1 ct.2 in
          Triple-save_stage r h _ complete (complete, refl)

  contract_active :
      (s : MigrationState) (active : Option ActiveModelMetadata)
      → IsConsistent s
      → is_validated s.validation ≡ true
      → Triple (On P) (Serving.contract_active r s active) (IsIn MigrationPhase.complete)
  unfolding Serving.contract_active
  contract_active s active c proved =
      Triple-if (serves active s.target) _ _ (λ _. contract_from s active c proved)
        (λ _. Triple-raise _)

  contract_state :
      (s : MigrationState)
      → IsConsistent s
      → Triple (On P) (Serving.contract_state r s) (IsIn MigrationPhase.complete)
  unfolding Serving.contract_state
  contract_state s c =
      Triple-if (phase_eq s.phase MigrationPhase.complete) _ _
        (λ done. Triple-pure s (c, phase_eq→eq s.phase MigrationPhase.complete done))
        λ _.
          Triple-if
            (phase_eq s.phase MigrationPhase.flip || phase_eq s.phase MigrationPhase.contract) _ _
            (λ _.
              Triple-if (is_validated s.validation) _ _
                (λ proved. Triple-call _ h.active ⨾ λ a _. contract_active s a c proved)
                (λ _. Triple-raise _))
            (λ _. Triple-raise _)

  -- Over the same stores a contract saves consistent states only. If it returns, the returned state is
  -- consistent and COMPLETE, so its validation has passed and it has a backup of the source.
  pub Triple-contract :
      (old : Option String) → Triple (On P) (Serving.contract r old) (IsIn MigrationPhase.complete)
  unfolding Serving.contract
  Triple-contract old = Triple-with_lock r h _ (
      Triple-load_or_create_state r h ⨾ λ s c. Triple-check_old_model_name s old ⨾ λ _ _.
      Triple-reject_failed s ⨾ λ _ _. contract_state s c.0)
