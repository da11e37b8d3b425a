-- ===== src/Reindex/Keeps/Rollback.antt =====
-- What `rollback` keeps, and what it returns.
use andnp_searchkernel.Prelude.{
  ◌≡◌, refl, ◌⊎◌, inl, inr, Bool, true, false, Option, none, some, String, arith,
}
use andnp_searchkernel.Exec.Triple.{
  Triple, Any, Triple-pure, Triple-raise, Triple-if, Triple-try, ◌⨾◌,
}
use andnp_searchkernel.Reindex.Domain.{
  ns_eq, MigrationPhase, phase_eq, phase_eq→eq, ActiveModelMetadata, BackupMetadata,
  RollbackMetadata, MigrationState,
}
use andnp_searchkernel.Reindex.Ports.{Routine}
use andnp_searchkernel.Reindex.Transitions.{restore_required, effective_phase}
use andnp_searchkernel.Reindex.Serving
use andnp_searchkernel.Reindex.Serving.{is_foreign, unfinished}
use andnp_searchkernel.Reindex.Consistent.{IsConsistent, StoresKeep}
use andnp_searchkernel.Reindex.Keeps.Rules.{On, Triple-call, Triple-save}
use andnp_searchkernel.Reindex.Keeps.State.{
  Triple-check_old_model_name, Triple-load_or_create_state,
}
use andnp_searchkernel.Reindex.Keeps.Backfill.{at_phase-IsConsistent}
use andnp_searchkernel.Reindex.Keeps.Validate.{
  Triple-with_lock, Triple-fail_with, Triple-require_owner, Triple-activate, Triple-save_stage,
}

with_evidence-IsConsistent :
    (s : MigrationState) (e : Option RollbackMetadata)
    → IsConsistent s
    → IsConsistent (record s { rollback_evidence = e })
with_evidence-IsConsistent s e c = record {
  distinct = c.distinct;
  fits = c.fits;
  evidenced = c.evidenced;
  resumed = c.resumed;
  stage = c.stage;
  backed_up = c.backed_up;
  failed_only = c.failed_only;
  resumes = c.resumes;
}

module _ {W R F : Type 0} (r : Routine W R F) {P : W → Type 0} (h : StoresKeep r P) where
  restore :
      (required : Bool) (b : Option BackupMetadata) (e : Option RollbackMetadata)
      → Triple (On P) (Serving.restore r required b e) Any
  unfolding Serving.restore
  restore true (some b) e = Triple-call _ (h.restores b) ⨾ λ x _. Triple-pure _ tt
  restore true none e = Triple-pure e tt
  restore false b e = Triple-pure e tt

  reactivate :
      (s : MigrationState) (active : Option ActiveModelMetadata)
      → Triple (On P) (Serving.reactivate r s active) Any
  unfolding Serving.reactivate
  reactivate s none = Triple-activate r h s.source none _
  reactivate s (some a) =
      Triple-if (ns_eq a.model s.target) _ _ (λ _. Triple-activate r h s.source (some a) _)
        (λ _. Triple-pure a tt)

  roll_back :
      (s : MigrationState) (required : Bool) → Triple (On P) (Serving.roll_back r s required) Any
  unfolding Serving.roll_back
  roll_back s required = restore required s.backup s.rollback_evidence ⨾ λ e _.
      Triple-call _ h.active ⨾ λ active _.
      Triple-if (is_foreign active s) _ _ (λ _. Triple-raise _)
        λ _. reactivate s active ⨾ λ after _. Triple-require_owner r h (some after) _ ⨾ λ _ _.
          Triple-call _ (h.delete s.target) ⨾ λ _ _. Triple-pure e tt

  -- A rollback that returns is rolled back, or had nothing to undo.
  rollback_state :
      (s : MigrationState)
      → IsConsistent s
      → Triple (On P) (Serving.rollback_state r s) (λ t.
        IsConsistent t
        × ((t.phase ≡ MigrationPhase.rollback) ⊎ (effective_phase t ≡ MigrationPhase.init)))
  unfolding Serving.rollback_state
  rollback_state s c =
      let pending = at_phase-IsConsistent MigrationPhase.rollback s c refl refl in
      Triple-if (phase_eq (effective_phase s) MigrationPhase.init) _ _
        (λ e. Triple-pure s (c, inr (phase_eq→eq _ _ e)))
        λ _. Triple-save r h _ pending ⨾ λ _ _.
          Triple-try _ _ (roll_back _ (restore_required s)) (λ e.
            Triple-fail_with r h _ MigrationPhase.rollback _ e pending refl (λ e. ground arith))
          ⨾ λ e _.
              let done = with_evidence-IsConsistent _ e pending in
              Triple-save_stage r h _ done (done, inl refl)

  -- Over the same stores a rollback saves consistent states only. If it returns, the returned state is
  -- consistent, and in ROLLBACK unless its effective phase is INIT, where there is nothing to undo.
  pub Triple-rollback :
      (old : Option String)
      → Triple (On P) (Serving.rollback r old) (λ t.
        IsConsistent t
        × ((t.phase ≡ MigrationPhase.rollback) ⊎ (effective_phase t ≡ MigrationPhase.init)))
  unfolding Serving.rollback
  Triple-rollback old = Triple-with_lock r h _ (
      Triple-load_or_create_state r h ⨾ λ s c.
      Triple-check_old_model_name s old ⨾ λ _ _. rollback_state s c.0)
