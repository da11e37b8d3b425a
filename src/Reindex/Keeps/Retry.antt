-- ===== src/Reindex/Keeps/Retry.antt =====
-- What `retry` keeps, and what it returns.
use andnp_searchkernel.Prelude.{ℕ, ◌≡◌, refl, true, Option, none, some, arith}
use andnp_searchkernel.Exec.Triple.{Triple, Triple-pure, Triple-raise, Triple-if, ◌⨾◌}
use andnp_searchkernel.Reindex.Domain.{MigrationPhase, phase_eq, MigrationState}
use andnp_searchkernel.Reindex.Ports.{Routine}
use andnp_searchkernel.Reindex.Backfill.{at_phase}
use andnp_searchkernel.Reindex.Transitions.{is_validated}
use andnp_searchkernel.Reindex.Serving
use andnp_searchkernel.Reindex.Serving.{is_foreign, unfinished}
use andnp_searchkernel.Reindex.Consistent.{IsConsistent, StoresKeep, serving, resumable}
use andnp_searchkernel.Reindex.Keeps.Rules.{On}
use andnp_searchkernel.Reindex.Keeps.State.{Triple-total_records, Triple-load_or_create_state}
use andnp_searchkernel.Reindex.Keeps.Validate.{Triple-save_stage}

module _ {W R F : Type 0} (r : Routine W R F) {P : W → Type 0} (h : StoresKeep r P) where
  retry_phase :
      (s : MigrationState) (o : Option MigrationPhase)
      → s.resume_phase ≡ o
      → IsConsistent s
      → Triple (On P) (Serving.retry_phase r s o) (λ phase.
        (resumable (some phase) ≡ true) × (serving phase ≡ true → is_validated s.validation ≡ true))
  unfolding Serving.retry_phase
  retry_phase s (some phase) e c =
      Triple-pure phase (ground (arith, c.stage), λ k. ground (arith, c.resumed))
  retry_phase s none e c = Triple-total_records r h s ⨾ λ total _. Triple-pure _ (fresh total)
    where
      fresh :
          (total : Option ℕ)
          → (resumable (some (unfinished total s)) ≡ true)
            × (serving (unfinished total s) ≡ true → is_validated s.validation ≡ true)
      fresh none = (refl, λ k. ground arith)
      fresh (some n) = (ground arith, λ k. ground arith)

  retried-IsConsistent :
      (s : MigrationState) (phase : MigrationPhase)
      → IsConsistent s
      → resumable (some phase) ≡ true
      → (serving phase ≡ true → is_validated s.validation ≡ true)
      → IsConsistent (at_phase phase s)
  retried-IsConsistent s phase c stage served = record {
    distinct = c.distinct;
    fits = c.fits;
    evidenced = served;
    resumed = λ e. ground arith;
    stage = refl;
    backed_up = λ e. ground arith;
    failed_only = λ e. ground arith;
    resumes = λ e. ground arith;
  }

  retry_state :
      (s : MigrationState)
      → IsConsistent s
      → Triple
          (On P)
          (Serving.retry_state r s)
          (λ t. IsConsistent t × (resumable (some t.phase) ≡ true))
  unfolding Serving.retry_state
  retry_state s c =
      Triple-if (phase_eq s.phase MigrationPhase.failed) _ _
        (λ _. retry_phase s s.resume_phase refl c ⨾ λ phase q.
          let again = retried-IsConsistent s phase c q.0 q.1 in
          Triple-save_stage r h _ again (again, q.0))
        (λ _. Triple-raise _)

  -- Over the same stores a retry saves consistent states only. If it returns, the returned state is
  -- consistent and in a phase that is neither INIT nor COMPLETE nor FAILED.
  pub Triple-retry :
      Triple (On P) (Serving.retry r) (λ t. IsConsistent t × (resumable (some t.phase) ≡ true))
  unfolding Serving.retry
  Triple-retry = Triple-load_or_create_state r h ⨾ λ s c. retry_state s c.0
