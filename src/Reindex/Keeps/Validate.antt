-- ===== src/Reindex/Keeps/Validate.antt =====
-- What the transition lock, the change of the active model and `validate` keep.
use andnp_searchkernel.Prelude.{
  ℕ, ◌≡◌, refl, ap, sym, ◌∙◌, Bool, true, false, not, ◌||◌, Option, none, some, String, ◌==◌, arith,
}
use andnp_searchkernel.Exec.{Exec, ok}
use andnp_searchkernel.Exec.Triple.{
  Triple, Any, Triple-pure, Triple-raise, Triple-reads, Triple-if, Triple-try, Triple-finally, ◌⨾◌,
}
use andnp_searchkernel.Reindex.Domain.{
  Message, Error, reindex, dimension_mismatch, other, ModelNamespace, ns_eq, ns_eq_iff,
  MigrationPhase, phase_eq, ActiveModelMetadata, active_eq, ValidationResult, passed,
  MigrationState,
}
use andnp_searchkernel.Reindex.Ports.{TransitionLock, Routine, Session}
use andnp_searchkernel.Reindex.State.{target_namespace}
use andnp_searchkernel.Reindex.Backfill.{at_phase}
use andnp_searchkernel.Reindex.Transitions
use andnp_searchkernel.Reindex.Transitions.{
  is_validated, validated, serves, restore_required, effective_phase,
}
use andnp_searchkernel.Reindex.Serving.{unfinished}
use andnp_searchkernel.Reindex.Consistent.{
  IsConsistent, StoresKeep, SwapKeeps, LockKeeps, resumable, resumes_serving,
}
use andnp_searchkernel.Reindex.Keeps.Rules.{
  On, Triple-call, Triple-save, Triple-set_stage, Triple-fail,
}
use andnp_searchkernel.Reindex.Keeps.State.{
  IsLoaded, Triple-reject_failed, Triple-total_records, Triple-load_or_create_state,
}

-- Evidence that lets the target serve.
abbrev pub IsProven : {W R F : Type 0} → Routine W R F → ValidationResult → Type 0
IsProven r v = (passed v ≡ true) × (target_namespace r ≡ ok v.evidence_for)

pub serving-IsConsistent :
    (phase : MigrationPhase) (s : MigrationState)
    → IsConsistent s
    → is_validated s.validation ≡ true
    → phase_eq phase MigrationPhase.complete ≡ false
    → phase_eq phase MigrationPhase.failed ≡ false
    → IsConsistent (at_phase phase s)
serving-IsConsistent phase s c proved unfinished running = record {
  distinct = c.distinct;
  fits = c.fits;
  evidenced = λ e. proved;
  resumed = λ e. proved;
  stage = refl;
  backed_up = λ e. ground arith;
  failed_only = λ e. ground arith;
  resumes = λ e. ground arith;
}

validated-IsConsistent :
    (s : MigrationState) (v : ValidationResult)
    → IsConsistent s
    → ns_eq v.evidence_for s.target ≡ true
    → IsConsistent (validated s v)
validated-IsConsistent s v c fits = record {
  distinct = c.distinct;
  fits = fits;
  evidenced = λ e. ground arith;
  resumed = λ e. ground arith;
  stage = refl;
  backed_up = λ e. ground arith;
  failed_only = λ e. ground arith;
  resumes = λ e. ground arith;
}

module _ {W R F : Type 0} (r : Routine W R F) {P : W → Type 0} (h : StoresKeep r P) where
  acquire_lock :
      (lock : Option (Exec Error W (TransitionLock W)))
      → LockKeeps P lock
      → Triple
          (On P)
          (Transitions.acquire_lock r lock)
          (λ l. Triple P l.enter Any × Triple P l.exit Any)
  unfolding Transitions.acquire_lock
  acquire_lock none l = Triple-raise _
  acquire_lock (some acquire) l = Triple-try _ _ (Triple-call _ l) (λ e. Triple-raise _)

  pub Triple-with_lock :
      {A : Type 0} {Q : A → Type 0} (body : Exec Error (Session W) A)
      → Triple (On P) body Q
      → Triple (On P) (Transitions.with_lock r body) Q
  unfolding Transitions.with_lock
  Triple-with_lock body b = acquire_lock r.store.acquire_transition_lock h.lock ⨾ λ lock l.
      Triple-call _ l.0 ⨾ λ _ _. Triple-finally body _ b (Triple-call _ l.1)

  pub Triple-fail_with :
      {A : Type 0} {Q : A → Type 0} (s : MigrationState) (phase : MigrationPhase) (what : String)
      (e : Error)
      → IsConsistent s
      → resumable (some phase) ≡ true
      → (resumes_serving (some phase) ≡ true → is_validated s.validation ≡ true)
      → Triple (On P) (Transitions.fail_with r s phase what e) Q
  unfolding Transitions.fail_with
  Triple-fail_with s phase what e c stage served =
      Triple-fail r h s phase _ c stage served ⨾ λ _ _. Triple-raise _

  pub Triple-require_owner :
      (expected : Option ActiveModelMetadata) (m : Message)
      → Triple (On P) (Transitions.require_owner r expected m) Any
  unfolding Transitions.require_owner
  Triple-require_owner expected m = Triple-call _ h.active ⨾ λ a _.
      Triple-if (active_eq a expected) _ _ (λ _. Triple-pure tt tt) (λ _. Triple-raise _)

  compare_and_set :
      (swap : Option (Option ActiveModelMetadata → ActiveModelMetadata → Exec Error W Bool))
      → SwapKeeps P swap
      → (expected : Option ActiveModelMetadata) (a : ActiveModelMetadata) (m : Message)
      → Triple (On P) (Transitions.compare_and_set_with r swap expected a m) Any
  unfolding Transitions.compare_and_set_with
  compare_and_set none k expected a m =
      Triple-require_owner expected m ⨾ λ _ _. Triple-call _ (h.set a)
  compare_and_set (some swap) k expected a m = Triple-call _ (k expected a) ⨾ λ swapped _.
      Triple-if swapped _ _ (λ _. Triple-pure tt tt) (λ _. Triple-raise _)

  pub Triple-activate :
      (ns : ModelNamespace) (expected : Option ActiveModelMetadata) (m : Message)
      → Triple (On P) (Transitions.activate r ns expected m) Any
  unfolding Transitions.activate
  Triple-activate ns expected m = Triple-reads _ ⨾ λ at _.
      compare_and_set r.store.compare_and_set_active_model h.swap expected _ m ⨾ λ _ _.
      Triple-pure _ tt

  validate_failed :
      {A : Type 0} {Q : A → Type 0} (s : MigrationState) (e : Error)
      → IsConsistent s
      → Triple (On P) (Transitions.validate_failed r s e) Q
  unfolding Transitions.validate_failed
  validate_failed s (reindex m) c = Triple-raise _
  validate_failed s (dimension_mismatch m) c =
      Triple-fail_with s MigrationPhase.validate _ _ c refl (λ e. ground arith)
  validate_failed s (other m) c =
      Triple-fail_with s MigrationPhase.validate _ _ c refl (λ e. ground arith)

  checked_evidence :
      (s : MigrationState) (v : ValidationResult)
      → IsConsistent s
      → Triple
          (On P)
          (Transitions.checked_evidence r s v)
          (λ w. (ns_eq w.evidence_for s.target ≡ true) × (passed w ≡ true))
  unfolding Transitions.checked_evidence
  checked_evidence s v c =
      Triple-if (not (ns_eq v.evidence_for s.target)) _ _ (λ _. Triple-raise _)
        λ fits.
          Triple-if (passed v) _ _ (λ good. Triple-pure v (ground arith, good))
            λ _.
              Triple-save r h _ (record {
                distinct = c.distinct;
                fits = ground arith;
                evidenced = λ e. ground arith;
                resumed = λ e. ground arith;
                stage = refl;
                backed_up = λ e. ground arith;
                failed_only = λ e. refl;
                resumes = λ e. refl;
              })
              ⨾ λ _ _. Triple-raise _

  validate_records :
      (s : MigrationState) (n : ℕ)
      → IsLoaded r s
      → Triple (On P) (Transitions.validate_records r s n) (IsProven r)
  unfolding Transitions.validate_records
  validate_records s n c =
      Triple-try _ _ (Triple-call _ (h.validates s.target n) ⨾ λ v _. checked_evidence s v c.0)
        (λ e. validate_failed s e c.0)
      ⨾ λ v q.
          let done = validated-IsConsistent s v c.0 q.0 in
          Triple-try _ _ (Triple-save r h _ done) (λ e. validate_failed _ e done) ⨾ λ _ _.
          Triple-set_stage r h _ ⨾ λ _ _.
          Triple-pure v (q.1, c.1 ∙ ap ok (sym ((ns_eq_iff v.evidence_for s.target).0 q.0)))

  validate_total :
      (s : MigrationState) (o : Option ℕ)
      → IsLoaded r s
      → Triple (On P) (Transitions.validate_total r s o) (IsProven r)
  unfolding Transitions.validate_total
  validate_total s none c = Triple-raise _
  validate_total s (some n) c =
      Triple-if (s.checkpoint == n) _ _ (λ _. validate_records s n c) (λ _. Triple-raise _)

  run_validation :
      (s : MigrationState)
      → IsLoaded r s
      → Triple (On P) (Transitions.run_validation r s) (IsProven r)
  unfolding Transitions.run_validation
  run_validation s c =
      Triple-if
        (phase_eq s.phase MigrationPhase.backfill || phase_eq s.phase MigrationPhase.validate) _ _
        (λ _. Triple-total_records r h s ⨾ λ total _. validate_total s total c)
        (λ _. Triple-raise _)

  validate_state :
      (s : MigrationState) (o : Option ValidationResult)
      → s.validation ≡ o
      → IsLoaded r s
      → Triple (On P) (Transitions.validate_state r s o) (IsProven r)
  unfolding Transitions.validate_state
  validate_state s none e c = run_validation s c
  validate_state s (some v) e c =
      let fits : ns_eq v.evidence_for s.target ≡ true = ground (arith, c.0.fits) in
      Triple-if (passed v) _ _
        (λ good.
          Triple-pure v (good, c.1 ∙ ap ok (sym ((ns_eq_iff v.evidence_for s.target).0 fits))))
        (λ _. run_validation s c)

  -- Over stores that keep a condition on the world as long as only consistent states are saved, and
  -- that load consistent states, `validate` saves consistent states only. If it returns, the evidence
  -- has passed and is for the target namespace of the routine, also where it was saved before.
  pub Triple-validate : Triple (On P) (Transitions.validate r) (IsProven r)
  unfolding Transitions.validate
  Triple-validate = Triple-load_or_create_state r h ⨾ λ s c.
      Triple-reject_failed s ⨾ λ _ _. validate_state s s.validation refl c

  pub Triple-save_stage :
      {Q : MigrationState → Type 0} (s : MigrationState)
      → IsConsistent s
      → Q s
      → Triple (On P) (Transitions.save_stage r s) Q
  unfolding Transitions.save_stage
  Triple-save_stage s c q =
      Triple-save r h s c ⨾ λ _ _. Triple-set_stage r h _ ⨾ λ _ _. Triple-pure s q
