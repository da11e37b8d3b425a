-- ===== src/Reindex/Resumed.antt =====
-- What a migration does when it is resumed after a failure.
use andnp_searchkernel.Prelude.{
  ◌≡◌, refl, some, Bool, true, false, if◌then◌else◌, arith, sym, ap, ◌⊎◌, inl, inr, ◌∙◌,
}
use andnp_searchkernel.Exec.{Result, ok, err, carry_on, Exec, pure, modify, ◌>>=◌}
use andnp_searchkernel.Reindex.Domain.{
  Error, phase_eq, MigrationPhase, MigrationState, BackupMetadata, RollbackMetadata, ModelNamespace,
}
use andnp_searchkernel.Reindex.Ports.{Routine, Session}
use andnp_searchkernel.Reindex.State.{call, save, set_stage, fail}
use andnp_searchkernel.Reindex.Backfill.{at_phase, expand_state}
use andnp_searchkernel.Reindex.Transitions.{
  effective_phase, fail_with, save_stage, require_owner, activate, compare_and_set_with,
}
use andnp_searchkernel.Reindex.Serving.{
  rollback_state, roll_back, restore, reactivate, retry_state, retry_phase,
}

Result-cases : {E A : Type 0} (x : Result E A) → ((a : A) × (x ≡ ok a)) ⊎ ((e : E) × (x ≡ err e))
Result-cases (ok a) = inl (a, refl)
Result-cases (err e) = inr (e, refl)

if_true : {A : Type 0} (b : Bool) (x y : A) → b ≡ true → (if b then x else y) ≡ x
if_true true x y e = refl
if_true false x y e = cc

module _ {W R F : Type 0} (r : Routine W R F) where
  -- The routine over a store that restores backups in another way.
  abbrev pub restoring : (BackupMetadata → Exec Error W RollbackMetadata) → Routine W R F
  restoring f = record r { store = record r.store { restore_backup = f } }

  -- The routine over a store that creates namespaces in another way.
  abbrev pub ensuring : (ModelNamespace → Exec Error W (Unit {0})) → Routine W R F
  ensuring f = record r { store = record r.store { ensure_namespace = f } }

  -- A rollback that resumes a failed or a finished rollback never restores the backup: it does the
  -- same, whatever `restore_backup` does.
  pub rollback_state-restoring :
      (s : MigrationState) (f : BackupMetadata → Exec Error W RollbackMetadata)
      → effective_phase s ≡ MigrationPhase.rollback
      → rollback_state (restoring f) s ≡ rollback_state r s
  unfolding rollback_state roll_back restore reactivate activate compare_and_set_with require_owner
      save_stage fail_with fail save set_stage
  rollback_state-restoring s f e = rw e

  save_stage-bind :
      (x : MigrationState) (f g : MigrationState → Exec Error (Session W) MigrationState)
      (t : Session W)
      → f x ≡ g x
      → (save_stage r x >>= f) t ≡ (save_stage r x >>= g) t
  unfolding save_stage save set_stage call modify pure ◌>>=◌
  save_stage-bind x f g t e = elim (Result-cases (r.store.save_migration x t.world).0) [
    | inl (u, k) ↦ rw (k, carry_on) (rw e)
    | inr (u, k) ↦ rw (k, carry_on)
  ]

  retry_state_failed :
      (s : MigrationState) (phase : MigrationPhase)
      → s.phase ≡ MigrationPhase.failed
      → s.resume_phase ≡ some phase
      → retry_state r s ≡ save_stage r (at_phase phase s)
  unfolding retry_state retry_phase pure ◌>>=◌
  retry_state_failed s phase p q =
      if_true (phase_eq s.phase MigrationPhase.failed) _ _ (ground arith)
      ∙ ap (λ o. retry_phase r s o >>= λ again. save_stage r (at_phase again s)) q

module _ {W R F : Type 0} (r : Routine W R F) where
  -- After a failed `expand`, `retry` and `expand` do the same whatever `ensure_namespace` does: the
  -- namespace of the target, which `expand` could not create, is not asked for again.
  pub expand_state-retry_state :
      (s : MigrationState) (t : Session W) (f : ModelNamespace → Exec Error W (Unit {0}))
      → s.phase ≡ MigrationPhase.failed
      → s.resume_phase ≡ some MigrationPhase.expand
      → (retry_state (ensuring r f) s >>= expand_state (ensuring r f)) t
        ≡ (retry_state r s >>= expand_state r) t
  unfolding save_stage save set_stage expand_state
  expand_state-retry_state s t f p q =
      let x : MigrationState = at_phase MigrationPhase.expand s in
      ap (λ m. (m >>= expand_state (ensuring r f)) t)
        (retry_state_failed (ensuring r f) s MigrationPhase.expand p q)
      ∙ save_stage-bind r x (expand_state (ensuring r f)) (expand_state r) t refl
      ∙ sym (ap (λ m. (m >>= expand_state r) t) (retry_state_failed r s MigrationPhase.expand p q))
