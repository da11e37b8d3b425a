-- ===== src/Reindex/Serving.antt =====
-- runtime/reindex.py: `flip`, `contract`, `rollback`, `retry` and `run`, which change what serves.
use andnp_searchkernel.Prelude.{
  ℕ, Bool, true, false, ◌||◌, not, Option, none, some, String, ltb, if◌then◌else◌,
}
use andnp_searchkernel.Exec.{Exec, pure, raise, try_catch, ◌>>=◌, ◌>>◌}
use andnp_searchkernel.Reindex.Domain.{
  text, Error, reindex, ns_eq, MigrationPhase, phase_eq, ActiveModelMetadata, BackupMetadata,
  RollbackMetadata, MigrationState,
}
use andnp_searchkernel.Reindex.Ports.{Routine, Session}
use andnp_searchkernel.Reindex.State.{
  call, reject_failed, check_old_model_name, save, total_records, load_or_create_state,
}
use andnp_searchkernel.Reindex.Backfill.{ReindexProgress, at_phase, expand}
use andnp_searchkernel.Reindex.Source.{backfill}
use andnp_searchkernel.Reindex.Transitions.{
  is_validated, serves, effective_phase, restore_required, with_lock, fail_with, require_owner,
  activate, validate, save_stage,
}

-- `active is not None and active.namespace not in {…}`, by the two namespaces of the migration.
abbrev pub is_foreign : Option ActiveModelMetadata → MigrationState → Bool
is_foreign none state = false
is_foreign (some active) state =
    not (ns_eq active.model state.source || ns_eq active.model state.target)

abbrev pub unfinished : Option ℕ → MigrationState → MigrationPhase
unfinished none state = MigrationPhase.backfill
unfinished (some n) state =
    if ltb state.checkpoint n then MigrationPhase.backfill else MigrationPhase.validate

module _ {W R F : Type 0} (r : Routine W R F) where
  unfoldable pub flip_to :
      MigrationState → Option ActiveModelMetadata → Exec Error (Session W) MigrationState
  flip_to state active = do
    let pending = at_phase MigrationPhase.flip state
    save r pending
    try_catch
        (activate r state.target active
          (text "active model changed during migration; refusing to overwrite policy"))
        (fail_with r pending MigrationPhase.flip "Failed to flip active model")
    save_stage r pending

  unfoldable pub flip_active :
      MigrationState → Option ActiveModelMetadata → Exec Error (Session W) MigrationState
  flip_active state none = flip_to state none
  flip_active state (some active) =
      if ns_eq active.model state.target
      then save_stage r (at_phase MigrationPhase.flip state)
      else if ns_eq active.model state.source
      then flip_to state (some active)
      else raise
          (reindex (text "active model changed during migration; refusing to overwrite policy"))

  unfoldable pub flip_state : MigrationState → Exec Error (Session W) MigrationState
  flip_state state =
      if is_validated state.validation
      then if phase_eq state.phase MigrationPhase.validate
          || phase_eq state.phase MigrationPhase.flip
        then (do active ← call r.store.get_active_model; flip_active state active)
        else raise (reindex (text "Cannot flip before validation is complete"))
      else raise (reindex (text "Cannot flip before validation passes"))

  unfoldable pub flip : Exec Error (Session W) MigrationState
  flip = with_lock r (do state ← load_or_create_state r; reject_failed state; flip_state state)

  unfoldable pub back_up :
      MigrationState → Option BackupMetadata → Exec Error (Session W) MigrationState
  back_up pending (some backup) = pure pending
  back_up pending none = do
    backup ←
        try_catch (call (r.store.create_backup pending.source))
          (fail_with r pending MigrationPhase.contract "Failed to back up old model")
    save r (record pending { backup = some backup })
    pure (record pending { backup = some backup })

  unfoldable pub contract_from :
      MigrationState → Option ActiveModelMetadata → Exec Error (Session W) MigrationState
  contract_from state active = do
    save r (at_phase MigrationPhase.contract state)
    pending ← back_up (at_phase MigrationPhase.contract state) state.backup
    try_catch
        (do
          require_owner r active
              (text "active model changed during contract; refusing to delete the old namespace")
          call (r.store.delete_namespace state.source))
        (fail_with r pending MigrationPhase.contract "Failed to contract old model")
    save_stage r (at_phase MigrationPhase.complete pending)

  unfoldable pub contract_active :
      MigrationState → Option ActiveModelMetadata → Exec Error (Session W) MigrationState
  contract_active state active =
      if serves active state.target
      then contract_from state active
      else raise (reindex (text "Cannot contract while the target model is not active"))

  unfoldable pub contract_state : MigrationState → Exec Error (Session W) MigrationState
  contract_state state =
      if phase_eq state.phase MigrationPhase.complete
      then pure state
      else if phase_eq state.phase MigrationPhase.flip
          || phase_eq state.phase MigrationPhase.contract
      then if is_validated state.validation
        then (do active ← call r.store.get_active_model; contract_active state active)
        else raise (reindex (text "Cannot contract before validation passes"))
      else raise (reindex (text "Cannot contract before flip is complete"))

  unfoldable pub contract : Option String → Exec Error (Session W) MigrationState
  contract old_model_name = with_lock r (do
    state ← load_or_create_state r
    check_old_model_name state old_model_name
    reject_failed state
    contract_state state)

  unfoldable pub restore :
      Bool
      → Option BackupMetadata
      → Option RollbackMetadata
      → Exec Error (Session W) (Option RollbackMetadata)
  restore true (some backup) evidence = do
    restored ← call (r.store.restore_backup backup)
    pure (some restored)
  restore true none evidence = pure evidence
  restore false backup evidence = pure evidence

  -- The active model after a rollback: the source, unless it serves already.
  unfoldable pub reactivate :
      MigrationState → Option ActiveModelMetadata → Exec Error (Session W) ActiveModelMetadata
  reactivate state none =
      activate r state.source none
        (text "active model changed during rollback; refusing to overwrite policy")
  reactivate state (some active) =
      if ns_eq active.model state.target
      then activate r state.source (some active)
          (text "active model changed during rollback; refusing to overwrite policy")
      else pure active

  -- The `try` block of `rollback`, which returns the evidence of the restoration.
  unfoldable pub roll_back :
      MigrationState → Bool → Exec Error (Session W) (Option RollbackMetadata)
  roll_back pending required = do
    evidence ← restore required pending.backup pending.rollback_evidence
    active ← call r.store.get_active_model
    if is_foreign active pending
        then raise
            (reindex (text "active model changed during rollback; refusing to overwrite policy"))
        else (do
          active_after ← reactivate pending active
          require_owner r (some active_after)
              (text "active model changed during rollback; refusing to delete the target namespace")
          call (r.store.delete_namespace pending.target)
          pure evidence)

  unfoldable pub rollback_state : MigrationState → Exec Error (Session W) MigrationState
  rollback_state state =
      if phase_eq (effective_phase state) MigrationPhase.init then pure state else (do
        let pending = at_phase MigrationPhase.rollback state
        save r pending
        evidence ←
            try_catch (roll_back pending (restore_required state))
              (fail_with r pending MigrationPhase.rollback "Failed to roll back migration")
        save_stage r (record pending { rollback_evidence = evidence }))

  unfoldable pub rollback : Option String → Exec Error (Session W) MigrationState
  rollback old_model_name = with_lock r (do
    state ← load_or_create_state r
    check_old_model_name state old_model_name
    rollback_state state)

  unfoldable pub retry_phase :
      MigrationState → Option MigrationPhase → Exec Error (Session W) MigrationPhase
  retry_phase state (some phase) = pure phase
  retry_phase state none = do total ← total_records r state; pure (unfinished total state)

  unfoldable pub retry_state : MigrationState → Exec Error (Session W) MigrationState
  retry_state state =
      if phase_eq state.phase MigrationPhase.failed
      then (do phase ← retry_phase state state.resume_phase; save_stage r (at_phase phase state))
      else raise (reindex (text "migration is not failed"))

  unfoldable pub retry : Exec Error (Session W) MigrationState
  retry = do state ← load_or_create_state r; retry_state state

  unfoldable pub require_state : Option MigrationState → Exec Error (Session W) MigrationState
  require_state none = raise (reindex (text "migration state was not persisted"))
  require_state (some state) = pure state

  unfoldable pub run_rest : Bool → Exec Error (Session W) MigrationState
  run_rest contract_too = do
    validate r
    flip
    if contract_too
        then contract none
        else (do saved ← call (r.store.load_migration r.migration_id); require_state saved)

  -- A backfill that is still running when its fuel is out runs no further stage.
  unfoldable pub run_after :
      Bool → Option ReindexProgress → Exec Error (Session W) (Option MigrationState)
  run_after contract_too none = pure none
  run_after contract_too (some progress) = do state ← run_rest contract_too; pure (some state)

  unfoldable pub run : ℕ → Bool → Exec Error (Session W) (Option MigrationState)
  run fuel contract_too = do expand r; done ← backfill r fuel; run_after contract_too done
