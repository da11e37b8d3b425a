-- ===== src/Reindex/Transitions.antt =====
-- runtime/reindex.py: the transition lock, the change of the active model, and `validate`.
use andnp_searchkernel.Prelude.{
  ℕ, ◌+◌, Bool, false, ◌&&◌, ◌||◌, not, Option, none, some, is_some, String, ◌==◌, if◌then◌else◌,
}
use andnp_searchkernel.Exec.{Exec, pure, raise, reads, try_catch, finally, ◌>>=◌, ◌>>◌}
use andnp_searchkernel.Reindex.Domain.{
  Message, text, about, counts, joined, Error, reindex, dimension_mismatch, other, message,
  ModelNamespace, ns_eq, MigrationPhase, phase_eq, ActiveModelMetadata, active_eq, ValidationResult,
  passed, MigrationState,
}
use andnp_searchkernel.Reindex.Ports.{TransitionLock, Routine, Session}
use andnp_searchkernel.Reindex.State.{
  call, reject_failed, save, set_stage, fail, total_records, load_or_create_state,
}

abbrev pub is_validated : Option ValidationResult → Bool
is_validated none = false
is_validated (some v) = passed v

abbrev pub validation_failed : ValidationResult → Message
validation_failed v = joined "target namespace validation failed" v.errors

abbrev pub next_generation : Option ActiveModelMetadata → ℕ
next_generation none = 1
next_generation (some active) = active.generation + 1

-- `active is not None and active.namespace == namespace`.
abbrev pub serves : Option ActiveModelMetadata → ModelNamespace → Bool
serves none ns = false
serves (some active) ns = ns_eq active.model ns

abbrev pub resume_or : MigrationPhase → Option MigrationPhase → MigrationPhase
resume_or phase none = phase
resume_or phase (some resume) = resume

-- `effective_phase` of `rollback`.
abbrev pub effective_phase : MigrationState → MigrationPhase
effective_phase state =
    if phase_eq state.phase MigrationPhase.failed
    then resume_or state.phase state.resume_phase
    else state.phase

-- `restore_required` of `rollback`.
abbrev pub restore_required : MigrationState → Bool
restore_required state =
    if phase_eq (effective_phase state) MigrationPhase.rollback
    then false
    else is_some state.backup
      && (phase_eq (effective_phase state) MigrationPhase.contract
          || phase_eq (effective_phase state) MigrationPhase.complete)

abbrev pub validated : MigrationState → ValidationResult → MigrationState
validated state result = record state {
  phase = MigrationPhase.validate;
  validation = some result;
  error = none;
  resume_phase = none;
}

module _ {W R F : Type 0} (r : Routine W R F) where
  -- The lock of `_transition_lock`.
  unfoldable pub acquire_lock :
      Option (Exec Error W (TransitionLock W)) → Exec Error (Session W) (TransitionLock W)
  acquire_lock none =
      raise (reindex (text "active model transitions require a durable lifecycle lock"))
  acquire_lock (some acquire) =
      try_catch (call acquire)
        λ e. raise (reindex (about "Failed to acquire active model transition lock" (message e)))

  -- `_transition_lock`, around a body.
  unfoldable pub with_lock : {A : Type 0} → Exec Error (Session W) A → Exec Error (Session W) A
  with_lock body = do
    lock ← acquire_lock r.store.acquire_transition_lock
    call lock.enter
    finally body (call lock.exit)

  unfoldable pub fail_with :
      {A : Type 0} → MigrationState → MigrationPhase → String → Error → Exec Error (Session W) A
  fail_with state phase what e = do
    fail r state phase (message e)
    raise (reindex (about what (message e)))

  unfoldable pub require_owner :
      Option ActiveModelMetadata → Message → Exec Error (Session W) (Unit {0})
  require_owner expected m = do
    active ← call r.store.get_active_model
    if active_eq active expected then pure tt else raise (reindex m)

  -- `_compare_and_set_active_model`: with the capability, or by a read and a write.
  unfoldable pub compare_and_set_with :
      Option (Option ActiveModelMetadata → ActiveModelMetadata → Exec Error W Bool)
      → Option ActiveModelMetadata
      → ActiveModelMetadata
      → Message
      → Exec Error (Session W) (Unit {0})
  compare_and_set_with (some compare_and_set) expected active m = do
    swapped ← call (compare_and_set expected active)
    if swapped then pure tt else raise (reindex m)
  compare_and_set_with none expected active m = do
    require_owner expected m
    call (r.store.set_active_model active)

  unfoldable pub activate :
      ModelNamespace
      → Option ActiveModelMetadata
      → Message
      → Exec Error (Session W) ActiveModelMetadata
  activate ns expected m = do
    at ← reads (λ s. r.now s.world)
    let active : ActiveModelMetadata = record {
      model = ns;
      generation = next_generation expected;
      activated_at = some at;
    }
    compare_and_set_with r.store.compare_and_set_active_model expected active m
    pure active

  -- The handler of `validate`: a `ReindexError` passes through.
  unfoldable pub validate_failed : {A : Type 0} → MigrationState → Error → Exec Error (Session W) A
  validate_failed state (reindex m) = raise (reindex m)
  validate_failed state (dimension_mismatch m) =
      fail_with state MigrationPhase.validate "Failed to validate migration" (dimension_mismatch m)
  validate_failed state (other m) =
      fail_with state MigrationPhase.validate "Failed to validate migration" (other m)

  -- The evidence of the store, checked; a negative result is recorded.
  unfoldable pub checked_evidence :
      MigrationState → ValidationResult → Exec Error (Session W) ValidationResult
  checked_evidence state result =
      if not (ns_eq result.evidence_for state.target)
      then raise (reindex (text "validation returned evidence for the wrong target namespace"))
      else if passed result
      then pure result
      else (do
        save r (record state {
          phase = MigrationPhase.failed;
          validation = some result;
          error = some (validation_failed result);
          resume_phase = some MigrationPhase.validate;
        })
        raise (reindex (validation_failed result)))

  unfoldable pub validate_records : MigrationState → ℕ → Exec Error (Session W) ValidationResult
  validate_records state n = do
    result ←
        try_catch
          (do
            evidence ← call (r.store.validate_namespace state.target n)
            checked_evidence state evidence)
          (validate_failed state)
    try_catch (save r (validated state result)) (validate_failed (validated state result))
    set_stage r MigrationPhase.validate
    pure result

  unfoldable pub validate_total :
      MigrationState → Option ℕ → Exec Error (Session W) ValidationResult
  validate_total state none =
      raise (reindex (text "Cannot validate a backfill with an unknown record count"))
  validate_total state (some n) =
      if state.checkpoint == n
      then validate_records state n
      else raise (reindex (counts "Cannot validate incomplete backfill" state.checkpoint n))

  unfoldable pub run_validation : MigrationState → Exec Error (Session W) ValidationResult
  run_validation state =
      if phase_eq state.phase MigrationPhase.backfill
        || phase_eq state.phase MigrationPhase.validate
      then (do total ← total_records r state; validate_total state total)
      else raise (reindex (text "Cannot validate before backfill is complete"))

  unfoldable pub validate_state :
      MigrationState → Option ValidationResult → Exec Error (Session W) ValidationResult
  validate_state state none = run_validation state
  validate_state state (some v) = if passed v then pure v else run_validation state

  unfoldable pub validate : Exec Error (Session W) ValidationResult
  validate = do
    state ← load_or_create_state r
    reject_failed state
    validate_state state state.validation

  unfoldable pub save_stage : MigrationState → Exec Error (Session W) MigrationState
  save_stage state = do save r state; set_stage r state.phase; pure state
