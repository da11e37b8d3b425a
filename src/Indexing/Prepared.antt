-- ===== src/Indexing/Prepared.antt =====
-- `run_batches` of `ResumableSemanticCoordinator`, indexing/coordinator.py: batches that the caller has
-- prepared, each with a cursor that the caller may give. The batches are the finite list of what the
-- caller's iterable yields; an exception of the iterable ends it.
use andnp_searchkernel.Prelude.{
  ℕ, ◌+◌, Bool, true, false, Option, none, some, str_eq, List, [], ◌∷◌, ◌⊎◌, inl, inr, map, length,
  ltb, if◌then◌else◌,
}
use andnp_searchkernel.Exec.{Exec, pure, raise, reads, try_catch, modify, ◌>>=◌, ◌>>◌}
use andnp_searchkernel.Indexing.Receipts.{
  Cursor, Record, Exception, exception, ingestion, Error, value_error, type_error, on_exception,
  failed_result, text,
}
use andnp_searchkernel.Indexing.Parts.{
  PreparedIndexBatch, CheckpointStore, Coordinator, CoordinatorReceipt, BatchOutcome, unfinished,
  Options, Run, cursor_eq, reject, call,
}
use andnp_searchkernel.Indexing.Runner.{run}
use andnp_searchkernel.Indexing.Sources.{Yield, yielded, alien, broken}
use andnp_searchkernel.Indexing.Coordinator.{
  first_of, with_outcome, within, load_checkpoint, receipt, save_and_report, batch_failed,
}

-- `CheckpointForBatch`: it gives a cursor, or an awaitable of one.
abbrev pub CheckpointForBatch : Type 0 → Type 0 → Type 0
CheckpointForBatch W D = PreparedIndexBatch D → Exec Error W (Cursor ⊎ Exec Error W Cursor)

-- `if inspect.isawaitable(candidate): candidate = await candidate`.
abbrev pub awaited : {W : Type 0} → Cursor ⊎ Exec Error W Cursor → Exec Error W Cursor
awaited (inl candidate) = pure candidate
awaited (inr m) = m

-- `limit is not None and count > limit`.
abbrev pub exceeds : Option ℕ → ℕ → Bool
exceeds none count = false
exceeds (some limit) count = ltb limit count

-- The two checks of a batch's size.
unfoldable pub check_bounds :
    {S D : Type 0} → Option ℕ → Option ℕ → PreparedIndexBatch D → Exec Error S (Unit {0})
check_bounds max_records max_chunks batch =
    if exceeds max_records (length batch.records)
    then raise (value_error "prepared batch exceeds max_records")
    else if exceeds max_chunks (length batch.chunks)
    then raise (value_error "prepared batch exceeds max_chunks")
    else pure tt

module _ {W F D : Type 0} (parts : Coordinator W F D) (options : Options W)
    (store : Option (CheckpointStore W)) where
  -- The handlers of a batch: a lenient run has results of its own for an `IngestionError`.
  unfoldable pub batch_refused : List Record → Cursor → Exception → Exec Error (Run W) BatchOutcome
  batch_refused records checkpoint (ingestion receipt) =
      reject options.failure_mode receipt
        (unfinished (map (failed_result (text "batch ingestion failed")) records))
  batch_refused records checkpoint (exception name message) =
      batch_failed parts options store records checkpoint (exception name message)

  -- The `try` of a batch.
  unfoldable pub run_prepared : PreparedIndexBatch D → ℕ → Cursor → Exec Error (Run W) BatchOutcome
  run_prepared batch batch_index checkpoint =
      let records = map (λ p. p.indexed) batch.records in
      try_catch (run parts options batch records batch_index checkpoint)
        (on_exception (batch_refused records checkpoint))

  -- A candidate that is not the current cursor is saved, kept and reported.
  unfoldable pub save_if_new : ℕ → Cursor → Exec Error (Run W) (Unit {0})
  save_if_new batch_index candidate = do
    current ← reads (λ s. s.current_checkpoint)
    if cursor_eq candidate current
        then pure tt
        else save_and_report parts options store batch_index candidate

  -- `if checkpoint_for_batch is not None and not checkpoint_blocked`.
  unfoldable pub propose :
      Option (CheckpointForBatch W D) → ℕ → PreparedIndexBatch D → Exec Error (Run W) (Unit {0})
  propose none batch_index batch = pure tt
  propose (some checkpoint_for_batch) batch_index batch = do
    blocked ← reads (λ s. s.checkpoint_blocked)
    if blocked
        then pure tt
        else call (checkpoint_for_batch batch >>= awaited) >>= save_if_new batch_index

  -- The rest of the loop's body, by the outcome of the batch.
  unfoldable pub settle_prepared :
      Option (CheckpointForBatch W D)
      → ℕ
      → PreparedIndexBatch D
      → BatchOutcome
      → Exec Error (Run W) (Unit {0})
  settle_prepared checkpoint_for_batch batch_index batch outcome = do
    modify (with_outcome outcome)
    if outcome.successful
        then propose checkpoint_for_batch batch_index batch
        else modify (λ s. record s { checkpoint_blocked = true })

  -- The loop's body.
  unfoldable pub process_batch :
      Option (CheckpointForBatch W D)
      → Option ℕ
      → Option ℕ
      → ℕ
      → PreparedIndexBatch D
      → Exec Error (Run W) (Unit {0})
  process_batch checkpoint_for_batch max_records max_chunks batch_index batch = do
    check_bounds max_records max_chunks batch
    checkpoint ← reads (λ s. s.current_checkpoint)
    outcome ← run_prepared batch batch_index checkpoint
    settle_prepared checkpoint_for_batch batch_index batch outcome

  -- The loop over `_as_async_batches`.
  unfoldable pub process_batches :
      Option (CheckpointForBatch W D)
      → Option ℕ
      → Option ℕ
      → ℕ
      → List (Yield (PreparedIndexBatch D))
      → Exec Error (Run W) (Unit {0})
  process_batches checkpoint_for_batch max_records max_chunks batch_index [] = pure tt
  process_batches checkpoint_for_batch max_records max_chunks batch_index (alien ∷ batches) =
      raise (type_error "batches must contain PreparedIndexBatch values")
  process_batches checkpoint_for_batch max_records max_chunks batch_index (broken e ∷ batches) =
      raise e
  process_batches checkpoint_for_batch max_records max_chunks batch_index
        (yielded batch ∷ batches) =
      do
        process_batch checkpoint_for_batch max_records max_chunks batch_index batch
        process_batches checkpoint_for_batch max_records max_chunks (batch_index + 1) batches

-- `run_batches`.
unfoldable pub run_batches :
    {W F D : Type 0}
    → Coordinator W F D
    → Options W
    → List (Yield (PreparedIndexBatch D))
    → Cursor
    → Option (CheckpointForBatch W D)
    → Option (CheckpointStore W)
    → Option ℕ
    → Option ℕ
    → Exec Error W CoordinatorReceipt
run_batches parts options batches since checkpoint_for_batch checkpoint_store max_records
      max_chunks =
    let store = first_of checkpoint_store parts.checkpoint_store in
    if str_eq options.source_kind ""
    then raise (value_error "source_kind must not be empty")
    else do
      checkpoint ← load_checkpoint store options since
      within
          (do
            process_batches parts options store checkpoint_for_batch max_records max_chunks 0
                batches
            reads (receipt options store))
          checkpoint
