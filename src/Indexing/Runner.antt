-- ===== src/Indexing/Runner.antt =====
-- `_BatchStageRunner.run` of indexing/coordinator.py: one prepared batch.
use andnp_searchkernel.Prelude.{
  ℕ, true, Option, none, some, List, [], ◌∷◌, ◌++◌, ◌⊎◌, inl, inr, map, ◌==◌, if◌then◌else◌,
}
use andnp_searchkernel.Exec.{Exec, pure, ◌>>=◌, ◌>>◌}
use andnp_searchkernel.Indexing.Receipts.{
  Cursor, Record, RecordIngestionStatus, RecordIngestionResult, IngestionReceipt, count_failed,
  Exception, Error, message_of, failed_result, failed_receipt, receipt_of,
}
use andnp_searchkernel.Indexing.Semantic.{SemanticProgress, Embedding}
use andnp_searchkernel.Indexing.Planner.{execute}
use andnp_searchkernel.Indexing.Parts.{
  StageResult, PreparedIndexBatch, Given, settle, RecordIngestor, IndexStage, Coordinator,
  BatchOutcome, unfinished, Options, Run, plain_event, reject, call, report_progress, attempt,
}

-- Where the first part of a batch leaves off: an early return, or the outcome that the semantic work goes
-- on with.
pub data Commit : Type 0 where
  stopped : BatchOutcome → Commit
  going : BatchOutcome → Commit

abbrev pub unless_stopped :
    {W A : Type 0} → (A → Exec Error (Run W) Commit) → A ⊎ BatchOutcome → Exec Error (Run W) Commit
unless_stopped next (inl a) = next a
unless_stopped next (inr outcome) = pure (stopped outcome)

unfoldable pub committed_result : Record → RecordIngestionResult
committed_result r = record {
  source_kind = r.source_kind;
  source_id = r.source_id;
  workspace_id = r.workspace_id;
  status = RecordIngestionStatus.committed;
  cursor = none;
  error = none;
}

-- The planner's `execute` is called without a callback, in batches of 32.
abbrev pub silent : {W F : Type 0} → Embedding W F → Embedding W F
silent parts = record parts { report = none }

module _ {W F D : Type 0} (parts : Coordinator W F D) (options : Options W)
    (batch : PreparedIndexBatch D) (records : List Record) (batch_index : ℕ)
    (checkpoint : Cursor) where
  -- The handler of the ingestor's call.
  unfoldable pub ingestor_failed : Exception → Exec Error (Run W) BatchOutcome
  ingestor_failed error =
      let receipt =
        failed_receipt options.source_kind options.workspace_id checkpoint records error in
      reject options.failure_mode receipt (unfinished receipt.records)

  -- The handler of a stage's and of the planner's call.
  unfoldable pub work_failed : Exception → Exec Error (Run W) BatchOutcome
  work_failed error =
      let failed = map (failed_result (message_of error)) records in
      reject options.failure_mode
        (receipt_of options.source_kind options.workspace_id checkpoint failed) (unfinished failed)

  unfoldable pub ingested : IngestionReceipt → Exec Error (Run W) Commit
  ingested receipt = do
    report_progress options
        (record (plain_event options batch_index checkpoint "records") { ingestion = some receipt })
    if count_failed receipt.records == 0
        then pure (going (unfinished receipt.records))
        else reject options.failure_mode receipt (stopped (unfinished receipt.records))

  unfoldable pub ingest : RecordIngestor W → Exec Error (Run W) Commit
  ingest ingestor =
      attempt (ingestor records checkpoint options.failure_mode) ingestor_failed
      >>= unless_stopped ingested

  unfoldable pub stage_applied :
      BatchOutcome → Given W StageResult → Exec Error (Run W) BatchOutcome
  stage_applied outcome given = do
    result ← call (settle "index stages must return StageResult" given)
    report_progress options (record (plain_event options batch_index checkpoint result.stage) {
      stage_result = some result;
    })
    pure record outcome { stage_results = outcome.stage_results ++ result ∷ [] }

  -- The loop over the stages.
  unfoldable pub apply_stages : List (IndexStage W D) → BatchOutcome → Exec Error (Run W) Commit
  apply_stages [] outcome = pure (going outcome)
  apply_stages (stage ∷ stages) outcome =
      attempt (stage batch) work_failed
      >>= unless_stopped (λ given. stage_applied outcome given >>= apply_stages stages)

  unfoldable pub commit : Option (RecordIngestor W) → Exec Error (Run W) Commit
  commit (some ingestor) = ingest ingestor
  commit none = apply_stages parts.stages (unfinished (map committed_result records))

  unfoldable pub semantic_done :
      BatchOutcome → SemanticProgress ⊎ BatchOutcome → Exec Error (Run W) BatchOutcome
  semantic_done outcome (inr failed) = pure failed
  semantic_done outcome (inl progress) = do
    report_progress options (record (plain_event options batch_index checkpoint "semantic") {
      semantic = some progress;
    })
    pure record outcome { semantic = some progress; successful = true }

  unfoldable pub run_semantic : Commit → Exec Error (Run W) BatchOutcome
  run_semantic (stopped outcome) = pure outcome
  run_semantic (going outcome) =
      attempt (execute (silent parts.embedding) parts.planner batch.semantic_inputs 32) work_failed
      >>= semantic_done outcome

  -- `run`.
  unfoldable pub run : Exec Error (Run W) BatchOutcome
  run = commit parts.record_ingestor >>= run_semantic
